-- ===== src/Prelude/Division.antt =====
-- Quotients and remainders by a variable.
use Prim.Native.Nat.{ℕ, ◌+◌, ◌-◌, ◌*◌, ◌/◌, ◌%◌, ◌≤◌, ◌<◌}
use mathlib.Core.Path.{◌≡◌, ap, sym, ◌∙◌}
use mathlib.Core.Logic.{◌≢◌, ◌⊎◌, inl, inr}
use native.Mathlib.Nat.{
  mod-add-mod, mod-eq_of_lt, mod-eq-sub-mod, mod-lt, div-lt_iff_lt-mul, div-add-mod, mul_assoc,
}
use native.Mathlib.Decide.{dec_lt}
use native.Mathlib.Omega.{arith}

pub div_same : (o b k : ℕ) → o % b + k < b → (o + k) / b ≡ o / b
div_same o b k h = grind arith

pub mod_same : (o b k : ℕ) → o % b + k < b → (o + k) % b ≡ o % b + k
mod_same o b k h = grind arith

-- Fewer than `n` steps round a ring of `n` do not lead back.
pub step_ne : (n h k : ℕ) → h < n → 0 < k → k < n → (h + k) % n ≢ h
step_ne n h k hh pos lt = elim (dec_lt (h + k) n) [
  | yes below ↦ omega (arith, mod-eq_of_lt below)
  | no over ↦ omega (
    arith,
    mod-eq-sub-mod {n = h + k} {m = n} (omega arith),
    mod-eq_of_lt {n = h + k - n} {m = n} (omega arith),
  )
]

-- Numbers that are less than `n` apart have different remainders.
pub mod_ne : (n t u : ℕ) → t < u → u < t + n → t % n ≢ u % n
mod_ne n t u lt near e =
    step_ne n (t % n) (u - t) (mod-lt t (omega arith)) (omega arith) (omega arith)
      (mod-add-mod t n (u - t) ∙ ap (λ k. k % n) (omega arith) ∙ sym e)

pub div-lt : (o s b : ℕ) → 0 < b → o < s * b → o / b < s
div-lt o s b pos h = (div-lt_iff_lt-mul pos).1 h

-- A multiple of four leaves room for four bytes before a multiple of four.
pub mod_aligned : (i b : ℕ) → 0 < b → b % 4 ≡ 0 → i * 4 % b + 3 < b
mod_aligned i b pos four =
    let q = i * 4 / b in
    let e = div-add-mod (i * 4) b in
    let m = mod-lt (i * 4) pos in
    let f : b ≡ 4 * (b / 4) = omega arith in
    let g : b * q ≡ 4 * (b / 4 * q) = ap (λ n. n * q) f ∙ mul_assoc 4 (b / 4) q in
    omega (arith, e, m, g)

-- Two longs of one block share no byte.
pub longs_apart :
    (i j b : ℕ)
    → i ≢ j
    → i * 4 / b ≡ j * 4 / b
    → (i * 4 % b + 4 ≤ j * 4 % b) ⊎ (j * 4 % b + 4 ≤ i * 4 % b)
longs_apart i j b ne e =
    let f = div-add-mod (i * 4) b in
    let g = div-add-mod (j * 4) b in
    let m = ap (λ q. b * q) e in
    elim (dec_lt i j) [
      | yes lt ↦ inl (omega (arith, f, g, m))
      | no ge ↦ inr (omega (arith, f, g, m))
    ]
