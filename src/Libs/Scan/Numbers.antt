-- ===== src/Libs/Scan/Numbers.antt =====
-- `strtol` reads a number, and stops at the largest one that a `long` can hold.
use butos.Prelude.{
  ℕ, zero, suc, ◌+◌, ◌*◌, ◌/◌, ◌%◌, ◌≤◌, ◌<◌, ◌≡◌, refl, ap, ap₂, ◌∙◌, Bool, true, false, ◌&&◌,
  ◌||◌, Option, none, some, List, [], ◌∷◌, ltb, ◌==◌, length, mul32, word, arith, dec_lt,
  le→ltb_false, lt→ltb,
}
use native.Mathlib.Nat.{add-mul, mod-eq_of_lt, div-add-mod, mod-lt, mul_comm, mul-le-mul_right}
use butos.Libs.Memory.{Memory}
use butos.Libs.Ctype.{int_of_char, isdigit, isalpha, isupper, islower}
use butos.Libs.Print.{digit}
use butos.Libs.Print.Digits.{value, Below, Stands}
use butos.Libs.Atoi.Numbers.{value_le}
use butos.Libs.Scan.{Any, nothing, some_read, overflow, digit_of, accumulate, digits_loop}

digit_of-digit :
    (d base : ℕ) → d < base → base ≤ 16 → digit_of (int_of_char (digit d)) base ≡ some d
unfolding digit_of isdigit isalpha isupper islower
digit_of-digit d base lt le = ground arith

digit_of_nul : (base : ℕ) → digit_of (int_of_char 0) base ≡ none
unfolding digit_of isdigit isalpha isupper islower
digit_of_nul base = ground arith

-- The test for overflow, by the quotient and the remainder of the limit, is exact.
cutoff_lem :
    (limit base acc d : ℕ)
    → d < base
    → (ltb (limit / base) acc || (acc == limit / base && ltb (limit % base) d))
      ≡ ltb limit (acc * base + d)
cutoff_lem limit base acc d lt =
    let q = limit / base in
    let e = div-add-mod limit base in
    let m : limit % base < base = mod-lt limit (omega arith) in
    let c = mul_comm base q in
    elim (dec_lt acc q) [
      | yes below ↦
          let up : (acc + 1) * base ≤ q * base = mul-le-mul_right base (omega arith) in
          let s = add-mul acc 1 base in ground (arith, up, s, e, c, m)
      | no ge ↦ elim (dec_lt q acc) [
        | yes above ↦
            let up : (q + 1) * base ≤ acc * base = mul-le-mul_right base (omega arith) in
            let s = add-mul q 1 base in ground (arith, up, s, e, c, m)
        | no le ↦
            let same : acc ≡ q = omega arith in
            let p : acc * base ≡ q * base = ap (λ n. n * base) same in
            ground (arith, p, e, c, m, same)
      ]
    ]

-- `any` as long as there is no overflow
abbrev pub any_of : Bool → Any
any_of true = some_read
any_of false = nothing

accumulate_fits :
    (limit base acc d : ℕ) (started : Bool)
    → d < base
    → acc * base + d ≤ limit
    → limit < word
    → accumulate (limit / base) (limit % base) base d acc (any_of started)
      ≡ (acc * base + d, some_read)
unfolding accumulate
accumulate_fits limit base acc d true lt fits small =
    let m : mul32 acc base ≡ acc * base = mod-eq_of_lt (omega arith) in
    rw (cutoff_lem limit base acc d lt, le→ltb_false (acc * base + d) limit fits, m)
      (ap (λ n. (n, some_read)) (mod-eq_of_lt (omega arith)))
accumulate_fits limit base acc d false lt fits small =
    let m : mul32 acc base ≡ acc * base = mod-eq_of_lt (omega arith) in
    rw (cutoff_lem limit base acc d lt, le→ltb_false (acc * base + d) limit fits, m)
      (ap (λ n. (n, some_read)) (mod-eq_of_lt (omega arith)))

accumulate_beyond :
    (limit base acc d : ℕ) (started : Bool)
    → d < base
    → limit < acc * base + d
    → accumulate (limit / base) (limit % base) base d acc (any_of started) ≡ (acc, overflow)
unfolding accumulate
accumulate_beyond limit base acc d true lt beyond =
    rw (cutoff_lem limit base acc d lt, lt→ltb limit (acc * base + d) beyond) refl
accumulate_beyond limit base acc d false lt beyond =
    rw (cutoff_lem limit base acc d lt, lt→ltb limit (acc * base + d) beyond) refl

loop_break :
    (fuel : ℕ) (mem : Memory) (q r base c s acc : ℕ) (any : Any)
    → digit_of c base ≡ none
    → digits_loop (suc fuel) mem q r base c s acc any ≡ some (acc, any, s)
unfolding digits_loop
loop_break fuel mem q r base c s acc any e = rw (digits_loop, e) refl

loop_step :
    (fuel : ℕ) (mem : Memory) (q r base c s acc d acc' : ℕ) (any any' : Any)
    → digit_of c base ≡ some d
    → accumulate q r base d acc any ≡ (acc', any')
    → digits_loop (suc fuel) mem q r base c s acc any
      ≡ digits_loop fuel mem q r base (int_of_char (mem s)) (s + 1) acc' any'
unfolding digits_loop
loop_step fuel mem q r base c s acc d acc' any any' e f = rw (digits_loop, e, f) refl

module _ (mem : Memory) (limit base : ℕ) (pos : 0 < base) (le : base ≤ 16)
    (small : limit < word) where
  -- The loop at the character at `p`
  abbrev pub loop : ℕ → ℕ → ℕ → Any → Option (ℕ × Any × ℕ)
  loop fuel p acc any =
      digits_loop fuel mem (limit / base) (limit % base) base (int_of_char (mem p)) (p + 1) acc any

  loop_end :
      (fuel p acc : ℕ) (any : Any) → mem p ≡ 0 → loop (suc fuel) p acc any ≡ some (acc, any, p + 1)
  loop_end fuel p acc any ends =
      loop_break fuel mem (limit / base) (limit % base) base (int_of_char (mem p)) (p + 1) acc any
        (ap (λ c. digit_of (int_of_char c) base) ends ∙ digit_of_nul base)

  digit_at : (p d : ℕ) → mem p ≡ digit d → d < base → digit_of (int_of_char (mem p)) base ≡ some d
  digit_at p d at lt = ap (λ c. digit_of (int_of_char c) base) at ∙ digit_of-digit d base lt le

  loop_overflow :
      (fuel p acc : ℕ) (ds : List ℕ)
      → length ds < fuel
      → Below base ds
      → Stands mem p ds
      → mem (p + length ds) ≡ 0
      → loop fuel p acc overflow ≡ some (acc, overflow, p + length ds + 1)
  unfolding digits_loop accumulate
  loop_overflow zero p acc ds enough below stands ends = absurd (omega arith)
  loop_overflow (suc fuel) p acc [] enough below stands ends =
      loop_end fuel p acc overflow (ap mem (omega arith) ∙ ends)
      ∙ ap (λ n. some (acc, overflow, n)) (omega arith)
  loop_overflow (suc fuel) p acc (d ∷ ds) enough below stands ends =
      loop_step fuel mem (limit / base) (limit % base) base (int_of_char (mem p)) (p + 1) acc d acc
        overflow overflow (digit_at p d stands.0 below.0) refl
      ∙ loop_overflow fuel (p + 1) acc ds (omega arith) below.1 stands.1
          (ap mem (omega arith) ∙ ends)
      ∙ ap (λ n. some (acc, overflow, n)) (omega arith)

  -- `any` behind the digits
  abbrev pub behind : Bool → List ℕ → Bool
  behind started [] = started
  behind started (d ∷ ds) = true

  pub loop_fits :
      (fuel p acc : ℕ) (started : Bool) (ds : List ℕ)
      → length ds < fuel
      → Below base ds
      → Stands mem p ds
      → mem (p + length ds) ≡ 0
      → value base acc ds ≤ limit
      → loop fuel p acc (any_of started)
        ≡ some (value base acc ds, any_of (behind started ds), p + length ds + 1)
  unfolding digits_loop
  loop_fits zero p acc started ds enough below stands ends fits = absurd (omega arith)
  loop_fits (suc fuel) p acc started [] enough below stands ends fits =
      loop_end fuel p acc (any_of started) (ap mem (omega arith) ∙ ends)
      ∙ ap (λ n. some (acc, any_of started, n)) (omega arith)
  loop_fits (suc fuel) p acc started (d ∷ ds) enough below stands ends fits =
      let up = value_le base (acc * base + d) ds pos in
      loop_step fuel mem (limit / base) (limit % base) base (int_of_char (mem p)) (p + 1) acc d
        (acc * base + d) (any_of started) some_read (digit_at p d stands.0 below.0)
        (accumulate_fits limit base acc d started below.0 (omega (arith, up, fits)) small)
      ∙ loop_fits fuel (p + 1) (acc * base + d) true ds (omega arith) below.1 stands.1
          (ap mem (omega arith) ∙ ends) fits
      ∙ ap₂ (λ b n. some (value base (acc * base + d) ds, any_of b, n)) (behind_true ds)
          (omega arith)
    where
      behind_true : (xs : List ℕ) → behind true xs ≡ true
      behind_true [] = refl
      behind_true (x ∷ xs) = refl

  pub loop_beyond :
      (fuel p acc : ℕ) (started : Bool) (ds : List ℕ)
      → length ds < fuel
      → Below base ds
      → Stands mem p ds
      → mem (p + length ds) ≡ 0
      → acc ≤ limit
      → limit < value base acc ds
      → (acc' : ℕ) × (loop fuel p acc (any_of started) ≡ some (acc', overflow, p + length ds + 1))
  loop_beyond zero p acc started ds enough below stands ends in_range beyond = absurd (omega arith)
  loop_beyond (suc fuel) p acc started [] enough below stands ends in_range beyond =
      absurd (omega arith)
  loop_beyond (suc fuel) p acc started (d ∷ ds) enough below stands ends in_range beyond =
      elim (dec_lt limit (acc * base + d)) [
        | yes over ↦ (
          acc,
          loop_step fuel mem (limit / base) (limit % base) base (int_of_char (mem p)) (p + 1) acc d
                acc (any_of started) overflow (digit_at p d stands.0 below.0)
                (accumulate_beyond limit base acc d started below.0 over)
              ∙ loop_overflow fuel (p + 1) acc ds (omega arith) below.1 stands.1
                  (ap mem (omega arith) ∙ ends)
              ∙ ap (λ n. some (acc, overflow, n)) (omega arith),
        )
        | no within ↦
            let (acc', got) =
              loop_beyond fuel (p + 1) (acc * base + d) true ds (omega arith) below.1 stands.1
                (ap mem (omega arith) ∙ ends) (omega arith) beyond in
            (
              acc',
              loop_step fuel mem (limit / base) (limit % base) base (int_of_char (mem p)) (p + 1)
                    acc d (acc * base + d) (any_of started) some_read
                    (digit_at p d stands.0 below.0)
                    (accumulate_fits limit base acc d started below.0 (omega arith) small)
                  ∙ got
                  ∙ ap (λ n. some (acc', overflow, n)) (omega arith),
            )
      ]
