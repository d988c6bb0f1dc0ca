-- ===== src/Libs/Atoi/Numbers.antt =====
-- `atoi` reads back what `base_convert` prints.
use butos.Prelude.{
  ℕ, zero, suc, ◌+◌, ◌*◌, ◌≤◌, ◌<◌, ◌≡◌, ◌≢◌, refl, ap, ◌∙◌, Bool, true, false, ◌&&◌, some, List,
  [], ◌∷◌, ◌==◌, length, add32, sub32, mul32, word, arith, ne→==_false,
}
use native.Mathlib.Nat.{mul-le-mul_left}
use butos.Libs.Memory.{Memory}
use butos.Libs.Ctype.{int_of_char, isdigit}
use butos.Libs.Print.{digit, base_convert}
use butos.Libs.Print.Digits.{value, Below, Stands, base_convert_lem}
use butos.Libs.Atoi.{decimal_loop, atoi}

isdigit-digit : (d : ℕ) → d < 10 → isdigit (int_of_char (digit d)) ≡ true
unfolding isdigit
isdigit-digit d h = ground arith

-- Digits never decrease the number that was read.
pub value_le : (base acc : ℕ) (ds : List ℕ) → 0 < base → acc ≤ value base acc ds
value_le base acc [] pos = omega arith
value_le base acc (d ∷ ds) pos =
    let up : acc * 1 ≤ acc * base = mul-le-mul_left acc pos in
    omega (arith, value_le base (acc * base + d) ds pos, up)

decimal_loop_lem :
    (fuel : ℕ) (mem : Memory) (p acc : ℕ) (ds : List ℕ)
    → length ds < fuel
    → Below 10 ds
    → Stands mem p ds
    → mem (p + length ds) ≡ 0
    → value 10 acc ds < word
    → decimal_loop fuel mem p acc ≡ some (value 10 acc ds)
unfolding decimal_loop
decimal_loop_lem zero mem p acc ds enough below stands ends small = absurd (omega arith)
decimal_loop_lem (suc fuel) mem p acc [] enough below stands ends small =
    let at : mem p ≡ 0 = ap mem (omega arith) ∙ ends in rw at refl
decimal_loop_lem (suc fuel) mem p acc (d ∷ ds) enough below stands ends small =
    let le = value_le 10 (acc * 10 + d) ds (omega arith) in
    let lt = below.0 in
    let next : sub32 (add32 (mul32 acc 10) (int_of_char (digit d))) 48 ≡ acc * 10 + d =
      ground arith in
    let more : (digit d == 0) ≡ false = ground arith in
    rw (stands.0, more, isdigit-digit d below.0, next)
      (decimal_loop_lem fuel mem (p + 1) (acc * 10 + d) ds (omega arith) below.1 stands.1
        (ap mem (omega arith) ∙ ends) small)

second-digit :
    (mem : Memory) (p : ℕ) (ds : List ℕ)
    → 0 < length ds
    → Below 10 ds
    → Stands mem p ds
    → mem (p + length ds) ≡ 0
    → mem (p + 1) ≢ 120
second-digit mem p [] some_digits below stands ends = absurd (omega arith)
second-digit mem p (d ∷ []) some_digits below stands ends = λ e. omega (arith, e, ends)
second-digit mem p (d ∷ x ∷ ds) some_digits below stands ends =
    λ e. let lt = below.1.0 in ground (arith, stands.1.0)

first-digit :
    (mem : Memory) (p : ℕ) (ds : List ℕ)
    → 0 < length ds
    → Below 10 ds
    → Stands mem p ds
    → mem p ≢ 45
first-digit mem p [] some_digits below stands = absurd (omega arith)
first-digit mem p (d ∷ ds) some_digits below stands =
    λ e. let lt = below.0 in ground (arith, stands.0)

no_prefix : (b : Bool) (c : ℕ) → c ≢ 120 → (b && c == 120) ≡ false
no_prefix b c ne = ground (arith, ne)

atoi_digits :
    (fuel : ℕ) (mem : Memory) (p : ℕ) (ds : List ℕ)
    → length ds < fuel
    → 0 < length ds
    → Below 10 ds
    → Stands mem p ds
    → mem (p + length ds) ≡ 0
    → value 10 0 ds < word
    → atoi fuel mem p ≡ some (value 10 0 ds)
unfolding atoi
atoi_digits fuel mem p ds enough some_digits below stands ends small =
    let plain : (mem p == 48 && mem (p + 1) == 120) ≡ false =
      no_prefix (mem p == 48) (mem (p + 1)) (second-digit mem p ds some_digits below stands ends) in
    let unsigned : (mem p == 45) ≡ false =
      ne→==_false (mem p) 45 (first-digit mem p ds some_digits below stands) in
    rw (plain, unsigned) (decimal_loop_lem fuel mem p 0 ds enough below stands ends small)

-- What `base_convert` prints of a 32-bit number in base 10, in a buffer of at least 33 bytes, is read
-- back by `atoi` as the number, with fuel for 33 characters.
pub atoi-base_convert :
    (fuel : ℕ) (mem : Memory) (buffer size num : ℕ)
    → 33 ≤ size
    → num < word
    → 33 ≤ fuel
    → atoi fuel (base_convert mem buffer size num 10).0 buffer ≡ some num
atoi-base_convert fuel mem buffer size num room small enough =
    let p = base_convert_lem mem buffer size num 10 (omega arith) (omega arith) room small in
    atoi_digits fuel (base_convert mem buffer size num 10).0 buffer p.digits (omega (arith, p.few))
      p.not_empty p.below p.stands p.ends (omega (arith, p.number))
    ∙ ap some p.number
