-- ===== src/Libs/Scan/Strtol.antt =====
-- `strtol` on a string of digits.
use butos.Prelude.{
  ℕ, zero, suc, ◌+◌, ◌^◌, ◌≤◌, ◌<◌, ◌≡◌, ◌≢◌, refl, ap, ap₂, sym, ◌∙◌, false, ◌||◌, none, some,
  List, [], ◌∷◌, ltb, leb, ◌==◌, length, min, arith, dec_lt,
}
use butos.Libs.Memory.{Memory}
use butos.Libs.Ctype.{int_of_char, isspace}
use butos.Libs.Print.{digit}
use butos.Libs.Print.Digits.{value, Below, Stands}
use butos.Libs.Scan.{
  long_max, skip_space, take_sign, take_prefix, strtol_end, strtol_digits, strtol,
}
use butos.Libs.Scan.Numbers.{loop_fits, loop_beyond}

skip_none :
    (fuel : ℕ) (mem : Memory) (p d : ℕ)
    → mem p ≡ digit d
    → d < 16
    → skip_space (suc fuel) mem p ≡ some (int_of_char (digit d), p + 1)
unfolding skip_space isspace
skip_none fuel mem p d at lt =
    let no_space : isspace (int_of_char (digit d)) ≡ false = ground arith in rw (at, no_space) refl

no_sign :
    (mem : Memory) (d s : ℕ)
    → d < 16
    → take_sign mem (int_of_char (digit d)) s ≡ (false, int_of_char (digit d), s)
unfolding take_sign
no_sign mem d s lt = ground arith

-- The character behind the first digit starts no prefix.
record Plain (mem : Memory) (s base : ℕ) : Type 0 where
  no_small_x : mem s ≢ 120
  no_large_x : mem s ≢ 88
  no_small_b : base ≡ 2 → mem s ≢ 98
  no_large_b : base ≡ 2 → mem s ≢ 66

second-Plain :
    (mem : Memory) (p base : ℕ) (ds : List ℕ)
    → base ≤ 16
    → 0 < length ds
    → Below base ds
    → Stands mem p ds
    → mem (p + length ds) ≡ 0
    → Plain mem (p + 1) base
second-Plain mem p base [] le some_digits below stands ends = absurd (omega arith)
second-Plain mem p base (d ∷ []) le some_digits below stands ends = record {
  no_small_x = λ e. omega (arith, e, ends);
  no_large_x = λ e. omega (arith, e, ends);
  no_small_b = λ t e. omega (arith, e, ends);
  no_large_b = λ t e. omega (arith, e, ends);
}
second-Plain mem p base (d ∷ x ∷ ds) le some_digits below stands ends =
    let lt = below.1.0 in
    let at = stands.1.0 in
    record {
      no_small_x = λ e. ground (arith, at);
      no_large_x = λ e. ground (arith, at);
      no_small_b = λ t e. ground (arith, at);
      no_large_b = λ t e. ground (arith, at);
    }

no_prefix :
    (mem : Memory) (c s base : ℕ)
    → 2 ≤ base
    → Plain mem s base
    → take_prefix mem c s base ≡ (c, s, base)
unfolding take_prefix
no_prefix mem c s base two h =
    ground (arith, h.no_small_x, h.no_large_x, h.no_small_b, h.no_large_b)

digits_lem :
    (fuel : ℕ) (mem : Memory) (p base d : ℕ) (ds : List ℕ)
    → 2 ≤ base
    → base ≤ 16
    → length ds + 1 < fuel
    → Below base (d ∷ ds)
    → Stands mem p (d ∷ ds)
    → mem (p + length (d ∷ ds)) ≡ 0
    → strtol_digits fuel mem p false (int_of_char (mem p)) (p + 1) base
      ≡ some (min (value base 0 (d ∷ ds)) long_max, p + length (d ∷ ds))
unfolding strtol_digits strtol_end
digits_lem fuel mem p base d ds two le enough below stands ends =
    let v = value base 0 (d ∷ ds) in
    elim (dec_lt long_max v) [
      | yes beyond ↦
          let (acc, got) =
            loop_beyond mem long_max base (omega arith) le (omega arith) fuel p 0 false (d ∷ ds)
              (omega arith) below stands ends (omega arith) beyond in
          ap (λ o. elim o [ none ↦ none | some out ↦ some (strtol_end false p out) ]) got
          ∙ ap₂ (λ (n e : ℕ). some (n, e)) (omega arith) (omega arith)
      | no fits ↦
          let got =
            loop_fits mem long_max base (omega arith) le (omega arith) fuel p 0 false (d ∷ ds)
              (omega arith) below stands ends (omega arith) in
          ap (λ o. elim o [ none ↦ none | some out ↦ some (strtol_end false p out) ]) got
          ∙ ap₂ (λ (n e : ℕ). some (n, e)) (omega arith) (omega arith)
    ]

-- For a base from 2 to 16 and a string of digits of the base, with more fuel than the string has
-- characters, `strtol` returns the number that the digits stand for, or the largest
-- `long` if the number is larger, and sets `*endptr` behind the digits.
pub strtol_lem :
    (fuel : ℕ) (mem : Memory) (p base : ℕ) (ds : List ℕ)
    → 2 ≤ base
    → base ≤ 16
    → 0 < length ds
    → length ds < fuel
    → Below base ds
    → Stands mem p ds
    → mem (p + length ds) ≡ 0
    → strtol fuel mem p base ≡ some (min (value base 0 ds) long_max, p + length ds)
unfolding strtol
strtol_lem zero mem p base ds two le some_digits enough below stands ends = absurd (omega arith)
strtol_lem (suc fuel) mem p base [] two le some_digits enough below stands ends =
    absurd (omega arith)
strtol_lem (suc fuel) mem p base (d ∷ ds) two le some_digits enough below stands ends =
    let in_range : (leb (2 ^ 31) base || ltb 36 base) ≡ false = ground arith in
    let given : (base == 0) ≡ false = ground arith in
    let lt : d < 16 = omega (arith, below.0) in
    let plain = second-Plain mem p base (d ∷ ds) le some_digits below stands ends in
    rw
      (
        strtol,
        in_range,
        skip_none fuel mem p d stands.0 lt,
        no_sign mem d (p + 1) lt,
        no_prefix mem (int_of_char (digit d)) (p + 1) base two plain,
        given,
      )
      (ap (λ c. strtol_digits (suc fuel) mem p false (int_of_char c) (p + 1) base) (sym stands.0)
        ∙ digits_lem (suc fuel) mem p base d ds two le (omega arith) below stands ends)
