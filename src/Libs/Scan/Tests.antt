-- ===== src/Libs/Scan/Tests.antt =====
-- Lines that are typed, and numbers in strings.
use butos.Prelude.{ℕ, ◌-◌, ◌≤◌, ◌<◌, ◌≡◌, inl, inr, refl, some, List, [], ◌∷◌, arith, get_or, min}
use butos.Libs.Memory.{Memory}
use butos.Libs.Memory.Copy.{Outside}
use butos.Libs.Ctype.{isdigit, isalpha, isupper, islower, isspace}
use butos.Libs.Scan.{
  long_max, gets, strtol, strtol_digits, strtol_end, digits_loop, digit_of, accumulate, skip_space,
  take_sign, take_prefix,
}
use butos.Libs.Scan.Lines.{gets_lem}
use butos.Libs.Scan.Strtol.{strtol_lem}

abbrev text : List ℕ → Memory
text cs a = get_or cs (a - 100) 0

-- "12", a key erased before the newline
abbrev typed : List ℕ
typed = 49 ∷ 50 ∷ 51 ∷ 8 ∷ 10 ∷ []

gets_lem_example :
    (mem' : Memory) × (rest : List ℕ) × (gets typed (text []) 100 20 ≡ some (mem', 100, rest))
    × ((e : ℕ) × (100 ≤ e) × (e < 120) × (mem' e ≡ 0))
    × ((a : ℕ) → Outside 100 20 a → mem' a ≡ text [] a)
gets_lem_example = gets_lem typed (text []) 100 20 (inr (inr (inr (inr (inl refl))))) (omega arith)

-- "-0x1f" in base 0
negative_hex : strtol 10 (text (45 ∷ 48 ∷ 120 ∷ 49 ∷ 102 ∷ [])) 100 0 ≡ some (4294967265, 105)
unfolding strtol strtol_digits strtol_end digits_loop digit_of accumulate skip_space take_sign
    take_prefix isdigit isalpha isupper islower isspace
negative_hex = refl

strtol_lem_example : strtol 10 (text (49 ∷ 50 ∷ 51 ∷ [])) 100 10 ≡ some (min 123 long_max, 103)
strtol_lem_example =
    strtol_lem 10 (text (49 ∷ 50 ∷ 51 ∷ [])) 100 10 (1 ∷ 2 ∷ 3 ∷ []) (omega arith) (omega arith)
      (omega arith) (omega arith) (omega arith, (omega arith, (omega arith, tt)))
      (refl, (refl, (refl, tt))) refl
