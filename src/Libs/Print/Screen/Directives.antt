-- ===== src/Libs/Print/Screen/Directives.antt =====
-- Formats with their arguments, in memory, and the characters that they stand for.
use butos.Prelude.{
  ℕ, suc, ◌+◌, ◌-◌, ◌^◌, ◌≤◌, ◌<◌, ◌≡◌, ◌≢◌, sym, subst, false, true, ◌∙◌, ◌⊎◌, Bool, ◌&&◌, List,
  [], ◌∷◌, ◌++◌, map, length, arith, word, leb, if◌then◌else◌,
}
use butos.Libs.Memory.{Memory}
use butos.Libs.Memory.Copy.{Outside}
use butos.Libs.Search.Lengths.{IsString}
use butos.Libs.Print.{digit}
use butos.Libs.Print.Digits.{value, Below}

-- The letters behind a percent sign, with the base in which each prints a number and whether the number
-- is signed: x, d, u, b and o
pub data Letter : (opt base : ℕ) (is_signed : Bool) → Type 0 where
  hexadecimal : Letter 120 16 false
  decimal : Letter 100 10 true
  unsigned : Letter 117 10 false
  binary : Letter 98 2 false
  octal : Letter 111 8 false

-- A format with its arguments: a character, a string, and a number that is printed in a base
pub data Directive : Type 0 where
  char : (c : ℕ) → Directive
  string : (cs : List ℕ) → Directive
  integer : (base : ℕ) (is_signed : Bool) (num : ℕ) → Directive

-- The format at `str` and the arguments from the `n`-th on; no byte of the format or of a string lies
-- in the local buffer.
abbrev pub Encoded : Memory → (buffer : ℕ) (args : ℕ → ℕ) (str n : ℕ) → List Directive → Type 0
Encoded mem buffer args str n [] = Outside buffer 80 str × (mem str ≡ 0)
Encoded mem buffer args str n (char c ∷ ds) =
    Outside buffer 80 str
    × (mem str ≡ c)
    × (c ≢ 0)
    × (c ≢ 37)
    × Encoded mem buffer args (str + 1) n ds
Encoded mem buffer args str n (string cs ∷ ds) =
    Outside buffer 80 str
    × Outside buffer 80 (str + 1)
    × (mem str ≡ 37)
    × (mem (str + 1) ≡ 115)
    × ((args n + length cs < buffer) ⊎ (buffer + 80 ≤ args n))
    × IsString mem (args n) cs
    × Encoded mem buffer args (str + 2) (n + 1) ds
Encoded mem buffer args str n (integer base is_signed num ∷ ds) =
    Outside buffer 80 str
    × Outside buffer 80 (str + 1)
    × (mem str ≡ 37)
    × Letter (mem (str + 1)) base is_signed
    × (args n ≡ num)
    × (num < word)
    × Encoded mem buffer args (str + 2) (n + 1) ds

-- The absolute value of a signed number, as two's complement has it, and its sign
abbrev pub absolute : Bool → ℕ → ℕ
absolute is_signed num = if is_signed && leb (2 ^ 31) num then word - num else num

abbrev pub sign : Bool → ℕ → List ℕ
sign is_signed num = if is_signed && leb (2 ^ 31) num then 45 ∷ [] else []

-- The characters are those that the directives stand for; a number is its sign and digits of the
-- base that have its value.
abbrev pub Output : List Directive → List ℕ → Type 0
Output [] cs = cs ≡ []
Output (char c ∷ ds) cs = (rest : List ℕ) × (cs ≡ c ∷ rest) × Output ds rest
Output (string xs ∷ ds) cs = (rest : List ℕ) × (cs ≡ xs ++ rest) × Output ds rest
Output (integer base is_signed num ∷ ds) cs =
    (digits : List ℕ) × (rest : List ℕ) × (value base 0 digits ≡ absolute is_signed num)
    × Below base digits
    × (0 < length digits)
    × (cs ≡ sign is_signed num ++ (map digit digits ++ rest))
    × Output ds rest

-- How many numbers are printed
abbrev pub integers : List Directive → ℕ
integers [] = 0
integers (char c ∷ ds) = integers ds
integers (string cs ∷ ds) = integers ds
integers (integer base is_signed num ∷ ds) = suc (integers ds)

-- No string is longer than `bound`.
abbrev pub Fit : ℕ → List Directive → Type 0
Fit bound [] = Unit
Fit bound (char c ∷ ds) = Fit bound ds
Fit bound (string cs ∷ ds) = (length cs ≤ bound) × Fit bound ds
Fit bound (integer base is_signed num ∷ ds) = Fit bound ds

IsString-frame :
    (mem mem' : Memory) (p : ℕ) (cs : List ℕ)
    → ((a : ℕ) → p ≤ a → a ≤ p + length cs → mem' a ≡ mem a)
    → IsString mem p cs
    → IsString mem' p cs
IsString-frame mem mem' p [] same s = same p (omega arith) (omega arith) ∙ s
IsString-frame mem mem' p (c ∷ cs) same (at, not_nul, s) = (
  same p (omega arith) (omega arith) ∙ at,
  not_nul,
  IsString-frame mem mem' (p + 1) cs (λ a from to. same a (omega arith) (omega arith)) s,
)

-- What is written to the buffer leaves the format and the strings as they are.
pub Encoded-frame :
    (mem mem' : Memory) (buffer : ℕ) (args : ℕ → ℕ) (str n : ℕ) (ds : List Directive)
    → ((a : ℕ) → Outside buffer 80 a → mem' a ≡ mem a)
    → Encoded mem buffer args str n ds
    → Encoded mem' buffer args str n ds
Encoded-frame mem mem' buffer args str n [] same (o, at) = (o, same str o ∙ at)
Encoded-frame mem mem' buffer args str n (char c ∷ ds) same (o, at, c0, c37, e) =
    (o, same str o ∙ at, c0, c37, Encoded-frame mem mem' buffer args (str + 1) n ds same e)
Encoded-frame mem mem' buffer args str n (string cs ∷ ds) same (o, o', at, at', apart, s, e) = (
  o,
  o',
  same str o ∙ at,
  same (str + 1) o' ∙ at',
  apart,
  IsString-frame mem mem' (args n) cs (λ a from to. same a (omega (arith, apart))) s,
  Encoded-frame mem mem' buffer args (str + 2) (n + 1) ds same e,
)
Encoded-frame mem mem' buffer args str n (integer base b num ∷ ds) same
      (o, o', at, letter, arg, small, e) =
    (
      o,
      o',
      same str o ∙ at,
      subst (λ c. Letter c base b) (sym (same (str + 1) o')) letter,
      arg,
      small,
      Encoded-frame mem mem' buffer args (str + 2) (n + 1) ds same e,
    )
