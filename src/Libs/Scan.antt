-- ===== src/Libs/Scan.antt =====
-- scan.c: `strtol`, and the reading of a line. The loops of `strtol` run on fuel, and `none` is a loop
-- that goes on. An `int` is its 32-bit pattern.
pub mod Numbers
pub mod Strtol
pub mod Lines
mod Tests
use butos.Prelude.{
  ℕ, zero, suc, ◌+◌, ◌-◌, ◌*◌, ◌/◌, ◌%◌, ◌^◌, Bool, true, false, ◌&&◌, ◌||◌, not, Option, none,
  some, List, [], ◌∷◌, ltb, leb, ◌==◌, if◌then◌else◌, add32, sub32, mul32, word,
}
use butos.Libs.Memory.{Memory, store}
use butos.Libs.Allocator.{null}
use butos.Libs.Ctype.{int_of_char, int_le, isdigit, isalpha, isupper, isspace}

abbrev pub long_max : ℕ
long_max = 2 ^ 31 - 1

abbrev pub long_min : ℕ
long_min = 2 ^ 31

-- `do c = *s++; while (isspace(c));`: the character and the pointer behind it
unfoldable pub skip_space : (fuel : ℕ) → Memory → ℕ → Option (ℕ × ℕ)
unfolding isspace
skip_space zero mem s = none
skip_space (suc fuel) mem s =
    let rest = skip_space fuel mem (s + 1) in
    if isspace (int_of_char (mem s)) then rest else some (int_of_char (mem s), s + 1)

-- Is there a minus? The character and the pointer behind a sign
unfoldable pub take_sign : Memory → (c s : ℕ) → Bool × ℕ × ℕ
take_sign mem c s =
    if c == 45
    then (true, int_of_char (mem s), s + 1)
    else if c == 43
    then (false, int_of_char (mem s), s + 1)
    else (false, c, s)

-- The character, the pointer and the base behind a prefix of the base
unfoldable pub take_prefix : Memory → (c s base : ℕ) → ℕ × ℕ × ℕ
take_prefix mem c s base =
    if (base == 0 || base == 16) && c == 48 && (mem s == 120 || mem s == 88)
    then (int_of_char (mem (s + 1)), s + 2, 16)
    else if (base == 0 || base == 2) && c == 48 && (mem s == 98 || mem s == 66)
    then (int_of_char (mem (s + 1)), s + 2, 2)
    else (c, s, base)

-- `any`: 0, 1 and -1
pub data Any : Type 0 where
  nothing some_read overflow : Any

-- The digit of a character, `none` where the loop breaks
unfoldable pub digit_of : (c base : ℕ) → Option ℕ
unfolding isdigit isalpha isupper
digit_of c base =
    if isdigit c
    then (let d = sub32 c 48 in if int_le base d then none else some d)
    else if isalpha c
    then (let d = sub32 c (if isupper c then 55 else 87) in if int_le base d then none else some d)
    else none

-- One digit more
unfoldable pub accumulate : (cutoff cutlim base d : ℕ) → ℕ → Any → ℕ × Any
accumulate cutoff cutlim base d acc overflow = (acc, overflow)
accumulate cutoff cutlim base d acc nothing =
    if ltb cutoff acc || (acc == cutoff && ltb cutlim d)
    then (acc, overflow)
    else (add32 (mul32 acc base) d, some_read)
accumulate cutoff cutlim base d acc some_read =
    if ltb cutoff acc || (acc == cutoff && ltb cutlim d)
    then (acc, overflow)
    else (add32 (mul32 acc base) d, some_read)

-- The loop over the digits: `acc`, `any` and `s` at its end
unfoldable pub digits_loop :
    (fuel : ℕ) → Memory → (cutoff cutlim base c s acc : ℕ) → Any → Option (ℕ × Any × ℕ)
digits_loop zero mem cutoff cutlim base c s acc any = none
digits_loop (suc fuel) mem cutoff cutlim base c s acc any = elim (digit_of c base) [
  | none ↦ some (acc, any, s)
  | some d ↦
      (let (acc', any') = accumulate cutoff cutlim base d acc any in
        digits_loop fuel mem cutoff cutlim base (int_of_char (mem s)) (s + 1) acc' any')
]

-- The end of `strtol`: the number and `*endptr`
unfoldable pub strtol_end : (neg : Bool) (nptr : ℕ) → ℕ × Any × ℕ → ℕ × ℕ
strtol_end neg nptr (acc, overflow, s) = (if neg then long_min else long_max, s - 1)
strtol_end neg nptr (acc, some_read, s) = (if neg then sub32 0 acc else acc, s - 1)
strtol_end neg nptr (acc, nothing, s) = (if neg then sub32 0 acc else acc, nptr)

-- `strtol` from the character `c` on, with the base known
unfoldable pub strtol_digits :
    (fuel : ℕ) → Memory → (nptr : ℕ) (neg : Bool) (c s base : ℕ) → Option (ℕ × ℕ)
strtol_digits fuel mem nptr neg c s base =
    let limit = if neg then long_min else long_max in
    elim (digits_loop fuel mem (limit / base) (limit % base) base c s 0 nothing) [
      | none ↦ none
      | some out ↦ some (strtol_end neg nptr out)
    ]

-- The number and what `*endptr` is set to, if there is an `endptr`
unfoldable pub strtol : (fuel : ℕ) → Memory → (nptr base : ℕ) → Option (ℕ × ℕ)
unfolding skip_space take_sign take_prefix
strtol fuel mem nptr base =
    if leb (2 ^ 31) base || ltb 36 base then some (0, nptr) else elim (skip_space fuel mem nptr) [
      | none ↦ none
      | some (c0, s0) ↦
          let (neg, c1, s1) = take_sign mem c0 s0 in
          let (c, s, b) = take_prefix mem c1 s1 base in
          strtol_digits fuel mem nptr neg c s (if b == 0 then (if c == 48 then 8 else 10) else b)
    ]

-- `getchar` takes the next key that is no tab; it waits for one while there is none. The keys are
-- those that will be pressed, and `none` is a wait that does not end.
unfoldable pub getchar : List ℕ → Option (ℕ × List ℕ)
getchar [] = none
getchar (c ∷ keys) = let rest = getchar keys in if c == 9 then rest else some (c, keys)

-- The loop of `gets` over the keys, with `s` and `size`. It recurs on the keys, so it passes over the
-- tabs itself, as `getchar` does.
unfoldable pub gets_loop : List ℕ → Memory → (string s size : ℕ) → Option (Memory × List ℕ)
gets_loop [] mem string s size = if ltb 1 size then none else some (store mem s 0, [])
gets_loop (c ∷ keys) mem string s size =
    let tab = gets_loop keys mem string s size in
    let erased =
      gets_loop keys mem string (if ltb string s then s - 1 else s)
        (if ltb string s then size + 1 else size) in
    let more = gets_loop keys (store mem s c) string (s + 1) (size - 1) in
    if ltb 1 size
    then if c == 9
      then tab
      else if c == 8
      then erased
      else if c == 10 || c == 255
      then some (store (store mem s c) (s + 1) 0, keys)
      else more
    else some (store mem s 0, c ∷ keys)

-- The memory, the string, NULL for a size that holds no character, and the keys that are left
unfoldable pub gets : List ℕ → Memory → (s size : ℕ) → Option (Memory × ℕ × List ℕ)
unfolding gets_loop
gets keys mem s size =
    if leb size 1 then some (mem, null, keys) else elim (gets_loop keys mem s s size) [
      | none ↦ none
      | some (mem', rest) ↦ some (mem', s, rest)
    ]
