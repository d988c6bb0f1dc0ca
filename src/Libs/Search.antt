-- ===== src/Libs/Search.antt =====
-- The functions of string.c that only read: comparisons, searches and lengths. What runs to a NUL
-- runs on fuel, and `none` is a loop that goes on; NULL is `null`. An `int` is its 32-bit pattern.
pub mod Lengths
pub mod Spans
pub mod Comparisons
pub mod Bytes
mod Tests
use butos.Prelude.{
  ℕ, zero, suc, ◌+◌, ◌-◌, ◌%◌, Bool, true, false, ◌&&◌, not, Option, none, some, ◌==◌,
  if◌then◌else◌, add32, sub32, word,
}
use butos.Libs.Memory.{Memory}
use butos.Libs.Allocator.{null}
use butos.Libs.Ctype.{int_of_char}

-- `*s1_ - *s2_` of bytes, and `*s1 - *s2` of signed characters
abbrev pub byte_difference : Memory → ℕ → ℕ → ℕ
byte_difference mem s1 s2 = sub32 (mem s1) (mem s2)

abbrev pub char_difference : Memory → ℕ → ℕ → ℕ
char_difference mem s1 s2 = sub32 (int_of_char (mem s1)) (int_of_char (mem s2))

-- The byte behind the last one is compared when all `n` are equal.
unfoldable pub memcmp : Memory → (s1 s2 n : ℕ) → ℕ
memcmp mem s1 s2 zero = byte_difference mem s1 s2
memcmp mem s1 s2 (suc n) =
    let rest = memcmp mem (s1 + 1) (s2 + 1) n in
    if mem s1 == mem s2 then rest else byte_difference mem s1 s2

-- The loop of `memchr` over at most `k` bytes from index `i` on
unfoldable pub memchr_loop : (k : ℕ) → Memory → (s c i : ℕ) → ℕ
memchr_loop zero mem s c i = i
memchr_loop (suc k) mem s c i =
    let rest = memchr_loop k mem s c (i + 1) in if mem (s + i) == c then i else rest

unfoldable pub memchr : Memory → (s c n : ℕ) → ℕ
unfolding memchr_loop
memchr mem s c n =
    let i = memchr_loop (sub32 n 1) mem s c 0 in if mem (s + i) == c then s + i else null

-- The loop of `memrchr`: it leaves `n` at -1 if no byte is found.
unfoldable pub memrchr_loop : Memory → (s c n : ℕ) → ℕ
memrchr_loop mem s c zero = sub32 0 1
memrchr_loop mem s c (suc n) =
    let rest = memrchr_loop mem s c n in if mem (s + n) == c then n else rest

unfoldable pub memrchr : Memory → (s c n : ℕ) → ℕ
unfolding memrchr_loop
memrchr mem s c n =
    let i = memrchr_loop mem s c n in if mem (add32 s i) == c then add32 s i else null

unfoldable pub rawmemchr : (fuel : ℕ) → Memory → (s c : ℕ) → Option ℕ
rawmemchr zero mem s c = none
rawmemchr (suc fuel) mem s c =
    let rest = rawmemchr fuel mem (s + 1) c in if mem s == c then some s else rest

unfoldable pub strcmp : (fuel : ℕ) → Memory → (s1 s2 : ℕ) → Option ℕ
strcmp zero mem s1 s2 = none
strcmp (suc fuel) mem s1 s2 =
    let rest = strcmp fuel mem (s1 + 1) (s2 + 1) in
    if mem s1 == mem s2 && not (mem s1 == 0) && not (mem s2 == 0)
    then rest
    else some (char_difference mem s1 s2)

-- The character behind the last one is compared when all `n` are equal.
unfoldable pub strncmp : Memory → (s1 s2 n : ℕ) → ℕ
strncmp mem s1 s2 zero = char_difference mem s1 s2
strncmp mem s1 s2 (suc n) =
    let rest = strncmp mem (s1 + 1) (s2 + 1) n in
    if mem s1 == mem s2 && not (mem s1 == 0) && not (mem s2 == 0)
    then rest
    else char_difference mem s1 s2

unfoldable pub strchr : (fuel : ℕ) → Memory → (s c : ℕ) → Option ℕ
strchr zero mem s c = none
strchr (suc fuel) mem s c =
    let rest = strchr fuel mem (s + 1) c in
    if int_of_char (mem s) == c then some s else if mem s == 0 then some null else rest

-- The loop of `strrchr`; both loops have the same fuel.
unfoldable pub strrchr_loop : (rounds fuel : ℕ) → Memory → (s c found : ℕ) → Option ℕ
unfolding strchr
strrchr_loop zero fuel mem s c found = none
strrchr_loop (suc rounds) fuel mem s c found = elim (strchr fuel mem s c) [
  | none ↦ none
  | some p ↦ if p == null then some found else strrchr_loop rounds fuel mem (p + 1) c p
]

unfoldable pub strrchr : (fuel : ℕ) → Memory → (s c : ℕ) → Option ℕ
unfolding strchr strrchr_loop
strrchr fuel mem s c =
    if c % 256 == 0 then strchr fuel mem s 0 else strrchr_loop fuel fuel mem s (c % 256) null

unfoldable pub strlen : (fuel : ℕ) → Memory → ℕ → Option ℕ
unfolding rawmemchr
strlen fuel mem s = elim (rawmemchr fuel mem s 0) [ none ↦ none | some e ↦ some (e - s) ]

-- The loop of `strnlen`
unfoldable pub strnlen_loop : (maxlen : ℕ) → Memory → ℕ → ℕ
strnlen_loop zero mem p = p
strnlen_loop (suc maxlen) mem p =
    let rest = strnlen_loop maxlen mem (p + 1) in if mem p == 0 then p else rest

unfoldable pub strnlen : Memory → (s maxlen : ℕ) → ℕ
unfolding strnlen_loop
strnlen mem s maxlen = strnlen_loop maxlen mem s - s

-- The inner loop of `strcspn`: is `c` among the characters from `spanp` on, the NUL included?
unfoldable pub strcspn_inner : (fuel : ℕ) → Memory → (spanp c : ℕ) → Option Bool
strcspn_inner zero mem spanp c = none
strcspn_inner (suc fuel) mem spanp c =
    let rest = strcspn_inner fuel mem (spanp + 1) c in
    if mem spanp == c then some true else if mem spanp == 0 then some false else rest

-- The outer loop of `strcspn`; both loops have the same fuel.
unfoldable pub strcspn_loop : (rounds fuel : ℕ) → Memory → (s1 s2 p : ℕ) → Option ℕ
unfolding strcspn_inner
strcspn_loop zero fuel mem s1 s2 p = none
strcspn_loop (suc rounds) fuel mem s1 s2 p = elim (strcspn_inner fuel mem s2 (mem p)) [
  | none ↦ none
  | some true ↦ some (p - s1)
  | some false ↦ strcspn_loop rounds fuel mem s1 s2 (p + 1)
]

unfoldable pub strcspn : (fuel : ℕ) → Memory → (s1 s2 : ℕ) → Option ℕ
unfolding strcspn_loop
strcspn fuel mem s1 s2 = strcspn_loop fuel fuel mem s1 s2 s1
