-- ===== src/Libs/Text.antt =====
-- The functions of string.c that write: copies and the splitting into tokens. What runs to a NUL runs
-- on fuel, and `none` is a loop that goes on.
pub mod Copies
pub mod Tokens
mod Tests
use butos.Prelude.{
  ℕ, zero, suc, ◌+◌, Bool, true, false, Option, none, some, ◌==◌, if◌then◌else◌, add32,
}
use butos.Libs.Memory.{Memory, store, memcpy}
use butos.Libs.Allocator.{null}
use butos.Libs.Alloc.{Kernel, kalloc, kcalloc, kfree}
use butos.Libs.Ctype.{int_of_char}
use butos.Libs.Search.{rawmemchr, strchr, strlen, strcspn}

-- `while (*src) *start++ = *src++; *start = '\0';`
unfoldable pub strcpy : (fuel : ℕ) → Memory → (dest src : ℕ) → Option Memory
strcpy zero mem dest src = none
strcpy (suc fuel) mem dest src =
    let rest = strcpy fuel (store mem dest (mem src)) (dest + 1) (src + 1) in
    if mem src == 0 then some (store mem dest 0) else rest

unfoldable pub strcat : (fuel : ℕ) → Memory → (dest src : ℕ) → Option Memory
unfolding rawmemchr strcpy
strcat fuel mem dest src = elim (rawmemchr fuel mem dest 0) [
  | none ↦ none
  | some e ↦ strcpy fuel mem e src
]

-- At most `n` characters, and a NUL behind them.
unfoldable pub strncpy : Memory → (dest src n : ℕ) → Memory
strncpy mem dest src zero = store mem dest 0
strncpy mem dest src (suc n) =
    let rest = strncpy (store mem dest (mem src)) (dest + 1) (src + 1) n in
    if mem src == 0 then store mem dest 0 else rest

-- The loop of `strncat` does what that of `strncpy` does.
unfoldable pub strncat : (fuel : ℕ) → Memory → (dest src n : ℕ) → Option Memory
unfolding rawmemchr strncpy
strncat fuel mem dest src n = elim (rawmemchr fuel mem dest 0) [
  | none ↦ none
  | some e ↦ some (strncpy mem e src n)
]

-- The body of `tokenize`'s loop calls `strchr` with the same fuel.
unfoldable pub tokenize :
    (rounds fuel : ℕ) → Memory → (tokenized str delim : ℕ) → (dont_repeat : Bool) → Option Memory
unfolding strchr
tokenize zero fuel mem tokenized str delim dont_repeat = none
tokenize (suc rounds) fuel mem tokenized str delim dont_repeat =
    if mem str == 0
    then some (store (store mem tokenized 0) (tokenized + 1) 0)
    else elim (strchr fuel mem delim (int_of_char (mem str))) [
      | none ↦ none
      | some p ↦
          let plain =
            tokenize rounds fuel (store mem tokenized (mem str)) (tokenized + 1) (str + 1) delim
              false in
          let first =
            tokenize rounds fuel (store mem tokenized 0) (tokenized + 1) (str + 1) delim true in
          let again = tokenize rounds fuel mem tokenized (str + 1) delim true in
          if p == null then plain else if dont_repeat then again else first
    ]

-- The kernel, the new `*stringp` and the token; `null` where there is no more.
unfoldable pub strsep : (fuel : ℕ) → Memory → (stringp delim : ℕ) → Option (Memory × ℕ × ℕ)
strsep fuel mem stringp delim =
    if stringp == null then some (mem, null, null) else elim (strcspn fuel mem stringp delim) [
      | none ↦ none
      | some n ↦
          if mem (stringp + n) == 0
          then some (mem, null, stringp)
          else some (store mem (stringp + n) 0, stringp + n + 1, stringp)
    ]

-- The end of `strdup`, with what `kcalloc` returned
unfoldable pub dup_end : ℕ → ℕ → Kernel × ℕ → Kernel × ℕ
dup_end s len (k, copy) =
    if copy == null then (k, null) else (record k { memory = memcpy k.memory copy s len }, copy)

unfoldable pub strdup : (fuel : ℕ) → Kernel → ℕ → Option (Kernel × ℕ)
unfolding strlen dup_end
strdup fuel k s = elim (strlen fuel k.memory s) [
  | none ↦ none
  | some n ↦ some (dup_end s (add32 n 1) (kcalloc k (add32 n 1) 1))
]
