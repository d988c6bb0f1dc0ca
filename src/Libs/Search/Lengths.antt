-- ===== src/Libs/Search/Lengths.antt =====
-- The length of a string.
use butos.Prelude.{
  ℕ, zero, suc, ◌+◌, ◌<◌, ◌≡◌, ◌≢◌, ap, ◌∙◌, some, List, [], ◌∷◌, length, min, arith, ne→==_false,
}
use butos.Libs.Memory.{Memory}
use butos.Libs.Search.{rawmemchr, strlen, strnlen_loop, strnlen}

-- The string at `p` has the characters `cs`, none of which is NUL, and a NUL behind them.
abbrev pub IsString : Memory → ℕ → List ℕ → Type 0
IsString mem p [] = mem p ≡ 0
IsString mem p (c ∷ cs) = (mem p ≡ c) × (c ≢ 0) × IsString mem (p + 1) cs

pub rawmemchr_nul :
    (fuel : ℕ) (mem : Memory) (p : ℕ) (cs : List ℕ)
    → IsString mem p cs
    → length cs < fuel
    → rawmemchr fuel mem p 0 ≡ some (p + length cs)
unfolding rawmemchr
rawmemchr_nul zero mem p cs s enough = absurd (omega arith)
rawmemchr_nul (suc fuel) mem p [] s enough = rw s (ap some (omega arith))
rawmemchr_nul (suc fuel) mem p (c ∷ cs) (at, not_nul, s) enough =
    rw (at, ne→==_false c 0 not_nul)
      (rawmemchr_nul fuel mem (p + 1) cs s (omega arith) ∙ ap some (omega arith))

-- With more fuel than the string has characters, `strlen` returns the number of its characters.
pub strlen_lem :
    (fuel : ℕ) (mem : Memory) (p : ℕ) (cs : List ℕ)
    → IsString mem p cs
    → length cs < fuel
    → strlen fuel mem p ≡ some (length cs)
unfolding strlen
strlen_lem fuel mem p cs s enough =
    rw (strlen, rawmemchr_nul fuel mem p cs s enough) (ap some (omega arith))

strnlen_loop_lem :
    (n : ℕ) (mem : Memory) (p : ℕ) (cs : List ℕ)
    → IsString mem p cs
    → strnlen_loop n mem p ≡ p + min n (length cs)
unfolding strnlen_loop
strnlen_loop_lem zero mem p cs s = omega arith
strnlen_loop_lem (suc n) mem p [] s = rw s (omega arith)
strnlen_loop_lem (suc n) mem p (c ∷ cs) (at, not_nul, s) =
    rw (at, ne→==_false c 0 not_nul) (omega (arith, strnlen_loop_lem n mem (p + 1) cs s))

-- On a string `strnlen` returns the number of its characters, or the bound if that is less.
pub strnlen_lem :
    (n : ℕ) (mem : Memory) (p : ℕ) (cs : List ℕ)
    → IsString mem p cs
    → strnlen mem p n ≡ min n (length cs)
unfolding strnlen
strnlen_lem n mem p cs s = omega (arith, strnlen_loop_lem n mem p cs s)
