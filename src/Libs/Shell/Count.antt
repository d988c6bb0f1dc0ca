-- ===== src/Libs/Shell/Count.antt =====
-- `args_get_count` counts the pieces that the line is split into.
use butos.Prelude.{
  ℕ, zero, suc, ◌+◌, ◌<◌, ◌≡◌, ◌≢◌, refl, ap, ◌∙◌, subst, inl, inr, false, Option, none, some, List,
  [], ◌∷◌, ◌==◌, length, arith, ne→==_false, Bool-cases, Option-cases,
}
use butos.Libs.Memory.{Memory}
use butos.Libs.Allocator.{null}
use butos.Libs.Ctype.{int_of_char}
use butos.Libs.Search.{strchr}
use butos.Libs.Search.Lengths.{IsString}
use butos.Libs.Search.Spans.{is_delimiter, before}
use butos.Libs.Text.Tokens.{behind, parts, Part, shift}
use butos.Libs.Shell.{count_loop, args_get_count}
use butos.Libs.Shell.Arguments.{pieces, count_some, count_none, length_step}

-- The place of the first space, or NULL
abbrev place : ℕ → Option (List ℕ) → ℕ
place q none = null
place q (some rest) = q

abbrev first_space : (p : ℕ) → List ℕ → ℕ
first_space p cs = place (p + length (before (32 ∷ []) cs)) (behind (32 ∷ []) cs)

space_lem : (c : ℕ) → (int_of_char c == 32) ≡ is_delimiter (32 ∷ []) c
space_lem c = ground arith

strchr_space :
    (fuel : ℕ) (mem : Memory) (p : ℕ) (cs : List ℕ)
    → IsString mem p cs
    → length cs < fuel
    → strchr fuel mem p 32 ≡ some (first_space p cs)
unfolding strchr
strchr_space zero mem p cs s enough = absurd (omega arith)
strchr_space (suc fuel) mem p [] s enough = rw s refl
strchr_space (suc fuel) mem p (c ∷ cs) (at, not_nul, s) enough =
    elim (Bool-cases (is_delimiter (32 ∷ []) c)) [
      | inl stop ↦ rw (at, space_lem c, stop) (ap some {x = p} {y = p + 0} (omega arith))
      | inr more ↦
          rw (at, space_lem c, more, ne→==_false c 0 not_nul)
            (strchr_space fuel mem (p + 1) cs s (omega arith)
              ∙ ap (λ q. some (place q (behind (32 ∷ []) cs)))
                  (shift p (length (before (32 ∷ []) cs))))
    ]

loop_lem :
    (rounds fuel : ℕ) (mem : Memory) (p count : ℕ) (cs : List ℕ)
    → p ≢ null
    → IsString mem p cs
    → length cs < rounds
    → length cs < fuel
    → count_loop rounds fuel mem p (count + 1) ≡ some (count + length (pieces (32 ∷ []) cs))
unfolding count_loop
loop_lem zero fuel mem p count cs present s enough fits = absurd (omega arith)
loop_lem (suc rounds) fuel mem p count cs present s enough fits =
    elim (Option-cases (behind (32 ∷ []) cs)) [
      | inl e ↦
          let n : strchr fuel mem p 32 ≡ some null =
            strchr_space fuel mem p cs s fits
            ∙ ap (λ o. some (place (p + length (before (32 ∷ []) cs)) o)) e in
          rw (count_loop, n) (ap some (omega (arith, count_none (32 ∷ []) cs e)))
      | inr (rest, e) ↦
          let q = p + length (before (32 ∷ []) cs) in
          let n : strchr fuel mem p 32 ≡ some q =
            strchr_space fuel mem p cs s fits ∙ ap (λ o. some (place q o)) e in
          let far : (q == null) ≡ false = ne→==_false q 0 (omega arith) in
          let size = length_step (32 ∷ []) cs rest e in
          let (not_end, string) = subst (Part mem q) e (parts mem p cs (32 ∷ []) s) in
          rw (count_loop, n, far)
            (loop_lem rounds fuel mem (q + 1) (count + 1) rest (omega arith) string
                (omega (arith, size)) (omega (arith, size))
              ∙ ap some (omega (arith, count_some (32 ∷ []) cs rest e)))
    ]

-- On a line that is there, with more fuel than it has characters, `args_get_count` returns the number
-- of the pieces between its spaces, so that the array of arguments has a place for each.
pub args_get_count_lem :
    (fuel : ℕ) (mem : Memory) (args : ℕ) (cs : List ℕ)
    → args ≢ null
    → IsString mem args cs
    → length cs < fuel
    → args_get_count fuel mem args ≡ some (length (pieces (32 ∷ []) cs))
unfolding args_get_count
args_get_count_lem fuel mem args cs present s enough =
    loop_lem fuel fuel mem args 0 cs present s enough enough ∙ ap some (omega arith)
