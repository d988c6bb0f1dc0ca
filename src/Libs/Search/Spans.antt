-- ===== src/Libs/Search/Spans.antt =====
-- The characters of a string that come before the first delimiter.
use butos.Prelude.{
  ℕ, zero, suc, ◌+◌, ◌-◌, ◌<◌, ◌≡◌, refl, ap, ◌∙◌, Bool, Option, true, false, ◌||◌, some, List, [],
  ◌∷◌, ◌==◌, if◌then◌else◌, length, arith, ne→==_false, Bool-cases, inl, inr,
}
use butos.Libs.Memory.{Memory}
use butos.Libs.Search.{strcspn_inner, strcspn_loop, strcspn}
use butos.Libs.Search.Lengths.{IsString}

abbrev pub is_delimiter : List ℕ → ℕ → Bool
is_delimiter [] c = false
is_delimiter (d ∷ ds) c = d == c || is_delimiter ds c

-- The characters up to the first delimiter, and whether there is one
abbrev pub before : List ℕ → List ℕ → List ℕ
before ds [] = []
before ds (c ∷ cs) = let rest = before ds cs in if is_delimiter ds c then [] else c ∷ rest

inner_lem :
    (fuel : ℕ) (mem : Memory) (p c : ℕ) (ds : List ℕ)
    → IsString mem p ds
    → length ds < fuel
    → strcspn_inner fuel mem p c ≡ some (is_delimiter ds c || c == 0)
unfolding strcspn_inner
inner_lem zero mem p c ds s enough = absurd (omega arith)
inner_lem (suc fuel) mem p c [] s enough = rw s (nul_lem c)
  where
    nul_lem :
        (x : ℕ)
        → (if 0 == x
            then some true
            else if 0 == 0
            then some false
            else strcspn_inner fuel mem (p + 1) c)
          ≡ some (x == 0)
    nul_lem x = ground arith
inner_lem (suc fuel) mem p c (d ∷ ds) (at, not_nul, s) enough = elim (Bool-cases (d == c)) [
  | inl here ↦ rw (at, here) refl
  | inr further ↦
      rw (at, further, ne→==_false d 0 not_nul) (inner_lem fuel mem (p + 1) c ds s (omega arith))
]

-- At a NUL the inner loop finds the NUL of the delimiters.
stops : (b : Bool) {x : ℕ} {o : Option Bool} → x ≡ 0 → o ≡ some (b || x == 0) → o ≡ some true
stops true nul e = e
stops false {x = x} nul e = e ∙ ap some (ground arith)

loop_lem :
    (rounds fuel : ℕ) (mem : Memory) (s1 s2 p : ℕ) (cs ds : List ℕ)
    → IsString mem p cs
    → IsString mem s2 ds
    → length cs < rounds
    → length ds < fuel
    → strcspn_loop rounds fuel mem s1 s2 p ≡ some (p + length (before ds cs) - s1)
unfolding strcspn_loop
loop_lem zero fuel mem s1 s2 p cs ds s d enough fits = absurd (omega arith)
loop_lem (suc rounds) fuel mem s1 s2 p [] ds s d enough fits =
    rw (strcspn_loop, stops (is_delimiter ds (mem p)) s (inner_lem fuel mem s2 (mem p) ds d fits))
      (ap (λ k. some (k - s1)) (omega arith))
loop_lem (suc rounds) fuel mem s1 s2 p (c ∷ cs) ds (at, not_nul, s) d enough fits =
    let e : strcspn_inner fuel mem s2 (mem p) ≡ some (is_delimiter ds c || c == 0) =
      inner_lem fuel mem s2 (mem p) ds d fits ∙ ap (λ x. some (is_delimiter ds x || x == 0)) at in
    elim (Bool-cases (is_delimiter ds c)) [
      | inl stop ↦
          rw (strcspn_loop, e, stop) (ap (λ k. some (k - s1)) {x = p} {y = p + 0} (omega arith))
      | inr more ↦
          rw (strcspn_loop, e, more, ne→==_false c 0 not_nul)
            (loop_lem rounds fuel mem s1 s2 (p + 1) cs ds s d (omega arith) fits
              ∙ ap (λ k. some (k - s1)) (omega arith))
    ]

-- On two strings, with more fuel than either has characters, `strcspn` returns how many characters of
-- the first come before the first that is in the second, or before its end.
pub strcspn_lem :
    (fuel : ℕ) (mem : Memory) (s1 s2 : ℕ) (cs ds : List ℕ)
    → IsString mem s1 cs
    → IsString mem s2 ds
    → length cs < fuel
    → length ds < fuel
    → strcspn fuel mem s1 s2 ≡ some (length (before ds cs))
unfolding strcspn
strcspn_lem fuel mem s1 s2 cs ds s d enough fits =
    loop_lem fuel fuel mem s1 s2 s1 cs ds s d enough fits ∙ ap some (omega arith)
