-- ===== src/Libs/Search/Tests.antt =====
-- The strings "ab" at 100 and "a" at 200.
use butos.Prelude.{
  ℕ, suc, ◌+◌, ◌<◌, ◌≡◌, ◌↔◌, ◌⊎◌, refl, some, List, [], ◌∷◌, ◌==◌, if◌then◌else◌, arith, sub32,
}
use butos.Libs.Memory.{Memory}
use butos.Libs.Allocator.{null}
use butos.Libs.Search.{
  memcmp, memchr, memrchr, strcmp, strncmp, strlen, strnlen, strcspn, strcspn_loop, strcspn_inner,
  strrchr, strrchr_loop, strchr,
}
use butos.Libs.Search.Lengths.{IsString, strlen_lem, strnlen_lem}
use butos.Libs.Search.Comparisons.{AreBytes, Same, memcmp_lem, strncmp_lem, strcmp_lem}
use butos.Libs.Search.Bytes.{Without, memchr_lem, memrchr_lem}

abbrev mem : Memory
mem a = if a == 100 then 97 else if a == 101 then 98 else if a == 200 then 97 else 0

mem-AreBytes : AreBytes mem
mem-AreBytes a = ground arith

ab : IsString mem 100 (97 ∷ 98 ∷ [])
ab = (refl, omega arith, (refl, omega arith, refl))

just_a : IsString mem 200 (97 ∷ [])
just_a = (refl, omega arith, refl)

-- No character of "ab" is in the string "" at 300, and 'b' is in it at 1.
span : strcspn 5 mem 100 300 ≡ some 2
unfolding strcspn strcspn_loop strcspn_inner
span = refl

last : strrchr 5 mem 100 98 ≡ some 101
unfolding strrchr strrchr_loop strchr
last = refl

strlen_lem_test : strlen 5 mem 100 ≡ some 2
strlen_lem_test = strlen_lem 5 mem 100 (97 ∷ 98 ∷ []) ab (omega arith)

strnlen_lem_test : strnlen mem 100 1 ≡ 1
strnlen_lem_test = strnlen_lem 1 mem 100 (97 ∷ 98 ∷ []) ab

memcmp_lem_test : (memcmp mem 100 200 1 ≡ 0) ↔ Same mem 100 200 2
memcmp_lem_test = memcmp_lem mem 100 200 1 mem-AreBytes

strncmp_lem_test : (strncmp mem 100 200 1 ≡ 0) ↔ (◌≡◌ {A = List ℕ} (97 ∷ 98 ∷ []) (97 ∷ []))
strncmp_lem_test = strncmp_lem mem 100 200 1 (97 ∷ 98 ∷ []) (97 ∷ []) mem-AreBytes ab just_a

strcmp_lem_test :
    (r : ℕ) × (strcmp 5 mem 100 200 ≡ some r)
    × ((r ≡ 0) ↔ (◌≡◌ {A = List ℕ} (97 ∷ 98 ∷ []) (97 ∷ [])))
strcmp_lem_test =
    strcmp_lem 5 mem 100 200 (97 ∷ 98 ∷ []) (97 ∷ []) mem-AreBytes ab just_a (omega arith)

memchr_lem_test :
    ((i : ℕ) × (i < 3)
      × (mem (100 + i) ≡ 98)
      × Without mem 100 98 0 i
      × (memchr mem 100 98 3 ≡ 100 + i))
    ⊎ (Without mem 100 98 0 3 × (memchr mem 100 98 3 ≡ null))
memchr_lem_test = memchr_lem mem 100 98 3 (omega arith) (omega arith)

memrchr_lem_test :
    ((i : ℕ) × (i < 3)
      × (mem (100 + i) ≡ 98)
      × Without mem 100 98 (suc i) 3
      × (memrchr mem 100 98 3 ≡ 100 + i))
    ⊎ (Without mem 100 98 0 3
        × (memrchr mem 100 98 3 ≡ (if mem (sub32 100 1) == 98 then sub32 100 1 else null)))
memrchr_lem_test = memrchr_lem mem 100 98 3 (omega arith)
