-- ===== src/Libs/Text/Tests.antt =====
-- Copies of the string "ab" at 100.
use butos.Prelude.{◌≡◌, inr, refl, some, [], ◌∷◌, ◌==◌, if◌then◌else◌, arith}
use butos.Libs.Memory.{Memory}
use butos.Libs.Search.Lengths.{IsString}
use butos.Libs.Text.{strcpy, strncpy, strcat}
use butos.Libs.Text.Copies.{Copied, strcpy_lem, strncpy_lem, strcat_lem}

abbrev mem : Memory
mem a = if a == 100 then 97 else if a == 101 then 98 else 0

ab : IsString mem 100 (97 ∷ 98 ∷ [])
ab = (refl, omega arith, (refl, omega arith, refl))

strcpy_lem_test :
    (mem' : Memory) × (strcpy 5 mem 300 100 ≡ some mem') × Copied mem mem' 300 (97 ∷ 98 ∷ [])
strcpy_lem_test = strcpy_lem 5 mem 300 100 (97 ∷ 98 ∷ []) ab (inr (omega arith)) (omega arith)

strncpy_lem_test : Copied mem (strncpy mem 300 100 1) 300 (97 ∷ [])
strncpy_lem_test = strncpy_lem 1 mem 300 100 (97 ∷ 98 ∷ []) ab (inr (omega arith))

strcat_lem_test :
    (mem' : Memory) × (strcat 5 mem 300 100 ≡ some mem') × Copied mem mem' 300 (97 ∷ 98 ∷ [])
strcat_lem_test =
    strcat_lem 5 mem 300 100 [] (97 ∷ 98 ∷ []) refl ab (inr (omega arith)) (omega arith)
      (omega arith)
