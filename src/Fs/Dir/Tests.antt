-- ===== src/Fs/Dir/Tests.antt =====
-- Names in a directory.
use butos.Prelude.{ℕ, ◌≡◌, ◌↔◌, refl, true, none, some, List, [], ◌∷◌, arith}
use butos.Fs.Entry.{Entry}
use butos.Fs.Dir.{strcmp_insensitive, compare_short_name, short_name_str, before_space, dir_search}
use butos.Fs.Dir.Search.{strcmp_insensitive_lem}

abbrev entry : Entry
entry = record {
  short_name = 65 ∷ 66 ∷ 32 ∷ 32 ∷ 32 ∷ 32 ∷ 32 ∷ 32 ∷ 67 ∷ 32 ∷ 32 ∷ [];
  attr = 0x20;
  reserved = 0;
  ctime = 0;
  atime = 0;
  high_cluster = 0;
  mtime = 0;
  low_cluster = 3;
  size = 0;
}

-- "AB.C" is found as "xb.c".
found : dir_search true (none ∷ some entry ∷ []) (120 ∷ 98 ∷ 46 ∷ 99 ∷ []) ≡ some entry
unfolding dir_search compare_short_name short_name_str before_space strcmp_insensitive
found = refl

strcmp_insensitive_lem_example :
    (strcmp_insensitive (65 ∷ 66 ∷ []) (120 ∷ 98 ∷ []) ≡ 0) ↔ (◌≡◌ {A = List ℕ} (98 ∷ []) (98 ∷ []))
strcmp_insensitive_lem_example =
    strcmp_insensitive_lem 65 120 (66 ∷ []) (98 ∷ [])
      (omega arith, omega arith, (omega arith, omega arith, tt))
      (omega arith, omega arith, (omega arith, omega arith, tt))
