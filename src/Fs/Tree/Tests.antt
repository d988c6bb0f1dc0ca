-- ===== src/Fs/Tree/Tests.antt =====
-- Paths in a small directory.
use butos.Prelude.{ℕ, ◌≡◌, refl, true, none, some, List, [], ◌∷◌, arith}
use butos.Fs.Cache.{cache_init, cache_lines_create, flush_line, flush_lines, cache_flush}
use butos.Fs.Samples.{Sectors, drive, fs}
use butos.Fs.Entry.{Entry, entry_cluster, file_attr, file_entry_create}
use butos.Fs.Dir.{dir_search, compare_short_name, short_name_str, before_space, strcmp_insensitive}
use butos.Fs.Dir.Names.{dir_search-file_entry_create}
use butos.Fs.File.{file_open}
use butos.Fs.File.Paths.{rstrip_path, rstrip_loop, rstrip_path_lem}
use butos.Fs.DirScan.{Dir, copy_name, scan_loop, dir_scan}
use butos.Fs.Tree.{
  Tree, blank_entry, dir_attr, first_name, search_name, search_path, dir_search_path, open_below,
  dir_open_path, file_open_path, file_close, delete_in, file_delete,
}
use butos.Fs.Tree.Names.{dir_search_path-long, dir_search_path-enough}
use butos.Fs.Tree.Start.{fake_entry_create}
use butos.Fs.Tree.Open.{file_open_path-created}

-- The names A.TXT and SUB as they stand in the entries
abbrev a_txt : Entry
a_txt = record blank_entry {
  short_name = 65 ∷ 32 ∷ 32 ∷ 32 ∷ 32 ∷ 32 ∷ 32 ∷ 32 ∷ 84 ∷ 88 ∷ 84 ∷ [];
  attr = file_attr;
  low_cluster = 3;
}

abbrev sub : Entry
sub = record blank_entry {
  short_name = 83 ∷ 85 ∷ 66 ∷ 32 ∷ 32 ∷ 32 ∷ 32 ∷ 32 ∷ 32 ∷ 32 ∷ 32 ∷ [];
  attr = dir_attr;
  low_cluster = 3;
}

abbrev root : Dir
root = record {
  ident = record {
    entry = record blank_entry { low_cluster = 2 };
    cache = cache_init 2 16;
    cluster = 2;
  };
  num_entries = 2;
  entries = some a_txt ∷ some sub ∷ [];
}

abbrev tree : Tree Sectors
tree = record { fs = fs; root_dir = root }

abbrev path_a : List ℕ
path_a = 47 ∷ 65 ∷ 46 ∷ 84 ∷ 88 ∷ 84 ∷ []

rstrip_path_lem_example :
    (rstrip_path (47 ∷ 68 ∷ 47 ∷ 65 ∷ []) ≡ 47 ∷ 68 ∷ [])
    × (rstrip_path (47 ∷ 65 ∷ []) ≡ 47 ∷ 65 ∷ [])
rstrip_path_lem_example = rstrip_path_lem 47 (68 ∷ []) (65 ∷ []) (omega arith, tt)

-- ABCDEFGH.TXT
dir_search_path-long_example :
    dir_search_path drive [] 5 fs root
      (65 ∷ 66 ∷ 67 ∷ 68 ∷ 69 ∷ 70 ∷ 71 ∷ 72 ∷ 46 ∷ 84 ∷ 88 ∷ 84 ∷ [])
    ≡ some (fs, none)
dir_search_path-long_example =
    dir_search_path-long drive [] 5 fs root
      (65 ∷ 66 ∷ 67 ∷ 68 ∷ 69 ∷ 70 ∷ 71 ∷ 72 ∷ 46 ∷ 84 ∷ 88 ∷ []) [] 84
      (
        omega arith,
        (
          omega arith,
          (
            omega arith,
            (
              omega arith,
              (
                omega arith,
                (
                  omega arith,
                  (omega arith, (omega arith, (omega arith, (omega arith, (omega arith, tt))))),
                ),
              ),
            ),
          ),
        ),
      )
      refl (omega arith)

dir_search_path-enough_example :
    search_path drive [] 9 5 fs root.entries (83 ∷ 85 ∷ 66 ∷ 47 ∷ 65 ∷ [])
    ≡ dir_search_path drive [] 5 fs root (83 ∷ 85 ∷ 66 ∷ 47 ∷ 65 ∷ [])
dir_search_path-enough_example =
    dir_search_path-enough drive [] 9 5 fs root (83 ∷ 85 ∷ 66 ∷ 47 ∷ 65 ∷ []) (omega arith)

-- The file is opened, and the path of its directory is taken to be its own.
opened : file_open_path drive [] 5 tree path_a ≡ some (tree, some (file_open fs a_txt, path_a))
unfolding file_open_path file_open rstrip_path rstrip_loop dir_scan scan_loop dir_search_path
    search_path search_name first_name dir_search compare_short_name short_name_str before_space
    strcmp_insensitive
opened = refl

not_opened : dir_open_path drive [] 5 tree path_a ≡ some (tree, none)
unfolding dir_open_path open_below dir_scan scan_loop dir_search_path search_path search_name
    first_name dir_search compare_short_name short_name_str before_space strcmp_insensitive
not_opened = refl

-- So a file in the root directory is not deleted.
not_deleted : file_delete drive [] 5 tree path_a ≡ some tree
unfolding file_delete file_open_path file_open rstrip_path rstrip_loop dir_scan scan_loop
    dir_search_path search_path search_name first_name dir_search compare_short_name short_name_str
    before_space strcmp_insensitive dir_open_path open_below delete_in file_close cache_flush
    flush_lines flush_line cache_init cache_lines_create
not_deleted = refl

-- B.C is made behind A.TXT and SUB.
absent : dir_search true root.entries (66 ∷ 46 ∷ 67 ∷ []) ≡ none
unfolding dir_search compare_short_name short_name_str before_space strcmp_insensitive
absent = refl

dir_search-file_entry_create_example :
    dir_search true
      (some a_txt ∷ some sub ∷ some (file_entry_create (66 ∷ 46 ∷ 67 ∷ []) 70000) ∷ none ∷ [])
      (66 ∷ 46 ∷ 67 ∷ [])
    ≡ some (file_entry_create (66 ∷ 46 ∷ 67 ∷ []) 70000)
dir_search-file_entry_create_example =
    dir_search-file_entry_create 66 67 70000 [] [] root.entries (none ∷ [])
      ((omega arith, omega arith, omega arith, omega arith), tt)
      ((omega arith, omega arith, omega arith, omega arith), tt) (omega arith) (omega arith) absent

-- The tree with B.C in its root directory
abbrev made : Entry
made = file_entry_create (66 ∷ 46 ∷ 67 ∷ []) 70000

abbrev tree_made : Tree Sectors
tree_made = record {
  fs = fs;
  root_dir = record root { entries = some a_txt ∷ some sub ∷ some made ∷ none ∷ [] };
}

file_open_path-created_example :
    file_open_path drive [] 5 tree_made (47 ∷ 66 ∷ 46 ∷ 67 ∷ [])
    ≡ some (tree_made, some (file_open fs made, 47 ∷ 66 ∷ 46 ∷ 67 ∷ []))
unfolding dir_scan scan_loop
file_open_path-created_example =
    file_open_path-created drive [] 5 tree_made 66 67 70000 [] [] root.entries (none ∷ [])
      ((omega arith, omega arith, omega arith, omega arith), tt)
      ((omega arith, omega arith, omega arith, omega arith), tt)
      (omega arith, (omega arith, (omega arith, tt))) (omega arith) (omega arith) absent refl

-- The entry of a root directory in cluster 300
root_cluster_cut : entry_cluster (fake_entry_create 300 (47 ∷ []) 0) ≡ 44
unfolding fake_entry_create copy_name
root_cluster_cut = refl
