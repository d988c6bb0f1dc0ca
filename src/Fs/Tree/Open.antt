-- ===== src/Fs/Tree/Open.antt =====
-- A file that was created in the root directory and is opened by its path.
use butos.Prelude.{
  ℕ, zero, suc, ◌+◌, ◌≤◌, ◌<◌, ◌≡◌, refl, ap, ◌∙◌, true, Option, none, some, List, [], ◌∷◌, ◌++◌,
  length, length-append, arith, ne→==_false, ==_iff,
}
use butos.Fs.Disk.{Drive}
use butos.Fs.Volume.{FatFs}
use butos.Fs.Entry.{Entry, file_attr, file_entry_create}
use butos.Fs.Entry.Copies.{ArePlain}
use butos.Fs.Dir.{dir_search}
use butos.Fs.Dir.Names.{dir_search-file_entry_create}
use butos.Fs.File.{file_open}
use butos.Fs.File.Paths.{HasNoSlash, rstrip_path_lem}
use butos.Fs.DirScan.{Dir, dir_scan}
use butos.Fs.Tree.{Tree, first_name, search_name, search_path, dir_search_path, file_open_path}
use butos.Fs.Tree.Names.{search_path-step}

first_name-short :
    (k : ℕ) (name : List ℕ) → HasNoSlash name → length name ≤ k → first_name k name ≡ (name, [])
unfolding first_name
first_name-short zero [] h le = refl
first_name-short zero (c ∷ name) h le = absurd (omega arith)
first_name-short (suc k) [] h le = refl
first_name-short (suc k) (c ∷ name) h le =
    rw (ne→==_false c 47 h.0) (ap (λ r. (c ∷ r.0, r.1)) (first_name-short k name h.1 (omega arith)))

created_attr : (name : List ℕ) (cluster : ℕ) → (file_entry_create name cluster).attr ≡ file_attr
unfolding file_entry_create
created_attr name cluster = refl

module _ (d : Drive) (low : List ℕ) where
  -- A name in the directory itself
  search_here :
      (fuel : ℕ) (fs : FatFs d.State) (dir : Dir) (name : List ℕ) (e : Entry)
      → HasNoSlash name
      → length name ≤ 11
      → dir_search true dir.entries name ≡ some e
      → dir_search_path d low fuel fs dir name ≡ some (fs, some e)
  unfolding dir_search_path search_name
  search_here fuel fs dir name e h le found =
      let below = search_path d low (length name) fuel in
      ap (λ r. search_path d low r fuel fs dir.entries name) {x = length name + 1}
        {y = suc (length name)} (omega arith)
      ∙ search_path-step d low (length name) fuel fs dir.entries name
      ∙ ap (λ r. search_name d low below fuel fs (dir_search true dir.entries r.0) r.1)
          (first_name-short 11 name h le)
      ∙ ap (λ o. search_name d low below fuel fs o []) found

  open_found :
      (fuel : ℕ) (t : Tree d.State) (name : List ℕ) (e : Entry)
      → let (root, fs1) = dir_scan d t.root_dir t.fs in
        HasNoSlash name
        → e.attr ≡ file_attr
        → dir_search_path d low fuel fs1 root name ≡ some (fs1, some e)
        → file_open_path d low fuel t (47 ∷ name)
          ≡ some (record { fs = fs1; root_dir = root }, some (file_open fs1 e, 47 ∷ name))
  unfolding file_open_path
  open_found fuel t name e h attr found =
      let (root, fs1) = dir_scan d t.root_dir t.fs in
      rw (found, (==_iff e.attr file_attr).1 attr)
        (ap (λ p. some (record { fs = fs1; root_dir = root }, some (file_open fs1 e, p)))
          (rstrip_path_lem 47 [] name h).1)

  -- When the scan of the root directory leaves an entry that `file_entry_create` has made of a name,
  -- behind entries among which the name is not found, `file_open_path` of a slash and the name opens
  -- this entry in the file system that the scan leaves, and takes the whole path for the path of its
  -- directory. The name has one to seven characters, a dot and one to three characters, none of them
  -- a NUL, a space, another dot or a slash.
  pub file_open_path-created :
      (fuel : ℕ) (t : Tree d.State) (b e cluster : ℕ) (base ext : List ℕ)
      (entries rest : List (Option Entry))
      → let name = (b ∷ base) ++ 46 ∷ e ∷ ext in
        let made = file_entry_create name cluster in
        let (root, fs1) = dir_scan d t.root_dir t.fs in
        ArePlain (b ∷ base)
        → ArePlain (e ∷ ext)
        → HasNoSlash name
        → length base < 7
        → length ext < 3
        → dir_search true entries name ≡ none
        → root.entries ≡ entries ++ some made ∷ rest
        → file_open_path d low fuel t (47 ∷ name)
          ≡ some (record { fs = fs1; root_dir = root }, some (file_open fs1 made, 47 ∷ name))
  file_open_path-created fuel t b e cluster base ext entries rest hb he slash h1 h2 absent scanned =
      let name = (b ∷ base) ++ 46 ∷ e ∷ ext in
      let (root, fs1) = dir_scan d t.root_dir t.fs in
      open_found fuel t name (file_entry_create name cluster) slash (created_attr name cluster) (
        search_here fuel fs1 root name (file_entry_create name cluster) slash
          (omega (arith, length-append (b ∷ base) (46 ∷ e ∷ ext)))
          (ap (λ es. dir_search true es name) scanned
            ∙ dir_search-file_entry_create b e cluster base ext entries rest hb he h1 h2 absent))
