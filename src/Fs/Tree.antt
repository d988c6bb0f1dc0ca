-- ===== src/Fs/Tree.antt =====
-- dir.c and file.c: directories and files that are opened, created and deleted by their paths. A path
-- is the list of the characters before its NUL. The kernel heap is taken to have a place for every
-- block that is asked for.
pub mod Names
pub mod Open
pub mod Start
mod Tests
use butos.Prelude.{
  ℕ, zero, suc, ◌+◌, ◌-◌, ◌*◌, ◌/◌, Bool, true, false, ◌||◌, not, Option, none, some, List, [], ◌∷◌,
  ltb, ◌==◌, if◌then◌else◌, get_or, length, replicate, take, add32, mul32,
}
use butos.Libs.Memory.{Memory}
use butos.Libs.Search.{strncmp}
use butos.Fs.Disk.{Drive, bytes_to_word}
use butos.Fs.Cache.{cache_flush}
use butos.Fs.Volume.{FatFs, write_cluster}
use butos.Fs.Table.{
  eoc1, fat_table_write, fat_table_alloc_cluster, first_free_cluster_read, cluster_chain_get_len,
}
use butos.Fs.Entry.{Entry, entry_cluster, short_name_len, file_attr, file_entry_create}
use butos.Fs.File.{File, file_open, file_read, file_write}
use butos.Fs.File.Paths.{rstrip_path}
use butos.Fs.Dir.{dir_search}
use butos.Fs.DirScan.{Dir, sizeof_entry, dir_scan, entry_of_bytes, entry_bytes, dir_entry_create}

-- The file system with its `root_dir`
pub record Tree (State : Type 0) : Type 0 where
  pub fs : FatFs State
  pub root_dir : Dir

abbrev pub dir_attr : ℕ
dir_attr = 0x10

abbrev pub exit_success : ℕ
exit_success = 0

abbrev pub exit_failure : ℕ
exit_failure = 1

-- An entry that `kcalloc` has cleared
abbrev pub blank_entry : Entry
blank_entry = record {
  short_name = replicate short_name_len 0;
  attr = 0;
  reserved = 0;
  ctime = 0;
  atime = 0;
  high_cluster = 0;
  mtime = 0;
  low_cluster = 0;
  size = 0;
}

abbrev pub entry_array_create : ℕ → List (Option Entry)
entry_array_create num_entries = replicate num_entries (some blank_entry)

-- The entry at a NULL pointer, where the memory holds `low`; that its size is set there is not followed.
unfoldable pub null_entry : (low : List ℕ) → Entry
unfolding entry_of_bytes
null_entry low = record (entry_of_bytes low) {
  short_name = take short_name_len low;
  reserved = bytes_to_word low 12;
}

-- The loop of `dir_search_path` that takes at most `k` characters of a path for a name, and what is
-- left of the path
unfoldable pub first_name : (k : ℕ) → List ℕ → List ℕ × List ℕ
first_name zero path = ([], path)
first_name (suc k) [] = ([], [])
first_name (suc k) (c ∷ path) =
    let (name, rest) = first_name k path in if c == 47 then ([], c ∷ path) else (c ∷ name, rest)

-- Two buffers as `strncmp` gets them, the second at the address 64
abbrev pub two_buffers : List ℕ → List ℕ → Memory
two_buffers a b p = if ltb p 64 then get_or a p 0 else get_or b (p - 64) 0

-- `low` is what the memory holds from the address 0 on, where a NULL pointer reads. The fuel is that
-- of `cluster_chain_get_len`, and a result `none` is its loop that goes on.
module _ (d : Drive) (low : List ℕ) where
  -- `write_cluster` as the cache of a file calls it
  unfoldable pub write_block : FatFs d.State → ℕ → Option (List ℕ) → FatFs d.State × ℕ
  write_block fs cluster none = write_cluster d fs cluster low
  write_block fs cluster (some bytes) = write_cluster d fs cluster bytes

  unfoldable pub file_close : FatFs d.State → File → FatFs d.State
  unfolding write_block
  file_close fs file = cache_flush write_block file.cache fs

  unfoldable pub dir_close : FatFs d.State → Dir → FatFs d.State
  unfolding file_close
  dir_close fs dir = file_close fs dir.ident

  -- `dir_init`, also with the entry, whose size it sets
  unfoldable pub dir_init :
      (fuel : ℕ) → FatFs d.State → Entry → Option (FatFs d.State × Entry × Dir)
  dir_init fuel fs entry = elim (cluster_chain_get_len d fuel fs (entry_cluster entry)) [
    | none ↦ none
    | some (fs1, len) ↦
        let raw_size = mul32 len fs1.volume.cluster_sizeb in
        let sized = record entry { size = raw_size } in
        let num_entries = raw_size / sizeof_entry in
        some (
          fs1,
          sized,
          record {
            ident = file_open fs1 sized;
            num_entries = num_entries;
            entries = entry_array_create num_entries;
          },
        )
  ]

  -- `dir_search_path` once the first name is taken off the path, where `below` is its own call in the
  -- directory of this name
  unfoldable pub search_name :
      (below : FatFs d.State → List (Option Entry) → List ℕ → Option (FatFs d.State × Option Entry))
      → (fuel : ℕ) → FatFs d.State
      → Option Entry
      → (rest : List ℕ) → Option (FatFs d.State × Option Entry)
  unfolding dir_init dir_close
  search_name below fuel fs none rest = some (fs, none)
  search_name below fuel fs (some entry) [] = some (fs, some entry)
  search_name below fuel fs (some entry) (c ∷ behind) =
      if c == 47
      then elim (dir_init fuel fs entry) [
        | none ↦ none
        | some (fs1, sized, made) ↦
            let (dir, fs2) = dir_scan d made fs1 in
            elim (below fs2 dir.entries behind) [
              | none ↦ none
              | some (fs3, ret) ↦ some (dir_close fs3 dir, ret)
            ]
      ]
      else some (fs, none)

  -- `dir_search_path` in the entries of a directory, over at most `rounds` names of the path
  unfoldable pub search_path :
      (rounds fuel : ℕ)
      → FatFs d.State
      → List (Option Entry)
      → List ℕ
      → Option (FatFs d.State × Option Entry)
  unfolding search_name
  search_path zero fuel fs entries path = none
  search_path (suc rounds) fuel fs entries path =
      let (filename, rest) = first_name 11 path in
      search_name (search_path rounds fuel) fuel fs (dir_search true entries filename) rest

  unfoldable pub dir_search_path :
      (fuel : ℕ) → FatFs d.State → Dir → List ℕ → Option (FatFs d.State × Option Entry)
  unfolding search_path
  dir_search_path fuel fs dir path = search_path (length path + 1) fuel fs dir.entries path

  -- The second half of `dir_open_path`, with the entry that was found, or the bytes at NULL
  unfoldable pub open_entry : (fuel : ℕ) → Tree d.State → Entry → Option (Tree d.State × Option Dir)
  unfolding dir_init
  open_entry fuel t entry = elim (dir_init fuel t.fs entry) [
    | none ↦ none
    | some (fs1, sized, dir) ↦ some (record t { fs = fs1 }, some dir)
  ]

  -- The root directory itself: its own entry gets the size.
  unfoldable pub open_root : (fuel : ℕ) → Tree d.State → Option (Tree d.State × Option Dir)
  unfolding dir_init
  open_root fuel t = elim (dir_init fuel t.fs t.root_dir.ident.entry) [
    | none ↦ none
    | some (fs1, sized, dir) ↦ some (
      record {
        fs = fs1;
        root_dir = record t.root_dir { ident = record t.root_dir.ident { entry = sized } };
      },
      some dir,
    )
  ]

  -- `dir_open_path` of what follows the first slash. The entry is not tested for NULL.
  unfoldable pub open_below :
      (fuel : ℕ) → Tree d.State → List ℕ → Option (Tree d.State × Option Dir)
  unfolding dir_search_path open_entry null_entry
  open_below fuel t path =
      let (root, fs1) = dir_scan d t.root_dir t.fs in
      elim (dir_search_path fuel fs1 root path) [
        | none ↦ none
        | some (fs2, found) ↦
            let entry : Entry = elim found [ none ↦ null_entry low | some e ↦ e ] in
            let t2 : Tree d.State = record { fs = fs2; root_dir = root } in
            let opened = open_entry fuel t2 entry in
            if entry.attr == dir_attr then opened else some (t2, none)
      ]

  unfoldable pub dir_open_path :
      (fuel : ℕ) → Tree d.State → List ℕ → Option (Tree d.State × Option Dir)
  unfolding open_root open_below
  dir_open_path fuel t [] = some (t, none)
  dir_open_path fuel t (c ∷ []) = if c == 47 then open_root fuel t else some (t, none)
  dir_open_path fuel t (c ∷ c2 ∷ path) =
      if c == 47 then open_below fuel t (c2 ∷ path) else some (t, none)

  -- A file with its `path`, the directory that it was opened in
  unfoldable pub file_open_path :
      (fuel : ℕ) → Tree d.State → List ℕ → Option (Tree d.State × Option (File × List ℕ))
  unfolding dir_search_path rstrip_path
  file_open_path fuel t [] = some (t, none)
  file_open_path fuel t (c ∷ path) =
      let (root, fs1) = dir_scan d t.root_dir t.fs in
      let below : Option (Tree d.State × Option (File × List ℕ)) =
        elim (dir_search_path fuel fs1 root path) [
          | none ↦ none
          | some (fs2, found) ↦
              let t2 : Tree d.State = record { fs = fs2; root_dir = root } in
              elim found [
                | none ↦ some (t2, none)
                | some entry ↦
                    if entry.attr == file_attr
                    then some (t2, some (file_open fs2 entry, rstrip_path (c ∷ path)))
                    else some (t2, none)
              ]
        ] in
      if c == 47 then below else some (t, none)

  -- `file_create` in the directory that was opened
  unfoldable pub create_in :
      (fuel : ℕ)
      → Tree d.State
      → (cluster : ℕ) → (filename : List ℕ) → Option Dir
      → Option (Tree d.State × ℕ)
  unfolding dir_close
  create_in fuel t cluster filename none = some (t, exit_failure)
  create_in fuel t cluster filename (some opened) =
      let (dir, fs1) = dir_scan d opened t.fs in
      elim (dir_search true dir.entries filename) [
        | some found ↦ some (record t { fs = dir_close fs1 dir }, exit_failure)
        | none ↦
            let (fs2, allocated) = fat_table_alloc_cluster d fs1 eoc1 in
            elim (dir_entry_create d fuel dir fs2 (file_entry_create filename cluster)) [
              | none ↦ none
              | some (dir3, fs3) ↦ some (record t { fs = dir_close fs3 dir3 }, exit_success)
            ]
      ]

  unfoldable pub file_create :
      (fuel : ℕ) → Tree d.State → (path filename : List ℕ) → Option (Tree d.State × ℕ)
  unfolding dir_open_path create_in
  file_create fuel t path filename =
      let (fs1, cluster) = first_free_cluster_read d t.fs in
      elim (dir_open_path fuel (record t { fs = fs1 }) path) [
        | none ↦ none
        | some (t2, dir) ↦ create_in fuel t2 cluster filename dir
      ]

  -- The loop of `dir_entry_override`, of at most `rounds` entries. The short name stands in an entry,
  -- whose bytes `strncmp` reads on.
  unfoldable pub override_loop :
      (rounds fuel : ℕ)
      → FatFs d.State
      → Dir
      → (old entry : Entry) → ℕ
      → Option (FatFs d.State × Dir)
  override_loop zero fuel fs dir old entry offset = some (fs, dir)
  override_loop (suc rounds) fuel fs dir old entry offset =
      let (ident, fs1, raw) = file_read d sizeof_entry dir.ident fs offset in
      let dir1 = record dir { ident = ident } in
      let next = override_loop rounds fuel fs1 dir1 old entry (add32 offset sizeof_entry) in
      let written : Option (FatFs d.State × Dir) =
        elim (file_write d fuel ident fs1 offset (entry_bytes entry)) [
          | none ↦ none
          | some (ident2, fs2) ↦ some (fs2, record dir { ident = ident2 })
        ] in
      if ltb offset dir.ident.entry.size
      then if strncmp (two_buffers raw (entry_bytes old)) 0 64 short_name_len == 0
        then written
        else next
      else some (fs, dir)

  unfoldable pub dir_entry_override :
      (fuel : ℕ) → FatFs d.State → Dir → (old entry : Entry) → Option (FatFs d.State × Dir)
  unfolding override_loop
  dir_entry_override fuel fs dir old entry =
      override_loop (dir.ident.entry.size / sizeof_entry + 1) fuel fs dir old entry 0

  -- `file_delete` once its directory is open
  unfoldable pub delete_in : (fuel : ℕ) → Tree d.State → File → Option Dir → Option (Tree d.State)
  unfolding file_close dir_close dir_entry_override
  delete_in fuel t file none = some (record t { fs = file_close t.fs file })
  delete_in fuel t file (some opened) =
      let (dir, fs1) = dir_scan d opened t.fs in
      elim (dir_entry_override fuel fs1 dir file.entry blank_entry) [
        | none ↦ none
        | some (fs2, dir2) ↦
            let fs3 = fat_table_write d fs2 file.cluster 0 in
            some (record t { fs = dir_close (file_close fs3 file) dir2 })
      ]

  unfoldable pub file_delete : (fuel : ℕ) → Tree d.State → List ℕ → Option (Tree d.State)
  unfolding file_open_path dir_open_path delete_in
  file_delete fuel t path = elim (file_open_path fuel t path) [
    | none ↦ none
    | some (t1, none) ↦ some t1
    | some (t1, some (file, dir_path)) ↦ elim (dir_open_path fuel t1 dir_path) [
      | none ↦ none
      | some (t2, dir) ↦ delete_in fuel t2 file dir
    ]
  ]
