-- ===== src/Fs/DirScan.antt =====
-- dir.c: the entries of a directory in its file, 32 bytes each: how they are read, written and
-- overwritten. The buffers in the kernel heap are not modelled.
pub mod Bytes
pub mod Slots
mod Tests
use butos.Prelude.{
  ℕ, zero, suc, ◌+◌, ◌-◌, ◌*◌, ◌/◌, ◌%◌, ◌^◌, Bool, true, false, ◌&&◌, ◌||◌, not, Option, none,
  some, List, [], ◌∷◌, ◌++◌, ltb, ◌==◌, if◌then◌else◌, get_or, set, replicate, add32, word,
}
use butos.Fs.Disk.{Drive, bytes_to_word, bytes_to_long}
use butos.Fs.Volume.{FatFs}
use butos.Fs.Entry.{Entry, short_name_len}
use butos.Fs.File.{File, file_readb, file_read, file_write}

-- `struct dir`
pub record Dir : Type 0 where
  pub ident : File
  pub num_entries : ℕ
  pub entries : List (Option Entry)

abbrev pub sizeof_entry : ℕ
sizeof_entry = 32

abbrev pub lfn_attr : ℕ
lfn_attr = 0x0f

abbrev pub invalid_entry : ℕ
invalid_entry = 0xe5

abbrev pub attr_offset : ℕ
attr_offset = 11

-- `strncpy` to a name that is all NUL: `k` characters up to a NUL, padded with NULs
unfoldable pub copy_name : (k : ℕ) → List ℕ → List ℕ
copy_name zero raw = []
copy_name (suc k) [] = 0 ∷ copy_name k []
copy_name (suc k) (c ∷ raw) =
    let rest = copy_name k raw in if c == 0 then 0 ∷ replicate k 0 else c ∷ rest

-- The entry that `dir_read_entry` makes of 32 bytes
unfoldable pub entry_of_bytes : List ℕ → Entry
unfolding copy_name
entry_of_bytes raw = record {
  short_name = copy_name short_name_len raw;
  attr = get_or raw attr_offset 0;
  reserved = 0;
  ctime = bytes_to_long raw 14;
  atime = bytes_to_long raw 18 % 2 ^ 16;
  high_cluster = bytes_to_long raw 20 % 2 ^ 16;
  mtime = bytes_to_long raw 22;
  low_cluster = bytes_to_word raw 26;
  size = bytes_to_long raw 28;
}

abbrev pub word_bytes : ℕ → List ℕ
word_bytes v = v % 256 ∷ v / 2 ^ 8 % 256 ∷ []

abbrev pub long_bytes : ℕ → List ℕ
long_bytes v = v % 256 ∷ v / 2 ^ 8 % 256 ∷ v / 2 ^ 16 % 256 ∷ v / 2 ^ 24 % 256 ∷ []

-- The bytes of an entry, which is packed: those behind the name, and all
abbrev pub tail_bytes : Entry → List ℕ
tail_bytes e =
    e.attr
    ∷ (word_bytes e.reserved
        ++ (long_bytes e.ctime
            ++ (word_bytes e.atime
                ++ (word_bytes e.high_cluster
                    ++ (long_bytes e.mtime ++ (word_bytes e.low_cluster ++ long_bytes e.size))))))

unfoldable pub entry_bytes : Entry → List ℕ
entry_bytes e = e.short_name ++ tail_bytes e

module _ (d : Drive) where
  unfoldable pub dir_read_entry : File → FatFs d.State → ℕ → File × FatFs d.State × Entry
  unfolding entry_of_bytes file_read
  dir_read_entry ident fs offset =
      let (ident', fs', raw) = file_read d sizeof_entry ident fs offset in
      (ident', fs', entry_of_bytes raw)

  -- The loop of `dir_scan`, which has at most `size / 32 + 1` rounds; a write behind the entries, which
  -- the code does not test for, is lost here.
  unfoldable pub scan_loop :
      (rounds : ℕ) → Dir → FatFs d.State → (offset i : ℕ) → Dir × FatFs d.State
  scan_loop zero dir fs offset i = (dir, fs)
  scan_loop (suc rounds) dir fs offset i =
      let (ident1, fs1, attr) = file_readb d dir.ident fs (add32 offset attr_offset) in
      let at = if attr == lfn_attr then add32 offset sizeof_entry else offset in
      let (ident2, fs2, e) = dir_read_entry ident1 fs1 at in
      let valid =
        not (get_or e.short_name 0 0 == invalid_entry) && not (get_or e.short_name 0 0 == 0) in
      let skipped =
        scan_loop rounds (record dir { ident = ident1 }) fs1 (add32 at sizeof_entry) i in
      let dropped =
        scan_loop rounds (record dir { ident = ident2 }) fs2 (add32 at sizeof_entry) i in
      let taken =
        scan_loop rounds (record dir { ident = ident2; entries = set dir.entries i (some e) }) fs2
          (add32 at sizeof_entry) (i + 1) in
      if ltb offset dir.ident.entry.size
      then if attr == 0 then skipped else if valid then taken else dropped
      else (dir, fs)

  unfoldable pub dir_scan : Dir → FatFs d.State → Dir × FatFs d.State
  unfolding scan_loop dir_read_entry
  dir_scan dir fs = scan_loop (dir.ident.entry.size / sizeof_entry + 1) dir fs 0 0

  -- The loop of `dir_entry_create`: the entry goes to the first place that is free. The fuel is that of
  -- `file_write`.
  unfoldable pub create_loop :
      (rounds fuel : ℕ) → Dir → FatFs d.State → Entry → ℕ → Option (Dir × FatFs d.State)
  create_loop zero fuel dir fs e offset = some (dir, fs)
  create_loop (suc rounds) fuel dir fs e offset =
      let (ident1, fs1, tag) = file_readb d dir.ident fs offset in
      let next =
        create_loop rounds fuel (record dir { ident = ident1 }) fs1 e (add32 offset sizeof_entry) in
      if ltb offset dir.ident.entry.size
      then if tag == 0 || tag == invalid_entry
        then elim (file_write d fuel ident1 fs1 offset (entry_bytes e)) [
          | none ↦ none
          | some (ident2, fs2) ↦ some (record dir { ident = ident2 }, fs2)
        ]
        else next
      else some (dir, fs)

  unfoldable pub dir_entry_create :
      (fuel : ℕ) → Dir → FatFs d.State → Entry → Option (Dir × FatFs d.State)
  unfolding create_loop entry_bytes
  dir_entry_create fuel dir fs e =
      create_loop (dir.ident.entry.size / sizeof_entry + 1) fuel dir fs e 0
