-- ===== src/Fs/Entry.antt =====
-- The entries of directories, and their short names: eight bytes and three for the extension, padded
-- with spaces (file.c). A string is the list of the characters before its NUL, which are bytes.
pub mod Copies
mod Tests
use butos.Prelude.{
  ℕ, zero, suc, ◌+◌, ◌-◌, ◌*◌, ◌/◌, ◌%◌, ◌^◌, Bool, true, false, ◌&&◌, not, List, [], ◌∷◌, leb, ltb,
  ◌==◌, if◌then◌else◌, get_or, set, replicate, add32, mul32,
}

-- `struct entry`
pub record Entry : Type 0 where
  pub short_name : List ℕ
  pub attr : ℕ
  pub reserved : ℕ
  pub ctime : ℕ
  pub atime : ℕ
  pub high_cluster : ℕ
  pub mtime : ℕ
  pub low_cluster : ℕ
  pub size : ℕ

abbrev pub short_name_len : ℕ
short_name_len = 11

abbrev pub filename_len : ℕ
filename_len = 8

abbrev pub file_ext_len : ℕ
file_ext_len = 3

abbrev pub file_attr : ℕ
file_attr = 0x20

-- `WORDS_TO_LONG(entry->high_cluster, entry->low_cluster)`
abbrev pub entry_cluster : Entry → ℕ
entry_cluster e = add32 e.low_cluster (mul32 e.high_cluster (2 ^ 16))

unfoldable pub ctoupper : ℕ → ℕ
ctoupper c = if leb 97 c && leb c 122 then c - 32 else c

-- The first loop of `entry_name_copy` over at most `k` characters from `j` on: the name, and where
-- the extension is read.
unfoldable pub copy_base : (k j : ℕ) → List ℕ → List ℕ → List ℕ × ℕ
unfolding ctoupper
copy_base zero j filename name = (name, j)
copy_base (suc k) j filename name =
    let c = get_or filename j 0 in
    let rest = copy_base k (j + 1) filename (set name j (ctoupper c)) in
    if c == 0 then (name, j) else if c == 46 then (name, j + 1) else rest

-- The second loop, over at most `k` characters of the extension
unfoldable pub copy_ext : (k at j : ℕ) → List ℕ → List ℕ → List ℕ
unfolding ctoupper
copy_ext zero at j filename name = name
copy_ext (suc k) at j filename name =
    let c = get_or filename j 0 in
    let rest = copy_ext k (at + 1) (j + 1) filename (set name at (ctoupper c)) in
    if c == 0 then name else rest

-- The short name that `entry_name_copy` writes
unfoldable pub entry_name_copy : List ℕ → List ℕ
unfolding copy_base copy_ext
entry_name_copy filename =
    let (name, j) = copy_base filename_len 0 filename (replicate short_name_len 32) in
    copy_ext file_ext_len filename_len j filename name

-- The entry, when `kcalloc` has given its place
unfoldable pub file_entry_create : (filename : List ℕ) (cluster : ℕ) → Entry
unfolding entry_name_copy
file_entry_create filename cluster = record {
  short_name = entry_name_copy filename;
  attr = file_attr;
  reserved = 0;
  ctime = 0;
  atime = 0;
  high_cluster = cluster / 2 ^ 16 % 2 ^ 16;
  mtime = 0;
  low_cluster = cluster % 2 ^ 16;
  size = 0;
}
