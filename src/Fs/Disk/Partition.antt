-- ===== src/Fs/Disk/Partition.antt =====
-- `disk_set_offset` takes the first partition of the type.
use butos.Prelude.{
  ℕ, zero, suc, ◌+◌, ◌*◌, ◌≤◌, ◌<◌, ◌≡◌, refl, ap, ◌∙◌, ◌≢◌, none, some, List, get_or, arith,
  ℕ_discrete, ==_iff,
}
use butos.Fs.Disk.{
  Drive, Disk, mbr_start, part_type_offset, part_start_offset, part_num, mbr_entry_size,
  bytes_to_long, find_partition, disk_read, set_start, scan_entries, disk_set_offset,
}

-- The type and the start of the `i`-th entry
abbrev pub entry_type : List ℕ → ℕ → ℕ
entry_type mbr i = get_or mbr (mbr_start + i * mbr_entry_size + part_type_offset) 0

abbrev pub entry_start : List ℕ → ℕ → ℕ
entry_start mbr i = bytes_to_long mbr (mbr_start + i * mbr_entry_size + part_start_offset)

find_partition-first :
    (k i : ℕ) (mbr : List ℕ) (part_type n : ℕ)
    → i ≤ n
    → n < i + k
    → entry_type mbr n ≡ part_type
    → ((j : ℕ) → i ≤ j → j < n → entry_type mbr j ≢ part_type)
    → find_partition k i mbr part_type ≡ some (entry_start mbr n)
unfolding find_partition
find_partition-first zero i mbr part_type n lo hi here first = absurd (omega arith)
find_partition-first (suc k) i mbr part_type n lo hi here first = elim (ℕ_discrete i n) [
  | yes e ↦
      let at_i : entry_type mbr i ≡ part_type = ap (entry_type mbr) e ∙ here in
      rw ((==_iff (entry_type mbr i) part_type).1 at_i) (ap (λ m. some (entry_start mbr m)) e)
  | no ne ↦ ground (
    arith,
    first i,
    find_partition-first k (suc i) mbr part_type n (omega arith) (omega arith) here
        (λ j l. first j (omega arith)),
  )
]

find_partition-none :
    (k i : ℕ) (mbr : List ℕ) (part_type : ℕ)
    → ((j : ℕ) → i ≤ j → j < i + k → entry_type mbr j ≢ part_type)
    → find_partition k i mbr part_type ≡ none
unfolding find_partition
find_partition-none zero i mbr part_type h = refl
find_partition-none (suc k) i mbr part_type h = ground (
  arith,
  h i,
  find_partition-none k (suc i) mbr part_type (λ j lo hi. h j (omega arith) (omega arith)),
)

module _ (d : Drive) (disk : Disk d.State) (part_type : ℕ) where
  -- If the first sector can be read, and `n` is the first of the four entries that has the type,
  -- `disk_set_offset` succeeds and takes the start of this entry.
  pub set_offset_found :
      (mbr : List ℕ) (n : ℕ)
      → disk_read d disk 1 0 ≡ some mbr
      → n < part_num
      → entry_type mbr n ≡ part_type
      → ((j : ℕ) → j < n → entry_type mbr j ≢ part_type)
      → disk_set_offset d disk part_type ≡ (record disk { part_offset = entry_start mbr n }, 0)
  unfolding disk_set_offset
  set_offset_found mbr n got lt here first =
      ap (scan_entries d disk part_type) got
      ∙ ap (set_start d disk) (
          find_partition-first part_num 0 mbr part_type n (omega arith) (omega arith) here
            (λ j lo. first j))

  -- If the first sector can be read, and none of the four entries has the type, `disk_set_offset`
  -- reports success all the same, and changes nothing.
  pub set_offset_absent :
      (mbr : List ℕ)
      → disk_read d disk 1 0 ≡ some mbr
      → ((j : ℕ) → j < part_num → entry_type mbr j ≢ part_type)
      → disk_set_offset d disk part_type ≡ (disk, 0)
  unfolding disk_set_offset
  set_offset_absent mbr got none_has =
      ap (scan_entries d disk part_type) got
      ∙ ap (set_start d disk) (find_partition-none part_num 0 mbr part_type (λ j lo. none_has j))
