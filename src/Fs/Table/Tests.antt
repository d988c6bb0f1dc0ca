-- ===== src/Fs/Table/Tests.antt =====
-- The table of the small file system, and the theorems at it.
use butos.Prelude.{
  ℕ, zero, suc, ◌+◌, ◌≤◌, ◌≡◌, ◌≢◌, ◌⊎◌, inl, inr, refl, none, some, List, [], ◌∷◌, arith, length,
}
use butos.Fs.Disk.{disk_read}
use butos.Fs.Cache.{cache_init, cache_lines_create}
use butos.Fs.Samples.{Sectors, drive, sectors, fs}
use butos.Fs.Volume.{FatFs, off_bounds, read_sectors, read_sector}
use butos.Fs.Table.{
  cluster_alloc_err, fat_table_read, fat_table_write, read_error, fat_table_alloc_cluster,
  free_cluster_count_read, first_free_cluster_read, cluster_chain_get_len, cluster_chain_read, eoc1,
}
use butos.Fs.Table.Entries.{
  InTable, IsReady, seen, entry, Holds, update, read-entry, write-entry, outside-entry,
}
use butos.Fs.Table.Free.{
  Taken, NoneFree, free_among, alloc_cluster_lem, free_count_lem, first_free_lem,
}
use butos.Fs.Table.Chains.{IsEnd, IsChain, end, link, chain_read_lem, get_len_one, get_len_diverges}

fs_loaded :
    (t : ℕ) → InTable drive fs t → (b : List ℕ) × (seen drive fs t ≡ some b) × (length b ≡ 16)
unfolding read_sector read_sectors off_bounds disk_read cache_init cache_lines_create
fs_loaded zero h = absurd (omega arith)
fs_loaded (suc zero) h = (sectors 1, refl, refl)
fs_loaded (suc (suc zero)) h = (sectors 2, refl, refl)
fs_loaded (suc (suc (suc t))) h = absurd (omega arith)

fs_readable : (t : ℕ) → InTable drive fs t → read_sector drive fs t ≢ none
unfolding read_sector read_sectors off_bounds disk_read
fs_readable zero h e = omega arith
fs_readable (suc zero) h e = ground arith
fs_readable (suc (suc zero)) h e = ground arith
fs_readable (suc (suc (suc t))) h e = omega arith

pub fs-IsReady : IsReady drive fs
unfolding cache_init cache_lines_create
fs-IsReady = record {
  cache = record { some_lines = omega arith; count = refl };
  block = refl;
  sector = omega arith;
  longs = refl;
  fits = omega arith;
  bytes = omega arith;
  sectors = omega arith;
  readable = fs_readable;
  loaded = fs_loaded;
}

follows : entry drive fs 2 ≡ 3
unfolding read_sector read_sectors off_bounds disk_read cache_init cache_lines_create
follows = refl

last : entry drive fs 3 ≡ eoc1
unfolding read_sector read_sectors off_bounds disk_read cache_init cache_lines_create
last = refl

read-entry_test :
    ((fat_table_read drive fs 2).1 ≡ entry drive fs 2)
    × Holds drive fs (fat_table_read drive fs 2).0 (entry drive fs)
read-entry_test = read-entry drive 2 fs-IsReady (omega arith)

write-entry_example :
    Holds drive fs (fat_table_write drive fs 5 6) (update drive (entry drive fs) 5 6)
write-entry_example = write-entry drive 5 6 fs-IsReady (omega arith) (omega arith)

outside-entry_test :
    (fat_table_read drive fs 8 ≡ (fs, read_error)) × (fat_table_write drive fs 8 6 ≡ fs)
outside-entry_test = outside-entry drive 8 6 fs-IsReady (omega arith) (λ h. omega arith)

alloc_cluster_lem_example :
    let (fs', c) = fat_table_alloc_cluster drive fs eoc1 in
    Taken drive fs fs' eoc1 2 7 c
    ⊎ ((c ≡ cluster_alloc_err) × NoneFree drive fs 2 7 × Holds drive fs fs' (entry drive fs))
alloc_cluster_lem_example =
    alloc_cluster_lem drive fs eoc1 fs-IsReady (λ j le lt. omega arith) (omega arith) (omega arith)
      (omega arith)

free_count_lem_test :
    let (fs', total) = free_cluster_count_read drive fs in
    (total ≡ 2 + free_among drive (entry drive fs) 5 2) × Holds drive fs fs' (entry drive fs)
free_count_lem_test =
    free_count_lem drive fs fs-IsReady (λ j le lt. omega arith) (omega arith) (omega arith)

first_free_lem_test :
    let (fs', c) = first_free_cluster_read drive fs in
    NoneFree drive fs 2 c
    × (((2 ≤ c) × (c ≤ 7) × (entry drive fs c ≡ 0)) ⊎ (c ≡ 8))
    × Holds drive fs fs' (entry drive fs)
first_free_lem_test =
    first_free_lem drive fs fs-IsReady (λ j le lt. omega arith) (omega arith) (omega arith)

two_more : ¬ IsEnd 3
two_more (inl e) = omega arith
two_more (inr e) = omega arith

pub chain : IsChain (entry drive fs) 2 (3 ∷ [])
chain = link follows two_more (end (inl last))

chain_read_lem_example :
    let (fs', got) = cluster_chain_read drive fs 2 5 in
    (got ≡ 3) × Holds drive fs fs' (entry drive fs)
chain_read_lem_example =
    chain_read_lem drive fs 2 (3 ∷ []) 5 fs-IsReady chain (omega arith, omega arith)

get_len_one_test :
    (fs' : FatFs Sectors) × (cluster_chain_get_len drive 4 fs 3 ≡ some (fs', 1))
    × Holds drive fs fs' (entry drive fs)
get_len_one_test = get_len_one drive fs 3 3 fs-IsReady (omega arith) (inl last)

get_len_diverges_example : cluster_chain_get_len drive 1000 fs 2 ≡ none
get_len_diverges_example =
    get_len_diverges drive fs 2 1000 fs-IsReady (omega arith) (λ e. two_more (rw (← follows) e))
      (λ e. omega (arith, follows))
