-- ===== src/Fs/Table.antt =====
-- table.c: the file allocation table, four bytes an entry, read and written through a cache of ten
-- sectors.
pub mod Entries
pub mod Free
pub mod Chains
pub mod Tests
use butos.Prelude.{
  ℕ, zero, suc, ◌+◌, ◌-◌, ◌*◌, ◌%◌, ◌^◌, ◌≡◌, Bool, true, false, ◌&&◌, ◌||◌, not, Option, none,
  some, List, ltb, leb, ◌==◌, if◌then◌else◌, add32, sub32, mul32, word,
}
use butos.Fs.Disk.{Drive}
use butos.Fs.Cache.{Cache, cache_init, cache_readl, cache_writel}
use butos.Fs.Volume.{Volume, FsInfo, Table, FatFs, read_sector}

abbrev pub fat_cache_size : ℕ
fat_cache_size = 10

-- `READ_ERROR`, `CLUSTER_ALLOC_ERR`, and the two ends of a chain
abbrev pub read_error : ℕ
read_error = 0xffffffff

abbrev pub cluster_alloc_err : ℕ
cluster_alloc_err = 1

abbrev pub eoc1 : ℕ
eoc1 = 0xffffff8

abbrev pub eoc2 : ℕ
eoc2 = 0xfffffff

-- The fields that are not set are `garbage`.
unfoldable pub fat_table_init : {State : Type 0} → Volume State → Table → Table
fat_table_init volume garbage = record garbage {
  cache = cache_init fat_cache_size volume.sector_size;
}

-- `fs` with the cache of its table changed
abbrev pub with_cache : {State : Type 0} → FatFs State → Cache → FatFs State
with_cache fs c = record fs { table = record fs.table { cache = c } }

-- The offset of an entry in the table, and the test by which it is refused
abbrev pub entry_offset : ℕ → ℕ
entry_offset cluster = mul32 cluster 4

unfoldable pub outside_table : {State : Type 0} → FatFs State → ℕ → Bool
outside_table fs cluster = leb (mul32 fs.table.size fs.volume.sector_size) (entry_offset cluster)

module _ (d : Drive) where
  -- `fat_table_access` with FAT_READ
  unfoldable pub fat_table_read : FatFs d.State → ℕ → FatFs d.State × ℕ
  unfolding outside_table
  fat_table_read fs cluster =
      if outside_table fs cluster
      then (fs, read_error)
      else (let (c, v) =
            cache_readl (read_sector d) fs.table.cache fs fs.table.address (entry_offset cluster) in
          (with_cache fs c, v))

  -- `fat_table_access` with FAT_WRITE, whose result is dropped
  unfoldable pub fat_table_write : FatFs d.State → ℕ → ℕ → FatFs d.State
  unfolding outside_table
  fat_table_write fs cluster content =
      if outside_table fs cluster
      then fs
      else with_cache fs (
          cache_writel (read_sector d) fs.table.cache fs fs.table.address (entry_offset cluster)
            content)

  -- The loop of `free_cluster_count_read` over the `k` clusters from `i` on
  unfoldable pub count_loop : ℕ → ℕ → FatFs d.State → ℕ → FatFs d.State × ℕ
  count_loop zero i fs count = (fs, count)
  count_loop (suc k) i fs count =
      let (fs', v) = fat_table_read fs i in
      count_loop k (suc i) fs' (if v == 0 then add32 count 1 else count)

  -- The count starts at the number of the root cluster.
  unfoldable pub free_cluster_count_read : FatFs d.State → FatFs d.State × ℕ
  unfolding count_loop
  free_cluster_count_read fs =
      let count = fs.info.root_cluster in
      count_loop (fs.volume.cluster_count - count) count fs count

  -- The loop of `first_free_cluster_read`, over at most `k` clusters from `i` on: `i` is stepped
  -- also by the test that ends the loop.
  unfoldable pub first_free_loop : ℕ → ℕ → FatFs d.State → FatFs d.State × ℕ
  first_free_loop zero i fs =
      let (fs', v) = fat_table_read fs i in if v == 0 then (fs', i) else (fs', add32 i 1)
  first_free_loop (suc k) i fs =
      let (fs', v) = fat_table_read fs i in
      let rest = first_free_loop k (add32 i 1) fs' in if v == 0 then (fs', i) else rest

  unfoldable pub first_free_cluster_read : FatFs d.State → FatFs d.State × ℕ
  unfolding first_free_loop
  first_free_cluster_read fs =
      first_free_loop (fs.volume.cluster_count - fs.info.root_cluster) fs.info.root_cluster fs

  -- The loop of `fat_table_alloc_cluster` over the `k` clusters from `i` on
  unfoldable pub alloc_cluster_loop : ℕ → ℕ → FatFs d.State → ℕ → FatFs d.State × ℕ
  alloc_cluster_loop zero i fs content = (fs, cluster_alloc_err)
  alloc_cluster_loop (suc k) i fs content =
      let (fs', v) = fat_table_read fs i in
      let rest = alloc_cluster_loop k (suc i) fs' content in
      if v == 0
      then (let fs2 = fat_table_write fs' i content in
          (
            record fs2 {
              info = record fs2.info {
                free_cluster_count = sub32 fs2.info.free_cluster_count 1;
                free_cluster = i;
              };
            },
            i,
          ))
      else rest

  unfoldable pub fat_table_alloc_cluster : FatFs d.State → ℕ → FatFs d.State × ℕ
  unfolding alloc_cluster_loop
  fat_table_alloc_cluster fs content =
      if fs.info.free_cluster_count == 0
      then (fs, cluster_alloc_err)
      else alloc_cluster_loop (fs.volume.cluster_count - fs.info.free_cluster) fs.info.free_cluster
          fs content

  -- The loop of `cluster_chain_get_len` on fuel; `none` is a loop that goes on. Each round reads the
  -- entry of `start`.
  unfoldable pub get_len_loop : ℕ → FatFs d.State → ℕ → ℕ → Option (FatFs d.State × ℕ)
  get_len_loop zero fs start len = none
  get_len_loop (suc fuel) fs start len =
      let (fs', curr) = fat_table_read fs start in
      let rest = get_len_loop fuel fs' start (add32 len 1) in
      if not (curr == eoc1) && not (curr == eoc2) && not (curr == read_error)
      then rest
      else some (fs', add32 len 1)

  unfoldable pub cluster_chain_get_len : ℕ → FatFs d.State → ℕ → Option (FatFs d.State × ℕ)
  unfolding get_len_loop
  cluster_chain_get_len fuel fs start = get_len_loop fuel fs start 0

  -- The loop runs once more than `index` counts down to 0, unless the chain ends.
  unfoldable pub cluster_chain_read : FatFs d.State → ℕ → ℕ → FatFs d.State × ℕ
  cluster_chain_read fs curr zero = let (fs', next) = fat_table_read fs curr in (fs', curr)
  cluster_chain_read fs curr (suc index) =
      let (fs', next) = fat_table_read fs curr in
      let rest = cluster_chain_read fs' next index in
      if not (next == eoc1) && not (next == eoc2) then rest else (fs', curr)
