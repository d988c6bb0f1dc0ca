-- ===== src/Fs/Tree/Start.antt =====
-- fs.c: how a volume is mounted, with its root directory, and how it is closed.
use butos.Prelude.{ℕ, ◌/◌, ◌%◌, ◌^◌, Option, none, some, List, [], ◌∷◌, ◌==◌, if◌then◌else◌, mul32}
use butos.Fs.Disk.{Drive, Disk}
use butos.Fs.Cache.{cache_flush}
use butos.Fs.Volume.{Volume, FatFs, write_sector}
use butos.Fs.Table.{fat_table_init}
use butos.Fs.Mount.{fat_fs_getinfo, fat_fsinfo_flush}
use butos.Fs.Entry.{Entry, short_name_len}
use butos.Fs.DirScan.{Dir, copy_name}
use butos.Fs.Tree.{Tree, blank_entry, dir_init, dir_close}

abbrev undefined_seccount : ℕ
undefined_seccount = 65535

abbrev sector_size : ℕ
sector_size = 512

-- The fields that are not set hold what the block from `kalloc` holds.
unfoldable fat_volume_init : {State : Type 0} → Disk State → Volume State → Volume State
fat_volume_init partition garbage = record garbage {
  drive = partition;
  sector_count = undefined_seccount;
  sector_size = sector_size;
}

-- The low word of the cluster is cut to a byte.
unfoldable pub fake_entry_create : (cluster : ℕ) (name : List ℕ) (size : ℕ) → Entry
unfolding copy_name
fake_entry_create cluster name size = record blank_entry {
  short_name = copy_name short_name_len name;
  low_cluster = cluster % 2 ^ 8;
  high_cluster = cluster / 2 ^ 16 % 2 ^ 16;
  size = size;
}

module _ (d : Drive) (low : List ℕ) where
  unfoldable fat_root_dir_init : (fuel : ℕ) → FatFs d.State → Option (FatFs d.State × Entry × Dir)
  unfolding dir_init fake_entry_create
  fat_root_dir_init fuel fs = dir_init d low fuel fs (
      fake_entry_create fs.info.root_cluster (47 ∷ [])
        (mul32 fs.volume.sector_count fs.volume.sector_size))

  -- `write_sector` as the cache of the table calls it
  unfoldable write_table_block : FatFs d.State → ℕ → Option (List ℕ) → FatFs d.State × ℕ
  write_table_block fs sector none = write_sector d fs sector low
  write_table_block fs sector (some bytes) = write_sector d fs sector bytes

  unfoldable fat_table_fini : FatFs d.State → FatFs d.State
  unfolding write_table_block
  fat_table_fini fs = cache_flush write_table_block fs.table.cache fs

  unfoldable fat_fs_fini : FatFs d.State → Option Dir → FatFs d.State
  unfolding fat_table_fini dir_close fat_fsinfo_flush
  fat_fs_fini fs none = fat_table_fini (fat_fsinfo_flush d fs)
  fat_fs_fini fs (some root_dir) = fat_table_fini (fat_fsinfo_flush d (dir_close d low fs root_dir))

  -- `fat_fs_init` once the information is read, with its error
  unfoldable init_root :
      (fuel : ℕ) → FatFs d.State × ℕ → Option (FatFs d.State × Option (Tree d.State))
  unfolding fat_root_dir_init fat_fs_fini
  init_root fuel (fs, err) =
      let mounted : Option (FatFs d.State × Option (Tree d.State)) =
        elim (fat_root_dir_init fuel fs) [
          | none ↦ none
          | some (fs1, sized, root_dir) ↦
              some (fs1, some (record { fs = fs1; root_dir = root_dir }))
        ] in
      if err == 1 then some (fat_fs_fini fs none, none) else mounted

  -- `fat_fs_init` in a block that `kcalloc` has cleared, but for the volume and the table; `none` in
  -- the result is NULL.
  unfoldable fat_fs_init :
      (fuel : ℕ)
      → Disk d.State
      → (garbage : FatFs d.State) → Option (FatFs d.State × Option (Tree d.State))
  unfolding fat_volume_init init_root
  fat_fs_init fuel partition garbage =
      let volume = fat_volume_init partition garbage.volume in
      init_root fuel (
        fat_fs_getinfo d (record {
          volume = volume;
          table = fat_table_init volume garbage.table;
          info = record {
            sector = 0;
            buffer = none;
            root_cluster = 0;
            data_region = 0;
            free_cluster_count = 0;
            free_cluster = 0;
          };
        }))
