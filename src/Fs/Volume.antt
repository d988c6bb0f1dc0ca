-- ===== src/Fs/Volume.antt =====
-- fs.c: the mounted file system, and the reads and writes of sectors and clusters.
-- `size_t` and `uint32_t` are 32-bit words. The root directory and the label are not modelled.
pub mod Bounds
pub mod Clusters
mod Tests
use butos.Prelude.{
  ℕ, zero, suc, ◌+◌, ◌-◌, ◌*◌, ◌/◌, ◌%◌, ◌^◌, ◌≡◌, Bool, true, false, ◌&&◌, ◌||◌, not, Option, none,
  some, List, ltb, leb, ◌==◌, if◌then◌else◌, get_or, add32, sub32, mul32, word,
}
use butos.Fs.Disk.{Drive, Disk, disk_read, disk_write, bytes_to_word, bytes_to_long}
use butos.Fs.Cache.{Cache}

-- `struct fat_volume`
pub record Volume (State : Type 0) : Type 0 where
  pub drive : Disk State
  pub sector_count : ℕ
  pub cluster_count : ℕ
  pub sector_size : ℕ
  pub cluster_size : ℕ
  pub cluster_sizeb : ℕ

-- `struct fat_fsinfo`
pub record FsInfo : Type 0 where
  pub sector : ℕ
  pub buffer : Option (List ℕ)
  pub root_cluster : ℕ
  pub data_region : ℕ
  pub free_cluster_count : ℕ
  pub free_cluster : ℕ

-- `struct fat_table`
pub record Table : Type 0 where
  pub address : ℕ
  pub size : ℕ
  pub count : ℕ
  pub cache : Cache

-- `struct fat_fs`
pub record FatFs (State : Type 0) : Type 0 where
  pub volume : Volume State
  pub table : Table
  pub info : FsInfo

-- Where things stand in the boot sector
abbrev pub bytes_per_sector : ℕ
bytes_per_sector = 0x0b

abbrev pub sector_per_cluster : ℕ
sector_per_cluster = 0x0d

abbrev pub reserved_sectors : ℕ
reserved_sectors = 0x0e

abbrev pub fat_table_count : ℕ
fat_table_count = 0x10

abbrev pub sector_count_off : ℕ
sector_count_off = 0x13

abbrev pub large_sector_count : ℕ
large_sector_count = 0x20

abbrev pub fat_table_size : ℕ
fat_table_size = 0x24

unfoldable pub fat_volume_getinfo : {State : Type 0} → Volume State → List ℕ → Volume State
fat_volume_getinfo v info_buffer =
    let sector_size = bytes_to_word info_buffer bytes_per_sector in
    let cluster_size = get_or info_buffer sector_per_cluster 0 in
    record v {
      sector_size = sector_size;
      sector_count =
          if not (get_or info_buffer sector_count_off 0 == 0)
          then bytes_to_word info_buffer sector_count_off
          else bytes_to_long info_buffer large_sector_count;
      cluster_size = cluster_size;
      cluster_sizeb = mul32 cluster_size sector_size;
    }

unfoldable pub fat_table_getinfo : Table → List ℕ → Table
fat_table_getinfo t info_buffer = record t {
  address = bytes_to_word info_buffer reserved_sectors;
  size = bytes_to_long info_buffer fat_table_size;
  count = get_or info_buffer fat_table_count 0;
}

-- A cluster size of 0 divides by zero on the machine; here the quotient is then 0.
unfoldable pub fat_volume_get_clusters : {State : Type 0} → Volume State → Table → Volume State
fat_volume_get_clusters v t = record v {
  cluster_count = sub32 (sub32 v.sector_count t.address) (mul32 t.size t.count) / v.cluster_size;
}

-- The test on which `read_sectors` and `write_sectors` refuse.
unfoldable pub off_bounds : ℕ → ℕ → ℕ → Bool
off_bounds sector_count lba n = ltb sector_count (sub32 (add32 lba n) 1)

module _ (d : Drive) where
  unfoldable pub read_sectors : FatFs d.State → ℕ → ℕ → Option (List ℕ)
  unfolding off_bounds disk_read
  read_sectors fs lba n =
      if off_bounds fs.volume.sector_count lba n
      then none
      else if d.room fs.volume.drive.drive (mul32 fs.volume.sector_size n)
      then disk_read d fs.volume.drive n lba
      else none

  unfoldable pub read_sector : FatFs d.State → ℕ → Option (List ℕ)
  unfolding read_sectors
  read_sector fs lba = read_sectors fs lba 1

  -- 0 for EXIT_SUCCESS and 1 for EXIT_FAILURE
  unfoldable pub write_sectors : FatFs d.State → ℕ → List ℕ → ℕ → FatFs d.State × ℕ
  unfolding off_bounds disk_write
  write_sectors fs lba buffer n =
      if off_bounds fs.volume.sector_count lba n
      then (fs, 1)
      else (let (drive, err) = disk_write d fs.volume.drive n lba buffer in
          (record fs { volume = record fs.volume { drive = drive } }, if err == 0 then 0 else 1))

  unfoldable pub write_sector : FatFs d.State → ℕ → List ℕ → FatFs d.State × ℕ
  unfolding write_sectors
  write_sector fs lba buffer = write_sectors fs lba buffer 1

  -- The sector at which `read_cluster` and `write_cluster` find a cluster
  unfoldable pub cluster_sector : FatFs d.State → ℕ → ℕ
  cluster_sector fs cluster =
      sub32 (add32 fs.info.data_region (mul32 cluster fs.volume.cluster_size)) 2

  unfoldable pub read_cluster : FatFs d.State → ℕ → Option (List ℕ)
  unfolding read_sectors cluster_sector
  read_cluster fs cluster =
      if ltb fs.volume.cluster_count cluster
      then none
      else read_sectors fs (cluster_sector fs cluster) fs.volume.cluster_size

  unfoldable pub write_cluster : FatFs d.State → ℕ → List ℕ → FatFs d.State × ℕ
  unfolding write_sectors cluster_sector
  write_cluster fs cluster buffer =
      if ltb fs.volume.cluster_count cluster
      then (fs, 1)
      else write_sectors fs (cluster_sector fs cluster) buffer fs.volume.cluster_size
