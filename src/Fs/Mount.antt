-- ===== src/Fs/Mount.antt =====
-- fs.c: what is read when a volume is mounted, and what is written back of it.
pub mod Info
mod Tests
use butos.Prelude.{
  ℕ, ◌+◌, ◌*◌, ◌/◌, ◌%◌, ◌^◌, Bool, true, false, ◌||◌, not, Option, none, some, List, ◌==◌,
  if◌then◌else◌, set, add32, mul32,
}
use butos.Fs.Disk.{Drive, bytes_to_word, bytes_to_long}
use butos.Fs.Volume.{
  Volume, FsInfo, Table, FatFs, fat_volume_getinfo, fat_table_getinfo, fat_volume_get_clusters,
  read_sector, write_sector,
}
use butos.Fs.Table.{free_cluster_count_read, first_free_cluster_read}

-- Where things stand in the boot sector and in the information sector, and what marks the latter
abbrev pub bpb_sector : ℕ
bpb_sector = 0

abbrev pub root_cluster_off : ℕ
root_cluster_off = 0x2c

abbrev pub fsinfo_sector : ℕ
fsinfo_sector = 0x30

abbrev pub lead_signature1_off : ℕ
lead_signature1_off = 0x00

abbrev pub lead_signature1 : ℕ
lead_signature1 = 0x41615252

abbrev pub lead_signature2_off : ℕ
lead_signature2_off = 0x1e4

abbrev pub lead_signature2 : ℕ
lead_signature2 = 0x61417272

abbrev pub free_cluster_count_off : ℕ
free_cluster_count_off = 0x1e8

abbrev pub free_cluster_off : ℕ
free_cluster_off = 0x1ec

abbrev pub unknown_free_cluster : ℕ
unknown_free_cluster = 0xffffffff

-- A 32-bit number is copied to the buffer, the low byte first.
abbrev pub put_long : List ℕ → ℕ → ℕ → List ℕ
put_long bytes off v =
    set
      (set (set (set bytes off (v % 256)) (off + 1) (v / 2 ^ 8 % 256)) (off + 2) (v / 2 ^ 16 % 256))
      (off + 3) (v / 2 ^ 24 % 256)

module _ (d : Drive) where
  -- The count of free clusters, from the information sector or else from the table
  unfoldable pub take_free_count : FatFs d.State → ℕ → FatFs d.State
  take_free_count fs count =
      if count == unknown_free_cluster
      then (let (fs', n) = free_cluster_count_read d fs in
          record fs' { info = record fs'.info { free_cluster_count = n } })
      else record fs { info = record fs.info { free_cluster_count = count } }

  -- The first free cluster, from the information sector or else from the table
  unfoldable pub take_free_cluster : FatFs d.State → ℕ → FatFs d.State
  take_free_cluster fs cluster =
      if cluster == unknown_free_cluster
      then (let (fs', n) = first_free_cluster_read d fs in
          record fs' { info = record fs'.info { free_cluster = n } })
      else record fs { info = record fs.info { free_cluster = cluster } }

  -- `fat_fs_getinfo` once both sectors are read and the signatures are right
  unfoldable pub take_info : FatFs d.State → (info_buffer buffer : List ℕ) → FatFs d.State
  unfolding take_free_count take_free_cluster
  take_info fs info_buffer buffer =
      let table = fat_table_getinfo fs.table info_buffer in
      let volume = fat_volume_get_clusters (fat_volume_getinfo fs.volume info_buffer) table in
      let fs1 = record fs {
        volume = volume;
        table = table;
        info = record fs.info { root_cluster = bytes_to_long info_buffer root_cluster_off };
      } in
      let fs2 = take_free_count fs1 (bytes_to_long buffer free_cluster_count_off) in
      let fs3 = take_free_cluster fs2 (bytes_to_long buffer free_cluster_off) in
      record fs3 {
        info = record fs3.info {
          data_region = add32 (mul32 fs3.table.size fs3.table.count) fs3.table.address;
        };
      }

  -- `fat_fs_getinfo` once the boot sector is read
  unfoldable pub read_info :
      FatFs d.State → (info_buffer : List ℕ) → Option (List ℕ) → FatFs d.State × ℕ
  unfolding take_info
  read_info fs info_buffer none = (fs, 1)
  read_info fs info_buffer (some buffer) =
      if not (bytes_to_long buffer lead_signature1_off == lead_signature1)
        || not (bytes_to_long buffer lead_signature2_off == lead_signature2)
      then (fs, 1)
      else (take_info fs info_buffer buffer, 0)

  -- `fat_fs_getinfo` with what the read of the boot sector returned
  unfoldable pub boot_read : FatFs d.State → Option (List ℕ) → FatFs d.State × ℕ
  unfolding read_info
  boot_read fs none = (fs, 1)
  boot_read fs (some info_buffer) =
      let sector = bytes_to_word info_buffer fsinfo_sector in
      let fs1 = record fs { info = record fs.info { sector = sector } } in
      let buffer = read_sector d fs1 sector in
      read_info (record fs1 { info = record fs1.info { buffer = buffer } }) info_buffer buffer

  -- The file system and 0, or 1 for FS_ERROR
  unfoldable pub fat_fs_getinfo : FatFs d.State → FatFs d.State × ℕ
  unfolding boot_read
  fat_fs_getinfo fs = boot_read fs (read_sector d fs bpb_sector)

  -- `fat_fsinfo_flush` of a buffer; it is called only if there is one.
  unfoldable pub flush_buffer : FatFs d.State → List ℕ → FatFs d.State
  flush_buffer fs buffer =
      let b =
        put_long (put_long buffer free_cluster_count_off fs.info.free_cluster_count)
          free_cluster_off fs.info.free_cluster in
      (write_sector d (record fs { info = record fs.info { buffer = some b } }) fs.info.sector b).0

  unfoldable pub fat_fsinfo_flush : FatFs d.State → FatFs d.State
  unfolding flush_buffer
  fat_fsinfo_flush fs = elim fs.info.buffer [ none ↦ fs | some b ↦ flush_buffer fs b ]
