-- ===== src/Fs/Mount/Info.antt =====
-- What is written back can be read again.
use butos.Prelude.{
  ℕ, ◌+◌, ◌≤◌, ◌<◌, ◌≡◌, refl, ap, sym, ◌∙◌, inr, true, false, none, some, List, length, length-set,
  arith, add32, mul32, word, subst, ltb, sub32,
}
use butos.Fs.Disk.{Drive, disk_read, disk_write, bytes_to_long}
use butos.Fs.Cache.Bytes.{long-write_long}
use butos.Fs.Volume.{FatFs, off_bounds, read_sectors, read_sector, write_sectors, write_sector}
use butos.Fs.Volume.Clusters.{IsFaithful}
use butos.Fs.Mount.{
  put_long, free_cluster_count_off, free_cluster_off, lead_signature1_off, lead_signature2_off,
  flush_buffer, fat_fsinfo_flush,
}

length-put_long : (b : List ℕ) (p v : ℕ) → length (put_long b p v) ≡ length b
length-put_long b p v =
    length-set _ (p + 3) _ ∙ length-set _ (p + 2) _ ∙ length-set _ (p + 1) _ ∙ length-set b p _

-- The information in a sector
pub record Info (buffer : List ℕ) (count cluster : ℕ) (old : List ℕ) : Type 0 where
  pub free_cluster_count : bytes_to_long buffer free_cluster_count_off ≡ count
  pub free_cluster : bytes_to_long buffer free_cluster_off ≡ cluster
  pub signature1 : bytes_to_long buffer lead_signature1_off ≡ bytes_to_long old lead_signature1_off
  pub signature2 : bytes_to_long buffer lead_signature2_off ≡ bytes_to_long old lead_signature2_off

put-Info :
    (b : List ℕ) (count cluster : ℕ)
    → 0x1f0 ≤ length b
    → count < word
    → cluster < word
    → Info
        (put_long (put_long b free_cluster_count_off count) free_cluster_off cluster)
        count
        cluster
        b
put-Info b count cluster room hc hf =
    let b1 = put_long b free_cluster_count_off count in
    let len = length-put_long b free_cluster_count_off count in
    let one = λ (j : ℕ). long-write_long b free_cluster_count_off j count (omega arith) hc in
    let two = λ (j : ℕ). long-write_long b1 free_cluster_off j cluster (omega (arith, len)) hf in
    record {
      free_cluster_count =
          (two free_cluster_count_off).1 (inr (omega arith)) ∙ (one free_cluster_count_off).0;
      free_cluster = (two free_cluster_off).0;
      signature1 =
          (two lead_signature1_off).1 (inr (omega arith))
          ∙ (one lead_signature1_off).1 (inr (omega arith));
      signature2 =
          (two lead_signature2_off).1 (inr (omega arith))
          ∙ (one lead_signature2_off).1 (inr (omega arith));
    }

write-read_sector :
    (d : Drive) (fs : FatFs d.State) (sector : ℕ) (b : List ℕ)
    → IsFaithful d 1 (length b)
    → off_bounds fs.volume.sector_count sector 1 ≡ false
    → (d.write_pio fs.volume.drive.drive 1 (add32 sector fs.volume.drive.part_offset) b).1 ≡ 0
    → d.room fs.volume.drive.drive (mul32 fs.volume.sector_size 1) ≡ true
    → read_sector d (write_sector d fs sector b).0 sector ≡ some b
unfolding write_sector write_sectors read_sector read_sectors disk_read disk_write off_bounds
write-read_sector d fs sector b faithful on ok room =
    let s = fs.volume.drive.drive in
    let p = add32 sector fs.volume.drive.part_offset in
    let s' = (d.write_pio s 1 p b).0 in
    let on' : ltb fs.volume.sector_count (sub32 (add32 sector 1) 1) ≡ false = on in
    let w : (write_sector d fs sector b).0 ≡ record fs {
      volume = record fs.volume { drive = record fs.volume.drive { drive = s' } };
    } =
      rw on' refl in
    rw (w, on', faithful.room s p b (mul32 fs.volume.sector_size 1), room)
      (faithful.written s p b refl ok)

module _ (d : Drive) (fs : FatFs d.State) where
  abbrev lba : ℕ
  lba = add32 fs.info.sector fs.volume.drive.part_offset

  -- On a drive that keeps what is written and takes a write of the sector, with the information sector
  -- inside the volume and a heap that has room: after `fat_fsinfo_flush` the sector can be read, and has
  -- the count of free clusters and the first free cluster of the file system, and its two signatures
  -- as they were in the buffer.
  pub fsinfo_flush_lem :
      (b : List ℕ)
      → fs.info.buffer ≡ some b
      → 0x1f0 ≤ length b
      → IsFaithful d 1 (length b)
      → fs.info.free_cluster_count < word
      → fs.info.free_cluster < word
      → off_bounds fs.volume.sector_count fs.info.sector 1 ≡ false
      → ((c : List ℕ) → (d.write_pio fs.volume.drive.drive 1 lba c).1 ≡ 0)
      → d.room fs.volume.drive.drive (mul32 fs.volume.sector_size 1) ≡ true
      → (b' : List ℕ) × (read_sector d (fat_fsinfo_flush d fs) fs.info.sector ≡ some b')
        × Info b' fs.info.free_cluster_count fs.info.free_cluster b
  unfolding fat_fsinfo_flush flush_buffer
  fsinfo_flush_lem b buffer large faithful hc hf on ok room =
      let b' =
        put_long (put_long b free_cluster_count_off fs.info.free_cluster_count) free_cluster_off
          fs.info.free_cluster in
      let len : length b' ≡ length b =
        length-put_long (put_long b free_cluster_count_off fs.info.free_cluster_count)
          free_cluster_off fs.info.free_cluster
        ∙ length-put_long b free_cluster_count_off fs.info.free_cluster_count in
      let flushed : fat_fsinfo_flush d fs ≡ flush_buffer d fs b =
        ap (λ o. elim o [ none ↦ fs | some x ↦ flush_buffer d fs x ]) buffer in
      (
        b',
        ap (λ fs'. read_sector d fs' fs.info.sector) flushed
            ∙ write-read_sector d (record fs { info = record fs.info { buffer = some b' } })
                fs.info.sector b' (subst (IsFaithful d 1) (sym len) faithful) on (ok b') room,
        put-Info b fs.info.free_cluster_count fs.info.free_cluster large hc hf,
      )
