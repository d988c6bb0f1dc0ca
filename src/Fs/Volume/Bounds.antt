-- ===== src/Fs/Volume/Bounds.antt =====
-- The sectors that are read and written: which are refused, and where a cluster stands.
use butos.Prelude.{
  ℕ, ◌+◌, ◌-◌, ◌*◌, ◌≤◌, ◌<◌, ◌≡◌, ap, ◌∙◌, ◌⊎◌, inl, inr, ◌≢◌, refl, none, some, List, length,
  dec_lt, ltb, le→ltb_false, lt→ltb, ◌==◌, if◌then◌else◌, arith, add32, mul32, word,
}
use native.Mathlib.Nat.{mod-eq_of_lt, add-mul}
use butos.Fs.Disk.{Drive, disk_write}
use butos.Fs.Volume.{
  FatFs, off_bounds, cluster_sector, read_sectors, read_sector, write_sectors, write_sector,
}
use butos.Fs.Volume.Clusters.{IsFaithful}

-- A write of one sector that is taken: it stands on the drive, and nothing else there is changed.
pub record Taken (d : Drive) (fs : FatFs d.State) (lba : ℕ) (b : List ℕ) : Type 0 where
  pub status : (write_sector d fs lba b).1 ≡ 0
  pub written :
      d.read_pio
        (write_sector d fs lba b).0.volume.drive.drive
        1
        (fs.volume.drive.part_offset + lba)
      ≡ some b
  pub kept :
      (l : ℕ)
      → l ≢ fs.volume.drive.part_offset + lba
      → d.read_pio (write_sector d fs lba b).0.volume.drive.drive 1 l
        ≡ d.read_pio fs.volume.drive.drive 1 l

-- A sector that is neither written nor read
pub record Refused (d : Drive) (fs : FatFs d.State) (lba : ℕ) (b : List ℕ) : Type 0 where
  pub unchanged : write_sector d fs lba b ≡ (fs, 1)
  pub unread : read_sector d fs lba ≡ none

module _ (d : Drive) (fs : FatFs d.State) (lba : ℕ) (b : List ℕ) where
  abbrev state : d.State
  state = fs.volume.drive.drive

  abbrev place : ℕ
  place = fs.volume.drive.part_offset + lba

  off_bounds-one :
      lba + 1 < word → off_bounds fs.volume.sector_count lba 1 ≡ ltb fs.volume.sector_count lba
  unfolding off_bounds
  off_bounds-one small = ap (ltb fs.volume.sector_count) (omega arith)

  write_taken :
      lba ≤ fs.volume.sector_count
      → fs.volume.drive.part_offset + lba + 1 < word
      → write_sector d fs lba b ≡ (
          let (s, err) = d.write_pio state 1 place b in
          (
            record fs {
              volume = record fs.volume { drive = record fs.volume.drive { drive = s } };
            },
            if err == 0 then 0 else 1,
          ))
  unfolding write_sector write_sectors disk_write
  write_taken le small =
      let e : add32 lba fs.volume.drive.part_offset ≡ place = omega arith in
      rw (off_bounds-one (omega arith), le→ltb_false lba fs.volume.sector_count le, e) refl

  taken_lem :
      lba ≤ fs.volume.sector_count
      → fs.volume.drive.part_offset + lba + 1 < word
      → IsFaithful d 1 (length b)
      → (d.write_pio state 1 place b).1 ≡ 0
      → Taken d fs lba b
  taken_lem le small faithful ok =
      let w = write_taken le small in
      let drive : (write_sector d fs lba b).0.volume.drive.drive ≡ (d.write_pio state 1 place b).0 =
        ap (λ x. x.0.volume.drive.drive) w in
      record {
        status = ap (λ x. x.1) w ∙ ap (λ err. if err == 0 then 0 else 1) ok;
        written = ap (λ s. d.read_pio s 1 place) drive ∙ faithful.written state place b refl ok;
        kept = λ l ne.
            ap (λ s. d.read_pio s 1 l) drive ∙ faithful.kept state place l b (ground (arith, ne));
      }

  refused_lem : fs.volume.sector_count < lba → lba + 1 < word → Refused d fs lba b
  unfolding write_sector write_sectors read_sector read_sectors
  refused_lem beyond small =
      let e = off_bounds-one small ∙ lt→ltb fs.volume.sector_count lba beyond in
      record { unchanged = rw e refl; unread = rw e refl }

  -- On a drive that keeps what is written and takes the write, with a sector whose number does not wrap:
  -- a write up to the sector `sector_count`, which is the first past the end of the volume, goes to this
  -- sector of the partition and changes no other of the drive; from the next one on, `write_sector`
  -- changes nothing and `read_sector` gives NULL.
  pub write_sector-bounds :
      fs.volume.drive.part_offset + lba + 1 < word
      → IsFaithful d 1 (length b)
      → (d.write_pio fs.volume.drive.drive 1 (fs.volume.drive.part_offset + lba) b).1 ≡ 0
      → ((lba ≤ fs.volume.sector_count) × Taken d fs lba b)
        ⊎ ((fs.volume.sector_count < lba) × Refused d fs lba b)
  write_sector-bounds small faithful ok = elim (dec_lt fs.volume.sector_count lba) [
    | yes beyond ↦ inr (beyond, refused_lem beyond (omega arith))
    | no within ↦ inl (omega arith, taken_lem (omega arith) small faithful ok)
  ]

-- For a cluster from 2 on and numbers that do not wrap, `read_cluster` and `write_cluster` go to the
-- sector of the cluster in the data region, plus `2 * (cluster_size - 1)`.
pub cluster_sector_lem :
    (d : Drive) (fs : FatFs d.State) (cluster : ℕ)
    → 2 ≤ cluster
    → 0 < fs.volume.cluster_size
    → fs.info.data_region + cluster * fs.volume.cluster_size < word
    → cluster_sector d fs cluster
      ≡ fs.info.data_region
        + (cluster - 2) * fs.volume.cluster_size
        + 2 * (fs.volume.cluster_size - 1)
unfolding cluster_sector
cluster_sector_lem d fs cluster two pos small =
    let k = fs.volume.cluster_size in
    let e : cluster * k ≡ (cluster - 2) * k + 2 * k =
      ap (λ n. n * k) (omega arith) ∙ add-mul (cluster - 2) 2 k in
    let m : mul32 cluster k ≡ cluster * k = mod-eq_of_lt (omega arith) in
    let a : add32 fs.info.data_region (mul32 cluster k) ≡ fs.info.data_region + cluster * k =
      rw m (mod-eq_of_lt (omega arith)) in
    rw a (omega (arith, e))
