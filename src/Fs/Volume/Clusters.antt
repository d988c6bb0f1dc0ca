-- ===== src/Fs/Volume/Clusters.antt =====
-- A cluster that is written is read back, and no other cluster is changed.
use butos.Prelude.{
  ℕ, ◌+◌, ◌-◌, ◌*◌, ◌≤◌, ◌<◌, ◌≡◌, refl, ap, ap₂, sym, ◌∙◌, ◌≢◌, ◌⊎◌, Bool, true, inl, inr, arith,
  none, some, List, length, add32, mul32, word, dec_lt, if◌then◌else◌, ◌==◌, Bool-cases,
  le→ltb_false,
}
use native.Mathlib.Nat.{mod-eq_of_lt, add-mul, mul-le-mul_right}
use butos.Fs.Disk.{Drive, disk_read, disk_write}
use butos.Fs.Volume.{
  FatFs, off_bounds, read_sectors, write_sectors, cluster_sector, read_cluster, write_cluster,
}

-- What the file system relies on: after a write of `n` sectors that is reported as done, they are
-- read back, and ranges of `n` sectors apart from them are read as before. The kernel heap does not
-- lie on the drive.
pub record IsFaithful (d : Drive) (n size : ℕ) : Type 0 where
  pub written :
      (s : d.State) (lba : ℕ) (b : List ℕ)
      → length b ≡ size
      → (d.write_pio s n lba b).1 ≡ 0
      → d.read_pio (d.write_pio s n lba b).0 n lba ≡ some b
  pub kept :
      (s : d.State) (lba l : ℕ) (b : List ℕ)
      → (l + n ≤ lba) ⊎ (lba + n ≤ l)
      → d.read_pio (d.write_pio s n lba b).0 n l ≡ d.read_pio s n l
  pub room :
      (s : d.State) (lba : ℕ) (b : List ℕ) (k : ℕ) → d.room (d.write_pio s n lba b).0 k ≡ d.room s k

module _ (d : Drive) (fs : FatFs d.State) where
  abbrev size : ℕ
  size = fs.volume.cluster_size * fs.volume.sector_size

  -- The clusters of the volume and their sectors have numbers that fit, and a cluster is a command of
  -- the drive.
  pub record IsSound : Type 0 where
    pub some_sectors : 0 < fs.volume.cluster_size
    pub byte : fs.volume.cluster_size < 256
    pub fits :
        fs.info.data_region
          + (fs.volume.cluster_count + 1) * fs.volume.cluster_size
          + fs.volume.drive.part_offset
        < word

  -- The first sector of a cluster on the drive
  abbrev place : ℕ → ℕ
  place c = fs.info.data_region + c * fs.volume.cluster_size - 2 + fs.volume.drive.part_offset

  place_lem :
      (c : ℕ)
      → IsSound
      → 2 ≤ c
      → c ≤ fs.volume.cluster_count
      → add32 (cluster_sector d fs c) fs.volume.drive.part_offset ≡ place c
  unfolding cluster_sector
  place_lem c s two le =
      let k = fs.volume.cluster_size in
      let up : c * k ≤ fs.volume.cluster_count * k = mul-le-mul_right k le in
      let down : 2 * k ≤ c * k = mul-le-mul_right k two in
      let e : (fs.volume.cluster_count + 1) * k ≡ fs.volume.cluster_count * k + 1 * k =
        add-mul fs.volume.cluster_count 1 k in
      let m : mul32 c k ≡ c * k = mod-eq_of_lt (omega (arith, up, e, s.fits)) in
      let a : add32 fs.info.data_region (mul32 c k) ≡ fs.info.data_region + c * k =
        rw m (mod-eq_of_lt (omega (arith, up, e, s.fits))) in
      rw a (omega (arith, up, down, e, s.fits, s.some_sectors))

  -- Different clusters have different sectors.
  places_apart :
      (b c : ℕ)
      → IsSound
      → 2 ≤ b
      → 2 ≤ c
      → b ≢ c
      → (place b + fs.volume.cluster_size ≤ place c) ⊎ (place c + fs.volume.cluster_size ≤ place b)
  places_apart b c s hb hc ne =
      let k = fs.volume.cluster_size in
      let bk : 2 * k ≤ b * k = mul-le-mul_right k hb in
      let ck : 2 * k ≤ c * k = mul-le-mul_right k hc in
      elim (dec_lt b c) [
        | yes lt ↦
            let m : (b + 1) * k ≤ c * k = mul-le-mul_right k (omega arith) in
            inl (omega (arith, add-mul b 1 k, m, s.some_sectors, bk))
        | no ge ↦
            let m : (c + 1) * k ≤ b * k = mul-le-mul_right k (omega arith) in
            inr (omega (arith, add-mul c 1 k, m, s.some_sectors, ck))
      ]

  abbrev moved : d.State → FatFs d.State
  moved s = record fs { volume = record fs.volume { drive = record fs.volume.drive { drive = s } } }

  abbrev refused : ℕ → Bool
  refused c = off_bounds fs.volume.sector_count (cluster_sector d fs c) fs.volume.cluster_size

  -- A read of a cluster, when the state of the drive is `s`
  read_cluster_lem :
      (c : ℕ) (s : d.State)
      → IsSound
      → 2 ≤ c
      → c ≤ fs.volume.cluster_count
      → read_cluster d (moved s) c ≡ (
          if refused c
          then none
          else if d.room s (mul32 fs.volume.sector_size fs.volume.cluster_size)
          then d.read_pio s fs.volume.cluster_size (place c)
          else none)
  unfolding read_cluster read_sectors disk_read cluster_sector
  read_cluster_lem c s sound two le = rw (le→ltb_false c fs.volume.cluster_count le) (
      ap₂
        (λ n l.
          if refused c
          then none
          else if d.room s (mul32 fs.volume.sector_size fs.volume.cluster_size)
          then d.read_pio s n l
          else none)
        (mod-eq_of_lt sound.byte) (place_lem c sound two le))

  write_cluster_lem :
      (c : ℕ) (b : List ℕ)
      → IsSound
      → 2 ≤ c
      → c ≤ fs.volume.cluster_count
      → write_cluster d fs c b ≡ (
          if refused c
          then (fs, 1)
          else (let (s, err) =
                d.write_pio fs.volume.drive.drive fs.volume.cluster_size (place c) b in
              (moved s, if err == 0 then 0 else 1)))
  unfolding write_cluster write_sectors disk_write cluster_sector
  write_cluster_lem c b sound two le = rw (le→ltb_false c fs.volume.cluster_count le) (
      ap₂
        (λ n l.
          if refused c
          then (fs, 1)
          else (let (s, err) = d.write_pio fs.volume.drive.drive n l b in
              (moved s, if err == 0 then 0 else 1)))
        (mod-eq_of_lt sound.byte) (place_lem c sound two le))

  done_lem : (err : ℕ) → ◌≡◌ {A = ℕ} (if err == 0 then 0 else 1) 0 → err ≡ 0
  done_lem err h = ground arith

  -- On a drive that keeps what is written, with the clusters of a volume whose numbers fit and a heap
  -- that has room: after a write of a cluster that succeeds, the cluster reads as the buffer, and
  -- every other cluster as before.
  pub write-read_cluster :
      (c : ℕ) (b : List ℕ)
      → IsSound
      → IsFaithful d fs.volume.cluster_size size
      → 2 ≤ c
      → c ≤ fs.volume.cluster_count
      → length b ≡ size
      → (write_cluster d fs c b).1 ≡ 0
      → d.room fs.volume.drive.drive (mul32 fs.volume.sector_size fs.volume.cluster_size) ≡ true
      → let fs' = (write_cluster d fs c b).0 in
        (read_cluster d fs' c ≡ some b)
        × ((j : ℕ)
            → 2 ≤ j
            → j ≤ fs.volume.cluster_count
            → j ≢ c
            → read_cluster d fs' j ≡ read_cluster d fs j)
  write-read_cluster c b sound faithful two le len ok room =
      let s = fs.volume.drive.drive in
      let s' = (d.write_pio s fs.volume.cluster_size (place c) b).0 in
      let room' =
        faithful.room s (place c) b (mul32 fs.volume.sector_size fs.volume.cluster_size) in
      let k = fs.volume.cluster_size in
      let w = write_cluster_lem c b sound two le in
      let done = d.write_pio s k (place c) b in
      elim (Bool-cases (refused c)) [
        | inl off ↦
            let failed : (write_cluster d fs c b).1 ≡ 1 = rw (w, off) refl in
            absurd (omega (arith, failed, ok))
        | inr on ↦
            let out : write_cluster d fs c b ≡ (moved s', if done.1 == 0 then 0 else 1) =
              rw (w, on) refl in
            let done_ok : done.1 ≡ 0 = done_lem done.1 (sym (ap (λ x. x.1) out) ∙ ok) in
            rw (ap (λ x. x.0) out) (
              rw (read_cluster_lem c s' sound two le, on, room', room)
                  (faithful.written s (place c) b len done_ok),
              λ j two' le' ne.
                  rw
                    (
                      read_cluster_lem j s' sound two' le',
                      read_cluster_lem j s sound two' le',
                      room',
                    )
                    (ap
                      (λ x.
                        if refused j
                        then none
                        else if d.room s (mul32 fs.volume.sector_size k)
                        then x
                        else none)
                      (faithful.kept s (place c) (place j) b (places_apart j c sound two' two ne))),
            )
      ]
