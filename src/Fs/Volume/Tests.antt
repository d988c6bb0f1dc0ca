-- ===== src/Fs/Volume/Tests.antt =====
-- The small volume, and the theorems about its sectors.
use butos.Prelude.{ℕ, ◌+◌, ◌-◌, ◌*◌, ◌≤◌, ◌<◌, ◌⊎◌, ◌≡◌, ◌≢◌, refl, some, arith, replicate}
use butos.Fs.Disk.{disk_write}
use butos.Fs.Samples.{drive, fs}
use butos.Fs.Volume.{off_bounds, write_sectors, cluster_sector, read_cluster, write_cluster}
use butos.Fs.Volume.Bounds.{Taken, Refused, write_sector-bounds, cluster_sector_lem}
use butos.Fs.Volume.Clusters.{IsFaithful, IsSound, write-read_cluster}

cluster_sector_lem_test : cluster_sector drive fs 4 ≡ 3 + (4 - 2) * 1 + 2 * (1 - 1)
cluster_sector_lem_test = cluster_sector_lem drive fs 4 (omega arith) (omega arith) (omega arith)

drive-IsFaithful : IsFaithful drive 1 16
drive-IsFaithful = record {
  written = λ s lba b len ok. ground (arith, ok);
  kept = λ s lba l b apart. ground (arith, apart);
  room = λ s lba b k. ground arith;
}

fs-IsSound : IsSound drive fs
fs-IsSound = record { some_sectors = omega arith; byte = omega arith; fits = omega arith }

write-read_cluster_example :
    let fs' = (write_cluster drive fs 4 (replicate 16 7)).0 in
    (read_cluster drive fs' 4 ≡ some (replicate 16 7))
    × ((j : ℕ) → 2 ≤ j → j ≤ 7 → j ≢ 4 → read_cluster drive fs' j ≡ read_cluster drive fs j)
unfolding write_cluster write_sectors off_bounds cluster_sector disk_write
write-read_cluster_example =
    write-read_cluster drive fs 4 (replicate 16 7) fs-IsSound drive-IsFaithful (omega arith)
      (omega arith) refl refl refl

-- The sector 20 of the volume of twenty sectors
write_sector-bounds_example :
    ((20 ≤ 20) × Taken drive fs 20 (replicate 16 7))
    ⊎ ((20 < 20) × Refused drive fs 20 (replicate 16 7))
write_sector-bounds_example =
    write_sector-bounds drive fs 20 (replicate 16 7) (omega arith) drive-IsFaithful refl
