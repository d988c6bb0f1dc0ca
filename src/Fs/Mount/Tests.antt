-- ===== src/Fs/Mount/Tests.antt =====
-- A file system with an information sector of 512 bytes.
use butos.Prelude.{ℕ, ◌≡◌, refl, true, some, List, replicate, arith, ◌==◌, if◌then◌else◌}
use butos.Fs.Disk.{Drive}
use butos.Fs.Samples.{Sectors, drive}
use butos.Fs.Samples
use butos.Fs.Volume.{FatFs, off_bounds, read_sector}
use butos.Fs.Volume.Clusters.{IsFaithful}
use butos.Fs.Mount.{fat_fsinfo_flush}
use butos.Fs.Mount.Info.{Info, fsinfo_flush_lem}

-- A drive that takes every command for one sector
abbrev plain : Drive
plain = record {
  State = Sectors;
  read_pio = λ s n lba. some (s lba);
  write_pio = λ s n lba b. (λ u. if u == lba then b else s u, 0);
  room = λ s k. true;
}

plain-IsFaithful : IsFaithful plain 1 512
plain-IsFaithful = record {
  written = λ s lba b len ok. ground arith;
  kept = λ s lba l b apart. ground (arith, apart);
  room = λ s lba b k. refl;
}

abbrev blank : List ℕ
blank = replicate 512 0

abbrev mounted : FatFs Sectors
mounted = record Samples.fs { info = record Samples.fs.info { sector = 1; buffer = some blank } }

fsinfo_flush_lem_example :
    (b' : List ℕ) × (read_sector plain (fat_fsinfo_flush plain mounted) 1 ≡ some b')
    × Info b' 4 2 blank
unfolding off_bounds
fsinfo_flush_lem_example =
    fsinfo_flush_lem plain mounted blank refl (omega arith) plain-IsFaithful (omega arith)
      (omega arith) refl (λ c. refl) refl
