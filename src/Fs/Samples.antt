-- ===== src/Fs/Samples.antt =====
-- A drive of 64 sectors that takes one sector at a time, and a small file system on it.
use butos.Prelude.{
  ℕ, ◌-◌, none, some, List, [], ◌∷◌, ◌++◌, ltb, ◌==◌, if◌then◌else◌, ◌&&◌, replicate,
}
use butos.Fs.Disk.{Drive}
use butos.Fs.Cache.{cache_init}
use butos.Fs.Volume.{FatFs}

abbrev pub Sectors : Type 0
Sectors = ℕ → List ℕ

abbrev pub drive : Drive
drive = record {
  State = Sectors;
  read_pio = λ s n lba. if n == 1 && ltb lba 64 then some (s lba) else none;
  write_pio =
      λ s n lba b. if n == 1 && ltb lba 64 then (λ u. if u == lba then b else s u, 0) else (s, 1);
  room = λ s k. ltb k 10000;
}

-- The entry of a cluster that is the last of its chain
abbrev pub last_entry : List ℕ
last_entry = 0xf8 ∷ 0xff ∷ 0xff ∷ 0x0f ∷ []

-- The table has two sectors, 1 and 2: cluster 2 is followed by 3, and the others from 4 on are free.
abbrev pub sectors : Sectors
sectors u =
    if u == 1
    then last_entry ++ last_entry ++ (3 ∷ 0 ∷ 0 ∷ 0 ∷ []) ++ last_entry
    else replicate 16 0

abbrev pub fs : FatFs Sectors
fs = record {
  volume = record {
    drive = record { part_offset = 10; drive = λ u. sectors (u - 10) };
    sector_count = 20;
    cluster_count = 7;
    sector_size = 16;
    cluster_size = 1;
    cluster_sizeb = 16;
  };
  table = record { address = 1; size = 2; count = 1; cache = cache_init 10 16 };
  info = record {
    sector = 0;
    buffer = none;
    root_cluster = 2;
    data_region = 3;
    free_cluster_count = 4;
    free_cluster = 2;
  };
}
