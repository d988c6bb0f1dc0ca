-- ===== src/Fs/DirScan/Tests.antt =====
-- An entry, its bytes and its place.
use butos.Prelude.{◌*◌, ◌≡◌, refl, inl, none, [], ◌∷◌, arith}
use butos.Fs.Samples.{drive, fs}
use butos.Fs.Disk.{disk_read}
use butos.Fs.Cache.{
  cache_init, cache_lines_create, load_line, use_line, cache_access, cache_readb, cache_readl,
}
use butos.Fs.Volume.{off_bounds, read_sectors, read_sector, cluster_sector, read_cluster}
use butos.Fs.Table.{outside_table, fat_table_read, cluster_chain_read}
use butos.Fs.File.{file_readb}
use butos.Fs.Entry.{Entry}
use butos.Fs.DirScan.{Dir, entry_of_bytes, copy_name, entry_bytes, dir_entry_create}
use butos.Fs.DirScan.Bytes.{Fits}
use butos.Fs.DirScan.Slots.{IsFree, Created, dir_entry_create_lem}

abbrev entry : Entry
entry = record {
  short_name = 65 ∷ 66 ∷ 32 ∷ 32 ∷ 32 ∷ 32 ∷ 32 ∷ 32 ∷ 67 ∷ 32 ∷ 32 ∷ [];
  attr = 0x20;
  reserved = 0;
  ctime = 123456;
  atime = 700;
  high_cluster = 1;
  mtime = 99999;
  low_cluster = 300;
  size = 70000;
}

read_back : entry_of_bytes (entry_bytes entry) ≡ entry
unfolding entry_of_bytes copy_name entry_bytes
read_back = refl

entry-Fits : Fits entry
entry-Fits = record {
  name = refl;
  no_nul = (
    omega arith,
    (
      omega arith,
      (
        omega arith,
        (
          omega arith,
          (
            omega arith,
            (
              omega arith,
              (omega arith, (omega arith, (omega arith, (omega arith, (omega arith, tt))))),
            ),
          ),
        ),
      ),
    ),
  );
  attr = omega arith;
  ctime = omega arith;
  atime = omega arith;
  high = omega arith;
  mtime = omega arith;
  low = omega arith;
  size = omega arith;
}

-- A directory in the cluster 2 of the small file system, which is empty
abbrev dir : Dir
dir = record {
  ident = record {
    entry = record entry { low_cluster = 2; high_cluster = 0; size = 32 };
    cache = cache_init 2 16;
    cluster = 2;
  };
  num_entries = 1;
  entries = none ∷ [];
}

first_IsFree : IsFree drive dir.ident fs (32 * 0)
unfolding file_readb cluster_chain_read fat_table_read outside_table cache_init cache_lines_create
    cache_access cache_readl cache_readb load_line use_line read_sector read_sectors read_cluster
    cluster_sector off_bounds disk_read
first_IsFree = inl refl

dir_entry_create_lem_example :
    let (ident, fs1, tag) = file_readb drive dir.ident fs (32 * 0) in
    Created drive 5 dir entry (32 * 0) ident fs1 (dir_entry_create drive 5 dir fs entry)
dir_entry_create_lem_example =
    dir_entry_create_lem drive 0 5 dir fs entry entry-Fits (omega arith) (omega arith) tt
      first_IsFree
