-- ===== src/Fs/File/Tests.antt =====
-- A file in the cluster 2 of the small file system, which is followed by 3.
use butos.Prelude.{◌≡◌, refl, [], ◌∷◌, replicate, arith}
use butos.Fs.Cache.{byte_of, cache_init, cache_lines_create}
use butos.Fs.Cache.View
use butos.Fs.Cache.View.{view}
use butos.Fs.Samples.{drive, fs}
use butos.Fs.Volume.{read_cluster}
use butos.Fs.Table.Tests.{fs-IsReady, chain}
use butos.Fs.Table.Entries.{entry, Holds}
use butos.Fs.File.{File, file_readb}
use butos.Fs.File.Reads.{file_readb_lem}

abbrev file : File
file = record {
  entry = record {
    short_name = replicate 11 32;
    attr = 0x20;
    reserved = 0;
    ctime = 0;
    atime = 0;
    high_cluster = 0;
    mtime = 0;
    low_cluster = 2;
    size = 30;
  };
  cache = cache_init 2 16;
  cluster = 2;
}

file-IsValid : View.IsValid file.cache
unfolding cache_init cache_lines_create
file-IsValid = record { some_lines = omega arith; count = refl }

-- The byte 20 is in the second cluster of the file, 3, and is read from cluster 4.
file_readb_lem_example :
    let (file', fs', b) = file_readb drive file fs 20 in
    (b ≡ byte_of (view (read_cluster drive) fs' file.cache 4) 4)
    × Holds drive fs fs' (entry drive fs)
unfolding cache_init
file_readb_lem_example =
    file_readb_lem drive file fs 20 (3 ∷ []) fs-IsReady chain (omega arith, omega arith)
      file-IsValid (omega arith)
