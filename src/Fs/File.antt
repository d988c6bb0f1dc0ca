-- ===== src/Fs/File.antt =====
-- file.c: reads and writes of a file through its own cache, whose blocks are the clusters. The `path`
-- of a file stands beside it (Fs/Tree), and the places in the kernel heap are not modelled.
pub mod Paths
pub mod Reads
mod Tests
use butos.Prelude.{
  ℕ, zero, suc, ◌+◌, ◌-◌, ◌*◌, ◌/◌, Bool, true, false, Option, none, some, List, [], ◌∷◌, ltb, ◌==◌,
  if◌then◌else◌, add32, sub32,
}
use butos.Fs.Disk.{Drive}
use butos.Fs.Cache.{Cache, cache_init, cache_readb, cache_writeb}
use butos.Fs.Volume.{FatFs, read_cluster}
use butos.Fs.Table.{
  eoc1, fat_table_write, fat_table_alloc_cluster, cluster_chain_get_len, cluster_chain_read,
}
use butos.Fs.Entry.{Entry, entry_cluster}

-- `struct file`
pub record File : Type 0 where
  pub entry : Entry
  pub cache : Cache
  pub cluster : ℕ

abbrev pub fat_eof : ℕ
fat_eof = 0x1a

unfoldable pub file_open : {State : Type 0} → FatFs State → Entry → File
file_open fs entry = record {
  entry = entry;
  cache = cache_init (add32 (entry.size / fs.volume.cluster_sizeb) 1) fs.volume.cluster_sizeb;
  cluster = entry_cluster entry;
}

module _ (d : Drive) where
  unfoldable pub file_readb : File → FatFs d.State → ℕ → File × FatFs d.State × ℕ
  file_readb file fs offset =
      if ltb file.entry.size offset
      then (file, fs, fat_eof)
      else (let (fs', cluster) =
            cluster_chain_read d fs file.cluster (offset / fs.volume.cluster_sizeb) in
          let (c, b) = cache_readb (read_cluster d) file.cache fs' cluster offset in
          (record file { cache = c }, fs', b))

  -- The loop of `file_read` over `n` bytes from `offset` on, with the bytes that it reads
  unfoldable pub file_read : (n : ℕ) → File → FatFs d.State → ℕ → File × FatFs d.State × List ℕ
  unfolding file_readb
  file_read zero file fs offset = (file, fs, [])
  file_read (suc n) file fs offset =
      let (file', fs', b) = file_readb file fs offset in
      let (file2, fs2, bs) = file_read n file' fs' (add32 offset 1) in (file2, fs2, b ∷ bs)

  -- The loop by which `file_writeb` adds `k` clusters behind `curr`
  unfoldable pub extend_loop : (k : ℕ) → FatFs d.State → ℕ → FatFs d.State
  extend_loop zero fs curr = fs
  extend_loop (suc k) fs curr =
      let (fs', new) = fat_table_alloc_cluster d fs eoc1 in
      extend_loop k (fat_table_write d fs' curr new) new

  -- `file_writeb` once the length of the chain is known
  unfoldable pub write_behind : File → FatFs d.State × ℕ → (offset byte : ℕ) → File × FatFs d.State
  unfolding extend_loop
  write_behind file (fs, len) offset byte =
      let sizeb = fs.volume.cluster_sizeb in
      let fs1 =
        if ltb len (add32 (sub32 file.entry.size 1 / sizeb) 1)
        then extend_loop (file.entry.size / sizeb) fs file.cluster
        else fs in
      let (fs2, cluster) = cluster_chain_read d fs1 file.cluster (offset / sizeb) in
      (
        record file { cache = cache_writeb (read_cluster d) file.cache fs2 cluster offset byte },
        fs2,
      )

  -- The fuel is that of `cluster_chain_get_len`.
  unfoldable pub file_writeb :
      (fuel : ℕ) → File → FatFs d.State → (offset byte : ℕ) → Option (File × FatFs d.State)
  unfolding write_behind
  file_writeb fuel file fs offset byte =
      let larger = ltb file.entry.size offset in
      let file1 = record file {
        entry = record file.entry { size = if larger then offset else file.entry.size };
      } in
      elim (cluster_chain_get_len d fuel fs file.cluster) [
        | none ↦ none
        | some out ↦ some (write_behind file1 out offset byte)
      ]

  unfoldable pub file_write :
      (fuel : ℕ) → File → FatFs d.State → ℕ → List ℕ → Option (File × FatFs d.State)
  unfolding file_writeb
  file_write fuel file fs offset [] = some (file, fs)
  file_write fuel file fs offset (b ∷ bs) = elim (file_writeb fuel file fs offset b) [
    | none ↦ none
    | some (file', fs') ↦ file_write fuel file' fs' (add32 offset 1) bs
  ]
