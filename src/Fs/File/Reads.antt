-- ===== src/Fs/File/Reads.antt =====
-- Which byte `file_readb` returns.
use butos.Prelude.{ℕ, ◌/◌, ◌%◌, ◌≤◌, ◌<◌, ◌≡◌, refl, ap, ◌∙◌, List, le→ltb_false, lt→ltb}
use butos.Fs.Disk.{Drive}
use butos.Fs.Cache.{read, tag_of, byte_of, cache_readb}
use butos.Fs.Cache.View
use butos.Fs.Cache.View.{view, access-view}
use butos.Fs.Volume.{FatFs, read_cluster}
use butos.Fs.Table.{cluster_chain_read}
use butos.Fs.Table.Entries.{IsReady, entry, Holds}
use butos.Fs.Table.Chains.{IsChain, Within, at_or_last, chain_read_lem}
use butos.Fs.File.{File, fat_eof, file_readb}

module _ (d : Drive) (file : File) (fs : FatFs d.State) (offset : ℕ) where
  -- The number of the cluster in the chain that holds the offset
  abbrev pub index : ℕ
  index = offset / fs.volume.cluster_sizeb

  -- With a table that is ready, a chain whose clusters have entries and a valid cache, `file_readb`
  -- changes no entry of the table, and at an offset up to the size returns a byte of the block that
  -- the cache shows at the cluster of the chain for the offset, plus the number of this cluster in the
  -- chain: so it is the block of this cluster only for the first one.
  pub file_readb_lem :
      (cs : List ℕ)
      → IsReady d fs
      → IsChain (entry d fs) file.cluster cs
      → Within d fs file.cluster cs
      → View.IsValid file.cache
      → offset ≤ file.entry.size
      → let (file', fs', b) = file_readb d file fs offset in
        let t = tag_of file.cache (at_or_last file.cluster cs index) offset in
        (b ≡ byte_of (view (read_cluster d) fs' file.cache t) (offset % file.cache.block_size))
        × Holds d fs fs' (entry d fs)
  unfolding file_readb cache_readb
  file_readb_lem cs r chain w valid le =
      let (at, held) = chain_read_lem d fs file.cluster cs index r chain w in
      let out = cluster_chain_read d fs file.cluster index in
      rw (le→ltb_false offset file.entry.size le) (
        ap (λ x. x.1) (access-view (read_cluster d) out.0 file.cache valid out.1 offset read).0
            ∙ ap
                (λ c.
                  byte_of (view (read_cluster d) out.0 file.cache (tag_of file.cache c offset))
                    (offset % file.cache.block_size))
                at,
        held,
      )

  -- Behind the size `file_readb` returns FAT_EOF and changes nothing.
  pub file_readb_eof : file.entry.size < offset → file_readb d file fs offset ≡ (file, fs, fat_eof)
  unfolding file_readb
  file_readb_eof beyond = rw (lt→ltb file.entry.size offset beyond) refl
