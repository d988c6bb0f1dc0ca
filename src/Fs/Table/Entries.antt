-- ===== src/Fs/Table/Entries.antt =====
-- A table that fits into the cache behaves as a map from clusters to entries.
use butos.Prelude.{
  ℕ, ◌+◌, ◌*◌, ◌/◌, ◌%◌, ◌^◌, ◌≤◌, ◌<◌, ◌≡◌, refl, ap, ap₂, sym, ◌∙◌, ◌≢◌, ◌⊎◌, false, Option, none,
  some, List, length, length-set, arith, add32, word, subst, ℕ_discrete, dec_lt, set, ◌==◌,
  if◌then◌else◌,
}
use native.Mathlib.Nat.{mod-eq_of_lt}
use butos.Prelude.Division.{mod_ne, div-lt, mod_aligned, longs_apart}
use butos.Fs.Disk.{Drive}
use butos.Fs.Cache.{Cache, tag_of, index_of, cache_readl, cache_writel}
use butos.Fs.Cache.View
use butos.Fs.Cache.View.{view, Accessed}
use butos.Fs.Cache.Bytes.{
  InBlock, long_of, write_long, readl-long_of, writel-write_long, long-write_long,
}
use butos.Fs.Volume.{FatFs, read_sector, read_sectors}
use butos.Fs.Table.{
  with_cache, entry_offset, outside_table, read_error, fat_table_read, fat_table_write,
}

module _ (d : Drive) where
  -- A sector of the table
  abbrev pub InTable : FatFs d.State → ℕ → Type 0
  InTable fs t = (fs.table.address ≤ t) × (t < fs.table.address + fs.table.size)

  -- An entry of the table
  abbrev pub IsEntry : FatFs d.State → ℕ → Type 0
  IsEntry fs i = i * 4 < fs.table.size * fs.volume.sector_size

  abbrev pub seen : FatFs d.State → ℕ → Option (List ℕ)
  seen fs t = view (read_sector d) fs fs.table.cache t

  -- The sectors of the table can be had, and all have a line in the cache at once.
  pub record IsReady (fs : FatFs d.State) : Type 0 where
    pub cache : View.IsValid fs.table.cache
    pub block : fs.table.cache.block_size ≡ fs.volume.sector_size
    pub sector : 0 < fs.volume.sector_size
    pub longs : fs.volume.sector_size % 4 ≡ 0
    pub fits : fs.table.size ≤ fs.table.cache.cache_size
    pub bytes : fs.table.size * fs.volume.sector_size < word
    pub sectors : fs.table.address + fs.table.size < word
    pub readable : (t : ℕ) → InTable fs t → read_sector d fs t ≢ none
    pub loaded :
        (t : ℕ)
        → InTable fs t
        → (b : List ℕ) × (seen fs t ≡ some b) × (length b ≡ fs.volume.sector_size)

  abbrev pub entry_tag : FatFs d.State → ℕ → ℕ
  entry_tag fs i = tag_of fs.table.cache fs.table.address (entry_offset i)

  abbrev pub entry_position : FatFs d.State → ℕ → ℕ
  entry_position fs i = entry_offset i % fs.table.cache.block_size

  -- The entry of a cluster, as a client of the table sees it
  abbrev pub entry : FatFs d.State → ℕ → ℕ
  entry fs i = long_of (seen fs (entry_tag fs i)) (entry_position fs i)

  module _ {fs : FatFs d.State} (r : IsReady fs) (i : ℕ) (h : IsEntry fs i) where
    entry_offset_lem : entry_offset i ≡ i * 4
    entry_offset_lem = omega (arith, r.bytes)

    entry-quot : i * 4 / fs.volume.sector_size < fs.table.size
    entry-quot = div-lt (i * 4) fs.table.size fs.volume.sector_size r.sector h

    entry_tag_lem : entry_tag fs i ≡ fs.table.address + i * 4 / fs.volume.sector_size
    entry_tag_lem =
        ap₂ (λ o b. add32 fs.table.address (o / b)) entry_offset_lem r.block
        ∙ mod-eq_of_lt (omega (arith, entry-quot, r.sectors))

    entry-InTable : InTable fs (entry_tag fs i)
    entry-InTable = rw entry_tag_lem (omega (arith, entry-quot))

    entry_position_lem : entry_position fs i ≡ i * 4 % fs.volume.sector_size
    entry_position_lem = ap₂ (λ o b. o % b) entry_offset_lem r.block

    entry-InBlock : InBlock fs.table.cache (entry_offset i)
    entry-InBlock = record {
      inside =
          rw (entry_position_lem, r.block) (mod_aligned i fs.volume.sector_size r.sector r.longs);
      no_wrap = omega (arith, r.bytes, h);
    }

    entry-inside : outside_table fs i ≡ false
    unfolding outside_table
    entry-inside = ground (arith, mod-eq_of_lt r.bytes, entry_offset_lem)

  -- Two sectors of the table do not share a line.
  index_ne :
      {fs : FatFs d.State} {t u : ℕ}
      → IsReady fs
      → InTable fs t
      → InTable fs u
      → t ≢ u
      → index_of fs.table.cache t ≢ index_of fs.table.cache u
  index_ne {fs} {t} {u} r ht hu ne e = elim (dec_lt t u) [
    | yes lt ↦ mod_ne fs.table.cache.cache_size t u lt (omega (arith, r.fits)) e
    | no ge ↦ mod_ne fs.table.cache.cache_size u t (omega arith) (omega (arith, r.fits)) (sym e)
  ]

  -- An access to a sector of the table that leaves a block there keeps the table ready, and the other
  -- sectors as they are seen.
  access-IsReady :
      {fs : FatFs d.State} (c : Cache) (t : ℕ) (b : List ℕ)
      → IsReady fs
      → InTable fs t
      → Accessed (read_sector d) fs fs.table.cache c t
      → view (read_sector d) fs c t ≡ some b
      → length b ≡ fs.volume.sector_size
      → IsReady (with_cache fs c)
        × ((u : ℕ) → InTable fs u → u ≢ t → seen (with_cache fs c) u ≡ seen fs u)
  unfolding read_sector read_sectors
  access-IsReady {fs} c t b r ht a at len = (
    record {
      cache = a.valid;
      block = a.block_size ∙ r.block;
      sector = r.sector;
      longs = r.longs;
      fits = rw a.cache_size r.fits;
      bytes = r.bytes;
      sectors = r.sectors;
      readable = r.readable;
      loaded = λ u hu. elim (ℕ_discrete u t) [
        | yes e ↦ (b, ap (view (read_sector d) fs c) e ∙ at, len)
        | no ne ↦
            let (x, seen_x, len_x) = r.loaded u hu in
            (x, a.others u (index_ne r hu ht ne) ∙ seen_x, len_x)
      ];
    },
    λ u hu ne. a.others u (index_ne r hu ht ne),
  )

  -- `fs'` is `fs` but for its cache, and holds the entries `e`.
  pub record Holds (fs fs' : FatFs d.State) (e : ℕ → ℕ) : Type 0 where
    pub ready : IsReady fs'
    pub volume : fs'.volume ≡ fs.volume
    pub info : fs'.info ≡ fs.info
    pub address : fs'.table.address ≡ fs.table.address
    pub size : fs'.table.size ≡ fs.table.size
    pub count : fs'.table.count ≡ fs.table.count
    pub entries : (j : ℕ) → IsEntry fs j → entry fs' j ≡ e j

  entry-with_cache :
      (fs : FatFs d.State) (c : Cache) (j : ℕ)
      → c.block_size ≡ fs.table.cache.block_size
      → entry (with_cache fs c) j
        ≡ long_of (seen (with_cache fs c) (entry_tag fs j)) (entry_position fs j)
  entry-with_cache fs c j e =
      ap₂ (λ t i. long_of (seen (with_cache fs c) t) i)
        (ap (λ b. add32 fs.table.address (entry_offset j / b)) e) (ap (λ b. entry_offset j % b) e)

  -- Inside a table that is ready `fat_table_read` returns the entry of the cluster and changes no entry.
  pub read-entry :
      {fs : FatFs d.State} (i : ℕ)
      → IsReady fs
      → IsEntry fs i
      → ((fat_table_read d fs i).1 ≡ entry fs i) × Holds fs (fat_table_read d fs i).0 (entry fs)
  unfolding fat_table_read read_sector read_sectors
  read-entry {fs} i r h =
      let t = entry_tag fs i in
      let c = (cache_readl (read_sector d) fs.table.cache fs fs.table.address (entry_offset i)).0 in
      let (got, kept, a) =
        readl-long_of (read_sector d) fs fs.table.cache fs.table.address (entry_offset i) r.cache
          (entry-InBlock r i h) in
      let (b, at, len) = r.loaded t (entry-InTable r i h) in
      let (ready, others) = access-IsReady c t b r (entry-InTable r i h) a (kept ∙ at) len in
      rw (entry-inside r i h) (
        got,
        record {
          ready = ready;
          volume = refl;
          info = refl;
          address = refl;
          size = refl;
          count = refl;
          entries = λ j hj.
              entry-with_cache fs c j a.block_size
              ∙ ap (λ x. long_of x (entry_position fs j))
                  (elim (ℕ_discrete (entry_tag fs j) t) [
                    | yes e ↦ ap (seen (with_cache fs c)) e ∙ kept ∙ ap (seen fs) (sym e)
                    | no ne ↦ others (entry_tag fs j) (entry-InTable r j hj) ne
                  ]);
        },
      )

  abbrev long_set : List ℕ → ℕ → ℕ → List ℕ
  long_set b p v =
      set (set (set (set b p (v % 256)) (p + 1) (v / 2 ^ 8 % 256)) (p + 2) (v / 2 ^ 16 % 256))
        (p + 3) (v / 2 ^ 24 % 256)

  length-long_set : (b : List ℕ) (p v : ℕ) → length (long_set b p v) ≡ length b
  length-long_set b p v =
      length-set _ (p + 3) _ ∙ length-set _ (p + 2) _ ∙ length-set _ (p + 1) _ ∙ length-set b p _

  -- The entries after a write
  abbrev pub update : (ℕ → ℕ) → ℕ → ℕ → ℕ → ℕ
  update e i v j = if j == i then v else e j

  update_self : (e : ℕ → ℕ) (i v j : ℕ) → j ≡ i → v ≡ update e i v j
  update_self e i v j h = ground arith

  update_ne : (e : ℕ → ℕ) (i v j : ℕ) → j ≢ i → e j ≡ update e i v j
  update_ne e i v j h = ground arith

  entries_apart :
      {fs : FatFs d.State} (i j : ℕ)
      → IsReady fs
      → IsEntry fs i
      → IsEntry fs j
      → j ≢ i
      → entry_tag fs j ≡ entry_tag fs i
      → (entry_position fs i + 4 ≤ entry_position fs j)
        ⊎ (entry_position fs j + 4 ≤ entry_position fs i)
  entries_apart {fs} i j r hi hj ne e =
      rw (entry_position_lem r i hi, entry_position_lem r j hj)
        (longs_apart i j fs.volume.sector_size (λ f. ne (sym f))
          (omega (arith, e, entry_tag_lem r i hi, entry_tag_lem r j hj)))

  position_inside :
      {fs : FatFs d.State} (i : ℕ)
      → IsReady fs
      → IsEntry fs i
      → entry_position fs i + 3 < fs.volume.sector_size
  position_inside {fs} i r h =
      subst (λ b. entry_position fs i + 3 < b) r.block (entry-InBlock r i h).inside

  -- Inside a table that is ready `fat_table_write`, of a long, sets the entry of the cluster and changes no other.
  pub write-entry :
      {fs : FatFs d.State} (i v : ℕ)
      → IsReady fs
      → IsEntry fs i
      → v < word
      → Holds fs (fat_table_write d fs i v) (update (entry fs) i v)
  unfolding fat_table_write read_sector read_sectors
  write-entry {fs} i v r h small =
      let t = entry_tag fs i in
      let p = entry_position fs i in
      let c = cache_writel (read_sector d) fs.table.cache fs fs.table.address (entry_offset i) v in
      let (wrote, a) =
        writel-write_long (read_sector d) fs fs.table.cache fs.table.address (entry_offset i) v
          r.cache (entry-InBlock r i h) in
      let (b, at, len) = r.loaded t (entry-InTable r i h) in
      let b' = long_set b p v in
      let now : view (read_sector d) fs c t ≡ some b' = wrote ∙ ap (λ x. write_long x p v) at in
      let (ready, others) =
        access-IsReady c t b' r (entry-InTable r i h) a now (length-long_set b p v ∙ len) in
      rw (entry-inside r i h) (record {
        ready = ready;
        volume = refl;
        info = refl;
        address = refl;
        size = refl;
        count = refl;
        entries = λ j hj.
            entry-with_cache fs c j a.block_size ∙ elim (ℕ_discrete (entry_tag fs j) t) [
              | yes e ↦
                  let written =
                    long-write_long b p (entry_position fs j) v (rw len (position_inside i r h))
                      small in
                  ap (λ u. long_of (seen (with_cache fs c) u) (entry_position fs j)) e
                  ∙ ap (λ x. long_of x (entry_position fs j)) now
                  ∙ elim (ℕ_discrete j i) [
                    | yes same ↦
                        ap (λ q. long_of (some b') q) (ap (entry_position fs) same)
                        ∙ written.0
                        ∙ update_self (entry fs) i v j same
                    | no ne ↦
                        written.1 (entries_apart i j r h hj ne e)
                        ∙ ap (λ x. long_of x (entry_position fs j)) (sym at ∙ ap (seen fs) (sym e))
                        ∙ update_ne (entry fs) i v j ne
                  ]
              | no ne ↦
                  ap (λ x. long_of x (entry_position fs j))
                    (others (entry_tag fs j) (entry-InTable r j hj) ne)
                  ∙ update_ne (entry fs) i v j (λ f. ne (ap (entry_tag fs) f))
            ];
      })

  -- Outside a table that is ready, for a cluster whose offset does not wrap, `fat_table_read` returns
  -- READ_ERROR and `fat_table_write` does nothing.
  pub outside-entry :
      {fs : FatFs d.State} (i v : ℕ)
      → IsReady fs
      → i * 4 < word
      → ¬ IsEntry fs i
      → (fat_table_read d fs i ≡ (fs, read_error)) × (fat_table_write d fs i v ≡ fs)
  unfolding fat_table_read fat_table_write outside_table
  outside-entry {fs} i v r small out = ground (arith, mod-eq_of_lt r.bytes, mod-eq_of_lt small)
