-- ===== src/Fs/Cache/Evict.antt =====
-- What a block that loses its line to another is seen as.
use butos.Prelude.{
  ℕ, ◌%◌, ◌/◌, ◌≡◌, sym, ◌∙◌, ◌≢◌, Option, none, some, List, length, set, get_or-set_self, ◌<◌,
  subst, ap, add32,
}
use butos.Fs.Cache.{
  Cache, Mode, write, tag_of, index_of, byte_of, write_byte, cache_access, cache_writeb,
}
use butos.Fs.Cache.View.{IsValid, view, access-view}

-- In a valid cache, a byte that is written inside a block that can be had stands in the block, and is
-- lost as soon as another block of the same line is accessed and can be had: the block is then seen as
-- the disk has it, since the line is given away without being written back.
pub writeb_lost :
    {S : Type 0} (read_fun : S → ℕ → Option (List ℕ)) (fs : S) (c : Cache)
    (sector offset v sector' offset' : ℕ) (mode : Mode) (block : List ℕ)
    → IsValid c
    → let t = tag_of c sector offset in
      let u = tag_of c sector' offset' in
      view read_fun fs c t ≡ some block
      → offset % c.block_size < length block
      → index_of c t ≡ index_of c u
      → t ≢ u
      → read_fun fs u ≢ none
      → let c1 = cache_writeb read_fun c fs sector offset v in
        let c2 = (cache_access read_fun c1 fs sector' offset' mode).0 in
        (view read_fun fs c1 t ≡ some (set block (offset % c.block_size) v))
        × (byte_of (view read_fun fs c1 t) (offset % c.block_size) ≡ v)
        × (view read_fun fs c2 t ≡ read_fun fs t)
unfolding cache_writeb
writeb_lost read_fun fs c sector offset v sector' offset' mode block valid seen inside same ne ok =
    let c1 = (cache_access read_fun c fs sector offset (write v)).0 in
    let t = tag_of c sector offset in
    let u = tag_of c sector' offset' in
    let a = (access-view read_fun fs c valid sector offset (write v)).1 in
    let b = (access-view read_fun fs c1 a.valid sector' offset' mode).1 in
    let e : tag_of c1 sector' offset' ≡ u = ap (λ n. add32 sector' (offset' / n)) a.block_size in
    let i = offset % c.block_size in
    let w : view read_fun fs c1 t ≡ some (set block i v) =
      ap (λ x. x.0) (access-view read_fun fs c valid sector offset (write v)).0
      ∙ ap (λ b. write_byte b i v) seen in
    (
      w,
      ap (λ b. byte_of b i) w ∙ get_or-set_self block i v 0 inside,
      b.evicted t
          (subst (λ n. t % n ≡ tag_of c1 sector' offset' % n) (sym a.cache_size)
            (same ∙ ap (λ n. n % c.cache_size) (sym e)))
          (λ f. ne (f ∙ e)) (λ f. ok (ap (read_fun fs) (sym e) ∙ f)),
    )
