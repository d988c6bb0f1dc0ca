-- ===== src/Fs/Cache/Tests.antt =====
-- A cache of two lines of four bytes before a store of 64 blocks, and the theorems at it.
use butos.Prelude.{
  ℕ, ◌%◌, ◌≡◌, ◌≢◌, refl, Option, none, some, List, [], ◌∷◌, length, ltb, ◌==◌, if◌then◌else◌,
  arith,
}
use butos.Fs.Cache.{
  Cache, byte_of, read, write, tag_of, cache_init, cache_lines_create, cache_access, cache_readb,
  cache_writeb, cache_readl, cache_writel, cache_flush, load_line, use_line,
}
use butos.Fs.Cache.View.{IsValid, view, Accessed, access-view, use_block}
use butos.Fs.Cache.Bytes.{InBlock, long_of, write_long, readl-long_of, writel-write_long}
use butos.Fs.Cache.Flush.{Placed, Backing, init-Placed, access-Placed, flush-view}
use butos.Fs.Cache.Evict.{writeb_lost}

abbrev Store : Type 0
Store = ℕ → List ℕ

abbrev read_block : Store → ℕ → Option (List ℕ)
read_block s t = if ltb t 64 then some (s t) else none

abbrev write_block : Store → ℕ → Option (List ℕ) → Store × ℕ
write_block s t none = (s, 1)
write_block s t (some b) = (λ u. if u == t then b else s u, 0)

abbrev store : Store
store t = t ∷ 20 ∷ 30 ∷ 40 ∷ []

abbrev empty : Cache
empty = cache_init 2 4

empty-IsValid : IsValid empty
unfolding cache_init cache_lines_create
empty-IsValid = record { some_lines = omega arith; count = refl }

-- Block 5, byte 1, written and read back
written_byte :
    (cache_readb read_block (cache_writeb read_block empty store 5 1 99) store 5 1).1 ≡ 99
unfolding cache_init cache_lines_create cache_readb cache_writeb cache_access load_line use_line
written_byte = refl

access-view_example :
    let (c', b) = cache_access read_block empty store 5 1 (write 99) in
    ((view read_block store c' (tag_of empty 5 1), b)
      ≡ use_block read_block store (view read_block store empty (tag_of empty 5 1)) 1 (write 99))
    × Accessed read_block store empty c' (tag_of empty 5 1)
unfolding cache_init
access-view_example = access-view read_block store empty empty-IsValid 5 1 (write 99)

at_block : InBlock empty 4
unfolding cache_init
at_block = record { inside = omega arith; no_wrap = omega arith }

readl-long_of_test :
    let t = tag_of empty 5 4 in
    let (c', v) = cache_readl read_block empty store 5 4 in
    (v ≡ long_of (view read_block store empty t) (4 % empty.block_size))
    × (view read_block store c' t ≡ view read_block store empty t)
    × Accessed read_block store empty c' t
readl-long_of_test = readl-long_of read_block store empty 5 4 empty-IsValid at_block

writel-write_long_example :
    let t = tag_of empty 5 4 in
    let c' = cache_writel read_block empty store 5 4 0x12345678 in
    (view read_block store c' t
      ≡ write_long (view read_block store empty t) (4 % empty.block_size) 0x12345678)
    × Accessed read_block store empty c' t
writel-write_long_example =
    writel-write_long read_block store empty 5 4 0x12345678 empty-IsValid at_block

write_block_ne :
    (s : Store) (t u : ℕ) (b : Option (List ℕ))
    → u ≢ t
    → read_block (write_block s t b).0 u ≡ read_block s u
write_block_ne s t u none ne = refl
write_block_ne s t u (some b) ne = ground (arith, ne)

backing : Backing read_block write_block (λ b. length b ≡ 4)
backing = record {
  read-write = λ s t b blk ok. ground (arith, ok);
  read-write_ne = λ s t u b ne. write_block_ne s t u b ne;
}

access-Placed_test : Placed (cache_access read_block empty store 5 1 (write 99)).0
access-Placed_test =
    access-Placed read_block store empty 5 1 (write 99) empty-IsValid (init-Placed 2 4)

abbrev dirty : Cache
dirty = (cache_access read_block empty store 5 1 (write 99)).0

flush-view_example :
    read_block (cache_flush write_block dirty store) 5 ≡ some (5 ∷ 99 ∷ 30 ∷ 40 ∷ [])
unfolding cache_init cache_lines_create cache_access load_line use_line
flush-view_example =
    flush-view read_block write_block (λ b. length b ≡ 4) backing 5 (omega arith) dirty store
      (5 ∷ 99 ∷ 30 ∷ 40 ∷ [])
      (access-view read_block store empty empty-IsValid 5 1 (write 99)).1.valid access-Placed_test
      refl (λ e. ground arith) refl

writeb_lost_example :
    let c1 = cache_writeb read_block empty store 5 1 99 in
    let c2 = (cache_access read_block c1 store 7 0 read).0 in
    (view read_block store c1 (tag_of empty 5 1) ≡ some (5 ∷ 99 ∷ 30 ∷ 40 ∷ []))
    × (byte_of (view read_block store c1 (tag_of empty 5 1)) 1 ≡ 99)
    × (view read_block store c2 (tag_of empty 5 1) ≡ read_block store (tag_of empty 5 1))
unfolding cache_init cache_lines_create
writeb_lost_example =
    writeb_lost read_block store empty 5 1 99 7 0 read (5 ∷ 20 ∷ 30 ∷ 40 ∷ []) empty-IsValid refl
      (omega arith) refl (omega arith) (λ e. ground arith)
