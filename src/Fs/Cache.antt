-- ===== src/Fs/Cache.antt =====
-- cache.c: a direct-mapped cache of blocks, written back when it is flushed. The functions `read`
-- and `write` through which it reaches the disk are pointers in the structure, and arguments here:
-- `read fs tag` is `none` for the NULL of a failed read, `write` returns 0 on success.
-- A tag is an `int` and stands as its 32-bit pattern, so -1 is `no_tag`; a flag is a Boolean. The
-- bytes of a block are the list `bytes`, and `none` is the NULL pointer. The places that the blocks
-- take in the kernel heap are not modelled.
pub mod View
pub mod Bytes
pub mod Flush
pub mod Evict
mod Tests
use butos.Prelude.{
  ℕ, zero, suc, ◌+◌, ◌-◌, ◌*◌, ◌/◌, ◌%◌, ◌^◌, Bool, true, false, ◌&&◌, not, Option, none, some,
  List, [], ◌∷◌, ◌==◌, if◌then◌else◌, get_or, set, replicate, add32, word,
}

-- `struct cache_line`
pub record Line : Type 0 where
  pub valid : Bool
  pub tag : ℕ
  pub bytes : Option (List ℕ)

-- `struct cache`
pub record Cache : Type 0 where
  pub cache_size : ℕ
  pub block_size : ℕ
  pub lines : List Line

-- `CACHE_READ` and `CACHE_WRITE`, the latter with its byte
pub data Mode : Type 0 where
  read : Mode
  write : ℕ → Mode

abbrev pub no_tag : ℕ
no_tag = word - 1

abbrev pub blank : Line
blank = record { valid = false; tag = no_tag; bytes = none }

unfoldable pub cache_lines_create : ℕ → List Line
cache_lines_create line_count = replicate line_count blank

unfoldable pub cache_init : ℕ → ℕ → Cache
unfolding cache_lines_create
cache_init cache_size block_size = record {
  cache_size = cache_size;
  block_size = block_size;
  lines = cache_lines_create cache_size;
}

abbrev pub tag_of : Cache → ℕ → ℕ → ℕ
tag_of c sector offset = add32 sector (offset / c.block_size)

abbrev pub index_of : Cache → ℕ → ℕ
index_of c tag = tag % c.cache_size

abbrev pub line_at : Cache → ℕ → Line
line_at c i = get_or c.lines i blank

-- The byte at `i` of a block; what stands behind its end is not modelled, and read as 0.
abbrev pub byte_of : Option (List ℕ) → ℕ → ℕ
byte_of none i = 0
byte_of (some d) i = get_or d i 0

abbrev pub write_byte : Option (List ℕ) → ℕ → ℕ → Option (List ℕ)
write_byte none i b = none
write_byte (some d) i b = some (set d i b)

-- The line after `cache->read`: the new block, or the old tag on a line that is not valid.
abbrev pub filled : Line → ℕ → Option (List ℕ) → Line
filled l tag none = record l { valid = false; bytes = none }
filled l tag (some d) = record { valid = true; tag = tag; bytes = some d }

module _ {S : Type 0} (read_fun : S → ℕ → Option (List ℕ)) where
  -- The line for `tag` once `cache_access` has made sure of it
  unfoldable pub load_line : S → Line → ℕ → Line
  load_line fs l tag = if l.tag == tag then l else filled l tag (read_fun fs tag)

-- The end of `cache_access`, on the loaded line: the line and the byte that is returned.
unfoldable pub use_line : Line → ℕ → Mode → Line × ℕ
use_line l i read = if l.valid then (l, byte_of l.bytes i) else (l, 0)
use_line l i (write b) =
    if l.valid then (record l { bytes = write_byte l.bytes i b }, 0) else (l, 0)

module _ {S : Type 0} (read_fun : S → ℕ → Option (List ℕ)) where
  unfoldable pub cache_access : Cache → S → ℕ → ℕ → Mode → Cache × ℕ
  unfolding load_line use_line
  cache_access c fs sector offset mode =
      let tag = tag_of c sector offset in
      let i = index_of c tag in
      let (l, b) =
        use_line (load_line read_fun fs (line_at c i) tag) (offset % c.block_size) mode in
      (record c { lines = set c.lines i l }, b)

  unfoldable pub cache_readb : Cache → S → ℕ → ℕ → Cache × ℕ
  unfolding cache_access
  cache_readb c fs sector offset = cache_access c fs sector offset read

  unfoldable pub cache_writeb : Cache → S → ℕ → ℕ → ℕ → Cache
  unfolding cache_access
  cache_writeb c fs sector offset v = (cache_access c fs sector offset (write v)).0

  -- The four reads stand in one sum, whose order C leaves open; here they go from left to right.
  unfoldable pub cache_readl : Cache → S → ℕ → ℕ → Cache × ℕ
  unfolding cache_readb
  cache_readl c fs sector offset =
      let (c0, b0) = cache_readb c fs sector offset in
      let (c1, b1) = cache_readb c0 fs sector (add32 offset 1) in
      let (c2, b2) = cache_readb c1 fs sector (add32 offset 2) in
      let (c3, b3) = cache_readb c2 fs sector (add32 offset 3) in
      (c3, (b0 + b1 * 2 ^ 8 + b2 * 2 ^ 16 + b3 * 2 ^ 24) % word)

  unfoldable pub cache_writel : Cache → S → ℕ → ℕ → ℕ → Cache
  unfolding cache_writeb
  cache_writel c fs sector offset v =
      let c0 = cache_writeb c fs sector offset (v % 256) in
      let c1 = cache_writeb c0 fs sector (add32 offset 1) (v / 2 ^ 8 % 256) in
      let c2 = cache_writeb c1 fs sector (add32 offset 2) (v / 2 ^ 16 % 256) in
      cache_writeb c2 fs sector (add32 offset 3) (v / 2 ^ 24 % 256)

module _ {S : Type 0} (write_fun : S → ℕ → Option (List ℕ) → S × ℕ) where
  -- One round of `cache_flush`. A failed write is reported on the screen, and the loop goes on.
  unfoldable pub flush_line : Line → S → S
  flush_line l fs = if l.valid && not (l.tag == no_tag) then (write_fun fs l.tag l.bytes).0 else fs

  unfoldable pub flush_lines : List Line → S → S
  flush_lines [] fs = fs
  flush_lines (l ∷ ls) fs = flush_lines ls (flush_line l fs)

  unfoldable pub cache_flush : Cache → S → S
  unfolding flush_line flush_lines
  cache_flush c fs = flush_lines c.lines fs
