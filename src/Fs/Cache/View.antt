-- ===== src/Fs/Cache/View.antt =====
-- What a client of the cache sees of each block, and what an access does to it.
use butos.Prelude.{
  ℕ, ◌%◌, ◌<◌, ◌≡◌, refl, ap, sym, ◌∙◌, ◌≢◌, false, ◌⊎◌, inl, inr, Option-cases, Option, none, List,
  ◌==◌, if◌then◌else◌, length, length-set, get_or-set_self, get_or-set_ne, arith,
}
use native.Mathlib.Nat.{mod-lt}
use butos.Fs.Cache.{
  Line, Cache, Mode, read, write, blank, tag_of, index_of, line_at, byte_of, write_byte, load_line,
  use_line, cache_access,
}

-- There are `cache_size` lines, and a line that is not valid holds no block.
pub record IsValid (c : Cache) : Type 0 where
  pub some_lines : 0 < c.cache_size
  pub count : length c.lines ≡ c.cache_size

-- The block of a line, if it is valid
abbrev pub block_of : Line → Option (List ℕ)
block_of l = if l.valid then l.bytes else none

module _ {S : Type 0} (read_fun : S → ℕ → Option (List ℕ)) (fs : S) where
  -- The block that an access to `tag` finds: that of its line if the line has the tag, and else
  -- what the disk has. `none` is a block that cannot be had.
  abbrev pub view_line : Line → ℕ → Option (List ℕ)
  view_line l tag = if l.tag == tag then block_of l else read_fun fs tag

  abbrev pub view : Cache → ℕ → Option (List ℕ)
  view c tag = view_line (line_at c (index_of c tag)) tag

  -- What a mode makes of a block, and what it returns
  abbrev pub use_block : Option (List ℕ) → ℕ → Mode → Option (List ℕ) × ℕ
  use_block d i read = (d, byte_of d i)
  use_block d i (write b) = (write_byte d i b, 0)

  use_line_lem :
      (l : Line) (i : ℕ) (mode : Mode)
      → ((block_of (use_line l i mode).0, (use_line l i mode).1) ≡ use_block (block_of l) i mode)
        × ((use_line l i mode).0.tag ≡ l.tag)
        × ((use_line l i mode).0.valid ≡ l.valid)
  unfolding use_line
  use_line_lem l i read = ground arith
  use_line_lem l i (write b) = ground arith

  load_line_lem :
      (l : Line) (tag : ℕ)
      → let l' = load_line read_fun fs l tag in
        (block_of l' ≡ view_line l tag)
        × (((l'.tag ≡ tag)) ⊎ ((l'.tag ≡ l.tag) × (l'.valid ≡ false) × (read_fun fs tag ≡ none)))
  unfolding load_line
  load_line_lem l tag = elim (Option-cases (read_fun fs tag)) [
    | inl e ↦ ground arith
    | inr (d, e) ↦ ground arith
  ]

  -- An access to `tag`, on its line
  abbrev pub access_line : Line → ℕ → ℕ → Mode → Line × ℕ
  access_line l tag i mode = use_line (load_line read_fun fs l tag) i mode

  access_line_lem :
      (l : Line) (tag i : ℕ) (mode : Mode)
      → ((view_line (access_line l tag i mode).0 tag, (access_line l tag i mode).1)
          ≡ use_block (view_line l tag) i mode)
        × ((t : ℕ)
            → t ≢ tag
            → (read_fun fs tag ≢ none)
            → view_line (access_line l tag i mode).0 t ≡ read_fun fs t)
  access_line_lem l tag i mode = (same, other)
    where
      seen : view_line (access_line l tag i mode).0 tag ≡ block_of (access_line l tag i mode).0
      seen = ground (arith, load_line_lem l tag, use_line_lem (load_line read_fun fs l tag) i mode)

      same :
          (view_line (access_line l tag i mode).0 tag, (access_line l tag i mode).1)
          ≡ use_block (view_line l tag) i mode
      same =
          ap (λ b. (b, (access_line l tag i mode).1)) seen
          ∙ (use_line_lem (load_line read_fun fs l tag) i mode).0
          ∙ ap (λ b. use_block b i mode) (load_line_lem l tag).0

      other :
          (t : ℕ)
          → t ≢ tag
          → (read_fun fs tag ≢ none)
          → view_line (access_line l tag i mode).0 t ≡ read_fun fs t
      other t ne ok =
          ground (arith, load_line_lem l tag, use_line_lem (load_line read_fun fs l tag) i mode)

module _ {S : Type 0} (read_fun : S → ℕ → Option (List ℕ)) (fs : S) (c : Cache) (v : IsValid c)
    (sector offset : ℕ) (mode : Mode) where
  abbrev pub tag : ℕ
  tag = tag_of c sector offset

  abbrev pub after : Cache × ℕ
  after = cache_access read_fun c fs sector offset mode

  access-IsValid : IsValid after.0
  unfolding cache_access
  access-IsValid = record { some_lines = v.some_lines; count = length-set c.lines _ _ ∙ v.count }

  pub line-same :
      line_at after.0 (index_of c tag)
      ≡ (access_line read_fun fs (line_at c (index_of c tag)) tag (offset % c.block_size) mode).0
  unfolding cache_access
  line-same =
      get_or-set_self c.lines (index_of c tag) _ blank (rw v.count (mod-lt tag v.some_lines))

  pub line-other : (i : ℕ) → i ≢ index_of c tag → line_at after.0 i ≡ line_at c i
  unfolding cache_access
  line-other i ne = get_or-set_ne c.lines (index_of c tag) i _ blank (λ e. ne (sym e))

  sizes : (after.0.cache_size ≡ c.cache_size) × (after.0.block_size ≡ c.block_size)
  unfolding cache_access
  sizes = (refl, refl)

-- What an access to the block `tag` leaves.
pub record Accessed {S : Type 0} (read_fun : S → ℕ → Option (List ℕ)) (fs : S) (c c' : Cache)
    (tag : ℕ) : Type 0 where
  pub valid : IsValid c'
  pub cache_size : c'.cache_size ≡ c.cache_size
  pub block_size : c'.block_size ≡ c.block_size
  pub others :
      (t : ℕ) → index_of c t ≢ index_of c tag → view read_fun fs c' t ≡ view read_fun fs c t
  pub evicted :
      (t : ℕ)
      → index_of c t ≡ index_of c tag
      → t ≢ tag
      → read_fun fs tag ≢ none
      → view read_fun fs c' t ≡ read_fun fs t

module _ {S : Type 0} (read_fun : S → ℕ → Option (List ℕ)) (fs : S) (c : Cache) (v : IsValid c)
    (sector offset : ℕ) (mode : Mode) where
  -- In a valid cache an access returns the byte of the block that a client sees at the tag (0 for a write, and where
  -- the block cannot be had) and changes that byte to the one that is written. The blocks of the
  -- other lines stay as they are seen; any other block that has the same line is then seen as the
  -- disk has it, whatever was written to it before, if the disk has the block that is accessed.
  pub access-view :
      let t = tag_of c sector offset in
      let (c', b) = cache_access read_fun c fs sector offset mode in
      ((view read_fun fs c' t, b)
        ≡ use_block read_fun fs (view read_fun fs c t) (offset % c.block_size) mode)
      × Accessed read_fun fs c c' t
  unfolding cache_access
  access-view =
      let t = tag_of c sector offset in
      let i = index_of c t in
      let line = access_line_lem read_fun fs (line_at c i) t (offset % c.block_size) mode in
      let same = line-same read_fun fs c v sector offset mode in
      (
        ap (λ l. (view_line read_fun fs l t, (cache_access read_fun c fs sector offset mode).1))
              same
            ∙ line.0,
        record {
          valid = access-IsValid read_fun fs c v sector offset mode;
          cache_size = refl;
          block_size = refl;
          others = λ u ne.
              ap (λ l. view_line read_fun fs l u)
                (line-other read_fun fs c v sector offset mode (index_of c u) ne);
          evicted = λ u e ne ok.
              ap (λ l. view_line read_fun fs l u)
                (ap (λ n. line_at (cache_access read_fun c fs sector offset mode).0 n) e ∙ same)
              ∙ line.1 u ne ok;
        },
      )
