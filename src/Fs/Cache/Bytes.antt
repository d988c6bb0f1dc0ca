-- ===== src/Fs/Cache/Bytes.antt =====
-- The four-byte reads and writes of the cache, inside one block.
use butos.Prelude.{
  ℕ, ◌+◌, ◌*◌, ◌/◌, ◌%◌, ◌^◌, ◌≤◌, ◌<◌, ◌≡◌, ap, ap₂, sym, ◌∙◌, ◌⊎◌, Option, some, List, length,
  get_or, set, length-set, get_or-set_self, get_or-set_ne, arith, add32, word, subst,
}
use butos.Prelude.Division.{div_same, mod_same}
use butos.Fs.Cache.{
  Cache, Mode, read, write, tag_of, index_of, byte_of, write_byte, cache_access, cache_readb,
  cache_writeb, cache_readl, cache_writel,
}
use butos.Fs.Cache.View.{IsValid, view, Accessed, access-view, use_block}

-- A long lies within one block, and its offset does not wrap.
pub record InBlock (c : Cache) (offset : ℕ) : Type 0 where
  pub inside : offset % c.block_size + 3 < c.block_size
  pub no_wrap : offset + 3 < word

tag-add32 :
    (c : Cache) (sector offset k : ℕ)
    → InBlock c offset
    → k ≤ 3
    → (tag_of c sector (add32 offset k) ≡ tag_of c sector offset)
      × (add32 offset k % c.block_size ≡ offset % c.block_size + k)
tag-add32 c sector offset k h le =
    let e : add32 offset k ≡ offset + k = omega arith in
    rw e (
      ap (add32 sector) (div_same offset c.block_size k (omega arith)),
      mod_same offset c.block_size k (omega arith),
    )

-- The long at position `i` of a block
abbrev pub long_of : Option (List ℕ) → ℕ → ℕ
long_of d i =
    (byte_of d i
      + byte_of d (i + 1) * 2 ^ 8
      + byte_of d (i + 2) * 2 ^ 16
      + byte_of d (i + 3) * 2 ^ 24)
    % word

abbrev pub write_long : Option (List ℕ) → ℕ → ℕ → Option (List ℕ)
write_long d i v =
    write_byte
      (write_byte (write_byte (write_byte d i (v % 256)) (i + 1) (v / 2 ^ 8 % 256)) (i + 2)
        (v / 2 ^ 16 % 256))
      (i + 3) (v / 2 ^ 24 % 256)

module _ {S : Type 0} (read_fun : S → ℕ → Option (List ℕ)) (fs : S) where
  Accessed-trans :
      {c c1 c2 : Cache} {t : ℕ}
      → Accessed read_fun fs c c1 t
      → Accessed read_fun fs c1 c2 t
      → Accessed read_fun fs c c2 t
  Accessed-trans {c} {c1} {c2} {t} a b = record {
    valid = b.valid;
    cache_size = b.cache_size ∙ a.cache_size;
    block_size = b.block_size ∙ a.block_size;
    others = λ u ne. b.others u (λ e. ne (back u e)) ∙ a.others u ne;
    evicted = λ u e ne ok. b.evicted u (forth u e) ne ok;
  }
    where
      back : (u : ℕ) → index_of c1 u ≡ index_of c1 t → index_of c u ≡ index_of c t
      back u e = subst (λ n. u % n ≡ t % n) a.cache_size e

      forth : (u : ℕ) → index_of c u ≡ index_of c t → index_of c1 u ≡ index_of c1 t
      forth u e = subst (λ n. u % n ≡ t % n) (sym a.cache_size) e

  -- What an access does, at a tag and a position
  abbrev Stepped : Cache → Cache × ℕ → Mode → ℕ → ℕ → Type 0
  Stepped c (c', b) mode t i =
      ((view read_fun fs c' t, b) ≡ use_block read_fun fs (view read_fun fs c t) i mode)
      × Accessed read_fun fs c c' t

  -- An access to a byte of the long
  byte_step :
      (c c0 : Cache) (sector offset k : ℕ) (mode : Mode)
      → Accessed read_fun fs c0 c (tag_of c0 sector offset)
      → InBlock c0 offset
      → k ≤ 3
      → Stepped c
          (cache_access read_fun c fs sector (add32 offset k) mode)
          mode
          (tag_of c0 sector offset)
          (offset % c0.block_size + k)
  byte_step c c0 sector offset k mode a h le =
      let place = tag-add32 c0 sector offset k h le in
      let out = cache_access read_fun c fs sector (add32 offset k) mode in
      subst (λ t. Stepped c out mode t (offset % c0.block_size + k))
        (ap (λ n. add32 sector (add32 offset k / n)) a.block_size ∙ place.0)
        (subst (Stepped c out mode (tag_of c sector (add32 offset k)))
          (ap (λ n. add32 offset k % n) a.block_size ∙ place.1)
          (access-view read_fun fs c a.valid sector (add32 offset k) mode))

  -- In a valid cache, a long that lies within one block is read as the four bytes of the block that a client sees, the low byte first, and the
  -- blocks are left as they are seen but for those that lose their line to it.
  pub readl-long_of :
      (c : Cache) (sector offset : ℕ)
      → IsValid c
      → InBlock c offset
      → let t = tag_of c sector offset in
        let (c', v) = cache_readl read_fun c fs sector offset in
        (v ≡ long_of (view read_fun fs c t) (offset % c.block_size))
        × (view read_fun fs c' t ≡ view read_fun fs c t)
        × Accessed read_fun fs c c' t
  unfolding cache_readl cache_readb
  readl-long_of c sector offset v h =
      let t = tag_of c sector offset in
      let i = offset % c.block_size in
      let s0 = access-view read_fun fs c v sector offset read in
      let o0 = cache_access read_fun c fs sector offset read in
      let s1 = byte_step o0.0 c sector offset 1 read s0.1 h (omega arith) in
      let o1 = cache_access read_fun o0.0 fs sector (add32 offset 1) read in
      let a1 = Accessed-trans s0.1 s1.1 in
      let s2 = byte_step o1.0 c sector offset 2 read a1 h (omega arith) in
      let o2 = cache_access read_fun o1.0 fs sector (add32 offset 2) read in
      let a2 = Accessed-trans a1 s2.1 in
      let s3 = byte_step o2.0 c sector offset 3 read a2 h (omega arith) in
      let o3 = cache_access read_fun o2.0 fs sector (add32 offset 3) read in
      let v0 = ap (λ (p : Option (List ℕ) × ℕ). p.0) s0.0 in
      let v1 = ap (λ (p : Option (List ℕ) × ℕ). p.0) s1.0 ∙ v0 in
      let v2 = ap (λ (p : Option (List ℕ) × ℕ). p.0) s2.0 ∙ v1 in
      let v3 = ap (λ (p : Option (List ℕ) × ℕ). p.0) s3.0 ∙ v2 in
      (
        ap₂ (λ (x y : ℕ × ℕ). (x.0 + x.1 * 2 ^ 8 + y.0 * 2 ^ 16 + y.1 * 2 ^ 24) % word)
            (ap₂ (λ (a b : ℕ). (a, b)) (ap (λ (p : Option (List ℕ) × ℕ). p.1) s0.0)
              (ap (λ (p : Option (List ℕ) × ℕ). p.1) s1.0 ∙ ap (λ d. byte_of d (i + 1)) v0))
            (ap₂ (λ (a b : ℕ). (a, b))
              (ap (λ (p : Option (List ℕ) × ℕ). p.1) s2.0 ∙ ap (λ d. byte_of d (i + 2)) v1)
              (ap (λ (p : Option (List ℕ) × ℕ). p.1) s3.0 ∙ ap (λ d. byte_of d (i + 3)) v2)),
        v3,
        Accessed-trans a2 s3.1,
      )

  -- In a valid cache, a long that lies within one block is written as the four bytes of the block that a client sees, the low byte first, and
  -- the other blocks are left as they are seen but for those that lose their line to it.
  pub writel-write_long :
      (c : Cache) (sector offset v : ℕ)
      → IsValid c
      → InBlock c offset
      → let t = tag_of c sector offset in
        let c' = cache_writel read_fun c fs sector offset v in
        (view read_fun fs c' t ≡ write_long (view read_fun fs c t) (offset % c.block_size) v)
        × Accessed read_fun fs c c' t
  unfolding cache_writel cache_writeb
  writel-write_long c sector offset v valid h =
      let i = offset % c.block_size in
      let o0 = cache_access read_fun c fs sector offset (write (v % 256)) in
      let s0 = access-view read_fun fs c valid sector offset (write (v % 256)) in
      let s1 = byte_step o0.0 c sector offset 1 (write (v / 2 ^ 8 % 256)) s0.1 h (omega arith) in
      let o1 = cache_access read_fun o0.0 fs sector (add32 offset 1) (write (v / 2 ^ 8 % 256)) in
      let a1 = Accessed-trans s0.1 s1.1 in
      let s2 = byte_step o1.0 c sector offset 2 (write (v / 2 ^ 16 % 256)) a1 h (omega arith) in
      let o2 = cache_access read_fun o1.0 fs sector (add32 offset 2) (write (v / 2 ^ 16 % 256)) in
      let a2 = Accessed-trans a1 s2.1 in
      let s3 = byte_step o2.0 c sector offset 3 (write (v / 2 ^ 24 % 256)) a2 h (omega arith) in
      let v0 = ap (λ (p : Option (List ℕ) × ℕ). p.0) s0.0 in
      let v1 =
        ap (λ (p : Option (List ℕ) × ℕ). p.0) s1.0
        ∙ ap (λ d. write_byte d (i + 1) (v / 2 ^ 8 % 256)) v0 in
      let v2 =
        ap (λ (p : Option (List ℕ) × ℕ). p.0) s2.0
        ∙ ap (λ d. write_byte d (i + 2) (v / 2 ^ 16 % 256)) v1 in
      (
        ap (λ (p : Option (List ℕ) × ℕ). p.0) s3.0
            ∙ ap (λ d. write_byte d (i + 3) (v / 2 ^ 24 % 256)) v2,
        Accessed-trans a2 s3.1,
      )

abbrev set4 : List ℕ → ℕ → ℕ → ℕ → ℕ → ℕ → List ℕ
set4 d i a b c e = set (set (set (set d i a) (i + 1) b) (i + 2) c) (i + 3) e

set4_other :
    (d : List ℕ) (i a b c e j : ℕ)
    → (j < i) ⊎ (i + 3 < j)
    → get_or (set4 d i a b c e) j 0 ≡ get_or d j 0
set4_other d i a b c e j h =
    get_or-set_ne (set (set (set d i a) (i + 1) b) (i + 2) c) (i + 3) j e 0 (omega arith)
    ∙ get_or-set_ne (set (set d i a) (i + 1) b) (i + 2) j c 0 (omega arith)
    ∙ get_or-set_ne (set d i a) (i + 1) j b 0 (omega arith)
    ∙ get_or-set_ne d i j a 0 (omega arith)

set4_self :
    (d : List ℕ) (i a b c e : ℕ)
    → i + 3 < length d
    → (get_or (set4 d i a b c e) i 0 ≡ a)
      × (get_or (set4 d i a b c e) (i + 1) 0 ≡ b)
      × (get_or (set4 d i a b c e) (i + 2) 0 ≡ c)
      × (get_or (set4 d i a b c e) (i + 3) 0 ≡ e)
set4_self d i a b c e h =
    let d1 = set d i a in
    let d2 = set d1 (i + 1) b in
    let d3 = set d2 (i + 2) c in
    let n1 = length-set d i a in
    let n2 = length-set d1 (i + 1) b ∙ n1 in
    let n3 = length-set d2 (i + 2) c ∙ n2 in
    (
      get_or-set_ne d3 (i + 3) i e 0 (omega arith)
          ∙ get_or-set_ne d2 (i + 2) i c 0 (omega arith)
          ∙ get_or-set_ne d1 (i + 1) i b 0 (omega arith)
          ∙ get_or-set_self d i a 0 (omega arith),
      get_or-set_ne d3 (i + 3) (i + 1) e 0 (omega arith)
          ∙ get_or-set_ne d2 (i + 2) (i + 1) c 0 (omega arith)
          ∙ get_or-set_self d1 (i + 1) b 0 (omega (arith, n1)),
      get_or-set_ne d3 (i + 3) (i + 2) e 0 (omega arith)
          ∙ get_or-set_self d2 (i + 2) c 0 (omega (arith, n2)),
      get_or-set_self d3 (i + 3) e 0 (omega (arith, n3)),
    )

-- A long that is written into a block is read back, and the longs that share no byte with it are
-- not changed.
pub long-write_long :
    (d : List ℕ) (i j v : ℕ)
    → i + 3 < length d
    → v < word
    → (long_of (write_long (some d) i v) i ≡ v)
      × ((i + 4 ≤ j) ⊎ (j + 4 ≤ i) → long_of (write_long (some d) i v) j ≡ long_of (some d) j)
long-write_long d i j v h w =
    let self = set4_self d i (v % 256) (v / 2 ^ 8 % 256) (v / 2 ^ 16 % 256) (v / 2 ^ 24 % 256) h in
    let other = set4_other d i (v % 256) (v / 2 ^ 8 % 256) (v / 2 ^ 16 % 256) (v / 2 ^ 24 % 256) in
    (
      omega (arith, self),
      λ apart.
          ap₂ (λ (x y : ℕ × ℕ). (x.0 + x.1 * 2 ^ 8 + y.0 * 2 ^ 16 + y.1 * 2 ^ 24) % word)
            (ap₂ (λ (a b : ℕ). (a, b)) (other j (omega arith)) (other (j + 1) (omega arith)))
            (ap₂ (λ (a b : ℕ). (a, b)) (other (j + 2) (omega arith)) (other (j + 3) (omega arith))),
    )
