-- ===== src/Libs/Allocator/Packed.antt =====
-- The abstract view of a registry: the list of its blocks, in address order.
use butos.Prelude.{
  ℕ, suc, ◌+◌, ◌%◌, ◌≤◌, ◌<◌, ◌≡◌, ◌⊎◌, Bool, true, false, List, [], ◌∷◌, ltb, if◌then◌else◌, ◌==◌,
  ◌||◌, sym, subst, Bool-cases, lt→ltb, le→ltb_false, ap, inl, inr, add32, word, arith,
}
use butos.Libs.Allocator.{Memspace, memspace_overlap}

abbrev pub block : ℕ → ℕ → Memspace
block start size = record { start = start; size = size }

-- The blocks of `bs` are non-empty, begin and end at even addresses, follow one another without
-- sharing a byte, and lie between `lo` and `hi`.
abbrev pub Packed : ℕ → List Memspace → ℕ → Type 0
Packed lo [] hi = lo ≤ hi
Packed lo (b ∷ bs) hi =
    (lo ≤ b.start)
    × (0 < b.size)
    × (b.start % 2 ≡ 0)
    × (b.size % 2 ≡ 0)
    × Packed (b.start + b.size) bs hi

-- Two blocks that share no byte
abbrev pub Disjoint : Memspace → Memspace → Type 0
Disjoint m b = (m.start + m.size ≤ b.start) ⊎ (b.start + b.size ≤ m.start)

abbrev pub DisjointAll : Memspace → List Memspace → Type 0
DisjointAll m [] = Unit {0}
DisjointAll m (b ∷ bs) = Disjoint m b × DisjointAll m bs

-- The first fit, on the list.
unfoldable pub first_fit : List Memspace → ℕ → ℕ → ℕ
first_fit [] start size = start
first_fit (b ∷ bs) start size =
    if memspace_overlap (block start size) b
    then first_fit bs (add32 b.start b.size) size
    else start

-- Insertion behind the blocks that do not start later.
unfoldable pub place : Memspace → List Memspace → List Memspace
place m [] = m ∷ []
place m (b ∷ bs) = if ltb m.start b.start then m ∷ b ∷ bs else b ∷ place m bs

unfoldable pub remove_at : ℕ → List Memspace → List Memspace
remove_at i [] = []
remove_at ℕ.zero (b ∷ bs) = bs
remove_at (suc i) (b ∷ bs) = b ∷ remove_at i bs

-- The blocks less the first that starts at `ptr`.
unfoldable pub free_block : ℕ → List Memspace → List Memspace
free_block ptr [] = []
free_block ptr (b ∷ bs) = if b.start == ptr then bs else b ∷ free_block ptr bs

-- Whether a block starts at `ptr`.
unfoldable pub starts : ℕ → List Memspace → Bool
starts ptr [] = false
starts ptr (b ∷ bs) = (b.start == ptr) || starts ptr bs

pub Packed-le : (lo : ℕ) (bs : List Memspace) {hi : ℕ} → Packed lo bs hi → lo ≤ hi
Packed-le lo [] p = p
Packed-le lo (b ∷ bs) p = omega (arith, Packed-le (b.start + b.size) bs p.4)

pub Packed-weaken :
    {lo lo' : ℕ} (bs : List Memspace) (hi : ℕ) → lo' ≤ lo → Packed lo bs hi → Packed lo' bs hi
Packed-weaken [] hi h p = omega arith
Packed-weaken (b ∷ bs) hi h p = (omega arith, p.1, p.2, p.3, p.4)

-- Between even blocks that do not wrap, the test of the code is the right one.
module _ (m b : Memspace) (em : m.size % 2 ≡ 0) (sm : m.start % 2 ≡ 0) (eb : b.size % 2 ≡ 0)
    (sb : b.start % 2 ≡ 0) (pm : 0 < m.size) (pb : 0 < b.size) (wm : m.start + m.size ≤ word)
    (wb : b.start + b.size ≤ word) where
  pub overlap_false : memspace_overlap m b ≡ false → Disjoint m b
  unfolding memspace_overlap
  overlap_false h = ground arith

  pub overlap_true :
      memspace_overlap m b ≡ true → (m.start < b.start + b.size) × (b.start < m.start + m.size)
  unfolding memspace_overlap
  overlap_true h = ground arith

pub Packed-DisjointAll :
    (m : Memspace) (lo : ℕ) (bs : List Memspace) (hi : ℕ)
    → m.start + m.size ≤ lo
    → Packed lo bs hi
    → DisjointAll m bs
Packed-DisjointAll m lo [] hi h p = tt
Packed-DisjointAll m lo (b ∷ bs) hi h p =
    (inl (omega arith), Packed-DisjointAll m (b.start + b.size) bs hi (omega arith) p.4)

-- A request for `size` bytes among the blocks of `bs`, which end at `hi`
pub record Request (lo hi size : ℕ) : Type 0 where
  pub pos : 0 < size
  pub even : size % 2 ≡ 0
  pub lo_even : lo % 2 ≡ 0
  pub no_wrap : hi + size ≤ word

pub Request-next :
    {lo hi size : ℕ} (lo' : ℕ) → Request lo hi size → lo' % 2 ≡ 0 → Request lo' hi size
Request-next lo' r e = omega arith

place-behind :
    (m b : Memspace) (bs : List Memspace) → b.start ≤ m.start → place m (b ∷ bs) ≡ b ∷ place m bs
unfolding place
place-behind m b bs h = rw (le→ltb_false b.start m.start h)

module _ (size hi : ℕ) where
  pub first_fit-even :
      (lo : ℕ) (bs : List Memspace)
      → Request lo hi size
      → Packed lo bs hi
      → (first_fit bs lo size % 2 ≡ 0) × (lo ≤ first_fit bs lo size) × (first_fit bs lo size ≤ hi)
  unfolding first_fit
  first_fit-even lo [] r p = omega arith
  first_fit-even lo (b ∷ bs) r p =
      let e : add32 b.start b.size ≡ b.start + b.size =
        omega (arith, Packed-le (b.start + b.size) bs p.4, r.no_wrap, r.pos) in
      elim (Bool-cases (memspace_overlap (block lo size) b)) [
        | inl meets ↦
            rw (meets, e)
              (omega (
                arith,
                first_fit-even (b.start + b.size) bs
                    (Request-next (b.start + b.size) r (omega arith)) p.4,
              ))
        | inr apart ↦ rw apart (omega (arith, Packed-le (b.start + b.size) bs p.4))
      ]

  first_fit_meets :
      (lo : ℕ) (b : Memspace) (bs : List Memspace)
      → Request lo hi size
      → Packed lo (b ∷ bs) hi
      → memspace_overlap (block lo size) b ≡ true
      → first_fit (b ∷ bs) lo size ≡ first_fit bs (b.start + b.size) size
  unfolding first_fit
  first_fit_meets lo b bs r p meets = rw meets (
      ap (λ s. first_fit bs s size)
        (omega (arith, Packed-le (b.start + b.size) bs p.4, r.no_wrap, r.pos)))

  first_fit_apart :
      (lo : ℕ) (b : Memspace) (bs : List Memspace)
      → Request lo hi size
      → Packed lo (b ∷ bs) hi
      → memspace_overlap (block lo size) b ≡ false
      → (first_fit (b ∷ bs) lo size ≡ lo) × (lo + size ≤ b.start)
  unfolding first_fit
  first_fit_apart lo b bs r p apart = (
    rw apart,
    gap (
        overlap_false (block lo size) b r.even r.lo_even p.3 p.2 r.pos p.1
          (omega (arith, Packed-le lo (b ∷ bs) p, r.no_wrap))
          (omega (arith, Packed-le (b.start + b.size) bs p.4, r.no_wrap)) apart),
  )
    where
      gap : Disjoint (block lo size) b → lo + size ≤ b.start
      gap d = omega arith

  -- A block of the size that is put among `bs` at `f`
  abbrev Fits : ℕ → List Memspace → ℕ → Type 0
  Fits lo bs f = Packed lo (place (block f size) bs) hi × DisjointAll (block f size) bs

  -- If the first fit ends below `hi`, the new block can be put among the others.
  pub first_fit-Packed :
      (lo : ℕ) (bs : List Memspace)
      → Request lo hi size
      → Packed lo bs hi
      → first_fit bs lo size + size ≤ hi
      → Packed lo (place (block (first_fit bs lo size) size) bs) hi
        × DisjointAll (block (first_fit bs lo size) size) bs
  unfolding place
  first_fit-Packed lo [] r p fits = (
    (omega (arith, first_fit-even lo [] r p), r.pos, (first_fit-even lo [] r p).0, r.even, fits),
    tt,
  )
  first_fit-Packed lo (b ∷ bs) r p fits = elim (Bool-cases (memspace_overlap (block lo size) b)) [
    | inl meets ↦
        let e = first_fit_meets lo b bs r p meets in
        let r' = Request-next (b.start + b.size) r (omega arith) in
        let f = first_fit-even (b.start + b.size) bs r' p.4 in
        let ih = first_fit-Packed (b.start + b.size) bs r' p.4 (rw e at fits) in
        subst (Fits lo (b ∷ bs)) (sym e) (
          rw (place-behind (block (first_fit bs (b.start + b.size) size) size) b bs (omega arith))
            ((p.0, p.1, p.2, p.3, ih.0), (inr f.1, ih.1)))
    | inr apart ↦
        let e = first_fit_apart lo b bs r p apart in
        subst (Fits lo (b ∷ bs)) (sym e.0) (
          rw (lt→ltb lo b.start (omega arith)) (
            (omega arith, r.pos, r.lo_even, r.even, (e.1, p.1, p.2, p.3, p.4)),
            Packed-DisjointAll (block lo size) (lo + size) (b ∷ bs) hi (omega arith)
                (e.1, p.1, p.2, p.3, p.4),
          ))
  ]

  -- No block of the size that is free lies lower.
  pub first_fit-le :
      (lo : ℕ) (bs : List Memspace) (s : ℕ)
      → Request lo hi size
      → Packed lo bs hi
      → lo ≤ s
      → DisjointAll (block s size) bs
      → first_fit bs lo size ≤ s
  unfolding first_fit
  first_fit-le lo [] s r p h d = h
  first_fit-le lo (b ∷ bs) s r p h d = elim (Bool-cases (memspace_overlap (block lo size) b)) [
    | inl meets ↦ rw (first_fit_meets lo b bs r p meets) (
        first_fit-le (b.start + b.size) bs s (Request-next (b.start + b.size) r (omega arith)) p.4
          (beyond d.0 (
            overlap_true (block lo size) b r.even r.lo_even p.3 p.2 r.pos p.1
              (omega (arith, Packed-le lo (b ∷ bs) p, r.no_wrap))
              (omega (arith, Packed-le (b.start + b.size) bs p.4, r.no_wrap)) meets))
          d.1)
    | inr apart ↦ rw (first_fit_apart lo b bs r p apart).0 h
  ]
    where
      beyond :
          Disjoint (block s size) b
          → (lo < b.start + b.size) × (b.start < lo + size)
          → b.start + b.size ≤ s
      beyond d o = omega arith
