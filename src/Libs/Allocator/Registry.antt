-- ===== src/Libs/Allocator/Registry.antt =====
-- The registry array read as a list of blocks, and its three loops against the list operations.
use butos.Prelude.{
  ℕ, zero, suc, ◌+◌, ◌-◌, ◌≤◌, ◌<◌, ◌≡◌, refl, ap, ap₂, sym, ◌∙◌, true, false, Bool-cases, inl, inr,
  none, some, List, [], ◌∷◌, ◌++◌, ◌==◌, arith, length, lt→ltb, le→ltb_false, dec_lt,
}
use butos.Libs.Allocator.{
  Memspace, Allocator, write_slot, memspace_overlap, register_loop, unregister_loop, alloc_loop,
  find_loop,
}
use butos.Libs.Allocator.Packed.{block, place, remove_at, free_block, starts, first_fit}

-- The `k` entries from index `i` on
abbrev pub slots : (ℕ → Memspace) → ℕ → ℕ → List Memspace
slots registry i zero = []
slots registry i (suc k) = registry i ∷ slots registry (suc i) k

-- The blocks that are in use
abbrev pub live : Allocator → List Memspace
live a = slots a.registry 0 a.size

pub length-slots : (registry : ℕ → Memspace) (i k : ℕ) → length (slots registry i k) ≡ k
length-slots registry i zero = refl
length-slots registry i (suc k) = ap suc (length-slots registry (suc i) k)

slots-snoc :
    (registry : ℕ → Memspace) (i k j : ℕ)
    → j ≡ i + k
    → slots registry i (suc k) ≡ slots registry i k ++ (registry j ∷ [])
slots-snoc registry i zero j e = ap (λ n. registry n ∷ []) (omega arith)
slots-snoc registry i (suc k) j e =
    ap (◌∷◌ (registry i)) (slots-snoc registry (suc i) k j (omega arith))

-- Two arrays that agree on the range
pub slots-eq :
    (r q : ℕ → Memspace) (i k : ℕ)
    → ((j : ℕ) → i ≤ j → j < i + k → r j ≡ q j)
    → slots r i k ≡ slots q i k
slots-eq r q i zero same = refl
slots-eq r q i (suc k) same =
    ap₂ ◌∷◌ (same i (omega arith) (omega arith))
      (slots-eq r q (suc i) k (λ j lo hi. same j (omega arith) (omega arith)))

-- The loop of `allocator_alloc` finds the first fit.
pub alloc_loop-first_fit :
    (k i : ℕ) (registry : ℕ → Memspace) (start size : ℕ)
    → alloc_loop k i registry (block start size) ≡ first_fit (slots registry i k) start size
unfolding alloc_loop first_fit
alloc_loop-first_fit zero i registry start size = refl
alloc_loop-first_fit (suc k) i registry start size =
    elim (Bool-cases (memspace_overlap (block start size) (registry i))) [
      | inl meets ↦ rw (meets, alloc_loop) (alloc_loop-first_fit k (suc i) registry _ size)
      | inr apart ↦ rw (apart, alloc_loop)
    ]

-- Sorted by start, on the entries below `n`
abbrev pub SortedBelow : (ℕ → Memspace) → ℕ → Type 0
SortedBelow registry n = (i j : ℕ) → i ≤ j → j < n → (registry i).start ≤ (registry j).start

place-nil : (registry : ℕ → Memspace) (m : Memspace) → write_slot registry 0 m 0 ∷ [] ≡ place m []
unfolding place
place-nil registry m = refl

place-snoc_lt :
    (m b : Memspace) (bs : List Memspace)
    → m.start < b.start
    → place m (bs ++ (b ∷ [])) ≡ place m bs ++ (b ∷ [])
unfolding place
place-snoc_lt m b [] h = ground arith
place-snoc_lt m b (c ∷ bs) h = ground (arith, place-snoc_lt m b bs h)

place-snoc_le :
    (m : Memspace) (registry : ℕ → Memspace) (i k : ℕ)
    → ((j : ℕ) → i ≤ j → j < i + k → (registry j).start ≤ m.start)
    → place m (slots registry i k) ≡ slots registry i k ++ (m ∷ [])
unfolding place
place-snoc_le m registry i zero below = refl
place-snoc_le m registry i (suc k) below = ground (
  arith,
  below i,
  place-snoc_le m registry (suc i) k (λ j lo hi. below j (omega arith) (omega arith)),
)

-- The three ways on of the shift loop.
register_loop_first :
    (registry : ℕ → Memspace) (m : Memspace) → register_loop 1 registry m ≡ write_slot registry 0 m
unfolding register_loop
register_loop_first registry m = refl

register_loop_shift :
    (k : ℕ) (registry : ℕ → Memspace) (m : Memspace)
    → m.start < (registry k).start
    → register_loop (suc (suc k)) registry m
      ≡ register_loop (suc k) (write_slot registry (suc k) (registry k)) m
unfolding register_loop
register_loop_shift k registry m h = rw (lt→ltb m.start (registry k).start h, register_loop)

register_loop_stop :
    (k : ℕ) (registry : ℕ → Memspace) (m : Memspace)
    → (registry k).start ≤ m.start
    → register_loop (suc (suc k)) registry m ≡ write_slot registry (suc k) m
unfolding register_loop
register_loop_stop k registry m h = rw (le→ltb_false (registry k).start m.start h, register_loop)

-- The shift loop leaves what is behind its index alone.
register_loop-above :
    (n : ℕ) (registry : ℕ → Memspace) (m : Memspace) (j : ℕ)
    → n < j
    → register_loop (suc n) registry m j ≡ registry j
register_loop-above zero registry m j h = rw register_loop_first (ground arith)
register_loop-above (suc k) registry m j h = elim (dec_lt m.start (registry k).start) [
  | yes lt ↦
      ap (λ (r : ℕ → Memspace). r j) (register_loop_shift k registry m lt)
      ∙ register_loop-above k (write_slot registry (suc k) (registry k)) m j (omega arith)
      ∙ ground arith
  | no ge ↦
      ap (λ (r : ℕ → Memspace). r j) (register_loop_stop k registry m (omega arith)) ∙ ground arith
]

-- The shift loop of `allocator_register` inserts into the sorted list.
pub register_loop-place :
    (n : ℕ) (registry : ℕ → Memspace) (m : Memspace)
    → SortedBelow registry n
    → slots (register_loop (suc n) registry m) 0 (suc n) ≡ place m (slots registry 0 n)
register_loop-place zero registry m sorted =
    ap (λ (r : ℕ → Memspace). r 0 ∷ []) (register_loop_first registry m) ∙ (place-nil registry m)
register_loop-place (suc k) registry m sorted = elim (dec_lt m.start (registry k).start) [
  | yes lt ↦
      let r = write_slot registry (suc k) (registry k) in
      slots-snoc (register_loop (suc (suc k)) registry m) 0 (suc k) (suc k) (omega arith)
      ∙ ap₂ (λ xs x. xs ++ (x ∷ []))
          (ap (λ (q : ℕ → Memspace). slots q 0 (suc k)) (register_loop_shift k registry m lt)
            ∙ register_loop-place k r m (λ i j lo hi. ground (arith, sorted i j))
            ∙ ap (place m) (slots-eq r registry 0 k (λ j lo hi. ground arith)))
          (ap (λ (q : ℕ → Memspace). q (suc k)) (register_loop_shift k registry m lt)
            ∙ register_loop-above k r m (suc k) (omega arith)
            ∙ ground arith)
      ∙ sym (
          ap (place m) (slots-snoc registry 0 k k (omega arith))
          ∙ place-snoc_lt m (registry k) (slots registry 0 k) lt)
  | no ge ↦
      slots-snoc (register_loop (suc (suc k)) registry m) 0 (suc k) (suc k) (omega arith)
      ∙ ap₂ (λ xs x. xs ++ (x ∷ []))
          (ap (λ (q : ℕ → Memspace). slots q 0 (suc k))
              (register_loop_stop k registry m (omega arith))
            ∙ slots-eq (write_slot registry (suc k) m) registry 0 (suc k) (λ j lo hi. ground arith))
          (ap (λ (q : ℕ → Memspace). q (suc k)) (register_loop_stop k registry m (omega arith))
            ∙ ground arith)
      ∙ sym (place-snoc_le m registry 0 (suc k) (λ j lo hi. omega (arith, sorted j k)))
]

-- The loop of `allocator_unregister` closes the gap at `index`.
pub unregister_loop-above :
    (k i : ℕ) (registry : ℕ → Memspace) (j : ℕ)
    → j < i
    → unregister_loop k i registry j ≡ registry j
unfolding unregister_loop
unregister_loop-above zero i registry j h = refl
unregister_loop-above (suc k) i registry j h =
    unregister_loop-above k (suc i) (write_slot registry i (registry (suc i))) j (omega arith)
    ∙ ground arith

unregister_loop-tail :
    (k i : ℕ) (registry : ℕ → Memspace)
    → slots (unregister_loop k i registry) i k ≡ slots registry (suc i) k
unfolding unregister_loop
unregister_loop-tail zero i registry = refl
unregister_loop-tail (suc k) i registry =
    ap₂ ◌∷◌
      (unregister_loop-above k (suc i) (write_slot registry i (registry (suc i))) i (omega arith)
        ∙ ground arith)
      (unregister_loop-tail k (suc i) (write_slot registry i (registry (suc i)))
        ∙ slots-eq (write_slot registry i (registry (suc i))) registry (suc (suc i)) k
            (λ j lo hi. ground arith))

-- `lo` entries stand before the one that goes, `k` behind it.
pub unregister_loop-remove_at :
    (lo k i : ℕ) (registry : ℕ → Memspace) (n size : ℕ)
    → n ≡ i + lo
    → size ≡ lo + k
    → slots (unregister_loop k n registry) i size ≡ remove_at lo (slots registry i (suc size))
unfolding remove_at
unregister_loop-remove_at zero k i registry n size e s =
    let en : n ≡ i = omega arith in
    let es : size ≡ k = omega arith in rw (en, es) (unregister_loop-tail k i registry)
unregister_loop-remove_at (suc lo) k i registry n zero e s = absurd (omega arith)
unregister_loop-remove_at (suc lo) k i registry n (suc size) e s =
    ap₂ ◌∷◌ (unregister_loop-above k n registry i (omega arith))
      (unregister_loop-remove_at lo k (suc i) registry n size (omega arith) (omega arith))

remove_at_here : (d : ℕ) (b : Memspace) (bs : List Memspace) → d ≡ 0 → remove_at d (b ∷ bs) ≡ bs
unfolding remove_at
remove_at_here d b bs e = rw e

remove_at_behind :
    (d d' : ℕ) (b : Memspace) (bs : List Memspace)
    → d ≡ suc d'
    → remove_at d (b ∷ bs) ≡ b ∷ remove_at d' bs
unfolding remove_at
remove_at_behind d d' b bs e = rw e

-- The search finds the first block that starts at `ptr`.
pub find_loop-some :
    (k i : ℕ) (registry : ℕ → Memspace) (ptr n : ℕ)
    → find_loop k i registry ptr ≡ some n
    → (i ≤ n)
      × (n < i + k)
      × (remove_at (n - i) (slots registry i k) ≡ free_block ptr (slots registry i k))
      × (starts ptr (slots registry i k) ≡ true)
unfolding find_loop free_block remove_at starts
find_loop-some zero i registry ptr n h = cc
find_loop-some (suc k) i registry ptr n h = elim (Bool-cases ((registry i).start == ptr)) [
  | inl here ↦ ground (arith, remove_at_here (n - i) (registry i) (slots registry (suc i) k))
  | inr further ↦ ground (
    arith,
    find_loop-some k (suc i) registry ptr n,
    remove_at_behind (n - i) (n - suc i) (registry i) (slots registry (suc i) k),
  )
]

pub find_loop-none :
    (k i : ℕ) (registry : ℕ → Memspace) (ptr : ℕ)
    → starts ptr (slots registry i k) ≡ false
    → find_loop k i registry ptr ≡ none
unfolding find_loop starts
find_loop-none zero i registry ptr h = refl
find_loop-none (suc k) i registry ptr h = ground (arith, find_loop-none k (suc i) registry ptr)

pub find_loop-starts :
    (k i : ℕ) (registry : ℕ → Memspace) (ptr : ℕ)
    → find_loop k i registry ptr ≡ none
    → starts ptr (slots registry i k) ≡ false
unfolding find_loop starts
find_loop-starts zero i registry ptr h = refl
find_loop-starts (suc k) i registry ptr h = ground (arith, find_loop-starts k (suc i) registry ptr)
