-- ===== src/Libs/Allocator/Alloc.antt =====
-- `allocator_alloc`: first fit, on a heap whose blocks are even.
use butos.Prelude.{
  ℕ, zero, suc, ◌+◌, ◌%◌, ◌≤◌, ◌<◌, ◌≡◌, refl, ap, ◌∙◌, ◌≢◌, ◌↔◌, true, false, Bool-cases, inl, inr,
  word, arith, dec_lt,
}
use butos.Libs.Allocator.{
  Memspace, Allocator, null, candidate, memspace_enclosed, allocator_full, allocator_register,
  allocator_alloc, take_block,
}
use butos.Libs.Allocator.Packed.{
  block, Packed, DisjointAll, first_fit, place, Request, first_fit-even, first_fit-Packed,
  first_fit-le,
}
use butos.Libs.Allocator.Registry.{slots, live, alloc_loop-first_fit, register_loop-place}

-- The first address behind the heap
abbrev pub heap_end : Allocator → ℕ
heap_end a = a.heap.start + a.heap.size

-- The registry lists even blocks of the heap, sorted and sharing no byte.
pub record IsValid (a : Allocator) : Type 0 where
  pub fits : a.size ≤ a.capacity
  pub not_null : 0 < a.heap.start
  pub even : a.heap.start % 2 ≡ 0
  pub no_wrap : heap_end a ≤ word
  pub packed : Packed a.heap.start (live a) (heap_end a)

-- The sizes that the theorems speak of: even, and too small to wrap.
abbrev pub EvenRequest : Allocator → ℕ → Type 0
EvenRequest a size = Request a.heap.start (heap_end a) size

Packed-slots :
    (registry : ℕ → Memspace) (lo i k hi j : ℕ)
    → Packed lo (slots registry i k) hi
    → i ≤ j
    → j < i + k
    → lo ≤ (registry j).start
Packed-slots registry lo i zero hi j p h l = absurd (omega arith)
Packed-slots registry lo i (suc k) hi j p h l = elim (dec_lt i j) [
  | yes lt ↦ omega (
    arith,
    Packed-slots registry ((registry i).start + (registry i).size) (suc i) k hi j p.4 lt
        (omega arith),
  )
  | no ge ↦ (let e : j ≡ i = omega arith in rw e p.0)
]

slots-SortedBelow :
    (registry : ℕ → Memspace) (lo i k hi : ℕ)
    → Packed lo (slots registry i k) hi
    → (j n : ℕ) → i ≤ j
    → j ≤ n
    → n < i + k
    → (registry j).start ≤ (registry n).start
slots-SortedBelow registry lo i zero hi p j n h jn l = absurd (omega arith)
slots-SortedBelow registry lo i (suc k) hi p j n h jn l = elim (dec_lt i j) [
  | yes lt ↦
      slots-SortedBelow registry ((registry i).start + (registry i).size) (suc i) k hi p.4 j n lt jn
        (omega arith)
  | no ge ↦
      (let e : j ≡ i = omega arith in
        rw e (elim (dec_lt i n) [
          | yes lt ↦ omega (
            arith,
            Packed-slots registry ((registry i).start + (registry i).size) (suc i) k hi n p.4 lt
                (omega arith),
          )
          | no same ↦ (let en : n ≡ i = omega arith in rw en (omega arith))
        ]))
]

pub alloc_has_room :
    (a : Allocator) (size : ℕ)
    → a.size < a.capacity
    → 0 < size
    → allocator_alloc a size ≡ take_block a (candidate a size)
unfolding allocator_alloc
alloc_has_room a size room pos = ground arith

heap-register : (a : Allocator) (m : Memspace) → (allocator_register a m).heap ≡ a.heap
unfolding allocator_register
heap-register a m = refl

alloc_when_full :
    (a : Allocator) (size : ℕ) → a.capacity ≤ a.size → allocator_alloc a size ≡ (a, null)
unfolding allocator_alloc allocator_full
alloc_when_full a size full = ground arith

pub take_block_enclosed :
    (a : Allocator) (m : Memspace)
    → memspace_enclosed a.heap m ≡ true
    → take_block a m ≡ (allocator_register a m, m.start)
unfolding take_block
take_block_enclosed a m h = rw h

take_block_refused :
    (a : Allocator) (m : Memspace) → memspace_enclosed a.heap m ≡ false → take_block a m ≡ (a, null)
unfolding take_block
take_block_refused a m h = rw h

module _ {a : Allocator} (size : ℕ) (v : IsValid a) (r : EvenRequest a size) where
  -- Where the search of `allocator_alloc` ends
  abbrev found : ℕ
  found = first_fit (live a) a.heap.start size

  candidate-found : candidate a size ≡ block found size
  unfolding candidate
  candidate-found =
      ap (λ s. block s size) (alloc_loop-first_fit a.size 0 a.registry a.heap.start size)

  enclosed_true : memspace_enclosed a.heap (block found size) ≡ true → found + size ≤ heap_end a
  unfolding memspace_enclosed
  enclosed_true h =
      let f = first_fit-even size (heap_end a) a.heap.start (live a) r v.packed in ground (arith, f)

  enclosed_of_le : found + size ≤ heap_end a → memspace_enclosed a.heap (block found size) ≡ true
  unfolding memspace_enclosed
  enclosed_of_le h =
      let f = first_fit-even size (heap_end a) a.heap.start (live a) r v.packed in ground (arith, f)

  live-register : live (allocator_register a (block found size)) ≡ place (block found size) (live a)
  unfolding allocator_register
  live-register =
      let e : a.size + 1 ≡ suc a.size = omega arith in
      rw e (
        register_loop-place a.size a.registry (block found size) (λ i j h l.
          slots-SortedBelow a.registry a.heap.start 0 a.size (heap_end a) v.packed i j (omega arith)
            h (omega arith)))

  alloc-take_block : a.size < a.capacity → allocator_alloc a size ≡ take_block a (block found size)
  alloc-take_block room = alloc_has_room a size room r.pos ∙ ap (take_block a) candidate-found

  alloc_fits :
      a.size < a.capacity
      → found + size ≤ heap_end a
      → allocator_alloc a size ≡ (allocator_register a (block found size), found)
  alloc_fits room fits =
      alloc-take_block room ∙ take_block_enclosed a (block found size) (enclosed_of_le fits)

  register-IsValid :
      a.size < a.capacity
      → found + size ≤ heap_end a
      → IsValid (allocator_register a (block found size))
  unfolding allocator_register
  register-IsValid room fits = record {
    fits = omega arith;
    not_null = v.not_null;
    even = v.even;
    no_wrap = v.no_wrap;
    packed =
        rw live-register
          (first_fit-Packed size (heap_end a) a.heap.start (live a) r v.packed fits).0;
  }

  alloc_refused :
      (a.size < a.capacity → heap_end a < found + size) → allocator_alloc a size ≡ (a, null)
  alloc_refused none_fits = elim (dec_lt a.size a.capacity) [
    | yes room ↦
        alloc-take_block room ∙ take_block_refused a (block found size) (outside (none_fits room))
    | no all ↦ alloc_when_full a size (omega arith)
  ]
    where
      outside : heap_end a < found + size → memspace_enclosed a.heap (block found size) ≡ false
      outside h = elim (Bool-cases (memspace_enclosed a.heap (block found size))) [
        | inl e ↦ absurd (omega (arith, enclosed_true e))
        | inr e ↦ e
      ]

-- What `allocator_alloc` promises of a block that it hands out: it lies in the heap, shares no
-- byte with a block in use, and is added to those in address order.
pub record Allocated (a : Allocator) (size : ℕ) (a' : Allocator) (p : ℕ) : Type 0 where
  pub valid : IsValid a'
  pub heap : a'.heap ≡ a.heap
  pub blocks : live a' ≡ place (block p size) (live a)
  pub apart : DisjointAll (block p size) (live a)
  pub from : a.heap.start ≤ p
  pub to : p + size ≤ heap_end a

-- The block of the size at `s` lies in the heap and shares no byte with a block in use.
pub record IsFree (a : Allocator) (size s : ℕ) : Type 0 where
  pub from : a.heap.start ≤ s
  pub to : s + size ≤ heap_end a
  pub apart : DisjointAll (block s size) (live a)

module _ {a : Allocator} (size : ℕ) (v : IsValid a) (r : EvenRequest a size) where
  -- On a valid allocator and an even size that cannot wrap, every address but NULL that
  -- `allocator_alloc` returns is that of a block inside the heap which shares no byte with a block
  -- in use; the registry then holds it and what it held before, and is valid.
  pub alloc-Allocated :
      (allocator_alloc a size).1 ≢ null
      → Allocated a size (allocator_alloc a size).0 (allocator_alloc a size).1
  alloc-Allocated got = elim (dec_lt a.size a.capacity) [
    | yes room ↦ elim (dec_lt (heap_end a) (found size v r + size)) [
      | yes beyond ↦
          absurd (got (ap (λ (o : Allocator × ℕ). o.1) (alloc_refused size v r (λ _. beyond))))
      | no within ↦
          let fits : found size v r + size ≤ heap_end a = omega arith in
          rw (alloc_fits size v r room fits) (record {
            valid = register-IsValid size v r room fits;
            heap = heap-register a (block (found size v r) size);
            blocks = live-register size v r;
            apart = (first_fit-Packed size (heap_end a) a.heap.start (live a) r v.packed fits).1;
            from = (first_fit-even size (heap_end a) a.heap.start (live a) r v.packed).1;
            to = fits;
          })
    ]
    | no all ↦
        absurd (
          got
            (ap (λ (o : Allocator × ℕ). o.1) (alloc_refused size v r (λ room. absurd (all room)))))
  ]

  -- On a valid allocator and an even size that cannot wrap, where the registry has room and some
  -- block of the size is free, `allocator_alloc` returns an address other than NULL, and no free
  -- block of the size lies lower.
  pub alloc-IsFree :
      (s : ℕ)
      → a.size < a.capacity
      → IsFree a size s
      → ((allocator_alloc a size).1 ≢ null) × ((allocator_alloc a size).1 ≤ s)
  alloc-IsFree s room free =
      let low =
        first_fit-le size (heap_end a) a.heap.start (live a) s r v.packed free.from free.apart in
      let even = first_fit-even size (heap_end a) a.heap.start (live a) r v.packed in
      rw (alloc_fits size v r room (omega (arith, low, free.to)))
        (omega (arith, even, v.not_null), low)

  pub alloc_failed : (allocator_alloc a size).1 ≡ null → allocator_alloc a size ≡ (a, null)
  alloc_failed e = alloc_refused size v r λ room.
      elim (dec_lt (heap_end a) (found size v r + size)) [
        | yes beyond ↦ beyond
        | no within ↦
            let placed = ap (λ (o : Allocator × ℕ). o.1) (alloc_fits size v r room (omega arith)) in
            let low = first_fit-even size (heap_end a) a.heap.start (live a) r v.packed in
            absurd (omega (arith, placed, low, v.not_null))
      ]

  -- On a valid allocator and an even size that cannot wrap, `allocator_alloc` returns NULL and leaves
  -- the state alone exactly if the registry is full or no block of the size is free.
  pub alloc-null :
      (a.size < a.capacity → (s : ℕ) → ¬ IsFree a size s) ↔ (allocator_alloc a size ≡ (a, null))
  alloc-null = (
    λ none_free. alloc_refused size v r λ room. elim (dec_lt (heap_end a) (found size v r + size)) [
      | yes beyond ↦ beyond
      | no within ↦ absurd (none_free room (found size v r) (at_found (omega arith)))
    ],
    λ e room s free. (alloc-IsFree s room free).0 (ap (λ (o : Allocator × ℕ). o.1) e),
  )
    where
      at_found : found size v r + size ≤ heap_end a → IsFree a size (found size v r)
      at_found fits = record {
        from = (first_fit-even size (heap_end a) a.heap.start (live a) r v.packed).1;
        to = fits;
        apart = (first_fit-Packed size (heap_end a) a.heap.start (live a) r v.packed fits).1;
      }
