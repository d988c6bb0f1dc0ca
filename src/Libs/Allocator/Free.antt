-- ===== src/Libs/Allocator/Free.antt =====
-- `allocator_free`, and what it does to a block that `allocator_alloc` handed out.
use butos.Prelude.{
  ℕ, suc, ◌+◌, ◌-◌, ◌<◌, ◌≡◌, refl, ap, ap₂, subst, ◌∙◌, ◌≢◌, true, false, Bool-cases, Option-cases,
  inl, inr, none, some, List, [], ◌∷◌, ◌==◌, arith,
}
use butos.Libs.Allocator.{
  Memspace, Allocator, null, allocator_alloc, allocator_free, allocator_unregister,
  allocator_find_in_registry,
}
use butos.Libs.Allocator.Packed.{
  block, Packed, DisjointAll, place, remove_at, free_block, starts, Packed-weaken,
}
use butos.Libs.Allocator.Registry.{
  slots, live, unregister_loop-remove_at, find_loop-some, find_loop-none, find_loop-starts,
}
use butos.Libs.Allocator.Alloc.{IsValid, heap_end, EvenRequest, alloc-Allocated}

Packed-free_block :
    (lo : ℕ) (bs : List Memspace) (hi ptr : ℕ) → Packed lo bs hi → Packed lo (free_block ptr bs) hi
unfolding free_block
Packed-free_block lo [] hi ptr p = p
Packed-free_block lo (b ∷ bs) hi ptr p = elim (Bool-cases (b.start == ptr)) [
  | inl here ↦ rw here (Packed-weaken bs hi (omega arith) p.4)
  | inr further ↦
      rw further (p.0, p.1, p.2, p.3, Packed-free_block (b.start + b.size) bs hi ptr p.4)
]

free_block-place :
    (p size lo : ℕ) (bs : List Memspace) (hi : ℕ)
    → 0 < size
    → Packed lo bs hi
    → DisjointAll (block p size) bs
    → free_block p (place (block p size) bs) ≡ bs
unfolding free_block place
free_block-place p size lo [] hi pos pk d = ground arith
free_block-place p size lo (b ∷ bs) hi pos pk d =
    ground (arith, free_block-place p size (b.start + b.size) bs hi pos pk.4 d.1)

starts-place : (p size : ℕ) (bs : List Memspace) → starts p (place (block p size) bs) ≡ true
unfolding starts place
starts-place p size [] = ground arith
starts-place p size (b ∷ bs) = ground (arith, starts-place p size bs)

-- What `allocator_free` leaves: the blocks less the one that starts at `ptr`.
pub record Freed (a : Allocator) (ptr : ℕ) (a' : Allocator) : Type 0 where
  pub blocks : live a' ≡ free_block ptr (live a)
  pub size : a'.size + 1 ≡ a.size
  pub heap : a'.heap ≡ a.heap
  pub capacity : a'.capacity ≡ a.capacity

unregister-Freed :
    (a : Allocator) (ptr index : ℕ)
    → allocator_find_in_registry a ptr ≡ some index
    → Freed a ptr (allocator_unregister a index)
unfolding allocator_unregister allocator_find_in_registry
unregister-Freed a ptr index h =
    let f = find_loop-some a.size 0 a.registry ptr index h in
    let index_back : index ≡ index - 0 = omega arith in
    let size_back : suc (a.size - 1) ≡ a.size = omega arith in
    record {
      blocks =
          unregister_loop-remove_at index (a.size - 1 - index) 0 a.registry index (a.size - 1)
            (omega arith) (omega arith)
          ∙ ap₂ (λ i k. remove_at i (slots a.registry 0 k)) index_back size_back
          ∙ f.2;
      size = omega arith;
      heap = refl;
      capacity = refl;
    }

free_found :
    (a : Allocator) (ptr index : ℕ)
    → allocator_find_in_registry a ptr ≡ some index
    → allocator_free a ptr ≡ some (allocator_unregister a index)
unfolding allocator_free
free_found a ptr index e = rw (e, allocator_free)

free_missing :
    (a : Allocator) (ptr : ℕ)
    → allocator_find_in_registry a ptr ≡ none
    → allocator_free a ptr ≡ none
unfolding allocator_free
free_missing a ptr e = rw (e, allocator_free)

find-none :
    (a : Allocator) (ptr : ℕ)
    → starts ptr (live a) ≡ false
    → allocator_find_in_registry a ptr ≡ none
unfolding allocator_find_in_registry
find-none a ptr h = find_loop-none a.size 0 a.registry ptr h

find-starts :
    (a : Allocator) (ptr : ℕ)
    → allocator_find_in_registry a ptr ≡ none
    → starts ptr (live a) ≡ false
unfolding allocator_find_in_registry
find-starts a ptr h = find_loop-starts a.size 0 a.registry ptr h

-- On a pointer at which a block in use starts, `allocator_free` succeeds, and drops the first such
-- block and nothing else.
pub free_lem :
    (a : Allocator) (ptr : ℕ)
    → starts ptr (live a) ≡ true
    → (a' : Allocator) × (allocator_free a ptr ≡ some a') × Freed a ptr a'
free_lem a ptr h = elim (Option-cases (allocator_find_in_registry a ptr)) [
  | inl e ↦ cc (find-starts a ptr e)
  | inr (index, e) ↦
      (allocator_unregister a index, free_found a ptr index e, unregister-Freed a ptr index e)
]

-- On a pointer at which no block in use starts, `allocator_free` stops the machine.
pub free_stops :
    (a : Allocator) (ptr : ℕ) → starts ptr (live a) ≡ false → allocator_free a ptr ≡ none
free_stops a ptr h = free_missing a ptr (find-none a ptr h)

pub free-Freed : {a a' : Allocator} (ptr : ℕ) → allocator_free a ptr ≡ some a' → Freed a ptr a'
free-Freed {a} {a'} ptr h = elim (Option-cases (allocator_find_in_registry a ptr)) [
  | inl e ↦ cc (free_missing a ptr e)
  | inr (index, e) ↦
      let same : allocator_unregister a index ≡ a' = cc (free_found a ptr index e) in
      subst (Freed a ptr) same (unregister-Freed a ptr index e)
]

-- A valid allocator stays valid when a block is freed.
pub free-IsValid :
    {a a' : Allocator} (ptr : ℕ) → IsValid a → allocator_free a ptr ≡ some a' → IsValid a'
free-IsValid {a} {a'} ptr v e =
    let f = free-Freed ptr e in
    record {
      fits = omega (arith, f.size, f.capacity, v.fits);
      not_null = rw f.heap v.not_null;
      even = rw f.heap v.even;
      no_wrap = rw f.heap v.no_wrap;
      packed =
          rw (f.heap, f.blocks) (Packed-free_block a.heap.start (live a) (heap_end a) ptr v.packed);
    }

-- A block that was put among those of `a` can be freed from any state that lists the result, and
-- leaves those of `a`.
pub free_placed :
    {a b : Allocator} (size p : ℕ)
    → IsValid a
    → IsValid b
    → 0 < size
    → DisjointAll (block p size) (live a)
    → live b ≡ place (block p size) (live a)
    → (c : Allocator) × (allocator_free b p ≡ some c) × (live c ≡ live a) × IsValid c
free_placed {a} {b} size p v w pos apart blocks =
    let (c, e, f) = free_lem b p (rw blocks (starts-place p size (live a))) in
    (
      c,
      e,
      f.blocks
          ∙ ap (free_block p) blocks
          ∙ free_block-place p size a.heap.start (live a) (heap_end a) pos v.packed apart,
      free-IsValid p w e,
    )

-- On a valid allocator and an even size that cannot wrap: to free a block that was just handed out
-- succeeds, gives back the blocks that were in use before, and leaves the allocator valid.
pub free-alloc :
    {a : Allocator} (size : ℕ)
    → IsValid a
    → EvenRequest a size
    → let (a', p) = allocator_alloc a size in
      p ≢ null → (b : Allocator) × (allocator_free a' p ≡ some b) × (live b ≡ live a) × IsValid b
free-alloc {a} size v r got =
    let (a', p) = allocator_alloc a size in
    let al = alloc-Allocated size v r got in free_placed size p v al.valid r.pos al.apart al.blocks
