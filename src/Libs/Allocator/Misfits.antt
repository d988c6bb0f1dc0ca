-- ===== src/Libs/Allocator/Misfits.antt =====
-- Requests for which the overlap test of allocator.c, which takes the last byte of a block for
-- its end, sees no block in use.
use butos.Prelude.{ℕ, zero, suc, ◌+◌, ◌≤◌, ◌<◌, ◌≡◌, refl, ◌∙◌, ap, true, false, word, arith, ◌⊎◌}
use butos.Libs.Allocator.{
  Memspace, Allocator, memspace_overlap, memspace_enclosed, alloc_loop, candidate,
  allocator_register, allocator_alloc, take_block,
}
use butos.Libs.Allocator.Packed.{block}
use butos.Libs.Allocator.Alloc.{heap_end, alloc_has_room, take_block_enclosed}

-- The sizes of one byte, and those at which the end of the block wraps below its start
abbrev pub Misfit : Allocator → ℕ → Type 0
Misfit a size = (size ≡ 1) ⊎ ((size < word) × (word < a.heap.start + size))

overlap-Misfit :
    (a : Allocator) (b : Memspace) (size : ℕ)
    → a.heap.start < word
    → Misfit a size
    → memspace_overlap (block a.heap.start size) b ≡ false
unfolding memspace_overlap
overlap-Misfit a b size w m = ground arith

alloc_loop-Misfit :
    (a : Allocator) (k i size : ℕ)
    → a.heap.start < word
    → Misfit a size
    → alloc_loop k i a.registry (block a.heap.start size) ≡ a.heap.start
unfolding alloc_loop
alloc_loop-Misfit a zero i size w m = refl
alloc_loop-Misfit a (suc k) i size w m = rw (overlap-Misfit a (a.registry i) size w m, alloc_loop)

enclosed-Misfit :
    (a : Allocator) (size : ℕ)
    → 0 < a.heap.size
    → heap_end a ≤ word
    → Misfit a size
    → memspace_enclosed a.heap (block a.heap.start size) ≡ true
unfolding memspace_enclosed
enclosed-Misfit a size pos w m = ground arith

candidate-Misfit :
    (a : Allocator) (size : ℕ)
    → a.heap.start < word
    → Misfit a size
    → candidate a size ≡ block a.heap.start size
unfolding candidate
candidate-Misfit a size w m = ap (λ s. block s size) (alloc_loop-Misfit a a.size 0 size w m)

-- Where the registry has room, and the heap is not empty and does not wrap: whatever blocks are in
-- use, a request for one byte, or for so many that the end of the block wraps round the address
-- space, is served with the start of the heap.
pub alloc-Misfit :
    (a : Allocator) (size : ℕ)
    → a.size < a.capacity
    → 0 < a.heap.size
    → heap_end a ≤ word
    → Misfit a size
    → allocator_alloc a size ≡ (allocator_register a (block a.heap.start size), a.heap.start)
alloc-Misfit a size room pos w m =
    alloc_has_room a size room (omega arith)
    ∙ ap (take_block a) (candidate-Misfit a size (omega arith) m)
    ∙ take_block_enclosed a (block a.heap.start size) (enclosed-Misfit a size pos w m)
