-- ===== src/Libs/Allocator.antt =====
-- allocator.c: a first-fit allocator. The blocks in use stand in a registry, an array in raw
-- memory that is kept sorted by start. `registry i` is what the array holds at index `i`, also
-- past the live entries, where old entries remain.
-- Pointers and `size_t` are 32-bit words. A function that updates `*a` returns the new state.
pub mod Packed
pub mod Registry
pub mod Alloc
pub mod Free
pub mod Run
pub mod Misfits
mod Tests
use butos.Prelude.{
  ℕ, zero, suc, ◌+◌, ◌-◌, ◌/◌, Bool, true, false, ◌&&◌, ◌||◌, not, Option, none, some, ltb, leb,
  ◌==◌, if◌then◌else◌, min, max, add32, sub32,
}
use butos.Libs.Memory.{Memory, memcpy}

-- `struct memspace`
pub record Memspace : Type 0 where
  pub start : ℕ
  pub size : ℕ

-- `struct allocator`
pub record Allocator : Type 0 where
  pub heap : Memspace
  pub registry : ℕ → Memspace
  pub size : ℕ
  pub capacity : ℕ

-- `NULL`
abbrev pub null : ℕ
null = 0

-- `sizeof(struct memspace)` on the 32-bit target
abbrev pub sizeof_memspace : ℕ
sizeof_memspace = 8

-- `registry[i] = m`
abbrev pub write_slot : (ℕ → Memspace) → ℕ → Memspace → ℕ → Memspace
write_slot registry i m j = if j == i then m else registry j

-- `MEMSPACE_END`, the last address of a block
abbrev pub memspace_end : Memspace → ℕ
memspace_end m = sub32 (add32 m.start m.size) 1

unfoldable pub memspace_overlap : Memspace → Memspace → Bool
memspace_overlap m1 m2 = ltb (max m1.start m2.start) (min (memspace_end m1) (memspace_end m2))

unfoldable pub memspace_enclosed : Memspace → Memspace → Bool
memspace_enclosed big small =
    leb big.start small.start && leb (memspace_end small) (memspace_end big)

-- The registry keeps whatever its memory holds.
unfoldable pub allocator_init : (heap heap_size : ℕ) (registry : ℕ → Memspace) → ℕ → Allocator
allocator_init heap heap_size registry reg_size = record {
  heap = record { start = heap; size = heap_size };
  registry = registry;
  size = 0;
  capacity = reg_size / sizeof_memspace;
}

unfoldable pub allocator_full : Allocator → Bool
allocator_full a = leb a.capacity a.size

-- The loop `while (n-->0)` of `allocator_register`, with `n` before the decrement. At index 0
-- the test `n > 0` fails and the block is written.
pub register_loop : ℕ → (ℕ → Memspace) → Memspace → ℕ → Memspace
register_loop zero registry m = registry
register_loop (suc zero) registry m = write_slot registry 0 m
register_loop (suc (suc k)) registry m = elim (ltb m.start (registry k).start) [
  | true ↦ register_loop (suc k) (write_slot registry (suc k) (registry k)) m
  | false ↦ write_slot registry (suc k) m
]

unfoldable pub allocator_register : Allocator → Memspace → Allocator
unfolding register_loop
allocator_register a m = record a {
  size = a.size + 1;
  registry = register_loop (a.size + 1) a.registry m;
}

-- The loop `for (i = index; i < a->size - 1; i++)`, with the rounds left.
pub unregister_loop : ℕ → ℕ → (ℕ → Memspace) → ℕ → Memspace
unregister_loop zero i registry = registry
unregister_loop (suc k) i registry =
    unregister_loop k (suc i) (write_slot registry i (registry (suc i)))

-- It is called with an index below `a->size`.
unfoldable pub allocator_unregister : Allocator → ℕ → Allocator
unfolding unregister_loop
allocator_unregister a index = record a {
  size = a.size - 1;
  registry = unregister_loop (a.size - 1 - index) index a.registry;
}

-- The loop of `allocator_alloc` over the `k` entries from `i` on: where it leaves `m.start`.
pub alloc_loop : ℕ → ℕ → (ℕ → Memspace) → Memspace → ℕ
unfolding memspace_overlap
alloc_loop zero i registry m = m.start
alloc_loop (suc k) i registry m = elim (memspace_overlap m (registry i)) [
  | true ↦
      alloc_loop k (suc i) registry
        (record m { start = add32 (registry i).start (registry i).size })
  | false ↦ m.start
]

-- The block that the search of `allocator_alloc` ends with
pub candidate : Allocator → ℕ → Memspace
unfolding alloc_loop
candidate a size = record {
  start = alloc_loop a.size 0 a.registry (record { start = a.heap.start; size = size });
  size = size;
}

-- The end of `allocator_alloc`, once `m` is found
pub take_block : Allocator → Memspace → Allocator × ℕ
unfolding memspace_enclosed allocator_register
take_block a m = if memspace_enclosed a.heap m then (allocator_register a m, m.start) else (a, null)

-- The new state and the address, `null` where there is none.
unfoldable pub allocator_alloc : Allocator → ℕ → Allocator × ℕ
unfolding candidate allocator_full take_block
allocator_alloc a size =
    if allocator_full a || (size == 0) then (a, null) else take_block a (candidate a size)

-- The loop of `allocator_find_in_registry` over the `k` entries from `i` on; `none` is -1.
pub find_loop : ℕ → ℕ → (ℕ → Memspace) → ℕ → Option ℕ
find_loop zero i registry ptr = none
find_loop (suc k) i registry ptr =
    if (registry i).start == ptr then some i else find_loop k (suc i) registry ptr

unfoldable pub allocator_find_in_registry : Allocator → ℕ → Option ℕ
unfolding find_loop
allocator_find_in_registry a ptr = find_loop a.size 0 a.registry ptr

-- `none` is `raise_free_error`, which prints a message and stops the machine.
unfoldable pub allocator_free : Allocator → ℕ → Option Allocator
unfolding allocator_find_in_registry allocator_unregister
allocator_free a ptr = elim (allocator_find_in_registry a ptr) [
  | none ↦ none
  | some index ↦ some (allocator_unregister a index)
]

-- The test by which `allocator_realloc` decides to change the block at `index` in place
unfoldable pub can_enlarge : Allocator → ℕ → Memspace → Bool
unfolding memspace_overlap memspace_enclosed
can_enlarge a index m =
    (index == a.size - 1 && memspace_enclosed a.heap m)
    || not (memspace_overlap m (a.registry (index + 1)))

-- The end of `allocator_realloc`, once a new block is taken: copy, then free the old block.
pub realloc_move : Memory → Allocator → ℕ → ℕ → ℕ → ℕ → Option (Memory × Allocator × ℕ)
unfolding allocator_free memcpy
realloc_move mem a new index ptr size = elim (allocator_free a ptr) [
  | none ↦ none
  | some a' ↦ some (memcpy mem new ptr (min (a.registry index).size size), a', new)
]

-- The branch of `allocator_realloc` for a block that is in the registry at `index`
pub realloc_found : Memory → Allocator → ℕ → ℕ → ℕ → Option (Memory × Allocator × ℕ)
unfolding can_enlarge allocator_alloc realloc_move
realloc_found mem a index ptr size =
    if can_enlarge a index (record { start = ptr; size = size })
    then some (
      mem,
      record a {
        registry = write_slot a.registry index (record (a.registry index) { size = size });
      },
      ptr,
    )
    else (let (a', new) = allocator_alloc a size in
        if new == null then some (mem, a', null) else realloc_move mem a' new index ptr size)

-- The memory, the allocator and the address; `none` is the stop of `allocator_free`.
unfoldable pub allocator_realloc : Memory → Allocator → ℕ → ℕ → Option (Memory × Allocator × ℕ)
unfolding allocator_find_in_registry allocator_alloc realloc_found
allocator_realloc mem a ptr size = elim (allocator_find_in_registry a ptr) [
  | none ↦ (let (a', new) = allocator_alloc a size in some (mem, a', new))
  | some index ↦ realloc_found mem a index ptr size
]
