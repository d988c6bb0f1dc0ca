-- ===== src/Libs/Allocator/Tests.antt =====
-- The allocator at the heap that main.c hands it, and the theorems there.
use butos.Prelude.{ℕ, zero, suc, ◌+◌, ◌≡◌, ◌≢◌, ◌↔◌, refl, ◌<◌, ◌≤◌, none, some, arith, inl, inr}
use butos.Libs.Allocator.{
  Allocator, null, allocator_init, allocator_alloc, allocator_free, allocator_register,
  allocator_unregister,
}
use butos.Libs.Allocator.Packed.{block, starts}
use butos.Libs.Allocator.Registry.{live}
use butos.Libs.Allocator.Alloc.{
  IsValid, EvenRequest, Allocated, IsFree, alloc-Allocated, alloc-IsFree, alloc-null,
}
use butos.Libs.Allocator.Free.{Freed, free_lem, free_stops, free-IsValid, free-alloc}
use butos.Libs.Allocator.Misfits.{alloc-Misfit}
use butos.Libs.Allocator.Run.{done, call, request, Kept, Calls-Kept}

-- main.c: the heap at 0xC00f0000, and a registry of 800 bytes, all zero at the start.
abbrev heap_start : ℕ
heap_start = 0xc00f0000

abbrev fresh : Allocator
unfolding allocator_init
fresh = allocator_init heap_start 492032 (λ i. block 0 0) 800

-- Two blocks, with a hole of 6 bytes between them
abbrev two_blocks : Allocator
two_blocks = record {
  heap = block heap_start 492032;
  registry = λ i. elim i [ zero ↦ block heap_start 10 | suc j ↦ block (heap_start + 16) 4 ];
  size = 2;
  capacity = 100;
}

two_blocks-IsValid : IsValid two_blocks
two_blocks-IsValid = record {
  fits = omega arith;
  not_null = omega arith;
  even = omega arith;
  no_wrap = omega arith;
  packed = omega arith;
}

request_6 : EvenRequest two_blocks 6
request_6 = omega arith

init_capacity : (fresh.capacity ≡ 100) × (fresh.size ≡ 0)
unfolding allocator_init
init_capacity = (refl, refl)

alloc_hole : (allocator_alloc two_blocks 6).1 ≡ heap_start + 10
unfolding allocator_alloc
alloc_hole = refl

alloc_behind : (allocator_alloc two_blocks 8).1 ≡ heap_start + 20
unfolding allocator_alloc
alloc_behind = refl

-- A request of 7 bytes is put into the hole of 6.
alloc_odd : (allocator_alloc two_blocks 7).1 ≡ heap_start + 10
unfolding allocator_alloc
alloc_odd = refl

alloc-Allocated_example :
    Allocated two_blocks 6 (allocator_alloc two_blocks 6).0 (allocator_alloc two_blocks 6).1
alloc-Allocated_example =
    alloc-Allocated 6 two_blocks-IsValid request_6 (unfold allocator_alloc in omega arith)

alloc-IsFree_example :
    ((allocator_alloc two_blocks 6).1 ≢ null)
    × ((allocator_alloc two_blocks 6).1 ≤ heap_start + 100)
alloc-IsFree_example =
    alloc-IsFree 6 two_blocks-IsValid request_6 (heap_start + 100) (omega arith) (record {
      from = omega arith;
      to = omega arith;
      apart = (inr (omega arith), (inr (omega arith), tt));
    })

alloc-null_example :
    (2 < 100 → (s : ℕ) → ¬ IsFree two_blocks 6 s)
    ↔ (allocator_alloc two_blocks 6 ≡ (two_blocks, null))
alloc-null_example = alloc-null 6 two_blocks-IsValid request_6

free_lem_test :
    (a' : Allocator) × (allocator_free two_blocks (heap_start + 16) ≡ some a')
    × Freed two_blocks (heap_start + 16) a'
unfolding starts
free_lem_test = free_lem two_blocks (heap_start + 16) refl

free_stops_test : allocator_free two_blocks (heap_start + 2) ≡ none
unfolding starts
free_stops_test = free_stops two_blocks (heap_start + 2) refl

first_freed : Allocator
unfolding allocator_free
first_freed = record two_blocks {
  registry = (allocator_unregister two_blocks 0).registry;
  size = 1;
}

free-IsValid_test : IsValid first_freed
unfolding first_freed allocator_free
free-IsValid_test = free-IsValid heap_start two_blocks-IsValid refl

free-alloc_example :
    (b : Allocator) × (allocator_free
        (allocator_alloc two_blocks 6).0
        (allocator_alloc two_blocks 6).1
      ≡ some b)
    × (live b ≡ live two_blocks)
    × IsValid b
free-alloc_example =
    free-alloc 6 two_blocks-IsValid request_6 (unfold allocator_alloc in omega arith)

alloc-Misfit_test :
    allocator_alloc two_blocks 1 ≡ (allocator_register two_blocks (block heap_start 1), heap_start)
alloc-Misfit_test = alloc-Misfit two_blocks 1 (omega arith) (omega arith) (omega arith) (inl refl)

Calls-Kept_example : Kept two_blocks (allocator_alloc two_blocks 6).0
Calls-Kept_example = Calls-Kept (call (request 6 request_6) done) two_blocks-IsValid
