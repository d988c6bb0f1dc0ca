-- ===== src/Libs/Alloc.antt =====
-- alloc.c: the kernel's own heap, an allocator with the memory that its blocks lie in.
pub mod Calloc
mod Tests
use butos.Prelude.{ℕ, ◌==◌, if◌then◌else◌, mul32, Option, none, some}
use butos.Libs.Memory.{Memory, memset}
use butos.Libs.Allocator.{
  Memspace, Allocator, null, allocator_init, allocator_alloc, allocator_free, allocator_realloc,
}

-- `kallocator_` and the memory
pub record Kernel : Type 0 where
  pub allocator : Allocator
  pub memory : Memory

pub kalloc_start : Memory → ℕ → ℕ → (ℕ → Memspace) → ℕ → Kernel
unfolding allocator_init
kalloc_start mem heap heap_size registry reg_size = record {
  allocator = allocator_init heap heap_size registry reg_size;
  memory = mem;
}

-- The kernel and the address, `null` where there is none.
unfoldable pub kalloc : Kernel → ℕ → Kernel × ℕ
kalloc k size = let (a, p) = allocator_alloc k.allocator size in (record k { allocator = a }, p)

-- `none` where the free stops the machine.
unfoldable pub kfree : Kernel → ℕ → Option Kernel
kfree k ptr = elim (allocator_free k.allocator ptr) [
  | none ↦ none
  | some a ↦ some (record k { allocator = a })
]

-- The end of `kcalloc`, with what `allocator_alloc` returned
pub clear_block : Memory → Allocator × ℕ → ℕ → Kernel × ℕ
clear_block mem (a, p) n =
    if p == null
    then (record { allocator = a; memory = mem }, null)
    else (record { allocator = a; memory = memset mem p 0 n }, p)

-- The product wraps as that of `size_t` does.
unfoldable pub kcalloc : Kernel → ℕ → ℕ → Kernel × ℕ
unfolding clear_block
kcalloc k nmemb size =
    clear_block k.memory (allocator_alloc k.allocator (mul32 size nmemb)) (mul32 size nmemb)

unfoldable pub krealloc : Kernel → ℕ → ℕ → Option (Kernel × ℕ)
krealloc k ptr size = elim (allocator_realloc k.memory k.allocator ptr size) [
  | none ↦ none
  | some (mem, a, p) ↦ some (record { allocator = a; memory = mem }, p)
]
