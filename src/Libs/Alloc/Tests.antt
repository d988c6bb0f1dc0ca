-- ===== src/Libs/Alloc/Tests.antt =====
-- The kernel heap of main.c, and the theorem about `kcalloc` there.
use butos.Prelude.{ℕ, ◌≡◌, refl, arith}
use butos.Libs.Memory.{memset}
use butos.Libs.Memory.Copy.{Within, Outside}
use butos.Libs.Allocator.{allocator_alloc}
use butos.Libs.Allocator.Packed.{block}
use butos.Libs.Allocator.Alloc.{IsValid, Allocated}
use butos.Libs.Alloc.{Kernel, kcalloc}
use butos.Libs.Alloc.Calloc.{kcalloc_lem}

abbrev kernel : Kernel
kernel = record {
  allocator = record {
    heap = block 0xc00f0000 492032;
    registry = λ i. block 0 0;
    size = 0;
    capacity = 100;
  };
  memory = λ a. 1;
}

kernel-IsValid : IsValid kernel.allocator
kernel-IsValid = omega arith

kcalloc_lem_test :
    let (k', p) = kcalloc kernel 4 3 in
    Allocated kernel.allocator 12 k'.allocator p
    × ((a : ℕ) → Within p 12 a → k'.memory a ≡ 0)
    × ((a : ℕ) → Outside p 12 a → k'.memory a ≡ kernel.memory a)
kcalloc_lem_test =
    kcalloc_lem kernel 4 3 kernel-IsValid (omega arith) (omega arith)
      (unfold kcalloc allocator_alloc in omega arith)

kcalloc_clears : (kcalloc kernel 4 3).0.memory 0xc00f000b ≡ 0
unfolding kcalloc allocator_alloc memset
kcalloc_clears = refl
