-- ===== src/Libs/Alloc/Calloc.antt =====
-- `kalloc`, `kfree` and `kcalloc` over a valid allocator.
use butos.Prelude.{ℕ, ◌*◌, ◌<◌, ◌≡◌, ◌≢◌, word, arith}
use butos.Libs.Memory.{Memory, memset}
use butos.Libs.Memory.Copy.{Within, Outside, memset-Within, memset-Outside}
use butos.Libs.Allocator.{Allocator, null, allocator_alloc}
use butos.Libs.Allocator.Alloc.{IsValid, EvenRequest, Allocated, alloc-Allocated}
use butos.Libs.Alloc.{Kernel, kcalloc, clear_block}
use native.Mathlib.Nat.{mod-eq_of_lt}

clear_block_filled :
    (mem : Memory) (o : Allocator × ℕ) (n : ℕ)
    → (clear_block mem o n).1 ≢ null
    → (o.1 ≢ null)
      × (clear_block mem o n ≡ (record { allocator = o.0; memory = memset mem o.1 0 n }, o.1))
unfolding clear_block
clear_block_filled mem (a, p) n got = ground arith

-- On a valid allocator, where the product does not wrap and is even, every address but NULL that
-- `kcalloc` returns is that of a new block, as `allocator_alloc` promises it, that is all zero bytes;
-- no byte outside the block changes.
pub kcalloc_lem :
    (k : Kernel) (nmemb size : ℕ)
    → IsValid k.allocator
    → size * nmemb < word
    → EvenRequest k.allocator (size * nmemb)
    → let (k', p) = kcalloc k nmemb size in
      p ≢ null
      → Allocated k.allocator (size * nmemb) k'.allocator p
        × ((a : ℕ) → Within p (size * nmemb) a → k'.memory a ≡ 0)
        × ((a : ℕ) → Outside p (size * nmemb) a → k'.memory a ≡ k.memory a)
unfolding kcalloc
kcalloc_lem k nmemb size v w r = rw (mod-eq_of_lt w) λ got.
    let filled =
      clear_block_filled k.memory (allocator_alloc k.allocator (size * nmemb)) (size * nmemb) in
    rw (filled got).1 (
      alloc-Allocated (size * nmemb) v r (filled got).0,
      λ a h.
          memset-Within (size * nmemb) k.memory (allocator_alloc k.allocator (size * nmemb)).1 0 a
            h,
      λ a h.
          memset-Outside (size * nmemb) k.memory (allocator_alloc k.allocator (size * nmemb)).1 0 a
            h,
    )
