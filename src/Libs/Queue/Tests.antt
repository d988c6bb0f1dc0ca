-- ===== src/Libs/Queue/Tests.antt =====
-- A small queue, and the theorems at it.
use butos.Prelude.{◌≡◌, refl, List, [], ◌∷◌, arith, ◌%◌}
use butos.Libs.Memory.{Memory}
use butos.Libs.Allocator.Packed.{block}
use butos.Libs.Allocator.Alloc.{IsValid}
use butos.Libs.Alloc.{Kernel}
use butos.Libs.Queue.{Queue, queue_create, queue_enqueue, queue_dequeue}
use butos.Libs.Queue.Ring
use butos.Libs.Queue.Ring.{
  Op, enqueue, dequeue, flush, contents, queue_run, queue_step, fifo_run, run_refines, run-After,
  After,
}
use butos.Libs.Queue.Lifetime.{Created, create_destroy}

abbrev blank : Memory
blank = λ a. 0

-- Capacity 2 at address 100, with byte 7 at position 1
abbrev small : Queue
small = record { values = 100; head = 1; tail = 0; size = 1; capacity = 2 }

abbrev mem : Memory
mem = λ a. a % 94

small-IsValid : Ring.IsValid small
small-IsValid = omega arith

abbrev script : List Op
script = enqueue 8 ∷ enqueue 9 ∷ dequeue ∷ dequeue ∷ dequeue ∷ enqueue 3 ∷ []

run-small : (queue_run mem small script).2 ≡ 0 ∷ 1 ∷ 7 ∷ 8 ∷ 255 ∷ 0 ∷ []
unfolding queue_run queue_step queue_enqueue queue_dequeue
run-small = refl

run_refines_example :
    let (m, q, replies) = queue_run mem small script in
    (contents m q, replies) ≡ fifo_run 2 (contents mem small) script
run_refines_example = run_refines script mem small small-IsValid

run-After_example : let (m, q, replies) = queue_run mem small script in After mem small m q
run-After_example = run-After script mem small small-IsValid

-- The heap of main.c, with nothing in use
abbrev kernel : Kernel
kernel = record {
  allocator = record {
    heap = block 0xc00f0000 492032;
    registry = λ i. block 0 0;
    size = 0;
    capacity = 100;
  };
  memory = blank;
}

kernel-IsValid : IsValid kernel.allocator
kernel-IsValid = omega arith

-- The input buffer of the keyboard has 100 bytes.
create_destroy_test : Created kernel 100 (queue_create kernel small 100)
create_destroy_test =
    create_destroy kernel small 100 kernel-IsValid (omega arith) (omega arith) (omega arith)
