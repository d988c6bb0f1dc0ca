-- ===== src/Libs/Queue.antt =====
-- queue.c: a byte queue in an array of fixed capacity, with its storage in the kernel heap.
-- The `int` fields are never negative, and their capacity is the caller's nonnegative `max_size`;
-- none of the operations lets one overflow. A `char` is its byte.
pub mod Ring
pub mod Lifetime
mod Tests
use butos.Prelude.{
  ℕ, ◌+◌, ◌-◌, ◌%◌, Bool, true, false, Option, none, some, leb, ◌==◌, if◌then◌else◌, mul32,
}
use butos.Libs.Memory.{Memory, store}
use butos.Libs.Allocator.{null}
use butos.Libs.Alloc.{Kernel, kalloc, kfree}

-- `queue_t`; `values` is the address of the storage.
pub record Queue : Type 0 where
  pub values : ℕ
  pub head : ℕ
  pub tail : ℕ
  pub size : ℕ
  pub capacity : ℕ

-- `QUEUE_EMPTY`, -1 as a `char`
abbrev pub queue_empty_code : ℕ
queue_empty_code = 255

-- `sizeof(queue_t)` on the 32-bit target
abbrev pub sizeof_queue : ℕ
sizeof_queue = 20

-- The end of `queue_init`, with what `kalloc` returned: 0 on success and 1 on failure. On failure
-- the fields keep what they had, but for `capacity` and `values`.
pub init_end : Queue → ℕ → Kernel × ℕ → Kernel × Queue × ℕ
init_end q max_size (k, values) =
    if values == null
    then (k, record q { capacity = max_size; values = values }, 1)
    else (k, record { values = values; head = 0; tail = 0; size = 0; capacity = max_size }, 0)

unfoldable pub queue_init : Kernel → Queue → ℕ → Kernel × Queue × ℕ
unfolding init_end
queue_init k q max_size = init_end q max_size (kalloc k (mul32 1 max_size))

-- The end of `queue_create`, with what `queue_init` returned
pub create_end : ℕ → Kernel × Queue × ℕ → Option (Kernel × Queue × ℕ)
create_end ptr (k, q, error) =
    if error == 0
    then some (k, q, ptr)
    else elim (kfree k ptr) [ none ↦ none | some k' ↦ some (k', q, null) ]

-- `queue_create` behind its first `kalloc`
pub create_block : Queue → ℕ → Kernel × ℕ → Option (Kernel × Queue × ℕ)
unfolding create_end queue_init
create_block garbage max_size (k, ptr) =
    if ptr == null then some (k, garbage, null) else create_end ptr (queue_init k garbage max_size)

-- The kernel, what the queue holds and its address, `null` on failure. `garbage` is what the fresh
-- memory holds, and an outer `none` is the stop of an invalid free.
unfoldable pub queue_create : Kernel → Queue → ℕ → Option (Kernel × Queue × ℕ)
unfolding create_block
queue_create k garbage max_size = create_block garbage max_size (kalloc k sizeof_queue)

unfoldable pub queue_fini : Kernel → Queue → Option Kernel
queue_fini k q = kfree k q.values

unfoldable pub queue_destroy : Kernel → Queue → ℕ → Option Kernel
unfolding queue_fini
queue_destroy k q ptr = elim (queue_fini k q) [ none ↦ none | some k' ↦ kfree k' ptr ]

unfoldable pub queue_empty : Queue → Bool
queue_empty q = leb q.size 0

unfoldable pub queue_full : Queue → Bool
queue_full q = leb q.capacity q.size

unfoldable pub queue_enqueue : Memory → Queue → ℕ → Memory × Queue × ℕ
unfolding queue_full
queue_enqueue mem q c = if queue_full q then (mem, q, 1) else (
  store mem (q.values + q.tail) c,
  record q { size = q.size + 1; tail = (q.tail + 1) % q.capacity },
  0,
)

unfoldable pub queue_dequeue : Memory → Queue → Queue × ℕ
unfolding queue_empty
queue_dequeue mem q =
    if queue_empty q
    then (q, queue_empty_code)
    else (record q { head = (q.head + 1) % q.capacity; size = q.size - 1 }, mem (q.values + q.head))

unfoldable pub queue_flush : Queue → Queue
queue_flush q = record q { size = 0; head = 0; tail = 0 }
