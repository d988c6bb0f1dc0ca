-- ===== src/Libs/Queue/Ring.antt =====
-- The queue of queue.c is a bounded first-in first-out queue of bytes.
use butos.Prelude.{
  ℕ, zero, suc, ◌+◌, ◌-◌, ◌%◌, ◌≤◌, ◌<◌, ◌≡◌, refl, ap, ap₂, sym, ◌∙◌, ◌≢◌, ◌⊎◌, List, [], ◌∷◌,
  ◌++◌, leb, if◌then◌else◌, arith, length, dec_lt,
}
use native.Mathlib.Nat.{mod-add-mod, mod-eq_of_lt}
use butos.Prelude.Division.{step_ne}
use butos.Libs.Memory.{Memory, store}
use butos.Libs.Queue.{Queue, queue_empty_code, queue_enqueue, queue_dequeue, queue_flush}

-- The positions are in range, and `tail` is `size` steps on from `head`.
pub record IsValid (q : Queue) : Type 0 where
  pub room : q.size ≤ q.capacity
  pub head_in : q.head < q.capacity
  pub tail_at : q.tail ≡ (q.head + q.size) % q.capacity

-- The `n` bytes of a ring of `cap` from position `h` on
abbrev pub ring : Memory → ℕ → ℕ → ℕ → ℕ → List ℕ
ring mem base cap h zero = []
ring mem base cap h (suc n) = mem (base + h) ∷ ring mem base cap ((h + 1) % cap) n

-- The bytes that the queue holds, oldest first
abbrev pub contents : Memory → Queue → List ℕ
contents mem q = ring mem q.values q.capacity q.head q.size

pub length-ring : (mem : Memory) (base cap h n : ℕ) → length (ring mem base cap h n) ≡ n
length-ring mem base cap h zero = refl
length-ring mem base cap h (suc n) = ap suc (length-ring mem base cap ((h + 1) % cap) n)

-- A write `n` positions on from `h` adds a byte behind the `n` that stand there.
ring-store :
    (mem : Memory) (base cap c n h t : ℕ)
    → h < cap
    → n < cap
    → t ≡ (h + n) % cap
    → ring (store mem (base + t) c) base cap h (suc n) ≡ ring mem base cap h n ++ (c ∷ [])
ring-store mem base cap c zero h t hh hn e =
    let same : t ≡ h = omega (arith, mod-eq_of_lt {n = h + 0} {m = cap} (omega arith)) in
    ground arith
ring-store mem base cap c (suc n) h t hh hn e =
    let apart : t ≢ h = omega (arith, step_ne cap h (suc n) hh (omega arith) hn) in
    ap₂ ◌∷◌ (ground arith) (
      ring-store mem base cap c n ((h + 1) % cap) t (omega arith) (omega arith)
        (e ∙ ap (λ k. k % cap) (omega arith) ∙ sym (mod-add-mod (h + 1) cap n)))

-- The first byte of a ring that is not empty
ring-pos :
    (mem : Memory) (base cap h n : ℕ)
    → 0 < n
    → ring mem base cap h n ≡ mem (base + h) ∷ ring mem base cap ((h + 1) % cap) (n - 1)
ring-pos mem base cap h zero pos = absurd (omega arith)
ring-pos mem base cap h (suc n) pos = ap (λ k. ring mem base cap h (suc k)) (omega arith)

-- A client's calls
pub data Op : Type 0 where
  enqueue : ℕ → Op
  dequeue flush : Op

-- The abstract queue, oldest byte first, and what each call returns
unfoldable pub fifo_step : ℕ → List ℕ → Op → List ℕ × ℕ
fifo_step capacity xs (enqueue c) =
    if leb capacity (length xs) then (xs, 1) else (xs ++ (c ∷ []), 0)
fifo_step capacity [] dequeue = ([], queue_empty_code)
fifo_step capacity (x ∷ xs) dequeue = (xs, x)
fifo_step capacity xs flush = ([], 0)

unfoldable pub fifo_run : ℕ → List ℕ → List Op → List ℕ × List ℕ
fifo_run capacity xs [] = (xs, [])
fifo_run capacity xs (op ∷ ops) =
    let (ys, reply) = fifo_step capacity xs op in
    let (zs, replies) = fifo_run capacity ys ops in (zs, reply ∷ replies)

-- The same calls on the queue of queue.c
unfoldable pub queue_step : Memory → Queue → Op → Memory × Queue × ℕ
queue_step mem q (enqueue c) = queue_enqueue mem q c
queue_step mem q dequeue = let (q', c) = queue_dequeue mem q in (mem, q', c)
queue_step mem q flush = (mem, queue_flush q, 0)

unfoldable pub queue_run : Memory → Queue → List Op → Memory × Queue × List ℕ
queue_run mem q [] = (mem, q, [])
queue_run mem q (op ∷ ops) =
    let (mem1, q1, reply) = queue_step mem q op in
    let (mem2, q2, replies) = queue_run mem1 q1 ops in (mem2, q2, reply ∷ replies)

-- What holds between a queue and the one after a call: its storage is the same, it is valid, and
-- memory outside the storage is as it was.
pub record After (mem : Memory) (q : Queue) (mem' : Memory) (q' : Queue) : Type 0 where
  pub values : q'.values ≡ q.values
  pub capacity : q'.capacity ≡ q.capacity
  pub valid : IsValid q'
  pub frame : (a : ℕ) → (a < q.values) ⊎ (q.values + q.capacity ≤ a) → mem' a ≡ mem a

tail-enqueue :
    (q : Queue) → IsValid q → (q.tail + 1) % q.capacity ≡ (q.head + (q.size + 1)) % q.capacity
tail-enqueue q v =
    ap (λ t. (t + 1) % q.capacity) v.tail_at
    ∙ mod-add-mod (q.head + q.size) q.capacity 1
    ∙ ap (λ k. k % q.capacity) (omega arith)

tail-dequeue :
    (q : Queue)
    → IsValid q
    → 0 < q.size
    → q.tail ≡ ((q.head + 1) % q.capacity + (q.size - 1)) % q.capacity
tail-dequeue q v pos =
    v.tail_at
    ∙ ap (λ k. k % q.capacity) (omega arith)
    ∙ sym (mod-add-mod (q.head + 1) q.capacity (q.size - 1))

pub enqueue-After :
    (mem : Memory) (q : Queue) (c : ℕ)
    → IsValid q
    → let (mem', q', reply) = queue_enqueue mem q c in After mem q mem' q'
unfolding queue_enqueue
enqueue-After mem q c v = ground (arith, tail-enqueue q v)

dequeue-After : (mem : Memory) (q : Queue) → IsValid q → After mem q mem (queue_dequeue mem q).0
unfolding queue_dequeue
dequeue-After mem q v = ground (arith, tail-dequeue q v)

flush-After : (mem : Memory) (q : Queue) → IsValid q → After mem q mem (queue_flush q)
unfolding queue_flush
flush-After mem q v = record {
  values = refl;
  capacity = refl;
  valid = record {
    room = omega arith;
    head_in = omega arith;
    tail_at = sym (mod-eq_of_lt (omega arith));
  };
  frame = λ a h. refl;
}

step-After :
    (mem : Memory) (q : Queue) (op : Op)
    → IsValid q
    → let (mem', q', reply) = queue_step mem q op in After mem q mem' q'
unfolding queue_step
step-After mem q (enqueue c) v = enqueue-After mem q c v
step-After mem q dequeue v = dequeue-After mem q v
step-After mem q flush v = flush-After mem q v

dequeue_refines :
    (mem : Memory) (q : Queue)
    → let (q', c) = queue_dequeue mem q in
      (contents mem q', c) ≡ fifo_step q.capacity (contents mem q) dequeue
unfolding fifo_step queue_dequeue
dequeue_refines mem q = elim (dec_lt 0 q.size) [
  | yes pos ↦ ground (arith, ring-pos mem q.values q.capacity q.head q.size)
  | no nil ↦
      let e : q.size ≡ 0 = omega arith in ground (arith, ap (ring mem q.values q.capacity q.head) e)
]

pub enqueue_refines :
    (mem : Memory) (q : Queue) (c : ℕ)
    → IsValid q
    → let (mem', q', reply) = queue_enqueue mem q c in
      (contents mem' q', reply) ≡ fifo_step q.capacity (contents mem q) (enqueue c)
unfolding fifo_step queue_enqueue
enqueue_refines mem q c v = ground (
  arith,
  length-ring mem q.values q.capacity q.head q.size,
  ring-store mem q.values q.capacity c q.size q.head q.tail,
)

step_refines :
    (mem : Memory) (q : Queue) (op : Op)
    → IsValid q
    → let (mem', q', reply) = queue_step mem q op in
      (contents mem' q', reply) ≡ fifo_step q.capacity (contents mem q) op
unfolding queue_step fifo_step queue_flush
step_refines mem q (enqueue c) v = enqueue_refines mem q c v
step_refines mem q dequeue v = dequeue_refines mem q
step_refines mem q flush v = refl

-- On a valid queue every sequence of calls returns what a first-in first-out queue of the same
-- capacity returns, which refuses a byte when it is full and answers QUEUE_EMPTY when it is empty;
-- the bytes that the queue holds at the end are those of that queue.
pub run_refines :
    (ops : List Op) (mem : Memory) (q : Queue)
    → IsValid q
    → let (mem', q', replies) = queue_run mem q ops in
      (contents mem' q', replies) ≡ fifo_run q.capacity (contents mem q) ops
unfolding queue_run fifo_run
run_refines [] mem q v = refl
run_refines (op ∷ ops) mem q v =
    let s = queue_step mem q op in
    let a = step-After mem q op v in
    ground (arith, step_refines mem q op v, run_refines ops s.0 s.1 a.valid, a.capacity)

-- Every sequence of calls keeps a valid queue valid and its storage the same, and changes no byte
-- of memory outside the storage.
pub run-After :
    (ops : List Op) (mem : Memory) (q : Queue)
    → IsValid q
    → let (mem', q', replies) = queue_run mem q ops in After mem q mem' q'
unfolding queue_run
run-After [] mem q v = record { values = refl; capacity = refl; valid = v; frame = λ a h. refl }
run-After (op ∷ ops) mem q v =
    let s = queue_step mem q op in
    let a = step-After mem q op v in
    let b = run-After ops s.0 s.1 a.valid in
    record {
      values = b.values ∙ a.values;
      capacity = b.capacity ∙ a.capacity;
      valid = b.valid;
      frame = λ x h. b.frame x (rw (a.values, a.capacity) h) ∙ a.frame x h;
    }
