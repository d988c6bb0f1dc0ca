-- ===== src/Libs/Queue/Lifetime.antt =====
-- `queue_create` and `queue_destroy` give back what they take from the heap.
use butos.Prelude.{
  ℕ, ◌<◌, ◌≡◌, refl, ap, sym, ◌∙◌, ◌≢◌, Option, some, word, ◌%◌, arith, dec_lt, subst,
}
use native.Mathlib.Nat.{mod-eq_of_lt}
use butos.Libs.Allocator.{null, Allocator, allocator_alloc, allocator_free}
use butos.Libs.Allocator.Registry.{live}
use butos.Libs.Allocator.Alloc.{IsValid, EvenRequest, Allocated, alloc-Allocated, alloc_failed}
use butos.Libs.Allocator.Free.{free_placed, free-alloc}
use butos.Libs.Alloc.{Kernel, kalloc, kfree}
use butos.Libs.Queue.{
  Queue, sizeof_queue, queue_init, init_end, create_block, create_end, queue_create, queue_destroy,
}

-- A free at the level of the kernel
kfree-some :
    (k : Kernel) (p : ℕ) {a : Allocator}
    → allocator_free k.allocator p ≡ some a
    → kfree k p ≡ some (record k { allocator = a })
unfolding kfree
kfree-some k p e = rw (e, kfree)

-- The heap at the end holds the blocks that it held at the start, and is valid.
pub record Restored (k k' : Kernel) : Type 0 where
  pub blocks : live k'.allocator ≡ live k.allocator
  pub valid : IsValid k'.allocator
  pub memory : k'.memory ≡ k.memory

-- The branches of `queue_create`
create_no_block :
    (k : Kernel) (garbage : Queue) (n ptr : ℕ)
    → ptr ≡ null
    → create_block garbage n (k, ptr) ≡ some (k, garbage, null)
unfolding create_block
create_no_block k garbage n ptr e = ground arith

create_with_block :
    (k : Kernel) (garbage : Queue) (n ptr : ℕ)
    → ptr ≢ null
    → create_block garbage n (k, ptr) ≡ create_end ptr (queue_init k garbage n)
unfolding create_block
create_with_block k garbage n ptr got = ground arith

init_no_storage :
    (k : Kernel) (q : Queue) (n values : ℕ)
    → values ≡ null
    → init_end q n (k, values) ≡ (k, record q { capacity = n; values = values }, 1)
unfolding init_end
init_no_storage k q n values e = ground arith

-- A queue as `queue_init` leaves it
abbrev pub fresh_queue : ℕ → ℕ → Queue
fresh_queue values n = record { values = values; head = 0; tail = 0; size = 0; capacity = n }

init_with_storage :
    (k : Kernel) (q : Queue) (n values : ℕ)
    → values ≢ null
    → init_end q n (k, values) ≡ (k, fresh_queue values n, 0)
unfolding init_end
init_with_storage k q n values got = ground arith

create_undo :
    (k k' : Kernel) (q : Queue) (ptr : ℕ)
    → kfree k ptr ≡ some k'
    → create_end ptr (k, q, 1) ≡ some (k', q, null)
unfolding create_end
create_undo k k' q ptr e = rw (e, create_end)

create_done : (k : Kernel) (q : Queue) (ptr : ℕ) → create_end ptr (k, q, 0) ≡ some (k, q, ptr)
unfolding create_end
create_done k q ptr = refl

kalloc-alloc :
    (k : Kernel) (n : ℕ)
    → kalloc k n ≡ (
      record k { allocator = (allocator_alloc k.allocator n).0 },
      (allocator_alloc k.allocator n).1,
    )
unfolding kalloc
kalloc-alloc k n = refl

destroy_lem :
    (k k1 : Kernel) (q : Queue) (ptr : ℕ)
    → kfree k q.values ≡ some k1
    → queue_destroy k q ptr ≡ kfree k1 ptr
unfolding queue_destroy
destroy_lem k k1 q ptr e = rw (e, queue_destroy)

-- What `queue_create` promises: it fails with the heap as it was, or returns an empty queue of
-- the capacity, and to destroy that queue gives back the heap as it was.
pub data Created (k : Kernel) (n : ℕ) : Option (Kernel × Queue × ℕ) → Type 0 where
  failed : {k' : Kernel} {q : Queue} → Restored k k' → Created k n (some (k', q, null))
  created :
      {k' : Kernel} {values ptr : ℕ}
      → ptr ≢ null
      → (k2 : Kernel) × (queue_destroy k' (fresh_queue values n) ptr ≡ some k2) × Restored k k2
      → Created k n (some (k', fresh_queue values n, ptr))

module _ (k : Kernel) (garbage : Queue) (n : ℕ) (v : IsValid k.allocator)
    (r : EvenRequest k.allocator sizeof_queue) (s : EvenRequest k.allocator n)
    (small : n < word) where
  -- The allocator with the queue's own block, and then with the storage
  abbrev one : Allocator
  one = (allocator_alloc k.allocator sizeof_queue).0

  abbrev ptr : ℕ
  ptr = (allocator_alloc k.allocator sizeof_queue).1

  abbrev two : Allocator
  two = (allocator_alloc one n).0

  abbrev values : ℕ
  values = (allocator_alloc one n).1

  with_block :
      ptr ≢ null
      → queue_create k garbage n
        ≡ create_end ptr (init_end garbage n (record k { allocator = two }, values))
  unfolding queue_create queue_init kalloc
  with_block got =
      create_with_block (record k { allocator = one }) garbage n ptr got
      ∙ ap (λ m. create_end ptr (init_end garbage n (kalloc (record k { allocator = one }) m)))
          (ap (λ m. m % word) (omega arith) ∙ mod-eq_of_lt small)

  create_start :
      queue_create k garbage n ≡ create_block garbage n (record k { allocator = one }, ptr)
  unfolding queue_create kalloc
  create_start = refl

  same_one : ptr ≡ null → one ≡ k.allocator
  same_one e = ap (λ (o : Allocator × ℕ). o.0) (alloc_failed sizeof_queue v r e)

  request_one : ptr ≢ null → EvenRequest one n
  request_one got = rw (alloc-Allocated sizeof_queue v r got).heap s

  -- To free the queue's own block from a state that lists it over the old ones
  undo :
      (al : Allocated k.allocator sizeof_queue one ptr) (b : Allocator)
      → IsValid b
      → live b ≡ live one
      → (k2 : Kernel) × (kfree (record k { allocator = b }) ptr ≡ some k2) × Restored k k2
  undo al b w same =
      let (c, e, blocks, valid) =
        free_placed sizeof_queue ptr v w r.pos al.apart (same ∙ al.blocks) in
      (
        record k { allocator = c },
        kfree-some (record k { allocator = b }) ptr e,
        record { blocks = blocks; valid = valid; memory = refl },
      )

  -- On a valid allocator and an even, unwrapping capacity, `queue_create` either fails, with the
  -- blocks in use as they were, or returns an empty queue of that capacity at an address other than
  -- NULL; then `queue_destroy` succeeds, and leaves the blocks in use as they were. The memory does
  -- not change, and the allocator stays valid.
  pub create_destroy : Created k n (queue_create k garbage n)
  create_destroy = elim (dec_lt 0 ptr) [
    | no zero_ptr ↦ no_block (omega arith)
    | yes pos ↦ elim (dec_lt 0 values) [
      | no zero_values ↦ no_storage (omega arith) (omega arith)
      | yes pos_values ↦ both (omega arith) (omega arith)
    ]
  ]
    where
      no_block : ptr ≡ null → Created k n (queue_create k garbage n)
      no_block e =
          subst (Created k n)
            (sym (create_start ∙ create_no_block (record k { allocator = one }) garbage n ptr e))
            (failed
              (record { blocks = ap live (same_one e); valid = rw (same_one e) v; memory = refl }))

      no_storage : ptr ≢ null → values ≡ null → Created k n (queue_create k garbage n)
      no_storage got e =
          let al = alloc-Allocated sizeof_queue v r got in
          let same : two ≡ one =
            ap (λ (o : Allocator × ℕ). o.0) (alloc_failed n al.valid (request_one got) e) in
          let (k2, freed, back) = undo al two (rw same al.valid) (ap live same) in
          subst (Created k n)
            (sym (
              with_block got
              ∙ ap (create_end ptr)
                  (init_no_storage (record k { allocator = two }) garbage n values e)
              ∙ create_undo (record k { allocator = two }) k2 _ ptr freed))
            (failed back)

      both : ptr ≢ null → values ≢ null → Created k n (queue_create k garbage n)
      both got got2 =
          let al = alloc-Allocated sizeof_queue v r got in
          let (b, freed, blocks, valid) = free-alloc n al.valid (request_one got) got2 in
          let (k2, freed2, back) = undo al b valid blocks in
          subst (Created k n)
            (sym (
              with_block got
              ∙ ap (create_end ptr)
                  (init_with_storage (record k { allocator = two }) garbage n values got2)
              ∙ create_done (record k { allocator = two }) (fresh_queue values n) ptr))
            (created got (
              k2,
              destroy_lem (record k { allocator = two }) (record k { allocator = b })
                    (fresh_queue values n) ptr
                    (kfree-some (record k { allocator = two }) values freed)
                  ∙ freed2,
              back,
            ))
