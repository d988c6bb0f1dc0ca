-- ===== src/Libs/Allocator/Run.antt =====
-- The allocator under any sequence of requests and releases.
use butos.Prelude.{ℕ, ◌≡◌, refl, ◌∙◌, some, ℕ_discrete}
use butos.Libs.Allocator.{Allocator, null, allocator_alloc, allocator_free}
use butos.Libs.Allocator.Alloc.{IsValid, EvenRequest, alloc-Allocated, alloc_failed}
use butos.Libs.Allocator.Free.{free-IsValid, free-Freed}

-- One call: a request of an even size that cannot wrap, served or refused, or a release that succeeds
pub data Call : Allocator → Allocator → Type 0 where
  request : {a : Allocator} (size : ℕ) → EvenRequest a size → Call a (allocator_alloc a size).0
  release : {a a' : Allocator} (ptr : ℕ) → allocator_free a ptr ≡ some a' → Call a a'

-- Calls one after the other
pub data Calls : Allocator → Allocator → Type 0 where
  done : {a : Allocator} → Calls a a
  call : {a b c : Allocator} → Call a b → Calls b c → Calls a c

-- The allocator is valid and has the heap and the capacity that it had.
pub record Kept (a a' : Allocator) : Type 0 where
  pub valid : IsValid a'
  pub heap : a'.heap ≡ a.heap

request-Kept :
    {a : Allocator} (size : ℕ) → IsValid a → EvenRequest a size → Kept a (allocator_alloc a size).0
request-Kept {a} size v r = elim (ℕ_discrete (allocator_alloc a size).1 null) [
  | yes e ↦ rw (alloc_failed size v r e) (record { valid = v; heap = refl })
  | no got ↦ let al = alloc-Allocated size v r got in record { valid = al.valid; heap = al.heap }
]

call-Kept : {a a' : Allocator} → Call a a' → IsValid a → Kept a a'
call-Kept (request size r) v = request-Kept size v r
call-Kept (release ptr e) v = record {
  valid = free-IsValid ptr v e;
  heap = (free-Freed ptr e).heap;
}

-- Whatever calls follow one another, requests of even sizes that cannot wrap and releases that
-- succeed, a valid allocator stays valid: the blocks in use are sorted, lie in the heap and share no
-- byte. Its heap stays the same.
pub Calls-Kept : {a a' : Allocator} → Calls a a' → IsValid a → Kept a a'
Calls-Kept done v = record { valid = v; heap = refl }
Calls-Kept (call step rest) v =
    let k = call-Kept step v in
    let l = Calls-Kept rest k.valid in record { valid = l.valid; heap = l.heap ∙ k.heap }
