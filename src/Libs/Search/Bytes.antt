-- ===== src/Libs/Search/Bytes.antt =====
-- The searches for a byte in an area of memory.
use butos.Prelude.{
  ℕ, zero, suc, ◌+◌, ◌-◌, ◌≤◌, ◌<◌, ◌≡◌, ◌≢◌, refl, ap, sym, ◌∙◌, ◌⊎◌, inl, inr, ◌==◌,
  if◌then◌else◌, arith, ne→==_false, ==_iff, sub32, add32, word, ℕ_discrete, dec_lt,
}
use butos.Libs.Memory.{Memory}
use butos.Libs.Allocator.{null}
use butos.Libs.Search.{memchr_loop, memchr, memrchr_loop, memrchr}

-- No byte at the indices from `i` up to `j` is `c`.
abbrev pub Without : Memory → (s c i j : ℕ) → Type 0
Without mem s c i j = (k : ℕ) → i ≤ k → k < j → mem (s + k) ≢ c

Without-suc :
    (mem : Memory) (s c i j : ℕ) → mem (s + i) ≢ c → Without mem s c (i + 1) j → Without mem s c i j
Without-suc mem s c i j ne rest k le lt e = elim (ℕ_discrete k i) [
  | yes same ↦ ne (ap (λ n. mem (s + n)) (sym same) ∙ e)
  | no other ↦ rest k (omega arith) lt e
]

-- The first index from `i` on that the loop stops at
record Stopped (mem : Memory) (s c i k j : ℕ) : Type 0 where
  low : i ≤ j
  high : j ≤ i + k
  before : Without mem s c i j
  found : j < i + k → mem (s + j) ≡ c

memchr_loop_lem : (k : ℕ) (mem : Memory) (s c i : ℕ) → Stopped mem s c i k (memchr_loop k mem s c i)
unfolding memchr_loop
memchr_loop_lem zero mem s c i = record {
  low = omega arith;
  high = omega arith;
  before = λ k le lt. absurd (omega arith);
  found = λ lt. absurd (omega arith);
}
memchr_loop_lem (suc k) mem s c i = elim (ℕ_discrete (mem (s + i)) c) [
  | yes e ↦ rw ((==_iff (mem (s + i)) c).1 e) (record {
    low = omega arith;
    high = omega arith;
    before = λ k le lt. absurd (omega arith);
    found = λ lt. e;
  })
  | no ne ↦
      let r = memchr_loop_lem k mem s c (i + 1) in
      rw (ne→==_false (mem (s + i)) c ne) (record {
        low = omega (arith, r.low);
        high = omega (arith, r.high);
        before = Without-suc mem s c i (memchr_loop k mem s c (i + 1)) ne r.before;
        found = λ lt. r.found (omega arith);
      })
]

-- Of at least one byte, and of less than 2^32, `memchr` returns the address of the first one that is
-- `c`, or NULL if none is.
pub memchr_lem :
    (mem : Memory) (s c n : ℕ)
    → 0 < n
    → n < word
    → ((i : ℕ) × (i < n) × (mem (s + i) ≡ c) × Without mem s c 0 i × (memchr mem s c n ≡ s + i))
      ⊎ (Without mem s c 0 n × (memchr mem s c n ≡ null))
unfolding memchr
memchr_lem mem s c n pos small =
    let e : sub32 n 1 ≡ n - 1 = omega arith in
    let i = memchr_loop (n - 1) mem s c 0 in
    let r = memchr_loop_lem (n - 1) mem s c 0 in
    rw e (elim (ℕ_discrete (mem (s + i)) c) [
      | yes at ↦
          inl (i, omega (arith, r.high), at, r.before, rw ((==_iff (mem (s + i)) c).1 at) refl)
      | no ne ↦ inr (missing i r ne, rw (ne→==_false (mem (s + i)) c ne) refl)
    ])
  where
    missing : (i : ℕ) → Stopped mem s c 0 (n - 1) i → mem (s + i) ≢ c → Without mem s c 0 n
    missing i r ne k le lt e = elim (ℕ_discrete k i) [
      | yes same ↦ ne (ap (λ m. mem (s + m)) (sym same) ∙ e)
      | no other ↦ elim (dec_lt k i) [
        | yes below ↦ r.before k le below e
        | no above ↦ ne (r.found (omega (arith, r.high)))
      ]
    ]

memrchr_loop_lem :
    (n : ℕ) (mem : Memory) (s c : ℕ)
    → ((i : ℕ) × (i < n)
        × (mem (s + i) ≡ c)
        × Without mem s c (suc i) n
        × (memrchr_loop mem s c n ≡ i))
      ⊎ (Without mem s c 0 n × (memrchr_loop mem s c n ≡ sub32 0 1))
unfolding memrchr_loop
memrchr_loop_lem zero mem s c = inr (λ k le lt. absurd (omega arith), refl)
memrchr_loop_lem (suc n) mem s c = elim (ℕ_discrete (mem (s + n)) c) [
  | yes e ↦
      inl
        (n, omega arith, e, λ k le lt. absurd (omega arith), rw ((==_iff (mem (s + n)) c).1 e) refl)
  | no ne ↦ elim (memrchr_loop_lem n mem s c) [
    | inl (i, lt, at, after, got) ↦
        inl (i, omega arith, at, one_more (suc i) ne after, rw (ne→==_false (mem (s + n)) c ne) got)
    | inr (all, got) ↦ inr (one_more 0 ne all, rw (ne→==_false (mem (s + n)) c ne) got)
  ]
]
  where
    one_more : (i : ℕ) → mem (s + n) ≢ c → Without mem s c i n → Without mem s c i (suc n)
    one_more i ne rest k le lt e = elim (ℕ_discrete k n) [
      | yes same ↦ ne (ap (λ m. mem (s + m)) (sym same) ∙ e)
      | no other ↦ rest k le (omega arith) e
    ]

-- In an area that does not wrap `memrchr` returns the address of the last byte that is `c`. If none is,
-- it looks at the byte before the area, and returns NULL unless that byte is `c`.
pub memrchr_lem :
    (mem : Memory) (s c n : ℕ)
    → s + n < word
    → ((i : ℕ) × (i < n)
        × (mem (s + i) ≡ c)
        × Without mem s c (suc i) n
        × (memrchr mem s c n ≡ s + i))
      ⊎ (Without mem s c 0 n
          × (memrchr mem s c n ≡ (if mem (sub32 s 1) == c then sub32 s 1 else null)))
unfolding memrchr
memrchr_lem mem s c n small = elim (memrchr_loop_lem n mem s c) [
  | inl (i, lt, at, after, got) ↦
      let e : add32 s i ≡ s + i = omega arith in
      inl (i, lt, at, after, rw (got, e, (==_iff (mem (s + i)) c).1 at) refl)
  | inr (all, got) ↦
      let e : add32 s (sub32 0 1) ≡ sub32 s 1 = omega arith in inr (all, rw (got, e) refl)
]
