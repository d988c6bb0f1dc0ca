-- ===== src/Fs/Cache/Flush.antt =====
-- `cache_flush` brings the disk to what the clients of the cache see.
use butos.Prelude.{
  ℕ, zero, suc, ◌%◌, ◌<◌, ◌≡◌, refl, ap, sym, ◌∙◌, subst, ◌≢◌, ◌⊎◌, true, false, Bool-cases, inl,
  inr, not, ◌&&◌, Option, none, some, List, [], ◌∷◌, ◌==◌, length, get_or, arith, ℕ_discrete,
  get_or-replicate, Option-cases,
}
use native.Mathlib.Nat.{mod-lt}
use butos.Fs.Cache.{
  Line, Cache, Mode, read, write, no_tag, blank, tag_of, index_of, line_at, load_line, use_line,
  cache_access, flush_line, flush_lines, cache_flush, cache_init,
}
use butos.Fs.Cache.View.{IsValid, view, view_line, line-same, line-other}

-- A line that is valid holds a block, and stands at the place of its tag.
abbrev pub PlacedAt : ℕ → ℕ → Line → Type 0
PlacedAt cache_size i l = l.valid ≡ true → (l.tag % cache_size ≡ i) × (l.bytes ≢ none)

abbrev pub Placed : Cache → Type 0
Placed c = (i : ℕ) → PlacedAt c.cache_size i (line_at c i)

pub init-Placed : (cache_size block_size : ℕ) → Placed (cache_init cache_size block_size)
unfolding cache_init
init-Placed cache_size block_size i h = let e = get_or-replicate cache_size i blank in ground arith

use_line-PlacedAt :
    (n i : ℕ) (l : Line) (j : ℕ) (mode : Mode) → PlacedAt n i l → PlacedAt n i (use_line l j mode).0
unfolding use_line
use_line-PlacedAt n i l j read p h = ground (arith, p)
use_line-PlacedAt n i l j (write b) p h = ground (arith, p)

module _ {S : Type 0} (read_fun : S → ℕ → Option (List ℕ)) (fs : S) where
  load_line-PlacedAt :
      (n : ℕ) (l : Line) (tag : ℕ)
      → PlacedAt n (tag % n) l
      → PlacedAt n (tag % n) (load_line read_fun fs l tag)
  unfolding load_line
  load_line-PlacedAt n l tag p h = elim (Option-cases (read_fun fs tag)) [
    | inl e ↦ ground (arith, p)
    | inr (d, e) ↦ ground (arith, p)
  ]

-- In a cache with as many lines as its size says, and at least one, an access keeps every valid line
-- at the place of its tag, with a block.
pub access-Placed :
    {S : Type 0} (read_fun : S → ℕ → Option (List ℕ)) (fs : S) (c : Cache) (sector offset : ℕ)
    (mode : Mode)
    → IsValid c
    → Placed c
    → Placed (cache_access read_fun c fs sector offset mode).0
unfolding cache_access
access-Placed read_fun fs c sector offset mode v p i =
    let t = tag_of c sector offset in
    elim (ℕ_discrete i (index_of c t)) [
      | yes e ↦
          subst
            (λ j.
              PlacedAt c.cache_size j (line_at (cache_access read_fun c fs sector offset mode).0 j))
            (sym e)
            (rw (line-same read_fun fs c v sector offset mode) (
              use_line-PlacedAt c.cache_size (index_of c t)
                (load_line read_fun fs (line_at c (index_of c t)) t) (offset % c.block_size) mode
                (load_line-PlacedAt read_fun fs c.cache_size (line_at c (index_of c t)) t
                  (p (index_of c t)))))
      | no ne ↦ rw (line-other read_fun fs c v sector offset mode i ne) (p i)
    ]

-- What the cache takes of the functions behind its two pointers: a block that can be read can be
-- written, and is then read as it was written, and no other block changes.
pub record Backing {S : Type 0} (read_fun : S → ℕ → Option (List ℕ))
    (write_fun : S → ℕ → Option (List ℕ) → S × ℕ) (IsBlock : List ℕ → Type 0) : Type 0 where
  pub read-write :
      (fs : S) (t : ℕ) (d : List ℕ)
      → IsBlock d
      → read_fun fs t ≢ none
      → read_fun (write_fun fs t (some d)).0 t ≡ some d
  pub read-write_ne :
      (fs : S) (t u : ℕ) (d : Option (List ℕ))
      → u ≢ t
      → read_fun (write_fun fs t d).0 u ≡ read_fun fs u

module _ {S : Type 0} (read_fun : S → ℕ → Option (List ℕ))
    (write_fun : S → ℕ → Option (List ℕ) → S × ℕ) (IsBlock : List ℕ → Type 0)
    (back : Backing read_fun write_fun IsBlock) (t : ℕ) (real : t ≢ no_tag) where
  flush_line-miss :
      (l : Line) (fs : S)
      → (l.valid ≡ true → l.tag ≢ t)
      → read_fun (flush_line write_fun l fs) t ≡ read_fun fs t
  unfolding flush_line
  flush_line-miss l fs miss = elim (Bool-cases (l.valid && not (l.tag == no_tag))) [
    | inl e ↦ rw e (back.read-write_ne fs l.tag t l.bytes (λ s. miss (valid_of e) (sym s)))
    | inr e ↦ rw e
  ]
    where
      valid_of : (l.valid && not (l.tag == no_tag)) ≡ true → l.valid ≡ true
      valid_of e = ground arith

  flush_line-hit :
      (fs : S) (d : List ℕ)
      → IsBlock d
      → read_fun fs t ≢ none
      → read_fun (flush_line write_fun (record { valid = true; tag = t; bytes = some d }) fs) t
        ≡ some d
  unfolding flush_line
  flush_line-hit fs d blk ok = rw real_test (back.read-write fs t d blk ok)
    where
      real_test : (t == no_tag) ≡ false
      real_test = ground arith

  -- A block that no valid line has is not touched.
  flush_lines-miss :
      (ls : List Line) (fs : S)
      → ((j : ℕ) → (get_or ls j blank).valid ≡ true → (get_or ls j blank).tag ≢ t)
      → read_fun (flush_lines write_fun ls fs) t ≡ read_fun fs t
  unfolding flush_lines
  flush_lines-miss [] fs miss = refl
  flush_lines-miss (l ∷ ls) fs miss =
      flush_lines-miss ls (flush_line write_fun l fs) (λ j. miss (suc j))
      ∙ flush_line-miss l fs (miss 0)

  -- The block of the one line that has it is written.
  flush_lines-hit :
      (ls : List Line) (fs : S) (i : ℕ) (d : List ℕ)
      → i < length ls
      → IsBlock d
      → get_or ls i blank ≡ record { valid = true; tag = t; bytes = some d }
      → ((j : ℕ) → j ≢ i → (get_or ls j blank).valid ≡ true → (get_or ls j blank).tag ≢ t)
      → read_fun fs t ≢ none
      → read_fun (flush_lines write_fun ls fs) t ≡ some d
  unfolding flush_lines
  flush_lines-hit [] fs i d h blk e others ok = absurd (omega arith)
  flush_lines-hit (l ∷ ls) fs zero d h blk e others ok =
      flush_lines-miss ls (flush_line write_fun l fs) (λ j. others (suc j) (omega arith))
      ∙ ap (λ m. read_fun (flush_line write_fun m fs) t) e
      ∙ flush_line-hit fs d blk ok
  flush_lines-hit (l ∷ ls) fs (suc i) d h blk e others ok =
      let kept = flush_line-miss l fs (others 0 (omega arith)) in
      flush_lines-hit ls (flush_line write_fun l fs) i d (omega arith) blk e
        (λ j ne. others (suc j) (omega arith)) (λ f. ok (sym kept ∙ f))

  -- A block that is seen stands in a line, or on the disk and not in that line.
  seen_in :
      (l : Line) (fs : S) (d : List ℕ)
      → view_line read_fun fs l t ≡ some d
      → (l ≡ record { valid = true; tag = t; bytes = some d })
        ⊎ ((l.valid ≡ true → l.tag ≢ t) × (read_fun fs t ≡ some d))
  seen_in l fs d seen = elim (ℕ_discrete l.tag t) [
    | yes same ↦ inl (ground arith)
    | no other ↦ inr (λ h. other, ground arith)
  ]

  -- On a disk that keeps what is written, with the lines of a valid cache in their places: after
  -- `cache_flush` the disk has a block as the clients of the cache saw it, if the disk had the block,
  -- its number is not that of an empty line, and what the cache has of it can be written.
  pub flush-view :
      (c : Cache) (fs : S) (d : List ℕ)
      → IsValid c
      → Placed c
      → IsBlock d
      → read_fun fs t ≢ none
      → view read_fun fs c t ≡ some d
      → read_fun (cache_flush write_fun c fs) t ≡ some d
  unfolding cache_flush
  flush-view c fs d v p blk ok seen = elim (seen_in (line_at c (index_of c t)) fs d seen) [
    | inl held ↦
        flush_lines-hit c.lines fs (index_of c t) d (rw v.count (mod-lt t v.some_lines)) blk held
          (λ j ne val e. ne (sym (p j val).0 ∙ ap (λ n. n % c.cache_size) e)) ok
    | inr (apart, e) ↦
        flush_lines-miss c.lines fs (λ j val same.
          apart (ap (λ n. (line_at c n).valid) (at_place j val same) ∙ val)
            (ap (λ n. (line_at c n).tag) (at_place j val same) ∙ same))
        ∙ e
  ]
    where
      at_place : (j : ℕ) → (line_at c j).valid ≡ true → (line_at c j).tag ≡ t → index_of c t ≡ j
      at_place j val same = ap (λ n. n % c.cache_size) (sym same) ∙ (p j val).0
