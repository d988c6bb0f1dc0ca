-- ===== src/Fs/Table/Chains.antt =====
-- The walks along a chain of clusters.
use butos.Prelude.{
  ℕ, zero, suc, ◌≡◌, refl, sym, ◌∙◌, ◌≢◌, ◌⊎◌, true, false, ◌&&◌, not, inl, inr, none, some, List,
  [], ◌∷◌, add32, ◌==◌, subst, ne→==_false,
}
use butos.Fs.Disk.{Drive}
use butos.Fs.Volume.{FatFs}
use butos.Fs.Table.{
  eoc1, eoc2, read_error, fat_table_read, get_len_loop, cluster_chain_get_len, cluster_chain_read,
}
use butos.Fs.Table.Entries.{IsEntry, IsReady, entry, Holds}
use butos.Fs.Table.Free.{Holds-refl, read-Holds}

-- An entry that ends a chain
abbrev pub IsEnd : ℕ → Type 0
IsEnd x = (x ≡ eoc1) ⊎ (x ≡ eoc2)

-- The clusters `cs` follow `c` in a chain of the entries `e`, and the last of them, or `c`, has an
-- entry that ends the chain.
pub data IsChain (e : ℕ → ℕ) : ℕ → List ℕ → Type 0 where
  end : {c : ℕ} → IsEnd (e c) → IsChain e c []
  link : {c n : ℕ} {cs : List ℕ} → e c ≡ n → ¬ IsEnd n → IsChain e n cs → IsChain e c (n ∷ cs)

-- The cluster at an index of the chain of `c` and `cs`, or its last
abbrev pub at_or_last : ℕ → List ℕ → ℕ → ℕ
at_or_last c [] index = c
at_or_last c (n ∷ cs) zero = c
at_or_last c (n ∷ cs) (suc index) = at_or_last n cs index

goes_on : (x : ℕ) → ¬ IsEnd x → (not (x == eoc1) && not (x == eoc2)) ≡ true
goes_on x h = rw (ne→==_false x eoc1 (λ e. h (inl e)), ne→==_false x eoc2 (λ e. h (inr e))) refl

stops : (x : ℕ) → IsEnd x → (not (x == eoc1) && not (x == eoc2)) ≡ false
stops x (inl e) = rw e refl
stops x (inr e) = rw e refl

module _ (d : Drive) where
  -- `c` and the clusters `cs` have an entry in the table.
  abbrev pub Within : FatFs d.State → ℕ → List ℕ → Type 0
  Within fs c [] = IsEntry d fs c
  Within fs c (n ∷ cs) = IsEntry d fs c × Within fs n cs

  chain_read_from :
      {fs0 : FatFs d.State} (fs : FatFs d.State) (c : ℕ) (cs : List ℕ) (index : ℕ)
      → Holds d fs0 fs (entry d fs0)
      → IsChain (entry d fs0) c cs
      → Within fs0 c cs
      → let (fs', got) = cluster_chain_read d fs c index in
        (got ≡ at_or_last c cs index) × Holds d fs0 fs' (entry d fs0)
  unfolding cluster_chain_read
  chain_read_from {fs0} fs c [] zero a (end stop) w = (refl, (read-Holds d c a w).1)
  chain_read_from {fs0} fs c (n ∷ cs) zero a (link e more rest) w = (refl, (read-Holds d c a w.0).1)
  chain_read_from {fs0} fs c [] (suc index) a (end stop) w =
      let (got, held) = read-Holds d c a w in
      rw (stops (fat_table_read d fs c).1 (subst IsEnd (sym got) stop)) (refl, held)
  chain_read_from {fs0} fs c (n ∷ cs) (suc index) a (link e more rest) w =
      let (got, held) = read-Holds d c a w.0 in
      let fs1 = (fat_table_read d fs c).0 in
      let next : (fat_table_read d fs c).1 ≡ n = got ∙ e in
      rw (goes_on (fat_table_read d fs c).1 (λ z. more (subst IsEnd next z)), next)
        (chain_read_from fs1 n cs index held rest w.1)

  -- In a chain whose clusters all have an entry in a table that is ready, `cluster_chain_read`
  -- returns the cluster at the index, or the last cluster of the chain if the chain is shorter; it
  -- changes no entry.
  pub chain_read_lem :
      (fs : FatFs d.State) (c : ℕ) (cs : List ℕ) (index : ℕ)
      → IsReady d fs
      → IsChain (entry d fs) c cs
      → Within fs c cs
      → let (fs', got) = cluster_chain_read d fs c index in
        (got ≡ at_or_last c cs index) × Holds d fs fs' (entry d fs)
  chain_read_lem fs c cs index r chain w = chain_read_from fs c cs index (Holds-refl d fs r) chain w

  get_len_stuck :
      {fs0 : FatFs d.State} (fuel : ℕ) (fs : FatFs d.State) (c len : ℕ)
      → Holds d fs0 fs (entry d fs0)
      → IsEntry d fs0 c
      → ¬ IsEnd (entry d fs0 c)
      → entry d fs0 c ≢ read_error
      → get_len_loop d fuel fs c len ≡ none
  unfolding get_len_loop
  get_len_stuck zero fs c len a h more ok = refl
  get_len_stuck {fs0} (suc fuel) fs c len a h more ok =
      let (got, held) = read-Holds d c a h in
      let fs1 = (fat_table_read d fs c).0 in
      rw (got, goes_on (entry d fs0 c) more, ne→==_false (entry d fs0 c) read_error ok)
        (get_len_stuck fuel fs1 c (add32 len 1) held h more ok)

  -- In a table that is ready, `cluster_chain_get_len` returns 1 for a chain of one cluster, and
  -- changes no entry.
  pub get_len_one :
      (fs : FatFs d.State) (c fuel : ℕ)
      → IsReady d fs
      → IsEntry d fs c
      → IsEnd (entry d fs c)
      → (fs' : FatFs d.State) × (cluster_chain_get_len d (suc fuel) fs c ≡ some (fs', 1))
        × Holds d fs fs' (entry d fs)
  unfolding cluster_chain_get_len get_len_loop
  get_len_one fs c fuel r h stop =
      let (got, held) = read-Holds d c (Holds-refl d fs r) h in
      (
        (fat_table_read d fs c).0,
        rw (stops (fat_table_read d fs c).1 (subst IsEnd (sym got) stop)) refl,
        held,
      )

  -- In a table that is ready, from a cluster whose entry neither ends a chain nor is READ_ERROR, so
  -- in every chain of two clusters or more, the loop of `cluster_chain_get_len` goes on for ever: no
  -- fuel is enough.
  pub get_len_diverges :
      (fs : FatFs d.State) (c fuel : ℕ)
      → IsReady d fs
      → IsEntry d fs c
      → ¬ IsEnd (entry d fs c)
      → entry d fs c ≢ read_error
      → cluster_chain_get_len d fuel fs c ≡ none
  unfolding cluster_chain_get_len
  get_len_diverges fs c fuel r h = get_len_stuck fuel fs c 0 (Holds-refl d fs r) h
