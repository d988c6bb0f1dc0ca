-- ===== src/Fs/Table/Free.antt =====
-- The search for a free cluster, and the count of them.
use butos.Prelude.{
  ℕ, zero, suc, ◌+◌, ◌-◌, ◌≤◌, ◌<◌, ◌≡◌, refl, ap, sym, ◌∙◌, ◌≢◌, ◌⊎◌, inl, inr, arith, add32,
  sub32, word, ne→==_false, ℕ_discrete, ◌==◌, if◌then◌else◌,
}
use butos.Fs.Disk.{Drive}
use butos.Fs.Volume.{FatFs}
use butos.Fs.Table.{
  cluster_alloc_err, fat_table_read, fat_table_write, count_loop, free_cluster_count_read,
  first_free_loop, first_free_cluster_read, alloc_cluster_loop, fat_table_alloc_cluster,
}
use butos.Fs.Table.Entries.{IsEntry, IsReady, entry, Holds, read-entry, update, write-entry}

module _ (d : Drive) where
  -- The clusters from `i` up to `n` have an entry.
  abbrev pub Covered : FatFs d.State → ℕ → ℕ → Type 0
  Covered fs i n = (j : ℕ) → i ≤ j → j < n → IsEntry d fs j

  pub Holds-refl : (fs : FatFs d.State) → IsReady d fs → Holds d fs fs (entry d fs)
  Holds-refl fs r = record {
    ready = r;
    volume = refl;
    info = refl;
    address = refl;
    size = refl;
    count = refl;
    entries = λ j h. refl;
  }

  -- Two file systems that hold the same table have the same entries in it.
  pub IsEntry-Holds :
      {fs fs' : FatFs d.State} {e : ℕ → ℕ} (j : ℕ)
      → Holds d fs fs' e
      → IsEntry d fs j
      → IsEntry d fs' j
  IsEntry-Holds j a h = rw (a.size, a.volume) h

  pub Holds-trans :
      {fs fs1 fs2 : FatFs d.State} {e e' : ℕ → ℕ}
      → Holds d fs fs1 (entry d fs)
      → Holds d fs1 fs2 e
      → ((j : ℕ) → IsEntry d fs j → e j ≡ e' j)
      → Holds d fs fs2 e'
  Holds-trans {fs} {fs1} {fs2} {e} {e'} a b same = record {
    ready = b.ready;
    volume = b.volume ∙ a.volume;
    info = b.info ∙ a.info;
    address = b.address ∙ a.address;
    size = b.size ∙ a.size;
    count = b.count ∙ a.count;
    entries = λ j h. b.entries j (IsEntry-Holds j a h) ∙ same j h;
  }

  -- A read, when the table holds the entries of `fs0`
  pub read-Holds :
      {fs0 fs : FatFs d.State} (i : ℕ)
      → Holds d fs0 fs (entry d fs0)
      → IsEntry d fs0 i
      → ((fat_table_read d fs i).1 ≡ entry d fs0 i)
        × Holds d fs0 (fat_table_read d fs i).0 (entry d fs0)
  read-Holds {fs0} {fs} i a h =
      let (got, held) = read-entry d i a.ready (IsEntry-Holds i a h) in
      (got ∙ a.entries i h, Holds-trans a held a.entries)

  -- No cluster from `i` up to `n` is free.
  abbrev pub NoneFree : FatFs d.State → ℕ → ℕ → Type 0
  NoneFree fs i n = (j : ℕ) → i ≤ j → j < n → entry d fs j ≢ 0

  NoneFree-suc :
      (fs : FatFs d.State) (i n : ℕ) → entry d fs i ≢ 0 → NoneFree fs (suc i) n → NoneFree fs i n
  NoneFree-suc fs i n ne rest j le lt e = elim (ℕ_discrete j i) [
    | yes same ↦ ne (ap (entry d fs) (sym same) ∙ e)
    | no other ↦ rest j (omega arith) lt e
  ]

  -- `c` is the first free cluster from `i` up to `n`, and `fs'` is `fs` with `content` as its entry.
  pub record Taken (fs fs' : FatFs d.State) (content i n c : ℕ) : Type 0 where
    pub low : i ≤ c
    pub high : c < n
    pub free : entry d fs c ≡ 0
    pub first : NoneFree fs i c
    pub written : FatFs d.State
    pub holds : Holds d fs written (update d (entry d fs) c content)
    pub info : fs' ≡ record written {
      info = record written.info {
        free_cluster_count = sub32 written.info.free_cluster_count 1;
        free_cluster = c;
      };
    }

  abbrev Outcome : FatFs d.State → FatFs d.State × ℕ → ℕ → ℕ → ℕ → Type 0
  Outcome fs (fs', c) content i n =
      Taken fs fs' content i n c
      ⊎ ((c ≡ cluster_alloc_err) × NoneFree fs i n × Holds d fs fs' (entry d fs))

  Outcome-suc :
      (fs : FatFs d.State) (out : FatFs d.State × ℕ) (content i n : ℕ)
      → entry d fs i ≢ 0
      → Outcome fs out content (suc i) n
      → Outcome fs out content i n
  Outcome-suc fs out content i n ne (inl t) = inl (record {
    low = omega (arith, t.low);
    high = t.high;
    free = t.free;
    first = NoneFree-suc fs i out.1 ne t.first;
    written = t.written;
    holds = t.holds;
    info = t.info;
  })
  Outcome-suc fs out content i n ne (inr (e, none_free, held)) =
      inr (e, NoneFree-suc fs i n ne none_free, held)

  alloc_cluster_loop_lem :
      {fs0 : FatFs d.State} (k i n : ℕ) (fs : FatFs d.State) (content : ℕ)
      → i + k ≡ n
      → Holds d fs0 fs (entry d fs0)
      → Covered fs0 i n
      → content < word
      → Outcome fs0 (alloc_cluster_loop d k i fs content) content i n
  unfolding alloc_cluster_loop
  alloc_cluster_loop_lem zero i n fs content e a cov small = inr (refl, λ j le lt. omega arith, a)
  alloc_cluster_loop_lem {fs0} (suc k) i n fs content e a cov small =
      let here = cov i (omega arith) (omega arith) in
      let (got, held) = read-Holds i a here in
      let fs1 = (fat_table_read d fs i).0 in
      elim (ℕ_discrete (fat_table_read d fs i).1 0) [
        | yes free ↦
            let w = write-entry d i content held.ready (IsEntry-Holds i held here) small in
            rw free (
              inl (record {
                low = omega arith;
                high = omega arith;
                free = sym got ∙ free;
                first = λ j le lt. omega arith;
                written = fat_table_write d fs1 i content;
                holds =
                    Holds-trans held w
                      (λ j hj. ap (λ x. if j == i then content else x) (held.entries j hj));
                info = refl;
              }))
        | no ne ↦ rw (ne→==_false (fat_table_read d fs i).1 0 ne) (
            Outcome-suc fs0 (alloc_cluster_loop d k (suc i) fs1 content) content i n
              (λ z. ne (got ∙ z))
              (alloc_cluster_loop_lem k (suc i) n fs1 content (omega arith) held
                (λ j le lt. cov j (omega arith) lt) small))
      ]

  -- With free clusters counted, and the clusters from the hint on inside a table that is ready,
  -- `fat_table_alloc_cluster` takes the first free cluster from the hint on: it sets the entry of
  -- this cluster and no other, counts one free cluster less and moves the hint to it. If none is
  -- free it returns CLUSTER_ALLOC_ERR and changes no entry.
  pub alloc_cluster_lem :
      (fs : FatFs d.State) (content : ℕ)
      → IsReady d fs
      → Covered fs fs.info.free_cluster fs.volume.cluster_count
      → fs.info.free_cluster ≤ fs.volume.cluster_count
      → fs.info.free_cluster_count ≢ 0
      → content < word
      → let (fs', c) = fat_table_alloc_cluster d fs content in
        Taken fs fs' content fs.info.free_cluster fs.volume.cluster_count c
        ⊎ ((c ≡ cluster_alloc_err)
            × NoneFree fs fs.info.free_cluster fs.volume.cluster_count
            × Holds d fs fs' (entry d fs))
  unfolding fat_table_alloc_cluster
  alloc_cluster_lem fs content r cov le ne small =
      rw (ne→==_false fs.info.free_cluster_count 0 ne) (
        alloc_cluster_loop_lem (fs.volume.cluster_count - fs.info.free_cluster) fs.info.free_cluster
          fs.volume.cluster_count fs content (omega arith) (Holds-refl fs r) cov small)

  -- How many clusters from `i` on, of `k`, are free in the entries `e`
  abbrev pub free_among : (ℕ → ℕ) → ℕ → ℕ → ℕ
  free_among e zero i = 0
  free_among e (suc k) i = (if e i == 0 then 1 else 0) + free_among e k (suc i)

  count_loop_lem :
      {fs0 : FatFs d.State} (k i n : ℕ) (fs : FatFs d.State) (count : ℕ)
      → i + k ≡ n
      → count + k < word
      → Holds d fs0 fs (entry d fs0)
      → Covered fs0 i n
      → let (fs', total) = count_loop d k i fs count in
        (total ≡ count + free_among (entry d fs0) k i) × Holds d fs0 fs' (entry d fs0)
  unfolding count_loop
  count_loop_lem zero i n fs count e small a cov = (omega arith, a)
  count_loop_lem {fs0} (suc k) i n fs count e small a cov =
      let (got, held) = read-Holds i a (cov i (omega arith) (omega arith)) in
      let fs1 = (fat_table_read d fs i).0 in
      let cov' : Covered fs0 (suc i) n = λ j le lt. cov j (omega arith) lt in
      let one : ℕ = if entry d fs0 i == 0 then 1 else 0 in
      let count' : ℕ = if (fat_table_read d fs i).1 == 0 then add32 count 1 else count in
      let step : count' ≡ count + one = ground (arith, got) in
      let le1 : one ≤ 1 = ground arith in
      let (total, held') =
        count_loop_lem k (suc i) n fs1 count' (omega arith) (omega (arith, step, le1)) held cov' in
      (omega (arith, total, step), held')

  -- With the clusters from the root cluster on inside a table that is ready,
  -- `free_cluster_count_read` returns the number of free clusters from the root cluster on, and the
  -- number of the root cluster besides; it changes no entry.
  pub free_count_lem :
      (fs : FatFs d.State)
      → IsReady d fs
      → Covered fs fs.info.root_cluster fs.volume.cluster_count
      → fs.info.root_cluster ≤ fs.volume.cluster_count
      → fs.volume.cluster_count < word
      → let (fs', total) = free_cluster_count_read d fs in
        let n = fs.volume.cluster_count - fs.info.root_cluster in
        (total ≡ fs.info.root_cluster + free_among (entry d fs) n fs.info.root_cluster)
        × Holds d fs fs' (entry d fs)
  unfolding free_cluster_count_read
  free_count_lem fs r cov le small =
      count_loop_lem (fs.volume.cluster_count - fs.info.root_cluster) fs.info.root_cluster
        fs.volume.cluster_count fs fs.info.root_cluster (omega arith) (omega arith)
        (Holds-refl fs r) cov

  first_free_loop_lem :
      {fs0 : FatFs d.State} (k i n : ℕ) (fs : FatFs d.State)
      → i + k ≡ n
      → n + 1 < word
      → Holds d fs0 fs (entry d fs0)
      → Covered fs0 i (suc n)
      → let (fs', c) = first_free_loop d k i fs in
        NoneFree fs0 i c
        × (((i ≤ c) × (c ≤ n) × (entry d fs0 c ≡ 0)) ⊎ (c ≡ suc n))
        × Holds d fs0 fs' (entry d fs0)
  unfolding first_free_loop
  first_free_loop_lem {fs0} zero i n fs e small a cov =
      let (got, held) = read-Holds i a (cov i (omega arith) (omega arith)) in
      elim (ℕ_discrete (fat_table_read d fs i).1 0) [
        | yes free ↦
            rw free (λ j le lt. omega arith, inl (omega arith, omega arith, sym got ∙ free), held)
        | no ne ↦ rw (ne→==_false (fat_table_read d fs i).1 0 ne) (
          NoneFree-suc fs0 i (add32 i 1) (λ z. ne (got ∙ z)) (λ j le lt. omega arith),
          inr (omega arith),
          held,
        )
      ]
  first_free_loop_lem {fs0} (suc k) i n fs e small a cov =
      let (got, held) = read-Holds i a (cov i (omega arith) (omega arith)) in
      let fs1 = (fat_table_read d fs i).0 in
      let out = first_free_loop d k (add32 i 1) fs1 in
      let next : add32 i 1 ≡ suc i = omega arith in
      let (none_free, found, held') =
        first_free_loop_lem k (add32 i 1) n fs1 (omega arith) small held
          (λ j le lt. cov j (omega arith) lt) in
      elim (ℕ_discrete (fat_table_read d fs i).1 0) [
        | yes free ↦
            rw free (λ j le lt. omega arith, inl (omega arith, omega arith, sym got ∙ free), held)
        | no ne ↦ rw (ne→==_false (fat_table_read d fs i).1 0 ne) (
          NoneFree-suc fs0 i out.1 (λ z. ne (got ∙ z))
              (λ j le lt. none_free j (omega (arith, next)) lt),
          elim found [
            | inl (low, high, free) ↦ inl (omega arith, high, free)
            | inr past ↦ inr past
          ],
          held',
        )
      ]

  -- With the clusters from the root cluster up to `cluster_count`, which is included, inside a table
  -- that is ready, `first_free_cluster_read` returns the first free cluster from the root cluster on
  -- if there is one, and `cluster_count + 1` otherwise; it changes no entry.
  pub first_free_lem :
      (fs : FatFs d.State)
      → IsReady d fs
      → Covered fs fs.info.root_cluster (suc fs.volume.cluster_count)
      → fs.info.root_cluster ≤ fs.volume.cluster_count
      → fs.volume.cluster_count + 1 < word
      → let (fs', c) = first_free_cluster_read d fs in
        NoneFree fs fs.info.root_cluster c
        × (((fs.info.root_cluster ≤ c) × (c ≤ fs.volume.cluster_count) × (entry d fs c ≡ 0))
            ⊎ (c ≡ suc fs.volume.cluster_count))
        × Holds d fs fs' (entry d fs)
  unfolding first_free_cluster_read
  first_free_lem fs r cov le small =
      first_free_loop_lem (fs.volume.cluster_count - fs.info.root_cluster) fs.info.root_cluster
        fs.volume.cluster_count fs (omega arith) small (Holds-refl fs r) cov
