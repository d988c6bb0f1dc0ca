-- ===== src/Fs/Tree/Names.antt =====
-- The names of a path.
use butos.Prelude.{
  ℕ, zero, true, suc, ◌+◌, ◌<◌, ◌≡◌, ◌≢◌, refl, ap, sym, ◌∙◌, Option, none, some, List, [], ◌∷◌,
  ◌++◌, length, arith, ne→==_false, ◌==◌, Option-cases, if_intro, inl, inr,
}
use butos.Fs.Disk.{Drive}
use butos.Fs.Volume.{FatFs}
use butos.Fs.Entry.{Entry}
use butos.Fs.Dir.{dir_search}
use butos.Fs.DirScan.{Dir, dir_scan}
use butos.Fs.File.Paths.{HasNoSlash}
use butos.Fs.Tree.{first_name, dir_init, search_name, search_path, dir_search_path}

first_name-long :
    (k : ℕ) (name rest : List ℕ)
    → HasNoSlash name
    → length name ≡ k
    → first_name k (name ++ rest) ≡ (name, rest)
unfolding first_name
first_name-long zero [] rest h e = refl
first_name-long zero (c ∷ name) rest h e = absurd (omega arith)
first_name-long (suc k) [] rest h e = absurd (omega arith)
first_name-long (suc k) (c ∷ name) rest h e =
    rw (ne→==_false c 47 h.0)
      (ap (λ r. (c ∷ r.0, r.1)) (first_name-long k name rest h.1 (omega arith)))

module _ (d : Drive) (low : List ℕ) where
  search_name-other :
      (below : FatFs d.State → List (Option Entry) → List ℕ → Option (FatFs d.State × Option Entry))
      (fuel : ℕ) (fs : FatFs d.State) (found : Option Entry) (rest : List ℕ) (c : ℕ)
      → c ≢ 47
      → search_name d low below fuel fs found (c ∷ rest) ≡ some (fs, none)
  unfolding search_name
  search_name-other below fuel fs none rest c other = refl
  search_name-other below fuel fs (some entry) rest c other = rw (ne→==_false c 47 other) refl

  pub search_path-step :
      (rounds fuel : ℕ) (fs : FatFs d.State) (entries : List (Option Entry)) (path : List ℕ)
      → search_path d low (suc rounds) fuel fs entries path ≡ (
          let (filename, rest) = first_name 11 path in
          search_name d low
            (search_path d low rounds fuel)
            fuel
            fs
            (dir_search true entries filename)
            rest)
  unfolding search_path
  search_path-step rounds fuel fs entries path = refl

  -- A path whose first name has more than eleven characters is not found by `dir_search_path`, even if
  -- an entry has this name, as one of eight characters with an extension of three has.
  pub dir_search_path-long :
      (fuel : ℕ) (fs : FatFs d.State) (dir : Dir) (name rest : List ℕ) (c : ℕ)
      → HasNoSlash name
      → length name ≡ 11
      → c ≢ 47
      → dir_search_path d low fuel fs dir (name ++ c ∷ rest) ≡ some (fs, none)
  unfolding dir_search_path
  dir_search_path-long fuel fs dir name rest c h e other =
      let path = name ++ c ∷ rest in
      let below = search_path d low (length path) fuel in
      ap (λ r. search_path d low r fuel fs dir.entries path) {x = length path + 1}
        {y = suc (length path)} (omega arith)
      ∙ search_path-step (length path) fuel fs dir.entries path
      ∙ ap (λ r. search_name d low below fuel fs (dir_search true dir.entries r.0) r.1)
          (first_name-long 11 name (c ∷ rest) h e)
      ∙ search_name-other below fuel fs (dir_search true dir.entries name) rest c other

first_name-shorter : (k : ℕ) (path : List ℕ) → length (first_name k path).1 < suc (length path)
unfolding first_name
first_name-shorter zero path = omega arith
first_name-shorter (suc k) [] = omega arith
first_name-shorter (suc k) (c ∷ path) =
    if_intro (λ (r : List ℕ × List ℕ). length r.1 < suc (suc (length path))) (c == 47) (omega arith)
      (omega (arith, first_name-shorter k path))

module _ (d : Drive) (low : List ℕ) where
  search_name-same :
      (f g : FatFs d.State → List (Option Entry) → List ℕ → Option (FatFs d.State × Option Entry))
      (fuel : ℕ) (fs : FatFs d.State) (found : Option Entry) (rest : List ℕ)
      → ((fs' : FatFs d.State) (entries : List (Option Entry)) (path : List ℕ)
          → length path < length rest
          → f fs' entries path ≡ g fs' entries path)
      → search_name d low f fuel fs found rest ≡ search_name d low g fuel fs found rest
  unfolding search_name
  search_name-same f g fuel fs none rest same = refl
  search_name-same f g fuel fs (some entry) [] same = refl
  search_name-same f g fuel fs (some entry) (c ∷ behind) same =
      elim (Option-cases (dir_init d low fuel fs entry)) [
        | inl diverges ↦ rw diverges refl
        | inr ((fs1, sized, made), opened) ↦
            let (dir, fs2) = dir_scan d made fs1 in
            rw (opened, same fs2 dir.entries behind (omega arith)) refl
      ]

  -- `dir_search_path` calls itself at most once more than its path has characters: with any larger
  -- number of rounds the search has the same result.
  pub dir_search_path-enough :
      (rounds fuel : ℕ) (fs : FatFs d.State) (dir : Dir) (path : List ℕ)
      → length path < rounds
      → search_path d low rounds fuel fs dir.entries path ≡ dir_search_path d low fuel fs dir path
  unfolding dir_search_path
  dir_search_path-enough rounds fuel fs dir path h =
      go rounds (length path + 1) fs dir.entries path h (omega arith)
    where
      go :
          (r s : ℕ) (fs' : FatFs d.State) (entries : List (Option Entry)) (p : List ℕ)
          → length p < r
          → length p < s
          → search_path d low r fuel fs' entries p ≡ search_path d low s fuel fs' entries p
      go zero s fs' entries p h1 h2 = absurd (omega arith)
      go (suc r) zero fs' entries p h1 h2 = absurd (omega arith)
      go (suc r) (suc s) fs' entries p h1 h2 =
          let (filename, rest) = first_name 11 p in
          let shorter : length rest < suc (length p) = first_name-shorter 11 p in
          search_path-step d low r fuel fs' entries p
          ∙ search_name-same (search_path d low r fuel) (search_path d low s fuel) fuel fs'
              (dir_search true entries filename) rest
              (λ fs2 es q below. go r s fs2 es q (omega arith) (omega arith))
          ∙ sym (search_path-step d low s fuel fs' entries p)
