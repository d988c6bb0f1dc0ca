-- ===== src/Fs/File/Paths.antt =====
-- file.c: the directory of a path. A string is the list of the characters before its NUL, and a NUL
-- written into it ends it.
use butos.Prelude.{
  ℕ, zero, suc, ◌+◌, ◌<◌, ◌≡◌, ◌≢◌, refl, ap, sym, ◌∙◌, List, [], ◌∷◌, ◌++◌, length, length-append,
  take, get_or, arith, ne→==_false, ◌==◌, if◌then◌else◌,
}

-- The loop of `rstrip_path` from the index `i` down; the index 0 is not looked at.
unfoldable pub rstrip_loop : (i : ℕ) → List ℕ → List ℕ
rstrip_loop zero path = path
rstrip_loop (suc i) path =
    let rest = rstrip_loop i path in if get_or path (suc i) 0 == 47 then take (suc i) path else rest

unfoldable pub rstrip_path : List ℕ → List ℕ
unfolding rstrip_loop
rstrip_path path = rstrip_loop (length path) path

abbrev pub HasNoSlash : List ℕ → Type 0
HasNoSlash [] = Unit
HasNoSlash (c ∷ cs) = (c ≢ 47) × HasNoSlash cs

no_slash_at : (name : List ℕ) (i : ℕ) → HasNoSlash name → get_or name i 0 ≢ 47
no_slash_at [] i h = omega arith
no_slash_at (c ∷ cs) zero h = h.0
no_slash_at (c ∷ cs) (suc i) h = no_slash_at cs i h.1

get_or-behind :
    (dir name : List ℕ) (i : ℕ)
    → get_or (dir ++ 47 ∷ name) (suc (length dir + i)) 0 ≡ get_or name i 0
get_or-behind [] name i = ap (λ k. get_or name k 0) (omega arith)
get_or-behind (c ∷ dir) name i =
    ap (λ k. get_or (dir ++ 47 ∷ name) k 0) {x = suc (length dir) + i} {y = suc (length dir + i)}
      (omega arith)
    ∙ get_or-behind dir name i

get_or-slash : (dir name : List ℕ) → get_or (dir ++ 47 ∷ name) (length dir) 0 ≡ 47
get_or-slash [] name = refl
get_or-slash (c ∷ dir) name = get_or-slash dir name

take-dir : (dir rest : List ℕ) → take (length dir) (dir ++ rest) ≡ dir
take-dir [] rest = refl
take-dir (c ∷ dir) rest = ap (◌∷◌ c) (take-dir dir rest)

rstrip_loop-step :
    (n : ℕ) (path : List ℕ)
    → get_or path (suc n) 0 ≢ 47
    → rstrip_loop (suc n) path ≡ rstrip_loop n path
unfolding rstrip_loop
rstrip_loop-step n path other = rw (ne→==_false (get_or path (suc n) 0) 47 other) refl

-- Where no slash stands at the next `k` indices, the loop goes on to `i`.
rstrip_loop-skip :
    (k i : ℕ) (path : List ℕ)
    → ((j : ℕ) → j < k → get_or path (suc (i + j)) 0 ≢ 47)
    → rstrip_loop (i + k) path ≡ rstrip_loop i path
rstrip_loop-skip zero i path h = ap (λ n. rstrip_loop n path) (omega arith)
rstrip_loop-skip (suc k) i path h =
    ap (λ n. rstrip_loop n path) {x = i + suc k} {y = suc (i + k)} (omega arith)
    ∙ rstrip_loop-step (i + k) path (h k (omega arith))
    ∙ rstrip_loop-skip k i path (λ j below. h j (omega arith))

rstrip_loop-stop :
    (n : ℕ) (path : List ℕ)
    → get_or path (suc n) 0 ≡ 47
    → rstrip_loop (suc n) path ≡ take (suc n) path
unfolding rstrip_loop
rstrip_loop-stop n path h = rw h refl

rstrip_path-below :
    (c : ℕ) (dir name : List ℕ) → HasNoSlash name → rstrip_path ((c ∷ dir) ++ 47 ∷ name) ≡ c ∷ dir
unfolding rstrip_path
rstrip_path-below c dir name h =
    let path = (c ∷ dir) ++ 47 ∷ name in
    let k = length name in
    ap (λ n. rstrip_loop n path) {x = length path} {y = length (c ∷ dir) + suc k}
      (length-append (c ∷ dir) (47 ∷ name))
    ∙ rstrip_loop-skip (suc k) (length (c ∷ dir)) path
        (λ j below e. no_slash_at name j h (sym (get_or-behind (c ∷ dir) name j) ∙ e))
    ∙ rstrip_loop-stop (length dir) path (get_or-slash (c ∷ dir) name)
    ∙ take-dir (c ∷ dir) (47 ∷ name)

rstrip_path-root : (c : ℕ) (name : List ℕ) → HasNoSlash name → rstrip_path (c ∷ name) ≡ c ∷ name
unfolding rstrip_path rstrip_loop
rstrip_path-root c name h =
    ap (λ n. rstrip_loop n (c ∷ name)) {x = suc (length name)} {y = 0 + suc (length name)}
      (omega arith)
    ∙ rstrip_loop-skip (suc (length name)) 0 (c ∷ name)
        (λ j below e. no_slash_at name j h (ap (λ k. get_or name k 0) (omega arith) ∙ e))

-- `rstrip_path` takes the last name off a path that has a character before its last slash, and does
-- not shorten a path whose only slash, if it has one, is its first character: of "/name" it does not
-- make the root directory.
pub rstrip_path_lem :
    (c : ℕ) (dir name : List ℕ)
    → HasNoSlash name
    → (rstrip_path ((c ∷ dir) ++ 47 ∷ name) ≡ c ∷ dir) × (rstrip_path (c ∷ name) ≡ c ∷ name)
rstrip_path_lem c dir name h = (rstrip_path-below c dir name h, rstrip_path-root c name h)
