-- ===== src/Fs/Dir/Names.antt =====
-- A file that file.c creates under a name, and the search of dir.c for this name.
use butos.Prelude.{
  ℕ, zero, suc, ◌+◌, ◌<◌, ◌≡◌, ◌≢◌, refl, ap, ap₂, sym, ◌∙◌, List, [], ◌∷◌, ◌++◌, map, length,
  replicate, get_or, drop, Bool-cases, inl, inr, append-nil, true, false, Option, none, some, ◌-◌,
  arith, ne→==_false, ◌==◌,
}
use butos.Fs.Entry.{Entry, file_entry_create, ctoupper, entry_name_copy}
use butos.Fs.Entry.Copies.{ArePlain, length-padded, entry_name_copy_lem}
use butos.Fs.Dir.{
  lower, before_space, short_name_str, strcmp_insensitive, compare_short_name, dir_search,
}
use butos.Fs.Dir.Search.{AreChars, strcmp_insensitive_lem}

ctoupper-plain : (c : ℕ) → c ≢ 32 → ctoupper c ≢ 32
unfolding ctoupper
ctoupper-plain c h = ground (arith, h)

lower-ctoupper : (c : ℕ) → lower (ctoupper c) ≡ lower c
unfolding ctoupper
lower-ctoupper c = ground arith

ctoupper-char : (c : ℕ) → (c ≢ 0) × (c < 256) → (ctoupper c ≢ 0) × (ctoupper c < 256)
unfolding ctoupper
ctoupper-char c (h, small) = (ground (arith, h), ground arith)

before_space_lem :
    (k p : ℕ) (xs n : List ℕ)
    → ArePlain xs
    → length xs + p ≡ k
    → before_space k ((map ctoupper xs ++ replicate p 32) ++ n) ≡ map ctoupper xs
unfolding before_space
before_space_lem zero p [] n plain e = refl
before_space_lem (suc k) zero [] n plain e = absurd (omega arith)
before_space_lem (suc k) (suc p) [] n plain e = refl
before_space_lem zero p (c ∷ xs) n plain e = absurd (omega arith)
before_space_lem (suc k) p (c ∷ xs) n ((nul, space, dot, small), plain) e =
    rw (ne→==_false (ctoupper c) 32 (ctoupper-plain c space))
      (ap (◌∷◌ (ctoupper c)) (before_space_lem k p xs n plain (omega arith)))

upper-AreChars : (xs : List ℕ) → ArePlain xs → AreChars (map ctoupper xs)
upper-AreChars [] plain = tt
upper-AreChars (c ∷ xs) ((nul, space, dot, small), plain) =
    let (not_nul, byte) = ctoupper-char c (nul, small) in (not_nul, byte, upper-AreChars xs plain)

ArePlain-AreChars : (xs : List ℕ) → ArePlain xs → AreChars xs
ArePlain-AreChars [] plain = tt
ArePlain-AreChars (c ∷ xs) ((nul, space, dot, small), plain) =
    (nul, small, ArePlain-AreChars xs plain)

dotted-AreChars : (xs ys : List ℕ) → AreChars xs → AreChars ys → AreChars (xs ++ 46 ∷ ys)
dotted-AreChars [] ys hx hy = (omega arith, omega arith, hy)
dotted-AreChars (c ∷ xs) ys (nul, small, hx) hy = (nul, small, dotted-AreChars xs ys hx hy)

lower-upper : (xs : List ℕ) → map lower (map ctoupper xs) ≡ map lower xs
lower-upper [] = refl
lower-upper (c ∷ xs) = ap₂ ◌∷◌ (lower-ctoupper c) (lower-upper xs)

lower-dotted :
    (xs ys : List ℕ)
    → map lower (map ctoupper xs ++ 46 ∷ map ctoupper ys) ≡ map lower (xs ++ 46 ∷ ys)
lower-dotted [] ys = ap (◌∷◌ (lower 46)) (lower-upper ys)
lower-dotted (c ∷ xs) ys = ap₂ ◌∷◌ (lower-ctoupper c) (lower-dotted xs ys)

get_or-after : (k : ℕ) (xs n : List ℕ) (d : ℕ) → length xs ≡ k → get_or (xs ++ n) k d ≡ get_or n 0 d
get_or-after zero [] n d e = refl
get_or-after zero (x ∷ xs) n d e = absurd (omega arith)
get_or-after (suc k) [] n d e = absurd (omega arith)
get_or-after (suc k) (x ∷ xs) n d e = get_or-after k xs n d (omega arith)

drop-after : (k : ℕ) (xs n : List ℕ) → length xs ≡ k → drop k (xs ++ n) ≡ n
drop-after zero [] n e = refl
drop-after zero (x ∷ xs) n e = absurd (omega arith)
drop-after (suc k) [] n e = absurd (omega arith)
drop-after (suc k) (x ∷ xs) n e = drop-after k xs n (omega arith)

short_name_str-parts :
    (name : List ℕ) {before after : List ℕ}
    → before_space 8 name ≡ before
    → (get_or name 8 0 == 32) ≡ false
    → before_space 3 (drop 8 name) ≡ after
    → short_name_str name ≡ before ++ 46 ∷ after
unfolding short_name_str
short_name_str-parts name e1 e2 e3 = rw (e1, e2, e3) refl

-- The short name of a name with an extension is printed in capitals.
short_name_str_lem :
    (p q e : ℕ) (base ext : List ℕ)
    → ArePlain base
    → ArePlain (e ∷ ext)
    → length base < 8
    → length base + p ≡ 8
    → length (e ∷ ext) + q ≡ 3
    → short_name_str (entry_name_copy (base ++ 46 ∷ e ∷ ext))
      ≡ map ctoupper base ++ 46 ∷ map ctoupper (e ∷ ext)
short_name_str_lem p q e base ext hb he short e1 e2 =
    let xs = map ctoupper base ++ replicate p 32 in
    let ys = map ctoupper (e ∷ ext) ++ replicate q 32 in
    let long = length-padded p base ∙ e1 in
    let written = entry_name_copy_lem p q base (e ∷ ext) hb he short e1 e2 in
    let extension =
      ap (before_space 3) (sym (append-nil ys)) ∙ before_space_lem 3 q (e ∷ ext) [] he e2 in
    ap short_name_str written
    ∙ short_name_str-parts (xs ++ ys) (before_space_lem 8 p base ys hb e1)
        (ap (λ c. c == 32) (get_or-after 8 xs ys 0 long)
          ∙ ne→==_false (ctoupper e) 32 (ctoupper-plain e he.0.1))
        (ap (before_space 3) (drop-after 8 xs ys long) ∙ extension)

-- A name whose part before the dot has one to seven characters and whose extension has one to three,
-- none of them a NUL, a space or a dot, is taken by `compare_short_name` to be the name of the entry
-- that `entry_name_copy` has written it to.
compare_short_name-entry_name_copy :
    (b e : ℕ) (base ext : List ℕ)
    → ArePlain (b ∷ base)
    → ArePlain (e ∷ ext)
    → length base < 7
    → length ext < 3
    → compare_short_name (entry_name_copy ((b ∷ base) ++ 46 ∷ e ∷ ext)) ((b ∷ base) ++ 46 ∷ e ∷ ext)
      ≡ 0
unfolding compare_short_name
compare_short_name-entry_name_copy b e base ext hb he h1 h2 =
    let str = base ++ 46 ∷ e ∷ ext in
    let upper = map ctoupper base ++ 46 ∷ map ctoupper (e ∷ ext) in
    let printed =
      short_name_str_lem (7 - length base) (2 - length ext) e (b ∷ base) ext hb he (omega arith)
        (omega arith) (omega arith) in
    let chars = ArePlain-AreChars (b ∷ base) hb in
    let capitals = upper-AreChars (b ∷ base) hb in
    ap (λ s. strcmp_insensitive s (b ∷ str)) printed
    ∙ (strcmp_insensitive_lem (ctoupper b) b upper str
          (dotted-AreChars (map ctoupper (b ∷ base)) (map ctoupper (e ∷ ext)) capitals
            (upper-AreChars (e ∷ ext) he))
          (dotted-AreChars (b ∷ base) (e ∷ ext) chars (ArePlain-AreChars (e ∷ ext) he))).1
        (lower-dotted base (e ∷ ext))

not_none : (e : Entry) → some e ≢ none
not_none e h = cc

dir_search-append :
    (xs ys : List (Option Entry)) (name : List ℕ)
    → dir_search true xs name ≡ none
    → dir_search true (xs ++ ys) name ≡ dir_search true ys name
unfolding dir_search
dir_search-append [] ys name h = refl
dir_search-append (none ∷ xs) ys name h = dir_search-append xs ys name h
dir_search-append (some e ∷ xs) ys name h =
    elim (Bool-cases (compare_short_name e.short_name name == 0)) [
      | inl found ↦ absurd (not_none e (rw found at h))
      | inr other ↦ rw other (dir_search-append xs ys name (rw other at h))
    ]

dir_search-here :
    (e : Entry) (rest : List (Option Entry)) (name : List ℕ)
    → compare_short_name e.short_name name ≡ 0
    → dir_search true (some e ∷ rest) name ≡ some e
unfolding dir_search
dir_search-here e rest name h = rw h refl

written :
    (name : List ℕ) (cluster : ℕ)
    → (file_entry_create name cluster).short_name ≡ entry_name_copy name
unfolding file_entry_create
written name cluster = refl

-- Of a name whose part before the dot has one to seven characters and whose extension has one to
-- three, none of them a NUL, a space or a dot: if `dir_search` finds no entry of this name in a
-- directory, it finds, once `file_entry_create` has made one and it stands behind them, this entry,
-- whatever follows it.
pub dir_search-file_entry_create :
    (b e cluster : ℕ) (base ext : List ℕ) (entries rest : List (Option Entry))
    → ArePlain (b ∷ base)
    → ArePlain (e ∷ ext)
    → length base < 7
    → length ext < 3
    → dir_search true entries ((b ∷ base) ++ 46 ∷ e ∷ ext) ≡ none
    → dir_search true
        (entries ++ some (file_entry_create ((b ∷ base) ++ 46 ∷ e ∷ ext) cluster) ∷ rest)
        ((b ∷ base) ++ 46 ∷ e ∷ ext)
      ≡ some (file_entry_create ((b ∷ base) ++ 46 ∷ e ∷ ext) cluster)
dir_search-file_entry_create b e cluster base ext entries rest hb he h1 h2 absent =
    let name = (b ∷ base) ++ 46 ∷ e ∷ ext in
    let made = file_entry_create name cluster in
    dir_search-append entries (some made ∷ rest) name absent
    ∙ dir_search-here made rest name (
        ap (λ s. compare_short_name s name) (written name cluster)
        ∙ compare_short_name-entry_name_copy b e base ext hb he h1 h2)
