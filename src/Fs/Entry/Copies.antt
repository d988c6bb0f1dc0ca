-- ===== src/Fs/Entry/Copies.antt =====
-- The short name that file.c makes of a file name with an extension.
use butos.Prelude.{
  ℕ, zero, suc, ◌+◌, ◌<◌, ◌≡◌, ◌≢◌, refl, ap, ◌∙◌, List, [], ◌∷◌, ◌++◌, map, length, replicate,
  get_or, set, Bool-cases, inl, inr, arith, ne→==_false, ◌==◌,
}
use butos.Fs.Entry.{ctoupper, copy_base, copy_ext, entry_name_copy}

-- Characters that a short name can hold: bytes other than NUL, the space and the dot
abbrev pub ArePlain : List ℕ → Type 0
ArePlain [] = Unit
ArePlain (c ∷ cs) = ((c ≢ 0) × (c ≢ 32) × (c ≢ 46) × (c < 256)) × ArePlain cs

next : (j : ℕ) → suc j + 1 ≡ suc (j + 1)
next j = omega arith

copy_base-behind :
    (k j x y : ℕ) (f n : List ℕ)
    → copy_base k (suc j) (x ∷ f) (y ∷ n) ≡ (y ∷ (copy_base k j f n).0, suc (copy_base k j f n).1)
unfolding copy_base
copy_base-behind zero j x y f n = refl
copy_base-behind (suc k) j x y f n =
    let c = get_or f j 0 in
    elim (Bool-cases (c == 0)) [
      | inl ends ↦ rw ends refl
      | inr more ↦ elim (Bool-cases (c == 46)) [
        | inl dot ↦ rw (more, dot, next j) refl
        | inr other ↦
            rw (more, other, next j) (copy_base-behind k (j + 1) x y f (set n j (ctoupper c)))
      ]
    ]

copy_base_lem :
    (k m p : ℕ) (base ext n : List ℕ)
    → ArePlain base
    → length base < k
    → length base + p ≡ m
    → copy_base k 0 (base ++ 46 ∷ ext) (replicate m 32 ++ n)
      ≡ ((map ctoupper base ++ replicate p 32) ++ n, suc (length base))
unfolding copy_base
copy_base_lem zero m p base ext n plain h e = absurd (omega arith)
copy_base_lem (suc k) m p [] ext n plain h e =
    ap (λ i. (replicate i 32 ++ n, 1)) {x = m} {y = p} (omega arith)
copy_base_lem (suc k) zero p (c ∷ base) ext n plain h e = absurd (omega arith)
copy_base_lem (suc k) (suc m) p (c ∷ base) ext n ((nul, space, dot, small), plain) h e =
    rw (ne→==_false c 0 nul, ne→==_false c 46 dot)
      (copy_base-behind k 0 c (ctoupper c) (base ++ 46 ∷ ext) (replicate m 32 ++ n)
        ∙ ap (λ r. (ctoupper c ∷ r.0, suc r.1))
            (copy_base_lem k m p base ext n plain (omega arith) (omega arith)))

copy_ext-behind_name :
    (k at j y : ℕ) (f n : List ℕ) → copy_ext k (suc at) j f (y ∷ n) ≡ y ∷ copy_ext k at j f n
unfolding copy_ext
copy_ext-behind_name zero at j y f n = refl
copy_ext-behind_name (suc k) at j y f n = elim (Bool-cases (get_or f j 0 == 0)) [
  | inl ends ↦ rw ends refl
  | inr more ↦
      rw (more, next at)
        (copy_ext-behind_name k (at + 1) (j + 1) y f (set n at (ctoupper (get_or f j 0))))
]

copy_ext-behind_file :
    (k at j x : ℕ) (f n : List ℕ) → copy_ext k at (suc j) (x ∷ f) n ≡ copy_ext k at j f n
unfolding copy_ext
copy_ext-behind_file zero at j x f n = refl
copy_ext-behind_file (suc k) at j x f n = elim (Bool-cases (get_or f j 0 == 0)) [
  | inl ends ↦ rw ends refl
  | inr more ↦
      rw (more, next j)
        (copy_ext-behind_file k (at + 1) (j + 1) x f (set n at (ctoupper (get_or f j 0))))
]

-- The name before the extension is kept, and the file name before it is not read.
copy_ext-after_name :
    (k at j : ℕ) (f xs n : List ℕ)
    → length xs ≡ at
    → copy_ext k at j f (xs ++ n) ≡ xs ++ copy_ext k 0 j f n
copy_ext-after_name k zero j f [] n e = refl
copy_ext-after_name k zero j f (x ∷ xs) n e = absurd (omega arith)
copy_ext-after_name k (suc at) j f [] n e = absurd (omega arith)
copy_ext-after_name k (suc at) j f (x ∷ xs) n e =
    copy_ext-behind_name k at j x f (xs ++ n)
    ∙ ap (◌∷◌ x) (copy_ext-after_name k at j f xs n (omega arith))

copy_ext-after_dot :
    (k : ℕ) (base ext n : List ℕ)
    → copy_ext k 0 (suc (length base)) (base ++ 46 ∷ ext) n ≡ copy_ext k 0 0 ext n
copy_ext-after_dot k [] ext n = copy_ext-behind_file k 0 0 46 ext n
copy_ext-after_dot k (c ∷ base) ext n =
    copy_ext-behind_file k 0 (suc (length base)) c (base ++ 46 ∷ ext) n
    ∙ copy_ext-after_dot k base ext n

copy_ext_lem :
    (k q : ℕ) (ext : List ℕ)
    → ArePlain ext
    → length ext + q ≡ k
    → copy_ext k 0 0 ext (replicate k 32) ≡ map ctoupper ext ++ replicate q 32
unfolding copy_ext
copy_ext_lem zero q [] plain e = ap (λ i. replicate i 32) {x = 0} {y = q} (omega arith)
copy_ext_lem zero q (c ∷ ext) plain e = absurd (omega arith)
copy_ext_lem (suc k) q [] plain e = ap (λ i. replicate i 32) {x = suc k} {y = q} (omega arith)
copy_ext_lem (suc k) q (c ∷ ext) ((nul, space, dot, small), plain) e = rw (ne→==_false c 0 nul) (
    copy_ext-behind_name k 0 1 (ctoupper c) (c ∷ ext) (replicate k 32)
    ∙ ap (◌∷◌ (ctoupper c)) (
        copy_ext-behind_file k 0 0 c ext (replicate k 32)
        ∙ copy_ext_lem k q ext plain (omega arith)))

pub length-padded :
    (p : ℕ) (xs : List ℕ) → length (map ctoupper xs ++ replicate p 32) ≡ length xs + p
length-padded zero [] = refl
length-padded (suc p) [] = omega (arith, length-padded p [])
length-padded p (x ∷ xs) = omega (arith, length-padded p xs)

pub entry_name_copy_lem :
    (p q : ℕ) (base ext : List ℕ)
    → ArePlain base
    → ArePlain ext
    → length base < 8
    → length base + p ≡ 8
    → length ext + q ≡ 3
    → entry_name_copy (base ++ 46 ∷ ext)
      ≡ (map ctoupper base ++ replicate p 32) ++ (map ctoupper ext ++ replicate q 32)
unfolding entry_name_copy
entry_name_copy_lem p q base ext hb he short e1 e2 =
    let copied = copy_base_lem 8 8 p base ext (replicate 3 32) hb short e1 in
    let xs = map ctoupper base ++ replicate p 32 in
    ap (λ r. copy_ext 3 8 r.1 (base ++ 46 ∷ ext) r.0) copied
    ∙ copy_ext-after_name 3 8 (suc (length base)) (base ++ 46 ∷ ext) xs (replicate 3 32)
        (length-padded p base ∙ e1)
    ∙ ap (λ n. xs ++ n)
        (copy_ext-after_dot 3 base ext (replicate 3 32) ∙ copy_ext_lem 3 q ext he e2)
