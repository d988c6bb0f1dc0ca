-- ===== src/Fs/Dir/Search.antt =====
-- When two names are taken to be the same.
use butos.Prelude.{
  ℕ, ◌<◌, ◌≡◌, ◌≢◌, ◌↔◌, refl, ap, ap₂, sym, List, [], ◌∷◌, map, ◌==◌, if◌then◌else◌, arith,
  ℕ_discrete, ne→==_false, ==_iff,
}
use butos.Fs.Dir.{lower, first, behind, difference, strcmp_insensitive}

-- Characters of a string: bytes other than NUL
abbrev pub AreChars : List ℕ → Type 0
AreChars [] = Unit
AreChars (c ∷ cs) = (c ≢ 0) × (c < 256) × AreChars cs

difference_lem : (c d : ℕ) → c < 256 → d < 256 → (difference c d ≡ 0) ↔ (c ≡ d)
difference_lem c d hc hd = ground arith

lower-pos : (c : ℕ) → c ≢ 0 → lower c ≢ 0
lower-pos c h = ground (arith, h)

iff_never : {A B : Type 0} → ¬ A → ¬ B → A ↔ B
iff_never f g = (λ a. absurd (f a), λ b. absurd (g b))

nothing_left : (strcmp_insensitive [] [] ≡ 0) ↔ (◌≡◌ {A = List ℕ} [] [])
unfolding strcmp_insensitive
nothing_left = (λ z. refl, λ z. refl)

step :
    (c d : ℕ) (a b : List ℕ)
    → c ≢ 0
    → d ≢ 0
    → strcmp_insensitive (c ∷ a) (d ∷ b) ≡ (
        if lower (first a) == lower (first b)
        then strcmp_insensitive a b
        else difference (first a) (first b))
unfolding strcmp_insensitive
step c d a b hc hd = rw (ne→==_false c 0 hc, ne→==_false d 0 hd) refl

-- On strings that are not empty, `strcmp_insensitive` returns 0 just if they are equal but for the
-- case of letters and for their first characters, which it does not compare.
pub strcmp_insensitive_lem :
    (c d : ℕ) (a b : List ℕ)
    → AreChars (c ∷ a)
    → AreChars (d ∷ b)
    → (strcmp_insensitive (c ∷ a) (d ∷ b) ≡ 0) ↔ (map lower a ≡ map lower b)
strcmp_insensitive_lem c d [] [] s t = rw (step c d [] [] s.0 t.0) nothing_left
strcmp_insensitive_lem c d [] (f ∷ b) s t =
    let (nf, small, rest) = t.2 in
    rw (step c d [] (f ∷ b) s.0 t.0, ne→==_false 0 (lower f) (λ z. lower-pos f nf (sym z)))
      (iff_never (λ z. nf (sym ((difference_lem 0 f (omega arith) small).0 z)))
        (λ z. lower-pos f nf (sym (ap first z))))
strcmp_insensitive_lem c d (e ∷ a) [] s t =
    let (ne, small, rest) = s.2 in
    rw (step c d (e ∷ a) [] s.0 t.0, ne→==_false (lower e) 0 (lower-pos e ne))
      (iff_never (λ z. ne ((difference_lem e 0 small (omega arith)).0 z))
        (λ z. lower-pos e ne (ap first z)))
strcmp_insensitive_lem c d (e ∷ a) (f ∷ b) s t = elim (ℕ_discrete (lower e) (lower f)) [
  | yes same ↦
      let rest = strcmp_insensitive_lem e f a b s.2 t.2 in
      rw (step c d (e ∷ a) (f ∷ b) s.0 t.0, (==_iff (lower e) (lower f)).1 same)
        (λ z. ap₂ ◌∷◌ same (rest.0 z), λ z. rest.1 (ap behind z))
  | no other ↦
      let (ne, small_e, rest_e) = s.2 in
      let (nf, small_f, rest_f) = t.2 in
      rw (step c d (e ∷ a) (f ∷ b) s.0 t.0, ne→==_false (lower e) (lower f) other)
        (iff_never (λ z. other (ap lower ((difference_lem e f small_e small_f).0 z)))
          (λ z. other (ap first z)))
]
