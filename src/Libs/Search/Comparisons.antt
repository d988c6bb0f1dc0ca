-- ===== src/Libs/Search/Comparisons.antt =====
-- When a comparison finds its arguments equal.
use butos.Prelude.{
  ℕ, zero, suc, ◌+◌, ◌<◌, ◌≡◌, ◌≢◌, ◌↔◌, refl, ap, ap₂, sym, ◌∙◌, some, List, [], ◌∷◌, length, take,
  arith, ne→==_false, ℕ_discrete, ==_iff,
}
use butos.Libs.Memory.{Memory}
use butos.Libs.Search.{byte_difference, char_difference, memcmp, strcmp, strncmp}
use butos.Libs.Search.Lengths.{IsString}

-- Every address holds a byte.
abbrev pub AreBytes : Memory → Type 0
AreBytes mem = (a : ℕ) → mem a < 256

-- The `n` bytes from `p` on are those from `q` on.
abbrev pub Same : Memory → ℕ → ℕ → ℕ → Type 0
Same mem p q n = (i : ℕ) → i < n → mem (p + i) ≡ mem (q + i)

byte_difference_lem :
    (mem : Memory) (p q : ℕ) → AreBytes mem → (byte_difference mem p q ≡ 0) ↔ (mem p ≡ mem q)
byte_difference_lem mem p q b = let x = b p in let y = b q in grind arith

char_difference_lem :
    (mem : Memory) (p q : ℕ) → AreBytes mem → (char_difference mem p q ≡ 0) ↔ (mem p ≡ mem q)
char_difference_lem mem p q b = let x = b p in let y = b q in ground arith

Same-suc :
    (mem : Memory) (p q n : ℕ) → mem p ≡ mem q → Same mem (p + 1) (q + 1) n ↔ Same mem p q (suc n)
Same-suc mem p q n e = (forth, back)
  where
    forth : Same mem (p + 1) (q + 1) n → Same mem p q (suc n)
    forth s zero h = ap mem (omega arith) ∙ e ∙ ap mem (omega arith)
    forth s (suc i) h = ap mem (omega arith) ∙ s i (omega arith) ∙ ap mem (omega arith)

    back : Same mem p q (suc n) → Same mem (p + 1) (q + 1) n
    back s i h = ap mem (omega arith) ∙ s (suc i) (omega arith) ∙ ap mem (omega arith)

-- `memcmp` returns 0 just if `n + 1` bytes are equal: it compares the byte behind the last one too.
pub memcmp_lem :
    (mem : Memory) (p q n : ℕ) → AreBytes mem → (memcmp mem p q n ≡ 0) ↔ Same mem p q (suc n)
unfolding memcmp
memcmp_lem mem p q zero b =
    let d = byte_difference_lem mem p q b in
    (
      λ z. (Same-suc mem p q 0 (d.0 z)).0 (λ i h. absurd (omega arith)),
      λ s. d.1 (ap mem (omega arith) ∙ s 0 (omega arith) ∙ ap mem (omega arith)),
    )
memcmp_lem mem p q (suc n) b =
    let d = byte_difference_lem mem p q b in
    elim (ℕ_discrete (mem p) (mem q)) [
      | yes e ↦
          let rest = memcmp_lem mem (p + 1) (q + 1) n b in
          let s = Same-suc mem p q (suc n) e in
          rw ((==_iff (mem p) (mem q)).1 e) (λ z. s.0 (rest.0 z), λ same. rest.1 (s.1 same))
      | no ne ↦ rw (ne→==_false (mem p) (mem q) ne) (
        λ z. absurd (ne (d.0 z)),
        λ s. absurd (ne (ap mem (omega arith) ∙ s 0 (omega arith) ∙ ap mem (omega arith))),
      )
    ]

abbrev head : List ℕ → ℕ
head [] = 0
head (c ∷ cs) = c

abbrev tail : List ℕ → List ℕ
tail [] = []
tail (c ∷ cs) = cs

cons_iff : (c d : ℕ) (cs ds : List ℕ) → c ≡ d → (cs ≡ ds) ↔ (◌∷◌ c cs ≡ d ∷ ds)
cons_iff c d cs ds e = (λ f. ap₂ ◌∷◌ e f, λ f. ap tail f)

iff_trans {ℓ} : {A B C : Type ℓ} → A ↔ B → B ↔ C → A ↔ C
iff_trans f g = (λ a. g.0 (f.0 a), λ c. f.1 (g.1 c))

iff_never : {A B : Type 0} → ¬ A → ¬ B → A ↔ B
iff_never f g = (λ a. absurd (f a), λ b. absurd (g b))

-- The character at the start of a string, or its NUL
start_of : (mem : Memory) (p : ℕ) (cs : List ℕ) → IsString mem p cs → mem p ≡ head cs
start_of mem p [] s = s
start_of mem p (c ∷ cs) s = s.0

-- Where the first characters differ
differ :
    (mem : Memory) (p q : ℕ) (cs ds : List ℕ)
    → AreBytes mem
    → IsString mem p cs
    → IsString mem q ds
    → mem p ≢ mem q
    → (char_difference mem p q ≡ 0) ↔ (cs ≡ ds)
differ mem p q cs ds b s t ne =
    iff_never (λ z. ne ((char_difference_lem mem p q b).0 z))
      (λ e. ne (start_of mem p cs s ∙ ap head e ∙ sym (start_of mem q ds t)))

head-take : (n : ℕ) (cs : List ℕ) → head (take (suc n) cs) ≡ head cs
head-take n [] = refl
head-take n (c ∷ cs) = refl

take_differ :
    (mem : Memory) (p q n : ℕ) (cs ds : List ℕ)
    → AreBytes mem
    → IsString mem p cs
    → IsString mem q ds
    → mem p ≢ mem q
    → (char_difference mem p q ≡ 0) ↔ (take (suc n) cs ≡ take (suc n) ds)
take_differ mem p q n cs ds b s t ne =
    iff_never (λ z. ne ((char_difference_lem mem p q b).0 z))
      (λ e. ne (
        start_of mem p cs s
        ∙ sym (head-take n cs)
        ∙ ap head e
        ∙ head-take n ds
        ∙ sym (start_of mem q ds t)))

-- On strings `strncmp` returns 0 just if they agree on their first `n + 1` characters: it compares the
-- character behind the last one too.
pub strncmp_lem :
    (mem : Memory) (p q n : ℕ) (cs ds : List ℕ)
    → AreBytes mem
    → IsString mem p cs
    → IsString mem q ds
    → (strncmp mem p q n ≡ 0) ↔ (take (suc n) cs ≡ take (suc n) ds)
unfolding strncmp
strncmp_lem mem p q zero [] [] b s t = rw (s, t) (λ z. refl, λ z. refl)
strncmp_lem mem p q zero [] (d ∷ ds) b s t =
    take_differ mem p q 0 [] (d ∷ ds) b s t (λ e. t.1 (sym t.0 ∙ sym e ∙ s))
strncmp_lem mem p q zero (c ∷ cs) [] b s t =
    take_differ mem p q 0 (c ∷ cs) [] b s t (λ e. s.1 (sym s.0 ∙ e ∙ t))
strncmp_lem mem p q zero (c ∷ cs) (d ∷ ds) b s t = (
  λ z. ap (λ x. x ∷ []) (sym s.0 ∙ (char_difference_lem mem p q b).0 z ∙ t.0),
  λ e. (char_difference_lem mem p q b).1 (s.0 ∙ ap head e ∙ sym t.0),
)
strncmp_lem mem p q (suc n) [] [] b s t = rw (s, t) (λ z. refl, λ z. refl)
strncmp_lem mem p q (suc n) [] (d ∷ ds) b s t =
    let ne : mem p ≢ mem q = λ e. t.1 (sym t.0 ∙ sym e ∙ s) in
    rw (ne→==_false (mem p) (mem q) ne) (take_differ mem p q (suc n) [] (d ∷ ds) b s t ne)
strncmp_lem mem p q (suc n) (c ∷ cs) [] b s t =
    let ne : mem p ≢ mem q = λ e. s.1 (sym s.0 ∙ e ∙ t) in
    rw (ne→==_false (mem p) (mem q) ne) (take_differ mem p q (suc n) (c ∷ cs) [] b s t ne)
strncmp_lem mem p q (suc n) (c ∷ cs) (d ∷ ds) b s t = elim (ℕ_discrete (mem p) (mem q)) [
  | yes e ↦
      rw
        (
          (==_iff (mem p) (mem q)).1 e,
          ne→==_false (mem p) 0 (λ z. s.1 (sym s.0 ∙ z)),
          ne→==_false (mem q) 0 (λ z. t.1 (sym t.0 ∙ z)),
        )
        (iff_trans (strncmp_lem mem (p + 1) (q + 1) n cs ds b s.2 t.2)
          (cons_iff c d (take (suc n) cs) (take (suc n) ds) (sym s.0 ∙ e ∙ t.0)))
  | no ne ↦
      rw (ne→==_false (mem p) (mem q) ne) (take_differ mem p q (suc n) (c ∷ cs) (d ∷ ds) b s t ne)
]

-- On strings, with more fuel than the first has characters, `strcmp` returns, and returns 0 just if
-- they are equal.
pub strcmp_lem :
    (fuel : ℕ) (mem : Memory) (p q : ℕ) (cs ds : List ℕ)
    → AreBytes mem
    → IsString mem p cs
    → IsString mem q ds
    → length cs < fuel
    → (r : ℕ) × (strcmp fuel mem p q ≡ some r) × ((r ≡ 0) ↔ (cs ≡ ds))
unfolding strcmp
strcmp_lem zero mem p q cs ds b s t enough = absurd (omega arith)
strcmp_lem (suc fuel) mem p q [] [] b s t enough = (0, rw (s, t) refl, (λ z. refl, λ z. refl))
strcmp_lem (suc fuel) mem p q [] (d ∷ ds) b s t enough =
    let ne : mem p ≢ mem q = λ e. t.1 (sym t.0 ∙ sym e ∙ s) in
    (
      char_difference mem p q,
      rw (ne→==_false (mem p) (mem q) ne) refl,
      differ mem p q [] (d ∷ ds) b s t ne,
    )
strcmp_lem (suc fuel) mem p q (c ∷ cs) [] b s t enough =
    let ne : mem p ≢ mem q = λ e. s.1 (sym s.0 ∙ e ∙ t) in
    (
      char_difference mem p q,
      rw (ne→==_false (mem p) (mem q) ne) refl,
      differ mem p q (c ∷ cs) [] b s t ne,
    )
strcmp_lem (suc fuel) mem p q (c ∷ cs) (d ∷ ds) b s t enough = elim (ℕ_discrete (mem p) (mem q)) [
  | yes e ↦
      let (r, got, zero_iff) = strcmp_lem fuel mem (p + 1) (q + 1) cs ds b s.2 t.2 (omega arith) in
      (
        r,
        rw
            (
              (==_iff (mem p) (mem q)).1 e,
              ne→==_false (mem p) 0 (λ z. s.1 (sym s.0 ∙ z)),
              ne→==_false (mem q) 0 (λ z. t.1 (sym t.0 ∙ z)),
            )
            got,
        iff_trans zero_iff (cons_iff c d cs ds (sym s.0 ∙ e ∙ t.0)),
      )
  | no ne ↦ (
    char_difference mem p q,
    rw (ne→==_false (mem p) (mem q) ne) refl,
    differ mem p q (c ∷ cs) (d ∷ ds) b s t ne,
  )
]
