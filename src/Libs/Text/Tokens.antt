-- ===== src/Libs/Text/Tokens.antt =====
-- `strsep` takes a string apart at its delimiters.
use butos.Prelude.{
  ℕ, suc, ◌+◌, ◌<◌, ◌≡◌, ◌≢◌, refl, ap, sym, ◌∙◌, subst, true, Option, none, some, List, [], ◌∷◌,
  ◌==◌, if◌then◌else◌, length, arith, ne→==_false, Bool-cases, inl, inr, ==_iff,
}
use butos.Libs.Memory.{Memory, store}
use butos.Libs.Allocator.{null}
use butos.Libs.Search.Lengths.{IsString}
use butos.Libs.Search.Spans.{is_delimiter, before, strcspn_lem}
use butos.Libs.Text.{strsep}
use butos.Libs.Text.Copies.{IsString-same}

-- The characters behind the first delimiter, if there is one
abbrev pub behind : List ℕ → List ℕ → Option (List ℕ)
behind ds [] = none
behind ds (c ∷ cs) = let rest = behind ds cs in if is_delimiter ds c then some cs else rest

-- What is left of the string behind the token that ends at `p`
abbrev pub Left : Memory → (p next : ℕ) → Option (List ℕ) → Type 0
Left mem p next none = next ≡ null
Left mem p next (some cs) = (next ≡ p + 1) × IsString mem next cs

-- The token stands at `s`, what is behind it at `next`, and at most the byte behind the token changed.
pub record Separated (mem : Memory) (s : ℕ) (cs ds : List ℕ) (out : Option (Memory × ℕ × ℕ))
    : Type 0 where
  pub memory : Memory
  pub next : ℕ
  pub result : out ≡ some (memory, next, s)
  pub token : IsString memory s (before ds cs)
  pub left : Left memory (s + length (before ds cs)) next (behind ds cs)
  pub frame : (a : ℕ) → a ≢ s + length (before ds cs) → memory a ≡ mem a

pub shift : (p n : ℕ) → p + 1 + n ≡ p + suc n
shift p n = omega arith

abbrev pub Part : Memory → ℕ → Option (List ℕ) → Type 0
Part mem e none = mem e ≡ 0
Part mem e (some rest) = (mem e ≢ 0) × IsString mem (e + 1) rest

-- At the end of the first part stands a delimiter, and behind it the rest, or else the NUL.
pub parts :
    (mem : Memory) (p : ℕ) (cs ds : List ℕ)
    → IsString mem p cs
    → Part mem (p + length (before ds cs)) (behind ds cs)
parts mem p [] ds s = ap mem (omega arith) ∙ s
parts mem p (c ∷ cs) ds (at, not_nul, s) = elim (Bool-cases (is_delimiter ds c)) [
  | inl stop ↦
      let here : p ≡ p + 0 = omega arith in
      rw stop (subst (λ e. Part mem e (some cs)) here ((λ z. not_nul (sym at ∙ z)), s))
  | inr more ↦ rw more (
      subst (λ e. Part mem e (behind ds cs)) (shift p (length (before ds cs)))
        (parts mem (p + 1) cs ds s))
]

-- The token is a string once a NUL stands behind it.
before-IsString :
    (mem : Memory) (p : ℕ) (cs ds : List ℕ)
    → IsString mem p cs
    → IsString (store mem (p + length (before ds cs)) 0) p (before ds cs)
before-IsString mem p [] ds s = ground arith
before-IsString mem p (c ∷ cs) ds (at, not_nul, s) = elim (Bool-cases (is_delimiter ds c)) [
  | inl stop ↦ rw stop (ground arith)
  | inr more ↦ rw more (
    ground (arith, at),
    not_nul,
    subst (λ e. IsString (store mem e 0) (p + 1) (before ds cs)) (shift p (length (before ds cs)))
        (before-IsString mem (p + 1) cs ds s),
  )
]

-- Where there is no delimiter the token is the string.
pub before-all : (cs ds : List ℕ) → behind ds cs ≡ none → before ds cs ≡ cs
before-all [] ds e = refl
before-all (c ∷ cs) ds e = elim (Bool-cases (is_delimiter ds c)) [
  | inl stop ↦ absurd (cc (rw stop at e))
  | inr more ↦ rw more (ap (◌∷◌ c) (before-all cs ds (rw more at e)))
]

-- On a string and a string of delimiters, `strsep` returns the characters before the first delimiter,
-- as a string in its place, and moves the pointer to the string behind the delimiter, or to NULL where
-- there is none; it changes no byte but the delimiter, which becomes a NUL.
pub strsep_lem :
    (fuel : ℕ) (mem : Memory) (s d : ℕ) (cs ds : List ℕ)
    → s ≢ null
    → IsString mem s cs
    → IsString mem d ds
    → length cs < fuel
    → length ds < fuel
    → Separated mem s cs ds (strsep fuel mem s d)
unfolding strsep
strsep_lem fuel mem s d cs ds present string delims enough fits =
    separate (behind ds cs) refl (parts mem s cs ds string)
  where
    separate :
        (o : Option (List ℕ))
        → behind ds cs ≡ o
        → Part mem (s + length (before ds cs)) o
        → Separated mem s cs ds (strsep fuel mem s d)
    separate none e nul =
        let n = length (before ds cs) in
        let at_end : (mem (s + n) == 0) ≡ true = (==_iff (mem (s + n)) 0).1 nul in
        rw
          (
            strsep,
            ne→==_false s 0 present,
            strcspn_lem fuel mem s d cs ds string delims enough fits,
            at_end,
          )
          (record {
            memory = mem;
            next = null;
            result = refl;
            token = subst (IsString mem s) (sym (before-all cs ds e)) string;
            left = subst (Left mem (s + n) null) (sym e) refl;
            frame = λ a h. refl;
          })
    separate (some rest) e (not_nul, tail) =
        let n = length (before ds cs) in
        let mem' = store mem (s + n) 0 in
        rw
          (
            strsep,
            ne→==_false s 0 present,
            strcspn_lem fuel mem s d cs ds string delims enough fits,
            ne→==_false (mem (s + n)) 0 not_nul,
          )
          (record {
            memory = mem';
            next = s + n + 1;
            result = refl;
            token = before-IsString mem s cs ds string;
            left =
                subst (Left mem' (s + n) (s + n + 1)) (sym e)
                  (refl, IsString-same mem mem' (s + n + 1) rest (λ a lo hi. ground arith) tail);
            frame = λ a h. ground (arith, h);
          })
