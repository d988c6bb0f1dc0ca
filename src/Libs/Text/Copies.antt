-- ===== src/Libs/Text/Copies.antt =====
-- What the copies of strings leave in memory.
use butos.Prelude.{
  ℕ, zero, suc, ◌+◌, ◌≤◌, ◌<◌, ◌≡◌, ◌≢◌, refl, ◌∙◌, ◌⊎◌, inl, some, List, [], ◌∷◌, ◌++◌, length,
  length-append, take, arith, ne→==_false, subst,
}
use butos.Libs.Memory.{Memory, store}
use butos.Libs.Memory.Copy.{Outside}
use butos.Libs.Search.Lengths.{IsString, rawmemchr_nul}
use butos.Libs.Text.{strcpy, strcat, strncpy}

store_other : (mem : Memory) (p v a : ℕ) → a ≢ p → store mem p v a ≡ mem a
store_other mem p v a ne = ground (arith, ne)

store_self : (mem : Memory) (p v : ℕ) → store mem p v p ≡ v
store_self mem p v = ground arith

-- A string is read only at its own bytes.
pub IsString-same :
    (mem mem' : Memory) (p : ℕ) (cs : List ℕ)
    → ((a : ℕ) → p ≤ a → a ≤ p + length cs → mem' a ≡ mem a)
    → IsString mem p cs
    → IsString mem' p cs
IsString-same mem mem' p [] same s = same p (omega arith) (omega arith) ∙ s
IsString-same mem mem' p (c ∷ cs) same (at, not_nul, s) = (
  same p (omega arith) (omega arith) ∙ at,
  not_nul,
  IsString-same mem mem' (p + 1) cs (λ a lo hi. same a (omega arith) (omega arith)) s,
)

-- A string of `n` characters at `src` and its copy at `dest` do not overlap, or the copy starts
-- lower.
abbrev pub Apart : ℕ → ℕ → ℕ → Type 0
Apart dest src n = (dest ≤ src) ⊎ (src + n < dest)

-- The string `cs` is at `dest`, and no byte but those of it has changed.
pub record Copied (mem mem' : Memory) (dest : ℕ) (cs : List ℕ) : Type 0 where
  pub string : IsString mem' dest cs
  pub frame : (a : ℕ) → Outside dest (length cs + 1) a → mem' a ≡ mem a

Copied-end : (mem : Memory) (dest : ℕ) → Copied mem (store mem dest 0) dest []
Copied-end mem dest = record {
  string = store_self mem dest 0;
  frame = λ a h. store_other mem dest 0 a (omega (arith, h));
}

-- A copy behind one character more
Copied-suc :
    (mem mem' : Memory) (dest c : ℕ) (cs : List ℕ)
    → c ≢ 0
    → Copied (store mem dest c) mem' (dest + 1) cs
    → Copied mem mem' dest (c ∷ cs)
Copied-suc mem mem' dest c cs not_nul r = record {
  string = (r.frame dest (inl (omega arith)) ∙ store_self mem dest c, not_nul, r.string);
  frame = λ a h. r.frame a (omega (arith, h)) ∙ store_other mem dest c a (omega (arith, h));
}

-- The rest of the source, when its first character has been copied
rest_of :
    (mem : Memory) (dest src c : ℕ) (cs : List ℕ)
    → Apart dest src (length cs + 1)
    → IsString mem (src + 1) cs
    → IsString (store mem dest c) (src + 1) cs
rest_of mem dest src c cs apart s =
    IsString-same mem (store mem dest c) (src + 1) cs
      (λ a lo hi. store_other mem dest c a (omega (arith, apart))) s

-- With more fuel than the string at `src` has characters, and with the areas apart or `dest` the lower
-- one, `strcpy` copies the string to `dest` and changes no other byte.
pub strcpy_lem :
    (fuel : ℕ) (mem : Memory) (dest src : ℕ) (cs : List ℕ)
    → IsString mem src cs
    → Apart dest src (length cs)
    → length cs < fuel
    → (mem' : Memory) × (strcpy fuel mem dest src ≡ some mem') × Copied mem mem' dest cs
unfolding strcpy
strcpy_lem zero mem dest src cs s apart enough = absurd (omega arith)
strcpy_lem (suc fuel) mem dest src [] s apart enough =
    (store mem dest 0, rw s refl, Copied-end mem dest)
strcpy_lem (suc fuel) mem dest src (c ∷ cs) (at, not_nul, s) apart enough =
    let (mem', got, r) =
      strcpy_lem fuel (store mem dest c) (dest + 1) (src + 1) cs
        (rest_of mem dest src c cs (omega (arith, apart)) s) (omega (arith, apart)) (omega arith) in
    (mem', rw (at, ne→==_false c 0 not_nul) got, Copied-suc mem mem' dest c cs not_nul r)

-- With the areas apart or `dest` the lower one, `strncpy` puts the first `n` characters of the string
-- at `src` to `dest`, all of them if there are fewer, and a NUL behind them, and changes no other byte.
pub strncpy_lem :
    (n : ℕ) (mem : Memory) (dest src : ℕ) (cs : List ℕ)
    → IsString mem src cs
    → Apart dest src (length cs)
    → Copied mem (strncpy mem dest src n) dest (take n cs)
unfolding strncpy
strncpy_lem zero mem dest src cs s apart = Copied-end mem dest
strncpy_lem (suc n) mem dest src [] s apart = rw s (Copied-end mem dest)
strncpy_lem (suc n) mem dest src (c ∷ cs) (at, not_nul, s) apart =
    rw (at, ne→==_false c 0 not_nul)
      (Copied-suc mem (strncpy (store mem dest c) (dest + 1) (src + 1) n) dest c (take n cs) not_nul
        (strncpy_lem n (store mem dest c) (dest + 1) (src + 1) cs
          (rest_of mem dest src c cs (omega (arith, apart)) s) (omega (arith, apart))))

-- Two strings one behind the other, the NUL of the first one gone
IsString-append :
    (mem mem' : Memory) (p : ℕ) (cs ds : List ℕ)
    → IsString mem p cs
    → ((a : ℕ) → p ≤ a → a < p + length cs → mem' a ≡ mem a)
    → IsString mem' (p + length cs) ds
    → IsString mem' p (cs ++ ds)
IsString-append mem mem' p [] ds s same t = subst (λ q. IsString mem' q ds) (omega arith) t
IsString-append mem mem' p (c ∷ cs) ds (at, not_nul, s) same t = (
  same p (omega arith) (omega arith) ∙ at,
  not_nul,
  IsString-append mem mem' (p + 1) cs ds s (λ a lo hi. same a (omega arith) (omega arith))
      (subst (λ q. IsString mem' q ds) (omega arith) t),
)

-- With more fuel than either string has characters, and the string at `src` apart from the two strings
-- put together at `dest`, `strcat` leaves these at `dest` and changes no other byte.
pub strcat_lem :
    (fuel : ℕ) (mem : Memory) (dest src : ℕ) (cs ds : List ℕ)
    → IsString mem dest cs
    → IsString mem src ds
    → (dest + length cs ≤ src) ⊎ (src + length ds < dest)
    → length cs < fuel
    → length ds < fuel
    → (mem' : Memory) × (strcat fuel mem dest src ≡ some mem') × Copied mem mem' dest (cs ++ ds)
unfolding strcat
strcat_lem fuel mem dest src cs ds s t apart enough enough' =
    let (mem', got, r) =
      strcpy_lem fuel mem (dest + length cs) src ds t (omega (arith, apart)) enough' in
    (
      mem',
      rw (strcat, rawmemchr_nul fuel mem dest cs s enough) got,
      record {
        string =
            IsString-append mem mem' dest cs ds s (λ a lo hi. r.frame a (inl (omega arith)))
              r.string;
        frame = λ a h. r.frame a (omega (arith, h, length-append cs ds));
      },
    )
