-- ===== src/Libs/Memory/Copy.antt =====
-- What `memcpy` and `memset` leave in memory.
use butos.Prelude.{ℕ, zero, suc, ◌+◌, ◌%◌, ◌≤◌, ◌<◌, ◌≡◌, refl, ◌∙◌, ◌⊎◌, inl, arith, dec_lt}
use butos.Libs.Memory.{Memory, store, memcpy, memset}

-- The address lies in the `n` bytes from `p` on.
abbrev pub Within : ℕ → ℕ → ℕ → Type 0
Within p n a = (p ≤ a) × (a < p + n)

abbrev pub Outside : ℕ → ℕ → ℕ → Type 0
Outside p n a = (a < p) ⊎ (p + n ≤ a)

pub memset-Outside : (n : ℕ) (mem : Memory) (s c a : ℕ) → Outside s n a → memset mem s c n a ≡ mem a
unfolding memset
memset-Outside zero mem s c a h = refl
memset-Outside (suc n) mem s c a h =
    ground (arith, memset-Outside n (store mem s (c % 256)) (s + 1) c a)

pub memset-Within : (n : ℕ) (mem : Memory) (s c a : ℕ) → Within s n a → memset mem s c n a ≡ c % 256
unfolding memset
memset-Within zero mem s c a h = absurd (omega arith)
memset-Within (suc n) mem s c a h = elim (dec_lt s a) [
  | yes more ↦ memset-Within n (store mem s (c % 256)) (s + 1) c a (omega arith)
  | no last ↦
      memset-Outside n (store mem s (c % 256)) (s + 1) c a (inl (omega arith)) ∙ ground arith
]

memcpy-Outside :
    (n : ℕ) (mem : Memory) (dest src a : ℕ) → Outside dest n a → memcpy mem dest src n a ≡ mem a
unfolding memcpy
memcpy-Outside zero mem dest src a h = refl
memcpy-Outside (suc n) mem dest src a h =
    ground (arith, memcpy-Outside n (store mem dest (mem src)) (dest + 1) (src + 1) a)

memcpy-Within :
    (n : ℕ) (mem : Memory) (dest src i : ℕ)
    → (dest + n ≤ src) ⊎ (src + n ≤ dest) ⊎ (dest ≤ src)
    → i < n
    → memcpy mem dest src n (dest + i) ≡ mem (src + i)
unfolding memcpy
memcpy-Within zero mem dest src i apart h = absurd (omega arith)
memcpy-Within (suc n) mem dest src zero apart h =
    let d : dest + 0 ≡ dest = omega arith in
    let s : src + 0 ≡ src = omega arith in
    rw (d, s)
      (memcpy-Outside n (store mem dest (mem src)) (dest + 1) (src + 1) dest (inl (omega arith))
        ∙ ground arith)
memcpy-Within (suc n) mem dest src (suc i) apart h =
    let d : dest + suc i ≡ dest + 1 + i = omega arith in
    let s : src + suc i ≡ src + 1 + i = omega arith in
    rw (d, s)
      (memcpy-Within n (store mem dest (mem src)) (dest + 1) (src + 1) i (omega arith) (omega arith)
        ∙ ground arith)

-- `memcpy` copies the `n` bytes at `src` to `dest` and changes no other byte, where the two areas
-- share no byte, or `dest` is the lower one.
pub memcpy_lem :
    (n : ℕ) (mem : Memory) (dest src : ℕ)
    → (dest ≤ src) ⊎ (src + n ≤ dest)
    → ((i : ℕ) → i < n → memcpy mem dest src n (dest + i) ≡ mem (src + i))
      × ((a : ℕ) → Outside dest n a → memcpy mem dest src n a ≡ mem a)
memcpy_lem n mem dest src apart = (
  λ i h. memcpy-Within n mem dest src i (omega arith) h,
  λ a h. memcpy-Outside n mem dest src a h,
)
