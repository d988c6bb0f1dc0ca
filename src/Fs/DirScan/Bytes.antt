-- ===== src/Fs/DirScan/Bytes.antt =====
-- The bytes of an entry are read back as the entry.
use butos.Prelude.{
  ℕ, zero, suc, ◌+◌, ◌*◌, ◌%◌, ◌^◌, ◌<◌, ◌≡◌, ◌≢◌, refl, ap, ap₂, ◌∙◌, List, [], ◌∷◌, ◌++◌, length,
  length-append, get_or, word, arith, ne→==_false, subst,
}
use butos.Fs.Disk.{bytes_to_word, bytes_to_long}
use butos.Fs.Entry.{Entry}
use butos.Fs.DirScan.{copy_name, entry_of_bytes, entry_bytes, tail_bytes}

-- Characters other than NUL
abbrev pub NoNul : List ℕ → Type 0
NoNul [] = Unit
NoNul (c ∷ cs) = (c ≢ 0) × NoNul cs

-- The fields of an entry that fit their bytes
pub record Fits (e : Entry) : Type 0 where
  pub name : length e.short_name ≡ 11
  pub no_nul : NoNul e.short_name
  pub attr : e.attr < 256
  pub ctime : e.ctime < word
  pub atime : e.atime < 2 ^ 16
  pub high : e.high_cluster < 2 ^ 16
  pub mtime : e.mtime < word
  pub low : e.low_cluster < 2 ^ 16
  pub size : e.size < word

-- Two entries that differ at most in the bytes that are reserved
pub record SameEntry (e f : Entry) : Type 0 where
  pub short_name : e.short_name ≡ f.short_name
  pub attr : e.attr ≡ f.attr
  pub ctime : e.ctime ≡ f.ctime
  pub atime : e.atime ≡ f.atime
  pub high_cluster : e.high_cluster ≡ f.high_cluster
  pub mtime : e.mtime ≡ f.mtime
  pub low_cluster : e.low_cluster ≡ f.low_cluster
  pub size : e.size ≡ f.size

copy_name_all : (xs ys : List ℕ) → NoNul xs → copy_name (length xs) (xs ++ ys) ≡ xs
unfolding copy_name
copy_name_all [] ys h = refl
copy_name_all (c ∷ xs) ys h = rw (ne→==_false c 0 h.0) (ap (λ l. c ∷ l) (copy_name_all xs ys h.1))

get_or-append :
    (xs ys : List ℕ) (m n k : ℕ) → length xs ≡ m → n ≡ m + k → get_or (xs ++ ys) n 0 ≡ get_or ys k 0
get_or-append [] ys m n k e f = ap (λ i. get_or ys i 0) same
  where
    same : n ≡ k
    same = omega arith
get_or-append (x ∷ xs) ys m zero k e f = absurd (omega arith)
get_or-append (x ∷ xs) ys zero (suc n) k e f = absurd (omega arith)
get_or-append (x ∷ xs) ys (suc m) (suc n) k e f =
    get_or-append xs ys m n k (omega arith) (omega arith)

long-append :
    (xs ys : List ℕ) (n k : ℕ)
    → length xs ≡ 11
    → n ≡ 11 + k
    → bytes_to_long (xs ++ ys) n ≡ bytes_to_long ys k
long-append xs ys n k e f =
    ap₂ (λ (x y : ℕ × ℕ). (x.0 + x.1 * 2 ^ 8 + y.0 * 2 ^ 16 + y.1 * 2 ^ 24) % word)
      (ap₂ (λ (a b : ℕ). (a, b)) (get_or-append xs ys 11 n k e f)
        (get_or-append xs ys 11 (n + 1) (k + 1) e (omega arith)))
      (ap₂ (λ (a b : ℕ). (a, b)) (get_or-append xs ys 11 (n + 2) (k + 2) e (omega arith))
        (get_or-append xs ys 11 (n + 3) (k + 3) e (omega arith)))

word-append :
    (xs ys : List ℕ) (n k : ℕ)
    → length xs ≡ 11
    → n ≡ 11 + k
    → bytes_to_word (xs ++ ys) n ≡ bytes_to_word ys k
word-append xs ys n k e f =
    ap₂ (λ (a b : ℕ). a + b * 2 ^ 8) (get_or-append xs ys 11 n k e f)
      (get_or-append xs ys 11 (n + 1) (k + 1) e (omega arith))

-- An entry whose fields fit their bytes is read back, but for the bytes that are reserved.
pub entry_of_bytes-entry_bytes : (e : Entry) → Fits e → SameEntry (entry_of_bytes (entry_bytes e)) e
unfolding entry_of_bytes entry_bytes
entry_of_bytes-entry_bytes e h =
    let name = e.short_name in
    let ys = tail_bytes e in
    record {
      short_name =
          subst (λ n. copy_name n (name ++ ys) ≡ name) h.name (copy_name_all name ys h.no_nul);
      attr = get_or-append name ys 11 11 0 h.name refl;
      ctime = long-append name ys 14 3 h.name refl ∙ omega (arith, h.ctime);
      atime = ap (λ n. n % 2 ^ 16) (long-append name ys 18 7 h.name refl) ∙ omega (arith, h.atime);
      high_cluster =
          ap (λ n. n % 2 ^ 16) (long-append name ys 20 9 h.name refl) ∙ omega (arith, h.high);
      mtime = long-append name ys 22 11 h.name refl ∙ omega (arith, h.mtime);
      low_cluster = word-append name ys 26 15 h.name refl ∙ omega (arith, h.low);
      size = long-append name ys 28 17 h.name refl ∙ omega (arith, h.size);
    }

pub length-entry_bytes : (e : Entry) → length e.short_name ≡ 11 → length (entry_bytes e) ≡ 32
unfolding entry_bytes
length-entry_bytes e h = length-append e.short_name (tail_bytes e) ∙ ap (λ n. n + 21) h
