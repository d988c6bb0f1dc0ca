-- ===== src/Libs/Scan/Lines.antt =====
-- `gets` ends with the line, and keeps to its buffer.
use butos.Prelude.{
  ℕ, ◌+◌, ◌-◌, ◌≤◌, ◌<◌, ◌≡◌, ◌≢◌, refl, ◌∙◌, ◌⊎◌, inl, inr, true, false, ◌||◌, Option, some, List,
  [], ◌∷◌, leb, ◌==◌, arith, dec_lt, ℕ_discrete, ne→==_false, lt→ltb, le→ltb_false, ==_iff,
  Bool-cases,
}
use butos.Libs.Memory.{Memory, store}
use butos.Libs.Memory.Copy.{Outside}
use butos.Libs.Scan.{gets_loop, gets}

-- A newline is among the keys.
abbrev pub HasNewline : List ℕ → Type 0
HasNewline [] = ⊥
HasNewline (c ∷ keys) = (c ≡ 10) ⊎ HasNewline keys

-- A line has been read into the `n` bytes from `string` on: there is a NUL in them, and no byte but
-- theirs has changed.
pub record Line (mem : Memory) (string n : ℕ) (out : Option (Memory × List ℕ)) : Type 0 where
  pub memory : Memory
  pub keys : List ℕ
  pub returns : out ≡ some (memory, keys)
  pub end : ℕ
  pub end_in : (string ≤ end) × (end < string + n)
  pub ends : memory end ≡ 0
  pub frame : (a : ℕ) → Outside string n a → memory a ≡ mem a

store_other : (mem : Memory) (p v a : ℕ) → a ≢ p → store mem p v a ≡ mem a
store_other mem p v a ne = ground (arith, ne)

store_self : (mem : Memory) (p v : ℕ) → store mem p v p ≡ v
store_self mem p v = ground arith

Line-end :
    (mem : Memory) (string n s : ℕ) (keys : List ℕ)
    → string ≤ s
    → s < string + n
    → Line mem string n (some (store mem s 0, keys))
Line-end mem string n s keys lo hi = record {
  memory = store mem s 0;
  keys = keys;
  returns = refl;
  end = s;
  end_in = (lo, hi);
  ends = store_self mem s 0;
  frame = λ a h. store_other mem s 0 a (omega (arith, h));
}

Line-store :
    (mem : Memory) (string n s c : ℕ) (out : Option (Memory × List ℕ))
    → string ≤ s
    → s < string + n
    → Line (store mem s c) string n out
    → Line mem string n out
Line-store mem string n s c out lo hi l = record {
  memory = l.memory;
  keys = l.keys;
  returns = l.returns;
  end = l.end;
  end_in = l.end_in;
  ends = l.ends;
  frame = λ a h. l.frame a h ∙ store_other mem s c a (omega (arith, h));
}

gets_loop_lem :
    (keys : List ℕ) (mem : Memory) (string s size n : ℕ)
    → HasNewline keys
    → string ≤ s
    → 1 ≤ size
    → s + size ≡ string + n
    → Line mem string n (gets_loop keys mem string s size)
unfolding gets_loop
gets_loop_lem [] mem string s size n newline lo pos e = absurd newline
gets_loop_lem (c ∷ keys) mem string s size n newline lo pos e = elim (dec_lt 1 size) [
  | no full ↦
      rw (le→ltb_false size 1 (omega arith)) (Line-end mem string n s (c ∷ keys) lo (omega arith))
  | yes room ↦ elim (ℕ_discrete c 9) [
    | yes tab ↦
        rw (lt→ltb 1 size room, (==_iff c 9).1 tab)
          (gets_loop_lem keys mem string s size n (later (omega arith)) lo pos e)
    | no no_tab ↦ elim (ℕ_discrete c 8) [
      | yes back ↦
          rw (lt→ltb 1 size room, ne→==_false c 9 no_tab, (==_iff c 8).1 back)
            (elim (dec_lt string s) [
              | yes some_typed ↦ rw (lt→ltb string s some_typed) (
                  gets_loop_lem keys mem string (s - 1) (size + 1) n (later (omega arith))
                    (omega arith) (omega arith) (omega arith))
              | no none_typed ↦
                  rw (le→ltb_false s string (omega arith))
                    (gets_loop_lem keys mem string s size n (later (omega arith)) lo pos e)
            ])
      | no no_back ↦ elim (ends_line c) [
        | inl last ↦
            rw (lt→ltb 1 size room, ne→==_false c 9 no_tab, ne→==_false c 8 no_back, last)
              (Line-store mem string n s c (some (store (store mem s c) (s + 1) 0, keys)) lo
                (omega arith)
                (Line-end (store mem s c) string n (s + 1) keys (omega arith) (omega arith)))
        | inr (more, ne) ↦
            rw (lt→ltb 1 size room, ne→==_false c 9 no_tab, ne→==_false c 8 no_back, more)
              (Line-store mem string n s c
                (gets_loop keys (store mem s c) string (s + 1) (size - 1)) lo (omega arith)
                (gets_loop_lem keys (store mem s c) string (s + 1) (size - 1) n (later ne)
                  (omega arith) (omega arith) (omega arith)))
      ]
    ]
  ]
]
  where
    later : c ≢ 10 → HasNewline keys
    later ne = elim newline [ inl e ↦ absurd (ne e) | inr h ↦ h ]

    ends_line :
        (x : ℕ) → ((x == 10 || x == 255) ≡ true) ⊎ (((x == 10 || x == 255) ≡ false) × (x ≢ 10))
    ends_line x = elim (Bool-cases (x == 10 || x == 255)) [
      | inl e ↦ inl e
      | inr e ↦ inr (e, λ z. ground arith)
    ]

-- For a size of at least two, and with a newline among the keys that are pressed, `gets` returns its
-- buffer: there is a NUL in it, and no byte outside it has changed.
pub gets_lem :
    (keys : List ℕ) (mem : Memory) (s size : ℕ)
    → HasNewline keys
    → 2 ≤ size
    → (mem' : Memory) × (rest : List ℕ) × (gets keys mem s size ≡ some (mem', s, rest))
      × ((e : ℕ) × (s ≤ e) × (e < s + size) × (mem' e ≡ 0))
      × ((a : ℕ) → Outside s size a → mem' a ≡ mem a)
unfolding gets
gets_lem keys mem s size newline two =
    let l = gets_loop_lem keys mem s s size size newline (omega arith) (omega arith) refl in
    let large : leb size 1 ≡ false = ground arith in
    (
      l.memory,
      l.keys,
      rw (gets, large, l.returns) refl,
      (l.end, l.end_in.0, l.end_in.1, l.ends),
      l.frame,
    )
