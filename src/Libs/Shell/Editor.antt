-- ===== src/Libs/Shell/Editor.antt =====
-- The line that `shell_scan` reads is the one that was typed and corrected.
use butos.Prelude.{
  ℕ, suc, ◌+◌, ◌-◌, ◌≤◌, ◌<◌, ◌≡◌, ◌≢◌, refl, sym, ◌∙◌, subst, Bool, true, false, Option, some,
  List, [], ◌∷◌, ◌++◌, ◌==◌, if◌then◌else◌, leb, length, arith, ne→==_false, ℕ_discrete, dec_lt,
}
use butos.Libs.Memory.{Memory, store}
use butos.Libs.Memory.Copy.{Outside}
use butos.Libs.Search.Lengths.{IsString}
use butos.Libs.Shell.{buffer_size, shell_scan}
use butos.Libs.Print.Screen.{putc}
use butos.Drivers.Ports.{Ports}
use butos.Drivers.Vga.{Vga}

-- The line so far, last character first
abbrev pub edit : List ℕ → ℕ → List ℕ
edit line c =
    if c == 9
    then line
    else if c == 8
    then (elim line [ [] ↦ [] | x ∷ xs ↦ xs ])
    else if leb buffer_size (length line)
    then line
    else c ∷ line

-- A key changes the line, and so appears on the screen.
abbrev pub shows : List ℕ → ℕ → Bool
shows line c =
    if c == 9
    then false
    else if c == 8
    then (if length line == 0 then false else true)
    else if leb buffer_size (length line)
    then false
    else true

abbrev pub edited : List ℕ → List ℕ → List ℕ
edited line [] = line
edited line (c ∷ keys) = edited (edit line c) keys

-- The characters of the line stand in memory up to `p`, none of which is a NUL.
abbrev pub Typed : Memory → (p : ℕ) → List ℕ → Type 0
Typed mem p [] = Unit
Typed mem p (c ∷ line) = (0 < p) × (mem (p - 1) ≡ c) × (c ≢ 0) × Typed mem (p - 1) line

-- No key is a NUL or a newline.
abbrev pub Keys : List ℕ → Type 0
Keys [] = Unit
Keys (c ∷ keys) = (c ≢ 0) × (c ≢ 10) × Keys keys

abbrev pub reversed : List ℕ → List ℕ → List ℕ
reversed [] tail = tail
reversed (c ∷ line) tail = reversed line (c ∷ tail)

Typed-IsString :
    (mem : Memory) (base p : ℕ) (line tail : List ℕ)
    → base + length line ≡ p
    → Typed mem p line
    → IsString mem p tail
    → IsString mem base (reversed line tail)
Typed-IsString mem base p [] tail at t s = subst (λ q. IsString mem q tail) (omega arith) s
Typed-IsString mem base p (c ∷ line) tail at (pos, here, not_nul, t) s =
    Typed-IsString mem base (p - 1) line (c ∷ tail) (omega arith) t
      (here, not_nul, subst (λ q. IsString mem q tail) (omega arith) s)

last : (base n : ℕ) → base + suc n - 1 ≡ base + n
last base n = omega arith

-- What is written at `p` or behind it leaves the line as it is.
Typed-store :
    (mem : Memory) (p a c : ℕ) (line : List ℕ)
    → p ≤ a
    → Typed mem p line
    → Typed (store mem a c) p line
Typed-store mem p a c [] h t = tt
Typed-store mem p a c (x ∷ line) h (pos, here, not_nul, t) =
    (pos, ground (arith, here), not_nul, Typed-store mem (p - 1) a c line (omega arith) t)

module _ {S : Type 0} ⦃io : Ports S⦄ where
  -- The screen behind the keys: those that change the line are shown.
  abbrev pub echo : Vga S → List ℕ → List ℕ → Vga S
  echo v line [] = v
  echo v line (c ∷ keys) = echo (if shows line c then (putc v c).0 else v) (edit line c) keys

  -- What a line leaves: its characters in the buffer, a NUL behind them, and nothing else changed
  pub record Entered (mem : Memory) (v : Vga S) (base : ℕ) (line keys rest : List ℕ)
      (out : Option (Memory × Vga S × List ℕ)) : Type 0 where
    pub memory : Memory
    pub result : out ≡ some (memory, (putc (echo v line keys) 10).0, rest)
    pub short : length (edited line keys) ≤ buffer_size
    pub text : IsString memory base (reversed (edited line keys) [])
    pub frame : (a : ℕ) → Outside base (buffer_size + 1) a → memory a ≡ mem a

  -- One key more, which makes the line `line'` and the screen `v'`
  key_step :
      {mem mem' : Memory} {v v' : Vga S} {base c : ℕ} {line line' keys rest : List ℕ}
      {out : Option (Memory × Vga S × List ℕ)}
      → edit line c ≡ line'
      → (if shows line c then (putc v c).0 else v) ≡ v'
      → ((a : ℕ) → Outside base (buffer_size + 1) a → mem' a ≡ mem a)
      → Entered mem' v' base line' keys rest out
      → Entered mem v base line (c ∷ keys) rest out
  key_step {mem' = mem'} {v' = v'} {base = base} {c = c} {line = line} {keys = keys} {rest = rest}
        {out = out} el ev same r =
      let r' = subst (λ l. Entered mem' v' base l keys rest out) (sym el) r in
      let r'' = subst (λ w. Entered mem' w base (edit line c) keys rest out) (sym ev) r' in
      record {
        memory = r''.memory;
        result = r''.result;
        short = r''.short;
        text = r''.text;
        frame = λ a h. r''.frame a h ∙ same a h;
      }

-- What is entered with the keys from any line on
abbrev Enters : (S : Type 0) → Ports S → List ℕ → List ℕ → ℕ → Type 0
Enters S io keys rest base =
    (mem : Memory) (v : Vga S) (line : List ℕ)
    → length line ≤ buffer_size
    → Typed mem (base + length line) line
    → Entered ⦃io = io⦄ mem v base line keys rest
        (shell_scan ⦃io = io⦄ (keys ++ (10 ∷ rest)) mem v (base + length line) (length line))

module _ {S : Type 0} ⦃io : Ports S⦄ where
  back_lem :
      (keys rest : List ℕ) (base : ℕ)
      → Enters S io keys rest base
      → Enters S io (8 ∷ keys) rest base
  unfolding shell_scan
  back_lem keys rest base enters mem v [] short t =
      key_step refl refl (λ a h. refl) (enters mem v [] short t)
  back_lem keys rest base enters mem v (x ∷ line) short (pos, here, not_nul, t) =
      let p : base + suc (length line) - 1 ≡ base + length line = omega arith in
      let n : suc (length line) - 1 ≡ length line = omega arith in
      let some_typed : (suc (length line) == 0) ≡ false = ground arith in
      rw (shell_scan, some_typed, p, n)
        (key_step refl (rw some_typed refl) (λ a h. refl)
          (enters mem (putc v 8).0 line (omega arith) (subst (λ q. Typed mem q line) p t)))

  plain_lem :
      (c : ℕ) (keys rest : List ℕ) (base : ℕ)
      → c ≢ 0
      → c ≢ 8
      → c ≢ 9
      → c ≢ 10
      → Enters S io keys rest base
      → Enters S io (c ∷ keys) rest base
  unfolding shell_scan
  plain_lem c keys rest base c0 c8 c9 c10 enters mem v line short t =
      let n8 = ne→==_false c 8 c8 in
      let n9 = ne→==_false c 9 c9 in
      let n10 = ne→==_false c 10 c10 in
      elim (dec_lt (length line) buffer_size) [
        | no full ↦
            let f : leb buffer_size (length line) ≡ true = ground arith in
            rw (n9, n10, n8, f)
              (key_step (rw (n9, n8, f) refl) (rw (n9, n8, f) refl) (λ a h. refl)
                (enters mem v line short t))
        | yes room ↦
            let f : leb buffer_size (length line) ≡ false = ground arith in
            let p : base + length line + 1 ≡ base + suc (length line) = omega arith in
            let m : length line + 1 ≡ suc (length line) = omega arith in
            rw (n9, n10, n8, f, p, m)
              (key_step (rw (n9, n8, f) refl) (rw (n9, n8, f) refl) (λ a h. ground (arith, h))
                (enters (store mem (base + length line) c) (putc v c).0 (c ∷ line) (omega arith) (
                  omega arith,
                  ground arith,
                  c0,
                  subst (λ q. Typed (store mem (base + length line) c) q line)
                      (sym (last base (length line)))
                      (Typed-store mem (base + length line) (base + length line) c line
                        (omega arith) t),
                )))
      ]

  tab_lem :
      (keys rest : List ℕ) (base : ℕ)
      → Enters S io keys rest base
      → Enters S io (9 ∷ keys) rest base
  unfolding shell_scan
  tab_lem keys rest base enters mem v line short t =
      key_step refl refl (λ a h. refl) (enters mem v line short t)

  end_lem : (rest : List ℕ) (base : ℕ) → Enters S io [] rest base
  unfolding shell_scan
  end_lem rest base mem v line short t =
      let p = base + length line in
      record {
        memory = store mem p 0;
        result = refl;
        short = short;
        text =
            Typed-IsString (store mem p 0) base p line [] refl
              (Typed-store mem p p 0 line (omega arith) t) (ground arith);
        frame = λ a h. ground (arith, h);
      }

  scan_lem : (keys rest : List ℕ) (base : ℕ) → Keys keys → Enters S io keys rest base
  scan_lem [] rest base k = end_lem rest base
  scan_lem (c ∷ keys) rest base (not_nul, no_line, k) = elim (ℕ_discrete c 9) [
    | yes tab ↦
        subst (λ x. Enters S io (x ∷ keys) rest base) (sym tab)
          (tab_lem keys rest base (scan_lem keys rest base k))
    | no c9 ↦ elim (ℕ_discrete c 8) [
      | yes back ↦
          subst (λ x. Enters S io (x ∷ keys) rest base) (sym back)
            (back_lem keys rest base (scan_lem keys rest base k))
      | no c8 ↦ plain_lem c keys rest base not_nul c8 c9 no_line (scan_lem keys rest base k)
    ]
  ]

  -- When a newline is pressed, `shell_scan` ends with the line that was typed and corrected, cut off at
  -- 50 characters, as a string in the buffer; each key that changed the line was shown on the screen,
  -- and no byte but the first 51 of the buffer changes, one more than the buffer has.
  pub shell_scan_lem :
      (keys rest : List ℕ) (mem : Memory) (v : Vga S) (buffer : ℕ)
      → Keys keys
      → Entered mem v buffer [] keys rest (shell_scan (keys ++ (10 ∷ rest)) mem v buffer 0)
  shell_scan_lem keys rest mem v buffer k =
      let here : buffer + 0 ≡ buffer = omega arith in
      subst (λ p. Entered mem v buffer [] keys rest (shell_scan (keys ++ (10 ∷ rest)) mem v p 0))
        here (scan_lem keys rest buffer k mem v [] (omega arith) tt)
