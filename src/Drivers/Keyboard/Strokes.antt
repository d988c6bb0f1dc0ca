-- ===== src/Drivers/Keyboard/Strokes.antt =====
-- Keys that are struck one after the other.
use butos.Prelude.{
  ℕ, ◌+◌, ◌≤◌, ◌<◌, ◌≡◌, ◌≢◌, refl, ap, sym, ◌∙◌, Bool, true, false, List, [], ◌∷◌, ◌++◌, ◌%◌, leb,
  arith, length, ne→==_false, append-nil, append_assoc, length-append, map, length-map,
}
use butos.Libs.Queue.Ring.{contents, fifo_step, length-ring}
use butos.Drivers.Keyboard.{Driver}
use butos.Drivers.Keyboard.Typist.{
  Layer, Typist, Layout, key_of, is_plain, character, type_step, type_run,
}
use butos.Drivers.Keyboard.Typing.{Shows, enqueued, keyboard_run, run-Types}

enqueued_room :
    (capacity : ℕ) (xs cs : List ℕ)
    → length xs + length cs ≤ capacity
    → enqueued capacity xs cs ≡ xs ++ cs
unfolding fifo_step
enqueued_room capacity xs [] room = sym (append-nil xs)
enqueued_room capacity xs (c ∷ cs) room =
    let e : leb capacity (length xs) ≡ false = ground arith in
    rw e (
      enqueued_room capacity (xs ++ (c ∷ [])) cs (omega (arith, length-append xs (c ∷ [])))
      ∙ append_assoc xs (c ∷ []) cs)

-- Keys that go down and up again, one after the other
abbrev pub strokes : List ℕ → List ℕ
strokes [] = []
strokes (k ∷ ks) = k ∷ ((k + 128) ∷ strokes ks)

-- Codes below 128, but for the shifts, the lock, control, alt and the one whose release is the prefix,
-- that have a character
abbrev pub HaveCharacters : (ℕ → ℕ) → List ℕ → Type 0
HaveCharacters chars [] = Unit
HaveCharacters chars (k ∷ ks) =
    (k < 128)
    × (k ≢ 0x2a)
    × (k ≢ 0x36)
    × (k ≢ 0x3a)
    × (k ≢ 0x1d)
    × (k ≢ 0x38)
    × (k ≢ 0x60)
    × (chars k ≢ 0)
    × HaveCharacters chars ks

plain_code :
    (layout : Layout) (l : Layer) (k c : ℕ) (ks : List ℕ)
    → HaveCharacters (layout l) (k ∷ ks)
    → c ≡ k
    → is_plain (key_of false c) ≡ true
plain_code layout l k c ks (small, h1, h2, h3, h4, h5, h6, some, h) e = ground arith

character_lem :
    (layout : Layout) (l : Layer) (k : ℕ)
    → k < 128
    → layout l k ≢ 0
    → character layout l k ≡ layout l k ∷ []
character_lem layout l k small some =
    let down : leb 128 k ≡ false = ground arith in rw (down, ne→==_false (layout l k) 0 some) refl

no_character_lem : (layout : Layout) (l : Layer) (k : ℕ) → character layout l (k + 128) ≡ []
no_character_lem layout l k = let up : leb 128 (k + 128) ≡ true = ground arith in rw up refl

type_down :
    (layout : Layout) (l : Layer) (lock : Bool) (k : ℕ) (ks : List ℕ)
    → HaveCharacters (layout l) (k ∷ ks)
    → let t : Typist = record { layer = l; lock = lock; prefix = false } in
      type_step layout t k ≡ (t, layout l k ∷ [])
unfolding type_step
type_down layout l lock k ks h =
    rw
      (
        ne→==_false k 0xe0 (omega (arith, h.0)),
        plain_code layout l k (k % 128) ks h (omega (arith, h.0)),
      )
      (ap (λ cs. (record { layer = l; lock = lock; prefix = false }, cs))
        (character_lem layout l k h.0 h.7))

type_up :
    (layout : Layout) (l : Layer) (lock : Bool) (k : ℕ) (ks : List ℕ)
    → HaveCharacters (layout l) (k ∷ ks)
    → let t : Typist = record { layer = l; lock = lock; prefix = false } in
      type_step layout t (k + 128) ≡ (t, [])
unfolding type_step
type_up layout l lock k ks h =
    rw
      (
        ne→==_false (k + 128) 0xe0 (omega (arith, h.6)),
        plain_code layout l k ((k + 128) % 128) ks h (omega (arith, h.0)),
      )
      (ap (λ cs. (record { layer = l; lock = lock; prefix = false }, cs))
        (no_character_lem layout l k))

type_strokes :
    (layout : Layout) (l : Layer) (lock : Bool) (keys : List ℕ)
    → HaveCharacters (layout l) keys
    → (type_run layout (record { layer = l; lock = lock; prefix = false }) (strokes keys)).1
      ≡ map (layout l) keys
unfolding type_run
type_strokes layout l lock [] h = refl
type_strokes layout l lock (k ∷ ks) h =
    rw (type_down layout l lock k ks h, type_up layout l lock k ks h)
      (ap (◌∷◌ (layout l k)) (type_strokes layout l lock ks h.8))

-- When keys are struck one after the other, each going down and up again, in whatever layer and with or
-- without the lock, and the queue has room for a character of each, the queue ends up with what it had
-- and then the characters that the keys have in the table of this layer. The keys are any with a code
-- below 128 and a character in the table, but for the shifts, the lock, control and alt, and the code
-- 0x60, whose release is the prefix; the tables lie outside the queue's storage.
pub run_arrives :
    (layout : Layout) (l : Layer) (lock : Bool) (keys : List ℕ) (d : Driver)
    → Shows layout d (record { layer = l; lock = lock; prefix = false })
    → HaveCharacters (layout l) keys
    → d.input_buffer.size + length keys ≤ d.input_buffer.capacity
    → let d' = keyboard_run d (strokes keys) in
      contents d'.memory d'.input_buffer ≡ contents d.memory d.input_buffer ++ map (layout l) keys
run_arrives layout l lock keys d s h room =
    let q = d.input_buffer in
    let typed = type_strokes layout l lock keys h in
    (run-Types layout (strokes keys) d (record { layer = l; lock = lock; prefix = false }) s).2
    ∙ ap (enqueued q.capacity (contents d.memory q)) typed
    ∙ enqueued_room q.capacity (contents d.memory q) (map (layout l) keys) (
        omega (
          arith,
          room,
          length-map keys (layout l),
          length-ring d.memory q.values q.capacity q.head q.size,
        ))
