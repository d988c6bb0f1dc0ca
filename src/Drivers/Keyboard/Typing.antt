-- ===== src/Drivers/Keyboard/Typing.antt =====
-- The keys that keyboard.c handles give the characters that a keyboard with shift, lock and alternate
-- graphic keys types.
use butos.Prelude.{
  ℕ, ◌+◌, ◌≤◌, ◌<◌, ◌≡◌, ◌≢◌, refl, ap, ap₂, sym, ◌∙◌, ◌⊎◌, inl, inr, Bool, true, false, List, [],
  ◌∷◌, ◌++◌, ◌%◌, not, if◌then◌else◌, arith, dec_lt, ℕ_discrete, ne→==_false, Bool-cases,
}
use butos.Libs.Allocator.{null}
use butos.Libs.Queue.{queue_enqueue}
use butos.Libs.Queue.Ring.{IsValid, enqueue, contents, fifo_step, enqueue-After, enqueue_refines}
use butos.Drivers.Keyboard.{
  Keyboard, Driver, extended_scancode, released, special_key, keyboard_change_table,
  standard_switch, extended_switch, release_table, keyboard_read_character, normal_key, handle,
  trigger_is_set, keyboard_handler,
}
use butos.Drivers.Keyboard.Typist.{
  Layer, standard, shifted, alternate, Typist, Layout, key_of, control_key, is_plain, character,
  type_step, type_run,
}

-- The handler on the bytes that the keyboard sends
unfoldable pub keyboard_run : Driver → List ℕ → Driver
keyboard_run d [] = d
keyboard_run d (scan ∷ scans) = keyboard_run (keyboard_handler d scan) scans

-- The queue of `capacity` bytes behind the characters: those for which there is no room are lost.
abbrev pub enqueued : ℕ → List ℕ → List ℕ → List ℕ
enqueued capacity xs [] = xs
enqueued capacity xs (c ∷ cs) = enqueued capacity (fifo_step capacity xs (enqueue c)).0 cs

abbrev pub table : Keyboard → Layer → ℕ
table k standard = k.std_table
table k shifted = k.shift_table
table k alternate = k.altgr_table

abbrev pub bit : Bool → ℕ
bit true = 1
bit false = 0

-- The driver shows what the typist's keyboard remembers; its tables are those of the layout and lie
-- outside the queue's storage.
pub record Shows (layout : Layout) (d : Driver) (t : Typist) : Type 0 where
  pub keys : (l : Layer) (i : ℕ) → i < 128 → d.memory (table d.keyboard l + i) ≡ layout l i
  pub apart :
      (l : Layer)
      → (table d.keyboard l + 128 ≤ d.input_buffer.values)
        ⊎ (d.input_buffer.values + d.input_buffer.capacity ≤ table d.keyboard l)
  pub present : (l : Layer) → table d.keyboard l ≢ null
  pub selected : d.keyboard.selected ≡ table d.keyboard t.layer
  pub lock : d.keyboard.caps_lock ≡ bit t.lock
  pub prefix : d.extended ≡ bit t.prefix
  pub valid : IsValid d.input_buffer

-- The handler takes for special just the keys that have no character.
special_lem :
    (prefix : Bool) (scan : ℕ)
    → special_key prefix scan ≡ not (is_plain (key_of prefix (scan % 128)))
unfolding special_key
special_lem false scan = ground arith
special_lem true scan = ground arith

-- A control key selects a table as it selects a layer.
change_table_lem :
    (k : Keyboard) (t : Typist) (scan : ℕ)
    → k.selected ≡ table k t.layer
    → k.caps_lock ≡ bit t.lock
    → let k' = keyboard_change_table k scan t.prefix in
      (k'.selected ≡ table k' (control_key t scan).layer)
      × (k'.caps_lock ≡ bit (control_key t scan).lock)
unfolding keyboard_change_table standard_switch extended_switch release_table
change_table_lem k t scan s c = ground arith

change_table_keeps :
    (k : Keyboard) (scan : ℕ) (ext : Bool) (l : Layer)
    → table (keyboard_change_table k scan ext) l ≡ table k l
unfolding keyboard_change_table standard_switch extended_switch release_table
change_table_keeps k scan ext standard = ground arith
change_table_keeps k scan ext shifted = ground arith
change_table_keeps k scan ext alternate = ground arith

-- The queue behind the characters that one byte types
abbrev pub Types : Layout → Driver → Driver → Typist → List ℕ → Type 0
Types layout d d' t' cs =
    Shows layout d' t'
    × (d'.input_buffer.capacity ≡ d.input_buffer.capacity)
    × (contents d'.memory d'.input_buffer
        ≡ enqueued d.input_buffer.capacity (contents d.memory d.input_buffer) cs)

-- A character that is not NUL goes to the queue, and the tables stay as they are.
enqueue_Types :
    (layout : Layout) (d : Driver) (t : Typist) (c : ℕ)
    → Shows layout d t
    → let (mem, q, full) = queue_enqueue d.memory d.input_buffer c in
      Types layout d (record d { memory = mem; input_buffer = q }) t (c ∷ [])
enqueue_Types layout d t c s =
    let r = queue_enqueue d.memory d.input_buffer c in
    let a = enqueue-After d.memory d.input_buffer c s.valid in
    (
      record {
        keys =
            λ l i h. a.frame (table d.keyboard l + i) (omega (arith, s.apart l, h)) ∙ s.keys l i h;
        apart = λ l. rw (a.values, a.capacity) (s.apart l);
        present = s.present;
        selected = s.selected;
        lock = s.lock;
        prefix = s.prefix;
        valid = a.valid;
      },
      a.capacity,
      ap (λ x. x.0) (enqueue_refines d.memory d.input_buffer c s.valid),
    )

read_character_lem :
    (layout : Layout) (d : Driver) (t : Typist) (scan : ℕ)
    → Shows layout d t
    → keyboard_read_character d.memory d.keyboard scan
      ≡ (if released scan then 0 else layout t.layer scan)
unfolding keyboard_read_character
read_character_lem layout d t scan s = elim (dec_lt scan 128) [
  | yes down ↦ ground (arith, s.selected, s.present t.layer, s.keys t.layer scan down)
  | no up ↦ ground arith
]

normal_key-Types :
    (layout : Layout) (d : Driver) (t : Typist) (scan : ℕ)
    → Shows layout d t
    → Types layout d (normal_key d scan) t (character layout t.layer scan)
unfolding normal_key
normal_key-Types layout d t scan s = elim (Bool-cases (released scan)) [
  | inl up ↦ rw (read_character_lem layout d t scan s, up) (s, refl, refl)
  | inr down ↦
      rw (read_character_lem layout d t scan s, down)
        (elim (ℕ_discrete (layout t.layer scan) 0) [
          | yes none ↦ rw none (s, refl, refl)
          | no some ↦
              rw (ne→==_false (layout t.layer scan) 0 some)
                (enqueue_Types layout d t (layout t.layer scan) s)
        ])
]

-- A driver that differs in its keyboard and its trigger only
rekeyed :
    (layout : Layout) (d : Driver) (t t' : Typist) (k : Keyboard) (trigger : ℕ)
    → Shows layout d t
    → ((l : Layer) → table k l ≡ table d.keyboard l)
    → k.selected ≡ table k t'.layer
    → k.caps_lock ≡ bit t'.lock
    → trigger ≡ bit t'.prefix
    → Shows layout (record d { keyboard = k; extended = trigger }) t'
rekeyed layout d t t' k trigger s same sel caps e = record {
  keys = λ l i h. rw (same l) (s.keys l i h);
  apart = λ l. rw (same l) (s.apart l);
  present = λ l. rw (same l) (s.present l);
  selected = sel;
  lock = caps;
  prefix = e;
  valid = s.valid;
}

trigger_lem :
    (trigger : ℕ) (prefix : Bool) → trigger ≡ bit prefix → trigger_is_set trigger ≡ (0, prefix)
unfolding trigger_is_set
trigger_lem trigger true e = rw e refl
trigger_lem trigger false e = rw e refl

handle-Types :
    (layout : Layout) (d : Driver) (t : Typist) (scan : ℕ)
    → Shows layout d t
    → let (t', cs) = type_step layout t scan in
      Types layout d (handle (record d { extended = 0 }) t.prefix scan) t' cs
unfolding handle type_step
handle-Types layout d t scan s = elim (ℕ_discrete scan extended_scancode) [
  | yes e ↦ rw e (
    rekeyed layout d t (record t { prefix = true }) d.keyboard 1 s (λ l. refl) s.selected s.lock
        refl,
    refl,
    refl,
  )
  | no ne ↦
      rw (ne→==_false scan extended_scancode ne)
        (elim (Bool-cases (is_plain (key_of t.prefix (scan % 128)))) [
          | inr special ↦
              rw (special_lem t.prefix scan, special)
                (
                  (let (sel, caps) = change_table_lem d.keyboard t scan s.selected s.lock in
                      rekeyed layout d t (record (control_key t scan) { prefix = false })
                        (keyboard_change_table d.keyboard scan t.prefix) 0 s
                        (change_table_keeps d.keyboard scan t.prefix) sel caps refl),
                  refl,
                  refl,
                )
          | inl normal ↦
              rw (special_lem t.prefix scan, normal)
                (normal_key-Types layout (record d { extended = 0 }) (record t { prefix = false })
                  scan
                  (rekeyed layout d t (record t { prefix = false }) d.keyboard 0 s (λ l. refl)
                    s.selected s.lock refl))
        ])
]

handler-Types :
    (layout : Layout) (d : Driver) (t : Typist) (scan : ℕ)
    → Shows layout d t
    → let (t', cs) = type_step layout t scan in Types layout d (keyboard_handler d scan) t' cs
unfolding keyboard_handler
handler-Types layout d t scan s =
    rw (trigger_lem d.extended t.prefix s.prefix) (handle-Types layout d t scan s)

enqueued-append :
    (capacity : ℕ) (xs cs ds : List ℕ)
    → enqueued capacity xs (cs ++ ds) ≡ enqueued capacity (enqueued capacity xs cs) ds
enqueued-append capacity xs [] ds = refl
enqueued-append capacity xs (c ∷ cs) ds =
    enqueued-append capacity (fifo_step capacity xs (enqueue c)).0 cs ds

-- Whatever bytes the keyboard sends, the handler's table, lock and trigger are those of a keyboard
-- whose shifts, lock and alternate graphic key have the codes of scan code set 1, and its queue has the
-- characters that such a keyboard types, in their order, as far as there was room for each. A shift
-- or the alternate graphic key holds its layer only until any of the keys without a character goes
-- up. The tables lie outside the queue's storage and have 128 characters each.
pub run-Types :
    (layout : Layout) (scans : List ℕ) (d : Driver) (t : Typist)
    → Shows layout d t
    → let (t', cs) = type_run layout t scans in Types layout d (keyboard_run d scans) t' cs
unfolding type_run keyboard_run
run-Types layout [] d t s = (s, refl, refl)
run-Types layout (scan ∷ scans) d t s =
    let (t1, cs) = type_step layout t scan in
    let (s1, same1, typed1) = handler-Types layout d t scan s in
    let (s2, same2, typed2) = run-Types layout scans (keyboard_handler d scan) t1 s1 in
    (
      s2,
      same2 ∙ same1,
      typed2
          ∙ ap₂ (λ n xs. enqueued n xs (type_run layout t1 scans).1) same1 typed1
          ∙ sym (
              enqueued-append d.input_buffer.capacity (contents d.memory d.input_buffer) cs
                (type_run layout t1 scans).1),
    )
