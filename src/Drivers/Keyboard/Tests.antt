-- ===== src/Drivers/Keyboard/Tests.antt =====
-- A keyboard with the tables of keyboard.c and a queue of eight characters.
use butos.Prelude.{
  ℕ, ◌+◌, ◌-◌, ◌<◌, ◌≡◌, refl, ap, List, [], ◌∷◌, false, ltb, if◌then◌else◌, get_or, arith, map,
}
use butos.Libs.Memory.{Memory}
use butos.Libs.Queue.Ring.{contents}
use butos.Drivers.Keyboard.{Driver, standard_keys, shift_keys, altgr_keys}
use butos.Drivers.Keyboard.Typist.{
  Layer, standard, shifted, alternate, Typist, Layout, type_step, type_run,
}
use butos.Drivers.Keyboard.Typing.{Shows, Types, keyboard_run, table, run-Types}
use butos.Drivers.Keyboard.Strokes.{strokes, run_arrives}

abbrev keys_of : Layer → List ℕ
keys_of standard = standard_keys
keys_of shifted = shift_keys
keys_of alternate = altgr_keys

abbrev layout : Layout
layout l i = get_or (keys_of l) i 0

-- Three tables of 256 bytes, from the address 1000 on
abbrev tables : (f g h : ℕ → ℕ) → Memory
tables f g h a =
    if ltb a 1256 then f (a - 1000) else if ltb a 1512 then g (a - 1256) else h (a - 1512)

abbrev memory : Memory
memory = tables (layout standard) (layout shifted) (layout alternate)

abbrev driver : Driver
driver = record {
  keyboard = record {
    std_table = 1000;
    shift_table = 1256;
    altgr_table = 1512;
    selected = 1000;
    caps_lock = 0;
  };
  extended = 0;
  input_buffer = record { values = 100; head = 0; tail = 0; size = 0; capacity = 8 };
  memory = memory;
}

abbrev typist : Typist
typist = record { layer = standard; lock = false; prefix = false }

keys_at : (i p : ℕ) → p + i - p ≡ i
keys_at i p = omega arith

tables_lem :
    (f g h : ℕ → ℕ) (i : ℕ)
    → i < 128
    → (tables f g h (1000 + i) ≡ f i)
      × (tables f g h (1256 + i) ≡ g i)
      × (tables f g h (1512 + i) ≡ h i)
tables_lem f g h i lt =
    ground (arith, ap f (keys_at i 1000), ap g (keys_at i 1256), ap h (keys_at i 1512))

keys_lem : (l : Layer) (i : ℕ) → i < 128 → memory (table driver.keyboard l + i) ≡ layout l i
keys_lem standard i h = (tables_lem (layout standard) (layout shifted) (layout alternate) i h).0
keys_lem shifted i h = (tables_lem (layout standard) (layout shifted) (layout alternate) i h).1
keys_lem alternate i h = (tables_lem (layout standard) (layout shifted) (layout alternate) i h).2

driver-Shows : Shows layout driver typist
driver-Shows = record {
  keys = keys_lem;
  apart = λ l. grind arith;
  present = λ l. grind arith;
  selected = refl;
  lock = refl;
  prefix = refl;
  valid = omega arith;
}

-- Shift down, q, q up, shift up, w, alternate graphic down, 7, alternate graphic up
abbrev scans : List ℕ
scans = 0x2a ∷ 16 ∷ 144 ∷ 0xaa ∷ 17 ∷ 0xe0 ∷ 0x38 ∷ 8 ∷ 0xe0 ∷ 0xb8 ∷ []

-- They type Q, w and an opening brace.
scans_typed : (type_run layout typist scans).1 ≡ 81 ∷ 119 ∷ 123 ∷ []
unfolding type_run type_step
scans_typed = refl

run-Types_example :
    let (t', cs) = type_run layout typist scans in
    Types layout driver (keyboard_run driver scans) t' cs
run-Types_example = run-Types layout scans driver typist driver-Shows

-- q, w and 7
run_arrives_example :
    let d' = keyboard_run driver (strokes (16 ∷ 17 ∷ 8 ∷ [])) in
    contents d'.memory d'.input_buffer ≡ map (layout standard) (16 ∷ 17 ∷ 8 ∷ [])
run_arrives_example =
    run_arrives layout standard false (16 ∷ 17 ∷ 8 ∷ []) driver driver-Shows
      (
        omega arith,
        omega arith,
        omega arith,
        omega arith,
        omega arith,
        omega arith,
        omega arith,
        grind arith,
        (
          omega arith,
          omega arith,
          omega arith,
          omega arith,
          omega arith,
          omega arith,
          omega arith,
          grind arith,
          (
            omega arith,
            omega arith,
            omega arith,
            omega arith,
            omega arith,
            omega arith,
            omega arith,
            grind arith,
            tt,
          ),
        ),
      )
      (omega arith)
