-- ===== src/Drivers/Vga/Cursor.antt =====
-- The position of vga.c stays on the screen, and the cursor of the screen stands there.
use butos.Prelude.{
  ℕ, zero, suc, ◌+◌, ◌-◌, ◌/◌, ◌%◌, ◌^◌, ◌≤◌, ◌<◌, ◌≡◌, refl, sym, ◌∙◌, subst, List, [], ◌∷◌, arith,
  dec_lt, lt→ltb, le→leb, lt→leb_false,
}
use native.Mathlib.Nat.{mod-eq_of_lt}
use butos.Drivers.Ports.{Ports}
use butos.Drivers.Vga.{
  Vga, ℤ, pos, negsuc, neg, move, add16, allowed, vga_cols, vga_rows, max_vid, vga_cursor_update_,
  vga_cursor_get_position_, vga_cursor_inc, vga_pointer_set, move_pointer, vga_pointer_inc,
  vga_write, vga_newline, vga_allign_left, vga_tab, cleared, vga_clear, vga_register_select,
  vga_register_read, vga_register_write, scroll_rows, vga_scroll_down,
}
use butos.Drivers.Vga.Crtc.{Crtc, Shown, update-Shown, inc-Shown}

-- A move to the left stays on the line.
abbrev pub Allowed : ℕ → ℤ → Type 0
Allowed p (pos n) = Unit
Allowed p (negsuc n) = suc n ≤ p % vga_cols

neg-Allowed : (p k : ℕ) → k ≤ p % vga_cols → Allowed p (neg k)
neg-Allowed p zero h = tt
neg-Allowed p (suc k) h = h

allowed-Allowed : (p : ℕ) (step : ℤ) → Allowed p (allowed p step)
unfolding allowed
allowed-Allowed p (pos n) = ground (arith, neg-Allowed p (p % vga_cols) (omega arith))
allowed-Allowed p (negsuc n) = ground (arith, neg-Allowed p (p % vga_cols) (omega arith))

-- An allowed move is the same of a position and of the cursor's.
add16_lem : (p : ℕ) (step : ℤ) → p < max_vid → Allowed p step → add16 p step ≡ move p step % 2 ^ 16
add16_lem p (pos n) on h = refl
add16_lem p (negsuc n) on h = omega arith

-- The calls that put text on the screen
pub data Call : Type 0 where
  inc : ℤ → Call
  write : (color c : ℕ) → Call
  newline allign_left tab : Call
  clear : (bg_color : ℕ) → Call

unfoldable pub vga_call : {S : Type 0} ⦃io : Ports S⦄ → Vga S → Call → Vga S
unfolding vga_newline vga_allign_left vga_tab vga_write
vga_call v (inc step) = (vga_pointer_inc v step).0
vga_call v (write color c) = vga_write v color c
vga_call v newline = (vga_newline v).0
vga_call v allign_left = (vga_allign_left v).0
vga_call v tab = (vga_tab v).0
vga_call v (clear bg_color) = vga_clear v bg_color

unfoldable pub vga_run : {S : Type 0} ⦃io : Ports S⦄ → Vga S → List Call → Vga S
vga_run v [] = v
vga_run v (call ∷ calls) = vga_run (vga_call v call) calls

module _ {S : Type 0} ⦃io : Ports S⦄ {ioas : ℕ} (c : Crtc io ioas) where
  -- The position is a cell of the screen, and the cursor is there.
  pub record OnScreen (v : Vga S) : Type 0 where
    pub ports : v.ioas ≡ ioas
    pub on : v.pointer < max_vid
    pub shown : Shown c v.machine v.pointer

  pointer_set-OnScreen :
      (v : Vga S) (address : ℕ)
      → v.ioas ≡ ioas
      → address < max_vid
      → OnScreen (vga_pointer_set v address)
  unfolding vga_pointer_set vga_cursor_update_ vga_register_select vga_register_write
  pointer_set-OnScreen v address ports on =
      let e : address % 2 ^ 16 ≡ address = mod-eq_of_lt (omega arith) in
      rw (lt→ltb address max_vid on) (record {
        ports = ports;
        on = on;
        shown =
            subst
              (λ p. Shown c (vga_cursor_update_ (record v { pointer = address }) p).machine address)
              (sym e) (update-Shown c (record v { pointer = address }) address ports);
      })

  inc-OnScreen :
      (v : Vga S) (step : ℤ)
      → OnScreen v
      → Allowed v.pointer step
      → move v.pointer step < max_vid
      → OnScreen (vga_cursor_inc (record v { pointer = move v.pointer step }) step)
  unfolding vga_cursor_inc vga_cursor_update_ vga_cursor_get_position_ vga_register_select
      vga_register_read vga_register_write
  inc-OnScreen v step o h on =
      let v' = record v { pointer = move v.pointer step } in
      let e : add16 v.pointer step ≡ move v.pointer step =
        add16_lem v.pointer step o.on h ∙ mod-eq_of_lt (omega arith) in
      record {
        ports = o.ports;
        on = on;
        shown =
            subst (Shown c (vga_cursor_inc v' step).machine) e
              (inc-Shown c v' v.pointer step o.ports (omega (arith, o.on)) o.shown);
      }

  move_pointer-OnScreen :
      (v : Vga S) (step : ℤ) → OnScreen v → Allowed v.pointer step → OnScreen (move_pointer v step)
  unfolding move_pointer
  move_pointer-OnScreen v step o h =
      let p = move v.pointer step in
      let text = vga_scroll_down (scroll_rows (p / vga_cols - vga_rows) v.text) in
      elim (dec_lt p max_vid) [
        | yes on ↦ rw (lt→leb_false p max_vid (omega arith)) (inc-OnScreen v step o h on)
        | no off ↦ rw (le→leb max_vid p (omega arith)) (
            pointer_set-OnScreen (record v { text = text }) (max_vid - vga_cols + p % vga_cols)
              o.ports (omega arith))
      ]

  pointer_inc-OnScreen : (v : Vga S) (step : ℤ) → OnScreen v → OnScreen (vga_pointer_inc v step).0
  unfolding vga_pointer_inc
  pointer_inc-OnScreen v step o =
      move_pointer-OnScreen v (allowed v.pointer step) o (allowed-Allowed v.pointer step)

  pub call-OnScreen : (v : Vga S) (call : Call) → OnScreen v → OnScreen (vga_call v call)
  unfolding vga_call vga_newline vga_allign_left vga_tab vga_write vga_clear cleared
  call-OnScreen v (inc step) o = pointer_inc-OnScreen v step o
  call-OnScreen v (write color p) o = record { ports = o.ports; on = o.on; shown = o.shown }
  call-OnScreen v newline o = pointer_inc-OnScreen v (pos vga_cols) o
  call-OnScreen v allign_left o = pointer_inc-OnScreen v (neg (v.pointer % vga_cols)) o
  call-OnScreen v tab o = pointer_inc-OnScreen v (pos (10 - v.pointer % 10)) o
  call-OnScreen v (clear bg_color) o =
      pointer_set-OnScreen (cleared v bg_color) 0 o.ports (omega arith)

  -- Whatever calls put text on the screen, the position stays one of its 2000 cells, and the cursor
  -- registers of the device, if it behaves as it is documented, have that position.
  pub run-OnScreen : (calls : List Call) (v : Vga S) → OnScreen v → OnScreen (vga_run v calls)
  unfolding vga_run
  run-OnScreen [] v o = o
  run-OnScreen (call ∷ calls) v o = run-OnScreen calls (vga_call v call) (call-OnScreen v call o)
