-- ===== src/Libs/Print/Screen/Cells.antt =====
-- Characters and strings appear in the cells of the screen.
use butos.Prelude.{
  ℕ, zero, suc, ◌+◌, ◌*◌, ◌%◌, ◌<◌, ◌≡◌, ◌≢◌, refl, ap, subst, ◌∙◌, inl, some, List, [], ◌∷◌,
  length, arith, ◌==◌, if◌then◌else◌, ne→==_false, lt→leb_false, if_intro,
}
use butos.Libs.Memory.{Memory}
use butos.Libs.Memory.Copy.{Outside}
use butos.Libs.Ctype.{int_of_char}
use butos.Libs.Search.Lengths.{IsString}
use butos.Libs.Print.Screen.{is_zero, putc_c, puts_c}
use butos.Drivers.Ports.{Ports}
use butos.Drivers.Vga.{
  Vga, pos, negsuc, cell, max_vid, allowed, move_pointer, vga_pointer_inc, vga_write, vga_newline,
  write_cell, vga_cursor_inc, vga_cursor_update_, vga_cursor_get_position_, vga_register_select,
  vga_register_read, vga_register_write,
}
use butos.Drivers.Vga.Crtc.{Crtc}
use butos.Drivers.Vga.Cursor.{
  OnScreen, inc, write, newline, allign_left, tab, vga_call, call-OnScreen,
}

-- A character that `putc_c` puts on the screen as it is
abbrev pub IsShown : ℕ → Type 0
IsShown c = (0 < c) × (c < 256) × (c ≢ 8) × (c ≢ 9) × (c ≢ 10) × (c ≢ 13)

abbrev pub AllShown : List ℕ → Type 0
AllShown [] = Unit
AllShown (c ∷ cs) = IsShown c × AllShown cs

-- The characters stand in the cells from `p` on, in their colour.
abbrev pub Stands : Memory → (p color : ℕ) → List ℕ → Type 0
Stands text p color [] = Unit
Stands text p color (c ∷ cs) =
    (text (cell p) ≡ c) × (text (cell p + 1) ≡ color) × Stands text (p + 1) color cs

int_of_char_lem :
    (c : ℕ)
    → IsShown c
    → let d = int_of_char c in (d % 256 ≡ c) × (d ≢ 0) × (d ≢ 8) × (d ≢ 9) × (d ≢ 10) × (d ≢ 13)
int_of_char_lem c h = grind arith

module _ {S : Type 0} ⦃io : Ports S⦄ where
  -- The characters one after the other
  abbrev pub putc_all : Vga S → ℕ → List ℕ → Vga S
  putc_all v color [] = v
  putc_all v color (c ∷ cs) = putc_all (putc_c v color (int_of_char c)).0 color cs

  -- On a string `puts_c` puts its characters one after the other and returns how many they are; with
  -- more fuel than the string has characters it ends.
  pub puts_c_lem :
      (fuel : ℕ) (mem : Memory) (v : Vga S) (color string : ℕ) (cs : List ℕ)
      → IsString mem string cs
      → length cs < fuel
      → puts_c fuel mem v color string ≡ some (putc_all v color cs, length cs)
  unfolding puts_c
  puts_c_lem zero mem v color string cs s enough = absurd (omega arith)
  puts_c_lem (suc fuel) mem v color string [] s enough = rw s refl
  puts_c_lem (suc fuel) mem v color string (c ∷ cs) (at, not_nul, s) enough =
      rw (at, ne→==_false c 0 not_nul)
        (rw
          (puts_c_lem fuel mem (putc_c v color (int_of_char c)).0 color (string + 1) cs s
            (omega arith))
          (ap (λ n. some (putc_all v color (c ∷ cs), n)) {x = length cs + 1} {y = suc (length cs)}
            (omega arith)))

  -- A step to the next cell, where it is on the screen
  inc_one :
      (v : Vga S)
      → v.pointer + 1 < max_vid
      → let v' = (vga_pointer_inc v (pos 1)).0 in (v'.pointer ≡ v.pointer + 1) × (v'.text ≡ v.text)
  unfolding vga_pointer_inc allowed move_pointer vga_cursor_inc vga_cursor_update_
      vga_cursor_get_position_ vga_register_select vga_register_read vga_register_write
  inc_one v room = rw (lt→leb_false (v.pointer + 1) max_vid (omega arith)) (refl, refl)

  putc_shown :
      (v : Vga S) (color c : ℕ)
      → IsShown c
      → putc_c v color (int_of_char c) ≡ ((vga_pointer_inc (vga_write v color c) (pos 1)).0, c)
  unfolding putc_c
  putc_shown v color c h =
      let d = int_of_char c in
      let (byte, nul, bs, ht, nl, cr) = int_of_char_lem c h in
      rw
        (
          ne→==_false d 10 nl,
          ne→==_false d 13 cr,
          ne→==_false d 8 bs,
          ne→==_false d 9 ht,
          ne→==_false d 0 nul,
          byte,
        )
        refl

  putc_one :
      (v : Vga S) (color c : ℕ)
      → IsShown c
      → v.pointer + 1 < max_vid
      → let v' = (putc_c v color (int_of_char c)).0 in
        (v'.pointer ≡ v.pointer + 1) × (v'.text ≡ write_cell v.text v.pointer color c)
  unfolding vga_write
  putc_one v color c h room = rw (putc_shown v color c h) (inc_one (vga_write v color c) room)

  written :
      (v v' : Vga S) (color c a : ℕ)
      → v'.text ≡ write_cell v.text v.pointer color c
      → v'.text a
        ≡ (if a == cell v.pointer then c else if a == cell v.pointer + 1 then color else v.text a)
  unfolding write_cell
  written v v' color c a e = ap (λ t. t a) e

  -- What a text that fits on the screen leaves there
  pub record Appears (v v' : Vga S) (color : ℕ) (cs : List ℕ) : Type 0 where
    pub pointer : v'.pointer ≡ v.pointer + length cs
    pub stands : Stands v'.text v.pointer color cs
    pub other : (a : ℕ) → Outside (cell v.pointer) (2 * length cs) a → v'.text a ≡ v.text a

  -- Characters other than the controls that fit on the screen behind the position appear in the cells
  -- from there on, each in its colour; the position stands behind them, and no other byte of video
  -- memory changes.
  pub putc_all_lem :
      (cs : List ℕ) (v : Vga S) (color : ℕ)
      → AllShown cs
      → v.pointer + length cs < max_vid
      → Appears v (putc_all v color cs) color cs
  putc_all_lem [] v color h room = record {
    pointer = omega arith;
    stands = tt;
    other = λ a o. refl;
  }
  putc_all_lem (c ∷ cs) v color (shown, h) room =
      let v1 = (putc_c v color (int_of_char c)).0 in
      let (p, t) = putc_one v color c shown (omega arith) in
      let a = putc_all_lem cs v1 color h (omega (arith, p)) in
      record {
        pointer = omega (arith, p, a.pointer);
        stands = (
          a.other (cell v.pointer) (inl (omega (arith, p)))
              ∙ written v v1 color c (cell v.pointer) t
              ∙ ground arith,
          a.other (cell v.pointer + 1) (inl (omega (arith, p)))
              ∙ written v v1 color c (cell v.pointer + 1) t
              ∙ ground arith,
          subst (λ q. Stands (putc_all v1 color cs).text q color cs) p a.stands,
        );
        other =
            λ x o. a.other x (omega (arith, p, o)) ∙ written v v1 color c x t ∙ ground (arith, o);
      }

  -- `puts_c` on a string of such characters ends, and its characters appear on the screen.
  pub puts_c-Appears :
      (fuel : ℕ) (mem : Memory) (v : Vga S) (color string : ℕ) (cs : List ℕ)
      → IsString mem string cs
      → length cs < fuel
      → AllShown cs
      → v.pointer + length cs < max_vid
      → (v' : Vga S) × (puts_c fuel mem v color string ≡ some (v', length cs))
        × Appears v v' color cs
  puts_c-Appears fuel mem v color string cs s enough h room = (
    putc_all v color cs,
    puts_c_lem fuel mem v color string cs s enough,
    putc_all_lem cs v color h room,
  )

  putc-OnScreen :
      {ioas : ℕ} (c : Crtc io ioas) (v : Vga S) (color x : ℕ)
      → OnScreen c v
      → OnScreen c (putc_c v color x).0
  unfolding putc_c vga_call
  putc-OnScreen c v color x o =
      let on = λ (w : Vga S × ℕ). OnScreen c w.0 in
      let (back, moved) = vga_pointer_inc v (negsuc 0) in
      let o_back = call-OnScreen c v (inc (negsuc 0)) o in
      if_intro on (x == 10)
        (call-OnScreen c (vga_newline v).0 allign_left (call-OnScreen c v newline o))
        (if_intro on (x == 13) (call-OnScreen c v allign_left o) (
          if_intro on (x == 8)
            (if_intro (OnScreen c) (is_zero moved) o_back
              (call-OnScreen c back (write color 32) o_back))
            (if_intro on (x == 9) (call-OnScreen c v tab o) (
              if_intro on (x == 0) o (
                call-OnScreen c (vga_write v color (x % 256)) (inc (pos 1))
                  (call-OnScreen c v (write color (x % 256)) o))))))

  -- Whatever characters are printed, the position stays on the screen and the cursor is there.
  pub putc_all-OnScreen :
      {ioas : ℕ} (c : Crtc io ioas) (cs : List ℕ) (v : Vga S) (color : ℕ)
      → OnScreen c v
      → OnScreen c (putc_all v color cs)
  putc_all-OnScreen c [] v color o = o
  putc_all-OnScreen c (x ∷ cs) v color o =
      putc_all-OnScreen c cs (putc_c v color (int_of_char x)).0 color
        (putc-OnScreen c v color (int_of_char x) o)
