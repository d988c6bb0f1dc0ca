-- ===== src/Drivers/Vga/Scroll.antt =====
-- What `vga_scroll_down` and `vga_clear` leave in video memory.
use butos.Prelude.{
  ℕ, zero, suc, ◌+◌, ◌-◌, ◌*◌, ◌≤◌, ◌<◌, ◌≡◌, refl, ap, ◌∙◌, inl, inr, arith, dec_lt, lt→ltb,
  le→leb, lt→leb_false, le→ltb_false,
}
use butos.Libs.Memory.{Memory, store, memcpy}
use butos.Libs.Memory.Copy.{Outside, memcpy_lem}
use butos.Drivers.Ports.{Ports}
use butos.Drivers.Vga.{
  cell, vga_cols, vga_text_end, scroll_loop, scroll_fuel, vga_scroll_down, write_cell, clear_loop,
  clear_fuel, Vga, clear_color, cleared, vga_clear, vga_pointer_set, vga_cursor_update_,
  vga_register_select, vga_register_write,
}

-- The text with the cells from `line` on taken from one line further down
pub record Scrolled (text text' : Memory) (line : ℕ) : Type 0 where
  pub below : (a : ℕ) → cell line ≤ a → a < cell vga_text_end → text' a ≡ text (a + 160)
  pub other : (a : ℕ) → Outside (cell line) (2 * (vga_text_end - line)) a → text' a ≡ text a

scroll_loop_lem :
    (n fuel : ℕ) (text : Memory) (line : ℕ)
    → line + n * vga_cols ≡ vga_text_end
    → n < fuel
    → Scrolled text (scroll_loop fuel text line) line
unfolding scroll_loop
scroll_loop_lem n zero text line at enough = absurd (omega arith)
scroll_loop_lem zero (suc fuel) text line at enough =
    rw (lt→leb_false (vga_text_end - 80) line (omega arith))
      (record { below = λ a from to. absurd (omega arith); other = λ a h. refl })
scroll_loop_lem (suc n) (suc fuel) text line at enough =
    let text1 = memcpy text (cell line) (cell (line + vga_cols)) 160 in
    let (copied, kept) =
      memcpy_lem 160 text (cell line) (cell (line + vga_cols)) (inl (omega arith)) in
    let s = scroll_loop_lem n fuel text1 (line + vga_cols) (omega arith) (omega arith) in
    rw (le→leb line (vga_text_end - 80) (omega arith)) (record {
      below = λ a from to. elim (dec_lt a (cell (line + vga_cols))) [
        | yes first ↦
            let i = a - cell line in
            s.other a (inl first)
            ∙ ap text1 {x = a} {y = cell line + i} (omega arith)
            ∙ copied i (omega arith)
            ∙ ap text (omega arith)
        | no later ↦ s.below a (omega arith) to ∙ kept (a + 160) (inr (omega arith))
      ];
      other = λ a h. s.other a (omega (arith, h)) ∙ kept a (omega (arith, h));
    })

-- `vga_scroll_down` makes each of the fifty lines of the text the line below it, and changes no byte
-- behind the text.
pub scroll_down_lem : (text : Memory) → Scrolled text (vga_scroll_down text) 0
unfolding vga_scroll_down
scroll_down_lem text = scroll_loop_lem 50 scroll_fuel text 0 (omega arith) (omega arith)

-- Blank cells from `p` to the end of the text
pub record Blank (text text' : Memory) (p color : ℕ) : Type 0 where
  pub blank :
      (i : ℕ) → p ≤ i → i < vga_text_end → (text' (cell i) ≡ 32) × (text' (cell i + 1) ≡ color)
  pub other : (a : ℕ) → Outside (cell p) (2 * (vga_text_end - p)) a → text' a ≡ text a

clear_loop_lem :
    (fuel : ℕ) (text : Memory) (p color : ℕ)
    → p ≤ vga_text_end
    → vga_text_end < p + fuel
    → Blank text (clear_loop fuel text p color) p color
unfolding clear_loop write_cell
clear_loop_lem zero text p color inside enough = absurd (omega arith)
clear_loop_lem (suc fuel) text p color inside enough = elim (dec_lt p vga_text_end) [
  | no done ↦
      rw (le→ltb_false vga_text_end p (omega arith))
        (record { blank = λ i from to. absurd (omega arith); other = λ a h. refl })
  | yes more ↦
      let text1 = store (store text (cell p + 1) color) (cell p) 32 in
      let b = clear_loop_lem fuel text1 (p + 1) color (omega arith) (omega arith) in
      rw (lt→ltb p vga_text_end more) (record {
        blank = λ i from to. elim (dec_lt p i) [
          | yes later ↦ b.blank i (omega arith) to
          | no here ↦ (
            b.other (cell i) (inl (omega arith)) ∙ ground arith,
            b.other (cell i + 1) (inl (omega arith)) ∙ ground arith,
          )
        ];
        other = λ a h. b.other a (omega (arith, h)) ∙ ground (arith, h);
      })
]

module _ {S : Type 0} ⦃io : Ports S⦄ where
  -- `vga_clear` makes every cell of the fifty lines a blank of the colour that was asked for, changes
  -- no other byte of video memory and goes back to the first cell.
  pub clear_lem :
      (v : Vga S) (bg_color : ℕ)
      → let v' = vga_clear v bg_color in
        Blank v.text v'.text 0 (clear_color bg_color) × (v'.pointer ≡ 0)
  unfolding vga_clear cleared vga_pointer_set vga_cursor_update_ vga_register_select
      vga_register_write
  clear_lem v bg_color =
      (clear_loop_lem clear_fuel v.text 0 (clear_color bg_color) (omega arith) (omega arith), refl)
