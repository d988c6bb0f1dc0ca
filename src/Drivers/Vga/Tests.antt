-- ===== src/Drivers/Vga/Tests.antt =====
-- Text on a blank screen.
use butos.Prelude.{◌≡◌, refl, [], ◌∷◌, arith}
use butos.Drivers.Vga.{
  pos, negsuc, vga_cursor_update_, vga_cursor_get_position_, vga_cursor_enable, clear_color,
  vga_clear, vga_scroll_down, allowed,
}
use butos.Drivers.Vga.Crtc.{get_position-update, cursor_enable_lem}
use butos.Drivers.Vga.Cursor.{OnScreen, inc, write, newline, tab, vga_run, run-OnScreen}
use butos.Drivers.Vga.Scroll.{Blank, Scrolled, clear_lem, scroll_down_lem}
use butos.Drivers.Vga.Sample.{screen_ports, screen_crtc, screen, screen-OnScreen}

-- From the third cell, five cells back is none, and from the second line it is its start.
allowed_test : (allowed 3 (negsuc 4) ≡ pos 0) × (allowed 83 (negsuc 4) ≡ negsuc 2)
unfolding allowed
allowed_test = (refl, refl)

get_position-update_test : (vga_cursor_get_position_ (vga_cursor_update_ screen 1234)).1 ≡ 1234
get_position-update_test = get_position-update screen_crtc screen 1234 refl (omega arith)

cursor_enable_lem_test :
    (vga_cursor_enable screen 13 14).machine.registers 11 ≡ screen.machine.registers 11
cursor_enable_lem_test = cursor_enable_lem screen_crtc screen 13 14 refl

run-OnScreen_example : OnScreen screen_crtc (
    vga_run screen
      (write 7 65 ∷ inc (pos 1) ∷ inc (negsuc 4) ∷ newline ∷ tab ∷ inc (pos 4000) ∷ []))
run-OnScreen_example =
    run-OnScreen screen_crtc
      (write 7 65 ∷ inc (pos 1) ∷ inc (negsuc 4) ∷ newline ∷ tab ∷ inc (pos 4000) ∷ []) screen
      screen-OnScreen

clear_lem_test :
    Blank screen.text (vga_clear screen 1).text 0 (clear_color 1)
    × ((vga_clear screen 1).pointer ≡ 0)
clear_lem_test = clear_lem screen 1

scroll_down_lem_test : Scrolled screen.text (vga_scroll_down screen.text) 0
scroll_down_lem_test = scroll_down_lem screen.text
