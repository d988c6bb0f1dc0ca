-- ===== src/Libs/Print/Screen/Tests.antt =====
-- Text and formats on a blank screen.
use butos.Prelude.{
  ℕ, ◌-◌, ◌^◌, ◌≡◌, refl, inl, List, [], ◌∷◌, some, true, ltb, arith, get_or, if◌then◌else◌,
}
use butos.Libs.Memory.{Memory}
use butos.Libs.Print.Screen.{puts_c, vprintk_c}
use butos.Libs.Print.Screen.Cells.{Appears, putc_all, puts_c-Appears, putc_all-OnScreen}
use butos.Libs.Print.Screen.Directives.{decimal, Directive, char, string, integer, Encoded}
use butos.Libs.Print.Screen.Format.{Renders, vprintk_lem}
use butos.Drivers.Vga.{Vga}
use butos.Drivers.Vga.Cursor.{OnScreen}
use butos.Drivers.Vga.Sample.{Device, screen_ports, screen_crtc, screen, screen-OnScreen}

-- At 0 the format "n=%d%s", at 16 the string "ok"; the local buffer is at 100.
abbrev bytes : List ℕ
bytes = 110 ∷ 61 ∷ 37 ∷ 100 ∷ 37 ∷ 115 ∷ 0 ∷ 0 ∷ 0 ∷ 0 ∷ 0 ∷ 0 ∷ 0 ∷ 0 ∷ 0 ∷ 0 ∷ 111 ∷ 107 ∷ 0 ∷ []

abbrev mem : Memory
mem a = get_or bytes a 0

-- The arguments -12 and 16
abbrev args : ℕ → ℕ
args n = if ltb n 1 then 2 ^ 32 - 12 else 16

abbrev directives : List Directive
directives = char 110 ∷ char 61 ∷ integer 10 true (2 ^ 32 - 12) ∷ string (111 ∷ 107 ∷ []) ∷ []

directives-Encoded : Encoded mem 100 args 0 0 directives
directives-Encoded = (
  inl (omega arith),
  refl,
  omega arith,
  omega arith,
  (
    inl (omega arith),
    refl,
    omega arith,
    omega arith,
    (
      inl (omega arith),
      inl (omega arith),
      refl,
      decimal,
      refl,
      omega arith,
      (
        inl (omega arith),
        inl (omega arith),
        refl,
        refl,
        inl (omega arith),
        (refl, omega arith, (refl, omega arith, refl)),
        (inl (omega arith), refl),
      ),
    ),
  ),
)

vprintk_lem_example : Renders mem screen 7 100 0 directives (vprintk_c 50 mem screen 7 0 args 100)
vprintk_lem_example =
    vprintk_lem 32 50 mem screen 7 0 args 100 directives (omega arith) (omega arith)
      (omega arith, tt) directives-Encoded

puts_c-Appears_test :
    (v' : Vga Device) × (puts_c 5 mem screen 7 16 ≡ some (v', 2))
    × Appears screen v' 7 (111 ∷ 107 ∷ [])
puts_c-Appears_test =
    puts_c-Appears 5 mem screen 7 16 (111 ∷ 107 ∷ []) (refl, omega arith, (refl, omega arith, refl))
      (omega arith) (omega arith) (omega arith)

putc_all-OnScreen_test : OnScreen screen_crtc (putc_all screen 7 (10 ∷ 8 ∷ 65 ∷ []))
putc_all-OnScreen_test = putc_all-OnScreen screen_crtc (10 ∷ 8 ∷ 65 ∷ []) screen 7 screen-OnScreen
