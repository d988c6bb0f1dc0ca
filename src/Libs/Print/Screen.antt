-- ===== src/Libs/Print/Screen.antt =====
-- print.c: characters, strings and formatted output on the screen. The loops over strings run on fuel,
-- and `none` is a loop that goes on. `va_list` is the words that lie where the arguments do, and the
-- number of those that were taken.
pub mod Cells
pub mod Directives
pub mod Format
mod Tests
use butos.Prelude.{
  ℕ, zero, suc, ◌+◌, ◌-◌, ◌%◌, ◌^◌, Bool, true, false, ◌&&◌, Option, none, some, leb, ◌==◌,
  if◌then◌else◌, sub32,
}
use butos.Libs.Memory.{Memory}
use butos.Libs.Ctype.{int_of_char}
use butos.Libs.Print.{base_convert}
use butos.Drivers.Ports.{Ports}
use butos.Drivers.Vga.{
  Vga, ℤ, pos, negsuc, vga_pointer_inc, vga_write, vga_newline, vga_allign_left, vga_tab,
}

abbrev pub std_color : ℕ
std_color = 7

-- `!n`
abbrev pub is_zero : ℤ → Bool
is_zero (pos zero) = true
is_zero (pos (suc n)) = false
is_zero (negsuc n) = false

-- A piece of a format: its end, a character, a string, a number in a base, or an unknown letter
pub data Piece : Type 0 where
  finish text unknown : Piece
  plain : (c : ℕ) → Piece
  number : (base : ℕ) (is_signed : Bool) → Piece

-- The `switch` on the letter behind a percent sign, and the test for `s` before it
unfoldable pub conversion : ℕ → Piece
conversion opt =
    if opt == 115
    then text
    else if opt == 120
    then number 16 false
    else if opt == 100
    then number 10 true
    else if opt == 117
    then number 10 false
    else if opt == 98
    then number 2 false
    else if opt == 111
    then number 8 false
    else unknown

-- The piece of the format at `str`
unfoldable pub piece : Memory → ℕ → Piece
unfolding conversion
piece mem str =
    if mem str == 0
    then finish
    else if mem str == 37
    then conversion (mem (str + 1))
    else plain (mem str)

-- `(uint32_t)ABS((int32_t)num)` of a signed number, and the number itself otherwise
abbrev pub magnitude : Bool → ℕ → ℕ
magnitude is_signed num = if is_signed && leb (2 ^ 31) num then sub32 0 num else num

module _ {S : Type 0} ⦃io : Ports S⦄ where
  unfoldable pub putc_c : Vga S → (color c : ℕ) → Vga S × ℕ
  putc_c v color c =
      if c == 10
      then ((vga_allign_left (vga_newline v).0).0, c % 256)
      else if c == 13
      then ((vga_allign_left v).0, c % 256)
      else if c == 8
      then (let (v', moved) = vga_pointer_inc v (negsuc 0) in
          (if is_zero moved then v' else vga_write v' color 32, c % 256))
      else if c == 9
      then ((vga_tab v).0, c % 256)
      else if c == 0
      then (v, c % 256)
      else ((vga_pointer_inc (vga_write v color (c % 256)) (pos 1)).0, c % 256)

  unfoldable pub puts_c : (fuel : ℕ) → Memory → Vga S → (color string : ℕ) → Option (Vga S × ℕ)
  puts_c zero mem v color string = none
  puts_c (suc fuel) mem v color string =
      let rest = puts_c fuel mem (putc_c v color (int_of_char (mem string))).0 color (string + 1) in
      if mem string == 0
      then some (v, 0)
      else elim rest [ none ↦ none | some (v', count) ↦ some (v', count + 1) ]

  unfoldable pub putc : Vga S → ℕ → Vga S × ℕ
  putc v c = let (v', out) = putc_c v std_color c in (v', out % 256)

  unfoldable pub puts : (fuel : ℕ) → Memory → Vga S → ℕ → Option (Vga S × ℕ)
  puts fuel mem v string = puts_c fuel mem v std_color string

  -- A number, with what `base_convert` returned: the screen, `none` where it returned no length
  unfoldable pub print_number :
      (fuel : ℕ)
      → Vga S
      → (color buffer : ℕ) (negative : Bool) → Memory × Option ℕ
      → Option (Option (Vga S))
  print_number fuel v color buffer negative (mem, none) = some none
  print_number fuel v color buffer negative (mem, some length) =
      let shown = puts_c fuel mem (if negative then (putc_c v color 45).0 else v) color buffer in
      if length == 0
      then some none
      else elim shown [ none ↦ none | some (v', count) ↦ some (some v') ]

  -- The screen, the memory and the count of numbers. `args n` is the word that is the next argument,
  -- and `buffer` is the address of the local buffer of 80 bytes.
  unfoldable pub vprintk_loop :
      (fuel : ℕ)
      → Memory
      → Vga S
      → (color str : ℕ) (args : ℕ → ℕ) (n buffer read : ℕ) → Option (Vga S × Memory × ℕ)
  vprintk_loop zero mem v color str args n buffer read = none
  vprintk_loop (suc fuel) mem v color str args n buffer read = elim (piece mem str) [
    | finish ↦ some (v, mem, read)
    | unknown ↦ some (v, mem, read)
    | plain c ↦
        vprintk_loop fuel mem (putc_c v color (int_of_char c)).0 color (str + 1) args n buffer read
    | text ↦ elim (puts_c fuel mem v color (args n)) [
      | none ↦ none
      | some (v', count) ↦ vprintk_loop fuel mem v' color (str + 2) args (n + 1) buffer read
    ]
    | number base is_signed ↦
        (let out = base_convert mem buffer 80 (magnitude is_signed (args n)) base in
          elim (print_number fuel v color buffer (is_signed && leb (2 ^ 31) (args n)) out) [
            | none ↦ none
            | some none ↦ some (v, out.0, read)
            | some (some v') ↦
                vprintk_loop fuel out.0 v' color (str + 2) args (n + 1) buffer (read + 1)
          ])
  ]

  unfoldable pub vprintk_c :
      (fuel : ℕ)
      → Memory
      → Vga S
      → (color str : ℕ) (args : ℕ → ℕ) (buffer : ℕ) → Option (Vga S × Memory × ℕ)
  vprintk_c fuel mem v color str args buffer = vprintk_loop fuel mem v color str args 0 buffer 0

  -- `printk` and `printk_c` differ in the colour.
  unfoldable pub printk :
      (fuel : ℕ)
      → Memory
      → Vga S
      → (str : ℕ) (args : ℕ → ℕ) (buffer : ℕ) → Option (Vga S × Memory × ℕ)
  printk fuel mem v str args buffer = vprintk_c fuel mem v std_color str args buffer
