-- ===== src/Drivers/Vga.antt =====
-- vga.c: text on the screen. The position `vga_pointer` is the number of its cell, counted from
-- VGA_TEXT_START; video memory is a memory of its own, which no other object of the kernel shares.
pub mod Crtc
pub mod Cursor
pub mod Scroll
pub mod Sample
mod Tests
use butos.Prelude.{
  ℕ, zero, suc, ◌+◌, ◌-◌, ◌*◌, ◌/◌, ◌%◌, ◌^◌, Bool, true, false, ◌&&◌, ltb, leb, ◌==◌,
  if◌then◌else◌, bit_or, bit_and,
}
use butos.Libs.Memory.{Memory, store, memcpy}
use butos.Drivers.Ports.{Ports}

-- An `int`, a number of cells to move on or back
pub data ℤ : Type 0 where
  pos negsuc : ℕ → ℤ

-- `-n`
abbrev pub neg : ℕ → ℤ
neg zero = pos 0
neg (suc n) = negsuc n

-- The globals `vga_ioas` and `vga_pointer`, video memory, and the machine behind the ports
pub record Vga (S : Type 0) : Type 0 where
  pub ioas : ℕ
  pub pointer : ℕ
  pub text : Memory
  pub machine : S

abbrev pub vga_text_start : ℕ
vga_text_start = 0xb8000

-- `VGA_TEXT_END`, counted in cells of two bytes
abbrev pub vga_text_end : ℕ
vga_text_end = 4000

abbrev pub vga_cols : ℕ
vga_cols = 80

abbrev pub vga_rows : ℕ
vga_rows = 25

-- `MAX_VID`, the first cell behind the screen
abbrev pub max_vid : ℕ
max_vid = 2000

-- `VGA_CRTC_ADDRESS` and `VGA_CRTC_DATA`
abbrev pub vga_crtc_address : ℕ → ℕ
vga_crtc_address ioas = if ioas == 0 then 0x3b4 else 0x3d4

abbrev pub vga_crtc_data : ℕ → ℕ
vga_crtc_data ioas = if ioas == 0 then 0x3b5 else 0x3d5

abbrev pub vga_cursor_start_register : ℕ
vga_cursor_start_register = 0x0a

abbrev pub vga_cursor_location_high_register : ℕ
vga_cursor_location_high_register = 0x0e

abbrev pub vga_cursor_location_low_register : ℕ
vga_cursor_location_low_register = 0x0f

-- `LOW_OFFSET` and `HIGH_OFFSET`
abbrev pub low_offset : ℕ → ℕ
low_offset off = off % 256

abbrev pub high_offset : ℕ → ℕ
high_offset off = off / 256 % 256

-- The address of a cell
abbrev pub cell : ℕ → ℕ
cell i = vga_text_start + 2 * i

-- `vga_pointer + pos < VGA_TEXT_START`
abbrev pub before_start : ℕ → ℤ → Bool
before_start p (pos n) = false
before_start p (negsuc n) = ltb p (suc n)

-- `pos <= -mod`
abbrev pub le_neg : ℤ → ℕ → Bool
le_neg (pos n) offset = n == 0 && offset == 0
le_neg (negsuc n) offset = leb offset (suc n)

-- `vga_pointer + pos`, where it is no cell before the first
abbrev pub move : ℕ → ℤ → ℕ
move p (pos n) = p + n
move p (negsuc n) = p - suc n

-- `vga_cursor_get_position_() + pos` as a `uint16_t`
abbrev pub add16 : ℕ → ℤ → ℕ
add16 p (pos n) = (p + n) % 2 ^ 16
add16 p (negsuc n) = (p + 2 ^ 16 - suc n % 2 ^ 16) % 2 ^ 16

-- The move that `vga_pointer_inc` makes: none before the first cell, and none to a line above
unfoldable pub allowed : ℕ → ℤ → ℤ
allowed pointer step =
    let step' = if before_start pointer step then pos 0 else step in
    if le_neg step' (pointer % vga_cols) then neg (pointer % vga_cols) else step'

-- `vga_scroll_down`: each line from `line` to the end of the text becomes the one below it. The loop
-- runs on fuel.
unfoldable pub scroll_loop : (fuel : ℕ) → Memory → (line : ℕ) → Memory
scroll_loop zero text line = text
scroll_loop (suc fuel) text line =
    let rest =
      scroll_loop fuel (memcpy text (cell line) (cell (line + vga_cols)) 160) (line + vga_cols) in
    if leb line (vga_text_end - 80) then rest else text

-- The text has fifty lines.
abbrev pub scroll_fuel : ℕ
scroll_fuel = 51

unfoldable pub vga_scroll_down : Memory → Memory
vga_scroll_down text = scroll_loop scroll_fuel text 0

-- `for (int i = 0; i < quot; i++) vga_scroll_down();`
unfoldable pub scroll_rows : ℕ → Memory → Memory
scroll_rows zero text = text
scroll_rows (suc n) text = scroll_rows n (vga_scroll_down text)

-- `vga_write`: the character and its colour in a cell
unfoldable pub write_cell : Memory → ℕ → (color c : ℕ) → Memory
write_cell text p color c = store (store text (cell p + 1) color) (cell p) c

-- The loop of `vga_clear`, on fuel
unfoldable pub clear_loop : (fuel : ℕ) → Memory → (p color : ℕ) → Memory
unfolding write_cell
clear_loop zero text p color = text
clear_loop (suc fuel) text p color =
    let rest = clear_loop fuel (write_cell text p color 32) (p + 1) color in
    if ltb p vga_text_end then rest else text

abbrev pub clear_fuel : ℕ
clear_fuel = 4001

-- `BACKGROUND(bg_color) | FOREGROUND(WHITE)` as a `uint8_t`
abbrev pub clear_color : ℕ → ℕ
clear_color bg_color = bit_or (bg_color * 16) 7 % 256

-- The screen behind the loop of `vga_clear`
unfoldable pub cleared : {S : Type 0} → Vga S → ℕ → Vga S
cleared v bg_color = record v {
  pointer = vga_text_end;
  text = clear_loop clear_fuel v.text 0 (clear_color bg_color);
}

module _ {S : Type 0} ⦃io : Ports S⦄ where
  unfoldable pub vga_register_select : Vga S → ℕ → Vga S
  vga_register_select v reg = record v { machine = io.outb v.machine (vga_crtc_address v.ioas) reg }

  unfoldable pub vga_register_read : Vga S → Vga S × ℕ
  vga_register_read v =
      let (m, byte) = io.inb v.machine (vga_crtc_data v.ioas) in (record v { machine = m }, byte)

  unfoldable pub vga_register_write : Vga S → ℕ → Vga S
  vga_register_write v byte = record v { machine = io.outb v.machine (vga_crtc_data v.ioas) byte }

  unfoldable pub vga_cursor_disable : Vga S → Vga S
  unfolding vga_register_select vga_register_write
  vga_cursor_disable v = vga_register_write (vga_register_select v vga_cursor_start_register) 0x20

  -- The half of `vga_cursor_enable` that puts a line in the low bits of the register, which are those
  -- below `bound`
  unfoldable pub cursor_line : Vga S → (bound line : ℕ) → Vga S
  unfolding vga_register_select vga_register_read vga_register_write
  cursor_line v bound line =
      let (v', old) = vga_register_read (vga_register_select v vga_cursor_start_register) in
      vga_register_write v' (bit_or (old - old % bound) line)

  unfoldable pub vga_cursor_enable : Vga S → (cursor_start cursor_end : ℕ) → Vga S
  unfolding cursor_line
  vga_cursor_enable v cursor_start cursor_end =
      cursor_line (cursor_line v 32 cursor_start) 64 cursor_end

  -- The position is a `uint16_t`.
  unfoldable pub vga_cursor_update_ : Vga S → ℕ → Vga S
  unfolding vga_register_select vga_register_write
  vga_cursor_update_ v pos16 =
      let v1 =
        vga_register_write (vga_register_select v vga_cursor_location_low_register)
          (low_offset pos16) in
      vga_register_write (vga_register_select v1 vga_cursor_location_high_register)
        (high_offset pos16)

  unfoldable pub vga_cursor_update : Vga S → (x y : ℕ) → Vga S
  vga_cursor_update v x y = vga_cursor_update_ v ((y * vga_cols + x) % 2 ^ 16)

  unfoldable pub vga_cursor_get_position_ : Vga S → Vga S × ℕ
  unfolding vga_register_select vga_register_read
  vga_cursor_get_position_ v =
      let (v1, low) = vga_register_read (vga_register_select v vga_cursor_location_low_register) in
      let (v2, high) =
        vga_register_read (vga_register_select v1 vga_cursor_location_high_register) in
      (v2, low + high * 2 ^ 8)

  -- The column and the row, as `uint8_t`
  unfoldable pub vga_cursor_get_position : Vga S → Vga S × ℕ × ℕ
  vga_cursor_get_position v =
      let (v', pos16) = vga_cursor_get_position_ v in
      let x = pos16 % vga_cols in (v', x, (pos16 - x) / vga_cols % 256)

  unfoldable pub vga_cursor_inc : Vga S → ℤ → Vga S
  vga_cursor_inc v step =
      let (v', pos16) = vga_cursor_get_position_ v in vga_cursor_update_ v' (add16 pos16 step)

  unfoldable pub vga_pointer_set : Vga S → ℕ → Vga S
  vga_pointer_set v address =
      if ltb address max_vid
      then vga_cursor_update_ (record v { pointer = address }) (address % 2 ^ 16)
      else v

  -- `vga_pointer_inc`, with the move that its first tests allow
  unfoldable pub move_pointer : Vga S → ℤ → Vga S
  unfolding vga_pointer_set vga_cursor_inc
  move_pointer v step =
      let p = move v.pointer step in
      if leb max_vid p
      then vga_pointer_set
          (record v { text = vga_scroll_down (scroll_rows (p / vga_cols - vga_rows) v.text) })
          (max_vid - vga_cols + p % vga_cols)
      else vga_cursor_inc (record v { pointer = p }) step

  unfoldable pub vga_pointer_inc : Vga S → ℤ → Vga S × ℤ
  unfolding move_pointer allowed
  vga_pointer_inc v step = (move_pointer v (allowed v.pointer step), allowed v.pointer step)

  unfoldable pub vga_write : Vga S → (color c : ℕ) → Vga S
  unfolding write_cell
  vga_write v color c = record v { text = write_cell v.text v.pointer color c }

  unfoldable pub vga_newline : Vga S → Vga S × ℤ
  unfolding vga_pointer_inc
  vga_newline v = vga_pointer_inc v (pos vga_cols)

  unfoldable pub vga_allign_left : Vga S → Vga S × ℤ
  unfolding vga_pointer_inc
  vga_allign_left v =
      let offset = v.pointer % vga_cols in ((vga_pointer_inc v (neg offset)).0, neg offset)

  -- Eight columns of ten cells
  unfoldable pub vga_tab : Vga S → Vga S × ℤ
  unfolding vga_pointer_inc
  vga_tab v = vga_pointer_inc v (pos (10 - v.pointer % 10))

  unfoldable pub vga_clear : Vga S → ℕ → Vga S
  vga_clear v bg_color = vga_pointer_set (cleared v bg_color) 0

  -- `vga_open`; the bit of VGA_MISCELLANEOUS_OUTPUT_REGISTER_READ chooses the ports.
  unfoldable pub vga_open : Vga S → Vga S
  unfolding vga_cursor_enable vga_cursor_update_
  vga_open v =
      let (m, byte) = io.inb v.machine 0x3cc in
      vga_cursor_update_ (vga_cursor_enable (record v { machine = m; ioas = byte % 2 }) 13 14) 0
