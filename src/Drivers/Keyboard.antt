-- ===== src/Drivers/Keyboard.antt =====
-- keyboard.c: the scan codes that the keyboard sends become characters in a byte queue. The tables of
-- characters are constants in memory, and a table is named by its address. The byte that a read of
-- the data port gives is an argument of the handler.
pub mod Typist
pub mod Typing
pub mod Strokes
mod Tests
use butos.Prelude.{
  ℕ, ◌+◌, ◌-◌, ◌%◌, Bool, true, false, ◌&&◌, ◌||◌, not, List, [], ◌∷◌, ◌++◌, replicate, leb, ◌==◌,
  if◌then◌else◌,
}
use butos.Libs.Memory.{Memory}
use butos.Libs.Allocator.{null}
use butos.Libs.Alloc.{Kernel}
use butos.Libs.Queue.{Queue, queue_init, queue_enqueue}

abbrev pub standard_keys : List ℕ
standard_keys =
    0
    ∷ 0
    ∷ 49
    ∷ 50
    ∷ 51
    ∷ 52
    ∷ 53
    ∷ 54
    ∷ 55
    ∷ 56
    ∷ 57
    ∷ 48
    ∷ 39
    ∷ 105
    ∷ 8
    ∷ 9
    ∷ 113
    ∷ 119
    ∷ 101
    ∷ 114
    ∷ 116
    ∷ 121
    ∷ 117
    ∷ 105
    ∷ 111
    ∷ 112
    ∷ 101
    ∷ 43
    ∷ 10
    ∷ 0
    ∷ 97
    ∷ 115
    ∷ 100
    ∷ 102
    ∷ 103
    ∷ 104
    ∷ 105
    ∷ 107
    ∷ 108
    ∷ 111
    ∷ 97
    ∷ 92
    ∷ 0
    ∷ 117
    ∷ 122
    ∷ 120
    ∷ 99
    ∷ 118
    ∷ 98
    ∷ 110
    ∷ 109
    ∷ 44
    ∷ 46
    ∷ 45
    ∷ 0
    ∷ 0
    ∷ 0
    ∷ 32
    ∷ (replicate 28 0 ++ (60 ∷ replicate 169 0))

abbrev pub shift_keys : List ℕ
shift_keys =
    0
    ∷ 0
    ∷ 33
    ∷ 34
    ∷ 0
    ∷ 36
    ∷ 37
    ∷ 38
    ∷ 47
    ∷ 40
    ∷ 41
    ∷ 61
    ∷ 63
    ∷ 94
    ∷ 8
    ∷ 9
    ∷ 81
    ∷ 87
    ∷ 69
    ∷ 82
    ∷ 84
    ∷ 89
    ∷ 85
    ∷ 73
    ∷ 79
    ∷ 80
    ∷ 101
    ∷ 42
    ∷ 10
    ∷ 0
    ∷ 65
    ∷ 83
    ∷ 68
    ∷ 70
    ∷ 71
    ∷ 72
    ∷ 73
    ∷ 75
    ∷ 76
    ∷ 111
    ∷ 97
    ∷ 124
    ∷ 0
    ∷ 117
    ∷ 90
    ∷ 88
    ∷ 67
    ∷ 86
    ∷ 66
    ∷ 78
    ∷ 77
    ∷ 59
    ∷ 58
    ∷ 95
    ∷ 0
    ∷ 0
    ∷ 0
    ∷ 32
    ∷ (replicate 28 0 ++ (62 ∷ replicate 169 0))

abbrev pub altgr_keys : List ℕ
altgr_keys =
    0
    ∷ 0
    ∷ 49
    ∷ 50
    ∷ 51
    ∷ 52
    ∷ 53
    ∷ 54
    ∷ 123
    ∷ 91
    ∷ 93
    ∷ 125
    ∷ 96
    ∷ 126
    ∷ 8
    ∷ 9
    ∷ 113
    ∷ 119
    ∷ 101
    ∷ 114
    ∷ 116
    ∷ 121
    ∷ 117
    ∷ 105
    ∷ 111
    ∷ 112
    ∷ 91
    ∷ 93
    ∷ 10
    ∷ 0
    ∷ 97
    ∷ 115
    ∷ 100
    ∷ 102
    ∷ 103
    ∷ 104
    ∷ 105
    ∷ 107
    ∷ 108
    ∷ 64
    ∷ 35
    ∷ 92
    ∷ 0
    ∷ 117
    ∷ 122
    ∷ 120
    ∷ 99
    ∷ 118
    ∷ 98
    ∷ 110
    ∷ 109
    ∷ 44
    ∷ 46
    ∷ 45
    ∷ 0
    ∷ 0
    ∷ 0
    ∷ 32
    ∷ (replicate 28 0 ++ (60 ∷ replicate 169 0))

-- `struct keyboard`: the addresses of its tables and of the one in use, and the lock
pub record Keyboard : Type 0 where
  pub std_table : ℕ
  pub shift_table : ℕ
  pub altgr_table : ℕ
  pub selected : ℕ
  pub caps_lock : ℕ

-- The globals `current_keyboard`, `extended` and `input_buffer`, and the memory
pub record Driver : Type 0 where
  pub keyboard : Keyboard
  pub extended : ℕ
  pub input_buffer : Queue
  pub memory : Memory

abbrev pub extended_scancode : ℕ
extended_scancode = 0xe0

abbrev pub left_shift_key : ℕ
left_shift_key = 0x2a

abbrev pub right_shift_key : ℕ
right_shift_key = 0x36

abbrev pub caps_lock_key : ℕ
caps_lock_key = 0x3a

abbrev pub altgr_key : ℕ
altgr_key = 0x38

-- `CTRL_SCANCODES`: the shifts, the lock, control and alt
abbrev pub ctrl_scancodes : List ℕ
ctrl_scancodes = 0x2a ∷ 0x36 ∷ 0x3a ∷ 0x1d ∷ 0x38 ∷ []

-- `EXTENDED_CTRL_SCANCODES`: control, the menu key, alternate graphic and the arrows
abbrev pub extended_ctrl_scancodes : List ℕ
extended_ctrl_scancodes = 0x1d ∷ 0x5b ∷ 0x38 ∷ 0x48 ∷ 0x4d ∷ 0x4b ∷ 0x50 ∷ []

-- `IN_ARRAY`, a `memchr` over the whole array
abbrev pub in_array : ℕ → List ℕ → Bool
in_array c [] = false
in_array c (x ∷ xs) = x == c || in_array c xs

-- `scan & RELEASED_KEY` of a byte
abbrev pub released : ℕ → Bool
released scan = leb 128 scan

-- `UNRELEASED(scan)` of a byte
abbrev pub unreleased : ℕ → ℕ
unreleased scan = scan % 128

-- `trigger_is_set`: the trigger behind the read, and the answer
unfoldable pub trigger_is_set : ℕ → ℕ × Bool
trigger_is_set trigger = if trigger == 0 then (trigger, false) else (0, true)

-- The current keyboard, and 1 for a keyboard with no table
unfoldable pub select_keyboard : (current keyboard : Keyboard) → Keyboard × ℕ
select_keyboard current keyboard =
    if keyboard.std_table == null then (current, 1) else (keyboard, 0)

-- The `switch` of a key that is not extended; `^= 1` turns the lowest bit over.
unfoldable pub standard_switch : Keyboard → ℕ → Keyboard
standard_switch k scan =
    if scan == right_shift_key || scan == left_shift_key
    then record k { selected = k.shift_table }
    else if scan == caps_lock_key
    then record k { caps_lock = if k.caps_lock % 2 == 0 then k.caps_lock + 1 else k.caps_lock - 1 }
    else k

-- The `switch` of an extended key
unfoldable pub extended_switch : Keyboard → ℕ → Keyboard
extended_switch k scan = if scan == altgr_key then record k { selected = k.altgr_table } else k

-- The end of `keyboard_change_table`: a key that goes up
unfoldable pub release_table : Keyboard → ℕ → Keyboard
release_table k scan =
    if released scan
    then record k { selected = if k.caps_lock == 0 then k.std_table else k.shift_table }
    else k

unfoldable pub keyboard_change_table : Keyboard → ℕ → (ext : Bool) → Keyboard
unfolding standard_switch extended_switch release_table
keyboard_change_table k scan ext =
    release_table (if ext then extended_switch k scan else standard_switch k scan) scan

unfoldable pub keyboard_read_character : Memory → Keyboard → ℕ → ℕ
keyboard_read_character mem k scan =
    if released scan
    then 0
    else if k.selected == null
    then mem (k.std_table + scan)
    else mem (k.selected + scan)

-- The last branch of the handler
unfoldable pub normal_key : Driver → ℕ → Driver
unfolding keyboard_read_character
normal_key d scan =
    let chr = keyboard_read_character d.memory d.keyboard scan in
    if chr == 0
    then d
    else (let (mem, q, full) = queue_enqueue d.memory d.input_buffer chr in
        record d { memory = mem; input_buffer = q })

-- Does the key change the table?
unfoldable pub special_key : (ext : Bool) → ℕ → Bool
special_key ext scan =
    (not ext && in_array (unreleased scan) ctrl_scancodes)
    || (ext && in_array (unreleased scan) extended_ctrl_scancodes)

-- The handler, with what `trigger_is_set` gave
unfoldable pub handle : Driver → (ext : Bool) → ℕ → Driver
unfolding special_key normal_key
handle d ext scan =
    if scan == extended_scancode
    then record d { extended = 1 }
    else if special_key ext scan
    then record d { keyboard = keyboard_change_table d.keyboard scan ext }
    else normal_key d scan

unfoldable pub keyboard_handler : Driver → ℕ → Driver
unfolding trigger_is_set
keyboard_handler d scan =
    let (trigger, ext) = trigger_is_set d.extended in
    handle (record d { extended = trigger }) ext scan

-- What `queue_init` returns is not looked at.
unfoldable pub keyboard_start : Kernel → Queue → ℕ → Kernel × Queue
keyboard_start k q input_buffer_size =
    let (k', q', error) = queue_init k q input_buffer_size in (k', q')
