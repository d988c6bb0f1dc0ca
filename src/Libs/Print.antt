-- ===== src/Libs/Print.antt =====
-- print.c: the conversion of a number to a string of digits in memory.
pub mod Digits
pub mod Screen
mod Tests
use butos.Prelude.{
  ℕ, zero, suc, ◌+◌, ◌-◌, ◌*◌, ◌/◌, ◌%◌, Bool, true, false, ◌&&◌, not, Option, none, some, ltb, leb,
  ◌==◌, if◌then◌else◌,
}
use butos.Libs.Memory.{Memory, store}

-- `digits[d]`
abbrev pub digit : ℕ → ℕ
digit d = if ltb d 10 then d + 48 else d + 87

abbrev pub min_base : ℕ
min_base = 2

abbrev pub max_base : ℕ
max_base = 16

-- The end of `base_convert_r`, with what its recursive call returned: the digit goes to the place
-- that the call counted, if the buffer has it.
unfoldable pub place_digit : ℕ → ℕ → ℕ → Memory × Option ℕ → Memory × Option ℕ
place_digit buffer size d (mem, none) = (mem, none)
place_digit buffer size d (mem, some depth) =
    if leb size depth then (mem, none) else (store mem (buffer + depth) (digit d), some (depth + 1))

-- The memory and the number of digits, `none` for -1. The recursion runs on fuel.
unfoldable pub base_convert_r : (fuel : ℕ) → Memory → (buffer size num base : ℕ) → Memory × Option ℕ
unfolding place_digit
base_convert_r zero mem buffer size num base = (mem, if num == 0 then some 0 else none)
base_convert_r (suc fuel) mem buffer size num base =
    let rest = base_convert_r fuel mem buffer size (num / base) base in
    if num == 0 then (mem, some 0) else place_digit buffer size (num % base) rest

-- The end of `base_convert`, with what `base_convert_r` returned
unfoldable pub terminate : ℕ → Memory × Option ℕ → Memory × Option ℕ
terminate buffer (mem, none) = (mem, none)
terminate buffer (mem, some length) = (store mem (buffer + length) 0, some length)

-- A 32-bit number has at most 32 digits.
abbrev pub base_fuel : ℕ
base_fuel = 32

unfoldable pub base_convert : Memory → (buffer size num base : ℕ) → Memory × Option ℕ
base_convert mem buffer size num base =
    if not (leb min_base base && leb base max_base)
    then (mem, none)
    else if ltb size 2
    then (mem, none)
    else if num == 0
    then (store (store mem buffer (digit 0)) (buffer + 1) 0, some 1)
    else terminate buffer (base_convert_r base_fuel mem buffer (size - 1) num base)
