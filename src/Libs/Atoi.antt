-- ===== src/Libs/Atoi.antt =====
-- atoi.c: the number that a string in memory stands for. The loops run on fuel, and `none` is a loop
-- that goes on; a `long` has 32 bits, and its overflow, which C leaves open, wraps.
pub mod Numbers
mod Tests
use butos.Prelude.{
  ℕ, zero, suc, ◌+◌, ◌-◌, ◌*◌, ◌%◌, Bool, true, false, ◌&&◌, not, Option, none, some, ◌==◌,
  if◌then◌else◌, add32, sub32, mul32, word,
}
use butos.Libs.Memory.{Memory}
use butos.Libs.Ctype.{int_of_char, int_le, isdigit, isxdigit}

unfoldable pub hexval : ℕ → ℕ
hexval c =
    let i = int_of_char c in
    if int_le 48 i && int_le i 57
    then sub32 i 48
    else if int_le 97 i && int_le i 102
    then add32 (sub32 i 97) 10
    else if int_le 65 i && int_le i 70
    then add32 (sub32 i 65) 10
    else 0

unfoldable pub hex_loop : (fuel : ℕ) → Memory → (num value : ℕ) → Option ℕ
unfolding hexval isxdigit
hex_loop zero mem num value = none
hex_loop (suc fuel) mem num value =
    let rest = hex_loop fuel mem (num + 1) (add32 (mul32 value 16) (hexval (mem num))) in
    if not (mem num == 0) && isxdigit (int_of_char (mem num)) then rest else some value

unfoldable pub decimal_loop : (fuel : ℕ) → Memory → (num value : ℕ) → Option ℕ
unfolding isdigit
decimal_loop zero mem num value = none
decimal_loop (suc fuel) mem num value =
    let rest =
      decimal_loop fuel mem (num + 1) (sub32 (add32 (mul32 value 10) (int_of_char (mem num))) 48) in
    if not (mem num == 0) && isdigit (int_of_char (mem num)) then rest else some value

-- `if (neg) value = -value`
abbrev pub negate : Option ℕ → Option ℕ
negate none = none
negate (some value) = some (sub32 0 value)

unfoldable pub atoi : (fuel : ℕ) → Memory → ℕ → Option ℕ
unfolding hex_loop decimal_loop
atoi fuel mem num =
    if mem num == 48 && mem (num + 1) == 120
    then hex_loop fuel mem (num + 2) 0
    else if mem num == 45
    then negate (decimal_loop fuel mem (num + 1) 0)
    else decimal_loop fuel mem num 0
