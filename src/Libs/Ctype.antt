-- ===== src/Libs/Ctype.antt =====
-- ctype.c: the classes of characters. An `int` is its 32-bit pattern.
pub mod Classes
mod Tests
use butos.Prelude.{
  ℕ, ◌+◌, ◌-◌, ◌%◌, ◌^◌, Bool, true, false, ◌&&◌, ◌||◌, not, ltb, leb, ◌==◌, if◌then◌else◌, add32,
  sub32, word, bit_and, bit_or,
}

-- The comparison of two patterns as signed numbers
abbrev pub int_le : ℕ → ℕ → Bool
int_le a b = leb ((a + 2 ^ 31) % word) ((b + 2 ^ 31) % word)

-- A `char`, a byte, as an `int`
abbrev pub int_of_char : ℕ → ℕ
int_of_char c = if ltb c 128 then c else c + (word - 256)

unfoldable pub isdigit : ℕ → Bool
isdigit c = int_le 48 c && int_le c 57

unfoldable pub islower : ℕ → Bool
islower c = int_le 97 c && int_le c 122

unfoldable pub isupper : ℕ → Bool
isupper c = int_le 65 c && int_le c 90

unfoldable pub isalpha : ℕ → Bool
unfolding isupper islower
isalpha c = isupper c || islower c

unfoldable pub isalnum : ℕ → Bool
unfolding isalpha isdigit
isalnum c = isalpha c || isdigit c

unfoldable pub iscntrl : ℕ → Bool
iscntrl c = ltb c 0x20 || c == 0x7f

unfoldable pub isgraph : ℕ → Bool
isgraph c = ltb (sub32 c 0x21) 0x5e

unfoldable pub isprint : ℕ → Bool
isprint c = ltb (sub32 c 0x20) 0x5f

unfoldable pub ispunct : ℕ → Bool
unfolding isgraph isalnum
ispunct c = isgraph c && not (isalnum c)

unfoldable pub isspace : ℕ → Bool
isspace c = c == 32 || ltb (sub32 c 9) 5

unfoldable pub isxdigit : ℕ → Bool
unfolding isdigit
isxdigit c = isdigit c || ltb (sub32 (bit_or c 32) 97) 6

unfoldable pub isascii : ℕ → Bool
isascii c = bit_and c 0xffffff80 == 0

unfoldable pub isblank : ℕ → Bool
isblank c = c == 32 || c == 9

-- Neither looks at the class of the character.
unfoldable pub toupper : ℕ → ℕ
toupper c = add32 (sub32 c 97) 65

unfoldable pub tolower : ℕ → ℕ
tolower c = add32 (sub32 c 65) 97
