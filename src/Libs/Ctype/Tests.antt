-- ===== src/Libs/Ctype/Tests.antt =====
-- The classes of a letter.
use butos.Prelude.{◌+◌, ◌≡◌, refl, true, false, ◌&&◌, ◌||◌, not, ◌==◌, arith}
use butos.Libs.Ctype.{
  isdigit, islower, isupper, isalnum, iscntrl, isprint, ispunct, isspace, isblank, toupper, tolower,
  isxdigit, isascii,
}
use butos.Libs.Ctype.Classes.{count, classes_lem, isprint_lem, case_lem}

hex_letter : isxdigit 0x46 ≡ true
unfolding isxdigit isdigit
hex_letter = refl

not_ascii : isascii 0xe9 ≡ false
unfolding isascii
not_ascii = refl

-- A character that is no small letter becomes something else.
toupper_digit : toupper 0x31 ≡ 0x11
unfolding toupper
toupper_digit = refl

classes_lem_test :
    count (iscntrl 65)
      + count (65 == 32)
      + count (isupper 65)
      + count (islower 65)
      + count (isdigit 65)
      + count (ispunct 65)
    ≡ 1
classes_lem_test = classes_lem 65 (omega arith)

isprint_lem_test :
    (isprint 65 ≡ (65 == 32 || isalnum 65 || ispunct 65)) × (isblank 65 && not (isspace 65) ≡ false)
isprint_lem_test = isprint_lem 65 (omega arith)

case_lem_test :
    (isupper (toupper 97) ≡ islower 97)
    × (islower (tolower 97) ≡ isupper 97)
    × (tolower (toupper 97) ≡ 97)
    × (toupper (tolower 97) ≡ 97)
case_lem_test = case_lem 97 (omega arith)
