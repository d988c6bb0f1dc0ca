-- ===== src/Libs/Print/Tests.antt =====
-- Numbers written to a buffer at address 100.
use butos.Prelude.{◌≡◌, refl, none, arith, inl}
use butos.Libs.Memory.{Memory}
use butos.Libs.Print.{base_convert, base_convert_r, place_digit, terminate}
use butos.Libs.Print.Digits.{Printed, base_convert_lem, base_convert_refused}

abbrev blank : Memory
blank = λ a. 1

hex_255 : (base_convert blank 100 80 255 16).0 101 ≡ 0x66
unfolding base_convert base_convert_r place_digit terminate
hex_255 = refl

-- The buffer has room for one digit only.
too_small : (base_convert blank 100 2 255 16).1 ≡ none
unfolding base_convert base_convert_r place_digit terminate
too_small = refl

base_convert_lem_test : Printed blank 100 255 16 (base_convert blank 100 80 255 16)
base_convert_lem_test =
    base_convert_lem blank 100 80 255 16 (omega arith) (omega arith) (omega arith) (omega arith)

base_convert_refused_test : base_convert blank 100 80 255 1 ≡ (blank, none)
base_convert_refused_test = base_convert_refused blank 100 80 255 1 (inl (omega arith))
