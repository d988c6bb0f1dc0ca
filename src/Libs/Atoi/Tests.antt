-- ===== src/Libs/Atoi/Tests.antt =====
-- Strings at address 100.
use butos.Prelude.{ℕ, ◌-◌, ◌≡◌, refl, some, List, [], ◌∷◌, get_or, arith, word}
use butos.Libs.Memory.{Memory}
use butos.Libs.Print.{base_convert}
use butos.Libs.Ctype.{isdigit, isxdigit}
use butos.Libs.Atoi.{atoi, hex_loop, decimal_loop, hexval}
use butos.Libs.Atoi.Numbers.{atoi-base_convert}

abbrev text : List ℕ → Memory
text cs a = get_or cs (a - 100) 0

-- "0x1F"
hex : atoi 10 (text (0x30 ∷ 0x78 ∷ 0x31 ∷ 0x46 ∷ [])) 100 ≡ some 31
unfolding atoi hex_loop decimal_loop hexval isxdigit isdigit
hex = refl

-- "-7;"
negative : atoi 10 (text (0x2d ∷ 0x37 ∷ 0x3b ∷ [])) 100 ≡ some (word - 7)
unfolding atoi hex_loop decimal_loop hexval isxdigit isdigit
negative = refl

atoi-base_convert_example : atoi 40 (base_convert (text []) 100 80 1234 10).0 100 ≡ some 1234
atoi-base_convert_example =
    atoi-base_convert 40 (text []) 100 80 1234 (omega arith) (omega arith) (omega arith)
