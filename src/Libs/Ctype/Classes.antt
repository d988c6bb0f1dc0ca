-- ===== src/Libs/Ctype/Classes.antt =====
-- How the classes of characters lie to each other, and what the change of case does.
use butos.Prelude.{
  ℕ, ◌+◌, ◌<◌, ◌≡◌, Bool, false, ◌&&◌, ◌||◌, not, ltb, ◌==◌, if◌then◌else◌, word, arith,
}
use butos.Libs.Ctype.{
  isdigit, islower, isupper, isalpha, isalnum, iscntrl, isgraph, isprint, ispunct, isspace, isblank,
  toupper, tolower,
}

abbrev pub count : Bool → ℕ
count b = if b then 1 else 0

-- Every character of ASCII is in just one of these classes: the controls, the space, the letters, the
-- digits and the punctuation; the other values of an `int` are in none of them.
pub classes_lem :
    (c : ℕ)
    → c < word
    → count (iscntrl c)
        + count (c == 32)
        + count (isupper c)
        + count (islower c)
        + count (isdigit c)
        + count (ispunct c)
      ≡ count (ltb c 128)
unfolding iscntrl ispunct isgraph isalnum isalpha islower isupper isdigit
classes_lem c small = ground arith

-- The printed characters are the space, the letters, the digits and the punctuation, and a blank is a
-- white space.
pub isprint_lem :
    (c : ℕ)
    → c < word
    → (isprint c ≡ (c == 32 || isalnum c || ispunct c)) × (isblank c && not (isspace c) ≡ false)
unfolding isprint isspace isblank ispunct isgraph isalnum isalpha islower isupper isdigit
isprint_lem c small = ground arith

-- `toupper` takes the small letters, and nothing else, to the capital letters, `tolower` the other way
-- round, and each undoes the other.
pub case_lem :
    (c : ℕ)
    → c < word
    → (isupper (toupper c) ≡ islower c)
      × (islower (tolower c) ≡ isupper c)
      × (tolower (toupper c) ≡ c)
      × (toupper (tolower c) ≡ c)
unfolding isupper islower toupper tolower
case_lem c small = (ground arith, ground arith, omega arith, omega arith)
