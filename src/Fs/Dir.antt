-- ===== src/Fs/Dir.antt =====
-- dir.c: how an entry of a directory is found by its name. A string is the list of the characters
-- before its NUL.
pub mod Names
pub mod Search
mod Tests
use butos.Prelude.{
  ℕ, zero, suc, ◌+◌, ◌-◌, Bool, true, false, ◌&&◌, ◌||◌, not, Option, none, some, List, [], ◌∷◌,
  ◌++◌, leb, ltb, ◌==◌, if◌then◌else◌, get_or, drop, add32, sub32,
}
use butos.Libs.Ctype.{int_of_char}
use butos.Fs.Entry.{Entry}

abbrev pub lower : ℕ → ℕ
lower c = if leb 65 c && leb c 90 then c + 32 else c

abbrev pub first : List ℕ → ℕ
first [] = 0
first (c ∷ cs) = c

abbrev pub behind : List ℕ → List ℕ
behind [] = []
behind (c ∷ cs) = cs

abbrev pub difference : ℕ → ℕ → ℕ
difference c d = sub32 (int_of_char c) (int_of_char d)

-- The first characters are only tested for NUL.
unfoldable pub strcmp_insensitive : List ℕ → List ℕ → ℕ
strcmp_insensitive [] b = difference 0 (first b)
strcmp_insensitive (c ∷ a) b =
    let rest = strcmp_insensitive a (behind b) in
    if c == 0 || first b == 0
    then difference c (first b)
    else if lower (first a) == lower (first (behind b))
    then rest
    else difference (first a) (first (behind b))

-- The characters before the first space, at most `k` of them
unfoldable pub before_space : (k : ℕ) → List ℕ → List ℕ
before_space zero cs = []
before_space (suc k) [] = []
before_space (suc k) (c ∷ cs) = let rest = before_space k cs in if c == 32 then [] else c ∷ rest

-- `short_name_str`, built from a short name of eleven bytes
unfoldable pub short_name_str : List ℕ → List ℕ
unfolding before_space
short_name_str name =
    before_space 8 name ++ (if get_or name 8 0 == 32 then [] else 46 ∷ before_space 3 (drop 8 name))

unfoldable pub compare_short_name : (name str : List ℕ) → ℕ
unfolding short_name_str strcmp_insensitive
compare_short_name name str = strcmp_insensitive (short_name_str name) str

-- The entries up to `num_entries`, of which there is one at least; `room` says whether the kernel heap
-- has a place for the copy, and `none` is NULL.
unfoldable pub dir_search : (room : Bool) → List (Option Entry) → List ℕ → Option Entry
unfolding compare_short_name
dir_search room [] name = none
dir_search room (none ∷ entries) name = dir_search room entries name
dir_search room (some e ∷ entries) name =
    let rest = dir_search room entries name in
    if compare_short_name e.short_name name == 0 then (if room then some e else none) else rest
