-- ===== src/Drivers/Keyboard/Typist.antt =====
-- A keyboard with shift, lock and alternate graphic keys, and the characters that are typed on it.
use butos.Prelude.{ℕ, ◌%◌, Bool, true, false, ◌||◌, List, [], ◌∷◌, ◌++◌, leb, ◌==◌, if◌then◌else◌}

-- Which characters the keys have
pub data Layer : Type 0 where
  standard shifted alternate : Layer

-- What a typist's keyboard remembers: the layer, the lock, and whether the last byte was the prefix
pub record Typist : Type 0 where
  pub layer : Layer
  pub lock : Bool
  pub prefix : Bool

-- The characters of each layer
abbrev pub Layout : Type 0
Layout = Layer → ℕ → ℕ

-- The keys by which a keyboard of scan code set 1 chooses a layer, and those that have no character
pub data Key : Type 0 where
  shift lock_key alternate_key silent plain : Key

-- The key with a code, by the codes of the set: the shifts are 0x2a and 0x36, the lock 0x3a, control
-- 0x1d and alt 0x38; behind the prefix control is 0x1d, alternate graphic 0x38, the menu key 0x5b, and
-- the arrows are 0x48, 0x4b, 0x4d and 0x50.
abbrev pub key_of : (prefix : Bool) → ℕ → Key
key_of false code =
    if code == 0x2a || code == 0x36
    then shift
    else if code == 0x3a
    then lock_key
    else if code == 0x1d || code == 0x38
    then silent
    else plain
key_of true code =
    if code == 0x38
    then alternate_key
    else if code == 0x1d
        || (code == 0x5b || (code == 0x48 || (code == 0x4b || (code == 0x4d || code == 0x50))))
    then silent
    else plain

-- A key that goes up leaves the layer that the lock asks for.
abbrev pub key_up : Typist → Typist
key_up t = record t { layer = if t.lock then shifted else standard }

-- A key that goes down: a shift or the alternate graphic key takes its layer, the lock turns over.
abbrev pub key_down : Typist → Key → Typist
key_down t shift = record t { layer = shifted }
key_down t lock_key = record t { lock = if t.lock then false else true }
key_down t alternate_key = record t { layer = alternate }
key_down t silent = t
key_down t plain = t

abbrev pub is_plain : Key → Bool
is_plain shift = false
is_plain lock_key = false
is_plain alternate_key = false
is_plain silent = false
is_plain plain = true

-- The character of a key that goes down, if it has one
abbrev pub character : Layout → Layer → ℕ → List ℕ
character layout l scan = if leb 128 scan || layout l scan == 0 then [] else layout l scan ∷ []

-- A key that has no character: any of them that goes up gives the layer of the lock, even while a
-- shift is held down.
abbrev pub control_key : Typist → ℕ → Typist
control_key t scan = if leb 128 scan then key_up t else key_down t (key_of t.prefix scan)

-- One byte from the keyboard: the typist's keyboard behind it, and the characters that it types
unfoldable pub type_step : Layout → Typist → ℕ → Typist × List ℕ
type_step layout t scan =
    if scan == 0xe0
    then (record t { prefix = true }, [])
    else if is_plain (key_of t.prefix (scan % 128))
    then (record t { prefix = false }, character layout t.layer scan)
    else (record (control_key t scan) { prefix = false }, [])

unfoldable pub type_run : Layout → Typist → List ℕ → Typist × List ℕ
type_run layout t [] = (t, [])
type_run layout t (scan ∷ scans) =
    let (t1, cs) = type_step layout t scan in
    let (t2, ds) = type_run layout t1 scans in (t2, cs ++ ds)
