-- ===== src/Fs/Entry/Tests.antt =====
-- Short names.
use butos.Prelude.{◌≡◌, refl, [], ◌∷◌}
use butos.Fs.Entry.{entry_name_copy, copy_base, copy_ext, ctoupper}

-- "a.txt"
short :
    entry_name_copy (97 ∷ 46 ∷ 116 ∷ 120 ∷ 116 ∷ [])
    ≡ 65 ∷ 32 ∷ 32 ∷ 32 ∷ 32 ∷ 32 ∷ 32 ∷ 32 ∷ 84 ∷ 88 ∷ 84 ∷ []
unfolding entry_name_copy copy_base copy_ext ctoupper
short = refl

-- "ABCDEFGH.TXT": after a name of eight characters the dot is taken for the extension.
long :
    entry_name_copy (65 ∷ 66 ∷ 67 ∷ 68 ∷ 69 ∷ 70 ∷ 71 ∷ 72 ∷ 46 ∷ 84 ∷ 88 ∷ 84 ∷ [])
    ≡ 65 ∷ 66 ∷ 67 ∷ 68 ∷ 69 ∷ 70 ∷ 71 ∷ 72 ∷ 46 ∷ 84 ∷ 88 ∷ []
unfolding entry_name_copy copy_base copy_ext ctoupper
long = refl
