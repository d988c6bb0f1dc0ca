-- ===== src/Libs/Shell/Tests.antt =====
-- A line with two words, typed with a correction.
use butos.Prelude.{
  ℕ, ◌-◌, ◌≡◌, refl, inl, List, [], ◌∷◌, ◌++◌, some, arith, get_or, ltb, mul32, if◌then◌else◌,
}
use butos.Libs.Memory.{Memory}
use butos.Libs.Memory.Copy.{Outside}
use butos.Libs.Allocator.{null, allocator_alloc}
use butos.Libs.Allocator.Packed.{block}
use butos.Libs.Alloc.{Kernel, kalloc}
use butos.Libs.Search.Lengths.{IsString}
use butos.Libs.Search.Spans.{strcspn_lem}
use butos.Libs.Search.{strcspn}
use butos.Libs.Text.{strsep}
use butos.Libs.Text.Tokens.{Separated, strsep_lem}
use butos.Libs.Shell.{shell_scan, args_array_create, args_get_count}
use butos.Libs.Shell.Editor.{Entered, edited, reversed, shell_scan_lem}
use butos.Libs.Shell.Arguments.{pieces, Strings, args_array_create_lem}
use butos.Libs.Shell.Count.{args_get_count_lem}
use butos.Drivers.Vga.Sample.{screen_ports, screen}

-- "a bc" at 100 and the string of a space at 50
abbrev mem : Memory
mem a =
    if ltb a 100
    then get_or (32 ∷ 0 ∷ []) (a - 50) 0
    else get_or (97 ∷ 32 ∷ 98 ∷ 99 ∷ 0 ∷ []) (a - 100) 0

abbrev line : List ℕ
line = 97 ∷ 32 ∷ 98 ∷ 99 ∷ []

line-IsString : IsString mem 100 line
line-IsString =
    (refl, omega arith, (refl, omega arith, (refl, omega arith, (refl, omega arith, refl))))

space-IsString : IsString mem 50 (32 ∷ [])
space-IsString = (refl, omega arith, refl)

words_test : pieces (32 ∷ []) line ≡ (97 ∷ []) ∷ (98 ∷ 99 ∷ []) ∷ []
words_test = refl

-- The keys a, x, backspace, tab and b
typed : reversed (edited [] (97 ∷ 120 ∷ 8 ∷ 9 ∷ 98 ∷ [])) [] ≡ 97 ∷ 98 ∷ []
typed = refl

shell_scan_lem_example :
    Entered mem screen 200 []
      (97 ∷ 120 ∷ 8 ∷ 9 ∷ 98 ∷ [])
      (99 ∷ [])
      (shell_scan ((97 ∷ 120 ∷ 8 ∷ 9 ∷ 98 ∷ []) ++ (10 ∷ 99 ∷ [])) mem screen 200 0)
shell_scan_lem_example =
    shell_scan_lem (97 ∷ 120 ∷ 8 ∷ 9 ∷ 98 ∷ []) (99 ∷ []) mem screen 200 (omega arith)

-- The heap of main.c, with nothing in use
abbrev kernel : Kernel
kernel = record {
  allocator = record {
    heap = block 0xc00f0000 492032;
    registry = λ i. block 0 0;
    size = 0;
    capacity = 100;
  };
  memory = mem;
}

block_of_args : (kalloc kernel (mul32 2 4)).1 ≡ 0xc00f0000
unfolding kalloc allocator_alloc
block_of_args = refl

args_array_create_lem_example :
    (mem' : Memory) × (ps : List ℕ) × (args_array_create 10 kernel [] 100 2 50
      ≡ some (
        record (kalloc kernel (mul32 2 4)).0 { memory = mem' },
        (kalloc kernel (mul32 2 4)).1,
        ps ++ (null ∷ []),
      ))
    × Strings mem' ps (pieces (32 ∷ []) line)
    × ((a : ℕ) → Outside 100 5 a → mem' a ≡ mem a)
args_array_create_lem_example =
    args_array_create_lem 10 kernel [] 100 2 50 line (omega arith) line-IsString
      (record { space_at = space-IsString; apart = inl (omega arith); zero_byte = omega arith })
      (omega arith, (omega arith, tt)) refl (omega arith) (omega (arith, block_of_args))

args_get_count_lem_example : args_get_count 10 mem 100 ≡ some 2
args_get_count_lem_example =
    args_get_count_lem 10 mem 100 line (omega arith) line-IsString (omega arith)

strsep_lem_test : Separated mem 100 line (32 ∷ []) (strsep 10 mem 100 50)
strsep_lem_test =
    strsep_lem 10 mem 100 50 line (32 ∷ []) (omega arith) line-IsString space-IsString (omega arith)
      (omega arith)

strcspn_lem_test : strcspn 10 mem 100 50 ≡ some 1
strcspn_lem_test =
    strcspn_lem 10 mem 100 50 line (32 ∷ []) line-IsString space-IsString (omega arith)
      (omega arith)
