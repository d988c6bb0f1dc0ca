-- ===== src/Libs/Shell.antt =====
-- shell.c: the line that is typed, its split into a command and arguments, and the choice of the
-- command. The array of arguments has its block in the kernel heap, and what stands in it is the
-- list of its pointers; the messages are left out. The variables are the entries of the array that is in use.
pub mod Editor
pub mod Arguments
pub mod Count
mod Tests
use butos.Prelude.{
  ℕ, zero, suc, ◌+◌, ◌-◌, ◌%◌, Bool, true, false, Option, none, some, List, [], ◌∷◌, ltb, leb, ◌==◌,
  if◌then◌else◌, mul32,
}
use butos.Libs.Memory.{Memory, store}
use butos.Libs.Allocator.{null}
use butos.Libs.Alloc.{Kernel, kalloc, kfree}
use butos.Libs.Search.{strchr, strcmp}
use butos.Libs.Text.{strsep}
use butos.Libs.Print.Screen.{putc}
use butos.Drivers.Ports.{Ports}
use butos.Drivers.Vga.{Vga}

abbrev pub buffer_size : ℕ
buffer_size = 50

-- `struct var`: the addresses of its texts
pub record Var : Type 0 where
  pub name : ℕ
  pub value : ℕ
  pub is_number : ℕ

-- `struct command`, with the pointers that stand in its array of arguments
pub record Command : Type 0 where
  pub name : ℕ
  pub args : ℕ
  pub pointers : List ℕ
  pub argc : ℕ

-- `sizeof(struct command)` on the 32-bit target
abbrev pub sizeof_command : ℕ
sizeof_command = 12

-- `shell_scan` over the keys that will be pressed, with the pointer into the buffer; `none` is a wait
-- that does not end. A tab is passed over by `getchar`.
unfoldable pub shell_scan :
    {S : Type 0} ⦃io : Ports S⦄
    → List ℕ
    → Memory
    → Vga S
    → (buffer rel_pos : ℕ) → Option (Memory × Vga S × List ℕ)
shell_scan [] mem v buffer rel_pos = none
shell_scan (c ∷ keys) mem v buffer rel_pos =
    let skipped = shell_scan keys mem v buffer rel_pos in
    let erased = shell_scan keys mem (putc v c).0 (buffer - 1) (rel_pos - 1) in
    let typed = shell_scan keys (store mem buffer c) (putc v c).0 (buffer + 1) (rel_pos + 1) in
    if c == 9
    then skipped
    else if c == 10
    then some (store mem buffer 0, (putc v 10).0, keys)
    else if c == 8
    then (if rel_pos == 0 then skipped else erased)
    else if leb buffer_size rel_pos
    then skipped
    else typed

-- `var_search`: the first entry whose name is the one that is looked for
unfoldable pub var_search : (fuel : ℕ) → Memory → List Var → (name : ℕ) → Option (Option Var)
var_search fuel mem [] name = some none
var_search fuel mem (v ∷ vars) name = elim (strcmp fuel mem v.name name) [
  | none ↦ none
  | some d ↦ elim (d == 0) [ true ↦ some (some v) | false ↦ var_search fuel mem vars name ]
]

unfoldable pub var_resolve : (fuel : ℕ) → Memory → List Var → (name : ℕ) → Option ℕ
var_resolve fuel mem vars name = elim (var_search fuel mem vars name) [
  | none ↦ none
  | some none ↦ some null
  | some (some v) ↦ some v.value
]

-- The loop of `args_get_count`; `strchr` has the same fuel.
unfoldable pub count_loop : (rounds fuel : ℕ) → Memory → (temp count : ℕ) → Option ℕ
count_loop zero fuel mem temp count = none
count_loop (suc rounds) fuel mem temp count = elim (strchr fuel mem temp 32) [
  | none ↦ none
  | some p ↦ elim (p == null) [
    | true ↦ some count
    | false ↦ count_loop rounds fuel mem (p + 1) (count + 1)
  ]
]

unfoldable pub args_get_count : (fuel : ℕ) → Memory → (args : ℕ) → Option ℕ
args_get_count fuel mem args = count_loop fuel fuel mem args 1

-- What an argument stands for: a dollar sign and a name stand for the value of the variable, if there
-- is one. The byte of a NULL pointer is that at the address 0, which the code reads.
unfoldable pub argument : (fuel : ℕ) → Memory → List Var → (token : ℕ) → Option ℕ
argument fuel mem vars token = elim (mem token == 36) [
  | false ↦ some token
  | true ↦ elim (mem (token + 1) == 0) [
    | true ↦ some token
    | false ↦ elim (var_resolve fuel mem vars (token + 1)) [
      | none ↦ none
      | some p ↦ some (if p == null then token else p)
    ]
  ]
]

-- The loop of `args_array_create` for `n` rounds; `space` is the string of one space.
unfoldable pub args_loop :
    (n fuel : ℕ) → Memory → List Var → (args space : ℕ) → Option (Memory × List ℕ)
args_loop zero fuel mem vars args space = some (mem, [])
args_loop (suc n) fuel mem vars args space = elim (strsep fuel mem args space) [
  | none ↦ none
  | some (mem', args', token) ↦ elim (argument fuel mem' vars token) [
    | none ↦ none
    | some p ↦ elim (args_loop n fuel mem' vars args' space) [
      | none ↦ none
      | some (mem'', ps) ↦ some (mem'', p ∷ ps)
    ]
  ]
]

-- The address of the array and its pointers. The array has `argc` places, and the loop fills one
-- more; the pointers are not written to memory.
unfoldable pub args_array_create :
    (fuel : ℕ) → Kernel → List Var → (args argc space : ℕ) → Option (Kernel × ℕ × List ℕ)
args_array_create fuel k vars args argc space =
    let (k', args_array) = kalloc k (mul32 argc 4) in
    if args == null
    then some (k, null, [])
    else if args_array == null
    then some (k', null, [])
    else elim (args_loop (argc + 1) fuel k'.memory vars args space) [
      | none ↦ none
      | some (mem, ps) ↦ some (record k' { memory = mem }, args_array, ps)
    ]

unfoldable pub args_array_destroy : Kernel → (args_array : ℕ) → Option Kernel
args_array_destroy k args_array = kfree k args_array

-- The command is written without a test of its address, and not to memory here.
unfoldable pub command_alloc :
    Kernel → (cmd_name_org args_org argc : ℕ) → (pointers : List ℕ) → Kernel × Option (ℕ × Command)
command_alloc k cmd_name_org args_org argc pointers =
    let (k', cmd) = kalloc k sizeof_command in
    if cmd_name_org == null then (k, none) else (
      k',
      some (cmd, record { name = cmd_name_org; args = args_org; pointers = pointers; argc = argc }),
    )

unfoldable pub command_dealloc : Kernel → (cmd_ptr : ℕ) → Command → Option Kernel
unfolding args_array_destroy
command_dealloc k cmd_ptr cmd =
    if cmd.args == null
    then kfree k cmd_ptr
    else elim (args_array_destroy k cmd.args) [ none ↦ none | some k' ↦ kfree k' cmd_ptr ]

-- `none` inside is no command, for an empty line.
unfoldable pub command_tokenize :
    (fuel : ℕ) → Kernel → List Var → (input space : ℕ) → Option (Kernel × Option (ℕ × Command))
command_tokenize fuel k vars input space =
    if input == null
    then some (k, none)
    else if k.memory input == 0
    then some (k, none)
    else elim (strsep fuel k.memory input space) [
      | none ↦ none
      | some (mem, input', cmd_name) ↦ elim (args_get_count fuel mem input') [
        | none ↦ none
        | some argc ↦
            elim (args_array_create fuel (record k { memory = mem }) vars input' argc space) [
              | none ↦ none
              | some (k', args, pointers) ↦ some (command_alloc k' cmd_name args argc pointers)
            ]
      ]
    ]

-- The loop of `builtin_program_execute` over the names of the commands: which one is called, `none`
-- for NO_BUILTIN_PROGRAM
unfoldable pub find_builtin :
    (fuel : ℕ) → Memory → (names : List ℕ) (name i : ℕ) → Option (Option ℕ)
find_builtin fuel mem [] name i = some none
find_builtin fuel mem (n ∷ names) name i = elim (strcmp fuel mem name n) [
  | none ↦ none
  | some d ↦ elim (d == 0) [
    | true ↦ some (some i)
    | false ↦ find_builtin fuel mem names name (i + 1)
  ]
]
