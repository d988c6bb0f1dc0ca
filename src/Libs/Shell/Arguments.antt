-- ===== src/Libs/Shell/Arguments.antt =====
-- The arguments of a command are the pieces of the line between its spaces.
use butos.Prelude.{
  ℕ, zero, suc, ◌+◌, ◌≤◌, ◌<◌, ◌≡◌, ◌≢◌, refl, ap, sym, ◌∙◌, subst, ◌⊎◌, inl, inr, Option, none,
  some, List, [], ◌∷◌, ◌++◌, if◌then◌else◌, length, arith, ne→==_false, Bool-cases, Option-cases,
  mul32,
}
use butos.Libs.Memory.{Memory}
use butos.Libs.Memory.Copy.{Outside}
use butos.Libs.Allocator.{null}
use butos.Libs.Alloc.{Kernel, kalloc}
use butos.Libs.Search.Lengths.{IsString}
use butos.Libs.Search.Spans.{is_delimiter, before}
use butos.Libs.Text.{strsep}
use butos.Libs.Text.Copies.{IsString-same}
use butos.Libs.Text.Tokens.{behind, Left, Separated, strsep_lem}
use butos.Libs.Shell.{Var, argument, args_loop, args_array_create}

-- A character before the first piece
abbrev pub push : ℕ → List (List ℕ) → List (List ℕ)
push c [] = (c ∷ []) ∷ []
push c (p ∷ ps) = (c ∷ p) ∷ ps

-- The pieces of a text between the delimiters
abbrev pub pieces : List ℕ → List ℕ → List (List ℕ)
pieces ds [] = [] ∷ []
pieces ds (c ∷ cs) = let rest = pieces ds cs in if is_delimiter ds c then [] ∷ rest else push c rest

-- The pieces behind the first
abbrev pub later : List ℕ → Option (List ℕ) → List (List ℕ)
later ds none = []
later ds (some cs) = pieces ds cs

pieces_step : (ds cs : List ℕ) → pieces ds cs ≡ before ds cs ∷ later ds (behind ds cs)
pieces_step ds [] = refl
pieces_step ds (c ∷ cs) = elim (Bool-cases (is_delimiter ds c)) [
  | inl stop ↦ rw stop refl
  | inr more ↦ rw more (ap (push c) (pieces_step ds cs))
]

pub length_step :
    (ds cs rest : List ℕ)
    → behind ds cs ≡ some rest
    → length cs ≡ length (before ds cs) + 1 + length rest
length_step ds [] rest e = absurd (cc e)
length_step ds (c ∷ cs) rest e = elim (Bool-cases (is_delimiter ds c)) [
  | inl stop ↦
      let same : cs ≡ rest = cc (rw stop at e) in rw stop (ap suc (ap length same) ∙ omega arith)
  | inr more ↦ rw more (omega (arith, length_step ds cs rest (rw more at e)))
]

before_le : (ds cs : List ℕ) → length (before ds cs) ≤ length cs
before_le ds [] = omega arith
before_le ds (c ∷ cs) = elim (Bool-cases (is_delimiter ds c)) [
  | inl stop ↦ rw stop (omega arith)
  | inr more ↦ rw more (omega (arith, before_le ds cs))
]

-- The strings stand at the pointers.
abbrev pub Strings : Memory → List ℕ → List (List ℕ) → Type 0
Strings mem [] [] = Unit
Strings mem [] (c ∷ cs) = ⊥
Strings mem (p ∷ ps) [] = ⊥
Strings mem (p ∷ ps) (c ∷ cs) = IsString mem p c × Strings mem ps cs

-- No piece names a variable.
abbrev pub IsPlain : List ℕ → Type 0
IsPlain [] = Unit
IsPlain (c ∷ cs) = c ≢ 36

abbrev pub AllPlain : List (List ℕ) → Type 0
AllPlain [] = Unit
AllPlain (p ∷ ps) = IsPlain p × AllPlain ps

argument_lem :
    (fuel : ℕ) (mem : Memory) (vars : List Var) (p : ℕ)
    → mem p ≢ 36
    → argument fuel mem vars p ≡ some p
unfolding argument
argument_lem fuel mem vars p ne = rw (argument, ne→==_false (mem p) 36 ne) refl

first_byte : (mem : Memory) (p : ℕ) (cs : List ℕ) → IsString mem p cs → IsPlain cs → mem p ≢ 36
first_byte mem p [] s plain = omega (arith, s)
first_byte mem p (c ∷ cs) (at, not_nul, s) plain = λ e. plain (sym at ∙ e)

-- The array that the loop fills: the pieces, and then NULL. Only the bytes of the line change.
pub record Filled (mem : Memory) (args : ℕ) (cs : List ℕ) (out : Option (Memory × List ℕ))
    : Type 0 where
  pub memory : Memory
  pub pointers : List ℕ
  pub result : out ≡ some (memory, pointers ++ (null ∷ []))
  pub strings : Strings memory pointers (pieces (32 ∷ []) cs)
  pub frame : (a : ℕ) → Outside args (length cs + 1) a → memory a ≡ mem a

-- What the loop needs of memory: the string of a space, which no write to the line changes, and no
-- dollar sign at the address 0
pub record HasSpace (mem : Memory) (space args n : ℕ) : Type 0 where
  pub space_at : IsString mem space (32 ∷ [])
  pub apart : (space + 1 < args) ⊎ (args + n < space)
  pub zero_byte : mem 0 ≢ 36

strsep_nothing :
    (fuel : ℕ) (mem : Memory) (space : ℕ) → strsep fuel mem null space ≡ some (mem, null, null)
unfolding strsep
strsep_nothing fuel mem space = refl

null_round :
    (fuel : ℕ) (mem : Memory) (vars : List Var) (space : ℕ)
    → mem 0 ≢ 36
    → args_loop 1 fuel mem vars null space ≡ some (mem, null ∷ [])
unfolding args_loop
null_round fuel mem vars space ne =
    rw (args_loop, strsep_nothing fuel mem space, argument_lem fuel mem vars 0 ne) refl

-- One round, with the token and what is left
token_round :
    (n fuel : ℕ) (mem mem' : Memory) (vars : List Var) (args next space : ℕ)
    → strsep fuel mem args space ≡ some (mem', next, args)
    → mem' args ≢ 36
    → {mem'' : Memory} {ps : List ℕ} → args_loop n fuel mem' vars next space ≡ some (mem'', ps)
    → args_loop (suc n) fuel mem vars args space ≡ some (mem'', args ∷ ps)
unfolding args_loop
token_round n fuel mem mem' vars args next space sep ne rest =
    rw (args_loop, sep, argument_lem fuel mem' vars args ne, rest) refl

-- The array of a line with no space
last_Filled :
    (fuel : ℕ) (mem : Memory) (vars : List Var) (args space : ℕ) (cs : List ℕ)
    → args ≢ null
    → HasSpace mem space args (length cs)
    → AllPlain (pieces (32 ∷ []) cs)
    → Separated mem args cs (32 ∷ []) (strsep fuel mem args space)
    → behind (32 ∷ []) cs ≡ none
    → Filled mem args cs (args_loop 2 fuel mem vars args space)
last_Filled fuel mem vars args space cs present h plain r e =
    let next_null : r.next ≡ null = subst (Left r.memory _ r.next) e r.left in
    let one : pieces (32 ∷ []) cs ≡ before (32 ∷ []) cs ∷ [] =
      pieces_step (32 ∷ []) cs ∙ ap (λ o. before (32 ∷ []) cs ∷ later (32 ∷ []) o) e in
    let zero_byte : r.memory 0 ≢ 36 = λ z. h.zero_byte (sym (r.frame 0 (omega arith)) ∙ z) in
    record {
      memory = r.memory;
      pointers = args ∷ [];
      result =
          token_round 1 fuel mem r.memory vars args r.next space r.result
            (first_byte r.memory args (before (32 ∷ []) cs) r.token (subst AllPlain one plain).0)
            (subst (λ q. args_loop 1 fuel r.memory vars q space ≡ some (r.memory, null ∷ []))
              (sym next_null) (null_round fuel r.memory vars space zero_byte));
      strings = subst (Strings r.memory (args ∷ [])) (sym one) (r.token, tt);
      frame = λ a o. r.frame a (omega (arith, o, before_le (32 ∷ []) cs));
    }

-- What is left behind a space has what the loop needs.
left_HasSpace :
    (mem mem' : Memory) (space args n k m : ℕ)
    → HasSpace mem space args n
    → args ≢ null
    → n ≡ k + 1 + m
    → ((a : ℕ) → a ≢ args + k → mem' a ≡ mem a)
    → HasSpace mem' space (args + k + 1) m
left_HasSpace mem mem' space args n k m h present size same = record {
  space_at =
      IsString-same mem mem' space (32 ∷ []) (λ a lo hi. same a (omega (arith, h.apart)))
        h.space_at;
  apart = omega (arith, h.apart);
  zero_byte = λ z. h.zero_byte (sym (same 0 (omega arith)) ∙ z);
}

-- The array of a line with a space, from that of what is left behind it
more_Filled :
    (n fuel : ℕ) (mem : Memory) (vars : List Var) (args space : ℕ) (cs rest : List ℕ)
    → AllPlain (pieces (32 ∷ []) cs)
    → (r : Separated mem args cs (32 ∷ []) (strsep fuel mem args space))
    → behind (32 ∷ []) cs ≡ some rest
    → r.next ≡ args + length (before (32 ∷ []) cs) + 1
    → Filled r.memory r.next rest (args_loop n fuel r.memory vars r.next space)
    → Filled mem args cs (args_loop (suc n) fuel mem vars args space)
more_Filled n fuel mem vars args space cs rest plain r e next f =
    let step : pieces (32 ∷ []) cs ≡ before (32 ∷ []) cs ∷ pieces (32 ∷ []) rest =
      pieces_step (32 ∷ []) cs ∙ ap (λ o. before (32 ∷ []) cs ∷ later (32 ∷ []) o) e in
    let size = length_step (32 ∷ []) cs rest e in
    record {
      memory = f.memory;
      pointers = args ∷ f.pointers;
      result =
          token_round n fuel mem r.memory vars args r.next space r.result
            (first_byte r.memory args (before (32 ∷ []) cs) r.token (subst AllPlain step plain).0)
            f.result;
      strings = subst (Strings f.memory (args ∷ f.pointers)) (sym step) (
        IsString-same r.memory f.memory args (before (32 ∷ []) cs)
            (λ a lo hi. f.frame a (omega (arith, next, hi))) r.token,
        f.strings,
      );
      frame = λ a o. f.frame a (omega (arith, next, size, o)) ∙ r.frame a (omega (arith, size, o));
    }

pub count_some :
    (ds cs rest : List ℕ)
    → behind ds cs ≡ some rest
    → length (pieces ds cs) ≡ suc (length (pieces ds rest))
count_some ds cs rest e = ap length (pieces_step ds cs) ∙ ap (λ o. suc (length (later ds o))) e

pub count_none : (ds cs : List ℕ) → behind ds cs ≡ none → length (pieces ds cs) ≡ 1
count_none ds cs e = ap length (pieces_step ds cs) ∙ ap (λ o. suc (length (later ds o))) e

pub count_pos : (ds cs : List ℕ) → 0 < length (pieces ds cs)
count_pos ds cs = omega (arith, ap length (pieces_step ds cs))

loop_Filled :
    (n fuel : ℕ) (mem : Memory) (vars : List Var) (args space : ℕ) (cs : List ℕ)
    → args ≢ null
    → IsString mem args cs
    → HasSpace mem space args (length cs)
    → AllPlain (pieces (32 ∷ []) cs)
    → length (pieces (32 ∷ []) cs) ≡ suc n
    → length cs + 1 < fuel
    → Filled mem args cs (args_loop (suc (suc n)) fuel mem vars args space)
loop_Filled zero fuel mem vars args space cs present s h plain count enough =
    let r =
      strsep_lem fuel mem args space cs (32 ∷ []) present s h.space_at (omega arith)
        (omega arith) in
    elim (Option-cases (behind (32 ∷ []) cs)) [
      | inl e ↦ last_Filled fuel mem vars args space cs present h plain r e
      | inr (rest, e) ↦
          absurd (omega (arith, count, count_some (32 ∷ []) cs rest e, count_pos (32 ∷ []) rest))
    ]
loop_Filled (suc n) fuel mem vars args space cs present s h plain count enough =
    let r =
      strsep_lem fuel mem args space cs (32 ∷ []) present s h.space_at (omega arith)
        (omega arith) in
    elim (Option-cases (behind (32 ∷ []) cs)) [
      | inl e ↦ absurd (omega (arith, count, count_none (32 ∷ []) cs e))
      | inr (rest, e) ↦
          let (next, string) = subst (Left r.memory _ r.next) e r.left in
          let size = length_step (32 ∷ []) cs rest e in
          let k = length (before (32 ∷ []) cs) in
          let step =
            pieces_step (32 ∷ []) cs ∙ ap (λ o. before (32 ∷ []) cs ∷ later (32 ∷ []) o) e in
          more_Filled (suc (suc n)) fuel mem vars args space cs rest plain r e next (
            loop_Filled n fuel r.memory vars r.next space rest (omega (arith, next)) string
              (subst (λ q. HasSpace r.memory space q (length rest)) (sym next)
                (left_HasSpace mem r.memory space args (length cs) k (length rest) h present size
                  r.frame))
              (subst AllPlain step plain).1 (omega (arith, count, count_some (32 ∷ []) cs rest e))
              (omega (arith, size)))
    ]

memory_kalloc : (k : Kernel) (size : ℕ) → (kalloc k size).0.memory ≡ k.memory
unfolding kalloc
memory_kalloc k size = refl

-- On a line whose pieces between spaces name no variable, with as many places as pieces and a heap that
-- has a block for them, `args_array_create` fills the array with pointers to these pieces, in their
-- order, as strings, and writes a NULL behind its last place; of the memory that the model has, only
-- the bytes of the line and its NUL change. The string of a space does not lie in the line, and the
-- byte at the address 0, which is read, is no dollar sign.
pub args_array_create_lem :
    (fuel : ℕ) (k : Kernel) (vars : List Var) (args argc space : ℕ) (cs : List ℕ)
    → args ≢ null
    → IsString k.memory args cs
    → HasSpace k.memory space args (length cs)
    → AllPlain (pieces (32 ∷ []) cs)
    → argc ≡ length (pieces (32 ∷ []) cs)
    → length cs + 1 < fuel
    → (kalloc k (mul32 argc 4)).1 ≢ null
    → (mem : Memory) × (ps : List ℕ) × (args_array_create fuel k vars args argc space
        ≡ some (
          record (kalloc k (mul32 argc 4)).0 { memory = mem },
          (kalloc k (mul32 argc 4)).1,
          ps ++ (null ∷ []),
        ))
      × Strings mem ps (pieces (32 ∷ []) cs)
      × ((a : ℕ) → Outside args (length cs + 1) a → mem a ≡ k.memory a)
unfolding args_array_create
args_array_create_lem fuel k vars args argc space cs present s h plain count enough got =
    let n = length (later (32 ∷ []) (behind (32 ∷ []) cs)) in
    let size : length (pieces (32 ∷ []) cs) ≡ suc n = ap length (pieces_step (32 ∷ []) cs) in
    let f = loop_Filled n fuel k.memory vars args space cs present s h plain size enough in
    let rounds : argc + 1 ≡ suc (suc n) = omega (arith, size) in
    (
      f.memory,
      f.pointers,
      rw
          (
            args_array_create,
            ne→==_false args null present,
            ne→==_false (kalloc k (mul32 argc 4)).1 null got,
            memory_kalloc k (mul32 argc 4),
            rounds,
            f.result,
          )
          refl,
      f.strings,
      f.frame,
    )
