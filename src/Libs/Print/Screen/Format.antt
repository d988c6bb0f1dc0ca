-- ===== src/Libs/Print/Screen/Format.antt =====
-- `vprintk_c` prints what the format and its arguments stand for.
use butos.Prelude.{
  ℕ, zero, suc, ◌+◌, ◌^◌, ◌≤◌, ◌<◌, ◌≡◌, ◌≢◌, refl, ap, ap₂, sym, subst, ◌∙◌, Bool, true, false,
  ◌&&◌, Option, none, some, List, [], ◌∷◌, ◌++◌, map, length, length-map, append_assoc, arith, word,
  leb, if◌then◌else◌, ne→==_false,
}
use butos.Libs.Memory.{Memory}
use butos.Libs.Memory.Copy.{Outside}
use butos.Libs.Ctype.{int_of_char}
use butos.Libs.Search.Lengths.{IsString}
use butos.Libs.Print.{digit, base_convert}
use butos.Libs.Print.Digits.{Stands, Printed, base_convert_lem}
use butos.Libs.Print.Screen.{
  Piece, finish, text, plain, number, conversion, piece, magnitude, putc_c, print_number,
  vprintk_loop, vprintk_c,
}
use butos.Libs.Print.Screen.Directives.{
  Letter, hexadecimal, decimal, unsigned, binary, octal, Directive, char, string, integer, Encoded,
  Encoded-frame, absolute, sign, Output, integers, Fit,
}
use butos.Libs.Print.Screen.Cells.{putc_all, puts_c_lem}
use butos.Drivers.Ports.{Ports}
use butos.Drivers.Vga.{Vga}

digits-IsString :
    (mem : Memory) (p : ℕ) (ds : List ℕ)
    → Stands mem p ds
    → mem (p + length ds) ≡ 0
    → IsString mem p (map digit ds)
digits-IsString mem p [] s ends = ap mem (omega arith) ∙ ends
digits-IsString mem p (d ∷ ds) (at, s) ends =
    (at, ground arith, digits-IsString mem (p + 1) ds s (ap mem (omega arith) ∙ ends))

-- The `switch` knows each letter, and the bases are in the range of `base_convert`.
conversion-Letter :
    (opt base : ℕ) (is_signed : Bool)
    → Letter opt base is_signed
    → (conversion opt ≡ number base is_signed) × (2 ≤ base) × (base ≤ 16)
unfolding conversion
conversion-Letter _ _ _ hexadecimal = (refl, omega arith, omega arith)
conversion-Letter _ _ _ decimal = (refl, omega arith, omega arith)
conversion-Letter _ _ _ unsigned = (refl, omega arith, omega arith)
conversion-Letter _ _ _ binary = (refl, omega arith, omega arith)
conversion-Letter _ _ _ octal = (refl, omega arith, omega arith)

piece_finish : (mem : Memory) (str : ℕ) → mem str ≡ 0 → piece mem str ≡ finish
unfolding piece
piece_finish mem str at = rw at refl

piece-plain : (mem : Memory) (str c : ℕ) → mem str ≡ c → c ≢ 0 → c ≢ 37 → piece mem str ≡ plain c
unfolding piece
piece-plain mem str c at c0 c37 = rw (at, ne→==_false c 0 c0, ne→==_false c 37 c37) refl

piece-conversion :
    (mem : Memory) (str : ℕ) (p : Piece)
    → mem str ≡ 37
    → conversion (mem (str + 1)) ≡ p
    → piece mem str ≡ p
unfolding piece
piece-conversion mem str p at letter = rw at letter

text_letter : (c : ℕ) → c ≡ 115 → conversion c ≡ text
unfolding conversion
text_letter c e = rw e refl

integers_step : (read k : ℕ) → read + 1 + k ≡ read + suc k
integers_step read k = omega arith

magnitude_lem :
    (b : Bool) (num : ℕ)
    → num < word
    → (magnitude b num ≡ absolute b num) × (magnitude b num < word)
magnitude_lem b num small = ground arith

module _ {S : Type 0} ⦃io : Ports S⦄ where
  putc_all-append :
      (v : Vga S) (color : ℕ) (xs ys : List ℕ)
      → putc_all v color (xs ++ ys) ≡ putc_all (putc_all v color xs) color ys
  putc_all-append v color [] ys = refl
  putc_all-append v color (x ∷ xs) ys =
      putc_all-append (putc_c v color (int_of_char x)).0 color xs ys

  signed_lem :
      (t : Bool) (v : Vga S) (color : ℕ) (xs : List ℕ)
      → putc_all (if t then (putc_c v color 45).0 else v) color xs
        ≡ putc_all v color ((if t then 45 ∷ [] else []) ++ xs)
  signed_lem true v color xs = refl
  signed_lem false v color xs = refl

  -- A number that `base_convert` wrote to the buffer
  print_number_lem :
      (fuel : ℕ) (v : Vga S) (color buffer num base : ℕ) (b : Bool) (mem : Memory)
      (out : Memory × Option ℕ)
      → 32 < fuel
      → (p : Printed mem buffer (magnitude b num) base out)
      → print_number fuel v color buffer (b && leb (2 ^ 31) num) out
        ≡ some (some (putc_all v color (sign b num ++ map digit p.digits)))
  unfolding print_number
  print_number_lem fuel v color buffer num base b mem (mem', none) enough p = absurd (cc p.count)
  print_number_lem fuel v color buffer num base b mem (mem', some n) enough p =
      let t = b && leb (2 ^ 31) num in
      let w = if t then (putc_c v color 45).0 else v in
      let e : n ≡ length p.digits = ap (λ o. elim o [ none ↦ 0 | some k ↦ k ]) p.count in
      let ne : n ≢ 0 = omega (arith, p.not_empty) in
      rw
        (
          ne→==_false n 0 ne,
          puts_c_lem fuel mem' w color buffer (map digit p.digits)
              (digits-IsString mem' buffer p.digits p.stands p.ends)
              (omega (arith, length-map p.digits digit, p.few)),
        )
        (ap (λ x. some (some x)) (signed_lem t v color (map digit p.digits)))

  -- What the loop returns: the characters that the directives stand for are printed, the numbers are
  -- counted, and only the buffer changes.
  pub record Renders (mem : Memory) (v : Vga S) (color buffer read : ℕ) (ds : List Directive)
      (out : Option (Vga S × Memory × ℕ)) : Type 0 where
    pub chars : List ℕ
    pub memory : Memory
    pub result : out ≡ some (putc_all v color chars, memory, read + integers ds)
    pub output : Output ds chars
    pub frame : (a : ℕ) → Outside buffer 80 a → memory a ≡ mem a

  vprintk_loop_lem :
      (bound : ℕ) (args : ℕ → ℕ) (buffer color : ℕ) (ds : List Directive) (fuel : ℕ) (mem : Memory)
      (v : Vga S) (str n read : ℕ)
      → 32 ≤ bound
      → bound + length ds + 1 < fuel
      → Fit bound ds
      → Encoded mem buffer args str n ds
      → Renders mem v color buffer read ds (vprintk_loop fuel mem v color str args n buffer read)
  unfolding vprintk_loop
  vprintk_loop_lem bound args buffer color ds zero mem v str n read big enough fit e =
      absurd (omega arith)
  vprintk_loop_lem bound args buffer color [] (suc fuel) mem v str n read big enough fit (o, at) =
      rw (vprintk_loop, piece_finish mem str at)
        (record {
          chars = [];
          memory = mem;
          result = ap (λ k. some (v, mem, k)) {x = read} {y = read + 0} (omega arith);
          output = refl;
          frame = λ a h. refl;
        })
  vprintk_loop_lem bound args buffer color (char c ∷ ds) (suc fuel) mem v str n read big enough fit
        (o, at, c0, c37, e) =
      let r =
        vprintk_loop_lem bound args buffer color ds fuel mem (putc_c v color (int_of_char c)).0
          (str + 1) n read big (omega arith) fit e in
      rw (vprintk_loop, piece-plain mem str c at c0 c37)
        (record {
          chars = c ∷ r.chars;
          memory = r.memory;
          result = r.result;
          output = (r.chars, refl, r.output);
          frame = r.frame;
        })
  vprintk_loop_lem bound args buffer color (string cs ∷ ds) (suc fuel) mem v str n read big enough
        (short, fit) (o, o', at, letter, apart, s, e) =
      let r =
        vprintk_loop_lem bound args buffer color ds fuel mem (putc_all v color cs) (str + 2) (n + 1)
          read big (omega arith) fit e in
      rw
        (
          vprintk_loop,
          piece-conversion mem str text at (text_letter (mem (str + 1)) letter),
          puts_c_lem fuel mem v color (args n) cs s (omega (arith, short)),
        )
        (record {
          chars = cs ++ r.chars;
          memory = r.memory;
          result =
              r.result
              ∙ ap (λ w. some (w, r.memory, read + integers ds))
                  (sym (putc_all-append v color cs r.chars));
          output = (r.chars, refl, r.output);
          frame = r.frame;
        })
  vprintk_loop_lem bound args buffer color (integer base b num ∷ ds) (suc fuel) mem v str n read big
        enough fit (o, o', at, letter, arg, small, e) =
      let num' = args n in
      let small' : num' < word = omega (arith, arg, small) in
      let (known, two, sixteen) = conversion-Letter (mem (str + 1)) base b letter in
      let (same, fits) = magnitude_lem b num' small' in
      let out = base_convert mem buffer 80 (magnitude b num') base in
      let p =
        base_convert_lem mem buffer 80 (magnitude b num') base two sixteen (omega arith) fits in
      let shown = sign b num' ++ map digit p.digits in
      let kept : (a : ℕ) → Outside buffer 80 a → out.0 a ≡ mem a =
        λ a h. p.frame a (omega (arith, h, p.few)) in
      let r =
        vprintk_loop_lem bound args buffer color ds fuel out.0 (putc_all v color shown) (str + 2)
          (n + 1) (read + 1) big (omega arith) fit
          (Encoded-frame mem out.0 buffer args (str + 2) (n + 1) ds kept e) in
      subst
        (λ k.
          Renders mem v color buffer read (integer base b k ∷ ds)
            (vprintk_loop (suc fuel) mem v color str args n buffer read))
        arg
        (rw
          (
            vprintk_loop,
            piece-conversion mem str (number base b) at known,
            print_number_lem fuel v color buffer num' base b mem out (omega arith) p,
          )
          (record {
            chars = shown ++ r.chars;
            memory = r.memory;
            result =
                r.result
                ∙ ap₂ (λ w k. some (w, r.memory, k)) (sym (putc_all-append v color shown r.chars))
                    (integers_step read (integers ds));
            output = (
              p.digits,
              r.chars,
              p.number ∙ same,
              p.below,
              p.not_empty,
              append_assoc (sign b num') (map digit p.digits) r.chars,
              r.output,
            );
            frame = λ a h. r.frame a h ∙ kept a h;
          }))

  -- `vprintk_c` prints the characters that the format and its arguments stand for, every number as its
  -- sign and the digits of its absolute value, returns how many numbers it printed, and changes no
  -- memory but its buffer: for the letters s, d, u, x, b and o, with more fuel than the directives and
  -- the longest string need, and a format and strings that do not lie in the buffer.
  pub vprintk_lem :
      (bound fuel : ℕ) (mem : Memory) (v : Vga S) (color str : ℕ) (args : ℕ → ℕ) (buffer : ℕ)
      (ds : List Directive)
      → 32 ≤ bound
      → bound + length ds + 1 < fuel
      → Fit bound ds
      → Encoded mem buffer args str 0 ds
      → Renders mem v color buffer 0 ds (vprintk_c fuel mem v color str args buffer)
  unfolding vprintk_c
  vprintk_lem bound fuel mem v color str args buffer ds big enough fit e =
      vprintk_loop_lem bound args buffer color ds fuel mem v str 0 0 big enough fit e
