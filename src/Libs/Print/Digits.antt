-- ===== src/Libs/Print/Digits.antt =====
-- `base_convert` writes the digits of the number.
use butos.Prelude.{
  ℕ, zero, suc, ◌+◌, ◌-◌, ◌*◌, ◌/◌, ◌%◌, ◌≤◌, ◌<◌, ◌≡◌, ◌≢◌, refl, ap, sym, ◌∙◌, ◌⊎◌, true, false,
  ◌&&◌, Option, none, some, List, [], ◌∷◌, ◌++◌, ltb, leb, length, length-append, word, arith,
  ℕ_discrete, ne→==_false,
}
use native.Mathlib.Nat.{div-add-mod, mod-lt, mul_comm, mul-le-mul_right}
use butos.Prelude.Division.{div-lt}
use butos.Libs.Memory.{Memory, store}
use butos.Libs.Memory.Copy.{Outside}
use butos.Libs.Print.{
  digit, min_base, max_base, place_digit, base_convert_r, base_fuel, base_convert, terminate,
}

-- The number that digits stand for, the first digit the highest, behind the digits of `acc`
abbrev pub value : ℕ → ℕ → List ℕ → ℕ
value base acc [] = acc
value base acc (d ∷ ds) = value base (acc * base + d) ds

value-append :
    (base acc : ℕ) (ds : List ℕ) (d : ℕ)
    → value base acc (ds ++ (d ∷ [])) ≡ value base acc ds * base + d
value-append base acc [] d = refl
value-append base acc (x ∷ xs) d = value-append base (acc * base + x) xs d

-- Digits below the base
abbrev pub Below : ℕ → List ℕ → Type 0
Below base [] = Unit
Below base (d ∷ ds) = (d < base) × Below base ds

Below-append :
    (base : ℕ) (ds : List ℕ) (d : ℕ) → Below base ds → d < base → Below base (ds ++ (d ∷ []))
Below-append base [] d h lt = (lt, tt)
Below-append base (x ∷ xs) d h lt = (h.0, Below-append base xs d h.1 lt)

-- The digits stand in memory from `p` on.
abbrev pub Stands : Memory → ℕ → List ℕ → Type 0
Stands mem p [] = Unit
Stands mem p (d ∷ ds) = (mem p ≡ digit d) × Stands mem (p + 1) ds

Stands-store :
    (mem : Memory) (p a v : ℕ) (ds : List ℕ)
    → p + length ds ≤ a
    → Stands mem p ds
    → Stands (store mem a v) p ds
Stands-store mem p a v [] h s = tt
Stands-store mem p a v (d ∷ ds) h s =
    (ground (arith, s.0), Stands-store mem (p + 1) a v ds (omega arith) s.1)

Stands-append :
    (mem : Memory) (p : ℕ) (ds : List ℕ) (d : ℕ)
    → Stands mem p ds
    → mem (p + length ds) ≡ digit d
    → Stands mem p (ds ++ (d ∷ []))
Stands-append mem p [] d s e = (ap mem (omega arith) ∙ e, tt)
Stands-append mem p (x ∷ xs) d s e =
    (s.0, Stands-append mem (p + 1) xs d s.1 (ap mem (omega arith) ∙ e))

-- 2 to the power of `n`
abbrev power2 : ℕ → ℕ
power2 zero = 1
power2 (suc n) = 2 * power2 n

-- What `base_convert_r` leaves: the digits of the number, in the buffer, and nothing else changed
record Converted (mem : Memory) (buffer num base fuel : ℕ) (out : Memory × Option ℕ) : Type 0 where
  digits : List ℕ
  count : out.1 ≡ some (length digits)
  few : length digits ≤ fuel
  some_digits : 0 < num → 0 < length digits
  number : value base 0 digits ≡ num
  below : Below base digits
  stands : Stands out.0 buffer digits
  frame : (a : ℕ) → Outside buffer (length digits) a → out.0 a ≡ mem a

none_left : (mem : Memory) (buffer base fuel : ℕ) → Converted mem buffer 0 base fuel (mem, some 0)
none_left mem buffer base fuel = record {
  digits = [];
  count = refl;
  few = omega arith;
  some_digits = λ h. h;
  number = refl;
  below = tt;
  stands = tt;
  frame = λ a h. refl;
}

quotient_small : (num base fuel : ℕ) → 2 ≤ base → num < power2 (suc fuel) → num / base < power2 fuel
quotient_small num base fuel two small =
    let more : 2 * power2 fuel ≤ base * power2 fuel = mul-le-mul_right (power2 fuel) two in
    div-lt num (power2 fuel) base (omega arith) (omega (arith, more, mul_comm base (power2 fuel)))

other_byte : (mem : Memory) (p v a : ℕ) → a ≢ p → store mem p v a ≡ mem a
other_byte mem p v a ne = ground (arith, ne)

-- One digit more
digit-Converted :
    (mem : Memory) (buffer size num base fuel : ℕ) (out : Memory × Option ℕ)
    → 2 ≤ base
    → fuel < size
    → Converted mem buffer (num / base) base fuel out
    → Converted mem buffer num base (suc fuel) (place_digit buffer size (num % base) out)
unfolding place_digit
digit-Converted mem buffer size num base fuel (m, none) two fits c = cc c.count
digit-Converted mem buffer size num base fuel (m, some depth) two fits c =
    let e : depth ≡ length c.digits = ap (λ o. elim o [ none ↦ 0 | some n ↦ n ]) c.count in
    let room : leb size (length c.digits) ≡ false = le_false (omega (arith, c.few)) in
    let d = num % base in
    let ds = c.digits ++ (d ∷ []) in
    let len : length ds ≡ length c.digits + 1 = length-append c.digits (d ∷ []) in
    let at = buffer + length c.digits in
    rw (e, room)
      (record {
        digits = ds;
        count = ap some (sym len);
        few = omega (arith, len, c.few);
        some_digits = λ h. omega (arith, len);
        number =
            value-append base 0 c.digits d
            ∙ ap (λ n. n * base + d) c.number
            ∙ ap (λ n. n + d) (mul_comm (num / base) base)
            ∙ div-add-mod num base;
        below = Below-append base c.digits d c.below (mod-lt num (omega arith));
        stands =
            Stands-append (store m at (digit d)) buffer c.digits d
              (Stands-store m buffer at (digit d) c.digits (omega arith) c.stands) (ground arith);
        frame = λ a h.
            other_byte m at (digit d) a (omega (arith, h, len)) ∙ c.frame a (omega (arith, h, len));
      })
  where
    le_false : {n : ℕ} → n < size → leb size n ≡ false
    le_false h = ground arith

convert_r_lem :
    (fuel : ℕ) (mem : Memory) (buffer size num base : ℕ)
    → 2 ≤ base
    → num < power2 fuel
    → fuel ≤ size
    → Converted mem buffer num base fuel (base_convert_r fuel mem buffer size num base)
unfolding base_convert_r
convert_r_lem zero mem buffer size num base two small fits =
    let e : num ≡ 0 = omega arith in rw e (none_left mem buffer base zero)
convert_r_lem (suc fuel) mem buffer size num base two small fits = elim (ℕ_discrete num 0) [
  | yes e ↦ rw e (none_left mem buffer base (suc fuel))
  | no ne ↦
      let quot : num / base < power2 fuel = quotient_small num base fuel two small in
      let c = convert_r_lem fuel mem buffer size (num / base) base two quot (omega arith) in
      rw (ne→==_false num 0 ne) (
        digit-Converted mem buffer size num base fuel
          (base_convert_r fuel mem buffer size (num / base) base) two (omega arith) c)
]

-- What `base_convert` leaves: the digits of the number and a NUL in the buffer, and nothing else
-- changed
pub record Printed (mem : Memory) (buffer num base : ℕ) (out : Memory × Option ℕ) : Type 0 where
  pub digits : List ℕ
  pub count : out.1 ≡ some (length digits)
  pub not_empty : 0 < length digits
  pub few : length digits ≤ 32
  pub number : value base 0 digits ≡ num
  pub below : Below base digits
  pub stands : Stands out.0 buffer digits
  pub ends : out.0 (buffer + length digits) ≡ 0
  pub frame : (a : ℕ) → Outside buffer (length digits + 1) a → out.0 a ≡ mem a

terminate-Printed :
    (mem : Memory) (buffer num base : ℕ) (out : Memory × Option ℕ)
    → 0 < num
    → Converted mem buffer num base 32 out
    → Printed mem buffer num base (terminate buffer out)
unfolding terminate
terminate-Printed mem buffer num base (m, none) pos c = cc c.count
terminate-Printed mem buffer num base (m, some depth) pos c =
    let e : depth ≡ length c.digits = ap (λ o. elim o [ none ↦ 0 | some n ↦ n ]) c.count in
    let at = buffer + length c.digits in
    rw e (record {
      digits = c.digits;
      count = refl;
      not_empty = c.some_digits pos;
      few = c.few;
      number = c.number;
      below = c.below;
      stands = Stands-store m buffer at 0 c.digits (omega arith) c.stands;
      ends = ground arith;
      frame = λ a h. other_byte m at 0 a (omega (arith, h)) ∙ c.frame a (omega (arith, h));
    })

-- For a base from 2 to 16, a 32-bit number and a buffer of at least 33 bytes, `base_convert` returns
-- the number of digits of the number, at most 32, and writes them to the buffer, the highest first,
-- with a NUL behind them; no other byte changes.
pub base_convert_lem :
    (mem : Memory) (buffer size num base : ℕ)
    → 2 ≤ base
    → base ≤ 16
    → 33 ≤ size
    → num < word
    → Printed mem buffer num base (base_convert mem buffer size num base)
unfolding base_convert
base_convert_lem mem buffer size num base two sixteen room small =
    let in_range : (leb min_base base && leb base max_base) ≡ true = ground arith in
    let large : ltb size 2 ≡ false = ground arith in
    elim (ℕ_discrete num 0) [
      | yes e ↦
          rw (in_range, large, e)
            (record {
              digits = 0 ∷ [];
              count = refl;
              not_empty = omega arith;
              few = omega arith;
              number = omega arith;
              below = (omega arith, tt);
              stands = (ground arith, tt);
              ends = ground arith;
              frame = λ a h.
                  other_byte (store mem buffer (digit 0)) (buffer + 1) 0 a (omega (arith, h))
                  ∙ other_byte mem buffer (digit 0) a (omega (arith, h));
            })
      | no ne ↦
          rw (in_range, large, ne→==_false num 0 ne)
            (terminate-Printed mem buffer num base
              (base_convert_r base_fuel mem buffer (size - 1) num base) (omega arith)
              (convert_r_lem base_fuel mem buffer (size - 1) num base two small (omega arith)))
    ]

-- For a base out of range, or a buffer of less than two bytes, `base_convert` fails and changes
-- nothing.
pub base_convert_refused :
    (mem : Memory) (buffer size num base : ℕ)
    → (base < 2) ⊎ (16 < base) ⊎ (size < 2)
    → base_convert mem buffer size num base ≡ (mem, none)
unfolding base_convert
base_convert_refused mem buffer size num base bad = ground (arith, bad)
