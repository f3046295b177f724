-- ===== src/Settler/Decimal.antt =====
-- Python's `decimal` on values that are zero or more: a coefficient with a scale, the value
-- coefficient / 10 ^ scale. An operation rounds its result half to even to the digits of the context,
-- 28 by default. Exponents stay within the context's range.
use notchstave.Common.{
  ℕ, zero, suc, ◌+◌, ◌-◌, ◌*◌, ◌/◌, ◌%◌, ◌^◌, Bool, ◌&&◌, ◌||◌, not, leb, ltb, ◌==◌, if◌then◌else◌,
}

pub record Decimal : Type 0 where
  pub coefficient : ℕ
  pub scale : ℕ

abbrev pub whole : ℕ → Decimal
whole n = record { coefficient = n; scale = 0 }

abbrev pub precision : ℕ
precision = 28

-- The decimal digits of a number; 1 for 0.
unfoldable pub digits_from : ℕ → ℕ → ℕ
digits_from zero n = 1
digits_from (suc fuel) n =
    let more = suc (digits_from fuel (n / 10)) in if ltb n 10 then 1 else more

unfoldable pub digits : ℕ → ℕ
unfolding digits_from
digits n = digits_from n n

-- Drop `k` digits, rounding half to even.
unfoldable pub drop_digits : ℕ → ℕ → ℕ
drop_digits k n =
    let q = n / 10 ^ k in
    let twice = 2 * (n % 10 ^ k) in
    if ltb (10 ^ k) twice || (twice == 10 ^ k && q % 2 == 1) then q + 1 else q

-- A coefficient rounded to `p` digits; its trailing digits are 0 then.
abbrev pub fix_to : ℕ → ℕ → ℕ
fix_to p n = if leb (digits n) p then n else drop_digits (digits n - p) n * 10 ^ (digits n - p)

-- A coefficient rounded to the precision.
unfoldable pub fix : ℕ → ℕ
unfolding digits drop_digits
fix n = fix_to precision n

unfoldable pub mul : Decimal → Decimal → Decimal
unfolding fix
mul a b = record { coefficient = fix (a.coefficient * b.coefficient); scale = a.scale + b.scale }

-- A quotient with a remainder keeps a last digit that no rounding takes for exact.
abbrev pub sticky : ℕ → ℕ → ℕ
sticky q r = if not (r == 0) && q % 5 == 0 then q + 1 else q

-- The value coefficient * 10 ^ up / 10 ^ down.
abbrev pub scaled : ℕ → ℕ → ℕ → Decimal
scaled c up down =
    if leb up down
    then record { coefficient = c; scale = down - up }
    else record { coefficient = c * 10 ^ (up - down); scale = 0 }

-- `a / b` for `b` over zero, to `p` digits: enough digits for the precision, and one more.
abbrev pub div_to : ℕ → Decimal → Decimal → Decimal
div_to p a b =
    let up = digits b.coefficient + p + 1 in
    let down = digits a.coefficient in
    let n = a.coefficient * 10 ^ (up - down) in
    let d = b.coefficient * 10 ^ (down - up) in
    if a.coefficient == 0
    then whole 0
    else scaled (fix_to p (sticky (n / d) (n % d))) (b.scale + (down - up)) (a.scale + (up - down))

unfoldable pub div : Decimal → Decimal → Decimal
unfolding digits drop_digits
div a b = div_to precision a b

-- `to_integral_value(rounding=ROUND_FLOOR)`
unfoldable pub floor : Decimal → ℕ
floor a = a.coefficient / 10 ^ a.scale

-- `a > b`; comparisons are exact.
unfoldable pub greater : Decimal → Decimal → Bool
greater a b = ltb (b.coefficient * 10 ^ a.scale) (a.coefficient * 10 ^ b.scale)

-- `to_integral_value(rounding=ROUND_CEILING)`
unfoldable pub ceiling : Decimal → ℕ
ceiling a = (a.coefficient + (10 ^ a.scale - 1)) / 10 ^ a.scale
