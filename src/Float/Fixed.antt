-- ===== src/Float/Fixed.antt =====
-- Decimals with six places, and `none` for NaN: numbers that meet the laws, for examples.
use faas_provider.Prelude.{
  ℕ, zero, suc, ◌+◌, ◌*◌, ◌/◌, ◌^◌, ◌≤◌, ◌<◌, Bool, false, Option, none, some, arith, ltb, leb,
  ◌==◌, if◌then◌else◌, ◌&&◌, refl,
}
use native.Mathlib.Nat.{
  div-le_of_le-mul, le-div_iff_mul-le, le_of_mul-le-mul_right, mul-le-mul_right, mul-le-mul_left,
  div-mul-le_self, pow-suc,
}
use faas_provider.Prelude.Int.{
  ℤ, pos, negsuc, pos_part, neg_part, ◌+ℤ◌, ◌-ℤ◌, ◌*ℤ◌, ltb_ℤ, leb_ℤ, sub_ℕ,
}
use faas_provider.Float.Defs.{Float, IsOrdered, IsRounded, IsRatio, NotNegative}

abbrev pub scale : ℕ
scale = 1_000_000

abbrev pub Decimal : Type 0
Decimal = Option ℤ

unfoldable pub lift : (ℤ → ℤ → Decimal) → Decimal → Decimal → Decimal
lift f (some a) (some b) = f a b
lift f _ _ = none

unfoldable pub compare_by : (ℤ → ℤ → Bool) → Decimal → Decimal → Bool
compare_by f (some a) (some b) = f a b
compare_by f _ _ = false

-- Towards zero.
unfoldable pub divide_ℤ : ℤ → ℕ → ℤ
divide_ℤ a d = if ltb (neg_part a) 1 then pos (pos_part a / d) else sub_ℕ 0 (neg_part a / d)

unfoldable pub quotient_ℤ : ℤ → ℤ → Decimal
unfolding divide_ℤ
quotient_ℤ a b =
    let size = pos_part b + neg_part b in
    let scaled = sub_ℕ (pos_part a * scale) (neg_part a * scale) in
    let flipped = sub_ℕ (neg_part a * scale) (pos_part a * scale) in
    if size == 0
    then none
    else some (divide_ℤ (if ltb (neg_part b) 1 then scaled else flipped) size)

-- The root of a number, one binary digit at a time from the top.
unfoldable pub root_from : ℕ → ℕ → ℕ → ℕ
root_from zero n r = r
root_from (suc k) n r = let r' = r + 2 ^ k in root_from k n (if leb (r' * r') n then r' else r)

unfoldable pub root_ℤ : ℤ → Decimal
unfolding root_from
root_ℤ (pos n) = some (pos (root_from 40 (n * scale) 0))
root_ℤ (negsuc n) = none

unfoldable pub over : (ℤ → Decimal) → Decimal → Decimal
over f none = none
over f (some a) = f a

unfoldable pub to_ℕ : Decimal → ℕ
to_ℕ none = 0
to_ℕ (some a) = pos_part a / scale

unfoldable pub operations : Unit {0}
unfolding lift compare_by divide_ℤ quotient_ℤ root_ℤ over to_ℕ ◌+ℤ◌ ◌-ℤ◌ ◌*ℤ◌
operations = tt

instance abbrev pub decimal_float : Float Decimal
decimal_float = record {
  decimal = λ m k. some (pos (m * scale / 10 ^ k));
  of_ℕ = λ n. some (pos (n * scale));
  to_uint64 = to_ℕ;
  negate = over (λ a. some (sub_ℕ (neg_part a) (pos_part a)));
  add = lift (λ a b. some (a +ℤ b));
  sub = lift (λ a b. some (a -ℤ b));
  mul = lift (λ a b. some (divide_ℤ (a *ℤ b) scale));
  quotient = lift quotient_ℤ;
  minimum = lift (λ a b. some (if leb_ℤ a b then a else b));
  absolute = over (λ a. some (pos (pos_part a + neg_part a)));
  sqrt = over root_ℤ;
  lt = compare_by ltb_ℤ;
  le = compare_by leb_ℤ;
  eq = compare_by (λ a b. leb_ℤ a b && leb_ℤ b a);
}

ten_pow_pos : (k : ℕ) → 0 < 10 ^ k
ten_pow_pos zero = omega arith
ten_pow_pos (suc k) = rw (pow-suc) (omega (arith, ten_pow_pos k))

scaled_mono : (m n a b : ℕ) → 0 < a → 0 < b → m * b ≤ n * a → m * scale / a ≤ n * scale / b
scaled_mono m n a b ha hb h = (le-div_iff_mul-le hb).1 (
    le_of_mul-le-mul_right {k = a}
      (omega (arith, mul-le-mul_right b (div-mul-le_self (m * scale) a), mul-le-mul_left scale h))
      ha)

-- The laws can be met.
pub Decimal-IsOrdered : IsOrdered Decimal
unfolding operations
Decimal-IsOrdered = record {
  lt_irrefl = λ x. ground arith;
  lt_trans = λ x y z. ground arith;
  le_trans = λ x y z. ground arith;
  le_of_lt = λ x y. ground arith;
  not-lt_of_le = λ x y. ground arith;
  number_of_le = λ x y. ground arith;
  lt_or_le = λ x y. ground arith;
  decimal_mono = λ m k n l h.
      ground (arith, scaled_mono m n (10 ^ k) (10 ^ l) (ten_pow_pos k) (ten_pow_pos l) h);
}

pub Decimal-IsRounded : IsRounded Decimal
unfolding operations
Decimal-IsRounded = record {
  of_ℕ_not_negative = λ n. ground arith;
  of_ℕ_pos = λ n h. ground arith;
  whole_pos = λ n h. ground arith;
  add_not_negative = λ x y. ground arith;
  mul_not_negative = λ x y. ground arith;
  quotient_not_negative = λ x y. ground arith;
  minimum_not_negative = λ x y. ground arith;
  minimum_not_above = λ x y. ground arith;
  sub_not_above = λ x y. ground arith;
}

ratio-le : (m n : ℕ) → m ≤ n → m * scale * scale / (n * scale) ≤ scale
ratio-le m n h =
    div-le_of_le-mul (n * scale) (omega (arith, mul-le-mul_right scale (mul-le-mul_right scale h)))

le-ratio : (m n : ℕ) → 0 < n → n ≤ m → scale ≤ m * scale * scale / (n * scale)
le-ratio m n p h =
    (le-div_iff_mul-le (omega (arith, p))).1
      (omega (arith, mul-le-mul_right scale (mul-le-mul_right scale h)))

square-NotNegative : (x : Decimal) → NotNegative (decimal_float.mul x x)
unfolding operations
square-NotNegative none = refl
square-NotNegative (some (pos n)) = ground arith
square-NotNegative (some (negsuc n)) = ground arith

sqrt-NotNegative : (x : Decimal) → NotNegative (decimal_float.sqrt x)
unfolding operations
sqrt-NotNegative none = refl
sqrt-NotNegative (some (pos n)) = ground arith
sqrt-NotNegative (some (negsuc n)) = refl

pub Decimal-IsRatio : IsRatio Decimal
unfolding operations
Decimal-IsRatio = record {
  ratio_not_above = λ m n h p. ground (arith, ratio-le m n h);
  ratio_pos = λ m n p h fits. ground (arith, le-ratio m n p h);
  square_not_negative = square-NotNegative;
  sqrt_not_negative = λ x h. sqrt-NotNegative x;
}
