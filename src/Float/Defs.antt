-- ===== src/Float/Defs.antt =====
-- The operations on float64 that the code calls, and what the proofs need of its order.
use faas_provider.Prelude.{ℕ, ◌*◌, ◌^◌, ◌≤◌, ◌<◌, ◌≡◌, ◌⊎◌, Bool, true, false}

-- `decimal m k` is the constant m / 10 ^ k, `of_ℕ` the conversion `float64(n)` and `to_uint64` the
-- conversion back; `minimum`, `absolute` and `sqrt` are `math.Min`, `math.Abs` and `math.Sqrt`.
pub record Float (F : Type 0) : Type 0 where
  pub decimal : ℕ → ℕ → F
  pub of_ℕ : ℕ → F
  pub to_uint64 : F → ℕ
  pub negate : F → F
  pub add : F → F → F
  pub sub : F → F → F
  pub mul : F → F → F
  pub quotient : F → F → F
  pub minimum : F → F → F
  pub absolute : F → F
  pub sqrt : F → F
  pub lt : F → F → Bool
  pub le : F → F → Bool
  pub eq : F → F → Bool

abbrev pub IsNumber : {F : Type 0} ⦃fl : Float F⦄ → F → Type 0
IsNumber ⦃fl⦄ x = fl.le x x ≡ true

-- NaN is the value that is not `<=` itself; every comparison with it is false.
pub record IsOrdered (F : Type 0) ⦃fl : Float F⦄ : Type 0 where
  pub lt_irrefl : (x : F) → fl.lt x x ≡ false
  pub lt_trans : (x y z : F) → fl.lt x y ≡ true → fl.lt y z ≡ true → fl.lt x z ≡ true
  pub le_trans : (x y z : F) → fl.le x y ≡ true → fl.le y z ≡ true → fl.le x z ≡ true
  pub le_of_lt : (x y : F) → fl.lt x y ≡ true → fl.le x y ≡ true
  pub not-lt_of_le : (x y : F) → fl.le x y ≡ true → fl.lt y x ≡ false
  pub number_of_le : (x y : F) → fl.le x y ≡ true → (fl.le x x ≡ true) × (fl.le y y ≡ true)
  pub lt_or_le :
      (x y : F) → fl.le x x ≡ true → fl.le y y ≡ true → (fl.lt x y ≡ true) ⊎ (fl.le y x ≡ true)
  pub decimal_mono :
      (m k n l : ℕ) → m * 10 ^ l ≤ n * 10 ^ k → fl.le (fl.decimal m k) (fl.decimal n l) ≡ true

-- Not below zero: a number that is not, or NaN.
abbrev pub NotNegative : {F : Type 0} ⦃fl : Float F⦄ → F → Type 0
NotNegative ⦃fl⦄ x = fl.lt x (fl.decimal 0 0) ≡ false

-- What rounding keeps of the signs. Each law holds of NaN too, where no comparison does.
pub record IsRounded (F : Type 0) ⦃fl : Float F⦄ : Type 0 where
  pub of_ℕ_not_negative : (n : ℕ) → NotNegative (fl.of_ℕ n)
  pub of_ℕ_pos : (n : ℕ) → 0 < n → fl.lt (fl.decimal 0 0) (fl.of_ℕ n) ≡ true
  pub whole_pos : (n : ℕ) → 0 < n → fl.lt (fl.decimal 0 0) (fl.decimal n 0) ≡ true
  pub add_not_negative : (x y : F) → NotNegative x → NotNegative y → NotNegative (fl.add x y)
  pub mul_not_negative : (x y : F) → NotNegative x → NotNegative y → NotNegative (fl.mul x y)
  pub quotient_not_negative :
      (x y : F) → NotNegative x → fl.lt (fl.decimal 0 0) y ≡ true → NotNegative (fl.quotient x y)
  pub minimum_not_negative :
      (x y : F) → NotNegative x → NotNegative y → NotNegative (fl.minimum x y)
  pub minimum_not_above :
      (x y : F) → (fl.lt x (fl.minimum x y) ≡ false) × (fl.lt y (fl.minimum x y) ≡ false)
  pub sub_not_above : (x y : F) → NotNegative y → fl.lt x (fl.sub x y) ≡ false

-- What rounding keeps of ratios of counts, where the counts fit into 64 bits, and of squares and
-- roots.
pub record IsRatio (F : Type 0) ⦃fl : Float F⦄ : Type 0 where
  pub ratio_not_above :
      (m n : ℕ)
      → m ≤ n
      → 0 < n
      → fl.lt (fl.decimal 1 0) (fl.quotient (fl.of_ℕ m) (fl.of_ℕ n)) ≡ false
  pub ratio_pos :
      (m n : ℕ)
      → 0 < n
      → n ≤ m
      → m < 2 ^ 64
      → fl.lt (fl.decimal 0 0) (fl.quotient (fl.of_ℕ m) (fl.of_ℕ n)) ≡ true
  pub square_not_negative : (x : F) → NotNegative (fl.mul x x)
  pub sqrt_not_negative : (x : F) → NotNegative x → NotNegative (fl.sqrt x)
