-- ===== src/Adaptive/Trend/Prediction.antt =====
-- The predicted miss ratio, and the settings.
use faas_provider.Prelude.{◌≤◌, ◌≡◌, true, String, List, [], ◌∷◌, arith, length, ok, ℤ}
use faas_provider.Float.{Float, IsNumber, IsOrdered}
use faas_provider.Adaptive.Metrics.{MetricsSnapshot}
use faas_provider.Adaptive.Trend.{
  TrendAnalyzer, extract_miss_ratios, linear_regression, analyze_trend, predict_next_value, clamp,
  set_thresholds,
}
use faas_provider.Adaptive.Trend.Analysis.{length-extract_miss_ratios-le}

-- A change of the settings.
pub data Setting (F : Type 0) : Type 0 where
  setting : F → F → ℤ → Setting F

module _ {F : Type 0} ⦃fl : Float F⦄ where
  open fl use {decimal, lt, le, add, mul, of_ℕ}

  -- Where a prediction is made, its confidence is that of the analysis, and the analysis is of all
  -- the samples of the policy, which are at least the minimum.
  pub predict_next_value-analyze :
      (t : TrendAnalyzer F) (history : List (MetricsSnapshot F)) (policy : String) (v c : F)
      → predict_next_value t history policy ≡ ok (v, c)
      → let a = analyze_trend t history policy in
        (a.confidence ≡ c)
        × (t.min_samples ≤ a.sample_size)
        × (a.sample_size ≡ length (extract_miss_ratios history policy))
  unfolding predict_next_value analyze_trend
  predict_next_value-analyze t history policy v c h =
      ground (arith, length-extract_miss_ratios-le history policy)

  pub record IsUsable (t : TrendAnalyzer F) : Type 0 where
    pub degradation : lt (decimal 0 0) t.degradation_threshold ≡ true
    pub variance : lt (decimal 0 0) t.variance_threshold ≡ true
    pub samples : 1 ≤ t.min_samples

  unfoldable pub configure : List (Setting F) → TrendAnalyzer F → TrendAnalyzer F
  configure [] t = t
  configure (setting d v n ∷ settings) t = configure settings (set_thresholds d v n t)

  set_thresholds-IsUsable :
      (d v : F) (n : ℤ) (t : TrendAnalyzer F) → IsUsable t → IsUsable (set_thresholds d v n t)
  unfolding set_thresholds
  set_thresholds-IsUsable d v n t u = ground arith

  -- An analyzer whose thresholds are above zero, with a minimum of at least one sample, stays so
  -- whatever is set.
  pub configure-IsUsable :
      (settings : List (Setting F)) (t : TrendAnalyzer F)
      → IsUsable t
      → IsUsable (configure settings t)
  unfolding configure
  configure-IsUsable [] t u = u
  configure-IsUsable (setting d v n ∷ settings) t u =
      configure-IsUsable settings (set_thresholds d v n t) (set_thresholds-IsUsable d v n t u)

  module _ (laws : IsOrdered F) where
    clamp_bounds :
        (x : F)
        → IsNumber (clamp x)
        → (le (decimal 0 0) (clamp x) ≡ true) × (le (clamp x) (decimal 1 0) ≡ true)
    unfolding clamp
    clamp_bounds x number =
        let zero_le_one = laws.decimal_mono 0 0 1 0 (omega arith) in
        let zero_number = laws.decimal_mono 0 0 0 0 (omega arith) in
        let one_number = laws.decimal_mono 1 0 1 0 (omega arith) in
        ground (
          arith,
          zero_le_one,
          zero_number,
          one_number,
          laws.lt_or_le x (decimal 0 0),
          laws.lt_or_le (decimal 1 0) x,
        )

    -- If a prediction is made and is a number, it lies between 0 and 1, for an order as IEEE 754 has
    -- it.
    pub predict_next_value_bounds :
        (t : TrendAnalyzer F) (history : List (MetricsSnapshot F)) (policy : String) (v c : F)
        → predict_next_value t history policy ≡ ok (v, c)
        → IsNumber v
        → (le (decimal 0 0) v ≡ true) × (le v (decimal 1 0) ≡ true)
    unfolding predict_next_value
    predict_next_value_bounds t history policy v c h number =
        let ratios = extract_miss_ratios history policy in
        let r = linear_regression ratios in
        ground (arith, clamp_bounds (add (mul r.slope (of_ℕ (length ratios))) r.intercept))
