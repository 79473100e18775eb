-- ===== src/Adaptive/Trend/Analysis.antt =====
-- When a trend counts as a degradation.
use faas_provider.Prelude.{◌≤◌, ◌≡◌, ◌⊎◌, ◌↔◌, true, false, String, List, [], ◌∷◌, arith, length}
use faas_provider.Float.{Float, IsOrdered}
use faas_provider.Adaptive.Metrics.{MetricsSnapshot}
use faas_provider.Adaptive.Trend.{
  TrendAnalyzer, extract_miss_ratios, linear_regression, calculate_variance, calculate_r_squared,
  analyze_trend,
}

module _ {F : Type 0} where
  pub length-extract_miss_ratios-le :
      (history : List (MetricsSnapshot F)) (policy : String)
      → length (extract_miss_ratios history policy) ≤ length history
  unfolding extract_miss_ratios
  length-extract_miss_ratios-le [] policy = omega arith
  length-extract_miss_ratios-le (s ∷ history) policy =
      ground (arith, length-extract_miss_ratios-le history policy)

module _ {F : Type 0} ⦃fl : Float F⦄ where
  open fl use {decimal, lt}

  -- A degradation is reported exactly when the policy has the minimum of samples, and the slope of
  -- their regression or their variance is above its threshold.
  pub analyze_trend_iff :
      (t : TrendAnalyzer F) (history : List (MetricsSnapshot F)) (policy : String)
      → let ratios = extract_miss_ratios history policy in
        ((analyze_trend t history policy).indicates_degradation ≡ true) ↔ (
          (t.min_samples ≤ length ratios)
          × ((lt t.degradation_threshold (linear_regression ratios).slope ≡ true)
              ⊎ (lt t.variance_threshold (calculate_variance ratios) ≡ true)))
  unfolding analyze_trend
  analyze_trend_iff t history policy =
      (λ h. ground arith, λ h. ground (arith, length-extract_miss_ratios-le history policy))

  module _ (laws : IsOrdered F) where
    calculate_r_squared-nonneg :
        (values : List F) (slope intercept : F)
        → lt (calculate_r_squared values slope intercept) (decimal 0 0) ≡ false
    unfolding calculate_r_squared
    calculate_r_squared-nonneg values slope intercept = ground (arith, laws.lt_irrefl (decimal 0 0))

    pub linear_regression-nonneg :
        (values : List F) → lt (linear_regression values).r_squared (decimal 0 0) ≡ false
    unfolding linear_regression
    linear_regression-nonneg values = grind (arith, laws.lt_irrefl, calculate_r_squared-nonneg)

    -- The confidence of an analysis is never below zero, for an order as IEEE 754 has it.
    pub analyze_trend-nonneg :
        (t : TrendAnalyzer F) (history : List (MetricsSnapshot F)) (policy : String)
        → lt (analyze_trend t history policy).confidence (decimal 0 0) ≡ false
    unfolding analyze_trend
    analyze_trend-nonneg t history policy = ground (
      arith,
      laws.lt_irrefl (decimal 0 0),
      linear_regression-nonneg (extract_miss_ratios history policy),
    )
