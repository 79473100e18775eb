-- ===== src/Adaptive/Trend.antt =====
-- pkg/adaptive/trend.go: linear regression and variance of the miss ratios of one policy. A loop is
-- a recursion whose accumulators are the loop's variables, summed in the loop's order.
pub mod Analysis
pub mod Prediction
mod Tests
use faas_provider.Prelude.{
  ℕ, zero, suc, ◌+◌, Bool, true, false, ◌||◌, String, List, [], ◌∷◌, ltb, ◌==◌, str_eq,
  if◌then◌else◌, length, ℤ, pos, negsuc, Result, ok, err, errorf,
}
use faas_provider.Float.{Float}
use faas_provider.Adaptive.Metrics.{MetricsSnapshot}

pub record TrendScore (F : Type 0) : Type 0 where
  pub indicates_degradation : Bool
  pub slope : F
  pub variance : F
  pub intercept : F
  pub confidence : F
  pub sample_size : ℕ

-- The minimum of samples is positive: the constructor and the setter alone set it.
pub record TrendAnalyzer (F : Type 0) : Type 0 where
  pub degradation_threshold : F
  pub variance_threshold : F
  pub min_samples : ℕ

pub record Regression (F : Type 0) : Type 0 where
  pub slope : F
  pub intercept : F
  pub r_squared : F

unfoldable pub extract_miss_ratios : {F : Type 0} → List (MetricsSnapshot F) → String → List F
extract_miss_ratios [] policy = []
extract_miss_ratios (s ∷ history) policy =
    let others = extract_miss_ratios history policy in
    if str_eq s.current_policy policy then s.miss_ratio ∷ others else others

set_min_samples : ℤ → ℕ → ℕ
set_min_samples (pos zero) old = old
set_min_samples (pos (suc n)) old = suc n
set_min_samples (negsuc n) old = old

-- The sums of the regression loop.
pub record Sums (F : Type 0) : Type 0 where
  pub sum_x : F
  pub sum_y : F
  pub sum_xy : F
  pub sum_x2 : F

module _ {F : Type 0} ⦃fl : Float F⦄ where
  open fl use {decimal, of_ℕ, add, sub, mul, quotient, sqrt, lt, eq}

  unfoldable pub new_trend_analyzer : TrendAnalyzer F
  new_trend_analyzer = record {
    degradation_threshold = decimal 1 2;
    variance_threshold = decimal 5 2;
    min_samples = 3;
  }

  -- The loop from index `i`.
  unfoldable pub regression_sums : ℕ → Sums F → List F → Sums F
  regression_sums i s [] = s
  regression_sums i s (y ∷ values) =
      let x = of_ℕ i in
      regression_sums (i + 1)
        (record {
          sum_x = add s.sum_x x;
          sum_y = add s.sum_y y;
          sum_xy = add s.sum_xy (mul x y);
          sum_x2 = add s.sum_x2 (mul x x);
        })
        values

  -- `for _, y := range values { mean += y }`
  unfoldable pub total : F → List F → F
  total sum [] = sum
  total sum (y ∷ values) = total (add sum y) values

  -- The loop of `calculateRSquared` from index `i`: SS_tot and SS_res.
  unfoldable pub residuals : F → F → F → ℕ → F × F → List F → F × F
  residuals mean slope intercept i sums [] = sums
  residuals mean slope intercept i (ss_tot, ss_res) (y ∷ values) =
      let predicted = add (mul slope (of_ℕ i)) intercept in
      residuals mean slope intercept (i + 1)
        (
          add ss_tot (mul (sub y mean) (sub y mean)),
          add ss_res (mul (sub y predicted) (sub y predicted)),
        )
        values

  unfoldable pub calculate_r_squared : List F → F → F → F
  unfolding total residuals
  calculate_r_squared values slope intercept =
      let n = length values in
      let mean = quotient (total (decimal 0 0) values) (of_ℕ n) in
      let (ss_tot, ss_res) = residuals mean slope intercept 0 (decimal 0 0, decimal 0 0) values in
      let r_squared = sub (decimal 1 0) (quotient ss_res ss_tot) in
      if n == 0
      then decimal 0 0
      else if eq ss_tot (decimal 0 0)
      then decimal 0 0
      else if lt r_squared (decimal 0 0)
      then decimal 0 0
      else r_squared

  unfoldable pub linear_regression : List F → Regression F
  unfolding regression_sums calculate_r_squared
  linear_regression values =
      let n = of_ℕ (length values) in
      let nought = decimal 0 0 in
      let s =
        regression_sums 0
          (record { sum_x = nought; sum_y = nought; sum_xy = nought; sum_x2 = nought }) values in
      let mean_x = quotient s.sum_x n in
      let mean_y = quotient s.sum_y n in
      let numerator = sub (mul n s.sum_xy) (mul s.sum_x s.sum_y) in
      let denominator = sub (mul n s.sum_x2) (mul s.sum_x s.sum_x) in
      let slope = quotient numerator denominator in
      let intercept = sub mean_y (mul slope mean_x) in
      if lt n (decimal 2 0)
      then record { slope = nought; intercept = nought; r_squared = nought }
      else if eq denominator nought
      then record { slope = nought; intercept = mean_y; r_squared = nought }
      else record {
        slope = slope;
        intercept = intercept;
        r_squared = calculate_r_squared values slope intercept;
      }

  -- The second loop of `calculateVariance`.
  unfoldable pub squared_deviations : F → F → List F → F
  squared_deviations mean variance [] = variance
  squared_deviations mean variance (v ∷ values) =
      let diff = sub v mean in squared_deviations mean (add variance (mul diff diff)) values

  unfoldable pub calculate_variance : List F → F
  unfolding squared_deviations total
  calculate_variance values =
      let n = length values in
      let mean = quotient (total (decimal 0 0) values) (of_ℕ n) in
      if n == 0
      then decimal 0 0
      else quotient (squared_deviations mean (decimal 0 0) values) (of_ℕ n)

  -- The result where the samples are too few.
  abbrev pub insufficient : ℕ → TrendScore F
  insufficient n = record {
    indicates_degradation = false;
    slope = decimal 0 0;
    variance = decimal 0 0;
    intercept = decimal 0 0;
    confidence = decimal 0 0;
    sample_size = n;
  }

  unfoldable pub score : TrendAnalyzer F → List F → TrendScore F
  score t ratios =
      let r = linear_regression ratios in
      let variance = calculate_variance ratios in
      record {
        indicates_degradation =
            lt t.degradation_threshold r.slope || lt t.variance_threshold variance;
        slope = r.slope;
        variance = variance;
        intercept = r.intercept;
        confidence = r.r_squared;
        sample_size = length ratios;
      }

  unfoldable pub analyze_trend : TrendAnalyzer F → List (MetricsSnapshot F) → String → TrendScore F
  unfolding score
  analyze_trend t history policy =
      let ratios = extract_miss_ratios history policy in
      if ltb (length history) t.min_samples
      then insufficient (length history)
      else if ltb (length ratios) t.min_samples
      then insufficient (length ratios)
      else score t ratios

  -- The clamp of a prediction to [0, 1].
  unfoldable pub clamp : F → F
  clamp predicted =
      if lt predicted (decimal 0 0)
      then decimal 0 0
      else if lt (decimal 1 0) predicted
      then decimal 1 0
      else predicted

  -- The prediction and its confidence.
  unfoldable pub predict_next_value :
      TrendAnalyzer F → List (MetricsSnapshot F) → String → Result (F × F)
  unfolding clamp
  predict_next_value t history policy =
      let ratios = extract_miss_ratios history policy in
      let r = linear_regression ratios in
      let predicted = add (mul r.slope (of_ℕ (length ratios))) r.intercept in
      if ltb (length ratios) t.min_samples
      then err (errorf "insufficient data: need at least %d samples, got %d")
      else ok (clamp predicted, r.r_squared)

  -- A setting that is not positive is ignored.
  unfoldable pub set_thresholds : F → F → ℤ → TrendAnalyzer F → TrendAnalyzer F
  unfolding set_min_samples
  set_thresholds degradation variance min_samples t = record {
    degradation_threshold =
        if lt (decimal 0 0) degradation then degradation else t.degradation_threshold;
    variance_threshold = if lt (decimal 0 0) variance then variance else t.variance_threshold;
    min_samples = set_min_samples min_samples t.min_samples;
  }

  unfoldable pub calculate_standard_deviation : F → F
  calculate_standard_deviation variance = sqrt variance

unfoldable pub get_thresholds : {F : Type 0} → TrendAnalyzer F → F × F × ℕ
get_thresholds t = (t.degradation_threshold, t.variance_threshold, t.min_samples)
