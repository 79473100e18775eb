-- ===== src/Adaptive/Trend/Tests.antt =====
-- The trend of a policy whose misses rise by a tenth with each snapshot.
use faas_provider.Prelude.{
  ℕ, ◌≤◌, ◌≡◌, ◌↔◌, ◌⊎◌, refl, true, String, List, [], ◌∷◌, arith, length, ok, pos, negsuc,
}
use faas_provider.Float.{Decimal, decimal_float, operations}
use faas_provider.Adaptive.Metrics.{MetricsSnapshot}
use faas_provider.Adaptive.Trend.{
  TrendAnalyzer, new_trend_analyzer, extract_miss_ratios, linear_regression, calculate_variance,
  analyze_trend, predict_next_value, set_thresholds,
}
use faas_provider.Adaptive.Trend.Analysis.{analyze_trend_iff}
use faas_provider.Adaptive.Trend.Prediction.{Setting, setting, configure, IsUsable}

program : Unit {0}
unfolding new_trend_analyzer linear_regression calculate_variance analyze_trend predict_next_value
    set_thresholds extract_miss_ratios operations
program = tt

abbrev tenths : ℕ → Decimal
tenths n = decimal_float.decimal n 1

abbrev snapshot : String → ℕ → MetricsSnapshot Decimal
snapshot policy misses = record {
  timestamp = 0;
  current_policy = policy;
  miss_ratio = tenths misses;
  cache_size = 1000;
  used_size = 0;
  num_objects = 0;
  total_gets = 0;
  total_sets = 0;
}

abbrev rising : List (MetricsSnapshot Decimal)
rising = snapshot "lru" 1 ∷ snapshot "lfu" 9 ∷ snapshot "lru" 2 ∷ snapshot "lru" 3 ∷ []

abbrev analyzer : TrendAnalyzer Decimal
analyzer = new_trend_analyzer

degrades :
    let a = analyze_trend analyzer rising "lru" in
    (a.indicates_degradation ≡ true) × (a.slope ≡ tenths 1) × (a.sample_size ≡ 3)
unfolding program
degrades = (refl, refl, refl)

predicts : predict_next_value analyzer rising "lru" ≡ ok (tenths 4, tenths 10)
unfolding program
predicts = refl

analyze_trend_iff_example :
    let ratios = extract_miss_ratios rising "lru" in
    ((analyze_trend analyzer rising "lru").indicates_degradation ≡ true) ↔ (
      (analyzer.min_samples ≤ length ratios)
      × ((decimal_float.lt analyzer.degradation_threshold (linear_regression ratios).slope ≡ true)
          ⊎ (decimal_float.lt analyzer.variance_threshold (calculate_variance ratios) ≡ true)))
analyze_trend_iff_example = analyze_trend_iff analyzer rising "lru"

analyzer-IsUsable : IsUsable analyzer
unfolding program
analyzer-IsUsable = record { degradation = refl; variance = refl; samples = omega arith }

abbrev settings : List (Setting Decimal)
settings = setting (tenths 2) (tenths 0) (negsuc 3) ∷ setting (tenths 0) (tenths 1) (pos 5) ∷ []

sets :
    let t = configure settings analyzer in
    (t.degradation_threshold ≡ tenths 2) × (t.variance_threshold ≡ tenths 1) × (t.min_samples ≡ 5)
unfolding program configure
sets = (refl, refl, refl)
