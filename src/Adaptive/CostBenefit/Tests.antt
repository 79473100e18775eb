-- ===== src/Adaptive/CostBenefit/Tests.antt =====
-- The analyzer on a megabyte of cache, and on settings that it takes and refuses.
use faas_provider.Prelude.{
  ℕ, ◌^◌, ◌*◌, ◌≡◌, ◌≢◌, ◌⊎◌, refl, true, false, some, none, String, List, [], ◌∷◌, arith, All, Map,
  eq_iff, HasDistinctKeys, err, errorf,
}
use faas_provider.Float.{
  Decimal, decimal_float, operations, NotNegative, Decimal-IsOrdered, Decimal-IsRounded,
}
use faas_provider.Adaptive.CostBenefit.{
  CostBenefitAnalyzer, new_cost_benefit_analyzer, estimate_switching_cost, calculate_potential_gain,
  analyze, set_weights, compare_multiple_candidates, compare_from, set_threshold,
}
use faas_provider.Adaptive.CostBenefit.Bounds.{
  IsSound, estimate_switching_cost_bounds, analyze-improves,
}
use faas_provider.Adaptive.CostBenefit.Choice.{IsBest, beats, compare_multiple_candidates_lem}
use faas_provider.Prelude.{sym, lookup}
use faas_provider.Adaptive.CostBenefit.Order.{IsSameButTies, compare_multiple_candidates-order}
use faas_provider.Adaptive.CostBenefit.Settings.{Setting, threshold, weights, configure}

program : Unit {0}
unfolding new_cost_benefit_analyzer estimate_switching_cost calculate_potential_gain analyze
    compare_multiple_candidates compare_from set_weights set_threshold configure operations
program = tt

abbrev tenths : ℕ → Decimal
tenths n = decimal_float.decimal n 1

abbrev analyzer : CostBenefitAnalyzer Decimal
analyzer = new_cost_benefit_analyzer (8 * 1024 ^ 3)

analyzer-IsSound : IsSound analyzer
unfolding program
analyzer-IsSound = record { memory = omega arith; time = refl; space = refl; degradation = refl }

estimate_switching_cost_bounds_example :
    let cost = estimate_switching_cost analyzer "lru" "lfu" 1000000 in
    NotNegative cost.time_cost
    × (decimal_float.lt (tenths 10) cost.time_cost ≡ false)
    × NotNegative cost.memory_cost
    × (decimal_float.lt (tenths 10) cost.memory_cost ≡ false)
    × NotNegative cost.total_cost
estimate_switching_cost_bounds_example =
    estimate_switching_cost_bounds Decimal-IsOrdered Decimal-IsRounded analyzer "lru" "lfu" 1000000
      analyzer-IsSound

recommended : (analyze analyzer "lru" "lfu" (tenths 5) (tenths 3) 1000000).should_switch ≡ true
unfolding program
recommended = refl

analyze-improves_example : decimal_float.lt (tenths 3) (tenths 5) ≡ true
unfolding program
analyze-improves_example =
    analyze-improves Decimal-IsOrdered Decimal-IsRounded analyzer "lru" "lfu" (tenths 5) (tenths 3)
      1000000 analyzer-IsSound refl refl refl recommended

abbrev candidates : Map Decimal
candidates = ("lru", tenths 5) ∷ ("lfu", tenths 3) ∷ []

lfu-ne-lru : ◌≢◌ {A = String} "lfu" "lru"
lfu-ne-lru = ground (arith, eq_iff "lfu" "lru")

candidates-HasDistinctKeys : HasDistinctKeys candidates
candidates-HasDistinctKeys = ((lfu-ne-lru, tt), (tt, tt))

picks :
    compare_multiple_candidates analyzer "lru" (tenths 5) candidates 1000000
    ≡ some (analyze analyzer "lru" "lfu" (tenths 5) (tenths 3) 1000000)
unfolding program
picks = refl

compare_multiple_candidates_lem_example :
    let out = compare_multiple_candidates analyzer "lru" (tenths 5) candidates 1000000 in
    let least = decimal_float.negate (tenths 10) in
    (All (λ e. beats analyzer "lru" (tenths 5) 1000000 least e ≡ false) candidates × (out ≡ none))
    ⊎ IsBest analyzer "lru" (tenths 5) 1000000 least candidates out
compare_multiple_candidates_lem_example =
    compare_multiple_candidates_lem Decimal-IsOrdered analyzer "lru" (tenths 5) candidates 1000000
      candidates-HasDistinctKeys

abbrev reversed : Map Decimal
reversed = ("lfu", tenths 3) ∷ ("lru", tenths 5) ∷ []

reversed-HasDistinctKeys : HasDistinctKeys reversed
reversed-HasDistinctKeys = ((λ e. lfu-ne-lru (sym e), tt), (tt, tt))

same_entries : (k : String) → lookup k candidates ≡ lookup k reversed
unfolding lookup
same_entries k = ground (arith, eq_iff "lru" k, eq_iff "lfu" k, lfu-ne-lru)

compare_multiple_candidates-order_example :
    IsSameButTies
      (compare_multiple_candidates analyzer "lru" (tenths 5) candidates 1000000)
      (compare_multiple_candidates analyzer "lru" (tenths 5) reversed 1000000)
compare_multiple_candidates-order_example =
    compare_multiple_candidates-order Decimal-IsOrdered analyzer "lru" (tenths 5) 1000000 candidates
      reversed candidates-HasDistinctKeys reversed-HasDistinctKeys same_entries

refuses :
    set_weights (tenths 5) (tenths 5) (tenths 5) analyzer
    ≡ (err (errorf "weights must sum to 1.0, got %.3f"), analyzer)
unfolding program
refuses = refl

abbrev settings : List (Setting Decimal)
settings =
    threshold (tenths 20) ∷ weights (tenths 5) (tenths 3) (tenths 2) ∷ threshold (tenths 1) ∷ []

sets : (configure settings analyzer).switch_threshold ≡ tenths 1
unfolding program
sets = refl
