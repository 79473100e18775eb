-- ===== src/Adaptive/CostBenefit.antt =====
-- pkg/adaptive/cost_benefit.go: the gain of a switch of policies against its cost. Log lines are
-- left out. A candidate map is visited in the order of its list.
pub mod Bounds
pub mod Choice
pub mod Order
pub mod Settings
mod Tests
use faas_provider.Prelude.{
  ℕ, ◌*◌, ◌^◌, Bool, true, false, not, ◌&&◌, ◌||◌, Option, none, some, String, List, [], ◌∷◌,
  str_eq, if◌then◌else◌, Map, Result, ok, err, errorf,
}
use faas_provider.Float.{Float}

pub record SwitchingCost (F : Type 0) : Type 0 where
  pub time_cost : F
  pub memory_cost : F
  pub degradation_cost : F
  pub total_cost : F

pub record CostBenefitAnalysis (F : Type 0) : Type 0 where
  pub current_policy : String
  pub candidate_policy : String
  pub current_miss_ratio : F
  pub candidate_miss_ratio : F
  pub potential_gain : F
  pub switching_cost : SwitchingCost F
  pub net_benefit : F
  pub should_switch : Bool

pub record CostBenefitAnalyzer (F : Type 0) : Type 0 where
  pub max_memory : ℕ
  pub switch_threshold : F
  pub weight_time : F
  pub weight_memory : F
  pub weight_degradation : F

module _ {F : Type 0} where
  unfoldable pub get_threshold : CostBenefitAnalyzer F → F
  get_threshold c = c.switch_threshold

  unfoldable pub get_weights : CostBenefitAnalyzer F → F × F × F
  get_weights c = (c.weight_time, c.weight_memory, c.weight_degradation)

module _ {F : Type 0} ⦃fl : Float F⦄ where
  open fl use {
    decimal, of_ℕ, to_uint64, negate, add, sub, mul, quotient, minimum, absolute, lt, le, eq,
  }

  unfoldable pub new_cost_benefit_analyzer : ℕ → CostBenefitAnalyzer F
  new_cost_benefit_analyzer max_memory = record {
    max_memory = max_memory;
    switch_threshold = decimal 5 2;
    weight_time = decimal 4 1;
    weight_memory = decimal 2 1;
    weight_degradation = decimal 4 1;
  }

  abbrev megabyte : F
  megabyte = decimal (1024 * 1024) 0

  unfoldable pub estimate_switching_cost :
      CostBenefitAnalyzer F → String → String → ℕ → SwitchingCost F
  estimate_switching_cost c from_policy to_policy cache_size =
      let estimated_seconds = mul (quotient (of_ℕ cache_size) megabyte) (decimal 1 2) in
      let time_cost = minimum (quotient estimated_seconds (decimal 10 0)) (decimal 1 0) in
      let overhead_bytes = mul (of_ℕ cache_size) (decimal 1 1) in
      let memory_cost = minimum (quotient overhead_bytes (of_ℕ c.max_memory)) (decimal 1 0) in
      let degradation_cost = decimal 2 2 in
      record {
        time_cost = time_cost;
        memory_cost = memory_cost;
        degradation_cost = degradation_cost;
        total_cost =
            add (add (mul c.weight_time time_cost) (mul c.weight_memory memory_cost))
              (mul c.weight_degradation degradation_cost);
      }

  unfoldable pub calculate_potential_gain : F → F → F
  calculate_potential_gain current candidate =
      if eq current (decimal 0 0)
      then decimal 0 0
      else if le current candidate
      then decimal 0 0
      else quotient (sub current candidate) current

  unfoldable pub calculate_net_benefit : F → SwitchingCost F → F
  calculate_net_benefit gain cost = sub gain cost.total_cost

  unfoldable pub analyze :
      CostBenefitAnalyzer F → String → String → F → F → ℕ → CostBenefitAnalysis F
  unfolding calculate_net_benefit
  analyze c current candidate current_ratio candidate_ratio cache_size =
      let gain = calculate_potential_gain current_ratio candidate_ratio in
      let cost = estimate_switching_cost c current candidate cache_size in
      let net = calculate_net_benefit gain cost in
      record {
        current_policy = current;
        candidate_policy = candidate;
        current_miss_ratio = current_ratio;
        candidate_miss_ratio = candidate_ratio;
        potential_gain = gain;
        switching_cost = cost;
        net_benefit = net;
        should_switch = lt c.switch_threshold net;
      }

  unfoldable pub set_threshold : F → CostBenefitAnalyzer F → CostBenefitAnalyzer F
  set_threshold threshold c =
      if le (decimal 0 0) threshold && le threshold (decimal 1 0)
      then record c { switch_threshold = threshold }
      else c

  unfoldable pub set_weights :
      F → F → F → CostBenefitAnalyzer F → Result (Unit {0}) × CostBenefitAnalyzer F
  set_weights time memory degradation c =
      let sum = add (add time memory) degradation in
      if lt (decimal 1 2) (absolute (sub sum (decimal 1 0)))
      then (err (errorf "weights must sum to 1.0, got %.3f"), c)
      else (
        ok tt,
        record c { weight_time = time; weight_memory = memory; weight_degradation = degradation },
      )

  unfoldable pub estimate_reconstruction_time : ℕ → F
  estimate_reconstruction_time cache_size = mul (quotient (of_ℕ cache_size) megabyte) (decimal 1 1)

  module _ (c : CostBenefitAnalyzer F) (current : String) (current_ratio : F) (cache_size : ℕ) where
    -- The loop over the candidates: the best analysis so far, and its net benefit.
    unfoldable pub compare_from :
        Option (CostBenefitAnalysis F) → F → Map F → Option (CostBenefitAnalysis F)
    compare_from best best_net [] = best
    compare_from best best_net ((candidate, ratio) ∷ candidates) =
        let analysis = analyze c current candidate current_ratio ratio cache_size in
        let better = not (str_eq candidate current) && lt best_net analysis.net_benefit in
        compare_from (if better then some analysis else best)
          (if better then analysis.net_benefit else best_net) candidates

  unfoldable pub compare_multiple_candidates :
      CostBenefitAnalyzer F → String → F → Map F → ℕ → Option (CostBenefitAnalysis F)
  compare_multiple_candidates c current current_ratio candidates cache_size =
      compare_from c current current_ratio cache_size none (negate (decimal 1 0)) candidates

module _ (F : Type 0) ⦃fl : Float F⦄ where
  open fl use {decimal, of_ℕ, to_uint64, mul}

  unfoldable pub estimate_memory_overhead : ℕ → ℕ
  estimate_memory_overhead cache_size = to_uint64 (mul (of_ℕ cache_size) (decimal 1 1))
