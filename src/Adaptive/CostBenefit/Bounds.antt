-- ===== src/Adaptive/CostBenefit/Bounds.antt =====
-- The bounds of the costs, and what a recommendation to switch means.
use faas_provider.Prelude.{ℕ, ◌<◌, ◌≡◌, true, false, String, arith, ◌*◌}
use faas_provider.Float.{Float, IsNumber, IsOrdered, NotNegative, IsRounded}
use faas_provider.Adaptive.CostBenefit.{
  CostBenefitAnalyzer, estimate_switching_cost, calculate_potential_gain, analyze, set_threshold,
}

module _ {F : Type 0} ⦃fl : Float F⦄ where
  open fl use {decimal, of_ℕ, mul, add, quotient, minimum, sub, lt, le, eq}

  -- No weight is negative, and the memory limit is positive.
  pub record IsSound (c : CostBenefitAnalyzer F) : Type 0 where
    pub memory : 0 < c.max_memory
    pub time : NotNegative c.weight_time
    pub space : NotNegative c.weight_memory
    pub degradation : NotNegative c.weight_degradation

  pub set_threshold-IsSound :
      (t : F) (c : CostBenefitAnalyzer F) → IsSound c → IsSound (set_threshold t c)
  unfolding set_threshold
  set_threshold-IsSound t c h = record {
    memory = ground (arith, h.memory);
    time = ground (arith, h.time);
    space = ground (arith, h.space);
    degradation = ground (arith, h.degradation);
  }

  pub set_threshold-NotNegative :
      (ordered : IsOrdered F) (t : F) (c : CostBenefitAnalyzer F)
      → NotNegative c.switch_threshold
      → NotNegative (set_threshold t c).switch_threshold
  unfolding set_threshold
  set_threshold-NotNegative ordered t c h = ground (arith, ordered.not-lt_of_le (decimal 0 0) t)

  module _ (ordered : IsOrdered F) (rounded : IsRounded F) where
    open ordered use {lt_or_le, le_trans, not-lt_of_le, number_of_le, decimal_mono, le_of_lt}
    open rounded use {
      whole_pos, of_ℕ_pos, of_ℕ_not_negative, mul_not_negative, add_not_negative,
      quotient_not_negative, minimum_not_negative, minimum_not_above, sub_not_above,
    }

    pub decimal-NotNegative : (m k : ℕ) → NotNegative (decimal m k)
    decimal-NotNegative m k =
        not-lt_of_le (decimal 0 0) (decimal m k) (decimal_mono 0 0 m k (omega arith))

    -- Of a sound analyzer the time cost and the memory cost are not negative and not above 1, and
    -- the total cost is not negative.
    pub estimate_switching_cost_bounds :
        (c : CostBenefitAnalyzer F) (from to : String) (size : ℕ)
        → IsSound c
        → let cost = estimate_switching_cost c from to size in
          NotNegative cost.time_cost
          × (lt (decimal 1 0) cost.time_cost ≡ false)
          × NotNegative cost.memory_cost
          × (lt (decimal 1 0) cost.memory_cost ≡ false)
          × NotNegative cost.total_cost
    unfolding estimate_switching_cost
    estimate_switching_cost_bounds c from to size s =
        let seconds =
          quotient_not_negative _ _
            (mul_not_negative _ _
              (quotient_not_negative _ _ (of_ℕ_not_negative size)
                (whole_pos (1024 * 1024) (omega arith)))
              (decimal-NotNegative 1 2))
            (whole_pos 10 (omega arith)) in
        let bytes =
          quotient_not_negative _ _
            (mul_not_negative _ _ (of_ℕ_not_negative size) (decimal-NotNegative 1 1))
            (of_ℕ_pos c.max_memory s.memory) in
        let time = minimum_not_negative _ _ seconds (decimal-NotNegative 1 0) in
        let memory = minimum_not_negative _ _ bytes (decimal-NotNegative 1 0) in
        (
          time,
          (minimum_not_above _ _).1,
          memory,
          (minimum_not_above _ _).1,
          add_not_negative _ _
              (add_not_negative _ _ (mul_not_negative _ _ s.time time)
                (mul_not_negative _ _ s.space memory))
              (mul_not_negative _ _ s.degradation (decimal-NotNegative 2 2)),
        )

    above_zero : (t n : F) → NotNegative t → lt t n ≡ true → lt (decimal 0 0) n ≡ true
    above_zero t n h above =
        let (t_number, n_number) = number_of_le t n (le_of_lt t n above) in
        let nought : F = decimal 0 0 in
        let zero_number = decimal_mono 0 0 0 0 (omega arith) in
        ground (
          arith,
          lt_or_le t nought t_number zero_number,
          lt_or_le nought n zero_number n_number,
          le_trans n nought t,
          not-lt_of_le n t,
        )

    no_gain :
        (c : CostBenefitAnalyzer F) (current candidate : String) (r q : F) (size : ℕ)
        → IsSound c
        → NotNegative c.switch_threshold
        → calculate_potential_gain r q ≡ decimal 0 0
        → (analyze c current candidate r q size).should_switch ≡ false
    unfolding analyze
    no_gain c current candidate r q size s h none_gained =
        let cost = estimate_switching_cost c current candidate size in
        let (_, _, _, _, total) = estimate_switching_cost_bounds c current candidate size s in
        ground (
          arith,
          none_gained,
          sub_not_above (decimal 0 0) cost.total_cost total,
          above_zero c.switch_threshold (sub (decimal 0 0) cost.total_cost) h,
        )

    -- Of whatever two miss ratios, NaN included, a switch that is recommended is not one to a ratio
    -- at or above the current one.
    pub analyze-not_above :
        (c : CostBenefitAnalyzer F) (current candidate : String) (r q : F) (size : ℕ)
        → IsSound c
        → NotNegative c.switch_threshold
        → (analyze c current candidate r q size).should_switch ≡ true
        → le r q ≡ false
    unfolding calculate_potential_gain
    analyze-not_above c current candidate r q size s h recommended =
        ground (arith, no_gain c current candidate r q size s h)

    -- A switch is recommended only to a candidate with a lower miss ratio than the current one, if
    -- the analyzer is sound, its threshold is not negative and both miss ratios are numbers.
    pub analyze-improves :
        (c : CostBenefitAnalyzer F) (current candidate : String) (r q : F) (size : ℕ)
        → IsSound c
        → NotNegative c.switch_threshold
        → IsNumber r
        → IsNumber q
        → (analyze c current candidate r q size).should_switch ≡ true
        → lt q r ≡ true
    unfolding calculate_potential_gain
    analyze-improves c current candidate r q size s h r_number q_number recommended =
        ground (arith, no_gain c current candidate r q size s h, lt_or_le q r q_number r_number)
