-- ===== src/Adaptive/CostBenefit/Settings.antt =====
-- The settings that the analyzer accepts.
use faas_provider.Prelude.{◌≡◌, true, false, List, [], ◌∷◌}
use faas_provider.Float.{Float}
use faas_provider.Adaptive.CostBenefit.{CostBenefitAnalyzer, set_threshold, set_weights}

-- A call of one of the setters.
pub data Setting (F : Type 0) : Type 0 where
  threshold : F → Setting F
  weights : F → F → F → Setting F

module _ {F : Type 0} ⦃fl : Float F⦄ where
  open fl use {decimal, absolute, add, sub, lt, le}

  -- The threshold lies in [0, 1], and the weights' sum is not more than 0.01 away from 1.
  pub record IsConfigured (c : CostBenefitAnalyzer F) : Type 0 where
    pub lower : le (decimal 0 0) c.switch_threshold ≡ true
    pub upper : le c.switch_threshold (decimal 1 0) ≡ true
    pub balanced :
        lt (decimal 1 2) (
          absolute
            (sub (add (add c.weight_time c.weight_memory) c.weight_degradation) (decimal 1 0)))
        ≡ false

  apply_setting : Setting F → CostBenefitAnalyzer F → CostBenefitAnalyzer F
  apply_setting (threshold t) c = set_threshold t c
  apply_setting (weights t m d) c = (set_weights t m d c).1

  unfoldable pub configure : List (Setting F) → CostBenefitAnalyzer F → CostBenefitAnalyzer F
  unfolding apply_setting
  configure [] c = c
  configure (s ∷ settings) c = configure settings (apply_setting s c)
