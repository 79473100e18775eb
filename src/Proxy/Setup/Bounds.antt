-- ===== src/Proxy/Setup/Bounds.antt =====
-- The configuration that reaches the orchestrator is one that its parts accept.
use faas_provider.Prelude.{ℕ, ◌*◌, ◌^◌, ◌<◌, ◌≡◌, ◌==◌, if◌then◌else◌, pos, arith}
use faas_provider.Float.{Float, IsOrdered}
use faas_provider.Adaptive.Orchestrator.{OrchestratorConfig}
use faas_provider.Adaptive.CostBenefit.{CostBenefitAnalyzer, set_threshold}
use faas_provider.Config.{FaasConfig, second}
use faas_provider.Proxy.Setup.{build_orchestrator_config}

abbrev pub or_default : ℕ → ℕ → ℕ
or_default fallback n = if n == 0 then fallback else n

module _ {F : Type 0} ⦃fl : Float F⦄ where
  open fl use {decimal, lt, le}

  -- The durations in nanoseconds, and the memory in bytes, fit into their integers.
  pub record Fits (c : FaasConfig F) : Type 0 where
    pub interval : c.orchestrator_eval_interval * second < 2 ^ 63
    pub period : c.orchestrator_stability_period * second < 2 ^ 63
    pub memory : c.orchestrator_max_memory * (1024 * 1024 * 1024) < 2 ^ 64

  -- The settings, or 10 and 30 seconds and 8 GB where they are 0, and a threshold that an analyzer
  -- takes.
  pub record IsBuilt (c : FaasConfig F) (o : OrchestratorConfig F) : Type 0 where
    pub interval : o.evaluation_interval ≡ pos (or_default 10 c.orchestrator_eval_interval * second)
    pub period : o.stability_period ≡ or_default 30 c.orchestrator_stability_period * second
    pub positive : 0 < o.stability_period
    pub memory : o.max_memory ≡ or_default 8 c.orchestrator_max_memory * (1024 * 1024 * 1024)
    pub some_memory : 0 < o.max_memory
    pub taken :
        (a : CostBenefitAnalyzer F)
        → (set_threshold o.switch_threshold a).switch_threshold ≡ o.switch_threshold

  module _ (laws : IsOrdered F) where
    -- If its durations and its memory fit, a configuration is built into one with these, or with
    -- the defaults for those that are 0, where the stability period and the memory are above 0, and
    -- into a threshold that an analyzer takes, whatever threshold is set.
    pub build_orchestrator_config-IsBuilt :
        (c : FaasConfig F) → Fits c → IsBuilt c (build_orchestrator_config c)
    unfolding build_orchestrator_config set_threshold
    build_orchestrator_config-IsBuilt c fits = record {
      interval = ground arith;
      period = ground arith;
      positive = ground arith;
      memory = ground arith;
      some_memory = ground arith;
      taken = λ a. ground (
        arith,
        laws.le_of_lt (decimal 0 0) c.orchestrator_switch_threshold,
        laws.decimal_mono 0 0 5 2 (omega arith),
        laws.decimal_mono 5 2 1 0 (omega arith),
      );
    }
