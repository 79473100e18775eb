-- ===== src/Proxy/Setup.antt =====
-- What NewFlowHandler of proxy/proxy.go does before it serves: the orchestrator's configuration,
-- and the orchestrator. The proxy client is a parameter where requests are made.
pub mod Bounds
pub mod Improvement
pub mod Running
pub mod Tests
use faas_provider.Prelude.{
  ℕ, ℤ, ◌*◌, ◌%◌, ◌^◌, ◌==◌, ◌&&◌, Bool, true, Option, none, some, if◌then◌else◌, ok, err, pos,
  pos_part,
}
use faas_provider.Float.{Float}
use faas_provider.Adaptive.Client.{World}
use faas_provider.Adaptive.Orchestrator.{
  Orchestrator, OrchestratorConfig, new_intelligent_orchestrator, initialize,
}
use faas_provider.Config.{FaasConfig, wrap_int64, second}

-- `time.Duration(n) * time.Second` of a uint64.
abbrev pub seconds : ℕ → ℤ
seconds n = wrap_int64 (n * second)

module _ {F : Type 0} ⦃fl : Float F⦄ where
  open fl use {decimal, lt, le}

  unfoldable pub build_orchestrator_config : FaasConfig F → OrchestratorConfig F
  build_orchestrator_config c = record {
    evaluation_interval =
        if c.orchestrator_eval_interval == 0
        then pos (10 * second)
        else seconds c.orchestrator_eval_interval;
    stability_period =
        if c.orchestrator_stability_period == 0
        then 30 * second
        else pos_part (seconds c.orchestrator_stability_period);
    switch_threshold =
        if lt (decimal 0 0) c.orchestrator_switch_threshold
          && le c.orchestrator_switch_threshold (decimal 1 0)
        then c.orchestrator_switch_threshold
        else decimal 5 2;
    max_memory =
        if c.orchestrator_max_memory == 0
        then 8 * 1024 * 1024 * 1024
        else c.orchestrator_max_memory * (1024 * 1024 * 1024) % 2 ^ 64;
  }

  module _ {S : Type 0} ⦃w : World F S⦄ where
    -- The orchestrator that the handler then has, if any; `paper` says whether the cache's client
    -- is a PaperCache client. The loop that is started in the background is not yet run.
    unfoldable pub set_up : FaasConfig F → Bool → S → Option (Orchestrator F) × S
    unfolding build_orchestrator_config
    set_up c paper s =
        let (o, s1) = new_intelligent_orchestrator (some (build_orchestrator_config c)) s in
        let (initialized, o1, s2) = initialize o s1 in
        let kept : Option (Orchestrator F) = elim initialized [ err e ↦ none | ok _ ↦ some o1 ] in
        if c.enable_intelligent_orchestrator && c.enable_caching && paper
        then (kept, s2)
        else (none, s)
