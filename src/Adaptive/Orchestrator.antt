-- ===== src/Adaptive/Orchestrator.antt =====
-- pkg/adaptive/orchestrator.go: the evaluation cycle that joins the components. Log lines are left
-- out. The lock's critical sections are run one after the other, as a list of events: what the
-- request handlers do to the shared detector stands between two cycles.
pub mod Steps
pub mod Cycle
pub mod Switches
pub mod Ready
pub mod Improvement
pub mod Threads
pub mod Setup
mod Tests
use faas_provider.Prelude.{
  ℕ, ◌-◌, ◌*◌, ◌^◌, Bool, true, false, ◌||◌, Option, none, some, String, List, [], ◌∷◌, ltb, ◌==◌,
  str_eq, if◌then◌else◌, length, Map, insert, ℤ, pos, Result, ok, err, errorf, wrap,
}
use faas_provider.Float.{Float}
use faas_provider.Adaptive.Client.{World}
use faas_provider.Adaptive.Pattern.{
  PatternDetector, new_pattern_detector, record_access, clear, detect_shift,
}
use faas_provider.Adaptive.Metrics.{
  PolicyMetrics, MetricsAggregator, AggregatedMetrics, MetricsSnapshot, new_metrics_aggregator,
  initialize as initialize_metrics, fast_profile, select_best_policy, collect_current_metrics,
  get_latest_snapshot, get_history,
}
use faas_provider.Adaptive.Trend.{TrendAnalyzer, new_trend_analyzer, analyze_trend}
use faas_provider.Adaptive.CostBenefit.{
  CostBenefitAnalyzer, CostBenefitAnalysis, new_cost_benefit_analyzer, set_threshold,
  compare_multiple_candidates,
}

-- Durations are in nanoseconds. A negative stability period acts as 0 does, and stands as 0.
pub record OrchestratorConfig (F : Type 0) : Type 0 where
  pub evaluation_interval : ℤ
  pub stability_period : ℕ
  pub switch_threshold : F
  pub max_memory : ℕ

-- `stop_closed` says whether the stop channel has been closed.
pub record Orchestrator (F : Type 0) : Type 0 where
  pub metrics_aggregator : MetricsAggregator F
  pub pattern_detector : PatternDetector
  pub trend_analyzer : TrendAnalyzer F
  pub cost_benefit_analyzer : CostBenefitAnalyzer F
  pub config : OrchestratorConfig F
  pub current_policy : String
  pub last_switch_time : ℕ
  pub is_running : Bool
  pub stop_closed : Bool

-- What the running loop and the handlers do, in the order in which they take the lock: a tick that
-- the loop receives, an access that a handler records, the stop signal that the loop receives.
pub data Event : Type 0 where
  ticked : Event
  accessed : String → Bool → Event
  stop_received : Event

abbrev pub second : ℕ
second = 10 ^ 9

-- The loop that builds the candidates' map.
unfoldable pub build_candidates : {F : Type 0} → Map F → Map (PolicyMetrics F) → Map F
build_candidates candidates [] = candidates
build_candidates candidates ((name, v) ∷ m) =
    build_candidates (insert name v.miss_ratio candidates) m

-- The critical section with which `Start` begins.
unfoldable pub start : {F : Type 0} → Orchestrator F → Result (Unit {0}) × Orchestrator F
start o =
    if o.is_running
    then (err (errorf "orchestrator already running"), o)
    else (ok tt, record o { is_running = true })

-- `none` is the panic of closing a closed channel.
unfoldable pub stop : {F : Type 0} → Orchestrator F → Option (Orchestrator F)
stop o = if o.stop_closed then none else some (record o { stop_closed = true })

unfoldable pub get_current_policy : {F : Type 0} → Orchestrator F → String
get_current_policy o = o.current_policy

module _ {F : Type 0} ⦃fl : Float F⦄ where
  open fl use {decimal}

  unfoldable pub default_orchestrator_config : OrchestratorConfig F
  default_orchestrator_config = record {
    evaluation_interval = pos (10 * second);
    stability_period = 30 * second;
    switch_threshold = decimal 5 2;
    max_memory = 8 * 1024 * 1024 * 1024;
  }

  config_of : Option (OrchestratorConfig F) → OrchestratorConfig F
  unfolding default_orchestrator_config
  config_of none = default_orchestrator_config
  config_of (some config) = config

  module _ {S : Type 0} ⦃w : World F S⦄ where
    open w use {set_policy, now}

    unfoldable pub new_intelligent_orchestrator :
        Option (OrchestratorConfig F) → S → Orchestrator F × S
    unfolding config_of
    new_intelligent_orchestrator given s =
        let config = config_of given in
        let (t, s1) = now s in
        (
          record {
            metrics_aggregator = new_metrics_aggregator;
            pattern_detector = new_pattern_detector (pos 1000);
            trend_analyzer = new_trend_analyzer;
            cost_benefit_analyzer = new_cost_benefit_analyzer config.max_memory;
            config = config;
            current_policy = "";
            last_switch_time = t;
            is_running = false;
            stop_closed = false;
          },
          s1,
        )

    -- The end of `Initialize`, once the metrics are there.
    select_initial :
        Orchestrator F → MetricsAggregator F → S → Result (Unit {0}) × Orchestrator F × S
    select_initial o m s =
        let best = select_best_policy m in
        let (refused, s1) = set_policy best s in
        let (t, s2) = now s1 in
        let switched : Result (Unit {0}) × Orchestrator F × S = elim refused [
          | some e ↦
              (err (wrap "failed to set initial policy" e), record o { metrics_aggregator = m }, s1)
          | none ↦ (
            ok tt,
            record o {
              metrics_aggregator = m;
              current_policy = best;
              last_switch_time = t;
              cost_benefit_analyzer =
                  set_threshold o.config.switch_threshold o.cost_benefit_analyzer;
            },
            s2,
          )
        ] in
        if str_eq best ""
        then (
          err (errorf "no suitable initial policy found"),
          record o { metrics_aggregator = m },
          s,
        )
        else switched

    unfoldable pub initialize : Orchestrator F → S → Result (Unit {0}) × Orchestrator F × S
    unfolding select_initial
    initialize o s =
        let (discovered, m1, s1) = initialize_metrics o.metrics_aggregator s in
        elim discovered [
          | err e ↦ (
            err (wrap "failed to initialize metrics aggregator" e),
            record o { metrics_aggregator = m1 },
            s1,
          )
          | ok _ ↦
              let (profiled, m2, s2) = fast_profile m1 s1 in
              elim profiled [
                | err e ↦
                    (err (wrap "fast profiling failed" e), record o { metrics_aggregator = m2 }, s2)
                | ok _ ↦ select_initial o m2 s2
              ]
        ]

    unfoldable pub perform_switch : CostBenefitAnalysis F → Orchestrator F → S → Orchestrator F × S
    perform_switch analysis o s =
        let (refused, s1) = set_policy analysis.candidate_policy s in
        elim refused [
          | some e ↦ (o, s1)
          | none ↦
              let (t, s2) = now s1 in
              (
                record o {
                  current_policy = analysis.candidate_policy;
                  last_switch_time = t;
                  pattern_detector = clear o.pattern_detector;
                },
                s2,
              )
        ]

    -- What follows the comparison of the candidates.
    act_on : Option (CostBenefitAnalysis F) → Orchestrator F → S → Orchestrator F × S
    unfolding perform_switch
    act_on none o s = (o, s)
    act_on (some analysis) o s =
        if analysis.should_switch then perform_switch analysis o s else (o, s)

    unfoldable pub evaluate_candidates :
        String → AggregatedMetrics F → Orchestrator F → S → Orchestrator F × S
    unfolding act_on
    evaluate_candidates current aggregated o s = elim (get_latest_snapshot o.metrics_aggregator) [
      | none ↦ (o, s)
      | some snapshot ↦
          let candidates = build_candidates [] aggregated.all_policies_metrics in
          let best =
            compare_multiple_candidates o.cost_benefit_analyzer current snapshot.miss_ratio
              candidates snapshot.cache_size in
          if length candidates == 0 then (o, s) else act_on best o s
    ]

    -- A cycle after the stability period, once the metrics are collected.
    assess : String → AggregatedMetrics F → Orchestrator F → S → Orchestrator F × S
    unfolding evaluate_candidates
    assess current aggregated o s = elim (get_latest_snapshot o.metrics_aggregator) [
      | none ↦ (o, s)
      | some _ ↦
          let shift = detect_shift {F = F} o.pattern_detector in
          let trend = analyze_trend o.trend_analyzer (get_history o.metrics_aggregator) current in
          if shift.detected || trend.indicates_degradation
          then evaluate_candidates current aggregated o s
          else (o, s)
    ]

    unfoldable pub evaluation_loop : Orchestrator F → S → Orchestrator F × S
    unfolding assess
    evaluation_loop o s =
        let (t, s1) = now s in
        let (collected, m, s2) = collect_current_metrics o.metrics_aggregator s1 in
        let o1 : Orchestrator F = record o { metrics_aggregator = m } in
        let assessed : Orchestrator F × S = elim collected [
          | err e ↦ (o1, s2)
          | ok aggregated ↦ assess o.current_policy aggregated o1 s2
        ] in
        if ltb (t - o.last_switch_time) o.config.stability_period then (o, s1) else assessed

    unfoldable pub handle_access : String → Bool → Orchestrator F → S → Orchestrator F × S
    handle_access key is_hit o s =
        let (t, s1) = now s in
        (record o { pattern_detector = record_access key is_hit t o.pattern_detector }, s1)

    -- The loop of `Start` over the events up to the stop signal.
    unfoldable pub run_loop : List Event → Orchestrator F → S → Orchestrator F × S
    unfolding evaluation_loop handle_access
    run_loop [] o s = (o, s)
    run_loop (ticked ∷ events) o s = let (o', s') = evaluation_loop o s in run_loop events o' s'
    run_loop (accessed key is_hit ∷ events) o s =
        let (o', s') = handle_access key is_hit o s in run_loop events o' s'
    run_loop (stop_received ∷ events) o s = (record o { is_running = false }, s)
