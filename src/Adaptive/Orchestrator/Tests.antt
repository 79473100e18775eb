-- ===== src/Adaptive/Orchestrator/Tests.antt =====
-- An orchestrator on a cache server whose policy degrades.
use faas_provider.Prelude.{
  Error, err, ℕ, ◌-◌, ◌*◌, ◌^◌, ◌<◌, ◌≡◌, ◌⊎◌, refl, true, false, List, [], ◌∷◌, arith, ltb, pos,
  ok, if◌then◌else◌, lookup, insert,
}
use faas_provider.Float.{Decimal, decimal_float, operations}
use faas_provider.Adaptive.Sample.{Server, server, server_world, report}
use faas_provider.Adaptive.Pattern.{new_pattern_detector, record_access, clear, detect_shift}
use faas_provider.Adaptive.Metrics.{
  AggregatedMetrics, new_metrics_aggregator, updated_metrics, put_metrics, append_history,
  snapshot_of, copy_metrics, build_aggregated_metrics, initialize, fast_profile,
  collect_current_metrics, select_best_policy, get_latest_snapshot, get_history,
}
use faas_provider.Adaptive.Trend.{
  new_trend_analyzer, extract_miss_ratios, linear_regression, calculate_variance, analyze_trend,
}
use faas_provider.Adaptive.CostBenefit.{
  CostBenefitAnalysis, new_cost_benefit_analyzer, estimate_switching_cost, calculate_potential_gain,
  analyze, compare_multiple_candidates, compare_from, set_threshold,
}
use faas_provider.Adaptive.Orchestrator.{
  Orchestrator, Event, ticked, accessed, stop_received, default_orchestrator_config,
  build_candidates, new_intelligent_orchestrator, perform_switch, evaluate_candidates,
  evaluation_loop, handle_access, run_loop, initialize as initialize_all,
}
use faas_provider.Adaptive.Orchestrator.Steps.{KeepsSettings, KeepsPolicy, IsSwitch, Weighs}
use faas_provider.Adaptive.Orchestrator.Cycle.{HasCause, evaluation_loop_lem}
use faas_provider.Adaptive.Orchestrator.Switches.{
  IsSpaced, IsClock, switch_times, run_loop-IsSpaced,
}
use faas_provider.Adaptive.Orchestrator.Setup.{IsStarted, IsNotStarted, initialize_lem}

program : Unit {0}
unfolding new_pattern_detector record_access clear detect_shift new_metrics_aggregator
    updated_metrics put_metrics append_history snapshot_of copy_metrics build_aggregated_metrics
    initialize fast_profile collect_current_metrics select_best_policy get_latest_snapshot
    get_history new_trend_analyzer extract_miss_ratios linear_regression calculate_variance
    analyze_trend new_cost_benefit_analyzer estimate_switching_cost calculate_potential_gain analyze
    compare_multiple_candidates compare_from set_threshold default_orchestrator_config
    build_candidates new_intelligent_orchestrator perform_switch evaluate_candidates evaluation_loop
    handle_access run_loop initialize_all switch_times operations lookup insert
program = tt

abbrev tenths : ℕ → Decimal
tenths n = decimal_float.decimal n 1

abbrev missing : ℕ → Server
missing n = record server { lru_misses = tenths n }

abbrev late : Server
late = record server { time = 60 * 10 ^ 9 }

-- It has measured "lfu" at 0.3, and "lru" at 0.1 and then at 0.3.
abbrev running : Orchestrator Decimal
running = record {
  metrics_aggregator = record {
    policy_metrics =
        (
          "lfu",
          record {
            name = "lfu";
            miss_ratio = tenths 3;
            hit_ratio = tenths 7;
            last_updated = 0;
            sample_count = 1;
          },
        )
        ∷ [];
    history = snapshot_of (report (missing 1)) 0 ∷ snapshot_of (report (missing 3)) 0 ∷ [];
    max_history_size = 10;
    configured_policies = "lfu" ∷ "lru" ∷ [];
  };
  pattern_detector = new_pattern_detector (pos 1000);
  trend_analyzer = new_trend_analyzer;
  cost_benefit_analyzer = new_cost_benefit_analyzer (8 * 1024 ^ 3);
  config = default_orchestrator_config;
  current_policy = "lru";
  last_switch_time = 0;
  is_running = true;
  stop_closed = false;
}

switches : (evaluation_loop running late).0.current_policy ≡ "lfu"
unfolding program
switches = refl

evaluation_loop_lem_example :
    let o' = (evaluation_loop running late).0 in
    let s1 = record late { time = 61 * 10 ^ 9 } in
    let (collected, m, s2) = collect_current_metrics running.metrics_aggregator s1 in
    let early = ltb (60 * 10 ^ 9 - running.last_switch_time) running.config.stability_period in
    KeepsSettings (if early then running.metrics_aggregator else m) running o'
    × (KeepsPolicy running o'
        ⊎ ((agg : AggregatedMetrics Decimal) × (a : CostBenefitAnalysis Decimal) × (early ≡ false)
            × (collected ≡ ok agg)
            × HasCause m running
            × Weighs running.current_policy agg (record running { metrics_aggregator = m }) a
            × IsSwitch a s2 running o'))
unfolding program
evaluation_loop_lem_example = evaluation_loop_lem running late

abbrev events : List Event
events = ticked ∷ accessed "f" true ∷ ticked ∷ stop_received ∷ ticked ∷ []

at_once : switch_times events running late ≡ 63 * 10 ^ 9 ∷ []
unfolding program
at_once = refl

server-IsClock : IsClock Decimal server_world
server-IsClock = record {
  after_status = λ s. omega arith;
  after_set_policy = λ name s. omega arith;
  after_now = λ s. omega arith;
}

positive : 0 < running.config.stability_period
unfolding program
positive = omega arith

run_loop-IsSpaced_example :
    IsSpaced running.config.stability_period 0 (switch_times events running late)
run_loop-IsSpaced_example = run_loop-IsSpaced events running late server-IsClock positive

abbrev blank : Orchestrator Decimal
blank = record running { metrics_aggregator = new_metrics_aggregator; current_policy = "" }

first_policy : (initialize_all blank server).1.current_policy ≡ "lfu"
unfolding program
first_policy = refl

initialize_lem_example :
    let (r, o', s') = initialize_all blank server in
    ((r ≡ ok tt) × IsStarted blank o') ⊎ ((e : Error) × (r ≡ err e) × IsNotStarted blank o')
initialize_lem_example = initialize_lem blank server
