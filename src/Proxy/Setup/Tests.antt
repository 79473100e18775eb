-- ===== src/Proxy/Setup/Tests.antt =====
-- The setup on a cache server of two policies, and the loop that follows it.
use faas_provider.Prelude.{◌≡◌, ◌⊎◌, refl, true, false, none, some, arith, pos, lookup, insert}
use faas_provider.Float.{Decimal, decimal_float, operations, Decimal-IsOrdered, Decimal-IsRounded}
use faas_provider.Adaptive.Sample.{Server, server, server_world}
use faas_provider.Adaptive.Pattern.{new_pattern_detector, record_access, clear, detect_shift}
use faas_provider.Adaptive.Metrics.{
  new_metrics_aggregator, updated_metrics, put_metrics, append_history, snapshot_of, copy_metrics,
  build_aggregated_metrics, initialize, fast_profile, collect_current_metrics, select_best_policy,
  get_latest_snapshot, get_history,
}
use faas_provider.Adaptive.Trend.{
  new_trend_analyzer, extract_miss_ratios, linear_regression, calculate_variance, analyze_trend,
}
use faas_provider.Adaptive.CostBenefit.{
  new_cost_benefit_analyzer, estimate_switching_cost, calculate_potential_gain, analyze,
  compare_multiple_candidates, compare_from, set_threshold,
}
use faas_provider.Adaptive.Orchestrator.{
  Orchestrator, ticked, accessed, build_candidates, new_intelligent_orchestrator, perform_switch,
  evaluate_candidates, evaluation_loop, handle_access, run_loop, start,
  initialize as initialize_all,
}
use faas_provider.Adaptive.Orchestrator.Improvement.{IsBetter}
use faas_provider.Prelude.{◌<◌}
use faas_provider.Adaptive.Sample.{server_world}
use faas_provider.Adaptive.Orchestrator.Switches.{IsClock}
use faas_provider.Adaptive.Orchestrator.Threads.{
  System, reading, advance_from, advance, handler_step, Reach, here, next, advanced, accessed,
  ticked, started,
}
use faas_provider.Adaptive.Orchestrator.Threads.Consistency.{IsServer, IsConsistent, is_confirmed}
use faas_provider.Adaptive.Orchestrator.Threads.Switching.{IsKept, IsSwitched, Steps-IsSwitched}
use faas_provider.Proxy.Client.{
  IsLimited, new_proxy_client_from_config, new_proxy_client_from_config-IsLimited,
}
use faas_provider.Proxy.Setup.Running.{unstarted, set_up-IsConsistent, set_up-Steps}
use faas_provider.Config.{FaasConfig}
use faas_provider.Proxy.Setup.{build_orchestrator_config, set_up}
use faas_provider.Proxy.Setup.Bounds.{Fits, IsBuilt, build_orchestrator_config-IsBuilt}

program : Unit {0}
unfolding new_pattern_detector record_access clear detect_shift new_metrics_aggregator
    updated_metrics put_metrics append_history snapshot_of copy_metrics build_aggregated_metrics
    initialize fast_profile collect_current_metrics select_best_policy get_latest_snapshot
    get_history new_trend_analyzer extract_miss_ratios linear_regression calculate_variance
    analyze_trend new_cost_benefit_analyzer estimate_switching_cost calculate_potential_gain analyze
    compare_multiple_candidates compare_from set_threshold build_orchestrator_config set_up
    build_candidates new_intelligent_orchestrator perform_switch evaluate_candidates evaluation_loop
    handle_access advance_from advance handler_step run_loop initialize_all start operations lookup
    insert
program = tt

abbrev pub config : FaasConfig Decimal
config = record {
  tcp_port = none;
  read_timeout = pos 0;
  write_timeout = pos 0;
  enable_health = false;
  enable_basic_auth = true;
  secret_mount_path = "/run/secrets";
  max_idle_conns = pos 0;
  max_idle_conns_per_host = pos 0;
  enable_caching = true;
  enable_intelligent_orchestrator = false;
  orchestrator_eval_interval = 0;
  orchestrator_stability_period = 20;
  orchestrator_switch_threshold = decimal_float.decimal 5 0;
  orchestrator_max_memory = 4;
}

abbrev adaptive : FaasConfig Decimal
adaptive = record config { enable_intelligent_orchestrator = true }

adaptive-Fits : Fits adaptive
adaptive-Fits = record { interval = omega arith; period = omega arith; memory = omega arith }

build_orchestrator_config-IsBuilt_example : IsBuilt adaptive (build_orchestrator_config adaptive)
build_orchestrator_config-IsBuilt_example =
    build_orchestrator_config-IsBuilt Decimal-IsOrdered adaptive adaptive-Fits

abbrev initialized : Orchestrator Decimal × Server
initialized =
    let (o, s) = new_intelligent_orchestrator (some (build_orchestrator_config adaptive)) server in
    let (_, o', s') = initialize_all o s in (o', s')

begins :
    (set_up adaptive true server ≡ (some initialized.0, initialized.1))
    × (initialized.0.current_policy ≡ "lfu")
unfolding program
begins = (refl, refl)

server-IsClock : IsClock Decimal server_world
server-IsClock = record {
  after_status = λ s. omega arith;
  after_set_policy = λ name s. omega arith;
  after_now = λ s. omega arith;
}

server-IsServer : IsServer Decimal server_world
server-IsServer = record {
  policy = λ s. s.current;
  accepted = λ name s h. refl;
  after_status = λ s. refl;
  after_now = λ s. refl;
}

abbrev outside : System Decimal Server
outside = unstarted initialized.0 initialized.1

-- The loop is started, a tick is received, and a handler records an access before it goes on.
abbrev in_cycle : System Decimal Server
in_cycle = advance (
    handler_step "f" true (record outside {
      orchestrator = record outside.orchestrator { is_running = true };
      loop = reading;
    }))

reached : Reach outside in_cycle
unfolding program
reached =
    next
      (next (next (next here (started outside _ refl refl)) (ticked _ refl)) (accessed _ "f" true))
      (advanced _)

set_up-IsConsistent_example :
    IsConsistent server-IsClock server-IsServer (is_confirmed true reached) in_cycle
set_up-IsConsistent_example =
    set_up-IsConsistent Decimal-IsOrdered server-IsClock server-IsServer adaptive true server
      initialized.1 initialized.0 in_cycle adaptive-Fits begins.0 reached

set_up-Steps_example :
    ((advance in_cycle).orchestrator.current_policy ≡ in_cycle.orchestrator.current_policy)
    ⊎ IsBetter (advance in_cycle).orchestrator
set_up-Steps_example =
    set_up-Steps Decimal-IsOrdered Decimal-IsRounded adaptive true server initialized.1
      initialized.0 in_cycle (advance in_cycle) adaptive-Fits begins.0 reached (advanced in_cycle)

positive : 0 < initialized.0.config.stability_period
unfolding program
positive = omega arith

idle : initialized.0.is_running ≡ false
unfolding program
idle = refl

Steps-IsSwitched_example :
    IsKept in_cycle (advance in_cycle)
    ⊎ IsSwitched server-IsClock server-IsServer in_cycle (advance in_cycle)
Steps-IsSwitched_example =
    Steps-IsSwitched server-IsClock server-IsServer outside in_cycle (advance in_cycle) refl idle
      positive reached (advanced in_cycle)

new_proxy_client_from_config-IsLimited_example : IsLimited (new_proxy_client_from_config config)
new_proxy_client_from_config-IsLimited_example = new_proxy_client_from_config-IsLimited config
