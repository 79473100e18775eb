-- ===== src/Adaptive/Metrics/Tests.antt =====
-- The aggregator against a small cache server.
use faas_provider.Prelude.{
  ◌≡◌, ◌≢◌, ◌⊎◌, refl, true, some, none, String, List, [], ◌∷◌, arith, All, length, take_last,
  lookup, insert, ok, HasDistinctKeys, eq_iff, if◌then◌else◌, str_eq,
}
use faas_provider.Float.{Decimal, decimal_float, operations, Decimal-IsOrdered}
use faas_provider.Adaptive.Sample.{server, server_world, report}
use faas_provider.Adaptive.Metrics.{
  PolicyMetrics, AggregatedMetrics, MetricsAggregator, new_metrics_aggregator, updated_metrics,
  put_metrics, append_history, snapshot_of, copy_metrics, build_aggregated_metrics, initialize,
  fast_profile, collect_current_metrics, start_monitoring, Tick, tick, stop, select_best_policy,
  get_latest_snapshot, simplified_fast_profile,
}
use faas_provider.Adaptive.Metrics.Valid.{IsValid, Call, run, run-new-IsValid}
use faas_provider.Adaptive.Metrics.Collect.{
  observed, start_monitoring-observed, collect_current_metrics_lem,
}
use faas_provider.Adaptive.Metrics.Best.{NoneWithin, IsLowest, select_best_policy_lem}
use faas_provider.Adaptive.Metrics.Profile.{Answers, fast_profile-measures}

program : Unit {0}
unfolding new_metrics_aggregator updated_metrics put_metrics append_history snapshot_of copy_metrics
    build_aggregated_metrics initialize fast_profile simplified_fast_profile collect_current_metrics
    start_monitoring select_best_policy get_latest_snapshot observed run lookup insert operations
program = tt

abbrev fresh : MetricsAggregator Decimal
fresh = new_metrics_aggregator

abbrev ticks : List Tick
ticks = tick ∷ tick ∷ stop ∷ tick ∷ []

abbrev calls : List Call
calls = Call.initializing ∷ Call.profiling ∷ Call.monitoring ticks ∷ []

profiled :
    let out = run calls fresh server in
    (length out.0.history ≡ 2)
    × (length out.0.policy_metrics ≡ 2)
    × (select_best_policy out.0 ≡ "lfu")
unfolding program
profiled = (refl, refl, refl)

run-new-IsValid_example : IsValid (run calls fresh server).0
run-new-IsValid_example = run-new-IsValid calls server

start_monitoring-observed_example :
    (start_monitoring ticks fresh server).0.history ≡ take_last 10 (observed ticks server)
start_monitoring-observed_example = start_monitoring-observed ticks server

abbrev start : MetricsAggregator Decimal
start = record {
  policy_metrics = [];
  history = [];
  max_history_size = 10;
  configured_policies = "lfu" ∷ "lru" ∷ [];
}

start-IsValid : IsValid start
start-IsValid = record { bounded = omega arith; capacity = refl; distinct = tt; entries = tt }

collect_current_metrics_lem_example :
    let out = collect_current_metrics start server in
    let snap = snapshot_of (report server) 1000000000 in
    (agg : AggregatedMetrics Decimal) × (out.0 ≡ ok agg)
    × (out.1.history ≡ take_last 10 (snap ∷ []))
    × (get_latest_snapshot out.1 ≡ some snap)
    × (agg.history ≡ out.1.history)
    × (agg.current_policy ≡ "lru")
    × (agg.current_policy_miss_ratio ≡ (report server).miss_ratio)
    × ((v : PolicyMetrics Decimal) × (v.miss_ratio ≡ (report server).miss_ratio)
        × ((k : String)
            → lookup k out.1.policy_metrics
              ≡ (if str_eq "lru" k then some v else lookup k start.policy_metrics)))
    × ((k : String) → lookup k agg.all_policies_metrics ≡ lookup k out.1.policy_metrics)
collect_current_metrics_lem_example =
    collect_current_metrics_lem start server (report server) start-IsValid refl

abbrev measured : MetricsAggregator Decimal
measured = record start {
  policy_metrics =
      (
        "lru",
        record {
          name = "lru";
          miss_ratio = decimal_float.decimal 5 1;
          hit_ratio = decimal_float.decimal 5 1;
          last_updated = 0;
          sample_count = 1;
        },
      )
      ∷ (
        "lfu",
        record {
          name = "lfu";
          miss_ratio = decimal_float.decimal 3 1;
          hit_ratio = decimal_float.decimal 7 1;
          last_updated = 0;
          sample_count = 1;
        },
      )
      ∷ [];
}

lru-ne-lfu : ◌≢◌ {A = String} "lfu" "lru"
lru-ne-lfu = ground (arith, eq_iff "lfu" "lru")

measured-HasDistinctKeys : HasDistinctKeys measured.policy_metrics
measured-HasDistinctKeys = ((lru-ne-lfu, tt), (tt, tt))

select_best_policy_lem_example :
    (NoneWithin (decimal_float.decimal 1 0) measured.policy_metrics
      × (select_best_policy measured ≡ ""))
    ⊎ ((v : PolicyMetrics Decimal) × (lookup (select_best_policy measured) measured.policy_metrics
          ≡ some v)
        × (decimal_float.le v.miss_ratio (decimal_float.decimal 1 0) ≡ true)
        × IsLowest (decimal_float.decimal 1 0) v.miss_ratio measured.policy_metrics)
select_best_policy_lem_example =
    select_best_policy_lem Decimal-IsOrdered measured measured-HasDistinctKeys

answers : Answers server_world
answers = record { accepts = λ name s. refl; reports = λ s. (report s, refl) }

fast_profile-measures_example :
    All
      (λ k. lookup k (fast_profile start server).1.policy_metrics ≢ none)
      start.configured_policies
fast_profile-measures_example = fast_profile-measures start server answers
