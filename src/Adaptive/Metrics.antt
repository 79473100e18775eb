-- ===== src/Adaptive/Metrics.antt =====
-- pkg/adaptive/metrics.go: the metrics of each policy, the bounded history of snapshots, and the
-- profiling runs that fill them. `Operations` has what calls the client.
mod Defs
mod Operations
pub mod Valid
pub mod Collect
pub mod Best
pub mod Profile
mod Tests
pub use Defs.{PolicyMetrics, MetricsSnapshot, AggregatedMetrics, MetricsAggregator}
unfoldable pub use Defs.{
  new_metrics_aggregator, updated_metrics, put_metrics, copy_metrics, build_aggregated_metrics,
  get_policy_metrics, get_history, get_latest_snapshot, is_data_complete, get_configured_policies,
  select_from, select_best_policy, snapshot_of, append_history,
}
unfoldable pub use Operations.{
  initialize, store_policy_metrics, profile_all, fast_profile, profile_core,
  simplified_fast_profile, collect_current_metrics, start_monitoring,
}
pub use Operations.{millisecond, Tick, tick, stop}
