-- ===== src/Adaptive.antt =====
-- The adaptive cache policy of pkg/adaptive: the access pattern detector, the trend analyzer, the
-- cost-benefit analyzer, the metrics aggregator, and the orchestrator that joins them.
pub mod Client
pub mod Sample
pub mod Pattern
pub mod Metrics
pub mod Trend
pub mod CostBenefit
pub mod Orchestrator
