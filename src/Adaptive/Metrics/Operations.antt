-- ===== src/Adaptive/Metrics/Operations.antt =====
-- The operations that call the client. Log lines, and clock readings that are only logged, are
-- left out.
use faas_provider.Prelude.{
  ℕ, ◌*◌, ◌^◌, ◌==◌, none, some, String, List, [], ◌∷◌, if◌then◌else◌, length, errorf, wrap, Result,
  ok, err, concat,
}
use faas_provider.Float.{Float}
use faas_provider.Adaptive.Client.{World, PaperStatus}
use faas_provider.Adaptive.Metrics.Defs.{
  MetricsAggregator, AggregatedMetrics, put_metrics, append_history, snapshot_of,
  build_aggregated_metrics,
}

-- What the monitoring loop receives.
pub data Tick : Type 0 where
  tick stop : Tick

abbrev pub millisecond : ℕ
millisecond = 10 ^ 6

module _ {F S : Type 0} ⦃fl : Float F⦄ ⦃w : World F S⦄ where
  open w use {status, set_policy, now, sleep}

  unfoldable pub initialize : MetricsAggregator F → S → Result (Unit {0}) × MetricsAggregator F × S
  initialize m s =
      let (r, s1) = status s in
      elim r [
        | err e ↦ (err (wrap "failed to get initial status" e), m, s1)
        | ok st ↦ (ok tt, record m { configured_policies = st.policies }, s1)
      ]

  unfoldable pub store_policy_metrics :
      String → PaperStatus F → MetricsAggregator F → S → MetricsAggregator F × S
  store_policy_metrics name st m s = let (t, s1) = now s in (put_metrics name st t m, s1)

  -- The loop of `FastProfile`: a policy that cannot be set or measured is passed over.
  unfoldable pub profile_all : List String → MetricsAggregator F → S → MetricsAggregator F × S
  unfolding store_policy_metrics
  profile_all [] m s = (m, s)
  profile_all (name ∷ names) m s =
      let (refused, s1) = set_policy name s in
      elim refused [
        | some e ↦ profile_all names m s1
        | none ↦
            let (r, s2) = status (sleep (2000 * millisecond) s1) in
            elim r [
              | err e ↦ profile_all names m s2
              | ok st ↦ let (m', s3) = store_policy_metrics name st m s2 in profile_all names m' s3
            ]
      ]

  unfoldable pub fast_profile :
      MetricsAggregator F → S → Result (Unit {0}) × MetricsAggregator F × S
  unfolding profile_all
  fast_profile m s =
      let (m', s') = profile_all m.configured_policies m s in
      if length m.configured_policies == 0
      then (err (errorf "no policies configured, call Initialize() first"), m, s)
      else (ok tt, m', s')

  -- The loop of `SimplifiedFastProfile`: the first failure ends it.
  unfoldable pub profile_core :
      List String → MetricsAggregator F → S → Result (Unit {0}) × MetricsAggregator F × S
  unfolding store_policy_metrics
  profile_core [] m s = (ok tt, m, s)
  profile_core (name ∷ names) m s =
      let (refused, s1) = set_policy name s in
      elim refused [
        | some e ↦ (err (wrap (concat "failed to switch to " name) e), m, s1)
        | none ↦
            let (r, s2) = status (sleep (2500 * millisecond) s1) in
            elim r [
              | err e ↦ (err (wrap (concat "failed to get status for " name) e), m, s2)
              | ok st ↦ let (m', s3) = store_policy_metrics name st m s2 in profile_core names m' s3
            ]
      ]

  unfoldable pub simplified_fast_profile :
      MetricsAggregator F → S → Result (Unit {0}) × MetricsAggregator F × S
  unfolding profile_core
  simplified_fast_profile = profile_core ("lfu" ∷ "lru" ∷ [])

  -- The clock is read once for the entry and once for the snapshot.
  unfoldable pub collect_current_metrics :
      MetricsAggregator F → S → Result (AggregatedMetrics F) × MetricsAggregator F × S
  collect_current_metrics m s =
      let (r, s1) = status s in
      elim r [
        | err e ↦ (err (wrap "failed to get status" e), m, s1)
        | ok st ↦
            let (t1, s2) = now s1 in
            let m1 = put_metrics st.policy st t1 m in
            let (t2, s3) = now s2 in
            let m2 = append_history (snapshot_of st t2) m1 in
            (ok (build_aggregated_metrics m2), m2, s3)
      ]

  -- `StartMonitoring` over the ticks that it receives until the stop.
  unfoldable pub start_monitoring : List Tick → MetricsAggregator F → S → MetricsAggregator F × S
  unfolding collect_current_metrics
  start_monitoring [] m s = (m, s)
  start_monitoring (stop ∷ ticks) m s = (m, s)
  start_monitoring (tick ∷ ticks) m s =
      let (_, m', s') = collect_current_metrics m s in start_monitoring ticks m' s'
