-- ===== src/Adaptive/Metrics/Collect.antt =====
-- What `collect_current_metrics` records, and what the monitoring loop keeps.
use faas_provider.Prelude.{
  ℕ, ◌<◌, ◌≡◌, refl, sym, ap, ◌∙◌, Option, none, some, String, List, [], ◌∷◌, ◌++◌, arith, last?,
  take_last, Map, lookup, insert, lookup-insert, lookup_fresh, HasDistinctKeys, slide,
  take_last-take_last, last?-take_last, length-take_last-le, ok, err, Result-cases, inl, inr,
  str_eq, eq_iff, if◌then◌else◌, take_last_of_le,
}
use mathlib.Core.List.{append-nil, append_assoc}
use faas_provider.Float.{Float}
use faas_provider.Adaptive.Client.{World, PaperStatus}
use faas_provider.Adaptive.Metrics.{
  PolicyMetrics, MetricsAggregator, MetricsSnapshot, AggregatedMetrics, new_metrics_aggregator,
  updated_metrics, put_metrics, append_history, snapshot_of, collect_current_metrics, copy_metrics,
  build_aggregated_metrics, start_monitoring, Tick, tick, stop, get_latest_snapshot,
}
use faas_provider.Adaptive.Metrics.Valid.{IsValid, put_metrics-IsValid}

module _ {F : Type 0} where
  -- The copy holds what the map holds.
  pub lookup-copy_metrics :
      (k : String) (copied m : Map (PolicyMetrics F))
      → HasDistinctKeys m
      → lookup k (copy_metrics copied m)
        ≡ (elim (lookup k m) [ none ↦ lookup k copied | some v ↦ some v ])
  unfolding lookup copy_metrics
  lookup-copy_metrics k copied [] d = refl
  lookup-copy_metrics k copied ((j, v) ∷ m) (f, d) = ground (
    arith,
    lookup-copy_metrics k (insert j v copied) m d,
    lookup-insert j k v copied,
    lookup_fresh j m f,
    eq_iff j k,
  )

  append_history-size :
      (snap : MetricsSnapshot F) (m : MetricsAggregator F)
      → (append_history snap m).max_history_size ≡ m.max_history_size
  unfolding append_history
  append_history-size snap m = refl

  append_history-metrics :
      (snap : MetricsSnapshot F) (m : MetricsAggregator F)
      → (append_history snap m).policy_metrics ≡ m.policy_metrics
  unfolding append_history
  append_history-metrics snap m = refl

  append_history-window :
      (w : ℕ) (snap : MetricsSnapshot F) (m : MetricsAggregator F) (past : List (MetricsSnapshot F))
      → 0 < w
      → m.max_history_size ≡ w
      → m.history ≡ take_last w past
      → (append_history snap m).history ≡ take_last w (past ++ (snap ∷ []))
  unfolding append_history
  append_history-window w snap m past pos size window =
      rw (size, window)
        (slide w (take_last w past) snap (length-take_last-le w past)
          ∙ take_last-take_last w past snap pos)

module _ {F : Type 0} ⦃fl : Float F⦄ where
  build_aggregated_metrics-latest :
      (m : MetricsAggregator F) (snap : MetricsSnapshot F)
      → HasDistinctKeys m.policy_metrics
      → last? m.history ≡ some snap
      → let agg = build_aggregated_metrics m in
        (agg.history ≡ m.history)
        × (agg.current_policy ≡ snap.current_policy)
        × (agg.current_policy_miss_ratio ≡ snap.miss_ratio)
        × ((k : String) → lookup k agg.all_policies_metrics ≡ lookup k m.policy_metrics)
  unfolding build_aggregated_metrics lookup
  build_aggregated_metrics-latest m snap d latest =
      rw (latest, build_aggregated_metrics)
        (refl, refl, refl, λ k. ground (arith, lookup-copy_metrics k [] m.policy_metrics d))

  updated_metrics-miss_ratio :
      (k : String) (st : PaperStatus F) (t : ℕ) (old : Option (PolicyMetrics F))
      → (updated_metrics k st t old).miss_ratio ≡ st.miss_ratio
  unfolding updated_metrics
  updated_metrics-miss_ratio k st t none = refl
  updated_metrics-miss_ratio k st t (some v) = refl

  pub put_metrics-lookup :
      (name : String) (st : PaperStatus F) (t : ℕ) (m : MetricsAggregator F) (k : String)
      → lookup k (put_metrics name st t m).policy_metrics ≡ (
          if str_eq name k
          then some (updated_metrics name st t (lookup name m.policy_metrics))
          else lookup k m.policy_metrics)
  unfolding put_metrics
  put_metrics-lookup name st t m k = lookup-insert name k _ m.policy_metrics

module _ {F S : Type 0} ⦃fl : Float F⦄ ⦃w : World F S⦄ where
  open w use {status, now}

  -- The snapshots that the ticks up to a stop observe, oldest first.
  unfoldable pub observed : List Tick → S → List (MetricsSnapshot F)
  observed [] s = []
  observed (stop ∷ ticks) s = []
  observed (tick ∷ ticks) s =
      let (r, s1) = status s in
      elim r [
        | err e ↦ observed ticks s1
        | ok st ↦
            let (_, s2) = now s1 in let (t, s3) = now s2 in snapshot_of st t ∷ observed ticks s3
      ]

  start_monitoring-window :
      (ticks : List Tick) (k : ℕ) (m : MetricsAggregator F) (past : List (MetricsSnapshot F))
      (s : S)
      → 0 < k
      → m.max_history_size ≡ k
      → m.history ≡ take_last k past
      → (start_monitoring ticks m s).0.history ≡ take_last k (past ++ observed ticks s)
  unfolding start_monitoring observed collect_current_metrics put_metrics
  start_monitoring-window [] k m past s pos size window = rw append-nil window
  start_monitoring-window (stop ∷ ticks) k m past s pos size window = rw append-nil window
  start_monitoring-window (tick ∷ ticks) k m past s pos size window =
      elim (Result-cases (status s).0) [
        | inr (e, failed) ↦
            rw (failed, start_monitoring, observed, collect_current_metrics)
              (start_monitoring-window ticks k m past (status s).1 pos size window)
        | inl (st, measured) ↦
            let (t1, s2) = now (status s).1 in
            let (t2, s3) = now s2 in
            let snap = snapshot_of st t2 in
            let m1 = put_metrics st.policy st t1 m in
            rw (measured, start_monitoring, observed, collect_current_metrics)
              (start_monitoring-window ticks k (append_history snap m1) (past ++ (snap ∷ [])) s3 pos
                  (append_history-size snap m1 ∙ size)
                  (append_history-window k snap m1 past pos size window)
                ∙ ap (take_last k) (append_assoc past (snap ∷ []) (observed ticks s3)))
      ]

  -- On a new aggregator, the monitoring loop's history is the last ten of the snapshots that it
  -- observed before the stop, in order; a tick whose status call fails leaves no snapshot.
  pub start_monitoring-observed :
      (ticks : List Tick) (s : S)
      → (start_monitoring ticks new_metrics_aggregator s).0.history
        ≡ take_last 10 (observed ticks s)
  unfolding new_metrics_aggregator
  start_monitoring-observed ticks s =
      start_monitoring-window ticks 10 new_metrics_aggregator [] s (omega arith) refl refl

  -- When the status call succeeds, `collect_current_metrics` succeeds with an aggregate of the new
  -- state: the latest snapshot has what the status reports, and so has the aggregate; the history
  -- is the last ten snapshots with the new one; the entry of the reported policy has its miss
  -- ratio; every other entry reads as before; and the aggregate's map reads as the aggregator's own.
  pub collect_current_metrics_lem :
      (m : MetricsAggregator F) (s : S) (st : PaperStatus F)
      → IsValid m
      → (status s).0 ≡ ok st
      → let out = collect_current_metrics m s in
        let snap = snapshot_of st (now (now (status s).1).1).0 in
        (agg : AggregatedMetrics F) × (out.0 ≡ ok agg)
        × (out.1.history ≡ take_last 10 (m.history ++ (snap ∷ [])))
        × (get_latest_snapshot out.1 ≡ some snap)
        × (agg.history ≡ out.1.history)
        × (agg.current_policy ≡ st.policy)
        × (agg.current_policy_miss_ratio ≡ st.miss_ratio)
        × ((v : PolicyMetrics F) × (v.miss_ratio ≡ st.miss_ratio)
            × ((k : String)
                → lookup k out.1.policy_metrics
                  ≡ (if str_eq st.policy k then some v else lookup k m.policy_metrics)))
        × ((k : String) → lookup k agg.all_policies_metrics ≡ lookup k out.1.policy_metrics)
  unfolding collect_current_metrics get_latest_snapshot snapshot_of put_metrics
  collect_current_metrics_lem m s st v measured =
      let (t1, s2) = now (status s).1 in
      let snap = snapshot_of st (now s2).0 in
      let m1 = put_metrics st.policy st t1 m in
      let m2 = append_history snap m1 in
      let window : m2.history ≡ take_last 10 (m.history ++ (snap ∷ [])) =
        append_history-window 10 snap m1 m.history (omega arith) v.capacity
          (sym (take_last_of_le 10 m.history (omega arith))) in
      let latest : last? m2.history ≡ some snap =
        rw window (last?-take_last 10 m.history snap (omega arith)) in
      let (same, named, ratio, reads) =
        build_aggregated_metrics-latest m2 snap
          (rw (append_history-metrics snap m1) (put_metrics-IsValid st.policy st t1 m v).distinct)
          latest in
      rw (measured, collect_current_metrics)
        (
          build_aggregated_metrics m2,
          refl,
          window,
          latest,
          same,
          named,
          ratio,
          (
            updated_metrics st.policy st t1 (lookup st.policy m.policy_metrics),
            updated_metrics-miss_ratio st.policy st t1 _,
            λ k.
                ap (lookup k) (append_history-metrics snap m1)
                ∙ put_metrics-lookup st.policy st t1 m k,
          ),
          reads,
        )
