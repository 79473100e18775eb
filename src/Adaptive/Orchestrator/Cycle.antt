-- ===== src/Adaptive/Orchestrator/Cycle.antt =====
-- What one evaluation cycle does: nothing to the policy, or one switch for which there was cause.
use faas_provider.Prelude.{
  ◌∙◌, ◌-◌, ◌≡◌, ◌⊎◌, inl, inr, refl, true, false, ◌||◌, ltb, if◌then◌else◌, Option-cases,
  Result-cases, ok, Bool-cases, sym,
}
use faas_provider.Float.{Float}
use faas_provider.Adaptive.Client.{World}
use faas_provider.Adaptive.Pattern.{detect_shift}
use faas_provider.Adaptive.Metrics.{
  MetricsAggregator, AggregatedMetrics, collect_current_metrics, get_latest_snapshot, get_history,
}
use faas_provider.Adaptive.Trend.{analyze_trend}
use faas_provider.Adaptive.CostBenefit.{CostBenefitAnalysis}
use faas_provider.Adaptive.Orchestrator.{Orchestrator, evaluation_loop, assess}
use faas_provider.Adaptive.Orchestrator.Steps.{
  KeepsSettings, KeepsPolicy, IsSwitch, Weighs, settings_kept, policy_kept, evaluate_candidates_lem,
}

module _ {F : Type 0} ⦃fl : Float F⦄ where
  -- The pattern has shifted, or the policy's trend has degraded.
  abbrev pub HasCause : MetricsAggregator F → Orchestrator F → Type 0
  HasCause m o =
      let shift = detect_shift {F = F} o.pattern_detector in
      let trend = analyze_trend o.trend_analyzer (get_history m) o.current_policy in
      (shift.detected || trend.indicates_degradation) ≡ true

  module _ {S : Type 0} ⦃w : World F S⦄ where
    open w use {now}

    assess_lem :
        (m : AggregatedMetrics F) (o : Orchestrator F) (s : S)
        → let o' = (assess o.current_policy m o s).0 in
          KeepsSettings o.metrics_aggregator o o'
          × (KeepsPolicy o o'
              ⊎ (HasCause o.metrics_aggregator o
                  × ((a : CostBenefitAnalysis F) × Weighs o.current_policy m o a
                      × IsSwitch a s o o')))
    unfolding assess
    assess_lem m o s = elim (Option-cases (get_latest_snapshot o.metrics_aggregator)) [
      | inl missing ↦ rw (missing, assess) (settings_kept o, inl (policy_kept o))
      | inr (snap, found) ↦
          let shift = detect_shift {F = F} o.pattern_detector in
          let trend =
            analyze_trend o.trend_analyzer (get_history o.metrics_aggregator) o.current_policy in
          elim (Bool-cases (shift.detected || trend.indicates_degradation)) [
            | inr calm ↦ rw (found, calm, assess) (settings_kept o, inl (policy_kept o))
            | inl cause ↦
                let (kept, done) = evaluate_candidates_lem o.current_policy m o s in
                rw (found, cause, assess)
                  (
                    kept,
                    elim done [
                      | inl same ↦ inl same
                      | inr (a, (shot, seen, weighed), switched) ↦
                          inr (refl, (a, (shot, sym found ∙ seen, weighed), switched))
                    ],
                  )
          ]
    ]

    -- A cycle changes no setting, and leaves the metrics that it collects once the stability period
    -- is over. It keeps the policy, the time of the last switch and the detector, or the stability
    -- period is over, the metrics are collected, the pattern has shifted or the trend has degraded,
    -- and it switches to a candidate other than the current policy that the analyzer recommends on
    -- these metrics and the server accepts: then it takes the time of the switch and clears the
    -- detector.
    pub evaluation_loop_lem :
        (o : Orchestrator F) (s : S)
        → let o' = (evaluation_loop o s).0 in
          let (t, s1) = now s in
          let (collected, m, s2) = collect_current_metrics o.metrics_aggregator s1 in
          let early = ltb (t - o.last_switch_time) o.config.stability_period in
          KeepsSettings (if early then o.metrics_aggregator else m) o o'
          × (KeepsPolicy o o'
              ⊎ ((agg : AggregatedMetrics F) × (a : CostBenefitAnalysis F) × (early ≡ false)
                  × (collected ≡ ok agg)
                  × HasCause m o
                  × Weighs o.current_policy agg (record o { metrics_aggregator = m }) a
                  × IsSwitch a s2 o o'))
    unfolding evaluation_loop
    evaluation_loop_lem o s =
        let (t, s1) = now s in
        let (collected, m, s2) = collect_current_metrics o.metrics_aggregator s1 in
        let o1 : Orchestrator F = record o { metrics_aggregator = m } in
        let early = ltb (t - o.last_switch_time) o.config.stability_period in
        elim (Bool-cases early) [
          | inl soon ↦ rw (soon, evaluation_loop) (settings_kept o, inl (policy_kept o))
          | inr over ↦ elim (Result-cases collected) [
            | inr (e, failed) ↦
                rw (over, failed, evaluation_loop)
                  (
                    record {
                      collected = refl;
                      config = refl;
                      analyzer = refl;
                      trend = refl;
                      running = refl;
                      closed = refl;
                    },
                    inl (record { policy = refl; time = refl; detector = refl }),
                  )
            | inl (agg, taken) ↦
                let (kept, done) = assess_lem agg o1 s2 in
                rw (over, taken, evaluation_loop)
                  (
                    record {
                      collected = kept.collected;
                      config = kept.config;
                      analyzer = kept.analyzer;
                      trend = kept.trend;
                      running = kept.running;
                      closed = kept.closed;
                    },
                    elim done [
                      | inl same ↦ inl (record {
                        policy = same.policy;
                        time = same.time;
                        detector = same.detector;
                      })
                      | inr (cause, (a, weighed, sw)) ↦ inr (
                        agg,
                        a,
                        refl,
                        refl,
                        cause,
                        weighed,
                        record {
                          recommended = sw.recommended;
                          accepted = sw.accepted;
                          policy = sw.policy;
                          time = sw.time;
                          detector = sw.detector;
                        },
                      )
                    ],
                  )
          ]
        ]
