-- ===== src/Adaptive/Orchestrator/Ready.antt =====
-- The orchestrator that its setup leaves ready, and that the loop keeps so.
use faas_provider.Prelude.{
  ◌≡◌, inl, inr, sym, subst, Bool, ltb, ◌-◌, true, false, some, [], ◌∷◌, List, arith, ◌<◌,
  Option-cases, Bool-cases, str_eq, Result-cases, ok, if◌then◌else◌,
}
use faas_provider.Float.{Float, IsOrdered, IsRounded, NotNegative}
use faas_provider.Adaptive.Client.{World}
use faas_provider.Adaptive.Metrics.{
  MetricsAggregator, initialize as initialize_metrics, fast_profile, select_best_policy,
  collect_current_metrics,
}
use faas_provider.Adaptive.Metrics.Valid.{
  IsValid, collect-IsValid, initialize-IsValid, fast_profile-IsValid,
  new_metrics_aggregator-IsValid,
}
use faas_provider.Adaptive.Orchestrator.Setup.{initialize_lem}
use faas_provider.Adaptive.CostBenefit.{new_cost_benefit_analyzer}
use faas_provider.Adaptive.CostBenefit.Bounds.{
  IsSound, decimal-NotNegative, set_threshold-IsSound, set_threshold-NotNegative,
}
use faas_provider.Adaptive.Orchestrator.{
  Orchestrator, Event, ticked, accessed, stop_received, evaluation_loop, handle_access, run_loop,
  initialize, select_initial, start, new_intelligent_orchestrator, OrchestratorConfig,
}
use faas_provider.Adaptive.Orchestrator.Cycle.{evaluation_loop_lem}

module _ {F : Type 0} ⦃fl : Float F⦄ where
  open fl use {decimal}

  either-IsValid :
      (b : Bool) (m n : MetricsAggregator F) → IsValid m → IsValid n → IsValid (if b then m else n)
  either-IsValid true m n v w = v
  either-IsValid false m n v w = w

  -- The metrics are well-formed, and the analyzer's weights, memory and threshold make sense.
  pub record IsReady (o : Orchestrator F) : Type 0 where
    pub metrics : IsValid o.metrics_aggregator
    pub analyzer : IsSound o.cost_benefit_analyzer
    pub threshold : NotNegative o.cost_benefit_analyzer.switch_threshold

  pub start-IsReady : (o : Orchestrator F) → IsReady o → IsReady (start o).1
  unfolding start
  start-IsReady o r =
      let metrics : (start o).1.metrics_aggregator ≡ o.metrics_aggregator = ground arith in
      let analyzer : (start o).1.cost_benefit_analyzer ≡ o.cost_benefit_analyzer = ground arith in
      record {
        metrics = rw metrics r.metrics;
        analyzer = rw analyzer r.analyzer;
        threshold = rw analyzer r.threshold;
      }

  module _ {S : Type 0} ⦃w : World F S⦄ where
    open w use {now, set_policy}

    evaluation_loop-IsReady :
        (o : Orchestrator F) (s : S) → IsReady o → IsReady (evaluation_loop o s).0
    evaluation_loop-IsReady o s r =
        let s1 = (now s).1 in
        let (kept, _) = evaluation_loop_lem o s in
        record {
          metrics = subst IsValid (sym kept.collected) (
              either-IsValid (ltb ((now s).0 - o.last_switch_time) o.config.stability_period)
                o.metrics_aggregator (collect_current_metrics o.metrics_aggregator s1).1 r.metrics
                (collect-IsValid o.metrics_aggregator s1 r.metrics));
          analyzer = subst IsSound (sym kept.analyzer) r.analyzer;
          threshold = subst (λ c. NotNegative c.switch_threshold) (sym kept.analyzer) r.threshold;
        }

    pub run_loop-IsReady :
        (events : List Event) (o : Orchestrator F) (s : S)
        → IsReady o
        → IsReady (run_loop events o s).0
    unfolding run_loop handle_access
    run_loop-IsReady [] o s r = r
    run_loop-IsReady (ticked ∷ events) o s r =
        let (o', s') = evaluation_loop o s in
        run_loop-IsReady events o' s' (evaluation_loop-IsReady o s r)
    run_loop-IsReady (accessed key is_hit ∷ events) o s r =
        let (o', s') = handle_access key is_hit o s in
        run_loop-IsReady events o' s'
          (record { metrics = r.metrics; analyzer = r.analyzer; threshold = r.threshold })
    run_loop-IsReady (stop_received ∷ events) o s r = record {
      metrics = r.metrics;
      analyzer = r.analyzer;
      threshold = r.threshold;
    }

    select_initial-IsValid :
        (o : Orchestrator F) (m : MetricsAggregator F) (s : S)
        → IsValid m
        → IsValid (select_initial o m s).1.metrics_aggregator
    unfolding select_initial
    select_initial-IsValid o m s v = elim (Bool-cases (str_eq (select_best_policy m) "")) [
      | inl nameless ↦ rw (nameless, select_initial) v
      | inr named ↦ elim (Option-cases (set_policy (select_best_policy m) s).0) [
        | inr (e, refused) ↦ rw (named, refused, select_initial) v
        | inl accepted ↦ rw (named, accepted, select_initial) v
      ]
    ]

    orchestrator-IsValid :
        (o : Orchestrator F) (s : S)
        → IsValid o.metrics_aggregator
        → IsValid (initialize o s).1.metrics_aggregator
    unfolding initialize
    orchestrator-IsValid o s v =
        let (discovered, m1, s1) = initialize_metrics o.metrics_aggregator s in
        let (profiled, m2, s2) = fast_profile m1 s1 in
        let v1 = initialize-IsValid o.metrics_aggregator s v in
        let v2 = fast_profile-IsValid m1 s1 v1 in
        elim (Result-cases discovered) [
          | inr (e, failed) ↦ rw (failed, initialize) v1
          | inl (_, found) ↦ elim (Result-cases profiled) [
            | inr (e, failed) ↦ rw (found, failed, initialize) v2
            | inl (_, measured) ↦
                rw (found, measured, initialize) (select_initial-IsValid o m2 s2 v2)
          ]
        ]

    module _ (ordered : IsOrdered F) (rounded : IsRounded F) where
      new_intelligent_orchestrator-IsReady :
          (config : OrchestratorConfig F) (s : S)
          → 0 < config.max_memory
          → IsReady (new_intelligent_orchestrator (some config) s).0
      unfolding new_intelligent_orchestrator new_cost_benefit_analyzer
      new_intelligent_orchestrator-IsReady config s positive =
          let constant = decimal-NotNegative ordered rounded in
          record {
            metrics = new_metrics_aggregator-IsValid;
            analyzer = record {
              memory = positive;
              time = constant 4 1;
              space = constant 2 1;
              degradation = constant 4 1;
            };
            threshold = constant 5 2;
          }

      -- A new orchestrator with some memory is ready once it is initialized.
      pub initialize-IsReady :
          (config : OrchestratorConfig F) (s : S)
          → 0 < config.max_memory
          → let (o, s1) = new_intelligent_orchestrator (some config) s in
            let (r, o', s') = initialize o s1 in r ≡ ok tt → IsReady o'
      initialize-IsReady config s positive started =
          let (o, s1) = new_intelligent_orchestrator (some config) s in
          let ready = new_intelligent_orchestrator-IsReady config s positive in
          let metrics = orchestrator-IsValid o s1 ready.metrics in
          elim (initialize_lem o s1) [
            | inr (e, failed, _) ↦ absurd (ground (arith, started, failed))
            | inl (_, done) ↦ record {
              metrics = metrics;
              analyzer = subst IsSound (sym done.threshold) (
                  set_threshold-IsSound o.config.switch_threshold o.cost_benefit_analyzer
                    ready.analyzer);
              threshold =
                  subst (λ c. NotNegative c.switch_threshold) (sym done.threshold)
                    (set_threshold-NotNegative ordered o.config.switch_threshold
                      o.cost_benefit_analyzer ready.threshold);
            }
          ]
