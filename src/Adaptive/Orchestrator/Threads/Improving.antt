-- ===== src/Adaptive/Orchestrator/Threads/Improving.antt =====
-- The policies that the loop's steps switch to.
use faas_provider.Prelude.{
  ◌-◌, ◌≡◌, ◌⊎◌, inl, inr, refl, [], ltb, length, ◌==◌, ◌||◌, Option-cases, Result-cases,
  Bool-cases,
}
use faas_provider.Float.{Float, IsOrdered, IsRounded}
use faas_provider.Adaptive.Client.{World}
use faas_provider.Adaptive.Trend.{analyze_trend}
use faas_provider.Adaptive.Metrics.{collect_current_metrics, get_latest_snapshot, get_history}
use faas_provider.Adaptive.Metrics.Valid.{collect-IsValid}
use faas_provider.Adaptive.Orchestrator.{Orchestrator, build_candidates, handle_access}
use faas_provider.Adaptive.Orchestrator.Steps.{compare_multiple_candidates-IsAnalysis}
use faas_provider.Adaptive.Orchestrator.Ready.{IsReady}
use faas_provider.Adaptive.Orchestrator.Improvement.{IsBetter, collect-all}
use faas_provider.Adaptive.Orchestrator.Threads.{
  Position, stopped, waiting, stopping, reading, timing, collecting, detecting, judging, weighing,
  switching, updating, clearing, System, advance_from, advance, handler_step, Steps, advanced,
  accessed, ticked, closed, stop_received, started, Reach, here, next,
}
use faas_provider.Adaptive.Orchestrator.Threads.Informed.{
  IsInformed, analysis-IsLower, decide-IsInformed, lower-IsBetter,
}

module _ {F S : Type 0} ⦃fl : Float F⦄ ⦃w : World F S⦄ where
  open w use {set_policy, now}

  pub record IsImproving (x : System F S) : Type 0 where
    pub ready : IsReady x.orchestrator
    pub informed : IsInformed x.loop x.orchestrator.metrics_aggregator

  module _ (ordered : IsOrdered F) (rounded : IsRounded F) where
    advance_from-IsImproving :
        (p : Position F) (o : Orchestrator F) (s : S)
        → IsReady o
        → IsInformed p o.metrics_aggregator
        → IsImproving (advance_from p o s)
    unfolding advance_from
    advance_from-IsImproving stopped o s r h = record { ready = r; informed = tt }
    advance_from-IsImproving waiting o s r h = record { ready = r; informed = tt }
    advance_from-IsImproving stopping o s r h = record {
      ready = record { metrics = r.metrics; analyzer = r.analyzer; threshold = r.threshold };
      informed = tt;
    }
    advance_from-IsImproving reading o s r h = record { ready = r; informed = tt }
    advance_from-IsImproving (timing current last period) o s r h =
        elim (Bool-cases (ltb ((now s).0 - last) period)) [
          | inl soon ↦ rw (soon, advance_from) (record { ready = r; informed = tt })
          | inr over ↦ rw (over, advance_from) (record { ready = r; informed = tt })
        ]
    advance_from-IsImproving (collecting current) o s r h =
        let (collected, m, s1) = collect_current_metrics o.metrics_aggregator s in
        let r1 : IsReady (record o { metrics_aggregator = m }) = record {
          metrics = collect-IsValid o.metrics_aggregator s r.metrics;
          analyzer = r.analyzer;
          threshold = r.threshold;
        } in
        elim (Result-cases collected) [
          | inr (e, failed) ↦ rw (failed, advance_from) (record { ready = r1; informed = tt })
          | inl (agg, taken) ↦
              let all = collect-all o.metrics_aggregator s agg taken in
              rw (taken, advance_from) (record { ready = r1; informed = all })
        ]
    advance_from-IsImproving (detecting current agg) o s r h =
        elim (Option-cases (get_latest_snapshot o.metrics_aggregator)) [
          | inl missing ↦ rw (missing, advance_from) (record { ready = r; informed = tt })
          | inr (snap, found) ↦ rw (found, advance_from) (record { ready = r; informed = h })
        ]
    advance_from-IsImproving (judging current agg shifted) o s r h =
        let trend = analyze_trend o.trend_analyzer (get_history o.metrics_aggregator) current in
        elim (Bool-cases (shifted || trend.indicates_degradation)) [
          | inr calm ↦ rw (calm, advance_from) (record { ready = r; informed = tt })
          | inl cause ↦ rw (cause, advance_from) (record { ready = r; informed = h })
        ]
    advance_from-IsImproving (weighing current agg) o s r h =
        let candidates = build_candidates [] agg.all_policies_metrics in
        elim (Option-cases (get_latest_snapshot o.metrics_aggregator)) [
          | inl missing ↦ rw (missing, advance_from) (record { ready = r; informed = tt })
          | inr (snap, found) ↦ elim (Bool-cases (length candidates == 0)) [
            | inl empty ↦ rw (found, empty, advance_from) (record { ready = r; informed = tt })
            | inr some_there ↦
                rw (found, some_there, advance_from)
                  (record {
                    ready = r;
                    informed = decide-IsInformed o.metrics_aggregator _ (λ a e go.
                        analysis-IsLower ordered rounded o current agg snap a r h found
                          (compare_multiple_candidates-IsAnalysis o.cost_benefit_analyzer current
                            snap.miss_ratio snap.cache_size agg.all_policies_metrics a e)
                          go);
                  })
          ]
        ]
    advance_from-IsImproving (switching a) o s r h =
        elim (Option-cases (set_policy a.candidate_policy s).0) [
          | inr (e, refused) ↦ rw (refused, advance_from) (record { ready = r; informed = tt })
          | inl accepted ↦ rw (accepted, advance_from) (record { ready = r; informed = h })
        ]
    advance_from-IsImproving (updating a) o s r h = record {
      ready = record { metrics = r.metrics; analyzer = r.analyzer; threshold = r.threshold };
      informed = tt;
    }
    advance_from-IsImproving clearing o s r h = record {
      ready = record { metrics = r.metrics; analyzer = r.analyzer; threshold = r.threshold };
      informed = tt;
    }

    Steps-IsImproving : {x y : System F S} → Steps x y → IsImproving x → IsImproving y
    unfolding advance handler_step handle_access
    Steps-IsImproving (advanced x) h =
        advance_from-IsImproving x.loop x.orchestrator x.world h.ready h.informed
    Steps-IsImproving (accessed x key is_hit) h = record {
      ready = record {
        metrics = h.ready.metrics;
        analyzer = h.ready.analyzer;
        threshold = h.ready.threshold;
      };
      informed = h.informed;
    }
    Steps-IsImproving (ticked x idle) h = record { ready = h.ready; informed = tt }
    Steps-IsImproving (closed x open_channel) h = record {
      ready = record {
        metrics = h.ready.metrics;
        analyzer = h.ready.analyzer;
        threshold = h.ready.threshold;
      };
      informed = h.informed;
    }
    Steps-IsImproving (stop_received x idle was_closed) h = record {
      ready = h.ready;
      informed = tt;
    }
    Steps-IsImproving (started x n off ticks) h = record {
      ready = record {
        metrics = h.ready.metrics;
        analyzer = h.ready.analyzer;
        threshold = h.ready.threshold;
      };
      informed = tt;
    }

    pub Reach-IsImproving : {x y : System F S} → IsImproving x → Reach x y → IsImproving y
    Reach-IsImproving h here = h
    Reach-IsImproving h (next r st) = Steps-IsImproving st (Reach-IsImproving h r)

    advance_from-IsBetter :
        (p : Position F) (o : Orchestrator F) (s : S)
        → IsInformed p o.metrics_aggregator
        → let o' = (advance_from p o s).orchestrator in
          (o'.current_policy ≡ o.current_policy) ⊎ IsBetter o'
    unfolding advance_from
    advance_from-IsBetter (updating a) o s h = inr (lower-IsBetter o a.candidate_policy (now s).0 h)
    advance_from-IsBetter stopped o s h = inl refl
    advance_from-IsBetter waiting o s h = inl refl
    advance_from-IsBetter stopping o s h = inl refl
    advance_from-IsBetter reading o s h = inl refl
    advance_from-IsBetter (timing current last period) o s h = inl refl
    advance_from-IsBetter (collecting current) o s h = inl refl
    advance_from-IsBetter (detecting current agg) o s h = inl refl
    advance_from-IsBetter (judging current agg shifted) o s h = inl refl
    advance_from-IsBetter (weighing current agg) o s h = inl refl
    advance_from-IsBetter (switching a) o s h = inl refl
    advance_from-IsBetter clearing o s h = inl refl

    -- A step keeps the policy, or it goes to a better one.
    pub Steps-IsBetter :
        {x y : System F S}
        → Steps x y
        → IsImproving x
        → (y.orchestrator.current_policy ≡ x.orchestrator.current_policy) ⊎ IsBetter y.orchestrator
    unfolding advance handler_step handle_access
    Steps-IsBetter (advanced x) h = advance_from-IsBetter x.loop x.orchestrator x.world h.informed
    Steps-IsBetter (accessed x key is_hit) h = inl refl
    Steps-IsBetter (ticked x idle) h = inl refl
    Steps-IsBetter (closed x open_channel) h = inl refl
    Steps-IsBetter (stop_received x idle was_closed) h = inl refl
    Steps-IsBetter (started x n off ticks) h = inl refl
