-- ===== src/Adaptive/Orchestrator/Threads/Advancing.antt =====
-- The loop's own steps between two states of the goroutines that agree.
use faas_provider.Prelude.{
  ◌-◌, ◌<◌, ◌≡◌, inl, inr, refl, sym, subst, ◌∙◌, Bool, String, true, false, Option, none, some, [],
  arith, str_eq, ltb, length, ◌==◌, ◌||◌, if◌then◌else◌, Option-cases, Result-cases, Bool-cases,
}
use faas_provider.Float.{Float}
use faas_provider.Adaptive.Client.{World}
use faas_provider.Adaptive.Trend.{analyze_trend}
use faas_provider.Adaptive.Metrics.{
  MetricsAggregator, collect_current_metrics, get_latest_snapshot, get_history,
}
use faas_provider.Adaptive.CostBenefit.{CostBenefitAnalysis}
use faas_provider.Adaptive.Orchestrator.{Orchestrator, build_candidates}
use faas_provider.Adaptive.Orchestrator.Steps.{compare_multiple_candidates-IsAnalysis}
use faas_provider.Adaptive.Orchestrator.Switches.{IsClock, collect_later}
use faas_provider.Adaptive.Orchestrator.Threads.{
  Position, stopped, waiting, stopping, reading, timing, collecting, detecting, judging, weighing,
  switching, updating, clearing, decide, advance_from,
}
use faas_provider.Adaptive.Orchestrator.Threads.Consistency.{
  IsFresh, is_active, Agrees, confirmed_after, IsServer, IsConsistent, Waited,
}

module _ {F S : Type 0} ⦃fl : Float F⦄ ⦃w : World F S⦄ (clock : IsClock F w)
    (server : IsServer F w) where
  open w use {now, set_policy, status}

  collect-policy :
      (m : MetricsAggregator F) (s : S)
      → server.policy (collect_current_metrics m s).2 ≡ server.policy s
  unfolding collect_current_metrics
  collect-policy m s = elim (Result-cases (status s).0) [
    | inr (e, failed) ↦ rw (failed, collect_current_metrics) (server.after_status s)
    | inl (st, got) ↦
        let s1 = (status s).1 in
        rw (got, collect_current_metrics)
          (server.after_now (now s1).1 ∙ server.after_now s1 ∙ server.after_status s)
  ]

  kept :
      (c : Bool) (p : Position F) (current : String) {before after : String}
      → after ≡ before
      → Agrees c p current before
      → Agrees c p current after
  kept c p current same h = subst (Agrees c p current) (sym same) h

  stands :
      {c : Bool} {p : Position F} {o : Orchestrator F} {s : S}
      → 0 < o.config.stability_period
      → o.is_running ≡ is_active p
      → Agrees c p o.current_policy (server.policy s)
      → IsFresh p o s
      → IsConsistent clock server c (record { orchestrator = o; loop = p; world = s })
  stands positive running policy fresh = record {
    positive = positive;
    running = running;
    policy = policy;
    fresh = fresh;
  }

  decide-IsConsistent :
      {c : Bool} (o : Orchestrator F) (s : S)
      → IsConsistent clock server c (record { orchestrator = o; loop = waiting; world = s })
      → Waited o s
      → (best : Option (CostBenefitAnalysis F))
      → ((a : CostBenefitAnalysis F)
          → best ≡ some a
          → str_eq a.candidate_policy o.current_policy ≡ false)
      → IsConsistent clock server c (record { orchestrator = o; loop = decide best; world = s })
  unfolding decide
  decide-IsConsistent o s idle waited none other = idle
  decide-IsConsistent {c} o s idle waited (some a) other = choose a.should_switch refl
    where
      choose :
          (go : Bool)
          → a.should_switch ≡ go
          → IsConsistent clock server c
              (record { orchestrator = o; loop = if go then switching a else waiting; world = s })
      choose false stay = idle
      choose true go = stands idle.positive idle.running idle.policy (other a refl, go, waited)

  pub advance_from-IsConsistent :
      {c : Bool} (p : Position F) (o : Orchestrator F) (s : S)
      → IsConsistent clock server c (record { orchestrator = o; loop = p; world = s })
      → IsConsistent clock server (confirmed_after p s c) (advance_from p o s)
  unfolding advance_from confirmed_after
  advance_from-IsConsistent stopped o s h = h
  advance_from-IsConsistent waiting o s h = h
  advance_from-IsConsistent stopping o s h = stands h.positive refl h.policy tt
  advance_from-IsConsistent reading o s h = stands h.positive h.running h.policy (refl, refl, refl)
  advance_from-IsConsistent {c} (timing current last period) o s h =
      let policy = kept c waiting o.current_policy (server.after_now s) h.policy in
      elim (Bool-cases (ltb ((now s).0 - last) period)) [
        | inl soon ↦ rw (soon, advance_from) (stands h.positive h.running policy tt)
        | inr over ↦
            rw (over, advance_from)
              (stands h.positive h.running policy
                (h.fresh.0, ground (arith, h.fresh, over, h.positive, clock.after_now s)))
      ]
  advance_from-IsConsistent {c} (collecting current) o s h =
      let (collected, m, s1) = collect_current_metrics o.metrics_aggregator s in
      let o1 : Orchestrator F = record o { metrics_aggregator = m } in
      let policy =
        kept c waiting o.current_policy (collect-policy o.metrics_aggregator s) h.policy in
      elim (Result-cases collected) [
        | inr (e, failed) ↦ rw (failed, advance_from) (stands h.positive h.running policy tt)
        | inl (agg, taken) ↦
            rw (taken, advance_from)
              (stands h.positive h.running policy
                (h.fresh.0, omega (arith, h.fresh.1, collect_later o.metrics_aggregator s clock)))
      ]
  advance_from-IsConsistent {c} (detecting current aggregated) o s h =
      elim (Option-cases (get_latest_snapshot o.metrics_aggregator)) [
        | inl missing ↦ rw (missing, advance_from) (stands h.positive h.running h.policy tt)
        | inr (snap, found) ↦
            rw (found, advance_from) (stands h.positive h.running h.policy h.fresh)
      ]
  advance_from-IsConsistent {c} (judging current aggregated shifted) o s h =
      let trend = analyze_trend o.trend_analyzer (get_history o.metrics_aggregator) current in
      elim (Bool-cases (shifted || trend.indicates_degradation)) [
        | inr calm ↦ rw (calm, advance_from) (stands h.positive h.running h.policy tt)
        | inl cause ↦ rw (cause, advance_from) (stands h.positive h.running h.policy h.fresh)
      ]
  advance_from-IsConsistent {c} (weighing current aggregated) o s h =
      let candidates = build_candidates [] aggregated.all_policies_metrics in
      let idle : IsConsistent clock server c
          (record { orchestrator = o; loop = waiting; world = s }) =
        stands h.positive h.running h.policy tt in
      elim (Option-cases (get_latest_snapshot o.metrics_aggregator)) [
        | inl missing ↦ rw (missing, advance_from) idle
        | inr (snap, found) ↦ elim (Bool-cases (length candidates == 0)) [
          | inl empty ↦ rw (found, empty, advance_from) idle
          | inr some_there ↦
              rw (found, some_there, advance_from)
                (decide-IsConsistent o s idle h.fresh.1 _ (λ a e.
                  subst (λ p. str_eq a.candidate_policy p ≡ false) h.fresh.0
                    (compare_multiple_candidates-IsAnalysis o.cost_benefit_analyzer current
                      snap.miss_ratio snap.cache_size aggregated.all_policies_metrics a e).other))
        ]
      ]
  advance_from-IsConsistent {c} (switching a) o s h =
      let s1 = (set_policy a.candidate_policy s).1 in
      elim (Option-cases (set_policy a.candidate_policy s).0) [
        | inr (e, refused) ↦
            rw (refused, advance_from, confirmed_after) (stands h.positive h.running (inl refl) tt)
        | inl accepted ↦
            rw (accepted, advance_from, confirmed_after)
              (stands h.positive h.running (server.accepted a.candidate_policy s accepted) (
                h.fresh.0,
                h.fresh.1,
                omega (arith, h.fresh.2, clock.after_set_policy a.candidate_policy s),
              ))
      ]
  advance_from-IsConsistent {c} (updating a) o s h =
      stands h.positive h.running (inr (server.after_now s ∙ h.policy)) tt
  advance_from-IsConsistent clearing o s h = stands h.positive h.running h.policy tt
