-- ===== src/Adaptive/Orchestrator/Threads/Cycles.antt =====
-- One cycle of the loop, step by step.
use faas_provider.Prelude.{
  ℕ, zero, suc, ◌-◌, ◌≡◌, inl, inr, refl, ◌==◌, ◌||◌, Bool, true, false, Option, none, some, String,
  [], ltb, length, if◌then◌else◌, ok, err, Option-cases, Result-cases, Bool-cases,
}
use faas_provider.Float.{Float}
use faas_provider.Adaptive.Client.{World}
use faas_provider.Adaptive.Pattern.{detect_shift}
use faas_provider.Adaptive.Trend.{analyze_trend}
use faas_provider.Adaptive.Metrics.{
  AggregatedMetrics, collect_current_metrics, get_latest_snapshot, get_history,
}
use faas_provider.Adaptive.CostBenefit.{CostBenefitAnalysis}
use faas_provider.Adaptive.Orchestrator.{
  Orchestrator, build_candidates, evaluation_loop, evaluate_candidates, act_on, perform_switch,
  assess,
}
use faas_provider.Adaptive.Orchestrator.Threads.{
  Position, waiting, reading, collecting, detecting, judging, weighing, switching, System, decide,
  advance_from, advance,
}

module _ {F S : Type 0} ⦃fl : Float F⦄ ⦃w : World F S⦄ where
  open w use {now, set_policy}

  -- `n` steps of the loop, with nothing between them.
  unfoldable pub advances : ℕ → System F S → System F S
  unfolding advance
  advances zero x = x
  advances (suc n) x = advances n (advance x)

  -- The loop in the `select`.
  abbrev pub at_rest : Orchestrator F × S → System F S
  at_rest (o, s) = record { orchestrator = o; loop = waiting; world = s }

  advances-at_rest : (n : ℕ) (out : Orchestrator F × S) → advances n (at_rest out) ≡ at_rest out
  unfolding advances advance_from
  advances-at_rest zero out = refl
  advances-at_rest (suc n) out = advances-at_rest n out

  switching-advances :
      (a : CostBenefitAnalysis F) (o : Orchestrator F) (s : S)
      → advances 3 (record { orchestrator = o; loop = switching a; world = s })
        ≡ at_rest (perform_switch a o s)
  unfolding advances advance_from perform_switch
  switching-advances a o s = elim (Option-cases (set_policy a.candidate_policy s).0) [
    | inr (e, refused) ↦ rw (refused, perform_switch) refl
    | inl accepted ↦ rw (accepted, perform_switch) refl
  ]

  -- The loop at a position, in the state that is left.
  abbrev standing : Position F → Orchestrator F → S → System F S
  standing p o s = record { orchestrator = o; loop = p; world = s }

  if-advances :
      (go : Bool) (a : CostBenefitAnalysis F) (o : Orchestrator F) (s : S)
      → advances 3 (standing (if go then switching a else waiting) o s)
        ≡ at_rest (if go then perform_switch a o s else (o, s))
  if-advances true a o s = switching-advances a o s
  if-advances false a o s = advances-at_rest 3 (o, s)

  decide-advances :
      (best : Option (CostBenefitAnalysis F)) (o : Orchestrator F) (s : S)
      → advances 3 (standing (decide best) o s) ≡ at_rest (act_on best o s)
  unfolding decide act_on
  decide-advances none o s = advances-at_rest 3 (o, s)
  decide-advances (some a) o s = if-advances a.should_switch a o s

  weighing-advances :
      (current : String) (m : AggregatedMetrics F) (o : Orchestrator F) (s : S)
      → advances 4 (standing (weighing current m) o s) ≡ at_rest (evaluate_candidates current m o s)
  unfolding advances advance_from evaluate_candidates
  weighing-advances current m o s =
      let candidates = build_candidates [] m.all_policies_metrics in
      elim (Option-cases (get_latest_snapshot o.metrics_aggregator)) [
        | inl missing ↦ rw (missing, advance_from, evaluate_candidates) (advances-at_rest 3 (o, s))
        | inr (snap, found) ↦ elim (Bool-cases (length candidates == 0)) [
          | inl empty ↦
              rw (found, empty, advance_from, evaluate_candidates) (advances-at_rest 3 (o, s))
          | inr some_there ↦
              rw (found, some_there, advance_from, evaluate_candidates) (decide-advances _ o s)
        ]
      ]

  judging-advances :
      (current : String) (m : AggregatedMetrics F) (o : Orchestrator F) (s : S) (shifted : Bool)
      → let trend = analyze_trend o.trend_analyzer (get_history o.metrics_aggregator) current in
        advances 5 (standing (judging current m shifted) o s)
        ≡ at_rest (
            if shifted || trend.indicates_degradation
            then evaluate_candidates current m o s
            else (o, s))
  unfolding advances advance_from
  judging-advances current m o s shifted =
      let trend = analyze_trend o.trend_analyzer (get_history o.metrics_aggregator) current in
      if-judging (shifted || trend.indicates_degradation)
    where
      if-judging :
          (cause : Bool)
          → advances 4 (standing (if cause then weighing current m else waiting) o s)
            ≡ at_rest (if cause then evaluate_candidates current m o s else (o, s))
      if-judging true = weighing-advances current m o s
      if-judging false = advances-at_rest 4 (o, s)

  detecting-advances :
      (current : String) (m : AggregatedMetrics F) (o : Orchestrator F) (s : S)
      → advances 6 (standing (detecting current m) o s) ≡ at_rest (assess current m o s)
  unfolding advances advance_from assess
  detecting-advances current m o s =
      elim (Option-cases (get_latest_snapshot o.metrics_aggregator)) [
        | inl missing ↦ rw (missing, advance_from, assess) (advances-at_rest 5 (o, s))
        | inr (snap, found) ↦
            let shift = detect_shift {F = F} o.pattern_detector in
            rw (found, advance_from, assess) (judging-advances current m o s shift.detected)
      ]

  collecting-advances :
      (current : String) (o : Orchestrator F) (s : S)
      → let (collected, m, s1) = collect_current_metrics o.metrics_aggregator s in
        let o1 : Orchestrator F = record o { metrics_aggregator = m } in
        let out : Orchestrator F × S = elim collected [
          | err e ↦ (o1, s1)
          | ok aggregated ↦ assess current aggregated o1 s1
        ] in
        advances 7 (standing (collecting current) o s) ≡ at_rest out
  unfolding advances advance_from
  collecting-advances current o s =
      let (collected, m, s1) = collect_current_metrics o.metrics_aggregator s in
      let o1 : Orchestrator F = record o { metrics_aggregator = m } in
      elim (Result-cases collected) [
        | inl (agg, taken) ↦ rw (taken, advance_from) (detecting-advances current agg o1 s1)
        | inr (e, failed) ↦ rw (failed, advance_from) (advances-at_rest 6 (o1, s1))
      ]

  -- Nine steps of the loop with nothing between them, from the tick on, are a cycle of
  -- `evaluation_loop`, which runs a cycle in one step: they end in the `select`, in the orchestrator
  -- and the world that it leaves.
  advances-evaluation_loop :
      (o : Orchestrator F) (s : S)
      → advances 9 (record { orchestrator = o; loop = reading; world = s })
        ≡ at_rest (evaluation_loop o s)
  unfolding advances advance_from evaluation_loop
  advances-evaluation_loop o s =
      let (t, s1) = now s in
      let early = ltb (t - o.last_switch_time) o.config.stability_period in
      elim (Bool-cases early) [
        | inl soon ↦ rw (soon, advance_from, evaluation_loop) (advances-at_rest 7 (o, s1))
        | inr over ↦
            rw (over, advance_from, evaluation_loop) (collecting-advances o.current_policy o s1)
      ]
