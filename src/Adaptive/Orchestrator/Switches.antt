-- ===== src/Adaptive/Orchestrator/Switches.antt =====
-- The switches of a run of the loop, and how far they stand apart.
use faas_provider.Prelude.{
  ℕ, ◌+◌, ◌≤◌, ◌<◌, ◌≡◌, ◌⊎◌, inl, inr, sym, subst, false, String, List, [], ◌∷◌, str_eq, eq_iff,
  if◌then◌else◌, arith, Result-cases,
}
use faas_provider.Float.{Float}
use faas_provider.Adaptive.Client.{World}
use faas_provider.Adaptive.Metrics.{MetricsAggregator, collect_current_metrics}
use faas_provider.Adaptive.Orchestrator.{
  Orchestrator, Event, ticked, accessed, stop_received, evaluation_loop, handle_access,
}
use faas_provider.Adaptive.Orchestrator.Cycle.{evaluation_loop_lem}

-- Each time is at least `period` after the one before it, of which the first is `last`.
abbrev pub IsSpaced : ℕ → ℕ → List ℕ → Type 0
IsSpaced period last [] = Unit
IsSpaced period last (t ∷ times) = (last + period ≤ t) × IsSpaced period t times

-- Go's monotonic clock: it does not go back while the client is called or the clock is read.
pub record IsClock (F : Type 0) {S : Type 0} (w : World F S) : Type 0 where
  pub after_status : (s : S) → (w.now s).0 ≤ (w.now (w.status s).1).0
  pub after_set_policy : (name : String) (s : S) → (w.now s).0 ≤ (w.now (w.set_policy name s).1).0
  pub after_now : (s : S) → (w.now s).0 ≤ (w.now (w.now s).1).0

module _ {F S : Type 0} ⦃fl : Float F⦄ ⦃w : World F S⦄ where
  open w use {now, status}

  -- The times at which a run changes the policy, as the orchestrator records them.
  unfoldable pub switch_times : List Event → Orchestrator F → S → List ℕ
  unfolding evaluation_loop handle_access
  switch_times [] o s = []
  switch_times (ticked ∷ events) o s =
      let (o', s') = evaluation_loop o s in
      let later = switch_times events o' s' in
      if str_eq o'.current_policy o.current_policy then later else o'.last_switch_time ∷ later
  switch_times (accessed key is_hit ∷ events) o s =
      let (o', s') = handle_access key is_hit o s in switch_times events o' s'
  switch_times (stop_received ∷ events) o s = []

  pub collect_later :
      (m : MetricsAggregator F) (s : S)
      → IsClock F w
      → (now s).0 ≤ (now (collect_current_metrics m s).2).0
  unfolding collect_current_metrics
  collect_later m s clock = elim (Result-cases (status s).0) [
    | inr (e, failed) ↦ rw (failed, collect_current_metrics) (clock.after_status s)
    | inl (st, got) ↦
        rw (got, collect_current_metrics)
          (omega (
            arith,
            clock.after_status s,
            clock.after_now (status s).1,
            clock.after_now (now (status s).1).1,
          ))
  ]

  -- A cycle keeps the policy and the time of the last switch, or it sets both, the stability period after it.
  cycle :
      (o : Orchestrator F) (s : S)
      → IsClock F w
      → 0 < o.config.stability_period
      → let o' = (evaluation_loop o s).0 in
        (o'.config ≡ o.config)
        × (((o'.current_policy ≡ o.current_policy) × (o'.last_switch_time ≡ o.last_switch_time))
            ⊎ ((str_eq o'.current_policy o.current_policy ≡ false)
                × (o.last_switch_time + o.config.stability_period ≤ o'.last_switch_time)))
  cycle o s clock positive =
      let (t, s1) = now s in
      let s2 = (collect_current_metrics o.metrics_aggregator s1).2 in
      let (kept, done) = evaluation_loop_lem o s in
      (
        kept.config,
        elim done [
          | inl same ↦ inl (same.policy, same.time)
          | inr (agg, a, over, _, _, (_, _, analysis), sw) ↦ inr (
            subst (λ p. str_eq p o.current_policy ≡ false) (sym sw.policy) analysis.other,
            ground (
              arith,
              over,
              sw.time,
              clock.after_now s,
              collect_later o.metrics_aggregator s1 clock,
              clock.after_set_policy a.candidate_policy s2,
            ),
          )
        ],
      )

  -- While the loop runs, successive changes of the policy, and the first after the last one before
  -- it, are at least the stability period apart, if that is positive and the clock never goes back.
  pub run_loop-IsSpaced :
      (events : List Event) (o : Orchestrator F) (s : S)
      → IsClock F w
      → 0 < o.config.stability_period
      → IsSpaced o.config.stability_period o.last_switch_time (switch_times events o s)
  unfolding switch_times handle_access
  run_loop-IsSpaced [] o s clock positive = tt
  run_loop-IsSpaced (stop_received ∷ events) o s clock positive = tt
  run_loop-IsSpaced (accessed key is_hit ∷ events) o s clock positive =
      let (o', s') = handle_access key is_hit o s in run_loop-IsSpaced events o' s' clock positive
  run_loop-IsSpaced (ticked ∷ events) o s clock positive =
      let (o', s') = evaluation_loop o s in
      let (config, done) = cycle o s clock positive in
      let period = o.config.stability_period in
      let later : IsSpaced period o'.last_switch_time (switch_times events o' s') =
        subst (λ c. IsSpaced c.stability_period o'.last_switch_time (switch_times events o' s'))
          config
          (run_loop-IsSpaced events o' s' clock
            (subst (λ c. 0 < c.stability_period) (sym config) positive)) in
      elim done [
        | inl (same, time) ↦
            rw ((eq_iff _ _).1 same, switch_times)
              (subst (λ t. IsSpaced period t (switch_times events o' s')) time later)
        | inr (other, spaced) ↦ rw (other, switch_times) (spaced, later)
      ]
