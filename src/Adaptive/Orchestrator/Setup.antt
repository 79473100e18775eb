-- ===== src/Adaptive/Orchestrator/Setup.antt =====
-- The start: the first policy, and the flag that keeps a second loop from running.
use faas_provider.Prelude.{
  ◌≡◌, ◌⊎◌, inl, inr, refl, Bool, true, false, List, [], ◌∷◌, str_eq, if◌then◌else◌, arith,
  Bool-cases, Option-cases, Result-cases, Error, errorf, ok, err, ◌∙◌, ap,
}
use faas_provider.Float.{Float}
use faas_provider.Adaptive.Client.{World}
use faas_provider.Adaptive.Metrics.{
  MetricsAggregator, select_best_policy, fast_profile, initialize as initialize_metrics,
}
use faas_provider.Adaptive.CostBenefit.{set_threshold}
use faas_provider.Adaptive.Orchestrator.{
  Orchestrator, Event, ticked, accessed, stop_received, start, run_loop, initialize, select_initial,
  evaluation_loop, handle_access,
}
use faas_provider.Adaptive.Orchestrator.Cycle.{evaluation_loop_lem}

unfoldable pub has_stop : List Event → Bool
has_stop [] = false
has_stop (ticked ∷ events) = has_stop events
has_stop (accessed key is_hit ∷ events) = has_stop events
has_stop (stop_received ∷ events) = true

module _ {F : Type 0} ⦃fl : Float F⦄ where
  -- The first policy is the best of the metrics, and the configured threshold is handed on.
  pub record IsStarted (o o' : Orchestrator F) : Type 0 where
    pub policy : o'.current_policy ≡ select_best_policy o'.metrics_aggregator
    pub named : str_eq o'.current_policy "" ≡ false
    pub threshold :
        o'.cost_benefit_analyzer ≡ set_threshold o.config.switch_threshold o.cost_benefit_analyzer

  -- Nothing but the metrics has changed.
  pub record IsNotStarted (o o' : Orchestrator F) : Type 0 where
    pub changed : o' ≡ record o { metrics_aggregator = o'.metrics_aggregator }

  module _ {S : Type 0} ⦃w : World F S⦄ where
    open w use {set_policy}

    select_initial_lem :
        (o : Orchestrator F) (m : MetricsAggregator F) (s : S)
        → let (r, o', s') = select_initial o m s in
          ((r ≡ ok tt) × IsStarted o o') ⊎ ((e : Error) × (r ≡ err e) × IsNotStarted o o')
    unfolding select_initial
    select_initial_lem o m s = elim (Bool-cases (str_eq (select_best_policy m) "")) [
      | inl nameless ↦ rw (nameless, select_initial) (inr (_, refl, record { changed = refl }))
      | inr named ↦ elim (Option-cases (set_policy (select_best_policy m) s).0) [
        | inr (e, refused) ↦
            rw (named, refused, select_initial) (inr (_, refl, record { changed = refl }))
        | inl accepted ↦
            rw (named, accepted, select_initial)
              (inl (refl, record { policy = refl; named = named; threshold = refl }))
      ]
    ]

    -- `Initialize` succeeds with the best of the measured policies as the current one, which has a
    -- name, and with the configured threshold set, or it returns an error and changes nothing but
    -- the metrics.
    pub initialize_lem :
        (o : Orchestrator F) (s : S)
        → let (r, o', s') = initialize o s in
          ((r ≡ ok tt) × IsStarted o o') ⊎ ((e : Error) × (r ≡ err e) × IsNotStarted o o')
    unfolding initialize
    initialize_lem o s =
        let (discovered, m1, s1) = initialize_metrics o.metrics_aggregator s in
        let (profiled, m2, s2) = fast_profile m1 s1 in
        elim (Result-cases discovered) [
          | inr (e, failed) ↦ rw (failed, initialize) (inr (_, refl, record { changed = refl }))
          | inl (_, found) ↦ elim (Result-cases profiled) [
            | inr (e, failed) ↦
                rw (found, failed, initialize) (inr (_, refl, record { changed = refl }))
            | inl (_, measured) ↦ rw (found, measured, initialize) (select_initial_lem o m2 s2)
          ]
        ]

    running_after :
        (events : List Event) (o : Orchestrator F) (s : S)
        → (run_loop events o s).0.is_running ≡ (if has_stop events then false else o.is_running)
    unfolding run_loop has_stop handle_access
    running_after [] o s = refl
    running_after (stop_received ∷ events) o s = refl
    running_after (accessed key is_hit ∷ events) o s =
        let (o', s') = handle_access key is_hit o s in running_after events o' s'
    running_after (ticked ∷ events) o s =
        let (o', s') = evaluation_loop o s in
        running_after events o' s'
        ∙ ap (λ b. if has_stop events then false else b) (evaluation_loop_lem o s).0.running

    -- After a start, accepted or not, a second start is accepted once the loop has received the stop
    -- signal, and refused before that.
    pub start-run_loop :
        (events : List Event) (o : Orchestrator F) (s : S)
        → (start (run_loop events (start o).1 s).0).0
          ≡ (if has_stop events then ok tt else err (errorf "orchestrator already running"))
    unfolding start
    start-run_loop events o s = ground (arith, running_after events (start o).1 s)
