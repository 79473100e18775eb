-- ===== src/Adaptive/Orchestrator/Threads/Initialized.antt =====
-- What an orchestrator is when its loop is started.
use faas_provider.Prelude.{
  ◌≡◌, refl, ◌∙◌, arith, str_eq, Bool-cases, Option-cases, Result-cases, inl, inr, ok,
}
use faas_provider.Float.{Float}
use faas_provider.Adaptive.Client.{World}
use faas_provider.Adaptive.Metrics.{
  MetricsAggregator, select_best_policy, fast_profile, initialize as initialize_metrics,
}
use faas_provider.Adaptive.Orchestrator.{Orchestrator, initialize, select_initial}
use faas_provider.Adaptive.Orchestrator.Threads.Consistency.{IsServer}

module _ {F S : Type 0} ⦃fl : Float F⦄ ⦃w : World F S⦄ (server : IsServer F w) where
  open w use {now, set_policy}

  -- The cache server has the policy, and the settings are as they were.
  pub record IsAgreed (o o' : Orchestrator F) (s' : S) : Type 0 where
    pub policy : server.policy s' ≡ o'.current_policy
    pub config : o'.config ≡ o.config
    pub running : o'.is_running ≡ o.is_running

  select_initial-IsAgreed :
      (o : Orchestrator F) (m : MetricsAggregator F) (s : S)
      → let (r, o', s') = select_initial o m s in r ≡ ok tt → IsAgreed o o' s'
  unfolding select_initial
  select_initial-IsAgreed o m s done =
      let best = select_best_policy m in
      elim (Bool-cases (str_eq best "")) [
        | inl nameless ↦ absurd (ground (arith, done, nameless))
        | inr named ↦ elim (Option-cases (set_policy best s).0) [
          | inr (e, refused) ↦ absurd (ground (arith, done, named, refused))
          | inl accepted ↦
              rw (named, accepted, select_initial)
                (record {
                  policy = server.after_now (set_policy best s).1 ∙ server.accepted best s accepted;
                  config = refl;
                  running = refl;
                })
        ]
      ]

  -- A successful `Initialize` agrees with the server on the policy.
  pub initialize-IsAgreed :
      (o : Orchestrator F) (s : S)
      → let (r, o', s') = initialize o s in r ≡ ok tt → IsAgreed o o' s'
  unfolding initialize
  initialize-IsAgreed o s done =
      let (discovered, m1, s1) = initialize_metrics o.metrics_aggregator s in
      let (profiled, m2, s2) = fast_profile m1 s1 in
      elim (Result-cases discovered) [
        | inr (e, failed) ↦ absurd (ground (arith, done, failed))
        | inl (_, found) ↦ elim (Result-cases profiled) [
          | inr (e, failed) ↦ absurd (ground (arith, done, found, failed))
          | inl (_, measured) ↦
              let chosen : (select_initial o m2 s2).0 ≡ ok tt =
                ground (arith, done, found, measured) in
              rw (found, measured, initialize) (select_initial-IsAgreed o m2 s2 chosen)
        ]
      ]
