-- ===== src/Proxy/Setup/Improvement.antt =====
-- The orchestrator of a flow's handler, from its setup through its loop.
use faas_provider.Prelude.{
  ◌≡◌, ◌⊎◌, inl, inr, arith, List, Bool, ◌&&◌, Bool-cases, some, Result-cases, subst,
}
use faas_provider.Float.{Float, IsOrdered, IsRounded}
use faas_provider.Adaptive.Client.{World}
use faas_provider.Adaptive.Orchestrator.{
  Orchestrator, Event, new_intelligent_orchestrator, initialize, start, run_loop, evaluation_loop,
}
use faas_provider.Adaptive.Orchestrator.Steps.{KeepsPolicy}
use faas_provider.Adaptive.Orchestrator.Ready.{
  IsReady, initialize-IsReady, start-IsReady, run_loop-IsReady,
}
use faas_provider.Adaptive.Orchestrator.Improvement.{IsBetter, evaluation_loop-IsBetter}
use faas_provider.Config.{FaasConfig}
use faas_provider.Proxy.Setup.{build_orchestrator_config, set_up}
use faas_provider.Proxy.Setup.Bounds.{Fits, build_orchestrator_config-IsBuilt}

module _ {F S : Type 0} ⦃fl : Float F⦄ ⦃w : World F S⦄ (ordered : IsOrdered F)
    (rounded : IsRounded F) where
  pub set_up-IsReady :
      (c : FaasConfig F) (paper : Bool) (s s1 : S) (o : Orchestrator F)
      → Fits c
      → set_up c paper s ≡ (some o, s1)
      → IsReady o
  unfolding set_up
  set_up-IsReady c paper s s1 o fits made =
      let config = build_orchestrator_config c in
      let (o0, s0) = new_intelligent_orchestrator (some config) s in
      let built = build_orchestrator_config-IsBuilt ordered c fits in
      elim (Bool-cases (c.enable_intelligent_orchestrator && c.enable_caching && paper)) [
        | inr off ↦ absurd (ground (arith, made, off))
        | inl on ↦ elim (Result-cases (initialize o0 s0).0) [
          | inr (e, failed) ↦ absurd (ground (arith, made, on, failed))
          | inl (_, started) ↦
              subst IsReady (ground (arith, made, on, started))
                (initialize-IsReady ordered rounded config s built.some_memory started)
        ]
      ]

  -- If the durations and the memory of a configuration fit and an orchestrator is set up with it,
  -- then after any events of the loop a cycle keeps the policy, or it goes to one with a measured
  -- miss ratio that is not at or above that of the latest snapshot.
  set_up-IsBetter :
      (c : FaasConfig F) (paper : Bool) (s s1 : S) (o : Orchestrator F) (events : List Event)
      → Fits c
      → set_up c paper s ≡ (some o, s1)
      → let (before, s2) = run_loop events (start o).1 s1 in
        let after = (evaluation_loop before s2).0 in KeepsPolicy before after ⊎ IsBetter after
  set_up-IsBetter c paper s s1 o events fits made =
      let (before, s2) = run_loop events (start o).1 s1 in
      let ready = set_up-IsReady c paper s s1 o fits made in
      evaluation_loop-IsBetter ordered rounded before s2
        (run_loop-IsReady events (start o).1 s1 (start-IsReady o ready))
