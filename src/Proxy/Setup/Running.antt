-- ===== src/Proxy/Setup/Running.antt =====
-- The goroutines that a flow's handler sets up.
use faas_provider.Prelude.{
  true, ◌≡◌, ◌<◌, refl, arith, inl, inr, Bool, ◌&&◌, Bool-cases, some, Result-cases, subst, sym,
}
use faas_provider.Float.{Float, IsOrdered}
use faas_provider.Adaptive.Client.{World}
use faas_provider.Adaptive.Orchestrator.{Orchestrator, new_intelligent_orchestrator, initialize}
use faas_provider.Adaptive.Orchestrator.Switches.{IsClock}
use faas_provider.Adaptive.Orchestrator.Threads.{System, stopped, Reach}
use faas_provider.Adaptive.Orchestrator.Threads.Consistency.{IsServer, IsConsistent, is_confirmed}
use faas_provider.Adaptive.Orchestrator.Threads.Switching.{
  outside-IsConsistent, Reach-IsConsistent_from,
}
use faas_provider.Adaptive.Orchestrator.Threads.Initialized.{initialize-IsAgreed}
use faas_provider.Config.{FaasConfig}
use faas_provider.Prelude.{◌⊎◌}
use faas_provider.Float.{IsRounded}
use faas_provider.Adaptive.Orchestrator.Improvement.{IsBetter}
use faas_provider.Adaptive.Orchestrator.Threads.{Steps}
use faas_provider.Adaptive.Orchestrator.Threads.Improving.{Steps-IsBetter, Reach-IsImproving}
use faas_provider.Proxy.Setup.Improvement.{set_up-IsReady}
use faas_provider.Proxy.Setup.{build_orchestrator_config, set_up}
use faas_provider.Proxy.Setup.Bounds.{Fits, build_orchestrator_config-IsBuilt}

module _ {F S : Type 0} where
  -- What was set up, before the loop is started.
  abbrev pub unstarted : Orchestrator F → S → System F S
  unstarted o s = record { orchestrator = o; loop = stopped; world = s }

module _ {F S : Type 0} ⦃fl : Float F⦄ ⦃w : World F S⦄ (ordered : IsOrdered F) (clock : IsClock F w)
    (server : IsServer F w) where
  unstarted-IsConsistent :
      (c : FaasConfig F) (paper : Bool) (s s1 : S) (o : Orchestrator F)
      → Fits c
      → set_up c paper s ≡ (some o, s1)
      → IsConsistent clock server true (unstarted o s1)
  unfolding set_up new_intelligent_orchestrator
  unstarted-IsConsistent c paper s s1 o fits made =
      let config = build_orchestrator_config c in
      let (o0, s0) = new_intelligent_orchestrator (some config) s in
      let built = build_orchestrator_config-IsBuilt ordered c fits in
      elim (Bool-cases (c.enable_intelligent_orchestrator && c.enable_caching && paper)) [
        | inr off ↦ absurd (ground (arith, made, off))
        | inl on ↦ elim (Result-cases (initialize o0 s0).0) [
          | inr (e, failed) ↦ absurd (ground (arith, made, on, failed))
          | inl (_, started) ↦
              let (_, o1, s2) = initialize o0 s0 in
              let agreed = initialize-IsAgreed server o0 s0 started in
              let same : o1 ≡ o = ground (arith, made, on, started) in
              let same_world : s2 ≡ s1 = ground (arith, made, on, started) in
              subst (λ q. IsConsistent clock server true (unstarted q s1)) same
                (subst (λ q. IsConsistent clock server true (unstarted o1 q)) same_world
                  (outside-IsConsistent clock server true (unstarted o1 s2) refl agreed.running
                    (subst (λ k. 0 < k.stability_period) (sym agreed.config) built.positive)
                    (inr agreed.policy)))
        ]
      ]

  -- If floats are ordered as IEEE 754 has it, the configuration's durations and memory fit, the clock
  -- does not go back, and the cache server has the policy of a call of `Policy` without an error and
  -- nobody else sets one: from the setup on, in any interleaving of the loop's steps with accesses,
  -- starts and stops, the orchestrator is marked as running exactly while its loop runs, and what
  -- the loop has read of the policy and of the last switch still holds, the stability period being
  -- over wherever it has found it to be. Within a switch the cache server has the policy that the
  -- orchestrator is about to take over. Elsewhere it has the orchestrator's, or the loop's last call
  -- of `Policy` has failed, after which nothing is said of the server's policy.
  pub set_up-IsConsistent :
      (c : FaasConfig F) (paper : Bool) (s s1 : S) (o : Orchestrator F) (y : System F S)
      → Fits c
      → set_up c paper s ≡ (some o, s1)
      → (r : Reach (unstarted o s1) y) → IsConsistent clock server (is_confirmed true r) y
  set_up-IsConsistent c paper s s1 o y fits made r =
      Reach-IsConsistent_from clock server (unstarted-IsConsistent c paper s s1 o fits made) r

module _ {F S : Type 0} ⦃fl : Float F⦄ ⦃w : World F S⦄ (ordered : IsOrdered F)
    (rounded : IsRounded F) where
  -- If the configuration's durations and memory fit: from the setup on, in any interleaving of the
  -- loop's steps with accesses, starts and stops, each single step keeps the policy, or it goes to
  -- one with a measured miss ratio that is not at or above that of the latest snapshot.
  pub set_up-Steps :
      (c : FaasConfig F) (paper : Bool) (s s1 : S) (o : Orchestrator F) (y z : System F S)
      → Fits c
      → set_up c paper s ≡ (some o, s1)
      → Reach (unstarted o s1) y
      → Steps y z
      → (z.orchestrator.current_policy ≡ y.orchestrator.current_policy) ⊎ IsBetter z.orchestrator
  set_up-Steps c paper s s1 o y z fits made r st = Steps-IsBetter ordered rounded st (
      Reach-IsImproving ordered rounded
        (record { ready = set_up-IsReady ordered rounded c paper s s1 o fits made; informed = tt })
        r)
