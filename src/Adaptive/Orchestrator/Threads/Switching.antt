-- ===== src/Adaptive/Orchestrator/Threads/Switching.antt =====
-- What every interleaving keeps, and what a switch is in one.
use faas_provider.Prelude.{
  ◌+◌, ◌≤◌, ◌<◌, ◌≡◌, ◌⊎◌, inl, inr, refl, sym, subst, ◌∙◌, Bool, true, false, String, arith,
  str_eq,
}
use faas_provider.Float.{Float}
use faas_provider.Adaptive.Client.{World}
use faas_provider.Adaptive.Orchestrator.{Orchestrator, handle_access}
use faas_provider.Adaptive.Orchestrator.Switches.{IsClock}
use faas_provider.Adaptive.Orchestrator.Threads.Consistency.{
  IsServer, IsConsistent, IsFresh, is_active, Agrees, confirmed_by, is_confirmed,
}
use faas_provider.Adaptive.Orchestrator.Threads.Advancing.{advance_from-IsConsistent}
use faas_provider.Adaptive.Orchestrator.Threads.{
  Position, stopped, waiting, stopping, reading, timing, collecting, detecting, judging, weighing,
  switching, updating, clearing, System, advance_from, advance, handler_step, Steps, advanced,
  accessed, ticked, closed, stop_received, started, Reach, here, next,
}

module _ {F S : Type 0} where
  -- Neither the policy nor the time of its last change has changed.
  abbrev pub IsKept : System F S → System F S → Type 0
  IsKept x y =
      (y.orchestrator.current_policy ≡ x.orchestrator.current_policy)
      × (y.orchestrator.last_switch_time ≡ x.orchestrator.last_switch_time)

module _ {F S : Type 0} ⦃fl : Float F⦄ ⦃w : World F S⦄ where
  open w use {now, set_policy}

  module _ (clock : IsClock F w) (server : IsServer F w) where
    inactive_lem : (p : Position F) → is_active p ≡ false → p ≡ stopped
    inactive_lem p h = ground arith

    closed-IsFresh :
        (p : Position F) (o : Orchestrator F) (s : S)
        → IsFresh p o s
        → IsFresh p (record o { stop_closed = true }) s
    closed-IsFresh p o s h = ground arith

    accessed-IsFresh :
        (p : Position F) (o : Orchestrator F) (s : S) (key : String) (is_hit : Bool)
        → IsFresh p o s
        → IsFresh p (handle_access key is_hit o s).0 (handle_access key is_hit o s).1
    unfolding handle_access
    accessed-IsFresh p o s key is_hit h = ground (arith, clock.after_now s)

    Steps-IsConsistent :
        {c : Bool} {x y : System F S} (st : Steps x y)
        → IsConsistent clock server c x
        → IsConsistent clock server (confirmed_by st c) y
    unfolding advance handler_step handle_access confirmed_by
    Steps-IsConsistent (advanced x) h =
        advance_from-IsConsistent clock server x.loop x.orchestrator x.world h
    Steps-IsConsistent {c} (accessed x key is_hit) h = record {
      positive = h.positive;
      running = h.running;
      policy =
          subst (Agrees c x.loop x.orchestrator.current_policy) (sym (server.after_now x.world))
            h.policy;
      fresh = accessed-IsFresh x.loop x.orchestrator x.world key is_hit h.fresh;
    }
    Steps-IsConsistent {c} (ticked x idle) h = record {
      positive = h.positive;
      running = ground (arith, h.running, idle);
      policy =
          subst (λ p. Agrees c p x.orchestrator.current_policy (server.policy x.world)) idle
            h.policy;
      fresh = tt;
    }
    Steps-IsConsistent (closed x open_channel) h = record {
      positive = h.positive;
      running = h.running;
      policy = h.policy;
      fresh = closed-IsFresh x.loop x.orchestrator x.world h.fresh;
    }
    Steps-IsConsistent {c} (stop_received x idle was_closed) h = record {
      positive = h.positive;
      running = ground (arith, h.running, idle);
      policy =
          subst (λ p. Agrees c p x.orchestrator.current_policy (server.policy x.world)) idle
            h.policy;
      fresh = tt;
    }
    Steps-IsConsistent {c} (started x n off ticks) h =
        let outside = inactive_lem x.loop (ground (arith, h.running, off)) in
        record {
          positive = h.positive;
          running = refl;
          policy =
              subst (λ p. Agrees c p x.orchestrator.current_policy (server.policy x.world)) outside
                h.policy;
          fresh = tt;
        }

    pub Reach-IsConsistent_from :
        {c : Bool} {x y : System F S}
        → IsConsistent clock server c x
        → (r : Reach x y) → IsConsistent clock server (is_confirmed c r) y
    unfolding is_confirmed
    Reach-IsConsistent_from h here = h
    Reach-IsConsistent_from h (next r st) = Steps-IsConsistent st (Reach-IsConsistent_from h r)

    -- The policy has changed to one that the cache server already has, the stability period after
    -- the last change.
    pub record IsSwitched (x y : System F S) : Type 0 where
      pub other : str_eq y.orchestrator.current_policy x.orchestrator.current_policy ≡ false
      pub on_server : server.policy y.world ≡ y.orchestrator.current_policy
      pub spaced :
          x.orchestrator.last_switch_time + x.orchestrator.config.stability_period
          ≤ y.orchestrator.last_switch_time

    advance_from-IsSwitched :
        {c : Bool} (p : Position F) (o : Orchestrator F) (s : S)
        → let x : System F S = record { orchestrator = o; loop = p; world = s } in
          IsConsistent clock server c x
          → IsKept x (advance_from p o s) ⊎ IsSwitched x (advance_from p o s)
    unfolding advance_from
    advance_from-IsSwitched (updating a) o s h = inr (record {
      other = h.fresh.0;
      on_server = server.after_now s ∙ h.policy;
      spaced = h.fresh.2;
    })
    advance_from-IsSwitched stopped o s h = inl (refl, refl)
    advance_from-IsSwitched waiting o s h = inl (refl, refl)
    advance_from-IsSwitched stopping o s h = inl (refl, refl)
    advance_from-IsSwitched reading o s h = inl (refl, refl)
    advance_from-IsSwitched (timing current last period) o s h = inl (refl, refl)
    advance_from-IsSwitched (collecting current) o s h = inl (refl, refl)
    advance_from-IsSwitched (detecting current aggregated) o s h = inl (refl, refl)
    advance_from-IsSwitched (judging current aggregated shifted) o s h = inl (refl, refl)
    advance_from-IsSwitched (weighing current aggregated) o s h = inl (refl, refl)
    advance_from-IsSwitched (switching analysis) o s h = inl (refl, refl)
    advance_from-IsSwitched clearing o s h = inl (refl, refl)

    -- Before the first start.
    pub outside-IsConsistent :
        (c : Bool) (x : System F S)
        → x.loop ≡ stopped
        → x.orchestrator.is_running ≡ false
        → 0 < x.orchestrator.config.stability_period
        → Agrees {F = F} c stopped x.orchestrator.current_policy (server.policy x.world)
        → IsConsistent clock server c x
    outside-IsConsistent c x outside off positive policy = record {
      positive = positive;
      running = ground (arith, off, outside);
      policy =
          subst (λ p. Agrees c p x.orchestrator.current_policy (server.policy x.world))
            (sym outside) policy;
      fresh = subst (λ p. IsFresh p x.orchestrator x.world) (sym outside) tt;
    }

    step-IsSwitched :
        {c : Bool} {x y : System F S}
        → Steps x y
        → IsConsistent clock server c x
        → IsKept x y ⊎ IsSwitched x y
    unfolding advance handler_step handle_access
    step-IsSwitched (advanced x) h = advance_from-IsSwitched x.loop x.orchestrator x.world h
    step-IsSwitched (accessed x key is_hit) h = inl (refl, refl)
    step-IsSwitched (ticked x idle) h = inl (refl, refl)
    step-IsSwitched (closed x open_channel) h = inl (refl, refl)
    step-IsSwitched (stop_received x idle was_closed) h = inl (refl, refl)
    step-IsSwitched (started x n off ticks) h = inl (refl, refl)

    -- If the clock does not go back, the cache server has the policy of a call of `Policy` without
    -- an error and nobody else sets one, the loop does not run yet and the stability period is
    -- positive: in any interleaving of the loop's steps with accesses, starts and stops, each single
    -- step keeps the policy and the time of its last change, or changes the policy to another one
    -- that the cache server has by then, at least the stability period after the last change. This
    -- holds whatever an error of `Policy` leaves on the server.
    pub Steps-IsSwitched :
        (x y z : System F S)
        → x.loop ≡ stopped
        → x.orchestrator.is_running ≡ false
        → 0 < x.orchestrator.config.stability_period
        → Reach x y
        → Steps y z
        → IsKept y z ⊎ IsSwitched y z
    Steps-IsSwitched x y z outside off positive r st =
        step-IsSwitched st
          (Reach-IsConsistent_from (outside-IsConsistent false x outside off positive (inl refl)) r)
