-- ===== src/Adaptive/Orchestrator/Threads/Consistency.antt =====
-- What holds between any two steps of the goroutines.
use faas_provider.Prelude.{◌+◌, ◌≤◌, ◌<◌, ◌≡◌, ◌⊎◌, Bool, true, false, none, some, String, str_eq}
use faas_provider.Float.{Float}
use faas_provider.Adaptive.Client.{World}
use faas_provider.Adaptive.Orchestrator.{Orchestrator}
use faas_provider.Adaptive.Orchestrator.Switches.{IsClock}
use faas_provider.Adaptive.Orchestrator.Threads.{
  Position, stopped, timing, collecting, detecting, judging, weighing, switching, updating, System,
  Steps, advanced, accessed, ticked, closed, stop_received, started, Reach, here, next,
}

-- After a call of `Policy` without an error the cache server has that policy, and nobody else sets
-- one. After an error it may have the old policy, or the new one.
pub record IsServer (F : Type 0) {S : Type 0} (w : World F S) : Type 0 where
  pub policy : S → String
  pub accepted :
      (name : String) (s : S)
      → (w.set_policy name s).0 ≡ none
      → policy (w.set_policy name s).1 ≡ name
  pub after_status : (s : S) → policy (w.status s).1 ≡ policy s
  pub after_now : (s : S) → policy (w.now s).1 ≡ policy s

module _ {F : Type 0} where
  abbrev pub is_active : Position F → Bool
  is_active stopped = false
  is_active _ = true

  -- The orchestrator's policy `current`, and the one on the server: between the two steps of a
  -- switch that is the new one already, and elsewhere they are the same, unless the last call of
  -- `Policy` has failed.
  abbrev pub Agrees : Bool → Position F → String → String → Type 0
  Agrees confirmed (updating analysis) current on_server = on_server ≡ analysis.candidate_policy
  Agrees confirmed _ current on_server = (confirmed ≡ false) ⊎ (on_server ≡ current)

module _ {F S : Type 0} ⦃fl : Float F⦄ ⦃w : World F S⦄ where
  open w use {now, set_policy, status}

  -- Whether the last call of `Policy` has succeeded, after a step of the loop, after any step, and
  -- after the steps from `x` to `y`.
  unfoldable pub confirmed_after : Position F → S → Bool → Bool
  confirmed_after (switching a) s confirmed = elim (set_policy a.candidate_policy s).0 [
    | none ↦ true
    | some e ↦ false
  ]
  confirmed_after _ s confirmed = confirmed

  unfoldable pub confirmed_by : {x y : System F S} → Steps x y → Bool → Bool
  unfolding confirmed_after
  confirmed_by (advanced x) confirmed = confirmed_after x.loop x.world confirmed
  confirmed_by (accessed x key is_hit) confirmed = confirmed
  confirmed_by (ticked x idle) confirmed = confirmed
  confirmed_by (closed x open_channel) confirmed = confirmed
  confirmed_by (stop_received x idle was_closed) confirmed = confirmed
  confirmed_by (started x n off ticks) confirmed = confirmed

  unfoldable pub is_confirmed : {x y : System F S} → Bool → Reach x y → Bool
  unfolding confirmed_by
  is_confirmed at_first here = at_first
  is_confirmed at_first (next r st) = confirmed_by st (is_confirmed at_first r)

  -- The stability period is over.
  abbrev pub Waited : Orchestrator F → S → Type 0
  Waited o s = o.last_switch_time + o.config.stability_period ≤ (now s).0

  -- The loop's local variables are not stale.
  abbrev pub IsFresh : Position F → Orchestrator F → S → Type 0
  IsFresh (timing current last period) o s =
      (current ≡ o.current_policy)
      × (last ≡ o.last_switch_time)
      × (period ≡ o.config.stability_period)
  IsFresh (collecting current) o s = (current ≡ o.current_policy) × Waited o s
  IsFresh (detecting current aggregated) o s = (current ≡ o.current_policy) × Waited o s
  IsFresh (judging current aggregated shifted) o s = (current ≡ o.current_policy) × Waited o s
  IsFresh (weighing current aggregated) o s = (current ≡ o.current_policy) × Waited o s
  IsFresh (switching a) o s =
      (str_eq a.candidate_policy o.current_policy ≡ false) × (a.should_switch ≡ true) × Waited o s
  IsFresh (updating a) o s =
      (str_eq a.candidate_policy o.current_policy ≡ false) × (a.should_switch ≡ true) × Waited o s
  IsFresh _ o s = Unit

  module _ (clock : IsClock F w) (server : IsServer F w) where
    pub record IsConsistent (confirmed : Bool) (x : System F S) : Type 0 where
      pub positive : 0 < x.orchestrator.config.stability_period
      pub running : x.orchestrator.is_running ≡ is_active x.loop
      pub policy : Agrees confirmed x.loop x.orchestrator.current_policy (server.policy x.world)
      pub fresh : IsFresh x.loop x.orchestrator x.world
