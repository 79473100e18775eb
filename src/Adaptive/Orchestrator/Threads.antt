-- ===== src/Adaptive/Orchestrator/Threads.antt =====
-- The goroutines of pkg/adaptive/orchestrator.go, in single steps: the loop of `Start` goes from one
-- critical section or client call to the next, and what request handlers, `Start` and `Stop` do may
-- fall between any two of them. The components' own locks make each of their methods one step.
pub mod Cycles
pub mod Consistency
pub mod Advancing
pub mod Switching
pub mod Initialized
pub mod Improving
pub mod Informed
use faas_provider.Prelude.{
  ℕ, suc, pos, ◌-◌, ◌≡◌, ◌==◌, ◌||◌, Bool, true, false, Option, none, some, String, List, [], ◌∷◌,
  ltb, length, if◌then◌else◌, ok, err,
}
use faas_provider.Float.{Float}
use faas_provider.Adaptive.Client.{World}
use faas_provider.Adaptive.Pattern.{clear, detect_shift}
use faas_provider.Adaptive.Metrics.{
  AggregatedMetrics, collect_current_metrics, get_latest_snapshot, get_history,
}
use faas_provider.Adaptive.Trend.{analyze_trend}
use faas_provider.Adaptive.CostBenefit.{CostBenefitAnalysis, compare_multiple_candidates}
use faas_provider.Adaptive.Orchestrator.{Orchestrator, build_candidates, handle_access}

-- Where the loop stands, with the local variables that it still needs: outside, in the `select`, or
-- before the step of the name.
pub data Position (F : Type 0) : Type 0 where
  stopped waiting stopping reading : Position F
  timing : String → ℕ → ℕ → Position F
  collecting : String → Position F
  detecting : String → AggregatedMetrics F → Position F
  judging : String → AggregatedMetrics F → Bool → Position F
  weighing : String → AggregatedMetrics F → Position F
  switching : CostBenefitAnalysis F → Position F
  updating : CostBenefitAnalysis F → Position F
  clearing : Position F

pub record System (F S : Type 0) : Type 0 where
  pub orchestrator : Orchestrator F
  pub loop : Position F
  pub world : S

-- What `evaluateCandidates` goes on with.
unfoldable pub decide : {F : Type 0} → Option (CostBenefitAnalysis F) → Position F
decide none = waiting
decide (some analysis) = if analysis.should_switch then switching analysis else waiting

module _ {F S : Type 0} ⦃fl : Float F⦄ ⦃w : World F S⦄ where
  open w use {now, set_policy}

  unfoldable pub advance_from : Position F → Orchestrator F → S → System F S
  unfolding decide
  advance_from stopped o s = record { orchestrator = o; loop = stopped; world = s }
  advance_from waiting o s = record { orchestrator = o; loop = waiting; world = s }
  advance_from stopping o s = record {
    orchestrator = record o { is_running = false };
    loop = stopped;
    world = s;
  }
  advance_from reading o s = record {
    orchestrator = o;
    loop = timing o.current_policy o.last_switch_time o.config.stability_period;
    world = s;
  }
  advance_from (timing current last period) o s =
      let (t, s1) = now s in
      record {
        orchestrator = o;
        loop = if ltb (t - last) period then waiting else collecting current;
        world = s1;
      }
  advance_from (collecting current) o s =
      let (collected, m, s1) = collect_current_metrics o.metrics_aggregator s in
      let position : Position F = elim collected [
        | err e ↦ waiting
        | ok aggregated ↦ detecting current aggregated
      ] in
      record { orchestrator = record o { metrics_aggregator = m }; loop = position; world = s1 }
  advance_from (detecting current aggregated) o s =
      let shift = detect_shift {F = F} o.pattern_detector in
      let position : Position F = elim (get_latest_snapshot o.metrics_aggregator) [
        | none ↦ waiting
        | some snapshot ↦ judging current aggregated shift.detected
      ] in
      record { orchestrator = o; loop = position; world = s }
  advance_from (judging current aggregated shifted) o s =
      let trend = analyze_trend o.trend_analyzer (get_history o.metrics_aggregator) current in
      record {
        orchestrator = o;
        loop =
            if shifted || trend.indicates_degradation then weighing current aggregated else waiting;
        world = s;
      }
  advance_from (weighing current aggregated) o s =
      let candidates = build_candidates [] aggregated.all_policies_metrics in
      let position : Position F = elim (get_latest_snapshot o.metrics_aggregator) [
        | none ↦ waiting
        | some snapshot ↦
            let best =
              compare_multiple_candidates o.cost_benefit_analyzer current snapshot.miss_ratio
                candidates snapshot.cache_size in
            if length candidates == 0 then waiting else decide best
      ] in
      record { orchestrator = o; loop = position; world = s }
  advance_from (switching analysis) o s =
      let (refused, s1) = set_policy analysis.candidate_policy s in
      let position : Position F = elim refused [ some e ↦ waiting | none ↦ updating analysis ] in
      record { orchestrator = o; loop = position; world = s1 }
  advance_from (updating analysis) o s =
      let (t, s1) = now s in
      record {
        orchestrator = record o {
          current_policy = analysis.candidate_policy;
          last_switch_time = t;
        };
        loop = clearing;
        world = s1;
      }
  advance_from clearing o s = record {
    orchestrator = record o { pattern_detector = clear o.pattern_detector };
    loop = waiting;
    world = s;
  }

  -- The loop's next step. In the `select` it waits.
  unfoldable pub advance : System F S → System F S
  unfolding advance_from
  advance x = advance_from x.loop x.orchestrator x.world

  -- A handler's call of `RecordAccess`.
  unfoldable pub handler_step : String → Bool → System F S → System F S
  unfolding handle_access
  handler_step key is_hit x =
      let (o, s) = handle_access key is_hit x.orchestrator x.world in
      record x { orchestrator = o; world = s }

  -- One step of some goroutine. A start that is refused changes nothing. A second `Stop` panics, and
  -- so does a start whose interval is not positive.
  pub data Steps : System F S → System F S → Type 0 where
    advanced : (x : System F S) → Steps x (advance x)
    accessed : (x : System F S) (key : String) (is_hit : Bool) → Steps x (handler_step key is_hit x)
    ticked : (x : System F S) → x.loop ≡ waiting → Steps x (record x { loop = reading })
    closed :
        (x : System F S)
        → x.orchestrator.stop_closed ≡ false
        → Steps x (record x { orchestrator = record x.orchestrator { stop_closed = true } })
    stop_received :
        (x : System F S)
        → x.loop ≡ waiting
        → x.orchestrator.stop_closed ≡ true
        → Steps x (record x { loop = stopping })
    started :
        (x : System F S) (n : ℕ)
        → x.orchestrator.is_running ≡ false
        → x.orchestrator.config.evaluation_interval ≡ pos (suc n)
        → Steps x (record x {
          orchestrator = record x.orchestrator { is_running = true };
          loop = waiting;
        })

  -- The systems that some interleaving leads to.
  pub data Reach (x : System F S) : System F S → Type 0 where
    here : Reach x x
    next : {y z : System F S} → Reach x y → Steps y z → Reach x z
