-- ===== src/Adaptive/Orchestrator/Threads/Informed.antt =====
-- What the loop holds of the metrics within a cycle.
use faas_provider.Prelude.{
  ℕ, ◌≡◌, refl, sym, ap, ◌∙◌, Bool, true, false, Option, none, some, String, [], lookup,
  if◌then◌else◌,
}
use faas_provider.Float.{Float, IsOrdered, IsRounded}
use faas_provider.Adaptive.Metrics.{
  PolicyMetrics, MetricsSnapshot, AggregatedMetrics, MetricsAggregator, get_latest_snapshot,
  copy_metrics,
}
use faas_provider.Adaptive.CostBenefit.{CostBenefitAnalysis}
use faas_provider.Adaptive.CostBenefit.Bounds.{analyze-not_above}
use faas_provider.Adaptive.Orchestrator.{Orchestrator, build_candidates}
use faas_provider.Adaptive.Orchestrator.Steps.{IsAnalysis}
use faas_provider.Adaptive.Orchestrator.Ready.{IsReady}
use faas_provider.Adaptive.Orchestrator.Improvement.{IsBetter, candidate_measured}
use faas_provider.Adaptive.Orchestrator.Threads.{
  Position, waiting, detecting, judging, weighing, switching, updating, decide,
}

module _ {F : Type 0} ⦃fl : Float F⦄ where
  -- The metrics have an entry of the policy, whose miss ratio is not at or above that of the latest
  -- snapshot.
  pub record IsLower (name : String) (m : MetricsAggregator F) : Type 0 where
    pub snapshot : MetricsSnapshot F
    pub latest : get_latest_snapshot m ≡ some snapshot
    pub entry : PolicyMetrics F
    pub measured : lookup name m.policy_metrics ≡ some entry
    pub better : fl.le snapshot.miss_ratio entry.miss_ratio ≡ false

  -- The metrics that the loop goes by are the aggregator's, and what it is about to switch to is
  -- better by them.
  abbrev pub IsInformed : Position F → MetricsAggregator F → Type 0
  IsInformed (detecting current agg) m = agg.all_policies_metrics ≡ copy_metrics [] m.policy_metrics
  IsInformed (judging current agg shifted) m =
      agg.all_policies_metrics ≡ copy_metrics [] m.policy_metrics
  IsInformed (weighing current agg) m = agg.all_policies_metrics ≡ copy_metrics [] m.policy_metrics
  IsInformed (switching a) m = IsLower a.candidate_policy m
  IsInformed (updating a) m = IsLower a.candidate_policy m
  IsInformed _ m = Unit

  pub analysis-IsLower :
      (ordered : IsOrdered F) (rounded : IsRounded F) (o : Orchestrator F) (current : String)
      (agg : AggregatedMetrics F) (snap : MetricsSnapshot F) (a : CostBenefitAnalysis F)
      → IsReady o
      → agg.all_policies_metrics ≡ copy_metrics [] o.metrics_aggregator.policy_metrics
      → get_latest_snapshot o.metrics_aggregator ≡ some snap
      → IsAnalysis o.cost_benefit_analyzer current snap.miss_ratio snap.cache_size
          (build_candidates [] agg.all_policies_metrics)
          a
      → a.should_switch ≡ true
      → IsLower a.candidate_policy o.metrics_aggregator
  analysis-IsLower ordered rounded o current agg snap a r all latest an go =
      let (v, there, ratio) =
        candidate_measured a.candidate_policy o.metrics_aggregator.policy_metrics an.candidate_ratio
          r.metrics.distinct
          (ap (λ c. lookup a.candidate_policy (build_candidates [] c)) (sym all) ∙ an.measured) in
      let recommended = ap (λ b. b.should_switch) (sym an.analysed) ∙ go in
      let lower =
        analyze-not_above ordered rounded o.cost_benefit_analyzer current a.candidate_policy
          snap.miss_ratio an.candidate_ratio snap.cache_size r.analyzer r.threshold recommended in
      record {
        snapshot = snap;
        latest = latest;
        entry = v;
        measured = there;
        better = rw ratio lower;
      }

  pub decide-IsInformed :
      (m : MetricsAggregator F) (best : Option (CostBenefitAnalysis F))
      → ((a : CostBenefitAnalysis F)
          → best ≡ some a
          → a.should_switch ≡ true
          → IsLower a.candidate_policy m)
      → IsInformed (decide best) m
  unfolding decide
  decide-IsInformed m none h = tt
  decide-IsInformed m (some a) h = choose a.should_switch refl
    where
      choose :
          (go : Bool) → a.should_switch ≡ go → IsInformed (if go then switching a else waiting) m
      choose false stay = tt
      choose true go = h a refl go

  pub lower-IsBetter :
      (o : Orchestrator F) (name : String) (t : ℕ)
      → IsLower name o.metrics_aggregator
      → IsBetter (record o { current_policy = name; last_switch_time = t })
  lower-IsBetter o name t h = record {
    snapshot = h.snapshot;
    latest = h.latest;
    entry = h.entry;
    measured = h.measured;
    better = h.better;
  }
