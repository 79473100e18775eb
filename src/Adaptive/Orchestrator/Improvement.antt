-- ===== src/Adaptive/Orchestrator/Improvement.antt =====
-- What the switches of a loop on sound settings lead to.
use faas_provider.Prelude.{
  ◌≡◌, ◌⊎◌, inl, inr, refl, ◌∙◌, sym, ap, false, none, some, String, [], ◌∷◌, Map, lookup, insert,
  lookup-insert, lookup_fresh, eq_iff, HasDistinctKeys, insert-HasDistinctKeys, arith, Option-cases,
  Result-cases, ok, last?,
}
use faas_provider.Float.{Float, IsOrdered, IsRounded}
use faas_provider.Adaptive.Client.{World}
use faas_provider.Adaptive.Metrics.{
  PolicyMetrics, MetricsSnapshot, MetricsAggregator, AggregatedMetrics, get_latest_snapshot,
  copy_metrics, build_aggregated_metrics, collect_current_metrics,
}
use faas_provider.Adaptive.Metrics.Valid.{collect-IsValid}
use faas_provider.Adaptive.Metrics.Collect.{lookup-copy_metrics}
use faas_provider.Adaptive.CostBenefit.Bounds.{analyze-not_above}
use faas_provider.Adaptive.Orchestrator.{Orchestrator, evaluation_loop, build_candidates}
use faas_provider.Adaptive.Orchestrator.Steps.{KeepsPolicy}
use faas_provider.Adaptive.Orchestrator.Cycle.{evaluation_loop_lem}
use faas_provider.Adaptive.Orchestrator.Ready.{IsReady}

module _ {F : Type 0} where
  lookup-build_candidates :
      (k : String) (candidates : Map F) (m : Map (PolicyMetrics F))
      → HasDistinctKeys m
      → lookup k (build_candidates candidates m)
        ≡ (elim (lookup k m) [ none ↦ lookup k candidates | some v ↦ some v.miss_ratio ])
  unfolding lookup build_candidates
  lookup-build_candidates k candidates [] d = refl
  lookup-build_candidates k candidates ((j, v) ∷ m) (f, d) = ground (
    arith,
    lookup-build_candidates k (insert j v.miss_ratio candidates) m d,
    lookup-insert j k v.miss_ratio candidates,
    lookup_fresh j m f,
    eq_iff j k,
  )

  copy_metrics-HasDistinctKeys :
      (copied m : Map (PolicyMetrics F))
      → HasDistinctKeys copied
      → HasDistinctKeys (copy_metrics copied m)
  unfolding copy_metrics
  copy_metrics-HasDistinctKeys copied [] d = d
  copy_metrics-HasDistinctKeys copied ((k, v) ∷ m) d =
      copy_metrics-HasDistinctKeys (insert k v copied) m (insert-HasDistinctKeys k v copied d)

  -- A candidate's ratio is the one that stands in the metrics.
  pub candidate_measured :
      (k : String) (m : Map (PolicyMetrics F)) (q : F)
      → HasDistinctKeys m
      → lookup k (build_candidates [] (copy_metrics [] m)) ≡ some q
      → (v : PolicyMetrics F) × (lookup k m ≡ some v) × (v.miss_ratio ≡ q)
  unfolding lookup
  candidate_measured k m q d found =
      let copied = copy_metrics [] m in
      let candidate = lookup-build_candidates k [] copied (copy_metrics-HasDistinctKeys [] m tt) in
      let kept = lookup-copy_metrics k [] m d in
      elim (Option-cases (lookup k m)) [
        | inl missing ↦ absurd (ground (arith, candidate, kept, missing, found))
        | inr (v, there) ↦ (v, there, ground (arith, candidate, kept, there, found))
      ]

module _ {F : Type 0} ⦃fl : Float F⦄ where
  open fl use {le}

  build_aggregated_metrics-all :
      (m : MetricsAggregator F)
      → (build_aggregated_metrics m).all_policies_metrics ≡ copy_metrics [] m.policy_metrics
  unfolding build_aggregated_metrics
  build_aggregated_metrics-all m = elim (Option-cases (last? m.history)) [
    | inl e ↦ rw (e, build_aggregated_metrics) refl
    | inr (snap, e) ↦ rw (e, build_aggregated_metrics) refl
  ]

  -- The new policy of `o` has an entry in the metrics, whose miss ratio is not at or above that of
  -- the latest snapshot.
  pub record IsBetter (o : Orchestrator F) : Type 0 where
    pub snapshot : MetricsSnapshot F
    pub latest : get_latest_snapshot o.metrics_aggregator ≡ some snapshot
    pub entry : PolicyMetrics F
    pub measured : lookup o.current_policy o.metrics_aggregator.policy_metrics ≡ some entry
    pub better : le snapshot.miss_ratio entry.miss_ratio ≡ false

  module _ {S : Type 0} ⦃w : World F S⦄ where
    open w use {status, now}

    pub collect-all :
        (m : MetricsAggregator F) (s : S) (agg : AggregatedMetrics F)
        → (collect_current_metrics m s).0 ≡ ok agg
        → agg.all_policies_metrics ≡ copy_metrics [] (collect_current_metrics m s).1.policy_metrics
    unfolding collect_current_metrics
    collect-all m s agg h = elim (Result-cases (status s).0) [
      | inr (e, failed) ↦ absurd (ground (arith, h, failed))
      | inl (st, measured) ↦
          let built : agg ≡ build_aggregated_metrics (collect_current_metrics m s).1 =
            ground (arith, h, measured) in
          ap (λ a. a.all_policies_metrics) built
          ∙ build_aggregated_metrics-all (collect_current_metrics m s).1
    ]

    module _ (ordered : IsOrdered F) (rounded : IsRounded F) where
      -- A cycle keeps the policy, or it goes to a better one.
      pub evaluation_loop-IsBetter :
          (o : Orchestrator F) (s : S)
          → IsReady o
          → let o' = (evaluation_loop o s).0 in KeepsPolicy o o' ⊎ IsBetter o'
      evaluation_loop-IsBetter o s r =
          let (t, s1) = now s in
          let (collected, m, s2) = collect_current_metrics o.metrics_aggregator s1 in
          let o' = (evaluation_loop o s).0 in
          let (kept, done) = evaluation_loop_lem o s in
          elim done [
            | inl same ↦ inl same
            | inr (agg, a, over, taken, cause, (snap, latest, an), sw) ↦
                let left : o'.metrics_aggregator ≡ m = ground (arith, kept.collected, over) in
                let valid = collect-IsValid o.metrics_aggregator s1 r.metrics in
                let all = collect-all o.metrics_aggregator s1 agg taken in
                let (v, there, ratio) =
                  candidate_measured a.candidate_policy m.policy_metrics an.candidate_ratio
                    valid.distinct
                    (ap (λ c. lookup a.candidate_policy (build_candidates [] c)) (sym all)
                      ∙ an.measured) in
                let recommended = ap (λ b. b.should_switch) (sym an.analysed) ∙ sw.recommended in
                let lower =
                  analyze-not_above ordered rounded o.cost_benefit_analyzer o.current_policy
                    a.candidate_policy snap.miss_ratio an.candidate_ratio snap.cache_size r.analyzer
                    r.threshold recommended in
                inr (record {
                  snapshot = snap;
                  latest = rw (left, latest) refl;
                  entry = v;
                  measured = rw (left, sw.policy) there;
                  better = rw ratio lower;
                })
          ]
