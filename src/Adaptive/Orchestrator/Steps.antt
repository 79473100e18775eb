-- ===== src/Adaptive/Orchestrator/Steps.antt =====
-- What the comparison of the candidates may come to: nothing, or one switch.
use faas_provider.Prelude.{
  lookup, insert, insert-HasDistinctKeys, HasDistinctKeys, All, All-lookup, ℕ, ◌≡◌, ◌⊎◌, inl, inr,
  refl, Bool, true, false, not, ◌&&◌, Option, none, some, String, [], ◌∷◌, ◌==◌, str_eq,
  if◌then◌else◌, length, Map, arith, Option-cases, Bool-cases, subst,
}
use faas_provider.Float.{Float}
use faas_provider.Adaptive.Client.{World}
use faas_provider.Adaptive.Pattern.{clear}
use faas_provider.Adaptive.Metrics.{
  PolicyMetrics, MetricsSnapshot, MetricsAggregator, AggregatedMetrics, get_latest_snapshot,
}
use faas_provider.Adaptive.CostBenefit.{
  CostBenefitAnalyzer, CostBenefitAnalysis, analyze, compare_multiple_candidates, compare_from,
}
use faas_provider.Adaptive.Orchestrator.{
  Orchestrator, perform_switch, evaluate_candidates, act_on, build_candidates,
}

-- What a cycle does not touch, and the metrics that it leaves.
pub record KeepsSettings {F : Type 0} (metrics : MetricsAggregator F) (o o' : Orchestrator F)
    : Type 0 where
  pub collected : o'.metrics_aggregator ≡ metrics
  pub config : o'.config ≡ o.config
  pub analyzer : o'.cost_benefit_analyzer ≡ o.cost_benefit_analyzer
  pub trend : o'.trend_analyzer ≡ o.trend_analyzer
  pub running : o'.is_running ≡ o.is_running
  pub closed : o'.stop_closed ≡ o.stop_closed

-- What stays as it is where there is no switch.
pub record KeepsPolicy {F : Type 0} (o o' : Orchestrator F) : Type 0 where
  pub policy : o'.current_policy ≡ o.current_policy
  pub time : o'.last_switch_time ≡ o.last_switch_time
  pub detector : o'.pattern_detector ≡ o.pattern_detector

pub settings_kept : {F : Type 0} (o : Orchestrator F) → KeepsSettings o.metrics_aggregator o o
settings_kept o = record {
  collected = refl;
  config = refl;
  analyzer = refl;
  trend = refl;
  running = refl;
  closed = refl;
}

pub policy_kept : {F : Type 0} (o : Orchestrator F) → KeepsPolicy o o
policy_kept o = record { policy = refl; time = refl; detector = refl }

module _ {F : Type 0} ⦃fl : Float F⦄ where
  open fl use {lt, negate, decimal}

  -- `a` analyses a switch from `current` to another policy, one of the candidates, for a cache of
  -- `size` bytes on which the current policy misses at `ratio`.
  pub record IsAnalysis (c : CostBenefitAnalyzer F) (current : String) (ratio : F) (size : ℕ)
      (candidates : Map F) (a : CostBenefitAnalysis F) : Type 0 where
    pub candidate_ratio : F
    pub measured : lookup a.candidate_policy candidates ≡ some candidate_ratio
    pub analysed : a ≡ analyze c current a.candidate_policy ratio candidate_ratio size
    pub other : str_eq a.candidate_policy current ≡ false

  build_candidates-HasDistinctKeys :
      (candidates : Map F) (m : Map (PolicyMetrics F))
      → HasDistinctKeys candidates
      → HasDistinctKeys (build_candidates candidates m)
  unfolding build_candidates
  build_candidates-HasDistinctKeys candidates [] d = d
  build_candidates-HasDistinctKeys candidates ((k, v) ∷ m) d =
      build_candidates-HasDistinctKeys (insert k v.miss_ratio candidates) m
        (insert-HasDistinctKeys k v.miss_ratio candidates d)

  module _ (c : CostBenefitAnalyzer F) (current : String) (ratio : F) (size : ℕ) (all : Map F) where
    kept_or_better :
        (k : String) (q : F) (better : Bool) (best : Option (CostBenefitAnalysis F))
        → (better ≡ true → str_eq k current ≡ false)
        → lookup k all ≡ some q
        → ((a : CostBenefitAnalysis F) → best ≡ some a → IsAnalysis c current ratio size all a)
        → (a : CostBenefitAnalysis F)
        → (if better then some (analyze c current k ratio q size) else best) ≡ some a
        → IsAnalysis c current ratio size all a
    unfolding analyze
    kept_or_better k q false best other found h a e = h a e
    kept_or_better k q true best other found h a e =
        subst (IsAnalysis c current ratio size all) (ground (arith, e))
          (record { candidate_ratio = q; measured = found; analysed = refl; other = other refl })

    -- The loop keeps to analyses of other policies than the current one.
    compare_from-IsAnalysis :
        (candidates : Map F) (best : Option (CostBenefitAnalysis F)) (net : F)
        → All (λ e. lookup e.0 all ≡ some e.1) candidates
        → ((a : CostBenefitAnalysis F) → best ≡ some a → IsAnalysis c current ratio size all a)
        → (a : CostBenefitAnalysis F)
        → compare_from c current ratio size best net candidates ≡ some a
        → IsAnalysis c current ratio size all a
    unfolding compare_from
    compare_from-IsAnalysis [] best net found h = h
    compare_from-IsAnalysis ((k, q) ∷ candidates) best net (here, found) h =
        let analysis = analyze c current k ratio q size in
        let better = not (str_eq k current) && lt net analysis.net_benefit in
        compare_from-IsAnalysis candidates (if better then some analysis else best)
          (if better then analysis.net_benefit else net) found
          (kept_or_better k q better best (λ e. ground arith) here h)

  -- What the comparison returns is the analysis of another policy.
  pub compare_multiple_candidates-IsAnalysis :
      (c : CostBenefitAnalyzer F) (current : String) (ratio : F) (size : ℕ)
      (m : Map (PolicyMetrics F)) (a : CostBenefitAnalysis F)
      → compare_multiple_candidates c current ratio (build_candidates [] m) size ≡ some a
      → IsAnalysis c current ratio size (build_candidates [] m) a
  unfolding compare_multiple_candidates
  compare_multiple_candidates-IsAnalysis c current ratio size m a e =
      let candidates = build_candidates [] m in
      compare_from-IsAnalysis c current ratio size candidates candidates none (negate (decimal 1 0))
        (All-lookup candidates (build_candidates-HasDistinctKeys [] m tt)) (λ b f. ground arith) a e

  -- `a` weighs the metrics `m` at the snapshot that they end with.
  abbrev pub Weighs : String → AggregatedMetrics F → Orchestrator F → CostBenefitAnalysis F → Type 0
  Weighs current m o a =
      (snap : MetricsSnapshot F) × (get_latest_snapshot o.metrics_aggregator ≡ some snap)
      × IsAnalysis o.cost_benefit_analyzer current snap.miss_ratio snap.cache_size
          (build_candidates [] m.all_policies_metrics) a

  module _ {S : Type 0} ⦃w : World F S⦄ where
    open w use {now, set_policy}

    -- A switch by the analysis `a`, made in the state `server` of a cache server that accepts it.
    pub record IsSwitch (a : CostBenefitAnalysis F) (server : S) (o o' : Orchestrator F)
        : Type 0 where
      pub recommended : a.should_switch ≡ true
      pub accepted : (set_policy a.candidate_policy server).0 ≡ none
      pub policy : o'.current_policy ≡ a.candidate_policy
      pub time : o'.last_switch_time ≡ (now (set_policy a.candidate_policy server).1).0
      pub detector : o'.pattern_detector ≡ clear o.pattern_detector

    perform_switch_lem :
        (a : CostBenefitAnalysis F) (o : Orchestrator F) (s : S)
        → a.should_switch ≡ true
        → let o' = (perform_switch a o s).0 in
          KeepsSettings o.metrics_aggregator o o' × (KeepsPolicy o o' ⊎ IsSwitch a s o o')
    unfolding perform_switch
    perform_switch_lem a o s h = elim (Option-cases (set_policy a.candidate_policy s).0) [
      | inr (e, refused) ↦ rw (refused, perform_switch) (settings_kept o, inl (policy_kept o))
      | inl accepted ↦
          rw (accepted, perform_switch)
            (
              record {
                collected = refl;
                config = refl;
                analyzer = refl;
                trend = refl;
                running = refl;
                closed = refl;
              },
              inr (record {
                recommended = h;
                accepted = accepted;
                policy = refl;
                time = refl;
                detector = refl;
              }),
            )
    ]

    act_on_lem :
        (P : CostBenefitAnalysis F → Type 0) (best : Option (CostBenefitAnalysis F))
        (o : Orchestrator F) (s : S)
        → ((a : CostBenefitAnalysis F) → best ≡ some a → P a)
        → let o' = (act_on best o s).0 in
          KeepsSettings o.metrics_aggregator o o'
          × (KeepsPolicy o o' ⊎ ((a : CostBenefitAnalysis F) × P a × IsSwitch a s o o'))
    unfolding act_on
    act_on_lem P none o s h = (settings_kept o, inl (policy_kept o))
    act_on_lem P (some a) o s h = elim (Bool-cases a.should_switch) [
      | inr stay ↦ rw (stay, act_on) (settings_kept o, inl (policy_kept o))
      | inl go ↦
          let (kept, done) = perform_switch_lem a o s go in
          rw (go, act_on)
            (kept, elim done [ inl same ↦ inl same | inr switched ↦ inr (a, h a refl, switched) ])
    ]

    pub evaluate_candidates_lem :
        (current : String) (m : AggregatedMetrics F) (o : Orchestrator F) (s : S)
        → let o' = (evaluate_candidates current m o s).0 in
          KeepsSettings o.metrics_aggregator o o'
          × (KeepsPolicy o o'
              ⊎ ((a : CostBenefitAnalysis F) × Weighs current m o a × IsSwitch a s o o'))
    unfolding evaluate_candidates
    evaluate_candidates_lem current m o s =
        elim (Option-cases (get_latest_snapshot o.metrics_aggregator)) [
          | inl missing ↦ rw (missing, evaluate_candidates) (settings_kept o, inl (policy_kept o))
          | inr (snap, found) ↦
              let candidates = build_candidates [] m.all_policies_metrics in
              elim (Bool-cases (length candidates == 0)) [
                | inl empty ↦
                    rw (found, empty, evaluate_candidates) (settings_kept o, inl (policy_kept o))
                | inr some_there ↦
                    rw (found, some_there, evaluate_candidates)
                      (act_on_lem _ _ o s (λ a e. (
                        snap,
                        refl,
                        compare_multiple_candidates-IsAnalysis o.cost_benefit_analyzer current
                            snap.miss_ratio snap.cache_size m.all_policies_metrics a e,
                      )))
              ]
        ]
