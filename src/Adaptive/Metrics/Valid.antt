-- ===== src/Adaptive/Metrics/Valid.antt =====
-- The aggregator's invariant, and that every operation keeps it.
use faas_provider.Prelude.{
  ℕ, ◌≤◌, ◌≡◌, refl, Option, none, some, String, List, [], ◌∷◌, ◌++◌, arith, length, All, Map,
  lookup, HasDistinctKeys, insert-HasDistinctKeys, All-insert, length-append, length-rest,
  Bool-cases, str_eq, eq_iff, inl, inr, Option-cases, Result-cases, ◌*◌, ◌==◌,
}
use faas_provider.Float.{Float}
use faas_provider.Adaptive.Client.{World, PaperStatus}
use faas_provider.Adaptive.Metrics.{
  PolicyMetrics, MetricsAggregator, MetricsSnapshot, new_metrics_aggregator, updated_metrics,
  put_metrics, append_history, initialize, profile_all, fast_profile, profile_core,
  simplified_fast_profile, collect_current_metrics, start_monitoring, Tick, tick, stop, millisecond,
}

-- A call of one of the methods that change the aggregator.
pub data Call : Type 0 where
  initializing profiling core_profiling collecting : Call
  monitoring : List Tick → Call

module _ {F : Type 0} ⦃fl : Float F⦄ where
  open fl use {decimal, sub}

  -- An entry stands under its own name, has been measured, and its two ratios belong together.
  pub record IsEntry (k : String) (v : PolicyMetrics F) : Type 0 where
    pub named : v.name ≡ k
    pub measured : 1 ≤ v.sample_count
    pub ratios : v.hit_ratio ≡ sub (decimal 1 0) v.miss_ratio

  pub record IsValid (m : MetricsAggregator F) : Type 0 where
    pub bounded : length m.history ≤ m.max_history_size
    pub capacity : m.max_history_size ≡ 10
    pub distinct : HasDistinctKeys m.policy_metrics
    pub entries : All (λ e. IsEntry e.0 e.1) m.policy_metrics

  lookup-IsEntry :
      (k : String) (m : Map (PolicyMetrics F)) (v : PolicyMetrics F)
      → All (λ e. IsEntry e.0 e.1) m
      → lookup k m ≡ some v
      → IsEntry k v
  unfolding lookup
  lookup-IsEntry k [] v h e = absurd (ground arith)
  lookup-IsEntry k ((j, w) ∷ m) v (h, hs) e = elim (Bool-cases (str_eq j k)) [
    | inl here ↦ ground (arith, eq_iff j k)
    | inr other ↦ lookup-IsEntry k m v hs (ground arith)
  ]

  updated_metrics-IsEntry :
      (k : String) (st : PaperStatus F) (t : ℕ) (old : Option (PolicyMetrics F))
      → ((v : PolicyMetrics F) → old ≡ some v → IsEntry k v)
      → IsEntry k (updated_metrics k st t old)
  unfolding updated_metrics
  updated_metrics-IsEntry k st t none h = record {
    named = refl;
    measured = omega arith;
    ratios = refl;
  }
  updated_metrics-IsEntry k st t (some v) h = record {
    named = (h v refl).named;
    measured = omega arith;
    ratios = refl;
  }

  pub put_metrics-IsValid :
      (k : String) (st : PaperStatus F) (t : ℕ) (m : MetricsAggregator F)
      → IsValid m
      → IsValid (put_metrics k st t m)
  unfolding put_metrics
  put_metrics-IsValid k st t m v = record {
    bounded = v.bounded;
    capacity = v.capacity;
    distinct = insert-HasDistinctKeys k _ m.policy_metrics v.distinct;
    entries =
        All-insert (λ e. IsEntry e.0 e.1) k _ m.policy_metrics
          (λ j e. rw e (
            updated_metrics-IsEntry k st t (lookup k m.policy_metrics)
              (λ old q. lookup-IsEntry k m.policy_metrics old v.entries q)))
          v.entries;
  }

  pub append_history-IsValid :
      (s : MetricsSnapshot F) (m : MetricsAggregator F) → IsValid m → IsValid (append_history s m)
  unfolding append_history
  append_history-IsValid s m v = record {
    bounded = ground (arith, length-append m.history (s ∷ []), length-rest (m.history ++ (s ∷ [])));
    capacity = v.capacity;
    distinct = v.distinct;
    entries = v.entries;
  }

  pub new_metrics_aggregator-IsValid : IsValid new_metrics_aggregator
  unfolding new_metrics_aggregator
  new_metrics_aggregator-IsValid = record {
    bounded = omega arith;
    capacity = refl;
    distinct = tt;
    entries = tt;
  }

  module _ {S : Type 0} ⦃w : World F S⦄ where
    open w use {status, set_policy, now, sleep}

    pub initialize-IsValid :
        (m : MetricsAggregator F) (s : S) → IsValid m → IsValid (initialize m s).1
    unfolding initialize
    initialize-IsValid m s v = ground arith

    profile_all-IsValid :
        (names : List String) (m : MetricsAggregator F) (s : S)
        → IsValid m
        → IsValid (profile_all names m s).0
    unfolding profile_all
    profile_all-IsValid [] m s v = v
    profile_all-IsValid (name ∷ names) m s v =
        let s1 = (set_policy name s).1 in
        let found = status (sleep (2000 * millisecond) s1) in
        elim (Option-cases (set_policy name s).0) [
          | inr (e, refused) ↦ rw (refused, profile_all) (profile_all-IsValid names m s1 v)
          | inl accepted ↦ elim (Result-cases found.0) [
            | inr (e, failed) ↦
                rw (accepted, profile_all, failed) (profile_all-IsValid names m found.1 v)
            | inl (st, measured) ↦
                let (t, s3) = now found.1 in
                rw (accepted, profile_all, measured)
                  (profile_all-IsValid names (put_metrics name st t m) s3
                    (put_metrics-IsValid name st t m v))
          ]
        ]

    pub collect-IsValid :
        (m : MetricsAggregator F) (s : S) → IsValid m → IsValid (collect_current_metrics m s).1
    unfolding collect_current_metrics
    collect-IsValid m s v = elim (Result-cases (status s).0) [
      | inr (e, failed) ↦ rw (failed, collect_current_metrics) v
      | inl (st, measured) ↦
          rw (measured, collect_current_metrics)
            (append_history-IsValid _ _ (put_metrics-IsValid st.policy st _ m v))
    ]

    profile_core-IsValid :
        (names : List String) (m : MetricsAggregator F) (s : S)
        → IsValid m
        → IsValid (profile_core names m s).1
    unfolding profile_core
    profile_core-IsValid [] m s v = v
    profile_core-IsValid (name ∷ names) m s v =
        let s1 = (set_policy name s).1 in
        let found = status (sleep (2500 * millisecond) s1) in
        elim (Option-cases (set_policy name s).0) [
          | inr (e, refused) ↦ rw (refused, profile_core) v
          | inl accepted ↦ elim (Result-cases found.0) [
            | inr (e, failed) ↦ rw (accepted, profile_core, failed) v
            | inl (st, measured) ↦
                let (t, s3) = now found.1 in
                rw (accepted, profile_core, measured)
                  (profile_core-IsValid names (put_metrics name st t m) s3
                    (put_metrics-IsValid name st t m v))
          ]
        ]

    pub fast_profile-IsValid :
        (m : MetricsAggregator F) (s : S) → IsValid m → IsValid (fast_profile m s).1
    unfolding fast_profile
    fast_profile-IsValid m s v = elim (Bool-cases (length m.configured_policies == 0)) [
      | inl empty ↦ rw (empty, fast_profile) v
      | inr some_configured ↦
          rw (some_configured, fast_profile) (profile_all-IsValid m.configured_policies m s v)
    ]

    start_monitoring-IsValid :
        (ticks : List Tick) (m : MetricsAggregator F) (s : S)
        → IsValid m
        → IsValid (start_monitoring ticks m s).0
    unfolding start_monitoring
    start_monitoring-IsValid [] m s v = v
    start_monitoring-IsValid (stop ∷ ticks) m s v = v
    start_monitoring-IsValid (tick ∷ ticks) m s v =
        let (_, m', s') = collect_current_metrics m s in
        start_monitoring-IsValid ticks m' s' (collect-IsValid m s v)

    after_call : Call → MetricsAggregator F → S → MetricsAggregator F × S
    after_call c m s = elim c [
      | initializing ↦ let (_, m', s') = initialize m s in (m', s')
      | profiling ↦ let (_, m', s') = fast_profile m s in (m', s')
      | core_profiling ↦ let (_, m', s') = simplified_fast_profile m s in (m', s')
      | collecting ↦ let (_, m', s') = collect_current_metrics m s in (m', s')
      | monitoring ticks ↦ start_monitoring ticks m s
    ]

    after_call-IsValid :
        (c : Call) (m : MetricsAggregator F) (s : S) → IsValid m → IsValid (after_call c m s).0
    unfolding after_call simplified_fast_profile
    after_call-IsValid initializing m s v = initialize-IsValid m s v
    after_call-IsValid profiling m s v = fast_profile-IsValid m s v
    after_call-IsValid core_profiling m s v = profile_core-IsValid ("lfu" ∷ "lru" ∷ []) m s v
    after_call-IsValid collecting m s v = collect-IsValid m s v
    after_call-IsValid (monitoring ticks) m s v = start_monitoring-IsValid ticks m s v

    unfoldable pub run : List Call → MetricsAggregator F → S → MetricsAggregator F × S
    unfolding after_call
    run [] m s = (m, s)
    run (c ∷ calls) m s = let (m', s') = after_call c m s in run calls m' s'

    -- A valid aggregator stays valid over any calls, whatever the client answers.
    run-IsValid :
        (calls : List Call) (m : MetricsAggregator F) (s : S)
        → IsValid m
        → IsValid (run calls m s).0
    unfolding run
    run-IsValid [] m s v = v
    run-IsValid (c ∷ calls) m s v =
        let (m', s') = after_call c m s in run-IsValid calls m' s' (after_call-IsValid c m s v)

    -- After any calls on a new aggregator, whatever the client and the clock answer, the history has
    -- at most ten snapshots, no policy has two entries, and every entry stands under its own name,
    -- has been measured at least once, and has 1 minus its miss ratio for its hit ratio.
    pub run-new-IsValid :
        (calls : List Call) (s : S) → IsValid (run calls new_metrics_aggregator s).0
    run-new-IsValid calls s =
        run-IsValid calls new_metrics_aggregator s new_metrics_aggregator-IsValid
