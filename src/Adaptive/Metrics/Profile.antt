-- ===== src/Adaptive/Metrics/Profile.antt =====
-- What a fast profiling run measures.
use faas_provider.Prelude.{
  ℕ, ◌*◌, ◌≡◌, ◌≢◌, inl, inr, refl, sym, true, false, none, String, List, [], ◌∷◌, arith, All,
  lookup, eq_iff, eq_refl, Option-cases, Result-cases, length, ◌==◌, ok, err, errorf, suc-ne-zero,
  Result, ◌↔◌, subst, List-cases,
}
use faas_provider.Float.{Float}
use faas_provider.Adaptive.Client.{World, PaperStatus}
use faas_provider.Adaptive.Metrics.{
  MetricsAggregator, put_metrics, profile_all, fast_profile, millisecond,
}
use faas_provider.Adaptive.Metrics.Collect.{put_metrics-lookup}

-- A run over the names changes nothing but the entries of those names.
pub record Keeps (F : Type 0) (names : List String) (m out : MetricsAggregator F) : Type 0 where
  pub history : out.history ≡ m.history
  pub bound : out.max_history_size ≡ m.max_history_size
  pub configured : out.configured_policies ≡ m.configured_policies
  pub others :
      (k : String)
      → All (λ name. name ≢ k) names
      → lookup k out.policy_metrics ≡ lookup k m.policy_metrics

-- The client takes every policy and reports its status.
pub record Answers {F S : Type 0} (w : World F S) : Type 0 where
  pub accepts : (name : String) (s : S) → (w.set_policy name s).0 ≡ none
  pub reports : (s : S) → (st : PaperStatus F) × ((w.status s).0 ≡ ok st)

module _ {F : Type 0} ⦃fl : Float F⦄ where
  Keeps-put :
      (name : String) (names : List String) (m out : MetricsAggregator F) (st : PaperStatus F)
      (t : ℕ)
      → Keeps F names (put_metrics name st t m) out
      → Keeps F (name ∷ names) m out
  unfolding put_metrics
  Keeps-put name names m out st t k = record {
    history = k.history;
    bound = k.bound;
    configured = k.configured;
    others = λ q h. ground (arith, k.others q h.1, put_metrics-lookup name st t m q, eq_iff name q);
  }

  put_metrics-stays :
      (name : String) (st : PaperStatus F) (t : ℕ) (m : MetricsAggregator F) (k : String)
      → lookup k m.policy_metrics ≢ none
      → lookup k (put_metrics name st t m).policy_metrics ≢ none
  put_metrics-stays name st t m k h = ground (arith, put_metrics-lookup name st t m k)

  abbrev Measured : List String → MetricsAggregator F → Type 0
  Measured names out = All (λ k. lookup k out.policy_metrics ≢ none) names

  put_metrics-measured :
      (name : String) (st : PaperStatus F) (t : ℕ) (m : MetricsAggregator F)
      → lookup name (put_metrics name st t m).policy_metrics ≢ none
  put_metrics-measured name st t m =
      ground (arith, put_metrics-lookup name st t m name, eq_refl name)

module _ {F S : Type 0} ⦃fl : Float F⦄ ⦃w : World F S⦄ where
  open w use {status, set_policy, now, sleep}

  -- Induction over the loop: a policy is passed over, or its entry is put.
  profile_all_rule {ℓ} :
      (P : List String → MetricsAggregator F → MetricsAggregator F → Type ℓ)
      → ((m : MetricsAggregator F) → P [] m m)
      → ((name : String) (names : List String) (m out : MetricsAggregator F)
          → P names m out
          → P (name ∷ names) m out)
      → ((name : String) (names : List String) (m out : MetricsAggregator F) (st : PaperStatus F)
            (t : ℕ)
          → P names (put_metrics name st t m) out
          → P (name ∷ names) m out)
      → (names : List String) (m : MetricsAggregator F) (s : S)
      → P names m (profile_all names m s).0
  unfolding profile_all
  profile_all_rule P done skip put [] m s = done m
  profile_all_rule P done skip put (name ∷ names) m s =
      let s1 = (set_policy name s).1 in
      let found = status (sleep (2000 * millisecond) s1) in
      elim (Option-cases (set_policy name s).0) [
        | inr (e, refused) ↦
            rw (refused, profile_all)
              (skip name names m _ (profile_all_rule P done skip put names m s1))
        | inl accepted ↦ elim (Result-cases found.0) [
          | inr (e, failed) ↦
              rw (accepted, profile_all, failed)
                (skip name names m _ (profile_all_rule P done skip put names m found.1))
          | inl (st, measured) ↦
              let (t, s3) = now found.1 in
              rw (accepted, profile_all, measured)
                (put name names m _ st t
                  (profile_all_rule P done skip put names (put_metrics name st t m) s3))
        ]
      ]

  profile_all-Keeps :
      (names : List String) (m : MetricsAggregator F) (s : S)
      → Keeps F names m (profile_all names m s).0
  profile_all-Keeps =
      profile_all_rule (Keeps F)
        (λ m. record { history = refl; bound = refl; configured = refl; others = λ k h. refl })
        (λ name names m out k. record {
          history = k.history;
          bound = k.bound;
          configured = k.configured;
          others = λ q h. k.others q h.1;
        })
        Keeps-put

  -- An entry stays, though it may be measured again.
  profile_all-stays :
      (names : List String) (m : MetricsAggregator F) (s : S) (k : String)
      → lookup k m.policy_metrics ≢ none
      → lookup k (profile_all names m s).0.policy_metrics ≢ none
  profile_all-stays names m s k =
      profile_all_rule
        (λ _ before out. lookup k before.policy_metrics ≢ none → lookup k out.policy_metrics ≢ none)
        (λ before h. h) (λ name ns before out stays h. stays h)
        (λ name ns before out st t stays h. stays (put_metrics-stays name st t before k h)) names m
        s

  profile_all-step :
      Answers w
      → (name : String) (names : List String) (m : MetricsAggregator F) (s : S)
      → (st : PaperStatus F) × (t : ℕ) × (s' : S) × (profile_all (name ∷ names) m s
          ≡ profile_all names (put_metrics name st t m) s')
  unfolding profile_all
  profile_all-step a name names m s =
      let found = status (sleep (2000 * millisecond) (set_policy name s).1) in
      let (st, measured) = a.reports (sleep (2000 * millisecond) (set_policy name s).1) in
      let (t, s3) = now found.1 in (st, t, s3, rw (a.accepts name s, profile_all, measured))

  profile_all-measures :
      Answers w
      → (names : List String) (m : MetricsAggregator F) (s : S)
      → Measured names (profile_all names m s).0
  profile_all-measures a [] m s = tt
  profile_all-measures a (name ∷ names) m s =
      let (st, t, s', step) = profile_all-step a name names m s in
      let m1 = put_metrics name st t m in
      subst (λ out. Measured (name ∷ names) out.0) (sym step)
        (
          profile_all-stays names m1 s' name (put_metrics-measured name st t m),
          profile_all-measures a names m1 s',
        )

  fast_profile-empty :
      (m : MetricsAggregator F) (s : S)
      → m.configured_policies ≡ []
      → fast_profile m s ≡ (err (errorf "no policies configured, call Initialize() first"), m, s)
  unfolding fast_profile
  fast_profile-empty m s empty =
      let test : (length m.configured_policies == 0) ≡ true = rw empty in rw (test, fast_profile)

  fast_profile-full :
      (m : MetricsAggregator F) (s : S) {name : String} {names : List String}
      → m.configured_policies ≡ name ∷ names
      → fast_profile m s ≡ (let (m', s') = profile_all m.configured_policies m s in (ok tt, m', s'))
  unfolding fast_profile
  fast_profile-full m s {name} {names} full =
      let test : (length m.configured_policies == 0) ≡ false =
        rw full (suc-ne-zero (length names)) in
      rw (test, fast_profile)

  abbrev Profiled : MetricsAggregator F → Result (Unit {0}) × MetricsAggregator F × S → Type 0
  Profiled m out =
      ((m.configured_policies ≢ []) ↔ (out.0 ≡ ok tt)) × Keeps F m.configured_policies m out.1

  fast_profile-Profiled : (m : MetricsAggregator F) (s : S) → Profiled m (fast_profile m s)
  fast_profile-Profiled m s = elim (List-cases m.configured_policies) [
    | inl empty ↦ subst (Profiled m) (sym (fast_profile-empty m s empty)) (
      (λ some_name. absurd (some_name empty), λ done. cc),
      record { history = refl; bound = refl; configured = refl; others = λ k h. refl },
    )
    | inr (name, names, full) ↦
        subst (Profiled m) (sym (fast_profile-full m s full))
          ((λ _. refl, λ done empty. cc), profile_all-Keeps m.configured_policies m s)
  ]

  -- `fast_profile` succeeds exactly when a policy is configured, and it keeps the history and the
  -- configured policies whether it succeeds or not.
  pub fast_profile_iff :
      (m : MetricsAggregator F) (s : S)
      → let out = fast_profile m s in
        ((m.configured_policies ≢ []) ↔ (out.0 ≡ ok tt))
        × (out.1.history ≡ m.history)
        × (out.1.configured_policies ≡ m.configured_policies)
  fast_profile_iff m s =
      let (done, keeps) = fast_profile-Profiled m s in (done, keeps.history, keeps.configured)

  -- `fast_profile` leaves the entry of a policy that is not configured as it was.
  pub fast_profile-others :
      (m : MetricsAggregator F) (s : S) (k : String)
      → All (λ name. name ≢ k) m.configured_policies
      → lookup k (fast_profile m s).1.policy_metrics ≡ lookup k m.policy_metrics
  fast_profile-others m s k h = (fast_profile-Profiled m s).1.others k h

  -- If the client takes every policy and reports its status, every configured policy has an entry
  -- after `fast_profile`.
  pub fast_profile-measures :
      (m : MetricsAggregator F) (s : S)
      → Answers w
      → All (λ k. lookup k (fast_profile m s).1.policy_metrics ≢ none) m.configured_policies
  fast_profile-measures m s a = elim (List-cases m.configured_policies) [
    | inl empty ↦ rw empty tt
    | inr (name, names, full) ↦
        subst (λ out. Measured m.configured_policies out.1) (sym (fast_profile-full m s full))
          (profile_all-measures a m.configured_policies m s)
  ]
