-- ===== src/Adaptive/CostBenefit/Order.antt =====
-- What the order in which a map is visited can change of the decision.
use faas_provider.Prelude.{
  ℕ, ◌≡◌, ◌⊎◌, inl, inr, sym, ap, ◌∙◌, true, false, Option, none, some, String, [], ◌∷◌, arith, All,
  Map, lookup, HasDistinctKeys, eq_iff, str_eq, Bool-cases,
}
use faas_provider.Float.{Float, IsOrdered, IsNumber}
use faas_provider.Adaptive.CostBenefit.{
  CostBenefitAnalyzer, CostBenefitAnalysis, analyze, compare_multiple_candidates,
}
use faas_provider.Adaptive.CostBenefit.Choice.{
  beats, analysis_of, IsBest, compare_multiple_candidates_lem,
}

-- An entry that is found stands in the map.
lookup-All {ℓ κ} :
    {V : Type ℓ} (P : String × V → Type κ) (k : String) (v : V) (m : Map V)
    → All P m
    → lookup k m ≡ some v
    → P (k, v)
unfolding lookup
lookup-All P k v [] h e = absurd (ground (arith, e))
lookup-All P k v ((j, w) ∷ m) (h, hs) e = elim (Bool-cases (str_eq j k)) [
  | inl here ↦
      let key : j ≡ k = (eq_iff j k).0 here in
      let value : w ≡ v = ground (arith, e, here) in rw (sym key, sym value) h
  | inr other ↦ lookup-All P k v m hs (ground (arith, e, other))
]

module _ {F : Type 0} ⦃fl : Float F⦄ where
  -- There is no recommendation in either, or one in each, and both or neither to switch. The two are
  -- the same, or their candidates are two with one net benefit: neither is below the other.
  abbrev pub IsSameButTies :
      Option (CostBenefitAnalysis F) → Option (CostBenefitAnalysis F) → Type 0
  IsSameButTies none none = Unit
  IsSameButTies none (some b) = ⊥
  IsSameButTies (some a) none = ⊥
  IsSameButTies (some a) (some b) =
      (a.should_switch ≡ b.should_switch)
      × ((a ≡ b)
          ⊎ ((str_eq a.candidate_policy b.candidate_policy ≡ false)
              × (fl.lt a.net_benefit b.net_benefit ≡ false)
              × (fl.lt b.net_benefit a.net_benefit ≡ false)))

module _ {F : Type 0} ⦃fl : Float F⦄ (laws : IsOrdered F) where
  open fl use {lt, le, decimal, negate}
  open laws use {lt_or_le, le_of_lt, number_of_le, le_trans, not-lt_of_le}

  -- Of two numbers neither of which is below the other, a third is below both or neither.
  lt_of_lt_of_le : (x y z : F) → lt x y ≡ true → le y z ≡ true → lt x z ≡ true
  lt_of_lt_of_le x y z h k = ground (
    arith,
    number_of_le x y (le_of_lt x y h),
    number_of_le y z k,
    lt_or_le x z,
    le_trans y z x k,
    not-lt_of_le y x,
  )

  lt_tied :
      (c x y : F) → IsNumber x → IsNumber y → lt x y ≡ false → lt y x ≡ false → lt c x ≡ lt c y
  lt_tied c x y nx ny h k = ground (
    arith,
    lt_or_le x y nx ny,
    lt_or_le y x ny nx,
    lt_of_lt_of_le c x y,
    lt_of_lt_of_le c y x,
    Bool-cases (lt c x),
    Bool-cases (lt c y),
  )

  switches_tied :
      (c : CostBenefitAnalyzer F) (current p q : String) (ratio u v : F) (size : ℕ)
      → let x = (analyze c current p ratio u size).net_benefit in
        let y = (analyze c current q ratio v size).net_benefit in
        IsNumber x
        → IsNumber y
        → lt x y ≡ false
        → lt y x ≡ false
        → (analyze c current p ratio u size).should_switch
          ≡ (analyze c current q ratio v size).should_switch
  unfolding analyze
  switches_tied c current p q ratio u v size nx ny h k = lt_tied c.switch_threshold _ _ nx ny h k

  module _ (c : CostBenefitAnalyzer F) (current : String) (ratio : F) (size : ℕ) where
    missed :
        (m n : Map F) (b : Option (CostBenefitAnalysis F)) (least : F)
        → ((k : String) → lookup k m ≡ lookup k n)
        → All (λ e. beats c current ratio size least e ≡ false) m
        → ¬ IsBest c current ratio size least n b
    missed m n b least same none_above (q, v, found, _, above, _) =
        ground (arith, above, lookup-All _ q v m none_above (same q ∙ found))

    tied :
        (m n : Map F) (a b : Option (CostBenefitAnalysis F)) (least : F)
        → ((k : String) → lookup k m ≡ lookup k n)
        → IsBest c current ratio size least m a
        → IsBest c current ratio size least n b
        → IsSameButTies a b
    unfolding analyze
    tied m n a b least same (p, u, found, is, above, unbeaten)
          (q, v, found', is', above', unbeaten') =
        let x = (analysis_of c current ratio size p u).net_benefit in
        let y = (analysis_of c current ratio size q v).net_benefit in
        let x_number : IsNumber x =
          (number_of_le least x (le_of_lt least x (ground (arith, above)))).1 in
        let y_number : IsNumber y =
          (number_of_le least y (le_of_lt least y (ground (arith, above')))).1 in
        let not_above : lt x y ≡ false =
          ground (arith, above', lookup-All _ q v m unbeaten (same q ∙ found')) in
        let not_below : lt y x ≡ false =
          ground (arith, above, lookup-All _ p u n unbeaten' (sym (same p) ∙ found)) in
        let switched =
          switches_tied c current p q ratio u v size x_number y_number not_above not_below in
        let one : (analysis_of c current ratio size p u ≡ analysis_of c current ratio size q v)
            ⊎ ((str_eq p q ≡ false) × (lt x y ≡ false) × (lt y x ≡ false)) =
          elim (Bool-cases (str_eq p q)) [
            | inr other ↦ inr (other, not_above, not_below)
            | inl named ↦
                let key : p ≡ q = (eq_iff p q).0 named in
                let value : some u ≡ some v =
                  sym found ∙ same p ∙ ap (λ k. lookup k n) key ∙ found' in
                let ratios : u ≡ v = ground (arith, value) in
                inl (
                  ap (λ k. analysis_of c current ratio size k u) key
                  ∙ ap (analysis_of c current ratio size q) ratios)
          ] in
        rw (is, is') (switched, one)

  -- If floats are ordered as IEEE 754 has it, and two maps of candidates have no key twice and hold
  -- the same entries, in whatever order they are visited: both get a recommendation or neither, and
  -- both or neither to switch. The two recommendations are the same, or they name two candidates
  -- neither of whose net benefits is below the other, so that the order decides between candidates
  -- only where these tie.
  pub compare_multiple_candidates-order :
      (c : CostBenefitAnalyzer F) (current : String) (ratio : F) (size : ℕ) (m n : Map F)
      → HasDistinctKeys m
      → HasDistinctKeys n
      → ((k : String) → lookup k m ≡ lookup k n)
      → IsSameButTies
          (compare_multiple_candidates c current ratio m size)
          (compare_multiple_candidates c current ratio n size)
  compare_multiple_candidates-order c current ratio size m n d e same =
      let least = negate (decimal 1 0) in
      let a = compare_multiple_candidates c current ratio m size in
      let b = compare_multiple_candidates c current ratio n size in
      elim (compare_multiple_candidates_lem laws c current ratio m size d) [
        | inl (low, nothing) ↦
            elim (compare_multiple_candidates_lem laws c current ratio n size e) [
              | inl (_, nothing') ↦ rw (nothing, nothing') tt
              | inr best ↦ absurd (missed c current ratio size m n b least same low best)
            ]
        | inr best ↦ elim (compare_multiple_candidates_lem laws c current ratio n size e) [
          | inl (low, _) ↦
              absurd (missed c current ratio size n m a least (λ k. sym (same k)) low best)
          | inr best' ↦ tied c current ratio size m n a b least same best best'
        ]
      ]
