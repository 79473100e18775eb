-- ===== src/Adaptive/CostBenefit/Choice.antt =====
-- The candidate that `compare_multiple_candidates` picks has the highest net benefit.
use faas_provider.Prelude.{
  ℕ, ◌≡◌, ◌⊎◌, inl, inr, refl, Bool, true, false, not, ◌&&◌, Option, none, some, String, [], ◌∷◌,
  arith, All, Map, lookup, HasDistinctKeys, IsFresh, eq_refl, str_eq, Bool-cases, ◌∙◌, sym, subst,
  lookup_other,
}
use faas_provider.Float.{Float, IsOrdered}
use faas_provider.Adaptive.CostBenefit.{
  CostBenefitAnalyzer, CostBenefitAnalysis, analyze, compare_from, compare_multiple_candidates,
}

module _ {F : Type 0} ⦃fl : Float F⦄ (c : CostBenefitAnalyzer F) (current : String)
    (current_ratio : F) (size : ℕ) where
  open fl use {decimal, negate, lt}

  abbrev pub analysis_of : String → F → CostBenefitAnalysis F
  analysis_of candidate ratio = analyze c current candidate current_ratio ratio size

  -- The candidate is another policy, and its net benefit is above the bound.
  abbrev pub beats : F → String × F → Bool
  beats bound e = not (str_eq e.0 current) && lt bound (analysis_of e.0 e.1).net_benefit

  -- `out` is the analysis of a candidate above the bound that no candidate beats.
  abbrev pub IsBest : F → Map F → Option (CostBenefitAnalysis F) → Type 0
  IsBest bound m out =
      (candidate : String) × (ratio : F) × (lookup candidate m ≡ some ratio)
      × (out ≡ some (analysis_of candidate ratio))
      × (beats bound (candidate, ratio) ≡ true)
      × All (λ e. beats (analysis_of candidate ratio).net_benefit e ≡ false) m

  module _ (laws : IsOrdered F) where
    open laws use {lt_irrefl, lt_trans}

    not-lt_of_lt : (x y : F) → lt x y ≡ true → lt y x ≡ false
    not-lt_of_lt x y h = ground (arith, lt_trans x y x h, lt_irrefl x, Bool-cases (lt y x))

    better-IsBest :
        (bound : F) (k : String) (r : F) (m : Map F) (out : Option (CostBenefitAnalysis F))
        → IsFresh k m
        → beats bound (k, r) ≡ true
        → (All (λ e. beats (analysis_of k r).net_benefit e ≡ false) m
            × (out ≡ some (analysis_of k r)))
          ⊎ IsBest (analysis_of k r).net_benefit m out
        → IsBest bound ((k, r) ∷ m) out
    unfolding lookup
    better-IsBest bound k r m out f better (inl (unbeaten, same)) = (
      k,
      r,
      rw (eq_refl k),
      same,
      better,
      (ground (arith, lt_irrefl (analysis_of k r).net_benefit), unbeaten),
    )
    better-IsBest bound k r m out f better (inr (q, u, found, same, above, unbeaten)) = (
      q,
      u,
      lookup_other k q r u m f found,
      same,
      ground (arith, lt_trans bound (analysis_of k r).net_benefit (analysis_of q u).net_benefit),
      (
        ground (arith, not-lt_of_lt (analysis_of k r).net_benefit (analysis_of q u).net_benefit),
        unbeaten,
      ),
    )

    worse-IsBest :
        (bound : F) (k : String) (r : F) (m : Map F) (out : Option (CostBenefitAnalysis F))
        → IsFresh k m
        → beats bound (k, r) ≡ false
        → IsBest bound m out
        → IsBest bound ((k, r) ∷ m) out
    worse-IsBest bound k r m out f worse (q, u, found, same, above, unbeaten) = (
      q,
      u,
      lookup_other k q r u m f found,
      same,
      above,
      (
        ground (arith, lt_trans bound (analysis_of q u).net_benefit (analysis_of k r).net_benefit),
        unbeaten,
      ),
    )

    compare_from-IsBest :
        (best : Option (CostBenefitAnalysis F)) (bound : F) (m : Map F)
        → HasDistinctKeys m
        → (All (λ e. beats bound e ≡ false) m
            × (compare_from c current current_ratio size best bound m ≡ best))
          ⊎ IsBest bound m (compare_from c current current_ratio size best bound m)
    unfolding compare_from
    compare_from-IsBest best bound [] d = inl (tt, refl)
    compare_from-IsBest best bound ((k, r) ∷ m) (f, d) = elim (Bool-cases (beats bound (k, r))) [
      | inl better ↦
          let a = analysis_of k r in
          inr (
            better-IsBest bound k r m
              (compare_from c current current_ratio size best bound ((k, r) ∷ m)) f better
              (rw (better, compare_from) (compare_from-IsBest (some a) a.net_benefit m d)))
      | inr worse ↦
          let out = compare_from c current current_ratio size best bound ((k, r) ∷ m) in
          let same : out ≡ compare_from c current current_ratio size best bound m =
            rw (worse, compare_from) in
          elim (compare_from-IsBest best bound m d) [
            | inl (unbeaten, kept) ↦ inl ((worse, unbeaten), same ∙ kept)
            | inr picked ↦
                inr
                  (worse-IsBest bound k r m out f worse (subst (IsBest bound m) (sym same) picked))
          ]
    ]

-- Of the candidates other than the current policy, and with a net benefit above -1,
-- `compare_multiple_candidates` picks one that none of these beats, and it returns the analysis of
-- that candidate; it returns none exactly where there is no such candidate. The candidates' map
-- has no key twice, and may be visited in any order.
pub compare_multiple_candidates_lem :
    {F : Type 0} ⦃fl : Float F⦄ (laws : IsOrdered F) (c : CostBenefitAnalyzer F) (current : String)
    (current_ratio : F) (candidates : Map F) (size : ℕ)
    → HasDistinctKeys candidates
    → let out = compare_multiple_candidates c current current_ratio candidates size in
      let least = fl.negate (fl.decimal 1 0) in
      (All (λ e. beats c current current_ratio size least e ≡ false) candidates × (out ≡ none))
      ⊎ IsBest c current current_ratio size least candidates out
unfolding compare_multiple_candidates
compare_multiple_candidates_lem ⦃fl⦄ laws c current current_ratio candidates size d =
    compare_from-IsBest c current current_ratio size laws none (fl.negate (fl.decimal 1 0))
      candidates d
