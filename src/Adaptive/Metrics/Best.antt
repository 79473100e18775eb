-- ===== src/Adaptive/Metrics/Best.antt =====
-- The policy that `select_best_policy` picks has the lowest miss ratio.
use faas_provider.Prelude.{
  ◌≡◌, ◌⊎◌, inl, inr, refl, true, false, some, String, [], ◌∷◌, arith, All, Map, lookup,
  HasDistinctKeys, IsFresh, eq_refl, Bool-cases, if◌then◌else◌, length, ◌==◌, All-mono, ap,
  suc-ne-zero, ◌∙◌, lookup_other,
}
use faas_provider.Float.{Float, IsOrdered}
use faas_provider.Adaptive.Metrics.{
  PolicyMetrics, MetricsAggregator, select_from, select_best_policy,
}

module _ {F : Type 0} ⦃fl : Float F⦄ where
  open fl use {decimal, le}

  -- No entry has a miss ratio of at most `ratio`.
  abbrev pub NoneWithin : F → Map (PolicyMetrics F) → Type 0
  NoneWithin ratio = All (λ e. le e.1.miss_ratio ratio ≡ false)

  -- `lowest` is at most the miss ratio of every entry that has one of at most `ratio`.
  abbrev pub IsLowest : F → F → Map (PolicyMetrics F) → Type 0
  IsLowest ratio lowest =
      All (λ e. le e.1.miss_ratio ratio ≡ true → le lowest e.1.miss_ratio ≡ true)

  -- Either no entry is within the ratio, and the loop keeps what it had, or it ends at an entry
  -- within the ratio whose miss ratio is the lowest.
  abbrev Selects : String → F → Map (PolicyMetrics F) → String × F → Type 0
  Selects best ratio m out =
      (NoneWithin ratio m × (out ≡ (best, ratio)))
      ⊎ ((v : PolicyMetrics F) × (lookup out.0 m ≡ some v)
          × (v.miss_ratio ≡ out.1)
          × (le v.miss_ratio ratio ≡ true)
          × IsLowest ratio v.miss_ratio m)

  module _ (laws : IsOrdered F) where
    open laws use {le_trans, number_of_le, lt_or_le, le_of_lt}

    -- A value within `ratio` that is not at most `x` is above `x`.
    le_of_not-le :
        (x y ratio : F) → le x ratio ≡ true → le y ratio ≡ true → le x y ≡ false → le y x ≡ true
    le_of_not-le x y ratio hx hy h =
        ground (arith, number_of_le x ratio hx, number_of_le y ratio hy, lt_or_le y x, le_of_lt y x)

    lowest_within :
        (u v e ratio : F)
        → le v ratio ≡ true
        → le u v ≡ true
        → le e ratio ≡ true
        → (le e v ≡ true → le u e ≡ true)
        → le u e ≡ true
    lowest_within u v e ratio lower below within least = elim (Bool-cases (le e v)) [
      | inl under ↦ least under
      | inr over ↦ le_trans u v e below (le_of_not-le e v ratio within lower over)
    ]

    lower-Selects :
        (best : String) (ratio : F) (k : String) (v : PolicyMetrics F) (m : Map (PolicyMetrics F))
        (out : String × F)
        → IsFresh k m
        → le v.miss_ratio ratio ≡ true
        → Selects k v.miss_ratio m out
        → Selects best ratio ((k, v) ∷ m) out
    unfolding lookup
    lower-Selects best ratio k v m out f lower (inl (none_lower, here)) = inr (
      v,
      rw (here, eq_refl k),
      rw here,
      lower,
      (
        λ _. (number_of_le v.miss_ratio ratio lower).0,
        All-mono _ _ m
            (λ e above within. le_of_not-le e.1.miss_ratio v.miss_ratio ratio within lower above)
            none_lower,
      ),
    )
    lower-Selects best ratio k v m out f lower (inr (u, found, same, below, lowest)) = inr (
      u,
      lookup_other k out.0 v u m f found,
      same,
      le_trans u.miss_ratio v.miss_ratio ratio below lower,
      (
        λ _. below,
        All-mono _ _ m
            (λ e least within.
              lowest_within u.miss_ratio v.miss_ratio e.1.miss_ratio ratio lower below within least)
            lowest,
      ),
    )

    higher-Selects :
        (best : String) (ratio : F) (k : String) (v : PolicyMetrics F) (m : Map (PolicyMetrics F))
        (out : String × F)
        → IsFresh k m
        → le v.miss_ratio ratio ≡ false
        → Selects best ratio m out
        → Selects best ratio ((k, v) ∷ m) out
    higher-Selects best ratio k v m out f higher (inl (none_lower, here)) =
        inl ((higher, none_lower), here)
    higher-Selects best ratio k v m out f higher (inr (u, found, same, below, lowest)) = inr (
      u,
      lookup_other k out.0 v u m f found,
      same,
      below,
      (λ within. absurd (ground arith), lowest),
    )

    select_from-Selects :
        (best : String) (ratio : F) (m : Map (PolicyMetrics F))
        → HasDistinctKeys m
        → Selects best ratio m (select_from best ratio m)
    unfolding select_from
    select_from-Selects best ratio [] d = inl (tt, refl)
    select_from-Selects best ratio ((k, v) ∷ m) (f, d) = elim (Bool-cases (le v.miss_ratio ratio)) [
      | inl lower ↦
          lower-Selects best ratio k v m (select_from best ratio ((k, v) ∷ m)) f lower
            (rw (lower, select_from) (select_from-Selects k v.miss_ratio m d))
      | inr higher ↦
          higher-Selects best ratio k v m (select_from best ratio ((k, v) ∷ m)) f higher
            (rw (higher, select_from) (select_from-Selects best ratio m d))
    ]

    selected :
        (m : Map (PolicyMetrics F))
        → Selects "" (decimal 1 0) m (select_from "" (decimal 1 0) m)
        → let best = if length m == 0 then "" else (select_from "" (decimal 1 0) m).0 in
          (NoneWithin (decimal 1 0) m × (best ≡ ""))
          ⊎ ((v : PolicyMetrics F) × (lookup best m ≡ some v)
              × (le v.miss_ratio (decimal 1 0) ≡ true)
              × IsLowest (decimal 1 0) v.miss_ratio m)
    unfolding select_from
    selected [] _ = inl (tt, refl)
    selected (e ∷ m) (inl (above, out)) =
        inl (above, rw (suc-ne-zero (length m)) (ap (λ p. p.0) out))
    selected (e ∷ m) (inr (v, found, _, within, lowest)) =
        let best : String =
          if length (e ∷ m) == 0 then "" else (select_from "" (decimal 1 0) (e ∷ m)).0 in
        let same : best ≡ (select_from "" (decimal 1 0) (e ∷ m)).0 = rw (suc-ne-zero (length m)) in
        inr (v, ap (λ q. lookup q (e ∷ m)) same ∙ found, within, lowest)

    -- If no two entries have one key: where some policy has a miss ratio of at most 1.0, the
    -- selected policy is one of those, and its miss ratio is the lowest; where none has, the
    -- selection is the empty name. This is so in whatever order the map is visited.
    pub select_best_policy_lem :
        (m : MetricsAggregator F)
        → HasDistinctKeys m.policy_metrics
        → (NoneWithin (decimal 1 0) m.policy_metrics × (select_best_policy m ≡ ""))
          ⊎ ((v : PolicyMetrics F) × (lookup (select_best_policy m) m.policy_metrics ≡ some v)
              × (le v.miss_ratio (decimal 1 0) ≡ true)
              × IsLowest (decimal 1 0) v.miss_ratio m.policy_metrics)
    unfolding select_best_policy
    select_best_policy_lem m d =
        selected m.policy_metrics (select_from-Selects "" (decimal 1 0) m.policy_metrics d)
