-- ===== src/Adaptive/Pattern/Scores.antt =====
-- The scores of a pattern, and the shifts of two, stay in their ranges.
use faas_provider.Prelude.{
  ℕ, ◌+◌, ◌-◌, ◌/◌, ◌^◌, ◌≤◌, ◌<◌, ◌≡◌, false, List, [], ◌∷◌, Map, arith, length, drop, length-drop,
  ltb, if◌then◌else◌, Bool-cases, inl, inr,
}
use faas_provider.Float.{Float, IsOrdered, IsRounded, IsRatio, NotNegative}
use faas_provider.Adaptive.Pattern.{
  CacheAccess, tally, count_hits, squared_differences, calculate_recency_score,
  calculate_frequency_score, extract_pattern,
}
use faas_provider.Adaptive.Pattern.Counts.{hits_of-le, tally_lem, length-le-sum_counts}

count_hits_lem :
    (hits : ℕ) (accesses : List CacheAccess) → count_hits hits accesses ≤ hits + length accesses
unfolding count_hits
count_hits_lem hits [] = omega arith
count_hits_lem hits (a ∷ as') =
    ground (arith, count_hits_lem (if a.is_hit then hits + 1 else hits) as')

module _ {F : Type 0} ⦃fl : Float F⦄ where
  open fl use {decimal, of_ℕ, quotient, lt, sub, mul, add, sqrt, minimum}

  -- Neither below 0 nor above 1.
  abbrev pub IsScore : F → Type 0
  IsScore x = NotNegative x × (lt (decimal 1 0) x ≡ false)

  module _ (ordered : IsOrdered F) (rounded : IsRounded F) (ratios : IsRatio F) where
    zero-IsScore : IsScore (decimal 0 0)
    zero-IsScore = (
      ordered.lt_irrefl (decimal 0 0),
      ordered.not-lt_of_le (decimal 0 0) (decimal 1 0) (ordered.decimal_mono 0 0 1 0 (omega arith)),
    )

    ratio-IsScore : (m n : ℕ) → m ≤ n → 0 < n → IsScore (quotient (of_ℕ m) (of_ℕ n))
    ratio-IsScore m n h p = (
      rounded.quotient_not_negative _ _ (rounded.of_ℕ_not_negative m) (rounded.of_ℕ_pos n p),
      ratios.ratio_not_above m n h p,
    )

    calculate_recency_score-IsScore :
        (accesses : List CacheAccess) → IsScore (calculate_recency_score accesses)
    unfolding calculate_recency_score
    calculate_recency_score-IsScore accesses =
        let n = length accesses in
        let size = if ltb (n / 4) 1 then 1 else n / 4 in
        let recent = drop (n - size) accesses in
        elim (Bool-cases (ltb n 4)) [
          | inl few ↦ rw (few, calculate_recency_score) zero-IsScore
          | inr many ↦
              rw (many, calculate_recency_score)
                (ratio-IsScore (count_hits 0 recent) (length recent)
                  (omega (arith, count_hits_lem 0 recent))
                  (ground (arith, many, length-drop (n - size) accesses)))
        ]

    squared_differences-NotNegative :
        (mean variance : F) (m : Map ℕ)
        → NotNegative variance
        → NotNegative (squared_differences mean variance m)
    unfolding squared_differences
    squared_differences-NotNegative mean variance [] h = h
    squared_differences-NotNegative mean variance ((k, count) ∷ m) h =
        let diff = sub (of_ℕ count) mean in
        squared_differences-NotNegative mean (add variance (mul diff diff)) m
          (rounded.add_not_negative _ _ h (ratios.square_not_negative diff))

    calculate_frequency_score-IsScore :
        (frequencies : Map ℕ) (total : ℕ)
        → length frequencies ≤ total
        → total < 2 ^ 64
        → IsScore (calculate_frequency_score frequencies total)
    unfolding calculate_frequency_score
    calculate_frequency_score-IsScore frequencies total fewer fits =
        let n = length frequencies in
        let mean = quotient (of_ℕ total) (of_ℕ n) in
        let squares = squared_differences mean (decimal 0 0) frequencies in
        elim (Bool-cases (ltb n 2)) [
          | inl few ↦ rw (few, calculate_frequency_score) zero-IsScore
          | inr many ↦
              let some_keys : 0 < n = ground (arith, many) in
              let variance =
                rounded.quotient_not_negative squares (of_ℕ n)
                  (squared_differences-NotNegative mean (decimal 0 0) frequencies zero-IsScore.0)
                  (rounded.of_ℕ_pos n some_keys) in
              let cv =
                rounded.quotient_not_negative _ mean (ratios.sqrt_not_negative _ variance)
                  (ratios.ratio_pos total n some_keys fewer fits) in
              let half =
                rounded.quotient_not_negative _ (decimal 2 0) cv
                  (rounded.whole_pos 2 (omega arith)) in
              rw (many, calculate_frequency_score)
                (
                  rounded.minimum_not_negative _ _ half
                      (ordered.not-lt_of_le _ _ (ordered.decimal_mono 0 0 1 0 (omega arith))),
                  (rounded.minimum_not_above _ _).1,
                )
        ]

    -- Of fewer than 2^64 accesses, the pattern's recency score, its frequency score, its ratio of
    -- unique keys and its hit rate are each not below 0 and not above 1.
    pub extract_pattern_bounds :
        (accesses : List CacheAccess)
        → length accesses < 2 ^ 64
        → let p = extract_pattern {F = F} accesses in
          IsScore p.recency_score
          × IsScore p.frequency_score
          × IsScore p.unique_key_ratio
          × IsScore p.hit_rate
    unfolding extract_pattern
    extract_pattern_bounds [] fits = (zero-IsScore, zero-IsScore, zero-IsScore, zero-IsScore)
    extract_pattern_bounds (a ∷ as') fits =
        let accesses = a ∷ as' in
        let frequencies = (tally [] 0 accesses).0 in
        let (_, _, counted, total, hits) = tally_lem accesses in
        let fewer : length frequencies ≤ length accesses =
          omega (arith, total, length-le-sum_counts frequencies counted) in
        (
          calculate_recency_score-IsScore accesses,
          calculate_frequency_score-IsScore frequencies (length accesses) fewer fits,
          ratio-IsScore (length frequencies) (length accesses) fewer (omega arith),
          ratio-IsScore (tally [] 0 accesses).1 (length accesses)
              (omega (arith, hits, hits_of-le accesses)) (omega arith),
        )
