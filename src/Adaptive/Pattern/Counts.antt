-- ===== src/Adaptive/Pattern/Counts.antt =====
-- What the counting loops of the pattern extraction compute.
use faas_provider.Prelude.{
  ℕ, suc, ◌+◌, ◌≤◌, ◌<◌, ◌≡◌, refl, none, some, String, List, [], ◌∷◌, arith, eq_iff, str_eq,
  if◌then◌else◌, length, Map, lookup, insert, HasDistinctKeys, lookup-insert,
  insert-HasDistinctKeys, All, All-insert,
}
use faas_provider.Float.{Float}
use faas_provider.Adaptive.Pattern.{CacheAccess, increment, tally, count_hits, extract_pattern}

-- How often a key was accessed, and how many accesses were hits.
unfoldable pub occurrences : String → List CacheAccess → ℕ
occurrences k [] = 0
occurrences k (a ∷ as') = (if str_eq a.key k then 1 else 0) + occurrences k as'

unfoldable pub hits_of : List CacheAccess → ℕ
hits_of [] = 0
hits_of (a ∷ as') = (if a.is_hit then 1 else 0) + hits_of as'

-- The count that a frequency map holds for a key.
abbrev pub count_of : String → Map ℕ → ℕ
count_of k m = elim (lookup k m) [ none ↦ 0 | some n ↦ n ]

unfoldable pub sum_counts : Map ℕ → ℕ
sum_counts [] = 0
sum_counts ((_, n) ∷ m) = n + sum_counts m

count_of-increment :
    (i k : String) (m : Map ℕ)
    → count_of k (increment i m) ≡ (if str_eq i k then 1 else 0) + count_of k m
unfolding increment
count_of-increment i k m =
    ground
      (arith, eq_iff i k, lookup-insert i k (elim (lookup i m) [ none ↦ 1 | some n ↦ n + 1 ]) m)

sum_counts-insert :
    (k : String) (n : ℕ) (m : Map ℕ) → sum_counts (insert k n m) + count_of k m ≡ sum_counts m + n
unfolding sum_counts lookup insert
sum_counts-insert k n [] = omega arith
sum_counts-insert k n ((j, c) ∷ m) = ground (arith, sum_counts-insert k n m)

sum_counts-increment : (k : String) (m : Map ℕ) → sum_counts (increment k m) ≡ suc (sum_counts m)
unfolding increment
sum_counts-increment k m =
    ground (arith, sum_counts-insert k (elim (lookup k m) [ none ↦ 1 | some n ↦ n + 1 ]) m)

abbrev pub AllPositive : Map ℕ → Type 0
AllPositive = All (λ e. 0 < e.1)

increment-AllPositive : (k : String) (m : Map ℕ) → AllPositive m → AllPositive (increment k m)
unfolding increment
increment-AllPositive k m h = All-insert (λ e. 0 < e.1) k _ m (λ j _. ground arith) h

pub length-le-sum_counts : (m : Map ℕ) → AllPositive m → length m ≤ sum_counts m
unfolding sum_counts
length-le-sum_counts [] h = omega arith
length-le-sum_counts ((k, n) ∷ m) h = omega (arith, length-le-sum_counts m h.1)

increment-HasDistinctKeys :
    (k : String) (m : Map ℕ) → HasDistinctKeys m → HasDistinctKeys (increment k m)
unfolding increment
increment-HasDistinctKeys k m d = insert-HasDistinctKeys k _ m d

-- The loop's invariant, from any frequencies and hits.
pub record IsTally (m : Map ℕ) (h : ℕ) (accesses : List CacheAccess) (out : Map ℕ × ℕ)
    : Type 0 where
  pub counts : (k : String) → count_of k out.0 ≡ count_of k m + occurrences k accesses
  pub total : sum_counts out.0 ≡ sum_counts m + length accesses
  pub hits : out.1 ≡ h + hits_of accesses
  pub distinct : HasDistinctKeys m → HasDistinctKeys out.0
  pub counted : AllPositive m → AllPositive out.0

tally-IsTally :
    (m : Map ℕ) (h : ℕ) (accesses : List CacheAccess) → IsTally m h accesses (tally m h accesses)
unfolding tally occurrences hits_of
tally-IsTally m h [] = record {
  counts = λ k. omega arith;
  total = omega arith;
  hits = omega arith;
  distinct = λ d. d;
  counted = λ d. d;
}
tally-IsTally m h (a ∷ as') =
    let r = tally-IsTally (increment a.key m) (if a.is_hit then h + 1 else h) as' in
    record {
      counts = λ k. omega (arith, r.counts k, count_of-increment a.key k m);
      total = omega (arith, r.total, sum_counts-increment a.key m);
      hits = ground (arith, r.hits);
      distinct = λ d. r.distinct (increment-HasDistinctKeys a.key m d);
      counted = λ d. r.counted (increment-AllPositive a.key m d);
    }

count_hits_lem :
    (h : ℕ) (accesses : List CacheAccess) → count_hits h accesses ≡ h + hits_of accesses
unfolding count_hits hits_of
count_hits_lem h [] = omega arith
count_hits_lem h (a ∷ as') = ground (arith, count_hits_lem (if a.is_hit then h + 1 else h) as')

pub hits_of-le : (accesses : List CacheAccess) → hits_of accesses ≤ length accesses
unfolding hits_of
hits_of-le [] = omega arith
hits_of-le (a ∷ as') = ground (arith, hits_of-le as')

-- The counting loop, from an empty map, gives each key its number of occurrences, holds no key
-- twice and no key that did not occur, its counts add up to the number of accesses, and the hits
-- are the accesses that hit.
pub tally_lem :
    (accesses : List CacheAccess)
    → let out = tally [] 0 accesses in
      ((k : String) → count_of k out.0 ≡ occurrences k accesses)
      × HasDistinctKeys out.0
      × AllPositive out.0
      × (sum_counts out.0 ≡ length accesses)
      × (out.1 ≡ hits_of accesses)
unfolding sum_counts lookup
tally_lem accesses =
    let r = tally-IsTally [] 0 accesses in
    (
      λ k. omega (arith, r.counts k),
      r.distinct tt,
      r.counted tt,
      omega (arith, r.total),
      omega (arith, r.hits),
    )

pub positive_of_sum : (m : Map ℕ) → 0 < sum_counts m → 0 < length m
unfolding sum_counts
positive_of_sum [] h = h
positive_of_sum (e ∷ m) h = omega arith

module _ {F : Type 0} ⦃fl : Float F⦄ where
  open fl use {of_ℕ, quotient}

  -- A pattern counts all its accesses; it has at least one key, and at most as many as accesses;
  -- its hit rate is the quotient of the hits and the accesses, of which there are no fewer.
  pub extract_pattern_counts :
      (accesses : List CacheAccess)
      → 0 < length accesses
      → let p = extract_pattern {F = F} accesses in
        (p.total_accesses ≡ length accesses)
        × (0 < p.unique_keys)
        × (p.unique_keys ≤ p.total_accesses)
        × (p.hit_rate ≡ quotient (of_ℕ (hits_of accesses)) (of_ℕ (length accesses)))
        × (hits_of accesses ≤ length accesses)
  unfolding extract_pattern
  extract_pattern_counts [] h = elim h [ ]
  extract_pattern_counts (a ∷ as') h =
      let (_, _, counted, total, hits) = tally_lem (a ∷ as') in
      let freqs = (tally [] 0 (a ∷ as')).0 in
      (
        refl,
        positive_of_sum freqs (omega arith),
        omega (arith, length-le-sum_counts freqs counted),
        rw hits,
        hits_of-le (a ∷ as'),
      )
