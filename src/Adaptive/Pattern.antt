-- ===== src/Adaptive/Pattern.antt =====
-- pkg/adaptive/pattern.go: the sliding log of cache accesses, and the scores that are read off it.
-- A time is a number of nanoseconds. `time.Now()` is an argument. A loop over the log is a
-- recursion with the loop's variables as accumulators.
pub mod Window
pub mod Counts
pub mod Shift
pub mod Scores
mod Tests
use faas_provider.Prelude.{
  ℕ, zero, suc, ◌+◌, ◌-◌, ◌/◌, Bool, true, false, ◌||◌, Option, none, some, String, List, [], ◌∷◌,
  ◌++◌, ltb, leb, ◌==◌, if◌then◌else◌, length, take, drop, rest, Map, lookup, insert, ℤ, pos,
  negsuc,
}
use faas_provider.Float.{Float}

pub record CacheAccess : Type 0 where
  pub key : String
  pub timestamp : ℕ
  pub is_hit : Bool

pub record WorkloadPattern (F : Type 0) : Type 0 where
  pub recency_score : F
  pub frequency_score : F
  pub unique_key_ratio : F
  pub total_accesses : ℕ
  pub unique_keys : ℕ
  pub hit_rate : F

pub record PatternShift (F : Type 0) : Type 0 where
  pub detected : Bool
  pub temporal_shift : F
  pub frequency_shift : F
  pub recent_pattern : Option (WorkloadPattern F)
  pub current_pattern : Option (WorkloadPattern F)

-- The window size is positive: the constructor alone sets it.
pub record PatternDetector : Type 0 where
  pub access_log : List CacheAccess
  pub window_size : ℕ

abbrev default_window : ℕ
default_window = 1000

window_of : ℤ → ℕ
window_of (pos zero) = default_window
window_of (pos (suc n)) = suc n
window_of (negsuc n) = default_window

unfoldable pub new_pattern_detector : ℤ → PatternDetector
unfolding window_of
new_pattern_detector size = record { access_log = []; window_size = window_of size }

unfoldable pub record_access : String → Bool → ℕ → PatternDetector → PatternDetector
record_access key is_hit now d =
    let access : CacheAccess = record { key = key; timestamp = now; is_hit = is_hit } in
    let log = d.access_log ++ (access ∷ []) in
    record d { access_log = if ltb d.window_size (length log) then rest log else log }

unfoldable pub clear : PatternDetector → PatternDetector
clear d = record d { access_log = [] }

unfoldable pub get_access_log_size : PatternDetector → ℕ
get_access_log_size d = length d.access_log

-- `frequencyMap[key]++`
unfoldable pub increment : String → Map ℕ → Map ℕ
increment key m = insert key (elim (lookup key m) [ none ↦ 1 | some n ↦ n + 1 ]) m

-- The loop of `extractPattern`: the frequencies and the hits.
unfoldable pub tally : Map ℕ → ℕ → List CacheAccess → Map ℕ × ℕ
tally frequencies hits [] = (frequencies, hits)
tally frequencies hits (a ∷ as') =
    tally (increment a.key frequencies) (if a.is_hit then hits + 1 else hits) as'

-- The loop of `calculateRecencyScore`.
unfoldable pub count_hits : ℕ → List CacheAccess → ℕ
count_hits hits [] = hits
count_hits hits (a ∷ as') = count_hits (if a.is_hit then hits + 1 else hits) as'

module _ {F : Type 0} ⦃fl : Float F⦄ where
  open fl use {decimal, of_ℕ, add, sub, mul, quotient, minimum, absolute, sqrt, lt}

  abbrev pub empty_pattern : WorkloadPattern F
  empty_pattern = record {
    recency_score = decimal 0 0;
    frequency_score = decimal 0 0;
    unique_key_ratio = decimal 0 0;
    total_accesses = 0;
    unique_keys = 0;
    hit_rate = decimal 0 0;
  }

  unfoldable pub calculate_recency_score : List CacheAccess → F
  calculate_recency_score accesses =
      let n = length accesses in
      let recent_size = if ltb (n / 4) 1 then 1 else n / 4 in
      let recent = drop (n - recent_size) accesses in
      if ltb n 4 then decimal 0 0 else quotient (of_ℕ (count_hits 0 recent)) (of_ℕ (length recent))

  -- The loop over the frequencies.
  unfoldable pub squared_differences : F → F → Map ℕ → F
  squared_differences mean variance [] = variance
  squared_differences mean variance ((_, count) ∷ m) =
      let diff = sub (of_ℕ count) mean in squared_differences mean (add variance (mul diff diff)) m

  unfoldable pub calculate_frequency_score : Map ℕ → ℕ → F
  unfolding squared_differences
  calculate_frequency_score frequencies total =
      let n = length frequencies in
      let mean = quotient (of_ℕ total) (of_ℕ n) in
      let variance = quotient (squared_differences mean (decimal 0 0) frequencies) (of_ℕ n) in
      let cv = quotient (sqrt variance) mean in
      if ltb n 2 then decimal 0 0 else minimum (quotient cv (decimal 2 0)) (decimal 1 0)

  unfoldable pub extract_pattern : List CacheAccess → WorkloadPattern F
  extract_pattern [] = empty_pattern
  extract_pattern (a ∷ as') =
      let accesses = a ∷ as' in
      let (frequencies, hits) = tally [] 0 accesses in
      let n = length accesses in
      record {
        recency_score = calculate_recency_score accesses;
        frequency_score = calculate_frequency_score frequencies n;
        unique_key_ratio = quotient (of_ℕ (length frequencies)) (of_ℕ n);
        total_accesses = n;
        unique_keys = length frequencies;
        hit_rate = quotient (of_ℕ hits) (of_ℕ n);
      }

  abbrev no_shift : PatternShift F
  no_shift = record {
    detected = false;
    temporal_shift = decimal 0 0;
    frequency_shift = decimal 0 0;
    recent_pattern = none;
    current_pattern = none;
  }

  compare_patterns : WorkloadPattern F → WorkloadPattern F → PatternShift F
  compare_patterns recent current =
      let temporal = absolute (sub recent.recency_score current.recency_score) in
      let frequency = absolute (sub recent.frequency_score current.frequency_score) in
      record {
        detected = lt (decimal 10 2) temporal || lt (decimal 10 2) frequency;
        temporal_shift = temporal;
        frequency_shift = frequency;
        recent_pattern = some recent;
        current_pattern = some current;
      }

  unfoldable pub detect_shift : PatternDetector → PatternShift F
  unfolding compare_patterns
  detect_shift d =
      let log = d.access_log in
      let midpoint = length log / 2 in
      if ltb (length log) d.window_size
      then no_shift
      else compare_patterns (extract_pattern (take midpoint log))
          (extract_pattern (drop midpoint log))

  unfoldable pub get_current_pattern : PatternDetector → WorkloadPattern F
  get_current_pattern d = extract_pattern d.access_log
