-- ===== src/Adaptive/Pattern/Tests.antt =====
-- The pattern detector on small logs.
use faas_provider.Prelude.{
  ◌≤◌, ◌<◌, ◌/◌, ◌↔◌, length, ◌≡◌, refl, true, false, List, [], ◌∷◌, take, drop, take_last, pos,
  negsuc, ◌⊎◌, String, lookup, insert,
}
use faas_provider.Float.{Decimal, decimal_float, operations}
use faas_provider.Prelude.{arith}
use faas_provider.Adaptive.Pattern.Scores.{IsScore, extract_pattern_bounds}
use faas_provider.Float.{Decimal-IsOrdered, Decimal-IsRounded, Decimal-IsRatio}
use faas_provider.Adaptive.Pattern.{
  CacheAccess, PatternDetector, new_pattern_detector, record_access, clear, tally, increment,
  extract_pattern, detect_shift, calculate_recency_score, calculate_frequency_score,
  squared_differences, count_hits,
}
use faas_provider.Adaptive.Pattern.Window.{Event, access, cleared, run, history, run-history}
use faas_provider.Adaptive.Pattern.Shift.{Differs, detect_shift-history}

program : Unit {0}
unfolding new_pattern_detector record_access clear tally increment extract_pattern detect_shift
    calculate_recency_score calculate_frequency_score squared_differences count_hits run history
    lookup insert operations
program = tt

abbrev hit : String → CacheAccess
hit k = record { key = k; timestamp = 0; is_hit = true }

abbrev miss : String → CacheAccess
miss k = record { key = k; timestamp = 0; is_hit = false }

abbrev events : List Event
events =
    access "a" true 1 ∷ cleared ∷ access "b" true 2 ∷ access "c" false 3 ∷ access "b" true 4 ∷ []

slides :
    (run events (new_pattern_detector (pos 2))).access_log
    ≡ record { key = "c"; timestamp = 3; is_hit = false }
      ∷ record { key = "b"; timestamp = 4; is_hit = true }
      ∷ []
unfolding program
slides = refl

default_size : (new_pattern_detector (negsuc 4)).window_size ≡ 1000
unfolding program
default_size = refl

run-history_example :
    let d = new_pattern_detector (pos 2) in
    ((run events d).access_log ≡ take_last d.window_size (history [] events))
    × ((run events d).window_size ≡ d.window_size)
    × (0 < d.window_size)
run-history_example = run-history (pos 2) events

abbrev some_accesses : List CacheAccess
some_accesses = hit "x" ∷ miss "y" ∷ hit "x" ∷ []

abbrev changed : PatternDetector
changed = record {
  access_log =
      miss "a" ∷ miss "b" ∷ miss "c" ∷ miss "d" ∷ hit "a" ∷ hit "a" ∷ hit "b" ∷ hit "b" ∷ [];
  window_size = 8;
}

-- Four misses and four hits, after an access that a clear forgets.
abbrev changes : List Event
changes =
    access "z" true 0
    ∷ cleared
    ∷ access "a" false 0
    ∷ access "b" false 0
    ∷ access "c" false 0
    ∷ access "d" false 0
    ∷ access "a" true 0
    ∷ access "a" true 0
    ∷ access "b" true 0
    ∷ access "b" true 0
    ∷ []

detects : (detect_shift {F = Decimal} (run changes (new_pattern_detector (pos 8)))).detected ≡ true
unfolding program
detects = refl

detect_shift-history_example :
    let w = (new_pattern_detector (pos 8)).window_size in
    let past = history [] changes in
    let before = extract_pattern {F = Decimal} (take (w / 2) (take_last w past)) in
    let after = extract_pattern {F = Decimal} (drop (w / 2) (take_last w past)) in
    ((detect_shift {F = Decimal} (run changes (new_pattern_detector (pos 8)))).detected ≡ true) ↔ (
      (w ≤ length past)
      × (Differs Decimal before.recency_score after.recency_score
          ⊎ Differs Decimal before.frequency_score after.frequency_score))
detect_shift-history_example = detect_shift-history Decimal (pos 8) changes

extract_pattern_bounds_example :
    let p = extract_pattern {F = Decimal} changed.access_log in
    IsScore p.recency_score
    × IsScore p.frequency_score
    × IsScore p.unique_key_ratio
    × IsScore p.hit_rate
extract_pattern_bounds_example =
    extract_pattern_bounds Decimal-IsOrdered Decimal-IsRounded Decimal-IsRatio changed.access_log
      (omega arith)
