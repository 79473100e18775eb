-- ===== src/Adaptive/Pattern/Window.antt =====
-- The access log is the window of the accesses since the last `clear`.
use faas_provider.Prelude.{
  ℕ, zero, suc, ◌-◌, ◌<◌, ◌≡◌, refl, Bool, String, List, [], ◌∷◌, ◌++◌, arith, take_last, ℤ, pos,
  negsuc, sym, take_last-take_last, length-take_last-le, drop-length-le, ◌∙◌, slide,
}
use faas_provider.Adaptive.Pattern.{
  CacheAccess, PatternDetector, new_pattern_detector, record_access, clear, window_of,
}

-- What happens to a detector: an access, with its time, or a policy switch that clears it.
pub data Event : Type 0 where
  access : String → Bool → ℕ → Event
  cleared : Event

unfoldable pub run : List Event → PatternDetector → PatternDetector
run [] d = d
run (access k h t ∷ es) d = run es (record_access k h t d)
run (cleared ∷ es) d = run es (clear d)

-- Every access since the last `clear`, oldest first, with none dropped.
unfoldable pub history : List CacheAccess → List Event → List CacheAccess
history past [] = past
history past (access k h t ∷ es) =
    history (past ++ (record { key = k; timestamp = t; is_hit = h } ∷ [])) es
history past (cleared ∷ es) = history [] es

pub record Tracks (w : ℕ) (past : List CacheAccess) (d : PatternDetector) : Type 0 where
  pub size : d.window_size ≡ w
  pub positive : 0 < w
  pub window : d.access_log ≡ take_last w past

record_access-Tracks :
    {w : ℕ} {past : List CacheAccess} {d : PatternDetector} (k : String) (h : Bool) (t : ℕ)
    → Tracks w past d
    → Tracks w
        (past ++ (record { key = k; timestamp = t; is_hit = h } ∷ []))
        (record_access k h t d)
unfolding record_access
record_access-Tracks {w} {past} {d} k h t s =
    let a : CacheAccess = record { key = k; timestamp = t; is_hit = h } in
    record {
      size = s.size;
      positive = s.positive;
      window =
          rw (s.size, s.window)
            (slide w (take_last w past) a (length-take_last-le w past)
              ∙ take_last-take_last w past a s.positive);
    }

clear-Tracks :
    {w : ℕ} {past : List CacheAccess} {d : PatternDetector}
    → Tracks w past d
    → Tracks w [] (clear d)
unfolding clear
clear-Tracks {w} s = record {
  size = s.size;
  positive = s.positive;
  window = sym (drop-length-le (0 - w) [] (omega arith));
}

pub run-Tracks :
    (es : List Event) {w : ℕ} {past : List CacheAccess} {d : PatternDetector}
    → Tracks w past d
    → Tracks w (history past es) (run es d)
unfolding run history
run-Tracks [] s = s
run-Tracks (access k h t ∷ es) s = run-Tracks es (record_access-Tracks k h t s)
run-Tracks (cleared ∷ es) s = run-Tracks es (clear-Tracks s)

window_of_pos : (size : ℤ) → 0 < window_of size
unfolding window_of
window_of_pos (pos zero) = omega arith
window_of_pos (pos (suc n)) = omega arith
window_of_pos (negsuc n) = omega arith

pub new_pattern_detector-Tracks :
    (size : ℤ) → Tracks (new_pattern_detector size).window_size [] (new_pattern_detector size)
unfolding new_pattern_detector
new_pattern_detector-Tracks size = record {
  size = refl;
  positive = window_of_pos size;
  window = sym (drop-length-le (0 - window_of size) [] (omega arith));
}

-- From a new detector, after any accesses and clears, the log is the last `window_size` accesses
-- since the last clear, in order, and the window size is positive and never changes.
pub run-history :
    (size : ℤ) (es : List Event)
    → let d = new_pattern_detector size in
      ((run es d).access_log ≡ take_last d.window_size (history [] es))
      × ((run es d).window_size ≡ d.window_size)
      × (0 < d.window_size)
run-history size es =
    let s = run-Tracks es (new_pattern_detector-Tracks size) in (s.window, s.size, s.positive)
