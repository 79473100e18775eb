-- ===== src/Adaptive/Pattern/Shift.antt =====
-- When a shift of the pattern is reported.
use native.Mathlib.Decide.{dec_le}
use faas_provider.Prelude.{
  ◌||◌, ℤ, ◌-◌, ◌↔◌, take_last, length-drop, ℕ, ◌+◌, ◌/◌, ◌≤◌, ◌<◌, ◌≡◌, Bool, true, false, List,
  [], ◌∷◌, arith, length, take, drop, length-append, ◌⊎◌, String, ◌++◌, length-rest,
}
use faas_provider.Float.{Float}
use faas_provider.Adaptive.Pattern.{
  new_pattern_detector, PatternDetector, CacheAccess, record_access, clear, detect_shift,
  extract_pattern,
}
use faas_provider.Adaptive.Pattern.Window.{history, run-history, Event, access, cleared, run}

length-record_access-le :
    (k : String) (h : Bool) (t : ℕ) (d : PatternDetector)
    → (length (record_access k h t d).access_log ≤ length d.access_log + 1)
      × ((record_access k h t d).window_size ≡ d.window_size)
unfolding record_access
length-record_access-le k h t d =
    let a : CacheAccess = record { key = k; timestamp = t; is_hit = h } in
    ground (arith, length-append d.access_log (a ∷ []), length-rest (d.access_log ++ (a ∷ [])))

length-run-le :
    (es : List Event) (d : PatternDetector)
    → (length (run es d).access_log ≤ length d.access_log + length es)
      × ((run es d).window_size ≡ d.window_size)
unfolding run record_access clear
length-run-le [] d = omega arith
length-run-le (access k h t ∷ es) d =
    omega (arith, length-run-le es (record_access k h t d), length-record_access-le k h t d)
length-run-le (cleared ∷ es) d = omega (arith, length-run-le es (clear d))

module _ (F : Type 0) ⦃fl : Float F⦄ where
  open fl use {decimal, lt, absolute, sub}

  -- After a clear no shift is reported until as many accesses as the window size have been recorded.
  pub detect_shift-clear :
      (d : PatternDetector) (es : List Event)
      → length es < d.window_size
      → (detect_shift {F = F} (run es (clear d))).detected ≡ false
  unfolding detect_shift clear
  detect_shift-clear d es h = ground (arith, length-run-le es (clear d))

  -- Two scores differ by more than 0.10.
  abbrev pub Differs : F → F → Type 0
  Differs x y = lt (decimal 10 2) (absolute (sub x y)) ≡ true

  detect_shift-full :
      (d : PatternDetector) (w : ℕ) (log : List CacheAccess)
      → d.access_log ≡ log
      → d.window_size ≡ w
      → length log ≡ w
      → let before = extract_pattern {F = F} (take (w / 2) log) in
        let after = extract_pattern {F = F} (drop (w / 2) log) in
        (detect_shift {F = F} d).detected ≡ (
          lt (decimal 10 2) (absolute (sub before.recency_score after.recency_score))
          || lt (decimal 10 2) (absolute (sub before.frequency_score after.frequency_score)))
  unfolding detect_shift
  detect_shift-full d w log is size full = ground (arith, is, size, full)

  detect_shift-few :
      (d : PatternDetector)
      → length d.access_log < d.window_size
      → (detect_shift {F = F} d).detected ≡ false
  unfolding detect_shift
  detect_shift-few d few = ground arith

  -- From a new detector, after any accesses and clears: a shift is reported exactly when there have
  -- been as many accesses since the last clear as the window size, and of the last of them that fill
  -- the window the first half, its length rounded down, and the rest differ by more than 0.10 in the
  -- recency or in the frequency score.
  pub detect_shift-history :
      (size : ℤ) (es : List Event)
      → let w = (new_pattern_detector size).window_size in
        let past = history [] es in
        let before = extract_pattern {F = F} (take (w / 2) (take_last w past)) in
        let after = extract_pattern {F = F} (drop (w / 2) (take_last w past)) in
        ((detect_shift {F = F} (run es (new_pattern_detector size))).detected ≡ true) ↔ (
          (w ≤ length past)
          × (Differs before.recency_score after.recency_score
              ⊎ Differs before.frequency_score after.frequency_score))
  detect_shift-history size es =
      let d = run es (new_pattern_detector size) in
      let w = (new_pattern_detector size).window_size in
      let past = history [] es in
      let (window, same, _) = run-history size es in
      let long = length-drop (length past - w) past in
      elim (dec_le w (length past)) [
        | yes enough ↦
            let e =
              detect_shift-full d w (take_last w past) window same (omega (arith, long, enough)) in
            (λ h. (enough, ground (arith, h, e)), λ h. ground (arith, h.1, e))
        | no few ↦
            let short : length d.access_log < d.window_size =
              rw (window, same) (omega (arith, long, few)) in
            (λ h. absurd (ground (arith, h, detect_shift-few d short)), λ h. absurd (few h.0))
      ]
