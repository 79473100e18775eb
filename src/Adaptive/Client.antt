-- ===== src/Adaptive/Client.antt =====
-- What pkg/adaptive calls and does not implement: the PaperCache client of the vendored
-- paper-client-go, and the clock. Both are fields of one interface over a state that stands for
-- the cache server and the time; every call may change that state in any way.
use faas_provider.Prelude.{ℕ, Option, String, List, Error, Result}

-- What the getters of `*paperClient.PaperStatus` return.
pub record PaperStatus (F : Type 0) : Type 0 where
  pub policies : List String
  pub policy : String
  pub miss_ratio : F
  pub max_size : ℕ
  pub used_size : ℕ
  pub num_objects : ℕ
  pub total_gets : ℕ
  pub total_sets : ℕ

-- `status` and `set_policy` are `PaperClient.Status` and `PaperClient.Policy`, whose nil error is
-- `none`; `now` is `time.Now()` in nanoseconds and `sleep` is `time.Sleep`.
pub record World (F S : Type 0) : Type 0 where
  pub status : S → Result (PaperStatus F) × S
  pub set_policy : String → S → Option Error × S
  pub now : S → ℕ × S
  pub sleep : ℕ → S → S
