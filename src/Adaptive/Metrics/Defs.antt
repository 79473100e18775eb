-- ===== src/Adaptive/Metrics/Defs.antt =====
-- The aggregator's state, and the operations that make no call of the client. The copies that the
-- code makes of an entry are the entry itself here, where values are not shared.
use faas_provider.Prelude.{
  ℕ, ◌+◌, Bool, Option, none, some, String, List, [], ◌∷◌, ◌++◌, ltb, ◌==◌, if◌then◌else◌, length,
  last?, rest, Map, lookup, insert,
}
use faas_provider.Float.{Float}
use faas_provider.Adaptive.Client.{PaperStatus}

pub record PolicyMetrics (F : Type 0) : Type 0 where
  pub name : String
  pub miss_ratio : F
  pub hit_ratio : F
  pub last_updated : ℕ
  pub sample_count : ℕ

pub record MetricsSnapshot (F : Type 0) : Type 0 where
  pub timestamp : ℕ
  pub current_policy : String
  pub miss_ratio : F
  pub cache_size : ℕ
  pub used_size : ℕ
  pub num_objects : ℕ
  pub total_gets : ℕ
  pub total_sets : ℕ

pub record AggregatedMetrics (F : Type 0) : Type 0 where
  pub current_policy : String
  pub current_policy_miss_ratio : F
  pub all_policies_metrics : Map (PolicyMetrics F)
  pub cache_size : ℕ
  pub history : List (MetricsSnapshot F)
  pub is_complete : Bool

pub record MetricsAggregator (F : Type 0) : Type 0 where
  pub policy_metrics : Map (PolicyMetrics F)
  pub history : List (MetricsSnapshot F)
  pub max_history_size : ℕ
  pub configured_policies : List String

unfoldable pub new_metrics_aggregator : {F : Type 0} → MetricsAggregator F
new_metrics_aggregator = record {
  policy_metrics = [];
  history = [];
  max_history_size = 10;
  configured_policies = [];
}

module _ {F : Type 0} where
  unfoldable pub get_policy_metrics : String → MetricsAggregator F → Option (PolicyMetrics F)
  get_policy_metrics name m = lookup name m.policy_metrics

  unfoldable pub get_history : MetricsAggregator F → List (MetricsSnapshot F)
  get_history m = m.history

  unfoldable pub get_latest_snapshot : MetricsAggregator F → Option (MetricsSnapshot F)
  get_latest_snapshot m = last? m.history

  unfoldable pub is_data_complete : MetricsAggregator F → Bool
  is_data_complete m = length m.policy_metrics == length m.configured_policies

  unfoldable pub get_configured_policies : MetricsAggregator F → List String
  get_configured_policies m = m.configured_policies

  unfoldable pub snapshot_of : PaperStatus F → ℕ → MetricsSnapshot F
  snapshot_of st now = record {
    timestamp = now;
    current_policy = st.policy;
    miss_ratio = st.miss_ratio;
    cache_size = st.max_size;
    used_size = st.used_size;
    num_objects = st.num_objects;
    total_gets = st.total_gets;
    total_sets = st.total_sets;
  }

  -- The append of a snapshot, and the trim that follows it.
  unfoldable pub append_history : MetricsSnapshot F → MetricsAggregator F → MetricsAggregator F
  append_history snapshot m =
      let longer = m.history ++ (snapshot ∷ []) in
      record m { history = if ltb m.max_history_size (length longer) then rest longer else longer }

  -- The loop that copies the entries into a new map.
  unfoldable pub copy_metrics :
      Map (PolicyMetrics F) → Map (PolicyMetrics F) → Map (PolicyMetrics F)
  copy_metrics copied [] = copied
  copy_metrics copied ((k, v) ∷ m) = copy_metrics (insert k v copied) m

module _ {F : Type 0} ⦃fl : Float F⦄ where
  open fl use {decimal, sub, le}

  -- The entry that replaces `existing`, or is made where there is none.
  unfoldable pub updated_metrics :
      String → PaperStatus F → ℕ → Option (PolicyMetrics F) → PolicyMetrics F
  updated_metrics name st now none = record {
    name = name;
    miss_ratio = st.miss_ratio;
    hit_ratio = sub (decimal 1 0) st.miss_ratio;
    last_updated = now;
    sample_count = 1;
  }
  updated_metrics name st now (some existing) = record existing {
    miss_ratio = st.miss_ratio;
    hit_ratio = sub (decimal 1 0) st.miss_ratio;
    last_updated = now;
    sample_count = existing.sample_count + 1;
  }

  unfoldable pub put_metrics :
      String → PaperStatus F → ℕ → MetricsAggregator F → MetricsAggregator F
  put_metrics name st now m = record m {
    policy_metrics =
        insert name (updated_metrics name st now (lookup name m.policy_metrics)) m.policy_metrics;
  }

  unfoldable pub build_aggregated_metrics : MetricsAggregator F → AggregatedMetrics F
  unfolding copy_metrics
  build_aggregated_metrics m =
      let blank : AggregatedMetrics F = record {
        current_policy = "";
        current_policy_miss_ratio = decimal 0 0;
        all_policies_metrics = copy_metrics [] m.policy_metrics;
        cache_size = 0;
        history = m.history;
        is_complete = length m.policy_metrics == length m.configured_policies;
      } in
      elim (last? m.history) [
        | none ↦ blank
        | some latest ↦ record blank {
          current_policy = latest.current_policy;
          current_policy_miss_ratio = latest.miss_ratio;
          cache_size = latest.cache_size;
        }
      ]

  unfoldable pub get_aggregated_metrics : MetricsAggregator F → AggregatedMetrics F
  unfolding build_aggregated_metrics
  get_aggregated_metrics m = build_aggregated_metrics m

  -- The loop of `SelectBestPolicy`: the best policy so far, and its miss ratio.
  unfoldable pub select_from : String → F → Map (PolicyMetrics F) → String × F
  select_from best ratio [] = (best, ratio)
  select_from best ratio ((name, v) ∷ m) =
      let lower = le v.miss_ratio ratio in
      select_from (if lower then name else best) (if lower then v.miss_ratio else ratio) m

  unfoldable pub select_best_policy : MetricsAggregator F → String
  unfolding select_from
  select_best_policy m =
      if length m.policy_metrics == 0 then "" else (select_from "" (decimal 1 0) m.policy_metrics).0
