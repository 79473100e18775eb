-- ===== src/Proxy/Cache/Expiry.antt =====
-- What a flow stores with a PaperCache server, and for how long.
use faas_provider.Prelude.{
  ℕ, ◌*◌, ◌^◌, ◌<◌, ◌≡◌, inl, inr, ap, ◌∙◌, arith, Bool, Option, none, some, String, Map, insert,
  pos, ok, Option-cases,
}
use faas_provider.Config.{wrap_int64, second}
use faas_provider.Proxy.Flow.{Flow, Json, Reply, Run, next, named, cache_key}
use faas_provider.Proxy.Flow.Handler.{store}
use faas_provider.Proxy.Flow.Caching.{IsCache}
use faas_provider.Proxy.Cache.{PaperClient, paper_get, paper_services, present}

-- A whole number of seconds that fits into a uint32 is that number, and the server gives back what
-- it has accepted.
pub record IsPaper {S : Type 0} (client : PaperClient S) : Type 0 where
  pub whole : (n : ℕ) → n < 2 ^ 32 → client.seconds (pos (n * second)) ≡ n
  pub get-set :
      (key bytes : String) (ttl : ℕ) (s : S)
      → (client.set key bytes ttl s).0 ≡ none
      → (client.get key (client.set key bytes ttl s).1).0 ≡ ok bytes

wrap_int64-small : (n : ℕ) → n < 2 ^ 32 → wrap_int64 (n * second) ≡ pos (n * second)
wrap_int64-small n fits = ground arith

module _ {S : Type 0} (is_url : String → Bool) (post : String → String → S → Option Reply × S)
    (client : PaperClient S) (laws : IsPaper client) where
  pub paper_services-IsCache : IsCache (paper_services is_url post client)
  unfolding paper_services
  paper_services-IsCache = record {
    get-set_ex = λ key bytes ttl s accepted. ap present (laws.get-set key bytes _ s accepted);
  }

  -- If the time to live of a flow, in seconds, fits into a uint32, and its answer is stored without
  -- an error, then the server was sent the answer with exactly that time, under the key of the
  -- arguments with the flow's name in them, and nothing else has changed; and what the client then
  -- gets under that key is the answer.
  pub store-paper_set_ex :
      {F V : Type 0} (j : Json V) (name : String) (args : Map V) (flow : Flow) (bytes : String)
      (run run' : Run F S)
      → flow.cache_ttl < 2 ^ 32
      → store j (paper_services is_url post client) name (some args) flow (some bytes) run
        ≡ (next tt, run')
      → let key = cache_key j (insert "openfaas_flow_function_name" (j.string name) args) in
        (run' ≡ record run { world = (client.set key bytes flow.cache_ttl run.world).1 })
        × ((paper_get client key run'.world).0 ≡ ok (some bytes))
  unfolding store named paper_services
  store-paper_set_ex j name args flow bytes run run' fits stored =
      let key = cache_key j (insert "openfaas_flow_function_name" (j.string name) args) in
      let whole : client.seconds (wrap_int64 (flow.cache_ttl * second)) ≡ flow.cache_ttl =
        ap client.seconds (wrap_int64-small flow.cache_ttl fits) ∙ laws.whole flow.cache_ttl fits in
      elim (Option-cases (client.set key bytes flow.cache_ttl run.world).0) [
        | inr (e, refused) ↦ absurd (ground (arith, stored, whole, refused))
        | inl accepted ↦
            let got = laws.get-set key bytes flow.cache_ttl run.world accepted in
            let changed : run'
                ≡ record run { world = (client.set key bytes flow.cache_ttl run.world).1 } =
              ground (arith, stored, whole, accepted) in
            (changed, rw changed (ap present got))
      ]
