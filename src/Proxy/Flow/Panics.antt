-- ===== src/Proxy/Flow/Panics.antt =====
-- Where a cached flow's handler panics.
use faas_provider.Prelude.{
  eq_iff, ◌≡◌, ◌≢◌, inl, inr, refl, ◌∙◌, ap, ◌&&◌, true, false, none, some, String, [], Map, lookup,
  insert, str_eq, ok, err, Error, Option-cases, arith,
}
use faas_provider.Float.{Float}
use faas_provider.Adaptive.Client.{World}
use faas_provider.Config.{FaasConfig}
use faas_provider.Http.{Request, text_of}
use faas_provider.Proxy.Request.{Urls}
use faas_provider.Proxy.Forward.{Network, proxy_request, forward}
use faas_provider.Proxy.Flow.{
  Flow, FlowInput, Json, Services, Run, next, panicked, named, cache_key,
}
use faas_provider.Proxy.Flow.Handler.{store, call_children, try_cache, run_flow, flow_handler}
use faas_provider.Proxy.Flow.Caching.{flow_handler-cached_run}

module _ {F S V : Type 0} (j : Json V) (services : Services S) ⦃fl : Float F⦄ ⦃w : World F S⦄
    (u : Urls) (net : Network S) (config : FaasConfig F) (flows : Map Flow) where
  -- Whatever the cache, the resolver knows no address for the name.
  abbrev pub IsUnresolved : String → Type 0
  IsUnresolved name = (s : S) → (e : Error) × ((net.resolve name s).0 ≡ err e)

  unresolved :
      (name : String) (r : Request) (run : Run F S)
      → IsUnresolved name
      → text_of "name" r.vars ≡ name
      → (proxy_request u net true r run.response run.world).0 ≡ none
  unfolding proxy_request forward
  unresolved name r run unknown is = let (e, failed) = unknown run.world in ground (arith, failed)

  run_flow-unresolved :
      (name : String) (flow : Flow) (r : Request) (args : Map V) (run : Run F S)
      → IsUnresolved name
      → text_of "name" r.vars ≡ name
      → flow.children ≡ []
      → (run_flow j services u net config flows true name flow r (some args) run).0 ≡ panicked
  unfolding run_flow call_children store named
  run_flow-unresolved name flow r args run unknown is childless =
      let input : FlowInput V = record { args = some args; children = [] } in
      let r1 = record r { body = some (j.encode_input input) } in
      rw (childless, unresolved name r1 run unknown is, run_flow) refl

  try_cache-miss :
      (name : String) (m : Map V) (run : Run F S) (e : Error)
      → (services.get
          (cache_key j (insert "openfaas_flow_function_name" (j.string name) m))
          run.world).0
        ≡ err e
      → (try_cache j services name (some m) run).0
        ≡ next (some (insert "openfaas_flow_function_name" (j.string name) m))
  unfolding try_cache named
  try_cache-miss name m run e miss = elim (Option-cases run.orchestrator) [
    | inl n ↦ ground arith
    | inr (o, n) ↦ ground arith
  ]

  -- The handler panics on a request of a known cached flow without children that the cache does not
  -- hold, where the resolver has no address for the function: there is no answer to read for the
  -- cache.
  pub flow_handler-unresolved :
      (r : Request) (flow : Flow) (text : String) (m : Map V) (run : Run F S) (e : Error)
      → (config.enable_caching && flow.caching) ≡ true
      → flow.children ≡ []
      → text_of "name" r.vars ≢ ""
      → lookup (text_of "name" r.vars) flows ≡ some flow
      → r.body ≡ some text
      → j.decode text ≡ ok (some m)
      → (services.get
          (cache_key j (insert "openfaas_flow_function_name" (j.string (text_of "name" r.vars)) m))
          run.world).0
        ≡ err e
      → IsUnresolved (text_of "name" r.vars)
      → (flow_handler j services u net config flows r run).0 ≡ panicked
  unfolding try_cache
  flow_handler-unresolved r flow text m run e caching childless given known body dec miss unknown =
      let name = text_of "name" r.vars in
      let full = insert "openfaas_flow_function_name" (j.string name) m in
      let is_given : str_eq name "" ≡ false = ground (arith, given, eq_iff name "") in
      let missed = try_cache-miss name m run e miss in
      let start =
        flow_handler-cached_run j services u net config flows r flow text (some m) run caching
          is_given known body dec in
      ap (λ x. x.0) start
      ∙ rw missed (
          run_flow-unresolved name flow r full (try_cache j services name (some m) run).1 unknown
            refl childless)
