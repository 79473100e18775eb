-- ===== src/Proxy/Flow/Provenance.antt =====
-- What the cache holds, and who stores it.
pub mod Steps
pub mod Kept
pub mod Cached
use faas_provider.Prelude.{
  ◌*◌, ◌≡◌, ◌⊎◌, sym, subst, ap, ◌∙◌, inl, inr, refl, ◌&&◌, Bool, true, false, Option, none, some,
  String, List, [], ◌∷◌, Map, lookup, insert, str_eq, if◌then◌else◌, ℤ, Result, ok, err, Bool-cases,
  Option-cases, Result-cases, arith,
}
use faas_provider.Float.{Float}
use faas_provider.Adaptive.Client.{World}
use faas_provider.Adaptive.Orchestrator.{handle_access}
use faas_provider.Config.{FaasConfig, wrap_int64, second}
use faas_provider.Http.{Request, Response, text_of}
use faas_provider.Proxy.Request.{Urls, build_proxy_request}
use faas_provider.Proxy.Forward.{Network, is_streaming, exchange, forward, proxy_request}
use faas_provider.Proxy.Flow.{
  FlowChild, Flow, FlowOutput, FlowInput, Json, Services, Run, Step, next, returned, panicked, M,
  ◌>>=◌, pure, dereference, flow_of, named, cache_key, destination,
}
use faas_provider.Proxy.Flow.Children.{child_body}
use faas_provider.Proxy.Flow.Caching.{flow_handler-cached_run, cached_run-hit}
use faas_provider.Proxy.Flow.Handler.{
  is_hit, look_up, serve_cached, save, store, post_child, call_child, call_children, check_name,
  check_known, decode_body, access, try_cache, proxied, run_flow, flow_handler, send_cached,
}

module _ {F S V : Type 0} (j : Json V) (services : Services S) ⦃fl : Float F⦄ ⦃w : World F S⦄
    (u : Urls) (net : Network S) (config : FaasConfig F) (flows : Map Flow) where
  -- A request of a flow with the cache's key was answered by these bytes: the function's own
  -- answer to the arguments and to what its children had answered.
  pub record IsAnswered (key bytes : String) : Type 0 where
    pub request : Request
    pub args : Map V
    pub before : Run F S
    pub between : Run F S
    pub outputs : Map FlowOutput
    pub same_key :
        key
        ≡ cache_key j
            (insert "openfaas_flow_function_name" (j.string (text_of "name" request.vars)) args)
    pub called :
        call_children j services flows
          (some args)
          (flow_of flows (text_of "name" request.vars)).children
          []
          before
        ≡ (next outputs, between)
    pub answered :
        (proxy_request u net true
          (record request {
            body = some (j.encode_input (record { args = some args; children = outputs }));
          })
          between.response
          between.world).0
        ≡ some bytes

  module _ (Holds : S → String → String → Type 0) where
    -- From one state to the other the cache has lost entries, or got answers.
    abbrev pub Grows : S → S → Type 0
    Grows s s' =
        (key bytes : String) → Holds s' key bytes → IsAnswered key bytes ⊎ Holds s key bytes

    -- What the cache holds, and what the rest of the outside, other requests in the meantime
    -- included, may store in it.
    pub record IsOutside : Type 0 where
      pub got :
          (key bytes : String) (s : S)
          → (services.get key s).0 ≡ ok (some bytes)
          → Holds s key bytes
      pub after_get : (key : String) (s : S) → Grows s (services.get key s).1
      pub after_set_ex :
          (key bytes : String) (ttl : ℤ) (s : S) (k b : String)
          → Holds (services.set_ex key bytes ttl s).1 k b
          → ((k ≡ key) × (b ≡ bytes)) ⊎ (IsAnswered k b ⊎ Holds s k b)
      pub after_post : (url body : String) (s : S) → Grows s (services.post url body s).1
      pub after_resolve : (name : String) (s : S) → Grows s (net.resolve name s).1
      pub after_send : (r : Request) (s : S) → Grows s (net.send r s).1
      pub after_reverse_proxy :
          (r : Request) (w : Response) (s : S) → Grows s (net.reverse_proxy r w s).1
      pub after_now : (s : S) → Grows s (w.now s).1
