-- ===== src/Proxy/Flow/Recorded.antt =====
-- What a request leaves in the orchestrator's access log.
use faas_provider.Prelude.{
  ◌≡◌, inl, inr, refl, ◌&&◌, true, false, Option, none, some, String, [], ◌∷◌, Map, lookup, insert,
  str_eq, ok, Result-cases, Option-cases, arith,
}
use faas_provider.Float.{Float}
use faas_provider.Adaptive.Client.{World}
use faas_provider.Adaptive.Orchestrator.{Orchestrator, handle_access}
use faas_provider.Config.{FaasConfig}
use faas_provider.Http.{Request, text_of}
use faas_provider.Proxy.Request.{Urls}
use faas_provider.Proxy.Forward.{Network, proxy_request}
use faas_provider.Proxy.Flow.{
  FlowChild, Flow, FlowOutput, FlowInput, Json, Services, Run, named, cache_key, destination,
}
use faas_provider.Proxy.Flow.Handler.{
  is_hit, store, call_child, call_children, try_cache, run_flow, flow_handler,
}
use faas_provider.Proxy.Flow.Stored.{Step-cases}
use faas_provider.Proxy.Flow.Caching.{flow_handler-cached_run}

module _ {F S V : Type 0} (j : Json V) (services : Services S) where
  call_child-orchestrator :
      (flows : Map Flow) (args : Option (Map V)) (child : FlowChild) (run : Run F S)
      → (call_child j services flows args child run).1.orchestrator ≡ run.orchestrator
  unfolding call_child
  call_child-orchestrator flows args child run = elim (Option-cases (destination flows child)) [
    | inl e ↦ ground (arith, e)
    | inr (url, e) ↦ ground (arith, e)
  ]

  call_children-orchestrator :
      (flows : Map Flow) (args : Option (Map V)) (children : Map FlowChild)
      (outputs : Map FlowOutput) (run : Run F S)
      → (call_children j services flows args children outputs run).1.orchestrator ≡ run.orchestrator
  unfolding call_children
  call_children-orchestrator flows args [] outputs run = refl
  call_children-orchestrator flows args ((alias, child) ∷ children) outputs run =
      let first = call_child-orchestrator flows args child run in
      elim (Step-cases (call_child j services flows args child run)) [
        | inl (o, run1, e) ↦ ground (
          arith,
          e,
          first,
          call_children-orchestrator flows args children (insert alias o outputs) run1,
        )
        | inr (run1, inl e) ↦ ground (arith, e, first)
        | inr (run1, inr e) ↦ ground (arith, e, first)
      ]

  store-orchestrator :
      (name : String) (args : Option (Map V)) (flow : Flow) (reply : Option String) (run : Run F S)
      → (store j services name args flow reply run).1.orchestrator ≡ run.orchestrator
  unfolding store named
  store-orchestrator name none flow reply run = refl
  store-orchestrator name (some args) flow none run = refl
  store-orchestrator name (some args) flow (some bytes) run = refl

  module _ ⦃fl : Float F⦄ ⦃w : World F S⦄ (u : Urls) (net : Network S) (config : FaasConfig F)
      (flows : Map Flow) where
    run_flow-orchestrator :
        (name : String) (flow : Flow) (r : Request) (args : Option (Map V)) (run : Run F S)
        → (run_flow j services u net config flows true name flow r args run).1.orchestrator
          ≡ run.orchestrator
    unfolding run_flow
    run_flow-orchestrator name flow r args run =
        let called = call_children-orchestrator flows args flow.children [] run in
        elim (Step-cases (call_children j services flows args flow.children [] run)) [
          | inr (run1, inl e) ↦ ground (arith, e, called)
          | inr (run1, inr e) ↦ ground (arith, e, called)
          | inl (outputs, run1, e) ↦
              let input : FlowInput V = record { args = args; children = outputs } in
              let r1 = record r { body = some (j.encode_input input) } in
              let (reply, w1, s1) = proxy_request u net true r1 run1.response run1.world in
              let run2 : Run F S = record run1 { response = w1; world = s1 } in
              ground (arith, e, called, store-orchestrator name args flow reply run2)
        ]

    -- A request for a cached flow, with a body that decodes to arguments, is recorded as one access
    -- by the orchestrator that there is, under the key of the arguments with the flow's name in
    -- them, as a hit where the cache has bytes for that key and as a miss where it has none or
    -- fails, whether the request is then answered from the cache, answered by the function, or
    -- ends in a panic.
    pub flow_handler-handle_access :
        (r : Request) (flow : Flow) (text : String) (args : Map V) (run : Run F S)
        (o : Orchestrator F)
        → (config.enable_caching && flow.caching) ≡ true
        → str_eq (text_of "name" r.vars) "" ≡ false
        → lookup (text_of "name" r.vars) flows ≡ some flow
        → r.body ≡ some text
        → j.decode text ≡ ok (some args)
        → run.orchestrator ≡ some o
        → let name = j.string (text_of "name" r.vars) in
          let key = cache_key j (insert "openfaas_flow_function_name" name args) in
          let (found, s) = services.get key run.world in
          (flow_handler j services u net config flows r run).1.orchestrator
          ≡ some (handle_access key (is_hit found) o s).0
    unfolding try_cache named
    flow_handler-handle_access r flow text args run o caching given known body dec there =
        let name = text_of "name" r.vars in
        let full = insert "openfaas_flow_function_name" (j.string name) args in
        let (found, s) = services.get (cache_key j full) run.world in
        let reduced =
          flow_handler-cached_run j services u net config flows r flow text (some args) run caching
            given known body dec in
        let (o', s1) = handle_access (cache_key j full) (is_hit found) o s in
        let run1 : Run F S = record run { orchestrator = some o'; world = s1 } in
        elim (Result-cases found) [
          | inl (bytes, hit) ↦ ground (arith, reduced, there, hit)
          | inr (e, missed) ↦
              ground
                (arith, reduced, there, missed, run_flow-orchestrator name flow r (some full) run1)
        ]
