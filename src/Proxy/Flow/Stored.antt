-- ===== src/Proxy/Flow/Stored.antt =====
-- What a run of a cached flow stores, and what the search of the cache leaves.
use faas_provider.Prelude.{
  ◌*◌, ◌≡◌, ◌⊎◌, inl, inr, refl, true, Option, none, some, String, [], ◌∷◌, Map, insert, eq_refl, ℤ,
  ok, Result-cases, Option-cases, arith, concat,
}
use faas_provider.Float.{Float}
use faas_provider.Adaptive.Client.{World}
use faas_provider.Config.{FaasConfig, wrap_int64, second}
use faas_provider.Http.{Request}
use faas_provider.Proxy.Request.{Urls}
use faas_provider.Proxy.Forward.{Network, proxy_request}
use faas_provider.Proxy.Forward.Returned.{proxy_request-body}
use faas_provider.Proxy.Flow.{
  FlowChild, Flow, FlowOutput, FlowInput, Json, Services, Run, Step, next, returned, panicked,
  named, cache_key, destination,
}
use faas_provider.Proxy.Flow.Handler.{
  send_cached, store, call_child, call_children, try_cache, run_flow,
}

module _ {F S : Type 0} where
  pub Step-cases :
      {A : Type 0} (out : Step A × Run F S)
      → ((a : A) × (run : Run F S) × (out ≡ (next a, run)))
        ⊎ ((run : Run F S) × ((out ≡ (returned, run)) ⊎ (out ≡ (panicked, run))))
  Step-cases (next a, run) = inl (a, run, refl)
  Step-cases (returned, run) = inr (run, inl refl)
  Step-cases (panicked, run) = inr (run, inr refl)

pub insert-insert :
    {V : Type 0} (k : String) (v : V) (m : Map V) → insert k v (insert k v m) ≡ insert k v m
unfolding insert
insert-insert k v [] = rw (eq_refl k) refl
insert-insert k v ((j, w) ∷ m) = ground (arith, insert-insert k v m)

module _ {F S V : Type 0} (j : Json V) (services : Services S) where
  call_child-response :
      (flows : Map Flow) (args : Option (Map V)) (child : FlowChild) (run run' : Run F S)
      (out : FlowOutput)
      → call_child j services flows args child run ≡ (next out, run')
      → run'.response ≡ run.response
  unfolding call_child
  call_child-response flows args child run run' out h =
      elim (Option-cases (destination flows child)) [
        | inl e ↦ ground (arith, e)
        | inr (url, e) ↦ ground (arith, e)
      ]

  call_children-response :
      (flows : Map Flow) (args : Option (Map V)) (children : Map FlowChild)
      (outputs : Map FlowOutput) (run run' : Run F S) (out : Map FlowOutput)
      → call_children j services flows args children outputs run ≡ (next out, run')
      → run'.response ≡ run.response
  unfolding call_children
  call_children-response flows args [] outputs run run' out h = ground arith
  call_children-response flows args ((alias, child) ∷ children) outputs run run' out h =
      elim (Step-cases (call_child j services flows args child run)) [
        | inl (o, run1, e) ↦ ground (
          arith,
          e,
          call_child-response flows args child run run1 o e,
          call_children-response flows args children (insert alias o outputs) run1 run' out,
        )
        | inr (run1, inl e) ↦ ground (arith, e)
        | inr (run1, inr e) ↦ ground (arith, e)
      ]

  -- What is stored at the end of a run.
  pub record IsStored (name : String) (args : Map V) (before after : Run F S) : Type 0 where
    pub bytes : String
    pub ttl : ℤ
    pub world : S
    pub accepted :
        (services.set_ex
          (cache_key j (insert "openfaas_flow_function_name" (j.string name) args))
          bytes
          ttl
          world).0
        ≡ none
    pub then_world :
        after.world
        ≡ (services.set_ex
            (cache_key j (insert "openfaas_flow_function_name" (j.string name) args))
            bytes
            ttl
            world).1
    pub relayed : after.response.body ≡ concat before.response.body bytes

  store_lem :
      (name : String) (args : Map V) (flow : Flow) (reply : Option String) (run run' : Run F S)
      → store j services name (some args) flow reply run ≡ (next tt, run')
      → (bytes : String) × (reply ≡ some bytes)
        × (run'.response ≡ run.response)
        × ((services.set_ex
              (cache_key j (insert "openfaas_flow_function_name" (j.string name) args))
              bytes
              (wrap_int64 (flow.cache_ttl * second))
              run.world).0
            ≡ none)
        × (run'.world
            ≡ (services.set_ex
                (cache_key j (insert "openfaas_flow_function_name" (j.string name) args))
                bytes
                (wrap_int64 (flow.cache_ttl * second))
                run.world).1)
  unfolding store named
  store_lem name args flow none run run' h = absurd (ground (arith, h))
  store_lem name args flow (some bytes) run run' h =
      let key = cache_key j (insert "openfaas_flow_function_name" (j.string name) args) in
      elim (Option-cases
        (services.set_ex key bytes (wrap_int64 (flow.cache_ttl * second)) run.world).0) [
          | inl e ↦ (bytes, refl, ground (arith, e), e, ground (arith, e))
          | inr (x, e) ↦ absurd (ground (arith, e))
        ]

  module _ ⦃fl : Float F⦄ ⦃w : World F S⦄ (u : Urls) (net : Network S) (config : FaasConfig F)
      (flows : Map Flow) where
    pub run_flow-IsStored :
        (name : String) (flow : Flow) (r : Request) (args : Map V) (run run' : Run F S)
        → run_flow j services u net config flows true name flow r (some args) run ≡ (next tt, run')
        → IsStored name args run run'
    unfolding run_flow
    run_flow-IsStored name flow r args run run' h =
        elim (Step-cases (call_children j services flows (some args) flow.children [] run)) [
          | inr (run1, inl e) ↦ absurd (ground (arith, e))
          | inr (run1, inr e) ↦ absurd (ground (arith, e))
          | inl (outputs, run1, e) ↦
              let input : FlowInput V = record { args = some args; children = outputs } in
              let r1 = record r { body = some (j.encode_input input) } in
              let (reply, w1, s1) = proxy_request u net true r1 run1.response run1.world in
              let run2 : Run F S = record run1 { response = w1; world = s1 } in
              let h2 : store j services name (some args) flow reply run2 ≡ (next tt, run') =
                ground (arith, e) in
              let (bytes, got, same, accepted, world) =
                store_lem name args flow reply run2 run' h2 in
              record {
                bytes = bytes;
                ttl = wrap_int64 (flow.cache_ttl * second);
                world = s1;
                accepted = accepted;
                then_world = world;
                relayed = ground (
                  arith,
                  same,
                  call_children-response flows (some args) flow.children [] run run1 outputs e,
                  proxy_request-body u net true r1 run1.response run1.world bytes got,
                );
              }
        ]

    pub try_cache_lem :
        (name : String) (args : Option (Map V)) (run run' : Run F S) (found : Option (Map V))
        → try_cache j services name args run ≡ (next found, run')
        → (m : Map V) × (args ≡ some m)
          × (found ≡ some (insert "openfaas_flow_function_name" (j.string name) m))
          × (run'.response ≡ run.response)
    unfolding try_cache named
    try_cache_lem name none run run' found h = absurd (ground (arith, h))
    try_cache_lem name (some m) run run' found h =
        let key = cache_key j (insert "openfaas_flow_function_name" (j.string name) m) in
        elim (Result-cases (services.get key run.world).0) [
          | inl (b, e) ↦ elim (Option-cases run.orchestrator) [
            | inl n ↦ absurd (ground (arith, e, n))
            | inr (o, n) ↦ absurd (ground (arith, e, n))
          ]
          | inr (x, e) ↦ elim (Option-cases run.orchestrator) [
            | inl n ↦ (m, refl, ground (arith, e, n), ground (arith, e, n))
            | inr (o, n) ↦ (m, refl, ground (arith, e, n), ground (arith, e, n))
          ]
        ]

    pub try_cache-hit :
        (name : String) (m : Map V) (run : Run F S) (bytes : String)
        → (services.get
            (cache_key j (insert "openfaas_flow_function_name" (j.string name) m))
            run.world).0
          ≡ ok (some bytes)
        → ((try_cache j services name (some m) run).0 ≡ returned)
          × ((try_cache j services name (some m) run).1.response
              ≡ send_cached (some bytes) run.response)
    unfolding try_cache named
    try_cache-hit name m run bytes e = elim (Option-cases run.orchestrator) [
      | inl n ↦ (ground (arith, e, n), ground (arith, e, n))
      | inr (o, n) ↦ (ground (arith, e, n), ground (arith, e, n))
    ]
