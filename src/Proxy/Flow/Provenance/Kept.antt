-- ===== src/Proxy/Flow/Provenance/Kept.antt =====
-- What the statements of the handler that call the outside leave in the cache.
use faas_provider.Prelude.{
  ◌*◌, ◌≡◌, sym, subst, inl, inr, refl, Bool, true, false, Option, none, some, String, [], ◌∷◌, Map,
  insert, str_eq, if◌then◌else◌, Bool-cases, Option-cases, Result-cases, arith,
}
use faas_provider.Float.{Float}
use faas_provider.Adaptive.Client.{World}
use faas_provider.Adaptive.Orchestrator.{handle_access}
use faas_provider.Config.{FaasConfig, wrap_int64, second}
use faas_provider.Http.{Request, Response, text_of}
use faas_provider.Proxy.Request.{Urls, build_proxy_request}
use faas_provider.Proxy.Forward.{Network, is_streaming, exchange, forward, proxy_request}
use faas_provider.Proxy.Flow.{
  FlowChild, Flow, FlowOutput, Json, Services, Run, next, M, ◌>>=◌, pure, flow_of, named, cache_key,
  destination,
}
use faas_provider.Proxy.Flow.Children.{child_body}
use faas_provider.Proxy.Flow.Handler.{
  is_hit, serve_cached, store, call_child, call_children, access, try_cache, proxied, run_flow,
}
use faas_provider.Proxy.Flow.Provenance.{IsAnswered, Grows, IsOutside}
use faas_provider.Proxy.Flow.Provenance.Steps.{Keeps, bind-Keeps, serve_cached-Keeps}

module _ {F S V : Type 0} (j : Json V) (services : Services S) ⦃fl : Float F⦄ ⦃w : World F S⦄
    (u : Urls) (net : Network S) (config : FaasConfig F) (flows : Map Flow)
    (Holds : S → String → String → Type 0) (outside : IsOutside j services u net config flows Holds)
    (origin : S) where
  -- Since `origin` the cache has got only answers.
  abbrev IsSound : S → Type 0
  IsSound = Grows j services u net config flows Holds origin

  open outside use {
    got, after_get, after_set_ex, after_post, after_resolve, after_send, after_reverse_proxy,
    after_now,
  }

  Grows-IsSound :
      {s s' : S} → Grows j services u net config flows Holds s s' → IsSound s → IsSound s'
  Grows-IsSound g h key bytes held = elim (g key bytes held) [
    | inl a ↦ inl a
    | inr old ↦ h key bytes old
  ]

  proxy_request-IsSound :
      (return_body : Bool) (r : Request) (v : Response) (s : S)
      → IsSound s
      → IsSound (proxy_request u net return_body r v s).2
  unfolding proxy_request forward exchange
  proxy_request-IsSound return_body r v s h =
      let name = text_of "name" r.vars in
      let h1 = Grows-IsSound (after_resolve name s) h in
      let s1 = (net.resolve name s).1 in
      elim (Bool-cases (str_eq name "")) [
        | inl nameless ↦ rw (nameless, proxy_request) h
        | inr given ↦ elim (Result-cases (net.resolve name s).0) [
          | inr (e, unknown) ↦ rw (given, unknown, proxy_request, forward) h1
          | inl (address, found) ↦
              elim (Result-cases (build_proxy_request u r address (text_of "params" r.vars))) [
                | inr (e, failed) ↦ rw (given, found, failed, proxy_request, forward) h1
                | inl (q, built) ↦ elim (Bool-cases (is_streaming r)) [
                  | inl streaming ↦
                      rw (given, found, built, streaming, proxy_request, forward, exchange)
                        (Grows-IsSound (after_reverse_proxy (record r { url = q.url }) v s1) h1)
                  | inr plain ↦
                      rw (given, found, built, plain, proxy_request, forward, exchange)
                        (Grows-IsSound (after_send q s1) h1)
                ]
              ]
        ]
      ]

  call_child-Keeps :
      (args : Option (Map V)) (child : FlowChild)
      → Keeps {F = F} IsSound (call_child j services flows args child)
  unfolding call_child
  call_child-Keeps args child run h = elim (Option-cases (destination flows child)) [
    | inl nowhere ↦ subst IsSound (ground (arith, nowhere)) h
    | inr (url, e) ↦
        let body : String = child_body j services flows args child in
        let h1 = Grows-IsSound (after_post url body run.world) h in
        elim (Bool-cases (services.is_url url)) [
          | inr refused ↦ subst IsSound (ground (arith, e, refused)) h
          | inl taken ↦ elim (Option-cases (services.post url body run.world).0) [
            | inl failed ↦ subst IsSound (ground (arith, e, taken, failed)) h1
            | inr (reply, answers) ↦ subst IsSound (ground (arith, e, taken, answers)) h1
          ]
        ]
  ]

  call_children-Keeps :
      (args : Option (Map V)) (children : Map FlowChild) (outputs : Map FlowOutput)
      → Keeps {F = F} IsSound (call_children j services flows args children outputs)
  unfolding call_children
  call_children-Keeps args [] outputs run h = h
  call_children-Keeps args ((alias, child) ∷ children) outputs run h =
      bind-Keeps IsSound (call_child j services flows args child)
        (λ o. call_children j services flows args children (insert alias o outputs)) run
        (call_child-Keeps args child run h)
        (λ o run1 e h1. call_children-Keeps args children (insert alias o outputs) run1 h1)

  access-Keeps : (key : String) (hit : Bool) → Keeps {F = F} IsSound (access j services key hit)
  unfolding handle_access
  access-Keeps key hit run h = elim (Option-cases run.orchestrator) [
    | inl off ↦ rw off h
    | inr (o, on) ↦ rw (on, handle_access) (Grows-IsSound (after_now run.world) h)
  ]

  pub try_cache-Keeps :
      (name : String) (args : Option (Map V))
      → Keeps {F = F} IsSound (try_cache j services name args)
  unfolding try_cache named
  try_cache-Keeps name none run h = h
  try_cache-Keeps name (some m0) run h =
      let m = insert "openfaas_flow_function_name" (j.string name) m0 in
      let key = cache_key j m in
      let found = (services.get key run.world).0 in
      let run1 : Run F S = record run { world = (services.get key run.world).1 } in
      bind-Keeps IsSound (access j services key (is_hit found))
        (λ _. serve_cached j services found >>= λ _. pure (some m)) run1
        (access-Keeps key (is_hit found) run1 (Grows-IsSound (after_get key run.world) h))
        (λ _ run2 e2 h2.
          bind-Keeps IsSound (serve_cached j services found) (λ _. pure (some m)) run2
            (serve_cached-Keeps IsSound j services found run2 h2) (λ _ run3 e3 h3. h3))

  -- The end of a run, where only answers are stored.
  finish-IsSound :
      (caching : Bool) (name : String) (args : Option (Map V)) (flow : Flow) (reply : Option String)
      (run : Run F S)
      → IsSound run.world
      → ((m : Map V) (bytes : String)
          → caching ≡ true
          → args ≡ some m
          → reply ≡ some bytes
          → IsAnswered j services u net config flows
              (cache_key j (insert "openfaas_flow_function_name" (j.string name) m))
              bytes)
      → IsSound ((if caching then store j services name args flow reply else pure tt) run).1.world
  unfolding store named
  finish-IsSound false name args flow reply run h answers = h
  finish-IsSound true name none flow reply run h answers = h
  finish-IsSound true name (some m) flow none run h answers = h
  finish-IsSound true name (some m) flow (some bytes) run h answers =
      let key = cache_key j (insert "openfaas_flow_function_name" (j.string name) m) in
      let ttl = wrap_int64 (flow.cache_ttl * second) in
      let kept : IsSound (services.set_ex key bytes ttl run.world).1 = λ k b held.
        elim (after_set_ex key bytes ttl run.world k b held) [
          | inr (inl other) ↦ inl other
          | inr (inr old) ↦ h k b old
          | inl (same, text) ↦ inl (
              subst (λ q. IsAnswered j services u net config flows q b) (sym same)
                (subst (IsAnswered j services u net config flows key) (sym text)
                  (answers m bytes refl refl refl)))
        ] in
      kept

  pub run_flow-IsSound :
      (caching : Bool) (r : Request) (args : Option (Map V)) (run : Run F S)
      → IsSound run.world
      → let name = text_of "name" r.vars in
        IsSound
          (run_flow j services u net config flows caching name
            (flow_of flows name)
            r
            args
            run).1.world
  unfolding run_flow
  run_flow-IsSound caching r args run h =
      let name = text_of "name" r.vars in
      let flow = flow_of flows name in
      let sent_on : Map FlowOutput → Request = λ outputs. record r {
        body = some (j.encode_input (record { args = args; children = outputs }));
      } in
      let finish : Option String → M F S (Unit {0}) =
        λ reply. if caching then store j services name args flow reply else pure tt in
      bind-Keeps IsSound (call_children j services flows args flow.children [])
        (λ outputs. proxied j services u net config flows caching (sent_on outputs) >>= finish) run
        (call_children-Keeps args flow.children [] run h)
        (λ outputs run1 called h1.
          bind-Keeps IsSound (proxied j services u net config flows caching (sent_on outputs))
            finish run1
            (proxy_request-IsSound caching (sent_on outputs) run1.response run1.world h1)
            (λ reply run2 sent h2.
              finish-IsSound caching name args flow reply run2 h2 (λ m bytes on is got. record {
                request = r;
                args = m;
                before = run;
                between = run1;
                outputs = outputs;
                same_key = refl;
                called =
                    subst
                      (λ a.
                        call_children j services flows a flow.children [] run
                        ≡ (next outputs, run1))
                      is called;
                answered = ground (arith, sent, on, is, got);
              })))
