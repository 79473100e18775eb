-- ===== src/Proxy/Flow/Provenance/Cached.antt =====
-- What the handler leaves in the cache and answers from it.
use faas_provider.Prelude.{
  ◌≡◌, ap, ◌∙◌, inl, inr, ◌&&◌, Bool, true, false, Option, none, some, String, Map, lookup, insert,
  str_eq, if◌then◌else◌, ok,
}
use faas_provider.Float.{Float}
use faas_provider.Adaptive.Client.{World}
use faas_provider.Adaptive.Orchestrator.{Orchestrator}
use faas_provider.Config.{FaasConfig}
use faas_provider.Http.{Request, Response, text_of}
use faas_provider.Proxy.Request.{Urls}
use faas_provider.Proxy.Forward.{Network}
use faas_provider.Proxy.Flow.{
  Flow, Json, Services, Run, returned, M, ◌>>=◌, pure, flow_of, cache_key,
}
use faas_provider.Proxy.Flow.Caching.{flow_handler-cached_run, cached_run-hit}
use faas_provider.Proxy.Flow.Handler.{
  check_name, check_known, decode_body, try_cache, run_flow, flow_handler, send_cached,
}
use faas_provider.Proxy.Flow.Provenance.{IsAnswered, Grows, IsOutside}
use faas_provider.Proxy.Flow.Provenance.Steps.{
  Keeps, bind-Keeps, check_name-Keeps, check_known-Keeps, decode_body-Keeps,
}
use faas_provider.Proxy.Flow.Provenance.Kept.{try_cache-Keeps, run_flow-IsSound}

module _ {F S V : Type 0} (j : Json V) (services : Services S) ⦃fl : Float F⦄ ⦃w : World F S⦄
    (u : Urls) (net : Network S) (config : FaasConfig F) (flows : Map Flow)
    (Holds : S → String → String → Type 0) (outside : IsOutside j services u net config flows Holds)
    (origin : S) where
  -- Since `origin` the cache has got only answers.
  abbrev IsSound : S → Type 0
  IsSound = Grows j services u net config flows Holds origin

  find-Keeps :
      (caching : Bool) (name : String) (args : Option (Map V))
      → Keeps {F = F} IsSound (if caching then try_cache j services name args else pure args)
  find-Keeps true name args run h =
      try_cache-Keeps j services u net config flows Holds outside origin name args run h
  find-Keeps false name args run h = h

  -- The handler stores only answers, however it ends.
  flow_handler-IsSound :
      (r : Request) → Keeps {F = F} IsSound (flow_handler j services u net config flows r)
  unfolding flow_handler
  flow_handler-IsSound r run h =
      let name = text_of "name" r.vars in
      let flow = flow_of flows name in
      let caching = config.enable_caching && flow.caching in
      let known : Bool = elim (lookup name flows) [ none ↦ false | some f ↦ true ] in
      let last : Option (Map V) → M F S (Unit {0}) =
        run_flow j services u net config flows caching name flow r in
      let search : Option (Map V) → M F S (Unit {0}) =
        λ decoded. (if caching then try_cache j services name decoded else pure decoded) >>= last in
      let decode : M F S (Unit {0}) = decode_body j services r.body >>= search in
      bind-Keeps IsSound (check_name j services name)
        (λ _. check_known j services known >>= λ _. decode) run
        (check_name-Keeps IsSound j services name run h)
        (λ _ run1 e1 h1.
          bind-Keeps IsSound (check_known j services known) (λ _. decode) run1
            (check_known-Keeps IsSound j services known run1 h1)
            (λ _ run2 e2 h2.
              bind-Keeps IsSound (decode_body j services r.body) search run2
                (decode_body-Keeps IsSound j services r.body run2 h2)
                (λ decoded run3 e3 h3.
                  bind-Keeps IsSound
                    (if caching then try_cache j services name decoded else pure decoded) last run3
                    (find-Keeps caching name decoded run3 h3)
                    (λ args run4 e4 h4.
                      run_flow-IsSound j services u net config flows Holds outside origin caching r
                        args run4 h4))))

module _ {F S V : Type 0} (j : Json V) (services : Services S) ⦃fl : Float F⦄ ⦃w : World F S⦄
    (u : Urls) (net : Network S) (config : FaasConfig F) (flows : Map Flow)
    (Holds : S → String → String → Type 0) where
  -- From one state of the outside to another: requests are handled, each with a response and an
  -- orchestrator of its own, and elsewhere things happen that store only answers.
  pub data Served : S → S → Type 0 where
    idle : {s : S} → Served s s
    handled :
        {s s' : S}
        → Served s s'
        → (r : Request) (v : Response) (o : Option (Orchestrator F))
        → Served s
            (flow_handler j services u net config flows r
              (record { response = v; orchestrator = o; world = s' })).1.world
    elsewhere :
        {s s' s'' : S}
        → Served s s'
        → Grows j services u net config flows Holds s' s''
        → Served s s''

  module _ (outside : IsOutside j services u net config flows Holds) where
    -- If the rest of the outside stores only answers in the cache, so does the handler, however it
    -- ends: what the cache holds afterwards it held before, or it is what the function of a flow
    -- answered to a request with that key.
    pub flow_handler-Grows :
        (r : Request) (run : Run F S)
        → Grows j services u net config flows Holds run.world
            (flow_handler j services u net config flows r run).1.world
    flow_handler-Grows r run =
        flow_handler-IsSound j services u net config flows Holds outside run.world r run
          (λ key bytes held. inr held)

    Served-Grows : {s s' : S} → Served s s' → Grows j services u net config flows Holds s s'
    Served-Grows idle key bytes held = inr held
    Served-Grows (handled before r v o) key bytes held =
        elim (flow_handler-Grows r _ key bytes held) [
          | inl a ↦ inl a
          | inr old ↦ Served-Grows before key bytes old
        ]
    Served-Grows (elsewhere before g) key bytes held = elim (g key bytes held) [
      | inl a ↦ inl a
      | inr old ↦ Served-Grows before key bytes old
    ]

    -- If the rest of the outside stores only answers: from an empty cache on, after any requests
    -- and whatever else stores only answers, a request of a cached flow whose key the cache finds
    -- is answered with the very bytes that the flow's function once gave, to the arguments of a
    -- request with the same key and to what its children answered then, and the handler returns.
    pub flow_handler-IsAnswered :
        (empty : S) (run : Run F S) (r : Request) (flow : Flow) (text bytes : String) (args : Map V)
        → ((key b : String) → ¬ Holds empty key b)
        → Served empty run.world
        → (config.enable_caching && flow.caching) ≡ true
        → str_eq (text_of "name" r.vars) "" ≡ false
        → lookup (text_of "name" r.vars) flows ≡ some flow
        → r.body ≡ some text
        → j.decode text ≡ ok (some args)
        → let key =
            cache_key j
              (insert "openfaas_flow_function_name" (j.string (text_of "name" r.vars)) args) in
          (services.get key run.world).0 ≡ ok (some bytes)
          → let out = flow_handler j services u net config flows r run in
            (out.0 ≡ returned)
            × (out.1.response ≡ send_cached (some bytes) run.response)
            × IsAnswered j services u net config flows key bytes
    flow_handler-IsAnswered empty run r flow text bytes args none_held served caching given known
          body dec found =
        let name = text_of "name" r.vars in
        let key = cache_key j (insert "openfaas_flow_function_name" (j.string name) args) in
        let reduce =
          flow_handler-cached_run j services u net config flows r flow text (some args) run caching
            given known body dec in
        let hit = cached_run-hit j services u net config flows name flow r args run bytes found in
        let answered : IsAnswered j services u net config flows key bytes =
          elim (Served-Grows served key bytes (outside.got key bytes run.world found)) [
            | inl a ↦ a
            | inr held ↦ absurd (none_held key bytes held)
          ] in
        (ap (λ x. x.0) reduce ∙ hit.0, ap (λ x. x.1.response) reduce ∙ hit.1, answered)
