-- ===== src/Proxy/Flow/Caching.antt =====
-- What a cached flow stores, the next request for it finds.
use faas_provider.Prelude.{
  ◌≡◌, inl, inr, sym, ◌∙◌, ap, ◌&&◌, true, false, Option, none, some, String, Map, lookup, insert,
  str_eq, ℤ, ok, Result-cases, Option-cases, Bool-cases, arith, concat,
}
use faas_provider.Float.{Float}
use faas_provider.Adaptive.Client.{World}
use faas_provider.Config.{FaasConfig}
use faas_provider.Http.{Request, text_of}
use faas_provider.Proxy.Request.{Urls}
use faas_provider.Proxy.Forward.{Network}
use faas_provider.Proxy.Flow.{
  Flow, Json, Services, Run, next, returned, M, ◌>>=◌, flow_of, cache_key,
}
use faas_provider.Proxy.Flow.Handler.{send_cached, try_cache, run_flow, flow_handler}
use faas_provider.Proxy.Flow.Stored.{
  IsStored, Step-cases, insert-insert, run_flow-IsStored, try_cache_lem, try_cache-hit,
}

-- The cache gives back what it has stored.
pub record IsCache {S : Type 0} (services : Services S) : Type 0 where
  pub get-set_ex :
      (key bytes : String) (ttl : ℤ) (s : S)
      → (services.set_ex key bytes ttl s).0 ≡ none
      → (services.get key (services.set_ex key bytes ttl s).1).0 ≡ ok (some bytes)

module _ {F S V : Type 0} (j : Json V) (services : Services S) where
  module _ ⦃fl : Float F⦄ ⦃w : World F S⦄ (u : Urls) (net : Network S) (config : FaasConfig F)
      (flows : Map Flow) where
    abbrev pub cached_run : String → Flow → Request → Option (Map V) → M F S (Unit {0})
    cached_run name flow r args = do
      found ← try_cache j services name args
      run_flow j services u net config flows true name flow r found

    -- The handler of a cached flow on a body that decodes.
    pub flow_handler-cached_run :
        (r : Request) (flow : Flow) (text : String) (args : Option (Map V)) (run : Run F S)
        → (config.enable_caching && flow.caching) ≡ true
        → str_eq (text_of "name" r.vars) "" ≡ false
        → lookup (text_of "name" r.vars) flows ≡ some flow
        → r.body ≡ some text
        → j.decode text ≡ ok args
        → flow_handler j services u net config flows r run
          ≡ cached_run (text_of "name" r.vars) flow r args run
    unfolding flow_handler flow_of
    flow_handler-cached_run r flow text args run caching given known body dec =
        ground (arith, caching, given, known, body, dec)

    cached_run-IsStored :
        (name : String) (flow : Flow) (r : Request) (args : Option (Map V)) (run run' : Run F S)
        → cached_run name flow r args run ≡ (next tt, run')
        → (m : Map V) × (args ≡ some m)
          × IsStored j services name
              (insert "openfaas_flow_function_name" (j.string name) m)
              run
              run'
    cached_run-IsStored name flow r args run run' h =
        elim (Step-cases (try_cache j services name args run)) [
          | inr (run1, inl e) ↦ absurd (ground (arith, e))
          | inr (run1, inr e) ↦ absurd (ground (arith, e))
          | inl (found, run1, e) ↦
              let (m, is, then_found, same) =
                try_cache_lem j services u net config flows name args run run1 found e in
              let full = insert "openfaas_flow_function_name" (j.string name) m in
              let h2 : run_flow j services u net config flows true name flow r (some full) run1
                  ≡ (next tt, run') =
                ground (arith, e, then_found) in
              let st =
                run_flow-IsStored j services u net config flows name flow r full run1 run' h2 in
              (
                m,
                is,
                record {
                  bytes = st.bytes;
                  ttl = st.ttl;
                  world = st.world;
                  accepted = st.accepted;
                  then_world = st.then_world;
                  relayed = ground (arith, st.relayed, same);
                },
              )
        ]

    -- How a run of a cached flow that reaches its end began.
    record Began (r : Request) : Type 0 where
      flow : Flow
      text : String
      args : Option (Map V)
      given : str_eq (text_of "name" r.vars) "" ≡ false
      known : lookup (text_of "name" r.vars) flows ≡ some flow
      body : r.body ≡ some text
      dec : j.decode text ≡ ok args

    flow_handler-Began :
        (r : Request) (run run' : Run F S)
        → flow_handler j services u net config flows r run ≡ (next tt, run')
        → (config.enable_caching && (flow_of flows (text_of "name" r.vars)).caching) ≡ true
        → Began r
    unfolding flow_handler flow_of
    flow_handler-Began r run run' h caching =
        let name = text_of "name" r.vars in
        elim (Bool-cases (str_eq name "")) [
          | inl nameless ↦ absurd (ground (arith, nameless))
          | inr given ↦ elim (Option-cases (lookup name flows)) [
            | inl unknown ↦ absurd (ground (arith, unknown))
            | inr (flow, known) ↦ elim (Option-cases r.body) [
              | inl e ↦ absurd (ground (arith, given, known, e))
              | inr (text, body) ↦ elim (Result-cases (j.decode text)) [
                | inr (x, e) ↦ absurd (ground (arith, given, known, body, e))
                | inl (args, dec) ↦ record {
                  flow = flow;
                  text = text;
                  args = args;
                  given = given;
                  known = known;
                  body = body;
                  dec = dec;
                }
              ]
            ]
          ]
        ]

    found_again :
        IsCache services
        → (name : String) (m : Map V) (run run' again : Run F S) → again.world ≡ run'.world
        → (st : IsStored j services name
            (insert "openfaas_flow_function_name" (j.string name) m)
            run
            run')
        → (services.get
            (cache_key j (insert "openfaas_flow_function_name" (j.string name) m))
            again.world).0
          ≡ ok (some st.bytes)
    found_again cache name m run run' again same st =
        let full = insert "openfaas_flow_function_name" (j.string name) m in
        let key = λ (a : Map V). cache_key j a in
        rw
          (
            same,
            st.then_world,
            sym (ap key (insert-insert "openfaas_flow_function_name" (j.string name) m)),
          )
          (cache.get-set_ex (key (insert "openfaas_flow_function_name" (j.string name) full))
            st.bytes st.ttl st.world st.accepted)

    pub cached_run-hit :
        (name : String) (flow : Flow) (r : Request) (m : Map V) (again : Run F S) (bytes : String)
        → (services.get
            (cache_key j (insert "openfaas_flow_function_name" (j.string name) m))
            again.world).0
          ≡ ok (some bytes)
        → ((cached_run name flow r (some m) again).0 ≡ returned)
          × ((cached_run name flow r (some m) again).1.response
              ≡ send_cached (some bytes) again.response)
    cached_run-hit name flow r m again bytes found =
        let (ends, shown) = try_cache-hit j services u net config flows name m again bytes found in
        elim (Step-cases (try_cache j services name (some m) again)) [
          | inl (a, run1, e) ↦ absurd (ground (arith, e, ends))
          | inr (run1, inl e) ↦ (ground (arith, e), ground (arith, e, shown))
          | inr (run1, inr e) ↦ absurd (ground (arith, e, ends))
        ]

    -- If the cache gives back what it has stored: where a request of a cached flow runs through and
    -- its answer is stored, the same request finds it afterwards, whatever its response and the
    -- orchestrator are by then. It is answered from the cache with the very text that the first run
    -- added to its response.
    pub flow_handler-flow_handler :
        IsCache services
        → (r : Request) (run run' again : Run F S)
        → (config.enable_caching && (flow_of flows (text_of "name" r.vars)).caching) ≡ true
        → flow_handler j services u net config flows r run ≡ (next tt, run')
        → again.world ≡ run'.world
        → let second_run = flow_handler j services u net config flows r again in
          (bytes : String) × (run'.response.body ≡ concat run.response.body bytes)
          × (second_run.0 ≡ returned)
          × (second_run.1.response ≡ send_cached (some bytes) again.response)
    unfolding flow_of
    flow_handler-flow_handler cache r run run' again caching h same =
        let name = text_of "name" r.vars in
        let b = flow_handler-Began r run run' h caching in
        let cached : (config.enable_caching && b.flow.caching) ≡ true = ground (arith, b.known) in
        let reduce = λ (x : Run F S).
          flow_handler-cached_run r b.flow b.text b.args x cached b.given b.known b.body b.dec in
        let (m, is, st) =
          cached_run-IsStored name b.flow r b.args run run' (sym (reduce run) ∙ h) in
        let hit =
          cached_run-hit name b.flow r m again st.bytes
            (found_again cache name m run run' again same st) in
        let now : flow_handler j services u net config flows r again
            ≡ cached_run name b.flow r (some m) again =
          reduce again ∙ ap (λ a. cached_run name b.flow r a again) is in
        (st.bytes, st.relayed, ap (λ x. x.0) now ∙ hit.0, ap (λ x. x.1.response) now ∙ hit.1)
