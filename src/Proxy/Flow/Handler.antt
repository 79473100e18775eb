-- ===== src/Proxy/Flow/Handler.antt =====
-- The statements of the handler that NewFlowHandler of proxy/proxy.go returns.
use faas_provider.Prelude.{
  ◌*◌, ◌&&◌, Bool, true, false, Option, none, some, String, [], ◌∷◌, Map, lookup, insert, str_eq,
  if◌then◌else◌, ℤ, Result, ok, err,
}
use faas_provider.Float.{Float}
use faas_provider.Adaptive.Client.{World}
use faas_provider.Adaptive.Orchestrator.{handle_access}
use faas_provider.Config.{FaasConfig, wrap_int64, second}
use faas_provider.Http.{
  Request, Response, text_of, set_header, write_header, write, errorf_response,
}
use faas_provider.Proxy.Request.{Urls}
use faas_provider.Proxy.Forward.{Network, proxy_request}
use faas_provider.Proxy.Flow.{
  FlowChild, Flow, FlowOutput, FlowInput, Json, Reply, Services, Run, Step, next, returned, M,
  ◌>>=◌, ◌>>◌, pure, panic, answer, respond, dereference, flow_of, named, cache_key, child_args,
  destination,
}

-- `err == nil && cachedResponseBytes != nil`
abbrev pub is_hit : Result (Option String) → Bool
is_hit (ok (some bytes)) = true
is_hit (ok none) = false
is_hit (err e) = false

abbrev pub bytes_of : Option String → String
bytes_of none = ""
bytes_of (some bytes) = bytes

-- The headers are set when they have been sent.
unfoldable pub send_cached : Option String → Response → Response
send_cached bytes w =
    write (bytes_of bytes) (set_header "Content-Type" "application/json" (write_header 200 w))

module _ {F S V : Type 0} (j : Json V) (services : Services S) where
  abbrev pub look_up : String → M F S (Result (Option String))
  look_up key run =
      let (found, s') = services.get key run.world in (next found, record run { world = s' })

  abbrev pub serve_cached : Result (Option String) → M F S (Unit {0})
  serve_cached (err e) = pure tt
  serve_cached (ok bytes) = answer (send_cached bytes)

  abbrev pub save : String → String → ℤ → M F S (Unit {0})
  save key bytes ttl run =
      let (failed, s') = services.set_ex key bytes ttl run.world in
      let step : Step (Unit {0}) = elim failed [ some e ↦ returned | none ↦ next tt ] in
      (step, record run { world = s' })

  -- The end of a cached flow: the key is computed anew.
  unfoldable pub store : String → Option (Map V) → Flow → Option String → M F S (Unit {0})
  unfolding named cache_key
  store name args flow reply = do
    m ← named j name args
    bytes ← dereference reply
    save (cache_key j m) bytes (wrap_int64 (flow.cache_ttl * second))

  -- A call of a child, whose request is nil where its URL is refused.
  abbrev pub post_child : String → String → M F S Reply
  post_child url body run =
      let (reply, s') = services.post url body run.world in
      let answered : Step Reply × Run F S = dereference reply (record run { world = s' }) in
      if services.is_url url then answered else panic run

  unfoldable pub call_child : Map Flow → Option (Map V) → FlowChild → M F S FlowOutput
  unfolding destination child_args
  call_child flows args child = do
    url ← dereference (destination flows child)
    let encoded = j.encode (child_args j args [] child.args_map)
    let body : String = elim encoded [ err e ↦ "" | ok text ↦ text ]
    reply ← post_child url body
    pure (record { output = reply.bytes; function = child.function })

  unfoldable pub call_children :
      Map Flow → Option (Map V) → Map FlowChild → Map FlowOutput → M F S (Map FlowOutput)
  unfolding call_child
  call_children flows args [] outputs = pure outputs
  call_children flows args ((alias, child) ∷ children) outputs = do
    output ← call_child flows args child
    call_children flows args children (insert alias output outputs)

  abbrev pub check_name : String → M F S (Unit {0})
  check_name name =
      if str_eq name ""
      then answer (errorf_response 400 "Provide function name in the request path")
      else pure tt

  -- No return follows the error.
  abbrev pub check_known : Bool → M F S (Unit {0})
  check_known known =
      if known
      then pure tt
      else respond (errorf_response 400 "Can not find this kind of function in flows config")

  -- The decoding of the body, which is not nil on a server.
  abbrev pub decode_body : Option String → M F S (Option (Map V))
  decode_body none = panic
  decode_body (some text) = elim (j.decode text) [
    | err e ↦ answer (errorf_response 400 "Bad request")
    | ok args ↦ pure args
  ]

  module _ ⦃fl : Float F⦄ ⦃w : World F S⦄ where
    abbrev pub access : String → Bool → M F S (Unit {0})
    access key hit run = elim run.orchestrator [
      | none ↦ (next tt, run)
      | some o ↦
          let (o', s') = handle_access key hit o run.world in
          (next tt, record run { orchestrator = some o'; world = s' })
    ]

    -- The search of the cache, which leaves the function's name in the arguments.
    unfoldable pub try_cache : String → Option (Map V) → M F S (Option (Map V))
    unfolding named cache_key handle_access send_cached
    try_cache name args = do
      m ← named j name args
      found ← look_up (cache_key j m)
      access (cache_key j m) (is_hit found)
      serve_cached found
      pure (some m)

    module _ (u : Urls) (net : Network S) (config : FaasConfig F) (flows : Map Flow) where
      abbrev pub proxied : Bool → Request → M F S (Option String)
      proxied return_body r run =
          let (reply, w1, s1) = proxy_request u net return_body r run.response run.world in
          (next reply, record run { response = w1; world = s1 })

      -- From the children on.
      unfoldable pub run_flow : Bool → String → Flow → Request → Option (Map V) → M F S (Unit {0})
      unfolding call_children store
      run_flow caching name flow r args = do
        outputs ← call_children flows args flow.children []
        let input : FlowInput V = record { args = args; children = outputs }
        reply ← proxied caching (record r { body = some (j.encode_input input) })
        if caching then store name args flow reply else pure tt

      unfoldable pub flow_handler : Request → M F S (Unit {0})
      unfolding run_flow try_cache flow_of
      flow_handler r =
          let name = text_of "name" r.vars in
          let flow = flow_of flows name in
          let caching = config.enable_caching && flow.caching in
          let known : Bool = elim (lookup name flows) [ none ↦ false | some f ↦ true ] in
          do
            check_name name
            check_known known
            decoded ← decode_body r.body
            args ← if caching then try_cache name decoded else pure decoded
            run_flow caching name flow r args
