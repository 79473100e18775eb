-- ===== src/Proxy/Tests.antt =====
-- A flow of two functions on a small network with a cache.
use faas_provider.Prelude.{
  ◌+◌, ◌/◌, pos, negsuc, ◌≡◌, ◌⊎◌, inl, inr, str_eq, Bool-cases, Option-cases, lookup-insert, ◌&&◌,
  refl, true, none, some, String, [], ok, err, Error, errorf, ◌∷◌, Map, concat, arith, eq_iff,
  lookup, insert, HasDistinctKeys, lookup-insert_self,
}
use faas_provider.Float.{Decimal, decimal_float, operations}
use faas_provider.Adaptive.Orchestrator.{Orchestrator, handle_access, new_intelligent_orchestrator}
use faas_provider.Config.{second}
use faas_provider.Http.{
  Url, Request, new_response, get, text_of, set_header, add_header, write_header, write,
  errorf_response,
}
use faas_provider.Proxy.Request.{
  copy_headers, get_content_type, forwarded_header, target_url, build_proxy_request,
}
use faas_provider.Proxy.Request.Headers.{IsForwarded, build_proxy_request_lem}
use faas_provider.Proxy.Forward.{
  refuse_proxied, relay_body, relay, is_streaming, exchange, forward, proxy_request, handle,
  is_proxied,
}
use faas_provider.Proxy.Forward.Answers.{HasCodes, Answered, proxy_request_lem}
use faas_provider.Proxy.Setup.Tests.{config}
use faas_provider.Proxy.Sample.{
  Net, net_world, urls, network, json, services, cached, flows, request,
}
use faas_provider.Proxy.Flow.{
  FlowChild, FlowOutput, Run, Step, next, returned, panicked, flow_of, named, cache_key, child_args,
  destination,
}
use faas_provider.Proxy.Flow.Handler.{
  is_hit, send_cached, store, call_child, call_children, try_cache, run_flow, flow_handler,
}
use faas_provider.Proxy.Flow.Caching.{IsCache, flow_handler-flow_handler}
use faas_provider.Proxy.Flow.Provenance.{IsAnswered, Grows, IsOutside}
use faas_provider.Proxy.Flow.Provenance.Cached.{
  Served, idle, handled, flow_handler-Grows, flow_handler-IsAnswered,
}
use faas_provider.Proxy.Flow.Children.{Matches, call_children_lem}
use faas_provider.Proxy.Flow.Recorded.{flow_handler-handle_access}
use faas_provider.Proxy.Cache.{PaperClient, paper_get, paper_services}
use faas_provider.Proxy.Cache.Expiry.{IsPaper, store-paper_set_ex}
use faas_provider.Proxy.Flow.Panics.{IsUnresolved, flow_handler-unresolved}

program : Unit {0}
unfolding get text_of set_header add_header write_header write errorf_response copy_headers
    get_content_type forwarded_header target_url build_proxy_request refuse_proxied relay_body relay
    is_streaming exchange forward proxy_request handle is_proxied flow_of named cache_key child_args
    destination send_cached store paper_get paper_services call_child call_children try_cache
    run_flow flow_handler handle_access insert lookup operations
program = tt

abbrev start : Run Decimal Net
start = record { response = new_response; orchestrator = none; world = ([], 0) }

abbrev run : String → Run Decimal Net → Step (Unit {0}) × Run Decimal Net
run name = flow_handler json services urls network config flows (request name)

abbrev finished : Run Decimal Net
finished = (run "f" start).1

abbrev again : Run Decimal Net
again = record finished { response = new_response }

runs : run "f" start ≡ (next tt, finished)
unfolding program
runs = refl

-- The second run is answered with the same text, and sends no request.
hits :
    (finished.response.body ≡ "input")
    × ((run "f" again).1.response.body ≡ "input")
    × (finished.world.1 ≡ 1)
    × ((run "f" again).1.world.1 ≡ 1)
unfolding program
hits = (refl, refl, refl, refl)

services-IsCache : IsCache services
services-IsCache = record {
  get-set_ex = λ key bytes ttl s e. ground (arith, lookup-insert_self key bytes s.0);
}

enabled : (config.enable_caching && (flow_of flows "f").caching) ≡ true
unfolding program
enabled = refl

flow_handler-flow_handler_example :
    let second_run = flow_handler json services urls network config flows (request "f") again in
    (bytes : String) × (finished.response.body ≡ concat "" bytes)
    × (second_run.0 ≡ returned)
    × (second_run.1.response ≡ send_cached (some bytes) new_response)
unfolding program
flow_handler-flow_handler_example =
    flow_handler-flow_handler json services urls network config flows services-IsCache (request "f")
      start finished again enabled runs refl

-- What the cache of the sample holds.
abbrev Holds : Net → String → String → Type 0
Holds s key bytes = lookup key s.0 ≡ some bytes

services-IsOutside : IsOutside json services urls network config flows Holds
services-IsOutside = record {
  got = λ key bytes s e. elim (Option-cases (lookup key s.0)) [
    | inl missing ↦ absurd (ground (arith, e, missing))
    | inr (b, there) ↦ ground (arith, e, there)
  ];
  after_get = λ key s k b h. inr h;
  after_set_ex = λ key bytes ttl s k b h. elim (Bool-cases (str_eq key k)) [
    | inl same ↦ inl (
      ground (arith, same, eq_iff key k),
      ground (arith, same, eq_iff key k, h, lookup-insert key k bytes s.0),
    )
    | inr other ↦ inr (inr (ground (arith, other, h, lookup-insert key k bytes s.0)))
  ];
  after_post = λ url body s k b h. inr h;
  after_resolve = λ name s k b h. elim (Bool-cases (str_eq name "gone")) [
    | inl gone ↦ inr (ground (arith, gone, h))
    | inr there ↦ inr (ground (arith, there, h))
  ];
  after_send = λ r s k b h. inr h;
  after_reverse_proxy = λ r w s k b h. inr h;
  after_now = λ s k b h. inr h;
}

served : Served json services urls network config flows Holds ([], 0) again.world
served = handled idle (request "f") new_response none

flow_handler-Grows_example :
    Grows json services urls network config flows Holds ([], 0) finished.world
flow_handler-Grows_example =
    flow_handler-Grows json services urls network config flows Holds services-IsOutside
      (request "f") start

flow_handler-IsAnswered_example :
    let out = flow_handler json services urls network config flows (request "f") again in
    (out.0 ≡ returned)
    × (out.1.response ≡ send_cached (some "input") new_response)
    × IsAnswered json services urls network config flows
        (cache_key json (insert "openfaas_flow_function_name" "f" []))
        "input"
unfolding program
flow_handler-IsAnswered_example =
    flow_handler-IsAnswered json services urls network config flows Holds services-IsOutside ([], 0)
      again (request "f")
      (cached (("c", record { args_map = ("x", "y") ∷ []; function = "g" }) ∷ [])) "{}" "input" []
      (λ key b h. absurd (ground (arith, h))) served refl (ground (arith, eq_iff "f" "")) refl refl
      refl refl

gone-IsUnresolved : IsUnresolved json services urls network config flows "gone"
gone-IsUnresolved s = (errorf "no endpoints", refl)

flow_handler-unresolved_example :
    (flow_handler json services urls network config flows (request "gone") start).0 ≡ panicked
unfolding program
flow_handler-unresolved_example =
    flow_handler-unresolved json services urls network config flows (request "gone") (cached [])
      "{}" [] start (errorf "miss") refl refl (ground (arith, eq_iff "gone" "")) refl refl refl refl
      gone-IsUnresolved

-- An orchestrator with nothing recorded, on the same network.
abbrev watched : Orchestrator Decimal
watched = (new_intelligent_orchestrator none (finished.world)).0

abbrev watched_run : Run Decimal Net
watched_run = record again { orchestrator = some watched }

flow_handler-handle_access_example :
    let key = cache_key json (insert "openfaas_flow_function_name" "f" []) in
    let (found, s) = services.get key finished.world in
    (flow_handler json services urls network config flows (request "f") watched_run).1.orchestrator
    ≡ some (handle_access key (is_hit found) watched s).0
unfolding program
flow_handler-handle_access_example =
    flow_handler-handle_access json services urls network config flows (request "f")
      (flow_of flows "f") "{}" [] watched_run watched enabled (ground (arith, eq_iff "f" "")) refl
      refl refl refl

abbrev children : Map FlowChild
children = (flow_of flows "f").children

abbrev outputs : Map FlowOutput
outputs = ("c", record { output = "out"; function = "g" }) ∷ []

called : call_children json services flows (some []) children [] start ≡ (next outputs, start)
unfolding program
called = refl

call_children_lem_example :
    Matches json services flows (some []) (lookup "c" children) none (lookup "c" outputs)
unfolding program
call_children_lem_example =
    call_children_lem json services flows (some []) children start start outputs "c" (tt, tt) called

codes : HasCodes network
codes r s answer e = ground (arith, e)

distinct : HasDistinctKeys (request "f").header
distinct = (tt, tt)

base : Url
base = record { scheme = "http"; host = "f"; path = ""; raw_query = "" }

build_proxy_request_lem_example :
    let target = urls.url_string (target_url urls (request "f") base "") in
    ((r : Request) × (build_proxy_request urls (request "f") base "" ≡ ok r)
      × IsForwarded urls (request "f") base "" r)
    ⊎ ((e : Error) × (build_proxy_request urls (request "f") base "" ≡ err e)
        × (urls.new_request "POST" target ≡ err e))
build_proxy_request_lem_example = build_proxy_request_lem urls (request "f") base "" distinct

proxy_request_lem_example :
    let (reply, w', _) = proxy_request urls network true (request "f") new_response ([], 0) in
    Answered urls network true (request "f") new_response ([], 0) reply w'
proxy_request_lem_example =
    proxy_request_lem urls network codes true (request "f") new_response ([], 0) refl

-- It counts what it stores, and keeps it for good.
abbrev paper : PaperClient Net
paper = record {
  get = λ key s. (elim (lookup key s.0) [ none ↦ err (errorf "miss") | some v ↦ ok v ], s);
  set = λ key bytes ttl s. (none, (insert key bytes s.0, s.1 + ttl));
  seconds = λ ttl. elim ttl [ pos n ↦ n / second | negsuc n ↦ 0 ];
}

paper-IsPaper : IsPaper paper
paper-IsPaper = record {
  whole = λ n fits. omega arith;
  get-set = λ key bytes ttl s accepted. ground (arith, lookup-insert_self key bytes s.0);
}

abbrev paper_store : Run Decimal Net → Step (Unit {0}) × Run Decimal Net
paper_store =
    store json (paper_services services.is_url services.post paper) "f" (some []) (cached [])
      (some "out")

stores : paper_store start ≡ (next tt, (paper_store start).1)
unfolding program
stores = refl

store-paper_set_ex_example :
    let key = cache_key json (insert "openfaas_flow_function_name" "f" []) in
    ((paper_store start).1 ≡ record start { world = (paper.set key "out" 60 ([], 0)).1 })
    × ((paper_get paper key (paper_store start).1.world).0 ≡ ok (some "out"))
store-paper_set_ex_example =
    store-paper_set_ex services.is_url services.post paper paper-IsPaper json "f" [] (cached [])
      "out" start (paper_store start).1 (omega arith) stores
