-- ===== src/Serve/Tests.antt =====
-- A server whose world counts the requests that were handled and counted.
use faas_provider.Prelude.{
  ℕ, ◌+◌, ◌≡◌, refl, true, false, none, some, Option, String, List, [], ◌∷◌, pos, ok, All, str_eq,
  if◌then◌else◌, lookup, insert,
}
use faas_provider.Float.{Decimal, decimal_float}
use faas_provider.Http.{Request, get}
use faas_provider.Config.{FaasConfig}
use faas_provider.Auth.{
  BasicAuthCredentials, Disk, user_path, password_path, read, refuse, decorate_with_basic_auth,
}
use faas_provider.Interceptor.{header, body, intercept, new_http_write_interceptor, status}
use faas_provider.Interceptor.Forwarding.{with_header, last_code}
use faas_provider.Serve.Instrument.{Handler, Labels, Registry, instrument_handler, guard}
use faas_provider.Serve.Instrument.Counting.{instrument_handler_lem}
use faas_provider.Serve.Routes.{FaasHandlers, Server, guard_handlers, routes, server_of, serve}
use faas_provider.Serve.Routes.Guarded.{IsGuarded, serve-IsGuarded}

program : Unit {0}
unfolding get user_path password_path read refuse decorate_with_basic_auth intercept
    new_http_write_interceptor status with_header last_code instrument_handler guard guard_handlers
    routes server_of serve insert lookup
program = tt

-- The time, and the codes that were counted.
abbrev World : Type 0
World = ℕ × List ℕ

abbrev registry : Registry World
registry = record {
  now = λ s. (s.0, (s.0 + 1, s.1));
  observe = λ l d s. s;
  inc = λ l s. (s.0, l.code ∷ s.1);
}

abbrev hello : Handler World
hello r s = (body (104 ∷ 105 ∷ []) ∷ [], s)

abbrev handlers : FaasHandlers World
handlers = record {
  list_namespaces = hello;
  mutate_namespace = none;
  function_proxy = hello;
  flows = hello;
  flow_proxy = hello;
  function_lister = hello;
  deploy_function = hello;
  update_function = hello;
  delete_function = hello;
  function_status = hello;
  scale_function = hello;
  secrets = hello;
  logs = hello;
  health = some hello;
  info = hello;
  telemetry = some hello;
}

abbrev disk : Disk
disk = record { read_file = λ path. ok path; join = λ a b. b; trim_space = λ s. s }

abbrev basic_auth : Request → Option (String × String)
basic_auth r =
    let given = get "Authorization" r.header in
    if str_eq given "" then none else some (given, "basic-auth-password")

abbrev config : FaasConfig Decimal
config = record {
  tcp_port = none;
  read_timeout = pos 0;
  write_timeout = pos 0;
  enable_health = false;
  enable_basic_auth = true;
  secret_mount_path = "/run/secrets";
  max_idle_conns = pos 0;
  max_idle_conns_per_host = pos 0;
  enable_caching = false;
  enable_intelligent_orchestrator = false;
  orchestrator_eval_interval = 0;
  orchestrator_stability_period = 0;
  orchestrator_switch_threshold = decimal_float.decimal 0 0;
  orchestrator_max_memory = 0;
}

abbrev credentials : BasicAuthCredentials
credentials = record { user = "basic-auth-user"; password = "basic-auth-password" }

abbrev server : Server World
server = server_of registry hello config (guard_handlers basic_auth credentials handlers)

starts : serve registry hello disk basic_auth config handlers ≡ ok server
unfolding program
starts = refl

serve-IsGuarded_example :
    (c : BasicAuthCredentials) × (read disk
        (record { secret_mount_path = "/run/secrets"; user_filename = ""; password_filename = "" })
      ≡ ok c)
    × All (IsGuarded basic_auth registry c) server.routes
serve-IsGuarded_example =
    serve-IsGuarded basic_auth registry hello disk config handlers server refl starts

abbrev request : Request
request = record {
  method = "GET";
  host = "";
  remote_addr = "";
  url = record { scheme = ""; host = ""; path = "/system/info"; raw_query = "" };
  header = [];
  body = none;
  vars = [];
}

counts :
    instrument_handler registry hello "" request (7, [])
    ≡ (header 200 ∷ body (104 ∷ 105 ∷ []) ∷ [], (9, 200 ∷ []))
unfolding program
counts = refl

instrument_handler_lem_example :
    let labels : Labels = record {
      code = last_code 200 (with_header false (hello request (8, [])).0);
      method = "GET";
      path = "/system/info";
    } in
    instrument_handler registry hello "" request (7, []) ≡ (
      with_header false (hello request (8, [])).0,
      registry.inc labels (registry.observe labels 1 (9, [])),
    )
instrument_handler_lem_example = instrument_handler_lem registry hello "" request (7, []) (tt, tt)
