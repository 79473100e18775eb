-- ===== src/Serve/Routes.antt =====
-- Serve of serve.go: the routes, in the order in which they are registered.
pub mod Guarded
use faas_provider.Prelude.{
  ℕ, Bool, true, false, Option, none, some, String, List, [], ◌∷◌, ◌++◌, if◌then◌else◌, ℤ, pos,
  Result, ok, err, concat,
}
use faas_provider.Http.{Request}
use faas_provider.Config.{FaasConfig}
use faas_provider.Auth.{BasicAuthCredentials, ReadBasicAuthFromDisk, Disk, read}
use faas_provider.Interceptor.{set, header, body}
use faas_provider.Serve.Instrument.{Handler, Registry, bytes, instrument_handler, guard}

-- A handler that the code compares with nil is none where it is nil.
pub record FaasHandlers (S : Type 0) : Type 0 where
  pub list_namespaces : Handler S
  pub mutate_namespace : Option (Handler S)
  pub function_proxy : Handler S
  pub flows : Handler S
  pub flow_proxy : Handler S
  pub function_lister : Handler S
  pub deploy_function : Handler S
  pub update_function : Handler S
  pub delete_function : Handler S
  pub function_status : Handler S
  pub scale_function : Handler S
  pub secrets : Handler S
  pub logs : Handler S
  pub health : Option (Handler S)
  pub info : Handler S
  pub telemetry : Option (Handler S)

-- A path's template, the methods that it takes, where the empty list is all, and its handler.
pub record Route (S : Type 0) : Type 0 where
  pub path : String
  pub methods : List String
  pub handler : Handler S

-- What the server is made with.
pub record Server (S : Type 0) : Type 0 where
  pub port : ℤ
  pub read_timeout : ℤ
  pub write_timeout : ℤ
  pub routes : List (Route S)

abbrev pub name_expression : String
name_expression = "-a-zA-Z_0-9."

-- `{name:[...]` and what closes the class.
abbrev pub name_pattern : String → String
name_pattern closing = concat "{name:[" (concat name_expression closing)

module _ {S : Type 0} where
  abbrev pub route : String → List String → Handler S → Route S
  route path methods handler = record { path = path; methods = methods; handler = handler }

  -- `http.Error` of the missing feature.
  abbrev pub not_implemented : Handler S
  not_implemented r s = (
    set "Content-Type" "text/plain; charset=utf-8"
        ∷ set "X-Content-Type-Options" "nosniff"
        ∷ header 501
        ∷ body (bytes "Feature not implemented in this version of OpenFaaS\n")
        ∷ [],
    s,
  )

  abbrev pub map_handler : (Handler S → Handler S) → Option (Handler S) → Option (Handler S)
  map_handler f none = none
  map_handler f (some handler) = some (f handler)

  -- The routes that may be left out.
  abbrev pub optional_route :
      Option (Handler S) → (Handler S → Route S) → List (Route S) → List (Route S)
  optional_route none make routes = routes
  optional_route (some handler) make routes = make handler ∷ routes

  module _ (basic_auth : Request → Option (String × String)) where
    unfoldable pub guard_handlers : BasicAuthCredentials → FaasHandlers S → FaasHandlers S
    guard_handlers credentials h =
        let g = guard basic_auth credentials in
        record h {
          function_lister = g h.function_lister;
          deploy_function = g h.deploy_function;
          delete_function = g h.delete_function;
          update_function = g h.update_function;
          function_status = g h.function_status;
          scale_function = g h.scale_function;
          info = g h.info;
          secrets = g h.secrets;
          logs = g h.logs;
          telemetry = map_handler g h.telemetry;
        }

  module _ (registry : Registry S) (prometheus : Handler S) where
    abbrev pub counted : Handler S → Handler S
    counted handler = instrument_handler registry handler ""

    unfoldable pub namespace_route : Option (Handler S) → Route S
    namespace_route none =
        route (concat "/system/namespace/" (name_pattern "]*}")) ("GET" ∷ [])
          (counted not_implemented)
    namespace_route (some handler) =
        route (concat "/system/namespace/" (name_pattern "]*}"))
          ("POST" ∷ "DELETE" ∷ "PUT" ∷ "GET" ∷ []) (counted handler)

    unfoldable pub system_routes : FaasHandlers S → List (Route S)
    unfolding namespace_route
    system_routes h =
        route "/system/functions" ("GET" ∷ []) (counted h.function_lister)
        ∷ route "/system/functions" ("POST" ∷ []) (counted h.deploy_function)
        ∷ route "/system/functions" ("DELETE" ∷ []) (counted h.delete_function)
        ∷ route "/system/functions" ("PUT" ∷ []) (counted h.update_function)
        ∷ route (concat "/system/function/" (name_pattern "]+}")) ("GET" ∷ [])
            (instrument_handler registry h.function_status "/system/function")
        ∷ route (concat "/system/scale-function/" (name_pattern "]+}")) ("POST" ∷ [])
            (instrument_handler registry h.scale_function "/system/scale-function")
        ∷ route "/system/info" ("GET" ∷ []) (counted h.info)
        ∷ route "/system/secrets" ("GET" ∷ "PUT" ∷ "POST" ∷ "DELETE" ∷ []) (counted h.secrets)
        ∷ route "/system/logs" ("GET" ∷ []) (counted h.logs)
        ∷ route "/system/namespaces" ("GET" ∷ []) (counted h.list_namespaces)
        ∷ route "/system/flows" [] h.flows
        ∷ namespace_route h.mutate_namespace
        ∷ []

    -- The routes of a proxy below `prefix`.
    unfoldable pub open_routes : String → Handler S → List (Route S)
    open_routes prefix handler =
        let path = concat prefix (name_pattern "]+}") in
        route path [] handler
        ∷ route (concat path "/") [] handler
        ∷ route (concat path "/{params:.*}") [] handler
        ∷ []

    unfoldable pub routes : FaasHandlers S → List (Route S)
    unfolding system_routes open_routes
    routes h =
        system_routes h
        ++ (open_routes "/function/" h.function_proxy
            ++ (open_routes "/flow/" h.flow_proxy
                ++ optional_route h.health (route "/healthz" ("GET" ∷ [])) (
                    optional_route h.telemetry
                      (λ t. route "/system/telemetry" ("GET" ∷ []) (counted t))
                      (route "/metrics" [] prometheus ∷ []))))

    module _ {F : Type 0} where
      unfoldable pub server_of : FaasConfig F → FaasHandlers S → Server S
      unfolding routes
      server_of config h = record {
        port = elim config.tcp_port [ none ↦ pos 8080 | some port ↦ port ];
        read_timeout = config.read_timeout;
        write_timeout = config.write_timeout;
        routes = routes h;
      }

    module _ {F : Type 0} (disk : Disk) (basic_auth : Request → Option (String × String)) where
      -- The server that is started, or the error for which the program ends.
      unfoldable pub serve : FaasConfig F → FaasHandlers S → Result (Server S)
      unfolding server_of guard_handlers
      serve config h =
          let reader : ReadBasicAuthFromDisk = record {
            secret_mount_path = config.secret_mount_path;
            user_filename = "";
            password_filename = "";
          } in
          let guarded : Result (Server S) = elim (read disk reader) [
            | err e ↦ err e
            | ok credentials ↦ ok (server_of config (guard_handlers basic_auth credentials h))
          ] in
          if config.enable_basic_auth then guarded else ok (server_of config h)
