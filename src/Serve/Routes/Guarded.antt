-- ===== src/Serve/Routes/Guarded.antt =====
-- Which routes basic authentication guards.
use faas_provider.Prelude.{
  ◌≡◌, ◌⊎◌, inl, inr, refl, subst, ◌||◌, Bool, true, false, Option, none, some, String, List, [],
  ◌∷◌, ◌++◌, str_eq, All, All-append, ok, Result-cases, arith,
}
use faas_provider.Http.{Request}
use faas_provider.Config.{FaasConfig}
use faas_provider.Auth.{BasicAuthCredentials, Disk, read, refuse}
use faas_provider.Auth.Access.{decorate_with_basic_auth_lem}
use faas_provider.Interceptor.{Action, set, header, body, intercept, new_http_write_interceptor}
use faas_provider.Serve.Instrument.{
  Handler, Registry, bytes, instrument_handler, guard, recorder, resume,
}
use faas_provider.Serve.Routes.{
  FaasHandlers, Route, Server, route, counted, map_handler, optional_route, guard_handlers,
  namespace_route, system_routes, open_routes, routes, server_of, serve,
}

-- The answer to a request without the credentials.
abbrev pub refusal : List Action
refusal =
    set "WWW-Authenticate" "Basic realm=\"Restricted\""
    ∷ header 401
    ∷ body (bytes "invalid credentials")
    ∷ []

-- The paths that are open to all.
abbrev pub open_paths : List String
open_paths =
    "/system/namespaces" ∷ "/system/flows" ∷ "/system/namespace/{name:[-a-zA-Z_0-9.]*}"
    ∷ "/function/{name:[-a-zA-Z_0-9.]+}" ∷ "/function/{name:[-a-zA-Z_0-9.]+}/"
    ∷ "/function/{name:[-a-zA-Z_0-9.]+}/{params:.*}" ∷ "/flow/{name:[-a-zA-Z_0-9.]+}"
    ∷ "/flow/{name:[-a-zA-Z_0-9.]+}/" ∷ "/flow/{name:[-a-zA-Z_0-9.]+}/{params:.*}" ∷ "/healthz"
    ∷ "/metrics" ∷ []

abbrev pub contains : String → List String → Bool
contains path [] = false
contains path (p ∷ paths) = str_eq p path || contains path paths

module _ {S : Type 0} (basic_auth : Request → Option (String × String)) where
  guard-Rejects_lem :
      (c : BasicAuthCredentials) (handler : Handler S) (r : Request) (s : S)
      → (basic_auth r ≡ some (c.user, c.password)) ⊎ (guard basic_auth c handler r s ≡ (refusal, s))
  unfolding guard refuse
  guard-Rejects_lem c handler r s =
      elim (decorate_with_basic_auth_lem recorder (resume handler r) c (basic_auth r) ([], s)) [
        | inl (same, _) ↦ inl same
        | inr (_, out) ↦ inr out
      ]

  module _ (registry : Registry S) where
    -- A handler that only refuses, and is counted.
    abbrev pub refusing : String → Handler S
    refusing path_override = instrument_handler registry (λ r s. (refusal, s)) path_override

    -- A request gives the credentials' user and password, or it gets the refusal and is counted, and
    -- nothing else is done.
    abbrev pub Rejects : BasicAuthCredentials → Handler S → Type 0
    Rejects c handler =
        (path_override : String) × ((r : Request) (s : S)
          → (basic_auth r ≡ some (c.user, c.password))
            ⊎ (((handler r s).0 ≡ refusal) × (handler r s ≡ refusing path_override r s)))

    -- A route is open, or it refuses requests without the credentials.
    abbrev pub IsGuarded : BasicAuthCredentials → Route S → Type 0
    IsGuarded c route = (contains route.path open_paths ≡ true) ⊎ Rejects c route.handler

    instrument_handler-Rejects :
        (c : BasicAuthCredentials) (handler : Handler S) (path_override : String)
        → Rejects c (instrument_handler registry (guard basic_auth c handler) path_override)
    unfolding instrument_handler intercept new_http_write_interceptor
    instrument_handler-Rejects c handler path_override = (
      path_override,
      λ r s. elim (guard-Rejects_lem c handler r (registry.now s).1) [
        | inl given ↦ inl given
        | inr out ↦ inr (rw (out, instrument_handler) refl, rw (out, instrument_handler) refl)
      ],
    )

    module _ (prometheus : Handler S) where
      namespace_route-IsGuarded :
          (c : BasicAuthCredentials) (handler : Option (Handler S))
          → IsGuarded c (namespace_route registry prometheus handler)
      unfolding namespace_route
      namespace_route-IsGuarded c none = inl refl
      namespace_route-IsGuarded c (some handler) = inl refl

      system_routes-IsGuarded :
          (c : BasicAuthCredentials) (h : FaasHandlers S)
          → All (IsGuarded c) (system_routes registry prometheus (guard_handlers basic_auth c h))
      unfolding system_routes guard_handlers
      system_routes-IsGuarded c h =
          let g = instrument_handler-Rejects c in
          (
            inr (g h.function_lister ""),
            (
              inr (g h.deploy_function ""),
              (
                inr (g h.delete_function ""),
                (
                  inr (g h.update_function ""),
                  (
                    inr (g h.function_status "/system/function"),
                    (
                      inr (g h.scale_function "/system/scale-function"),
                      (
                        inr (g h.info ""),
                        (
                          inr (g h.secrets ""),
                          (
                            inr (g h.logs ""),
                            (
                              inl refl,
                              (inl refl, (namespace_route-IsGuarded c h.mutate_namespace, tt)),
                            ),
                          ),
                        ),
                      ),
                    ),
                  ),
                ),
              ),
            ),
          )

      optional-IsGuarded :
          (c : BasicAuthCredentials) (handler : Option (Handler S)) (make : Handler S → Route S)
          (rest : List (Route S))
          → ((f : Handler S) → IsGuarded c (make f))
          → All (IsGuarded c) rest
          → All (IsGuarded c) (optional_route handler make rest)
      optional-IsGuarded c none make rest f others = others
      optional-IsGuarded c (some handler) make rest f others = (f handler, others)

      telemetry-IsGuarded :
          (c : BasicAuthCredentials) (handler : Option (Handler S)) (rest : List (Route S))
          → All (IsGuarded c) rest
          → All (IsGuarded c) (
              optional_route
                (map_handler (guard basic_auth c) handler)
                (λ t. route "/system/telemetry" ("GET" ∷ []) (counted registry prometheus t))
                rest)
      telemetry-IsGuarded c none rest others = others
      telemetry-IsGuarded c (some handler) rest others =
          (inr (instrument_handler-Rejects c handler ""), others)

      open_routes-IsGuarded :
          (c : BasicAuthCredentials) (handler : Handler S)
          → All (IsGuarded c) (open_routes registry prometheus "/function/" handler)
            × All (IsGuarded c) (open_routes registry prometheus "/flow/" handler)
      unfolding open_routes
      open_routes-IsGuarded c handler =
          ((inl refl, (inl refl, (inl refl, tt))), (inl refl, (inl refl, (inl refl, tt))))

      routes-IsGuarded :
          (c : BasicAuthCredentials) (h : FaasHandlers S)
          → All (IsGuarded c) (routes registry prometheus (guard_handlers basic_auth c h))
      unfolding routes guard_handlers
      routes-IsGuarded c h =
          let P = IsGuarded c in
          let g = guard_handlers basic_auth c h in
          let last = route "/metrics" [] prometheus ∷ [] in
          let telemetry =
            optional_route (map_handler (guard basic_auth c) h.telemetry)
              (λ t. route "/system/telemetry" ("GET" ∷ []) (counted registry prometheus t)) last in
          let health = optional_route h.health (route "/healthz" ("GET" ∷ [])) telemetry in
          let flow = open_routes registry prometheus "/flow/" h.flow_proxy in
          let function = open_routes registry prometheus "/function/" h.function_proxy in
          let checked = telemetry-IsGuarded c h.telemetry last (inl refl, tt) in
          let healthy =
            optional-IsGuarded c h.health (route "/healthz" ("GET" ∷ [])) telemetry (λ f. inl refl)
              checked in
          All-append P (system_routes registry prometheus g) (function ++ (flow ++ health))
            (system_routes-IsGuarded c h)
            (All-append P function (flow ++ health) (open_routes-IsGuarded c h.function_proxy).0
              (All-append P flow health (open_routes-IsGuarded c h.flow_proxy).1 healthy))

      -- If basic authentication is enabled, a server is started only with credentials that were read,
      -- and each of its routes is one of the open paths, or refuses every request that does not give
      -- the user and the password of the credentials: these it answers with the refusal, and counts,
      -- and does nothing else.
      pub serve-IsGuarded :
          {F : Type 0} (disk : Disk) (config : FaasConfig F) (h : FaasHandlers S)
          (server : Server S)
          → config.enable_basic_auth ≡ true
          → serve registry prometheus disk basic_auth config h ≡ ok server
          → (c : BasicAuthCredentials) × (read disk (record {
            secret_mount_path = config.secret_mount_path;
            user_filename = "";
            password_filename = "";
          })
              ≡ ok c)
            × All (IsGuarded c) server.routes
      unfolding serve server_of
      serve-IsGuarded disk config h server enabled started =
          elim (Result-cases (
            read disk (record {
              secret_mount_path = config.secret_mount_path;
              user_filename = "";
              password_filename = "";
            }))) [
              | inr (e, failed) ↦ absurd (ground (arith, failed))
              | inl (c, got) ↦
                  let made : routes registry prometheus (guard_handlers basic_auth c h)
                      ≡ server.routes =
                    ground (arith, got) in
                  (c, got, subst (All (IsGuarded c)) made (routes-IsGuarded c h))
            ]
