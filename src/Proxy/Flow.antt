-- ===== src/Proxy/Flow.antt =====
-- The handler that NewFlowHandler of proxy/proxy.go returns, and types/flows.go: the children of a
-- function are called first, and what they answer goes into the function's own request, whose
-- answer may be cached. Log lines are left out.
pub mod Handler
pub mod Stored
pub mod Caching
pub mod Panics
pub mod Recorded
pub mod Children
pub mod Provenance
use faas_provider.Prelude.{
  ℕ, ◌*◌, ◌==◌, not, ◌&&◌, Bool, true, false, Option, none, some, String, List, [], ◌∷◌, Map,
  lookup, insert, str_eq, if◌then◌else◌, ℤ, Result, ok, err, Error, concat,
}
use faas_provider.Float.{Float}
use faas_provider.Adaptive.Client.{World}
use faas_provider.Adaptive.Orchestrator.{Orchestrator, handle_access}
use faas_provider.Config.{FaasConfig, wrap_int64, second}
use faas_provider.Http.{
  Request, Response, text_of, set_header, write_header, write, errorf_response,
}
use faas_provider.Proxy.Request.{Urls}
use faas_provider.Proxy.Forward.{Network, proxy_request}

pub record FlowChild : Type 0 where
  pub args_map : Map String
  pub function : String

pub record Flow : Type 0 where
  pub args : List String
  pub children : Map FlowChild
  pub caching : Bool
  pub cache_ttl : ℕ
  pub is_third_party : Bool
  pub third_party_url : Option String

pub record FlowOutput : Type 0 where
  pub output : String
  pub function : String

-- A map of arguments is none where it is nil. The request's body and `args` share one map.
pub record FlowInput (V : Type 0) : Type 0 where
  pub args : Option (Map V)
  pub children : Map FlowOutput

-- encoding/json, with its values `V`, and the hexadecimal SHA-1 of a text. The text `null` decodes
-- to a nil map.
pub record Json (V : Type 0) : Type 0 where
  pub null : V
  pub string : String → V
  pub decode : String → Result (Option (Map V))
  pub encode : Map V → Result String
  pub encode_input : FlowInput V → String
  pub hash : String → String

-- The answer to a child's call, with what can be read of its body.
pub record Reply : Type 0 where
  pub status_code : ℕ
  pub bytes : String

-- The cache's client, whose nil bytes are none, and the shared client's POST: whether
-- `http.NewRequest` takes the URL, and `Do`, which is none where it returns no response.
pub record Services (S : Type 0) : Type 0 where
  pub get : String → S → Result (Option String) × S
  pub set_ex : String → String → ℤ → S → Option Error × S
  pub is_url : String → Bool
  pub post : String → String → S → Option Reply × S

-- What a request's run works on.
pub record Run (F S : Type 0) : Type 0 where
  pub response : Response
  pub orchestrator : Option (Orchestrator F)
  pub world : S

-- The next statement, or a `return`, or a panic.
pub data Step (A : Type 0) : Type 0 where
  next : A → Step A
  returned : Step A
  panicked : Step A

abbrev pub M : Type 0 → Type 0 → Type 0 → Type 0
M F S A = Run F S → Step A × Run F S

module _ {F S : Type 0} where
  infixl 5 ◌>>=◌ ◌>>◌
  abbrev pub ◌>>=◌ : {A B : Type 0} → M F S A → (A → M F S B) → M F S B
  ◌>>=◌ m f run =
      let (step, run') = m run in
      elim step [ next a ↦ f a run' | returned ↦ (returned, run') | panicked ↦ (panicked, run') ]

  abbrev pub ◌>>◌ : {B : Type 0} → M F S (Unit {0}) → M F S B → M F S B
  m >> k = m >>= λ _. k

  abbrev pub pure : {A : Type 0} → A → M F S A
  pure a run = (next a, run)

  abbrev pub panic : {A : Type 0} → M F S A
  panic run = (panicked, run)

  -- An answer, and a return.
  abbrev pub answer : {A : Type 0} → (Response → Response) → M F S A
  answer f run = (returned, record run { response = f run.response })

  abbrev pub respond : (Response → Response) → M F S (Unit {0})
  respond f run = (next tt, record run { response = f run.response })

  -- A nil pointer is followed.
  abbrev pub dereference : {A : Type 0} → Option A → M F S A
  dereference none = panic
  dereference (some a) = pure a

abbrev pub no_flow : Flow
no_flow = record {
  args = [];
  children = [];
  caching = false;
  cache_ttl = 0;
  is_third_party = false;
  third_party_url = none;
}

-- `flows.Flows[name]`, which is the zero flow at an unknown name.
unfoldable pub flow_of : Map Flow → String → Flow
flow_of flows name = elim (lookup name flows) [ none ↦ no_flow | some flow ↦ flow ]

module _ {V : Type 0} (j : Json V) where
  -- The map with the function's name in it; a nil map cannot be written to.
  unfoldable pub named : {F S : Type 0} → String → Option (Map V) → M F S (Map V)
  named name none = panic
  named name (some args) = pure (insert "openfaas_flow_function_name" (j.string name) args)

  unfoldable pub cache_key : Map V → String
  cache_key args = j.hash (elim (j.encode args) [ err e ↦ "" | ok text ↦ text ])

  -- The arguments of a child, each the value of a field of the request's, or nil.
  unfoldable pub child_args : Option (Map V) → Map V → Map String → Map V
  child_args given args [] = args
  child_args given args ((arg_field, map_field) ∷ fields) =
      let found : Option V = elim given [ none ↦ none | some m ↦ lookup map_field m ] in
      let value : V = elim found [ none ↦ j.null | some v ↦ v ] in
      child_args given (insert arg_field value args) fields

unfoldable pub destination : Map Flow → FlowChild → Option String
unfolding flow_of
destination flows child =
    let flow = flow_of flows child.function in
    if flow.is_third_party
    then flow.third_party_url
    else some (concat "http://127.0.0.1:8081/flow/" child.function)
