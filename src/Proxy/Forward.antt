-- ===== src/Proxy/Forward.antt =====
-- proxyRequest and NewHandlerFunc of proxy/proxy.go: one request to one function. What a deferred
-- call closes, and the context of a request, are left out.
pub mod Answers
pub mod Returned
use faas_provider.Prelude.{
  ℕ, ◌||◌, Bool, true, false, Option, none, some, String, List, [], ◌∷◌, ◌++◌, str_eq,
  if◌then◌else◌, Result, ok, err, concat,
}
use faas_provider.Http.{
  Header, Url, Request, Response, get, text_of, set_header, add_header, write_header, write,
  errorf_response,
}
use faas_provider.Proxy.Request.{Urls, copy_headers, get_content_type, build_proxy_request}

-- The answer of a function. `body` is what can be read of it, and none where it is nil.
pub record Upstream : Type 0 where
  pub status_code : ℕ
  pub header : Header
  pub body : Option String

-- What a proxied request meets, over the state of the network: the provider's resolver, the proxy
-- client's `Do`, and `ServeHTTP` of the reverse proxy.
pub record Network (S : Type 0) : Type 0 where
  pub resolve : String → S → Result Url × S
  pub send : Request → S → Result Upstream × S
  pub reverse_proxy : Request → Response → S → Response × S

abbrev pub openfaas_internal_header : String
openfaas_internal_header = "X-Openfaas-Internal"

-- An error of the proxy's own.
unfoldable pub refuse_proxied : ℕ → String → Response → Response
refuse_proxied code message w =
    errorf_response code message (add_header openfaas_internal_header "proxy" w)

-- The text that is read of the answer and, if it is asked for, returned.
unfoldable pub relay_body : Bool → Option String → Response → Option String × Response
relay_body return_body none w = (none, w)
relay_body return_body (some text) w = (if return_body then some text else none, write text w)

-- The answer is copied to the client.
unfoldable pub relay : Bool → Request → Upstream → Response → Option String × Response
unfolding relay_body
relay return_body original answer w =
    let w1 = record w { header = copy_headers w.header answer.header } in
    let w2 = set_header "Content-Type" (get_content_type original.header answer.header) w1 in
    relay_body return_body answer.body (write_header answer.status_code w2)

unfoldable pub is_streaming : Request → Bool
is_streaming r =
    str_eq (get "Accept" r.header) "text/event-stream"
    || str_eq (get "Upgrade" r.header) "websocket"

-- The methods of the switch.
unfoldable pub is_proxied : String → Bool
is_proxied method =
    str_eq method "POST"
    || str_eq method "PUT"
    || str_eq method "PATCH"
    || str_eq method "DELETE"
    || str_eq method "GET"
    || str_eq method "OPTIONS"
    || str_eq method "HEAD"

module _ {S : Type 0} (u : Urls) (net : Network S) where
  open net use {resolve, send, reverse_proxy}

  -- From the request's building on.
  unfoldable pub exchange :
      Bool → String → Request → Request → Response → S → Option String × Response × S
  unfolding refuse_proxied
  exchange return_body name original proxied w s =
      let (streamed, s') = reverse_proxy (record original { url = proxied.url }) w s in
      let (answered, s1) = send proxied s in
      let (returned, w1) : Option String × Response = elim answered [
        | err e ↦
            (none, refuse_proxied 500 (concat "Can't reach service for: " (concat name ".")) w)
        | ok answer ↦ relay return_body original answer w
      ] in
      if is_streaming original then (none, streamed, s') else (returned, w1, s1)

  unfoldable pub forward : Bool → String → Request → Response → S → Option String × Response × S
  unfolding exchange
  forward return_body name r w s =
      let (resolved, s1) = resolve name s in
      elim resolved [
        | err e ↦ (
          none,
          refuse_proxied 503 (concat "No endpoints available for: " (concat name ".")) w,
          s1,
        )
        | ok address ↦ elim (build_proxy_request u r address (text_of "params" r.vars)) [
          | err e ↦ (
            none,
            refuse_proxied 500 (concat "Failed to resolve service: " (concat name ".")) w,
            s1,
          )
          | ok proxied ↦ exchange return_body name r proxied w s1
        ]
      ]

  unfoldable pub proxy_request : Bool → Request → Response → S → Option String × Response × S
  unfolding forward
  proxy_request return_body r w s =
      let name = text_of "name" r.vars in
      if str_eq name ""
      then (none, refuse_proxied 400 "Provide function name in the request path" w, s)
      else forward return_body name r w s

  -- The handler that `NewHandlerFunc` makes of a resolver that is not nil.
  unfoldable pub handle : Request → Response → S → Response × S
  unfolding proxy_request
  handle r w s =
      let (_, w1, s1) = proxy_request false r w s in
      if is_proxied r.method then (w1, s1) else (write_header 405 w, s)
