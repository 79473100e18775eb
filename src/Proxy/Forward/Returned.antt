-- ===== src/Proxy/Forward/Returned.antt =====
-- What a proxied request returns for the cache.
use faas_provider.Prelude.{
  ◌≡◌, inl, inr, Bool, some, String, Result-cases, Option-cases, arith, concat,
}
use faas_provider.Http.{Request, Response, text_of, set_header, write_header, write}
use faas_provider.Proxy.Request.{Urls, build_proxy_request}
use faas_provider.Proxy.Forward.{
  Upstream, Network, relay_body, relay, exchange, forward, proxy_request,
}

module _ {S : Type 0} (u : Urls) (net : Network S) where
  open net use {resolve, send, reverse_proxy}

  relay-body :
      (return_body : Bool) (r : Request) (answer : Upstream) (w : Response) (b : String)
      → (relay return_body r answer w).0 ≡ some b
      → (relay return_body r answer w).1.body ≡ concat w.body b
  unfolding relay relay_body write write_header set_header
  relay-body return_body r answer w b h = elim (Option-cases answer.body) [
    | inl e ↦ ground arith
    | inr (text, e) ↦ ground arith
  ]

  exchange-body :
      (return_body : Bool) (name : String) (r proxied : Request) (w : Response) (s : S) (b : String)
      → (exchange u net return_body name r proxied w s).0 ≡ some b
      → (exchange u net return_body name r proxied w s).1.body ≡ concat w.body b
  unfolding exchange
  exchange-body return_body name r proxied w s b h = elim (Result-cases (send proxied s).0) [
    | inr (e, failed) ↦ ground (arith, failed)
    | inl (answer, sent) ↦ ground (arith, sent, relay-body return_body r answer w b)
  ]

  -- What is returned has been written to the client.
  pub proxy_request-body :
      (return_body : Bool) (r : Request) (w : Response) (s : S) (b : String)
      → (proxy_request u net return_body r w s).0 ≡ some b
      → (proxy_request u net return_body r w s).1.body ≡ concat w.body b
  unfolding proxy_request forward
  proxy_request-body return_body r w s b h =
      let name = text_of "name" r.vars in
      elim (Result-cases (resolve name s).0) [
        | inr (e, unknown) ↦ ground (arith, unknown)
        | inl (address, found) ↦
            elim (Result-cases (build_proxy_request u r address (text_of "params" r.vars))) [
              | inr (e, failed) ↦ ground (arith, found, failed)
              | inl (proxied, built) ↦ ground (
                arith,
                found,
                built,
                exchange-body return_body name r proxied w (resolve name s).1 b,
              )
            ]
      ]
