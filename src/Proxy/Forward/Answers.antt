-- ===== src/Proxy/Forward/Answers.antt =====
-- What a client gets for a proxied request, on every branch.
use faas_provider.Prelude.{
  ℕ, ◌≡◌, ◌≢◌, ◌⊎◌, inl, inr, refl, ◌==◌, Bool, true, false, Option, none, some, String, List, [],
  ◌∷◌, str_eq, eq_iff, if◌then◌else◌, lookup, insert, lookup-insert, lookup-insert_self, ◌++◌, ok,
  err, Error, Result-cases, Option-cases, Bool-cases, arith, concat,
}
use faas_provider.Http.{
  Url, Request, Response, text_of, set_header, add_header, write_header, write, errorf_response,
}
use faas_provider.Proxy.Request.{Urls, copy_headers, get_content_type, build_proxy_request}
use faas_provider.Proxy.Forward.{
  Upstream, Network, openfaas_internal_header, refuse_proxied, relay_body, relay, is_streaming,
  exchange, forward, proxy_request,
}

-- An error of the proxy's own, marked as such: it has the code, and there is nothing to cache.
pub record IsRefused (code : ℕ) (reply : Option String) (w' : Response) : Type 0 where
  pub nothing : reply ≡ none
  pub status : w'.status ≡ code
  pub marked : lookup openfaas_internal_header w'.sent ≢ none

-- The function's own answer, with a content type; what there is to cache is its body, if that is
-- wanted.
pub record IsRelayed (return_body : Bool) (original : Request) (answer : Upstream) (w : Response)
    (reply : Option String) (w' : Response) : Type 0 where
  pub status : w'.status ≡ answer.status_code
  pub content :
      lookup "Content-Type" w'.sent ≡ some (get_content_type original.header answer.header ∷ [])
  pub reply_is : reply ≡ (if return_body then answer.body else none)
  pub written : w'.body ≡ (elim answer.body [ none ↦ w.body | some text ↦ concat w.body text ])

refuse_proxied-IsRefused :
    (code : ℕ) (message : String) (w : Response)
    → w.status ≡ 0
    → (code == 0) ≡ false
    → IsRefused code none (refuse_proxied code message w)
unfolding refuse_proxied errorf_response write write_header set_header add_header
refuse_proxied-IsRefused code message w unsent real =
    let mark = openfaas_internal_header in
    let content : String = "Content-Type" in
    let options : String = "X-Content-Type-Options" in
    let before : List String = elim (lookup mark w.header) [ none ↦ [] | some vs ↦ vs ] in
    let h1 = insert mark (before ++ ("proxy" ∷ [])) w.header in
    let h2 = insert content ("text/plain; charset=utf-8" ∷ []) h1 in
    record {
      nothing = refl;
      status = ground arith;
      marked = λ e. ground (
        arith,
        e,
        lookup-insert options mark ("nosniff" ∷ []) h2,
        lookup-insert content mark ("text/plain; charset=utf-8" ∷ []) h1,
        lookup-insert mark mark (before ++ ("proxy" ∷ [])) w.header,
        eq_iff options mark,
        eq_iff content mark,
        eq_iff mark mark,
      );
    }

relay-IsRelayed :
    (return_body : Bool) (original : Request) (answer : Upstream) (w : Response)
    → w.status ≡ 0
    → (answer.status_code == 0) ≡ false
    → let out = relay return_body original answer w in
      IsRelayed return_body original answer w out.0 out.1
unfolding relay relay_body write_header write set_header
relay-IsRelayed return_body original answer w unsent real =
    let content = get_content_type original.header answer.header in
    let set =
      lookup-insert_self "Content-Type" (content ∷ []) (copy_headers w.header answer.header) in
    elim (Option-cases answer.body) [
      | inl e ↦ record {
        status = ground arith;
        content = ground (arith, set);
        reply_is = ground arith;
        written = ground arith;
      }
      | inr (text, e) ↦ record {
        status = ground arith;
        content = ground (arith, set);
        reply_is = ground arith;
        written = ground arith;
      }
    ]

module _ {S : Type 0} (net : Network S) where
  open net use {send, reverse_proxy}

  -- An answer that the client gets has a code.
  abbrev pub HasCodes : Type 0
  HasCodes =
      (r : Request) (s : S) (answer : Upstream)
      → (send r s).0 ≡ ok answer
      → (answer.status_code == 0) ≡ false

  -- The outcome once the request for the function is built.
  abbrev pub Exchanged : Bool → Request → Request → Response → S → Option String → Response → Type 0
  Exchanged return_body original proxied w s reply w' =
      ((is_streaming original ≡ true)
        × (reply ≡ none)
        × (w' ≡ (reverse_proxy (record original { url = proxied.url }) w s).0))
      ⊎ ((is_streaming original ≡ false)
          × (((e : Error) × ((send proxied s).0 ≡ err e) × IsRefused 500 reply w')
              ⊎ ((answer : Upstream) × ((send proxied s).0 ≡ ok answer)
                  × IsRelayed return_body original answer w reply w')))

module _ {S : Type 0} (u : Urls) (net : Network S) where
  open net use {resolve, send, reverse_proxy}

  -- The outcome of a proxied request, with its cause.
  abbrev pub Answered : Bool → Request → Response → S → Option String → Response → Type 0
  Answered return_body r w s reply w' =
      let name = text_of "name" r.vars in
      ((name ≡ "") × IsRefused 400 reply w')
      ⊎ ((name ≢ "")
          × (((e : Error) × ((resolve name s).0 ≡ err e) × IsRefused 503 reply w')
              ⊎ ((address : Url) × ((resolve name s).0 ≡ ok address)
                  × (((e : Error) × (build_proxy_request u r address (text_of "params" r.vars)
                          ≡ err e)
                        × IsRefused 500 reply w')
                      ⊎ ((proxied : Request) × (build_proxy_request u r address
                              (text_of "params" r.vars)
                            ≡ ok proxied)
                          × Exchanged net return_body r proxied w (resolve name s).1 reply w')))))

  exchange_lem :
      HasCodes net
      → (return_body : Bool) (name : String) (original proxied : Request) (w : Response) (s : S)
      → w.status ≡ 0
      → let out = exchange u net return_body name original proxied w s in
        Exchanged net return_body original proxied w s out.0 out.1
  unfolding exchange
  exchange_lem codes return_body name original proxied w s unsent =
      elim (Bool-cases (is_streaming original)) [
        | inl streams ↦ rw (streams, exchange) (inl (refl, refl, refl))
        | inr plain ↦ elim (Result-cases (send proxied s).0) [
          | inr (e, failed) ↦
              rw (plain, failed, exchange)
                (inr (refl, inl (e, refl, refuse_proxied-IsRefused 500 _ w unsent refl)))
          | inl (answer, sent) ↦
              rw (plain, sent, exchange)
                (inr (
                  refl,
                  inr (
                    answer,
                    refl,
                    relay-IsRelayed return_body original answer w unsent
                        (codes proxied s answer sent),
                  ),
                ))
        ]
      ]

  -- A request whose response has not begun is answered once, in one of these ways: 400 where no name
  -- is given, 503 where the name is not resolved, 500 where the request for the function cannot be
  -- built or cannot be sent, each marked as the proxy's own and with nothing to cache; by the
  -- reverse proxy where the client wants a stream; or else with the function's code, its content
  -- type and its body, which is returned if that is wanted. Answers that come have a code.
  pub proxy_request_lem :
      HasCodes net
      → (return_body : Bool) (r : Request) (w : Response) (s : S) → w.status ≡ 0
      → let (reply, w', _) = proxy_request u net return_body r w s in
        Answered return_body r w s reply w'
  unfolding proxy_request forward
  proxy_request_lem codes return_body r w s unsent =
      let name = text_of "name" r.vars in
      elim (Bool-cases (str_eq name "")) [
        | inl nameless ↦
            rw (nameless, proxy_request)
              (inl ((eq_iff name "").0 nameless, refuse_proxied-IsRefused 400 _ w unsent refl))
        | inr given ↦
            let some_name : name ≢ "" = λ e. ground (arith, e, given, eq_iff name "") in
            elim (Result-cases (resolve name s).0) [
              | inr (e, unknown) ↦
                  rw (given, unknown, proxy_request, forward)
                    (inr (some_name, inl (e, refl, refuse_proxied-IsRefused 503 _ w unsent refl)))
              | inl (address, found) ↦
                  elim (Result-cases (build_proxy_request u r address (text_of "params" r.vars))) [
                    | inr (e, failed) ↦
                        rw (given, found, failed, proxy_request, forward)
                          (inr (
                            some_name,
                            inr (
                              address,
                              refl,
                              inl (e, failed, refuse_proxied-IsRefused 500 _ w unsent refl),
                            ),
                          ))
                    | inl (proxied, built) ↦
                        rw (given, found, built, proxy_request, forward)
                          (inr (
                            some_name,
                            inr (
                              address,
                              refl,
                              inr (
                                proxied,
                                built,
                                exchange_lem codes return_body name r proxied w (resolve name s).1
                                    unsent,
                              ),
                            ),
                          ))
                  ]
            ]
      ]
