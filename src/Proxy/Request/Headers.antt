-- ===== src/Proxy/Request/Headers.antt =====
-- Which headers reach the function, and which reach the client.
use faas_provider.Prelude.{
  ◌≡◌, ◌⊎◌, inl, inr, refl, not, ◌&&◌, Option, none, some, String, [], ◌∷◌, List, str_eq, eq_iff,
  if◌then◌else◌, lookup, insert, lookup-insert, lookup_fresh, HasDistinctKeys, ok, err, Error,
  Result-cases, arith, false, Bool-cases,
}
use faas_provider.Http.{Header, Url, Request, get}
use faas_provider.Proxy.Request.{
  Urls, copy_headers, get_content_type, forwarded_header, target_url, build_proxy_request,
}

-- The source's values replace the destination's, header by header.
pub lookup-copy_headers :
    (k : String) (destination source : Header)
    → HasDistinctKeys source
    → lookup k (copy_headers destination source)
      ≡ (elim (lookup k source) [ none ↦ lookup k destination | some v ↦ some v ])
unfolding copy_headers lookup
lookup-copy_headers k destination [] d = refl
lookup-copy_headers k destination ((j, v) ∷ source) (f, d) =
    let copied = lookup-copy_headers k (insert j v destination) source d in
    ground (arith, copied, lookup_fresh j source f, lookup-insert j k v destination, eq_iff j k)

pub get_content_type-ne :
    (request proxy_response : Header) → str_eq (get_content_type request proxy_response) "" ≡ false
unfolding get_content_type
get_content_type-ne request proxy_response =
    elim (Bool-cases (str_eq (get "Content-Type" proxy_response) "")) [
      | inr own ↦ rw (own, get_content_type) own
      | inl missing ↦ elim (Bool-cases (str_eq (get "Content-Type" request) "")) [
        | inr asked ↦ rw (missing, asked, get_content_type) asked
        | inl neither ↦ rw (missing, neither, get_content_type) refl
      ]
    ]

-- What the function gets as header `k`: the two forwarding headers are added where they are missing
-- or empty, the first one only if the request names a host.
abbrev pub expected_header : Request → String → Option (List String)
expected_header original k =
    if str_eq "X-Forwarded-Host" k
      && not (str_eq original.host "")
      && str_eq (get "X-Forwarded-Host" original.header) ""
    then some (original.host ∷ [])
    else if str_eq "X-Forwarded-For" k && str_eq (get "X-Forwarded-For" original.header) ""
    then some (original.remote_addr ∷ [])
    else lookup k original.header

forwarded_header_lem :
    (original : Request) (k : String)
    → HasDistinctKeys original.header
    → lookup k (forwarded_header original) ≡ expected_header original k
unfolding forwarded_header get lookup
forwarded_header_lem original k d =
    let host : String = "X-Forwarded-Host" in
    let for : String = "X-Forwarded-For" in
    let h = copy_headers [] original.header in
    let h1 = insert host (original.host ∷ []) h in
    ground (
      arith,
      lookup-copy_headers k [] original.header d,
      lookup-copy_headers host [] original.header d,
      lookup-copy_headers for [] original.header d,
      lookup-insert host k (original.host ∷ []) h,
      lookup-insert host for (original.host ∷ []) h,
      lookup-insert for k (original.remote_addr ∷ []) h,
      lookup-insert for k (original.remote_addr ∷ []) h1,
      eq_iff host k,
      eq_iff for k,
      eq_iff host for,
    )

module _ (u : Urls) where
  -- The request for the function, where `http.NewRequest` takes it: the method of the client's, GET
  -- where that is empty, the client's body, a URL made of the resolved address, and the expected headers.
  pub record IsForwarded (original : Request) (base_url : Url) (extra_path : String) (r : Request)
      : Type 0 where
    pub method : r.method ≡ (if str_eq original.method "" then "GET" else original.method)
    pub body : r.body ≡ original.body
    pub url :
        u.new_request original.method (u.url_string (target_url u original base_url extra_path))
        ≡ ok r.url
    pub header : (k : String) → lookup k r.header ≡ expected_header original k

  -- If the client's headers have no key twice: the request is built exactly where `http.NewRequest`
  -- takes its URL, and then it has the client's body and method, GET where that is empty, and every header of the client's,
  -- but for the two forwarding headers where the client sets none.
  pub build_proxy_request_lem :
      (original : Request) (base_url : Url) (extra_path : String)
      → HasDistinctKeys original.header
      → let target = u.url_string (target_url u original base_url extra_path) in
        ((r : Request) × (build_proxy_request u original base_url extra_path ≡ ok r)
          × IsForwarded original base_url extra_path r)
        ⊎ ((e : Error) × (build_proxy_request u original base_url extra_path ≡ err e)
            × (u.new_request original.method target ≡ err e))
  unfolding build_proxy_request
  build_proxy_request_lem original base_url extra_path d =
      elim (Result-cases (
        u.new_request original.method (u.url_string (target_url u original base_url extra_path)))) [
          | inr (e, refused) ↦ inr (e, rw (refused, build_proxy_request) refl, refused)
          | inl (url, taken) ↦
              let r : Request = record {
                method = if str_eq original.method "" then "GET" else original.method;
                host = url.host;
                remote_addr = "";
                url = url;
                header = forwarded_header original;
                body = original.body;
                vars = [];
              } in
              inl (
                r,
                rw (taken, build_proxy_request) refl,
                record {
                  method = refl;
                  body = refl;
                  url = taken;
                  header = λ k. forwarded_header_lem original k d;
                },
              )
        ]
