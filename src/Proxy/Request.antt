-- ===== src/Proxy/Request.antt =====
-- The request that is sent on, and the headers of its answer: buildProxyRequest, copyHeaders and
-- getContentType of proxy/proxy.go.
pub mod Headers
use faas_provider.Prelude.{
  not, ◌&&◌, some, String, [], ◌∷◌, str_eq, if◌then◌else◌, List, insert, Result, ok, err, concat,
}
use faas_provider.Http.{Header, Url, Request, get}

-- `u.Port()` of a host, `u.String()`, and the check and the parse of `http.NewRequest`.
pub record Urls : Type 0 where
  pub port : String → String
  pub url_string : Url → String
  pub new_request : String → String → Result Url

abbrev pub watchdog_port : String
watchdog_port = "8080"

abbrev pub default_content_type : String
default_content_type = "text/plain"

-- The loop over the source, into `destination`. Nothing changes a list of values in place, so a
-- clone is the list itself.
unfoldable pub copy_headers : Header → Header → Header
copy_headers destination [] = destination
copy_headers destination ((k, v) ∷ source) = copy_headers (insert k v destination) source

unfoldable pub get_content_type : Header → Header → String
get_content_type request proxy_response =
    let response_header = get "Content-Type" proxy_response in
    let request_header = get "Content-Type" request in
    if not (str_eq response_header "")
    then response_header
    else if not (str_eq request_header "")
    then request_header
    else default_content_type

-- The headers of the upstream request.
unfoldable pub forwarded_header : Request → Header
unfolding copy_headers
forwarded_header original =
    let h = copy_headers [] original.header in
    let h1 =
      if not (str_eq original.host "") && str_eq (get "X-Forwarded-Host" h) ""
      then insert "X-Forwarded-Host" (original.host ∷ []) h
      else h in
    if str_eq (get "X-Forwarded-For" h1) ""
    then insert "X-Forwarded-For" (original.remote_addr ∷ []) h1
    else h1

module _ (u : Urls) where
  unfoldable pub target_url : Request → Url → String → Url
  target_url original base_url extra_path = record {
    scheme = base_url.scheme;
    host =
        if str_eq (u.port base_url.host) ""
        then concat base_url.host (concat ":" watchdog_port)
        else base_url.host;
    path = extra_path;
    raw_query = original.url.raw_query;
  }

  -- `http.NewRequest` makes an empty method GET. The fields of a request that only a server fills are
  -- empty.
  unfoldable pub build_proxy_request : Request → Url → String → Result Request
  unfolding forwarded_header target_url
  build_proxy_request original base_url extra_path =
      let target = u.url_string (target_url original base_url extra_path) in
      elim (u.new_request original.method target) [
        | err e ↦ err e
        | ok url ↦ ok (record {
          method = if str_eq original.method "" then "GET" else original.method;
          host = url.host;
          remote_addr = "";
          url = url;
          header = forwarded_header original;
          body = original.body;
          vars = [];
        })
      ]
