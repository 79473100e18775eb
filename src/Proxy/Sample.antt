-- ===== src/Proxy/Sample.antt =====
-- A small network with a cache, and the flows that the tests run on it.
use faas_provider.Prelude.{
  ℕ, ◌+◌, true, false, none, some, String, [], ◌∷◌, ok, err, errorf, concat, str_eq, if◌then◌else◌,
  Map, lookup, insert,
}
use faas_provider.Float.{Decimal, decimal_float}
use faas_provider.Adaptive.Client.{World}
use faas_provider.Http.{Request}
use faas_provider.Proxy.Request.{Urls}
use faas_provider.Proxy.Forward.{Network}
use faas_provider.Proxy.Flow.{Flow, FlowChild, Json, Services}

-- The cache, and how many requests have been sent to functions.
abbrev pub Net : Type 0
Net = Map String × ℕ

instance abbrev pub net_world : World Decimal Net
net_world = record {
  status = λ s. (err (errorf "no cache server"), s);
  set_policy = λ name s. (none, s);
  now = λ s. (0, s);
  sleep = λ n s. s;
}

abbrev pub urls : Urls
urls = record {
  port = λ host. "";
  url_string = λ url. concat "http://" (concat url.host (concat "/" url.path));
  new_request =
      λ method target. ok (record { scheme = "http"; host = target; path = ""; raw_query = "" });
}

abbrev pub network : Network Net
network = record {
  resolve = λ name s.
      if str_eq name "gone"
      then (err (errorf "no endpoints"), s)
      else (ok (record { scheme = "http"; host = name; path = ""; raw_query = "" }), s);
  send = λ r s. (
    ok (record {
      status_code = 200;
      header = ("Content-Type", "application/json" ∷ []) ∷ [];
      body = r.body;
    }),
    (s.0, s.1 + 1),
  );
  reverse_proxy = λ r w s. (w, s);
}

-- A value is a text.
abbrev pub json : Json String
json = record {
  null = "null";
  string = λ s. s;
  decode = λ text. if str_eq text "{}" then ok (some []) else err (errorf "json");
  encode = λ m. ok (elim m [ [] ↦ "" | (k, v) ∷ rest ↦ concat k v ]);
  encode_input = λ input. "input";
  hash = λ text. text;
}

abbrev pub services : Services Net
services = record {
  get = λ key s. (elim (lookup key s.0) [ none ↦ err (errorf "miss") | some v ↦ ok (some v) ], s);
  set_ex = λ key bytes ttl s. (none, (insert key bytes s.0, s.1));
  is_url = λ url. true;
  post = λ url body s. (some (record { status_code = 200; bytes = "out" }), s);
}

abbrev pub cached : Map FlowChild → Flow
cached children = record {
  args = [];
  children = children;
  caching = true;
  cache_ttl = 60;
  is_third_party = false;
  third_party_url = none;
}

abbrev pub flows : Map Flow
flows =
    ("f", cached (("c", record { args_map = ("x", "y") ∷ []; function = "g" }) ∷ []))
    ∷ ("gone", cached [])
    ∷ []

abbrev pub request : String → Request
request name = record {
  method = "POST";
  host = "gateway";
  remote_addr = "10.0.0.1";
  url = record { scheme = ""; host = ""; path = ""; raw_query = "" };
  header = ("X-Forwarded-For", "1.2.3.4" ∷ []) ∷ [];
  body = some "{}";
  vars = ("name", name) ∷ [];
}
