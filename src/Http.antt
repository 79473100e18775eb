-- ===== src/Http.antt =====
-- What the handlers use of net/http and net/url, and httputil/writers.go. Keys of headers stand in
-- their canonical form. A response sends its headers and its code once; the content type that
-- net/http guesses, and its treatment of informational codes and of answers without a body, are
-- left out.
use faas_provider.Prelude.{
  ℕ, ◌==◌, Option, none, some, String, List, [], ◌∷◌, ◌++◌, Map, lookup, insert, if◌then◌else◌,
  concat,
}

abbrev pub Header : Type 0
Header = Map (List String)

pub record Url : Type 0 where
  pub scheme : String
  pub host : String
  pub path : String
  pub raw_query : String

-- `vars` is what `mux.Vars` gives, and `body` is none where the source's is nil.
pub record Request : Type 0 where
  pub method : String
  pub host : String
  pub remote_addr : String
  pub url : Url
  pub header : Header
  pub body : Option String
  pub vars : Map String

-- `status` is 0 until the headers are sent; `sent` is the headers as they were then.
pub record Response : Type 0 where
  pub header : Header
  pub status : ℕ
  pub sent : Header
  pub body : String

abbrev pub new_response : Response
new_response = record { header = []; status = 0; sent = []; body = "" }

-- The first value, or the empty text.
abbrev pub first : Option (List String) → String
first none = ""
first (some []) = ""
first (some (v ∷ vs)) = v

-- `Header.Get`
unfoldable pub get : String → Header → String
get key h = first (lookup key h)

-- A text of a map, or the empty one.
unfoldable pub text_of : String → Map String → String
text_of key m = elim (lookup key m) [ none ↦ "" | some v ↦ v ]

module _ (key value : String) (w : Response) where
  -- `w.Header().Set`
  unfoldable pub set_header : Response
  set_header = record w { header = insert key (value ∷ []) w.header }

  -- `w.Header().Add`
  unfoldable pub add_header : Response
  add_header =
      let values : List String = elim (lookup key w.header) [ none ↦ [] | some vs ↦ vs ] in
      record w { header = insert key (values ++ (value ∷ [])) w.header }

unfoldable pub write_header : ℕ → Response → Response
write_header code w = if w.status == 0 then record w { status = code; sent = w.header } else w

unfoldable pub write : String → Response → Response
unfolding write_header
write text w = let w1 = write_header 200 w in record w1 { body = concat w1.body text }

-- `http.Error`, through which `Errorf` answers. No Content-Length, which it would remove, is set
-- before it.
unfoldable pub errorf_response : ℕ → String → Response → Response
unfolding write set_header
errorf_response code message w =
    let w1 = set_header "Content-Type" "text/plain; charset=utf-8" w in
    let w2 = set_header "X-Content-Type-Options" "nosniff" w1 in
    write (concat message "\n") (write_header code w2)
