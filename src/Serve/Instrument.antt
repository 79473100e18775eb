-- ===== src/Serve/Instrument.antt =====
-- metrics.go: a handler with its requests counted. A handler is what it calls on its writer, in
-- order, with what it does to the world `S`.
pub mod Counting
use Prim.Native.Char.{code as char_code}
use Prim.Native.String
use Prim.Native.String.{String}
use faas_provider.Prelude.{ℕ, ◌-◌, List, [], ◌∷◌, ◌++◌, str_eq, if◌then◌else◌, Option}
use faas_provider.Http.{Request}
use faas_provider.Auth.{Writer, BasicAuthCredentials, decorate_with_basic_auth}
use faas_provider.Interceptor.{
  ResponseWriter, Action, set, header, body, intercept, new_http_write_interceptor, status,
}

abbrev pub Handler : Type 0 → Type 0
Handler S = Request → S → List Action × S

-- The labels of the two vectors.
pub record Labels : Type 0 where
  pub code : ℕ
  pub method : String
  pub path : String

-- The clock, and `Observe` and `Inc` of the vectors at given labels. Durations are in nanoseconds.
pub record Registry (S : Type 0) : Type 0 where
  pub now : S → ℕ × S
  pub observe : Labels → ℕ → S → S
  pub inc : Labels → S → S

-- The bytes of an ASCII text.
abbrev pub bytes : String → List ℕ
bytes String.[] = []
bytes (String.◌∷◌ c s) = char_code c ∷ bytes s

-- A writer that keeps the calls made to it.
abbrev pub kept : ResponseWriter (List Action)
kept = record {
  set_header = λ k v calls. calls ++ (set k v ∷ []);
  write_header = λ code calls. calls ++ (header code ∷ []);
  write = λ b calls. calls ++ (body b ∷ []);
}

module _ {S : Type 0} where
  -- The deferred calls run after the handler, the last one first.
  unfoldable pub instrument_handler : Registry S → Handler S → String → Handler S
  unfolding intercept
  instrument_handler registry handler path_override r s =
      let (start, s1) = registry.now s in
      let (calls, s2) = handler r s1 in
      let (end, s3) = registry.now s2 in
      let ww = intercept kept calls (new_http_write_interceptor []) in
      let labels : Labels = record {
        code = status ww;
        method = r.method;
        path = if str_eq path_override "" then r.url.path else path_override;
      } in
      (ww.response, registry.inc labels (registry.observe labels (end - start) s3))

  -- The writer of a guarded handler, and the guard.
  abbrev pub recorder : Writer (List Action × S)
  recorder = record {
    set_header = λ k v c. (c.0 ++ (set k v ∷ []), c.1);
    write_header = λ code c. (c.0 ++ (header code ∷ []), c.1);
    write = λ text c. (c.0 ++ (body (bytes text) ∷ []), c.1);
  }

  -- A handler that goes on after the calls that were made.
  abbrev pub resume : Handler S → Request → List Action × S → List Action × S
  resume handler r (calls, s) = let (more, s') = handler r s in (calls ++ more, s')

  -- `basic_auth` is `r.BasicAuth()`.
  unfoldable pub guard :
      (Request → Option (String × String)) → BasicAuthCredentials → Handler S → Handler S
  guard basic_auth credentials handler r s =
      let start : List Action × S = ([], s) in
      decorate_with_basic_auth recorder (resume handler r) credentials (basic_auth r) start
