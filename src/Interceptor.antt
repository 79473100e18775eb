-- ===== src/Interceptor.antt =====
-- httputil/write_interceptor.go: a response's writer that remembers the status and the bytes
-- written. Flush, Hijack and CloseNotify pass the call on and keep no state.
pub mod Forwarding
mod Tests
use faas_provider.Prelude.{
  ℕ, ◌+◌, ◌==◌, ◌%◌, ◌^◌, ltb, if◌then◌else◌, List, [], ◌∷◌, length, ℤ, String, String,
}
use faas_provider.Config.{wrap_int64}

-- `http.ResponseWriter`, over the state of the response; its data are bytes.
pub record ResponseWriter (S : Type 0) : Type 0 where
  pub set_header : String → String → S → S
  pub write_header : ℕ → S → S
  pub write : List ℕ → S → S

-- `bytes_written` holds the 64 bits of the source's int64.
pub record HttpWriteInterceptor (S : Type 0) : Type 0 where
  pub response : S
  pub status_code : ℕ
  pub bytes_written : ℕ

-- What a handler calls on its writer.
pub data Action : Type 0 where
  set : String → String → Action
  header : ℕ → Action
  body : List ℕ → Action

module _ {S : Type 0} where
  unfoldable pub new_http_write_interceptor : S → HttpWriteInterceptor S
  new_http_write_interceptor s = record { response = s; status_code = 0; bytes_written = 0 }

  unfoldable pub status : HttpWriteInterceptor S → ℕ
  status c = if c.status_code == 0 then 200 else c.status_code

  unfoldable pub count : HttpWriteInterceptor S → ℤ
  count c = wrap_int64 c.bytes_written

  module _ (w : ResponseWriter S) where
    unfoldable pub write_header : ℕ → HttpWriteInterceptor S → HttpWriteInterceptor S
    write_header code c = record c { status_code = code; response = w.write_header code c.response }

    unfoldable pub write : List ℕ → HttpWriteInterceptor S → HttpWriteInterceptor S
    unfolding write_header
    write data_bytes c =
        let c1 = if c.status_code == 0 then write_header 200 c else c in
        record c1 {
          bytes_written = (c1.bytes_written + length data_bytes) % 2 ^ 64;
          response = w.write data_bytes c1.response;
        }

    -- `Header()` is the response's own, so that a set goes there.
    unfoldable pub set_header : String → String → HttpWriteInterceptor S → HttpWriteInterceptor S
    set_header k v c = record c { response = w.set_header k v c.response }

    -- The calls of a handler, in order.
    unfoldable pub intercept : List Action → HttpWriteInterceptor S → HttpWriteInterceptor S
    unfolding set_header write_header write
    intercept [] c = c
    intercept (set k v ∷ actions) c = intercept actions (set_header k v c)
    intercept (header code ∷ actions) c = intercept actions (write_header code c)
    intercept (body b ∷ actions) c = intercept actions (write b c)
