-- ===== src/Interceptor/Forwarding.antt =====
-- What a handler's calls come to at the response, and what the interceptor says of them.
use faas_provider.Prelude.{
  ℕ, ◌+◌, ◌%◌, ◌^◌, ◌≡◌, refl, ◌==◌, Bool, true, false, if◌then◌else◌, List, [], ◌∷◌, length, arith,
  Bool-cases, inl, inr, All, ◌≤◌,
}
use faas_provider.Interceptor.{
  ResponseWriter, HttpWriteInterceptor, Action, set, header, body, intercept, set_header,
  new_http_write_interceptor, status, write_header, write,
}

-- The calls that reach the response: a status of 200 goes before a body that none precedes.
unfoldable pub with_header : Bool → List Action → List Action
with_header sent [] = []
with_header sent (header code ∷ actions) = header code ∷ with_header true actions
with_header sent (set k v ∷ actions) = set k v ∷ with_header sent actions
with_header true (body b ∷ actions) = body b ∷ with_header true actions
with_header false (body b ∷ actions) = header 200 ∷ body b ∷ with_header true actions

-- The code of the last header, or `code` where there is none.
unfoldable pub last_code : ℕ → List Action → ℕ
last_code code [] = code
last_code code (header c ∷ actions) = last_code c actions
last_code code (set k v ∷ actions) = last_code code actions
last_code code (body b ∷ actions) = last_code code actions

unfoldable pub total_length : List Action → ℕ
total_length [] = 0
total_length (set k v ∷ actions) = total_length actions
total_length (header code ∷ actions) = total_length actions
total_length (body b ∷ actions) = length b + total_length actions

-- `net/http` takes no code below 100.
abbrev pub IsCode : Action → Type 0
IsCode (header code) = 100 ≤ code
IsCode (set k v) = Unit
IsCode (body b) = Unit

module _ {S : Type 0} (w : ResponseWriter S) where
  -- The calls, made to the response itself.
  unfoldable pub replay : List Action → S → S
  replay [] s = s
  replay (header code ∷ actions) s = replay actions (w.write_header code s)
  replay (set k v ∷ actions) s = replay actions (w.set_header k v s)
  replay (body b ∷ actions) s = replay actions (w.write b s)

  abbrev sent : HttpWriteInterceptor S → Bool
  sent c = if c.status_code == 0 then false else true

  forwards :
      (actions : List Action) (c : HttpWriteInterceptor S)
      → All IsCode actions
      → (intercept w actions c).response ≡ replay (with_header (sent c) actions) c.response
  unfolding intercept replay with_header write write_header set_header
  forwards [] c codes = refl
  forwards (header code ∷ actions) c (high, codes) =
      ground (arith, forwards actions (write_header w code c) codes)
  forwards (set k v ∷ actions) c (_, codes) =
      ground (arith, forwards actions (set_header w k v c) codes)
  forwards (body b ∷ actions) c (_, codes) = elim (Bool-cases (c.status_code == 0)) [
    | inl unset ↦ ground (arith, unset, forwards actions (write w b c) codes)
    | inr chosen ↦ ground (arith, chosen, forwards actions (write w b c) codes)
  ]

  last_status :
      (actions : List Action) (c : HttpWriteInterceptor S)
      → All IsCode actions
      → status (intercept w actions c) ≡ last_code (status c) (with_header (sent c) actions)
  unfolding intercept last_code with_header write write_header set_header status
  last_status [] c codes = refl
  last_status (header code ∷ actions) c (high, codes) =
      ground (arith, last_status actions (write_header w code c) codes)
  last_status (set k v ∷ actions) c (_, codes) =
      ground (arith, last_status actions (set_header w k v c) codes)
  last_status (body b ∷ actions) c (_, codes) = elim (Bool-cases (c.status_code == 0)) [
    | inl unset ↦ ground (arith, unset, last_status actions (write w b c) codes)
    | inr chosen ↦ ground (arith, chosen, last_status actions (write w b c) codes)
  ]

  counted :
      (actions : List Action) (c : HttpWriteInterceptor S)
      → (intercept w actions c).bytes_written % 2 ^ 64
        ≡ (c.bytes_written + total_length actions) % 2 ^ 64
  unfolding intercept total_length write write_header set_header
  counted [] c = omega arith
  counted (header code ∷ actions) c = ground (arith, counted actions (write_header w code c))
  counted (set k v ∷ actions) c = ground (arith, counted actions (set_header w k v c))
  counted (body b ∷ actions) c = elim (Bool-cases (c.status_code == 0)) [
    | inl unset ↦ ground (arith, unset, counted actions (write w b c))
    | inr chosen ↦ ground (arith, chosen, counted actions (write w b c))
  ]

  -- Through a new interceptor, calls with codes of at least 100 reach the response as they are made,
  -- with a status of 200 before a body that no header precedes; the status reported is that of the
  -- last header that the response got, or 200; and the bytes counted are those of all bodies, up to
  -- 64 bits.
  pub intercept-new :
      (actions : List Action) (s : S)
      → All IsCode actions
      → let c = intercept w actions (new_http_write_interceptor s) in
        (c.response ≡ replay (with_header false actions) s)
        × (status c ≡ last_code 200 (with_header false actions))
        × (c.bytes_written % 2 ^ 64 ≡ total_length actions % 2 ^ 64)
  unfolding new_http_write_interceptor status
  intercept-new actions s codes =
      let c = new_http_write_interceptor s in
      (forwards actions c codes, last_status actions c codes, omega (arith, counted actions c))
