-- ===== src/Proxy/Flow/Provenance/Steps.antt =====
-- The statements of the handler that do not call the outside, and their composition.
use faas_provider.Prelude.{
  ◌≡◌, subst, inl, inr, refl, Bool, true, false, Option, none, some, String, str_eq, Result, ok,
  err, Bool-cases, Result-cases, arith,
}
use faas_provider.Proxy.Flow.{Json, Services, Run, Step, next, returned, panicked, M, ◌>>=◌}
use faas_provider.Proxy.Flow.Handler.{serve_cached, check_name, check_known, decode_body}

module _ {F S : Type 0} (Q : S → Type 0) where
  -- The statement keeps `Q` of the outside, however it ends.
  abbrev pub Keeps : {A : Type 0} → M F S A → Type 0
  Keeps m = (run : Run F S) → Q run.world → Q (m run).1.world

  pub bind-Keeps :
      {A B : Type 0} (m : M F S A) (f : A → M F S B) (run : Run F S)
      → Q (m run).1.world
      → ((a : A) (run' : Run F S) → m run ≡ (next a, run') → Q run'.world → Q (f a run').1.world)
      → Q ((m >>= f) run).1.world
  bind-Keeps {A = A} m f run h k = go_on (m run) refl h
    where
      go_on :
          (out : Step A × Run F S)
          → m run ≡ out
          → Q out.1.world
          → Q (((λ _. out) >>= f) run).1.world
      go_on (next a, run') e h' = k a run' e h'
      go_on (returned, run') e h' = h'
      go_on (panicked, run') e h' = h'

  module _ {V : Type 0} (j : Json V) (services : Services S) where
    pub serve_cached-Keeps :
        (found : Result (Option String)) → Keeps (serve_cached j services found)
    serve_cached-Keeps (err e) run h = h
    serve_cached-Keeps (ok bytes) run h = h

    pub check_name-Keeps : (name : String) → Keeps (check_name j services name)
    check_name-Keeps name run h = elim (Bool-cases (str_eq name "")) [
      | inl nameless ↦ rw nameless h
      | inr given ↦ rw given h
    ]

    pub check_known-Keeps : (known : Bool) → Keeps (check_known j services known)
    check_known-Keeps true run h = h
    check_known-Keeps false run h = h

    pub decode_body-Keeps : (body : Option String) → Keeps (decode_body j services body)
    decode_body-Keeps none run h = h
    decode_body-Keeps (some text) run h = elim (Result-cases (j.decode text)) [
      | inl (args, decoded) ↦ subst Q (ground (arith, decoded)) h
      | inr (e, bad) ↦ subst Q (ground (arith, bad)) h
    ]
