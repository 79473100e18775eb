-- ===== src/Serve/Instrument/Counting.antt =====
-- What is counted of a request, and what the client gets of a counted handler.
use faas_provider.Prelude.{
  ◌-◌, ◌≡◌, refl, sym, ◌∙◌, false, List, [], ◌∷◌, ◌++◌, All, str_eq, if◌then◌else◌, String,
}
use mathlib.Core.List.{append-nil, append_assoc}
use faas_provider.Http.{Request}
use faas_provider.Interceptor.{Action, set, header, body}
use faas_provider.Interceptor.Forwarding.{replay, with_header, last_code, IsCode, intercept-new}
use faas_provider.Serve.Instrument.{Handler, Labels, Registry, kept, instrument_handler}

replay-kept : (actions calls : List Action) → replay kept actions calls ≡ calls ++ actions
unfolding replay
replay-kept [] calls = sym (append-nil calls)
replay-kept (set k v ∷ actions) calls =
    replay-kept actions (calls ++ (set k v ∷ [])) ∙ append_assoc calls (set k v ∷ []) actions
replay-kept (header code ∷ actions) calls =
    replay-kept actions (calls ++ (header code ∷ []))
    ∙ append_assoc calls (header code ∷ []) actions
replay-kept (body b ∷ actions) calls =
    replay-kept actions (calls ++ (body b ∷ [])) ∙ append_assoc calls (body b ∷ []) actions

module _ {S : Type 0} (registry : Registry S) where
  -- A counted handler makes the calls of the handler, if its codes are at least 100, with a status of
  -- 200 before a body that no header precedes. Then the duration is observed and the request is
  -- counted once, under the code of the last call of WriteHeader, be it the one that was sent or
  -- not, or under 200 without such a call, with the request's method, and its path or the path that
  -- stands for it.
  pub instrument_handler_lem :
      (handler : Handler S) (path_override : String) (r : Request) (s : S)
      → All IsCode (handler r (registry.now s).1).0
      → let (start, s1) = registry.now s in
        let (calls, s2) = handler r s1 in
        let (end, s3) = registry.now s2 in
        let labels : Labels = record {
          code = last_code 200 (with_header false calls);
          method = r.method;
          path = if str_eq path_override "" then r.url.path else path_override;
        } in
        instrument_handler registry handler path_override r s
        ≡ (with_header false calls, registry.inc labels (registry.observe labels (end - start) s3))
  unfolding instrument_handler
  instrument_handler_lem handler path_override r s codes =
      let (start, s1) = registry.now s in
      let (calls, s2) = handler r s1 in
      let (end, s3) = registry.now s2 in
      let (passed, code, _) = intercept-new kept calls [] codes in
      rw (passed, code, replay-kept (with_header false calls) []) refl
