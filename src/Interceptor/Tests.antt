-- ===== src/Interceptor/Tests.antt =====
-- A handler that writes twice, against a response that logs its calls.
use faas_provider.Prelude.{◌%◌, ◌^◌, ◌≡◌, refl, false, List, [], ◌∷◌, arith, All}
use faas_provider.Interceptor.{
  ResponseWriter, Action, set, header, intercept, set_header, body, new_http_write_interceptor,
  status, write_header, write, count,
}
use faas_provider.Interceptor.Forwarding.{
  replay, with_header, last_code, total_length, IsCode, intercept-new,
}
use faas_provider.Prelude.{pos}

program : Unit {0}
unfolding new_http_write_interceptor status set_header write_header write count intercept replay
    with_header last_code total_length
program = tt

-- The latest call first.
abbrev logged : ResponseWriter (List Action)
logged = record {
  set_header = λ k v s. set k v ∷ s;
  write_header = λ code s. header code ∷ s;
  write = λ b s. body b ∷ s;
}

abbrev actions : List Action
actions = set "X" "y" ∷ body (1 ∷ 2 ∷ []) ∷ header 404 ∷ body (3 ∷ []) ∷ []

calls :
    (intercept logged actions (new_http_write_interceptor [])).response
    ≡ body (3 ∷ []) ∷ header 404 ∷ body (1 ∷ 2 ∷ []) ∷ header 200 ∷ set "X" "y" ∷ []
unfolding program
calls = refl

counts : count (intercept logged actions (new_http_write_interceptor [])) ≡ pos 3
unfolding program
counts = refl

codes : All IsCode actions
codes = (tt, (tt, (omega arith, (tt, tt))))

intercept-new_example :
    let c = intercept logged actions (new_http_write_interceptor []) in
    (c.response ≡ replay logged (with_header false actions) [])
    × (status c ≡ last_code 200 (with_header false actions))
    × (c.bytes_written % 2 ^ 64 ≡ total_length actions % 2 ^ 64)
intercept-new_example = intercept-new logged actions [] codes
