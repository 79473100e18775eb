-- ===== src/Logs/Tests.antt =====
-- A stream of two messages, of which the client closes the second.
use faas_provider.Prelude.{
  ℕ, ◌≡◌, ◌⊎◌, ◌↔◌, refl, ◌&&◌, true, false, none, some, String, List, [], ◌∷◌, Map, str_eq,
  if◌then◌else◌, pos, Result, ok, err, Error, errorf, concat, insert, lookup,
}
use faas_provider.Http.{new_response, set_header, write_header, write, errorf_response}
use faas_provider.Logs.{
  LogRequest, Message, Formats, Signal, message, ended, get_value, flush, put, finish,
  parse_request, put_failure, stream, begin, log_handler, message_string, request_string,
}
use faas_provider.Logs.Delivery.{lines}
use faas_provider.Logs.Answers.{
  AcceptsTail, AcceptsSince, IsStreamed, parse_request_iff, log_handler_lem,
}

program : Unit {0}
unfolding set_header write_header write errorf_response get_value flush put finish parse_request
    put_failure stream begin log_handler message_string lines insert lookup
program = tt

abbrev formats : Formats ℕ
formats = record {
  atoi = λ s. if str_eq s "5" then (pos 5, none) else (pos 0, some (errorf "syntax"));
  parse_bool = λ s. str_eq s "true";
  parse_time = λ s. if str_eq s "noon" then (12, none) else (0, some (errorf "parse"));
  time_string = λ t. "t";
  int_string = λ n. "0";
  zero_time = 0;
  encode = λ m. if str_eq m.text "bad" then err (errorf "json") else ok (concat m.text "\n");
}

abbrev said : String → Message ℕ
said text = record { name = "f"; namespace = "n"; instance_name = "i"; timestamp = 1; text = text }

printed : message_string formats (said "hi") ≡ "t f (n i) hi"
unfolding program
printed = refl

abbrev asked : String → String → LogRequest ℕ
asked namespace instance_name = record {
  name = "f";
  namespace = namespace;
  instance_name = instance_name;
  since = none;
  tail = pos 0;
  follow = false;
}

-- Two requests that are printed alike.
alike :
    request_string formats (asked "a instance: b" "c")
    ≡ request_string formats (asked "a" "b instance: c")
unfolding program request_string
alike = refl

abbrev query : Map (List String)
query = ("name", "g" ∷ "f" ∷ []) ∷ ("tail", "5" ∷ []) ∷ ("since", "noon" ∷ []) ∷ []

abbrev signals : List (Signal ℕ)
signals = message (said "one") ∷ message (said "bad") ∷ message (said "two") ∷ ended ∷ []

abbrev submit : LogRequest ℕ → Result (List (Signal ℕ))
submit r = if str_eq r.name "f" then ok signals else err (errorf "unknown")

delivered :
    (log_handler formats submit true true query new_response).flushed
    ≡ "one\nfailed to serialize log message\n"
unfolding program
delivered = refl

refused :
    (log_handler formats submit true true (("tail", "x" ∷ []) ∷ []) new_response).response.status
    ≡ 422
unfolding program
refused = refl

parse_request_iff_example :
    ((parse_request formats query).1 ≡ none)
    ↔ (AcceptsTail formats query × AcceptsSince formats query)
parse_request_iff_example = parse_request_iff formats query

log_handler_lem_example :
    let (request, refused) = parse_request formats query in
    let c = log_handler formats submit true true query new_response in
    (((true && true) ≡ false) × (c.response.status ≡ 404))
    ⊎ (((true && true) ≡ true)
        × (((e : Error) × (refused ≡ some e) × (c.response.status ≡ 422))
            ⊎ ((refused ≡ none)
                × (((e : Error) × (submit request ≡ err e) × (c.response.status ≡ 500))
                    ⊎ ((signals : List (Signal ℕ)) × (submit request ≡ ok signals)
                        × IsStreamed formats (lines formats signals) c)))))
log_handler_lem_example = log_handler_lem formats submit true true query new_response refl refl
