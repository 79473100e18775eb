-- ===== src/Logs.antt =====
-- logs/handler.go and logs/logs.go: a request for a function's logs, and the stream that answers
-- it. Log lines of the handler's own are left out.
pub mod Delivery
pub mod Answers
mod Tests
use faas_provider.Prelude.{
  ℕ, ◌==◌, Bool, true, false, not, Option, none, some, String, List, [], ◌∷◌, Map, lookup, last?,
  str_eq, if◌then◌else◌, ℤ, pos, Result, ok, err, Error, concat,
}
use faas_provider.Http.{Response, set_header, write_header, write, errorf_response}

-- `T` is the type of times, and `since` is a pointer.
pub record LogRequest (T : Type 0) : Type 0 where
  pub name : String
  pub namespace : String
  pub instance_name : String
  pub since : Option T
  pub tail : ℤ
  pub follow : Bool

pub record Message (T : Type 0) : Type 0 where
  pub name : String
  pub namespace : String
  pub instance_name : String
  pub timestamp : T
  pub text : String

-- `strconv.Atoi`, `strconv.ParseBool` without its error, `time.Parse` at RFC 3339, `Time.String`, a
-- number's decimal digits,
-- and the line that a JSON encoder writes for a message. A parser returns a value beside its error.
pub record Formats (T : Type 0) : Type 0 where
  pub atoi : String → ℤ × Option Error
  pub parse_bool : String → Bool
  pub parse_time : String → T × Option Error
  pub time_string : T → String
  pub int_string : ℤ → String
  pub zero_time : T
  pub encode : Message T → Result String

-- What the loop's `select` receives: the client's close, a message, or the channel's end.
pub data Signal (T : Type 0) : Type 0 where
  closed : Signal T
  message : Message T → Signal T
  ended : Signal T

-- A response and what of its body the client has been sent.
pub record Stream : Type 0 where
  pub response : Response
  pub flushed : String

-- `values[len(values)-1]`, or the empty text.
unfoldable pub get_value : Map (List String) → String → String
get_value query name = elim (lookup name query) [
  | none ↦ ""
  | some values ↦ elim (last? values) [ none ↦ "" | some v ↦ v ]
]

-- `Flush` sends the headers too.
unfoldable pub flush : Stream → Stream
flush c = let w = write_header 200 c.response in record { response = w; flushed = w.body }

unfoldable pub put : String → Stream → Stream
put text c = record c { response = write text c.response }

-- The deferred calls, the last one first.
unfoldable pub finish : Stream → Stream
unfolding flush put
finish c = flush (put "" (flush c))

-- The headers, and their flush.
unfoldable pub begin : Response → Stream
unfolding flush
begin w =
    let w1 = set_header "Connection" "Keep-Alive" w in
    let w2 = set_header "Transfer-Encoding" "chunked" w1 in
    let w3 = set_header "Content-Type" "application/x-ndjson" w2 in
    flush (record { response = write_header 200 w3; flushed = "" })

-- An answer that is not a stream is flushed by the server.
abbrev pub whole : Response → Stream
whole w = record { response = w; flushed = w.body }

module _ {T : Type 0} (f : Formats T) where
  -- `Message.String`
  unfoldable pub message_string : Message T → String
  message_string m =
      let ns : String = if str_eq m.namespace "" then "" else concat m.namespace " " in
      concat (f.time_string m.timestamp) (
        concat " "
          (concat m.name (concat " (" (concat ns (concat m.instance_name (concat ") " m.text))))))

  -- `Request.String`
  unfoldable pub request_string : LogRequest T → String
  request_string r =
      let since : String = elim r.since [ none ↦ "<nil>" | some t ↦ f.time_string t ] in
      concat "name: " (
        concat r.name (
          concat " namespace: " (
            concat r.namespace (
              concat " instance: " (
                concat r.instance_name (
                  concat " since: " (
                    concat since (
                      concat " tail: " (
                        concat (f.int_string r.tail)
                          (concat " follow: " (if r.follow then "true" else "false")))))))))))

  -- The request and the error beside it.
  unfoldable pub parse_request : Map (List String) → LogRequest T × Option Error
  parse_request query =
      let tail_str = get_value query "tail" in
      let since_str = get_value query "since" in
      let (parsed_tail, tail_error) = f.atoi tail_str in
      let (parsed_since, since_error) = f.parse_time since_str in
      let blank : LogRequest T = record {
        name = get_value query "name";
        namespace = get_value query "namespace";
        instance_name = get_value query "instance";
        since = none;
        tail = if str_eq tail_str "" then pos 0 else parsed_tail;
        follow = false;
      } in
      let tailed : LogRequest T = record blank {
        follow = f.parse_bool (get_value query "follow");
      } in
      let read : LogRequest T × Option Error =
        if str_eq since_str ""
        then (tailed, none)
        else (record tailed { since = some parsed_since }, since_error) in
      let checked : LogRequest T × Option Error = elim tail_error [
        | some e ↦ (blank, some e)
        | none ↦ read
      ] in
      if str_eq tail_str "" then read else checked

  -- The message that stands for one that cannot be serialized.
  abbrev pub failure : Message T
  failure = record {
    name = "";
    namespace = "";
    instance_name = "";
    timestamp = f.zero_time;
    text = "failed to serialize log message";
  }

  unfoldable pub put_failure : Stream → Stream
  unfolding put
  put_failure c = elim (f.encode failure) [ err e ↦ c | ok line ↦ put line c ]

  -- The loop, up to its return. The empty list is a loop that still waits.
  unfoldable pub stream : List (Signal T) → Stream → Stream
  unfolding flush put finish put_failure
  stream [] c = c
  stream (closed ∷ signals) c = finish c
  stream (ended ∷ signals) c = finish c
  stream (message m ∷ signals) c = elim (f.encode m) [
    | err e ↦ finish (flush (put_failure c))
    | ok line ↦ stream signals (flush (put line c))
  ]

  -- `notifies` and `flushes` say whether the writer is a CloseNotifier and a Flusher; `submit` is the
  -- requester's `Query`, with what is then received.
  unfoldable pub log_handler :
      (LogRequest T → Result (List (Signal T)))
      → Bool
      → Bool
      → Map (List String)
      → Response
      → Stream
  unfolding parse_request stream begin
  log_handler submit notifies flushes query w =
      let (request, refused) = parse_request query in
      let answered : Stream = elim (submit request) [
        | err e ↦ whole (errorf_response 500 "function log request failed" w)
        | ok signals ↦ stream signals (begin w)
      ] in
      let parsed : Stream = elim refused [
        | some e ↦ whole (errorf_response 422 "could not parse the log request" w)
        | none ↦ answered
      ] in
      if not notifies
      then whole (errorf_response 404 "404 page not found" w)
      else if not flushes
      then whole (errorf_response 404 "404 page not found" w)
      else parsed
