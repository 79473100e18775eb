-- ===== src/Logs/Answers.antt =====
-- What the handler answers, on every branch.
use faas_provider.Prelude.{
  ◌≡◌, ◌⊎◌, ◌↔◌, inl, inr, ◌&&◌, ◌∙◌, Bool, true, false, none, some, String, List, [], ◌∷◌, Map,
  eq_iff, Result, ok, err, Error, Result-cases, Option-cases, Bool-cases, arith, lookup, insert,
  lookup-insert_self,
}
use text.Mathlib.TextLemmas.{nil-append}
use faas_provider.Http.{Response, set_header, write_header, write, errorf_response}
use faas_provider.Logs.{
  LogRequest, Formats, Signal, Stream, get_value, flush, parse_request, stream, begin, log_handler,
}
use faas_provider.Logs.Delivery.{lines, stream-Extends}

module _ {T : Type 0} (f : Formats T) where
  -- The text is absent, or parses without an error.
  abbrev pub AcceptsTail : Map (List String) → Type 0
  AcceptsTail query = (get_value query "tail" ≡ "") ⊎ ((f.atoi (get_value query "tail")).1 ≡ none)

  abbrev pub AcceptsSince : Map (List String) → Type 0
  AcceptsSince query =
      (get_value query "since" ≡ "") ⊎ ((f.parse_time (get_value query "since")).1 ≡ none)

  -- A request is refused exactly where its tail or its time is given and does not parse.
  pub parse_request_iff :
      (query : Map (List String))
      → ((parse_request f query).1 ≡ none) ↔ (AcceptsTail query × AcceptsSince query)
  unfolding parse_request
  parse_request_iff query =
      let tail = eq_iff (get_value query "tail") "" in
      let since = eq_iff (get_value query "since") "" in
      (
        λ h. (ground (arith, tail, since), ground (arith, tail, since)),
        λ h. ground (arith, tail, since),
      )

  -- A stream of `text`: the code 200 and its content type were sent first, and all the text was sent.
  pub record IsStreamed (text : String) (c : Stream) : Type 0 where
    pub status : c.response.status ≡ 200
    pub content : lookup "Content-Type" c.response.sent ≡ some ("application/x-ndjson" ∷ [])
    pub body : c.response.body ≡ text
    pub sent : c.flushed ≡ c.response.body

  begin-IsStreamed : (w : Response) → w.status ≡ 0 → w.body ≡ "" → IsStreamed "" (begin w)
  unfolding begin flush write_header set_header
  begin-IsStreamed w unsent blank =
      let h =
        insert "Transfer-Encoding" ("chunked" ∷ [])
          (insert "Connection" ("Keep-Alive" ∷ []) w.header) in
      let set = lookup-insert_self "Content-Type" ("application/x-ndjson" ∷ []) h in
      record {
        status = ground arith;
        content = ground (arith, set);
        body = ground arith;
        sent = ground arith;
      }

  stream-IsStreamed :
      (signals : List (Signal T)) (w : Response)
      → w.status ≡ 0
      → w.body ≡ ""
      → IsStreamed (lines f signals) (stream f signals (begin w))
  stream-IsStreamed signals w unsent blank =
      let b = begin-IsStreamed w unsent blank in
      let x =
        stream-Extends f signals (begin w)
          (record { begun = ground (arith, b.status); sent = b.sent }) in
      record {
        status = ground (arith, x.status, b.status);
        content = ground (arith, x.headers, b.content);
        body = x.body ∙ rw b.body (nil-append (lines f signals));
        sent = x.all;
      }

  module _ (submit : LogRequest T → Result (List (Signal T))) where
    -- A request whose response has not begun is answered by 404 where the writer cannot stream; or
    -- else by 422 where it does not parse; or else by 500 where the query fails; or else by the
    -- lines of the messages, under the code 200, of which nothing is left to send.
    pub log_handler_lem :
        (notifies flushes : Bool) (query : Map (List String)) (w : Response)
        → w.status ≡ 0
        → w.body ≡ ""
        → let (request, refused) = parse_request f query in
          let c = log_handler f submit notifies flushes query w in
          (((notifies && flushes) ≡ false) × (c.response.status ≡ 404))
          ⊎ (((notifies && flushes) ≡ true)
              × (((e : Error) × (refused ≡ some e) × (c.response.status ≡ 422))
                  ⊎ ((refused ≡ none)
                      × (((e : Error) × (submit request ≡ err e) × (c.response.status ≡ 500))
                          ⊎ ((signals : List (Signal T)) × (submit request ≡ ok signals)
                              × IsStreamed (lines f signals) c)))))
    unfolding log_handler errorf_response write write_header set_header
    log_handler_lem notifies flushes query w unsent blank =
        let (request, refused) = parse_request f query in
        elim (Bool-cases (notifies && flushes)) [
          | inr unable ↦ inl (unable, ground arith)
          | inl able ↦
              let n : notifies ≡ true = ground arith in
              let s : flushes ≡ true = ground arith in
              elim (Option-cases refused) [
                | inr (e, bad) ↦ inr (able, inl (e, bad, ground (arith, bad)))
                | inl good ↦ elim (Result-cases (submit request)) [
                  | inr (e, failed) ↦
                      inr (able, inr (good, inl (e, failed, ground (arith, good, failed))))
                  | inl (signals, got) ↦ inr (
                    able,
                    inr (
                      good,
                      inr (
                        signals,
                        got,
                        rw (n, s, good, got, log_handler)
                            (stream-IsStreamed signals w unsent blank),
                      ),
                    ),
                  )
                ]
              ]
        ]
