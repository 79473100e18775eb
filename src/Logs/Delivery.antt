-- ===== src/Logs/Delivery.antt =====
-- What of the messages reaches the client.
use faas_provider.Prelude.{
  ◌≡◌, inl, inr, refl, ap, subst, ◌∙◌, ◌==◌, false, String, List, [], ◌∷◌, ok, err, Result-cases,
  arith, concat,
}
use text.Mathlib.TextLemmas.{append-nil, append_assoc}
use faas_provider.Http.{write_header, write}
use faas_provider.Logs.{
  Formats, Signal, closed, message, ended, Stream, flush, put, finish, failure, put_failure, stream,
}

-- A stream that has begun: nothing that was written waits to be sent.
pub record IsFlushed (c : Stream) : Type 0 where
  pub begun : (c.response.status == 0) ≡ false
  pub sent : c.flushed ≡ c.response.body

-- `c'` goes on from `c` by `text`, all of it sent, with the code and the headers that were sent.
pub record Extends (text : String) (c c' : Stream) : Type 0 where
  pub body : c'.response.body ≡ concat c.response.body text
  pub all : c'.flushed ≡ c'.response.body
  pub status : c'.response.status ≡ c.response.status
  pub headers : c'.response.sent ≡ c.response.sent

finish-Extends : (c : Stream) → (c.response.status == 0) ≡ false → Extends "" c (finish c)
unfolding finish flush put write write_header
finish-Extends c begun = record {
  body = ground arith;
  all = refl;
  status = ground arith;
  headers = ground arith;
}

put-Extends :
    (text : String) (c : Stream)
    → (c.response.status == 0) ≡ false
    → Extends text c (flush (put text c))
unfolding flush put write write_header
put-Extends text c begun = record {
  body = ground arith;
  all = refl;
  status = ground arith;
  headers = ground arith;
}

Extends-trans :
    (s t : String) (a b c : Stream) → Extends s a b → Extends t b c → Extends (concat s t) a c
Extends-trans s t a b c f g = record {
  body = g.body ∙ ap (λ x. concat x t) f.body ∙ append_assoc a.response.body s t;
  all = g.all;
  status = g.status ∙ f.status;
  headers = g.headers ∙ f.headers;
}

module _ {T : Type 0} (f : Formats T) where
  abbrev pub failure_line : String
  failure_line = elim (f.encode (failure f)) [ err e ↦ "" | ok line ↦ line ]

  -- The lines of the messages, up to the close, the end, or a message that cannot be serialized,
  -- for which the failure's line stands.
  unfoldable pub lines : List (Signal T) → String
  lines [] = ""
  lines (closed ∷ signals) = ""
  lines (ended ∷ signals) = ""
  lines (message m ∷ signals) = elim (f.encode m) [
    | err e ↦ failure_line
    | ok line ↦ concat line (lines signals)
  ]

  failure-Extends :
      (c : Stream)
      → (c.response.status == 0) ≡ false
      → Extends failure_line c (flush (put_failure f c))
  unfolding put_failure flush put write write_header
  failure-Extends c begun = elim (Result-cases (f.encode (failure f))) [
    | inr (e, failed) ↦ record {
      body = ground (arith, failed, append-nil c.response.body);
      all = refl;
      status = ground arith;
      headers = ground arith;
    }
    | inl (line, made) ↦ record {
      body = ground (arith, made);
      all = refl;
      status = ground (arith, made);
      headers = ground (arith, made);
    }
  ]

  pub stream-Extends :
      (signals : List (Signal T)) (c : Stream)
      → IsFlushed c
      → Extends (lines signals) c (stream f signals c)
  unfolding stream lines
  stream-Extends [] c i = record {
    body = ground (arith, append-nil c.response.body);
    all = i.sent;
    status = refl;
    headers = refl;
  }
  stream-Extends (closed ∷ signals) c i = finish-Extends c i.begun
  stream-Extends (ended ∷ signals) c i = finish-Extends c i.begun
  stream-Extends (message m ∷ signals) c i = elim (Result-cases (f.encode m)) [
    | inr (e, failed) ↦
        let c1 = flush (put_failure f c) in
        let first = failure-Extends c i.begun in
        rw (failed, stream, lines)
          (subst (λ t. Extends t c (finish c1)) (append-nil failure_line)
            (Extends-trans failure_line "" c c1 (finish c1) first
              (finish-Extends c1 (ground (arith, first.status)))))
    | inl (line, made) ↦
        let c1 = flush (put line c) in
        let first = put-Extends line c i.begun in
        rw (made, stream, lines)
          (Extends-trans line (lines signals) c c1 (stream f signals c1) first (
            stream-Extends signals c1
              (record { begun = ground (arith, first.status); sent = first.all })))
  ]
