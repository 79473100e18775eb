-- ===== src/Proxy/Flow/Children.antt =====
-- What the children of a function answer.
use faas_provider.Prelude.{
  ◌≡◌, inl, inr, sym, subst, true, Option, none, some, String, [], ◌∷◌, Map, lookup, insert, str_eq,
  eq_iff, ok, err, Option-cases, Bool-cases, arith, HasDistinctKeys, lookup_fresh, lookup-insert,
}
use faas_provider.Proxy.Flow.{
  FlowChild, Flow, FlowOutput, Json, Reply, Services, Run, next, child_args, destination,
}
use faas_provider.Proxy.Flow.Handler.{call_child, call_children}
use faas_provider.Proxy.Flow.Stored.{Step-cases}

module _ {S V : Type 0} (j : Json V) (services : Services S) (flows : Map Flow)
    (args : Option (Map V)) where
  -- The body of a child's request.
  abbrev pub child_body : FlowChild → String
  child_body child = elim (j.encode (child_args j args [] child.args_map)) [
    | err e ↦ ""
    | ok text ↦ text
  ]

  -- The output is what can be read of the answer to the child's request, in some state of the
  -- outside.
  pub record IsReply (child : FlowChild) (output : FlowOutput) : Type 0 where
    pub url : String
    pub world : S
    pub reply : Reply
    pub sent_to : destination flows child ≡ some url
    pub taken : services.is_url url ≡ true
    pub replied : (services.post url (child_body child) world).0 ≡ some reply
    pub output_of : output.output ≡ reply.bytes
    pub function_of : output.function ≡ child.function

  -- Under the key of a child stands its reply, and under any other what stood there before.
  abbrev pub Matches : Option FlowChild → Option FlowOutput → Option FlowOutput → Type 0
  Matches none before after = after ≡ before
  Matches (some child) before after =
      (output : FlowOutput) × (after ≡ some output) × IsReply child output

  call_child-IsReply :
      {F : Type 0} (child : FlowChild) (run run' : Run F S) (output : FlowOutput)
      → call_child j services flows args child run ≡ (next output, run')
      → IsReply child output
  unfolding call_child
  call_child-IsReply child run run' output h = elim (Option-cases (destination flows child)) [
    | inl e ↦ absurd (ground (arith, h, e))
    | inr (url, e) ↦ elim (Bool-cases (services.is_url url)) [
      | inr refused ↦ absurd (ground (arith, h, e, refused))
      | inl taken ↦ elim (Option-cases (services.post url (child_body child) run.world).0) [
        | inl failed ↦ absurd (ground (arith, h, e, taken, failed))
        | inr (reply, replied) ↦ record {
          url = url;
          world = run.world;
          reply = reply;
          sent_to = e;
          taken = taken;
          replied = replied;
          output_of = ground (arith, h, e, taken, replied);
          function_of = ground (arith, h, e, taken, replied);
        }
      ]
    ]
  ]

  reply-Matches :
      (alias k : String) (child : FlowChild) (children : Map FlowChild) (o : FlowOutput)
      (outputs : Map FlowOutput) (after : Option FlowOutput)
      → HasDistinctKeys ((alias, child) ∷ children)
      → IsReply child o
      → Matches (lookup k children) (lookup k (insert alias o outputs)) after
      → Matches (lookup k ((alias, child) ∷ children)) (lookup k outputs) after
  unfolding lookup
  reply-Matches alias k child children o outputs after (f, d) reply later =
      let before = lookup k (insert alias o outputs) in
      let read = lookup-insert alias k o outputs in
      elim (Bool-cases (str_eq alias k)) [
        | inl here ↦
            let head : lookup k ((alias, child) ∷ children) ≡ some child = ground (arith, here) in
            let missing : lookup k children ≡ none =
              ground (arith, here, eq_iff alias k, lookup_fresh alias children f) in
            let kept : after ≡ before = subst (λ c. Matches c before after) missing later in
            let output : after ≡ some o = ground (arith, kept, read, here) in
            subst (λ c. Matches c (lookup k outputs) after) (sym head) (o, output, reply)
        | inr other ↦
            let head : lookup k ((alias, child) ∷ children) ≡ lookup k children =
              ground (arith, other) in
            let same : before ≡ lookup k outputs = ground (arith, read, other) in
            subst (λ c. Matches c (lookup k outputs) after) (sym head)
              (subst (λ b. Matches (lookup k children) b after) same later)
      ]

  call_children-Matches :
      {F : Type 0} (children : Map FlowChild) (outputs : Map FlowOutput) (run run' : Run F S)
      (out : Map FlowOutput)
      → HasDistinctKeys children
      → call_children j services flows args children outputs run ≡ (next out, run')
      → (k : String) → Matches (lookup k children) (lookup k outputs) (lookup k out)
  unfolding call_children lookup
  call_children-Matches [] outputs run run' out d h k = ground (arith, h)
  call_children-Matches ((alias, child) ∷ children) outputs run run' out (f, d) h k =
      elim (Step-cases (call_child j services flows args child run)) [
        | inr (run1, inl e) ↦ absurd (ground (arith, h, e))
        | inr (run1, inr e) ↦ absurd (ground (arith, h, e))
        | inl (o, run1, e) ↦
            reply-Matches alias k child children o outputs (lookup k out) (f, d)
              (call_child-IsReply child run run1 o e)
              (call_children-Matches children (insert alias o outputs) run1 run' out d
                (ground (arith, h, e)) k)
      ]

  -- If no two children of a function have one alias and all of them are called, the outputs hold
  -- under each alias the answer to a request with the child's arguments, sent to its destination,
  -- beside the name of the child's function, and hold nothing else.
  pub call_children_lem :
      {F : Type 0} (children : Map FlowChild) (run run' : Run F S) (out : Map FlowOutput)
      (k : String)
      → HasDistinctKeys children
      → call_children j services flows args children [] run ≡ (next out, run')
      → Matches (lookup k children) none (lookup k out)
  unfolding lookup
  call_children_lem children run run' out k d h =
      call_children-Matches children [] run run' out d h k
