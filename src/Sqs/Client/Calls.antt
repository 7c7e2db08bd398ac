-- ===== src/Sqs/Client/Calls.antt =====
-- What SqsClient::Call of sqs/SqsPlugin/SqsClient.cpp leaves behind, and when it returns the reply.
use graftcode_extensions.Base.{
  ℕ, ◌≡◌, refl, sym, ap, ◌∙◌, true, false, none, some, List, arith, Bytes, find, find-erase, ltb,
  ◌&&◌, bytes_eq_refl, All, Exception, invalid_argument, runtime_error, codes, Result, ok, throw,
  Bool-cases, Result-cases, inl, inr,
}
use graftcode_extensions.PendingReplies.{PendingReplies, Ticket, register, destroy, remove, wait}
use graftcode_extensions.PendingReplies.Threads.{World, Op, run}
use graftcode_extensions.PendingReplies.Tickets.{Inv}
use graftcode_extensions.PendingReplies.Delivery.{Quiet, Foreign, session}
use graftcode_extensions.PendingReplies.Holders.{ticket_delivered}
use graftcode_extensions.PendingReplies.Isolation.{destroy-register}
use graftcode_extensions.Sqs.Codec.{Base64, Span, span_size, is_null, encode_payload}
use graftcode_extensions.Sqs.Client.{
  SqsClient, Started, AwsFailure, aws_error, take_ticket, drop_ticket, after_encode, build_request,
  continue_call, begin_call, after_send, end_call, reply_or_throw, send_request, ensure_dispatcher,
  hold,
}

register-throws :
    (id : Bytes) (s : PendingReplies) (e : Exception)
    → (register id s).1 ≡ throw e
    → (register id s).0 ≡ s
unfolding register
register-throws id s e h = ground arith

ensure_dispatcher-config : (c : SqsClient) → (ensure_dispatcher c).config ≡ c.config
unfolding ensure_dispatcher
ensure_dispatcher-config c = ground arith

registered_id :
    (id : Bytes) (s : PendingReplies) (t : Ticket)
    → (register id s).1 ≡ ok t
    → (t.id ≡ id) × (t.owner ≡ true)
unfolding register
registered_id id s t h = ground arith

end_call-ok :
    (to_string : ℕ → Bytes) (t : Ticket) (id p : Bytes) (c : SqsClient)
    → (wait t c.pending).1 ≡ ok (some p)
    → (t.id ≡ id) × (t.owner ≡ true)
    → let r = end_call to_string (some t) c in (r.1 ≡ ok p) × (find id r.0.pending.slots ≡ none)
unfolding end_call reply_or_throw destroy remove
end_call-ok to_string t id p c h (i, o) =
    (rw h refl, ground (arith, find-erase id id (wait t c.pending).0.slots, bytes_eq_refl id))

module _ (base64 : Base64) (id : Bytes) (payload : Span) where
  -- What a call has done when it comes to send, or to throw before that.
  data Began (c : SqsClient) (r : SqsClient × Result Started) : Type 0 where
    threw : (e : Exception) → r.1 ≡ throw e → r.0.pending.slots ≡ c.pending.slots → Began c r
    one_way :
        (body : Bytes)
        → c.config.one_way ≡ true
        → encode_payload base64 payload ≡ ok body
        → r ≡ (c, ok (record { request = send_request c.config id body; ticket = none }))
        → Began c r
    waits_on :
        (t : Ticket) (body : Bytes)
        → c.config.one_way ≡ false
        → encode_payload base64 payload ≡ ok body
        → register id c.pending ≡ (r.0.pending, ok t)
        → r.0.config ≡ c.config
        → r.1 ≡ ok (record { request = send_request c.config id body; ticket = some t })
        → Began c r

  one_way-Began :
      (c : SqsClient) → c.config.one_way ≡ true → Began c (build_request base64 c id payload none)
  unfolding build_request after_encode drop_ticket
  one_way-Began c o = elim (Result-cases (encode_payload base64 payload)) [
    | inl (body, e) ↦ one_way body o e (rw e refl)
    | inr (x, e) ↦ threw x (rw e refl) (rw e refl)
  ]

  registered-Began :
      (c : SqsClient) (t : Ticket)
      → c.config.one_way ≡ false
      → (register id c.pending).1 ≡ ok t
      → Began c (
          build_request base64
            (record (ensure_dispatcher c) { pending = (register id c.pending).0 })
            id
            payload
            (some t))
  unfolding build_request after_encode drop_ticket
  registered-Began c t o h = elim (Result-cases (encode_payload base64 payload)) [
    | inl (body, e) ↦
        waits_on t body o e (rw e (λ i. ((register id c.pending).0, h i)))
          (rw e (ensure_dispatcher-config c)) (rw (e, ensure_dispatcher-config c) refl)
    | inr (x, e) ↦ threw x (rw e refl) (
        rw e
          (destroy-register c.pending (register id c.pending).0 id t
            (λ i. ((register id c.pending).0, h i))).0)
  ]

  taken-Began :
      (c : SqsClient)
      → c.config.one_way ≡ false
      → Began c (
          let r = register id c.pending in
          let t = hold (ensure_dispatcher c) r.0 r.1 in continue_call base64 id payload t.0 t.1)
  unfolding hold continue_call
  taken-Began c o = elim (Result-cases (register id c.pending).1) [
    | inl (t, h) ↦ rw (h, hold) (registered-Began c t o h)
    | inr (e, h) ↦
        rw (h, hold)
          (threw e refl (ap (λ (s : PendingReplies). s.slots) (register-throws id c.pending e h)))
  ]

  begin_call_null :
      (c : SqsClient)
      → (ltb 0 (span_size payload) && is_null payload) ≡ true
      → begin_call base64 id payload c
        ≡ (c, throw (invalid_argument (codes "SQS client: null payload with non-zero length")))
  unfolding begin_call
  begin_call_null c y = rw y refl

  begin_call_one_way :
      (c : SqsClient)
      → (ltb 0 (span_size payload) && is_null payload) ≡ false
      → c.config.one_way ≡ true
      → begin_call base64 id payload c ≡ build_request base64 c id payload none
  unfolding begin_call take_ticket continue_call
  begin_call_one_way c n o = simp (n, o)

  begin_call_rpc :
      (c : SqsClient)
      → (ltb 0 (span_size payload) && is_null payload) ≡ false
      → c.config.one_way ≡ false
      → begin_call base64 id payload c ≡ (
          let r = register id c.pending in
          let t = hold (ensure_dispatcher c) r.0 r.1 in continue_call base64 id payload t.0 t.1)
  unfolding begin_call take_ticket
  begin_call_rpc c n o = simp (n, o)

  begin_call-Began : (c : SqsClient) → Began c (begin_call base64 id payload c)
  begin_call-Began c = elim (Bool-cases (ltb 0 (span_size payload) && is_null payload)) [
    | inl y ↦ rw (begin_call_null c y) (threw _ refl refl)
    | inr n ↦ elim (Bool-cases c.config.one_way) [
      | inl o ↦ rw (begin_call_one_way c n o) (one_way-Began c o)
      | inr o ↦ rw (begin_call_rpc c n o) (taken-Began c o)
    ]
  ]

  throws-Began :
      (c : SqsClient) (r : SqsClient × Result Started) (e : Exception)
      → r.1 ≡ throw e
      → Began c r
      → r.0.pending.slots ≡ c.pending.slots
  throws-Began c r e h (threw x y s) = s
  throws-Began c r e h (one_way body o b x) = absurd (cc)
  throws-Began c r e h (waits_on t body o b g k x) = absurd (cc)

  waits-Began :
      (c : SqsClient) (r : SqsClient × Result Started) (s : Started) (t : Ticket)
      → r.1 ≡ ok s
      → s.ticket ≡ some t
      → Began c r
      → (register id c.pending ≡ (r.0.pending, ok t)) × (r.0.config ≡ c.config)
  waits-Began c r s t h k (threw x y z) = absurd (cc)
  waits-Began c r s t h k (one_way body o b x) = absurd (cc)
  waits-Began c r s t h k (waits_on u body o b g f x) = (ground arith, f)

  fails-Began :
      (c : SqsClient) (r : SqsClient × Result Started) (s : Started) (failure : AwsFailure)
      → r.1 ≡ ok s
      → Began c r
      → (after_send (some failure) s r.0).0.pending.slots ≡ c.pending.slots
  unfolding after_send drop_ticket
  fails-Began c r s failure h (threw x y z) = absurd (cc)
  fails-Began c r s failure h (one_way body o b x) = ground arith
  fails-Began c r s failure h (waits_on t body o b g f x) =
      ground (arith, (destroy-register c.pending r.0.pending id t g).0)

  -- A call that throws before it sends leaves no entry behind.
  pub begin_call-throws :
      (c : SqsClient) (e : Exception)
      → (begin_call base64 id payload c).1 ≡ throw e
      → (begin_call base64 id payload c).0.pending.slots ≡ c.pending.slots
  begin_call-throws c e h = throws-Began c _ e h (begin_call-Began c)

  -- A call whose SendMessage fails throws the error that AWS gave, and leaves no entry behind.
  pub failed_send-slots :
      (c : SqsClient) (s : Started) (failure : AwsFailure)
      → (begin_call base64 id payload c).1 ≡ ok s
      → let r = after_send (some failure) s (begin_call base64 id payload c).0 in
        (r.0.pending.slots ≡ c.pending.slots)
        × (r.1 ≡ throw (runtime_error (aws_error (codes "SendMessage") failure)))
  unfolding after_send
  failed_send-slots c s failure h = (fails-Began c _ s failure h (begin_call-Began c), refl)

  -- A call that registered its id gets its reply: until the dispatcher completes the id the other
  -- threads may do anything that neither ends this request nor fails all or closes the set, and
  -- afterwards anything but what is the call's own. The call then returns the payload, and its
  -- entry is gone.
  pub call_delivered :
      (to_string : ℕ → Bytes) (c : SqsClient) (w : World) (s : Started) (t : Ticket) (p : Bytes)
      (before after : List Op)
      → Inv w
      → c.pending ≡ w.replies
      → (begin_call base64 id payload c).1 ≡ ok s
      → s.ticket ≡ some t
      → All (Quiet id) before
      → All (Foreign id) after
      → let now = record c { pending = (run w (session id p before after)).replies } in
        let r = end_call to_string s.ticket now in (r.1 ≡ ok p) × (find id r.0.pending.slots ≡ none)
  call_delivered to_string c w s t p before after v e h k q f =
      let (g, _) = waits-Began c _ s t h k (begin_call-Began c) in
      let made : (register id w.replies).1 ≡ ok t =
        ap (λ (r : PendingReplies). (register id r).1) (sym e)
        ∙ ap (λ (r : PendingReplies × Result Ticket). r.1) g in
      let now = record c { pending = (run w (session id p before after)).replies } in
      rw k (
        end_call-ok to_string t id p now (ticket_delivered w id p before after t v made q f)
          (registered_id id w.replies t made))

  request-Began :
      (c : SqsClient) (r : SqsClient × Result Started) (s : Started) (t : Ticket)
      → r.1 ≡ ok s
      → s.ticket ≡ some t
      → Began c r
      → (c.config.one_way ≡ false)
        × ((body : Bytes) × (encode_payload base64 payload ≡ ok body)
            × (s.request ≡ send_request c.config id body))
  request-Began c r s t h k (threw x y z) = absurd (cc)
  request-Began c r s t h k (one_way body o b x) = absurd (cc)
  request-Began c r s t h k (waits_on u body o b g f x) = (o, (body, b, ground arith))

  pub begin_call-request :
      (c : SqsClient) (s : Started) (t : Ticket)
      → (begin_call base64 id payload c).1 ≡ ok s
      → s.ticket ≡ some t
      → (c.config.one_way ≡ false)
        × ((body : Bytes) × (encode_payload base64 payload ≡ ok body)
            × (s.request ≡ send_request c.config id body))
  begin_call-request c s t h k = request-Began c _ s t h k (begin_call-Began c)
