-- ===== src/RabbitMq/Client/Calls.antt =====
-- What RabbitMqRpcClient::Call of rabbitmq/RabbitmqPlugin/RabbitMqClient.cpp leaves behind, and when
-- it returns the reply.
use graftcode_extensions.Base.{
  ℕ, ◌≡◌, ◌≢◌, refl, sym, ap, ◌∙◌, true, false, ◌&&◌, Option, none, some, List, [], ◌∷◌, ◌++◌, map,
  arith, Bytes, codes, find, is_empty, ltb, All, Exception, runtime_error, invalid_argument, Result,
  ok, throw, Bool-cases, inl, inr,
}
use graftcode_extensions.PendingReplies.{PendingReplies, Ticket, register, fail_all, wait}
use graftcode_extensions.PendingReplies.Isolation.{destroy-register}
use graftcode_extensions.PendingReplies.Threads.{World, Op, completes, step, run}
use graftcode_extensions.PendingReplies.Tickets.{Inv}
use graftcode_extensions.PendingReplies.Delivery.{Quiet, Foreign}
use graftcode_extensions.PendingReplies.Dispatchers.{
  Dispatcher, dispatcher_delivers, registered_ticket, destroy-gone,
}
use graftcode_extensions.Sqs.Codec.{Span, span_size, span_bytes, is_null}
use graftcode_extensions.RabbitMq.Client.{
  RabbitMqRpcClient, Link, Attempt, consumer_ready, unreachable, disconnected, late, new_link,
  current_link, Envelope, publish, published, Meets, with_ticket, with_link, begin_rabbit_call,
  end_call, reply_or_throw, Reply, on_received, receive_all,
}

completed_by : Option Bytes → Bytes → List Op
completed_by none payload = []
completed_by (some id) payload = completes id payload ∷ []

on_received-run :
    (w : World) (r : Reply) (o : Option Bytes)
    → r.correlation_id ≡ o
    → (on_received w.replies r).1 ≡ (run w (completed_by o r.body)).replies
unfolding on_received run step completed_by
on_received-run w r none e = ground arith
on_received-run w r (some id) e = ground arith

receive_all-tags :
    (s : PendingReplies) (rs : List Reply) → (receive_all s rs).0 ≡ map (λ (x : Reply). x.tag) rs
unfolding receive_all on_received
receive_all-tags s [] = refl
receive_all-tags s (r ∷ rs) = ap (◌∷◌ r.tag) (receive_all-tags (on_received s r).1 rs)

completed_by-Foreign :
    (id : Bytes) (o : Option Bytes) (p : Bytes) → All (Foreign id) (completed_by o p)
unfolding completed_by
completed_by-Foreign id none p = tt
completed_by-Foreign id (some j) p = (tt, tt)

rabbit_dispatcher : Dispatcher Reply
unfolding receive_all
rabbit_dispatcher = record {
  ops = λ r. completed_by r.correlation_id r.body;
  dispatch_all = λ s rs. (receive_all s rs).1;
  none_left = λ s. refl;
  first_runs = λ w r rs. ap (λ s. (receive_all s rs).1) (on_received-run w r r.correlation_id refl);
  foreign = λ id r. completed_by-Foreign id r.correlation_id r.body;
}

completed_by-Quiet :
    (id : Bytes) (o : Option Bytes) (p : Bytes) → o ≢ some id → All (Quiet id) (completed_by o p)
unfolding completed_by
completed_by-Quiet id none p n = tt
completed_by-Quiet id (some j) p n = (λ e. n (ap some e), tt)

front-Quiet :
    (id : Bytes) (rs : List Reply)
    → All (λ r. r.correlation_id ≢ some id) rs
    → All (λ r. All (Quiet id) (completed_by r.correlation_id r.body)) rs
front-Quiet id [] a = tt
front-Quiet id (r ∷ rs) a =
    (completed_by-Quiet id r.correlation_id r.body a.0, front-Quiet id rs a.1)

new_link-slots :
    (to_string : ℕ → Bytes) (c : RabbitMqRpcClient) (a : Attempt)
    → (new_link to_string c a).0.pending.slots ≡ c.pending.slots
unfolding new_link fail_all
new_link-slots to_string c (consumer_ready name) = refl
new_link-slots to_string c unreachable = refl
new_link-slots to_string c (disconnected error) = refl
new_link-slots to_string c late = refl

current_link-slots :
    (to_string : ℕ → Bytes) (c : RabbitMqRpcClient) (a : Attempt) (o : Option Link)
    → (current_link to_string c a o).0.pending.slots ≡ c.pending.slots
unfolding current_link
current_link-slots to_string c a none = new_link-slots to_string c a
current_link-slots to_string c a (some link) = ground (arith, new_link-slots to_string c a)

module _ (meets : Meets) (id payload : Bytes) where
  -- What a call has done; `s` is the set of pending replies once there is a link.
  data Began (s : PendingReplies) (r : RabbitMqRpcClient × Result (Envelope × Ticket))
      : Type 0 where
    threw : (e : Exception) → r.1 ≡ throw e → r.0.pending.slots ≡ s.slots → Began s r
    waits_on :
        (link : Link) (envelope : Envelope) (t : Ticket)
        → register id s ≡ (r.0.pending, ok t)
        → publish link meets.is_broken meets.accepted id payload ≡ ok envelope
        → r.1 ≡ ok (envelope, t)
        → Began s r

  register-throws :
      (s : PendingReplies) (e : Exception) → (register id s).1 ≡ throw e → (register id s).0 ≡ s
  unfolding register
  register-throws s e h = ground arith

  published-Began :
      (link : Link) (c : RabbitMqRpcClient) (s : PendingReplies) (t : Ticket) (o : Result Envelope)
      → register id c.pending ≡ (s, ok t)
      → publish link meets.is_broken meets.accepted id payload ≡ o
      → Began c.pending (published (record c { pending = s }) t o)
  unfolding published
  published-Began link c s t (throw e) g h = threw e refl (destroy-register c.pending s id t g).0
  published-Began link c s t (ok envelope) g h = waits_on link envelope t g h refl

  ticket-Began :
      (link : Link) (c : RabbitMqRpcClient) (r : PendingReplies × Result Ticket)
      → register id c.pending ≡ r
      → Began c.pending (with_ticket meets id payload link c r)
  unfolding with_ticket
  ticket-Began link c (s, throw e) h = threw e refl (
      ap (λ (s : PendingReplies). s.slots)
        (sym (ap (λ (r : PendingReplies × Result Ticket). r.0) h)
          ∙ register-throws c.pending e (ap (λ (r : PendingReplies × Result Ticket). r.1) h)))
  ticket-Began link c (s, ok t) h = published-Began link c s t _ h refl

  link-Began :
      (r : RabbitMqRpcClient × Result Link) → Began r.0.pending (with_link meets id payload r)
  unfolding with_link
  link-Began (c, throw e) = threw e refl refl
  link-Began (c, ok link) = ticket-Began link c (register id c.pending) refl

module _ (to_string : ℕ → Bytes) (meets : Meets) (id : Bytes) (payload : Span) where
  abbrev linked : RabbitMqRpcClient → RabbitMqRpcClient × Result Link
  linked c = current_link to_string c meets.attempt c.link

  no_queue :
      (c : RabbitMqRpcClient)
      → is_empty c.config.queue ≡ true
      → begin_rabbit_call to_string meets id payload c
        ≡ (c, throw (runtime_error (codes "RabbitMQ queue is not configured")))
  unfolding begin_rabbit_call
  no_queue c h = simp h

  null_data :
      (c : RabbitMqRpcClient)
      → is_empty c.config.queue ≡ false
      → (ltb 0 (span_size payload) && is_null payload) ≡ true
      → begin_rabbit_call to_string meets id payload c
        ≡ (c, throw (invalid_argument (codes "RabbitMQ client: null payload with non-zero length")))
  unfolding begin_rabbit_call
  null_data c h n = simp (h, n)

  goes_on :
      (c : RabbitMqRpcClient)
      → is_empty c.config.queue ≡ false
      → (ltb 0 (span_size payload) && is_null payload) ≡ false
      → begin_rabbit_call to_string meets id payload c
        ≡ with_link meets id (span_bytes payload) (linked c)
  unfolding begin_rabbit_call
  goes_on c h n = simp (h, n)

  begin_rabbit_call-Began :
      (c : RabbitMqRpcClient)
      → Began meets id
          (span_bytes payload)
          (linked c).0.pending
          (begin_rabbit_call to_string meets id payload c)
  begin_rabbit_call-Began c = elim (Bool-cases (is_empty c.config.queue)) [
    | inl y ↦
        rw (no_queue c y) (threw _ refl (sym (current_link-slots to_string c meets.attempt c.link)))
    | inr n ↦ elim (Bool-cases (ltb 0 (span_size payload) && is_null payload)) [
      | inl y ↦
          rw (null_data c n y)
            (threw _ refl (sym (current_link-slots to_string c meets.attempt c.link)))
      | inr m ↦ rw (goes_on c n m) (link-Began meets id (span_bytes payload) (linked c))
    ]
  ]

  throws-Began :
      (e : Exception) (s : PendingReplies) (r : RabbitMqRpcClient × Result (Envelope × Ticket))
      → r.1 ≡ throw e
      → Began meets id (span_bytes payload) s r
      → r.0.pending.slots ≡ s.slots
  throws-Began e s r h (threw x y z) = z
  throws-Began e s r h (waits_on link envelope t g p x) = absurd (cc)

  -- A call that throws before it waits leaves no entry behind, whether a setting is missing, no link
  -- could be made, the link broke or the broker did not take the request.
  pub begin_rabbit_call-throws :
      (c : RabbitMqRpcClient) (e : Exception)
      → (begin_rabbit_call to_string meets id payload c).1 ≡ throw e
      → (begin_rabbit_call to_string meets id payload c).0.pending.slots ≡ c.pending.slots
  begin_rabbit_call-throws c e h =
      throws-Began e _ _ h (begin_rabbit_call-Began c)
      ∙ current_link-slots to_string c meets.attempt c.link

  registers-Began :
      (s : PendingReplies) (q : Envelope) (t : Ticket)
      (r : RabbitMqRpcClient × Result (Envelope × Ticket))
      → r.1 ≡ ok (q, t)
      → Began meets id (span_bytes payload) s r
      → register id s ≡ (r.0.pending, ok t)
  registers-Began s q t r h (threw x y z) = absurd (cc)
  registers-Began s q t r h (waits_on link envelope u g p x) = ground arith

  ended :
      (p : Bytes) (t : Ticket) (c : RabbitMqRpcClient)
      → (wait t c.pending).1 ≡ ok (some p)
      → (t.id ≡ id) × (t.owner ≡ true)
      → let r = end_call to_string id t c in (r.1 ≡ ok p) × (find id r.0.pending.slots ≡ none)
  unfolding end_call reply_or_throw
  ended p t c h o = (rw h refl, destroy-gone id (wait t c.pending).0 t o)

  -- A call that waits gets its reply: of all that its reply queue delivers, it returns the body of
  -- the first message with its correlation id, and its entry is gone. All messages are acknowledged,
  -- each once and in order, those of other ids and those with none included.
  pub rabbit_call_returns :
      (c : RabbitMqRpcClient) (w : World) (q : Envelope) (t : Ticket) (front back : List Reply)
      (r : Reply)
      → Inv w
      → (current_link to_string c meets.attempt c.link).0.pending ≡ w.replies
      → (begin_rabbit_call to_string meets id payload c).1 ≡ ok (q, t)
      → r.correlation_id ≡ some id
      → All (λ x. x.correlation_id ≢ some id) front
      → let began = (begin_rabbit_call to_string meets id payload c).0 in
        let now = record began { pending = (receive_all began.pending (front ++ r ∷ back)).1 } in
        let e = end_call to_string id t now in
        (e.1 ≡ ok r.body)
        × (find id e.0.pending.slots ≡ none)
        × ((receive_all began.pending (front ++ r ∷ back)).0
            ≡ map (λ (x : Reply). x.tag) (front ++ r ∷ back))
  unfolding rabbit_dispatcher completed_by
  rabbit_call_returns c w q t front back r v e b i a =
      let began = (begin_rabbit_call to_string meets id payload c).0 in
      let rs = front ++ r ∷ back in
      let g = registers-Began _ q t _ b (begin_rabbit_call-Began c) in
      let reg : register id w.replies ≡ (began.pending, ok t) = ap (register id) (sym e) ∙ g in
      let made : (register id w.replies).1 ≡ ok t =
        ap (λ (x : PendingReplies × Result Ticket). x.1) reg in
      let same : began.pending ≡ (register id w.replies).0 =
        sym (ap (λ (x : PendingReplies × Result Ticket). x.0) reg) in
      let answered : (wait t (receive_all began.pending rs).1).1 ≡ ok (some r.body) =
        ap (λ (s : PendingReplies). (wait t (receive_all s rs).1).1) same
        ∙ dispatcher_delivers rabbit_dispatcher w id r.body t front back r v made
            (ap (λ o. completed_by o r.body) i) (front-Quiet id front a) in
      let (returned, gone) =
        ended r.body t (record began { pending = (receive_all began.pending rs).1 }) answered
          (registered_ticket id w.replies t made) in
      (returned, gone, receive_all-tags began.pending rs)
