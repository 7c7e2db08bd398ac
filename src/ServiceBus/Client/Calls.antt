-- ===== src/ServiceBus/Client/Calls.antt =====
-- What ServiceBusRpcClient::Call of servicebus/ServiceBusPlugin/ServiceBusClient.cpp leaves behind when
-- it throws, and when it waits.
use graftcode_extensions.Base.{
  ◌≡◌, refl, sym, ap, ◌∙◌, Bool, true, false, ◌&&◌, Option, none, some, arith, Bytes, codes, ltb,
  Exception, invalid_argument, Result, ok, throw, Bool-cases, inl, inr,
}
use graftcode_extensions.PendingReplies.{PendingReplies, Ticket, register, destroy}
use graftcode_extensions.PendingReplies.Isolation.{destroy-register}
use graftcode_extensions.Sqs.Codec.{Span, span_size, span_bytes, is_null}
use graftcode_extensions.ServiceBus.Amqp.{AmqpMessage}
use graftcode_extensions.ServiceBus.Client.{
  ServiceBusRpcClient, is_one_way, new_link, current_link, request_message, Meets, send, sent_with,
  sent_one_way, with_ticket, with_link, begin_service_bus_call,
}

new_link-keeps :
    (c : ServiceBusRpcClient) (opened : Bool)
    → let r = (new_link c opened).0 in
      (r.pending ≡ c.pending) × (r.config ≡ c.config) × (r.reply_session_id ≡ c.reply_session_id)
unfolding new_link
new_link-keeps c opened = ground arith

current_link-keeps :
    (c : ServiceBusRpcClient) (opened : Bool) (o : Option Bool)
    → let r = (current_link c opened o).0 in
      (r.pending ≡ c.pending) × (r.config ≡ c.config) × (r.reply_session_id ≡ c.reply_session_id)
unfolding current_link
current_link-keeps c opened none = new_link-keeps c opened
current_link-keeps c opened (some true) = new_link-keeps c opened
current_link-keeps c opened (some false) = (refl, refl, refl)

send-pending : (c : ServiceBusRpcClient) (accepted : Bool) → (send c accepted).0.pending ≡ c.pending
unfolding send
send-pending c accepted = ground arith

module _ (meets : Meets) (id payload : Bytes) where
  -- What a call has done; `c` is the client once it has a link.
  data Began (c : ServiceBusRpcClient)
      (r : ServiceBusRpcClient × Result (AmqpMessage × Option Ticket)) : Type 0 where
    threw : (e : Exception) → r.1 ≡ throw e → r.0.pending.slots ≡ c.pending.slots → Began c r
    one_way :
        (m : AmqpMessage)
        → is_one_way c.config ≡ true
        → r.0.pending ≡ c.pending
        → r.1 ≡ ok (m, none)
        → Began c r
    waits_on :
        (t : Ticket)
        → is_one_way c.config ≡ false
        → register id c.pending ≡ (r.0.pending, ok t)
        → r.1 ≡ ok (request_message c id payload, some t)
        → Began c r

  register-throws :
      (s : PendingReplies) (e : Exception) → (register id s).1 ≡ throw e → (register id s).0 ≡ s
  unfolding register
  register-throws s e h = ground arith

  sent_with-Began :
      (c : ServiceBusRpcClient) (s : PendingReplies) (t : Ticket)
      (r : ServiceBusRpcClient × Result (Unit {0}))
      → is_one_way c.config ≡ false
      → register id c.pending ≡ (s, ok t)
      → r.0.pending ≡ s
      → Began c (sent_with t (request_message c id payload) r)
  unfolding sent_with
  sent_with-Began c s t (d, throw e) o h k =
      threw e refl (
        ap (λ (p : PendingReplies). (destroy t p).slots) k
        ∙ (destroy-register c.pending s id t h).0)
  sent_with-Began c s t (d, ok x) o h k =
      waits_on t o (h ∙ ap (λ (p : PendingReplies). (p, ok t)) (sym k)) refl

  ticket-Began :
      (c : ServiceBusRpcClient) (r : PendingReplies × Result Ticket)
      → is_one_way c.config ≡ false
      → register id c.pending ≡ r
      → Began c (with_ticket meets (request_message c id payload) c r)
  unfolding with_ticket
  ticket-Began c (s, throw e) o h = threw e refl (
      ap (λ (s : PendingReplies). s.slots)
        (sym (ap (λ (r : PendingReplies × Result Ticket). r.0) h)
          ∙ register-throws c.pending e (ap (λ (r : PendingReplies × Result Ticket). r.1) h)))
  ticket-Began c (s, ok t) o h =
      sent_with-Began c s t (send (record c { pending = s }) meets.accepted) o h
        (send-pending (record c { pending = s }) meets.accepted)

  one_way-Began :
      (c : ServiceBusRpcClient) (m : AmqpMessage) (r : ServiceBusRpcClient × Result (Unit {0}))
      → is_one_way c.config ≡ true
      → r.0.pending ≡ c.pending
      → Began c (sent_one_way m r)
  unfolding sent_one_way
  one_way-Began c m (d, throw e) o k = threw e refl (ap (λ (s : PendingReplies). s.slots) k)
  one_way-Began c m (d, ok x) o k = one_way m o k refl

  one_way_lem :
      (c : ServiceBusRpcClient) (x : Unit {0})
      → is_one_way c.config ≡ true
      → with_link meets id payload (c, ok x)
        ≡ sent_one_way (request_message c id payload) (send c meets.accepted)
  unfolding with_link
  one_way_lem c x h = simp h

  rpc_lem :
      (c : ServiceBusRpcClient) (x : Unit {0})
      → is_one_way c.config ≡ false
      → with_link meets id payload (c, ok x)
        ≡ with_ticket meets (request_message c id payload) c (register id c.pending)
  unfolding with_link
  rpc_lem c x h = simp h

  linked-Began :
      (c : ServiceBusRpcClient) (x : Unit {0}) → Began c (with_link meets id payload (c, ok x))
  linked-Began c x = elim (Bool-cases (is_one_way c.config)) [
    | inl y ↦ rw (one_way_lem c x y) (
        one_way-Began c (request_message c id payload) (send c meets.accepted) y
          (send-pending c meets.accepted))
    | inr n ↦ rw (rpc_lem c x n) (ticket-Began c (register id c.pending) n refl)
  ]

  link-Began :
      (r : ServiceBusRpcClient × Result (Unit {0})) → Began r.0 (with_link meets id payload r)
  link-Began (c, throw e) = unfold with_link in threw e refl refl
  link-Began (c, ok x) = linked-Began c x

module _ (meets : Meets) (id : Bytes) (payload : Span) where
  abbrev linked : ServiceBusRpcClient → ServiceBusRpcClient × Result (Unit {0})
  linked c = current_link c meets.opened c.link

  null_data :
      (c : ServiceBusRpcClient)
      → (ltb 0 (span_size payload) && is_null payload) ≡ true
      → begin_service_bus_call meets id payload c ≡ (
        c,
        throw (invalid_argument (codes "Service Bus client: null payload with non-zero length")),
      )
  unfolding begin_service_bus_call
  null_data c h = simp h

  goes_on :
      (c : ServiceBusRpcClient)
      → (ltb 0 (span_size payload) && is_null payload) ≡ false
      → begin_service_bus_call meets id payload c
        ≡ with_link meets id (span_bytes payload) (linked c)
  unfolding begin_service_bus_call
  goes_on c h = simp h

  linked-slots : (c : ServiceBusRpcClient) → (linked c).0.pending.slots ≡ c.pending.slots
  linked-slots c = ap (λ (s : PendingReplies). s.slots) (current_link-keeps c meets.opened c.link).0

  begin_service_bus_call-Began :
      (c : ServiceBusRpcClient)
      → Began meets id (span_bytes payload) (linked c).0 (begin_service_bus_call meets id payload c)
  begin_service_bus_call-Began c =
      elim (Bool-cases (ltb 0 (span_size payload) && is_null payload)) [
        | inl y ↦ rw (null_data c y) (threw _ refl (sym (linked-slots c)))
        | inr n ↦ rw (goes_on c n) (link-Began meets id (span_bytes payload) (linked c))
      ]

  throws-Began :
      (e : Exception) (c : ServiceBusRpcClient)
      (r : ServiceBusRpcClient × Result (AmqpMessage × Option Ticket))
      → r.1 ≡ throw e
      → Began meets id (span_bytes payload) c r
      → r.0.pending.slots ≡ c.pending.slots
  throws-Began e c r h (threw x y z) = z
  throws-Began e c r h (one_way m o p x) = absurd (cc)
  throws-Began e c r h (waits_on t o g x) = absurd (cc)

  -- A call that throws before it waits leaves no entry behind, whether a setting is missing, no link
  -- could be opened or the message was not sent.
  pub begin_service_bus_call-throws :
      (c : ServiceBusRpcClient) (e : Exception)
      → (begin_service_bus_call meets id payload c).1 ≡ throw e
      → (begin_service_bus_call meets id payload c).0.pending.slots ≡ c.pending.slots
  begin_service_bus_call-throws c e h =
      throws-Began e _ _ h (begin_service_bus_call-Began c) ∙ linked-slots c

  waits-Began :
      (c : ServiceBusRpcClient) (m : AmqpMessage) (t : Ticket)
      (r : ServiceBusRpcClient × Result (AmqpMessage × Option Ticket))
      → r.1 ≡ ok (m, some t)
      → Began meets id (span_bytes payload) c r
      → (is_one_way c.config ≡ false)
        × (register id c.pending ≡ (r.0.pending, ok t))
        × (m ≡ request_message c id (span_bytes payload))
  waits-Began c m t r h (threw x y z) = absurd (cc)
  waits-Began c m t r h (one_way q o p x) = absurd (cc)
  waits-Began c m t r h (waits_on u o g x) = (o, ground arith, ground arith)

  request-same :
      (c d : ServiceBusRpcClient) (body : Bytes)
      → c.config ≡ d.config
      → c.reply_session_id ≡ d.reply_session_id
      → request_message c id body ≡ request_message d id body
  unfolding request_message
  request-same c d body e s = ground arith

  pub service_bus_call_waits :
      (c : ServiceBusRpcClient) (m : AmqpMessage) (t : Ticket)
      → (begin_service_bus_call meets id payload c).1 ≡ ok (m, some t)
      → (is_one_way c.config ≡ false)
        × (register id c.pending ≡ ((begin_service_bus_call meets id payload c).0.pending, ok t))
        × (m ≡ request_message c id (span_bytes payload))
  service_bus_call_waits c m t h =
      let (o, g, e) = waits-Began _ m t _ h (begin_service_bus_call-Began c) in
      let (pending, config, session) = current_link-keeps c meets.opened c.link in
      (
        ap is_one_way (sym config) ∙ o,
        ap (register id) (sym pending) ∙ g,
        e ∙ request-same _ c (span_bytes payload) config session,
      )
