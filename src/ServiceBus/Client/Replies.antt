-- ===== src/ServiceBus/Client/Replies.antt =====
-- When ServiceBusRpcClient::Call of servicebus/ServiceBusPlugin/ServiceBusClient.cpp returns the reply.
use graftcode_extensions.Base.{
  ℕ, ◌≡◌, ◌≢◌, refl, sym, ap, ◌∙◌, true, Option, none, some, List, [], ◌∷◌, ◌++◌, arith, Bytes,
  find, All, Result, ok,
}
use graftcode_extensions.PendingReplies.{PendingReplies, Ticket, register, wait}
use graftcode_extensions.PendingReplies.Threads.{World, Op, completes, step, run}
use graftcode_extensions.PendingReplies.Tickets.{Inv}
use graftcode_extensions.PendingReplies.Delivery.{Quiet, Foreign}
use graftcode_extensions.PendingReplies.Dispatchers.{
  Dispatcher, dispatcher_delivers, registered_ticket, destroy-gone,
}
use graftcode_extensions.Sqs.Codec.{Span}
use graftcode_extensions.ServiceBus.Amqp.{AmqpMessage, extract_message_body, string_value}
use graftcode_extensions.ServiceBus.Client.{
  ServiceBusRpcClient, Meets, begin_service_bus_call, end_call, reply_or_throw, reply_name,
  dispatch_reply, dispatch_replies,
}
use graftcode_extensions.ServiceBus.Client.Calls.{service_bus_call_waits}

abbrev pub named : AmqpMessage → Option Bytes
named m = string_value (reply_name m)

completed_by : Option Bytes → Bytes → List Op
completed_by none payload = []
completed_by (some id) payload = completes id payload ∷ []

dispatch_reply-run :
    (w : World) (m : AmqpMessage) (o : Option Bytes)
    → named m ≡ o
    → dispatch_reply w.replies m ≡ (run w (completed_by o (extract_message_body m))).replies
unfolding dispatch_reply run step completed_by
dispatch_reply-run w m none e = ground arith
dispatch_reply-run w m (some id) e = ground arith

completed_by-Foreign :
    (id : Bytes) (o : Option Bytes) (p : Bytes) → All (Foreign id) (completed_by o p)
unfolding completed_by
completed_by-Foreign id none p = tt
completed_by-Foreign id (some j) p = (tt, tt)

service_bus_dispatcher : Dispatcher AmqpMessage
unfolding dispatch_replies
service_bus_dispatcher = record {
  ops = λ m. completed_by (named m) (extract_message_body m);
  dispatch_all = dispatch_replies;
  none_left = λ s. refl;
  first_runs = λ w m ms. ap (λ s. dispatch_replies s ms) (dispatch_reply-run w m (named m) refl);
  foreign = λ id m. completed_by-Foreign id (named m) (extract_message_body m);
}

completed_by-Quiet :
    (id : Bytes) (o : Option Bytes) (p : Bytes) → o ≢ some id → All (Quiet id) (completed_by o p)
unfolding completed_by
completed_by-Quiet id none p n = tt
completed_by-Quiet id (some j) p n = (λ e. n (ap some e), tt)

front-Quiet :
    (id : Bytes) (ms : List AmqpMessage)
    → All (λ m. named m ≢ some id) ms
    → All (λ m. All (Quiet id) (completed_by (named m) (extract_message_body m))) ms
front-Quiet id [] a = tt
front-Quiet id (m ∷ ms) a =
    (completed_by-Quiet id (named m) (extract_message_body m) a.0, front-Quiet id ms a.1)

module _ (meets : Meets) (id : Bytes) (payload : Span) where
  ended :
      (to_string : ℕ → Bytes) (p : Bytes) (t : Ticket) (c : ServiceBusRpcClient)
      → (wait t c.pending).1 ≡ ok (some p)
      → (t.id ≡ id) × (t.owner ≡ true)
      → let r = end_call to_string id (some t) c in
        (r.1 ≡ ok p) × (find id r.0.pending.slots ≡ none)
  unfolding end_call reply_or_throw
  ended to_string p t c h o = (rw h refl, destroy-gone id (wait t c.pending).0 t o)

  -- A call that waits gets its reply: of all that the receiver gives, it returns the body of the
  -- first message that names its id, by its correlation id or else by its message id, and its entry
  -- is gone. Messages that name another id or none, or whose name is no string, do no harm.
  pub service_bus_call_returns :
      (to_string : ℕ → Bytes) (c : ServiceBusRpcClient) (w : World) (q : AmqpMessage) (t : Ticket)
      (front back : List AmqpMessage) (m : AmqpMessage)
      → Inv w
      → c.pending ≡ w.replies
      → (begin_service_bus_call meets id payload c).1 ≡ ok (q, some t)
      → named m ≡ some id
      → All (λ x. named x ≢ some id) front
      → let began = (begin_service_bus_call meets id payload c).0 in
        let now = record began { pending = dispatch_replies began.pending (front ++ m ∷ back) } in
        let e = end_call to_string id (some t) now in
        (e.1 ≡ ok (extract_message_body m)) × (find id e.0.pending.slots ≡ none)
  unfolding service_bus_dispatcher completed_by
  service_bus_call_returns to_string c w q t front back m v e b i a =
      let began = (begin_service_bus_call meets id payload c).0 in
      let ms = front ++ m ∷ back in
      let (_, g, _) = service_bus_call_waits meets id payload c q t b in
      let reg : register id w.replies ≡ (began.pending, ok t) = ap (register id) (sym e) ∙ g in
      let made : (register id w.replies).1 ≡ ok t =
        ap (λ (x : PendingReplies × Result Ticket). x.1) reg in
      let same : began.pending ≡ (register id w.replies).0 =
        sym (ap (λ (x : PendingReplies × Result Ticket). x.0) reg) in
      let answered : (wait t (dispatch_replies began.pending ms)).1
          ≡ ok (some (extract_message_body m)) =
        ap (λ (s : PendingReplies). (wait t (dispatch_replies s ms)).1) same
        ∙ dispatcher_delivers service_bus_dispatcher w id (extract_message_body m) t front back m v
            made (ap (λ o. completed_by o (extract_message_body m)) i) (front-Quiet id front a) in
      ended to_string (extract_message_body m) t
        (record began { pending = dispatch_replies began.pending ms }) answered
        (registered_ticket id w.replies t made)
