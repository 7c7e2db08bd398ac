-- ===== src/Kafka/Client/Replies.antt =====
-- When a call of kafka/KafkaPlugin/KafkaClient.cpp returns the reply: the dispatcher's messages and
-- delivery reports as operations on the pending replies.
use graftcode_extensions.Base.{
  ◌≡◌, refl, sym, ap, ◌∙◌, ◌≢◌, true, Option, none, some, List, [], ◌∷◌, ◌++◌, arith, Bytes, codes,
  is_empty, if◌then◌else◌, find, find-erase, bytes_eq_refl, All, All-append, append_assoc, Result,
  ok,
}
use graftcode_extensions.Base.Int.{ℤ}
use graftcode_extensions.PendingReplies.{
  PendingReplies, Ticket, complete, register, destroy, remove, wait,
}
use graftcode_extensions.PendingReplies.Threads.{
  World, Op, registers, completes, fails, step, run, run-append,
}
use graftcode_extensions.PendingReplies.Tickets.{Inv}
use graftcode_extensions.PendingReplies.Delivery.{Quiet, Foreign, session}
use graftcode_extensions.PendingReplies.Holders.{ticket_delivered}
use graftcode_extensions.Sqs.Codec.{Span, span_bytes}
use graftcode_extensions.Kafka.Util.{HeaderLibrary, header_value}
use graftcode_extensions.Kafka.Client.{
  KafkaClient, Broker, Event, idle, message, report, delivery_report, dispatch_message, dispatch,
  dispatch_all, Produced, begin_kafka_call, end_call, reply_or_throw,
}
use graftcode_extensions.Kafka.Client.Begin.{begin_kafka_call-waits}

module _ (library : HeaderLibrary) where
  open library use {Headers}

  abbrev pub message_id : Option Headers → Bytes
  message_id headers = header_value library headers (codes "correlation-id")

  abbrev if_named : Bytes → Bytes → List Op
  if_named [] payload = []
  if_named (c ∷ id) payload = completes (c ∷ id) payload ∷ []

  -- What one event does, as operations.
  abbrev event_ops : Event library → List Op
  event_ops idle = []
  event_ops (message headers payload) = if_named (message_id headers) (span_bytes payload)
  event_ops (report (some id) (some e)) =
      fails id (codes "Kafka delivery failed for correlation-id=" ++ (id ++ (codes ": " ++ e))) ∷ []
  event_ops (report _ _) = []

  abbrev events_ops : List (Event library) → List Op
  events_ops [] = []
  events_ops (e ∷ es) = event_ops e ++ events_ops es

  -- Not about the request of `id`.
  abbrev pub Apart : Bytes → Event library → Type 0
  Apart id (message headers payload) = message_id headers ≢ id
  Apart id (report (some tag) (some e)) = tag ≢ id
  Apart id _ = Unit

  message-run :
      (w : World) (id payload : Bytes)
      → record w { replies = if is_empty id then w.replies else (complete id payload w.replies).0 }
        ≡ run w (if_named id payload)
  unfolding run step
  message-run w [] payload = refl
  message-run w (c ∷ id) payload = refl

  dispatch-run :
      (w : World) (e : Event library)
      → record w { replies = dispatch library w.replies e } ≡ run w (event_ops e)
  unfolding dispatch run
  dispatch-run w idle = refl
  dispatch-run w (message headers payload) =
      unfold dispatch_message in message-run w (message_id headers) (span_bytes payload)
  dispatch-run w (report (some id) (some e)) = unfold delivery_report step in refl
  dispatch-run w (report (some id) none) = unfold delivery_report in refl
  dispatch-run w (report none e) = unfold delivery_report in refl

  dispatch_all-run :
      (w : World) (es : List (Event library))
      → record w { replies = dispatch_all library w.replies es } ≡ run w (events_ops es)
  unfolding dispatch_all
  dispatch_all-run w [] = unfold run in refl
  dispatch_all-run w (e ∷ es) =
      dispatch_all-run (record w { replies = dispatch library w.replies e }) es
      ∙ ap (λ (u : World). run u (events_ops es)) (dispatch-run w e)
      ∙ sym (run-append w (event_ops e) (events_ops es))

  if_named-Quiet : (id name payload : Bytes) → name ≢ id → All (Quiet id) (if_named name payload)
  if_named-Quiet id [] payload n = tt
  if_named-Quiet id (c ∷ name) payload n = (n, tt)

  event-Quiet : (id : Bytes) (e : Event library) → Apart id e → All (Quiet id) (event_ops e)
  event-Quiet id idle n = tt
  event-Quiet id (message headers payload) n = if_named-Quiet id (message_id headers) _ n
  event-Quiet id (report (some tag) (some e)) n = (n, tt)
  event-Quiet id (report (some tag) none) n = tt
  event-Quiet id (report none e) n = tt

  events-Quiet :
      (id : Bytes) (es : List (Event library)) → All (Apart id) es → All (Quiet id) (events_ops es)
  events-Quiet id [] a = tt
  events-Quiet id (e ∷ es) a =
      All-append _ (event_ops e) (events_ops es) (event-Quiet id e a.0) (events-Quiet id es a.1)

  if_named-Foreign : (id name payload : Bytes) → All (Foreign id) (if_named name payload)
  if_named-Foreign id [] payload = tt
  if_named-Foreign id (c ∷ name) payload = (tt, tt)

  event-Foreign : (id : Bytes) (e : Event library) → All (Foreign id) (event_ops e)
  event-Foreign id idle = tt
  event-Foreign id (message headers payload) = if_named-Foreign id (message_id headers) _
  event-Foreign id (report (some tag) (some e)) = (tt, tt)
  event-Foreign id (report (some tag) none) = tt
  event-Foreign id (report none e) = tt

  events-Foreign : (id : Bytes) (es : List (Event library)) → All (Foreign id) (events_ops es)
  events-Foreign id [] = tt
  events-Foreign id (e ∷ es) =
      All-append _ (event_ops e) (events_ops es) (event-Foreign id e) (events-Foreign id es)

  events_ops-append :
      (xs ys : List (Event library)) → events_ops (xs ++ ys) ≡ events_ops xs ++ events_ops ys
  events_ops-append [] ys = refl
  events_ops-append (e ∷ xs) ys =
      ap (λ t. event_ops e ++ t) (events_ops-append xs ys)
      ∙ sym (append_assoc (event_ops e) (events_ops xs) (events_ops ys))

  if_named_lem : (id payload : Bytes) → id ≢ [] → if_named id payload ≡ completes id payload ∷ []
  if_named_lem [] payload n = absurd (n refl)
  if_named_lem (c ∷ id) payload n = refl

  events-session :
      (w : World) (id : Bytes) (front back : List (Event library)) (headers : Option Headers)
      (payload : Span)
      → id ≢ []
      → message_id headers ≡ id
      → run (step w (registers id)) (events_ops (front ++ message headers payload ∷ back))
        ≡ run w (session id (span_bytes payload) (events_ops front) (events_ops back))
  unfolding run
  events-session w id front back headers payload n i =
      let ops : event_ops (message headers payload) ≡ completes id (span_bytes payload) ∷ [] =
        ap (λ (j : Bytes). if_named j (span_bytes payload)) i
        ∙ if_named_lem id (span_bytes payload) n in
      ap (run (step w (registers id))) (
        events_ops-append front (message headers payload ∷ back)
        ∙ ap (λ (o : List Op). events_ops front ++ (o ++ events_ops back)) ops)

  ended :
      (to_string : ℤ → Bytes) (id p : Bytes) (t : Ticket) (c : KafkaClient)
      → (wait t c.pending).1 ≡ ok (some p)
      → (t.id ≡ id) × (t.owner ≡ true)
      → let r = end_call to_string t c in (r.1 ≡ ok p) × (find id r.0.pending.slots ≡ none)
  unfolding end_call reply_or_throw destroy remove
  ended to_string id p t c h (i, o) =
      (rw h refl, ground (arith, find-erase id id (wait t c.pending).0.slots, bytes_eq_refl id))

  registered_id :
      (id : Bytes) (s : PendingReplies) (t : Ticket)
      → (register id s).1 ≡ ok t
      → (t.id ≡ id) × (t.owner ≡ true)
  unfolding register
  registered_id id s t h = ground arith

  module _ (to_string : ℤ → Bytes) (broker : Broker) (id : Bytes) (refusal : Option Bytes)
      (request : Span) where
    -- A call that waits under an id that is not empty gets its reply: the dispatcher takes messages
    -- and delivery reports that are not about the id, then a message of that id, then anything. The
    -- call returns the payload of that message, and its entry is gone.
    pub call_returns :
        (c : KafkaClient) (w : World) (q : Produced library) (t : Ticket)
        (front back : List (Event library)) (headers : Option Headers) (payload : Span)
        → Inv w
        → c.pending ≡ w.replies
        → (begin_kafka_call library to_string broker id refusal request c).1 ≡ ok (q, t)
        → id ≢ []
        → message_id headers ≡ id
        → All (Apart id) front
        → let began = (begin_kafka_call library to_string broker id refusal request c).0 in
          let now = record began {
            pending = dispatch_all library began.pending (front ++ message headers payload ∷ back);
          } in
          let r = end_call to_string t now in
          (r.1 ≡ ok (span_bytes payload)) × (find id r.0.pending.slots ≡ none)
    unfolding step
    call_returns c w q t front back headers payload v e b n i a =
        let began = (begin_kafka_call library to_string broker id refusal request c).0 in
        let es = front ++ message headers payload ∷ back in
        let (g, _, _) =
          begin_kafka_call-waits library id refusal request to_string broker c q t b in
        let reg : register id w.replies ≡ (began.pending, ok t) = ap (register id) (sym e) ∙ g in
        let made : (register id w.replies).1 ≡ ok t =
          ap (λ (r : PendingReplies × Result Ticket). r.1) reg in
        let same : began.pending ≡ (register id w.replies).0 =
          sym (ap (λ (r : PendingReplies × Result Ticket). r.0) reg) in
        let answered : (wait t (dispatch_all library began.pending es)).1
            ≡ ok (some (span_bytes payload)) =
          ap (λ (s : PendingReplies). (wait t (dispatch_all library s es)).1) same
          ∙ ap (λ (u : World). (wait t u.replies).1)
              (dispatch_all-run (step w (registers id)) es
                ∙ events-session w id front back headers payload n i)
          ∙ ticket_delivered w id (span_bytes payload) (events_ops front) (events_ops back) t v made
              (events-Quiet id front a) (events-Foreign id back) in
        ended to_string id (span_bytes payload) t
          (record began { pending = dispatch_all library began.pending es }) answered
          (registered_id id w.replies t made)
