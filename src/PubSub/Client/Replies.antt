-- ===== src/PubSub/Client/Replies.antt =====
-- The reply dispatcher of pubsub/PubSubPlugin/PubSubClient.cpp: which call gets which message.
use graftcode_extensions.Base.{
  ℕ, ◌≡◌, ◌≢◌, refl, sym, ap, ◌∙◌, true, false, not, ◌||◌, Option, none, some, List, [], ◌∷◌, ◌++◌,
  arith, Bytes, find, All, Result, ok,
}
use graftcode_extensions.PendingReplies.{PendingReplies, Ticket, register, wait, wait_for_pending}
use graftcode_extensions.PendingReplies.Threads.{World, Op, completes, step, run}
use graftcode_extensions.PendingReplies.Tickets.{Inv}
use graftcode_extensions.PendingReplies.Delivery.{Quiet, Foreign}
use graftcode_extensions.PendingReplies.Dispatchers.{
  Dispatcher, dispatcher_delivers, registered_ticket, destroy-gone,
}
use graftcode_extensions.Sqs.Codec.{Span}
use graftcode_extensions.PubSub.Session.{Outcome, gave}
use graftcode_extensions.PubSub.Session.Messages.{PulledMessage}
use graftcode_extensions.PubSub.Client.{
  PubSubClient, Creates, Publication, begin_pubsub_call, correlation_id_attribute, complete_message,
  complete_batch, dispatch_round, end_call, reply_or_throw,
}
use graftcode_extensions.PubSub.Client.Calls.{pubsub_call_waits}

abbrev pub correlation : PulledMessage → Option Bytes
correlation m = find correlation_id_attribute m.attributes

abbrev completed_by : Option Bytes → Bytes → List Op
completed_by none payload = []
completed_by (some id) payload = completes id payload ∷ []

abbrev message_ops : PulledMessage → List Op
message_ops m = completed_by (correlation m) m.message_data

complete_message-run :
    (w : World) (m : PulledMessage) (o : Option Bytes)
    → correlation m ≡ o
    → complete_message w.replies m ≡ (run w (completed_by o m.message_data)).replies
unfolding complete_message run step
complete_message-run w m none e = ground arith
complete_message-run w m (some id) e = ground arith

completed_by-Foreign :
    (id : Bytes) (o : Option Bytes) (p : Bytes) → All (Foreign id) (completed_by o p)
completed_by-Foreign id none p = tt
completed_by-Foreign id (some j) p = (tt, tt)

abbrev pubsub_dispatcher : Dispatcher PulledMessage
pubsub_dispatcher = record {
  ops = message_ops;
  dispatch_all = complete_batch;
  none_left = λ s. unfold complete_batch in refl;
  first_runs = λ w m ms.
      unfold complete_batch in
      ap (λ s. complete_batch s ms) (complete_message-run w m (correlation m) refl);
  foreign = λ id m. completed_by-Foreign id (correlation m) m.message_data;
}

completed_by-Quiet :
    (id : Bytes) (o : Option Bytes) (p : Bytes) → o ≢ some id → All (Quiet id) (completed_by o p)
completed_by-Quiet id none p n = tt
completed_by-Quiet id (some j) p n = (λ e. n (ap some e), tt)

front-Quiet :
    (id : Bytes) (ms : List PulledMessage)
    → All (λ m. correlation m ≢ some id) ms
    → All (λ m. All (Quiet id) (message_ops m)) ms
front-Quiet id [] a = tt
front-Quiet id (m ∷ ms) a =
    (completed_by-Quiet id (correlation m) m.message_data a.0, front-Quiet id ms a.1)

ended :
    (to_string : ℕ → Bytes) (id p : Bytes) (t : Ticket) (c : PubSubClient)
    → (wait t c.pending).1 ≡ ok (some p)
    → (t.id ≡ id) × (t.owner ≡ true)
    → let r = end_call to_string (some t) c in (r.1 ≡ ok p) × (find id r.0.pending.slots ≡ none)
unfolding end_call reply_or_throw
ended to_string id p t c h o = (rw h refl, destroy-gone id (wait t c.pending).0 t o)

round_completes :
    (c : PubSubClient) (batch : List PulledMessage)
    → (c.stopping || not (wait_for_pending c.pending)) ≡ false
    → (dispatch_round (gave batch) c).1 ≡ record c { pending = complete_batch c.pending batch }
unfolding dispatch_round
round_completes c batch h = simp h

module _ (to_string : ℕ → Bytes) (service : Creates → Outcome (Unit {0})) (id : Bytes)
    (request : Span) where
  -- A call that waits gets its reply from a round of the dispatcher: of all the messages that the
  -- round pulled, the first with the call's correlation id. The call returns the data of that
  -- message, and its entry is gone; messages without a correlation id do no harm.
  pub pubsub_call_returns :
      (c : PubSubClient) (w : World) (p : Publication) (t : Ticket)
      (front back : List PulledMessage) (m : PulledMessage)
      → Inv w
      → c.pending ≡ w.replies
      → (begin_pubsub_call service id request c).1 ≡ gave p
      → p.ticket ≡ some t
      → (let began = (begin_pubsub_call service id request c).0 in
          (began.stopping || not (wait_for_pending began.pending)) ≡ false)
      → correlation m ≡ some id
      → All (λ x. correlation x ≢ some id) front
      → let began = (begin_pubsub_call service id request c).0 in
        let r = end_call to_string (some t) (dispatch_round (gave (front ++ m ∷ back)) began).1 in
        (r.1 ≡ ok m.message_data) × (find id r.0.pending.slots ≡ none)
  pubsub_call_returns c w p t front back m v e b k opened h a =
      let began = (begin_pubsub_call service id request c).0 in
      let batch = front ++ m ∷ back in
      let (g, _, _) = pubsub_call_waits id request service c p t b k in
      let reg : register id w.replies ≡ (began.pending, ok t) = ap (register id) (sym e) ∙ g in
      let made : (register id w.replies).1 ≡ ok t =
        ap (λ (r : PendingReplies × Result Ticket). r.1) reg in
      let same : began.pending ≡ (register id w.replies).0 =
        sym (ap (λ (r : PendingReplies × Result Ticket). r.0) reg) in
      let answered : (wait t (complete_batch began.pending batch)).1 ≡ ok (some m.message_data) =
        ap (λ (s : PendingReplies). (wait t (complete_batch s batch)).1) same
        ∙ dispatcher_delivers pubsub_dispatcher w id m.message_data t front back m v made
            (ap (λ o. completed_by o m.message_data) h) (front-Quiet id front a) in
      rw (round_completes began batch opened) (
        ended to_string id m.message_data t
          (record began { pending = complete_batch began.pending batch }) answered
          (registered_ticket id w.replies t made))
