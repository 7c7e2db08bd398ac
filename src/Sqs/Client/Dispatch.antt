-- ===== src/Sqs/Client/Dispatch.antt =====
-- The reply dispatcher of sqs/SqsPlugin/SqsClient.cpp as operations on the pending replies.
use mathlib.Core.List.{map-append}
use graftcode_extensions.Base.{
  ◌≡◌, refl, ap, ◌∙◌, ◌≢◌, Option, none, some, List, [], ◌∷◌, ◌++◌, map, Bytes, codes, All, Result,
  ok, throw, Result-cases, inl, inr,
}
use graftcode_extensions.Abi.{error_text}
use graftcode_extensions.PendingReplies.{Ticket, register, wait}
use graftcode_extensions.PendingReplies.Threads.{World, Op, registers, completes, fails, step, run}
use graftcode_extensions.PendingReplies.Tickets.{Inv}
use graftcode_extensions.PendingReplies.Delivery.{Quiet, Foreign, session}
use graftcode_extensions.PendingReplies.Holders.{ticket_delivered}
use graftcode_extensions.Sqs.Codec.{
  Base64, decode_payload, get_string_attribute, correlation_id_attribute,
}
use graftcode_extensions.Sqs.Client.{
  AwsFailure, Message, aws_error, finish_reply, dispatch_message, dispatch_batch,
}

abbrev pub message_id : Message → Bytes
message_id m = get_string_attribute m.attributes correlation_id_attribute

abbrev decoded_op : Bytes → Result Bytes → Op
decoded_op id (ok payload) = completes id payload
decoded_op id (throw e) = fails id (error_text e)

module _ (base64 : Base64) where
  -- What the dispatcher does for one message, as an operation.
  abbrev pub reply_op : Message × Option AwsFailure → Op
  reply_op (m, some e) = fails (message_id m) (aws_error (codes "DeleteMessage") e)
  reply_op (m, none) = decoded_op (message_id m) (decode_payload base64 m.body)

  finish_reply-step :
      (w : World) (id : Bytes) (r : Result Bytes)
      → record w { replies = finish_reply id r w.replies } ≡ step w (decoded_op id r)
  unfolding finish_reply step
  finish_reply-step w id (ok payload) = refl
  finish_reply-step w id (throw e) = refl

  dispatch_message-step :
      (w : World) (m : Message × Option AwsFailure)
      → record w { replies = dispatch_message base64 w.replies m } ≡ step w (reply_op m)
  unfolding dispatch_message
  dispatch_message-step w (m, some e) = unfold step in refl
  dispatch_message-step w (m, none) =
      finish_reply-step w (message_id m) (decode_payload base64 m.body)

  -- A batch of messages is a run of operations, one for each message in order.
  dispatch_batch-run :
      (w : World) (ms : List (Message × Option AwsFailure))
      → record w { replies = dispatch_batch base64 w.replies ms } ≡ run w (map reply_op ms)
  unfolding dispatch_batch run
  dispatch_batch-run w [] = refl
  dispatch_batch-run w (m ∷ ms) =
      dispatch_batch-run (record w { replies = dispatch_message base64 w.replies m }) ms
      ∙ ap (λ (u : World). run u (map reply_op ms)) (dispatch_message-step w m)

  Quiet-reply_op :
      (id : Bytes) (m : Message × Option AwsFailure) → message_id m.0 ≢ id → Quiet id (reply_op m)
  Quiet-reply_op id (m, some e) n = n
  Quiet-reply_op id (m, none) n = elim (Result-cases (decode_payload base64 m.body)) [
    | inl (p, e) ↦ rw e n
    | inr (x, e) ↦ rw e n
  ]

  Quiet-replies :
      (id : Bytes) (ms : List (Message × Option AwsFailure))
      → All (λ m. message_id m.0 ≢ id) ms
      → All (Quiet id) (map reply_op ms)
  Quiet-replies id [] a = tt
  Quiet-replies id (m ∷ ms) a = (Quiet-reply_op id m a.0, Quiet-replies id ms a.1)

  Foreign-reply_op : (id : Bytes) (m : Message × Option AwsFailure) → Foreign id (reply_op m)
  Foreign-reply_op id (m, some e) = tt
  Foreign-reply_op id (m, none) = elim (Result-cases (decode_payload base64 m.body)) [
    | inl (p, e) ↦ rw e tt
    | inr (x, e) ↦ rw e tt
  ]

  Foreign-replies :
      (id : Bytes) (ms : List (Message × Option AwsFailure)) → All (Foreign id) (map reply_op ms)
  Foreign-replies id [] = tt
  Foreign-replies id (m ∷ ms) = (Foreign-reply_op id m, Foreign-replies id ms)

  batch-session :
      (w : World) (id p : Bytes) (front back : List (Message × Option AwsFailure)) (m : Message)
      → message_id m ≡ id
      → decode_payload base64 m.body ≡ ok p
      → run (step w (registers id)) (map reply_op (front ++ (m, none) ∷ back))
        ≡ run w (session id p (map reply_op front) (map reply_op back))
  unfolding run
  batch-session w id p front back m i d =
      let op : reply_op (m, none) ≡ completes id p = rw d (ap (λ (j : Bytes). completes j p) i) in
      ap (run (step w (registers id))) (
        map-append reply_op front ((m, none) ∷ back)
        ∙ ap (λ (o : Op). map reply_op front ++ o ∷ map reply_op back) op)

  -- A caller registers an id; the dispatcher then works off a batch with a removed message of that
  -- id and a readable body, no earlier one being of that id. Whatever else is in the batch, broken
  -- bodies and failed removals included, the caller's wait gives the decoded body.
  pub dispatch_batch-delivers :
      (w : World) (id p : Bytes) (t : Ticket) (front back : List (Message × Option AwsFailure))
      (m : Message)
      → Inv w
      → (register id w.replies).1 ≡ ok t
      → message_id m ≡ id
      → decode_payload base64 m.body ≡ ok p
      → All (λ n. message_id n.0 ≢ id) front
      → (wait t (dispatch_batch base64 (register id w.replies).0 (front ++ (m, none) ∷ back))).1
        ≡ ok (some p)
  unfolding step
  dispatch_batch-delivers w id p t front back m v r i d a =
      ap (λ (u : World). (wait t u.replies).1)
        (dispatch_batch-run (step w (registers id)) (front ++ (m, none) ∷ back)
          ∙ batch-session w id p front back m i d)
      ∙ ticket_delivered w id p (map reply_op front) (map reply_op back) t v r
          (Quiet-replies id front a) (Foreign-replies id back)
