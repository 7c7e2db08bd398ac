-- ===== src/RabbitMq/Server/Deliveries.antt =====
-- What becomes of a delivery at the consumer of rabbitmq/RabbitmqPlugin/RabbitMqServer.cpp.
use graftcode_extensions.Base.{
  ◌≡◌, ◌≢◌, refl, arith, Bool, true, false, Option, none, some, List, [], ◌∷◌, Bytes, is_empty,
  Exception, Result, ok, throw, Bool-cases, inl, inr,
}
use graftcode_extensions.Sqs.Server.{Processed, write_all}
use graftcode_extensions.RabbitMq.Server.{
  Delivery, Response, Effect, publishes, acks, Surroundings, reply_queue, response_for, publish_to,
  settle, not_published, callback_failed, not_configured, after_process, try_delivery, rethrown,
  caught, on_delivery,
}

module _ (env : Surroundings) (m : Delivery) where
  pub record Taken : Type 0 where
    pub process : Bytes → Result Processed
    pub result : Processed
    pub configured : env.process ≡ some process
    pub processed : process m.body ≡ ok result
    pub accepted : result.accepted ≡ true

  -- Whether a reply is wanted: the queue that the request names, or none where it names none or the
  -- empty name.
  pub data WantsReply (queue : Bytes) : Type 0 where
    named : m.reply_to ≡ some queue → queue ≢ [] → WantsReply queue

  pub data WantsNone : Type 0 where
    unnamed : m.reply_to ≡ none → WantsNone
    empty_name : m.reply_to ≡ some [] → WantsNone

  -- The response: to that queue, with what the Gateway wrote last, under the request's id.
  abbrev pub response_to : Taken → Bytes → Response
  response_to taken queue = record {
    routing_key = queue;
    body = write_all [] taken.result.writes;
    correlation_id = m.correlation_id;
  }

  -- How the handling of a delivery ends: acknowledged, or thrown with nothing settled.
  pub data Ends (r : List Effect × Result (Unit {0})) : Type 0 where
    empty_body : is_empty m.body ≡ true → r ≡ (acks m.tag ∷ [], ok tt) → Ends r
    unhandled : (e : Exception) → env.process ≡ none → r ≡ ([], throw (rethrown e)) → Ends r
    process_threw :
        (process : Bytes → Result Processed) (e : Exception)
        → env.process ≡ some process
        → process m.body ≡ throw e
        → r ≡ ([], throw (rethrown e))
        → Ends r
    refused :
        (process : Bytes → Result Processed) (p : Processed) (e : Exception)
        → env.process ≡ some process
        → process m.body ≡ ok p
        → p.accepted ≡ false
        → r ≡ ([], throw (rethrown e))
        → Ends r
    unpublished :
        (taken : Taken) (queue : Bytes) (e : Exception)
        → WantsReply queue
        → env.accepted ≡ false
        → r ≡ (publishes (response_to taken queue) false ∷ [], throw (rethrown e))
        → Ends r
    replied :
        (taken : Taken) (queue : Bytes)
        → WantsReply queue
        → env.accepted ≡ true
        → r ≡ (publishes (response_to taken queue) true ∷ acks m.tag ∷ [], ok tt)
        → Ends r
    done_quietly : Taken → WantsNone → r ≡ (acks m.tag ∷ [], ok tt) → Ends r

  wanted-WantsReply :
      (o : Option Bytes) (queue : Bytes)
      → m.reply_to ≡ o
      → reply_queue m ≡ some queue
      → WantsReply queue
  unfolding reply_queue
  wanted-WantsReply none queue h e = absurd (ground arith)
  wanted-WantsReply (some []) queue h e = absurd (ground arith)
  wanted-WantsReply (some (c ∷ q)) queue h e = named (ground arith) (λ x. absurd (ground arith))

  unwanted-WantsNone : (o : Option Bytes) → m.reply_to ≡ o → reply_queue m ≡ none → WantsNone
  unfolding reply_queue
  unwanted-WantsNone none h e = unnamed h
  unwanted-WantsNone (some []) h e = empty_name h
  unwanted-WantsNone (some (c ∷ q)) h e = absurd (ground arith)

  published-Ends :
      (taken : Taken) (o : Option Bytes) (b : Bool)
      → reply_queue m ≡ o
      → env.accepted ≡ b
      → Ends (caught (settle m (publish_to m b (write_all [] taken.result.writes) o)))
  unfolding caught settle publish_to response_for
  published-Ends taken none b q h = done_quietly taken (unwanted-WantsNone m.reply_to refl q) refl
  published-Ends taken (some queue) false q h =
      unpublished taken queue (not_published queue) (wanted-WantsReply m.reply_to queue refl q) h
        refl
  published-Ends taken (some queue) true q h =
      replied taken queue (wanted-WantsReply m.reply_to queue refl q) h refl

  accepted_lem :
      (p : Processed)
      → p.accepted ≡ true
      → after_process m env.accepted (ok p)
        ≡ settle m (publish_to m env.accepted (write_all [] p.writes) (reply_queue m))
  unfolding after_process
  accepted_lem p h = simp h

  refused_lem :
      (p : Processed)
      → p.accepted ≡ false
      → after_process m env.accepted (ok p) ≡ ([], throw callback_failed)
  unfolding after_process
  refused_lem p h = simp h

  processed-Ends :
      (process : Bytes → Result Processed) (r : Result Processed)
      → env.process ≡ some process
      → process m.body ≡ r
      → Ends (caught (after_process m env.accepted r))
  processed-Ends process (throw e) c h =
      unfold after_process caught in process_threw process e c h refl
  processed-Ends process (ok p) c h = elim (Bool-cases p.accepted) [
    | inl y ↦ rw (accepted_lem p y) (
        published-Ends
          (record { process = process; result = p; configured = c; processed = h; accepted = y })
          (reply_queue m) env.accepted refl refl)
    | inr n ↦ rw (refused_lem p n) (unfold caught in refused process p callback_failed c h n refl)
  ]

  tried-Ends :
      (o : Option (Bytes → Result Processed))
      → env.process ≡ o
      → Ends (caught (try_delivery m env.accepted o))
  unfolding try_delivery
  tried-Ends none c = unfold caught in unhandled not_configured c refl
  tried-Ends (some process) c = processed-Ends process (process m.body) c refl

  empty_lem : is_empty m.body ≡ true → on_delivery env m ≡ (acks m.tag ∷ [], ok tt)
  unfolding on_delivery
  empty_lem h = simp h

  filled_lem :
      is_empty m.body ≡ false → on_delivery env m ≡ caught (try_delivery m env.accepted env.process)
  unfolding on_delivery
  filled_lem h = simp h

  -- A delivery is acknowledged just if it is empty, or the Gateway took it and it names no reply
  -- queue, or the Gateway took it and the reply was published before: to the queue that the request
  -- names, under the request's correlation id, with the bytes that the Gateway wrote last. In every
  -- other case the handler throws and the delivery is neither acknowledged nor rejected: it is never
  -- requeued, not even when the reply could not be published.
  pub on_delivery-Ends : Ends (on_delivery env m)
  on_delivery-Ends = elim (Bool-cases (is_empty m.body)) [
    | inl y ↦ rw (empty_lem y) (empty_body y refl)
    | inr n ↦ rw (filled_lem n) (tried-Ends env.process refl)
  ]
