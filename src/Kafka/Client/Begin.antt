-- ===== src/Kafka/Client/Begin.antt =====
-- What KafkaClient::call of kafka/KafkaPlugin/KafkaClient.cpp has done when it waits or throws.
use graftcode_extensions.Base.{
  subst, invalid_argument, ◌≡◌, refl, ap, true, false, Option, none, some, arith, Bytes, codes,
  Exception, Result, ok, throw, Bool-cases, Result-cases, inl, inr, ltb, ◌&&◌,
}
use graftcode_extensions.Base.Int.{ℤ}
use graftcode_extensions.PendingReplies.{PendingReplies, Ticket, register}
use graftcode_extensions.PendingReplies.Isolation.{destroy-register}
use graftcode_extensions.Sqs.Codec.{Span, span_bytes, span_size, is_null}
use graftcode_extensions.Kafka.Util.{HeaderLibrary, make_rpc_headers}
use graftcode_extensions.Kafka.Client.{
  KafkaClient, Broker, ensure_started, Produced, produce, send, begin_kafka_call,
}
use graftcode_extensions.Kafka.Client.Start.{ensure_started-pending}

module _ (library : HeaderLibrary) (id : Bytes) (refusal : Option Bytes) (payload : Span) where
  -- What a call has done when it comes to wait, or to throw before that; `s` is the set before it.
  pub data Began (s : PendingReplies) (r : KafkaClient × Result (Produced library × Ticket))
      : Type 0 where
    threw : (e : Exception) → r.1 ≡ throw e → r.0.pending.slots ≡ s.slots → Began s r
    waits_on :
        (t : Ticket)
        → register id s ≡ (r.0.pending, ok t)
        → r.1
          ≡ ok (
            record {
              topic = r.0.config.request_topic;
              payload = span_bytes payload;
              headers = make_rpc_headers library id r.0.config.reply_topic;
              tag = id;
            },
            t,
          )
        → Began s r

  refused-Began :
      (c : KafkaClient) (t : Ticket) (e : Bytes)
      → (register id c.pending).1 ≡ ok t
      → Began c.pending (
          produce library id
            (some e)
            payload
            (record c { pending = (register id c.pending).0 })
            (ok t))
  unfolding produce
  refused-Began c t e h =
      threw _ refl
        (destroy-register c.pending (register id c.pending).0 id t
          (λ i. ((register id c.pending).0, h i))).0

  made-Began :
      (c : KafkaClient) (t : Ticket)
      → (register id c.pending).1 ≡ ok t
      → (o : Option Bytes)
      → Began c.pending
          (produce library id o payload (record c { pending = (register id c.pending).0 }) (ok t))
  made-Began c t h (some e) = refused-Began c t e h
  made-Began c t h none = unfold produce in waits_on t (λ i. ((register id c.pending).0, h i)) refl

  register-throws :
      (s : PendingReplies) (e : Exception) → (register id s).1 ≡ throw e → (register id s).0 ≡ s
  unfolding register
  register-throws s e h = ground arith

  send-Began :
      (c : KafkaClient) (r : Result (Unit {0}))
      → Began c.pending (send library id refusal payload c r)
  unfolding send
  send-Began c (throw e) = threw e refl refl
  send-Began c (ok u) = elim (Result-cases (register id c.pending).1) [
    | inl (t, h) ↦ rw h (made-Began c t h refusal)
    | inr (e, h) ↦ rw h (
        unfold produce in
        threw e refl (ap (λ (s : PendingReplies). s.slots) (register-throws c.pending e h)))
  ]

  module _ (to_string : ℤ → Bytes) (broker : Broker) (c : KafkaClient) where
    begin_call_null :
        (is_null payload && ltb 0 (span_size payload)) ≡ true
        → begin_kafka_call library to_string broker id refusal payload c ≡ (
          c,
          throw (invalid_argument (codes "KafkaClient::call: null data with non-zero length")),
        )
    unfolding begin_kafka_call
    begin_call_null y = simp y

    begin_call_sends :
        (is_null payload && ltb 0 (span_size payload)) ≡ false
        → begin_kafka_call library to_string broker id refusal payload c
          ≡ (let r = ensure_started to_string broker c in send library id refusal payload r.0 r.1)
    unfolding begin_kafka_call
    begin_call_sends n = simp n

    begin_kafka_call-Began :
        Began c.pending (begin_kafka_call library to_string broker id refusal payload c)
    begin_kafka_call-Began = elim (Bool-cases (is_null payload && ltb 0 (span_size payload))) [
      | inl y ↦ rw (begin_call_null y) (threw _ refl refl)
      | inr n ↦
          let r = ensure_started to_string broker c in
          rw (begin_call_sends n) (
            subst (λ (s : PendingReplies). Began s (send library id refusal payload r.0 r.1))
              (ensure_started-pending to_string broker c) (send-Began r.0 r.1))
    ]

    throws-Began :
        (e : Exception) (r : KafkaClient × Result (Produced library × Ticket))
        → r.1 ≡ throw e
        → Began c.pending r
        → r.0.pending.slots ≡ c.pending.slots
    throws-Began e r h (threw x y s) = s
    throws-Began e r h (waits_on t g x) = absurd (cc)

    -- A call that throws before it waits leaves no entry behind, whether librdkafka could not start,
    -- the id was refused or the message was.
    pub begin_kafka_call-throws :
        (e : Exception)
        → (begin_kafka_call library to_string broker id refusal payload c).1 ≡ throw e
        → (begin_kafka_call library to_string broker id refusal payload c).0.pending.slots
          ≡ c.pending.slots
    begin_kafka_call-throws e h = throws-Began e _ h begin_kafka_call-Began

    waits-Began :
        (q : Produced library) (t : Ticket) (r : KafkaClient × Result (Produced library × Ticket))
        → r.1 ≡ ok (q, t)
        → Began c.pending r
        → (register id c.pending ≡ (r.0.pending, ok t))
          × (q.payload ≡ span_bytes payload)
          × (q.headers ≡ make_rpc_headers library id r.0.config.reply_topic)
    waits-Began q t r h (threw x y s) = absurd (cc)
    waits-Began q t r h (waits_on u g x) = (ground arith, ground arith, ground arith)

    pub begin_kafka_call-waits :
        (q : Produced library) (t : Ticket)
        → (begin_kafka_call library to_string broker id refusal payload c).1 ≡ ok (q, t)
        → let r = begin_kafka_call library to_string broker id refusal payload c in
          (register id c.pending ≡ (r.0.pending, ok t))
          × (q.payload ≡ span_bytes payload)
          × (q.headers ≡ make_rpc_headers library id r.0.config.reply_topic)
    begin_kafka_call-waits q t h = waits-Began q t _ h begin_kafka_call-Began
