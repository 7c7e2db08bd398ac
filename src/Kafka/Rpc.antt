-- ===== src/Kafka/Rpc.antt =====
-- A request of kafka/KafkaPlugin/KafkaClient.cpp through KafkaServer.cpp and back: both ends read
-- what the other wrote.
use graftcode_extensions.Base.{
  ◌≡◌, refl, sym, ap, ◌∙◌, ◌≢◌, true, false, not, none, some, [], ◌∷◌, arith, Bytes, codes,
  bytes_eq, bytes_eq_iff, is_empty, Result, ok,
}
use graftcode_extensions.Base.Int.{ℤ}
use graftcode_extensions.PendingReplies.{Ticket}
use graftcode_extensions.Sqs.Codec.{Span, span, span_bytes}
use graftcode_extensions.Sqs.Server.{Processed, write_all}
use graftcode_extensions.Kafka.Util.{
  HeaderLibrary, KeepsHeaders, first_value, header_value, make_rpc_headers,
}
use graftcode_extensions.Kafka.Config.{ServerConfig}
use graftcode_extensions.Kafka.Client.{KafkaClient, Broker, Produced, begin_kafka_call}
use graftcode_extensions.Kafka.Client.Begin.{begin_kafka_call-waits}
use graftcode_extensions.Kafka.Client.Replies.{message_id}
use graftcode_extensions.Kafka.Server.Messages.{Taken, handle_kafka_message-replied}
use graftcode_extensions.Kafka.Server.{
  Answers, KafkaMessage, Reply, publishes, flushes, commits, reply_of, reply_topic_of,
  handle_kafka_message,
}

keys_differ : codes "reply-to" ≢ codes "correlation-id"
keys_differ e =
    let different : bytes_eq (codes "reply-to") (codes "correlation-id") ≡ false =
      unfold bytes_eq codes in refl in
    ground (arith, different, bytes_eq_iff (codes "reply-to") (codes "correlation-id"))

is_empty-ne : (s : Bytes) → s ≢ [] → is_empty s ≡ false
is_empty-ne s n = ground arith

module _ (library : HeaderLibrary) (keeps : KeepsHeaders library) where
  open library use {Headers, create, add, get}

  single_header :
      (key value : Bytes) → header_value library (some (add key value create)) key ≡ value
  unfolding header_value first_value
  single_header key value = rw (keeps.get_add key value create, keeps.get_create key) refl

  rpc_headers_full :
      (id topic : Bytes)
      → topic ≢ []
      → make_rpc_headers library id topic
        ≡ add (codes "reply-to") topic (add (codes "correlation-id") id create)
  unfolding make_rpc_headers
  rpc_headers_full id topic n = simp (is_empty-ne topic n)

  rpc_headers-id :
      (id topic : Bytes)
      → topic ≢ []
      → header_value library (some (make_rpc_headers library id topic)) (codes "correlation-id")
        ≡ id
  unfolding header_value first_value
  rpc_headers-id id topic n =
      rw
        (
          rpc_headers_full id topic n,
          keeps.get_add_other (codes "reply-to") (codes "correlation-id") topic
              (add (codes "correlation-id") id create) keys_differ,
          keeps.get_add (codes "correlation-id") id create,
          keeps.get_create (codes "correlation-id"),
        )
        refl

  rpc_headers-topic :
      (id topic : Bytes)
      → topic ≢ []
      → header_value library (some (make_rpc_headers library id topic)) (codes "reply-to") ≡ topic
  unfolding header_value first_value
  rpc_headers-topic id topic n =
      rw
        (
          rpc_headers_full id topic n,
          keeps.get_add (codes "reply-to") topic (add (codes "correlation-id") id create),
          keeps.get_add_other (codes "correlation-id") (codes "reply-to") id create
              (λ e. keys_differ (sym e)),
          keeps.get_create (codes "reply-to"),
        )
        refl

  is_empty-full : (s : Bytes) → s ≢ [] → not (is_empty s) ≡ true
  is_empty-full s n = ground arith

  reply-headers :
      (topic id response : Bytes)
      → id ≢ []
      → (reply_of library topic id response).headers ≡ add (codes "correlation-id") id create
  unfolding reply_of
  reply-headers topic id response n = simp (is_empty-ne id n)

  reply-plain :
      (topic id response : Bytes)
      → ((reply_of library topic id response).topic ≡ topic)
        × ((reply_of library topic id response).payload ≡ response)
  unfolding reply_of
  reply-plain topic id response = (refl, refl)

  own_topic :
      (config : ServerConfig) (m : KafkaMessage library) (topic : Bytes)
      → header_value library m.headers (codes "reply-to") ≡ topic
      → topic ≢ []
      → reply_topic_of library config m ≡ topic
  unfolding reply_topic_of
  own_topic config m topic h n = rw h (simp (is_empty-ne topic n))

  -- The message that the broker delivers for what was produced.
  abbrev pub delivered : Produced library → KafkaMessage library
  delivered q = record { headers = some q.headers; payload = span q.payload }

  module _ (to_string : ℤ → Bytes) (broker : Broker) (id : Bytes) (payload : Span) where
    -- With headers that keep what is added, an id that is not empty and a caller with a reply
    -- topic: a call that waits is answered if the Gateway accepts the payload and the reply is not
    -- refused. The server runs the Gateway on the payload that was passed in, publishes what the
    -- Gateway wrote to the caller's reply topic, whatever topic the server itself is configured
    -- with, flushes, and commits the request; and the caller's dispatcher reads the call's id in
    -- the reply.
    pub kafka_round_trip :
        (c : KafkaClient) (q : Produced library) (t : Ticket) (config : ServerConfig)
        (answers : Answers) (process : Bytes → Result Processed) (p : Processed)
        → (begin_kafka_call library to_string broker id none payload c).1 ≡ ok (q, t)
        → id ≢ []
        → (begin_kafka_call library to_string broker id none payload c).0.config.reply_topic ≢ []
        → answers.process ≡ some process
        → answers.refusal ≡ none
        → process (span_bytes payload) ≡ ok p
        → p.accepted ≡ true
        → (reply : Reply library) × (handle_kafka_message library config (delivered q) answers ≡ (
          publishes reply none ∷ flushes answers.flush_error ∷ commits (delivered q) ∷ [],
          ok tt,
        ))
          × (reply.topic
              ≡ (begin_kafka_call library to_string broker id none payload c).0.config.reply_topic)
          × (reply.payload ≡ write_all [] p.writes)
          × (message_id library (some reply.headers) ≡ id)
    kafka_round_trip c q t config answers process p b i r f none_refused e a =
        let topic =
          (begin_kafka_call library to_string broker id none payload c).0.config.reply_topic in
        let m = delivered q in
        let (_, body, headers) =
          begin_kafka_call-waits library id none payload to_string broker c q t b in
        let reads_id : message_id library (some q.headers) ≡ id =
          ap (λ (h : Headers). message_id library (some h)) headers ∙ rpc_headers-id id topic r in
        let reads_topic : header_value library (some q.headers) (codes "reply-to") ≡ topic =
          ap (λ (h : Headers). header_value library (some h) (codes "reply-to")) headers
          ∙ rpc_headers-topic id topic r in
        let to_caller = own_topic config m topic reads_topic r in
        let taken : Taken library config m answers = record {
          process = process;
          result = p;
          configured = f;
          processed = ap process body ∙ e;
          accepted = a;
        } in
        let plain =
          reply-plain (reply_topic_of library config m) (message_id library (some q.headers))
            (write_all [] p.writes) in
        (
          reply_of library (reply_topic_of library config m) (message_id library (some q.headers))
              (write_all [] p.writes),
          handle_kafka_message-replied library config m answers taken
              (ap is_empty to_caller ∙ is_empty-ne topic r) none_refused,
          plain.0 ∙ to_caller,
          plain.1,
          ap (λ (h : Headers). message_id library (some h))
                (reply-headers _ _ _ (λ x. i (sym reads_id ∙ x)))
              ∙ single_header (codes "correlation-id") _
              ∙ reads_id,
        )
