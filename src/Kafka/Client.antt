-- ===== src/Kafka/Client.antt =====
-- kafka/KafkaPlugin/KafkaClient.h and KafkaClient.cpp. What librdkafka answers to each request is an
-- argument; an error is its text.
pub mod Start
pub mod Begin
pub mod Replies
use graftcode_extensions.Base.{
  ℕ, ◌≡◌, refl, Bool, true, false, not, ◌&&◌, ◌||◌, Option, none, some, List, [], ◌∷◌, ◌++◌, String,
  Bytes, codes, is_empty, ltb, if◌then◌else◌, Exception, runtime_error, invalid_argument, Result,
  ok, throw, ◌>>=◌, ◌>>◌, throw_if,
}
use graftcode_extensions.Base.Int.{ℤ}
use graftcode_extensions.PendingReplies.{
  PendingReplies, Ticket, register, complete, fail, close, destroy, wait,
}
use graftcode_extensions.PendingReplies
use graftcode_extensions.Sqs.Codec.{Span, span_size, span_bytes, is_null}
use graftcode_extensions.Kafka.Util.{
  HeaderLibrary, header_value, make_rpc_headers, Conf, set_conf_or_throw,
}
use graftcode_extensions.Kafka.Config.{ClientConfig, apply_security}

-- `producer` and `consumer` are the settings of the objects that exist; `dispatcher` is whether its
-- thread was started.
pub record KafkaClient : Type 0 where
  pub config : ClientConfig
  pub instance_id : Bytes
  pub consumer_group_id : Bytes
  pub pending : PendingReplies
  pub producer : Option Conf
  pub consumer : Option Conf
  pub started : Bool
  pub stopping : Bool

-- `instance_id` is the fresh UUID.
unfoldable pub new_client : Bytes → ClientConfig → KafkaClient
new_client instance_id config = record {
  config = config;
  instance_id = instance_id;
  consumer_group_id =
      if is_empty config.group_id
      then codes "graft-client-" ++ instance_id
      else config.group_id ++ (b'-' ∷ instance_id);
  pending = PendingReplies.initial;
  producer = none;
  consumer = none;
  started = false;
  stopping = false;
}

-- The answers of librdkafka while a client starts: none for success.
pub record Broker : Type 0 where
  pub set : Bytes → Bytes → Option Bytes
  pub set_report_callback : Option Bytes
  pub create_producer : Option Bytes
  pub create_consumer : Option Bytes
  pub subscribe : Option Bytes

pub or_throw : Option Bytes → Bytes → Result (Unit {0})
or_throw none text = ok tt
or_throw (some e) text = throw (runtime_error (text ++ e))

module _ (to_string : ℤ → Bytes) (broker : Broker) where
  setting : String → Bytes → Conf → Result Conf
  unfolding set_conf_or_throw
  setting key value conf = set_conf_or_throw broker.set (codes key) value conf

  pub make_producer : KafkaClient → Result Conf
  unfolding setting
  make_producer c = do
    servers ← setting "bootstrap.servers" c.config.brokers []
    named ← setting "client.id" (codes "graft-kafka-client-producer-" ++ c.instance_id) servers
    timed ← setting "message.timeout.ms" (to_string c.config.rpc_timeout_ms) named
    conf ← apply_security broker.set c.config.security timed
    or_throw broker.set_report_callback (codes "Failed to set Kafka delivery report callback: ")
    or_throw broker.create_producer (codes "Failed to create Kafka producer: ")
    ok conf

  pub make_consumer : KafkaClient → Result Conf
  unfolding setting
  make_consumer c = do
    servers ← setting "bootstrap.servers" c.config.brokers []
    grouped ← setting "group.id" c.consumer_group_id servers
    named ← setting "client.id" (codes "graft-kafka-client-consumer-" ++ c.instance_id) grouped
    commits ← setting "enable.auto.commit" (codes "true") named
    latest ← setting "auto.offset.reset" (codes "latest") commits
    creates ← setting "allow.auto.create.topics" (codes "true") latest
    conf ← apply_security broker.set c.config.security creates
    or_throw broker.create_consumer (codes "Failed to create Kafka consumer: ")
    ok conf

  -- Behind `consumer_.reset`: the subscription and the start of the dispatcher.
  pub subscribe_and_dispatch : KafkaClient → KafkaClient × Result (Unit {0})
  subscribe_and_dispatch c = elim broker.subscribe [
    | some e ↦ (
      c,
      throw (
          runtime_error (
            codes "Failed to subscribe to reply topic '"
            ++ (c.config.reply_topic ++ (codes "': " ++ e)))),
    )
    | none ↦ (record c { started = true }, ok tt)
  ]

  pub with_consumer : KafkaClient → Result Conf → KafkaClient × Result (Unit {0})
  with_consumer c (throw e) = (c, throw e)
  with_consumer c (ok conf) = subscribe_and_dispatch (record c { consumer = some conf })

  pub with_producer : KafkaClient → Result Conf → KafkaClient × Result (Unit {0})
  with_producer c (throw e) = (c, throw e)
  with_producer c (ok conf) =
      let made = record c { producer = some conf } in with_consumer made (make_consumer made)

  -- An exception leaves behind what was made before it.
  unfoldable pub ensure_started : KafkaClient → KafkaClient × Result (Unit {0})
  ensure_started c = if c.started then (c, ok tt) else with_producer c (make_producer c)

-- What the dispatcher's `consume` gives: nothing or an error, or a message; and the delivery reports
-- that `poll` brings, with the opaque tag and the error.
pub data Event (library : HeaderLibrary) : Type 0 where
  idle : Event library
  message : Option library.Headers → Span → Event library
  report : Option Bytes → Option Bytes → Event library

module _ (library : HeaderLibrary) where
  open library use {Headers}

  -- `dr_cb`.
  unfoldable pub delivery_report : Option Bytes → Option Bytes → PendingReplies → PendingReplies
  delivery_report (some id) (some e) s =
      (fail id (codes "Kafka delivery failed for correlation-id=" ++ (id ++ (codes ": " ++ e))) s).0
  delivery_report _ _ s = s

  -- One message of dispatchReplies.
  unfoldable pub dispatch_message : Option Headers → Span → PendingReplies → PendingReplies
  dispatch_message headers payload s =
      let id = header_value library headers (codes "correlation-id") in
      if is_empty id then s else (complete id (span_bytes payload) s).0

  unfoldable pub dispatch : PendingReplies → Event library → PendingReplies
  dispatch s idle = s
  dispatch s (message headers payload) = dispatch_message headers payload s
  dispatch s (report tag error) = delivery_report tag error s

  unfoldable pub dispatch_all : PendingReplies → List (Event library) → PendingReplies
  dispatch_all s [] = s
  dispatch_all s (e ∷ es) = dispatch_all (dispatch s e) es

  -- What call hands to `produce`.
  pub record Produced : Type 0 where
    pub topic : Bytes
    pub payload : Bytes
    pub headers : Headers
    pub tag : Bytes

  -- Behind `Register`. The entry of a refused message dies with its ticket.
  pub produce :
      Bytes
      → Option Bytes
      → Span
      → KafkaClient
      → Result Ticket
      → KafkaClient × Result (Produced × Ticket)
  produce id refusal payload c (throw e) = (c, throw e)
  produce id (some e) payload c (ok t) = (
    record c { pending = destroy t c.pending },
    throw (
        runtime_error
          (codes "Kafka produce to '" ++ (c.config.request_topic ++ (codes "' failed: " ++ e)))),
  )
  produce id none payload c (ok t) = (
    c,
    ok (
      record {
        topic = c.config.request_topic;
        payload = span_bytes payload;
        headers = make_rpc_headers library id c.config.reply_topic;
        tag = id;
      },
      t,
    ),
  )

  pub send :
      Bytes
      → Option Bytes
      → Span
      → KafkaClient
      → Result (Unit {0})
      → KafkaClient × Result (Produced × Ticket)
  unfolding produce
  send id refusal payload c (throw e) = (c, throw e)
  send id refusal payload c (ok _) =
      let r = register id c.pending in produce id refusal payload (record c { pending = r.0 }) r.1

  -- call up to its wait; `id` is the fresh UUID and `refusal` what `produce` answers.
  unfoldable pub begin_kafka_call :
      (ℤ → Bytes)
      → Broker
      → Bytes
      → Option Bytes
      → Span
      → KafkaClient
      → KafkaClient × Result (Produced × Ticket)
  unfolding send
  begin_kafka_call to_string broker id refusal payload c =
      if is_null payload && ltb 0 (span_size payload)
      then (c, throw (invalid_argument (codes "KafkaClient::call: null data with non-zero length")))
      else let r = ensure_started to_string broker c in send id refusal payload r.0 r.1

module _ (to_string : ℤ → Bytes) where
  pub reply_or_throw : ClientConfig → Bytes → Result (Option Bytes) → Result Bytes
  reply_or_throw config id (ok (some response)) = ok response
  reply_or_throw config id (ok none) = throw (
      runtime_error (
        codes "Kafka RPC timed out after "
        ++ (to_string config.rpc_timeout_ms ++ (codes " ms waiting for correlation-id=" ++ id))))
  reply_or_throw config id (throw e) = throw e

  -- The end of call, in the state in which its wait ends.
  unfoldable pub end_call : Ticket → KafkaClient → KafkaClient × Result Bytes
  unfolding reply_or_throw
  end_call t c =
      let r = wait t c.pending in
      (record c { pending = destroy t r.0 }, reply_or_throw c.config t.id r.1)

-- The destructor: the dispatcher is joined before the set is closed.
unfoldable pub destroy_client : KafkaClient → KafkaClient
destroy_client c = record c {
  pending = close (codes "Kafka client is shutting down") c.pending;
  producer = none;
  consumer = none;
  stopping = true;
}
