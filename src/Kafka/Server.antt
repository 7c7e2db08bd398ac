-- ===== src/Kafka/Server.antt =====
-- kafka/KafkaPlugin/KafkaServer.h and KafkaServer.cpp: the loop of a server. What librdkafka answers
-- and what the Gateway's callback does are arguments.
pub mod Messages
pub mod Manual
pub mod Sessions
use graftcode_extensions.Base.{
  ℕ, ◌≡◌, Bool, true, false, not, Option, none, some, List, [], ◌∷◌, ◌++◌, String, Bytes, codes,
  is_empty, if◌then◌else◌, Exception, runtime_error, Result, ok, throw, ◌>>=◌, ◌>>◌,
}
use graftcode_extensions.Sqs.Codec.{Span, span_bytes}
use graftcode_extensions.Sqs.Server.{Processed, write_all}
use graftcode_extensions.Kafka.Util.{HeaderLibrary, header_value, Conf, set_conf_or_throw}
use graftcode_extensions.Kafka.Config.{ServerConfig, apply_security}
use graftcode_extensions.Kafka.Client.{or_throw}

-- What stands behind one message: the callback that is configured when it comes, what that does with
-- a request, the refusal of `produce`, and the error of `flush`.
pub record Answers : Type 0 where
  pub process : Option (Bytes → Result Processed)
  pub refusal : Option Bytes
  pub flush_error : Option Bytes

-- The answers to one attempt to connect; none for success.
pub record Connection : Type 0 where
  pub set : Bytes → Bytes → Option Bytes
  pub create_producer : Option Bytes
  pub create_consumer : Option Bytes
  pub subscribe : Option Bytes

module _ (answers : Connection) (config : ServerConfig) where
  setting : String → Bytes → Conf → Result Conf
  unfolding set_conf_or_throw
  setting key value conf = set_conf_or_throw answers.set (codes key) value conf

  reply_producer : Result Conf
  unfolding setting
  reply_producer = do
    servers ← setting "bootstrap.servers" config.brokers []
    named ← setting "client.id" (codes "graft-kafka-server-producer") servers
    conf ← apply_security answers.set config.security named
    or_throw answers.create_producer (codes "Failed to create reply producer: ")
    ok conf

  request_consumer : Result Conf
  unfolding setting
  request_consumer = do
    servers ← setting "bootstrap.servers" config.brokers []
    grouped ← setting "group.id" config.group_id servers
    named ← setting "client.id" (codes "graft-kafka-server-consumer") grouped
    manual ← setting "enable.auto.commit" (codes "false") named
    earliest ← setting "auto.offset.reset" (codes "earliest") manual
    creates ← setting "allow.auto.create.topics" (codes "true") earliest
    conf ← apply_security answers.set config.security creates
    or_throw answers.create_consumer (codes "Failed to create request consumer: ")
    or_throw answers.subscribe
        (codes "Failed to subscribe to '" ++ (config.request_topic ++ codes "': "))
    ok conf

  -- The settings of the producer and of the consumer.
  unfoldable pub connect : Result (Conf × Conf)
  unfolding reply_producer request_consumer
  connect = do producer ← reply_producer; consumer ← request_consumer; ok (producer, consumer)

module _ (library : HeaderLibrary) where
  open library use {Headers, create, add}

  pub record KafkaMessage : Type 0 where
    pub headers : Option Headers
    pub payload : Span

  pub record Reply : Type 0 where
    pub topic : Bytes
    pub headers : Headers
    pub payload : Bytes

  -- `publishes` carries the refusal of `produce`, and `flushes` the error of `flush`, if any. The
  -- latter is only logged.
  pub data Effect : Type 0 where
    publishes : Reply → Option Bytes → Effect
    flushes : Option Bytes → Effect
    commits : KafkaMessage → Effect

  -- What `consume` gives: nothing or an error, or a message.
  pub data Consumed : Type 0 where
    no_message : Consumed
    received : KafkaMessage → Answers → Consumed

  unfoldable pub reply_of : Bytes → Bytes → Bytes → Reply
  reply_of topic id response = record {
    topic = topic;
    headers = if not (is_empty id) then add (codes "correlation-id") id create else create;
    payload = response;
  }

  unfoldable pub publish_reply : Reply → Option Bytes → List Effect × Result (Unit {0})
  publish_reply reply (some e) = (
    publishes reply (some e) ∷ [],
    throw (
        runtime_error
          (codes "Failed to publish reply to '" ++ (reply.topic ++ (codes "': " ++ e)))),
  )
  publish_reply reply none = (publishes reply none ∷ [], ok tt)

  -- Behind publishReply: a failed flush is only logged.
  unfoldable pub after_publication :
      KafkaMessage
      → Option Bytes
      → List Effect × Result (Unit {0})
      → List Effect × Result (Unit {0})
  after_publication m flush_error (effects, throw e) = (effects, throw e)
  after_publication m flush_error (effects, ok _) =
      (effects ++ flushes flush_error ∷ commits m ∷ [], ok tt)

  unfoldable pub reply_and_commit :
      KafkaMessage → Reply → Option Bytes → Option Bytes → List Effect × Result (Unit {0})
  unfolding publish_reply after_publication
  reply_and_commit m reply refusal flush_error =
      after_publication m flush_error (publish_reply reply refusal)

  -- The request's own address, or the configured one.
  unfoldable pub reply_topic_of : ServerConfig → KafkaMessage → Bytes
  reply_topic_of config m =
      let own = header_value library m.headers (codes "reply-to") in
      if is_empty own then config.reply_topic else own

  pub after_process :
      ServerConfig
      → KafkaMessage
      → Option Bytes
      → Option Bytes
      → Result Processed
      → List Effect × Result (Unit {0})
  after_process config m refusal flush_error (throw e) = ([], throw e)
  after_process config m refusal flush_error (ok p) =
      if not p.accepted
      then (commits m ∷ [], ok tt)
      else if not (is_empty (reply_topic_of config m))
      then reply_and_commit m
          (reply_of (reply_topic_of config m)
            (header_value library m.headers (codes "correlation-id")) (write_all [] p.writes))
          refusal flush_error
      else (commits m ∷ [], ok tt)

  pub with_callback :
      ServerConfig
      → KafkaMessage
      → Option Bytes
      → Option Bytes
      → Option (Bytes → Result Processed)
      → List Effect × Result (Unit {0})
  unfolding after_process
  with_callback config m refusal flush_error none = (commits m ∷ [], ok tt)
  with_callback config m refusal flush_error (some process) =
      after_process config m refusal flush_error (process (span_bytes m.payload))

  -- One round of the inner loop, from the message on: its effects, and what it throws.
  unfoldable pub handle_kafka_message :
      ServerConfig → KafkaMessage → Answers → List Effect × Result (Unit {0})
  unfolding with_callback
  handle_kafka_message config m answers =
      with_callback config m answers.refusal answers.flush_error answers.process

  unfoldable pub handle : ServerConfig → Consumed → List Effect × Result (Unit {0})
  handle config no_message = ([], ok tt)
  handle config (received m answers) = handle_kafka_message config m answers

  pub go_on :
      List Effect × Result (Unit {0})
      → List Effect × Result (Unit {0})
      → List Effect × Result (Unit {0})
  go_on (effects, throw e) rest = (effects, throw e)
  go_on (effects, ok _) (effects', r) = (effects ++ effects', r)

  -- The inner loop while the server runs: it ends with an exception, or when stop() was called.
  unfoldable pub session : ServerConfig → List Consumed → List Effect × Result (Unit {0})
  unfolding go_on
  session config [] = ([], ok tt)
  session config (c ∷ cs) = let rest = session config cs in go_on (handle config c) rest

  pub connected :
      ServerConfig → Result (Conf × Conf) → List Consumed → List Effect × Result (Unit {0})
  connected config (throw e) cs = ([], throw e)
  connected config (ok confs) cs = session config cs

  -- One round of the outer loop. What it throws is logged, and the next round connects again.
  unfoldable pub attempt :
      ServerConfig → Connection → List Consumed → List Effect × Result (Unit {0})
  unfolding connected
  attempt config answers cs = connected config (connect answers config) cs
