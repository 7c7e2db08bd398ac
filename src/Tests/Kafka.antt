-- ===== src/Tests/Kafka.antt =====
-- The Kafka plugin on concrete inputs.
use graftcode_extensions.Base.{
  ◌≡◌, ◌≢◌, refl, true, Option, none, some, List, [], ◌∷◌, ◌++◌, arith, Bytes, codes, bytes_eq,
  bytes_eq_iff, bytes_eq_refl, find, if◌then◌else◌, invalid_argument, ok, throw,
}
use graftcode_extensions.Base.Int.{ℤ}
use graftcode_extensions.PendingReplies.{Ticket, register}
use graftcode_extensions.PendingReplies.Threads.{fresh}
use graftcode_extensions.PendingReplies.Tickets.{fresh-Inv}
use graftcode_extensions.Sqs.Codec.{span, null_span}
use graftcode_extensions.Sqs.Server.{Processed, write_all}
use graftcode_extensions.Kafka.Util.{
  HeaderLibrary, KeepsHeaders, make_rpc_headers, header_value, first_value,
}
use graftcode_extensions.Kafka.Config.{default_client, new_server}
use graftcode_extensions.Kafka.Client.{
  KafkaClient, Broker, new_client, ensure_started, message, report, idle, dispatch_all, Produced,
  begin_kafka_call, end_call,
}
use graftcode_extensions.Kafka.Client.Replies.{message_id, call_returns}
use graftcode_extensions.Kafka.Server.{
  Answers, Connection, KafkaMessage, Reply, publishes, flushes, commits, Consumed, no_message,
  received, handle_kafka_message, attempt,
}
use graftcode_extensions.Kafka.Server.Messages.{Ends, handle_kafka_message-Ends}
use graftcode_extensions.Kafka.Server.Sessions.{Attempts, attempt-Runs}
use graftcode_extensions.Kafka.Rpc.{delivered, kafka_round_trip}

-- Headers as a list of keys and values.
unfoldable values : List (Bytes × Bytes) → Bytes → List (Option Bytes)
values [] key = []
values ((k, v) ∷ h) key = if bytes_eq k key then some v ∷ values h key else values h key

abbrev headers : HeaderLibrary
headers = record {
  Headers = List (Bytes × Bytes);
  create = [];
  add = λ key value h. h ++ (key, value) ∷ [];
  get = values;
}

values-add :
    (key value : Bytes) (h : List (Bytes × Bytes))
    → values (h ++ (key, value) ∷ []) key ≡ values h key ++ some value ∷ []
unfolding values
values-add key value [] = ground (arith, bytes_eq_refl key)
values-add key value ((k, v) ∷ h) = ground (arith, values-add key value h)

values-add_other :
    (key other value : Bytes) (h : List (Bytes × Bytes))
    → key ≢ other
    → values (h ++ (key, value) ∷ []) other ≡ values h other
unfolding values
values-add_other key other value [] n = ground (arith, bytes_eq_iff key other)
values-add_other key other value ((k, v) ∷ h) n =
    ground (arith, values-add_other key other value h n)

keeps : KeepsHeaders headers
keeps = record {
  get_create = λ key. unfold values in refl;
  get_add = values-add;
  get_add_other = values-add_other;
}

abbrev broker : Broker
broker = record {
  set = λ key value. none;
  set_report_callback = none;
  create_producer = none;
  create_consumer = none;
  subscribe = none;
}

abbrev to_string : ℤ → Bytes
to_string z = []

abbrev id : Bytes
id = b'i' ∷ []

abbrev other : Bytes
other = b'j' ∷ []

id_given : id ≢ []
id_given e = ground arith

other_ne_id : other ≢ id
other_ne_id e = ground arith

abbrev client : KafkaClient
client = record (new_client id default_client) { started = true }

abbrev payload : Bytes
payload = 1 ∷ 0 ∷ []

abbrev produced : Produced headers
produced = record {
  topic = default_client.request_topic;
  payload = payload;
  headers = make_rpc_headers headers id default_client.reply_topic;
  tag = id;
}

abbrev ticket : Ticket
ticket = record { owner = true; id = id; slot = 0 }

began :
    (begin_kafka_call headers to_string broker id none (span payload) client).1
    ≡ ok (produced, ticket)
unfolding begin_kafka_call ensure_started register find new_client
began = refl

topic_given :
    (begin_kafka_call headers to_string broker id none (span payload) client).0.config.reply_topic
    ≢ []
unfolding begin_kafka_call ensure_started register find new_client codes
topic_given e = ground arith

abbrev response : Bytes
response = 7 ∷ []

abbrev result : Processed
result = record { accepted = true; writes = span response ∷ [] }

abbrev answers : Answers
answers = record { process = some (λ request. ok result); refusal = none; flush_error = none }

kafka_round_trip_example :
    (reply : Reply headers) × (handle_kafka_message headers new_server
        (delivered headers keeps produced)
        answers
      ≡ (
        publishes reply none ∷ flushes none ∷ commits (delivered headers keeps produced) ∷ [],
        ok tt,
      ))
    × (reply.topic
        ≡ (begin_kafka_call headers to_string broker id none
            (span payload)
            client).0.config.reply_topic)
    × (reply.payload ≡ write_all [] result.writes)
    × (message_id headers (some reply.headers) ≡ id)
kafka_round_trip_example =
    kafka_round_trip headers keeps to_string broker id (span payload) client produced ticket
      new_server answers (λ request. ok result) result began id_given topic_given refl refl refl
      refl

abbrev request : KafkaMessage headers
request = record { headers = none; payload = span payload }

handle_kafka_message-Ends_example :
    Ends headers new_server request answers
      (handle_kafka_message headers new_server request answers)
handle_kafka_message-Ends_example = handle_kafka_message-Ends headers new_server request answers

abbrev connection : Connection
connection = record {
  set = λ key value. none;
  create_producer = none;
  create_consumer = none;
  subscribe = none;
}

abbrev batch : List (Consumed headers)
batch =
    received request answers
    ∷ no_message
    ∷ received request (record answers { refusal = some id })
    ∷ []

attempt-Runs_example :
    Attempts headers new_server connection batch (attempt headers new_server connection batch)
attempt-Runs_example = attempt-Runs headers new_server connection batch

abbrev reply_headers : List (Bytes × Bytes)
reply_headers = (codes "correlation-id", id) ∷ []

reply_id : message_id headers (some reply_headers) ≡ id
unfolding header_value values bytes_eq codes first_value
reply_id = refl

call_returns_example :
    let began = (begin_kafka_call headers to_string broker id none (span payload) client).0 in
    let now = record began {
      pending = dispatch_all headers began.pending (
          idle
          ∷ report (some other) (some id)
          ∷ (message (some reply_headers) (span response) ∷ report (some id) (some id) ∷ []));
    } in
    let r = end_call to_string ticket now in
    (r.1 ≡ ok response) × (find id r.0.pending.slots ≡ none)
call_returns_example =
    call_returns headers to_string broker id none (span payload) client fresh produced ticket
      (idle ∷ report (some other) (some id) ∷ []) (report (some id) (some id) ∷ [])
      (some reply_headers) (span response) fresh-Inv (unfold new_client in refl) began id_given
      reply_id (tt, (other_ne_id, tt))

refused :
    (begin_kafka_call headers to_string broker id none (null_span 1) client).1
    ≡ throw (invalid_argument (codes "KafkaClient::call: null data with non-zero length"))
unfolding begin_kafka_call
refused = refl

abbrev marked : Bytes
marked = 255 ∷ 1 ∷ []
