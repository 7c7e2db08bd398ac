-- ===== src/ServiceBus/Server.antt =====
-- servicebus/ServiceBusPlugin/ServiceBusServer.cpp: the settings, and what the consumer does with a
-- message. The Gateway's callback and the Azure SDK's answers are arguments.
pub mod Senders
use graftcode_extensions.Base.{
  ℕ, ◌^◌, Bool, true, false, not, ◌&&◌, ◌||◌, Option, none, some, List, [], ◌∷◌, ◌++◌, String,
  Bytes, codes, is_empty, ltb, leb, if◌then◌else◌, Exception, runtime_error, other_std, Result, ok,
  throw, ◌>>=◌, ◌>>◌, throw_if,
}
use graftcode_extensions.Base.Int.{ℤ, pos, negsuc}
use graftcode_extensions.Json.{JsonLibrary, is_object}
use graftcode_extensions.Json.Read.{string_at, boolean_at, integer_at, value_or}
use graftcode_extensions.Sqs.Server.{Processed, write_all}
use graftcode_extensions.RabbitMq.Relaxed.{normalize_relaxed_json}
use graftcode_extensions.ServiceBus.Config.{
  ServiceBusClientConfig, default_client_config, build_connection_string,
}
use graftcode_extensions.ServiceBus.Amqp.{
  AmqpValue, null, MessageBody, binary, AmqpMessage, extract_message_body, try_get_reply_to,
  try_get_reply_session_id,
}

pub record ServiceBusServerConfig : Type 0 where
  pub name : Bytes
  pub connection_string : Bytes
  pub host : Bytes
  pub shared_access_key_name : Bytes
  pub shared_access_key : Bytes
  pub queue : Bytes
  pub reply_queue : Bytes
  pub topic : Bytes
  pub subscription : Bytes
  pub use_development_emulator : Bool
  pub rpc_timeout_ms : ℕ

unfoldable pub server_connection_string : ServiceBusServerConfig → Bytes
server_connection_string config = build_connection_string (record default_client_config {
  connection_string = config.connection_string;
  host = config.host;
  shared_access_key_name = config.shared_access_key_name;
  shared_access_key = config.shared_access_key;
  use_development_emulator = config.use_development_emulator;
})

unfoldable pub checked_timeout : Option ℤ → Result ℕ
checked_timeout none = ok 30000
checked_timeout (some (negsuc _)) =
    throw (runtime_error (codes "Service Bus consumer: invalid rpcTimeoutMs in configuration"))
checked_timeout (some (pos n)) =
    if leb n 0 || leb (2 ^ 32) n
    then throw (runtime_error (codes "Service Bus consumer: invalid rpcTimeoutMs in configuration"))
    else ok n

-- The checks behind the last reads.
unfoldable pub check_server_config : ServiceBusServerConfig → Result ServiceBusServerConfig
unfolding server_connection_string
check_server_config c = do
  throw_if (not (is_empty c.subscription) && is_empty c.topic)
      (runtime_error (codes "Service Bus consumer: 'subscription' requires 'topic' to be set"))
  throw_if (is_empty c.subscription && is_empty c.queue) (
      runtime_error
        (codes "Service Bus consumer: missing required field 'queue' (or 'topic'+'subscription')"))
  throw_if (is_empty (server_connection_string c)) (
      runtime_error (
        codes
          "Service Bus consumer: missing 'connectionString' (or host/sharedAccessKeyName/sharedAccessKey)"))
  ok c

module _ (json : JsonLibrary) where
  open json use {Json, view, parse, parse_error}

  get_optional_string : Json → String → Bytes
  unfolding value_or string_at
  get_optional_string node key = value_or [] (string_at json (codes key) node)

  unfoldable pub read_server_config : Json → Result ServiceBusServerConfig
  unfolding get_optional_string checked_timeout is_object boolean_at value_or
  read_server_config parsed = do
    throw_if (not (is_object (view parsed)))
        (runtime_error (codes "Service Bus consumer: configuration must be a JSON object"))
    timeout ← checked_timeout (integer_at json (codes "rpcTimeoutMs") parsed)
    check_server_config (record {
      name = get_optional_string parsed "name";
      connection_string = get_optional_string parsed "connectionString";
      host = get_optional_string parsed "host";
      shared_access_key_name = get_optional_string parsed "sharedAccessKeyName";
      shared_access_key = get_optional_string parsed "sharedAccessKey";
      queue = get_optional_string parsed "queue";
      reply_queue = get_optional_string parsed "replyQueue";
      topic = get_optional_string parsed "topic";
      subscription = get_optional_string parsed "subscription";
      use_development_emulator =
          value_or false (boolean_at json (codes "useDevelopmentEmulator") parsed);
      rpc_timeout_ms = timeout;
    })

  unfoldable pub parse_or_throw : Bytes → Option Json → Result Json
  parse_or_throw source none = throw (other_std (parse_error source))
  parse_or_throw source (some j) = ok j

  -- The configuration that takes the place of the current one, unless this throws.
  unfoldable pub apply_config_from_json : Bytes → Result ServiceBusServerConfig
  unfolding parse_or_throw read_server_config
  apply_config_from_json source =
      if is_empty source
      then throw (runtime_error (codes "Service Bus consumer: empty configuration JSON"))
      else (do
        parsed ←
            parse_or_throw (normalize_relaxed_json source) (parse (normalize_relaxed_json source))
        read_server_config parsed)

-- Where the consumer receives from; a subscription makes it one-way.
unfoldable pub is_one_way : ServiceBusServerConfig → Bool
is_one_way config = not (is_empty config.subscription)

unfoldable pub source_address : ServiceBusServerConfig → Bytes
unfolding is_one_way
source_address config =
    if is_one_way config
    then config.topic ++ (codes "/Subscriptions/" ++ config.subscription)
    else config.queue

-- The response for a request: its correlation id is the request's message id.
unfoldable pub response_message : AmqpMessage → Bytes → AmqpMessage
response_message m response = record {
  body = binary (response ∷ []);
  message_id = null;
  correlation_id = m.message_id;
  reply_to = null;
  reply_to_group_id = none;
  group_id = try_get_reply_session_id m;
  reply_to_session_id = none;
}

-- What a message has the consumer publish: an entity and a response.
pub data Publishes : Type 0 where
  nothing : Publishes
  publishes : Bytes → AmqpMessage → Publishes

unfoldable pub reply_for : ServiceBusServerConfig → AmqpMessage → Processed → Publishes
unfolding response_message is_one_way
reply_for config m p =
    if not p.accepted
    then nothing
    else if is_one_way config
    then nothing
    else elim (try_get_reply_to m) [
      | none ↦ nothing
      | some entity ↦ publishes entity (response_message m (write_all [] p.writes))
    ]

unfoldable pub with_result :
    ServiceBusServerConfig → AmqpMessage → Result Processed → Result Publishes
unfolding reply_for
with_result config m (throw e) = throw e
with_result config m (ok p) = ok (reply_for config m p)

-- One round of the inner loop for a message; what it throws ends the connection.
unfoldable pub handle_service_bus_message :
    ServiceBusServerConfig → Option (Bytes → Result Processed) → AmqpMessage → Result Publishes
unfolding with_result
handle_service_bus_message config callback m =
    let request = extract_message_body m in
    if is_empty request then ok nothing else elim callback [
      | none ↦
          throw (
            runtime_error (codes "Service Bus consumer: processMessage callback is not configured"))
      | some process ↦ with_result config m (process request)
    ]
