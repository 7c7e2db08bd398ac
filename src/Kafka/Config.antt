-- ===== src/Kafka/Config.antt =====
-- The settings of kafka/KafkaPlugin: KafkaClient::Config, parseClientConfig of TransportKafka.cpp, and
-- configure of KafkaServer.cpp. Unlike the SQS plugin these never refuse a source.
use mathlib.Core.Option
use graftcode_extensions.Base.{
  ◌≡◌, refl, Bool, false, not, Option, none, some, [], String, Bytes, codes, find, if◌then◌else◌,
  is_empty, Result, ok, ◌>>=◌, Option-cases, inl, inr,
}
use graftcode_extensions.Base.Int.{ℤ, pos, wrap_int32}
use graftcode_extensions.Json.{
  View, JsonLibrary, string, number_integer, number_unsigned, members, is_object,
}
use graftcode_extensions.Kafka.Util.{Conf, set_conf_or_throw}

-- The optional settings that client and server share.
pub record Security : Type 0 where
  pub security_protocol : Bytes
  pub sasl_mechanism : Bytes
  pub sasl_username : Bytes
  pub sasl_password : Bytes
  pub ssl_ca_location : Bytes

abbrev pub no_security : Security
no_security = record {
  security_protocol = [];
  sasl_mechanism = [];
  sasl_username = [];
  sasl_password = [];
  ssl_ca_location = [];
}

pub record ClientConfig : Type 0 where
  pub brokers : Bytes
  pub request_topic : Bytes
  pub reply_topic : Bytes
  pub group_id : Bytes
  pub rpc_timeout_ms : ℤ
  pub security : Security

abbrev pub default_client : ClientConfig
default_client = record {
  brokers = codes "localhost:9092";
  request_topic = codes "graft.requests";
  reply_topic = codes "graft.replies";
  group_id = codes "graft-client";
  rpc_timeout_ms = pos 30000;
  security = no_security;
}

-- The members of KafkaServer that configure sets; `callback` is whether there is one.
pub record ServerConfig : Type 0 where
  pub callback : Bool
  pub brokers : Bytes
  pub request_topic : Bytes
  pub reply_topic : Bytes
  pub group_id : Bytes
  pub security : Security

abbrev pub new_server : ServerConfig
new_server = record {
  callback = false;
  brokers = codes "localhost:9092";
  request_topic = codes "graft.requests";
  reply_topic = codes "graft.replies";
  group_id = codes "graft-gateway";
  security = no_security;
}

module _ {J : Type 0} where
  -- `get<std::string>` where `is_string` holds.
  pub string_value : Option (View J) → Option Bytes
  string_value (some (string s)) = some s
  string_value _ = none

  -- `get<int>` where `is_number_integer` holds.
  pub int_value : Option (View J) → Option ℤ
  unfolding wrap_int32
  int_value (some (number_integer z)) = some (wrap_int32 z)
  int_value (some (number_unsigned n)) = some (wrap_int32 (pos n))
  int_value _ = none

abbrev pub or_keep {ℓ} : {A : Type ℓ} → Option A → A → A
or_keep none old = old
or_keep (some new) old = new

-- The `else if` of a second key.
abbrev pub or_else {ℓ} : {A : Type ℓ} → Option A → Option A → Option A
or_else none other = other
or_else (some new) other = some new

module _ (json : JsonLibrary) where
  open json use {Json, view, parse}

  value_at : String → Json → Option (View Json)
  unfolding members find
  value_at key j = Option.map view (find (codes key) (members (view j)))

  pub string_at : String → Json → Option Bytes
  unfolding string_value value_at
  string_at key j = string_value (value_at key j)

  pub int_at : String → Json → Option ℤ
  unfolding int_value value_at
  int_at key j = int_value (value_at key j)

  abbrev read_security : Json → Security → Security
  read_security j old = record {
    security_protocol = or_keep (string_at "securityProtocol" j) old.security_protocol;
    sasl_mechanism = or_keep (string_at "saslMechanism" j) old.sasl_mechanism;
    sasl_username = or_keep (string_at "saslUsername" j) old.sasl_username;
    sasl_password = or_keep (string_at "saslPassword" j) old.sasl_password;
    ssl_ca_location = or_keep (string_at "sslCaLocation" j) old.ssl_ca_location;
  }

  unfoldable pub read_client : Json → ClientConfig → ClientConfig
  read_client j c = record {
    brokers = or_keep (or_else (string_at "brokers" j) (string_at "host" j)) c.brokers;
    request_topic =
        or_keep (or_else (string_at "requestTopic" j) (string_at "queue" j)) c.request_topic;
    reply_topic =
        or_keep (or_else (string_at "replyTopic" j) (string_at "replyQueue" j)) c.reply_topic;
    group_id = or_keep (string_at "groupId" j) c.group_id;
    rpc_timeout_ms = or_keep (int_at "rpcTimeoutMs" j) c.rpc_timeout_ms;
    security = read_security j c.security;
  }

  unfoldable pub read_server : Json → ServerConfig → ServerConfig
  read_server j s = record {
    callback = s.callback;
    brokers = or_keep (or_else (string_at "brokers" j) (string_at "host" j)) s.brokers;
    request_topic =
        or_keep (or_else (string_at "requestTopic" j) (string_at "queue" j)) s.request_topic;
    reply_topic =
        or_keep (or_else (string_at "replyTopic" j) (string_at "replyQueue" j)) s.reply_topic;
    group_id = or_keep (string_at "groupId" j) s.group_id;
    security = read_security j s.security;
  }

  -- The source as an object; none where the callers return early.
  pub object_of : Option Bytes → Option Json
  unfolding is_object
  object_of none = none
  object_of (some source) = elim (parse source) [
    | none ↦ none
    | some j ↦ if is_object (view j) then some j else none
  ]

  unfoldable pub parse_client_config : Option Bytes → ClientConfig
  unfolding object_of
  parse_client_config source = elim (object_of source) [
    | none ↦ default_client
    | some j ↦ read_client j default_client
  ]

  -- `callback` is whether the function that is passed is not null.
  unfoldable pub configure : Option Bytes → Bool → ServerConfig → ServerConfig
  unfolding object_of
  configure source callback s = elim (object_of source) [
    | none ↦ record s { callback = callback }
    | some j ↦ read_server j (record s { callback = callback })
  ]

  -- A client and a new server that are given the same source, whatever it is, meet: they use the
  -- same brokers, the same two topics and the same security settings.
  pub parse_client_config-configure :
      (source : Option Bytes) (callback : Bool)
      → let c = parse_client_config source in
        let s = configure source callback new_server in
        (c.brokers ≡ s.brokers)
        × (c.request_topic ≡ s.request_topic)
        × (c.reply_topic ≡ s.reply_topic)
        × (c.security ≡ s.security)
  unfolding parse_client_config configure read_client read_server
  parse_client_config-configure source callback = elim (Option-cases (object_of source)) [
    | inl n ↦ rw (n, parse_client_config, configure) (refl, refl, refl, refl)
    | inr (j, n) ↦ rw (n, parse_client_config, configure) (refl, refl, refl, refl)
  ]

module _ (set : Bytes → Bytes → Option Bytes) where
  unfoldable pub apply_one : String → Bytes → Conf → Result Conf
  apply_one key value conf =
      if not (is_empty value) then set_conf_or_throw set (codes key) value conf else ok conf

  unfoldable pub apply_security : Security → Conf → Result Conf
  apply_security s conf = do
    a ← apply_one "security.protocol" s.security_protocol conf
    b ← apply_one "sasl.mechanism" s.sasl_mechanism a
    c ← apply_one "sasl.username" s.sasl_username b
    d ← apply_one "sasl.password" s.sasl_password c
    apply_one "ssl.ca.location" s.ssl_ca_location d
