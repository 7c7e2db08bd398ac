-- ===== src/RabbitMq/Config.antt =====
-- The client's settings of rabbitmq/RabbitmqPlugin/RabbitMqClient.h and RabbitMqClient.cpp, and how
-- they are read.
pub mod Ranges
use graftcode_extensions.Base.{
  ℕ, ◌^◌, Bool, true, false, not, ◌&&◌, ◌||◌, Option, none, some, [], String, Bytes, codes,
  is_empty, bytes_eq, ltb, leb, if◌then◌else◌,
}
use graftcode_extensions.Base.Int.{ℤ, pos, negsuc}
use graftcode_extensions.Json.{View, JsonLibrary, is_object, contains}
use graftcode_extensions.Json.Read.{string_at, integer_at, value_or}
use graftcode_extensions.Json.Search.{find_node}

pub record RabbitMqClientConfig : Type 0 where
  pub host : Bytes
  pub port : ℕ
  pub queue : Bytes
  pub user : Bytes
  pub password : Bytes
  pub vhost : Bytes
  pub rpc_timeout_ms : ℕ

abbrev pub default_client_config : RabbitMqClientConfig
default_client_config = record {
  host = [];
  port = 0;
  queue = [];
  user = [];
  password = [];
  vhost = [];
  rpc_timeout_ms = 30000;
}

-- A number in the range takes the place of the target; any other leaves it.
unfoldable pub positive_below : ℕ → ℕ → Option ℤ → ℕ
positive_below limit target none = target
positive_below limit target (some (negsuc _)) = target
positive_below limit target (some (pos n)) = if not (leb n 0) && ltb n limit then n else target

module _ (json : JsonLibrary) where
  open json use {Json, view, parse}

  -- `read_file` gives the contents of a path, and none where there is no file that can be read.
  unfoldable pub parse_json_config_source : (Bytes → Option Bytes) → Bytes → Option Json
  parse_json_config_source read_file source =
      if is_empty source then none else elim (parse source) [
        | some inline_json ↦ some inline_json
        | none ↦ elim (read_file source) [ none ↦ none | some contents ↦ parse contents ]
      ]

  unfoldable pub has_key : Json → String → Bool
  unfolding contains
  has_key node key = contains (codes key) (view node)

  unfoldable pub is_plugin_channel : Json → Bool
  unfolding bytes_eq
  is_plugin_channel node =
      bytes_eq (value_or [] (string_at json (codes "type") node)) (codes "plugin")

  unfoldable pub is_rabbit_mq_node : Bool → Json → Bool
  unfolding has_key is_plugin_channel
  is_rabbit_mq_node is_root node =
      has_key node "queue"
      || has_key node "user"
      || has_key node "password"
      || has_key node "vhost"
      || has_key node "rpcTimeoutMs"
      || (has_key node "host" && has_key node "port" && (is_plugin_channel node || is_root))

  unfoldable pub find_rabbit_mq_node : Bool → Json → Option Json
  unfolding find_node is_rabbit_mq_node
  find_rabbit_mq_node = find_node json (codes "rabbitmq") is_rabbit_mq_node

  read : Json → String → Bytes → Bytes
  unfolding value_or string_at
  read node key target = value_or target (string_at json (codes key) node)

  unfoldable pub apply_rabbit_mq_config : Json → RabbitMqClientConfig → RabbitMqClientConfig
  unfolding read positive_below is_object integer_at
  apply_rabbit_mq_config node config = if not (is_object (view node)) then config else record {
    host = read node "host" config.host;
    port = positive_below (2 ^ 16) config.port (integer_at json (codes "port") node);
    queue = read node "queue" config.queue;
    user = read node "user" config.user;
    password = read node "password" config.password;
    vhost = read node "vhost" config.vhost;
    rpc_timeout_ms =
        positive_below (2 ^ 32) config.rpc_timeout_ms (integer_at json (codes "rpcTimeoutMs") node);
  }

  apply_found : Option Json → RabbitMqClientConfig → RabbitMqClientConfig
  unfolding apply_rabbit_mq_config
  apply_found none config = config
  apply_found (some node) config = apply_rabbit_mq_config node config

  search_source : Option Json → Option Json
  unfolding find_rabbit_mq_node
  search_source none = none
  search_source (some root) = find_rabbit_mq_node true root

  -- A source that cannot be read leaves the settings as they are.
  unfoldable pub apply_config_source :
      (Bytes → Option Bytes) → Bytes → RabbitMqClientConfig → RabbitMqClientConfig
  unfolding apply_found search_source parse_json_config_source
  apply_config_source read_file source config =
      apply_found (search_source (parse_json_config_source read_file source)) config
