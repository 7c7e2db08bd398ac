-- ===== src/ServiceBus/Config.antt =====
-- The client's settings of servicebus/ServiceBusPlugin/ServiceBusClient.h and ServiceBusClient.cpp, how
-- they are read, and the connection string that they make.
use graftcode_extensions.Base.{
  ℕ, ◌^◌, ◌≡◌, Bool, true, false, not, ◌&&◌, ◌||◌, Option, none, some, [], ◌∷◌, ◌++◌, arith, String,
  Bytes, codes, is_empty, bytes_eq, starts_with, back, ltb, leb, ◌==◌, if◌then◌else◌,
}
use graftcode_extensions.Base.Int.{ℤ, pos, negsuc}
use graftcode_extensions.Json.{JsonLibrary, is_object, contains}
use graftcode_extensions.Json.Read.{string_at, boolean_at, integer_at, value_or}
use graftcode_extensions.Json.Search.{find_node}

pub record ServiceBusClientConfig : Type 0 where
  pub connection_string : Bytes
  pub host : Bytes
  pub shared_access_key_name : Bytes
  pub shared_access_key : Bytes
  pub queue : Bytes
  pub reply_queue : Bytes
  pub topic : Bytes
  pub use_development_emulator : Bool
  pub rpc_timeout_ms : ℕ

abbrev pub default_client_config : ServiceBusClientConfig
default_client_config = record {
  connection_string = [];
  host = [];
  shared_access_key_name = [];
  shared_access_key = [];
  queue = [];
  reply_queue = [];
  topic = [];
  use_development_emulator = false;
  rpc_timeout_ms = 30000;
}

unfoldable pub positive_or : ℕ → Option ℤ → ℕ
positive_or target none = target
positive_or target (some (negsuc _)) = target
positive_or target (some (pos n)) = if not (leb n 0) && ltb n (2 ^ 32) then n else target

module _ (json : JsonLibrary) where
  open json use {Json, view, parse}

  -- `read_file` gives the contents of a path, and none where there is no file that can be read.
  unfoldable pub parse_json_config_source : (Bytes → Option Bytes) → Bytes → Option Json
  parse_json_config_source read_file source =
      if is_empty source then none else elim (parse source) [
        | some inline_json ↦ some inline_json
        | none ↦ elim (read_file source) [ none ↦ none | some contents ↦ parse contents ]
      ]

  unfoldable pub has_key : Json → String → Bool
  unfolding contains
  has_key node key = contains (codes key) (view node)

  unfoldable pub is_service_bus_node : Bool → Json → Bool
  unfolding has_key bytes_eq
  is_service_bus_node is_root node =
      has_key node "connectionString"
      || has_key node "queue"
      || has_key node "replyQueue"
      || has_key node "sharedAccessKeyName"
      || has_key node "sharedAccessKey"
      || ((bytes_eq (value_or [] (string_at json (codes "type") node)) (codes "plugin") || is_root)
          && has_key node "connectionString")

  unfoldable pub find_service_bus_node : Bool → Json → Option Json
  unfolding find_node is_service_bus_node
  find_service_bus_node = find_node json (codes "servicebus") is_service_bus_node

  read : Json → String → Bytes → Bytes
  unfolding value_or string_at
  read node key target = value_or target (string_at json (codes key) node)

  unfoldable pub apply_service_bus_config : Json → ServiceBusClientConfig → ServiceBusClientConfig
  unfolding read positive_or is_object integer_at boolean_at value_or
  apply_service_bus_config node config = if not (is_object (view node)) then config else record {
    connection_string = read node "connectionString" config.connection_string;
    host = read node "host" config.host;
    shared_access_key_name = read node "sharedAccessKeyName" config.shared_access_key_name;
    shared_access_key = read node "sharedAccessKey" config.shared_access_key;
    queue = read node "queue" config.queue;
    reply_queue = read node "replyQueue" config.reply_queue;
    topic = read node "topic" config.topic;
    use_development_emulator =
        value_or config.use_development_emulator
          (boolean_at json (codes "useDevelopmentEmulator") node);
    rpc_timeout_ms =
        positive_or config.rpc_timeout_ms (integer_at json (codes "rpcTimeoutMs") node);
  }

  apply_found : Option Json → ServiceBusClientConfig → ServiceBusClientConfig
  unfolding apply_service_bus_config
  apply_found none config = config
  apply_found (some node) config = apply_service_bus_config node config

  search_source : Option Json → Option Json
  unfolding find_service_bus_node
  search_source none = none
  search_source (some root) = find_service_bus_node true root

  -- A source that cannot be read leaves the settings as they are.
  unfoldable pub apply_config_source :
      (Bytes → Option Bytes) → Bytes → ServiceBusClientConfig → ServiceBusClientConfig
  unfolding apply_found search_source parse_json_config_source
  apply_config_source read_file source config =
      apply_found (search_source (parse_json_config_source read_file source)) config

unfoldable pub with_scheme : Bytes → Bytes
unfolding starts_with
with_scheme host = if starts_with (codes "sb://") host then host else codes "sb://" ++ host

ends_in : ℕ → Option ℕ → Bool
ends_in c none = false
ends_in c (some d) = d == c

-- The host has at least the scheme, so it is not empty.
unfoldable pub with_slash : Bytes → Bytes
unfolding ends_in back
with_slash host =
    if not (is_empty host) && not (ends_in b'/' (back host)) then host ++ b'/' ∷ [] else host

unfoldable pub build_connection_string : ServiceBusClientConfig → Bytes
unfolding with_scheme with_slash
build_connection_string config =
    if not (is_empty config.connection_string)
    then config.connection_string
    else if is_empty config.host
        || is_empty config.shared_access_key_name
        || is_empty config.shared_access_key
    then []
    else codes "Endpoint="
      ++ (with_slash (with_scheme config.host)
          ++ (codes ";SharedAccessKeyName="
              ++ (config.shared_access_key_name
                  ++ (codes ";SharedAccessKey="
                      ++ (config.shared_access_key
                          ++ (if config.use_development_emulator
                              then codes ";UseDevelopmentEmulator=true"
                              else []))))))

-- Without a connection string it is made just where there is all that it takes.
pub build_connection_string_empty :
    (c : ServiceBusClientConfig)
    → build_connection_string c ≡ []
    → (c.connection_string ≡ [])
      × ((is_empty c.host || is_empty c.shared_access_key_name || is_empty c.shared_access_key)
          ≡ true)
unfolding build_connection_string codes
build_connection_string_empty c h = ground arith
