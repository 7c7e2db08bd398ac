-- ===== src/PubSub/Config/Source.antt =====
-- How pubsub/PubSubPlugin/PubSubConfig.cpp reads the settings from a JSON text or from a file.
use graftcode_extensions.Base.{
  ℕ, ◌-◌, ◌^◌, Bool, true, false, not, ◌&&◌, ◌||◌, Option, none, some, [], ◌++◌, String, Bytes,
  codes, is_empty, find, find_in, ltb, leb, if◌then◌else◌, other_std, Result, ok, throw, ◌>>=◌,
}
use mathlib.Core.Option
use graftcode_extensions.Base.Int.{ℤ, pos, negsuc, to_int64}
use graftcode_extensions.Json.Search.{find_node}
use graftcode_extensions.Json.{
  View, JsonLibrary, boolean, number_integer, number_unsigned, string, members, is_object, contains,
}
use graftcode_extensions.PubSub.Config.{PubSubConfig, pubsub_error, check_config}

quoted : String → Bytes → String → Bytes
quoted before key after = codes before ++ (key ++ codes after)

unfoldable pub positive_uint : Bytes → ℤ → Result ℕ
unfolding pubsub_error quoted
positive_uint key (negsuc _) = pubsub_error (quoted "Pub/Sub plugin: invalid value for '" key "'")
positive_uint key (pos n) =
    if leb n 0 || ltb (2 ^ 32 - 1) n
    then pubsub_error (quoted "Pub/Sub plugin: invalid value for '" key "'")
    else ok n

module _ {J : Type 0} where
  string_or : Bytes → Option (View J) → Bytes
  string_or target (some (string s)) = s
  string_or target _ = target

  unfoldable pub integer_value : View J → Option ℤ
  integer_value (number_integer z) = some z
  integer_value (number_unsigned n) = some (to_int64 n)
  integer_value _ = none

  unfoldable pub uint_or : Bytes → ℕ → Option (View J) → Result ℕ
  unfolding positive_uint integer_value
  uint_or key target none = ok target
  uint_or key target (some v) = elim (integer_value v) [
    | none ↦ pubsub_error (quoted "Pub/Sub plugin: '" key "' must be an integer")
    | some parsed ↦ positive_uint key parsed
  ]

  -- The value, and whether it was specified.
  bool_or : Bytes → Bool → Option (View J) → Result (Bool × Bool)
  unfolding pubsub_error quoted
  bool_or key target none = ok (target, false)
  bool_or key target (some (boolean b)) = ok (b, true)
  bool_or key target (some _) = pubsub_error (quoted "Pub/Sub plugin: '" key "' must be a boolean")

module _ (json : JsonLibrary) where
  open json use {Json, view, parse, parse_error}

  pub value_at : Bytes → Json → Option (View Json)
  unfolding members find
  value_at key node = Option.map view (find key (members (view node)))

  unfoldable pub read_string : Json → String → Bytes → Bytes
  unfolding string_or value_at
  read_string node key target = string_or target (value_at (codes key) node)

  unfoldable pub read_positive_uint : Json → String → ℕ → Result ℕ
  unfolding uint_or value_at
  read_positive_uint node key target = uint_or (codes key) target (value_at (codes key) node)

  unfoldable pub read_bool : Json → String → Bool → Result (Bool × Bool)
  unfolding bool_or value_at
  read_bool node key target = bool_or (codes key) target (value_at (codes key) node)

  -- `read_file` gives the contents of a path, and none where the stream is not good.
  unfoldable pub parse_json_source : (Bytes → Option Bytes) → Bytes → Result Json
  unfolding pubsub_error
  parse_json_source read_file source =
      if is_empty source
      then pubsub_error (codes "Pub/Sub plugin: empty configuration")
      else elim (parse source) [
        | some inline_json ↦ ok inline_json
        | none ↦ elim (read_file source) [
          | none ↦
              pubsub_error
                (codes "Pub/Sub plugin: configuration is neither valid JSON nor a readable file")
          | some contents ↦ elim (parse contents) [
            | some j ↦ ok j
            | none ↦ throw (other_std (parse_error contents))
          ]
        ]
      ]

  unfoldable pub has_key : Json → String → Bool
  unfolding contains
  has_key node key = contains (codes key) (view node)

  unfoldable pub has_specific_pubsub_keys : Json → Bool
  unfolding has_key
  has_specific_pubsub_keys node =
      has_key node "projectId"
      || has_key node "requestTopic"
      || has_key node "requestSubscription"
      || has_key node "replySubscription"
      || has_key node "emulatorHost"
      || has_key node "credentialsFile"
      || has_key node "accessToken"
      || has_key node "ackDeadlineSeconds"

  names_pubsub : Option (View Json) → Bool
  unfolding find_in
  names_pubsub (some (string s)) = find_in (codes "PubSub") s || find_in (codes "pubsub") s
  names_pubsub _ = false

  unfoldable pub name_looks_like_pubsub : Json → Bool
  unfolding names_pubsub value_at
  name_looks_like_pubsub node = names_pubsub (value_at (codes "name") node)

  unfoldable pub is_flat_pubsub_alias : Json → Bool
  unfolding has_key has_specific_pubsub_keys name_looks_like_pubsub
  is_flat_pubsub_alias node =
      if not (
          has_key node "queue"
          || has_key node "replyQueue"
          || has_key node "requestTopic"
          || has_key node "replyTopic")
        && not (has_key node "projectId")
      then false
      else if has_specific_pubsub_keys node
      then true
      else name_looks_like_pubsub node

  unfoldable pub is_pubsub_node : Bool → Json → Bool
  unfolding has_specific_pubsub_keys is_flat_pubsub_alias
  is_pubsub_node is_root node = has_specific_pubsub_keys node || is_flat_pubsub_alias node

  unfoldable pub find_pubsub_node : Json → Option Json
  unfolding find_node is_pubsub_node
  find_pubsub_node = find_node json (codes "pubsub") is_pubsub_node false

  first_nonempty : Json → Bytes → String → Bytes
  unfolding read_string
  first_nonempty node target key = if is_empty target then read_string node key target else target

  unfoldable pub read_config : Json → Result PubSubConfig
  unfolding first_nonempty read_string
  read_config node = do
    rpc ← read_positive_uint node "rpcTimeoutMs" 30000
    ack ← read_positive_uint node "ackDeadlineSeconds" 60
    most ← read_positive_uint node "maxMessages" 10
    one_way ← read_bool node "oneWay" false
    create ← read_bool node "autoCreate" false
    verify ← read_bool node "verifySsl" true
    ok (record {
      name = read_string node "name" [];
      project_id = read_string node "projectId" [];
      request_topic = first_nonempty node (read_string node "requestTopic" []) "queue";
      request_subscription =
          first_nonempty node (read_string node "requestSubscription" []) "subscription";
      reply_topic = first_nonempty node (read_string node "replyTopic" []) "replyQueue";
      reply_subscription = read_string node "replySubscription" [];
      emulator_host = read_string node "emulatorHost" [];
      credentials_file = read_string node "credentialsFile" [];
      access_token = read_string node "accessToken" [];
      rpc_timeout_ms = rpc;
      ack_deadline_seconds = ack;
      max_messages = most;
      one_way = one_way.0;
      auto_create = create.0;
      auto_create_specified = create.1;
      verify_ssl = verify.0;
      emulator_use_https = false;
    })

  unfoldable pub config_of_node : Option Json → Result PubSubConfig
  unfolding pubsub_error is_object
  config_of_node none =
      pubsub_error (codes "Pub/Sub plugin: configuration does not contain Pub/Sub settings")
  config_of_node (some node) =
      if not (is_object (view node))
      then pubsub_error (codes "Pub/Sub plugin: configuration does not contain Pub/Sub settings")
      else read_config node >>= check_config

  unfoldable pub parse_pubsub_config_source : (Bytes → Option Bytes) → Bytes → Result PubSubConfig
  unfolding config_of_node
  parse_pubsub_config_source read_file source = do
    root ← parse_json_source read_file source
    config_of_node (find_pubsub_node root)
