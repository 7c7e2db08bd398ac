-- ===== src/Sqs/Config.antt =====
-- sqs/SqsPlugin/SqsConfig.h and SqsConfig.cpp: the settings and how they are read from JSON.
pub mod Bounds
use graftcode_extensions.Base.{
  ℕ, zero, suc, ◌-◌, ◌^◌, Bool, true, false, not, ◌&&◌, ◌||◌, Option, none, some, List, [], ◌∷◌,
  ◌++◌, map, String, Bytes, codes, length, is_empty, find, find_in, differ, ltb, leb, if◌then◌else◌,
  Exception, runtime_error, other_std, Result, ok, throw, ◌>>=◌, ◌>>◌, throw_if,
}
use mathlib.Core.Option
use graftcode_extensions.Base.Int.{ℤ, pos, negsuc, to_int64}
use graftcode_extensions.Json.Search.{find_node}
use graftcode_extensions.Json.{
  View, JsonLibrary, null, boolean, number_integer, number_unsigned, number_float, string, array,
  object, members, is_object, contains, first_found, children,
}

pub record SqsConfig : Type 0 where
  pub name : Bytes
  pub region : Bytes
  pub endpoint_override : Bytes
  pub access_key_id : Bytes
  pub secret_access_key : Bytes
  pub session_token : Bytes
  pub request_queue_url : Bytes
  pub reply_queue_url : Bytes
  pub message_group_id : Bytes
  pub rpc_timeout_ms : ℕ
  pub wait_time_seconds : ℕ
  pub visibility_timeout_seconds : ℕ
  pub one_way : Bool
  pub verify_ssl : Bool

abbrev pub default_config : SqsConfig
default_config = record {
  name = [];
  region = codes "us-east-1";
  endpoint_override = [];
  access_key_id = [];
  secret_access_key = [];
  session_token = [];
  request_queue_url = [];
  reply_queue_url = [];
  message_group_id = codes "graftcode";
  rpc_timeout_ms = 30000;
  wait_time_seconds = 1;
  visibility_timeout_seconds = 30;
  one_way = false;
  verify_ssl = true;
}

sqs_error {ℓ} : {A : Type ℓ} → Bytes → Result A
sqs_error message = throw (runtime_error message)

quoted : String → Bytes → String → Bytes
quoted before key after = codes before ++ (key ++ codes after)

pub positive_uint : Bytes → ℤ → Result ℕ
unfolding sqs_error quoted
positive_uint key (negsuc _) = sqs_error (quoted "SQS plugin: invalid value for '" key "'")
positive_uint key (pos n) =
    if leb n 0 || ltb (2 ^ 32 - 1) n
    then sqs_error (quoted "SQS plugin: invalid value for '" key "'")
    else ok n

module _ {J : Type 0} where
  pub string_or : Bytes → Option (View J) → Bytes
  string_or target (some (string s)) = s
  string_or target _ = target

  -- `get<std::int64_t>` where `is_number_integer` holds; an unsigned value wraps.
  integer_value : View J → Option ℤ
  integer_value (number_integer z) = some z
  integer_value (number_unsigned n) = some (to_int64 n)
  integer_value _ = none

  pub uint_or : Bytes → ℕ → Option (View J) → Result ℕ
  unfolding positive_uint integer_value
  uint_or key target none = ok target
  uint_or key target (some v) = elim (integer_value v) [
    | none ↦ sqs_error (quoted "SQS plugin: '" key "' must be an integer")
    | some parsed ↦ positive_uint key parsed
  ]

  pub bool_or : Bytes → Bool → Option (View J) → Result Bool
  unfolding sqs_error quoted
  bool_or key target none = ok target
  bool_or key target (some (boolean b)) = ok b
  bool_or key target (some _) = sqs_error (quoted "SQS plugin: '" key "' must be a boolean")

-- The checks behind the last reads of ParseSqsConfigSource.
unfoldable pub check_config : SqsConfig → Result SqsConfig
unfolding sqs_error
check_config c = do
  throw_if (ltb 20 c.wait_time_seconds)
      (runtime_error (codes "SQS plugin: 'waitTimeSeconds' cannot exceed 20"))
  throw_if (ltb 43200 c.visibility_timeout_seconds)
      (runtime_error (codes "SQS plugin: 'visibilityTimeoutSeconds' cannot exceed 43200"))
  throw_if (is_empty c.region) (runtime_error (codes "SQS plugin: 'region' cannot be empty"))
  throw_if (ltb 128 (length c.message_group_id))
      (runtime_error (codes "SQS plugin: 'messageGroupId' cannot exceed 128 characters"))
  throw_if (differ (not (is_empty c.access_key_id)) (not (is_empty c.secret_access_key))) (
      runtime_error
        (codes "SQS plugin: 'accessKeyId' and 'secretAccessKey' must be provided together"))
  ok c

module _ (json : JsonLibrary) where
  open json use {Json, view, parse, parse_error, size}

  abbrev pub value_at : Bytes → Json → Option (View Json)
  value_at key node = Option.map view (find key (members (view node)))

  unfoldable pub read_string : Json → String → Bytes → Bytes
  unfolding string_or members find
  read_string node key target = string_or target (value_at (codes key) node)

  unfoldable pub read_positive_uint : Json → String → ℕ → Result ℕ
  unfolding uint_or members find
  read_positive_uint node key target = uint_or (codes key) target (value_at (codes key) node)

  unfoldable pub read_bool : Json → String → Bool → Result Bool
  unfolding bool_or members find
  read_bool node key target = bool_or (codes key) target (value_at (codes key) node)

  -- `read_file` gives the contents of a path, and none where the stream is not good.
  unfoldable pub parse_json_source : (Bytes → Option Bytes) → Bytes → Result Json
  unfolding sqs_error
  parse_json_source read_file source =
      if is_empty source
      then sqs_error (codes "SQS plugin: empty configuration")
      else elim (parse source) [
        | some inline_json ↦ ok inline_json
        | none ↦ elim (read_file source) [
          | none ↦
              sqs_error
                (codes "SQS plugin: configuration is neither valid JSON nor a readable file")
          | some contents ↦ elim (parse contents) [
            | some j ↦ ok j
            | none ↦ throw (other_std (parse_error contents))
          ]
        ]
      ]

  unfoldable pub has_specific_sqs_keys : Json → Bool
  unfolding contains find
  has_specific_sqs_keys node =
      has "requestQueueUrl"
      || has "replyQueueUrl"
      || has "queueUrl"
      || has "endpointOverride"
      || has "accessKeyId"
      || has "secretAccessKey"
      || has "visibilityTimeoutSeconds"
      || has "waitTimeSeconds"
      || has "messageGroupId"
    where
      has : String → Bool
      has key = contains (codes key) (view node)

  names_sqs : Option (View Json) → Bool
  names_sqs (some (string s)) = find_in (codes "Sqs") s || find_in (codes "sqs") s
  names_sqs _ = false

  unfoldable pub is_flat_sqs_alias : Json → Bool
  unfolding contains find names_sqs find_in
  is_flat_sqs_alias node =
      if not (has "queue" || has "replyQueue")
      then false
      else if has "region" || has "endpointOverride" || has "accessKeyId" || has "messageGroupId"
      then true
      else names_sqs (value_at (codes "name") node)
    where
      has : String → Bool
      has key = contains (codes key) (view node)

  unfoldable pub is_sqs_node : Bool → Json → Bool
  unfolding has_specific_sqs_keys is_flat_sqs_alias
  is_sqs_node is_root node = has_specific_sqs_keys node || is_flat_sqs_alias node

  unfoldable pub find_sqs_node : Json → Option Json
  unfolding find_node is_sqs_node
  find_sqs_node = find_node json (codes "sqs") is_sqs_node false

  first_nonempty : Json → Bytes → String → Bytes
  unfolding read_string
  first_nonempty node target key = if is_empty target then read_string node key target else target

  unfoldable pub read_config : Json → Result SqsConfig
  unfolding first_nonempty
  read_config node = do
    rpc ← read_positive_uint node "rpcTimeoutMs" default_config.rpc_timeout_ms
    poll ← read_positive_uint node "waitTimeSeconds" default_config.wait_time_seconds
    visible ←
        read_positive_uint node "visibilityTimeoutSeconds" default_config.visibility_timeout_seconds
    one_way ← read_bool node "oneWay" default_config.one_way
    verify ← read_bool node "verifySsl" default_config.verify_ssl
    ok (record {
      name = read_string node "name" default_config.name;
      region = read_string node "region" default_config.region;
      endpoint_override = read_string node "endpointOverride" default_config.endpoint_override;
      access_key_id = read_string node "accessKeyId" default_config.access_key_id;
      secret_access_key = read_string node "secretAccessKey" default_config.secret_access_key;
      session_token = read_string node "sessionToken" default_config.session_token;
      request_queue_url =
          first_nonempty node
            (first_nonempty node
              (read_string node "requestQueueUrl" default_config.request_queue_url) "queueUrl")
            "queue";
      reply_queue_url =
          first_nonempty node (read_string node "replyQueueUrl" default_config.reply_queue_url)
            "replyQueue";
      message_group_id = read_string node "messageGroupId" default_config.message_group_id;
      rpc_timeout_ms = rpc;
      wait_time_seconds = poll;
      visibility_timeout_seconds = visible;
      one_way = one_way;
      verify_ssl = verify;
    })

  -- The node that a search gave, read and checked.
  unfoldable pub config_of_node : Option Json → Result SqsConfig
  unfolding sqs_error is_object
  config_of_node none = sqs_error (codes "SQS plugin: configuration does not contain SQS settings")
  config_of_node (some node) =
      if not (is_object (view node))
      then sqs_error (codes "SQS plugin: configuration does not contain SQS settings")
      else read_config node >>= check_config

  unfoldable pub parse_sqs_config_source : (Bytes → Option Bytes) → Bytes → Result SqsConfig
  unfolding config_of_node
  parse_sqs_config_source read_file source = do
    root ← parse_json_source read_file source
    config_of_node (find_sqs_node root)

unfoldable pub validate_client_config : SqsConfig → Result (Unit {0})
validate_client_config c = do
  throw_if (is_empty c.request_queue_url)
      (runtime_error (codes "SQS client: missing required field 'requestQueueUrl'"))
  throw_if (not c.one_way && is_empty c.reply_queue_url)
      (runtime_error (codes "SQS client: missing required field 'replyQueueUrl'"))

unfoldable pub validate_server_config : SqsConfig → Result (Unit {0})
validate_server_config c =
    throw_if (is_empty c.request_queue_url)
      (runtime_error (codes "SQS server: missing required field 'requestQueueUrl'"))
