-- ===== src/PubSub/Config.antt =====
-- pubsub/PubSubPlugin/PubSubConfig.h and PubSubConfig.cpp: the settings, their normalisation, the
-- environment, and the checks of the client and of the server.
pub mod Source
pub mod Ready
pub mod Parsed
use graftcode_extensions.Base.{
  ℕ, ◌-◌, ◌^◌, Bool, true, false, not, ◌&&◌, ◌||◌, Option, none, some, [], ◌∷◌, ◌++◌, String, Bytes,
  codes, length, is_empty, drop, find, find_in, starts_with, pop_while, skip_while, ltb, leb, ◌==◌,
  if◌then◌else◌, Exception, runtime_error, other_std, Result, ok, throw, ◌>>=◌, ◌>>◌, throw_if,
}

pub record PubSubConfig : Type 0 where
  pub name : Bytes
  pub project_id : Bytes
  pub request_topic : Bytes
  pub request_subscription : Bytes
  pub reply_topic : Bytes
  pub reply_subscription : Bytes
  pub emulator_host : Bytes
  pub credentials_file : Bytes
  pub access_token : Bytes
  pub rpc_timeout_ms : ℕ
  pub ack_deadline_seconds : ℕ
  pub max_messages : ℕ
  pub one_way : Bool
  pub auto_create : Bool
  pub auto_create_specified : Bool
  pub verify_ssl : Bool
  pub emulator_use_https : Bool

unfoldable pub pubsub_error {ℓ} : {A : Type ℓ} → Bytes → Result A
pubsub_error message = throw (runtime_error message)

-- `isspace`, `isdigit`, `isalpha` and `isalnum` of the C locale.
abbrev pub is_space : ℕ → Bool
is_space c = c == 32 || (leb 9 c && leb c 13)

abbrev pub is_digit : ℕ → Bool
is_digit c = leb 48 c && leb c 57

abbrev pub is_alpha : ℕ → Bool
is_alpha c = (leb 65 c && leb c 90) || (leb 97 c && leb c 122)

abbrev pub is_alnum : ℕ → Bool
is_alnum c = is_digit c || is_alpha c

unfoldable pub trim : Bytes → Bytes
unfolding pop_while skip_while
trim value = skip_while is_space (pop_while is_space value)

-- A loop that returns false at the first byte that does not pass.
unfoldable pub every : (ℕ → Bool) → Bytes → Bool
every test [] = true
every test (c ∷ s) = if test c then every test s else false

unfoldable pub has_byte : ℕ → Bytes → Bool
has_byte b [] = false
has_byte b (c ∷ s) = c == b || has_byte b s

-- '-' and '_'.
abbrev pub is_project_byte : ℕ → Bool
is_project_byte c = is_alnum c || c == 45 || c == 95

-- '-', '_' and '.'.
abbrev pub is_resource_byte : ℕ → Bool
is_resource_byte c = is_alnum c || c == 45 || c == 95 || c == 46

unfoldable pub is_valid_project_id : Bytes → Bool
unfolding every
is_valid_project_id value =
    if is_empty value || ltb 128 (length value) then false else every is_project_byte value

unfoldable pub front_is_alpha : Bytes → Bool
front_is_alpha [] = false
front_is_alpha (c ∷ s) = is_alpha c

unfoldable pub is_valid_resource_id : Bytes → Bool
unfolding every front_is_alpha
is_valid_resource_id value =
    if ltb (length value) 3 || ltb 255 (length value)
    then false
    else if not (front_is_alpha value)
    then false
    else every is_resource_byte value

unfoldable pub endpoint_base : PubSubConfig → Bytes
endpoint_base config =
    if is_empty config.emulator_host
    then codes "https://pubsub.googleapis.com"
    else (if config.emulator_use_https then codes "https://" else codes "http://")
      ++ config.emulator_host

-- Whether the scheme was https, and what stands behind the scheme.
unfoldable pub without_scheme : Bytes → Bool × Bytes
unfolding starts_with
without_scheme value =
    if starts_with (codes "https://") value
    then (true, drop 8 value)
    else if starts_with (codes "http://") value
    then (false, drop 7 value)
    else (false, value)

unfoldable pub checked_host : PubSubConfig → Bool → Bytes → Result PubSubConfig
unfolding pubsub_error has_byte
checked_host config https value =
    if is_empty value || has_byte 47 value || has_byte 32 value
    then pubsub_error (codes "Pub/Sub plugin: 'emulatorHost' must be host or host:port")
    else ok (record config { emulator_use_https = https; emulator_host = value })

unfoldable pub normalize_emulator_host : PubSubConfig → Result PubSubConfig
unfolding trim without_scheme checked_host pop_while
normalize_emulator_host config =
    let value = trim config.emulator_host in
    let r = without_scheme value in
    if is_empty value
    then ok (record config { emulator_host = [] })
    else checked_host config r.0 (pop_while (λ c. c == 47) r.1)

unfoldable pub default_subscription : Bytes → Bytes → Bytes
default_subscription subscription topic =
    if not (is_empty subscription) || is_empty topic then subscription else topic ++ codes "-sub"

-- The checks behind the last reads of ParsePubSubConfigSource.
unfoldable pub check_config : PubSubConfig → Result PubSubConfig
unfolding pubsub_error default_subscription
check_config c = do
  throw_if (ltb c.ack_deadline_seconds 10 || ltb 600 c.ack_deadline_seconds)
      (runtime_error (codes "Pub/Sub plugin: 'ackDeadlineSeconds' must be between 10 and 600"))
  throw_if (ltb c.max_messages 1 || ltb 100 c.max_messages)
      (runtime_error (codes "Pub/Sub plugin: 'maxMessages' must be between 1 and 100"))
  throw_if (ltb 3600000 c.rpc_timeout_ms)
      (runtime_error (codes "Pub/Sub plugin: 'rpcTimeoutMs' cannot exceed 3600000"))
  normalized ← normalize_emulator_host c
  ok (record normalized {
    request_subscription =
        default_subscription normalized.request_subscription normalized.request_topic;
    reply_subscription = default_subscription normalized.reply_subscription normalized.reply_topic;
  })

-- `getenv` of each variable that the plugin reads.
pub record Environment : Type 0 where
  pub emulator_variable : Option Bytes
  pub token_variable : Option Bytes
  pub credentials_variable : Option Bytes

unfoldable pub or_variable : Bytes → Option Bytes → Bytes
or_variable value none = value
or_variable value (some v) = if is_empty value then v else value

unfoldable pub apply_emulator_variable : PubSubConfig → Option Bytes → Result PubSubConfig
apply_emulator_variable config none = ok config
apply_emulator_variable config (some host) =
    if is_empty config.emulator_host
    then normalize_emulator_host (record config { emulator_host = host })
    else ok config

unfoldable pub apply_runtime_environment : Environment → PubSubConfig → Result PubSubConfig
unfolding apply_emulator_variable or_variable
apply_runtime_environment env config = do
  c ← apply_emulator_variable config env.emulator_variable
  ok (record c {
    access_token = or_variable c.access_token env.token_variable;
    credentials_file = or_variable c.credentials_file env.credentials_variable;
    auto_create =
        if not c.auto_create_specified then not (is_empty c.emulator_host) else c.auto_create;
  })

unfoldable pub validate_common : String → PubSubConfig → Result (Unit {0})
unfolding has_byte is_valid_project_id
validate_common role c = do
  throw_if (is_empty c.project_id) (refuse "missing required field 'projectId'")
  throw_if (not (is_valid_project_id c.project_id))
      (refuse "'projectId' must be 1-128 letters, digits, '-' or '_'")
  throw_if (ltb c.ack_deadline_seconds 10 || ltb 600 c.ack_deadline_seconds)
      (refuse "'ackDeadlineSeconds' must be between 10 and 600")
  throw_if (ltb c.max_messages 1 || ltb 100 c.max_messages)
      (refuse "'maxMessages' must be between 1 and 100")
  throw_if (c.rpc_timeout_ms == 0 || ltb 3600000 c.rpc_timeout_ms)
      (refuse "'rpcTimeoutMs' must be between 1 and 3600000")
  throw_if
      (not (is_empty c.emulator_host)
        && (has_byte 47 c.emulator_host || has_byte 32 c.emulator_host))
      (refuse "'emulatorHost' must be host or host:port")
  where
    refuse : String → Exception
    refuse text = runtime_error (codes "Pub/Sub " ++ (codes role ++ (codes ": " ++ codes text)))

unfoldable pub validate_resource : Bytes → String → String → Bool → Result (Unit {0})
unfolding is_valid_resource_id
validate_resource value role field required =
    if is_empty value
    then throw_if required
        (refuse (codes ": missing required field '" ++ (codes field ++ codes "'")))
    else throw_if (not (is_valid_resource_id value)) (
        refuse (
          codes ": '"
          ++ (codes field
              ++ codes
                  "' must be 3-255 characters, start with a letter, and contain only letters, digits, '-', '_' or '.'")))
  where
    refuse : Bytes → Exception
    refuse text = runtime_error (codes "Pub/Sub " ++ (codes role ++ text))

unfoldable pub validate_client_config : PubSubConfig → Result (Unit {0})
unfolding validate_common validate_resource
validate_client_config c = do
  validate_common "client" c
  validate_resource c.request_topic "client" "requestTopic" true
  if c.one_way then ok tt else (do
    validate_resource c.reply_topic "client" "replyTopic" true
    validate_resource c.reply_subscription "client" "replySubscription" true)

unfoldable pub validate_server_config : PubSubConfig → Result (Unit {0})
unfolding validate_common validate_resource
validate_server_config c = do
  validate_common "server" c
  validate_resource c.request_topic "server" "requestTopic" true
  validate_resource c.request_subscription "server" "requestSubscription" true
