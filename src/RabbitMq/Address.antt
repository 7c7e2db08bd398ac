-- ===== src/RabbitMq/Address.antt =====
-- The settings of rabbitmq/RabbitmqPlugin/RabbitMqServer.cpp, how they are read, and the address that
-- they make.
pub mod Segments
use graftcode_extensions.Base.{
  ℕ, ◌/◌, ◌%◌, ◌+◌, ◌-◌, ◌^◌, Bool, true, false, not, ◌&&◌, ◌||◌, Option, none, some, [], ◌∷◌, ◌++◌,
  String, Bytes, codes, is_empty, bytes_eq, ltb, leb, ◌==◌, if◌then◌else◌, runtime_error, other_std,
  Result, ok, throw, ◌>>=◌, ◌>>◌, throw_if,
}
use graftcode_extensions.Base.Int.{ℤ, pos, negsuc}
use graftcode_extensions.Json.{JsonLibrary, is_object}
use graftcode_extensions.Json.Read.{string_at, integer_at, value_or}
use graftcode_extensions.RabbitMq.Relaxed.{normalize_relaxed_json}

pub record RabbitMqServerConfig : Type 0 where
  pub name : Bytes
  pub host : Bytes
  pub port : ℕ
  pub queue : Bytes
  pub user : Bytes
  pub password : Bytes
  pub vhost : Bytes
  pub rpc_timeout_ms : ℕ

abbrev pub is_safe : ℕ → Bool
is_safe c =
    (leb b'a' c && leb c b'z')
    || (leb b'A' c && leb c b'Z')
    || (leb b'0' c && leb c b'9')
    || c == b'-'
    || c == b'_'
    || c == b'.'
    || c == b'~'

-- `kHex[n]`, for n below 16.
abbrev pub hex_digit : ℕ → ℕ
hex_digit n = if ltb n 10 then b'0' + n else b'A' + (n - 10)

unfoldable pub encode_uri_segment : Bytes → Bytes
encode_uri_segment [] = []
encode_uri_segment (c ∷ value) =
    let rest = encode_uri_segment value in
    if is_safe c then c ∷ rest else b'%' ∷ hex_digit (c / 16 % 16) ∷ hex_digit (c % 16) ∷ rest

unfoldable pub without_slash : Bytes → Bytes
without_slash [] = []
without_slash (c ∷ rest) = if c == b'/' then rest else c ∷ rest

unfoldable pub encoded_vhost : Bytes → Bytes
unfolding encode_uri_segment without_slash bytes_eq
encoded_vhost vhost =
    if is_empty vhost || bytes_eq vhost (codes "/")
    then codes "%2F"
    else encode_uri_segment (without_slash vhost)

-- `to_string` gives the decimal digits of a number.
unfoldable pub build_amqp_address : (ℕ → Bytes) → RabbitMqServerConfig → Bytes
unfolding encoded_vhost
build_amqp_address to_string config =
    codes "amqp://"
    ++ (encode_uri_segment config.user
        ++ (codes ":"
            ++ (encode_uri_segment config.password
                ++ (codes "@"
                    ++ (config.host
                        ++ (codes ":"
                            ++ (to_string config.port
                                ++ (codes "/" ++ encoded_vhost config.vhost))))))))

-- A number in the range; none of a member that is absent or no integer, which is passed over.
unfoldable pub checked_number : ℕ → Bytes → Option ℤ → Result ℕ
checked_number limit message none = ok 0
checked_number limit message (some (negsuc _)) = throw (runtime_error message)
checked_number limit message (some (pos n)) =
    if leb n 0 || leb limit n then throw (runtime_error message) else ok n

module _ (json : JsonLibrary) where
  open json use {Json, view, parse, parse_error}

  get_optional_string : Json → String → Bytes → Bytes
  unfolding value_or string_at
  get_optional_string node key fallback = value_or fallback (string_at json (codes key) node)

  unfoldable pub read_server_config : Json → Result RabbitMqServerConfig
  unfolding get_optional_string checked_number is_object
  read_server_config parsed = do
    throw_if (not (is_object (view parsed)))
        (runtime_error (codes "RabbitMQ consumer: configuration must be a JSON object"))
    port ←
        checked_number (2 ^ 16) (codes "RabbitMQ consumer: invalid port in configuration")
          (integer_at json (codes "port") parsed)
    timeout ←
        checked_number (2 ^ 32) (codes "RabbitMQ consumer: invalid rpcTimeoutMs in configuration")
          (integer_at json (codes "rpcTimeoutMs") parsed)
    throw_if (is_empty (get_optional_string parsed "queue" []))
        (runtime_error (codes "RabbitMQ consumer: missing required field 'queue'"))
    throw_if (is_empty (get_optional_string parsed "user" []))
        (runtime_error (codes "RabbitMQ consumer: missing required field 'user'"))
    ok (record {
      name = get_optional_string parsed "name" [];
      host = get_optional_string parsed "host" [];
      port = port;
      queue = get_optional_string parsed "queue" [];
      user = get_optional_string parsed "user" [];
      password = get_optional_string parsed "password" [];
      vhost = get_optional_string parsed "vhost" [];
      rpc_timeout_ms = timeout;
    })

  unfoldable pub parse_or_throw : Bytes → Option Json → Result Json
  parse_or_throw source none = throw (other_std (parse_error source))
  parse_or_throw source (some j) = ok j

  -- The configuration that takes the place of the current one, unless this throws.
  unfoldable pub apply_config_from_json : Bytes → Result RabbitMqServerConfig
  unfolding parse_or_throw read_server_config
  apply_config_from_json source =
      if is_empty source
      then throw (runtime_error (codes "RabbitMQ consumer: empty configuration JSON"))
      else (do
        parsed ←
            parse_or_throw (normalize_relaxed_json source) (parse (normalize_relaxed_json source))
        read_server_config parsed)
