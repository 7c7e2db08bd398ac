-- ===== src/Sqs/Aws.antt =====
-- CreateAwsSqsClient of sqs/SqsPlugin/SqsUtil.cpp: what the AWS client is configured with.
use graftcode_extensions.Base.{
  c_str, ℕ, ◌+◌, ◌*◌, ◌%◌, ◌^◌, ◌≤◌, ◌≡◌, ◌⊎◌, Bool, true, false, not, ◌&&◌, Option, none, some,
  arith, Bytes, is_empty, ltb, if◌then◌else◌, Result, ok, ◌>>=◌, >>=-eq-ok,
}
use graftcode_extensions.Sqs.Config.{SqsConfig}
use graftcode_extensions.Sqs.Config.Bounds.{IsBounded}
use graftcode_extensions.Sqs.Codec.{}
use graftcode_extensions.Sqs.Endpoint.{ParsedEndpoint, parse_endpoint_override}

pub record Credentials : Type 0 where
  pub access_key_id : Bytes
  pub secret_access_key : Bytes
  pub session_token : Bytes

-- `scheme_https` and `endpoint` are none where the SDK's defaults stay.
pub record ClientConfiguration : Type 0 where
  pub region : Bytes
  pub verify_ssl : Bool
  pub connect_timeout_ms : ℕ
  pub request_timeout_ms : ℕ
  pub http_request_timeout_ms : ℕ
  pub scheme_https : Option Bool
  pub endpoint : Option Bytes
  pub imds_disabled : Bool
  pub credentials : Option Credentials

abbrev max : ℕ → ℕ → ℕ
max a b = if ltb a b then b else a

-- In 32-bit arithmetic, which wraps.
unfoldable pub poll_timeout_ms : ℕ → ℕ
poll_timeout_ms wait = max 30000 ((wait + 5) % 2 ^ 32 * 1000 % 2 ^ 32)

credentials_of : SqsConfig → Option Credentials
unfolding c_str
credentials_of c =
    if not (is_empty c.access_key_id)
    then some (record {
      access_key_id = c_str c.access_key_id;
      secret_access_key = c_str c.secret_access_key;
      session_token = c_str c.session_token;
    })
    else none

configuration : SqsConfig → ParsedEndpoint → ClientConfiguration
unfolding c_str poll_timeout_ms credentials_of
configuration c e = record {
  region = c_str c.region;
  verify_ssl = if e.overridden && not e.use_https then false else c.verify_ssl;
  connect_timeout_ms = 5000;
  request_timeout_ms = poll_timeout_ms c.wait_time_seconds;
  http_request_timeout_ms = poll_timeout_ms c.wait_time_seconds;
  scheme_https = if e.overridden then some e.use_https else none;
  endpoint = if e.overridden then some (c_str e.authority) else none;
  imds_disabled = e.overridden;
  credentials = credentials_of c;
}

unfoldable pub create_aws_sqs_client : SqsConfig → Result ClientConfiguration
unfolding configuration
create_aws_sqs_client c = do
  endpoint ← parse_endpoint_override c.endpoint_override
  ok (configuration c endpoint)

-- Both transfer timeouts of a client made from a parsed configuration outlast its long poll by at
-- least five seconds, and never wrap; certificates go unchecked only where the configuration says
-- so or the endpoint is plain HTTP.
pub create_aws_sqs_client-timeouts :
    (c : SqsConfig) {client : ClientConfiguration}
    → IsBounded c
    → create_aws_sqs_client c ≡ ok client
    → (c.wait_time_seconds * 1000 + 5000 ≤ client.request_timeout_ms)
      × (client.http_request_timeout_ms ≡ client.request_timeout_ms)
      × ((client.verify_ssl ≡ true) ⊎ ((c.verify_ssl ≡ false) ⊎ (client.scheme_https ≡ some false)))
unfolding create_aws_sqs_client
create_aws_sqs_client-timeouts c {client} b h =
    let (e, _, made) = >>=-eq-ok (parse_endpoint_override c.endpoint_override) _ h in
    (ground arith, ground arith, ground arith)
