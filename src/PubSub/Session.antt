-- ===== src/PubSub/Session.antt =====
-- The HTTP session of pubsub/PubSubPlugin/PubSubUtil.h and PubSubUtil.cpp: the requests that it
-- makes, what it takes for a failure, and the bearer token. libcurl, OpenSSL, the clock and the file
-- system are the parameter `net`; what libcurl answers may depend on all that was sent before.
pub mod Token
pub mod Messages
pub mod Targets
pub mod Reuse
pub mod Urls
use graftcode_extensions.Base.{
  ℕ, Bool, true, false, not, ◌&&◌, ◌||◌, Option, none, some, List, [], ◌∷◌, ◌++◌, Bytes, codes,
  length, is_empty, map, c_str, take, starts_with, ltb, leb, ◌==◌, ◌+◌, if◌then◌else◌, Exception,
  runtime_error, Result, ok, throw,
}
use graftcode_extensions.Base.Int.{ℤ}
use graftcode_extensions.PubSub.Base64.{truncate}
use graftcode_extensions.PubSub.Config.{PubSubConfig, endpoint_base}

-- What a session throws: a PubSubHttpError with its status, or another exception.
pub data Failure : Type 0 where
  http_error : ℕ → Bytes → Failure
  plain : Exception → Failure

pub data Outcome {ℓ} (X : Type ℓ) : Type ℓ where
  failed : Failure → Outcome X
  gave : X → Outcome X

unfoldable pub from_result {ℓ} : {X : Type ℓ} → Result X → Outcome X
from_result (throw e) = failed (plain e)
from_result (ok x) = gave x

-- libcurl's write callback: the new contents and what it returns.
unfoldable pub write_to_string : Bytes → Bytes → Bytes × ℕ
write_to_string output contents =
    if ltb 16777216 (length output + length contents)
    then (output, 0)
    else (output ++ contents, length contents)

pub record HttpRequest : Type 0 where
  pub method : Bytes
  pub url : Bytes
  pub body : Bytes
  pub headers : List Bytes
  pub timeout_ms : ℕ
  pub verify_peer : ℕ
  pub verify_host : ℕ

pub record HttpResult : Type 0 where
  pub status : ℕ
  pub timed_out : Bool
  pub body : Bytes
  pub error : Bytes

-- `sent` lists the requests of this session, the newest first.
pub record PubSubSession : Type 0 where
  pub config : PubSubConfig
  pub cached_token : Bytes
  pub token_expiry : ℤ
  pub sent : List HttpRequest

pub record Net : Type 0 where
  pub respond : List HttpRequest → HttpRequest → HttpResult
  pub epoch_seconds : List HttpRequest → ℕ
  pub read_file : Bytes → Option Bytes
  pub sign_rs256 : Bytes → Bytes → Result Bytes

unfoldable pub new_session : PubSubConfig → PubSubSession
new_session config = record {
  config = config;
  cached_token = [];
  token_expiry = ℤ.pos 0;
  sent = [];
}

unfoldable pub resource_url : PubSubConfig → Bytes → Bytes → Bytes
unfolding endpoint_base
resource_url config collection id =
    endpoint_base config
    ++ (codes "/v1/projects/"
        ++ (config.project_id ++ (codes "/" ++ (collection ++ (codes "/" ++ id)))))

unfoldable pub has_content_type : List Bytes → Bool
unfolding starts_with
has_content_type [] = false
has_content_type (h ∷ headers) =
    if starts_with (codes "Content-Type:") h then true else has_content_type headers

-- The headers, before libcurl reads each up to its NUL.
unfoldable pub header_list : Bytes → List Bytes → List Bytes
unfolding has_content_type
header_list authorization headers =
    (if has_content_type headers then [] else codes "Content-Type: application/json" ∷ [])
    ++ ((if is_empty authorization then [] else authorization ∷ []) ++ headers)

-- libcurl takes the URL and the headers as C strings, the body with its length.
unfoldable pub http_request :
    PubSubConfig → Bytes → Bytes → Bytes → Bytes → List Bytes → ℕ → HttpRequest
unfolding header_list c_str
http_request config authorization method url body headers timeout_ms = record {
  method = method;
  url = c_str url;
  body = body;
  headers = map c_str (header_list authorization headers);
  timeout_ms = timeout_ms;
  verify_peer = if config.verify_ssl then 1 else 0;
  verify_host = if config.verify_ssl then 2 else 0;
}

-- What Request does once the authorization is known.
unfoldable pub perform : Net → PubSubSession → HttpRequest → PubSubSession × HttpResult
perform net s r = (record s { sent = r ∷ s.sent }, net.respond s.sent r)

-- `to_string` gives the decimal digits of a number.
unfoldable pub throw_if_http_failed : (ℕ → Bytes) → Bytes → HttpResult → Outcome (Unit {0})
unfolding truncate
throw_if_http_failed to_string operation result =
    if leb 200 result.status && ltb result.status 300
    then gave tt
    else if result.timed_out
    then failed (http_error 0 (codes "Pub/Sub " ++ (operation ++ codes " timed out")))
    else if result.status == 0
    then failed (
        http_error 0 (
          codes "Pub/Sub "
          ++ (operation
              ++ (codes " failed: "
                  ++ (if is_empty result.error then codes "connection failed" else result.error)))))
    else failed (
        http_error result.status (
          codes "Pub/Sub "
          ++ (operation
              ++ (codes " failed: HTTP "
                  ++ (to_string result.status ++ (codes " " ++ truncate result.body))))))

-- Sequencing: what follows runs in the state that the first part leaves, unless that failed.
abbrev pub then_do {ℓ κ} :
    {X : Type ℓ} {Y : Type κ}
    → PubSubSession × Outcome X
    → (PubSubSession → X → PubSubSession × Outcome Y)
    → PubSubSession × Outcome Y
then_do (s, failed e) next = (s, failed e)
then_do (s, gave x) next = next s x
