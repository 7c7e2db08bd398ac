-- ===== src/PubSub/Session/Token.antt =====
-- How a session of pubsub/PubSubPlugin/PubSubUtil.cpp gets its bearer token: the configured one, the
-- cached one, the service account's, or the metadata server's.
use graftcode_extensions.Base.{
  ℕ, ◌+◌, ◌-◌, Bool, true, false, not, ◌&&◌, ◌||◌, Option, none, some, [], ◌∷◌, ◌++◌, Bytes, codes,
  is_empty, ltb, ◌==◌, if◌then◌else◌, runtime_error, other_std, Result, ok, throw, ◌>>=◌,
}
use mathlib.Core.Option
use graftcode_extensions.Base.Int.{ℤ, pos, negsuc}
use graftcode_extensions.Json.{JsonLibrary}
use graftcode_extensions.Json.Read.{string_at}
use graftcode_extensions.Json.Value.{Value, Fields, text, number, fields, field}
use graftcode_extensions.PubSub.Base64.{base64_url}
use graftcode_extensions.PubSub.Session.{
  plain, Outcome, failed, gave, from_result, PubSubSession, Net, HttpResult, http_request, perform,
  throw_if_http_failed, then_do,
}

-- What the session uses of the JSON library beyond reading: `dump`, and `value(key, default)` for
-- "token_uri" and "expires_in", which throws where the type does not fit.
pub record TokenValues (json : JsonLibrary) : Type 0 where
  pub dump : Value → Bytes
  pub token_uri : JsonLibrary.Json json → Result Bytes
  pub expires_in : JsonLibrary.Json json → Result ℤ

abbrev pub scope : Bytes
scope = codes "https://www.googleapis.com/auth/pubsub"

abbrev pub default_token_uri : Bytes
default_token_uri = codes "https://oauth2.googleapis.com/token"

abbrev pub metadata_token_url : Bytes
metadata_token_url =
    codes
      "http://metadata.google.internal/computeMetadata/v1/instance/service-accounts/default/token"

-- `a + z` and `a < z`.
unfoldable pub plus : ℕ → ℤ → ℤ
plus a (pos n) = pos (a + n)
plus a (negsuc n) = if ltb n a then pos (a - (n + 1)) else negsuc (n - a)

unfoldable pub is_before : ℕ → ℤ → Bool
is_before a (pos n) = ltb a n
is_before a (negsuc n) = false

-- A minute less where more than 90 s are left.
unfoldable pub lifetime : ℤ → ℤ
lifetime (pos n) = if ltb 90 n then pos (n - 60) else pos n
lifetime (negsuc n) = negsuc n

unfoldable pub fetched_token : PubSubSession → Bool → PubSubSession × Outcome Bytes
fetched_token s true = (s, gave s.cached_token)
fetched_token s false = (
  s,
  failed (
      plain (
        runtime_error (
          codes
            "Pub/Sub plugin: no credentials. Set accessToken, credentialsFile, GOOGLE_APPLICATION_CREDENTIALS, or emulatorHost / PUBSUB_EMULATOR_HOST"))),
)

module _ (json : JsonLibrary) (values : TokenValues json) (net : Net) (to_string : ℕ → Bytes) where
  open json use {Json, view, parse, parse_error}
  open values use {dump, token_uri, expires_in}

  unfoldable pub build_service_account_jwt : Bytes → Bytes → Bytes → ℕ → Result Bytes
  build_service_account_jwt client_email private_key_pem uri issued_at =
      if is_empty client_email || is_empty private_key_pem
      then throw (
          runtime_error
            (codes "Pub/Sub plugin: service account is missing client_email or private_key"))
      else (do
        let header = base64_url (codes "{\"alg\":\"RS256\",\"typ\":\"JWT\"}")
        let payload = base64_url (
            dump (
              fields (
                field (codes "iss") (text client_email) (
                  field (codes "scope") (text scope) (
                    field (codes "aud") (text (if is_empty uri then default_token_uri else uri)) (
                      field (codes "iat") (number issued_at)
                        (field (codes "exp") (number (issued_at + 3600)) Fields.end)))))))
        signature ← net.sign_rs256 (header ++ (codes "." ++ payload)) private_key_pem
        ok (header ++ (codes "." ++ payload) ++ (codes "." ++ base64_url signature)))

  -- `ReadFile`, and the parse of its contents.
  unfoldable pub read_credentials : Bytes → Result Json
  read_credentials path = elim (net.read_file path) [
    | none ↦ throw (
        runtime_error
          (codes "Pub/Sub plugin: cannot read credentials file '" ++ (path ++ codes "'")))
    | some contents ↦ elim (parse contents) [
      | none ↦ throw (other_std (parse_error contents))
      | some j ↦ ok j
    ]
  ]

  unfoldable pub account_of : Json → Result (Bytes × Bytes)
  account_of node = elim (string_at json (codes "client_email") node) [
    | none ↦ incomplete
    | some email ↦ elim (string_at json (codes "private_key") node) [
      | none ↦ incomplete
      | some key ↦ ok (email, key)
    ]
  ]
    where
      incomplete : Result (Bytes × Bytes)
      incomplete = throw (
          runtime_error
            (codes "Pub/Sub plugin: credentials file must contain client_email and private_key"))

  -- The token URI and the signed assertion, before anything is sent.
  unfoldable pub assertion : Bytes → ℕ → Result (Bytes × Bytes)
  unfolding read_credentials account_of
  assertion path issued_at = do
    node ← read_credentials path
    account ← account_of node
    uri ← token_uri node
    jwt ← build_service_account_jwt account.0 account.1 uri issued_at
    ok (uri, jwt)

  -- The token of a reply, with its lifetime; none where the reply has no token.
  unfoldable pub token_of : Option Json → Option (Bytes × Json)
  unfolding string_at
  token_of none = none
  token_of (some node) = Option.map (λ t. (t, node)) (string_at json (codes "access_token") node)

  -- The token is stored before `expires_in` is read.
  unfoldable pub keep_token : PubSubSession → ℕ → Bytes × Json → PubSubSession × Outcome Bool
  unfolding lifetime plus
  keep_token s issued_at (token, node) = elim (expires_in node) [
    | ok seconds ↦ (
      record s { cached_token = token; token_expiry = plus issued_at (lifetime seconds) },
      gave true,
    )
    | throw e ↦ (record s { cached_token = token }, failed (plain e))
  ]

  unfoldable pub keep_exchanged :
      PubSubSession → ℕ → Bytes → Option Json → PubSubSession × Outcome Bool
  unfolding token_of keep_token
  keep_exchanged s issued_at body none = (s, failed (plain (other_std (parse_error body))))
  keep_exchanged s issued_at body (some node) = elim (token_of (some node)) [
    | none ↦ (
      s,
      failed (
          plain
            (runtime_error (codes "Pub/Sub plugin: token endpoint did not return access_token"))),
    )
    | some t ↦ keep_token s issued_at t
  ]

  unfoldable pub exchange_token :
      PubSubSession → ℕ → Outcome (Bytes × Bytes) → PubSubSession × Outcome Bool
  unfolding keep_exchanged
  exchange_token s issued_at (failed e) = (s, failed e)
  exchange_token s issued_at (gave (uri, jwt)) =
      let r = perform net s (
        http_request s.config [] (codes "POST") uri
          (codes "grant_type=urn%3Aietf%3Aparams%3Aoauth%3Agrant-type%3Ajwt-bearer&assertion="
            ++ jwt)
          (codes "Content-Type: application/x-www-form-urlencoded" ∷ []) 15000) in
      then_do (r.0, throw_if_http_failed to_string (codes "token exchange") r.1)
        (λ s' _. keep_exchanged s' issued_at r.1.body (parse r.1.body))

  unfoldable pub refresh_from_service_account : PubSubSession → PubSubSession × Outcome Bool
  unfolding exchange_token
  refresh_from_service_account s =
      let issued_at = net.epoch_seconds s.sent in
      exchange_token s issued_at (from_result (assertion s.config.credentials_file issued_at))

  unfoldable pub keep_metadata :
      PubSubSession → Option (Bytes × Json) → PubSubSession × Outcome Bool
  unfolding keep_token
  keep_metadata s none = (s, gave false)
  keep_metadata s (some t) = keep_token s (net.epoch_seconds s.sent) t

  unfoldable pub try_metadata_token : PubSubSession → PubSubSession × Outcome Bool
  unfolding keep_metadata token_of
  try_metadata_token s =
      let r = perform net s (
        http_request s.config [] (codes "GET") metadata_token_url []
          (codes "Metadata-Flavor: Google" ∷ []) 2000) in
      if r.1.status == 200 then keep_metadata r.0 (token_of (parse r.1.body)) else (r.0, gave false)

  unfoldable pub bearer_token : PubSubSession → PubSubSession × Outcome Bytes
  unfolding is_before
  bearer_token s =
      if not (is_empty s.config.emulator_host)
      then (s, gave [])
      else if not (is_empty s.config.access_token)
      then (s, gave s.config.access_token)
      else if not (is_empty s.cached_token) && is_before (net.epoch_seconds s.sent) s.token_expiry
      then (s, gave s.cached_token)
      else if not (is_empty s.config.credentials_file)
      then then_do (refresh_from_service_account s) fetched_token
      else then_do (try_metadata_token s) fetched_token

  -- Request with `authenticate` as the source passes it: with no emulator.
  unfoldable pub send_authorized :
      PubSubSession → Bytes → Bytes → Bytes → ℕ → PubSubSession × Outcome HttpResult
  send_authorized s method url body timeout_ms =
      if is_empty s.config.emulator_host
      then then_do (bearer_token s) (λ s' token.
        let r = perform net s' (
          http_request s'.config (codes "Authorization: Bearer " ++ token) method url body []
            timeout_ms) in
        (r.0, gave r.1))
      else let r = perform net s (http_request s.config [] method url body [] timeout_ms) in
        (r.0, gave r.1)
