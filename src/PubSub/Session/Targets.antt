-- ===== src/PubSub/Session/Targets.antt =====
-- Where the requests of a session of pubsub/PubSubPlugin/PubSubUtil.cpp go, and with what
-- authorization.
use graftcode_extensions.Base.{
  ℕ, ◌≡◌, ◌≢◌, c_str, true, false, ◌&&◌, List, [], ◌∷◌, ◌++◌, Bytes, codes, is_empty, All,
}
use graftcode_extensions.Json.{JsonLibrary}
use graftcode_extensions.Sqs.Codec.{Span}
use graftcode_extensions.PubSub.Config.{PubSubConfig}
use graftcode_extensions.PubSub.Session.{HttpRequest, PubSubSession, Net}
use graftcode_extensions.PubSub.Session.Token.{TokenValues}
use graftcode_extensions.PubSub.Session.Messages.{
  ensure_topic, ensure_subscription, publish, pull, acknowledge,
}

abbrev json_header : Bytes
json_header = codes "Content-Type: application/json"

-- With no emulator a request goes to the service, over TLS, and carries the configured token. With
-- an emulator it goes to that host, over TLS if the configuration says so, and carries no token. A
-- URL or a header is read up to a NUL.
pub data IsTargeted (c : PubSubConfig) (r : HttpRequest) : Type 0 where
  to_service :
      (path : Bytes)
      → c.emulator_host ≡ []
      → r.url ≡ c_str (codes "https://pubsub.googleapis.com" ++ path)
      → r.headers
        ≡ codes "Content-Type: application/json"
          ∷ c_str (codes "Authorization: Bearer " ++ c.access_token)
          ∷ []
      → IsTargeted c r
  to_emulator :
      (path : Bytes)
      → c.emulator_host ≢ []
      → c.emulator_use_https ≡ false
      → r.url ≡ c_str (codes "http://" ++ c.emulator_host ++ path)
      → r.headers ≡ codes "Content-Type: application/json" ∷ []
      → IsTargeted c r
  to_secure_emulator :
      (path : Bytes)
      → c.emulator_host ≢ []
      → c.emulator_use_https ≡ true
      → r.url ≡ c_str (codes "https://" ++ c.emulator_host ++ path)
      → r.headers ≡ codes "Content-Type: application/json" ∷ []
      → IsTargeted c r

-- The configuration stays, and what is sent more is of that kind.
record Extends (s s' : PubSubSession) : Type 0 where
  same : s'.config ≡ s.config
  targeted : All (IsTargeted s.config) s.sent → All (IsTargeted s.config) s'.sent

-- One operation of a session with its arguments.
pub data SessionOp : Type 0 where
  ensures_topic : Bytes → SessionOp
  ensures_subscription : Bytes → Bytes → SessionOp
  publishes : Bytes → Span → List (Bytes × Bytes) → SessionOp
  pulls : Bytes → ℕ → SessionOp
  acknowledges : Bytes → List Bytes → SessionOp

module _ (json : JsonLibrary) (values : TokenValues json) (net : Net) (to_string : ℕ → Bytes) where
  HasTarget : PubSubSession → Type 0
  HasTarget s = (is_empty s.config.emulator_host && is_empty s.config.access_token) ≡ false

  -- What an operation does to the session.
  unfoldable pub run_op : PubSubSession → SessionOp → PubSubSession
  run_op s (ensures_topic topic) = (ensure_topic json values net to_string topic s).0
  run_op s (ensures_subscription subscription topic) =
      (ensure_subscription json values net to_string subscription topic s).0
  run_op s (publishes topic payload attributes) =
      (publish json values net to_string topic payload attributes s).0
  run_op s (pulls subscription most) = (pull json values net to_string subscription most s).0
  run_op s (acknowledges subscription ids) =
      (acknowledge json values net to_string subscription ids s).0

  unfoldable pub run_ops : PubSubSession → List SessionOp → PubSubSession
  unfolding run_op
  run_ops s [] = s
  run_ops s (op ∷ ops) = run_ops (run_op s op) ops
