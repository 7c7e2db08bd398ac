-- ===== src/PubSub/Session/Reuse.antt =====
-- How a session of pubsub/PubSubPlugin/PubSubUtil.cpp fetches a bearer token from the metadata server,
-- and how long it uses it again.
use graftcode_extensions.Base.{
  ℕ, ◌+◌, ◌-◌, ◌<◌, ◌≤◌, ◌≡◌, ◌≢◌, refl, ap, ◌∙◌, Bool, true, false, not, ◌&&◌, some, [], ◌∷◌,
  arith, Bytes, codes, is_empty, ltb, ok, Bool-cases, inl, inr,
}
use graftcode_extensions.Base.Int.{pos}
use graftcode_extensions.Json.{JsonLibrary}
use graftcode_extensions.Json.Read.{string_at}
use graftcode_extensions.PubSub.Config.{PubSubConfig}
use graftcode_extensions.PubSub.Session.{
  Outcome, failed, gave, HttpRequest, http_request, PubSubSession, Net, perform, then_do,
}
use graftcode_extensions.PubSub.Session.Token.{
  TokenValues, metadata_token_url, plus, is_before, lifetime, token_of, keep_token, keep_metadata,
  try_metadata_token, fetched_token, bearer_token,
}

-- The request for a token of the metadata server.
abbrev pub metadata_request : PubSubConfig → HttpRequest
metadata_request config =
    http_request config [] (codes "GET") metadata_token_url []
      (codes "Metadata-Flavor: Google" ∷ []) 2000

-- The session that has fetched a token: it keeps the token till the second.
abbrev pub fetched : PubSubSession → Bytes → ℕ → PubSubSession
fetched s token until = record s {
  sent = metadata_request s.config ∷ s.sent;
  cached_token = token;
  token_expiry = pos until;
}

-- A session that has to ask the metadata server.
pub record AsksMetadata (s : PubSubSession) : Type 0 where
  pub no_emulator : s.config.emulator_host ≡ []
  pub no_token : s.config.access_token ≡ []
  pub no_file : s.config.credentials_file ≡ []

module _ (json : JsonLibrary) (values : TokenValues json) (to_string : ℕ → Bytes) where
  open json use {Json, parse}
  open values use {expires_in}

  -- What the metadata server answers: a token that is good for so many seconds.
  pub record Grants (net : Net) (s : PubSubSession) (token : Bytes) (seconds : ℕ) : Type 0 where
    pub node : Json
    pub accepted : (net.respond s.sent (metadata_request s.config)).status ≡ 200
    pub parsed : parse (net.respond s.sent (metadata_request s.config)).body ≡ some node
    pub has_token : string_at json (codes "access_token") node ≡ some token
    pub has_lifetime : expires_in node ≡ ok (pos seconds)

  lifetime_lem :
      (seconds now : ℕ)
      → 90 < seconds
      → plus now (lifetime (pos seconds)) ≡ pos (now + (seconds - 60))
  unfolding plus lifetime
  lifetime_lem seconds now h = ground arith

  is_before_pos : (n u : ℕ) → is_before n (pos u) ≡ ltb n u
  unfolding is_before
  is_before_pos n u = refl

  module _ (net : Net) where
    keep_token_lem :
        (s : PubSubSession) (now seconds : ℕ) (token : Bytes) (node : Json)
        → expires_in node ≡ ok (pos seconds)
        → 90 < seconds
        → keep_token json values net to_string s now (token, node) ≡ (
          record s { cached_token = token; token_expiry = pos (now + (seconds - 60)) },
          gave true,
        )
    unfolding keep_token
    keep_token_lem s now seconds token node e h =
        rw (keep_token, e)
          (ap (λ z. (record s { cached_token = token; token_expiry = z }, gave true))
            (lifetime_lem seconds now h))

    token_of_lem :
        (node : Json) (token : Bytes)
        → string_at json (codes "access_token") node ≡ some token
        → token_of json values net to_string (some node) ≡ some (token, node)
    unfolding token_of
    token_of_lem node token e = simp e

    try_lem :
        (s : PubSubSession) (token : Bytes) (seconds : ℕ)
        → Grants net s token seconds
        → 90 < seconds
        → try_metadata_token json values net to_string s ≡ (
          fetched s token (net.epoch_seconds (metadata_request s.config ∷ s.sent) + (seconds - 60)),
          gave true,
        )
    unfolding try_metadata_token perform keep_metadata
    try_lem s token seconds g h = simp (
      g.accepted,
      g.parsed,
      token_of_lem g.node token g.has_token,
      keep_token_lem (record s { sent = metadata_request s.config ∷ s.sent })
          (net.epoch_seconds (metadata_request s.config ∷ s.sent)) seconds token g.node
          g.has_lifetime h,
    )

    asks_lem :
        (s : PubSubSession)
        → AsksMetadata s
        → (not (is_empty s.cached_token) && is_before (net.epoch_seconds s.sent) s.token_expiry)
          ≡ false
        → bearer_token json values net to_string s
          ≡ then_do (try_metadata_token json values net to_string s) fetched_token
    unfolding bearer_token
    asks_lem s a f = simp (a.no_emulator, a.no_token, f, a.no_file)

    cached_lem :
        (s : PubSubSession)
        → AsksMetadata s
        → (not (is_empty s.cached_token) && is_before (net.epoch_seconds s.sent) s.token_expiry)
          ≡ true
        → bearer_token json values net to_string s ≡ (s, gave s.cached_token)
    unfolding bearer_token
    cached_lem s a f = simp (a.no_emulator, a.no_token, f)

    tried_sent :
        (s : PubSubSession)
        → (try_metadata_token json values net to_string s).0.sent
          ≡ metadata_request s.config ∷ s.sent
    unfolding try_metadata_token perform keep_metadata keep_token
    tried_sent s = ground arith

    fetched_sent : (r : PubSubSession × Outcome Bool) → (then_do r fetched_token).0.sent ≡ r.0.sent
    unfolding fetched_token
    fetched_sent (s, failed e) = refl
    fetched_sent (s, gave true) = refl
    fetched_sent (s, gave false) = refl

  -- What a later call does with a token that was fetched.
  pub data Again (later : Net) (s : PubSubSession) (token : Bytes) (until : ℕ) : Type 0 where
    same_token :
        later.epoch_seconds s.sent < until
        → bearer_token json values later to_string s ≡ (s, gave token)
        → Again later s token until
    asks_again :
        until ≤ later.epoch_seconds s.sent
        → (bearer_token json values later to_string s).0.sent ≡ metadata_request s.config ∷ s.sent
        → Again later s token until

  full : (t : Bytes) → t ≢ [] → is_empty t ≡ false
  full [] n = absurd (n refl)
  full (c ∷ t) n = refl

  fetched-Again :
      (later : Net) (s : PubSubSession) (token : Bytes) (until : ℕ)
      → AsksMetadata s
      → token ≢ []
      → Again later (fetched s token until) token until
  fetched-Again later s token until a n =
      let s' = fetched s token until in
      let asks : AsksMetadata s' = record {
        no_emulator = a.no_emulator;
        no_token = a.no_token;
        no_file = a.no_file;
      } in
      let keeps = full token n in
      let clock = is_before_pos (later.epoch_seconds s'.sent) until in
      elim (Bool-cases (ltb (later.epoch_seconds s'.sent) until)) [
        | inl y ↦
            same_token (ground arith) (cached_lem later s' asks (ground (arith, keeps, clock)))
        | inr x ↦ asks_again (ground arith) (
            ap (λ (r : PubSubSession × Outcome Bytes). r.0.sent)
              (asks_lem later s' asks (ground (arith, keeps, clock)))
            ∙ fetched_sent later (try_metadata_token json values later to_string s')
            ∙ tried_sent later s')
      ]

  -- A session with no emulator, no configured token and no credentials file asks the metadata server
  -- when it has no token or its token has expired. If the server grants a token for more than 90
  -- seconds, the session gives that token, having sent just that one request, and keeps it until a
  -- minute before it expires: a later call before that second gives the same token and sends nothing,
  -- and one at or after it asks the server again.
  pub metadata_token-reused :
      (net later : Net) (s : PubSubSession) (token : Bytes) (seconds : ℕ)
      → AsksMetadata s
      → (not (is_empty s.cached_token) && is_before (net.epoch_seconds s.sent) s.token_expiry)
        ≡ false
      → Grants net s token seconds
      → 90 < seconds
      → token ≢ []
      → let until = net.epoch_seconds (metadata_request s.config ∷ s.sent) + (seconds - 60) in
        (bearer_token json values net to_string s ≡ (fetched s token until, gave token))
        × Again later (fetched s token until) token until
  metadata_token-reused net later s token seconds a f g h n = (
    asks_lem net s a f
        ∙ ap (λ (r : PubSubSession × Outcome Bool). then_do r fetched_token)
            (try_lem net s token seconds g h)
        ∙ unfold fetched_token in refl,
    fetched-Again later s token _ a n,
  )
