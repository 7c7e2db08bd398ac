-- ===== src/PubSub/Config/Parsed.antt =====
-- What every configuration that ParsePubSubConfigSource of pubsub/PubSubPlugin/PubSubConfig.cpp
-- returns satisfies.
use graftcode_extensions.Base.{
  ℕ, ◌≤◌, ◌<◌, ◌≡◌, ◌≢◌, refl, Bool, true, false, Option, none, some, [], ◌∷◌, arith, String, Bytes,
  codes, is_empty, Option-cases, Bool-cases, Result-cases, inl, inr, ok, >>=-eq-ok, pop_while, ◌==◌,
}
use graftcode_extensions.Base.Int.{ℤ, pos, negsuc}
use graftcode_extensions.Json.{View, JsonLibrary, is_object}
use graftcode_extensions.PubSub.Config.{
  PubSubConfig, has_byte, checked_host, normalize_emulator_host, trim, without_scheme,
  default_subscription, check_config,
}
use graftcode_extensions.PubSub.Config.Source.{
  positive_uint, integer_value, uint_or, value_at, read_config, config_of_node, parse_json_source,
  find_pubsub_node, parse_pubsub_config_source, read_positive_uint,
}

pub record IsParsed (c : PubSubConfig) : Type 0 where
  pub deadline : (10 ≤ c.ack_deadline_seconds) × (c.ack_deadline_seconds ≤ 600)
  pub batch : (1 ≤ c.max_messages) × (c.max_messages ≤ 100)
  pub timeout : (0 < c.rpc_timeout_ms) × (c.rpc_timeout_ms ≤ 3600000)
  pub no_path : has_byte 47 c.emulator_host ≡ false
  pub no_blank : has_byte 32 c.emulator_host ≡ false
  pub request_pulled : c.request_topic ≢ [] → c.request_subscription ≢ []
  pub reply_pulled : c.reply_topic ≢ [] → c.reply_subscription ≢ []

positive_uint-positive : (key : Bytes) (z : ℤ) {n : ℕ} → positive_uint key z ≡ ok n → 0 < n
unfolding positive_uint
positive_uint-positive key (pos n) h = ground arith
positive_uint-positive key (negsuc n) h = absurd (cc)

uint_or-positive :
    {J : Type 0} (key : Bytes) (target : ℕ) (v : Option (View J)) {n : ℕ}
    → 0 < target
    → uint_or key target v ≡ ok n
    → 0 < n
unfolding uint_or
uint_or-positive key target none t h = ground arith
uint_or-positive key target (some v) t h = elim (Option-cases (integer_value v)) [
  | inl e ↦ absurd (ground arith)
  | inr (z, e) ↦ positive_uint-positive key z (ground arith)
]

-- What NormalizeEmulatorHost leaves, and what it keeps.
record Normalized (c d : PubSubConfig) : Type 0 where
  no_path : has_byte 47 d.emulator_host ≡ false
  no_blank : has_byte 32 d.emulator_host ≡ false
  same_deadline : d.ack_deadline_seconds ≡ c.ack_deadline_seconds
  same_batch : d.max_messages ≡ c.max_messages
  same_timeout : d.rpc_timeout_ms ≡ c.rpc_timeout_ms

checked_host-Normalized :
    (c : PubSubConfig) (https : Bool) (value : Bytes) {d : PubSubConfig}
    → checked_host c https value ≡ ok d
    → Normalized c d
unfolding checked_host
checked_host-Normalized c https value h = ground arith

normalize-cleared :
    (c : PubSubConfig)
    → is_empty (trim c.emulator_host) ≡ true
    → normalize_emulator_host c ≡ ok (record c { emulator_host = [] })
unfolding normalize_emulator_host
normalize-cleared c h = simp h

normalize-checked :
    (c : PubSubConfig)
    → is_empty (trim c.emulator_host) ≡ false
    → normalize_emulator_host c ≡ (
        let r = without_scheme (trim c.emulator_host) in
        checked_host c r.0 (pop_while (λ c. c == 47) r.1))
unfolding normalize_emulator_host
normalize-checked c h = simp h

cleared-Normalized :
    (c d : PubSubConfig) → ok (record c { emulator_host = [] }) ≡ ok d → Normalized c d
unfolding has_byte
cleared-Normalized c d e = ground arith

normalize-Normalized :
    (c : PubSubConfig) {d : PubSubConfig} → normalize_emulator_host c ≡ ok d → Normalized c d
normalize-Normalized c {d} h = elim (Bool-cases (is_empty (trim c.emulator_host))) [
  | inl y ↦ cleared-Normalized c d (rw (normalize-cleared c y) at h)
  | inr n ↦ checked_host-Normalized c _ _ (rw (normalize-checked c n) at h)
]

default_subscription-given :
    (subscription topic : Bytes) → topic ≢ [] → default_subscription subscription topic ≢ []
unfolding default_subscription
default_subscription-given [] [] g = absurd (g refl)
default_subscription-given [] (c ∷ t) g = λ e. cc
default_subscription-given (c ∷ s) t g = λ e. cc

check_parts :
    (c : PubSubConfig) {d : PubSubConfig}
    → check_config c ≡ ok d
    → (10 ≤ c.ack_deadline_seconds)
      × (c.ack_deadline_seconds ≤ 600)
      × (1 ≤ c.max_messages)
      × (c.max_messages ≤ 100)
      × (c.rpc_timeout_ms ≤ 3600000)
      × ((n : PubSubConfig) × (normalize_emulator_host c ≡ ok n)
          × (d ≡ record n {
            request_subscription = default_subscription n.request_subscription n.request_topic;
            reply_subscription = default_subscription n.reply_subscription n.reply_topic;
          }))
unfolding check_config
check_parts c {d} h = elim (Result-cases (normalize_emulator_host c)) [
  | inl (n, e) ↦
      let h' = rw e at h in
      (ground arith, ground arith, ground arith, ground arith, ground arith, (n, e, ground arith))
  | inr (x, e) ↦ let h' = rw e at h in absurd (ground arith)
]

check_config-IsParsed :
    (c : PubSubConfig) {d : PubSubConfig}
    → 0 < c.rpc_timeout_ms
    → check_config c ≡ ok d
    → IsParsed d
check_config-IsParsed c {d} t h =
    let (a, b, x, y, z, (n, e, q)) = check_parts c h in
    let k = normalize-Normalized c e in
    let deadline = k.same_deadline in
    let batch = k.same_batch in
    let timeout = k.same_timeout in
    rw q (record {
      deadline = (omega arith, omega arith);
      batch = (omega arith, omega arith);
      timeout = (omega arith, omega arith);
      no_path = k.no_path;
      no_blank = k.no_blank;
      request_pulled = default_subscription-given n.request_subscription n.request_topic;
      reply_pulled = default_subscription-given n.reply_subscription n.reply_topic;
    })

module _ (json : JsonLibrary) where
  open json use {Json, view}

  read_positive_uint-positive :
      (node : Json) (key : String) (target : ℕ) {n : ℕ}
      → 0 < target
      → read_positive_uint json node key target ≡ ok n
      → 0 < n
  unfolding read_positive_uint
  read_positive_uint-positive node key target t h =
      uint_or-positive (codes key) target (value_at json (codes key) node) t h

  read_config-timeout :
      (node : Json) {c : PubSubConfig} → read_config json node ≡ ok c → 0 < c.rpc_timeout_ms
  unfolding read_config
  read_config-timeout node {c} h =
      ground (arith, read_positive_uint-positive node "rpcTimeoutMs" 30000 {n = c.rpc_timeout_ms})

  config_of_node-IsParsed :
      (found : Option Json) {c : PubSubConfig} → config_of_node json found ≡ ok c → IsParsed c
  unfolding config_of_node
  config_of_node-IsParsed none h = absurd (cc)
  config_of_node-IsParsed (some node) {c} h = elim (Bool-cases (is_object (view node))) [
    | inl y ↦
        let (d, read, checked) = >>=-eq-ok (read_config json node) check_config (rw y at h) in
        check_config-IsParsed d (read_config-timeout node read) checked
    | inr n ↦ absurd (ground arith)
  ]

  -- Whatever the JSON says, a configuration that is returned has numbers in the ranges that the
  -- service accepts, an emulator host with no path and no blank, and a subscription for each topic
  -- that it names.
  pub parse_pubsub_config_source-IsParsed :
      (read_file : Bytes → Option Bytes) (source : Bytes) {c : PubSubConfig}
      → parse_pubsub_config_source json read_file source ≡ ok c
      → IsParsed c
  unfolding parse_pubsub_config_source
  parse_pubsub_config_source-IsParsed read_file source h =
      let (root, _, found) =
        >>=-eq-ok (parse_json_source json read_file source)
          (λ root. config_of_node json (find_pubsub_node json root)) h in
      config_of_node-IsParsed (find_pubsub_node json root) found
