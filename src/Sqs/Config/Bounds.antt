-- ===== src/Sqs/Config/Bounds.antt =====
-- What every configuration that ParseSqsConfigSource of sqs/SqsPlugin/SqsConfig.cpp returns
-- satisfies.
use graftcode_extensions.Base.{
  ℕ, ◌≤◌, ◌<◌, ◌^◌, ◌≡◌, ◌≢◌, ◌↔◌, false, not, Option, none, some, [], ◌∷◌, arith, String, Bytes,
  codes, length, is_empty, differ, Option-cases, Bool-cases, inl, inr, ok, >>=-eq-ok,
}
use graftcode_extensions.Base.Int.{ℤ, pos, negsuc}
use graftcode_extensions.Json.{View, JsonLibrary, is_object}
use graftcode_extensions.Sqs.Config.{
  SqsConfig, positive_uint, uint_or, integer_value, check_config, value_at, read_positive_uint,
  read_config, config_of_node, parse_json_source, find_sqs_node, parse_sqs_config_source,
}

abbrev IsUint : ℕ → Type 0
IsUint n = (0 < n) × (n < 2 ^ 32)

pub record IsBounded (c : SqsConfig) : Type 0 where
  pub timeout : (0 < c.rpc_timeout_ms) × (c.rpc_timeout_ms < 2 ^ 32)
  pub poll : (0 < c.wait_time_seconds) × (c.wait_time_seconds ≤ 20)
  pub visible : (0 < c.visibility_timeout_seconds) × (c.visibility_timeout_seconds ≤ 43200)
  pub region_given : c.region ≢ []
  pub group : length c.message_group_id ≤ 128
  pub keys_paired : (c.access_key_id ≡ []) ↔ (c.secret_access_key ≡ [])

positive_uint-IsUint : (key : Bytes) (z : ℤ) {n : ℕ} → positive_uint key z ≡ ok n → IsUint n
unfolding positive_uint
positive_uint-IsUint key (pos n) h = ground arith
positive_uint-IsUint key (negsuc n) h = absurd (cc)

uint_or-IsUint :
    {J : Type 0} (key : Bytes) (target : ℕ) (v : Option (View J)) {n : ℕ}
    → IsUint target
    → uint_or key target v ≡ ok n
    → IsUint n
unfolding uint_or
uint_or-IsUint key target none t h = ground arith
uint_or-IsUint key target (some v) t h = elim (Option-cases (integer_value v)) [
  | inl e ↦ absurd (ground arith)
  | inr (z, e) ↦ positive_uint-IsUint key z (ground arith)
]

record IsRead (c : SqsConfig) : Type 0 where
  rpc : IsUint c.rpc_timeout_ms
  poll : IsUint c.wait_time_seconds
  visible : IsUint c.visibility_timeout_seconds

paired_keys :
    (a b : Bytes) → differ (not (is_empty a)) (not (is_empty b)) ≡ false → (a ≡ []) ↔ (b ≡ [])
paired_keys [] [] h = ((λ e. e), λ e. e)
paired_keys [] (c ∷ b) h = absurd (cc)
paired_keys (c ∷ a) [] h = absurd (cc)
paired_keys (c ∷ a) (d ∷ b) h = ((λ e. cc), λ e. cc)

record Checked (c d : SqsConfig) : Type 0 where
  same : c ≡ d
  poll : c.wait_time_seconds ≤ 20
  visible : c.visibility_timeout_seconds ≤ 43200
  region_given : c.region ≢ []
  group : length c.message_group_id ≤ 128
  paired : differ (not (is_empty c.access_key_id)) (not (is_empty c.secret_access_key)) ≡ false

check_config-Checked : (c : SqsConfig) {d : SqsConfig} → check_config c ≡ ok d → Checked c d
unfolding check_config
check_config-Checked c {d} h = ground arith

IsBounded-Checked : (c d : SqsConfig) → IsRead c → Checked c d → IsBounded c
IsBounded-Checked c d r k = record {
  timeout = r.rpc;
  poll = (r.poll.0, k.poll);
  visible = (r.visible.0, k.visible);
  region_given = k.region_given;
  group = k.group;
  keys_paired = paired_keys c.access_key_id c.secret_access_key k.paired;
}

module _ (json : JsonLibrary) where
  open json use {Json, view}

  read_positive_uint-IsUint :
      (node : Json) (key : String) (target : ℕ) {n : ℕ}
      → IsUint target
      → read_positive_uint json node key target ≡ ok n
      → IsUint n
  unfolding read_positive_uint
  read_positive_uint-IsUint node key target t h =
      uint_or-IsUint (codes key) target (value_at json (codes key) node) t h

  read_config-IsRead : (node : Json) {c : SqsConfig} → read_config json node ≡ ok c → IsRead c
  unfolding read_config
  read_config-IsRead node {c} h = ground (
    arith,
    read_positive_uint-IsUint node "rpcTimeoutMs" 30000 {n = c.rpc_timeout_ms},
    read_positive_uint-IsUint node "waitTimeSeconds" 1 {n = c.wait_time_seconds},
    read_positive_uint-IsUint node "visibilityTimeoutSeconds" 30 {n = c.visibility_timeout_seconds},
  )

  config_of_node-IsBounded :
      (found : Option Json) {c : SqsConfig} → config_of_node json found ≡ ok c → IsBounded c
  unfolding config_of_node
  config_of_node-IsBounded none h = absurd (cc)
  config_of_node-IsBounded (some node) {c} h = elim (Bool-cases (is_object (view node))) [
    | inl y ↦
        let (d, read, checked) = >>=-eq-ok (read_config json node) check_config (rw y at h) in
        let k = check_config-Checked d checked in
        rw (← k.same) (IsBounded-Checked d c (read_config-IsRead node read) k)
    | inr n ↦ absurd (ground arith)
  ]

  -- Whatever the JSON says, a configuration that is returned has timeouts that a server accepts and
  -- that fit 32 bits, a region, a group id of at most 128 bytes, and both keys or neither.
  pub parse_sqs_config_source-IsBounded :
      (read_file : Bytes → Option Bytes) (source : Bytes) {c : SqsConfig}
      → parse_sqs_config_source json read_file source ≡ ok c
      → IsBounded c
  unfolding parse_sqs_config_source
  parse_sqs_config_source-IsBounded read_file source h =
      let (root, _, found) =
        >>=-eq-ok (parse_json_source json read_file source)
          (λ root. config_of_node json (find_sqs_node json root)) h in
      config_of_node-IsBounded (find_sqs_node json root) found
