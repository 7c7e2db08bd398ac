-- ===== src/PubSub/Config/Ready.antt =====
-- What holds of the settings of pubsub/PubSubPlugin/PubSubConfig.cpp once they are read and checked.
use graftcode_extensions.Base.{
  ℕ, ◌≤◌, ◌<◌, ◌≡◌, ◌≢◌, ◌↔◌, refl, Bool, true, false, not, ◌&&◌, ◌||◌, [], ◌∷◌, arith, String,
  Bytes, length, is_empty, All, ok, leb, ◌==◌, Bool-cases, inl, inr,
}
use graftcode_extensions.PubSub.Config.{
  PubSubConfig, every, has_byte, is_digit, is_alpha, is_project_byte, is_resource_byte,
  is_valid_project_id, front_is_alpha, is_valid_resource_id, validate_common, validate_resource,
  validate_client_config, validate_server_config,
}

All-map : {P Q : ℕ → Type 0} → ((c : ℕ) → P c → Q c) → (s : Bytes) → All P s → All Q s
All-map f [] a = tt
All-map f (c ∷ s) a = (f c a.0, All-map f s a.1)

every_iff : (test : ℕ → Bool) (s : Bytes) → (every test s ≡ true) ↔ All (λ c. test c ≡ true) s
unfolding every
every_iff test [] = ground arith
every_iff test (c ∷ s) = ground (arith, every_iff test s)

-- A letter of ASCII, and a byte that may stand in an id.
pub data IsLetter (c : ℕ) : Type 0 where
  upper : b'A' ≤ c → c ≤ b'Z' → IsLetter c
  lower : b'a' ≤ c → c ≤ b'z' → IsLetter c

pub data IsIdByte (c : ℕ) : Type 0 where
  letter : IsLetter c → IsIdByte c
  digit : b'0' ≤ c → c ≤ b'9' → IsIdByte c
  hyphen : c ≡ b'-' → IsIdByte c
  underscore : c ≡ b'_' → IsIdByte c
  dot : c ≡ b'.' → IsIdByte c

-- A topic or subscription id: 3 to 255 letters, digits, '-', '_' or '.', a letter first.
pub record IsResourceId (s : Bytes) : Type 0 where
  pub longest : length s ≤ 255
  pub shortest : 3 ≤ length s
  pub first_letter : (c : ℕ) (t : Bytes) → s ≡ c ∷ t → IsLetter c
  pub all_bytes : All IsIdByte s

pub record IsProjectId (s : Bytes) : Type 0 where
  pub longest : length s ≤ 128
  pub given : s ≢ []
  pub all_bytes : All (λ c. is_project_byte c ≡ true) s

alpha-IsLetter : (c : ℕ) → is_alpha c ≡ true → IsLetter c
alpha-IsLetter c h = elim (Bool-cases (leb c 90)) [
  | inl y ↦ upper (ground arith) (ground arith)
  | inr n ↦ lower (ground arith) (ground arith)
]

IsLetter-alpha : (c : ℕ) → IsLetter c → is_alpha c ≡ true
IsLetter-alpha c (upper a b) = ground arith
IsLetter-alpha c (lower a b) = ground arith

byte-IsIdByte : (c : ℕ) → is_resource_byte c ≡ true → IsIdByte c
byte-IsIdByte c h = elim (Bool-cases (is_alpha c)) [
  | inl y ↦ letter (alpha-IsLetter c y)
  | inr n ↦ elim (Bool-cases (is_digit c)) [
    | inl d ↦ digit (ground arith) (ground arith)
    | inr d ↦ elim (Bool-cases (c == 45)) [
      | inl x ↦ hyphen (ground arith)
      | inr x ↦ elim (Bool-cases (c == 95)) [
        | inl u ↦ underscore (ground arith)
        | inr u ↦ dot (ground arith)
      ]
    ]
  ]
]

IsIdByte-byte : (c : ℕ) → IsIdByte c → is_resource_byte c ≡ true
IsIdByte-byte c (letter l) = let a = IsLetter-alpha c l in ground arith
IsIdByte-byte c (digit a b) = ground arith
IsIdByte-byte c (hyphen e) = ground arith
IsIdByte-byte c (underscore e) = ground arith
IsIdByte-byte c (dot e) = ground arith

front-first : (s : Bytes) → front_is_alpha s ≡ true → (c : ℕ) (t : Bytes) → s ≡ c ∷ t → IsLetter c
unfolding front_is_alpha
front-first [] h c t e = absurd (cc)
front-first (d ∷ s) h c t e = alpha-IsLetter c (ground arith)

first-front :
    (s : Bytes)
    → 3 ≤ length s
    → ((c : ℕ) (t : Bytes) → s ≡ c ∷ t → IsLetter c)
    → front_is_alpha s ≡ true
unfolding front_is_alpha
first-front [] h f = absurd (omega arith)
first-front (d ∷ s) h f = IsLetter-alpha d (f d s refl)

valid_resource :
    (s : Bytes)
    → is_valid_resource_id s ≡ true
    → (length s ≤ 255)
      × (3 ≤ length s)
      × (front_is_alpha s ≡ true)
      × (every is_resource_byte s ≡ true)
unfolding is_valid_resource_id
valid_resource s h = ground arith

resource_valid :
    (s : Bytes)
    → IsResourceId s
    → front_is_alpha s ≡ true
    → every is_resource_byte s ≡ true
    → is_valid_resource_id s ≡ true
unfolding is_valid_resource_id
resource_valid s r f e = let a = r.longest in let b = r.shortest in ground arith

-- The test of a topic or subscription id accepts just the texts of 3 to 255 bytes that begin with
-- an ASCII letter and consist of ASCII letters, digits, '-', '_' and '.'.
pub is_valid_resource_id_iff : (s : Bytes) → (is_valid_resource_id s ≡ true) ↔ IsResourceId s
is_valid_resource_id_iff s = (
  λ h.
      let (a, b, c, d) = valid_resource s h in
      record {
        longest = a;
        shortest = b;
        first_letter = front-first s c;
        all_bytes = All-map byte-IsIdByte s ((every_iff is_resource_byte s).0 d);
      },
  λ r.
      resource_valid s r (first-front s r.shortest r.first_letter)
        ((every_iff is_resource_byte s).1 (All-map IsIdByte-byte s r.all_bytes)),
)

project_parts :
    (s : Bytes)
    → is_valid_project_id s ≡ true
    → (length s ≤ 128) × (s ≢ []) × (every is_project_byte s ≡ true)
unfolding is_valid_project_id
project_parts s h = ground arith

pub valid_project : (s : Bytes) → is_valid_project_id s ≡ true → IsProjectId s
valid_project s h =
    let (a, b, c) = project_parts s h in
    record { longest = a; given = b; all_bytes = (every_iff is_project_byte s).0 c }

-- The numbers that the service accepts, and a host with no path and no blank.
pub record IsUsable (c : PubSubConfig) : Type 0 where
  pub deadline : (10 ≤ c.ack_deadline_seconds) × (c.ack_deadline_seconds ≤ 600)
  pub batch : (1 ≤ c.max_messages) × (c.max_messages ≤ 100)
  pub timeout : (0 < c.rpc_timeout_ms) × (c.rpc_timeout_ms ≤ 3600000)
  pub no_path : has_byte 47 c.emulator_host ≡ false
  pub no_blank : has_byte 32 c.emulator_host ≡ false

pub record ClientReady (c : PubSubConfig) : Type 0 where
  pub usable : IsUsable c
  pub project : IsProjectId c.project_id
  pub request : IsResourceId c.request_topic
  pub reply : c.one_way ≡ false → IsResourceId c.reply_topic × IsResourceId c.reply_subscription

pub record ServerReady (c : PubSubConfig) : Type 0 where
  pub usable : IsUsable c
  pub project : IsProjectId c.project_id
  pub request : IsResourceId c.request_topic
  pub subscription : IsResourceId c.request_subscription

host_checked :
    (s : Bytes)
    → (not (is_empty s) && (has_byte 47 s || has_byte 32 s)) ≡ false
    → (has_byte 47 s ≡ false) × (has_byte 32 s ≡ false)
unfolding has_byte
host_checked [] h = (refl, refl)
host_checked (c ∷ s) h = ground arith

common_checked :
    (role : String) (c : PubSubConfig) {u : Unit {0}}
    → validate_common role c ≡ ok u
    → (is_valid_project_id c.project_id ≡ true)
      × (10 ≤ c.ack_deadline_seconds)
      × (c.ack_deadline_seconds ≤ 600)
      × (1 ≤ c.max_messages)
      × (c.max_messages ≤ 100)
      × (0 < c.rpc_timeout_ms)
      × (c.rpc_timeout_ms ≤ 3600000)
      × ((not (is_empty c.emulator_host)
            && (has_byte 47 c.emulator_host || has_byte 32 c.emulator_host))
          ≡ false)
unfolding validate_common
common_checked role c h = ground arith

common-IsUsable :
    (role : String) (c : PubSubConfig) {u : Unit {0}}
    → validate_common role c ≡ ok u
    → IsUsable c × IsProjectId c.project_id
common-IsUsable role c h =
    let (p, a, b, d, e, f, g, k) = common_checked role c h in
    let (x, y) = host_checked c.emulator_host k in
    (
      record { deadline = (a, b); batch = (d, e); timeout = (f, g); no_path = x; no_blank = y },
      valid_project c.project_id p,
    )

resource_checked :
    (s : Bytes) (role field : String) {u : Unit {0}}
    → validate_resource s role field true ≡ ok u
    → is_valid_resource_id s ≡ true
unfolding validate_resource
resource_checked s role field h = ground arith

resource-IsResourceId :
    (s : Bytes) (role field : String) {u : Unit {0}}
    → validate_resource s role field true ≡ ok u
    → IsResourceId s
resource-IsResourceId s role field h =
    (is_valid_resource_id_iff s).0 (resource_checked s role field h)

client_parts :
    (c : PubSubConfig) {u : Unit {0}}
    → validate_client_config c ≡ ok u
    → (validate_common "client" c ≡ ok tt)
      × (validate_resource c.request_topic "client" "requestTopic" true ≡ ok tt)
      × (c.one_way ≡ false
          → (validate_resource c.reply_topic "client" "replyTopic" true ≡ ok tt)
            × (validate_resource c.reply_subscription "client" "replySubscription" true ≡ ok tt))
unfolding validate_client_config
client_parts c h = ground arith

server_parts :
    (c : PubSubConfig) {u : Unit {0}}
    → validate_server_config c ≡ ok u
    → (validate_common "server" c ≡ ok tt)
      × (validate_resource c.request_topic "server" "requestTopic" true ≡ ok tt)
      × (validate_resource c.request_subscription "server" "requestSubscription" true ≡ ok tt)
unfolding validate_server_config
server_parts c h = ground arith

pub validate_client_config-ClientReady :
    (c : PubSubConfig) {u : Unit {0}} → validate_client_config c ≡ ok u → ClientReady c
validate_client_config-ClientReady c h =
    let (a, b, r) = client_parts c h in
    let (usable, project) = common-IsUsable "client" c a in
    record {
      usable = usable;
      project = project;
      request = resource-IsResourceId c.request_topic _ _ b;
      reply = λ o. (
        resource-IsResourceId c.reply_topic _ _ (r o).0,
        resource-IsResourceId c.reply_subscription _ _ (r o).1,
      );
    }

pub validate_server_config-ServerReady :
    (c : PubSubConfig) {u : Unit {0}} → validate_server_config c ≡ ok u → ServerReady c
validate_server_config-ServerReady c h =
    let (a, b, r) = server_parts c h in
    let (usable, project) = common-IsUsable "server" c a in
    record {
      usable = usable;
      project = project;
      request = resource-IsResourceId c.request_topic _ _ b;
      subscription = resource-IsResourceId c.request_subscription _ _ r;
    }
