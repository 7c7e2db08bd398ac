-- ===== src/Sqs/Endpoint.antt =====
-- ParseEndpointOverride and IsFifoQueueUrl of sqs/SqsPlugin/SqsConfig.cpp.
pub mod Fifo
pub mod Authority
use graftcode_extensions.Base.{
  ℕ, ◌-◌, ◌≡◌, refl, Bool, true, false, not, ◌&&◌, ◌||◌, [], ◌∷◌, String, Bytes, codes, bytes_eq,
  length, is_empty, drop, starts_with, pop_while, skip_while, before_byte, leb, ◌==◌, if◌then◌else◌,
  runtime_error, Result, ok, throw,
}

pub record ParsedEndpoint : Type 0 where
  pub overridden : Bool
  pub use_https : Bool
  pub authority : Bytes

abbrev pub no_override : ParsedEndpoint
no_override = record { overridden = false; use_https = true; authority = [] }

abbrev pub is_blank : ℕ → Bool
is_blank c = c == b' ' || c == b'\t'

abbrev pub is_slash : ℕ → Bool
is_slash c = c == b'/'

-- The white space at both ends goes, the end first.
pub trim : Bytes → Bytes
unfolding pop_while skip_while
trim value = skip_while is_blank (pop_while is_blank value)

-- The scheme of a value, and the value without it.
pub split_scheme : Bytes → Bool × Bytes
unfolding starts_with
split_scheme value =
    if starts_with (codes "http://") value
    then (false, drop 7 value)
    else if starts_with (codes "https://") value
    then (true, drop 8 value)
    else (true, value)

pub with_authority : Bool → Bytes → Result ParsedEndpoint
with_authority use_https authority =
    if is_empty authority
    then throw (runtime_error (codes "SQS plugin: 'endpointOverride' is missing a host"))
    else ok (record { overridden = true; use_https = use_https; authority = authority })

unfoldable pub parse_endpoint_override : Bytes → Result ParsedEndpoint
unfolding trim split_scheme with_authority pop_while
parse_endpoint_override endpoint_override =
    let value = trim endpoint_override in
    let (https, rest) = split_scheme value in
    if is_empty value then ok no_override else with_authority https (pop_while is_slash rest)

unfoldable pub is_fifo_queue_url : Bytes → Bool
unfolding before_byte pop_while bytes_eq
is_fifo_queue_url queue_url =
    let normalized = pop_while is_slash (before_byte b'?' queue_url) in
    leb 5 (length normalized) && bytes_eq (drop (length normalized - 5) normalized) (codes ".fifo")
