-- ===== src/Abi.antt =====
-- GraftcodePluginsInterfaces/TransportPluginExports.h: the C ABI of a plugin over ITransport.
-- A buffer is the bytes that it holds, or none for a null pointer. `malloc` says whether an
-- allocation of that many bytes succeeds; SendCommand makes at most two.
pub mod Contract
use graftcode_extensions.Base.{
  c_str, ℕ, ◌+◌, Bool, true, false, ◌||◌, Option, none, some, List, [], ◌∷◌, ◌++◌, Bytes, codes,
  length, if◌then◌else◌, Exception, runtime_error, invalid_argument, other_std, unknown, Result, ok,
  throw, ◌>>=◌,
}
use graftcode_extensions.Base.Int.{ℤ, pos, negsuc, to_int32}

abbrev pub transport_plugin_ok : ℤ
transport_plugin_ok = pos 0

abbrev pub transport_plugin_error : ℤ
transport_plugin_error = negsuc 0

-- A copy with a terminating NUL.
unfoldable pub copy_buffer : (ℕ → Bool) → Bytes → Option Bytes
copy_buffer malloc content = if malloc (length content + 1) then some (content ++ 0 ∷ []) else none

unfoldable pub copy_message : (ℕ → Bool) → Bytes → Option Bytes
unfolding copy_buffer
copy_message malloc message = copy_buffer malloc message

-- The text that the `catch` clauses keep: `what()` up to its NUL.
unfoldable pub error_text : Exception → Bytes
error_text (runtime_error what) = c_str what
error_text (invalid_argument what) = c_str what
error_text (other_std what) = c_str what
error_text unknown = codes "unknown transport plugin error"

-- The channel, and what `*errorMessage` holds afterwards; the outer `none` is a null
-- `errorMessage`, through which nothing is written.
pub record Created {ℓ} (Channel : Type ℓ) : Type ℓ where
  pub channel : Option Channel
  pub error_message : Option (Option Bytes)

unfoldable pub create_transport {ℓ} :
    {Channel : Type ℓ} → (ℕ → Bool) → Bool → Result Channel → Created Channel
unfolding copy_message error_text
create_transport malloc null_message (ok transport) = record {
  channel = some transport;
  error_message = if null_message then none else some none;
}
create_transport malloc null_message (throw e) = record {
  channel = none;
  error_message = if null_message then none else some (copy_message malloc (error_text e));
}

-- What `*response` and `*responseLen` hold.
pub record Output : Type 0 where
  pub response : Option Bytes
  pub response_len : ℤ

abbrev pub to_output : Option Bytes → ℤ → Output
to_output buffer len = record { response = buffer; response_len = len }

module _ (bad_alloc_what : Bytes) where
  -- The body of the `try`: the copied response and its length.
  unfoldable pub try_send : (ℕ → Bool) → Option (Result Bytes) → Result Output
  unfolding copy_buffer
  try_send malloc none = throw (invalid_argument (codes "transport channel is null"))
  try_send malloc (some sent) = do
    result ← sent
    elim (copy_buffer malloc result) [
      | none ↦ throw (other_std bad_alloc_what)
      | some buffer ↦ ok (to_output (some buffer) (to_int32 (length result)))
    ]

  pub report_error : (ℕ → Bool) → Bytes → Output
  unfolding copy_buffer
  report_error malloc error = elim (copy_buffer malloc error) [
    | none ↦ to_output none (pos 0)
    | some buffer ↦ to_output (some buffer) (to_int32 (length error))
  ]

  pub finish_send : (ℕ → Bool) → Result Output → ℤ × Option Output
  unfolding report_error error_text
  finish_send malloc (ok out) = (transport_plugin_ok, some out)
  finish_send malloc (throw e) = (transport_plugin_error, some (report_error malloc (error_text e)))

  -- `channel` is none for a null channel, and otherwise what the transport's SendCommand does with
  -- the message. Nothing is written where an output pointer is null.
  unfoldable pub send_command :
      (ℕ → Bool) → (ℕ → Bool) → Bool → Bool → Option (Result Bytes) → ℤ × Option Output
  unfolding try_send finish_send
  send_command malloc malloc' null_response null_len channel =
      if null_response || null_len
      then (transport_plugin_error, none)
      else finish_send malloc' (try_send malloc channel)
