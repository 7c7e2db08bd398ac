-- ===== src/Abi/Contract.antt =====
-- What the Gateway gets through the C ABI of TransportPluginExports.h.
use graftcode_extensions.Base.{
  c_str, ℕ, ◌+◌, ◌≤◌, ◌<◌, ◌^◌, ◌≡◌, refl, ◌⊎◌, inl, inr, Bool, true, false, Option, none, some, [],
  ◌∷◌, ◌++◌, arith, Bytes, codes, length, take, take-append_length, Exception, other_std, ◌||◌,
  Bool-cases, Result, ok, throw,
}
use graftcode_extensions.Base.Int.{ℤ, pos, negsuc, to_int32, to_int32-small, to_int32-large}
use graftcode_extensions.Abi.{
  Output, transport_plugin_ok, transport_plugin_error, copy_buffer, copy_message, error_text,
  create_transport, try_send, finish_send, report_error, send_command, to_output,
}

-- How a caller reads an output: the first `response_len` bytes of the buffer.
pub read_output : Option Output → Option Bytes
read_output none = none
read_output (some out) = elim out.response [
  | none ↦ none
  | some buffer ↦ elim out.response_len [ pos n ↦ some (take n buffer) | negsuc _ ↦ none ]
]

abbrev pub granted : ℕ → Bool
granted _ = true

-- What a transport's call came to, told by the status and the text or bytes.
abbrev pub outcome : Option (Result Bytes) → ℤ × Bytes
outcome none = (transport_plugin_error, codes "transport channel is null")
outcome (some (ok result)) = (transport_plugin_ok, result)
outcome (some (throw e)) = (transport_plugin_error, error_text e)

abbrev creation_error {ℓ} : {Channel : Type ℓ} → Result Channel → Bytes
creation_error (ok x) = []
creation_error (throw e) = error_text e

null_channel_text : c_str (codes "transport channel is null") ≡ codes "transport channel is null"
unfolding c_str codes
null_channel_text = refl

pub send_command_lossless :
    (bad : Bytes) (channel : Option (Result Bytes))
    → length (outcome channel).1 < 2 ^ 31
    → let r = send_command bad granted granted false false channel in
      (r.0 ≡ (outcome channel).0) × (read_output r.1 ≡ some (outcome channel).1)
unfolding send_command read_output copy_buffer error_text
send_command_lossless bad none h = ground (
  arith,
  null_channel_text,
  to_int32-small (length (codes "transport channel is null")) h,
  take-append_length (codes "transport channel is null") (0 ∷ []),
)
send_command_lossless bad (some (ok r)) h =
    ground (arith, to_int32-small (length r) h, take-append_length r (0 ∷ []))
send_command_lossless bad (some (throw e)) h =
    ground
      (arith, to_int32-small (length (error_text e)) h, take-append_length (error_text e) (0 ∷ []))

-- What the ABI promises of a call on a channel: the status and what was written.
pub data Keeps (channel : Option (Result Bytes)) (null_output : Bool) (r : ℤ × Option Output)
    : Type 0 where
  refused : null_output ≡ true → r ≡ (transport_plugin_error, none) → Keeps channel null_output r
  returned :
      (result : Bytes)
      → channel ≡ some (ok result)
      → null_output ≡ false
      → r ≡ (
        transport_plugin_ok,
        some (to_output (some (result ++ 0 ∷ [])) (to_int32 (length result))),
      )
      → Keeps channel null_output r
  reported :
      (text : Bytes)
      → null_output ≡ false
      → r ≡ (
        transport_plugin_error,
        some (to_output (some (text ++ 0 ∷ [])) (to_int32 (length text))),
      )
      → Keeps channel null_output r
  out_of_memory :
      null_output ≡ false
      → r ≡ (transport_plugin_error, some (to_output none (pos 0)))
      → Keeps channel null_output r

finish_send-throw :
    (bad : Bytes) (malloc : ℕ → Bool) (e : Exception) (channel : Option (Result Bytes))
    → Keeps channel false (finish_send bad malloc (throw e))
unfolding finish_send report_error copy_buffer
finish_send-throw bad malloc e channel = elim (Bool-cases (malloc (length (error_text e) + 1))) [
  | inl h ↦ reported (error_text e) refl (ground arith)
  | inr h ↦ out_of_memory refl (ground arith)
]

try_send_oom :
    (bad : Bytes) (malloc : ℕ → Bool) (r : Bytes)
    → malloc (length r + 1) ≡ false
    → try_send bad malloc (some (ok r)) ≡ throw (other_std bad)
unfolding try_send copy_buffer
try_send_oom bad malloc r h = ground arith

send_command_written :
    (bad : Bytes) (malloc malloc' : ℕ → Bool) (channel : Option (Result Bytes))
    → Keeps channel false (finish_send bad malloc' (try_send bad malloc channel))
send_command_written bad malloc malloc' none =
    unfold try_send in finish_send-throw bad malloc' _ none
send_command_written bad malloc malloc' (some (throw e)) =
    unfold try_send in finish_send-throw bad malloc' e _
send_command_written bad malloc malloc' (some (ok r)) = elim (Bool-cases (malloc (length r + 1))) [
  | inl h ↦ returned r refl refl (unfold finish_send try_send copy_buffer in ground arith)
  | inr h ↦
      rw (try_send_oom bad malloc r h) (finish_send-throw bad malloc' (other_std bad) (some (ok r)))
]

-- On every branch, whatever memory is left and whatever the transport does: OK comes only of a
-- transport that returned, with its bytes, a NUL behind them and their wrapped length; any other
-- written buffer is a text in the same form, or null with length 0; and nothing is written exactly
-- when an output pointer is null.
pub send_command-Keeps :
    (bad : Bytes) (malloc malloc' : ℕ → Bool) (null_response null_len : Bool)
    (channel : Option (Result Bytes))
    → Keeps channel
        (null_response || null_len)
        (send_command bad malloc malloc' null_response null_len channel)
unfolding send_command
send_command-Keeps bad malloc malloc' true null_len channel = refused refl refl
send_command-Keeps bad malloc malloc' false true channel = refused refl refl
send_command-Keeps bad malloc malloc' false false channel =
    send_command_written bad malloc malloc' channel

-- A response from 2 GiB to 4 GiB is reported as a success, with a negative length that no caller
-- can read it by.
pub send_command_wraps :
    (bad result : Bytes)
    → 2 ^ 31 ≤ length result
    → length result < 2 ^ 32
    → let r = send_command bad granted granted false false (some (ok result)) in
      (r.0 ≡ transport_plugin_ok) × (read_output r.1 ≡ none)
unfolding send_command copy_buffer read_output
send_command_wraps bad result h k = (refl, rw (to_int32-large (length result) h k) refl)

-- A creation gives either a channel and no message, or no channel and, where there is memory for
-- it and a place to write it, the text of what was thrown.
pub create_transport_lossless {ℓ} :
    {Channel : Type ℓ} (malloc : ℕ → Bool) (made : Result Channel)
    → (malloc (length (creation_error made) + 1) ≡ true)
    → let r = create_transport malloc false made in
      ((x : Channel) × (made ≡ ok x) × (r.channel ≡ some x) × (r.error_message ≡ some none))
      ⊎ ((e : Exception) × (made ≡ throw e)
          × (r.channel ≡ none)
          × (r.error_message ≡ some (some (error_text e ++ 0 ∷ []))))
unfolding create_transport copy_message
create_transport_lossless malloc (ok x) h = inl (x, refl, refl, refl)
create_transport_lossless malloc (throw e) h = inr (e, refl, refl, rw h refl)
