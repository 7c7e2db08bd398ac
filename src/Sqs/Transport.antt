-- ===== src/Sqs/Transport.antt =====
-- sqs/SqsPlugin/TransportSqs.cpp: the transport that the C ABI calls. `call` is the client's Call.
use graftcode_extensions.Base.{
  c_str, length-c_str, ◌^◌, ◌<◌, ◌≡◌, ◌⊎◌, refl, Bool, true, false, ◌&&◌, Option, none, some, [],
  ◌∷◌, arith, Bytes, codes, length, ◌==◌, if◌then◌else◌, Bool-cases, ==_iff, ap, ◌∙◌, inl, inr, ltb,
  runtime_error, invalid_argument, Result, ok, throw, ◌>>=◌, ◌>>◌,
}
use graftcode_extensions.Base.Int.{ℤ, pos, negsuc}
use graftcode_extensions.Abi.{transport_plugin_ok, transport_plugin_error, send_command, error_text}
use graftcode_extensions.Abi.Contract.{read_output, granted, send_command_lossless}
use graftcode_extensions.Json.{JsonLibrary}
use graftcode_extensions.Sqs.Codec.{Span, span, is_null}
use graftcode_extensions.Sqs.Config.{parse_sqs_config_source}
use graftcode_extensions.Sqs.Client.{SqsClient, new_client}

-- The mark of an error that the Gateway answers.
unfoldable pub reject_gateway_error_payload : Bytes → Result (Unit {0})
reject_gateway_error_payload [] = ok tt
reject_gateway_error_payload (c ∷ rest) = if c == 255 then throw (runtime_error rest) else ok tt

invalid_request : ℤ → Span → Bool
invalid_request (negsuc _) message = true
invalid_request (pos n) message = ltb 0 n && is_null message

unfoldable pub transport_send_command : (Span → Result Bytes) → ℤ → Span → Result Bytes
unfolding invalid_request
transport_send_command call len message =
    if invalid_request len message
    then throw (invalid_argument (codes "SQS transport: invalid request payload"))
    else do response ← call message; reject_gateway_error_payload response; ok response

module _ (json : JsonLibrary) where
  source_of : Option Bytes → Bytes
  source_of none = []
  source_of (some source) = source

  -- The transport's constructor.
  unfoldable pub new_transport : (Bytes → Option Bytes) → Option Bytes → Result SqsClient
  unfolding source_of
  new_transport read_file config_source = do
    config ← parse_sqs_config_source json read_file (source_of config_source)
    new_client config

abbrev pub not_marked : Bytes → Bool
not_marked [] = true
not_marked (c ∷ rest) = if c == 255 then false else true

module _ (call : Span → Result Bytes) (message : Bytes) where
  abbrev pub sent : Result Bytes
  sent = transport_send_command call (pos (length message)) (span message)

  sent_reply :
      (reply : Bytes)
      → call (span message) ≡ ok reply
      → sent ≡ (reject_gateway_error_payload reply >> ok reply)
  unfolding transport_send_command
  sent_reply reply h = ground arith

  -- With memory at hand and a reply below 2 GiB: a reply that begins with the mark comes out of the
  -- ABI as an error with the rest of the reply, up to a NUL, for its text; every other reply comes
  -- out as it is, with the status OK.
  pub gateway_reply_reported :
      (bad reply : Bytes)
      → call (span message) ≡ ok reply
      → length reply < 2 ^ 31
      → let r = send_command bad granted granted false false (some sent) in
        ((not_marked reply ≡ true) × (r.0 ≡ transport_plugin_ok) × (read_output r.1 ≡ some reply))
        ⊎ ((rest : Bytes) × (reply ≡ 255 ∷ rest)
            × (r.0 ≡ transport_plugin_error)
            × (read_output r.1 ≡ some (c_str rest)))
  unfolding reject_gateway_error_payload error_text
  gateway_reply_reported bad [] h l =
      let e : sent ≡ ok [] = sent_reply [] h in
      let k = send_command_lossless bad (some (ok [])) l in rw e (inl (refl, k.0, k.1))
  gateway_reply_reported bad (c ∷ rest) h l = elim (Bool-cases (c == 255)) [
    | inl y ↦
        let e : sent ≡ throw (runtime_error rest) = sent_reply (c ∷ rest) h ∙ rw y refl in
        let k =
          send_command_lossless bad (some (throw (runtime_error rest)))
            (omega (arith, length-c_str rest)) in
        rw e (inr (rest, ap (λ d. d ∷ rest) ((==_iff c 255).0 y), k.0, k.1))
    | inr n ↦
        let e : sent ≡ ok (c ∷ rest) = sent_reply (c ∷ rest) h ∙ rw n refl in
        let k = send_command_lossless bad (some (ok (c ∷ rest))) l in
        rw e (inl (rw n refl, k.0, k.1))
  ]
