-- ===== src/Sqs/Server.antt =====
-- sqs/SqsPlugin/SqsServer.h and SqsServer.cpp: what the server does with a request. The Gateway's
-- callback, the random words of a reply's deduplication id and AWS's answers are arguments.
pub mod Requests
pub mod Lifecycle
use graftcode_extensions.Base.{
  c_str, ℕ, Bool, true, false, not, ◌&&◌, ◌||◌, Option, none, some, List, [], ◌∷◌, ◌++◌, Bytes,
  codes, is_empty, if◌then◌else◌, Exception, runtime_error, invalid_argument, other_std, unknown,
  Result, ok, throw, ◌>>=◌, ◌>>◌, throw_if,
}
use graftcode_extensions.Json.{JsonLibrary}
use graftcode_extensions.Sqs.Config.{
  SqsConfig, default_config, parse_sqs_config_source, validate_server_config,
}
use graftcode_extensions.Sqs.Codec.{
  Base64, Span, null_span, span, encode_payload, decode_payload, Attributes, get_string_attribute,
  correlation_id_attribute, reply_to_attribute, SendRequest, configure_fifo_message,
  new_correlation_id,
}
use graftcode_extensions.Sqs.Client.{Message, AwsFailure}

-- `writeResponse` on the server's vector: the last write counts.
unfoldable pub write_response : Bytes → Span → Bytes
write_response output (null_span _) = []
write_response output (span content) = content

unfoldable pub write_all : Bytes → List Span → Bytes
unfolding write_response
write_all output [] = output
write_all output (s ∷ ss) = write_all (write_response output s) ss

-- What `processMessage` does: its result, and what it writes on the way.
pub record Processed : Type 0 where
  pub accepted : Bool
  pub writes : List Span

-- The calls to AWS that one message causes, with what AWS answers.
pub data Effect : Type 0 where
  send_message : SendRequest → Option AwsFailure → Effect
  delete_message : Bytes → Bytes → Option AwsFailure → Effect

-- What is not the server's own in the handling of one message.
pub record Surroundings : Type 0 where
  pub process : Bytes → Result Processed
  pub random_first : ℕ
  pub random_second : ℕ
  pub sent : Option AwsFailure
  pub deleted : Option AwsFailure

unfoldable pub reply_request : SqsConfig → Surroundings → Bytes → Bytes → Bytes → SendRequest
reply_request config env id reply_url body =
    configure_fifo_message
      (record {
        queue_url = c_str reply_url;
        body = body;
        attributes = (correlation_id_attribute, c_str id) ∷ [];
        group_id = none;
        deduplication_id = none;
      })
      reply_url config.message_group_id (new_correlation_id env.random_first env.random_second)

pub delete_request : SqsConfig → Surroundings → Message → Effect
delete_request config env m =
    delete_message (c_str config.request_queue_url) m.receipt_handle env.deleted

-- Behind `SendMessage`: the request is deleted unless the send failed.
pub after_reply : SqsConfig → Surroundings → Message → SendRequest → Option AwsFailure → List Effect
unfolding delete_request
after_reply config env m reply (some e) = send_message reply (some e) ∷ []
after_reply config env m reply none = send_message reply none ∷ delete_request config env m ∷ []

unfoldable pub reply_url_of : SqsConfig → Message → Bytes
reply_url_of config m =
    if config.one_way then [] else get_string_attribute m.attributes reply_to_attribute

module _ (base64 : Base64) (config : SqsConfig) (env : Surroundings) where
  -- From a response on: the reply if there is where to, and the deletion.
  pub reply_and_delete : Message → Bytes → Bytes → Bytes → Result (List Effect)
  reply_and_delete m id reply_url response =
      if is_empty reply_url then ok (delete_request config env m ∷ []) else do
        body ← encode_payload base64 (span response)
        ok (after_reply config env m (reply_request config env id reply_url body) env.sent)

  pub after_process : Message → Bytes → Bytes → Processed → Result (List Effect)
  after_process m id reply_url p =
      if not p.accepted then ok [] else reply_and_delete m id reply_url (write_all [] p.writes)

  -- The body of the `try` for one message.
  unfoldable pub try_message : Message → Result (List Effect)
  try_message m =
      let id = get_string_attribute m.attributes correlation_id_attribute in
      let reply_url = reply_url_of config m in
      if not config.one_way && (is_empty id || is_empty reply_url) then ok [] else do
        request ← decode_payload base64 m.body
        p ← env.process request
        after_process m id reply_url p

  -- A std::exception is logged; any other one ends the server's loop.
  pub caught : Result (List Effect) → Result (List Effect)
  caught (ok effects) = ok effects
  caught (throw unknown) = throw unknown
  caught (throw (runtime_error _)) = ok []
  caught (throw (invalid_argument _)) = ok []
  caught (throw (other_std _)) = ok []

  unfoldable pub handle_message : Message → Result (List Effect)
  unfolding caught
  handle_message m = caught (try_message m)
