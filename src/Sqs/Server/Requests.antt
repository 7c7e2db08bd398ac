-- ===== src/Sqs/Server/Requests.antt =====
-- What becomes of a request at the server of sqs/SqsPlugin/SqsServer.cpp.
use graftcode_extensions.Base.{
  ◌≡◌, refl, Bool, true, false, not, ◌&&◌, ◌||◌, ◌≢◌, none, some, List, [], ◌∷◌, arith, Bytes,
  is_empty, unknown, Result, ok, throw,
}
use graftcode_extensions.Sqs.Config.{SqsConfig}
use graftcode_extensions.Sqs.Codec.{
  Base64, span, encode_payload, decode_payload, get_string_attribute, correlation_id_attribute,
  SendRequest,
}
use graftcode_extensions.Sqs.Client.{Message, AwsFailure}
use graftcode_extensions.Sqs.Server.{
  Surroundings, Processed, Effect, send_message, write_all, reply_request, delete_request,
  after_reply, reply_and_delete, after_process, reply_url_of, caught, try_message, handle_message,
}

is_empty-ne : (s : Bytes) → s ≢ [] → is_empty s ≡ false
is_empty-ne s n = ground arith

module _ (base64 : Base64) (config : SqsConfig) (env : Surroundings) (m : Message) where
  abbrev id : Bytes
  id = get_string_attribute m.attributes correlation_id_attribute

  abbrev reply_url : Bytes
  reply_url = reply_url_of config m

  -- The Gateway took the request that the message holds.
  pub record Taken : Type 0 where
    pub request : Bytes
    pub result : Processed
    pub readable : decode_payload base64 m.body ≡ ok request
    pub processed : env.process request ≡ ok result
    pub accepted : result.accepted ≡ true

  -- The reply that goes out for it.
  pub record Replies (taken : Taken) (reply : SendRequest) : Type 0 where
    pub body : Bytes
    pub encoded : encode_payload base64 (span (write_all [] taken.result.writes)) ≡ ok body
    pub addressed :
        reply
        ≡ reply_request config env
            (get_string_attribute m.attributes correlation_id_attribute)
            (reply_url_of config m)
            body
    pub to_caller : reply_url_of config m ≢ []
    pub identified : get_string_attribute m.attributes correlation_id_attribute ≢ []

  -- How the handling of a message ends, with its calls to AWS in order.
  pub data Ends (r : Result (List Effect)) : Type 0 where
    left : r ≡ ok [] → Ends r
    escaped : r ≡ throw unknown → Ends r
    deleted_unreplied :
        Taken → config.one_way ≡ true → r ≡ ok (delete_request config env m ∷ []) → Ends r
    unsent :
        (taken : Taken) (reply : SendRequest) (e : AwsFailure)
        → Replies taken reply
        → env.sent ≡ some e
        → r ≡ ok (send_message reply (some e) ∷ [])
        → Ends r
    replied :
        (taken : Taken) (reply : SendRequest)
        → Replies taken reply
        → env.sent ≡ none
        → r ≡ ok (send_message reply none ∷ delete_request config env m ∷ [])
        → Ends r

  abbrev unaddressed : Bool
  unaddressed = not config.one_way && (is_empty id || is_empty reply_url)

  module _ (taken : Taken) where
    abbrev response : Bytes
    response = write_all [] taken.result.writes

    abbrev goes_on : Result (List Effect)
    goes_on = reply_and_delete base64 config env m id reply_url response

    encoded-goes_on :
        (body : Bytes)
        → reply_url ≢ []
        → encode_payload base64 (span response) ≡ ok body
        → goes_on
          ≡ ok (after_reply config env m (reply_request config env id reply_url body) env.sent)
    unfolding reply_and_delete
    encoded-goes_on body n e = simp (is_empty-ne reply_url n, e)

  try_message_taken :
      (taken : Taken) → unaddressed ≡ false → try_message base64 config env m ≡ goes_on taken
  unfolding try_message after_process
  try_message_taken t h = simp (h, t.readable, t.processed, t.accepted)

  addressed : config.one_way ≡ false → id ≢ [] → reply_url ≢ [] → unaddressed ≡ false
  addressed o i u = simp (o, is_empty-ne id i, is_empty-ne reply_url u)

  -- The way in which a request is answered.
  pub handle_message-replied :
      (taken : Taken) (body : Bytes)
      → config.one_way ≡ false
      → id ≢ []
      → reply_url ≢ []
      → encode_payload base64 (span (write_all [] taken.result.writes)) ≡ ok body
      → env.sent ≡ none
      → handle_message base64 config env m
        ≡ ok (
            send_message
              (reply_request config env
                (get_string_attribute m.attributes correlation_id_attribute)
                (reply_url_of config m)
                body)
              none
            ∷ delete_request config env m
            ∷ [])
  unfolding handle_message
  handle_message-replied taken body o i u e n =
      rw (try_message_taken taken (addressed o i u), encoded-goes_on taken body u e)
        (unfold caught after_reply in rw n refl)
