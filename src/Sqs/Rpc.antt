-- ===== src/Sqs/Rpc.antt =====
-- A request of sqs/SqsPlugin/SqsClient.cpp through SqsServer.cpp and back: both ends read what the
-- other wrote.
use graftcode_extensions.Base.{
  c_str, ◌<◌, ◌≡◌, refl, sym, ap, ◌∙◌, ◌≢◌, true, false, none, some, [], ◌∷◌, arith, append-nil,
  Bytes, codes, find, bytes_eq, bytes_eq_refl, before_byte, before_byte-append, before_byte-splits,
  All, inl, ◌==◌, ok,
}
use graftcode_extensions.PendingReplies.{Ticket}
use graftcode_extensions.Sqs.Config.{SqsConfig}
use graftcode_extensions.Sqs.Codec.{
  Base64, Span, span, span_bytes, encode_payload, decode_payload, Attributes, get_string_attribute,
  correlation_id_attribute, reply_to_attribute, SendRequest, configure_fifo_message,
}
use graftcode_extensions.Sqs.Codec.RoundTrip.{IsRfc4648, decode-encode_payload}
use graftcode_extensions.Sqs.Client.{
  SqsClient, Started, Message, begin_call, send_request, request_of,
}
use graftcode_extensions.Sqs.Client.Calls.{begin_call-request}
use graftcode_extensions.Sqs.Server.Requests.{Taken, handle_message-replied}
use graftcode_extensions.Sqs.Client.Dispatch.{message_id}
use graftcode_extensions.Sqs.Server.{
  Surroundings, Processed, send_message, write_all, reply_request, delete_request, handle_message,
  reply_url_of,
}

-- Free of NUL, so that `c_str()` keeps it whole.
abbrev pub NoNul : Bytes → Type 0
NoNul = All (λ c. (c == 0) ≡ false)

c_str-NoNul : (s : Bytes) → NoNul s → c_str s ≡ s
unfolding c_str
c_str-NoNul s n = ap (before_byte 0) (sym (append-nil s)) ∙ before_byte-append 0 s [] n (inl refl)

-- The message that a queue delivers for a request that was sent.
abbrev pub delivered : SendRequest → Bytes → Message
delivered r handle = record { body = r.body; attributes = r.attributes; receipt_handle = handle }

c_str-c_str : (s : Bytes) → c_str (c_str s) ≡ c_str s
unfolding c_str
c_str-c_str s = c_str-NoNul (c_str s) (before_byte-splits 0 s).2

configure_fifo_message-keeps :
    (r : SendRequest) (url group dedup : Bytes)
    → ((configure_fifo_message r url group dedup).body ≡ r.body)
      × ((configure_fifo_message r url group dedup).attributes ≡ r.attributes)
      × ((configure_fifo_message r url group dedup).queue_url ≡ r.queue_url)
unfolding configure_fifo_message
configure_fifo_message-keeps r url group dedup = ground arith

correlation_ne_reply_to : bytes_eq correlation_id_attribute reply_to_attribute ≡ false
unfolding correlation_id_attribute reply_to_attribute codes bytes_eq
correlation_ne_reply_to = refl

module _ (config : SqsConfig) (id body : Bytes) where
  send_request-body : (send_request config id body).body ≡ body
  unfolding send_request request_of
  send_request-body = (configure_fifo_message-keeps _ _ _ _).0

  request_of-id :
      get_string_attribute (request_of config id body).attributes correlation_id_attribute
      ≡ c_str (c_str id)
  unfolding request_of get_string_attribute find
  request_of-id = ground (arith, bytes_eq_refl correlation_id_attribute)

  request_of-reply_to :
      config.one_way ≡ false
      → get_string_attribute (request_of config id body).attributes reply_to_attribute
        ≡ c_str (c_str config.reply_queue_url)
  unfolding request_of get_string_attribute find
  request_of-reply_to o = ground (arith, bytes_eq_refl reply_to_attribute, correlation_ne_reply_to)

  send_request-attributes :
      (send_request config id body).attributes ≡ (request_of config id body).attributes
  unfolding send_request
  send_request-attributes = (configure_fifo_message-keeps _ _ _ _).1

single_attribute :
    (id : Bytes)
    → get_string_attribute ((correlation_id_attribute, c_str id) ∷ []) correlation_id_attribute
      ≡ c_str (c_str id)
unfolding get_string_attribute find
single_attribute id = ground (arith, bytes_eq_refl correlation_id_attribute)

module _ (config : SqsConfig) (env : Surroundings) (id url body : Bytes) where
  reply_request-fields :
      ((reply_request config env id url body).queue_url ≡ c_str url)
      × ((reply_request config env id url body).body ≡ body)
      × (get_string_attribute
            (reply_request config env id url body).attributes
            correlation_id_attribute
          ≡ c_str id)
  unfolding reply_request
  reply_request-fields =
      let k = configure_fifo_message-keeps _ url config.message_group_id _ in
      (
        k.2,
        k.0,
        ap (λ (r : Attributes). get_string_attribute r correlation_id_attribute) k.1
            ∙ single_attribute id
            ∙ c_str-c_str id,
      )

-- What the server reads in a request of a call that waits for its reply.
module _ (config : SqsConfig) (id body : Bytes) (request : SendRequest)
    (sent : request ≡ send_request config id body) where
  request-id : NoNul id → get_string_attribute request.attributes correlation_id_attribute ≡ id
  request-id n =
      ap (λ (r : SendRequest). get_string_attribute r.attributes correlation_id_attribute) sent
      ∙ ap (λ (a : Attributes). get_string_attribute a correlation_id_attribute)
          (send_request-attributes config id body)
      ∙ request_of-id config id body
      ∙ c_str-c_str id
      ∙ c_str-NoNul id n

  request-reply_url :
      (server : SqsConfig) (handle : Bytes)
      → config.one_way ≡ false
      → server.one_way ≡ false
      → reply_url_of server (delivered request handle) ≡ c_str config.reply_queue_url
  unfolding reply_url_of
  request-reply_url server handle o o' = rw o' (
      ap (λ (r : SendRequest). get_string_attribute r.attributes reply_to_attribute) sent
      ∙ ap (λ (a : Attributes). get_string_attribute a reply_to_attribute)
          (send_request-attributes config id body)
      ∙ request_of-reply_to config id body o
      ∙ c_str-c_str config.reply_queue_url)

  request-body : request.body ≡ body
  request-body = ap (λ (r : SendRequest). r.body) sent ∙ send_request-body config id body

module _ (base64 : Base64) (rfc : IsRfc4648 base64) (id : Bytes) (payload : Span) where
  -- Given a Base64 as in RFC 4648, an id that is not empty and has no NUL, a reply queue, and a
  -- server that is not one-way: a call that waits for a reply is answered if the Gateway accepts
  -- the payload, its response fits a message and AWS takes the reply. The server reads the payload
  -- as it was passed in, sends the response to the caller's reply queue and deletes the request;
  -- and the client's dispatcher reads in the reply the call's id and the response as the Gateway
  -- wrote it.
  pub rpc_round_trip :
      (c : SqsClient) (s : Started) (t : Ticket) (config : SqsConfig) (env : Surroundings)
      (handle handle' : Bytes) (p : Processed) (reply_body : Bytes)
      → (begin_call base64 id payload c).1 ≡ ok s
      → s.ticket ≡ some t
      → All (λ x. x < 256) (span_bytes payload)
      → NoNul id
      → id ≢ []
      → c_str c.config.reply_queue_url ≢ []
      → config.one_way ≡ false
      → env.process (span_bytes payload) ≡ ok p
      → p.accepted ≡ true
      → All (λ x. x < 256) (write_all [] p.writes)
      → encode_payload base64 (span (write_all [] p.writes)) ≡ ok reply_body
      → env.sent ≡ none
      → (reply : SendRequest) × (handle_message base64 config env (delivered s.request handle)
          ≡ ok (
              send_message reply none
              ∷ delete_request config env (delivered s.request handle)
              ∷ []))
        × (reply.queue_url ≡ c_str c.config.reply_queue_url)
        × (message_id (delivered reply handle') ≡ id)
        × (decode_payload base64 (delivered reply handle').body ≡ ok (write_all [] p.writes))
  rpc_round_trip c s t config env handle handle' p reply_body b k bytes n i u o e a w x sent =
      let (o', (body, enc, req)) = begin_call-request base64 id payload c s t b k in
      let m = delivered s.request handle in
      let is_id = request-id c.config id body s.request req n in
      let is_url = request-reply_url c.config id body s.request req config handle o' o in
      let readable : decode_payload base64 m.body ≡ ok (span_bytes payload) =
        ap (decode_payload base64) (request-body c.config id body s.request req)
        ∙ (decode-encode_payload base64 rfc payload bytes enc).0 in
      let taken : Taken base64 config env m = record {
        request = span_bytes payload;
        result = p;
        readable = readable;
        processed = e;
        accepted = a;
      } in
      let fields =
        reply_request-fields config env (message_id m) (reply_url_of config m) reply_body in
      (
        reply_request config env (message_id m) (reply_url_of config m) reply_body,
        handle_message-replied base64 config env m taken reply_body o (λ h. i (sym is_id ∙ h))
            (λ h. u (sym is_url ∙ h)) x sent,
        fields.0 ∙ ap c_str is_url ∙ c_str-c_str c.config.reply_queue_url,
        fields.2 ∙ ap c_str is_id ∙ c_str-NoNul id n,
        ap (decode_payload base64) fields.1
            ∙ (decode-encode_payload base64 rfc (span (write_all [] p.writes)) w x).0,
      )
