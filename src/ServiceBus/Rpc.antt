-- ===== src/ServiceBus/Rpc.antt =====
-- A whole call over servicebus/ServiceBusPlugin: the client sends, the consumer answers, and the client
-- returns the answer.
use graftcode_extensions.Base.{
  ℕ, ◌≡◌, ◌≢◌, refl, ap, ◌∙◌, true, false, some, List, [], ◌∷◌, ◌++◌, append-nil, arith, Bytes,
  is_empty, All, Result, ok,
}
use graftcode_extensions.PendingReplies.{Ticket}
use graftcode_extensions.PendingReplies.Threads.{World}
use graftcode_extensions.PendingReplies.Tickets.{Inv}
use graftcode_extensions.Sqs.Codec.{span}
use graftcode_extensions.Sqs.Server.{Processed, write_all}
use graftcode_extensions.ServiceBus.Amqp.{
  AmqpMessage, string, extract_message_body, concat_sections, try_get_reply_to,
  try_get_reply_session_id, non_empty, filled, or_else, string_value,
}
use graftcode_extensions.ServiceBus.Client.{
  ServiceBusRpcClient, request_message, Meets, begin_service_bus_call, end_call, dispatch_replies,
  reply_name,
}
use graftcode_extensions.ServiceBus.Client
use graftcode_extensions.ServiceBus.Client.Calls.{service_bus_call_waits}
use graftcode_extensions.ServiceBus.Client.Replies.{named, service_bus_call_returns}
use graftcode_extensions.ServiceBus.Server.{
  ServiceBusServerConfig, is_one_way, response_message, publishes, reply_for, with_result,
  handle_service_bus_message,
}

-- The parts of a request that the consumer reads.
record Reads (m : AmqpMessage) (id payload entity session : Bytes) : Type 0 where
  body : extract_message_body m ≡ payload
  reply_to : try_get_reply_to m ≡ some entity
  session_id : try_get_reply_session_id m ≡ some session
  name : m.message_id ≡ string id

non_empty_lem : (value : Bytes) → value ≢ [] → non_empty value ≡ some value
unfolding non_empty
non_empty_lem [] n = absurd (n refl)
non_empty_lem (c ∷ value) n = refl

request-Reads :
    (c : ServiceBusRpcClient) (id payload : Bytes)
    → Client.is_one_way c.config ≡ false
    → c.config.reply_queue ≢ []
    → c.reply_session_id ≢ []
    → Reads (request_message c id payload) id payload c.config.reply_queue c.reply_session_id
unfolding request_message extract_message_body concat_sections try_get_reply_to
    try_get_reply_session_id filled or_else
request-Reads c id payload o q s = record {
  body = append-nil payload;
  reply_to = ground (arith, non_empty_lem c.config.reply_queue q);
  session_id = ground (arith, non_empty_lem c.reply_session_id s);
  name = refl;
}

response-named :
    (m : AmqpMessage) (id response : Bytes)
    → m.message_id ≡ string id
    → named (response_message m response) ≡ some id
unfolding response_message reply_name string_value
response-named m id response h = ground arith

response-body :
    (m : AmqpMessage) (response : Bytes)
    → extract_message_body (response_message m response) ≡ response
unfolding response_message extract_message_body concat_sections
response-body m response = append-nil response

answered :
    (server : ServiceBusServerConfig) (m : AmqpMessage) (p : Processed) (entity : Bytes)
    → p.accepted ≡ true
    → is_one_way server ≡ false
    → try_get_reply_to m ≡ some entity
    → reply_for server m p ≡ publishes entity (response_message m (write_all [] p.writes))
unfolding reply_for
answered server m p entity a o r = simp (a, o, r)

handled :
    (server : ServiceBusServerConfig) (process : Bytes → Result Processed) (m : AmqpMessage)
    (p : Processed) (request : Bytes)
    → extract_message_body m ≡ request
    → is_empty request ≡ false
    → process request ≡ ok p
    → handle_service_bus_message server (some process) m ≡ ok (reply_for server m p)
unfolding handle_service_bus_message with_result
handled server process m p request b n h = simp (b, n, h)

given : (s : Bytes) → s ≢ [] → is_empty s ≡ false
given [] n = absurd (n refl)
given (c ∷ s) n = refl

module _ (to_string : ℕ → Bytes) (meets : Meets) (id request : Bytes)
    (server : ServiceBusServerConfig) (process : Bytes → Result Processed) where
  -- A call over Service Bus with a request that is not empty, with a reply queue and a session id, to
  -- a consumer that is not one-way. The Gateway gets just the bytes of the call; if it takes them,
  -- the consumer publishes to the client's reply queue, for the client's session; and once the
  -- client receives that response, behind others, the call returns just what the Gateway wrote.
  pub service_bus_round_trip :
      (c : ServiceBusRpcClient) (w : World) (m : AmqpMessage) (t : Ticket) (p : Processed)
      (front back : List AmqpMessage)
      → Inv w
      → c.pending ≡ w.replies
      → (begin_service_bus_call meets id (span request) c).1 ≡ ok (m, some t)
      → request ≢ []
      → c.config.reply_queue ≢ []
      → c.reply_session_id ≢ []
      → is_one_way server ≡ false
      → process request ≡ ok p
      → p.accepted ≡ true
      → All (λ x. named x ≢ some id) front
      → (response : AmqpMessage) × (handle_service_bus_message server (some process) m
          ≡ ok (publishes c.config.reply_queue response))
        × (response.group_id ≡ some c.reply_session_id)
        × (let began = (begin_service_bus_call meets id (span request) c).0 in
            let now = record began {
              pending = dispatch_replies began.pending (front ++ response ∷ back);
            } in
            (end_call to_string id (some t) now).1 ≡ ok (write_all [] p.writes))
  service_bus_round_trip c w m t p front back v e b n q s o h a apart =
      let (rpc, _, same) = service_bus_call_waits meets id (span request) c m t b in
      let reads : Reads m id request c.config.reply_queue c.reply_session_id =
        rw same (request-Reads c id request rpc q s) in
      let response = response_message m (write_all [] p.writes) in
      let (returned, _) =
        service_bus_call_returns meets id (span request) to_string c w m t front back response v e b
          (response-named m id (write_all [] p.writes) reads.name) apart in
      (
        response,
        handled server process m p request reads.body (given request n) h
            ∙ ap ok (answered server m p c.config.reply_queue a o reads.reply_to),
        unfold response_message in reads.session_id,
        returned ∙ ap ok (response-body m (write_all [] p.writes)),
      )
