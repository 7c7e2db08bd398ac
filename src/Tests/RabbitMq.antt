-- ===== src/Tests/RabbitMq.antt =====
-- The RabbitMQ plugin on concrete inputs.
use graftcode_extensions.Base.{
  ℕ, ◌≡◌, ◌≢◌, refl, true, false, none, some, List, [], ◌∷◌, ◌++◌, arith, Bytes, codes, All, length,
  find, ltb, if◌then◌else◌, ok, Result,
}
use graftcode_extensions.PendingReplies.{Ticket, register}
use graftcode_extensions.PendingReplies.Threads.{fresh, fails_all, registers, step, answer}
use graftcode_extensions.PendingReplies.Tickets.{fresh-Inv}
use graftcode_extensions.Sqs.Codec.{span}
use graftcode_extensions.Sqs.Server.{Processed}
use graftcode_extensions.RabbitMq.Config.{default_client_config}
use graftcode_extensions.RabbitMq.Stream.{
  Parser, Stream, receive_chunk, receive_chunks, parse_loop, parse_fuel, consume, stops,
  receive_chunks_bytes,
}
use graftcode_extensions.RabbitMq.Client.{
  RabbitMqRpcClient, new_client, consumer_ready, Meets, Envelope, begin_rabbit_call, with_link,
  with_ticket, current_link, new_link, publish, published, Reply, receive_all, end_call,
}
use graftcode_extensions.RabbitMq.Client.Calls.{rabbit_call_returns}
use graftcode_extensions.RabbitMq.Client.Disconnects.{
  LinkWorld, LinkSteps, no_step, one_more, call_registers, call_publishes, io_marks, io_fails,
  publishing_done, all_failed, link_start, disconnect_answers,
}
use graftcode_extensions.RabbitMq.Relaxed.{normalize_relaxed_json, normalize_from}
use graftcode_extensions.RabbitMq.Address.{encode_uri_segment}
use graftcode_extensions.RabbitMq.Address.Segments.{
  decode_uri_segment, plain, IsSegmentByte, decode-encode_uri_segment,
}
use graftcode_extensions.RabbitMq.Server.{Delivery, Surroundings, on_delivery}
use graftcode_extensions.RabbitMq.Server.Deliveries.{Ends, on_delivery-Ends}

-- A parser of frames of two bytes.
abbrev pairs : Parser
pairs taken pending = if ltb (length pending) 2 then 0 else 2

abbrev start : Stream
start = record { taken = []; pending = [] }

parsed :
    receive_chunk pairs start (1 ∷ 2 ∷ 3 ∷ []) ≡ record { taken = 1 ∷ 2 ∷ []; pending = 3 ∷ [] }
unfolding receive_chunk parse_loop parse_fuel consume stops
parsed = refl

receive_chunks_bytes_example :
    let r = receive_chunks pairs start ((1 ∷ []) ∷ (2 ∷ 3 ∷ []) ∷ []) in
    r.taken ++ r.pending ≡ 1 ∷ 2 ∷ 3 ∷ []
receive_chunks_bytes_example = receive_chunks_bytes pairs start ((1 ∷ []) ∷ (2 ∷ 3 ∷ []) ∷ [])

-- {"a=b"=1}
abbrev parts : List (Bytes × Bytes)
parts = (b'{' ∷ [], b'a' ∷ b'=' ∷ b'b' ∷ []) ∷ []

-- A string that ends in a backslash, written `\\`, turns the strings behind it inside out.
spoiled :
    normalize_relaxed_json (codes "{\"a\":\"\\\\\",\"p\":\"x=y\"}")
    ≡ codes "{\"a\":\"\\\\\",\"p\":\"x:y\"}"
unfolding normalize_relaxed_json normalize_from codes
spoiled = refl

decode-encode_uri_segment_example :
    (decode_uri_segment plain (encode_uri_segment (b'a' ∷ b'/' ∷ [])) ≡ b'a' ∷ b'/' ∷ [])
    × All IsSegmentByte (encode_uri_segment (b'a' ∷ b'/' ∷ []))
decode-encode_uri_segment_example =
    decode-encode_uri_segment (b'a' ∷ b'/' ∷ []) (omega arith, (omega arith, tt))

abbrev echo : Bytes → Result Processed
echo request = ok (record { accepted = true; writes = span request ∷ [] })

abbrev delivery : Delivery
delivery = record {
  tag = 1;
  body = b'q' ∷ [];
  reply_to = some (b'r' ∷ []);
  correlation_id = some (b'i' ∷ []);
}

abbrev surroundings : Surroundings
surroundings = record { process = some echo; accepted = true }

on_delivery-Ends_example : Ends surroundings delivery (on_delivery surroundings delivery)
on_delivery-Ends_example = on_delivery-Ends surroundings delivery

abbrev to_string : ℕ → Bytes
to_string n = []

abbrev id : Bytes
id = b'i' ∷ []

abbrev client : RabbitMqRpcClient
client = new_client (record default_client_config { queue = b'q' ∷ [] })

abbrev meets : Meets
meets = record { attempt = consumer_ready (b'r' ∷ []); is_broken = false; accepted = true }

abbrev ticket : Ticket
ticket = record { owner = true; id = id; slot = 0 }

abbrev envelope : Envelope
envelope = record {
  routing_key = b'q' ∷ [];
  body = b'1' ∷ [];
  reply_to = b'r' ∷ [];
  correlation_id = id;
}

linked : (current_link to_string client meets.attempt client.link).0.pending ≡ fresh.replies
unfolding current_link new_link new_client
linked = refl

begun : (begin_rabbit_call to_string meets id (span (b'1' ∷ [])) client).1 ≡ ok (envelope, ticket)
unfolding begin_rabbit_call with_link with_ticket published publish current_link new_link new_client
    register find
begun = refl

abbrev reply : Reply
reply = record { tag = 2; correlation_id = some id; body = b'2' ∷ [] }

abbrev nameless : Reply
nameless = record { tag = 1; correlation_id = none; body = b'3' ∷ [] }

rabbit_call_returns_example :
    let began = (begin_rabbit_call to_string meets id (span (b'1' ∷ [])) client).0 in
    let now = record began { pending = (receive_all began.pending (nameless ∷ reply ∷ [])).1 } in
    let e = end_call to_string id ticket now in
    (e.1 ≡ ok (b'2' ∷ []))
    × (find id e.0.pending.slots ≡ none)
    × ((receive_all began.pending (nameless ∷ reply ∷ [])).0 ≡ 1 ∷ 2 ∷ [])
rabbit_call_returns_example =
    rabbit_call_returns to_string meets id (span (b'1' ∷ [])) client fresh envelope ticket
      (nameless ∷ []) [] reply fresh-Inv linked begun refl (((λ e. cc), tt))

took : (register id fresh.replies).1 ≡ ok ticket
unfolding register find
took = refl

abbrev error : Bytes
error = codes "RabbitMQ: connection lost"

abbrev disconnected_world : LinkWorld
disconnected_world = record {
  world = step (step fresh (registers id)) (fails_all error);
  caller = publishing_done;
  io = all_failed;
}

-- The call publishes first; then the I/O thread disconnects.
raced : LinkSteps id error (link_start fresh) disconnected_world
raced =
    one_more
      (one_more
        (one_more (one_more no_step (call_registers ticket refl took)) (call_publishes refl refl))
        (io_marks refl))
      (io_fails refl)

disconnect_answers_example : answer id disconnected_world.world ≢ some (ok none)
disconnect_answers_example =
    disconnect_answers id error fresh disconnected_world fresh-Inv raced refl refl
