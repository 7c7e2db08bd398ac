-- ===== src/RabbitMq/Stream.antt =====
-- The byte stream between a socket and AMQP-CPP in rabbitmq/RabbitmqPlugin/RabbitMqClient.cpp and
-- RabbitMqServer.cpp: the loops of `send`, and of `recv` and `parse`. AMQP-CPP's parser is a
-- parameter: how many bytes it takes of what it is given, which may depend on all it took before.
use graftcode_extensions.Base.{
  ℕ, zero, suc, ◌≡◌, refl, sym, ap, ◌∙◌, Bool, true, false, ◌||◌, List, [], ◌∷◌, ◌++◌, append_assoc,
  append-nil, Bytes, length, is_empty, take, drop, take-append-drop, ltb, ◌==◌, if◌then◌else◌,
  Bool-cases, inl, inr,
}

-- `taken` is what the parser has consumed, `pending` the `pendingBytes`.
pub record Stream : Type 0 where
  pub taken : Bytes
  pub pending : Bytes

abbrev pub Parser : Type 0
Parser = Bytes → Bytes → ℕ

-- The test that ends the inner loop.
unfoldable pub stops : ℕ → Bytes → Bool
stops parsed pending = parsed == 0 || ltb (length pending) parsed

unfoldable pub consume : ℕ → Stream → Stream
consume parsed s = record {
  taken = s.taken ++ take parsed s.pending;
  pending = drop parsed s.pending;
}

-- `while (!pendingBytes.empty())` on fuel; the loop does not read the socket.
unfoldable pub parse_fuel : ℕ → Parser → Stream → Stream
unfolding stops consume
parse_fuel zero parse s = s
parse_fuel (suc fuel) parse s =
    let parsed = parse s.taken s.pending in
    let rest = parse_fuel fuel parse (consume parsed s) in
    if is_empty s.pending || stops parsed s.pending then s else rest

-- Each round removes a byte at least, so the length is fuel enough.
unfoldable pub parse_loop : Parser → Stream → Stream
unfolding parse_fuel
parse_loop parse s = parse_fuel (length s.pending) parse s

-- The bytes of one `recv`, appended and parsed.
unfoldable pub receive_chunk : Parser → Stream → Bytes → Stream
unfolding parse_loop
receive_chunk parse s chunk = parse_loop parse (record s { pending = s.pending ++ chunk })

unfoldable pub receive_chunks : Parser → Stream → List Bytes → Stream
unfolding receive_chunk
receive_chunks parse s [] = s
receive_chunks parse s (chunk ∷ chunks) = receive_chunks parse (receive_chunk parse s chunk) chunks

-- The send loop of onData: what each `send` answers, and the bytes that went out; false where a
-- `send` gave no count above 0. A count is at most what was asked for.
unfoldable pub send_loop : List ℕ → Bytes → Bytes × Bool
send_loop sends [] = ([], true)
send_loop [] (b ∷ buffer) = ([], false)
send_loop (sent ∷ sends) (b ∷ buffer) =
    let rest = send_loop sends (drop sent (b ∷ buffer)) in
    if sent == 0 then ([], false) else (take sent (b ∷ buffer) ++ rest.0, rest.1)

-- The loop is done: nothing is pending, or the parser asks for more bytes.
pub record Settled (parse : Parser) (s : Stream) : Type 0 where
  pub ended : (is_empty s.pending || stops (parse s.taken s.pending) s.pending) ≡ true

parse_fuel_more :
    (fuel : ℕ) (parse : Parser) (s : Stream)
    → (is_empty s.pending || stops (parse s.taken s.pending) s.pending) ≡ false
    → parse_fuel (suc fuel) parse s ≡ parse_fuel fuel parse (consume (parse s.taken s.pending) s)
unfolding parse_fuel
parse_fuel_more fuel parse s h = simp h

parse_fuel_stop :
    (fuel : ℕ) (parse : Parser) (s : Stream)
    → (is_empty s.pending || stops (parse s.taken s.pending) s.pending) ≡ true
    → parse_fuel (suc fuel) parse s ≡ s
unfolding parse_fuel
parse_fuel_stop fuel parse s h = simp h

consume_bytes :
    (parsed : ℕ) (s : Stream)
    → (consume parsed s).taken ++ (consume parsed s).pending ≡ s.taken ++ s.pending
unfolding consume
consume_bytes parsed s =
    append_assoc s.taken (take parsed s.pending) (drop parsed s.pending)
    ∙ ap (λ (t : Bytes). s.taken ++ t) (take-append-drop parsed s.pending)

parse_fuel_bytes :
    (fuel : ℕ) (parse : Parser) (s : Stream)
    → (parse_fuel fuel parse s).taken ++ (parse_fuel fuel parse s).pending ≡ s.taken ++ s.pending
unfolding parse_fuel
parse_fuel_bytes zero parse s = refl
parse_fuel_bytes (suc fuel) parse s =
    elim (Bool-cases (is_empty s.pending || stops (parse s.taken s.pending) s.pending)) [
      | inl y ↦ rw (parse_fuel_stop fuel parse s y) refl
      | inr n ↦ rw (parse_fuel_more fuel parse s n) (
          parse_fuel_bytes fuel parse (consume (parse s.taken s.pending) s)
          ∙ consume_bytes (parse s.taken s.pending) s)
    ]

abbrev pub concat : List Bytes → Bytes
concat [] = []
concat (chunk ∷ chunks) = chunk ++ concat chunks

receive_chunk_bytes :
    (parse : Parser) (s : Stream) (chunk : Bytes)
    → let r = receive_chunk parse s chunk in r.taken ++ r.pending ≡ (s.taken ++ s.pending) ++ chunk
unfolding receive_chunk parse_loop
receive_chunk_bytes parse s chunk =
    parse_fuel_bytes _ parse (record s { pending = s.pending ++ chunk })
    ∙ sym (append_assoc s.taken s.pending chunk)

-- Whatever AMQP-CPP answers, no byte of the connection is lost, doubled or moved: after any number
-- of chunks, what was parsed and what is kept make up what was there and what was received.
pub receive_chunks_bytes :
    (parse : Parser) (s : Stream) (chunks : List Bytes)
    → let r = receive_chunks parse s chunks in
      r.taken ++ r.pending ≡ (s.taken ++ s.pending) ++ concat chunks
unfolding receive_chunks
receive_chunks_bytes parse s [] = sym (append-nil (s.taken ++ s.pending))
receive_chunks_bytes parse s (chunk ∷ chunks) =
    receive_chunks_bytes parse (receive_chunk parse s chunk) chunks
    ∙ ap (λ (t : Bytes). t ++ concat chunks) (receive_chunk_bytes parse s chunk)
    ∙ append_assoc (s.taken ++ s.pending) chunk (concat chunks)

-- The send loop sends the buffer from its start, in order; when it reports success it has sent all
-- of it, whatever the sizes of the single sends.
pub send_loop_prefix :
    (sends : List ℕ) (buffer : Bytes)
    → let r = send_loop sends buffer in
      ((rest : Bytes) × (buffer ≡ r.0 ++ rest)) × (r.1 ≡ true → r.0 ≡ buffer)
unfolding send_loop
send_loop_prefix sends [] = (([], refl), λ e. refl)
send_loop_prefix [] (b ∷ buffer) = ((b ∷ buffer, refl), λ e. absurd (cc))
send_loop_prefix (sent ∷ sends) (b ∷ buffer) = elim (Bool-cases (sent == 0)) [
  | inl y ↦ rw y ((b ∷ buffer, refl), λ e. absurd (cc))
  | inr n ↦
      let ((rest, split), whole) = send_loop_prefix sends (drop sent (b ∷ buffer)) in
      let joined = take-append-drop sent (b ∷ buffer) in
      rw n (
        (
          rest,
          sym joined
              ∙ ap (λ (t : Bytes). take sent (b ∷ buffer) ++ t) split
              ∙ sym (append_assoc (take sent (b ∷ buffer)) _ rest),
        ),
        λ e. ap (λ (t : Bytes). take sent (b ∷ buffer) ++ t) (whole e) ∙ joined,
      )
]
