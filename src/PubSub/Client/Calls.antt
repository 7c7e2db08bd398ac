-- ===== src/PubSub/Client/Calls.antt =====
-- What PubSubClient::Call of pubsub/PubSubPlugin/PubSubClient.cpp has done when it comes to publish,
-- or throws before that, and what a failed publication leaves behind.
use graftcode_extensions.Base.{
  ◌≡◌, refl, sym, ap, ◌∙◌, true, false, ◌&&◌, none, some, arith, Bytes, codes, ltb, Exception,
  runtime_error, invalid_argument, Result, ok, throw, Bool-cases, inl, inr,
}
use graftcode_extensions.PendingReplies.{PendingReplies, Ticket, register}
use graftcode_extensions.PendingReplies.Isolation.{destroy-register}
use graftcode_extensions.Sqs.Codec.{Span, span_size, is_null}
use graftcode_extensions.PubSub.Session.{Failure, plain, Outcome, failed, gave}
use graftcode_extensions.PubSub.Session.Messages.{max_payload_bytes}
use graftcode_extensions.PubSub.Client.{
  PubSubClient, Creates, create_all, wanted, after_create, ensure_started, Publication, publication,
  with_ticket, prepare, begin_pubsub_call, drop_ticket, after_publish, attributes_for,
}

after_create-pending :
    (c : PubSubClient) (o : Outcome (Unit {0}))
    → ((after_create c o).0.pending ≡ c.pending) × ((after_create c o).0.config ≡ c.config)
unfolding after_create
after_create-pending c (failed e) = (refl, refl)
after_create-pending c (gave x) = (refl, refl)

ensure_started-pending :
    (service : Creates → Outcome (Unit {0})) (c : PubSubClient)
    → let r = (ensure_started service c).0 in (r.pending ≡ c.pending) × (r.config ≡ c.config)
unfolding ensure_started
ensure_started-pending service c =
    ground (arith, after_create-pending c (create_all service (wanted c.config)))

module _ (id : Bytes) (payload : Span) where
  -- What a call has done; `c` is the client once it is started.
  data Began (c : PubSubClient) (r : PubSubClient × Outcome Publication) : Type 0 where
    threw : (e : Failure) → r.1 ≡ failed e → r.0.pending.slots ≡ c.pending.slots → Began c r
    one_way :
        c.config.one_way ≡ true
        → r.0.pending.slots ≡ c.pending.slots
        → r.1 ≡ gave (publication c.config id payload none)
        → Began c r
    waits_on :
        (t : Ticket)
        → c.config.one_way ≡ false
        → register id c.pending ≡ (r.0.pending, ok t)
        → r.0.config ≡ c.config
        → r.1 ≡ gave (publication c.config id payload (some t))
        → Began c r

  register-throws :
      (s : PendingReplies) (e : Exception) → (register id s).1 ≡ throw e → (register id s).0 ≡ s
  unfolding register
  register-throws s e h = ground arith

  ticket-Began :
      (c : PubSubClient) (r : PendingReplies × Result Ticket)
      → c.config.one_way ≡ false
      → register id c.pending ≡ r
      → Began c (with_ticket c id payload r)
  unfolding with_ticket
  ticket-Began c (s, ok t) o h = waits_on t o h refl refl
  ticket-Began c (s, throw e) o h = threw (plain e) refl (
      ap (λ (s : PendingReplies). s.slots)
        (sym (ap (λ (r : PendingReplies × Result Ticket). r.0) h)
          ∙ register-throws c.pending e (ap (λ (r : PendingReplies × Result Ticket). r.1) h)))

  prepare_one_way :
      (c : PubSubClient)
      → c.config.one_way ≡ true
      → prepare id payload (c, gave tt) ≡ (c, gave (publication c.config id payload none))
  unfolding prepare
  prepare_one_way c o = simp o

  prepare_rpc :
      (c : PubSubClient)
      → c.config.one_way ≡ false
      → prepare id payload (c, gave tt) ≡ with_ticket c id payload (register id c.pending)
  unfolding prepare
  prepare_rpc c o = simp o

  prepare_started : (c : PubSubClient) → Began c (prepare id payload (c, gave tt))
  prepare_started c = elim (Bool-cases c.config.one_way) [
    | inl o ↦ rw (prepare_one_way c o) (one_way o refl refl)
    | inr o ↦ rw (prepare_rpc c o) (ticket-Began c (register id c.pending) o refl)
  ]

  prepare-Began : (c : PubSubClient) (o : Outcome (Unit {0})) → Began c (prepare id payload (c, o))
  prepare-Began c (failed e) = unfold prepare in threw e refl refl
  prepare-Began c (gave x) = prepare_started c

  module _ (service : Creates → Outcome (Unit {0})) where
    too_large :
        (c : PubSubClient)
        → ltb max_payload_bytes (span_size payload) ≡ true
        → begin_pubsub_call service id payload c ≡ (
          c,
          failed (
              plain
                (runtime_error (codes "Pub/Sub plugin: payload exceeds the 10 MiB Pub/Sub limit"))),
        )
    unfolding begin_pubsub_call
    too_large c h = simp h

    null_data :
        (c : PubSubClient)
        → ltb max_payload_bytes (span_size payload) ≡ false
        → (ltb 0 (span_size payload) && is_null payload) ≡ true
        → begin_pubsub_call service id payload c ≡ (
          c,
          failed (
              plain (invalid_argument (codes "Pub/Sub client: null payload with non-zero length"))),
        )
    unfolding begin_pubsub_call
    null_data c h n = simp (h, n)

    prepared :
        (c : PubSubClient)
        → ltb max_payload_bytes (span_size payload) ≡ false
        → (ltb 0 (span_size payload) && is_null payload) ≡ false
        → begin_pubsub_call service id payload c ≡ prepare id payload (ensure_started service c)
    unfolding begin_pubsub_call
    prepared c h n = simp (h, n)

    begin_pubsub_call-Began :
        (c : PubSubClient)
        → Began (ensure_started service c).0 (begin_pubsub_call service id payload c)
    begin_pubsub_call-Began c = elim (Bool-cases (ltb max_payload_bytes (span_size payload))) [
      | inl y ↦ rw (too_large c y) (threw _ refl (unchanged c))
      | inr n ↦ elim (Bool-cases (ltb 0 (span_size payload) && is_null payload)) [
        | inl y ↦ rw (null_data c n y) (threw _ refl (unchanged c))
        | inr m ↦ rw (prepared c n m) (prepare-Began (ensure_started service c).0 _)
      ]
    ]
      where
        unchanged :
            (c : PubSubClient) → c.pending.slots ≡ (ensure_started service c).0.pending.slots
        unchanged c =
            ap (λ (s : PendingReplies). s.slots) (sym (ensure_started-pending service c).0)

    failed-Began :
        (c : PubSubClient) (e : Failure) (r : PubSubClient × Outcome Publication)
        → r.1 ≡ failed e
        → Began c r
        → r.0.pending.slots ≡ c.pending.slots
    failed-Began c e r h (threw x y s) = s
    failed-Began c e r h (one_way o s x) = s
    failed-Began c e r h (waits_on t o g f x) = absurd (cc)

    unsent-Began :
        (c : PubSubClient) (p : Publication) (e : Failure) (r : PubSubClient × Outcome Publication)
        → r.1 ≡ gave p
        → Began c r
        → (after_publish p (failed e) r.0).0.pending.slots ≡ c.pending.slots
    unfolding after_publish drop_ticket publication
    unsent-Began c p e r h (threw x y s) = absurd (cc)
    unsent-Began c p e r h (one_way o s x) = ground arith
    unsent-Began c p e r h (waits_on t o g f x) =
        ground (arith, (destroy-register c.pending r.0.pending id t g).0)

    waiting-Began :
        (c : PubSubClient) (p : Publication) (t : Ticket) (r : PubSubClient × Outcome Publication)
        → r.1 ≡ gave p
        → p.ticket ≡ some t
        → Began c r
        → (register id c.pending ≡ (r.0.pending, ok t))
          × (p.payload ≡ payload)
          × (p.attributes ≡ attributes_for c.config id)
    unfolding publication
    waiting-Began c p t r h k (threw x y s) = absurd (cc)
    waiting-Began c p t r h k (one_way o s x) = absurd (ground arith)
    waiting-Began c p t r h k (waits_on u o g f x) = (ground arith, ground arith, ground arith)

    started_slots :
        (c : PubSubClient) → (ensure_started service c).0.pending.slots ≡ c.pending.slots
    started_slots c = ap (λ (s : PendingReplies). s.slots) (ensure_started-pending service c).0

    -- A call that throws leaves no entry behind: neither when it throws before it publishes, for its
    -- size, a null payload, a failed creation or a refused id, nor when its publication fails.
    pub pubsub_call_throws :
        (c : PubSubClient) (e : Failure)
        → ((begin_pubsub_call service id payload c).1 ≡ failed e
            → (begin_pubsub_call service id payload c).0.pending.slots ≡ c.pending.slots)
          × ((p : Publication)
              → (begin_pubsub_call service id payload c).1 ≡ gave p
              → let r = after_publish p (failed e) (begin_pubsub_call service id payload c).0 in
                (r.0.pending.slots ≡ c.pending.slots) × (r.1 ≡ failed e))
    pubsub_call_throws c e = (
      λ h. failed-Began _ e _ h (begin_pubsub_call-Began c) ∙ started_slots c,
      λ p h. (
        unsent-Began _ p e _ h (begin_pubsub_call-Began c) ∙ started_slots c,
        unfold after_publish in refl,
      ),
    )

    pub pubsub_call_waits :
        (c : PubSubClient) (p : Publication) (t : Ticket)
        → (begin_pubsub_call service id payload c).1 ≡ gave p
        → p.ticket ≡ some t
        → (register id c.pending ≡ ((begin_pubsub_call service id payload c).0.pending, ok t))
          × (p.payload ≡ payload)
          × (p.attributes ≡ attributes_for c.config id)
    pubsub_call_waits c p t h k =
        let (g, x, y) = waiting-Began _ p t _ h k (begin_pubsub_call-Began c) in
        let (same, config) = ensure_started-pending service c in
        (ap (register id) (sym same) ∙ g, x, y ∙ ap (λ u. attributes_for u id) config)
