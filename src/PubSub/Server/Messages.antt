-- ===== src/PubSub/Server/Messages.antt =====
-- What becomes of a request at the server of pubsub/PubSubPlugin/PubSubServer.cpp.
use graftcode_extensions.Base.{
  ◌≡◌, ◌≢◌, ◌⊎◌, refl, sym, ap, ◌∙◌, arith, none, some, Option-cases, find, codes, true, false,
  List, [], ◌∷◌, Bytes, is_empty, Exception, Result, ok, throw, Bool-cases, inl, inr,
}
use graftcode_extensions.Sqs.Server.{Processed, write_all}
use graftcode_extensions.PubSub.Config.{PubSubConfig, is_valid_resource_id}
use graftcode_extensions.PubSub.Session.{Failure, plain, Outcome, failed, gave}
use graftcode_extensions.PubSub.Session.Messages.{PulledMessage}
use graftcode_extensions.PubSub.Client.{correlation_id_attribute, reply_to_attribute}
use graftcode_extensions.PubSub.Server.{
  value_or_empty, attribute, Effect, publishes, acknowledges, Surroundings, acknowledge_request,
  after_reply, reply_to_of, reply_and_acknowledge, after_process, unanswerable,
  handle_pubsub_message,
}
use graftcode_extensions.PubSub.Server.Escapes.{
  Escapes, after_failure-Escapes, after_acknowledge-Escapes, thrown-Escapes,
}

module _ (config : PubSubConfig) (env : Surroundings) (m : PulledMessage) where
  -- The Gateway took the request.
  pub record Taken : Type 0 where
    pub result : Processed
    pub processed : env.process m.message_data ≡ ok result
    pub accepted : result.accepted ≡ true

  -- The attributes that a request needs in order to be answered.
  pub record Answers (id topic : Bytes) : Type 0 where
    pub two_way : config.one_way ≡ false
    pub has_id : find (codes "correlationId") m.attributes ≡ some id
    pub filled_id : id ≢ []
    pub has_topic : find (codes "replyTo") m.attributes ≡ some topic
    pub valid_topic : is_valid_resource_id topic ≡ true

  -- A server that is not one-way cannot answer a request for one of four reasons.
  pub data Lacks : Type 0 where
    no_id : find (codes "correlationId") m.attributes ≡ none → Lacks
    empty_id : find (codes "correlationId") m.attributes ≡ some [] → Lacks
    no_topic : find (codes "replyTo") m.attributes ≡ none → Lacks
    invalid_topic :
        (topic : Bytes)
        → find (codes "replyTo") m.attributes ≡ some topic
        → is_valid_resource_id topic ≡ false
        → Lacks

  -- The reply: to that topic and under that id, what the Gateway wrote last.
  abbrev pub reply_to : Taken → Bytes → Bytes → Effect
  reply_to taken id topic =
      publishes topic (write_all [] taken.result.writes) ((codes "correlationId", id) ∷ [])
        env.published

  -- The acknowledgement: of this message, unless it has no ack id.
  pub data Acknowledges (r : List Effect × Result (Unit {0})) : Type 0 where
    no_ack_id : m.ack_id ≡ [] → r ≡ ([], ok tt) → Acknowledges r
    acked :
        m.ack_id ≢ []
        → r.0 ≡ acknowledges config.request_subscription (m.ack_id ∷ []) env.acknowledged ∷ []
        → Escapes env.acknowledged r.1
        → Acknowledges r

  -- How the handling of a message ends; only the last two acknowledge it.
  pub data Ends (r : List Effect × Result (Unit {0})) : Type 0 where
    left_unanswerable : config.one_way ≡ false → Lacks → r ≡ ([], ok tt) → Ends r
    threw :
        (e : Exception)
        → env.process m.message_data ≡ throw e
        → r.0 ≡ []
        → Escapes (failed (plain e)) r.1
        → Ends r
    refused :
        (p : Processed)
        → env.process m.message_data ≡ ok p
        → p.accepted ≡ false
        → r ≡ ([], ok tt)
        → Ends r
    unsent :
        (taken : Taken) (id topic : Bytes) (e : Failure)
        → Answers id topic
        → env.published ≡ failed e
        → r.0 ≡ reply_to taken id topic ∷ []
        → Escapes (failed e) r.1
        → Ends r
    replied :
        (taken : Taken) (id topic : Bytes) (acknowledged : List Effect × Result (Unit {0}))
        → Answers id topic
        → env.published ≡ gave tt
        → Acknowledges acknowledged
        → r ≡ (reply_to taken id topic ∷ acknowledged.0, acknowledged.1)
        → Ends r
    done : Taken → config.one_way ≡ true → Acknowledges r → Ends r

  -- What an attribute that is read as a text is.
  attribute-found :
      (name : Bytes)
      → ((find name m.attributes ≡ none) × (attribute m.attributes name ≡ []))
        ⊎ ((s : Bytes) × (find name m.attributes ≡ some s) × (attribute m.attributes name ≡ s))
  unfolding attribute value_or_empty
  attribute-found name = elim (Option-cases (find name m.attributes)) [
    | inl n ↦ inl (n, rw n refl)
    | inr (s, e) ↦ inr (s, e, rw e refl)
  ]

  reply_to-two_way :
      config.one_way ≡ false → reply_to_of config m ≡ attribute m.attributes reply_to_attribute
  unfolding reply_to_of
  reply_to-two_way o = simp o

  reply_to-one_way : config.one_way ≡ true → reply_to_of config m ≡ []
  unfolding reply_to_of
  reply_to-one_way o = simp o

  unanswerable_parts :
      unanswerable config m ≡ true
      → (config.one_way ≡ false)
        × ((is_empty (attribute m.attributes correlation_id_attribute) ≡ true)
            ⊎ (is_valid_resource_id (attribute m.attributes reply_to_attribute) ≡ false))
  unfolding unanswerable reply_to_of
  unanswerable_parts h =
      elim (Bool-cases (is_empty (attribute m.attributes correlation_id_attribute))) [
        | inl y ↦ (ground arith, inl y)
        | inr n ↦ (ground arith, inr (ground arith))
      ]

  answerable_parts :
      unanswerable config m ≡ false
      → config.one_way ≡ false
      → (is_empty (attribute m.attributes correlation_id_attribute) ≡ false)
        × (is_valid_resource_id (attribute m.attributes reply_to_attribute) ≡ true)
  unfolding unanswerable reply_to_of
  answerable_parts h o = (ground arith, ground arith)

  empty_eq : (s : Bytes) → is_empty s ≡ true → s ≡ []
  empty_eq [] h = refl
  empty_eq (c ∷ s) h = absurd (cc)

  full_ne : (s : Bytes) → is_empty s ≡ false → s ≢ []
  full_ne [] h e = absurd (cc)
  full_ne (c ∷ s) h e = absurd (cc)

  empty-invalid : is_valid_resource_id [] ≡ false
  unfolding is_valid_resource_id
  empty-invalid = refl

  unanswerable-Lacks : unanswerable config m ≡ true → (config.one_way ≡ false) × Lacks
  unanswerable-Lacks h =
      let (o, why) = unanswerable_parts h in
      (
        o,
        elim why [
          | inl y ↦ elim (attribute-found correlation_id_attribute) [
            | inl (n, e) ↦ no_id n
            | inr (s, f, e) ↦ empty_id (f ∙ ap (λ x. some x) (sym e ∙ empty_eq _ y))
          ]
          | inr n ↦ elim (attribute-found reply_to_attribute) [
            | inl (x, e) ↦ no_topic x
            | inr (s, f, e) ↦ invalid_topic s f (ap is_valid_resource_id (sym e) ∙ n)
          ]
        ],
      )

  answerable-Answers :
      unanswerable config m ≡ false
      → config.one_way ≡ false
      → Answers (attribute m.attributes correlation_id_attribute) (reply_to_of config m)
  answerable-Answers h o =
      let (full, valid) = answerable_parts h o in
      let topic = reply_to-two_way o in
      record {
        two_way = o;
        has_id = elim (attribute-found correlation_id_attribute) [
          | inl (n, e) ↦ absurd (full_ne _ full e)
          | inr (s, f, e) ↦ f ∙ ap (λ x. some x) (sym e)
        ];
        filled_id = full_ne _ full;
        has_topic = elim (attribute-found reply_to_attribute) [
          | inl (n, e) ↦ absurd (lone (sym empty-invalid ∙ ap is_valid_resource_id (sym e) ∙ valid))
          | inr (s, f, e) ↦ f ∙ ap (λ x. some x) (sym e ∙ sym topic)
        ];
        valid_topic = ap is_valid_resource_id topic ∙ valid;
      }
    where
      lone : false ≢ true
      lone e = cc

  reply_effect : Taken → Effect
  reply_effect taken =
      reply_to taken (attribute m.attributes correlation_id_attribute) (reply_to_of config m)

  request-Acknowledges : Acknowledges (acknowledge_request config env m)
  unfolding acknowledge_request
  request-Acknowledges = elim (Bool-cases (is_empty m.ack_id)) [
    | inl y ↦ no_ack_id (empty_eq m.ack_id y) (simp y)
    | inr n ↦ rw n (acked (full_ne m.ack_id n) refl (after_acknowledge-Escapes env.acknowledged))
  ]

  reply_lem :
      (response : Bytes)
      → is_empty (reply_to_of config m) ≡ false
      → reply_and_acknowledge config env m response
        ≡ after_reply config env m
            (publishes
              (reply_to_of config m)
              response
              ((correlation_id_attribute, attribute m.attributes correlation_id_attribute) ∷ [])
              env.published)
            env.published
  unfolding reply_and_acknowledge
  reply_lem response h = simp h

  quiet_lem :
      (response : Bytes)
      → is_empty (reply_to_of config m) ≡ true
      → reply_and_acknowledge config env m response ≡ acknowledge_request config env m
  unfolding reply_and_acknowledge
  quiet_lem response h = simp h

  accepted_lem :
      (p : Processed)
      → p.accepted ≡ true
      → after_process config env m (ok p)
        ≡ reply_and_acknowledge config env m (write_all [] p.writes)
  unfolding after_process
  accepted_lem p h = simp h

  refused_lem :
      (p : Processed) → p.accepted ≡ false → after_process config env m (ok p) ≡ ([], ok tt)
  unfolding after_process
  refused_lem p h = simp h

  published-Ends :
      (taken : Taken) (o : Outcome (Unit {0}))
      → Answers (attribute m.attributes correlation_id_attribute) (reply_to_of config m)
      → env.published ≡ o
      → Ends (after_reply config env m (reply_effect taken) o)
  unfolding after_reply reply_effect
  published-Ends taken (failed e) h k = unsent taken _ _ e h k refl (after_failure-Escapes e)
  published-Ends taken (gave x) h k = replied taken _ _ _ h k request-Acknowledges refl

  valid-full : (s : Bytes) → is_valid_resource_id s ≡ true → is_empty s ≡ false
  unfolding is_valid_resource_id
  valid-full [] h = absurd (cc)
  valid-full (c ∷ s) h = refl

  taken-Ends :
      (taken : Taken)
      → unanswerable config m ≡ false
      → Ends (after_process config env m (ok taken.result))
  unfolding reply_effect
  taken-Ends taken u =
      rw (accepted_lem taken.result taken.accepted) (elim (Bool-cases config.one_way) [
        | inl y ↦
            rw (quiet_lem (write_all [] taken.result.writes) (ap is_empty (reply_to-one_way y)))
              (done taken y request-Acknowledges)
        | inr n ↦
            let answers = answerable-Answers u n in
            rw (reply_lem (write_all [] taken.result.writes) (valid-full _ answers.valid_topic))
              (published-Ends taken env.published answers refl)
      ])

  processed-Ends :
      (r : Result Processed)
      → unanswerable config m ≡ false
      → env.process m.message_data ≡ r
      → Ends (after_process config env m r)
  processed-Ends (throw e) u h = unfold after_process in threw e h refl (thrown-Escapes e)
  processed-Ends (ok p) u h = elim (Bool-cases p.accepted) [
    | inl y ↦ taken-Ends (record { result = p; processed = h; accepted = y }) u
    | inr n ↦ rw (refused_lem p n) (refused p h n refl)
  ]

  unanswerable_lem : unanswerable config m ≡ true → handle_pubsub_message config env m ≡ ([], ok tt)
  unfolding handle_pubsub_message
  unanswerable_lem h = simp h

  answerable_lem :
      unanswerable config m ≡ false
      → handle_pubsub_message config env m ≡ after_process config env m (env.process m.message_data)
  unfolding handle_pubsub_message
  answerable_lem h = simp h

  -- Each request ends in one of six ways, and it is acknowledged in the last two only, if it has an
  -- ack id: the server is not one-way and the request has no correlation id or no valid topic to
  -- reply to; the callback threw; the callback refused it; the reply could not be published; the
  -- reply was published, to the topic and under the id in the request's attributes, with the bytes
  -- that the Gateway wrote last; or the server is one-way. The handler throws only what is no
  -- std::exception, thrown by the callback or by the session.
  pub handle_pubsub_message-Ends : Ends (handle_pubsub_message config env m)
  handle_pubsub_message-Ends = elim (Bool-cases (unanswerable config m)) [
    | inl y ↦
        let (o, lacks) = unanswerable-Lacks y in
        rw (unanswerable_lem y) (left_unanswerable o lacks refl)
    | inr n ↦ rw (answerable_lem n) (processed-Ends (env.process m.message_data) n refl)
  ]

  -- A request that the Gateway takes, with a topic to reply to and a reply that is published.
  pub replied_lem :
      (p : Processed)
      → unanswerable config m ≡ false
      → env.process m.message_data ≡ ok p
      → p.accepted ≡ true
      → is_empty (reply_to_of config m) ≡ false
      → env.published ≡ gave tt
      → (handle_pubsub_message config env m).0
        ≡ publishes
            (reply_to_of config m)
            (write_all [] p.writes)
            ((correlation_id_attribute, attribute m.attributes correlation_id_attribute) ∷ [])
            (gave tt)
          ∷ (acknowledge_request config env m).0
  unfolding after_reply
  replied_lem p u h a t s =
      ap (λ (r : List Effect × Result (Unit {0})). r.0)
        (answerable_lem u
          ∙ ap (after_process config env m) h
          ∙ accepted_lem p a
          ∙ reply_lem (write_all [] p.writes) t)
      ∙ rw s refl
