-- ===== src/Kafka/Server/Messages.antt =====
-- What becomes of a request at the server of kafka/KafkaPlugin/KafkaServer.cpp.
use graftcode_extensions.Base.{
  ◌≡◌, ◌≢◌, subst, refl, ap, ◌∙◌, true, false, Option, none, some, List, [], ◌∷◌, Bytes, codes,
  is_empty, Exception, Result, ok, throw, Bool-cases, Result-cases, inl, inr,
}
use graftcode_extensions.Sqs.Codec.{span_bytes}
use graftcode_extensions.Sqs.Server.{Processed, write_all}
use graftcode_extensions.Kafka.Util.{HeaderLibrary, header_value}
use graftcode_extensions.Kafka.Config.{ServerConfig}
use graftcode_extensions.Kafka.Server.{
  Answers, KafkaMessage, Reply, Effect, publishes, flushes, commits, reply_of, publish_reply,
  after_publication, reply_and_commit, reply_topic_of, after_process, with_callback,
  handle_kafka_message,
}

module _ (library : HeaderLibrary) (config : ServerConfig) (m : KafkaMessage library)
    (answers : Answers) where
  open library use {Headers, create, add}

  -- The Gateway took the request.
  pub record Taken : Type 0 where
    pub process : Bytes → Result Processed
    pub result : Processed
    pub configured : answers.process ≡ some process
    pub processed : process (span_bytes m.payload) ≡ ok result
    pub accepted : result.accepted ≡ true

  -- Where the reply goes: to the topic that the request names, or, if it names none, to the
  -- configured one.
  pub data GoesTo (topic : Bytes) : Type 0 where
    named : header_value library m.headers (codes "reply-to") ≡ topic → topic ≢ [] → GoesTo topic
    configured :
        header_value library m.headers (codes "reply-to") ≡ []
        → config.reply_topic ≡ topic
        → GoesTo topic

  -- The reply's headers: the request's correlation id, unless it has none.
  pub data Names (headers : Headers) : Type 0 where
    with_id :
        (id : Bytes)
        → header_value library m.headers (codes "correlation-id") ≡ id
        → id ≢ []
        → headers ≡ add (codes "correlation-id") id create
        → Names headers
    without_id :
        header_value library m.headers (codes "correlation-id") ≡ []
        → headers ≡ create
        → Names headers

  pub record Replies (taken : Taken) (reply : Reply library) : Type 0 where
    pub goes_to : GoesTo reply.topic
    pub addressed : reply.topic ≢ []
    pub names : Names reply.headers
    pub holds : reply.payload ≡ write_all [] taken.result.writes

  -- How the handling of a message ends.
  pub data Ends (r : List (Effect library) × Result (Unit {0})) : Type 0 where
    unhandled : answers.process ≡ none → r ≡ (commits m ∷ [], ok tt) → Ends r
    thrown :
        (process : Bytes → Result Processed) (e : Exception)
        → answers.process ≡ some process
        → process (span_bytes m.payload) ≡ throw e
        → r ≡ ([], throw e)
        → Ends r
    rejected :
        (process : Bytes → Result Processed) (p : Processed)
        → answers.process ≡ some process
        → process (span_bytes m.payload) ≡ ok p
        → p.accepted ≡ false
        → r ≡ (commits m ∷ [], ok tt)
        → Ends r
    dropped : Taken → GoesTo [] → r ≡ (commits m ∷ [], ok tt) → Ends r
    unsent :
        (taken : Taken) (reply : Reply library) (text : Bytes) (e : Exception)
        → Replies taken reply
        → answers.refusal ≡ some text
        → r ≡ (publishes reply (some text) ∷ [], throw e)
        → Ends r
    replied :
        (taken : Taken) (reply : Reply library)
        → Replies taken reply
        → answers.refusal ≡ none
        → r ≡ (publishes reply none ∷ flushes answers.flush_error ∷ commits m ∷ [], ok tt)
        → Ends r

  abbrev id : Bytes
  id = header_value library m.headers (codes "correlation-id")

  abbrev topic : Bytes
  topic = reply_topic_of library config m

  is_empty-ne : (s : Bytes) → is_empty s ≡ false → s ≢ []
  is_empty-ne [] h e = absurd (cc)
  is_empty-ne (c ∷ s) h e = absurd (cc)

  is_empty-eq : (s : Bytes) → is_empty s ≡ true → s ≡ []
  is_empty-eq [] h = refl
  is_empty-eq (c ∷ s) h = absurd (cc)

  topic-GoesTo : GoesTo (reply_topic_of library config m)
  unfolding reply_topic_of
  topic-GoesTo = elim (Bool-cases (is_empty (header_value library m.headers (codes "reply-to")))) [
    | inl y ↦ configured (is_empty-eq _ y) (simp y)
    | inr n ↦ named (simp n) (subst (λ t. t ≢ []) (simp n) (is_empty-ne _ n))
  ]

  reply-Names : (to response : Bytes) → Names (reply_of library to id response).headers
  unfolding reply_of
  reply-Names to response = elim (Bool-cases (is_empty id)) [
    | inl y ↦ without_id (is_empty-eq _ y) (simp y)
    | inr n ↦ with_id id refl (is_empty-ne _ n) (simp n)
  ]

  reply-Replies :
      (taken : Taken)
      → is_empty topic ≡ false
      → Replies taken (reply_of library topic id (write_all [] taken.result.writes))
  reply-Replies taken n = record {
    goes_to = unfold reply_of in topic-GoesTo;
    addressed = unfold reply_of in is_empty-ne _ n;
    names = reply-Names topic (write_all [] taken.result.writes);
    holds = unfold reply_of in refl;
  }

  module _ (p : Processed) where
    rejected_lem :
        p.accepted ≡ false
        → after_process library config m answers.refusal answers.flush_error (ok p)
          ≡ (commits m ∷ [], ok tt)
    unfolding after_process
    rejected_lem h = simp h

    dropped_lem :
        p.accepted ≡ true
        → is_empty topic ≡ true
        → after_process library config m answers.refusal answers.flush_error (ok p)
          ≡ (commits m ∷ [], ok tt)
    unfolding after_process
    dropped_lem h k = simp (h, k)

    published_lem :
        p.accepted ≡ true
        → is_empty topic ≡ false
        → after_process library config m answers.refusal answers.flush_error (ok p)
          ≡ reply_and_commit library m
              (reply_of library topic id (write_all [] p.writes))
              answers.refusal
              answers.flush_error
    unfolding after_process
    published_lem h k = simp (h, k)

  module _ (taken : Taken) where
    published-Ends :
        (reply : Reply library) (o : Option Bytes)
        → Replies taken reply
        → answers.refusal ≡ o
        → Ends (reply_and_commit library m reply o answers.flush_error)
    unfolding reply_and_commit publish_reply after_publication
    published-Ends reply none r n = replied taken reply r n refl
    published-Ends reply (some e) r n = unsent taken reply e _ r n refl

    taken-Ends :
        Ends (after_process library config m answers.refusal answers.flush_error (ok taken.result))
    taken-Ends = elim (Bool-cases (is_empty topic)) [
      | inl y ↦
          rw (dropped_lem taken.result taken.accepted y)
            (dropped taken (subst GoesTo (is_empty-eq topic y) topic-GoesTo) refl)
      | inr n ↦
          rw (published_lem taken.result taken.accepted n)
            (published-Ends _ answers.refusal (reply-Replies taken n) refl)
    ]

  processed-Ends :
      (process : Bytes → Result Processed) (p : Processed)
      → answers.process ≡ some process
      → process (span_bytes m.payload) ≡ ok p
      → Ends (after_process library config m answers.refusal answers.flush_error (ok p))
  processed-Ends process p c e = elim (Bool-cases p.accepted) [
    | inl y ↦
        taken-Ends
          (record { process = process; result = p; configured = c; processed = e; accepted = y })
    | inr n ↦ rw (rejected_lem p n) (rejected process p c e n refl)
  ]

  configured-Ends :
      (process : Bytes → Result Processed)
      → answers.process ≡ some process
      → Ends (
          after_process library config m answers.refusal answers.flush_error
            (process (span_bytes m.payload)))
  configured-Ends process c = elim (Result-cases (process (span_bytes m.payload))) [
    | inl (p, e) ↦ rw e (processed-Ends process p c e)
    | inr (x, e) ↦ rw e (unfold after_process in thrown process x c e refl)
  ]

  with_callback-Ends :
      (o : Option (Bytes → Result Processed))
      → answers.process ≡ o
      → Ends (with_callback library config m answers.refusal answers.flush_error o)
  unfolding with_callback
  with_callback-Ends none n = unhandled n refl
  with_callback-Ends (some process) n = configured-Ends process n

  -- Every message ends in one of six ways. It is committed unless the Gateway threw or the reply was
  -- refused, and then the exception leaves the loop. A taken request is committed only after its
  -- reply was handed to `produce` and a flush was tried: to the topic that the request names, or the
  -- configured one if it names none, under its correlation id if it has one, with the bytes that the
  -- Gateway wrote last; where there is no such topic it is committed without a reply. A flush that
  -- fails does not keep the request from being committed.
  pub handle_kafka_message-Ends : Ends (handle_kafka_message library config m answers)
  unfolding handle_kafka_message
  handle_kafka_message-Ends = with_callback-Ends answers.process refl

  -- The way in which a request is answered.
  pub handle_kafka_message-replied :
      (taken : Taken)
      → is_empty topic ≡ false
      → answers.refusal ≡ none
      → handle_kafka_message library config m answers ≡ (
        publishes
              (reply_of library
                (reply_topic_of library config m)
                (header_value library m.headers (codes "correlation-id"))
                (write_all [] taken.result.writes))
              none
            ∷ flushes answers.flush_error
            ∷ commits m
            ∷ [],
        ok tt,
      )
  unfolding handle_kafka_message with_callback reply_and_commit publish_reply after_publication
  handle_kafka_message-replied taken t n =
      ap (with_callback library config m answers.refusal answers.flush_error) taken.configured
      ∙ ap (after_process library config m answers.refusal answers.flush_error) taken.processed
      ∙ published_lem taken.result taken.accepted t
      ∙ ap
          (λ o.
            reply_and_commit library m
              (reply_of library topic id (write_all [] taken.result.writes)) o answers.flush_error)
          n
