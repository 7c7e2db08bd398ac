-- ===== src/Kafka/Client/Start.antt =====
-- How a client of kafka/KafkaPlugin/KafkaClient.cpp starts, and what a call leaves behind.
use graftcode_extensions.Base.{
  ℕ, ◌%◌, ◌^◌, ◌≡◌, refl, sym, ap, ◌∙◌, true, false, some, [], ◌∷◌, ◌++◌, arith, Bytes, codes,
  is_empty, length, length-append, Exception, Result, ok, throw, Bool-cases, Option-cases, inl, inr,
  append_assoc,
}
use graftcode_extensions.Base.Int.{ℤ}
use graftcode_extensions.Kafka.Util.{make_uuid_v4}
use graftcode_extensions.Kafka.Util.Uuid.{
  split_append, length-make_uuid_v4, make_uuid_v4-random_bits,
}
use graftcode_extensions.Kafka.Config.{ClientConfig}
use graftcode_extensions.Kafka.Client.{
  KafkaClient, Broker, new_client, make_producer, subscribe_and_dispatch, with_consumer,
  with_producer, ensure_started,
}

same_suffix : (x y u v : Bytes) → length u ≡ length v → x ++ u ≡ y ++ v → u ≡ v
same_suffix x y u v n e =
    let total : length (x ++ u) ≡ length (y ++ v) = ap length e in
    (split_append x y u v (omega (arith, total, n, length-append x u, length-append y v)) e).1

group_splits :
    (id : Bytes) (config : ClientConfig)
    → (front : Bytes) × ((new_client id config).consumer_group_id ≡ front ++ id)
unfolding new_client
group_splits id config = elim (Bool-cases (is_empty config.group_id)) [
  | inl y ↦ (codes "graft-client-", rw y refl)
  | inr n ↦ (config.group_id ++ b'-' ∷ [], rw n (sym (append_assoc config.group_id (b'-' ∷ []) id)))
]

-- Two clients join the same consumer group only if the random words of their ids agree in the 122
-- bits that go into them, whatever groups the configurations name.
pub new_client-random_bits :
    (a b c d : ℕ) (config config' : ClientConfig)
    → (new_client (make_uuid_v4 a b) config).consumer_group_id
      ≡ (new_client (make_uuid_v4 c d) config').consumer_group_id
    → (a % 2 ^ 60 ≡ c % 2 ^ 60) × (b % 2 ^ 62 ≡ d % 2 ^ 62)
new_client-random_bits a b c d config config' e =
    let (x, left) = group_splits (make_uuid_v4 a b) config in
    let (y, right) = group_splits (make_uuid_v4 c d) config' in
    make_uuid_v4-random_bits a b c d (
      same_suffix x y _ _ (length-make_uuid_v4 a b ∙ sym (length-make_uuid_v4 c d))
        (sym left ∙ e ∙ right))

module _ (to_string : ℤ → Bytes) (broker : Broker) where
  -- How an attempt to start ends.
  pub data Starts (c : KafkaClient) (r : KafkaClient × Result (Unit {0})) : Type 0 where
    runs : r.1 ≡ ok tt → r.0.started ≡ true → Starts c r
    fails : (e : Exception) → r.1 ≡ throw e → r.0.started ≡ c.started → Starts c r

  subscribe-Starts :
      (c d : KafkaClient)
      → d.started ≡ c.started
      → Starts c (subscribe_and_dispatch to_string broker d)
  unfolding subscribe_and_dispatch
  subscribe-Starts c d s = elim (Option-cases broker.subscribe) [
    | inl n ↦ rw n (runs refl refl)
    | inr (e, n) ↦ rw n (fails _ refl s)
  ]

  with_consumer-Starts :
      (c d : KafkaClient) (made : Result _)
      → d.started ≡ c.started
      → Starts c (with_consumer to_string broker d made)
  unfolding with_consumer
  with_consumer-Starts c d (throw e) s = fails e refl s
  with_consumer-Starts c d (ok conf) s = subscribe-Starts c (record d { consumer = some conf }) s

  with_producer-Starts :
      (c : KafkaClient) (made : Result _) → Starts c (with_producer to_string broker c made)
  unfolding with_producer
  with_producer-Starts c (throw e) = fails e refl refl
  with_producer-Starts c (ok conf) =
      with_consumer-Starts c (record c { producer = some conf }) _ refl

  ensure_started_again :
      (c : KafkaClient) → c.started ≡ true → ensure_started to_string broker c ≡ (c, ok tt)
  unfolding ensure_started
  ensure_started_again c y = simp y

  ensure_started_first :
      (c : KafkaClient)
      → c.started ≡ false
      → ensure_started to_string broker c
        ≡ with_producer to_string broker c (make_producer to_string broker c)
  unfolding ensure_started
  ensure_started_first c n = simp n

  -- A start that throws leaves the client as little started as it was, so that the next call tries
  -- again; one that returns leaves it running.
  pub ensure_started-Starts : (c : KafkaClient) → Starts c (ensure_started to_string broker c)
  ensure_started-Starts c = elim (Bool-cases c.started) [
    | inl y ↦ rw (ensure_started_again c y) (runs refl y)
    | inr n ↦ rw (ensure_started_first c n) (with_producer-Starts c _)
  ]

  with_consumer-pending :
      (d : KafkaClient) (made : Result _)
      → (with_consumer to_string broker d made).0.pending ≡ d.pending
  unfolding with_consumer subscribe_and_dispatch
  with_consumer-pending d (throw e) = refl
  with_consumer-pending d (ok conf) = elim (Option-cases broker.subscribe) [
    | inl n ↦ rw n refl
    | inr (e, n) ↦ rw n refl
  ]

  with_producer-pending :
      (d : KafkaClient) (made : Result _)
      → (with_producer to_string broker d made).0.pending ≡ d.pending
  unfolding with_producer
  with_producer-pending d (throw e) = refl
  with_producer-pending d (ok conf) = with_consumer-pending _ _

  pub ensure_started-pending :
      (c : KafkaClient) → (ensure_started to_string broker c).0.pending ≡ c.pending
  ensure_started-pending c = elim (Bool-cases c.started) [
    | inl y ↦ rw (ensure_started_again c y) refl
    | inr n ↦ rw (ensure_started_first c n) (with_producer-pending c _)
  ]
