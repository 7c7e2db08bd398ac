-- ===== src/Kafka/Server/Manual.antt =====
-- The consumer of kafka/KafkaPlugin/KafkaServer.cpp commits by hand.
use graftcode_extensions.Base.{
  ◌≡◌, refl, sym, ◌∙◌, subst, true, false, Option, some, [], ◌∷◌, arith, String, Bytes, codes, find,
  bytes_eq, is_empty, Result, ok, throw, ◌>>◌, Bool-cases, >>=-eq-ok, inl, inr,
}
use graftcode_extensions.Kafka.Util.{Conf, set_conf_or_throw}
use graftcode_extensions.Kafka.Config.{ServerConfig, Security, apply_one, apply_security}
use graftcode_extensions.Kafka.Server.{
  Connection, setting, reply_producer, request_consumer, connect,
}

-- Commits are left to the program: the setting that was made last says so.
abbrev pub CommitsByHand : Conf → Type 0
CommitsByHand conf = find (codes "enable.auto.commit") conf ≡ some (codes "false")

>>-eq-ok {κ} :
    {Y : Type κ} (r : Result (Unit {0})) (rest : Result Y) {y : Y}
    → (r >> rest) ≡ ok y
    → rest ≡ ok y
>>-eq-ok (throw e) rest h = absurd (cc)
>>-eq-ok (ok x) rest h = h

module _ (set : Bytes → Bytes → Option Bytes) where
  -- A setting that librdkafka takes is put in front.
  set-eq-ok :
      (key value : Bytes) (conf : Conf) {c : Conf}
      → set_conf_or_throw set key value conf ≡ ok c
      → (key, value) ∷ conf ≡ c
  unfolding set_conf_or_throw
  set-eq-ok key value conf h = ground arith

  in_front :
      (key value : Bytes) (conf : Conf)
      → bytes_eq key (codes "enable.auto.commit") ≡ false
      → CommitsByHand conf
      → CommitsByHand ((key, value) ∷ conf)
  unfolding find
  in_front key value conf n h = ground (arith, n, h)

  set-keeps :
      (key value : Bytes) (conf : Conf) {c : Conf}
      → bytes_eq key (codes "enable.auto.commit") ≡ false
      → CommitsByHand conf
      → set_conf_or_throw set key value conf ≡ ok c
      → CommitsByHand c
  set-keeps key value conf n h e =
      subst CommitsByHand (set-eq-ok key value conf e) (in_front key value conf n h)

  apply_one-keeps :
      (key : String) (value : Bytes) (conf : Conf) {c : Conf}
      → bytes_eq (codes key) (codes "enable.auto.commit") ≡ false
      → CommitsByHand conf
      → apply_one set key value conf ≡ ok c
      → CommitsByHand c
  apply_one-keeps key value conf {c} n h e = elim (Bool-cases (is_empty value)) [
    | inl y ↦ subst CommitsByHand (ok_eq (sym (skipped y) ∙ e)) h
    | inr x ↦ set-keeps (codes key) value conf n h (sym (made x) ∙ e)
  ]
    where
      ok_eq : {a b : Conf} → Result.ok a ≡ ok b → a ≡ b
      ok_eq q = cc

      skipped : is_empty value ≡ true → apply_one set key value conf ≡ ok conf
      skipped y = unfold apply_one in simp y

      made :
          is_empty value ≡ false
          → apply_one set key value conf ≡ set_conf_or_throw set (codes key) value conf
      made x = unfold apply_one in simp x

  apply_security-keeps :
      (s : Security) (conf : Conf) {c : Conf}
      → CommitsByHand conf
      → apply_security set s conf ≡ ok c
      → CommitsByHand c
  unfolding apply_security bytes_eq codes
  apply_security-keeps s conf h e =
      let (x, p, f) = >>=-eq-ok (apply_one set "security.protocol" s.security_protocol conf) _ e in
      let (y, q, g) = >>=-eq-ok (apply_one set "sasl.mechanism" s.sasl_mechanism x) _ f in
      let (z, r, k) = >>=-eq-ok (apply_one set "sasl.username" s.sasl_username y) _ g in
      let (w, t, l) = >>=-eq-ok (apply_one set "sasl.password" s.sasl_password z) _ k in
      apply_one-keeps "ssl.ca.location" s.ssl_ca_location w refl
        (apply_one-keeps "sasl.password" s.sasl_password z refl
          (apply_one-keeps "sasl.username" s.sasl_username y refl
            (apply_one-keeps "sasl.mechanism" s.sasl_mechanism x refl
              (apply_one-keeps "security.protocol" s.security_protocol conf refl h p) q)
            r)
          t)
        l

module _ (answers : Connection) (config : ServerConfig) where
  by_hand : (conf : Conf) → CommitsByHand ((codes "enable.auto.commit", codes "false") ∷ conf)
  unfolding find bytes_eq codes
  by_hand conf = refl

  request_consumer-CommitsByHand :
      (consumer : Conf) → request_consumer answers config ≡ ok consumer → CommitsByHand consumer
  unfolding request_consumer setting bytes_eq codes
  request_consumer-CommitsByHand consumer h =
      let set = set_conf_or_throw answers.set in
      let (a, _, ra) = >>=-eq-ok (set (codes "bootstrap.servers") config.brokers []) _ h in
      let (b, _, rb) = >>=-eq-ok (set (codes "group.id") config.group_id a) _ ra in
      let (c, _, rc) =
        >>=-eq-ok (set (codes "client.id") (codes "graft-kafka-server-consumer") b) _ rb in
      let (d, ed, rd) = >>=-eq-ok (set (codes "enable.auto.commit") (codes "false") c) _ rc in
      let (e, ee, re) = >>=-eq-ok (set (codes "auto.offset.reset") (codes "earliest") d) _ rd in
      let (f, ef, rf) = >>=-eq-ok (set (codes "allow.auto.create.topics") (codes "true") e) _ re in
      let (g, eg, rg) = >>=-eq-ok (apply_security answers.set config.security f) _ rf in
      let last : Result.ok g ≡ ok consumer = >>-eq-ok _ _ (>>-eq-ok _ _ rg) in
      let manual : CommitsByHand d =
        subst CommitsByHand (set-eq-ok answers.set _ _ c ed) (by_hand c) in
      let reset = set-keeps answers.set _ _ d refl manual ee in
      let creates = set-keeps answers.set _ _ e refl reset ef in
      let same : g ≡ consumer = cc in
      subst CommitsByHand same (apply_security-keeps answers.set config.security f creates eg)

  -- The consumer of a connection that was made.
  pub connect-CommitsByHand :
      (producer consumer : Conf)
      → connect answers config ≡ ok (producer, consumer)
      → CommitsByHand consumer
  unfolding connect
  connect-CommitsByHand producer consumer h =
      let (p, _, rest) = >>=-eq-ok (reply_producer answers config) _ h in
      let (c, made, last) = >>=-eq-ok (request_consumer answers config) _ rest in
      let same : c ≡ consumer = cc in
      subst CommitsByHand same (request_consumer-CommitsByHand c made)
