-- ===== src/Kafka/Server/Sessions.antt =====
-- What a session of kafka/KafkaPlugin/KafkaServer.cpp has done when it ends.
use graftcode_extensions.Base.{
  ◌≡◌, refl, sym, ap, ◌∙◌, some, find, codes, List, [], ◌∷◌, ◌++◌, append_assoc, Exception, Result,
  ok, throw, All,
}
use graftcode_extensions.Kafka.Util.{HeaderLibrary, Conf}
use graftcode_extensions.Kafka.Config.{ServerConfig}
use graftcode_extensions.Kafka.Server.{
  Answers, Connection, connect, KafkaMessage, Effect, commits, Consumed, no_message, received,
  handle_kafka_message, handle, session, go_on, connected, attempt,
}
use graftcode_extensions.Kafka.Server.Manual.{connect-CommitsByHand}
use graftcode_extensions.Kafka.Server.Messages.{
  Ends, unhandled, thrown, rejected, dropped, unsent, replied, handle_kafka_message-Ends,
}

module _ (library : HeaderLibrary) (config : ServerConfig) where
  abbrev pub NotCommit : Effect library → Type 0
  NotCommit (commits m) = ⊥
  NotCommit _ = Unit

  -- Handled to the end, with these effects.
  pub record Handled (c : Consumed library) : Type 0 where
    pub effects : List (Effect library)
    pub returns : handle library config c ≡ (effects, ok tt)

  -- The effects of messages that were handled to the end, in order.
  abbrev pub effects_of : (cs : List (Consumed library)) → All Handled cs → List (Effect library)
  effects_of [] a = []
  effects_of (c ∷ cs) a = a.0.effects ++ effects_of cs a.1

  -- How a session ends: all messages were handled; or one threw, behind which none was touched.
  pub data Runs (cs : List (Consumed library)) (r : List (Effect library) × Result (Unit {0}))
      : Type 0 where
    all_handled : (a : All Handled cs) → r ≡ (effects_of cs a, ok tt) → Runs cs r
    broken :
        (front back : List (Consumed library)) (c : Consumed library) (a : All Handled front)
        (last : List (Effect library)) (e : Exception)
        → cs ≡ front ++ c ∷ back
        → handle library config c ≡ (last, throw e)
        → All NotCommit last
        → r ≡ (effects_of front a ++ last, throw e)
        → Runs cs r

  data Once (c : Consumed library) : Type 0 where
    completed : Handled c → Once c
    threw :
        (last : List (Effect library)) (e : Exception)
        → handle library config c ≡ (last, throw e)
        → All NotCommit last
        → Once c

  handle_received :
      (m : KafkaMessage library) (answers : Answers)
      → handle library config (received m answers) ≡ handle_kafka_message library config m answers
  unfolding handle
  handle_received m answers = refl

  message-Once :
      (m : KafkaMessage library) (answers : Answers)
      → Ends library config m answers (handle_kafka_message library config m answers)
      → Once (received m answers)
  message-Once m answers (unhandled n r) =
      completed (record { effects = _; returns = handle_received m answers ∙ r })
  message-Once m answers (thrown f e n x r) = threw [] e (handle_received m answers ∙ r) tt
  message-Once m answers (rejected f p n x y r) =
      completed (record { effects = _; returns = handle_received m answers ∙ r })
  message-Once m answers (dropped t n r) =
      completed (record { effects = _; returns = handle_received m answers ∙ r })
  message-Once m answers (unsent t reply text e p n r) =
      threw _ e (handle_received m answers ∙ r) (tt, tt)
  message-Once m answers (replied t reply p n r) =
      completed (record { effects = _; returns = handle_received m answers ∙ r })

  handle-Once : (c : Consumed library) → Once c
  handle-Once no_message = completed (record { effects = []; returns = unfold handle in refl })
  handle-Once (received m answers) =
      message-Once m answers (handle_kafka_message-Ends library config m answers)

  cons-Runs :
      (c : Consumed library) (cs : List (Consumed library)) (h : Handled c)
      (r : List (Effect library) × Result (Unit {0}))
      → Runs cs r
      → Runs (c ∷ cs) (go_on library (h.effects, ok tt) r)
  unfolding go_on
  cons-Runs c cs h r (all_handled a e) =
      all_handled (h, a) (ap (go_on library (h.effects, ok tt)) e)
  cons-Runs c cs h r (broken front back d a last x split stops quiet e) =
      broken (c ∷ front) back d (h, a) last x (ap (◌∷◌ c) split) stops quiet
        (ap (go_on library (h.effects, ok tt)) e
          ∙ ap (λ (t : List (Effect library)). (t, throw x))
              (sym (append_assoc h.effects (effects_of front a) last)))

  first-Runs :
      (c : Consumed library) (cs : List (Consumed library))
      (r : List (Effect library) × Result (Unit {0}))
      → Runs cs r
      → Once c
      → Runs (c ∷ cs) (go_on library (handle library config c) r)
  first-Runs c cs r runs (completed h) = rw h.returns (cons-Runs c cs h r runs)
  first-Runs c cs r runs (threw last e t quiet) =
      rw t (unfold go_on in broken [] cs c tt last e refl t quiet refl)

  session-Runs : (cs : List (Consumed library)) → Runs cs (session library config cs)
  unfolding session
  session-Runs [] = all_handled tt refl
  session-Runs (c ∷ cs) =
      first-Runs c cs (session library config cs) (session-Runs cs) (handle-Once c)

  -- How a round of the outer loop ends: with the exception of the connection, and nothing else done;
  -- or as the session does, with a consumer that commits by hand.
  pub data Attempts (answers : Connection) (cs : List (Consumed library))
      (r : List (Effect library) × Result (Unit {0})) : Type 0 where
    not_connected :
        (e : Exception)
        → connect answers config ≡ throw e
        → r ≡ ([], throw e)
        → Attempts answers cs r
    ran :
        (producer consumer : Conf)
        → connect answers config ≡ ok (producer, consumer)
        → find (codes "enable.auto.commit") consumer ≡ some (codes "false")
        → Runs cs r
        → Attempts answers cs r

  connected-Attempts :
      (answers : Connection) (made : Result (Conf × Conf)) (cs : List (Consumed library))
      → connect answers config ≡ made
      → Attempts answers cs (connected library config made cs)
  unfolding connected
  connected-Attempts answers (throw e) cs h = not_connected e h refl
  connected-Attempts answers (ok (producer, consumer)) cs h =
      ran producer consumer h (connect-CommitsByHand answers config producer consumer h)
        (session-Runs cs)

  -- An attempt either cannot connect, and does nothing but throw what that threw; or its consumer
  -- has automatic commits switched off and it handles the messages in order. Then every message was
  -- handled to its end; or one of them threw: all before it were handled, it was not committed
  -- itself, and no later one was touched, so that no commit passes over it.
  pub attempt-Runs :
      (answers : Connection) (cs : List (Consumed library))
      → Attempts answers cs (attempt library config answers cs)
  unfolding attempt
  attempt-Runs answers cs = connected-Attempts answers (connect answers config) cs refl
