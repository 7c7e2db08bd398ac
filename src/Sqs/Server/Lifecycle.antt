-- ===== src/Sqs/Server/Lifecycle.antt =====
-- start() and stop() of sqs/SqsPlugin/SqsServer.cpp as critical sections of two threads: the one
-- that runs start(), and any number of callers of stop() and configure().
use graftcode_extensions.Base.{
  ◌≡◌, refl, Bool, true, false, not, ◌||◌, ◌⊎◌, inl, Option, List, [], ◌∷◌, arith, if◌then◌else◌,
  Result, ok, throw, ◌>>=◌, ◌>>◌, throw_if, runtime_error, codes, Bytes,
}
use graftcode_extensions.Json.{JsonLibrary}
use graftcode_extensions.Sqs.Config.{
  SqsConfig, default_config, parse_sqs_config_source, validate_server_config,
}

-- Where the thread in start() is: before it, between its first lock and the publication of the
-- client, in the receive loop, and behind the loop.
pub data Phase : Type 0 where
  outside setup receiving leaving : Phase

-- `callback` is whether a callback was configured, `disabled` whether DisableRequestProcessing was
-- called on the active client, `disabling` whether a caller of stop() holds that client to call it,
-- and `asked` whether stop() took the lock since start() did. `asked` stands for no variable.
pub record SqsServer : Type 0 where
  pub config : SqsConfig
  pub callback : Bool
  pub active_client : Bool
  pub disabled : Bool
  pub disabling : Bool
  pub stop_requested : Bool
  pub running : Bool
  pub phase : Phase
  pub asked : Bool

abbrev pub new_server : SqsServer
new_server = record {
  config = default_config;
  callback = false;
  active_client = false;
  disabled = false;
  disabling = false;
  stop_requested = false;
  running = false;
  phase = outside;
  asked = false;
}

module _ (json : JsonLibrary) where
  -- A null callback is refused first, a running server last.
  unfoldable pub configure :
      (Bytes → Option Bytes) → Bytes → Bool → SqsServer → SqsServer × Result (Unit {0})
  configure read_file source null_callback s =
      let parsed = do
        throw_if null_callback
            (runtime_error (codes "SQS server: processMessage callback is required"))
        config ← parse_sqs_config_source json read_file source
        validate_server_config config
        throw_if s.running (runtime_error (codes "SQS server: cannot configure while running"))
        ok config
      in elim parsed [
        | throw e ↦ (s, throw e)
        | ok config ↦ (record s { config = config; callback = true }, ok tt)
      ]

-- What the threads do next. `sets_up` carries what the creation of the AWS client comes to, and
-- `crashes` is an exception that leaves the receive loop.
pub data Event : Type 0 where
  starts : Event
  sets_up : Result (Unit {0}) → Event
  checks : Event
  crashes : Event
  leaves : Event
  asks : Event
  disables : Event

-- The part of start() between its first lock and the publication of the client.
prepare : SqsServer → Result (Unit {0}) → Result (Unit {0})
prepare s made = do
  validate_server_config s.config
  throw_if (not s.callback)
      (runtime_error (codes "SQS server: processMessage callback is not configured"))
  made

publish : SqsServer → Result (Unit {0}) → SqsServer
publish s (ok _) = record s { active_client = true; disabled = s.stop_requested; phase = receiving }
publish s (throw _) = record s { phase = leaving }

set_up_in : Phase → SqsServer → Result (Unit {0}) → SqsServer
unfolding prepare publish
set_up_in setup s made = publish s (prepare s made)
set_up_in _ s made = s

leave_loop : Phase → Bool → SqsServer → SqsServer
leave_loop receiving true s = record s { phase = leaving }
leave_loop _ _ s = s

finish_in : Phase → SqsServer → SqsServer
finish_in leaving s = record s {
  active_client = false;
  disabled = false;
  disabling = false;
  running = false;
  phase = outside;
}
finish_in _ s = s

unfoldable pub step : SqsServer → Event → SqsServer
unfolding set_up_in leave_loop finish_in
step s starts =
    if s.running
    then s
    else record s { stop_requested = false; running = true; phase = setup; asked = false }
step s (sets_up made) = set_up_in s.phase s made
step s checks = leave_loop s.phase s.stop_requested s
step s crashes = leave_loop s.phase true s
step s leaves = finish_in s.phase s
step s asks = record s {
  stop_requested = true;
  disabling = s.active_client || s.disabling;
  asked = true;
}
step s disables = if s.disabling then record s { disabled = true; disabling = false } else s

unfoldable pub run : SqsServer → List Event → SqsServer
run s [] = s
run s (e ∷ es) = run (step s e) es

abbrev is_running : Phase → Bool
is_running outside = false
is_running _ = true

abbrev HasClient : Phase → Bool → Type 0
HasClient outside active = active ≡ false
HasClient setup active = active ≡ false
HasClient receiving active = active ≡ true
HasClient leaving active = Unit

pub record IsSound (s : SqsServer) : Type 0 where
  pub running_in : s.running ≡ is_running s.phase
  pub client_in : HasClient s.phase s.active_client
  pub stop_kept : (s.asked ≡ false) ⊎ (s.stop_requested ≡ true)
  pub interrupted :
      (not s.stop_requested || not s.active_client || s.disabled || s.disabling) ≡ true

set_up-IsSound :
    (s : SqsServer) (p : Phase) (made : Result (Unit {0}))
    → s.phase ≡ p
    → IsSound s
    → IsSound (set_up_in p s made)
unfolding set_up_in publish
set_up-IsSound s outside made e v = v
set_up-IsSound s setup made e v = ground arith
set_up-IsSound s receiving made e v = v
set_up-IsSound s leaving made e v = v

step-IsSound : (s : SqsServer) (e : Event) → IsSound s → IsSound (step s e)
unfolding step
step-IsSound s starts v = ground arith
step-IsSound s (sets_up made) v = set_up-IsSound s s.phase made refl v
step-IsSound s checks v = ground arith
step-IsSound s crashes v = ground arith
step-IsSound s leaves v = ground arith
step-IsSound s asks v = ground arith
step-IsSound s disables v = ground arith

pub new_server-IsSound : IsSound new_server
new_server-IsSound = record {
  running_in = refl;
  client_in = refl;
  stop_kept = inl refl;
  interrupted = refl;
}

-- Every interleaving of start() and stop() keeps the invariant, which a new server satisfies:
-- `running_` holds exactly while start() is under way; the client is published from its set-up to
-- the end of the loop; a stop() that takes the lock after start() did keeps the loop's flag set;
-- and once the flag is set, a client that is published is disabled or about to be.
pub run-IsSound : (s : SqsServer) (es : List Event) → IsSound s → IsSound (run s es)
unfolding run
run-IsSound s [] v = v
run-IsSound s (e ∷ es) v = run-IsSound (step s e) es (step-IsSound s e v)

-- In a state that the invariant allows, once stop() has taken its lock after the last start(),
-- three steps of the thread in start() suffice to end `running_`, which stop() waits for: wherever
-- that thread is, and whatever the creation of the client comes to.
pub stop_returns :
    (s : SqsServer) (made : Result (Unit {0}))
    → IsSound s
    → s.asked ≡ true
    → (run s (sets_up made ∷ checks ∷ leaves ∷ [])).running ≡ false
unfolding run step
stop_returns s made v h = ground arith
