-- ===== src/PubSub/Server/Escapes.antt =====
-- What leaves HandleMessage of pubsub/PubSubPlugin/PubSubServer.cpp as an exception.
use graftcode_extensions.Base.{
  ℕ, Bytes, ◌≢◌, if◌then◌else◌, Exception, runtime_error, invalid_argument, other_std, unknown,
  Result, ok, throw,
}
use graftcode_extensions.PubSub.Session.{Failure, http_error, plain, Outcome, failed, gave}
use graftcode_extensions.PubSub.Server.{is_std, after_failure, after_acknowledge}

-- What the session or the callback answered, and how the handler then returns: it throws only what
-- is no std::exception.
pub data Escapes : Outcome (Unit {0}) → Result (Unit {0}) → Type 0 where
  well : (x : Unit {0}) → Escapes (gave x) (ok tt)
  http_caught : (status : ℕ) (body : Bytes) → Escapes (failed (http_error status body)) (ok tt)
  std_caught : (e : Exception) → e ≢ unknown → Escapes (failed (plain e)) (ok tt)
  escapes : Escapes (failed (plain unknown)) (throw unknown)

pub after_failure-Escapes : (e : Failure) → Escapes (failed e) (after_failure e)
unfolding after_failure is_std
after_failure-Escapes (http_error status body) = http_caught status body
after_failure-Escapes (plain (runtime_error t)) = std_caught (runtime_error t) (λ h. absurd (cc))
after_failure-Escapes (plain (invalid_argument t)) =
    std_caught (invalid_argument t) (λ h. absurd (cc))
after_failure-Escapes (plain (other_std t)) = std_caught (other_std t) (λ h. absurd (cc))
after_failure-Escapes (plain unknown) = escapes

pub after_acknowledge-Escapes : (o : Outcome (Unit {0})) → Escapes o (after_acknowledge o)
unfolding after_acknowledge
after_acknowledge-Escapes (gave x) = well x
after_acknowledge-Escapes (failed e) = after_failure-Escapes e

-- An exception of the callback.
pub thrown-Escapes :
    (e : Exception) → Escapes (failed (plain e)) (if is_std e then ok tt else throw e)
unfolding after_failure
thrown-Escapes e = after_failure-Escapes (plain e)
