-- ===== src/ServiceBus/Server/Senders.antt =====
-- ReplySenderCache of servicebus/ServiceBusPlugin/ServiceBusServer.cpp. A sender is a number; whether
-- it opens and sends, and the clock in seconds, are arguments.
pub mod Outcome
pub mod Sound
use graftcode_extensions.Base.{
  ℕ, ◌-◌, ◌≡◌, ◌≢◌, refl, ap, ◌∙◌, sym, Bool, true, false, not, Option, none, some, List, [], ◌∷◌,
  arith, Bytes, find, erase, find-erase, erase-Unique, Unique, bytes_eq, bytes_eq_iff,
  bytes_eq_refl, bytes_eq_ne, ltb, if◌then◌else◌, Bool-cases, inl, inr,
}

-- `closed` lists the senders that were closed, the last one first.
pub record ReplySenderCache : Type 0 where
  pub senders : List (Bytes × ℕ)
  pub last_used : List (Bytes × ℕ)
  pub closed : List ℕ

abbrev pub empty_cache : ReplySenderCache
empty_cache = record { senders = []; last_used = []; closed = [] }

-- `map[key] = value`.
unfoldable pub assign : Bytes → ℕ → List (Bytes × ℕ) → List (Bytes × ℕ)
assign k v m = (k, v) ∷ erase k m

-- `map.emplace(key, value)`.
unfoldable pub emplace : Bytes → ℕ → List (Bytes × ℕ) → List (Bytes × ℕ)
emplace k v m = elim (find k m) [ none ↦ (k, v) ∷ m | some _ ↦ m ]

unfoldable pub close_found : Option ℕ → List ℕ → List ℕ
close_found none closed = closed
close_found (some s) closed = s ∷ closed

unfoldable pub evict : Bytes → ReplySenderCache → ReplySenderCache
unfolding close_found
evict entity c = record {
  senders = erase entity c.senders;
  last_used = erase entity c.last_used;
  closed = close_found (find entity c.senders) c.closed;
}

-- More than 5 minutes without use, or no use on record.
unfoldable pub is_stale : ℕ → Option ℕ → Bool
is_stale now none = true
is_stale now (some used) = ltb 300 (now - used)

-- `opened` is the new sender if its `Open` succeeds.
unfoldable pub open_sender : Bytes → ℕ → Option ℕ → ReplySenderCache → ReplySenderCache × Option ℕ
unfolding emplace assign
open_sender entity now none c = (c, none)
open_sender entity now (some fresh) c = (
  record c { senders = emplace entity fresh c.senders; last_used = assign entity now c.last_used },
  some fresh,
)

unfoldable pub acquire_found :
    Bytes → ℕ → Option ℕ → ReplySenderCache → Option ℕ → ReplySenderCache × Option ℕ
unfolding open_sender evict is_stale
acquire_found entity now opened c none = open_sender entity now opened c
acquire_found entity now opened c (some sender) =
    if not (is_stale now (find entity c.last_used))
    then (c, some sender)
    else open_sender entity now opened (evict entity c)

unfoldable pub acquire : Bytes → ℕ → Option ℕ → ReplySenderCache → ReplySenderCache × Option ℕ
unfolding acquire_found
acquire entity now opened c = acquire_found entity now opened c (find entity c.senders)

-- One round of the loop in `publish`.
pub record Attempt : Type 0 where
  pub now : ℕ
  pub opened : Option ℕ
  pub sent : Bool
  pub sent_at : ℕ

-- Behind `acquire`: what the loop returns, or none where it goes on.
unfoldable pub try_send :
    Bytes → Attempt → ReplySenderCache × Option ℕ → ReplySenderCache × Option Bool
unfolding assign evict
try_send entity a (c, none) = (c, some false)
try_send entity a (c, some sender) =
    if a.sent
    then (record c { last_used = assign entity a.sent_at c.last_used }, some true)
    else (evict entity c, none)

unfoldable pub publish_loop : Bytes → List Attempt → ReplySenderCache → ReplySenderCache × Bool
unfolding try_send acquire
publish_loop entity [] c = (c, false)
publish_loop entity (a ∷ attempts) c =
    let r = try_send entity a (acquire entity a.now a.opened c) in
    let rest = publish_loop entity attempts r.0 in
    elim r.1 [ some returned ↦ (r.0, returned) | none ↦ rest ]

-- The loop runs twice at most.
unfoldable pub publish : Bytes → Attempt → Attempt → ReplySenderCache → ReplySenderCache × Bool
unfolding publish_loop
publish entity first second c = publish_loop entity (first ∷ second ∷ []) c
