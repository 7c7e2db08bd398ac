-- ===== src/ServiceBus/Server/Senders/Outcome.antt =====
-- What a publication of ReplySenderCache of servicebus/ServiceBusPlugin/ServiceBusServer.cpp comes to.
use graftcode_extensions.Base.{
  ℕ, ◌≡◌, refl, ◌∙◌, sym, Bool, true, false, Option, none, some, ◌⊎◌, List, arith, Bytes, find,
  find-erase, bytes_eq, bytes_eq_refl, if◌then◌else◌, Bool-cases, inl, inr,
}
use graftcode_extensions.ServiceBus.Server.Senders.{
  ReplySenderCache, assign, emplace, evict, is_stale, open_sender, acquire_found, acquire, Attempt,
  try_send, publish_loop, publish,
}

pub find-assign :
    (k j : Bytes) (v : ℕ) (m : List (Bytes × ℕ))
    → find j (assign k v m) ≡ (if bytes_eq k j then some v else find j m)
unfolding assign find
find-assign k j v m = ground (arith, find-erase k j m)

pub evicted : (entity : Bytes) (c : ReplySenderCache) → find entity (evict entity c).senders ≡ none
unfolding evict
evicted entity c = ground (arith, find-erase entity entity c.senders, bytes_eq_refl entity)

-- What `acquire` gives: a sender that the cache holds for the entity, or none where it holds none.
data Acquired (entity : Bytes) (opened : Option ℕ) (r : ReplySenderCache × Option ℕ) : Type 0 where
  has_sender : (s : ℕ) → r.1 ≡ some s → find entity r.0.senders ≡ some s → Acquired entity opened r
  has_none : r.1 ≡ none → opened ≡ none → find entity r.0.senders ≡ none → Acquired entity opened r

find-emplaced :
    (k : Bytes) (v : ℕ) (m : List (Bytes × ℕ)) → find k m ≡ none → find k (emplace k v m) ≡ some v
unfolding emplace find
find-emplaced k v m e = ground (arith, bytes_eq_refl k)

open_sender-Acquired :
    (entity : Bytes) (now : ℕ) (opened : Option ℕ) (c : ReplySenderCache)
    → find entity c.senders ≡ none
    → Acquired entity opened (open_sender entity now opened c)
unfolding open_sender
open_sender-Acquired entity now none c n = has_none refl refl n
open_sender-Acquired entity now (some fresh) c n =
    has_sender fresh refl (find-emplaced entity fresh c.senders n)

acquire_found-Acquired :
    (entity : Bytes) (now : ℕ) (opened : Option ℕ) (c : ReplySenderCache) (o : Option ℕ)
    → find entity c.senders ≡ o
    → Acquired entity opened (acquire_found entity now opened c o)
unfolding acquire_found
acquire_found-Acquired entity now opened c none e = open_sender-Acquired entity now opened c e
acquire_found-Acquired entity now opened c (some sender) e =
    elim (Bool-cases (is_stale now (find entity c.last_used))) [
      | inr fresh ↦ rw (acquire_found, fresh) (has_sender sender refl e)
      | inl stale ↦
          rw (acquire_found, stale)
            (open_sender-Acquired entity now opened (evict entity c) (evicted entity c))
    ]

evicted_use :
    (entity : Bytes) (c : ReplySenderCache) → find entity (evict entity c).last_used ≡ none
unfolding evict
evicted_use entity c = ground (arith, find-erase entity entity c.last_used, bytes_eq_refl entity)

-- The cache behind a response that went out: it holds the sender, with the time of this use.
pub record UsedAt (entity : Bytes) (at : ℕ) (c : ReplySenderCache) : Type 0 where
  pub sender : ℕ
  pub kept : find entity c.senders ≡ some sender
  pub used : find entity c.last_used ≡ some at

-- What one round of the loop comes to.
data Tried (entity : Bytes) (a : Attempt) (r : ReplySenderCache × Option Bool) : Type 0 where
  went_out : a.sent ≡ true → r.1 ≡ some true → UsedAt entity a.sent_at r.0 → Tried entity a r
  no_sender : a.opened ≡ none → r.1 ≡ some false → find entity r.0.senders ≡ none → Tried entity a r
  went_wrong :
      a.sent ≡ false
      → r.1 ≡ none
      → find entity r.0.senders ≡ none
      → find entity r.0.last_used ≡ none
      → Tried entity a r

module _ (entity : Bytes) (a : Attempt) (c : ReplySenderCache) (s : ℕ) where
  sent_lem :
      a.sent ≡ true
      → try_send entity a (c, some s)
        ≡ (record c { last_used = assign entity a.sent_at c.last_used }, some true)
  unfolding try_send
  sent_lem y = simp y

  unsent_lem : a.sent ≡ false → try_send entity a (c, some s) ≡ (evict entity c, none)
  unfolding try_send
  unsent_lem n = simp n

  send-Tried : find entity c.senders ≡ some s → Tried entity a (try_send entity a (c, some s))
  send-Tried e = elim (Bool-cases a.sent) [
    | inl y ↦ rw (sent_lem y) (
        went_out y refl (record {
          sender = s;
          kept = e;
          used =
              ground (arith, find-assign entity entity a.sent_at c.last_used, bytes_eq_refl entity);
        }))
    | inr n ↦ rw (unsent_lem n) (went_wrong n refl (evicted entity c) (evicted_use entity c))
  ]

try_send-Tried :
    (entity : Bytes) (a : Attempt) (c : ReplySenderCache) (o : Option ℕ)
    → Acquired entity a.opened (c, o)
    → Tried entity a (try_send entity a (c, o))
try_send-Tried entity a c none (has_sender s e f) = absurd (cc)
try_send-Tried entity a c none (has_none e f g) = unfold try_send in no_sender f refl g
try_send-Tried entity a c (some s) (has_none e f g) = absurd (cc)
try_send-Tried entity a c (some s) (has_sender u e f) = send-Tried entity a c s (f ∙ sym e)

round-Tried :
    (entity : Bytes) (a : Attempt) (c : ReplySenderCache)
    → Tried entity a (try_send entity a (acquire entity a.now a.opened c))
unfolding acquire
round-Tried entity a c =
    let r = acquire_found entity a.now a.opened c (find entity c.senders) in
    try_send-Tried entity a r.0 r.1
      (acquire_found-Acquired entity a.now a.opened c (find entity c.senders) refl)

-- How a publication ends.
pub data Publishes (entity : Bytes) (first second : Attempt) (r : ReplySenderCache × Bool)
    : Type 0 where
  sent_first :
      first.sent ≡ true
      → r.1 ≡ true
      → UsedAt entity first.sent_at r.0
      → Publishes entity first second r
  sent_second :
      first.sent ≡ false
      → second.sent ≡ true
      → r.1 ≡ true
      → UsedAt entity second.sent_at r.0
      → Publishes entity first second r
  not_sent :
      (first.opened ≡ none)
        ⊎ ((first.sent ≡ false) × ((second.opened ≡ none) ⊎ (second.sent ≡ false)))
      → r.1 ≡ false
      → find entity r.0.senders ≡ none
      → Publishes entity first second r

second-Publishes :
    (entity : Bytes) (first second : Attempt) (r : ReplySenderCache × Option Bool)
    → first.sent ≡ false
    → Tried entity second r
    → Publishes entity first second (elim r.1 as (λ x. ReplySenderCache × Bool) [
      | some returned ↦ (r.0, returned)
      | none ↦ (r.0, false)
    ])
second-Publishes entity first second (c, o) f (went_out y e u) = rw e (sent_second f y refl u)
second-Publishes entity first second (c, o) f (no_sender p e n) =
    rw e (not_sent (inr (f, inl p)) refl n)
second-Publishes entity first second (c, o) f (went_wrong p e n m) =
    rw e (not_sent (inr (f, inr p)) refl n)

first-Publishes :
    (entity : Bytes) (first second : Attempt) (r : ReplySenderCache × Option Bool)
    (rest : ReplySenderCache × Bool)
    → Tried entity first r
    → (first.sent ≡ false → Publishes entity first second rest)
    → Publishes entity first second (elim r.1 as (λ x. ReplySenderCache × Bool) [
      | some returned ↦ (r.0, returned)
      | none ↦ rest
    ])
first-Publishes entity first second (c, o) rest (went_out y e u) k = rw e (sent_first y refl u)
first-Publishes entity first second (c, o) rest (no_sender p e n) k = rw e (not_sent (inl p) refl n)
first-Publishes entity first second (c, o) rest (went_wrong p e n m) k = rw e (k p)

pub publish-Publishes :
    (entity : Bytes) (first second : Attempt) (c : ReplySenderCache)
    → Publishes entity first second (publish entity first second c)
unfolding publish publish_loop
publish-Publishes entity first second c =
    let r = try_send entity first (acquire entity first.now first.opened c) in
    first-Publishes entity first second r _ (round-Tried entity first c) (λ f.
      second-Publishes entity first second
        (try_send entity second (acquire entity second.now second.opened r.0)) f
        (round-Tried entity second r.0))
