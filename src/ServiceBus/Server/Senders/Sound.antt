-- ===== src/ServiceBus/Server/Senders/Sound.antt =====
-- What every publication keeps of ReplySenderCache of servicebus/ServiceBusPlugin/ServiceBusServer.cpp.
use graftcode_extensions.Base.{
  ℕ, ◌≡◌, ◌≢◌, refl, ap, ◌∙◌, sym, Bool, Option, none, some, List, [], ◌∷◌, arith, Bytes, find,
  find-erase, erase-Unique, Unique, bytes_eq, bytes_eq_iff, bytes_eq_refl, bytes_eq_ne, Bool-cases,
  inl, inr,
}
use graftcode_extensions.ServiceBus.Server.Senders.{
  ReplySenderCache, assign, emplace, evict, is_stale, open_sender, acquire_found, acquire, Attempt,
  try_send, publish_loop, publish,
}
use graftcode_extensions.ServiceBus.Server.Senders.Outcome.{
  find-assign, evicted, Publishes, publish-Publishes,
}

-- Each sender is on record once, with its last use.
pub record IsCache (c : ReplySenderCache) : Type 0 where
  pub senders_once : Unique c.senders
  pub uses_once : Unique c.last_used
  pub dated : (k : Bytes) → find k c.senders ≢ none → find k c.last_used ≢ none

-- What a change of one entity's sender leaves alone.
pub record OnlyAt (entity : Bytes) (c d : ReplySenderCache) : Type 0 where
  pub same_sender : (k : Bytes) → entity ≢ k → find k d.senders ≡ find k c.senders
  pub same_use : (k : Bytes) → entity ≢ k → find k d.last_used ≡ find k c.last_used

find-emplace :
    (k j : Bytes) (v : ℕ) (m : List (Bytes × ℕ)) → k ≢ j → find j (emplace k v m) ≡ find j m
unfolding emplace find
find-emplace k j v m n = ground (arith, bytes_eq_ne k j n)

assign-Unique : (k : Bytes) (v : ℕ) (m : List (Bytes × ℕ)) → Unique m → Unique (assign k v m)
unfolding assign
assign-Unique k v m u = (ground (arith, find-erase k k m, bytes_eq_refl k), erase-Unique k m u)

emplace-Unique : (k : Bytes) (v : ℕ) (m : List (Bytes × ℕ)) → Unique m → Unique (emplace k v m)
unfolding emplace
emplace-Unique k v m u = go (find k m) refl
  where
    go :
        (o : Option ℕ)
        → find k m ≡ o
        → Unique (elim o as (λ x. List (Bytes × ℕ)) [ none ↦ (k, v) ∷ m | some y ↦ m ])
    go none e = (e, u)
    go (some y) e = u

-- Where the cache changes at the entity only and is dated there, it stays a cache.
dated_at :
    (entity : Bytes) (c d : ReplySenderCache)
    → IsCache c
    → OnlyAt entity c d
    → (find entity d.senders ≢ none → find entity d.last_used ≢ none)
    → (k : Bytes) → find k d.senders ≢ none
    → find k d.last_used ≢ none
dated_at entity c d v o h k n e = elim (Bool-cases (bytes_eq entity k)) [
  | inl y ↦
      let same : entity ≡ k = (bytes_eq_iff entity k).0 y in
      h (λ x. n (ap (λ j. find j d.senders) (sym same) ∙ x)) (ap (λ j. find j d.last_used) same ∙ e)
  | inr m ↦
      let other : entity ≢ k = λ x. absurd (ground (arith, (bytes_eq_iff entity k).1 x)) in
      v.dated k (λ x. n (o.same_sender k other ∙ x)) (sym (o.same_use k other) ∙ e)
]

evict-OnlyAt : (entity : Bytes) (c : ReplySenderCache) → OnlyAt entity c (evict entity c)
unfolding evict
evict-OnlyAt entity c = record {
  same_sender = λ k n. ground (arith, find-erase entity k c.senders, bytes_eq_ne entity k n);
  same_use = λ k n. ground (arith, find-erase entity k c.last_used, bytes_eq_ne entity k n);
}

-- A step of the cache at one entity.
record Steps (entity : Bytes) (c d : ReplySenderCache) : Type 0 where
  only : OnlyAt entity c d
  valid : IsCache d

evict-Steps : (entity : Bytes) (c : ReplySenderCache) → IsCache c → Steps entity c (evict entity c)
evict-Steps entity c v = record {
  only = evict-OnlyAt entity c;
  valid = record {
    senders_once = unfold evict in erase-Unique entity c.senders v.senders_once;
    uses_once = unfold evict in erase-Unique entity c.last_used v.uses_once;
    dated =
        dated_at entity c (evict entity c) v (evict-OnlyAt entity c)
          (λ n. absurd (n (evicted entity c)));
  };
}

refl-Steps : (entity : Bytes) (c : ReplySenderCache) → IsCache c → Steps entity c c
refl-Steps entity c v = record {
  only = record { same_sender = λ k n. refl; same_use = λ k n. refl };
  valid = v;
}

trans-Steps :
    (entity : Bytes) (c d e : ReplySenderCache)
    → Steps entity c d
    → Steps entity d e
    → Steps entity c e
trans-Steps entity c d e p q = record {
  only = record {
    same_sender = λ k n. q.only.same_sender k n ∙ p.only.same_sender k n;
    same_use = λ k n. q.only.same_use k n ∙ p.only.same_use k n;
  };
  valid = q.valid;
}

used-Steps :
    (entity : Bytes) (at : ℕ) (c : ReplySenderCache)
    → IsCache c
    → Steps entity c (record c { last_used = assign entity at c.last_used })
used-Steps entity at c v =
    let only : OnlyAt entity c (record c { last_used = assign entity at c.last_used }) = record {
      same_sender = λ k n. refl;
      same_use = λ k n. ground (arith, find-assign entity k at c.last_used, bytes_eq_ne entity k n);
    } in
    record {
      only = only;
      valid = record {
        senders_once = v.senders_once;
        uses_once = assign-Unique entity at c.last_used v.uses_once;
        dated = dated_at entity c _ v only (λ n e. absurd (used e));
      };
    }
  where
    used : find entity (assign entity at c.last_used) ≢ none
    used e = ground (arith, find-assign entity entity at c.last_used, bytes_eq_refl entity)

open_sender-Steps :
    (entity : Bytes) (now : ℕ) (opened : Option ℕ) (c : ReplySenderCache)
    → IsCache c
    → Steps entity c (open_sender entity now opened c).0
unfolding open_sender
open_sender-Steps entity now none c v = refl-Steps entity c v
open_sender-Steps entity now (some fresh) c v =
    let added = record c { senders = emplace entity fresh c.senders } in
    let only : OnlyAt entity c (open_sender entity now (some fresh) c).0 = record {
      same_sender = λ k n. find-emplace entity k fresh c.senders n;
      same_use = (used-Steps entity now c v).only.same_use;
    } in
    record {
      only = only;
      valid = record {
        senders_once = emplace-Unique entity fresh c.senders v.senders_once;
        uses_once = assign-Unique entity now c.last_used v.uses_once;
        dated = dated_at entity c _ v only (λ n e. absurd (used e));
      };
    }
  where
    used : find entity (assign entity now c.last_used) ≢ none
    used e = ground (arith, find-assign entity entity now c.last_used, bytes_eq_refl entity)

acquire_found-Steps :
    (entity : Bytes) (now : ℕ) (opened : Option ℕ) (c : ReplySenderCache) (o : Option ℕ)
    → IsCache c
    → Steps entity c (acquire_found entity now opened c o).0
unfolding acquire_found
acquire_found-Steps entity now opened c none v = open_sender-Steps entity now opened c v
acquire_found-Steps entity now opened c (some sender) v =
    elim (Bool-cases (is_stale now (find entity c.last_used))) [
      | inr fresh ↦ rw (acquire_found, fresh) (refl-Steps entity c v)
      | inl stale ↦
          let s = evict-Steps entity c v in
          rw (acquire_found, stale)
            (trans-Steps entity c (evict entity c) _ s
              (open_sender-Steps entity now opened (evict entity c) s.valid))
    ]

try_send-Steps :
    (entity : Bytes) (a : Attempt) (r : ReplySenderCache × Option ℕ)
    → IsCache r.0
    → Steps entity r.0 (try_send entity a r).0
unfolding try_send
try_send-Steps entity a (c, none) v = refl-Steps entity c v
try_send-Steps entity a (c, some sender) v = elim (Bool-cases a.sent) [
  | inl y ↦ rw (try_send, y) (used-Steps entity a.sent_at c v)
  | inr n ↦ rw (try_send, n) (evict-Steps entity c v)
]

round-Steps :
    (entity : Bytes) (a : Attempt) (c : ReplySenderCache)
    → IsCache c
    → Steps entity c (try_send entity a (acquire entity a.now a.opened c)).0
unfolding acquire
round-Steps entity a c v =
    let s = acquire_found-Steps entity a.now a.opened c (find entity c.senders) v in
    trans-Steps entity c _ _ s (try_send-Steps entity a (acquire entity a.now a.opened c) s.valid)

looped :
    (entity : Bytes) (c : ReplySenderCache) (r : ReplySenderCache × Option Bool)
    (rest : ReplySenderCache × Bool)
    → Steps entity c r.0
    → Steps entity c rest.0
    → (o : Option Bool)
    → Steps entity c
        (elim o as (λ x. ReplySenderCache × Bool) [
          | some returned ↦ (r.0, returned)
          | none ↦ rest
        ]).0
looped entity c r rest s t none = t
looped entity c r rest s t (some returned) = s

publish_loop-Steps :
    (entity : Bytes) (attempts : List Attempt) (c : ReplySenderCache)
    → IsCache c
    → Steps entity c (publish_loop entity attempts c).0
unfolding publish_loop
publish_loop-Steps entity [] c v = refl-Steps entity c v
publish_loop-Steps entity (a ∷ attempts) c v =
    let r = try_send entity a (acquire entity a.now a.opened c) in
    let s = round-Steps entity a c v in
    looped entity c r (publish_loop entity attempts r.0) s
      (trans-Steps entity c r.0 _ s (publish_loop-Steps entity attempts r.0 s.valid)) r.1

-- Whatever the SDK answers and whatever the clock says: if the first or the second attempt sends
-- the response, the publication returns true and the cache holds the entity's sender with the time
-- of that use; otherwise it returns false and the cache holds no sender for the entity, so that the
-- next publication opens a new one. The senders of the other entities and their times are left
-- alone, and every sender that is held has a time of its last use.
pub publish-IsCache :
    (entity : Bytes) (first second : Attempt) (c : ReplySenderCache)
    → IsCache c
    → Publishes entity first second (publish entity first second c)
      × IsCache (publish entity first second c).0
      × OnlyAt entity c (publish entity first second c).0
unfolding publish
publish-IsCache entity first second c v =
    let s = publish_loop-Steps entity (first ∷ second ∷ []) c v in
    (publish-Publishes entity first second c, s.valid, s.only)
