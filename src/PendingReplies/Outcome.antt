-- ===== src/PendingReplies/Outcome.antt =====
-- The abstract view of the pending replies: what each correlation id has come to. The heap of
-- shared slots is forgotten, and every operation acts on the view of one id or of all.
use graftcode_extensions.Base.{
  ℕ, ◌≡◌, refl, Bool, true, Option, none, some, List, [], ◌∷◌, arith, Bytes, length, get_elem?,
  modify, get_elem?-modify, find, bytes_eq, bytes_eq_iff, Option-cases, inl, inr, if◌then◌else◌,
  ◌==◌,
}
use graftcode_extensions.PendingReplies.{Slot, PendingReplies, finish, mark_all, mark_done}
use graftcode_extensions.PendingReplies.Invariant.{
  Below, Below-mono, IsValid, find-lt, find_injective,
}

pub data Status : Type 0 where
  absent : Status
  waiting : Status
  completed : Bytes → Status
  failed : Bytes → Status

unfoldable pub slot_status : Slot → Status
slot_status slot =
    if slot.done
    then (if slot.failed then failed slot.error else completed slot.payload)
    else waiting

unfoldable pub heap_slot : List Slot → ℕ → Status
unfolding slot_status
heap_slot heap r = elim (get_elem? heap r) [ none ↦ absent | some slot ↦ slot_status slot ]

abbrev pub heap_status : List Slot → Option ℕ → Status
heap_status heap none = absent
heap_status heap (some r) = heap_slot heap r

unfoldable pub status : Bytes → PendingReplies → Status
status id s = heap_status s.heap (find id s.slots)

-- The first outcome stands.
abbrev pub settle : Status → Status → Status
settle outcome waiting = outcome
settle outcome other = other

abbrev outcome_of : Bool → Bytes → Bytes → Status
outcome_of f payload error = if f then failed error else completed payload

-- Marking the slot `r` settles what is at `r`, and nothing else.
heap_status-modify :
    (heap : List Slot) (r : ℕ) (f : Bool) (p e : Bytes) (q : ℕ)
    → heap_status (modify heap r (mark_done f p e)) (some q) ≡ (
        if r == q
        then settle (outcome_of f p e) (heap_status heap (some q))
        else heap_status heap (some q))
unfolding heap_slot mark_done
heap_status-modify heap r f p e q = ground (arith, get_elem?-modify heap r q (mark_done f p e))

pub status-finish :
    (id : Bytes) (f : Bool) (p e : Bytes) (s : PendingReplies) (j : Bytes)
    → IsValid s
    → status j (finish id f p e s).0
      ≡ (if bytes_eq id j then settle (outcome_of f p e) (status j s) else status j s)
unfolding status finish
status-finish id f p e s j v = elim (Option-cases (find id s.slots)) [
  | inl n ↦ rw (n, finish) (ground (arith, bytes_eq_iff id j))
  | inr (r, n) ↦ elim (Option-cases (find j s.slots)) [
    | inl m ↦ ground (arith, bytes_eq_iff id j)
    | inr (q, m) ↦ ground (
      arith,
      bytes_eq_iff id j,
      heap_status-modify s.heap r f p e q,
      find_injective id j (length s.heap) s.slots {r = r} v.below,
    )
  ]
]

-- The slots of entries below `r` are other slots.
mark_all_above :
    (e : Bytes) (m : List (Bytes × ℕ)) (heap : List Slot) (r : ℕ)
    → Below r m
    → heap_status (mark_all e m heap) (some r) ≡ heap_status heap (some r)
unfolding mark_all
mark_all_above e [] heap r b = refl
mark_all_above e ((id, q) ∷ m) heap r b = ground (
  arith,
  mark_all_above e m (modify heap q (mark_done true [] e)) r,
  heap_status-modify heap q true [] e r,
  Below-mono {m = q} {n = r} m,
)

mark_all-settle :
    (e j : Bytes) (m : List (Bytes × ℕ)) (heap : List Slot) (n q : ℕ)
    → Below n m
    → find j m ≡ some q
    → heap_status (mark_all e m heap) (some q) ≡ settle (failed e) (heap_status heap (some q))
unfolding mark_all find
mark_all-settle e j [] heap n q b h = absurd (cc)
mark_all-settle e j ((id, r) ∷ m) heap n q b h = ground (
  arith,
  mark_all_above e m (modify heap r (mark_done true [] e)) r b.1,
  mark_all-settle e j m (modify heap r (mark_done true [] e)) r q b.1,
  heap_status-modify heap r true [] e q,
  find-lt j r m {r = q} b.1,
)

pub status-mark_all :
    (e j : Bytes) (s : PendingReplies)
    → IsValid s
    → heap_status (mark_all e s.slots s.heap) (find j s.slots) ≡ settle (failed e) (status j s)
unfolding status
status-mark_all e j s v = elim (Option-cases (find j s.slots)) [
  | inl n ↦ rw n refl
  | inr (q, n) ↦ rw n (mark_all-settle e j s.slots s.heap (length s.heap) q v.below n)
]
