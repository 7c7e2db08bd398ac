-- ===== src/PendingReplies/Invariant.antt =====
-- What every state of the pending replies satisfies, and that each operation keeps it.
use graftcode_extensions.Base.{
  ℕ, ◌≤◌, ◌<◌, ◌≡◌, refl, Bool, true, some, List, [], ◌∷◌, arith, Bytes, length, modify,
  length-append, length-modify, find, erase, Unique, erase-Unique, bytes_eq_iff, Option-cases, inl,
  inr,
}
use graftcode_extensions.PendingReplies.{
  Slot, PendingReplies, Ticket, register, finish, mark_all, mark_done, fail_all, close, remove,
  destroy, wait, take_payload, initial, new_slot,
}

-- The newest entry comes first, so that slot indices fall along the list from the bound.
abbrev pub Below : ℕ → List (Bytes × ℕ) → Type 0
Below n [] = Unit {0}
Below n ((k, r) ∷ m) = (r < n) × Below r m

pub record IsValid (s : PendingReplies) : Type 0 where
  pub below : Below (length s.heap) s.slots
  pub unique : Unique s.slots

pub Below-mono : {m n : ℕ} (xs : List (Bytes × ℕ)) → m ≤ n → Below m xs → Below n xs
Below-mono [] h b = tt
Below-mono ((k, r) ∷ xs) h b = (omega arith, b.1)

erase-Below : (k : Bytes) (n : ℕ) (m : List (Bytes × ℕ)) → Below n m → Below n (erase k m)
unfolding erase
erase-Below k n [] b = tt
erase-Below k n ((j, r) ∷ m) b =
    ground (arith, erase-Below k r m b.1, Below-mono {m = r} {n = n} (erase k m))

pub find-lt :
    (k : Bytes) (n : ℕ) (m : List (Bytes × ℕ)) {r : ℕ} → Below n m → find k m ≡ some r → r < n
unfolding find
find-lt k n [] b e = absurd (cc)
find-lt k n ((j, q) ∷ m) {r} b e = ground (arith, find-lt k q m {r = r} b.1)

-- No two ids share a slot.
pub find_injective :
    (i j : Bytes) (n : ℕ) (m : List (Bytes × ℕ)) {r : ℕ}
    → Below n m
    → find i m ≡ some r
    → find j m ≡ some r
    → i ≡ j
unfolding find
find_injective i j n [] b e f = absurd (cc)
find_injective i j n ((k, q) ∷ m) {r} b e f = ground (
  arith,
  bytes_eq_iff k i,
  bytes_eq_iff k j,
  find-lt i q m {r = r} b.1,
  find-lt j q m {r = r} b.1,
  find_injective i j q m {r = r} b.1,
)

pub length-mark_all :
    (e : Bytes) (m : List (Bytes × ℕ)) (heap : List Slot) → length (mark_all e m heap) ≡ length heap
unfolding mark_all
length-mark_all e [] heap = refl
length-mark_all e ((id, r) ∷ m) heap = omega (
  arith,
  length-mark_all e m (modify heap r (mark_done true [] e)),
  length-modify heap r (mark_done true [] e),
)

pub initial-IsValid : IsValid initial
initial-IsValid = record { below = tt; unique = tt }

pub register-IsValid : (id : Bytes) (s : PendingReplies) → IsValid s → IsValid (register id s).0
unfolding register
register-IsValid id s v = ground (arith, length-append s.heap (new_slot ∷ []))

pub finish-IsValid :
    (id : Bytes) (failed : Bool) (p e : Bytes) (s : PendingReplies)
    → IsValid s
    → IsValid (finish id failed p e s).0
unfolding finish
finish-IsValid id failed p e s v = elim (Option-cases (find id s.slots)) [
  | inl n ↦ rw (n, finish) v
  | inr (r, n) ↦
      rw (n, finish)
        (record {
          below = rw (length-modify s.heap r (mark_done failed p e)) v.below;
          unique = v.unique;
        })
]

pub fail_all-IsValid : (e : Bytes) (s : PendingReplies) → IsValid s → IsValid (fail_all e s)
unfolding fail_all
fail_all-IsValid e s v = record {
  below = rw (length-mark_all e s.slots s.heap) v.below;
  unique = v.unique;
}

pub close-IsValid : (e : Bytes) (s : PendingReplies) → IsValid s → IsValid (close e s)
unfolding close
close-IsValid e s v = record {
  below = rw (length-mark_all e s.slots s.heap) v.below;
  unique = v.unique;
}

pub remove-IsValid : (id : Bytes) (s : PendingReplies) → IsValid s → IsValid (remove id s)
unfolding remove
remove-IsValid id s v = record {
  below = erase-Below id (length s.heap) s.slots v.below;
  unique = erase-Unique id s.slots v.unique;
}

pub destroy-IsValid : (t : Ticket) (s : PendingReplies) → IsValid s → IsValid (destroy t s)
unfolding destroy
destroy-IsValid t s v = ground (arith, remove-IsValid t.id s)

pub wait-IsValid : (t : Ticket) (s : PendingReplies) → IsValid s → IsValid (wait t s).0
unfolding wait
wait-IsValid t s v = ground (arith, length-modify s.heap t.slot take_payload)
