-- ===== src/PendingReplies/Tickets.antt =====
-- The map's entries are those of the live tickets, in every interleaving of PendingReplies.h.
use graftcode_extensions.Base.{
  ℕ, ◌≡◌, refl, true, false, some, List, [], ◌∷◌, map, arith, Bytes, bytes_eq_iff, find, erase,
  Option-cases, inl, inr, All,
}
use mathlib.Core.Option
use graftcode_extensions.PendingReplies.{
  Ticket, register, finish, complete, fail, fail_all, close, remove, destroy, wait,
}
use graftcode_extensions.PendingReplies.Invariant.{
  IsValid, initial-IsValid, register-IsValid, finish-IsValid, fail_all-IsValid, close-IsValid,
  destroy-IsValid, wait-IsValid,
}
use graftcode_extensions.PendingReplies.Threads.{
  World, fresh, Op, registers, completes, fails, fails_all, closes, waits, drops, holder, without,
  step, run,
}

abbrev pub entry : Ticket → Bytes × ℕ
entry t = (t.id, t.slot)

pub record Inv (w : World) : Type 0 where
  pub valid : IsValid w.replies
  pub held : w.replies.slots ≡ map entry w.tickets
  pub owned : All (λ t. t.owner ≡ true) w.tickets

pub find-entry :
    (id : Bytes) (ts : List Ticket)
    → find id (map entry ts) ≡ Option.map (λ t. t.slot) (holder id ts)
unfolding find holder
find-entry id [] = refl
find-entry id (t ∷ ts) = ground (arith, find-entry id ts)

erase-entry : (id : Bytes) (ts : List Ticket) → erase id (map entry ts) ≡ map entry (without id ts)
unfolding erase without
erase-entry id [] = refl
erase-entry id (t ∷ ts) = ground (arith, erase-entry id ts)

pub holder_id : (id : Bytes) (ts : List Ticket) {t : Ticket} → holder id ts ≡ some t → t.id ≡ id
unfolding holder
holder_id id [] h = absurd (cc)
holder_id id (x ∷ ts) {t} h = ground (arith, bytes_eq_iff x.id id, holder_id id ts {t = t})

pub holder_owner :
    (id : Bytes) (ts : List Ticket) {t : Ticket}
    → All (λ t. t.owner ≡ true) ts
    → holder id ts ≡ some t
    → t.owner ≡ true
unfolding holder
holder_owner id [] a h = absurd (cc)
holder_owner id (x ∷ ts) {t} a h = ground (arith, holder_owner id ts {t = t} a.1)

without-owned :
    (id : Bytes) (ts : List Ticket)
    → All (λ t. t.owner ≡ true) ts
    → All (λ t. t.owner ≡ true) (without id ts)
unfolding without
without-owned id [] a = tt
without-owned id (x ∷ ts) a = ground (arith, without-owned id ts a.1)

pub fresh-Inv : Inv fresh
fresh-Inv = record { valid = initial-IsValid; held = refl; owned = tt }

registers-Inv : (w : World) (id : Bytes) → Inv w → Inv (step w (registers id))
unfolding step register
registers-Inv w id v = record {
  valid = register-IsValid id w.replies v.valid;
  held = ground arith;
  owned = ground arith;
}

drops-Inv : (w : World) (id : Bytes) → Inv w → Inv (step w (drops id))
unfolding step destroy remove
drops-Inv w id v = elim (Option-cases (holder id w.tickets)) [
  | inl n ↦ rw (n, step) v
  | inr (t, n) ↦
      rw (n, step)
        (record {
          valid = destroy-IsValid t w.replies v.valid;
          held = ground (
            arith,
            erase-entry id w.tickets,
            holder_id id w.tickets {t = t} n,
            holder_owner id w.tickets {t = t} v.owned n,
          );
          owned = without-owned id w.tickets v.owned;
        })
]

waits-Inv : (w : World) (id : Bytes) → Inv w → Inv (step w (waits id))
unfolding step
waits-Inv w id v = elim (Option-cases (holder id w.tickets)) [
  | inl n ↦ rw (n, step) v
  | inr (t, n) ↦
      rw (n, step)
        (record {
          valid = wait-IsValid t w.replies v.valid;
          held = unfold wait in ground arith;
          owned = v.owned;
        })
]

pub step-Inv : (w : World) (op : Op) → Inv w → Inv (step w op)
unfolding step complete fail fail_all close finish
step-Inv w (registers id) v = registers-Inv w id v
step-Inv w (completes id p) v = record {
  valid = finish-IsValid id false p [] w.replies v.valid;
  held = ground arith;
  owned = v.owned;
}
step-Inv w (fails id e) v = record {
  valid = finish-IsValid id true [] e w.replies v.valid;
  held = ground arith;
  owned = v.owned;
}
step-Inv w (fails_all e) v = record {
  valid = fail_all-IsValid e w.replies v.valid;
  held = v.held;
  owned = v.owned;
}
step-Inv w (closes e) v = record {
  valid = close-IsValid e w.replies v.valid;
  held = v.held;
  owned = v.owned;
}
step-Inv w (waits id) v = waits-Inv w id v
step-Inv w (drops id) v = drops-Inv w id v

-- Every run of operations keeps the invariant: the map's entries point into the heap, no two of
-- them have the same id, and they are exactly those of the live tickets, each of which owns its
-- entry.
pub run-Inv : (w : World) (ops : List Op) → Inv w → Inv (run w ops)
unfolding run
run-Inv w [] v = v
run-Inv w (op ∷ ops) v = run-Inv (step w op) ops (step-Inv w op v)
