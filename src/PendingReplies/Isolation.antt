-- ===== src/PendingReplies/Isolation.antt =====
-- Requests of PendingReplies.h do not disturb one another, and leave nothing behind.
use graftcode_extensions.Base.{
  ◌≡◌, refl, sym, ap, ◌∙◌, ◌≢◌, false, arith, Bytes, bytes_eq_iff, bytes_eq_refl, erase, find-erase,
  erase-none, ok,
}
use graftcode_extensions.PendingReplies.{
  PendingReplies, Ticket, register, complete, finish, destroy, remove, move_ticket,
}
use graftcode_extensions.PendingReplies.Threads.{
  World, Op, registers, completes, fails, fails_all, closes, waits, drops, step, answer,
}
use graftcode_extensions.PendingReplies.Tickets.{Inv, step-Inv}
use graftcode_extensions.PendingReplies.Refinement.{
  Table, table_step, table_answer, view, step-view, answer-view,
}

-- A request's id is free again after its ticket is gone, and the entries are what they were.
pub destroy-register :
    (s t : PendingReplies) (id : Bytes) (k : Ticket)
    → register id s ≡ (t, ok k)
    → ((destroy k t).slots ≡ s.slots) × ((p : Bytes) → (complete id p (destroy k t)).1 ≡ false)
unfolding register destroy remove erase complete finish
destroy-register s t id k h =
    ground (arith, bytes_eq_refl id, erase-none id s.slots, find-erase id id s.slots)

-- Moving a ticket moves the duty to remove the entry: the old and the new one together remove it
-- as often as one ticket does.
pub destroy-move_ticket :
    (t : Ticket) (s : PendingReplies)
    → destroy (move_ticket t).1 (destroy (move_ticket t).0 s) ≡ destroy t s
unfolding destroy move_ticket
destroy-move_ticket t s = refl

-- The operations on one id other than `id`.
abbrev pub Elsewhere : Bytes → Op → Type 0
Elsewhere id (registers j) = j ≢ id
Elsewhere id (completes j p) = j ≢ id
Elsewhere id (fails j e) = j ≢ id
Elsewhere id (fails_all e) = ⊥
Elsewhere id (closes e) = ⊥
Elsewhere id (waits j) = j ≢ id
Elsewhere id (drops j) = j ≢ id

table_step-Elsewhere :
    (id : Bytes) (t : Table) (op : Op)
    → Elsewhere id op
    → (table_step t op).status_of id ≡ t.status_of id
unfolding table_step
table_step-Elsewhere id t (registers j) h = ground (arith, bytes_eq_iff j id)
table_step-Elsewhere id t (completes j p) h = ground (arith, bytes_eq_iff j id)
table_step-Elsewhere id t (fails j e) h = ground (arith, bytes_eq_iff j id)
table_step-Elsewhere id t (fails_all e) h = absurd h
table_step-Elsewhere id t (closes e) h = absurd h
table_step-Elsewhere id t (waits j) h = ground (arith, bytes_eq_iff j id)
table_step-Elsewhere id t (drops j) h = ground (arith, bytes_eq_iff j id)

-- In a state that the invariant allows, an operation on another id does not change what a caller's
-- wait gives.
pub answer-step-Elsewhere :
    (w : World) (id : Bytes) (op : Op)
    → Inv w
    → Elsewhere id op
    → answer id (step w op) ≡ answer id w
answer-step-Elsewhere w id op v h =
    answer-view (step w op) (step-Inv w op v) id
    ∙ ap (λ (t : Table). table_answer (t.status_of id)) (step-view w v op)
    ∙ ap table_answer (table_step-Elsewhere id (view w) op h)
    ∙ sym (answer-view w v id)
