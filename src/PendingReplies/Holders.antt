-- ===== src/PendingReplies/Holders.antt =====
-- A ticket of PendingReplies.h stays with its caller until its destructor runs.
use graftcode_extensions.Base.{
  ◌≡◌, refl, ◌∙◌, ◌≢◌, false, Option, none, some, List, [], ◌∷◌, ◌++◌, arith, Bytes, bytes_eq_iff,
  bytes_eq_refl, find, Option-cases, inl, inr, All, All-append, Result, ok,
}
use graftcode_extensions.PendingReplies.{PendingReplies, Ticket, register, wait}
use graftcode_extensions.PendingReplies.Threads.{
  World, Op, registers, completes, fails, fails_all, closes, waits, drops, holder, without, step,
  run, answer,
}
use graftcode_extensions.PendingReplies.Tickets.{Inv, step-Inv}
use graftcode_extensions.PendingReplies.Refinement.{find-holder}
use graftcode_extensions.PendingReplies.Delivery.{Quiet, Foreign, session, reply_delivered}

-- Only the destructor of a ticket takes it from the live ones.
abbrev Stays : Bytes → Op → Type 0
Stays id (drops j) = j ≢ id
Stays id _ = Unit

holder-without :
    (id j : Bytes) (ts : List Ticket) → j ≢ id → holder id (without j ts) ≡ holder id ts
unfolding holder without
holder-without id j [] n = refl
holder-without id j (t ∷ ts) n =
    ground (arith, holder-without id j ts n, bytes_eq_iff t.id j, bytes_eq_iff t.id id)

holder-registers :
    (w : World) (id j : Bytes) (t : Ticket)
    → Inv w
    → holder id w.tickets ≡ some t
    → holder id (step w (registers j)).tickets ≡ some t
unfolding step register holder
holder-registers w id j t v h = ground (arith, find-holder w id v, bytes_eq_iff j id)

holder-step :
    (w : World) (id : Bytes) (op : Op) (t : Ticket)
    → Inv w
    → Stays id op
    → holder id w.tickets ≡ some t
    → holder id (step w op).tickets ≡ some t
unfolding step
holder-step w id (registers j) t v s h = holder-registers w id j t v h
holder-step w id (drops j) t v s h = elim (Option-cases (holder j w.tickets)) [
  | inl n ↦ rw (n, step) h
  | inr (u, n) ↦ rw (n, step) (holder-without id j w.tickets s ∙ h)
]
holder-step w id (waits j) t v s h = elim (Option-cases (holder j w.tickets)) [
  | inl n ↦ rw (n, step) h
  | inr (u, n) ↦ rw (n, step) h
]
holder-step w id (completes j p) t v s h = h
holder-step w id (fails j e) t v s h = h
holder-step w id (fails_all e) t v s h = h
holder-step w id (closes e) t v s h = h

holder-run :
    (w : World) (id : Bytes) (ops : List Op) (t : Ticket)
    → Inv w
    → All (Stays id) ops
    → holder id w.tickets ≡ some t
    → holder id (run w ops).tickets ≡ some t
unfolding run
holder-run w id [] t v s h = h
holder-run w id (op ∷ ops) t v s h =
    holder-run (step w op) id ops t (step-Inv w op v) s.1 (holder-step w id op t v s.0 h)

Quiet-Stays : (id : Bytes) (ops : List Op) → All (Quiet id) ops → All (Stays id) ops
Quiet-Stays id [] a = tt
Quiet-Stays id (drops j ∷ ops) a = (a.0, Quiet-Stays id ops a.1)
Quiet-Stays id (registers j ∷ ops) a = (tt, Quiet-Stays id ops a.1)
Quiet-Stays id (completes j p ∷ ops) a = (tt, Quiet-Stays id ops a.1)
Quiet-Stays id (fails j e ∷ ops) a = (tt, Quiet-Stays id ops a.1)
Quiet-Stays id (fails_all e ∷ ops) a = absurd a.0
Quiet-Stays id (closes e ∷ ops) a = absurd a.0
Quiet-Stays id (waits j ∷ ops) a = (tt, Quiet-Stays id ops a.1)

Foreign-Stays : (id : Bytes) (ops : List Op) → All (Foreign id) ops → All (Stays id) ops
Foreign-Stays id [] a = tt
Foreign-Stays id (drops j ∷ ops) a = (a.0, Foreign-Stays id ops a.1)
Foreign-Stays id (registers j ∷ ops) a = (tt, Foreign-Stays id ops a.1)
Foreign-Stays id (completes j p ∷ ops) a = (tt, Foreign-Stays id ops a.1)
Foreign-Stays id (fails j e ∷ ops) a = (tt, Foreign-Stays id ops a.1)
Foreign-Stays id (fails_all e ∷ ops) a = (tt, Foreign-Stays id ops a.1)
Foreign-Stays id (closes e ∷ ops) a = (tt, Foreign-Stays id ops a.1)
Foreign-Stays id (waits j ∷ ops) a = (tt, Foreign-Stays id ops a.1)

answer-wait :
    (w : World) (id : Bytes) (t : Ticket) {r : Result (Option Bytes)}
    → holder id w.tickets ≡ some t
    → answer id w ≡ some r
    → (wait t w.replies).1 ≡ r
unfolding answer
answer-wait w id t h e = ground arith

registered_holder :
    (w : World) (id : Bytes) (t : Ticket)
    → (register id w.replies).1 ≡ ok t
    → holder id (step w (registers id)).tickets ≡ some t
unfolding step register holder
registered_holder w id t r = ground (arith, bytes_eq_refl id)

free_id :
    (s : PendingReplies) (id : Bytes) (t : Ticket)
    → (register id s).1 ≡ ok t
    → (s.closed ≡ false) × (find id s.slots ≡ none)
unfolding register
free_id s id t r = ground arith

-- The same for the ticket that the registration returned.
pub ticket_delivered :
    (w : World) (id p : Bytes) (before after : List Op) (t : Ticket)
    → Inv w
    → (register id w.replies).1 ≡ ok t
    → All (Quiet id) before
    → All (Foreign id) after
    → (wait t (run w (session id p before after)).replies).1 ≡ ok (some p)
unfolding run
ticket_delivered w id p before after t v r q f =
    answer-wait (run w (session id p before after)) id t
      (holder-run (step w (registers id)) id (before ++ completes id p ∷ after) t
        (step-Inv w (registers id) v)
        (All-append _ before (completes id p ∷ after) (Quiet-Stays id before q)
          (tt, Foreign-Stays id after f))
        (registered_holder w id t r))
      (reply_delivered w id p before after v (free_id w.replies id t r).0
        (free_id w.replies id t r).1 q f)
