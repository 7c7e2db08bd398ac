-- ===== src/PendingReplies/Dispatchers.antt =====
-- What a plugin's reply dispatcher promises to the callers that wait in PendingReplies.h, whatever
-- its events are.
use graftcode_extensions.Base.{
  ◌≡◌, refl, sym, ap, ◌∙◌, some, List, [], ◌∷◌, ◌++◌, arith, Bytes, find, find-erase, bytes_eq_refl,
  All, All-append, append_assoc, ok, none, true,
}
use graftcode_extensions.PendingReplies.{PendingReplies, Ticket, register, wait, destroy, remove}
use graftcode_extensions.PendingReplies.Threads.{
  World, Op, registers, completes, step, run, run-append,
}
use graftcode_extensions.PendingReplies.Tickets.{Inv}
use graftcode_extensions.PendingReplies.Delivery.{Quiet, Foreign, session}
use graftcode_extensions.PendingReplies.Holders.{ticket_delivered}

-- A dispatcher works off events; each is a list of operations, none of them a caller's own.
pub record Dispatcher (E : Type 0) : Type 0 where
  pub ops : E → List Op
  pub dispatch_all : PendingReplies → List E → PendingReplies
  pub none_left : (s : PendingReplies) → dispatch_all s [] ≡ s
  pub first_runs :
      (w : World) (e : E) (es : List E)
      → dispatch_all w.replies (e ∷ es) ≡ dispatch_all (run w (ops e)).replies es
  pub foreign : (id : Bytes) (e : E) → All (Foreign id) (ops e)

module _ {E : Type 0} (d : Dispatcher E) where
  open d use {ops, dispatch_all, none_left, first_runs, foreign}

  all_ops : List E → List Op
  all_ops [] = []
  all_ops (e ∷ es) = ops e ++ all_ops es

  dispatch_all-run :
      (w : World) (es : List E) → dispatch_all w.replies es ≡ (run w (all_ops es)).replies
  unfolding all_ops run
  dispatch_all-run w [] = none_left w.replies
  dispatch_all-run w (e ∷ es) =
      first_runs w e es
      ∙ dispatch_all-run (run w (ops e)) es
      ∙ ap (λ (u : World). u.replies) (sym (run-append w (ops e) (all_ops es)))

  all_ops-append : (xs ys : List E) → all_ops (xs ++ ys) ≡ all_ops xs ++ all_ops ys
  unfolding all_ops
  all_ops-append [] ys = refl
  all_ops-append (e ∷ xs) ys =
      ap (λ t. ops e ++ t) (all_ops-append xs ys)
      ∙ sym (append_assoc (ops e) (all_ops xs) (all_ops ys))

  all_ops-Quiet :
      (id : Bytes) (es : List E)
      → All (λ e. All (Quiet id) (ops e)) es
      → All (Quiet id) (all_ops es)
  unfolding all_ops
  all_ops-Quiet id [] a = tt
  all_ops-Quiet id (e ∷ es) a = All-append _ (ops e) (all_ops es) a.0 (all_ops-Quiet id es a.1)

  all_ops-Foreign : (id : Bytes) (es : List E) → All (Foreign id) (all_ops es)
  unfolding all_ops
  all_ops-Foreign id [] = tt
  all_ops-Foreign id (e ∷ es) =
      All-append _ (ops e) (all_ops es) (foreign id e) (all_ops-Foreign id es)

  session_ops :
      (w : World) (id p : Bytes) (front back : List E) (e : E)
      → ops e ≡ completes id p ∷ []
      → run (step w (registers id)) (all_ops (front ++ e ∷ back))
        ≡ run w (session id p (all_ops front) (all_ops back))
  unfolding run all_ops
  session_ops w id p front back e h = ap (run (step w (registers id))) (
      all_ops-append front (e ∷ back)
      ∙ ap (λ (o : List Op). all_ops front ++ (o ++ all_ops back)) h)

  -- A caller that registered an id and waits gets the payload of the first event that completes its
  -- id, as long as no earlier event ends the request; later events change nothing.
  pub dispatcher_delivers :
      (w : World) (id p : Bytes) (t : Ticket) (front back : List E) (e : E)
      → Inv w
      → (register id w.replies).1 ≡ ok t
      → ops e ≡ completes id p ∷ []
      → All (λ x. All (Quiet id) (ops x)) front
      → (wait t (dispatch_all (register id w.replies).0 (front ++ e ∷ back))).1 ≡ ok (some p)
  unfolding step
  dispatcher_delivers w id p t front back e v r h a =
      ap (λ (s : PendingReplies). (wait t s).1)
        (dispatch_all-run (step w (registers id)) (front ++ e ∷ back)
          ∙ ap (λ (u : World). u.replies) (session_ops w id p front back e h))
      ∙ ticket_delivered w id p (all_ops front) (all_ops back) t v r (all_ops-Quiet id front a)
          (all_ops-Foreign id back)

-- The ticket of a registration, and that its end leaves no entry.
pub registered_ticket :
    (id : Bytes) (s : PendingReplies) (t : Ticket)
    → (register id s).1 ≡ ok t
    → (t.id ≡ id) × (t.owner ≡ true)
unfolding register
registered_ticket id s t h = ground arith

pub destroy-gone :
    (id : Bytes) (s : PendingReplies) (t : Ticket)
    → (t.id ≡ id) × (t.owner ≡ true)
    → find id (destroy t s).slots ≡ none
unfolding destroy remove
destroy-gone id s t (i, o) = ground (arith, find-erase id id s.slots, bytes_eq_refl id)
