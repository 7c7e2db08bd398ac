-- ===== src/PendingReplies/Delivery.antt =====
-- What a caller of PendingReplies.h can rely on, whatever the other threads do in between.
use graftcode_extensions.Base.{
  ◌≡◌, refl, ap, ◌∙◌, ◌≢◌, false, none, some, List, [], ◌∷◌, ◌++◌, arith, Bytes, bytes_eq_iff, find,
  All, ok,
}
use graftcode_extensions.PendingReplies.Outcome.{Status, status, absent, waiting, completed}
use graftcode_extensions.PendingReplies.Threads.{
  World, Op, registers, completes, fails, fails_all, closes, waits, drops, run, answer,
}
use graftcode_extensions.PendingReplies.Tickets.{Inv, run-Inv}
use graftcode_extensions.PendingReplies.Refinement.{
  Table, table_step, table_run, table_answer, view, run-view, answer-view,
}

-- The operations that leave a waiting request waiting.
abbrev pub Quiet : Bytes → Op → Type 0
Quiet id (registers j) = Unit
Quiet id (completes j p) = j ≢ id
Quiet id (fails j e) = j ≢ id
Quiet id (fails_all e) = ⊥
Quiet id (closes e) = ⊥
Quiet id (waits j) = Unit
Quiet id (drops j) = j ≢ id

-- The operations that are not the own caller's.
abbrev pub Foreign : Bytes → Op → Type 0
Foreign id (waits j) = j ≢ id
Foreign id (drops j) = j ≢ id
Foreign id _ = Unit

table_step-waiting :
    (id : Bytes) (t : Table) (op : Op)
    → Quiet id op
    → t.status_of id ≡ waiting
    → (table_step t op).status_of id ≡ waiting
unfolding table_step
table_step-waiting id t (registers j) q h = ground arith
table_step-waiting id t (completes j p) q h = ground (arith, bytes_eq_iff j id)
table_step-waiting id t (fails j e) q h = ground (arith, bytes_eq_iff j id)
table_step-waiting id t (fails_all e) q h = absurd q
table_step-waiting id t (closes e) q h = absurd q
table_step-waiting id t (waits j) q h = ground arith
table_step-waiting id t (drops j) q h = ground (arith, bytes_eq_iff j id)

table_run-waiting :
    (id : Bytes) (t : Table) (ops : List Op)
    → All (Quiet id) ops
    → t.status_of id ≡ waiting
    → (table_run t ops).status_of id ≡ waiting
unfolding table_run
table_run-waiting id t [] q h = h
table_run-waiting id t (op ∷ ops) q h =
    table_run-waiting id (table_step t op) ops q.1 (table_step-waiting id t op q.0 h)

table_step-completed :
    (id p : Bytes) (t : Table) (op : Op)
    → Foreign id op
    → t.status_of id ≡ completed p
    → (table_step t op).status_of id ≡ completed p
unfolding table_step
table_step-completed id p t (waits j) f h = ground (arith, bytes_eq_iff j id)
table_step-completed id p t (drops j) f h = ground (arith, bytes_eq_iff j id)
table_step-completed id p t _ f h = ground arith

table_run-completed :
    (id p : Bytes) (t : Table) (ops : List Op)
    → All (Foreign id) ops
    → t.status_of id ≡ completed p
    → (table_run t ops).status_of id ≡ completed p
unfolding table_run
table_run-completed id p t [] f h = h
table_run-completed id p t (op ∷ ops) f h =
    table_run-completed id p (table_step t op) ops f.1 (table_step-completed id p t op f.0 h)

answer-run :
    (w : World) (ops : List Op) (id : Bytes) {x : Status}
    → Inv w
    → (table_run (view w) ops).status_of id ≡ x
    → answer id (run w ops) ≡ table_answer x
answer-run w ops id v h =
    answer-view (run w ops) (run-Inv w ops v) id
    ∙ ap (λ (t : Table). table_answer (t.status_of id)) (run-view w ops v)
    ∙ ap table_answer h

abbrev pub session : Bytes → Bytes → List Op → List Op → List Op
session id p before after = registers id ∷ (before ++ completes id p ∷ after)

table_run-append :
    (t : Table) (xs ys : List Op) → table_run t (xs ++ ys) ≡ table_run (table_run t xs) ys
unfolding table_run
table_run-append t [] ys = refl
table_run-append t (op ∷ xs) ys = table_run-append (table_step t op) xs ys

table_session :
    (t : Table) (id p : Bytes) (before after : List Op)
    → t.shut ≡ none
    → t.status_of id ≡ absent
    → All (Quiet id) before
    → All (Foreign id) after
    → (table_run t (session id p before after)).status_of id ≡ completed p
unfolding table_run
table_session t id p before after o a q f =
    ap (λ (u : Table). u.status_of id)
      (table_run-append (table_step t (registers id)) before (completes id p ∷ after))
    ∙ table_run-completed id p _ after f (
        unfold table_step in
        ground
          (arith, bytes_eq_iff id id, table_run-waiting id (table_step t (registers id)) before q))

-- In a state that the invariant allows and that is not closed, a caller registers an id that nobody
-- uses; the threads then do anything that neither ends this request nor fails all or closes the
-- set; the consumer completes the id; the threads then do anything but the caller's own wait or the
-- end of its ticket, a second completion and a close included. The caller's wait gives the payload.
pub reply_delivered :
    (w : World) (id p : Bytes) (before after : List Op)
    → Inv w
    → w.replies.closed ≡ false
    → find id w.replies.slots ≡ none
    → All (Quiet id) before
    → All (Foreign id) after
    → answer id (run w (session id p before after)) ≡ some (ok (some p))
unfolding view status
reply_delivered w id p before after v o a q f =
    answer-run w (session id p before after) id v
      (table_session (view w) id p before after (rw o) (rw a) q f)
