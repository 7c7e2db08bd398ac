-- ===== src/PendingReplies/Shutdown.antt =====
-- What Close of PendingReplies.h leaves behind, whatever the threads do afterwards.
use graftcode_extensions.Base.{
  ◌≡◌, refl, sym, ap, subst, ◌∙◌, ◌≢◌, true, none, some, List, [], ◌∷◌, arith, Bytes, ok, throw,
  runtime_error,
}
use graftcode_extensions.PendingReplies.{register}
use graftcode_extensions.PendingReplies.Outcome.{Status, absent, waiting, completed, failed}
use graftcode_extensions.PendingReplies.Threads.{
  World, Op, registers, completes, fails, fails_all, closes, waits, drops, step, run, answer,
}
use graftcode_extensions.PendingReplies.Tickets.{Inv, step-Inv, run-Inv}
use graftcode_extensions.PendingReplies.Refinement.{
  Table, table_step, table_run, table_answer, view, step-view, run-view, answer-view,
}

abbrev IsShut : Table → Type 0
IsShut t = (t.shut ≢ none) × ((id : Bytes) → t.status_of id ≢ waiting)

table_step-IsShut : (t : Table) (op : Op) → IsShut t → IsShut (table_step t op)
unfolding table_step
table_step-IsShut t (registers j) h = (h.0, λ id. ground (arith, h.1 id))
table_step-IsShut t (completes j p) h = (h.0, λ id. ground (arith, h.1 id))
table_step-IsShut t (fails j e) h = (h.0, λ id. ground (arith, h.1 id))
table_step-IsShut t (fails_all e) h = (h.0, λ id. ground (arith, h.1 id))
table_step-IsShut t (closes e) h = ((λ e. cc), λ id. ground (arith, h.1 id))
table_step-IsShut t (waits j) h = (h.0, λ id. ground (arith, h.1 id))
table_step-IsShut t (drops j) h = (h.0, λ id. ground (arith, h.1 id))

table_run-IsShut : (t : Table) (ops : List Op) → IsShut t → IsShut (table_run t ops)
unfolding table_run
table_run-IsShut t [] h = h
table_run-IsShut t (op ∷ ops) h = table_run-IsShut (table_step t op) ops (table_step-IsShut t op h)

closes-IsShut : (t : Table) (e : Bytes) → IsShut (table_step t (closes e))
unfolding table_step
closes-IsShut t e = ((λ h. cc), λ id. ground arith)

IsShut-closed : (s : World) → IsShut (view s) → s.replies.closed ≡ true
unfolding view
IsShut-closed s h = ground (arith, h.0)

pub not-waiting : (x : Status) → x ≢ waiting → table_answer x ≢ some (ok none)
not-waiting absent h e = cc
not-waiting waiting h e = h refl
not-waiting (completed p) h e = cc
not-waiting (failed p) h e = cc

-- Once the set of a state that the invariant allows is closed, no caller waits any more and none
-- can begin to: after any further operations no wait ends in a timeout, and a registration throws.
pub closed_forever :
    (w : World) (e id : Bytes) (ops : List Op)
    → Inv w
    → let s = run (step w (closes e)) ops in
      (answer id s ≢ some (ok none))
      × ((x : Bytes) × ((register id s.replies).1 ≡ throw (runtime_error x)))
unfolding register
closed_forever w e id ops v =
    let s = run (step w (closes e)) ops in
    let u = step-Inv w (closes e) v in
    let shut : IsShut (view s) =
      subst IsShut
        (sym (
          run-view (step w (closes e)) ops u
          ∙ ap (λ t. table_run t ops) (step-view w v (closes e))))
        (table_run-IsShut _ ops (closes-IsShut (view w) e)) in
    (
      (λ h.
          not-waiting _ (shut.1 id)
            (sym (answer-view s (run-Inv (step w (closes e)) ops u) id) ∙ h)),
      (s.replies.closed_error, rw (IsShut-closed s shut, register) refl),
    )
