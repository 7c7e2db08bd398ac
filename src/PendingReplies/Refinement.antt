-- ===== src/PendingReplies/Refinement.antt =====
-- PendingReplies.h as a table from correlation ids to outcomes: the heap of shared slots and the
-- map implement this specification, in every interleaving of the threads.
use mathlib.Core.Option
use graftcode_extensions.Base.{
  ◌≡◌, refl, ap, ◌∙◌, true, false, Option, none, some, List, [], ◌∷◌, arith, Bytes, length,
  get_elem?-modify, get_elem?-append_left, get_elem?-append_self, get_elem?-total, find, find-erase,
  bytes_eq, bytes_eq_iff, Option-cases, inl, inr, if◌then◌else◌, Result, ok, throw, runtime_error,
}
use graftcode_extensions.PendingReplies.{
  PendingReplies, Ticket, register, finish, complete, fail, fail_all, close, remove, destroy, wait,
  new_slot, take_payload,
}
use graftcode_extensions.PendingReplies.Invariant.{IsValid, find-lt, find_injective}
use graftcode_extensions.PendingReplies.Outcome.{
  Status, absent, waiting, completed, failed, status, heap_slot, slot_status, settle, status-finish,
  status-mark_all,
}
use graftcode_extensions.PendingReplies.Threads.{
  World, fresh, Op, registers, completes, fails, fails_all, closes, waits, drops, holder, step, run,
  answer,
}
use graftcode_extensions.PendingReplies.Tickets.{
  Inv, find-entry, holder_id, holder_owner, step-Inv, run-Inv, fresh-Inv,
}

pub record Table : Type 0 where
  pub status_of : Bytes → Status
  pub shut : Option Bytes

abbrev pub fresh_table : Table
fresh_table = record { status_of = λ _. absent; shut = none }

abbrev at_id : Bytes → (Status → Status) → (Bytes → Status) → Bytes → Status
at_id id f m j = if bytes_eq id j then f (m j) else m j

abbrev add_if_absent : Status → Status
add_if_absent absent = waiting
add_if_absent other = other

-- The payload is moved out once.
abbrev collect : Status → Status
collect (completed _) = completed []
collect other = other

abbrev table_register : Bytes → Option Bytes → (Bytes → Status) → Bytes → Status
table_register id none m = at_id id add_if_absent m
table_register id (some _) m = m

unfoldable pub table_step : Table → Op → Table
table_step t (registers id) = record t { status_of = table_register id t.shut t.status_of }
table_step t (completes id p) = record t { status_of = at_id id (settle (completed p)) t.status_of }
table_step t (fails id e) = record t { status_of = at_id id (settle (failed e)) t.status_of }
table_step t (fails_all e) = record t { status_of = λ j. settle (failed e) (t.status_of j) }
table_step t (closes e) = record {
  status_of = λ j. settle (failed e) (t.status_of j);
  shut = some e;
}
table_step t (waits id) = record t { status_of = at_id id collect t.status_of }
table_step t (drops id) = record t { status_of = at_id id (λ _. absent) t.status_of }

unfoldable pub table_run : Table → List Op → Table
table_run t [] = t
table_run t (op ∷ ops) = table_run (table_step t op) ops

-- What a caller's `Wait` gives.
abbrev pub table_answer : Status → Option (Result (Option Bytes))
table_answer absent = none
table_answer waiting = some (ok none)
table_answer (completed p) = some (ok (some p))
table_answer (failed e) = some (throw (runtime_error e))

abbrev closed_with : PendingReplies → Option Bytes
closed_with s = if s.closed then some s.closed_error else none

unfoldable pub view : World → Table
view w = record { status_of = λ j. status j w.replies; shut = closed_with w.replies }

table-eq : (t u : Table) → ((j : Bytes) → t.status_of j ≡ u.status_of j) → t.shut ≡ u.shut → t ≡ u
table-eq t u h e = λ i. record { status_of = λ j. h j i; shut = e i }

pub find-holder :
    (w : World) (id : Bytes)
    → Inv w
    → find id w.replies.slots ≡ Option.map (λ t. t.slot) (holder id w.tickets)
find-holder w id v = ap (find id) v.held ∙ find-entry id w.tickets

status-register :
    (id : Bytes) (s : PendingReplies) (j : Bytes)
    → IsValid s
    → status j (register id s).0 ≡ table_register id (closed_with s) (λ k. status k s) j
unfolding status register heap_slot slot_status find
status-register id s j v = elim (Option-cases (find j s.slots)) [
  | inl n ↦ ground (arith, bytes_eq_iff id j, get_elem?-append_self s.heap new_slot)
  | inr (r, n) ↦
      let bound = find-lt j (length s.heap) s.slots {r = r} v.below n in
      let there = get_elem?-total s.heap r bound in
      ground
        (arith, bytes_eq_iff id j, there.1, get_elem?-append_left s.heap (new_slot ∷ []) r bound)
]

status-remove :
    (id : Bytes) (s : PendingReplies) (j : Bytes)
    → status j (remove id s) ≡ at_id id (λ _. absent) (λ k. status k s) j
unfolding status remove
status-remove id s j = ground (arith, find-erase id j s.slots)

status-wait :
    (t : Ticket) (s : PendingReplies) (j : Bytes)
    → IsValid s
    → find t.id s.slots ≡ some t.slot
    → status j (wait t s).0 ≡ at_id t.id collect (λ k. status k s) j
unfolding status wait heap_slot slot_status
status-wait t s j v f = elim (Option-cases (find j s.slots)) [
  | inl n ↦ ground (arith, bytes_eq_iff t.id j)
  | inr (r, n) ↦ ground (
    arith,
    bytes_eq_iff t.id j,
    get_elem?-modify s.heap t.slot r take_payload,
    find_injective t.id j (length s.heap) s.slots {r = r} v.below,
  )
]

module _ (w : World) (v : Inv w) where
  open w use {replies}

  status-waits :
      (id j : Bytes)
      → status j (step w (waits id)).replies ≡ at_id id collect (λ k. status k replies) j
  unfolding step
  status-waits id j = elim (Option-cases (holder id w.tickets)) [
    | inl n ↦ rw (n, step) (unfold status in ground (arith, bytes_eq_iff id j, find-holder w id v))
    | inr (t, n) ↦
        rw (n, step)
          (ground (
            arith,
            status-wait t replies j v.valid,
            find-holder w id v,
            holder_id id w.tickets {t = t} n,
          ))
  ]

  status-drops :
      (id j : Bytes)
      → status j (step w (drops id)).replies ≡ at_id id (λ _. absent) (λ k. status k replies) j
  unfolding step destroy
  status-drops id j = elim (Option-cases (holder id w.tickets)) [
    | inl n ↦ rw (n, step) (unfold status in ground (arith, bytes_eq_iff id j, find-holder w id v))
    | inr (t, n) ↦
        rw (n, step)
          (ground (
            arith,
            status-remove id replies j,
            holder_id id w.tickets {t = t} n,
            holder_owner id w.tickets {t = t} v.owned n,
          ))
  ]

  closed-waits : (id : Bytes) → closed_with (step w (waits id)).replies ≡ closed_with replies
  unfolding step wait
  closed-waits id = ground arith

  closed-drops : (id : Bytes) → closed_with (step w (drops id)).replies ≡ closed_with replies
  unfolding step destroy remove
  closed-drops id = ground arith

  pub step-view : (op : Op) → view (step w op) ≡ table_step (view w) op
  unfolding view table_step step
  step-view (registers id) =
      table-eq _ _ (λ j. status-register id replies j v.valid) (unfold register in ground arith)
  step-view (completes id p) =
      table-eq _ _ (λ j. unfold complete in status-finish id false p [] replies j v.valid)
        (unfold complete finish in ground arith)
  step-view (fails id e) =
      table-eq _ _ (λ j. unfold fail in status-finish id true [] e replies j v.valid)
        (unfold fail finish in ground arith)
  step-view (fails_all e) =
      table-eq _ _ (λ j. unfold fail_all status in status-mark_all e j replies v.valid)
        (unfold fail_all in refl)
  step-view (closes e) =
      table-eq _ _ (λ j. unfold close status in status-mark_all e j replies v.valid)
        (unfold close in refl)
  step-view (waits id) = table-eq _ _ (status-waits id) (closed-waits id)
  step-view (drops id) = table-eq _ _ (status-drops id) (closed-drops id)

  pub answer-view : (id : Bytes) → answer id w ≡ table_answer ((view w).status_of id)
  unfolding answer view wait status heap_slot slot_status
  answer-view id = elim (Option-cases (holder id w.tickets)) [
    | inl n ↦ ground (arith, find-holder w id v)
    | inr (t, n) ↦
        let f = find-holder w id v ∙ ap (Option.map (λ t. t.slot)) n in
        let bound = find-lt id (length replies.heap) replies.slots {r = t.slot} v.valid.below f in
        let there = get_elem?-total replies.heap t.slot bound in ground (arith, f, there.1)
  ]

pub run-view : (w : World) (ops : List Op) → Inv w → view (run w ops) ≡ table_run (view w) ops
unfolding run table_run
run-view w [] v = refl
run-view w (op ∷ ops) v =
    run-view (step w op) ops (step-Inv w op v) ∙ ap (λ t. table_run t ops) (step-view w v op)

-- In every interleaving from an empty set, the shared state shows exactly the table that the same
-- operations give, and each caller's wait answers as the table says.
pub run-refines :
    (ops : List Op) (id : Bytes)
    → (view (run fresh ops) ≡ table_run fresh_table ops)
      × (answer id (run fresh ops) ≡ table_answer ((table_run fresh_table ops).status_of id))
unfolding view status find
run-refines ops id =
    let e = run-view fresh ops fresh-Inv in
    (
      e,
      answer-view (run fresh ops) (run-Inv fresh ops fresh-Inv) id
          ∙ ap (λ (t : Table). table_answer (t.status_of id)) e,
    )
