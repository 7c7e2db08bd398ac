-- ===== src/Tests/Pending.antt =====
-- PendingReplies.h on concrete runs.
use graftcode_extensions.Base.{
  ◌≡◌, refl, ◌≢◌, true, false, none, some, List, [], ◌∷◌, arith, Bytes, find, bytes_eq, modify,
  Result, ok, throw, runtime_error,
}
use graftcode_extensions.PendingReplies.{
  PendingReplies, Ticket, register, complete, fail, finish, mark_done, wait, initial, duplicate_id,
}
use graftcode_extensions.PendingReplies.Threads.{
  fresh, Op, registers, completes, fails, fails_all, closes, waits, drops, holder, step, run,
  answer,
}
use graftcode_extensions.PendingReplies.Tickets.{Inv, fresh-Inv, run-Inv}
use graftcode_extensions.PendingReplies.Refinement.{
  view, table_run, table_answer, fresh_table, run-refines,
}
use graftcode_extensions.PendingReplies.Delivery.{session, reply_delivered}
use graftcode_extensions.PendingReplies.Shutdown.{closed_forever}

abbrev a : Bytes
a = b'a' ∷ []

abbrev b : Bytes
b = b'b' ∷ []

abbrev reply : Bytes
reply = 1 ∷ 2 ∷ []

abbrev before : List Op
before = registers b ∷ completes b [] ∷ waits b ∷ drops b ∷ []

abbrev after : List Op
after = completes a [] ∷ fails_all b ∷ closes b ∷ []

a_ne_b : b ≢ a
a_ne_b e = ground arith

reply_delivered_example :
    answer a (run fresh (session a reply before after)) ≡ some (ok (some reply))
reply_delivered_example =
    reply_delivered fresh a reply before after fresh-Inv refl (unfold find in refl)
      (tt, (a_ne_b, (tt, (a_ne_b, tt)))) (tt, (tt, (tt, tt)))

abbrev busy : List Op
busy = registers a ∷ registers b ∷ completes a reply ∷ fails b a ∷ []

run-refines_example :
    (view (run fresh busy) ≡ table_run fresh_table busy)
    × (answer a (run fresh busy) ≡ table_answer ((table_run fresh_table busy).status_of a))
run-refines_example = run-refines busy a

run-Inv_example : Inv (run fresh busy)
run-Inv_example = run-Inv fresh busy fresh-Inv

closed_forever_example :
    (answer a (run (step (run fresh busy) (closes b)) before) ≢ some (ok none))
    × ((x : Bytes) × ((register a (run (step (run fresh busy) (closes b)) before).replies).1
          ≡ throw (runtime_error x)))
closed_forever_example = closed_forever (run fresh busy) b a before (run-Inv fresh busy fresh-Inv)

abbrev registered_a : PendingReplies × Result Ticket
registered_a = register a initial

abbrev with_a : PendingReplies
with_a = record initial {
  heap = record { done = false; failed = false; payload = []; error = [] } ∷ [];
  slots = (a, 0) ∷ [];
}

abbrev ticket_a : Ticket
ticket_a = record { owner = true; id = a; slot = 0 }

first_registration : register a initial ≡ (with_a, ok ticket_a)
unfolding register find
first_registration = refl

-- The second registration of an id that waits is refused.
duplicate : (register a with_a).1 ≡ throw (runtime_error (duplicate_id a))
unfolding register find bytes_eq
duplicate = refl

-- The first outcome of a request stays.
first_outcome :
    answer a (run fresh (registers a ∷ fails a b ∷ completes a reply ∷ []))
    ≡ some (throw (runtime_error b))
unfolding answer run step register complete fail finish mark_done find bytes_eq holder wait modify
first_outcome = refl
