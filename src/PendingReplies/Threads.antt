-- ===== src/PendingReplies/Threads.antt =====
-- Interleavings of the callers, the reply consumer and the owner of PendingReplies.h: the live
-- tickets beside the shared state, and one step for each operation that a thread makes.
use graftcode_extensions.Base.{
  ◌≡◌, refl, Option, none, some, List, [], ◌∷◌, ◌++◌, Bytes, bytes_eq, Result, ok, throw,
  if◌then◌else◌,
}
use graftcode_extensions.PendingReplies.{
  PendingReplies, Ticket, register, complete, fail, fail_all, close, destroy, wait, initial,
}

pub record World : Type 0 where
  pub replies : PendingReplies
  pub tickets : List Ticket

abbrev pub fresh : World
fresh = record { replies = initial; tickets = [] }

-- `waits` and `drops` are the caller's that holds the ticket of this id: the end of its `Wait`, and
-- the destructor of its ticket.
pub data Op : Type 0 where
  registers : Bytes → Op
  completes : Bytes → Bytes → Op
  fails : Bytes → Bytes → Op
  fails_all : Bytes → Op
  closes : Bytes → Op
  waits : Bytes → Op
  drops : Bytes → Op

unfoldable pub holder : Bytes → List Ticket → Option Ticket
holder id [] = none
holder id (t ∷ ts) = if bytes_eq t.id id then some t else holder id ts

unfoldable pub without : Bytes → List Ticket → List Ticket
without id [] = []
without id (t ∷ ts) = if bytes_eq t.id id then without id ts else t ∷ without id ts

abbrev pub add_ticket : Result Ticket → List Ticket → List Ticket
add_ticket (ok t) ts = t ∷ ts
add_ticket (throw _) ts = ts

pub end_wait : Bytes → World → Option Ticket → World
end_wait id w none = w
end_wait id w (some t) = record w { replies = (wait t w.replies).0 }

pub end_ticket : Bytes → World → Option Ticket → World
end_ticket id w none = w
end_ticket id w (some t) = record { replies = destroy t w.replies; tickets = without id w.tickets }

unfoldable pub step : World → Op → World
unfolding end_wait end_ticket
step w (registers id) =
    let r = register id w.replies in record { replies = r.0; tickets = add_ticket r.1 w.tickets }
step w (completes id payload) = record w { replies = (complete id payload w.replies).0 }
step w (fails id error) = record w { replies = (fail id error w.replies).0 }
step w (fails_all error) = record w { replies = fail_all error w.replies }
step w (closes error) = record w { replies = close error w.replies }
step w (waits id) = end_wait id w (holder id w.tickets)
step w (drops id) = end_ticket id w (holder id w.tickets)

unfoldable pub run : World → List Op → World
run w [] = w
run w (op ∷ ops) = run (step w op) ops

pub run-append : (w : World) (xs ys : List Op) → run w (xs ++ ys) ≡ run (run w xs) ys
unfolding run
run-append w [] ys = refl
run-append w (op ∷ xs) ys = run-append (step w op) xs ys

-- How the `Wait` of the caller that holds the ticket of `id` ends.
unfoldable pub answer : Bytes → World → Option (Result (Option Bytes))
answer id w = elim (holder id w.tickets) [ none ↦ none | some t ↦ some (wait t w.replies).1 ]
