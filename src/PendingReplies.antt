-- ===== src/PendingReplies.antt =====
-- GraftcodePluginsInterfaces/PendingReplies.h (the five plugins carry the same file).
-- A `Slot` lives on a heap, since the map and the ticket share it; a `shared_ptr<Slot>` is its
-- index there. Every operation holds the mutex throughout, so a run is a sequence of operations.
pub mod Invariant
pub mod Threads
pub mod Tickets
pub mod Refinement
pub mod Delivery
pub mod Dispatchers
pub mod Shutdown
pub mod Isolation
pub mod Holders
pub mod Outcome
use graftcode_extensions.Base.{
  ℕ, Bool, true, false, not, ◌&&◌, ◌||◌, Option, none, some, List, [], ◌∷◌, ◌++◌, String, Bytes,
  codes, length, is_empty, get_elem?, modify, find, erase, if◌then◌else◌, Exception, runtime_error,
  Result, ok, throw,
}

pub record Slot : Type 0 where
  pub done : Bool
  pub failed : Bool
  pub payload : Bytes
  pub error : Bytes

abbrev pub new_slot : Slot
new_slot = record { done = false; failed = false; payload = []; error = [] }

pub record PendingReplies : Type 0 where
  pub heap : List Slot
  pub slots : List (Bytes × ℕ)
  pub closed : Bool
  pub closed_error : Bytes

abbrev pub initial : PendingReplies
initial = record { heap = []; slots = []; closed = false; closed_error = [] }

-- A moved-from ticket has no owner.
pub record Ticket : Type 0 where
  pub owner : Bool
  pub id : Bytes
  pub slot : ℕ

pub duplicate_id : Bytes → Bytes
duplicate_id id = codes "duplicate correlation id " ++ id

-- The `shared_ptr` made for a refused registration dies with it.
unfoldable pub register : Bytes → PendingReplies → PendingReplies × Result Ticket
register id s =
    if s.closed then (s, throw (runtime_error s.closed_error)) else elim (find id s.slots) [
      | some _ ↦ (s, throw (runtime_error (duplicate_id id)))
      | none ↦ (
        record s { heap = s.heap ++ new_slot ∷ []; slots = (id, length s.heap) ∷ s.slots },
        ok (record { owner = true; id = id; slot = length s.heap }),
      )
    ]

unfoldable pub mark_done : Bool → Bytes → Bytes → Slot → Slot
mark_done failed payload error slot =
    if slot.done
    then slot
    else record { done = true; failed = failed; payload = payload; error = error }

unfoldable pub finish : Bytes → Bool → Bytes → Bytes → PendingReplies → PendingReplies × Bool
finish id failed payload error s = elim (find id s.slots) [
  | none ↦ (s, false)
  | some r ↦ (record s { heap = modify s.heap r (mark_done failed payload error) }, true)
]

unfoldable pub complete : Bytes → Bytes → PendingReplies → PendingReplies × Bool
unfolding finish
complete id payload = finish id false payload []

unfoldable pub fail : Bytes → Bytes → PendingReplies → PendingReplies × Bool
unfolding finish
fail id error = finish id true [] error

-- The loop of `FailAll` and `Close` over the map's entries.
pub mark_all : Bytes → List (Bytes × ℕ) → List Slot → List Slot
mark_all error [] heap = heap
mark_all error ((id, r) ∷ m) heap = mark_all error m (modify heap r (mark_done true [] error))

unfoldable pub fail_all : Bytes → PendingReplies → PendingReplies
unfolding mark_all
fail_all error s = record s { heap = mark_all error s.slots s.heap }

unfoldable pub close : Bytes → PendingReplies → PendingReplies
unfolding mark_all
close error s = record s {
  heap = mark_all error s.slots s.heap;
  closed = true;
  closed_error = error;
}

unfoldable pub empty : PendingReplies → Bool
empty s = is_empty s.slots

-- What `WaitForPending` returns when its wait ends in this state.
unfoldable pub wait_for_pending : PendingReplies → Bool
wait_for_pending s = not s.closed && not (is_empty s.slots)

-- The predicate that ends the wait of `WaitForPending` before its timeout.
unfoldable pub pending_changed : PendingReplies → Bool
pending_changed s = s.closed || not (is_empty s.slots)

unfoldable pub remove : Bytes → PendingReplies → PendingReplies
remove id s = record s { slots = erase id s.slots }

-- `Ticket::~Ticket`.
unfoldable pub destroy : Ticket → PendingReplies → PendingReplies
unfolding remove
destroy t s = if t.owner then remove t.id s else s

-- `Ticket(Ticket&&)`: the new ticket and what is left of the old one.
unfoldable pub move_ticket : Ticket → Ticket × Ticket
move_ticket t = (t, record t { owner = false; id = [] })

take_payload : Slot → Slot
take_payload slot = record slot { payload = [] }

wait_slot : ℕ → PendingReplies → Slot → PendingReplies × Result (Option Bytes)
unfolding take_payload
wait_slot r s slot =
    if not slot.done
    then (s, ok none)
    else if slot.failed
    then (s, throw (runtime_error slot.error))
    else (record s { heap = modify s.heap r take_payload }, ok (some slot.payload))

-- `Ticket::Wait`, in the state in which its wait ends: by the timeout if the slot is not done.
-- `ok none` is the result false; a moved-from payload is empty.
unfoldable pub wait : Ticket → PendingReplies → PendingReplies × Result (Option Bytes)
unfolding wait_slot
wait t s = elim (get_elem? s.heap t.slot) [
  | none ↦ (s, ok none)
  | some slot ↦ wait_slot t.slot s slot
]
