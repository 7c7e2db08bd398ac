-- ===== src/RabbitMq/Client/Disconnects.antt =====
-- RabbitMqRpcClient::Call and Link::Disconnect of rabbitmq/RabbitmqPlugin/RabbitMqClient.cpp in two
-- threads, in every interleaving with each other and with what other threads do to the pending
-- replies.
use graftcode_extensions.Base.{
  ◌≡◌, ◌≢◌, sym, ap, ◌∙◌, arith, Bytes, bytes_eq_iff, bytes_eq_refl, some, none, ok,
}
use graftcode_extensions.PendingReplies.{Ticket, register}
use graftcode_extensions.PendingReplies.Outcome.{absent, waiting}
use graftcode_extensions.PendingReplies.Threads.{
  World, Op, registers, completes, fails, fails_all, closes, waits, drops, step, answer,
}
use graftcode_extensions.PendingReplies.Tickets.{Inv, step-Inv}
use graftcode_extensions.PendingReplies.Refinement.{Table, table_step, view, step-view, answer-view}
use graftcode_extensions.PendingReplies.Shutdown.{not-waiting}

-- How far the call is: it has no ticket yet, it has one, `Publish` went through, or it threw.
pub data Caller : Type 0 where
  not_begun : Caller
  registered : Caller
  publishing_done : Caller
  threw : Caller

-- How far the I/O thread is in `Disconnect`: before it, behind `broken_`, or behind `FailAll`.
pub data IoThread : Type 0 where
  connected : IoThread
  marked_broken : IoThread
  all_failed : IoThread

pub record LinkWorld : Type 0 where
  pub world : World
  pub caller : Caller
  pub io : IoThread

-- The operations of the other threads.
abbrev pub OfOthers : Bytes → Op → Type 0
OfOthers id (drops j) = j ≢ id
OfOthers id (waits j) = j ≢ id
OfOthers id _ = Unit

-- A step of the caller of `id`, of the I/O thread that disconnects with `error`, or of others.
-- `Publish` tests the flag while it holds the mutex.
pub data LinkStep (id error : Bytes) (s : LinkWorld) : LinkWorld → Type 0 where
  call_registers :
      (t : Ticket)
      → s.caller ≡ not_begun
      → (register id s.world.replies).1 ≡ ok t
      → LinkStep id error s (record s { world = step s.world (registers id); caller = registered })
  call_publishes :
      s.caller ≡ registered
      → s.io ≡ connected
      → LinkStep id error s (record s { caller = publishing_done })
  call_throws :
      s.caller ≡ registered
      → LinkStep id error s (record s { world = step s.world (drops id); caller = threw })
  io_marks : s.io ≡ connected → LinkStep id error s (record s { io = marked_broken })
  io_fails :
      s.io ≡ marked_broken
      → LinkStep id error s (record s { world = step s.world (fails_all error); io = all_failed })
  others_do :
      (op : Op) → OfOthers id op → LinkStep id error s (record s { world = step s.world op })

-- Any number of steps.
pub data LinkSteps (id error : Bytes) (s : LinkWorld) : LinkWorld → Type 0 where
  no_step : LinkSteps id error s s
  one_more :
      {m e : LinkWorld} → LinkSteps id error s m → LinkStep id error m e → LinkSteps id error s e

-- The request has an entry while the caller has its ticket, and once the I/O thread is through, a
-- call behind `Publish` has an outcome.
record IsSound (id : Bytes) (s : LinkWorld) : Type 0 where
  inv : Inv s.world
  entered : s.caller ≡ registered → (view s.world).status_of id ≢ absent
  kept : s.caller ≡ publishing_done → (view s.world).status_of id ≢ absent
  settled : s.caller ≡ publishing_done → s.io ≡ all_failed → (view s.world).status_of id ≢ waiting

others-present :
    (id : Bytes) (t : Table) (op : Op)
    → OfOthers id op
    → t.status_of id ≢ absent
    → (table_step t op).status_of id ≢ absent
unfolding table_step
others-present id t (registers j) o h = ground arith
others-present id t (completes j p) o h = ground (arith, bytes_eq_iff j id)
others-present id t (fails j e) o h = ground (arith, bytes_eq_iff j id)
others-present id t (fails_all e) o h = ground arith
others-present id t (closes e) o h = ground arith
others-present id t (waits j) o h = ground (arith, bytes_eq_iff j id)
others-present id t (drops j) o h = ground (arith, bytes_eq_iff j id)

others-settled :
    (id : Bytes) (t : Table) (op : Op)
    → OfOthers id op
    → t.status_of id ≢ absent
    → t.status_of id ≢ waiting
    → (table_step t op).status_of id ≢ waiting
unfolding table_step
others-settled id t (registers j) o h k = ground arith
others-settled id t (completes j p) o h k = ground (arith, bytes_eq_iff j id)
others-settled id t (fails j e) o h k = ground (arith, bytes_eq_iff j id)
others-settled id t (fails_all e) o h k = ground arith
others-settled id t (closes e) o h k = ground arith
others-settled id t (waits j) o h k = ground (arith, bytes_eq_iff j id)
others-settled id t (drops j) o h k = ground (arith, bytes_eq_iff j id)

failed-settled : (id e : Bytes) (t : Table) → (table_step t (fails_all e)).status_of id ≢ waiting
unfolding table_step
failed-settled id e t h = ground arith

not_closed :
    (id : Bytes) (w : World) (t : Ticket) → (register id w.replies).1 ≡ ok t → (view w).shut ≡ none
unfolding register view
not_closed id w t r = ground arith

table-present :
    (id : Bytes) (t : Table) → t.shut ≡ none → (table_step t (registers id)).status_of id ≢ absent
unfolding table_step
table-present id t o h = ground (arith, bytes_eq_refl id)

registered-present :
    (id : Bytes) (w : World) (t : Ticket)
    → Inv w
    → (register id w.replies).1 ≡ ok t
    → (view (step w (registers id))).status_of id ≢ absent
registered-present id w t v r h =
    table-present id (view w) (not_closed id w t r)
      (ap (λ (u : Table). u.status_of id) (sym (step-view w v (registers id))) ∙ h)

-- The status of an id behind an operation.
stepped :
    (id : Bytes) (w : World) (op : Op)
    → Inv w
    → (view (step w op)).status_of id ≡ (table_step (view w) op).status_of id
stepped id w op v = ap (λ (u : Table). u.status_of id) (step-view w v op)

LinkStep-IsSound :
    (id error : Bytes) (s s' : LinkWorld) → LinkStep id error s s' → IsSound id s → IsSound id s'
LinkStep-IsSound id error s s' (call_registers t n r) k = record {
  inv = step-Inv s.world (registers id) k.inv;
  entered = λ e. registered-present id s.world t k.inv r;
  kept = λ e. absurd (cc);
  settled = λ e. absurd (cc);
}
LinkStep-IsSound id error s s' (call_publishes r c) k = record {
  inv = k.inv;
  entered = λ e. absurd (cc);
  kept = λ e. k.entered r;
  settled = λ e f. absurd (cc);
}
LinkStep-IsSound id error s s' (call_throws r) k = record {
  inv = step-Inv s.world (drops id) k.inv;
  entered = λ e. absurd (cc);
  kept = λ e. absurd (cc);
  settled = λ e. absurd (cc);
}
LinkStep-IsSound id error s s' (io_marks c) k = record {
  inv = k.inv;
  entered = k.entered;
  kept = k.kept;
  settled = λ e f. absurd (cc);
}
LinkStep-IsSound id error s s' (io_fails c) k = record {
  inv = step-Inv s.world (fails_all error) k.inv;
  entered = λ e h.
      others-present id (view s.world) (fails_all error) tt (k.entered e)
        (sym (stepped id s.world (fails_all error) k.inv) ∙ h);
  kept = λ e h.
      others-present id (view s.world) (fails_all error) tt (k.kept e)
        (sym (stepped id s.world (fails_all error) k.inv) ∙ h);
  settled = λ e f h.
      failed-settled id error (view s.world) (sym (stepped id s.world (fails_all error) k.inv) ∙ h);
}
LinkStep-IsSound id error s s' (others_do op o) k = record {
  inv = step-Inv s.world op k.inv;
  entered = λ e h.
      others-present id (view s.world) op o (k.entered e) (sym (stepped id s.world op k.inv) ∙ h);
  kept = λ e h.
      others-present id (view s.world) op o (k.kept e) (sym (stepped id s.world op k.inv) ∙ h);
  settled = λ e f h.
      others-settled id (view s.world) op o (k.kept e) (k.settled e f)
        (sym (stepped id s.world op k.inv) ∙ h);
}

LinkSteps-IsSound :
    (id error : Bytes) (s s' : LinkWorld) → LinkSteps id error s s' → IsSound id s → IsSound id s'
LinkSteps-IsSound id error s s' no_step k = k
LinkSteps-IsSound id error s s' (one_more {m} steps last) k =
    LinkStep-IsSound id error m s' last (LinkSteps-IsSound id error s m steps k)

abbrev pub link_start : World → LinkWorld
link_start w = record { world = w; caller = not_begun; io = connected }

-- No call waits for a reply over a link that is gone. Start from any state that the invariant
-- allows, before the call has a ticket and while the link is connected, and let the call, the
-- disconnecting I/O thread and other threads take steps in any order. Once the call's request is
-- published and the disconnect is through, the call's wait ends at once, with a reply or an error.
pub disconnect_answers :
    (id error : Bytes) (w : World) (s : LinkWorld)
    → Inv w
    → LinkSteps id error (link_start w) s
    → s.caller ≡ publishing_done
    → s.io ≡ all_failed
    → answer id s.world ≢ some (ok none)
disconnect_answers id error w s v steps c i h =
    let sound = LinkSteps-IsSound id error (link_start w) s steps (record {
      inv = v;
      entered = λ e. absurd (cc);
      kept = λ e. absurd (cc);
      settled = λ e. absurd (cc);
    }) in
    not-waiting _ (sound.settled c i) (sym (answer-view s.world sound.inv id) ∙ h)
