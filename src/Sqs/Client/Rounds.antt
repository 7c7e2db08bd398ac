-- ===== src/Sqs/Client/Rounds.antt =====
-- A round of DispatchReplies of sqs/SqsPlugin/SqsClient.cpp whose ReceiveMessage fails.
use graftcode_extensions.Base.{
  ◌≡◌, ◌≢◌, sym, ap, ◌∙◌, true, false, some, none, arith, Bytes, codes, ok,
}
use graftcode_extensions.PendingReplies.{PendingReplies, fail_all, wait_for_pending}
use graftcode_extensions.PendingReplies.Outcome.{waiting}
use graftcode_extensions.PendingReplies.Threads.{World, fails_all, step, answer}
use graftcode_extensions.PendingReplies.Tickets.{Inv, step-Inv}
use graftcode_extensions.PendingReplies.Refinement.{Table, table_step, view, step-view, answer-view}
use graftcode_extensions.PendingReplies.Shutdown.{not-waiting}
use graftcode_extensions.Sqs.Codec.{Base64}
use graftcode_extensions.Sqs.Client.{
  SqsClient, AwsFailure, aws_error, receive_failed, dispatch_round,
}

fails_all-not_waiting :
    (t : Table) (e id : Bytes) → (table_step t (fails_all e)).status_of id ≢ waiting
unfolding table_step
fails_all-not_waiting t e id h = ground arith

failed_round :
    (base64 : Base64) (c : SqsClient) (e : AwsFailure)
    → c.stopping ≡ false
    → wait_for_pending c.pending ≡ true
    → (dispatch_round base64 (receive_failed e) c).pending
      ≡ fail_all (aws_error (codes "ReceiveMessage") e) c.pending
unfolding dispatch_round
failed_round base64 c e s p = ground arith

-- When ReceiveMessage fails while requests wait, in a state that the invariant allows and with a
-- client that is not stopping, no caller is left waiting: each wait ends at once.
pub dispatch_round-answers :
    (base64 : Base64) (c : SqsClient) (w : World) (e : AwsFailure) (id : Bytes)
    → Inv w
    → c.pending ≡ w.replies
    → c.stopping ≡ false
    → wait_for_pending c.pending ≡ true
    → answer id (record w { replies = (dispatch_round base64 (receive_failed e) c).pending })
      ≢ some (ok none)
unfolding step
dispatch_round-answers base64 c w e id v same s p h =
    let error = aws_error (codes "ReceiveMessage") e in
    let stepped : record w { replies = (dispatch_round base64 (receive_failed e) c).pending }
        ≡ step w (fails_all error) =
      ap (λ (r : PendingReplies). record w { replies = r })
        (failed_round base64 c e s p ∙ ap (fail_all error) same) in
    let status : (view (step w (fails_all error))).status_of id ≢ waiting = λ x.
      fails_all-not_waiting (view w) error id
        (sym (ap (λ (t : Table). t.status_of id) (step-view w v (fails_all error))) ∙ x) in
    not-waiting _ status (
      sym (answer-view (step w (fails_all error)) (step-Inv w (fails_all error) v) id)
      ∙ sym (ap (answer id) stepped)
      ∙ h)
