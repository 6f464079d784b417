-- ===== src/Outbound/Terminal.antt =====
-- The methods of pkg/connector/tumblrdb/outbound.go that end a send, each with its permanent receipt, and
-- the delivery of the status that follows a failure.
use tumblr_dms.Prelude.{
  ℕ, ◌-◌, ◌^◌, Bool, not, ◌||◌, List, [], ◌∷◌, Option, none, some, String, leb, if◌then◌else◌,
  is_blank, pure, gets, reject_if, ◌>>=◌, ◌>>◌, txn, map, filter_where,
}
use tumblr_dms.Prelude.Time.{Time, is_zero, unix_milli, after}
use tumblr_dms.Outbound.Rows.{Row, Error, Op, not_pending, invalid, is_completed, exec_update}
use tumblr_dms.Outbound.Send.{OutboundSend, OutboundSendQuery}
use tumblr_dms.Outbound.Reading.{get}
use tumblr_dms.Outbound.Create.{reject_some, ne}
use tumblr_dms.Outbound.Receipts.{ensure_terminal_receipt, with_terminal_receipt}
use tumblr_dms.Outbound.Progress.{unless_changed, with_db}
use tumblr_dms.Outbound.Statements.{
  prepared_failed_where, submitting_failed_where, not_submitted_set, claim_status_where,
  claim_status_set, finish_status_where, finish_status_set, release_status_where,
  release_status_set, unconfirmed_where, resolved_unconfirmed_where, unconfirmed_set,
  completed_where, completed_set, terminalize_where, terminalize_set,
}

-- OutboundCompletedReceiptUnixMilli
abbrev pub completed_receipt_unix_milli : ℕ
completed_receipt_unix_milli = 2 ^ 63 - 1

-- The verdict of `FinishStatusDelivery` on the row that is there.
unfoldable pub finish_verdict : Option OutboundSend → Option Error
finish_verdict none = some not_pending
finish_verdict (some s) = if is_zero s.status_notified_at then some not_pending else none

-- The verdict of `MarkCompleted` on the row that is there.
unfoldable pub completed_verdict : String → Option OutboundSend → Option Error
completed_verdict remote none = some not_pending
completed_verdict remote (some s) =
    if not (is_completed s.state) || ne s.remote_message_id remote then some not_pending else none

module _ (oq : OutboundSendQuery) (login id : String) where
  -- markNotSubmitted
  unfoldable pub mark_not_submitted : (Row → Bool) → Time → Time → Op Bool
  mark_not_submitted query terminal next = do
    reject_if (is_zero terminal) (invalid "outbound not-submitted terminal time is required")
    reject_if (not (after next terminal))
        (invalid "outbound not-submitted retry must follow its terminal time")
    with_terminal_receipt oq login id
        (exec_update query (not_submitted_set (unix_milli terminal) (unix_milli next)))

  -- ClaimPreparedNotSubmitted
  unfoldable pub claim_prepared_not_submitted : Time → Time → Op Bool
  claim_prepared_not_submitted = mark_not_submitted (prepared_failed_where oq.bridge_id login id)

  -- MarkSubmittingNotSubmitted
  unfoldable pub mark_submitting_not_submitted : Time → Time → Op Bool
  mark_submitting_not_submitted = mark_not_submitted (submitting_failed_where oq.bridge_id login id)

  -- ClaimStatusDelivery
  unfoldable pub claim_status_delivery : String → Time → Time → Op Bool
  claim_status_delivery token expires now = do
    reject_if (is_blank token) (invalid "outbound status claim token is required")
    reject_if (not (after expires now))
        (invalid "outbound status claim expiry must be in the future")
    exec_update (claim_status_where oq.bridge_id login id (unix_milli now))
        (claim_status_set token (unix_milli expires) (unix_milli now))

  -- FinishStatusDelivery
  unfoldable pub finish_status_delivery : String → Time → Time → Op (Unit {0})
  finish_status_delivery token notified expires = do
    reject_if (is_blank token) (invalid "outbound status claim token is required")
    reject_if (is_zero notified) (invalid "outbound status notification time is required")
    reject_if (not (after expires notified))
        (invalid "outbound terminal expiry must follow its notification time")
    changed ←
        exec_update (finish_status_where oq.bridge_id login id token)
          (finish_status_set (unix_milli notified) (unix_milli expires))
    unless_changed changed
        (do existing ← gets (get oq login id); reject_some (finish_verdict existing))

  -- ReleaseStatusDelivery
  unfoldable pub release_status_delivery : String → Time → Op (Unit {0})
  release_status_delivery token now = do
    reject_if (is_blank token) (invalid "outbound status claim token is required")
    changed ←
        exec_update (release_status_where oq.bridge_id login id token)
          (release_status_set (unix_milli now))
    pure tt

  -- MarkUnconfirmed
  unfoldable pub mark_unconfirmed : Time → Time → Op (Unit {0})
  mark_unconfirmed terminal next = do
    reject_if (is_zero terminal) (invalid "unconfirmed-send terminal time is required")
    reject_if (leb (unix_milli next) (unix_milli terminal))
        (invalid "unconfirmed-send notification must be scheduled after the terminal time")
    changed ← with_terminal_receipt oq login id (
        exec_update (unconfirmed_where oq.bridge_id login id)
          (unconfirmed_set (unix_milli terminal) (unix_milli next)))
    reject_if (not changed) not_pending

  -- MarkResolvedUnconfirmed
  unfoldable pub mark_resolved_unconfirmed : String → Time → Time → Op (Unit {0})
  mark_resolved_unconfirmed remote terminal next = do
    reject_if (is_blank remote)
        (invalid "remote message ID is required to terminalize a resolved outbound send")
    reject_if (is_zero terminal) (invalid "resolved unconfirmed-send terminal time is required")
    reject_if (leb (unix_milli next) (unix_milli terminal))
        (invalid "resolved unconfirmed-send notification must be scheduled after the terminal time")
    changed ← with_terminal_receipt oq login id (
        exec_update (resolved_unconfirmed_where oq.bridge_id login id remote)
          (unconfirmed_set (unix_milli terminal) (unix_milli next)))
    reject_if (not changed) not_pending

  -- The transaction of `MarkCompleted`.
  unfoldable pub complete_txn : String → Time → Op (Unit {0})
  complete_txn remote terminal = txn (do
    changed ←
        exec_update (completed_where oq.bridge_id login id remote)
          (completed_set (unix_milli terminal) completed_receipt_unix_milli)
    unless_changed changed
        (do existing ← gets (get oq login id); reject_some (completed_verdict remote existing))
    ensure_terminal_receipt oq login id)

  -- MarkCompleted
  unfoldable pub mark_completed : String → Time → Op (Unit {0})
  mark_completed remote terminal = do
    reject_if (is_blank remote)
        (invalid "remote message ID is required to complete an outbound send")
    reject_if (is_zero terminal) (invalid "outbound completion time is required")
    complete_txn remote terminal

module _ (oq : OutboundSendQuery) (login : String) where
  -- The loop of `TerminalizeConversation` over the transactions that its statement returned.
  unfoldable pub ensure_receipts : List String → Op (Unit {0})
  ensure_receipts [] = pure tt
  ensure_receipts (id ∷ ids) = do ensure_terminal_receipt oq login id; ensure_receipts ids

  -- The statement with its RETURNING transaction_id.
  unfoldable pub terminalize : String → ℕ → ℕ → Op (List String)
  terminalize conversation terminal next = with_db λ db. do
    changed ←
        exec_update (terminalize_where oq.bridge_id login conversation)
          (terminalize_set terminal next)
    pure (
        map (λ r. r.transaction_id)
          (filter_where (terminalize_where oq.bridge_id login conversation) db.sends))

  -- The transaction of `TerminalizeConversation`.
  unfoldable pub terminalize_txn : String → Time → Time → Op (List String)
  terminalize_txn conversation terminal next = txn (do
    ids ← terminalize conversation (unix_milli terminal) (unix_milli next)
    ensure_receipts ids
    pure ids)

  -- TerminalizeConversation
  unfoldable pub terminalize_conversation : String → Time → Time → Op (List String)
  terminalize_conversation conversation terminal next = do
    reject_if (is_blank login) (invalid "user login ID is required to terminalize outbound sends")
    reject_if (is_blank conversation)
        (invalid "conversation ID is required to terminalize outbound sends")
    reject_if (is_zero terminal) (invalid "outbound terminal time is required")
    reject_if (not (after next terminal))
        (invalid "outbound terminal notification must be scheduled after the terminal time")
    terminalize_txn conversation terminal next
