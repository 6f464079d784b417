-- ===== src/Outbound/Progress.antt =====
-- The methods of pkg/connector/tumblrdb/outbound.go that take a send forward: binding it to a conversation,
-- submitting, waiting for the echo, claiming the remote message, retrying, and dropping its row.
use tumblr_dms.Prelude.{
  Bool, true, false, not, ◌&&◌, ◌||◌, List, Option, none, some, String, ok, str_eq, if◌then◌else◌,
  is_blank, lift, gets, reject_if, ◌>>=◌, ◌>>◌,
}
use tumblr_dms.Prelude.Time.{Time, is_zero, unix_milli, after}
use tumblr_dms.Outbound.Rows.{
  Db, Error, Op, not_pending, binding_conflict, room_mismatch, invalid, is_empty, is_resolved,
  exec_update, exec_delete,
}
use tumblr_dms.Outbound.Send.{PortalKey, OutboundSend, OutboundSendQuery, is_terminal}
use tumblr_dms.Outbound.Reading.{get}
use tumblr_dms.Outbound.Create.{
  validate_next_attempt, marshal_baseline, reject_some, same_portal, ne,
}
use tumblr_dms.Outbound.Statements.{
  prepare_where, prepare_set, submitting_where, submitting_set, bind_where, bind_set,
  awaiting_where, awaiting_set, uncertain_where, uncertain_set, retry_where, retry_set,
  claim_remote_where, claim_remote_set, delete_prepared_where, delete_not_submitted_where,
  delete_unconfirmed_where,
}

-- An UPDATE or DELETE whose WHERE reads other rows of the database that it starts from.
unfoldable pub with_db : {A : Type 0} → (Db → Op A) → Op A
with_db f db = f db db

-- requirePendingOutboundSend
unfoldable pub require_pending : Op Bool → Op (Unit {0})
require_pending update = do changed ← update; reject_if (not changed) not_pending

-- What a method that changed no row makes of the row that is there.
unfoldable pub judge :
    (Option OutboundSend → Option Error) → Op (Option OutboundSend) → Op (Unit {0})
judge verdict read = do existing ← read; reject_some (verdict existing)

unfoldable pub unless_changed : Bool → Op (Unit {0}) → Op (Unit {0})
unless_changed true rest db = (ok tt, db)
unless_changed false rest db = rest db

-- The verdict of `PrepareConversationBinding`.
unfoldable pub prepare_verdict : String → Option OutboundSend → Option Error
prepare_verdict conversation none = some not_pending
prepare_verdict conversation (some s) =
    if is_terminal s || is_resolved s.state
    then some not_pending
    else if str_eq s.conversation_id conversation && str_eq s.portal_key.id conversation
    then none
    else if not (is_empty s.conversation_id)
        || (not (is_empty s.binding_conversation_id) && ne s.binding_conversation_id conversation)
    then some binding_conflict
    else if str_eq s.binding_conversation_id conversation
    then none
    else some not_pending

-- The verdict of `BindConversation`.
unfoldable pub bind_verdict : String → PortalKey → Option OutboundSend → Option Error
bind_verdict conversation key none = some not_pending
bind_verdict conversation key (some s) =
    if not (is_empty s.conversation_id)
      && (ne s.conversation_id conversation || not (same_portal s.portal_key key))
    then some binding_conflict
    else if str_eq s.conversation_id conversation
        && same_portal s.portal_key key
        && is_empty s.binding_conversation_id
    then none
    else if is_empty s.conversation_id && str_eq s.binding_conversation_id conversation
    then some room_mismatch
    else some not_pending

module _ (oq : OutboundSendQuery) (login txn : String) where
  -- PrepareConversationBinding
  unfoldable pub prepare_conversation_binding : String → Time → Time → Op (Unit {0})
  prepare_conversation_binding conversation next now = do
    reject_if (is_blank conversation)
        (invalid "conversation ID is required to prepare an outbound binding")
    reject_some (validate_next_attempt next now)
    changed ←
        exec_update (prepare_where oq.bridge_id login txn conversation)
          (prepare_set conversation (unix_milli next) (unix_milli now))
    unless_changed changed (judge (prepare_verdict conversation) (gets (get oq login txn)))

  -- MarkSubmitting
  unfoldable pub mark_submitting : List String → Time → Time → Time → Op Bool
  mark_submitting ids started next now = do
    reject_if (is_zero started || after started now)
        (invalid "valid outbound submit start time is required")
    reject_some (validate_next_attempt next now)
    baseline ← lift (marshal_baseline ids)
    exec_update (submitting_where oq.bridge_id login txn)
        (submitting_set baseline (unix_milli started) (unix_milli next) (unix_milli now))

  -- BindConversation
  unfoldable pub bind_conversation : String → PortalKey → Time → Time → Op (Unit {0})
  bind_conversation conversation key next now = do
    reject_if (is_blank conversation)
        (invalid "conversation ID is required to bind an outbound send")
    reject_if (oq.key_is_empty key) (invalid "portal key is required to bind an outbound send")
    reject_if (ne key.id conversation) (invalid "outbound portal ID must match the conversation ID")
    reject_some (validate_next_attempt next now)
    changed ← with_db λ db.
        exec_update (bind_where oq.bridge_id login txn key.id key.receiver conversation db)
          (bind_set key.id key.receiver conversation (unix_milli next) (unix_milli now))
    unless_changed changed (judge (bind_verdict conversation key) (gets (get oq login txn)))

  -- MarkAwaitingEcho
  unfoldable pub mark_awaiting_echo : Time → Time → Op (Unit {0})
  mark_awaiting_echo next now = do
    reject_some (validate_next_attempt next now)
    require_pending (
        exec_update (awaiting_where oq.bridge_id login txn)
          (awaiting_set (unix_milli next) (unix_milli now)))

  -- MarkUncertain
  unfoldable pub mark_uncertain : Time → Time → Op (Unit {0})
  mark_uncertain next now = do
    reject_some (validate_next_attempt next now)
    require_pending (
        exec_update (uncertain_where oq.bridge_id login txn)
          (uncertain_set (unix_milli next) (unix_milli now)))

  -- ScheduleRetry
  unfoldable pub schedule_retry : Time → Time → Op (Unit {0})
  schedule_retry next now = do
    reject_some (validate_next_attempt next now)
    require_pending (
        exec_update (retry_where oq.bridge_id login txn)
          (retry_set (unix_milli next) (unix_milli now)))

  -- ClaimRemoteMessage
  unfoldable pub claim_remote_message : String → String → Time → Time → Op Bool
  claim_remote_message conversation remote next now = do
    reject_if (is_blank conversation)
        (invalid "conversation ID is required to claim an outbound remote message")
    reject_if (is_blank remote) (invalid "remote message ID is required to claim an outbound send")
    reject_some (validate_next_attempt next now)
    with_db λ db.
        exec_update (claim_remote_where oq.bridge_id login txn remote conversation db)
          (claim_remote_set remote (unix_milli next) (unix_milli now))

  -- DeletePrepared
  unfoldable pub delete_prepared : Op Bool
  delete_prepared = exec_delete (delete_prepared_where oq.bridge_id login txn)

  -- DeleteNotSubmitted
  unfoldable pub delete_not_submitted : Op Bool
  delete_not_submitted =
      with_db λ db. exec_delete (delete_not_submitted_where oq.bridge_id login txn db)

  -- DeleteUnconfirmed
  unfoldable pub delete_unconfirmed : Op Bool
  delete_unconfirmed =
      with_db λ db. exec_delete (delete_unconfirmed_where oq.bridge_id login txn db)
