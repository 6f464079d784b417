-- ===== src/Outbound/Rows.antt =====
-- The tables of pkg/connector/tumblrdb/outbound.go and schema.sql, with the constraints that the database
-- holds them to, and the statements' results. Of the bridge framework's tables `message` and `portal`
-- the columns that the statements read.
pub mod Checked
use tumblr_dms.Prelude.{
  ℕ, ◌≤◌, ◌<◌, ◌≡◌, Bool, true, false, not, ◌&&◌, ◌||◌, List, String, Result, ok, err, Exec, ltb,
  leb, ◌==◌, str_eq, if◌then◌else◌, any, all, update_where, delete_where, no_conflict, length,
  codes,
}

-- OutboundSendState
pub data State : Type 0 where
  prepared submitting awaiting_echo uncertain resolved completed not_submitted unconfirmed : State

-- OutboundMessageType
pub data MessageType : Type 0 where
  text image post_ref : MessageType

-- A row of tumblr_outbound_send. The hash column is held as the bytes of its text, the JSON column as
-- the list that it encodes.
pub record Row : Type 0 where
  pub bridge_id : String
  pub user_login_id : String
  pub transaction_id : String
  pub portal_id : String
  pub portal_receiver : String
  pub conversation_id : String
  pub binding_conversation_id : String
  pub matrix_room_id : String
  pub matrix_event_id : String
  pub matrix_sender_id : String
  pub sender_id : String
  pub input_transaction_id : String
  pub message_type : MessageType
  pub content_hash : List ℕ
  pub source_media_digest : String
  pub baseline_ids : List String
  pub remote_message_id : String
  pub state : State
  pub terminal_ts : ℕ
  pub status_notified_ts : ℕ
  pub status_claim_token : String
  pub status_claim_expires_ts : ℕ
  pub attempt_count : ℕ
  pub next_attempt_ts : ℕ
  pub send_started_ts : ℕ
  pub created_ts : ℕ
  pub updated_ts : ℕ

-- A row of tumblr_outbound_receipt.
pub record Receipt : Type 0 where
  pub bridge_id : String
  pub matrix_event_id : String
  pub user_login_id : String
  pub transaction_id : String
  pub terminal_ts : ℕ

-- The columns of `message` that the statements read.
pub record Message : Type 0 where
  pub bridge_id : String
  pub id : String
  pub mxid : String
  pub room_receiver : String

-- The columns of `portal` that the statements read.
pub record Portal : Type 0 where
  pub bridge_id : String
  pub id : String
  pub receiver : String
  pub mxid : String

pub record Db : Type 0 where
  pub sends : List Row
  pub receipts : List Receipt
  pub messages : List Message
  pub portals : List Portal

-- The sentinel errors of outbound.go, those with a message only, and a constraint of the schema that
-- the database reports.
pub data Error : Type 0 where
  not_pending already_completed already_handled binding_conflict room_mismatch : Error
  identity_changed invalid constraint : String → Error

abbrev pub Op : Type 0 → Type 0
Op A = Exec Db Error A

-- state IN ('submitting', 'awaiting_echo', 'uncertain')
abbrev pub in_flight : State → Bool
in_flight submitting = true
in_flight awaiting_echo = true
in_flight uncertain = true
in_flight _ = false

-- state IN ('prepared', 'submitting', 'awaiting_echo', 'uncertain')
abbrev pub is_open : State → Bool
is_open prepared = true
is_open s = in_flight s

-- state IN ('not_submitted', 'unconfirmed')
abbrev pub is_failure : State → Bool
is_failure not_submitted = true
is_failure unconfirmed = true
is_failure _ = false

-- state IN ('resolved', 'completed')
abbrev pub has_remote : State → Bool
has_remote resolved = true
has_remote completed = true
has_remote _ = false

-- state IN ('awaiting_echo', 'resolved', 'completed')
abbrev pub needs_conversation : State → Bool
needs_conversation awaiting_echo = true
needs_conversation s = has_remote s

abbrev pub is_prepared : State → Bool
is_prepared prepared = true
is_prepared _ = false

abbrev pub is_submitting : State → Bool
is_submitting submitting = true
is_submitting _ = false

abbrev pub is_resolved : State → Bool
is_resolved resolved = true
is_resolved _ = false

abbrev pub is_completed : State → Bool
is_completed completed = true
is_completed _ = false

abbrev pub is_not_submitted : State → Bool
is_not_submitted not_submitted = true
is_not_submitted _ = false

abbrev pub is_unconfirmed : State → Bool
is_unconfirmed unconfirmed = true
is_unconfirmed _ = false

abbrev pub is_empty : String → Bool
is_empty s = str_eq s ""

-- The CHECK constraints of tumblr_outbound_send; those that the types give for nothing (the two
-- enumerations, the counters that are at least 0) are left out.
unfoldable pub check_texts : Row → Bool
check_texts r =
    length r.content_hash == 64
    && (is_empty r.source_media_digest || length (codes r.source_media_digest) == 32)
    && not (is_empty r.matrix_room_id)
    && (is_empty r.binding_conversation_id || is_empty r.conversation_id)

unfoldable pub check_status : Row → Bool
check_status r =
    ((is_empty r.status_claim_token && r.status_claim_expires_ts == 0)
      || (not (is_empty r.status_claim_token)
          && ltb 0 r.status_claim_expires_ts
          && ltb 0 r.terminal_ts
          && is_failure r.state))
    && (r.status_notified_ts == 0
        || (is_empty r.status_claim_token && ltb 0 r.terminal_ts && is_failure r.state))

unfoldable pub check_terminal : Row → Bool
check_terminal r =
    r.terminal_ts == 0
    || (ltb r.terminal_ts r.next_attempt_ts
        && ((is_failure r.state && is_empty r.remote_message_id)
            || (is_completed r.state && not (is_empty r.remote_message_id))))

unfoldable pub check_identity : Row → Bool
check_identity r =
    ((has_remote r.state && not (is_empty r.remote_message_id))
      || (not (has_remote r.state) && is_empty r.remote_message_id))
    && (not (needs_conversation r.state) || not (is_empty r.conversation_id))

unfoldable pub check_times : Row → Bool
check_times r =
    ltb 0 r.next_attempt_ts && (ltb 0 r.send_started_ts && ltb 0 r.created_ts && ltb 0 r.updated_ts)

unfoldable pub check_row : Row → Bool
check_row r =
    check_texts r && check_status r && check_terminal r && check_identity r && check_times r

-- WHERE bridge_id=$1 AND user_login_id=$2 AND transaction_id=$3
abbrev pub at_key : String → String → String → Row → Bool
at_key bridge login txn r =
    str_eq r.bridge_id bridge && str_eq r.user_login_id login && str_eq r.transaction_id txn

-- The primary key, tumblr_outbound_send_matrix_event_idx and tumblr_outbound_send_remote_idx.
unfoldable pub same_key : Row → Row → Bool
same_key r s = at_key r.bridge_id r.user_login_id r.transaction_id s

unfoldable pub same_event : Row → Row → Bool
same_event r s = str_eq s.bridge_id r.bridge_id && str_eq s.matrix_event_id r.matrix_event_id

unfoldable pub same_remote : Row → Row → Bool
same_remote r s =
    not (is_empty r.remote_message_id)
    && (str_eq s.bridge_id r.bridge_id && str_eq s.user_login_id r.user_login_id)
    && (str_eq s.conversation_id r.conversation_id
        && str_eq s.remote_message_id r.remote_message_id)

unfoldable pub conflict : Row → Row → Bool
unfolding same_key same_event same_remote
conflict r s = same_key r s || same_event r s || same_remote r s

-- An UPDATE: its effect, and whether a row was changed. The database refuses one after which a CHECK or
-- a unique index does not hold.
unfoldable pub exec_update : (Row → Bool) → (Row → Row) → Op Bool
exec_update p f db =
    let rows = update_where p f db.sends in
    if all check_row rows && no_conflict conflict rows
    then (ok (any p db.sends), record db { sends = rows })
    else (err (constraint "tumblr_outbound_send"), db)

-- A DELETE breaks no constraint.
unfoldable pub exec_delete : (Row → Bool) → Op Bool
exec_delete p db = (ok (any p db.sends), record db { sends = delete_where p db.sends })
