-- ===== src/Outbound/Send.antt =====
-- `OutboundSend` of pkg/connector/tumblrdb/outbound.go with its validation, and `Scan`, which turns a
-- row of the table into it.
use tumblr_dms.Prelude.{
  ℕ, Bool, not, ◌&&◌, ◌||◌, List, [], ◌∷◌, Option, none, some, String, Result, ok, err, ◌==◌,
  str_eq, if◌then◌else◌, any, length, is_blank,
}
use tumblr_dms.Prelude.Time.{Time, is_zero, after, time_from_millis}
use tumblr_dms.Outbound.Rows.{
  State, prepared, submitting, awaiting_echo, uncertain, resolved, completed, not_submitted,
  unconfirmed, MessageType, text, image, post_ref, Row, Error, invalid, is_empty, is_failure,
  is_completed,
}
use tumblr_dms.Outbound.Hex.{hex_decode, is_lower_hex_digest}

-- networkid.PortalKey
pub record PortalKey : Type 0 where
  pub id : String
  pub receiver : String

pub record OutboundSend : Type 0 where
  pub bridge_id : String
  pub user_login_id : String
  pub transaction_id : String
  pub portal_key : PortalKey
  pub conversation_id : String
  pub binding_conversation_id : String
  pub matrix_room_id : String
  pub matrix_event_id : String
  pub matrix_sender_id : String
  pub sender_id : String
  pub input_transaction_id : String
  pub message_type : MessageType
  pub content_hash : List ℕ
  pub source_media_digest : String
  pub baseline_message_ids : List String
  pub remote_message_id : String
  pub state : State
  pub terminal_at : Time
  pub status_notified_at : Time
  pub status_claim_token : String
  pub status_claim_expires_at : Time
  pub attempt_count : ℕ
  pub next_attempt_at : Time
  pub send_started_at : Time
  pub created_at : Time
  pub updated_at : Time

-- `OutboundSendQuery`: the bridge that it is scoped to. `PortalKey.IsEmpty` belongs to a package outside
-- the repository and is a parameter, and so is the order in which the database sorts texts.
pub record OutboundSendQuery : Type 0 where
  pub bridge_id : String
  pub key_is_empty : PortalKey → Bool
  pub text_before : String → String → Bool

-- What the database stores for a state and a message type.
unfoldable pub state_text : State → String
state_text prepared = "prepared"
state_text submitting = "submitting"
state_text awaiting_echo = "awaiting_echo"
state_text uncertain = "uncertain"
state_text resolved = "resolved"
state_text completed = "completed"
state_text not_submitted = "not_submitted"
state_text unconfirmed = "unconfirmed"

-- `validateOutboundSendState`, with the state that the text names.
unfoldable pub validate_state : String → Option State
validate_state s =
    if str_eq s "prepared"
    then some prepared
    else if str_eq s "submitting"
    then some submitting
    else if str_eq s "awaiting_echo"
    then some awaiting_echo
    else if str_eq s "uncertain"
    then some uncertain
    else if str_eq s "resolved"
    then some resolved
    else if str_eq s "completed"
    then some completed
    else if str_eq s "not_submitted"
    then some not_submitted
    else if str_eq s "unconfirmed"
    then some unconfirmed
    else none

unfoldable pub message_type_text : MessageType → String
message_type_text text = "TEXT"
message_type_text image = "IMAGE"
message_type_text post_ref = "POSTREF"

-- `validateOutboundMessageType`
unfoldable pub validate_message_type : String → Option MessageType
validate_message_type s =
    if str_eq s "TEXT"
    then some text
    else if str_eq s "IMAGE"
    then some image
    else if str_eq s "POSTREF"
    then some post_ref
    else none

-- (send *OutboundSend) IsTerminal
abbrev pub is_terminal : OutboundSend → Bool
is_terminal send = not (is_zero send.terminal_at)

abbrev pub first_error : List (Bool × Error) → Option Error
first_error [] = none
first_error ((bad, e) ∷ more) = if bad then some e else first_error more

-- The switch of `validateOutboundSendIdentity`; the message type is valid by its type.
unfoldable pub validate_identity : OutboundSendQuery → OutboundSend → Option Error
validate_identity oq send = first_error (
    (is_blank send.user_login_id, invalid "outbound send user login ID is required")
    ∷ (is_blank send.transaction_id, invalid "outbound send transaction ID is required")
    ∷ (oq.key_is_empty send.portal_key, invalid "outbound send portal key is required")
    ∷ (
      not (is_empty send.conversation_id) && not (str_eq send.portal_key.id send.conversation_id),
      invalid "outbound send portal ID must match its conversation ID",
    )
    ∷ (is_blank send.matrix_room_id, invalid "outbound send Matrix room ID is required")
    ∷ (is_blank send.matrix_event_id, invalid "outbound send Matrix event ID is required")
    ∷ (is_blank send.matrix_sender_id, invalid "outbound send Matrix sender ID is required")
    ∷ (is_blank send.sender_id, invalid "outbound send remote sender ID is required")
    ∷ (
      not (is_empty send.source_media_digest)
          && not (is_lower_hex_digest send.source_media_digest 32),
      invalid "outbound send source media fingerprint is invalid",
    )
    ∷ [])

-- What `row.Scan` reads into the struct, with the conversions that `Scan` makes.
unfoldable pub load : Row → List ℕ → OutboundSend
load r hash = record {
  bridge_id = r.bridge_id;
  user_login_id = r.user_login_id;
  transaction_id = r.transaction_id;
  portal_key = record { id = r.portal_id; receiver = r.portal_receiver };
  conversation_id = r.conversation_id;
  binding_conversation_id = r.binding_conversation_id;
  matrix_room_id = r.matrix_room_id;
  matrix_event_id = r.matrix_event_id;
  matrix_sender_id = r.matrix_sender_id;
  sender_id = r.sender_id;
  input_transaction_id = r.input_transaction_id;
  message_type = r.message_type;
  content_hash = hash;
  source_media_digest = r.source_media_digest;
  baseline_message_ids = r.baseline_ids;
  remote_message_id = r.remote_message_id;
  state = r.state;
  terminal_at = time_from_millis r.terminal_ts;
  status_notified_at = time_from_millis r.status_notified_ts;
  status_claim_token = r.status_claim_token;
  status_claim_expires_at = time_from_millis r.status_claim_expires_ts;
  attempt_count = r.attempt_count;
  next_attempt_at = time_from_millis r.next_attempt_ts;
  send_started_at = time_from_millis r.send_started_ts;
  created_at = time_from_millis r.created_ts;
  updated_at = time_from_millis r.updated_ts;
}

-- a != b
abbrev differ : Bool → Bool → Bool
differ a b = if a then not b else b

-- The tests of `Scan` on the timestamps and the status claim.
unfoldable pub scan_status : OutboundSend → Option Error
scan_status send =
    let eligible = not (is_zero send.terminal_at) && is_failure send.state in
    first_error (
      (
        is_zero send.next_attempt_at
            || is_zero send.send_started_at
            || is_zero send.created_at
            || is_zero send.updated_at,
        invalid "invalid outbound send timestamps in database",
      )
      ∷ (
        differ (is_empty send.status_claim_token) (is_zero send.status_claim_expires_at),
        invalid "invalid outbound status claim in database",
      )
      ∷ (
        (not (is_zero send.status_notified_at) || not (is_empty send.status_claim_token))
            && not eligible,
        invalid "invalid outbound status state in database",
      )
      ∷ (
        not (is_zero send.status_notified_at) && not (is_empty send.status_claim_token),
        invalid "invalid finished outbound status claim in database",
      )
      ∷ [])

-- The test of `Scan` on a terminal row.
unfoldable pub scan_terminal : OutboundSend → Option Error
scan_terminal send =
    let valid_failure = is_failure send.state && is_empty send.remote_message_id in
    let valid_completion =
      is_completed send.state
      && not (is_empty send.remote_message_id)
      && not (is_empty send.conversation_id)
      && is_empty send.binding_conversation_id in
    if not (valid_failure || valid_completion) || not (after send.next_attempt_at send.terminal_at)
    then some (invalid "invalid terminal outbound send in database")
    else none

abbrev or_else : Option Error → Option Error → Option Error
or_else none e = e
or_else (some e) _ = some e

-- The switch of `Scan` on the state of a row that is not terminal.
unfoldable pub scan_switch : State → OutboundSend → Option Error
scan_switch resolved send =
    if is_empty send.remote_message_id
      || is_empty send.conversation_id
      || not (is_empty send.binding_conversation_id)
    then some (invalid "invalid unresolved identity for resolved outbound send in database")
    else none
scan_switch awaiting_echo send =
    if not (is_empty send.remote_message_id)
      || is_empty send.conversation_id
      || not (is_empty send.binding_conversation_id)
    then some (invalid "invalid awaiting-echo outbound send in database")
    else none
scan_switch completed send =
    some (invalid "invalid nonterminal terminal-state outbound send in database")
scan_switch not_submitted send =
    some (invalid "invalid nonterminal terminal-state outbound send in database")
scan_switch unconfirmed send =
    some (invalid "invalid nonterminal terminal-state outbound send in database")
scan_switch _ send =
    if not (is_empty send.remote_message_id)
    then some (invalid "invalid remote message ID on pending outbound send in database")
    else none

-- The switch and the test behind it.
unfoldable pub scan_pending : OutboundSend → Option Error
unfolding scan_switch
scan_pending send = or_else (scan_switch send.state send) (
    if not (is_empty send.conversation_id) && not (is_empty send.binding_conversation_id)
    then some (invalid "invalid simultaneous final and staged outbound conversation bindings")
    else none)

unfoldable pub scan_state : OutboundSend → Option Error
scan_state send = if is_terminal send then scan_terminal send else scan_pending send

-- The hash column: the text of 32 bytes.
abbrev pub scan_hash : Option (List ℕ) → Result Error (List ℕ)
scan_hash none = err (invalid "invalid outbound content hash in database")
scan_hash (some hash) =
    if length hash == 32 then ok hash else err (invalid "invalid outbound content hash in database")

-- The tests that `Scan` makes of the struct.
unfoldable pub scan_checks : OutboundSendQuery → OutboundSend → Option Error
scan_checks oq send =
    or_else
      (first_error (
        (
          not (is_empty send.source_media_digest)
              && not (is_lower_hex_digest send.source_media_digest 32),
          invalid "invalid outbound source media digest in database",
        )
        ∷ (
          any is_blank send.baseline_message_ids,
          invalid "outbound baseline contains an empty message ID",
        )
        ∷ []))
      (or_else (validate_identity oq send) (or_else (scan_status send) (scan_state send)))

abbrev pub checked : Option Error → OutboundSend → Result Error OutboundSend
checked none send = ok send
checked (some e) send = err e

abbrev pub scan_loaded : OutboundSendQuery → Row → Result Error (List ℕ) → Result Error OutboundSend
scan_loaded oq r (ok hash) = checked (scan_checks oq (load r hash)) (load r hash)
scan_loaded oq r (err e) = err e

-- (send *OutboundSend) Scan
unfoldable pub scan : OutboundSendQuery → Row → Result Error OutboundSend
scan oq r = scan_loaded oq r (scan_hash (hex_decode r.content_hash))
