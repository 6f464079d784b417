-- ===== src/Outbound/Create.antt =====
-- `LoadOrCreate` of pkg/connector/tumblrdb/outbound.go, with `validateOutboundSendReentry`,
-- `validateNextAttempt` and `marshalBaselineMessageIDs`. Between the statements of one call no other
-- writer is modelled; the loop over two attempts is kept.
use tumblr_dms.Prelude.{
  ℕ, zero, suc, Bool, true, false, not, ◌&&◌, ◌||◌, List, [], ◌∷◌, Option, none, some, String,
  Result, ok, err, ltb, leb, ◌==◌, str_eq, if◌then◌else◌, any, codes, is_blank, is_control, pure,
  throw, lift, gets, ◌>>=◌, ◌>>◌,
}
use tumblr_dms.Prelude.Time.{Time, is_zero, unix_milli}
use tumblr_dms.Outbound.Rows.{
  State, prepared, Row, Db, Error, Op, already_completed, already_handled, identity_changed,
  invalid, constraint, is_empty, is_prepared, check_row, conflict,
}
use tumblr_dms.Outbound.Hex.{hex_encode}
use tumblr_dms.Outbound.Send.{
  PortalKey, OutboundSend, OutboundSendQuery, first_error, validate_identity, message_type_text,
}
use tumblr_dms.Outbound.Reading.{get}

abbrev pub ne : String → String → Bool
ne a b = not (str_eq a b)

abbrev pub same_list : List ℕ → List ℕ → Bool
same_list [] [] = true
same_list (a ∷ as') (b ∷ bs) = a == b && same_list as' bs
same_list _ _ = false

abbrev pub same_portal : PortalKey → PortalKey → Bool
same_portal p q = str_eq p.id q.id && str_eq p.receiver q.receiver

-- outboundPortalReentryMatchesStagedBinding
unfoldable pub matches_staged_binding : OutboundSend → OutboundSend → Bool
matches_staged_binding existing candidate =
    is_empty existing.conversation_id
    && is_empty candidate.conversation_id
    && not (is_empty existing.binding_conversation_id)
    && str_eq candidate.portal_key.id existing.binding_conversation_id
    && str_eq candidate.portal_key.receiver existing.portal_key.receiver

-- validateOutboundSendReentry
unfoldable pub validate_reentry : OutboundSend → OutboundSend → Option Error
unfolding matches_staged_binding message_type_text
validate_reentry existing candidate = first_error (
    (ne existing.bridge_id candidate.bridge_id, identity_changed "bridge ID")
    ∷ (ne existing.user_login_id candidate.user_login_id, identity_changed "user login ID")
    ∷ (ne existing.transaction_id candidate.transaction_id, identity_changed "transaction ID")
    ∷ (ne existing.matrix_room_id candidate.matrix_room_id, identity_changed "Matrix room ID")
    ∷ (ne existing.matrix_event_id candidate.matrix_event_id, identity_changed "Matrix event ID")
    ∷ (ne existing.matrix_sender_id candidate.matrix_sender_id, identity_changed "Matrix sender ID")
    ∷ (ne existing.sender_id candidate.sender_id, identity_changed "remote sender ID")
    ∷ (
      ne existing.input_transaction_id candidate.input_transaction_id,
      identity_changed "Matrix input transaction ID",
    )
    ∷ (
      ne (message_type_text existing.message_type) (message_type_text candidate.message_type),
      identity_changed "message type",
    )
    ∷ (
      not (same_list existing.content_hash candidate.content_hash),
      identity_changed "content fingerprint",
    )
    ∷ (
      ne existing.source_media_digest candidate.source_media_digest,
      identity_changed "source media fingerprint",
    )
    ∷ (
      not (is_empty existing.conversation_id)
          && not (is_empty candidate.conversation_id)
          && ne existing.conversation_id candidate.conversation_id,
      identity_changed "conversation binding",
    )
    ∷ (
      str_eq existing.conversation_id candidate.conversation_id
          && not (same_portal existing.portal_key candidate.portal_key)
          && not (matches_staged_binding existing candidate),
      identity_changed "portal binding",
    )
    ∷ [])

-- validateNextAttempt
unfoldable pub validate_next_attempt : Time → Time → Option Error
validate_next_attempt next now =
    if is_zero next
    then some (invalid "next attempt time is required")
    else if leb (unix_milli next) (unix_milli now)
    then some (invalid "next attempt time must be in the future")
    else none

-- marshalBaselineMessageIDs; the JSON text is held as the list that it encodes.
unfoldable pub marshal_baseline : List String → Result Error (List String)
unfolding is_control
marshal_baseline ids =
    if any is_blank ids
    then err (invalid "outbound baseline contains an empty message ID")
    else if any (λ id. any is_control (codes id)) ids
    then err (invalid "outbound baseline contains an invalid message ID")
    else ok ids

unfoldable pub reject_some : Option Error → Op (Unit {0})
reject_some none db = (ok tt, db)
reject_some (some e) db = (err e, db)

-- The row of insertOutboundSendQuery.
unfoldable pub new_row : OutboundSendQuery → OutboundSend → List String → ℕ → Row
new_row oq send baseline now = record {
  bridge_id = oq.bridge_id;
  user_login_id = send.user_login_id;
  transaction_id = send.transaction_id;
  portal_id = send.portal_key.id;
  portal_receiver = send.portal_key.receiver;
  conversation_id = send.conversation_id;
  binding_conversation_id = "";
  matrix_room_id = send.matrix_room_id;
  matrix_event_id = send.matrix_event_id;
  matrix_sender_id = send.matrix_sender_id;
  sender_id = send.sender_id;
  input_transaction_id = send.input_transaction_id;
  message_type = send.message_type;
  content_hash = hex_encode send.content_hash;
  source_media_digest = send.source_media_digest;
  baseline_ids = baseline;
  remote_message_id = "";
  state = prepared;
  terminal_ts = 0;
  status_notified_ts = 0;
  status_claim_token = "";
  status_claim_expires_ts = 0;
  attempt_count = 0;
  next_attempt_ts = unix_milli send.next_attempt_at;
  send_started_ts = unix_milli send.send_started_at;
  created_ts = now;
  updated_ts = now;
}

module _ (bridge event : String) where
  -- isMatrixEventMapped
  unfoldable pub is_event_mapped : Db → Bool
  is_event_mapped db = any (λ m. str_eq m.bridge_id bridge && str_eq m.mxid event) db.messages

  -- isMatrixEventClaimed
  unfoldable pub is_event_claimed : Db → Bool
  is_event_claimed db =
      any (λ r. str_eq r.bridge_id bridge && str_eq r.matrix_event_id event) db.sends

  -- hasTerminalReceipt
  unfoldable pub has_receipt : Db → Bool
  has_receipt db =
      any (λ r. str_eq r.bridge_id bridge && str_eq r.matrix_event_id event) db.receipts

-- insertOutboundSendQuery: INSERT … WHERE NOT EXISTS … ON CONFLICT DO NOTHING.
unfoldable pub insert_send : Row → Op Bool
insert_send r db =
    if is_event_mapped r.bridge_id r.matrix_event_id db
      || has_receipt r.bridge_id r.matrix_event_id db
    then (ok false, db)
    else if not (check_row r)
    then (err (constraint "tumblr_outbound_send"), db)
    else if any (conflict r) db.sends
    then (ok false, db)
    else (ok true, record db { sends = r ∷ db.sends })

module _ (oq : OutboundSendQuery) where
  -- A row that is there already is returned if it is the candidate's.
  unfoldable pub reenter : OutboundSend → OutboundSend → Op (OutboundSend × Bool)
  reenter existing send = do reject_some (validate_reentry existing send); pure (existing, false)

  abbrev pub created : OutboundSend → Time → OutboundSend
  created send now = record send { state = prepared; created_at = now; updated_at = now }

  abbrev pub refused : OutboundSend → Db → Option Error
  refused send db =
      if is_event_mapped oq.bridge_id send.matrix_event_id db
      then some already_completed
      else if is_event_claimed oq.bridge_id send.matrix_event_id db
          || has_receipt oq.bridge_id send.matrix_event_id db
      then some already_handled
      else none

  unfoldable pub retry_unless : Option Error → Op (OutboundSend × Bool) → Op (OutboundSend × Bool)
  retry_unless none again db = again db
  retry_unless (some e) again db = (err e, db)

  -- A round whose INSERT wrote no row.
  unfoldable pub after_conflict : OutboundSend → Op (OutboundSend × Bool) → Op (OutboundSend × Bool)
  after_conflict send again = do
    found ← gets (get oq send.user_login_id send.transaction_id)
    elim found [
      | some existing ↦ reenter existing send
      | none ↦ λ db. retry_unless (refused send db) again db
    ]

  -- The loop; each round tries the INSERT and says why it did nothing.
  unfoldable pub attempts : ℕ → OutboundSend → List String → Time → Op (OutboundSend × Bool)
  attempts zero send baseline now =
      throw (invalid "outbound send changed concurrently while loading or creating")
  attempts (suc rounds) send baseline now = do
    inserted ← insert_send (new_row oq send baseline (unix_milli now))
    let again = attempts rounds send baseline now
    elim inserted [ true ↦ pure (created send now, true) | false ↦ after_conflict send again ]

  -- The tests of a candidate that has no row yet; `state` is its State field, none where it is "".
  unfoldable pub validate_new : Option State → OutboundSend → Time → Option Error
  validate_new state send now = first_error (
      (
        elim state [ none ↦ false | some s ↦ not (is_prepared s) ],
        invalid "new outbound send state must be prepared",
      )
      ∷ (
        not (is_empty send.binding_conversation_id)
            || not (is_empty send.remote_message_id)
            || not (send.attempt_count == 0)
            || not (is_zero send.terminal_at)
            || not (is_zero send.status_notified_at)
            || not (is_empty send.status_claim_token)
            || not (is_zero send.status_claim_expires_at),
        invalid "new outbound send cannot already be resolved or attempted",
      )
      ∷ (is_zero send.send_started_at, invalid "outbound send start time is required")
      ∷ (
        ltb (unix_milli now) (unix_milli send.send_started_at),
        invalid "outbound send start time cannot be in the future",
      )
      ∷ (is_zero send.next_attempt_at, invalid "next attempt time is required")
      ∷ (
        leb (unix_milli send.next_attempt_at) (unix_milli now),
        invalid "next attempt time must be in the future",
      )
      ∷ [])

  unfoldable pub create_new : Option State → OutboundSend → Time → Op (OutboundSend × Bool)
  create_new state send now = do
    reject_some (validate_new state send now)
    baseline ← lift (marshal_baseline send.baseline_message_ids)
    attempts 2 send baseline now

  -- A send of the query's own bridge, or of none.
  unfoldable pub load_or_create_own : Option State → OutboundSend → Time → Op (OutboundSend × Bool)
  load_or_create_own state send now = do
    reject_some (validate_identity oq send)
    found ← gets (get oq send.user_login_id send.transaction_id)
    elim found [ some existing ↦ reenter existing send | none ↦ create_new state send now ]

  -- LoadOrCreate
  unfoldable pub load_or_create :
      Option State → Option OutboundSend → Time → Op (OutboundSend × Bool)
  load_or_create state none now = throw (invalid "outbound send is required")
  load_or_create state (some send) now =
      if not (is_empty send.bridge_id) && ne send.bridge_id oq.bridge_id
      then throw (invalid "outbound send bridge ID does not match query bridge ID")
      else load_or_create_own state (record send { bridge_id = oq.bridge_id }) now
