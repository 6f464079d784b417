-- ===== src/Outbound/Statements.antt =====
-- The UPDATE and DELETE statements of pkg/connector/tumblrdb/outbound.go: for each the rows that its
-- WHERE selects and what its SET makes of one.
use tumblr_dms.Prelude.{
  ℕ, ◌+◌, Bool, not, ◌&&◌, ◌||◌, List, String, ltb, leb, ◌==◌, str_eq, if◌then◌else◌, any,
}
use tumblr_dms.Outbound.Rows.{
  submitting, awaiting_echo, uncertain, resolved, completed, not_submitted, unconfirmed, Row, Db,
  is_empty, in_flight, is_open, is_failure, is_prepared, is_submitting, is_resolved,
  is_not_submitted, is_unconfirmed, at_key,
}

-- remote_message_id='' AND terminal_ts=0
abbrev pending : Row → Bool
pending r = is_empty r.remote_message_id && r.terminal_ts == 0

unfoldable pub prepare_set : String → ℕ → ℕ → Row → Row
prepare_set conversation next now r = record r {
  binding_conversation_id = conversation;
  next_attempt_ts = next;
  updated_ts = now;
}

unfoldable pub submitting_set : List String → ℕ → ℕ → ℕ → Row → Row
submitting_set baseline started next now r = record r {
  state = submitting;
  baseline_ids = baseline;
  send_started_ts = started;
  next_attempt_ts = next;
  updated_ts = now;
}

unfoldable pub not_submitted_set : ℕ → ℕ → Row → Row
not_submitted_set terminal next r = record r {
  state = not_submitted;
  terminal_ts = terminal;
  next_attempt_ts = next;
  updated_ts = terminal;
}

unfoldable pub claim_status_set : String → ℕ → ℕ → Row → Row
claim_status_set token expires now r = record r {
  status_claim_token = token;
  status_claim_expires_ts = expires;
  next_attempt_ts = if ltb expires r.next_attempt_ts then expires else r.next_attempt_ts;
  updated_ts = now;
}

unfoldable pub finish_status_set : ℕ → ℕ → Row → Row
finish_status_set notified next r = record r {
  status_notified_ts = notified;
  next_attempt_ts = next;
  status_claim_token = "";
  status_claim_expires_ts = 0;
  updated_ts = notified;
}

unfoldable pub release_status_set : ℕ → Row → Row
release_status_set now r = record r {
  status_claim_token = "";
  status_claim_expires_ts = 0;
  updated_ts = now;
}

unfoldable pub bind_set : String → String → String → ℕ → ℕ → Row → Row
bind_set portal receiver conversation next now r = record r {
  portal_id = portal;
  portal_receiver = receiver;
  conversation_id = conversation;
  binding_conversation_id = "";
  next_attempt_ts = next;
  updated_ts = now;
}

unfoldable pub awaiting_set : ℕ → ℕ → Row → Row
awaiting_set next now r = record r {
  state = awaiting_echo;
  next_attempt_ts = next;
  updated_ts = now;
}

unfoldable pub uncertain_set : ℕ → ℕ → Row → Row
uncertain_set next now r = record r {
  state = uncertain;
  attempt_count = r.attempt_count + 1;
  next_attempt_ts = next;
  updated_ts = now;
}

-- The SET of markOutboundSendUnconfirmedQuery and markResolvedOutboundSendUnconfirmedQuery.
unfoldable pub unconfirmed_set : ℕ → ℕ → Row → Row
unconfirmed_set terminal next r = record r {
  state = unconfirmed;
  remote_message_id = "";
  terminal_ts = terminal;
  next_attempt_ts = next;
  updated_ts = terminal;
}

unfoldable pub completed_set : ℕ → ℕ → Row → Row
completed_set terminal next r = record r {
  state = completed;
  terminal_ts = terminal;
  next_attempt_ts = next;
  updated_ts = terminal;
}

unfoldable pub retry_set : ℕ → ℕ → Row → Row
retry_set next now r = record r {
  attempt_count = r.attempt_count + 1;
  next_attempt_ts = next;
  updated_ts = now;
}

unfoldable pub claim_remote_set : String → ℕ → ℕ → Row → Row
claim_remote_set remote next now r = record r {
  remote_message_id = remote;
  state = resolved;
  next_attempt_ts = next;
  updated_ts = now;
}

-- EXISTS a receipt for the row's event, under the row's own identity.
unfoldable pub has_own_receipt : Db → Row → Bool
has_own_receipt db r =
    any
      (λ receipt.
        str_eq receipt.bridge_id r.bridge_id
        && str_eq receipt.matrix_event_id r.matrix_event_id
        && str_eq receipt.user_login_id r.user_login_id
        && str_eq receipt.transaction_id r.transaction_id)
      db.receipts

abbrev told : Row → Bool
told r =
    is_empty r.remote_message_id
    && ltb 0 r.terminal_ts
    && ltb 0 r.status_notified_ts
    && is_empty r.status_claim_token

-- The key of the row that a statement is about: $1, $2, $3.
module _ (bridge login txn : String) where
  abbrev keyed : Row → Bool
  keyed r = at_key bridge login txn r

  -- prepareOutboundSendConversationQuery
  unfoldable pub prepare_where : String → Row → Bool
  prepare_where conversation r =
      keyed r
      && is_empty r.conversation_id
      && pending r
      && is_open r.state
      && (is_empty r.binding_conversation_id || str_eq r.binding_conversation_id conversation)

  -- markOutboundSendSubmittingQuery
  unfoldable pub submitting_where : Row → Bool
  submitting_where r = keyed r && is_prepared r.state && r.status_notified_ts == 0 && pending r

  -- markPreparedOutboundNotSubmittedQuery
  unfoldable pub prepared_failed_where : Row → Bool
  prepared_failed_where r = keyed r && is_prepared r.state && r.status_notified_ts == 0 && pending r

  -- markSubmittingOutboundNotSubmittedQuery
  unfoldable pub submitting_failed_where : Row → Bool
  submitting_failed_where r =
      keyed r
      && is_submitting r.state
      && r.status_notified_ts == 0
      && is_empty r.status_claim_token
      && pending r

  -- claimOutboundStatusDeliveryQuery
  unfoldable pub claim_status_where : ℕ → Row → Bool
  claim_status_where now r =
      keyed r
      && r.status_notified_ts == 0
      && ltb 0 r.terminal_ts
      && is_failure r.state
      && (is_empty r.status_claim_token || leb r.status_claim_expires_ts now)

  -- finishOutboundStatusDeliveryQuery
  unfoldable pub finish_status_where : String → Row → Bool
  finish_status_where token r =
      keyed r
      && str_eq r.status_claim_token token
      && r.status_notified_ts == 0
      && ltb 0 r.terminal_ts
      && is_failure r.state

  -- releaseOutboundStatusDeliveryQuery
  unfoldable pub release_status_where : String → Row → Bool
  release_status_where token r =
      keyed r && str_eq r.status_claim_token token && r.status_notified_ts == 0

  -- bindOutboundSendConversationQuery
  unfoldable pub bind_where : String → String → String → Db → Row → Bool
  bind_where portal receiver conversation db r =
      keyed r
      && pending r
      && is_open r.state
      && ((is_empty r.conversation_id && str_eq r.binding_conversation_id conversation)
          || (str_eq r.conversation_id conversation
              && is_empty r.binding_conversation_id
              && str_eq r.portal_id portal
              && str_eq r.portal_receiver receiver))
      && any
          (λ target.
            str_eq target.bridge_id r.bridge_id
            && str_eq target.id portal
            && str_eq target.receiver receiver
            && str_eq target.mxid r.matrix_room_id)
          db.portals

  -- markOutboundSendAwaitingEchoQuery
  unfoldable pub awaiting_where : Row → Bool
  awaiting_where r = keyed r && not (is_empty r.conversation_id) && pending r && in_flight r.state

  -- markOutboundSendUncertainQuery
  unfoldable pub uncertain_where : Row → Bool
  uncertain_where r = keyed r && r.terminal_ts == 0 && in_flight r.state

  -- markOutboundSendUnconfirmedQuery
  unfoldable pub unconfirmed_where : Row → Bool
  unconfirmed_where r = keyed r && pending r && in_flight r.state

  -- markResolvedOutboundSendUnconfirmedQuery
  unfoldable pub resolved_unconfirmed_where : String → Row → Bool
  resolved_unconfirmed_where remote r =
      keyed r && is_resolved r.state && str_eq r.remote_message_id remote && r.terminal_ts == 0

  -- markOutboundSendCompletedQuery
  unfoldable pub completed_where : String → Row → Bool
  completed_where remote r =
      keyed r
      && is_resolved r.state
      && str_eq r.remote_message_id remote
      && r.terminal_ts == 0
      && r.status_notified_ts == 0
      && is_empty r.status_claim_token

  -- scheduleOutboundSendRetryQuery; its list of states holds all eight
  unfoldable pub retry_where : Row → Bool
  retry_where r = keyed r

  -- claimOutboundRemoteMessageQuery: another send holds the remote message …
  unfoldable pub remote_claimed : String → Db → Row → Bool
  remote_claimed remote db r =
      any
        (λ claimed.
          str_eq claimed.bridge_id bridge
          && str_eq claimed.user_login_id login
          && str_eq claimed.conversation_id r.conversation_id
          && str_eq claimed.remote_message_id remote)
        db.sends

  -- … or a message of the bridge is mapped to it.
  unfoldable pub remote_mapped : String → Db → Row → Bool
  remote_mapped remote db r =
      any
        (λ mapped.
          str_eq mapped.bridge_id bridge
          && str_eq mapped.id remote
          && (str_eq mapped.room_receiver r.portal_receiver || is_empty mapped.room_receiver))
        db.messages

  unfoldable pub claim_remote_where : String → String → Db → Row → Bool
  unfolding remote_claimed remote_mapped
  claim_remote_where remote conversation db r =
      keyed r
      && str_eq r.conversation_id conversation
      && ((in_flight r.state
            && pending r
            && is_empty r.status_claim_token
            && not (remote_claimed remote db r)
            && not (remote_mapped remote db r))
          || (is_resolved r.state && str_eq r.remote_message_id remote))

  -- deletePreparedOutboundSendQuery
  unfoldable pub delete_prepared_where : Row → Bool
  delete_prepared_where r = keyed r && is_prepared r.state && pending r

  -- deleteNotSubmittedOutboundSendQuery
  unfoldable pub delete_not_submitted_where : Db → Row → Bool
  unfolding has_own_receipt
  delete_not_submitted_where db r =
      keyed r && is_not_submitted r.state && told r && has_own_receipt db r

  -- deleteUnconfirmedOutboundSendQuery
  unfoldable pub delete_unconfirmed_where : Db → Row → Bool
  unfolding has_own_receipt
  delete_unconfirmed_where db r =
      keyed r && is_unconfirmed r.state && told r && has_own_receipt db r

-- terminalizeOutboundConversationQuery
unfoldable pub terminalize_where : String → String → String → Row → Bool
terminalize_where bridge login conversation r =
    str_eq r.bridge_id bridge
    && str_eq r.user_login_id login
    && (str_eq r.conversation_id conversation || str_eq r.binding_conversation_id conversation)
    && is_empty r.remote_message_id
    && r.terminal_ts == 0
    && is_open r.state

unfoldable pub terminalize_set : ℕ → ℕ → Row → Row
terminalize_set terminal next r = record r {
  state = if is_prepared r.state then not_submitted else unconfirmed;
  terminal_ts = terminal;
  next_attempt_ts = next;
  updated_ts = terminal;
}
