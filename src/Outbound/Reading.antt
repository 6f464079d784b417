-- ===== src/Outbound/Reading.antt =====
-- `Get`, `GetByRemoteID`, `GetNextDue`, `ListUnbound` and `ListMatchable` of
-- pkg/connector/tumblrdb/outbound.go: the statements that only read, and the row that each gives to
-- `Scan`.
use tumblr_dms.Prelude.{
  ℕ, Bool, true, false, not, ◌&&◌, ◌||◌, List, [], ◌∷◌, Option, none, some, String, Result, ok, err,
  ltb, leb, ◌==◌, str_eq, if◌then◌else◌, find, is_blank, least, filter_where,
}
use tumblr_dms.Prelude.Time.{Time, is_zero, unix_milli}
use tumblr_dms.Outbound.Rows.{
  State, Row, Error, invalid, is_empty, is_completed, is_resolved, is_submitting, in_flight, at_key,
  Db, uncertain,
}
use tumblr_dms.Outbound.Send.{OutboundSend, OutboundSendQuery, scan}

-- QueryOne: no row, or the first scanned.
abbrev pub query_one : OutboundSendQuery → Option Row → Result Error (Option OutboundSend)
query_one oq none = ok none
query_one oq (some r) = elim (scan oq r) [ ok send ↦ ok (some send) | err e ↦ err e ]

abbrev insert_by {ℓ} : {A : Type ℓ} → (A → A → Bool) → A → List A → List A
insert_by before x [] = x ∷ []
insert_by before x (y ∷ ys) =
    let rest = insert_by before x ys in if before y x then y ∷ rest else x ∷ y ∷ ys

-- ORDER BY
abbrev pub sort_by {ℓ} : {A : Type ℓ} → (A → A → Bool) → List A → List A
sort_by before [] = []
sort_by before (x ∷ xs) = insert_by before x (sort_by before xs)

unfoldable pub cons_result :
    Result Error OutboundSend → Result Error (List OutboundSend) → Result Error (List OutboundSend)
cons_result (ok send) (ok sends) = ok (send ∷ sends)
cons_result (ok send) (err e) = err e
cons_result (err e) _ = err e

-- QueryMany
unfoldable pub query_many : OutboundSendQuery → List Row → Result Error (List OutboundSend)
query_many oq [] = ok []
query_many oq (r ∷ rs) = cons_result (scan oq r) (query_many oq rs)

-- ORDER BY … send_started_ts, created_ts, transaction_id
unfoldable pub sent_before : OutboundSendQuery → Row → Row → Bool
sent_before oq r s =
    if ltb r.send_started_ts s.send_started_ts
    then true
    else if ltb s.send_started_ts r.send_started_ts
    then false
    else if ltb r.created_ts s.created_ts
    then true
    else if ltb s.created_ts r.created_ts
    then false
    else oq.text_before r.transaction_id s.transaction_id

-- ORDER BY next_attempt_ts, send_started_ts, created_ts, transaction_id
unfoldable pub due_before : OutboundSendQuery → Row → Row → Bool
due_before oq r s =
    if ltb r.next_attempt_ts s.next_attempt_ts
    then true
    else if ltb s.next_attempt_ts r.next_attempt_ts
    then false
    else sent_before oq r s

abbrev pub of_login : OutboundSendQuery → String → Row → Bool
of_login oq login r = str_eq r.bridge_id oq.bridge_id && str_eq r.user_login_id login

-- The WHERE of getNextDueOutboundSendQuery.
unfoldable pub is_due : OutboundSendQuery → String → ℕ → Row → Bool
is_due oq login now r =
    of_login oq login r
    && not (is_completed r.state)
    && leb r.next_attempt_ts now
    && (is_empty r.status_claim_token || leb r.status_claim_expires_ts now)

-- The WHERE of listUnboundOutboundSendsQuery.
unfoldable pub is_unbound : OutboundSendQuery → String → Row → Bool
is_unbound oq login r =
    of_login oq login r
    && is_empty r.conversation_id
    && is_empty r.remote_message_id
    && r.terminal_ts == 0
    && is_submitting_or_uncertain r.state
  where
    is_submitting_or_uncertain : State → Bool
    is_submitting_or_uncertain uncertain = true
    is_submitting_or_uncertain s = is_submitting s

-- The WHERE of listMatchableOutboundSendsQuery.
unfoldable pub is_matchable : OutboundSendQuery → String → String → Row → Bool
is_matchable oq login conversation r =
    of_login oq login r
    && str_eq r.conversation_id conversation
    && r.terminal_ts == 0
    && in_flight r.state

module _ (oq : OutboundSendQuery) where
  unfoldable pub get : String → String → Db → Result Error (Option OutboundSend)
  get login txn db =
      if is_blank login
      then err (invalid "user login ID is required to get an outbound send")
      else if is_blank txn
      then err (invalid "transaction ID is required to get an outbound send")
      else query_one oq (find (at_key oq.bridge_id login txn) db.sends)

  unfoldable pub get_by_remote_id :
      String → String → String → Db → Result Error (Option OutboundSend)
  get_by_remote_id login conversation remote db =
      if is_blank login
      then err (invalid "user login ID is required to get an outbound send by remote ID")
      else if is_blank conversation
      then err (invalid "conversation ID is required to get an outbound send by remote ID")
      else if is_blank remote
      then err (invalid "remote message ID is required to get an outbound send")
      else query_one oq (
          find
            (λ r.
              of_login oq login r
              && str_eq r.conversation_id conversation
              && str_eq r.remote_message_id remote
              && is_resolved r.state)
            db.sends)

  -- The row that the query of `GetNextDue` selects.
  unfoldable pub next_due_row : String → ℕ → Db → Option Row
  next_due_row login now db = least (due_before oq) (filter_where (is_due oq login now) db.sends)

  unfoldable pub get_next_due : String → Time → Db → Result Error (Option OutboundSend)
  get_next_due login now db =
      if is_blank login
      then err (invalid "user login ID is required to get the next due outbound send")
      else if is_zero now
      then err (invalid "current time is required to get the next due outbound send")
      else query_one oq (next_due_row login (unix_milli now) db)

  unfoldable pub list_unbound : String → Db → Result Error (List OutboundSend)
  list_unbound login db =
      if is_blank login
      then err (invalid "user login ID is required to list unbound outbound sends")
      else query_many oq (sort_by (sent_before oq) (filter_where (is_unbound oq login) db.sends))

  unfoldable pub list_matchable : String → String → Db → Result Error (List OutboundSend)
  list_matchable login conversation db =
      if is_blank conversation
      then err (invalid "conversation ID is required to list matchable outbound sends")
      else query_many oq
          (sort_by (sent_before oq) (filter_where (is_matchable oq login conversation) db.sends))
