-- ===== src/Outbound/Receipts.antt =====
-- The terminal receipts of pkg/connector/tumblrdb/outbound.go: `ensureTerminalReceipt` and
-- `withTerminalReceipt`.
use tumblr_dms.Prelude.{
  Bool, true, false, ◌&&◌, ◌||◌, ◌∷◌, Option, none, some, String, Result, ok, err, ltb, str_eq,
  if◌then◌else◌, any, find, pure, ◌>>=◌, ◌>>◌, txn,
}
use tumblr_dms.Outbound.Rows.{Row, Receipt, Db, Error, Op, identity_changed, invalid, at_key}
use tumblr_dms.Outbound.Send.{OutboundSendQuery}

-- The receipt that insertOutboundTerminalReceiptQuery selects from a row.
unfoldable pub receipt_of : Row → Receipt
receipt_of r = record {
  bridge_id = r.bridge_id;
  matrix_event_id = r.matrix_event_id;
  user_login_id = r.user_login_id;
  transaction_id = r.transaction_id;
  terminal_ts = r.terminal_ts;
}

-- The primary key and the unique constraint of tumblr_outbound_receipt.
unfoldable pub receipt_conflict : Receipt → Receipt → Bool
receipt_conflict s r =
    (str_eq s.bridge_id r.bridge_id && str_eq s.matrix_event_id r.matrix_event_id)
    || (str_eq s.bridge_id r.bridge_id
        && str_eq s.user_login_id r.user_login_id
        && str_eq s.transaction_id r.transaction_id)

-- ON CONFLICT DO NOTHING
unfoldable pub add_receipt : Receipt → Db → Db
unfolding receipt_conflict
add_receipt r db =
    if any (λ s. receipt_conflict s r) db.receipts
    then db
    else record db { receipts = r ∷ db.receipts }

-- insertOutboundTerminalReceiptQuery
abbrev pub insert_receipt : Option Row → Db → Db
insert_receipt none db = db
insert_receipt (some r) db = if ltb 0 r.terminal_ts then add_receipt (receipt_of r) db else db

-- getOutboundTerminalReceiptIdentityQuery: the receipt of the event of the send's row.
unfoldable pub receipt_for : Row → Db → Option Receipt
receipt_for r db =
    find (λ s. str_eq s.bridge_id r.bridge_id && str_eq s.matrix_event_id r.matrix_event_id)
      db.receipts

abbrev pub joined_receipt : Option Row → Db → Option Receipt
joined_receipt none db = none
joined_receipt (some r) db = receipt_for r db

module _ (oq : OutboundSendQuery) (login txn_id : String) where
  -- The row of the send.
  abbrev pub send_row : Db → Option Row
  send_row db = find (at_key oq.bridge_id login txn_id) db.sends

  abbrev pub verify_receipt : Option Receipt → Db → Result Error (Unit {0}) × Db
  verify_receipt none db = (err (invalid "permanent outbound event receipt was not saved"), db)
  verify_receipt (some r) db =
      if str_eq r.user_login_id login && str_eq r.transaction_id txn_id
      then (ok tt, db)
      else (err (identity_changed "terminal event receipt belongs to another outbound send"), db)

  -- ensureTerminalReceipt
  unfoldable pub ensure_terminal_receipt : Op (Unit {0})
  ensure_terminal_receipt db =
      let saved = insert_receipt (send_row db) db in
      verify_receipt (joined_receipt (send_row saved) saved) saved

  unfoldable pub receipt_if : Bool → Op Bool
  receipt_if false = pure false
  receipt_if true = do ensure_terminal_receipt; pure true

  -- withTerminalReceipt
  unfoldable pub with_terminal_receipt : Op Bool → Op Bool
  with_terminal_receipt transition = txn (do changed ← transition; receipt_if changed)
