-- ===== src/Outbound/Handled.antt =====
-- Duplicate suppression: a Matrix event whose send has ended never becomes eligible for another POST.
pub mod Creation
use tumblr_dms.Prelude.{
  ℕ, ◌<◌, ◌≡◌, refl, sym, ◌⊎◌, inl, inr, Bool, true, false, not, ◌&&◌, ◌||◌, List, [], ◌∷◌, Option,
  none, some, String, ok, err, any, all, All, arith, eq_iff, str_eq, if◌then◌else◌, Bool-cases,
  update_where, no_conflict, ap, ◌∙◌, and_split,
}
use tumblr_dms.Prelude.Time.{Time, unix_milli}
use tumblr_dms.Prelude.Preserves.{Preserves}
use tumblr_dms.Outbound.Rows.{
  Row, Receipt, Db, check_row, conflict, exec_update, exec_delete, is_failure, is_completed,
}
use tumblr_dms.Outbound.Rows.Checked.{IsChecked}
use tumblr_dms.Outbound.Send.{PortalKey, OutboundSend, OutboundSendQuery}
use tumblr_dms.Outbound.Create.{new_row, insert_send, is_event_mapped, has_receipt, load_or_create}
use tumblr_dms.Outbound.Receipts.{
  add_receipt, insert_receipt, receipt_of, joined_receipt, send_row, verify_receipt,
  ensure_terminal_receipt,
}
use tumblr_dms.Outbound.Statements.{
  prepare_where, prepare_set, submitting_where, submitting_set, prepared_failed_where,
  submitting_failed_where, not_submitted_set, claim_status_where, claim_status_set,
  finish_status_where, finish_status_set, release_status_where, release_status_set, bind_where,
  bind_set, awaiting_where, awaiting_set, uncertain_where, uncertain_set, unconfirmed_where,
  resolved_unconfirmed_where, unconfirmed_set, completed_where, completed_set, retry_where,
  retry_set, claim_remote_where, claim_remote_set, delete_prepared_where,
  delete_not_submitted_where, delete_unconfirmed_where, terminalize_where, terminalize_set,
}
use tumblr_dms.Outbound.Calls.{Call, perform, perform_all}
use tumblr_dms.Outbound.Framework.{IsCall, Stable, Updates}
use tumblr_dms.Outbound.Framework.Tables.{Table, Preserves-insert_send}
use tumblr_dms.Outbound.Framework.Endings.{SetsKeep, Updates-Table}
use tumblr_dms.Outbound.Framework.Joins.{Updates-both, Updates-any}
use tumblr_dms.Outbound.Framework.Runs.{perform_all_rule}
use tumblr_dms.Outbound.Readable.{has_ended}

receipts-insert_send : (r : Row) (db : Db) → (insert_send r db).1.receipts ≡ db.receipts
unfolding insert_send
receipts-insert_send r db = ground arith

-- A send whose event has a receipt is not inserted.
pub insert_send-receipt :
    (r : Row) (db : Db)
    → has_receipt r.bridge_id r.matrix_event_id db ≡ true
    → insert_send r db ≡ (ok false, db)
unfolding insert_send
insert_send-receipt r db h = ground arith

module _ (bridge event : String) where
  abbrev pub is_of_event : Row → Bool
  is_of_event r = str_eq r.bridge_id bridge && str_eq r.matrix_event_id event

  -- Rows of the event have ended.
  abbrev pub EndedIfOfEvent : Row → Type 0
  EndedIfOfEvent r = is_of_event r ≡ true → has_ended r.state ≡ true

  -- The event has its receipt, and no row of it is open or resolved.
  abbrev pub IsHandled : Db → Type 0
  IsHandled db = Table EndedIfOfEvent db × (has_receipt bridge event db ≡ true)

  has_receipt-add_receipt :
      (r : Receipt) (db : Db)
      → has_receipt bridge event db ≡ true
      → has_receipt bridge event (add_receipt r db) ≡ true
  unfolding add_receipt has_receipt
  has_receipt-add_receipt r db h = ground arith

  has_receipt-insert_receipt :
      (o : Option Row) (db : Db)
      → has_receipt bridge event db ≡ true
      → has_receipt bridge event (insert_receipt o db) ≡ true
  has_receipt-insert_receipt none db h = h
  has_receipt-insert_receipt (some r) db h =
      ground (arith, has_receipt-add_receipt (receipt_of r) db)

  has_receipt-verify_receipt :
      (oq : OutboundSendQuery) (l t : String) (o : Option Receipt) (db : Db)
      → has_receipt bridge event db ≡ true
      → has_receipt bridge event (verify_receipt oq l t o db).1 ≡ true
  has_receipt-verify_receipt oq l t none db h = h
  has_receipt-verify_receipt oq l t (some r) db h = ground arith

  pub has_receipt-ensure_terminal_receipt :
      (oq : OutboundSendQuery) (l t : String) (db : Db)
      → has_receipt bridge event db ≡ true
      → has_receipt bridge event (ensure_terminal_receipt oq l t db).1 ≡ true
  unfolding ensure_terminal_receipt
  has_receipt-ensure_terminal_receipt oq l t db h =
      let saved = insert_receipt (send_row oq l t db) db in
      has_receipt-verify_receipt oq l t (joined_receipt (send_row oq l t saved) saved) saved
        (has_receipt-insert_receipt (send_row oq l t db) db h)

  pub has_receipt-exec_update :
      (p : Row → Bool) (f : Row → Row) (db : Db)
      → has_receipt bridge event db ≡ true
      → has_receipt bridge event (exec_update p f db).1 ≡ true
  unfolding exec_update has_receipt
  has_receipt-exec_update p f db h = ground arith

  pub receipt-updates :
      (oq : OutboundSendQuery) → Updates oq (λ db. has_receipt bridge event db ≡ true)
  unfolding exec_delete has_receipt
  receipt-updates oq =
      Updates-any oq (λ p f. record { at = has_receipt-exec_update p f })
        (λ p. record { at = λ db h. h })
        (λ l t. record { at = has_receipt-ensure_terminal_receipt oq l t })

  ended-sets : (oq : OutboundSendQuery) → SetsKeep oq EndedIfOfEvent
  unfolding prepare_where prepare_set submitting_where submitting_set prepared_failed_where
      submitting_failed_where not_submitted_set claim_status_where claim_status_set
      finish_status_where finish_status_set release_status_where release_status_set bind_where
      bind_set awaiting_where awaiting_set uncertain_where uncertain_set unconfirmed_where
      resolved_unconfirmed_where unconfirmed_set completed_where completed_set retry_where retry_set
      claim_remote_where claim_remote_set terminalize_where terminalize_set
  ended-sets oq = record {
    prepare = λ l t c next now r h0 w _ _ q e. q e;
    submit = λ l t ids baseline started next now r h0 w _ _ q e. ground arith;
    fail_prepared = λ l t terminal next r h0 w _ _ q e. refl;
    fail_submitting = λ l t terminal next r h0 w _ _ q e. refl;
    claim_status = λ l t token expires now r w _ _ q e. q e;
    finish_status = λ l t token notified next r w _ _ q e. q e;
    release_status = λ l t token now r w _ _ q e. q e;
    bind = λ l t c key db next now r h0 h1 h2 w _ _ q e. q e;
    await_echo = λ l t next now r w _ _ q e. ground arith;
    doubt = λ l t next now r w _ _ q e. ground arith;
    retry = λ l t next now r w _ _ q e. q e;
    claim_remote = λ l t c remote db next now r h0 w _ _ q e. ground arith;
    unconfirm = λ l t terminal next r h0 w _ _ q e. refl;
    unconfirm_resolved = λ l t remote terminal next r h0 w _ _ q e. refl;
    complete = λ l t remote terminal next r h0 w _ _ q e. refl;
    terminalize = λ l c terminal next r h0 w _ _ q e. ground arith;
  }

  pub insert_handled :
      (r : Row) (db : Db)
      → is_of_event r ≡ true
      → has_receipt bridge event db ≡ true
      → insert_send r db ≡ (ok false, db)
  insert_handled r db same h =
      let (b, e) = and_split (str_eq r.bridge_id bridge) (str_eq r.matrix_event_id event) same in
      let b' = (eq_iff r.bridge_id bridge).0 b in
      let e' = (eq_iff r.matrix_event_id event).0 e in insert_send-receipt r db (rw (b', e') h)

  pub has_receipt-insert_send :
      (r : Row) (db : Db)
      → has_receipt bridge event (insert_send r db).1 ≡ has_receipt bridge event db
  unfolding has_receipt
  has_receipt-insert_send r db =
      ap (any (λ s. str_eq s.bridge_id bridge && str_eq s.matrix_event_id event))
        (receipts-insert_send r db)

  insert-IsHandled : (r : Row) → Preserves IsHandled (insert_send r)
  insert-IsHandled r = record {
    at = λ db h. elim (Bool-cases (is_of_event r)) [
      | inl same ↦ rw (insert_handled r db same h.1) h
      | inr other ↦ (
        (Preserves-insert_send r (λ c e. cc (other, e))).at db h.0,
        has_receipt-insert_send r db ∙ h.1,
      )
    ];
  }

  -- Whatever is called, an event that is handled stays so.
  pub perform_all-IsHandled :
      (oq : OutboundSendQuery) (calls : List (Time × Call)) (db : Db)
      → All (λ c. IsCall c.1) calls
      → IsHandled db
      → IsHandled (perform_all oq calls db)
  perform_all-IsHandled oq = perform_all_rule (record {
    insert = λ send baseline now _ _ _ _. insert-IsHandled _;
    updates = Updates-both (Updates-Table (ended-sets oq)) (receipt-updates oq);
  })
