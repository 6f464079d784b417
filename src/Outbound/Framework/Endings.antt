-- ===== src/Outbound/Framework/Endings.antt =====
-- What ends a send with its receipt keeps what the statement and the receipt keep.
use tumblr_dms.Prelude.{ℕ, ◌≡◌, Bool, true, false, List, [], ◌∷◌, String, ok, is_blank, ◌<◌}
use tumblr_dms.Prelude.Preserves.{Preserves, Preserves-txn, Preserves-bind, Preserves-then}
use tumblr_dms.Outbound.Rows.{Row, Db, Op, exec_update}
use tumblr_dms.Outbound.Rows.Checked.{IsChecked}
use tumblr_dms.Outbound.Receipts.{ensure_terminal_receipt, with_terminal_receipt, receipt_if}
use tumblr_dms.Outbound.Send.{PortalKey, OutboundSendQuery}
use tumblr_dms.Outbound.Statements.{
  prepare_where, prepare_set, submitting_where, submitting_set, prepared_failed_where,
  submitting_failed_where, not_submitted_set, claim_status_where, claim_status_set,
  finish_status_where, finish_status_set, release_status_where, release_status_set, bind_where,
  bind_set, awaiting_where, awaiting_set, uncertain_where, uncertain_set, unconfirmed_where,
  resolved_unconfirmed_where, unconfirmed_set, completed_where, completed_set, retry_where,
  retry_set, claim_remote_where, claim_remote_set, terminalize_where, terminalize_set,
}
use tumblr_dms.Outbound.Create.{ne, marshal_baseline}
use tumblr_dms.Outbound.Terminal.{
  ensure_receipts, complete_txn, terminalize, terminalize_txn, completed_receipt_unix_milli,
}
use tumblr_dms.Prelude.Time.{Time, unix_milli, unix_milli-pos}
use tumblr_dms.Outbound.Framework.{leaves, Preserves-with_db, Updates}
use tumblr_dms.Outbound.Framework.Tables.{
  Table, Preserves-exec_update, Preserves-exec_delete, Preserves-ensure_terminal_receipt,
}

module _ {P : Db → Type 0} (oq : OutboundSendQuery)
    (ensure : (l t : String) → Preserves P (ensure_terminal_receipt oq l t)) where
  pub Preserves-with_terminal_receipt :
      (l t : String) (m : Op Bool) → Preserves P m → Preserves P (with_terminal_receipt oq l t m)
  unfolding with_terminal_receipt
  Preserves-with_terminal_receipt l t m k = Preserves-txn _ (Preserves-bind _ _ k receipt_rule)
    where
      receipt_rule : (changed : Bool) → Preserves P (receipt_if oq l t changed)
      receipt_rule true = unfold receipt_if in (search (leaves, ensure))
      receipt_rule false = unfold receipt_if in (search leaves)

  pub Preserves-ensure_receipts :
      (l : String) (ids : List String) → Preserves P (ensure_receipts oq l ids)
  unfolding ensure_receipts
  Preserves-ensure_receipts l [] = search leaves
  Preserves-ensure_receipts l (id ∷ ids) =
      Preserves-then _ _ (ensure l id) (Preserves-ensure_receipts l ids)

  pub Preserves-complete_txn :
      (l t remote : String) (terminal : Time)
      → Preserves P (
          exec_update
            (completed_where oq.bridge_id l t remote)
            (completed_set (unix_milli terminal) completed_receipt_unix_milli))
      → Preserves P (complete_txn oq l t remote terminal)
  unfolding complete_txn
  Preserves-complete_txn l t remote terminal k =
      Preserves-txn _ (Preserves-bind _ _ k (λ changed. search (leaves, ensure) depth 7))

  pub Preserves-terminalize_txn :
      (l c : String) (terminal next : Time)
      → Preserves P (
          exec_update
            (terminalize_where oq.bridge_id l c)
            (terminalize_set (unix_milli terminal) (unix_milli next)))
      → Preserves P (terminalize_txn oq l c terminal next)
  unfolding terminalize_txn terminalize
  Preserves-terminalize_txn l c terminal next k = Preserves-txn _ (
      Preserves-bind _ _ (search leaves)
        (λ ids. Preserves-then _ _ (Preserves-ensure_receipts l ids) (search leaves)))

-- What the SETs of the statements keep of the rows that their WHEREs select.
pub record SetsKeep (oq : OutboundSendQuery) (Q : Row → Type 0) : Type 0 where
  pub prepare :
      (l t c : String) (next now : ℕ) (r : Row)
      → is_blank c ≡ false
      → prepare_where oq.bridge_id l t c r ≡ true
      → IsChecked r
      → IsChecked (prepare_set c next now r)
      → Q r
      → Q (prepare_set c next now r)
  pub submit :
      (l t : String) (ids baseline : List String) (started next now : ℕ) (r : Row)
      → marshal_baseline ids ≡ ok baseline
      → submitting_where oq.bridge_id l t r ≡ true
      → IsChecked r
      → IsChecked (submitting_set baseline started next now r)
      → Q r
      → Q (submitting_set baseline started next now r)
  pub fail_prepared :
      (l t : String) (terminal next : ℕ) (r : Row)
      → 0 < terminal
      → prepared_failed_where oq.bridge_id l t r ≡ true
      → IsChecked r
      → IsChecked (not_submitted_set terminal next r)
      → Q r
      → Q (not_submitted_set terminal next r)
  pub fail_submitting :
      (l t : String) (terminal next : ℕ) (r : Row)
      → 0 < terminal
      → submitting_failed_where oq.bridge_id l t r ≡ true
      → IsChecked r
      → IsChecked (not_submitted_set terminal next r)
      → Q r
      → Q (not_submitted_set terminal next r)
  pub claim_status :
      (l t token : String) (expires now : ℕ) (r : Row)
      → claim_status_where oq.bridge_id l t now r ≡ true
      → IsChecked r
      → IsChecked (claim_status_set token expires now r)
      → Q r
      → Q (claim_status_set token expires now r)
  pub finish_status :
      (l t token : String) (notified next : ℕ) (r : Row)
      → finish_status_where oq.bridge_id l t token r ≡ true
      → IsChecked r
      → IsChecked (finish_status_set notified next r)
      → Q r
      → Q (finish_status_set notified next r)
  pub release_status :
      (l t token : String) (now : ℕ) (r : Row)
      → release_status_where oq.bridge_id l t token r ≡ true
      → IsChecked r
      → IsChecked (release_status_set now r)
      → Q r
      → Q (release_status_set now r)
  pub bind :
      (l t c : String) (key : PortalKey) (db : Db) (next now : ℕ) (r : Row)
      → is_blank c ≡ false
      → oq.key_is_empty key ≡ false
      → ne key.id c ≡ false
      → bind_where oq.bridge_id l t key.id key.receiver c db r ≡ true
      → IsChecked r
      → IsChecked (bind_set key.id key.receiver c next now r)
      → Q r
      → Q (bind_set key.id key.receiver c next now r)
  pub await_echo :
      (l t : String) (next now : ℕ) (r : Row)
      → awaiting_where oq.bridge_id l t r ≡ true
      → IsChecked r
      → IsChecked (awaiting_set next now r)
      → Q r
      → Q (awaiting_set next now r)
  pub doubt :
      (l t : String) (next now : ℕ) (r : Row)
      → uncertain_where oq.bridge_id l t r ≡ true
      → IsChecked r
      → IsChecked (uncertain_set next now r)
      → Q r
      → Q (uncertain_set next now r)
  pub retry :
      (l t : String) (next now : ℕ) (r : Row)
      → retry_where oq.bridge_id l t r ≡ true
      → IsChecked r
      → IsChecked (retry_set next now r)
      → Q r
      → Q (retry_set next now r)
  pub claim_remote :
      (l t c remote : String) (db : Db) (next now : ℕ) (r : Row)
      → is_blank remote ≡ false
      → claim_remote_where oq.bridge_id l t remote c db r ≡ true
      → IsChecked r
      → IsChecked (claim_remote_set remote next now r)
      → Q r
      → Q (claim_remote_set remote next now r)
  pub unconfirm :
      (l t : String) (terminal next : ℕ) (r : Row)
      → 0 < terminal
      → unconfirmed_where oq.bridge_id l t r ≡ true
      → IsChecked r
      → IsChecked (unconfirmed_set terminal next r)
      → Q r
      → Q (unconfirmed_set terminal next r)
  pub unconfirm_resolved :
      (l t remote : String) (terminal next : ℕ) (r : Row)
      → 0 < terminal
      → resolved_unconfirmed_where oq.bridge_id l t remote r ≡ true
      → IsChecked r
      → IsChecked (unconfirmed_set terminal next r)
      → Q r
      → Q (unconfirmed_set terminal next r)
  pub complete :
      (l t remote : String) (terminal next : ℕ) (r : Row)
      → 0 < terminal
      → completed_where oq.bridge_id l t remote r ≡ true
      → IsChecked r
      → IsChecked (completed_set terminal next r)
      → Q r
      → Q (completed_set terminal next r)
  pub terminalize :
      (l c : String) (terminal next : ℕ) (r : Row)
      → 0 < terminal
      → terminalize_where oq.bridge_id l c r ≡ true
      → IsChecked r
      → IsChecked (terminalize_set terminal next r)
      → Q r
      → Q (terminalize_set terminal next r)

module _ {oq : OutboundSendQuery} {Q : Row → Type 0} (k : SetsKeep oq Q) where
  -- An invariant of the rows that the SETs keep is one of the calls.
  pub Updates-Table : Updates oq (Table Q)
  Updates-Table = record {
    prepare = λ l t c next now h0. Preserves-exec_update Q _ _ (λ r. k.prepare l t c next now r h0);
    submit = λ l t ids baseline started next now h0.
        Preserves-exec_update Q _ _ (λ r. k.submit l t ids baseline started next now r h0);
    fail_prepared = λ l t terminal next h0.
        Preserves-with_terminal_receipt oq (Preserves-ensure_terminal_receipt oq) l t _ (
          Preserves-exec_update Q _ _
            (λ r. k.fail_prepared l t (unix_milli terminal) next r (unix_milli-pos terminal h0)));
    fail_submitting = λ l t terminal next h0.
        Preserves-with_terminal_receipt oq (Preserves-ensure_terminal_receipt oq) l t _ (
          Preserves-exec_update Q _ _
            (λ r. k.fail_submitting l t (unix_milli terminal) next r (unix_milli-pos terminal h0)));
    claim_status = λ l t token expires now h0.
        Preserves-exec_update Q _ _ (k.claim_status l t token expires now);
    finish_status = λ l t token notified next h0.
        Preserves-exec_update Q _ _ (k.finish_status l t token (unix_milli notified) next);
    release_status =
        λ l t token now. Preserves-exec_update Q _ _ (λ r. k.release_status l t token now r);
    bind = λ l t c key db next now h0 h1 h2.
        Preserves-exec_update Q _ _ (λ r. k.bind l t c key db next now r h0 h1 h2);
    await_echo = λ l t next now. Preserves-exec_update Q _ _ (λ r. k.await_echo l t next now r);
    doubt = λ l t next now. Preserves-exec_update Q _ _ (λ r. k.doubt l t next now r);
    retry = λ l t next now. Preserves-exec_update Q _ _ (λ r. k.retry l t next now r);
    claim_remote = λ l t c remote db next now h0.
        Preserves-exec_update Q _ _ (λ r. k.claim_remote l t c remote db next now r h0);
    unconfirm = λ l t terminal next h0.
        Preserves-with_terminal_receipt oq (Preserves-ensure_terminal_receipt oq) l t _ (
          Preserves-exec_update Q _ _
            (λ r. k.unconfirm l t (unix_milli terminal) next r (unix_milli-pos terminal h0)));
    unconfirm_resolved = λ l t remote terminal next h0.
        Preserves-with_terminal_receipt oq (Preserves-ensure_terminal_receipt oq) l t _ (
          Preserves-exec_update Q _ _ (λ r.
            k.unconfirm_resolved l t remote (unix_milli terminal) next r
              (unix_milli-pos terminal h0)));
    complete = λ l t remote terminal h0.
        Preserves-complete_txn oq (Preserves-ensure_terminal_receipt oq) l t remote terminal (
          Preserves-exec_update Q _ _
            (λ r. k.complete l t remote (unix_milli terminal) _ r (unix_milli-pos terminal h0)));
    terminalize = λ l c terminal next h0.
        Preserves-terminalize_txn oq (Preserves-ensure_terminal_receipt oq) l c terminal next (
          Preserves-exec_update Q _ _
            (λ r. k.terminalize l c (unix_milli terminal) _ r (unix_milli-pos terminal h0)));
    drop_prepared = λ l t. Preserves-exec_delete _;
    drop_not_submitted = λ l t. Preserves-with_db _ (λ db. Preserves-exec_delete _);
    drop_unconfirmed = λ l t. Preserves-with_db _ (λ db. Preserves-exec_delete _);
  }
