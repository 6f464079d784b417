-- ===== src/Outbound/Framework/Joins.antt =====
-- Invariants joined, and those that every update, deletion and receipt keeps.
use tumblr_dms.Prelude.{Bool, String}
use tumblr_dms.Prelude.Preserves.{Preserves}
use tumblr_dms.Outbound.Rows.{Row, Db, Op, exec_update, exec_delete}
use tumblr_dms.Outbound.Receipts.{ensure_terminal_receipt}
use tumblr_dms.Outbound.Send.{OutboundSendQuery}
use tumblr_dms.Outbound.Framework.{Preserves-with_db, Updates}
use tumblr_dms.Outbound.Framework.Endings.{
  Preserves-with_terminal_receipt, Preserves-complete_txn, Preserves-terminalize_txn,
}

Preserves-both :
    {A : Type 0} {P R : Db → Type 0} {m : Op A}
    → Preserves P m
    → Preserves R m
    → Preserves (λ db. P db × R db) m
Preserves-both k j = record { at = λ s h. (k.at s h.0, j.at s h.1) }

pub Updates-both :
    {oq : OutboundSendQuery} {P R : Db → Type 0}
    → Updates oq P
    → Updates oq R
    → Updates oq (λ db. P db × R db)
Updates-both p r = record {
  prepare = λ l t c next now h0.
      Preserves-both (p.prepare l t c next now h0) (r.prepare l t c next now h0);
  submit = λ l t ids baseline started next now h0.
      Preserves-both (p.submit l t ids baseline started next now h0)
        (r.submit l t ids baseline started next now h0);
  fail_prepared = λ l t terminal next h0.
      Preserves-both (p.fail_prepared l t terminal next h0) (r.fail_prepared l t terminal next h0);
  fail_submitting = λ l t terminal next h0.
      Preserves-both (p.fail_submitting l t terminal next h0)
        (r.fail_submitting l t terminal next h0);
  claim_status = λ l t token expires now h0.
      Preserves-both (p.claim_status l t token expires now h0)
        (r.claim_status l t token expires now h0);
  finish_status = λ l t token notified next h0.
      Preserves-both (p.finish_status l t token notified next h0)
        (r.finish_status l t token notified next h0);
  release_status = λ l t token now.
      Preserves-both (p.release_status l t token now) (r.release_status l t token now);
  bind = λ l t c key db next now h0 h1 h2.
      Preserves-both (p.bind l t c key db next now h0 h1 h2)
        (r.bind l t c key db next now h0 h1 h2);
  await_echo =
      λ l t next now. Preserves-both (p.await_echo l t next now) (r.await_echo l t next now);
  doubt = λ l t next now. Preserves-both (p.doubt l t next now) (r.doubt l t next now);
  retry = λ l t next now. Preserves-both (p.retry l t next now) (r.retry l t next now);
  claim_remote = λ l t c remote db next now h0.
      Preserves-both (p.claim_remote l t c remote db next now h0)
        (r.claim_remote l t c remote db next now h0);
  unconfirm = λ l t terminal next h0.
      Preserves-both (p.unconfirm l t terminal next h0) (r.unconfirm l t terminal next h0);
  unconfirm_resolved = λ l t remote terminal next h0.
      Preserves-both (p.unconfirm_resolved l t remote terminal next h0)
        (r.unconfirm_resolved l t remote terminal next h0);
  complete = λ l t remote terminal h0.
      Preserves-both (p.complete l t remote terminal h0) (r.complete l t remote terminal h0);
  terminalize = λ l c terminal next h0.
      Preserves-both (p.terminalize l c terminal next h0) (r.terminalize l c terminal next h0);
  drop_prepared = λ l t. Preserves-both (p.drop_prepared l t) (r.drop_prepared l t);
  drop_not_submitted = λ l t. Preserves-both (p.drop_not_submitted l t) (r.drop_not_submitted l t);
  drop_unconfirmed = λ l t. Preserves-both (p.drop_unconfirmed l t) (r.drop_unconfirmed l t);
}

module _ {P : Db → Type 0} (oq : OutboundSendQuery)
    (update : (p : Row → Bool) (f : Row → Row) → Preserves P (exec_update p f))
    (delete : (p : Row → Bool) → Preserves P (exec_delete p))
    (ensure : (l t : String) → Preserves P (ensure_terminal_receipt oq l t)) where
  pub Updates-any : Updates oq P
  Updates-any = record {
    prepare = λ l t c next now h0. update _ _;
    submit = λ l t ids baseline started next now h0. update _ _;
    fail_prepared =
        λ l t terminal next h0. Preserves-with_terminal_receipt oq ensure l t _ (update _ _);
    fail_submitting =
        λ l t terminal next h0. Preserves-with_terminal_receipt oq ensure l t _ (update _ _);
    claim_status = λ l t token expires now h0. update _ _;
    finish_status = λ l t token notified next h0. update _ _;
    release_status = λ l t token now. update _ _;
    bind = λ l t c key db next now h0 h1 h2. update _ _;
    await_echo = λ l t next now. update _ _;
    doubt = λ l t next now. update _ _;
    retry = λ l t next now. update _ _;
    claim_remote = λ l t c remote db next now h0. update _ _;
    unconfirm =
        λ l t terminal next h0. Preserves-with_terminal_receipt oq ensure l t _ (update _ _);
    unconfirm_resolved =
        λ l t remote terminal next h0. Preserves-with_terminal_receipt oq ensure l t _ (update _ _);
    complete =
        λ l t remote terminal h0. Preserves-complete_txn oq ensure l t remote terminal (update _ _);
    terminalize =
        λ l c terminal next h0. Preserves-terminalize_txn oq ensure l c terminal next (update _ _);
    drop_prepared = λ l t. delete _;
    drop_not_submitted = λ l t. Preserves-with_db _ (λ db. delete _);
    drop_unconfirmed = λ l t. Preserves-with_db _ (λ db. delete _);
  }
