-- ===== src/Outbound/Submitted.antt =====
-- One POST per event: a send of pkg/connector/tumblrdb/outbound.go that was submitted is never prepared again.
pub mod Once
pub mod Ran
pub mod Posts
use tumblr_dms.Prelude.{
  ℕ, ◌<◌, ◌≡◌, refl, sym, ◌⊎◌, inl, inr, Bool, true, false, not, ◌&&◌, ◌||◌, List, [], ◌∷◌, Option,
  none, some, String, ok, err, any, all, All, arith, eq_iff, str_eq, if◌then◌else◌, Bool-cases,
  update_where, delete_where, no_conflict, ap, ◌∙◌, and_split,
}
use tumblr_dms.Prelude.Time.{Time, unix_milli}
use tumblr_dms.Prelude.Preserves.{Preserves}
use tumblr_dms.Prelude.Each.{any-keep_where, any-delete_or, any-weaken}
use tumblr_dms.Outbound.Framework.Tables.{sends-ensure_terminal_receipt}
use tumblr_dms.Outbound.Rows.{
  State, Row, Receipt, Db, check_row, conflict, exec_update, exec_delete, is_prepared, at_key,
  not_submitted, unconfirmed,
}
use tumblr_dms.Outbound.Send.{OutboundSendQuery}
use tumblr_dms.Outbound.Create.{insert_send, has_receipt}
use tumblr_dms.Outbound.Receipts.{
  add_receipt, insert_receipt, joined_receipt, send_row, verify_receipt, ensure_terminal_receipt,
}
use tumblr_dms.Outbound.Statements.{
  prepare_where, prepare_set, submitting_where, submitting_set, prepared_failed_where,
  submitting_failed_where, not_submitted_set, claim_status_where, claim_status_set,
  finish_status_where, finish_status_set, release_status_where, release_status_set, bind_where,
  bind_set, awaiting_where, awaiting_set, uncertain_where, uncertain_set, unconfirmed_where,
  resolved_unconfirmed_where, unconfirmed_set, completed_where, completed_set, retry_where,
  retry_set, claim_remote_where, claim_remote_set, delete_prepared_where, has_own_receipt,
  delete_not_submitted_where, delete_unconfirmed_where, terminalize_where, terminalize_set,
}
use tumblr_dms.Outbound.Framework.{Updates}
use tumblr_dms.Outbound.Progress.{with_db}
use tumblr_dms.Outbound.Framework.Endings.{
  SetsKeep, Preserves-with_terminal_receipt, Preserves-complete_txn, Preserves-terminalize_txn,
}
use tumblr_dms.Outbound.Handled.{
  is_of_event, has_receipt-ensure_terminal_receipt, has_receipt-exec_update,
}

module _ (bridge event : String) where
  -- A row of the event is not prepared.
  abbrev pub PassedIfOfEvent : Row → Type 0
  PassedIfOfEvent r = is_of_event bridge event r ≡ true → is_prepared r.state ≡ false

  -- A row of the event that was submitted or has failed.
  abbrev pub has_started : Row → Bool
  has_started r = is_of_event bridge event r && not (is_prepared r.state)

  -- The event's row has started, or its receipt is there.
  abbrev pub IsStarted : Db → Type 0
  IsStarted db = (any has_started db.sends ≡ true) ⊎ (has_receipt bridge event db ≡ true)

  passed-sets : (oq : OutboundSendQuery) → SetsKeep oq PassedIfOfEvent
  unfolding prepare_set submitting_set not_submitted_set claim_status_set finish_status_set
      release_status_set bind_set awaiting_set uncertain_set unconfirmed_set completed_set retry_set
      claim_remote_set terminalize_set
  passed-sets oq = record {
    prepare = λ l t c next now r h0 w _ _ q e. q e;
    submit = λ l t ids baseline started next now r h0 w _ _ q e. refl;
    fail_prepared = λ l t terminal next r h0 w _ _ q e. refl;
    fail_submitting = λ l t terminal next r h0 w _ _ q e. refl;
    claim_status = λ l t token expires now r w _ _ q e. q e;
    finish_status = λ l t token notified next r w _ _ q e. q e;
    release_status = λ l t token now r w _ _ q e. q e;
    bind = λ l t c key db next now r h0 h1 h2 w _ _ q e. q e;
    await_echo = λ l t next now r w _ _ q e. refl;
    doubt = λ l t next now r w _ _ q e. refl;
    retry = λ l t next now r w _ _ q e. q e;
    claim_remote = λ l t c remote db next now r h0 w _ _ q e. refl;
    unconfirm = λ l t terminal next r h0 w _ _ q e. refl;
    unconfirm_resolved = λ l t remote terminal next r h0 w _ _ q e. refl;
    complete = λ l t remote terminal next r h0 w _ _ q e. refl;
    terminalize = λ l c terminal next r h0 w _ _ q e. ground arith;
  }

  -- A SET after which a row that has started still has.
  abbrev Advances : (Row → Row) → Type 0
  Advances f = (r : Row) → has_started r ≡ true → has_started (f r) ≡ true

  moved :
      (r : Row) (b : Bool)
      → b ≡ true
      → has_started r ≡ true
      → (is_of_event bridge event r && b) ≡ true
  moved r b e h =
      let (own, _) = and_split (is_of_event bridge event r) (not (is_prepared r.state)) h in
      rw (own, e) refl

  IsStarted-exec_update :
      (p : Row → Bool) (f : Row → Row) → Advances f → Preserves IsStarted (exec_update p f)
  IsStarted-exec_update p f adv = record {
    at = λ db h. elim h [
      | inl row ↦ inl (rows db row)
      | inr receipt ↦ inr (has_receipt-exec_update bridge event p f db receipt)
    ];
  }
    where
      rows :
          (db : Db)
          → any has_started db.sends ≡ true
          → any has_started (exec_update p f db).1.sends ≡ true
      rows db row =
          elim (Bool-cases (
            all check_row (update_where p f db.sends)
            && no_conflict conflict (update_where p f db.sends))) [
              | inl e ↦ unfold exec_update in rw e (any-keep_where has_started p f db.sends adv row)
              | inr e ↦ unfold exec_update in rw e row
            ]

  IsStarted-ensure :
      (oq : OutboundSendQuery) (l t : String) → Preserves IsStarted (ensure_terminal_receipt oq l t)
  IsStarted-ensure oq l t = record {
    at = λ db h. elim h [
      | inl row ↦ inl (ap (any has_started) (sends-ensure_terminal_receipt oq l t db) ∙ row)
      | inr receipt ↦ inr (has_receipt-ensure_terminal_receipt bridge event oq l t db receipt)
    ];
  }

  -- A deletion of rows that have not started, or whose receipts are there.
  IsStarted-exec_delete :
      (db : Db) (p : Row → Bool)
      → ((r : Row) → has_started r ≡ true → p r ≡ true → has_receipt bridge event db ≡ true)
      → IsStarted db
      → IsStarted (exec_delete p db).1
  unfolding exec_delete has_receipt
  IsStarted-exec_delete db p k (inl row) =
      any-delete_or (has_receipt bridge event db ≡ true) has_started p db.sends k row
  IsStarted-exec_delete db p k (inr receipt) = inr receipt

  own_receipt-receipt :
      (db : Db) (r : Row)
      → has_started r ≡ true
      → has_own_receipt db r ≡ true
      → has_receipt bridge event db ≡ true
  unfolding has_own_receipt has_receipt
  own_receipt-receipt db r started own =
      let (of_event, _) =
        and_split (is_of_event bridge event r) (not (is_prepared r.state)) started in
      let (b, e) =
        and_split (str_eq r.bridge_id bridge) (str_eq r.matrix_event_id event) of_event in
      any-weaken _ (λ s. str_eq s.bridge_id bridge && str_eq s.matrix_event_id event) db.receipts
        (λ s h. weaker s ((eq_iff r.bridge_id bridge).0 b) ((eq_iff r.matrix_event_id event).0 e) h)
        own
    where
      weaker :
          (s : Receipt)
          → r.bridge_id ≡ bridge
          → r.matrix_event_id ≡ event
          → (str_eq s.bridge_id r.bridge_id
              && str_eq s.matrix_event_id r.matrix_event_id
              && str_eq s.user_login_id r.user_login_id
              && str_eq s.transaction_id r.transaction_id)
            ≡ true
          → (str_eq s.bridge_id bridge && str_eq s.matrix_event_id event) ≡ true
      weaker s eb ee h =
          let (h', _) = and_split _ (str_eq s.transaction_id r.transaction_id) h in
          let (h'', _) = and_split _ (str_eq s.user_login_id r.user_login_id) h' in
          rw (sym eb, sym ee) h''

  ended_state : (b : Bool) → not (is_prepared (if b then not_submitted else unconfirmed)) ≡ true
  ended_state true = refl
  ended_state false = refl

  still_prepared :
      (oq : OutboundSendQuery) (l t : String) (r : Row)
      → has_started r ≡ true
      → delete_prepared_where oq.bridge_id l t r ≡ true
      → ⊥
  unfolding delete_prepared_where
  still_prepared oq l t r started w =
      let (_, passed) =
        and_split (is_of_event bridge event r) (not (is_prepared r.state)) started in
      let (w', _) = and_split _ _ w in
      let (_, prepared) = and_split (at_key oq.bridge_id l t r) (is_prepared r.state) w' in
      ground arith

  pub IsStarted-updates : (oq : OutboundSendQuery) → Updates oq IsStarted
  unfolding prepare_set submitting_set not_submitted_set claim_status_set finish_status_set
      release_status_set bind_set awaiting_set uncertain_set unconfirmed_set completed_set retry_set
      claim_remote_set terminalize_set delete_prepared_where delete_not_submitted_where
      delete_unconfirmed_where
  IsStarted-updates oq =
      let ensure = IsStarted-ensure oq in
      let set : (p : Row → Bool) (f : Row → Row)
          → Advances f
          → Preserves IsStarted (exec_update p f) =
        IsStarted-exec_update in
      record {
        prepare = λ l t c next now h0. set _ _ (λ r e. e);
        submit = λ l t ids baseline started next now h0. set _ _ (λ r e. moved r true refl e);
        fail_prepared = λ l t terminal next h0.
            Preserves-with_terminal_receipt oq ensure l t _ (set _ _ (λ r e. moved r true refl e));
        fail_submitting = λ l t terminal next h0.
            Preserves-with_terminal_receipt oq ensure l t _ (set _ _ (λ r e. moved r true refl e));
        claim_status = λ l t token expires now h0. set _ _ (λ r e. e);
        finish_status = λ l t token notified next h0. set _ _ (λ r e. e);
        release_status = λ l t token now. set _ _ (λ r e. e);
        bind = λ l t c key db next now h0 h1 h2. set _ _ (λ r e. e);
        await_echo = λ l t next now. set _ _ (λ r e. moved r true refl e);
        doubt = λ l t next now. set _ _ (λ r e. moved r true refl e);
        retry = λ l t next now. set _ _ (λ r e. e);
        claim_remote = λ l t c remote db next now h0. set _ _ (λ r e. moved r true refl e);
        unconfirm = λ l t terminal next h0.
            Preserves-with_terminal_receipt oq ensure l t _ (set _ _ (λ r e. moved r true refl e));
        unconfirm_resolved = λ l t remote terminal next h0.
            Preserves-with_terminal_receipt oq ensure l t _ (set _ _ (λ r e. moved r true refl e));
        complete = λ l t remote terminal h0.
            Preserves-complete_txn oq ensure l t remote terminal
              (set _ _ (λ r e. moved r true refl e));
        terminalize = λ l c terminal next h0.
            Preserves-terminalize_txn oq ensure l c terminal next
              (set _ _ (λ r e. moved r _ (ended_state (is_prepared r.state)) e));
        drop_prepared = λ l t. record {
          at = λ db. IsStarted-exec_delete db _ (λ r e w. absurd (still_prepared oq l t r e w));
        };
        drop_not_submitted = λ l t. record {
          at = λ db.
              unfold with_db in
              IsStarted-exec_delete db _
                (λ r e w. own_receipt-receipt db r e (and_split _ (has_own_receipt db r) w).1);
        };
        drop_unconfirmed = λ l t. record {
          at = λ db.
              unfold with_db in
              IsStarted-exec_delete db _
                (λ r e w. own_receipt-receipt db r e (and_split _ (has_own_receipt db r) w).1);
        };
      }
