-- ===== src/Outbound/Submitted/Once.antt =====
-- `MarkSubmitting` of pkg/connector/tumblrdb/outbound.go returns true once for an event, whatever is called.
use tumblr_dms.Prelude.{
  ◌≡◌, refl, sym, inl, inr, Bool, true, false, not, ◌||◌, List, [], ◌∷◌, String, Result, any, All,
  arith, eq_iff, eq_refl, str_eq, Bool-cases, ap, ◌∙◌, subst, and_split,
}
use tumblr_dms.Prelude.Time.{Time}
use tumblr_dms.Prelude.Preserves.{Preserves}
use tumblr_dms.Prelude.Each.{any-weaken, or_true}
use tumblr_dms.Outbound.Rows.{
  Row, Db, Error, conflict, is_prepared, at_key, same_event, same_key, same_remote,
}
use tumblr_dms.Outbound.Send.{OutboundSendQuery}
use tumblr_dms.Outbound.Create.{insert_send}
use tumblr_dms.Outbound.Statements.{submitting_where}
use tumblr_dms.Outbound.Calls.{Call, perform_all}
use tumblr_dms.Outbound.Framework.{IsCall}
use tumblr_dms.Outbound.Framework.Tables.{Table, Preserves-insert_send}
use tumblr_dms.Outbound.Framework.Endings.{Updates-Table}
use tumblr_dms.Outbound.Framework.Joins.{Updates-both}
use tumblr_dms.Outbound.Framework.Runs.{perform_all_rule}
use tumblr_dms.Outbound.Handled.{is_of_event, has_receipt-insert_send, insert_handled}
use tumblr_dms.Outbound.Submitted.{
  PassedIfOfEvent, has_started, IsStarted, passed-sets, IsStarted-updates,
}

module _ (bridge event : String) where
  -- The event's send was submitted: no row of the event is prepared, and one is there or the receipt is.
  abbrev pub IsSubmitted : Db → Type 0
  IsSubmitted db = Table (PassedIfOfEvent bridge event) db × IsStarted bridge event db

  pub same_event-of_event :
      (r s : Row)
      → is_of_event bridge event r ≡ true
      → is_of_event bridge event s ≡ true
      → conflict r s ≡ true
  unfolding same_event conflict same_key
  same_event-of_event r s er es =
      let (br, mr) = and_split (str_eq r.bridge_id bridge) (str_eq r.matrix_event_id event) er in
      let (bs, ms) = and_split (str_eq s.bridge_id bridge) (str_eq s.matrix_event_id event) es in
      or_middle (same_key r s) (same_event r s) (same_remote r s) (
        rw
          (
            (eq_iff r.bridge_id bridge).0 br,
            (eq_iff r.matrix_event_id event).0 mr,
            (eq_iff s.bridge_id bridge).0 bs,
            (eq_iff s.matrix_event_id event).0 ms,
            eq_refl bridge,
            eq_refl event,
          )
          refl)
    where
      or_middle : (a b c : Bool) → b ≡ true → (a || b || c) ≡ true
      or_middle true b c e = refl
      or_middle false b c e = rw e refl

  any-conflict :
      (r : Row) (rows : List Row)
      → is_of_event bridge event r ≡ true
      → any (has_started bridge event) rows ≡ true
      → any (conflict r) rows ≡ true
  any-conflict r rows e h =
      any-weaken (has_started bridge event) (conflict r) rows
        (λ s started.
          same_event-of_event r s e
            (and_split (is_of_event bridge event s) (not (is_prepared s.state)) started).0)
        h

  any-insert_send :
      (q : Row → Bool) (r : Row) (db : Db)
      → any q db.sends ≡ true
      → any q (insert_send r db).1.sends ≡ true
  unfolding insert_send
  any-insert_send q r db h = ground (arith, or_true (q r) (any q db.sends) h)

  IsStarted-insert_send : (r : Row) → Preserves (IsStarted bridge event) (insert_send r)
  IsStarted-insert_send r = record {
    at = λ db h. elim h [
      | inl row ↦ inl (any-insert_send (has_started bridge event) r db row)
      | inr receipt ↦ inr (has_receipt-insert_send bridge event r db ∙ receipt)
    ];
  }

  -- An event that was submitted gets no new row.
  insert_started :
      (r : Row) (db : Db)
      → is_of_event bridge event r ≡ true
      → IsStarted bridge event db
      → (insert_send r db).1 ≡ db
  insert_started r db e (inr receipt) =
      ap (λ (x : Result Error Bool × Db). x.1) (insert_handled bridge event r db e receipt)
  insert_started r db e (inl row) = conflict-insert_send r db (any-conflict r db.sends e row)
    where
      conflict-insert_send :
          (r : Row) (db : Db) → any (conflict r) db.sends ≡ true → (insert_send r db).1 ≡ db
      conflict-insert_send r db h = unfold insert_send in ground (arith, h)

  insert-IsSubmitted : (r : Row) → Preserves IsSubmitted (insert_send r)
  insert-IsSubmitted r = record {
    at = λ db h. elim (Bool-cases (is_of_event bridge event r)) [
      | inl same ↦ subst IsSubmitted (sym (insert_started r db same h.1)) h
      | inr other ↦ (
        (Preserves-insert_send r (λ c e. cc (other, e))).at db h.0,
        (IsStarted-insert_send r).at db h.1,
      )
    ];
  }

  pub perform_all-IsSubmitted :
      (oq : OutboundSendQuery) (calls : List (Time × Call)) (db : Db)
      → All (λ c. IsCall c.1) calls
      → IsSubmitted db
      → IsSubmitted (perform_all oq calls db)
  perform_all-IsSubmitted oq = perform_all_rule (record {
    insert = λ send baseline now _ _ _ _. insert-IsSubmitted _;
    updates =
        Updates-both (Updates-Table (passed-sets bridge event oq))
          (IsStarted-updates bridge event oq);
  })

  -- A row that the key of a statement selects is one of the event.
  abbrev pub IsRowOf : OutboundSendQuery → String → String → Row → Type 0
  IsRowOf oq l t r = at_key oq.bridge_id l t r ≡ true → is_of_event bridge event r ≡ true

  pub no_submitting :
      (oq : OutboundSendQuery) (l t : String) (rows : List Row)
      → All (IsRowOf oq l t) rows
      → All (PassedIfOfEvent bridge event) rows
      → any (submitting_where oq.bridge_id l t) rows ≡ false
  unfolding submitting_where
  no_submitting oq l t [] _ _ = refl
  no_submitting oq l t (r ∷ rows) (k, ks) (p, ps) =
      rw (no_submitting oq l t rows ks ps) (elim (Bool-cases (at_key oq.bridge_id l t r)) [
        | inl e ↦ rw (e, p (k e)) refl
        | inr e ↦ rw e refl
      ])
