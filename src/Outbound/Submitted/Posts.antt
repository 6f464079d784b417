-- ===== src/Outbound/Submitted/Posts.antt =====
-- A send of pkg/connector/tumblrdb/outbound.go is handed to one POST: `MarkSubmitting` returns true at most once
-- for its event.
use tumblr_dms.Prelude.{
  ℕ, ◌≡◌, ◌≢◌, refl, sym, inl, Bool, true, false, ◌&&◌, List, some, String, Result, ok, any, All,
  eq_iff, eq_refl, str_eq, update_where, no_conflict, ap, ◌∙◌, and_split, subst,
}
use tumblr_dms.Prelude.Time.{Time, unix_milli}
use tumblr_dms.Prelude.Found.{find_unique, any-only, any-set_all, All-set_where, find-passes}
use tumblr_dms.Prelude.Each.{All-map}
use tumblr_dms.Outbound.Rows.{Row, Db, Error, Op, conflict, is_prepared, at_key, same_key}
use tumblr_dms.Outbound.Send.{OutboundSendQuery}
use tumblr_dms.Outbound.Receipts.{send_row}
use tumblr_dms.Outbound.Statements.{submitting_where, submitting_set}
use tumblr_dms.Outbound.Progress.{mark_submitting}
use tumblr_dms.Outbound.Calls.{Call, perform_all}
use tumblr_dms.Outbound.Framework.{IsCall}
use tumblr_dms.Outbound.Framework.Tables.{Table, Preserves-exec_update}
use tumblr_dms.Outbound.Handled.{is_of_event}
use tumblr_dms.Outbound.Submitted.{PassedIfOfEvent, has_started}
use tumblr_dms.Outbound.Submitted.Once.{
  IsSubmitted, same_event-of_event, perform_all-IsSubmitted, no_submitting,
}
use tumblr_dms.Outbound.Submitted.Ran.{changed-exec_update, ran-mark_submitting}

true-not-false : (b : Bool) → b ≡ true → b ≡ false → ⊥
true-not-false b e f = cc (e, f)

module _ (oq : OutboundSendQuery) (l t : String) where
  same_key-at_key :
      (x y : Row)
      → at_key oq.bridge_id l t x ≡ true
      → at_key oq.bridge_id l t y ≡ true
      → conflict x y ≡ true
  unfolding conflict same_key
  same_key-at_key x y ex ey =
      let (ex', tx) =
        and_split (str_eq x.bridge_id oq.bridge_id && str_eq x.user_login_id l)
          (str_eq x.transaction_id t) ex in
      let (bx, lx) = and_split (str_eq x.bridge_id oq.bridge_id) (str_eq x.user_login_id l) ex' in
      rw
        (
          (eq_iff x.bridge_id oq.bridge_id).0 bx,
          (eq_iff x.user_login_id l).0 lx,
          (eq_iff x.transaction_id t).0 tx,
          ey,
        )
        refl

  -- The row of the send is the only one of its event and the only one at its key.
  module _ (db : Db) (r : Row) (unique : no_conflict conflict db.sends ≡ true)
      (found : send_row oq l t db ≡ some r) where
    at_key-row : at_key oq.bridge_id l t r ≡ true
    at_key-row = find-passes (at_key oq.bridge_id l t) r db.sends found

    one_of_event : All (λ x. is_of_event r.bridge_id r.matrix_event_id x ≡ true → x ≡ r) db.sends
    one_of_event =
        find_unique conflict (is_of_event r.bridge_id r.matrix_event_id)
          (same_event-of_event r.bridge_id r.matrix_event_id) (at_key oq.bridge_id l t) r db.sends
          unique found (rw (eq_refl r.bridge_id, eq_refl r.matrix_event_id) refl)

    pub one_at_key : All (λ x. at_key oq.bridge_id l t x ≡ true → x ≡ r) db.sends
    one_at_key =
        find_unique conflict (at_key oq.bridge_id l t) same_key-at_key (at_key oq.bridge_id l t) r
          db.sends unique found at_key-row

    one_submitting : All (λ x. submitting_where oq.bridge_id l t x ≡ true → x ≡ r) db.sends
    unfolding submitting_where
    one_submitting =
        All-map (λ x. at_key oq.bridge_id l t x ≡ true → x ≡ r)
          (λ x. submitting_where oq.bridge_id l t x ≡ true → x ≡ r) db.sends
          (λ x only w. only (submitting-at_key x w)) one_at_key
      where
        submitting-at_key :
            (x : Row)
            → submitting_where oq.bridge_id l t x ≡ true
            → at_key oq.bridge_id l t x ≡ true
        submitting-at_key x w =
            let (w', _) = and_split _ _ w in
            let (w'', _) = and_split _ _ w' in (and_split _ (is_prepared x.state) w'').0

    -- The row was prepared when an update of `MarkSubmitting` changed rows.
    submitting-row :
        any (submitting_where oq.bridge_id l t) db.sends ≡ true
        → submitting_where oq.bridge_id l t r ≡ true
    submitting-row h = any-only (submitting_where oq.bridge_id l t) r db.sends one_submitting h

    passed-submitting :
        (baseline : List String) (started next now : ℕ)
        → any (submitting_where oq.bridge_id l t) db.sends ≡ true
        → All (PassedIfOfEvent r.bridge_id r.matrix_event_id) (
            update_where
              (submitting_where oq.bridge_id l t)
              (submitting_set baseline started next now)
              db.sends)
    unfolding submitting_set
    passed-submitting baseline started next now h =
        All-set_where (λ x. is_of_event r.bridge_id r.matrix_event_id x ≡ true → x ≡ r)
          (PassedIfOfEvent r.bridge_id r.matrix_event_id) (submitting_where oq.bridge_id l t) _
          db.sends (λ x only w e. refl)
          (λ x only w e.
            let w' = subst (λ z. submitting_where oq.bridge_id l t z ≡ false) (only e) w in
            absurd (true-not-false _ (submitting-row h) w'))
          one_of_event

    started-submitting :
        (baseline : List String) (started next now : ℕ)
        → any (submitting_where oq.bridge_id l t) db.sends ≡ true
        → any (has_started r.bridge_id r.matrix_event_id) (
            update_where
              (submitting_where oq.bridge_id l t)
              (submitting_set baseline started next now)
              db.sends)
          ≡ true
    unfolding submitting_set
    started-submitting baseline started next now h =
        any-set_all (has_started r.bridge_id r.matrix_event_id) (submitting_where oq.bridge_id l t)
          _ db.sends
          (All-map (λ x. submitting_where oq.bridge_id l t x ≡ true → x ≡ r)
            (λ x.
              submitting_where oq.bridge_id l t x ≡ true
              → has_started r.bridge_id r.matrix_event_id
                  (submitting_set baseline started next now x)
                ≡ true)
            db.sends
            (λ x only w.
              subst (λ z. (is_of_event r.bridge_id r.matrix_event_id z && true) ≡ true)
                (sym (only w)) (rw (eq_refl r.bridge_id, eq_refl r.matrix_event_id) refl))
            one_submitting)
          h

-- The arguments of a call of `MarkSubmitting`.
pub record Post : Type 0 where
  pub login : String
  pub transaction : String
  pub baseline : List String
  pub started : Time
  pub next : Time
  pub now : Time

module _ (oq : OutboundSendQuery) where
  abbrev pub submit : Post → Op Bool
  submit p = mark_submitting oq p.login p.transaction p.baseline p.started p.next p.now

  submitted :
      (p : Post) (db : Db) (r : Row)
      → Table (λ _. Unit {0}) db
      → send_row oq p.login p.transaction db ≡ some r
      → (submit p db).0 ≡ ok true
      → IsSubmitted r.bridge_id r.matrix_event_id (submit p db).1
  submitted p db r table found h =
      let (baseline, ran) =
        ran-mark_submitting oq p.login p.transaction p.baseline p.started p.next p.now db h in
      let (changed, sends) =
        changed-exec_update _ _ db (sym (ap (λ (x : Result Error Bool × Db). x.0) ran) ∙ h) in
      let rows = ap (λ (x : Result Error Bool × Db). x.1.sends) ran ∙ sends in
      let w = submitting_where oq.bridge_id p.login p.transaction in
      let f =
        submitting_set baseline (unix_milli p.started) (unix_milli p.next) (unix_milli p.now) in
      let after : Table (λ _. Unit {0}) (submit p db).1 =
        subst (λ (x : Result Error Bool × Db). Table (λ _. Unit {0}) x.1) (sym ran)
          ((Preserves-exec_update (λ _. Unit {0}) w f (λ r _ _ _ _. tt)).at db table) in
      (
        record {
          checked = after.checked;
          unique = after.unique;
          rows = subst (All (PassedIfOfEvent r.bridge_id r.matrix_event_id)) (sym rows) (
              passed-submitting oq p.login p.transaction db r table.unique found baseline
                (unix_milli p.started) (unix_milli p.next) (unix_milli p.now) changed);
        },
        inl (
            ap (any (has_started r.bridge_id r.matrix_event_id)) rows
            ∙ started-submitting oq p.login p.transaction db r table.unique found baseline
                (unix_milli p.started) (unix_milli p.next) (unix_milli p.now) changed),
      )

  -- Once `MarkSubmitting` returned true for a send, it returns true for no send of the same event, whatever
  -- calls come between and under whatever key and arguments. The table's constraints hold at the start,
  -- and a call's content hash is 32 bytes.
  pub posted_once :
      (first : Post) (db : Db) (r : Row) (calls : List (Time × Call)) (again : Post) (r' : Row)
      → Table (λ _. Unit {0}) db
      → send_row oq first.login first.transaction db ≡ some r
      → (submit first db).0 ≡ ok true
      → All (λ c. IsCall c.1) calls
      → send_row oq again.login again.transaction (perform_all oq calls (submit first db).1)
        ≡ some r'
      → is_of_event r.bridge_id r.matrix_event_id r' ≡ true
      → (submit again (perform_all oq calls (submit first db).1)).0 ≢ ok true
  posted_once first db r calls again r' table found h are found' same h' =
      let after = perform_all oq calls (submit first db).1 in
      let (kept, _) =
        perform_all-IsSubmitted r.bridge_id r.matrix_event_id oq calls (submit first db).1 are
          (submitted first db r table found h) in
      let (_, ran) =
        ran-mark_submitting oq again.login again.transaction again.baseline again.started again.next
          again.now after h' in
      let (changed, _) =
        changed-exec_update _ _ after (sym (ap (λ (x : Result Error Bool × Db). x.0) ran) ∙ h') in
      let none =
        no_submitting r.bridge_id r.matrix_event_id oq again.login again.transaction after.sends
          (All-map (λ x. at_key oq.bridge_id again.login again.transaction x ≡ true → x ≡ r') _
            after.sends
            (λ x only k.
              subst (λ z. is_of_event r.bridge_id r.matrix_event_id z ≡ true) (sym (only k)) same)
            (one_at_key oq again.login again.transaction after r' kept.unique found'))
          kept.rows in
      absurd (true-not-false _ changed none)
