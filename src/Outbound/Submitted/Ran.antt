-- ===== src/Outbound/Submitted/Ran.antt =====
-- A call of `MarkSubmitting` of pkg/connector/tumblrdb/outbound.go that returned true, as the UPDATE that it ran.
use tumblr_dms.Prelude.{
  ◌≡◌, refl, sym, Bool, true, false, List, Option, none, some, String, Result, ok, err, any,
  if◌then◌else◌, update_where, ap, ◌∙◌, lift, reject_if, ◌>>=◌, ◌>>◌,
}
use tumblr_dms.Prelude.Time.{Time, unix_milli}
use tumblr_dms.Outbound.Rows.{Row, Db, Error, Op, exec_update}
use tumblr_dms.Outbound.Send.{OutboundSendQuery}
use tumblr_dms.Outbound.Create.{reject_some, marshal_baseline}
use tumblr_dms.Outbound.Statements.{submitting_where, submitting_set}
use tumblr_dms.Outbound.Progress.{mark_submitting}

module _ {B : Type 0} (b : B) where
  -- A block that returned did not stop at its guards.
  pub passed-reject_if :
      (c : Bool) (e : Error) (m : Op B) (db : Db)
      → ((reject_if c e >> m) db).0 ≡ ok b
      → (reject_if c e >> m) db ≡ m db
  unfolding ◌>>◌
  passed-reject_if true e m db h = cc
  passed-reject_if false e m db h = refl

  passed-reject_some :
      (o : Option Error) (m : Op B) (db : Db)
      → ((reject_some o >> m) db).0 ≡ ok b
      → (reject_some o >> m) db ≡ m db
  unfolding ◌>>◌ reject_some
  passed-reject_some (some e) m db h = cc
  passed-reject_some none m db h = refl

  passed-lift :
      {A : Type 0} (r : Result Error A) (f : A → Op B) (db : Db)
      → ((lift r >>= f) db).0 ≡ ok b
      → (a : A) × ((lift r >>= f) db ≡ f a db)
  unfolding ◌>>=◌
  passed-lift (ok a) f db h = (a, refl)
  passed-lift (err e) f db h = absurd cc

abbrev outcome : Bool → Bool → Db → Error → Db → Result Error Bool × Db
outcome c b after e db = if c then (ok b, after) else (err e, db)

-- An update that changed rows.
pub changed-exec_update :
    (p : Row → Bool) (f : Row → Row) (db : Db)
    → (exec_update p f db).0 ≡ ok true
    → (any p db.sends ≡ true) × ((exec_update p f db).1.sends ≡ update_where p f db.sends)
unfolding exec_update
changed-exec_update p f db h = if_ok _ _ _ _ db h
  where
    if_ok :
        (c b : Bool) (after : Db) (e : Error) (db : Db)
        → (outcome c b after e db).0 ≡ ok true
        → (b ≡ true) × ((outcome c b after e db).1.sends ≡ after.sends)
    if_ok true b after e db h = (cc, refl)
    if_ok false b after e db h = absurd cc

module _ (oq : OutboundSendQuery) (l t : String) where
  pub ran-mark_submitting :
      (ids : List String) (started next now : Time) (db : Db)
      → (mark_submitting oq l t ids started next now db).0 ≡ ok true
      → (baseline : List String) × (mark_submitting oq l t ids started next now db
          ≡ exec_update
              (submitting_where oq.bridge_id l t)
              (submitting_set baseline (unix_milli started) (unix_milli next) (unix_milli now))
              db)
  unfolding mark_submitting
  ran-mark_submitting ids started next now db h =
      let first = passed-reject_if true _ _ _ db h in
      let h1 = sym (ap (λ (x : Result Error Bool × Db). x.0) first) ∙ h in
      let second = passed-reject_some true _ _ db h1 in
      let h2 = sym (ap (λ (x : Result Error Bool × Db). x.0) second) ∙ h1 in
      let (baseline, third) = passed-lift true (marshal_baseline ids) _ db h2 in
      (baseline, first ∙ second ∙ third)
