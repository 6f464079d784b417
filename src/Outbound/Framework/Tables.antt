-- ===== src/Outbound/Framework/Tables.antt =====
-- Invariants that hold row by row. A statement keeps one if its SET keeps it of the rows that its WHERE
-- selects, the constraints of the schema being at hand before and after.
use tumblr_dms.Prelude.{
  ◌≡◌, refl, Bool, true, false, ◌&&◌, List, [], ◌∷◌, Option, none, some, String, inl, inr,
  Bool-cases, arith, all, any, All, and_split, if◌then◌else◌, update_where, delete_where,
  no_conflict, subst, sym, ◌∙◌, ◌||◌,
}
use tumblr_dms.Prelude.Preserves.{Preserves}
use tumblr_dms.Outbound.Rows.{Row, Db, Receipt, check_row, conflict, exec_update, exec_delete}
use tumblr_dms.Outbound.Rows.Checked.{IsChecked, IsChecked-check_row}
use tumblr_dms.Outbound.Send.{OutboundSendQuery}
use tumblr_dms.Outbound.Create.{insert_send, is_event_mapped, has_receipt}
use tumblr_dms.Outbound.Receipts.{
  ensure_terminal_receipt, add_receipt, verify_receipt, insert_receipt, joined_receipt, receipt_of,
  send_row,
}

-- The constraints hold, and `Q` of every row.
pub record Table (Q : Row → Type 0) (db : Db) : Type 0 where
  pub checked : All IsChecked db.sends
  pub unique : no_conflict conflict db.sends ≡ true
  pub rows : All Q db.sends

All-check_row : (rs : List Row) → all check_row rs ≡ true → All IsChecked rs
All-check_row [] h = tt
All-check_row (r ∷ rs) h =
    let (c, cs) = and_split (check_row r) (all check_row rs) h in
    (IsChecked-check_row r c, All-check_row rs cs)

module _ (Q : Row → Type 0) (p : Row → Bool) (f : Row → Row)
    (set : (r : Row) → p r ≡ true → IsChecked r → IsChecked (f r) → Q r → Q (f r)) where
  All-update_where :
      (rs : List Row)
      → All IsChecked rs
      → All IsChecked (update_where p f rs)
      → All Q rs
      → All Q (update_where p f rs)
  All-update_where [] _ _ _ = tt
  All-update_where (r ∷ rs) (c, cs) (c', cs') (q, qs) =
      (one (p r) refl c', All-update_where rs cs cs' qs)
    where
      one : (b : Bool) → p r ≡ b → IsChecked (if b then f r else r) → Q (if b then f r else r)
      one true e c' = set r e c c' q
      one false e c' = q

  pub Preserves-exec_update : Preserves (Table Q) (exec_update p f)
  unfolding exec_update
  Preserves-exec_update = record {
    at = λ db h.
        elim (Bool-cases (
          all check_row (update_where p f db.sends)
          && no_conflict conflict (update_where p f db.sends))) [
            | inl good ↦
                let (cs, u) =
                  and_split (all check_row (update_where p f db.sends))
                    (no_conflict conflict (update_where p f db.sends)) good in
                rw good (
                  let checked = All-check_row (update_where p f db.sends) cs in
                  record {
                    checked = checked;
                    unique = u;
                    rows = All-update_where db.sends h.checked checked h.rows;
                  })
            | inr bad ↦ rw bad h
          ];
  }

module _ (Q : Row → Type 0) where
  All-delete_where : (p : Row → Bool) (rs : List Row) → All Q rs → All Q (delete_where p rs)
  All-delete_where p [] _ = tt
  All-delete_where p (r ∷ rs) (q, qs) = one (p r) (All-delete_where p rs qs)
    where
      one :
          (b : Bool)
          → All Q (delete_where p rs)
          → All Q (if b then delete_where p rs else r ∷ delete_where p rs)
      one true qs' = qs'
      one false qs' = (q, qs')

all-delete_where :
    (c p : Row → Bool) (rs : List Row) → all c rs ≡ true → all c (delete_where p rs) ≡ true
all-delete_where c p [] h = refl
all-delete_where c p (r ∷ rs) h = ground (arith, all-delete_where c p rs)

no_conflict-delete_where :
    (c : Row → Row → Bool) (p : Row → Bool) (rs : List Row)
    → no_conflict c rs ≡ true
    → no_conflict c (delete_where p rs) ≡ true
no_conflict-delete_where c p [] h = refl
no_conflict-delete_where c p (r ∷ rs) h = ground (
  arith,
  no_conflict-delete_where c p rs,
  all-delete_where (λ y. if c r y then false else true) p rs,
)

module _ {Q : Row → Type 0} where
  pub Preserves-exec_delete : (p : Row → Bool) → Preserves (Table Q) (exec_delete p)
  unfolding exec_delete
  Preserves-exec_delete p = record {
    at = λ db h. record {
      checked = All-delete_where IsChecked p db.sends h.checked;
      unique = no_conflict-delete_where conflict p db.sends h.unique;
      rows = All-delete_where Q p db.sends h.rows;
    };
  }

all_of_not_any :
    (c : Row → Bool) (rs : List Row)
    → any c rs ≡ false
    → all (λ y. if c y then false else true) rs ≡ true
all_of_not_any c [] h = refl
all_of_not_any c (r ∷ rs) h = ground (arith, all_of_not_any c rs)

module _ {Q : Row → Type 0} where
  pub Preserves-insert_send : (r : Row) → (IsChecked r → Q r) → Preserves (Table Q) (insert_send r)
  unfolding insert_send
  Preserves-insert_send r q = record {
    at = λ db h.
        elim (Bool-cases (
          is_event_mapped r.bridge_id r.matrix_event_id db
          || has_receipt r.bridge_id r.matrix_event_id db)) [
            | inl known ↦ rw known h
            | inr new ↦ rw new (elim (Bool-cases (check_row r)) [
              | inr bad ↦ rw bad h
              | inl good ↦ rw good (elim (Bool-cases (any (conflict r) db.sends)) [
                | inl clash ↦ rw clash h
                | inr free ↦
                    let c = IsChecked-check_row r good in
                    rw free (record {
                      checked = (c, h.checked);
                      unique = ground (arith, all_of_not_any (conflict r) db.sends free, h.unique);
                      rows = (q c, h.rows);
                    })
              ])
            ])
          ];
  }

  -- What the receipts are has no part in a table of sends.
  Table-sends : {a b : Db} → a.sends ≡ b.sends → Table Q a → Table Q b
  Table-sends e h = record {
    checked = subst (All IsChecked) e h.checked;
    unique = subst (λ rs. no_conflict conflict rs ≡ true) e h.unique;
    rows = subst (All Q) e h.rows;
  }

sends-add_receipt : (r : Receipt) (db : Db) → (add_receipt r db).sends ≡ db.sends
unfolding add_receipt
sends-add_receipt r db = ground arith

sends-insert_receipt : (o : Option Row) (db : Db) → (insert_receipt o db).sends ≡ db.sends
sends-insert_receipt none db = refl
sends-insert_receipt (some r) db = ground (arith, sends-add_receipt (receipt_of r) db)

sends-verify_receipt :
    (oq : OutboundSendQuery) (l t : String) (o : Option Receipt) (db : Db)
    → (verify_receipt oq l t o db).1.sends ≡ db.sends
sends-verify_receipt oq l t none db = refl
sends-verify_receipt oq l t (some r) db = ground arith

-- Saving a receipt leaves the sends alone.
pub sends-ensure_terminal_receipt :
    (oq : OutboundSendQuery) (l t : String) (db : Db)
    → (ensure_terminal_receipt oq l t db).1.sends ≡ db.sends
unfolding ensure_terminal_receipt
sends-ensure_terminal_receipt oq l t db =
    let saved = insert_receipt (send_row oq l t db) db in
    sends-verify_receipt oq l t (joined_receipt (send_row oq l t saved) saved) saved
    ∙ sends-insert_receipt (send_row oq l t db) db

module _ {Q : Row → Type 0} where
  pub Preserves-ensure_terminal_receipt :
      (oq : OutboundSendQuery) (l t : String) → Preserves (Table Q) (ensure_terminal_receipt oq l t)
  Preserves-ensure_terminal_receipt oq l t = record {
    at = λ db h. Table-sends (sym (sends-ensure_terminal_receipt oq l t db)) h;
  }
