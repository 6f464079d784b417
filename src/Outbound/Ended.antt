-- ===== src/Outbound/Ended.antt =====
-- What a caller of pkg/connector/tumblrdb/outbound.go may rely on when a method that ends a send returns
-- without an error: the receipt of the send.
use tumblr_dms.Prelude.{
  ◌≡◌, refl, sym, ap, ◌∙◌, Bool, true, false, ◌&&◌, Option, none, some, String, Result, ok, err,
  subst, continue, roll_back, reject_if, pure, txn, ◌>>=◌, ◌>>◌, and_split, eq_iff, str_eq,
  if◌then◌else◌,
}
use tumblr_dms.Prelude.Time.{Time}
use tumblr_dms.Outbound.Rows.{Row, Receipt, Db, Error, Op}
use tumblr_dms.Outbound.Send.{OutboundSendQuery}
use tumblr_dms.Outbound.Receipts.{
  joined_receipt, send_row, insert_receipt, verify_receipt, ensure_terminal_receipt, receipt_if,
  with_terminal_receipt,
}
use tumblr_dms.Outbound.Terminal.{mark_not_submitted, complete_txn, mark_completed}

module _ {A : Type 0} where
  -- `R` holds of what `m` returns and of the database after it.
  pub record Returns (R : A → Db → Type 0) (m : Op A) : Type 0 where
    pub at : (db : Db) (a : A) → (m db).0 ≡ ok a → R a (m db).1

  Returns-guard :
      (R : A → Db → Type 0) (b : Bool) (e : Error) (m : Op A)
      → Returns R m
      → Returns R (reject_if b e >> m)
  unfolding ◌>>◌
  Returns-guard R true e m k = record { at = λ db a h. absurd cc }
  Returns-guard R false e m k = record { at = λ db a h. k.at db a h }

  Returns-txn : (R : A → Db → Type 0) (m : Op A) → Returns R m → Returns R (txn m)
  unfolding txn
  Returns-txn R m k = record { at = λ db a h. kept db (m db).0 (m db).1 a (k.at db a) h }
    where
      kept :
          (db : Db) (r : Result Error A) (db' : Db) (a : A)
          → (r ≡ ok a → R a db')
          → (roll_back db r db').0 ≡ ok a
          → R a (roll_back db r db').1
      kept db (ok b) db' a k h = k h
      kept db (err f) db' a k h = absurd cc

module _ {A B : Type 0} (R : B → Db → Type 0) where
  Returns-bind : (m : Op A) (f : A → Op B) → ((a : A) → Returns R (f a)) → Returns R (m >>= f)
  unfolding ◌>>=◌
  Returns-bind m f k = record { at = λ db b h. next (m db).0 (m db).1 b h }
    where
      next :
          (r : Result Error A) (db : Db) (b : B)
          → (continue r f db).0 ≡ ok b
          → R b (continue r f db).1
      next (ok a) db b h = (k a).at db b h
      next (err e) db b h = absurd cc

  Returns-then : (m : Op A) (n : Op B) → Returns R n → Returns R (m >> n)
  unfolding ◌>>◌
  Returns-then m n k = record { at = λ db b h. next (m db).0 (m db).1 b h }
    where
      next :
          (r : Result Error A) (db : Db) (b : B)
          → (continue r (λ _. n) db).0 ≡ ok b
          → R b (continue r (λ _. n) db).1
      next (ok a) db b h = k.at db b h
      next (err e) db b h = absurd cc

abbrev verdict : Bool → Error → Db → Result Error (Unit {0}) × Db
verdict b e db = if b then (ok tt, db) else (err e, db)

passed-verdict :
    (b : Bool) (e : Error) (db : Db)
    → (verdict b e db).0 ≡ ok tt
    → (b ≡ true) × ((verdict b e db).1 ≡ db)
passed-verdict true e db h = (refl, refl)
passed-verdict false e db h = absurd cc

module _ (oq : OutboundSendQuery) (login id : String) where
  -- The event of the send's row has its receipt, and the receipt names this send.
  abbrev pub HasOwnReceipt : Db → Type 0
  HasOwnReceipt db =
      (s : Receipt) × (joined_receipt (send_row oq login id db) db ≡ some s)
      × (s.user_login_id ≡ login)
      × (s.transaction_id ≡ id)

  verified :
      (o : Option Receipt) (db : Db)
      → (verify_receipt oq login id o db).0 ≡ ok tt
      → ((verify_receipt oq login id o db).1 ≡ db)
        × ((s : Receipt) × (o ≡ some s) × (s.user_login_id ≡ login) × (s.transaction_id ≡ id))
  verified none db h = absurd cc
  verified (some s) db h =
      let (own, same) =
        passed-verdict (str_eq s.user_login_id login && str_eq s.transaction_id id) _ db h in
      let (l, t) = and_split (str_eq s.user_login_id login) (str_eq s.transaction_id id) own in
      (same, (s, refl, (eq_iff s.user_login_id login).0 l, (eq_iff s.transaction_id id).0 t))

  receipt-ensure_terminal_receipt :
      (db : Db)
      → (ensure_terminal_receipt oq login id db).0 ≡ ok tt
      → HasOwnReceipt (ensure_terminal_receipt oq login id db).1
  unfolding ensure_terminal_receipt
  receipt-ensure_terminal_receipt db h =
      let saved = insert_receipt (send_row oq login id db) db in
      let (same, own) = verified (joined_receipt (send_row oq login id saved) saved) saved h in
      subst HasOwnReceipt (sym same) own

  Returns-ensure :
      Returns (λ (_ : Unit {0}) db. HasOwnReceipt db) (ensure_terminal_receipt oq login id)
  Returns-ensure = record { at = λ db a h. receipt-ensure_terminal_receipt db h }

  receipt-receipt_if :
      (b : Bool) (db : Db)
      → (receipt_if oq login id b db).0 ≡ ok true
      → HasOwnReceipt (receipt_if oq login id b db).1
  unfolding receipt_if ◌>>◌ pure
  receipt-receipt_if false db h = absurd cc
  receipt-receipt_if true db h =
      finish (ensure_terminal_receipt oq login id db).0 (ensure_terminal_receipt oq login id db).1
        (λ e. receipt-ensure_terminal_receipt db e) h
    where
      finish :
          (r : Result Error (Unit {0})) (db : Db)
          → (r ≡ ok tt → HasOwnReceipt db)
          → (continue r (λ _. pure true) db).0 ≡ ok true
          → HasOwnReceipt (continue r (λ _. pure true) db).1
      finish (ok tt) db k h = k refl
      finish (err e) db k h = absurd cc

  -- A method that returned true left the receipt.
  abbrev IsReceipted : Bool → Db → Type 0
  IsReceipted changed db = changed ≡ true → HasOwnReceipt db

  Returns-receipt_if : (b : Bool) → Returns IsReceipted (receipt_if oq login id b)
  Returns-receipt_if b = record {
    at = λ db a h e. receipt-receipt_if b db (h ∙ ap (λ (x : Bool). ok x) e);
  }

  Returns-with_terminal_receipt :
      (m : Op Bool) → Returns IsReceipted (with_terminal_receipt oq login id m)
  unfolding with_terminal_receipt
  Returns-with_terminal_receipt m = Returns-txn _ _ (Returns-bind _ m _ Returns-receipt_if)

  Returns-mark_completed :
      (remote : String) (terminal : Time)
      → Returns (λ _ db. HasOwnReceipt db) (mark_completed oq login id remote terminal)
  unfolding mark_completed complete_txn
  Returns-mark_completed remote terminal = Returns-guard _ _ _ _ (
      Returns-guard _ _ _ _
        (Returns-txn _ _ (Returns-bind _ _ _ (λ changed. Returns-then _ _ _ Returns-ensure))))

  Returns-mark_not_submitted :
      (query : Row → Bool) (terminal next : Time)
      → Returns IsReceipted (mark_not_submitted oq login id query terminal next)
  unfolding mark_not_submitted
  Returns-mark_not_submitted query terminal next =
      Returns-guard _ _ _ _ (Returns-guard _ _ _ _ (Returns-with_terminal_receipt _))

  -- When `MarkCompleted` returns without an error, the event of the send has its permanent receipt, and the
  -- receipt names this login and this transaction.
  pub completed_with_receipt :
      (remote : String) (terminal : Time) (db : Db)
      → (mark_completed oq login id remote terminal db).0 ≡ ok tt
      → HasOwnReceipt (mark_completed oq login id remote terminal db).1
  completed_with_receipt remote terminal db h = (Returns-mark_completed remote terminal).at db tt h

  -- When `ClaimPreparedNotSubmitted` or `MarkSubmittingNotSubmitted` returns true, or with any other WHERE,
  -- the event of the send has its permanent receipt, and the receipt names this login and this transaction.
  pub failed_with_receipt :
      (query : Row → Bool) (terminal next : Time) (db : Db)
      → (mark_not_submitted oq login id query terminal next db).0 ≡ ok true
      → HasOwnReceipt (mark_not_submitted oq login id query terminal next db).1
  failed_with_receipt query terminal next db h =
      (Returns-mark_not_submitted query terminal next).at db true h refl
