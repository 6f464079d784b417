-- ===== src/Prelude/Effects.antt =====
-- Methods of the program as functions from a state to a result and the state that they leave.
-- What was written before an error stays written; `txn` is a database transaction, which rolls back.
use mathlib.Core.Bool.{Bool, true, false}

pub data Result {ℓ κ} (E : Type κ) (A : Type ℓ) : Type (ℓ ⊔ κ) where
  ok : A → Result E A
  err : E → Result E A

abbrev pub Exec : Type 0 → Type 0 → Type 0 → Type 0
Exec S E A = S → Result E A × S

module _ {S E : Type 0} where
  module _ {A : Type 0} where
    unfoldable pub pure : A → Exec S E A
    pure a s = (ok a, s)

    unfoldable pub throw : E → Exec S E A
    throw e s = (err e, s)

    -- a result that leaves the state alone
    unfoldable pub lift : Result E A → Exec S E A
    lift r s = (r, s)

    unfoldable pub gets : (S → Result E A) → Exec S E A
    gets f s = (f s, s)

    abbrev pub roll_back : S → Result E A → S → Result E A × S
    roll_back old (ok a) new = (ok a, new)
    roll_back old (err e) new = (err e, old)

    -- `DoTxn`: an error undoes what the body wrote
    unfoldable pub txn : Exec S E A → Exec S E A
    txn m s = let (r, s') = m s in roll_back s r s'

  -- `if (bad) { return e; }`
  unfoldable pub reject_if : Bool → E → Exec S E (Unit {0})
  reject_if true e s = (err e, s)
  reject_if false e s = (ok tt, s)

module _ {S E A B : Type 0} where
  abbrev pub continue : Result E A → (A → Exec S E B) → S → Result E B × S
  continue (ok a) f s = f a s
  continue (err e) f s = (err e, s)

  infixl 5 ◌>>=◌ ◌>>◌
  -- opening this opens the actions above too
  unfoldable pub ◌>>=◌ : Exec S E A → (A → Exec S E B) → Exec S E B
  unfolding pure throw lift gets txn reject_if
  ◌>>=◌ m f s = let (r, s') = m s in continue r f s'

  unfoldable pub ◌>>◌ : Exec S E A → Exec S E B → Exec S E B
  unfolding ◌>>=◌
  ◌>>◌ m n s = let (r, s') = m s in continue r (λ _. n) s'
