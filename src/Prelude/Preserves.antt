-- ===== src/Prelude/Preserves.antt =====
-- Invariants of methods, with a rule for each way to build a method.
use mathlib.Core.Path.{◌≡◌, refl}
use mathlib.Core.Bool.{Bool, true, false}
use tumblr_dms.Prelude.Effects.{
  Result, ok, err, Exec, pure, throw, lift, gets, roll_back, txn, reject_if, continue, ◌>>=◌, ◌>>◌,
}

-- A result or an error of `m`: `P` holds of the state after it if it did before.
pub record Preserves {S E A : Type 0} (P : S → Type 0) (m : Exec S E A) : Type 0 where
  pub at : (s : S) → P s → P (m s).1

module _ {S E A : Type 0} {P : S → Type 0} where
  pub Preserves-gets : (f : S → Result E A) → Preserves P (gets f)
  unfolding gets
  Preserves-gets f = record { at = λ _ held. held }

  pub Preserves-throw : (e : E) → Preserves P (throw {S = S} {E = E} {A = A} e)
  unfolding throw
  Preserves-throw e = record { at = λ _ held. held }

  pub Preserves-pure : (a : A) → Preserves P (pure {S = S} {E = E} a)
  unfolding pure
  Preserves-pure a = record { at = λ _ held. held }

  pub Preserves-lift : (r : Result E A) → Preserves P (lift {S = S} r)
  unfolding lift
  Preserves-lift r = record { at = λ _ held. held }

  pub Preserves-txn : (m : Exec S E A) → Preserves P m → Preserves P (txn m)
  unfolding txn
  Preserves-txn m k = record { at = λ s h. keep_result s (m s).0 (m s).1 h (k.at s h) }
    where
      keep_result : (s : S) (r : Result E A) (s' : S) → P s → P s' → P (roll_back s r s').1
      keep_result s (ok a) s' h h' = h'
      keep_result s (err e) s' h h' = h

module _ {S E : Type 0} {P : S → Type 0} where
  pub Preserves-reject_if : (b : Bool) (e : E) → Preserves P (reject_if {S = S} b e)
  unfolding reject_if
  Preserves-reject_if true e = record { at = λ _ held. held }
  Preserves-reject_if false e = record { at = λ _ held. held }

module _ {S E A B : Type 0} {P : S → Type 0} where
  pub Preserves-bind :
      (m : Exec S E A) (f : A → Exec S E B)
      → Preserves P m
      → ((a : A) → Preserves P (f a))
      → Preserves P (m >>= f)
  unfolding ◌>>=◌
  Preserves-bind m f km kf = record { at = λ s h. go (m s).0 (m s).1 (km.at s h) }
    where
      go : (r : Result E A) (s' : S) → P s' → P (continue r f s').1
      go (ok a) s' h = (kf a).at s' h
      go (err e) s' h = h

  pub Preserves-then :
      (m : Exec S E A) (n : Exec S E B) → Preserves P m → Preserves P n → Preserves P (m >> n)
  unfolding ◌>>◌
  Preserves-then m n km kn = record { at = λ s h. go (m s).0 (m s).1 (km.at s h) }
    where
      go : (r : Result E A) (s' : S) → P s' → P (continue r (λ _. n) s').1
      go (ok a) s' h = kn.at s' h
      go (err e) s' h = h

  -- the rest of a block may use that the result is no error
  pub Preserves-lift-bind :
      (r : Result E A) (f : A → Exec S E B)
      → ((a : A) → r ≡ ok a → Preserves P (f a))
      → Preserves P (lift r >>= f)
  unfolding ◌>>=◌
  Preserves-lift-bind (ok a) f k = record { at = λ s h. (k a refl).at s h }
  Preserves-lift-bind (err e) f k = record { at = λ _ held. held }

module _ {S E A : Type 0} {P : S → Type 0} where
  -- the rest of a block may use that a guard has passed
  pub Preserves-guard :
      (b : Bool) (e : E) (m : Exec S E A)
      → (b ≡ false → Preserves P m)
      → Preserves P (reject_if b e >> m)
  unfolding ◌>>◌
  Preserves-guard true e m k = record { at = λ _ held. held }
  Preserves-guard false e m k = record { at = λ s h. (k refl).at s h }

pub ruleset preserves_rules = (
  Preserves-pure, Preserves-throw, Preserves-lift, Preserves-gets, Preserves-reject_if,
  Preserves-bind, Preserves-then, Preserves-txn,
)
