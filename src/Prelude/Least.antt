-- ===== src/Prelude/Least.antt =====
-- ORDER BY … LIMIT 1: the selected row passes the WHERE, and no row that passes it comes before.
use Prim.Native.Nat.{ℕ, zero, suc}
use mathlib.Core.Path.{◌≡◌, refl, subst}
use mathlib.Core.Logic.{inl, inr}
use mathlib.Core.Bool.{Bool, true, false}
use mathlib.Core.Option.{Option, none, some}
use mathlib.Core.List.{List, [], ◌∷◌}
use tumblr_dms.Prelude.Tests.{Bool-cases}
use tumblr_dms.Prelude.Lists.{All, any, get_elem?, least, pick, filter_where}
use tumblr_dms.Prelude.Each.{All-map}

-- The row is one of the table's.
abbrev pub IsRow : {A : Type 0} → A → List A → Type 0
IsRow y xs = (i : ℕ) × (get_elem? xs i ≡ some y)

module _ {A : Type 0} (before : A → A → Bool) (R : A → A → Type 0)
    (sooner : (x y : A) → before x y ≡ true → R x y)
    (later : (x y : A) → before x y ≡ false → R y x) (trans : (x y z : A) → R x y → R y z → R x z)
    (p : A → Bool) where
  itself : (x : A) → R x x
  itself x = elim (Bool-cases (before x x)) [ inl e ↦ sooner x x e | inr e ↦ later x x e ]

  -- What a query returns: no row if none passes, or else one that passes, with no row before it that does.
  abbrev pub IsSelected : List A → Option A → Type 0
  IsSelected xs none = All (λ x. p x ≡ false) xs
  IsSelected xs (some y) = IsRow y xs × (p y ≡ true) × All (λ x. p x ≡ true → R y x) xs

  passed-over :
      (o : Option A) (x : A) (xs : List A) → p x ≡ false → IsSelected xs o → IsSelected (x ∷ xs) o
  passed-over none x xs e h = (e, h)
  passed-over (some y) x xs e ((i, at), own, h) = ((suc i, at), own, ((λ k. cc (e, k)), h))

  picked :
      (o : Option A) (x : A) (xs : List A)
      → p x ≡ true
      → IsSelected xs o
      → IsSelected (x ∷ xs) (pick before o x)
  picked none x xs e h = (
    (zero, refl),
    e,
    (
      (λ _. itself x),
      All-map (λ z. p z ≡ false) (λ z. p z ≡ true → R x z) xs (λ z f k. cc (f, k)) h,
    ),
  )
  picked (some y) x xs e ((i, at), own, h) = elim (Bool-cases (before y x)) [
    | inl b ↦ rw b ((suc i, at), own, ((λ _. sooner y x b), h))
    | inr b ↦ rw b (
      (zero, refl),
      e,
      (
        (λ _. itself x),
        All-map (λ z. p z ≡ true → R y z) (λ z. p z ≡ true → R x z) xs
            (λ z le k. trans x y z (later y x b) (le k)) h,
      ),
    )
  ]

  pub least-IsSelected : (xs : List A) → IsSelected xs (least before (filter_where p xs))
  least-IsSelected [] = tt
  least-IsSelected (x ∷ xs) =
      let rest = least-IsSelected xs in
      elim (Bool-cases (p x)) [
        | inl e ↦ rw e (picked (least before (filter_where p xs)) x xs e rest)
        | inr e ↦ rw e (passed-over (least before (filter_where p xs)) x xs e rest)
      ]

  -- A row is selected if one passes.
  pub selected-any : (xs : List A) → least before (filter_where p xs) ≡ none → any p xs ≡ false
  selected-any xs e = none-passes xs (subst (IsSelected xs) e (least-IsSelected xs))
    where
      none-passes : (ys : List A) → All (λ x. p x ≡ false) ys → any p ys ≡ false
      none-passes [] _ = refl
      none-passes (y ∷ ys) (f, fs) = rw f (none-passes ys fs)
