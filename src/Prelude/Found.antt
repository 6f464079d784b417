-- ===== src/Prelude/Found.antt =====
-- Rows that a constraint of the table makes the only ones of their kind.
use Prim.Native.Nat.{ℕ, zero, suc}
use mathlib.Core.Path.{◌≡◌, refl, sym, subst}
use mathlib.Core.Logic.{inl, inr}
use mathlib.Core.Bool.{Bool, true, false}
use mathlib.Core.Option.{some}
use mathlib.Core.List.{List, [], ◌∷◌}
use tumblr_dms.Prelude.Tests.{if◌then◌else◌, Bool-cases, and_split}
use tumblr_dms.Prelude.Lists.{All, any, all, find, get_elem?, update_where, no_conflict}
use tumblr_dms.Prelude.Each.{find-head, find-tail, or_true, or_right}

contra : (b : Bool) → b ≡ true → (if b then false else true) ≡ true → ⊥
contra true e h = cc
contra false e h = cc

module _ {A : Type 0} where
  -- What all rows have, the row that is found has.
  pub find-All :
      (P : A → Type 0) (p : A → Bool) (y : A) (xs : List A) → All P xs → find p xs ≡ some y → P y
  find-All P p y [] _ h = absurd cc
  find-All P p y (x ∷ xs) (q, qs) h = elim (Bool-cases (p x)) [
    | inl e ↦ subst P (find-head p x y xs e h) q
    | inr e ↦ find-All P p y xs qs (find-tail p x y xs e h)
  ]

  pub All-get_elem? :
      (P : A → Type 0) (y : A) (xs : List A) (i : ℕ) → All P xs → get_elem? xs i ≡ some y → P y
  All-get_elem? P y [] i _ h = absurd cc
  All-get_elem? P y (x ∷ xs) zero (q, qs) h = let same : x ≡ y = cc h in subst P same q
  All-get_elem? P y (x ∷ xs) (suc i) (q, qs) h = All-get_elem? P y xs i qs h

  -- The row that is found passes.
  pub find-passes : (p : A → Bool) (y : A) (xs : List A) → find p xs ≡ some y → p y ≡ true
  find-passes p y [] h = absurd cc
  find-passes p y (x ∷ xs) h = elim (Bool-cases (p x)) [
    | inl e ↦ subst (λ z. p z ≡ true) (find-head p x y xs e h) e
    | inr e ↦ find-passes p y xs (find-tail p x y xs e h)
  ]

  pub all-All : (p : A → Bool) (xs : List A) → all p xs ≡ true → All (λ x. p x ≡ true) xs
  all-All p [] h = tt
  all-All p (x ∷ xs) h = let (e, es) = and_split (p x) (all p xs) h in (e, all-All p xs es)

  module _ (c : A → A → Bool) (q : A → Bool)
      (clash : (x y : A) → q x ≡ true → q y ≡ true → c x y ≡ true) where
    abbrev unlike : A → A → Bool
    unlike x y = if c x y then false else true

    like-not : (x y : A) → q x ≡ true → q y ≡ true → unlike x y ≡ true → ⊥
    like-not x y e f h = let k = clash x y e f in contra (c x y) k h

    rest-unlike :
        (x : A) (xs : List A)
        → q x ≡ true
        → All (λ y. unlike x y ≡ true) xs
        → All (λ y. q y ≡ true → y ≡ x) xs
    rest-unlike x [] e _ = tt
    rest-unlike x (y ∷ ys) e (h, hs) = ((λ f. absurd (like-not x y e f h)), rest-unlike x ys e hs)

    -- A row of a kind of which any two are in conflict is the only one.
    pub find_unique :
        (p : A → Bool) (y : A) (xs : List A)
        → no_conflict c xs ≡ true
        → find p xs ≡ some y
        → q y ≡ true
        → All (λ x. q x ≡ true → x ≡ y) xs
    find_unique p y [] u h e = tt
    find_unique p y (x ∷ xs) u h e =
        let (alone, unique) = and_split (all (unlike x) xs) (no_conflict c xs) u in
        let apart = all-All (unlike x) xs alone in
        elim (Bool-cases (p x)) [
          | inl own ↦
              let same = find-head p x y xs own h in
              (
                (λ _. same),
                subst (λ z. All (λ w. q w ≡ true → w ≡ z) xs) same
                    (rest-unlike x xs (subst (λ z. q z ≡ true) (sym same) e) apart),
              )
          | inr other ↦
              let later = find-tail p x y xs other h in
              (
                (λ f.
                    absurd
                      (like-not x y f e (find-All (λ z. unlike x z ≡ true) p y xs apart later))),
                find_unique p y xs unique later e,
              )
        ]

  -- A row that passes, if it can only be `y`.
  pub any-only :
      (p : A → Bool) (y : A) (xs : List A)
      → All (λ x. p x ≡ true → x ≡ y) xs
      → any p xs ≡ true
      → p y ≡ true
  any-only p y [] _ h = absurd cc
  any-only p y (x ∷ xs) (k, ks) h = elim (Bool-cases (p x)) [
    | inl e ↦ subst (λ z. p z ≡ true) (k e) e
    | inr e ↦ any-only p y xs ks (or_right (p x) (any p xs) e h)
  ]

  pub any-set_all :
      (q p : A → Bool) (f : A → A) (xs : List A)
      → All (λ x. p x ≡ true → q (f x) ≡ true) xs
      → any p xs ≡ true
      → any q (update_where p f xs) ≡ true
  any-set_all q p f [] _ h = h
  any-set_all q p f (x ∷ xs) (k, ks) h = elim (Bool-cases (p x)) [
    | inl c ↦ rw (c, k c) refl
    | inr c ↦ rw c (or_true (q x) _ (any-set_all q p f xs ks (or_right (p x) (any p xs) c h)))
  ]

  -- The rows after an update, from the rows before it.
  pub All-set_where :
      (P Q : A → Type 0) (p : A → Bool) (f : A → A) (xs : List A)
      → ((x : A) → P x → p x ≡ true → Q (f x))
      → ((x : A) → P x → p x ≡ false → Q x)
      → All P xs
      → All Q (update_where p f xs)
  All-set_where P Q p f [] h k _ = tt
  All-set_where P Q p f (x ∷ xs) h k (q, qs) =
      let rest = All-set_where P Q p f xs h k qs in
      elim (Bool-cases (p x)) [ inl e ↦ rw e (h x q e, rest) | inr e ↦ rw e (k x q e, rest) ]
