-- ===== src/Prelude/Each.antt =====
-- What all rows of a table have, through the statements that change rows.
use mathlib.Core.Path.{◌≡◌, refl, ap}
use mathlib.Core.Logic.{◌⊎◌, inl, inr}
use mathlib.Core.Bool.{Bool, true, false, ◌||◌}
use mathlib.Core.Option.{Option, none, some}
use mathlib.Core.List.{List, [], ◌∷◌}
use tumblr_dms.Prelude.Tests.{if◌then◌else◌, Bool-cases}
use tumblr_dms.Prelude.Lists.{All, any, find, update_where, delete_where}

module _ {A : Type 0} (P : A → Type 0) where
  pub All-update_where :
      (p : A → Bool) (f : A → A) (xs : List A)
      → ((x : A) → p x ≡ true → P x → P (f x))
      → All P xs
      → All P (update_where p f xs)
  All-update_where p f [] h _ = tt
  All-update_where p f (x ∷ xs) h (q, qs) =
      let rest = All-update_where p f xs h qs in
      elim (Bool-cases (p x)) [ inl e ↦ rw e (h x e q, rest) | inr e ↦ rw e (q, rest) ]

  pub All-delete_where : (p : A → Bool) (xs : List A) → All P xs → All P (delete_where p xs)
  All-delete_where p [] _ = tt
  All-delete_where p (x ∷ xs) (q, qs) =
      let rest = All-delete_where p xs qs in
      elim (Bool-cases (p x)) [ inl e ↦ rw e rest | inr e ↦ rw e (q, rest) ]

module _ {A : Type 0} (P Q : A → Type 0) where
  pub All-map : (xs : List A) → ((x : A) → P x → Q x) → All P xs → All Q xs
  All-map [] h _ = tt
  All-map (x ∷ xs) h (q, qs) = (h x q, All-map xs h qs)

pub or_right : (a b : Bool) → a ≡ false → (a || b) ≡ true → b ≡ true
or_right true b e h = cc
or_right false b e h = h

pub or_true : (a b : Bool) → b ≡ true → (a || b) ≡ true
or_true true b e = refl
or_true false b e = e

module _ {A : Type 0} where
  -- An update that moves no row out of a WHERE or into it.
  pub any-update_where :
      (q p : A → Bool) (f : A → A) (xs : List A)
      → ((x : A) → q (f x) ≡ q x)
      → any q (update_where p f xs) ≡ any q xs
  any-update_where q p f [] h = refl
  any-update_where q p f (x ∷ xs) h =
      let rest = any-update_where q p f xs h in
      elim (Bool-cases (p x)) [ inl e ↦ rw (e, h x, rest) refl | inr e ↦ rw (e, rest) refl ]

  -- An update that moves the rows of its WHERE into another.
  pub any-set_where :
      (q p : A → Bool) (f : A → A) (xs : List A)
      → ((x : A) → p x ≡ true → q (f x) ≡ true)
      → any p xs ≡ true
      → any q (update_where p f xs) ≡ true
  any-set_where q p f [] h e = e
  any-set_where q p f (x ∷ xs) h e =
      let rest = any-set_where q p f xs h in
      elim (Bool-cases (p x)) [
        | inl c ↦ rw (c, h x c) refl
        | inr c ↦ rw c (or_true (q x) _ (rest (or_right (p x) (any p xs) c e)))
      ]

  -- An update that keeps the rows of a WHERE in it.
  pub any-keep_where :
      (q p : A → Bool) (f : A → A) (xs : List A)
      → ((x : A) → q x ≡ true → q (f x) ≡ true)
      → any q xs ≡ true
      → any q (update_where p f xs) ≡ true
  any-keep_where q p f [] h e = e
  any-keep_where q p f (x ∷ xs) h e =
      let rest = any-keep_where q p f xs h in
      elim (Bool-cases (q x)) [
        | inl c ↦ elim (Bool-cases (p x)) [ inl d ↦ rw (d, h x c) refl | inr d ↦ rw (d, c) refl ]
        | inr c ↦ or_true _ _ (rest (or_right (q x) (any q xs) c e))
      ]

  pub any-delete_where :
      (q p : A → Bool) (xs : List A)
      → All (λ x. q x ≡ true → p x ≡ false) xs
      → any q xs ≡ true
      → any q (delete_where p xs) ≡ true
  any-delete_where q p [] ks h = h
  any-delete_where q p (x ∷ xs) (k, ks) h =
      let rest = any-delete_where q p xs ks in
      elim (Bool-cases (p x)) [
        | inl e ↦ elim (Bool-cases (q x)) [
          | inl c ↦ cc (e, k c)
          | inr c ↦ rw e (rest (or_right (q x) (any q xs) c h))
        ]
        | inr e ↦ elim (Bool-cases (q x)) [
          | inl c ↦ rw (e, c) refl
          | inr c ↦ rw (e, c) (rest (or_right (q x) (any q xs) c h))
        ]
      ]

  pub any-weaken :
      (p q : A → Bool) (xs : List A)
      → ((x : A) → p x ≡ true → q x ≡ true)
      → any p xs ≡ true
      → any q xs ≡ true
  any-weaken p q [] h e = e
  any-weaken p q (x ∷ xs) h e = elim (Bool-cases (p x)) [
    | inl c ↦ rw (h x c) refl
    | inr c ↦ or_true (q x) (any q xs) (any-weaken p q xs h (or_right (p x) (any p xs) c e))
  ]

  -- A deletion leaves a row of another WHERE, or tells something of one that it removes.
  pub any-delete_or :
      (G : Type 0) (q p : A → Bool) (xs : List A)
      → ((x : A) → q x ≡ true → p x ≡ true → G)
      → any q xs ≡ true
      → (any q (delete_where p xs) ≡ true) ⊎ G
  any-delete_or G q p [] k h = inl h
  any-delete_or G q p (x ∷ xs) k h = elim (Bool-cases (p x)) [
    | inl e ↦ elim (Bool-cases (q x)) [
      | inl c ↦ inr (k x c e)
      | inr c ↦ rw e (any-delete_or G q p xs k (or_right (q x) (any q xs) c h))
    ]
    | inr e ↦ elim (Bool-cases (q x)) [
      | inl c ↦ inl (rw (e, c) refl)
      | inr c ↦ rw (e, c) (any-delete_or G q p xs k (or_right (q x) (any q xs) c h))
    ]
  ]

  -- A statement whose WHERE selects no row.
  pub none-where : (p : A → Bool) (xs : List A) → All (λ x. p x ≡ false) xs → any p xs ≡ false
  none-where p [] _ = refl
  none-where p (x ∷ xs) (e, es) = rw (e, none-where p xs es) refl

  pub update_where-none :
      (p : A → Bool) (f : A → A) (xs : List A)
      → All (λ x. p x ≡ false) xs
      → update_where p f xs ≡ xs
  update_where-none p f [] _ = refl
  update_where-none p f (x ∷ xs) (e, es) = rw (e, update_where-none p f xs es) refl

  pub delete_where-none :
      (p : A → Bool) (xs : List A) → All (λ x. p x ≡ false) xs → delete_where p xs ≡ xs
  delete_where-none p [] _ = refl
  delete_where-none p (x ∷ xs) (e, es) = rw (e, delete_where-none p xs es) refl

if_some :
    {A : Type 0} (b : Bool) (x y : A) (o : Option A)
    → b ≡ true
    → (if b then some x else o) ≡ some y
    → x ≡ y
if_some true x y o e h = cc
if_some false x y o e h = cc

if_other :
    {A : Type 0} (b : Bool) (x y : A) (o : Option A)
    → b ≡ false
    → (if b then some x else o) ≡ some y
    → o ≡ some y
if_other true x y o e h = cc
if_other false x y o e h = h

module _ {A : Type 0} (p : A → Bool) where
  -- The row that is found is the first one that passes, and a row passes if one is found.
  pub find-head : (x y : A) (xs : List A) → p x ≡ true → find p (x ∷ xs) ≡ some y → x ≡ y
  find-head x y xs = if_some (p x) x y (find p xs)

  pub find-tail :
      (x y : A) (xs : List A) → p x ≡ false → find p (x ∷ xs) ≡ some y → find p xs ≡ some y
  find-tail x y xs = if_other (p x) x y (find p xs)

  pub find-any : (y : A) (xs : List A) → find p xs ≡ some y → any p xs ≡ true
  find-any y [] h = cc
  find-any y (x ∷ xs) h = elim (Bool-cases (p x)) [
    | inl e ↦ rw e refl
    | inr e ↦ rw e (find-any y xs (find-tail x y xs e h))
  ]

  -- The row that an update finds, if it does not move rows into the WHERE or out of it.
  pub find-set_where :
      (f : A → A) (y : A) (xs : List A)
      → ((x : A) → p (f x) ≡ p x)
      → find p xs ≡ some y
      → find p (update_where p f xs) ≡ some (f y)
  find-set_where f y [] h e = cc
  find-set_where f y (x ∷ xs) h e = elim (Bool-cases (p x)) [
    | inl c ↦ rw (c, h x, c) (ap (λ z. some (f z)) (find-head x y xs c e))
    | inr c ↦ rw (c, c) (find-set_where f y xs h (find-tail x y xs c e))
  ]

  pub find-none : (xs : List A) → find p xs ≡ none → any p xs ≡ false
  find-none [] e = refl
  find-none (x ∷ xs) e = if_none (p x) x (find p xs) e (find-none xs)
    where
      if_none :
          (b : Bool) (x : A) (o : Option A)
          → (if b then some x else o) ≡ none
          → (o ≡ none → any p xs ≡ false)
          → (b || any p xs) ≡ false
      if_none true x o e k = cc
      if_none false x o e k = k e

  pub find-first : (x : A) (xs : List A) → p x ≡ true → find p (x ∷ xs) ≡ some x
  find-first x xs e = rw e refl

module _ {A : Type 0} (q p : A → Bool) (apart : (x : A) → q x ≡ true → p x ≡ false) where
  apart-not : (x : A) → p x ≡ true → q x ≡ false
  apart-not x e = elim (Bool-cases (q x)) [ inl c ↦ cc (e, apart x c) | inr c ↦ c ]

  -- Statements on rows of another WHERE leave the row that is found.
  pub find-delete_apart : (xs : List A) → find q (delete_where p xs) ≡ find q xs
  find-delete_apart [] = refl
  find-delete_apart (x ∷ xs) = elim (Bool-cases (p x)) [
    | inl e ↦ rw (e, apart-not x e) (find-delete_apart xs)
    | inr e ↦ rw e (ap (λ o. if q x then some x else o) (find-delete_apart xs))
  ]

  pub find-update_apart :
      (f : A → A) (xs : List A)
      → ((x : A) → q (f x) ≡ q x)
      → find q (update_where p f xs) ≡ find q xs
  find-update_apart f [] h = refl
  find-update_apart f (x ∷ xs) h = elim (Bool-cases (p x)) [
    | inl e ↦ rw (e, h x, apart-not x e) (find-update_apart f xs h)
    | inr e ↦ rw e (ap (λ o. if q x then some x else o) (find-update_apart f xs h))
  ]
