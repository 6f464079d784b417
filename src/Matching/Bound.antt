-- ===== src/Matching/Bound.antt =====
-- No matching is larger than the one that the search of pkg/connector/outbound.go ends with: each of its edges
-- meets an entry of it, and no two of them the same.
use tumblr_dms.Prelude.{
  ℕ, suc, ◌≤◌, ◌<◌, ◌≡◌, refl, sym, ◌∙◌, inl, inr, Bool, true, false, ◌||◌, List, [], ◌∷◌, some,
  String, ◌==◌, str_eq, eq_iff, eq_refl, if◌then◌else◌, length, arith, Bool-cases, subst, and_split,
  any, all, All, no_conflict, delete_where,
}
use tumblr_dms.Prelude.Each.{or_true, or_right, delete_where-none, All-map}
use tumblr_dms.Prelude.Found.{all-All}
use tumblr_dms.Prelude.Maps.{lookup}
use tumblr_dms.Matching.Table.{claimed}
use tumblr_dms.Matching.Outcome.{joined, Within}
use tumblr_dms.Matching.Progress.{Progress}

pub unlike_false : (b : Bool) → (if b then false else true) ≡ true → b ≡ false
unlike_false true h = cc
unlike_false false h = refl

module _ {A : Type 0} (c : A → A → Bool) where
  all-delete_where :
      (p q : A → Bool) (xs : List A) → all q xs ≡ true → all q (delete_where p xs) ≡ true
  all-delete_where p q [] h = refl
  all-delete_where p q (x ∷ xs) h =
      let (e, es) = and_split (q x) (all q xs) h in
      let rest = all-delete_where p q xs es in
      elim (Bool-cases (p x)) [ inl d ↦ rw d rest | inr d ↦ rw (d, e) rest ]

  no_conflict-delete_where :
      (p : A → Bool) (xs : List A)
      → no_conflict c xs ≡ true
      → no_conflict c (delete_where p xs) ≡ true
  no_conflict-delete_where p [] h = refl
  no_conflict-delete_where p (x ∷ xs) h =
      let (e, es) = and_split (all (λ y. if c x y then false else true) xs) (no_conflict c xs) h in
      let rest = no_conflict-delete_where p xs es in
      elim (Bool-cases (p x)) [
        | inl d ↦ rw d rest
        | inr d ↦ rw (d, all-delete_where p (λ y. if c x y then false else true) xs e) rest
      ]

  -- Of rows that are in conflict, a deletion takes one at most.
  one_deleted :
      (p : A → Bool) (xs : List A)
      → ((x y : A) → p x ≡ true → p y ≡ true → c x y ≡ true)
      → no_conflict c xs ≡ true
      → length xs ≤ suc (length (delete_where p xs))
  one_deleted p [] clash h = omega arith
  one_deleted p (x ∷ xs) clash h =
      let (e, es) = and_split (all (λ y. if c x y then false else true) xs) (no_conflict c xs) h in
      elim (Bool-cases (p x)) [
        | inl d ↦
            let others =
              All-map (λ y. (if c x y then false else true) ≡ true) (λ y. p y ≡ false) xs
                (λ y u. alone x y d (unlike_false (c x y) u))
                (all-All (λ y. if c x y then false else true) xs e) in
            rw (d, delete_where-none p xs others) (omega arith)
        | inr d ↦ rw d (omega (arith, one_deleted p xs clash es))
      ]
    where
      alone : (x y : A) → p x ≡ true → c x y ≡ false → p y ≡ false
      alone x y d u = elim (Bool-cases (p y)) [ inl k ↦ cc (u, clash x y d k) | inr k ↦ k ]

module _ {A B : Type 0} (hits : A → B → Bool) where
  still_hits :
      (y : B) (ys : List B) (xs : List A)
      → All (λ x. any (hits x) (y ∷ ys) ≡ true) xs
      → All (λ x. any (hits x) ys ≡ true) (delete_where (λ x. hits x y) xs)
  still_hits y ys [] h = tt
  still_hits y ys (x ∷ xs) (h, hs) =
      let rest = still_hits y ys xs hs in
      elim (Bool-cases (hits x y)) [
        | inl d ↦ rw d rest
        | inr d ↦ rw d (or_right (hits x y) (any (hits x) ys) d h, rest)
      ]

  -- If each row hits an entry, and rows that hit one entry are in conflict, there are as many entries.
  pub pigeonhole :
      (c : A → A → Bool) (ys : List B) (xs : List A)
      → ((y : B) (x x' : A) → hits x y ≡ true → hits x' y ≡ true → c x x' ≡ true)
      → no_conflict c xs ≡ true
      → All (λ x. any (hits x) ys ≡ true) xs
      → length xs ≤ length ys
  pigeonhole c [] [] clash u h = omega arith
  pigeonhole c [] (x ∷ xs) clash u (h, hs) = absurd cc
  pigeonhole c (y ∷ ys) xs clash u h =
      let p = λ (x : A). hits x y in
      omega (
        arith,
        one_deleted c p xs (clash y) u,
        pigeonhole c ys (delete_where p xs) clash (no_conflict-delete_where c p xs u)
            (still_hits y ys xs h),
      )

lookup-any :
    (p : String × ℕ → Bool) (k : String) (t : ℕ) (m : List (String × ℕ))
    → lookup k m ≡ some t
    → p (k, t) ≡ true
    → any p m ≡ true
lookup-any p k t [] h e = absurd cc
lookup-any p k t ((j, r) ∷ m) h e = elim (Bool-cases (str_eq j k)) [
  | inl own ↦
      let found : (if str_eq j k then some r else lookup k m) ≡ some t = h in
      let same : r ≡ t = ground (arith, found) in
      let e' : p (j, r) ≡ true =
        subst (λ n. p (n, r) ≡ true) (sym ((eq_iff j k).0 own))
          (subst (λ u. p (k, u) ≡ true) (sym same) e) in
      rw e' refl
  | inr other ↦
      let later : lookup k m ≡ some t = ground arith in
      or_true (p (j, r)) (any p m) (lookup-any p k t m later e)
]

-- Two edges of one set, or of one message.
abbrev pub share : ℕ × String → ℕ × String → Bool
share (s, m) (t, n) = s == t || str_eq m n

module _ (ids : ℕ → List String) (skip : ℕ → String → Bool) (n : ℕ) (matched : List (String × ℕ))
    (size : ℕ) (p : Progress ids skip n matched size) where
  -- In the closed part an entry is met by its message, outside it by its set.
  abbrev meets : ℕ × String → String × ℕ → Bool
  meets (s, m) (k, t) = if p.stuck k then str_eq m k else s == t

  meets-share :
      (y : String × ℕ) (x x' : ℕ × String)
      → meets x y ≡ true
      → meets x' y ≡ true
      → share x x' ≡ true
  meets-share (k, t) (s, m) (s', m') h h' = elim (Bool-cases (p.stuck k)) [
    | inl d ↦ ground (arith, eq_iff m k, eq_iff m' k, eq_iff m m')
    | inr d ↦ ground arith
  ]

  edge_meets :
      (s : ℕ) (m : String) → s < n → joined ids skip s m ≡ true → any (meets (s, m)) matched ≡ true
  edge_meets s m lt edge = elim (Bool-cases (p.stuck m)) [
    | inl d ↦
        let (t, e, _) = p.closed m d in lookup-any (meets (s, m)) m t matched e (rw d (eq_refl m))
    | inr d ↦ elim (p.settled s lt) [
      | inr within ↦ absurd (cc (d, within m edge))
      | inl one ↦
          let (k, e) = claimed s matched p.map (omega arith) in
          lookup-any (meets (s, m)) k s matched e (free k e d)
    ]
  ]
    where
      free :
          (k : String) → lookup k matched ≡ some s → p.stuck m ≡ false → meets (s, m) (k, s) ≡ true
      free k e d = elim (Bool-cases (p.stuck k)) [
        | inl inside ↦
            let (t, e', within) = p.closed k inside in
            let same : some t ≡ some s = sym e' ∙ e in
            let eq : t ≡ s = cc same in
            absurd (cc (d, subst (λ u. Within ids skip u p.stuck) eq within m edge))
        | inr out ↦ rw out (ground arith)
      ]

  edges_meet :
      (xs : List (ℕ × String))
      → All (λ e. (e.0 < n) × (joined ids skip e.0 e.1 ≡ true)) xs
      → All (λ e. any (meets e) matched ≡ true) xs
  edges_meet [] h = tt
  edges_meet ((s, m) ∷ xs) ((lt, e), h) = (edge_meets s m lt e, edges_meet xs h)

  pub edges-le-size :
      (xs : List (ℕ × String))
      → All (λ e. (e.0 < n) × (joined ids skip e.0 e.1 ≡ true)) xs
      → no_conflict share xs ≡ true
      → length xs ≤ size
  edges-le-size xs h u =
      omega (arith, p.counted, pigeonhole meets share matched xs meets-share u (edges_meet xs h))
