-- ===== src/Matching/Fuel.antt =====
-- The search of pkg/connector/outbound.go always returns: each call of `assign` below another has visited one
-- message more.
use tumblr_dms.Prelude.{
  ℕ, zero, suc, ◌+◌, ◌≤◌, ◌<◌, ◌≡◌, refl, inl, inr, Bool, true, false, ◌||◌, List, [], ◌∷◌, ◌++◌,
  Option, none, some, String, str_eq, eq_iff, eq_refl, if◌then◌else◌, length, arith, Bool-cases,
}
use tumblr_dms.Prelude.Each.{or_true, or_right}
use tumblr_dms.Prelude.Maps.{lookup, has}
use tumblr_dms.Matching.{
  CandidateSet, ids_at, all_ids, Attempt, Assign, visit, claim, moved, occupied, round, try_each,
  assign,
}
use tumblr_dms.Matching.Outcome.{IsSound}
use tumblr_dms.Matching.Sound.{or_false, assign-IsSound}

-- How many entries of `U` have not been visited.
abbrev unseen : List String → List String → ℕ
unseen V [] = 0
unseen V (x ∷ U) = (if has x V then 0 else 1) + unseen V U

unseen-grows :
    (V W U : List String)
    → ((m : String) → has m V ≡ true → has m W ≡ true)
    → unseen W U ≤ unseen V U
unseen-grows V W [] g = omega arith
unseen-grows V W (x ∷ U) g =
    let rest = unseen-grows V W U g in
    elim (Bool-cases (has x V)) [
      | inl old ↦ rw (old, g x old) (omega arith)
      | inr new ↦ rw new (ground arith)
    ]

unseen-visit :
    (m : String) (V U : List String)
    → has m U ≡ true
    → has m V ≡ false
    → unseen (m ∷ V) U < unseen V U
unseen-visit m V [] h new = absurd cc
unseen-visit m V (x ∷ U) h new = elim (Bool-cases (str_eq m x)) [
  | inl own ↦
      let e = (eq_iff m x).0 own in
      let less = unseen-grows V (m ∷ V) U (λ k. or_true (str_eq k m) (has k V)) in
      rw (← e, eq_refl m, new) (omega arith)
  | inr other ↦
      let rest = unseen-visit m V U (or_right (str_eq m x) (has m U) other h) new in ground arith
]

unseen-start : (U : List String) → unseen [] U ≡ length U
unseen-start [] = refl
unseen-start (x ∷ U) = omega (arith, unseen-start U)

-- The call has a result.
abbrev pub Returns : {A : Type 0} → Option A → Type 0
Returns {A} o = (r : A) × (o ≡ some r)

module _ (ids : ℕ → List String) (skip : ℕ → String → Bool) (U : List String)
    (listed : (s : ℕ) (m : String) → has m (ids s) ≡ true → has m U ≡ true) where
  -- A search with the `fuel`, below which less than that is unseen, returns.
  abbrev Ends : ℕ → Assign → Type 0
  Ends fuel rec = (s : ℕ) (st : Attempt) → unseen st.visited U < fuel → Returns (rec s st)

  module _ (fuel : ℕ) (rec : Assign) (sound : IsSound ids skip rec) (ends : Ends fuel rec) where
    module _ (s : ℕ) (m : String) (next : Attempt → Option (Bool × Attempt))
        (ih : (st : Attempt) → unseen st.visited U ≤ fuel → Returns (next st)) where
      moved-Returns :
          (t : ℕ) (st : Attempt)
          → unseen st.visited U < fuel
          → (o : Option (Bool × Attempt)) → rec t st ≡ o
          → Returns o
          → Returns (moved ids skip m s next o)
      moved-Returns t st h none e (r, f) = absurd cc
      moved-Returns t st h (some (true, st2)) e f = ((true, claim m s st2), refl)
      moved-Returns t st h (some (false, st2)) e f =
          let failed = sound t st false st2 e in
          ih st2 (omega (arith, unseen-grows st.visited st2.visited U failed.grows))

      occupied-Returns :
          (st : Attempt) (o : Option ℕ)
          → unseen st.visited U < fuel
          → Returns (occupied ids skip rec m s next st o)
      occupied-Returns st none h = ((true, claim m s st), refl)
      occupied-Returns st (some t) h = moved-Returns t st h (rec t st) refl (ends t st h)

      round-Returns :
          (st : Attempt) (c : Bool)
          → (skip s m || has m st.visited) ≡ c
          → has m U ≡ true
          → unseen st.visited U ≤ fuel
          → Returns (round ids skip rec m s next st c)
      round-Returns st true e inside h = ih st h
      round-Returns st false e inside h =
          let new = (or_false (skip s m) (has m st.visited) e).1 in
          occupied-Returns (visit m st) (lookup m st.matched)
            (omega (arith, unseen-visit m st.visited U inside new))

    rounds_return :
        (s : ℕ) (ms : List String) (st : Attempt)
        → ((m : String) → has m ms ≡ true → has m U ≡ true)
        → unseen st.visited U ≤ fuel
        → Returns (try_each ids skip rec s ms st)
    unfolding try_each
    rounds_return s [] st sub h = ((false, st), refl)
    rounds_return s (m ∷ ms) st sub h =
        round-Returns s m (λ st2. try_each ids skip rec s ms st2)
          (λ st2. rounds_return s ms st2 (λ k e. sub k (or_true (str_eq k m) (has k ms) e))) st _
          refl (sub m (rw (eq_refl m) refl)) h

  assign-Ends : (fuel : ℕ) → Ends fuel (assign ids skip fuel)
  unfolding assign
  assign-Ends zero s st h = absurd (omega arith)
  assign-Ends (suc fuel) s st h =
      rounds_return fuel (assign ids skip fuel) (assign-IsSound ids skip fuel) (assign-Ends fuel) s
        (ids s) st (listed s) (omega arith)

  -- So does the search that a round of the main loop starts.
  pub search-Returns :
      (i : ℕ) (matched : List (String × ℕ))
      → Returns (assign ids skip (suc (length U)) i (record { visited = []; matched = matched }))
  search-Returns i matched = assign-Ends (suc (length U)) i _ (omega (arith, unseen-start U))

has-append_left : (k : String) (xs ys : List String) → has k xs ≡ true → has k (xs ++ ys) ≡ true
has-append_left k [] ys h = absurd cc
has-append_left k (x ∷ xs) ys h = elim (Bool-cases (str_eq k x)) [
  | inl own ↦ rw own refl
  | inr other ↦
      or_true (str_eq k x) _ (has-append_left k xs ys (or_right (str_eq k x) (has k xs) other h))
]

has-append_right : (k : String) (xs ys : List String) → has k ys ≡ true → has k (xs ++ ys) ≡ true
has-append_right k [] ys h = h
has-append_right k (x ∷ xs) ys h = or_true (str_eq k x) _ (has-append_right k xs ys h)

-- The messages of a set are among those of all sets.
pub ids_at-has-all_ids :
    (sets : List CandidateSet) (s : ℕ) (m : String)
    → has m (ids_at sets s) ≡ true
    → has m (all_ids sets) ≡ true
ids_at-has-all_ids [] s m h = absurd cc
ids_at-has-all_ids (x ∷ xs) zero m h = has-append_left m x.message_ids (all_ids xs) h
ids_at-has-all_ids (x ∷ xs) (suc s) m h =
    has-append_right m x.message_ids (all_ids xs) (ids_at-has-all_ids xs s m h)
