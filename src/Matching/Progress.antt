-- ===== src/Matching/Progress.antt =====
-- The main loop of maximumOutboundCandidateMatching in pkg/connector/outbound.go: what holds after the sets below
-- `i` have had their search.
use tumblr_dms.Prelude.{
  ℕ, zero, suc, ◌+◌, ◌≤◌, ◌<◌, ◌≡◌, refl, sym, ap, ◌∙◌, ◌⊎◌, inl, inr, Bool, true, false, not, ◌||◌,
  List, [], Option, some, String, ◌==◌, length, arith, Bool-cases, subst, and_split,
}
use tumblr_dms.Prelude.Each.{or_true, or_right}
use tumblr_dms.Prelude.Maps.{has}
use tumblr_dms.Matching.{Attempt, match_sets, count_success}
use tumblr_dms.Matching.Table.{claims, IsMap}
use tumblr_dms.Matching.Outcome.{Within, IsClosed, HasEdges, seen, Failed, Found, Outcome}
use tumblr_dms.Matching.Sound.{assign-IsSound, Held-grows, not-true}
use tumblr_dms.Matching.Fuel.{search-Returns}

abbrev start : List (String × ℕ) → Attempt
start matched = record { visited = []; matched = matched }

module _ (ids : ℕ → List String) (skip : ℕ → String → Bool) where
  -- Each set below `i` has a message, or all its messages are in the closed part `stuck`.
  pub record Progress (i : ℕ) (matched : List (String × ℕ)) (size : ℕ) : Type 0 where
    pub map : IsMap matched
    pub edges : HasEdges ids skip matched
    pub counted : size ≡ length matched
    pub later : (u : ℕ) → i ≤ u → claims u matched ≡ 0
    pub single : (u : ℕ) → claims u matched ≤ 1
    pub stuck : String → Bool
    pub closed : IsClosed ids skip matched stuck
    pub settled : (u : ℕ) → u < i → (claims u matched ≡ 1) ⊎ Within ids skip u stuck

  Progress-start : Progress 0 [] 0
  Progress-start = record {
    map = tt;
    edges = λ m t h. absurd cc;
    counted = refl;
    later = λ u h. refl;
    single = λ u. omega arith;
    stuck = λ m. false;
    closed = λ m h. absurd cc;
    settled = λ u h. absurd (omega arith);
  }

  Found-Progress :
      (i : ℕ) (matched : List (String × ℕ)) (size : ℕ) (st : Attempt)
      → Progress i matched size
      → Found ids skip i (start matched) st
      → Progress (suc i) st.matched (size + 1)
  Found-Progress i matched size st p f = record {
    map = f.map p.map;
    edges = f.edges p.edges;
    counted = omega (arith, f.size, p.counted);
    later = λ u h. ground (arith, f.counts u, p.later u);
    single = λ u. ground (arith, f.counts u, p.single u, p.later u);
    stuck = p.stuck;
    closed =
        λ m h. let (t, e, within) = p.closed m h in (t, f.apart p.stuck p.closed m h ∙ e, within);
    settled = λ u h. elim (Bool-cases (i == u)) [
      | inl own ↦ inl (ground (arith, f.counts u, p.later u))
      | inr other ↦ elim (p.settled u (ground arith)) [
        | inl one ↦ inl (ground (arith, f.counts u))
        | inr within ↦ inr within
      ]
    ];
  }

  Failed-Progress :
      (i : ℕ) (matched : List (String × ℕ)) (size : ℕ) (st : Attempt)
      → Progress i matched size
      → Failed ids skip i (ids i) (start matched) st
      → Progress (suc i) matched size
  Failed-Progress i matched size st p f = record {
    map = p.map;
    edges = p.edges;
    counted = p.counted;
    later = λ u h. p.later u (omega arith);
    single = p.single;
    stuck = D;
    closed = λ m h. elim (Bool-cases (seen ids skip st m)) [
      | inl own ↦ elim (f.held m own) [
        | inl before ↦ absurd cc
        | inr h' ↦ Held-grows ids skip matched (seen ids skip st) D m (λ k e. rw e refl) h'
      ]
      | inr other ↦
          Held-grows ids skip matched p.stuck D m (λ k. or_true (seen ids skip st k) (p.stuck k))
            (p.closed m (or_right (seen ids skip st m) (p.stuck m) other h))
    ];
    settled = λ u h. elim (Bool-cases (i == u)) [
      | inl own ↦ inr (subst (λ v. Within ids skip v D) (ground arith) own_stuck)
      | inr other ↦ elim (p.settled u (ground arith)) [
        | inl one ↦ inl one
        | inr within ↦ inr (λ m e. or_true (seen ids skip st m) (p.stuck m) (within m e))
      ]
    ];
  }
    where
      D : String → Bool
      D m = seen ids skip st m || p.stuck m

      own_stuck : Within ids skip i D
      own_stuck m e =
          let (listed, fresh) = and_split (has m (ids i)) (not (skip i m)) e in
          let reached = f.covers m listed (not-true (skip i m) fresh) in
          ap (λ b. b || p.stuck m) reached

  module _ (U : List String)
      (listed : (s : ℕ) (m : String) → has m (ids s) ≡ true → has m U ≡ true) where
    abbrev pub Ended : ℕ → Option (List (String × ℕ) × ℕ) → Type 0
    Ended n o =
        (matched : List (String × ℕ)) × (size : ℕ) × (o ≡ some (matched, size))
        × Progress n matched size

    searched :
        (n i : ℕ) (next : List (String × ℕ) → ℕ → Option (List (String × ℕ) × ℕ))
        → ((matched : List (String × ℕ)) (size : ℕ)
            → Progress (suc i) matched size
            → Ended n (next matched size))
        → (matched : List (String × ℕ)) (size : ℕ) → Progress i matched size
        → (b : Bool) (st : Attempt) → Outcome ids skip i (ids i) (start matched) b st
        → Ended n (count_success ids skip next size (some (b, st)))
    searched n i next ih matched size p true st f =
        ih st.matched (size + 1) (Found-Progress i matched size st p f)
    searched n i next ih matched size p false st f =
        ih st.matched size (
          subst (λ P. Progress (suc i) P size) (sym f.same) (Failed-Progress i matched size st p f))

    -- The loop returns, and the invariant holds at its end.
    pub match_sets-Progress :
        (rounds i : ℕ) (matched : List (String × ℕ)) (size : ℕ)
        → Progress i matched size
        → Ended (i + rounds) (match_sets ids skip (suc (length U)) rounds i matched size)
    unfolding match_sets
    match_sets-Progress zero i matched size p =
        (matched, size, refl, subst (λ n. Progress n matched size) (omega arith) p)
    match_sets-Progress (suc rounds) i matched size p =
        let ((b, st), e) = search-Returns ids skip U listed i matched in
        let next = λ (matched' : List (String × ℕ)) (size' : ℕ).
          match_sets ids skip (suc (length U)) rounds (suc i) matched' size' in
        let sum : suc i + rounds ≡ i + suc rounds = omega arith in
        subst (λ o. Ended (i + suc rounds) (count_success ids skip next size o)) (sym e)
          (searched (i + suc rounds) i next
            (λ matched' size' q.
              subst (λ n. Ended n (next matched' size')) sum
                (match_sets-Progress rounds (suc i) matched' size' q))
            matched size p b st (assign-IsSound ids skip (suc (length U)) i (start matched) b st e))

    pub main_loop : (n : ℕ) → Ended n (match_sets ids skip (suc (length U)) n 0 [] 0)
    main_loop n =
        subst (λ k. Ended k (match_sets ids skip (suc (length U)) n 0 [] 0)) (omega arith)
          (match_sets-Progress n 0 [] 0 Progress-start)
