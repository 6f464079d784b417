-- ===== src/Matching/Kept.antt =====
-- The loop of forcedOutboundCandidateMatches in pkg/connector/outbound.go, for any test `b` of an edge: what its map
-- holds for a send.
use tumblr_dms.Prelude.{
  ℕ, zero, suc, ◌+◌, ◌≡◌, refl, sym, ap, ◌∙◌, ◌⊎◌, inl, inr, Bool, true, false, List, [], ◌∷◌,
  Option, none, some, String, str_eq, eq_iff, eq_refl, if◌then◌else◌, arith, Bool-cases, subst,
  and_split, no_conflict, all, All,
}
use tumblr_dms.Prelude.Maps.{lookup, insert}
use tumblr_dms.Matching.{CandidateSet}
use tumblr_dms.Matching.Table.{lookup-insert_self, lookup-insert_other}
use tumblr_dms.Matching.Sound.{some_injective}
use tumblr_dms.Matching.Bound.{unlike_false}
use tumblr_dms.Matching.Spec.{message_at}

abbrev pub send_at : List CandidateSet → ℕ → Option String
send_at [] i = none
send_at (x ∷ xs) zero = x.send
send_at (x ∷ xs) (suc i) = send_at xs i

abbrev pub same_txn : Option String → Option String → Bool
same_txn none b = false
same_txn (some a) none = false
same_txn (some a) (some b) = str_eq a b

abbrev pub same_send : CandidateSet → CandidateSet → Bool
same_send x y = same_txn x.send y.send

same_txn-eq : (txn : String) (o : Option String) → o ≡ some txn → same_txn (some txn) o ≡ true
same_txn-eq txn none h = absurd cc
same_txn-eq txn (some a) h = let same : a ≡ txn = some_injective h in rw same (eq_refl txn)

-- The baseline's edges that a test keeps.
abbrev pub kept : Option String → String → Bool → List (String × String) → List (String × String)
kept none m b forced = forced
kept (some txn) m b forced = if b then insert txn m forced else forced

module _ (b : ℕ → String → Bool) where
  abbrev pub kept_all :
      ℕ → List CandidateSet → List String → List (String × String) → List (String × String)
  kept_all i [] ms forced = forced
  kept_all i (x ∷ xs) [] forced = forced
  kept_all i (x ∷ xs) (m ∷ ms) forced = kept_all (suc i) xs ms (kept x.send m (b i m) forced)

  pub kept_all-none :
      (i : ℕ) (xs : List CandidateSet) (ms : List String) (forced : List (String × String))
      → ((j : ℕ) (m : String) → b j m ≡ false)
      → kept_all i xs ms forced ≡ forced
  kept_all-none i [] ms forced h = refl
  kept_all-none i (x ∷ xs) [] forced h = refl
  kept_all-none i (x ∷ xs) (m ∷ ms) forced h =
      kept_all-none (suc i) xs ms (kept x.send m (b i m) forced) h ∙ skip x.send (b i m) (h i m)
    where
      skip : (o : Option String) (c : Bool) → c ≡ false → kept o m c forced ≡ forced
      skip none c e = refl
      skip (some txn) c e = rw e refl

  kept-source :
      (txn n : String) (o : Option String) (m : String) (c : Bool) (forced : List (String × String))
      → lookup txn (kept o m c forced) ≡ some n
      → (lookup txn forced ≡ some n) ⊎ ((o ≡ some txn) × (m ≡ n) × (c ≡ true))
  kept-source txn n none m c forced h = inl h
  kept-source txn n (some a) m false forced h = inl h
  kept-source txn n (some a) m true forced h = elim (Bool-cases (str_eq a txn)) [
    | inl own ↦
        let eq = (eq_iff a txn).0 own in
        let found : some m ≡ some n =
          sym (lookup-insert_self txn m forced)
          ∙ subst (λ k. lookup txn (insert k m forced) ≡ some n) eq h in
        inr (ap (λ (k : String). some k) eq, some_injective found, refl)
    | inr other ↦ inl (sym (lookup-insert_other a txn m forced other) ∙ h)
  ]

  pub kept_all-source :
      (txn n : String) (i : ℕ) (xs : List CandidateSet) (ms : List String)
      (forced : List (String × String))
      → lookup txn (kept_all i xs ms forced) ≡ some n
      → (lookup txn forced ≡ some n)
        ⊎ ((j : ℕ) × (send_at xs j ≡ some txn) × (message_at ms j ≡ n) × (b (i + j) n ≡ true))
  kept_all-source txn n i [] ms forced h = inl h
  kept_all-source txn n i (x ∷ xs) [] forced h = inl h
  kept_all-source txn n i (x ∷ xs) (m ∷ ms) forced h =
      elim (kept_all-source txn n (suc i) xs ms (kept x.send m (b i m) forced) h) [
        | inr (j, e, f, g) ↦ inr (suc j, e, f, subst (λ k. b k n ≡ true) (omega arith) g)
        | inl here ↦ elim (kept-source txn n x.send m (b i m) forced here) [
          | inl before ↦ inl before
          | inr (e, f, g) ↦
              let g' = subst (λ k. b i k ≡ true) f g in
              inr (0, e, f, subst (λ k. b k n ≡ true) (omega arith) g')
        ]
      ]

  kept-other :
      (txn : String) (o : Option String) (m : String) (c : Bool) (forced : List (String × String))
      → same_txn (some txn) o ≡ false
      → lookup txn (kept o m c forced) ≡ lookup txn forced
  kept-other txn none m c forced h = refl
  kept-other txn (some a) m false forced h = refl
  kept-other txn (some a) m true forced h =
      lookup-insert_other a txn m forced (ground (arith, eq_iff a txn, eq_iff txn a))

  kept_all-other :
      (txn : String) (i : ℕ) (xs : List CandidateSet) (ms : List String)
      (forced : List (String × String))
      → All (λ x. same_txn (some txn) x.send ≡ false) xs
      → lookup txn (kept_all i xs ms forced) ≡ lookup txn forced
  kept_all-other txn i [] ms forced h = refl
  kept_all-other txn i (x ∷ xs) [] forced h = refl
  kept_all-other txn i (x ∷ xs) (m ∷ ms) forced (h, hs) =
      kept_all-other txn (suc i) xs ms (kept x.send m (b i m) forced) hs
      ∙ kept-other txn x.send m (b i m) forced h

  -- The sets after the send's have other sends.
  others :
      (txn : String) (x : CandidateSet) (xs : List CandidateSet)
      → x.send ≡ some txn
      → all (λ y. if same_send x y then false else true) xs ≡ true
      → All (λ y. same_txn (some txn) y.send ≡ false) xs
  others txn x [] e h = tt
  others txn x (y ∷ xs) e h =
      let (first, rest) = and_split (if same_send x y then false else true) _ h in
      (
        subst (λ o. same_txn o y.send ≡ false) e (unlike_false (same_send x y) first),
        others txn x xs e rest,
      )

  module _ (never_empty : (i : ℕ) → b i "" ≡ false) where
    pub kept_all-own :
        (txn n : String) (i j : ℕ) (xs : List CandidateSet) (ms : List String)
        (forced : List (String × String))
        → no_conflict same_send xs ≡ true
        → send_at xs j ≡ some txn
        → message_at ms j ≡ n
        → b (i + j) n ≡ true
        → lookup txn (kept_all i xs ms forced) ≡ some n
    kept_all-own txn n i j [] ms forced u e f g = absurd cc
    kept_all-own txn n i j (x ∷ xs) [] forced u e f g = absurd (cc (never_empty (i + j)))
    kept_all-own txn n i (suc j) (x ∷ xs) (m ∷ ms) forced u e f g =
        let (_, rest) =
          and_split (all (λ y. if same_send x y then false else true) xs) (no_conflict same_send xs)
            u in
        kept_all-own txn n (suc i) j xs ms (kept x.send m (b i m) forced) rest e f
          (subst (λ k. b k n ≡ true) (omega arith) g)
    kept_all-own txn n i zero (x ∷ xs) (m ∷ ms) forced u e f g =
        let (alone, _) =
          and_split (all (λ y. if same_send x y then false else true) xs) (no_conflict same_send xs)
            u in
        let g' : b i m ≡ true =
          subst (λ k. b i k ≡ true) (sym f) (subst (λ k. b k n ≡ true) (omega arith) g) in
        kept_all-other txn (suc i) xs ms (kept x.send m (b i m) forced) (others txn x xs e alone)
        ∙ own x.send (b i m) e g'
      where
        own :
            (o : Option String) (c : Bool)
            → o ≡ some txn
            → c ≡ true
            → lookup txn (kept o m c forced) ≡ some n
        own none c e' h = absurd cc
        own (some a) c e' h =
            let same : a ≡ txn = some_injective e' in
            rw (h, same) (lookup-insert_self txn m forced ∙ ap (λ (k : String). some k) f)

send_at-unlike :
    (xs : List CandidateSet) (o : Option String) (txn : String) (i : ℕ)
    → o ≡ some txn
    → all (λ y. if same_txn o y.send then false else true) xs ≡ true
    → send_at xs i ≡ some txn
    → ⊥
send_at-unlike [] o txn i e h f = cc
send_at-unlike (x ∷ xs) o txn zero e h f =
    let (first, _) = and_split (if same_txn o x.send then false else true) _ h in
    let same = subst (λ p. same_txn p x.send ≡ true) (sym e) (same_txn-eq txn x.send f) in
    cc (same, unlike_false (same_txn o x.send) first)
send_at-unlike (x ∷ xs) o txn (suc i) e h f =
    let (_, rest) = and_split (if same_txn o x.send then false else true) _ h in
    send_at-unlike xs o txn i e rest f

-- One set has the send.
pub send_at_unique :
    (xs : List CandidateSet) (txn : String) (i j : ℕ)
    → no_conflict same_send xs ≡ true
    → send_at xs i ≡ some txn
    → send_at xs j ≡ some txn
    → i ≡ j
send_at_unique [] txn i j u e f = absurd cc
send_at_unique (x ∷ xs) txn zero zero u e f = refl
send_at_unique (x ∷ xs) txn zero (suc j) u e f =
    absurd (send_at-unlike xs x.send txn j e (and_split _ (no_conflict same_send xs) u).0 f)
send_at_unique (x ∷ xs) txn (suc i) zero u e f =
    absurd (send_at-unlike xs x.send txn i f (and_split _ (no_conflict same_send xs) u).0 e)
send_at_unique (x ∷ xs) txn (suc i) (suc j) u e f =
    ap suc (send_at_unique xs txn i j (and_split _ (no_conflict same_send xs) u).1 e f)
