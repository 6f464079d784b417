-- ===== src/Matching/Edges.antt =====
-- The edges of a matching of candidate sets, for pkg/connector/outbound.go: a list of sets with their messages.
use tumblr_dms.Prelude.{
  ℕ, zero, suc, ◌+◌, ◌<◌, ◌≡◌, refl, inl, inr, Bool, true, false, not, ◌&&◌, ◌||◌, List, [], ◌∷◌,
  Option, none, some, String, ◌==◌, str_eq, eq_iff, eq_refl, if◌then◌else◌, length, arith,
  Bool-cases, subst, All, all, no_conflict, and_split,
}
use tumblr_dms.Prelude.Each.{or_right}
use tumblr_dms.Matching.{CandidateSet, ids_at, skipped}
use tumblr_dms.Matching.Outcome.{joined}
use tumblr_dms.Matching.Bound.{share}
use tumblr_dms.Matching.Spec.{
  message_at, filled, is_candidate, are_candidates, same_message, avoids,
}

-- The sets that have a message, from set `i` on.
abbrev pub assigned : ℕ → List String → List (ℕ × String)
assigned i [] = []
assigned i (m ∷ M) = if str_eq m "" then assigned (suc i) M else (i, m) ∷ assigned (suc i) M

pub length-assigned : (i : ℕ) (M : List String) → length (assigned i M) ≡ filled M
length-assigned i [] = refl
length-assigned i (m ∷ M) = elim (Bool-cases (str_eq m "")) [
  | inl e ↦ rw e (omega (arith, length-assigned (suc i) M))
  | inr e ↦ rw e (omega (arith, length-assigned (suc i) M))
]

assigned-All :
    (P : ℕ → String → Type 0) (i : ℕ) (M : List String)
    → ((j : ℕ) → str_eq (message_at M j) "" ≡ false → P (i + j) (message_at M j))
    → All (λ e. P e.0 e.1) (assigned i M)
assigned-All P i [] h = tt
assigned-All P i (m ∷ M) h =
    let rest =
      assigned-All P (suc i) M
        (λ j e. subst (λ k. P k (message_at M j)) (omega arith) (h (suc j) e)) in
    elim (Bool-cases (str_eq m "")) [
      | inl e ↦ rw e rest
      | inr e ↦ rw e (subst (λ k. P k m) (omega arith) (h 0 e), rest)
    ]

pub candidate_at :
    (sets : List CandidateSet) (i j : ℕ) (M : List String)
    → are_candidates sets i M ≡ true
    → str_eq (message_at M j) "" ≡ false
    → is_candidate sets (i + j) (message_at M j) ≡ true
candidate_at sets i j [] h e = absurd (cc (e, eq_refl ""))
candidate_at sets i zero (m ∷ M) h e =
    let (first, _) =
      and_split (str_eq m "" || is_candidate sets i m) (are_candidates sets (suc i) M) h in
    subst (λ k. is_candidate sets k m ≡ true) (omega arith)
      (or_right (str_eq m "") (is_candidate sets i m) e first)
candidate_at sets i (suc j) (m ∷ M) h e =
    let (_, rest) =
      and_split (str_eq m "" || is_candidate sets i m) (are_candidates sets (suc i) M) h in
    subst (λ k. is_candidate sets k (message_at M j) ≡ true) (omega arith)
      (candidate_at sets (suc i) j M rest e)

pub are_candidates-intro :
    (sets : List CandidateSet) (i : ℕ) (M : List String)
    → ((j : ℕ)
        → str_eq (message_at M j) "" ≡ false
        → is_candidate sets (i + j) (message_at M j) ≡ true)
    → are_candidates sets i M ≡ true
are_candidates-intro sets i [] h = refl
are_candidates-intro sets i (m ∷ M) h =
    let rest = are_candidates-intro sets (suc i) M (λ j e.
      subst (λ k. is_candidate sets k (message_at M j) ≡ true) (omega arith) (h (suc j) e)) in
    elim (Bool-cases (str_eq m "")) [
      | inl e ↦ rw e rest
      | inr e ↦
          let first : is_candidate sets i m ≡ true =
            subst (λ k. is_candidate sets k m ≡ true) (omega arith) (h 0 e) in
          rw (first, rest) (or_same (str_eq m ""))
    ]
  where
    or_same : (b : Bool) → ((b || true) && true) ≡ true
    or_same true = refl
    or_same false = refl

pub candidate-below :
    (sets : List CandidateSet) (s : ℕ) (m : String) → is_candidate sets s m ≡ true → s < length sets
candidate-below [] s m h = absurd cc
candidate-below (x ∷ sets) zero m h = omega arith
candidate-below (x ∷ sets) (suc s) m h = omega (arith, candidate-below sets s m h)

-- An edge below another.
others_unlike :
    (s i : ℕ) (m : String) (M : List String)
    → s < i
    → str_eq m "" ≡ false
    → all (λ n. if same_message m n then false else true) M ≡ true
    → all (λ e. if share (s, m) e then false else true) (assigned i M) ≡ true
others_unlike s i m [] lt new h = refl
others_unlike s i m (n ∷ M) lt new h =
    let (e, es) = and_split (if same_message m n then false else true) _ h in
    let rest = others_unlike s (suc i) m M (omega arith) new es in
    elim (Bool-cases (str_eq n "")) [
      | inl d ↦ rw d rest
      | inr d ↦ rw (d, apart (str_eq m n) e, differ) rest
    ]
  where
    differ : (s == i) ≡ false
    differ = ground arith

    apart : (b : Bool) → (if b && not (str_eq m "") then false else true) ≡ true → b ≡ false
    apart true k = cc (k, new)
    apart false k = refl

pub no_conflict-assigned :
    (i : ℕ) (M : List String)
    → no_conflict same_message M ≡ true
    → no_conflict share (assigned i M) ≡ true
no_conflict-assigned i [] h = refl
no_conflict-assigned i (m ∷ M) h =
    let (e, es) =
      and_split (all (λ n. if same_message m n then false else true) M) (no_conflict same_message M)
        h in
    let rest = no_conflict-assigned (suc i) M es in
    elim (Bool-cases (str_eq m "")) [
      | inl d ↦ rw d rest
      | inr d ↦ rw (d, others_unlike i (suc i) m M (omega arith) d e) rest
    ]

all-message_at :
    (q : String → Bool) (M : List String) → ((j : ℕ) → q (message_at M j) ≡ true) → all q M ≡ true
all-message_at q [] h = refl
all-message_at q (m ∷ M) h = rw (h 0) (all-message_at q M (λ j. h (suc j)))

-- If no two places have one message, they are not in conflict.
pub no_conflict-intro :
    (M : List String)
    → ((i j : ℕ) → str_eq (message_at M i) "" ≡ false → message_at M i ≡ message_at M j → i ≡ j)
    → no_conflict same_message M ≡ true
no_conflict-intro [] h = refl
no_conflict-intro (m ∷ M) h =
    let rest = no_conflict-intro M (λ i j e d. let same = h (suc i) (suc j) e d in omega arith) in
    rw (all-message_at (λ n. if same_message m n then false else true) M other) rest
  where
    other : (j : ℕ) → (if same_message m (message_at M j) then false else true) ≡ true
    other j = elim (Bool-cases (str_eq m (message_at M j))) [
      | inr d ↦ rw d refl
      | inl d ↦ elim (Bool-cases (str_eq m "")) [
        | inl e ↦ rw (d, e) refl
        | inr e ↦ let same = h 0 (suc j) e ((eq_iff m (message_at M j)).0 d) in absurd (omega arith)
      ]
    ]

not_skipped :
    (blocked : Option (ℕ × String)) (M : List String) (j : ℕ)
    → avoids blocked M ≡ true
    → str_eq (message_at M j) "" ≡ false
    → skipped blocked j (message_at M j) ≡ false
unfolding skipped
not_skipped none M j h e = e
not_skipped (some (t, n)) M j h e = elim (Bool-cases (t == j)) [
  | inl own ↦
      let eq : t ≡ j = ground arith in
      let h' : avoids (some (j, n)) M ≡ true = subst (λ u. avoids (some (u, n)) M ≡ true) eq h in
      rw (e, not_own (message_at M j) n h' e) (and_no (j == t))
  | inr other ↦ let e' : (j == t) ≡ false = ground arith in rw (e, e') refl
]
  where
    and_no : (b : Bool) → (b && false) ≡ false
    and_no true = refl
    and_no false = refl

    not_own :
        (m k : String)
        → (str_eq k "" || not (str_eq m k)) ≡ true
        → str_eq m "" ≡ false
        → str_eq m k ≡ false
    not_own m k a b = ground (arith, eq_iff m k, eq_iff k "", eq_iff m "")

-- Every edge of a matching that avoids the blocked one is one that the search may use.
pub assigned-joined :
    (sets : List CandidateSet) (blocked : Option (ℕ × String)) (M : List String)
    → are_candidates sets 0 M ≡ true
    → avoids blocked M ≡ true
    → All
        (λ e. (e.0 < length sets) × (joined (ids_at sets) (skipped blocked) e.0 e.1 ≡ true))
        (assigned 0 M)
assigned-joined sets blocked M h k =
    assigned-All (λ s m. (s < length sets) × (joined (ids_at sets) (skipped blocked) s m ≡ true)) 0
      M
      λ j e.
        let cand = candidate_at sets 0 j M h e in
        (candidate-below sets (0 + j) (message_at M j) cand, edge j e cand)
  where
    edge :
        (j : ℕ)
        → str_eq (message_at M j) "" ≡ false
        → is_candidate sets (0 + j) (message_at M j) ≡ true
        → joined (ids_at sets) (skipped blocked) (0 + j) (message_at M j) ≡ true
    edge j e cand =
        let free : skipped blocked (0 + j) (message_at M j) ≡ false =
          subst (λ i. skipped blocked i (message_at M j) ≡ false) (omega arith)
            (not_skipped blocked M j k e) in
        rw (cand, free) refl
