-- ===== src/Matching/Forced.antt =====
-- forcedOutboundCandidateMatches of pkg/connector/outbound.go returns the edges that are in every largest matching.
use tumblr_dms.Prelude.{
  ℕ, suc, ◌+◌, ◌≤◌, ◌<◌, ◌≡◌, ◌≢◌, refl, sym, ap, ◌∙◌, inl, inr, Bool, true, false, not, ◌&&◌, List,
  [], ◌∷◌, Option, none, some, String, ltb, ◌==◌, str_eq, arith, Bool-cases, subst, no_conflict,
  and_split, eq_iff,
}
use tumblr_dms.Prelude.Maps.{lookup}
use tumblr_dms.Matching.{
  CandidateSet, maximum_outbound_candidate_matching, keep_if_forced, keep_forced,
  forced_outbound_candidate_matches,
}
use tumblr_dms.Matching.Sound.{some_injective, not-true}
use tumblr_dms.Matching.Spec.{message_at, filled, is_matching, avoids}
use tumblr_dms.Matching.Kept.{
  send_at, same_send, kept, kept_all, kept_all-none, kept_all-source, kept_all-own, send_at_unique,
}
use tumblr_dms.Matching.Optimal.{maximum_is_matching, filled-le-maximum}

abbrev smaller : ℕ → Option (List String × ℕ) → Bool
smaller size none = false
smaller size (some (out, without)) = ltb without size

-- Without the edge the largest matching is smaller.
abbrev is_forced : List CandidateSet → ℕ → ℕ → String → Bool
is_forced sets size i m =
    not (str_eq m "") && smaller size (maximum_outbound_candidate_matching sets (some (i, m)))

keep_if_forced-kept :
    (sets : List CandidateSet) (size i : ℕ) (send : Option String) (m : String)
    (forced : List (String × String))
    → keep_if_forced sets size i send m forced ≡ some (kept send m (is_forced sets size i m) forced)
unfolding keep_if_forced
keep_if_forced-kept sets size i none m forced = refl
keep_if_forced-kept sets size i (some txn) m forced =
    let (out, without, e, _, _, _) = maximum_is_matching sets (some (i, m)) in
    elim (Bool-cases (str_eq m "")) [ inl d ↦ rw d refl | inr d ↦ rw (d, e) refl ]

keep_forced-kept :
    (sets : List CandidateSet) (size i : ℕ) (xs : List CandidateSet) (ms : List String)
    (forced : List (String × String))
    → keep_forced sets size i xs ms forced ≡ some (kept_all (is_forced sets size) i xs ms forced)
unfolding keep_forced
keep_forced-kept sets size i [] ms forced = refl
keep_forced-kept sets size i (x ∷ xs) [] forced = refl
keep_forced-kept sets size i (x ∷ xs) (m ∷ ms) forced =
    rw (keep_if_forced-kept sets size i x.send m forced, keep_forced)
      (keep_forced-kept sets size (suc i) xs ms (kept x.send m (is_forced sets size i m) forced))

-- No matching is smaller than none.
never_forced : (sets : List CandidateSet) (i : ℕ) (m : String) → is_forced sets 0 i m ≡ false
never_forced sets i m =
    none_smaller (not (str_eq m "")) (maximum_outbound_candidate_matching sets (some (i, m)))
  where
    none_smaller : (c : Bool) (o : Option (List String × ℕ)) → (c && smaller 0 o) ≡ false
    none_smaller false o = refl
    none_smaller true none = refl
    none_smaller true (some (out, w)) = ground arith

forced-kept :
    (sets : List CandidateSet) (base : List String) (size : ℕ)
    → maximum_outbound_candidate_matching sets none ≡ some (base, size)
    → forced_outbound_candidate_matches sets ≡ some (kept_all (is_forced sets size) 0 sets base [])
unfolding forced_outbound_candidate_matches
forced-kept sets base size found = elim (Bool-cases (size == 0)) [
  | inl e ↦
      let empty : size ≡ 0 = ground arith in
      let nothing =
        kept_all-none (is_forced sets size) 0 sets base []
          (λ j m. subst (λ k. is_forced sets k j m ≡ false) (sym empty) (never_forced sets j m)) in
      rw (found, forced_outbound_candidate_matches, e)
        (ap (λ (f : List (String × String)). some f) (sym nothing))
  | inr e ↦
      rw (found, forced_outbound_candidate_matches, e) (keep_forced-kept sets size 0 sets base [])
]

-- The computation returns for any sets.
forced_returns :
    (sets : List CandidateSet)
    → (forced : List (String × String)) × (forced_outbound_candidate_matches sets ≡ some forced)
forced_returns sets =
    let (base, size, e, _, _, _) = maximum_is_matching sets none in
    (_, forced-kept sets base size e)

forced_edge :
    (sets : List CandidateSet) (size i : ℕ) (m : String)
    → is_forced sets size i m ≡ true
    → (str_eq m "" ≡ false)
      × (out : List String) × (without : ℕ) × (maximum_outbound_candidate_matching sets
            (some (i, m))
          ≡ some (out, without))
      × (without < size)
forced_edge sets size i m h =
    let (out, without, e, _, _, _) = maximum_is_matching sets (some (i, m)) in
    let (new, less) = and_split (not (str_eq m "")) _ h in
    let less' : ltb without size ≡ true = subst (λ o. smaller size o ≡ true) e less in
    (not-true (str_eq m "") new, out, without, e, ground arith)

module _ (sets : List CandidateSet) (base : List String) (size : ℕ)
    (found : maximum_outbound_candidate_matching sets none ≡ some (base, size))
    (forced : List (String × String))
    (returned : forced_outbound_candidate_matches sets ≡ some forced)
    (distinct : no_conflict same_send sets ≡ true) (i : ℕ) (txn : String)
    (own : send_at sets i ≡ some txn) (m : String) where
  is_kept : forced ≡ kept_all (is_forced sets size) 0 sets base []
  is_kept = some_injective (sym returned ∙ forced-kept sets base size found)

  -- If the computation gives the send of set `i` a message, every matching of the largest size gives the set that
  -- message, as long as no two sets have one send.
  pub forced_in_every_maximum :
      (M : List String)
      → lookup txn forced ≡ some m
      → is_matching sets M ≡ true
      → filled M ≡ size
      → message_at M i ≡ m
  forced_in_every_maximum M given valid largest =
      let entry = subst (λ f. lookup txn f ≡ some m) is_kept given in
      elim (kept_all-source (is_forced sets size) txn m 0 sets base [] entry) [
        | inl nothing ↦ absurd cc
        | inr (j, e, _, g) ↦
            let same : 0 + j ≡ i = omega (arith, send_at_unique sets txn i j distinct own e) in
            let g' = subst (λ k. is_forced sets size k m ≡ true) same g in
            let (new, out, without, e', less) = forced_edge sets size i m g' in
            elim (Bool-cases (str_eq (message_at M i) m)) [
              | inl used ↦ (eq_iff (message_at M i) m).0 used
              | inr unused ↦
                  let free : avoids (some (i, m)) M ≡ true = rw (new, unused) refl in
                  absurd (
                    omega (arith, filled-le-maximum sets (some (i, m)) out M without e' valid free))
            ]
      ]

  not_forced_larger :
      str_eq m "" ≡ false
      → is_forced sets size i m ≡ false
      → (M : List String) × (is_matching sets M ≡ true)
        × (filled M ≡ size)
        × (str_eq (message_at M i) m ≡ false)
  not_forced_larger new h =
      let (out, without, e, valid, free, count) = maximum_is_matching sets (some (i, m)) in
      let not_less : (not (str_eq m "") && smaller size (some (out, without))) ≡ false =
        subst (λ o. (not (str_eq m "") && smaller size o) ≡ false) e h in
      let least : size ≤ without = ground arith in
      let most = filled-le-maximum sets none base out size found valid refl in
      let avoided : str_eq (message_at out i) m ≡ false = ground arith in
      (out, valid, omega arith, avoided)

  -- If the computation does not give the send of set `i` the message, some matching of the largest size does not
  -- give the set that message either, as long as no two sets have one send.
  pub not_forced_avoidable :
      lookup txn forced ≢ some m
      → str_eq m "" ≡ false
      → (M : List String) × (is_matching sets M ≡ true)
        × (filled M ≡ size)
        × (str_eq (message_at M i) m ≡ false)
  not_forced_avoidable missing new = elim (Bool-cases (str_eq (message_at base i) m)) [
    | inr other ↦
        let (out, size', e, valid, _, count) = maximum_is_matching sets none in
        let same = some_injective (sym e ∙ found) in
        let eq : out ≡ base = ap (λ (r : List String × ℕ). r.0) same in
        let eq' : size' ≡ size = ap (λ (r : List String × ℕ). r.1) same in
        (
          base,
          subst (λ M. is_matching sets M ≡ true) eq valid,
          subst (λ M. filled M ≡ size) eq (count ∙ eq'),
          other,
        )
    | inl used ↦ elim (Bool-cases (is_forced sets size i m)) [
      | inr h ↦ not_forced_larger new h
      | inl h ↦
          let entry =
            kept_all-own (is_forced sets size) (λ k. refl) txn m 0 i sets base [] distinct own
              ((eq_iff (message_at base i) m).0 used)
              (subst (λ k. is_forced sets size k m ≡ true) (omega arith) h) in
          absurd (missing (subst (λ f. lookup txn f ≡ some m) (sym is_kept) entry))
    ]
  ]
