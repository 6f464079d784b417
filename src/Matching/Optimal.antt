-- ===== src/Matching/Optimal.antt =====
-- maximumOutboundCandidateMatching of pkg/connector/outbound.go finds a matching, and none is larger.
use tumblr_dms.Prelude.{
  ℕ, ◌+◌, ◌≤◌, ◌<◌, ◌≡◌, refl, sym, ap, ◌∙◌, inl, inr, Bool, true, false, not, ◌||◌, List, Option,
  none, some, String, str_eq, eq_iff, length, replicate, arith, Bool-cases, subst, and_split,
  no_conflict,
}
use tumblr_dms.Prelude.Maps.{lookup, has}
use tumblr_dms.Matching.{
  CandidateSet, ids_at, all_ids, skipped, by_set, match_by_set, matched_sets,
  maximum_outbound_candidate_matching,
}
use tumblr_dms.Matching.Sound.{not-true, or_false, some_injective}
use tumblr_dms.Matching.Fuel.{ids_at-has-all_ids}
use tumblr_dms.Matching.Progress.{Progress, Ended, main_loop}
use tumblr_dms.Matching.Bound.{edges-le-size}
use tumblr_dms.Matching.BySet.{lookup-message_at, filled-matched}
use tumblr_dms.Matching.Spec.{
  message_at, filled, is_candidate, are_candidates, same_message, is_matching, avoids,
}
use tumblr_dms.Matching.Edges.{
  assigned, length-assigned, are_candidates-intro, candidate-below, no_conflict-assigned,
  no_conflict-intro, assigned-joined,
}

module _ (sets : List CandidateSet) (blocked : Option (ℕ × String)) where
  ended :
      Ended
        (ids_at sets)
        (skipped blocked)
        (all_ids sets)
        (ids_at-has-all_ids sets)
        (length sets)
        (matched_sets sets blocked)
  ended =
      main_loop (ids_at sets) (skipped blocked) (all_ids sets) (ids_at-has-all_ids sets)
        (length sets)

  skipped_empty : (s : ℕ) (m : String) → skipped blocked s m ≡ false → str_eq m "" ≡ false
  unfolding skipped
  skipped_empty s m h = first blocked h
    where
      first : (b : Option (ℕ × String)) → skipped b s m ≡ false → str_eq m "" ≡ false
      first none h = h
      first (some (t, n)) h = (or_false (str_eq m "") _ h).0

  module _ (matched : List (String × ℕ)) (size : ℕ)
      (p : Progress (ids_at sets) (skipped blocked) (length sets) matched size) where
    abbrev result : List String
    result = by_set matched (replicate (length sets) "")

    entry :
        (k : String) (t : ℕ)
        → lookup k matched ≡ some t
        → (is_candidate sets t k ≡ true) × (skipped blocked t k ≡ false)
    entry k t e =
        let (listed, fresh) =
          and_split (has k (ids_at sets t)) (not (skipped blocked t k)) (p.edges k t e) in
        (listed, not-true (skipped blocked t k) fresh)

    below :
        (k : String) (t : ℕ) → lookup k matched ≡ some t → (t < length sets) × (str_eq k "" ≡ false)
    below k t e =
        let (listed, fresh) = entry k t e in
        (candidate-below sets t k listed, skipped_empty t k fresh)

    source :
        (s : ℕ)
        → str_eq (message_at result s) "" ≡ false
        → lookup (message_at result s) matched ≡ some s
    source = lookup-message_at (length sets) matched p.map p.single below

    result_candidates : are_candidates sets 0 result ≡ true
    result_candidates = are_candidates-intro sets 0 result (λ j e.
        let cand = (entry (message_at result j) j (source j e)).0 in
        let sum : j ≡ 0 + j = omega arith in
        subst (λ i. is_candidate sets i (message_at result j) ≡ true) sum cand)

    result_apart : no_conflict same_message result ≡ true
    result_apart = no_conflict-intro result one
      where
        one :
            (i j : ℕ)
            → str_eq (message_at result i) "" ≡ false
            → message_at result i ≡ message_at result j
            → i ≡ j
        one i j e same =
            let e' = subst (λ m. str_eq m "" ≡ false) same e in
            let at_j = subst (λ m. lookup m matched ≡ some j) (sym same) (source j e') in
            let both : some i ≡ some j = sym (source i e) ∙ at_j in cc both

    result-avoids : avoids blocked result ≡ true
    unfolding skipped
    result-avoids = at blocked (λ j e. (entry (message_at result j) j (source j e)).1)
      where
        or_same : (b : Bool) → (b || true) ≡ true
        or_same true = refl
        or_same false = refl

        at :
            (b : Option (ℕ × String))
            → ((j : ℕ)
                → str_eq (message_at result j) "" ≡ false
                → skipped b j (message_at result j) ≡ false)
            → avoids b result ≡ true
        at none h = refl
        at (some (t, n)) h = elim (Bool-cases (str_eq (message_at result t) n)) [
          | inr other ↦ rw other (or_same (str_eq n ""))
          | inl own ↦ elim (Bool-cases (str_eq n "")) [
            | inl e ↦ rw e refl
            | inr e ↦
                let eq = (eq_iff (message_at result t) n).0 own in
                let used = h t (subst (λ m. str_eq m "" ≡ false) (sym eq) e) in
                absurd (ground (arith, used, own))
          ]
        ]

    result-filled : filled result ≡ size
    result-filled = filled-matched (length sets) matched p.map p.single below ∙ sym p.counted

    matching_bound :
        (M : List String) → is_matching sets M ≡ true → avoids blocked M ≡ true → filled M ≤ size
    matching_bound M h k =
        let (cands, apart) = and_split (are_candidates sets 0 M) (no_conflict same_message M) h in
        let bound =
          edges-le-size (ids_at sets) (skipped blocked) (length sets) matched size p (assigned 0 M)
            (assigned-joined sets blocked M cands k) (no_conflict-assigned 0 M apart) in
        omega (arith, bound, length-assigned 0 M)

-- The search returns for any sets. What it returns is a matching of the sets, which gives no set the blocked
-- message, and the size is the number of the sets that have a message.
pub maximum_is_matching :
    (sets : List CandidateSet) (blocked : Option (ℕ × String))
    → (out : List String) × (size : ℕ) × (maximum_outbound_candidate_matching sets blocked
        ≡ some (out, size))
      × (is_matching sets out ≡ true)
      × (avoids blocked out ≡ true)
      × (filled out ≡ size)
unfolding maximum_outbound_candidate_matching
maximum_is_matching sets blocked =
    let (matched, size, e, p) = ended sets blocked in
    (
      result sets blocked matched size p,
      size,
      ap (match_by_set (length sets)) e,
      rw (result_candidates sets blocked matched size p) (result_apart sets blocked matched size p),
      result-avoids sets blocked matched size p,
      result-filled sets blocked matched size p,
    )

-- No matching of the sets that gives no set the blocked message is larger than the size that the search returns.
pub filled-le-maximum :
    (sets : List CandidateSet) (blocked : Option (ℕ × String)) (out M : List String) (size : ℕ)
    → maximum_outbound_candidate_matching sets blocked ≡ some (out, size)
    → is_matching sets M ≡ true
    → avoids blocked M ≡ true
    → filled M ≤ size
unfolding maximum_outbound_candidate_matching
filled-le-maximum sets blocked out M size found h k =
    let (matched, size', e, p) = ended sets blocked in
    let same = some_injective (sym (ap (match_by_set (length sets)) e) ∙ found) in
    let eq : size' ≡ size = ap (λ (r : List String × ℕ). r.1) same in
    subst (λ n. filled M ≤ n) eq (matching_bound sets blocked matched size' p M h k)
