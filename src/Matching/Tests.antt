-- ===== src/Matching/Tests.antt =====
-- Runs of the matching of pkg/connector/outbound.go at concrete values.
use tumblr_dms.Prelude.{ℕ, ◌≡◌, ◌≤◌, refl, true, false, List, [], ◌∷◌, none, some, String, str_eq}
use tumblr_dms.Matching.{
  CandidateSet, skipped, try_each, assign, match_sets, by_set, maximum_outbound_candidate_matching,
  keep_forced, keep_if_forced, forced_outbound_candidate_matches,
}
use tumblr_dms.Matching.Spec.{is_matching, avoids, filled, message_at}
use tumblr_dms.Matching.Optimal.{maximum_is_matching, filled-le-maximum}
use tumblr_dms.Matching.Forced.{forced_in_every_maximum, not_forced_avoidable}

-- A → {a, b}, B → {a}: B is asked second, and A moves to b.
abbrev chain : List CandidateSet
chain =
    record { send = some "A"; message_ids = "a" ∷ "b" ∷ [] }
    ∷ record { send = some "B"; message_ids = "a" ∷ [] }
    ∷ []

-- Two sends with the same two messages: neither is sure of one.
abbrev ambiguous : List CandidateSet
ambiguous =
    record { send = some "A"; message_ids = "a" ∷ "b" ∷ [] }
    ∷ record { send = some "B"; message_ids = "a" ∷ "b" ∷ [] }
    ∷ []

chain_maximum : maximum_outbound_candidate_matching chain none ≡ some ("b" ∷ "a" ∷ [], 2)
unfolding maximum_outbound_candidate_matching match_sets assign try_each skipped by_set
chain_maximum = refl

chain_blocked : maximum_outbound_candidate_matching chain (some (0, "b")) ≡ some ("a" ∷ "" ∷ [], 1)
unfolding maximum_outbound_candidate_matching match_sets assign try_each skipped by_set
chain_blocked = refl

chain_test : forced_outbound_candidate_matches chain ≡ some (("A", "b") ∷ ("B", "a") ∷ [])
unfolding forced_outbound_candidate_matches keep_forced keep_if_forced
    maximum_outbound_candidate_matching match_sets assign try_each skipped by_set
chain_test = refl

ambiguous_maximum : maximum_outbound_candidate_matching ambiguous none ≡ some ("b" ∷ "a" ∷ [], 2)
unfolding maximum_outbound_candidate_matching match_sets assign try_each skipped by_set
ambiguous_maximum = refl

ambiguous_test : forced_outbound_candidate_matches ambiguous ≡ some []
unfolding forced_outbound_candidate_matches keep_forced keep_if_forced
    maximum_outbound_candidate_matching match_sets assign try_each skipped by_set
ambiguous_test = refl

maximum_is_matching_example :
    (out : List String) × (size : ℕ) × (maximum_outbound_candidate_matching chain (some (0, "b"))
      ≡ some (out, size))
    × (is_matching chain out ≡ true)
    × (avoids (some (0, "b")) out ≡ true)
    × (filled out ≡ size)
maximum_is_matching_example = maximum_is_matching chain (some (0, "b"))

filled-le-maximum_example : filled ("" ∷ "a" ∷ []) ≤ 1
filled-le-maximum_example =
    filled-le-maximum chain (some (0, "b")) ("a" ∷ "" ∷ []) ("" ∷ "a" ∷ []) 1 chain_blocked refl
      refl

forced_in_every_maximum_example : message_at ("b" ∷ "a" ∷ []) 0 ≡ "b"
forced_in_every_maximum_example =
    forced_in_every_maximum chain ("b" ∷ "a" ∷ []) 2 chain_maximum (("A", "b") ∷ ("B", "a") ∷ [])
      chain_test refl 0 "A" refl "b" ("b" ∷ "a" ∷ []) refl refl refl

not_forced_avoidable_example :
    (M : List String) × (is_matching ambiguous M ≡ true)
    × (filled M ≡ 2)
    × (str_eq (message_at M 0) "b" ≡ false)
not_forced_avoidable_example =
    not_forced_avoidable ambiguous ("b" ∷ "a" ∷ []) 2 ambiguous_maximum [] ambiguous_test refl 0 "A"
      refl "b" (cc) refl
