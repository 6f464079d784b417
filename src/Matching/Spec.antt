-- ===== src/Matching/Spec.antt =====
-- What a matching of candidate sets is, whatever finds it: for pkg/connector/outbound.go, the message of each set,
-- "" for none.
use tumblr_dms.Prelude.{
  ℕ, zero, suc, ◌+◌, Bool, true, not, ◌&&◌, ◌||◌, List, [], ◌∷◌, Option, none, some, String, str_eq,
  if◌then◌else◌, no_conflict,
}
use tumblr_dms.Prelude.Maps.{has}
use tumblr_dms.Matching.{CandidateSet, ids_at}

abbrev pub message_at : List String → ℕ → String
message_at [] i = ""
message_at (m ∷ M) zero = m
message_at (m ∷ M) (suc i) = message_at M i

-- How many sets have a message.
abbrev pub filled : List String → ℕ
filled [] = 0
filled (m ∷ M) = (if str_eq m "" then 0 else 1) + filled M

-- The message is one of the set's.
abbrev pub is_candidate : List CandidateSet → ℕ → String → Bool
is_candidate sets i m = has m (ids_at sets i)

-- Each message, from set `i` on, is one of its set's.
abbrev pub are_candidates : List CandidateSet → ℕ → List String → Bool
are_candidates sets i [] = true
are_candidates sets i (m ∷ M) =
    (str_eq m "" || is_candidate sets i m) && are_candidates sets (suc i) M

abbrev pub same_message : String → String → Bool
same_message m n = str_eq m n && not (str_eq m "")

-- No message explains two sends.
abbrev pub is_matching : List CandidateSet → List String → Bool
is_matching sets M = are_candidates sets 0 M && no_conflict same_message M

-- The matching does not use the edge.
abbrev pub avoids : Option (ℕ × String) → List String → Bool
avoids none M = true
avoids (some (i, m)) M = str_eq m "" || not (str_eq (message_at M i) m)
