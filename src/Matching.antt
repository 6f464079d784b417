-- ===== src/Matching.antt =====
-- forcedOutboundCandidateMatches and maximumOutboundCandidateMatching of pkg/connector/outbound.go: which remote
-- echo belongs to which durable send. Go's maps are association lists; the search takes fuel, and `none` means
-- that the fuel ran out.
pub mod Table
pub mod Spec
pub mod Outcome
pub mod Sound
pub mod Bound
pub mod BySet
pub mod Edges
pub mod Fuel
pub mod Progress
pub mod Optimal
pub mod Kept
pub mod Forced
mod Tests
use tumblr_dms.Prelude.Maps.{lookup, insert, has}
use tumblr_dms.Prelude.{
  ℕ, zero, suc, ◌+◌, ◌≡◌, Bool, true, false, ◌&&◌, ◌||◌, List, [], ◌∷◌, ◌++◌, Option, none, some,
  String, ltb, ◌==◌, str_eq, if◌then◌else◌, any, length, replicate,
}

-- outboundCandidateSet; `send` is the send's transaction ID, none for a nil send.
pub record CandidateSet : Type 0 where
  pub send : Option String
  pub message_ids : List String

-- The sets' messages by index. The search asks for indices of the list only.
abbrev pub ids_at : List CandidateSet → ℕ → List String
ids_at [] i = []
ids_at (x ∷ xs) zero = x.message_ids
ids_at (x ∷ xs) (suc i) = ids_at xs i

-- visited and matchedSetByMessage, which the calls of `assign` share.
pub record Attempt : Type 0 where
  pub visited : List String
  pub matched : List (String × ℕ)

-- The tests that skip a message of a set: `""` and the blocked edge. The blocked edge is none for -1.
unfoldable pub skipped : Option (ℕ × String) → ℕ → String → Bool
skipped none s m = str_eq m ""
skipped (some (t, n)) s m = str_eq m "" || (s == t && str_eq m n)

abbrev pub Assign : Type 0
Assign = ℕ → Attempt → Option (Bool × Attempt)

abbrev pub visit : String → Attempt → Attempt
visit m st = record st { visited = m ∷ st.visited }

-- `matchedSetByMessage[messageID] = setIndex`
abbrev pub claim : String → ℕ → Attempt → Attempt
claim m s st = record st { matched = insert m s st.matched }

module _ (ids : ℕ → List String) (skip : ℕ → String → Bool) where
  -- What the loop does after it asked the message's set to move: `next` are its further rounds.
  abbrev pub moved :
      String
      → ℕ
      → (Attempt → Option (Bool × Attempt))
      → Option (Bool × Attempt)
      → Option (Bool × Attempt)
  moved m s next none = none
  moved m s next (some (true, st)) = some (true, claim m s st)
  moved m s next (some (false, st)) = next st

  -- `!occupied || assign(matchedSet, visited)`
  abbrev pub occupied :
      Assign
      → String
      → ℕ
      → (Attempt → Option (Bool × Attempt))
      → Attempt
      → Option ℕ
      → Option (Bool × Attempt)
  occupied rec m s next st none = some (true, claim m s st)
  occupied rec m s next st (some t) = moved m s next (rec t st)

  -- A round of the loop of `assign`; the Boolean is the two `continue` tests.
  abbrev pub round :
      Assign
      → String
      → ℕ
      → (Attempt → Option (Bool × Attempt))
      → Attempt
      → Bool
      → Option (Bool × Attempt)
  round rec m s next st true = next st
  round rec m s next st false = occupied rec m s next (visit m st) (lookup m st.matched)

  -- The loop of `assign` over a set's messages.
  unfoldable pub try_each : Assign → ℕ → List String → Attempt → Option (Bool × Attempt)
  try_each rec s [] st = some (false, st)
  try_each rec s (m ∷ ms) st =
      round rec m s (λ st'. try_each rec s ms st') st (skip s m || has m st.visited)

  unfoldable pub assign : ℕ → Assign
  assign zero s st = none
  assign (suc fuel) s st = try_each (assign fuel) s (ids s) st

  -- The outcome of `assign(setIndex, make(map[string]struct{}))`.
  abbrev pub count_success :
      (List (String × ℕ) → ℕ → Option (List (String × ℕ) × ℕ))
      → ℕ
      → Option (Bool × Attempt)
      → Option (List (String × ℕ) × ℕ)
  count_success next size none = none
  count_success next size (some (true, st)) = next st.matched (size + 1)
  count_success next size (some (false, st)) = next st.matched size

  -- `for setIndex := range sets`, for `rounds` indices from `i` on.
  unfoldable pub match_sets : ℕ → ℕ → ℕ → List (String × ℕ) → ℕ → Option (List (String × ℕ) × ℕ)
  match_sets fuel zero i matched size = some (matched, size)
  match_sets fuel (suc rounds) i matched size =
      count_success (λ matched' size'. match_sets fuel rounds (suc i) matched' size') size
        (assign fuel i (record { visited = []; matched = matched }))

abbrev pub set_at {ℓ} : {A : Type ℓ} → ℕ → A → List A → List A
set_at i a [] = []
set_at zero a (x ∷ xs) = a ∷ xs
set_at (suc i) a (x ∷ xs) = x ∷ set_at i a xs

-- `for messageID, setIndex := range matchedSetByMessage { matchBySet[setIndex] = messageID }`
unfoldable pub by_set : List (String × ℕ) → List String → List String
by_set [] out = out
by_set ((m, s) ∷ rest) out = by_set rest (set_at s m out)

-- All messages of the sets.
abbrev pub all_ids : List CandidateSet → List String
all_ids [] = []
all_ids (x ∷ xs) = x.message_ids ++ all_ids xs

abbrev pub match_by_set : ℕ → Option (List (String × ℕ) × ℕ) → Option (List String × ℕ)
match_by_set n none = none
match_by_set n (some (matched, size)) = some (by_set matched (replicate n ""), size)

-- Each call of `assign` below another visits one more message.
abbrev pub matched_sets : List CandidateSet → Option (ℕ × String) → Option (List (String × ℕ) × ℕ)
matched_sets sets blocked =
    match_sets (ids_at sets) (skipped blocked) (suc (length (all_ids sets))) (length sets) 0 [] 0

-- maximumOutboundCandidateMatching
unfoldable pub maximum_outbound_candidate_matching :
    List CandidateSet → Option (ℕ × String) → Option (List String × ℕ)
maximum_outbound_candidate_matching sets blocked =
    match_by_set (length sets) (matched_sets sets blocked)

-- A round of forcedOutboundCandidateMatches: the baseline gave `m` to set `i`, whose send is the fourth
-- argument.
unfoldable pub keep_if_forced :
    List CandidateSet
    → ℕ
    → ℕ
    → Option String
    → String
    → List (String × String)
    → Option (List (String × String))
keep_if_forced sets size i none m forced = some forced
keep_if_forced sets size i (some txn) m forced =
    if str_eq m ""
    then some forced
    else elim (maximum_outbound_candidate_matching sets (some (i, m))) [
      | none ↦ none
      | some (_, without) ↦ some (if ltb without size then insert txn m forced else forced)
    ]

-- Its loop over `baseline`, from set `i` on.
unfoldable pub keep_forced :
    List CandidateSet
    → ℕ
    → ℕ
    → List CandidateSet
    → List String
    → List (String × String)
    → Option (List (String × String))
keep_forced sets size i [] ms forced = some forced
keep_forced sets size i (x ∷ xs) [] forced = some forced
keep_forced sets size i (x ∷ xs) (m ∷ ms) forced =
    elim (keep_if_forced sets size i x.send m forced) [
      | none ↦ none
      | some forced' ↦ keep_forced sets size (suc i) xs ms forced'
    ]

-- forcedOutboundCandidateMatches
unfoldable pub forced_outbound_candidate_matches :
    List CandidateSet → Option (List (String × String))
forced_outbound_candidate_matches sets = elim (maximum_outbound_candidate_matching sets none) [
  | none ↦ none
  | some (baseline, size) ↦ if size == 0 then some [] else keep_forced sets size 0 sets baseline []
]
