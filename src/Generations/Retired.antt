-- ===== src/Generations/Retired.antt =====
-- A client of pkg/connector/lifecycle.go that has been retired for its replacement.
use tumblr_dms.Prelude.{
  ◌≡◌, refl, true, false, List, [], ◌∷◌, Option, none, some, arith, All, subst,
}
use tumblr_dms.Generations.{
  Client, begin_generation_change, cancel_previous, wait_previous, end_generation_change,
  start_worker, end_worker, fail_generation, begin_owned_operation, end_owned_operation, retire,
  wait_owned, Event, perform,
}

abbrev pub IsQuiet : Client → Type 0
IsQuiet c = (c.retired ≡ true) × (c.owned ≡ 0)

-- Any event but a reactivation.
abbrev pub KeepsRetired : Event → Type 0
KeepsRetired Event.reactivates = ⊥
KeepsRetired _ = Unit

-- The events, one after the other.
abbrev pub perform_all : List Event → Client → Option Client
perform_all [] c = some c
perform_all (e ∷ es) c = elim (perform e c) [ none ↦ none | some d ↦ perform_all es d ]

perform-IsQuiet :
    (event : Event) (c d : Client)
    → KeepsRetired event
    → perform event c ≡ some d
    → IsQuiet c
    → IsQuiet d
unfolding begin_generation_change cancel_previous wait_previous end_generation_change start_worker
    end_worker fail_generation begin_owned_operation end_owned_operation retire wait_owned
perform-IsQuiet Event.reactivates c d k e h = absurd k
perform-IsQuiet event c d k e h = ground arith

perform_all-IsQuiet :
    (events : List Event) (c d : Client)
    → All KeepsRetired events
    → perform_all events c ≡ some d
    → IsQuiet c
    → IsQuiet d
perform_all-IsQuiet [] c d k e h = let same : c ≡ d = cc e in subst IsQuiet same h
perform_all-IsQuiet (event ∷ events) c d (k, ks) e h =
    by (perform event c) refl e (λ c'. perform_all-IsQuiet events c' d ks)
  where
    by :
        (o : Option Client)
        → perform event c ≡ o
        → (elim o [ none ↦ none | some c' ↦ perform_all events c' ]) ≡ some d
        → ((c' : Client) → perform_all events c' ≡ some d → IsQuiet c' → IsQuiet d)
        → IsQuiet d
    by none p e rest = absurd cc
    by (some c') p e rest = rest c' e (perform-IsQuiet event c c' k p h)

-- Once retireForReplacement has returned, no owned operation is under way and none begins, whatever else happens, until
-- reactivateAfterReplacementFailure is called: the wait returned in a client that was retired then.
pub retired_client_quiet :
    (c c' d : Client) (events : List Event)
    → c.retired ≡ true
    → wait_owned c ≡ some c'
    → All KeepsRetired events
    → perform_all events c' ≡ some d
    → (d.owned ≡ 0) × (begin_owned_operation d ≡ (false, d))
unfolding wait_owned begin_owned_operation
retired_client_quiet c c' d events retired waited keeps run =
    let quiet : IsQuiet c' = ground arith in
    let (still, none_owned) = perform_all-IsQuiet events c' d keeps run quiet in
    (none_owned, ground arith)
