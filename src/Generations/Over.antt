-- ===== src/Generations/Over.antt =====
-- A generation of pkg/connector/lifecycle.go that has been canceled.
use tumblr_dms.Prelude.{
  ℕ, ◌≡◌, refl, Bool, true, false, not, ◌&&◌, List, [], ◌∷◌, Option, none, some, arith, subst,
}
use tumblr_dms.Generations.{
  Client, begin_generation_change, cancel_previous, wait_previous, end_generation_change,
  start_worker, end_worker, is_generation, is_current_generation, fail_generation,
  begin_owned_operation, end_owned_operation, retire, wait_owned,
  reactivate_after_replacement_failure, Event, perform,
}
use tumblr_dms.Generations.Retired.{perform_all}

perform-canceled :
    (event : Event) (c d : Client) (g : ℕ)
    → perform event c ≡ some d
    → c.is_canceled g ≡ true
    → d.is_canceled g ≡ true
unfolding begin_generation_change cancel_previous wait_previous end_generation_change start_worker
    end_worker fail_generation begin_owned_operation end_owned_operation retire wait_owned
    reactivate_after_replacement_failure
perform-canceled (Event.begin_change b) c d g e h = ground arith
perform-canceled event c d g e h = ground arith

perform_all-canceled :
    (events : List Event) (c d : Client) (g : ℕ)
    → perform_all events c ≡ some d
    → c.is_canceled g ≡ true
    → d.is_canceled g ≡ true
perform_all-canceled [] c d g e h =
    let same : c ≡ d = cc e in subst (λ (x : Client). x.is_canceled g ≡ true) same h
perform_all-canceled (event ∷ events) c d g e h =
    by (perform event c) refl e (λ c'. perform_all-canceled events c' d g)
  where
    by :
        (o : Option Client)
        → perform event c ≡ o
        → (elim o [ none ↦ none | some c' ↦ perform_all events c' ]) ≡ some d
        → ((c' : Client)
            → perform_all events c' ≡ some d
            → c'.is_canceled g ≡ true
            → d.is_canceled g ≡ true)
        → d.is_canceled g ≡ true
    by none p e rest = absurd cc
    by (some c') p e rest = rest c' e (perform-canceled event c c' g p h)

and_false : (a : Bool) → (a && false) ≡ false
and_false true = refl
and_false false = refl

-- A generation that failed while it was the current one is not the current one again, whatever events follow, also if the
-- client is retired and reactivated.
pub failed_generation_over :
    (c d : Client) (events : List Event) (g : ℕ)
    → is_generation c.generation g ≡ true
    → perform_all events (fail_generation g c) ≡ some d
    → is_current_generation g d ≡ false
unfolding fail_generation is_current_generation
failed_generation_over c d events g own run =
    let off : (fail_generation g c).is_canceled g ≡ true = ground arith in
    let still = perform_all-canceled events (fail_generation g c) d g run off in
    rw still (and_false (not d.retired && is_generation d.generation g))
