-- ===== src/Generations/Single.antt =====
-- One generation at a time works, in pkg/connector/lifecycle.go, however its goroutines are interleaved.
use tumblr_dms.Prelude.{
  ℕ, ◌+◌, ◌-◌, ◌≤◌, ◌<◌, ◌≡◌, refl, sym, ap, ◌∙◌, inl, inr, Bool, true, false, not, ◌&&◌, Option,
  none, some, ltb, ◌==◌, if◌then◌else◌, arith, Bool-cases, subst,
}
use tumblr_dms.Generations.{
  Phase, begun, canceled, waited, Change, Client, initial, update, cancel, begin_free,
  begin_generation_change, in_change, cancel_generation, cancel_begun, cancel_previous, workers_of,
  wait_canceled, wait_previous, end_waited, end_generation_change, start_worker, end_worker,
  is_generation, fail_generation, begin_owned_operation, end_owned_operation, retire, wait_owned,
  reactivate_after_replacement_failure, Event, perform, Reach, here, next,
}

-- Who may work in a change: the generation before it, until its workers have been waited for. It is canceled before the wait.
abbrev InPhase : Phase → Change → Client → Type 0
InPhase begun ch c = (g : ℕ) → 0 < c.workers g → ch.previous ≡ some g
InPhase canceled ch c =
    ((g : ℕ) → 0 < c.workers g → ch.previous ≡ some g)
    × ((g : ℕ) → ch.previous ≡ some g → c.is_canceled g ≡ true)
InPhase waited ch c =
    ((g : ℕ) → 0 < c.workers g → ⊥) × ((g : ℕ) → ch.previous ≡ some g → c.is_canceled g ≡ true)

abbrev IsOrderly : Option Change → Client → Type 0
IsOrderly none c =
    ((g : ℕ) → 0 < c.workers g → c.generation ≡ some g)
    × ((g : ℕ) → c.generation ≡ some g → g ≤ c.generation_id)
IsOrderly (some ch) c =
    InPhase ch.phase ch c
    × (c.generation ≡ none)
    × ((g : ℕ) → ch.previous ≡ some g → g < ch.id)
    × (ch.id ≤ c.generation_id)

abbrev pub IsSafe : Client → Type 0
IsSafe c = IsOrderly c.change c

carry_phase :
    (p : Phase) (ch : Change) (c d : Client)
    → ((g : ℕ) → 0 < d.workers g → 0 < c.workers g)
    → ((g : ℕ) → c.is_canceled g ≡ true → d.is_canceled g ≡ true)
    → InPhase p ch c
    → InPhase p ch d
carry_phase begun ch c d w k h = λ g e. h g (w g e)
carry_phase canceled ch c d w k (h, hs) = ((λ g e. h g (w g e)), (λ g e. k g (hs g e)))
carry_phase waited ch c d w k (h, hs) = ((λ g e. h g (w g e)), (λ g e. k g (hs g e)))

-- An event that is not of the change itself.
carry :
    (o : Option Change) (c d : Client)
    → d.generation ≡ c.generation
    → d.generation_id ≡ c.generation_id
    → ((g : ℕ) → 0 < d.workers g → 0 < c.workers g)
    → ((g : ℕ) → c.is_canceled g ≡ true → d.is_canceled g ≡ true)
    → IsOrderly o c
    → IsOrderly o d
carry none c d e i w k (h, hs) =
    ((λ g lt. e ∙ h g (w g lt)), (λ g own. let le = hs g (sym e ∙ own) in omega arith))
carry (some ch) c d e i w k (h, hidden, older, le) =
    (carry_phase ch.phase ch c d w k h, e ∙ hidden, older, omega arith)

update-pos : (f : ℕ → ℕ) (g n h : ℕ) → 0 < f g → 0 < update f g n h → 0 < f h
update-pos f g n h lt pos = elim (Bool-cases (h == g)) [
  | inl own ↦ let e : h ≡ g = ground arith in rw e lt
  | inr other ↦ ground arith
]

update-true : (f : ℕ → Bool) (g h : ℕ) → f h ≡ true → update f g true h ≡ true
update-true f g h e = ground arith

some_number : (m n : ℕ) → some m ≡ some n → m ≡ n
some_number m n h = cc

some_client : {c d : Client} (P : Client → Type 0) → some c ≡ some d → P c → P d
some_client {c} {d} P e h = let same : c ≡ d = cc e in subst P same h

module _ (c d : Client) where
  begin-IsSafe :
      (replaces : Bool) → begin_generation_change replaces c ≡ some d → IsSafe c → IsSafe d
  unfolding begin_generation_change
  begin-IsSafe replaces e h = by c.change e h
    where
      by : (o : Option Change) → begin_free replaces c o ≡ some d → IsOrderly o c → IsSafe d
      by none e (working, known) =
          some_client IsSafe e
            (working, refl, (λ g own. let le = known g own in omega arith), omega arith)
      by (some other) e h = absurd cc

  cancel_previous-IsSafe : cancel_previous c ≡ some d → IsSafe c → IsSafe d
  unfolding cancel_previous
  cancel_previous-IsSafe e h = by c.change e h
    where
      stop :
          (ch : Change) (q : Option ℕ)
          → ch.previous ≡ q
          → InPhase begun ch c
          → (c.generation ≡ none)
            × ((g : ℕ) → ch.previous ≡ some g → g < ch.id)
            × (ch.id ≤ c.generation_id)
          → IsSafe
              (cancel_generation q (record c { change = some (record ch { phase = canceled }) }))
      stop ch none e w (hidden, older, le) =
          ((w, (λ g own. absurd (cc (e, own)))), hidden, older, le)
      stop ch (some g) e w (hidden, older, le) =
          let same = λ (k : ℕ) (own : ch.previous ≡ some k). some_number g k (sym e ∙ own) in
          ((w, (λ k own. let eq = same k own in ground arith)), hidden, older, le)

      at :
          (ch : Change) (p : Phase)
          → cancel_begun ch p c ≡ some d
          → InPhase p ch c
          → (c.generation ≡ none)
            × ((g : ℕ) → ch.previous ≡ some g → g < ch.id)
            × (ch.id ≤ c.generation_id)
          → IsSafe d
      at ch begun e w rest = some_client IsSafe e (stop ch ch.previous refl w rest)
      at ch canceled e w rest = absurd cc
      at ch waited e w rest = absurd cc

      by : (o : Option Change) → in_change cancel_begun c o ≡ some d → IsOrderly o c → IsSafe d
      by none e h = absurd cc
      by (some ch) e (w, hidden, older, le) = at ch ch.phase e w (hidden, older, le)

  wait_previous-IsSafe : wait_previous c ≡ some d → IsSafe c → IsSafe d
  unfolding wait_previous
  wait_previous-IsSafe e h = by c.change e h
    where
      idle :
          (ch : Change) (q : Option ℕ) (g : ℕ)
          → ch.previous ≡ q
          → workers_of q c ≡ 0
          → 0 < c.workers g
          → ch.previous ≡ some g
          → ⊥
      idle ch none g e z lt own = cc (e, own)
      idle ch (some k) g e z lt own =
          let same = some_number k g (sym e ∙ own) in
          let lt' = subst (λ n. 0 < c.workers n) (sym same) lt in omega arith

      at :
          (ch : Change) (p : Phase)
          → wait_canceled ch p c ≡ some d
          → InPhase p ch c
          → (c.generation ≡ none)
            × ((g : ℕ) → ch.previous ≡ some g → g < ch.id)
            × (ch.id ≤ c.generation_id)
          → IsSafe d
      at ch begun e w rest = absurd cc
      at ch waited e w rest = absurd cc
      at ch canceled e (w, k) (hidden, older, le) =
          elim (Bool-cases (workers_of ch.previous c == 0)) [
            | inr busy ↦ absurd (ground arith)
            | inl free ↦
                let e' : some (record c { change = some (record ch { phase = waited }) }) ≡ some d =
                  ground arith in
                let z : workers_of ch.previous c ≡ 0 = ground arith in
                some_client IsSafe e'
                  (((λ g lt. idle ch ch.previous g refl z lt (w g lt)), k), hidden, older, le)
          ]

      by : (o : Option Change) → in_change wait_canceled c o ≡ some d → IsOrderly o c → IsSafe d
      by none e h = absurd cc
      by (some ch) e (w, hidden, older, le) = at ch ch.phase e w (hidden, older, le)

  end_change-IsSafe : end_generation_change c ≡ some d → IsSafe c → IsSafe d
  unfolding end_generation_change
  end_change-IsSafe e h = by c.change e h
    where
      publish :
          (ch : Change) (b : Bool)
          → ch.replaces ≡ b
          → InPhase waited ch c
          → (c.generation ≡ none)
          → (ch.id ≤ c.generation_id)
          → IsSafe (
              if b
              then record c {
                generation = some ch.id;
                change = none;
                workers = update c.workers ch.id (c.workers ch.id + 1);
              }
              else record c { change = none })
      publish ch true e (idle, _) hidden le = (
        (λ g lt. elim (Bool-cases (g == ch.id)) [
          | inl own ↦ ap (λ (n : ℕ). some n) (ground arith)
          | inr other ↦ absurd (idle g (ground arith))
        ]),
        (λ g own. let same = some_number ch.id g own in omega arith),
      )
      publish ch false e (idle, _) hidden le =
          ((λ g lt. absurd (idle g lt)), (λ g own. absurd (cc (hidden, own))))

      at :
          (ch : Change) (p : Phase)
          → end_waited ch p c ≡ some d
          → InPhase p ch c
          → (c.generation ≡ none)
          → (ch.id ≤ c.generation_id)
          → IsSafe d
      at ch begun e w hidden le = absurd cc
      at ch canceled e w hidden le = absurd cc
      at ch waited e w hidden le = some_client IsSafe e (publish ch ch.replaces refl w hidden le)

      by : (o : Option Change) → in_change end_waited c o ≡ some d → IsOrderly o c → IsSafe d
      by none e h = absurd cc
      by (some ch) e (w, hidden, older, le) = at ch ch.phase e w hidden le

  start_worker-IsSafe : (g : ℕ) → start_worker g c ≡ some d → IsSafe c → IsSafe d
  unfolding start_worker
  start_worker-IsSafe g e h = elim (Bool-cases (ltb 0 (c.workers g))) [
    | inr idle ↦ absurd (ground arith)
    | inl works ↦
        let e' : some (record c { workers = update c.workers g (c.workers g + 1) }) ≡ some d =
          ground arith in
        some_client IsSafe e' (
          carry c.change c _ refl refl (λ k. update-pos c.workers g _ k (ground arith)) (λ k t. t)
            h)
  ]

  end_worker-IsSafe : (g : ℕ) → end_worker g c ≡ some d → IsSafe c → IsSafe d
  unfolding end_worker
  end_worker-IsSafe g e h = elim (Bool-cases (ltb 0 (c.workers g))) [
    | inr idle ↦ absurd (ground arith)
    | inl works ↦
        let e' : some (record c { workers = update c.workers g (c.workers g - 1) }) ≡ some d =
          ground arith in
        some_client IsSafe e' (
          carry c.change c _ refl refl (λ k. update-pos c.workers g _ k (ground arith)) (λ k t. t)
            h)
  ]

  perform-IsSafe : (event : Event) → perform event c ≡ some d → IsSafe c → IsSafe d
  unfolding fail_generation begin_owned_operation end_owned_operation retire wait_owned
      reactivate_after_replacement_failure
  perform-IsSafe (Event.begin_change replaces) e h = begin-IsSafe replaces e h
  perform-IsSafe Event.cancel_change e h = cancel_previous-IsSafe e h
  perform-IsSafe Event.wait_change e h = wait_previous-IsSafe e h
  perform-IsSafe Event.end_change e h = end_change-IsSafe e h
  perform-IsSafe (Event.worker_starts g) e h = start_worker-IsSafe g e h
  perform-IsSafe (Event.worker_ends g) e h = end_worker-IsSafe g e h
  perform-IsSafe (Event.fails g) e h = by (is_generation c.generation g && not (c.is_canceled g)) e
    where
      by : (b : Bool) → some (if b then cancel g c else c) ≡ some d → IsSafe d
      by true e = some_client IsSafe e (
          carry c.change c (cancel g c) refl refl (λ k t. t) (λ k. update-true c.is_canceled g k) h)
      by false e = some_client IsSafe e h
  perform-IsSafe (Event.cancel_context g) e h =
      some_client IsSafe e
        (carry c.change c (cancel g c) refl refl (λ k t. t) (λ k. update-true c.is_canceled g k) h)
  perform-IsSafe Event.owned_begins e h = by c.retired e
    where
      by :
          (b : Bool)
          → some
              (if◌then◌else◌ {A = Bool × Client} b
                (false, c)
                (true, record c { owned = c.owned + 1 })).1
            ≡ some d
          → IsSafe d
      by true e = some_client IsSafe e h
      by false e = some_client IsSafe e (carry c.change c _ refl refl (λ k t. t) (λ k t. t) h)
  perform-IsSafe Event.owned_ends e h = by (ltb 0 c.owned) e
    where
      by :
          (b : Bool)
          → (if b then some (record c { owned = c.owned - 1 }) else none) ≡ some d
          → IsSafe d
      by true e = some_client IsSafe e (carry c.change c _ refl refl (λ k t. t) (λ k t. t) h)
      by false e = absurd cc
  perform-IsSafe Event.retires e h =
      some_client IsSafe e (carry c.change c _ refl refl (λ k t. t) (λ k t. t) h)
  perform-IsSafe Event.owned_waited e h = by (c.owned == 0) e
    where
      by : (b : Bool) → (if b then some c else none) ≡ some d → IsSafe d
      by true e = some_client IsSafe e h
      by false e = absurd cc
  perform-IsSafe Event.reactivates e h =
      some_client IsSafe e (carry c.change c _ refl refl (λ k t. t) (λ k t. t) h)

initial-IsSafe : IsSafe initial
initial-IsSafe = ((λ g lt. absurd (omega arith)), (λ g own. absurd cc))

pub Reach-IsSafe : {c : Client} → Reach initial c → IsSafe c
Reach-IsSafe here = initial-IsSafe
Reach-IsSafe (next {d = d} {e = e} r event h) = perform-IsSafe d e event h (Reach-IsSafe r)

-- The generation whose workers may run: the current one, or during a change the one before it.
abbrev pub working : Option Change → Option ℕ → Option ℕ
working none current = current
working (some ch) current = ch.previous

phase-previous :
    (p : Phase) (ch : Change) (c : Client) (g : ℕ)
    → InPhase p ch c
    → 0 < c.workers g
    → ch.previous ≡ some g
phase-previous begun ch c g h lt = h g lt
phase-previous canceled ch c g (h, _) lt = h g lt
phase-previous waited ch c g (h, _) lt = absurd (h g lt)

orderly-working :
    (o : Option Change) (c : Client) (g : ℕ)
    → IsOrderly o c
    → 0 < c.workers g
    → working o c.generation ≡ some g
orderly-working none c g (h, _) lt = h g lt
orderly-working (some ch) c g (h, _, _, _) lt = phase-previous ch.phase ch c g h lt

-- In every client that events lead to, in whatever order the goroutines run, two generations that have workers are the same:
-- no worker of a new generation runs while one of an old generation does.
pub one_generation_works :
    (c : Client) (g h : ℕ) → Reach initial c → 0 < c.workers g → 0 < c.workers h → g ≡ h
one_generation_works c g h r wg wh =
    let safe = Reach-IsSafe r in
    some_number g h
      (sym (orderly-working c.change c g safe wg) ∙ orderly-working c.change c h safe wh)

-- When a change of the generation ends, by replaceConnectionGeneration or by stopConnectionGeneration, the generation before it
-- is canceled and has no worker left.
pub ended_change_stopped :
    (c d : Client) (ch : Change) (g : ℕ)
    → Reach initial c
    → c.change ≡ some ch
    → ch.previous ≡ some g
    → end_generation_change c ≡ some d
    → (d.is_canceled g ≡ true) × (d.workers g ≡ 0)
unfolding end_generation_change
ended_change_stopped c d ch g r changing own e =
    let safe = subst (λ o. IsOrderly o c) changing (Reach-IsSafe r) in
    let e' = subst (λ o. in_change end_waited c o ≡ some d) changing e in
    at ch.phase e' safe.0 (safe.2 g own)
  where
    at :
        (p : Phase)
        → end_waited ch p c ≡ some d
        → InPhase p ch c
        → g < ch.id
        → (d.is_canceled g ≡ true) × (d.workers g ≡ 0)
    at begun e w lt = absurd cc
    at canceled e w lt = absurd cc
    at waited e (idle, stopped) lt =
        some_client (λ x. (x.is_canceled g ≡ true) × (x.workers g ≡ 0)) e (by ch.replaces)
      where
        none_left : c.workers g ≡ 0
        none_left = elim (Bool-cases (ltb 0 (c.workers g))) [
          | inl some_left ↦ absurd (idle g (ground arith))
          | inr nobody ↦ ground arith
        ]

        by :
            (b : Bool)
            → ((if b
                    then record c {
                      generation = some ch.id;
                      change = none;
                      workers = update c.workers ch.id (c.workers ch.id + 1);
                    }
                    else record c { change = none }).is_canceled
                  g
                ≡ true)
              × ((if b
                      then record c {
                        generation = some ch.id;
                        change = none;
                        workers = update c.workers ch.id (c.workers ch.id + 1);
                      }
                      else record c { change = none }).workers
                    g
                  ≡ 0)
        by true = (stopped g own, ground (arith, none_left))
        by false = (stopped g own, none_left)
