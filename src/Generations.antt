-- ===== src/Generations.antt =====
-- pkg/connector/lifecycle.go: the generations of a client's connection, and the operations that own the client. An event
-- is what one goroutine does between two points where another may come between: a critical section, a cancel, the
-- return of a Wait. A client that cannot take an event, such as a Wait on a counter that is not zero, gives none.
pub mod Single
pub mod Retired
pub mod Over
mod Tests
use tumblr_dms.Prelude.{
  ℕ, zero, suc, ◌+◌, ◌-◌, ◌≡◌, Bool, true, false, not, ◌&&◌, List, [], ◌∷◌, Option, none, some, ltb,
  ◌==◌, if◌then◌else◌,
}

-- How far the goroutine that changes the generation has come in `stopConnectionGeneration(generation)`.
pub data Phase : Type 0 where
  begun : Phase
  canceled : Phase
  waited : Phase

-- A change under way: the generation before it, and whether a new one follows, with its ID.
pub record Change : Type 0 where
  pub previous : Option ℕ
  pub replaces : Bool
  pub id : ℕ
  pub phase : Phase

-- The fields of TumblrClient that lifecycle.go keeps, and of each generation, by its ID, the counter `wg` and whether `ctx`
-- is canceled. `change` is some while generationChanging; `owned` is the counter of ownershipWG.
pub record Client : Type 0 where
  pub generation_id : ℕ
  pub generation : Option ℕ
  pub change : Option Change
  pub workers : ℕ → ℕ
  pub is_canceled : ℕ → Bool
  pub retired : Bool
  pub owned : ℕ

abbrev pub initial : Client
initial = record {
  generation_id = 0;
  generation = none;
  change = none;
  workers = λ g. 0;
  is_canceled = λ g. false;
  retired = false;
  owned = 0;
}

abbrev pub update {ℓ} : {A : Type ℓ} → (ℕ → A) → ℕ → A → ℕ → A
update f g a h = if h == g then a else f h

-- generation.cancel()
abbrev pub cancel : ℕ → Client → Client
cancel g c = record c { is_canceled = update c.is_canceled g true }

abbrev pub begin_free : Bool → Client → Option Change → Option Client
begin_free replaces c (some other) = none
begin_free replaces c none = some (record c {
  change = some (record {
    previous = c.generation;
    replaces = replaces;
    id = c.generation_id + 1;
    phase = begun;
  });
  generation_id = c.generation_id + 1;
  generation = none;
})

-- beginGenerationChange; it waits while another change is under way.
unfoldable pub begin_generation_change : Bool → Client → Option Client
begin_generation_change replaces c = begin_free replaces c c.change

-- What the goroutine that changes the generation does next.
abbrev pub in_change :
    (Change → Phase → Client → Option Client) → Client → Option Change → Option Client
in_change act c none = none
in_change act c (some ch) = act ch ch.phase c

abbrev pub cancel_generation : Option ℕ → Client → Client
cancel_generation none c = c
cancel_generation (some g) c = cancel g c

abbrev pub cancel_begun : Change → Phase → Client → Option Client
cancel_begun ch begun c =
    some
      (cancel_generation ch.previous (record c { change = some (record ch { phase = canceled }) }))
cancel_begun ch _ c = none

-- `generation.cancel()` of the function stopConnectionGeneration, or its return for a nil generation.
unfoldable pub cancel_previous : Client → Option Client
cancel_previous c = in_change cancel_begun c c.change

abbrev pub workers_of : Option ℕ → Client → ℕ
workers_of none c = 0
workers_of (some g) c = c.workers g

abbrev pub wait_canceled : Change → Phase → Client → Option Client
wait_canceled ch canceled c =
    if workers_of ch.previous c == 0
    then some (record c { change = some (record ch { phase = waited }) })
    else none
wait_canceled ch _ c = none

-- The return of `generation.wg.Wait()`.
unfoldable pub wait_previous : Client → Option Client
wait_previous c = in_change wait_canceled c c.change

abbrev pub end_waited : Change → Phase → Client → Option Client
end_waited ch waited c = some (
    if ch.replaces
    then record c {
      generation = some ch.id;
      change = none;
      workers = update c.workers ch.id (c.workers ch.id + 1);
    }
    else record c { change = none })
end_waited ch _ c = none

-- The end of replaceConnectionGeneration and of stopConnectionGeneration. The worker that the code adds to a new generation
-- before it is published is counted here.
unfoldable pub end_generation_change : Client → Option Client
end_generation_change c = in_change end_waited c c.change

-- `generation.wg.Add(1)` for a new worker. Who calls it is a worker of the generation.
unfoldable pub start_worker : ℕ → Client → Option Client
start_worker g c =
    if ltb 0 (c.workers g)
    then some (record c { workers = update c.workers g (c.workers g + 1) })
    else none

-- `generation.wg.Done()`
unfoldable pub end_worker : ℕ → Client → Option Client
end_worker g c =
    if ltb 0 (c.workers g)
    then some (record c { workers = update c.workers g (c.workers g - 1) })
    else none

abbrev pub is_generation : Option ℕ → ℕ → Bool
is_generation none g = false
is_generation (some h) g = h == g

-- isCurrentGeneration
unfoldable pub is_current_generation : ℕ → Client → Bool
is_current_generation g c = not c.retired && is_generation c.generation g && not (c.is_canceled g)

-- failGeneration
unfoldable pub fail_generation : ℕ → Client → Client
fail_generation g c =
    if is_generation c.generation g && not (c.is_canceled g) then cancel g c else c

-- beginOwnedOperation, with what it returns.
unfoldable pub begin_owned_operation : Client → Bool × Client
begin_owned_operation c = if c.retired then (false, c) else (true, record c { owned = c.owned + 1 })

-- endOwnedOperation
unfoldable pub end_owned_operation : Client → Option Client
end_owned_operation c = if ltb 0 c.owned then some (record c { owned = c.owned - 1 }) else none

-- retireForReplacement up to its Wait.
unfoldable pub retire : Client → Client
retire c = record c { retired = true }

-- The return of `ownershipWG.Wait()` in retireForReplacement.
unfoldable pub wait_owned : Client → Option Client
wait_owned c = if c.owned == 0 then some c else none

-- reactivateAfterReplacementFailure
unfoldable pub reactivate_after_replacement_failure : Client → Client
reactivate_after_replacement_failure c = record c { retired = false }

-- An event of some goroutine; `cancel_context` is a cancel from outside the file.
pub data Event : Type 0 where
  begin_change : Bool → Event
  cancel_change : Event
  wait_change : Event
  end_change : Event
  worker_starts : ℕ → Event
  worker_ends : ℕ → Event
  fails : ℕ → Event
  cancel_context : ℕ → Event
  owned_begins : Event
  owned_ends : Event
  retires : Event
  owned_waited : Event
  reactivates : Event

abbrev pub perform : Event → Client → Option Client
perform (begin_change replaces) c = begin_generation_change replaces c
perform cancel_change c = cancel_previous c
perform wait_change c = wait_previous c
perform end_change c = end_generation_change c
perform (worker_starts g) c = start_worker g c
perform (worker_ends g) c = end_worker g c
perform (fails g) c = some (fail_generation g c)
perform (cancel_context g) c = some (cancel g c)
perform owned_begins c = some (begin_owned_operation c).1
perform owned_ends c = end_owned_operation c
perform retires c = some (retire c)
perform owned_waited c = wait_owned c
perform reactivates c = some (reactivate_after_replacement_failure c)

-- The clients that events can lead to, in whatever order the goroutines run.
pub data Reach (c : Client) : Client → Type 0 where
  here : Reach c c
  next : {d e : Client} → Reach c d → (event : Event) → perform event d ≡ some e → Reach c e
