-- ===== src/Generations/Tests.antt =====
-- Runs of pkg/connector/lifecycle.go at concrete values.
use tumblr_dms.Prelude.{ℕ, ◌≡◌, refl, true, false, List, [], ◌∷◌, none, some, arith}
use tumblr_dms.Generations.{
  Phase, Change, Client, initial, update, Event, Reach, here, next, begin_generation_change,
  cancel_previous, wait_previous, end_generation_change, start_worker, end_worker, retire,
  wait_owned, begin_owned_operation, fail_generation, is_current_generation,
  reactivate_after_replacement_failure,
}
use tumblr_dms.Generations.Single.{one_generation_works, ended_change_stopped}
use tumblr_dms.Generations.Retired.{retired_client_quiet}
use tumblr_dms.Generations.Over.{failed_generation_over}

-- The first connection.
abbrev connecting : Phase → Client
connecting p = record initial {
  generation_id = 1;
  change = some (record { previous = none; replaces = true; id = 1; phase = p });
}

abbrev connected : Client
connected = record initial {
  generation_id = 1;
  generation = some 1;
  workers = update initial.workers 1 1;
}

-- Its worker has started another.
abbrev working : Client
working = record connected { workers = update connected.workers 1 2 }

-- A second connection replaces the first.
abbrev second_change : Phase → Change
second_change p = record { previous = some 1; replaces = true; id = 2; phase = p }

abbrev replacing : Client
replacing = record working {
  generation_id = 2;
  generation = none;
  change = some (second_change Phase.begun);
}

abbrev stopping : Client
stopping = record replacing {
  change = some (second_change Phase.canceled);
  is_canceled = update initial.is_canceled 1 true;
}

abbrev one_left : Client
one_left = record stopping { workers = update stopping.workers 1 1 }

abbrev stopped : Client
stopped = record one_left { workers = update one_left.workers 1 0 }

abbrev alone : Client
alone = record stopped { change = some (second_change Phase.waited) }

abbrev replaced : Client
replaced = record alone { generation = some 2; change = none; workers = update alone.workers 2 1 }

connected_run : Reach initial connected
unfolding begin_generation_change cancel_previous wait_previous end_generation_change start_worker
    end_worker
connected_run =
    next {d = connecting Phase.waited} {e = connected}
      (next {d = connecting Phase.canceled} {e = connecting Phase.waited}
        (next {d = connecting Phase.begun} {e = connecting Phase.canceled}
          (next {d = initial} {e = connecting Phase.begun} here (Event.begin_change true) refl)
          Event.cancel_change refl)
        Event.wait_change refl)
      Event.end_change refl

replacing_run : Reach initial replacing
unfolding begin_generation_change cancel_previous wait_previous end_generation_change start_worker
    end_worker
replacing_run =
    next {d = working} {e = replacing}
      (next {d = connected} {e = working} connected_run (Event.worker_starts 1) refl)
      (Event.begin_change true) refl

stopped_run : Reach initial alone
unfolding begin_generation_change cancel_previous wait_previous end_generation_change start_worker
    end_worker
stopped_run =
    next {d = stopped} {e = alone}
      (next {d = one_left} {e = stopped}
        (next {d = stopping} {e = one_left}
          (next {d = replacing} {e = stopping} replacing_run Event.cancel_change refl)
          (Event.worker_ends 1) refl)
        (Event.worker_ends 1) refl)
      Event.wait_change refl

one_generation_works_example : ◌≡◌ {A = ℕ} 1 1
one_generation_works_example =
    one_generation_works replacing 1 1 replacing_run (omega arith) (omega arith)

ended_change_stopped_example : (replaced.is_canceled 1 ≡ true) × (replaced.workers 1 ≡ 0)
unfolding end_generation_change
ended_change_stopped_example =
    ended_change_stopped alone replaced (second_change Phase.waited) 1 stopped_run refl refl refl

-- A retired client, in which a wait has returned; another connection begins, and an operation is refused.
abbrev retired : Client
retired = record connected { retired = true }

abbrev later : List Event
later = Event.begin_change true ∷ Event.owned_begins ∷ Event.worker_ends 1 ∷ []

abbrev after_later : Client
after_later = record retired {
  generation_id = 2;
  generation = none;
  change = some (second_change Phase.begun);
  workers = update retired.workers 1 0;
}

retired_client_quiet_example :
    (after_later.owned ≡ 0) × (begin_owned_operation after_later ≡ (false, after_later))
unfolding wait_owned begin_owned_operation begin_generation_change end_worker
retired_client_quiet_example =
    retired_client_quiet retired retired after_later later refl refl (tt, (tt, (tt, tt))) refl

-- The connection fails, and the client is retired and reactivated.
abbrev failed : Client
failed = record connected { is_canceled = update connected.is_canceled 1 true }

failed_generation_over_example : is_current_generation 1 failed ≡ false
unfolding fail_generation retire reactivate_after_replacement_failure
failed_generation_over_example =
    failed_generation_over connected failed (Event.retires ∷ Event.reactivates ∷ []) 1 refl refl
