-- ===== src/Worker/Tests.antt =====
-- Runs of the worker of pkg/connector/inbound_sync.go at concrete values.
use tumblr_dms.Prelude.{
  ℕ, ◌+◌, ◌-◌, ◌/◌, ◌≤◌, ◌<◌, ◌≡◌, refl, true, false, [], ◌∷◌, none, some, any,
}
use tumblr_dms.Prelude.Time.{Time, instant, time_from_millis}
use tumblr_dms.Jobs.{Job, ConversationJob, at_key, scan, get}
use tumblr_dms.Jobs.Calls.{Call, perform_all}
use tumblr_dms.Worker.{
  Steps, Synced, WorkError, worked, do_work, process_selected_conversation_job,
  tumblr_conversation_job_backoff,
}
use tumblr_dms.Worker.Backoff.{target, backoff_range}
use tumblr_dms.Worker.Reports.{renewed_work_stays}

abbrev job : Job
job = record {
  bridge_id = "bridge";
  user_login_id = "login";
  conversation_id = "12";
  revision = 4;
  attempt_count = 2;
  next_attempt_ts = 1;
  last_error_code = "network";
  delete_room_id = "";
  created_ts = 10;
  updated_ts = 50;
}

abbrev selected : ConversationJob
selected = record {
  bridge_id = "bridge";
  user_login_id = "login";
  conversation_id = "12";
  revision = 4;
  attempt_count = 2;
  next_attempt_at = instant 0;
  last_error_code = "network";
  delete_room_id = "";
  created_at = instant 9000000;
  updated_at = instant 49000000;
}

-- While a message is delivered, a push for the conversation arrives.
abbrev pushed : Time × Call
pushed = (instant 60000000, Call.put_live_conversation "login" "12")

-- Before it, the job of the conversation is given no room.
abbrev room_kept : Time × Call
room_kept = (instant 56000000, Call.set_delete_room "login" "12" 3 "!room")

abbrev delivering : Steps
delivering = record {
  lock = true;
  relock = true;
  resume_delete = λ j jobs. (none, jobs);
  sync = λ j jobs. (Synced.delivery, jobs);
  deliver = λ jobs.
      (none, perform_all "bridge" (pushed ∷ []) (perform_all "bridge" (room_kept ∷ []) jobs));
  commit = λ jobs. (none, jobs);
  checked_at = instant 55000000;
  failed_at = instant 70000000;
  rand = λ n. 0;
  rand_limit = λ n. 0;
}

abbrev unavailable : WorkError
unavailable = record {
  superseded = false;
  block_check = false;
  deferred = false;
  auth = false;
  context = false;
  status_code = some 503;
}

abbrev failing : Steps
failing = record delivering { sync = λ j jobs. (Synced.failed unavailable, jobs) }

rand_law : (n : ℕ) → 0 < n → 0 < n
rand_law n h = h

backoff_range_example :
    (target 3 - target 3 / 2 ≤ tumblr_conversation_job_backoff (λ n. 0) 3)
    × (tumblr_conversation_job_backoff (λ n. 0) 3 ≤ target 3 + target 3 / 2)
backoff_range_example = backoff_range (λ n. 0) 3 rand_law

got : get "bridge" "login" "12" (job ∷ []) ≡ some selected
unfolding get scan time_from_millis
got = refl

renewed_work_stays_example :
    any
      (at_key "bridge" "login" "12")
      (process_selected_conversation_job delivering "bridge" "login" selected 0 (job ∷ [])).1
    ≡ true
unfolding do_work
renewed_work_stays_example =
    renewed_work_stays delivering "bridge" "login" selected selected 0 (job ∷ []) (worked none)
      (room_kept ∷ []) [] pushed refl got refl (tt, tt) (refl, refl) tt
