-- ===== src/Jobs/Tests.antt =====
-- Runs of pkg/connector/tumblrdb/job.go at concrete values, and instances of the theorems.
use tumblr_dms.Prelude.{◌≡◌, ◌≢◌, refl, List, [], arith, ◌∷◌, none, some, inl, inr}
use tumblr_dms.Prelude.Time.{Time, instant, time_from_millis, unix_milli}
use tumblr_dms.Jobs.{
  Job, Jobs, put, put_live_conversation, schedule_delete_room, get, scan, get_next_due, is_due,
  next_due_row, job_before,
}
use tumblr_dms.Jobs.Calls.{Call, perform_all}
use tumblr_dms.Jobs.Revisions.{IsIgnored}
use tumblr_dms.Jobs.Stale.{superseded_report-IsIgnored}
use tumblr_dms.Jobs.Queue.{IsEarliest, next_due_row-IsEarliest, put_makes_due}
use tumblr_dms.Jobs.Rooms.{work_of, renewed, renewals}

abbrev inbox_job : Job
inbox_job = record {
  bridge_id = "bridge";
  user_login_id = "login";
  conversation_id = "12";
  revision = 4;
  attempt_count = 2;
  next_attempt_ts = 60;
  last_error_code = "network";
  delete_room_id = "!room";
  created_ts = 10;
  updated_ts = 50;
}

abbrev jobs : Jobs
jobs = inbox_job ∷ record inbox_job { conversation_id = "13"; next_attempt_ts = 20 } ∷ []

abbrev later_calls : List (Time × Call)
later_calls =
    (instant 2000000, Call.delete "login" "13" 4)
    ∷ (instant 3000000, Call.delete "login" "12" 4)
    ∷ (instant 4000000, Call.mark_retry "login" "12" 5 (instant 9000000) "network")
    ∷ []

abbrev earlier_calls : List (Time × Call)
earlier_calls =
    (instant 500000, Call.delete "login" "12" 3)
    ∷ (instant 600000, Call.delete "login" "13" 4)
    ∷ (instant 700000, Call.mark_retry "login" "12" 4 (instant 9000000) "network")
    ∷ []

abbrev renewal : Time × Call
renewal = (instant 1000000, Call.put_live_conversation "login" "12")

superseded_report-IsIgnored_example :
    IsIgnored "bridge" "login" "12" 4
      (perform_all "bridge" (renewal ∷ later_calls) (perform_all "bridge" earlier_calls jobs))
unfolding get scan
superseded_report-IsIgnored_example =
    superseded_report-IsIgnored "bridge" "login" "12" (scan inbox_job) earlier_calls later_calls
      renewal jobs refl refl (inl (omega arith), (inr refl, (tt, tt))) (refl, refl)
      (inl (omega arith), (inl (omega arith), (tt, tt)))

next_due_row-IsEarliest_example :
    IsEarliest "bridge" "login" 100 jobs (next_due_row "bridge" "login" 100 jobs)
next_due_row-IsEarliest_example = next_due_row-IsEarliest "bridge" "login" 100 jobs

put_makes_due_example :
    (get_next_due "bridge" "login" (instant 0) (put "bridge" "login" "12" (instant 7) jobs).1
      ≢ none)
    × (get_next_due "bridge" "login"
          (instant 0)
          (put_live_conversation "bridge" "login" "12" (instant 7) jobs)
        ≢ none)
put_makes_due_example = put_makes_due "bridge" "login" "12" (instant 7) (instant 0) jobs refl

renewals_example :
    (work_of "bridge" "login" "12" (put "bridge" "login" "12" (instant 7000000) jobs).1
      ≡ renewed
          (work_of "bridge" "login" "12" jobs)
          (time_from_millis 0)
          (work_of "bridge" "login" "12" jobs).delete_room_id)
    × (work_of "bridge" "login" "12"
          (put_live_conversation "bridge" "login" "12" (instant 7000000) jobs)
        ≡ renewed (work_of "bridge" "login" "12" jobs) (time_from_millis 0) "")
    × (work_of "bridge" "login" "12" (
          schedule_delete_room "bridge" "login" "12" "!old"
            (instant 9000000)
            (instant 7000000)
            jobs)
        ≡ renewed
            (work_of "bridge" "login" "12" jobs)
            (time_from_millis (unix_milli (instant 9000000)))
            "!old")
renewals_example =
    renewals "bridge" "login" "12" "!old" (instant 9000000) (instant 7000000) jobs refl

-- The job of conversation 13 comes first; both are due.
next_due_test :
    next_due_row "bridge" "login" 100 jobs
    ≡ some (record inbox_job { conversation_id = "13"; next_attempt_ts = 20 })
unfolding next_due_row is_due job_before
next_due_test = refl
