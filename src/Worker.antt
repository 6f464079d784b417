-- ===== src/Worker.antt =====
-- The worker of pkg/connector/inbound_sync.go: one job of the queue of pkg/connector/tumblrdb/job.go, from its
-- selection to its report.
pub mod Backoff
pub mod Reports
pub mod Heads
mod Tests
use tumblr_dms.Prelude.{
  ℕ, zero, suc, ◌+◌, ◌-◌, ◌*◌, ◌/◌, ◌≡◌, Bool, true, false, not, ◌&&◌, ◌||◌, List, [], ◌∷◌, Option,
  none, some, String, ltb, leb, ◌==◌, str_eq, if◌then◌else◌, max,
}
use tumblr_dms.Prelude.Time.{Time, unix_milli, after, add, sub, time_from_millis}
use tumblr_dms.Jobs.{Jobs, ConversationJob, get, mark_retry, delete, put_live_conversation}
use tumblr_dms.Sync.{HeadRow, ConversationSync, get_head}

-- Durations are in nanoseconds.
abbrev pub second : ℕ
second = 1000000000

-- tumblrJobRetryBase
abbrev pub tumblr_job_retry_base : ℕ
tumblr_job_retry_base = 2 * second

-- tumblrJobRetryMax
abbrev pub tumblr_job_retry_max : ℕ
tumblr_job_retry_max = 300 * second

-- tumblrRateLimitCooldown
abbrev pub tumblr_rate_limit_cooldown : ℕ
tumblr_rate_limit_cooldown = 300 * second

-- jitterDuration; `rand n` is what rand.Int64N(n) returns.
unfoldable pub jitter_duration : (ℕ → ℕ) → ℕ → ℕ → ℕ
jitter_duration rand base spread =
    if leb spread 0 then base else base - spread + rand (spread * 2 + 1)

-- The loop of tumblrConversationJobBackoff, for the rounds that its first test allows.
unfoldable pub doubled : ℕ → ℕ → ℕ
doubled zero backoff = backoff
doubled (suc rounds) backoff =
    let next =
      doubled rounds
        (if ltb tumblr_job_retry_max (backoff * 2) then tumblr_job_retry_max else backoff * 2) in
    if ltb backoff tumblr_job_retry_max then next else backoff

-- tumblrConversationJobBackoff
unfoldable pub tumblr_conversation_job_backoff : (ℕ → ℕ) → ℕ → ℕ
tumblr_conversation_job_backoff rand attempt =
    let attempt' = if ltb attempt 1 then 1 else attempt in
    let backoff = doubled (attempt' - 1) tumblr_job_retry_base in
    jitter_duration rand backoff (backoff / 2)

-- What the worker asks of an error, by errors.Is and errors.As: is it errTumblrConversationJobSuperseded, a
-- conversationBlockCheck, an outboundReconciliationDeferredError, an IsAuthError, a canceled context or its deadline,
-- and the status code, if it is a tumblr.Error.
pub record WorkError : Type 0 where
  pub superseded : Bool
  pub block_check : Bool
  pub deferred : Bool
  pub auth : Bool
  pub context : Bool
  pub status_code : Option ℕ

abbrev pub remote_error_code : Option ℕ → String
remote_error_code none = "unknown"
remote_error_code (some code) =
    if code == 429 then "rate_limited" else (if leb 500 code then "remote" else "invalid_response")

-- classifyConversationJobError
unfoldable pub classify_conversation_job_error : WorkError → String
classify_conversation_job_error e =
    if e.deferred
    then "queue"
    else (if e.auth
        then "auth"
        else (if e.context then "network" else remote_error_code e.status_code))

-- The time of `rateLimitedUntil`, in milliseconds, as far as it is ahead of `now`: time.Until.
abbrev pub time_until : ℕ → Time → ℕ
time_until until now = sub (time_from_millis until) now

-- noteRateLimit at the time `now`, of the time until which the login is limited: the pause, and the time after it.
unfoldable pub note_rate_limit : (ℕ → ℕ) → Time → Option ℕ → ℕ → ℕ × ℕ
note_rate_limit rand now none limited = (0, limited)
note_rate_limit rand now (some code) limited =
    let until = unix_milli (
      add now (jitter_duration rand tumblr_rate_limit_cooldown (tumblr_rate_limit_cooldown / 5))) in
    if code == 429
    then (if leb until limited
        then (time_until limited now, limited)
        else (time_until until now, until))
    else (0, limited)

-- What syncConversationByIDWithSubmissionLock returns.
pub data Synced : Type 0 where
  failed : WorkError → Synced
  nothing : Synced
  delivery : Synced

-- The functions that do a job's work, each on the queue as it finds it: resumeRemoteConversationDeleteWithSubmissionLock,
-- syncConversationByIDWithSubmissionLock, deliverConversation with all that others do to the queue meanwhile, since the
-- lock is not held, and commitConversationDeliveryWithSubmissionLock; whether the lock is acquired before
-- the work and after a delivery; the times at which the job is checked and at which it fails; the random numbers.
pub record Steps : Type 0 where
  pub lock : Bool
  pub relock : Bool
  pub resume_delete : ConversationJob → Jobs → Option WorkError × Jobs
  pub sync : ConversationJob → Jobs → Synced × Jobs
  pub deliver : Jobs → Option WorkError × Jobs
  pub commit : Jobs → Option WorkError × Jobs
  pub checked_at : Time
  pub failed_at : Time
  pub rand : ℕ → ℕ
  pub rand_limit : ℕ → ℕ

-- How the work on a job ends: without the lock, or with an error or none.
pub data Worked : Type 0 where
  unlocked : Worked
  worked : Option WorkError → Worked

-- What the worker returns to its loop.
pub data Report : Type 0 where
  ok : Report
  lock_failed : Report
  error : WorkError → Report

module _ (steps : Steps) where
  abbrev pub committed : Option WorkError × Jobs → Worked × Jobs
  committed (e, jobs) = (worked e, jobs)

  -- After deliverConversation.
  abbrev pub delivered : Option WorkError × Jobs → Worked × Jobs
  delivered (none, jobs) = if steps.relock then committed (steps.commit jobs) else (unlocked, jobs)
  delivered (some e, jobs) = if steps.relock then (worked (some e), jobs) else (unlocked, jobs)

  abbrev pub synced : Synced × Jobs → Worked × Jobs
  synced (failed e, jobs) = (worked (some e), jobs)
  synced (nothing, jobs) = (worked none, jobs)
  synced (delivery, jobs) = delivered (steps.deliver jobs)

  -- The work on a job.
  unfoldable pub do_work : ConversationJob → Jobs → Worked × Jobs
  do_work job jobs =
      if str_eq job.delete_room_id ""
      then synced (steps.sync job jobs)
      else committed (steps.resume_delete job jobs)

  module _ (bridge login : String) where
    -- MarkRetry for an error.
    unfoldable pub put_off : ConversationJob → WorkError → ℕ → Jobs → Jobs × ℕ
    put_off job e limited jobs =
        let (pause, limited') =
          note_rate_limit steps.rand_limit steps.failed_at e.status_code limited in
        let wait = max (tumblr_conversation_job_backoff steps.rand (job.attempt_count + 1)) pause in
        (
          (mark_retry bridge login job.conversation_id job.revision (add steps.failed_at wait)
              (classify_conversation_job_error e) steps.failed_at jobs).1,
          limited',
        )

    -- What is reported to the queue.
    unfoldable pub report_work : ConversationJob → ℕ → Worked × Jobs → Report × Jobs × ℕ
    report_work job limited (unlocked, jobs) = (lock_failed, jobs, limited)
    report_work job limited (worked none, jobs) =
        (ok, (delete bridge login job.conversation_id job.revision jobs).1, limited)
    report_work job limited (worked (some e), jobs) =
        if e.superseded
        then (ok, jobs, limited)
        else (if e.block_check then (error e, jobs, limited) else (
          (if e.auth then error e else ok),
          (put_off job e limited jobs).0,
          (put_off job e limited jobs).1,
        ))

    -- The job as it is after the lock was acquired.
    abbrev pub process_current :
        ConversationJob → ℕ → Jobs → Option ConversationJob → Report × Jobs × ℕ
    process_current selected limited jobs none = (ok, jobs, limited)
    process_current selected limited jobs (some job) =
        if not (job.revision == selected.revision) || after job.next_attempt_at steps.checked_at
        then (ok, jobs, limited)
        else report_work job limited (do_work job jobs)

    -- processSelectedConversationJobWithBlockCheck
    unfoldable pub process_selected_conversation_job :
        ConversationJob → ℕ → Jobs → Report × Jobs × ℕ
    process_selected_conversation_job selected limited jobs =
        if steps.lock
        then process_current selected limited jobs (get bridge login selected.conversation_id jobs)
        else (lock_failed, jobs, limited)

module _ (bridge login conversation head : String) where
  abbrev pub is_completed : Option ConversationSync → Bool
  is_completed none = false
  is_completed (some s) = str_eq s.completed_head_message_id head

  abbrev pub queue_unless_known :
      Time → List HeadRow → Jobs → Option ConversationJob → Option Bool × Jobs
  queue_unless_known now heads jobs (some job) =
      if str_eq job.delete_room_id ""
      then (some false, jobs)
      else (some true, put_live_conversation bridge login conversation now jobs)
  queue_unless_known now heads jobs none =
      if is_completed (get_head bridge login conversation heads)
      then (some false, jobs)
      else (some true, put_live_conversation bridge login conversation now jobs)

  -- queueChangedConversationHead: whether it queued a job, or none for the error of acquireOutboundSubmissionLock, which is
  -- acquired if `locked`.
  unfoldable pub queue_changed_conversation_head :
      Bool → Time → List HeadRow → Jobs → Option Bool × Jobs
  queue_changed_conversation_head locked now heads jobs =
      if locked
      then queue_unless_known now heads jobs (get bridge login conversation jobs)
      else (none, jobs)
