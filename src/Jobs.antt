-- ===== src/Jobs.antt =====
-- pkg/connector/tumblrdb/job.go: the durable queue of conversation jobs, over the rows of
-- tumblr_conversation_sync_job. A method is a function of the rows; those that the database cannot refuse
-- return no error.
pub mod Calls
pub mod Revisions
pub mod Stale
pub mod Queue
pub mod Rooms
mod Tests
use tumblr_dms.Prelude.{
  ℕ, ◌+◌, ◌≡◌, Bool, true, false, not, ◌&&◌, ◌||◌, List, [], ◌∷◌, Option, none, some, String, ltb,
  leb, ◌==◌, str_eq, if◌then◌else◌, any, find, update_where, delete_where, length, least,
  filter_where,
}
use tumblr_dms.Prelude.Time.{Time, zero_time, instant, unix_milli, before, time_from_millis}

-- A row of tumblr_conversation_sync_job.
pub record Job : Type 0 where
  pub bridge_id : String
  pub user_login_id : String
  pub conversation_id : String
  pub revision : ℕ
  pub attempt_count : ℕ
  pub next_attempt_ts : ℕ
  pub last_error_code : String
  pub delete_room_id : String
  pub created_ts : ℕ
  pub updated_ts : ℕ

-- The struct that `Scan` fills.
pub record ConversationJob : Type 0 where
  pub bridge_id : String
  pub user_login_id : String
  pub conversation_id : String
  pub revision : ℕ
  pub attempt_count : ℕ
  pub next_attempt_at : Time
  pub last_error_code : String
  pub delete_room_id : String
  pub created_at : Time
  pub updated_at : Time

-- (job *ConversationJob) Scan
unfoldable pub scan : Job → ConversationJob
scan r = record {
  bridge_id = r.bridge_id;
  user_login_id = r.user_login_id;
  conversation_id = r.conversation_id;
  revision = r.revision;
  attempt_count = r.attempt_count;
  next_attempt_at = time_from_millis r.next_attempt_ts;
  last_error_code = r.last_error_code;
  delete_room_id = r.delete_room_id;
  created_at = time_from_millis r.created_ts;
  updated_at = time_from_millis r.updated_ts;
}

-- normalizeJobErrorCode
unfoldable pub normalize_job_error_code : String → String
normalize_job_error_code code =
    if any (str_eq code) (
      "" ∷ "unknown" ∷ "auth" ∷ "network" ∷ "rate_limited" ∷ "remote" ∷ "invalid_response" ∷ "queue"
      ∷ "database" ∷ [])
    then code
    else "unknown"

-- The row that the INSERT of `Ensure`, `Put` and `PutLiveConversation` writes.
unfoldable pub new_job : String → String → String → ℕ → Job
new_job bridge login conversation now = record {
  bridge_id = bridge;
  user_login_id = login;
  conversation_id = conversation;
  revision = 1;
  attempt_count = 0;
  next_attempt_ts = 0;
  last_error_code = "";
  delete_room_id = "";
  created_ts = now;
  updated_ts = now;
}

-- putConversationJobQuery: DO UPDATE SET
unfoldable pub put_set : ℕ → Job → Job
put_set now j = record j {
  revision = j.revision + 1;
  attempt_count = 0;
  next_attempt_ts = 0;
  last_error_code = "";
  updated_ts = now;
}

-- putLiveConversationJobQuery: DO UPDATE SET
unfoldable pub put_live_set : ℕ → Job → Job
put_live_set now j = record j {
  revision = j.revision + 1;
  attempt_count = 0;
  next_attempt_ts = 0;
  last_error_code = "";
  delete_room_id = "";
  updated_ts = now;
}

-- setConversationJobDeleteRoomQuery
unfoldable pub delete_room_set : String → ℕ → Job → Job
delete_room_set room now j = record j { delete_room_id = room; updated_ts = now }

-- scheduleConversationJobDeleteRoomQuery: DO UPDATE SET
unfoldable pub schedule_set : ℕ → String → ℕ → Job → Job
schedule_set next room now j = record j {
  revision = j.revision + 1;
  attempt_count = 0;
  next_attempt_ts = next;
  last_error_code = "";
  delete_room_id = room;
  updated_ts = now;
}

-- markConversationJobRetryQuery
unfoldable pub retry_set : ℕ → String → ℕ → Job → Job
retry_set next code now j = record j {
  revision = j.revision + 1;
  attempt_count = j.attempt_count + 1;
  next_attempt_ts = next;
  last_error_code = code;
  updated_ts = now;
}

-- PRIMARY KEY (bridge_id, user_login_id, conversation_id)
abbrev pub same_job : Job → Job → Bool
same_job r s =
    str_eq r.bridge_id s.bridge_id
    && str_eq r.user_login_id s.user_login_id
    && str_eq r.conversation_id s.conversation_id

abbrev pub Jobs : Type 0
Jobs = List Job

-- INSERT … ON CONFLICT (key) DO UPDATE SET f
unfoldable pub upsert : (Job → Bool) → Job → (Job → Job) → Jobs → Jobs
upsert key new f jobs = if any key jobs then update_where key f jobs else new ∷ jobs

-- ORDER BY next_attempt_ts, updated_ts
unfoldable pub job_before : Job → Job → Bool
job_before r s =
    if ltb r.next_attempt_ts s.next_attempt_ts
    then true
    else if ltb s.next_attempt_ts r.next_attempt_ts
    then false
    else ltb r.updated_ts s.updated_ts

module _ (bridge login : String) where
  abbrev pub of_login : Job → Bool
  of_login j = str_eq j.bridge_id bridge && str_eq j.user_login_id login

  -- getNextDueConversationJobQuery
  unfoldable pub is_due : ℕ → Job → Bool
  is_due now j = of_login j && leb j.next_attempt_ts now

  unfoldable pub next_due_row : ℕ → Jobs → Option Job
  next_due_row now jobs = least job_before (filter_where (is_due now) jobs)

  -- GetNextDue. The zero time, in the year 1, is before every next attempt.
  unfoldable pub get_next_due : Time → Jobs → Option ConversationJob
  get_next_due zero_time jobs = none
  get_next_due (instant n) jobs = elim (next_due_row (unix_milli (instant n)) jobs) [
    | none ↦ none
    | some j ↦ some (scan j)
  ]

  -- DeleteAll
  unfoldable pub delete_all : Jobs → Jobs
  delete_all jobs = delete_where of_login jobs

  -- Count
  unfoldable pub count : Jobs → ℕ
  count jobs = length (filter_where of_login jobs)

module _ (bridge login conversation : String) where
  -- WHERE bridge_id=$1 AND user_login_id=$2 AND conversation_id=$3
  abbrev pub at_key : Job → Bool
  at_key j =
      str_eq j.bridge_id bridge
      && str_eq j.user_login_id login
      && str_eq j.conversation_id conversation

  -- AND revision=$4
  abbrev pub at_revision : ℕ → Job → Bool
  at_revision revision j = at_key j && j.revision == revision

  -- Ensure
  unfoldable pub ensure : Time → Jobs → Jobs
  ensure now jobs =
      if any at_key jobs then jobs else new_job bridge login conversation (unix_milli now) ∷ jobs

  -- The job of the conversation.
  abbrev pub job_row : Jobs → Option Job
  job_row jobs = find at_key jobs

  abbrev returning : Option Job → ℕ × Time
  returning none = (0, time_from_millis 0)
  returning (some j) = (j.revision, time_from_millis j.created_ts)

  -- Put; RETURNING revision, created_ts
  unfoldable pub put : Time → Jobs → (ℕ × Time) × Jobs
  put now jobs =
      let jobs' =
        upsert at_key (new_job bridge login conversation (unix_milli now))
          (put_set (unix_milli now)) jobs in
      (returning (job_row jobs'), jobs')

  -- PutLiveConversation
  unfoldable pub put_live_conversation : Time → Jobs → Jobs
  put_live_conversation now jobs =
      upsert at_key (new_job bridge login conversation (unix_milli now))
        (put_live_set (unix_milli now)) jobs

  -- Get
  unfoldable pub get : Jobs → Option ConversationJob
  get jobs = elim (job_row jobs) [ none ↦ none | some j ↦ some (scan j) ]

  -- SetDeleteRoom
  unfoldable pub set_delete_room : ℕ → String → Time → Jobs → Bool × Jobs
  set_delete_room revision room now jobs = if str_eq room "" then (false, jobs) else (
    any (at_revision revision) jobs,
    update_where (at_revision revision) (delete_room_set room (unix_milli now)) jobs,
  )

  -- ScheduleDeleteRoom
  unfoldable pub schedule_delete_room : String → Time → Time → Jobs → Jobs
  schedule_delete_room room not_before now jobs =
      if str_eq room ""
      then jobs
      else (let next = unix_milli (if before not_before now then now else not_before) in
          upsert at_key
            (record (new_job bridge login conversation (unix_milli now)) {
              next_attempt_ts = next;
              delete_room_id = room;
            })
            (schedule_set next room (unix_milli now)) jobs)

  -- MarkRetry
  unfoldable pub mark_retry : ℕ → Time → String → Time → Jobs → Bool × Jobs
  mark_retry revision next code now jobs = (
    any (at_revision revision) jobs,
    update_where (at_revision revision)
        (retry_set (unix_milli next) (normalize_job_error_code code) (unix_milli now)) jobs,
  )

  -- Delete
  unfoldable pub delete : ℕ → Jobs → Bool × Jobs
  delete revision jobs = (any (at_revision revision) jobs, delete_where (at_revision revision) jobs)
