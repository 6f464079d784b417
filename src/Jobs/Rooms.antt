-- ===== src/Jobs/Rooms.antt =====
-- What the calls of pkg/connector/tumblrdb/job.go leave in a conversation's job: its revision, its attempts and
-- the room that is to be deleted.
use tumblr_dms.Prelude.{
  ℕ, ◌+◌, ◌≡◌, refl, ap, ◌∙◌, inl, inr, Bool, true, false, ◌&&◌, ◌∷◌, Option, none, some, String,
  eq_refl, str_eq, if◌then◌else◌, find, Option-cases,
}
use tumblr_dms.Prelude.Time.{Time, unix_milli, before, time_from_millis}
use tumblr_dms.Prelude.Each.{find-set_where, find-none, find-any, find-first}
use tumblr_dms.Jobs.{
  Job, ConversationJob, Jobs, scan, at_key, new_job, put_set, put_live_set, schedule_set, upsert,
  put, put_live_conversation, schedule_delete_room, get,
}

-- The fields of the conversation's job that its workers read: revision, attempts, next attempt, error and room.
pub record Work : Type 0 where
  pub revision : ℕ
  pub attempt_count : ℕ
  pub next_attempt_at : Time
  pub last_error_code : String
  pub delete_room_id : String

-- The work that `Get` returns; a conversation without a job is at revision 0.
abbrev pub work : Option ConversationJob → Work
work none = record {
  revision = 0;
  attempt_count = 0;
  next_attempt_at = time_from_millis 0;
  last_error_code = "";
  delete_room_id = "";
}
work (some j) = record {
  revision = j.revision;
  attempt_count = j.attempt_count;
  next_attempt_at = j.next_attempt_at;
  last_error_code = j.last_error_code;
  delete_room_id = j.delete_room_id;
}

-- New work at the next revision.
abbrev pub renewed : Work → Time → String → Work
renewed w next room = record {
  revision = w.revision + 1;
  attempt_count = 0;
  next_attempt_at = next;
  last_error_code = "";
  delete_room_id = room;
}

module _ (bridge login conversation : String) where
  abbrev own : Job → Bool
  own = at_key bridge login conversation

  abbrev pub work_of : Jobs → Work
  work_of jobs = work (get bridge login conversation jobs)

  abbrev row_work : Option Job → Work
  row_work none = work none
  row_work (some j) = work (some (scan j))

  work_of-row : (jobs : Jobs) → work_of jobs ≡ row_work (find own jobs)
  unfolding get
  work_of-row jobs = elim (Option-cases (find own jobs)) [
    | inl e ↦ rw (get, e) refl
    | inr (j, e) ↦ rw (get, e) refl
  ]

  -- An upsert of the conversation's job sets its fields, whether there was one or not.
  work-upsert :
      (new : Job) (f : Job → Job) (jobs : Jobs) (step : Work → Work)
      → own new ≡ true
      → ((j : Job) → own (f j) ≡ own j)
      → row_work (some new) ≡ step (work none)
      → ((j : Job) → row_work (some (f j)) ≡ step (row_work (some j)))
      → work_of (upsert own new f jobs) ≡ step (work_of jobs)
  unfolding upsert
  work-upsert new f jobs step own_new keeps h hf = elim (Option-cases (find own jobs)) [
    | inl e ↦
        rw (find-none own jobs e, work_of-row jobs, e)
          (work_of-row (new ∷ jobs) ∙ ap row_work (find-first own new jobs own_new) ∙ h)
    | inr (j, e) ↦
        rw (find-any own j jobs e, work_of-row jobs, e)
          (work_of-row _ ∙ ap row_work (find-set_where own f j jobs keeps e) ∙ hf j)
  ]

  -- `Put` makes new work that is due at once and keeps the room to delete, `PutLiveConversation` clears
  -- the room, and `ScheduleDeleteRoom` with a room sets it, due at the given time but not before the call's; each
  -- takes the next revision, the first one if there was no job.
  pub renewals :
      (room : String) (not_before at : Time) (jobs : Jobs)
      → str_eq room "" ≡ false
      → (work_of (put bridge login conversation at jobs).1
          ≡ renewed (work_of jobs) (time_from_millis 0) (work_of jobs).delete_room_id)
        × (work_of (put_live_conversation bridge login conversation at jobs)
            ≡ renewed (work_of jobs) (time_from_millis 0) "")
        × (work_of (schedule_delete_room bridge login conversation room not_before at jobs)
            ≡ renewed
                (work_of jobs)
                (time_from_millis (unix_milli (if before not_before at then at else not_before)))
                room)
  unfolding put put_live_conversation put_set put_live_set schedule_set new_job scan
      schedule_delete_room
  renewals room not_before at jobs e =
      let here : (str_eq bridge bridge && str_eq login login && str_eq conversation conversation)
          ≡ true =
        rw (eq_refl bridge, eq_refl login, eq_refl conversation) refl in
      (
        work-upsert _ _ jobs (λ w. renewed w (time_from_millis 0) w.delete_room_id) here (λ j. refl)
            refl (λ j. refl),
        work-upsert _ _ jobs (λ w. renewed w (time_from_millis 0) "") here (λ j. refl) refl
            (λ j. refl),
        rw (schedule_delete_room, e)
            (work-upsert _ _ jobs
              (λ w.
                renewed w
                  (time_from_millis (unix_milli (if before not_before at then at else not_before)))
                  room)
              here (λ j. refl) refl (λ j. refl)),
      )
