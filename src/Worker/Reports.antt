-- ===== src/Worker/Reports.antt =====
-- What a worker of pkg/connector/inbound_sync.go leaves in the queue.
use tumblr_dms.Prelude.{
  ℕ, ◌+◌, ◌<◌, ◌≡◌, refl, sym, ap, ◌∙◌, inl, inr, Bool, true, false, not, ◌&&◌, ◌||◌, List, ◌∷◌,
  none, some, String, eq_iff, leb, ◌==◌, str_eq, if◌then◌else◌, any, All, no_conflict, Bool-cases,
  subst, and_split,
}
use tumblr_dms.Prelude.Time.{Time, after}
use tumblr_dms.Prelude.Each.{find-any}
use tumblr_dms.Prelude.Found.{find-passes}
use tumblr_dms.Jobs.{Job, Jobs, ConversationJob, same_job, at_key, get, scan}
use tumblr_dms.Jobs.Calls.{Call, perform_all}
use tumblr_dms.Jobs.Revisions.{Spares, IsIgnored, IsFrom-IsIgnored}
use tumblr_dms.Jobs.Stale.{Renews, renewed-IsFrom, get-row}
use tumblr_dms.Worker.{
  Steps, Worked, unlocked, worked, ok, lock_failed, do_work, put_off, report_work, process_current,
  process_selected_conversation_job,
}

module _ (bridge login : String) where
  -- The job that is got is the conversation's.
  pub get-conversation :
      (conversation : String) (job : ConversationJob) (jobs : Jobs)
      → get bridge login conversation jobs ≡ some job
      → (job.conversation_id ≡ conversation) × (any (at_key bridge login conversation) jobs ≡ true)
  unfolding scan
  get-conversation conversation job jobs found =
      let (j, row, same) = get-row bridge login conversation job jobs found in
      let own = find-passes (at_key bridge login conversation) j jobs row in
      let (_, ec) =
        and_split (str_eq j.bridge_id bridge && str_eq j.user_login_id login)
          (str_eq j.conversation_id conversation) own in
      (
        ap (λ (s : ConversationJob). s.conversation_id) (sym same)
            ∙ (eq_iff j.conversation_id conversation).0 ec,
        find-any (at_key bridge login conversation) j jobs row,
      )

module _ (steps : Steps) (bridge login : String) where
  -- A report on a superseded job changes nothing.
  report_ignored :
      (job : ConversationJob) (limited : ℕ) (w : Worked) (jobs : Jobs)
      → IsIgnored bridge login job.conversation_id job.revision jobs
      → (report_work steps bridge login job limited (w, jobs)).1 ≡ jobs
  unfolding report_work put_off
  report_ignored job limited unlocked jobs (deleted, retried, _) = refl
  report_ignored job limited (worked none) jobs (deleted, retried, _) =
      ap (λ (r : Bool × Jobs). r.1) deleted
  report_ignored job limited (worked (some e)) jobs (deleted, retried, _) =
      let put = λ (next : Time) (code : String) (now : Time).
        ap (λ (r : Bool × Jobs). r.1) (retried next code now) in
      elim (Bool-cases e.superseded) [
        | inl s ↦ rw s refl
        | inr s ↦ elim (Bool-cases e.block_check) [
          | inl b ↦ rw (s, b) refl
          | inr b ↦ rw (s, b) (put _ _ _)
        ]
      ]

  -- If new work is put for the conversation while the worker works, by Put, PutLiveConversation or ScheduleDeleteRoom,
  -- the conversation still has a job when the worker is done, whatever the work's outcome. So under any other calls of the
  -- queue during the work, in which no DeleteAll is of the login, a Delete of the conversation's job before the renewal names a
  -- revision before the worker's, and one after it a revision no later than the worker's. The table's primary key holds when the
  -- worker gets the job.
  pub renewed_work_stays :
      (selected job : ConversationJob) (limited : ℕ) (jobs : Jobs) (w : Worked)
      (earlier later : List (Time × Call)) (renewal : Time × Call)
      → no_conflict same_job jobs ≡ true
      → get bridge login selected.conversation_id jobs ≡ some job
      → do_work steps job jobs
        ≡ (w, perform_all bridge (renewal ∷ later) (perform_all bridge earlier jobs))
      → All (λ c. Spares bridge login selected.conversation_id job.revision c.1) earlier
      → Renews bridge login selected.conversation_id renewal.1
      → All (λ c. Spares bridge login selected.conversation_id (job.revision + 1) c.1) later
      → any
          (at_key bridge login selected.conversation_id)
          (process_selected_conversation_job steps bridge login selected limited jobs).1
        ≡ true
  unfolding process_selected_conversation_job
  renewed_work_stays selected job limited jobs w earlier later renewal unique found work spared
        renews spares =
      let (same, present) = get-conversation bridge login selected.conversation_id job jobs found in
      let after_work = perform_all bridge (renewal ∷ later) (perform_all bridge earlier jobs) in
      let newer =
        renewed-IsFrom bridge login selected.conversation_id job earlier later renewal jobs unique
          found spared renews spares in
      let ignored =
        IsFrom-IsIgnored bridge login selected.conversation_id job.revision after_work newer in
      let ignored' =
        subst (λ c. IsIgnored bridge login c job.revision after_work) (sym same) ignored in
      let stays =
        ap (any (at_key bridge login selected.conversation_id))
          (report_ignored job limited w after_work ignored')
        ∙ newer.0 in
      at_lock steps.lock
        (subst
          (λ o. any own_key (process_current steps bridge login selected limited jobs o).1 ≡ true)
          (sym found)
          (in_time
            (not (job.revision == selected.revision) || after job.next_attempt_at steps.checked_at)
            present
            (subst (λ r. any own_key (report_work steps bridge login job limited r).1 ≡ true)
              (sym work) stays)))
        present
    where
      own_key : Job → Bool
      own_key = at_key bridge login selected.conversation_id

      at_lock :
          (b : Bool)
          → any own_key
              (process_current steps bridge login selected limited jobs
                (get bridge login selected.conversation_id jobs)).1
            ≡ true
          → any own_key jobs ≡ true
          → any own_key
              (if b
                then process_current steps bridge login selected limited jobs
                    (get bridge login selected.conversation_id jobs)
                else (lock_failed, jobs, limited)).1
            ≡ true
      at_lock true h k = h
      at_lock false h k = k

      in_time :
          (b : Bool)
          → any own_key jobs ≡ true
          → any own_key (report_work steps bridge login job limited (do_work steps job jobs)).1
            ≡ true
          → any own_key
              (if b
                then (ok, jobs, limited)
                else report_work steps bridge login job limited (do_work steps job jobs)).1
            ≡ true
      in_time true k h = k
      in_time false k h = h

module _ (steps : Steps) (bridge login : String) (law : (n : ℕ) → 0 < n → steps.rand n < n) where
  -- The job of the conversation is due at a time in milliseconds.
  abbrev pub due_at : String → ℕ → Job → Bool
  due_at conversation t j = at_key bridge login conversation j && leb j.next_attempt_ts t
