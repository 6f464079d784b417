-- ===== src/Jobs/Stale.antt =====
-- A worker of pkg/connector/tumblrdb/job.go that took a job before the job was put again.
use tumblr_dms.Prelude.{
  ℕ, ◌+◌, ◌≤◌, ◌≡◌, refl, ap, ◌∙◌, subst, inl, inr, Bool, true, false, ◌&&◌, List, [], ◌∷◌, Option,
  none, some, String, arith, All, all, no_conflict, str_eq, eq_iff, eq_refl, if◌then◌else◌,
  Bool-cases, update_where, and_split,
}
use tumblr_dms.Prelude.Time.{Time}
use tumblr_dms.Prelude.Each.{find-head, find-tail, find-any, any-update_where}
use tumblr_dms.Jobs.{
  Job, ConversationJob, Jobs, scan, same_job, at_key, job_row, put_set, put_live_set, schedule_set,
  upsert, put, put_live_conversation, schedule_delete_room, get,
}
use tumblr_dms.Jobs.Calls.{Call, perform, perform_all}
use tumblr_dms.Jobs.Revisions.{IsFrom, Spares, IsIgnored, IsFrom-IsIgnored, perform_all-IsFrom}

module _ (bridge login conversation : String) where
  abbrev pub of_key : Job → Bool
  of_key = at_key bridge login conversation

  -- The rows of the conversation are at revision `n`.
  abbrev pub IsAt : ℕ → Jobs → Type 0
  IsAt n jobs = All (λ j. of_key j ≡ true → j.revision ≡ n) jobs

  of_key-eq :
      (j : Job)
      → of_key j ≡ true
      → (j.bridge_id ≡ bridge) × (j.user_login_id ≡ login) × (j.conversation_id ≡ conversation)
  of_key-eq j e =
      let (e', ec) =
        and_split (str_eq j.bridge_id bridge && str_eq j.user_login_id login)
          (str_eq j.conversation_id conversation) e in
      let (eb, el) = and_split (str_eq j.bridge_id bridge) (str_eq j.user_login_id login) e' in
      (
        (eq_iff j.bridge_id bridge).0 eb,
        (eq_iff j.user_login_id login).0 el,
        (eq_iff j.conversation_id conversation).0 ec,
      )

  same_job-of_key : (j k : Job) → of_key j ≡ true → of_key k ≡ true → same_job j k ≡ true
  same_job-of_key j k ej ek =
      let (b, l, c) = of_key-eq j ej in
      let (b', l', c') = of_key-eq k ek in
      rw (b, l, c, b', l', c', eq_refl bridge, eq_refl login, eq_refl conversation) refl

  others :
      (j : Job) (jobs : Jobs)
      → of_key j ≡ true
      → all (λ k. if same_job j k then false else true) jobs ≡ true
      → (n : ℕ) → IsAt n jobs
  others j [] e h n = tt
  others j (k ∷ jobs) e h n =
      let (hk, hs) =
        and_split (if same_job j k then false else true)
          (all (λ k. if same_job j k then false else true) jobs) h in
      ((λ ek. cc (same_job-of_key j k e ek, hk)), others j jobs e hs n)

  -- The revision of the job that is found is the one of the rows of the conversation.
  pub row-IsAt :
      (jobs : Jobs) (j : Job)
      → no_conflict same_job jobs ≡ true
      → job_row bridge login conversation jobs ≡ some j
      → IsAt j.revision jobs
  row-IsAt [] j u e = tt
  row-IsAt (k ∷ jobs) j u e =
      let (alone, unique) =
        and_split (all (λ x. if same_job k x then false else true) jobs) (no_conflict same_job jobs)
          u in
      elim (Bool-cases (of_key k)) [
        | inl own ↦
            let same = ap (λ (x : Job). x.revision) (find-head of_key k j jobs own e) in
            ((λ _. same), others k jobs own alone j.revision)
        | inr other ↦
            ((λ e'. cc (e', other)), row-IsAt jobs j unique (find-tail of_key k j jobs other e))
      ]

  IsAt-from : (n : ℕ) (jobs : Jobs) → IsAt n jobs → All (λ j. of_key j ≡ true → n ≤ j.revision) jobs
  IsAt-from n [] _ = tt
  IsAt-from n (j ∷ jobs) (h, hs) = ((λ e. let same = h e in omega arith), IsAt-from n jobs hs)

  newer :
      (n : ℕ) (f : Job → Job) (jobs : Jobs)
      → ((j : Job) → (f j).revision ≡ j.revision + 1)
      → All (λ j. of_key j ≡ true → n ≤ j.revision) jobs
      → All (λ j. of_key j ≡ true → n + 1 ≤ j.revision) (update_where of_key f jobs)
  newer n f [] r _ = tt
  newer n f (j ∷ jobs) r (h, hs) =
      let rest = newer n f jobs r hs in
      elim (Bool-cases (of_key j)) [
        | inl e ↦ rw e ((λ _. let a = r j in let b = h e in omega arith), rest)
        | inr e ↦ rw e ((λ e'. cc (e, e')), rest)
      ]

  upsert-IsFrom :
      (n : ℕ) (new : Job) (f : Job → Job) (jobs : Jobs)
      → ((j : Job) → (f j).revision ≡ j.revision + 1)
      → ((j : Job) → of_key (f j) ≡ of_key j)
      → IsFrom bridge login conversation n jobs
      → IsFrom bridge login conversation (n + 1) (upsert of_key new f jobs)
  unfolding upsert
  upsert-IsFrom n new f jobs raises keeps (present, h) =
      rw present (any-update_where of_key of_key f jobs keeps ∙ present, newer n f jobs raises h)

  -- A call that puts the conversation's job again.
  abbrev pub Renews : Call → Type 0
  Renews (Call.put l c) = (l ≡ login) × (c ≡ conversation)
  Renews (Call.put_live_conversation l c) = (l ≡ login) × (c ≡ conversation)
  Renews (Call.schedule_delete_room l c room _) =
      (l ≡ login) × (c ≡ conversation) × (str_eq room "" ≡ false)
  Renews _ = ⊥

  renew-IsFrom :
      (n : ℕ) (now : Time) (call : Call) (jobs : Jobs)
      → Renews call
      → IsFrom bridge login conversation n jobs
      → IsFrom bridge login conversation (n + 1) (perform bridge now call jobs)
  unfolding perform put put_live_conversation schedule_delete_room put_set put_live_set schedule_set
  renew-IsFrom n now (Call.put l c) jobs (el, ec) h =
      rw (el, ec) (upsert-IsFrom n _ _ jobs (λ j. refl) (λ j. refl) h)
  renew-IsFrom n now (Call.put_live_conversation l c) jobs (el, ec) h =
      rw (el, ec) (upsert-IsFrom n _ _ jobs (λ j. refl) (λ j. refl) h)
  renew-IsFrom n now (Call.schedule_delete_room l c room t) jobs (el, ec, e) h =
      rw (el, ec, perform, schedule_delete_room, e)
        (upsert-IsFrom n _ _ jobs (λ j. refl) (λ j. refl) h)
  renew-IsFrom n now (Call.ensure _ _) jobs r h = absurd r
  renew-IsFrom n now (Call.set_delete_room _ _ _ _) jobs r h = absurd r
  renew-IsFrom n now (Call.mark_retry _ _ _ _ _) jobs r h = absurd r
  renew-IsFrom n now (Call.delete _ _ _) jobs r h = absurd r
  renew-IsFrom n now (Call.delete_all _) jobs r h = absurd r

  pub get-row :
      (job : ConversationJob) (jobs : Jobs)
      → get bridge login conversation jobs ≡ some job
      → (j : Job) × (job_row bridge login conversation jobs ≡ some j) × (scan j ≡ job)
  unfolding get scan
  get-row job jobs h = go (job_row bridge login conversation jobs) h
    where
      go :
          (o : Option Job)
          → (elim o [ none ↦ none | some j ↦ some (scan j) ]) ≡ some job
          → (j : Job) × (o ≡ some j) × (scan j ≡ job)
      go none h = absurd cc
      go (some j) h = let same : scan j ≡ job = cc h in (j, refl, same)

  scan-revision : (j : Job) (job : ConversationJob) → scan j ≡ job → j.revision ≡ job.revision
  unfolding scan
  scan-revision j job same = ap (λ (s : ConversationJob). s.revision) same

  got-IsFrom :
      (job : ConversationJob) (jobs : Jobs)
      → no_conflict same_job jobs ≡ true
      → get bridge login conversation jobs ≡ some job
      → IsFrom bridge login conversation job.revision jobs
  got-IsFrom job jobs unique found =
      let (j, row, same) = get-row job jobs found in
      let at = subst (λ n. IsAt n jobs) (scan-revision j job same) (row-IsAt jobs j unique row) in
      (find-any of_key j jobs row, IsAt-from job.revision jobs at)

  -- The job that was got is superseded after a renewal, whatever calls come before and after it that spare the job.
  pub renewed-IsFrom :
      (job : ConversationJob) (earlier later : List (Time × Call)) (renewal : Time × Call)
      (jobs : Jobs)
      → no_conflict same_job jobs ≡ true
      → get bridge login conversation jobs ≡ some job
      → All (λ c. Spares bridge login conversation job.revision c.1) earlier
      → Renews renewal.1
      → All (λ c. Spares bridge login conversation (job.revision + 1) c.1) later
      → IsFrom bridge login conversation
          (job.revision + 1)
          (perform_all bridge (renewal ∷ later) (perform_all bridge earlier jobs))
  renewed-IsFrom job earlier later renewal jobs unique found spared renews spares =
      let n = job.revision in
      perform_all-IsFrom bridge login conversation (n + 1) later _ spares (
        renew-IsFrom n renewal.0 renewal.1 _ renews (
          perform_all-IsFrom bridge login conversation n earlier jobs spared
            (got-IsFrom job jobs unique found)))

  -- A worker that got a job cannot delete it, put it off or give it a room to delete, once the conversation's job was put
  -- again by `Put`, `PutLiveConversation` or `ScheduleDeleteRoom`: its report returns false and changes no row. So under any other
  -- calls before and after the renewal, in which no `DeleteAll` is of the login, a `Delete` of the conversation's job before the renewal names a
  -- revision before the worker's, and one after it a revision no later than the worker's. The table's primary key holds when the
  -- job is got.
  pub superseded_report-IsIgnored :
      (job : ConversationJob) (earlier later : List (Time × Call)) (renewal : Time × Call)
      (jobs : Jobs)
      → no_conflict same_job jobs ≡ true
      → get bridge login conversation jobs ≡ some job
      → All (λ c. Spares bridge login conversation job.revision c.1) earlier
      → Renews renewal.1
      → All (λ c. Spares bridge login conversation (job.revision + 1) c.1) later
      → IsIgnored bridge login conversation job.revision
          (perform_all bridge (renewal ∷ later) (perform_all bridge earlier jobs))
  superseded_report-IsIgnored job earlier later renewal jobs unique found spared renews spares =
      IsFrom-IsIgnored bridge login conversation job.revision _
        (renewed-IsFrom job earlier later renewal jobs unique found spared renews spares)
