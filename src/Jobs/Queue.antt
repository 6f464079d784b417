-- ===== src/Jobs/Queue.antt =====
-- The order of the queue of pkg/connector/tumblrdb/job.go: which job `GetNextDue` takes, and when a job is due.
use tumblr_dms.Prelude.{
  ℕ, ◌≤◌, ◌≡◌, ◌≢◌, eq_refl, eq_iff, Option-cases, refl, subst, inl, inr, true, false, ◌&&◌, Option,
  none, some, String, arith, All, any, str_eq, Bool-cases, leb, and_split,
}
use tumblr_dms.Prelude.Time.{Time, zero_time, instant, is_zero, unix_milli}
use tumblr_dms.Prelude.Least.{IsRow, IsSelected, least-IsSelected, selected-any}
use tumblr_dms.Prelude.Each.{All-map, any-set_where}
use tumblr_dms.Jobs.{
  Job, Jobs, scan, of_login, is_due, next_due_row, get_next_due, job_before, upsert, at_key,
  new_job, put_set, put_live_set, put, put_live_conversation,
}

-- No later in the order of the queue: next_attempt_ts, and then updated_ts.
abbrev pub IsNoLater : Job → Job → Type 0
IsNoLater r s =
    (r.next_attempt_ts ≤ s.next_attempt_ts)
    × (r.next_attempt_ts ≡ s.next_attempt_ts → r.updated_ts ≤ s.updated_ts)

job_before-sooner : (r s : Job) → job_before r s ≡ true → IsNoLater r s
unfolding job_before
job_before-sooner r s h = (ground arith, (λ e. ground arith))

job_before-later : (r s : Job) → job_before r s ≡ false → IsNoLater s r
unfolding job_before
job_before-later r s h = (ground arith, (λ e. ground arith))

IsNoLater-trans : (r s t : Job) → IsNoLater r s → IsNoLater s t → IsNoLater r t
IsNoLater-trans r s t (a, a') (b, b') =
    (omega arith, (λ e. let c = a' (omega arith) in let d = b' (omega arith) in omega arith))

leb-le : (m n : ℕ) → leb m n ≡ true → m ≤ n
leb-le m n h = ground arith

le-leb : (m n : ℕ) → m ≤ n → leb m n ≡ true
le-leb m n h = ground arith

module _ (bridge login : String) (now : ℕ) where
  -- The job is one of the login, and its next attempt is not in the future.
  abbrev pub IsDue : Job → Type 0
  IsDue j = (j.bridge_id ≡ bridge) × (j.user_login_id ≡ login) × (j.next_attempt_ts ≤ now)

  is_due-IsDue : (j : Job) → is_due bridge login now j ≡ true → IsDue j
  unfolding is_due
  is_due-IsDue j h =
      let (own, time) = and_split (of_login bridge login j) (leb j.next_attempt_ts now) h in
      let (b, l) = and_split (str_eq j.bridge_id bridge) (str_eq j.user_login_id login) own in
      ((eq_iff j.bridge_id bridge).0 b, (eq_iff j.user_login_id login).0 l, leb-le _ _ time)

  IsDue-is_due : (j : Job) → IsDue j → is_due bridge login now j ≡ true
  unfolding is_due
  IsDue-is_due j (b, l, time) =
      let own = (eq_iff j.bridge_id bridge).1 b in
      let mine = (eq_iff j.user_login_id login).1 l in
      rw (own, mine, le-leb j.next_attempt_ts now time) refl

  -- What the queue promises of a job that it selects, or of selecting none.
  abbrev pub IsEarliest : Jobs → Option Job → Type 0
  IsEarliest jobs none = All (λ k. ¬ IsDue k) jobs
  IsEarliest jobs (some j) = IsRow j jobs × IsDue j × All (λ k. IsDue k → IsNoLater j k) jobs

  selected :
      (jobs : Jobs) (o : Option Job)
      → IsSelected job_before IsNoLater job_before-sooner job_before-later IsNoLater-trans
          (is_due bridge login now)
          jobs
          o
      → IsEarliest jobs o
  selected jobs none h =
      All-map (λ k. is_due bridge login now k ≡ false) (λ k. ¬ IsDue k) jobs
        (λ k e due. let t = IsDue-is_due k due in absurd (cc (e, t))) h
  selected jobs (some j) (row, own, h) = (
    row,
    is_due-IsDue j own,
    All-map (λ k. is_due bridge login now k ≡ true → IsNoLater j k) (λ k. IsDue k → IsNoLater j k)
        jobs (λ k le due. le (IsDue-is_due k due)) h,
  )

  -- The job that `GetNextDue` selects is a row of the queue, of the login, whose next attempt is not in the future; every
  -- such row has a later next attempt, or the same one and was updated no earlier. It selects none only if there is no such row.
  pub next_due_row-IsEarliest : (jobs : Jobs) → IsEarliest jobs (next_due_row bridge login now jobs)
  unfolding next_due_row
  next_due_row-IsEarliest jobs = selected jobs _ (
      least-IsSelected job_before IsNoLater job_before-sooner job_before-later IsNoLater-trans
        (is_due bridge login now) jobs)

  next_due_row-none :
      (jobs : Jobs)
      → next_due_row bridge login now jobs ≡ none
      → any (is_due bridge login now) jobs ≡ false
  unfolding next_due_row
  next_due_row-none jobs e =
      selected-any job_before IsNoLater job_before-sooner job_before-later IsNoLater-trans
        (is_due bridge login now) jobs e

upsert-due :
    (bridge login conversation : String) (now : ℕ) (new : Job) (f : Job → Job) (jobs : Jobs)
    → is_due bridge login now new ≡ true
    → ((j : Job) → at_key bridge login conversation j ≡ true → is_due bridge login now (f j) ≡ true)
    → any (is_due bridge login now) (upsert (at_key bridge login conversation) new f jobs) ≡ true
unfolding upsert
upsert-due bridge login conversation now new f jobs h hf =
    elim (Bool-cases (any (at_key bridge login conversation) jobs)) [
      | inl e ↦
          rw e
            (any-set_where (is_due bridge login now) (at_key bridge login conversation) f jobs hf e)
      | inr e ↦ rw (e, h) refl
    ]

leb-zero : (n : ℕ) → leb 0 n ≡ true
leb-zero n = ground arith

new_job-due :
    (bridge login conversation : String) (at now : ℕ)
    → is_due bridge login now (new_job bridge login conversation at) ≡ true
unfolding is_due new_job
new_job-due bridge login conversation at now = rw (eq_refl bridge, eq_refl login, leb-zero now) refl

-- A job of the conversation is due when its next attempt is at 0.
at_key-due :
    (bridge login conversation : String) (now : ℕ) (j k : Job)
    → k.bridge_id ≡ j.bridge_id
    → k.user_login_id ≡ j.user_login_id
    → k.next_attempt_ts ≡ 0
    → at_key bridge login conversation j ≡ true
    → is_due bridge login now k ≡ true
unfolding is_due
at_key-due bridge login conversation now j k b l n e =
    let (own, _) =
      and_split (str_eq j.bridge_id bridge && str_eq j.user_login_id login)
        (str_eq j.conversation_id conversation) e in
    rw (b, l, n, own, leb-zero now) refl

due-found :
    (bridge login : String) (now : Time) (jobs : Jobs)
    → is_zero now ≡ false
    → any (is_due bridge login (unix_milli now)) jobs ≡ true
    → get_next_due bridge login now jobs ≢ none
unfolding get_next_due
due-found bridge login zero_time jobs set e h = absurd (cc set)
due-found bridge login (instant n) jobs set e h =
    let now = unix_milli (instant n) in
    let row = next_due_row bridge login now jobs in
    let some_row : (j : Job) → row ≡ some j → some (scan j) ≡ none = λ j f.
      subst (λ (o : Option Job). (elim o [ none ↦ none | some k ↦ some (scan k) ]) ≡ none) f h in
    elim (Option-cases (next_due_row bridge login now jobs)) [
      | inl none_due ↦ cc (e, next_due_row-none bridge login now jobs none_due)
      | inr (j, f) ↦ let h' : some (scan j) ≡ none = some_row j f in cc h'
    ]

-- After `Put` or `PutLiveConversation` of a conversation, whatever its job's state was, `GetNextDue`
-- finds a job for the login at any time but the zero time.
pub put_makes_due :
    (bridge login conversation : String) (at now : Time) (jobs : Jobs)
    → is_zero now ≡ false
    → (get_next_due bridge login now (put bridge login conversation at jobs).1 ≢ none)
      × (get_next_due bridge login now (put_live_conversation bridge login conversation at jobs)
          ≢ none)
unfolding put put_live_conversation put_set put_live_set
put_makes_due bridge login conversation at now jobs set =
    let fresh = new_job-due bridge login conversation (unix_milli at) (unix_milli now) in
    (
      due-found bridge login now _ set (
          upsert-due bridge login conversation (unix_milli now) _ _ jobs fresh
            (λ j. at_key-due bridge login conversation (unix_milli now) j _ refl refl refl)),
      due-found bridge login now _ set (
          upsert-due bridge login conversation (unix_milli now) _ _ jobs fresh
            (λ j. at_key-due bridge login conversation (unix_milli now) j _ refl refl refl)),
    )
