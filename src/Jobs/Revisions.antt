-- ===== src/Jobs/Revisions.antt =====
-- Optimistic concurrency of pkg/connector/tumblrdb/job.go: a worker names the revision that it read, and
-- what it reports on a superseded one changes nothing.
use tumblr_dms.Prelude.{
  ℕ, ◌+◌, ◌≤◌, ◌<◌, ◌≡◌, refl, sym, ◌∙◌, ◌⊎◌, inl, inr, Bool, true, false, ◌&&◌, List, [], ◌∷◌,
  String, arith, All, any, str_eq, eq_iff, if◌then◌else◌, Bool-cases, update_where, delete_where,
  and_split, ◌==◌,
}
use tumblr_dms.Prelude.Time.{Time}
use tumblr_dms.Prelude.Each.{
  All-update_where, All-delete_where, All-map, any-update_where, any-delete_where, none-where,
  update_where-none, delete_where-none,
}
use tumblr_dms.Jobs.{
  Job, Jobs, at_key, at_revision, new_job, put_set, put_live_set, delete_room_set, schedule_set,
  retry_set, upsert, ensure, put, put_live_conversation, set_delete_room, schedule_delete_room,
  mark_retry, delete, delete_all,
}
use tumblr_dms.Jobs.Calls.{Call, perform, perform_all}

and_right_false : (a b : Bool) → b ≡ false → (a && b) ≡ false
and_right_false true b e = e
and_right_false false b e = refl

and_inner_false : (a b c : Bool) → (b && c) ≡ false → ((a && b) && c) ≡ false
and_inner_false true b c e = e
and_inner_false false b c e = refl

and_left_false : (a b : Bool) → a ≡ false → (a && b) ≡ false
and_left_false true b e = cc
and_left_false false b e = refl

eqb_false : (a b n : ℕ) → b < n → n ≤ a → (a == b) ≡ false
eqb_false a b n h k = ground arith

module _ (bridge login conversation : String) (n : ℕ) where
  abbrev pub key : Job → Bool
  key = at_key bridge login conversation

  -- The conversation has a job, at revision `n` or a later one.
  abbrev pub IsFrom : Jobs → Type 0
  IsFrom jobs = (any key jobs ≡ true) × All (λ j. key j ≡ true → n ≤ j.revision) jobs

  -- A call that does not remove the job at revision `n` or a later one.
  abbrev pub Spares : Call → Type 0
  Spares (Call.delete l c r) = (r < n) ⊎ ((str_eq login l && str_eq conversation c) ≡ false)
  Spares (Call.delete_all l) = str_eq login l ≡ false
  Spares _ = Unit

  -- A statement that keeps the key of a row and does not lower its revision.
  abbrev Raises : (Job → Job) → Type 0
  Raises f = (j : Job) → (key (f j) ≡ key j) × (j.revision ≤ (f j).revision)

  update-IsFrom :
      (p : Job → Bool) (f : Job → Job) (jobs : Jobs)
      → Raises f
      → IsFrom jobs
      → IsFrom (update_where p f jobs)
  update-IsFrom p f jobs raises (present, newer) = (
    any-update_where key p f jobs (λ j. (raises j).0) ∙ present,
    All-update_where (λ j. key j ≡ true → n ≤ j.revision) p f jobs
        (λ j _ h e. let (k, le) = raises j in let lt = h (sym k ∙ e) in omega arith) newer,
  )

  insert-IsFrom :
      (other : Job → Bool) (new : Job) (jobs jobs' : Jobs)
      → (key new ≡ true → any other jobs ≡ true)
      → IsFrom jobs
      → IsFrom jobs'
      → IsFrom (if any other jobs then jobs' else new ∷ jobs)
  insert-IsFrom other new jobs jobs' same h h' = elim (Bool-cases (any other jobs)) [
    | inl e ↦ rw e h'
    | inr e ↦ elim (Bool-cases (key new)) [
      | inl k ↦ let there = same k in cc (e, there)
      | inr k ↦ rw (e, k) (h.0, ((λ h. cc (h, k)), h.1))
    ]
  ]

  upsert-IsFrom :
      (other : Job → Bool) (new : Job) (f : Job → Job) (jobs : Jobs)
      → Raises f
      → (key new ≡ true → any other jobs ≡ true)
      → IsFrom jobs
      → IsFrom (upsert other new f jobs)
  unfolding upsert
  upsert-IsFrom other new f jobs raises same h =
      insert-IsFrom other new jobs (update_where other f jobs) same h
        (update-IsFrom other f jobs raises h)

  -- The row of a key that is this one's is there.
  same_key :
      (l c : String) (jobs : Jobs)
      → any key jobs ≡ true
      → ((str_eq bridge bridge && str_eq l login) && str_eq c conversation) ≡ true
      → any (at_key bridge l c) jobs ≡ true
  same_key l c jobs present e =
      let (e', ec) = and_split (str_eq bridge bridge && str_eq l login) (str_eq c conversation) e in
      let (_, el) = and_split (str_eq bridge bridge) (str_eq l login) e' in
      rw ((eq_iff l login).0 el, (eq_iff c conversation).0 ec) present

  delete-IsFrom :
      (p : Job → Bool) (jobs : Jobs)
      → ((j : Job) → key j ≡ true → n ≤ j.revision → p j ≡ false)
      → IsFrom jobs
      → IsFrom (delete_where p jobs)
  delete-IsFrom p jobs spares (present, newer) = (
    any-delete_where key p jobs
        (All-map (λ j. key j ≡ true → n ≤ j.revision) (λ j. key j ≡ true → p j ≡ false) jobs
          (λ j h e. spares j e (h e)) newer)
        present,
    All-delete_where (λ j. key j ≡ true → n ≤ j.revision) p jobs newer,
  )

  key_of : (j : Job) → key j ≡ true → (j.user_login_id ≡ login) × (j.conversation_id ≡ conversation)
  key_of j e =
      let (e', ec) =
        and_split (str_eq j.bridge_id bridge && str_eq j.user_login_id login)
          (str_eq j.conversation_id conversation) e in
      let (_, el) = and_split (str_eq j.bridge_id bridge) (str_eq j.user_login_id login) e' in
      ((eq_iff j.user_login_id login).0 el, (eq_iff j.conversation_id conversation).0 ec)

  Spares-row :
      (l c : String) (r : ℕ) (j : Job)
      → Spares (Call.delete l c r)
      → key j ≡ true
      → n ≤ j.revision
      → at_revision bridge l c r j ≡ false
  Spares-row l c r j (inl le) e lt =
      and_right_false _ (j.revision == r) (eqb_false j.revision r n le lt)
  Spares-row l c r j (inr other) e lt =
      let (el, ec) = key_of j e in
      and_left_false (at_key bridge l c j) _ (
        and_inner_false _ (str_eq j.user_login_id l) (str_eq j.conversation_id c)
          (rw (el, ec) other))

  perform-IsFrom :
      (now : Time) (call : Call) (jobs : Jobs)
      → Spares call
      → IsFrom jobs
      → IsFrom (perform bridge now call jobs)
  unfolding perform ensure put put_live_conversation set_delete_room schedule_delete_room mark_retry
      delete delete_all new_job put_set put_live_set delete_room_set schedule_set retry_set
  perform-IsFrom now (Call.ensure l c) jobs _ h =
      insert-IsFrom _ _ jobs jobs (same_key l c jobs h.0) h h
  perform-IsFrom now (Call.put l c) jobs _ h =
      upsert-IsFrom _ _ _ jobs (λ j. (refl, omega arith)) (same_key l c jobs h.0) h
  perform-IsFrom now (Call.put_live_conversation l c) jobs _ h =
      upsert-IsFrom _ _ _ jobs (λ j. (refl, omega arith)) (same_key l c jobs h.0) h
  perform-IsFrom now (Call.set_delete_room l c r room) jobs _ h =
      elim (Bool-cases (str_eq room "")) [
        | inl e ↦ rw (perform, set_delete_room, e) h
        | inr e ↦
            rw (perform, set_delete_room, e) (update-IsFrom _ _ jobs (λ j. (refl, omega arith)) h)
      ]
  perform-IsFrom now (Call.schedule_delete_room l c room t) jobs _ h =
      elim (Bool-cases (str_eq room "")) [
        | inl e ↦ rw (perform, schedule_delete_room, e) h
        | inr e ↦
            rw (perform, schedule_delete_room, e)
              (upsert-IsFrom _ _ _ jobs (λ j. (refl, omega arith)) (same_key l c jobs h.0) h)
      ]
  perform-IsFrom now (Call.mark_retry l c r next code) jobs _ h =
      update-IsFrom _ _ jobs (λ j. (refl, omega arith)) h
  perform-IsFrom now (Call.delete l c r) jobs s h =
      delete-IsFrom _ jobs (λ j. Spares-row l c r j s) h
  perform-IsFrom now (Call.delete_all l) jobs s h =
      delete-IsFrom _ jobs
        (λ j e _. and_right_false _ (str_eq j.user_login_id l) (rw (key_of j e).0 s)) h

  pub perform_all-IsFrom :
      (calls : List (Time × Call)) (jobs : Jobs)
      → All (λ c. Spares c.1) calls
      → IsFrom jobs
      → IsFrom (perform_all bridge calls jobs)
  perform_all-IsFrom [] jobs _ h = h
  perform_all-IsFrom (c ∷ cs) jobs (s, ss) h =
      perform_all-IsFrom cs (perform bridge c.0 c.1 jobs) ss (perform-IsFrom c.0 c.1 jobs s h)

module _ (bridge login conversation : String) (n : ℕ) where
  abbrev this_key : Job → Bool
  this_key = at_key bridge login conversation

  -- What a worker can say of revision `n`.
  abbrev pub IsIgnored : Jobs → Type 0
  IsIgnored jobs =
      (delete bridge login conversation n jobs ≡ (false, jobs))
      × ((next : Time) (code : String) (now : Time)
          → mark_retry bridge login conversation n next code now jobs ≡ (false, jobs))
      × ((room : String) (now : Time)
          → set_delete_room bridge login conversation n room now jobs ≡ (false, jobs))

  no_row :
      (jobs : Jobs)
      → IsFrom bridge login conversation (n + 1) jobs
      → All (λ j. at_revision bridge login conversation n j ≡ false) jobs
  no_row jobs h =
      All-map (λ j. this_key j ≡ true → n + 1 ≤ j.revision)
        (λ j. at_revision bridge login conversation n j ≡ false) jobs
        (λ j newer. elim (Bool-cases (this_key j)) [
          | inl e ↦
              and_right_false (this_key j) (j.revision == n)
                (eqb_false j.revision n (n + 1) (omega arith) (newer e))
          | inr e ↦ and_left_false (this_key j) (j.revision == n) e
        ])
        h.1

  pub IsFrom-IsIgnored :
      (jobs : Jobs) → IsFrom bridge login conversation (n + 1) jobs → IsIgnored jobs
  unfolding delete mark_retry set_delete_room
  IsFrom-IsIgnored jobs h =
      let none = no_row jobs h in
      let absent = none-where (at_revision bridge login conversation n) jobs none in
      let same = update_where-none (at_revision bridge login conversation n) in
      (
        rw (absent, delete_where-none (at_revision bridge login conversation n) jobs none) refl,
        (λ next code now. rw (absent, same _ jobs none) refl),
        (λ room now. elim (Bool-cases (str_eq room "")) [
          | inl e ↦ rw (set_delete_room, e) refl
          | inr e ↦ rw (set_delete_room, e, absent, same _ jobs none) refl
        ]),
      )
