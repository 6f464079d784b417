-- ===== src/Inbox/Due.antt =====
-- Conversations whose job is due at once, through the calls that pkg/connector/inbound_sync.go makes of the queue.
use tumblr_dms.Prelude.{
  ℕ, ◌≡◌, refl, inl, inr, Bool, true, ◌&&◌, String, ◌==◌, eq_refl, any, Bool-cases, and_split,
}
use tumblr_dms.Prelude.Time.{Time, unix_milli}
use tumblr_dms.Prelude.Each.{any-set_where, any-keep_where, any-weaken, or_true}
use tumblr_dms.Jobs.{Job, Jobs, at_key, upsert, new_job, put_live_set, put_live_conversation}

module _ (bridge login : String) where
  -- A job of the conversation whose next attempt is at 0.
  abbrev pub due_now : String → Job → Bool
  due_now conversation j = at_key bridge login conversation j && j.next_attempt_ts == 0

  abbrev pub IsQueued : String → Jobs → Type 0
  IsQueued conversation jobs = any (due_now conversation) jobs ≡ true

  renewed_due :
      (conversation : String) (now : ℕ) (j : Job)
      → at_key bridge login conversation j ≡ true
      → due_now conversation (put_live_set now j) ≡ true
  unfolding put_live_set
  renewed_due conversation now j e = rw e refl

  new_due :
      (conversation : String) (now : ℕ)
      → due_now conversation (new_job bridge login conversation now) ≡ true
  unfolding new_job
  new_due conversation now = rw (eq_refl bridge, eq_refl login, eq_refl conversation) refl

  -- The conversation is queued after PutLiveConversation.
  pub put_live_conversation-IsQueued :
      (conversation : String) (now : Time) (jobs : Jobs)
      → IsQueued conversation (put_live_conversation bridge login conversation now jobs)
  unfolding put_live_conversation upsert
  put_live_conversation-IsQueued conversation now jobs =
      elim (Bool-cases (any (at_key bridge login conversation) jobs)) [
        | inl e ↦ rw (e) (
            any-set_where (due_now conversation) (at_key bridge login conversation)
              (put_live_set (unix_milli now)) jobs (renewed_due conversation (unix_milli now)) e)
        | inr e ↦ rw (e, new_due conversation (unix_milli now)) refl
      ]

  pub put_live_conversation-has_job :
      (conversation : String) (now : Time) (jobs : Jobs)
      → any
          (at_key bridge login conversation)
          (put_live_conversation bridge login conversation now jobs)
        ≡ true
  put_live_conversation-has_job conversation now jobs =
      any-weaken (due_now conversation) (at_key bridge login conversation) _
        (λ j e. (and_split (at_key bridge login conversation j) (j.next_attempt_ts == 0) e).0)
        (put_live_conversation-IsQueued conversation now jobs)

  still_due :
      (other conversation : String) (now : ℕ) (j : Job)
      → due_now other j ≡ true
      → due_now other (put_live_set now j) ≡ true
  unfolding put_live_set
  still_due other conversation now j e =
      let (own, _) = and_split (at_key bridge login other j) (j.next_attempt_ts == 0) e in
      rw own refl

  -- A queued conversation stays queued, whichever is put.
  pub put_live_conversation-keeps :
      (other conversation : String) (now : Time) (jobs : Jobs)
      → IsQueued other jobs
      → IsQueued other (put_live_conversation bridge login conversation now jobs)
  unfolding put_live_conversation upsert
  put_live_conversation-keeps other conversation now jobs h =
      elim (Bool-cases (any (at_key bridge login conversation) jobs)) [
        | inl e ↦ rw e (
            any-keep_where (due_now other) (at_key bridge login conversation)
              (put_live_set (unix_milli now)) jobs (still_due other conversation (unix_milli now))
              h)
        | inr e ↦ rw e (or_true _ _ h)
      ]
