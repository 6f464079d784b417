-- ===== src/Jobs/Calls.antt =====
-- The calls of ConversationJobQuery in pkg/connector/tumblrdb/job.go, and runs of them.
use tumblr_dms.Prelude.{ℕ, List, [], ◌∷◌, String}
use tumblr_dms.Prelude.Time.{Time}
use tumblr_dms.Jobs

-- A call that changes rows, with its arguments.
pub data Call : Type 0 where
  ensure : String → String → Call
  put : String → String → Call
  put_live_conversation : String → String → Call
  set_delete_room : String → String → ℕ → String → Call
  schedule_delete_room : String → String → String → Time → Call
  mark_retry : String → String → ℕ → Time → String → Call
  delete : String → String → ℕ → Call
  delete_all : String → Call

module _ (bridge : String) where
  -- The rows after a call at a time.
  unfoldable pub perform : Time → Call → Jobs.Jobs → Jobs.Jobs
  perform now (Call.ensure login c) jobs = Jobs.ensure bridge login c now jobs
  perform now (Call.put login c) jobs = (Jobs.put bridge login c now jobs).1
  perform now (Call.put_live_conversation login c) jobs =
      Jobs.put_live_conversation bridge login c now jobs
  perform now (Call.set_delete_room login c revision room) jobs =
      (Jobs.set_delete_room bridge login c revision room now jobs).1
  perform now (Call.schedule_delete_room login c room not_before) jobs =
      Jobs.schedule_delete_room bridge login c room not_before now jobs
  perform now (Call.mark_retry login c revision next code) jobs =
      (Jobs.mark_retry bridge login c revision next code now jobs).1
  perform now (Call.delete login c revision) jobs = (Jobs.delete bridge login c revision jobs).1
  perform now (Call.delete_all login) jobs = Jobs.delete_all bridge login jobs

  abbrev pub perform_all : List (Time × Call) → Jobs.Jobs → Jobs.Jobs
  perform_all [] jobs = jobs
  perform_all (c ∷ cs) jobs = perform_all cs (perform c.0 c.1 jobs)
