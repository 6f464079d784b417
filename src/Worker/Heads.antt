-- ===== src/Worker/Heads.antt =====
-- queueChangedConversationHead of pkg/connector/inbound_sync.go.
use tumblr_dms.Prelude.{is_some, ◌≡◌, ◌⊎◌, Bool, true, false, List, Option, none, String, any}
use tumblr_dms.Prelude.Time.{Time}
use tumblr_dms.Jobs.{Jobs, at_key}
use tumblr_dms.Jobs.Rooms.{work_of}
use tumblr_dms.Sync.{HeadRow, get_head}
use tumblr_dms.Worker.{is_completed, queue_changed_conversation_head}

module _ (bridge login conversation head : String) where
  -- The conversation has a job that fetches it: one with no room to delete.
  abbrev pub HasLiveJob : Jobs → Type 0
  HasLiveJob jobs =
      (any (at_key bridge login conversation) jobs ≡ true)
      × ((work_of bridge login conversation jobs).delete_room_id ≡ "")

  -- The head is the completed one of the conversation.
  abbrev pub IsCompleted : List HeadRow → Type 0
  IsCompleted heads =
      is_completed bridge login conversation head (get_head bridge login conversation heads) ≡ true

  -- What queueChangedConversationHead leaves of the jobs, with the lock and without it.
  abbrev pub IsFollowed : Bool → List HeadRow → Jobs → Option Bool × Jobs → Type 0
  IsFollowed true heads jobs r = (is_some r.0 ≡ true) × (HasLiveJob r.1 ⊎ IsCompleted heads)
  IsFollowed false heads jobs r = r ≡ (none, jobs)

  -- The jobs after a call that gets the lock.
  abbrev pub polled : Time → List HeadRow → Jobs → Jobs
  polled now heads jobs =
      (queue_changed_conversation_head bridge login conversation head true now heads jobs).1
