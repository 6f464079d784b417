-- ===== src/Inbox/Deletions.antt =====
-- reconcileConversationDeletions of pkg/connector/inbound_sync.go: a walk through the whole remote inbox, and a job for
-- each conversation of the bridge that is not in it. The conversation is deleted only by the worker of that job, after
-- a check of its own. What is remembered of the walk for other files is left out.
pub mod Listed
use tumblr_dms.Prelude.{
  ℕ, zero, suc, ◌≡◌, Bool, true, false, not, ◌||◌, List, [], ◌∷◌, Option, none, some, String,
  str_eq, if◌then◌else◌,
}
use tumblr_dms.Prelude.Time.{Time}
use tumblr_dms.Prelude.Maps.{has, insert}
use tumblr_dms.Jobs.{Jobs, put}
use tumblr_dms.Inbox.{
  Conversation, Response, Remote, ScanError, fetch_failed, invalid_cursor, cursor_repeated,
  too_many_pages, not_ready, valid_remote_id, cursor_after, max_conversation_list_pages,
}

-- A portal of the login: the conversation that tumblrid.ParsePortalID gives, whether it is a pending one, by
-- isPendingDMPortalID, and whether its key is tc.portalKey of the conversation; the time at which its job is put.
pub record UserPortal : Type 0 where
  pub conversation_id : String
  pub pending : Bool
  pub own : Bool
  pub now : Time

module _ (remote : Remote) where
  -- remoteConversationIDs after the conversations of a page.
  unfoldable pub collect : List Conversation → List String → List String
  collect [] ids = ids
  collect (c ∷ cs) ids = collect cs (if valid_remote_id remote c.id then c.id ∷ ids else ids)

  abbrev pub turn_list :
      (String → List String → List String → Option ScanError × List String)
      → List String
      → List String
      → Option String
      → Option ScanError × List String
  turn_list more seen ids none = (some invalid_cursor, ids)
  turn_list more seen ids (some before) =
      if str_eq before ""
      then (none, ids)
      else (if has before seen
          then (some cursor_repeated, ids)
          else more before (before ∷ seen) ids)

  abbrev pub fetched_list :
      (String → List String → List String → Option ScanError × List String)
      → List String
      → List String
      → Option Response
      → Option ScanError × List String
  fetched_list more seen ids none = (some fetch_failed, ids)
  fetched_list more seen ids (some r) =
      turn_list more seen (collect r.conversations ids) (cursor_after remote r)

  -- The loop over pages.
  unfoldable pub list_pages :
      ℕ → ℕ → String → List String → List String → Option ScanError × List String
  list_pages zero page before seen ids = (some too_many_pages, ids)
  list_pages (suc rounds) page before seen ids =
      fetched_list (λ before' seen' ids'. list_pages rounds (suc page) before' seen' ids') seen ids
        (remote.fetch page before)

  module _ (bridge login : String) where
    -- The tests that skip a portal.
    unfoldable pub skips_portal : List String → UserPortal → Bool
    skips_portal ids p =
        not (valid_remote_id remote p.conversation_id)
        || p.pending
        || not p.own
        || has p.conversation_id ids

    -- The loop of enqueueMissingConversationChecks.
    unfoldable pub enqueue_missing_conversation_checks :
        List String
        → List UserPortal
        → List (String × (ℕ × Time))
        → Jobs
        → List (String × (ℕ × Time)) × Jobs
    enqueue_missing_conversation_checks ids [] queued jobs = (queued, jobs)
    enqueue_missing_conversation_checks ids (p ∷ ps) queued jobs =
        let (row, jobs') = put bridge login p.conversation_id p.now jobs in
        let skip = skips_portal ids p in
        enqueue_missing_conversation_checks ids ps
          (if skip then queued else insert p.conversation_id row queued)
          (if skip then jobs else jobs')

    abbrev pub check_missing :
        List UserPortal → Jobs → Option ScanError × List String → Option ScanError × Jobs
    check_missing portals jobs (some e, ids) = (some e, jobs)
    check_missing portals jobs (none, ids) =
        (none, (enqueue_missing_conversation_checks ids portals [] jobs).1)

    -- reconcileConversationDeletions, with the jobs after it.
    unfoldable pub reconcile_conversation_deletions :
        List UserPortal → Jobs → Option ScanError × Jobs
    reconcile_conversation_deletions portals jobs =
        if remote.ready
        then check_missing portals jobs (list_pages max_conversation_list_pages 0 "" [] [])
        else (some not_ready, jobs)
