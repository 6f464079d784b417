-- ===== src/Inbox.antt =====
-- reconcileConversationHead of pkg/connector/inbound_sync.go: a walk through the pages of the remote inbox that puts
-- a job for each conversation which changed since the last walk, and then moves the watermark.
pub mod Due
pub mod Pages
pub mod Covered
pub mod Whole
pub mod Failed
pub mod Deletions
mod Tests
use tumblr_dms.Prelude.{
  ℕ, zero, suc, ◌+◌, ◌≡◌, Bool, true, false, not, ◌&&◌, ◌||◌, List, [], ◌∷◌, Option, none, some,
  String, ltb, leb, ◌==◌, str_eq, if◌then◌else◌, any, all,
}
use tumblr_dms.Prelude.Time.{Time}
use tumblr_dms.Prelude.Maps.{lookup, has}
use tumblr_dms.Jobs.{Jobs, put_live_conversation}
use tumblr_dms.Sync.{StateRow, SyncState, get_state, set_scan_success}

-- ResponseLink, with the fields that are read.
pub record Link : Type 0 where
  pub href : String
  pub query_params : List (String × String)

-- A conversation of the list, with the fields that are read. A timestamp that is not positive is 0.
pub record Conversation : Type 0 where
  pub id : String
  pub last_modified : ℕ

-- ConversationListResponse; `next` is Links.Next.
pub record Response : Type 0 where
  pub conversations : List Conversation
  pub next : Option Link

-- What is outside the package: `trim` is strings.TrimSpace, `runes` utf8.RuneCountInString,
-- `space_or_control` containsMetadataSpaceOrControl, `parse_before` the query parameter of a parsed URL, none if
-- url.Parse fails; `ready` is whether the login, its metadata and its client are there; `fetch` answers
-- ListConversationsBefore for a page and its cursor, none for an error; `lock` is whether the submission lock was
-- acquired for the n-th job, and `now` the time at which it was put.
pub record Remote : Type 0 where
  pub trim : String → String
  pub runes : String → ℕ
  pub space_or_control : String → Bool
  pub parse_before : String → Option String
  pub ready : Bool
  pub fetch : ℕ → String → Option Response
  pub lock : ℕ → Bool
  pub now : ℕ → Time

pub data ScanError : Type 0 where
  not_ready : ScanError
  fetch_failed : ScanError
  lock_failed : ScanError
  invalid_cursor : ScanError
  cursor_repeated : ScanError
  too_many_pages : ScanError

-- What a walk keeps: the jobs, how many it has put, and the newest timestamp.
pub record Walk : Type 0 where
  pub jobs : Jobs
  pub puts : ℕ
  pub newest : ℕ

-- maxConversationListPages
abbrev pub max_conversation_list_pages : ℕ
max_conversation_list_pages = 1000

-- maxRemoteIDRunes
abbrev pub max_remote_id_runes : ℕ
max_remote_id_runes = 512

module _ (remote : Remote) where
  -- validRemoteID
  unfoldable pub valid_remote_id : String → Bool
  valid_remote_id id =
      not (str_eq (remote.trim id) "")
      && leb (remote.runes id) max_remote_id_runes
      && not (remote.space_or_control id)

  -- QueryParam
  unfoldable pub query_param : String → Link → String
  query_param name l = elim (lookup name l.query_params) [
    | none ↦ remote.trim ""
    | some v ↦ remote.trim v
  ]

  -- The end of nextBeforeCursor: the parameter of the parsed link, none for an error.
  abbrev pub parsed_cursor : Option String → Option String
  parsed_cursor none = none
  parsed_cursor (some before) =
      if str_eq (remote.trim before) "" then none else some (remote.trim before)

  -- nextBeforeCursor
  unfoldable pub next_before_cursor : Option Link → Option String
  next_before_cursor none = some ""
  next_before_cursor (some l) =
      if str_eq (query_param "before" l) ""
      then (if str_eq (remote.trim l.href) ""
          then none
          else parsed_cursor (remote.parse_before (remote.trim l.href)))
      else some (query_param "before" l)

  -- The cursor of the page after this, trimmed.
  unfoldable pub cursor_after : Response → Option String
  cursor_after r = elim (next_before_cursor r.next) [
    | none ↦ none
    | some before ↦ some (remote.trim before)
  ]

  module _ (bridge login : String) (previous : ℕ) where
    -- `conversation.LastModifiedTimestamp > newWatermark`
    abbrev pub note_newest : Conversation → Walk → Walk
    note_newest c w = record w {
      newest = if ltb w.newest c.last_modified then c.last_modified else w.newest;
    }

    -- Known to be older than the last walk.
    abbrev pub is_older : Conversation → Bool
    is_older c = ltb 0 previous && ltb 0 c.last_modified && ltb c.last_modified previous

    -- putLiveConversationJob
    unfoldable pub put_live_conversation_job : String → Walk → Option ScanError × Walk
    put_live_conversation_job id w =
        if remote.lock w.puts
        then (
          none,
          record w {
            jobs = put_live_conversation bridge login id (remote.now w.puts) w.jobs;
            puts = w.puts + 1;
          },
        )
        else (some lock_failed, w)

    -- A round of the loop over a page's conversations.
    unfoldable pub visit_conversation : Conversation → Walk → Option ScanError × Walk
    visit_conversation c w =
        if not (valid_remote_id c.id)
        then (none, w)
        else (if is_older c
            then (none, note_newest c w)
            else put_live_conversation_job c.id (note_newest c w))

    abbrev pub next_conversation :
        (Walk → Option ScanError × Walk) → Option ScanError × Walk → Option ScanError × Walk
    next_conversation rest (none, w) = rest w
    next_conversation rest (some e, w) = (some e, w)

    unfoldable pub visit_page : List Conversation → Walk → Option ScanError × Walk
    visit_page [] w = (none, w)
    visit_page (c ∷ cs) w = next_conversation (λ w'. visit_page cs w') (visit_conversation c w)

    -- pageStrictlyOlderThanWatermark
    unfoldable pub page_is_older : List Conversation → Bool
    page_is_older [] = false
    page_is_older (c ∷ cs) =
        ltb 0 previous
        && all (λ d. not (leb d.last_modified 0 || leb previous d.last_modified)) (c ∷ cs)

    -- The end of a round: the cursor of the page after, or none.
    abbrev pub turn_page :
        (String → List String → Walk → Option ScanError × Walk)
        → List String
        → Response
        → Walk
        → Option String
        → Option ScanError × Walk
    turn_page more seen r w none = (some invalid_cursor, w)
    turn_page more seen r w (some before) =
        if str_eq before "" || page_is_older r.conversations
        then (none, w)
        else (if has before seen then (some cursor_repeated, w) else more before (before ∷ seen) w)

    -- What follows the loop over a page. With no error the walk ends by SetScanSuccess.
    abbrev pub after_page :
        (String → List String → Walk → Option ScanError × Walk)
        → List String
        → Response
        → Option ScanError × Walk
        → Option ScanError × Walk
    after_page more seen r (some e, w) = (some e, w)
    after_page more seen r (none, w) = turn_page more seen r w (cursor_after r)

    abbrev pub fetched :
        (String → List String → Walk → Option ScanError × Walk)
        → List String
        → Walk
        → Option Response
        → Option ScanError × Walk
    fetched more seen w none = (some fetch_failed, w)
    fetched more seen w (some r) = after_page more seen r (visit_page r.conversations w)

    -- The loop over pages, for `rounds` pages from `page` on.
    unfoldable pub walk_pages : ℕ → ℕ → String → List String → Walk → Option ScanError × Walk
    walk_pages zero page before seen w = (some too_many_pages, w)
    walk_pages (suc rounds) page before seen w =
        fetched (λ before' seen' w'. walk_pages rounds (suc page) before' seen' w') seen w
          (remote.fetch page before)

  -- previousWatermark
  abbrev pub previous_watermark : Option SyncState → ℕ
  previous_watermark none = 0
  previous_watermark (some s) = s.last_remote_watermark

  module _ (bridge login : String) where
    -- SetScanSuccess, at the time `at`.
    abbrev pub finish_walk :
        Time → List StateRow → Option ScanError × Walk → Option ScanError × Jobs × List StateRow
    finish_walk at states (some e, w) = (some e, w.jobs, states)
    finish_walk at states (none, w) =
        (none, w.jobs, set_scan_success bridge login w.newest at states)

    -- reconcileConversationHead, with the jobs and the states after it.
    unfoldable pub reconcile_conversation_head :
        Time → Jobs → List StateRow → Option ScanError × Jobs × List StateRow
    reconcile_conversation_head at jobs states =
        let previous = previous_watermark (get_state bridge login states) in
        if remote.ready
        then finish_walk at states (
            walk_pages bridge login previous max_conversation_list_pages 0 "" []
              (record { jobs = jobs; puts = 0; newest = previous }))
        else (some not_ready, jobs, states)
