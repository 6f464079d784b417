-- ===== src/Inbox/Failed.antt =====
-- Walks of reconcileConversationHead in pkg/connector/inbound_sync.go that may end with an error.
use tumblr_dms.Prelude.{
  ℕ, zero, suc, ◌+◌, ◌≤◌, ◌≡◌, refl, sym, ◌∙◌, get_elem?, Bool, true, false, not, ◌||◌, List, [],
  ◌∷◌, Option, none, some, String, str_eq, if◌then◌else◌, subst,
}
use tumblr_dms.Prelude.Time.{Time}
use tumblr_dms.Prelude.Maps.{has}
use tumblr_dms.Jobs.{Jobs, put_live_conversation}
use tumblr_dms.Sync.{StateRow, get_state}
use tumblr_dms.Inbox.{
  Conversation, Response, Remote, ScanError, Walk, valid_remote_id, note_newest, is_older,
  put_live_conversation_job, visit_conversation, next_conversation, visit_page, cursor_after,
  page_is_older, turn_page, after_page, fetched, walk_pages, max_conversation_list_pages,
  previous_watermark, finish_walk, reconcile_conversation_head,
}
use tumblr_dms.Inbox.Covered.{IsDescending, list_page}
use tumblr_dms.Inbox.Whole.{watermark, IsCaught, changed_conversation-IsCaught}
use tumblr_dms.Inbox.Due.{IsQueued, put_live_conversation-keeps}

module _ (remote : Remote) (bridge login id : String) (previous : ℕ) where
  -- The conversation is queued after the walk, whatever its outcome.
  abbrev Stays : Option ScanError × Walk → Type 0
  Stays o = IsQueued bridge login id o.1.jobs

  put_live_conversation_job-Stays :
      (other : String) (w : Walk)
      → IsQueued bridge login id w.jobs
      → Stays (put_live_conversation_job remote bridge login previous other w)
  unfolding put_live_conversation_job
  put_live_conversation_job-Stays other w h = by (remote.lock w.puts)
    where
      by :
          (b : Bool)
          → Stays (
              if b
              then (
                none,
                record w {
                  jobs = put_live_conversation bridge login other (remote.now w.puts) w.jobs;
                  puts = w.puts + 1;
                },
              )
              else (some ScanError.lock_failed, w))
      by true = put_live_conversation-keeps bridge login id other (remote.now w.puts) w.jobs h
      by false = h

  visit_conversation-Stays :
      (c : Conversation) (w : Walk)
      → IsQueued bridge login id w.jobs
      → Stays (visit_conversation remote bridge login previous c w)
  unfolding visit_conversation
  visit_conversation-Stays c w h =
      by (valid_remote_id remote c.id) (is_older remote bridge login previous c)
    where
      by :
          (v o : Bool)
          → Stays (
              if not v
              then (none, w)
              else (if o
                  then (none, note_newest remote bridge login previous c w)
                  else put_live_conversation_job remote bridge login previous c.id
                      (note_newest remote bridge login previous c w)))
      by false o = h
      by true true = h
      by true false =
          put_live_conversation_job-Stays c.id (note_newest remote bridge login previous c w) h

  visit_page-Stays :
      (cs : List Conversation) (w : Walk)
      → IsQueued bridge login id w.jobs
      → Stays (visit_page remote bridge login previous cs w)
  unfolding visit_page
  visit_page-Stays [] w h = h
  visit_page-Stays (c ∷ cs) w h =
      on (visit_conversation remote bridge login previous c w) (visit_conversation-Stays c w h)
        (visit_page-Stays cs)
    where
      on :
          (o : Option ScanError × Walk)
          → Stays o
          → ((v : Walk)
              → IsQueued bridge login id v.jobs
              → Stays (visit_page remote bridge login previous cs v))
          → Stays (
              next_conversation remote bridge login previous
                (λ v. visit_page remote bridge login previous cs v)
                o)
      on (none, v) k rest = rest v k
      on (some e, v) k rest = k

  abbrev Rest : Type 0
  Rest = String → List String → Walk → Option ScanError × Walk

  module _ (more : Rest)
      (ih : (b : String) (s : List String) (w : Walk)
        → IsQueued bridge login id w.jobs
        → Stays (more b s w)) where
    turn_page-Stays :
        (known : List String) (r : Response) (w : Walk) (o : Option String)
        → IsQueued bridge login id w.jobs
        → Stays (turn_page remote bridge login previous more known r w o)
    turn_page-Stays known r w none h = h
    turn_page-Stays known r w (some before) h =
        by (str_eq before "" || page_is_older remote bridge login previous r.conversations)
          (has before known)
      where
        by :
            (stop again : Bool)
            → Stays (
                if stop
                then (none, w)
                else (if again
                    then (some ScanError.cursor_repeated, w)
                    else more before (before ∷ known) w))
        by true again = h
        by false true = h
        by false false = ih before (before ∷ known) w h

    after_page-Stays :
        (known : List String) (r : Response) (o : Option ScanError × Walk)
        → Stays o
        → Stays (after_page remote bridge login previous more known r o)
    after_page-Stays known r (some e, w) h = h
    after_page-Stays known r (none, w) h = turn_page-Stays known r w (cursor_after remote r) h

    fetched-Stays :
        (known : List String) (w : Walk) (o : Option Response)
        → IsQueued bridge login id w.jobs
        → Stays (fetched remote bridge login previous more known w o)
    fetched-Stays known w none h = h
    fetched-Stays known w (some r) h =
        after_page-Stays known r (visit_page remote bridge login previous r.conversations w)
          (visit_page-Stays r.conversations w h)

  walk_pages-Stays :
      (rounds page : ℕ) (before : String) (known : List String) (w : Walk)
      → IsQueued bridge login id w.jobs
      → Stays (walk_pages remote bridge login previous rounds page before known w)
  unfolding walk_pages
  walk_pages-Stays zero page before known w h = h
  walk_pages-Stays (suc rounds) page before known w h =
      fetched-Stays (λ b s v. walk_pages remote bridge login previous rounds (suc page) b s v)
        (λ b s v. walk_pages-Stays rounds (suc page) b s v) known w (remote.fetch page before) h

module _ (remote : Remote) (bridge login : String) where
  -- A walk of reconcileConversationHead, whatever its outcome, keeps each conversation queued that was, the next attempt of its job at 0.
  pub reconcile_conversation_head-IsQueued :
      (id : String) (at : Time) (jobs : Jobs) (states : List StateRow)
      → IsQueued bridge login id jobs
      → IsQueued bridge login id (reconcile_conversation_head remote bridge login at jobs states).1
  unfolding reconcile_conversation_head
  reconcile_conversation_head-IsQueued id at jobs states h = by remote.ready
    where
      walk : Option ScanError × Walk
      walk =
          walk_pages remote bridge login (previous_watermark remote (get_state bridge login states))
            max_conversation_list_pages 0 "" []
            (record {
              jobs = jobs;
              puts = 0;
              newest = previous_watermark remote (get_state bridge login states);
            })

      on :
          (o : Option ScanError × Walk)
          → IsQueued bridge login id o.1.jobs
          → IsQueued bridge login id (finish_walk remote bridge login at states o).1
      on (none, w) k = k
      on (some err, w) k = k

      by :
          (b : Bool)
          → IsQueued bridge login id
              (if b
                then finish_walk remote bridge login at states walk
                else (some ScanError.not_ready, jobs, states)).1
      by true = on walk (
          walk_pages-Stays remote bridge login id
            (previous_watermark remote (get_state bridge login states)) max_conversation_list_pages
            0 "" [] _ h)
      by false = h

  -- A walk that returns an error leaves the watermark and the time of the last scan.
  failed_walk-states :
      (at : Time) (jobs : Jobs) (states : List StateRow) (e : ScanError)
      → (reconcile_conversation_head remote bridge login at jobs states).0 ≡ some e
      → (reconcile_conversation_head remote bridge login at jobs states).2 ≡ states
  unfolding reconcile_conversation_head
  failed_walk-states at jobs states e run = by remote.ready run
    where
      walk : Option ScanError × Walk
      walk =
          walk_pages remote bridge login (previous_watermark remote (get_state bridge login states))
            max_conversation_list_pages 0 "" []
            (record {
              jobs = jobs;
              puts = 0;
              newest = previous_watermark remote (get_state bridge login states);
            })

      on :
          (o : Option ScanError × Walk)
          → (finish_walk remote bridge login at states o).0 ≡ some e
          → (finish_walk remote bridge login at states o).2 ≡ states
      on (none, w) k = absurd cc
      on (some err, w) k = refl

      by :
          (b : Bool)
          → (if b
              then finish_walk remote bridge login at states walk
              else (some ScanError.not_ready, jobs, states)).0
            ≡ some e
          → (if b
              then finish_walk remote bridge login at states walk
              else (some ScanError.not_ready, jobs, states)).2
            ≡ states
      by true r = on walk r
      by false r = refl

-- A walk: the inbox that it meets, its time, and the jobs that it starts from.
abbrev pub Attempt : Type 0
Attempt = Remote × Time × Jobs

module _ (bridge login : String) where
  -- The states that walks leave, each after the one before.
  abbrev pub walks : List Attempt → List StateRow → List StateRow
  walks [] states = states
  walks ((remote, at, jobs) ∷ attempts) states =
      walks attempts (reconcile_conversation_head remote bridge login at jobs states).2

  -- Each of the walks returns an error.
  abbrev pub AreFailed : List Attempt → List StateRow → Type 0
  AreFailed [] states = Unit
  AreFailed ((remote, at, jobs) ∷ attempts) states =
      ((e : ScanError) × ((reconcile_conversation_head remote bridge login at jobs states).0
          ≡ some e))
      × AreFailed attempts (reconcile_conversation_head remote bridge login at jobs states).2

  failed_walks-states :
      (attempts : List Attempt) (states : List StateRow)
      → AreFailed attempts states
      → walks attempts states ≡ states
  failed_walks-states [] states _ = refl
  failed_walks-states ((remote, at, jobs) ∷ attempts) states ((e, failed), rest) =
      failed_walks-states attempts _ rest
      ∙ failed_walk-states remote bridge login at jobs states e failed

  -- After walks that all returned errors, each from any jobs and in any inbox, a walk that ends without an error catches each
  -- conversation of the remote inbox that has a valid ID and changed at the watermark before the first of the failed walks or
  -- later: it is queued, the next attempt of its job at 0, and the new watermark is no older than it. The conversations of a page are no
  -- older than those of later pages.
  pub changed_conversation-IsCaught_later :
      (attempts : List Attempt) (states : List StateRow) (remote : Remote) (at : Time)
      (jobs jobs' : Jobs) (states' : List StateRow) (p i : ℕ) (r : Response) (c : Conversation)
      → AreFailed attempts states
      → IsDescending remote 0 ""
      → reconcile_conversation_head remote bridge login at jobs (walks attempts states)
        ≡ (none, jobs', states')
      → list_page remote 0 "" p ≡ some r
      → get_elem? r.conversations i ≡ some c
      → valid_remote_id remote c.id ≡ true
      → watermark remote bridge login states ≤ c.last_modified
      → IsCaught remote bridge login jobs' states' c
  changed_conversation-IsCaught_later attempts states remote at jobs jobs' states' p i r c failed
        order run page elem valid new =
      let same = failed_walks-states attempts states failed in
      changed_conversation-IsCaught remote bridge login at (walks attempts states) jobs jobs'
        states' p i r c order run page elem valid
        (subst (λ s. watermark remote bridge login s ≤ c.last_modified) (sym same) new)
