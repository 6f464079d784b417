-- ===== src/Inbox/Tests.antt =====
-- Runs of the walk of pkg/connector/inbound_sync.go at concrete values.
use tumblr_dms.Prelude.{
  ℕ, zero, suc, ◌≤◌, ◌≡◌, refl, ap, ◌∙◌, true, false, List, [], ◌∷◌, Option, none, some, String,
  arith, All, subst,
}
use tumblr_dms.Prelude.Time.{instant}
use tumblr_dms.Jobs.{Jobs, job_row, new_job, put, put_live_conversation, upsert}
use tumblr_dms.Sync.{StateRow, get_state, scan_state, set_scan_success, scan_success_set}
use tumblr_dms.Inbox.{
  Conversation, Response, Link, Remote, ScanError, valid_remote_id, query_param, next_before_cursor,
  cursor_after, put_live_conversation_job, visit_conversation, visit_page, page_is_older,
  walk_pages, reconcile_conversation_head,
}
use tumblr_dms.Inbox.Due.{IsQueued}
use tumblr_dms.Inbox.Failed.{
  Attempt, walks, AreFailed, reconcile_conversation_head-IsQueued,
  changed_conversation-IsCaught_later,
}
use tumblr_dms.Inbox.Deletions.{
  UserPortal, collect, list_pages, skips_portal, enqueue_missing_conversation_checks,
  reconcile_conversation_deletions,
}
use tumblr_dms.Inbox.Deletions.Listed.{listed_conversation_unchecked}
use tumblr_dms.Inbox.Covered.{IsDescending}
use tumblr_dms.Inbox.Whole.{IsCaught, changed_conversation-IsCaught}

abbrev next_link : String → Option Link
next_link cursor = some (record { href = ""; query_params = ("before", cursor) ∷ [] })

-- Three pages, of which the walk from watermark 25 fetches two.
abbrev page_one : Response
page_one = record {
  conversations =
      record { id = "a"; last_modified = 40 } ∷ record { id = "b"; last_modified = 30 } ∷ [];
  next = next_link "30";
}

abbrev page_two : Response
page_two = record {
  conversations = record { id = "c"; last_modified = 20 } ∷ [];
  next = next_link "20";
}

abbrev page_three : Response
page_three = record { conversations = record { id = "d"; last_modified = 10 } ∷ []; next = none }

abbrev pages : ℕ → Option Response
pages zero = some page_one
pages (suc zero) = some page_two
pages (suc (suc zero)) = some page_three
pages (suc (suc (suc n))) = none

abbrev remote : Remote
remote = record {
  trim = λ s. s;
  runes = λ s. 1;
  space_or_control = λ s. false;
  parse_before = λ s. none;
  ready = true;
  fetch = λ page before. pages page;
  lock = λ n. true;
  now = λ n. instant n;
}

abbrev states : List StateRow
states =
    record {
      bridge_id = "bridge";
      user_login_id = "login";
      last_remote_watermark_ts = 25;
      last_scan_success_ts = 7;
    }
    ∷ []

abbrev queued : Jobs
queued = new_job "bridge" "login" "b" 1 ∷ new_job "bridge" "login" "a" 1 ∷ []

abbrev scanned : List StateRow
scanned =
    record {
      bridge_id = "bridge";
      user_login_id = "login";
      last_remote_watermark_ts = 40;
      last_scan_success_ts = 1;
    }
    ∷ []

walk_test :
    reconcile_conversation_head remote "bridge" "login" (instant 0) [] states
    ≡ (none, queued, scanned)
unfolding reconcile_conversation_head walk_pages visit_page visit_conversation
    put_live_conversation_job page_is_older cursor_after next_before_cursor query_param
    valid_remote_id get_state scan_state set_scan_success scan_success_set put_live_conversation
    upsert new_job
walk_test = refl

abbrev Older : Response → Response → Type 0
Older r s =
    All
      (λ (c : Conversation).
        All (λ (d : Conversation). d.last_modified ≤ c.last_modified) s.conversations)
      r.conversations

same_pages :
    (a b r s : Response)
    → Older a b
    → ◌≡◌ {A = Option Response} (some a) (some r)
    → ◌≡◌ {A = Option Response} (some b) (some s)
    → Older r s
same_pages a b r s h e f =
    let e' : a ≡ r = cc e in
    let f' : b ≡ s = cc f in subst (λ x. Older x s) e' (subst (λ y. Older a y) f' h)

remote-IsDescending : IsDescending remote 0 ""
unfolding cursor_after next_before_cursor query_param
remote-IsDescending zero zero r s lt e f = absurd (omega arith)
remote-IsDescending zero (suc zero) r s lt e f = same_pages page_one page_two r s (omega arith) e f
remote-IsDescending zero (suc (suc zero)) r s lt e f =
    same_pages page_one page_three r s (omega arith) e f
remote-IsDescending zero (suc (suc (suc q))) r s lt e f = absurd (cc f)
remote-IsDescending (suc zero) zero r s lt e f = absurd (omega arith)
remote-IsDescending (suc zero) (suc zero) r s lt e f = absurd (omega arith)
remote-IsDescending (suc zero) (suc (suc zero)) r s lt e f =
    same_pages page_two page_three r s (omega arith) e f
remote-IsDescending (suc zero) (suc (suc (suc q))) r s lt e f = absurd (cc f)
remote-IsDescending (suc (suc zero)) zero r s lt e f = absurd (omega arith)
remote-IsDescending (suc (suc zero)) (suc zero) r s lt e f = absurd (omega arith)
remote-IsDescending (suc (suc zero)) (suc (suc zero)) r s lt e f = absurd (omega arith)
remote-IsDescending (suc (suc zero)) (suc (suc (suc q))) r s lt e f = absurd (cc f)
remote-IsDescending (suc (suc (suc p))) q r s lt e f = absurd (cc e)

changed_conversation-IsCaught_example :
    IsCaught remote "bridge" "login" queued scanned (record { id = "b"; last_modified = 30 })
unfolding get_state scan_state valid_remote_id
changed_conversation-IsCaught_example =
    changed_conversation-IsCaught remote "bridge" "login" (instant 0) states [] queued scanned 0 1
      page_one (record { id = "b"; last_modified = 30 }) remote-IsDescending walk_test refl refl
      refl (omega arith)

-- The second page cannot be fetched.
abbrev broken : Remote
broken = record remote { fetch = λ page before. elim page [ zero ↦ some page_one | suc n ↦ none ] }

broken_test :
    reconcile_conversation_head broken "bridge" "login"
      (instant 0)
      (new_job "bridge" "login" "c" 1 ∷ [])
      states
    ≡ (
      some ScanError.fetch_failed,
      new_job "bridge" "login" "b" 1
          ∷ new_job "bridge" "login" "a" 1
          ∷ new_job "bridge" "login" "c" 1
          ∷ [],
      states,
    )
unfolding reconcile_conversation_head walk_pages visit_page visit_conversation
    put_live_conversation_job page_is_older cursor_after next_before_cursor query_param
    valid_remote_id get_state scan_state set_scan_success scan_success_set put_live_conversation
    upsert new_job
broken_test = refl

reconcile_conversation_head-IsQueued_example :
    IsQueued "bridge" "login" "c"
      (reconcile_conversation_head broken "bridge" "login"
        (instant 0)
        (new_job "bridge" "login" "c" 1 ∷ [])
        states).1
unfolding new_job
reconcile_conversation_head-IsQueued_example =
    reconcile_conversation_head-IsQueued broken "bridge" "login" "c" (instant 0)
      (new_job "bridge" "login" "c" 1 ∷ []) states refl

-- The first walk fails, the second one does not.
abbrev attempts : List Attempt
attempts = (broken, instant 0, new_job "bridge" "login" "c" 1 ∷ []) ∷ []

attempts_fail : AreFailed "bridge" "login" attempts states
attempts_fail = (
  (ScanError.fetch_failed, ap (λ (r : Option ScanError × Jobs × List StateRow). r.0) broken_test),
  tt,
)

attempts-states : walks "bridge" "login" attempts states ≡ states
attempts-states = ap (λ (r : Option ScanError × Jobs × List StateRow). r.2) broken_test

changed_conversation-IsCaught_later_example :
    IsCaught remote "bridge" "login" queued scanned (record { id = "b"; last_modified = 30 })
unfolding get_state scan_state valid_remote_id
changed_conversation-IsCaught_later_example =
    changed_conversation-IsCaught_later "bridge" "login" attempts states remote (instant 0) []
      queued scanned 0 1 page_one (record { id = "b"; last_modified = 30 }) attempts_fail
      remote-IsDescending
      (ap (λ s. reconcile_conversation_head remote "bridge" "login" (instant 0) [] s)
          attempts-states
        ∙ walk_test)
      refl refl refl (omega arith)

-- Conversation "b" is in the inbox, "z" is not.
abbrev portals : List UserPortal
portals =
    record { conversation_id = "b"; pending = false; own = true; now = instant 0 }
    ∷ record { conversation_id = "z"; pending = false; own = true; now = instant 0 }
    ∷ []

deletions_test :
    reconcile_conversation_deletions remote "bridge" "login" portals []
    ≡ (none, new_job "bridge" "login" "z" 1 ∷ [])
unfolding reconcile_conversation_deletions list_pages collect enqueue_missing_conversation_checks
    skips_portal cursor_after next_before_cursor query_param valid_remote_id put upsert new_job
deletions_test = refl

listed_conversation_unchecked_example :
    job_row "bridge" "login" "b" (new_job "bridge" "login" "z" 1 ∷ [])
    ≡ job_row "bridge" "login" "b" []
unfolding valid_remote_id
listed_conversation_unchecked_example =
    listed_conversation_unchecked remote "bridge" "login" portals []
      (new_job "bridge" "login" "z" 1 ∷ []) none 0 1 page_one
      (record { id = "b"; last_modified = 30 }) deletions_test refl refl refl
