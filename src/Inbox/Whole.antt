-- ===== src/Inbox/Whole.antt =====
-- reconcileConversationHead of pkg/connector/inbound_sync.go misses no conversation that changed.
use tumblr_dms.Prelude.{
  ℕ, zero, suc, ◌≤◌, ◌≡◌, refl, sym, ap, ◌∙◌, inl, inr, Bool, true, false, ◌||◌, List, [], ◌∷◌,
  Option, none, some, String, str_eq, if◌then◌else◌, All, arith, max, Bool-cases, subst, get_elem?,
}
use tumblr_dms.Prelude.Time.{Time}
use tumblr_dms.Prelude.Maps.{has}
use tumblr_dms.Prelude.Found.{All-get_elem?}
use tumblr_dms.Jobs.{Jobs}
use tumblr_dms.Sync.{StateRow, SyncState, get_state, set_scan_success}
use tumblr_dms.Sync.Watermark.{seen, set_scan_success-seen}
use tumblr_dms.Inbox.{
  Conversation, Response, Remote, ScanError, not_ready, Walk, valid_remote_id, cursor_after,
  visit_page, page_is_older, after_page, turn_page, fetched, walk_pages,
  max_conversation_list_pages, previous_watermark, finish_walk, reconcile_conversation_head,
  is_older,
}
use tumblr_dms.Inbox.Due.{IsQueued}
use tumblr_dms.Inbox.Pages.{OnSuccess, Further, Further-trans, IsDone, page_visited}
use tumblr_dms.Inbox.Covered.{
  list_page, IsDescending, IsDescending-next, Covers, ends_here, goes_on,
}

module _ (remote : Remote) (bridge login : String) (previous : ℕ) where
  abbrev Walked : ℕ → String → Walk → Walk → Type 0
  Walked page before w w' =
      Further remote bridge login previous w w' × Covers remote bridge login previous page before w'

  abbrev Rest : Type 0
  Rest = String → List String → Walk → Option ScanError × Walk

  module _ (page : ℕ) (before : String) (order : IsDescending remote page before) (more : Rest)
      (ih : (next : String) (known : List String) (w : Walk)
        → IsDescending remote (suc page) next
        → OnSuccess (Walked (suc page) next w) (more next known w)) where
    turned :
        (next : String) (known : List String) (r : Response) (w w' : Walk)
        → remote.fetch page before ≡ some r
        → cursor_after remote r ≡ some next
        → Further remote bridge login previous w w'
        → All (IsDone remote bridge login previous w') r.conversations
        → (stop : Bool)
        → (str_eq next "" || page_is_older remote bridge login previous r.conversations) ≡ stop
        → OnSuccess (Walked page before w) (
            if stop
            then (none, w')
            else (if has next known
                then (some ScanError.cursor_repeated, w')
                else more next (next ∷ known) w'))
    turned next known r w w' fetch cursor f done true e =
        (f, ends_here remote bridge login previous page before next r fetch cursor order w' e done)
    turned next known r w w' fetch cursor f done false e = elim (Bool-cases (has next known)) [
      | inl again ↦ rw again tt
      | inr new ↦ rw new (on (more next (next ∷ known) w') (ih next (next ∷ known) w' order'))
    ]
      where
        fresh : str_eq next "" ≡ false
        fresh = elim (Bool-cases (str_eq next "")) [
          | inl last ↦ absurd (cc (e, last))
          | inr other ↦ other
        ]

        order' : IsDescending remote (suc page) next
        order' = IsDescending-next remote page before next r fetch cursor fresh order

        on :
            (o : Option ScanError × Walk)
            → OnSuccess (Walked (suc page) next w') o
            → OnSuccess (Walked page before w) o
        on (some err, v) h = tt
        on (none, v) (g, covers) = (
          Further-trans remote bridge login previous w w' v f g,
          goes_on remote bridge login previous page before next r fetch cursor order w' v fresh done
              g covers,
        )

    page_turned :
        (known : List String) (r : Response) (w : Walk) (o : Option ScanError × Walk)
        → remote.fetch page before ≡ some r
        → OnSuccess
            (λ w'.
              Further remote bridge login previous w w'
              × All (IsDone remote bridge login previous w') r.conversations)
            o
        → OnSuccess (Walked page before w) (after_page remote bridge login previous more known r o)
    page_turned known r w (some err, w') fetch h = tt
    page_turned known r w (none, w') fetch (f, done) = turn (cursor_after remote r) refl
      where
        turn :
            (c : Option String)
            → cursor_after remote r ≡ c
            → OnSuccess
                (Walked page before w)
                (turn_page remote bridge login previous more known r w' c)
        turn none e = tt
        turn (some next) e = turned next known r w w' fetch e f done _ refl

    page_fetched :
        (known : List String) (w : Walk) (o : Option Response)
        → remote.fetch page before ≡ o
        → OnSuccess (Walked page before w) (fetched remote bridge login previous more known w o)
    page_fetched known w none e = tt
    page_fetched known w (some r) e =
        page_turned known r w (visit_page remote bridge login previous r.conversations w) e
          (page_visited remote bridge login previous r.conversations w)

  walk_pages-Covers :
      (rounds page : ℕ) (before : String) (known : List String) (w : Walk)
      → IsDescending remote page before
      → OnSuccess
          (Walked page before w)
          (walk_pages remote bridge login previous rounds page before known w)
  unfolding walk_pages
  walk_pages-Covers zero page before known w order = tt
  walk_pages-Covers (suc rounds) page before known w order =
      page_fetched page before order
        (λ b s v. walk_pages remote bridge login previous rounds (suc page) b s v)
        (λ next s v. walk_pages-Covers rounds (suc page) next s v) known w
        (remote.fetch page before) refl

watermark-seen : (remote : Remote) (o : Option SyncState) → previous_watermark remote o ≡ (seen o).0
watermark-seen remote none = refl
watermark-seen remote (some s) = refl

module _ (remote : Remote) (bridge login : String) where
  abbrev pub watermark : List StateRow → ℕ
  watermark states = previous_watermark remote (get_state bridge login states)

  -- The conversation is queued, and the watermark is no older than it.
  abbrev pub IsCaught : Jobs → List StateRow → Conversation → Type 0
  IsCaught jobs states c = IsQueued bridge login c.id jobs × (c.last_modified ≤ watermark states)

  watermark-set_scan_success :
      (newest : ℕ) (at : Time) (states : List StateRow)
      → watermark (set_scan_success bridge login newest at states) ≡ max (watermark states) newest
  watermark-set_scan_success newest at states =
      watermark-seen remote
        (get_state bridge login (set_scan_success bridge login newest at states))
      ∙ ap (λ (s : ℕ × Time). s.0) (set_scan_success-seen bridge login newest at states)
      ∙ ap (λ n. max n newest) (sym (watermark-seen remote (get_state bridge login states)))

  module _ (at : Time) (states : List StateRow) where
    finished :
        (o : Option ScanError × Walk) (jobs' : Jobs) (states' : List StateRow)
        → finish_walk remote bridge login at states o ≡ (none, jobs', states')
        → (w : Walk) × (o ≡ (none, w))
          × (w.jobs ≡ jobs')
          × (set_scan_success bridge login w.newest at states ≡ states')
    finished (some e, w) jobs' states' h =
        absurd (cc (ap (λ (r : Option ScanError × Jobs × List StateRow). r.0) h))
    finished (none, w) jobs' states' h = (
      w,
      refl,
      ap (λ (r : Option ScanError × Jobs × List StateRow). r.1) h,
      ap (λ (r : Option ScanError × Jobs × List StateRow). r.2) h,
    )

    is_not_older :
        (c : Conversation)
        → watermark states ≤ c.last_modified
        → is_older remote bridge login (watermark states) c ≡ false
    is_not_older c h = ground arith

    -- If the walk ends without an error, each conversation of the whole remote inbox that has a valid ID and changed at
    -- the previous watermark or later is queued, the next attempt of its job at 0, and the new watermark is no older than it; also on pages that the
    -- walk has not fetched, as long as the conversations of a page are no older than those of later pages.
    pub changed_conversation-IsCaught :
        (jobs jobs' : Jobs) (states' : List StateRow) (p i : ℕ) (r : Response) (c : Conversation)
        → IsDescending remote 0 ""
        → reconcile_conversation_head remote bridge login at jobs states ≡ (none, jobs', states')
        → list_page remote 0 "" p ≡ some r
        → get_elem? r.conversations i ≡ some c
        → valid_remote_id remote c.id ≡ true
        → watermark states ≤ c.last_modified
        → IsCaught jobs' states' c
    unfolding reconcile_conversation_head
    changed_conversation-IsCaught jobs jobs' states' p i r c order run page elem valid new =
        let (w, walked, jobs_eq, states_eq) = was_ready remote.ready run in
        let start : Walk = record { jobs = jobs; puts = 0; newest = watermark states } in
        let (_, covers) =
          subst (OnSuccess (Walked remote bridge login (watermark states) 0 "" start)) walked (
            walk_pages-Covers remote bridge login (watermark states) max_conversation_list_pages 0
              "" [] start order) in
        let (queue, old) =
          All-get_elem?
            (λ (d : Conversation).
              watermark states ≤ d.last_modified
              → IsDone remote bridge login (watermark states) w d)
            c r.conversations i (covers p r page) elem new valid in
        let newest = watermark-set_scan_success w.newest at states in
        let high : c.last_modified ≤ watermark (set_scan_success bridge login w.newest at states) =
          omega arith in
        (
          subst (IsQueued bridge login c.id) jobs_eq (queue (is_not_older c new)),
          subst (λ rows. c.last_modified ≤ watermark rows) states_eq high,
        )
      where
        walk : Option ScanError × Walk
        walk =
            walk_pages remote bridge login (watermark states) max_conversation_list_pages 0 "" []
              (record { jobs = jobs; puts = 0; newest = watermark states })

        was_ready :
            (b : Bool)
            → (if b
                then finish_walk remote bridge login at states walk
                else (some not_ready, jobs, states))
              ≡ (none, jobs', states')
            → (w : Walk) × (walk ≡ (none, w))
              × (w.jobs ≡ jobs')
              × (set_scan_success bridge login w.newest at states ≡ states')
        was_ready true h = finished walk jobs' states' h
        was_ready false h =
            absurd (cc (ap (λ (r : Option ScanError × Jobs × List StateRow). r.0) h))
