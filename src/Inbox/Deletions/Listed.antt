-- ===== src/Inbox/Deletions/Listed.antt =====
-- What the walk for deletions of pkg/connector/inbound_sync.go does to the jobs of conversations.
use tumblr_dms.Prelude.{
  ℕ, zero, suc, ◌≡◌, refl, sym, ap, ◌∙◌, inl, inr, Bool, true, false, List, [], ◌∷◌, Option, none,
  some, String, str_eq, eq_iff, eq_refl, if◌then◌else◌, any, All, get_elem?, arith, Bool-cases,
  subst,
}
use tumblr_dms.Prelude.Time.{Time, unix_milli}
use tumblr_dms.Prelude.Maps.{has}
use tumblr_dms.Prelude.Each.{All-map, or_true, find-update_apart}
use tumblr_dms.Prelude.Found.{All-get_elem?}
use tumblr_dms.Jobs.{Job, Jobs, at_key, job_row, upsert, new_job, put_set, put}
use tumblr_dms.Inbox.{
  Conversation, Response, Remote, ScanError, not_ready, valid_remote_id, cursor_after,
  max_conversation_list_pages,
}
use tumblr_dms.Inbox.Covered.{list_page, later_page, next_page}
use tumblr_dms.Inbox.Deletions.{
  UserPortal, collect, turn_list, fetched_list, list_pages, skips_portal,
  enqueue_missing_conversation_checks, check_missing, reconcile_conversation_deletions,
}

module _ (remote : Remote) where
  abbrev Includes : List String → List String → Type 0
  Includes ids ids' = (k : String) → has k ids ≡ true → has k ids' ≡ true

  abbrev IsListed : List String → Conversation → Type 0
  IsListed ids c = valid_remote_id remote c.id ≡ true → has c.id ids ≡ true

  collected :
      (cs : List Conversation) (ids : List String)
      → Includes ids (collect remote cs ids) × All (IsListed (collect remote cs ids)) cs
  unfolding collect
  collected [] ids = ((λ k h. h), tt)
  collected (c ∷ cs) ids = by (valid_remote_id remote c.id) refl (collected cs)
    where
      by :
          (v : Bool)
          → valid_remote_id remote c.id ≡ v
          → ((start : List String)
              → Includes start (collect remote cs start)
                × All (IsListed (collect remote cs start)) cs)
          → Includes ids (collect remote cs (if v then c.id ∷ ids else ids))
            × All (IsListed (collect remote cs (if v then c.id ∷ ids else ids))) (c ∷ cs)
      by true e rest =
          let (keeps, listed) = rest (c.id ∷ ids) in
          (
            (λ k h. keeps k (or_true (str_eq k c.id) (has k ids) h)),
            ((λ v. keeps c.id (rw (eq_refl c.id) refl)), listed),
          )
      by false e rest =
          let (keeps, listed) = rest ids in (keeps, ((λ v. absurd (cc (v, e))), listed))

  -- All conversations of the inbox are listed.
  abbrev Lists : ℕ → String → List String → Type 0
  Lists page before ids =
      (p : ℕ) (r : Response)
      → list_page remote page before p ≡ some r
      → All (IsListed ids) r.conversations

  abbrev OnList : (List String → Type 0) → Option ScanError × List String → Type 0
  OnList P (none, ids) = P ids
  OnList P (some e, ids) = Unit

  abbrev Rest : Type 0
  Rest = String → List String → List String → Option ScanError × List String

  module _ (page : ℕ) (before : String) (more : Rest)
      (ih : (next : String) (seen ids : List String)
        → OnList (λ ids'. Includes ids ids' × Lists (suc page) next ids') (more next seen ids))
      (ids : List String) where
    turned :
        (seen : List String) (r : Response) (o : Option String)
        → remote.fetch page before ≡ some r
        → cursor_after remote r ≡ o
        → OnList
            (λ ids'. Includes ids ids' × Lists page before ids')
            (turn_list remote more seen (collect remote r.conversations ids) o)
    turned seen r none fetch cursor = tt
    turned seen r (some next) fetch cursor = by (str_eq next "") refl (has next seen)
      where
        got : List String
        got = collect remote r.conversations ids

        same_page :
            (s : Response) (ids' : List String)
            → Includes got ids'
            → some r ≡ some s
            → All (IsListed ids') s.conversations
        same_page s ids' keeps e =
            let same : r ≡ s = cc e in
            subst (λ (q : Response). All (IsListed ids') q.conversations) same
              (All-map (IsListed got) (IsListed ids') r.conversations (λ c h v. keeps c.id (h v))
                (collected r.conversations ids).1)

        on :
            str_eq next "" ≡ false
            → (o : Option ScanError × List String)
            → OnList (λ ids'. Includes got ids' × Lists (suc page) next ids') o
            → OnList (λ ids'. Includes ids ids' × Lists page before ids') o
        on go_on (some e, ids') h = tt
        on go_on (none, ids') (keeps, lists) =
            ((λ k h. keeps k ((collected r.conversations ids).0 k h)), both)
          where
            both : Lists page before ids'
            both zero s e = same_page s ids' keeps (sym fetch ∙ e)
            both (suc p) s e =
                lists p s (sym (later_page remote page p before next r fetch cursor go_on) ∙ e)

        by :
            (last : Bool)
            → str_eq next "" ≡ last
            → (again : Bool)
            → OnList
                (λ ids'. Includes ids ids' × Lists page before ids')
                (if last
                  then (none, got)
                  else (if again
                      then (some ScanError.cursor_repeated, got)
                      else more next (next ∷ seen) got))
        by true e again = ((collected r.conversations ids).0, ends)
          where
            ends : Lists page before got
            ends zero s f = same_page s got (λ k h. h) (sym fetch ∙ f)
            ends (suc p) s f =
                let nothing : none ≡ some s =
                  ap (λ b. if b then none else list_page remote (suc page) next p) (sym e)
                  ∙ sym (next_page remote page p before next r fetch cursor)
                  ∙ f in
                absurd (cc nothing)
        by false e true = tt
        by false e false = on e (more next (next ∷ seen) got) (ih next (next ∷ seen) got)

    listed_page :
        (seen : List String) (o : Option Response)
        → remote.fetch page before ≡ o
        → OnList
            (λ ids'. Includes ids ids' × Lists page before ids')
            (fetched_list remote more seen ids o)
    listed_page seen none e = tt
    listed_page seen (some r) e = turned seen r (cursor_after remote r) e refl

  list_pages-Lists :
      (rounds page : ℕ) (before : String) (seen ids : List String)
      → OnList
          (λ ids'. Includes ids ids' × Lists page before ids')
          (list_pages remote rounds page before seen ids)
  unfolding list_pages
  list_pages-Lists zero page before seen ids = tt
  list_pages-Lists (suc rounds) page before seen ids =
      listed_page page before (λ b s i. list_pages remote rounds (suc page) b s i)
        (λ b s i. list_pages-Lists rounds (suc page) b s i) ids seen (remote.fetch page before) refl

module _ (remote : Remote) (bridge login : String) where
  other_key :
      (c p : String)
      → str_eq c p ≡ false
      → (j : Job) → at_key bridge login c j ≡ true
      → at_key bridge login p j ≡ false
  other_key c p apart j h =
      ground (arith, eq_iff j.conversation_id c, eq_iff j.conversation_id p, eq_iff c p)

  -- A job that is put leaves those of other conversations.
  put-row_other :
      (c p : String) (now : Time) (jobs : Jobs)
      → str_eq c p ≡ false
      → job_row bridge login c (put bridge login p now jobs).1 ≡ job_row bridge login c jobs
  unfolding put upsert put_set new_job
  put-row_other c p now jobs apart = elim (Bool-cases (any (at_key bridge login p) jobs)) [
    | inl e ↦ rw e (
        find-update_apart (at_key bridge login c) (at_key bridge login p) (other_key c p apart)
          (put_set (unix_milli now)) jobs (λ j. refl))
    | inr e ↦
        let other : str_eq p c ≡ false = ground (arith, eq_iff p c, eq_iff c p) in
        rw (e, eq_refl bridge, eq_refl login, other) refl
  ]

  -- A portal that is not skipped is not listed.
  asked-other :
      (c : String) (ids : List String) (p : UserPortal)
      → has c ids ≡ true
      → skips_portal remote bridge login ids p ≡ false
      → str_eq c p.conversation_id ≡ false
  unfolding skips_portal
  asked-other c ids p h e = elim (Bool-cases (str_eq c p.conversation_id)) [
    | inr other ↦ other
    | inl same ↦
        let listed = subst (λ k. has k ids ≡ true) ((eq_iff c p.conversation_id).0 same) h in
        absurd (ground (arith, listed))
  ]

  enqueue-row_listed :
      (c : String) (ids : List String) (ps : List UserPortal) (queued : List (String × (ℕ × Time)))
      (jobs : Jobs)
      → has c ids ≡ true
      → job_row bridge login c
          (enqueue_missing_conversation_checks remote bridge login ids ps queued jobs).1
        ≡ job_row bridge login c jobs
  unfolding enqueue_missing_conversation_checks
  enqueue-row_listed c ids [] queued jobs h = refl
  enqueue-row_listed c ids (p ∷ ps) queued jobs h =
      enqueue-row_listed c ids ps _ _ h ∙ by (skips_portal remote bridge login ids p) refl
    where
      by :
          (skip : Bool)
          → skips_portal remote bridge login ids p ≡ skip
          → job_row bridge login c
              (if skip then jobs else (put bridge login p.conversation_id p.now jobs).1)
            ≡ job_row bridge login c jobs
      by true e = refl
      by false e = put-row_other c p.conversation_id p.now jobs (asked-other c ids p h e)

  -- A conversation that is in the remote inbox, on any of its pages, keeps its job as it is, or has none as before, whatever the
  -- outcome of reconcileConversationDeletions: no deletion check is queued for it. Its ID is a valid one.
  pub listed_conversation_unchecked :
      (portals : List UserPortal) (jobs jobs' : Jobs) (o : Option ScanError) (p i : ℕ)
      (r : Response) (c : Conversation)
      → reconcile_conversation_deletions remote bridge login portals jobs ≡ (o, jobs')
      → list_page remote 0 "" p ≡ some r
      → get_elem? r.conversations i ≡ some c
      → valid_remote_id remote c.id ≡ true
      → job_row bridge login c.id jobs' ≡ job_row bridge login c.id jobs
  unfolding reconcile_conversation_deletions
  listed_conversation_unchecked portals jobs jobs' o p i r c run page elem valid =
      sym (ap (λ (x : Option ScanError × Jobs). job_row bridge login c.id x.1) run)
      ∙ by remote.ready
    where
      on :
          (l : Option ScanError × List String)
          → OnList remote (λ ids. Includes remote [] ids × Lists remote 0 "" ids) l
          → job_row bridge login c.id (check_missing remote bridge login portals jobs l).1
            ≡ job_row bridge login c.id jobs
      on (some e, ids) h = refl
      on (none, ids) (_, lists) =
          enqueue-row_listed c.id ids portals [] jobs
            (All-get_elem? (IsListed remote ids) c r.conversations i (lists p r page) elem valid)

      by :
          (b : Bool)
          → job_row bridge login c.id
              (if b
                then check_missing remote bridge login portals jobs
                    (list_pages remote max_conversation_list_pages 0 "" [] [])
                else (some not_ready, jobs)).1
            ≡ job_row bridge login c.id jobs
      by true = on _ (list_pages-Lists remote max_conversation_list_pages 0 "" [] [])
      by false = refl
