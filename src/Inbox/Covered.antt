-- ===== src/Inbox/Covered.antt =====
-- What a walk of reconcileConversationHead in pkg/connector/inbound_sync.go has seen when it ends without an error.
use tumblr_dms.Prelude.{
  ℕ, zero, suc, ◌≤◌, ◌<◌, ◌≡◌, refl, sym, ap, ◌∙◌, inl, inr, true, false, ◌||◌, List, [], ◌∷◌,
  Option, none, some, String, str_eq, if◌then◌else◌, All, arith, Bool-cases, subst,
}
use tumblr_dms.Prelude.Each.{All-map, or_right}
use tumblr_dms.Inbox.{Conversation, Response, Remote, Walk, cursor_after, page_is_older}
use tumblr_dms.Inbox.Pages.{Further, IsDone, IsDone-Further, page_is_older-All}

module _ (remote : Remote) where
  abbrev following : Option String → (String → Option Response) → Option Response
  following none rest = none
  following (some before) rest = if str_eq before "" then none else rest before

  abbrev page_after : Option Response → (String → Option Response) → Option Response
  page_after none rest = none
  page_after (some r) rest = following (cursor_after remote r) rest

  -- The p-th page of the inbox from a page and its cursor on, none behind the last.
  abbrev pub list_page : ℕ → String → ℕ → Option Response
  list_page page before zero = remote.fetch page before
  list_page page before (suc p) =
      page_after (remote.fetch page before) (λ next. list_page (suc page) next p)

  -- The conversations of a page are no older than those of later pages.
  abbrev pub IsDescending : ℕ → String → Type 0
  IsDescending page before =
      (p q : ℕ) (r s : Response)
      → p < q
      → list_page page before p ≡ some r
      → list_page page before q ≡ some s
      → All
          (λ (c : Conversation).
            All (λ (d : Conversation). d.last_modified ≤ c.last_modified) s.conversations)
          r.conversations

  pub next_page :
      (page p : ℕ) (before next : String) (r : Response)
      → remote.fetch page before ≡ some r
      → cursor_after remote r ≡ some next
      → list_page page before (suc p)
        ≡ (if str_eq next "" then none else list_page (suc page) next p)
  next_page page p before next r e f =
      ap (λ o. page_after o (λ n. list_page (suc page) n p)) e
      ∙ ap (λ o. following o (λ n. list_page (suc page) n p)) f

  pub later_page :
      (page p : ℕ) (before next : String) (r : Response)
      → remote.fetch page before ≡ some r
      → cursor_after remote r ≡ some next
      → str_eq next "" ≡ false
      → list_page page before (suc p) ≡ list_page (suc page) next p
  later_page page p before next r e f more = next_page page p before next r e f ∙ (rw more refl)

  pub IsDescending-next :
      (page : ℕ) (before next : String) (r : Response)
      → remote.fetch page before ≡ some r
      → cursor_after remote r ≡ some next
      → str_eq next "" ≡ false
      → IsDescending page before
      → IsDescending (suc page) next
  IsDescending-next page before next r e f more h p q a b lt ea eb =
      h (suc p) (suc q) a b (omega arith) (later_page page p before next r e f more ∙ ea)
        (later_page page q before next r e f more ∙ eb)

  module _ (bridge login : String) (previous : ℕ) where
    -- All conversations of the inbox that changed at or after the last walk have been dealt with.
    abbrev pub Covers : ℕ → String → Walk → Type 0
    Covers page before w =
        (p : ℕ) (r : Response)
        → list_page page before p ≡ some r
        → All
            (λ (c : Conversation).
              previous ≤ c.last_modified → IsDone remote bridge login previous w c)
            r.conversations

    all_older :
        (cs ds : List Conversation) (w : Walk)
        → page_is_older remote bridge login previous cs ≡ true
        → All
            (λ (c : Conversation). All (λ (d : Conversation). d.last_modified ≤ c.last_modified) ds)
            cs
        → All
            (λ (d : Conversation).
              previous ≤ d.last_modified → IsDone remote bridge login previous w d)
            ds
    unfolding page_is_older
    all_older [] ds w old h = absurd cc
    all_older (c ∷ cs) ds w old (h, hs) =
        let (first, _) = page_is_older-All remote bridge login previous (c ∷ cs) old in
        All-map (λ (d : Conversation). d.last_modified ≤ c.last_modified)
          (λ (d : Conversation).
            previous ≤ d.last_modified → IsDone remote bridge login previous w d)
          ds (λ d le new. absurd (omega arith)) h

    done_page :
        (w : Walk) (r s : Response)
        → ◌≡◌ {A = Option Response} (some r) (some s)
        → All (IsDone remote bridge login previous w) r.conversations
        → All
            (λ (c : Conversation).
              previous ≤ c.last_modified → IsDone remote bridge login previous w c)
            s.conversations
    done_page w r s e h =
        let same : r ≡ s = cc e in
        subst
          (λ (q : Response).
            All
              (λ (c : Conversation).
                previous ≤ c.last_modified → IsDone remote bridge login previous w c)
              q.conversations)
          same
          (All-map (IsDone remote bridge login previous w)
            (λ (c : Conversation).
              previous ≤ c.last_modified → IsDone remote bridge login previous w c)
            r.conversations (λ c d new. d) h)

    module _ (page : ℕ) (before next : String) (r : Response)
        (fetch : remote.fetch page before ≡ some r) (cursor : cursor_after remote r ≡ some next)
        (order : IsDescending page before) where
      -- The walk ends at this page.
      pub ends_here :
          (w : Walk)
          → (str_eq next "" || page_is_older remote bridge login previous r.conversations) ≡ true
          → All (IsDone remote bridge login previous w) r.conversations
          → Covers page before w
      ends_here w stop h zero s e = done_page w r s (sym fetch ∙ e) h
      ends_here w stop h (suc p) s e = elim (Bool-cases (str_eq next "")) [
        | inl last ↦
            let nothing : none ≡ some s =
              ap (λ b. if b then none else list_page (suc page) next p) (sym last)
              ∙ sym (next_page page p before next r fetch cursor)
              ∙ e in
            absurd (cc nothing)
        | inr more ↦
            all_older r.conversations s.conversations w
              (or_right (str_eq next "")
                (page_is_older remote bridge login previous r.conversations) more stop)
              (order 0 (suc p) r s (omega arith) fetch e)
      ]

      -- The walk goes on behind this page.
      pub goes_on :
          (w w' : Walk)
          → str_eq next "" ≡ false
          → All (IsDone remote bridge login previous w) r.conversations
          → Further remote bridge login previous w w'
          → Covers (suc page) next w'
          → Covers page before w'
      goes_on w w' more h f rest zero s e = done_page w' r s (sym fetch ∙ e) (
          All-map (IsDone remote bridge login previous w) (IsDone remote bridge login previous w')
            r.conversations (λ c. IsDone-Further remote bridge login previous w w' c f) h)
      goes_on w w' more h f rest (suc p) s e =
          rest p s (sym (later_page page p before next r fetch cursor more) ∙ e)
