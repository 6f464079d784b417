-- ===== src/Inbox/Pages.antt =====
-- A page of the remote inbox, in the walk of pkg/connector/inbound_sync.go.
use tumblr_dms.Prelude.{
  ℕ, ◌≤◌, ◌<◌, ◌≡◌, refl, inl, inr, Bool, true, false, not, ◌||◌, List, [], ◌∷◌, Option, none, some,
  String, ltb, leb, if◌then◌else◌, All, arith, Bool-cases, and_split,
}
use tumblr_dms.Prelude.Each.{All-map}
use tumblr_dms.Prelude.Found.{all-All}
use tumblr_dms.Inbox.{
  Conversation, Remote, ScanError, Walk, valid_remote_id, note_newest, is_older,
  put_live_conversation_job, visit_conversation, next_conversation, visit_page, page_is_older,
}
use tumblr_dms.Inbox.Due.{IsQueued, put_live_conversation-IsQueued, put_live_conversation-keeps}

-- What holds of the walk, if it has not ended with an error.
abbrev pub OnSuccess : (Walk → Type 0) → Option ScanError × Walk → Type 0
OnSuccess P (none, w) = P w
OnSuccess P (some e, w) = Unit

module _ (remote : Remote) (bridge login : String) (previous : ℕ) where
  -- The walk has come further: what was queued is queued, and the newest timestamp is no lower.
  pub record Further (w w' : Walk) : Type 0 where
    pub keeps : (id : String) → IsQueued bridge login id w.jobs → IsQueued bridge login id w'.jobs
    pub newest : w.newest ≤ w'.newest

  -- The conversation has been dealt with, if its ID is valid: it is queued, unless it is older than the last walk.
  abbrev pub IsDone : Walk → Conversation → Type 0
  IsDone w c =
      valid_remote_id remote c.id ≡ true
      → (is_older remote bridge login previous c ≡ false → IsQueued bridge login c.id w.jobs)
        × (c.last_modified ≤ w.newest)

  pub Further-same : (w : Walk) → Further w w
  Further-same w = record { keeps = λ id h. h; newest = omega arith }

  pub Further-trans : (u v w : Walk) → Further u v → Further v w → Further u w
  Further-trans u v w f g = record {
    keeps = λ id h. g.keeps id (f.keeps id h);
    newest = let a = f.newest in let b = g.newest in omega arith;
  }

  pub IsDone-Further : (w w' : Walk) (c : Conversation) → Further w w' → IsDone w c → IsDone w' c
  IsDone-Further w w' c f h valid =
      let (queue, old) = h valid in
      let least = f.newest in ((λ e. f.keeps c.id (queue e)), omega arith)

  abbrev noted : Conversation → Walk → Walk
  noted c w = note_newest remote bridge login previous c w

  noted_lem :
      (c : Conversation) (w : Walk)
      → (w.newest ≤ (noted c w).newest) × (c.last_modified ≤ (noted c w).newest)
  noted_lem c w = ground arith

  put_job :
      (id : String) (w : Walk)
      → OnSuccess
          (λ w'. Further w w' × IsQueued bridge login id w'.jobs)
          (put_live_conversation_job remote bridge login previous id w)
  unfolding put_live_conversation_job
  put_job id w = elim (Bool-cases (remote.lock w.puts)) [
    | inl e ↦
        let now = remote.now w.puts in
        rw e (
          record {
            keeps = λ other h. put_live_conversation-keeps bridge login other id now w.jobs h;
            newest = omega arith;
          },
          put_live_conversation-IsQueued bridge login id now w.jobs,
        )
    | inr e ↦ rw e tt
  ]

  noted_Further : (c : Conversation) (w : Walk) → Further w (noted c w)
  noted_Further c w = record { keeps = λ id h. h; newest = (noted_lem c w).0 }

  put_done :
      (c : Conversation) (w : Walk)
      → (o : Option ScanError × Walk)
      → OnSuccess (λ w'. Further (noted c w) w' × IsQueued bridge login c.id w'.jobs) o
      → OnSuccess (λ w'. Further w w' × IsDone w' c) o
  put_done c w (some e, w') h = tt
  put_done c w (none, w') (f, queued) =
      let newest = f.newest in
      (
        Further-trans w (noted c w) w' (noted_Further c w) f,
        λ valid. ((λ e. queued), omega (arith, noted_lem c w)),
      )

  visited :
      (c : Conversation) (w : Walk)
      → OnSuccess
          (λ w'. Further w w' × IsDone w' c)
          (visit_conversation remote bridge login previous c w)
  unfolding visit_conversation
  visited c w = by (valid_remote_id remote c.id) (is_older remote bridge login previous c) refl refl
    where
      by :
          (v o : Bool)
          → valid_remote_id remote c.id ≡ v
          → is_older remote bridge login previous c ≡ o
          → OnSuccess
              (λ w'. Further w w' × IsDone w' c)
              (if not v
                then (none, w)
                else (if o
                    then (none, noted c w)
                    else put_live_conversation_job remote bridge login previous c.id (noted c w)))
      by false o e d = (Further-same w, λ valid. absurd cc)
      by true true e d = (noted_Further c w, λ valid. ((λ e'. absurd cc), (noted_lem c w).1))
      by true false e d = put_done c w _ (put_job c.id (noted c w))

  All-IsDone :
      (w w' : Walk) (cs : List Conversation) → Further w w' → All (IsDone w) cs → All (IsDone w') cs
  All-IsDone w w' cs f = All-map (IsDone w) (IsDone w') cs (λ c. IsDone-Further w w' c f)

  visited_next :
      (c : Conversation) (cs : List Conversation) (w : Walk) (o : Option ScanError × Walk)
      → OnSuccess (λ w'. Further w w' × IsDone w' c) o
      → ((v : Walk)
          → OnSuccess
              (λ w'. Further v w' × All (IsDone w') cs)
              (visit_page remote bridge login previous cs v))
      → OnSuccess
          (λ w'. Further w w' × All (IsDone w') (c ∷ cs))
          (next_conversation remote bridge login previous
            (λ v. visit_page remote bridge login previous cs v)
            o)
  visited_next c cs w (some e, v) h rest = tt
  visited_next c cs w (none, v) (f, done) rest =
      both (visit_page remote bridge login previous cs v) (rest v)
    where
      both :
          (o : Option ScanError × Walk)
          → OnSuccess (λ w'. Further v w' × All (IsDone w') cs) o
          → OnSuccess (λ w'. Further w w' × All (IsDone w') (c ∷ cs)) o
      both (some e, w') h = tt
      both (none, w') (g, all_done) =
          (Further-trans w v w' f g, (IsDone-Further v w' c g done, all_done))

  -- If the loop over a page ends without an error, all conversations of the page have been dealt with.
  pub page_visited :
      (cs : List Conversation) (w : Walk)
      → OnSuccess
          (λ w'. Further w w' × All (IsDone w') cs)
          (visit_page remote bridge login previous cs w)
  unfolding visit_page
  page_visited [] w = (Further-same w, tt)
  page_visited (c ∷ cs) w =
      visited_next c cs w (visit_conversation remote bridge login previous c w) (visited c w)
        (page_visited cs)

  -- All conversations of an older page are older than the last walk.
  pub page_is_older-All :
      (cs : List Conversation)
      → page_is_older remote bridge login previous cs ≡ true
      → All (λ c. c.last_modified < previous) cs
  unfolding page_is_older
  page_is_older-All [] h = tt
  page_is_older-All (c ∷ cs) h =
      let (_, each) = and_split (ltb 0 previous) _ h in
      All-map (λ d. not (leb d.last_modified 0 || leb previous d.last_modified) ≡ true)
        (λ d. d.last_modified < previous) (c ∷ cs) (λ d e. ground arith)
        (all-All (λ d. not (leb d.last_modified 0 || leb previous d.last_modified)) (c ∷ cs) each)
