-- ===== src/Sync/Heads.antt =====
-- The completed heads of pkg/connector/tumblrdb/conversation_sync.go as a map from conversations.
use tumblr_dms.Prelude.{
  ℕ, ltb, is_some, if◌then◌else◌, ◌||◌, arith, ◌≡◌, ◌≢◌, and_split, refl, sym, ap, ◌∙◌, eq_iff,
  eq_refl, inl, inr, Bool, true, false, ◌&&◌, List, [], ◌∷◌, Option, none, some, String, str_eq,
  any, find, delete_where, Bool-cases, Option-cases,
}
use tumblr_dms.Prelude.Time.{Time, zero_time, instant, is_zero, unix_milli}
use tumblr_dms.Prelude.Each.{
  find-set_where, find-none, find-any, find-first, find-delete_apart, find-update_apart,
}
use tumblr_dms.Sync.{
  HeadRow, ConversationSync, scan_head, at_conversation, get_head, store_head, set_completed_head,
  delete_head,
}

-- The message that `Get` returns.
abbrev pub head : Option ConversationSync → Option String
head none = none
head (some s) = some s.completed_head_message_id

module _ (bridge login conversation : String) where
  abbrev own : HeadRow → Bool
  own = at_conversation bridge login conversation

  abbrev head_row : Option HeadRow → Option String
  head_row none = none
  head_row (some r) = some r.completed_head_message_id

  head-get_head :
      (rows : List HeadRow)
      → head (get_head bridge login conversation rows) ≡ head_row (find own rows)
  unfolding get_head scan_head
  head-get_head rows = elim (Option-cases (find own rows)) [
    | inl e ↦ rw (get_head, e) refl
    | inr (r, e) ↦ rw (get_head, e) refl
  ]

  find-delete_where :
      (p : HeadRow → Bool) (rows : List HeadRow) → find p (delete_where p rows) ≡ none
  find-delete_where p [] = refl
  find-delete_where p (r ∷ rows) = elim (Bool-cases (p r)) [
    | inl e ↦ rw e (find-delete_where p rows)
    | inr e ↦ rw (e, e) (find-delete_where p rows)
  ]

  module _ (c : String) (differs : c ≢ conversation) where
    abbrev at_other : HeadRow → Bool
    at_other = at_conversation bridge login c

    apart : (r : HeadRow) → at_other r ≡ true → own r ≡ false
    apart r e = elim (Bool-cases (own r)) [
      | inl o ↦
          let (_, ec) =
            and_split (str_eq r.bridge_id bridge && str_eq r.user_login_id login)
              (str_eq r.conversation_id c) e in
          let (_, eo) =
            and_split (str_eq r.bridge_id bridge && str_eq r.user_login_id login)
              (str_eq r.conversation_id conversation) o in
          absurd (
            differs (
              sym ((eq_iff r.conversation_id c).0 ec)
              ∙ (eq_iff r.conversation_id conversation).0 eo))
      | inr o ↦ o
    ]

    find-cons_apart :
        (r : HeadRow) (rows : List HeadRow)
        → own r ≡ true
        → find at_other (r ∷ rows) ≡ find at_other rows
    find-cons_apart r rows e = elim (Bool-cases (at_other r)) [
      | inl o ↦ cc (e, apart r o)
      | inr o ↦ rw o refl
    ]

    stored_apart :
        (message : String) (at : Time) (rows : List HeadRow)
        → find at_other (store_head bridge login conversation message at rows) ≡ find at_other rows
    unfolding store_head
    stored_apart message at rows = elim (Bool-cases (any own rows)) [
      | inl e ↦ rw e (find-update_apart at_other own apart _ rows (λ x. refl))
      | inr e ↦
          rw e
            (find-cons_apart _ rows (rw (eq_refl bridge, eq_refl login, eq_refl conversation) refl))
    ]

    -- `SetCompletedHead`, whether it is refused or not, and `Delete` of a conversation leave the heads of the others.
    pub get-set_other :
        (message : String) (at : Time) (rows : List HeadRow)
        → (get_head bridge login c (set_completed_head bridge login conversation message at rows).1
            ≡ get_head bridge login c rows)
          × (get_head bridge login c (delete_head bridge login conversation rows)
              ≡ get_head bridge login c rows)
    unfolding set_completed_head delete_head get_head
    get-set_other message at rows = (
      ap scanned (elim (Bool-cases (str_eq message "")) [
        | inl m ↦ rw m refl
        | inr m ↦ elim (Bool-cases (ltb 0 (unix_milli at))) [
          | inr t ↦ rw (m, t) refl
          | inl t ↦ rw (m, t) (stored_apart message at rows)
        ]
      ]),
      ap scanned (find-delete_apart at_other own apart rows),
    )
      where
        scanned : Option HeadRow → Option ConversationSync
        scanned o = elim o [ none ↦ none | some r ↦ some (scan_head r) ]

  deleted :
      (rows : List HeadRow)
      → head (get_head bridge login conversation (delete_head bridge login conversation rows))
        ≡ none
  unfolding delete_head
  deleted rows = head-get_head _ ∙ ap head_row (find-delete_where own rows)

  positive : (n : ℕ) → ltb 0 (unix_milli (instant n)) ≡ true
  positive n = ground arith

  stored :
      (message : String) (at : Time) (rows : List HeadRow)
      → head (
          get_head bridge login conversation (store_head bridge login conversation message at rows))
        ≡ some message
  unfolding store_head
  stored message at rows = elim (Option-cases (find own rows)) [
    | inl e ↦ rw (find-none own rows e) (
        head-get_head _
        ∙ ap head_row
            (find-first own _ rows (rw (eq_refl bridge, eq_refl login, eq_refl conversation) refl)))
    | inr (r, e) ↦
        rw (find-any own r rows e)
          (head-get_head _ ∙ ap head_row (find-set_where own _ r rows (λ x. refl) e))
  ]

  -- `SetCompletedHead` returns an error exactly if the message is empty or the time is the zero time. Then `Get` returns what
  -- it returned before, and otherwise the message. It returns nothing after `Delete`.
  pub get-set_completed_head :
      (message : String) (at : Time) (rows : List HeadRow)
      → (is_some (set_completed_head bridge login conversation message at rows).0
          ≡ (str_eq message "" || is_zero at))
        × (head (
              get_head bridge login conversation
                (set_completed_head bridge login conversation message at rows).1)
            ≡ (if str_eq message "" || is_zero at
                then head (get_head bridge login conversation rows)
                else some message))
        × (head (get_head bridge login conversation (delete_head bridge login conversation rows))
            ≡ none)
  unfolding set_completed_head delete_head
  get-set_completed_head message zero_time rows = elim (Bool-cases (str_eq message "")) [
    | inl m ↦ rw m (refl, refl, deleted rows)
    | inr m ↦ rw m (refl, refl, deleted rows)
  ]
  get-set_completed_head message (instant n) rows = elim (Bool-cases (str_eq message "")) [
    | inl m ↦ rw m (refl, refl, deleted rows)
    | inr m ↦ rw (m, positive n) (refl, stored message (instant n) rows, deleted rows)
  ]
