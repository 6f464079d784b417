-- ===== src/Outbound/Due.antt =====
-- The order of the sends of pkg/connector/tumblrdb/outbound.go: which one `GetNextDue` takes.
use tumblr_dms.Prelude.{
  ℕ, ◌≤◌, ◌≡◌, ◌≢◌, ◌⊎◌, inl, inr, refl, true, false, not, ◌&&◌, ◌||◌, Option, none, some, String,
  arith, All, str_eq, eq_iff, leb, and_split, Bool-cases,
}
use tumblr_dms.Prelude.Least.{IsRow, IsSelected, least-IsSelected}
use tumblr_dms.Prelude.Each.{All-map}
use tumblr_dms.Outbound.Rows.{State, Row, Db, is_completed, is_empty}
use tumblr_dms.Outbound.Send.{OutboundSendQuery}
use tumblr_dms.Outbound.Reading.{of_login, is_due, sent_before, due_before, next_due_row}

-- No later in the order of the sends: next_attempt_ts, then send_started_ts, then created_ts.
abbrev pub IsNoLater : Row → Row → Type 0
IsNoLater r s =
    (r.next_attempt_ts ≤ s.next_attempt_ts)
    × (r.next_attempt_ts ≡ s.next_attempt_ts → r.send_started_ts ≤ s.send_started_ts)
    × (r.next_attempt_ts ≡ s.next_attempt_ts
        → r.send_started_ts ≡ s.send_started_ts
        → r.created_ts ≤ s.created_ts)

due_before-sooner : (oq : OutboundSendQuery) (r s : Row) → due_before oq r s ≡ true → IsNoLater r s
unfolding due_before sent_before
due_before-sooner oq r s h = (ground arith, (λ e. ground arith), (λ e f. ground arith))

due_before-later : (oq : OutboundSendQuery) (r s : Row) → due_before oq r s ≡ false → IsNoLater s r
unfolding due_before sent_before
due_before-later oq r s h = (ground arith, (λ e. ground arith), (λ e f. ground arith))

IsNoLater-trans : (r s t : Row) → IsNoLater r s → IsNoLater s t → IsNoLater r t
IsNoLater-trans r s t (a, a', a'') (b, b', b'') = (
  omega arith,
  (λ e. let c = a' (omega arith) in let d = b' (omega arith) in omega arith),
  (λ e f.
      let c = a' (omega arith) in
      let d = b' (omega arith) in
      let m = a'' (omega arith) (omega arith) in
      let n = b'' (omega arith) (omega arith) in omega arith),
)

leb-le : (m n : ℕ) → leb m n ≡ true → m ≤ n
leb-le m n h = ground arith

le-leb : (m n : ℕ) → m ≤ n → leb m n ≡ true
le-leb m n h = ground arith

not_completed : (s : State) → not (is_completed s) ≡ true → s ≢ State.completed
not_completed s h e = ground arith

completed_not : (s : State) → s ≢ State.completed → not (is_completed s) ≡ true
completed_not State.prepared h = refl
completed_not State.submitting h = refl
completed_not State.awaiting_echo h = refl
completed_not State.uncertain h = refl
completed_not State.resolved h = refl
completed_not State.completed h = absurd (h refl)
completed_not State.not_submitted h = refl
completed_not State.unconfirmed h = refl

module _ (oq : OutboundSendQuery) (login : String) (now : ℕ) where
  -- No claim on the status of the send runs after `now`.
  abbrev pub IsUnclaimed : Row → Type 0
  IsUnclaimed r = (r.status_claim_token ≡ "") ⊎ (r.status_claim_expires_ts ≤ now)

  -- The send is one of the login that is not completed, its next attempt is not in the future, and it is under no claim.
  abbrev pub IsDue : Row → Type 0
  IsDue r =
      (r.bridge_id ≡ oq.bridge_id)
      × (r.user_login_id ≡ login)
      × (r.state ≢ State.completed)
      × (r.next_attempt_ts ≤ now)
      × IsUnclaimed r

  unclaimed :
      (r : Row)
      → (is_empty r.status_claim_token || leb r.status_claim_expires_ts now) ≡ true
      → IsUnclaimed r
  unclaimed r h = elim (Bool-cases (is_empty r.status_claim_token)) [
    | inl e ↦ inl ((eq_iff r.status_claim_token "").0 e)
    | inr e ↦ inr (ground arith)
  ]

  IsUnclaimed-test :
      (r : Row)
      → IsUnclaimed r
      → (is_empty r.status_claim_token || leb r.status_claim_expires_ts now) ≡ true
  IsUnclaimed-test r (inl e) = let blank = (eq_iff r.status_claim_token "").1 e in rw blank refl
  IsUnclaimed-test r (inr le) = ground arith

  is_due-IsDue : (r : Row) → is_due oq login now r ≡ true → IsDue r
  unfolding is_due
  is_due-IsDue r h =
      let (h3, claim) =
        and_split (of_login oq login r && not (is_completed r.state) && leb r.next_attempt_ts now) _
          h in
      let (h2, time) = and_split (of_login oq login r && not (is_completed r.state)) _ h3 in
      let (own, open_state) = and_split (of_login oq login r) _ h2 in
      let (b, l) = and_split (str_eq r.bridge_id oq.bridge_id) (str_eq r.user_login_id login) own in
      (
        (eq_iff r.bridge_id oq.bridge_id).0 b,
        (eq_iff r.user_login_id login).0 l,
        not_completed r.state open_state,
        leb-le _ _ time,
        unclaimed r claim,
      )

  IsDue-is_due : (r : Row) → IsDue r → is_due oq login now r ≡ true
  unfolding is_due
  IsDue-is_due r (b, l, state, time, claim) =
      let own = (eq_iff r.bridge_id oq.bridge_id).1 b in
      let mine = (eq_iff r.user_login_id login).1 l in
      rw
        (
          own,
          mine,
          completed_not r.state state,
          le-leb r.next_attempt_ts now time,
          IsUnclaimed-test r claim,
        )
        refl

  -- What the queue promises of a send that it selects, or of selecting none.
  abbrev pub IsEarliest : Db → Option Row → Type 0
  IsEarliest db none = All (λ s. ¬ IsDue s) db.sends
  IsEarliest db (some r) = IsRow r db.sends × IsDue r × All (λ s. IsDue s → IsNoLater r s) db.sends

  selected :
      (db : Db) (o : Option Row)
      → IsSelected
          (due_before oq)
          IsNoLater
          (due_before-sooner oq)
          (due_before-later oq)
          IsNoLater-trans
          (is_due oq login now)
          db.sends
          o
      → IsEarliest db o
  selected db none h =
      All-map (λ s. is_due oq login now s ≡ false) (λ s. ¬ IsDue s) db.sends
        (λ s e due. let t = IsDue-is_due s due in absurd (cc (e, t))) h
  selected db (some r) (row, own, h) = (
    row,
    is_due-IsDue r own,
    All-map (λ s. is_due oq login now s ≡ true → IsNoLater r s) (λ s. IsDue s → IsNoLater r s)
        db.sends (λ s le due. le (IsDue-is_due s due)) h,
  )

  -- The send that `GetNextDue` selects is a row of the login that is not completed, whose next attempt is not in the future,
  -- and whose status is under no claim that runs on; no other such row has an earlier next attempt, nor, with the same one, was
  -- started earlier, nor, with both the same, was created earlier. It selects none only if there is no such row.
  pub next_send-IsEarliest : (db : Db) → IsEarliest db (next_due_row oq login now db)
  unfolding next_due_row
  next_send-IsEarliest db = selected db _ (
      least-IsSelected (due_before oq) IsNoLater (due_before-sooner oq) (due_before-later oq)
        IsNoLater-trans (is_due oq login now) db.sends)
