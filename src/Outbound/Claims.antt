-- ===== src/Outbound/Claims.antt =====
-- The claim on the delivery of a failed send's status in pkg/connector/tumblrdb/outbound.go: one holder at a time.
use tumblr_dms.Prelude.{
  ℕ, ◌<◌, ◌≡◌, ◌≢◌, refl, sym, ap, ◌∙◌, subst, Bool, true, false, ◌&&◌, List, [], ◌∷◌, some, String,
  Result, ok, any, all, All, arith, is_blank, no_conflict, update_where, Bool-cases, inl, inr,
  reject_if, ◌>>◌, eq-empty_of_not_blank, str_eq, eq_iff,
}
use tumblr_dms.Prelude.Preserves.{Preserves, Preserves-guard, Preserves-bind, Preserves-pure}
use tumblr_dms.Prelude.Time.{Time, unix_milli}
use tumblr_dms.Prelude.Found.{any-only, All-set_where}
use tumblr_dms.Prelude.Each.{All-map, All-update_where, or_right}
use tumblr_dms.Outbound.Rows.{
  Row, Db, Error, Op, at_key, conflict, check_row, exec_update, is_empty,
}
use tumblr_dms.Outbound.Send.{OutboundSendQuery}
use tumblr_dms.Outbound.Receipts.{send_row}
use tumblr_dms.Outbound.Statements.{
  claim_status_where, claim_status_set, finish_status_where, finish_status_set,
  release_status_where, release_status_set,
}
use tumblr_dms.Outbound.Terminal.{
  claim_status_delivery, finish_status_delivery, release_status_delivery,
}
use tumblr_dms.Outbound.Calls.{Call, perform, perform_all}
use tumblr_dms.Outbound.Framework.{leaves}
use tumblr_dms.Outbound.Submitted.Ran.{changed-exec_update, passed-reject_if}
use tumblr_dms.Outbound.Submitted.Posts.{one_at_key}

guard-false :
    (b : Bool) (c : Bool) (e : Error) (m : Op Bool) (db : Db)
    → ((reject_if c e >> m) db).0 ≡ ok b
    → c ≡ false
unfolding ◌>>◌
guard-false b true e m db h = absurd cc
guard-false b false e m db h = refl

module _ {P : Db → Type 0} (oq : OutboundSendQuery) (l t : String) where
  Preserves-finish :
      (token : String) (notified expires : Time)
      → Preserves P (
          exec_update
            (finish_status_where oq.bridge_id l t token)
            (finish_status_set (unix_milli notified) (unix_milli expires)))
      → Preserves P (finish_status_delivery oq l t token notified expires)
  unfolding finish_status_delivery
  Preserves-finish token notified expires kept = Preserves-guard _ _ _ λ blank.
      Preserves-guard _ _ _
        λ given. Preserves-guard _ _ _ λ late. Preserves-bind _ _ kept (λ changed. search leaves)

  Preserves-release :
      (token : String) (now : Time)
      → Preserves P (
          exec_update
            (release_status_where oq.bridge_id l t token)
            (release_status_set (unix_milli now)))
      → Preserves P (release_status_delivery oq l t token now)
  unfolding release_status_delivery
  Preserves-release token now kept =
      Preserves-guard _ _ _ λ blank. Preserves-bind _ _ kept (λ changed. Preserves-pure tt)

module _ (oq : OutboundSendQuery) (l t : String) where
  abbrev claimable : ℕ → Row → Bool
  claimable now = claim_status_where oq.bridge_id l t now

  ran-claim :
      (token : String) (expires now : Time) (db : Db)
      → (claim_status_delivery oq l t token expires now db).0 ≡ ok true
      → (is_blank token ≡ false)
        × (claim_status_delivery oq l t token expires now db
            ≡ exec_update
                (claimable (unix_milli now))
                (claim_status_set token (unix_milli expires) (unix_milli now))
                db)
  unfolding claim_status_delivery
  ran-claim token expires now db h =
      let blank = guard-false true (is_blank token) _ _ db h in
      let first = passed-reject_if true _ _ _ db h in
      let h1 = sym (ap (λ (x : Result Error Bool × Db). x.0) first) ∙ h in
      (blank, first ∙ passed-reject_if true _ _ _ db h1)

  claimable-at_key : (now : ℕ) (r : Row) → claimable now r ≡ true → at_key oq.bridge_id l t r ≡ true
  unfolding claim_status_where
  claimable-at_key now r h = ground arith

  module _ (token : String) (expires : ℕ) where
    -- The rows of the send are under the claim of `token` until `expires`.
    abbrev IsHeld : Db → Type 0
    IsHeld db =
        All
          (λ r.
            at_key oq.bridge_id l t r ≡ true
            → (r.status_claim_token ≡ token) × (r.status_claim_expires_ts ≡ expires))
          db.sends

    -- A statement that selects no row under the claim keeps it.
    abbrev PassesHeld : (Row → Bool) → Type 0
    PassesHeld p =
        (r : Row)
        → p r ≡ true
        → at_key oq.bridge_id l t r ≡ true
        → r.status_claim_token ≡ token
        → r.status_claim_expires_ts ≡ expires
        → ⊥

    IsHeld-exec_update :
        (p : Row → Bool) (f : Row → Row)
        → ((r : Row) → at_key oq.bridge_id l t (f r) ≡ at_key oq.bridge_id l t r)
        → PassesHeld p
        → Preserves IsHeld (exec_update p f)
    unfolding exec_update
    IsHeld-exec_update p f same passes = record {
      at = λ db h.
          elim (Bool-cases (
            all check_row (update_where p f db.sends)
            && no_conflict conflict (update_where p f db.sends))) [
              | inl good ↦ rw good (
                  All-update_where
                    (λ r.
                      at_key oq.bridge_id l t r ≡ true
                      → (r.status_claim_token ≡ token) × (r.status_claim_expires_ts ≡ expires))
                    p f db.sends
                    (λ r w q e.
                      let own = sym (same r) ∙ e in
                      let (held, until) = q own in absurd (passes r w own held until))
                    h)
              | inr bad ↦ rw bad h
            ];
    }

    -- A row with a live claim cannot be claimed.
    live :
        (l' t' : String) (now : ℕ)
        → is_empty token ≡ false
        → now < expires
        → PassesHeld (claim_status_where oq.bridge_id l' t' now)
    unfolding claim_status_where
    live l' t' now set lt r w own held until =
        let held' : is_empty r.status_claim_token ≡ false = ap is_empty held ∙ set in ground arith

    other_token :
        (l' t' other : String)
        → (other ≢ token)
        → PassesHeld (finish_status_where oq.bridge_id l' t' other)
    unfolding finish_status_where
    other_token l' t' other differs r w own held until =
        let named : str_eq r.status_claim_token other ≡ true = ground arith in
        differs (sym ((eq_iff r.status_claim_token other).0 named) ∙ held)

    other_release :
        (l' t' other : String)
        → (other ≢ token)
        → PassesHeld (release_status_where oq.bridge_id l' t' other)
    unfolding release_status_where
    other_release l' t' other differs r w own held until =
        let named : str_eq r.status_claim_token other ≡ true = ground arith in
        differs (sym ((eq_iff r.status_claim_token other).0 named) ∙ held)

    -- A call of others while the claim runs: a claim on any send, or the end or release of a claim with another token.
    abbrev pub IsRival : Time → Call → Type 0
    IsRival now (Call.claim_status_delivery _ _ _ _) = unix_milli now < expires
    IsRival now (Call.finish_status_delivery _ _ other _ _) = other ≢ token
    IsRival now (Call.release_status_delivery _ _ other) = other ≢ token
    IsRival now _ = ⊥

    IsHeld-claim :
        (l' t' other : String) (until now : Time)
        → is_empty token ≡ false
        → unix_milli now < expires
        → Preserves IsHeld (claim_status_delivery oq l' t' other until now)
    unfolding claim_status_delivery claim_status_set
    IsHeld-claim l' t' other until now set lt = Preserves-guard _ _ _ λ blank.
        Preserves-guard _ _ _
          λ late. IsHeld-exec_update _ _ (λ r. refl) (live l' t' (unix_milli now) set lt)

    IsHeld-finish :
        (l' t' other : String) (notified until : Time)
        → (other ≢ token)
        → Preserves IsHeld (finish_status_delivery oq l' t' other notified until)
    unfolding finish_status_set
    IsHeld-finish l' t' other notified until differs =
        Preserves-finish oq l' t' other notified until
          (IsHeld-exec_update _ _ (λ r. refl) (other_token l' t' other differs))

    IsHeld-release :
        (l' t' other : String) (now : Time)
        → (other ≢ token)
        → Preserves IsHeld (release_status_delivery oq l' t' other now)
    unfolding release_status_set
    IsHeld-release l' t' other now differs =
        Preserves-release oq l' t' other now
          (IsHeld-exec_update _ _ (λ r. refl) (other_release l' t' other differs))

    IsHeld-perform :
        (now : Time) (call : Call) (db : Db)
        → is_empty token ≡ false
        → IsRival now call
        → IsHeld db
        → IsHeld (perform oq now call db)
    unfolding perform
    IsHeld-perform now (Call.claim_status_delivery l' t' other until) db set lt h =
        (IsHeld-claim l' t' other until now set lt).at db h
    IsHeld-perform now (Call.finish_status_delivery l' t' other notified until) db set differs h =
        (IsHeld-finish l' t' other notified until differs).at db h
    IsHeld-perform now (Call.release_status_delivery l' t' other) db set differs h =
        (IsHeld-release l' t' other now differs).at db h
    IsHeld-perform now _ db set none_such h = absurd none_such

    IsHeld-perform_all :
        (calls : List (Time × Call)) (db : Db)
        → is_empty token ≡ false
        → All (λ c. IsRival c.0 c.1) calls
        → IsHeld db
        → IsHeld (perform_all oq calls db)
    unfolding perform_all
    IsHeld-perform_all [] db set _ h = h
    IsHeld-perform_all ((now, call) ∷ calls) db set (rival, rivals) h =
        IsHeld-perform_all calls (perform oq now call db) set rivals
          (IsHeld-perform now call db set rival h)

    claimed-IsHeld :
        (now : Time) (db : Db) (r : Row) (until : Time)
        → unix_milli until ≡ expires
        → no_conflict conflict db.sends ≡ true
        → send_row oq l t db ≡ some r
        → (claim_status_delivery oq l t token until now db).0 ≡ ok true
        → IsHeld (claim_status_delivery oq l t token until now db).1
    unfolding claim_status_set
    claimed-IsHeld now db r until same unique found h =
        let (_, ran) = ran-claim token until now db h in
        let (changed, sends) =
          changed-exec_update _ _ db (sym (ap (λ (x : Result Error Bool × Db). x.0) ran) ∙ h) in
        let rows = ap (λ (x : Result Error Bool × Db). x.1.sends) ran ∙ sends in
        let at = one_at_key oq l t db r unique found in
        let mine =
          any-only (claimable (unix_milli now)) r db.sends
            (All-map (λ x. at_key oq.bridge_id l t x ≡ true → x ≡ r)
              (λ x. claimable (unix_milli now) x ≡ true → x ≡ r) db.sends
              (λ x only w. only (claimable-at_key (unix_milli now) x w)) at)
            changed in
        let holds = λ (x : Row).
          at_key oq.bridge_id l t x ≡ true
          → (x.status_claim_token ≡ token) × (x.status_claim_expires_ts ≡ expires) in
        subst (All holds) (sym rows) (
          All-set_where (λ x. at_key oq.bridge_id l t x ≡ true → x ≡ r) holds
            (claimable (unix_milli now))
            (claim_status_set token (unix_milli until) (unix_milli now)) db.sends
            (λ x only w e. (refl, same))
            (λ x only w e.
              absurd
                (contrary _ mine (subst (λ z. claimable (unix_milli now) z ≡ false) (only e) w)))
            at)
      where
        contrary : (b : Bool) → b ≡ true → b ≡ false → ⊥
        contrary b e f = cc (e, f)

  passes-none :
      (p : Row → Bool) (q : Row → Type 0) (rs : List Row)
      → ((x : Row) → q x → p x ≡ true → ⊥)
      → All q rs
      → any p rs ≡ true
      → ⊥
  passes-none p q [] never _ h = absurd (cc h)
  passes-none p q (x ∷ xs) never (k, ks) h = elim (Bool-cases (p x)) [
    | inl e ↦ never x k e
    | inr e ↦ passes-none p q xs never ks (or_right (p x) (any p xs) e h)
  ]

  -- After `ClaimStatusDelivery` of a send returned true for a token, it does not return true again for the send at a time before
  -- the claim's end, under whatever token, after any run of claims at times before that end, on any sends and under any tokens,
  -- and of `FinishStatusDelivery` and `ReleaseStatusDelivery` with other tokens. The table's unique keys hold and the send
  -- has its row.
  pub claimed_once :
      (token other : String) (expires now until later : Time) (db : Db) (r : Row)
      (calls : List (Time × Call))
      → no_conflict conflict db.sends ≡ true
      → send_row oq l t db ≡ some r
      → (claim_status_delivery oq l t token expires now db).0 ≡ ok true
      → All (λ c. IsRival token (unix_milli expires) c.0 c.1) calls
      → unix_milli later < unix_milli expires
      → (claim_status_delivery oq l t other until later
          (perform_all oq calls (claim_status_delivery oq l t token expires now db).1)).0
        ≢ ok true
  claimed_once token other expires now until later db r calls unique found h rivals lt h' =
      let claimed = (claim_status_delivery oq l t token expires now db).1 in
      let after = perform_all oq calls claimed in
      let (blank, _) = ran-claim token expires now db h in
      let set = eq-empty_of_not_blank token blank in
      let held =
        IsHeld-perform_all token (unix_milli expires) calls claimed set rivals
          (claimed-IsHeld token (unix_milli expires) now db r expires refl unique found h) in
      let (_, ran') = ran-claim other until later after h' in
      let (changed', _) =
        changed-exec_update _ _ after (sym (ap (λ (x : Result Error Bool × Db). x.0) ran') ∙ h') in
      passes-none (claimable (unix_milli later))
        (λ x.
          at_key oq.bridge_id l t x ≡ true
          → (x.status_claim_token ≡ token) × (x.status_claim_expires_ts ≡ unix_milli expires))
        after.sends
        (λ x q w.
          let own = claimable-at_key (unix_milli later) x w in
          let (held', until') = q own in
          live token (unix_milli expires) l t (unix_milli later) set lt x w own held' until')
        held changed'
