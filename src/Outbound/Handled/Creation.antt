-- ===== src/Outbound/Handled/Creation.antt =====
-- `LoadOrCreate` on a Matrix event that has been handled.
use tumblr_dms.Prelude.{
  ℕ, zero, suc, ◌≡◌, refl, ◌≢◌, Bool, true, false, not, ◌&&◌, List, Option, none, some, String,
  Result, ok, err, All, arith, Bool-cases, Option-cases, continue, ap, ◌>>=◌, ◌>>◌, inl, inr,
}
use tumblr_dms.Prelude.Time.{Time, unix_milli}
use tumblr_dms.Outbound.Rows.{State, Db, Error, Op, is_empty}
use tumblr_dms.Outbound.Send.{OutboundSend, OutboundSendQuery, validate_identity}
use tumblr_dms.Outbound.Reading.{get}
use tumblr_dms.Outbound.Create.{
  reject_some, reenter, insert_send, new_row, retry_unless, after_conflict, attempts, validate_new,
  create_new, load_or_create_own, load_or_create, ne, marshal_baseline, created, refused,
  has_receipt,
}
use tumblr_dms.Outbound.Calls.{Call, perform_all}
use tumblr_dms.Outbound.Framework.{IsCall}
use tumblr_dms.Outbound.Handled.{IsHandled, perform_all-IsHandled, insert_send-receipt}

-- Whether a call has created a row.
abbrev has_created : Result Error (OutboundSend × Bool) → Bool
has_created (ok (send, created)) = created
has_created (err e) = false

module _ (oq : OutboundSendQuery) where
  reenter_old :
      (existing send : OutboundSend) (db : Db) → has_created (reenter oq existing send db).0 ≡ false
  unfolding reenter ◌>>◌ reject_some
  reenter_old existing send db = ground arith

  retry_old :
      (e : Option Error) (again : Op (OutboundSend × Bool)) (db : Db)
      → has_created (again db).0 ≡ false
      → has_created (retry_unless oq e again db).0 ≡ false
  unfolding retry_unless
  retry_old none again db h = h
  retry_old (some e) again db h = refl

  after_found :
      (found : Result Error (Option OutboundSend)) (send : OutboundSend)
      (again : Op (OutboundSend × Bool)) (db : Db)
      → has_created (again db).0 ≡ false
      → has_created
          (continue found
            (λ o. elim o [
              | some existing ↦ reenter oq existing send
              | none ↦ λ d. retry_unless oq (refused oq send d) again d
            ])
            db).0
        ≡ false
  after_found (ok (some existing)) send again db h = reenter_old existing send db
  after_found (ok none) send again db h = retry_old (refused oq send db) again db h
  after_found (err e) send again db h = refl

  after_conflict_old :
      (send : OutboundSend) (again : Op (OutboundSend × Bool)) (db : Db)
      → has_created (again db).0 ≡ false
      → has_created (after_conflict oq send again db).0 ≡ false
  unfolding after_conflict ◌>>=◌
  after_conflict_old send again db h =
      after_found (get oq send.user_login_id send.transaction_id db) send again db h

  attempts_old :
      (rounds : ℕ) (send : OutboundSend) (baseline : List String) (now : Time) (db : Db)
      → insert_send (new_row oq send baseline (unix_milli now)) db ≡ (ok false, db)
      → has_created (attempts oq rounds send baseline now db).0 ≡ false
  unfolding attempts ◌>>=◌
  attempts_old zero send baseline now db h = refl
  attempts_old (suc rounds) send baseline now db h =
      rw h (after_conflict_old send _ db (attempts_old rounds send baseline now db h))

  insert_old :
      (send : OutboundSend) (baseline : List String) (now : ℕ) (db : Db)
      → has_receipt oq.bridge_id send.matrix_event_id db ≡ true
      → insert_send (new_row oq send baseline now) db ≡ (ok false, db)
  unfolding new_row
  insert_old send baseline now db h = insert_send-receipt _ db h

  module _ (send : OutboundSend) (now : Time) (db : Db)
      (receipt : has_receipt oq.bridge_id send.matrix_event_id db ≡ true) where
    create_new_old :
        (state : Option State) → has_created (create_new oq state send now db).0 ≡ false
    unfolding create_new ◌>>=◌ ◌>>◌ reject_some
    create_new_old state = elim (Option-cases (validate_new oq state send now)) [
      | inr (e, bad) ↦ rw bad
      | inl good ↦ rw good (marshalled (marshal_baseline send.baseline_message_ids))
    ]
      where
        marshalled :
            (m : Result Error (List String))
            → has_created (continue m (λ baseline. attempts oq 2 send baseline now) db).0 ≡ false
        marshalled (ok baseline) =
            attempts_old 2 send baseline now db
              (insert_old send baseline (unix_milli now) db receipt)
        marshalled (err e) = refl

    own_found :
        (found : Result Error (Option OutboundSend)) (state : Option State)
        → has_created
            (continue found
              (λ o. elim o [
                | some existing ↦ reenter oq existing send
                | none ↦ create_new oq state send now
              ])
              db).0
          ≡ false
    own_found (ok (some existing)) state = reenter_old existing send db
    own_found (ok none) state = create_new_old state
    own_found (err e) state = refl

    load_or_create_own_old :
        (state : Option State) → has_created (load_or_create_own oq state send now db).0 ≡ false
    unfolding load_or_create_own ◌>>=◌ ◌>>◌ reject_some
    load_or_create_own_old state = elim (Option-cases (validate_identity oq send)) [
      | inr (e, bad) ↦ rw bad
      | inl good ↦ rw good (own_found (get oq send.user_login_id send.transaction_id db) state)
    ]

  load_or_create_old :
      (state : Option State) (send : OutboundSend) (now : Time) (db : Db)
      → has_receipt oq.bridge_id send.matrix_event_id db ≡ true
      → has_created (load_or_create oq state (some send) now db).0 ≡ false
  unfolding load_or_create ◌>>=◌
  load_or_create_old state send now db h =
      elim (Bool-cases (not (is_empty send.bridge_id) && ne send.bridge_id oq.bridge_id)) [
        | inl foreign ↦ rw foreign
        | inr own ↦
            rw own
              (load_or_create_own_old (record send { bridge_id = oq.bridge_id }) now db h state)
      ]

-- Once a Matrix event is handled, that is once it has its permanent receipt and no row of it is open or
-- resolved, then after any sequence of calls it still is, and `LoadOrCreate` of any candidate for the
-- event creates no row.
pub IsHandled-event_not_sent_again :
    (oq : OutboundSendQuery) (calls : List (Time × Call)) (db : Db) (state : Option State)
    (send : OutboundSend) (now : Time)
    → All (λ c. IsCall c.1) calls
    → IsHandled oq.bridge_id send.matrix_event_id db
    → IsHandled oq.bridge_id send.matrix_event_id (perform_all oq calls db)
      × ((s : OutboundSend)
          → (load_or_create oq state (some send) now (perform_all oq calls db)).0 ≢ ok (s, true))
IsHandled-event_not_sent_again oq calls db state send now cs h =
    let h' = perform_all-IsHandled oq.bridge_id send.matrix_event_id oq calls db cs h in
    (
      h',
      λ s e.
          cc
            (load_or_create_old oq state send now (perform_all oq calls db) h'.1, ap has_created e),
    )
