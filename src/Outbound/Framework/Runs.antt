-- ===== src/Outbound/Framework/Runs.antt =====
-- `LoadOrCreate` and every sequence of calls keep what the statements keep.
use tumblr_dms.Prelude.{
  ℕ, zero, suc, ◌≡◌, refl, Bool, true, false, not, ◌&&◌, List, [], ◌∷◌, Option, none, some, String,
  pure, throw, ◌>>◌, arith, All, if◌then◌else◌,
}
use tumblr_dms.Prelude.Preserves.{Preserves, Preserves-bind, Preserves-lift-bind}
use tumblr_dms.Prelude.Time.{Time, unix_milli}
use tumblr_dms.Outbound.Rows.{is_empty, invalid, State, Db, Error, Op}
use tumblr_dms.Outbound.Send.{OutboundSend, OutboundSendQuery, validate_identity}
use tumblr_dms.Outbound.Create.{
  reject_some, reenter, insert_send, new_row, retry_unless, after_conflict, attempts, validate_new,
  create_new, load_or_create_own, load_or_create, ne, created, refused,
}
use tumblr_dms.Outbound.Calls.{Call, perform, perform_all}
use tumblr_dms.Outbound.Framework.{HasHash, IsCall, Stable, leaves}
use tumblr_dms.Outbound.Framework.Methods

module _ {P : Db → Type 0} where
  Preserves-check :
      {A : Type 0} (e : Option Error) (m : Op A)
      → (e ≡ none → Preserves P m)
      → Preserves P (reject_some e >> m)
  unfolding ◌>>◌ reject_some
  Preserves-check none m k = record { at = λ s h. (k refl).at s h }
  Preserves-check (some e) m k = record { at = λ s h. h }

module _ {A : Type 0} {P : Db → Type 0} where
  Preserves-if :
      (b : Bool) (m n : Op A)
      → (b ≡ true → Preserves P m)
      → (b ≡ false → Preserves P n)
      → Preserves P (if b then m else n)
  Preserves-if true m n km kn = km refl
  Preserves-if false m n km kn = kn refl

module _ {P : Db → Type 0} (oq : OutboundSendQuery) where
  Preserves-reenter : (existing send : OutboundSend) → Preserves P (reenter oq existing send)
  unfolding reenter
  Preserves-reenter existing send = search leaves

  Preserves-retry_unless :
      (e : Option Error) (again : Op (OutboundSend × Bool))
      → Preserves P again
      → Preserves P (retry_unless oq e again)
  unfolding retry_unless
  Preserves-retry_unless none again k = record { at = λ s h. k.at s h }
  Preserves-retry_unless (some e) again k = record { at = λ s h. h }

  Preserves-after_conflict :
      (send : OutboundSend) (again : Op (OutboundSend × Bool))
      → Preserves P again
      → Preserves P (after_conflict oq send again)
  unfolding after_conflict
  Preserves-after_conflict send again k = Preserves-bind _ _ (search leaves) found_rule
    where
      found_rule :
          (found : Option OutboundSend)
          → Preserves P (elim found [
            | some existing ↦ reenter oq existing send
            | none ↦ λ db. retry_unless oq (refused oq send db) again db
          ])
      found_rule (some existing) = Preserves-reenter existing send
      found_rule none = record {
        at = λ s h. (Preserves-retry_unless (refused oq send s) again k).at s h;
      }

  Preserves-attempts :
      (rounds : ℕ) (send : OutboundSend) (baseline : List String) (now : Time)
      → Preserves P (insert_send (new_row oq send baseline (unix_milli now)))
      → Preserves P (attempts oq rounds send baseline now)
  unfolding attempts
  Preserves-attempts zero send baseline now k = search leaves
  Preserves-attempts (suc rounds) send baseline now k =
      Preserves-bind _ _ k (outcome (Preserves-attempts rounds send baseline now k))
    where
      outcome :
          Preserves P (attempts oq rounds send baseline now)
          → (inserted : Bool)
          → Preserves P (elim inserted [
            | true ↦ pure (created oq send now, true)
            | false ↦ after_conflict oq send (attempts oq rounds send baseline now)
          ])
      outcome again true = search leaves
      outcome again false = Preserves-after_conflict send _ again

validate_new-none :
    (oq : OutboundSendQuery) (state : Option State) (send : OutboundSend) (now : Time)
    → validate_new oq state send now ≡ none
    → validate_new oq none send now ≡ none
unfolding validate_new
validate_new-none oq none send now h = h
validate_new-none oq (some s) send now h = ground arith

module _ {oq : OutboundSendQuery} {P : Db → Type 0} (st : Stable oq P) where
  Preserves-load_or_create_own :
      (state : Option State) (send : OutboundSend) (now : Time)
      → HasHash send
      → Preserves P (load_or_create_own oq state send now)
  unfolding load_or_create_own create_new
  Preserves-load_or_create_own state send now hash =
      Preserves-check _ _ λ identity. Preserves-bind _ _ (search leaves) (found_rule identity)
    where
      found_rule :
          validate_identity oq send ≡ none
          → (found : Option OutboundSend)
          → Preserves P (elim found [
            | some existing ↦ reenter oq existing send
            | none ↦ create_new oq state send now
          ])
      found_rule identity (some existing) = Preserves-reenter oq existing send
      found_rule identity none = Preserves-check _ _ λ fresh.
          Preserves-lift-bind _ _ λ baseline marshalled. Preserves-attempts oq 2 send baseline now (
            st.insert send baseline now hash identity (validate_new-none oq state send now fresh)
              marshalled)

  Preserves-load_or_create :
      (state : Option State) (send : Option OutboundSend) (now : Time)
      → IsCall (Call.load_or_create state send)
      → Preserves P (load_or_create oq state send now)
  unfolding load_or_create
  Preserves-load_or_create state none now h = search leaves
  Preserves-load_or_create state (some send) now h =
      Preserves-if (not (is_empty send.bridge_id) && ne send.bridge_id oq.bridge_id)
        (throw (invalid "outbound send bridge ID does not match query bridge ID")) _
        (λ e. search leaves)
        (λ e. Preserves-load_or_create_own state (record send { bridge_id = oq.bridge_id }) now h)

  -- One call keeps what the statements keep.
  pub perform_rule :
      (now : Time) (call : Call) (db : Db) → IsCall call → P db → P (perform oq now call db)
  unfolding perform
  perform_rule now (Call.load_or_create s send) db c h =
      (Preserves-load_or_create s send now c).at db h
  perform_rule now (Call.prepare_conversation_binding l t c next) db _ h =
      (Methods.Preserves-prepare st l t c next now).at db h
  perform_rule now (Call.mark_submitting l t ids started next) db _ h =
      (Methods.Preserves-mark_submitting st l t ids started next now).at db h
  perform_rule now (Call.claim_prepared_not_submitted l t end next) db _ h =
      (Methods.Preserves-claim_prepared_not_submitted st l t end next).at db h
  perform_rule now (Call.mark_submitting_not_submitted l t end next) db _ h =
      (Methods.Preserves-mark_submitting_not_submitted st l t end next).at db h
  perform_rule now (Call.claim_status_delivery l t token expires) db _ h =
      (Methods.Preserves-claim_status_delivery st l t token expires now).at db h
  perform_rule now (Call.finish_status_delivery l t token notified expires) db _ h =
      (Methods.Preserves-finish_status_delivery st l t token notified expires).at db h
  perform_rule now (Call.release_status_delivery l t token) db _ h =
      (Methods.Preserves-release_status_delivery st l t token now).at db h
  perform_rule now (Call.bind_conversation l t c key next) db _ h =
      (Methods.Preserves-bind_conversation st l t c key next now).at db h
  perform_rule now (Call.mark_awaiting_echo l t next) db _ h =
      (Methods.Preserves-mark_awaiting_echo st l t next now).at db h
  perform_rule now (Call.mark_uncertain l t next) db _ h =
      (Methods.Preserves-mark_uncertain st l t next now).at db h
  perform_rule now (Call.mark_unconfirmed l t end next) db _ h =
      (Methods.Preserves-mark_unconfirmed st l t end next).at db h
  perform_rule now (Call.mark_resolved_unconfirmed l t remote end next) db _ h =
      (Methods.Preserves-mark_resolved_unconfirmed st l t remote end next).at db h
  perform_rule now (Call.mark_completed l t remote end) db _ h =
      (Methods.Preserves-mark_completed st l t remote end).at db h
  perform_rule now (Call.terminalize_conversation l c end next) db _ h =
      (Methods.Preserves-terminalize_conversation st l c end next).at db h
  perform_rule now (Call.schedule_retry l t next) db _ h =
      (Methods.Preserves-schedule_retry st l t next now).at db h
  perform_rule now (Call.claim_remote_message l t c remote next) db _ h =
      (Methods.Preserves-claim_remote_message st l t c remote next now).at db h
  perform_rule now (Call.delete_prepared l t) db _ h =
      (Methods.Preserves-delete_prepared st l t).at db h
  perform_rule now (Call.delete_not_submitted l t) db _ h =
      (Methods.Preserves-delete_not_submitted st l t).at db h
  perform_rule now (Call.delete_unconfirmed l t) db _ h =
      (Methods.Preserves-delete_unconfirmed st l t).at db h

  -- So does a sequence of calls.
  pub perform_all_rule :
      (calls : List (Time × Call)) (db : Db)
      → All (λ c. IsCall c.1) calls
      → P db
      → P (perform_all oq calls db)
  unfolding perform_all
  perform_all_rule [] db _ h = h
  perform_all_rule ((now, call) ∷ calls) db (c, cs) h =
      perform_all_rule calls (perform oq now call db) cs (perform_rule now call db c h)
