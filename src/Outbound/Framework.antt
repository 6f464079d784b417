-- ===== src/Outbound/Framework.antt =====
-- A rule for invariants of the table of sends: what the statements keep, the methods keep, and so do
-- sequences of calls.
pub mod Methods
pub mod Runs
pub mod Tables
pub mod Endings
pub mod Joins
use tumblr_dms.Prelude.{
  ℕ, ◌<◌, ◌≡◌, refl, Bool, true, false, not, ◌&&◌, ◌||◌, List, [], ◌∷◌, Option, none, some, String,
  inl, inr, is_some, Result, ok, err, pure, ◌>>=◌, ◌>>◌, Bool-cases, arith, is_blank, length, All,
  if◌then◌else◌,
}
use tumblr_dms.Prelude.Preserves.{
  Preserves, preserves_rules, Preserves-bind, Preserves-then, Preserves-guard, Preserves-lift-bind,
}
use tumblr_dms.Prelude.Time.{Time, unix_milli, is_zero, after}
use tumblr_dms.Outbound.Rows.{State, Row, Db, Error, Op, exec_update, exec_delete}
use tumblr_dms.Outbound.Send.{PortalKey, OutboundSend, OutboundSendQuery, validate_identity}
use tumblr_dms.Outbound.Statements.{
  prepare_where, prepare_set, submitting_where, submitting_set, prepared_failed_where,
  submitting_failed_where, not_submitted_set, claim_status_where, claim_status_set,
  finish_status_where, finish_status_set, release_status_where, release_status_set, bind_where,
  bind_set, awaiting_where, awaiting_set, uncertain_where, uncertain_set, unconfirmed_where,
  resolved_unconfirmed_where, unconfirmed_set, completed_where, completed_set, retry_where,
  retry_set, claim_remote_where, claim_remote_set, delete_prepared_where,
  delete_not_submitted_where, delete_unconfirmed_where, terminalize_where, terminalize_set,
}
use tumblr_dms.Outbound.Create.{
  reject_some, reenter, insert_send, new_row, retry_unless, after_conflict, attempts, validate_new,
  create_new, load_or_create_own, load_or_create, ne, marshal_baseline, created,
  validate_next_attempt,
}
use tumblr_dms.Outbound.Receipts.{with_terminal_receipt, ensure_terminal_receipt, receipt_if}
use tumblr_dms.Outbound.Progress.{with_db, require_pending, unless_changed, judge}
use tumblr_dms.Outbound.Progress
use tumblr_dms.Outbound.Terminal.{
  complete_txn, terminalize_txn, mark_not_submitted, terminalize, ensure_receipts,
}
use tumblr_dms.Outbound.Terminal
use tumblr_dms.Outbound.Calls.{Call, perform, perform_all}

module _ {P : Db → Type 0} where
  pub Preserves-reject_some : (e : Option Error) → Preserves P (reject_some e)
  unfolding reject_some
  Preserves-reject_some none = record { at = λ s h. h }
  Preserves-reject_some (some e) = record { at = λ s h. h }

  pub Preserves-unless_changed :
      (b : Bool) (m : Op (Unit {0})) → Preserves P m → Preserves P (unless_changed b m)
  unfolding unless_changed
  Preserves-unless_changed true m k = record { at = λ s h. h }
  Preserves-unless_changed false m k = record { at = λ s h. k.at s h }

  pub Preserves-with_db :
      {A : Type 0} (f : Db → Op A) → ((d : Db) → Preserves P (f d)) → Preserves P (with_db f)
  unfolding with_db
  Preserves-with_db f k = record { at = λ s h. (k s).at s h }

  pub ruleset leaves =
      (preserves_rules, Preserves-reject_some, Preserves-unless_changed, Preserves-with_db)

  pub Preserves-judge :
      (v : Option OutboundSend → Option Error) (m : Op (Option OutboundSend))
      → Preserves P m
      → Preserves P (judge v m)
  unfolding judge
  Preserves-judge v m k = search leaves

  pub Preserves-require_pending : (m : Op Bool) → Preserves P m → Preserves P (require_pending m)
  unfolding require_pending
  Preserves-require_pending m k = search leaves

-- What holds of a candidate's hash by its type, [32]byte.
abbrev pub HasHash : OutboundSend → Type 0
HasHash send = (length send.content_hash ≡ 32) × All (λ b. b < 256) send.content_hash

abbrev pub IsCall : Call → Type 0
IsCall (Call.load_or_create state (some send)) = HasHash send
IsCall _ = Unit

-- The statements of the methods that change or drop rows keep `P`, and so does what ends a send with its
-- receipt.
pub record Updates (oq : OutboundSendQuery) (P : Db → Type 0) : Type 0 where
  pub prepare :
      (l t c : String) (next now : ℕ)
      → is_blank c ≡ false
      → Preserves P (exec_update (prepare_where oq.bridge_id l t c) (prepare_set c next now))
  pub submit :
      (l t : String) (ids baseline : List String) (started next now : ℕ)
      → marshal_baseline ids ≡ ok baseline
      → Preserves P (
          exec_update
            (submitting_where oq.bridge_id l t)
            (submitting_set baseline started next now))
  pub fail_prepared :
      (l t : String) (terminal : Time) (next : ℕ)
      → is_zero terminal ≡ false
      → Preserves P (
          with_terminal_receipt oq l t (
            exec_update
              (prepared_failed_where oq.bridge_id l t)
              (not_submitted_set (unix_milli terminal) next)))
  pub fail_submitting :
      (l t : String) (terminal : Time) (next : ℕ)
      → is_zero terminal ≡ false
      → Preserves P (
          with_terminal_receipt oq l t (
            exec_update
              (submitting_failed_where oq.bridge_id l t)
              (not_submitted_set (unix_milli terminal) next)))
  pub claim_status :
      (l t token : String) (expires now : ℕ)
      → is_blank token ≡ false
      → Preserves P (
          exec_update
            (claim_status_where oq.bridge_id l t now)
            (claim_status_set token expires now))
  pub finish_status :
      (l t token : String) (notified : Time) (next : ℕ)
      → is_zero notified ≡ false
      → Preserves P (
          exec_update
            (finish_status_where oq.bridge_id l t token)
            (finish_status_set (unix_milli notified) next))
  pub release_status :
      (l t token : String) (now : ℕ)
      → Preserves P
          (exec_update (release_status_where oq.bridge_id l t token) (release_status_set now))
  pub bind :
      (l t c : String) (key : PortalKey) (db : Db) (next now : ℕ)
      → is_blank c ≡ false
      → oq.key_is_empty key ≡ false
      → ne key.id c ≡ false
      → Preserves P (
          exec_update
            (bind_where oq.bridge_id l t key.id key.receiver c db)
            (bind_set key.id key.receiver c next now))
  pub await_echo :
      (l t : String) (next now : ℕ)
      → Preserves P (exec_update (awaiting_where oq.bridge_id l t) (awaiting_set next now))
  pub doubt :
      (l t : String) (next now : ℕ)
      → Preserves P (exec_update (uncertain_where oq.bridge_id l t) (uncertain_set next now))
  pub retry :
      (l t : String) (next now : ℕ)
      → Preserves P (exec_update (retry_where oq.bridge_id l t) (retry_set next now))
  pub claim_remote :
      (l t c remote : String) (db : Db) (next now : ℕ)
      → is_blank remote ≡ false
      → Preserves P (
          exec_update
            (claim_remote_where oq.bridge_id l t remote c db)
            (claim_remote_set remote next now))
  pub unconfirm :
      (l t : String) (terminal : Time) (next : ℕ)
      → is_zero terminal ≡ false
      → Preserves P (
          with_terminal_receipt oq l t (
            exec_update
              (unconfirmed_where oq.bridge_id l t)
              (unconfirmed_set (unix_milli terminal) next)))
  pub unconfirm_resolved :
      (l t remote : String) (terminal : Time) (next : ℕ)
      → is_zero terminal ≡ false
      → Preserves P (
          with_terminal_receipt oq l t (
            exec_update
              (resolved_unconfirmed_where oq.bridge_id l t remote)
              (unconfirmed_set (unix_milli terminal) next)))
  pub complete :
      (l t remote : String) (terminal : Time)
      → is_zero terminal ≡ false
      → Preserves P (complete_txn oq l t remote terminal)
  pub terminalize :
      (l c : String) (terminal next : Time)
      → is_zero terminal ≡ false
      → Preserves P (terminalize_txn oq l c terminal next)
  pub drop_prepared :
      (l t : String) → Preserves P (exec_delete (delete_prepared_where oq.bridge_id l t))
  pub drop_not_submitted :
      (l t : String)
      → Preserves P (with_db λ db. exec_delete (delete_not_submitted_where oq.bridge_id l t db))
  pub drop_unconfirmed :
      (l t : String)
      → Preserves P (with_db λ db. exec_delete (delete_unconfirmed_where oq.bridge_id l t db))

-- Every statement keeps `P`.
pub record Stable (oq : OutboundSendQuery) (P : Db → Type 0) : Type 0 where
  pub insert :
      (send : OutboundSend) (baseline : List String) (now : Time)
      → HasHash send
      → validate_identity oq send ≡ none
      → validate_new oq none send now ≡ none
      → marshal_baseline send.baseline_message_ids ≡ ok baseline
      → Preserves P (insert_send (new_row oq send baseline (unix_milli now)))
  pub updates : Updates oq P
  pub open updates use *
