-- ===== src/Outbound/Tests/Endings.antt =====
-- Sends of pkg/connector/tumblrdb/outbound.go that end, at concrete values.
use tumblr_dms.Outbound.Claims.{claimed_once}
use tumblr_dms.Outbound.Terminal.{claim_status_delivery}
use tumblr_dms.Outbound.Statements.{claim_status_where, claim_status_set}
use tumblr_dms.Outbound.Rows.{not_submitted, Row}
use tumblr_dms.Prelude.{◌≢◌, arith, ok, true, List, String, str_eq, eq_iff}
use tumblr_dms.Outbound.Calls.{Call, perform_all}
use tumblr_dms.Prelude.{◌≡◌, refl, [], ◌∷◌, is_blank, ◌>>=◌, ◌>>◌}
use tumblr_dms.Prelude.Time.{Time, instant}
use tumblr_dms.Outbound.Rows.{
  resolved, Db, exec_update, conflict, same_key, same_event, same_remote, check_row, check_texts,
  check_status, check_terminal, check_identity, check_times,
}
use tumblr_dms.Outbound.Ended.{HasOwnReceipt, completed_with_receipt, failed_with_receipt}
use tumblr_dms.Outbound.Receipts.{
  with_terminal_receipt, ensure_terminal_receipt, receipt_if, receipt_of, add_receipt, receipt_for,
}
use tumblr_dms.Outbound.Terminal.{mark_completed, complete_txn, mark_not_submitted}
use tumblr_dms.Outbound.Progress.{unless_changed}
use tumblr_dms.Outbound.Statements.{
  prepared_failed_where, not_submitted_set, completed_where, completed_set,
}
use tumblr_dms.Outbound.Tests.{bridge, hello_row, hello_db}

abbrev resolved_db : Db
resolved_db = record hello_db {
  sends = record hello_row { state = resolved; remote_message_id = "m2" } ∷ [];
}

completed_with_receipt_example :
    HasOwnReceipt bridge "login" "txn"
      (mark_completed bridge "login" "txn" "m2" (instant 5000000) resolved_db).1
unfolding mark_completed complete_txn mark_not_submitted with_terminal_receipt receipt_if
    ensure_terminal_receipt receipt_of add_receipt receipt_for exec_update check_row check_texts
    check_status check_terminal check_identity check_times conflict same_key same_event same_remote
    unless_changed completed_where completed_set prepared_failed_where not_submitted_set ◌>>=◌ ◌>>◌
    is_blank
completed_with_receipt_example =
    completed_with_receipt bridge "login" "txn" "m2" (instant 5000000) resolved_db refl

failed_with_receipt_example :
    HasOwnReceipt bridge "login" "txn"
      (mark_not_submitted bridge "login" "txn"
        (prepared_failed_where "bridge" "login" "txn")
        (instant 5000000)
        (instant 9000000)
        hello_db).1
unfolding mark_completed complete_txn mark_not_submitted with_terminal_receipt receipt_if
    ensure_terminal_receipt receipt_of add_receipt receipt_for exec_update check_row check_texts
    check_status check_terminal check_identity check_times conflict same_key same_event same_remote
    unless_changed completed_where completed_set prepared_failed_where not_submitted_set ◌>>=◌ ◌>>◌
    is_blank
failed_with_receipt_example =
    failed_with_receipt bridge "login" "txn" (prepared_failed_where "bridge" "login" "txn")
      (instant 5000000) (instant 9000000) hello_db refl

abbrev failed_row : Row
failed_row = record hello_row { state = not_submitted; terminal_ts = 6; next_attempt_ts = 91 }

abbrev failed_db : Db
failed_db = record hello_db { sends = failed_row ∷ [] }

-- Another worker tries to claim the status, to end and to release a claim of its own.
abbrev rival_calls : List (Time × Call)
rival_calls =
    (instant 12000000, Call.claim_status_delivery "login" "txn" "b" (instant 90000000))
    ∷ (instant 13000000, Call.release_status_delivery "login" "txn" "b")
    ∷ (
      instant 14000000,
      Call.finish_status_delivery "login" "txn" "b" (instant 14000000) (instant 90000000),
    )
    ∷ []

b_ne_a : ◌≢◌ {A = String} "b" "a"
b_ne_a e = let same : str_eq "b" "a" ≡ true = (eq_iff "b" "a").1 e in cc same

claimed_once_example :
    (claim_status_delivery bridge "login" "txn" "b" (instant 80000000) (instant 20000000) (
      perform_all bridge rival_calls
        (claim_status_delivery bridge "login" "txn" "a"
          (instant 30000000)
          (instant 10000000)
          failed_db).1)).0
    ≢ ok true
unfolding claim_status_delivery exec_update check_row check_texts check_status check_terminal
    check_identity check_times conflict same_key same_event same_remote claim_status_where
    claim_status_set ◌>>◌ is_blank
claimed_once_example =
    claimed_once bridge "login" "txn" "a" "b" (instant 30000000) (instant 10000000)
      (instant 80000000) (instant 20000000) failed_db failed_row rival_calls refl refl refl
      (omega arith, (b_ne_a, (b_ne_a, tt))) (omega arith)

-- Once the claim is over another one is made.
claimed_again_test :
    (claim_status_delivery bridge "login" "txn" "b"
      (instant 80000000)
      (instant 30000000)
      (claim_status_delivery bridge "login" "txn" "a"
        (instant 30000000)
        (instant 10000000)
        failed_db).1).0
    ≡ ok true
unfolding claim_status_delivery exec_update check_row check_texts check_status check_terminal
    check_identity check_times conflict same_key same_event same_remote claim_status_where
    claim_status_set ◌>>◌ is_blank
claimed_again_test = refl
