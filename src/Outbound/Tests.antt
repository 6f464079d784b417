-- ===== src/Outbound/Tests.antt =====
-- Runs of pkg/connector/tumblrdb/outbound.go at concrete values, and instances of the theorems.
mod Endings
use tumblr_dms.Prelude.{
  ◌≡◌, ◌≢◌, refl, true, false, ◌&&◌, List, [], ◌∷◌, Option, none, some, ok, All, arith, is_blank,
  replicate, ◌>>=◌, ◌>>◌,
}
use tumblr_dms.Prelude.Time.{Time, zero_time, instant}
use tumblr_dms.Outbound.Rows.{
  prepared, uncertain, resolved, text, Db, Row, is_empty, exec_update, conflict, same_key,
  same_event, same_remote, check_row, check_texts, check_status, check_terminal, check_identity,
  check_times,
}
use tumblr_dms.Outbound.Rows.Checked.{IsChecked-check_row}
use tumblr_dms.Outbound.Submitted.Posts.{Post, submit, posted_once}
use tumblr_dms.Outbound.Send.{OutboundSend, OutboundSendQuery}
use tumblr_dms.Outbound.Reading.{get, next_due_row}
use tumblr_dms.Outbound.Ended.{HasOwnReceipt, completed_with_receipt, failed_with_receipt}
use tumblr_dms.Outbound.Receipts.{
  with_terminal_receipt, ensure_terminal_receipt, receipt_if, receipt_of, add_receipt, receipt_for,
}
use tumblr_dms.Outbound.Terminal.{
  mark_completed, complete_txn, mark_not_submitted, claim_prepared_not_submitted,
  mark_submitting_not_submitted, terminalize_conversation,
}
use tumblr_dms.Outbound.Due.{IsEarliest, next_send-IsEarliest}
use tumblr_dms.Outbound.Create.{
  load_or_create, has_receipt, validate_next_attempt, marshal_baseline, reject_some,
}
use tumblr_dms.Outbound.Progress.{mark_submitting, mark_uncertain, require_pending, unless_changed}
use tumblr_dms.Outbound.Statements.{
  submitting_where, submitting_set, uncertain_where, uncertain_set, prepared_failed_where,
  not_submitted_set, completed_where, completed_set,
}
use tumblr_dms.Outbound.Calls.{perform, Call, perform_all}
use tumblr_dms.Outbound.Framework.{IsCall}
use tumblr_dms.Outbound.Readable.Kept.{get_succeeds}
use tumblr_dms.Outbound.Handled.{IsHandled}
use tumblr_dms.Outbound.Handled.Creation.{IsHandled-event_not_sent_again}

abbrev bridge : OutboundSendQuery
bridge = record {
  bridge_id = "bridge";
  key_is_empty = λ k. is_empty k.id && is_empty k.receiver;
  text_before = λ a b. false;
}

abbrev hello : OutboundSend
hello = record {
  bridge_id = "";
  user_login_id = "login";
  transaction_id = "txn";
  portal_key = record { id = "12"; receiver = "login" };
  conversation_id = "12";
  binding_conversation_id = "";
  matrix_room_id = "!room";
  matrix_event_id = "$event";
  matrix_sender_id = "@me";
  sender_id = "blog";
  input_transaction_id = "in";
  message_type = text;
  content_hash = replicate 32 7;
  source_media_digest = "";
  baseline_message_ids = "m1" ∷ [];
  remote_message_id = "";
  state = prepared;
  terminal_at = zero_time;
  status_notified_at = zero_time;
  status_claim_token = "";
  status_claim_expires_at = zero_time;
  attempt_count = 0;
  next_attempt_at = instant 9000000;
  send_started_at = instant 1000000;
  created_at = zero_time;
  updated_at = zero_time;
}

abbrev empty_db : Db
empty_db = record { sends = []; receipts = []; messages = []; portals = [] }

abbrev handled_db : Db
handled_db = record {
  sends = [];
  receipts =
      record {
        bridge_id = "bridge";
        matrix_event_id = "$event";
        user_login_id = "login";
        transaction_id = "txn";
        terminal_ts = 5;
      }
      ∷ [];
  messages = [];
  portals = [];
}

abbrev start : List (Time × Call)
start =
    (instant 2000000, Call.load_or_create none (some hello))
    ∷ (instant 3000000, Call.mark_submitting "login" "txn" [] (instant 2000000) (instant 9000000))
    ∷ []

start-IsCall : All (λ c. IsCall c.1) start
start-IsCall = omega arith

get_succeeds_example :
    (found : Option OutboundSend) × (get bridge "login" "txn" (perform_all bridge start empty_db)
      ≡ ok found)
unfolding is_blank
get_succeeds_example =
    get_succeeds bridge start empty_db "login" "txn" start-IsCall
      (record { checked = tt; unique = refl; rows = tt }) refl refl

IsHandled-event_not_sent_again_example :
    IsHandled "bridge" "$event" (perform_all bridge start handled_db)
    × ((s : OutboundSend)
        → (load_or_create bridge none
            (some hello)
            (instant 4000000)
            (perform_all bridge start handled_db)).0
          ≢ ok (s, true))
unfolding has_receipt
IsHandled-event_not_sent_again_example =
    IsHandled-event_not_sent_again bridge start handled_db none hello (instant 4000000) start-IsCall
      (record { checked = tt; unique = refl; rows = tt }, refl)

abbrev hello_row : Row
hello_row = record {
  bridge_id = "bridge";
  user_login_id = "login";
  transaction_id = "txn";
  portal_id = "12";
  portal_receiver = "login";
  conversation_id = "12";
  binding_conversation_id = "";
  matrix_room_id = "!room";
  matrix_event_id = "$event";
  matrix_sender_id = "@me";
  sender_id = "blog";
  input_transaction_id = "in";
  message_type = text;
  content_hash = replicate 64 48;
  source_media_digest = "";
  baseline_ids = "m1" ∷ [];
  remote_message_id = "";
  state = prepared;
  terminal_ts = 0;
  status_notified_ts = 0;
  status_claim_token = "";
  status_claim_expires_ts = 0;
  attempt_count = 0;
  next_attempt_ts = 10;
  send_started_ts = 2;
  created_ts = 3;
  updated_ts = 3;
}

abbrev hello_db : Db
hello_db = record { sends = hello_row ∷ []; receipts = []; messages = []; portals = [] }

-- `MarkSubmitting` of the send at two milliseconds.
abbrev post_hello : Time → Post
post_hello now = record {
  login = "login";
  transaction = "txn";
  baseline = [];
  started = instant 1000000;
  next = instant 90000000;
  now = now;
}

-- The outcome of the POST is in doubt.
abbrev doubt : List (Time × Call)
doubt = (instant 3000000, Call.mark_uncertain "login" "txn" (instant 90000000)) ∷ []

abbrev doubted_row : Row
doubted_row = record hello_row {
  state = uncertain;
  baseline_ids = [];
  send_started_ts = 2;
  next_attempt_ts = 91;
  updated_ts = 4;
  attempt_count = 1;
}

posted_once_example :
    (submit bridge
      (post_hello (instant 4000000))
      (perform_all bridge doubt (submit bridge (post_hello (instant 2000000)) hello_db).1)).0
    ≢ ok true
unfolding check_row check_texts check_status check_terminal check_identity check_times exec_update
    conflict same_key same_event same_remote mark_submitting mark_uncertain validate_next_attempt
    marshal_baseline require_pending submitting_where submitting_set uncertain_where uncertain_set
    perform reject_some ◌>>=◌ ◌>>◌ is_blank perform_all
posted_once_example =
    posted_once bridge (post_hello (instant 2000000)) hello_db hello_row doubt
      (post_hello (instant 4000000)) doubted_row
      (record {
        checked = (IsChecked-check_row hello_row refl, tt);
        unique = refl;
        rows = (tt, tt);
      })
      refl refl (tt, tt) refl refl

next_send-IsEarliest_example :
    IsEarliest bridge "login" 20 hello_db (next_due_row bridge "login" 20 hello_db)
next_send-IsEarliest_example = next_send-IsEarliest bridge "login" 20 hello_db
