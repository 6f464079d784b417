-- ===== src/Outbound/Calls.antt =====
-- The calls that a client makes of `OutboundSendQuery`, and what a sequence of them leaves of the database.
use tumblr_dms.Prelude.{List, [], ◌∷◌, Option, String}
use tumblr_dms.Prelude.Time.{Time}
use tumblr_dms.Outbound.Rows.{State, Db}
use tumblr_dms.Outbound.Send.{PortalKey, OutboundSend, OutboundSendQuery}
use tumblr_dms.Outbound.Create
use tumblr_dms.Outbound.Progress
use tumblr_dms.Outbound.Terminal

-- The methods that write; the text arguments are the login and the transaction where there are two.
pub data Call : Type 0 where
  load_or_create : Option State → Option OutboundSend → Call
  prepare_conversation_binding : String → String → String → Time → Call
  mark_submitting : String → String → List String → Time → Time → Call
  claim_prepared_not_submitted : String → String → Time → Time → Call
  mark_submitting_not_submitted : String → String → Time → Time → Call
  claim_status_delivery : String → String → String → Time → Call
  finish_status_delivery : String → String → String → Time → Time → Call
  release_status_delivery : String → String → String → Call
  bind_conversation : String → String → String → PortalKey → Time → Call
  mark_awaiting_echo : String → String → Time → Call
  mark_uncertain : String → String → Time → Call
  mark_unconfirmed : String → String → Time → Time → Call
  mark_resolved_unconfirmed : String → String → String → Time → Time → Call
  mark_completed : String → String → String → Time → Call
  terminalize_conversation : String → String → Time → Time → Call
  schedule_retry : String → String → Time → Call
  claim_remote_message : String → String → String → String → Time → Call
  delete_prepared : String → String → Call
  delete_not_submitted : String → String → Call
  delete_unconfirmed : String → String → Call

module _ (oq : OutboundSendQuery) where
  -- The database after a call at the time `now`.
  unfoldable pub perform : Time → Call → Db → Db
  perform now (load_or_create state send) db = (Create.load_or_create oq state send now db).1
  perform now (prepare_conversation_binding l t c next) db =
      (Progress.prepare_conversation_binding oq l t c next now db).1
  perform now (mark_submitting l t ids started next) db =
      (Progress.mark_submitting oq l t ids started next now db).1
  perform now (claim_prepared_not_submitted l t at' next) db =
      (Terminal.claim_prepared_not_submitted oq l t at' next db).1
  perform now (mark_submitting_not_submitted l t at' next) db =
      (Terminal.mark_submitting_not_submitted oq l t at' next db).1
  perform now (claim_status_delivery l t token expires) db =
      (Terminal.claim_status_delivery oq l t token expires now db).1
  perform now (finish_status_delivery l t token notified expires) db =
      (Terminal.finish_status_delivery oq l t token notified expires db).1
  perform now (release_status_delivery l t token) db =
      (Terminal.release_status_delivery oq l t token now db).1
  perform now (bind_conversation l t c key next) db =
      (Progress.bind_conversation oq l t c key next now db).1
  perform now (mark_awaiting_echo l t next) db = (Progress.mark_awaiting_echo oq l t next now db).1
  perform now (mark_uncertain l t next) db = (Progress.mark_uncertain oq l t next now db).1
  perform now (mark_unconfirmed l t at' next) db = (Terminal.mark_unconfirmed oq l t at' next db).1
  perform now (mark_resolved_unconfirmed l t remote at' next) db =
      (Terminal.mark_resolved_unconfirmed oq l t remote at' next db).1
  perform now (mark_completed l t remote at') db = (Terminal.mark_completed oq l t remote at' db).1
  perform now (terminalize_conversation l c at' next) db =
      (Terminal.terminalize_conversation oq l c at' next db).1
  perform now (schedule_retry l t next) db = (Progress.schedule_retry oq l t next now db).1
  perform now (claim_remote_message l t c remote next) db =
      (Progress.claim_remote_message oq l t c remote next now db).1
  perform now (delete_prepared l t) db = (Progress.delete_prepared oq l t db).1
  perform now (delete_not_submitted l t) db = (Progress.delete_not_submitted oq l t db).1
  perform now (delete_unconfirmed l t) db = (Progress.delete_unconfirmed oq l t db).1

  -- A sequence of calls, each with the time that it is made at.
  unfoldable pub perform_all : List (Time × Call) → Db → Db
  perform_all [] db = db
  perform_all ((now, call) ∷ calls) db = perform_all calls (perform now call db)
