-- ===== src/Outbound/Framework/Methods.antt =====
-- Each method keeps what its statements keep.
use tumblr_dms.Prelude.{List, String}
use tumblr_dms.Prelude.Preserves.{Preserves, Preserves-then, Preserves-guard, Preserves-lift-bind}
use tumblr_dms.Prelude.Time.{Time}
use tumblr_dms.Outbound.Rows.{Db}
use tumblr_dms.Outbound.Send.{PortalKey, OutboundSendQuery}
use tumblr_dms.Outbound.Progress.{with_db, require_pending, unless_changed, judge}
use tumblr_dms.Outbound.Progress
use tumblr_dms.Outbound.Terminal.{
  complete_txn, terminalize_txn, mark_not_submitted, terminalize, ensure_receipts,
}
use tumblr_dms.Outbound.Terminal
use tumblr_dms.Outbound.Framework.{
  Stable, leaves, Preserves-reject_some, Preserves-judge, Preserves-require_pending,
}

module _ {oq : OutboundSendQuery} {P : Db → Type 0} (st : Stable oq P) (l t : String) where
  pub Preserves-prepare :
      (c : String) (next now : Time)
      → Preserves P (Progress.prepare_conversation_binding oq l t c next now)
  unfolding Progress.prepare_conversation_binding
  Preserves-prepare c next now =
      Preserves-guard _ _ _ λ blank. search (leaves, Preserves-judge, st.prepare)

  pub Preserves-mark_submitting :
      (ids : List String) (started next now : Time)
      → Preserves P (Progress.mark_submitting oq l t ids started next now)
  unfolding Progress.mark_submitting
  Preserves-mark_submitting ids started next now = Preserves-guard _ _ _ λ valid.
      Preserves-then _ _ (Preserves-reject_some _)
        (Preserves-lift-bind _ _ λ baseline e. st.submit l t ids baseline _ _ _ e)

  pub Preserves-bind_conversation :
      (c : String) (key : PortalKey) (next now : Time)
      → Preserves P (Progress.bind_conversation oq l t c key next now)
  unfolding Progress.bind_conversation
  Preserves-bind_conversation c key next now = Preserves-guard _ _ _ λ blank.
      Preserves-guard _ _ _
        λ empty. Preserves-guard _ _ _ λ same. search (leaves, Preserves-judge, st.bind)

  pub Preserves-mark_awaiting_echo :
      (next now : Time) → Preserves P (Progress.mark_awaiting_echo oq l t next now)
  unfolding Progress.mark_awaiting_echo
  Preserves-mark_awaiting_echo next now = search (leaves, Preserves-require_pending, st.await_echo)

  pub Preserves-mark_uncertain :
      (next now : Time) → Preserves P (Progress.mark_uncertain oq l t next now)
  unfolding Progress.mark_uncertain
  Preserves-mark_uncertain next now = search (leaves, Preserves-require_pending, st.doubt)

  pub Preserves-schedule_retry :
      (next now : Time) → Preserves P (Progress.schedule_retry oq l t next now)
  unfolding Progress.schedule_retry
  Preserves-schedule_retry next now = search (leaves, Preserves-require_pending, st.retry)

  pub Preserves-claim_remote_message :
      (c remote : String) (next now : Time)
      → Preserves P (Progress.claim_remote_message oq l t c remote next now)
  unfolding Progress.claim_remote_message
  Preserves-claim_remote_message c remote next now =
      Preserves-guard _ _ _ λ blank. Preserves-guard _ _ _ λ given. search (leaves, st.claim_remote)

  pub Preserves-delete_prepared : Preserves P (Progress.delete_prepared oq l t)
  unfolding Progress.delete_prepared
  Preserves-delete_prepared = st.drop_prepared l t

  pub Preserves-delete_not_submitted : Preserves P (Progress.delete_not_submitted oq l t)
  unfolding Progress.delete_not_submitted
  Preserves-delete_not_submitted = st.drop_not_submitted l t

  pub Preserves-delete_unconfirmed : Preserves P (Progress.delete_unconfirmed oq l t)
  unfolding Progress.delete_unconfirmed
  Preserves-delete_unconfirmed = st.drop_unconfirmed l t

  pub Preserves-claim_prepared_not_submitted :
      (terminal next : Time)
      → Preserves P (Terminal.claim_prepared_not_submitted oq l t terminal next)
  unfolding Terminal.claim_prepared_not_submitted mark_not_submitted
  Preserves-claim_prepared_not_submitted terminal next =
      Preserves-guard _ _ _ λ given. search (leaves, st.fail_prepared)

  pub Preserves-mark_submitting_not_submitted :
      (terminal next : Time)
      → Preserves P (Terminal.mark_submitting_not_submitted oq l t terminal next)
  unfolding Terminal.mark_submitting_not_submitted mark_not_submitted
  Preserves-mark_submitting_not_submitted terminal next =
      Preserves-guard _ _ _ λ given. search (leaves, st.fail_submitting)

  pub Preserves-claim_status_delivery :
      (token : String) (expires now : Time)
      → Preserves P (Terminal.claim_status_delivery oq l t token expires now)
  unfolding Terminal.claim_status_delivery
  Preserves-claim_status_delivery token expires now =
      Preserves-guard _ _ _ λ given. search (leaves, st.claim_status)

  pub Preserves-finish_status_delivery :
      (token : String) (notified expires : Time)
      → Preserves P (Terminal.finish_status_delivery oq l t token notified expires)
  unfolding Terminal.finish_status_delivery
  Preserves-finish_status_delivery token notified expires =
      Preserves-guard _ _ _
        λ blank. Preserves-guard _ _ _ λ given. search (leaves, st.finish_status) depth 7

  pub Preserves-release_status_delivery :
      (token : String) (now : Time)
      → Preserves P (Terminal.release_status_delivery oq l t token now)
  unfolding Terminal.release_status_delivery
  Preserves-release_status_delivery token now = search (leaves, st.release_status)

  pub Preserves-mark_unconfirmed :
      (terminal next : Time) → Preserves P (Terminal.mark_unconfirmed oq l t terminal next)
  unfolding Terminal.mark_unconfirmed
  Preserves-mark_unconfirmed terminal next =
      Preserves-guard _ _ _ λ given. search (leaves, st.unconfirm)

  pub Preserves-mark_resolved_unconfirmed :
      (remote : String) (terminal next : Time)
      → Preserves P (Terminal.mark_resolved_unconfirmed oq l t remote terminal next)
  unfolding Terminal.mark_resolved_unconfirmed
  Preserves-mark_resolved_unconfirmed remote terminal next =
      Preserves-guard _ _ _
        λ blank. Preserves-guard _ _ _ λ given. search (leaves, st.unconfirm_resolved)

  pub Preserves-mark_completed :
      (remote : String) (terminal : Time)
      → Preserves P (Terminal.mark_completed oq l t remote terminal)
  unfolding Terminal.mark_completed
  Preserves-mark_completed remote terminal =
      Preserves-guard _ _ _
        λ blank. Preserves-guard _ _ _ λ given. st.complete l t remote terminal given

  pub Preserves-terminalize_conversation :
      (terminal next : Time) → Preserves P (Terminal.terminalize_conversation oq l t terminal next)
  unfolding Terminal.terminalize_conversation
  Preserves-terminalize_conversation terminal next = Preserves-guard _ _ _ λ login.
      Preserves-guard _ _ _ λ blank.
        Preserves-guard _ _ _
          λ given. Preserves-guard _ _ _ λ later. st.terminalize l t terminal next given
