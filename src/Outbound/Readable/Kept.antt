-- ===== src/Outbound/Readable/Kept.antt =====
-- Every call keeps the rows readable; what `Get` and the other reading methods then return.
use tumblr_dms.Prelude.{
  ℕ, ◌<◌, ◌≡◌, refl, Bool, true, false, List, [], ◌∷◌, Option, none, some, String, ok, any, All,
  find, is_blank, ◌∙◌, if◌then◌else◌, arith,
}
use tumblr_dms.Prelude.Time.{Time}
use tumblr_dms.Outbound.Rows.{Row, Db, at_key}
use tumblr_dms.Outbound.Rows.Checked.{IsChecked}
use tumblr_dms.Outbound.Hex.{hex_decode-hex_encode}
use tumblr_dms.Outbound.Send.{PortalKey, OutboundSend, OutboundSendQuery, load, validate_identity}
use tumblr_dms.Outbound.Create.{new_row, marshal_baseline, ne}
use tumblr_dms.Outbound.Statements.{
  prepare_set, submitting_set, not_submitted_set, claim_status_set, finish_status_set,
  release_status_set, bind_set, awaiting_set, uncertain_set, unconfirmed_set, completed_set,
  retry_set, claim_remote_set, terminalize_set,
}
use tumblr_dms.Outbound.Reading.{get, query_one}
use tumblr_dms.Outbound.Calls.{Call, perform_all}
use tumblr_dms.Outbound.Framework.{HasHash, IsCall}
use tumblr_dms.Outbound.Framework.Tables.{Table, Preserves-insert_send}
use tumblr_dms.Outbound.Framework.Endings.{SetsKeep, Updates-Table}
use tumblr_dms.Outbound.Framework.Runs.{perform_all_rule}
use tumblr_dms.Outbound.Readable.{IsReadable, scan-IsReadable, has_ended}

baseline_of_marshal :
    (ids baseline : List String)
    → marshal_baseline ids ≡ ok baseline
    → any is_blank baseline ≡ false
unfolding marshal_baseline
baseline_of_marshal ids baseline h = ground arith

module _ {oq : OutboundSendQuery} where
  new_row-IsReadable :
      (send : OutboundSend) (baseline : List String) (now : ℕ)
      → HasHash send
      → validate_identity oq send ≡ none
      → marshal_baseline send.baseline_message_ids ≡ ok baseline
      → IsReadable oq (new_row oq send baseline now)
  unfolding new_row load validate_identity
  new_row-IsReadable send baseline now hash identity marshalled = record {
    hash = send.content_hash;
    decodes = hex_decode-hex_encode send.content_hash hash.1;
    baseline = baseline_of_marshal _ _ marshalled;
    identity = identity;
    ended = ground arith;
  }

  -- A row whose identity columns and hash are those of a readable one.
  same_identity :
      (r : Row) (s : Row)
      → IsReadable oq r
      → s.content_hash ≡ r.content_hash
      → any is_blank s.baseline_ids ≡ false
      → validate_identity oq (load s []) ≡ validate_identity oq (load r [])
      → (has_ended s.state ≡ true → 0 < s.terminal_ts)
      → IsReadable oq s
  same_identity r s q same baseline identity ended = record {
    hash = q.hash;
    decodes = rw same q.decodes;
    baseline = baseline;
    identity = identity ∙ q.identity;
    ended = ended;
  }

  bind-IsReadable :
      (l t c : String) (key : PortalKey) (db : Db) (next now : ℕ) (r : Row)
      → oq.key_is_empty key ≡ false
      → ne key.id c ≡ false
      → IsReadable oq r
      → IsReadable oq (bind_set key.id key.receiver c next now r)
  unfolding bind_set load validate_identity
  bind-IsReadable l t c key db next now r given same q = record {
    hash = q.hash;
    decodes = q.decodes;
    baseline = q.baseline;
    identity = ground (arith, q.identity);
    ended = q.ended;
  }

  IsReadable-sets : SetsKeep oq (IsReadable oq)
  unfolding load validate_identity prepare_set submitting_set not_submitted_set claim_status_set
      finish_status_set release_status_set awaiting_set uncertain_set retry_set claim_remote_set
      unconfirmed_set completed_set terminalize_set
  IsReadable-sets = record {
    prepare = λ l t c next now r h0 w _ _ q. same_identity r _ q refl q.baseline refl q.ended;
    submit = λ l t ids baseline started next now r m w _ _ q.
        same_identity r _ q refl (baseline_of_marshal ids baseline m) refl (λ e. cc);
    fail_prepared =
        λ l t terminal next r p w _ _ q. same_identity r _ q refl q.baseline refl (λ e. p);
    fail_submitting =
        λ l t terminal next r p w _ _ q. same_identity r _ q refl q.baseline refl (λ e. p);
    claim_status =
        λ l t token expires now r w _ _ q. same_identity r _ q refl q.baseline refl q.ended;
    finish_status =
        λ l t token notified next r w _ _ q. same_identity r _ q refl q.baseline refl q.ended;
    release_status = λ l t token now r w _ _ q. same_identity r _ q refl q.baseline refl q.ended;
    bind = λ l t c key db next now r blank given same w _ _ q.
        bind-IsReadable l t c key db next now r given same q;
    await_echo = λ l t next now r w _ _ q. same_identity r _ q refl q.baseline refl (λ e. cc);
    doubt = λ l t next now r w _ _ q. same_identity r _ q refl q.baseline refl (λ e. cc);
    retry = λ l t next now r w _ _ q. same_identity r _ q refl q.baseline refl q.ended;
    claim_remote = λ l t c remote db next now r given w _ _ q.
        same_identity r _ q refl q.baseline refl (λ e. cc);
    unconfirm = λ l t terminal next r p w _ _ q. same_identity r _ q refl q.baseline refl (λ e. p);
    unconfirm_resolved =
        λ l t remote terminal next r p w _ _ q. same_identity r _ q refl q.baseline refl (λ e. p);
    complete =
        λ l t remote terminal next r p w _ _ q. same_identity r _ q refl q.baseline refl (λ e. p);
    terminalize =
        λ l c terminal next r p w _ _ q. same_identity r _ q refl q.baseline refl (λ e. p);
  }

  -- Every sequence of calls keeps the table readable.
  pub perform_all-IsReadable :
      (calls : List (Time × Call)) (db : Db)
      → All (λ c. IsCall c.1) calls
      → Table (IsReadable oq) db
      → Table (IsReadable oq) (perform_all oq calls db)
  perform_all-IsReadable = perform_all_rule (record {
    insert = λ send baseline now hash identity fresh marshalled.
        Preserves-insert_send _ (λ c. new_row-IsReadable send baseline _ hash identity marshalled);
    updates = Updates-Table IsReadable-sets;
  })

found_readable :
    (oq : OutboundSendQuery) (r : Row) (b : Bool) (rest : Option Row)
    → IsChecked r
    → IsReadable oq r
    → ((found : Option OutboundSend) × (query_one oq rest ≡ ok found))
    → (found : Option OutboundSend) × (query_one oq (if b then some r else rest) ≡ ok found)
found_readable oq r true rest c q later =
    (some (load r q.hash), rw (query_one, scan-IsReadable oq r c q))
found_readable oq r false rest c q later = later

find_readable :
    (oq : OutboundSendQuery) (p : Row → Bool) (rs : List Row)
    → All IsChecked rs
    → All (IsReadable oq) rs
    → (found : Option OutboundSend) × (query_one oq (find p rs) ≡ ok found)
find_readable oq p [] _ _ = (none, refl)
find_readable oq p (r ∷ rs) (c, cs) (q, qs) =
    found_readable oq r (p r) (find p rs) c q (find_readable oq p rs cs qs)

-- After any calls, whatever they were, `Get` reads the send that a login and a transaction name, or finds
-- that there is none: the row never fails the validation of `Scan`.
pub get_succeeds :
    (oq : OutboundSendQuery) (calls : List (Time × Call)) (db : Db) (l t : String)
    → All (λ c. IsCall c.1) calls
    → Table (IsReadable oq) db
    → is_blank l ≡ false
    → is_blank t ≡ false
    → (found : Option OutboundSend) × (get oq l t (perform_all oq calls db) ≡ ok found)
unfolding get
get_succeeds oq calls db l t cs h login txn =
    let h' = perform_all-IsReadable calls db cs h in
    let (found, e) = find_readable oq (at_key oq.bridge_id l t) _ h'.checked h'.rows in
    (found, rw (login, txn) e)
