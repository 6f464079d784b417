-- ===== src/Outbound/Readable.antt =====
-- `Scan` reads every row that the methods write: the constraints of the schema and what the methods keep
-- besides are enough for each of its tests.
pub mod Kept
use tumblr_dms.Prelude.{
  ℕ, zero, suc, ◌*◌, ◌<◌, ◌≡◌, refl, sym, Bool, true, false, not, ◌&&◌, ◌||◌, List, [], ◌∷◌, Option,
  none, some, String, ok, err, any, all, length, is_blank, arith, ◌==◌, Bool-cases, inl, inr,
  if◌then◌else◌,
}
use tumblr_dms.Prelude.Time.{
  Time, time_from_millis, is_zero-time_from_millis, after-time_from_millis, is_zero, after,
}
use tumblr_dms.Outbound.Rows.{
  State, prepared, submitting, awaiting_echo, uncertain, resolved, completed, not_submitted,
  unconfirmed, Row, Error, check_row, is_failure, is_completed, is_empty,
}
use tumblr_dms.Outbound.Rows.Checked.{IsChecked, IsChecked-check_row}
use tumblr_dms.Outbound.Hex.{hex_decode, length-hex_decode, is_lower_hex_digest}
use tumblr_dms.Outbound.Send.{
  OutboundSend, OutboundSendQuery, load, validate_identity, scan_status, scan_terminal, scan_switch,
  scan_pending, scan_state, scan_checks, scan_hash, scan,
}

-- A state that only a send that has ended is in.
abbrev pub has_ended : State → Bool
has_ended s = is_failure s || is_completed s

-- What the methods keep of a row besides the constraints of the schema.
pub record IsReadable (oq : OutboundSendQuery) (r : Row) : Type 0 where
  pub hash : List ℕ
  pub decodes : hex_decode r.content_hash ≡ some hash
  pub baseline : any is_blank r.baseline_ids ≡ false
  pub identity : validate_identity oq (load r []) ≡ none
  pub ended : has_ended r.state ≡ true → 0 < r.terminal_ts

module _ (oq : OutboundSendQuery) (r : Row) (h : List ℕ) where
  load_identity : validate_identity oq (load r []) ≡ none → validate_identity oq (load r h) ≡ none
  unfolding validate_identity load
  load_identity e = e

  digest_of_identity :
      validate_identity oq (load r h) ≡ none
      → (not (is_empty r.source_media_digest) && not (is_lower_hex_digest r.source_media_digest 32))
        ≡ false
  unfolding validate_identity load
  digest_of_identity e = ground arith

module _ (r : Row) (h : List ℕ) (c : IsChecked r) where
  scan_status-IsChecked : scan_status (load r h) ≡ none
  unfolding scan_status load
  scan_status-IsChecked = simp is_zero-time_from_millis (ground arith)

  scan_terminal-IsChecked : 0 < r.terminal_ts → scan_terminal (load r h) ≡ none
  unfolding scan_terminal load
  scan_terminal-IsChecked e =
      rw (after-time_from_millis r.next_attempt_ts r.terminal_ts e) (ground arith)

  scan_pending-IsChecked : has_ended r.state ≡ false → scan_pending (load r h) ≡ none
  unfolding scan_pending scan_switch load
  scan_pending-IsChecked e = ground arith

module _ (oq : OutboundSendQuery) (r : Row) (c : IsChecked r) (i : IsReadable oq r) where
  scan_state-IsChecked : scan_state (load r i.hash) ≡ none
  unfolding scan_state load
  scan_state-IsChecked = elim (Bool-cases (r.terminal_ts == 0)) [
    | inl open_row ↦
        rw (is_zero-time_from_millis, open_row)
          (unfold load in scan_pending-IsChecked r i.hash c (ground (arith, i.ended)))
    | inr ended_row ↦
        rw (is_zero-time_from_millis, ended_row)
          (unfold load in scan_terminal-IsChecked r i.hash c (ground arith))
  ]

  length_hash : length i.hash ≡ 32
  length_hash = omega (arith, length-hex_decode r.content_hash i.hash i.decodes, c.hash_length)

  scan_checks-IsReadable : scan_checks oq (load r i.hash) ≡ none
  unfolding scan_checks load
  scan_checks-IsReadable =
      let identity = load_identity oq r i.hash i.identity in
      ground (
        arith,
        identity,
        digest_of_identity oq r i.hash identity,
        i.baseline,
        scan_state-IsChecked,
        scan_status-IsChecked r i.hash c,
      )

  -- A row that passes the CHECKs and keeps what the methods keep is read.
  pub scan-IsReadable : scan oq r ≡ ok (load r i.hash)
  unfolding scan
  scan-IsReadable = rw (i.decodes, length_hash, scan_checks-IsReadable)
