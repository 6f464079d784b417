-- ===== src/Outbound/Rows/Checked.antt =====
-- The CHECK constraints as statements about a row, in both directions.
use tumblr_dms.Prelude.{
  ◌<◌, ◌≡◌, ◌⊎◌, Bool, true, false, not, ◌&&◌, ◌||◌, arith, ◌==◌, length, codes,
}
use tumblr_dms.Outbound.Rows.{
  Row, check_row, check_texts, check_status, check_terminal, check_identity, check_times, is_empty,
  is_failure, is_completed, has_remote, needs_conversation,
}

pub record IsChecked (r : Row) : Type 0 where
  pub hash_length : length r.content_hash ≡ 64
  pub digest_length :
      (is_empty r.source_media_digest || length (codes r.source_media_digest) == 32) ≡ true
  pub room : is_empty r.matrix_room_id ≡ false
  pub binding : (is_empty r.binding_conversation_id || is_empty r.conversation_id) ≡ true
  pub claim :
      ((is_empty r.status_claim_token ≡ true) × (r.status_claim_expires_ts ≡ 0))
      ⊎ ((is_empty r.status_claim_token ≡ false)
          × (0 < r.status_claim_expires_ts)
          × (0 < r.terminal_ts)
          × (is_failure r.state ≡ true))
  pub notified :
      (r.status_notified_ts ≡ 0)
      ⊎ ((is_empty r.status_claim_token ≡ true) × (0 < r.terminal_ts) × (is_failure r.state ≡ true))
  pub terminal :
      (r.terminal_ts ≡ 0)
      ⊎ ((r.terminal_ts < r.next_attempt_ts)
          × (((is_failure r.state ≡ true) × (is_empty r.remote_message_id ≡ true))
              ⊎ ((is_completed r.state ≡ true) × (is_empty r.remote_message_id ≡ false))))
  pub remote : has_remote r.state ≡ not (is_empty r.remote_message_id)
  pub bound : (not (needs_conversation r.state) || not (is_empty r.conversation_id)) ≡ true
  pub next : 0 < r.next_attempt_ts
  pub started : 0 < r.send_started_ts
  pub created : 0 < r.created_ts
  pub updated : 0 < r.updated_ts

all_five :
    (a b c d e : Bool)
    → (a && b && c && d && e) ≡ true
    → (a ≡ true) × (b ≡ true) × (c ≡ true) × (d ≡ true) × (e ≡ true)
all_five a b c d e h = ground arith

-- A row that passes every CHECK.
pub IsChecked-check_row : (r : Row) → check_row r ≡ true → IsChecked r
unfolding check_row
IsChecked-check_row r h =
    let (t, s, n, i, m) =
      all_five (check_texts r) (check_status r) (check_terminal r) (check_identity r)
        (check_times r) h in
    record {
      hash_length = unfold check_texts in (ground arith);
      digest_length = unfold check_texts in (ground arith);
      room = unfold check_texts in (ground arith);
      binding = unfold check_texts in (ground arith);
      claim = unfold check_status in (ground arith);
      notified = unfold check_status in (ground arith);
      terminal = unfold check_terminal in (ground arith);
      remote = unfold check_identity in (ground arith);
      bound = unfold check_identity in (ground arith);
      next = unfold check_times in (ground arith);
      started = unfold check_times in (ground arith);
      created = unfold check_times in (ground arith);
      updated = unfold check_times in (ground arith);
    }

check_row-IsChecked : (r : Row) → IsChecked r → check_row r ≡ true
unfolding check_row check_texts check_status check_terminal check_identity check_times
check_row-IsChecked r c = ground arith
