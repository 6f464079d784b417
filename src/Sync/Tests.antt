-- ===== src/Sync/Tests.antt =====
-- Runs of pkg/connector/tumblrdb/syncstate.go and conversation_sync.go at concrete values, and instances of the
-- theorems.
use tumblr_dms.Prelude.{
  ℕ, ◌≡◌, ◌≢◌, refl, max, List, [], ◌∷◌, none, some, String, str_eq, eq_iff, true, false, is_some,
}
use tumblr_dms.Prelude.Time.{Time, instant}
use tumblr_dms.Sync.{
  StateRow, HeadRow, head_message_id_check, get_state, set_completed_head, get_head, delete_head,
}
use tumblr_dms.Sync.Watermark.{seen, scans, highest, watermark_is_highest}
use tumblr_dms.Sync.Heads.{head, get-set_completed_head, get-set_other}

abbrev states : List StateRow
states =
    record {
      bridge_id = "bridge";
      user_login_id = "login";
      last_remote_watermark_ts = 40;
      last_scan_success_ts = 41;
    }
    ∷ []

abbrev heads : List HeadRow
heads =
    record {
      bridge_id = "bridge";
      user_login_id = "login";
      conversation_id = "12";
      completed_head_message_id = "m1";
      updated_ts = 5;
    }
    ∷ []

abbrev late_scans : List (ℕ × Time)
late_scans = (90, instant 1) ∷ (70, instant 2) ∷ []

watermark_is_highest_example :
    (seen (get_state "bridge" "login" (scans "bridge" "login" late_scans states))).0
    ≡ max (seen (get_state "bridge" "login" states)).0 (highest late_scans)
watermark_is_highest_example = watermark_is_highest "bridge" "login" late_scans states

get-set_completed_head_example :
    (is_some (set_completed_head "bridge" "login" "12" "m2" (instant 1) heads).0 ≡ false)
    × (head (
          get_head "bridge" "login" "12"
            (set_completed_head "bridge" "login" "12" "m2" (instant 1) heads).1)
        ≡ some "m2")
    × (head (get_head "bridge" "login" "12" (delete_head "bridge" "login" "12" heads)) ≡ none)
get-set_completed_head_example = get-set_completed_head "bridge" "login" "12" "m2" (instant 1) heads

-- An empty message is refused.
refused_test :
    set_completed_head "bridge" "login" "12" "" (instant 1) heads
    ≡ (some head_message_id_check, heads)
unfolding set_completed_head
refused_test = refl

twelve_ne_thirteen : ◌≢◌ {A = String} "12" "13"
twelve_ne_thirteen e = let same : str_eq "12" "13" ≡ true = (eq_iff "12" "13").1 e in cc same

get-set_other_example :
    (get_head "bridge" "login" "12"
        (set_completed_head "bridge" "login" "13" "m2" (instant 1) heads).1
      ≡ get_head "bridge" "login" "12" heads)
    × (get_head "bridge" "login" "12" (delete_head "bridge" "login" "13" heads)
        ≡ get_head "bridge" "login" "12" heads)
get-set_other_example =
    get-set_other "bridge" "login" "13" "12" twelve_ne_thirteen "m2" (instant 1) heads
