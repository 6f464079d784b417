-- ===== src/Sync.antt =====
-- pkg/connector/tumblrdb/syncstate.go and pkg/connector/tumblrdb/conversation_sync.go: what the bridge knows of
-- the remote inbox, per login and per conversation.
pub mod Watermark
pub mod Heads
mod Tests
use tumblr_dms.Prelude.{
  ℕ, ◌≡◌, Bool, true, false, not, ◌&&◌, ◌||◌, List, [], ◌∷◌, Option, none, some, String, ltb,
  str_eq, if◌then◌else◌, any, find, update_where, delete_where,
}
use tumblr_dms.Prelude.Time.{Time, unix_milli, time_from_millis}

-- A row of tumblr_sync_state.
pub record StateRow : Type 0 where
  pub bridge_id : String
  pub user_login_id : String
  pub last_remote_watermark_ts : ℕ
  pub last_scan_success_ts : ℕ

pub record SyncState : Type 0 where
  pub bridge_id : String
  pub user_login_id : String
  pub last_remote_watermark : ℕ
  pub last_scan_success_at : Time

-- (state *SyncState) Scan
unfoldable pub scan_state : StateRow → SyncState
scan_state r = record {
  bridge_id = r.bridge_id;
  user_login_id = r.user_login_id;
  last_remote_watermark = r.last_remote_watermark_ts;
  last_scan_success_at = time_from_millis r.last_scan_success_ts;
}

-- The CHECK constraints of tumblr_conversation_sync.
pub data CheckError : Type 0 where
  head_message_id_check updated_ts_check : CheckError

-- A row of tumblr_conversation_sync.
pub record HeadRow : Type 0 where
  pub bridge_id : String
  pub user_login_id : String
  pub conversation_id : String
  pub completed_head_message_id : String
  pub updated_ts : ℕ

pub record ConversationSync : Type 0 where
  pub bridge_id : String
  pub user_login_id : String
  pub conversation_id : String
  pub completed_head_message_id : String
  pub updated_at : Time

-- (state *ConversationSync) Scan
unfoldable pub scan_head : HeadRow → ConversationSync
scan_head r = record {
  bridge_id = r.bridge_id;
  user_login_id = r.user_login_id;
  conversation_id = r.conversation_id;
  completed_head_message_id = r.completed_head_message_id;
  updated_at = time_from_millis r.updated_ts;
}

module _ (bridge login : String) where
  -- WHERE bridge_id=$1 AND user_login_id=$2
  abbrev pub at_login : StateRow → Bool
  at_login r = str_eq r.bridge_id bridge && str_eq r.user_login_id login

  -- (sq *SyncStateQuery) Get
  unfoldable pub get_state : List StateRow → Option SyncState
  get_state rows = elim (find at_login rows) [ none ↦ none | some r ↦ some (scan_state r) ]

  -- setScanSuccessQuery: DO UPDATE SET
  unfoldable pub scan_success_set : ℕ → ℕ → StateRow → StateRow
  scan_success_set watermark at r = record r {
    last_remote_watermark_ts =
        if ltb r.last_remote_watermark_ts watermark then watermark else r.last_remote_watermark_ts;
    last_scan_success_ts = at;
  }

  -- SetScanSuccess
  unfoldable pub set_scan_success : ℕ → Time → List StateRow → List StateRow
  set_scan_success watermark at rows =
      if any at_login rows
      then update_where at_login (scan_success_set watermark (unix_milli at)) rows
      else record {
        bridge_id = bridge;
        user_login_id = login;
        last_remote_watermark_ts = watermark;
        last_scan_success_ts = unix_milli at;
      }
        ∷ rows

module _ (bridge login conversation : String) where
  -- WHERE bridge_id=$1 AND user_login_id=$2 AND conversation_id=$3
  abbrev pub at_conversation : HeadRow → Bool
  at_conversation r =
      str_eq r.bridge_id bridge
      && str_eq r.user_login_id login
      && str_eq r.conversation_id conversation

  -- (cq *ConversationSyncQuery) Get
  unfoldable pub get_head : List HeadRow → Option ConversationSync
  get_head rows = elim (find at_conversation rows) [ none ↦ none | some r ↦ some (scan_head r) ]

  -- setConversationSyncQuery, on values that the CHECK constraints allow.
  unfoldable pub store_head : String → Time → List HeadRow → List HeadRow
  store_head message at rows =
      if any at_conversation rows
      then update_where at_conversation
          (λ r. record r { completed_head_message_id = message; updated_ts = unix_milli at }) rows
      else record {
        bridge_id = bridge;
        user_login_id = login;
        conversation_id = conversation;
        completed_head_message_id = message;
        updated_ts = unix_milli at;
      }
        ∷ rows

  -- SetCompletedHead: the error, if a CHECK refuses the row, and the rows.
  unfoldable pub set_completed_head :
      String → Time → List HeadRow → Option CheckError × List HeadRow
  set_completed_head message at rows =
      if str_eq message ""
      then (some head_message_id_check, rows)
      else if not (ltb 0 (unix_milli at))
      then (some updated_ts_check, rows)
      else (none, store_head message at rows)

  -- (cq *ConversationSyncQuery) Delete
  unfoldable pub delete_head : List HeadRow → List HeadRow
  delete_head rows = delete_where at_conversation rows
