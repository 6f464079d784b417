-- ===== src/Seen.antt =====
-- The cache of seen messages of pkg/connector/sync.go: which messages of a conversation the bridge has taken already. It
-- is bounded, and forgets the oldest first. The code's maximum is 10000, maxSeenMessages.
pub mod Bounded
mod Tests
use Prim.Native.String.{◌++◌}
use tumblr_dms.Prelude.{
  ℕ, zero, suc, ◌≡◌, Bool, true, false, not, ◌&&◌, ◌||◌, List, [], ◌∷◌, String, ltb, str_eq,
  if◌then◌else◌, length, delete_where,
}
use tumblr_dms.Prelude.Maps.{has}
use tumblr_dms.Inbox.{Remote, valid_remote_id}

-- seenMessages and seenMessageOrder.
pub record Cache : Type 0 where
  pub seen : List String
  pub order : List String

abbrev pub append : List String → String → List String
append [] k = k ∷ []
append (x ∷ xs) k = x ∷ append xs k

-- The loop of storeSeenMessageLocked over an order and the set: `delete(seenMessages, order[0])` while it is too long.
unfoldable pub forget_oldest : ℕ → List String → List String → Cache
forget_oldest max_seen [] seen = record { seen = seen; order = [] }
forget_oldest max_seen (k ∷ order) seen =
    let rest = forget_oldest max_seen order (delete_where (str_eq k) seen) in
    if ltb max_seen (length (k ∷ order)) then rest else record { seen = seen; order = k ∷ order }

-- storeSeenMessageLocked, for a maximum of `max_seen` messages.
unfoldable pub store_seen_message : ℕ → String → Cache → Cache
store_seen_message max_seen key c =
    if has key c.seen then c else forget_oldest max_seen (append c.order key) (key ∷ c.seen)

-- isMessageSeenLocked
unfoldable pub is_message_seen : String → String → Cache → Bool
is_message_seen key id c = has key c.seen || (not (str_eq key id) && has id c.seen)

-- seenMessageCacheKey
unfoldable pub seen_message_cache_key : String → String → String
seen_message_cache_key conversation id =
    if str_eq conversation "" then id else conversation ++ ("\0" ++ id)

module _ (remote : Remote) (max_seen : ℕ) (conversation : String) where
  -- The loop of markConversationSeen over the sorted messages, given by their IDs: those that are new, and the cache.
  unfoldable pub mark_messages : List String → Cache → List String × Cache
  mark_messages [] c = ([], c)
  mark_messages (id ∷ ids) c =
      let key = seen_message_cache_key conversation id in
      let skip = not (valid_remote_id remote id) || is_message_seen key id c in
      let (later, c') = mark_messages ids (if skip then c else store_seen_message max_seen key c) in
      (if skip then later else id ∷ later, c')
