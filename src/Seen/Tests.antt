-- ===== src/Seen/Tests.antt =====
-- Runs of the cache of pkg/connector/sync.go at concrete values.
use tumblr_dms.Prelude.{◌≡◌, refl, Bool, true, false, [], ◌∷◌, none, arith, str_eq, ◌||◌}
use tumblr_dms.Prelude.Time.{instant}
use tumblr_dms.Inbox.{Remote, valid_remote_id}
use tumblr_dms.Seen.{
  Cache, forget_oldest, store_seen_message, is_message_seen, seen_message_cache_key, mark_messages,
}
use tumblr_dms.Seen.Bounded.{IsCache, mark_messages-IsCache, marked_message_not_new}

abbrev remote : Remote
remote = record {
  trim = λ s. s;
  runes = λ s. 1;
  space_or_control = λ s. false;
  parse_before = λ s. none;
  ready = true;
  fetch = λ page before. none;
  lock = λ n. true;
  now = λ n. instant n;
}

abbrev cache : Cache
cache = record { seen = "2" ∷ "1" ∷ []; order = "1" ∷ "2" ∷ [] }

cache-IsCache : IsCache 2 cache
cache-IsCache =
    (record { once = refl; same = λ k. or_swap (str_eq k "2") (str_eq k "1") }, omega arith)
  where
    or_swap : (a b : Bool) → (a || (b || false)) ≡ (b || (a || false))
    or_swap true true = refl
    or_swap true false = refl
    or_swap false true = refl
    or_swap false false = refl

-- The oldest is forgotten.
mark_test :
    mark_messages remote 2 "" ("2" ∷ "3" ∷ []) cache
    ≡ ("3" ∷ [], record { seen = "3" ∷ "2" ∷ []; order = "2" ∷ "3" ∷ [] })
unfolding mark_messages valid_remote_id is_message_seen seen_message_cache_key store_seen_message
    forget_oldest
mark_test = refl

mark_messages-IsCache_example : IsCache 2 (mark_messages remote 2 "" ("2" ∷ "3" ∷ []) cache).1
mark_messages-IsCache_example =
    mark_messages-IsCache remote 2 "" ("2" ∷ "3" ∷ []) cache cache-IsCache

marked_message_not_new_example :
    mark_messages remote 2 "" ("3" ∷ []) (mark_messages remote 2 "" ("3" ∷ []) cache).1
    ≡ ([], (mark_messages remote 2 "" ("3" ∷ []) cache).1)
marked_message_not_new_example =
    marked_message_not_new remote 2 "" "3" cache (omega arith) cache-IsCache
