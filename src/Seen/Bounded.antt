-- ===== src/Seen/Bounded.antt =====
-- What the cache of pkg/connector/sync.go keeps through its operations.
use tumblr_dms.Prelude.{
  ℕ, suc, ◌≤◌, ◌<◌, ◌≡◌, refl, sym, ap, ◌∙◌, inl, inr, Bool, true, false, not, ◌&&◌, ◌||◌, List, [],
  ◌∷◌, String, ltb, str_eq, eq_iff, eq_refl, if◌then◌else◌, length, all, no_conflict, delete_where,
  arith, Bool-cases, and_split,
}
use tumblr_dms.Prelude.Maps.{has}
use tumblr_dms.Inbox.{Remote, valid_remote_id}
use tumblr_dms.Seen.{
  Cache, append, forget_oldest, store_seen_message, is_message_seen, seen_message_cache_key,
  mark_messages,
}

-- The order has each key once, and the keys of the set.
pub record IsConsistent (seen order : List String) : Type 0 where
  pub once : no_conflict str_eq order ≡ true
  pub same : (k : String) → has k seen ≡ has k order

has-append :
    (k key : String) (order : List String)
    → has k (append order key) ≡ (has k order || str_eq k key)
has-append k key [] = refl_or (str_eq k key)
  where
    refl_or : (b : Bool) → (b || false) ≡ b
    refl_or true = refl
    refl_or false = refl
has-append k key (x ∷ order) = ground (arith, has-append k key order)

length-append :
    (key : String) (order : List String) → length (append order key) ≡ suc (length order)
length-append key [] = refl
length-append key (x ∷ order) = ap suc (length-append key order)

all-unlike :
    (k : String) (xs : List String)
    → has k xs ≡ false
    → all (λ x. if str_eq k x then false else true) xs ≡ true
all-unlike k [] h = refl
all-unlike k (x ∷ xs) h = ground (arith, all-unlike k xs)

unlike-all :
    (k : String) (xs : List String)
    → all (λ x. if str_eq k x then false else true) xs ≡ true
    → has k xs ≡ false
unlike-all k [] h = refl
unlike-all k (x ∷ xs) h = ground (arith, unlike-all k xs)

no_conflict-append :
    (key : String) (order : List String)
    → has key order ≡ false
    → no_conflict str_eq order ≡ true
    → no_conflict str_eq (append order key) ≡ true
no_conflict-append key [] h u = refl
no_conflict-append key (x ∷ order) h u =
    let (alone, rest) =
      and_split (all (λ y. if str_eq x y then false else true) order) (no_conflict str_eq order)
        u in
    let new : has x (append order key) ≡ false =
      ground (arith, has-append x key order, unlike-all x order, eq_iff x key, eq_iff key x) in
    let tail = no_conflict-append key order (ground arith) rest in
    rw (all-unlike x (append order key) new) tail

has-delete_where :
    (k h : String) (xs : List String)
    → has k (delete_where (str_eq h) xs) ≡ (not (str_eq k h) && has k xs)
has-delete_where k h [] = and_false (not (str_eq k h))
  where
    and_false : (b : Bool) → false ≡ (b && false)
    and_false true = refl
    and_false false = refl
has-delete_where k h (x ∷ xs) =
    ground (arith, has-delete_where k h xs, eq_iff h x, eq_iff k x, eq_iff k h)

forget_oldest-IsConsistent :
    (max_seen : ℕ) (order seen : List String)
    → IsConsistent seen order
    → IsConsistent
        (forget_oldest max_seen order seen).seen
        (forget_oldest max_seen order seen).order
      × (length (forget_oldest max_seen order seen).order ≤ max_seen)
unfolding forget_oldest
forget_oldest-IsConsistent max_seen [] seen c = (c, omega arith)
forget_oldest-IsConsistent max_seen (k ∷ order) seen c =
    let (alone, rest) =
      and_split (all (λ y. if str_eq k y then false else true) order) (no_conflict str_eq order)
        c.once in
    let ih = forget_oldest-IsConsistent max_seen order (delete_where (str_eq k) seen) (record {
      once = rest;
      same = λ j.
          ground (arith, has-delete_where j k seen, c.same j, unlike-all k order alone, eq_iff j k);
    }) in
    elim (Bool-cases (ltb max_seen (length (k ∷ order)))) [
      | inl full ↦ rw full ih
      | inr fits ↦ rw fits (c, ground arith)
    ]

-- The cache is consistent and within its maximum.
abbrev pub IsCache : ℕ → Cache → Type 0
IsCache max_seen c = IsConsistent c.seen c.order × (length c.order ≤ max_seen)

pub store_seen_message-IsCache :
    (max_seen : ℕ) (key : String) (c : Cache)
    → IsCache max_seen c
    → IsCache max_seen (store_seen_message max_seen key c)
unfolding store_seen_message
store_seen_message-IsCache max_seen key c (h, bound) = elim (Bool-cases (has key c.seen)) [
  | inl old ↦ rw old (h, bound)
  | inr new ↦ rw new (
      forget_oldest-IsConsistent max_seen (append c.order key) (key ∷ c.seen) (record {
        once = no_conflict-append key c.order (sym (h.same key) ∙ new) h.once;
        same = λ j. ground (arith, has-append j key c.order, h.same j);
      }))
]

or_true_left : (v a b : Bool) → a ≡ true → (not v || (a || b)) ≡ true
or_true_left true a b e = rw e refl
or_true_left false a b e = refl

-- Marking the messages of a conversation keeps the cache consistent, its set and its order with the same keys and none twice,
-- and within its maximum, whatever the messages.
pub mark_messages-IsCache :
    (remote : Remote) (max_seen : ℕ) (conversation : String) (ids : List String) (c : Cache)
    → IsCache max_seen c
    → IsCache max_seen (mark_messages remote max_seen conversation ids c).1
unfolding mark_messages
mark_messages-IsCache remote max_seen conversation [] c h = h
mark_messages-IsCache remote max_seen conversation (id ∷ ids) c h =
    mark_messages-IsCache remote max_seen conversation ids _
      (either (not (valid_remote_id remote id) || is_message_seen key id c))
  where
    key : String
    key = seen_message_cache_key conversation id

    either :
        (skip : Bool) → IsCache max_seen (if skip then c else store_seen_message max_seen key c)
    either true = h
    either false = store_seen_message-IsCache max_seen key c h

-- The newest key is not forgotten.
forget_oldest-keeps :
    (max_seen : ℕ) (key : String) (order seen : List String)
    → 0 < max_seen
    → has key (forget_oldest max_seen (append order key) seen).order ≡ true
unfolding forget_oldest
forget_oldest-keeps max_seen key [] seen h =
    let fits : ltb max_seen 1 ≡ false = ground arith in rw (fits, eq_refl key) refl
forget_oldest-keeps max_seen key (k ∷ order) seen h =
    let ih = forget_oldest-keeps max_seen key order (delete_where (str_eq k) seen) h in
    elim (Bool-cases (ltb max_seen (length (k ∷ append order key)))) [
      | inl full ↦ rw full ih
      | inr fits ↦ rw fits (ground (arith, has-append key key order, eq_refl key))
    ]

store_seen_message-has :
    (max_seen : ℕ) (key : String) (c : Cache)
    → 0 < max_seen
    → IsCache max_seen c
    → has key (store_seen_message max_seen key c).seen ≡ true
unfolding store_seen_message
store_seen_message-has max_seen key c h cache =
    (store_seen_message-IsCache max_seen key c cache).0.same key ∙ in_order
  where
    in_order : has key (store_seen_message max_seen key c).order ≡ true
    in_order = elim (Bool-cases (has key c.seen)) [
      | inl old ↦ rw old (sym (cache.0.same key) ∙ old)
      | inr new ↦ rw new (forget_oldest-keeps max_seen key c.order (key ∷ c.seen) h)
    ]

-- A message of a conversation that has just been marked is not new when it is marked again, and the cache stays as it is, as long
-- as the cache has room for one message.
pub marked_message_not_new :
    (remote : Remote) (max_seen : ℕ) (conversation id : String) (c : Cache)
    → 0 < max_seen
    → IsCache max_seen c
    → mark_messages remote max_seen conversation
        (id ∷ [])
        (mark_messages remote max_seen conversation (id ∷ []) c).1
      ≡ ([], (mark_messages remote max_seen conversation (id ∷ []) c).1)
unfolding mark_messages is_message_seen
marked_message_not_new remote max_seen conversation id c h cache = marked
  where
    key : String
    key = seen_message_cache_key conversation id

    skips : Cache → Bool
    skips x = not (valid_remote_id remote id) || is_message_seen key id x

    again : Cache → List String × Cache
    again x =
        (if skips x then [] else id ∷ [], if skips x then x else store_seen_message max_seen key x)

    again_skipped : (x : Cache) → skips x ≡ true → again x ≡ ([], x)
    again_skipped x e = rw e refl

    stored : skips (store_seen_message max_seen key c) ≡ true
    stored =
        or_true_left (valid_remote_id remote id) (has key (store_seen_message max_seen key c).seen)
          _ (store_seen_message-has max_seen key c h cache)

    marked :
        again (if skips c then c else store_seen_message max_seen key c)
        ≡ ([], if skips c then c else store_seen_message max_seen key c)
    marked = elim (Bool-cases (skips c)) [
      | inl skip ↦ rw skip (again_skipped c skip)
      | inr fresh ↦ rw fresh (again_skipped (store_seen_message max_seen key c) stored)
    ]
