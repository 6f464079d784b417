-- ===== src/Matching/Table.antt =====
-- Maps as association lists, for the matching of pkg/connector/outbound.go.
use tumblr_dms.Prelude.{
  ℕ, suc, ◌+◌, ◌<◌, ◌≡◌, refl, ap, inl, inr, false, List, [], ◌∷◌, none, some, String, ◌==◌, str_eq,
  eq_iff, eq_refl, if◌then◌else◌, length, All, arith, Bool-cases,
}
use tumblr_dms.Prelude.Maps.{lookup, insert}

pub lookup-insert :
    {A : Type 0} (k j : String) (a : A) (m : List (String × A))
    → lookup j (insert k a m) ≡ (if str_eq k j then some a else lookup j m)
lookup-insert k j a [] = refl
lookup-insert k j a ((i, b) ∷ m) =
    ground (arith, eq_iff k j, eq_iff i k, eq_iff i j, lookup-insert k j a m)

pub lookup-insert_self :
    {A : Type 0} (k : String) (a : A) (m : List (String × A)) → lookup k (insert k a m) ≡ some a
lookup-insert_self k a m = rw (lookup-insert k k a m, eq_refl k) refl

pub lookup-insert_other :
    {A : Type 0} (k j : String) (a : A) (m : List (String × A))
    → str_eq k j ≡ false
    → lookup j (insert k a m) ≡ lookup j m
lookup-insert_other k j a m e = rw (lookup-insert k j a m, e) refl

-- How many keys a set has.
abbrev pub claims : ℕ → List (String × ℕ) → ℕ
claims u [] = 0
claims u ((k, t) ∷ m) = (if t == u then 1 else 0) + claims u m

-- A new key.
pub claims-insert_new :
    (u s : ℕ) (k : String) (m : List (String × ℕ))
    → lookup k m ≡ none
    → (claims u (insert k s m) ≡ claims u m + (if s == u then 1 else 0))
      × (length (insert k s m) ≡ suc (length m))
claims-insert_new u s k [] h = ground arith
claims-insert_new u s k ((j, t) ∷ m) h = ground (arith, claims-insert_new u s k m)

-- A key that moves from set `t` to set `s`.
pub claims-insert_old :
    (u s t : ℕ) (k : String) (m : List (String × ℕ))
    → lookup k m ≡ some t
    → (claims u (insert k s m) + (if t == u then 1 else 0) ≡ claims u m + (if s == u then 1 else 0))
      × (length (insert k s m) ≡ length m)
claims-insert_old u s t k [] h = ground arith
claims-insert_old u s t k ((j, r) ∷ m) h = ground (arith, claims-insert_old u s t k m)

-- The entries are what the map says, so no key stands twice.
abbrev pub IsMap : List (String × ℕ) → Type 0
IsMap [] = Unit
IsMap ((k, t) ∷ m) = (lookup k m ≡ none) × IsMap m

pub insert-IsMap : (k : String) (s : ℕ) (m : List (String × ℕ)) → IsMap m → IsMap (insert k s m)
insert-IsMap k s [] h = (refl, tt)
insert-IsMap k s ((j, t) ∷ m) h =
    ground (arith, eq_iff j k, eq_iff k j, lookup-insert k j s m, insert-IsMap k s m)

-- An entry below another.
lookup-below :
    (k j : String) (t r : ℕ) (m : List (String × ℕ))
    → lookup k m ≡ none
    → lookup j m ≡ some r
    → lookup j ((k, t) ∷ m) ≡ some r
lookup-below k j t r m new e = elim (Bool-cases (str_eq k j)) [
  | inl same ↦ cc (new, e, (eq_iff k j).0 same)
  | inr other ↦ rw other e
]

-- The entries of a map, as what the map says.
pub IsMap-All :
    (P : String → ℕ → Type 0) (m : List (String × ℕ))
    → IsMap m
    → ((k : String) (t : ℕ) → lookup k m ≡ some t → P k t)
    → All (λ e. P e.0 e.1) m
IsMap-All P [] h f = tt
IsMap-All P ((k, t) ∷ m) (new, h) f =
    (f k t (rw (eq_refl k) refl), IsMap-All P m h (λ j r e. f j r (lookup-below k j t r m new e)))

-- A set that has a key has an entry.
pub claimed :
    (u : ℕ) (m : List (String × ℕ))
    → IsMap m
    → 0 < claims u m
    → (k : String) × (lookup k m ≡ some u)
claimed u [] h lt = absurd (omega arith)
claimed u ((k, t) ∷ m) (new, h) lt = elim (Bool-cases (t == u)) [
  | inl own ↦ (k, rw (eq_refl k) (ap (λ (x : ℕ). some x) (ground arith)))
  | inr other ↦ let (j, e) = claimed u m h (ground arith) in (j, lookup-below k j t u m new e)
]
