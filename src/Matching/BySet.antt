-- ===== src/Matching/BySet.antt =====
-- matchBySet of maximumOutboundCandidateMatching in pkg/connector/outbound.go: the map of messages to sets, turned
-- round.
use tumblr_dms.Prelude.{
  ℕ, zero, suc, ◌+◌, ◌≤◌, ◌<◌, ◌≡◌, refl, sym, ap, ◌∙◌, inl, inr, false, List, [], ◌∷◌, some,
  String, ◌==◌, str_eq, eq_iff, eq_refl, if◌then◌else◌, length, replicate, arith, Bool-cases, subst,
  All,
}
use tumblr_dms.Prelude.Maps.{lookup}
use tumblr_dms.Matching.{set_at, by_set}
use tumblr_dms.Matching.Table.{claims, IsMap, IsMap-All, claimed}
use tumblr_dms.Matching.Spec.{message_at, filled}

length-set_at : (s : ℕ) (m : String) (out : List String) → length (set_at s m out) ≡ length out
length-set_at s m [] = refl
length-set_at zero m (x ∷ out) = refl
length-set_at (suc s) m (x ∷ out) = ap suc (length-set_at s m out)

message_at-set_at :
    (s : ℕ) (m : String) (out : List String) → s < length out → message_at (set_at s m out) s ≡ m
message_at-set_at s m [] h = absurd (omega arith)
message_at-set_at zero m (x ∷ out) h = refl
message_at-set_at (suc s) m (x ∷ out) h = message_at-set_at s m out (omega arith)

message_at-set_other :
    (s t : ℕ) (m : String) (out : List String)
    → (s == t) ≡ false
    → message_at (set_at s m out) t ≡ message_at out t
message_at-set_other s t m [] h = refl
message_at-set_other zero zero m (x ∷ out) h = absurd cc
message_at-set_other zero (suc t) m (x ∷ out) h = refl
message_at-set_other (suc s) zero m (x ∷ out) h = refl
message_at-set_other (suc s) (suc t) m (x ∷ out) h = message_at-set_other s t m out (ground arith)

filled-set_at :
    (s : ℕ) (m : String) (out : List String)
    → s < length out
    → message_at out s ≡ ""
    → str_eq m "" ≡ false
    → filled (set_at s m out) ≡ suc (filled out)
filled-set_at s m [] h free new = absurd (omega arith)
filled-set_at zero m (x ∷ out) h free new = rw (new, free) (omega arith)
filled-set_at (suc s) m (x ∷ out) h free new =
    omega (arith, filled-set_at s m out (omega arith) free new)

filled-replicate : (n : ℕ) → filled (replicate n "") ≡ 0
filled-replicate zero = refl
filled-replicate (suc n) = omega (arith, filled-replicate n)

length-replicate : {A : Type 0} (n : ℕ) (a : A) → length (replicate n a) ≡ n
length-replicate zero a = refl
length-replicate (suc n) a = ap suc (length-replicate n a)

message_at-replicate : (n i : ℕ) → message_at (replicate n "") i ≡ ""
message_at-replicate zero i = refl
message_at-replicate (suc n) zero = refl
message_at-replicate (suc n) (suc i) = message_at-replicate n i

-- A set with no key.
not_claimed : (u : ℕ) (m : List (String × ℕ)) → claims u m ≡ 0 → All (λ e. (u == e.1) ≡ false) m
not_claimed u [] h = tt
not_claimed u ((k, t) ∷ m) h = (ground arith, not_claimed u m (ground arith))

-- Such a set keeps what it has.
by_set-free :
    (s : ℕ) (matched : List (String × ℕ)) (out : List String)
    → claims s matched ≡ 0
    → message_at (by_set matched out) s ≡ message_at out s
unfolding by_set
by_set-free s [] out h = refl
by_set-free s ((m, t) ∷ matched) out h =
    by_set-free s matched (set_at t m out) (ground arith)
    ∙ message_at-set_other t s m out (ground arith)

-- A set with a key has its message.
by_set-own :
    (k : String) (t : ℕ) (matched : List (String × ℕ)) (out : List String)
    → lookup k matched ≡ some t
    → claims t matched ≤ 1
    → t < length out
    → message_at (by_set matched out) t ≡ k
unfolding by_set
by_set-own k t [] out e single h = absurd cc
by_set-own k t ((m, s) ∷ matched) out e single h = elim (Bool-cases (str_eq m k)) [
  | inl own ↦
      let found : (if str_eq m k then some s else lookup k matched) ≡ some t = e in
      let same : s ≡ t = ground (arith, found) in
      by_set-free t matched (set_at s m out) (ground arith)
      ∙ subst (λ u. message_at (set_at u m out) t ≡ m) (sym same) (message_at-set_at t m out h)
      ∙ (eq_iff m k).0 own
  | inr other ↦
      by_set-own k t matched (set_at s m out) (ground arith) (ground arith)
        (omega (arith, length-set_at s m out))
]

-- Its place was free, and it gets a message.
abbrev Free : List String → String × ℕ → Type 0
Free out e = (message_at out e.1 ≡ "") × (e.1 < length out) × (str_eq e.0 "" ≡ false)

set_at-Free :
    (s : ℕ) (m : String) (out : List String) (rest : List (String × ℕ))
    → All (λ e. (s == e.1) ≡ false) rest
    → All (Free out) rest
    → All (Free (set_at s m out)) rest
set_at-Free s m out [] h k = tt
set_at-Free s m out (e ∷ rest) (h, hs) ((free, inside, new), ks) = (
  (message_at-set_other s e.1 m out h ∙ free, omega (arith, length-set_at s m out), new),
  set_at-Free s m out rest hs ks,
)

filled-by_set :
    (matched : List (String × ℕ)) (out : List String)
    → ((u : ℕ) → claims u matched ≤ 1)
    → All (Free out) matched
    → filled (by_set matched out) ≡ filled out + length matched
unfolding by_set
filled-by_set [] out single h = omega arith
filled-by_set ((m, s) ∷ matched) out single ((free, inside, new), h) =
    let alone : claims s matched ≡ 0 = ground (arith, single s) in
    let rest =
      filled-by_set matched (set_at s m out) (λ u. ground (arith, single u))
        (set_at-Free s m out matched (not_claimed s matched alone) h) in
    omega (arith, rest, filled-set_at s m out inside free new)

module _ (n : ℕ) (matched : List (String × ℕ)) (map : IsMap matched)
    (single : (u : ℕ) → claims u matched ≤ 1)
    (below : (k : String) (t : ℕ)
      → lookup k matched ≡ some t
      → (t < n) × (str_eq k "" ≡ false)) where
  -- The message that a set has is the set's in the map.
  pub lookup-message_at :
      (s : ℕ)
      → str_eq (message_at (by_set matched (replicate n "")) s) "" ≡ false
      → lookup (message_at (by_set matched (replicate n "")) s) matched ≡ some s
  lookup-message_at s h = elim (Bool-cases (claims s matched == 0)) [
    | inl zero_claims ↦
        let e = by_set-free s matched (replicate n "") (ground arith) ∙ message_at-replicate n s in
        absurd (cc (h, ap (λ k. str_eq k "") e, eq_refl ""))
    | inr one ↦
        let (k, e) = claimed s matched map (ground arith) in
        let inside : s < length (replicate {A = String} n "") =
          omega (arith, length-replicate {A = String} n "", (below k s e).0) in
        subst (λ m. lookup m matched ≡ some s)
          (sym (by_set-own k s matched (replicate n "") e (single s) inside)) e
  ]

  -- Each entry of the map fills a place.
  pub filled-matched : filled (by_set matched (replicate n "")) ≡ length matched
  filled-matched =
      let free =
        IsMap-All (λ k t. Free (replicate n "") (k, t)) matched map
          (λ k t e. (
            message_at-replicate n t,
            omega (arith, length-replicate {A = String} n "", (below k t e).0),
            (below k t e).1,
          )) in
      omega (arith, filled-by_set matched (replicate n "") single free, filled-replicate n)
