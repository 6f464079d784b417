-- ===== src/Matching/Outcome.antt =====
-- What a call of `assign` in pkg/connector/outbound.go leaves behind, whether it fails or succeeds.
use tumblr_dms.Prelude.{
  ℕ, suc, ◌+◌, ◌≡◌, refl, sym, ap, ◌∙◌, ◌⊎◌, inl, inr, Bool, true, false, not, ◌&&◌, List, none,
  some, String, ◌==◌, str_eq, eq_iff, eq_refl, if◌then◌else◌, length, arith, Bool-cases, subst,
}
use tumblr_dms.Prelude.Each.{or_true}
use tumblr_dms.Prelude.Maps.{lookup, insert, has}
use tumblr_dms.Matching.{Attempt, Assign, visit, claim}
use tumblr_dms.Matching.Table.{
  lookup-insert, lookup-insert_other, claims, claims-insert_new, claims-insert_old, IsMap,
  insert-IsMap,
}

module _ (ids : ℕ → List String) (skip : ℕ → String → Bool) where
  -- The message may be given to the set.
  abbrev pub joined : ℕ → String → Bool
  joined s m = has m (ids s) && not (skip s m)

  -- All messages of the set are in `D`.
  abbrev pub Within : ℕ → (String → Bool) → Type 0
  Within s D = (m : String) → joined s m ≡ true → D m ≡ true

  -- A message whose set has all its messages in `D`.
  abbrev pub Held : List (String × ℕ) → (String → Bool) → String → Type 0
  Held matched D m = (t : ℕ) × (lookup m matched ≡ some t) × Within t D

  -- No search that is in `D` leaves it.
  abbrev pub IsClosed : List (String × ℕ) → (String → Bool) → Type 0
  IsClosed matched D = (m : String) → D m ≡ true → Held matched D m

  abbrev pub seen : Attempt → String → Bool
  seen st m = has m st.visited

  -- Every entry is an edge.
  abbrev pub HasEdges : List (String × ℕ) → Type 0
  HasEdges matched = (m : String) (t : ℕ) → lookup m matched ≡ some t → joined t m ≡ true

  -- A failed search has changed no match. The messages that it visited are all held.
  pub record Failed (s : ℕ) (ms : List String) (st st' : Attempt) : Type 0 where
    pub same : st'.matched ≡ st.matched
    pub grows : (m : String) → seen st m ≡ true → seen st' m ≡ true
    pub covers : (m : String) → has m ms ≡ true → skip s m ≡ false → seen st' m ≡ true
    pub held : (m : String) → seen st' m ≡ true → (seen st m ≡ true) ⊎ Held st.matched (seen st') m

  -- A search that succeeds gives the set one key more, and no other set fewer or more; it leaves the matches
  -- of what was visited before, and of what is closed.
  pub record Found (s : ℕ) (st st' : Attempt) : Type 0 where
    pub counts : (u : ℕ) → claims u st'.matched ≡ claims u st.matched + (if s == u then 1 else 0)
    pub size : length st'.matched ≡ suc (length st.matched)
    pub kept : (m : String) → seen st m ≡ true → lookup m st'.matched ≡ lookup m st.matched
    pub map : IsMap st.matched → IsMap st'.matched
    pub edges : HasEdges st.matched → HasEdges st'.matched
    pub apart :
        (D : String → Bool)
        → IsClosed st.matched D
        → (m : String) → D m ≡ true
        → lookup m st'.matched ≡ lookup m st.matched
    pub outside : (D : String → Bool) → IsClosed st.matched D → Within s D → ⊥

  abbrev pub Outcome : ℕ → List String → Attempt → Bool → Attempt → Type 0
  Outcome s ms st true st' = Found s st st'
  Outcome s ms st false st' = Failed s ms st st'

  -- `rec` is right about every set and its messages.
  abbrev pub IsSound : Assign → Type 0
  IsSound rec =
      (s : ℕ) (st : Attempt) (b : Bool) (st' : Attempt)
      → rec s st ≡ some (b, st')
      → Outcome s (ids s) st b st'

  -- A text in `D` is not one outside it.
  differs : (D : String → Bool) (m k : String) → D m ≡ false → D k ≡ true → str_eq m k ≡ false
  differs D m k out inside = elim (Bool-cases (str_eq m k)) [
    | inl same ↦ cc (out, inside, ap D ((eq_iff m k).0 same))
    | inr other ↦ other
  ]

  edges-insert :
      (s : ℕ) (m : String) (matched : List (String × ℕ))
      → joined s m ≡ true
      → HasEdges matched
      → HasEdges (insert m s matched)
  edges-insert s m matched edge h k t e = elim (Bool-cases (str_eq m k)) [
    | inl same ↦
        let own : some s ≡ some t = sym (lookup-insert_at same) ∙ e in
        let eq : s ≡ t = cc own in let eq' = (eq_iff m k).0 same in rw (← eq, ← eq') edge
    | inr other ↦ h k t (sym (lookup-insert_other m k s matched other) ∙ e)
  ]
    where
      lookup-insert_at : str_eq m k ≡ true → lookup k (insert m s matched) ≡ some s
      lookup-insert_at same =
          lookup-insert m k s matched ∙ ap (λ b. if b then some s else lookup k matched) same

  free_outside :
      (D : String → Bool) (m : String) (matched : List (String × ℕ))
      → IsClosed matched D
      → lookup m matched ≡ none
      → D m ≡ false
  free_outside D m matched closed free = elim (Bool-cases (D m)) [
    | inl inside ↦ let (t, e, _) = closed m inside in cc (e, free)
    | inr out ↦ out
  ]

  held_outside :
      (D : String → Bool) (m : String) (t : ℕ) (matched : List (String × ℕ))
      → IsClosed matched D
      → lookup m matched ≡ some t
      → (Within t D → ⊥)
      → D m ≡ false
  held_outside D m t matched closed e never = elim (Bool-cases (D m)) [
    | inl inside ↦
        let (r, e', within) = closed m inside in
        let same : some r ≡ some t = sym e' ∙ e in
        let eq : r ≡ t = cc same in absurd (never (subst (λ u. Within u D) eq within))
    | inr out ↦ out
  ]

  -- A free message is taken.
  pub claim_new :
      (s : ℕ) (m : String) (st : Attempt)
      → joined s m ≡ true
      → seen st m ≡ false
      → lookup m st.matched ≡ none
      → Found s st (claim m s (visit m st))
  claim_new s m st edge new free = record {
    counts = λ u. (claims-insert_new u s m st.matched free).0;
    size = (claims-insert_new 0 s m st.matched free).1;
    kept = λ k h. lookup-insert_other m k s st.matched (differs (seen st) m k new h);
    map = insert-IsMap m s st.matched;
    edges = edges-insert s m st.matched edge;
    apart = λ D closed k h.
        lookup-insert_other m k s st.matched
          (differs D m k (free_outside D m st.matched closed free) h);
    outside = λ D closed within. cc (free_outside D m st.matched closed free, within m edge);
  }

  -- A message is taken from the set `t`, which has found another.
  pub claim_old :
      (s t : ℕ) (m : String) (st st' : Attempt)
      → joined s m ≡ true
      → seen st m ≡ false
      → lookup m st.matched ≡ some t
      → Found t (visit m st) st'
      → Found s st (claim m s st')
  claim_old s t m st st' edge new e f =
      let still : lookup m st'.matched ≡ some t = f.kept m (rw (eq_refl m) refl) ∙ e in
      let out : (D : String → Bool) → IsClosed st.matched D → D m ≡ false =
        λ D closed. held_outside D m t st.matched closed e (f.outside D closed) in
      record {
        counts = λ u. omega (arith, (claims-insert_old u s t m st'.matched still).0, f.counts u);
        size = omega (arith, (claims-insert_old 0 s t m st'.matched still).1, f.size);
        kept = λ k h.
            lookup-insert_other m k s st'.matched (differs (seen st) m k new h)
            ∙ f.kept k (or_true (str_eq k m) (seen st k) h);
        map = λ h. insert-IsMap m s st'.matched (f.map h);
        edges = λ h. edges-insert s m st'.matched edge (f.edges h);
        apart = λ D closed k h.
            lookup-insert_other m k s st'.matched (differs D m k (out D closed) h)
            ∙ f.apart D closed k h;
        outside = λ D closed within. cc (out D closed, within m edge);
      }
