-- ===== src/Matching/Sound.antt =====
-- Every call of `assign` in pkg/connector/outbound.go that returns has one of the two outcomes.
use tumblr_dms.Prelude.{
  ℕ, zero, suc, ◌+◌, ◌≡◌, refl, sym, ap, ◌∙◌, inl, inr, Bool, true, false, not, ◌||◌, List, [], ◌∷◌,
  Option, none, some, String, ◌==◌, str_eq, eq_iff, eq_refl, Bool-cases, subst, if◌then◌else◌,
  length, and_split,
}
use tumblr_dms.Prelude.Each.{or_true, or_right}
use tumblr_dms.Prelude.Maps.{lookup, has}
use tumblr_dms.Matching.{Attempt, Assign, visit, moved, occupied, round, try_each, assign}
use tumblr_dms.Matching.Table.{claims, IsMap}
use tumblr_dms.Matching.Outcome.{
  joined, Within, Held, IsClosed, HasEdges, seen, Failed, Outcome, IsSound, claim_new, claim_old,
}

pub or_false : (a b : Bool) → (a || b) ≡ false → (a ≡ false) × (b ≡ false)
or_false true b h = absurd cc
or_false false b h = (refl, h)

pub not-true : (b : Bool) → not b ≡ true → b ≡ false
not-true true h = cc
not-true false h = refl

pub some_injective : {A : Type 0} {a b : A} → some a ≡ some b → a ≡ b
some_injective h = cc

module _ (ids : ℕ → List String) (skip : ℕ → String → Bool) where
  joined_edge :
      (s : ℕ) (m : String) → has m (ids s) ≡ true → skip s m ≡ false → joined ids skip s m ≡ true
  joined_edge s m e f = rw (e, f) refl

  pub Held-grows :
      (P : List (String × ℕ)) (D E : String → Bool) (m : String)
      → ((k : String) → D k ≡ true → E k ≡ true)
      → Held ids skip P D m
      → Held ids skip P E m
  Held-grows P D E m g (t, e, within) = (t, e, λ k h. g k (within k h))

  -- A round that skips a message.
  skipped_round :
      (s : ℕ) (m : String) (ms : List String) (st : Attempt) (b : Bool) (st' : Attempt)
      → (skip s m || seen ids skip st m) ≡ true
      → Outcome ids skip s ms st b st'
      → Outcome ids skip s (m ∷ ms) st b st'
  skipped_round s m ms st true st' h f = f
  skipped_round s m ms st false st' h f = record {
    same = f.same;
    grows = f.grows;
    covers = λ k e new. elim (Bool-cases (str_eq k m)) [
      | inl own ↦
          let eq = (eq_iff k m).0 own in
          f.grows k (
            subst (λ n. seen ids skip st n ≡ true) (sym eq)
              (or_right (skip s m) (seen ids skip st m) (subst (λ n. skip s n ≡ false) eq new) h))
      | inr other ↦ f.covers k (or_right (str_eq k m) (has k ms) other e) new
    ];
    held = f.held;
  }

  -- The rounds after one whose search failed.
  later_rounds :
      (s t : ℕ) (m : String) (ms : List String) (st st2 : Attempt) (b : Bool) (st' : Attempt)
      → lookup m st.matched ≡ some t
      → Failed ids skip t (ids t) (visit m st) st2
      → Outcome ids skip s ms st2 b st'
      → Outcome ids skip s (m ∷ ms) st b st'
  later_rounds s t m ms st st2 true st' e f g = record {
    counts =
        subst (λ P. (u : ℕ) → claims u st'.matched ≡ claims u P + (if s == u then 1 else 0)) f.same
          g.counts;
    size = subst (λ P. length st'.matched ≡ suc (length P)) f.same g.size;
    kept = λ k h.
        subst (λ P. lookup k st'.matched ≡ lookup k P) f.same
          (g.kept k (f.grows k (or_true (str_eq k m) _ h)));
    map = subst (λ P. IsMap P → IsMap st'.matched) f.same g.map;
    edges = subst (λ P. HasEdges ids skip P → HasEdges ids skip st'.matched) f.same g.edges;
    apart =
        subst
          (λ P.
            (D : String → Bool)
            → IsClosed ids skip P D
            → (k : String) → D k ≡ true
            → lookup k st'.matched ≡ lookup k P)
          f.same g.apart;
    outside =
        subst (λ P. (D : String → Bool) → IsClosed ids skip P D → Within ids skip s D → ⊥) f.same
          g.outside;
  }
  later_rounds s t m ms st st2 false st' e f g = record {
    same = g.same ∙ f.same;
    grows = λ k h. g.grows k (f.grows k (or_true (str_eq k m) _ h));
    covers = λ k h new. elim (Bool-cases (str_eq k m)) [
      | inl own ↦ g.grows k (f.grows k (own_visited k own))
      | inr other ↦ g.covers k (or_right (str_eq k m) (has k ms) other h) new
    ];
    held = λ k h. elim (g.held k h) [
      | inr later ↦ inr (subst (λ P. Held ids skip P (seen ids skip st') k) f.same later)
      | inl before ↦ elim (f.held k before) [
        | inr h' ↦ inr (Held-grows st.matched _ (seen ids skip st') k g.grows h')
        | inl first ↦ elim (Bool-cases (str_eq k m)) [
          | inl own ↦ inr (own_held k own)
          | inr other ↦ inl (or_right (str_eq k m) (seen ids skip st k) other first)
        ]
      ]
    ];
  }
    where
      own_visited : (k : String) → str_eq k m ≡ true → seen ids skip (visit m st) k ≡ true
      own_visited k own = rw own refl

      own_held : (k : String) → str_eq k m ≡ true → Held ids skip st.matched (seen ids skip st') k
      own_held k own = (
        t,
        ap (λ n. lookup n st.matched) ((eq_iff k m).0 own) ∙ e,
        λ j h.
            let (listed, fresh) = and_split (has j (ids t)) (not (skip t j)) h in
            g.grows j (f.covers j listed (not-true (skip t j) fresh)),
      )

  -- No message is left.
  no_message :
      (s : ℕ) (st : Attempt) (b : Bool) (st' : Attempt)
      → ◌≡◌ {A = Option (Bool × Attempt)} (some (false, st)) (some (b, st'))
      → Outcome ids skip s [] st b st'
  no_message s st b st' h =
      subst (λ (r : Bool × Attempt). Outcome ids skip s [] st r.0 r.1) (some_injective h)
        (record { same = refl; grows = λ m h. h; covers = λ m e new. cc; held = λ m h. inl h })

  module _ (rec : Assign) (sound : IsSound ids skip rec) where
    -- The rest of the loop is right about the messages after `m`.
    module _ (s : ℕ) (m : String) (ms : List String) (b : Bool) (st' : Attempt)
        (next : Attempt → Option (Bool × Attempt))
        (ih : (st : Attempt) → next st ≡ some (b, st') → Outcome ids skip s ms st b st')
        (listed : has m (ids s) ≡ true) where
      moved_sound :
          (st : Attempt) (t : ℕ)
          → skip s m ≡ false
          → seen ids skip st m ≡ false
          → lookup m st.matched ≡ some t
          → (o : Option (Bool × Attempt)) → rec t (visit m st) ≡ o
          → moved ids skip m s next o ≡ some (b, st')
          → Outcome ids skip s (m ∷ ms) st b st'
      moved_sound st t allowed new e none found h = absurd cc
      moved_sound st t allowed new e (some (true, st2)) found h =
          subst (λ (r : Bool × Attempt). Outcome ids skip s (m ∷ ms) st r.0 r.1) (some_injective h)
            (claim_old ids skip s t m st st2 (joined_edge s m listed allowed) new e
              (sound t (visit m st) true st2 found))
      moved_sound st t allowed new e (some (false, st2)) found h =
          later_rounds s t m ms st st2 b st' e (sound t (visit m st) false st2 found) (ih st2 h)

      occupied_sound :
          (st : Attempt)
          → skip s m ≡ false
          → seen ids skip st m ≡ false
          → (o : Option ℕ) → lookup m st.matched ≡ o
          → occupied ids skip rec m s next (visit m st) o ≡ some (b, st')
          → Outcome ids skip s (m ∷ ms) st b st'
      occupied_sound st allowed new none e h =
          subst (λ (r : Bool × Attempt). Outcome ids skip s (m ∷ ms) st r.0 r.1) (some_injective h)
            (claim_new ids skip s m st (joined_edge s m listed allowed) new e)
      occupied_sound st allowed new (some t) e h =
          moved_sound st t allowed new e (rec t (visit m st)) refl h

      round_sound :
          (st : Attempt) (c : Bool)
          → (skip s m || seen ids skip st m) ≡ c
          → round ids skip rec m s next st c ≡ some (b, st')
          → Outcome ids skip s (m ∷ ms) st b st'
      round_sound st true e h = skipped_round s m ms st b st' e (ih st h)
      round_sound st false e h =
          let (allowed, new) = or_false (skip s m) (seen ids skip st m) e in
          occupied_sound st allowed new (lookup m st.matched) refl h

    rounds_sound :
        (s : ℕ) (ms : List String) (st : Attempt) (b : Bool) (st' : Attempt)
        → ((m : String) → has m ms ≡ true → has m (ids s) ≡ true)
        → try_each ids skip rec s ms st ≡ some (b, st')
        → Outcome ids skip s ms st b st'
    unfolding try_each
    rounds_sound s [] st b st' sub h = no_message s st b st' h
    rounds_sound s (m ∷ ms) st b st' sub h =
        round_sound s m ms b st' (λ st2. try_each ids skip rec s ms st2)
          (λ st2. rounds_sound s ms st2 b st' (λ k e. sub k (or_true (str_eq k m) (has k ms) e)))
          (sub m (rw (eq_refl m) refl)) st _ refl h

  -- With any fuel, a call that returns has one of the two outcomes.
  pub assign-IsSound : (fuel : ℕ) → IsSound ids skip (assign ids skip fuel)
  unfolding assign
  assign-IsSound zero s st b st' h = absurd cc
  assign-IsSound (suc fuel) s st b st' h =
      rounds_sound (assign ids skip fuel) (assign-IsSound fuel) s (ids s) st b st' (λ m e. e) h
