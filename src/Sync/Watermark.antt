-- ===== src/Sync/Watermark.antt =====
-- The watermark of pkg/connector/tumblrdb/syncstate.go.
use tumblr_dms.Prelude.{
  ℕ, ◌≡◌, refl, max, ap, ◌∙◌, eq_refl, inl, inr, true, List, [], ◌∷◌, Option, none, some, String,
  ltb, arith, if◌then◌else◌, find, Option-cases,
}
use tumblr_dms.Prelude.Time.{Time, unix_milli, time_from_millis}
use tumblr_dms.Prelude.Each.{find-set_where, find-none, find-any, find-first}
use tumblr_dms.Sync.{
  StateRow, SyncState, scan_state, at_login, get_state, scan_success_set, set_scan_success,
}

-- The watermark and the time of the last scan that `Get` returns.
abbrev pub seen : Option SyncState → ℕ × Time
seen none = (0, time_from_millis 0)
seen (some s) = (s.last_remote_watermark, s.last_scan_success_at)

abbrev seen_row : Option StateRow → ℕ × Time
seen_row none = (0, time_from_millis 0)
seen_row (some r) = (r.last_remote_watermark_ts, time_from_millis r.last_scan_success_ts)

larger : (a b : ℕ) → (if ltb a b then b else a) ≡ max a b
larger a b = ground arith

max-zero : (n : ℕ) → n ≡ max 0 n
max-zero n = omega arith

max-foldr : (m n k : ℕ) → max (max m n) k ≡ max m (max n k)
max-foldr m n k = omega arith

abbrev pub highest : List (ℕ × Time) → ℕ
highest [] = 0
highest ((w, _) ∷ ws) = max w (highest ws)

module _ (bridge login : String) where
  seen-get_state :
      (rows : List StateRow)
      → seen (get_state bridge login rows) ≡ seen_row (find (at_login bridge login) rows)
  unfolding get_state scan_state
  seen-get_state rows = elim (Option-cases (find (at_login bridge login) rows)) [
    | inl e ↦ rw (get_state, e) refl
    | inr (r, e) ↦ rw (get_state, e) refl
  ]

  get_state-cons :
      (r : StateRow) (rows : List StateRow)
      → at_login bridge login r ≡ true
      → seen (get_state bridge login (r ∷ rows)) ≡ seen_row (some r)
  get_state-cons r rows e =
      seen-get_state (r ∷ rows) ∙ ap seen_row (find-first (at_login bridge login) r rows e)

  -- A run of `SetScanSuccess`.
  abbrev pub scans : List (ℕ × Time) → List StateRow → List StateRow
  scans [] rows = rows
  scans ((w, at) ∷ ws) rows = scans ws (set_scan_success bridge login w at rows)

  -- After `SetScanSuccess` the login's state has the larger of the watermarks, the stored one and the given
  -- one, and the given time of the scan; a login without a state counts as one at watermark 0.
  pub set_scan_success-seen :
      (watermark : ℕ) (at : Time) (rows : List StateRow)
      → seen (get_state bridge login (set_scan_success bridge login watermark at rows))
        ≡ (max (seen (get_state bridge login rows)).0 watermark, time_from_millis (unix_milli at))
  unfolding set_scan_success scan_success_set
  set_scan_success-seen watermark at rows =
      elim (Option-cases (find (at_login bridge login) rows)) [
        | inl e ↦
            rw (find-none (at_login bridge login) rows e, seen-get_state rows, e)
              (get_state-cons _ rows (rw (eq_refl bridge, eq_refl login) refl)
                ∙ ap (λ (m : ℕ). (m, time_from_millis (unix_milli at))) (max-zero watermark))
        | inr (r, e) ↦
            rw (find-any (at_login bridge login) r rows e, seen-get_state rows, e)
              (seen-get_state _
                ∙ ap seen_row (find-set_where (at_login bridge login) _ r rows (λ x. refl) e)
                ∙ ap (λ (m : ℕ). (m, time_from_millis (unix_milli at)))
                    (larger r.last_remote_watermark_ts watermark))
      ]

  -- After any run of `SetScanSuccess` the login's watermark is the largest of the stored one and those
  -- given, in whatever order the scans end; so no scan lowers it.
  pub watermark_is_highest :
      (ws : List (ℕ × Time)) (rows : List StateRow)
      → (seen (get_state bridge login (scans ws rows))).0
        ≡ max (seen (get_state bridge login rows)).0 (highest ws)
  watermark_is_highest [] rows = omega arith
  watermark_is_highest ((w, at) ∷ ws) rows =
      watermark_is_highest ws (set_scan_success bridge login w at rows)
      ∙ ap (λ (m : ℕ × Time). max m.0 (highest ws)) (set_scan_success-seen w at rows)
      ∙ max-foldr (seen (get_state bridge login rows)).0 w (highest ws)
