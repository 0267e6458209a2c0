-- ===== src/Moderation/Blocking.antt =====
-- What blocks a text: TextScreeningService of apps/moderation/services.py.
use date_app.Common.{
  ℕ, ◌≤◌, ◌≡◌, Bool, true, false, ◌&&◌, ◌||◌, Option, List, [], ◌∷◌, arith, Text, exists_where,
}
use date_app.Moderation.Models.{BannedTerm, Store}
use date_app.Moderation.Screening.{
  RiskPattern, risk_patterns, is_blank, Findings, terms_of, is_block, is_critical, no_findings,
  pattern_of, on_term, on_pattern, scan_terms, scan_patterns, scan, screen,
}

module _ (search : Text → Text → Bool) (escape : Text → Text)
    (sub : Text → Text → Text → Text) where
  -- What blocks a text.
  abbrev pub blocks_term : Text → BannedTerm → Bool
  blocks_term text t = search (pattern_of search escape sub t) text && is_block t.action

  abbrev pub blocks_pattern : Text → RiskPattern → Bool
  blocks_pattern text p = search p.pattern text && is_critical p.severity

  scan_terms_lem :
      (text : Text) (f : Findings) (ts : List BannedTerm)
      → (scan_terms search escape sub text f ts).blocked
        ≡ f.blocked || exists_where (blocks_term text) ts
  unfolding scan_terms exists_where
  scan_terms_lem text f [] = ground arith
  scan_terms_lem text f (t ∷ ts) =
      ground (arith, scan_terms_lem text (on_term search escape sub text f t) ts)

  scan_patterns_lem :
      (text : Text) (f : Findings) (ps : List RiskPattern)
      → (scan_patterns search escape sub text f ps).blocked
        ≡ f.blocked || exists_where (blocks_pattern text) ps
  unfolding scan_patterns exists_where
  scan_patterns_lem text f [] = ground arith
  scan_patterns_lem text f (p ∷ ps) =
      ground (arith, scan_patterns_lem text (on_pattern search escape sub text f p) ps)

  -- A text that is not blank is blocked exactly when a banned term with the action block or a
  -- critical risk pattern is found in it; a blocked text is flagged, and its risk is at most 100.
  pub screen_blocks :
      (now : ℕ) (today : Text) (cached : Option (List BannedTerm)) (text : Text) (owner : Option ℕ)
      (s : Store)
      → is_blank text ≡ false
      → let v = (screen search escape sub now today cached text owner s).0 in
        (v.blocked
          ≡ exists_where (blocks_term text) (terms_of cached s)
            || exists_where (blocks_pattern text) risk_patterns)
        × (v.blocked ≡ true → v.flagged ≡ true)
        × (v.risk_score ≤ 100)
  unfolding screen scan
  screen_blocks now today cached text owner s h =
      let l = scan_terms_lem text (no_findings text) (terms_of cached s) in
      let r =
        scan_patterns_lem text
          (scan_terms search escape sub text (no_findings text) (terms_of cached s))
          risk_patterns in
      rw h (ground (arith, l, r), ground arith, ground arith)
