-- ===== src/Moderation/Screening.antt =====
-- TextScreeningService of apps/moderation/services.py. The regular expressions of Python's `re` are
-- the section's parameters: `search` is `re.search` with IGNORECASE, `escape` is `re.escape` and
-- `sub` replaces every match by its second argument.
use date_app.Common.{
  ℕ, ◌+◌, min, String, Bool, true, false, ◌&&◌, ◌||◌, Option, none, some, List, [], ◌∷◌, ◌++◌, map,
  leb, ◌==◌, if◌then◌else◌, Text, codes, is_empty, take, filter_by, exists_where, join, is_space,
}
use date_app.Moderation.Models.{TermAction, Severity, BannedTerm, Store}
use date_app.Moderation.Trust.{penalise}

-- `SEVERITY_WEIGHT`
abbrev pub severity_weight : Severity → ℕ
severity_weight Severity.low = 10
severity_weight Severity.medium = 25
severity_weight Severity.high = 45
severity_weight Severity.critical = 80

pub record RiskPattern : Type 0 where
  pub pattern : Text
  pub label : Text
  pub severity : Severity

abbrev risk : String → String → Severity → RiskPattern
risk p l s = record { pattern = codes p; label = codes l; severity = s }

-- `RISK_PATTERNS`
unfoldable pub risk_patterns : List RiskPattern
risk_patterns =
    risk "\\b(?:\\+?\\d[\\d\\s\\-()]{7,})\\b" "phone number shared" Severity.low
    ∷ risk "\\b[\\w.+-]+@[\\w-]+\\.[\\w.]+\\b" "email address shared" Severity.low
    ∷ risk "\\b(?:whatsapp|telegram|snapchat|instagram|ig)\\b[\\s:@]*\\w*" "off-platform contact"
        Severity.high
    ∷ risk "\\b(?:bitcoin|btc|usdt|crypto|forex|investment opportunity)\\b" "financial solicitation"
        Severity.high
    ∷ risk "\\b(?:send|transfer|wire)\\s+(?:me\\s+)?(?:money|cash|funds)\\b" "money request"
        Severity.critical
    ∷ risk "\\b(?:onlyfans|cashapp|paypal\\.me)\\b" "monetisation link" Severity.high
    ∷ risk "https?://\\S+" "external link" Severity.low
    ∷ []

-- `not text or not text.strip()`
unfoldable pub is_blank : Text → Bool
is_blank [] = true
is_blank (c ∷ t) = is_space c && is_blank t

unfoldable pub starts_with : Text → Text → Bool
starts_with [] t = true
starts_with (c ∷ p) [] = false
starts_with (c ∷ p) (d ∷ t) = c == d && starts_with p t

-- Python's `p in t`.
unfoldable pub contains : Text → Text → Bool
unfolding starts_with
contains p [] = is_empty p
contains p (c ∷ t) = starts_with p (c ∷ t) || contains p t

-- `TextScreeningService._message`
unfoldable pub message_of : List Text → String
unfolding contains
message_of reasons =
    if exists_where (λ r. contains (codes "money") r || contains (codes "financial") r) reasons
    then "That message looks like a financial solicitation, which we don't allow. If someone asks you for money, please report them."
    else "That message was blocked by our safety filters."

pub record Verdict : Type 0 where
  pub blocked : Bool
  pub flagged : Bool
  pub clean_text : Text
  pub reasons : List Text
  pub risk_score : ℕ
  pub message : String

-- What the two loops of `screen` have gathered, with the terms whose counters went up.
pub record Findings : Type 0 where
  pub reasons : List Text
  pub risk : ℕ
  pub clean : Text
  pub blocked : Bool
  pub hits : List ℕ

-- `TextScreeningService._terms`: the cached list, or the active rows.
unfoldable pub terms_of : Option (List BannedTerm) → Store → List BannedTerm
terms_of none s = filter_by (λ t. t.is_active) s.terms
terms_of (some cached) s = cached

abbrev hit : ℕ → BannedTerm → BannedTerm
hit id t = if t.id == id then record t { hit_count = t.hit_count + 1 } else t

unfoldable pub count_hits : List ℕ → List BannedTerm → List BannedTerm
count_hits [] ts = ts
count_hits (id ∷ ids) ts = count_hits ids (map (hit id) ts)

abbrev pub is_block : TermAction → Bool
is_block TermAction.block = true
is_block _ = false

abbrev pub is_critical : Severity → Bool
is_critical Severity.critical = true
is_critical _ = false

abbrev pub no_findings : Text → Findings
no_findings text = record { reasons = []; risk = 0; clean = text; blocked = false; hits = [] }

module _ (search : Text → Text → Bool) (escape : Text → Text)
    (sub : Text → Text → Text → Text) where
  abbrev pub pattern_of : BannedTerm → Text
  pattern_of t = if t.is_regex then t.term else escape t.term

  abbrev masked : BannedTerm → Text → Text
  masked t clean = elim t.action [
    | TermAction.mask ↦ sub (pattern_of t) (codes "***") clean
    | _ ↦ clean
  ]

  -- A round of the loop over the terms.
  abbrev pub on_term : Text → Findings → BannedTerm → Findings
  on_term text f t =
      if search (pattern_of t) text
      then record {
        reasons = f.reasons ++ (codes "banned term: " ++ t.term) ∷ [];
        risk = f.risk + severity_weight t.severity;
        clean = masked t f.clean;
        blocked = f.blocked || is_block t.action;
        hits = f.hits ++ t.id ∷ [];
      }
      else f

  -- A round of the loop over the patterns.
  abbrev pub on_pattern : Text → Findings → RiskPattern → Findings
  on_pattern text f p =
      if search p.pattern text
      then record f {
        reasons = f.reasons ++ p.label ∷ [];
        risk = f.risk + severity_weight p.severity;
        blocked = f.blocked || is_critical p.severity;
      }
      else f

  unfoldable pub scan_terms : Text → Findings → List BannedTerm → Findings
  scan_terms text f [] = f
  scan_terms text f (t ∷ ts) = scan_terms text (on_term text f t) ts

  unfoldable pub scan_patterns : Text → Findings → List RiskPattern → Findings
  scan_patterns text f [] = f
  scan_patterns text f (p ∷ ps) = scan_patterns text (on_pattern text f p) ps

  -- The findings of the two loops.
  unfoldable pub scan : Text → List BannedTerm → Findings
  unfolding scan_terms scan_patterns
  scan text terms = scan_patterns text (scan_terms text (no_findings text) terms) risk_patterns

  abbrev verdict_of : Findings → Verdict
  verdict_of f =
      let score = min f.risk 100 in
      record {
        blocked = f.blocked;
        flagged = leb 40 score || f.blocked;
        clean_text = f.clean;
        reasons = f.reasons;
        risk_score = score;
        message = if f.blocked then message_of f.reasons else "";
      }

  -- `TextScreeningService.screen`
  unfoldable pub screen :
      ℕ → Text → Option (List BannedTerm) → Text → Option ℕ → Store → Verdict × Store
  unfolding terms_of scan message_of penalise count_hits is_blank
  screen now today cached text owner s =
      let f = scan text (terms_of cached s) in
      let v = verdict_of f in
      if is_blank text
      then (
        record {
          blocked = false;
          flagged = false;
          clean_text = text;
          reasons = [];
          risk_score = 0;
          message = "";
        },
        s,
      )
      else (
        v,
        record s {
          terms = count_hits f.hits s.terms;
          scores =
              if v.flagged
              then penalise now today owner (if f.blocked then 15 else 5)
                  (join "; " (take 3 f.reasons)) s.scores
              else s.scores;
        },
      )
