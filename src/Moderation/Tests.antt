-- ===== src/Moderation/Tests.antt =====
-- The theorems on moderation, at small tables.
use date_app.Common.{
  filter_by, update_where, ◌≤◌, ◌≡◌, refl, true, false, ◌||◌, none, some, [], ◌∷◌, map, codes,
  first_where, filter_by, exists_where, update_where,
}
use date_app.Moderation.Models.{
  TermAction, Severity, ObjectType, BannedTerm, TrustScore, Store, band,
}
use date_app.Moderation.Trust.{new_score}
use date_app.Moderation.Screening.{screen, is_blank, terms_of, risk_patterns, contains}
use date_app.Moderation.Blocking.{screen_blocks, blocks_term, blocks_pattern}
use date_app.Moderation.Cases.{queue}
use date_app.Moderation.Verdicts.{queue_decides, IsSettled}

abbrev trust : TrustScore
trust = record (new_score 4) { score = 20 }

abbrev term : BannedTerm
term = record {
  id = 1;
  term = codes "cash";
  action = TermAction.block;
  severity = Severity.high;
  is_regex = false;
  is_active = true;
  hit_count = 0;
}

abbrev table : Store
table = record { terms = term ∷ []; cases = []; scores = trust ∷ []; events = [] }

screen_blocks_example :
    let v =
      (screen contains
        (λ t. t)
        (λ p r t. t)
        9
        (codes "2026-01-01 ")
        none
        (codes "cash now")
        (some 4)
        table).0 in
    (v.blocked
      ≡ exists_where
          (blocks_term contains (λ t. t) (λ p r t. t) (codes "cash now"))
          (terms_of none table)
        || exists_where
            (blocks_pattern contains (λ t. t) (λ p r t. t) (codes "cash now"))
            risk_patterns)
    × (v.blocked ≡ true → v.flagged ≡ true)
    × (v.risk_score ≤ 100)
unfolding is_blank
screen_blocks_example =
    screen_blocks contains (λ t. t) (λ p r t. t) 9 (codes "2026-01-01 ") none (codes "cash now")
      (some 4) table refl

queue_decides_example :
    IsSettled
      (band trust)
      ObjectType.profile_photo
      8
      (queue 9 (codes "2026-01-01 ") 1 4 ObjectType.profile_photo 8 [] table)
    × ((queue 9 (codes "2026-01-01 ") 1 4 ObjectType.profile_photo 8 [] table).1.scores
        ≡ table.scores)
unfolding first_where
queue_decides_example =
    queue_decides 9 (codes "2026-01-01 ") 1 4 ObjectType.profile_photo 8 [] table trust refl refl

-- A phone number costs nothing but its weight; a blocked word lowers the trust score.
screened :
    let (v, s) =
      screen contains
        (λ t. t)
        (λ p r t. t)
        9
        (codes "2026-01-01 ")
        none
        (codes "cash now")
        (some 4)
        table in
    (v.blocked ≡ true)
    × (map (λ t. t.score) s.scores ≡ 5 ∷ [])
    × (map (λ t. t.hit_count) s.terms ≡ 1 ∷ [])
unfolding screen risk_patterns filter_by update_where first_where
screened = (refl, refl, refl)
