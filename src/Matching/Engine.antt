-- ===== src/Matching/Engine.antt =====
-- The score of a pair and the hard filters: apps/matching/engine.py, with the weights of
-- config/settings/base.py. Floats and Python's `lower` are parameters.
use date_app.Common.{
  ℕ, Bool, true, false, not, ◌&&◌, ◌||◌, Option, none, some, List, [], map, ltb, ◌==◌,
  if◌then◌else◌, Text, codes, is_empty, Floats, fmin, fmax,
}
use date_app.Profiles.Models.{MatchPreference, default_preference}
use date_app.Matching.Payloads.{Payload}
use date_app.Matching.Scoring.{
  is_in, text_set, score_distance, score_age, shared, score_interests, score_lifestyle, score_goals,
  score_activity, score_education,
}

-- `prefs or {}` with the defaults of its reads.
unfoldable pub prefs_or_empty : Option MatchPreference → MatchPreference
prefs_or_empty none = record (default_preference 0) { max_age = 99 }
prefs_or_empty (some p) = p

-- The score, the distance and the interests that both have.
pub record Verdict (F : Type 0) : Type 0 where
  pub score : ℕ
  pub distance_km : Option F
  pub shared_interests : List Text

module _ {F : Type 0} (fl : Floats F) (lower : Text → Text) where
  abbrev weighted : ℕ → F → F
  weighted hundredths x = fl.mul x (fl.lit hundredths 2)

  -- The sum of the weighted dimensions.
  unfoldable pub weighted_sum : Payload F → MatchPreference → F → Payload F → F
  unfolding score_distance score_age score_interests score_lifestyle score_goals score_activity
  weighted_sum seeker prefs recency candidate =
      let distance = (score_distance fl lower seeker candidate prefs.max_distance_km).0 in
      let age = score_age fl lower candidate.age prefs.min_age prefs.max_age in
      let interests = score_interests fl lower seeker.interests candidate.interests in
      let lifestyle = score_lifestyle fl lower prefs candidate in
      let goals = score_goals fl lower prefs candidate in
      let activity = score_activity fl lower recency candidate in
      fl.add
        (fl.add
          (fl.add (fl.add (fl.add (weighted 25 distance) (weighted 15 age)) (weighted 25 interests))
            (weighted 15 lifestyle))
          (weighted 12 goals))
        (weighted 8 activity)

  -- With the education as a modifier.
  unfoldable pub with_education : MatchPreference → Payload F → F → F
  unfolding score_education
  with_education prefs candidate total = elim (score_education fl lower prefs candidate) [
    | none ↦ total
    | some e ↦ fl.add (fl.mul total (fl.lit 92 2)) (fl.mul e (fl.lit 8 2))
  ]

  -- With the lift of a boost.
  unfoldable pub with_boost : Payload F → F → F
  with_boost candidate total =
      if candidate.is_boosted then fmin fl (fl.mul total (fl.lit 108 2)) (fl.lit 10 1) else total

  -- `int(round(max(0.0, min(total, 1.0)) * 100))`
  unfoldable pub as_percent : F → ℕ
  as_percent total =
      fl.round (fl.mul (fmax fl (fl.lit 0 1) (fmin fl total (fl.lit 10 1))) (fl.of_nat 100))

  abbrev lowered_set : List Text → List Text
  lowered_set ts = text_set (map lower ts)

  -- `compatibility`, of a candidate seen as recently as given
  unfoldable pub compatibility : Payload F → Option MatchPreference → F → Payload F → Verdict F
  unfolding prefs_or_empty weighted_sum with_education with_boost as_percent score_distance text_set
  compatibility seeker preferences recency candidate =
      let prefs = prefs_or_empty preferences in
      let total =
        with_boost candidate
          (with_education prefs candidate (weighted_sum seeker prefs recency candidate)) in
      record {
        score = as_percent total;
        distance_km = (score_distance fl lower seeker candidate prefs.max_distance_km).1;
        shared_interests = shared (lowered_set seeker.interests) (lowered_set candidate.interests);
      }

  -- The reasons of `passes_hard_filters`.
  unfoldable pub rejection : Option MatchPreference → Payload F → Bool → Option F → Option Text
  unfolding prefs_or_empty
  rejection preferences candidate is_verified distance_km =
      let prefs = prefs_or_empty preferences in
      if not candidate.is_visible
      then some (codes "profile hidden")
      else if not (is_empty prefs.interested_in) && not (is_in candidate.gender prefs.interested_in)
      then some (codes "gender preference")
      else if elim candidate.age [
        | none ↦ false
        | some a ↦ ltb a prefs.min_age || ltb prefs.max_age a
      ]
      then some (codes "outside age range")
      else if prefs.with_photos_only && candidate.photo_count == 0
      then some (codes "no photos")
      else if prefs.verified_only && not is_verified
      then some (codes "not verified")
      else if not prefs.show_me_globally
          && elim distance_km [ none ↦ false | some d ↦ fl.lt (fl.of_nat prefs.max_distance_km) d ]
      then some (codes "too far")
      else none

  -- `passes_hard_filters`
  unfoldable pub passes_hard_filters :
      Option MatchPreference → Payload F → Bool → Option F → Bool × Text
  unfolding rejection
  passes_hard_filters preferences candidate is_verified distance_km =
      elim (rejection preferences candidate is_verified distance_km) [
        | none ↦ (true, [])
        | some reason ↦ (false, reason)
      ]
