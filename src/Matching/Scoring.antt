-- ===== src/Matching/Scoring.antt =====
-- The dimension scorers of apps/matching/engine.py and `haversine_km` of apps/common/utils.py, over
-- Python's floats. Python's `lower` is a parameter.
use date_app.Common.{
  ℕ, ◌+◌, ◌-◌, String, Bool, not, ◌&&◌, ◌||◌, Option, none, some, List, [], ◌∷◌, map, ltb, leb,
  ◌==◌, if◌then◌else◌, Text, codes, is_empty, length, filter_by, exists_where, same_text, strip,
  Floats, fmin, fmax,
}
use date_app.Profiles.Models.{MatchPreference}
use date_app.Matching.Payloads.{Payload}

-- `t in ts`
abbrev pub is_in : Text → List Text → Bool
is_in t ts = exists_where (same_text t) ts

-- A set of texts.
unfoldable pub text_set : List Text → List Text
text_set [] = []
text_set (t ∷ ts) = let rest = text_set ts in if is_in t rest then rest else t ∷ rest

abbrev pub shared : List Text → List Text → List Text
shared a b = filter_by (λ t. is_in t b) a

module _ {F : Type 0} (fl : Floats F) (lower : Text → Text) where
  abbrev nat : ℕ → F
  nat = fl.of_nat

  abbrev square : F → F
  square x = fl.mul x x

  -- `haversine_km` of four coordinates, and with one of them missing. The arc sine is total here: that
  -- `math.asin` refuses an argument which rounding has left above 1 is not modelled.
  unfoldable pub haversine : F → F → F → F → F
  haversine lat1 lon1 lat2 lon2 =
      let p1 = fl.radians lat1 in
      let p2 = fl.radians lat2 in
      let d_phi = fl.sub p2 p1 in
      let d_lambda = fl.radians (fl.sub lon2 lon1) in
      let a =
        fl.add (square (fl.sin (fl.div d_phi (nat 2))))
          (fl.mul (fl.mul (fl.cos p1) (fl.cos p2)) (square (fl.sin (fl.div d_lambda (nat 2))))) in
      fl.round_to 2 (fl.mul (fl.mul (nat 2) (fl.lit 63710 1)) (fl.asin (fl.sqrt a)))

  abbrev pub haversine_km : Option F → Option F → Option F → Option F → Option F
  haversine_km (some lat1) (some lon1) (some lat2) (some lon2) =
      some (haversine lat1 lon1 lat2 lon2)
  haversine_km (some lat1) (some lon1) (some lat2) none = none
  haversine_km (some lat1) (some lon1) none o = none
  haversine_km (some lat1) none o p = none
  haversine_km none o p q = none

  -- `score_distance`
  unfoldable pub score_distance : Payload F → Payload F → ℕ → F × Option F
  unfolding haversine
  score_distance seeker candidate max_distance_km =
      elim (haversine_km seeker.latitude seeker.longitude candidate.latitude candidate.longitude) [
        | none ↦ (fl.lit 5 1, none)
        | some distance ↦
            if max_distance_km == 0
            then (fl.lit 5 1, some distance)
            else if not (fl.lt distance (nat max_distance_km))
            then (fl.lit 0 1, some distance)
            else (
              fl.round_to 4
                  (fl.sub (fl.lit 10 1) (fl.sqrt (fl.div distance (nat max_distance_km)))),
              some distance,
            )
      ]

  -- `score_age`
  unfoldable pub score_age : Option ℕ → ℕ → ℕ → F
  score_age none min_age max_age = fl.lit 5 1
  score_age (some age) min_age max_age =
      if leb min_age age && leb age max_age
      then (let midpoint = fl.div (nat (min_age + max_age)) (nat 2) in
          let span = fmax fl (fl.div (fl.sub (nat max_age) (nat min_age)) (nat 2)) (nat 1) in
          fl.round_to 4 (
            fl.sub (fl.lit 10 1)
              (fl.div (fl.mul (fl.lit 25 2) (fl.abs (fl.sub (nat age) midpoint))) span)))
      else (let overshoot = if ltb age min_age then min_age - age else age - max_age in
          fl.round_to 4
            (fmax fl (fl.lit 0 1) (fl.sub (fl.lit 5 1) (fl.mul (nat overshoot) (fl.lit 1 1)))))

  abbrev lowered : List Text → List Text
  lowered ts = text_set (map lower ts)

  -- `score_interests`
  unfoldable pub score_interests : List Text → List Text → F
  unfolding text_set
  score_interests seeker candidate =
      let a = lowered seeker in
      let b = lowered candidate in
      let common = length (shared a b) in
      if is_empty a || is_empty b
      then fl.lit 3 1
      else (let jaccard = fl.div (nat common) (nat (length a + length b - common)) in
          let bonus = if common == 0 then fl.lit 0 1 else fl.lit 15 2 in
          fl.round_to 4 (fmin fl (fl.add (fl.mul jaccard (fl.lit 16 1)) bonus) (fl.lit 10 1)))

  abbrev is_pair : Text → Text → String → String → Bool
  is_pair a b x y =
      same_text a (codes x) && same_text b (codes y)
      || same_text a (codes y) && same_text b (codes x)

  -- One of the checks of `score_lifestyle`: the points so far, and how many checks counted.
  unfoldable pub check_choice : Text → Text → ℕ × F → ℕ × F
  check_choice wanted actual (considered, points) =
      if is_empty wanted || same_text wanted (codes "prefer_not")
      then (considered, points)
      else if is_empty actual
      then (considered + 1, fl.add points (fl.lit 5 1))
      else if same_text wanted actual
      then (considered + 1, fl.add points (fl.lit 10 1))
      else if is_pair wanted actual "never" "socially"
      then (considered + 1, fl.add points (fl.lit 6 1))
      else if is_pair wanted actual "socially" "regularly"
      then (considered + 1, fl.add points (fl.lit 5 1))
      else (considered + 1, points)

  -- A check that counts whenever it is asked for.
  unfoldable pub check_asked : Bool → Bool → ℕ × F → ℕ × F
  check_asked asked met (considered, points) =
      if asked
      then (considered + 1, fl.add points (if met then fl.lit 10 1 else fl.lit 2 1))
      else (considered, points)

  -- `score_lifestyle`
  unfoldable pub score_lifestyle : MatchPreference → Payload F → F
  unfolding check_choice check_asked text_set
  score_lifestyle prefs candidate =
      let choices = check_choice prefs.children_preference candidate.children (
        check_choice prefs.drinking_preference candidate.drinking
          (check_choice prefs.smoking_preference candidate.smoking (0, fl.lit 0 1))) in
      let religion = lower (strip prefs.preferred_religion) in
      let believed =
        check_asked (not (is_empty religion)) (same_text religion (lower candidate.religion))
          choices in
      let languages = lowered prefs.preferred_languages in
      let (considered, points) =
        check_asked (not (is_empty languages))
          (not (is_empty (shared languages (lowered candidate.languages)))) believed in
      if considered == 0 then fl.lit 5 1 else fl.round_to 4 (fl.div points (nat considered))

  -- `score_goals`
  unfoldable pub score_goals : MatchPreference → Payload F → F
  score_goals prefs candidate =
      if is_empty prefs.preferred_relationship_goals
      then fl.lit 6 1
      else if is_empty candidate.relationship_goal
      then fl.lit 4 1
      else if is_in candidate.relationship_goal prefs.preferred_relationship_goals
      then fl.lit 10 1
      else if same_text candidate.relationship_goal (codes "unsure")
      then fl.lit 5 1
      else fl.lit 15 2

  -- `score_activity`
  unfoldable pub score_activity : F → Payload F → F
  score_activity recency candidate =
      let completion = fl.div (nat candidate.completion_score) (nat 100) in
      let photos = fmin fl (fl.div (nat candidate.photo_count) (nat 3)) (fl.lit 10 1) in
      fl.round_to 4 (
        fl.add (fl.add (fl.mul completion (fl.lit 4 1)) (fl.mul photos (fl.lit 3 1)))
          (fl.mul recency (fl.lit 3 1)))

  -- `score_education`
  unfoldable pub score_education : MatchPreference → Payload F → Option F
  score_education prefs candidate =
      if is_empty prefs.preferred_education_levels
      then none
      else some (
          if is_in candidate.education_level prefs.preferred_education_levels
          then fl.lit 10 1
          else fl.lit 3 1)
