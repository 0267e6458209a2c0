-- ===== src/Matching/Payloads.antt =====
-- What the engine is given: `get_match_payloads` and `get_preferences` of apps/profiles/interface.py.
-- The float of a stored coordinate is a parameter.
use date_app.Common.{
  ℕ, Bool, Option, none, some, List, map, ◌==◌, Text, first_where, filter_by, Date,
}
use date_app.Accounts.Models.{User, is_id, age}
use date_app.Accounts.Directory.{includes}
use date_app.Profiles.Models.{Degrees, Profile, is_boosted, Interest}
use date_app.Profiles.Reads.{interest_names}

pub record Payload (F : Type 0) : Type 0 where
  pub user_id : ℕ
  pub age : Option ℕ
  pub gender : Text
  pub latitude : Option F
  pub longitude : Option F
  pub interests : List Text
  pub relationship_goal : Text
  pub education_level : Text
  pub languages : List Text
  pub religion : Text
  pub smoking : Text
  pub drinking : Text
  pub children : Text
  pub completion_score : ℕ
  pub photo_count : ℕ
  pub is_visible : Bool
  pub is_boosted : Bool

module _ {F : Type 0} (of_degrees : Degrees → F) where
  abbrev float_of : Option Degrees → Option F
  float_of none = none
  float_of (some d) = some (of_degrees d)

  -- The payload of a profile whose account is there.
  unfoldable pub payload_of : ℕ → Date → List User → List Interest → Profile → Payload F
  unfolding interest_names
  payload_of now today users is p = record {
    user_id = p.user;
    age = elim (first_where (is_id p.user) users) [ none ↦ none | some u ↦ age today u ];
    gender = p.gender;
    latitude = float_of p.latitude;
    longitude = float_of p.longitude;
    interests = interest_names is p.interests;
    relationship_goal = p.relationship_goal;
    education_level = p.education_level;
    languages = p.languages;
    religion = p.religion;
    smoking = p.smoking;
    drinking = p.drinking;
    children = p.children;
    completion_score = p.completion_score;
    photo_count = p.photo_count;
    is_visible = p.is_visible;
    is_boosted = is_boosted now p;
  }

  -- `ProfilesInterface.get_match_payloads`
  unfoldable pub get_match_payloads :
      ℕ → Date → List User → List Interest → List Profile → List ℕ → List (Payload F)
  unfolding payload_of includes
  get_match_payloads now today users is ps ids =
      map (payload_of now today users is) (filter_by (λ (p : Profile). includes p.user ids) ps)

  -- The payload under a user's id.
  abbrev pub is_payload_of : ℕ → Payload F → Bool
  is_payload_of id p = p.user_id == id
