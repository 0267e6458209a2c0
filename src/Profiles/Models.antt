-- ===== src/Profiles/Models.antt =====
-- The tables of apps/profiles/models.py. A choice field is its stored text, empty when it is blank; a
-- coordinate is the sign and the millionths of its degrees.
use date_app.Common.{
  ℕ, ◌+◌, min, Bool, true, false, not, ◌&&◌, ◌||◌, Option, none, some, List, [], ◌∷◌, ltb, leb,
  ◌==◌, if◌then◌else◌, is_some, Text, is_empty, length, filter_by, join,
}

pub record Degrees : Type 0 where
  pub is_negative : Bool
  pub millionths : ℕ

pub record Interest : Type 0 where
  pub id : ℕ
  pub name : Text
  pub slug : Text
  pub category : Text
  pub is_active : Bool
  pub usage_count : ℕ

pub record Profile : Type 0 where
  pub user : ℕ
  pub headline : Text
  pub bio : Text
  pub gender : Text
  pub job_title : Text
  pub company : Text
  pub education_level : Text
  pub school : Text
  pub smoking : Text
  pub drinking : Text
  pub children : Text
  pub religion : Text
  pub languages : List Text
  pub relationship_goal : Text
  pub interests : List ℕ
  pub city : Text
  pub region : Text
  pub country : Text
  pub latitude : Option Degrees
  pub longitude : Option Degrees
  pub location_updated_at : Option ℕ
  pub completion_score : ℕ
  pub photo_count : ℕ
  pub primary_photo_url : Text
  pub is_visible : Bool
  pub is_boosted_until : Option ℕ

-- A row with the defaults of the model's fields.
abbrev pub default_profile : ℕ → Profile
default_profile user = record {
  user = user;
  headline = [];
  bio = [];
  gender = [];
  job_title = [];
  company = [];
  education_level = [];
  school = [];
  smoking = [];
  drinking = [];
  children = [];
  religion = [];
  languages = [];
  relationship_goal = [];
  interests = [];
  city = [];
  region = [];
  country = [];
  latitude = none;
  longitude = none;
  location_updated_at = none;
  completion_score = 0;
  photo_count = 0;
  primary_photo_url = [];
  is_visible = true;
  is_boosted_until = none;
}

-- `Profile.has_location`
abbrev pub has_location : Profile → Bool
has_location p = is_some p.latitude && is_some p.longitude

-- `Profile.is_boosted`
abbrev pub is_boosted : ℕ → Profile → Bool
is_boosted now p = elim p.is_boosted_until [ none ↦ false | some t ↦ ltb now t ]

-- `Profile.location_label` and `Profile.region_label`
abbrev pub location_label : Profile → Text
location_label p = join ", " (filter_by (λ t. not (is_empty t)) (p.city ∷ p.country ∷ []))

abbrev pub region_label : Profile → Text
region_label p = join ", " (
    filter_by (λ t. not (is_empty t))
      ((if is_empty p.region then p.city else p.region) ∷ p.country ∷ []))

-- `Profile.COMPLETION_RULES`
unfoldable pub completion_rules : List (ℕ × (Profile → Bool))
completion_rules =
    (20, λ p. leb 1 p.photo_count)
    ∷ (10, λ p. leb 3 p.photo_count)
    ∷ (15, λ p. leb 60 (length p.bio))
    ∷ (10, λ p. not (is_empty p.headline))
    ∷ (10, λ p. not (is_empty p.gender))
    ∷ (10, has_location)
    ∷ (10, λ p. leb 3 (length p.interests))
    ∷ (5, λ p. not (is_empty p.job_title) || not (is_empty p.school))
    ∷ (5, λ p. not (is_empty p.relationship_goal))
    ∷ (5, λ p. not (is_empty p.education_level))
    ∷ []

-- The weights of the rules that a profile meets.
unfoldable pub weight_of : List (ℕ × (Profile → Bool)) → Profile → ℕ
weight_of [] p = 0
weight_of (r ∷ rs) p = (if r.1 p then r.0 else 0) + weight_of rs p

-- `Profile.calculate_completion`
unfoldable pub calculate_completion : Profile → ℕ
unfolding completion_rules weight_of
calculate_completion p = min (weight_of completion_rules p) 100

-- `Profile.refresh_completion`
unfoldable pub refreshed : Profile → Profile
unfolding calculate_completion
refreshed p = record p { completion_score = calculate_completion p }

-- `ProfilePhoto.ModerationStatus`
pub data ModerationStatus : Type 0 where
  pending approved rejected : ModerationStatus

pub record ProfilePhoto : Type 0 where
  pub id : ℕ
  pub user : ℕ
  pub url : Text
  pub caption : Text
  pub position : ℕ
  pub is_primary : Bool
  pub moderation_status : ModerationStatus
  pub moderation_note : Text
  pub moderated_at : Option ℕ
  pub file_size : ℕ

-- `ProfilePhoto.is_public`
abbrev pub is_public : ProfilePhoto → Bool
is_public p = elim p.moderation_status [ ModerationStatus.approved ↦ true | _ ↦ false ]

pub record MatchPreference : Type 0 where
  pub user : ℕ
  pub interested_in : List Text
  pub min_age : ℕ
  pub max_age : ℕ
  pub max_distance_km : ℕ
  pub preferred_relationship_goals : List Text
  pub preferred_education_levels : List Text
  pub preferred_languages : List Text
  pub preferred_religion : Text
  pub smoking_preference : Text
  pub drinking_preference : Text
  pub children_preference : Text
  pub verified_only : Bool
  pub with_photos_only : Bool
  pub show_me_globally : Bool

abbrev pub default_preference : ℕ → MatchPreference
default_preference user = record {
  user = user;
  interested_in = [];
  min_age = 18;
  max_age = 45;
  max_distance_km = 100;
  preferred_relationship_goals = [];
  preferred_education_levels = [];
  preferred_languages = [];
  preferred_religion = [];
  smoking_preference = [];
  drinking_preference = [];
  children_preference = [];
  verified_only = false;
  with_photos_only = true;
  show_me_globally = false;
}

pub record ProfileView : Type 0 where
  pub viewer : ℕ
  pub viewed : ℕ
  pub source : Text
  pub created_at : ℕ

pub data ProfileEvent : Type 0 where
  profile_updated : ℕ → Text → ℕ → ProfileEvent
  photo_uploaded : ℕ → ℕ → Text → ProfileEvent
  preferences_updated : ℕ → ProfileEvent

pub record Store : Type 0 where
  pub profiles : List Profile
  pub photos : List ProfilePhoto
  pub preferences : List MatchPreference
  pub views : List ProfileView
  pub interests : List Interest
  pub events : List ProfileEvent

abbrev pub is_of : ℕ → Profile → Bool
is_of user p = p.user == user

abbrev pub is_photo_of : ℕ → ProfilePhoto → Bool
is_photo_of user p = p.user == user

abbrev pub is_preference_of : ℕ → MatchPreference → Bool
is_preference_of user p = p.user == user
