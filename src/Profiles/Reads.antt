-- ===== src/Profiles/Reads.antt =====
-- What other services read of the profiles: apps/profiles/interface.py, and `viewers_of` of
-- apps/profiles/services.py. A search of a text in another, without case, is a parameter.
use date_app.Common.{
  ℕ, Bool, true, false, not, ◌&&◌, ◌||◌, Option, none, some, List, [], ◌∷◌, map, ltb, leb, ◌==◌,
  if◌then◌else◌, is_some, Text, is_empty, length, take, first_where, filter_by, exists_where,
  count_where, strip, sort_by,
}
use date_app.Accounts.Directory.{includes}
use date_app.Profiles.Models.{
  Interest, Profile, ProfilePhoto, MatchPreference, Store, is_of, is_preference_of,
}
use date_app.Profiles.Editing.{unique, is_interest}
use date_app.Profiles.Gallery.{primary_first, is_shown}

-- `ProfilesInterface.get_photo_urls` of the approved photos
unfoldable pub get_photo_urls : ℕ → Store → List Text
get_photo_urls user s =
    filter_by (λ t. not (is_empty t))
      (map (λ (p : ProfilePhoto). p.url)
        (sort_by primary_first (filter_by (is_shown user) s.photos)))

-- `Profile.interest_names`
unfoldable pub interest_names : List Interest → List ℕ → List Text
interest_names is [] = []
interest_names is (i ∷ rest) =
    let names = interest_names is rest in
    elim (first_where (is_interest i) is) [ none ↦ names | some x ↦ x.name ∷ names ]

-- `ProfilesInterface.exists`, `is_visible` and `get_completion`
unfoldable pub profile_exists : ℕ → Store → Bool
profile_exists user s = exists_where (is_of user) s.profiles

unfoldable pub is_profile_visible : ℕ → Store → Bool
is_profile_visible user s = exists_where (λ p. is_of user p && p.is_visible) s.profiles

unfoldable pub get_completion : ℕ → Store → ℕ
get_completion user s = elim (first_where (is_of user) s.profiles) [
  | none ↦ 0
  | some p ↦ p.completion_score
]

-- The groups of fields of `search_ids`.
pub data FieldGroup : Type 0 where
  region country job interests about : FieldGroup

module _ (icontains : Text → Text → Bool) where
  abbrev pub group_matches : List Interest → Text → FieldGroup → Profile → Bool
  group_matches is query FieldGroup.region p = icontains p.city query || icontains p.region query
  group_matches is query FieldGroup.country p = icontains p.country query
  group_matches is query FieldGroup.job p =
      icontains p.job_title query || icontains p.company query || icontains p.school query
  group_matches is query FieldGroup.interests p =
      exists_where (λ t. icontains t query) (interest_names is p.interests)
  group_matches is query FieldGroup.about p = icontains p.headline query || icontains p.bio query

  -- The groups combined by `|`.
  unfoldable pub any_matches : List Interest → Text → List FieldGroup → Profile → Bool
  unfolding interest_names
  any_matches is query [] p = false
  any_matches is query (g ∷ gs) p = group_matches is query g p || any_matches is query gs p

  -- `ProfilesInterface.search_ids`
  unfoldable pub search_ids : Text → List ℕ → ℕ → List FieldGroup → Store → List ℕ
  unfolding any_matches unique includes
  search_ids text excluded limit groups s =
      let query = strip text in
      if ltb (length query) 2
      then []
      else take limit (
          unique (
            map (λ (p : Profile). p.user)
              (filter_by
                (λ p.
                  p.is_visible
                  && any_matches s.interests query groups p
                  && not (includes p.user excluded))
                s.profiles)))

-- `ProfilesInterface.filter_visible_ids`
unfoldable pub filter_visible_ids : List ℕ → Store → List ℕ
unfolding includes
filter_visible_ids ids s =
    map (λ (p : Profile). p.user) (filter_by (λ p. includes p.user ids && p.is_visible) s.profiles)

-- `ProfilesInterface.get_preferences`
unfoldable pub get_preferences : ℕ → Store → Option MatchPreference
get_preferences user s = first_where (is_preference_of user) s.preferences

-- `ProfilesInterface.count_views`, since a time if one is given
unfoldable pub count_views : ℕ → Option ℕ → Store → ℕ
count_views user since s =
    count_where (λ v. v.viewed == user && elim since [ none ↦ true | some t ↦ leb t v.created_at ])
      s.views

-- `ProfilesInterface.pool_stats`
pub record PoolStats : Type 0 where
  pub profiles : ℕ
  pub visible : ℕ
  pub with_gender : ℕ
  pub with_location : ℕ
  pub with_photos : ℕ
  pub without_photos : ℕ

unfoldable pub pool_stats : Store → PoolStats
pool_stats s = record {
  profiles = length s.profiles;
  visible = count_where (λ (p : Profile). p.is_visible) s.profiles;
  with_gender = count_where (λ (p : Profile). not (is_empty p.gender)) s.profiles;
  with_location = count_where (λ (p : Profile). is_some p.latitude) s.profiles;
  with_photos = count_where (λ (p : Profile). ltb 0 p.photo_count) s.profiles;
  without_photos = count_where (λ (p : Profile). p.photo_count == 0) s.profiles;
}
