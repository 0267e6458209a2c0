-- ===== src/Profiles/Editing.antt =====
-- ProfileService and PreferenceService of apps/profiles/services.py. The comparison of the database
-- without case, `slugify_unique` and Django's `full_clean` are parameters.
use date_app.Common.{
  ℕ, ◌+◌, ◌-◌, ◌*◌, ◌/◌, Bool, true, false, not, ◌&&◌, ◌||◌, Option, none, some, List, [], ◌∷◌,
  ◌++◌, ltb, leb, ◌==◌, if◌then◌else◌, get_or, Text, codes, is_empty, length, take, first_where,
  exists_where, update_where, Action, ok, err, ZynoraError, pure, gets, or_raise, atomic, ◌>>=◌,
  ◌>>◌, raise_if, modify, raise_some, strip,
}
use date_app.Accounts.Directory.{includes}
use date_app.Profiles.Models.{
  Degrees, Interest, Profile, default_profile, refreshed, MatchPreference, default_preference,
  ProfileView, ProfileEvent, Store, is_of, is_preference_of,
}

-- `ProfileService.get_or_create`
unfoldable pub get_or_create : ℕ → Store → Profile × Store
get_or_create user s = elim (first_where (is_of user) s.profiles) [
  | some p ↦ (p, s)
  | none ↦ (
    default_profile user,
    record s {
      profiles = default_profile user ∷ s.profiles;
      preferences =
          if exists_where (is_preference_of user) s.preferences
          then s.preferences
          else default_preference user ∷ s.preferences;
    },
  )
]

-- `ProfileService.get`
unfoldable pub get : ℕ → Action Store Profile
get user = do
  or_raise (← gets (λ s. first_where (is_of user) s.profiles))
      (ZynoraError.not_found "That profile does not exist.")

abbrev pub save_profile : ℕ → (Profile → Profile) → Store → Store
save_profile user f s = record s { profiles = update_where (is_of user) f s.profiles }

-- What `set_interests` is given: an id, or a name.
pub data InterestItem : Type 0 where
  by_id : ℕ → InterestItem
  by_name : Text → InterestItem

abbrev pub is_interest : ℕ → Interest → Bool
is_interest id i = i.id == id

module _ (iexact : Text → Text → Bool) (slugify : Text → List Interest → Text) where
  abbrev pub new_interest : ℕ → Text → List Interest → Interest
  new_interest id name is = record {
    id = id;
    name = name;
    slug = slugify name is;
    category = codes "lifestyle";
    is_active = true;
    usage_count = 0;
  }

  -- One turn of the loop of `set_interests`: the interest, if there is one, and the table.
  unfoldable pub resolve_one : ℕ → InterestItem → List Interest → Option ℕ × List Interest
  resolve_one id (InterestItem.by_id i) is =
      (elim (first_where (is_interest i) is) [ none ↦ none | some x ↦ some x.id ], is)
  resolve_one id (InterestItem.by_name text) is =
      let name = take 60 (strip text) in
      elim (first_where (λ (i : Interest). iexact i.name (strip text)) is) [
        | some x ↦ (some x.id, is)
        | none ↦ if is_empty name then (none, is) else (some id, is ++ new_interest id name is ∷ [])
      ]

  -- The loop of `set_interests`; the ids of new interests are given from a number on.
  unfoldable pub resolve : ℕ → List InterestItem → List Interest → List ℕ × List Interest
  unfolding resolve_one
  resolve id [] is = ([], is)
  resolve id (x ∷ xs) is =
      let (found, js) = resolve_one id x is in
      let (rest, ks) = resolve (id + 1) xs js in
      (elim found [ none ↦ rest | some i ↦ i ∷ rest ], ks)

-- A set of ids.
unfoldable pub unique : List ℕ → List ℕ
unfolding includes
unique [] = []
unique (x ∷ xs) = let rest = unique xs in if includes x rest then rest else x ∷ rest

-- The usage counts after a profile's interests have changed.
unfoldable pub recounted : List ℕ → List ℕ → List Interest → List Interest
unfolding includes
recounted previous current is =
    update_where (λ i. includes i.id previous && not (includes i.id current) && ltb 0 i.usage_count)
      (λ i. record i { usage_count = i.usage_count - 1 })
      (update_where (λ i. includes i.id current && not (includes i.id previous))
        (λ i. record i { usage_count = i.usage_count + 1 }) is)

module _ (iexact : Text → Text → Bool) (slugify : Text → List Interest → Text) where
  -- `ProfileService.set_interests`
  unfoldable pub set_interests : ℕ → Profile → List InterestItem → Action Store (List ℕ)
  unfolding resolve unique recounted
  set_interests id p items s =
      let (resolved, table) = resolve iexact slugify id items s.interests in
      if ltb 15 (length resolved)
      then (
        err (ZynoraError.validation_error "Choose up to 15 interests."),
        record s { interests = table },
      )
      else (
        ok resolved,
        record (save_profile p.user (λ x. record x { interests = unique resolved }) s) {
          interests = recounted p.interests (unique resolved) table;
        },
      )

  abbrev pub current_profile : ℕ → Profile → Store → Profile
  current_profile user p s = get_or (first_where (is_of user) s.profiles) p

  -- `ProfileService.update` of a member's fields, if any is named, and of the interests, if they are.
  unfoldable pub update :
      (Profile → Option ZynoraError)
      → ℕ
      → ℕ
      → Option (Profile → Profile)
      → Option (List InterestItem)
      → Action Store (Unit {0})
  unfolding get_or_create set_interests refreshed
  update full_clean id user edit items = atomic do
    modify (λ s. (get_or_create user s).1)
    p ← gets (current_profile user (default_profile user))
    elim edit [
      | none ↦ pure tt
      | some f ↦ (raise_some (full_clean (f p)) >> modify (save_profile user f))
    ]
    elim items [ none ↦ pure tt | some xs ↦ (set_interests id p xs >> pure tt) ]
    modify (save_profile user refreshed)
    q ← gets (current_profile user p)
    modify λ s. record s {
      events = ProfileEvent.profile_updated user q.primary_photo_url q.completion_score ∷ s.events;
    }

-- `_coarse`: three places, half up.
unfoldable pub coarse : Degrees → Degrees
coarse d = record d { millionths = (d.millionths + 500) / 1000 * 1000 }

abbrev pub given_or : Text → Text → Text
given_or t old = if is_empty t then old else t

-- `ProfileService.update_location`
unfoldable pub located : ℕ → Degrees → Degrees → Text → Text → Text → Profile → Profile
unfolding coarse
located now latitude longitude city region country p = record p {
  latitude = some (coarse latitude);
  longitude = some (coarse longitude);
  city = given_or city p.city;
  region = given_or region p.region;
  country = given_or country p.country;
  location_updated_at = some now;
}

unfoldable pub update_location :
    (Profile → Option ZynoraError)
    → ℕ
    → ℕ
    → Degrees
    → Degrees
    → Text
    → Text
    → Text
    → Action Store (Unit {0})
unfolding get_or_create located refreshed
update_location full_clean now user latitude longitude city region country = do
  modify (λ s. (get_or_create user s).1)
  p ← gets (λ s. get_or (first_where (is_of user) s.profiles) (default_profile user))
  raise_some (full_clean (located now latitude longitude city region country p))
  modify (save_profile user (located now latitude longitude city region country))
  modify (save_profile user refreshed)

-- `ProfileService.set_visibility`, and `apply_boost` of apps/profiles/interface.py.
unfoldable pub set_visibility : ℕ → Bool → Store → Store
set_visibility user visible s = save_profile user (λ p. record p { is_visible = visible }) s

unfoldable pub apply_boost : ℕ → Option ℕ → Store → Store
apply_boost user until s = save_profile user (λ p. record p { is_boosted_until = until }) s

-- The filter of `record_view`: the last hour.
abbrev pub is_recent_view : ℕ → ℕ → ℕ → ProfileView → Bool
is_recent_view now viewer viewed v =
    v.viewer == viewer && v.viewed == viewed && leb now (v.created_at + 3600)

-- `ProfileService.record_view`
unfoldable pub record_view : ℕ → ℕ → ℕ → Text → Store → Bool × Store
record_view now viewer viewed source s =
    if viewer == viewed || exists_where (is_recent_view now viewer viewed) s.views
    then (false, s)
    else (
      true,
      record s {
        views =
            record { viewer = viewer; viewed = viewed; source = source; created_at = now }
            ∷ s.views;
      },
    )

-- `PreferenceService.update` of the fields that are named.
unfoldable pub update_preferences :
    (MatchPreference → Option ZynoraError)
    → ℕ
    → (MatchPreference → MatchPreference)
    → Action Store (Unit {0})
update_preferences full_clean user f = do
  modify λ s. record s {
    preferences =
        if exists_where (is_preference_of user) s.preferences
        then s.preferences
        else default_preference user ∷ s.preferences;
  }
  p ←
      gets
        (λ s. get_or (first_where (is_preference_of user) s.preferences) (default_preference user))
  raise_if (ltb (f p).max_age (f p).min_age)
      (ZynoraError.uncaught "Minimum age cannot exceed maximum age.")
  raise_some (full_clean (f p))
  modify λ s. record s {
    preferences = update_where (is_preference_of user) f s.preferences;
    events = ProfileEvent.preferences_updated user ∷ s.events;
  }
