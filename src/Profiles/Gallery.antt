-- ===== src/Profiles/Gallery.antt =====
-- PhotoService of apps/profiles/services.py. A photo's moderation is asked of the moderation service,
-- whose failures are swallowed; where the review decides at once, its handler applies the verdict
-- within `upload`, which here is a call of `apply_moderation` after it.
use date_app.Common.{
  ℕ, ◌+◌, Bool, true, false, not, ◌&&◌, ◌||◌, none, some, List, [], ◌∷◌, ◌++◌, leb, ◌==◌,
  if◌then◌else◌, Text, length, take, first_where, filter_by, exists_where, count_where,
  update_where, delete_where, Action, ZynoraError, pure, gets, or_raise, atomic, ◌>>=◌, ◌>>◌,
  raise_if, modify, sort_by,
}
use date_app.Profiles.Models.{
  Profile, refreshed, ModerationStatus, ProfilePhoto, is_public, ProfileEvent, Store, is_of,
  is_photo_of,
}
use date_app.Profiles.Editing.{get_or_create, save_profile}

abbrev pub max_photos : ℕ
max_photos = 9

abbrev pub is_own_photo : ℕ → ℕ → ProfilePhoto → Bool
is_own_photo user id p = p.id == id && p.user == user

-- The approved photos of a member, in the order of the gallery: the primary photo first.
abbrev pub is_shown : ℕ → ProfilePhoto → Bool
is_shown user p = is_photo_of user p && is_public p

abbrev pub by_position : ProfilePhoto → ProfilePhoto → Bool
by_position a b = leb a.position b.position

abbrev pub primary_first : ProfilePhoto → ProfilePhoto → Bool
primary_first a b =
    if a.is_primary
    then not b.is_primary || by_position a b
    else not b.is_primary && by_position a b

unfoldable pub shown : ℕ → List ProfilePhoto → List ProfilePhoto
shown user ps = sort_by primary_first (filter_by (is_shown user) ps)

-- The url of the first of them.
unfoldable pub cover : ℕ → List ProfilePhoto → Text
unfolding shown
cover user ps = elim (shown user ps) [ [] ↦ [] | p ∷ _ ↦ p.url ]

-- The profile's counters, as `_sync_profile` recomputes them.
unfoldable pub synced : List ProfilePhoto → Profile → Profile
unfolding cover refreshed
synced photos p = refreshed (record p {
  photo_count = length (shown p.user photos);
  primary_photo_url = cover p.user photos;
})

-- `PhotoService._sync_profile` of a member's profile
unfoldable pub sync_profile : ℕ → Store → Store
unfolding synced
sync_profile user s =
    let t = save_profile user (synced s.photos) s in
    elim (first_where (is_of user) t.profiles) [
      | none ↦ t
      | some p ↦ record t {
        events =
            ProfileEvent.profile_updated user p.primary_photo_url p.completion_score ∷ t.events;
      }
    ]

abbrev pub lowered : ProfilePhoto → ProfilePhoto
lowered p = record p { is_primary = false }

abbrev pub raised : ProfilePhoto → ProfilePhoto
raised p = record p { is_primary = true }

-- The row of `upload`.
unfoldable pub new_photo : ℕ → ℕ → Text → Text → Bool → ℕ → ℕ → ProfilePhoto
new_photo id user url caption make_primary count size = record {
  id = id;
  user = user;
  url = url;
  caption = take 140 caption;
  position = count;
  is_primary = make_primary || count == 0;
  moderation_status = ModerationStatus.pending;
  moderation_note = [];
  moderated_at = none;
  file_size = size;
}

-- The photos with one more; a primary one takes the place of the others.
unfoldable pub with_photo : ProfilePhoto → List ProfilePhoto → List ProfilePhoto
with_photo p ps =
    (if p.is_primary then update_where (is_photo_of p.user) lowered ps else ps) ++ p ∷ []

-- `PhotoService.upload`
unfoldable pub upload : ℕ → ℕ → Text → Text → Bool → ℕ → Action Store ProfilePhoto
unfolding get_or_create with_photo new_photo sync_profile
upload id user url caption make_primary size = atomic do
  modify (λ s. (get_or_create user s).1)
  count ← gets (λ s. count_where (is_photo_of user) s.photos)
  raise_if (leb max_photos count) (ZynoraError.quota_exceeded "You can upload at most 9 photos.")
  let photo = new_photo id user url caption make_primary count size
  modify λ s. record s { photos = with_photo photo s.photos }
  modify (sync_profile user)
  modify λ s. record s {
    events = ProfileEvent.photo_uploaded user id (cover user s.photos) ∷ s.events;
  }
  pure photo

abbrev pub is_photo : ℕ → ProfilePhoto → Bool
is_photo id p = p.id == id

-- The loop of `delete` over the remaining photos.
unfoldable pub renumbered : ℕ → List ProfilePhoto → List ProfilePhoto → List ProfilePhoto
renumbered index [] ps = ps
renumbered index (q ∷ qs) ps =
    renumbered (index + 1) qs (update_where (is_photo q.id) (λ x. record x { position = index }) ps)

abbrev pub remaining : ℕ → List ProfilePhoto → List ProfilePhoto
remaining user ps = sort_by by_position (filter_by (is_photo_of user) ps)

-- The first of them becomes primary when the primary photo is gone.
unfoldable pub promoted : ℕ → Bool → List ProfilePhoto → List ProfilePhoto
promoted user was_primary ps =
    if was_primary
    then elim (remaining user ps) [ [] ↦ ps | q ∷ _ ↦ update_where (is_photo q.id) raised ps ]
    else ps

-- `PhotoService.delete`
unfoldable pub delete : ℕ → ℕ → Action Store Bool
unfolding renumbered promoted get_or_create sync_profile
delete user id = atomic do
  photo ←
      or_raise (← gets (λ s. first_where (is_own_photo user id) s.photos))
        (ZynoraError.not_found "Photo not found.")
  modify λ s. record s { photos = delete_where (is_photo id) s.photos }
  modify λ s. record s { photos = renumbered 0 (remaining user s.photos) s.photos }
  modify λ s. record s { photos = promoted user photo.is_primary s.photos }
  modify (λ s. (get_or_create user s).1)
  modify (sync_profile user)
  pure true

-- `PhotoService.set_primary`
unfoldable pub set_primary : ℕ → ℕ → Action Store ProfilePhoto
unfolding get_or_create sync_profile
set_primary user id = atomic do
  photo ←
      or_raise (← gets (λ s. first_where (is_own_photo user id) s.photos))
        (ZynoraError.not_found "Photo not found.")
  raise_if (not (is_public photo))
      (ZynoraError.validation_error "That photo is still being reviewed.")
  modify λ s. record s {
    photos = update_where (is_photo id) raised (update_where (is_photo_of user) lowered s.photos);
  }
  modify (λ s. (get_or_create user s).1)
  modify (sync_profile user)
  pure (raised photo)

-- `PhotoService.reorder`: the photos get their places in the list of ids.
unfoldable pub reordered : ℕ → ℕ → List ℕ → List ProfilePhoto → List ProfilePhoto
reordered user index [] ps = ps
reordered user index (id ∷ ids) ps =
    reordered user (index + 1) ids
      (update_where (is_own_photo user id) (λ x. record x { position = index }) ps)

unfoldable pub reorder : ℕ → List ℕ → Store → Store
unfolding reordered
reorder user ids s = record s { photos = reordered user 0 ids s.photos }

abbrev pub judged : ℕ → Bool → Text → ProfilePhoto → ProfilePhoto
judged now approved note p = record p {
  moderation_status = if approved then ModerationStatus.approved else ModerationStatus.rejected;
  moderation_note = take 255 note;
  moderated_at = some now;
}

-- `PhotoService.apply_moderation`
unfoldable pub apply_moderation : ℕ → ℕ → Bool → Text → Store → Bool × Store
unfolding sync_profile
apply_moderation now id approved note s = elim (first_where (is_photo id) s.photos) [
  | none ↦ (false, s)
  | some p ↦
      let t = record s {
        photos = update_where (is_photo id) (judged now approved note) s.photos;
      } in
      (true, if exists_where (is_of p.user) t.profiles then sync_profile p.user t else t)
]
