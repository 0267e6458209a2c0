-- ===== src/Profiles/Tests.antt =====
-- The theorems on profiles and galleries, at small tables.
use date_app.Common.{refl, true, false, [], ◌∷◌, codes, filter_by, exists_where, sort_by}
use date_app.Profiles.Models.{Degrees, Profile, default_profile, Store}
use date_app.Profiles.Gallery.{shown, cover, upload, delete, set_primary, apply_moderation}
use date_app.Profiles.Counters.{IsGallery, Step, Reach, Reach-IsGallery}

abbrev table : Store
table = record {
  profiles = default_profile 4 ∷ [];
  photos = [];
  preferences = [];
  views = [];
  interests = [];
  events = [];
}

-- An upload, its approval, and its removal.
abbrev with_upload : Store
with_upload = (upload 1 4 (codes "a.jpg") [] false 100 table).1

abbrev with_approval : Store
with_approval = (apply_moderation 50 1 true [] with_upload).1

abbrev with_choice : Store
with_choice = (set_primary 4 1 with_approval).1

abbrev with_removal : Store
with_removal = (delete 4 1 with_choice).1

steps : Reach table with_removal
unfolding exists_where
steps =
    Reach.next
      (Reach.next
        (Reach.next
          (Reach.next Reach.stay (Step.uploads 1 4 (codes "a.jpg") [] false 100 table refl))
          (Step.moderates 50 1 true [] with_upload))
        (Step.chooses 4 1 with_approval))
      (Step.deletes 4 1 with_choice)

Reach-IsGallery_example : IsGallery with_removal
unfolding shown cover sort_by filter_by
Reach-IsGallery_example = Reach-IsGallery table with_removal steps (tt, ((refl, refl), tt))

abbrev greeter : Profile
greeter = record (default_profile 4) { photo_count = 1; headline = codes "Hello" }

abbrev thessaloniki : Degrees
thessaloniki = record { is_negative = false; millionths = 40640063 }
