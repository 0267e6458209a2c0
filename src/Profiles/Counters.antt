-- ===== src/Profiles/Counters.antt =====
-- The counters of the profiles through every change of a gallery: PhotoService of
-- apps/profiles/services.py.
use date_app.Common.{
  ℕ, ◌≡◌, refl, sym, ap, subst, ◌∙◌, inl, inr, Bool, true, false, none, some, List, arith,
  Bool-cases, Option-cases, Text, first_where, exists_where, update_where, delete_where, Distinct,
  All, update_absent, Result, ok, err, ZynoraError, Distinct-delete,
}
use date_app.Profiles.Models.{ProfilePhoto, is_public, Store, is_of, is_photo_of}
use date_app.Profiles.Editing.{get_or_create}
use date_app.Profiles.Gallery.{
  is_own_photo, synced, sync_profile, lowered, raised, upload, is_photo, renumbered, remaining,
  promoted, delete, set_primary, judged, apply_moderation,
}
use date_app.Profiles.Photos.{
  IsSynced, Frame, Frame-update, Frame-delete, Frame-trans, Owned-update, Owned-self, Left-IsSynced,
  sync_profiles, sync_photos, Left-of, upload_leaves, upload-Distinct,
}
use date_app.Profiles.Galleries.{
  same_photo, Owned-found, Owned-first, Owned-remaining, renumbered-Frame, update-Distinct,
  renumbered-Distinct, promoted-Frame,
}

-- The photos have different ids, and every profile shows what its approved photos give.
abbrev pub IsGallery : Store → Type 0
IsGallery s = Distinct same_photo s.photos × All (IsSynced s.photos) s.profiles

abbrev stateof : {A : Type 0} → Result A × Store → Store
stateof r = r.1

module _ (user : ℕ) (s : Store) (ps : List ProfilePhoto) where
  abbrev with_photos : Store
  with_photos = record s { photos = ps }

  created_rows :
      ((get_or_create user with_photos).1.profiles ≡ (get_or_create user s).1.profiles)
      × ((get_or_create user with_photos).1.photos ≡ ps)
  unfolding get_or_create
  created_rows = elim (Option-cases (first_where (is_of user) s.profiles)) [
    | inl e ↦ rw (e, get_or_create) (refl, refl)
    | inr g ↦ rw (g.1, get_or_create) (refl, refl)
  ]

  -- New photos, and then the member's profile.
  changed :
      (t : Store)
      → Frame user s.photos ps
      → Distinct same_photo ps
      → t ≡ sync_profile user (get_or_create user with_photos).1
      → IsGallery s
      → IsGallery t
  changed t f d e (c, h) =
      let u = (get_or_create user with_photos).1 in
      let (a, b) = created_rows in
      (
        subst (Distinct same_photo) (sym (ap (λ (x : Store). x.photos) e ∙ sync_photos user u ∙ b))
            d,
        Left-IsSynced user s t
            (Left-of user s ps t u f (ap (λ (x : Store). x.photos) e)
              (ap (λ (x : Store). x.profiles) e) b a)
            h,
      )

module _ (user id : ℕ) (s : Store) where
  abbrev left_over : List ProfilePhoto
  left_over = delete_where (is_photo id) s.photos

  abbrev after_delete : ProfilePhoto → List ProfilePhoto
  after_delete p = promoted user p.is_primary (renumbered 0 (remaining user left_over) left_over)

  delete_found :
      (p : ProfilePhoto)
      → first_where (is_own_photo user id) s.photos ≡ some p
      → delete user id s
        ≡ (ok true, sync_profile user (get_or_create user (record s { photos = after_delete p })).1)
  unfolding delete
  delete_found p e = ground (arith, e)

  delete_missing :
      first_where (is_own_photo user id) s.photos ≡ none
      → delete user id s ≡ (err (ZynoraError.not_found "Photo not found."), s)
  unfolding delete
  delete_missing e = ground (arith, e)

  delete-IsGallery : IsGallery s → IsGallery (delete user id s).1
  delete-IsGallery (d, h) = elim (Option-cases (first_where (is_own_photo user id) s.photos)) [
    | inl e ↦ rw (delete_missing e) (d, h)
    | inr g ↦
        let (p, e) = g in
        let ds = Distinct-delete same_photo (is_photo id) s.photos d in
        let rs = renumbered-Distinct 0 (remaining user left_over) left_over ds in
        let (f, es) = promoted-Frame user p.is_primary _ rs in
        changed user s (after_delete p) (delete user id s).1
          (Frame-trans user s.photos left_over (after_delete p)
            (Frame-delete user (is_photo id) s.photos (Owned-found user id s.photos p d e))
            (Frame-trans user left_over _ (after_delete p)
              (renumbered-Frame user 0 (remaining user left_over) left_over
                (Owned-remaining user left_over ds))
              f))
          es (ap stateof (delete_found p e)) (d, h)
  ]

  abbrev after_choice : List ProfilePhoto
  after_choice =
      update_where (is_photo id) raised (update_where (is_photo_of user) lowered s.photos)

  set_primary_found :
      (p : ProfilePhoto)
      → first_where (is_own_photo user id) s.photos ≡ some p
      → is_public p ≡ true
      → set_primary user id s ≡ (
        ok (raised p),
        sync_profile user (get_or_create user (record s { photos = after_choice })).1,
      )
  unfolding set_primary
  set_primary_found p e a = ground (arith, e, a)

  set_primary_refused :
      (p : ProfilePhoto)
      → first_where (is_own_photo user id) s.photos ≡ some p
      → is_public p ≡ false
      → set_primary user id s
        ≡ (err (ZynoraError.validation_error "That photo is still being reviewed."), s)
  unfolding set_primary
  set_primary_refused p e a = ground (arith, e, a)

  set_primary_missing :
      first_where (is_own_photo user id) s.photos ≡ none
      → set_primary user id s ≡ (err (ZynoraError.not_found "Photo not found."), s)
  unfolding set_primary
  set_primary_missing e = ground (arith, e)

  set_primary-IsGallery : IsGallery s → IsGallery (set_primary user id s).1
  set_primary-IsGallery (d, h) = elim (Option-cases (first_where (is_own_photo user id) s.photos)) [
    | inl e ↦ rw (set_primary_missing e) (d, h)
    | inr g ↦
        let (p, e) = g in
        elim (Bool-cases (is_public p)) [
          | inr a ↦ rw (set_primary_refused p e a) (d, h)
          | inl a ↦
              let own = Owned-found user id s.photos p d e in
              let mid = update_where (is_photo_of user) lowered s.photos in
              changed user s after_choice (set_primary user id s).1
                (Frame-trans user s.photos mid after_choice
                  (Frame-update user (is_photo_of user) lowered s.photos (λ x. refl)
                    (Owned-self user s.photos))
                  (Frame-update user (is_photo id) raised mid (λ x. refl)
                    (Owned-update user (is_photo id) (is_photo_of user) lowered s.photos
                      (λ x. (refl, refl)) own)))
                (update-Distinct (is_photo id) raised mid (λ x. refl)
                  (update-Distinct (is_photo_of user) lowered s.photos (λ x. refl) d))
                (ap stateof (set_primary_found p e a)) (d, h)
        ]
  ]

module _ (now id : ℕ) (approved : Bool) (note : Text) (s : Store) where
  abbrev verdicts : List ProfilePhoto
  verdicts = update_where (is_photo id) (judged now approved note) s.photos

  moderation_missing :
      first_where (is_photo id) s.photos ≡ none
      → apply_moderation now id approved note s ≡ (false, s)
  unfolding apply_moderation
  moderation_missing e = rw (e, apply_moderation) refl

  moderation_rows :
      (p : ProfilePhoto)
      → first_where (is_photo id) s.photos ≡ some p
      → let t = (apply_moderation now id approved note s).1 in
        (t.photos ≡ verdicts)
        × (t.profiles ≡ update_where (is_of p.user) (synced verdicts) s.profiles)
  unfolding apply_moderation
  moderation_rows p e = elim (Bool-cases (exists_where (is_of p.user) s.profiles)) [
    | inl there ↦
        rw (e, apply_moderation, there)
          (
            sync_photos p.user (record s { photos = verdicts }),
            sync_profiles p.user (record s { photos = verdicts }),
          )
    | inr gone ↦
        rw (e, apply_moderation, gone)
          (refl, sym (update_absent (is_of p.user) (synced verdicts) s.profiles gone))
  ]

  apply_moderation-IsGallery : IsGallery s → IsGallery (apply_moderation now id approved note s).1
  apply_moderation-IsGallery (d, h) = elim (Option-cases (first_where (is_photo id) s.photos)) [
    | inl e ↦ rw (moderation_missing e) (d, h)
    | inr g ↦
        let (p, e) = g in
        let (a, b) = moderation_rows p e in
        let own = Owned-first id s.photos p d e in
        (
          subst (Distinct same_photo) (sym a)
              (update-Distinct (is_photo id) (judged now approved note) s.photos (λ x. refl) d),
          Left-IsSynced p.user s (apply_moderation now id approved note s).1
              (inr (
                record s { photos = verdicts },
                a,
                b,
                Frame-update p.user (is_photo id) (judged now approved note) s.photos (λ x. refl)
                    own,
                λ x. x,
              ))
              h,
        )
  ]

-- A change of a gallery; a new photo has an id of its own.
pub data Step : Store → Store → Type 0 where
  uploads :
      (id user : ℕ) (url caption : Text) (make_primary : Bool) (size : ℕ) (s : Store)
      → exists_where (is_photo id) s.photos ≡ false
      → Step s (upload id user url caption make_primary size s).1
  deletes : (user id : ℕ) (s : Store) → Step s (delete user id s).1
  chooses : (user id : ℕ) (s : Store) → Step s (set_primary user id s).1
  moderates :
      (now id : ℕ) (approved : Bool) (note : Text) (s : Store)
      → Step s (apply_moderation now id approved note s).1

pub data Reach : Store → Store → Type 0 where
  stay : {s : Store} → Reach s s
  next : {s t u : Store} → Reach s t → Step t u → Reach s u

Step-IsGallery : (s t : Store) → Step s t → IsGallery s → IsGallery t
Step-IsGallery _ _ (uploads id user url caption make_primary size s new) (d, h) = (
  upload-Distinct user s id url caption make_primary size new d,
  Left-IsSynced user s _ (upload_leaves user s id url caption make_primary size) h,
)
Step-IsGallery _ _ (deletes user id s) h = delete-IsGallery user id s h
Step-IsGallery _ _ (chooses user id s) h = set_primary-IsGallery user id s h
Step-IsGallery _ _ (moderates now id approved note s) h =
    apply_moderation-IsGallery now id approved note s h

-- Through any sequence of uploads, deletions, choices of a primary photo and verdicts of the
-- moderation, by any members and refused calls included, the photo count and the picture of every
-- profile stay those of its approved photos, the primary one first, and no two photos get the same id.
pub Reach-IsGallery : (s t : Store) → Reach s t → IsGallery s → IsGallery t
Reach-IsGallery s _ stay h = h
Reach-IsGallery s _ (next r e) h = Step-IsGallery _ _ e (Reach-IsGallery s _ r h)
