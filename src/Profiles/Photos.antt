-- ===== src/Profiles/Photos.antt =====
-- The counters of a profile are its gallery's: PhotoService of apps/profiles/services.py.
use date_app.Common.{
  ℕ, ◌≡◌, refl, sym, ap, subst, ◌∙◌, ◌⊎◌, inl, inr, Bool, true, false, List, [], ◌∷◌, ◌++◌, arith,
  leb, ◌==◌, if◌then◌else◌, ==_refl, Bool-cases, Option-cases, Text, length, first_where, filter_by,
  exists_where, count_where, update_where, delete_where, Distinct, All, exists-update,
  Distinct-update, exists_congr, Result, ok, err, ZynoraError, All-update, All-mono,
  Distinct-append,
}
use date_app.Profiles.Models.{
  Profile, refreshed, ProfilePhoto, ProfileEvent, Store, is_of, is_photo_of,
}
use date_app.Profiles.Editing.{get_or_create}
use date_app.Profiles.Gallery.{
  is_shown, shown, cover, synced, sync_profile, lowered, new_photo, with_photo, upload,
}

-- A profile shows what the approved photos of its member give.
abbrev pub IsSynced : List ProfilePhoto → Profile → Type 0
IsSynced ps p = (p.photo_count ≡ length (shown p.user ps)) × (p.primary_photo_url ≡ cover p.user ps)

-- The approved photos of everyone else are as before.
abbrev pub Frame : ℕ → List ProfilePhoto → List ProfilePhoto → Type 0
Frame user ps qs =
    (other : ℕ)
    → (other == user) ≡ false
    → filter_by (is_shown other) qs ≡ filter_by (is_shown other) ps

-- The rows that a test picks out are the member's.
abbrev pub Owned : ℕ → (ProfilePhoto → Bool) → List ProfilePhoto → Type 0
Owned user q ps = All (λ x. q x ≡ true → (x.user == user) ≡ true) ps

pub Frame-update :
    (user : ℕ) (q : ProfilePhoto → Bool) (f : ProfilePhoto → ProfilePhoto) (ps : List ProfilePhoto)
    → ((x : ProfilePhoto) → (f x).user ≡ x.user)
    → Owned user q ps
    → Frame user ps (update_where q f ps)
unfolding filter_by update_where
Frame-update user q f [] k o other h = refl
Frame-update user q f (x ∷ ps) k (o, os) other h =
    let rest = Frame-update user q f ps k os other h in
    elim (Bool-cases (q x)) [
      | inr e ↦ ground (arith, e, rest)
      | inl e ↦ ground (arith, e, o e, k x, h, rest)
    ]

pub Frame-delete :
    (user : ℕ) (q : ProfilePhoto → Bool) (ps : List ProfilePhoto)
    → Owned user q ps
    → Frame user ps (delete_where q ps)
unfolding filter_by delete_where
Frame-delete user q [] o other h = refl
Frame-delete user q (x ∷ ps) (o, os) other h =
    let rest = Frame-delete user q ps os other h in
    elim (Bool-cases (q x)) [
      | inr e ↦ ground (arith, e, rest)
      | inl e ↦ ground (arith, e, o e, h, rest)
    ]

Frame-append :
    (user : ℕ) (p : ProfilePhoto) (ps : List ProfilePhoto)
    → (p.user == user) ≡ true
    → Frame user ps (ps ++ p ∷ [])
unfolding filter_by
Frame-append user p [] o other h = ground (arith, o, h)
Frame-append user p (x ∷ ps) o other h = ground (arith, Frame-append user p ps o other h)

pub Frame-trans :
    (user : ℕ) (ps qs rs : List ProfilePhoto)
    → Frame user ps qs
    → Frame user qs rs
    → Frame user ps rs
Frame-trans user ps qs rs f g other h = g other h ∙ f other h

pub Owned-update :
    (user : ℕ) (q r : ProfilePhoto → Bool) (f : ProfilePhoto → ProfilePhoto)
    (ps : List ProfilePhoto)
    → ((x : ProfilePhoto) → (q (f x) ≡ q x) × ((f x).user ≡ x.user))
    → Owned user q ps
    → Owned user q (update_where r f ps)
Owned-update user q r f ps k o =
    All-update (λ x. q x ≡ true → (x.user == user) ≡ true) r f ps
      (λ x e h. λ t. ap (λ n. n == user) (k x).1 ∙ h (sym (k x).0 ∙ t)) o

pub Owned-self : (user : ℕ) (ps : List ProfilePhoto) → Owned user (is_photo_of user) ps
Owned-self user [] = tt
Owned-self user (x ∷ ps) = (λ h. h, Owned-self user ps)

-- A member's profile is brought up to date with the gallery.
sync-All :
    (user : ℕ) (ps qs : List ProfilePhoto) (xs : List Profile)
    → Frame user ps qs
    → All (λ p. is_of user p ≡ false → IsSynced ps p) xs
    → All (IsSynced qs) (update_where (is_of user) (synced qs) xs)
unfolding update_where synced refreshed cover shown
sync-All user ps qs [] f a = tt
sync-All user ps qs (x ∷ xs) f (h, a) = elim (Bool-cases (is_of user x)) [
  | inl e ↦ rw e ((refl, refl), sync-All user ps qs xs f a)
  | inr e ↦
      let same = f x.user e in
      rw e ((ground (arith, h e, same), ground (arith, h e, same)), sync-All user ps qs xs f a)
]

-- What an operation on a member's gallery leaves: everything as it was, or new photos with the member's
-- profile brought up to date.
abbrev pub Left : ℕ → Store → Store → Type 0
Left user s t =
    (t ≡ s)
    ⊎ ((u : Store) × (t.photos ≡ u.photos)
        × (t.profiles ≡ update_where (is_of user) (synced u.photos) u.profiles)
        × Frame user s.photos u.photos
        × (All (λ p. is_of user p ≡ false → IsSynced s.photos p) s.profiles
            → All (λ p. is_of user p ≡ false → IsSynced s.photos p) u.profiles))

pub Left-IsSynced :
    (user : ℕ) (s t : Store)
    → Left user s t
    → All (IsSynced s.photos) s.profiles
    → All (IsSynced t.photos) t.profiles
Left-IsSynced user s t (inl e) h = subst (λ x. All (IsSynced x.photos) x.profiles) (sym e) h
Left-IsSynced user s t (inr (u, e, f, frame, keep)) h =
    rw (e, f)
      (sync-All user s.photos u.photos u.profiles frame (
        keep (
          All-mono (IsSynced s.photos) (λ p. is_of user p ≡ false → IsSynced s.photos p) s.profiles
            (λ p i e. i) h)))

module _ (user : ℕ) (s : Store) where
  sync_profile_rows :
      ((sync_profile user s).photos ≡ s.photos)
      × ((sync_profile user s).profiles ≡ update_where (is_of user) (synced s.photos) s.profiles)
  unfolding sync_profile
  sync_profile_rows =
      elim (Option-cases
        (first_where (is_of user) (update_where (is_of user) (synced s.photos) s.profiles))) [
          | inl e ↦ rw (e, sync_profile) (refl, refl)
          | inr g ↦ rw (g.1, sync_profile) (refl, refl)
        ]

  pub get_or_create_rows :
      (ps : List ProfilePhoto)
      → ((get_or_create user s).1.photos ≡ s.photos)
        × (All (λ p. is_of user p ≡ false → IsSynced ps p) s.profiles
            → All (λ p. is_of user p ≡ false → IsSynced ps p) (get_or_create user s).1.profiles)
  unfolding get_or_create
  get_or_create_rows ps = elim (Option-cases (first_where (is_of user) s.profiles)) [
    | inl e ↦ rw (e, get_or_create) (refl, λ h. (λ x. absurd (ground (arith, x, ==_refl user)), h))
    | inr g ↦ rw (g.1, get_or_create) (refl, λ h. h)
  ]

pub sync_profiles :
    (user : ℕ) (s : Store)
    → (sync_profile user s).profiles ≡ update_where (is_of user) (synced s.photos) s.profiles
sync_profiles user s = (sync_profile_rows user s).1

pub sync_photos : (user : ℕ) (s : Store) → (sync_profile user s).photos ≡ s.photos
sync_photos user s = (sync_profile_rows user s).0

module _ (user : ℕ) (s : Store) where
  -- A change of the member's photos, and then the profile.
  pub Left-of :
      (qs : List ProfilePhoto) (t u : Store)
      → Frame user s.photos qs
      → t.photos ≡ (sync_profile user u).photos
      → t.profiles ≡ (sync_profile user u).profiles
      → u.photos ≡ qs
      → u.profiles ≡ (get_or_create user s).1.profiles
      → Left user s t
  Left-of qs t u f e g h k =
      let (a, b) = sync_profile_rows user u in
      inr (
        u,
        e ∙ a,
        g ∙ b,
        λ other o. ap (filter_by (is_shown other)) h ∙ f other o,
        λ x.
            subst (All (λ p. is_of user p ≡ false → IsSynced s.photos p)) (sym k)
              ((get_or_create_rows user s s.photos).1 x),
      )

  module _ (id : ℕ) (url caption : Text) (make_primary : Bool) (size : ℕ) where
    abbrev uploaded : Store
    uploaded = (upload id user url caption make_primary size s).1

    abbrev first : Store
    first = (get_or_create user s).1

    abbrev photo : ProfilePhoto
    photo =
        new_photo id user url caption make_primary (count_where (is_photo_of user) first.photos)
          size

    abbrev added : Store
    added = record first { photos = with_photo photo first.photos }

    upload_full :
        leb 9 (count_where (is_photo_of user) first.photos) ≡ true
        → upload id user url caption make_primary size s
          ≡ (err (ZynoraError.quota_exceeded "You can upload at most 9 photos."), s)
    unfolding upload
    upload_full e = ground (arith, e)

    upload_room :
        leb 9 (count_where (is_photo_of user) first.photos) ≡ false
        → upload id user url caption make_primary size s ≡ (
          ok photo,
          record (sync_profile user added) {
            events =
                ProfileEvent.photo_uploaded user id (cover user (sync_profile user added).photos)
                ∷ (sync_profile user added).events;
          },
        )
    unfolding upload
    upload_room e = ground (arith, e)

    lowered-Frame :
        (b : Bool)
        → Frame user s.photos
            (if b then update_where (is_photo_of user) lowered s.photos else s.photos)
    lowered-Frame true =
        Frame-update user (is_photo_of user) lowered s.photos (λ x. refl) (Owned-self user s.photos)
    lowered-Frame false = λ other h. refl

    with_photo-Frame : Frame user s.photos (with_photo photo first.photos)
    unfolding with_photo new_photo
    with_photo-Frame =
        subst (λ ps. Frame user s.photos (with_photo photo ps))
          (sym (get_or_create_rows user s []).0)
          (Frame-trans user s.photos _ _ (lowered-Frame photo.is_primary)
            (Frame-append user photo _ (==_refl user)))

    pub upload_leaves : Left user s uploaded
    upload_leaves = elim (Bool-cases (leb 9 (count_where (is_photo_of user) first.photos))) [
      | inl e ↦ inl (ap (λ (r : Result ProfilePhoto × Store). r.1) (upload_full e))
      | inr e ↦
          Left-of (with_photo photo first.photos) uploaded added with_photo-Frame
            (ap (λ (r : Result ProfilePhoto × Store). r.1.photos) (upload_room e))
            (ap (λ (r : Result ProfilePhoto × Store). r.1.profiles) (upload_room e)) refl refl
    ]

    abbrev Apart : List ProfilePhoto → Type 0
    Apart ps = (exists_where (λ x. id == x.id) ps ≡ false) × Distinct (λ a b. b.id == a.id) ps

    lowered-Apart :
        (b : Bool) (ps : List ProfilePhoto)
        → Apart ps
        → Apart (if b then update_where (is_photo_of user) lowered ps else ps)
    lowered-Apart false ps a = a
    lowered-Apart true ps (e, d) = (
      exists-update (λ x. id == x.id) (is_photo_of user) lowered ps (λ x. refl) ∙ e,
      Distinct-update (λ a b. b.id == a.id) (is_photo_of user) lowered ps (λ x y. refl)
          (λ x y. refl) d,
    )

    with_photo-Distinct :
        (ps : List ProfilePhoto) → Apart ps → Distinct (λ a b. b.id == a.id) (with_photo photo ps)
    unfolding with_photo new_photo
    with_photo-Distinct ps a =
        let (e, d) = lowered-Apart photo.is_primary ps a in
        Distinct-append (λ a b. b.id == a.id) _ photo e d

    pub upload-Distinct :
        exists_where (λ x. x.id == id) s.photos ≡ false
        → Distinct (λ a b. b.id == a.id) s.photos
        → Distinct (λ a b. b.id == a.id) uploaded.photos
    upload-Distinct e d = elim (Bool-cases (leb 9 (count_where (is_photo_of user) first.photos))) [
      | inl full ↦
          subst (Distinct (λ a b. b.id == a.id))
            (sym (ap (λ (r : Result ProfilePhoto × Store). r.1.photos) (upload_full full))) d
      | inr room ↦
          subst (Distinct (λ a b. b.id == a.id))
            (sym (
              ap (λ (r : Result ProfilePhoto × Store). r.1.photos) (upload_room room)
              ∙ sync_photos user added))
            (subst (λ ps. Distinct (λ a b. b.id == a.id) (with_photo photo ps))
              (sym (get_or_create_rows user s []).0)
              (with_photo-Distinct s.photos (
                exists_congr (λ x. id == x.id) (λ x. x.id == id) s.photos (λ x. ground arith) ∙ e,
                d,
              )))
    ]
