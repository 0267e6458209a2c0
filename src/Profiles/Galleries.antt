-- ===== src/Profiles/Galleries.antt =====
-- Every change of a gallery keeps the counters of the profiles true: PhotoService of
-- apps/profiles/services.py.
use date_app.Common.{
  ℕ, ◌+◌, ◌≡◌, refl, ap, ◌∙◌, inl, inr, Bool, true, false, Option, some, List, [], ◌∷◌, arith, ◌==◌,
  if◌then◌else◌, ==_refl, eq_of_==, Bool-cases, get_or, first_where, filter_by, exists_where,
  update_where, Distinct, All, Distinct-update, exists_congr, All-mono, All-sort,
}
use date_app.Profiles.Models.{ProfilePhoto, is_photo_of}
use date_app.Profiles.Gallery.{
  is_own_photo, by_position, raised, is_photo, renumbered, remaining, promoted,
}
use date_app.Profiles.Photos.{Frame, Owned, Frame-update, Frame-trans, Owned-update}

-- The primary key of the photos.
abbrev pub same_photo : ProfilePhoto → ProfilePhoto → Bool
same_photo a b = b.id == a.id

none-Owned :
    (user id : ℕ) (ps : List ProfilePhoto)
    → exists_where (is_photo id) ps ≡ false
    → Owned user (is_photo id) ps
unfolding exists_where
none-Owned user id [] h = tt
none-Owned user id (x ∷ ps) h = (λ e. absurd (ground arith), none-Owned user id ps (ground arith))

found_exists :
    (user id : ℕ) (ps : List ProfilePhoto) (p : ProfilePhoto)
    → first_where (is_own_photo user id) ps ≡ some p
    → exists_where (is_photo id) ps ≡ true
unfolding first_where exists_where
found_exists user id [] p e = cc
found_exists user id (x ∷ ps) p e = ground (arith, found_exists user id ps p)

-- The row with a photo's id is its owner's.
pub Owned-found :
    (user id : ℕ) (ps : List ProfilePhoto) (p : ProfilePhoto)
    → Distinct same_photo ps
    → first_where (is_own_photo user id) ps ≡ some p
    → Owned user (is_photo id) ps
unfolding first_where
Owned-found user id [] p d e = tt
Owned-found user id (x ∷ ps) p (h, d) e = elim (Bool-cases (x.id == id)) [
  | inl here ↦
      let gone : exists_where (is_photo id) ps ≡ false =
        exists_congr (is_photo id) (same_photo x) ps (λ y. ground (arith, eq_of_== x.id id here))
        ∙ h in
      elim (Bool-cases (x.user == user)) [
        | inl own ↦ (λ t. own, none-Owned user id ps gone)
        | inr other ↦ absurd (ground (arith, e, other, gone, found_exists user id ps p))
      ]
  | inr apart ↦ (
    λ t. absurd (ground (arith, t, apart)),
    Owned-found user id ps p d (ground (arith, e, apart)),
  )
]

first_here :
    (id : ℕ) (x : ProfilePhoto) (ps : List ProfilePhoto)
    → (x.id == id) ≡ true
    → some x ≡ first_where (is_photo id) (x ∷ ps)
unfolding first_where
first_here id x ps h = ground (arith, h)

pub Owned-first :
    (id : ℕ) (ps : List ProfilePhoto) (p : ProfilePhoto)
    → Distinct same_photo ps
    → first_where (is_photo id) ps ≡ some p
    → Owned p.user (is_photo id) ps
unfolding first_where
Owned-first id [] p d e = tt
Owned-first id (x ∷ ps) p (h, d) e = elim (Bool-cases (x.id == id)) [
  | inl here ↦
      let gone : exists_where (is_photo id) ps ≡ false =
        exists_congr (is_photo id) (same_photo x) ps (λ y. ground (arith, eq_of_== x.id id here))
        ∙ h in
      (
        λ t.
            ap (λ n. n == p.user)
              (ap (λ (o : Option ProfilePhoto). (get_or o x).user) (first_here id x ps here)
                ∙ ap (λ (o : Option ProfilePhoto). (get_or o x).user) e)
            ∙ ==_refl p.user,
        none-Owned p.user id ps gone,
      )
  | inr apart ↦
      (λ t. absurd (ground (arith, t, apart)), Owned-first id ps p d (ground (arith, e, apart)))
]

All-filter :
    (P : ProfilePhoto → Type 0) (q : ProfilePhoto → Bool) (ps : List ProfilePhoto)
    → All P ps
    → All P (filter_by q ps)
unfolding filter_by
All-filter P q [] a = tt
All-filter P q (x ∷ ps) (h, a) = elim (Bool-cases (q x)) [
  | inl e ↦ rw e (h, All-filter P q ps a)
  | inr e ↦ rw e (All-filter P q ps a)
]

All-none :
    (q : ProfilePhoto → Bool) (ps : List ProfilePhoto)
    → exists_where q ps ≡ false
    → All (λ x. q x ≡ false) ps
unfolding exists_where
All-none q [] h = tt
All-none q (x ∷ ps) h = (ground arith, All-none q ps (ground arith))

All-if :
    (P : ProfilePhoto → Type 0) (b : Bool) (x : ProfilePhoto) (qs : List ProfilePhoto)
    → (b ≡ true → P x)
    → All P qs
    → All P (if b then x ∷ qs else qs)
All-if P true x qs h a = (h refl, a)
All-if P false x qs h a = a

-- Each photo of a member is the only one with its id.
Owned-filter :
    (user : ℕ) (ps : List ProfilePhoto)
    → Distinct same_photo ps
    → All (λ q. Owned user (is_photo q.id) ps) (filter_by (is_photo_of user) ps)
unfolding filter_by
Owned-filter user [] d = tt
Owned-filter user (x ∷ ps) (h, d) =
    let apart = All-filter _ (is_photo_of user) ps (All-none (same_photo x) ps h) in
    let later = both (filter_by (is_photo_of user) ps) apart (Owned-filter user ps d) in
    All-if (λ q. Owned user (is_photo q.id) (x ∷ ps)) (is_photo_of user x) x _
      (λ own. (λ t. own, none-Owned user x.id ps h)) later
  where
    both :
        (qs : List ProfilePhoto)
        → All (λ q. same_photo x q ≡ false) qs
        → All (λ q. Owned user (is_photo q.id) ps) qs
        → All (λ q. Owned user (is_photo q.id) (x ∷ ps)) qs
    both [] a b = tt
    both (q ∷ qs) (e, a) (o, b) = ((λ t. absurd (ground (arith, e, t)), o), both qs a b)

pub Owned-remaining :
    (user : ℕ) (ps : List ProfilePhoto)
    → Distinct same_photo ps
    → All (λ q. Owned user (is_photo q.id) ps) (remaining user ps)
Owned-remaining user ps d =
    All-sort by_position _ (filter_by (is_photo_of user) ps) (Owned-filter user ps d)

abbrev placed : ℕ → ProfilePhoto → ProfilePhoto
placed index x = record x { position = index }

pub renumbered-Frame :
    (user index : ℕ) (qs ps : List ProfilePhoto)
    → All (λ q. Owned user (is_photo q.id) ps) qs
    → Frame user ps (renumbered index qs ps)
unfolding renumbered
renumbered-Frame user index [] ps a = λ other h. refl
renumbered-Frame user index (q ∷ qs) ps (o, a) =
    let next = update_where (is_photo q.id) (placed index) ps in
    Frame-trans user ps next (renumbered (index + 1) qs next)
      (Frame-update user (is_photo q.id) (placed index) ps (λ x. refl) o)
      (renumbered-Frame user (index + 1) qs next (
        All-mono _ _ qs
          (λ z.
            Owned-update user (is_photo z.id) (is_photo q.id) (placed index) ps (λ x. (refl, refl)))
          a))

-- An update that leaves ids alone leaves them distinct.
pub update-Distinct :
    (q : ProfilePhoto → Bool) (f : ProfilePhoto → ProfilePhoto) (ps : List ProfilePhoto)
    → ((x : ProfilePhoto) → (f x).id ≡ x.id)
    → Distinct same_photo ps
    → Distinct same_photo (update_where q f ps)
update-Distinct q f ps k =
    Distinct-update same_photo q f ps (λ x y. ground (arith, k y)) (λ x y. ground (arith, k x))

pub renumbered-Distinct :
    (index : ℕ) (qs ps : List ProfilePhoto)
    → Distinct same_photo ps
    → Distinct same_photo (renumbered index qs ps)
unfolding renumbered
renumbered-Distinct index [] ps d = d
renumbered-Distinct index (q ∷ qs) ps d =
    renumbered-Distinct (index + 1) qs _
      (update-Distinct (is_photo q.id) (placed index) ps (λ x. refl) d)

pub promoted-Frame :
    (user : ℕ) (b : Bool) (ps : List ProfilePhoto)
    → Distinct same_photo ps
    → Frame user ps (promoted user b ps) × Distinct same_photo (promoted user b ps)
unfolding promoted
promoted-Frame user false ps d = (λ other h. refl, d)
promoted-Frame user true ps d = go (remaining user ps) (Owned-remaining user ps d)
  where
    go :
        (qs : List ProfilePhoto)
        → All (λ q. Owned user (is_photo q.id) ps) qs
        → let rs = elim qs as (λ _. List ProfilePhoto) [
          | [] ↦ ps
          | q ∷ _ ↦ update_where (is_photo q.id) raised ps
        ] in
          Frame user ps rs × Distinct same_photo rs
    go [] a = (λ other h. refl, d)
    go (q ∷ qs) (o, a) = (
      Frame-update user (is_photo q.id) raised ps (λ x. refl) o,
      update-Distinct (is_photo q.id) raised ps (λ x. refl) d,
    )
