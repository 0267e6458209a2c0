-- ===== src/Accounts/Visibility.antt =====
-- Who the lists of apps/accounts/interface.py show.
use date_app.Common.{
  ℕ, ◌≡◌, refl, sym, subst, ◌∙◌, inl, inr, Bool, true, false, not, ◌&&◌, some, List, [], ◌∷◌, arith,
  ltb, ◌==◌, ==_refl, eq_of_==, Bool-cases, Text, length, first_where, filter_by, exists_where,
  update_where, All, strip, All-mono, All-take,
}
use date_app.Accounts.Models.{User, Store, is_id}
use date_app.Accounts.Lifecycle.{barred, ban}
use date_app.Accounts.Directory.{
  is_member, includes, ids_of, listed, list_dateable_ids, list_online_ids, list_recently_joined_ids,
  search_ids,
}
use date_app.Accounts.Standing.{ban_found}

-- An id that is listed is not excluded, and is the id of a row that passes the test.
abbrev pub Shown : (User → Bool) → List ℕ → List User → ℕ → Type 0
Shown p excluded us i =
    (includes i excluded ≡ false) × (exists_where (λ u. is_id i u && p u) us ≡ true)

module _ (p : User → Bool) (excluded : List ℕ) where
  abbrev passes : User → Bool
  passes u = p u && not (includes u.id excluded)

  Shown-later :
      (u : User) (us : List User) (i : ℕ) → Shown p excluded us i → Shown p excluded (u ∷ us) i
  unfolding exists_where
  Shown-later u us i s = (s.0, ground (arith, s.1))

  Shown-filter : (us : List User) → All (Shown p excluded us) (ids_of (filter_by passes us))
  unfolding exists_where filter_by
  Shown-filter [] = tt
  Shown-filter (u ∷ us) =
      let later =
        All-mono _ _ (ids_of (filter_by passes us)) (Shown-later u us) (Shown-filter us) in
      elim (Bool-cases (p u)) [
        | inr e ↦ rw e later
        | inl e ↦ elim (Bool-cases (includes u.id excluded)) [
          | inl f ↦ rw (e, f) later
          | inr f ↦ rw (e, f) ((f, ground (arith, ==_refl u.id, e)), later)
        ]
      ]

  pub listed-Shown :
      (limit : ℕ) (us : List User) → All (Shown p excluded us) (listed p excluded limit us)
  unfolding listed
  listed-Shown limit us = All-take _ limit _ (Shown-filter us)

not_included :
    (P : ℕ → Type 0) (i : ℕ) (xs : List ℕ) → (P i → false ≡ true) → All P xs → includes i xs ≡ false
unfolding includes
not_included P i [] h a = refl
not_included P i (x ∷ xs) h a = elim (Bool-cases (i == x)) [
  | inl e ↦ absurd (ground (arith, h (subst P (sym (eq_of_== i x e)) a.0)))
  | inr e ↦ ground (arith, not_included P i xs h a.1)
]

barred_member : (permanent : Bool) (u : User) → is_member (barred permanent u) ≡ false
barred_member true u = ground arith
barred_member false u = ground arith

-- A test that only an active member passes.
module _ (id : ℕ) (permanent : Bool) (p : User → Bool)
    (h : (u : User) → is_member u ≡ false → p u ≡ false) where
  barred_fails : (u : User) → p (barred permanent u) ≡ false
  barred_fails u = h (barred permanent u) (barred_member permanent u)

  none_passes :
      (us : List User)
      → exists_where (λ u. is_id id u && p u) (update_where (is_id id) (barred permanent) us)
        ≡ false
  unfolding exists_where update_where
  none_passes [] = refl
  none_passes (u ∷ us) = elim (Bool-cases (is_id id u)) [
    | inl e ↦ rw (e, barred_fails u) (ground (arith, none_passes us))
    | inr e ↦ ground (arith, e, none_passes us)
  ]

  barred_unlisted :
      (excluded : List ℕ) (limit : ℕ) (us : List User)
      → includes id (listed p excluded limit (update_where (is_id id) (barred permanent) us))
        ≡ false
  barred_unlisted excluded limit us =
      let vs = update_where (is_id id) (barred permanent) us in
      not_included (Shown p excluded vs) id (listed p excluded limit vs)
        (λ k. sym (none_passes us) ∙ k.1) (listed-Shown p excluded limit vs)

-- After a member of the table has been banned or suspended, none of the four lists of members that
-- the accounts interface gives has its id: not the members who may be shown, not those online, not
-- those who joined lately, and not what a search finds, whatever is excluded and however many are
-- asked for.
pub ban_unlists :
    (icontains : Text → Text → Bool) (text : Text) (now days id : ℕ) (reason : Text)
    (permanent : Bool) (s : Store) (u : User) (excluded : List ℕ) (limit : ℕ)
    → first_where (is_id id) s.users ≡ some u
    → let t = (ban id reason permanent s).1 in
      (includes id (list_dateable_ids excluded limit t) ≡ false)
      × (includes id (list_online_ids excluded limit t) ≡ false)
      × (includes id (list_recently_joined_ids now excluded limit days t) ≡ false)
      × (includes id (search_ids icontains text excluded limit t) ≡ false)
unfolding list_dateable_ids list_online_ids list_recently_joined_ids search_ids includes
ban_unlists icontains text now days id reason permanent s u excluded limit e =
    let unlisted : (p : User → Bool)
        → ((v : User) → is_member v ≡ false → p v ≡ false)
        → includes id (listed p excluded limit (update_where (is_id id) (barred permanent) s.users))
          ≡ false =
      λ p h. barred_unlisted id permanent p h excluded limit s.users in
    rw (ban_found id s u e reason permanent) (
      unlisted _ (λ v m. ground (arith, m)),
      unlisted _ (λ v m. ground (arith, m)),
      unlisted _ (λ v m. ground (arith, m)),
      elim (Bool-cases (ltb (length (strip text)) 2)) [
        | inl f ↦ rw f refl
        | inr f ↦ rw f (unlisted _ (λ v m. ground (arith, m)))
      ],
    )
