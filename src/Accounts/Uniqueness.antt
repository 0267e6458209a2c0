-- ===== src/Accounts/Uniqueness.antt =====
-- One account for an address: create_account of apps/accounts/services.py.
use date_app.Common.{
  ℕ, ◌≡◌, ◌∙◌, ◌⊎◌, inl, inr, Bool, false, Option, none, some, ◌∷◌, arith, Bool-cases, Option-cases,
  Text, is_empty, exists_where, Distinct, exists_congr, Action, ok, err, ZynoraError, strip,
}
use date_app.Accounts.Models.{User, AccountEvent, Store}
use date_app.Accounts.Registration.{Signup, refusal, new_user, create_user, create_account}

module _ (lower : Text → Text) (iexact : Text → Text → Bool) (normalize_email : Text → Text)
    (make_password : ℕ → ℕ) (full_clean : User → Option ZynoraError) where
  abbrev pub same_email : User → User → Bool
  same_email a b = iexact b.email a.email

  module _ (now id : ℕ) (d : Signup) where
    abbrev pub address : Text
    address = lower (strip d.email)

    abbrev pub handle : Text
    handle = lower (strip d.username)

    abbrev pub row : User
    row = new_user lower iexact normalize_email make_password full_clean now id address handle d

    abbrev signed_up : Action Store User
    signed_up = create_account lower iexact normalize_email make_password full_clean now id d

    abbrev refused : Store → Option ZynoraError
    refused s =
        refusal lower iexact normalize_email make_password full_clean address handle d s.users

    abbrev pub registered : Store → Store
    registered s = record s {
      users = row ∷ s.users;
      events = AccountEvent.user_registered row.id row.email row.username ∷ s.events;
    }

    -- A sign-up that is refused for its data leaves everything as it was.
    pub create_account_refused :
        (s : Store) (x : ZynoraError) → refused s ≡ some x → signed_up s ≡ (err x, s)
    unfolding create_account
    create_account_refused s x e = ground (arith, e)

    -- A sign-up leaves everything as it was, or adds its row after every check has passed.
    pub create_account_cases :
        (s : Store)
        → ((x : ZynoraError) × (signed_up s ≡ (err x, s)))
          ⊎ ((refused s ≡ none) × (signed_up s ≡ (ok row, registered s)))
    unfolding create_account create_user
    create_account_cases s = elim (Option-cases (refused s)) [
      | inr f ↦ let (x, e) = f in inl (x, create_account_refused s x e)
      | inl e ↦ elim (Bool-cases (is_empty address)) [
        | inl a ↦ inl (ZynoraError.uncaught "An email address is required.", ground (arith, e, a))
        | inr a ↦ elim (Bool-cases (is_empty handle)) [
          | inl h ↦ inl (ZynoraError.uncaught "A username is required.", ground (arith, e, a, h))
          | inr h ↦ elim (Option-cases (full_clean row)) [
            | inr g ↦ let (x, c) = g in inl (x, ground (arith, e, a, h, c))
            | inl c ↦ inr (e, ground (arith, e, a, h, c))
          ]
        ]
      ]
    ]

    accepted_absent :
        (s : Store) → refused s ≡ none → exists_where (λ u. iexact u.email address) s.users ≡ false
    unfolding refusal
    accepted_absent s e = ground arith

  -- The comparison of the database takes no notice of case, so neither `lower` nor `normalize_email`
  -- makes two addresses differ.
  module _ (iexact-lower : (t u : Text) → iexact t (lower u) ≡ iexact t u)
      (iexact-normalize : (t u : Text) → iexact t (normalize_email u) ≡ iexact t u) where
    stored_address :
        (now id : ℕ) (d : Signup) (u : User)
        → same_email (row now id d) u ≡ iexact u.email (address now id d)
    unfolding new_user
    stored_address now id d u =
        iexact-lower u.email (normalize_email (address now id d))
        ∙ iexact-normalize u.email (address now id d)

    -- No two accounts have the same address, upper and lower case alike, after a sign-up if none had
    -- before, whether it is accepted or refused; the comparison of the database takes an address for
    -- the same when its case is lowered or its domain normalised.
    pub create_account-Distinct :
        (now id : ℕ) (d : Signup) (s : Store)
        → Distinct same_email s.users
        → Distinct same_email
            (create_account lower iexact normalize_email make_password full_clean now id d
              s).1.users
    create_account-Distinct now id d s h = elim (create_account_cases now id d s) [
      | inl f ↦ let (x, e) = f in rw e h
      | inr g ↦
          let (e, r) = g in
          rw r
            (exists_congr _ _ s.users (stored_address now id d) ∙ accepted_absent now id d s e, h)
    ]
