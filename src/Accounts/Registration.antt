-- ===== src/Accounts/Registration.antt =====
-- AccountService.create_account of apps/accounts/services.py and UserManager of
-- apps/accounts/managers.py. Python's `lower`, the case-insensitive comparison of the database, Django's
-- `normalize_email`, its password hash and the validators of `full_clean` are the section's parameters.
use date_app.Common.{
  ℕ, Bool, false, Option, none, some, List, ◌∷◌, if◌then◌else◌, Text, is_empty, exists_where,
  Action, ZynoraError, pure, gets, atomic, ◌>>=◌, ◌>>◌, raise_if, modify, raise_some, same_text,
  strip, Date,
}
use date_app.Accounts.Models.{User, default_user, AccountEvent, Store}

-- The arguments of `create_account`.
pub record Signup : Type 0 where
  pub email : Text
  pub username : Text
  pub password : ℕ
  pub first_name : Text
  pub date_of_birth : Option Date
  pub phone : Option Text
  pub accepted_terms : Bool
  pub marketing_opt_in : Bool

abbrev pub has_phone : Text → User → Bool
has_phone phone u = elim u.phone [ none ↦ false | some p ↦ same_text p phone ]

-- `phone or None`
abbrev pub given_phone : Option Text → Option Text
given_phone none = none
given_phone (some p) = if is_empty p then none else some p

module _ (lower : Text → Text) (iexact : Text → Text → Bool) (normalize_email : Text → Text)
    (make_password : ℕ → ℕ) (full_clean : User → Option ZynoraError) where
  abbrev pub has_email : Text → User → Bool
  has_email email u = iexact u.email email

  abbrev pub has_username : Text → User → Bool
  has_username username u = iexact u.username username

  -- The checks of `create_account`.
  unfoldable pub refusal : Text → Text → Signup → List User → Option ZynoraError
  refusal email username d us =
      if exists_where (has_email email) us
      then some (ZynoraError.validation_error "An account with this email already exists.")
      else if exists_where (has_username username) us
      then some (ZynoraError.validation_error "That username is taken.")
      else if elim (given_phone d.phone) [ none ↦ false | some p ↦ exists_where (has_phone p) us ]
      then some (ZynoraError.validation_error "That phone number is already in use.")
      else if d.accepted_terms
      then none
      else some (ZynoraError.validation_error "You must accept the Terms of Service.")

  -- The row of `UserManager._create_user`.
  unfoldable pub new_user : ℕ → ℕ → Text → Text → Signup → User
  new_user now id email username d = record (default_user now id) {
    email = lower (normalize_email email);
    username = lower username;
    first_name = d.first_name;
    date_of_birth = d.date_of_birth;
    phone = given_phone d.phone;
    password = make_password d.password;
    password_changed_at = some now;
    accepted_terms_at = some now;
    marketing_opt_in = d.marketing_opt_in;
  }

  -- `UserManager._create_user`
  unfoldable pub create_user : ℕ → ℕ → Text → Text → Signup → Action Store User
  unfolding new_user
  create_user now id email username d = do
    raise_if (is_empty email) (ZynoraError.uncaught "An email address is required.")
    raise_if (is_empty username) (ZynoraError.uncaught "A username is required.")
    let u = new_user now id email username d
    raise_some (full_clean u)
    modify λ s. record s { users = u ∷ s.users }
    pure u

  -- `AccountService.create_account`
  unfoldable pub create_account : ℕ → ℕ → Signup → Action Store User
  unfolding refusal create_user
  create_account now id d = atomic do
    let email = lower (strip d.email)
    let username = lower (strip d.username)
    raise_some (← gets (λ s. refusal email username d s.users))
    u ← create_user now id email username d
    modify
        λ s. record s { events = AccountEvent.user_registered u.id u.email u.username ∷ s.events }
    pure u
