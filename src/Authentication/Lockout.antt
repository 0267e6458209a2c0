-- ===== src/Authentication/Lockout.antt =====
-- Which attempts to sign in are refused: LoginService.authenticate of apps/authentication/services.py
-- and the backends of apps/authentication/backends.py and config/settings/base.py.
use date_app.Common.{
  ℕ, ◌+◌, ◌≤◌, ◌≡◌, refl, ap, ◌∙◌, inl, inr, Bool, true, false, ◌&&◌, ◌||◌, Option, none, some,
  List, [], ◌∷◌, arith, ltb, leb, ==_refl, eq_of_==, Bool-cases, Text, first_where, update_where,
  first-update_self, Action, ok, err, ZynoraError, same_text, strip,
}
use date_app.Accounts.Models.{User, is_id, is_banned, is_locked, Store as AccountsStore}
use date_app.Authentication.Models.{Outcome, Store}
use date_app.Authentication.Login.{
  Request, throttle, record_attempt, failed_once, register_failure, cleared, identifies,
  email_or_phone_backend, django_authenticate, candidate, refuse, reject, accept, authenticate,
}

module _ (now : ℕ) (u : User) where
  failed_count : (failed_once now u).failed_login_attempts ≡ u.failed_login_attempts + 1
  unfolding failed_once
  failed_count = ground arith

  failed_lock :
      (later : ℕ)
      → is_locked now u ≡ false
      → now ≤ later
      → is_locked later (failed_once now u)
        ≡ (leb 5 (u.failed_login_attempts + 1) && ltb later (now + 900))
  unfolding failed_once
  failed_lock later h l = ground arith

  failed_id : is_id u.id (failed_once now u) ≡ is_id u.id u
  unfolding failed_once
  failed_id = ground arith

  failed_status : is_banned (failed_once now u) ≡ is_banned u
  unfolding failed_once
  failed_status = ground arith

first_of_constant :
    (v : User) (id : ℕ) (us : List User) (u : User)
    → v.id ≡ id
    → first_where (is_id id) us ≡ some u
    → first_where (is_id id) (update_where (is_id id) (λ x. v) us) ≡ some v
unfolding first_where update_where
first_of_constant v id [] u h e = cc
first_of_constant v id (x ∷ us) u h e = ground (arith, ==_refl id, first_of_constant v id us u h)

module _ (iexact : Text → Text → Bool) (check_password : ℕ → User → Bool)
    (model_backend : Text → ℕ → AccountsStore → Option User) (given : Text) (password : ℕ)
    (request : Option Request) where
  abbrev pub signed_in : ℕ → Action Store (User × Bool)
  signed_in now = authenticate iexact check_password model_backend now given password request

  abbrev pub tried_as : Text
  tried_as = strip given

  abbrev pub checked : ℕ → Store → Option User
  checked now s =
      django_authenticate iexact check_password model_backend now tried_as password s.accounts

  abbrev pub tried_for : Store → Option User
  tried_for s = candidate iexact check_password model_backend tried_as s.accounts

  abbrev pub rejected : ℕ → Option User → Action Store (User × Bool)
  rejected now o = reject iexact check_password model_backend now tried_as o

  pub authenticate_rejects :
      (now : ℕ) (s t : Store)
      → throttle now tried_as request s ≡ (ok tt, t)
      → checked now t ≡ none
      → signed_in now s ≡ rejected now (tried_for t) t
  unfolding authenticate
  authenticate_rejects now s t h e = ground (arith, h, e)

  pub authenticate_accepts :
      (now : ℕ) (s t : Store) (u : User)
      → throttle now tried_as request s ≡ (ok tt, t)
      → checked now t ≡ some u
      → signed_in now s ≡ accept iexact check_password model_backend now tried_as u t
  unfolding authenticate
  authenticate_accepts now s t u h e = ground (arith, h, e)

  abbrev wrong : ZynoraError
  wrong = ZynoraError.validation_error "Incorrect email or password."

  abbrev shut : ZynoraError
  shut =
      ZynoraError.permission_denied "Too many failed attempts. This account is temporarily locked."

  module _ (now : ℕ) (t : Store) (u : User) where
    abbrev counted : Store
    counted =
        record_attempt now tried_as Outcome.bad_credentials (some u.id) []
          (register_failure now u t)

    rejected_counts :
        is_banned u ≡ false
        → is_locked now u ≡ false
        → rejected now (some u) t ≡ (err wrong, counted)
    unfolding reject refuse
    rejected_counts b l = ground (arith, b, l)

    rejected_locked :
        is_banned u ≡ false
        → is_locked now u ≡ true
        → rejected now (some u) t
          ≡ (err shut, record_attempt now tried_as Outcome.locked (some u.id) [] t)
    unfolding reject refuse
    rejected_locked b l = ground (arith, b, l)

    counted_row :
        first_where (is_id u.id) t.accounts.users ≡ some u
        → first_where (is_id u.id) counted.accounts.users ≡ some (failed_once now u)
    unfolding record_attempt register_failure
    counted_row e =
        first_of_constant (failed_once now u) u.id t.accounts.users u
          (eq_of_== _ _ (failed_id now u ∙ ==_refl u.id)) e

  -- An attempt that passes the throttle and that no backend accepts, for an account that is neither
  -- banned nor locked, is answered as a wrong password and counted on the account: from the fifth in
  -- a row on the account is locked for fifteen minutes, before that it is not locked at any time from
  -- now on.
  pub failures_lock :
      (now later : ℕ) (s t : Store) (u : User)
      → throttle now tried_as request s ≡ (ok tt, t)
      → checked now t ≡ none
      → tried_for t ≡ some u
      → first_where (is_id u.id) t.accounts.users ≡ some u
      → is_banned u ≡ false
      → is_locked now u ≡ false
      → now ≤ later
      → let (r, w) = signed_in now s in
        (v : User) × (r ≡ err wrong)
        × (first_where (is_id u.id) w.accounts.users ≡ some v)
        × (v.failed_login_attempts ≡ u.failed_login_attempts + 1)
        × (is_locked later v ≡ (leb 5 (u.failed_login_attempts + 1) && ltb later (now + 900)))
  failures_lock now later s t u h e f g b l m =
      let v = failed_once now u in
      rw
        (authenticate_rejects now s t h e
          ∙ ap (λ o. rejected now o t) f
          ∙ rejected_counts now t u b l)
        (v, refl, counted_row now t u g, failed_count now u, failed_lock now u later l m)

  -- While an account is locked, an attempt for it that no backend accepts is answered as locked, and
  -- is recorded but not counted on the account.
  pub locked_refuses :
      (now : ℕ) (s t : Store) (u : User)
      → throttle now tried_as request s ≡ (ok tt, t)
      → checked now t ≡ none
      → tried_for t ≡ some u
      → is_banned u ≡ false
      → is_locked now u ≡ true
      → signed_in now s ≡ (err shut, record_attempt now tried_as Outcome.locked (some u.id) [] t)
  locked_refuses now s t u h e f b l =
      authenticate_rejects now s t h e ∙ ap (λ o. rejected now o t) f ∙ rejected_locked now t u b l

  accept_opens :
      (now : ℕ) (t : Store) (u : User)
      → let (r, w) = accept iexact check_password model_backend now tried_as u t in
        (r ≡ ok (cleared u, u.is_mfa_enabled))
        × (w.accounts.users ≡ update_where (is_id u.id) cleared t.accounts.users)
  unfolding accept record_attempt
  accept_opens now t u = elim (Bool-cases u.is_mfa_enabled) [
    | inl e ↦ rw e (refl, refl)
    | inr e ↦ rw e (refl, refl)
  ]

  barred_second :
      (now : ℕ) (t : Store) (u v : User)
      → first_where
          (identifies iexact check_password model_backend (strip tried_as))
          t.accounts.users
        ≡ some u
      → (is_banned u || is_locked now u) ≡ true
      → model_backend tried_as password t.accounts ≡ some v
      → checked now t ≡ some v
  unfolding django_authenticate email_or_phone_backend
  barred_second now t u v e b f = ground (arith, e, b, f)

  -- ModelBackend, as Django documents it: it accepts the account whose address is the identifier, with
  -- its password, if the account is active. An active account that is banned or locked,
  -- and that EmailOrPhoneBackend therefore does not accept, is accepted all the same when it signs in
  -- by its address within the throttle: the service returns it, and lifts its lock.
  pub barred_signs_in :
      (now : ℕ) (s t : Store) (u : User)
      → ((s : AccountsStore) (u : User)
          → first_where (λ x. same_text x.email tried_as) s.users ≡ some u
          → check_password password u ≡ true
          → u.is_active ≡ true
          → model_backend tried_as password s ≡ some u)
      → throttle now tried_as request s ≡ (ok tt, t)
      → first_where (λ x. same_text x.email tried_as) t.accounts.users ≡ some u
      → first_where (is_id u.id) t.accounts.users ≡ some u
      → check_password password u ≡ true
      → u.is_active ≡ true
      → first_where
          (identifies iexact check_password model_backend (strip tried_as))
          t.accounts.users
        ≡ some u
      → (is_banned u || is_locked now u) ≡ true
      → let (r, w) = signed_in now s in
        (r ≡ ok (cleared u, u.is_mfa_enabled))
        × (first_where (is_id u.id) w.accounts.users ≡ some (cleared u))
  barred_signs_in now s t u documented h e g p a first barred =
      let found = barred_second now t u u first barred (documented t.accounts u e p a) in
      let (r, w) = accept_opens now t u in
      rw (authenticate_accepts now s t u h found)
        (r, rw w (first-update_self (is_id u.id) cleared t.accounts.users u (λ x. refl) g))
