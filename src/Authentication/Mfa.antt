-- ===== src/Authentication/Mfa.antt =====
-- MFAService of apps/authentication/services.py. Besides the parameters of Totp, the hash of a code,
-- Python's `lower`, and the check of a password are the section's parameters; the secrets and recovery
-- codes that are drawn at random are arguments.
use date_app.Common.{
  ℕ, Bool, true, false, not, ◌&&◌, Option, none, some, List, [], ◌∷◌, map, ◌==◌, if◌then◌else◌,
  Text, first_where, exists_where, update_where, delete_where, Action, ZynoraError, pure, raise,
  gets, or_raise, atomic, ◌>>=◌, ◌>>◌, raise_if, modify, strip,
}
use date_app.Accounts.Models.{User}
use date_app.Authentication.Models.{RecoveryCode, MfaSecret, AuthEvent, Store}
use date_app.Authentication.Totp.{CodeCheck, verify_code, default_window}
use date_app.Authentication.Login.{save_user}

abbrev pub is_secret_of : ℕ → MfaSecret → Bool
is_secret_of user m = m.user == user

abbrev pub is_confirmed_of : ℕ → MfaSecret → Bool
is_confirmed_of user m = m.user == user && m.is_confirmed

-- `update_or_create`
unfoldable pub enrolled : ℕ → Text → List MfaSecret → List MfaSecret
enrolled user secret ms =
    let row : MfaSecret = record {
      user = user;
      secret = secret;
      is_confirmed = false;
      confirmed_at = none;
      recovery_codes = [];
      last_used_counter = 0;
    } in
    if exists_where (is_secret_of user) ms
    then update_where (is_secret_of user)
        (λ m. record m {
          secret = secret;
          is_confirmed = false;
          recovery_codes = [];
          last_used_counter = 0;
        })
        ms
    else row ∷ ms

-- `MFAService.begin_enrolment` of a secret
unfoldable pub begin_enrolment : User → Text → Store → Store
unfolding enrolled
begin_enrolment u secret s = record s { mfa = enrolled u.id secret s.mfa }

-- The loop over the recovery codes: the first that has the hash and is not used is used.
unfoldable pub spend_code : ℕ → List RecoveryCode → Option (List RecoveryCode)
spend_code digest [] = none
spend_code digest (c ∷ cs) =
    let rest = spend_code digest cs in
    if c.code_hash == digest && not c.used
    then some (record c { used = true } ∷ cs)
    else elim rest [ none ↦ none | some ds ↦ some (c ∷ ds) ]

abbrev pub with_counter : ℕ → MfaSecret → MfaSecret
with_counter c m = record m { last_used_counter = c }

abbrev pub with_codes : List RecoveryCode → MfaSecret → MfaSecret
with_codes cs m = record m { recovery_codes = cs }

abbrev pub save_mfa : ℕ → (MfaSecret → MfaSecret) → Store → Store
save_mfa user f s = record s { mfa = update_where (is_secret_of user) f s.mfa }

module _ (hmac_sha1 : Text → ℕ → List ℕ) (is_other_digit : ℕ → Bool) (hash_text : Text → ℕ)
    (lower : Text → Text) (check_password : ℕ → User → Bool) where
  abbrev pub unused_codes : List Text → List RecoveryCode
  unused_codes ts = map (λ t. record { code_hash = hash_text t; used = false }) ts

  abbrev pub confirmed : ℕ → ℕ → List Text → MfaSecret → MfaSecret
  confirmed now counter fresh m = record m {
    is_confirmed = true;
    confirmed_at = some now;
    last_used_counter = counter;
    recovery_codes = unused_codes fresh;
  }

  abbrev pub check : ℕ → Text → MfaSecret → CodeCheck
  check now code m =
      verify_code hmac_sha1 is_other_digit default_window now m.secret code m.last_used_counter

  -- `hmac.compare_digest` raises on a text that is not ASCII.
  abbrev pub type_error : ZynoraError
  type_error = ZynoraError.uncaught "comparing strings with non-ASCII characters is not supported"

  -- `MFAService.confirm_enrolment` with the recovery codes `fresh`
  unfoldable pub confirm_enrolment : ℕ → User → Text → List Text → Action Store (List Text)
  confirm_enrolment now u code fresh = atomic do
    m ←
        or_raise (← gets (λ s. first_where (is_secret_of u.id) s.mfa))
          (ZynoraError.validation_error "Start two-factor setup first.")
    elim (check now code m) [
      | CodeCheck.raises ↦ raise type_error
      | CodeCheck.unmatched ↦
          raise
            (ZynoraError.validation_error "That code is not valid. Check your authenticator app.")
      | CodeCheck.matched c ↦ do
        modify (save_mfa u.id (confirmed now c fresh))
        modify (save_user u.id (λ x. record x { is_mfa_enabled = true }))
        modify λ s. record s { events = AuthEvent.mfa_enabled u.id ∷ s.events }
        pure fresh
    ]

  abbrev pub digest_of : Text → ℕ
  digest_of code = hash_text (lower (strip code))

  -- `MFAService.verify`
  unfoldable pub verify : ℕ → User → Text → Action Store Bool
  unfolding spend_code
  verify now u code = atomic do
    m ←
        or_raise (← gets (λ s. first_where (is_confirmed_of u.id) s.mfa))
          (ZynoraError.validation_error "Two-factor authentication is not enabled.")
    elim (check now code m) [
      | CodeCheck.raises ↦ raise type_error
      | CodeCheck.matched c ↦ do modify (save_mfa u.id (with_counter c)); pure true
      | CodeCheck.unmatched ↦ elim (spend_code (digest_of code) m.recovery_codes) [
        | none ↦ raise (ZynoraError.validation_error "That code is not valid.")
        | some cs ↦ do modify (save_mfa u.id (with_codes cs)); pure true
      ]
    ]

  -- `MFAService.disable`
  unfoldable pub disable : User → ℕ → Action Store (Unit {0})
  disable u password = do
    raise_if (not (check_password password u)) (ZynoraError.validation_error "Incorrect password.")
    modify λ s. record s { mfa = delete_where (is_secret_of u.id) s.mfa }
    modify (save_user u.id (λ x. record x { is_mfa_enabled = false }))
    modify λ s. record s { events = AuthEvent.mfa_disabled u.id ∷ s.events }

  -- `MFAService.regenerate_recovery_codes` with the codes `fresh`
  unfoldable pub regenerate_recovery_codes : User → List Text → Action Store (List Text)
  regenerate_recovery_codes u fresh = do
    m ←
        or_raise (← gets (λ s. first_where (is_confirmed_of u.id) s.mfa))
          (ZynoraError.validation_error "Two-factor authentication is not enabled.")
    modify (save_mfa u.id (with_codes (unused_codes fresh)))
    pure fresh
