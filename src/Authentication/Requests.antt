-- ===== src/Authentication/Requests.antt =====
-- The calls that send a link: RegistrationService and request_reset of
-- apps/authentication/services.py. The raw token, which the program draws at random, is an argument;
-- the mail is handed to the notifications service, whose failures are swallowed, and changes nothing
-- here.
use date_app.Common.{
  ℕ, ◌+◌, Bool, true, ◌&&◌, Option, none, some, ◌∷◌, ltb, ◌==◌, if◌then◌else◌, Text, is_empty,
  first_where, exists_where, Action, ZynoraError, pure, gets, atomic, ◌>>=◌, ◌>>◌, raise_if, modify,
  strip,
}
use date_app.Accounts.Models.{User, Store as AccountsStore}
use date_app.Accounts.Registration.{Signup, create_account}
use date_app.Accounts.Devices.{register_device}
use date_app.Authentication.Models.{TokenPurpose, Resent, AuthEvent, Store}
use date_app.Authentication.Tokens.{issue}
use date_app.Authentication.Login.{Request}

abbrev pub on_accounts : {A : Type 0} → Action AccountsStore A → Action Store A
on_accounts m s = let (r, a) = m s.accounts in (r, record s { accounts = a })

abbrev pub is_waiting : ℕ → ℕ → Resent → Bool
is_waiting now user r = r.user == user && ltb now r.expires_at

module _ (hash_token : ℕ → ℕ) where
  -- `RegistrationService.resend_verification`
  unfoldable pub resend_verification : ℕ → ℕ → User → ℕ → Action Store ℕ
  unfolding issue
  resend_verification now id u raw = do
    raise_if u.is_email_verified
        (ZynoraError.validation_error "This email address is already verified.")
    raise_if (← gets (λ s. exists_where (is_waiting now u.id) s.resent))
        (ZynoraError.rate_limited "Please wait a minute before requesting another email.")
    modify λ s. record s { resent = record { user = u.id; expires_at = now + 60 } ∷ s.resent }
    modify (issue hash_token now id u.id TokenPurpose.email_verification raw)
    pure raw

  -- `PasswordService.request_reset`: the answer is the same whether the account exists or not.
  unfoldable pub request_reset : (Text → Text → Bool) → ℕ → ℕ → Text → ℕ → Store → Bool × Store
  unfolding issue
  request_reset iexact now id email raw s =
      elim (first_where (λ u. iexact u.email (strip email)) s.accounts.users) [
        | none ↦ (true, s)
        | some u ↦
            let t = issue hash_token now id u.id TokenPurpose.password_reset raw s in
            (true, record t { events = AuthEvent.password_reset_requested u.id ∷ t.events })
      ]

module _ (lower title : Text → Text) (iexact is_in : Text → Text → Bool)
    (normalize_email : Text → Text) (hash_token make_password : ℕ → ℕ)
    (full_clean : User → Option ZynoraError) where
  -- The device of the request, when it names one.
  unfoldable pub first_device : ℕ → ℕ → User → Option Request → AccountsStore → AccountsStore
  first_device now device_id u none a = a
  first_device now device_id u (some r) a =
      if is_empty r.device_fingerprint
      then a
      else (register_device lower title is_in now device_id u.id r.device_fingerprint r.user_agent
          (some r.ip) a).1

  -- `RegistrationService.register`, with the ids of the rows that it adds.
  unfoldable pub sign_up : ℕ → ℕ → ℕ → ℕ → Signup → Option Request → ℕ → Action Store (User × ℕ)
  unfolding create_account issue first_device
  sign_up now id token_id device_id d request raw = atomic do
    u ← on_accounts (create_account lower iexact normalize_email make_password full_clean now id d)
    modify (issue hash_token now token_id u.id TokenPurpose.email_verification raw)
    modify λ s. record s { accounts = first_device now device_id u request s.accounts }
    pure (u, raw)
