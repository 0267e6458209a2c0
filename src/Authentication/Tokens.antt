-- ===== src/Authentication/Tokens.antt =====
-- TokenService of apps/authentication/services.py, and `verify_email` of RegistrationService. The hash
-- of a raw token is the section's parameter.
use date_app.Common.{
  ℕ, ◌+◌, ◌*◌, Bool, not, ◌&&◌, none, ◌∷◌, ◌==◌, is_some, first_where, update_where, Action,
  ZynoraError, pure, gets, or_raise, atomic, ◌>>=◌, ◌>>◌, raise_if, modify,
}
use date_app.Authentication.Models.{
  TokenPurpose, same_purpose, SecurityToken, is_expired, used, AuthEvent, Store,
}

-- `TokenService.TTL_MINUTES`, with the defaults of config/settings/base.py.
unfoldable pub ttl_minutes : TokenPurpose → ℕ
ttl_minutes TokenPurpose.email_verification = 24 * 60
ttl_minutes TokenPurpose.password_reset = 30
ttl_minutes TokenPurpose.email_change = 60
ttl_minutes TokenPurpose.phone_otp = 10
ttl_minutes TokenPurpose.mfa_challenge = 10
ttl_minutes TokenPurpose.device_confirmation = 60

abbrev pub is_unused : SecurityToken → Bool
is_unused t = not (is_some t.used_at)

-- The outstanding tokens of a member for a purpose.
abbrev pub is_outstanding : ℕ → TokenPurpose → SecurityToken → Bool
is_outstanding user purpose t = t.user == user && same_purpose purpose t.purpose && is_unused t

abbrev pub is_token : ℕ → SecurityToken → Bool
is_token id t = t.id == id

module _ (hash_token : ℕ → ℕ) where
  unfoldable pub new_token : ℕ → ℕ → ℕ → TokenPurpose → ℕ → SecurityToken
  unfolding ttl_minutes
  new_token now id user purpose raw = record {
    id = id;
    user = user;
    purpose = purpose;
    token_hash = hash_token raw;
    expires_at = now + ttl_minutes purpose * 60;
    used_at = none;
  }

  -- `TokenService.issue` of the raw token `raw`, which the program draws at random.
  unfoldable pub issue : ℕ → ℕ → ℕ → TokenPurpose → ℕ → Store → Store
  unfolding new_token
  issue now id user purpose raw s = record s {
    tokens =
        new_token now id user purpose raw
        ∷ update_where (is_outstanding user purpose) (used now) s.tokens;
  }

  -- The filter of `validate`.
  abbrev pub fits : ℕ → TokenPurpose → SecurityToken → Bool
  fits raw purpose t =
      same_purpose purpose t.purpose && t.token_hash == hash_token raw && is_unused t

  -- `TokenService.validate`
  unfoldable pub validate : ℕ → ℕ → TokenPurpose → Action Store SecurityToken
  validate now raw purpose = do
    t ←
        or_raise (← gets (λ s. first_where (fits raw purpose) s.tokens))
          (ZynoraError.validation_error "That link is invalid or has already been used.")
    raise_if (is_expired now t)
        (ZynoraError.validation_error "That link has expired. Request a new one.")
    pure t

  -- `TokenService.consume`
  unfoldable pub consume : ℕ → ℕ → TokenPurpose → Action Store SecurityToken
  unfolding validate
  consume now raw purpose = atomic do
    t ← validate now raw purpose
    modify λ s. record s { tokens = update_where (is_token t.id) (used now) s.tokens }
    pure (used now t)

  -- `RegistrationService.verify_email`
  unfoldable pub verify_email : ℕ → ℕ → Action Store ℕ
  unfolding consume
  verify_email now raw = do
    t ← consume now raw TokenPurpose.email_verification
    modify λ s. record s { events = AuthEvent.email_verified t.user ∷ s.events }
    pure t.user
