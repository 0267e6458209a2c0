-- ===== src/Authentication/Passwords.antt =====
-- PasswordService of apps/authentication/services.py. How a password is stored and checked, and
-- which ones Django's validators accept, are the section's parameters.
use date_app.Common.{
  ℕ, Bool, false, not, ◌&&◌, none, some, ◌∷◌, ◌==◌, is_some, first_where, update_where, Action,
  ZynoraError, pure, gets, or_raise, atomic, ◌>>=◌, ◌>>◌, raise_if, modify,
}
use date_app.Accounts.Models.{User, is_id}
use date_app.Authentication.Models.{
  TokenPurpose, SecurityToken, used, ActiveSession, revoked, AuthEvent, Store,
}
use date_app.Authentication.Tokens.{validate, is_token}

abbrev pub is_open_session : ℕ → ActiveSession → Bool
is_open_session user a = a.user == user && not (is_some a.revoked_at)

module _ (hash_token make_password : ℕ → ℕ) (check_password : ℕ → User → Bool)
    (is_acceptable : ℕ → User → Bool) where
  abbrev pub with_password : ℕ → ℕ → User → User
  with_password now password u = record u {
    password = make_password password;
    password_changed_at = some now;
    must_change_password = false;
  }

  abbrev pub reset_row : ℕ → ℕ → User → User
  reset_row now password u = record (with_password now password u) {
    failed_login_attempts = 0;
    locked_until = none;
  }

  -- What `reset` writes: the account, the token, the sessions and the event.
  unfoldable pub reset_writes : ℕ → ℕ → SecurityToken → Store → Store
  reset_writes now password t s = record s {
    accounts = record s.accounts {
      users = update_where (is_id t.user) (reset_row now password) s.accounts.users;
    };
    tokens = update_where (is_token t.id) (used now) s.tokens;
    sessions = update_where (is_open_session t.user) (revoked now) s.sessions;
    events = AuthEvent.password_changed t.user ∷ s.events;
  }

  -- `PasswordService.reset`
  unfoldable pub reset : ℕ → ℕ → ℕ → Action Store User
  unfolding validate reset_writes
  reset now raw password = atomic do
    t ← validate hash_token now raw TokenPurpose.password_reset
    u ←
        or_raise (← gets (λ s. first_where (is_id t.user) s.accounts.users))
          (ZynoraError.not_found "The token's account does not exist.")
    raise_if (not (is_acceptable password u))
        (ZynoraError.validation_error "The password is not valid.")
    modify (reset_writes now password t)
    pure (reset_row now password u)

  -- `PasswordService.change`
  unfoldable pub change : ℕ → User → ℕ → ℕ → Action Store User
  change now u current password = do
    raise_if (not (check_password current u))
        (ZynoraError.validation_error "Your current password is incorrect.")
    raise_if (current == password)
        (ZynoraError.validation_error "Choose a password you have not used before.")
    raise_if (not (is_acceptable password u))
        (ZynoraError.validation_error "The password is not valid.")
    modify λ s. record s {
      accounts = record s.accounts {
        users = update_where (is_id u.id) (with_password now password) s.accounts.users;
      };
      events = AuthEvent.password_changed u.id ∷ s.events;
    }
    pure (with_password now password u)
