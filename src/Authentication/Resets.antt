-- ===== src/Authentication/Resets.antt =====
-- A reset password: PasswordService of apps/authentication/services.py.
use date_app.Common.{
  ℕ, ◌≡◌, refl, Bool, true, false, ◌&&◌, none, some, List, [], ◌∷◌, arith, first_where,
  exists_where, update_where, exists-update_self, first-update_self, ok,
}
use date_app.Accounts.Models.{User, is_id}
use date_app.Authentication.Models.{
  TokenPurpose, SecurityToken, is_expired, used, ActiveSession, revoked, Store,
}
use date_app.Authentication.Tokens.{is_unused, is_token, fits, validate}
use date_app.Authentication.Passwords.{is_open_session, reset_row, reset_writes, reset}

module _ (hash_token make_password : ℕ → ℕ) (check_password is_acceptable : ℕ → User → Bool)
    (now raw password : ℕ) (s : Store) where
  reset_found :
      (t : SecurityToken) (u : User)
      → first_where (fits hash_token raw TokenPurpose.password_reset) s.tokens ≡ some t
      → is_expired now t ≡ false
      → first_where (is_id t.user) s.accounts.users ≡ some u
      → is_acceptable password u ≡ true
      → reset hash_token make_password check_password is_acceptable now raw password s ≡ (
        ok (reset_row hash_token make_password check_password is_acceptable now password u),
        reset_writes hash_token make_password check_password is_acceptable now password t s,
      )
  unfolding reset validate
  reset_found t u e x f a = ground (arith, e, x, f, a)

  sessions_closed :
      (user : ℕ) (xs : List ActiveSession)
      → exists_where (is_open_session user) (update_where (is_open_session user) (revoked now) xs)
        ≡ false
  sessions_closed user xs =
      exists-update_self (is_open_session user) (revoked now) xs (λ a. ground arith)

  token_spent :
      (id : ℕ) (ts : List SecurityToken)
      → exists_where (λ x. is_token id x && is_unused x) (update_where (is_token id) (used now) ts)
        ≡ false
  unfolding exists_where update_where
  token_spent id [] = refl
  token_spent id (t ∷ ts) = ground (arith, token_spent id ts)

  -- A token for a reset that is neither used nor expired, with a password that the validators accept,
  -- gives its account the new password and lifts the lock on it; every session of the account is then
  -- revoked, and the token is used.
  pub reset_revokes :
      (t : SecurityToken) (u : User)
      → first_where (fits hash_token raw TokenPurpose.password_reset) s.tokens ≡ some t
      → is_expired now t ≡ false
      → first_where (is_id t.user) s.accounts.users ≡ some u
      → is_acceptable password u ≡ true
      → let (r, w) =
          reset hash_token make_password check_password is_acceptable now raw password s in
        (v : User) × (r ≡ ok v)
        × (first_where (is_id t.user) w.accounts.users ≡ some v)
        × (v.password ≡ make_password password)
        × (v.locked_until ≡ none)
        × (exists_where (is_open_session t.user) w.sessions ≡ false)
        × (exists_where (λ x. is_token t.id x && is_unused x) w.tokens ≡ false)
  unfolding reset_writes
  reset_revokes t u e x f a =
      let row = reset_row hash_token make_password check_password is_acceptable now password in
      rw (reset_found t u e x f a) (
        row u,
        refl,
        first-update_self (is_id t.user) row s.accounts.users u (λ y. refl) f,
        refl,
        refl,
        sessions_closed t.user s.sessions,
        token_spent t.id s.tokens,
      )
