-- ===== src/Authentication/SingleUse.antt =====
-- A token is used once: TokenService of apps/authentication/services.py.
use date_app.Common.{
  ℕ, ◌+◌, ◌*◌, ◌<◌, ◌≡◌, refl, Bool, true, false, none, some, List, [], ◌∷◌, arith, ==_refl,
  first_where, exists_where, update_where, none_of_exists, exists-update_self, ok, err, ZynoraError,
}
use date_app.Authentication.Models.{
  TokenPurpose, same_purpose, SecurityToken, is_expired, used, Store,
}
use date_app.Authentication.Tokens.{
  ttl_minutes, is_outstanding, is_token, new_token, issue, fits, validate, consume,
}

same_purpose_refl : (p : TokenPurpose) → same_purpose p p ≡ true
same_purpose_refl TokenPurpose.email_verification = refl
same_purpose_refl TokenPurpose.password_reset = refl
same_purpose_refl TokenPurpose.email_change = refl
same_purpose_refl TokenPurpose.phone_otp = refl
same_purpose_refl TokenPurpose.mfa_challenge = refl
same_purpose_refl TokenPurpose.device_confirmation = refl

-- Using tokens makes none fit that did not.
pub stays_false :
    (now : ℕ) (q p : SecurityToken → Bool) (ts : List SecurityToken)
    → ((t : SecurityToken) → q (used now t) ≡ false)
    → exists_where q ts ≡ false
    → exists_where q (update_where p (used now) ts) ≡ false
unfolding exists_where update_where
stays_false now q p [] h e = refl
stays_false now q p (t ∷ ts) h e = ground (arith, h t, stays_false now q p ts h)

module _ (hash_token : ℕ → ℕ) (raw : ℕ) (purpose : TokenPurpose) where
  abbrev fit : SecurityToken → Bool
  fit = fits hash_token raw purpose

  used_misfits : (now : ℕ) (t : SecurityToken) → fit (used now t) ≡ false
  used_misfits now t = ground arith

  pub consume_found :
      (now : ℕ) (s : Store) (t : SecurityToken)
      → first_where fit s.tokens ≡ some t
      → is_expired now t ≡ false
      → consume hash_token now raw purpose s
        ≡ (ok (used now t), record s { tokens = update_where (is_token t.id) (used now) s.tokens })
  unfolding consume validate
  consume_found now s t e x = ground (arith, e, x)

  consume_refused :
      (now : ℕ) (s : Store)
      → first_where fit s.tokens ≡ none
      → consume hash_token now raw purpose s
        ≡ (err (ZynoraError.validation_error "That link is invalid or has already been used."), s)
  unfolding consume validate
  consume_refused now s e = ground (arith, e)

  module _ (now id user : ℕ) (s : Store) where
    abbrev minted : SecurityToken
    minted = new_token hash_token now id user purpose raw

    minted_first : first_where fit (issue hash_token now id user purpose raw s).tokens ≡ some minted
    unfolding issue new_token first_where
    minted_first = ground (arith, same_purpose_refl purpose, ==_refl (hash_token raw))

    abbrev olds : List SecurityToken
    olds = update_where (is_outstanding user purpose) (used now) s.tokens

    none_fits :
        (later : ℕ)
        → exists_where fit s.tokens ≡ false
        → exists_where fit (
            update_where
              (is_token id)
              (used later)
              (issue hash_token now id user purpose raw s).tokens)
          ≡ false
    unfolding issue new_token exists_where update_where
    none_fits later h =
        let old = stays_false now fit (is_outstanding user purpose) s.tokens (used_misfits now) h in
        let all = stays_false later fit (is_token id) olds (used_misfits later) old in
        ground (arith, all, used_misfits later minted, ==_refl id)

    none_outstanding :
        (later : ℕ)
        → exists_where (is_outstanding user purpose) (
            update_where
              (is_token id)
              (used later)
              (issue hash_token now id user purpose raw s).tokens)
          ≡ false
    unfolding issue new_token exists_where update_where
    none_outstanding later =
        let old =
          exists-update_self (is_outstanding user purpose) (used now) s.tokens
            (λ t. ground arith) in
        let all =
          stays_false later (is_outstanding user purpose) (is_token id) olds (λ t. ground arith)
            old in
        ground (arith, all, ==_refl id)

    minted_id : minted.id ≡ id
    unfolding new_token
    minted_id = refl

-- A token whose raw value fits no unused token is accepted within its time; the member then has no
-- outstanding token for the purpose, earlier ones included, and the same value is refused ever
-- after.
pub token_once :
    (hash_token : ℕ → ℕ) (raw : ℕ) (purpose : TokenPurpose) (now later after id user : ℕ)
    (s : Store)
    → exists_where (fits hash_token raw purpose) s.tokens ≡ false
    → later < now + ttl_minutes purpose * 60
    → let t = issue hash_token now id user purpose raw s in
      let (r, u) = consume hash_token later raw purpose t in
      (r ≡ ok (used later (new_token hash_token now id user purpose raw)))
      × (exists_where (is_outstanding user purpose) u.tokens ≡ false)
      × (consume hash_token after raw purpose u ≡ (
        err (ZynoraError.validation_error "That link is invalid or has already been used."),
        u,
      ))
unfolding new_token
token_once hash_token raw purpose now later after id user s h l =
    let t = issue hash_token now id user purpose raw s in
    rw
      (consume_found hash_token raw purpose later t (minted hash_token raw purpose now id user s)
        (minted_first hash_token raw purpose now id user s) (ground arith))
      (
        refl,
        none_outstanding hash_token raw purpose now id user s later,
        consume_refused hash_token raw purpose after _ (
            none_of_exists (fits hash_token raw purpose) _
              (none_fits hash_token raw purpose now id user s later h)),
      )
