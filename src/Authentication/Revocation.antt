-- ===== src/Authentication/Revocation.antt =====
-- What the handlers and jobs of apps/authentication/signals.py and tasks.py leave: a barred member has
-- no session, and no valid token is swept away.
use date_app.Common.{
  ℕ, ◌≤◌, ◌≡◌, refl, sym, ap, ◌∙◌, inl, inr, Bool, false, ◌&&◌, some, List, [], ◌∷◌, arith, ◌==◌,
  if◌then◌else◌, Bool-cases, Option-cases, Text, first_where, filter_by, exists_where, update_where,
  first-update_self, ok, first-delete,
}
use date_app.Accounts.Models.{AccountStatus, AccountEvent, User, is_id}
use date_app.Accounts.Lifecycle.{saved, barred}
use date_app.Accounts.Standing.{ban_found}
use date_app.Authentication.Models.{
  TokenPurpose, SecurityToken, is_expired, ActiveSession, is_active_session, revoked, Store,
}
use date_app.Authentication.Tokens.{fits, validate}
use date_app.Authentication.Passwords.{is_open_session}
use date_app.Authentication.Sessions.{
  kill_sessions_on_ban, then_kill, ban_member, is_long_expired, sweep_expired_tokens,
}

abbrev pub has_session : ℕ → ℕ → ActiveSession → Bool
has_session now user a = a.user == user && is_active_session now a

none_left :
    (now later user : ℕ) (xs : List ActiveSession)
    → exists_where (has_session later user) (update_where (is_open_session user) (revoked now) xs)
      ≡ false
unfolding exists_where update_where
none_left now later user [] = refl
none_left now later user (a ∷ xs) = ground (arith, none_left now later user xs)

others_left :
    (now later user other : ℕ) (xs : List ActiveSession)
    → (other == user) ≡ false
    → filter_by (has_session later other) (update_where (is_open_session user) (revoked now) xs)
      ≡ filter_by (has_session later other) xs
unfolding filter_by update_where
others_left now later user other [] h = refl
others_left now later user other (a ∷ xs) h =
    ground (arith, h, others_left now later user other xs h)

ban_member_found :
    (now id : ℕ) (reason : Text) (permanent : Bool) (s : Store) (u : User)
    → first_where (is_id id) s.accounts.users ≡ some u
    → ban_member now id reason permanent s ≡ (
      ok (barred permanent u),
      kill_sessions_on_ban now id (record s {
        accounts =
            saved id (barred permanent) (AccountEvent.user_banned id reason permanent) s.accounts;
      }),
    )
unfolding ban_member
ban_member_found now id reason permanent s u e =
    ap (then_kill now id s) (ban_found id s.accounts u e reason permanent)

-- When a member of the table is banned or suspended, its row is barred and offline, every session that
-- it had is over, so that none of them is active at any later time, and the active sessions of every
-- other member are as before.
pub ban_ends_sessions :
    (now later id other : ℕ) (reason : Text) (permanent : Bool) (s : Store) (u : User)
    → (other == id) ≡ false
    → first_where (is_id id) s.accounts.users ≡ some u
    → let (r, t) = ban_member now id reason permanent s in
      (v : User) × (r ≡ ok v)
      × (first_where (is_id id) t.accounts.users ≡ some v)
      × (v.status ≡ (if permanent then AccountStatus.banned else AccountStatus.suspended))
      × (v.is_online ≡ false)
      × (exists_where (has_session later id) t.sessions ≡ false)
      × (filter_by (has_session later other) t.sessions
          ≡ filter_by (has_session later other) s.sessions)
unfolding kill_sessions_on_ban
ban_ends_sessions now later id other reason permanent s u h e =
    rw (ban_member_found now id reason permanent s u e) (
      barred permanent u,
      refl,
      first-update_self (is_id id) (barred permanent) s.accounts.users u (λ x. refl) e,
      refl,
      refl,
      none_left now later id s.sessions,
      others_left now later id other s.sessions h,
    )

module _ (hash_token : ℕ → ℕ) (now raw : ℕ) (purpose : TokenPurpose) where
  validate_found :
      (s : Store) (t : SecurityToken)
      → first_where (fits hash_token raw purpose) s.tokens ≡ some t
      → is_expired now t ≡ false
      → validate hash_token now raw purpose s ≡ (ok t, s)
  unfolding validate
  validate_found s t e x = ground (arith, e, x)

  validated :
      (s u : Store) (t : SecurityToken)
      → validate hash_token now raw purpose s ≡ (ok t, u)
      → (first_where (fits hash_token raw purpose) s.tokens ≡ some t) × (is_expired now t ≡ false)
  unfolding validate
  validated s u t h = elim (Option-cases (first_where (fits hash_token raw purpose) s.tokens)) [
    | inl e ↦ absurd (ground (arith, h, e))
    | inr g ↦
        let (v, e) = g in
        elim (Bool-cases (is_expired now v)) [
          | inl old ↦ absurd (ground (arith, h, e, old))
          | inr new ↦
              let same : v ≡ t = ground (arith, h, e, new) in
              (e ∙ ap some same, ap (is_expired now) (sym same) ∙ new)
        ]
  ]

  -- Sweeping the expired tokens away takes no token that is still accepted: what `validate` accepts
  -- before the sweep it accepts after it, whenever the sweep runs up to then.
  sweep_keeps :
      (swept : ℕ) (s u : Store) (t : SecurityToken)
      → swept ≤ now
      → validate hash_token now raw purpose s ≡ (ok t, u)
      → let w = (sweep_expired_tokens swept s).1 in
        validate hash_token now raw purpose w ≡ (ok t, w)
  unfolding sweep_expired_tokens
  sweep_keeps swept s u t l h =
      let (e, x) = validated s u t h in
      validate_found _ t
        (first-delete (fits hash_token raw purpose) (is_long_expired swept) s.tokens t e
          (ground arith))
        x
