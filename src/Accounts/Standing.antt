-- ===== src/Accounts/Standing.antt =====
-- Who may use the platform: AccountService.ban and set_verification_flag of apps/accounts/services.py
-- and flag_email_verified of apps/accounts/signals.py.
use date_app.Common.{
  ℕ, ◌≡◌, refl, Bool, true, false, ◌&&◌, some, List, [], ◌∷◌, arith, Text, first_where,
  exists_where, update_where, All, first_where-holds, exists_of_first, first-update_self, ok,
  All-update,
}
use date_app.Accounts.Models.{
  AccountStatus, AccountEvent, User, Store, is_id, same_status, level_of,
}
use date_app.Accounts.Lifecycle.{
  get, activate, reactivate, ban, request_deletion, barred, activated, Flag, set_flag, recompute,
  set_verification_flag, flag_email_verified, is_active_member, saved, leaving, returned, flagged,
  is_allowed,
}

-- The calls on an account that exists.
module _ (id : ℕ) (s : Store) (u : User) (e : first_where (is_id id) s.users ≡ some u) where
  pub ban_found :
      (reason : Text) (permanent : Bool)
      → ban id reason permanent s ≡ (
        ok (barred permanent u),
        saved id (barred permanent) (AccountEvent.user_banned id reason permanent) s,
      )
  unfolding ban get
  ban_found reason permanent = ground arith

  pub activate_found :
      activate id s ≡ (ok (activated u), saved id activated (AccountEvent.user_activated id) s)
  unfolding activate get
  activate_found = ground arith

  pub request_deletion_found :
      (now : ℕ)
      → request_deletion now id s
        ≡ (ok (leaving now u), saved id (leaving now) (AccountEvent.user_deleted id true) s)
  unfolding request_deletion get
  request_deletion_found now = ground arith

  pub reactivate_found :
      u.status ≡ AccountStatus.deactivated
      → reactivate id s ≡ (ok (returned u), saved id returned (AccountEvent.user_activated id) s)
  unfolding reactivate get
  reactivate_found d = ground arith

  pub flag_found :
      (flag : Flag) (value : Bool)
      → is_allowed flag ≡ true
      → set_verification_flag id flag value s ≡ (
        ok (flagged flag value u),
        record s { users = update_where (is_id id) (flagged flag value) s.users },
      )
  unfolding set_verification_flag get
  flag_found flag value a = ground arith

  flag_email_verified_found :
      (flag_email_verified id s).1
      ≡ saved id activated
          (AccountEvent.user_activated id)
          (record s { users = update_where (is_id id) (flagged Flag.email true) s.users })
  unfolding flag_email_verified recompute activate get first_where update_where
  flag_email_verified_found =
      let row = first-update_self (is_id id) (flagged Flag.email true) s.users u (λ x. refl) e in
      rw (flag_found Flag.email true refl, flag_email_verified) (ground (arith, row))

module _ (id : ℕ) (reason : Text) (permanent : Bool) (s : Store) where
  -- A ban or a suspension of an account that exists ends its membership, whatever it was before.
  pub ban_bars :
      (u : User)
      → first_where (is_id id) s.users ≡ some u
      → let (r, t) = ban id reason permanent s in
        (r ≡ ok (barred permanent u))
        × (first_where (is_id id) t.users ≡ some (barred permanent u))
        × (is_active_member id t ≡ false)
  unfolding is_active_member exists_where update_where
  ban_bars u e = rw (ban_found id s u e reason permanent) (
    refl,
    first-update_self (is_id id) (barred permanent) s.users u (λ x. refl) e,
    barred_out s.users,
  )
    where
      barred_out :
          (us : List User)
          → exists_where
              (λ u. is_id id u && u.is_active && same_status AccountStatus.active u.status)
              (update_where (is_id id) (barred permanent) us)
            ≡ false
      barred_out [] = refl
      barred_out (x ∷ us) = ground (arith, barred_out us)

  -- The handler of a verified email makes an account active whatever its standing: an account that
  -- has been banned or suspended is a member again.
  pub flag_email_verified_unbars :
      (u : User)
      → first_where (is_id id) s.users ≡ some u
      → is_active_member id (flag_email_verified id (ban id reason permanent s).1).1 ≡ true
  unfolding is_active_member recompute
  flag_email_verified_unbars u e =
      let banned = barred permanent u in
      let t = saved id (barred permanent) (AccountEvent.user_banned id reason permanent) s in
      let row = first-update_self (is_id id) (barred permanent) s.users u (λ x. refl) e in
      let row' =
        first-update_self (is_id id) (flagged Flag.email true) t.users banned (λ x. refl) row in
      let row'' =
        first-update_self (is_id id) activated
          (update_where (is_id id) (flagged Flag.email true) t.users)
          (flagged Flag.email true banned) (λ x. refl) row' in
      rw (ban_found id s u e reason permanent) (
        rw (flag_email_verified_found id t banned row) (
          exists_of_first (is_id id) _ _ _ row''
            (ground (arith, first_where-holds (is_id id) s.users u e))))

-- The stored level is the one that the badges give.
abbrev pub IsLevelled : User → Type 0
IsLevelled u = u.verification_level ≡ level_of u

recompute-IsLevelled : (x : User) → IsLevelled (recompute x)
unfolding recompute level_of
recompute-IsLevelled x = refl

-- If every stored level is the one that the badges give, setting a badge keeps it so.
set_verification_flag-IsLevelled :
    (id : ℕ) (flag : Flag) (value : Bool) (s : Store)
    → All IsLevelled s.users
    → All IsLevelled (set_verification_flag id flag value s).1.users
unfolding set_verification_flag get recompute
set_verification_flag-IsLevelled id flag value s h = ground (
  arith,
  All-update IsLevelled (is_id id) (flagged flag value) s.users
      (λ x _ _. recompute-IsLevelled (set_flag flag value x)) h,
)
