-- ===== src/Accounts/Lifecycle.antt =====
-- AccountService of apps/accounts/services.py, the checks of apps/accounts/interface.py, the handlers
-- of apps/accounts/signals.py and the jobs of apps/accounts/tasks.py.
use date_app.Common.{
  ℕ, ◌+◌, ◌*◌, Bool, true, false, not, ◌&&◌, none, some, List, [], ◌∷◌, ◌++◌, ltb, if◌then◌else◌,
  Text, length, first_where, filter_by, exists_where, update_where, delete_where, Action,
  ZynoraError, pure, gets, or_raise, ◌>>=◌, ◌>>◌, raise_if, modify,
}
use date_app.Accounts.Models.{
  AccountStatus, User, AccountEvent, Store, is_id, same_status, level_of,
}

-- `AccountService.get`
unfoldable pub get : ℕ → Action Store User
get id = do
  or_raise (← gets (λ s. first_where (is_id id) s.users))
      (ZynoraError.not_found "That account does not exist.")

-- The row is saved, and the event published.
abbrev pub saved : ℕ → (User → User) → AccountEvent → Store → Store
saved id f e s = record s { users = update_where (is_id id) f s.users; events = e ∷ s.events }

abbrev save_and_publish : ℕ → (User → User) → AccountEvent → Action Store (Unit {0})
save_and_publish id f e = modify (saved id f e)

abbrev pub activated : User → User
activated u = record u { status = AccountStatus.active; is_active = true }

-- `AccountService.activate`
unfoldable pub activate : ℕ → Action Store User
unfolding get
activate id = do
  u ← get id
  save_and_publish id activated (AccountEvent.user_activated id)
  pure (activated u)

-- `AccountService.deactivate`
unfoldable pub deactivate : ℕ → ℕ → Text → Action Store User
unfolding get
deactivate now id reason = do
  u ← get id
  let off = λ (u : User). record u {
    status = AccountStatus.deactivated;
    is_online = false;
    deactivated_at = some now;
  }
  save_and_publish id off (AccountEvent.user_deactivated id reason)
  pure (off u)

abbrev pub returned : User → User
returned u = record u { status = AccountStatus.active; deactivated_at = none }

-- `AccountService.reactivate`
unfoldable pub reactivate : ℕ → Action Store User
unfolding get
reactivate id = do
  u ← get id
  raise_if (not (same_status AccountStatus.deactivated u.status))
      (ZynoraError.validation_error "This account is not deactivated.")
  save_and_publish id returned (AccountEvent.user_activated id)
  pure (returned u)

abbrev pub barred : Bool → User → User
barred permanent u = record u {
  status = if permanent then AccountStatus.banned else AccountStatus.suspended;
  is_online = false;
}

-- `AccountService.ban`, which `AccountsInterface.suspend` calls.
unfoldable pub ban : ℕ → Text → Bool → Action Store User
unfolding get
ban id reason permanent = do
  u ← get id
  save_and_publish id (barred permanent) (AccountEvent.user_banned id reason permanent)
  pure (barred permanent u)

abbrev pub leaving : ℕ → User → User
leaving now u = record u {
  deletion_requested_at = some now;
  status = AccountStatus.deactivated;
  is_online = false;
}

-- `AccountService.request_deletion`
unfoldable pub request_deletion : ℕ → ℕ → Action Store User
unfolding get
request_deletion now id = do
  u ← get id
  save_and_publish id (leaving now) (AccountEvent.user_deleted id true)
  pure (leaving now u)

-- The verification flags that may be set, and any other name.
pub data Flag : Type 0 where
  email phone photo identity unknown : Flag

abbrev pub set_flag : Flag → Bool → User → User
set_flag Flag.email v u = record u { is_email_verified = v }
set_flag Flag.phone v u = record u { is_phone_verified = v }
set_flag Flag.photo v u = record u { is_photo_verified = v }
set_flag Flag.identity v u = record u { is_identity_verified = v }
set_flag Flag.unknown v u = u

abbrev pub is_allowed : Flag → Bool
is_allowed Flag.unknown = false
is_allowed _ = true

-- `User.recompute_verification_level`
unfoldable pub recompute : User → User
recompute u = record u { verification_level = level_of u }

abbrev pub flagged : Flag → Bool → User → User
flagged flag value u = recompute (set_flag flag value u)

-- `AccountService.set_verification_flag`
unfoldable pub set_verification_flag : ℕ → Flag → Bool → Action Store User
unfolding get recompute
set_verification_flag id flag value = do
  raise_if (not (is_allowed flag)) (ZynoraError.validation_error "Unknown verification flag.")
  u ← get id
  modify λ s. record s { users = update_where (is_id id) (flagged flag value) s.users }
  pure (flagged flag value u)

-- The handler `flag_email_verified`.
unfoldable pub flag_email_verified : ℕ → Action Store (Unit {0})
unfolding set_verification_flag activate
flag_email_verified id = do set_verification_flag id Flag.email true; activate id; pure tt

-- `AccountsInterface.exists` and `AccountsInterface.is_active_member`
unfoldable pub account_exists : ℕ → Store → Bool
account_exists id s = exists_where (is_id id) s.users

unfoldable pub is_active_member : ℕ → Store → Bool
is_active_member id s =
    exists_where (λ u. is_id id u && u.is_active && same_status AccountStatus.active u.status)
      s.users

-- The filter of the job `purge_pending_deletions`: the grace period is 30 days.
abbrev pub is_doomed : ℕ → User → Bool
is_doomed now u = elim u.deletion_requested_at [ none ↦ false | some t ↦ ltb (t + 30 * 86400) now ]

unfoldable pub purge_events : List User → List AccountEvent
purge_events [] = []
purge_events (u ∷ us) = purge_events us ++ AccountEvent.user_deleted u.id false ∷ []

-- `purge_pending_deletions`
unfoldable pub purge_pending_deletions : ℕ → Store → ℕ × Store
purge_pending_deletions now s =
    let doomed = filter_by (is_doomed now) s.users in
    (
      length doomed,
      record s {
        users = delete_where (is_doomed now) s.users;
        events = purge_events doomed ++ s.events;
      },
    )

-- `clear_stale_presence`: offline after ten minutes without activity.
unfoldable pub clear_stale_presence : ℕ → Store → ℕ × Store
clear_stale_presence now s =
    let stale = λ (u : User).
      u.is_online && elim u.last_active_at [ none ↦ false | some t ↦ ltb (t + 600) now ] in
    (
      length (filter_by stale s.users),
      record s { users = update_where stale (λ u. record u { is_online = false }) s.users },
    )
