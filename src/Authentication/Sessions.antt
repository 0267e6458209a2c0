-- ===== src/Authentication/Sessions.antt =====
-- Sessions, attempts and tokens in bulk: apps/authentication/signals.py, tasks.py and interface.py.
use date_app.Common.{
  ℕ, ◌+◌, ◌*◌, Bool, true, false, not, ◌&&◌, ◌||◌, none, some, List, map, ltb, leb, ◌==◌,
  if◌then◌else◌, is_some, Text, is_empty, first_where, filter_by, count_where, update_where,
  delete_where, Result, ok, err, same_text,
}
use date_app.Accounts.Models.{User, Store as AccountsStore}
use date_app.Accounts.Lifecycle.{ban}
use date_app.Authentication.Models.{
  SecurityToken, ActiveSession, is_active_session, revoked, Outcome, LoginAttempt, MfaSecret,
  recovery_codes_remaining, Store,
}
use date_app.Authentication.Passwords.{is_open_session}

abbrev close_where : ℕ → (ActiveSession → Bool) → Store → ℕ × Store
close_where now p s =
    (count_where p s.sessions, record s { sessions = update_where p (revoked now) s.sessions })

-- The handler `kill_sessions_on_ban`.
unfoldable pub kill_sessions_on_ban : ℕ → ℕ → Store → Store
kill_sessions_on_ban now user s = (close_where now (is_open_session user) s).1

-- What the handler of the event does once the account is barred.
abbrev pub then_kill : ℕ → ℕ → Store → Result User × AccountsStore → Result User × Store
then_kill now id s (err e, t) = (err e, record s { accounts = t })
then_kill now id s (ok u, t) = (ok u, kill_sessions_on_ban now id (record s { accounts = t }))

-- `AccountService.ban`, followed by the handler of its event.
unfoldable pub ban_member : ℕ → ℕ → Text → Bool → Store → Result User × Store
unfolding ban kill_sessions_on_ban
ban_member now id reason permanent s = then_kill now id s (ban id reason permanent s.accounts)

-- The handler `force_reauth_on_anomaly`, for an anomaly that is high or not, from a browser.
unfoldable pub force_reauth_on_anomaly : ℕ → Bool → ℕ → Text → Store → Store
force_reauth_on_anomaly now is_high user fingerprint s =
    if is_high
    then (close_where now
        (λ a. is_open_session user a && not (same_text a.device_fingerprint fingerprint)) s).1
    else s

-- `AuthenticationInterface.revoke_all_sessions`
abbrev pub is_other_session : ℕ → Text → ActiveSession → Bool
is_other_session user key a =
    is_open_session user a && (is_empty key || not (same_text a.session_key key))

unfoldable pub revoke_all_sessions : ℕ → ℕ → Text → Store → ℕ × Store
revoke_all_sessions now user key s = close_where now (is_other_session user key) s

-- `AuthenticationInterface.list_active_sessions`, with whether each is still active.
unfoldable pub list_active_sessions : ℕ → ℕ → Store → List (ℕ × Bool)
list_active_sessions now user s =
    map (λ (a : ActiveSession). (a.id, is_active_session now a))
      (filter_by (is_open_session user) s.sessions)

-- The job `expire_stale_sessions`.
abbrev pub is_stale : ℕ → ActiveSession → Bool
is_stale now a =
    elim a.expires_at [ none ↦ false | some t ↦ ltb t now ] && not (is_some a.revoked_at)

unfoldable pub expire_stale_sessions : ℕ → Store → ℕ × Store
expire_stale_sessions now s = close_where now (is_stale now) s

-- The job `sweep_expired_tokens`.
abbrev pub is_long_expired : ℕ → SecurityToken → Bool
is_long_expired now t = ltb (t.expires_at + 86400) now

unfoldable pub sweep_expired_tokens : ℕ → Store → ℕ × Store
sweep_expired_tokens now s = (
  count_where (is_long_expired now) s.tokens,
  record s { tokens = delete_where (is_long_expired now) s.tokens },
)

-- The job `prune_login_attempts`.
unfoldable pub prune_login_attempts : ℕ → ℕ → Store → ℕ × Store
prune_login_attempts now days s =
    let old = λ (a : LoginAttempt). ltb (a.created_at + days * 86400) now in
    (count_where old s.attempts, record s { attempts = delete_where old s.attempts })

-- `AuthenticationInterface.count_failed_attempts`
abbrev pub is_success : Outcome → Bool
is_success Outcome.success = true
is_success _ = false

abbrev pub is_recent_failure : ℕ → ℕ → ℕ → LoginAttempt → Bool
is_recent_failure now minutes user a =
    elim a.user [ none ↦ false | some u ↦ u == user ]
    && leb now (a.created_at + minutes * 60)
    && not (is_success a.outcome)

unfoldable pub count_failed_attempts : ℕ → ℕ → ℕ → Store → ℕ
count_failed_attempts now minutes user s =
    count_where (is_recent_failure now minutes user) s.attempts

-- `AuthenticationInterface.mfa_status`: enabled, confirmed, and the recovery codes that remain.
unfoldable pub mfa_status : ℕ → Store → Bool × Bool × ℕ
mfa_status user s = elim (first_where (λ (m : MfaSecret). m.user == user) s.mfa) [
  | none ↦ (false, false, 0)
  | some m ↦ (true, m.is_confirmed, recovery_codes_remaining m)
]
