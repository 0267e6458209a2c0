-- ===== src/Authentication/Login.antt =====
-- Signing in and out: LoginService of apps/authentication/services.py and EmailOrPhoneBackend of
-- apps/authentication/backends.py. The database's comparison without case, the check of a password,
-- Django's own ModelBackend, which config/settings/base.py lists after the other, and Python's text
-- functions for the devices are the section's parameters.
use date_app.Common.{
  ℕ, ◌+◌, ◌*◌, Bool, true, false, not, ◌&&◌, ◌||◌, Option, none, some, List, [], ◌∷◌, ltb, leb,
  ◌==◌, if◌then◌else◌, Text, codes, is_empty, take, first_where, update_where, Action, ZynoraError,
  pure, raise, gets, ◌>>=◌, ◌>>◌, raise_if, modify, when, same_text, strip,
}
use date_app.Accounts.Models.{
  User, is_id, is_banned, is_locked, touch_activity, mark_online, Store as AccountsStore,
}
use date_app.Accounts.Registration.{has_phone}
use date_app.Accounts.Devices.{register_device}
use date_app.Authentication.Models.{
  ActiveSession, revoked, Outcome, Scope, Counter, AuthEvent, Store,
}

-- What the service reads of a request.
pub record Request : Type 0 where
  pub ip : ℕ
  pub user_agent : Text
  pub device_fingerprint : Text
  pub session_key : Text

abbrev pub ip_of : Option Request → Option ℕ
ip_of none = none
ip_of (some r) = some r.ip

abbrev text_of : (Request → Text) → Option Request → Text
text_of f none = []
text_of f (some r) = f r

abbrev pub max_failed_attempts : ℕ
max_failed_attempts = 5

abbrev pub lockout_seconds : ℕ
lockout_seconds = 15 * 60

abbrev same_ip : Option ℕ → Option ℕ → Bool
same_ip none none = true
same_ip none (some b) = false
same_ip (some a) none = false
same_ip (some a) (some b) = a == b

unfoldable pub same_scope : Scope → Scope → Bool
same_scope (Scope.by_identifier t) (Scope.by_identifier u) = same_text t u
same_scope (Scope.by_identifier t) (Scope.by_ip b) = false
same_scope (Scope.by_ip a) (Scope.by_identifier u) = false
same_scope (Scope.by_ip a) (Scope.by_ip b) = same_ip a b

abbrev pub counts : ℕ → Scope → Counter → Bool
counts now scope c = same_scope c.scope scope && ltb now c.expires_at

-- `CacheService.incr`: the counter is made on first use, and keeps its time from then.
unfoldable pub incr : ℕ → ℕ → Scope → List Counter → ℕ × List Counter
unfolding same_scope
incr now ttl scope cs = elim (first_where (counts now scope) cs) [
  | none ↦ (1, record { scope = scope; value = 1; expires_at = now + ttl } ∷ cs)
  | some c ↦ (
    c.value + 1,
    update_where (counts now scope) (λ (x : Counter). record x { value = c.value + 1 }) cs,
  )
]

-- One scope of `LoginService._throttle`, at `LOGIN_RATE_LIMIT`.
unfoldable pub throttle_scope : ℕ → Scope → Action Store (Unit {0})
unfolding incr
throttle_scope now scope s =
    let (n, cs) = incr now 300 scope s.counters in
    raise_if (ltb 10 n)
      (ZynoraError.rate_limited "Too many sign-in attempts. Try again in a few minutes.")
      (record s { counters = cs })

-- `LoginService._throttle`
unfoldable pub throttle : ℕ → Text → Option Request → Action Store (Unit {0})
unfolding throttle_scope
throttle now identifier request = do
  throttle_scope now (Scope.by_identifier identifier)
  throttle_scope now (Scope.by_ip (ip_of request))

-- `LoginService._record`
unfoldable pub record_attempt : ℕ → Text → Outcome → Option ℕ → Text → Store → Store
record_attempt now identifier outcome user detail s = record s {
  attempts =
      record {
        user = user;
        identifier = take 255 identifier;
        outcome = outcome;
        detail = take 255 detail;
        created_at = now;
      }
      ∷ s.attempts;
}

abbrev pub save_user : ℕ → (User → User) → Store → Store
save_user id f s = record s {
  accounts = record s.accounts { users = update_where (is_id id) f s.accounts.users };
}

-- A row after a failed attempt: the fifth in a row locks it.
unfoldable pub failed_once : ℕ → User → User
failed_once now u =
    let n = u.failed_login_attempts + 1 in
    if leb max_failed_attempts n
    then record u { failed_login_attempts = n; locked_until = some (now + lockout_seconds) }
    else record u { failed_login_attempts = n }

-- `LoginService._register_failure`
unfoldable pub register_failure : ℕ → User → Store → Store
unfolding failed_once
register_failure now u s = save_user u.id (λ x. failed_once now u) s

-- A row after a successful check of its password.
abbrev pub cleared : User → User
cleared u = record u { failed_login_attempts = 0; locked_until = none }

module _ (iexact : Text → Text → Bool) (check_password : ℕ → User → Bool)
    (model_backend : Text → ℕ → AccountsStore → Option User) where
  abbrev pub identifies : Text → User → Bool
  identifies identifier u =
      iexact u.email identifier || iexact u.username identifier || has_phone identifier u

  -- `EmailOrPhoneBackend.user_can_authenticate`
  abbrev pub user_can_authenticate : ℕ → User → Bool
  user_can_authenticate now u = u.is_active && not (is_banned u) && not (is_locked now u)

  -- `EmailOrPhoneBackend.authenticate`; a password is never empty.
  unfoldable pub email_or_phone_backend : ℕ → Text → ℕ → AccountsStore → Option User
  email_or_phone_backend now username password s =
      let identifier = strip username in
      if is_empty identifier then none else elim (first_where (identifies identifier) s.users) [
        | none ↦ none
        | some u ↦ if check_password password u && user_can_authenticate now u then some u else none
      ]

  -- Django's `authenticate` over `AUTHENTICATION_BACKENDS`: the first backend that returns a user.
  unfoldable pub django_authenticate : ℕ → Text → ℕ → AccountsStore → Option User
  unfolding email_or_phone_backend
  django_authenticate now username password s =
      elim (email_or_phone_backend now username password s) [
        | none ↦ model_backend username password s
        | some u ↦ some u
      ]

  -- The account that a failed attempt was for.
  unfoldable pub candidate : Text → AccountsStore → Option User
  candidate identifier s = elim (first_where (λ u. iexact u.email identifier) s.users) [
    | some u ↦ some u
    | none ↦ elim (first_where (λ u. iexact u.username identifier) s.users) [
      | some u ↦ some u
      | none ↦ first_where (has_phone identifier) s.users
    ]
  ]

  -- An attempt is recorded, and refused.
  unfoldable pub refuse : ℕ → Text → Outcome → Option ℕ → ZynoraError → Action Store (User × Bool)
  unfolding record_attempt
  refuse now identifier outcome user x = do
    modify (record_attempt now identifier outcome user [])
    raise x

  -- The branch of `authenticate` for an attempt that no backend accepts.
  unfoldable pub reject : ℕ → Text → Option User → Action Store (User × Bool)
  unfolding refuse register_failure
  reject now identifier none =
      refuse now identifier Outcome.unknown_user none
        (ZynoraError.validation_error "Incorrect email or password.")
  reject now identifier (some u) =
      if is_banned u
      then refuse now identifier Outcome.banned (some u.id)
          (ZynoraError.permission_denied "This account has been suspended. Contact support.")
      else if is_locked now u
      then refuse now identifier Outcome.locked (some u.id) (
          ZynoraError.permission_denied
            "Too many failed attempts. This account is temporarily locked.")
      else (modify (register_failure now u)
          >> refuse now identifier Outcome.bad_credentials (some u.id)
              (ZynoraError.validation_error "Incorrect email or password."))

  -- The branch of `authenticate` for one that a backend accepts: the user, and whether a second factor
  -- is asked for.
  unfoldable pub accept : ℕ → Text → User → Action Store (User × Bool)
  unfolding record_attempt
  accept now identifier u = do
    modify (save_user u.id cleared)
    when u.is_mfa_enabled
        (modify (record_attempt now identifier Outcome.mfa_required (some u.id) []))
    pure (cleared u, u.is_mfa_enabled)

  -- `LoginService.authenticate`
  unfoldable pub authenticate : ℕ → Text → ℕ → Option Request → Action Store (User × Bool)
  unfolding throttle reject accept candidate django_authenticate
  authenticate now given password request = do
    let identifier = strip given
    throttle now identifier request
    user ← gets (λ s. django_authenticate now identifier password s.accounts)
    other ← gets (λ s. candidate identifier s.accounts)
    elim user [ none ↦ reject now identifier other | some u ↦ accept now identifier u ]

module _ (lower title : Text → Text) (is_in : Text → Text → Bool) where
  -- `LoginService.complete_login`, with the ids of the rows that it may add.
  unfoldable pub complete_login : ℕ → ℕ → ℕ → User → Option Request → Bool → Store → Store
  unfolding record_attempt
  complete_login now session_id device_id u request mfa_used s =
      let logged =
        record_attempt now u.email Outcome.success (some u.id)
          (if mfa_used then codes "mfa" else []) s in
      let online =
        save_user u.id (λ x. mark_online now true (touch_activity now (ip_of request) x)) logged in
      let fingerprint = text_of (λ r. r.device_fingerprint) request in
      let (device, accounts) =
        register_device lower title is_in now device_id u.id fingerprint
          (text_of (λ r. r.user_agent) request) (ip_of request) online.accounts in
      record online {
        accounts = accounts;
        sessions =
            record {
              id = session_id;
              user = u.id;
              session_key = text_of (λ r. r.session_key) request;
              device_fingerprint = fingerprint;
              expires_at = some (now + 14 * 86400);
              revoked_at = none;
            }
            ∷ online.sessions;
        events =
            AuthEvent.login_succeeded u.id
              (elim device [ none ↦ false | some d ↦ not d.is_trusted ]) mfa_used
            ∷ online.events;
      }

abbrev pub is_session : ℕ → Text → ActiveSession → Bool
is_session user key a = a.user == user && same_text a.session_key key

-- `LoginService.logout`
unfoldable pub logout : ℕ → User → Option Request → Store → Store
logout now u request s =
    let key = text_of (λ r. r.session_key) request in
    let offline = save_user u.id (mark_online now false) s in
    record offline {
      sessions =
          if is_empty key
          then s.sessions
          else update_where (is_session u.id key) (revoked now) s.sessions;
      events = AuthEvent.logout u.id ∷ s.events;
    }
