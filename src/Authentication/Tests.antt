-- ===== src/Authentication/Tests.antt =====
-- The theorems on tokens, passwords, sign-ins and second factors, at small tables.
use date_app.Common.{
  decimal_upto, ℕ, ◌+◌, ◌≤◌, ◌<◌, ◌≡◌, refl, Bool, true, false, ◌&&◌, Option, none, some, List, [],
  ◌∷◌, arith, ◌==◌, if◌then◌else◌, Text, codes, length, first_where, filter_by, exists_where, ok,
  err, ZynoraError, same_text, strip, without_spaces, zeros, all_of, tens,
}
use date_app.Accounts.Models.{
  is_locked, AccountStatus, VerificationLevel, User, is_id, default_user, Store as AccountsStore,
}
use date_app.Authentication.Models.{
  TokenPurpose, SecurityToken, MfaSecret, recovery_codes_remaining, Scope, Store,
}
use date_app.Authentication.Models.{used}
use date_app.Authentication.Tokens.{
  ttl_minutes, is_unused, is_outstanding, is_token, new_token, issue, consume,
}
use date_app.Authentication.Passwords.{is_open_session, reset}
use date_app.Authentication.SingleUse.{token_once}
use date_app.Authentication.Resets.{reset_revokes}
use date_app.Authentication.Totp.{
  CodeCheck, current_counter, counters, truncated, hotp, try_counters, verify_code,
}
use date_app.Authentication.Codes.{code_accepted}
use date_app.Authentication.Social.{base_name, is_taken, free_name}
use date_app.Authentication.Naming.{free_name_found}
use date_app.Authentication.Login.{
  same_scope, throttle, cleared, django_authenticate, candidate, authenticate,
}
use date_app.Authentication.Lockout.{failures_lock, barred_signs_in}
use date_app.Authentication.Sessions.{ban_member}
use date_app.Authentication.Revocation.{has_session, ban_ends_sessions}
use date_app.Authentication.Attempts.{Attempt, attempt, attempts, eleventh_refused}
use date_app.Authentication.Mfa.{spend_code, verify}
use date_app.Authentication.Replay.{code_once, recovery_once}

abbrev member : User
member = record (default_user 0 4) {
  email = codes "ada@example.org";
  username = codes "ada";
  status = AccountStatus.active;
  is_email_verified = true;
  verification_level = VerificationLevel.email;
  failed_login_attempts = 5;
  locked_until = some 900;
  password = 17;
  is_online = true;
}

-- A stand-in for the hash.
abbrev hash : ℕ → ℕ
hash n = n + 1000

abbrev link : SecurityToken
link = record {
  id = 1;
  user = 4;
  purpose = TokenPurpose.password_reset;
  token_hash = 1055;
  expires_at = 700;
  used_at = none;
}

abbrev table : List SecurityToken → Store
table ts = record {
  tokens = ts;
  sessions =
      record {
        id = 1;
        user = 4;
        session_key = [];
        device_fingerprint = [];
        expires_at = none;
        revoked_at = none;
      }
      ∷ [];
  attempts = [];
  mfa = [];
  social = [];
  counters = [];
  resent = [];
  events = [];
  accounts = record { users = member ∷ []; devices = []; events = [] };
}

token_once_example :
    let t = issue hash 100 2 4 TokenPurpose.password_reset 77 (table (link ∷ [])) in
    let (r, u) = consume hash 200 77 TokenPurpose.password_reset t in
    (r ≡ ok (used 200 (new_token hash 100 2 4 TokenPurpose.password_reset 77)))
    × (exists_where (is_outstanding 4 TokenPurpose.password_reset) u.tokens ≡ false)
    × (consume hash 300 77 TokenPurpose.password_reset u
        ≡ (err (ZynoraError.validation_error "That link is invalid or has already been used."), u))
unfolding exists_where ttl_minutes
token_once_example =
    token_once hash 77 TokenPurpose.password_reset 100 200 300 2 4 (table (link ∷ [])) refl
      (omega arith)

reset_revokes_example :
    let (r, w) = reset hash hash (λ p u. true) (λ p u. true) 200 55 88 (table (link ∷ [])) in
    (v : User) × (r ≡ ok v)
    × (first_where (is_id 4) w.accounts.users ≡ some v)
    × (v.password ≡ 88 + 1000)
    × (v.locked_until ≡ none)
    × (exists_where (is_open_session 4) w.sessions ≡ false)
    × (exists_where (λ x. is_token 1 x && is_unused x) w.tokens ≡ false)
unfolding first_where
reset_revokes_example =
    reset_revokes hash hash (λ p u. true) (λ p u. true) 200 55 88 (table (link ∷ [])) link member
      refl refl refl refl

-- A digest whose bytes are the counter's.
abbrev digest : Text → ℕ → List ℕ
digest t c = 0 ∷ 0 ∷ 0 ∷ c ∷ 0 ∷ []

abbrev no_other : ℕ → Bool
no_other c = false

code_accepted_example :
    (c : ℕ) × (verify_code digest no_other 1 3000
        (codes "K")
        (hotp digest no_other (codes "K") 99)
        7
      ≡ CodeCheck.matched c)
    × (7 < c)
    × (current_counter 3000 ≤ c + 1)
    × (c ≤ current_counter 3000 + 1)
    × (hotp digest no_other (codes "K") c ≡ hotp digest no_other (codes "K") 99)
code_accepted_example =
    code_accepted digest no_other (codes "K") 3000 7 99 (omega arith) (omega arith) (omega arith)

free_name_found_example :
    (n : Text) × (free_name
        (member ∷ [])
        (base_name (codes "ada@example.org"))
        (length (member ∷ []) + 1)
        1
        (base_name (codes "ada@example.org"))
      ≡ some n)
    × (is_taken (member ∷ []) n ≡ false)
free_name_found_example = free_name_found (member ∷ []) (codes "ada@example.org") (omega arith)

ban_ends_sessions_example :
    let (r, t) = ban_member 100 4 (codes "spam") false (table []) in
    (v : User) × (r ≡ ok v)
    × (first_where (is_id 4) t.accounts.users ≡ some v)
    × (v.status ≡ AccountStatus.suspended)
    × (v.is_online ≡ false)
    × (exists_where (has_session 200 4) t.sessions ≡ false)
    × (filter_by (has_session 200 5) t.sessions ≡ filter_by (has_session 200 5) (table []).sessions)
unfolding first_where
ban_ends_sessions_example =
    ban_ends_sessions 100 200 4 5 (codes "spam") false (table []) member refl refl

-- Django's ModelBackend: an active account with the address and the password.
abbrev knows : ℕ → User → Bool
knows p u = p == u.password

abbrev model_backend : Text → ℕ → AccountsStore → Option User
model_backend name p s = elim (first_where (λ x. same_text x.email name) s.users) [
  | none ↦ none
  | some u ↦ if knows p u && u.is_active then some u else none
]

documented :
    (s : AccountsStore) (u : User)
    → first_where (λ x. same_text x.email (codes "ada@example.org")) s.users ≡ some u
    → knows 17 u ≡ true
    → u.is_active ≡ true
    → model_backend (codes "ada@example.org") 17 s ≡ some u
documented s u e k a = ground (arith, e, k, a)

-- The table once a sign-in has been counted.
abbrev counted_once : Store
counted_once = record (table []) {
  counters =
      record { scope = Scope.by_ip none; value = 1; expires_at = 400 }
      ∷ record {
        scope = Scope.by_identifier (codes "ada@example.org");
        value = 1;
        expires_at = 400;
      }
      ∷ [];
}

-- The member's account is locked until 900.
barred_signs_in_example :
    let (r, w) =
      authenticate same_text knows model_backend 100 (codes "ada@example.org") 17 none (table []) in
    (r ≡ ok (cleared member, false))
    × (first_where (is_id 4) w.accounts.users ≡ some (cleared member))
unfolding throttle same_scope strip same_text first_where
barred_signs_in_example =
    barred_signs_in same_text knows model_backend (codes "ada@example.org") 17 none 100 (table [])
      counted_once member documented refl refl refl refl refl refl refl

-- The same member before the failures that locked the account.
abbrev open_member : User
open_member = record member { failed_login_attempts = 4; locked_until = none }

abbrev open_table : Store
open_table = record (table []) {
  accounts = record { users = open_member ∷ []; devices = []; events = [] };
}

failures_lock_example :
    let (r, w) =
      authenticate same_text knows model_backend 100 (codes "ada@example.org") 99 none open_table in
    (v : User) × (r ≡ err (ZynoraError.validation_error "Incorrect email or password."))
    × (first_where (is_id 4) w.accounts.users ≡ some v)
    × (v.failed_login_attempts ≡ 5)
    × (is_locked 200 v ≡ true)
unfolding throttle same_scope strip same_text first_where django_authenticate candidate
failures_lock_example =
    failures_lock same_text knows model_backend (codes "ada@example.org") 99 none 100 200 open_table
      (record counted_once { accounts = open_table.accounts }) open_member refl refl refl refl refl
      refl (omega arith)

abbrev try_at : ℕ → Attempt
try_at n = record { at = n; password = n; request = none }

abbrev nine : List Attempt
nine =
    try_at 101
    ∷ try_at 102
    ∷ try_at 103
    ∷ try_at 104
    ∷ try_at 105
    ∷ try_at 106
    ∷ try_at 107
    ∷ try_at 108
    ∷ try_at 109
    ∷ []

eleventh_refused_example :
    let t =
      attempts same_text knows model_backend
        (codes "ada@example.org")
        (try_at 100 ∷ nine)
        (table []) in
    let (r, u) = attempt same_text knows model_backend (codes "ada@example.org") (try_at 17) t in
    (r ≡ err (ZynoraError.rate_limited "Too many sign-in attempts. Try again in a few minutes."))
    × (u.accounts ≡ t.accounts)
unfolding first_where
eleventh_refused_example =
    eleventh_refused same_text knows model_backend (codes "ada@example.org") (try_at 100)
      (try_at 17) nine (table []) refl
      (
        omega arith,
        (
          omega arith,
          (
            omega arith,
            (
              omega arith,
              (omega arith, (omega arith, (omega arith, (omega arith, (omega arith, tt))))),
            ),
          ),
        ),
      )
      (omega arith) (omega arith)

abbrev authenticator : MfaSecret
authenticator = record {
  user = 4;
  secret = codes "K";
  is_confirmed = true;
  confirmed_at = some 1;
  recovery_codes = record { code_hash = 3; used = false } ∷ [];
  last_used_counter = 7;
}

abbrev mfa_table : Store
mfa_table = record (table []) { mfa = authenticator ∷ [] }

abbrev same : Text → Text
same t = t

code_once_example :
    let (r, t) = verify digest no_other length same knows 3000 member (codes "000101") mfa_table in
    (r ≡ ok true)
    × (7 < 101)
    × (hotp digest no_other (codes "K") 101 ≡ codes "000101")
    × (verify digest no_other length same knows 3010 member (codes "000101") t
        ≡ (err (ZynoraError.validation_error "That code is not valid."), t))
unfolding first_where verify_code try_counters counters hotp truncated spend_code strip
    without_spaces zeros all_of same_text tens decimal_upto
code_once_example =
    code_once digest no_other length same knows member (codes "000101") 3000 3010 mfa_table
      authenticator 101 refl refl (λ d l m. absurd (omega arith)) refl

recovery_once_example :
    let (r, t) = verify digest no_other length same knows 3000 member (codes "abc") mfa_table in
    (n : MfaSecret) × (r ≡ ok true)
    × (first_where (λ m. m.user == 4 && m.is_confirmed) t.mfa ≡ some n)
    × (recovery_codes_remaining authenticator ≡ recovery_codes_remaining n + 1)
    × (n.last_used_counter ≡ 7)
    × (verify digest no_other length same knows 3010 member (codes "abc") t
        ≡ (err (ZynoraError.validation_error "That code is not valid."), t))
unfolding first_where spend_code strip without_spaces all_of exists_where
recovery_once_example =
    recovery_once digest no_other length same knows member (codes "abc") 3000 3010 mfa_table
      authenticator (record { code_hash = 3; used = true } ∷ []) refl refl refl (refl, tt)
