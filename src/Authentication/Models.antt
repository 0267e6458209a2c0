-- ===== src/Authentication/Models.antt =====
-- The tokens and sessions of apps/authentication/models.py, with the accounts that they belong to.
use date_app.Common.{
  ℕ, Bool, true, false, not, ◌&&◌, Option, none, some, List, ltb, leb, is_some, Text, count_where,
}
use date_app.Accounts.Models.{Store as AccountsStore}

pub data TokenPurpose : Type 0 where
  email_verification password_reset email_change phone_otp : TokenPurpose
  mfa_challenge device_confirmation : TokenPurpose

abbrev pub same_purpose : TokenPurpose → TokenPurpose → Bool
same_purpose TokenPurpose.email_verification q = elim q [
  | TokenPurpose.email_verification ↦ true
  | _ ↦ false
]
same_purpose TokenPurpose.password_reset q = elim q [
  | TokenPurpose.password_reset ↦ true
  | _ ↦ false
]
same_purpose TokenPurpose.email_change q = elim q [ TokenPurpose.email_change ↦ true | _ ↦ false ]
same_purpose TokenPurpose.phone_otp q = elim q [ TokenPurpose.phone_otp ↦ true | _ ↦ false ]
same_purpose TokenPurpose.mfa_challenge q = elim q [ TokenPurpose.mfa_challenge ↦ true | _ ↦ false ]
same_purpose TokenPurpose.device_confirmation q = elim q [
  | TokenPurpose.device_confirmation ↦ true
  | _ ↦ false
]

-- A token is stored by its hash. Its `attempts`, which no service counts or asks about, and
-- its `payload` are left out.
pub record SecurityToken : Type 0 where
  pub id : ℕ
  pub user : ℕ
  pub purpose : TokenPurpose
  pub token_hash : ℕ
  pub expires_at : ℕ
  pub used_at : Option ℕ

-- `SecurityToken.is_expired`
abbrev pub is_expired : ℕ → SecurityToken → Bool
is_expired now t = leb t.expires_at now

-- `SecurityToken.consume`
abbrev pub used : ℕ → SecurityToken → SecurityToken
used now t = record t { used_at = some now }

pub record ActiveSession : Type 0 where
  pub id : ℕ
  pub user : ℕ
  pub session_key : Text
  pub device_fingerprint : Text
  pub expires_at : Option ℕ
  pub revoked_at : Option ℕ

-- `ActiveSession.is_active`
abbrev pub is_active_session : ℕ → ActiveSession → Bool
is_active_session now a =
    not (is_some a.revoked_at) && elim a.expires_at [ none ↦ true | some t ↦ ltb now t ]

-- `ActiveSession.revoke`
abbrev pub revoked : ℕ → ActiveSession → ActiveSession
revoked now a = record a { revoked_at = some now }

-- `LoginAttempt.Outcome`
pub data Outcome : Type 0 where
  success bad_credentials unknown_user locked banned : Outcome
  mfa_required mfa_failed rate_limited : Outcome

pub record LoginAttempt : Type 0 where
  pub user : Option ℕ
  pub identifier : Text
  pub outcome : Outcome
  pub detail : Text
  pub created_at : ℕ

-- A recovery code is stored by its hash.
pub record RecoveryCode : Type 0 where
  pub code_hash : ℕ
  pub used : Bool

pub record MfaSecret : Type 0 where
  pub user : ℕ
  pub secret : Text
  pub is_confirmed : Bool
  pub confirmed_at : Option ℕ
  pub recovery_codes : List RecoveryCode
  pub last_used_counter : ℕ

-- `MFASecret.recovery_codes_remaining`
abbrev pub recovery_codes_remaining : MfaSecret → ℕ
recovery_codes_remaining m = count_where (λ c. not c.used) m.recovery_codes

-- `SocialAccount.Provider`
pub data SocialProvider : Type 0 where
  google facebook apple x : SocialProvider

abbrev pub same_provider : SocialProvider → SocialProvider → Bool
same_provider SocialProvider.google q = elim q [ SocialProvider.google ↦ true | _ ↦ false ]
same_provider SocialProvider.facebook q = elim q [ SocialProvider.facebook ↦ true | _ ↦ false ]
same_provider SocialProvider.apple q = elim q [ SocialProvider.apple ↦ true | _ ↦ false ]
same_provider SocialProvider.x q = elim q [ SocialProvider.x ↦ true | _ ↦ false ]

pub record SocialAccount : Type 0 where
  pub user : ℕ
  pub provider : SocialProvider
  pub provider_uid : Text
  pub email : Text

-- The scopes that sign-ins are counted by: an identifier, or an address, if it is known.
pub data Scope : Type 0 where
  by_identifier : Text → Scope
  by_ip : Option ℕ → Scope

-- A counter of `CacheService.incr`: its scope, its value and when it leaves the cache.
pub record Counter : Type 0 where
  pub scope : Scope
  pub value : ℕ
  pub expires_at : ℕ

-- An entry of the cache that `resend_verification` sets.
pub record Resent : Type 0 where
  pub user : ℕ
  pub expires_at : ℕ

pub data AuthEvent : Type 0 where
  email_verified password_changed password_reset_requested : ℕ → AuthEvent
  login_succeeded : ℕ → Bool → Bool → AuthEvent
  logout mfa_enabled mfa_disabled : ℕ → AuthEvent

pub record Store : Type 0 where
  pub tokens : List SecurityToken
  pub sessions : List ActiveSession
  pub attempts : List LoginAttempt
  pub mfa : List MfaSecret
  pub social : List SocialAccount
  pub counters : List Counter
  -- The members for whom `resend_verification` is throttled, until when.
  pub resent : List Resent
  pub events : List AuthEvent
  pub accounts : AccountsStore
