-- ===== src/Accounts/Models.antt =====
-- The users and devices of apps/accounts/models.py and the events that the service publishes. Times are seconds of the epoch.
use date_app.Common.{
  ℕ, Bool, true, false, not, ◌&&◌, ◌||◌, Option, none, some, List, [], ◌∷◌, ◌++◌, ltb, leb, ◌==◌,
  if◌then◌else◌, Text, is_empty, strip, Date, calculate_age,
}
use mathlib.Core.Option

pub data AccountStatus : Type 0 where
  pending active suspended banned deactivated : AccountStatus

pub data UserRole : Type 0 where
  member moderator support analyst admin : UserRole

-- `VerificationLevel`, in the order of its values.
pub data VerificationLevel : Type 0 where
  unverified email phone photo identity : VerificationLevel

pub record User : Type 0 where
  pub id : ℕ
  pub email : Text
  pub username : Text
  pub phone : Option Text
  pub first_name : Text
  pub last_name : Text
  pub date_of_birth : Option Date
  pub role : UserRole
  pub status : AccountStatus
  pub is_active : Bool
  pub is_email_verified : Bool
  pub is_phone_verified : Bool
  pub is_photo_verified : Bool
  pub is_identity_verified : Bool
  pub verification_level : VerificationLevel
  pub is_mfa_enabled : Bool
  pub failed_login_attempts : ℕ
  pub locked_until : Option ℕ
  pub password : ℕ
  pub password_changed_at : Option ℕ
  pub must_change_password : Bool
  pub has_completed_onboarding : Bool
  pub onboarding_step : ℕ
  pub last_active_at : Option ℕ
  pub last_login_ip : Option ℕ
  pub is_online : Bool
  pub deactivated_at : Option ℕ
  pub deletion_requested_at : Option ℕ
  pub avatar_url : Text
  pub is_staff : Bool
  pub is_superuser : Bool
  pub date_joined : ℕ
  pub accepted_terms_at : Option ℕ
  pub marketing_opt_in : Bool

-- A row with the defaults of the model's fields.
abbrev pub default_user : ℕ → ℕ → User
default_user now id = record {
  id = id;
  email = [];
  username = [];
  phone = none;
  first_name = [];
  last_name = [];
  date_of_birth = none;
  role = UserRole.member;
  status = AccountStatus.pending;
  is_active = true;
  is_email_verified = false;
  is_phone_verified = false;
  is_photo_verified = false;
  is_identity_verified = false;
  verification_level = VerificationLevel.unverified;
  is_mfa_enabled = false;
  failed_login_attempts = 0;
  locked_until = none;
  password = 0;
  password_changed_at = none;
  must_change_password = false;
  has_completed_onboarding = false;
  onboarding_step = 1;
  last_active_at = none;
  last_login_ip = none;
  is_online = false;
  deactivated_at = none;
  deletion_requested_at = none;
  avatar_url = [];
  is_staff = false;
  is_superuser = false;
  date_joined = now;
  accepted_terms_at = none;
  marketing_opt_in = false;
}

-- `Device.Platform`
pub data Platform : Type 0 where
  web android ios unknown : Platform

pub record Device : Type 0 where
  pub id : ℕ
  pub user : ℕ
  pub fingerprint : Text
  pub name : Text
  pub platform : Platform
  pub user_agent : Text
  pub ip_address : Option ℕ
  pub push_token : Text
  pub is_trusted : Bool
  pub last_seen_at : ℕ
  pub revoked_at : Option ℕ

-- `Device.revoke`
abbrev pub revoked_device : ℕ → Device → Device
revoked_device now d = record d { revoked_at = some now; is_trusted = false }

-- `Device.touch`
abbrev pub touched_device : ℕ → Option ℕ → Device → Device
touched_device now none d = record d { last_seen_at = now }
touched_device now (some ip) d = record d { last_seen_at = now; ip_address = some ip }

pub data AccountEvent : Type 0 where
  user_activated : ℕ → AccountEvent
  user_deactivated : ℕ → Text → AccountEvent
  user_banned : ℕ → Text → Bool → AccountEvent
  user_deleted : ℕ → Bool → AccountEvent
  user_registered : ℕ → Text → Text → AccountEvent
  role_changed : ℕ → UserRole → UserRole → AccountEvent

pub record Store : Type 0 where
  pub users : List User
  pub devices : List Device
  pub events : List AccountEvent

abbrev pub is_id : ℕ → User → Bool
is_id id u = u.id == id

abbrev pub same_status : AccountStatus → AccountStatus → Bool
same_status AccountStatus.pending s = elim s [ AccountStatus.pending ↦ true | _ ↦ false ]
same_status AccountStatus.active s = elim s [ AccountStatus.active ↦ true | _ ↦ false ]
same_status AccountStatus.suspended s = elim s [ AccountStatus.suspended ↦ true | _ ↦ false ]
same_status AccountStatus.banned s = elim s [ AccountStatus.banned ↦ true | _ ↦ false ]
same_status AccountStatus.deactivated s = elim s [ AccountStatus.deactivated ↦ true | _ ↦ false ]

-- `User.display_name` and `User.full_name`
abbrev pub display_name : User → Text
display_name u = if is_empty u.first_name then u.username else u.first_name

abbrev pub full_name : User → Text
full_name u =
    let name = strip (u.first_name ++ 32 ∷ u.last_name) in
    if is_empty name then u.username else name

-- `User.age`
abbrev pub age : Date → User → Option ℕ
age today u = Option.map (calculate_age today) u.date_of_birth

-- `User.is_banned`
abbrev pub is_banned : User → Bool
is_banned u =
    same_status AccountStatus.banned u.status || same_status AccountStatus.suspended u.status

-- `User.is_locked`
abbrev pub is_locked : ℕ → User → Bool
is_locked now u = elim u.locked_until [ none ↦ false | some t ↦ ltb now t ]

-- `User.can_use_platform`
abbrev pub can_use_platform : ℕ → User → Bool
can_use_platform now u =
    u.is_active && same_status AccountStatus.active u.status && not (is_locked now u)

-- The level that `User.recompute_verification_level` stores: the last badge that is set.
unfoldable pub level_of : User → VerificationLevel
level_of u =
    if u.is_identity_verified
    then VerificationLevel.identity
    else if u.is_photo_verified
    then VerificationLevel.photo
    else if u.is_phone_verified
    then VerificationLevel.phone
    else if u.is_email_verified
    then VerificationLevel.email
    else VerificationLevel.unverified

abbrev pub rank : VerificationLevel → ℕ
rank VerificationLevel.unverified = 0
rank VerificationLevel.email = 1
rank VerificationLevel.phone = 2
rank VerificationLevel.photo = 3
rank VerificationLevel.identity = 4

-- `User.is_verified`
abbrev pub is_verified : User → Bool
is_verified u = leb 3 (rank u.verification_level)

-- `User.touch_activity` and `User.mark_online`
abbrev pub touch_activity : ℕ → Option ℕ → User → User
touch_activity now none u = record u { last_active_at = some now }
touch_activity now (some ip) u = record u { last_active_at = some now; last_login_ip = some ip }

abbrev pub mark_online : ℕ → Bool → User → User
mark_online now online u = record u { is_online = online; last_active_at = some now }
