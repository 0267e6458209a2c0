-- ===== src/Accounts/Directory.antt =====
-- Who is shown to whom: the query sets of apps/accounts/managers.py and the reads of
-- apps/accounts/interface.py, with the writes on presence, onboarding and the avatar there and in
-- apps/accounts/signals.py and tasks.py. A search of a text in another, without case, is a parameter.
use date_app.Common.{
  ℕ, ◌+◌, ◌*◌, Bool, true, false, not, ◌&&◌, ◌||◌, Option, none, some, List, [], ◌∷◌, map, ltb, leb,
  ◌==◌, if◌then◌else◌, get_or, Text, length, take, first_where, filter_by, exists_where,
  update_where, Action, pure, ◌>>◌, strip, Date,
}
use date_app.Accounts.Models.{
  display_name, age, is_verified, AccountStatus, User, Store, is_id, same_status, mark_online,
}
use date_app.Accounts.Lifecycle.{Flag, set_verification_flag}

-- `UserRef`
pub record UserRef : Type 0 where
  pub id : ℕ
  pub username : Text
  pub display_name : Text
  pub avatar_url : Text
  pub age : Option ℕ
  pub is_verified : Bool
  pub is_online : Bool

-- `AccountsInterface._to_ref`
abbrev pub to_ref : Date → User → UserRef
to_ref today u = record {
  id = u.id;
  username = u.username;
  display_name = display_name u;
  avatar_url = u.avatar_url;
  age = age today u;
  is_verified = is_verified u;
  is_online = u.is_online;
}

-- `AccountsInterface.get_user_ref`
unfoldable pub get_user_ref : Date → ℕ → Store → Option UserRef
get_user_ref today id s = elim (first_where (is_id id) s.users) [
  | none ↦ none
  | some u ↦ some (to_ref today u)
]

-- `active`, `dateable` and `searchable` of UserQuerySet
abbrev pub is_member : User → Bool
is_member u = u.is_active && same_status AccountStatus.active u.status

abbrev pub is_dateable : User → Bool
is_dateable u = is_member u && u.has_completed_onboarding && u.is_email_verified

abbrev pub is_searchable : User → Bool
is_searchable u = is_member u && u.has_completed_onboarding

-- `x in xs`
unfoldable pub includes : ℕ → List ℕ → Bool
includes x [] = false
includes x (y ∷ ys) = x == y || includes x ys

abbrev pub ids_of : List User → List ℕ
ids_of us = map (λ (u : User). u.id) us

-- The ids of the rows that pass a test and are not excluded.
unfoldable pub listed : (User → Bool) → List ℕ → ℕ → List User → List ℕ
unfolding includes
listed p excluded limit us =
    take limit (ids_of (filter_by (λ u. p u && not (includes u.id excluded)) us))

-- `AccountsInterface.list_dateable_ids`
unfoldable pub list_dateable_ids : List ℕ → ℕ → Store → List ℕ
unfolding listed
list_dateable_ids excluded limit s = listed is_dateable excluded limit s.users

-- `AccountsInterface.list_online_ids`
unfoldable pub list_online_ids : List ℕ → ℕ → Store → List ℕ
unfolding listed
list_online_ids excluded limit s = listed (λ u. is_dateable u && u.is_online) excluded limit s.users

-- `AccountsInterface.list_recently_joined_ids`: the table is kept in the order of the join dates, the
-- latest first.
unfoldable pub list_recently_joined_ids : ℕ → List ℕ → ℕ → ℕ → Store → List ℕ
unfolding listed
list_recently_joined_ids now excluded limit days s =
    listed (λ u. is_dateable u && leb now (u.date_joined + days * 86400)) excluded limit s.users

-- `AccountsInterface.search_ids`
unfoldable pub search_ids : (Text → Text → Bool) → Text → List ℕ → ℕ → Store → List ℕ
unfolding listed
search_ids icontains text excluded limit s =
    let query = strip text in
    let named = λ (u : User).
      icontains u.first_name query || icontains u.last_name query || icontains u.username query in
    if ltb (length query) 2
    then []
    else listed (λ u. is_searchable u && named u) excluded limit s.users

-- `AccountsInterface.set_online`
unfoldable pub set_online : ℕ → ℕ → Bool → Store → Bool × Store
set_online now id online s = (
  exists_where (is_id id) s.users,
  record s { users = update_where (is_id id) (mark_online now online) s.users },
)

-- `AccountsInterface.set_onboarding_step` and `AccountsInterface.mark_onboarding_complete`
unfoldable pub set_onboarding_step : ℕ → ℕ → Store → Store
set_onboarding_step id step s = record s {
  users = update_where (is_id id) (λ u. record u { onboarding_step = step }) s.users;
}

unfoldable pub mark_onboarding_complete : ℕ → Option ℕ → Store → Store
mark_onboarding_complete id step s = record s {
  users =
      update_where (is_id id)
        (λ u. record u {
          has_completed_onboarding = true;
          onboarding_step = get_or step u.onboarding_step;
        })
        s.users;
}

-- `AccountService.update_avatar_projection`, which the handler `project_avatar` calls.
unfoldable pub update_avatar_projection : ℕ → Text → Store → Store
update_avatar_projection id url s = record s {
  users = update_where (is_id id) (λ u. record u { avatar_url = url }) s.users;
}

-- The kinds of `flag_verification`, by the flag that each sets; any other kind sets none.
pub data BadgeKind : Type 0 where
  phone photo selfie identity government_id other : BadgeKind

abbrev pub flag_of : BadgeKind → Option Flag
flag_of BadgeKind.phone = some Flag.phone
flag_of BadgeKind.photo = some Flag.photo
flag_of BadgeKind.selfie = some Flag.photo
flag_of BadgeKind.identity = some Flag.identity
flag_of BadgeKind.government_id = some Flag.identity
flag_of BadgeKind.other = none

-- The handler `flag_verification`.
unfoldable pub flag_verification : ℕ → BadgeKind → Action Store (Unit {0})
unfolding set_verification_flag
flag_verification id kind = elim (flag_of kind) [
  | none ↦ pure tt
  | some flag ↦ do set_verification_flag id flag true; pure tt
]

-- The handler `close_onboarding`.
unfoldable pub close_onboarding : ℕ → Store → Store
close_onboarding id s = record s {
  users = update_where (is_id id) (λ u. record u { has_completed_onboarding = true }) s.users;
}

-- The job `unlock_expired_lockouts`.
abbrev pub is_lock_over : ℕ → User → Bool
is_lock_over now u = elim u.locked_until [ none ↦ false | some t ↦ ltb t now ]

unfoldable pub unlock_expired_lockouts : ℕ → Store → Store
unlock_expired_lockouts now s = record s {
  users =
      update_where (is_lock_over now)
        (λ u. record u { locked_until = none; failed_login_attempts = 0 }) s.users;
}

-- The job `reactivate_returning_user`.
unfoldable pub reactivate_returning_user : ℕ → Store → Store
reactivate_returning_user id s = record s {
  users =
      update_where (λ u. is_id id u && same_status AccountStatus.deactivated u.status)
        (λ u. record u {
          status = AccountStatus.active;
          deactivated_at = none;
          deletion_requested_at = none;
        })
        s.users;
}
