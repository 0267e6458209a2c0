-- ===== src/Accounts/Tests.antt =====
-- The theorems on accounts, at small tables.
use date_app.Common.{
  ◌+◌, ◌≡◌, refl, true, false, none, some, [], ◌∷◌, arith, Text, codes, first_where, exists_where,
  Distinct, same_text,
}
use date_app.Accounts.Models.{AccountStatus, VerificationLevel, User, default_user, Device, Store}
use date_app.Accounts.Lifecycle.{
  activate, reactivate, ban, request_deletion, flag_email_verified, account_exists,
  is_active_member, purge_pending_deletions,
}
use date_app.Accounts.Standing.{flag_email_verified_unbars}
use date_app.Accounts.Deletion.{reactivated_is_purged}
use date_app.Accounts.Registration.{Signup, create_account}
use date_app.Accounts.Uniqueness.{same_email, create_account-Distinct}
use date_app.Accounts.Devices.{is_fingerprint, register}
use date_app.Accounts.Directory.{
  includes, list_dateable_ids, list_online_ids, list_recently_joined_ids, search_ids,
}
use date_app.Accounts.Visibility.{ban_unlists}
use date_app.Accounts.DeviceTrust.{same_device, register_trusts}

abbrev member : User
member = record (default_user 0 4) {
  email = codes "ada@example.org";
  username = codes "ada";
  status = AccountStatus.active;
  is_email_verified = true;
  verification_level = VerificationLevel.email;
  password = 17;
  is_online = true;
  has_completed_onboarding = true;
}

abbrev table : Store
table = record { users = member ∷ []; devices = []; events = [] }

flag_email_verified_unbars_example :
    is_active_member 4 (flag_email_verified 4 (ban 4 (codes "spam") true table).1).1 ≡ true
unfolding first_where
flag_email_verified_unbars_example =
    flag_email_verified_unbars 4 (codes "spam") true table member refl

reactivated_is_purged_example :
    let t = (request_deletion 100 4 table).1 in
    (account_exists 4 (purge_pending_deletions 3000000 (reactivate 4 t).1).1 ≡ false)
    × (account_exists 4 (purge_pending_deletions 3000000 (activate 4 t).1).1 ≡ false)
unfolding first_where
reactivated_is_purged_example = reactivated_is_purged 100 3000000 4 member table refl (omega arith)

-- Stand-ins for the text functions of the language and of the database.
abbrev same : Text → Text
same t = t

abbrev newcomer : Signup
newcomer = record {
  email = codes "bob@example.org";
  username = codes "bob";
  password = 3;
  first_name = codes "Bob";
  date_of_birth = none;
  phone = none;
  accepted_terms = true;
  marketing_opt_in = false;
}

create_account-Distinct_example :
    Distinct
      (same_email same same_text same (λ n. n + 1000) (λ u. none))
      (create_account same same_text same (λ n. n + 1000) (λ u. none) 100 5 newcomer table).1.users
unfolding exists_where
create_account-Distinct_example =
    create_account-Distinct same same_text same (λ n. n + 1000) (λ u. none) (λ t u. refl)
      (λ t u. refl) 100 5 newcomer table (refl, tt)

ban_unlists_example :
    let t = (ban 4 (codes "spam") true table).1 in
    (includes 4 (list_dateable_ids [] 20 t) ≡ false)
    × (includes 4 (list_online_ids [] 20 t) ≡ false)
    × (includes 4 (list_recently_joined_ids 100 [] 20 7 t) ≡ false)
    × (includes 4 (search_ids same_text (codes "ada") [] 20 t) ≡ false)
unfolding first_where
ban_unlists_example =
    ban_unlists same_text (codes "ada") 100 7 4 (codes "spam") true table member [] 20 refl

register_trusts_example :
    let (r, t) =
      register same same (λ a b. false) 100 7 4 (codes "f1") (codes "Firefox") none table in
    (d : Device) × (r ≡ some d)
    × (first_where (is_fingerprint 4 (codes "f1")) t.devices ≡ some d)
    × (d.revoked_at ≡ none)
    × (d.is_trusted ≡ true)
    × Distinct same_device t.devices
unfolding first_where exists_where
register_trusts_example =
    register_trusts same same (λ a b. false) 100 7 4 (codes "f1") (codes "Firefox") none table refl
      tt
