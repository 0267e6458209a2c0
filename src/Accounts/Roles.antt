-- ===== src/Accounts/Roles.antt =====
-- The capabilities of a role: apps/accounts/roles.py, Capability of apps/common/constants.py, and the
-- calls on roles of apps/accounts/interface.py.
use date_app.Common.{
  ℕ, String, Bool, true, false, Option, none, some, List, [], ◌∷◌, ◌==◌, if◌then◌else◌, Text, codes,
  first_where, filter_by, exists_where, update_where,
}
use date_app.Accounts.Models.{UserRole, User, AccountEvent, Store, is_id}

pub data Capability : Type 0 where
  moderate_content review_reports review_verification shadow_ban suspend_users : Capability
  handle_support view_member_detail : Capability
  view_analytics view_security_ops view_audit_trail : Capability
  manage_users manage_plans issue_refunds access_django_admin : Capability

-- A capability's position in the vocabulary.
abbrev pub index_of : Capability → ℕ
index_of Capability.moderate_content = 0
index_of Capability.review_reports = 1
index_of Capability.review_verification = 2
index_of Capability.shadow_ban = 3
index_of Capability.suspend_users = 4
index_of Capability.handle_support = 5
index_of Capability.view_member_detail = 6
index_of Capability.view_analytics = 7
index_of Capability.view_security_ops = 8
index_of Capability.view_audit_trail = 9
index_of Capability.manage_users = 10
index_of Capability.manage_plans = 11
index_of Capability.issue_refunds = 12
index_of Capability.access_django_admin = 13

abbrev pub same_capability : Capability → Capability → Bool
same_capability a b = index_of a == index_of b

-- `ROLE_CAPABILITIES`
unfoldable pub role_capabilities : UserRole → List Capability
role_capabilities UserRole.member = []
role_capabilities UserRole.support =
    Capability.handle_support ∷ Capability.view_member_detail ∷ Capability.review_reports ∷ []
role_capabilities UserRole.analyst = Capability.view_analytics ∷ []
role_capabilities UserRole.moderator =
    Capability.moderate_content ∷ Capability.review_reports ∷ Capability.review_verification
    ∷ Capability.shadow_ban ∷ Capability.suspend_users ∷ Capability.view_member_detail
    ∷ Capability.handle_support ∷ []
role_capabilities UserRole.admin =
    Capability.moderate_content ∷ Capability.review_reports ∷ Capability.review_verification
    ∷ Capability.shadow_ban ∷ Capability.suspend_users ∷ Capability.handle_support
    ∷ Capability.view_member_detail ∷ Capability.view_analytics ∷ Capability.view_security_ops
    ∷ Capability.view_audit_trail ∷ Capability.manage_users ∷ Capability.manage_plans
    ∷ Capability.issue_refunds ∷ Capability.access_django_admin ∷ []

abbrev pub includes : Capability → List Capability → Bool
includes c cs = exists_where (same_capability c) cs

-- `capability in capabilities_for(role, is_superuser=...)`
unfoldable pub role_has : UserRole → Bool → Capability → Bool
unfolding role_capabilities
role_has role true c = true
role_has role false c = includes c (role_capabilities role)

-- `is_staff_role`, with `STAFF_ROLES`
abbrev pub is_staff_role : UserRole → Bool → Bool
is_staff_role role true = true
is_staff_role role false = elim role [ UserRole.member ↦ false | _ ↦ true ]

-- `STAFF_NAVIGATION`: the screens with the capability that guards each.
pub record NavigationEntry : Type 0 where
  pub url_name : Text
  pub label : Text
  pub icon : Text
  pub capability : Capability

abbrev entry : String → String → String → Capability → NavigationEntry
entry u l i c = record { url_name = codes u; label = codes l; icon = codes i; capability = c }

unfoldable pub staff_navigation : List NavigationEntry
staff_navigation =
    entry "moderation:queue" "Moderation" "shield-check" Capability.moderate_content
    ∷ entry "reports:queue" "Reports" "flag-fill" Capability.review_reports
    ∷ entry "verification:queue" "Verifications" "patch-check-fill" Capability.review_verification
    ∷ entry "analytics:dashboard" "Analytics" "bar-chart-line-fill" Capability.view_analytics
    ∷ entry "security:dashboard" "Security ops" "compass-fill" Capability.view_security_ops
    ∷ entry "audit:trail" "Audit trail" "journal-text" Capability.view_audit_trail
    ∷ []

-- `AccountsInterface.has_capability`
unfoldable pub has_capability : ℕ → Capability → Store → Bool
unfolding role_has
has_capability user c s = elim (first_where (is_id user) s.users) [
  | none ↦ false
  | some u ↦ role_has u.role u.is_superuser c
]

-- `AccountsInterface.is_staff_member`
unfoldable pub is_staff_member : ℕ → Store → Bool
is_staff_member user s = elim (first_where (is_id user) s.users) [
  | none ↦ false
  | some u ↦ is_staff_role u.role u.is_superuser
]

abbrev pub with_role : UserRole → User → User
with_role role u = record u {
  role = role;
  is_staff = role_has role false Capability.access_django_admin;
}

-- `AccountsInterface.set_role`; a role that is not in the table is no `UserRole`.
unfoldable pub set_role : ℕ → UserRole → Store → Option User × Store
unfolding role_has
set_role user role s = elim (first_where (is_id user) s.users) [
  | none ↦ (none, s)
  | some u ↦ (
    some (with_role role u),
    record s {
      users = update_where (is_id user) (with_role role) s.users;
      events = AccountEvent.role_changed user u.role role ∷ s.events;
    },
  )
]

-- `AccountsInterface.get_staff_navigation`
unfoldable pub get_staff_navigation : ℕ → Store → List NavigationEntry
unfolding role_has staff_navigation
get_staff_navigation user s = elim (first_where (is_id user) s.users) [
  | none ↦ []
  | some u ↦
      if is_staff_role u.role u.is_superuser
      then filter_by (λ n. role_has u.role u.is_superuser n.capability) staff_navigation
      else []
]
