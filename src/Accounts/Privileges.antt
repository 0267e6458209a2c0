-- ===== src/Accounts/Privileges.antt =====
-- Who holds which capability: apps/accounts/roles.py and the calls on roles of
-- apps/accounts/interface.py.
use date_app.Common.{
  ℕ, ◌≡◌, refl, sym, ap, ◌∙◌, inl, inr, Bool, true, false, not, Option, none, some, List, [], ◌∷◌,
  Bool-cases, is_empty, first_where, filter_by, exists_where, All, first-update_self,
}
use mathlib.Core.Option
use date_app.Accounts.Models.{UserRole, User, Store, is_id}
use date_app.Accounts.Roles.{
  Capability, role_capabilities, role_has, is_staff_role, NavigationEntry, staff_navigation,
  has_capability, with_role, set_role, get_staff_navigation,
}

module _ (user : ℕ) (s : Store) (u : User) (e : first_where (is_id user) s.users ≡ some u) where
  has_capability_found :
      (c : Capability) → has_capability user c s ≡ role_has u.role u.is_superuser c
  unfolding has_capability
  has_capability_found c = rw (e, has_capability) refl

  module _ (role : UserRole) where
    set_role_found : (set_role user role s).0 ≡ some (with_role role u)
    unfolding set_role
    set_role_found = rw (e, set_role) refl

    found_after : first_where (is_id user) (set_role user role s).1.users ≡ some (with_role role u)
    unfolding set_role
    found_after =
        rw (e, set_role) (first-update_self (is_id user) (with_role role) s.users u (λ x. refl) e)

-- An account that is given a role holds exactly the capabilities of the table for that role from then
-- on, or all of them if it is a superuser's, and the flag for Django's admin is set exactly when the
-- role may open the admin.
set_role_grants :
    (user : ℕ) (role : UserRole) (s : Store) (u : User)
    → first_where (is_id user) s.users ≡ some u
    → let (r, t) = set_role user role s in
      ((c : Capability) → has_capability user c t ≡ role_has role u.is_superuser c)
      × (first_where (is_id user) t.users ≡ r)
      × (Option.map (λ (v : User). v.is_staff) r
          ≡ some (role_has role false Capability.access_django_admin))
set_role_grants user role s u e =
    let f = found_after user s u e role in
    let t = (set_role user role s).1 in
    (
      λ c. has_capability_found user t (with_role role u) f c,
      f ∙ sym (set_role_found user s u e role),
      ap (Option.map (λ (v : User). v.is_staff)) (set_role_found user s u e role),
    )

navigable :
    (p : Capability → Bool) (ns : List NavigationEntry)
    → All (λ n. p n.capability ≡ true) (filter_by (λ (n : NavigationEntry). p n.capability) ns)
unfolding filter_by
navigable p [] = tt
navigable p (n ∷ ns) = elim (Bool-cases (p n.capability)) [
  | inl e ↦ rw e (e, navigable p ns)
  | inr e ↦ rw e (navigable p ns)
]

navigation_of :
    (user : ℕ) (s : Store) (o : Option User)
    → first_where (is_id user) s.users ≡ o
    → All (λ n. has_capability user n.capability s ≡ true) (get_staff_navigation user s)
unfolding get_staff_navigation has_capability
navigation_of user s none e = rw (e, get_staff_navigation) tt
navigation_of user s (some u) e = elim (Bool-cases (is_staff_role u.role u.is_superuser)) [
  | inl staff ↦
      rw (e, has_capability, get_staff_navigation, staff)
        (navigable (role_has u.role u.is_superuser) staff_navigation)
  | inr member ↦ rw (e, get_staff_navigation, member) tt
]

-- Every screen that the staff navigation of an account shows is one whose capability the account
-- holds.
navigation_guarded :
    (user : ℕ) (s : Store)
    → All (λ n. has_capability user n.capability s ≡ true) (get_staff_navigation user s)
navigation_guarded user s = navigation_of user s (first_where (is_id user) s.users) refl

-- A member who is no superuser is nobody of the staff and holds no capability; every other role holds
-- one, and only an administrator may change roles.
pub roles_of_staff :
    (role : UserRole)
    → (is_staff_role role false ≡ not (is_empty (role_capabilities role)))
      × (role_has role false Capability.manage_users
          ≡ elim role [ UserRole.admin ↦ true | _ ↦ false ])
unfolding role_has role_capabilities exists_where
roles_of_staff UserRole.member = (refl, refl)
roles_of_staff UserRole.moderator = (refl, refl)
roles_of_staff UserRole.support = (refl, refl)
roles_of_staff UserRole.analyst = (refl, refl)
roles_of_staff UserRole.admin = (refl, refl)
