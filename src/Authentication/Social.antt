-- ===== src/Authentication/Social.antt =====
-- SocialAuthService of apps/authentication/services.py. The random password is an argument, and so is
-- the fuel of the loop that looks for a username.
use date_app.Common.{
  ℕ, zero, suc, ◌+◌, Bool, true, false, ◌&&◌, Option, none, some, List, [], ◌∷◌, ◌++◌, ◌==◌,
  if◌then◌else◌, Text, codes, is_empty, take, first_where, exists_where, Action, ok, ZynoraError,
  pure, gets, or_raise, atomic, ◌>>=◌, ◌>>◌, modify, decimal, same_text,
}
use date_app.Accounts.Models.{AccountStatus, User}
use date_app.Accounts.Registration.{Signup, create_account}
use date_app.Authentication.Models.{SocialProvider, same_provider, SocialAccount, Store}
use date_app.Authentication.Login.{save_user}
use date_app.Authentication.Requests.{on_accounts}

-- `email.split("@")[0]`
unfoldable pub before_at : Text → Text
before_at [] = []
before_at (c ∷ t) = let rest = before_at t in if c == 64 then [] else c ∷ rest

-- The first username that is tried.
unfoldable pub base_name : Text → Text
unfolding before_at
base_name email =
    let base = take 20 (before_at email) in if is_empty base then codes "member" else base

-- `f"{base}{suffix}"[:30]`
abbrev pub with_suffix : Text → ℕ → Text
with_suffix base n = take 30 (base ++ decimal n)

-- `User.objects.filter(username=name).exists()`
abbrev pub is_taken : List User → Text → Bool
is_taken us name = exists_where (λ (u : User). same_text u.username name) us

-- The loop over the suffixes; none when the fuel is spent.
unfoldable pub free_name : List User → Text → ℕ → ℕ → Text → Option Text
free_name us base zero suffix name = none
free_name us base (suc fuel) suffix name =
    let rest = free_name us base fuel (suffix + 1) (with_suffix base (suffix + 1)) in
    if is_taken us name then rest else some name

abbrev pub is_link : SocialProvider → Text → SocialAccount → Bool
is_link provider uid a = same_provider provider a.provider && same_text a.provider_uid uid

-- The provider has proved control of the address.
abbrev pub proven : User → User
proven u = record u { is_email_verified = true; status = AccountStatus.active }

abbrev pub signup_of : Text → Text → Text → ℕ → Signup
signup_of email username first_name password = record {
  email = email;
  username = username;
  password = password;
  first_name = first_name;
  date_of_birth = none;
  phone = none;
  accepted_terms = true;
  marketing_opt_in = false;
}

module _ (lower : Text → Text) (iexact : Text → Text → Bool) (normalize_email : Text → Text)
    (make_password : ℕ → ℕ) (full_clean : User → Option ZynoraError) where
  -- The account of an address that nobody has yet.
  unfoldable pub new_member : ℕ → ℕ → Text → Text → ℕ → ℕ → Action Store User
  unfolding base_name free_name create_account
  new_member now id email first_name password fuel = do
    name ←
        or_raise
          (← gets (λ s. free_name s.accounts.users (base_name email) fuel 1 (base_name email)))
          (ZynoraError.uncaught "The loop over the usernames does not end.")
    u ← on_accounts (
        create_account lower iexact normalize_email make_password full_clean now id
          (signup_of email name first_name password))
    modify (save_user u.id proven)
    pure (proven u)

  -- The account of an address, and whether it was made.
  unfoldable pub find_or_create : ℕ → ℕ → Text → Text → ℕ → ℕ → Action Store (User × Bool)
  unfolding new_member
  find_or_create now id email first_name password fuel s =
      elim (first_where (λ u. iexact u.email email) s.accounts.users) [
        | some u ↦ (ok (u, false), s)
        | none ↦ (new_member now id email first_name password fuel >>= λ u. pure (u, true)) s
      ]

  -- `SocialAuthService.connect_or_create`
  unfoldable pub connect_or_create :
      ℕ → ℕ → SocialProvider → Text → Text → Text → ℕ → ℕ → Action Store (ℕ × Bool)
  unfolding find_or_create
  connect_or_create now id provider uid email first_name password fuel s =
      elim (first_where (is_link provider uid) s.social) [
        | some a ↦ (ok (a.user, false), s)
        | none ↦
            atomic
              (find_or_create now id email first_name password fuel >>= λ p.
                modify (λ t. record t {
                  social =
                      record {
                        user = p.0.id;
                        provider = provider;
                        provider_uid = uid;
                        email = email;
                      }
                      ∷ t.social;
                })
                >> pure (p.0.id, p.1))
              s
      ]
