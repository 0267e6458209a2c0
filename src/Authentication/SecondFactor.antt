-- ===== src/Authentication/SecondFactor.antt =====
-- Steps of checking a second factor: MFAService.verify of apps/authentication/services.py.
use date_app.Common.{
  ℕ, ◌+◌, ◌≡◌, refl, sym, ap, subst, ◌∙◌, inl, inr, Bool, true, false, not, ◌&&◌, Option, none,
  some, List, [], ◌∷◌, arith, ◌==◌, eq_of_==, Bool-cases, Option-cases, get_or, Text, length,
  first_where, exists_where, count_where, Distinct, first_where-holds, first-update_found, Action,
  ok, err, ZynoraError, all_of,
}
use date_app.Accounts.Models.{User}
use date_app.Authentication.Models.{RecoveryCode, MfaSecret, Store}
use date_app.Authentication.Totp.{
  digits, CodeCheck, current_counter, is_digit, cleaned, verify_code,
}
use date_app.Authentication.Codes.{code_at, tried, near}
use date_app.Authentication.Mfa.{
  is_secret_of, is_confirmed_of, spend_code, with_counter, with_codes, save_mfa, check, digest_of,
  verify,
}

abbrev pub remaining : List RecoveryCode → ℕ
remaining cs = count_where (λ (c : RecoveryCode). not c.used) cs

abbrev pub same_hash : RecoveryCode → RecoveryCode → Bool
same_hash a b = b.code_hash == a.code_hash

abbrev has_hash : ℕ → RecoveryCode → Bool
has_hash d c = c.code_hash == d

spend_code_absent :
    (d : ℕ) (cs : List RecoveryCode) → exists_where (has_hash d) cs ≡ false → spend_code d cs ≡ none
unfolding spend_code exists_where
spend_code_absent d [] h = refl
spend_code_absent d (c ∷ cs) h = ground (arith, spend_code_absent d cs)

-- A recovery code that has been spent: one code fewer is left, the hashes are as before, and a list
-- without repeated hashes has no unused code with the hash any more.
abbrev pub Spent : ℕ → List RecoveryCode → List RecoveryCode → Type 0
Spent d cs ds =
    (remaining cs ≡ remaining ds + 1)
    × ((x : ℕ) → exists_where (has_hash x) ds ≡ exists_where (has_hash x) cs)
    × (Distinct same_hash cs → spend_code d ds ≡ none)

module _ (d : ℕ) (c : RecoveryCode) (cs : List RecoveryCode) where
  spend_here :
      (c.code_hash == d && not c.used) ≡ true → Spent d (c ∷ cs) (record c { used = true } ∷ cs)
  unfolding spend_code count_where exists_where
  spend_here h = (
    ground arith,
    λ x. refl,
    λ (absent, _). ground (arith, eq_of_== c.code_hash d, spend_code_absent d cs),
  )

  spend_there :
      (ds : List RecoveryCode)
      → (c.code_hash == d && not c.used) ≡ false
      → Spent d cs ds
      → Spent d (c ∷ cs) (c ∷ ds)
  unfolding spend_code count_where exists_where
  spend_there ds h (n, hs, k) =
      (omega (arith, n), λ x. ground (arith, hs x), λ (_, distinct). ground (arith, h, k distinct))

pub spend_code_spends :
    (d : ℕ) (cs ds : List RecoveryCode) → spend_code d cs ≡ some ds → Spent d cs ds
unfolding spend_code
spend_code_spends d [] ds e = absurd (ground (arith, e))
spend_code_spends d (c ∷ cs) ds e = elim (Bool-cases (c.code_hash == d && not c.used)) [
  | inl here ↦
      let at : some (record c { used = true } ∷ cs) ≡ spend_code d (c ∷ cs) =
        ground (arith, here) in
      subst (Spent d (c ∷ cs)) (ap (λ o. get_or o []) (at ∙ e)) (spend_here d c cs here)
  | inr there ↦ elim (Option-cases (spend_code d cs)) [
    | inl f ↦ absurd (ground (arith, e, f, there))
    | inr g ↦
        let (es, f) = g in
        let at : some (c ∷ es) ≡ spend_code d (c ∷ cs) = ground (arith, f, there) in
        subst (Spent d (c ∷ cs)) (ap (λ o. get_or o []) (at ∙ e))
          (spend_there d c cs es there (spend_code_spends d cs es f))
  ]
]

module _ (hmac_sha1 : Text → ℕ → List ℕ) (is_other_digit : ℕ → Bool) (hash_text : Text → ℕ)
    (lower : Text → Text) (check_password : ℕ → User → Bool) (u : User) (code : Text) where
  abbrev pub verified : ℕ → Action Store Bool
  verified now = verify hmac_sha1 is_other_digit hash_text lower check_password now u code

  abbrev pub checked : ℕ → MfaSecret → CodeCheck
  checked now m = check hmac_sha1 is_other_digit hash_text lower check_password now code m

  abbrev pub digest : ℕ
  digest = digest_of hmac_sha1 is_other_digit hash_text lower check_password code

  abbrev pub invalid : ZynoraError
  invalid = ZynoraError.validation_error "That code is not valid."

  abbrev pub found : Store → Option MfaSecret
  found s = first_where (is_confirmed_of u.id) s.mfa

  module _ (now : ℕ) (s : Store) (m : MfaSecret) (e : found s ≡ some m) where
    pub verify_matched :
        (c : ℕ)
        → checked now m ≡ CodeCheck.matched c
        → verified now s ≡ (ok true, save_mfa u.id (with_counter c) s)
    unfolding verify
    verify_matched c h = ground (arith, e, h)

    pub verify_spent :
        (cs : List RecoveryCode)
        → checked now m ≡ CodeCheck.unmatched
        → spend_code digest m.recovery_codes ≡ some cs
        → verified now s ≡ (ok true, save_mfa u.id (with_codes cs) s)
    unfolding verify
    verify_spent cs h k = ground (arith, e, h, k)

    pub verify_invalid :
        checked now m ≡ CodeCheck.unmatched
        → spend_code digest m.recovery_codes ≡ none
        → verified now s ≡ (err invalid, s)
    unfolding verify
    verify_invalid h k = ground (arith, e, h, k)

    pub row_after :
        (f : MfaSecret → MfaSecret)
        → ((x : MfaSecret) → is_confirmed_of u.id (f x) ≡ is_confirmed_of u.id x)
        → found (save_mfa u.id f s) ≡ some (f m)
    row_after f keeps =
        let own = first_where-holds (is_confirmed_of u.id) s.mfa m e in
        first-update_found (is_confirmed_of u.id) (is_secret_of u.id) f s.mfa m keeps e
          (ground (arith, own))

  abbrev pub text : Text
  text = cleaned hmac_sha1 is_other_digit code

  abbrev pub is_six_digits : Bool
  is_six_digits = all_of (is_digit hmac_sha1 is_other_digit) text && length text == digits

  abbrev pub counter_code : MfaSecret → ℕ → Text
  counter_code m = code_at hmac_sha1 is_other_digit m.secret

  -- A code that is not six digits matches no counter.
  pub not_six :
      (now : ℕ) (m : MfaSecret) → is_six_digits ≡ false → checked now m ≡ CodeCheck.unmatched
  unfolding verify_code
  not_six now m h = rw h refl

  pub six_of_matched :
      (now c : ℕ) (m : MfaSecret) → checked now m ≡ CodeCheck.matched c → is_six_digits ≡ true
  unfolding verify_code
  six_of_matched now c m h = elim (Bool-cases is_six_digits) [
    | inl e ↦ e
    | inr e ↦ absurd (ground (arith, sym (not_six now m e) ∙ h))
  ]

  pub checked_six :
      (now : ℕ) (m : MfaSecret)
      → is_six_digits ≡ true
      → checked now m
        ≡ tried hmac_sha1 is_other_digit m.secret text m.last_used_counter
            (near hmac_sha1 is_other_digit m.secret (current_counter now))
  unfolding verify_code
  checked_six now m h = rw h refl
