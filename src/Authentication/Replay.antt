-- ===== src/Authentication/Replay.antt =====
-- A second factor is good once: MFAService.verify of apps/authentication/services.py.
use date_app.Common.{
  ℕ, ◌+◌, ◌≤◌, ◌<◌, ◌≡◌, refl, sym, ◌∙◌, ◌≢◌, Bool, true, false, Option, none, some, List, Text,
  Distinct, Action, ok, err, ZynoraError,
}
use date_app.Accounts.Models.{User}
use date_app.Authentication.Models.{RecoveryCode, MfaSecret, recovery_codes_remaining, Store}
use date_app.Authentication.Totp.{CodeCheck, current_counter}
use date_app.Authentication.Codes.{tried_matched, tried_ascii, unmatched_all, near, near_only}
use date_app.Authentication.Mfa.{spend_code, with_counter, with_codes, save_mfa}
use date_app.Authentication.SecondFactor.{
  same_hash, spend_code_spends, verified, checked, digest, found, verify_matched, verify_spent,
  verify_invalid, row_after, text, is_six_digits, counter_code, not_six, six_of_matched,
  checked_six,
}

module _ (hmac_sha1 : Text → ℕ → List ℕ) (is_other_digit : ℕ → Bool) (hash_text : Text → ℕ)
    (lower : Text → Text) (check_password : ℕ → User → Bool) (u : User) (code : Text)
    (now later : ℕ) (s : Store) (m : MfaSecret) where
  abbrev verifies : ℕ → Action Store Bool
  verifies = verified hmac_sha1 is_other_digit hash_text lower check_password u code

  abbrev checks : ℕ → MfaSecret → CodeCheck
  checks = checked hmac_sha1 is_other_digit hash_text lower check_password u code

  abbrev given : Text
  given = text hmac_sha1 is_other_digit hash_text lower check_password u code

  abbrev code_of : ℕ → Text
  code_of = counter_code hmac_sha1 is_other_digit hash_text lower check_password u code m

  abbrev spends : List RecoveryCode → Option (List RecoveryCode)
  spends = spend_code (digest hmac_sha1 is_other_digit hash_text lower check_password u code)

  abbrev stored : Store → Option MfaSecret
  stored = found hmac_sha1 is_other_digit hash_text lower check_password u code

  abbrev six : Bool
  six = is_six_digits hmac_sha1 is_other_digit hash_text lower check_password u code

  unmatched_later :
      (c : ℕ)
      → checks now m ≡ CodeCheck.matched c
      → ((d : ℕ) → c < d → d ≤ current_counter later + 1 → code_of d ≢ given)
      → checks later (with_counter c m) ≡ CodeCheck.unmatched
  unmatched_later c h apart =
      let six =
        six_of_matched hmac_sha1 is_other_digit hash_text lower check_password u code now c m h in
      let before =
        sym (checked_six hmac_sha1 is_other_digit hash_text lower check_password u code now m six)
        ∙ h in
      let window = near hmac_sha1 is_other_digit m.secret in
      let ascii =
        tried_ascii hmac_sha1 is_other_digit m.secret given m.last_used_counter
          (window (current_counter now)) c before in
      checked_six hmac_sha1 is_other_digit hash_text lower check_password u code later
        (with_counter c m) six
      ∙ unmatched_all hmac_sha1 is_other_digit m.secret given c (window (current_counter later))
          ascii
          (λ d l x.
            apart d l (near_only hmac_sha1 is_other_digit m.secret (current_counter later) d x).1)

  -- A one-time code that the stored secret matches is accepted, for a counter past the last one; the
  -- same code is refused later, when no later counter up to one step past the clock has it too and it
  -- is no recovery code.
  pub code_once :
      (c : ℕ)
      → stored s ≡ some m
      → checks now m ≡ CodeCheck.matched c
      → ((d : ℕ) → c < d → d ≤ current_counter later + 1 → code_of d ≢ given)
      → spends m.recovery_codes ≡ none
      → let (r, t) = verifies now s in
        (r ≡ ok true)
        × (m.last_used_counter < c)
        × (code_of c ≡ given)
        × (verifies later t ≡ (err (ZynoraError.validation_error "That code is not valid."), t))
  code_once c e h apart none_spent =
      let six =
        six_of_matched hmac_sha1 is_other_digit hash_text lower check_password u code now c m h in
      let (past, same, _) =
        tried_matched hmac_sha1 is_other_digit m.secret given m.last_used_counter
          (near hmac_sha1 is_other_digit m.secret (current_counter now)) c
          (sym
              (checked_six hmac_sha1 is_other_digit hash_text lower check_password u code now m six)
            ∙ h) in
      let t = save_mfa u.id (with_counter c) s in
      let row =
        row_after hmac_sha1 is_other_digit hash_text lower check_password u code now s m e
          (with_counter c) (λ x. refl) in
      rw
        (verify_matched hmac_sha1 is_other_digit hash_text lower check_password u code now s m e c
          h)
        (
          refl,
          past,
          same,
          verify_invalid hmac_sha1 is_other_digit hash_text lower check_password u code later t
              (with_counter c m) row (unmatched_later c h apart) none_spent,
        )

  -- A text that is not six digits, and whose hash is that of an unused recovery code, is accepted, and
  -- one recovery code fewer is left; when no two recovery codes have the same hash, the same text is
  -- refused ever after.
  pub recovery_once :
      (cs : List RecoveryCode)
      → stored s ≡ some m
      → six ≡ false
      → spends m.recovery_codes ≡ some cs
      → Distinct same_hash m.recovery_codes
      → let (r, t) = verifies now s in
        (n : MfaSecret) × (r ≡ ok true)
        × (stored t ≡ some n)
        × (recovery_codes_remaining m ≡ recovery_codes_remaining n + 1)
        × (n.last_used_counter ≡ m.last_used_counter)
        × (verifies later t ≡ (err (ZynoraError.validation_error "That code is not valid."), t))
  recovery_once cs e odd k distinct =
      let (left, _, gone) = spend_code_spends _ m.recovery_codes cs k in
      let n = with_codes cs m in
      let t = save_mfa u.id (with_codes cs) s in
      let row =
        row_after hmac_sha1 is_other_digit hash_text lower check_password u code now s m e
          (with_codes cs) (λ x. refl) in
      rw
        (verify_spent hmac_sha1 is_other_digit hash_text lower check_password u code now s m e cs
          (not_six hmac_sha1 is_other_digit hash_text lower check_password u code now m odd) k)
        (
          n,
          refl,
          row,
          left,
          refl,
          verify_invalid hmac_sha1 is_other_digit hash_text lower check_password u code later t n
              row
              (not_six hmac_sha1 is_other_digit hash_text lower check_password u code later n odd)
              (gone distinct),
        )
