-- ===== src/Authentication/Attempts.antt =====
-- A run of attempts to sign in: LoginService.authenticate of apps/authentication/services.py.
use date_app.Common.{
  ℕ, ◌+◌, ◌≤◌, ◌<◌, ◌≡◌, refl, sym, ap, subst, ◌∙◌, inl, inr, Bool, Option, none, some, List, [],
  ◌∷◌, arith, Bool-cases, Option-cases, Text, length, first_where, All, Action, Result, ok, err,
  ZynoraError, strip,
}
use date_app.Accounts.Models.{User, is_banned, is_locked, Store as AccountsStore}
use date_app.Authentication.Models.{Store}
use date_app.Authentication.Login.{
  Request, counts, throttle, record_attempt, register_failure, refuse, reject, accept, authenticate,
}
use date_app.Authentication.Lockout.{
  signed_in, checked, tried_for, rejected, authenticate_rejects, authenticate_accepts,
}
use date_app.Authentication.Throttling.{
  At, named, Result-cases, At-throttle, At-start, throttle_full,
}

-- The address, the password and the time of an attempt.
pub record Attempt : Type 0 where
  pub at : ℕ
  pub password : ℕ
  pub request : Option Request

module _ (iexact : Text → Text → Bool) (check_password : ℕ → User → Bool)
    (model_backend : Text → ℕ → AccountsStore → Option User) (given : Text) where
  abbrev pub attempt : Attempt → Action Store (User × Bool)
  attempt a = signed_in iexact check_password model_backend given a.password a.request a.at

  -- Attempts with one identifier, one after the other, whatever becomes of each.
  unfoldable pub attempts : List Attempt → Store → Store
  attempts [] s = s
  attempts (a ∷ rest) s = attempts rest (attempt a s).1

  abbrev identifier : Text
  identifier = strip given

  module _ (a : Attempt) where
    abbrev throttled : Action Store Unit
    throttled = throttle a.at identifier a.request

    reject_counters :
        (o : Option User) (t : Store)
        → (rejected iexact check_password model_backend given a.password a.request a.at o
            t).1.counters
          ≡ t.counters
    unfolding reject refuse record_attempt register_failure
    reject_counters none t = refl
    reject_counters (some u) t = elim (Bool-cases (is_banned u)) [
      | inl b ↦ rw b refl
      | inr b ↦ elim (Bool-cases (is_locked a.at u)) [
        | inl l ↦ rw (b, l) refl
        | inr l ↦ rw (b, l) refl
      ]
    ]

    accept_counters :
        (u : User) (t : Store)
        → (accept iexact check_password model_backend a.at identifier u t).1.counters ≡ t.counters
    unfolding accept record_attempt
    accept_counters u t = elim (Bool-cases u.is_mfa_enabled) [
      | inl e ↦ rw e refl
      | inr e ↦ rw e refl
    ]

    attempt_passed :
        (s t : Store) → throttled s ≡ (ok tt, t) → (attempt a s).1.counters ≡ t.counters
    attempt_passed s t e =
        elim (Option-cases
          (checked iexact check_password model_backend given a.password a.request a.at t)) [
            | inl f ↦
                ap (λ (z : Result (User × Bool) × Store). z.1.counters)
                  (authenticate_rejects iexact check_password model_backend given a.password
                    a.request a.at s t e f)
                ∙ reject_counters
                    (tried_for iexact check_password model_backend given a.password a.request t) t
            | inr g ↦
                let (u, f) = g in
                ap (λ (z : Result (User × Bool) × Store). z.1.counters)
                  (authenticate_accepts iexact check_password model_backend given a.password
                    a.request a.at s t u e f)
                ∙ accept_counters u t
          ]

    attempt-throttled :
        (s t : Store) (x : ZynoraError) → throttled s ≡ (err x, t) → attempt a s ≡ (err x, t)
    unfolding authenticate
    attempt-throttled s t x e = ground (arith, e)

    attempt_counters : (s : Store) → (attempt a s).1.counters ≡ (throttled s).1.counters
    attempt_counters s = elim (Result-cases (throttled s)) [
      | inl g ↦ attempt_passed s (throttled s).1 g.1
      | inr g ↦
          ap (λ (z : Result (User × Bool) × Store). z.1.counters)
            (attempt-throttled s (throttled s).1 g.0 g.1)
    ]

  abbrev refused : Result (User × Bool)
  refused = err (ZynoraError.rate_limited "Too many sign-in attempts. Try again in a few minutes.")

  attempts_counted :
      (rest : List Attempt) (end n : ℕ) (s : Store)
      → All (λ b. b.at < end) rest
      → At (named identifier) end n s.counters
      → At (named identifier) end (length rest + n) (attempts rest s).counters
  unfolding attempts
  attempts_counted [] end n s l h =
      subst (λ z. At (named identifier) end z s.counters) (omega arith) h
  attempts_counted (a ∷ rest) end n s (l, ls) h =
      let one =
        subst (At (named identifier) end (n + 1)) (sym (attempt_counters a s))
          (At-throttle a.at end n identifier a.request s l h) in
      subst (λ z. At (named identifier) end z (attempts rest (attempt a s).1).counters)
        (omega arith) (attempts_counted rest end (n + 1) (attempt a s).1 ls one)

  attempt_full :
      (a : Attempt) (end n : ℕ) (s : Store)
      → a.at < end
      → 10 ≤ n
      → At (named identifier) end n s.counters
      → (attempt a s).0 ≡ refused × ((attempt a s).1.accounts ≡ s.accounts)
  attempt_full a end n s l m h =
      let e = attempt-throttled a s _ _ (throttle_full a.at end n identifier a.request s l m h) in
      rw e (refl, refl)

  -- However the attempts with an identifier end that follow one another from a time on, and whatever
  -- their passwords and addresses, once ten have been made no other within five minutes of the first
  -- is let through, not even one with the right password, and none touches the accounts; the
  -- identifier had no live counter before the first.
  pub eleventh_refused :
      (first last : Attempt) (rest : List Attempt) (s : Store)
      → first_where (counts first.at (named (strip given))) s.counters ≡ none
      → All (λ b. b.at < first.at + 300) rest
      → last.at < first.at + 300
      → 9 ≤ length rest
      → let t = attempts (first ∷ rest) s in
        let (r, u) = attempt last t in
        (r
          ≡ err (ZynoraError.rate_limited "Too many sign-in attempts. Try again in a few minutes."))
        × (u.accounts ≡ t.accounts)
  unfolding attempts
  eleventh_refused first last rest s e ls l n =
      let one =
        subst (At (named identifier) (first.at + 300) 1) (sym (attempt_counters first s))
          (At-start first.at first.at 0 identifier first.request s e) in
      attempt_full last (first.at + 300) (length rest + 1) _ l (omega arith)
        (attempts_counted rest (first.at + 300) 1 (attempt first s).1 ls one)
