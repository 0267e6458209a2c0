-- ===== src/Common/Calls.antt =====
-- A call of a service: apps/common/exceptions.py, and the state that the call runs on. What was
-- written before a raise stays written unless the call is under `transaction.atomic`, so the state
-- comes back beside the error too.
pub mod Keeps
use Prim.Native.String.{String}
use mathlib.Core.Path.{◌≡◌, refl}
use mathlib.Core.Bool.{Bool, true, false}
use mathlib.Core.Option.{Option, none, some}
use Prim.Native.Nat.{ℕ}
use date_app.Common.Tests.{Text}

-- The exceptions that the modelled services raise, with their messages.
pub data ZynoraError : Type 0 where
  validation_error permission_denied not_found quota_exceeded : String → ZynoraError
  -- `QuotaExceeded` with its limit and how much of it is used.
  quota_used_up : Text → ℕ → ℕ → ZynoraError
  rate_limited moderation_blocked payment_error : String → ZynoraError
  -- An exception of Python or Django that no service catches.
  uncaught : String → ZynoraError

pub data Result (A : Type 0) : Type 0 where
  ok : A → Result A
  err : ZynoraError → Result A

abbrev pub Action : Type 0 → Type 0 → Type 0
Action S A = S → Result A × S

module _ {S A : Type 0} where
  abbrev pub pure : A → Action S A
  pure a s = (ok a, s)

  abbrev pub raise : ZynoraError → Action S A
  raise e s = (err e, s)

  abbrev pub gets : (S → A) → Action S A
  gets f s = (ok (f s), s)

  abbrev pub or_raise : Option A → ZynoraError → Action S A
  or_raise none e = raise e
  or_raise (some a) e = pure a

  -- `transaction.atomic`: a raise takes back what was written.
  abbrev pub atomic : Action S A → Action S A
  atomic m s = let (r, s') = m s in elim r [ ok a ↦ (ok a, s') | err e ↦ (err e, s) ]

infixl 5 ◌>>=◌ ◌>>◌
abbrev pub ◌>>=◌ : {S A B : Type 0} → Action S A → (A → Action S B) → Action S B
◌>>=◌ m f s = let (r, s') = m s in elim r [ ok a ↦ f a s' | err e ↦ raise e s' ]

abbrev pub ◌>>◌ : {S A B : Type 0} → Action S A → Action S B → Action S B
m >> k = m >>= λ _. k

module _ {S : Type 0} where
  abbrev pub raise_if : Bool → ZynoraError → Action S (Unit {0})
  raise_if true e = raise e
  raise_if false e = pure tt

  -- Raises the error of a check, if it found one.
  abbrev pub raise_some : Option ZynoraError → Action S (Unit {0})
  raise_some none = pure tt
  raise_some (some e) = raise e

  abbrev pub modify : (S → S) → Action S (Unit {0})
  modify f s = (ok tt, f s)

  abbrev pub when : Bool → Action S (Unit {0}) → Action S (Unit {0})
  when true m = m
  when false m = pure tt
