-- ===== src/Common/Calls/Keeps.antt =====
-- What a call leaves true of the state, rule by rule of a do block; and the inversion of a call that
-- returned.
use mathlib.Core.Path.{◌≡◌, refl, ap}
use mathlib.Core.Bool.{Bool, true, false}
use mathlib.Core.Option.{Option, none, some}
use native.Mathlib.Omega.{arith}
use date_app.Common.Tests.{if◌then◌else◌}
use date_app.Common.Calls.{
  raise_some, raise_some, when, Action, Result, ok, err, ZynoraError, pure, raise, gets, or_raise,
  raise_if, atomic, ◌>>=◌,
}

-- The call returned `a` and left the state `t`.
pub record Returned {S A : Type 0} (m : Action S A) (s : S) (a : A) (t : S) : Type 0 where
  pub at : m s ≡ (ok a, t)

-- However the call ends, `P` holds after it if it held before.
pub record Keeps {S A : Type 0} (P : S → Type 0) (m : Action S A) : Type 0 where
  pub at : (s : S) → P s → P (m s).1

module _ {S A : Type 0} where
  atomic_cases :
      (Q : S → Type 0) (r : Result A) (s s' : S)
      → Q s
      → Q s'
      → Q (elim r as (λ _. Result A × S) [ ok a ↦ (ok a, s') | err e ↦ (err e, s) ]).1
  atomic_cases Q (ok a) s s' h h' = h'
  atomic_cases Q (err e) s s' h h' = h

module _ {S A : Type 0} {P : S → Type 0} where
  pub Keeps-pure : (a : A) → Keeps P (pure a)
  Keeps-pure a = record { at = λ s h. h }

  pub Keeps-raise : (e : ZynoraError) → Keeps P (raise {A = A} e)
  Keeps-raise e = record { at = λ s h. h }

  pub Keeps-gets : (f : S → A) → Keeps P (gets f)
  Keeps-gets f = record { at = λ s h. h }

  pub Keeps-or_raise : (o : Option A) (e : ZynoraError) → Keeps P (or_raise {S = S} o e)
  Keeps-or_raise none e = record { at = λ s h. h }
  Keeps-or_raise (some a) e = record { at = λ s h. h }

  pub Keeps-if :
      (b : Bool) (m n : Action S A) → Keeps P m → Keeps P n → Keeps P (if b then m else n)
  Keeps-if true m n k l = k
  Keeps-if false m n k l = l

  pub Keeps-atomic : (m : Action S A) → Keeps P m → Keeps P (atomic m)
  Keeps-atomic m k = record { at = λ s h. atomic_cases P (m s).0 s (m s).1 h (k.at s h) }

module _ {S : Type 0} {P : S → Type 0} where
  pub Keeps-raise_if : (b : Bool) (e : ZynoraError) → Keeps P (raise_if {S = S} b e)
  Keeps-raise_if true e = record { at = λ s h. h }
  Keeps-raise_if false e = record { at = λ s h. h }

  pub Keeps-raise_some : (o : Option ZynoraError) → Keeps P (raise_some {S = S} o)
  Keeps-raise_some none = record { at = λ s h. h }
  Keeps-raise_some (some e) = record { at = λ s h. h }

  pub Keeps-when : (b : Bool) (m : Action S (Unit {0})) → Keeps P m → Keeps P (when b m)
  Keeps-when true m k = k
  Keeps-when false m k = record { at = λ s h. h }

module _ {S A B : Type 0} {P : S → Type 0} where
  bind_cases :
      (r : Result A) (s : S) (f : A → Action S B)
      → P s
      → ((a : A) → Keeps P (f a))
      → P (elim r as (λ _. Result B × S) [ ok a ↦ f a s | err e ↦ raise e s ]).1
  bind_cases (ok a) s f h k = (k a).at s h
  bind_cases (err e) s f h k = h

  pub Keeps-bind :
      (m : Action S A) (f : A → Action S B)
      → Keeps P m
      → ((a : A) → Keeps P (f a))
      → Keeps P (m >>= f)
  Keeps-bind m f k l = record { at = λ s h. bind_cases (m s).0 (m s).1 f (k.at s h) l }

pub ruleset keeps_rules = (
  Keeps-pure, Keeps-raise, Keeps-gets, Keeps-or_raise, Keeps-if, Keeps-atomic, Keeps-raise_if,
  Keeps-raise_some, Keeps-when, Keeps-bind,
)

module _ {S A : Type 0} where
  atomic_ok :
      (r : Result A) (s s' t : S) (a : A)
      → elim r as (λ _. Result A × S) [ ok a ↦ (ok a, s') | err e ↦ (err e, s) ] ≡ (ok a, t)
      → ◌≡◌ {A = Result A × S} (r, s') (ok a, t)
  atomic_ok (ok b) s s' t a e = e
  atomic_ok (err x) s s' t a e = cc

  pub atomic-ok : {m : Action S A} {s t : S} {a : A} → Returned (atomic m) s a t → Returned m s a t
  atomic-ok {m} {s} {t} {a} r = record { at = atomic_ok (m s).0 s (m s).1 t a r.at }

module _ {S A B : Type 0} where
  bind_ok :
      (r : Result A) (s t : S) (f : A → Action S B) (b : B)
      → elim r as (λ _. Result B × S) [ ok a ↦ f a s | err e ↦ raise e s ] ≡ (ok b, t)
      → (a : A) × (r ≡ ok a) × (f a s ≡ (ok b, t))
  bind_ok (ok a) s t f b e = (a, refl, e)
  bind_ok (err x) s t f b e = cc

  -- A do block whose first step returned goes on from there.
  pub bind_after :
      (m : Action S A) (f : A → Action S B) (s t : S) (a : A)
      → m s ≡ (ok a, t)
      → (m >>= f) s ≡ f a t
  bind_after m f s t a e =
      ap
        (λ (r : Result A × S). elim r.0 as (λ _. Result B × S) [
          | ok b ↦ f b r.1
          | err y ↦ raise y r.1
        ])
        e

  -- One whose first step raised has raised.
  pub bind_raised :
      (m : Action S A) (f : A → Action S B) (s t : S) (x : ZynoraError)
      → m s ≡ (err x, t)
      → (m >>= f) s ≡ (err x, t)
  bind_raised m f s t x e =
      ap
        (λ (r : Result A × S). elim r.0 as (λ _. Result B × S) [
          | ok b ↦ f b r.1
          | err y ↦ raise y r.1
        ])
        e

  -- The steps of a do block that returned have returned.
  pub bind-ok :
      {m : Action S A} {f : A → Action S B} {s t : S} {b : B}
      → Returned (m >>= f) s b t
      → (a : A) × (u : S) × Returned m s a u × Returned (f a) u b t
  bind-ok {m} {f} {s} {t} {b} r =
      let (a, p, q) = bind_ok (m s).0 (m s).1 t f b r.at in
      (a, (m s).1, record { at = ground (arith, p) }, record { at = q })
