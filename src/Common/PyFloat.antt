-- ===== src/Common/PyFloat.antt =====
-- Python's floats and its `math` module, as far as the models use them: a type with the operations
-- named. Nothing is assumed of them here.
use Prim.Native.Nat.{ℕ}
use mathlib.Core.Bool.{Bool}
use date_app.Common.Tests.{if◌then◌else◌}

pub record Floats (F : Type 0) : Type 0 where
  pub of_nat : ℕ → F
  -- The literal with these digits before and after the point: `lit n k` is n / 10 ^ k.
  pub lit : ℕ → ℕ → F
  pub add : F → F → F
  pub sub : F → F → F
  pub mul : F → F → F
  pub div : F → F → F
  pub abs : F → F
  pub sqrt : F → F
  pub sin : F → F
  pub cos : F → F
  pub asin : F → F
  pub radians : F → F
  -- `a < b`
  pub lt : F → F → Bool
  -- `round(x, places)`, and `int(round(x))` of a number that is not negative.
  pub round_to : ℕ → F → F
  pub round : F → ℕ

module _ {F : Type 0} (fl : Floats F) where
  -- Python's `min` and `max` of two: the first unless the second is smaller, or greater.
  abbrev pub fmin : F → F → F
  fmin a b = if fl.lt b a then b else a

  abbrev pub fmax : F → F → F
  fmax a b = if fl.lt a b then b else a
