-- ===== src/Matching/Bounds.antt =====
-- A score is a percentage: apps/matching/engine.py.
use date_app.Common.{◌≤◌, ◌≡◌, inl, inr, false, Option, Bool-cases, Text, Floats, fmin, fmax}
use date_app.Profiles.Models.{MatchPreference}
use date_app.Matching.Payloads.{Payload}
use date_app.Matching.Engine.{as_percent, compatibility}

module _ {F : Type 0} (fl : Floats F) (lower : Text → Text) (le : F → F → Type 0)
    (lt_total : (a b : F) → fl.lt a b ≡ false → le b a) (le_refl : (a : F) → le a a)
    (le_zero_one : le (fl.lit 0 1) (fl.lit 10 1))
    (round_percent : (a : F) → le a (fl.lit 10 1) → fl.round (fl.mul a (fl.of_nat 100)) ≤ 100) where
  fmin_below : (a b : F) → le (fmin fl a b) b
  fmin_below a b = elim (Bool-cases (fl.lt b a)) [
    | inl e ↦ rw e (le_refl b)
    | inr e ↦ rw e (lt_total b a e)
  ]

  clamped_below : (a : F) → le (fmax fl (fl.lit 0 1) (fmin fl a (fl.lit 10 1))) (fl.lit 10 1)
  clamped_below a = elim (Bool-cases (fl.lt (fl.lit 0 1) (fmin fl a (fl.lit 10 1)))) [
    | inl e ↦ rw e (fmin_below a (fl.lit 10 1))
    | inr e ↦ rw e le_zero_one
  ]

  -- The score of a pair is at most 100, whatever the profiles and the preferences, on numbers among
  -- which the order of floats is total, with 0 below 1, and on which a number of at most 1 times 100
  -- rounds to at most 100.
  pub compatibility_percent :
      (seeker : Payload F) (prefs : Option MatchPreference) (recency : F) (candidate : Payload F)
      → (compatibility fl lower seeker prefs recency candidate).score ≤ 100
  unfolding compatibility as_percent
  compatibility_percent seeker prefs recency candidate = round_percent _ (clamped_below _)
