-- ===== src/Common/Texts/Digits.antt =====
-- Texts of decimal digits: what Python's `str`, `zfill`, `strip` and `replace` make of them.
use Prim.Native.Nat.{ℕ, zero, suc, ◌+◌, ◌-◌, ◌*◌, ◌/◌, ◌%◌, ◌≤◌, ◌<◌}
use mathlib.Core.Path.{◌≡◌, refl, ap}
use mathlib.Core.Logic.{inl, inr}
use mathlib.Core.Bool.{Bool, true}
use mathlib.Core.List.{[], ◌∷◌, ◌++◌}
use native.Mathlib.Omega.{arith}
use date_app.Common.Tests.{Text, ltb, Bool-cases, decimal, decimal_upto}
use date_app.Common.Table.{length}
use date_app.Common.Table.Update.{length-append}
use date_app.Common.Texts.{
  strip_left, strip_right, strip, without_spaces, zeros, zfill, is_ascii_digit, all_of,
}

pub all_append :
    (p : ℕ → Bool) (t u : Text) → all_of p t ≡ true → all_of p u ≡ true → all_of p (t ++ u) ≡ true
unfolding all_of
all_append p [] u h k = k
all_append p (c ∷ t) u h k = ground (arith, all_append p t u)

digits_of_decimal : (fuel n : ℕ) → all_of is_ascii_digit (decimal_upto fuel n) ≡ true
unfolding all_of decimal_upto
digits_of_decimal zero n = refl
digits_of_decimal (suc fuel) n = elim (Bool-cases (ltb n 10)) [
  | inl e ↦ rw e (ground (arith, e))
  | inr e ↦ rw e (
      all_append is_ascii_digit (decimal_upto fuel (n / 10)) ((48 + n % 10) ∷ [])
        (digits_of_decimal fuel (n / 10)) (ground arith))
]

digits_of_zeros : (n : ℕ) → all_of is_ascii_digit (zeros n) ≡ true
unfolding all_of zeros
digits_of_zeros zero = refl
digits_of_zeros (suc n) = digits_of_zeros n

length-zeros : (n : ℕ) → length (zeros n) ≡ n
unfolding zeros
length-zeros zero = refl
length-zeros (suc n) = ap suc (length-zeros n)

-- A power of ten.
unfoldable pub tens : ℕ → ℕ
tens zero = 1
tens (suc k) = 10 * tens k

pub length-decimal : (fuel k n : ℕ) → n < tens (suc k) → length (decimal_upto fuel n) ≤ suc k
unfolding tens decimal_upto
length-decimal zero k n h = omega arith
length-decimal (suc fuel) zero n h = ground arith
length-decimal (suc fuel) (suc k) n h = elim (Bool-cases (ltb n 10)) [
  | inl e ↦ rw e (omega arith)
  | inr e ↦ rw e (
      omega (
        arith,
        length-append (decimal_upto fuel (n / 10)) ((48 + n % 10) ∷ []),
        length-decimal fuel k (n / 10) (omega arith),
      ))
]

module _ (k n : ℕ) where
  pub digits_of_zfill : all_of is_ascii_digit (zfill k (decimal n)) ≡ true
  digits_of_zfill = all_append is_ascii_digit _ _ (digits_of_zeros _) (digits_of_decimal (n + 1) n)

  -- A number of at most so many digits has exactly so many after `zfill`.
  pub length-zfill : n < tens (suc k) → length (zfill (suc k) (decimal n)) ≡ suc k
  length-zfill h = omega (
    arith,
    length-append (zeros (suc k - length (decimal n))) (decimal n),
    length-zeros (suc k - length (decimal n)),
    length-decimal (n + 1) k n h,
  )

strip_left-digits : (t : Text) → all_of is_ascii_digit t ≡ true → strip_left t ≡ t
unfolding all_of strip_left
strip_left-digits [] h = refl
strip_left-digits (c ∷ t) h = ground arith

strip_right-digits : (t : Text) → all_of is_ascii_digit t ≡ true → strip_right t ≡ t
unfolding all_of strip_right
strip_right-digits [] h = refl
strip_right-digits (c ∷ t) h = ground (arith, strip_right-digits t)

pub strip-digits : (t : Text) → all_of is_ascii_digit t ≡ true → strip t ≡ t
unfolding strip
strip-digits t h = rw (strip_left-digits t h) (strip_right-digits t h)

pub without_spaces-digits : (t : Text) → all_of is_ascii_digit t ≡ true → without_spaces t ≡ t
unfolding all_of without_spaces
without_spaces-digits [] h = refl
without_spaces-digits (c ∷ t) h = ground (arith, without_spaces-digits t)

-- Digits in the sense of ASCII are digits in any wider sense.
pub all_weaken :
    (p q : ℕ → Bool) (t : Text)
    → ((c : ℕ) → p c ≡ true → q c ≡ true)
    → all_of p t ≡ true
    → all_of q t ≡ true
unfolding all_of
all_weaken p q [] h e = refl
all_weaken p q (c ∷ t) h e = ground (arith, h c, all_weaken p q t h)
