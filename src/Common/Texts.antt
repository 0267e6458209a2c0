-- ===== src/Common/Texts.antt =====
-- Python's operations on texts, as lists of code points.
pub mod Digits
pub mod Decimal
use Prim.Native.Nat.{ℕ, zero, suc, ◌+◌, ◌-◌, ◌*◌, ◌/◌, ◌%◌, ◌≤◌, ◌<◌}
use mathlib.Core.Path.{◌≡◌, refl, ap}
use mathlib.Core.Logic.{inl, inr}
use mathlib.Core.Bool.{Bool, true, false, not, ◌&&◌, ◌||◌}
use mathlib.Core.List.{List, [], ◌∷◌, ◌++◌}
use native.Mathlib.Omega.{arith}
use date_app.Common.Tests.{
  Text, is_empty, ◌==◌, leb, ltb, if◌then◌else◌, ==_refl, Bool-cases, decimal, decimal_upto,
}
use date_app.Common.Table.{length, All}
use date_app.Common.Table.Update.{length-append}

-- Two texts are the same.
unfoldable pub same_text : Text → Text → Bool
same_text [] [] = true
same_text [] (d ∷ u) = false
same_text (c ∷ t) [] = false
same_text (c ∷ t) (d ∷ u) = c == d && same_text t u

pub same_text_refl : (t : Text) → same_text t t ≡ true
unfolding same_text
same_text_refl [] = refl
same_text_refl (c ∷ t) = ground (arith, ==_refl c, same_text_refl t)

pub eq_of_same_text : (t u : Text) → same_text t u ≡ true → t ≡ u
unfolding same_text
eq_of_same_text [] [] h = refl
eq_of_same_text [] (d ∷ u) h = cc
eq_of_same_text (c ∷ t) [] h = cc
eq_of_same_text (c ∷ t) (d ∷ u) h = ground (arith, eq_of_same_text t u)

-- The code points that Python takes for white space.
abbrev pub is_space : ℕ → Bool
is_space c =
    (leb 9 c && leb c 13)
    || (leb 28 c && leb c 32)
    || c == 133
    || c == 160
    || c == 5760
    || (leb 8192 c && leb c 8202)
    || c == 8232
    || c == 8233
    || c == 8239
    || c == 8287
    || c == 12288

-- `t.lstrip()`
unfoldable pub strip_left : Text → Text
strip_left [] = []
strip_left (c ∷ t) = if is_space c then strip_left t else c ∷ t

-- `t.rstrip()`
unfoldable pub strip_right : Text → Text
strip_right [] = []
strip_right (c ∷ t) =
    let rest = strip_right t in if is_space c && is_empty rest then [] else c ∷ rest

-- `t.strip()`
unfoldable pub strip : Text → Text
unfolding strip_left strip_right
strip t = strip_right (strip_left t)

-- `t.replace(" ", "")`
unfoldable pub without_spaces : Text → Text
without_spaces [] = []
without_spaces (c ∷ t) = let rest = without_spaces t in if c == 32 then rest else c ∷ rest

-- `t.zfill(width)` of digits.
unfoldable pub zeros : ℕ → Text
zeros zero = []
zeros (suc n) = 48 ∷ zeros n

abbrev pub zfill : ℕ → Text → Text
zfill width t = zeros (width - length t) ++ t

abbrev pub is_ascii_digit : ℕ → Bool
is_ascii_digit c = leb 48 c && leb c 57

unfoldable pub all_of : (ℕ → Bool) → Text → Bool
all_of p [] = true
all_of p (c ∷ t) = p c && all_of p t

-- `t < u` of texts.
unfoldable pub text_before : Text → Text → Bool
text_before [] [] = false
text_before [] (d ∷ u) = true
text_before (c ∷ t) [] = false
text_before (c ∷ t) (d ∷ u) =
    let rest = text_before t u in if ltb c d then true else if ltb d c then false else rest
