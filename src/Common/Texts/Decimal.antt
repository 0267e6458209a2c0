-- ===== src/Common/Texts/Decimal.antt =====
-- A number is read back from its decimal text, so different numbers have different texts.
use Prim.Native.Nat.{ℕ, zero, suc, ◌+◌, ◌-◌, ◌*◌, ◌/◌, ◌%◌, ◌≤◌, ◌<◌}
use mathlib.Core.Bool.{true}
use mathlib.Core.Path.{◌≡◌, refl, sym, ap, ◌∙◌}
use mathlib.Core.Logic.{inl, inr}
use mathlib.Core.List.{[], ◌∷◌, ◌++◌}
use native.Mathlib.Omega.{arith}
use date_app.Common.Tests.{Text, ltb, Bool-cases, decimal, decimal_upto}
use date_app.Common.Table.{length, take}
use date_app.Common.Texts.{zeros, zfill, is_ascii_digit, all_of, text_before}
use date_app.Common.Texts.Digits.{tens, length-zfill, digits_of_zfill}

-- The number that digits denote, after a number already read.
unfoldable pub read : Text → ℕ → ℕ
read [] a = a
read (c ∷ t) a = read t (a * 10 + (c - 48))

read-append : (t u : Text) (a : ℕ) → read (t ++ u) a ≡ read u (read t a)
unfolding read
read-append [] u a = refl
read-append (c ∷ t) u a = read-append t u (a * 10 + (c - 48))

read-decimal_upto : (fuel n : ℕ) → n < fuel → read (decimal_upto fuel n) 0 ≡ n
unfolding read decimal_upto
read-decimal_upto zero n h = absurd (omega (arith, h))
read-decimal_upto (suc fuel) n h = elim (Bool-cases (ltb n 10)) [
  | inl e ↦ rw e (ground arith)
  | inr e ↦ rw e (
      read-append (decimal_upto fuel (n / 10)) ((48 + n % 10) ∷ []) 0
      ∙ ground (arith, read-decimal_upto fuel (n / 10)))
]

pub read-decimal : (n : ℕ) → read (decimal n) 0 ≡ n
read-decimal n = read-decimal_upto (n + 1) n (omega arith)

abbrev tail : Text → Text
tail [] = []
tail (c ∷ t) = t

pub append_cancel : (b t u : Text) → b ++ t ≡ b ++ u → t ≡ u
append_cancel [] t u e = e
append_cancel (c ∷ b) t u e = append_cancel b t u (ap tail e)

pub take_all : (n : ℕ) (t : Text) → length t ≤ n → take n t ≡ t
take_all zero [] h = refl
take_all zero (c ∷ t) h = absurd (omega (arith, h))
take_all (suc n) [] h = refl
take_all (suc n) (c ∷ t) h = ap (λ u. c ∷ u) (take_all n t (omega (arith, h)))

pub length-take_text : (n : ℕ) (t : Text) → length (take n t) ≤ n
length-take_text zero t = omega arith
length-take_text (suc n) [] = omega arith
length-take_text (suc n) (c ∷ t) = omega (arith, length-take_text n t)

read-zeros : (n : ℕ) (t : Text) → read (zeros n ++ t) 0 ≡ read t 0
unfolding read zeros
read-zeros zero t = refl
read-zeros (suc n) t = read-zeros n t

-- Of two texts of digits that are as long, one after a smaller number reads smaller.
read_less :
    (t u : Text) (a b : ℕ)
    → length t ≡ length u
    → all_of is_ascii_digit t ≡ true
    → all_of is_ascii_digit u ≡ true
    → a < b
    → read t a < read u b
unfolding read all_of
read_less [] [] a b l h k o = o
read_less [] (d ∷ u) a b l h k o = absurd (omega (arith, l))
read_less (c ∷ t) [] a b l h k o = absurd (omega (arith, l))
read_less (c ∷ t) (d ∷ u) a b l h k o =
    read_less t u (a * 10 + (c - 48)) (b * 10 + (d - 48)) (omega (arith, l)) (ground (arith, h))
      (ground (arith, k)) (ground (arith, h, k, o))

-- The order of texts is that of what they read.
read_before :
    (t u : Text) (a : ℕ)
    → length t ≡ length u
    → all_of is_ascii_digit t ≡ true
    → all_of is_ascii_digit u ≡ true
    → text_before t u ≡ ltb (read t a) (read u a)
unfolding read all_of text_before
read_before [] [] a l h k = ground arith
read_before [] (d ∷ u) a l h k = absurd (omega (arith, l))
read_before (c ∷ t) [] a l h k = absurd (omega (arith, l))
read_before (c ∷ t) (d ∷ u) a l h k =
    let m : length t ≡ length u = omega (arith, l) in
    let f : all_of is_ascii_digit t ≡ true = ground (arith, h) in
    let g : all_of is_ascii_digit u ≡ true = ground (arith, k) in
    elim (Bool-cases (ltb c d)) [
      | inl e ↦
          let less =
            read_less t u (a * 10 + (c - 48)) (a * 10 + (d - 48)) m f g (ground (arith, h, k, e)) in
          ground (arith, e, less)
      | inr e ↦ elim (Bool-cases (ltb d c)) [
        | inl o ↦
            let less =
              read_less u t (a * 10 + (d - 48)) (a * 10 + (c - 48)) (sym m) g f
                (ground (arith, h, k, o)) in
            ground (arith, e, o, less)
        | inr o ↦
            let same : c ≡ d = ground (arith, e, o) in
            rw (e, o)
              (read_before t u (a * 10 + (c - 48)) m f g
                ∙ ap (λ x. ltb (read t (a * 10 + (c - 48))) (read u (a * 10 + (x - 48)))) same)
      ]
    ]

-- Numbers of at most so many digits are ordered as their texts after `zfill` are.
pub zfill_before :
    (k m n : ℕ)
    → m < tens (suc k)
    → n < tens (suc k)
    → text_before (zfill (suc k) (decimal m)) (zfill (suc k) (decimal n)) ≡ ltb m n
zfill_before k m n h l =
    read_before (zfill (suc k) (decimal m)) (zfill (suc k) (decimal n)) 0
      (length-zfill k m h ∙ sym (length-zfill k n l)) (digits_of_zfill (suc k) m)
      (digits_of_zfill (suc k) n)
    ∙ ap (λ x. ltb x (read (zfill (suc k) (decimal n)) 0))
        (read-zeros _ (decimal m) ∙ read-decimal m)
    ∙ ap (ltb m) (read-zeros _ (decimal n) ∙ read-decimal n)
