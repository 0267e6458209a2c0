-- ===== src/Common/Table/Pigeonhole.antt =====
-- More keys than rows: one of the keys is free.
use Prim.Native.Nat.{ℕ, zero, suc, ◌+◌, ◌≤◌, ◌<◌}
use mathlib.Core.Path.{◌≡◌, refl}
use mathlib.Core.Bool.{Bool, true, false}
use mathlib.Core.List.{List, [], ◌∷◌, ◌++◌}
use mathlib.Core.Logic.{inl, inr}
use native.Mathlib.Omega.{arith}
use date_app.Common.Tests.{Bool-cases, ◌==◌}
use date_app.Common.Table.{length, exists_where, delete_where, Distinct, All}
use date_app.Common.Table.Update.{exists-delete, All-delete}

pub delete_absent {ℓ} :
    {A : Type ℓ} (p : A → Bool) (xs : List A) → exists_where p xs ≡ false → delete_where p xs ≡ xs
unfolding exists_where delete_where
delete_absent p [] h = refl
delete_absent p (x ∷ xs) h = ground (arith, delete_absent p xs)

pub Distinct-delete {ℓ} :
    {A : Type ℓ} (same : A → A → Bool) (p : A → Bool) (xs : List A)
    → Distinct same xs
    → Distinct same (delete_where p xs)
unfolding delete_where
Distinct-delete same p [] d = tt
Distinct-delete same p (x ∷ xs) (h, d) = elim (Bool-cases (p x)) [
  | inl e ↦ rw e (Distinct-delete same p xs d)
  | inr e ↦ rw e (exists-delete (same x) p xs h, Distinct-delete same p xs d)
]

exists_append_one {ℓ} :
    {A : Type ℓ} (p : A → Bool) (xs : List A) (x : A)
    → exists_where p xs ≡ false
    → p x ≡ false
    → exists_where p (xs ++ x ∷ []) ≡ false
unfolding exists_where
exists_append_one p [] x h k = ground arith
exists_append_one p (y ∷ xs) x h k = ground (arith, exists_append_one p xs x)

-- A row with a new key may be added at the end.
pub Distinct-append {ℓ} :
    {A : Type ℓ} (same : A → A → Bool) (xs : List A) (x : A)
    → exists_where (λ y. same y x) xs ≡ false
    → Distinct same xs
    → Distinct same (xs ++ x ∷ [])
unfolding exists_where
Distinct-append same [] x e d = (refl, tt)
Distinct-append same (y ∷ xs) x e (h, d) =
    (exists_append_one (same y) xs x h (ground arith), Distinct-append same xs x (ground arith) d)

-- The numbers from one on.
unfoldable pub from : ℕ → ℕ → List ℕ
from a zero = []
from a (suc n) = a ∷ from (a + 1) n

abbrev pub same_number : ℕ → ℕ → Bool
same_number a b = a == b

from_past : (a b n : ℕ) → a < b → exists_where (same_number a) (from b n) ≡ false
unfolding exists_where from
from_past a b zero h = refl
from_past a b (suc n) h = ground (arith, from_past a (b + 1) n)

pub from-Distinct : (a n : ℕ) → Distinct same_number (from a n)
unfolding from
from-Distinct a zero = tt
from-Distinct a (suc n) = (from_past a (a + 1) n (omega arith), from-Distinct (a + 1) n)

pub length-from : (a n : ℕ) → length (from a n) ≡ n
unfolding from
length-from a zero = refl
length-from a (suc n) = omega (arith, length-from (a + 1) n)

module _ {A : Type 0} (hits : A → ℕ → Bool) (P : ℕ → Type 0)
    (apart : (u : A) (i j : ℕ) → P i → P j → hits u i ≡ true → hits u j ≡ true → i ≡ j) where
  none_hit :
      (u : A) (i : ℕ) (js : List ℕ)
      → P i
      → hits u i ≡ true
      → All P js
      → exists_where (same_number i) js ≡ false
      → exists_where (hits u) js ≡ false
  unfolding exists_where
  none_hit u i [] p h ps e = refl
  none_hit u i (j ∷ js) p h (q, ps) e = elim (Bool-cases (hits u j)) [
    | inl k ↦ absurd (ground (arith, e, apart u i j p q h k))
    | inr k ↦ ground (arith, k, e, none_hit u i js p h ps)
  ]

  length-delete_hit :
      (u : A) (js : List ℕ)
      → All P js
      → Distinct same_number js
      → length js ≤ length (delete_where (hits u) js) + 1
  unfolding delete_where
  length-delete_hit u [] ps d = omega arith
  length-delete_hit u (j ∷ js) (p, ps) (e, d) = elim (Bool-cases (hits u j)) [
    | inl h ↦ rw (h, delete_absent (hits u) js (none_hit u j js p h ps e)) (omega arith)
    | inr h ↦ rw h (omega (arith, length-delete_hit u js ps d))
  ]

  -- When every key is the key of some row, there are no more keys than rows.
  pub pigeonhole :
      (us : List A) (js : List ℕ)
      → All P js
      → Distinct same_number js
      → All (λ j. exists_where (λ u. hits u j) us ≡ true) js
      → length js ≤ length us
  unfolding exists_where
  pigeonhole [] [] ps d h = omega arith
  pigeonhole [] (j ∷ js) ps d (h, _) = absurd (ground (arith, h))
  pigeonhole (u ∷ us) js ps d h =
      let later =
        pigeonhole us (delete_where (hits u) js) (All-delete P P (hits u) js (λ j e p. p) ps)
          (Distinct-delete same_number (hits u) js d)
          (All-delete (λ j. exists_where (λ u. hits u j) (u ∷ us) ≡ true)
            (λ j. exists_where (λ u. hits u j) us ≡ true) (hits u) js
            (λ j e g. ground (arith, e, g)) h) in
      omega (arith, later, length-delete_hit u js ps d)
