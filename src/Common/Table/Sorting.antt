-- ===== src/Common/Table/Sorting.antt =====
-- Python's stable `sort` and Django's `order_by`, by a test that says which row does not come after
-- another.
use Prim.Native.Nat.{ℕ, zero, suc, ◌+◌, ◌≤◌}
use mathlib.Core.Path.{◌≡◌, refl, ap, ◌∙◌}
use mathlib.Core.Bool.{Bool, true, false}
use mathlib.Core.List.{List, [], ◌∷◌}
use mathlib.Core.Logic.{inl, inr}
use native.Mathlib.Omega.{arith}
use date_app.Common.Tests.{Bool-cases, if◌then◌else◌}
use date_app.Common.Table.{length, take, count_where, All}

module _ {ℓ} {A : Type ℓ} (before : A → A → Bool) where
  unfoldable pub insert_by : A → List A → List A
  insert_by x [] = x ∷ []
  insert_by x (y ∷ ys) = let rest = insert_by x ys in if before x y then x ∷ y ∷ ys else y ∷ rest

  unfoldable pub sort_by : List A → List A
  unfolding insert_by
  sort_by [] = []
  sort_by (x ∷ xs) = insert_by x (sort_by xs)

  -- Each row comes before all later ones.
  abbrev pub Sorted : List A → Type 0
  Sorted [] = Unit
  Sorted (x ∷ xs) = All (λ y. before x y ≡ true) xs × Sorted xs

module _ {ℓ} {A : Type ℓ} where
  pub All-mono : (P Q : A → Type 0) (xs : List A) → ((x : A) → P x → Q x) → All P xs → All Q xs
  All-mono P Q [] h a = tt
  All-mono P Q (x ∷ xs) h (p, a) = (h x p, All-mono P Q xs h a)

  pub All-take : (P : A → Type 0) (n : ℕ) (xs : List A) → All P xs → All P (take n xs)
  All-take P zero xs a = tt
  All-take P (suc n) [] a = tt
  All-take P (suc n) (x ∷ xs) (p, a) = (p, All-take P n xs a)

  pub length-take : (n : ℕ) (xs : List A) → length (take n xs) ≤ n
  length-take zero xs = omega arith
  length-take (suc n) [] = omega arith
  length-take (suc n) (x ∷ xs) = omega (arith, length-take n xs)

module _ {ℓ} {A : Type ℓ} (before : A → A → Bool) where
  pub All-insert :
      (P : A → Type 0) (x : A) (xs : List A) → P x → All P xs → All P (insert_by before x xs)
  unfolding insert_by
  All-insert P x [] p a = (p, tt)
  All-insert P x (y ∷ ys) p (q, a) = elim (Bool-cases (before x y)) [
    | inl e ↦ rw e (p, (q, a))
    | inr e ↦ rw e (q, All-insert P x ys p a)
  ]

  -- What holds of every row holds of every row of the sorted list.
  pub All-sort : (P : A → Type 0) (xs : List A) → All P xs → All P (sort_by before xs)
  unfolding sort_by
  All-sort P [] a = tt
  All-sort P (x ∷ xs) (p, a) = All-insert P x (sort_by before xs) p (All-sort P xs a)

  length-insert : (x : A) (xs : List A) → length (insert_by before x xs) ≡ suc (length xs)
  unfolding insert_by
  length-insert x [] = refl
  length-insert x (y ∷ ys) = elim (Bool-cases (before x y)) [
    | inl e ↦ rw e refl
    | inr e ↦ rw e (ap suc (length-insert x ys))
  ]

  pub length-sort : (xs : List A) → length (sort_by before xs) ≡ length xs
  unfolding sort_by
  length-sort [] = refl
  length-sort (x ∷ xs) = length-insert x (sort_by before xs) ∙ ap suc (length-sort xs)

  count-insert :
      (p : A → Bool) (x : A) (xs : List A)
      → count_where p (insert_by before x xs) ≡ (if p x then 1 else 0) + count_where p xs
  unfolding insert_by count_where
  count-insert p x [] = refl
  count-insert p x (y ∷ ys) = elim (Bool-cases (before x y)) [
    | inl e ↦ rw e refl
    | inr e ↦ rw e (omega (arith, count-insert p x ys))
  ]

  -- The sorted list has the same rows.
  pub count-sort :
      (p : A → Bool) (xs : List A) → count_where p (sort_by before xs) ≡ count_where p xs
  unfolding sort_by count_where
  count-sort p [] = refl
  count-sort p (x ∷ xs) = count-insert p x (sort_by before xs) ∙ omega (arith, count-sort p xs)

  Sorted-take : (n : ℕ) (xs : List A) → Sorted before xs → Sorted before (take n xs)
  Sorted-take zero xs s = tt
  Sorted-take (suc n) [] s = tt
  Sorted-take (suc n) (x ∷ xs) (a, s) =
      (All-take (λ y. before x y ≡ true) n xs a, Sorted-take n xs s)

  module _ (total : (x y : A) → before x y ≡ false → before y x ≡ true)
      (trans : (x y z : A) → before x y ≡ true → before y z ≡ true → before x z ≡ true) where
    insert-Sorted : (x : A) (xs : List A) → Sorted before xs → Sorted before (insert_by before x xs)
    unfolding insert_by
    insert-Sorted x [] s = (tt, tt)
    insert-Sorted x (y ∷ ys) (a, s) = elim (Bool-cases (before x y)) [
      | inl e ↦ rw e (
        (e, All-mono (λ z. before y z ≡ true) (λ z. before x z ≡ true) ys (λ z. trans x y z e) a),
        (a, s),
      )
      | inr e ↦
          rw e (All-insert (λ z. before y z ≡ true) x ys (total x y e) a, insert-Sorted x ys s)
    ]

    sort-Sorted : (xs : List A) → Sorted before (sort_by before xs)
    unfolding sort_by
    sort-Sorted [] = tt
    sort-Sorted (x ∷ xs) = insert-Sorted x (sort_by before xs) (sort-Sorted xs)

    -- The first rows of a sorted list are sorted.
    pub top-Sorted : (n : ℕ) (xs : List A) → Sorted before (take n (sort_by before xs))
    top-Sorted n xs = Sorted-take n (sort_by before xs) (sort-Sorted xs)
