-- ===== src/Common/Table/Update.antt =====
-- Updates and deletions of a table, row by row.
use Prim.Native.Nat.{◌+◌}
use mathlib.Core.Path.{◌≡◌, refl, subst}
use mathlib.Core.Bool.{Bool, true, false}
use mathlib.Core.Option.{some}
use mathlib.Core.List.{List, [], ◌∷◌, ◌++◌}
use native.Mathlib.Omega.{arith}
use date_app.Common.Tests.{if◌then◌else◌, Bool-cases}
use mathlib.Core.Logic.{inl, inr}
use date_app.Common.Table.{
  length, first_where, filter_by, exists_where, update_where, delete_where, Distinct, All,
}
use date_app.Common.Table.Lookup.{exists-update, absent_of_first}

module _ {ℓ} {A : Type ℓ} where
  pub All-update :
      (P : A → Type 0) (p : A → Bool) (f : A → A) (xs : List A)
      → ((x : A) → p x ≡ true → P x → P (f x))
      → All P xs
      → All P (update_where p f xs)
  unfolding update_where
  All-update P p f [] h a = tt
  All-update P p f (x ∷ xs) h a = (head (p x) refl, All-update P p f xs h a.1)
    where
      head : (b : Bool) → p x ≡ b → P (if b then f x else x)
      head true e = h x e a.0
      head false e = a.0

  -- What holds of every row holds of the row that is found.
  pub All-first :
      (P : A → Type 0) (p : A → Bool) (xs : List A) (a : A)
      → All P xs
      → first_where p xs ≡ some a
      → P a
  unfolding first_where
  All-first P p [] a h e = absurd (ground arith)
  All-first P p (x ∷ xs) a h e = elim (Bool-cases (p x)) [
    | inl found ↦ subst P (ground arith) h.0
    | inr later ↦ All-first P p xs a h.1 (ground arith)
  ]

  -- A row that is found is found after a deletion that spares it.
  pub first-delete :
      (q p : A → Bool) (xs : List A) (a : A)
      → first_where q xs ≡ some a
      → p a ≡ false
      → first_where q (delete_where p xs) ≡ some a
  unfolding first_where delete_where
  first-delete q p [] a e h = cc
  first-delete q p (x ∷ xs) a e h = ground (arith, first-delete q p xs a)

  pub All-delete :
      (P Q : A → Type 0) (p : A → Bool) (xs : List A)
      → ((x : A) → p x ≡ false → P x → Q x)
      → All P xs
      → All Q (delete_where p xs)
  unfolding delete_where
  All-delete P Q p [] h a = tt
  All-delete P Q p (x ∷ xs) h (k, a) = elim (Bool-cases (p x)) [
    | inl e ↦ rw e (All-delete P Q p xs h a)
    | inr e ↦ rw e (h x e k, All-delete P Q p xs h a)
  ]

  -- A deletion of rows that fail a test leaves `exists` alone.
  pub exists-delete_apart :
      (q p : A → Bool) (xs : List A)
      → ((x : A) → p x ≡ true → q x ≡ false)
      → exists_where q (delete_where p xs) ≡ exists_where q xs
  unfolding exists_where delete_where
  exists-delete_apart q p [] h = refl
  exists-delete_apart q p (x ∷ xs) h = ground (arith, h x, exists-delete_apart q p xs h)

  pub exists-delete_self : (p : A → Bool) (xs : List A) → exists_where p (delete_where p xs) ≡ false
  unfolding exists_where delete_where
  exists-delete_self p [] = refl
  exists-delete_self p (x ∷ xs) = ground (arith, exists-delete_self p xs)

  -- Nothing new exists after a deletion.
  pub exists-delete :
      (q p : A → Bool) (xs : List A)
      → exists_where q xs ≡ false
      → exists_where q (delete_where p xs) ≡ false
  unfolding exists_where delete_where
  exists-delete q p [] h = refl
  exists-delete q p (x ∷ xs) h = ground (arith, exists-delete q p xs)

  -- A deletion of every row that meets a test leaves none.
  pub exists-delete_all :
      (q p : A → Bool) (xs : List A)
      → ((x : A) → q x ≡ true → p x ≡ true)
      → exists_where q (delete_where p xs) ≡ false
  unfolding exists_where delete_where
  exists-delete_all q p [] h = refl
  exists-delete_all q p (x ∷ xs) h = ground (arith, h x, exists-delete_all q p xs h)

  -- Under a unique constraint, a row that is found is the one found by its key.
  pub first_of_Distinct :
      (same : A → A → Bool) (p : A → Bool) (xs : List A) (a : A)
      → ((x : A) → same x x ≡ true)
      → ((x y : A) → same x y ≡ same y x)
      → Distinct same xs
      → first_where p xs ≡ some a
      → first_where (same a) xs ≡ some a
  unfolding first_where
  first_of_Distinct same p [] a r c d e = cc
  first_of_Distinct same p (x ∷ xs) a r c d e = elim (Bool-cases (p x)) [
    | inl found ↦ ground (arith, r x)
    | inr later ↦
        ground
          (arith, c x a, absent_of_first (same x) p xs a d.0, first_of_Distinct same p xs a r c d.1)
  ]

  pub update_absent :
      (p : A → Bool) (f : A → A) (xs : List A)
      → exists_where p xs ≡ false
      → update_where p f xs ≡ xs
  unfolding exists_where update_where
  update_absent p f [] h = refl
  update_absent p f (x ∷ xs) h = ground (arith, update_absent p f xs)

  -- An update between rows that fail a test leaves `exists` alone.
  pub exists-update_apart :
      (q p : A → Bool) (f : A → A) (xs : List A)
      → ((x : A) → p x ≡ true → q x ≡ false)
      → ((x : A) → p x ≡ true → q (f x) ≡ false)
      → exists_where q (update_where p f xs) ≡ exists_where q xs
  unfolding exists_where update_where
  exists-update_apart q p f [] h k = refl
  exists-update_apart q p f (x ∷ xs) h k =
      ground (arith, h x, k x, exists-update_apart q p f xs h k)

  pub exists_of_filter :
      (p : A → Bool) (xs : List A)
      → exists_where p xs ≡ elim (filter_by p xs) [ [] ↦ false | _ ∷ _ ↦ true ]
  unfolding exists_where filter_by
  exists_of_filter p [] = refl
  exists_of_filter p (x ∷ xs) = ground (arith, exists_of_filter p xs)

  -- An update by a disjoint test leaves the row that a test finds.
  pub first-update_other :
      (q p : A → Bool) (f : A → A) (xs : List A)
      → ((x : A) → q (f x) ≡ q x)
      → ((x : A) → p x ≡ true → q x ≡ false)
      → first_where q (update_where p f xs) ≡ first_where q xs
  unfolding first_where update_where
  first-update_other q p f [] h d = refl
  first-update_other q p f (x ∷ xs) h d = ground (arith, h x, d x, first-update_other q p f xs h d)

  pub length-append : (xs ys : List A) → length (xs ++ ys) ≡ length xs + length ys
  length-append [] ys = omega arith
  length-append (x ∷ xs) ys = omega (arith, length-append xs ys)

  pub first_congr :
      (p q : A → Bool) (xs : List A) → ((x : A) → p x ≡ q x) → first_where p xs ≡ first_where q xs
  unfolding first_where
  first_congr p q [] h = refl
  first_congr p q (x ∷ xs) h = ground (arith, h x, first_congr p q xs h)

  pub exists_congr :
      (p q : A → Bool) (xs : List A) → ((x : A) → p x ≡ q x) → exists_where p xs ≡ exists_where q xs
  unfolding exists_where
  exists_congr p q [] h = refl
  exists_congr p q (x ∷ xs) h = ground (arith, h x, exists_congr p q xs h)

  pub Distinct-update :
      (same : A → A → Bool) (p : A → Bool) (f : A → A) (xs : List A)
      → ((x y : A) → same x (f y) ≡ same x y)
      → ((x y : A) → same (f x) y ≡ same x y)
      → Distinct same xs
      → Distinct same (update_where p f xs)
  unfolding update_where
  Distinct-update same p f [] r l d = tt
  Distinct-update same p f (x ∷ xs) r l d = (head (p x), Distinct-update same p f xs r l d.1)
    where
      same_row : (y : A) → exists_where (same y) (update_where p f xs) ≡ exists_where (same y) xs
      same_row y = exists-update (same y) p f xs (r y)

      ext : exists_where (same (f x)) xs ≡ exists_where (same x) xs
      ext = exists_congr (same (f x)) (same x) xs (l x)

      head : (b : Bool) → exists_where (same (if b then f x else x)) (update_where p f xs) ≡ false
      head true = ground (arith, same_row (f x), ext)
      head false = ground (arith, same_row x)
