-- ===== src/Common/Table/Lookup.antt =====
-- What the queries and updates of a table find.
use Prim.Native.Nat.{suc}
use mathlib.Core.Path.{◌≡◌, refl, ap}
use mathlib.Core.Bool.{Bool, true, false}
use mathlib.Core.Option.{none, some}
use mathlib.Core.List.{List, [], ◌∷◌}
use native.Mathlib.Omega.{arith}
use date_app.Common.Table.{length, first_where, exists_where, update_where}

module _ {ℓ} {A : Type ℓ} where
  pub first_where-holds :
      (p : A → Bool) (xs : List A) (a : A) → first_where p xs ≡ some a → p a ≡ true
  unfolding first_where
  first_where-holds p [] a e = cc
  first_where-holds p (x ∷ xs) a e = ground (arith, first_where-holds p xs a)

  pub exists_of_first :
      (p q : A → Bool) (xs : List A) (a : A)
      → first_where p xs ≡ some a
      → q a ≡ true
      → exists_where q xs ≡ true
  unfolding first_where exists_where
  exists_of_first p q [] a e h = cc
  exists_of_first p q (x ∷ xs) a e h = ground (arith, exists_of_first p q xs a)

  pub exists_of_none :
      (p : A → Bool) (xs : List A) → first_where p xs ≡ none → exists_where p xs ≡ false
  unfolding first_where exists_where
  exists_of_none p [] e = refl
  exists_of_none p (x ∷ xs) e = ground (arith, exists_of_none p xs)

  pub none_of_exists :
      (p : A → Bool) (xs : List A) → exists_where p xs ≡ false → first_where p xs ≡ none
  unfolding first_where exists_where
  none_of_exists p [] e = refl
  none_of_exists p (x ∷ xs) e = ground (arith, none_of_exists p xs)

  -- An update that leaves a test alone leaves `exists` alone.
  pub exists-update :
      (q p : A → Bool) (f : A → A) (xs : List A)
      → ((x : A) → q (f x) ≡ q x)
      → exists_where q (update_where p f xs) ≡ exists_where q xs
  unfolding exists_where update_where
  exists-update q p f [] h = refl
  exists-update q p f (x ∷ xs) h = ground (arith, h x, exists-update q p f xs h)

  -- An update of the rows that meet a test leaves none that meets it, if it makes the test fail.
  pub exists-update_self :
      (q : A → Bool) (f : A → A) (xs : List A)
      → ((x : A) → q (f x) ≡ false)
      → exists_where q (update_where q f xs) ≡ false
  unfolding exists_where update_where
  exists-update_self q f [] h = refl
  exists-update_self q f (x ∷ xs) h = ground (arith, h x, exists-update_self q f xs h)

  pub first-update :
      (q p : A → Bool) (f : A → A) (xs : List A)
      → ((x : A) → q (f x) ≡ q x)
      → first_where q xs ≡ none
      → first_where q (update_where p f xs) ≡ none
  unfolding first_where update_where
  first-update q p f [] h e = refl
  first-update q p f (x ∷ xs) h e = ground (arith, h x, first-update q p f xs h)

  pub length-update :
      (p : A → Bool) (f : A → A) (xs : List A) → length (update_where p f xs) ≡ length xs
  unfolding update_where
  length-update p f [] = refl
  length-update p f (x ∷ xs) = ap suc (length-update p f xs)

  -- The row that an update by its own test has changed is the one found by that test.
  pub first-update_self :
      (p : A → Bool) (f : A → A) (xs : List A) (a : A)
      → ((x : A) → p (f x) ≡ p x)
      → first_where p xs ≡ some a
      → first_where p (update_where p f xs) ≡ some (f a)
  unfolding first_where update_where
  first-update_self p f [] a h e = cc
  first-update_self p f (x ∷ xs) a h e = ground (arith, h x, first-update_self p f xs a h)

  -- The row that a test finds is found by it after an update of rows that keeps the test.
  pub first-update_found :
      (q p : A → Bool) (f : A → A) (xs : List A) (a : A)
      → ((x : A) → q (f x) ≡ q x)
      → first_where q xs ≡ some a
      → p a ≡ true
      → first_where q (update_where p f xs) ≡ some (f a)
  unfolding first_where update_where
  first-update_found q p f [] a h e t = cc
  first-update_found q p f (x ∷ xs) a h e t = ground (arith, h x, first-update_found q p f xs a h)

  -- A row that is found is none that does not exist.
  pub absent_of_first :
      (q p : A → Bool) (xs : List A) (a : A)
      → exists_where q xs ≡ false
      → first_where p xs ≡ some a
      → q a ≡ false
  unfolding first_where exists_where
  absent_of_first q p [] a h e = cc
  absent_of_first q p (x ∷ xs) a h e = ground (arith, absent_of_first q p xs a)

  pub exists_weaken :
      (q r : A → Bool) (xs : List A)
      → ((x : A) → q x ≡ true → r x ≡ true)
      → exists_where r xs ≡ false
      → exists_where q xs ≡ false
  unfolding exists_where
  exists_weaken q r [] h e = refl
  exists_weaken q r (x ∷ xs) h e = ground (arith, h x, exists_weaken q r xs h)
