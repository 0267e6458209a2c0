-- ===== src/Matches/Pairs.antt =====
-- MatchService: the canonical pair of apps/matches/models.py, and the unique constraint on it, kept
-- by every call of apps/matches/services.py.
use date_app.Common.{
  ℕ, ◌≤◌, ◌≡◌, refl, inl, inr, Bool, false, Option, none, some, List, [], ◌∷◌, arith, Text, ◌==◌,
  first_where, exists_where, update_where, Distinct, All, Option-cases, Bool-cases, exists_of_none,
  Distinct-update,
}
use date_app.Matches.{
  Match, MatchOrigin, MatchStatus, Store, is_pair, is_active, order_pair, revive, create_with,
  create, end_match, end_all_for_pair, end_all_for_user, touch, touched,
}

-- The two orders of a pair name one row.
pub order_pair_comm : (a b : ℕ) → order_pair a b ≡ order_pair b a
unfolding order_pair
order_pair_comm a b = ground arith

pub order_pair-le : (a b : ℕ) → (order_pair a b).0 ≤ (order_pair a b).1
unfolding order_pair
order_pair-le a b = ground arith

abbrev pub same_pair : Match → Match → Bool
same_pair m n = is_pair (m.user_low, m.user_high) n

abbrev pub same_id : Match → Match → Bool
same_id m n = n.id == m.id

abbrev pub IsOrdered : Match → Type 0
IsOrdered m = m.user_low ≤ m.user_high

-- The unique constraint on the pair, the primary key, and the canonical order.
pub record IsValid (s : Store) : Type 0 where
  pub ordered : All IsOrdered s.matches
  pub one_per_pair : Distinct same_pair s.matches
  pub one_per_id : Distinct same_id s.matches

All-update :
    (p : Match → Bool) (f : Match → Match) (xs : List Match)
    → ((x : Match) → IsOrdered x → IsOrdered (f x))
    → All IsOrdered xs
    → All IsOrdered (update_where p f xs)
unfolding update_where
All-update p f [] h a = tt
All-update p f (x ∷ xs) h a = ground (arith, h x, All-update p f xs h a.1)

-- A row written back keeps its key.
abbrev KeepsKey : (Match → Match) → Type 0
KeepsKey f =
    (x : Match)
    → ((f x).id ≡ x.id) × ((f x).user_low ≡ x.user_low) × ((f x).user_high ≡ x.user_high)

pub update-IsValid :
    (p : Match → Bool) (f : Match → Match) (s t : Store)
    → KeepsKey f
    → t.matches ≡ update_where p f s.matches
    → IsValid s
    → IsValid t
update-IsValid p f s t k e v = record {
  ordered = rw e (All-update p f s.matches (λ x h. ground (arith, k x)) v.ordered);
  one_per_pair = rw e (
      Distinct-update same_pair p f s.matches (λ x y. ground (arith, k y))
        (λ x y. ground (arith, k x)) v.one_per_pair);
  one_per_id = rw e (
      Distinct-update same_id p f s.matches (λ x y. ground (arith, k y))
        (λ x y. ground (arith, k x)) v.one_per_id);
}

module _ (id now a b : ℕ) (origin : MatchOrigin) (score : Option ℕ) (s : Store) where
  create_with-IsValid :
      (found : Option Match)
      → first_where (is_pair (order_pair a b)) s.matches ≡ found
      → exists_where (λ m. m.id == id) s.matches ≡ false
      → IsValid s
      → IsValid (create_with found id now (order_pair a b) origin score s).1
  unfolding create_with
  create_with-IsValid none e fresh v = record {
    ordered = (order_pair-le a b, v.ordered);
    one_per_pair = (exists_of_none _ s.matches e, v.one_per_pair);
    one_per_id = (fresh, v.one_per_id);
  }
  create_with-IsValid (some m) e fresh v = elim (Bool-cases (is_active m)) [
    | inl live ↦ rw live v
    | inr ended ↦
        rw ended
          (update-IsValid (λ r. r.id == m.id) (revive now) s _ (λ x. (refl, refl, refl)) refl v)
  ]

  -- A new match keeps the constraints.
  pub create-IsValid :
      exists_where (λ m. m.id == id) s.matches ≡ false
      → IsValid s
      → IsValid (create id now a b origin score s).1
  unfolding create
  create-IsValid = create_with-IsValid _ refl

pub end_all_for_pair-IsValid :
    (now a b : ℕ) (reason : Text) (s : Store)
    → IsValid s
    → IsValid (end_all_for_pair now a b reason s).1
unfolding end_all_for_pair
end_all_for_pair-IsValid now a b reason s =
    update-IsValid _ (end_match now (some a) reason MatchStatus.blocked) s _
      (λ x. (refl, refl, refl)) refl

pub end_all_for_user-IsValid :
    (now user : ℕ) (reason : Text) (s : Store)
    → IsValid s
    → IsValid (end_all_for_user now user reason s).1
unfolding end_all_for_user
end_all_for_user-IsValid now user reason s =
    update-IsValid _ (end_match now (some user) reason MatchStatus.unmatched) s _
      (λ x. (refl, refl, refl)) refl

pub touch-IsValid :
    (now match_id delta : ℕ) (s : Store) → IsValid s → IsValid (touch now match_id delta s).1
unfolding touch
touch-IsValid now match_id delta s v =
    elim (Option-cases (first_where (λ m. m.id == match_id) s.matches)) [
      | inl e ↦ rw (e, touch) v
      | inr (m, e) ↦
          rw (e, touch)
            (update-IsValid (λ r. r.id == match_id) (touched now delta) s _
              (λ x. (refl, refl, refl)) refl v)
    ]
