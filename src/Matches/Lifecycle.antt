-- ===== src/Matches/Lifecycle.antt =====
-- MatchService.create and MatchService.unmatch of apps/matches/services.py, branch by branch, and
-- what they do to `are_matched`.
use date_app.Common.{
  ℕ, ◌≡◌, ◌≢◌, refl, inl, inr, Bool, true, false, Option, none, some, List, [], ◌∷◌, arith, Text,
  ◌==◌, first_where, exists_where, update_where, Distinct, Option-cases, Bool-cases,
  exists_of_first, first_where-holds, exists-update, exists_congr, ok, err, ZynoraError, ==_refl,
  first-update_found, absent_of_first, update_absent, exists_weaken,
}
use date_app.Matches.{
  Match, MatchOrigin, MatchStatus, MatchEvent, Store, is_pair, is_active, is_active_pair,
  order_pair, new_match, revive, create_with, create, end_match, unmatch, are_matched, find,
  involves, other_user_id,
}
use date_app.Matches.Pairs.{IsValid, same_pair, same_id, update-IsValid, order_pair_comm}

module _ (now user match_id : ℕ) (reason : Text) (s : Store) where
  -- The row that a member ends, and the store after it.
  abbrev pub unmatched_row : Match → Match
  unmatched_row = end_match now (some user) reason MatchStatus.unmatched

  abbrev pub after_unmatch : Match → Store
  after_unmatch m = record {
    matches = update_where (λ r. r.id == match_id) unmatched_row s.matches;
    events = MatchEvent.match_ended match_id user (other_user_id m user) reason ∷ s.events;
  }

  pub unmatch_missing :
      first_where (λ m. m.id == match_id) s.matches ≡ none
      → unmatch now user match_id reason s ≡ (err (ZynoraError.not_found "Match not found."), s)
  unfolding unmatch
  unmatch_missing e = ground arith

  pub unmatch_foreign :
      (m : Match)
      → first_where (λ m. m.id == match_id) s.matches ≡ some m
      → involves user m ≡ false
      → unmatch now user match_id reason s
        ≡ (err (ZynoraError.permission_denied "This match is not yours."), s)
  unfolding unmatch
  unmatch_foreign m e h = ground arith

  pub unmatch_own :
      (m : Match)
      → first_where (λ m. m.id == match_id) s.matches ≡ some m
      → involves user m ≡ true
      → unmatch now user match_id reason s ≡ (ok (unmatched_row m), after_unmatch m)
  unfolding unmatch
  unmatch_own m e h = ground arith

  pub unmatch-IsValid : IsValid s → IsValid (unmatch now user match_id reason s).1
  unfolding end_match
  unmatch-IsValid v = elim (Option-cases (first_where (λ m. m.id == match_id) s.matches)) [
    | inl e ↦ rw (unmatch_missing e) v
    | inr (m, e) ↦ elim (Bool-cases (involves user m)) [
      | inl own ↦ rw (unmatch_own m e own) (
          update-IsValid (λ r. r.id == match_id) unmatched_row s _ (λ x. (refl, refl, refl)) refl v)
      | inr foreign ↦ rw (unmatch_foreign m e foreign) v
    ]
  ]

-- With unique pairs, ending the one row of a pair leaves the pair without an active match.
ended_pair_gone :
    (f : Match → Match) (k : ℕ) (xs : List Match) (m : Match)
    → ((x : Match) → is_active (f x) ≡ false)
    → ((x : Match) → ((f x).user_low ≡ x.user_low) × ((f x).user_high ≡ x.user_high))
    → Distinct same_pair xs
    → first_where (λ r. r.id == k) xs ≡ some m
    → exists_where (is_active_pair (m.user_low, m.user_high)) (update_where (λ r. r.id == k) f xs)
      ≡ false
unfolding first_where exists_where update_where
ended_pair_gone f k [] m off same d e = cc
ended_pair_gone f k (x ∷ xs) m off same d e = elim (Bool-cases (x.id == k)) [
  | inl here ↦ ground (
    arith,
    off x,
    same x,
    exists_weaken (is_active_pair (x.user_low, x.user_high)) (is_pair (x.user_low, x.user_high))
        (update_where (λ r. r.id == k) f xs) (λ y h. ground arith),
    exists-update (is_pair (x.user_low, x.user_high)) (λ r. r.id == k) f xs
        (λ y. ground (arith, same y)),
  )
  | inr there ↦ ground (
    arith,
    absent_of_first (same_pair x) (λ r. r.id == k) xs m d.0,
    ended_pair_gone f k xs m off same d.1,
  )
]

-- With unique ids, ending one row leaves every test alone that the row fails before and after.
exists-update_id :
    (q : Match → Bool) (f : Match → Match) (k : ℕ) (xs : List Match) (m : Match)
    → q m ≡ false
    → q (f m) ≡ false
    → Distinct same_id xs
    → first_where (λ r. r.id == k) xs ≡ some m
    → exists_where q (update_where (λ r. r.id == k) f xs) ≡ exists_where q xs
unfolding first_where exists_where update_where
exists-update_id q f k [] m before after d e = refl
exists-update_id q f k (x ∷ xs) m before after d e = elim (Bool-cases (x.id == k)) [
  | inl here ↦ ground (
    arith,
    update_absent (λ r. r.id == k) f xs,
    exists_congr (λ r. r.id == k) (same_id x) xs (λ y. ground arith),
  )
  | inr there ↦ ground (arith, exists-update_id q f k xs m before after d.1)
]

pub are_matched_comm : (a b : ℕ) (s : Store) → are_matched a b s ≡ are_matched b a s
unfolding are_matched
are_matched_comm a b s = rw (order_pair_comm a b)

module _ (id now a b : ℕ) (origin : MatchOrigin) (score : Option ℕ) (s : Store) where
  create_with-active :
      (found : Option Match)
      → first_where (is_pair (order_pair a b)) s.matches ≡ found
      → let (m, t) = create_with found id now (order_pair a b) origin score s in
        (is_active_pair (order_pair a b) m ≡ true)
        × (first_where (is_pair (order_pair a b)) t.matches ≡ some m)
  unfolding create_with new_match revive first_where
  create_with-active none e = ground arith
  create_with-active (some m) e = ground (
    arith,
    first_where-holds (is_pair (order_pair a b)) s.matches m e,
    first-update_found (is_pair (order_pair a b)) (λ r. r.id == m.id) (revive now) s.matches m
        (λ x. refl) e (==_refl m.id),
  )

  -- After `create` the two are matched, in both directions, and by the row that it returns.
  pub create-are_matched :
      let (m, t) = create id now a b origin score s in
      (are_matched a b t ≡ true) × (are_matched b a t ≡ true) × (find a b t ≡ some m)
  unfolding create are_matched find
  create-are_matched =
      let (live, found) =
        create_with-active (first_where (is_pair (order_pair a b)) s.matches) refl in
      let t =
        (create_with (first_where (is_pair (order_pair a b)) s.matches) id now (order_pair a b)
          origin score s).1 in
      let here =
        exists_of_first (is_pair (order_pair a b)) (is_active_pair (order_pair a b)) t.matches _
          found live in
      (here, rw (order_pair_comm b a) here, found)

  --
  -- Creating it again, in either direction, changes nothing and publishes nothing.
  pub create_twice :
      (id' now' : ℕ) (origin' : MatchOrigin) (score' : Option ℕ)
      → let (m, t) = create id now a b origin score s in
        (create id' now' a b origin' score' t ≡ (m, t))
        × (create id' now' b a origin' score' t ≡ (m, t))
  unfolding create create_with
  create_twice id' now' origin' score' =
      let (live, found) =
        create_with-active (first_where (is_pair (order_pair a b)) s.matches) refl in
      (
        rw (found, create_with) (ground arith),
        rw (order_pair_comm b a) (rw (found, create_with) (ground arith)),
      )

other_pair : (p : ℕ × ℕ) (m : Match) → p ≢ (m.user_low, m.user_high) → is_active_pair p m ≡ false
other_pair (low, high) m h = elim (Bool-cases (is_pair (low, high) m)) [
  | inl e ↦ absurd (h (ground arith))
  | inr e ↦ ground arith
]

module _ (now user match_id : ℕ) (reason : Text) (s : Store) (m : Match) where
  -- A participant who unmatches ends that pair's match, and no other pair's.
  unmatch_ends :
      (c d : ℕ)
      → IsValid s
      → first_where (λ m. m.id == match_id) s.matches ≡ some m
      → involves user m ≡ true
      → order_pair c d ≢ (m.user_low, m.user_high)
      → let (r, t) = unmatch now user match_id reason s in
        (r ≡ ok (unmatched_row now user match_id reason s m))
        × (exists_where (is_active_pair (m.user_low, m.user_high)) t.matches ≡ false)
        × (are_matched c d t ≡ are_matched c d s)
  unfolding are_matched end_match
  unmatch_ends c d v e own apart = rw (unmatch_own now user match_id reason s m e own) (
    refl,
    ended_pair_gone (unmatched_row now user match_id reason s) match_id s.matches m (λ x. refl)
        (λ x. (refl, refl)) v.one_per_pair e,
    exists-update_id (is_active_pair (order_pair c d)) (unmatched_row now user match_id reason s)
        match_id s.matches m (other_pair (order_pair c d) m apart) (ground arith) v.one_per_id e,
  )
