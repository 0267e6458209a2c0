-- ===== src/Matches/Exit.antt =====
-- The loops that end many matches (MatchService.end_all_for_pair and end_all_for_user of
-- apps/matches/services.py), and every history of the service's calls.
use date_app.Common.{
  ℕ, ◌+◌, ◌≡◌, ◌≢◌, refl, inl, inr, true, false, Option, some, List, [], ◌∷◌, arith, Text, ◌==◌,
  exists_where, filter_by, Bool-cases, exists-update_self, exists-update_apart, length,
  length-append,
}
use date_app.Matches.{
  Match, MatchOrigin, MatchStatus, MatchEvent, Store, is_pair, is_active_pair, is_active_for,
  order_pair, create, end_match, unmatch, are_matched, end_all_for_pair, end_all_for_user,
  ended_events, touch,
}
use date_app.Matches.Pairs.{
  IsValid, create-IsValid, end_all_for_pair-IsValid, end_all_for_user-IsValid, touch-IsValid,
}
use date_app.Matches.Lifecycle.{unmatch-IsValid}

apart_pairs :
    (p q : ℕ × ℕ) (m : Match) → q ≢ p → is_active_pair p m ≡ true → is_active_pair q m ≡ false
apart_pairs (a, b) (c, d) m ne h = elim (Bool-cases (is_pair (c, d) m)) [
  | inl e ↦ absurd (ne (ground arith))
  | inr e ↦ ground arith
]

length-ended_events :
    (by other : ℕ) (reason : Text) (ms : List Match)
    → length (ended_events by other reason ms) ≡ length ms
unfolding ended_events
length-ended_events by other reason [] = refl
length-ended_events by other reason (m ∷ ms) = omega (
  arith,
  length-append (ended_events by other reason ms)
      (MatchEvent.match_ended m.id by other reason ∷ []),
  length-ended_events by other reason ms,
)

-- After a block the pair has no active match, every other pair is as it was, and the count that
-- comes back is the number of events published.
pub end_all_for_pair_ends :
    (now a b c d : ℕ) (reason : Text) (s : Store)
    → order_pair c d ≢ order_pair a b
    → let (n, t) = end_all_for_pair now a b reason s in
      (are_matched a b t ≡ false)
      × (are_matched c d t ≡ are_matched c d s)
      × (length t.events ≡ n + length s.events)
unfolding end_all_for_pair are_matched end_match
end_all_for_pair_ends now a b c d reason s apart = (
  exists-update_self (is_active_pair (order_pair a b))
      (end_match now (some a) reason MatchStatus.blocked) s.matches (λ x. ground arith),
  exists-update_apart (is_active_pair (order_pair c d)) (is_active_pair (order_pair a b))
      (end_match now (some a) reason MatchStatus.blocked) s.matches
      (λ x h. apart_pairs (order_pair a b) (order_pair c d) x apart h) (λ x h. ground arith),
  omega (
    arith,
    length-append (ended_events a b reason (filter_by (is_active_pair (order_pair a b)) s.matches))
        s.events,
    length-ended_events a b reason (filter_by (is_active_pair (order_pair a b)) s.matches),
  ),
)

-- After an account leaves, it has no active match, and a pair without it is as it was.
end_all_for_user_ends :
    (now user c d : ℕ) (reason : Text) (s : Store)
    → c ≢ user
    → d ≢ user
    → let t = (end_all_for_user now user reason s).1 in
      (exists_where (is_active_for user) t.matches ≡ false)
      × (are_matched c d t ≡ are_matched c d s)
unfolding end_all_for_user are_matched end_match order_pair
end_all_for_user_ends now user c d reason s nc nd = (
  exists-update_self (is_active_for user) (end_match now (some user) reason MatchStatus.unmatched)
      s.matches (λ x. ground arith),
  exists-update_apart (is_active_pair (order_pair c d)) (is_active_for user)
      (end_match now (some user) reason MatchStatus.unmatched) s.matches (λ x h. ground arith)
      (λ x h. ground arith),
)

-- One call of the service. A new row's UUID is one that no row has.
pub data Step : Store → Store → Type 0 where
  creates :
      (s : Store) (id now a b : ℕ) (origin : MatchOrigin) (score : Option ℕ)
      → exists_where (λ m. m.id == id) s.matches ≡ false
      → Step s (create id now a b origin score s).1
  unmatches :
      (s : Store) (now user id : ℕ) (reason : Text) → Step s (unmatch now user id reason s).1
  ends_pair :
      (s : Store) (now a b : ℕ) (reason : Text) → Step s (end_all_for_pair now a b reason s).1
  ends_user :
      (s : Store) (now user : ℕ) (reason : Text) → Step s (end_all_for_user now user reason s).1
  touches : (s : Store) (now id delta : ℕ) → Step s (touch now id delta s).1

pub data Reach (s : Store) : Store → Type 0 where
  here : Reach s s
  next : {t u : Store} → Reach s t → Step t u → Reach s u

Step-IsValid : {s t : Store} → Step s t → IsValid s → IsValid t
Step-IsValid (creates s id now a b origin score fresh) v =
    create-IsValid id now a b origin score s fresh v
Step-IsValid (unmatches s now user id reason) v = unmatch-IsValid now user id reason s v
Step-IsValid (ends_pair s now a b reason) v = end_all_for_pair-IsValid now a b reason s v
Step-IsValid (ends_user s now user reason) v = end_all_for_user-IsValid now user reason s v
Step-IsValid (touches s now id delta) v = touch-IsValid now id delta s v

-- In every history each pair has one row, stored low id first, and each id one row.
pub Reach-IsValid : {s t : Store} → IsValid s → Reach s t → IsValid t
Reach-IsValid v here = v
Reach-IsValid v (next r st) = Step-IsValid st (Reach-IsValid v r)
