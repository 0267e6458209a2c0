-- ===== src/Matches.antt =====
-- Matches: apps/matches/models.py and apps/matches/services.py. A member's id is a number that
-- stands for the UUID, with the order of the UUID's string; the clock, the new row's UUID and the
-- score are arguments. The table is read and written as the query sets do.
pub mod Pairs
pub mod Lifecycle
pub mod Exit
mod Tests
use date_app.Common.{
  ℕ, ◌+◌, ◌≡◌, Bool, true, false, not, ◌&&◌, ◌||◌, Option, none, some, List, [], ◌∷◌, ◌++◌, String,
  Text, codes, ltb, ◌==◌, if◌then◌else◌, get_or, length, take, first_where, filter_by, exists_where,
  update_where, Action, Result, ok, err, ZynoraError, pure, raise, gets, or_raise, raise_if, atomic,
  modify, ◌>>=◌, ◌>>◌,
}

pub data MatchStatus : Type 0 where
  active unmatched blocked expired : MatchStatus

pub data MatchOrigin : Type 0 where
  mutual_like super_like admin : MatchOrigin

pub record Match : Type 0 where
  pub id : ℕ
  pub user_low : ℕ
  pub user_high : ℕ
  pub status : MatchStatus
  pub origin : MatchOrigin
  pub compatibility_score : ℕ
  pub matched_at : ℕ
  pub last_interaction_at : Option ℕ
  pub ended_at : Option ℕ
  pub ended_by : Option ℕ
  pub end_reason : Text
  pub has_conversation : Bool
  pub message_count : ℕ

-- The events that the service publishes, with their payloads.
pub data MatchEvent : Type 0 where
  match_created : ℕ → ℕ → ℕ → MatchOrigin → ℕ → MatchEvent
  match_ended : ℕ → ℕ → ℕ → Text → MatchEvent

pub record Store : Type 0 where
  pub matches : List Match
  pub events : List MatchEvent

-- `Match.is_active`
abbrev pub is_active : Match → Bool
is_active m = elim m.status [ MatchStatus.active ↦ true | _ ↦ false ]

-- `Match.other_user_id`
unfoldable pub other_user_id : Match → ℕ → ℕ
other_user_id m user = if m.user_low == user then m.user_high else m.user_low

-- `Match.involves`
abbrev pub involves : ℕ → Match → Bool
involves user m = user == m.user_low || user == m.user_high

-- `Match.end`, the row that it saves.
unfoldable pub end_match : ℕ → Option ℕ → Text → MatchStatus → Match → Match
end_match now by reason status m = record m {
  status = status;
  ended_at = some now;
  ended_by = by;
  end_reason = take 140 reason;
}

-- `Match.order_pair`
unfoldable pub order_pair : ℕ → ℕ → ℕ × ℕ
order_pair user_a user_b = if ltb user_a user_b then (user_a, user_b) else (user_b, user_a)

-- The filter `user_low_id=low, user_high_id=high`.
abbrev pub is_pair : ℕ × ℕ → Match → Bool
is_pair (low, high) m = m.user_low == low && m.user_high == high

abbrev pub is_active_pair : ℕ × ℕ → Match → Bool
is_active_pair pair m = is_pair pair m && is_active m

-- The row that `get_or_create` inserts, with the model's defaults.
unfoldable pub new_match : ℕ → ℕ → ℕ × ℕ → MatchOrigin → Option ℕ → Match
new_match id now (low, high) origin score = record {
  id = id;
  user_low = low;
  user_high = high;
  status = MatchStatus.active;
  origin = origin;
  compatibility_score = get_or score 0;
  matched_at = now;
  last_interaction_at = none;
  ended_at = none;
  ended_by = none;
  end_reason = [];
  has_conversation = false;
  message_count = 0;
}

-- A previously ended match, revived.
unfoldable pub revive : ℕ → Match → Match
revive now m = record m {
  status = MatchStatus.active;
  matched_at = now;
  ended_at = none;
  ended_by = none;
  end_reason = [];
}

abbrev created_event : MatchOrigin → Match → MatchEvent
created_event origin m =
    MatchEvent.match_created m.id m.user_low m.user_high origin m.compatibility_score

-- What `create` does with the row that `get_or_create` hands back, by whether there was one.
unfoldable pub create_with :
    Option Match → ℕ → ℕ → ℕ × ℕ → MatchOrigin → Option ℕ → Store → Match × Store
unfolding new_match revive
create_with none id now pair origin score s =
    let m = new_match id now pair origin score in
    (m, record { matches = m ∷ s.matches; events = created_event origin m ∷ s.events })
create_with (some m) id now pair origin score s = if is_active m then (m, s) else (
  revive now m,
  record {
    matches = update_where (λ r. r.id == m.id) (revive now) s.matches;
    events = created_event origin (revive now m) ∷ s.events;
  },
)

-- `MatchService.create`
unfoldable pub create : ℕ → ℕ → ℕ → ℕ → MatchOrigin → Option ℕ → Store → Match × Store
unfolding create_with order_pair
create id now user_a user_b origin score s =
    let pair = order_pair user_a user_b in
    create_with (first_where (is_pair pair) s.matches) id now pair origin score s

-- `MatchService.get_for_user`
unfoldable pub get_for_user : ℕ → ℕ → Action Store Match
get_for_user match_id user = do
  m ←
      or_raise (← gets (λ s. first_where (λ m. m.id == match_id) s.matches))
        (ZynoraError.not_found "Match not found.")
  raise_if (not (involves user m)) (ZynoraError.permission_denied "This match is not yours.")
  pure m

-- `MatchService.are_matched`
unfoldable pub are_matched : ℕ → ℕ → Store → Bool
unfolding order_pair
are_matched user_a user_b s = exists_where (is_active_pair (order_pair user_a user_b)) s.matches

-- `MatchService.find`
unfoldable pub find : ℕ → ℕ → Store → Option Match
unfolding order_pair
find user_a user_b s = first_where (is_pair (order_pair user_a user_b)) s.matches

-- `MatchService.unmatch`
unfoldable pub unmatch : ℕ → ℕ → ℕ → Text → Action Store Match
unfolding get_for_user other_user_id end_match
unmatch now user match_id reason = atomic do
  m ← get_for_user match_id user
  let ended = end_match now (some user) reason MatchStatus.unmatched
  modify λ s. record {
    matches = update_where (λ r. r.id == match_id) ended s.matches;
    events = MatchEvent.match_ended match_id user (other_user_id m user) reason ∷ s.events;
  }
  pure (ended m)

-- The events of a loop that ends the rows `ms`, newest first.
pub ended_events : ℕ → ℕ → Text → List Match → List MatchEvent
ended_events by other reason [] = []
ended_events by other reason (m ∷ ms) =
    ended_events by other reason ms ++ MatchEvent.match_ended m.id by other reason ∷ []

-- `MatchService.end_all_for_pair`
unfoldable pub end_all_for_pair : ℕ → ℕ → ℕ → Text → Store → ℕ × Store
unfolding order_pair end_match
end_all_for_pair now user_a user_b reason s =
    let here = is_active_pair (order_pair user_a user_b) in
    let rows = filter_by here s.matches in
    (
      length rows,
      record {
        matches =
            update_where here (end_match now (some user_a) reason MatchStatus.blocked) s.matches;
        events = ended_events user_a user_b reason rows ++ s.events;
      },
    )

abbrev pub is_active_for : ℕ → Match → Bool
is_active_for user m = involves user m && is_active m

-- `MatchService.end_all_for_user`, which publishes nothing.
unfoldable pub end_all_for_user : ℕ → ℕ → Text → Store → ℕ × Store
unfolding end_match
end_all_for_user now user reason s = (
  length (filter_by (is_active_for user) s.matches),
  record s {
    matches =
        update_where (is_active_for user) (end_match now (some user) reason MatchStatus.unmatched)
          s.matches;
  },
)

abbrev touched : ℕ → ℕ → Match → Match
touched now delta m = record m {
  last_interaction_at = some now;
  has_conversation = true;
  message_count = m.message_count + delta;
}

-- `MatchService.touch`
unfoldable pub touch : ℕ → ℕ → ℕ → Store → Bool × Store
touch now match_id delta s = elim (first_where (λ m. m.id == match_id) s.matches) [
  | none ↦ (false, s)
  | some m ↦ (
    true,
    record s { matches = update_where (λ r. r.id == match_id) (touched now delta) s.matches },
  )
]

-- `MatchesInterface.get_matched_user_ids`
unfoldable pub matched_user_ids : ℕ → List Match → List ℕ
unfolding other_user_id
matched_user_ids user [] = []
matched_user_ids user (m ∷ ms) =
    let rest = matched_user_ids user ms in
    if involves user m then other_user_id m user ∷ rest else rest
