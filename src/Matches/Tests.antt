-- ===== src/Matches/Tests.antt =====
-- Runs of the match service on small tables, and its theorems at them.
use date_app.Common.{◌≡◌, refl, false, none, some, [], ◌∷◌, arith, first_where, exists_where}
use date_app.Matches.{Match, MatchOrigin, MatchStatus, MatchEvent, Store, create, unmatch}
use date_app.Matches.Pairs.{IsValid}
use date_app.Matches.Exit.{Reach, Reach-IsValid, Step}

abbrev empty : Store
empty = record { matches = []; events = [] }

abbrev row : Match
row = record {
  id = 70;
  user_low = 3;
  user_high = 5;
  status = MatchStatus.active;
  origin = MatchOrigin.mutual_like;
  compatibility_score = 80;
  matched_at = 100;
  last_interaction_at = none;
  ended_at = none;
  ended_by = none;
  end_reason = [];
  has_conversation = false;
  message_count = 0;
}

abbrev paired : Store
paired = record {
  matches = row ∷ [];
  events = MatchEvent.match_created 70 3 5 MatchOrigin.mutual_like 80 ∷ [];
}

create_run : create 70 100 5 3 MatchOrigin.mutual_like (some 80) empty ≡ (row, paired)
unfolding create first_where
create_run = refl

empty-IsValid : IsValid empty
empty-IsValid = record { ordered = tt; one_per_pair = tt; one_per_id = tt }

paired-IsValid : IsValid paired
unfolding exists_where
paired-IsValid = record {
  ordered = (omega arith, tt);
  one_per_pair = (refl, tt);
  one_per_id = (refl, tt);
}

Reach-IsValid_example :
    IsValid (unmatch 300 5 70 [] (create 70 100 5 3 MatchOrigin.admin none empty).1).1
unfolding exists_where
Reach-IsValid_example = Reach-IsValid empty-IsValid (
    Reach.next (Reach.next Reach.here (Step.creates empty 70 100 5 3 MatchOrigin.admin none refl))
      (Step.unmatches _ 300 5 70 []))
