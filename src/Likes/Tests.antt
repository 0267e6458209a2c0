-- ===== src/Likes/Tests.antt =====
-- Runs of the likes service on a small store, and its theorems at them.
use date_app.Common.{
  ◌+◌, ◌≡◌, refl, true, false, ◌&&◌, ◌||◌, none, some, [], ◌∷◌, ltb, ◌==◌, first_where,
  exists_where, update_where, Distinct, Result, ok, err, ZynoraError,
}
use date_app.Matches
use date_app.Likes.Models.{LikeType, Like, Store, Services}
use date_app.Likes.Quotas.{get_quota, snapshot_of, Snapshot}
use date_app.Likes.Swipes.{Request, swipe, rewind, SwipeResult}
use date_app.Likes.Allowance.{IsWithin, swipe-IsWithin}
use date_app.Likes.Matching.{Outcome, is_wanted, swipe-Outcome}
use date_app.Likes.Repeats.{swipe_again, same_edge}

abbrev sv : Services
sv = record {
  is_active_member = λ user. ltb user 10;
  is_blocked_between = λ a b. a == 9 || b == 9;
  score_pair = λ a b. some (a + b);
  get_quota_limits = λ user. record {
    daily_likes = some 2;
    daily_super_likes = some 1;
    daily_rewinds = some 1;
    daily_messages = none;
    monthly_boosts = 0;
  };
  has_rewind = λ user. user == 1;
}

-- Member 2 likes member 1.
abbrev fan : Like
fan = record {
  id = 50;
  sender = 2;
  receiver = 1;
  kind = LikeType.like;
  message = [];
  source = [];
  score_at_swipe = none;
  is_rewound = false;
  seen_by_receiver = false;
}

abbrev start : Store
start = record {
  likes = fan ∷ [];
  quotas = [];
  matches = record { matches = []; events = [] };
  events = [];
}

abbrev reply : Request
reply = record {
  now = 90000;
  like_id = 51;
  match_id = 70;
  sender = 1;
  receiver = 2;
  kind = LikeType.like;
  message = [];
  source = [];
}

abbrev replied : Result SwipeResult × Store
replied = swipe sv reply start

program : Unit {0}
unfolding swipe rewind first_where exists_where update_where
program = tt

reply_matches : Matches.are_matched 1 2 (swipe sv reply start).1.matches ≡ true
unfolding program Matches.are_matched
reply_matches = refl

reply_counts : (get_quota 90001 1 (swipe sv reply start).1).0.likes_used ≡ 1
unfolding program get_quota
reply_counts = refl

rewind_of_match :
    (rewind sv 90002 1 (swipe sv reply start).1).0
    ≡ err (ZynoraError.validation_error "You cannot undo a swipe that became a match.")
unfolding program
rewind_of_match = refl

swipe-IsWithin_example :
    IsWithin sv (swipe sv reply start).1 × IsWithin sv (rewind sv 90001 2 start).1
swipe-IsWithin_example = swipe-IsWithin sv reply 90001 2 start tt

abbrev result : SwipeResult
result = record {
  matched = true;
  match_id = some 70;
  kind = LikeType.like;
  quota = snapshot_of (sv.get_quota_limits 1) (record {
    user = 1;
    likes_used = 1;
    super_likes_used = 0;
    rewinds_used = 0;
    reset_at = 90000;
  });
}

abbrev after_reply : Store
after_reply = (swipe sv reply start).1

reply-result : swipe sv reply start ≡ (ok result, after_reply)
unfolding program snapshot_of
reply-result = refl

swipe-Outcome_example :
    Outcome reply (true && is_wanted reply (fan ∷ [])) start.matches (result, after_reply)
swipe-Outcome_example = swipe-Outcome sv reply start after_reply result reply-result

swipe_again_example :
    swipe sv (record reply { now = 90009; kind = LikeType.pass }) after_reply
    ≡ (err (ZynoraError.validation_error "You have already swiped on this person."), after_reply)
swipe_again_example =
    swipe_again sv reply (record reply { now = 90009; kind = LikeType.pass }) start after_reply
      result reply-result refl refl refl

-- Member 1 passes on member 3, and takes it back.
abbrev pass_on : Request
pass_on = record reply { receiver = 3; kind = LikeType.pass }

abbrev quota_left : Snapshot
quota_left =
    snapshot_of (sv.get_quota_limits 1) (record {
      user = 1;
      likes_used = 0;
      super_likes_used = 0;
      rewinds_used = 1;
      reset_at = 90000;
    })

abbrev passed : Store
passed = (swipe sv pass_on start).1

rewound_result :
    rewind sv 90002 1 passed ≡ (ok (3, LikeType.pass, quota_left), (rewind sv 90002 1 passed).1)
unfolding program snapshot_of
rewound_result = refl

passed-Distinct : Distinct same_edge passed.likes
unfolding program
passed-Distinct = (refl, (refl, tt))
