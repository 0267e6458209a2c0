-- ===== src/Reports/Tests.antt =====
-- The theorems on blocks and reports, at small tables.
use date_app.Common.{
  ℕ, ◌≡◌, refl, ap, true, false, none, [], ◌∷◌, arith, leb, codes, length, first_where, filter_by,
  exists_where, ok, err, ZynoraError,
}
use date_app.Accounts.Models.{AccountStatus, VerificationLevel, User, default_user}
use date_app.Accounts.Lifecycle.{is_active_member}
use date_app.Matches
use date_app.Matches.{are_matched, order_pair, MatchOrigin}
use date_app.Likes.Models.{LikeType, Like, Services, is_from_to, Store as LikesStore}
use date_app.Likes.Swipes.{Request}
use date_app.Reports.Ties.{Platform, is_tie, block_member, swipe_asking}
use date_app.Reports.Severance.{block_severs}
use date_app.Reports.Models.{ReportReason, Report, CacheEntry, Store}
use date_app.Reports.Blocks.{is_between, new_block, block, is_blocked_between}
use date_app.Reports.Coherence.{Step, Reach, Reach-answer}
use date_app.Reports.Filing.{recent_reporters, Filing, new_report, create}
use date_app.Reports.Consequences.{create_suspends, standing}

abbrev member : User
member = record (default_user 0 4) {
  email = codes "ada@example.org";
  username = codes "ada";
  status = AccountStatus.active;
  is_email_verified = true;
  verification_level = VerificationLevel.email;
  password = 17;
  is_online = true;
}

abbrev filing : Filing
filing = record {
  reporter = 9;
  reported = 4;
  reason = ReportReason.scam;
  description = codes "asked for money";
  evidence = none;
  context_type = none;
  context_id = none;
  also_block = true;
}

abbrev by : ℕ → Report
by r = new_report 1000000 r (record filing { reporter = r })

abbrev cached : CacheEntry
cached = record { low = 4; high = 9; value = false; expires = 2000000 }

abbrev table : Store
table = record {
  blocks = [];
  cache = cached ∷ [];
  reports = by 5 ∷ by 6 ∷ by 7 ∷ by 8 ∷ [];
  events = [];
  accounts = record { users = member ∷ []; devices = []; events = [] };
  moderation = record { terms = []; cases = []; scores = []; events = [] };
}

abbrev empty : Store
empty = record table { cache = [] }

Reach-answer_example :
    let t = (block 9 4 [] false (is_blocked_between 50 4 9 empty).1).1 in
    ((is_blocked_between 60 4 9 t).0 ≡ exists_where (is_between 4 9) t.blocks)
    × ((is_blocked_between 60 9 4 t).0 ≡ (is_blocked_between 60 4 9 t).0)
Reach-answer_example =
    let s = (is_blocked_between 50 4 9 empty).1 in
    let t = (block 9 4 [] false s).1 in
    Reach-answer empty t
      (Reach.then_step empty s t
        (Reach.then_step empty empty s (Reach.stay empty) (Step.do_ask 50 4 9 empty))
        (Step.do_block 9 4 [] false s))
      refl 60 4 9

create_suspends_example :
    let (r, t) = create 1000001 [] 2 3 filing table in
    (r ≡ ok (new_report 1000001 2 filing))
    × (leb 5 (standing 1000001 [] 2 3 filing table) ≡ true → is_active_member 4 t.accounts ≡ false)
    × (leb 5 (standing 1000001 [] 2 3 filing table) ≡ false → t.accounts ≡ table.accounts)
unfolding exists_where first_where
create_suspends_example = create_suspends 1000001 [] 2 3 filing table member refl refl refl

-- The fifth member's report reaches the threshold, and four reports do not.
thresholds :
    (leb 5 (standing 1000001 [] 2 3 filing table) ≡ true)
    × (leb 5 (recent_reporters 1000001 4 table.reports) ≡ false)
unfolding recent_reporters exists_where filter_by length
thresholds = (refl, refl)

abbrev services : Services
services = record {
  is_active_member = λ user. true;
  is_blocked_between = λ a b. false;
  score_pair = λ a b. none;
  get_quota_limits = λ user. record {
    daily_likes = none;
    daily_super_likes = none;
    daily_rewinds = none;
    daily_messages = none;
    monthly_boosts = 0;
  };
  has_rewind = λ user. false;
}

-- Members 4 and 9 like each other and are matched.
abbrev likes_of : ℕ → ℕ → ℕ → Like
likes_of id sender receiver = record {
  id = id;
  sender = sender;
  receiver = receiver;
  kind = LikeType.like;
  message = [];
  source = [];
  score_at_swipe = none;
  is_rewound = false;
  seen_by_receiver = false;
}

abbrev couple : LikesStore
couple = record {
  likes = likes_of 51 4 9 ∷ likes_of 50 9 4 ∷ likes_of 49 2 3 ∷ [];
  quotas = [];
  matches =
      (Matches.create 70 10 4 9 MatchOrigin.mutual_like none
        (record { matches = []; events = [] })).1;
  events = [];
}

abbrev platform : Platform
platform = record { reports = table; likes = couple }

abbrev advance : Request
advance = record {
  now = 90000;
  like_id = 52;
  match_id = 71;
  sender = 4;
  receiver = 9;
  kind = LikeType.super_like;
  message = [];
  source = [];
}

block_severs_example :
    let (k, q) = block_member 80000 9 4 (codes "rude") false platform in
    (k ≡ ok (new_block 9 4 (codes "rude") false))
    × (exists_where (is_tie 9 4) q.likes.likes ≡ false)
    × (are_matched 9 4 q.likes.matches ≡ false)
    × ((x : ZynoraError) × ((swipe_asking services advance q).0 ≡ err x)
        × ((swipe_asking services advance q).1.likes ≡ q.likes))
    × (exists_where (is_from_to 2 3) q.likes.likes ≡ exists_where (is_from_to 2 3) couple.likes)
    × (are_matched 2 3 q.likes.matches ≡ are_matched 2 3 couple.matches)
unfolding exists_where order_pair
block_severs_example =
    block_severs 80000 9 4 2 3 (codes "rude") false services advance platform
      ((omega arith, refl), tt) refl (λ e. absurd (omega (arith, e)))
      (λ e. absurd (omega (arith, ap (λ (x : ℕ × ℕ). x.0) e))) refl
