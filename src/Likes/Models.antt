-- ===== src/Likes/Models.antt =====
-- The tables of apps/likes/models.py, the events that the service publishes, and what it asks of the
-- other services. The likes stand newest first, as Meta.ordering has them. Times are seconds of the
-- epoch, and a day is the UTC date.
use date_app.Common.{ℕ, ◌/◌, Bool, true, false, not, ◌&&◌, ◌||◌, Option, List, ◌==◌, Text}
use date_app.Subscriptions.Plan.{QuotaLimits}
use date_app.Matches

pub data LikeType : Type 0 where
  like super_like pass : LikeType

pub record Like : Type 0 where
  pub id : ℕ
  pub sender : ℕ
  pub receiver : ℕ
  pub kind : LikeType
  pub message : Text
  pub source : Text
  pub score_at_swipe : Option ℕ
  pub is_rewound : Bool
  pub seen_by_receiver : Bool

pub record SwipeQuota : Type 0 where
  pub user : ℕ
  pub likes_used : ℕ
  pub super_likes_used : ℕ
  pub rewinds_used : ℕ
  pub reset_at : ℕ

-- The events that the service publishes, with their payloads.
pub data LikeEvent : Type 0 where
  pass_sent : ℕ → ℕ → LikeEvent
  like_sent : LikeType → ℕ → ℕ → ℕ → Text → Option ℕ → LikeEvent

pub record Store : Type 0 where
  pub likes : List Like
  pub quotas : List SwipeQuota
  pub matches : Matches.Store
  pub events : List LikeEvent

-- What the other services answer.
pub record Services : Type 0 where
  pub is_active_member : ℕ → Bool
  pub is_blocked_between : ℕ → ℕ → Bool
  pub score_pair : ℕ → ℕ → Option ℕ
  pub get_quota_limits : ℕ → QuotaLimits
  pub has_rewind : ℕ → Bool

abbrev pub is_like : LikeType → Bool
is_like LikeType.like = true
is_like _ = false

abbrev pub is_super_like : LikeType → Bool
is_super_like LikeType.super_like = true
is_super_like _ = false

abbrev pub is_pass : LikeType → Bool
is_pass LikeType.pass = true
is_pass _ = false

abbrev pub same_kind : LikeType → LikeType → Bool
same_kind LikeType.like k = is_like k
same_kind LikeType.super_like k = is_super_like k
same_kind LikeType.pass k = is_pass k

-- `Like.is_positive`
abbrev pub is_positive : LikeType → Bool
is_positive k = is_like k || is_super_like k

-- `timezone.now().date()`
abbrev pub date : ℕ → ℕ
date t = t / 86400

abbrev pub is_from_to : ℕ → ℕ → Like → Bool
is_from_to sender receiver l = l.sender == sender && l.receiver == receiver

abbrev pub is_live_positive : Like → Bool
is_live_positive l = is_positive l.kind && not l.is_rewound
