-- ===== src/Reports/Models.antt =====
-- The tables of apps/reports/models.py, with the cache of BlockService and the tables of the two
-- services that ReportService calls.
use date_app.Common.{ℕ, Bool, true, false, Option, some, List, Text, codes}
use date_app.Accounts.Models.{Store as AccountsStore}
use date_app.Moderation.Models.{ObjectType, Store as ModerationStore}

pub data ReportReason : Type 0 where
  fake_profile harassment inappropriate_photos scam underage : ReportReason
  spam off_platform hate_speech threat other : ReportReason

-- The value of a reason, as messages spell it.
abbrev pub reason_name : ReportReason → Text
reason_name ReportReason.fake_profile = codes "fake_profile"
reason_name ReportReason.harassment = codes "harassment"
reason_name ReportReason.inappropriate_photos = codes "inappropriate_photos"
reason_name ReportReason.scam = codes "scam"
reason_name ReportReason.underage = codes "underage"
reason_name ReportReason.spam = codes "spam"
reason_name ReportReason.off_platform = codes "off_platform"
reason_name ReportReason.hate_speech = codes "hate_speech"
reason_name ReportReason.threat = codes "threat"
reason_name ReportReason.other = codes "other"

-- `URGENT_REASONS`
abbrev pub is_urgent_reason : ReportReason → Bool
is_urgent_reason ReportReason.underage = true
is_urgent_reason ReportReason.threat = true
is_urgent_reason ReportReason.hate_speech = true
is_urgent_reason _ = false

pub data ReportStatus : Type 0 where
  open_ reviewing actioned dismissed : ReportStatus

pub data Outcome : Type 0 where
  no_action warning content_removed shadow_banned suspended banned : Outcome

-- A report against a member; a context is an object that the moderation service may review.
pub record Report : Type 0 where
  pub id : ℕ
  pub reporter : ℕ
  pub reported : ℕ
  pub reason : ReportReason
  pub description : Text
  pub evidence : Option Text
  pub context_type : Option ObjectType
  pub context_id : Option ℕ
  pub status : ReportStatus
  pub outcome : Outcome
  pub is_urgent : Bool
  pub handled_by : Option ℕ
  pub handled_at : Option ℕ
  pub moderator_note : Text
  pub created_at : ℕ

-- `Report.resolve`
unfoldable pub resolved : ℕ → Outcome → ℕ → Text → Report → Report
resolved now outcome moderator note r = record r {
  status = elim outcome [ Outcome.no_action ↦ ReportStatus.dismissed | _ ↦ ReportStatus.actioned ];
  outcome = outcome;
  handled_by = some moderator;
  handled_at = some now;
  moderator_note = note;
}

pub record Block : Type 0 where
  pub blocker : ℕ
  pub blocked : ℕ
  pub reason : Text
  pub from_report : Bool

pub data SafetyEvent : Type 0 where
  user_blocked : ℕ → ℕ → Text → SafetyEvent
  user_reported : ℕ → ℕ → ℕ → ReportReason → Bool → SafetyEvent

-- A cached answer of `is_blocked_between`, under the key of the two members in order.
pub record CacheEntry : Type 0 where
  pub low : ℕ
  pub high : ℕ
  pub value : Bool
  pub expires : ℕ

pub record Store : Type 0 where
  pub blocks : List Block
  pub cache : List CacheEntry
  pub reports : List Report
  pub events : List SafetyEvent
  pub accounts : AccountsStore
  pub moderation : ModerationStore
