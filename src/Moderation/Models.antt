-- ===== src/Moderation/Models.antt =====
-- The tables of apps/moderation/models.py. A member, a case and an object are numbers that stand for
-- their UUIDs; times are seconds of the epoch.
use date_app.Common.{
  ℕ, ◌-◌, Bool, true, not, ◌&&◌, Option, none, some, List, ◌++◌, ltb, leb, if◌then◌else◌, Text,
  codes, is_empty, take,
}

pub data Severity : Type 0 where
  low medium high critical : Severity

pub data TermAction : Type 0 where
  flag mask block : TermAction

-- `BannedTerm`, with the regular expression that its term stands for.
pub record BannedTerm : Type 0 where
  pub id : ℕ
  pub term : Text
  pub action : TermAction
  pub severity : Severity
  pub is_regex : Bool
  pub is_active : Bool
  pub hit_count : ℕ

pub data CaseStatus : Type 0 where
  pending auto_approved auto_rejected approved rejected escalated : CaseStatus

pub data ObjectType : Type 0 where
  profile_photo profile_text message verification_photo : ObjectType

pub record ModerationCase : Type 0 where
  pub id : ℕ
  pub owner : ℕ
  pub object_type : ObjectType
  pub object_id : ℕ
  pub content_snapshot : Text
  pub content_url : Text
  pub status : CaseStatus
  pub severity : Severity
  pub reasons : List Text
  pub risk_score : ℕ
  pub reviewed_by : Option ℕ
  pub reviewed_at : Option ℕ
  pub review_note : Text

-- The score, which the service keeps from 0 to 100, and the points are natural numbers; their
-- difference stops at 0, as `max(..., 0)` does. Negative points are not modelled.
pub record TrustScore : Type 0 where
  pub user : ℕ
  pub score : ℕ
  pub flags_received : ℕ
  pub reports_received : ℕ
  pub content_rejected : ℕ
  pub is_shadow_banned : Bool
  pub shadow_banned_at : Option ℕ
  pub notes : Text

-- `CONTENT_FLAGGED`: the case, its owner, the verdict and the reason.
pub data ModerationEvent : Type 0 where
  content_flagged : ℕ → ℕ → Bool → Text → ModerationEvent

pub record Store : Type 0 where
  pub terms : List BannedTerm
  pub cases : List ModerationCase
  pub scores : List TrustScore
  pub events : List ModerationEvent

pub data Band : Type 0 where
  trusted normal watch high_risk : Band

-- `TrustScore.band`
unfoldable pub band : TrustScore → Band
band t =
    if leb 80 t.score
    then Band.trusted
    else if leb 50 t.score
    then Band.normal
    else if leb 25 t.score
    then Band.watch
    else Band.high_risk

-- The value of an object type, as the notes spell it.
abbrev pub type_name : ObjectType → Text
type_name ObjectType.profile_photo = codes "profile_photo"
type_name ObjectType.profile_text = codes "profile_text"
type_name ObjectType.message = codes "message"
type_name ObjectType.verification_photo = codes "verification_photo"

-- `TrustScore.penalise`. `today` is the date and the space before the reason.
unfoldable pub penalised : ℕ → Text → ℕ → Text → TrustScore → TrustScore
penalised now today points reason t =
    let score = t.score - points in
    let notes =
      if is_empty reason then t.notes else take 4000 (today ++ reason ++ codes "\n" ++ t.notes) in
    if ltb score 15 && not t.is_shadow_banned
    then record t {
      score = score;
      notes = notes;
      is_shadow_banned = true;
      shadow_banned_at = some now;
    }
    else record t { score = score; notes = notes }

-- `ModerationCase.resolve`
unfoldable pub resolved : ℕ → Bool → Option ℕ → Text → ModerationCase → ModerationCase
resolved now accept none note c = record c {
  status = if accept then CaseStatus.auto_approved else CaseStatus.auto_rejected;
  reviewed_at = some now;
  review_note = take 400 note;
}
resolved now accept (some moderator) note c = record c {
  status = if accept then CaseStatus.approved else CaseStatus.rejected;
  reviewed_by = some moderator;
  reviewed_at = some now;
  review_note = take 400 note;
}
