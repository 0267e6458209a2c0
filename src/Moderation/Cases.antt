-- ===== src/Moderation/Cases.antt =====
-- ImageScreeningService and ModerationService of apps/moderation/services.py.
use date_app.Common.{
  ℕ, ◌+◌, Bool, true, false, ◌&&◌, Option, none, some, List, [], ◌∷◌, ◌++◌, leb, ◌==◌,
  if◌then◌else◌, Text, codes, is_empty, length, take, first_where, filter_by, count_where,
  update_where, Action, ZynoraError, gets, or_raise, ◌>>=◌, join,
}
use date_app.Moderation.Models.{
  Severity, ObjectType, CaseStatus, ModerationCase, TrustScore, ModerationEvent, Store, Band, band,
  resolved, type_name,
}
use date_app.Moderation.Trust.{is_of, get, penalise}

abbrev pub is_case : ℕ → ModerationCase → Bool
is_case id c = c.id == id

abbrev pub same_type : ObjectType → ObjectType → Bool
same_type ObjectType.profile_photo t = elim t [ ObjectType.profile_photo ↦ true | _ ↦ false ]
same_type ObjectType.profile_text t = elim t [ ObjectType.profile_text ↦ true | _ ↦ false ]
same_type ObjectType.message t = elim t [ ObjectType.message ↦ true | _ ↦ false ]
same_type ObjectType.verification_photo t = elim t [
  | ObjectType.verification_photo ↦ true
  | _ ↦ false
]

abbrev pub is_about : ObjectType → ℕ → ModerationCase → Bool
is_about t object c = same_type t c.object_type && c.object_id == object

-- What `ImageScreeningService.analyse` returns.
pub record Analysis : Type 0 where
  pub auto_decidable : Bool
  pub approved : Bool
  pub risk_score : ℕ
  pub reasons : List Text
  pub severity : Severity

unfoldable pub analysis_of : Band → Analysis
analysis_of Band.trusted = record {
  auto_decidable = true;
  approved = true;
  risk_score = 0;
  reasons = codes "trusted uploader" ∷ [];
  severity = Severity.low;
}
analysis_of Band.high_risk = record {
  auto_decidable = false;
  approved = false;
  risk_score = 70;
  reasons = codes "low trust score" ∷ [];
  severity = Severity.high;
}
analysis_of _ = record {
  auto_decidable = true;
  approved = true;
  risk_score = 10;
  reasons = [];
  severity = Severity.low;
}

-- `ImageScreeningService.analyse`, which makes the owner's trust row.
unfoldable pub analyse : ℕ → List TrustScore → Analysis × List TrustScore
unfolding get analysis_of band
analyse owner ts = let (t, us) = get owner ts in (analysis_of (band t), us)

abbrev pub rejected_once : TrustScore → TrustScore
rejected_once t = record t { content_rejected = t.content_rejected + 1 }

-- `ModerationService.decide`, on the row of the case.
unfoldable pub decide : ℕ → Text → ModerationCase → Bool → Option ℕ → Text → Store → Store
unfolding resolved penalise
decide now today c accept moderator note s = record s {
  cases = update_where (is_case c.id) (resolved now accept moderator note) s.cases;
  scores =
      if accept
      then s.scores
      else update_where (is_of c.owner) rejected_once (
          penalise now today (some c.owner) 10 (type_name c.object_type ++ codes " rejected")
            s.scores);
  events =
      ModerationEvent.content_flagged c.id c.owner accept
        (if is_empty note then join "; " c.reasons else note)
      ∷ s.events;
}

-- The case that `queue` inserts, with the model's defaults.
abbrev pub new_case : ℕ → ℕ → ObjectType → ℕ → Text → ModerationCase
new_case id owner t object url = record {
  id = id;
  owner = owner;
  object_type = t;
  object_id = object;
  content_snapshot = [];
  content_url = url;
  status = CaseStatus.pending;
  severity = Severity.low;
  reasons = [];
  risk_score = 0;
  reviewed_by = none;
  reviewed_at = none;
  review_note = [];
}

abbrev pub analysed : Analysis → ModerationCase → ModerationCase
analysed a c = record c { risk_score = a.risk_score; reasons = a.reasons; severity = a.severity }

-- What the analysis says is kept on a new case, and decides it when it may.
unfoldable pub settle : ℕ → Text → ModerationCase → Store → Analysis × List TrustScore → Store
unfolding decide
settle now today c s (a, ts) =
    let row = analysed a c in
    let s' = record s { cases = row ∷ s.cases; scores = ts } in
    if a.auto_decidable
    then decide now today row a.approved none (codes "Automated review") s'
    else s'

abbrev pub triage : ℕ → Text → ModerationCase → Store → Store
triage now today c s = settle now today c s (analyse c.owner s.scores)

-- `ImageScreeningService.queue`: the id of the case, and the tables.
unfoldable pub queue : ℕ → Text → ℕ → ℕ → ObjectType → ℕ → Text → Store → ℕ × Store
unfolding analyse settle
queue now today id owner t object url s = elim (first_where (is_about t object) s.cases) [
  | some c ↦ (c.id, s)
  | none ↦ (id, triage now today (new_case id owner t object url) s)
]

-- `ModerationInterface.flag_content`: a case that comes from outside, if the object has none.
unfoldable pub flag_content : ℕ → ℕ → ObjectType → ℕ → Text → Severity → Text → Store → Store
flag_content id owner t object reason severity snapshot s =
    elim (first_where (is_about t object) s.cases) [
      | some c ↦ s
      | none ↦ record s {
        cases =
            record (new_case id owner t object []) {
              severity = severity;
              reasons = if is_empty reason then [] else reason ∷ [];
              content_snapshot = take 2000 snapshot;
              risk_score = 50;
            }
            ∷ s.cases;
      }
    ]

-- `ModerationService.get`
unfoldable pub get_case : ℕ → Action Store ModerationCase
get_case id = do
  or_raise (← gets (λ s. first_where (is_case id) s.cases))
      (ZynoraError.not_found "Moderation case not found.")

abbrev pub is_pending : ModerationCase → Bool
is_pending c = elim c.status [ CaseStatus.pending ↦ true | _ ↦ false ]

pub record QueueStats : Type 0 where
  pub waiting : ℕ
  pub photos : ℕ
  pub messages : ℕ
  pub risky : ℕ

-- `ModerationService.queue_stats`
unfoldable pub queue_stats : Store → QueueStats
queue_stats s =
    let qs = filter_by is_pending s.cases in
    record {
      waiting = length qs;
      photos = count_where (λ c. same_type ObjectType.profile_photo c.object_type) qs;
      messages = count_where (λ c. same_type ObjectType.message c.object_type) qs;
      risky = count_where (λ c. leb 60 c.risk_score) qs;
    }
