-- ===== src/Reports/Filing.antt =====
-- ReportService of apps/reports/services.py, which calls the services of apps/accounts and
-- apps/moderation.
use date_app.Common.{
  ℕ, ◌-◌, ◌*◌, Bool, true, false, not, ◌&&◌, Option, none, some, List, [], ◌∷◌, ◌++◌, leb, ◌==◌,
  if◌then◌else◌, Text, codes, is_empty, length, take, first_where, filter_by, exists_where,
  count_where, update_where, Action, ZynoraError, pure, gets, or_raise, atomic, ◌>>=◌, ◌>>◌,
  raise_if, modify, when, decimal,
}
use date_app.Accounts.Models.{Store as AccountsStore}
use date_app.Accounts.Lifecycle.{ban, account_exists}
use date_app.Moderation.Models.{Severity, ObjectType, Store as ModerationStore}
use date_app.Moderation.Trust.{penalise, reward, set_shadow_ban}
use date_app.Moderation.Cases.{flag_content}
use date_app.Reports.Models.{
  ReportReason, reason_name, is_urgent_reason, ReportStatus, Outcome, Report, resolved, SafetyEvent,
  Store,
}
use date_app.Reports.Blocks.{block}

-- `ReportService._penalty`
unfoldable pub penalty : ReportReason → ℕ
penalty ReportReason.underage = 60
penalty ReportReason.threat = 50
penalty ReportReason.hate_speech = 40
penalty ReportReason.scam = 35
penalty ReportReason.fake_profile = 25
penalty ReportReason.harassment = 25
penalty ReportReason.inappropriate_photos = 20
penalty _ = 10

-- A call of the accounts service.
abbrev pub on_accounts : {A : Type 0} → Action AccountsStore A → Action Store A
on_accounts m s = let (r, t) = m s.accounts in (r, record s { accounts = t })

-- `values("reporter_id").distinct()`
unfoldable pub reporters : List Report → List ℕ
reporters [] = []
reporters (r ∷ rs) =
    let rest = reporters rs in
    if exists_where (λ x. x == r.reporter) rest then rest else r.reporter ∷ rest

-- The reports against a member in the last seven days.
abbrev pub is_in_window : ℕ → ℕ → Report → Bool
is_in_window now reported r = r.reported == reported && leb (now - 7 * 86400) r.created_at

unfoldable pub recent_reporters : ℕ → ℕ → List Report → ℕ
unfolding reporters
recent_reporters now reported rs = length (reporters (filter_by (is_in_window now reported) rs))

-- `ReportService._check_threshold`
unfoldable pub check_threshold : ℕ → ℕ → Action Store (Unit {0})
unfolding recent_reporters ban
check_threshold now reported = do
  count ← gets (λ s. recent_reporters now reported s.reports)
  when (leb 5 count) do
    on_accounts (
        ban reported (codes "Automatically suspended after " ++ decimal count ++ codes " reports")
          false)
    pure tt

-- The arguments of a report.
pub record Filing : Type 0 where
  pub reporter : ℕ
  pub reported : ℕ
  pub reason : ReportReason
  pub description : Text
  pub evidence : Option Text
  pub context_type : Option ObjectType
  pub context_id : Option ℕ
  pub also_block : Bool

abbrev pub is_repeat : ℕ → Filing → Report → Bool
is_repeat now f r =
    r.reporter == f.reporter && r.reported == f.reported && leb (now - 86400) r.created_at

-- The row that is created; `save` marks the urgent reasons.
abbrev pub new_report : ℕ → ℕ → Filing → Report
new_report now id f = record {
  id = id;
  reporter = f.reporter;
  reported = f.reported;
  reason = f.reason;
  description = take 2000 f.description;
  evidence = f.evidence;
  context_type = f.context_type;
  context_id = f.context_id;
  status = ReportStatus.open_;
  outcome = Outcome.no_action;
  is_urgent = is_urgent_reason f.reason;
  handled_by = none;
  handled_at = none;
  moderator_note = [];
  created_at = now;
}

-- The trust score is lowered, and the context queued for review under the id `case`.
unfoldable pub feed : ℕ → Text → ℕ → Filing → ModerationStore → ModerationStore
unfolding penalise penalty flag_content
feed now today case f m =
    let m' = record m {
      scores =
          penalise now today (some f.reported) (penalty f.reason)
            (codes "reported for " ++ reason_name f.reason) m.scores;
    } in
    elim f.context_type [
      | none ↦ m'
      | some t ↦ elim f.context_id [
        | none ↦ m'
        | some object ↦
            flag_content case f.reported t object (codes "user report: " ++ reason_name f.reason)
              (if is_urgent_reason f.reason then Severity.high else Severity.medium)
              (take 500 f.description) m'
      ]
    ]

-- The row is inserted.
abbrev pub add_report : ℕ → ℕ → Filing → Store → Store
add_report now id f s = record s { reports = new_report now id f ∷ s.reports }

-- What follows the block: the safety signals and the event.
abbrev pub announce : ℕ → Text → ℕ → ℕ → Filing → Store → Store
announce now today id case f s = record s {
  moderation = feed now today case f s.moderation;
  events =
      SafetyEvent.user_reported id f.reporter f.reported f.reason (is_urgent_reason f.reason)
      ∷ s.events;
}

-- `also_block`
unfoldable pub shield : Filing → Action Store (Unit {0})
unfolding block
shield f = when f.also_block do block f.reporter f.reported (codes "reported") true; pure tt

-- What `ReportService.create` does once it has checked the report.
unfoldable pub file : ℕ → Text → ℕ → ℕ → Filing → Action Store Report
unfolding shield feed check_threshold
file now today id case f = do
  modify (add_report now id f)
  shield f
  modify (announce now today id case f)
  check_threshold now f.reported
  pure (new_report now id f)

-- `ReportService.create`
unfoldable pub create : ℕ → Text → ℕ → ℕ → Filing → Action Store Report
unfolding file account_exists
create now today id case f = atomic do
  raise_if (f.reporter == f.reported) (ZynoraError.validation_error "You cannot report yourself.")
  known ← gets (λ s. account_exists f.reported s.accounts)
  raise_if (not known) (ZynoraError.not_found "That member does not exist.")
  repeated ← gets (λ s. exists_where (is_repeat now f) s.reports)
  raise_if repeated (ZynoraError.validation_error "You have already reported this person today.")
  file now today id case f

abbrev pub is_report : ℕ → Report → Bool
is_report id r = r.id == id

-- `ReportService.get`
unfoldable pub get : ℕ → Action Store Report
get id = do
  or_raise (← gets (λ s. first_where (is_report id) s.reports))
      (ZynoraError.not_found "Report not found.")

-- What the outcome does to the reported member.
unfoldable pub enforce : ℕ → Outcome → ℕ → Text → Action Store (Unit {0})
unfolding set_shadow_ban reward ban
enforce now outcome user note =
    let reason = if is_empty note then codes "Policy violation" else note in
    elim outcome as (λ _. Action Store (Unit {0})) [
      | Outcome.shadow_banned ↦ modify λ s. record s {
        moderation = record s.moderation {
          scores = set_shadow_ban now user true s.moderation.scores;
        };
      }
      | Outcome.suspended ↦ on_accounts (ban user reason false) >> pure tt
      | Outcome.banned ↦ on_accounts (ban user reason true) >> pure tt
      | Outcome.no_action ↦ modify λ s. record s {
        moderation = record s.moderation { scores = (reward user 5 s.moderation.scores).1 };
      }
      | _ ↦ pure tt
    ]

-- `ReportService.resolve`
unfoldable pub resolve : ℕ → ℕ → Outcome → ℕ → Text → Action Store Report
unfolding get resolved enforce
resolve now id outcome moderator note = atomic do
  r ← get id
  modify λ s. record s {
    reports = update_where (is_report id) (resolved now outcome moderator note) s.reports;
  }
  enforce now outcome r.reported note
  pure (resolved now outcome moderator note r)

-- `ReportService.stats`
pub record ReportStats : Type 0 where
  pub waiting : ℕ
  pub urgent : ℕ
  pub acted : ℕ
  pub dropped : ℕ

abbrev same_status : ReportStatus → ReportStatus → Bool
same_status ReportStatus.open_ t = elim t [ ReportStatus.open_ ↦ true | _ ↦ false ]
same_status ReportStatus.reviewing t = elim t [ ReportStatus.reviewing ↦ true | _ ↦ false ]
same_status ReportStatus.actioned t = elim t [ ReportStatus.actioned ↦ true | _ ↦ false ]
same_status ReportStatus.dismissed t = elim t [ ReportStatus.dismissed ↦ true | _ ↦ false ]

unfoldable pub stats : Store → ReportStats
stats s = record {
  waiting = count_where (λ r. same_status ReportStatus.open_ r.status) s.reports;
  urgent = count_where (λ r. same_status ReportStatus.open_ r.status && r.is_urgent) s.reports;
  acted = count_where (λ r. same_status ReportStatus.actioned r.status) s.reports;
  dropped = count_where (λ r. same_status ReportStatus.dismissed r.status) s.reports;
}
