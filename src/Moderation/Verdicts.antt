-- ===== src/Moderation/Verdicts.antt =====
-- What becomes of an uploaded image: ImageScreeningService.queue and ModerationService.decide of
-- apps/moderation/services.py.
use date_app.Common.{
  ℕ, ◌≡◌, refl, ap, Bool, true, ◌&&◌, Option, none, some, List, ◌∷◌, arith, ◌==◌, if◌then◌else◌,
  ==_refl, Text, codes, first_where, first-update_self,
}
use date_app.Moderation.Models.{
  ObjectType, CaseStatus, ModerationCase, TrustScore, Store, Band, band, resolved,
}
use date_app.Moderation.Trust.{is_of, get, with_row}
use date_app.Moderation.Cases.{
  is_about, is_case, analyse, analysis_of, decide, settle, queue, new_case, same_type, analysed,
}

abbrev pub status_for : Band → CaseStatus
status_for Band.high_risk = CaseStatus.pending
status_for _ = CaseStatus.auto_approved

same_type_refl : (t : ObjectType) → same_type t t ≡ true
same_type_refl ObjectType.profile_photo = refl
same_type_refl ObjectType.profile_text = refl
same_type_refl ObjectType.message = refl
same_type_refl ObjectType.verification_photo = refl

-- The first row of the case with this id has the status that the band gives, and is about the object.
abbrev pub IsSettled : Band → ObjectType → ℕ → ℕ × Store → Type 0
IsSettled b t object (n, r) =
    (c : ModerationCase) × (first_where (is_case n) r.cases ≡ some c)
    × (c.status ≡ status_for b)
    × (is_about t object c ≡ true)

-- The verdict is on the case's row.
decide_first :
    (now : ℕ) (today : Text) (c : ModerationCase) (accept : Bool) (moderator : Option ℕ)
    (note : Text) (s : Store)
    → first_where (is_case c.id) s.cases ≡ some c
    → first_where (is_case c.id) (decide now today c accept moderator note s).cases
      ≡ some (resolved now accept moderator note c)
unfolding decide
decide_first now today c accept moderator note s e =
    first-update_self (is_case c.id) (resolved now accept moderator note) s.cases c
      (resolved_id now accept moderator note c) e
  where
    resolved_id :
        (now : ℕ) (accept : Bool) (moderator : Option ℕ) (note : Text) (c x : ModerationCase)
        → is_case c.id (resolved now accept moderator note x) ≡ is_case c.id x
    resolved_id now accept none note c x = refl
    resolved_id now accept (some m) note c x = refl

first_head :
    (c : ModerationCase) (cs : List ModerationCase) → first_where (is_case c.id) (c ∷ cs) ≡ some c
unfolding first_where
first_head c cs = ground (arith, ==_refl c.id)

module _ (now : ℕ) (today : Text) (id owner : ℕ) (t : ObjectType) (object : ℕ) (url : Text)
    (s : Store) (u : TrustScore) (e : first_where (is_of owner) s.scores ≡ some u)
    (fresh : first_where (is_about t object) s.cases ≡ none) where
  abbrev row : Band → ModerationCase
  row b = analysed (analysis_of b) (new_case id owner t object url)

  abbrev before : Band → Store
  before b = record s { cases = row b ∷ s.cases; scores = s.scores }

  abbrev after : Band → Store
  after b =
      if (analysis_of b).auto_decidable
      then decide now today (row b) (analysis_of b).approved none (codes "Automated review")
          (before b)
      else before b

  analyse_found : analyse owner s.scores ≡ (analysis_of (band u), s.scores)
  unfolding analyse get with_row
  analyse_found = rw e refl

  queue_fresh : queue now today id owner t object url s ≡ (id, after (band u))
  unfolding queue settle
  queue_fresh =
      rw (fresh, queue)
        (ap (λ p. (id, settle now today (new_case id owner t object url) s p)) analyse_found)

  about : (same_type t t && object == object) ≡ true
  about = rw (same_type_refl t) (==_refl object)

  verdict :
      (b : Band)
      → first_where
          (is_case (row b).id)
          (decide now today (row b) true none (codes "Automated review") (before b)).cases
        ≡ some (resolved now true none (codes "Automated review") (row b))
  verdict b =
      decide_first now today (row b) true none (codes "Automated review") (before b)
        (first_head (row b) s.cases)

  decided : (b : Band) → IsSettled b t object (id, after b) × ((after b).scores ≡ s.scores)
  unfolding analysis_of decide resolved
  decided Band.trusted = ((_, verdict Band.trusted, refl, about), refl)
  decided Band.normal = ((_, verdict Band.normal, refl, about), refl)
  decided Band.watch = ((_, verdict Band.watch, refl, about), refl)
  decided Band.high_risk = ((_, first_head (row Band.high_risk) s.cases, refl, about), refl)

  -- A first upload of a member whose trust row exists is decided by the row's band alone: for the
  -- band high_risk the case waits for a moderator, and for every other band, watch included, it is
  -- approved at once. The scores do not change, and the case is about the uploaded object.
  pub queue_decides :
      IsSettled (band u) t object (queue now today id owner t object url s)
      × ((queue now today id owner t object url s).1.scores ≡ s.scores)
  queue_decides = rw queue_fresh (decided (band u))
