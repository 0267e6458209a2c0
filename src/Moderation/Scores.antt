-- ===== src/Moderation/Scores.antt =====
-- The trust scores: TrustService of apps/moderation/services.py and TrustScore.penalise of
-- apps/moderation/models.py.
use date_app.Common.{
  ℕ, ◌+◌, ◌-◌, ◌≤◌, ◌<◌, ◌≡◌, ◌⊎◌, inl, inr, Bool, true, ◌&&◌, Option, none, some, List, ◌∷◌, arith,
  Option-cases, Text, first_where, All, first_where-holds, exists_of_first, first-update_self,
  All-update,
}
use date_app.Moderation.Models.{TrustScore, penalised}
use date_app.Moderation.Trust.{
  is_of, new_score, get, change, penalise, reward, set_shadow_ban, is_shadow_banned, count_report,
  with_row,
}

-- Every score is a percentage.
abbrev pub IsScored : TrustScore → Type 0
IsScored t = t.score ≤ 100

penalised-IsScored :
    (now : ℕ) (today : Text) (points : ℕ) (reason : Text) (t : TrustScore)
    → IsScored t
    → IsScored (penalised now today points reason t)
unfolding penalised
penalised-IsScored now today points reason t h = ground arith

change-IsScored :
    (user : ℕ) (f : TrustScore → TrustScore) (ts : List TrustScore)
    → ((t : TrustScore) → IsScored t → IsScored (f t))
    → All IsScored ts
    → All IsScored (change user f ts).1
unfolding change get with_row
change-IsScored user f ts k h = elim (Option-cases (first_where (is_of user) ts)) [
  | inl e ↦
      rw e
        (All-update IsScored (is_of user) f (new_score user ∷ ts) (λ t _ i. k t i) (omega arith, h))
  | inr (t, e) ↦ rw e (All-update IsScored (is_of user) f ts (λ t _ i. k t i) h)
]

-- A call of the service.
pub data Step : List TrustScore → List TrustScore → Type 0 where
  do_penalise :
      (now : ℕ) (today : Text) (user : Option ℕ) (points : ℕ) (reason : Text) (ts : List TrustScore)
      → Step ts (penalise now today user points reason ts)
  do_reward : (user points : ℕ) (ts : List TrustScore) → Step ts (reward user points ts).1
  do_ban :
      (now user : ℕ) (banned : Bool) (ts : List TrustScore)
      → Step ts (set_shadow_ban now user banned ts)
  do_report : (user : ℕ) (ts : List TrustScore) → Step ts (count_report user ts)

pub data Reach : List TrustScore → List TrustScore → Type 0 where
  stay : (ts : List TrustScore) → Reach ts ts
  then_step : (ts us vs : List TrustScore) → Reach ts us → Step us vs → Reach ts vs

Step-IsScored : (ts us : List TrustScore) → Step ts us → All IsScored ts → All IsScored us
unfolding penalise reward set_shadow_ban count_report
Step-IsScored _ _ (Step.do_penalise now today none points reason ts) h = h
Step-IsScored _ _ (Step.do_penalise now today (some user) points reason ts) h =
    change-IsScored user _ ts (penalised-IsScored now today points reason) h
Step-IsScored _ _ (Step.do_reward user points ts) h =
    change-IsScored user _ ts (λ t i. omega arith) h
Step-IsScored _ _ (Step.do_ban now user banned ts) h = change-IsScored user _ ts (λ t i. i) h
Step-IsScored _ _ (Step.do_report user ts) h = change-IsScored user _ ts (λ t i. i) h

-- If every trust score is at most 100, it stays so whatever calls are made, in whatever
-- order.
Reach-IsScored : (ts us : List TrustScore) → Reach ts us → All IsScored ts → All IsScored us
Reach-IsScored _ _ (Reach.stay ts) h = h
Reach-IsScored _ _ (Reach.then_step ts us vs r st) h =
    Step-IsScored us vs st (Reach-IsScored ts us r h)

-- A penalty that leaves a member's row under 15 points hides the member, and one who was hidden
-- stays so; the score falls by the points, and not under 0.
penalise_hides :
    (now : ℕ) (today : Text) (user points : ℕ) (reason : Text) (ts : List TrustScore)
    (t : TrustScore)
    → first_where (is_of user) ts ≡ some t
    → (t.score < points + 15) ⊎ (t.is_shadow_banned ≡ true)
    → let us = penalise now today (some user) points reason ts in
      (is_shadow_banned user us ≡ true)
      × (first_where (is_of user) us ≡ some (penalised now today points reason t))
      × ((penalised now today points reason t).score ≡ t.score - points)
unfolding penalise penalised change get with_row is_shadow_banned
penalise_hides now today user points reason ts t e d =
    let row = first-update_self (is_of user) (penalised now today points reason) ts t (same) e in
    rw e (exists_of_first (is_of user) _ _ _ row (holds d), row, score)
  where
    same : (x : TrustScore) → is_of user (penalised now today points reason x) ≡ is_of user x
    same x = ground arith

    score : (penalised now today points reason t).score ≡ t.score - points
    score = ground arith

    holds :
        (t.score < points + 15) ⊎ (t.is_shadow_banned ≡ true)
        → (is_of user (penalised now today points reason t)
            && (penalised now today points reason t).is_shadow_banned)
          ≡ true
    holds d = ground (arith, first_where-holds (is_of user) ts t e)
