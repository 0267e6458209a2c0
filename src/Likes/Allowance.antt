-- ===== src/Likes/Allowance.antt =====
-- The counters of QuotaService (apps/likes/services.py) stay within the plan's limits of the day.
use date_app.Common.{
  ℕ, ◌+◌, ◌≤◌, ◌≡◌, sym, subst, inl, inr, true, false, Option, none, some, List, arith, ltb,
  Bool-cases, first_where, All, All-update,
}
use date_app.Common.Calls.Keeps.{Keeps, keeps_rules}
use date_app.Likes.Models.{LikeType, Like, LikeEvent, SwipeQuota, Store, Services, date}
use date_app.Likes.Quotas.{
  is_of, reset, refresh, get_quota, Field, used, limit_of, set_used, is_spent, consume, snapshot,
}
use date_app.Likes.Swipes.{
  Request, charge, check_swipe, settle, tell, take_back, pay_and_take_back, create_match, announce,
  announce_pass, record_like, publish, swipe, rewind,
}

-- A count within a limit; `none` is no limit.
abbrev pub Within : Option ℕ → ℕ → Type 0
Within none n = Unit
Within (some limit) n = n ≤ limit

module _ (sv : Services) where
  -- Every counter of a row is within its limit.
  abbrev pub RowWithin : SwipeQuota → Type 0
  RowWithin q =
      let l = sv.get_quota_limits q.user in
      Within l.daily_likes q.likes_used
      × Within l.daily_super_likes q.super_likes_used
      × Within l.daily_rewinds q.rewinds_used

  abbrev pub IsWithin : Store → Type 0
  IsWithin s = All RowWithin s.quotas

  Within-zero : (l : Option ℕ) → Within l 0
  Within-zero none = tt
  Within-zero (some limit) = omega arith

  Within-next : (l : Option ℕ) (n : ℕ) → is_spent l n ≡ false → Within l (n + 1)
  Within-next none n h = tt
  Within-next (some limit) n h = ground arith

  RowWithin-reset : (now : ℕ) (q : SwipeQuota) → RowWithin (reset now q)
  unfolding reset
  RowWithin-reset now q = (Within-zero _, Within-zero _, Within-zero _)

  refresh-IsWithin :
      (now user : ℕ) (found : Option SwipeQuota) (qs : List SwipeQuota)
      → All RowWithin qs
      → All RowWithin (refresh now user found qs).1
  unfolding refresh
  refresh-IsWithin now user none qs h = ((Within-zero _, Within-zero _, Within-zero _), h)
  refresh-IsWithin now user (some q) qs h = elim (Bool-cases (ltb (date q.reset_at) (date now))) [
    | inl old ↦
        rw (old, refresh)
          (All-update RowWithin (is_of user) (reset now) qs (λ x e r. RowWithin-reset now x) h)
    | inr same ↦ rw (same, refresh) h
  ]

  get_quota-IsWithin : (now user : ℕ) (s : Store) → IsWithin s → IsWithin (get_quota now user s).1
  unfolding get_quota
  get_quota-IsWithin now user s h =
      refresh-IsWithin now user (first_where (is_of user) s.quotas) s.quotas h

  RowWithin-set_used :
      (user : ℕ) (field : Field) (n : ℕ) (q : SwipeQuota)
      → Within (limit_of field (sv.get_quota_limits user)) n
      → is_of user q ≡ true
      → RowWithin q
      → RowWithin (set_used field n q)
  RowWithin-set_used user field n q w e h =
      let owner : q.user ≡ user = ground arith in
      set_within field
        (subst (λ u. Within (limit_of field (sv.get_quota_limits u)) n) (sym owner) w) h
    where
      set_within :
          (field : Field)
          → Within (limit_of field (sv.get_quota_limits q.user)) n
          → RowWithin q
          → RowWithin (set_used field n q)
      set_within Field.likes_used w h = (w, h.1, h.2)
      set_within Field.super_likes_used w h = (h.0, w, h.2)
      set_within Field.rewinds_used w h = (h.0, h.1, w)

  consume_stays :
      (now user : ℕ) (field : Field) (s : Store)
      → IsWithin s
      → IsWithin (consume sv now user field s).1
  unfolding consume
  consume_stays now user field s h =
      let (q, t) = get_quota now user s in
      let kept = get_quota-IsWithin now user s h in
      elim (Bool-cases (is_spent (limit_of field (sv.get_quota_limits user)) (used field q))) [
        | inl spent ↦ rw (spent, consume) kept
        | inr left ↦
            rw (left, consume)
              (All-update RowWithin (is_of user) (set_used field (used field q + 1)) t.quotas
                (λ x e r.
                  RowWithin-set_used user field (used field q + 1) x (Within-next _ _ left) e r)
                kept)
      ]

  consume-IsWithin : (now user : ℕ) (field : Field) → Keeps IsWithin (consume sv now user field)
  consume-IsWithin now user field = record { at = consume_stays now user field }

  pub Keeps-check_swipe : {P : Store → Type 0} (r : Request) → Keeps P (check_swipe sv r)
  unfolding check_swipe
  Keeps-check_swipe r = search keeps_rules depth 12

  charge-IsWithin : (now user : ℕ) (kind : LikeType) → Keeps IsWithin (charge sv now user kind)
  unfolding charge
  charge-IsWithin now user LikeType.like = search (keeps_rules, consume-IsWithin)
  charge-IsWithin now user LikeType.super_like = search (keeps_rules, consume-IsWithin)
  charge-IsWithin now user LikeType.pass = search keeps_rules

  snapshot-IsWithin : (now user : ℕ) → Keeps IsWithin (snapshot sv now user)
  unfolding snapshot
  snapshot-IsWithin now user = record { at = λ s h. get_quota-IsWithin now user s h }

  -- Calls that write no quota.
  create_match-IsWithin : (r : Request) → Keeps IsWithin (create_match sv r)
  unfolding create_match
  create_match-IsWithin r = record { at = λ s h. h }

  publish-IsWithin : (e : LikeEvent) → Keeps IsWithin (publish e)
  unfolding publish
  publish-IsWithin e = record { at = λ s h. h }

  record_like-IsWithin :
      (existing : Option Like) (r : Request) (score : Option ℕ)
      → Keeps IsWithin (record_like sv existing r score)
  unfolding record_like
  record_like-IsWithin existing r score = record { at = λ s h. h }

  ruleset within_rules = (
    keeps_rules, create_match-IsWithin, publish-IsWithin, record_like-IsWithin, snapshot-IsWithin,
    consume-IsWithin, charge-IsWithin,
  )

  announce-IsWithin :
      (r : Request) (row : Like) (score : Option ℕ) → Keeps IsWithin (announce sv r row score)
  unfolding announce
  announce-IsWithin r row score = search within_rules

  announce_pass-IsWithin : (r : Request) → Keeps IsWithin (announce_pass sv r)
  unfolding announce_pass
  announce_pass-IsWithin r = search within_rules

  swipe-Keeps : (r : Request) → Keeps IsWithin (swipe sv r)
  unfolding swipe settle tell
  swipe-Keeps r =
      search (within_rules, Keeps-check_swipe, announce-IsWithin, announce_pass-IsWithin) depth 12

  rewind-Keeps : (now user : ℕ) → Keeps IsWithin (rewind sv now user)
  unfolding rewind pay_and_take_back take_back
  rewind-Keeps now user = search within_rules depth 16

  -- If no counter is over the limit of its member's plan, a swipe and a rewind leave it so.
  pub swipe-IsWithin :
      (r : Request) (now user : ℕ) (s : Store)
      → IsWithin s
      → IsWithin (swipe sv r s).1 × IsWithin (rewind sv now user s).1
  swipe-IsWithin r now user s h = ((swipe-Keeps r).at s h, (rewind-Keeps now user).at s h)
