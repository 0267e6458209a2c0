-- ===== src/Likes/Quotas.antt =====
-- QuotaService of apps/likes/services.py: the counters of the day, reset when they are next read.
use date_app.Common.{
  ℕ, ◌+◌, ◌-◌, Bool, false, not, Option, none, some, List, ◌∷◌, ◌++◌, ltb, leb, ◌==◌, if◌then◌else◌,
  is_some, get_or, Text, codes, first_where, update_where, Action, ok, err, ZynoraError, decimal,
}
use date_app.Subscriptions.Plan.{QuotaLimits}
use date_app.Likes.Models.{SwipeQuota, Store, Services, date}

-- `SwipeQuota.reset`
unfoldable pub reset : ℕ → SwipeQuota → SwipeQuota
reset now q = record q { likes_used = 0; super_likes_used = 0; rewinds_used = 0; reset_at = now }

abbrev pub is_of : ℕ → SwipeQuota → Bool
is_of user q = q.user == user

abbrev pub new_quota : ℕ → ℕ → SwipeQuota
new_quota now user = record {
  user = user;
  likes_used = 0;
  super_likes_used = 0;
  rewinds_used = 0;
  reset_at = now;
}

-- The quota after the lazy reset, and the table with it written back.
unfoldable pub refresh : ℕ → ℕ → Option SwipeQuota → List SwipeQuota → SwipeQuota × List SwipeQuota
unfolding reset
refresh now user none qs = (new_quota now user, new_quota now user ∷ qs)
refresh now user (some q) qs =
    if ltb (date q.reset_at) (date now)
    then (reset now q, update_where (is_of user) (reset now) qs)
    else (q, qs)

-- `QuotaService.get`
unfoldable pub get_quota : ℕ → ℕ → Store → SwipeQuota × Store
unfolding refresh
get_quota now user s =
    let (q, qs) = refresh now user (first_where (is_of user) s.quotas) s.quotas in
    (q, record s { quotas = qs })

-- The counter that a call consumes; `limit_key` names its limit in the same words.
pub data Field : Type 0 where
  likes_used super_likes_used rewinds_used : Field

abbrev pub used : Field → SwipeQuota → ℕ
used Field.likes_used q = q.likes_used
used Field.super_likes_used q = q.super_likes_used
used Field.rewinds_used q = q.rewinds_used

abbrev pub limit_of : Field → QuotaLimits → Option ℕ
limit_of Field.likes_used l = l.daily_likes
limit_of Field.super_likes_used l = l.daily_super_likes
limit_of Field.rewinds_used l = l.daily_rewinds

abbrev pub set_used : Field → ℕ → SwipeQuota → SwipeQuota
set_used Field.likes_used n q = record q { likes_used = n }
set_used Field.super_likes_used n q = record q { super_likes_used = n }
set_used Field.rewinds_used n q = record q { rewinds_used = n }

-- `limit is not None and used >= limit`
abbrev pub is_spent : Option ℕ → ℕ → Bool
is_spent none n = false
is_spent (some limit) n = leb limit n

-- `_remaining`
unfoldable pub remaining : Option ℕ → ℕ → Option ℕ
remaining none n = none
remaining (some limit) n = some (limit - n)

pub record Snapshot : Type 0 where
  pub likes_used : ℕ
  pub likes_limit : Option ℕ
  pub likes_remaining : Option ℕ
  pub super_likes_used : ℕ
  pub super_likes_limit : Option ℕ
  pub super_likes_remaining : Option ℕ
  pub rewinds_used : ℕ
  pub rewinds_limit : Option ℕ
  pub rewinds_remaining : Option ℕ
  pub is_unlimited : Bool

-- The dict that `QuotaService.snapshot` builds.
unfoldable pub snapshot_of : QuotaLimits → SwipeQuota → Snapshot
unfolding remaining
snapshot_of l q = record {
  likes_used = q.likes_used;
  likes_limit = l.daily_likes;
  likes_remaining = remaining l.daily_likes q.likes_used;
  super_likes_used = q.super_likes_used;
  super_likes_limit = l.daily_super_likes;
  super_likes_remaining = remaining l.daily_super_likes q.super_likes_used;
  rewinds_used = q.rewinds_used;
  rewinds_limit = l.daily_rewinds;
  rewinds_remaining = remaining l.daily_rewinds q.rewinds_used;
  is_unlimited = not (is_some l.daily_likes);
}

-- `field.replace('_', ' ').replace(' used', '')`
abbrev words : Field → Text
words Field.likes_used = codes "likes"
words Field.super_likes_used = codes "super likes"
words Field.rewinds_used = codes "rewinds"

-- The error of a counter that has reached its limit.
unfoldable pub used_up : Option ℕ → Field → ℕ → ZynoraError
used_up limit field used =
    let n = get_or limit 0 in
    ZynoraError.quota_used_up
      (codes "You've used all "
        ++ decimal n
        ++ codes " of today's "
        ++ words field
        ++ codes ". Upgrade for more.")
      n used

module _ (sv : Services) where
  -- `QuotaService.consume`
  unfoldable pub consume : ℕ → ℕ → Field → Action Store SwipeQuota
  unfolding get_quota
  consume now user field s =
      let (q, t) = get_quota now user s in
      let spent = set_used field (used field q + 1) in
      if is_spent (limit_of field (sv.get_quota_limits user)) (used field q)
      then (err (used_up (limit_of field (sv.get_quota_limits user)) field (used field q)), t)
      else (ok (spent q), record t { quotas = update_where (is_of user) spent t.quotas })

  -- `QuotaService.snapshot`
  unfoldable pub snapshot : ℕ → ℕ → Action Store Snapshot
  unfolding get_quota snapshot_of
  snapshot now user s =
      let (q, t) = get_quota now user s in (ok (snapshot_of (sv.get_quota_limits user) q), t)
