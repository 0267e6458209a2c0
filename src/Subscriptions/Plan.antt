-- ===== src/Subscriptions/Plan.antt =====
-- Plans and what they allow: Entitlement and Plan of apps/subscriptions/models.py, and PlanService of
-- apps/subscriptions/services.py. A price is in hundredths; a currency is its code as a text.
use date_app.Common.{ℕ, Bool, not, Option, List, ◌==◌}

pub data Entitlement : Type 0 where
  unlimited_likes see_who_likes_you see_profile_viewers advanced_filters rewind boost : Entitlement
  media_messages unlimited_messages incognito priority_support read_receipts no_ads : Entitlement

-- The limits of one day; `none` means unlimited.
pub record QuotaLimits : Type 0 where
  pub daily_likes : Option ℕ
  pub daily_super_likes : Option ℕ
  pub daily_rewinds : Option ℕ
  pub daily_messages : Option ℕ
  pub monthly_boosts : ℕ

pub record Plan : Type 0 where
  pub code : ℕ
  pub price : ℕ
  pub currency : ℕ
  pub duration_days : ℕ
  pub trial_days : ℕ
  pub entitlements : List Entitlement
  pub daily_likes : Option ℕ
  pub daily_super_likes : Option ℕ
  pub daily_rewinds : Option ℕ
  pub daily_messages : Option ℕ
  pub monthly_boosts : ℕ
  pub is_active : Bool
  pub is_default : Bool

-- `Plan.is_free` and `Plan.is_premium`
abbrev pub is_free : Plan → Bool
is_free p = p.price == 0

abbrev pub is_premium : Plan → Bool
is_premium p = not (is_free p)

-- `Plan.quota_limits`
abbrev pub quota_limits : Plan → QuotaLimits
quota_limits p = record {
  daily_likes = p.daily_likes;
  daily_super_likes = p.daily_super_likes;
  daily_rewinds = p.daily_rewinds;
  daily_messages = p.daily_messages;
  monthly_boosts = p.monthly_boosts;
}
