-- ===== src/Subscriptions/Models.antt =====
-- The tables of apps/subscriptions/models.py, with the cache of SubscriptionService and the counters of
-- the messages sent. A price is in cents, a coupon's value in hundredths of a percent, of a unit of
-- money or of a day; what a discount leaves is in ten-thousandths of a cent, so that it is exact.
use date_app.Common.{
  ℕ, ◌-◌, ◌*◌, ◌/◌, Bool, true, false, not, ◌&&◌, Option, none, some, List, ltb, leb, ◌==◌, Text,
  take,
}
use date_app.Subscriptions.Plan.{Entitlement, QuotaLimits, Plan}

pub data SubscriptionStatus : Type 0 where
  trialing active past_due cancelled expired : SubscriptionStatus

pub record Subscription : Type 0 where
  pub id : ℕ
  pub user : ℕ
  pub plan : Plan
  pub status : SubscriptionStatus
  pub started_at : ℕ
  pub expires_at : Option ℕ
  pub trial_ends_at : Option ℕ
  pub cancelled_at : Option ℕ
  pub cancel_reason : Text
  pub auto_renew : Bool
  pub renewal_count : ℕ
  pub payment_id : Option ℕ
  pub coupon_code : Option ℕ
  pub amount_paid : ℕ
  pub boosts_remaining : ℕ

-- The statuses that the live filters name.
abbrev pub is_running : SubscriptionStatus → Bool
is_running SubscriptionStatus.active = true
is_running SubscriptionStatus.trialing = true
is_running _ = false

-- `models_expiry_filter`
abbrev pub is_unexpired : ℕ → Subscription → Bool
is_unexpired now s = elim s.expires_at [ none ↦ true | some t ↦ ltb now t ]

-- `Subscription.is_live`
abbrev pub is_live : ℕ → Subscription → Bool
is_live now s = is_running s.status && is_unexpired now s

-- `Subscription.expire`
abbrev pub expired_row : Subscription → Subscription
expired_row s = record s { status = SubscriptionStatus.expired }

-- `Subscription.cancel`
abbrev pub cancelled_row : ℕ → Text → Subscription → Subscription
cancelled_row now reason s = record s {
  status = SubscriptionStatus.cancelled;
  auto_renew = false;
  cancelled_at = some now;
  cancel_reason = take 200 reason;
}

pub data DiscountType : Type 0 where
  percent fixed free_days : DiscountType

-- A code is a number, which stands for the text up to its case and the white space around it, as
-- `code__iexact` of the stripped text reads it.
pub record Coupon : Type 0 where
  pub code : ℕ
  pub discount_type : DiscountType
  pub value : ℕ
  pub applies_to_plans : List ℕ
  pub max_redemptions : Option ℕ
  pub redemption_count : ℕ
  pub per_user_limit : ℕ
  pub valid_from : ℕ
  pub valid_until : Option ℕ
  pub is_active : Bool

-- `self.max_redemptions and self.redemption_count >= self.max_redemptions`
abbrev pub is_used_up : Coupon → Bool
is_used_up c = elim c.max_redemptions [
  | none ↦ false
  | some m ↦ not (m == 0) && leb m c.redemption_count
]

-- `Coupon.is_valid`
unfoldable pub is_valid : ℕ → Coupon → Bool
is_valid now c =
    c.is_active
    && not (ltb now c.valid_from)
    && elim c.valid_until [ none ↦ true | some t ↦ not (ltb t now) ]
    && not (is_used_up c)

-- `Coupon.discount_for`, on an amount in cents.
unfoldable pub discount_for : Coupon → ℕ → ℕ × ℕ
discount_for c amount = elim c.discount_type [
  | DiscountType.percent ↦ (amount * 10000 - amount * c.value, 0)
  | DiscountType.fixed ↦ ((amount - c.value) * 10000, 0)
  | DiscountType.free_days ↦ (amount * 10000, c.value / 100)
]

pub record CouponRedemption : Type 0 where
  pub coupon : ℕ
  pub user : ℕ
  pub amount_saved : ℕ

pub data SubscriptionEvent : Type 0 where
  subscription_started subscription_renewed : ℕ → ℕ → SubscriptionEvent
  subscription_cancelled : ℕ → ℕ → Option ℕ → SubscriptionEvent
  subscription_expired : ℕ → ℕ → SubscriptionEvent

-- A member's cached entitlements and limits.
pub record CachedEntitlements : Type 0 where
  pub user : ℕ
  pub values : List Entitlement
  pub expires : ℕ

pub record CachedLimits : Type 0 where
  pub user : ℕ
  pub limits : QuotaLimits
  pub expires : ℕ

-- The messages that a member has sent on a day.
pub record MessageCount : Type 0 where
  pub user : ℕ
  pub day : ℕ
  pub used : ℕ

pub record Store : Type 0 where
  pub plans : List Plan
  pub subscriptions : List Subscription
  pub coupons : List Coupon
  pub redemptions : List CouponRedemption
  pub entitlements : List CachedEntitlements
  pub limits : List CachedLimits
  pub messages : List MessageCount
  pub events : List SubscriptionEvent
