-- ===== src/Subscriptions/Tests.antt =====
-- The theorems on subscriptions, at small tables.
use date_app.Common.{
  ◌+◌, ◌≤◌, ◌≡◌, refl, true, false, none, some, [], ◌∷◌, first_where, count_where, ok,
}
use date_app.Subscriptions.Plan.{Plan}
use date_app.Subscriptions.Models.{
  SubscriptionStatus, Subscription, DiscountType, Coupon, is_valid, discount_for, Store,
}
use date_app.Subscriptions.Coupons.{is_coupon, is_redemption, refusal, redeem}
use date_app.Subscriptions.Gates.{free_plan}
use date_app.Subscriptions.Lifecycle.{runs_for, Start, start}
use date_app.Subscriptions.Live.{start_one}
use date_app.Subscriptions.Caps.{IsCapped, redeem_caps}

abbrev gold : Plan
gold = record free_plan { code = 1; price = 1000; duration_days = 30; is_default = false }

abbrev coupon : Coupon
coupon = record {
  code = 5;
  discount_type = DiscountType.percent;
  value = 1000;
  applies_to_plans = [];
  max_redemptions = some 2;
  redemption_count = 1;
  per_user_limit = 1;
  valid_from = 0;
  valid_until = none;
  is_active = true;
}

abbrev arguments : Start
arguments = record {
  user = 4;
  payment_id = none;
  coupon_code = some 5;
  amount_paid = 900;
  with_trial = false;
}

abbrev running : Subscription
running = record {
  id = 1;
  user = 4;
  plan = gold;
  status = SubscriptionStatus.active;
  started_at = 10;
  expires_at = some 1000;
  trial_ends_at = none;
  cancelled_at = none;
  cancel_reason = [];
  auto_renew = true;
  renewal_count = 0;
  payment_id = none;
  coupon_code = none;
  amount_paid = 1000;
  boosts_remaining = 0;
}

abbrev table : Store
table = record {
  plans = gold ∷ free_plan ∷ [];
  subscriptions = running ∷ [];
  coupons = coupon ∷ [];
  redemptions = [];
  entitlements = [];
  limits = [];
  messages = [];
  events = [];
}

start_one_example :
    let (r, t) = start 50 2 1 arguments table in
    (b : Subscription) × (r ≡ ok b)
    × (first_where (runs_for 4) t.subscriptions ≡ some b)
    × (count_where (runs_for 4) t.subscriptions ≡ 1)
unfolding first_where refusal is_valid count_where
start_one_example = start_one 50 2 1 arguments table gold refl (coupon, refl, refl)

redeem_caps_example :
    let (r, t) = redeem 50 5 4 gold table in
    (r ≡ ok (discount_for coupon 1000).1)
    × ((k : Coupon) × (first_where (is_coupon 5) t.coupons ≡ some k)
        × (k.redemption_count ≡ coupon.redemption_count + 1)
        × IsCapped k)
    × (count_where (is_redemption 5 4) t.redemptions
        ≡ count_where (is_redemption 5 4) table.redemptions + 1)
    × (count_where (is_redemption 5 4) t.redemptions ≤ 1)
unfolding first_where refusal is_valid count_where
redeem_caps_example = redeem_caps 50 5 4 gold table coupon refl refl

-- Ten percent off ten units.
discounted : (discount_for coupon 1000).0 ≡ 9000000
unfolding discount_for
discounted = refl
