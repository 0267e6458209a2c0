-- ===== src/Subscriptions/Coupons.antt =====
-- CouponService of apps/subscriptions/services.py.
use date_app.Common.{
  ℕ, ◌+◌, ◌-◌, ◌*◌, Bool, not, ◌&&◌, Option, none, some, List, ◌∷◌, leb, ◌==◌, if◌then◌else◌,
  is_empty, first_where, exists_where, count_where, update_where, Action, ZynoraError, pure, gets,
  or_raise, atomic, ◌>>=◌, ◌>>◌, modify, raise_some,
}
use date_app.Subscriptions.Plan.{Plan}
use date_app.Subscriptions.Models.{Coupon, is_valid, discount_for, CouponRedemption, Store}

abbrev pub is_coupon : ℕ → Coupon → Bool
is_coupon code c = c.code == code

abbrev pub is_redemption : ℕ → ℕ → CouponRedemption → Bool
is_redemption code user r = r.coupon == code && r.user == user

-- What `CouponService.validate` refuses of the coupon that it has found.
unfoldable pub refusal : ℕ → ℕ → Plan → Coupon → List CouponRedemption → Option ZynoraError
unfolding is_valid
refusal now user plan c rs =
    if not (is_valid now c)
    then some (ZynoraError.validation_error "That coupon code is not valid.")
    else if not (is_empty c.applies_to_plans)
        && not (exists_where (λ k. k == plan.code) c.applies_to_plans)
    then some (ZynoraError.validation_error "That coupon does not apply to this plan.")
    else if leb c.per_user_limit (count_where (is_redemption c.code user) rs)
    then some (ZynoraError.validation_error "You have already used this coupon.")
    else none

-- `CouponService.validate`
unfoldable pub validate : ℕ → ℕ → ℕ → Plan → Action Store Coupon
unfolding refusal
validate now code user plan = do
  c ←
      or_raise (← gets (λ s. first_where (is_coupon code) s.coupons))
        (ZynoraError.validation_error "That coupon code is not valid.")
  refused ← gets (λ s. refusal now user plan c s.redemptions)
  raise_some refused
  pure c

abbrev pub counted : Coupon → Coupon
counted c = record c { redemption_count = c.redemption_count + 1 }

-- The redemption's row, and the coupon's counter.
unfoldable pub redeemed : ℕ → Plan → Coupon → Store → Store
unfolding discount_for
redeemed user plan c s = record s {
  redemptions =
      record {
        coupon = c.code;
        user = user;
        amount_saved = plan.price * 10000 - (discount_for c plan.price).0;
      }
      ∷ s.redemptions;
  coupons = update_where (is_coupon c.code) counted s.coupons;
}

-- `CouponService.redeem`: the days that it adds.
unfoldable pub redeem : ℕ → ℕ → ℕ → Plan → Action Store ℕ
unfolding validate redeemed
redeem now code user plan = atomic do
  c ← validate now code user plan
  modify (redeemed user plan c)
  pure (discount_for c plan.price).1
