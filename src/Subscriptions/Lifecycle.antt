-- ===== src/Subscriptions/Lifecycle.antt =====
-- The life of a subscription: SubscriptionService of apps/subscriptions/services.py.
use date_app.Common.{
  ℕ, ◌+◌, ◌-◌, ◌*◌, max, Bool, true, false, not, ◌&&◌, Option, none, some, List, [], ◌∷◌, ltb, ◌==◌,
  if◌then◌else◌, get_or, Text, codes, length, first_where, filter_by, update_where, Action,
  ZynoraError, pure, gets, or_raise, atomic, ◌>>=◌, ◌>>◌, raise_if, modify,
}
use date_app.Subscriptions.Plan.{Plan}
use date_app.Subscriptions.Models.{
  SubscriptionStatus, Subscription, is_running, expired_row, cancelled_row, SubscriptionEvent,
  Store,
}
use date_app.Subscriptions.Coupons.{redeem}
use date_app.Subscriptions.Gates.{get_plan, current, invalidate}

abbrev publish : SubscriptionEvent → Store → Store
publish e s = record s { events = e ∷ s.events }

-- A member's running subscriptions.
abbrev pub runs_for : ℕ → Subscription → Bool
runs_for user b = b.user == user && is_running b.status

abbrev pub replaced : ℕ → Subscription → Subscription
replaced now b = record b {
  status = SubscriptionStatus.cancelled;
  cancelled_at = some now;
  cancel_reason = codes "replaced by new plan";
}

-- The arguments of `SubscriptionService.start`.
pub record Start : Type 0 where
  pub user : ℕ
  pub payment_id : Option ℕ
  pub coupon_code : Option ℕ
  pub amount_paid : ℕ
  pub with_trial : Bool

-- The row that `start` inserts.
unfoldable pub new_subscription : ℕ → ℕ → Plan → ℕ → Start → Subscription
new_subscription now id plan bonus_days a =
    let on_trial = a.with_trial && not (plan.trial_days == 0) in
    record {
      id = id;
      user = a.user;
      plan = plan;
      status = if on_trial then SubscriptionStatus.trialing else SubscriptionStatus.active;
      started_at = now;
      expires_at = some (now + (plan.duration_days + bonus_days) * 86400);
      trial_ends_at = if on_trial then some (now + plan.trial_days * 86400) else none;
      cancelled_at = none;
      cancel_reason = [];
      auto_renew = true;
      renewal_count = 0;
      payment_id = a.payment_id;
      coupon_code = a.coupon_code;
      amount_paid = a.amount_paid;
      boosts_remaining = plan.monthly_boosts;
    }

unfoldable pub bonus : ℕ → ℕ → Plan → Option ℕ → Action Store ℕ
unfolding redeem
bonus now user plan none = pure 0
bonus now user plan (some code) = redeem now code user plan

-- The last writes of `start`.
unfoldable pub opened : ℕ → ℕ → Plan → ℕ → Start → Store → Store
unfolding new_subscription invalidate
opened now id plan bonus_days a s = publish (SubscriptionEvent.subscription_started a.user id) (
    invalidate a.user
      (record s { subscriptions = new_subscription now id plan bonus_days a ∷ s.subscriptions }))

-- `SubscriptionService.start`
unfoldable pub start : ℕ → ℕ → ℕ → Start → Action Store Subscription
unfolding get_plan bonus opened
start now id plan_code a = atomic do
  plan ← get_plan plan_code
  modify λ s. record s {
    subscriptions = update_where (runs_for a.user) (replaced now) s.subscriptions;
  }
  bonus_days ← bonus now a.user plan a.coupon_code
  modify (opened now id plan bonus_days a)
  pure (new_subscription now id plan bonus_days a)

abbrev pub is_subscription : ℕ → Subscription → Bool
is_subscription id b = b.id == id

abbrev pub renewed : ℕ → Option ℕ → Subscription → Subscription
renewed now payment_id b = record b {
  expires_at = some (max (get_or b.expires_at now) now + b.plan.duration_days * 86400);
  status = SubscriptionStatus.active;
  renewal_count = b.renewal_count + 1;
  boosts_remaining = b.plan.monthly_boosts;
  payment_id = elim payment_id [ none ↦ b.payment_id | some i ↦ some i ];
}

-- A row is saved, the cache dropped and the event published.
unfoldable pub saved : ℕ → ℕ → (Subscription → Subscription) → SubscriptionEvent → Store → Store
unfolding invalidate
saved user id f e s = publish e (
    invalidate user
      (record s { subscriptions = update_where (is_subscription id) f s.subscriptions }))

-- `SubscriptionService.renew`
unfoldable pub renew : ℕ → ℕ → Option ℕ → Action Store Subscription
unfolding saved
renew now id payment_id = atomic do
  b ←
      or_raise (← gets (λ s. first_where (is_subscription id) s.subscriptions))
        (ZynoraError.not_found "Subscription not found.")
  modify
      (saved b.user id (renewed now payment_id) (SubscriptionEvent.subscription_renewed b.user id))
  pure (renewed now payment_id b)

-- `SubscriptionService.cancel`
unfoldable pub cancel : ℕ → ℕ → Text → Action Store Subscription
unfolding current saved
cancel now user reason = do
  b ←
      or_raise (← gets (current now user))
        (ZynoraError.validation_error "You don't have an active subscription.")
  modify (
      saved user b.id (cancelled_row now reason)
        (SubscriptionEvent.subscription_cancelled user b.id b.expires_at))
  pure (cancelled_row now reason b)

-- The filter of `SubscriptionService.expire_due`.
abbrev pub is_due : ℕ → Subscription → Bool
is_due now b =
    elim b.status [
      | SubscriptionStatus.active ↦ true
      | SubscriptionStatus.trialing ↦ true
      | SubscriptionStatus.cancelled ↦ true
      | _ ↦ false
    ]
    && elim b.expires_at [ none ↦ false | some t ↦ ltb t now ]

unfoldable pub expire_one : Subscription → Store → Store
unfolding saved
expire_one b s =
    saved b.user b.id expired_row (SubscriptionEvent.subscription_expired b.user b.id) s

unfoldable pub expire_each : List Subscription → Store → Store
unfolding expire_one
expire_each [] s = s
expire_each (b ∷ bs) s = expire_each bs (expire_one b s)

-- `SubscriptionService.expire_due`
unfoldable pub expire_due : ℕ → Store → ℕ × Store
unfolding expire_each
expire_due now s =
    let due = filter_by (is_due now) s.subscriptions in (length due, expire_each due s)

-- `SubscriptionService.consume_boost`
unfoldable pub consume_boost : ℕ → ℕ → Action Store ℕ
unfolding current
consume_boost now user = do
  b ← or_raise (← gets (current now user)) (ZynoraError.validation_error "You have no boosts left.")
  raise_if (ltb b.boosts_remaining 1) (ZynoraError.validation_error "You have no boosts left.")
  modify λ s. record s {
    subscriptions =
        update_where (is_subscription b.id)
          (λ b. record b { boosts_remaining = b.boosts_remaining - 1 }) s.subscriptions;
  }
  pure (b.boosts_remaining - 1)
