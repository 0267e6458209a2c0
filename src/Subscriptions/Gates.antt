-- ===== src/Subscriptions/Gates.antt =====
-- What a member may do: PlanService and the reads of SubscriptionService of
-- apps/subscriptions/services.py, and `can_send_message` of apps/subscriptions/interface.py.
use date_app.Common.{
  ℕ, ◌+◌, Bool, true, false, ◌&&◌, Option, none, some, List, [], ◌∷◌, ltb, leb, ◌==◌, if◌then◌else◌,
  first_where, delete_where, Action, ZynoraError, gets, or_raise, ◌>>=◌,
}
use date_app.Subscriptions.Plan.{Entitlement, QuotaLimits, Plan, quota_limits}
use date_app.Subscriptions.Models.{Subscription, is_live, MessageCount, Store}

-- The free plan that `PlanService.default_plan` makes where there is none; its code is 0.
abbrev pub free_plan : Plan
free_plan = record {
  code = 0;
  price = 0;
  currency = 0;
  duration_days = 36500;
  trial_days = 0;
  entitlements = [];
  daily_likes = some 20;
  daily_super_likes = some 10;
  daily_rewinds = some 0;
  daily_messages = some 200;
  monthly_boosts = 0;
  is_active = true;
  is_default = true;
}

-- `PlanService.default_plan`
unfoldable pub default_plan : Store → Plan × Store
default_plan s = elim (first_where (λ p. p.is_default && p.is_active) s.plans) [
  | some p ↦ (p, s)
  | none ↦ elim (first_where (λ p. p.code == 0) s.plans) [
    | some p ↦ (p, s)
    | none ↦ (free_plan, record s { plans = free_plan ∷ s.plans })
  ]
]

-- `PlanService.get`
unfoldable pub get_plan : ℕ → Action Store Plan
get_plan code = do
  or_raise (← gets (λ s. first_where (λ p. p.code == code && p.is_active) s.plans))
      (ZynoraError.not_found "That plan is not available.")

abbrev pub is_current : ℕ → ℕ → Subscription → Bool
is_current now user b = b.user == user && is_live now b

-- `SubscriptionService.current`; the rows are in the order of their start, the newest first.
unfoldable pub current : ℕ → ℕ → Store → Option Subscription
current now user s = first_where (is_current now user) s.subscriptions

-- `SubscriptionService.current_plan`
unfoldable pub current_plan : ℕ → ℕ → Store → Plan × Store
unfolding current default_plan
current_plan now user s = elim (current now user s) [ some b ↦ (b.plan, s) | none ↦ default_plan s ]

-- `SubscriptionService.quota_limits`
unfoldable pub quota_limits_of : ℕ → ℕ → Store → QuotaLimits × Store
unfolding current_plan
quota_limits_of now user s =
    elim (first_where (λ c. c.user == user && ltb now c.expires) s.limits) [
      | some c ↦ (c.limits, s)
      | none ↦
          let (p, t) = current_plan now user s in
          (
            quota_limits p,
            record t {
              limits =
                  record { user = user; limits = quota_limits p; expires = now + 300 } ∷ t.limits;
            },
          )
    ]

-- `SubscriptionService.entitlements`
unfoldable pub entitlements_of : ℕ → ℕ → Store → List Entitlement × Store
unfolding current_plan
entitlements_of now user s =
    elim (first_where (λ c. c.user == user && ltb now c.expires) s.entitlements) [
      | some c ↦ (c.values, s)
      | none ↦
          let (p, t) = current_plan now user s in
          (
            p.entitlements,
            record t {
              entitlements =
                  record { user = user; values = p.entitlements; expires = now + 300 }
                  ∷ t.entitlements;
            },
          )
    ]

-- `SubscriptionService.invalidate`
unfoldable pub invalidate : ℕ → Store → Store
invalidate user s = record s {
  entitlements = delete_where (λ c. c.user == user) s.entitlements;
  limits = delete_where (λ c. c.user == user) s.limits;
}

abbrev pub is_count : ℕ → ℕ → MessageCount → Bool
is_count user day m = m.user == user && m.day == day

-- The messages sent on a day; a count is kept for the day of its first message.
abbrev pub used_on : ℕ → ℕ → Store → ℕ
used_on user day s = elim (first_where (is_count user day) s.messages) [
  | none ↦ 0
  | some m ↦ m.used
]

-- `SubscriptionsInterface.can_send_message` on the day `day`.
unfoldable pub can_send_message : ℕ → ℕ → ℕ → Store → Bool × Store
unfolding quota_limits_of
can_send_message now day user s =
    let (l, t) = quota_limits_of now user s in
    elim l.daily_messages [
      | none ↦ (true, t)
      | some n ↦ if leb n (used_on user day t) then (false, t) else (
        true,
        record t {
          messages =
              record { user = user; day = day; used = used_on user day t + 1 }
              ∷ delete_where (is_count user day) t.messages;
        },
      )
    ]
