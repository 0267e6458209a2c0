-- ===== src/Subscriptions/Caps.antt =====
-- What a coupon and a plan allow is not exceeded: CouponService of apps/subscriptions/services.py and
-- `can_send_message` of apps/subscriptions/interface.py.
use date_app.Common.{
  ℕ, zero, suc, ◌+◌, ◌-◌, ◌*◌, ◌/◌, ◌≤◌, ◌<◌, ◌≡◌, refl, sym, ap, subst, ◌∙◌, ◌⊎◌, inl, inr, true,
  false, ◌&&◌, none, some, List, ◌∷◌, arith, ltb, leb, ◌==◌, ==_refl, eq_of_==, Bool-cases,
  Option-cases, first_where, count_where, update_where, delete_where, first_where-holds,
  first-update_self, ok,
}
use date_app.Subscriptions.Plan.{Plan}
use date_app.Subscriptions.Models.{
  DiscountType, Coupon, is_used_up, is_valid, discount_for, CouponRedemption, Store,
}
use date_app.Subscriptions.Coupons.{is_coupon, is_redemption, refusal, counted, redeemed, redeem}
use date_app.Subscriptions.Gates.{
  default_plan, current, current_plan, quota_limits_of, is_count, used_on, can_send_message,
}
use date_app.Subscriptions.Live.{redeem_returns}

-- A discount takes at most the whole price, and gives days only if it takes nothing.
pub discount_for_lem :
    (c : Coupon) (amount : ℕ)
    → let (left, days) = discount_for c amount in
      (left ≤ amount * 10000) × ((days ≡ 0) ⊎ (left ≡ amount * 10000))
unfolding discount_for
discount_for_lem c amount =
    elim c.discount_type
      as (λ t.
        let (left, days) = elim t as (λ _. ℕ × ℕ) [
          | DiscountType.percent ↦ (amount * 10000 - amount * c.value, 0)
          | DiscountType.fixed ↦ ((amount - c.value) * 10000, 0)
          | DiscountType.free_days ↦ (amount * 10000, c.value / 100)
        ] in
        (left ≤ amount * 10000) × ((days ≡ 0) ⊎ (left ≡ amount * 10000))) [
          | DiscountType.percent ↦ (omega arith, inl refl)
          | DiscountType.fixed ↦ (omega arith, inl refl)
          | DiscountType.free_days ↦ (omega arith, inr refl)
        ]

-- A coupon's counter is within its limit; a limit of 0 is none.
abbrev pub IsCapped : Coupon → Type 0
IsCapped c =
    (c.max_redemptions ≡ none)
    ⊎ ((m : ℕ) × (c.max_redemptions ≡ some m) × ((m ≡ 0) ⊎ (c.redemption_count ≤ m)))

not_used_up : (c : Coupon) → is_used_up c ≡ false → IsCapped (counted c)
not_used_up c h = elim (Option-cases c.max_redemptions) [
  | inl e ↦ inl e
  | inr (zero, e) ↦ inr (0, e, inl refl)
  | inr (suc m, e) ↦ inr (suc m, e, inr (ground (arith, h, e)))
]

per_user :
    (now user : ℕ) (plan : Plan) (c : Coupon) (rs : List CouponRedemption)
    → refusal now user plan c rs ≡ none
    → (is_used_up c ≡ false) × (count_where (is_redemption c.code user) rs < c.per_user_limit)
unfolding refusal is_valid
per_user now user plan c rs h = (ground arith, ground arith)

-- A coupon that is found and not refused is redeemed: its row counts one redemption more, and so do
-- the member's redemptions of it; neither its own limit, where that is not 0, nor the member's limit
-- for it is exceeded.
pub redeem_caps :
    (now code user : ℕ) (plan : Plan) (s : Store) (c : Coupon)
    → first_where (is_coupon code) s.coupons ≡ some c
    → refusal now user plan c s.redemptions ≡ none
    → let (r, t) = redeem now code user plan s in
      (r ≡ ok (discount_for c plan.price).1)
      × ((k : Coupon) × (first_where (is_coupon code) t.coupons ≡ some k)
          × (k.redemption_count ≡ c.redemption_count + 1)
          × IsCapped k)
      × (count_where (is_redemption c.code user) t.redemptions
          ≡ count_where (is_redemption c.code user) s.redemptions + 1)
      × (count_where (is_redemption c.code user) t.redemptions ≤ c.per_user_limit)
unfolding redeemed count_where
redeem_caps now code user plan s c e n =
    let (u, k) = per_user now user plan c s.redemptions n in
    let h = eq_of_== c.code code (first_where-holds (is_coupon code) s.coupons c e) in
    rw (redeem_returns now code user plan s c e n) (
      refl,
      (
        counted c,
        subst
            (λ x.
              first_where (is_coupon x) (update_where (is_coupon c.code) counted s.coupons)
              ≡ some (counted c))
            h
            (first-update_self (is_coupon c.code) counted s.coupons c (λ x. refl)
              (subst (λ x. first_where (is_coupon x) s.coupons ≡ some c) (sym h) e)),
        refl,
        not_used_up c u,
      ),
      ground arith,
      ground (arith, k),
    )

default_messages : (s : Store) → (default_plan s).1.messages ≡ s.messages
unfolding default_plan
default_messages s = elim (Option-cases (first_where (λ p. p.is_default && p.is_active) s.plans)) [
  | inr (p, e) ↦ rw (e, default_plan) refl
  | inl e ↦ elim (Option-cases (first_where (λ p. p.code == 0) s.plans)) [
    | inr (p, f) ↦ rw (e, f, default_plan) refl
    | inl f ↦ rw (e, f, default_plan) refl
  ]
]

plan_messages : (now user : ℕ) (s : Store) → (current_plan now user s).1.messages ≡ s.messages
unfolding current_plan
plan_messages now user s = elim (Option-cases (current now user s)) [
  | inr (b, e) ↦ rw (e, current_plan) refl
  | inl e ↦ rw (e, current_plan) (default_messages s)
]

limits_messages : (now user : ℕ) (s : Store) → (quota_limits_of now user s).1.messages ≡ s.messages
unfolding quota_limits_of
limits_messages now user s =
    elim (Option-cases (first_where (λ c. c.user == user && ltb now c.expires) s.limits)) [
      | inr (c, e) ↦ rw (e, quota_limits_of) refl
      | inl e ↦ rw (e, quota_limits_of) (plan_messages now user s)
    ]

abbrev one_more : ℕ → ℕ → Store → Store
one_more day user t = record t {
  messages =
      record { user = user; day = day; used = used_on user day t + 1 }
      ∷ delete_where (is_count user day) t.messages;
}

module _ (now day user : ℕ) (s : Store) where
  abbrev limited : Store
  limited = (quota_limits_of now user s).1

  module _ (n : ℕ) (e : (quota_limits_of now user s).0.daily_messages ≡ some n) where
    send_full :
        leb n (used_on user day limited) ≡ true → can_send_message now day user s ≡ (false, limited)
    unfolding can_send_message
    send_full h = ground (arith, e, h)

    send_room :
        leb n (used_on user day limited) ≡ false
        → can_send_message now day user s ≡ (true, one_more day user limited)
    unfolding can_send_message
    send_room h = ground (arith, e, h)

  used_same : used_on user day limited ≡ used_on user day s
  used_same =
      ap
        (λ ms. elim (first_where (is_count user day) ms) as (λ _. ℕ) [ none ↦ 0 | some m ↦ m.used ])
        (limits_messages now user s)

  used_new : used_on user day (one_more day user limited) ≡ used_on user day limited + 1
  unfolding first_where
  used_new = ground (arith, ==_refl user, ==_refl day)

  used_more : used_on user day (one_more day user limited) ≡ used_on user day s + 1
  used_more = used_new ∙ ap (λ k. k + 1) used_same

-- Where a plan limits the messages of a day to `n`: a member who may send one has sent fewer that day,
-- and it is counted; one who may not has sent as many, and nothing is counted.
can_send_lem :
    (now day user : ℕ) (s : Store) (n : ℕ)
    → (quota_limits_of now user s).0.daily_messages ≡ some n
    → let (sent, t) = can_send_message now day user s in
      ((sent ≡ true) × (used_on user day t ≡ used_on user day s + 1) × (used_on user day t ≤ n))
      ⊎ ((sent ≡ false) × (used_on user day t ≡ used_on user day s) × (n ≤ used_on user day t))
can_send_lem now day user s n e =
    elim (Bool-cases (leb n (used_on user day (quota_limits_of now user s).1))) [
      | inl h ↦
          rw (send_full now day user s n e h) (inr (refl, used_same now day user s, ground (arith)))
      | inr h ↦
          rw (send_room now day user s n e h)
            (inl (refl, used_more now day user s, ground (arith, used_new now day user s)))
    ]
