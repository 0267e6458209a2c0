-- ===== src/Subscriptions/Live.antt =====
-- How many subscriptions of a member run: SubscriptionService of apps/subscriptions/services.py.
use date_app.Common.{
  ℕ, ◌≤◌, ◌<◌, ◌≡◌, refl, true, false, ◌&&◌, Option, none, some, List, [], ◌∷◌, arith, ◌==◌,
  ==_refl, Text, first_where, exists_where, count_where, update_where, none_of_exists,
  exists_weaken, ok,
}
use date_app.Subscriptions.Plan.{Plan}
use date_app.Subscriptions.Models.{
  Subscription, cancelled_row, Coupon, discount_for, SubscriptionEvent, Store,
}
use date_app.Subscriptions.Coupons.{is_coupon, refusal, validate, redeemed, redeem}
use date_app.Subscriptions.Gates.{get_plan, current, is_current, invalidate}
use date_app.Subscriptions.Lifecycle.{
  runs_for, replaced, Start, new_subscription, bonus, opened, start, is_subscription, saved, cancel,
}

-- The coupon that a start names, if it names one, is accepted.
abbrev pub IsAccepted : ℕ → ℕ → Plan → Option ℕ → Store → Type 0
IsAccepted now user plan none s = Unit
IsAccepted now user plan (some code) s =
    (c : Coupon) × (first_where (is_coupon code) s.coupons ≡ some c)
    × (refusal now user plan c s.redemptions ≡ none)

pub redeem_returns :
    (now code user : ℕ) (plan : Plan) (s : Store) (c : Coupon)
    → first_where (is_coupon code) s.coupons ≡ some c
    → refusal now user plan c s.redemptions ≡ none
    → redeem now code user plan s ≡ (ok (discount_for c plan.price).1, redeemed user plan c s)
unfolding redeem validate
redeem_returns now code user plan s c e r = ground (arith, e, r)

bonus_returns :
    (now user : ℕ) (plan : Plan) (code : Option ℕ) (s : Store)
    → IsAccepted now user plan code s
    → (d : ℕ) × (t : Store) × (bonus now user plan code s ≡ (ok d, t))
      × (t.subscriptions ≡ s.subscriptions)
unfolding bonus redeemed
bonus_returns now user plan none s h = (0, s, refl, refl)
bonus_returns now user plan (some code) s (c, e, r) =
    (_, _, redeem_returns now code user plan s c e r, refl)

none_run :
    (user now : ℕ) (bs : List Subscription)
    → count_where (runs_for user) (update_where (runs_for user) (replaced now) bs) ≡ 0
unfolding count_where update_where
none_run user now [] = refl
none_run user now (b ∷ bs) = ground (arith, none_run user now bs)

abbrev stopped : ℕ → ℕ → Store → Store
stopped now user s = record s {
  subscriptions = update_where (runs_for user) (replaced now) s.subscriptions;
}

start_returns :
    (now id plan_code : ℕ) (a : Start) (s : Store) (plan : Plan) (d : ℕ) (t : Store)
    → first_where (λ p. p.code == plan_code && p.is_active) s.plans ≡ some plan
    → bonus now a.user plan a.coupon_code (stopped now a.user s) ≡ (ok d, t)
    → start now id plan_code a s ≡ (ok (new_subscription now id plan d a), opened now id plan d a t)
unfolding start get_plan
start_returns now id plan_code a s plan d t e b = ground (arith, e, b)

new_runs :
    (now id : ℕ) (plan : Plan) (d : ℕ) (a : Start)
    → runs_for a.user (new_subscription now id plan d a) ≡ true
unfolding new_subscription
new_runs now id plan d a = ground (arith, ==_refl a.user)

first_opened :
    (now id : ℕ) (plan : Plan) (d : ℕ) (a : Start) (t : Store)
    → first_where (runs_for a.user) (opened now id plan d a t).subscriptions
      ≡ some (new_subscription now id plan d a)
unfolding opened invalidate first_where
first_opened now id plan d a t = rw (new_runs now id plan d a) refl

count_opened :
    (now id : ℕ) (plan : Plan) (d : ℕ) (a : Start) (t s : Store)
    → t.subscriptions ≡ (stopped now a.user s).subscriptions
    → count_where (runs_for a.user) (opened now id plan d a t).subscriptions ≡ 1
unfolding opened invalidate count_where
count_opened now id plan d a t s k =
    ground (arith, new_runs now id plan d a, k, none_run a.user now s.subscriptions)

-- Starting an available plan, with an accepted coupon or none, returns a subscription that runs, and
-- it is then the member's only one that does, whatever ran before.
pub start_one :
    (now id plan_code : ℕ) (a : Start) (s : Store) (plan : Plan)
    → first_where (λ p. p.code == plan_code && p.is_active) s.plans ≡ some plan
    → IsAccepted now a.user plan a.coupon_code s
    → let (r, t) = start now id plan_code a s in
      (b : Subscription) × (r ≡ ok b)
      × (first_where (runs_for a.user) t.subscriptions ≡ some b)
      × (count_where (runs_for a.user) t.subscriptions ≡ 1)
start_one now id plan_code a s plan e h =
    let (d, t, b, k) =
      bonus_returns now a.user plan a.coupon_code (stopped now a.user s)
        (accepted a.coupon_code h) in
    rw (start_returns now id plan_code a s plan d t e b)
      (new_subscription now id plan d a, refl, first d t, one d t k)
  where
    accepted :
        (c : Option ℕ)
        → IsAccepted now a.user plan c s
        → IsAccepted now a.user plan c (stopped now a.user s)
    accepted none h = h
    accepted (some c) h = h

    first :
        (d : ℕ) (t : Store)
        → first_where (runs_for a.user) (opened now id plan d a t).subscriptions
          ≡ some (new_subscription now id plan d a)
    first d t = first_opened now id plan d a t

    one :
        (d : ℕ) (t : Store)
        → t.subscriptions ≡ (stopped now a.user s).subscriptions
        → count_where (runs_for a.user) (opened now id plan d a t).subscriptions ≡ 1
    one d t k = count_opened now id plan d a t s k

some_run :
    (now user : ℕ) (b : Subscription) (bs : List Subscription)
    → first_where (is_current now user) bs ≡ some b
    → 0 < count_where (runs_for user) bs
unfolding first_where count_where
some_run now user b [] e = absurd (ground arith)
some_run now user b (x ∷ bs) e = ground (arith, some_run now user b bs)

still_none :
    (now user id : ℕ) (reason : Text) (bs : List Subscription)
    → count_where (runs_for user) bs ≡ 0
    → exists_where (runs_for user) (update_where (is_subscription id) (cancelled_row now reason) bs)
      ≡ false
unfolding count_where exists_where update_where
still_none now user id reason [] h = refl
still_none now user id reason (x ∷ bs) h = ground (arith, still_none now user id reason bs)

single_cancelled :
    (now user : ℕ) (reason : Text) (b : Subscription) (bs : List Subscription)
    → count_where (runs_for user) bs ≤ 1
    → first_where (is_current now user) bs ≡ some b
    → exists_where
        (runs_for user)
        (update_where (is_subscription b.id) (cancelled_row now reason) bs)
      ≡ false
unfolding count_where exists_where update_where first_where
single_cancelled now user reason b [] h e = refl
single_cancelled now user reason b (x ∷ bs) h e = ground (
  arith,
  single_cancelled now user reason b bs,
  still_none now user b.id reason bs,
  some_run now user b bs,
  ==_refl b.id,
)

cancel_returns :
    (now user : ℕ) (reason : Text) (s : Store) (b : Subscription)
    → current now user s ≡ some b
    → cancel now user reason s ≡ (
      ok (cancelled_row now reason b),
      saved user b.id
          (cancelled_row now reason)
          (SubscriptionEvent.subscription_cancelled user b.id b.expires_at)
          s,
    )
unfolding cancel
cancel_returns now user reason s b e = ground (arith, e)

-- A member whose only running subscription is current, and who cancels it, has no current subscription
-- any more, at that moment or later, though the event says that the access lasts until it expires.
cancel_ends_access :
    (now later user : ℕ) (reason : Text) (s : Store) (b : Subscription)
    → count_where (runs_for user) s.subscriptions ≤ 1
    → current now user s ≡ some b
    → let t = (cancel now user reason s).1 in
      (current later user t ≡ none)
      × (t.events ≡ SubscriptionEvent.subscription_cancelled user b.id b.expires_at ∷ s.events)
unfolding current saved invalidate
cancel_ends_access now later user reason s b h e = rw (cancel_returns now user reason s b e) (
  none_of_exists (is_current later user) _ (
      exists_weaken (is_current later user) (runs_for user) _ (λ x k. ground arith)
        (single_cancelled now user reason b s.subscriptions h e)),
  refl,
)
