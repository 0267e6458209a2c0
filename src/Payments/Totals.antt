-- ===== src/Payments/Totals.antt =====
-- What refunds add up to: RefundService of apps/payments/services.py.
use date_app.Common.{
  ℕ, zero, suc, ◌+◌, ◌*◌, ◌≤◌, ◌<◌, ◌≡◌, refl, sym, ap, ◌∙◌, ◌↔◌, ◌⊎◌, inl, inr, true, false,
  Option, none, some, List, ◌∷◌, arith, ltb, ◌==◌, if◌then◌else◌, ==_refl, Bool-cases, Text,
  first_where, exists_where, update_where, first-update_self, ok, err, ZynoraError,
}
use date_app.Payments.Models.{
  ℤ, positive, PaymentStatus, Payment, is_settled, refundable_amount, succeeded_with, Refund,
  PaymentEvent, Store,
}
use date_app.Payments.Charges.{Provider, is_payment, written, settle}
use date_app.Payments.Refunds.{
  apply_totals, new_refund, refund_rows, issue, with_refund, record_external,
}
use date_app.Payments.Settlement.{settle_open, row_paid, events_paid}

module _ (get_provider : ℕ → Option Provider) (p : Payment) (requested : ℤ) (reason : Text)
    (by : Option ℕ) (s : Store) where
  issue_returns :
      (amount : ℕ) (provider : Provider) (reference : Option ℕ)
      → positive requested ≡ some amount
      → ltb (refundable_amount p) amount ≡ false
      → is_settled p ≡ true
      → get_provider p.provider ≡ some provider
      → provider.refund p amount reason ≡ some reference
      → issue get_provider p requested reason by s
        ≡ (ok (new_refund p amount reason reference by), refund_rows p amount reason reference by s)
  unfolding issue
  issue_returns amount provider reference a b c d e = ground (arith, a, b, c, d, e)

  issue_invalid :
      (amount : ℕ)
      → positive requested ≡ some amount
      → ltb (refundable_amount p) amount ≡ true
      → issue get_provider p requested reason by s
        ≡ (err (ZynoraError.validation_error "That refund amount is not valid."), s)
  unfolding issue
  issue_invalid amount a b = ground (arith, a, b)

  issue_empty :
      positive requested ≡ none
      → issue get_provider p requested reason by s
        ≡ (err (ZynoraError.validation_error "That refund amount is not valid."), s)
  unfolding issue
  issue_empty a = ground (arith, a)

  issue_unsettled :
      (amount : ℕ)
      → positive requested ≡ some amount
      → ltb (refundable_amount p) amount ≡ false
      → is_settled p ≡ false
      → issue get_provider p requested reason by s
        ≡ (err (ZynoraError.validation_error "Only settled payments can be refunded."), s)
  unfolding issue
  issue_unsettled amount a b c = ground (arith, a, b, c)

-- The amount is added to the total, which stays within the payment's amount; and the payment is
-- refunded exactly when they are equal.
abbrev pub IsAdded : ℕ → Payment → Type 0
IsAdded amount p =
    let q = apply_totals amount p in
    (q.amount_refunded ≡ p.amount_refunded + amount)
    × (q.amount_refunded ≤ q.amount)
    × (q.status ≡ PaymentStatus.refunded ↔ q.amount_refunded ≡ q.amount)

applied :
    (amount : ℕ) (p : Payment)
    → amount ≤ refundable_amount p
    → p.amount_refunded ≤ p.amount
    → IsAdded amount p
unfolding apply_totals
applied amount p h k = (refl, omega arith, (λ e. ground arith, λ e. ground arith))

applied_open : (amount : ℕ) (p : Payment) → is_settled (apply_totals amount p) ≡ false
unfolding apply_totals
applied_open amount p = ground arith

applied_id :
    (amount : ℕ) (p x : Payment) → is_payment p.id (apply_totals amount x) ≡ is_payment p.id x
unfolding apply_totals
applied_id amount p x = refl

-- An amount that may not be refunded: none, a negative one, or more than what is left.
abbrev pub IsRefused : ℤ → Payment → Type 0
IsRefused requested p =
    ((n : ℕ) × (requested ≡ ℤ.negsuc n))
    ⊎ ((n : ℕ) × (requested ≡ ℤ.pos n) × ((n ≡ 0) ⊎ (p.amount < p.amount_refunded + n)))

-- The row of a payment that a refund of an amount has been added to: the total stays within the
-- amount, and the row is refunded exactly when they are equal.
abbrev pub IsRefunded : ℕ → Payment → List Payment → Type 0
IsRefunded amount p ps =
    (q : Payment) × (first_where (is_payment p.id) ps ≡ some q)
    × (q.amount ≡ p.amount)
    × (q.amount_refunded ≡ p.amount_refunded + amount)
    × (q.amount_refunded ≤ q.amount)
    × (q.status ≡ PaymentStatus.refunded ↔ q.amount_refunded ≡ q.amount)

applied_amount : (amount : ℕ) (p : Payment) → (apply_totals amount p).amount ≡ p.amount
unfolding apply_totals
applied_amount amount p = refl

-- For a settled payment of the table, refunded by no more than its amount, and a provider that
-- accepts its refunds: a refund of more than nothing and no more than what is left is issued, with a
-- row of its own, and added to the total of the payment's row; the total stays within the amount, and
-- the row is refunded exactly when they are equal. Any other amount is refused, and nothing is
-- written.
pub issue_totals :
    (get_provider : ℕ → Option Provider) (p : Payment) (requested : ℤ) (reason : Text)
    (by : Option ℕ) (s : Store) (provider : Provider) (reference : Option ℕ)
    → first_where (is_payment p.id) s.payments ≡ some p
    → is_settled p ≡ true
    → p.amount_refunded ≤ p.amount
    → get_provider p.provider ≡ some provider
    → ((amount : ℕ) → provider.refund p amount reason ≡ some reference)
    → let (r, t) = issue get_provider p requested reason by s in
      ((amount : ℕ) × (k : Refund) × (requested ≡ ℤ.pos amount)
        × (1 ≤ amount)
        × (p.amount_refunded + amount ≤ p.amount)
        × (r ≡ ok k)
        × (k.payment ≡ p.id)
        × (k.amount ≡ amount)
        × (t.refunds ≡ k ∷ s.refunds)
        × IsRefunded amount p t.payments)
      ⊎ (IsRefused requested p
          × (r ≡ err (ZynoraError.validation_error "That refund amount is not valid."))
          × (t ≡ s))
issue_totals get_provider p (ℤ.negsuc n) reason by s provider reference e f k g h =
    rw (issue_empty get_provider p (ℤ.negsuc n) reason by s refl) (inr (inl (n, refl), refl, refl))
issue_totals get_provider p (ℤ.pos zero) reason by s provider reference e f k g h =
    rw (issue_empty get_provider p (ℤ.pos 0) reason by s refl)
      (inr (inr (0, refl, inl refl), refl, refl))
issue_totals get_provider p (ℤ.pos (suc n)) reason by s provider reference e f k g h =
    elim (Bool-cases (ltb (refundable_amount p) (suc n))) [
      | inl b ↦
          rw (issue_invalid get_provider p (ℤ.pos (suc n)) reason by s (suc n) refl b)
            (inr (inr (suc n, refl, inr (ground (arith, b))), refl, refl))
      | inr b ↦
          let a = applied (suc n) p (ground (arith, b)) k in
          rw
            (issue_returns get_provider p (ℤ.pos (suc n)) reason by s (suc n) provider reference
              refl b f g (h (suc n)))
            (inl (
              suc n,
              new_refund p (suc n) reason reference by,
              refl,
              omega arith,
              ground (arith, b, k),
              refl,
              refl,
              refl,
              refl,
              (
                apply_totals (suc n) p,
                first-update_self (is_payment p.id) (apply_totals (suc n)) s.payments p
                    (applied_id (suc n) p) e,
                applied_amount (suc n) p,
                a.0,
                a.1,
                a.2,
              ),
            ))
    ]

-- After a refund of less than what is left of a payment, there is money left to refund, but a
-- further refund of any valid amount is refused.
partial_refund_locks :
    (get_provider : ℕ → Option Provider) (p : Payment) (amount again : ℕ) (requested : ℤ)
    (reason : Text) (by : Option ℕ) (s : Store)
    → amount < refundable_amount p
    → positive requested ≡ some again
    → again ≤ refundable_amount (apply_totals amount p)
    → (0 < refundable_amount (apply_totals amount p))
      × (issue get_provider (apply_totals amount p) requested reason by s
          ≡ (err (ZynoraError.validation_error "Only settled payments can be refunded."), s))
unfolding apply_totals
partial_refund_locks get_provider p amount again requested reason by s h a b = (
  omega arith,
  issue_unsettled get_provider (apply_totals amount p) requested reason by s again a (ground arith)
      (applied_open amount p),
)

-- The amount that a refund at the provider stands for: 0 is the whole payment.
abbrev pub told : Payment → ℕ → ℕ
told p amount = if amount == 0 then p.amount else amount

recorded :
    (p : Payment) (amount : ℕ) (s : Store)
    → first_where (is_payment p.id) s.payments ≡ some p
    → first_where (is_payment p.id) (record_external p amount s).payments
      ≡ some (apply_totals (told p amount) p)
unfolding record_external
recorded p amount s e =
    first-update_self (is_payment p.id) (apply_totals (told p amount)) s.payments p
      (applied_id (told p amount) p) e

-- A settled payment of the table that was refunded at the provider, in part or whole, has a row that
-- is not settled any more. A late callback of its success settles this row again: it is succeeded,
-- with the refund still on it, and the success is published once more.
pub settle_after_refund :
    (now month : ℕ) (p : Payment) (amount : ℕ) (r : Option ℕ) (fee : ℕ) (s : Store)
    → first_where (is_payment p.id) s.payments ≡ some p
    → is_settled p ≡ true
    → let t = record_external p amount s in
      let refunded = p.amount_refunded + (if amount == 0 then p.amount else amount) in
      (q : Payment) × (first_where (is_payment p.id) t.payments ≡ some q)
      × (is_settled q ≡ false)
      × (q.amount_refunded ≡ refunded)
      × (let (v, u) = settle now month q r fee t in
          (first_where (is_payment p.id) u.payments ≡ some v)
          × (is_settled v ≡ true)
          × (v.amount_refunded ≡ refunded)
          × (u.events ≡ PaymentEvent.payment_succeeded p.id ∷ s.events))
unfolding succeeded_with apply_totals record_external
settle_after_refund now month p amount r fee s e h =
    let q = apply_totals (told p amount) p in
    let t = record_external p amount s in
    let row = recorded p amount s e in
    (
      q,
      row,
      applied_open (told p amount) p,
      refl,
      rw (settle_open now month q r fee t (applied_open (told p amount) p))
          (row_paid now month q r fee t row, refl, refl, events_paid now month q r fee t),
    )

with_refund_twice :
    (p q : Payment) (amount : ℕ) (rs : List Refund)
    → q.id ≡ p.id
    → with_refund q amount (with_refund p amount rs) ≡ with_refund p amount rs
unfolding with_refund exists_where
with_refund_twice p q amount rs e = ground (arith, e, ==_refl p.id, ==_refl amount)

external_open :
    (p : Payment) (amount : ℕ) (s : Store)
    → 0 < amount
    → record_external p amount s
      ≡ written p.id (apply_totals amount) (record s { refunds = with_refund p amount s.refunds })
unfolding record_external
external_open p amount s h =
    ap (λ a. written p.id (apply_totals a) (record s { refunds = with_refund p a s.refunds }))
      (ground arith)

same : (p : Payment) (amount : ℕ) → (apply_totals amount p).id ≡ p.id
unfolding apply_totals
same p amount = refl

total :
    (p : Payment) (amount : ℕ)
    → (apply_totals amount (apply_totals amount p)).amount_refunded ≡ p.amount_refunded + 2 * amount
unfolding apply_totals
total p amount = omega arith

-- The same refund of a positive amount at the provider, told twice, is one row but is added to the
-- total of the payment's row twice.
record_external_repeats :
    (p : Payment) (amount : ℕ) (s : Store)
    → 0 < amount
    → first_where (is_payment p.id) s.payments ≡ some p
    → let q = apply_totals amount p in
      let t = record_external p amount s in
      let u = record_external q amount t in
      (u.refunds ≡ t.refunds)
      × (first_where (is_payment p.id) u.payments ≡ some (apply_totals amount q))
      × ((apply_totals amount q).amount_refunded ≡ p.amount_refunded + 2 * amount)
unfolding apply_totals
record_external_repeats p amount s h e =
    let f = apply_totals amount in
    let row = first-update_self (is_payment p.id) f s.payments p (applied_id amount p) e in
    let row' =
      first-update_self (is_payment p.id) f (update_where (is_payment p.id) f s.payments) (f p)
        (applied_id amount p) row in
    let t = record_external p amount s in
    let o = external_open p amount s h in
    let o' = external_open (f p) amount t h in
    (
      ap (λ x. x.refunds) o'
          ∙ ap (λ x. with_refund (f p) amount x.refunds) o
          ∙ with_refund_twice p (f p) amount s.refunds (same p amount)
          ∙ sym (ap (λ x. x.refunds) o),
      ap (λ x. first_where (is_payment p.id) x.payments) o'
          ∙ ap
              (λ x. first_where (is_payment p.id) (update_where (is_payment (f p).id) f x.payments))
              o
          ∙ row',
      total p amount,
    )
