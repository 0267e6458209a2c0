-- ===== src/Payments/Tests.antt =====
-- The theorems on payments, at small tables.
use date_app.Common.{
  decimal_upto, ℕ, ◌+◌, ◌≤◌, ◌≡◌, refl, ◌⊎◌, true, false, none, some, [], ◌∷◌, map, arith, codes,
  first_where, exists_where, update_where, ok, err, ZynoraError, zeros,
}
use date_app.Payments.Models.{
  ℤ, PaymentStatus, PaymentPurpose, Payment, is_settled, Refund, PaymentEvent, Store,
}
use date_app.Payments.Charges.{
  ChargeStatus, Provider, is_payment, Order, new_payment, is_of_payment, settle,
}
use date_app.Payments.Refunds.{issue, record_external}
use date_app.Payments.Webhooks.{WebhookResult, receive}
use date_app.Payments.Settlement.{IsNumbered, settle_once}
use date_app.Payments.Totals.{IsRefused, IsRefunded, issue_totals, settle_after_refund}
use date_app.Payments.Callbacks.{receive-IsNumbered}

abbrev order : Order
order = record {
  user = 4;
  amount = ℤ.pos 500;
  currency = 1;
  provider = 1;
  purpose = PaymentPurpose.subscription;
  phone = [];
}

abbrev bill : Payment
bill = new_payment 10 7 70 500 order

abbrev settled : Payment
settled = record bill { status = PaymentStatus.succeeded }

abbrev with_row : Payment → Store
with_row p = record {
  payments = p ∷ [];
  invoices = [];
  refunds = [];
  webhooks = [];
  methods = [];
  events = [];
}

-- A provider that accepts everything.
abbrev bank : Provider
bank = record {
  currencies = [];
  requires_phone = false;
  charge = λ p. some (record { provider_reference = some 3; checkout_url = [] });
  verify = λ r. record { status = ChargeStatus.succeeded; fee = 0; message = [] };
  refund = λ p a t. some (some 9);
}

settle_once_example :
    let (q, t) = settle 20 1 bill (some 3) 10 (with_row bill) in
    (is_settled q ≡ true)
    × (first_where (is_payment 7) t.payments ≡ some q)
    × (exists_where (is_of_payment 7) t.invoices ≡ true)
    × (t.events ≡ PaymentEvent.payment_succeeded 7 ∷ [])
    × (settle 30 1 q (some 3) 10 t ≡ (q, t))
unfolding first_where
settle_once_example = settle_once 20 1 30 bill (some 3) (some 3) 10 10 (with_row bill) refl refl

issue_totals_example :
    let (r, t) = issue (λ c. some bank) settled (ℤ.pos 200) [] none (with_row settled) in
    ((amount : ℕ) × (k : Refund) × (ℤ.pos 200 ≡ ℤ.pos amount)
      × (1 ≤ amount)
      × (0 + amount ≤ 500)
      × (r ≡ ok k)
      × (k.payment ≡ 7)
      × (k.amount ≡ amount)
      × (t.refunds ≡ k ∷ [])
      × IsRefunded amount settled t.payments)
    ⊎ (IsRefused (ℤ.pos 200) settled
        × (r ≡ err (ZynoraError.validation_error "That refund amount is not valid."))
        × (t ≡ with_row settled))
unfolding first_where
issue_totals_example =
    issue_totals (λ c. some bank) settled (ℤ.pos 200) [] none (with_row settled) bank (some 9) refl
      refl (omega arith) refl (λ a. refl)

settle_after_refund_example :
    let t = record_external settled 200 (with_row settled) in
    (q : Payment) × (first_where (is_payment 7) t.payments ≡ some q)
    × (is_settled q ≡ false)
    × (q.amount_refunded ≡ 200)
    × (let (v, u) = settle 40 1 q (some 3) 0 t in
        (first_where (is_payment 7) u.payments ≡ some v)
        × (is_settled v ≡ true)
        × (v.amount_refunded ≡ 200)
        × (u.events ≡ PaymentEvent.payment_succeeded 7 ∷ []))
unfolding first_where
settle_after_refund_example =
    settle_after_refund 40 1 settled 200 (some 3) 0 (with_row settled) refl refl

abbrev callback : WebhookResult
callback = record {
  handled = true;
  event_type = codes "paid";
  provider_reference = some 3;
  payment_reference = some 70;
  status = ChargeStatus.succeeded;
  amount = 500;
  fee = 0;
  message = [];
}

-- The table with the invoice 41 of the month, of another payment.
abbrev with_invoice : Store
with_invoice = record (with_row bill) {
  invoices =
      record {
        month = 1;
        sequence = 41;
        payment = 5;
        user = 3;
        purpose = PaymentPurpose.subscription;
        subtotal = 400;
        tax_amount = 100;
        total = 500;
        currency = 1;
      }
      ∷ [];
}

receive-IsNumbered_example : IsNumbered (receive 20 1 1 1 (some callback) [] with_invoice).1
unfolding exists_where
receive-IsNumbered_example =
    receive-IsNumbered 20 1 1 1 (some callback) [] with_invoice (omega arith, tt)
      ((refl, tt), (refl, tt))

-- A callback finds its payment, settles it and gives it the next invoice of the month.
received :
    let (handled, t) = receive 20 1 1 1 (some callback) [] with_invoice in
    (handled ≡ true)
    × (map (λ p. is_settled p) t.payments ≡ true ∷ [])
    × (map (λ i. i.sequence) t.invoices ≡ 42 ∷ 41 ∷ [])
unfolding receive first_where update_where exists_where zeros decimal_upto
received = (refl, refl, refl)
