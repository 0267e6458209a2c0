-- ===== src/Payments/Refunds.antt =====
-- RefundService of apps/payments/services.py.
use date_app.Common.{
  ℕ, ◌+◌, Bool, true, not, ◌&&◌, Option, none, List, ◌∷◌, ltb, leb, ◌==◌, if◌then◌else◌, Text,
  codes, exists_where, Action, ZynoraError, pure, or_raise, atomic, ◌>>=◌, ◌>>◌, raise_if, modify,
}
use date_app.Payments.Models.{
  ℤ, positive, PaymentStatus, Payment, is_settled, refundable_amount, Refund, PaymentEvent, Store,
}
use date_app.Payments.Charges.{Provider, written, publish}

-- `RefundService._apply_totals`, on the row.
unfoldable pub apply_totals : ℕ → Payment → Payment
apply_totals amount p =
    let total = p.amount_refunded + amount in
    record p {
      amount_refunded = total;
      status =
          if leb p.amount total then PaymentStatus.refunded else PaymentStatus.partially_refunded;
    }

abbrev pub new_refund : Payment → ℕ → Text → Option ℕ → Option ℕ → Refund
new_refund p amount reason provider_reference issued_by = record {
  payment = p.id;
  amount = amount;
  reason = reason;
  provider_reference = provider_reference;
  issued_by = issued_by;
  is_complete = true;
}

-- The refund's row, the totals and the event.
abbrev pub refund_rows : Payment → ℕ → Text → Option ℕ → Option ℕ → Store → Store
refund_rows p amount reason provider_reference issued_by s =
    publish (PaymentEvent.refund_issued p.id amount reason) (
      written p.id (apply_totals amount) (record s {
        refunds = new_refund p amount reason provider_reference issued_by ∷ s.refunds;
      }))

-- `RefundService.issue`
unfoldable pub issue : (ℕ → Option Provider) → Payment → ℤ → Text → Option ℕ → Action Store Refund
unfolding apply_totals
issue get_provider p requested reason issued_by = atomic do
  amount ←
      or_raise (positive requested)
        (ZynoraError.validation_error "That refund amount is not valid.")
  raise_if (ltb (refundable_amount p) amount)
      (ZynoraError.validation_error "That refund amount is not valid.")
  raise_if (not (is_settled p))
      (ZynoraError.validation_error "Only settled payments can be refunded.")
  provider ←
      or_raise (get_provider p.provider)
        (ZynoraError.payment_error "not a supported payment method")
  provider_reference ←
      or_raise (provider.refund p amount reason) (ZynoraError.payment_error "the provider's error")
  modify (refund_rows p amount reason provider_reference issued_by)
  pure (new_refund p amount reason provider_reference issued_by)

abbrev pub is_refund : ℕ → ℕ → Refund → Bool
is_refund payment amount r = r.payment == payment && r.amount == amount

-- The `get_or_create` of a refund that was made at the provider.
unfoldable pub with_refund : Payment → ℕ → List Refund → List Refund
with_refund p amount rs =
    if exists_where (is_refund p.id amount) rs
    then rs
    else new_refund p amount (codes "Refunded at provider") none none ∷ rs

-- `RefundService.record_external`; no amount is the whole payment.
unfoldable pub record_external : Payment → ℕ → Store → Store
unfolding apply_totals with_refund
record_external p given s =
    let amount = if given == 0 then p.amount else given in
    written p.id (apply_totals amount) (record s { refunds = with_refund p amount s.refunds })
