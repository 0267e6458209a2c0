-- ===== src/Payments/Webhooks.antt =====
-- WebhookService of apps/payments/services.py. What a provider makes of a callback's body is the
-- argument `parsed`, and `none` when it raises.
use date_app.Common.{
  ℕ, Bool, true, false, Option, none, some, List, [], ◌∷◌, ◌==◌, if◌then◌else◌, Text, codes,
  is_empty, take, first_where, update_where,
}
use date_app.Payments.Models.{PaymentStatus, Payment, WebhookEvent, Store}
use date_app.Payments.Charges.{ChargeStatus, written, settle, fail}
use date_app.Payments.Refunds.{record_external}

-- `WebhookResult` of apps/payments/providers/base.py.
pub record WebhookResult : Type 0 where
  pub handled : Bool
  pub event_type : Text
  pub provider_reference : Option ℕ
  pub payment_reference : Option ℕ
  pub status : ChargeStatus
  pub amount : ℕ
  pub fee : ℕ
  pub message : Text

abbrev find_by : (ℕ → Payment → Bool) → Option ℕ → List Payment → Option Payment
find_by p none ps = none
find_by p (some r) ps = first_where (p r) ps

abbrev has_provider_reference : ℕ → Payment → Bool
has_provider_reference r p = elim p.provider_reference [ none ↦ false | some q ↦ q == r ]

abbrev first_payment : Option Payment → Option Payment → Option Payment
first_payment none q = q
first_payment (some p) q = some p

-- The payment of a callback: by its reference, else by the provider's.
unfoldable pub payment_of : WebhookResult → List Payment → Option Payment
payment_of r ps =
    first_payment (find_by (λ x p. p.reference == x) r.payment_reference ps)
      (find_by has_provider_reference r.provider_reference ps)

abbrev pub cancelled_row : Payment → Payment
cancelled_row p = record p { status = PaymentStatus.cancelled }

-- What a callback's status does to the payment.
unfoldable pub act : ℕ → ℕ → WebhookResult → ChargeStatus → Payment → Store → Store
unfolding settle fail record_external
act now month r ChargeStatus.succeeded p s = (settle now month p r.provider_reference r.fee s).1
act now month r ChargeStatus.failed p s =
    (fail p (if is_empty r.message then codes "Payment declined." else r.message) s).1
act now month r ChargeStatus.cancelled p s = written p.id cancelled_row s
act now month r ChargeStatus.refunded p s = record_external p r.amount s
act now month r ChargeStatus.unknown p s = s

abbrev pub is_event : ℕ → WebhookEvent → Bool
is_event id e = e.id == id

abbrev pub noted : ℕ → (WebhookEvent → WebhookEvent) → Store → Store
noted id f s = record s { webhooks = update_where (is_event id) f s.webhooks }

abbrev with_error : Text → WebhookEvent → WebhookEvent
with_error t e = record e { error = take 400 t }

abbrev processed : ℕ → WebhookEvent → WebhookEvent
processed now e = record e { is_processed = true; processed_at = some now }

-- `WebhookService._apply`
unfoldable pub apply : ℕ → ℕ → ℕ → WebhookResult → Store → Bool × Store
unfolding payment_of act
apply now month event r s = elim (payment_of r s.payments) [
  | none ↦ (false, noted event (with_error (codes "No matching payment for this callback.")) s)
  | some p ↦ (true, noted event (processed now) (act now month r r.status p s))
]

abbrev pub new_event : ℕ → ℕ → WebhookEvent
new_event id provider = record {
  id = id;
  provider = provider;
  event_type = [];
  external_id = none;
  signature_verified = false;
  is_processed = false;
  processed_at = none;
  error = [];
}

abbrev read_as : WebhookResult → WebhookEvent → WebhookEvent
read_as r e = record e {
  event_type = take 80 r.event_type;
  external_id = r.provider_reference;
  signature_verified = r.handled;
}

-- `WebhookService.receive`: whether the callback was handled, and the tables. `failure` is the text of
-- the exception when the body could not be read.
unfoldable pub receive : ℕ → ℕ → ℕ → ℕ → Option WebhookResult → Text → Store → Bool × Store
unfolding apply
receive now month id provider parsed failure s =
    let s' = record s { webhooks = new_event id provider ∷ s.webhooks } in
    elim parsed [
      | none ↦ (false, noted id (with_error failure) s')
      | some r ↦
          if r.handled
          then apply now month id r (noted id (read_as r) s')
          else (false, noted id (with_error r.message) (noted id (read_as r) s'))
    ]
