-- ===== src/Payments/Models.antt =====
-- The tables of apps/payments/models.py. An amount is in cents; ids, codes and references are numbers,
-- and an empty provider reference is `none`. What an amount may be as an argument, and what is left of
-- it after the fee, is an integer.
use date_app.Common.{
  ℕ, zero, suc, ◌-◌, Bool, true, false, Option, none, some, List, leb, ◌==◌, if◌then◌else◌, Text,
  take,
}

pub data ℤ : Type 0 where
  pos negsuc : ℕ → ℤ

-- The difference of two amounts.
unfoldable pub minus : ℕ → ℕ → ℤ
minus a b = if leb b a then ℤ.pos (a - b) else ℤ.negsuc (b - a - 1)

-- The positive amounts.
abbrev pub positive : ℤ → Option ℕ
positive (ℤ.pos zero) = none
positive (ℤ.pos (suc n)) = some (suc n)
positive (ℤ.negsuc n) = none

pub data PaymentStatus : Type 0 where
  pending processing succeeded failed cancelled refunded partially_refunded : PaymentStatus

pub data PaymentPurpose : Type 0 where
  subscription subscription_renewal boost super_like_pack other : PaymentPurpose

pub record Payment : Type 0 where
  pub id : ℕ
  pub reference : ℕ
  pub user : ℕ
  pub provider : ℕ
  pub status : PaymentStatus
  pub purpose : PaymentPurpose
  pub amount : ℕ
  pub currency : ℕ
  pub fee : ℕ
  pub net_amount : ℤ
  pub amount_refunded : ℕ
  pub provider_reference : Option ℕ
  pub checkout_url : Text
  pub payer_phone : Text
  pub failure_reason : Text
  pub completed_at : Option ℕ
  pub expires_at : Option ℕ

-- `Payment.is_settled`
abbrev pub is_settled : Payment → Bool
is_settled p = elim p.status [ PaymentStatus.succeeded ↦ true | _ ↦ false ]

-- `Payment.is_open`
abbrev pub is_open : Payment → Bool
is_open p = elim p.status [
  | PaymentStatus.pending ↦ true
  | PaymentStatus.processing ↦ true
  | _ ↦ false
]

-- `Payment.refundable_amount`
abbrev pub refundable_amount : Payment → ℕ
refundable_amount p = p.amount - p.amount_refunded

abbrev pub or_else : Option ℕ → Option ℕ → Option ℕ
or_else none b = b
or_else (some a) b = some a

-- `Payment.mark_succeeded`
unfoldable pub succeeded_with : ℕ → Option ℕ → ℕ → Payment → Payment
unfolding minus
succeeded_with now provider_reference fee p =
    let paid = if fee == 0 then p.fee else fee in
    record p {
      status = PaymentStatus.succeeded;
      completed_at = some now;
      provider_reference = or_else provider_reference p.provider_reference;
      fee = paid;
      net_amount = minus p.amount paid;
    }

-- `Payment.mark_failed`
unfoldable pub failed_with : Text → Payment → Payment
failed_with reason p = record p { status = PaymentStatus.failed; failure_reason = take 255 reason }

-- An invoice's number is the month and the place in it.
pub record Invoice : Type 0 where
  pub month : ℕ
  pub sequence : ℕ
  pub payment : ℕ
  pub user : ℕ
  pub purpose : PaymentPurpose
  pub subtotal : ℕ
  pub tax_amount : ℕ
  pub total : ℕ
  pub currency : ℕ

pub record Refund : Type 0 where
  pub payment : ℕ
  pub amount : ℕ
  pub reason : Text
  pub provider_reference : Option ℕ
  pub issued_by : Option ℕ
  pub is_complete : Bool

pub record WebhookEvent : Type 0 where
  pub id : ℕ
  pub provider : ℕ
  pub event_type : Text
  pub external_id : Option ℕ
  pub signature_verified : Bool
  pub is_processed : Bool
  pub processed_at : Option ℕ
  pub error : Text

pub data PaymentEvent : Type 0 where
  payment_initiated payment_succeeded : ℕ → PaymentEvent
  payment_failed : ℕ → Text → PaymentEvent
  refund_issued : ℕ → ℕ → Text → PaymentEvent

pub record SavedMethod : Type 0 where
  pub user : ℕ
  pub provider : ℕ
  pub token : ℕ
  pub is_default : Bool

pub record Store : Type 0 where
  pub payments : List Payment
  pub invoices : List Invoice
  pub refunds : List Refund
  pub webhooks : List WebhookEvent
  pub methods : List SavedMethod
  pub events : List PaymentEvent
