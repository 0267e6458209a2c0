-- ===== src/Payments/Charges.antt =====
-- PaymentService, InvoiceService and SavedMethodService of apps/payments/services.py. A provider is
-- what apps/payments/providers/base.py promises: it may refuse a charge or a refund, and it answers a
-- question on a charge. A message that names the provider or the currency is shortened.
use date_app.Common.{
  ℕ, ◌+◌, ◌*◌, ◌/◌, Bool, not, ◌&&◌, Option, none, some, List, [], ◌∷◌, ◌==◌, if◌then◌else◌, Text,
  codes, is_empty, first_where, exists_where, update_where, Action, ok, ZynoraError, pure, raise,
  or_raise, atomic, ◌>>=◌, ◌>>◌, raise_if, modify, decimal, zfill, text_before,
}
use date_app.Payments.Models.{
  ℤ, positive, PaymentStatus, PaymentPurpose, Payment, is_settled, succeeded_with, failed_with,
  Invoice, PaymentEvent, SavedMethod, Store,
}

-- What a provider says of a charge.
pub data ChargeStatus : Type 0 where
  succeeded failed cancelled refunded unknown : ChargeStatus

pub record ChargeResult : Type 0 where
  pub provider_reference : Option ℕ
  pub checkout_url : Text

pub record VerifyResult : Type 0 where
  pub status : ChargeStatus
  pub fee : ℕ
  pub message : Text

-- The members of `BaseProvider` that the services use; `none` is a PaymentError.
pub record Provider : Type 0 where
  pub currencies : List ℕ
  pub requires_phone : Bool
  pub charge : Payment → Option ChargeResult
  pub verify : ℕ → VerifyResult
  pub refund : Payment → ℕ → Text → Option (Option ℕ)

abbrev pub is_payment : ℕ → Payment → Bool
is_payment id p = p.id == id

abbrev pub written : ℕ → (Payment → Payment) → Store → Store
written id f s = record s { payments = update_where (is_payment id) f s.payments }

abbrev pub publish : PaymentEvent → Store → Store
publish e s = record s { events = e ∷ s.events }

-- The arguments of `PaymentService.create`.
pub record Order : Type 0 where
  pub user : ℕ
  pub amount : ℤ
  pub currency : ℕ
  pub provider : ℕ
  pub purpose : PaymentPurpose
  pub phone : Text

abbrev pub new_payment : ℕ → ℕ → ℕ → ℕ → Order → Payment
new_payment now id reference amount o = record {
  id = id;
  reference = reference;
  user = o.user;
  provider = o.provider;
  status = PaymentStatus.pending;
  purpose = o.purpose;
  amount = amount;
  currency = o.currency;
  fee = 0;
  net_amount = ℤ.pos 0;
  amount_refunded = 0;
  provider_reference = none;
  checkout_url = [];
  payer_phone = o.phone;
  failure_reason = [];
  completed_at = none;
  expires_at = some (now + 2 * 3600);
}

abbrev charged : ChargeResult → Payment → Payment
charged r p = record p {
  provider_reference = r.provider_reference;
  checkout_url = r.checkout_url;
  status = PaymentStatus.processing;
}

-- The charge: a provider's refusal fails the payment and is raised again.
unfoldable pub start_charge : Provider → Payment → Action Store Payment
unfolding failed_with
start_charge provider p = elim (provider.charge p) as (λ _. Action Store Payment) [
  | some r ↦ modify (written p.id (charged r)) >> pure (charged r p)
  | none ↦
      modify (written p.id (failed_with (codes "Provider rejected the charge request.")))
      >> raise (ZynoraError.payment_error "the provider's error")
]

-- `PaymentService.create`, with the id and the reference of the row; `get_provider` is `none` on a
-- code that is not supported.
unfoldable pub create : (ℕ → Option Provider) → ℕ → ℕ → ℕ → Order → Action Store Payment
unfolding start_charge
create get_provider now id reference o = atomic do
  amount ←
      or_raise (positive o.amount)
        (ZynoraError.validation_error "The payment amount must be greater than zero.")
  provider ←
      or_raise (get_provider o.provider)
        (ZynoraError.payment_error "not a supported payment method")
  raise_if
      (not (is_empty provider.currencies)
        && not (exists_where (λ c. c == o.currency) provider.currencies))
      (ZynoraError.payment_error "the provider does not accept the currency")
  raise_if (provider.requires_phone && is_empty o.phone)
      (ZynoraError.validation_error "Enter the mobile number to charge.")
  modify λ s.
      publish (PaymentEvent.payment_initiated id)
        (record s { payments = new_payment now id reference amount o ∷ s.payments })
  start_charge provider (new_payment now id reference amount o)

-- `TAX_RATE`
abbrev tax_rate : ℕ
tax_rate = 0

-- The order of two invoices' numbers of one month, which are texts with the sequence as `:05d`.
abbrev pub number_before : ℕ → ℕ → Bool
number_before m n = text_before (zfill 5 (decimal m)) (zfill 5 (decimal n))

-- `InvoiceService.next_number`: the sequence of the number that stands first in `order_by("-number")`
-- of a month, 0 if there is none.
unfoldable pub last_sequence : ℕ → List Invoice → ℕ
unfolding text_before
last_sequence month [] = 0
last_sequence month (i ∷ is) =
    let rest = last_sequence month is in
    if i.month == month && number_before rest i.sequence then i.sequence else rest

abbrev pub is_of_payment : ℕ → Invoice → Bool
is_of_payment id i = i.payment == id

abbrev pub new_invoice : ℕ → Payment → List Invoice → Invoice
new_invoice month p is =
    let tax = p.amount * tax_rate / 100 in
    record {
      month = month;
      sequence = last_sequence month is + 1;
      payment = p.id;
      user = p.user;
      purpose = p.purpose;
      subtotal = p.amount;
      tax_amount = tax;
      total = p.amount + tax;
      currency = p.currency;
    }

-- `InvoiceService.issue` in the month `month`, with `next_number`.
unfoldable pub issue_invoice : ℕ → Payment → Store → Store
unfolding last_sequence
issue_invoice month p s =
    if exists_where (is_of_payment p.id) s.invoices
    then s
    else record s { invoices = new_invoice month p s.invoices ∷ s.invoices }

-- `PaymentService.settle` on the row that the caller has read: the row as it is returned, and the
-- tables.
unfoldable pub settle : ℕ → ℕ → Payment → Option ℕ → ℕ → Store → Payment × Store
unfolding succeeded_with issue_invoice
settle now month p provider_reference fee s =
    let q = succeeded_with now provider_reference fee p in
    if is_settled p then (p, s) else (
      q,
      publish (PaymentEvent.payment_succeeded p.id)
          (issue_invoice month q (written p.id (succeeded_with now provider_reference fee) s)),
    )

-- `PaymentService.fail`
unfoldable pub fail : Payment → Text → Store → Payment × Store
unfolding failed_with
fail p reason s = if is_settled p then (p, s) else (
  failed_with reason p,
  publish (PaymentEvent.payment_failed p.id reason) (written p.id (failed_with reason) s),
)

-- `PaymentService.poll_status`: the status after it.
unfoldable pub poll_status : (ℕ → Option Provider) → ℕ → ℕ → Payment → Action Store PaymentStatus
unfolding settle fail
poll_status get_provider now month p =
    elim p.provider_reference as (λ _. Action Store PaymentStatus) [
      | none ↦ pure p.status
      | some r ↦ do
        provider ←
            or_raise (get_provider p.provider)
              (ZynoraError.payment_error "not a supported payment method")
        let v = provider.verify r
        let message = if is_empty v.message then codes "Provider reported failure." else v.message
        elim v.status as (λ _. Action Store PaymentStatus) [
          | ChargeStatus.succeeded ↦
              λ s. let (q, t) = settle now month p (some r) v.fee s in (ok q.status, t)
          | ChargeStatus.failed ↦ λ s. let (q, t) = fail p message s in (ok q.status, t)
          | _ ↦ pure p.status
        ]
    ]

-- `SavedMethodService.save`: the first method of a member is the default.
unfoldable pub save_method : ℕ → ℕ → ℕ → Store → Store
save_method user provider token s =
    let mine = exists_where (λ m. m.user == user) s.methods in
    record s {
      methods =
          record { user = user; provider = provider; token = token; is_default = not mine }
          ∷ s.methods;
    }

abbrev pub first_of : Option SavedMethod → Option SavedMethod → Option SavedMethod
first_of none m = m
first_of (some m) n = some m

-- `SavedMethodService.default_for`
unfoldable pub default_for : ℕ → Store → Option SavedMethod
default_for user s =
    first_of (first_where (λ m. m.user == user && m.is_default) s.methods)
      (first_where (λ m. m.user == user) s.methods)
