-- ===== src/Payments/Callbacks.antt =====
-- What a provider's callbacks do to the invoices: WebhookService of apps/payments/services.py.
use date_app.Common.{
  ℕ, ◌≡◌, refl, sym, subst, inl, inr, Option, none, some, if◌then◌else◌, Bool-cases, Option-cases,
  Text, codes, is_empty, Distinct, All,
}
use date_app.Payments.Models.{Payment, is_settled, Store}
use date_app.Payments.Charges.{ChargeStatus, fail}
use date_app.Payments.Refunds.{record_external}
use date_app.Payments.Webhooks.{WebhookResult, payment_of, act, apply, receive}
use date_app.Payments.Settlement.{IsShort, IsNumbered, settle-IsNumbered, same_number, same_payment}

fail_invoices :
    (p : Payment) (reason : Text) (s : Store) → (fail p reason s).1.invoices ≡ s.invoices
unfolding fail
fail_invoices p reason s = elim (Bool-cases (is_settled p)) [
  | inl e ↦ rw (e, fail) refl
  | inr e ↦ rw (e, fail) refl
]

act-IsNumbered :
    (now month : ℕ) (r : WebhookResult) (c : ChargeStatus) (p : Payment) (s : Store)
    → All IsShort s.invoices
    → IsNumbered s
    → IsNumbered (act now month r c p s)
unfolding act record_external
act-IsNumbered now month r ChargeStatus.succeeded p s a h =
    settle-IsNumbered now month p r.provider_reference r.fee s a h
act-IsNumbered now month r ChargeStatus.failed p s a h =
    let reason = if is_empty r.message then codes "Payment declined." else r.message in
    subst (λ is. Distinct same_number is × Distinct same_payment is)
      (sym (fail_invoices p reason s)) h
act-IsNumbered now month r ChargeStatus.cancelled p s a h = h
act-IsNumbered now month r ChargeStatus.refunded p s a h = h
act-IsNumbered now month r ChargeStatus.unknown p s a h = h

apply-IsNumbered :
    (now month event : ℕ) (r : WebhookResult) (s : Store)
    → All IsShort s.invoices
    → IsNumbered s
    → IsNumbered (apply now month event r s).1
unfolding apply
apply-IsNumbered now month event r s a h = elim (Option-cases (payment_of r s.payments)) [
  | inl o ↦ rw (o, apply) h
  | inr (p, o) ↦ rw (o, apply) (act-IsNumbered now month r r.status p s a h)
]

-- If no two invoices have the same number and no payment has two, it stays so whatever callback a
-- provider sends, genuine or not, repeated or not, as long as no invoice so far has a number with a
-- sequence of more than five digits.
pub receive-IsNumbered :
    (now month id provider : ℕ) (parsed : Option WebhookResult) (failure : Text) (s : Store)
    → All IsShort s.invoices
    → IsNumbered s
    → IsNumbered (receive now month id provider parsed failure s).1
unfolding receive
receive-IsNumbered now month id provider none failure s a h = h
receive-IsNumbered now month id provider (some r) failure s a h = elim (Bool-cases r.handled) [
  | inl e ↦ rw (e, receive) (apply-IsNumbered now month id r _ a h)
  | inr e ↦ rw (e, receive) h
]
