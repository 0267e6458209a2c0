-- ===== src/Payments/Settlement.antt =====
-- Settling a payment and its invoice: PaymentService.settle and InvoiceService of
-- apps/payments/services.py.
use date_app.Common.{
  ℕ, ◌≤◌, ◌<◌, ◌≡◌, refl, sym, ap, subst, ◌∙◌, inl, inr, Bool, true, false, ◌&&◌, Option, some,
  List, [], ◌∷◌, arith, ltb, ◌==◌, ==_refl, Bool-cases, first_where, exists_where, Distinct, All,
  first-update_self, exists_weaken, tens, zfill_before,
}
use date_app.Payments.Models.{Payment, is_settled, succeeded_with, Invoice, PaymentEvent, Store}
use date_app.Payments.Charges.{
  is_payment, written, publish, number_before, last_sequence, is_of_payment, new_invoice,
  issue_invoice, settle,
}

-- Two invoices of the same number, and two of the same payment.
abbrev pub same_number : Invoice → Invoice → Bool
same_number i j = i.month == j.month && i.sequence == j.sequence

abbrev pub same_payment : Invoice → Invoice → Bool
same_payment i j = i.payment == j.payment

-- No two invoices have the same number, or the same payment.
abbrev pub IsNumbered : Store → Type 0
IsNumbered s = Distinct same_number s.invoices × Distinct same_payment s.invoices

-- The sequences are of at most five digits.
abbrev pub IsShort : Invoice → Type 0
IsShort i = i.sequence < 100000

last_sequence_short :
    (month : ℕ) (is : List Invoice) → All IsShort is → last_sequence month is < 100000
unfolding last_sequence
last_sequence_short month [] a = omega arith
last_sequence_short month (j ∷ is) (h, a) =
    let less = last_sequence_short month is a in
    elim (Bool-cases (j.month == month && number_before (last_sequence month is) j.sequence)) [
      | inl e ↦ rw e h
      | inr e ↦ rw e less
    ]

-- Among short numbers the first by text is the greatest.
last_sequence_next :
    (month : ℕ) (j : Invoice) (is : List Invoice)
    → All IsShort (j ∷ is)
    → (last_sequence month is ≤ last_sequence month (j ∷ is))
      × ((j.month == month && ltb (last_sequence month (j ∷ is)) j.sequence) ≡ false)
unfolding last_sequence tens
last_sequence_next month j is (h, a) =
    let less = last_sequence_short month is a in
    let order : number_before (last_sequence month is) j.sequence
        ≡ ltb (last_sequence month is) j.sequence =
      zfill_before 4 (last_sequence month is) j.sequence less h in
    rw order (ground arith, ground arith)

last_sequence_bound :
    (i : Invoice) (is : List Invoice)
    → All IsShort is
    → last_sequence i.month is < i.sequence
    → exists_where (same_number i) is ≡ false
unfolding exists_where
last_sequence_bound i [] a h = refl
last_sequence_bound i (j ∷ is) (k, a) h =
    let (l, m) = last_sequence_next i.month j is (k, a) in
    ground (arith, l, m, h, last_sequence_bound i is a)

module _ (month : ℕ) (p : Payment) (s : Store) where
  issue_found : exists_where (is_of_payment p.id) s.invoices ≡ true → issue_invoice month p s ≡ s
  unfolding issue_invoice
  issue_found h = ground arith

  issue_new :
      exists_where (is_of_payment p.id) s.invoices ≡ false
      → issue_invoice month p s
        ≡ record s { invoices = new_invoice month p s.invoices ∷ s.invoices }
  unfolding issue_invoice
  issue_new h = ground arith

  issue_cases :
      (Q : Store → Type 0)
      → (exists_where (is_of_payment p.id) s.invoices ≡ true → Q s)
      → (exists_where (is_of_payment p.id) s.invoices ≡ false
          → Q (record s { invoices = new_invoice month p s.invoices ∷ s.invoices }))
      → Q (issue_invoice month p s)
  issue_cases Q h k = elim (Bool-cases (exists_where (is_of_payment p.id) s.invoices)) [
    | inl e ↦ subst Q (sym (issue_found e)) (h e)
    | inr e ↦ subst Q (sym (issue_new e)) (k e)
  ]

  issue-IsNumbered : All IsShort s.invoices → IsNumbered s → IsNumbered (issue_invoice month p s)
  issue-IsNumbered a h =
      issue_cases IsNumbered (λ e. h)
        (λ e. (
          (last_sequence_bound (new_invoice month p s.invoices) s.invoices a (omega arith), h.0),
          (
            exists_weaken (same_payment (new_invoice month p s.invoices)) (is_of_payment p.id)
                s.invoices (λ i k. ground arith) e,
            h.1,
          ),
        ))

  issue_there : exists_where (is_of_payment p.id) (issue_invoice month p s).invoices ≡ true
  unfolding exists_where
  issue_there =
      issue_cases (λ t. exists_where (is_of_payment p.id) t.invoices ≡ true) (λ e. e)
        (λ e. ground (arith, ==_refl p.id))

  issue_payments : (issue_invoice month p s).payments ≡ s.payments
  issue_payments = issue_cases (λ t. t.payments ≡ s.payments) (λ e. refl) (λ e. refl)

module _ (now month : ℕ) (p : Payment) (r : Option ℕ) (fee : ℕ) (s : Store) where
  abbrev pub paid : Payment
  paid = succeeded_with now r fee p

  pub settle_settled : is_settled p ≡ true → settle now month p r fee s ≡ (p, s)
  unfolding settle
  settle_settled e = rw (e, settle) refl

  abbrev pub settled_store : Store
  settled_store =
      publish (PaymentEvent.payment_succeeded p.id)
        (issue_invoice month paid (written p.id (succeeded_with now r fee) s))

  pub settle_open : is_settled p ≡ false → settle now month p r fee s ≡ (paid, settled_store)
  unfolding settle
  settle_open e = rw (e, settle) refl

  -- Settling keeps the numbers of the invoices apart.
  pub settle-IsNumbered :
      All IsShort s.invoices → IsNumbered s → IsNumbered (settle now month p r fee s).1
  settle-IsNumbered a h = elim (Bool-cases (is_settled p)) [
    | inl e ↦ rw (settle_settled e) h
    | inr e ↦
        rw (settle_open e)
          (issue-IsNumbered month paid (written p.id (succeeded_with now r fee) s) a h)
  ]

  paid_id : (x : Payment) → is_payment p.id (succeeded_with now r fee x) ≡ is_payment p.id x
  unfolding succeeded_with
  paid_id x = refl

  paid_settled : is_settled paid ≡ true
  unfolding succeeded_with
  paid_settled = refl

  paid_there :
      exists_where
        (is_of_payment p.id)
        (issue_invoice month paid (written p.id (succeeded_with now r fee) s)).invoices
      ≡ true
  unfolding succeeded_with
  paid_there = issue_there month paid (written p.id (succeeded_with now r fee) s)

  pub row_paid :
      first_where (is_payment p.id) s.payments ≡ some p
      → first_where (is_payment p.id) settled_store.payments ≡ some paid
  row_paid e =
      ap (first_where (is_payment p.id))
        (issue_payments month paid (written p.id (succeeded_with now r fee) s))
      ∙ first-update_self (is_payment p.id) (succeeded_with now r fee) s.payments p paid_id e

  pub events_paid : settled_store.events ≡ PaymentEvent.payment_succeeded p.id ∷ s.events
  events_paid =
      issue_cases month paid (written p.id (succeeded_with now r fee) s)
        (λ t.
          PaymentEvent.payment_succeeded p.id ∷ t.events
          ≡ PaymentEvent.payment_succeeded p.id ∷ s.events)
        (λ e. refl) (λ e. refl)

-- Settling a payment of the table that is not settled makes its row succeeded, with an invoice, and
-- publishes one event; to settle the returned row once more changes nothing.
pub settle_once :
    (now month later : ℕ) (p : Payment) (r r' : Option ℕ) (fee fee' : ℕ) (s : Store)
    → first_where (is_payment p.id) s.payments ≡ some p
    → is_settled p ≡ false
    → let (q, t) = settle now month p r fee s in
      (is_settled q ≡ true)
      × (first_where (is_payment p.id) t.payments ≡ some q)
      × (exists_where (is_of_payment p.id) t.invoices ≡ true)
      × (t.events ≡ PaymentEvent.payment_succeeded p.id ∷ s.events)
      × (settle later month q r' fee' t ≡ (q, t))
settle_once now month later p r r' fee fee' s e n = rw (settle_open now month p r fee s n) (
  paid_settled now month p r fee s,
  row_paid now month p r fee s e,
  paid_there now month p r fee s,
  events_paid now month p r fee s,
  settle_settled later month (paid now month p r fee s) r' fee' (settled_store now month p r fee s)
      (paid_settled now month p r fee s),
)
