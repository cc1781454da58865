-- ===== src/Payments/Allocation.antt =====
-- How a payment is shared out (`allocate_payment` of backend/app/services/payments.py). Amounts are
-- integers of the smallest unit of money, and dates are day numbers.
use vyaparaflowai.Prelude.{
  ℕ, ◌-◌, Bool, Option, none, some, List, [], ◌∷◌, ◌==◌, leb, if◌then◌else◌, any,
}
use vyaparaflowai.Prelude.Int.{ℤ, pos, ◌+ℤ◌, ◌-ℤ◌, ltb_ℤ, leb_ℤ, min_ℤ}
use vyaparaflowai.Prelude.Sorting.{sorted}
use vyaparaflowai.Errors.{Result, ok, err, value_error, ◌>>=◌, ◌>>◌, raise_if}

pub record AllocationLine : Type 0 where
  pub invoice_id : ℕ
  pub amount : ℤ

pub record OpenInvoiceInput : Type 0 where
  pub invoice_id : ℕ
  pub total : ℤ
  pub amount_paid : ℤ
  pub due_date : ℕ

pub record AllocationPlan : Type 0 where
  pub allocations : List AllocationLine
  pub unapplied_amount : ℤ

-- `_remaining`
abbrev pub remaining : OpenInvoiceInput → ℤ
remaining invoice = invoice.total -ℤ invoice.amount_paid

-- The dictionary `invoices_by_id`: the last invoice of an id stands.
unfoldable pub invoice_by_id : ℕ → List OpenInvoiceInput → Option OpenInvoiceInput
invoice_by_id id [] = none
invoice_by_id id (invoice ∷ invoices) = elim (invoice_by_id id invoices) [
  | none ↦ if invoice.invoice_id == id then some invoice else none
  | some later ↦ some later
]

-- One requested line, after the ids `seen`: its amount, if it is allowed.
unfoldable pub check_line : List OpenInvoiceInput → List ℕ → AllocationLine → Result ℤ
check_line invoices seen line = do
  raise_if (any (λ id. id == line.invoice_id) seen) value_error
  elim (invoice_by_id line.invoice_id invoices) [
    | none ↦ err value_error
    | some invoice ↦
        if ltb_ℤ (remaining invoice) line.amount then err value_error else ok line.amount
  ]

-- The loop over the requested lines: the new `total_requested`.
unfoldable pub check_requested : List OpenInvoiceInput → List ℕ → ℤ → List AllocationLine → Result ℤ
check_requested invoices seen total [] = ok total
check_requested invoices seen total (line ∷ lines) = do
  amount ← check_line invoices seen line
  check_requested invoices (line.invoice_id ∷ seen) (total +ℤ amount) lines

-- The loop over the invoices, oldest first: the allocations and the rest of the payment.
unfoldable pub fill : ℤ → List OpenInvoiceInput → List AllocationLine × ℤ
fill payment [] = ([], payment)
fill payment (invoice ∷ invoices) =
    let applied = min_ℤ payment (remaining invoice) in
    let skipped = fill payment invoices in
    let next = fill (payment -ℤ applied) invoices in
    if leb_ℤ payment (pos 0)
    then ([], payment)
    else if leb_ℤ (remaining invoice) (pos 0)
    then skipped
    else (record { invoice_id = invoice.invoice_id; amount = applied } ∷ next.0, next.1)

abbrev pub due_first : OpenInvoiceInput → OpenInvoiceInput → Bool
due_first a b = leb a.due_date b.due_date

unfoldable pub allocate_payment :
    ℤ → List OpenInvoiceInput → Option (List AllocationLine) → Result AllocationPlan
allocate_payment payment invoices requested = do
  raise_if (leb_ℤ payment (pos 0)) value_error
  elim requested [
    | none ↦
        let (lines, rest) = fill payment (sorted due_first invoices) in
        ok (record { allocations = lines; unapplied_amount = rest })
    | some [] ↦ err value_error
    | some (line ∷ lines) ↦ do
      total ← check_requested invoices [] (pos 0) (line ∷ lines)
      raise_if (ltb_ℤ payment total) value_error
      ok (record { allocations = line ∷ lines; unapplied_amount = payment -ℤ total })
  ]

pub data Bucket : Type 0 where
  days_0_30 days_31_60 days_61_90 days_over_90 : Bucket

-- On day numbers `-` is `max(0, …)`.
unfoldable pub aging_bucket_for : (due_date as_of : ℕ) → ℕ × Bucket
aging_bucket_for due_date as_of =
    let days_overdue = as_of - due_date in
    if leb days_overdue 30
    then (days_overdue, days_0_30)
    else if leb days_overdue 60
    then (days_overdue, days_31_60)
    else if leb days_overdue 90
    then (days_overdue, days_61_90)
    else (days_overdue, days_over_90)
