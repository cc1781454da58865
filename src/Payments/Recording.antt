-- ===== src/Payments/Recording.antt =====
-- `record_payment` and `_load_open_invoices` of backend/app/services/payments.py.
use Prim.Native.String.{count}
use text.Mathlib.Text.{◌==◌ as str_eq}
use vyaparaflowai.Prelude.{
  ℕ, Bool, true, false, not, ◌&&◌, ◌||◌, ltb, any, Option, none, some, List, [], ◌∷◌, map, String,
  ◌==◌, if◌then◌else◌, all, find, filter,
}
use vyaparaflowai.Prelude.Int.{ℤ, pos, ◌+ℤ◌, leb_ℤ}
use vyaparaflowai.Errors.{
  Result, ok, err, validation, not_found, assertion_error, integrity_error, data_error, ◌>>=◌, ◌>>◌,
  raise_if,
}
use vyaparaflowai.Payments.Allocation.{
  AllocationLine, OpenInvoiceInput, AllocationPlan, allocate_payment,
}

pub data PartyType : Type 0 where
  customer supplier : PartyType

-- `_validate_party_type`
unfoldable pub validate_party_type : String → Result PartyType
validate_party_type name =
    if str_eq name "customer"
    then ok customer
    else if str_eq name "supplier"
    then ok supplier
    else err validation

pub data InvoiceStatus : Type 0 where
  draft issued partially_paid paid overdue void : InvoiceStatus

pub data SupplierInvoiceStatus : Type 0 where
  received matched approved blocked paid : SupplierInvoiceStatus

pub data Status : Type 0 where
  of_customer : InvoiceStatus → Status
  of_supplier : SupplierInvoiceStatus → Status

-- A row of `customer_invoices` or of `supplier_invoices`; `party_id` is its `customer_id` or
-- `supplier_id`.
pub record Invoice : Type 0 where
  pub id : ℕ
  pub org_id : ℕ
  pub party_id : ℕ
  pub total : ℤ
  pub amount_paid : ℤ
  pub due_date : ℕ
  pub status : Status

pub record Party : Type 0 where
  pub id : ℕ
  pub org_id : ℕ

pub data Direction : Type 0 where
  inbound outbound : Direction

pub record Payment : Type 0 where
  pub id : ℕ
  pub org_id : ℕ
  pub direction : Direction
  pub customer_id : Option ℕ
  pub supplier_id : Option ℕ
  pub amount : ℤ
  pub payment_date : ℕ
  pub method : Option String
  pub reference : Option String
  pub razorpay_payment_id : Option String
  pub razorpay_payment_link_id : Option String

pub record PaymentAllocation : Type 0 where
  pub payment_id : ℕ
  pub customer_invoice_id : Option ℕ
  pub supplier_invoice_id : Option ℕ
  pub amount : ℤ

-- The newest payments and allocations come first.
pub record PaymentsDb : Type 0 where
  pub customers : List Party
  pub suppliers : List Party
  pub customer_invoices : List Invoice
  pub supplier_invoices : List Invoice
  pub payments : List Payment
  pub allocations : List PaymentAllocation

abbrev pub parties : PartyType → PaymentsDb → List Party
parties customer db = db.customers
parties supplier db = db.suppliers

abbrev pub invoices_of : PartyType → PaymentsDb → List Invoice
invoices_of customer db = db.customer_invoices
invoices_of supplier db = db.supplier_invoices

abbrev pub with_invoices : PartyType → List Invoice → PaymentsDb → PaymentsDb
with_invoices customer rows db = record db { customer_invoices = rows }
with_invoices supplier rows db = record db { supplier_invoices = rows }

-- `_CUSTOMER_OPEN_STATUSES` and `_SUPPLIER_OPEN_STATUSES`
abbrev pub is_open : PartyType → Status → Bool
is_open customer (of_customer issued) = true
is_open customer (of_customer partially_paid) = true
is_open customer (of_customer overdue) = true
is_open supplier (of_supplier received) = true
is_open supplier (of_supplier matched) = true
is_open supplier (of_supplier approved) = true
is_open _ _ = false

abbrev pub open_input : Invoice → OpenInvoiceInput
open_input row = record {
  invoice_id = row.id;
  total = row.total;
  amount_paid = row.amount_paid;
  due_date = row.due_date;
}

abbrev pub is_payable : PartyType → (org_id party_id : ℕ) → Invoice → Bool
is_payable side org_id party_id row =
    row.org_id == org_id && row.party_id == party_id && is_open side row.status

unfoldable pub load_open_invoices : PartyType → ℕ → ℕ → PaymentsDb → List OpenInvoiceInput
load_open_invoices side org_id party_id db =
    map open_input (filter (is_payable side org_id party_id) (invoices_of side db))

pub record InvoiceAllocationResult : Type 0 where
  pub invoice_id : ℕ
  pub amount_applied : ℤ
  pub new_amount_paid : ℤ
  pub new_status : Status

pub record RecordPaymentResult : Type 0 where
  pub payment_id : ℕ
  pub party_type : PartyType
  pub party_id : ℕ
  pub amount : ℤ
  pub invoices : List InvoiceAllocationResult
  pub unapplied_amount : ℤ

-- A customer's invoice is paid in full or in part; a supplier's keeps its status until it is paid
-- in full.
abbrev pub settled_status : PartyType → Bool → Status → Status
settled_status customer true status = of_customer InvoiceStatus.paid
settled_status customer false status = of_customer partially_paid
settled_status supplier true status = of_supplier SupplierInvoiceStatus.paid
settled_status supplier false status = status

abbrev pub settle : PartyType → ℤ → Invoice → Invoice
settle side amount row =
    let new_amount_paid = row.amount_paid +ℤ amount in
    record row {
      amount_paid = new_amount_paid;
      status = settled_status side (leb_ℤ row.total new_amount_paid) row.status;
    }

unfoldable pub settle_row : PartyType → ℕ → ℤ → List Invoice → List Invoice
settle_row side id amount [] = []
settle_row side id amount (row ∷ rows) =
    (if row.id == id then settle side amount row else row) ∷ settle_row side id amount rows

-- `x if party_type == PARTY_CUSTOMER else None`, and the same for a supplier.
abbrev pub if_customer : PartyType → ℕ → Option ℕ
if_customer customer id = some id
if_customer supplier id = none

abbrev pub if_supplier : PartyType → ℕ → Option ℕ
if_supplier customer id = none
if_supplier supplier id = some id

abbrev pub direction_of : PartyType → Direction
direction_of customer = inbound
direction_of supplier = outbound

-- The body of the loop over the allocations.
unfoldable pub settle_line :
    PartyType → ℕ → AllocationLine → PaymentsDb → Result (InvoiceAllocationResult × PaymentsDb)
settle_line side payment_id line db =
    elim (find (λ row. row.id == line.invoice_id) (invoices_of side db)) [
      | none ↦ err assertion_error
      | some row ↦
          let after = settle side line.amount row in
          ok (
            record {
              invoice_id = line.invoice_id;
              amount_applied = line.amount;
              new_amount_paid = after.amount_paid;
              new_status = after.status;
            },
            with_invoices side (settle_row side line.invoice_id line.amount (invoices_of side db))
                (record db {
                  allocations =
                      record {
                        payment_id = payment_id;
                        customer_invoice_id = if_customer side line.invoice_id;
                        supplier_invoice_id = if_supplier side line.invoice_id;
                        amount = line.amount;
                      }
                      ∷ db.allocations;
                }),
          )
    ]

unfoldable pub settle_lines :
    PartyType
    → ℕ
    → List AllocationLine
    → PaymentsDb
    → Result (List InvoiceAllocationResult × PaymentsDb)
settle_lines side payment_id [] db = ok ([], db)
settle_lines side payment_id (line ∷ lines) db = do
  first ← settle_line side payment_id line db
  rest ← settle_lines side payment_id lines first.1
  ok (first.0 ∷ rest.0, rest.1)

-- `CHECK (amount_paid >= 0 AND amount_paid <= total)` of both tables. The constraints of `payments` and
-- `payment_allocations`, positive amounts and one party each, are not modelled: the request's model
-- and the conditionals of the code see to them.
abbrev pub check_invoice : Invoice → Bool
check_invoice row = leb_ℤ (pos 0) row.amount_paid && leb_ℤ row.amount_paid row.total

abbrev pub as_validation {ℓ} : {A : Type ℓ} → Result A → Result A
as_validation (ok a) = ok a
as_validation (err e) = err validation

pub record PaymentRequest : Type 0 where
  pub org_id : ℕ
  pub party_type : String
  pub party_id : ℕ
  pub amount : ℤ
  pub payment_date : ℕ
  pub method : Option String
  pub reference : Option String
  pub razorpay_payment_id : Option String
  pub razorpay_payment_link_id : Option String
  pub requested : Option (List AllocationLine)

abbrev pub payment_row : PartyType → PaymentRequest → ℕ → Payment
payment_row side request payment_id = record {
  id = payment_id;
  org_id = request.org_id;
  direction = direction_of side;
  customer_id = if_customer side request.party_id;
  supplier_id = if_supplier side request.party_id;
  amount = request.amount;
  payment_date = request.payment_date;
  method = request.method;
  reference = request.reference;
  razorpay_payment_id = request.razorpay_payment_id;
  razorpay_payment_link_id = request.razorpay_payment_link_id;
}

-- A payment that its columns cannot hold: `Numeric(14, 2)` and the lengths of the texts.
abbrev pub amount_limit : ℤ
amount_limit = pos 100_000_000_000_000

abbrev pub is_longer : ℕ → Option String → Bool
is_longer limit none = false
is_longer limit (some text) = ltb limit (count text)

unfoldable pub payment_overflows : PaymentRequest → Bool
payment_overflows request =
    leb_ℤ amount_limit request.amount
    || is_longer 30 request.method
    || is_longer 100 request.reference
    || is_longer 50 request.razorpay_payment_id
    || is_longer 50 request.razorpay_payment_link_id

-- The CHECK constraint on the amounts of payments and of allocations.
abbrev pub is_refused_amount : ℤ → Bool
is_refused_amount amount = leb_ℤ amount (pos 0)

abbrev pub is_refused_line : AllocationLine → Bool
is_refused_line line = is_refused_amount line.amount

-- After the checks of the request: the payment, its flush, its allocations, and theirs, at which
-- the database checks its constraints. `payment_id` is the new UUID.
unfoldable pub write_payment :
    PartyType
    → PaymentRequest
    → ℕ
    → AllocationPlan
    → PaymentsDb
    → Result (RecordPaymentResult × PaymentsDb)
write_payment side request payment_id plan db = do
  raise_if (payment_overflows request) data_error
  raise_if (is_refused_amount request.amount) integrity_error
  settled ←
      settle_lines side payment_id plan.allocations
        (record db { payments = payment_row side request payment_id ∷ db.payments })
  raise_if (any is_refused_line plan.allocations) integrity_error
  raise_if (not (all check_invoice (invoices_of side settled.1))) integrity_error
  ok (
    record {
      payment_id = payment_id;
      party_type = side;
      party_id = request.party_id;
      amount = request.amount;
      invoices = settled.0;
      unapplied_amount = plan.unapplied_amount;
    },
    settled.1,
  )

unfoldable pub record_payment :
    PaymentRequest → ℕ → PaymentsDb → Result (RecordPaymentResult × PaymentsDb)
record_payment request payment_id db = do
  side ← validate_party_type request.party_type
  raise_if (leb_ℤ request.amount (pos 0)) validation
  elim (find (λ row. row.id == request.party_id) (parties side db)) [
    | none ↦ err not_found
    | some party ↦ do
      raise_if (not (party.org_id == request.org_id)) not_found
      plan ← as_validation (
          allocate_payment request.amount
            (load_open_invoices side request.org_id request.party_id db) request.requested)
      write_payment side request payment_id plan db
  ]
