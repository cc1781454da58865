-- ===== src/Payments/Tests.antt =====
-- The theorems on payments at concrete books and requests.
use vyaparaflowai.Prelude.{true, ℕ, ◌≡◌, refl, ◌⊎◌, none, some, List, [], ◌∷◌, ◌++◌, arith, All}
use vyaparaflowai.Prelude.Int.{ℤ, pos, ◌-ℤ◌, ◌≤ℤ◌, min_ℤ}
use vyaparaflowai.Prelude.Sorting.{insert, sorted}
use vyaparaflowai.Prelude.Sums.{sum_of}
use vyaparaflowai.Errors.{ok, err, validation, not_found, data_error}
use vyaparaflowai.Payments.Allocation.{
  AllocationLine, OpenInvoiceInput, AllocationPlan, fill, due_first, allocate_payment,
}
use vyaparaflowai.Payments.Recording.{
  PartyType, customer, supplier, of_customer, issued, Invoice, PaymentsDb, RecordPaymentResult,
  PaymentRequest, payment_overflows, record_payment,
}
use vyaparaflowai.Payments.Plan.{
  owed, total_allocated, allocate_payment-auto, allocate_payment-oldest_first,
}
use vyaparaflowai.Payments.Books.{AreSound}
use vyaparaflowai.Payments.Posting.{IsPosted, record_payment_cases}

abbrev bill : ℕ → ℤ → ℤ → ℕ → OpenInvoiceInput
bill id total paid due = record {
  invoice_id = id;
  total = total;
  amount_paid = paid;
  due_date = due;
}

-- The second is due first.
abbrev bills : List OpenInvoiceInput
bills = bill 1 (pos 100) (pos 0) 20 ∷ bill 2 (pos 50) (pos 10) 10 ∷ []

positive : ¬ (pos 60 ≤ℤ pos 0)
positive h = omega arith

allocate_payment-auto_example :
    (plan : AllocationPlan) × (allocate_payment (pos 60) bills none ≡ ok plan)
    × (total_allocated plan.allocations ≡ min_ℤ (pos 60) (sum_of owed bills))
    × (plan.unapplied_amount ≡ pos 60 -ℤ min_ℤ (pos 60) (sum_of owed bills))
allocate_payment-auto_example = allocate_payment-auto (pos 60) bills positive

abbrev older : List OpenInvoiceInput
older = bill 2 (pos 50) (pos 10) 10 ∷ []

abbrev newer : List OpenInvoiceInput
newer = bill 1 (pos 100) (pos 0) 20 ∷ []

bills_in_order : sorted due_first bills ≡ older ++ newer
unfolding sorted insert
bills_in_order = refl

allocate_payment-oldest_first_example :
    (plan : AllocationPlan) × (lines : List AllocationLine) × (allocate_payment (pos 60) bills none
      ≡ ok plan)
    × (plan.allocations ≡ lines ++ (fill (pos 60 -ℤ min_ℤ (pos 60) (sum_of owed older)) newer).0)
    × (total_allocated lines ≡ min_ℤ (pos 60) (sum_of owed older))
allocate_payment-oldest_first_example =
    allocate_payment-oldest_first (pos 60) bills older newer positive bills_in_order

abbrev wish : List AllocationLine
wish = record { invoice_id = 1; amount = pos 30 } ∷ record { invoice_id = 2; amount = pos 20 } ∷ []

wish-positive : All (λ (line : AllocationLine). ¬ (line.amount ≤ℤ pos 0)) wish
wish-positive = ((λ h. omega arith), ((λ h. omega arith), tt))

abbrev invoice_row : ℕ → ℤ → ℤ → ℕ → Invoice
invoice_row id total paid due = record {
  id = id;
  org_id = 1;
  party_id = 3;
  total = total;
  amount_paid = paid;
  due_date = due;
  status = of_customer issued;
}

abbrev books : PaymentsDb
books = record {
  customers = record { id = 3; org_id = 1 } ∷ [];
  suppliers = [];
  customer_invoices = invoice_row 1 (pos 100) (pos 0) 20 ∷ invoice_row 2 (pos 50) (pos 10) 10 ∷ [];
  supplier_invoices = [];
  payments = [];
  allocations = [];
}

books-AreSound : (side : PartyType) → AreSound side books
books-AreSound customer = record {
  unique = ((refl, tt), (tt, tt));
  sound = ((omega arith, omega arith), ((omega arith, omega arith), tt));
}
books-AreSound supplier = record { unique = tt; sound = tt }

abbrev request : PaymentRequest
request = record {
  org_id = 1;
  party_type = "customer";
  party_id = 3;
  amount = pos 60;
  payment_date = 30;
  method = none;
  reference = none;
  razorpay_payment_id = none;
  razorpay_payment_link_id = none;
  requested = some wish;
}

record_payment_cases_example :
    ((r : RecordPaymentResult × PaymentsDb) × (record_payment request 9 books ≡ ok r)
      × IsPosted r.0.party_type request 9 books r.0 r.1)
    ⊎ (record_payment request 9 books ≡ err validation)
    ⊎ (record_payment request 9 books ≡ err not_found)
    ⊎ ((record_payment request 9 books ≡ err data_error) × (payment_overflows request ≡ true))
record_payment_cases_example = record_payment_cases request 9 books books-AreSound wish-positive
