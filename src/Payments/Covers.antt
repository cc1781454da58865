-- ===== src/Payments/Covers.antt =====
-- What the checks of a request guarantee, and when they pass (`allocate_payment` with allocations).
use vyaparaflowai.Prelude.{
  ℕ, ◌≡◌, ap, ◌∙◌, inl, inr, false, some, List, [], ◌∷◌, arith, ◌==◌, any, All, In, Pairwise,
  Bool-cases, Option-cases,
}
use vyaparaflowai.Prelude.Int.{ℤ, pos, ◌+ℤ◌, ◌-ℤ◌, ◌≤ℤ◌, ltb_ℤ, int_laws}
use vyaparaflowai.Errors.{ok, >>=-eq-ok, Result-cases}
use vyaparaflowai.Payments.Allocation.{
  AllocationLine, OpenInvoiceInput, AllocationPlan, remaining, invoice_by_id, check_line,
  check_requested, allocate_payment,
}
use vyaparaflowai.Payments.Plan.{total_allocated}

-- A line that is for one of the open invoices, which can take it in full.
pub record IsCovered (invoices : List OpenInvoiceInput) (line : AllocationLine) : Type 0 where
  pub invoice : OpenInvoiceInput
  pub open_invoice : In invoice invoices
  pub same_id : invoice.invoice_id ≡ line.invoice_id
  pub positive : ¬ (line.amount ≤ℤ pos 0)
  pub within : line.amount ≤ℤ remaining invoice

abbrev IsUnseen : ℕ → List ℕ → Type 0
IsUnseen id seen = any (λ other. other == id) seen ≡ false

-- Two lines for different invoices.
abbrev pub DiffersLine : AllocationLine → AllocationLine → Type 0
DiffersLine a b = (a.invoice_id == b.invoice_id) ≡ false

abbrev pub IsPositive : AllocationLine → Type 0
IsPositive line = ¬ (line.amount ≤ℤ pos 0)

In-invoice_by_id :
    (id : ℕ) (invoices : List OpenInvoiceInput) {invoice : OpenInvoiceInput}
    → invoice_by_id id invoices ≡ some invoice
    → In invoice invoices × (invoice.invoice_id ≡ id)
unfolding invoice_by_id
In-invoice_by_id id [] e = cc
In-invoice_by_id id (x ∷ xs) e = elim (Option-cases (invoice_by_id id xs)) [
  | inl missing ↦ elim (Bool-cases (x.invoice_id == id)) [
    | inl same ↦ ground arith
    | inr other ↦ ground arith
  ]
  | inr (later, f) ↦ let r = In-invoice_by_id id xs f in ground arith
]

add_zero : (a : ℤ) → a +ℤ pos 0 ≡ a
add_zero a = omega int_laws

add_assoc : (a b c : ℤ) → (a +ℤ b) +ℤ c ≡ a +ℤ (b +ℤ c)
add_assoc a b c = omega int_laws

check_line_found :
    (invoices : List OpenInvoiceInput) (seen : List ℕ) (line : AllocationLine) {amount : ℤ}
    (invoice : OpenInvoiceInput)
    → IsPositive line
    → IsUnseen line.invoice_id seen
    → invoice_by_id line.invoice_id invoices ≡ some invoice
    → check_line invoices seen line ≡ ok amount
    → (amount ≡ line.amount) × IsCovered invoices line
unfolding check_line
check_line_found invoices seen line invoice p u f e =
    elim (Bool-cases (ltb_ℤ (remaining invoice) line.amount)) [
      | inl short ↦ ground arith
      | inr fits ↦
          let (m, same) = In-invoice_by_id line.invoice_id invoices f in
          (
            ground arith,
            record {
              invoice = invoice;
              open_invoice = m;
              same_id = same;
              positive = p;
              within = ground arith;
            },
          )
    ]

pub check_line-IsCovered :
    (invoices : List OpenInvoiceInput) (seen : List ℕ) (line : AllocationLine) {amount : ℤ}
    → IsPositive line
    → check_line invoices seen line ≡ ok amount
    → (amount ≡ line.amount) × IsUnseen line.invoice_id seen × IsCovered invoices line
unfolding check_line
check_line-IsCovered invoices seen line p e =
    elim (Bool-cases (any (λ id. id == line.invoice_id) seen)) [
      | inl dup ↦ ground arith
      | inr new ↦ elim (Option-cases (invoice_by_id line.invoice_id invoices)) [
        | inl missing ↦ ground arith
        | inr (invoice, f) ↦
            let r = check_line_found invoices seen line invoice p new f e in (r.0, new, r.1)
      ]
    ]

All-IsUnseen :
    (id : ℕ) (seen : List ℕ) (lines : List AllocationLine)
    → All (λ line. IsUnseen line.invoice_id (id ∷ seen)) lines
    → All (λ line. IsUnseen line.invoice_id seen) lines
All-IsUnseen id seen [] h = tt
All-IsUnseen id seen (line ∷ lines) h = (ground arith, All-IsUnseen id seen lines h.1)

All-differs :
    (line : AllocationLine) (seen : List ℕ) (lines : List AllocationLine)
    → All (λ other. IsUnseen other.invoice_id (line.invoice_id ∷ seen)) lines
    → All (DiffersLine line) lines
All-differs line seen [] h = tt
All-differs line seen (other ∷ lines) h = (ground arith, All-differs line seen lines h.1)

-- A request that passes is for positive amounts that its invoices can take, one line for each
-- invoice, and `total_requested` is their sum.
pub check_requested-IsCovered :
    (invoices : List OpenInvoiceInput) (seen : List ℕ) (start : ℤ) (lines : List AllocationLine)
    {total : ℤ}
    → All IsPositive lines
    → check_requested invoices seen start lines ≡ ok total
    → All (IsCovered invoices) lines
      × All (λ line. IsUnseen line.invoice_id seen) lines
      × Pairwise DiffersLine lines
      × (total ≡ start +ℤ total_allocated lines)
unfolding check_requested
check_requested-IsCovered invoices seen start [] p e = (tt, tt, tt, cc (add_zero start))
check_requested-IsCovered invoices seen start (line ∷ lines) p e =
    let (amount, e1, e2) = >>=-eq-ok (check_line invoices seen line) _ e in
    let (same, new, covered) = check_line-IsCovered invoices seen line p.0 e1 in
    let (all_covered, unseen, distinct, sum) =
      check_requested-IsCovered invoices (line.invoice_id ∷ seen) (start +ℤ amount) lines p.1 e2 in
    (
      (covered, all_covered),
      (new, All-IsUnseen line.invoice_id seen lines unseen),
      (All-differs line seen lines unseen, distinct),
      sum
          ∙ add_assoc start amount (total_allocated lines)
          ∙ ap (λ x. start +ℤ (x +ℤ total_allocated lines)) same,
    )

zero_add : (a : ℤ) → pos 0 +ℤ a ≡ a
zero_add a = omega int_laws

plan_of_total :
    (payment : ℤ) (invoices : List OpenInvoiceInput) (line : AllocationLine)
    (lines : List AllocationLine) (total : ℤ) {plan : AllocationPlan}
    → check_requested invoices [] (pos 0) (line ∷ lines) ≡ ok total
    → allocate_payment payment invoices (some (line ∷ lines)) ≡ ok plan
    → (plan.allocations ≡ line ∷ lines)
      × (plan.unapplied_amount ≡ payment -ℤ total)
      × (total ≤ℤ payment)
unfolding allocate_payment
plan_of_total payment invoices line lines total c e = ground arith

rest_nonneg : (payment total rest : ℤ) → rest ≡ payment -ℤ total → total ≤ℤ payment → pos 0 ≤ℤ rest
rest_nonneg payment total rest e h = rw e (omega int_laws)

-- A request of positive amounts that is accepted becomes the plan as it is: at most one line for an
-- invoice, each within what the invoice can take, and what they leave of the payment, which is not
-- negative, is unapplied.
pub allocate_payment-requested :
    (payment : ℤ) (invoices : List OpenInvoiceInput) (lines : List AllocationLine)
    {plan : AllocationPlan}
    → All IsPositive lines
    → allocate_payment payment invoices (some lines) ≡ ok plan
    → (plan.allocations ≡ lines)
      × All (IsCovered invoices) lines
      × Pairwise DiffersLine lines
      × (plan.unapplied_amount ≡ payment -ℤ total_allocated lines)
      × (pos 0 ≤ℤ plan.unapplied_amount)
unfolding allocate_payment
allocate_payment-requested payment invoices [] p e = ground arith
allocate_payment-requested payment invoices (line ∷ lines) {plan} p e =
    elim (Result-cases (check_requested invoices [] (pos 0) (line ∷ lines))) [
      | inl (total, checked) ↦
          let (covered, unseen, distinct, sum) =
            check_requested-IsCovered invoices [] (pos 0) (line ∷ lines) p checked in
          let (same, rest, within) = plan_of_total payment invoices line lines total checked e in
          (
            same,
            covered,
            distinct,
            rest ∙ ap (λ x. payment -ℤ x) (sum ∙ zero_add _),
            rest_nonneg payment total _ rest within,
          )
      | inr (error, failed) ↦ ground arith
    ]
