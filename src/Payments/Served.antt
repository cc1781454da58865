-- ===== src/Payments/Served.antt =====
-- The lines of any plan can be paid, and a plan accounts for the whole payment (`allocate_payment`).
use vyaparaflowai.Prelude.{
  ◌≡◌, refl, sym, inl, inr, false, Option, none, some, List, [], ◌∷◌, arith, ◌==◌, All, All-In,
  Pairwise, Bool-cases,
}
use mathlib.Core.Path.{subst, subst₂}
use vyaparaflowai.Prelude.Int.{
  ℤ, pos, ◌+ℤ◌, ◌-ℤ◌, ◌≤ℤ◌, leb_ℤ, min_ℤ, min_ℤ-le_right, min_ℤ-le_left, int_laws,
}
use vyaparaflowai.Prelude.Sorting.{sorted, In-sorted, Pairwise-sorted}
use vyaparaflowai.Prelude.Sums.{sum_of}
use vyaparaflowai.Errors.{ok}
use vyaparaflowai.Payments.Allocation.{
  AllocationLine, OpenInvoiceInput, AllocationPlan, remaining, fill, due_first, allocate_payment,
}
use vyaparaflowai.Payments.Plan.{total_allocated, owed, fill-rest, fill-total}
use vyaparaflowai.Payments.Covers.{IsCovered, IsPositive, DiffersLine, allocate_payment-requested}

-- Two invoices of different ids.
abbrev pub DiffersInvoice : OpenInvoiceInput → OpenInvoiceInput → Type 0
DiffersInvoice a b = (a.invoice_id == b.invoice_id) ≡ false

later-IsCovered :
    (invoice : OpenInvoiceInput) (invoices : List OpenInvoiceInput) (lines : List AllocationLine)
    → All (IsCovered invoices) lines
    → All (IsCovered (invoice ∷ invoices)) lines
later-IsCovered invoice invoices [] h = tt
later-IsCovered invoice invoices (line ∷ lines) h = (
  record {
    invoice = h.0.invoice;
    open_invoice = inr h.0.open_invoice;
    same_id = h.0.same_id;
    positive = h.0.positive;
    within = h.0.within;
  },
  later-IsCovered invoice invoices lines h.1,
)

covered_differ :
    (invoice : OpenInvoiceInput) (amount : ℤ) (invoices : List OpenInvoiceInput)
    (lines : List AllocationLine)
    → All (DiffersInvoice invoice) invoices
    → All (IsCovered invoices) lines
    → All (DiffersLine (record { invoice_id = invoice.invoice_id; amount = amount })) lines
covered_differ invoice amount invoices [] d h = tt
covered_differ invoice amount invoices (line ∷ lines) d h = (
  subst (λ id. (invoice.invoice_id == id) ≡ false) h.0.same_id
      (All-In (DiffersInvoice invoice) invoices h.0.invoice d h.0.open_invoice),
  covered_differ invoice amount invoices lines d h.1,
)

abbrev pub AreServed : List OpenInvoiceInput → List AllocationLine → Type 0
AreServed invoices lines = All (IsCovered invoices) lines × Pairwise DiffersLine lines

-- Every line of an automatic plan is for an open invoice, which can take it.
fill-AreServed :
    (payment : ℤ) (invoices : List OpenInvoiceInput)
    → Pairwise DiffersInvoice invoices
    → AreServed invoices (fill payment invoices).0
unfolding fill
fill-AreServed payment [] d = (tt, tt)
fill-AreServed payment (invoice ∷ invoices) d =
    let applied = min_ℤ payment (remaining invoice) in
    elim (Bool-cases (leb_ℤ payment (pos 0))) [
      | inl e ↦ rw e (tt, tt)
      | inr e ↦ elim (Bool-cases (leb_ℤ (remaining invoice) (pos 0))) [
        | inl f ↦
            let r = fill-AreServed payment invoices d.1 in
            rw (e, f) (later-IsCovered invoice invoices _ r.0, r.1)
        | inr f ↦
            let r = fill-AreServed (payment -ℤ applied) invoices d.1 in
            rw (e, f)
              (
                (
                  record {
                    invoice = invoice;
                    open_invoice = inl refl;
                    same_id = refl;
                    positive = unfold min_ℤ in ground arith;
                    within = min_ℤ-le_right payment (remaining invoice);
                  },
                  later-IsCovered invoice invoices _ r.0,
                ),
                (covered_differ invoice applied invoices _ d.0 r.0, r.1),
              )
      ]
    ]

differs_symm : (a b : OpenInvoiceInput) → DiffersInvoice a b → DiffersInvoice b a
differs_symm a b h = ground arith

sorted-IsCovered :
    (invoices : List OpenInvoiceInput) (lines : List AllocationLine)
    → All (IsCovered (sorted due_first invoices)) lines
    → All (IsCovered invoices) lines
sorted-IsCovered invoices [] h = tt
sorted-IsCovered invoices (line ∷ lines) h = (
  record {
    invoice = h.0.invoice;
    open_invoice = In-sorted due_first invoices h.0.invoice h.0.open_invoice;
    same_id = h.0.same_id;
    positive = h.0.positive;
    within = h.0.within;
  },
  sorted-IsCovered invoices lines h.1,
)

-- What a request may hold: positive amounts, as the model validates.
abbrev pub IsValidRequest : Option (List AllocationLine) → Type 0
IsValidRequest none = Unit
IsValidRequest (some lines) = All IsPositive lines

auto_inversion :
    (payment : ℤ) (invoices : List OpenInvoiceInput) {plan : AllocationPlan}
    → allocate_payment payment invoices none ≡ ok plan
    → (pos 0 ≤ℤ payment)
      × ((fill payment (sorted due_first invoices)).0 ≡ plan.allocations)
      × ((fill payment (sorted due_first invoices)).1 ≡ plan.unapplied_amount)
unfolding allocate_payment
auto_inversion payment invoices e = ground arith

rest_nonneg : (p s : ℤ) → pos 0 ≤ℤ p -ℤ min_ℤ p s
rest_nonneg p s = omega (int_laws, min_ℤ-le_left p s)

add_back : (t p : ℤ) → t +ℤ (p -ℤ t) ≡ p
add_back t p = omega int_laws

-- Every plan for open invoices of different ids, automatic or requested with positive amounts, has at most one line for an
-- invoice, of a positive amount that the invoice can take, and with what it leaves unapplied, which
-- is not negative, it accounts for the whole payment.
pub allocate_payment-AreServed :
    (payment : ℤ) (invoices : List OpenInvoiceInput) (requested : Option (List AllocationLine))
    {plan : AllocationPlan}
    → Pairwise DiffersInvoice invoices
    → IsValidRequest requested
    → allocate_payment payment invoices requested ≡ ok plan
    → AreServed invoices plan.allocations
      × (total_allocated plan.allocations +ℤ plan.unapplied_amount ≡ payment)
      × (pos 0 ≤ℤ plan.unapplied_amount)
allocate_payment-AreServed payment invoices (some lines) {plan} d p e =
    let (same, covered, distinct, rest, nonneg) =
      allocate_payment-requested payment invoices lines p e in
    (
      subst (AreServed invoices) (sym same) (covered, distinct),
      subst (λ l. total_allocated l +ℤ plan.unapplied_amount ≡ payment) (sym same)
          (rw rest (add_back (total_allocated lines) payment)),
      nonneg,
    )
allocate_payment-AreServed payment invoices none {plan} d p e =
    let ordered = sorted due_first invoices in
    let served =
      fill-AreServed payment ordered
        (Pairwise-sorted due_first DiffersInvoice differs_symm invoices d) in
    let (nonneg, lines, rest) = auto_inversion payment invoices e in
    (
      subst (AreServed invoices) lines (sorted-IsCovered invoices _ served.0, served.1),
      subst₂ (λ l r. total_allocated l +ℤ r ≡ payment) lines rest (fill-total payment ordered),
      subst (λ r. pos 0 ≤ℤ r) rest
          (rw (fill-rest payment ordered nonneg) (rest_nonneg payment (sum_of owed ordered))),
    )
