-- ===== src/Payments/Plan.antt =====
-- What an allocation plan guarantees (`allocate_payment`).
use vyaparaflowai.Prelude.{
  ◌≡◌, refl, ap, ◌∙◌, inl, inr, true, false, none, List, [], ◌∷◌, ◌++◌, arith, if◌then◌else◌,
  Bool-cases,
}
use mathlib.Core.Path.{subst}
use vyaparaflowai.Prelude.Int.{
  ℤ, pos, ◌+ℤ◌, ◌-ℤ◌, ◌≤ℤ◌, ltb_ℤ, leb_ℤ, min_ℤ, min_ℤ-le_left, int_laws,
}
use vyaparaflowai.Prelude.Sorting.{sorted}
use vyaparaflowai.Prelude.Sums.{sum_of, sum_of-sorted}
use vyaparaflowai.Errors.{ok}
use vyaparaflowai.Payments.Allocation.{
  AllocationLine, OpenInvoiceInput, AllocationPlan, remaining, fill, due_first, allocate_payment,
}

-- What an invoice can still take, which is nothing if it is overpaid.
abbrev pub owed : OpenInvoiceInput → ℤ
owed invoice = if leb_ℤ (remaining invoice) (pos 0) then pos 0 else remaining invoice

abbrev pub total_allocated : List AllocationLine → ℤ
total_allocated lines = sum_of (λ line. line.amount) lines

sum_of-owed_nonneg : (invoices : List OpenInvoiceInput) → pos 0 ≤ℤ sum_of owed invoices
sum_of-owed_nonneg [] = omega arith
sum_of-owed_nonneg (invoice ∷ invoices) = grind (int_laws, sum_of-owed_nonneg invoices)

zero_add : (a : ℤ) → pos 0 +ℤ a ≡ a
zero_add a = omega int_laws

rest_none : (p s : ℤ) → pos 0 ≤ℤ p → leb_ℤ p (pos 0) ≡ true → pos 0 ≤ℤ s → p ≡ p -ℤ min_ℤ p s
unfolding min_ℤ
rest_none p s h e k = grind int_laws

rest_nonneg : (p b : ℤ) → pos 0 ≤ℤ p -ℤ min_ℤ p b
rest_nonneg p b = omega (int_laws, min_ℤ-le_left p b)

rest_take :
    (p b s : ℤ)
    → leb_ℤ p (pos 0) ≡ false
    → leb_ℤ b (pos 0) ≡ false
    → pos 0 ≤ℤ s
    → (p -ℤ min_ℤ p b) -ℤ min_ℤ (p -ℤ min_ℤ p b) s ≡ p -ℤ min_ℤ p (b +ℤ s)
unfolding min_ℤ
rest_take p b s e f k = elim (Bool-cases (ltb_ℤ b p)) [
  | inl l ↦ rw l (grind int_laws)
  | inr l ↦ rw l (grind int_laws)
]

-- The rest of a payment is what the invoices cannot take.
pub fill-rest :
    (payment : ℤ) (invoices : List OpenInvoiceInput)
    → pos 0 ≤ℤ payment
    → (fill payment invoices).1 ≡ payment -ℤ min_ℤ payment (sum_of owed invoices)
unfolding fill
fill-rest payment [] h = unfold min_ℤ in grind int_laws
fill-rest payment (invoice ∷ invoices) h =
    let later = sum_of owed invoices in
    let applied = min_ℤ payment (remaining invoice) in
    elim (Bool-cases (leb_ℤ payment (pos 0))) [
      | inl e ↦ rw e (rest_none payment _ h e (sum_of-owed_nonneg (invoice ∷ invoices)))
      | inr e ↦ elim (Bool-cases (leb_ℤ (remaining invoice) (pos 0))) [
        | inl f ↦ rw (e, f, zero_add later) (fill-rest payment invoices h)
        | inr f ↦
            rw (e, f)
              (fill-rest (payment -ℤ applied) invoices (rest_nonneg payment (remaining invoice))
                ∙ rest_take payment (remaining invoice) later e f (sum_of-owed_nonneg invoices))
      ]
    ]

take_back :
    (applied total rest payment : ℤ)
    → total +ℤ rest ≡ payment -ℤ applied
    → (applied +ℤ total) +ℤ rest ≡ payment
take_back applied total rest payment h =
    regroup applied total rest ∙ ap (λ x. applied +ℤ x) h ∙ cancel applied payment
  where
    regroup : (a t r : ℤ) → (a +ℤ t) +ℤ r ≡ a +ℤ (t +ℤ r)
    regroup a t r = omega int_laws

    cancel : (a p : ℤ) → a +ℤ (p -ℤ a) ≡ p
    cancel a p = omega int_laws

-- Nothing is lost: what is allocated and the rest make the payment.
pub fill-total :
    (payment : ℤ) (invoices : List OpenInvoiceInput)
    → total_allocated (fill payment invoices).0 +ℤ (fill payment invoices).1 ≡ payment
unfolding fill
fill-total payment [] = omega int_laws
fill-total payment (invoice ∷ invoices) =
    let applied = min_ℤ payment (remaining invoice) in
    let (lines, rest) = fill (payment -ℤ applied) invoices in
    ground (
      arith,
      zero_add payment,
      fill-total payment invoices,
      take_back applied (total_allocated lines) rest payment
          (fill-total (payment -ℤ applied) invoices),
    )

fill_exhausted :
    (payment : ℤ) (invoices : List OpenInvoiceInput)
    → leb_ℤ payment (pos 0) ≡ true
    → fill payment invoices ≡ ([], payment)
unfolding fill
fill_exhausted payment [] h = refl
fill_exhausted payment (invoice ∷ invoices) h = rw h

-- Sharing out among some invoices and then others: the first take what they can, the others share
-- the rest.
pub fill-append :
    (payment : ℤ) (first others : List OpenInvoiceInput)
    → fill payment (first ++ others) ≡ (
      (fill payment first).0 ++ (fill (fill payment first).1 others).0,
      (fill (fill payment first).1 others).1,
    )
unfolding fill
fill-append payment [] others = refl
fill-append payment (invoice ∷ first) others =
    let applied = min_ℤ payment (remaining invoice) in
    ground (
      arith,
      fill_exhausted payment others,
      fill-append payment first others,
      fill-append (payment -ℤ applied) first others,
    )

allocated : (t p m : ℤ) → t +ℤ (p -ℤ m) ≡ p → t ≡ m
allocated t p m h = shift t p m ∙ ap (λ x. x -ℤ (p -ℤ m)) h ∙ cancel p m
  where
    shift : (t p m : ℤ) → t ≡ (t +ℤ (p -ℤ m)) -ℤ (p -ℤ m)
    shift t p m = omega int_laws

    cancel : (p m : ℤ) → p -ℤ (p -ℤ m) ≡ m
    cancel p m = omega int_laws

abbrev auto_plan : ℤ → List OpenInvoiceInput → AllocationPlan
auto_plan payment invoices =
    let (lines, rest) = fill payment (sorted due_first invoices) in
    record { allocations = lines; unapplied_amount = rest }

-- Without a request a positive payment is shared out among the open invoices up to what they owe:
-- the allocations add up to the smaller of the two, and the rest of the payment is left unapplied.
pub allocate_payment-auto :
    (payment : ℤ) (invoices : List OpenInvoiceInput)
    → ¬ (payment ≤ℤ pos 0)
    → (plan : AllocationPlan) × (allocate_payment payment invoices none ≡ ok plan)
      × (total_allocated plan.allocations ≡ min_ℤ payment (sum_of owed invoices))
      × (plan.unapplied_amount ≡ payment -ℤ min_ℤ payment (sum_of owed invoices))
unfolding allocate_payment
allocate_payment-auto payment invoices h =
    let lines = sorted due_first invoices in
    let rest = fill-rest payment lines (omega arith) in
    let all = sum_of-sorted due_first owed invoices in
    (
      auto_plan payment invoices,
      ground arith,
      allocated _ _ _ (
          subst (λ r. total_allocated (fill payment lines).0 +ℤ r ≡ payment)
            (rest ∙ ap (λ s. payment -ℤ min_ℤ payment s) all) (fill-total payment lines)),
      rest ∙ ap (λ s. payment -ℤ min_ℤ payment s) all,
    )

-- Without a request the oldest invoices are served first: of the invoices in order of their due
-- dates, any first part takes the smaller of the payment and what that part owes, and the others
-- share what is left.
pub allocate_payment-oldest_first :
    (payment : ℤ) (invoices older newer : List OpenInvoiceInput)
    → ¬ (payment ≤ℤ pos 0)
    → sorted due_first invoices ≡ older ++ newer
    → (plan : AllocationPlan) × (lines : List AllocationLine) × (allocate_payment payment invoices
          none
        ≡ ok plan)
      × (plan.allocations ≡ lines ++ (fill (payment -ℤ min_ℤ payment (sum_of owed older)) newer).0)
      × (total_allocated lines ≡ min_ℤ payment (sum_of owed older))
unfolding allocate_payment
allocate_payment-oldest_first payment invoices older newer h e =
    let rest = fill-rest payment older (omega arith) in
    (
      auto_plan payment invoices,
      (fill payment older).0,
      ground arith,
      ap (λ l. (fill payment l).0) e
          ∙ ap (λ (x : List AllocationLine × ℤ). x.0) (fill-append payment older newer)
          ∙ ap (λ r. (fill payment older).0 ++ (fill r newer).0) rest,
      allocated _ _ _ (
          subst (λ r. total_allocated (fill payment older).0 +ℤ r ≡ payment) rest
            (fill-total payment older)),
    )
