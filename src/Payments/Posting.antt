-- ===== src/Payments/Posting.antt =====
-- The whole of `record_payment`: what it answers, and what it does to the books.
use text.Mathlib.Text.{◌==◌ as str_eq}
use mathlib.Core.Path.{subst}
use vyaparaflowai.Prelude.{
  ℕ, ◌≡◌, refl, sym, ap, ◌∙◌, ◌⊎◌, inl, inr, Bool, true, false, some, List, [], ◌∷◌, arith, ◌==◌,
  all, any, find, filter, map, All, In, Pairwise, Bool-cases, Option-cases, String,
}
use vyaparaflowai.Prelude.Int.{ℤ, pos, ◌+ℤ◌, ◌-ℤ◌, ◌≤ℤ◌, leb_ℤ, int_laws}
use vyaparaflowai.Errors.{ok, err, validation, not_found, data_error, Result-cases}
use vyaparaflowai.Payments.Allocation.{
  AllocationLine, OpenInvoiceInput, AllocationPlan, remaining, allocate_payment,
}
use vyaparaflowai.Payments.Recording.{
  PartyType, customer, supplier, Invoice, PaymentsDb, invoices_of, InvoiceAllocationResult,
  open_input, is_payable, load_open_invoices, parties, Party, PaymentRequest, RecordPaymentResult,
  payment_overflows, is_refused_amount, is_refused_line, payment_row, write_payment, record_payment,
  validate_party_type, check_invoice,
}
use vyaparaflowai.Payments.Plan.{total_allocated}
use vyaparaflowai.Payments.Settlement.{DiffersRow, IsSound, CanTake}
use vyaparaflowai.Payments.Covers.{IsCovered}
use vyaparaflowai.Payments.Served.{DiffersInvoice, IsValidRequest, allocate_payment-AreServed}
use vyaparaflowai.Payments.Books.{total_paid, other_side, AreSound, settle_lines-HasSettled}

differs_inputs :
    (test : Invoice → Bool) (row : Invoice) (rows : List Invoice)
    → All (DiffersRow row) rows
    → All (DiffersInvoice (open_input row)) (map open_input (filter test rows))
differs_inputs test row [] d = tt
differs_inputs test row (x ∷ xs) d = elim (Bool-cases (test x)) [
  | inl e ↦ rw e (d.0, differs_inputs test row xs d.1)
  | inr e ↦ rw e (differs_inputs test row xs d.1)
]

unique_inputs :
    (test : Invoice → Bool) (rows : List Invoice)
    → Pairwise DiffersRow rows
    → Pairwise DiffersInvoice (map open_input (filter test rows))
unique_inputs test [] d = tt
unique_inputs test (x ∷ xs) d = elim (Bool-cases (test x)) [
  | inl e ↦ rw e (differs_inputs test x xs d.0, unique_inputs test xs d.1)
  | inr e ↦ rw e (unique_inputs test xs d.1)
]

-- An open invoice of the service is a row that passes the test of the query.
row_of_input :
    (test : Invoice → Bool) (rows : List Invoice) (invoice : OpenInvoiceInput)
    → In invoice (map open_input (filter test rows))
    → (row : Invoice) × In row rows × (test row ≡ true) × (open_input row ≡ invoice)
row_of_input test [] invoice m = absurd m
row_of_input test (x ∷ xs) invoice m = elim (Bool-cases (test x)) [
  | inl e ↦
      let m' : In invoice (open_input x ∷ map open_input (filter test xs)) = rw e at m in
      elim m' [
        | inl same ↦ (x, inl refl, e, same)
        | inr later ↦
            let (row, here, passed, same) = row_of_input test xs invoice later in
            (row, inr here, passed, same)
      ]
  | inr e ↦
      let (row, here, passed, same) = row_of_input test xs invoice (rw e at m) in
      (row, inr here, passed, same)
]

positive_nonneg : (a : ℤ) → ¬ (a ≤ℤ pos 0) → pos 0 ≤ℤ a
positive_nonneg a h = omega arith

room : (total paid a : ℤ) → a ≤ℤ total -ℤ paid → paid +ℤ a ≤ℤ total
room total paid a h = omega int_laws

add_assoc : (a b c : ℤ) → (a +ℤ b) +ℤ c ≡ a +ℤ (b +ℤ c)
add_assoc a b c = omega int_laws

CanTake-input :
    (rows : List Invoice) (test : Invoice → Bool) (line : AllocationLine)
    → IsCovered (map open_input (filter test rows)) line
    → CanTake rows line
CanTake-input rows test line c =
    let (row, here, passed, same) = row_of_input test rows c.invoice c.open_invoice in
    record {
      row = row;
      here = here;
      same_id = ap (λ (i : OpenInvoiceInput). i.invoice_id) same ∙ c.same_id;
      nonneg = positive_nonneg line.amount c.positive;
      within =
          room row.total row.amount_paid line.amount
            (subst (λ i. line.amount ≤ℤ remaining i) (sym same) c.within);
    }

CanTake-inputs :
    (rows : List Invoice) (test : Invoice → Bool) (lines : List AllocationLine)
    → All (IsCovered (map open_input (filter test rows))) lines
    → All (CanTake rows) lines
CanTake-inputs rows test [] h = tt
CanTake-inputs rows test (line ∷ lines) h =
    (CanTake-input rows test line h.0, CanTake-inputs rows test lines h.1)

any-is_refused_line :
    (invoices : List OpenInvoiceInput) (lines : List AllocationLine)
    → All (IsCovered invoices) lines
    → any is_refused_line lines ≡ false
any-is_refused_line invoices [] h = refl
any-is_refused_line invoices (line ∷ lines) h =
    ground (arith, h.0.positive, any-is_refused_line invoices lines h.1)

all_sound : (rows : List Invoice) → All IsSound rows → all check_invoice rows ≡ true
all_sound [] h = refl
all_sound (row ∷ rows) h = ground (arith, all_sound rows h.1)

-- What an accepted payment does: a row for the full amount, invoices that are paid by what was
-- allocated and none beyond its total, the rest of the amount reported, and the other side's
-- invoices left alone.
pub record IsPosted (side : PartyType) (request : PaymentRequest) (payment_id : ℕ) (db : PaymentsDb)
    (result : RecordPaymentResult) (db' : PaymentsDb) : Type 0 where
  pub same_side : result.party_type ≡ side
  pub sound : AreSound side db'
  pub accounted :
      total_paid (invoices_of side db') +ℤ result.unapplied_amount
      ≡ total_paid (invoices_of side db) +ℤ request.amount
  pub unapplied_nonneg : pos 0 ≤ℤ result.unapplied_amount
  pub others_same : invoices_of (other_side side) db' ≡ invoices_of (other_side side) db
  pub booked : db'.payments ≡ payment_row side request payment_id ∷ db.payments

module _ (side : PartyType) (request : PaymentRequest) (payment_id : ℕ) (db : PaymentsDb) where
  opened : PaymentsDb
  opened = record db { payments = payment_row side request payment_id ∷ db.payments }

  same_invoices : (s : PartyType) → invoices_of s opened ≡ invoices_of s db
  unfolding opened
  same_invoices customer = refl
  same_invoices supplier = refl

  posted_result :
      AllocationPlan → List InvoiceAllocationResult × PaymentsDb → RecordPaymentResult × PaymentsDb
  posted_result plan r = (
    record {
      payment_id = payment_id;
      party_type = side;
      party_id = request.party_id;
      amount = request.amount;
      invoices = r.0;
      unapplied_amount = plan.unapplied_amount;
    },
    r.1,
  )

  write_payment-IsPosted :
      (plan : AllocationPlan)
      → payment_overflows request ≡ false
      → is_refused_amount request.amount ≡ false
      → AreSound side db
      → IsValidRequest request.requested
      → allocate_payment request.amount
          (load_open_invoices side request.org_id request.party_id db)
          request.requested
        ≡ ok plan
      → (r : RecordPaymentResult × PaymentsDb) × (write_payment side request payment_id plan db
          ≡ ok r)
        × IsPosted side request payment_id db r.0 r.1
  unfolding load_open_invoices write_payment posted_result opened
  write_payment-IsPosted plan fits positive s v e =
      let rows = invoices_of side db in
      let test = is_payable side request.org_id request.party_id in
      let (served, accounted, nonneg) =
        allocate_payment-AreServed request.amount (map open_input (filter test rows))
          request.requested (unique_inputs test rows s.unique) v e in
      let takes : All (CanTake (invoices_of side opened)) plan.allocations =
        rw (same_invoices side) (CanTake-inputs rows test plan.allocations served.0) in
      let start : AreSound side opened = record {
        unique = rw (same_invoices side) s.unique;
        sound = rw (same_invoices side) s.sound;
      } in
      let (r, settled, h) =
        settle_lines-HasSettled side payment_id plan.allocations opened start takes served.1 in
      (
        posted_result plan r,
        ground (
          arith,
          fits,
          positive,
          settled,
          any-is_refused_line (map open_input (filter test rows)) plan.allocations served.0,
          all_sound (invoices_of side r.1) h.sound.sound,
        ),
        record {
          same_side = refl;
          sound = h.sound;
          accounted =
              ap (λ x. x +ℤ plan.unapplied_amount)
                (h.paid
                  ∙ ap (λ l. total_paid l +ℤ total_allocated plan.allocations) (same_invoices side))
              ∙ add_assoc (total_paid rows) (total_allocated plan.allocations) plan.unapplied_amount
              ∙ ap (λ x. total_paid rows +ℤ x) accounted;
          unapplied_nonneg = nonneg;
          others_same = h.others_same ∙ same_invoices (other_side side);
          booked = h.payments_same;
        },
      )

validated :
    (name : String)
    → ((side : PartyType) × (validate_party_type name ≡ ok side))
      ⊎ (validate_party_type name ≡ err validation)
unfolding validate_party_type
validated name = elim (Bool-cases (str_eq name "customer")) [
  | inl c ↦ inl (customer, rw c)
  | inr c ↦ elim (Bool-cases (str_eq name "supplier")) [
    | inl d ↦ inl (supplier, rw (c, d))
    | inr d ↦ inr (rw (c, d))
  ]
]

-- In sound books a payment of a positive amount that its columns hold, for a party of the organization, whose allocation
-- passes and whose requested amounts are positive, is posted: it is booked, the books stay sound, what
-- is paid grows by the amount less what is left unapplied, and the other side stays as it is.
pub record_payment-IsPosted :
    (request : PaymentRequest) (payment_id : ℕ) (db : PaymentsDb) (side : PartyType) (party : Party)
    (plan : AllocationPlan)
    → payment_overflows request ≡ false
    → AreSound side db
    → IsValidRequest request.requested
    → validate_party_type request.party_type ≡ ok side
    → ¬ (request.amount ≤ℤ pos 0)
    → find (λ row. row.id == request.party_id) (parties side db) ≡ some party
    → party.org_id ≡ request.org_id
    → allocate_payment request.amount
        (load_open_invoices side request.org_id request.party_id db)
        request.requested
      ≡ ok plan
    → (r : RecordPaymentResult × PaymentsDb) × (record_payment request payment_id db ≡ ok r)
      × IsPosted side request payment_id db r.0 r.1
unfolding record_payment
record_payment-IsPosted request payment_id db side party plan fits s v t p f o e =
    let amount : leb_ℤ request.amount (pos 0) ≡ false = ground arith in
    let (r, written, posted) =
      write_payment-IsPosted side request payment_id db plan fits amount s v e in
    let org : (party.org_id == request.org_id) ≡ true = ground arith in
    (r, rw (t, amount, f, org, e) written, posted)

-- In sound books a request in whole paise, which is what the columns keep of an amount, whose
-- requested amounts are positive is answered by a posted payment, a validation error, a
-- `NotFoundError`, or the database's refusal of a payment that its columns cannot hold: the loop finds
-- every invoice, and no constraint of the database fails.
pub record_payment_cases :
    (request : PaymentRequest) (payment_id : ℕ) (db : PaymentsDb)
    → ((side : PartyType) → AreSound side db)
    → IsValidRequest request.requested
    → ((r : RecordPaymentResult × PaymentsDb) × (record_payment request payment_id db ≡ ok r)
        × IsPosted r.0.party_type request payment_id db r.0 r.1)
      ⊎ (record_payment request payment_id db ≡ err validation)
      ⊎ (record_payment request payment_id db ≡ err not_found)
      ⊎ ((record_payment request payment_id db ≡ err data_error)
          × (payment_overflows request ≡ true))
unfolding record_payment write_payment
record_payment_cases request payment_id db s v = elim (validated request.party_type) [
  | inr invalid ↦ inr (inl (rw invalid))
  | inl (side, t) ↦ elim (Bool-cases (leb_ℤ request.amount (pos 0))) [
    | inl small ↦ inr (inl (rw (t, small)))
    | inr positive ↦
        elim (Option-cases (find (λ row. row.id == request.party_id) (parties side db))) [
          | inl missing ↦ inr (inr (inl (rw (t, positive, missing))))
          | inr (party, f) ↦ elim (Bool-cases (party.org_id == request.org_id)) [
            | inr foreign ↦ inr (inr (inl (rw (t, positive, f, foreign))))
            | inl own ↦
                elim (Result-cases (
                  allocate_payment request.amount
                    (load_open_invoices side request.org_id request.party_id db)
                    request.requested)) [
                      | inr (error, e) ↦ inr (inl (rw (t, positive, f, own, e)))
                      | inl (plan, e) ↦ elim (Bool-cases (payment_overflows request)) [
                        | inl large ↦
                            let raised : write_payment side request payment_id plan db
                                ≡ err data_error =
                              rw (write_payment, large) refl in
                            inr (inr (inr (rw (t, positive, f, own, e) raised, large)))
                        | inr fits ↦
                            let (r, written, posted) =
                              write_payment-IsPosted side request payment_id db plan fits positive
                                (s side) v e in
                            inl (
                              r,
                              rw (t, positive, f, own, e) written,
                              subst (λ w. IsPosted w request payment_id db r.0 r.1)
                                  (sym posted.same_side) posted,
                            )
                      ]
                    ]
          ]
        ]
  ]
]
