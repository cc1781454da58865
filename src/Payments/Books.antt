-- ===== src/Payments/Books.antt =====
-- The loop over the allocations, and the whole of `record_payment`: the books stay sound and every
-- unit of a payment is accounted for.
use vyaparaflowai.Prelude.{ℕ, ◌≡◌, refl, ap, ◌∙◌, false, List, [], ◌∷◌, arith, ◌==◌, All, Pairwise}
use vyaparaflowai.Prelude.Int.{ℤ, pos, ◌+ℤ◌, int_laws}
use vyaparaflowai.Prelude.Sums.{sum_of}
use vyaparaflowai.Errors.{ok}
use vyaparaflowai.Payments.Allocation.{AllocationLine}
use vyaparaflowai.Payments.Recording.{
  PartyType, customer, supplier, if_customer, if_supplier, Invoice, PaymentsDb, invoices_of,
  with_invoices, InvoiceAllocationResult, settle, settle_row, settle_line, settle_lines,
}
use vyaparaflowai.Payments.Plan.{total_allocated}
use vyaparaflowai.Payments.Covers.{DiffersLine}
use vyaparaflowai.Payments.Settlement.{
  DiffersRow, IsSound, CanTake, find_row, settle_row-paid, settle_row-IsSound, settle_row_other,
  settle_row_unique,
}

abbrev pub total_paid : List Invoice → ℤ
total_paid rows = sum_of (λ row. row.amount_paid) rows

abbrev pub other_side : PartyType → PartyType
other_side customer = supplier
other_side supplier = customer

-- The invoices of one side have unique ids, and none is paid beyond its total.
pub record AreSound (side : PartyType) (db : PaymentsDb) : Type 0 where
  pub unique : Pairwise DiffersRow (invoices_of side db)
  pub sound : All IsSound (invoices_of side db)

-- What a settlement of some lines does.
pub record HasSettled (side : PartyType) (lines : List AllocationLine) (db db' : PaymentsDb)
    : Type 0 where
  pub sound : AreSound side db'
  pub paid :
      total_paid (invoices_of side db') ≡ total_paid (invoices_of side db) +ℤ total_allocated lines
  pub others_same : invoices_of (other_side side) db' ≡ invoices_of (other_side side) db
  pub payments_same : db'.payments ≡ db.payments

module _ (side : PartyType) (payment_id : ℕ) where
  settled_db : AllocationLine → PaymentsDb → PaymentsDb
  settled_db line db =
      with_invoices side (settle_row side line.invoice_id line.amount (invoices_of side db))
        (record db {
          allocations =
              record {
                payment_id = payment_id;
                customer_invoice_id = if_customer side line.invoice_id;
                supplier_invoice_id = if_supplier side line.invoice_id;
                amount = line.amount;
              }
              ∷ db.allocations;
        })

  line_result : AllocationLine → Invoice → InvoiceAllocationResult
  line_result line row =
      let after = settle side line.amount row in
      record {
        invoice_id = line.invoice_id;
        amount_applied = line.amount;
        new_amount_paid = after.amount_paid;
        new_status = after.status;
      }

  settle_line_found :
      (line : AllocationLine) (db : PaymentsDb)
      → AreSound side db
      → (c : CanTake (invoices_of side db) line)
      → settle_line side payment_id line db ≡ ok (line_result line c.row, settled_db line db)
  unfolding settle_line line_result settled_db
  settle_line_found line db s c =
      ground (arith, find_row (invoices_of side db) c.row s.unique c.here, c.same_id)

add_zero : (a : ℤ) → a ≡ a +ℤ pos 0
add_zero a = omega int_laws

with_zero : (a b : ℤ) → a +ℤ b ≡ a +ℤ (b +ℤ pos 0)
with_zero a b = omega int_laws

gather : (a b c : ℤ) → (a +ℤ (b +ℤ pos 0)) +ℤ c ≡ a +ℤ (b +ℤ c)
gather a b c = omega int_laws

different_row :
    (line other : AllocationLine) (row : Invoice)
    → row.id ≡ other.invoice_id
    → DiffersLine line other
    → (row.id == line.invoice_id) ≡ false
different_row line other row e d = ground arith

settled-invoices :
    (side : PartyType) (pid : ℕ) (line : AllocationLine) (db : PaymentsDb)
    → (invoices_of side (settled_db side pid line db)
        ≡ settle_row side line.invoice_id line.amount (invoices_of side db))
      × (invoices_of (other_side side) (settled_db side pid line db)
          ≡ invoices_of (other_side side) db)
      × ((settled_db side pid line db).payments ≡ db.payments)
unfolding settled_db
settled-invoices customer pid line db = (refl, refl, refl)
settled-invoices supplier pid line db = (refl, refl, refl)

CanTake-later :
    (side : PartyType) (pid : ℕ) (line : AllocationLine) (lines : List AllocationLine)
    (db : PaymentsDb)
    → All (DiffersLine line) lines
    → All (CanTake (invoices_of side db)) lines
    → All (CanTake (invoices_of side (settled_db side pid line db))) lines
CanTake-later side pid line [] db d c = tt
CanTake-later side pid line (other ∷ lines) db d c = (
  record {
    row = c.0.row;
    here = rw (settled-invoices side pid line db).0 (
        settle_row_other side line.invoice_id line.amount (invoices_of side db) c.0.row c.0.here
          (different_row line other c.0.row c.0.same_id d.0));
    same_id = c.0.same_id;
    nonneg = c.0.nonneg;
    within = c.0.within;
  },
  CanTake-later side pid line lines db d.1 c.1,
)

module _ (side : PartyType) (payment_id : ℕ) where
  settled_db-AreSound :
      (line : AllocationLine) (db : PaymentsDb)
      → AreSound side db
      → CanTake (invoices_of side db) line
      → HasSettled side (line ∷ []) db (settled_db side payment_id line db)
  settled_db-AreSound line db s c =
      let rows = invoices_of side db in
      let (own, other, same) = settled-invoices side payment_id line db in
      record {
        sound = record {
          unique = rw own (settle_row_unique side line.invoice_id line.amount rows s.unique);
          sound = rw own (
              settle_row-IsSound side line.invoice_id line.amount rows c.row s.unique c.here
                c.same_id c.nonneg c.within s.sound);
        };
        paid =
            ap total_paid own
            ∙ settle_row-paid side line.invoice_id line.amount rows c.row s.unique c.here c.same_id
            ∙ with_zero (total_paid rows) line.amount;
        others_same = other;
        payments_same = same;
      }

  HasSettled-cons :
      (line : AllocationLine) (lines : List AllocationLine) (db mid db' : PaymentsDb)
      → HasSettled side (line ∷ []) db mid
      → HasSettled side lines mid db'
      → HasSettled side (line ∷ lines) db db'
  HasSettled-cons line lines db mid db' a b = record {
    sound = b.sound;
    paid = b.paid ∙ ap (λ x. x +ℤ total_allocated lines) a.paid ∙ gather _ line.amount _;
    others_same = b.others_same ∙ a.others_same;
    payments_same = b.payments_same ∙ a.payments_same;
  }

  -- In sound books, lines for different invoices, each of which can take its line, are all settled:
  -- the books stay sound, what is paid grows by the sum of the lines, and the invoices of the other
  -- side and the payments stay as they are.
  pub settle_lines-HasSettled :
      (lines : List AllocationLine) (db : PaymentsDb)
      → AreSound side db
      → All (CanTake (invoices_of side db)) lines
      → Pairwise DiffersLine lines
      → (r : List InvoiceAllocationResult × PaymentsDb) × (settle_lines side payment_id lines db
          ≡ ok r)
        × HasSettled side lines db r.1
  unfolding settle_lines
  settle_lines-HasSettled [] db s c d = (
    ([], db),
    refl,
    record { sound = s; paid = add_zero _; others_same = refl; payments_same = refl },
  )
  settle_lines-HasSettled (line ∷ lines) db s c d =
      let mid = settled_db side payment_id line db in
      let first = settled_db-AreSound line db s c.0 in
      let (r, e, rest) =
        settle_lines-HasSettled lines mid first.sound
          (CanTake-later side payment_id line lines db d.0 c.1) d.1 in
      (
        (line_result side payment_id line c.0.row ∷ r.0, r.1),
        rw (settle_line_found side payment_id line db s c.0, e),
        HasSettled-cons line lines db mid r.1 first rest,
      )
