-- ===== src/Payments/Reports.antt =====
-- `outstanding_balance`, `aging_report` and `summarize_aging` of backend/app/services/payments.py.
use vyaparaflowai.Prelude.{
  ℕ, Bool, true, false, ◌&&◌, Option, none, some, List, [], ◌∷◌, ◌==◌, if◌then◌else◌, filter,
}
use vyaparaflowai.Prelude.Int.{ℤ, pos, ◌+ℤ◌, ◌-ℤ◌, leb_ℤ}
use vyaparaflowai.Prelude.Sums.{sum_of}
use vyaparaflowai.Payments.Allocation.{
  remaining, Bucket, days_0_30, days_31_60, days_61_90, days_over_90, aging_bucket_for,
}
use vyaparaflowai.Payments.Recording.{
  PartyType, Invoice, PaymentsDb, invoices_of, is_open, load_open_invoices,
}

-- Python's `sum` adds from the left; on integers that is the sum.
unfoldable pub outstanding_balance : PartyType → (org_id party_id : ℕ) → PaymentsDb → ℤ
outstanding_balance side org_id party_id db =
    sum_of remaining (load_open_invoices side org_id party_id db)

pub record AgingLine : Type 0 where
  pub invoice_id : ℕ
  pub party_id : ℕ
  pub due_date : ℕ
  pub outstanding_amount : ℤ
  pub days_overdue : ℕ
  pub bucket : Bucket

-- `party` is none for the report on the whole organization.
abbrev pub is_reported : PartyType → ℕ → Option ℕ → Invoice → Bool
is_reported side org_id party row =
    row.org_id == org_id
    && is_open side row.status
    && elim party [ none ↦ true | some party_id ↦ row.party_id == party_id ]

abbrev pub outstanding : Invoice → ℤ
outstanding row = row.total -ℤ row.amount_paid

abbrev pub aging_line : ℕ → Invoice → AgingLine
aging_line as_of row =
    let (days, bucket) = aging_bucket_for row.due_date as_of in
    record {
      invoice_id = row.id;
      party_id = row.party_id;
      due_date = row.due_date;
      outstanding_amount = outstanding row;
      days_overdue = days;
      bucket = bucket;
    }

unfoldable pub aging_lines : ℕ → List Invoice → List AgingLine
aging_lines as_of [] = []
aging_lines as_of (row ∷ rows) =
    if leb_ℤ (outstanding row) (pos 0)
    then aging_lines as_of rows
    else aging_line as_of row ∷ aging_lines as_of rows

unfoldable pub aging_report : PartyType → ℕ → Option ℕ → ℕ → PaymentsDb → List AgingLine
aging_report side org_id party as_of db =
    aging_lines as_of (filter (is_reported side org_id party) (invoices_of side db))

pub record AgingSummary : Type 0 where
  pub as_of : ℕ
  pub total_outstanding : ℤ
  pub bucket_totals : Bucket → ℤ

abbrev pub is_bucket : Bucket → Bucket → Bool
is_bucket days_0_30 days_0_30 = true
is_bucket days_31_60 days_31_60 = true
is_bucket days_61_90 days_61_90 = true
is_bucket days_over_90 days_over_90 = true
is_bucket _ _ = false

-- `bucket_totals[bucket] += amount`
abbrev pub add_to : Bucket → ℤ → (Bucket → ℤ) → Bucket → ℤ
add_to bucket amount totals b = if is_bucket bucket b then totals b +ℤ amount else totals b

unfoldable pub summarize : AgingSummary → List AgingLine → AgingSummary
summarize summary [] = summary
summarize summary (line ∷ lines) =
    summarize
      (record summary {
        total_outstanding = summary.total_outstanding +ℤ line.outstanding_amount;
        bucket_totals = add_to line.bucket line.outstanding_amount summary.bucket_totals;
      })
      lines

unfoldable pub summarize_aging : List AgingLine → ℕ → AgingSummary
unfolding summarize
summarize_aging lines as_of =
    summarize (record { as_of = as_of; total_outstanding = pos 0; bucket_totals = λ b. pos 0 })
      lines
