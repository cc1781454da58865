-- ===== src/Payments/Aging.antt =====
-- The aging report and its summary against the invoices that they are about.
use vyaparaflowai.Prelude.{
  ℕ, ◌+◌, ◌-◌, ◌≤◌, ◌<◌, ◌≡◌, refl, sym, ap, ◌∙◌, ◌⊎◌, inl, inr, Bool, true, ◌&&◌, some, List, [],
  ◌∷◌, arith, ◌==◌, leb, filter, map, Bool-cases, All,
}
use vyaparaflowai.Prelude.Int.{ℤ, pos, ◌+ℤ◌, ◌-ℤ◌, ◌≤ℤ◌, leb_ℤ, int_laws}
use vyaparaflowai.Prelude.Sums.{sum_of}
use vyaparaflowai.Payments.Allocation.{
  remaining, Bucket, days_0_30, days_31_60, days_61_90, days_over_90, aging_bucket_for,
}
use vyaparaflowai.Payments.Recording.{
  PartyType, Invoice, PaymentsDb, invoices_of, is_open, is_payable, open_input, load_open_invoices,
}
use vyaparaflowai.Payments.Reports.{
  outstanding_balance, AgingLine, is_reported, outstanding, aging_lines, aging_report, AgingSummary,
  add_to, summarize, summarize_aging,
}
use vyaparaflowai.Payments.Settlement.{IsSound}
use vyaparaflowai.Payments.Books.{AreSound}

-- The days that each bucket is for.
abbrev pub Covers : Bucket → ℕ → Type 0
Covers days_0_30 n = n ≤ 30
Covers days_31_60 n = (30 < n) × (n ≤ 60)
Covers days_61_90 n = (60 < n) × (n ≤ 90)
Covers days_over_90 n = 90 < n

-- An invoice is overdue by the days since it was due, or by none if it is not due yet, and stands in
-- the bucket that covers these days.
pub aging_bucket_for-Covers :
    (due_date as_of : ℕ)
    → let (days, bucket) = aging_bucket_for due_date as_of in
      Covers bucket days × ((days + due_date ≡ as_of) ⊎ (as_of ≤ due_date) × (days ≡ 0))
unfolding aging_bucket_for
aging_bucket_for-Covers due_date as_of =
    let days = as_of - due_date in
    let known : (days + due_date ≡ as_of) ⊎ (as_of ≤ due_date) × (days ≡ 0) = grind arith in
    elim (Bool-cases (leb days 30)) [
      | inl a ↦ rw a (ground arith, known)
      | inr a ↦ elim (Bool-cases (leb days 60)) [
        | inl b ↦ rw (a, b) ((ground arith, ground arith), known)
        | inr b ↦ elim (Bool-cases (leb days 90)) [
          | inl c ↦ rw (a, b, c) ((ground arith, ground arith), known)
          | inr c ↦ rw (a, b, c) (ground arith, known)
        ]
      ]
    ]

-- What a report adds up to.
abbrev pub total_reported : List AgingLine → ℤ
total_reported lines = sum_of (λ line. line.outstanding_amount) lines

abbrev pub all_buckets : (Bucket → ℤ) → ℤ
all_buckets totals =
    totals days_0_30 +ℤ (totals days_31_60 +ℤ (totals days_61_90 +ℤ totals days_over_90))

all_buckets-add_to :
    (bucket : Bucket) (amount : ℤ) (totals : Bucket → ℤ)
    → all_buckets (add_to bucket amount totals) ≡ all_buckets totals +ℤ amount
all_buckets-add_to days_0_30 amount totals = omega int_laws
all_buckets-add_to days_31_60 amount totals = omega int_laws
all_buckets-add_to days_61_90 amount totals = omega int_laws
all_buckets-add_to days_over_90 amount totals = omega int_laws

gather : (a b c : ℤ) → (a +ℤ b) +ℤ c ≡ a +ℤ (b +ℤ c)
gather a b c = omega int_laws

summarize-total :
    (summary : AgingSummary) (lines : List AgingLine)
    → ((summarize summary lines).total_outstanding
        ≡ summary.total_outstanding +ℤ total_reported lines)
      × (all_buckets (summarize summary lines).bucket_totals
          ≡ all_buckets summary.bucket_totals +ℤ total_reported lines)
unfolding summarize
summarize-total summary [] = (omega int_laws, omega int_laws)
summarize-total summary (line ∷ lines) =
    let next : AgingSummary = record summary {
      total_outstanding = summary.total_outstanding +ℤ line.outstanding_amount;
      bucket_totals = add_to line.bucket line.outstanding_amount summary.bucket_totals;
    } in
    let (total, buckets) = summarize-total next lines in
    (
      total ∙ gather summary.total_outstanding line.outstanding_amount _,
      buckets
          ∙ ap (λ x. x +ℤ total_reported lines)
              (all_buckets-add_to line.bucket line.outstanding_amount summary.bucket_totals)
          ∙ gather (all_buckets summary.bucket_totals) line.outstanding_amount _,
    )

zero_add : (a : ℤ) → pos 0 +ℤ a ≡ a
zero_add a = omega int_laws

zero_buckets : (a : ℤ) → all_buckets (λ b. pos 0) +ℤ a ≡ pos 0 +ℤ a
zero_buckets a = omega int_laws

nothing_left :
    (total paid : ℤ) → leb_ℤ (total -ℤ paid) (pos 0) ≡ true → paid ≤ℤ total → total -ℤ paid ≡ pos 0
nothing_left total paid e h = grind int_laws

swap_tests : (a b c : Bool) → (a && b && c) ≡ (a && c && b)
swap_tests a b c = ground arith

same_test :
    (side : PartyType) (org_id party_id : ℕ) (row : Invoice)
    → is_reported side org_id (some party_id) row ≡ is_payable side org_id party_id row
same_test side org_id party_id row =
    swap_tests (row.org_id == org_id) (is_open side row.status) (row.party_id == party_id)

aging_lines-total :
    (side : PartyType) (org_id party_id as_of : ℕ) (rows : List Invoice)
    → All IsSound rows
    → total_reported (aging_lines as_of (filter (is_reported side org_id (some party_id)) rows))
      ≡ sum_of remaining (map open_input (filter (is_payable side org_id party_id) rows))
unfolding aging_lines
aging_lines-total side org_id party_id as_of [] h = refl
aging_lines-total side org_id party_id as_of (row ∷ rows) h =
    let ih = aging_lines-total side org_id party_id as_of rows h.1 in
    rw (same_test side org_id party_id row)
      (elim (Bool-cases (is_payable side org_id party_id row)) [
        | inr e ↦ rw e ih
        | inl e ↦ elim (Bool-cases (leb_ℤ (outstanding row) (pos 0))) [
          | inl paid ↦
              rw (e, paid)
                (ih
                  ∙ sym (zero_add _)
                  ∙ ap
                      (λ x.
                        x
                        +ℤ sum_of remaining
                            (map open_input (filter (is_payable side org_id party_id) rows)))
                      (sym (nothing_left row.total row.amount_paid paid h.0.1)))
          | inr owing ↦ rw (e, owing) (ap (λ x. outstanding row +ℤ x) ih)
        ]
      ])

-- In sound books the buckets of a party's aging summary add up to its total, and that total is the
-- party's outstanding balance.
pub summarize_aging-outstanding_balance :
    (side : PartyType) (org_id party_id as_of : ℕ) (db : PaymentsDb)
    → AreSound side db
    → let summary = summarize_aging (aging_report side org_id (some party_id) as_of db) as_of in
      (all_buckets summary.bucket_totals ≡ summary.total_outstanding)
      × (summary.total_outstanding ≡ outstanding_balance side org_id party_id db)
unfolding summarize_aging aging_report outstanding_balance load_open_invoices
summarize_aging-outstanding_balance side org_id party_id as_of db s =
    let lines =
      aging_lines as_of (filter (is_reported side org_id (some party_id)) (invoices_of side db)) in
    let (total, buckets) =
      summarize-total
        (record { as_of = as_of; total_outstanding = pos 0; bucket_totals = λ b. pos 0 }) lines in
    let same = aging_lines-total side org_id party_id as_of (invoices_of side db) s.sound in
    (buckets ∙ zero_buckets _ ∙ sym total, total ∙ zero_add _ ∙ same)
