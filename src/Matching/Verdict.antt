-- ===== src/Matching/Verdict.antt =====
-- The verdict on the lines (`evaluate_three_way_match` of backend/app/services/matching.py).
use vyaparaflowai.Prelude.{
  ℕ, ◌+◌, ◌%◌, Bool, true, false, not, ◌&&◌, ◌||◌, none, List, [], ◌∷◌, ◌++◌, map, ◌==◌, ltb, leb,
  if◌then◌else◌, any, min,
}
use vyaparaflowai.Prelude.Int.{ℤ, pos, abs}
use vyaparaflowai.Prelude.Sums.{sum_of}
use vyaparaflowai.Matching.Lines.{
  ReasonCode, po_line_missing, grn_line_missing, invoice_line_missing, unmatched_invoice_line,
  qty_variance, price_variance, price_spike, amount_variance, duplicate_invoice_suspected,
  new_supplier, round_number_amount, weekend_submission, Reason, starts, mentions, MatchTolerances,
  MatchLineInput, MatchLineResult, evaluate_line,
}

pub data MatchVerdict : Type 0 where
  auto_approve review block : MatchVerdict

-- The arguments. `invoice_total` is in thousandths of paise; a date is its ordinal, 1 for the first
-- day of the year 1, a Monday.
pub record MatchInput : Type 0 where
  pub lines : List MatchLineInput
  pub tolerances : MatchTolerances
  pub unmatched_invoice_line_count : ℕ
  pub is_new_supplier : Bool
  pub duplicate_invoice_found : Bool
  pub invoice_total : ℕ
  pub invoice_date : ℕ

pub record ThreeWayMatchOutcome : Type 0 where
  pub verdict : MatchVerdict
  pub risk_score : ℕ
  pub qty_variance : ℤ
  pub price_variance : ℤ
  pub amount_variance : ℤ
  pub reason_codes : List Reason
  pub lines : List MatchLineResult

-- `_is_round_number_amount`: a multiple of a thousand rupees.
unfoldable pub is_round_number_amount : ℕ → Bool
is_round_number_amount amount = ltb 0 amount && amount % 100000000 == 0

-- `_is_weekend`
unfoldable pub is_weekend : ℕ → Bool
is_weekend submitted = leb 5 ((submitted + 6) % 7)

-- `max(..., key=abs, default=ZERO)`: the first of the greatest.
abbrev pub worst_from : ℤ → List MatchLineResult → ℤ
worst_from worst [] = worst
worst_from worst (line ∷ lines) =
    worst_from (if ltb (abs worst) (abs line.price_variance) then line.price_variance else worst)
      lines

unfoldable pub price_variance_worst : List MatchLineResult → ℤ
price_variance_worst [] = pos 0
price_variance_worst (line ∷ lines) = worst_from line.price_variance lines

-- `any(test(code) for line in line_results for code in line.reason_codes)`
abbrev pub any_reason : (Reason → Bool) → List MatchLineResult → Bool
any_reason test lines = any (λ (line : MatchLineResult). any test line.reason_codes) lines

abbrev pub is_structural : Reason → Bool
is_structural reason =
    starts po_line_missing reason
    || starts grn_line_missing reason
    || starts invoice_line_missing reason

unfoldable pub structural_issue : MatchInput → List MatchLineResult → Bool
structural_issue input results =
    ltb 0 input.unmatched_invoice_line_count || any_reason is_structural results

abbrev pub points : Bool → ℕ → ℕ
points true n = n
points false n = 0

-- `_RISK_CAP`
unfoldable pub risk_score : MatchInput → List MatchLineResult → ℕ
risk_score input results =
    min
      (points (structural_issue input results) 20
        + points (any_reason (mentions qty_variance) results) 15
        + points (any_reason (starts price_variance) results) 15
        + points (any_reason (mentions price_spike) results) 15
        + points (any_reason (mentions amount_variance) results) 10
        + points input.duplicate_invoice_found 25
        + points input.is_new_supplier 10
        + points (is_round_number_amount input.invoice_total) 5
        + points (is_weekend input.invoice_date) 5)
      100

-- `_BLOCK_RISK_THRESHOLD` and `_REVIEW_RISK_THRESHOLD`
unfoldable pub verdict_of : MatchInput → List MatchLineResult → MatchVerdict
verdict_of input results =
    if structural_issue input results
      || input.duplicate_invoice_found
      || leb 60 (risk_score input results)
    then block
    else if leb 20 (risk_score input results)
        || any (λ (line : MatchLineResult). not line.within_tolerance) results
    then review
    else auto_approve

abbrev pub append_reasons : List MatchLineResult → List Reason → List Reason
append_reasons [] rest = rest
append_reasons (line ∷ lines) rest = line.reason_codes ++ append_reasons lines rest

abbrev pub header_reason : Bool → ReasonCode → List Reason
header_reason true code = record { code = code; product_sku = none } ∷ []
header_reason false code = []

unfoldable pub evaluate_three_way_match : MatchInput → ThreeWayMatchOutcome
evaluate_three_way_match input =
    let results = map (evaluate_line input.tolerances) input.lines in
    record {
      verdict = verdict_of input results;
      risk_score = risk_score input results;
      qty_variance = sum_of (λ (line : MatchLineResult). line.qty_variance) results;
      price_variance = price_variance_worst results;
      amount_variance = sum_of (λ (line : MatchLineResult). line.amount_variance) results;
      reason_codes =
          header_reason (ltb 0 input.unmatched_invoice_line_count) unmatched_invoice_line
          ++ append_reasons results (
              header_reason input.duplicate_invoice_found duplicate_invoice_suspected
              ++ (header_reason input.is_new_supplier new_supplier
                  ++ (header_reason (is_round_number_amount input.invoice_total) round_number_amount
                      ++ header_reason (is_weekend input.invoice_date) weekend_submission)));
      lines = results;
    }
