-- ===== src/Pricing/Orders.antt =====
-- The pricing of an order (`price_order` of backend/app/services/pricing.py).
use text.Mathlib.Text.{◌==◌ as str_eq}
use vyaparaflowai.Prelude.{
  ℕ, ◌+◌, ◌*◌, Bool, true, false, List, [], ◌∷◌, map, String, ltb, is_empty, if◌then◌else◌, total,
}
use vyaparaflowai.Prelude.Int.{ℤ, pos, ◌+ℤ◌, ◌-ℤ◌}
use vyaparaflowai.Prelude.Sums.{sum_of}
use vyaparaflowai.Errors.{Result, ok, value_error, ◌>>◌, raise_if}
use vyaparaflowai.Pricing.Lines.{
  half_up, PricingLineInput, PricingLineResult, RawLine, raw_line, net_subtotal,
  header_discount_total, priced_line,
}
use vyaparaflowai.Pricing.Summary.{HsnSummaryLine, build_hsn_summary}

pub data TaxType : Type 0 where
  intra_state inter_state : TaxType

pub record PricingResult : Type 0 where
  pub tax_type : TaxType
  pub lines : List PricingLineResult
  pub hsn_summary : List HsnSummaryLine
  pub gross_total : ℕ
  pub discount_total : ℤ
  pub subtotal : ℕ
  pub cgst_total : ℕ
  pub sgst_total : ℕ
  pub igst_total : ℕ
  pub cess_total : ℕ
  pub tax_total : ℕ
  pub round_off : ℤ
  pub grand_total : ℕ

pub record PricingRequest : Type 0 where
  pub origin_state_code : String
  pub place_of_supply_state_code : String
  pub lines : List PricingLineInput
  pub header_discount_percent : ℕ
  pub header_discount_amount : ℕ

-- `header_share` of each line; the last one absorbs the remainder. `pro_rata total part whole` is
-- `total * (part / whole)` as Decimal rounds the quotient and the product.
unfoldable pub header_shares :
    (pro_rata : ℕ → ℕ → ℕ → ℕ) (discount subtotal : ℕ) (allocated : ℤ) → List RawLine → List ℤ
header_shares pro_rata discount subtotal allocated [] = []
header_shares pro_rata discount subtotal allocated (raw ∷ []) = (pos discount -ℤ allocated) ∷ []
header_shares pro_rata discount subtotal allocated (raw ∷ (next ∷ rest)) =
    let share = pos (if ltb 0 subtotal then pro_rata discount raw.net subtotal else 0) in
    share ∷ header_shares pro_rata discount subtotal (allocated +ℤ share) (next ∷ rest)

unfoldable pub priced_lines :
    (is_intra_state : Bool) → List RawLine → List ℤ → List PricingLineResult
priced_lines is_intra_state (raw ∷ lines) (share ∷ shares) =
    priced_line is_intra_state raw share ∷ priced_lines is_intra_state lines shares
priced_lines is_intra_state _ _ = []

-- The totals over the priced lines, the grand total rounded to the rupee.
unfoldable pub totals : TaxType → List PricingLineResult → PricingResult
totals tax_type lines =
    let subtotal = total (λ (line : PricingLineResult). line.taxable_value) lines in
    let cgst_total = total (λ (line : PricingLineResult). line.cgst_amount) lines in
    let sgst_total = total (λ (line : PricingLineResult). line.sgst_amount) lines in
    let igst_total = total (λ (line : PricingLineResult). line.igst_amount) lines in
    let cess_total = total (λ (line : PricingLineResult). line.cess_amount) lines in
    let tax_total = cgst_total + sgst_total + igst_total + cess_total in
    let grand_total = 100 * half_up (subtotal + tax_total) 100 in
    record {
      tax_type = tax_type;
      lines = lines;
      hsn_summary = build_hsn_summary lines;
      gross_total = total (λ (line : PricingLineResult). line.gross_amount) lines;
      discount_total =
          sum_of
            (λ (line : PricingLineResult). pos line.line_discount +ℤ line.header_discount_share)
            lines;
      subtotal = subtotal;
      cgst_total = cgst_total;
      sgst_total = sgst_total;
      igst_total = igst_total;
      cess_total = cess_total;
      tax_total = tax_total;
      round_off = pos grand_total -ℤ pos (subtotal + tax_total);
      grand_total = grand_total;
    }

abbrev pub tax_type_of : Bool → TaxType
tax_type_of true = intra_state
tax_type_of false = inter_state

-- The lines of an order, priced.
unfoldable pub order_lines : (pro_rata : ℕ → ℕ → ℕ → ℕ) → PricingRequest → List PricingLineResult
order_lines pro_rata request =
    let raw_lines = map raw_line request.lines in
    let discount =
      header_discount_total request.header_discount_percent request.header_discount_amount
        raw_lines in
    priced_lines (str_eq request.origin_state_code request.place_of_supply_state_code) raw_lines
      (header_shares pro_rata discount (net_subtotal raw_lines) (pos 0) raw_lines)

unfoldable pub price_order : (pro_rata : ℕ → ℕ → ℕ → ℕ) → PricingRequest → Result PricingResult
price_order pro_rata request =
    raise_if (is_empty request.lines) value_error
    >> ok (
        totals (tax_type_of (str_eq request.origin_state_code request.place_of_supply_state_code))
          (order_lines pro_rata request))
