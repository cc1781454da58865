-- ===== src/Pricing/Lines.antt =====
-- One line of an order, priced (the first loop and the body of the second loop of `price_order`,
-- backend/app/services/pricing.py). Quantities are whole thousandths, prices and amounts whole paise,
-- percentages hundredths of a percent. Amounts before they are rounded are exact: up to the discount
-- of the line they are in ten-millionths of a paisa (`units`), then in parts of 10 ^ -11 paise.
use vyaparaflowai.Prelude.{ℕ, ◌+◌, ◌-◌, ◌*◌, ◌/◌, Bool, List, String, if◌then◌else◌, min, total}
use vyaparaflowai.Prelude.Int.{ℤ, pos, negsuc, ◌-ℤ◌}

-- `ROUND_HALF_UP` of a quotient.
unfoldable pub half_up : (part whole : ℕ) → ℕ
half_up part whole = (2 * part + whole) / (2 * whole)

-- `_round_money`, of parts of 10 ^ -11 paise; a tie goes away from zero.
unfoldable pub round_money : ℤ → ℤ
round_money (pos n) = pos (half_up n 100_000_000_000)
round_money (negsuc n) = pos 0 -ℤ pos (half_up (n + 1) 100_000_000_000)

pub record PricingLineInput : Type 0 where
  pub product_id : ℕ
  pub hsn_code : String
  pub uom : String
  pub quantity : ℕ
  pub unit_price : ℕ
  pub gst_rate : ℕ
  pub cess_rate : ℕ
  pub discount_percent : ℕ
  pub discount_amount : ℕ

pub record PricingLineResult : Type 0 where
  pub product_id : ℕ
  pub hsn_code : String
  pub uom : String
  pub quantity : ℕ
  pub unit_price : ℕ
  pub gross_amount : ℕ
  pub line_discount : ℕ
  pub header_discount_share : ℤ
  pub taxable_value : ℕ
  pub gst_rate : ℕ
  pub cgst_amount : ℕ
  pub sgst_amount : ℕ
  pub igst_amount : ℕ
  pub cess_rate : ℕ
  pub cess_amount : ℕ
  pub tax_amount : ℕ
  pub line_total : ℕ

-- The entries of `raw_lines`, in ten-millionths of a paisa.
pub record RawLine : Type 0 where
  pub line : PricingLineInput
  pub gross : ℕ
  pub discount : ℕ
  pub net : ℕ

unfoldable pub gross_of : PricingLineInput → ℕ
gross_of line = line.quantity * line.unit_price * 10_000

unfoldable pub discount_of : PricingLineInput → ℕ
discount_of line =
    min
      (line.quantity * line.unit_price * line.discount_percent + line.discount_amount * 10_000_000)
      (gross_of line)

unfoldable pub raw_line : PricingLineInput → RawLine
raw_line line = record {
  line = line;
  gross = gross_of line;
  discount = discount_of line;
  net = gross_of line - discount_of line;
}

unfoldable pub net_subtotal : List RawLine → ℕ
net_subtotal lines = total (λ (raw : RawLine). raw.net) lines

-- In parts of 10 ^ -11 paise, as is all that follows.
unfoldable pub header_discount_total : (percent amount : ℕ) → List RawLine → ℕ
header_discount_total percent amount lines =
    min (net_subtotal lines * percent + amount * 100_000_000_000) (net_subtotal lines * 10_000)

-- `max(value, ZERO)`
abbrev pub at_least_zero : ℤ → ℕ
at_least_zero (pos n) = n
at_least_zero (negsuc n) = 0

unfoldable pub taxable_of : RawLine → ℤ → ℕ
taxable_of raw share = at_least_zero (pos (raw.net * 10_000) -ℤ share)

-- Half the rate, rounded by itself, and the whole rate.
unfoldable pub half_tax : (taxable rate : ℕ) → ℕ
half_tax taxable rate = half_up (taxable * rate) 2_000_000_000_000_000

unfoldable pub whole_tax : (taxable rate : ℕ) → ℕ
whole_tax taxable rate = half_up (taxable * rate) 1_000_000_000_000_000

-- The body of the second loop.
unfoldable pub priced_line :
    (is_intra_state : Bool) → RawLine → (header_share : ℤ) → PricingLineResult
priced_line is_intra_state raw header_share =
    let line = raw.line in
    let taxable = taxable_of raw header_share in
    let cgst = if is_intra_state then half_tax taxable line.gst_rate else 0 in
    let sgst = if is_intra_state then half_tax taxable line.gst_rate else 0 in
    let igst = if is_intra_state then 0 else whole_tax taxable line.gst_rate in
    let cess = whole_tax taxable line.cess_rate in
    let taxable_value = half_up taxable 100_000_000_000 in
    record {
      product_id = line.product_id;
      hsn_code = line.hsn_code;
      uom = line.uom;
      quantity = line.quantity;
      unit_price = line.unit_price;
      gross_amount = half_up raw.gross 10_000_000;
      line_discount = half_up raw.discount 10_000_000;
      header_discount_share = round_money header_share;
      taxable_value = taxable_value;
      gst_rate = line.gst_rate;
      cgst_amount = cgst;
      sgst_amount = sgst;
      igst_amount = igst;
      cess_rate = line.cess_rate;
      cess_amount = cess;
      tax_amount = cgst + sgst + igst + cess;
      line_total = taxable_value + (cgst + sgst + igst + cess);
    }
