-- ===== src/Matching/Lines.antt =====
-- One line of a three-way match (`_evaluate_line` of backend/app/services/matching.py). Quantities are
-- whole thousandths, prices and totals whole paise, amounts thousandths of paise. Tolerances in
-- percent are hundredths of a percent.
use Prim.Native.String.{find as position, len}
use text.Mathlib.Text.{◌==◌ as str_eq}
use vyaparaflowai.Prelude.{
  ℕ, ◌+◌, ◌-◌, ◌*◌, Bool, true, false, not, ◌&&◌, ◌||◌, Option, none, some, List, [], ◌∷◌, ◌++◌,
  String, ◌==◌, leb, if◌then◌else◌,
}
use vyaparaflowai.Prelude.Int.{ℤ, pos, ◌-ℤ◌, abs}

pub data ReasonCode : Type 0 where
  po_line_missing grn_line_missing invoice_line_missing unmatched_invoice_line : ReasonCode
  qty_variance price_variance price_spike amount_variance : ReasonCode
  duplicate_invoice_suspected new_supplier round_number_amount weekend_submission : ReasonCode

-- The word that a reason's text begins with.
abbrev pub name_of : ReasonCode → String
name_of po_line_missing = "PO_LINE_MISSING"
name_of grn_line_missing = "GRN_LINE_MISSING"
name_of invoice_line_missing = "INVOICE_LINE_MISSING"
name_of unmatched_invoice_line = "UNMATCHED_INVOICE_LINE"
name_of qty_variance = "QTY_VARIANCE"
name_of price_variance = "PRICE_VARIANCE"
name_of price_spike = "PRICE_SPIKE"
name_of amount_variance = "AMOUNT_VARIANCE"
name_of duplicate_invoice_suspected = "DUPLICATE_INVOICE_SUSPECTED"
name_of new_supplier = "NEW_SUPPLIER"
name_of round_number_amount = "ROUND_NUMBER_AMOUNT"
name_of weekend_submission = "WEEKEND_SUBMISSION"

-- A text, by its two parts that vary in letters: the name, and the SKU that it speaks of.
pub record Reason : Type 0 where
  pub code : ReasonCode
  pub product_sku : Option String

-- `code.startswith(NAME)`: no name begins with another.
abbrev pub starts : ReasonCode → Reason → Bool
starts code reason = str_eq (name_of reason.code) (name_of code)

-- `NAME in code`: the texts have no other capital letters, so it is the name or stands in the SKU.
abbrev pub contains : String → String → Bool
contains text part = leb (position text part) (len text)

abbrev pub mentions : ReasonCode → Reason → Bool
mentions code reason =
    starts code reason
    || elim reason.product_sku [ none ↦ false | some sku ↦ contains sku (name_of code) ]

pub record MatchTolerances : Type 0 where
  pub qty_variance_pct : ℕ
  pub price_variance_pct : ℕ
  pub amount_variance_abs : ℕ

-- `DEFAULT_TOLERANCES`: two percent, one percent and 100 rupees.
abbrev pub default_tolerances : MatchTolerances
default_tolerances = record {
  qty_variance_pct = 200;
  price_variance_pct = 100;
  amount_variance_abs = 10000000;
}

pub record MatchLineInput : Type 0 where
  pub product_id : ℕ
  pub product_sku : String
  pub po_quantity : Option ℕ
  pub po_unit_price : Option ℕ
  pub grn_accepted_quantity : Option ℕ
  pub invoice_quantity : Option ℕ
  pub invoice_unit_price : Option ℕ
  pub invoice_line_total : Option ℕ

pub record MatchLineResult : Type 0 where
  pub product_id : ℕ
  pub product_sku : String
  pub qty_variance : ℤ
  pub price_variance : ℤ
  pub amount_variance : ℤ
  pub within_tolerance : Bool
  pub reason_codes : List Reason

abbrev pub is_present : Option ℕ → Bool
is_present none = false
is_present (some n) = true

-- `x or ZERO`, and a value that is set to zero when it is missing.
abbrev pub or_zero : Option ℕ → ℕ
or_zero none = 0
or_zero (some n) = n

-- A value that is dropped unless the other is there.
abbrev pub given : Option ℕ → Option ℕ → Option ℕ
given none value = none
given (some n) value = value

-- A percentage, exact: `part / whole` of hundredths of a percent.
pub record Percentage : Type 0 where
  pub part : ℕ
  pub whole : ℕ

-- `_pct_variance`
unfoldable pub pct_variance : (actual expected : ℕ) → Option Percentage
pct_variance actual expected =
    if expected == 0
    then if actual == 0 then none else some (record { part = 10000; whole = 1 })
    else some
        (record { part = 10000 * ((actual - expected) + (expected - actual)); whole = expected })

-- `pct is None or pct <= tolerance`
abbrev pub is_within : ℕ → Option Percentage → Bool
is_within tolerance none = true
is_within tolerance (some pct) = leb pct.part (tolerance * pct.whole)

-- What is invoiced for a line that is not there is nothing.
abbrev pub invoiced_price : MatchLineInput → Option ℕ
invoiced_price line = given line.invoice_quantity line.invoice_unit_price

abbrev pub invoiced_total : MatchLineInput → Option ℕ
invoiced_total line = given line.invoice_quantity line.invoice_line_total

abbrev pub is_on_po : MatchLineInput → Bool
is_on_po line = is_present line.po_quantity && is_present line.po_unit_price

unfoldable pub qty_within : MatchTolerances → MatchLineInput → Bool
qty_within tolerances line =
    is_within tolerances.qty_variance_pct
      (pct_variance (or_zero line.invoice_quantity) (or_zero line.grn_accepted_quantity))

-- The price is compared only if both prices are there.
abbrev pub is_price_within : ℕ → Option ℕ → Option ℕ → Bool
is_price_within tolerance (some actual) (some expected) =
    is_within tolerance (pct_variance actual expected)
is_price_within tolerance _ _ = true

unfoldable pub price_within : MatchTolerances → MatchLineInput → Bool
price_within tolerances line =
    is_price_within tolerances.price_variance_pct (invoiced_price line) line.po_unit_price

-- `_PRICE_SPIKE_MULTIPLIER`
unfoldable pub is_spike : MatchTolerances → MatchLineInput → Bool
is_spike tolerances line =
    not
      (is_price_within (tolerances.price_variance_pct * 3) (invoiced_price line) line.po_unit_price)

abbrev pub price_difference : Option ℕ → Option ℕ → ℤ
price_difference (some actual) (some expected) = pos actual -ℤ pos expected
price_difference _ _ = pos 0

abbrev pub expected_amount : MatchLineInput → ℕ
expected_amount line = or_zero line.grn_accepted_quantity * or_zero line.po_unit_price

abbrev pub actual_amount : MatchLineInput → ℕ
actual_amount line = 1000 * or_zero (invoiced_total line)

abbrev pub amount_difference : MatchLineInput → ℤ
amount_difference line = pos (actual_amount line) -ℤ pos (expected_amount line)

unfoldable pub amount_within : MatchTolerances → MatchLineInput → Bool
amount_within tolerances line = leb (abs (amount_difference line)) tolerances.amount_variance_abs

abbrev pub reason_if : Bool → ReasonCode → String → List Reason
reason_if true code sku = record { code = code; product_sku = some sku } ∷ []
reason_if false code sku = []

-- The reasons, in the order in which they are found.
unfoldable pub line_reasons : MatchTolerances → MatchLineInput → List Reason
line_reasons tolerances line =
    let sku = line.product_sku in
    let price_off = not (price_within tolerances line) in
    reason_if (not (is_on_po line)) po_line_missing sku
    ++ (reason_if (not (is_present line.grn_accepted_quantity)) grn_line_missing sku
        ++ (reason_if (not (is_present line.invoice_quantity)) invoice_line_missing sku
            ++ (reason_if (not (qty_within tolerances line)) qty_variance sku
                ++ (reason_if price_off price_variance sku
                    ++ (reason_if (price_off && is_spike tolerances line) price_spike sku
                        ++ reason_if (not (amount_within tolerances line)) amount_variance sku)))))

abbrev pub structurally_ok : MatchLineInput → Bool
structurally_ok line =
    is_on_po line && is_present line.grn_accepted_quantity && is_present line.invoice_quantity

-- `_evaluate_line`
unfoldable pub evaluate_line : MatchTolerances → MatchLineInput → MatchLineResult
evaluate_line tolerances line = record {
  product_id = line.product_id;
  product_sku = line.product_sku;
  qty_variance = pos (or_zero line.invoice_quantity) -ℤ pos (or_zero line.grn_accepted_quantity);
  price_variance = price_difference (invoiced_price line) line.po_unit_price;
  amount_variance = amount_difference line;
  within_tolerance =
      qty_within tolerances line
      && price_within tolerances line
      && amount_within tolerances line
      && structurally_ok line;
  reason_codes = line_reasons tolerances line;
}
