-- ===== src/Pricing/Summary.antt =====
-- The HSN-wise summary (`_build_hsn_summary` of backend/app/services/pricing.py).
use text.Mathlib.Text.{◌==◌ as str_eq}
use vyaparaflowai.Prelude.{ℕ, ◌+◌, Bool, ◌&&◌, List, [], ◌∷◌, String, ◌==◌, if◌then◌else◌}
use vyaparaflowai.Pricing.Lines.{PricingLineResult}

pub record HsnSummaryLine : Type 0 where
  pub hsn_code : String
  pub uom : String
  pub gst_rate : ℕ
  pub total_quantity : ℕ
  pub taxable_value : ℕ
  pub cgst_amount : ℕ
  pub sgst_amount : ℕ
  pub igst_amount : ℕ
  pub cess_amount : ℕ
  pub total_amount : ℕ

-- The key of a group.
abbrev pub is_group : String → ℕ → PricingLineResult → Bool
is_group hsn_code gst_rate line = str_eq line.hsn_code hsn_code && line.gst_rate == gst_rate

abbrev pub new_group : PricingLineResult → HsnSummaryLine
new_group line = record {
  hsn_code = line.hsn_code;
  uom = line.uom;
  gst_rate = line.gst_rate;
  total_quantity = 0;
  taxable_value = 0;
  cgst_amount = 0;
  sgst_amount = 0;
  igst_amount = 0;
  cess_amount = 0;
  total_amount = 0;
}

unfoldable pub add_to_group : PricingLineResult → HsnSummaryLine → HsnSummaryLine
add_to_group line group = record group {
  total_quantity = group.total_quantity + line.quantity;
  taxable_value = group.taxable_value + line.taxable_value;
  cgst_amount = group.cgst_amount + line.cgst_amount;
  sgst_amount = group.sgst_amount + line.sgst_amount;
  igst_amount = group.igst_amount + line.igst_amount;
  cess_amount = group.cess_amount + line.cess_amount;
  total_amount = group.total_amount + line.line_total;
}

-- The groups in the order in which they are opened (`groups` and `order`).
unfoldable pub add_line : PricingLineResult → List HsnSummaryLine → List HsnSummaryLine
add_line line [] = add_to_group line (new_group line) ∷ []
add_line line (group ∷ groups) =
    let rest = add_line line groups in
    if is_group group.hsn_code group.gst_rate line
    then add_to_group line group ∷ groups
    else group ∷ rest

unfoldable pub add_lines : List HsnSummaryLine → List PricingLineResult → List HsnSummaryLine
add_lines groups [] = groups
add_lines groups (line ∷ lines) = add_lines (add_line line groups) lines

unfoldable pub build_hsn_summary : List PricingLineResult → List HsnSummaryLine
build_hsn_summary lines = add_lines [] lines
