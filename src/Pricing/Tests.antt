-- ===== src/Pricing/Tests.antt =====
-- The theorems on pricing at concrete orders.
use vyaparaflowai.Prelude.{ℕ, ◌*◌, ◌/◌, ◌≡◌, refl, [], ◌∷◌, Pairwise, All}
use vyaparaflowai.Errors.{ok}
use vyaparaflowai.Pricing.Lines.{PricingLineInput}
use vyaparaflowai.Pricing.Summary.{build_hsn_summary}
use vyaparaflowai.Pricing.Orders.{PricingRequest, PricingResult, order_lines, price_order}
use vyaparaflowai.Pricing.Groups.{DiffersGroup, IsSummed, columns, build_hsn_summary-IsSummed}
use vyaparaflowai.Pricing.Balance.{IsBalanced, price_order-IsBalanced}

-- A division that rounds down.
abbrev floor_share : ℕ → ℕ → ℕ → ℕ
floor_share discount part whole = discount * part / whole

abbrev line_of : (product_id quantity unit_price discount_percent : ℕ) → PricingLineInput
line_of product_id quantity unit_price discount_percent = record {
  product_id = product_id;
  hsn_code = "1001";
  uom = "kg";
  quantity = quantity;
  unit_price = unit_price;
  gst_rate = 1_800;
  cess_rate = 100;
  discount_percent = discount_percent;
  discount_amount = 0;
}

-- Three lines, two of them of one product, with a header discount of 2.50 %.
abbrev order : PricingRequest
order = record {
  origin_state_code = "27";
  place_of_supply_state_code = "27";
  lines = line_of 1 1_500 9_999 0 ∷ line_of 2 3_333 101 1_000 ∷ line_of 1 250 9_999 0 ∷ [];
  header_discount_percent = 250;
  header_discount_amount = 0;
}

price_order-IsBalanced_example :
    (r : PricingResult) × (price_order floor_share order ≡ ok r) × IsBalanced order r
price_order-IsBalanced_example = price_order-IsBalanced floor_share order refl

build_hsn_summary-IsSummed_example :
    Pairwise DiffersGroup (build_hsn_summary (order_lines floor_share order))
    × All
        (IsSummed
          (build_hsn_summary (order_lines floor_share order))
          (order_lines floor_share order))
        columns
build_hsn_summary-IsSummed_example = build_hsn_summary-IsSummed (order_lines floor_share order)
