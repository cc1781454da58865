-- ===== src/Sales/Checks.antt =====
-- The validation, the pricing and the credit check that sales share (`_validate_customer`,
-- `_validate_warehouse`, `_validate_organization`, `_validate_products`, `_price_lines` and
-- `_check_credit` of backend/app/services/sales.py).
use text.Mathlib.Text.{◌==◌ as str_eq}
use vyaparaflowai.Prelude.{
  ℕ, Bool, true, false, not, ◌&&◌, Option, none, some, List, [], ◌∷◌, String, ◌==◌, if◌then◌else◌,
  any, find, is_empty,
}
use vyaparaflowai.Prelude.Int.{ℤ, pos, ◌+ℤ◌, ◌-ℤ◌, ltb_ℤ}
use vyaparaflowai.Prelude.Sums.{sum_of}
use vyaparaflowai.Errors.{Result, ok, err, not_found, conflict, validation, ◌>>=◌, ◌>>◌, raise_if}
use vyaparaflowai.Payments.{InvoiceStatus}
use vyaparaflowai.Pricing.{PricingLineInput, PricingResult, price_order}
use vyaparaflowai.Purchase.{Warehouse, get_owned}
use vyaparaflowai.Sales.Tables.{CustomerInvoice, Customer, Organization, Product, SalesDb}
use vyaparaflowai.Sales.Requests.{SalesOrderLineInput}

unfoldable pub validate_customer : (org_id customer_id : ℕ) → SalesDb → Result Customer
validate_customer org_id customer_id db = do
  customer ←
      get_owned (λ (c : Customer). c.id) (λ (c : Customer). c.org_id) org_id customer_id
        db.customers
  raise_if (not customer.is_active) conflict
  ok customer

unfoldable pub validate_warehouse : (org_id warehouse_id : ℕ) → SalesDb → Result Warehouse
validate_warehouse org_id warehouse_id db =
    get_owned (λ (w : Warehouse). w.id) (λ (w : Warehouse). w.org_id) org_id warehouse_id
      db.warehouses

unfoldable pub validate_organization : (org_id : ℕ) → SalesDb → Result Organization
validate_organization org_id db =
    elim (find (λ (o : Organization). o.id == org_id) db.organizations) [
      | none ↦ err not_found
      | some organization ↦ ok organization
    ]

-- `products_by_id`, over the products of the organization; ids are primary keys.
abbrev pub find_product : (org_id product_id : ℕ) → List Product → Option Product
find_product org_id product_id products =
    find (λ (p : Product). p.id == product_id && p.org_id == org_id) products

abbrev pub is_unknown : (org_id : ℕ) → List Product → SalesOrderLineInput → Bool
is_unknown org_id products line = elim (find_product org_id line.product_id products) [
  | none ↦ true
  | some product ↦ false
]

abbrev pub is_inactive : (org_id : ℕ) → List Product → SalesOrderLineInput → Bool
is_inactive org_id products line = elim (find_product org_id line.product_id products) [
  | none ↦ false
  | some product ↦ not product.is_active
]

unfoldable pub validate_products :
    (org_id : ℕ) → List SalesOrderLineInput → List Product → Result (Unit {0})
validate_products org_id lines products =
    raise_if (any (is_unknown org_id products) lines) not_found
    >> raise_if (any (is_inactive org_id products) lines) conflict

-- A line whose product is not found prices nothing; the validation has refused it.
unfoldable pub pricing_lines :
    (org_id : ℕ) → List Product → List SalesOrderLineInput → List PricingLineInput
pricing_lines org_id products [] = []
pricing_lines org_id products (line ∷ lines) =
    let rest = pricing_lines org_id products lines in
    elim (find_product org_id line.product_id products) [
      | none ↦ rest
      | some product ↦
          record {
            product_id = line.product_id;
            hsn_code = product.hsn_code;
            uom = product.uom;
            quantity = line.quantity;
            unit_price = line.unit_price;
            gst_rate = product.gst_rate;
            cess_rate = 0;
            discount_percent = line.discount_percent;
            discount_amount = line.discount_amount;
          }
          ∷ rest
    ]

-- `text or default`: an empty text is as good as none.
abbrev pub text_or : Option String → String → String
text_or none default = default
text_or (some text) default = if str_eq text "" then default else text

unfoldable pub price_lines :
    (pro_rata : ℕ → ℕ → ℕ → ℕ) (organization : Organization) (customer : Customer)
    (lines : List PricingLineInput) (header_discount_percent header_discount_amount : ℕ)
    → Result PricingResult
price_lines pro_rata organization customer lines header_discount_percent header_discount_amount =
    let origin = text_or organization.state_code "" in
    price_order pro_rata (record {
      origin_state_code = origin;
      place_of_supply_state_code = text_or customer.state_code origin;
      lines = lines;
      header_discount_percent = header_discount_percent;
      header_discount_amount = header_discount_amount;
    })

-- Whether an invoice is still owed.
abbrev pub is_owed : InvoiceStatus → Bool
is_owed InvoiceStatus.paid = false
is_owed InvoiceStatus.void = false
is_owed _ = true

abbrev pub owed_by : ℕ → CustomerInvoice → ℤ
owed_by customer_id invoice =
    if invoice.customer_id == customer_id && is_owed invoice.status
    then pos invoice.total -ℤ pos invoice.amount_paid
    else pos 0

-- What the invoices of a customer leave to be paid.
unfoldable pub outstanding : ℕ → List CustomerInvoice → ℤ
outstanding customer_id invoices = sum_of (owed_by customer_id) invoices

unfoldable pub check_credit :
    (customer : Customer) (order_total : ℕ) → List CustomerInvoice → Result (Unit {0})
check_credit customer order_total invoices =
    raise_if
      (ltb_ℤ (pos customer.credit_limit) (outstanding customer.id invoices +ℤ pos order_total))
      conflict

-- What the validation and the pricing of a request find.
pub record PricedRequest : Type 0 where
  pub customer : Customer
  pub warehouse : Warehouse
  pub priced : PricingResult

-- The part that `create_sales_order` and `create_counter_sale` have in common: everything before
-- the document number.
unfoldable pub validate_and_price :
    (pro_rata : ℕ → ℕ → ℕ → ℕ) (org_id customer_id warehouse_id : ℕ)
    (lines : List SalesOrderLineInput) (header_discount_percent header_discount_amount : ℕ)
    → SalesDb
    → Result PricedRequest
validate_and_price pro_rata org_id customer_id warehouse_id lines percent amount db = do
  raise_if (is_empty lines) validation
  customer ← validate_customer org_id customer_id db
  warehouse ← validate_warehouse org_id warehouse_id db
  organization ← validate_organization org_id db
  validate_products org_id lines db.products
  priced ←
      price_lines pro_rata organization customer (pricing_lines org_id db.products lines) percent
        amount
  check_credit customer priced.grand_total db.customer_invoices
  ok (record { customer = customer; warehouse = warehouse; priced = priced })
