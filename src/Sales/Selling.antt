-- ===== src/Sales/Selling.antt =====
-- What a counter sale leaves: the customer's credit, the stock and the invoice.
use vyaparaflowai.Prelude.{
  ℕ, ◌+◌, ◌≡◌, refl, sym, ◌∙◌, subst, false, List, map, arith, is_empty, total,
}
use vyaparaflowai.Prelude.Int.{pos, ◌+ℤ◌, ◌≤ℤ◌, ltb_ℤ}
use vyaparaflowai.Errors.{
  ok, conflict, validation, value_error, raise_if, >>=-eq-ok, ok-inj, raise_if-passed,
}
use vyaparaflowai.Inventory.{InventoryLine}
use vyaparaflowai.Sales.Reserving.{stock_line}
use vyaparaflowai.Inventory.Outflow.{HasIssued}
use vyaparaflowai.Pricing.{PricingResult, PricingRequest, price_order}
use vyaparaflowai.Pricing.Balance.{IsBalanced, price_order-IsBalanced}
use vyaparaflowai.Sales.Tables.{Customer, SalesDb}
use vyaparaflowai.Sales.Requests.{
  SalesOrderLineInput, CreateCounterSaleRequest, CounterSaleLineResult, CreateCounterSaleResult,
}
use vyaparaflowai.Sales.Checks.{
  validate_customer, validate_warehouse, validate_organization, validate_products, pricing_lines,
  price_lines, outstanding, check_credit, PricedRequest, validate_and_price,
}

-- What the common checks have found.
pub record IsPriced (org_id customer_id : ℕ) (lines : List SalesOrderLineInput) (db : SalesDb)
    (found : PricedRequest) : Type 0 where
  pub customer_found : validate_customer org_id customer_id db ≡ ok found.customer
  pub within_credit :
      outstanding found.customer.id db.customer_invoices +ℤ pos found.priced.grand_total
      ≤ℤ pos found.customer.credit_limit
  pub request : PricingRequest
  pub of_request : request.lines ≡ pricing_lines org_id db.products lines
  pub balanced : IsBalanced request found.priced

price_order-priced :
    (pro_rata : ℕ → ℕ → ℕ → ℕ) (request : PricingRequest) (r : PricingResult)
    → price_order pro_rata request ≡ ok r
    → IsBalanced request r
unfolding price_order
price_order-priced pro_rata request r h =
    let (_, passed, _) = >>=-eq-ok (raise_if (is_empty request.lines) value_error) _ h in
    let (_, e, balanced) =
      price_order-IsBalanced pro_rata request
        (raise_if-passed (is_empty request.lines) value_error passed) in
    subst (IsBalanced request) (ok-inj (sym e ∙ h)) balanced

pub validate_and_price-IsPriced :
    (pro_rata : ℕ → ℕ → ℕ → ℕ) (org_id customer_id warehouse_id : ℕ)
    (lines : List SalesOrderLineInput) (percent amount : ℕ) (db : SalesDb) (found : PricedRequest)
    → validate_and_price pro_rata org_id customer_id warehouse_id lines percent amount db ≡ ok found
    → IsPriced org_id customer_id lines db found
unfolding validate_and_price price_lines check_credit
validate_and_price-IsPriced pro_rata org_id customer_id warehouse_id lines percent amount db found
      h =
    let (_, _, h1) = >>=-eq-ok (raise_if (is_empty lines) validation) _ h in
    let (customer, c, h2) = >>=-eq-ok (validate_customer org_id customer_id db) _ h1 in
    let (warehouse, _, h3) = >>=-eq-ok (validate_warehouse org_id warehouse_id db) _ h2 in
    let (organization, _, h4) = >>=-eq-ok (validate_organization org_id db) _ h3 in
    let (_, _, h5) = >>=-eq-ok (validate_products org_id lines db.products) _ h4 in
    let (priced, p, h6) =
      >>=-eq-ok
        (price_lines pro_rata organization customer (pricing_lines org_id db.products lines) percent
          amount)
        _ h5 in
    let (_, credit, h7) =
      >>=-eq-ok (check_credit customer priced.grand_total db.customer_invoices) _ h6 in
    subst (IsPriced org_id customer_id lines db) (ok-inj h7) (record {
      customer_found = c;
      within_credit =
          let passed =
            raise_if-passed
              (ltb_ℤ (pos customer.credit_limit)
                (outstanding customer.id db.customer_invoices +ℤ pos priced.grand_total))
              conflict credit in
          ground (arith, passed);
      request = _;
      of_request = refl;
      balanced = price_order-priced pro_rata _ priced p;
    })

-- The stock that a line of the answer takes.
abbrev pub counter_stock_line : (warehouse_id : ℕ) → CounterSaleLineResult → InventoryLine
counter_stock_line warehouse_id line = stock_line line.product_id warehouse_id line.quantity

-- A counter sale to a customer of the organization.
pub record IsSold (org_id : ℕ) (request : CreateCounterSaleRequest) (db : SalesDb)
    (result : CreateCounterSaleResult) (db' : SalesDb) : Type 0 where
  pub customer : Customer
  pub customer_found : validate_customer org_id request.customer_id db ≡ ok customer
  pub within_credit : outstanding customer.id db'.customer_invoices ≤ℤ pos customer.credit_limit
  pub issued :
      HasIssued false
        (map (counter_stock_line request.warehouse_id) result.lines)
        db.inventory
        db'.inventory
  pub adds_up :
      total (λ (l : CounterSaleLineResult). l.line_total) result.lines
      ≡ result.subtotal + result.tax_total
