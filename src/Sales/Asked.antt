-- ===== src/Sales/Asked.antt =====
-- The lines of a request, as `validate_and_price` prices them.
use vyaparaflowai.Prelude.{
  ℕ, ◌≡◌, refl, sym, ap, ◌∙◌, Bool, true, false, not, List, [], ◌∷◌, map, any, is_empty, inl, inr,
  Option-cases,
}
use vyaparaflowai.Prelude.Int.{ℤ, pos}
use vyaparaflowai.Errors.{
  ok, validation, value_error, not_found, conflict, raise_if, >>=-eq-ok, ok-inj, raise_if-passed,
}
use vyaparaflowai.Purchase.{get_owned}
use vyaparaflowai.Purchase.Lookup.{get_owned-In}
use vyaparaflowai.Pricing.{
  raw_line, PricingLineInput, PricingLineResult, PricingResult, PricingRequest, priced_line,
  header_shares, priced_lines, totals, order_lines, price_order,
}
use vyaparaflowai.Sales.Tables.{Product, Customer, SalesDb}
use vyaparaflowai.Sales.Requests.{SalesOrderLineInput}
use vyaparaflowai.Sales.Checks.{
  find_product, is_unknown, validate_customer, validate_warehouse, validate_organization,
  validate_products, pricing_lines, price_lines, check_credit, PricedRequest, validate_and_price,
}

-- The product, the quantity and the price of a line: of the request, of what is priced, and of the
-- priced line.
abbrev pub input_says : SalesOrderLineInput → ℕ × ℕ × ℕ
input_says line = (line.product_id, line.quantity, line.unit_price)

abbrev pricing_says : PricingLineInput → ℕ × ℕ × ℕ
pricing_says line = (line.product_id, line.quantity, line.unit_price)

abbrev pub priced_says : PricingLineResult → ℕ × ℕ × ℕ
priced_says line = (line.product_id, line.quantity, line.unit_price)

pricing_lines-says :
    (org_id : ℕ) (products : List Product) (lines : List SalesOrderLineInput)
    → any (is_unknown org_id products) lines ≡ false
    → map pricing_says (pricing_lines org_id products lines) ≡ map input_says lines
unfolding pricing_lines
pricing_lines-says org_id products [] h = refl
pricing_lines-says org_id products (line ∷ lines) h =
    elim (Option-cases (find_product org_id line.product_id products)) [
      | inl e ↦ let clash : true ≡ false = rw (any, is_unknown, e) at h in cc
      | inr (product, e) ↦
          rw (pricing_lines, e)
            (ap (λ rest. input_says line ∷ rest)
              (pricing_lines-says org_id products lines (rw (any, is_unknown, e) at h)))
    ]

module _ (pro_rata : ℕ → ℕ → ℕ → ℕ) where
  priced_lines-says :
      (intra : Bool) (discount subtotal : ℕ) (lines : List PricingLineInput) (allocated : ℤ)
      → map priced_says (
          priced_lines intra
            (map raw_line lines)
            (header_shares pro_rata discount subtotal allocated (map raw_line lines)))
        ≡ map pricing_says lines
  unfolding priced_lines header_shares priced_line raw_line
  priced_lines-says intra discount subtotal [] allocated = refl
  priced_lines-says intra discount subtotal (line ∷ []) allocated = refl
  priced_lines-says intra discount subtotal (line ∷ (next ∷ rest)) allocated =
      ap (λ more. pricing_says line ∷ more)
        (priced_lines-says intra discount subtotal (next ∷ rest) _)

  price_order-says :
      (request : PricingRequest) (result : PricingResult)
      → price_order pro_rata request ≡ ok result
      → map priced_says result.lines ≡ map pricing_says request.lines
  unfolding price_order totals order_lines
  price_order-says request result h =
      let (_, _, h1) = >>=-eq-ok (raise_if (is_empty request.lines) value_error) _ h in
      ap (λ (r : PricingResult). map priced_says r.lines) (sym (ok-inj h1))
      ∙ priced_lines-says _ _ _ request.lines (pos 0)

  -- What is priced for a request that passes: its customer's, and one line for each of its lines.
  pub validate_and_price-says :
      (org_id customer_id warehouse_id : ℕ) (lines : List SalesOrderLineInput) (percent amount : ℕ)
      (db : SalesDb) (found : PricedRequest)
      → validate_and_price pro_rata org_id customer_id warehouse_id lines percent amount db
        ≡ ok found
      → (found.customer.id ≡ customer_id)
        × (map priced_says found.priced.lines ≡ map input_says lines)
  unfolding validate_and_price validate_customer validate_products price_lines
  validate_and_price-says org_id customer_id warehouse_id lines percent amount db found h =
      let (_, _, h1) = >>=-eq-ok (raise_if (is_empty lines) validation) _ h in
      let (customer, c, h2) = >>=-eq-ok (validate_customer org_id customer_id db) _ h1 in
      let (_, _, h3) = >>=-eq-ok (validate_warehouse org_id warehouse_id db) _ h2 in
      let (organization, _, h4) = >>=-eq-ok (validate_organization org_id db) _ h3 in
      let (_, p, h5) = >>=-eq-ok (validate_products org_id lines db.products) _ h4 in
      let (priced, s, h6) =
        >>=-eq-ok
          (price_lines pro_rata organization customer (pricing_lines org_id db.products lines)
            percent amount)
          _ h5 in
      let (_, _, h7) =
        >>=-eq-ok (check_credit customer priced.grand_total db.customer_invoices) _ h6 in
      let (owned, g, active) =
        >>=-eq-ok
          (get_owned (λ (c : Customer). c.id) (λ (c : Customer). c.org_id) org_id customer_id
            db.customers)
          _ c in
      let (_, _, same) = >>=-eq-ok (raise_if (not owned.is_active) conflict) _ active in
      let (_, key, _) = get_owned-In _ _ org_id customer_id db.customers owned g in
      let (_, known, _) =
        >>=-eq-ok (raise_if (any (is_unknown org_id db.products) lines) not_found) _ p in
      (
        ap (λ (f : PricedRequest). f.customer.id) (sym (ok-inj h7))
            ∙ (ap (λ (x : Customer). x.id) (sym (ok-inj same)) ∙ key),
        ap (λ (f : PricedRequest). map priced_says f.priced.lines) (sym (ok-inj h7))
            ∙ (price_order-says _ priced s
                ∙ pricing_lines-says org_id db.products lines
                    (raise_if-passed (any (is_unknown org_id db.products) lines) not_found known)),
      )
