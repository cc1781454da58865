-- ===== src/Sales/Ordered.antt =====
-- The order that `create_sales_order` writes for a request.
use vyaparaflowai.Prelude.{
  ℕ, ◌+◌, ◌≡◌, refl, sym, ap, ◌∙◌, subst, false, not, List, [], ◌∷◌, ◌++◌, map, any, all, String,
  total, All,
}
use vyaparaflowai.Prelude.Sorting.{sorted, total-sorted}
use vyaparaflowai.Errors.{ok, integrity_error, raise_if, >>=-eq-ok, ok-inj}
use vyaparaflowai.Inventory.Levels.{IsValid}
use vyaparaflowai.Numbering.{next_document_number}
use vyaparaflowai.Pricing.{PricingLineResult}
use vyaparaflowai.Sales.Tables.{SalesOrder, SalesOrderItem, check_order_item, SalesDb}
use vyaparaflowai.Sales.Requests.{
  SalesOrderLineInput, CreateSalesOrderRequest, SalesOrderLineResult, CreateSalesOrderResult,
}
use vyaparaflowai.Sales.Checks.{validate_and_price}
use vyaparaflowai.Sales.Reserving.{line_result}
use vyaparaflowai.Sales.Ordering.{
  ShortageDetected, order_items, line_before, reserve_order, line_results, has_order_number,
  create_sales_order,
}
use vyaparaflowai.Sales.Answered.{IsPlaced}
use vyaparaflowai.Sales.Placed.{reserve_order-HasReservedEach, create_sales_order-IsPlaced}
use vyaparaflowai.Sales.Asked.{input_says, priced_says, validate_and_price-says}

-- The product, the quantity and the price of a line of the answer.
abbrev pub line_says : SalesOrderLineResult → ℕ × ℕ × ℕ
line_says line = (line.product_id, line.quantity, line.unit_price)

-- What a line of the answer and the row of an item have in common.
abbrev pub line_row : SalesOrderLineResult → List ℕ
line_row line =
    line.product_id ∷ line.quantity ∷ line.reserved_qty ∷ line.unit_price ∷ line.gst_rate
    ∷ line.line_subtotal ∷ line.line_tax ∷ line.line_total ∷ []

abbrev pub item_row : SalesOrderItem → List ℕ
item_row item =
    item.product_id ∷ item.quantity ∷ item.reserved_qty ∷ item.unit_price ∷ item.gst_rate
    ∷ item.line_subtotal ∷ item.line_tax ∷ item.line_total ∷ []

-- What an order does that is placed for a request. The lines of the answer are those of the request
-- in some order: every measure of products, quantities and prices has one sum over both.
pub record IsOrdered (org_id : ℕ) (request : CreateSalesOrderRequest) (db : SalesDb)
    (r : CreateSalesOrderResult × SalesDb) : Type 0 where
  pub asked :
      (measure : ℕ × ℕ × ℕ → ℕ)
      → total measure (map line_says r.0.lines) ≡ total measure (map input_says request.lines)
  pub rows : List SalesOrderItem
  pub written : r.1.sales_order_items ≡ rows ++ db.sales_order_items
  pub of_lines : map item_row rows ≡ map line_row r.0.lines
  pub of_order : All (λ (item : SalesOrderItem). item.sales_order_id ≡ r.0.sales_order_id) rows
  pub order : SalesOrder
  pub added : r.1.sales_orders ≡ order ∷ db.sales_orders
  pub order_id : order.id ≡ r.0.sales_order_id
  pub order_parties : (order.org_id ≡ org_id) × (order.customer_id ≡ request.customer_id)
  pub order_number : order.order_number ≡ r.0.order_number
  pub order_date : order.order_date ≡ request.order_date
  pub order_status : order.status ≡ r.0.status
  pub order_total : order.total ≡ r.0.total
  pub placed : IsPlaced request.warehouse_id db r

total-map :
    {A B : Type 0} (measure : B → ℕ) (says : A → B) (xs : List A)
    → total measure (map says xs) ≡ total (λ (x : A). measure (says x)) xs
total-map measure says [] = refl
total-map measure says (x ∷ xs) = ap (λ n. measure (says x) + n) (total-map measure says xs)

line_results-says :
    (taken : List (PricingLineResult × ℕ))
    → map line_says (line_results taken)
      ≡ map priced_says (map (λ (t : PricingLineResult × ℕ). t.0) taken)
unfolding line_result
line_results-says [] = refl
line_results-says (t ∷ taken) = ap (λ rest. priced_says t.0 ∷ rest) (line_results-says taken)

order_items-row :
    (new_id : ℕ → ℕ) (order_id next : ℕ) (taken : List (PricingLineResult × ℕ))
    → map item_row (order_items new_id order_id next taken) ≡ map line_row (line_results taken)
unfolding order_items line_result
order_items-row new_id order_id next [] = refl
order_items-row new_id order_id next (t ∷ taken) =
    ap (λ rest. line_row (line_result t.0 t.1) ∷ rest)
      (order_items-row new_id order_id (next + 1) taken)

order_items-order :
    (new_id : ℕ → ℕ) (order_id next : ℕ) (taken : List (PricingLineResult × ℕ))
    → All
        (λ (item : SalesOrderItem). item.sales_order_id ≡ order_id)
        (order_items new_id order_id next taken)
unfolding order_items
order_items-order new_id order_id next [] = tt
order_items-order new_id order_id next (t ∷ taken) =
    (refl, order_items-order new_id order_id (next + 1) taken)

-- The lines that are served are the priced ones, sorted.
asked-sorted :
    (lines : List PricingLineResult) (taken : List (PricingLineResult × ℕ))
    (request : List SalesOrderLineInput)
    → map (λ (t : PricingLineResult × ℕ). t.0) taken ≡ sorted line_before lines
    → map priced_says lines ≡ map input_says request
    → (measure : ℕ × ℕ × ℕ → ℕ)
    → total measure (map line_says (line_results taken)) ≡ total measure (map input_says request)
asked-sorted lines taken request complete same measure =
    ap (total measure) (line_results-says taken ∙ ap (map priced_says) complete)
    ∙ total-map measure priced_says (sorted line_before lines)
    ∙ total-sorted line_before (λ (l : PricingLineResult). measure (priced_says l)) lines
    ∙ sym (total-map measure priced_says lines)
    ∙ ap (total measure) same

-- An order that is placed, not quoted, on a well-formed stock is written for the customer and the
-- date of the request: its lines are those of the request, in some order, each with its product,
-- quantity and price, and the new item rows say the same as the lines of the answer. Each line is
-- reserved in full or as far as there was stock of its product in the warehouse, the reservations grow
-- by what the lines say and no stock moves, the status tells whether all, some or none of it is
-- reserved, and one event is written if a line is short, none otherwise.
pub create_sales_order-IsOrdered :
    (dumps : ShortageDetected → String) (pro_rata : ℕ → ℕ → ℕ → ℕ) (org_id : ℕ)
    (request : CreateSalesOrderRequest) (new_id : ℕ → ℕ) (db : SalesDb)
    (r : CreateSalesOrderResult × SalesDb)
    → IsValid db.inventory.items
    → request.is_quote ≡ false
    → create_sales_order dumps pro_rata org_id request new_id db ≡ ok r
    → IsOrdered org_id request db r
unfolding create_sales_order
create_sales_order-IsOrdered dumps pro_rata org_id request new_id db r v no_quote h =
    let (found, f, h1) =
      >>=-eq-ok
        (validate_and_price pro_rata org_id request.customer_id request.warehouse_id request.lines
          request.header_discount_percent request.header_discount_amount db)
        _ h in
    let (numbered, _, h2) =
      >>=-eq-ok (next_document_number org_id "sales_order" request.order_date db.sequences) _ h1 in
    let (_, _, h3) =
      >>=-eq-ok
        (raise_if (any (has_order_number org_id numbered.0) db.sales_orders) integrity_error) _
        h2 in
    let (taken, t, h4) =
      >>=-eq-ok
        (reserve_order request.is_quote request.warehouse_id (new_id 0) found.priced.lines
          db.inventory)
        _ h3 in
    let (_, _, h5) =
      >>=-eq-ok
        (raise_if (not (all check_order_item (order_items new_id (new_id 0) 2 taken.0)))
          integrity_error)
        _ h4 in
    let k =
      reserve_order-HasReservedEach request.is_quote request.warehouse_id (new_id 0)
        found.priced.lines db.inventory taken v no_quote t in
    let (customer, same) =
      validate_and_price-says pro_rata org_id request.customer_id request.warehouse_id request.lines
        request.header_discount_percent request.header_discount_amount db found f in
    let placed =
      create_sales_order-IsPlaced dumps pro_rata org_id request new_id db r v no_quote h in
    let e = ok-inj h5 in
    subst (IsOrdered org_id request db) e (record {
      asked = asked-sorted found.priced.lines taken.0 request.lines k.complete same;
      rows = order_items new_id (new_id 0) 2 taken.0;
      written = refl;
      of_lines = order_items-row new_id (new_id 0) 2 taken.0;
      of_order = order_items-order new_id (new_id 0) 2 taken.0;
      order = record {
        id = new_id 0;
        org_id = org_id;
        customer_id = found.customer.id;
        order_number = numbered.0;
        order_date = request.order_date;
        status = _;
        subtotal = found.priced.subtotal;
        tax_total = found.priced.tax_total;
        total = found.priced.grand_total;
        notes = request.notes;
      };
      added = refl;
      order_id = refl;
      order_parties = (refl, customer);
      order_number = refl;
      order_date = refl;
      order_status = refl;
      order_total = refl;
      placed = subst (IsPlaced request.warehouse_id db) (sym e) placed;
    })
