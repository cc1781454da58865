-- ===== src/Sales/Placed.antt =====
-- What an order leaves when it is placed (`create_sales_order`).
use vyaparaflowai.Prelude.{
  ℕ, ◌≡◌, refl, sym, ap, ◌∙◌, subst, Bool, true, false, not, Option, some, List, map, any, all,
  String,
}
use vyaparaflowai.Prelude.Int.{pos, ◌+ℤ◌}
use vyaparaflowai.Prelude.Sorting.{sorted}
use vyaparaflowai.Errors.{ok, integrity_error, raise_if, >>=-eq-ok, ok-inj}
use vyaparaflowai.Inventory.{InventoryDb}
use vyaparaflowai.Inventory.Levels.{row_at, IsValid}
use vyaparaflowai.Numbering.{DocumentNumber, DocumentSequence, next_document_number}
use vyaparaflowai.Pricing.{PricingLineResult}
use vyaparaflowai.Sales.Tables.{check_order_item, SalesDb}
use vyaparaflowai.Sales.Requests.{CreateSalesOrderRequest, CreateSalesOrderResult}
use vyaparaflowai.Sales.Checks.{PricedRequest, validate_and_price}
use vyaparaflowai.Sales.Reserving.{line_result, is_short}
use vyaparaflowai.Sales.Ordering.{
  ShortageDetected, order_items, line_before, reserve_order, line_results, has_order_number,
  placed_order, create_sales_order,
}
use vyaparaflowai.Sales.Orders.{HasReservedEach, reserve_each-HasReservedEach}
use vyaparaflowai.Sales.Statuses.{finalize_status-IsStatusOf}
use vyaparaflowai.Sales.Answered.{
  IsPlaced, Answers, served-IsFilled, taken_at-reserved_at, reported_length, All-unit,
}

abbrev whole_line : PricingLineResult → Option ℕ
whole_line line = some line.quantity

line_result-Answers :
    Answers (λ (l : PricingLineResult). l.product_id) whole_line (λ l. Unit) line_result
unfolding line_result
line_result-Answers = record {
  product = λ l n. refl;
  within = λ l n good h. h;
  full = λ l n good h. h;
  short = λ l n. refl;
}

line_result-quantity : (l : PricingLineResult) (n : ℕ) → (line_result l n).reserved_qty ≡ n
unfolding line_result
line_result-quantity l n = refl

pub reserve_order-HasReservedEach :
    (is_quote : Bool) (warehouse_id order_id : ℕ) (lines : List PricingLineResult)
    (db : InventoryDb) (taken : List (PricingLineResult × ℕ) × InventoryDb)
    → IsValid db.items
    → is_quote ≡ false
    → reserve_order is_quote warehouse_id order_id lines db ≡ ok taken
    → HasReservedEach
        (λ (l : PricingLineResult). l.product_id)
        whole_line
        warehouse_id
        (sorted line_before lines)
        db
        taken.0
        taken.1
unfolding reserve_order
reserve_order-HasReservedEach true warehouse_id order_id lines db taken v no_quote h = cc
reserve_order-HasReservedEach false warehouse_id order_id lines db taken v no_quote h =
    let product = λ (l : PricingLineResult). l.product_id in
    let (r, e, each) =
      reserve_each-HasReservedEach product whole_line warehouse_id order_id
        (sorted line_before lines) db v in
    subst
      (λ (x : List (PricingLineResult × ℕ) × InventoryDb).
        HasReservedEach product whole_line warehouse_id (sorted line_before lines) db x.0 x.1)
      (ok-inj (sym e ∙ h)) each

placed_order-IsPlaced :
    (dumps : ShortageDetected → String) (org_id : ℕ) (request : CreateSalesOrderRequest)
    (new_id : ℕ → ℕ) (found : PricedRequest) (db : SalesDb)
    (numbered : DocumentNumber × List DocumentSequence) (lines : List PricingLineResult)
    (taken : List (PricingLineResult × ℕ) × InventoryDb)
    → request.is_quote ≡ false
    → HasReservedEach
        (λ (l : PricingLineResult). l.product_id)
        whole_line
        request.warehouse_id
        lines
        db.inventory
        taken.0
        taken.1
    → IsPlaced request.warehouse_id db
        (placed_order dumps org_id request new_id found db numbered taken)
placed_order-IsPlaced dumps org_id request new_id found db numbered lines taken no_quote k =
    let product = λ (l : PricingLineResult). l.product_id in
    let results = line_results taken.0 in
    let filled =
      served-IsFilled product whole_line (λ l. Unit) line_result request.warehouse_id taken.1
        taken.0 line_result-Answers (All-unit (map (λ (t : PricingLineResult × ℕ). t.0) taken.0))
        k.served in
    record {
      valid = k.valid;
      filled = filled;
      reserved_grown = λ p w.
          k.reserved_grown p w
          ∙ ap (λ n. (row_at p w db.inventory.items).reserved +ℤ pos n)
              (taken_at-reserved_at product whole_line line_result request.warehouse_id p w taken.0
                line_result-Answers.product line_result-quantity);
      on_hand_same = k.on_hand_same;
      status = rw no_quote (finalize_status-IsStatusOf request.warehouse_id taken.1 results filled);
      reported = rw no_quote (
          reported_length dumps (new_id 1)
            (record {
              org_id = org_id;
              sales_order_id = new_id 0;
              order_number = numbered.0;
              warehouse_id = request.warehouse_id;
            })
            db.inventory.now db.outbox_events (any is_short results));
    }

-- An order that is placed, not quoted, on a well-formed stock: each line is reserved in full or as far
-- as there was stock of its product in the warehouse, the reservations grow by what the lines say and
-- no stock moves, the status tells whether all, some or none of it is reserved, and one event is
-- written if a line is short, none otherwise.
pub create_sales_order-IsPlaced :
    (dumps : ShortageDetected → String) (pro_rata : ℕ → ℕ → ℕ → ℕ) (org_id : ℕ)
    (request : CreateSalesOrderRequest) (new_id : ℕ → ℕ) (db : SalesDb)
    (r : CreateSalesOrderResult × SalesDb)
    → IsValid db.inventory.items
    → request.is_quote ≡ false
    → create_sales_order dumps pro_rata org_id request new_id db ≡ ok r
    → IsPlaced request.warehouse_id db r
unfolding create_sales_order
create_sales_order-IsPlaced dumps pro_rata org_id request new_id db r v no_quote h =
    let (found, _, h1) =
      >>=-eq-ok
        (validate_and_price pro_rata org_id request.customer_id request.warehouse_id request.lines
          request.header_discount_percent request.header_discount_amount db)
        _ h in
    let (numbered, _, h2) =
      >>=-eq-ok (next_document_number org_id "sales_order" request.order_date db.sequences) _ h1 in
    let (_, _, h3) =
      >>=-eq-ok
        (raise_if (any (has_order_number org_id numbered.0) db.sales_orders) integrity_error) _
        h2 in
    let (taken, t, h4) =
      >>=-eq-ok
        (reserve_order request.is_quote request.warehouse_id (new_id 0) found.priced.lines
          db.inventory)
        _ h3 in
    let (_, _, h5) =
      >>=-eq-ok
        (raise_if (not (all check_order_item (order_items new_id (new_id 0) 2 taken.0)))
          integrity_error)
        _ h4 in
    let k =
      reserve_order-HasReservedEach request.is_quote request.warehouse_id (new_id 0)
        found.priced.lines db.inventory taken v no_quote t in
    subst (IsPlaced request.warehouse_id db) (ok-inj h5) (
      placed_order-IsPlaced dumps org_id request new_id found db numbered
        (sorted line_before found.priced.lines) taken no_quote k)
