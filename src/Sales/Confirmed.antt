-- ===== src/Sales/Confirmed.antt =====
-- What an order leaves when it is confirmed (`confirm_sales_order`).
use vyaparaflowai.Prelude.{ℕ, ◌≡◌, refl, sym, ap, ◌∙◌, subst, not, List, map, any, all, String}
use vyaparaflowai.Prelude.Int.{pos, ◌+ℤ◌}
use vyaparaflowai.Errors.{ok, integrity_error, conflict, raise_if, >>=-eq-ok, ok-inj}
use vyaparaflowai.Inventory.{InventoryDb}
use vyaparaflowai.Inventory.Levels.{row_at, IsValid}
use vyaparaflowai.Sales.Tables.{SalesOrderItem, check_order_item, SalesDb}
use vyaparaflowai.Sales.Requests.{CreateSalesOrderResult}
use vyaparaflowai.Sales.Checks.{validate_customer, validate_warehouse, check_credit}
use vyaparaflowai.Sales.Reserving.{reserve_each, item_result, is_short}
use vyaparaflowai.Sales.Ordering.{ShortageDetected, get_sales_order}
use vyaparaflowai.Sales.Confirming.{
  items_of, item_results, changed_item, is_draft, whole_quantity, confirm_sales_order,
}
use vyaparaflowai.Sales.Orders.{HasReservedEach, reserve_each-HasReservedEach}
use vyaparaflowai.Sales.Statuses.{finalize_status-IsStatusOf}
use vyaparaflowai.Sales.Answered.{
  IsPlaced, Answers, served-IsFilled, taken_at-reserved_at, reported_length, All-unit,
}

item_result-Answers :
    Answers (λ (i : SalesOrderItem). i.product_id) whole_quantity (λ i. Unit) item_result
unfolding item_result
item_result-Answers = record {
  product = λ i n. refl;
  within = λ i n good h. h;
  full = λ i n good h. h;
  short = λ i n. refl;
}

item_result-quantity : (i : SalesOrderItem) (n : ℕ) → (item_result i n).reserved_qty ≡ n
unfolding item_result
item_result-quantity i n = refl

-- A quote that is confirmed on a well-formed stock is reserved from the warehouse as an order that is
-- placed is: each item in full or as far as there was stock, with the status and the event that say
-- so.
pub confirm_sales_order-IsPlaced :
    (dumps : ShortageDetected → String) (org_id sales_order_id warehouse_id event_id : ℕ)
    (db : SalesDb) (r : CreateSalesOrderResult × SalesDb)
    → IsValid db.inventory.items
    → confirm_sales_order dumps org_id sales_order_id warehouse_id event_id db ≡ ok r
    → IsPlaced warehouse_id db r
unfolding confirm_sales_order
confirm_sales_order-IsPlaced dumps org_id sales_order_id warehouse_id event_id db r v h =
    let (order, _, h1) = >>=-eq-ok (get_sales_order org_id sales_order_id db) _ h in
    let (_, _, h2) = >>=-eq-ok (raise_if (not (is_draft order.status)) conflict) _ h1 in
    let (customer, _, h3) = >>=-eq-ok (validate_customer org_id order.customer_id db) _ h2 in
    let (_, _, h4) = >>=-eq-ok (validate_warehouse org_id warehouse_id db) _ h3 in
    let (_, _, h5) = >>=-eq-ok (check_credit customer order.total db.customer_invoices) _ h4 in
    let product = λ (i : SalesOrderItem). i.product_id in
    let items = items_of order.id db.sales_order_items in
    let (taken, e, k) =
      reserve_each-HasReservedEach product whole_quantity warehouse_id order.id items db.inventory
        v in
    let (taken', t, h6) =
      >>=-eq-ok (reserve_each product whole_quantity warehouse_id order.id items db.inventory) _
        h5 in
    let (_, _, h7) =
      >>=-eq-ok (raise_if (not (all check_order_item (map changed_item taken'.0))) integrity_error)
        _ h6 in
    let k' =
      subst
        (λ (x : List (SalesOrderItem × ℕ) × InventoryDb).
          HasReservedEach product whole_quantity warehouse_id items db.inventory x.0 x.1)
        (ok-inj (sym e ∙ t)) k in
    let results = item_results taken'.0 in
    let filled =
      served-IsFilled product whole_quantity (λ i. Unit) item_result warehouse_id taken'.1 taken'.0
        item_result-Answers (All-unit (map (λ (t : SalesOrderItem × ℕ). t.0) taken'.0)) k'.served in
    subst (IsPlaced warehouse_id db) (ok-inj h7) (record {
      valid = k'.valid;
      filled = filled;
      reserved_grown = λ p w.
          k'.reserved_grown p w
          ∙ ap (λ n. (row_at p w db.inventory.items).reserved +ℤ pos n)
              (taken_at-reserved_at product whole_quantity item_result warehouse_id p w taken'.0
                item_result-Answers.product item_result-quantity);
      on_hand_same = k'.on_hand_same;
      status = finalize_status-IsStatusOf warehouse_id taken'.1 results filled;
      reported =
          reported_length dumps event_id
            (record {
              org_id = org_id;
              sales_order_id = order.id;
              order_number = order.order_number;
              warehouse_id = warehouse_id;
            })
            db.inventory.now db.outbox_events (any is_short results);
    })
