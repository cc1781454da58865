-- ===== src/Sales/Confirming.antt =====
-- The confirmation of a quote and the retried reservation of an order (`confirm_sales_order` and
-- `retry_reservation` of backend/app/services/sales.py).
use vyaparaflowai.Prelude.{
  ℕ, ◌+◌, ◌-◌, Bool, true, false, not, Option, none, some, List, [], ◌∷◌, map, String, ◌==◌, ltb,
  if◌then◌else◌, any, all, filter,
}
use vyaparaflowai.Prelude.Sorting.{sorted}
use vyaparaflowai.Errors.{Result, ok, conflict, integrity_error, ◌>>=◌, ◌>>◌, raise_if}
use vyaparaflowai.Inventory.{InventoryDb}
use vyaparaflowai.Sales.Tables.{
  SalesOrderStatus, draft, confirmed, partially_reserved, SalesOrderItem, check_order_item, SalesDb,
}
use vyaparaflowai.Sales.Requests.{
  SalesOrderLineResult, CreateSalesOrderResult, RetryReservationResult,
}
use vyaparaflowai.Sales.Checks.{validate_customer, validate_warehouse, check_credit}
use vyaparaflowai.Sales.Reserving.{reserve_each, item_result, is_short, finalize_status}
use vyaparaflowai.Sales.Ordering.{
  ShortageDetected, report_shortage, item_before, get_sales_order, set_order_status,
}

abbrev pub is_of_order : ℕ → SalesOrderItem → Bool
is_of_order order_id item = item.sales_order_id == order_id

-- The items of an order in the order of the loops.
unfoldable pub items_of : ℕ → List SalesOrderItem → List SalesOrderItem
items_of order_id items = sorted item_before (filter (is_of_order order_id) items)

unfoldable pub set_reserved_qty :
    (item_id reserved_qty : ℕ) → List SalesOrderItem → List SalesOrderItem
set_reserved_qty item_id reserved_qty [] = []
set_reserved_qty item_id reserved_qty (item ∷ items) =
    (if item.id == item_id then record item { reserved_qty = reserved_qty } else item)
    ∷ set_reserved_qty item_id reserved_qty items

-- `item.reserved_qty = …` for each of the items.
unfoldable pub save_reserved : List (SalesOrderItem × ℕ) → List SalesOrderItem → List SalesOrderItem
save_reserved [] items = items
save_reserved (change ∷ changes) items =
    save_reserved changes (set_reserved_qty change.0.id change.1 items)

-- The row that is written.
abbrev pub changed_item : SalesOrderItem × ℕ → SalesOrderItem
changed_item change = record change.0 { reserved_qty = change.1 }

abbrev pub item_results : List (SalesOrderItem × ℕ) → List SalesOrderLineResult
item_results changes = map (λ change. item_result change.0 change.1) changes

-- The tables after the items and the status of an order are written.
abbrev pub saved_order :
    (order_id : ℕ) → List (SalesOrderItem × ℕ) → InventoryDb → SalesDb → SalesDb
saved_order order_id changes stock db = record db {
  inventory = stock;
  sales_orders = set_order_status order_id (finalize_status (item_results changes)) db.sales_orders;
  sales_order_items = save_reserved changes db.sales_order_items;
}

abbrev pub is_draft : SalesOrderStatus → Bool
is_draft draft = true
is_draft _ = false

-- The quantity of an item, all of it to be reserved.
abbrev pub whole_quantity : SalesOrderItem → Option ℕ
whole_quantity item = some item.quantity

unfoldable pub confirm_sales_order :
    (dumps : ShortageDetected → String) (org_id sales_order_id warehouse_id event_id : ℕ)
    → SalesDb
    → Result (CreateSalesOrderResult × SalesDb)
confirm_sales_order dumps org_id sales_order_id warehouse_id event_id db = do
  order ← get_sales_order org_id sales_order_id db
  raise_if (not (is_draft order.status)) conflict
  customer ← validate_customer org_id order.customer_id db
  warehouse ← validate_warehouse org_id warehouse_id db
  check_credit customer order.total db.customer_invoices
  taken ←
      reserve_each (λ (item : SalesOrderItem). item.product_id) whole_quantity warehouse_id order.id
        (items_of order.id db.sales_order_items) db.inventory
  let lines = item_results taken.0
  let has_shortage = any is_short lines
  let saved = saved_order order.id taken.0 taken.1 db
  raise_if (not (all check_order_item (map changed_item taken.0))) integrity_error
  let detected : ShortageDetected = record {
    org_id = org_id;
    sales_order_id = order.id;
    order_number = order.order_number;
    warehouse_id = warehouse_id;
  }
  ok (
    record {
      sales_order_id = order.id;
      order_number = order.order_number;
      status = finalize_status lines;
      subtotal = order.subtotal;
      tax_total = order.tax_total;
      total = order.total;
      lines = lines;
      has_shortage = has_shortage;
    },
    record saved {
      outbox_events =
          if has_shortage
          then report_shortage dumps event_id detected db.inventory.now db.outbox_events
          else db.outbox_events;
    },
  )

abbrev pub is_retriable : SalesOrderStatus → Bool
is_retriable confirmed = true
is_retriable partially_reserved = true
is_retriable _ = false

-- What an item still lacks, if anything.
abbrev pub shortage_of : SalesOrderItem → Option ℕ
shortage_of item =
    if ltb item.reserved_qty item.quantity then some (item.quantity - item.reserved_qty) else none

-- An item with what is reserved for it now added to what was.
abbrev pub topped_up : SalesOrderItem × ℕ → SalesOrderItem × ℕ
topped_up taken = (taken.0, taken.0.reserved_qty + taken.1)

unfoldable pub retry_reservation :
    (org_id sales_order_id warehouse_id : ℕ) → SalesDb → Result (RetryReservationResult × SalesDb)
retry_reservation org_id sales_order_id warehouse_id db = do
  order ← get_sales_order org_id sales_order_id db
  raise_if (not (is_retriable order.status)) conflict
  warehouse ← validate_warehouse org_id warehouse_id db
  taken ←
      reserve_each (λ (item : SalesOrderItem). item.product_id) shortage_of warehouse_id order.id
        (items_of order.id db.sales_order_items) db.inventory
  let changes = map topped_up taken.0
  let saved = saved_order order.id changes taken.1 db
  raise_if (not (all check_order_item (map changed_item changes))) integrity_error
  ok (
    record {
      sales_order_id = order.id;
      status = finalize_status (item_results changes);
      lines = item_results changes;
    },
    saved,
  )
