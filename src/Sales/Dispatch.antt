-- ===== src/Sales/Dispatch.antt =====
-- The dispatch of reserved stock (`create_delivery` of backend/app/services/sales.py).
use vyaparaflowai.Prelude.{
  ℕ, Bool, true, false, not, ◌&&◌, Option, none, some, List, [], ◌∷◌, ◌++◌, map, ◌==◌, ltb,
  if◌then◌else◌, any, all, find, is_empty, total,
}
use vyaparaflowai.Prelude.Int.{pos, ◌-ℤ◌, ltb_ℤ}
use vyaparaflowai.Errors.{
  Result, ok, err, not_found, conflict, validation, integrity_error, ◌>>=◌, ◌>>◌, raise_if,
}
use vyaparaflowai.Inventory.{InventoryDb, InventoryLine, Reference, issue_stock}
use vyaparaflowai.Numbering.{DocumentNumber, DocumentSequence, is_number, next_document_number}
use vyaparaflowai.Sales.Tables.{
  dispatched, SalesOrder, SalesOrderItem, Delivery, DeliveryItem, SalesDb,
}
use vyaparaflowai.Sales.Requests.{
  DeliveryLineInput, CreateDeliveryRequest, DeliveryLineResult, CreateDeliveryResult,
  is_dispatchable,
}
use vyaparaflowai.Sales.Checks.{validate_warehouse}
use vyaparaflowai.Sales.Reserving.{stock_line}
use vyaparaflowai.Sales.Ordering.{get_sales_order, set_order_status}

-- `so_item_by_id`, over the items of the order; ids are primary keys.
abbrev pub is_item : (order_id item_id : ℕ) → SalesOrderItem → Bool
is_item order_id item_id item = item.id == item_id && item.sales_order_id == order_id

abbrev pub find_item_of : (order_id item_id : ℕ) → List SalesOrderItem → Option SalesOrderItem
find_item_of order_id item_id items = find (is_item order_id item_id) items

abbrev pub is_missing : (order_id : ℕ) → List SalesOrderItem → DeliveryLineInput → Bool
is_missing order_id items line = elim (find_item_of order_id line.sales_order_item_id items) [
  | none ↦ true
  | some item ↦ false
]

abbrev pub delivered_for : ℕ → DeliveryItem → ℕ
delivered_for item_id row = if row.sales_order_item_id == item_id then row.quantity else 0

-- What was delivered of an item, over all the deliveries (`prior_delivered.get(id, ZERO)`).
unfoldable pub delivered_of : ℕ → List DeliveryItem → ℕ
delivered_of item_id rows = total (delivered_for item_id) rows

-- The guard on one line.
unfoldable pub check_line : (order_id : ℕ) → SalesDb → DeliveryLineInput → Result (Unit {0})
check_line order_id db line =
    elim (find_item_of order_id line.sales_order_item_id db.sales_order_items) [
      | none ↦ err not_found
      | some item ↦
          raise_if
            (ltb_ℤ
              (pos item.reserved_qty
                -ℤ pos (delivered_of line.sales_order_item_id db.delivery_items))
              (pos line.quantity))
            conflict
    ]

unfoldable pub check_lines : (order_id : ℕ) → SalesDb → List DeliveryLineInput → Result (Unit {0})
check_lines order_id db [] = ok tt
check_lines order_id db (line ∷ rest) = check_line order_id db line >> check_lines order_id db rest

-- Everything before the first write.
unfoldable pub check_delivery : (org_id : ℕ) → CreateDeliveryRequest → SalesDb → Result SalesOrder
check_delivery org_id request db = do
  raise_if (is_empty request.lines) validation
  order ← get_sales_order org_id request.sales_order_id db
  raise_if (not (is_dispatchable order.status)) conflict
  warehouse ← validate_warehouse org_id request.warehouse_id db
  raise_if (any (is_missing order.id db.sales_order_items) request.lines) not_found
  check_lines order.id db request.lines
  ok order

-- The rows of the lines; a line without an item writes none, but the guards have refused it.
unfoldable pub delivery_rows :
    (order_id delivery_id : ℕ) → List SalesOrderItem → List DeliveryLineInput → List DeliveryItem
delivery_rows order_id delivery_id items [] = []
delivery_rows order_id delivery_id items (line ∷ lines) =
    let rest = delivery_rows order_id delivery_id items lines in
    elim (find_item_of order_id line.sales_order_item_id items) [
      | none ↦ rest
      | some item ↦
          record {
            delivery_id = delivery_id;
            sales_order_item_id = item.id;
            product_id = item.product_id;
            quantity = line.quantity;
          }
          ∷ rest
    ]

abbrev pub delivery_line : DeliveryItem → DeliveryLineResult
delivery_line row = record {
  sales_order_item_id = row.sales_order_item_id;
  product_id = row.product_id;
  quantity = row.quantity;
}

abbrev pub dispatched_line : (warehouse_id : ℕ) → DeliveryItem → InventoryLine
dispatched_line warehouse_id row = stock_line row.product_id warehouse_id row.quantity

-- The CHECK constraint of `delivery_items`.
abbrev pub check_delivery_item : DeliveryItem → Bool
check_delivery_item row = ltb 0 row.quantity

-- The unique key of the deliveries.
abbrev pub has_delivery_number : ℕ → DocumentNumber → Delivery → Bool
has_delivery_number org_id number row = row.org_id == org_id && is_number row.delivery_number number

abbrev pub delivery_reference : (delivery_id : ℕ) → Reference
delivery_reference delivery_id = record {
  ref_type = "delivery";
  ref_id = some delivery_id;
  note = none;
}

-- The answer and the tables after the writes.
abbrev pub delivered_order :
    (org_id : ℕ)
    → CreateDeliveryRequest
    → (new_id : ℕ) → SalesOrder
    → SalesDb
    → DocumentNumber × List DocumentSequence
    → InventoryDb
    → CreateDeliveryResult × SalesDb
delivered_order org_id request new_id order db numbered stock =
    let rows = delivery_rows order.id new_id db.sales_order_items request.lines in
    (
      record {
        delivery_id = new_id;
        delivery_number = numbered.0;
        sales_order_id = order.id;
        sales_order_status = dispatched;
        lines = map delivery_line rows;
      },
      record db {
        inventory = stock;
        sequences = numbered.1;
        sales_orders = set_order_status order.id dispatched db.sales_orders;
        deliveries =
            record {
              id = new_id;
              org_id = org_id;
              sales_order_id = order.id;
              warehouse_id = request.warehouse_id;
              delivery_number = numbered.0;
              dispatched_at = request.dispatched_at;
            }
            ∷ db.deliveries;
        delivery_items = rows ++ db.delivery_items;
      },
    )

-- `new_id` is the UUID of the delivery.
unfoldable pub create_delivery :
    (org_id : ℕ)
    → CreateDeliveryRequest
    → (new_id : ℕ) → SalesDb
    → Result (CreateDeliveryResult × SalesDb)
create_delivery org_id request new_id db = do
  order ← check_delivery org_id request db
  numbered ← next_document_number org_id "delivery" request.dispatched_at db.sequences
  raise_if (any (has_delivery_number org_id numbered.0) db.deliveries) integrity_error
  raise_if
      (not (
        all check_delivery_item (delivery_rows order.id new_id db.sales_order_items request.lines)))
      integrity_error
  moved ←
      issue_stock (delivery_reference new_id) true
        (map (dispatched_line request.warehouse_id)
          (delivery_rows order.id new_id db.sales_order_items request.lines))
        db.inventory
  ok (delivered_order org_id request new_id order db numbered moved.1)
