-- ===== src/Sales/Ordering.antt =====
-- Orders and quotes (`create_sales_order` of backend/app/services/sales.py). `dumps` is the JSON text
-- of an event's payload, `new_id` gives the UUIDs of the new rows: 0 for the order, 1 for the event,
-- and so on for the items.
use vyaparaflowai.Prelude.{
  ℕ, ◌+◌, Bool, true, false, not, ◌&&◌, some, List, [], ◌∷◌, ◌++◌, map, String, ◌==◌, leb,
  if◌then◌else◌, any, all,
}
use vyaparaflowai.Prelude.Sorting.{sorted}
use vyaparaflowai.Errors.{Result, ok, integrity_error, ◌>>=◌, ◌>>◌, raise_if}
use vyaparaflowai.Inventory.{InventoryDb}
use vyaparaflowai.Numbering.{DocumentNumber, DocumentSequence, is_number, next_document_number}
use vyaparaflowai.Outbox.{OutboxEvent, write_event}
use vyaparaflowai.Pricing.{PricingLineResult}
use vyaparaflowai.Purchase.{get_owned}
use vyaparaflowai.Sales.Tables.{
  SalesOrderStatus, draft, SalesOrder, SalesOrderItem, check_order_item, SalesDb,
}
use vyaparaflowai.Sales.Requests.{
  CreateSalesOrderRequest, SalesOrderLineResult, CreateSalesOrderResult,
}
use vyaparaflowai.Sales.Checks.{PricedRequest, validate_and_price}
use vyaparaflowai.Sales.Reserving.{reserve_each, line_result, is_short, finalize_status}

-- The payload of `shortage.detected`.
pub record ShortageDetected : Type 0 where
  pub org_id : ℕ
  pub sales_order_id : ℕ
  pub order_number : DocumentNumber
  pub warehouse_id : ℕ

unfoldable pub report_shortage :
    (dumps : ShortageDetected → String) (event_id : ℕ)
    → ShortageDetected
    → (clock : ℕ) → List OutboxEvent
    → List OutboxEvent
report_shortage dumps event_id detected clock events =
    (write_event "sales_order" detected.sales_order_id "shortage.detected" (dumps detected) event_id
      clock events).1

-- The row of a priced line, and those of all of them.
abbrev pub order_item : (id order_id : ℕ) → PricingLineResult → (reserved_qty : ℕ) → SalesOrderItem
order_item id order_id line reserved_qty = record {
  id = id;
  sales_order_id = order_id;
  product_id = line.product_id;
  quantity = line.quantity;
  reserved_qty = reserved_qty;
  unit_price = line.unit_price;
  gst_rate = line.gst_rate;
  line_subtotal = line.taxable_value;
  line_tax = line.tax_amount;
  line_total = line.line_total;
}

unfoldable pub order_items :
    (new_id : ℕ → ℕ) (order_id next : ℕ) → List (PricingLineResult × ℕ) → List SalesOrderItem
order_items new_id order_id next [] = []
order_items new_id order_id next (line ∷ lines) =
    order_item (new_id next) order_id line.0 line.1 ∷ order_items new_id order_id (next + 1) lines

abbrev pub line_before : PricingLineResult → PricingLineResult → Bool
line_before a b = leb a.product_id b.product_id

abbrev pub item_before : SalesOrderItem → SalesOrderItem → Bool
item_before a b = leb a.product_id b.product_id

-- A quote reserves nothing.
unfoldable pub reserve_order :
    (is_quote : Bool) (warehouse_id order_id : ℕ)
    → List PricingLineResult
    → InventoryDb
    → Result (List (PricingLineResult × ℕ) × InventoryDb)
reserve_order true warehouse_id order_id lines db = ok (map (λ line. (line, 0)) lines, db)
reserve_order false warehouse_id order_id lines db =
    reserve_each (λ (line : PricingLineResult). line.product_id)
      (λ (line : PricingLineResult). some line.quantity) warehouse_id order_id
      (sorted line_before lines) db

abbrev pub line_results : List (PricingLineResult × ℕ) → List SalesOrderLineResult
line_results lines = map (λ line. line_result line.0 line.1) lines

-- The unique key of the orders.
abbrev pub has_order_number : ℕ → DocumentNumber → SalesOrder → Bool
has_order_number org_id number row = row.org_id == org_id && is_number row.order_number number

abbrev pub get_sales_order : (org_id id : ℕ) → SalesDb → Result SalesOrder
get_sales_order org_id id db =
    get_owned (λ (o : SalesOrder). o.id) (λ (o : SalesOrder). o.org_id) org_id id db.sales_orders

unfoldable pub set_order_status : ℕ → SalesOrderStatus → List SalesOrder → List SalesOrder
set_order_status order_id status [] = []
set_order_status order_id status (order ∷ orders) =
    (if order.id == order_id then record order { status = status } else order)
    ∷ set_order_status order_id status orders

module _ (dumps : ShortageDetected → String) where
  -- The answer and the tables after the writes.
  abbrev pub placed_order :
      (org_id : ℕ)
      → CreateSalesOrderRequest
      → (new_id : ℕ → ℕ) → PricedRequest
      → SalesDb
      → DocumentNumber × List DocumentSequence
      → List (PricingLineResult × ℕ) × InventoryDb
      → CreateSalesOrderResult × SalesDb
  placed_order org_id request new_id found db numbered taken =
      let order_id = new_id 0 in
      let lines = line_results taken.0 in
      let status = if request.is_quote then draft else finalize_status lines in
      let has_shortage = any is_short lines in
      let detected : ShortageDetected = record {
        org_id = org_id;
        sales_order_id = order_id;
        order_number = numbered.0;
        warehouse_id = request.warehouse_id;
      } in
      (
        record {
          sales_order_id = order_id;
          order_number = numbered.0;
          status = status;
          subtotal = found.priced.subtotal;
          tax_total = found.priced.tax_total;
          total = found.priced.grand_total;
          lines = lines;
          has_shortage = has_shortage;
        },
        record db {
          inventory = taken.1;
          sequences = numbered.1;
          sales_orders =
              record {
                id = order_id;
                org_id = org_id;
                customer_id = found.customer.id;
                order_number = numbered.0;
                order_date = request.order_date;
                status = status;
                subtotal = found.priced.subtotal;
                tax_total = found.priced.tax_total;
                total = found.priced.grand_total;
                notes = request.notes;
              }
              ∷ db.sales_orders;
          sales_order_items = order_items new_id order_id 2 taken.0 ++ db.sales_order_items;
          outbox_events =
              if not request.is_quote && has_shortage
              then report_shortage dumps (new_id 1) detected db.inventory.now db.outbox_events
              else db.outbox_events;
        },
      )

  unfoldable pub create_sales_order :
      (pro_rata : ℕ → ℕ → ℕ → ℕ) (org_id : ℕ)
      → CreateSalesOrderRequest
      → (new_id : ℕ → ℕ) → SalesDb
      → Result (CreateSalesOrderResult × SalesDb)
  create_sales_order pro_rata org_id request new_id db = do
    found ←
        validate_and_price pro_rata org_id request.customer_id request.warehouse_id request.lines
          request.header_discount_percent request.header_discount_amount db
    numbered ← next_document_number org_id "sales_order" request.order_date db.sequences
    raise_if (any (has_order_number org_id numbered.0) db.sales_orders) integrity_error
    taken ←
        reserve_order request.is_quote request.warehouse_id (new_id 0) found.priced.lines
          db.inventory
    raise_if (not (all check_order_item (order_items new_id (new_id 0) 2 taken.0))) integrity_error
    ok (placed_order org_id request new_id found db numbered taken)
