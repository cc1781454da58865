-- ===== src/Receiving/Receipts.antt =====
-- `create_goods_receipt` of backend/app/services/receiving.py.
use vyaparaflowai.Prelude.{
  ℕ, ◌+◌, Bool, not, ◌&&◌, Option, none, some, List, [], ◌∷◌, ◌++◌, map, ◌==◌, leb, ltb,
  if◌then◌else◌, any, all, find, filter,
}
use vyaparaflowai.Errors.{Result, ok, integrity_error, ◌>>=◌, ◌>>◌, raise_if}
use vyaparaflowai.Inventory.{InventoryDb}
use vyaparaflowai.Inventory.{InventoryLine, Reference, receive_stock}
use vyaparaflowai.Numbering.{DocumentNumber, DocumentSequence, is_number, next_document_number}
use vyaparaflowai.Purchase.{
  PurchaseOrderStatus, partially_received, received, PurchaseOrder, PurchaseOrderItem,
  PurchaseRequisition, GoodsReceipt, GoodsReceiptItem, check_receipt_item, Warehouse, PurchaseDb,
}
use vyaparaflowai.Receiving.Requests.{
  GoodsReceiptLineInput, CreateGoodsReceiptRequest, GoodsReceiptLineResult,
  CreateGoodsReceiptResult,
}
use vyaparaflowai.Receiving.Checks.{find_item_of, is_requested, prior_accepted, check_receipt}

-- The item of a line, as a row of the receipt and in the answer; a line without one writes none.
unfoldable pub receipt_items :
    (order_id receipt_id : ℕ)
    → List PurchaseOrderItem
    → List GoodsReceiptLineInput
    → List GoodsReceiptItem
receipt_items order_id receipt_id items [] = []
receipt_items order_id receipt_id items (line ∷ lines) =
    let rest = receipt_items order_id receipt_id items lines in
    elim (find_item_of order_id line.purchase_order_item_id items) [
      | none ↦ rest
      | some item ↦
          record {
            goods_receipt_id = receipt_id;
            purchase_order_item_id = item.id;
            product_id = item.product_id;
            ordered_quantity = item.quantity;
            received_quantity = line.received_quantity;
            accepted_quantity = line.accepted_quantity;
            rejected_quantity = line.rejected_quantity;
            damaged_quantity = line.damaged_quantity;
          }
          ∷ rest
    ]

abbrev pub line_result : GoodsReceiptItem → GoodsReceiptLineResult
line_result row = record {
  product_id = row.product_id;
  purchase_order_item_id = row.purchase_order_item_id;
  ordered_quantity = row.ordered_quantity;
  received_quantity = row.received_quantity;
  accepted_quantity = row.accepted_quantity;
  rejected_quantity = row.rejected_quantity;
  damaged_quantity = row.damaged_quantity;
}

abbrev pub receive_line : (warehouse_id : ℕ) → GoodsReceiptItem → InventoryLine
receive_line warehouse_id row = record {
  product_id = row.product_id;
  warehouse_id = warehouse_id;
  quantity = row.accepted_quantity;
}

-- `receive_lines`: what enters the stock.
unfoldable pub receive_lines : (warehouse_id : ℕ) → List GoodsReceiptItem → List InventoryLine
receive_lines warehouse_id [] = []
receive_lines warehouse_id (row ∷ rows) =
    if ltb 0 row.accepted_quantity
    then receive_line warehouse_id row ∷ receive_lines warehouse_id rows
    else receive_lines warehouse_id rows

unfoldable pub receive_accepted : Reference → List InventoryLine → InventoryDb → Result InventoryDb
receive_accepted ref [] db = ok db
receive_accepted ref (line ∷ lines) db = receive_stock ref (line ∷ lines) db >>= λ r. ok r.1

-- `new_accepted_by_item.get(id, ZERO)`: the last line of an item stands.
unfoldable pub new_accepted : ℕ → List GoodsReceiptLineInput → ℕ
new_accepted item_id [] = 0
new_accepted item_id (line ∷ lines) =
    if is_requested item_id lines
    then new_accepted item_id lines
    else if line.purchase_order_item_id == item_id
    then line.accepted_quantity
    else 0

abbrev pub is_filled : List GoodsReceiptLineInput → List GoodsReceiptItem → PurchaseOrderItem → Bool
is_filled lines rows item =
    leb item.quantity (prior_accepted lines rows item.id + new_accepted item.id lines)

abbrev pub is_of_order : ℕ → PurchaseOrderItem → Bool
is_of_order order_id item = item.purchase_order_id == order_id

-- The status after a receipt of these lines, by the receipts before it.
unfoldable pub status_after : ℕ → List GoodsReceiptLineInput → PurchaseDb → PurchaseOrderStatus
status_after order_id lines db =
    if all (is_filled lines db.goods_receipt_items)
      (filter (is_of_order order_id) db.purchase_order_items)
    then received
    else partially_received

unfoldable pub set_status : ℕ → PurchaseOrderStatus → List PurchaseOrder → List PurchaseOrder
set_status order_id status [] = []
set_status order_id status (order ∷ orders) =
    (if order.id == order_id then record order { status = status } else order)
    ∷ set_status order_id status orders

abbrev pub triggering_order : PurchaseOrder → List PurchaseRequisition → Option ℕ
triggering_order order requisitions = elim order.purchase_requisition_id [
  | none ↦ none
  | some id ↦ elim (find (λ (r : PurchaseRequisition). r.id == id) requisitions) [
    | none ↦ none
    | some requisition ↦ requisition.triggered_by_sales_order_id
  ]
]

-- The answer and the tables after the writes, with the number and the stock that the calls gave.
abbrev pub posted_receipt :
    (org_id : ℕ)
    → CreateGoodsReceiptRequest
    → (new_id : ℕ) → PurchaseOrder
    → Warehouse
    → PurchaseDb
    → DocumentNumber × List DocumentSequence
    → InventoryDb
    → CreateGoodsReceiptResult × PurchaseDb
posted_receipt org_id request new_id order warehouse db numbered stock =
    let rows = receipt_items order.id new_id db.purchase_order_items request.lines in
    let status = status_after order.id request.lines db in
    (
      record {
        goods_receipt_id = new_id;
        grn_number = numbered.0;
        purchase_order_status = status;
        lines = map line_result rows;
        triggered_by_sales_order_id = triggering_order order db.requisitions;
      },
      record db {
        inventory = stock;
        sequences = numbered.1;
        purchase_orders = set_status order.id status db.purchase_orders;
        goods_receipts =
            record {
              id = new_id;
              org_id = org_id;
              purchase_order_id = order.id;
              warehouse_id = warehouse.id;
              grn_number = numbered.0;
              received_date = request.received_date;
            }
            ∷ db.goods_receipts;
        goods_receipt_items = rows ++ db.goods_receipt_items;
      },
    )

-- The unique key of the receipts.
abbrev pub has_number : ℕ → DocumentNumber → GoodsReceipt → Bool
has_number org_id number row = row.org_id == org_id && is_number row.grn_number number

-- The number, the rows and the stock. `new_id` is the UUID of the receipt.
unfoldable pub write_receipt :
    (org_id : ℕ)
    → CreateGoodsReceiptRequest
    → (new_id : ℕ) → PurchaseOrder
    → Warehouse
    → PurchaseDb
    → Result (CreateGoodsReceiptResult × PurchaseDb)
write_receipt org_id request new_id order warehouse db =
    let rows = receipt_items order.id new_id db.purchase_order_items request.lines in
    let ref : Reference = record {
      ref_type = "goods_receipt";
      ref_id = some new_id;
      note = none;
    } in
    do
      numbered ← next_document_number org_id "goods_receipt" request.received_date db.sequences
      raise_if (any (has_number org_id numbered.0) db.goods_receipts) integrity_error
      raise_if (not (all check_receipt_item rows)) integrity_error
      stock ← receive_accepted ref (receive_lines warehouse.id rows) db.inventory
      ok (posted_receipt org_id request new_id order warehouse db numbered stock)

unfoldable pub create_goods_receipt :
    (org_id : ℕ)
    → CreateGoodsReceiptRequest
    → (new_id : ℕ) → PurchaseDb
    → Result (CreateGoodsReceiptResult × PurchaseDb)
create_goods_receipt org_id request new_id db = check_receipt org_id request db >>= λ found.
    write_receipt org_id request new_id found.0 found.1 db
