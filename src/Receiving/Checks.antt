-- ===== src/Receiving/Checks.antt =====
-- The guards of `create_goods_receipt` (backend/app/services/receiving.py).
use vyaparaflowai.Prelude.{
  ℕ, ◌+◌, Bool, true, false, ◌&&◌, Option, none, some, List, [], ◌∷◌, ◌==◌, ltb, if◌then◌else◌, any,
  find, is_empty, total,
}
use vyaparaflowai.Errors.{Result, ok, err, not_found, conflict, validation, ◌>>=◌, ◌>>◌, raise_if}
use vyaparaflowai.Purchase.{
  PurchaseOrder, PurchaseOrderItem, GoodsReceiptItem, Warehouse, PurchaseDb, get_purchase_order,
  get_warehouse,
}
use vyaparaflowai.Receiving.Requests.{
  is_closed_to_receipt, GoodsReceiptLineInput, CreateGoodsReceiptRequest,
}

-- `po_item_by_id`, over the items of the order; ids are primary keys.
abbrev pub is_item : (order_id item_id : ℕ) → PurchaseOrderItem → Bool
is_item order_id item_id item = item.id == item_id && item.purchase_order_id == order_id

abbrev pub find_item_of : (order_id item_id : ℕ) → List PurchaseOrderItem → Option PurchaseOrderItem
find_item_of order_id item_id items = find (is_item order_id item_id) items

abbrev pub is_missing : (order_id : ℕ) → List PurchaseOrderItem → GoodsReceiptLineInput → Bool
is_missing order_id items line = elim (find_item_of order_id line.purchase_order_item_id items) [
  | none ↦ true
  | some item ↦ false
]

-- What was accepted for an item, over all the receipts.
abbrev pub accepted_for : ℕ → GoodsReceiptItem → ℕ
accepted_for item_id row =
    if row.purchase_order_item_id == item_id then row.accepted_quantity else 0

unfoldable pub accepted_of : ℕ → List GoodsReceiptItem → ℕ
accepted_of item_id rows = total (accepted_for item_id) rows

abbrev pub is_requested : ℕ → List GoodsReceiptLineInput → Bool
is_requested item_id lines = any (λ line. line.purchase_order_item_id == item_id) lines

-- `prior_accepted.get(id, ZERO)`: the query sums the items of the request only.
unfoldable pub prior_accepted : List GoodsReceiptLineInput → List GoodsReceiptItem → ℕ → ℕ
prior_accepted lines rows item_id =
    if is_requested item_id lines then accepted_of item_id rows else 0

-- The guards on one line.
unfoldable pub check_line :
    (order_id : ℕ)
    → List GoodsReceiptLineInput
    → PurchaseDb
    → GoodsReceiptLineInput
    → Result (Unit {0})
check_line order_id lines db line =
    raise_if (ltb line.received_quantity line.accepted_quantity) validation
    >> (raise_if
          (ltb line.received_quantity
            (line.accepted_quantity + line.rejected_quantity + line.damaged_quantity))
          validation
        >> elim (find_item_of order_id line.purchase_order_item_id db.purchase_order_items) [
          | none ↦ err not_found
          | some item ↦
              raise_if
                (ltb item.quantity (
                  prior_accepted lines db.goods_receipt_items line.purchase_order_item_id
                  + line.received_quantity))
                conflict
        ])

unfoldable pub check_lines :
    (order_id : ℕ)
    → List GoodsReceiptLineInput
    → PurchaseDb
    → List GoodsReceiptLineInput
    → Result (Unit {0})
check_lines order_id lines db [] = ok tt
check_lines order_id lines db (line ∷ rest) =
    check_line order_id lines db line >> check_lines order_id lines db rest

-- Everything before the first write.
unfoldable pub check_receipt :
    (org_id : ℕ) → CreateGoodsReceiptRequest → PurchaseDb → Result (PurchaseOrder × Warehouse)
check_receipt org_id request db = do
  raise_if (is_empty request.lines) validation
  order ← get_purchase_order org_id request.purchase_order_id db
  raise_if (is_closed_to_receipt order.status) conflict
  warehouse ← get_warehouse org_id request.warehouse_id db
  raise_if (any (is_missing order.id db.purchase_order_items) request.lines) not_found
  check_lines order.id request.lines db request.lines
  ok (order, warehouse)
