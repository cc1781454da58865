-- ===== src/Sales/Reserving.antt =====
-- The reservation of an order's lines (`_best_effort_reserve`, `_finalize_status`, `_line_result`
-- and the loops of backend/app/services/sales.py that call them).
use vyaparaflowai.Prelude.{
  ℕ, Bool, ◌&&◌, Option, none, some, List, [], ◌∷◌, ltb, if◌then◌else◌, any, all,
}
use vyaparaflowai.Prelude.Int.{pos, negsuc, ◌-ℤ◌, leb_ℤ, ltb_ℤ}
use vyaparaflowai.Errors.{Result, ok, err, conflict, ◌>>=◌}
use vyaparaflowai.Inventory.{
  InventoryDb, ensure_row, InventoryLine, Reference, reserve_stock, get_available,
}
use vyaparaflowai.Pricing.{PricingLineResult}
use vyaparaflowai.Sales.Tables.{
  SalesOrderStatus, confirmed, partially_reserved, reserved, SalesOrderItem,
}
use vyaparaflowai.Sales.Requests.{SalesOrderLineResult}

-- `try: … except ConflictError: …`
abbrev pub catch_conflict {ℓ} : {A : Type ℓ} → Result A → Result A → Result A
catch_conflict (ok answer) handler = ok answer
catch_conflict (err conflict) handler = handler
catch_conflict (err problem) handler = err problem

abbrev pub order_reference : ℕ → Reference
order_reference ref_id = record { ref_type = "sales_order"; ref_id = some ref_id; note = none }

abbrev pub stock_line : (product_id warehouse_id quantity : ℕ) → InventoryLine
stock_line product_id warehouse_id quantity = record {
  product_id = product_id;
  warehouse_id = warehouse_id;
  quantity = quantity;
}

-- One call of `inventory.reserve`, with the quantity that it reserves.
unfoldable pub reserve_all :
    (product_id warehouse_id quantity ref_id : ℕ) → InventoryDb → Result (ℕ × InventoryDb)
reserve_all product_id warehouse_id quantity ref_id db =
    reserve_stock (order_reference ref_id) (stock_line product_id warehouse_id quantity ∷ []) db
    >>= λ r. ok (quantity, r.1)

-- What a call that raised `ConflictError` leaves: the transaction goes on, with the row that the
-- call made sure of.
abbrev pub after_conflict : (product_id warehouse_id : ℕ) → InventoryDb → InventoryDb
after_conflict product_id warehouse_id db = record db {
  items = ensure_row product_id warehouse_id db.items;
}

-- The part after the first `except`.
unfoldable pub reserve_available :
    (product_id warehouse_id ref_id : ℕ) → InventoryDb → Result (ℕ × InventoryDb)
reserve_available product_id warehouse_id ref_id db =
    elim (get_available product_id warehouse_id db) [
      | negsuc n ↦ ok (0, db)
      | pos available ↦
          if ltb 0 available
          then catch_conflict (reserve_all product_id warehouse_id available ref_id db)
              (ok (0, after_conflict product_id warehouse_id db))
          else ok (0, db)
    ]

unfoldable pub best_effort_reserve :
    (product_id warehouse_id quantity ref_id : ℕ) → InventoryDb → Result (ℕ × InventoryDb)
best_effort_reserve product_id warehouse_id quantity ref_id db =
    catch_conflict (reserve_all product_id warehouse_id quantity ref_id db)
      (reserve_available product_id warehouse_id ref_id (after_conflict product_id warehouse_id db))

-- The loops over the lines or the items of an order. `wanted` is what is to be reserved for one of
-- them, if anything is; each comes back with what was reserved for it now.
module _ {A : Type 0} (product_of : A → ℕ) (wanted : A → Option ℕ) (warehouse_id ref_id : ℕ) where
  unfoldable pub reserve_one : A → InventoryDb → Result (ℕ × InventoryDb)
  reserve_one a db = elim (wanted a) [
    | none ↦ ok (0, db)
    | some quantity ↦ best_effort_reserve (product_of a) warehouse_id quantity ref_id db
  ]

  unfoldable pub reserve_each : List A → InventoryDb → Result (List (A × ℕ) × InventoryDb)
  reserve_each [] db = ok ([], db)
  reserve_each (a ∷ rest) db = do
    first ← reserve_one a db
    later ← reserve_each rest first.1
    ok ((a, first.0) ∷ later.0, later.1)

-- `_line_result`
unfoldable pub line_result : PricingLineResult → (reserved_qty : ℕ) → SalesOrderLineResult
line_result line reserved_qty = record {
  product_id = line.product_id;
  quantity = line.quantity;
  reserved_qty = reserved_qty;
  shortage_qty = pos line.quantity -ℤ pos reserved_qty;
  unit_price = line.unit_price;
  gst_rate = line.gst_rate;
  line_subtotal = line.taxable_value;
  line_tax = line.tax_amount;
  line_total = line.line_total;
}

-- The answer's line for an item that is there already.
unfoldable pub item_result : SalesOrderItem → (reserved_qty : ℕ) → SalesOrderLineResult
item_result item reserved_qty = record {
  product_id = item.product_id;
  quantity = item.quantity;
  reserved_qty = reserved_qty;
  shortage_qty = pos item.quantity -ℤ pos reserved_qty;
  unit_price = item.unit_price;
  gst_rate = item.gst_rate;
  line_subtotal = item.line_subtotal;
  line_tax = item.line_tax;
  line_total = item.line_total;
}

abbrev pub is_short : SalesOrderLineResult → Bool
is_short line = ltb_ℤ (pos 0) line.shortage_qty

abbrev pub is_covered : SalesOrderLineResult → Bool
is_covered line = leb_ℤ (pos 0) line.shortage_qty && leb_ℤ line.shortage_qty (pos 0)

abbrev pub is_reserved : SalesOrderLineResult → Bool
is_reserved line = ltb 0 line.reserved_qty

-- `_finalize_status`
unfoldable pub finalize_status : List SalesOrderLineResult → SalesOrderStatus
finalize_status lines =
    if all is_covered lines
    then reserved
    else if any is_reserved lines
    then partially_reserved
    else confirmed
