-- ===== src/Inventory/Table.antt =====
-- The tables `inventory_items` and `stock_ledger`, and the one form of UPDATE that the service
-- sends (backend/app/db/models/inventory.py, backend/app/db/models/enums.py).
use vyaparaflowai.Prelude.{
  ℕ, Bool, ◌&&◌, Option, List, [], ◌∷◌, String, ◌==◌, if◌then◌else◌, any, find,
}
use vyaparaflowai.Prelude.Int.{ℤ, pos, ◌-ℤ◌, leb_ℤ}

pub data StockMovementType : Type 0 where
  receipt issue reserve release adjustment return_in return_out : StockMovementType

-- Quantities are whole thousandths, the scale of `Numeric(14, 3)`.
pub record InventoryItem : Type 0 where
  pub product_id : ℕ
  pub warehouse_id : ℕ
  pub on_hand : ℤ
  pub reserved : ℤ
  pub reorder_level : ℤ
  pub safety_stock : ℤ

-- The generated column.
abbrev pub available : InventoryItem → ℤ
available item = item.on_hand -ℤ item.reserved

pub record StockLedger : Type 0 where
  pub product_id : ℕ
  pub warehouse_id : ℕ
  pub movement_type : StockMovementType
  pub qty_delta : ℤ
  pub balance_after : ℤ
  pub ref_type : String
  pub ref_id : Option ℕ
  pub note : Option String
  pub created_at : ℕ

-- `now` is the time of the transaction, which dates the ledger rows; the newest row comes first.
pub record InventoryDb : Type 0 where
  pub items : List InventoryItem
  pub ledger : List StockLedger
  pub now : ℕ

-- The three CHECK constraints of `inventory_items`.
unfoldable pub check_item : InventoryItem → Bool
check_item item =
    leb_ℤ (pos 0) item.on_hand && leb_ℤ (pos 0) item.reserved && leb_ℤ item.reserved item.on_hand

abbrev pub at_key : ℕ → ℕ → InventoryItem → Bool
at_key product warehouse item = item.product_id == product && item.warehouse_id == warehouse

abbrev pub find_item : ℕ → ℕ → List InventoryItem → Option InventoryItem
find_item product warehouse items = find (at_key product warehouse) items

abbrev pub new_item : ℕ → ℕ → InventoryItem
new_item product warehouse = record {
  product_id = product;
  warehouse_id = warehouse;
  on_hand = pos 0;
  reserved = pos 0;
  reorder_level = pos 0;
  safety_stock = pos 0;
}

-- `INSERT … ON CONFLICT (product_id, warehouse_id) DO NOTHING` of a row with no stock.
unfoldable pub ensure_row : ℕ → ℕ → List InventoryItem → List InventoryItem
ensure_row product warehouse items =
    if any (at_key product warehouse) items then items else new_item product warehouse ∷ items

-- `UPDATE inventory_items SET … WHERE key AND test RETURNING …`, and the change that the ledger
-- records for it. The test and the new values read `on_hand` and `reserved`, in that order.
pub record Statement : Type 0 where
  pub product_id : ℕ
  pub warehouse_id : ℕ
  pub test : ℤ → ℤ → Bool
  pub on_hand : ℤ → ℤ
  pub reserved : ℤ → ℤ
  pub qty_delta : ℤ

abbrev pub selects : Statement → InventoryItem → Bool
selects stmt item =
    at_key stmt.product_id stmt.warehouse_id item && stmt.test item.on_hand item.reserved

abbrev pub assign : Statement → InventoryItem → InventoryItem
assign stmt item = record item {
  on_hand = stmt.on_hand item.on_hand;
  reserved = stmt.reserved item.reserved;
}

-- The table after the statement.
unfoldable pub updated : Statement → List InventoryItem → List InventoryItem
updated stmt [] = []
updated stmt (item ∷ items) =
    (if selects stmt item then assign stmt item else item) ∷ updated stmt items

-- The rows that it returns.
unfoldable pub returned : Statement → List InventoryItem → List InventoryItem
returned stmt [] = []
returned stmt (item ∷ items) =
    if selects stmt item then assign stmt item ∷ returned stmt items else returned stmt items
