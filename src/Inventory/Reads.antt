-- ===== src/Inventory/Reads.antt =====
-- The read side (`get_available`, `check_availability`, `get_snapshot`, `list_below_reorder_level`
-- and `average_daily_issued` of backend/app/services/inventory.py).
use vyaparaflowai.Prelude.{
  ℕ, ◌+◌, ◌*◌, Bool, true, false, ◌&&◌, Option, none, some, List, map, ◌==◌, leb, filter,
  if◌then◌else◌,
}
use vyaparaflowai.Prelude.Int.{ℤ, pos, ◌-ℤ◌, ltb_ℤ, leb_ℤ}
use vyaparaflowai.Prelude.Sums.{sum_of}
use vyaparaflowai.Inventory.Table.{
  StockMovementType, issue, InventoryItem, available, StockLedger, InventoryDb, find_item,
}

unfoldable pub get_available : ℕ → ℕ → InventoryDb → ℤ
get_available product warehouse db = elim (find_item product warehouse db.items) [
  | none ↦ pos 0
  | some item ↦ available item
]

unfoldable pub check_availability : ℕ → ℕ → ℤ → InventoryDb → Bool
unfolding get_available
check_availability product warehouse quantity db =
    leb_ℤ quantity (get_available product warehouse db)

pub record InventorySnapshot : Type 0 where
  pub product_id : ℕ
  pub warehouse_id : ℕ
  pub on_hand : ℤ
  pub reserved : ℤ
  pub available_quantity : ℤ
  pub reorder_level : ℤ
  pub safety_stock : ℤ

-- `_snapshot`
abbrev pub snapshot : InventoryItem → InventorySnapshot
snapshot item = record {
  product_id = item.product_id;
  warehouse_id = item.warehouse_id;
  on_hand = item.on_hand;
  reserved = item.reserved;
  available_quantity = available item;
  reorder_level = item.reorder_level;
  safety_stock = item.safety_stock;
}

unfoldable pub get_snapshot : ℕ → ℕ → InventoryDb → Option InventorySnapshot
get_snapshot product warehouse db = elim (find_item product warehouse db.items) [
  | none ↦ none
  | some item ↦ some (snapshot item)
]

-- `org_of` gives the organization of a product, from the table `products` that the query joins.
unfoldable pub list_below_reorder_level : (ℕ → ℕ) → ℕ → ℕ → InventoryDb → List InventorySnapshot
list_below_reorder_level org_of org warehouse db = map snapshot (
    filter
      (λ item.
        org_of item.product_id == org
        && item.warehouse_id == warehouse
        && ltb_ℤ (available item) item.reorder_level)
      db.items)

abbrev pub is_issue : StockMovementType → Bool
is_issue issue = true
is_issue _ = false

-- The rows of the window; times are seconds.
abbrev pub is_issued_since : (product warehouse lookback_days now : ℕ) → StockLedger → Bool
is_issued_since product warehouse lookback_days now row =
    row.product_id == product
    && row.warehouse_id == warehouse
    && is_issue row.movement_type
    && leb now (row.created_at + lookback_days * 86400)

-- A quotient, before the division.
pub record DailyAverage : Type 0 where
  pub issued : ℤ
  pub days : ℕ

-- Zero, or what was issued over the days of the window.
unfoldable pub average_daily_issued :
    (product warehouse lookback_days : ℕ) → InventoryDb → DailyAverage
average_daily_issued product warehouse lookback_days db =
    let issued =
      sum_of (λ (row : StockLedger). pos 0 -ℤ row.qty_delta)
        (filter (is_issued_since product warehouse lookback_days db.now) db.ledger) in
    if leb_ℤ issued (pos 0)
    then record { issued = pos 0; days = 1 }
    else record { issued = issued; days = lookback_days }
