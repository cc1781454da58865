-- ===== src/Inventory/Contract.antt =====
-- The contract of the movements: a movement changes the position of one key by a fixed amount, and
-- is refused when the position after it would not be well formed.
use vyaparaflowai.Prelude.{ℕ, ◌≡◌, Bool, true, false, ◌&&◌, ◌∷◌, arith, ◌==◌, if◌then◌else◌}
use vyaparaflowai.Prelude.Int.{ℤ, pos, ◌+ℤ◌, ◌-ℤ◌, leb_ℤ}
use vyaparaflowai.Errors.{Error, conflict, integrity_error}
use vyaparaflowai.Inventory.Table.{
  StockMovementType, receipt, issue, reserve, release, adjustment, InventoryItem, StockLedger,
  InventoryDb, check_item,
}
use vyaparaflowai.Inventory.Movements.{
  Line, stock, correction, line_product, line_warehouse, Reference, moves_reserved,
}
use vyaparaflowai.Inventory.Levels.{row_at, IsStocked, IsValid}

-- The change of `on_hand` and of `reserved`.
unfoldable pub change : StockMovementType → Bool → Line → ℤ × ℤ
change receipt from_reservation (stock l) = (pos l.quantity, pos 0)
change issue from_reservation (stock l) =
    (pos 0 -ℤ pos l.quantity, if from_reservation then pos 0 -ℤ pos l.quantity else pos 0)
change reserve from_reservation (stock l) = (pos 0, pos l.quantity)
change release from_reservation (stock l) = (pos 0, pos 0 -ℤ pos l.quantity)
change adjustment from_reservation (correction l) = (l.qty_delta, pos 0)
change _ from_reservation line = (pos 0, pos 0)

-- The movements that a line of its class can make.
abbrev pub IsSupported : StockMovementType → Line → Type 0
IsSupported receipt (stock l) = Unit
IsSupported issue (stock l) = Unit
IsSupported reserve (stock l) = Unit
IsSupported release (stock l) = Unit
IsSupported adjustment (correction l) = Unit
IsSupported _ line = ⊥

abbrev pub moved : ℤ × ℤ → InventoryItem → InventoryItem
moved delta item = record item {
  on_hand = item.on_hand +ℤ delta.0;
  reserved = item.reserved +ℤ delta.1;
}

-- The ledger row of a line, for the position that it meets.
unfoldable pub entry : StockMovementType → Bool → Reference → Line → ℕ → InventoryItem → StockLedger
entry movement from_reservation ref line now item =
    let delta = change movement from_reservation line in
    record {
      product_id = line_product line;
      warehouse_id = line_warehouse line;
      movement_type = movement;
      qty_delta = if moves_reserved movement then delta.1 else delta.0;
      balance_after =
          if moves_reserved movement then item.reserved +ℤ delta.1 else item.on_hand +ℤ delta.0;
      ref_type = ref.ref_type;
      ref_id = ref.ref_id;
      note = ref.note;
      created_at = now;
    }

-- A direct sale that would leave less than is reserved is stopped by the database alone.
unfoldable pub refusal : StockMovementType → Bool → Line → InventoryItem → Error
refusal issue false (stock l) item =
    if leb_ℤ (pos l.quantity) item.on_hand then integrity_error else conflict
refusal movement from_reservation line item = conflict

-- What one accepted line does to the database. The ledger row has the change and the new value of
-- the column that the movement is about.
pub record IsMoved (movement : StockMovementType) (from_reservation : Bool) (ref : Reference)
    (line : Line) (db db' : InventoryDb) : Type 0 where
  pub valid : IsValid db'.items
  pub position :
      (product warehouse : ℕ)
      → row_at product warehouse db'.items ≡ (
          if product == line_product line && warehouse == line_warehouse line
          then moved
              (change movement from_reservation line)
              (row_at (line_product line) (line_warehouse line) db.items)
          else row_at product warehouse db.items)
  pub logged :
      db'.ledger
      ≡ entry movement from_reservation ref line db.now
          (row_at (line_product line) (line_warehouse line) db.items)
        ∷ db.ledger
  pub same_time : db'.now ≡ db.now

pub IsStocked-of_check : (item : InventoryItem) → check_item item ≡ true → IsStocked item
unfolding check_item
IsStocked-of_check item h = ground arith

pub check_of-IsStocked : (item : InventoryItem) → IsStocked item → check_item item ≡ true
unfolding check_item
check_of-IsStocked item h = ground arith
