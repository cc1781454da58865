-- ===== src/Inventory/Movements.antt =====
-- The five movements (`_build_statement`, `_apply`, `reserve`, `release`, `receive`, `issue` and
-- `adjust` of backend/app/services/inventory.py).
use vyaparaflowai.Prelude.{
  ℕ, zero, Bool, true, false, not, ◌&&◌, Option, List, [], ◌∷◌, map, String, ◌==◌, ltb,
  if◌then◌else◌, all,
}
use vyaparaflowai.Prelude.Int.{ℤ, pos, ◌+ℤ◌, ◌-ℤ◌, leb_ℤ}
use vyaparaflowai.Prelude.Sorting.{sorted}
use vyaparaflowai.Errors.{
  Result, ok, err, conflict, value_error, assertion_error, integrity_error, ◌>>=◌,
}
use vyaparaflowai.Inventory.Table.{
  StockMovementType, receipt, issue, reserve, release, adjustment, InventoryItem, StockLedger,
  InventoryDb, check_item, ensure_row, Statement, updated, returned,
}

-- The validation of the model keeps the quantity above zero.
pub record InventoryLine : Type 0 where
  pub product_id : ℕ
  pub warehouse_id : ℕ
  pub quantity : ℕ

pub record AdjustmentLine : Type 0 where
  pub product_id : ℕ
  pub warehouse_id : ℕ
  pub qty_delta : ℤ

-- `AdjustmentLine.__init__`
pub adjustment_line : ℕ → ℕ → ℤ → Result AdjustmentLine
adjustment_line product warehouse (pos zero) = err value_error
adjustment_line product warehouse delta =
    ok (record { product_id = product; warehouse_id = warehouse; qty_delta = delta })

pub data Line : Type 0 where
  stock : InventoryLine → Line
  correction : AdjustmentLine → Line

abbrev pub line_product : Line → ℕ
line_product (stock l) = l.product_id
line_product (correction l) = l.product_id

abbrev pub line_warehouse : Line → ℕ
line_warehouse (stock l) = l.warehouse_id
line_warehouse (correction l) = l.warehouse_id

-- What the caller notes on each ledger row.
pub record Reference : Type 0 where
  pub ref_type : String
  pub ref_id : Option ℕ
  pub note : Option String

pub record InventoryMutationResult : Type 0 where
  pub product_id : ℕ
  pub warehouse_id : ℕ
  pub on_hand : ℤ
  pub reserved : ℤ

unfoldable pub reserve_statement : InventoryLine → Statement
reserve_statement l = record {
  product_id = l.product_id;
  warehouse_id = l.warehouse_id;
  test = λ on_hand reserved. leb_ℤ (pos l.quantity) (on_hand -ℤ reserved);
  on_hand = λ v. v;
  reserved = λ v. v +ℤ pos l.quantity;
  qty_delta = pos l.quantity;
}

unfoldable pub release_statement : InventoryLine → Statement
release_statement l = record {
  product_id = l.product_id;
  warehouse_id = l.warehouse_id;
  test = λ on_hand reserved. leb_ℤ (pos l.quantity) reserved;
  on_hand = λ v. v;
  reserved = λ v. v -ℤ pos l.quantity;
  qty_delta = pos 0 -ℤ pos l.quantity;
}

unfoldable pub receipt_statement : InventoryLine → Statement
receipt_statement l = record {
  product_id = l.product_id;
  warehouse_id = l.warehouse_id;
  test = λ on_hand reserved. true;
  on_hand = λ v. v +ℤ pos l.quantity;
  reserved = λ v. v;
  qty_delta = pos l.quantity;
}

-- A dispatch against a reservation moves both columns, a direct sale only `on_hand`.
unfoldable pub issue_statement : InventoryLine → Bool → Statement
issue_statement l from_reservation = record {
  product_id = l.product_id;
  warehouse_id = l.warehouse_id;
  test =
      λ on_hand reserved. leb_ℤ (pos l.quantity) (if from_reservation then reserved else on_hand);
  on_hand = λ v. v -ℤ pos l.quantity;
  reserved = λ v. if from_reservation then v -ℤ pos l.quantity else v;
  qty_delta = pos 0 -ℤ pos l.quantity;
}

unfoldable pub adjustment_statement : AdjustmentLine → Statement
adjustment_statement l = record {
  product_id = l.product_id;
  warehouse_id = l.warehouse_id;
  test = λ on_hand reserved.
      leb_ℤ (pos 0) (on_hand +ℤ l.qty_delta) && leb_ℤ reserved (on_hand +ℤ l.qty_delta);
  on_hand = λ v. v +ℤ l.qty_delta;
  reserved = λ v. v;
  qty_delta = l.qty_delta;
}

-- The asserts refuse a line of the other class; returns are not supported.
unfoldable pub build_statement : StockMovementType → Line → Bool → Result Statement
build_statement reserve (stock l) from_reservation = ok (reserve_statement l)
build_statement release (stock l) from_reservation = ok (release_statement l)
build_statement receipt (stock l) from_reservation = ok (receipt_statement l)
build_statement issue (stock l) from_reservation = ok (issue_statement l from_reservation)
build_statement adjustment (correction l) from_reservation = ok (adjustment_statement l)
build_statement StockMovementType.return_in line from_reservation = err value_error
build_statement StockMovementType.return_out line from_reservation = err value_error
build_statement movement line from_reservation = err assertion_error

-- `_RESERVED_MOVEMENTS`
abbrev pub moves_reserved : StockMovementType → Bool
moves_reserved reserve = true
moves_reserved release = true
moves_reserved _ = false

abbrev pub ledger_row : StockMovementType → Reference → ℕ → Statement → InventoryItem → StockLedger
ledger_row movement ref now stmt row = record {
  product_id = stmt.product_id;
  warehouse_id = stmt.warehouse_id;
  movement_type = movement;
  qty_delta = stmt.qty_delta;
  balance_after = if moves_reserved movement then row.reserved else row.on_hand;
  ref_type = ref.ref_type;
  ref_id = ref.ref_id;
  note = ref.note;
  created_at = now;
}

abbrev pub mutation_result : InventoryItem → InventoryMutationResult
mutation_result row = record {
  product_id = row.product_id;
  warehouse_id = row.warehouse_id;
  on_hand = row.on_hand;
  reserved = row.reserved;
}

-- Sends the statement, and records the first row that it returns. No row means that the test
-- failed. A row that violates a constraint makes the database refuse the statement.
unfoldable pub run_statement :
    StockMovementType
    → Reference
    → Statement
    → InventoryDb
    → Result (InventoryMutationResult × InventoryDb)
run_statement movement ref stmt db =
    let rows = returned stmt db.items in
    if all check_item rows
    then elim rows [
      | [] ↦ err conflict
      | row ∷ _ ↦ ok (
        mutation_result row,
        record db {
          items = updated stmt db.items;
          ledger = ledger_row movement ref db.now stmt row ∷ db.ledger;
        },
      )
    ]
    else err integrity_error

-- The body of the loop of `_apply`.
unfoldable pub apply_line :
    StockMovementType
    → Bool
    → Reference
    → Line
    → InventoryDb
    → Result (InventoryMutationResult × InventoryDb)
apply_line movement from_reservation ref line db = do
  stmt ← build_statement movement line from_reservation
  run_statement movement ref stmt
      (record db { items = ensure_row (line_product line) (line_warehouse line) db.items })

unfoldable pub apply_lines :
    StockMovementType
    → Bool
    → Reference
    → List Line
    → InventoryDb
    → Result (List InventoryMutationResult × InventoryDb)
apply_lines movement from_reservation ref [] db = ok ([], db)
apply_lines movement from_reservation ref (line ∷ lines) db = do
  first ← apply_line movement from_reservation ref line db
  rest ← apply_lines movement from_reservation ref lines first.1
  ok (first.0 ∷ rest.0, rest.1)

-- `_sort_key`: the text of a UUID orders as its number.
abbrev pub sorts_before : Line → Line → Bool
sorts_before a b =
    if ltb (line_product a) (line_product b)
    then true
    else line_product a == line_product b && not (ltb (line_warehouse b) (line_warehouse a))

-- `_apply`
unfoldable pub apply :
    StockMovementType
    → Bool
    → Reference
    → List Line
    → InventoryDb
    → Result (List InventoryMutationResult × InventoryDb)
apply movement from_reservation ref lines db =
    apply_lines movement from_reservation ref (sorted sorts_before lines) db

module _ (ref : Reference) where
  unfoldable pub reserve_stock :
      List InventoryLine → InventoryDb → Result (List InventoryMutationResult × InventoryDb)
  reserve_stock lines = apply reserve true ref (map stock lines)

  unfoldable pub release_stock :
      List InventoryLine → InventoryDb → Result (List InventoryMutationResult × InventoryDb)
  release_stock lines = apply release true ref (map stock lines)

  unfoldable pub receive_stock :
      List InventoryLine → InventoryDb → Result (List InventoryMutationResult × InventoryDb)
  receive_stock lines = apply receipt true ref (map stock lines)

  unfoldable pub issue_stock :
      Bool → List InventoryLine → InventoryDb → Result (List InventoryMutationResult × InventoryDb)
  issue_stock from_reservation lines = apply issue from_reservation ref (map stock lines)

  unfoldable pub adjust_stock :
      List AdjustmentLine → InventoryDb → Result (List InventoryMutationResult × InventoryDb)
  adjust_stock lines = apply adjustment true ref (map correction lines)
