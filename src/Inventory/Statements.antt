-- ===== src/Inventory/Statements.antt =====
-- Each of the five statements (`_build_statement`) makes the change of its movement, and its WHERE
-- test lets through exactly what the constraints allow.
use vyaparaflowai.Prelude.{ℕ, ◌≡◌, refl, Bool, true, false, if◌then◌else◌}
use vyaparaflowai.Prelude.Int.{ℤ, pos, ◌+ℤ◌, ◌-ℤ◌, int_laws}
use vyaparaflowai.Errors.{ok, conflict, integrity_error}
use vyaparaflowai.Inventory.Table.{
  StockMovementType, receipt, issue, reserve, release, adjustment, InventoryItem, check_item,
  Statement,
}
use vyaparaflowai.Inventory.Movements.{
  InventoryLine, AdjustmentLine, Line, stock, correction, line_product, line_warehouse,
  reserve_statement, release_statement, receipt_statement, issue_statement, adjustment_statement,
  build_statement, moves_reserved,
}
use vyaparaflowai.Inventory.Levels.{IsStocked, passes}
use vyaparaflowai.Inventory.Contract.{change, IsSupported, moved, refusal}

-- A statement that makes the change of its line, and whose test lets through what the constraints
-- allow.
pub record Makes (movement : StockMovementType) (from_reservation : Bool) (line : Line)
    (stmt : Statement) : Type 0 where
  pub same_product : stmt.product_id ≡ line_product line
  pub same_warehouse : stmt.warehouse_id ≡ line_warehouse line
  pub on_hand_change : (v : ℤ) → stmt.on_hand v ≡ v +ℤ (change movement from_reservation line).0
  pub reserved_change : (v : ℤ) → stmt.reserved v ≡ v +ℤ (change movement from_reservation line).1
  pub delta : stmt.qty_delta ≡ (
      if moves_reserved movement
      then (change movement from_reservation line).1
      else (change movement from_reservation line).0)
  pub lets_through :
      (x : InventoryItem)
      → IsStocked x
      → IsStocked (moved (change movement from_reservation line) x)
      → passes stmt x ≡ true
  pub turns_down :
      (x : InventoryItem)
      → IsStocked x
      → check_item (moved (change movement from_reservation line) x) ≡ false
      → (if passes stmt x then integrity_error else conflict)
        ≡ refusal movement from_reservation line x

add_zero : (v : ℤ) → v ≡ v +ℤ pos 0
add_zero v = omega int_laws

add_negated : (q : ℕ) (v : ℤ) → v -ℤ pos q ≡ v +ℤ (pos 0 -ℤ pos q)
add_negated q v = omega int_laws

Makes-reserve : (fr : Bool) (l : InventoryLine) → Makes reserve fr (stock l) (reserve_statement l)
unfolding reserve_statement change refusal check_item
Makes-reserve fr l = record {
  same_product = refl;
  same_warehouse = refl;
  on_hand_change = λ v. add_zero v;
  reserved_change = λ v. refl;
  delta = refl;
  lets_through = λ x h k. grind (int_laws);
  turns_down = λ x h k. grind (int_laws);
}

Makes-release : (fr : Bool) (l : InventoryLine) → Makes release fr (stock l) (release_statement l)
unfolding release_statement change refusal check_item
Makes-release fr l = record {
  same_product = refl;
  same_warehouse = refl;
  on_hand_change = λ v. add_zero v;
  reserved_change = λ v. add_negated l.quantity v;
  delta = refl;
  lets_through = λ x h k. grind (int_laws);
  turns_down = λ x h k. grind (int_laws);
}

Makes-receipt : (fr : Bool) (l : InventoryLine) → Makes receipt fr (stock l) (receipt_statement l)
unfolding receipt_statement change refusal check_item
Makes-receipt fr l = record {
  same_product = refl;
  same_warehouse = refl;
  on_hand_change = λ v. refl;
  reserved_change = λ v. add_zero v;
  delta = refl;
  lets_through = λ x h k. refl;
  turns_down = λ x h k. grind (int_laws);
}

Makes-dispatch : (l : InventoryLine) → Makes issue true (stock l) (issue_statement l true)
unfolding issue_statement change refusal check_item
Makes-dispatch l = record {
  same_product = refl;
  same_warehouse = refl;
  on_hand_change = λ v. add_negated l.quantity v;
  reserved_change = λ v. add_negated l.quantity v;
  delta = refl;
  lets_through = λ x h k. grind (int_laws);
  turns_down = λ x h k. grind (int_laws);
}

Makes-direct_sale : (l : InventoryLine) → Makes issue false (stock l) (issue_statement l false)
unfolding issue_statement change refusal check_item
Makes-direct_sale l = record {
  same_product = refl;
  same_warehouse = refl;
  on_hand_change = λ v. add_negated l.quantity v;
  reserved_change = λ v. add_zero v;
  delta = refl;
  lets_through = λ x h k. grind (int_laws);
  turns_down = λ x h k. refl;
}

Makes-adjustment :
    (fr : Bool) (l : AdjustmentLine) → Makes adjustment fr (correction l) (adjustment_statement l)
unfolding adjustment_statement change refusal check_item
Makes-adjustment fr l = record {
  same_product = refl;
  same_warehouse = refl;
  on_hand_change = λ v. refl;
  reserved_change = λ v. add_zero v;
  delta = refl;
  lets_through = λ x h k. grind (int_laws);
  turns_down = λ x h k. grind (int_laws);
}

pub Makes-build_statement :
    (movement : StockMovementType) (from_reservation : Bool) (line : Line)
    → IsSupported movement line
    → (stmt : Statement) × (build_statement movement line from_reservation ≡ ok stmt)
      × Makes movement from_reservation line stmt
unfolding build_statement
Makes-build_statement reserve fr (stock l) s = (reserve_statement l, refl, Makes-reserve fr l)
Makes-build_statement release fr (stock l) s = (release_statement l, refl, Makes-release fr l)
Makes-build_statement receipt fr (stock l) s = (receipt_statement l, refl, Makes-receipt fr l)
Makes-build_statement issue true (stock l) s = (issue_statement l true, refl, Makes-dispatch l)
Makes-build_statement issue false (stock l) s = (issue_statement l false, refl, Makes-direct_sale l)
Makes-build_statement adjustment fr (correction l) s =
    (adjustment_statement l, refl, Makes-adjustment fr l)
Makes-build_statement receipt fr (correction l) s = elim s [ ]
Makes-build_statement issue false (correction l) s = elim s [ ]
Makes-build_statement issue true (correction l) s = elim s [ ]
Makes-build_statement reserve fr (correction l) s = elim s [ ]
Makes-build_statement release fr (correction l) s = elim s [ ]
Makes-build_statement adjustment fr (stock l) s = elim s [ ]
Makes-build_statement StockMovementType.return_in fr line s = elim s [ ]
Makes-build_statement StockMovementType.return_out fr line s = elim s [ ]
