-- ===== src/Inventory/Refinement.antt =====
-- One line of a movement (the body of the loop of `_apply`) against the contract.
use vyaparaflowai.Prelude.{
  ◌≡◌, refl, inl, inr, Bool, true, some, ◌∷◌, arith, if◌then◌else◌, Bool-cases,
}
use vyaparaflowai.Errors.{ok, err, conflict, integrity_error}
use vyaparaflowai.Inventory.Table.{
  StockMovementType, InventoryItem, InventoryDb, check_item, find_item, ensure_row, Statement,
  assign, updated,
}
use vyaparaflowai.Inventory.Movements.{
  Line, line_product, line_warehouse, Reference, ledger_row, mutation_result, run_statement,
  apply_line,
}
use vyaparaflowai.Inventory.Levels.{
  row_at, IsStocked, IsValid, passes, find_item-ensure_row, row_at-ensure_row, ensure_row-IsValid,
  row_at-IsStocked, returned-found, row_at-updated, updated-IsValid,
}
use vyaparaflowai.Inventory.Contract.{
  change, IsSupported, moved, entry, refusal, IsMoved, IsStocked-of_check, check_of-IsStocked,
}
use vyaparaflowai.Inventory.Statements.{Makes, Makes-build_statement}

-- What the statement does, when its key has the row `x`.
run_statement_found :
    (movement : StockMovementType) (ref : Reference) (stmt : Statement) (db : InventoryDb)
    (x : InventoryItem)
    → IsValid db.items
    → find_item stmt.product_id stmt.warehouse_id db.items ≡ some x
    → run_statement movement ref stmt db ≡ (
        if passes stmt x
        then (if check_item (assign stmt x)
            then ok (
              mutation_result (assign stmt x),
              record db {
                items = updated stmt db.items;
                ledger = ledger_row movement ref db.now stmt (assign stmt x) ∷ db.ledger;
              },
            )
            else err integrity_error)
        else err conflict)
unfolding run_statement
run_statement_found movement ref stmt db x v e =
    ground (arith, returned-found stmt db.items x v.unique e)

module _ (movement : StockMovementType) (from_reservation : Bool) (ref : Reference) (line : Line)
    (db : InventoryDb) where
  abbrev met : InventoryItem
  met = row_at (line_product line) (line_warehouse line) db.items

  abbrev target : InventoryItem
  target = moved (change movement from_reservation line) met

  abbrev opened : InventoryDb
  opened = record db { items = ensure_row (line_product line) (line_warehouse line) db.items }

  assign-eq-moved :
      (stmt : Statement)
      → Makes movement from_reservation line stmt
      → (x : InventoryItem) → assign stmt x ≡ moved (change movement from_reservation line) x
  assign-eq-moved stmt m x = λ i. record x {
    on_hand = m.on_hand_change x.on_hand i;
    reserved = m.reserved_change x.reserved i;
  }

  run_statement-Makes :
      (stmt : Statement)
      → IsValid db.items
      → Makes movement from_reservation line stmt
      → run_statement movement ref stmt opened ≡ (
          if check_item target
          then ok (
            mutation_result target,
            record db {
              items = updated stmt opened.items;
              ledger = entry movement from_reservation ref line db.now met ∷ db.ledger;
            },
          )
          else err (refusal movement from_reservation line met))
  unfolding entry
  run_statement-Makes stmt v m =
      let found : find_item stmt.product_id stmt.warehouse_id opened.items ≡ some met =
        rw (m.same_product, m.same_warehouse)
          (find_item-ensure_row (line_product line) (line_warehouse line) db.items) in
      let stocked : IsStocked met =
        row_at-IsStocked (line_product line) (line_warehouse line) db.items v.stocked in
      let valid : IsValid opened.items =
        ensure_row-IsValid (line_product line) (line_warehouse line) db.items v in
      ground (
        arith,
        run_statement_found movement ref stmt opened met valid found,
        assign-eq-moved stmt m met,
        m.delta,
        m.same_product,
        m.same_warehouse,
        m.lets_through met stocked,
        IsStocked-of_check target,
        m.turns_down met stocked,
      )

  IsMoved-updated :
      (stmt : Statement)
      → IsValid db.items
      → Makes movement from_reservation line stmt
      → IsStocked target
      → IsMoved movement from_reservation ref line db (record db {
        items = updated stmt opened.items;
        ledger = entry movement from_reservation ref line db.now met ∷ db.ledger;
      })
  IsMoved-updated stmt v m k =
      let found : find_item stmt.product_id stmt.warehouse_id opened.items ≡ some met =
        rw (m.same_product, m.same_warehouse)
          (find_item-ensure_row (line_product line) (line_warehouse line) db.items) in
      let stocked : IsStocked met =
        row_at-IsStocked (line_product line) (line_warehouse line) db.items v.stocked in
      let valid : IsValid opened.items =
        ensure_row-IsValid (line_product line) (line_warehouse line) db.items v in
      let pass : passes stmt met ≡ true = m.lets_through met stocked k in
      let same : assign stmt met ≡ target = assign-eq-moved stmt m met in
      record {
        valid =
            updated-IsValid stmt opened.items valid
              (rw (returned-found stmt opened.items met valid.unique found, pass, same) (k, tt));
        position = λ q w. ground (
          arith,
          row_at-updated stmt q w opened.items met valid.unique found,
          pass,
          same,
          m.same_product,
          m.same_warehouse,
          row_at-ensure_row q w (line_product line) (line_warehouse line) db.items,
        );
        logged = refl;
        same_time = refl;
      }

  -- In a well-formed table, a line of a kind that the movement takes is accepted if the position that
  -- it leads to is well formed, and it makes the change of the contract, with its ledger row.
  pub apply_line-IsMoved :
      IsValid db.items
      → IsSupported movement line
      → IsStocked target
      → (db' : InventoryDb) × (apply_line movement from_reservation ref line db
          ≡ ok (mutation_result target, db'))
        × IsMoved movement from_reservation ref line db db'
  unfolding apply_line
  apply_line-IsMoved v s k =
      let (stmt, built, m) = Makes-build_statement movement from_reservation line s in
      (
        _,
        rw (built, run_statement-Makes stmt v m, check_of-IsStocked target k),
        IsMoved-updated stmt v m k,
      )

  -- In a well-formed table, a line of a kind that the movement takes is refused if the position that
  -- it would lead to is not well formed, with the error of the contract.
  pub apply_line-refused :
      IsValid db.items
      → IsSupported movement line
      → ¬ IsStocked target
      → apply_line movement from_reservation ref line db
        ≡ err (refusal movement from_reservation line met)
  unfolding apply_line
  apply_line-refused v s k =
      let (stmt, built, m) = Makes-build_statement movement from_reservation line s in
      elim (Bool-cases (check_item target)) [
        | inl e ↦ absurd (k (IsStocked-of_check target e))
        | inr e ↦ rw (built, run_statement-Makes stmt v m, e)
      ]
