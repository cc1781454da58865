-- ===== src/Inventory/Tests.antt =====
-- The theorems on the stock at concrete tables and orders.
use vyaparaflowai.Prelude.{ℕ, ◌≡◌, refl, true, false, none, some, List, [], ◌∷◌, map, arith}
use vyaparaflowai.Prelude.Int.{pos, ◌+ℤ◌, ◌-ℤ◌, ◌≤ℤ◌}
use vyaparaflowai.Prelude.Sorting.{insert, sorted}
use vyaparaflowai.Errors.{Result, ok, err, integrity_error}
use vyaparaflowai.Inventory.Table.{
  issue, reserve, InventoryDb, check_item, ensure_row, updated, returned,
}
use vyaparaflowai.Inventory.Movements.{
  InventoryLine, stock, Reference, InventoryMutationResult, build_statement, reserve_statement,
  run_statement, apply_line, apply_lines, apply, reserve_stock, release_stock, issue_stock,
  mutation_result,
}
use vyaparaflowai.Inventory.Reads.{get_available}
use vyaparaflowai.Inventory.Levels.{row_at, IsStocked, IsValid}
use vyaparaflowai.Inventory.Contract.{change, moved, IsMoved, refusal}
use vyaparaflowai.Inventory.Refinement.{apply_line-IsMoved, apply_line-refused}
use vyaparaflowai.Inventory.Orders.{HasMoved, net_on_hand, net_reserved, apply-HasMoved}
use vyaparaflowai.Inventory.Failures.{issue_stock-integrity_error}
use vyaparaflowai.Inventory.Reservation.{demand, reserve_stock-reserves}
use vyaparaflowai.Inventory.Undoing.{IsSameStock, release_stock-reserve_stock}

-- Ten of product 1 in warehouse 1, four of them reserved.
abbrev shelf : InventoryDb
shelf = record {
  items =
      record {
        product_id = 1;
        warehouse_id = 1;
        on_hand = pos 10;
        reserved = pos 4;
        reorder_level = pos 2;
        safety_stock = pos 1;
      }
      ∷ [];
  ledger = [];
  now = 7;
}

shelf-IsValid : IsValid shelf.items
shelf-IsValid = record {
  unique = (tt, tt);
  stocked = (record { reserved_nonneg = omega arith; reserved_within = omega arith }, tt);
}

abbrev order : Reference
order = record { ref_type = "sales_order"; ref_id = some 5; note = none }

abbrev line_of : ℕ → InventoryLine
line_of quantity = record { product_id = 1; warehouse_id = 1; quantity = quantity }

-- What a result holds, or the given value.
abbrev value_or {ℓ} : {A : Type ℓ} → A → Result A → A
value_or a (ok b) = b
value_or a (err e) = a

abbrev order_lines : List InventoryLine
order_lines = line_of 2 ∷ line_of 3 ∷ []

abbrev reserved_shelf : List InventoryMutationResult × InventoryDb
reserved_shelf = value_or ([], shelf) (apply reserve true order (map stock order_lines) shelf)

reserved_shelf-eq : apply reserve true order (map stock order_lines) shelf ≡ ok reserved_shelf
unfolding apply apply_lines apply_line build_statement reserve_statement run_statement ensure_row
    updated returned check_item sorted insert ◌+ℤ◌ ◌-ℤ◌
reserved_shelf-eq = refl

apply-HasMoved_example :
    HasMoved shelf reserved_shelf.1
      (λ p w. net_on_hand reserve true p w (map stock order_lines))
      (λ p w. net_reserved reserve true p w (map stock order_lines))
apply-HasMoved_example =
    apply-HasMoved reserve true order (map stock order_lines) shelf reserved_shelf.1
      reserved_shelf.0 shelf-IsValid reserved_shelf-eq

reserve_stock-eq : reserve_stock order order_lines shelf ≡ ok (reserved_shelf.0, reserved_shelf.1)
unfolding reserve_stock
reserve_stock-eq = reserved_shelf-eq

reserve_stock-reserves_example :
    (pos (demand 1 1 order_lines) ≤ℤ get_available 1 1 shelf)
    × ((row_at 1 1 reserved_shelf.1.items).reserved
        ≡ (row_at 1 1 shelf.items).reserved +ℤ pos (demand 1 1 order_lines))
    × ((row_at 1 1 reserved_shelf.1.items).on_hand ≡ (row_at 1 1 shelf.items).on_hand)
reserve_stock-reserves_example =
    reserve_stock-reserves order order_lines shelf reserved_shelf.1 reserved_shelf.0 shelf-IsValid
      reserve_stock-eq 1 1

release_stock-reserve_stock_example :
    (s : List InventoryMutationResult × InventoryDb) × (release_stock order order_lines
        reserved_shelf.1
      ≡ ok s)
    × IsSameStock shelf s.1
release_stock-reserve_stock_example =
    release_stock-reserve_stock order order order_lines shelf reserved_shelf shelf-IsValid
      reserve_stock-eq

sale-IsStocked : IsStocked (moved (change issue true (stock (line_of 3))) (row_at 1 1 shelf.items))
unfolding change ◌+ℤ◌ ◌-ℤ◌
sale-IsStocked = record { reserved_nonneg = omega arith; reserved_within = omega arith }

apply_line-IsMoved_example :
    (db' : InventoryDb) × (apply_line issue true order (stock (line_of 3)) shelf
      ≡ ok (
        mutation_result (moved (change issue true (stock (line_of 3))) (row_at 1 1 shelf.items)),
        db',
      ))
    × IsMoved issue true order (stock (line_of 3)) shelf db'
apply_line-IsMoved_example =
    apply_line-IsMoved issue true order (stock (line_of 3)) shelf shelf-IsValid tt sale-IsStocked

over_reserved :
    ¬ IsStocked (moved (change reserve true (stock (line_of 7))) (row_at 1 1 shelf.items))
unfolding change ◌+ℤ◌ ◌-ℤ◌
over_reserved k = let h = k.reserved_within in omega arith

apply_line-refused_example :
    apply_line reserve true order (stock (line_of 7)) shelf
    ≡ err (refusal reserve true (stock (line_of 7)) (row_at 1 1 shelf.items))
apply_line-refused_example =
    apply_line-refused reserve true order (stock (line_of 7)) shelf shelf-IsValid tt over_reserved

sold_too_much : ¬ ((row_at 1 1 shelf.items).reserved ≤ℤ (row_at 1 1 shelf.items).on_hand -ℤ pos 8)
unfolding ◌-ℤ◌
sold_too_much h = omega arith

issue_stock-integrity_error_example :
    issue_stock order false (line_of 8 ∷ []) shelf ≡ err integrity_error
issue_stock-integrity_error_example =
    issue_stock-integrity_error order (line_of 8) shelf shelf-IsValid (omega arith) sold_too_much
