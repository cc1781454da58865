-- ===== src/Inventory/Intake.antt =====
-- What receipts (`receive`) do to the stock.
use vyaparaflowai.Prelude.{ℕ, ◌≡◌, refl, ap, ◌∙◌, true, List, [], ◌∷◌, map, arith, All}
use vyaparaflowai.Prelude.Int.{pos, ◌+ℤ◌, int_laws}
use vyaparaflowai.Prelude.Sorting.{sorted, All-sorted}
use vyaparaflowai.Errors.{ok}
use vyaparaflowai.Inventory.Table.{receipt, InventoryDb}
use vyaparaflowai.Inventory.Movements.{
  InventoryLine, Line, stock, correction, Reference, InventoryMutationResult, apply_lines, apply,
  sorts_before, mutation_result, receive_stock,
}
use vyaparaflowai.Inventory.Levels.{row_at, IsStocked, IsValid, row_at-IsStocked}
use vyaparaflowai.Inventory.Contract.{change, IsSupported, moved}
use vyaparaflowai.Inventory.Refinement.{apply_line-IsMoved}
use vyaparaflowai.Inventory.Orders.{net_on_hand, net_reserved, apply-HasMoved}
use vyaparaflowai.Inventory.Reservation.{demand}

map-IsSupported : (lines : List InventoryLine) → All (IsSupported receipt) (map stock lines)
map-IsSupported [] = tt
map-IsSupported (l ∷ ls) = (tt, map-IsSupported ls)

net_on_hand-demand :
    (p w : ℕ) (lines : List InventoryLine)
    → net_on_hand receipt true p w (map stock lines) ≡ pos (demand p w lines)
unfolding change
net_on_hand-demand p w [] = refl
net_on_hand-demand p w (l ∷ ls) = rw (net_on_hand-demand p w ls) (unfold ◌+ℤ◌ in ground arith)

net_reserved-receipt :
    (p w : ℕ) (lines : List InventoryLine) → net_reserved receipt true p w (map stock lines) ≡ pos 0
unfolding change
net_reserved-receipt p w [] = refl
net_reserved-receipt p w (l ∷ ls) = rw (net_reserved-receipt p w ls) (unfold ◌+ℤ◌ in ground arith)

-- What an intake of some lines does.
pub record HasTakenIn (lines : List InventoryLine) (db db' : InventoryDb) : Type 0 where
  pub valid : IsValid db'.items
  pub on_hand_grown :
      (p w : ℕ)
      → (row_at p w db'.items).on_hand ≡ (row_at p w db.items).on_hand +ℤ pos (demand p w lines)
  pub reserved_same : (p w : ℕ) → (row_at p w db'.items).reserved ≡ (row_at p w db.items).reserved

module _ (ref : Reference) where
  brings_IsStocked :
      (l : InventoryLine) (db : InventoryDb)
      → IsValid db.items
      → IsStocked
          (moved (change receipt true (stock l)) (row_at l.product_id l.warehouse_id db.items))
  unfolding change
  brings_IsStocked l db v =
      let k = row_at-IsStocked l.product_id l.warehouse_id db.items v.stocked in grind (int_laws)

  apply_lines-receipt :
      (lines : List Line) (db : InventoryDb)
      → IsValid db.items
      → All (IsSupported receipt) lines
      → (r : List InventoryMutationResult × InventoryDb) × (apply_lines receipt true ref lines db
          ≡ ok r)
  unfolding apply_lines
  apply_lines-receipt [] db v s = (([], db), refl)
  apply_lines-receipt (correction l ∷ lines) db v s = absurd s.0
  apply_lines-receipt (stock l ∷ lines) db v s =
      let before = row_at l.product_id l.warehouse_id db.items in
      let (mid, e, m) =
        apply_line-IsMoved receipt true ref (stock l) db v tt (brings_IsStocked l db v) in
      let (r, e') = apply_lines-receipt lines mid m.valid s.1 in
      ((mutation_result (moved (change receipt true (stock l)) before) ∷ r.0, r.1), rw (e, e'))

  -- In a well-formed table an intake is always accepted; the stock on hand grows by exactly what it
  -- brings, and no reservation changes.
  pub receive_stock-HasTakenIn :
      (lines : List InventoryLine) (db : InventoryDb)
      → IsValid db.items
      → (r : List InventoryMutationResult × InventoryDb) × (receive_stock ref lines db ≡ ok r)
        × HasTakenIn lines db r.1
  unfolding receive_stock apply
  receive_stock-HasTakenIn lines db v =
      let (r, e) =
        apply_lines-receipt (sorted sorts_before (map stock lines)) db v (
          All-sorted sorts_before (IsSupported receipt) (map stock lines)
            (map-IsSupported lines)) in
      let m = apply-HasMoved receipt true ref (map stock lines) db r.1 r.0 v e in
      (
        r,
        e,
        record {
          valid = m.valid;
          on_hand_grown = λ p w.
              m.on_hand_moved p w
              ∙ ap (λ n. (row_at p w db.items).on_hand +ℤ n) (net_on_hand-demand p w lines);
          reserved_same =
              λ p w. m.reserved_moved p w ∙ rw (net_reserved-receipt p w lines) (omega int_laws);
        },
      )
