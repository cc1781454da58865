-- ===== src/Receiving/Stocking.antt =====
-- What a goods receipt brings into the stock.
use vyaparaflowai.Prelude.{
  ℕ, ◌≡◌, refl, sym, ap, ◌∙◌, ◌&&◌, List, [], ◌∷◌, arith, ◌==◌, if◌then◌else◌, total,
}
use vyaparaflowai.Prelude.Int.{ℤ, pos, ◌+ℤ◌, int_laws}
use vyaparaflowai.Errors.{ok}
use vyaparaflowai.Inventory.{InventoryDb, InventoryLine, Reference}
use vyaparaflowai.Inventory.Levels.{row_at, IsValid}
use vyaparaflowai.Inventory.Reservation.{demand}
use vyaparaflowai.Inventory.Intake.{HasTakenIn, receive_stock-HasTakenIn}
use vyaparaflowai.Purchase.{GoodsReceiptItem}
use vyaparaflowai.Receiving.Receipts.{receive_lines, receive_accepted}

add_zero : (a : ℤ) → a +ℤ pos 0 ≡ a
add_zero a = omega int_laws

-- What the rows of a receipt bring of a product into its warehouse.
abbrev pub brought : (warehouse_id product warehouse : ℕ) → List GoodsReceiptItem → ℕ
brought warehouse_id product warehouse rows =
    total
      (λ row.
        if product == row.product_id && warehouse == warehouse_id then row.accepted_quantity else 0)
      rows

demand-receive_lines :
    (warehouse_id p w : ℕ) (rows : List GoodsReceiptItem)
    → demand p w (receive_lines warehouse_id rows) ≡ brought warehouse_id p w rows
unfolding receive_lines
demand-receive_lines warehouse_id p w [] = refl
demand-receive_lines warehouse_id p w (row ∷ rows) =
    ground (arith, demand-receive_lines warehouse_id p w rows)

-- The stock after a receipt of these rows.
pub record HasReceived (warehouse_id : ℕ) (rows : List GoodsReceiptItem) (db db' : InventoryDb)
    : Type 0 where
  pub valid : IsValid db'.items
  pub on_hand_grown :
      (p w : ℕ)
      → (row_at p w db'.items).on_hand
        ≡ (row_at p w db.items).on_hand +ℤ pos (brought warehouse_id p w rows)
  pub reserved_same : (p w : ℕ) → (row_at p w db'.items).reserved ≡ (row_at p w db.items).reserved

receive_accepted-HasTakenIn :
    (ref : Reference) (lines : List InventoryLine) (db : InventoryDb)
    → IsValid db.items
    → (db' : InventoryDb) × (receive_accepted ref lines db ≡ ok db') × HasTakenIn lines db db'
unfolding receive_accepted
receive_accepted-HasTakenIn ref [] db v = (
  db,
  refl,
  record { valid = v; on_hand_grown = λ p w. sym (add_zero _); reserved_same = λ p w. refl },
)
receive_accepted-HasTakenIn ref (line ∷ lines) db v =
    let (r, e, taken) = receive_stock-HasTakenIn ref (line ∷ lines) db v in (r.1, rw e refl, taken)

pub receive_accepted-HasReceived :
    (ref : Reference) (warehouse_id : ℕ) (rows : List GoodsReceiptItem) (db : InventoryDb)
    → IsValid db.items
    → (db' : InventoryDb) × (receive_accepted ref (receive_lines warehouse_id rows) db ≡ ok db')
      × HasReceived warehouse_id rows db db'
receive_accepted-HasReceived ref warehouse_id rows db v =
    let (db', e, taken) = receive_accepted-HasTakenIn ref (receive_lines warehouse_id rows) db v in
    (
      db',
      e,
      record {
        valid = taken.valid;
        on_hand_grown = λ p w.
            taken.on_hand_grown p w
            ∙ ap (λ n. (row_at p w db.items).on_hand +ℤ pos n)
                (demand-receive_lines warehouse_id p w rows);
        reserved_same = taken.reserved_same;
      },
    )
