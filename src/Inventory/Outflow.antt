-- ===== src/Inventory/Outflow.antt =====
-- What dispatches and direct sales (`issue`) do to the stock.
use vyaparaflowai.Prelude.{ℕ, ◌≡◌, ap, ◌∙◌, Bool, true, false, List, [], ◌∷◌, map, if◌then◌else◌}
use vyaparaflowai.Prelude.Int.{ℤ, pos, ◌+ℤ◌, ◌-ℤ◌, int_laws}
use vyaparaflowai.Errors.{ok}
use vyaparaflowai.Inventory.Table.{issue, InventoryDb}
use vyaparaflowai.Inventory.Movements.{
  InventoryLine, stock, Reference, InventoryMutationResult, issue_stock,
}
use vyaparaflowai.Inventory.Levels.{row_at, IsValid}
use vyaparaflowai.Inventory.Contract.{change}
use vyaparaflowai.Inventory.Orders.{net_on_hand, net_reserved, apply-HasMoved}
use vyaparaflowai.Inventory.Reservation.{demand}

net_on_hand-issue :
    (from_reservation : Bool) (p w : ℕ) (lines : List InventoryLine)
    → net_on_hand issue from_reservation p w (map stock lines) ≡ pos 0 -ℤ pos (demand p w lines)
unfolding change
net_on_hand-issue from_reservation p w [] = omega int_laws
net_on_hand-issue from_reservation p w (l ∷ ls) =
    rw (net_on_hand-issue from_reservation p w ls) (grind (int_laws))

net_reserved-issue :
    (from_reservation : Bool) (p w : ℕ) (lines : List InventoryLine)
    → net_reserved issue from_reservation p w (map stock lines)
      ≡ pos 0 -ℤ pos (if from_reservation then demand p w lines else 0)
unfolding change
net_reserved-issue true p w [] = omega int_laws
net_reserved-issue false p w [] = omega int_laws
net_reserved-issue true p w (l ∷ ls) = rw (net_reserved-issue true p w ls) (grind (int_laws))
net_reserved-issue false p w (l ∷ ls) = rw (net_reserved-issue false p w ls) (grind (int_laws))

-- What left the stock, and what of it was taken from the reservations.
pub record HasIssued (from_reservation : Bool) (lines : List InventoryLine) (db db' : InventoryDb)
    : Type 0 where
  pub valid : IsValid db'.items
  pub on_hand_fallen :
      (p w : ℕ)
      → (row_at p w db'.items).on_hand ≡ (row_at p w db.items).on_hand -ℤ pos (demand p w lines)
  pub reserved_fallen :
      (p w : ℕ)
      → (row_at p w db'.items).reserved
        ≡ (row_at p w db.items).reserved -ℤ pos (if from_reservation then demand p w lines else 0)

add_negative : (a : ℤ) (n : ℕ) → a +ℤ (pos 0 -ℤ pos n) ≡ a -ℤ pos n
add_negative a n = omega int_laws

-- In a well-formed table, an issue that succeeds takes exactly what its lines ask for from the stock
-- on hand, and from the reservations too if it is a dispatch.
pub issue_stock-HasIssued :
    (ref : Reference) (from_reservation : Bool) (lines : List InventoryLine) (db : InventoryDb)
    (r : List InventoryMutationResult × InventoryDb)
    → IsValid db.items
    → issue_stock ref from_reservation lines db ≡ ok r
    → HasIssued from_reservation lines db r.1
unfolding issue_stock
issue_stock-HasIssued ref from_reservation lines db r v e =
    let m = apply-HasMoved issue from_reservation ref (map stock lines) db r.1 r.0 v e in
    record {
      valid = m.valid;
      on_hand_fallen = λ p w.
          m.on_hand_moved p w
          ∙ (ap (λ n. (row_at p w db.items).on_hand +ℤ n)
                (net_on_hand-issue from_reservation p w lines)
              ∙ add_negative (row_at p w db.items).on_hand (demand p w lines));
      reserved_fallen = λ p w.
          m.reserved_moved p w
          ∙ (ap (λ n. (row_at p w db.items).reserved +ℤ n)
                (net_reserved-issue from_reservation p w lines)
              ∙ add_negative (row_at p w db.items).reserved
                  (if from_reservation then demand p w lines else 0));
    }
