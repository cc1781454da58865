-- ===== src/Inventory/Reservation.antt =====
-- When an order can be reserved, and what a reservation does (`reserve`).
use vyaparaflowai.Prelude.{
  ℕ, ◌+◌, ◌≡◌, refl, sym, ap, ◌∙◌, true, ◌&&◌, List, [], ◌∷◌, map, arith, ◌==◌, if◌then◌else◌, inl,
  inr, Option-cases, All, total,
}
use mathlib.Core.Path.{subst, subst₂}
use vyaparaflowai.Prelude.Int.{ℤ, pos, ◌+ℤ◌, ◌-ℤ◌, ◌≤ℤ◌, int_laws}
use vyaparaflowai.Prelude.Sorting.{sorted, total-sorted, All-sorted}
use vyaparaflowai.Errors.{ok}
use vyaparaflowai.Inventory.Table.{reserve, InventoryDb, find_item, available}
use vyaparaflowai.Inventory.Movements.{
  InventoryLine, Line, stock, correction, Reference, InventoryMutationResult, apply_lines, apply,
  sorts_before, mutation_result, reserve_stock,
}
use vyaparaflowai.Inventory.Reads.{get_available}
use vyaparaflowai.Inventory.Levels.{row_at, IsStocked, IsValid, row_at-IsStocked}
use vyaparaflowai.Inventory.Contract.{change, IsSupported, moved, IsMoved}
use vyaparaflowai.Inventory.Refinement.{apply_line-IsMoved}
use vyaparaflowai.Inventory.Orders.{is_at, net_on_hand, net_reserved, apply-HasMoved}

-- What an order asks for at one key.
abbrev pub demand : ℕ → ℕ → List InventoryLine → ℕ
demand product warehouse lines =
    total
      (λ line.
        if product == line.product_id && warehouse == line.warehouse_id then line.quantity else 0)
      lines

unfoldable pub quantity_of : Line → ℕ
quantity_of (stock l) = l.quantity
quantity_of (correction l) = 0

unfoldable pub asked : ℕ → ℕ → List Line → ℕ
asked product warehouse lines =
    total (λ line. if is_at product warehouse line then quantity_of line else 0) lines

asked-map : (p w : ℕ) (lines : List InventoryLine) → asked p w (map stock lines) ≡ demand p w lines
unfolding asked quantity_of
asked-map p w [] = refl
asked-map p w (l ∷ ls) =
    ap (λ (n : ℕ). (if p == l.product_id && w == l.warehouse_id then l.quantity else 0) + n)
      (asked-map p w ls)

pub asked-sorted :
    (p w : ℕ) (lines : List InventoryLine)
    → asked p w (sorted sorts_before (map stock lines)) ≡ demand p w lines
unfolding asked
asked-sorted p w lines = total-sorted sorts_before _ (map stock lines) ∙ asked-map p w lines

map-IsSupported : (lines : List InventoryLine) → All (IsSupported reserve) (map stock lines)
map-IsSupported [] = tt
map-IsSupported (l ∷ ls) = (tt, map-IsSupported ls)

net_reserved-demand :
    (p w : ℕ) (lines : List InventoryLine)
    → net_reserved reserve true p w (map stock lines) ≡ pos (demand p w lines)
unfolding change
net_reserved-demand p w [] = refl
net_reserved-demand p w (l ∷ ls) = rw (net_reserved-demand p w ls) (unfold ◌+ℤ◌ in ground arith)

net_on_hand-reserve :
    (p w : ℕ) (lines : List InventoryLine) → net_on_hand reserve true p w (map stock lines) ≡ pos 0
unfolding change
net_on_hand-reserve p w [] = refl
net_on_hand-reserve p w (l ∷ ls) = rw (net_on_hand-reserve p w ls) (unfold ◌+ℤ◌ in ground arith)

pub get_available-row_at :
    (p w : ℕ) (db : InventoryDb) → get_available p w db ≡ available (row_at p w db.items)
unfolding get_available ◌-ℤ◌
get_available-row_at p w db = elim (Option-cases (find_item p w db.items)) [
  | inl e ↦ rw (e, get_available, row_at)
  | inr (x, e) ↦ rw (e, get_available, row_at)
]

covered :
    (on_hand reserved : ℤ) (n : ℕ) → reserved +ℤ pos n ≤ℤ on_hand → pos n ≤ℤ on_hand -ℤ reserved
covered on_hand reserved n h = omega int_laws

module _ (ref : Reference) where
  first_fits :
      (l : InventoryLine) (lines : List Line) (db : InventoryDb)
      → IsValid db.items
      → pos (asked l.product_id l.warehouse_id (stock l ∷ lines))
        ≤ℤ available (row_at l.product_id l.warehouse_id db.items)
      → IsStocked
          (moved (change reserve true (stock l)) (row_at l.product_id l.warehouse_id db.items))
  unfolding change asked quantity_of
  first_fits l lines db v h =
      let k = row_at-IsStocked l.product_id l.warehouse_id db.items v.stocked in grind (int_laws)

  rest_fits :
      (l : InventoryLine) (lines : List Line) (db mid : InventoryDb) (p w : ℕ)
      → IsMoved reserve true ref (stock l) db mid
      → pos (asked p w (stock l ∷ lines)) ≤ℤ available (row_at p w db.items)
      → pos (asked p w lines) ≤ℤ available (row_at p w mid.items)
  unfolding change asked quantity_of
  rest_fits l lines db mid p w m h = grind (int_laws, m.position p w)

  apply_lines-reserve :
      (lines : List Line) (db : InventoryDb)
      → IsValid db.items
      → All (IsSupported reserve) lines
      → ((p w : ℕ) → pos (asked p w lines) ≤ℤ available (row_at p w db.items))
      → (r : List InventoryMutationResult × InventoryDb) × (apply_lines reserve true ref lines db
          ≡ ok r)
  unfolding apply_lines
  apply_lines-reserve [] db v s fits = (([], db), refl)
  apply_lines-reserve (correction l ∷ lines) db v s fits = absurd s.0
  apply_lines-reserve (stock l ∷ lines) db v s fits =
      let before = row_at l.product_id l.warehouse_id db.items in
      let (mid, e, m) =
        apply_line-IsMoved reserve true ref (stock l) db v tt
          (first_fits l lines db v (fits l.product_id l.warehouse_id)) in
      let (r, e') =
        apply_lines-reserve lines mid m.valid s.1
          (λ p w. rest_fits l lines db mid p w m (fits p w)) in
      ((mutation_result (moved (change reserve true (stock l)) before) ∷ r.0, r.1), rw (e, e'))

  -- In a well-formed table, an order whose demand for each product and warehouse is within what is available there is
  -- reserved, also when several of its lines ask for the same stock.
  pub reserve_stock-ok :
      (lines : List InventoryLine) (db : InventoryDb)
      → IsValid db.items
      → ((p w : ℕ) → pos (demand p w lines) ≤ℤ get_available p w db)
      → (r : List InventoryMutationResult × InventoryDb) × (reserve_stock ref lines db ≡ ok r)
  unfolding reserve_stock apply
  reserve_stock-ok lines db v fits =
      apply_lines-reserve (sorted sorts_before (map stock lines)) db v
        (All-sorted sorts_before (IsSupported reserve) (map stock lines) (map-IsSupported lines))
        (λ p w.
          subst (λ (n : ℕ). pos n ≤ℤ available (row_at p w db.items)) (sym (asked-sorted p w lines))
            (subst (λ (a : ℤ). pos (demand p w lines) ≤ℤ a) (get_available-row_at p w db)
              (fits p w)))

  -- In a well-formed table, the demand of an order that is reserved was within what was available, for
  -- each product and warehouse; the reservations there grow by exactly that demand, and no stock moves.
  pub reserve_stock-reserves :
      (lines : List InventoryLine) (db db' : InventoryDb) (results : List InventoryMutationResult)
      → IsValid db.items
      → reserve_stock ref lines db ≡ ok (results, db')
      → (p w : ℕ)
      → (pos (demand p w lines) ≤ℤ get_available p w db)
        × ((row_at p w db'.items).reserved
            ≡ (row_at p w db.items).reserved +ℤ pos (demand p w lines))
        × ((row_at p w db'.items).on_hand ≡ (row_at p w db.items).on_hand)
  unfolding reserve_stock
  reserve_stock-reserves lines db db' results v e p w =
      let m = apply-HasMoved reserve true ref (map stock lines) db db' results v e in
      let k = row_at-IsStocked p w db'.items m.valid.stocked in
      let r : (row_at p w db'.items).reserved
          ≡ (row_at p w db.items).reserved +ℤ pos (demand p w lines) =
        rw (← net_reserved-demand p w lines) (m.reserved_moved p w) in
      let o : (row_at p w db'.items).on_hand ≡ (row_at p w db.items).on_hand =
        m.on_hand_moved p w ∙ rw (net_on_hand-reserve p w lines) (omega int_laws) in
      (
        rw (get_available-row_at p w db)
            (covered _ _ _ (subst₂ (λ a b. a ≤ℤ b) r o k.reserved_within)),
        r,
        o,
      )
