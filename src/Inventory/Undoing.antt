-- ===== src/Inventory/Undoing.antt =====
-- What `release` takes back of what `reserve` did.
use vyaparaflowai.Prelude.{ℕ, ◌≡◌, refl, sym, ap, ◌∙◌, subst, true, List, [], ◌∷◌, map, arith, All}
use vyaparaflowai.Prelude.Int.{ℤ, pos, ◌+ℤ◌, ◌-ℤ◌, ◌≤ℤ◌, int_laws}
use vyaparaflowai.Prelude.Sorting.{sorted, All-sorted}
use vyaparaflowai.Errors.{ok}
use vyaparaflowai.Inventory.Table.{StockMovementType, release, InventoryDb}
use vyaparaflowai.Inventory.Movements.{
  InventoryLine, Line, stock, correction, Reference, InventoryMutationResult, apply_lines, apply,
  sorts_before, mutation_result, reserve_stock, release_stock,
}
use vyaparaflowai.Inventory.Levels.{row_at, IsStocked, IsValid, row_at-IsStocked}
use vyaparaflowai.Inventory.Contract.{change, IsSupported, moved, IsMoved}
use vyaparaflowai.Inventory.Refinement.{apply_line-IsMoved}
use vyaparaflowai.Inventory.Orders.{net_on_hand, net_reserved, apply-HasMoved}
use vyaparaflowai.Inventory.Reservation.{
  demand, quantity_of, asked, asked-sorted, reserve_stock-reserves,
}

map-IsSupported : (lines : List InventoryLine) → All (IsSupported release) (map stock lines)
map-IsSupported [] = tt
map-IsSupported (l ∷ ls) = (tt, map-IsSupported ls)

net_reserved-release :
    (p w : ℕ) (lines : List InventoryLine)
    → net_reserved release true p w (map stock lines) ≡ pos 0 -ℤ pos (demand p w lines)
unfolding change
net_reserved-release p w [] = omega int_laws
net_reserved-release p w (l ∷ ls) = rw (net_reserved-release p w ls) (grind (int_laws))

net_on_hand-release :
    (p w : ℕ) (lines : List InventoryLine) → net_on_hand release true p w (map stock lines) ≡ pos 0
unfolding change
net_on_hand-release p w [] = refl
net_on_hand-release p w (l ∷ ls) = rw (net_on_hand-release p w ls) (unfold ◌+ℤ◌ in ground arith)

-- The same stock, with the same reservations.
pub record IsSameStock (db db' : InventoryDb) : Type 0 where
  pub valid : IsValid db'.items
  pub on_hand_same : (p w : ℕ) → (row_at p w db'.items).on_hand ≡ (row_at p w db.items).on_hand
  pub reserved_same : (p w : ℕ) → (row_at p w db'.items).reserved ≡ (row_at p w db.items).reserved

module _ (ref : Reference) where
  first_is_reserved :
      (l : InventoryLine) (lines : List Line) (db : InventoryDb)
      → IsValid db.items
      → pos (asked l.product_id l.warehouse_id (stock l ∷ lines))
        ≤ℤ (row_at l.product_id l.warehouse_id db.items).reserved
      → IsStocked
          (moved (change release true (stock l)) (row_at l.product_id l.warehouse_id db.items))
  unfolding change asked quantity_of
  first_is_reserved l lines db v h =
      let k = row_at-IsStocked l.product_id l.warehouse_id db.items v.stocked in grind (int_laws)

  rest_is_reserved :
      (l : InventoryLine) (lines : List Line) (db mid : InventoryDb) (p w : ℕ)
      → IsMoved release true ref (stock l) db mid
      → pos (asked p w (stock l ∷ lines)) ≤ℤ (row_at p w db.items).reserved
      → pos (asked p w lines) ≤ℤ (row_at p w mid.items).reserved
  unfolding change asked quantity_of
  rest_is_reserved l lines db mid p w m h = grind (int_laws, m.position p w)

  apply_lines-release :
      (lines : List Line) (db : InventoryDb)
      → IsValid db.items
      → All (IsSupported release) lines
      → ((p w : ℕ) → pos (asked p w lines) ≤ℤ (row_at p w db.items).reserved)
      → (r : List InventoryMutationResult × InventoryDb) × (apply_lines release true ref lines db
          ≡ ok r)
  unfolding apply_lines
  apply_lines-release [] db v s h = (([], db), refl)
  apply_lines-release (correction l ∷ lines) db v s h = absurd s.0
  apply_lines-release (stock l ∷ lines) db v s h =
      let before = row_at l.product_id l.warehouse_id db.items in
      let (mid, e, m) =
        apply_line-IsMoved release true ref (stock l) db v tt
          (first_is_reserved l lines db v (h l.product_id l.warehouse_id)) in
      let (r, e') =
        apply_lines-release lines mid m.valid s.1
          (λ p w. rest_is_reserved l lines db mid p w m (h p w)) in
      ((mutation_result (moved (change release true (stock l)) before) ∷ r.0, r.1), rw (e, e'))

there_and_back : (a : ℤ) (n : ℕ) → (a +ℤ pos n) +ℤ (pos 0 -ℤ pos n) ≡ a
there_and_back a n = omega int_laws

unchanged : (a : ℤ) → a +ℤ pos 0 ≡ a
unchanged a = omega int_laws

nonneg_sum : (a : ℤ) (n : ℕ) → pos 0 ≤ℤ a → pos n ≤ℤ a +ℤ pos n
nonneg_sum a n h = omega int_laws

-- In a well-formed table, the lines that were reserved are released again without a failure, whatever
-- is noted with them, and the stock and the reservations are then as they were before.
pub release_stock-reserve_stock :
    (ref undo : Reference) (lines : List InventoryLine) (db : InventoryDb)
    (r : List InventoryMutationResult × InventoryDb)
    → IsValid db.items
    → reserve_stock ref lines db ≡ ok r
    → (s : List InventoryMutationResult × InventoryDb) × (release_stock undo lines r.1 ≡ ok s)
      × IsSameStock db s.1
unfolding reserve_stock release_stock apply
release_stock-reserve_stock ref undo lines db r v e =
    let m = apply-HasMoved StockMovementType.reserve true ref (map stock lines) db r.1 r.0 v e in
    let taken = reserve_stock-reserves ref lines db r.1 r.0 v e in
    let (s, e') =
      apply_lines-release undo (sorted sorts_before (map stock lines)) r.1 m.valid
        (All-sorted sorts_before (IsSupported release) (map stock lines) (map-IsSupported lines))
        (λ p w.
          let (_, grown, _) = taken p w in
          let k = row_at-IsStocked p w db.items v.stocked in
          subst (λ (n : ℕ). pos n ≤ℤ (row_at p w r.1.items).reserved) (sym (asked-sorted p w lines))
            (subst (λ (a : ℤ). pos (demand p w lines) ≤ℤ a) (sym grown)
              (nonneg_sum (row_at p w db.items).reserved (demand p w lines) k.reserved_nonneg))) in
    let back = apply-HasMoved release true undo (map stock lines) r.1 s.1 s.0 m.valid e' in
    (
      s,
      e',
      record {
        valid = back.valid;
        on_hand_same = λ p w.
            let (_, _, same) = taken p w in
            back.on_hand_moved p w
            ∙ (ap (λ n. (row_at p w r.1.items).on_hand +ℤ n) (net_on_hand-release p w lines)
                ∙ (unchanged (row_at p w r.1.items).on_hand ∙ same));
        reserved_same = λ p w.
            let (_, grown, _) = taken p w in
            back.reserved_moved p w
            ∙ (ap (λ n. (row_at p w r.1.items).reserved +ℤ n) (net_reserved-release p w lines)
                ∙ (ap (λ a. a +ℤ (pos 0 -ℤ pos (demand p w lines))) grown
                    ∙ there_and_back (row_at p w db.items).reserved (demand p w lines)));
      },
    )
