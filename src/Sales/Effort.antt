-- ===== src/Sales/Effort.antt =====
-- What a best-effort reservation takes.
use vyaparaflowai.Prelude.{
  ℕ, ◌≡◌, refl, sym, ap, ◌∙◌, ◌⊎◌, inl, inr, true, false, ◌&&◌, List, [], ◌∷◌, subst, map, arith,
  ◌==◌, ltb, if◌then◌else◌, min, Bool-cases,
}
use vyaparaflowai.Prelude.Int.{ℤ, pos, negsuc, ◌+ℤ◌, ◌≤ℤ◌, leb_ℤ, pos_part, int_laws}
use vyaparaflowai.Prelude.Sorting.{insert, sorted}
use vyaparaflowai.Errors.{ok, err, conflict, ok-inj}
use vyaparaflowai.Inventory.{
  StockMovementType, InventoryItem, StockLedger, InventoryDb, InventoryLine,
  InventoryMutationResult, Reference, apply, apply_lines, available, stock, reserve_stock,
  get_available,
}
use vyaparaflowai.Inventory.Levels.{
  row_at, IsValid, row_at-ensure_row, ensure_row-IsValid, row_at-IsStocked,
}
use vyaparaflowai.Inventory.Failures.{apply_cases}
use vyaparaflowai.Inventory.Contract.{change, moved, entry, IsMoved}
use vyaparaflowai.Inventory.Orders.{apply-HasMoved, apply_lines-cons, apply_line-inversion}
use vyaparaflowai.Inventory.Reservation.{
  demand, reserve_stock-ok, reserve_stock-reserves, get_available-row_at,
}
use vyaparaflowai.Sales.Reserving.{
  order_reference, stock_line, reserve_all, after_conflict, reserve_available, best_effort_reserve,
}

-- At one key this much more is reserved, at the others as much as before, no stock moves, no setting
-- changes, and the ledger has at most one row more, on that.
pub record HasReserved (product_id warehouse_id quantity : ℕ) (db db' : InventoryDb) : Type 0 where
  pub valid : IsValid db'.items
  pub reserved_grown :
      (p w : ℕ)
      → (row_at p w db'.items).reserved
        ≡ (row_at p w db.items).reserved
          +ℤ pos (if p == product_id && w == warehouse_id then quantity else 0)
  pub on_hand_same : (p w : ℕ) → (row_at p w db'.items).on_hand ≡ (row_at p w db.items).on_hand
  pub settings_same :
      (p w : ℕ)
      → ((row_at p w db'.items).reorder_level ≡ (row_at p w db.items).reorder_level)
        × ((row_at p w db'.items).safety_stock ≡ (row_at p w db.items).safety_stock)
  pub logged :
      ((db'.ledger ≡ db.ledger) × (quantity ≡ 0))
      ⊎ ((row : StockLedger) × (db'.ledger ≡ row ∷ db.ledger)
          × (row.product_id ≡ product_id)
          × (row.warehouse_id ≡ warehouse_id)
          × (row.movement_type ≡ StockMovementType.reserve)
          × (row.qty_delta ≡ pos quantity))

-- What the call of `inventory.reserve` does to the position and the ledger.
reserve_stock-IsMoved :
    (ref : Reference) (line : InventoryLine) (db : InventoryDb)
    (r : List InventoryMutationResult × InventoryDb)
    → IsValid db.items
    → reserve_stock ref (line ∷ []) db ≡ ok r
    → IsMoved StockMovementType.reserve true ref (stock line) db r.1
unfolding reserve_stock apply apply_lines sorted insert
reserve_stock-IsMoved ref line db r v e =
    let (first, rest, e1, e2, e3) =
      apply_lines-cons StockMovementType.reserve true ref (stock line) [] db e in
    let m = (apply_line-inversion StockMovementType.reserve true ref (stock line) db v e1).1 in
    let same : first.1 ≡ r.1 =
      ap (λ (x : List InventoryMutationResult × InventoryDb). x.1) (ok-inj e2)
      ∙ sym (ap (λ (x : List InventoryMutationResult × InventoryDb). x.1) e3) in
    subst (IsMoved StockMovementType.reserve true ref (stock line) db) same m

moved-settings :
    (ref : Reference) (line : InventoryLine) (db db' : InventoryDb)
    → IsMoved StockMovementType.reserve true ref (stock line) db db'
    → (p w : ℕ)
    → ((row_at p w db'.items).reorder_level ≡ (row_at p w db.items).reorder_level)
      × ((row_at p w db'.items).safety_stock ≡ (row_at p w db.items).safety_stock)
moved-settings ref line db db' m p w =
    elim (Bool-cases (p == line.product_id && w == line.warehouse_id)) [
      | inr other ↦
          let same : row_at p w db'.items ≡ row_at p w db.items = rw (m.position p w, other) refl in
          (
            ap (λ (i : InventoryItem). i.reorder_level) same,
            ap (λ (i : InventoryItem). i.safety_stock) same,
          )
      | inl e ↦
          let product : p ≡ line.product_id = ground (arith, e) in
          let warehouse : w ≡ line.warehouse_id = ground (arith, e) in
          let there : row_at line.product_id line.warehouse_id db.items ≡ row_at p w db.items =
            ap (λ q. row_at q line.warehouse_id db.items) (sym product)
            ∙ ap (λ q. row_at p q db.items) (sym warehouse) in
          let grown : row_at p w db'.items
              ≡ moved (change StockMovementType.reserve true (stock line))
                  (row_at line.product_id line.warehouse_id db.items) =
            rw (m.position p w, e) refl in
          (
            ap (λ (i : InventoryItem). i.reorder_level) grown
                ∙ ap (λ (i : InventoryItem). i.reorder_level) there,
            ap (λ (i : InventoryItem). i.safety_stock) grown
                ∙ ap (λ (i : InventoryItem). i.safety_stock) there,
          )
    ]

ℤ-cases : (z : ℤ) → ((n : ℕ) × (z ≡ pos n)) ⊎ ((n : ℕ) × (z ≡ negsuc n))
ℤ-cases (pos n) = inl (n, refl)
ℤ-cases (negsuc n) = inr (n, refl)

module _ (product_id warehouse_id ref_id : ℕ) where
  demand-stock_line :
      (p w quantity : ℕ)
      → demand p w (stock_line product_id warehouse_id quantity ∷ [])
        ≡ (if p == product_id && w == warehouse_id then quantity else 0)
  demand-stock_line p w quantity = omega arith

  nonneg_available : (p w : ℕ) (db : InventoryDb) → IsValid db.items → pos 0 ≤ℤ get_available p w db
  nonneg_available p w db v =
      let k = row_at-IsStocked p w db.items v.stocked in
      rw (get_available-row_at p w db) (omega (int_laws, k.reserved_within))

  fits :
      (quantity : ℕ) (db : InventoryDb)
      → IsValid db.items
      → pos quantity ≤ℤ get_available product_id warehouse_id db
      → (p w : ℕ)
      → pos (demand p w (stock_line product_id warehouse_id quantity ∷ [])) ≤ℤ get_available p w db
  fits quantity db v enough p w =
      let nonneg = nonneg_available p w db v in
      elim (Bool-cases (p == product_id && w == warehouse_id)) [
        | inr e ↦ ground (arith, e, nonneg)
        | inl e ↦
            let product : p ≡ product_id = ground (arith, e) in
            let warehouse : w ≡ warehouse_id = ground (arith, e) in
            let same : get_available p w db ≡ get_available product_id warehouse_id db =
              ap (λ q. get_available q w db) product
              ∙ ap (λ q. get_available product_id q db) warehouse in
            rw (same, e) (omega (arith, enough))
      ]

  pub reserve_all-HasReserved :
      (quantity : ℕ) (db : InventoryDb)
      → IsValid db.items
      → pos quantity ≤ℤ get_available product_id warehouse_id db
      → (db' : InventoryDb) × (reserve_all product_id warehouse_id quantity ref_id db
          ≡ ok (quantity, db'))
        × HasReserved product_id warehouse_id quantity db db'
  unfolding reserve_all reserve_stock
  reserve_all-HasReserved quantity db v enough =
      let lines = stock_line product_id warehouse_id quantity ∷ [] in
      let ref = order_reference ref_id in
      let (r, e) = reserve_stock-ok ref lines db v (fits quantity db v enough) in
      let line_moved =
        reserve_stock-IsMoved ref (stock_line product_id warehouse_id quantity) db r v e in
      let m = apply-HasMoved StockMovementType.reserve true ref (map stock lines) db r.1 r.0 v e in
      let after = reserve_stock-reserves ref lines db r.1 r.0 v e in
      (
        r.1,
        rw e refl,
        record {
          valid = m.valid;
          reserved_grown = λ p w.
              let (_, grown, _) = after p w in
              grown
              ∙ ap (λ q. (row_at p w db.items).reserved +ℤ pos q) (demand-stock_line p w quantity);
          on_hand_same = λ p w. let (_, _, same) = after p w in same;
          settings_same =
              moved-settings ref (stock_line product_id warehouse_id quantity) db r.1 line_moved;
          logged = inr (
            _,
            line_moved.logged,
            unfold entry in refl,
            unfold entry in refl,
            unfold entry in refl,
            unfold entry in unfold change in refl,
          );
        },
      )

  reserve_all-refused :
      (quantity : ℕ) (db : InventoryDb)
      → IsValid db.items
      → leb_ℤ (pos quantity) (get_available product_id warehouse_id db) ≡ false
      → reserve_all product_id warehouse_id quantity ref_id db ≡ err conflict
  unfolding reserve_all reserve_stock
  reserve_all-refused quantity db v few =
      let lines = stock_line product_id warehouse_id quantity ∷ [] in
      let ref = order_reference ref_id in
      elim (apply_cases StockMovementType.reserve true ref tt (map stock lines) db v (tt, tt)) [
        | inr e ↦ rw e refl
        | inl (r, e) ↦
            let (enough, _, _) =
              reserve_stock-reserves ref lines db r.1 r.0 v e product_id warehouse_id in
            let no : ⊥ = ground (arith, few, enough) in absurd no
      ]

  -- The row that a refused call leaves changes no position.
  get_available-after_conflict :
      (db : InventoryDb)
      → get_available product_id warehouse_id (after_conflict product_id warehouse_id db)
        ≡ get_available product_id warehouse_id db
  get_available-after_conflict db =
      get_available-row_at product_id warehouse_id (after_conflict product_id warehouse_id db)
      ∙ (ap available (row_at-ensure_row product_id warehouse_id product_id warehouse_id db.items)
          ∙ sym (get_available-row_at product_id warehouse_id db))

  HasReserved-after_conflict :
      (quantity : ℕ) (db db' : InventoryDb)
      → HasReserved product_id warehouse_id quantity (after_conflict product_id warehouse_id db) db'
      → HasReserved product_id warehouse_id quantity db db'
  HasReserved-after_conflict quantity db db' h = record {
    valid = h.valid;
    reserved_grown = λ p w.
        h.reserved_grown p w
        ∙ ap
            (λ (row : InventoryItem).
              row.reserved +ℤ pos (if p == product_id && w == warehouse_id then quantity else 0))
            (row_at-ensure_row p w product_id warehouse_id db.items);
    on_hand_same = λ p w.
        h.on_hand_same p w
        ∙ ap (λ (row : InventoryItem). row.on_hand)
            (row_at-ensure_row p w product_id warehouse_id db.items);
    settings_same = λ p w.
        let same = row_at-ensure_row p w product_id warehouse_id db.items in
        (
          (h.settings_same p w).0 ∙ ap (λ (row : InventoryItem). row.reorder_level) same,
          (h.settings_same p w).1 ∙ ap (λ (row : InventoryItem). row.safety_stock) same,
        );
    logged = h.logged;
  }

  pub nothing-HasReserved :
      (db : InventoryDb) → IsValid db.items → HasReserved product_id warehouse_id 0 db db
  nothing-HasReserved db v = record {
    valid = v;
    reserved_grown = λ p w. grind (int_laws);
    on_hand_same = λ p w. refl;
    settings_same = λ p w. (refl, refl);
    logged = inl (refl, refl);
  }

  reserve_available-HasReserved :
      (db : InventoryDb)
      → IsValid db.items
      → (r : ℕ × InventoryDb) × (reserve_available product_id warehouse_id ref_id db ≡ ok r)
        × (r.0 ≡ pos_part (get_available product_id warehouse_id db))
        × HasReserved product_id warehouse_id r.0 db r.1
  unfolding reserve_available
  reserve_available-HasReserved db v = elim (ℤ-cases (get_available product_id warehouse_id db)) [
    | inr (n, e) ↦ ((0, db), rw (reserve_available, e) refl, rw e refl, nothing-HasReserved db v)
    | inl (n, e) ↦ elim (Bool-cases (ltb 0 n)) [
      | inr empty ↦ (
        (0, db),
        rw (reserve_available, e, empty) refl,
        rw e (ground (arith, empty)),
        nothing-HasReserved db v,
      )
      | inl some_left ↦
          let (db', taken, h) = reserve_all-HasReserved n db v (rw e (omega arith)) in
          ((n, db'), rw (reserve_available, e, some_left, taken) refl, rw e refl, h)
    ]
  ]

  -- In a well-formed table a best-effort reservation never fails: it reserves the quantity or, where
  -- less is available, all that is, adds exactly that to what is reserved of the product in the
  -- warehouse and nothing to what is reserved elsewhere, moves no stock, changes no reorder level and
  -- no safety stock, and adds one row on it to the ledger or, where it reserves nothing, at most one.
  pub best_effort_reserve-HasReserved :
      (quantity : ℕ) (db : InventoryDb)
      → IsValid db.items
      → (r : ℕ × InventoryDb) × (best_effort_reserve product_id warehouse_id quantity ref_id db
          ≡ ok r)
        × (r.0 ≡ min quantity (pos_part (get_available product_id warehouse_id db)))
        × HasReserved product_id warehouse_id r.0 db r.1
  unfolding best_effort_reserve
  best_effort_reserve-HasReserved quantity db v =
      let stock_left = get_available product_id warehouse_id db in
      let nonneg = nonneg_available product_id warehouse_id db v in
      elim (Bool-cases (leb_ℤ (pos quantity) stock_left)) [
        | inl enough ↦
            let (db', e, h) = reserve_all-HasReserved quantity db v (ground (arith, enough)) in
            ((quantity, db'), rw e refl, ground (arith, enough), h)
        | inr few ↦
            let opened = after_conflict product_id warehouse_id db in
            let same = get_available-after_conflict db in
            let (r, e, n, h) =
              reserve_available-HasReserved opened
                (ensure_row-IsValid product_id warehouse_id db.items v) in
            (
              r,
              rw (reserve_all-refused quantity db v few, e) refl,
              n ∙ (ap pos_part same ∙ ground (arith, few, nonneg)),
              HasReserved-after_conflict r.0 db r.1 h,
            )
      ]
