-- ===== src/Inventory/Failures.antt =====
-- How a movement can fail.
use vyaparaflowai.Prelude.{
  ℕ, ◌<◌, ◌≡◌, refl, sym, ap, ◌∙◌, ◌⊎◌, ◌≢◌, Bool, true, false, ◌&&◌, List, [], ◌∷◌, arith, ◌==◌,
  if◌then◌else◌, inl, inr, All,
}
use mathlib.Core.Path.{subst}
use vyaparaflowai.Prelude.Int.{ℤ, pos, pos_part, neg_part, ◌+ℤ◌, ◌-ℤ◌, ◌≤ℤ◌, int_laws}
use vyaparaflowai.Prelude.Sorting.{insert, sorted, All-sorted}
use vyaparaflowai.Errors.{ok, err, conflict, integrity_error}
use vyaparaflowai.Inventory.Table.{StockMovementType, issue, InventoryItem, InventoryDb}
use vyaparaflowai.Inventory.Movements.{
  InventoryLine, Line, stock, line_product, line_warehouse, Reference, InventoryMutationResult,
  apply_lines, apply, sorts_before, mutation_result, issue_stock,
}
use vyaparaflowai.Inventory.Levels.{row_at, IsStocked, IsValid}
use vyaparaflowai.Inventory.Contract.{change, IsSupported, moved, entry, refusal, IsMoved}
use vyaparaflowai.Inventory.Refinement.{apply_line-IsMoved, apply_line-refused}
use vyaparaflowai.Inventory.Orders.{apply_line-inversion, apply_lines-cons, IsStocked-dec}

-- A failure by any other way than a direct sale.
abbrev pub IsGuarded : StockMovementType → Bool → Type 0
IsGuarded issue false = ⊥
IsGuarded movement from_reservation = Unit

refusal-conflict :
    (movement : StockMovementType) (fr : Bool) (line : Line) (item : InventoryItem)
    → IsGuarded movement fr
    → refusal movement fr line item ≡ conflict
unfolding refusal
refusal-conflict issue false line item h = absurd h
refusal-conflict issue true line item h = refl
refusal-conflict movement fr line item h = refl

module _ (movement : StockMovementType) (fr : Bool) (ref : Reference)
    (guarded : IsGuarded movement fr) where
  apply_lines_cases :
      (lines : List Line) (db : InventoryDb)
      → IsValid db.items
      → All (IsSupported movement) lines
      → ((r : List InventoryMutationResult × InventoryDb) × (apply_lines movement fr ref lines db
            ≡ ok r))
        ⊎ (apply_lines movement fr ref lines db ≡ err conflict)
  unfolding apply_lines
  apply_lines_cases [] db v s = inl (_, refl)
  apply_lines_cases (line ∷ lines) db v s =
      let before = row_at (line_product line) (line_warehouse line) db.items in
      elim (IsStocked-dec (moved (change movement fr line) before)) [
        | inl k ↦
            let (mid, e, m) = apply_line-IsMoved movement fr ref line db v s.0 k in
            elim (apply_lines_cases lines mid m.valid s.1) [
              | inl (r, e') ↦ inl (
                (mutation_result (moved (change movement fr line) before) ∷ r.0, r.1),
                rw (e, e'),
              )
              | inr e' ↦ inr (rw (e, e'))
            ]
        | inr k ↦ inr (
            rw (
              apply_line-refused movement fr ref line db v s.0 k,
              refusal-conflict movement fr line before guarded,
            ))
      ]

  -- In a well-formed table, every movement but a direct sale, of lines of the kind that it takes,
  -- either succeeds or raises `ConflictError`: its WHERE test
  -- stops whatever the constraints of the table would refuse.
  pub apply_cases :
      (lines : List Line) (db : InventoryDb)
      → IsValid db.items
      → All (IsSupported movement) lines
      → ((r : List InventoryMutationResult × InventoryDb) × (apply movement fr ref lines db ≡ ok r))
        ⊎ (apply movement fr ref lines db ≡ err conflict)
  unfolding apply
  apply_cases lines db v s =
      apply_lines_cases (sorted sorts_before lines) db v
        (All-sorted sorts_before (IsSupported movement) lines s)

sale_within :
    (item : InventoryItem) (q : ℕ)
    → IsStocked (moved (pos 0 -ℤ pos q, pos 0) item)
    → item.reserved ≤ℤ item.on_hand -ℤ pos q
sale_within item q k =
    let h : item.reserved +ℤ pos 0 ≤ℤ item.on_hand +ℤ (pos 0 -ℤ pos q) = k.reserved_within in
    omega int_laws

last_state :
    {x : InventoryMutationResult} {r : List InventoryMutationResult × InventoryDb}
    (db : InventoryDb) (rest : List InventoryMutationResult × InventoryDb)
    → ok ([], db) ≡ ok rest
    → r ≡ (x ∷ rest.0, rest.1)
    → db ≡ r.1
last_state db rest e f = cc

own_key {ℓ} : {A : Type ℓ} (a b : A) (p w : ℕ) → (if p == p && w == w then a else b) ≡ a
own_key a b p w = ground arith

lowered : (v : ℤ) (q : ℕ) → 0 < q → v +ℤ (pos 0 -ℤ pos q) ≢ v +ℤ pos 0
lowered v q h e =
    let f : pos_part (v +ℤ (pos 0 -ℤ pos q)) ≡ pos_part (v +ℤ pos 0) = ap pos_part e in
    let g : neg_part (v +ℤ (pos 0 -ℤ pos q)) ≡ neg_part (v +ℤ pos 0) = ap neg_part e in
    omega int_laws

sale_refusal :
    (item : InventoryItem) (l : InventoryLine)
    → pos l.quantity ≤ℤ item.on_hand
    → refusal issue false (stock l) item ≡ integrity_error
unfolding refusal
sale_refusal item l h = ground arith

module _ (ref : Reference) (l : InventoryLine) (db : InventoryDb) (v : IsValid db.items) where
  abbrev stocked_row : InventoryItem
  stocked_row = row_at l.product_id l.warehouse_id db.items

  -- In a well-formed table, a direct sale of goods that are there, but of which too few are left for
  -- the reservations, ends in an `IntegrityError`, which the caller does not get as a
  -- `ConflictError`.
  pub issue_stock-integrity_error :
      pos l.quantity ≤ℤ stocked_row.on_hand
      → ¬ (stocked_row.reserved ≤ℤ stocked_row.on_hand -ℤ pos l.quantity)
      → issue_stock ref false (l ∷ []) db ≡ err integrity_error
  unfolding issue_stock apply apply_lines sorted insert
  issue_stock-integrity_error there short =
      let refused =
        apply_line-refused issue false ref (stock l) db v tt
          (λ k. short (unfold change in sale_within stocked_row l.quantity k)) in
      rw (refused, sale_refusal stocked_row l there)

  issue_stock-IsMoved :
      (fr : Bool) {r : List InventoryMutationResult × InventoryDb}
      → issue_stock ref fr (l ∷ []) db ≡ ok r
      → IsMoved issue fr ref (stock l) db r.1
  unfolding issue_stock apply sorted insert
  issue_stock-IsMoved fr {r} e =
      let (first, rest, e1, e2, e3) = apply_lines-cons issue fr ref (stock l) [] db e in
      let nothing : ok ([], first.1) ≡ ok rest = unfold apply_lines in e2 in
      subst (IsMoved issue fr ref (stock l) db) (last_state first.1 rest nothing e3)
        (apply_line-inversion issue fr ref (stock l) db v e1).1

  -- In a well-formed table, a dispatch of reserved goods and a direct sale of as many, more than none
  -- and both accepted, write the same ledger row, though the
  -- one lowers `reserved` and the other does not: the ledger does not determine `reserved`.
  pub issue_stock-ledger_same :
      {r s : List InventoryMutationResult × InventoryDb}
      → 0 < l.quantity
      → issue_stock ref true (l ∷ []) db ≡ ok r
      → issue_stock ref false (l ∷ []) db ≡ ok s
      → (r.1.ledger ≡ s.1.ledger)
        × ((row_at l.product_id l.warehouse_id r.1.items).reserved
            ≢ (row_at l.product_id l.warehouse_id s.1.items).reserved)
  unfolding entry change
  issue_stock-ledger_same {r} {s} q e f =
      let m = issue_stock-IsMoved true e in
      let n = issue_stock-IsMoved false f in
      (
        m.logged ∙ sym n.logged,
        λ same. lowered stocked_row.reserved l.quantity q (
            sym (
              ap (λ (x : InventoryItem). x.reserved)
                (m.position l.product_id l.warehouse_id ∙ own_key _ _ l.product_id l.warehouse_id))
            ∙ same
            ∙ ap (λ (x : InventoryItem). x.reserved)
                (n.position l.product_id l.warehouse_id ∙ own_key _ _ l.product_id l.warehouse_id)),
      )
