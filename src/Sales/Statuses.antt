-- ===== src/Sales/Statuses.antt =====
-- The status of an order against the lines of the answer.
use vyaparaflowai.Prelude.{
  ℕ, ◌+◌, ◌≤◌, ◌≡◌, refl, ◌⊎◌, inl, inr, true, false, List, [], ◌∷◌, arith, any, all, All,
  Bool-cases,
}
use vyaparaflowai.Prelude.Int.{ℤ, pos, ◌-ℤ◌, ◌≤ℤ◌, pos_part, neg_part}
use vyaparaflowai.Inventory.{InventoryDb, get_available}
use vyaparaflowai.Sales.Tables.{SalesOrderStatus, confirmed, partially_reserved, reserved}
use vyaparaflowai.Sales.Requests.{SalesOrderLineResult}
use vyaparaflowai.Sales.Reserving.{is_short, is_covered, is_reserved, finalize_status}

-- A line that is reserved in full, or as far as there was stock; and what it says it lacks.
pub record IsFilled (warehouse_id : ℕ) (db : InventoryDb) (line : SalesOrderLineResult)
    : Type 0 where
  pub within : line.reserved_qty ≤ line.quantity
  pub short : line.shortage_qty ≡ pos line.quantity -ℤ pos line.reserved_qty
  pub exhausted :
      (line.reserved_qty ≡ line.quantity) ⊎ (get_available line.product_id warehouse_id db ≤ℤ pos 0)

-- What is said of the lines by each status that a reservation can leave.
abbrev pub IsStatusOf : SalesOrderStatus → List SalesOrderLineResult → Type 0
IsStatusOf reserved lines =
    All (λ (l : SalesOrderLineResult). l.reserved_qty ≡ l.quantity) lines
    × (any is_short lines ≡ false)
IsStatusOf partially_reserved lines = (any is_reserved lines ≡ true) × (any is_short lines ≡ true)
IsStatusOf confirmed lines =
    All (λ (l : SalesOrderLineResult). l.reserved_qty ≡ 0) lines × (any is_short lines ≡ true)
IsStatusOf _ lines = ⊥

shortage_parts :
    (quantity taken : ℕ) (shortage : ℤ)
    → taken ≤ quantity
    → shortage ≡ pos quantity -ℤ pos taken
    → (pos_part shortage + taken ≡ quantity) × (neg_part shortage ≡ 0)
unfolding ◌-ℤ◌
shortage_parts quantity taken shortage h e = rw e (ground (arith, h))

module _ (warehouse_id : ℕ) (db : InventoryDb) where
  covered_all :
      (lines : List SalesOrderLineResult)
      → All (IsFilled warehouse_id db) lines
      → all is_covered lines ≡ true
      → All (λ (l : SalesOrderLineResult). l.reserved_qty ≡ l.quantity) lines
        × (any is_short lines ≡ false)
  covered_all [] h e = (tt, refl)
  covered_all (l ∷ lines) h e =
      let (p, n) = shortage_parts l.quantity l.reserved_qty l.shortage_qty h.0.within h.0.short in
      let (all_full, none_short) = covered_all lines h.1 (ground (arith, e)) in
      ((ground (arith, e, p, n), all_full), ground (arith, e, p, n, none_short))

  uncovered :
      (lines : List SalesOrderLineResult)
      → All (IsFilled warehouse_id db) lines
      → all is_covered lines ≡ false
      → any is_short lines ≡ true
  uncovered [] h e = cc
  uncovered (l ∷ lines) h e =
      let (p, n) = shortage_parts l.quantity l.reserved_qty l.shortage_qty h.0.within h.0.short in
      elim (Bool-cases (all is_covered lines)) [
        | inl covered ↦ ground (arith, e, p, n, covered)
        | inr open_lines ↦ ground (arith, uncovered lines h.1 open_lines)
      ]

  unreserved :
      (lines : List SalesOrderLineResult)
      → any is_reserved lines ≡ false
      → All (λ (l : SalesOrderLineResult). l.reserved_qty ≡ 0) lines
  unreserved [] e = tt
  unreserved (l ∷ lines) e = (ground (arith, e), unreserved lines (ground (arith, e)))

  -- The status says whether the lines are reserved in full, in part or not at all.
  pub finalize_status-IsStatusOf :
      (lines : List SalesOrderLineResult)
      → All (IsFilled warehouse_id db) lines
      → IsStatusOf (finalize_status lines) lines
  unfolding finalize_status
  finalize_status-IsStatusOf lines h = elim (Bool-cases (all is_covered lines)) [
    | inl e ↦ rw e (covered_all lines h e)
    | inr e ↦ elim (Bool-cases (any is_reserved lines)) [
      | inl some_reserved ↦ rw (e, some_reserved) (some_reserved, uncovered lines h e)
      | inr nothing ↦ rw (e, nothing) (unreserved lines nothing, uncovered lines h e)
    ]
  ]
