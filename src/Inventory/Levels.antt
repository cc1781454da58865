-- ===== src/Inventory/Levels.antt =====
-- The stock position of a key, and what a statement does to it. A position is read through
-- `row_at`, which is the row of the key, or a row with no stock where there is none.
use vyaparaflowai.Prelude.{
  ℕ, ◌≡◌, refl, inl, inr, Bool, true, false, ◌&&◌, none, some, List, [], ◌∷◌, arith, ◌==◌,
  if◌then◌else◌, Bool-cases, All, any,
}
use vyaparaflowai.Prelude.Int.{pos, ◌≤ℤ◌}
use vyaparaflowai.Inventory.Table.{
  InventoryItem, at_key, find_item, new_item, ensure_row, Statement, assign, selects, updated,
  returned,
}

abbrev pub row_at : ℕ → ℕ → List InventoryItem → InventoryItem
row_at product warehouse items = elim (find_item product warehouse items) [
  | none ↦ new_item product warehouse
  | some item ↦ item
]

-- Nothing is reserved that is not there.
pub record IsStocked (item : InventoryItem) : Type 0 where
  pub reserved_nonneg : pos 0 ≤ℤ item.reserved
  pub reserved_within : item.reserved ≤ℤ item.on_hand

abbrev pub IsAbsent : ℕ → ℕ → List InventoryItem → Type 0
IsAbsent product warehouse items = All (λ item. at_key product warehouse item ≡ false) items

-- The UNIQUE constraint on the product and the warehouse.
abbrev pub HasUniqueKeys : List InventoryItem → Type 0
HasUniqueKeys [] = Unit
HasUniqueKeys (item ∷ items) =
    IsAbsent item.product_id item.warehouse_id items × HasUniqueKeys items

pub record IsValid (items : List InventoryItem) : Type 0 where
  pub unique : HasUniqueKeys items
  pub stocked : All IsStocked items

find_item_absent :
    (p w : ℕ) (items : List InventoryItem) → IsAbsent p w items → find_item p w items ≡ none
find_item_absent p w [] h = refl
find_item_absent p w (x ∷ xs) h = ground (arith, find_item_absent p w xs h.1)

IsAbsent-of_any :
    (p w : ℕ) (items : List InventoryItem) → any (at_key p w) items ≡ false → IsAbsent p w items
IsAbsent-of_any p w [] h = tt
IsAbsent-of_any p w (x ∷ xs) h = ground (arith, IsAbsent-of_any p w xs)

found_of_any :
    (p w : ℕ) (items : List InventoryItem)
    → any (at_key p w) items ≡ true
    → find_item p w items ≡ some (row_at p w items)
found_of_any p w [] h = cc
found_of_any p w (x ∷ xs) h = ground (arith, found_of_any p w xs)

-- The row is there after `_ensure_row`, with the position that the key had before.
pub find_item-ensure_row :
    (p w : ℕ) (items : List InventoryItem)
    → find_item p w (ensure_row p w items) ≡ some (row_at p w items)
unfolding ensure_row
find_item-ensure_row p w items = elim (Bool-cases (any (at_key p w) items)) [
  | inl e ↦ rw e (found_of_any p w items e)
  | inr e ↦ rw e (ground (arith, find_item_absent p w items (IsAbsent-of_any p w items e)))
]

pub row_at-ensure_row :
    (q v p w : ℕ) (items : List InventoryItem)
    → row_at q v (ensure_row p w items) ≡ row_at q v items
unfolding ensure_row
row_at-ensure_row q v p w items = elim (Bool-cases (any (at_key p w) items)) [
  | inl e ↦ rw e
  | inr e ↦ rw e (ground (arith, find_item_absent p w items (IsAbsent-of_any p w items e)))
]

pub ensure_row-IsValid :
    (p w : ℕ) (items : List InventoryItem) → IsValid items → IsValid (ensure_row p w items)
unfolding ensure_row
ensure_row-IsValid p w items h = elim (Bool-cases (any (at_key p w) items)) [
  | inl e ↦ rw e h
  | inr e ↦ rw e (record {
    unique = (IsAbsent-of_any p w items e, h.unique);
    stocked = (omega arith, h.stocked);
  })
]

pub row_at-IsStocked :
    (p w : ℕ) (items : List InventoryItem) → All IsStocked items → IsStocked (row_at p w items)
row_at-IsStocked p w [] h = omega arith
row_at-IsStocked p w (x ∷ xs) h = elim (Bool-cases (at_key p w x)) [
  | inl e ↦ rw (e, row_at) h.0
  | inr e ↦ rw (e, row_at) (row_at-IsStocked p w xs h.1)
]

module _ (stmt : Statement) where
  abbrev pub passes : InventoryItem → Bool
  passes item = stmt.test item.on_hand item.reserved

  updated_absent :
      (items : List InventoryItem)
      → IsAbsent stmt.product_id stmt.warehouse_id items
      → updated stmt items ≡ items
  unfolding updated
  updated_absent [] h = refl
  updated_absent (x ∷ xs) h = ground (arith, updated_absent xs h.1)

  returned_absent :
      (items : List InventoryItem)
      → IsAbsent stmt.product_id stmt.warehouse_id items
      → returned stmt items ≡ []
  unfolding returned
  returned_absent [] h = refl
  returned_absent (x ∷ xs) h = ground (arith, returned_absent xs h.1)

  -- At most one row has the key, so the statement returns that row if it passes the test.
  pub returned-found :
      (items : List InventoryItem) (x : InventoryItem)
      → HasUniqueKeys items
      → find_item stmt.product_id stmt.warehouse_id items ≡ some x
      → returned stmt items ≡ (if passes x then assign stmt x ∷ [] else [])
  unfolding returned
  returned-found [] x u e = cc
  returned-found (y ∷ ys) x u e = ground (arith, returned_absent ys, returned-found ys x u.1)

  find_item-updated_ne :
      (q v : ℕ) (items : List InventoryItem)
      → (q == stmt.product_id && v == stmt.warehouse_id) ≡ false
      → row_at q v (updated stmt items) ≡ row_at q v items
  unfolding updated
  find_item-updated_ne q v [] h = refl
  find_item-updated_ne q v (y ∷ ys) h = ground (arith, find_item-updated_ne q v ys h)

  find_item-updated_self :
      (items : List InventoryItem) (x : InventoryItem)
      → HasUniqueKeys items
      → find_item stmt.product_id stmt.warehouse_id items ≡ some x
      → find_item stmt.product_id stmt.warehouse_id (updated stmt items)
        ≡ some (if passes x then assign stmt x else x)
  unfolding updated
  find_item-updated_self [] x u e = cc
  find_item-updated_self (y ∷ ys) x u e = ground (arith, find_item-updated_self ys x u.1)

  -- The statement changes the position of its own key, if the test passes, and no other.
  pub row_at-updated :
      (q v : ℕ) (items : List InventoryItem) (x : InventoryItem)
      → HasUniqueKeys items
      → find_item stmt.product_id stmt.warehouse_id items ≡ some x
      → row_at q v (updated stmt items) ≡ (
          if q == stmt.product_id && v == stmt.warehouse_id
          then (if passes x then assign stmt x else x)
          else row_at q v items)
  row_at-updated q v items x u e =
      ground (arith, find_item-updated_ne q v items, find_item-updated_self items x u e)

  updated-IsAbsent :
      (q v : ℕ) (items : List InventoryItem)
      → IsAbsent q v items
      → IsAbsent q v (updated stmt items)
  unfolding updated
  updated-IsAbsent q v [] h = tt
  updated-IsAbsent q v (y ∷ ys) h = ground (arith, updated-IsAbsent q v ys h.1)

  updated-HasUniqueKeys :
      (items : List InventoryItem) → HasUniqueKeys items → HasUniqueKeys (updated stmt items)
  unfolding updated
  updated-HasUniqueKeys [] h = tt
  updated-HasUniqueKeys (y ∷ ys) h =
      ground
        (arith, updated-HasUniqueKeys ys h.1, updated-IsAbsent y.product_id y.warehouse_id ys h.0)

  updated-IsStocked :
      (items : List InventoryItem)
      → All IsStocked items
      → All IsStocked (returned stmt items)
      → All IsStocked (updated stmt items)
  unfolding updated returned
  updated-IsStocked [] h r = tt
  updated-IsStocked (y ∷ ys) h r = elim (Bool-cases (selects stmt y)) [
    | inl e ↦ rw e ((rw e at r).0, updated-IsStocked ys h.1 (rw e at r).1)
    | inr e ↦ rw e (h.0, updated-IsStocked ys h.1 (rw e at r))
  ]

  -- The constraints keep the table well formed.
  pub updated-IsValid :
      (items : List InventoryItem)
      → IsValid items
      → All IsStocked (returned stmt items)
      → IsValid (updated stmt items)
  updated-IsValid items h r = record {
    unique = updated-HasUniqueKeys items h.unique;
    stocked = updated-IsStocked items h.stocked r;
  }
