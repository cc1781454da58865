-- ===== src/Receiving/Posting.antt =====
-- What a goods receipt needs and what it writes.
use vyaparaflowai.Prelude.{
  ℕ, ◌+◌, ◌≤◌, ◌<◌, ◌≡◌, refl, inl, inr, true, some, List, [], ◌∷◌, ◌++◌, arith, ◌==◌, ltb,
  if◌then◌else◌, all, find-In, total, All, All-In, In, Option-cases,
}
use vyaparaflowai.Errors.{
  ok, not_found, conflict, validation, raise_if, >>=-eq-ok, IsHandled, answered, refused,
  >>=-IsHandled, raise_if-IsHandled,
}
use vyaparaflowai.Purchase.{PurchaseOrderItem, GoodsReceiptItem, check_receipt_item, PurchaseDb}
use vyaparaflowai.Receiving.Requests.{GoodsReceiptLineInput}
use vyaparaflowai.Receiving.Checks.{
  is_item, find_item_of, accepted_of, prior_accepted, check_line, check_lines,
}
use vyaparaflowai.Receiving.Receipts.{receipt_items}

-- What the guards ask of one line.
pub record IsAdmitted (order_id : ℕ) (lines : List GoodsReceiptLineInput) (db : PurchaseDb)
    (line : GoodsReceiptLineInput) : Type 0 where
  pub item : PurchaseOrderItem
  pub found : find_item_of order_id line.purchase_order_item_id db.purchase_order_items ≡ some item
  pub disposed :
      line.accepted_quantity + line.rejected_quantity + line.damaged_quantity
      ≤ line.received_quantity
  pub within :
      prior_accepted lines db.goods_receipt_items line.purchase_order_item_id
        + line.received_quantity
      ≤ item.quantity

module _ (order_id : ℕ) (lines : List GoodsReceiptLineInput) (db : PurchaseDb) where
  pub check_line-IsAdmitted :
      (line : GoodsReceiptLineInput)
      → check_line order_id lines db line ≡ ok tt
      → IsAdmitted order_id lines db line
  unfolding check_line
  check_line-IsAdmitted line h =
      elim (Option-cases
        (find_item_of order_id line.purchase_order_item_id db.purchase_order_items)) [
          | inl e ↦ let none_found = rw (check_line, e) at h in absurd (ground (arith, none_found))
          | inr (item, e) ↦
              let passed = rw (check_line, e) at h in
              record {
                item = item;
                found = e;
                disposed = ground (arith, passed);
                within = ground (arith, passed);
              }
        ]

  pub IsAdmitted-check_line :
      (line : GoodsReceiptLineInput)
      → IsAdmitted order_id lines db line
      → check_line order_id lines db line ≡ ok tt
  unfolding check_line
  IsAdmitted-check_line line h = rw h.found (ground (arith, h.disposed, h.within))

  check_line-IsHandled :
      (line : GoodsReceiptLineInput) → IsHandled (check_line order_id lines db line)
  unfolding check_line
  check_line-IsHandled line =
      let disposed = line.accepted_quantity + line.rejected_quantity + line.damaged_quantity in
      let accepts = ltb line.received_quantity line.accepted_quantity in
      let disposes = ltb line.received_quantity disposed in
      >>=-IsHandled (raise_if accepts validation) _ (raise_if-IsHandled accepts validation tt)
        λ _ _.
          >>=-IsHandled (raise_if disposes validation) _ (raise_if-IsHandled disposes validation tt)
            λ _ _.
              elim (Option-cases
                (find_item_of order_id line.purchase_order_item_id db.purchase_order_items)) [
                  | inl e ↦ rw e (refused not_found refl tt)
                  | inr (item, e) ↦ rw e (raise_if-IsHandled _ conflict tt)
                ]

  pub check_lines-IsHandled :
      (rest : List GoodsReceiptLineInput) → IsHandled (check_lines order_id lines db rest)
  unfolding check_lines
  check_lines-IsHandled [] = answered tt refl
  check_lines-IsHandled (line ∷ rest) =
      >>=-IsHandled (check_line order_id lines db line) _ (check_line-IsHandled line)
        λ _ _. check_lines-IsHandled rest

  pub check_lines-IsAdmitted :
      (rest : List GoodsReceiptLineInput)
      → check_lines order_id lines db rest ≡ ok tt
      → All (IsAdmitted order_id lines db) rest
  unfolding check_lines
  check_lines-IsAdmitted [] h = tt
  check_lines-IsAdmitted (line ∷ rest) h =
      let (u, first, later) = >>=-eq-ok (check_line order_id lines db line) _ h in
      (check_line-IsAdmitted line first, check_lines-IsAdmitted rest later)

  pub IsAdmitted-check_lines :
      (rest : List GoodsReceiptLineInput)
      → All (IsAdmitted order_id lines db) rest
      → check_lines order_id lines db rest ≡ ok tt
  unfolding check_lines
  IsAdmitted-check_lines [] h = refl
  IsAdmitted-check_lines (line ∷ rest) h =
      rw (IsAdmitted-check_line line h.0) (IsAdmitted-check_lines rest h.1)

-- What the lines accept of an item.
abbrev pub accepted_now : ℕ → List GoodsReceiptLineInput → ℕ
accepted_now item_id lines =
    total (λ line. if line.purchase_order_item_id == item_id then line.accepted_quantity else 0)
      lines

pub accepted_of-append :
    (item_id : ℕ) (rows more : List GoodsReceiptItem)
    → accepted_of item_id (rows ++ more) ≡ accepted_of item_id rows + accepted_of item_id more
unfolding accepted_of
accepted_of-append item_id [] more = omega arith
accepted_of-append item_id (row ∷ rows) more = ground (arith, accepted_of-append item_id rows more)

-- The item that a line is for.
pub find_item_of-is_item :
    (order_id id : ℕ) (items : List PurchaseOrderItem) (item : PurchaseOrderItem)
    → find_item_of order_id id items ≡ some item
    → In item items × (item.id ≡ id) × (item.purchase_order_id ≡ order_id)
find_item_of-is_item order_id id items item h =
    let (m, passes) = find-In (is_item order_id id) items item h in
    (m, ground (arith, passes), ground (arith, passes))

module _ (order_id receipt_id : ℕ) (lines : List GoodsReceiptLineInput) (db : PurchaseDb) where
  -- Every admitted line writes one row, of the item that it is for.
  pub accepted_of-receipt_items :
      (item_id : ℕ) (rest : List GoodsReceiptLineInput)
      → All (IsAdmitted order_id lines db) rest
      → accepted_of item_id (receipt_items order_id receipt_id db.purchase_order_items rest)
        ≡ accepted_now item_id rest
  unfolding receipt_items accepted_of
  accepted_of-receipt_items item_id [] h = refl
  accepted_of-receipt_items item_id (line ∷ rest) h =
      let (_, same, _) =
        find_item_of-is_item order_id line.purchase_order_item_id db.purchase_order_items h.0.item
          h.0.found in
      rw (receipt_items, h.0.found)
        (ground (arith, same, accepted_of-receipt_items item_id rest h.1))

  pub check-receipt_items :
      (rest : List GoodsReceiptLineInput)
      → All (λ (item : PurchaseOrderItem). 0 < item.quantity) db.purchase_order_items
      → All (IsAdmitted order_id lines db) rest
      → all check_receipt_item (receipt_items order_id receipt_id db.purchase_order_items rest)
        ≡ true
  unfolding receipt_items check_receipt_item
  check-receipt_items [] q h = refl
  check-receipt_items (line ∷ rest) q h =
      let (m, _, _) =
        find_item_of-is_item order_id line.purchase_order_item_id db.purchase_order_items h.0.item
          h.0.found in
      let positive =
        All-In (λ (item : PurchaseOrderItem). 0 < item.quantity) db.purchase_order_items h.0.item q
          m in
      rw (receipt_items, h.0.found)
        (ground (arith, positive, h.0.disposed, h.0.within, check-receipt_items rest q h.1))
