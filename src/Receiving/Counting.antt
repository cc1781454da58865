-- ===== src/Receiving/Counting.antt =====
-- What the lines of a receipt accept, and what is counted of it.
use vyaparaflowai.Prelude.{
  ℕ, ◌≤◌, ◌≡◌, ◌≢◌, refl, subst, ◌⊎◌, inl, inr, true, false, List, [], ◌∷◌, arith, All, All-In, In,
  Pairwise,
}
use vyaparaflowai.Purchase.{
  received, partially_received, PurchaseOrderItem, GoodsReceiptItem, PurchaseDb,
}
use vyaparaflowai.Receiving.Requests.{GoodsReceiptLineInput}
use vyaparaflowai.Receiving.Checks.{accepted_of, is_requested, prior_accepted}
use vyaparaflowai.Receiving.Receipts.{new_accepted, status_after}
use vyaparaflowai.Receiving.Posting.{accepted_now}

-- Lines for different items.
abbrev pub DiffersLine : GoodsReceiptLineInput → GoodsReceiptLineInput → Type 0
DiffersLine a b = a.purchase_order_item_id ≢ b.purchase_order_item_id

-- No more is accepted of any item than was ordered.
abbrev pub AreWithinOrder : PurchaseDb → Type 0
AreWithinOrder db =
    All (λ (item : PurchaseOrderItem). accepted_of item.id db.goods_receipt_items ≤ item.quantity)
      db.purchase_order_items

pub accepted_now_absent :
    (id : ℕ) (lines : List GoodsReceiptLineInput)
    → is_requested id lines ≡ false
    → accepted_now id lines ≡ 0
accepted_now_absent id [] h = refl
accepted_now_absent id (line ∷ lines) h = ground (arith, accepted_now_absent id lines)

pub new_accepted_absent :
    (id : ℕ) (lines : List GoodsReceiptLineInput)
    → is_requested id lines ≡ false
    → new_accepted id lines ≡ 0
unfolding new_accepted
new_accepted_absent id [] h = refl
new_accepted_absent id (line ∷ lines) h = ground (arith, new_accepted_absent id lines)

pub new_accepted-le :
    (id : ℕ) (lines : List GoodsReceiptLineInput) → new_accepted id lines ≤ accepted_now id lines
unfolding new_accepted
new_accepted-le id [] = omega arith
new_accepted-le id (line ∷ lines) = ground (arith, new_accepted-le id lines)

pub not_requested :
    (line : GoodsReceiptLineInput) (lines : List GoodsReceiptLineInput)
    → All (DiffersLine line) lines
    → is_requested line.purchase_order_item_id lines ≡ false
not_requested line [] h = refl
not_requested line (x ∷ lines) h = ground (arith, h.0, not_requested line lines h.1)

pub accepted_now_once :
    (lines : List GoodsReceiptLineInput) (line : GoodsReceiptLineInput)
    → Pairwise DiffersLine lines
    → In line lines
    → accepted_now line.purchase_order_item_id lines ≡ line.accepted_quantity
accepted_now_once [] line d m = absurd m
accepted_now_once (x ∷ lines) line d (inl e) =
    subst
      (λ (l : GoodsReceiptLineInput).
        accepted_now l.purchase_order_item_id (x ∷ lines) ≡ l.accepted_quantity)
      e
      (ground
        (arith, accepted_now_absent x.purchase_order_item_id lines (not_requested x lines d.0)))
accepted_now_once (x ∷ lines) line d (inr m) =
    let apart = All-In (DiffersLine x) lines line d.0 m in
    ground (arith, apart, accepted_now_once lines line d.1 m)

pub prior_accepted_requested :
    (lines : List GoodsReceiptLineInput) (rows : List GoodsReceiptItem) (id : ℕ)
    → is_requested id lines ≡ true
    → prior_accepted lines rows id ≡ accepted_of id rows
unfolding prior_accepted
prior_accepted_requested lines rows id h = rw h refl

pub prior_accepted-le :
    (lines : List GoodsReceiptLineInput) (rows : List GoodsReceiptItem) (id : ℕ)
    → prior_accepted lines rows id ≤ accepted_of id rows
unfolding prior_accepted
prior_accepted-le lines rows id = ground arith

pub status_after_cases :
    (order_id : ℕ) (lines : List GoodsReceiptLineInput) (db : PurchaseDb)
    → (status_after order_id lines db ≡ received)
      ⊎ (status_after order_id lines db ≡ partially_received)
unfolding status_after
status_after_cases order_id lines db = ground arith
