-- ===== src/Receiving/Limits.antt =====
-- What a goods receipt does to the order: how much of it is accepted, and its status.
use vyaparaflowai.Prelude.{
  ℕ, ◌+◌, ◌≤◌, ◌≡◌, sym, subst, ap, ◌∙◌, inl, inr, true, arith, any-find, all, all-In, filter,
  filter-In, All, All-In, All-intro, In, Pairwise, Bool-cases, same_key-eq,
}
use vyaparaflowai.Errors.{ok, err, >>=-eq-ok, ok-inj}
use vyaparaflowai.Purchase.{received, partially_received, PurchaseOrderItem, PurchaseDb}
use vyaparaflowai.Receiving.Requests.{CreateGoodsReceiptRequest, CreateGoodsReceiptResult}
use vyaparaflowai.Receiving.Checks.{accepted_of, is_requested, prior_accepted, check_receipt}
use vyaparaflowai.Receiving.Receipts.{
  new_accepted, is_filled, is_of_order, status_after, create_goods_receipt,
}
use vyaparaflowai.Receiving.Posting.{IsAdmitted, accepted_now, find_item_of-is_item}
use vyaparaflowai.Receiving.Soundness.{IsSound}
use vyaparaflowai.Receiving.Outcome.{
  IsReceived, check_receipt-IsChecked, create_goods_receipt_cases,
}
use vyaparaflowai.Receiving.Counting.{
  DiffersLine, AreWithinOrder, accepted_now_absent, new_accepted-le, accepted_now_once,
  prior_accepted_requested, prior_accepted-le,
}

module _ (org_id : ℕ) (request : CreateGoodsReceiptRequest) (new_id : ℕ) (db : PurchaseDb)
    (sound : IsSound db) where
  posted :
      (r : CreateGoodsReceiptResult × PurchaseDb)
      → create_goods_receipt org_id request new_id db ≡ ok r
      → IsReceived request.purchase_order_id request.warehouse_id request.lines new_id db r.0 r.1
  posted r h = elim (create_goods_receipt_cases org_id request new_id db sound) [
    | inr (e, refused, _) ↦ let clash : err e ≡ ok r = sym refused ∙ h in cc
    | inl (s, e, p) ↦
        subst
          (λ (x : CreateGoodsReceiptResult × PurchaseDb).
            IsReceived request.purchase_order_id request.warehouse_id request.lines new_id db x.0
              x.1)
          (ok-inj (sym e ∙ h)) p
  ]

  within_item :
      (item : PurchaseOrderItem) (order_id : ℕ)
      → All (IsAdmitted order_id request.lines db) request.lines
      → Pairwise DiffersLine request.lines
      → In item db.purchase_order_items
      → accepted_of item.id db.goods_receipt_items ≤ item.quantity
      → accepted_now item.id request.lines + accepted_of item.id db.goods_receipt_items
        ≤ item.quantity
  within_item item order_id admitted distinct m before =
      elim (Bool-cases (is_requested item.id request.lines)) [
        | inr absent ↦ omega (arith, accepted_now_absent item.id request.lines absent, before)
        | inl requested ↦
            let (line, line_in, for_item) = any-find _ request.lines requested in
            let a =
              All-In (IsAdmitted order_id request.lines db) request.lines line admitted line_in in
            let (found_in, found_id, _) =
              find_item_of-is_item order_id line.purchase_order_item_id db.purchase_order_items
                a.item a.found in
            let same_id : line.purchase_order_item_id ≡ item.id = ground (arith, for_item) in
            let same : a.item ≡ item =
              same_key-eq (λ (i : PurchaseOrderItem). i.id) db.purchase_order_items a.item item
                sound.unique found_in m (found_id ∙ same_id) in
            let quantity = ap (λ (i : PurchaseOrderItem). i.quantity) same in
            let once = accepted_now_once request.lines line distinct line_in in
            let once_item : accepted_now item.id request.lines ≡ line.accepted_quantity =
              subst (λ id. accepted_now id request.lines ≡ line.accepted_quantity) same_id once in
            let requested_line =
              subst (λ id. is_requested id request.lines ≡ true) (sym same_id) requested in
            let prior =
              prior_accepted_requested request.lines db.goods_receipt_items
                line.purchase_order_item_id requested_line in
            let prior_item = prior ∙ ap (λ id. accepted_of id db.goods_receipt_items) same_id in
            omega (arith, a.within, a.disposed, quantity, once_item, prior_item)
      ]

  -- In a sound database where no more is accepted of any item than was ordered, this still holds
  -- after a receipt whose lines are for different items.
  pub create_goods_receipt-AreWithinOrder :
      (r : CreateGoodsReceiptResult × PurchaseDb)
      → Pairwise DiffersLine request.lines
      → AreWithinOrder db
      → create_goods_receipt org_id request new_id db ≡ ok r
      → AreWithinOrder r.1
  unfolding create_goods_receipt
  create_goods_receipt-AreWithinOrder r distinct within h =
      let p = posted r h in
      let (found, checked, _) = >>=-eq-ok (check_receipt org_id request db) _ h in
      let c = check_receipt-IsChecked org_id request new_id db found checked in
      subst
        (λ items.
          All
            (λ (item : PurchaseOrderItem).
              accepted_of item.id r.1.goods_receipt_items ≤ item.quantity)
            items)
        (sym p.same_items)
        (All-intro _ db.purchase_order_items λ item m.
          let before =
            All-In (λ (i : PurchaseOrderItem). accepted_of i.id db.goods_receipt_items ≤ i.quantity)
              db.purchase_order_items item within m in
          let after = within_item item found.0.id c.admitted distinct m before in
          omega (arith, p.accepted item.id, after))

  filled :
      (item : PurchaseOrderItem) (order_id : ℕ)
      → In item db.purchase_order_items
      → item.purchase_order_id ≡ order_id
      → status_after order_id request.lines db ≡ received
      → item.quantity
        ≤ prior_accepted request.lines db.goods_receipt_items item.id
          + new_accepted item.id request.lines
  unfolding status_after
  filled item order_id m of_order h =
      let items = filter (is_of_order order_id) db.purchase_order_items in
      let test = is_filled request.lines db.goods_receipt_items in
      elim (Bool-cases (all test items)) [
        | inr e ↦ let clash : partially_received ≡ received = rw (status_after, e) at h in cc
        | inl e ↦
            let chosen =
              filter-In (is_of_order order_id) db.purchase_order_items item m
                (ground (arith, of_order)) in
            let passes = all-In test items item e chosen in ground (arith, passes)
      ]

  -- In a sound database, an order that a receipt leaves as received has all of every item accepted.
  pub create_goods_receipt-received :
      (r : CreateGoodsReceiptResult × PurchaseDb) (item : PurchaseOrderItem)
      → create_goods_receipt org_id request new_id db ≡ ok r
      → r.0.purchase_order_status ≡ received
      → In item r.1.purchase_order_items
      → item.purchase_order_id ≡ request.purchase_order_id
      → item.quantity ≤ accepted_of item.id r.1.goods_receipt_items
  create_goods_receipt-received r item h status m of_order =
      let p = posted r h in
      let f =
        filled item request.purchase_order_id (subst (In item) p.same_items m) of_order
          (sym p.status ∙ status) in
      omega (
        arith,
        f,
        p.accepted item.id,
        new_accepted-le item.id request.lines,
        prior_accepted-le request.lines db.goods_receipt_items item.id,
      )
