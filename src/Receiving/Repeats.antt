-- ===== src/Receiving/Repeats.antt =====
-- A receipt with two lines for one item.
use vyaparaflowai.Prelude.{ℕ, ◌+◌, ◌<◌, ◌≡◌, refl, [], ◌∷◌, arith}
use vyaparaflowai.Errors.{ok, >>=-eq-ok}
use vyaparaflowai.Purchase.{PurchaseDb}
use vyaparaflowai.Receiving.Requests.{
  GoodsReceiptLineInput, CreateGoodsReceiptRequest, CreateGoodsReceiptResult,
}
use vyaparaflowai.Receiving.Checks.{accepted_of, prior_accepted, check_receipt}
use vyaparaflowai.Receiving.Receipts.{create_goods_receipt}
use vyaparaflowai.Receiving.Posting.{IsAdmitted}
use vyaparaflowai.Receiving.Soundness.{IsSound}
use vyaparaflowai.Receiving.Outcome.{
  IsChecked, IsChecked-check_receipt, check_receipt-IsChecked, write_receipt-IsReceived,
}

same_prior :
    (line : GoodsReceiptLineInput) (db : PurchaseDb)
    → prior_accepted (line ∷ line ∷ []) db.goods_receipt_items line.purchase_order_item_id
      ≡ prior_accepted (line ∷ []) db.goods_receipt_items line.purchase_order_item_id
unfolding prior_accepted
same_prior line db = ground arith

IsAdmitted-again :
    (order_id : ℕ) (line : GoodsReceiptLineInput) (db : PurchaseDb)
    → IsAdmitted order_id (line ∷ []) db line
    → IsAdmitted order_id (line ∷ line ∷ []) db line
IsAdmitted-again order_id line db a = record {
  item = a.item;
  found = a.found;
  disposed = a.disposed;
  within = omega (arith, a.within, same_prior line db);
}

module _ (org_id : ℕ) (request : CreateGoodsReceiptRequest) (new_id : ℕ) (db : PurchaseDb)
    (line : GoodsReceiptLineInput) where
  abbrev pub once : CreateGoodsReceiptRequest
  once = record request { lines = line ∷ [] }

  abbrev pub twice : CreateGoodsReceiptRequest
  twice = record request { lines = line ∷ line ∷ [] }

  -- In a sound database, if a receipt with one line is posted, so is the receipt with that line twice:
  -- each line is held against what is outstanding before the receipt. When the line accepts all that
  -- is outstanding of its item, and that is more than nothing, more is accepted than was ordered.
  pub create_goods_receipt-twice :
      (r : CreateGoodsReceiptResult × PurchaseDb) (ordered : ℕ)
      → IsSound db
      → create_goods_receipt org_id once new_id db ≡ ok r
      → 0 < line.accepted_quantity
      → line.accepted_quantity + accepted_of line.purchase_order_item_id db.goods_receipt_items
        ≡ ordered
      → (s : CreateGoodsReceiptResult × PurchaseDb) × (create_goods_receipt org_id twice new_id db
          ≡ ok s)
        × (ordered < accepted_of line.purchase_order_item_id s.1.goods_receipt_items)
  unfolding create_goods_receipt
  create_goods_receipt-twice r ordered sound h some_accepted all_outstanding =
      let (found, checked, _) = >>=-eq-ok (check_receipt org_id once db) _ h in
      let c = check_receipt-IsChecked org_id once new_id db found checked in
      let again = IsAdmitted-again found.0.id line db c.admitted.0 in
      let c' : IsChecked org_id twice new_id db found.0 found.1 = record {
        found_order = c.found_order;
        found_warehouse = c.found_warehouse;
        order_id = c.order_id;
        warehouse_id = c.warehouse_id;
        open_order = c.open_order;
        admitted = (again, (again, tt));
      } in
      let checked' = IsChecked-check_receipt org_id twice new_id db found.0 found.1 refl c' in
      let (s, written, p) =
        write_receipt-IsReceived org_id twice new_id db found.0 found.1 sound c'.admitted in
      (
        s,
        rw (create_goods_receipt, checked', written) refl,
        ground (arith, p.accepted line.purchase_order_item_id, all_outstanding),
      )
