-- ===== src/Matching/Loading.antt =====
-- The three documents of a match (`load_documents`).
use vyaparaflowai.Prelude.{ℕ, ◌≡◌, refl, subst, ◌⊎◌, inl, inr, false, not, some, arith, ◌==◌, In}
use vyaparaflowai.Errors.{
  Error, ok, err, conflict, raise_if, >>=-eq-ok, ok-inj, IsAppError, IsHandled, >>=-IsHandled,
  raise_if-IsHandled, raise_if-passed, answered, refused,
}
use vyaparaflowai.Purchase.{
  PurchaseOrder, GoodsReceipt, SupplierInvoice, PurchaseDb, get_purchase_order,
}
use vyaparaflowai.Purchase.Lookup.{get_owned-IsHandled, get_owned-In}
use vyaparaflowai.Matching.Documents.{
  MatchRequest, get_goods_receipt, get_supplier_invoice, is_other, load_documents,
}

module _ (request : MatchRequest) (db : PurchaseDb) where
  load_documents-IsHandled : IsHandled (load_documents request db)
  unfolding load_documents
  load_documents-IsHandled =
      let org_id = request.org_id in
      let order_id = request.purchase_order_id in
      >>=-IsHandled (get_purchase_order org_id order_id db) _
        (get_owned-IsHandled _ _ org_id order_id db.purchase_orders)
        λ order _.
          >>=-IsHandled (get_goods_receipt org_id request.goods_receipt_id db) _
            (get_owned-IsHandled _ _ org_id request.goods_receipt_id db.goods_receipts)
            λ receipt _.
              let foreign = not (receipt.purchase_order_id == order_id) in
              >>=-IsHandled (raise_if foreign conflict) _ (raise_if-IsHandled foreign conflict tt)
                λ _ _.
                  >>=-IsHandled (get_supplier_invoice org_id request.supplier_invoice_id db) _
                    (get_owned-IsHandled _ _ org_id request.supplier_invoice_id
                      db.supplier_invoices)
                    λ invoice _.
                      let elsewhere = is_other order_id invoice.purchase_order_id in
                      >>=-IsHandled (raise_if elsewhere conflict) _
                        (raise_if-IsHandled elsewhere conflict tt)
                        λ _ _.
                          let stranger = not (invoice.supplier_id == order.supplier_id) in
                          >>=-IsHandled (raise_if stranger conflict) _
                            (raise_if-IsHandled stranger conflict tt)
                            λ _ _. answered (order, receipt, invoice) refl

  -- The three documents belong together.
  pub record BelongTogether (order : PurchaseOrder) (receipt : GoodsReceipt)
      (invoice : SupplierInvoice) : Type 0 where
    pub order_found : In order db.purchase_orders
    pub receipt_found : In receipt db.goods_receipts
    pub invoice_found : In invoice db.supplier_invoices
    pub order_id : order.id ≡ request.purchase_order_id
    pub receipt_id : receipt.id ≡ request.goods_receipt_id
    pub invoice_id : invoice.id ≡ request.supplier_invoice_id
    pub received_for : receipt.purchase_order_id ≡ order.id
    pub billed_for : (id : ℕ) → invoice.purchase_order_id ≡ some id → id ≡ order.id
    pub same_supplier : invoice.supplier_id ≡ order.supplier_id

  load_documents-BelongTogether :
      (found : PurchaseOrder × GoodsReceipt × SupplierInvoice)
      → load_documents request db ≡ ok found
      → BelongTogether found.0 found.1 found.2
  unfolding load_documents
  load_documents-BelongTogether found h =
      let org_id = request.org_id in
      let (order, o, h1) = >>=-eq-ok (get_purchase_order org_id request.purchase_order_id db) _ h in
      let (receipt, g, h2) =
        >>=-eq-ok (get_goods_receipt org_id request.goods_receipt_id db) _ h1 in
      let foreign = not (receipt.purchase_order_id == request.purchase_order_id) in
      let (_, f, h3) = >>=-eq-ok (raise_if foreign conflict) _ h2 in
      let (invoice, i, h4) =
        >>=-eq-ok (get_supplier_invoice org_id request.supplier_invoice_id db) _ h3 in
      let elsewhere = is_other request.purchase_order_id invoice.purchase_order_id in
      let (_, e, h5) = >>=-eq-ok (raise_if elsewhere conflict) _ h4 in
      let stranger = not (invoice.supplier_id == order.supplier_id) in
      let (_, s, h6) = >>=-eq-ok (raise_if stranger conflict) _ h5 in
      let (order_found, order_id, _) = get_owned-In _ _ org_id _ db.purchase_orders order o in
      let (receipt_found, receipt_id, _) = get_owned-In _ _ org_id _ db.goods_receipts receipt g in
      let (invoice_found, invoice_id, _) =
        get_owned-In _ _ org_id _ db.supplier_invoices invoice i in
      let here = raise_if-passed elsewhere conflict e in
      let received_for = raise_if-passed foreign conflict f in
      let same_supplier = raise_if-passed stranger conflict s in
      subst (λ (x : PurchaseOrder × GoodsReceipt × SupplierInvoice). BelongTogether x.0 x.1 x.2)
        (ok-inj h6)
        (record {
          order_found = order_found;
          receipt_found = receipt_found;
          invoice_found = invoice_found;
          order_id = order_id;
          receipt_id = receipt_id;
          invoice_id = invoice_id;
          received_for = ground (arith, received_for, order_id);
          billed_for = λ id b.
              let same : is_other request.purchase_order_id (some id) ≡ false =
                subst (λ p. is_other request.purchase_order_id p ≡ false) b here in
              ground (arith, same, order_id);
          same_supplier = ground (arith, same_supplier);
        })

  -- The documents are found and belong together, or the answer is an exception of the service.
  pub load_documents_cases :
      ((found : PurchaseOrder × GoodsReceipt × SupplierInvoice) × (load_documents request db
          ≡ ok found)
        × BelongTogether found.0 found.1 found.2)
      ⊎ ((e : Error) × (load_documents request db ≡ err e) × IsAppError e)
  load_documents_cases = elim load_documents-IsHandled [
    | answered found h ↦ inl (found, h, load_documents-BelongTogether found h)
    | refused e h handled ↦ inr (e, h, handled)
  ]
