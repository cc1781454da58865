-- ===== src/Receiving/Outcome.antt =====
-- What `create_goods_receipt` returns and writes.
use mathlib.Core.Path.{subst₂}
use vyaparaflowai.Prelude.{
  ℕ, ◌+◌, ◌≡◌, refl, subst, ap, ◌∙◌, ◌⊎◌, inl, inr, false, none, some, List, [], ◌∷◌, ◌++◌, map,
  arith, any, is_empty, All, In,
}
use vyaparaflowai.Errors.{
  Error, ok, err, not_found, conflict, validation, raise_if, >>=-eq-ok, ok-inj, IsAppError,
  IsHandled, >>=-IsHandled, raise_if-IsHandled, raise_if-passed, answered, refused,
}
use vyaparaflowai.Numbering.{prefix_of, DocumentNumber}
use vyaparaflowai.Numbering.Gapless.{
  last_of, key_of, next_document_number-consecutive, next_document_number-le,
}
use vyaparaflowai.Purchase.{
  PurchaseOrder, PurchaseOrderItem, GoodsReceiptItem, Warehouse, PurchaseDb, get_purchase_order,
  get_warehouse,
}
use vyaparaflowai.Purchase.Lookup.{get_owned-IsHandled, get_owned-In}
use vyaparaflowai.Receiving.Requests.{
  GoodsReceiptLineInput, CreateGoodsReceiptRequest, CreateGoodsReceiptResult, is_closed_to_receipt,
}
use vyaparaflowai.Receiving.Checks.{is_missing, accepted_of, check_lines, check_receipt}
use vyaparaflowai.Receiving.Receipts.{
  posted_receipt, status_after, receipt_items, write_receipt, create_goods_receipt,
}
use vyaparaflowai.Receiving.Posting.{
  IsAdmitted, check_lines-IsHandled, check_lines-IsAdmitted, IsAdmitted-check_lines, accepted_now,
  find_item_of-is_item, accepted_of-append, accepted_of-receipt_items, check-receipt_items,
}
use vyaparaflowai.Receiving.Stocking.{HasReceived, receive_accepted-HasReceived}
use vyaparaflowai.Receiving.Soundness.{IsSound, counter_of, has_number_none, AreNumbered-kept}

-- What a row says of the line that it is written for.
abbrev pub line_of : GoodsReceiptItem → GoodsReceiptLineInput
line_of row = record {
  purchase_order_item_id = row.purchase_order_item_id;
  received_quantity = row.received_quantity;
  accepted_quantity = row.accepted_quantity;
  rejected_quantity = row.rejected_quantity;
  damaged_quantity = row.damaged_quantity;
}

-- A row of the receipt is for an item of the order, with its product and what was ordered of it.
pub record IsRowOf (receipt_id order_id : ℕ) (db : PurchaseDb) (row : GoodsReceiptItem)
    : Type 0 where
  pub of_receipt : row.goods_receipt_id ≡ receipt_id
  pub item : PurchaseOrderItem
  pub here : In item db.purchase_order_items
  pub same_id : item.id ≡ row.purchase_order_item_id
  pub of_order : item.purchase_order_id ≡ order_id
  pub same_product : row.product_id ≡ item.product_id
  pub ordered : row.ordered_quantity ≡ item.quantity

module _ (order_id receipt_id : ℕ) (lines : List GoodsReceiptLineInput) (db : PurchaseDb) where
  receipt_items-line_of :
      (rest : List GoodsReceiptLineInput)
      → All (IsAdmitted order_id lines db) rest
      → map line_of (receipt_items order_id receipt_id db.purchase_order_items rest) ≡ rest
  unfolding receipt_items
  receipt_items-line_of [] h = refl
  receipt_items-line_of (line ∷ rest) h =
      let (_, same, _) =
        find_item_of-is_item order_id line.purchase_order_item_id db.purchase_order_items h.0.item
          h.0.found in
      rw (receipt_items, h.0.found, same)
        (ap (λ more. line ∷ more) (receipt_items-line_of rest h.1))

  receipt_items-IsRowOf :
      (rest : List GoodsReceiptLineInput)
      → All (IsAdmitted order_id lines db) rest
      → All
          (IsRowOf receipt_id order_id db)
          (receipt_items order_id receipt_id db.purchase_order_items rest)
  unfolding receipt_items
  receipt_items-IsRowOf [] h = tt
  receipt_items-IsRowOf (line ∷ rest) h =
      let item = h.0.item in
      let (here, _, of_order) =
        find_item_of-is_item order_id line.purchase_order_item_id db.purchase_order_items item
          h.0.found in
      rw (receipt_items, h.0.found)
        (
          record {
            of_receipt = refl;
            item = item;
            here = here;
            same_id = refl;
            of_order = of_order;
            same_product = refl;
            ordered = refl;
          },
          receipt_items-IsRowOf rest h.1,
        )

-- What a receipt of these lines, for this order and into this warehouse, does to the database.
pub record IsReceived (order_id warehouse_id : ℕ) (lines : List GoodsReceiptLineInput) (new_id : ℕ)
    (db : PurchaseDb) (result : CreateGoodsReceiptResult) (db' : PurchaseDb) : Type 0 where
  pub sound : IsSound db'
  pub rows : List GoodsReceiptItem
  pub written : db'.goods_receipt_items ≡ rows ++ db.goods_receipt_items
  pub of_lines : map line_of rows ≡ lines
  pub of_items : All (IsRowOf new_id order_id db) rows
  pub stocked : HasReceived warehouse_id rows db.inventory db'.inventory
  pub accepted :
      (item_id : ℕ)
      → accepted_of item_id db'.goods_receipt_items
        ≡ accepted_now item_id lines + accepted_of item_id db.goods_receipt_items
  pub same_items : db'.purchase_order_items ≡ db.purchase_order_items
  pub status : result.purchase_order_status ≡ status_after order_id lines db

module _ (org_id : ℕ) (request : CreateGoodsReceiptRequest) (new_id : ℕ) (db : PurchaseDb) where
  pub write_receipt-IsReceived :
      (order : PurchaseOrder) (warehouse : Warehouse)
      → IsSound db
      → All (IsAdmitted order.id request.lines db) request.lines
      → (r : CreateGoodsReceiptResult × PurchaseDb) × (write_receipt org_id request new_id order
            warehouse db
          ≡ ok r)
        × IsReceived order.id warehouse.id request.lines new_id db r.0 r.1
  unfolding write_receipt prefix_of
  write_receipt-IsReceived order warehouse sound admitted =
      let rows = receipt_items order.id new_id db.purchase_order_items request.lines in
      let (numbered, n, next, given) =
        next_document_number-consecutive org_id "goods_receipt" "GRN" request.received_date
          db.sequences refl in
      let counter = key_of org_id "goods_receipt" request.received_date in
      let same_counter : counter_of org_id numbered.0 ≡ counter =
        ap (λ (k : DocumentNumber). counter_of org_id k) next in
      let last = ap (λ k. last_of k db.sequences) same_counter in
      let newest = ap (λ k. last_of k numbered.1) same_counter in
      let value = ap (λ (k : DocumentNumber). k.value) next in
      let unused =
        has_number_none org_id numbered.0 db.sequences db.goods_receipts sound.numbered
          (omega (arith, last, value)) in
      let still =
        AreNumbered-kept db.sequences numbered.1 db.goods_receipts
          (λ key.
            next_document_number-le org_id "goods_receipt" request.received_date db.sequences key
              numbered n)
          sound.numbered in
      let checked =
        check-receipt_items order.id new_id request.lines db request.lines sound.ordered admitted in
      let (stock, s, taken) =
        receive_accepted-HasReceived
          (record { ref_type = "goods_receipt"; ref_id = some new_id; note = none }) warehouse.id
          rows db.inventory sound.stock in
      (
        posted_receipt org_id request new_id order warehouse db numbered stock,
        rw (n, unused, checked, s) refl,
        record {
          sound = record {
            stock = taken.valid;
            ordered = sound.ordered;
            numbered = (omega (arith, given, newest), still);
            unique = sound.unique;
          };
          rows = rows;
          written = refl;
          of_lines = receipt_items-line_of order.id new_id request.lines db request.lines admitted;
          of_items = receipt_items-IsRowOf order.id new_id request.lines db request.lines admitted;
          stocked = taken;
          accepted = λ item_id.
              accepted_of-append item_id rows db.goods_receipt_items
              ∙ ap (λ k. k + accepted_of item_id db.goods_receipt_items)
                  (accepted_of-receipt_items order.id new_id request.lines db item_id request.lines
                    admitted);
          same_items = refl;
          status = refl;
        },
      )

  -- What is found and admitted by the guards.
  pub record IsChecked (order : PurchaseOrder) (warehouse : Warehouse) : Type 0 where
    pub found_order : get_purchase_order org_id request.purchase_order_id db ≡ ok order
    pub found_warehouse : get_warehouse org_id request.warehouse_id db ≡ ok warehouse
    pub order_id : order.id ≡ request.purchase_order_id
    pub warehouse_id : warehouse.id ≡ request.warehouse_id
    pub open_order : is_closed_to_receipt order.status ≡ false
    pub admitted : All (IsAdmitted order.id request.lines db) request.lines

  check_receipt-IsHandled : IsHandled (check_receipt org_id request db)
  unfolding check_receipt
  check_receipt-IsHandled =
      let order_id = request.purchase_order_id in
      let warehouse_id = request.warehouse_id in
      >>=-IsHandled (raise_if (is_empty request.lines) validation) _
        (raise_if-IsHandled (is_empty request.lines) validation tt)
        λ _ _.
          >>=-IsHandled (get_purchase_order org_id order_id db) _
            (get_owned-IsHandled _ _ org_id order_id db.purchase_orders)
            λ order _.
              >>=-IsHandled (raise_if (is_closed_to_receipt order.status) conflict) _
                (raise_if-IsHandled (is_closed_to_receipt order.status) conflict tt)
                λ _ _.
                  >>=-IsHandled (get_warehouse org_id warehouse_id db) _
                    (get_owned-IsHandled _ _ org_id warehouse_id db.warehouses)
                    λ warehouse _.
                      let missing =
                        any (is_missing order.id db.purchase_order_items) request.lines in
                      >>=-IsHandled (raise_if missing not_found) _
                        (raise_if-IsHandled missing not_found tt)
                        λ _ _.
                          >>=-IsHandled (check_lines order.id request.lines db request.lines) _
                            (check_lines-IsHandled order.id request.lines db request.lines)
                            λ _ _. answered (order, warehouse) refl

  pub check_receipt-IsChecked :
      (found : PurchaseOrder × Warehouse)
      → check_receipt org_id request db ≡ ok found
      → IsChecked found.0 found.1
  unfolding check_receipt
  check_receipt-IsChecked found h =
      let (_, _, h1) = >>=-eq-ok (raise_if (is_empty request.lines) validation) _ h in
      let (order, o, h2) =
        >>=-eq-ok (get_purchase_order org_id request.purchase_order_id db) _ h1 in
      let (_, c, h3) = >>=-eq-ok (raise_if (is_closed_to_receipt order.status) conflict) _ h2 in
      let (warehouse, w, h4) = >>=-eq-ok (get_warehouse org_id request.warehouse_id db) _ h3 in
      let (_, _, h5) =
        >>=-eq-ok
          (raise_if (any (is_missing order.id db.purchase_order_items) request.lines) not_found) _
          h4 in
      let (_, l, h6) = >>=-eq-ok (check_lines order.id request.lines db request.lines) _ h5 in
      subst (λ f. IsChecked f.0 f.1) (ok-inj h6)
        (record {
          found_order = o;
          found_warehouse = w;
          order_id =
              (get_owned-In _ _ org_id request.purchase_order_id db.purchase_orders order o).1;
          warehouse_id = (get_owned-In _ _ org_id request.warehouse_id db.warehouses warehouse w).1;
          open_order = raise_if-passed (is_closed_to_receipt order.status) conflict c;
          admitted = check_lines-IsAdmitted order.id request.lines db request.lines l;
        })

  not_missing :
      (order_id : ℕ) (lines rest : List GoodsReceiptLineInput)
      → All (IsAdmitted order_id lines db) rest
      → any (is_missing order_id db.purchase_order_items) rest ≡ false
  not_missing order_id lines [] h = refl
  not_missing order_id lines (line ∷ rest) h =
      rw (any, is_missing, h.0.found) (not_missing order_id lines rest h.1)

  pub IsChecked-check_receipt :
      (order : PurchaseOrder) (warehouse : Warehouse)
      → is_empty request.lines ≡ false
      → IsChecked order warehouse
      → check_receipt org_id request db ≡ ok (order, warehouse)
  unfolding check_receipt
  IsChecked-check_receipt order warehouse some_line c =
      rw
        (
          some_line,
          c.found_order,
          c.open_order,
          c.found_warehouse,
          not_missing order.id request.lines request.lines c.admitted,
          IsAdmitted-check_lines order.id request.lines db request.lines c.admitted,
        )
        refl

  -- In a sound database a request for whole thousandths of the units, which is what the columns
  -- keep, is answered by a receipt that is posted or by an exception of the service: where no column
  -- overflows, the stock takes every receipt in, the number is given out and no constraint fails. A
  -- receipt that is posted has one row for each line, with its quantities and with the product of the
  -- item of the order that it names, and adds what these rows accept to the stock of their products in
  -- the warehouse and to what is accepted of the items.
  pub create_goods_receipt_cases :
      IsSound db
      → ((r : CreateGoodsReceiptResult × PurchaseDb) × (create_goods_receipt org_id request new_id
              db
            ≡ ok r)
          × IsReceived request.purchase_order_id request.warehouse_id request.lines new_id db r.0
              r.1)
        ⊎ ((e : Error) × (create_goods_receipt org_id request new_id db ≡ err e) × IsAppError e)
  unfolding create_goods_receipt
  create_goods_receipt_cases sound = elim check_receipt-IsHandled [
    | refused e h handled ↦ inr (e, rw h refl, handled)
    | answered found checked ↦
        let c = check_receipt-IsChecked found checked in
        let (r, written, posted) = write_receipt-IsReceived found.0 found.1 sound c.admitted in
        inl (
          r,
          rw (checked, written) refl,
          subst₂ (λ o w. IsReceived o w request.lines new_id db r.0 r.1) c.order_id c.warehouse_id
              posted,
        )
  ]
