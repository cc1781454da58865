-- ===== src/Sales/Shipped.antt =====
-- What `create_delivery` returns and writes.
use vyaparaflowai.Prelude.{
  ℕ, ◌+◌, ◌≤◌, ◌≡◌, ◌≢◌, refl, sym, ap, ◌∙◌, subst, true, not, List, [], ◌∷◌, map, arith, any, all,
  is_empty, In, All, All-In, All-intro, Pairwise,
}
use vyaparaflowai.Errors.{
  ok, not_found, conflict, validation, integrity_error, raise_if, >>=-eq-ok, ok-inj,
  raise_if-passed,
}
use vyaparaflowai.Inventory.{InventoryLine, issue_stock}
use vyaparaflowai.Inventory.Levels.{IsValid}
use vyaparaflowai.Inventory.Outflow.{HasIssued, issue_stock-HasIssued}
use vyaparaflowai.Purchase.Lookup.{get_owned-In}
use vyaparaflowai.Numbering.{next_document_number}
use vyaparaflowai.Sales.Tables.{dispatched, SalesOrder, SalesOrderItem, DeliveryItem, SalesDb}
use vyaparaflowai.Sales.Requests.{
  DeliveryLineInput, CreateDeliveryRequest, DeliveryLineResult, CreateDeliveryResult,
  is_dispatchable,
}
use vyaparaflowai.Sales.Checks.{validate_warehouse}
use vyaparaflowai.Sales.Reserving.{stock_line}
use vyaparaflowai.Sales.Ordering.{get_sales_order}
use vyaparaflowai.Sales.Dispatch.{
  is_missing, delivered_of, check_lines, check_delivery, delivery_rows, delivery_line,
  dispatched_line, check_delivery_item, has_delivery_number, delivery_reference, create_delivery,
}
use vyaparaflowai.Sales.Billing.{HasStatus, set_order_status-HasStatus}
use vyaparaflowai.Sales.Delivering.{
  IsAdmitted, delivered_now, DiffersLine, AreWithinReserved, check_lines-IsAdmitted,
  find_item_of-is_item, delivered_of-append, delivered_of-delivery_rows, within_item,
}

-- The stock that a line of the answer takes.
abbrev pub shipped : (warehouse_id : ℕ) → DeliveryLineResult → InventoryLine
shipped warehouse_id line = stock_line line.product_id warehouse_id line.quantity

map-delivery_line :
    (warehouse_id : ℕ) (rows : List DeliveryItem)
    → map (dispatched_line warehouse_id) rows ≡ map (shipped warehouse_id) (map delivery_line rows)
map-delivery_line warehouse_id [] = refl
map-delivery_line warehouse_id (row ∷ rows) =
    ap (λ rest. dispatched_line warehouse_id row ∷ rest) (map-delivery_line warehouse_id rows)

-- The item and the quantity of a line of the answer, and of the request.
abbrev pub line_asked : DeliveryLineResult → ℕ × ℕ
line_asked line = (line.sales_order_item_id, line.quantity)

abbrev pub input_asked : DeliveryLineInput → ℕ × ℕ
input_asked line = (line.sales_order_item_id, line.quantity)

-- A line of the answer is for an item of the order, and of the product of that item.
pub record IsOfItem (order_id : ℕ) (db : SalesDb) (line : DeliveryLineResult) : Type 0 where
  pub item : SalesOrderItem
  pub here : In item db.sales_order_items
  pub same_id : item.id ≡ line.sales_order_item_id
  pub of_order : item.sales_order_id ≡ order_id
  pub same_product : item.product_id ≡ line.product_id

module _ (order_id delivery_id : ℕ) (db : SalesDb) where
  delivery_rows-asked :
      (lines : List DeliveryLineInput)
      → All (IsAdmitted order_id db) lines
      → map line_asked
          (map delivery_line (delivery_rows order_id delivery_id db.sales_order_items lines))
        ≡ map input_asked lines
  unfolding delivery_rows
  delivery_rows-asked [] h = refl
  delivery_rows-asked (line ∷ lines) h =
      let (_, same, _) =
        find_item_of-is_item order_id db line.sales_order_item_id h.0.item h.0.found in
      rw (delivery_rows, h.0.found, same)
        (ap (λ rest. input_asked line ∷ rest) (delivery_rows-asked lines h.1))

  delivery_rows-IsOfItem :
      (lines : List DeliveryLineInput)
      → All (IsAdmitted order_id db) lines
      → All
          (IsOfItem order_id db)
          (map delivery_line (delivery_rows order_id delivery_id db.sales_order_items lines))
  unfolding delivery_rows
  delivery_rows-IsOfItem [] h = tt
  delivery_rows-IsOfItem (line ∷ lines) h =
      let item = h.0.item in
      let (here, _, of_order) =
        find_item_of-is_item order_id db line.sales_order_item_id item h.0.found in
      rw (delivery_rows, h.0.found)
        (
          record {
            item = item;
            here = here;
            same_id = refl;
            of_order = of_order;
            same_product = refl;
          },
          delivery_rows-IsOfItem lines h.1,
        )

-- What a delivery does to the database.
pub record IsShipped (org_id : ℕ) (request : CreateDeliveryRequest) (db : SalesDb)
    (r : CreateDeliveryResult × SalesDb) : Type 0 where
  pub order : SalesOrder
  pub found : In order db.sales_orders
  pub found_id : order.id ≡ request.sales_order_id
  pub owned : order.org_id ≡ org_id
  pub dispatchable : is_dispatchable order.status ≡ true
  pub admitted : All (IsAdmitted order.id db) request.lines
  pub asked : map line_asked r.0.lines ≡ map input_asked request.lines
  pub of_items : All (IsOfItem order.id db) r.0.lines
  pub issued :
      HasIssued true (map (shipped request.warehouse_id) r.0.lines) db.inventory r.1.inventory
  pub delivered :
      (item_id : ℕ)
      → delivered_of item_id r.1.delivery_items
        ≡ delivered_now item_id request.lines + delivered_of item_id db.delivery_items
  pub status : All (HasStatus order.id dispatched) r.1.sales_orders
  pub same_items : r.1.sales_order_items ≡ db.sales_order_items

-- What the guards find.
record IsChecked (org_id : ℕ) (request : CreateDeliveryRequest) (db : SalesDb) (order : SalesOrder)
    : Type 0 where
  pub found : In order db.sales_orders
  pub found_id : order.id ≡ request.sales_order_id
  pub owned : order.org_id ≡ org_id
  pub dispatchable : is_dispatchable order.status ≡ true
  pub admitted : All (IsAdmitted order.id db) request.lines

module _ (org_id : ℕ) (request : CreateDeliveryRequest) (new_id : ℕ) (db : SalesDb) where
  check_delivery-IsChecked :
      (order : SalesOrder)
      → check_delivery org_id request db ≡ ok order
      → IsChecked org_id request db order
  unfolding check_delivery
  check_delivery-IsChecked order h =
      let (_, _, h1) = >>=-eq-ok (raise_if (is_empty request.lines) validation) _ h in
      let (found, g, h2) = >>=-eq-ok (get_sales_order org_id request.sales_order_id db) _ h1 in
      let (_, open_order, h3) =
        >>=-eq-ok (raise_if (not (is_dispatchable found.status)) conflict) _ h2 in
      let (_, _, h4) = >>=-eq-ok (validate_warehouse org_id request.warehouse_id db) _ h3 in
      let (_, _, h5) =
        >>=-eq-ok
          (raise_if (any (is_missing found.id db.sales_order_items) request.lines) not_found) _
          h4 in
      let (_, l, h6) = >>=-eq-ok (check_lines found.id db request.lines) _ h5 in
      let (here, key, owned) =
        get_owned-In _ _ org_id request.sales_order_id db.sales_orders found g in
      subst (IsChecked org_id request db) (ok-inj h6) (record {
        found = here;
        found_id = key;
        owned = owned;
        dispatchable =
            let passed = raise_if-passed (not (is_dispatchable found.status)) conflict open_order in
            ground (arith, passed);
        admitted = check_lines-IsAdmitted found.id db request.lines l;
      })

  -- A delivery that succeeds on a well-formed stock is for the order of the request, one of the
  -- organization's that may be dispatched; its lines are those of the request, each for an item of
  -- that order and of the item's product; of each line no more is delivered than is reserved and was
  -- not delivered before, exactly the lines leave the stock on hand and the reservations of the
  -- warehouse, each item's deliveries grow by what the lines ask for, the order
  -- is left as dispatched and the items stay as they are.
  pub create_delivery-IsShipped :
      (r : CreateDeliveryResult × SalesDb)
      → IsValid db.inventory.items
      → create_delivery org_id request new_id db ≡ ok r
      → IsShipped org_id request db r
  unfolding create_delivery
  create_delivery-IsShipped r v h =
      let (order, c, h1) = >>=-eq-ok (check_delivery org_id request db) _ h in
      let (numbered, _, h2) =
        >>=-eq-ok (next_document_number org_id "delivery" request.dispatched_at db.sequences) _
          h1 in
      let (_, _, h3) =
        >>=-eq-ok
          (raise_if (any (has_delivery_number org_id numbered.0) db.deliveries) integrity_error) _
          h2 in
      let rows = delivery_rows order.id new_id db.sales_order_items request.lines in
      let (_, _, h4) =
        >>=-eq-ok (raise_if (not (all check_delivery_item rows)) integrity_error) _ h3 in
      let lines = map (dispatched_line request.warehouse_id) rows in
      let (moved, m, h5) =
        >>=-eq-ok (issue_stock (delivery_reference new_id) true lines db.inventory) _ h4 in
      let checked = check_delivery-IsChecked order c in
      let issued =
        issue_stock-HasIssued (delivery_reference new_id) true lines db.inventory moved v m in
      subst (IsShipped org_id request db) (ok-inj h5) (record {
        order = order;
        found = checked.found;
        found_id = checked.found_id;
        owned = checked.owned;
        asked = delivery_rows-asked order.id new_id db request.lines checked.admitted;
        of_items = delivery_rows-IsOfItem order.id new_id db request.lines checked.admitted;
        dispatchable = checked.dispatchable;
        admitted = checked.admitted;
        issued =
            subst (λ taken. HasIssued true taken db.inventory moved.1)
              (map-delivery_line request.warehouse_id rows) issued;
        delivered = λ item_id.
            delivered_of-append order.id db item_id rows db.delivery_items
            ∙ ap (λ n. n + delivered_of item_id db.delivery_items)
                (delivered_of-delivery_rows order.id db new_id item_id request.lines
                  checked.admitted);
        status = set_order_status-HasStatus order.id dispatched db.sales_orders;
        same_items = refl;
      })

  -- In tables where the items have ids of their own and no more is delivered of any item than is
  -- reserved for it, this still holds after a delivery whose lines are for different items.
  pub create_delivery-AreWithinReserved :
      (r : CreateDeliveryResult × SalesDb)
      → IsValid db.inventory.items
      → Pairwise (λ (a b : SalesOrderItem). a.id ≢ b.id) db.sales_order_items
      → Pairwise DiffersLine request.lines
      → AreWithinReserved db
      → create_delivery org_id request new_id db ≡ ok r
      → AreWithinReserved r.1
  create_delivery-AreWithinReserved r v unique distinct within h =
      let s = create_delivery-IsShipped r v h in
      subst
        (λ items.
          All (λ (i : SalesOrderItem). delivered_of i.id r.1.delivery_items ≤ i.reserved_qty) items)
        (sym s.same_items)
        (All-intro _ db.sales_order_items λ item m.
          let before =
            All-In (λ (i : SalesOrderItem). delivered_of i.id db.delivery_items ≤ i.reserved_qty)
              db.sales_order_items item within m in
          let after =
            within_item s.order.id db request.lines item unique s.admitted distinct m before in
          omega (arith, s.delivered item.id, after))
