-- ===== src/Sales/Retried.antt =====
-- What a retried reservation leaves (`retry_reservation`).
use mathlib.Core.Path.{subst₂}
use vyaparaflowai.Prelude.{
  ℕ, ◌+◌, ◌≤◌, ◌≡◌, refl, sym, ap, ◌∙◌, subst, not, List, [], ◌∷◌, map, arith, all, filter, All,
  All-intro, In, Pairwise, inl, inr, Bool-cases,
}
use vyaparaflowai.Prelude.Int.{pos, ◌+ℤ◌}
use vyaparaflowai.Prelude.Sorting.{All-sorted}
use vyaparaflowai.Errors.{ok, integrity_error, conflict, raise_if, >>=-eq-ok, ok-inj}
use vyaparaflowai.Inventory.{InventoryDb}
use vyaparaflowai.Inventory.Levels.{row_at, IsValid}
use vyaparaflowai.Sales.Tables.{SalesOrderItem, check_order_item, SalesDb}
use vyaparaflowai.Sales.Requests.{RetryReservationResult, SalesOrderLineResult}
use vyaparaflowai.Sales.Checks.{validate_warehouse}
use vyaparaflowai.Sales.Reserving.{reserve_each, item_result, finalize_status}
use vyaparaflowai.Sales.Ordering.{get_sales_order, item_before}
use vyaparaflowai.Sales.Confirming.{
  items_of, item_results, changed_item, is_of_order, shortage_of, topped_up, is_retriable,
  retry_reservation,
}
use vyaparaflowai.Sales.Orders.{taken_at, HasReservedEach, reserve_each-HasReservedEach}
use vyaparaflowai.Sales.Statuses.{IsFilled, IsStatusOf, finalize_status-IsStatusOf}
use vyaparaflowai.Sales.Billing.{HasStatus, set_order_status-HasStatus}
use vyaparaflowai.Sales.Topped.{
  DiffersItem, added, taken_items, save_reserved-topped, items_of-In, In-items_of,
  items_of-Pairwise,
}
use vyaparaflowai.Purchase.Lookup.{get_owned-In}
use vyaparaflowai.Sales.Answered.{Answers, served-IsFilled}

-- The product, the quantity and what is reserved, by a line of the answer and by a served item.
abbrev pub line_says : SalesOrderLineResult → ℕ × ℕ × ℕ
line_says line = (line.product_id, line.quantity, line.reserved_qty)

abbrev pub taken_says : SalesOrderItem × ℕ → ℕ × ℕ × ℕ
taken_says t = (t.0.product_id, t.0.quantity, t.0.reserved_qty + t.1)

item_results-says :
    (taken : List (SalesOrderItem × ℕ))
    → map line_says (item_results (map topped_up taken)) ≡ map taken_says taken
unfolding item_result
item_results-says [] = refl
item_results-says (t ∷ taken) = ap (λ rest. taken_says t ∷ rest) (item_results-says taken)

-- What the retried reservation of an order does. `taken` has the items of the order with what is
-- reserved for each now, in the order of the lines of the answer.
pub record IsRetried (warehouse_id order_id : ℕ) (db : SalesDb)
    (r : RetryReservationResult × SalesDb) : Type 0 where
  pub taken : List (SalesOrderItem × ℕ)
  pub of_order :
      (item : SalesOrderItem)
      → In item (taken_items taken)
      → In item db.sales_order_items × (item.sales_order_id ≡ order_id)
  pub complete :
      (item : SalesOrderItem)
      → In item db.sales_order_items
      → item.sales_order_id ≡ order_id
      → In item (taken_items taken)
  pub once : Pairwise DiffersItem (taken_items taken)
  pub answered : map line_says r.0.lines ≡ map taken_says taken
  pub saved :
      r.1.sales_order_items
      ≡ map
          (λ (item : SalesOrderItem). record item {
            reserved_qty = item.reserved_qty + added item.id taken;
          })
          db.sales_order_items
  pub valid : IsValid r.1.inventory.items
  pub filled : All (IsFilled warehouse_id r.1.inventory) r.0.lines
  pub reserved_grown :
      (p w : ℕ)
      → (row_at p w r.1.inventory.items).reserved
        ≡ (row_at p w db.inventory.items).reserved
          +ℤ pos
              (taken_at (λ (i : SalesOrderItem). i.product_id) shortage_of warehouse_id p w taken)
  pub on_hand_same :
      (p w : ℕ) → (row_at p w r.1.inventory.items).on_hand ≡ (row_at p w db.inventory.items).on_hand
  pub status : IsStatusOf r.0.status r.0.lines
  pub stored : All (HasStatus order_id r.0.status) r.1.sales_orders

-- The CHECK constraint on what is reserved for an item.
abbrev pub IsWithinQuantity : SalesOrderItem → Type 0
IsWithinQuantity item = item.reserved_qty ≤ item.quantity

-- The line of the answer for an item that got some more.
abbrev topped_result : SalesOrderItem → ℕ → SalesOrderLineResult
topped_result item n = item_result item (item.reserved_qty + n)

topped_result-Answers :
    Answers (λ (i : SalesOrderItem). i.product_id) shortage_of IsWithinQuantity topped_result
unfolding item_result
topped_result-Answers = record {
  product = λ i n. refl;
  within = λ i n good h. ground (arith, good, h);
  full = λ i n good h. ground (arith, good, h);
  short = λ i n. refl;
}

map-topped_up :
    (taken : List (SalesOrderItem × ℕ))
    → map (λ (t : SalesOrderItem × ℕ). topped_result t.0 t.1) taken
      ≡ item_results (map topped_up taken)
map-topped_up [] = refl
map-topped_up (t ∷ taken) = ap (λ rest. topped_result t.0 t.1 ∷ rest) (map-topped_up taken)

filter-All :
    (order_id : ℕ) (items : List SalesOrderItem)
    → All IsWithinQuantity items
    → All IsWithinQuantity (filter (is_of_order order_id) items)
filter-All order_id [] h = tt
filter-All order_id (i ∷ items) h = elim (Bool-cases (is_of_order order_id i)) [
  | inl e ↦ rw e (h.0, filter-All order_id items h.1)
  | inr e ↦ rw e (filter-All order_id items h.1)
]

items_of-All :
    (order_id : ℕ) (items : List SalesOrderItem)
    → All IsWithinQuantity items
    → All IsWithinQuantity (items_of order_id items)
unfolding items_of
items_of-All order_id items h =
    All-sorted item_before IsWithinQuantity (filter (is_of_order order_id) items)
      (filter-All order_id items h)

-- A retry that succeeds, on a well-formed stock and items that have ids of their own and no more
-- reserved than their quantity, serves every item of the order once and no other: it reserves the
-- whole shortage or all the stock of the product that is left in the warehouse, adds exactly that to
-- the reservations there and to the reserved quantity in the item's row, leaves the rows as they are
-- otherwise, and moves no stock. The answer has a line for each item with what is reserved for it now,
-- and its status, which the order is given, tells
-- whether all, some or none of the order is.
pub retry_reservation-IsRetried :
    (org_id sales_order_id warehouse_id : ℕ) (db : SalesDb) (r : RetryReservationResult × SalesDb)
    → IsValid db.inventory.items
    → Pairwise DiffersItem db.sales_order_items
    → All IsWithinQuantity db.sales_order_items
    → retry_reservation org_id sales_order_id warehouse_id db ≡ ok r
    → IsRetried warehouse_id sales_order_id db r
unfolding retry_reservation
retry_reservation-IsRetried org_id sales_order_id warehouse_id db r v unique within h =
    let (order, o, h1) = >>=-eq-ok (get_sales_order org_id sales_order_id db) _ h in
    let (_, _, h2) = >>=-eq-ok (raise_if (not (is_retriable order.status)) conflict) _ h1 in
    let (_, _, h3) = >>=-eq-ok (validate_warehouse org_id warehouse_id db) _ h2 in
    let (_, key, _) = get_owned-In _ _ org_id sales_order_id db.sales_orders order o in
    let product = λ (i : SalesOrderItem). i.product_id in
    let items = items_of order.id db.sales_order_items in
    let (taken, e, k) =
      reserve_each-HasReservedEach product shortage_of warehouse_id order.id items db.inventory v in
    let (taken', t, h4) =
      >>=-eq-ok (reserve_each product shortage_of warehouse_id order.id items db.inventory) _ h3 in
    let changes = map topped_up taken'.0 in
    let (_, _, h5) =
      >>=-eq-ok (raise_if (not (all check_order_item (map changed_item changes))) integrity_error) _
        h4 in
    let k' =
      subst
        (λ (x : List (SalesOrderItem × ℕ) × InventoryDb).
          HasReservedEach product shortage_of warehouse_id items db.inventory x.0 x.1)
        (ok-inj (sym e ∙ t)) k in
    let filled = subst (All (IsFilled warehouse_id taken'.1)) (map-topped_up taken'.0) (
      served-IsFilled product shortage_of IsWithinQuantity topped_result warehouse_id taken'.1
        taken'.0 topped_result-Answers
        (subst (All IsWithinQuantity) (sym k'.complete)
          (items_of-All order.id db.sales_order_items within))
        k'.served) in
    let rows = db.sales_order_items in
    let is_item = λ (item : SalesOrderItem). λ (m : In item (taken_items taken'.0)).
      items_of-In order.id rows item (subst (In item) k'.complete m) in
    let once : Pairwise DiffersItem (taken_items taken'.0) =
      subst (Pairwise DiffersItem) (sym k'.complete) (items_of-Pairwise order.id rows unique) in
    subst₂ (λ (id : ℕ) (x : RetryReservationResult × SalesDb). IsRetried warehouse_id id db x) key
      (ok-inj h5)
      (record {
        taken = taken'.0;
        of_order = is_item;
        complete =
            λ item m e. subst (In item) (sym k'.complete) (In-items_of order.id rows item m e);
        once = once;
        answered = item_results-says taken'.0;
        saved = save_reserved-topped rows taken'.0 unique once (
            All-intro (λ (item : SalesOrderItem). In item rows) (taken_items taken'.0)
              (λ item m. (is_item item m).0));
        valid = k'.valid;
        filled = filled;
        reserved_grown = k'.reserved_grown;
        on_hand_same = k'.on_hand_same;
        status = finalize_status-IsStatusOf warehouse_id taken'.1 (item_results changes) filled;
        stored =
            set_order_status-HasStatus order.id (finalize_status (item_results changes))
              db.sales_orders;
      })
