-- ===== src/Sales/Delivering.antt =====
-- What the deliveries of an order take of what is reserved for it.
use vyaparaflowai.Prelude.{
  ℕ, ◌+◌, ◌≤◌, ◌≡◌, ◌≢◌, refl, ap, ◌∙◌, subst, Bool, false, some, List, [], ◌∷◌, ◌++◌, arith, ◌==◌,
  if◌then◌else◌, any, any-find, find-In, total, inl, inr, All, All-In, In, Pairwise, Bool-cases,
  Option-cases, same_key-eq,
}
use vyaparaflowai.Prelude.Int.{int_laws}
use vyaparaflowai.Errors.{ok, err, not_found, >>=-eq-ok}
use vyaparaflowai.Sales.Tables.{SalesOrderItem, DeliveryItem, SalesDb}
use vyaparaflowai.Sales.Requests.{DeliveryLineInput}
use vyaparaflowai.Sales.Dispatch.{
  is_item, find_item_of, delivered_of, check_line, check_lines, delivery_rows,
}

-- What the guard asks of one line.
pub record IsAdmitted (order_id : ℕ) (db : SalesDb) (line : DeliveryLineInput) : Type 0 where
  pub item : SalesOrderItem
  pub found : find_item_of order_id line.sales_order_item_id db.sales_order_items ≡ some item
  pub within :
      delivered_of line.sales_order_item_id db.delivery_items + line.quantity ≤ item.reserved_qty

-- What the lines ask for of an item.
abbrev pub delivered_now : ℕ → List DeliveryLineInput → ℕ
delivered_now item_id lines =
    total (λ line. if line.sales_order_item_id == item_id then line.quantity else 0) lines

-- Lines for different items.
abbrev pub DiffersLine : DeliveryLineInput → DeliveryLineInput → Type 0
DiffersLine a b = a.sales_order_item_id ≢ b.sales_order_item_id

-- No more is delivered of any item than is reserved for it.
abbrev pub AreWithinReserved : SalesDb → Type 0
AreWithinReserved db =
    All (λ (item : SalesOrderItem). delivered_of item.id db.delivery_items ≤ item.reserved_qty)
      db.sales_order_items

abbrev is_for : ℕ → DeliveryLineInput → Bool
is_for id line = line.sales_order_item_id == id

module _ (order_id : ℕ) (db : SalesDb) where
  check_line-IsAdmitted :
      (line : DeliveryLineInput) → check_line order_id db line ≡ ok tt → IsAdmitted order_id db line
  unfolding check_line
  check_line-IsAdmitted line h =
      elim (Option-cases (find_item_of order_id line.sales_order_item_id db.sales_order_items)) [
        | inl e ↦ let clash : err not_found ≡ ok tt = rw (check_line, e) at h in cc
        | inr (item, e) ↦
            let passed = rw (check_line, e) at h in
            record { item = item; found = e; within = grind (int_laws, passed) }
      ]

  pub check_lines-IsAdmitted :
      (lines : List DeliveryLineInput)
      → check_lines order_id db lines ≡ ok tt
      → All (IsAdmitted order_id db) lines
  unfolding check_lines
  check_lines-IsAdmitted [] h = tt
  check_lines-IsAdmitted (line ∷ rest) h =
      let (_, first, later) = >>=-eq-ok (check_line order_id db line) _ h in
      (check_line-IsAdmitted line first, check_lines-IsAdmitted rest later)

  pub delivered_of-append :
      (item_id : ℕ) (rows more : List DeliveryItem)
      → delivered_of item_id (rows ++ more) ≡ delivered_of item_id rows + delivered_of item_id more
  unfolding delivered_of
  delivered_of-append item_id [] more = omega arith
  delivered_of-append item_id (row ∷ rows) more =
      ground (arith, delivered_of-append item_id rows more)

  pub find_item_of-is_item :
      (id : ℕ) (item : SalesOrderItem)
      → find_item_of order_id id db.sales_order_items ≡ some item
      → In item db.sales_order_items × (item.id ≡ id) × (item.sales_order_id ≡ order_id)
  find_item_of-is_item id item h =
      let (m, passes) = find-In (is_item order_id id) db.sales_order_items item h in
      (m, ground (arith, passes), ground (arith, passes))

  -- Every admitted line writes one row, of the item that it is for.
  pub delivered_of-delivery_rows :
      (delivery_id item_id : ℕ) (lines : List DeliveryLineInput)
      → All (IsAdmitted order_id db) lines
      → delivered_of item_id (delivery_rows order_id delivery_id db.sales_order_items lines)
        ≡ delivered_now item_id lines
  unfolding delivery_rows delivered_of
  delivered_of-delivery_rows delivery_id item_id [] h = refl
  delivered_of-delivery_rows delivery_id item_id (line ∷ rest) h =
      let (_, same, _) = find_item_of-is_item line.sales_order_item_id h.0.item h.0.found in
      rw (delivery_rows, h.0.found)
        (ground (arith, same, delivered_of-delivery_rows delivery_id item_id rest h.1))

  delivered_now_absent :
      (id : ℕ) (lines : List DeliveryLineInput)
      → any (is_for id) lines ≡ false
      → delivered_now id lines ≡ 0
  delivered_now_absent id [] h = refl
  delivered_now_absent id (line ∷ lines) h = ground (arith, delivered_now_absent id lines)

  not_for :
      (line : DeliveryLineInput) (lines : List DeliveryLineInput)
      → All (DiffersLine line) lines
      → delivered_now line.sales_order_item_id lines ≡ 0
  not_for line [] h = refl
  not_for line (x ∷ lines) h = ground (arith, h.0, not_for line lines h.1)

  delivered_now_once :
      (lines : List DeliveryLineInput) (line : DeliveryLineInput)
      → Pairwise DiffersLine lines
      → In line lines
      → delivered_now line.sales_order_item_id lines ≡ line.quantity
  delivered_now_once [] line d m = absurd m
  delivered_now_once (x ∷ lines) line d (inl e) =
      subst
        (λ (l : DeliveryLineInput). delivered_now l.sales_order_item_id (x ∷ lines) ≡ l.quantity) e
        (ground (arith, not_for x lines d.0))
  delivered_now_once (x ∷ lines) line d (inr m) =
      let apart = All-In (DiffersLine x) lines line d.0 m in
      ground (arith, apart, delivered_now_once lines line d.1 m)

  -- What the lines add to an item stays within what is reserved for it.
  pub within_item :
      (lines : List DeliveryLineInput) (item : SalesOrderItem)
      → Pairwise (λ (a b : SalesOrderItem). a.id ≢ b.id) db.sales_order_items
      → All (IsAdmitted order_id db) lines
      → Pairwise DiffersLine lines
      → In item db.sales_order_items
      → delivered_of item.id db.delivery_items ≤ item.reserved_qty
      → delivered_now item.id lines + delivered_of item.id db.delivery_items ≤ item.reserved_qty
  within_item lines item unique admitted distinct m before =
      elim (Bool-cases (any (is_for item.id) lines)) [
        | inr absent ↦ omega (arith, delivered_now_absent item.id lines absent, before)
        | inl present ↦
            let (line, line_in, for_item) = any-find (is_for item.id) lines present in
            let a = All-In (IsAdmitted order_id db) lines line admitted line_in in
            let (found_in, found_id, _) =
              find_item_of-is_item line.sales_order_item_id a.item a.found in
            let same_id : line.sales_order_item_id ≡ item.id = ground (arith, for_item) in
            let same : a.item ≡ item =
              same_key-eq (λ (i : SalesOrderItem). i.id) db.sales_order_items a.item item unique
                found_in m (found_id ∙ same_id) in
            let quantity = ap (λ (i : SalesOrderItem). i.reserved_qty) same in
            let once = delivered_now_once lines line distinct line_in in
            let now = ap (λ id. delivered_now id lines) same_id in
            let prior = ap (λ id. delivered_of id db.delivery_items) same_id in
            omega (arith, a.within, quantity, once, now, prior)
      ]
