-- ===== src/Sales/Topped.antt =====
-- The items of an order after a retried reservation (`retry_reservation`).
use vyaparaflowai.Prelude.{
  ℕ, ◌+◌, ◌≡◌, ◌≢◌, refl, sym, ap, false, ◌∙◌, subst, inl, inr, List, [], ◌∷◌, map, arith, ◌==◌,
  if◌then◌else◌, filter, filter-In, In-filter, All, In, Pairwise, total, Bool-cases, same_key-eq,
}
use vyaparaflowai.Prelude.Sorting.{Pairwise-sorted, In-sorted, sorted-In}
use vyaparaflowai.Sales.Tables.{SalesOrderItem}
use vyaparaflowai.Sales.Ordering.{item_before}
use vyaparaflowai.Sales.Confirming.{
  is_of_order, items_of, set_reserved_qty, save_reserved, topped_up,
}

-- Items with ids of their own.
abbrev pub DiffersItem : SalesOrderItem → SalesOrderItem → Type 0
DiffersItem a b = a.id ≢ b.id

-- What was reserved now for the item with this id.
abbrev pub added : ℕ → List (SalesOrderItem × ℕ) → ℕ
added id taken = total (λ (t : SalesOrderItem × ℕ). if t.0.id == id then t.1 else 0) taken

-- The item with what was reserved for it now.
abbrev pub with_added : List (SalesOrderItem × ℕ) → SalesOrderItem → SalesOrderItem
with_added taken item = record item { reserved_qty = item.reserved_qty + added item.id taken }

-- The items that were served.
abbrev pub taken_items : List (SalesOrderItem × ℕ) → List SalesOrderItem
taken_items taken = map (λ (t : SalesOrderItem × ℕ). t.0) taken

-- What the changes make of one row.
abbrev saved_row : List (SalesOrderItem × ℕ) → SalesOrderItem → SalesOrderItem
saved_row [] row = row
saved_row (change ∷ changes) row =
    saved_row changes
      (if row.id == change.0.id then record row { reserved_qty = change.1 } else row)

set_reserved_qty-map :
    (id quantity : ℕ) (rows : List SalesOrderItem)
    → set_reserved_qty id quantity rows
      ≡ map
          (λ (row : SalesOrderItem).
            if row.id == id then record row { reserved_qty = quantity } else row)
          rows
unfolding set_reserved_qty
set_reserved_qty-map id quantity [] = refl
set_reserved_qty-map id quantity (row ∷ rows) =
    ap
      (λ (rest : List SalesOrderItem).
        (if row.id == id then record row { reserved_qty = quantity } else row) ∷ rest)
      (set_reserved_qty-map id quantity rows)

map-map :
    {A B C : Type 0} (g : B → C) (f : A → B) (xs : List A)
    → map g (map f xs) ≡ map (λ x. g (f x)) xs
map-map g f [] = refl
map-map g f (x ∷ xs) = ap (λ rest. g (f x) ∷ rest) (map-map g f xs)

map-id : (rows : List SalesOrderItem) → map (λ (row : SalesOrderItem). row) rows ≡ rows
map-id [] = refl
map-id (row ∷ rows) = ap (λ rest. row ∷ rest) (map-id rows)

save_reserved-map :
    (changes : List (SalesOrderItem × ℕ)) (rows : List SalesOrderItem)
    → save_reserved changes rows ≡ map (saved_row changes) rows
unfolding save_reserved
save_reserved-map [] rows = sym (map-id rows)
save_reserved-map (change ∷ changes) rows =
    save_reserved-map changes (set_reserved_qty change.0.id change.1 rows)
    ∙ ap (map (saved_row changes)) (set_reserved_qty-map change.0.id change.1 rows)
    ∙ map-map (saved_row changes) _ rows

-- What was reserved before for an item that is served is what the row says.
abbrev AgreesWith : SalesOrderItem → SalesOrderItem × ℕ → Type 0
AgreesWith row t = t.0.id ≡ row.id → t.0.reserved_qty ≡ row.reserved_qty

-- Nothing is served for this id.
saved_row-other :
    (taken : List (SalesOrderItem × ℕ)) (row : SalesOrderItem)
    → All (λ (item : SalesOrderItem). item.id ≢ row.id) (taken_items taken)
    → saved_row (map topped_up taken) row ≡ row
saved_row-other [] row h = refl
saved_row-other (t ∷ taken) row h =
    let other : (row.id == t.0.id) ≡ false = ground (arith, h.0) in
    rw (saved_row, other) (saved_row-other taken row h.1)

added-other :
    (taken : List (SalesOrderItem × ℕ)) (id : ℕ)
    → All (λ (item : SalesOrderItem). item.id ≢ id) (taken_items taken)
    → added id taken ≡ 0
added-other [] id h = refl
added-other (t ∷ taken) id h = ground (arith, h.0, added-other taken id h.1)

differs-sym :
    (item : SalesOrderItem) (items : List SalesOrderItem)
    → All (DiffersItem item) items
    → All (λ (other : SalesOrderItem). other.id ≢ item.id) items
differs-sym item [] h = tt
differs-sym item (x ∷ xs) h = ((λ e. h.0 (sym e)), differs-sym item xs h.1)

saved_row-topped :
    (taken : List (SalesOrderItem × ℕ)) (row : SalesOrderItem)
    → Pairwise DiffersItem (taken_items taken)
    → All (AgreesWith row) taken
    → saved_row (map topped_up taken) row ≡ with_added taken row
saved_row-topped [] row d a = ap (λ (n : ℕ). record row { reserved_qty = n }) (omega arith)
saved_row-topped (t ∷ taken) row d a = elim (Bool-cases (row.id == t.0.id)) [
  | inl e ↦
      let same : t.0.id ≡ row.id = ground (arith, e) in
      let later =
        subst (λ id. All (λ (item : SalesOrderItem). item.id ≢ id) (taken_items taken)) same
          (differs-sym t.0 (taken_items taken) d.0) in
      let nothing = added-other taken row.id later in
      let before = a.0 same in
      rw (saved_row, e)
        (saved_row-other taken (record row { reserved_qty = t.0.reserved_qty + t.1 }) later
          ∙ ap (λ (n : ℕ). record row { reserved_qty = n }) (ground (arith, same, nothing, before)))
  | inr e ↦
      let other : (t.0.id == row.id) ≡ false = ground (arith, e) in
      rw (saved_row, e, other)
        (saved_row-topped taken row d.1 a.1
          ∙ ap (λ (n : ℕ). record row { reserved_qty = row.reserved_qty + n }) (omega arith))
]

map-In-eq :
    (f g : SalesOrderItem → SalesOrderItem) (rows : List SalesOrderItem)
    → ((row : SalesOrderItem) → In row rows → f row ≡ g row)
    → map f rows ≡ map g rows
map-In-eq f g [] h = refl
map-In-eq f g (row ∷ rows) h =
    ap (λ x. x ∷ map f rows) (h row (inl refl))
    ∙ ap (λ rest. g row ∷ rest) (map-In-eq f g rows (λ r m. h r (inr m)))

agrees-any :
    (items : List SalesOrderItem) (row : SalesOrderItem) (taken : List (SalesOrderItem × ℕ))
    → Pairwise DiffersItem items
    → In row items
    → All (λ (item : SalesOrderItem). In item items) (taken_items taken)
    → All (AgreesWith row) taken
agrees-any items row [] unique m h = tt
agrees-any items row (t ∷ taken) unique m h = (
  (λ same.
      ap (λ (i : SalesOrderItem). i.reserved_qty)
        (same_key-eq (λ (i : SalesOrderItem). i.id) items t.0 row unique h.0 m same)),
  agrees-any items row taken unique m h.1,
)

-- Where the items have ids of their own and some of them are served, each once, the rows stay as they
-- are but for what is added to their reserved quantities.
pub save_reserved-topped :
    (items : List SalesOrderItem) (taken : List (SalesOrderItem × ℕ))
    → Pairwise DiffersItem items
    → Pairwise DiffersItem (taken_items taken)
    → All (λ (item : SalesOrderItem). In item items) (taken_items taken)
    → save_reserved (map topped_up taken) items ≡ map (with_added taken) items
save_reserved-topped items taken unique distinct here =
    save_reserved-map (map topped_up taken) items
    ∙ map-In-eq (saved_row (map topped_up taken)) (with_added taken) items
        (λ row m. saved_row-topped taken row distinct (agrees-any items row taken unique m here))

-- The items of an order: each is one of the table's, and none of the order's is missing.
pub items_of-In :
    (order_id : ℕ) (items : List SalesOrderItem) (item : SalesOrderItem)
    → In item (items_of order_id items)
    → In item items × (item.sales_order_id ≡ order_id)
unfolding items_of
items_of-In order_id items item m =
    let (here, passes) =
      In-filter (is_of_order order_id) items item
        (In-sorted item_before (filter (is_of_order order_id) items) item m) in
    (here, ground (arith, passes))

pub In-items_of :
    (order_id : ℕ) (items : List SalesOrderItem) (item : SalesOrderItem)
    → In item items
    → item.sales_order_id ≡ order_id
    → In item (items_of order_id items)
unfolding items_of
In-items_of order_id items item m e =
    sorted-In item_before (filter (is_of_order order_id) items) item
      (filter-In (is_of_order order_id) items item m (ground (arith, e)))

differs-filter :
    (order_id : ℕ) (item : SalesOrderItem) (items : List SalesOrderItem)
    → All (DiffersItem item) items
    → All (DiffersItem item) (filter (is_of_order order_id) items)
differs-filter order_id item [] h = tt
differs-filter order_id item (x ∷ xs) h = elim (Bool-cases (is_of_order order_id x)) [
  | inl e ↦ rw e (h.0, differs-filter order_id item xs h.1)
  | inr e ↦ rw e (differs-filter order_id item xs h.1)
]

filter-Pairwise :
    (order_id : ℕ) (items : List SalesOrderItem)
    → Pairwise DiffersItem items
    → Pairwise DiffersItem (filter (is_of_order order_id) items)
filter-Pairwise order_id [] h = tt
filter-Pairwise order_id (x ∷ xs) h = elim (Bool-cases (is_of_order order_id x)) [
  | inl e ↦ rw e (differs-filter order_id x xs h.0, filter-Pairwise order_id xs h.1)
  | inr e ↦ rw e (filter-Pairwise order_id xs h.1)
]

pub items_of-Pairwise :
    (order_id : ℕ) (items : List SalesOrderItem)
    → Pairwise DiffersItem items
    → Pairwise DiffersItem (items_of order_id items)
unfolding items_of
items_of-Pairwise order_id items h =
    Pairwise-sorted item_before DiffersItem (λ a b d e. d (sym e))
      (filter (is_of_order order_id) items) (filter-Pairwise order_id items h)
