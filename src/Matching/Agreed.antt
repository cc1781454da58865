-- ===== src/Matching/Agreed.antt =====
-- What a clean line of `match_three_way` says of the items of the three documents.
use vyaparaflowai.Prelude.{
  ℕ, ◌+◌, ◌*◌, ◌≤◌, ◌≡◌, refl, sym, ap, ◌∙◌, subst, any-find, ◌⊎◌, inl, inr, Bool, true, false,
  Option, none, some, List, [], ◌∷◌, ◌++◌, map, String, arith, ◌==◌, any, filter, filter-In,
  In-filter, In, Bool-cases, Option-cases,
}
use mathlib.Core.Option
use mathlib.Core.Path.{subst₂}
use vyaparaflowai.Purchase.{PurchaseOrderItem, GoodsReceiptItem, SupplierInvoiceItem, PurchaseDb}
use vyaparaflowai.Matching.Documents.{
  MatchRequest, po_items, grn_items, invoice_items, last_by, is_for, has_no_product,
  unmatched_count, named_products, set_of, product_ids, match_line,
}
use vyaparaflowai.Matching.Lines.{or_zero}
use vyaparaflowai.Matching.Clean.{IsNear, IsClean}

-- A product of the order, of the receipt or of the invoice.
abbrev pub IsOnDocuments : MatchRequest → PurchaseDb → ℕ → Type 0
IsOnDocuments request db id =
    ((item : PurchaseOrderItem) × In item db.purchase_order_items
      × (item.purchase_order_id ≡ request.purchase_order_id)
      × (item.product_id ≡ id))
    ⊎ (((item : GoodsReceiptItem) × In item db.goods_receipt_items
          × (item.goods_receipt_id ≡ request.goods_receipt_id)
          × (item.product_id ≡ id))
        ⊎ ((item : SupplierInvoiceItem) × In item db.supplier_invoice_items
            × (item.supplier_invoice_id ≡ request.supplier_invoice_id)
            × (item.product_id ≡ some id)))

-- Items of the three documents for one product that agree.
pub record AgreesOn (request : MatchRequest) (db : PurchaseDb) (id : ℕ) : Type 0 where
  pub ordered : PurchaseOrderItem
  pub ordered_in : In ordered db.purchase_order_items
  pub ordered_on : ordered.purchase_order_id ≡ request.purchase_order_id
  pub ordered_product : ordered.product_id ≡ id
  pub received : GoodsReceiptItem
  pub received_in : In received db.goods_receipt_items
  pub received_on : received.goods_receipt_id ≡ request.goods_receipt_id
  pub received_product : received.product_id ≡ id
  pub billed : SupplierInvoiceItem
  pub billed_in : In billed db.supplier_invoice_items
  pub billed_on : billed.supplier_invoice_id ≡ request.supplier_invoice_id
  pub billed_product : billed.product_id ≡ some id
  pub quantity_near :
      IsNear request.tolerances.qty_variance_pct billed.quantity received.accepted_quantity
  pub price_near : IsNear request.tolerances.price_variance_pct billed.unit_price ordered.unit_price
  pub amount_high :
      1000 * billed.line_total
      ≤ received.accepted_quantity * ordered.unit_price + request.tolerances.amount_variance_abs
  pub amount_low :
      received.accepted_quantity * ordered.unit_price
      ≤ 1000 * billed.line_total + request.tolerances.amount_variance_abs

last_by-In :
    {A : Type 0} (test : A → Bool) (xs : List A) (a : A)
    → last_by test xs ≡ some a
    → In a xs × (test a ≡ true)
unfolding last_by
last_by-In test [] a h = cc
last_by-In test (x ∷ xs) a h = elim (Option-cases (last_by test xs)) [
  | inr (y, e) ↦
      let found : some y ≡ some a = rw (last_by, e) at h in
      let same : y ≡ a = cc in
      let (m, passes) = last_by-In test xs a (e ∙ ap some same) in (inr m, passes)
  | inl e ↦ elim (Bool-cases (test x)) [
    | inl t ↦
        let found : some x ≡ some a = rw (last_by, e, t) at h in
        let same : x ≡ a = cc in (inl same, subst (λ y. test y ≡ true) same t)
    | inr t ↦ let clash : none ≡ some a = rw (last_by, e, t) at h in cc
  ]
]

-- A value that is taken from the last item, and that item.
map-some :
    {A B : Type 0} (f : A → B) (found : Option A) (b : B)
    → Option.map f found ≡ some b
    → (a : A) × (found ≡ some a) × (f a ≡ b)
map-some f none b h = cc
map-some f (some a) b h = (a, refl, cc)

is_for-product :
    (id : ℕ) (item : SupplierInvoiceItem) → is_for id item ≡ true → item.product_id ≡ some id
is_for-product id item h = elim (Option-cases item.product_id) [
  | inl e ↦ let clash : false ≡ true = rw (is_for, e) at h in cc
  | inr (other, e) ↦
      let same : (other == id) ≡ true = rw (is_for, e) at h in
      let equal : other ≡ id = ground (arith, same) in e ∙ ap some equal
]

-- The items that a clean line of a product is built from agree.
pub AgreesOn-clean :
    (text_of_id : ℕ → String) (request : MatchRequest) (db : PurchaseDb) (id : ℕ)
    → IsClean request.tolerances (
        match_line text_of_id db.products
          (po_items request.purchase_order_id db)
          (grn_items request.goods_receipt_id db)
          (invoice_items request.supplier_invoice_id db)
          id)
    → AgreesOn request db id
unfolding match_line
AgreesOn-clean text_of_id request db id c =
    let po = po_items request.purchase_order_id db in
    let grn = grn_items request.goods_receipt_id db in
    let bill = invoice_items request.supplier_invoice_id db in
    let (ordered, o, price) = map-some (λ (i : PurchaseOrderItem). i.unit_price) _ _ c.priced in
    let (received, g, accepted) =
      map-some (λ (i : GoodsReceiptItem). i.accepted_quantity) _ _ c.received in
    let (billed, b, quantity) = map-some (λ (i : SupplierInvoiceItem). i.quantity) _ _ c.billed in
    let (o_in, o_for) = last_by-In (λ (i : PurchaseOrderItem). i.product_id == id) po ordered o in
    let (g_in, g_for) = last_by-In (λ (i : GoodsReceiptItem). i.product_id == id) grn received g in
    let (b_in, b_for) = last_by-In (is_for id) bill billed b in
    let (o_here, o_on) =
      In-filter (λ (i : PurchaseOrderItem). i.purchase_order_id == request.purchase_order_id)
        db.purchase_order_items ordered o_in in
    let (g_here, g_on) =
      In-filter (λ (i : GoodsReceiptItem). i.goods_receipt_id == request.goods_receipt_id)
        db.goods_receipt_items received g_in in
    let (b_here, b_on) =
      In-filter (λ (i : SupplierInvoiceItem). i.supplier_invoice_id == request.supplier_invoice_id)
        db.supplier_invoice_items billed b_in in
    let sum =
      ap
        (λ (i : Option SupplierInvoiceItem).
          or_zero (Option.map (λ (x : SupplierInvoiceItem). x.line_total) i))
        b in
    let allowed = request.tolerances.amount_variance_abs in
    record {
      ordered = ordered;
      ordered_in = o_here;
      ordered_on = ground (arith, o_on);
      ordered_product = ground (arith, o_for);
      received = received;
      received_in = g_here;
      received_on = ground (arith, g_on);
      received_product = ground (arith, g_for);
      billed = billed;
      billed_in = b_here;
      billed_on = ground (arith, b_on);
      billed_product = is_for-product id billed b_for;
      quantity_near =
          subst₂ (IsNear request.tolerances.qty_variance_pct) (sym quantity) (sym accepted)
            c.quantity_near;
      price_near =
          subst (IsNear request.tolerances.price_variance_pct billed.unit_price) (sym price) (
            c.price_near billed.unit_price
              (ap (Option.map (λ (x : SupplierInvoiceItem). x.unit_price)) b));
      amount_high =
          subst₂ (λ a u. 1000 * billed.line_total ≤ a * u + allowed) (sym accepted) (sym price)
            (subst (λ x. 1000 * x ≤ c.accepted * c.unit_price + allowed) sum c.amount_high);
      amount_low =
          subst₂ (λ a u. a * u ≤ 1000 * billed.line_total + allowed) (sym accepted) (sym price)
            (subst (λ x. c.accepted * c.unit_price ≤ 1000 * x + allowed) sum c.amount_low);
    }

pub map-In : {A B : Type 0} (f : A → B) (xs : List A) (a : A) → In a xs → In (f a) (map f xs)
map-In f [] a m = absurd m
map-In f (x ∷ xs) a (inl e) = inl (ap f e)
map-In f (x ∷ xs) a (inr m) = inr (map-In f xs a m)

In-append : (xs ys : List ℕ) (a : ℕ) → In a xs ⊎ In a ys → In a (xs ++ ys)
In-append [] ys a (inl m) = absurd m
In-append [] ys a (inr m) = m
In-append (x ∷ xs) ys a (inl (inl e)) = inl e
In-append (x ∷ xs) ys a (inl (inr m)) = inr (In-append xs ys a (inl m))
In-append (x ∷ xs) ys a (inr m) = inr (In-append xs ys a (inr m))

set_of-In : (xs : List ℕ) (a : ℕ) → In a xs → In a (set_of xs)
unfolding set_of
set_of-In [] a m = m
set_of-In (x ∷ xs) a m = elim (Bool-cases (any (λ y. y == x) (set_of xs))) [
  | inr e ↦ rw (set_of, e) (elim m [ inl same ↦ inl same | inr later ↦ inr (set_of-In xs a later) ])
  | inl e ↦
      rw (set_of, e)
        (elim m [
          | inr later ↦ set_of-In xs a later
          | inl same ↦
              let (y, there, equal) = any-find (λ y. y == x) (set_of xs) e in
              let y_is_x : y ≡ x = ground (arith, equal) in
              subst (λ z. In z (set_of xs)) (y_is_x ∙ same) there
        ])
]

named_products-In :
    (items : List SupplierInvoiceItem) (item : SupplierInvoiceItem) (id : ℕ)
    → In item items
    → item.product_id ≡ some id
    → In id (named_products items)
named_products-In [] item id m e = absurd m
named_products-In (x ∷ items) item id (inl same) e =
    let named : x.product_id ≡ some id = ap (λ (i : SupplierInvoiceItem). i.product_id) same ∙ e in
    rw (named_products, named) (inl refl)
named_products-In (x ∷ items) item id (inr m) e = elim (Option-cases x.product_id) [
  | inl none_named ↦ rw (named_products, none_named) (named_products-In items item id m e)
  | inr (other, named) ↦ rw (named_products, named) (inr (named_products-In items item id m e))
]

-- A product of the documents is one that the match goes through.
pub In-product_ids :
    (request : MatchRequest) (db : PurchaseDb) (id : ℕ)
    → IsOnDocuments request db id
    → In id (
        product_ids
          (po_items request.purchase_order_id db)
          (grn_items request.goods_receipt_id db)
          (invoice_items request.supplier_invoice_id db))
unfolding product_ids
In-product_ids request db id on =
    let po = po_items request.purchase_order_id db in
    let grn = grn_items request.goods_receipt_id db in
    let bill = invoice_items request.supplier_invoice_id db in
    let ordered = map (λ (i : PurchaseOrderItem). i.product_id) po in
    let received = map (λ (i : GoodsReceiptItem). i.product_id) grn in
    set_of-In (ordered ++ (received ++ named_products bill)) id (
      In-append ordered (received ++ named_products bill) id (elim on [
        | inl (item, here, of_document, e) ↦ inl (
            subst (λ z. In z ordered) e
              (map-In (λ (i : PurchaseOrderItem). i.product_id) po item
                (filter-In
                  (λ (i : PurchaseOrderItem). i.purchase_order_id == request.purchase_order_id)
                  db.purchase_order_items item here (ground (arith, of_document)))))
        | inr (inl (item, here, of_document, e)) ↦ inr (
            In-append received (named_products bill) id (
              inl (
                subst (λ z. In z received) e
                  (map-In (λ (i : GoodsReceiptItem). i.product_id) grn item
                    (filter-In
                      (λ (i : GoodsReceiptItem). i.goods_receipt_id == request.goods_receipt_id)
                      db.goods_receipt_items item here (ground (arith, of_document)))))))
        | inr (inr (item, here, of_document, e)) ↦ inr (
            In-append received (named_products bill) id (
              inr (
                named_products-In bill item id
                  (filter-In
                    (λ (i : SupplierInvoiceItem).
                      i.supplier_invoice_id == request.supplier_invoice_id)
                    db.supplier_invoice_items item here (ground (arith, of_document)))
                  e)))
      ]))

unmatched_count-In :
    (items : List SupplierInvoiceItem) (item : SupplierInvoiceItem)
    → unmatched_count items ≡ 0
    → In item items
    → has_no_product item ≡ false
unfolding unmatched_count
unmatched_count-In [] item h m = absurd m
unmatched_count-In (x ∷ items) item h (inl e) =
    subst (λ (i : SupplierInvoiceItem). has_no_product i ≡ false) e
      (elim (Bool-cases (has_no_product x)) [
        | inr named ↦ named
        | inl missing ↦
            let counted : 1 + unmatched_count items ≡ 0 = rw (unmatched_count, missing) at h in
            absurd (omega (arith, counted))
      ])
unmatched_count-In (x ∷ items) item h (inr m) =
    let rest : unmatched_count items ≡ 0 = omega (arith, h) in unmatched_count-In items item rest m

-- Where no line of an invoice is counted as unmatched, each names its product.
pub named_item :
    (invoice_id : ℕ) (items : List SupplierInvoiceItem) (item : SupplierInvoiceItem)
    → In item items
    → item.supplier_invoice_id ≡ invoice_id
    → unmatched_count
        (filter (λ (i : SupplierInvoiceItem). i.supplier_invoice_id == invoice_id) items)
      ≡ 0
    → (id : ℕ) × (item.product_id ≡ some id)
named_item invoice_id items item m e h =
    let mine = λ (i : SupplierInvoiceItem). i.supplier_invoice_id == invoice_id in
    let there = filter-In mine items item m (ground (arith, e)) in
    let named = unmatched_count-In (filter mine items) item h there in
    elim (Option-cases item.product_id) [
      | inr found ↦ found
      | inl missing ↦ let clash : true ≡ false = rw (has_no_product, missing) at named in cc
    ]
