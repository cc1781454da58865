-- ===== src/Matching/Repeated.antt =====
-- A product that an invoice bills on two lines.
use vyaparaflowai.Prelude.{
  ℕ, ◌≡◌, refl, subst, ap, inl, inr, Bool, true, false, some, List, [], ◌∷◌, ◌++◌, map, String,
  arith, ◌==◌, ltb, any, Bool-cases, Option-cases,
}
use vyaparaflowai.Errors.{ok, integrity_error, raise_if, >>=-eq-ok, ok-inj}
use vyaparaflowai.Purchase.{
  PurchaseOrder, PurchaseOrderItem, GoodsReceiptItem, SupplierInvoice, SupplierInvoiceItem, Product,
}
use vyaparaflowai.Matching.Verdict.{evaluate_three_way_match}
use vyaparaflowai.Matching.Documents.{
  RunThreeWayMatchResult, MatchDb, MatchRequest, load_documents, po_items, grn_items, invoice_items,
  last_by, is_for, unmatched_count, named_products, set_of, product_ids, match_line, match_input,
  recorded, match_three_way,
}

last_by-any {ℓ} :
    {A : Type ℓ} (test : A → Bool) (xs : List A)
    → any test xs ≡ true
    → (y : A) × (last_by test xs ≡ some y)
unfolding last_by
last_by-any test [] h = cc
last_by-any test (x ∷ xs) h = elim (Option-cases (last_by test xs)) [
  | inr (y, e) ↦ (y, rw (last_by, e) refl)
  | inl e ↦ elim (Bool-cases (any test xs)) [
    | inl later ↦ let (y, f) = last_by-any test xs later in (y, rw (last_by, f) refl)
    | inr none_later ↦
        let passes : test x ≡ true = ground (arith, h, none_later) in
        (x, rw (last_by, e, passes) refl)
  ]
]

-- A line is not looked at when a later one is for the same product.
last_by-repeated :
    (id product : ℕ) (x : SupplierInvoiceItem) (items : List SupplierInvoiceItem)
    → x.product_id ≡ some product
    → any (is_for product) items ≡ true
    → last_by (is_for id) (x ∷ items) ≡ last_by (is_for id) items
unfolding last_by
last_by-repeated id product x items named again = elim (Bool-cases (product == id)) [
  | inl e ↦
      let same : product ≡ id = ground (arith, e) in
      let (y, f) =
        last_by-any (is_for id) items (subst (λ p. any (is_for p) items ≡ true) same again) in
      rw (last_by, f) refl
  | inr e ↦
      let other : is_for id x ≡ false = rw (is_for, named) e in
      elim (Option-cases (last_by (is_for id) items)) [
        | inl f ↦ rw (last_by, f, other) refl
        | inr (y, f) ↦ rw (last_by, f) refl
      ]
]

any-set_of :
    (x : ℕ) (xs : List ℕ) → any (λ y. y == x) xs ≡ true → any (λ y. y == x) (set_of xs) ≡ true
unfolding set_of
any-set_of x [] h = h
any-set_of x (y ∷ ys) h = elim (Bool-cases (any (λ z. z == y) (set_of ys))) [
  | inl e ↦ elim (Bool-cases (y == x)) [
    | inl same ↦
        let y_is_x : y ≡ x = ground (arith, same) in
        rw (set_of, e) (subst (λ n. any (λ z. z == n) (set_of ys) ≡ true) y_is_x e)
    | inr other ↦
        let rest : any (λ z. z == x) ys ≡ true = rw (any, other) at h in
        rw (set_of, e) (any-set_of x ys rest)
  ]
  | inr e ↦ elim (Bool-cases (y == x)) [
    | inl same ↦ rw (set_of, e, same) refl
    | inr other ↦
        let rest : any (λ z. z == x) ys ≡ true = rw (any, other) at h in
        rw (set_of, e, other) (any-set_of x ys rest)
  ]
]

any-named :
    (product : ℕ) (items : List SupplierInvoiceItem)
    → any (is_for product) items ≡ true
    → any (λ y. y == product) (named_products items) ≡ true
any-named product [] h = h
any-named product (item ∷ items) h = elim (Option-cases item.product_id) [
  | inl e ↦
      let rest : any (is_for product) items ≡ true = rw (any, is_for, e) at h in
      rw e (any-named product items rest)
  | inr (id, e) ↦ elim (Bool-cases (id == product)) [
    | inl same ↦ rw (e, same) refl
    | inr other ↦
        let rest : any (is_for product) items ≡ true = rw (any, is_for, e, other) at h in
        rw (e, other) (any-named product items rest)
  ]
]

any-append : (test : ℕ → Bool) (xs ys : List ℕ) → any test ys ≡ true → any test (xs ++ ys) ≡ true
any-append test [] ys h = h
any-append test (x ∷ xs) ys h = ground (arith, any-append test xs ys h)

set_of-append : (xs ys zs : List ℕ) → set_of ys ≡ set_of zs → set_of (xs ++ ys) ≡ set_of (xs ++ zs)
unfolding set_of
set_of-append [] ys zs h = h
set_of-append (x ∷ xs) ys zs h = rw (set_of, set_of-append xs ys zs h) refl

map-eq : {A B : Type 0} (f g : A → B) (xs : List A) → ((a : A) → f a ≡ g a) → map f xs ≡ map g xs
map-eq f g [] h = refl
map-eq f g (x ∷ xs) h = rw (h x, map-eq f g xs h) refl

set_of_repeated :
    (product : ℕ) (x : SupplierInvoiceItem) (items : List SupplierInvoiceItem)
    → x.product_id ≡ some product
    → any (is_for product) items ≡ true
    → set_of (named_products (x ∷ items)) ≡ set_of (named_products items)
unfolding set_of
set_of_repeated product x items named again =
    rw (named_products, named)
      (rw (set_of, any-set_of product (named_products items) (any-named product items again)) refl)

product_ids_repeated :
    (po : List PurchaseOrderItem) (grn : List GoodsReceiptItem) (product : ℕ)
    (x : SupplierInvoiceItem) (items : List SupplierInvoiceItem)
    → x.product_id ≡ some product
    → any (is_for product) items ≡ true
    → product_ids po grn (x ∷ items) ≡ product_ids po grn items
unfolding product_ids
product_ids_repeated po grn product x items named again =
    set_of-append (map (λ (i : PurchaseOrderItem). i.product_id) po) _ _ (
      set_of-append (map (λ (i : GoodsReceiptItem). i.product_id) grn) _ _
        (set_of_repeated product x items named again))

unmatched_count_named :
    (product : ℕ) (x : SupplierInvoiceItem) (items : List SupplierInvoiceItem)
    → x.product_id ≡ some product
    → unmatched_count (x ∷ items) ≡ unmatched_count items
unfolding unmatched_count
unmatched_count_named product x items named = rw (unmatched_count, named) (omega arith)

-- The tables with one more invoice line.
abbrev pub with_line : SupplierInvoiceItem → MatchDb → MatchDb
with_line x db = record db {
  books = record db.books { supplier_invoice_items = x ∷ db.books.supplier_invoice_items };
}

module _ (text_of_id : ℕ → String) (iteration : List ℕ → List ℕ) (request : MatchRequest)
    (new_id : ℕ) (db : MatchDb) (x : SupplierInvoiceItem) (product : ℕ) where
  match_line_repeated :
      (products : List Product) (po : List PurchaseOrderItem) (grn : List GoodsReceiptItem)
      (items : List SupplierInvoiceItem) (id : ℕ)
      → x.product_id ≡ some product
      → any (is_for product) items ≡ true
      → match_line text_of_id products po grn (x ∷ items) id
        ≡ match_line text_of_id products po grn items id
  unfolding match_line
  match_line_repeated products po grn items id named again =
      rw (last_by-repeated id product x items named again) refl

  match_input_repeated :
      (order : PurchaseOrder) (invoice : SupplierInvoice)
      → x.supplier_invoice_id ≡ request.supplier_invoice_id
      → x.product_id ≡ some product
      → any (is_for product) (invoice_items request.supplier_invoice_id db.books) ≡ true
      → match_input text_of_id iteration request (with_line x db).books order invoice
        ≡ match_input text_of_id iteration request db.books order invoice
  unfolding match_input
  match_input_repeated order invoice of_invoice named again =
      let mine : (x.supplier_invoice_id == request.supplier_invoice_id) ≡ true =
        ground (arith, of_invoice) in
      let po = po_items request.purchase_order_id db.books in
      let grn = grn_items request.goods_receipt_id db.books in
      let items = invoice_items request.supplier_invoice_id db.books in
      let lines =
        map-eq (match_line text_of_id db.books.products po grn (x ∷ items))
          (match_line text_of_id db.books.products po grn items)
          (iteration (product_ids po grn items))
          (λ id. match_line_repeated db.books.products po grn items id named again) in
      rw
        (
          match_input,
          mine,
          product_ids_repeated po grn product x items named again,
          unmatched_count_named product x items named,
          lines,
        )
        refl

  -- When an invoice bills a product again on a later line, the outcome is the same with and without the
  -- first line, whatever it bills: no quantity, price or amount of it is looked at.
  pub match_three_way-repeated :
      (r : RunThreeWayMatchResult × MatchDb)
      → x.supplier_invoice_id ≡ request.supplier_invoice_id
      → x.product_id ≡ some product
      → any (is_for product) (invoice_items request.supplier_invoice_id db.books) ≡ true
      → match_three_way text_of_id iteration request new_id db ≡ ok r
      → (s : RunThreeWayMatchResult × MatchDb) × (match_three_way text_of_id iteration request
            new_id
            (with_line x db)
          ≡ ok s)
        × (s.0.outcome ≡ r.0.outcome)
  unfolding match_three_way load_documents
  match_three_way-repeated r of_invoice named again h =
      let (found, loaded, h1) = >>=-eq-ok (load_documents request db.books) _ h in
      let outcome =
        evaluate_three_way_match
          (match_input text_of_id iteration request db.books found.0 found.2) in
      let (_, within, h2) =
        >>=-eq-ok (raise_if (ltb 100 outcome.risk_score) integrity_error) _ h1 in
      let same = match_input_repeated found.0 found.2 of_invoice named again in
      (
        recorded request new_id outcome (with_line x db),
        rw (loaded, same, within) refl,
        ap (λ (y : RunThreeWayMatchResult × MatchDb). y.0.outcome) (ok-inj h2),
      )
