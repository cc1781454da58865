-- ===== src/Receiving/Billing.antt =====
-- What `create_supplier_invoice` returns and writes.
use text.Mathlib.TextEquality.{eq_iff}
use vyaparaflowai.Prelude.{
  ℕ, ◌*◌, ◌≤◌, ◌<◌, ◌||◌, ◌≡◌, ◌≢◌, refl, sym, ap, subst, total, ◌∙◌, ◌⊎◌, inl, inr, true, false,
  not, ◌&&◌, Option, none, some, List, [], ◌∷◌, ◌++◌, map, arith, ◌==◌, ltb, any, any-none,
  any-find, is_empty, In, All, Bool-cases,
}
use vyaparaflowai.Prelude.Int.{pos, ◌+ℤ◌, int_laws}
use vyaparaflowai.Errors.{
  Error, ok, err, not_found, conflict, validation, integrity_error, data_error, raise_if, >>=-eq-ok,
  IsAppError, IsHandled, >>=-IsHandled, raise_if-IsHandled, raise_if-passed, answered, refused,
}
use vyaparaflowai.Purchase.{
  PurchaseOrder, SupplierInvoice, SupplierInvoiceItem, Product, Supplier, PurchaseDb,
  get_purchase_order, get_supplier,
}
use vyaparaflowai.Purchase.Lookup.{get_owned-IsHandled, get_owned-In}
use vyaparaflowai.Payments.{SupplierInvoiceStatus}
use vyaparaflowai.Receiving.Invoices.{
  SupplierInvoiceLineInput, CreateSupplierInvoiceRequest, CreateSupplierInvoiceResult, check_order,
  is_unknown, invoice_item, subtotal_of, total_of, invoice_row, posted_invoice, is_duplicate,
  invoice_overflows, line_overflows, is_nothing, check_invoice, create_supplier_invoice,
}

-- No two invoices of a supplier have one number.
abbrev pub DiffersInvoice : SupplierInvoice → SupplierInvoice → Type 0
DiffersInvoice a b = (a.supplier_id ≡ b.supplier_id) → a.invoice_number ≢ b.invoice_number

-- What a row says of the line that it is written for.
abbrev pub billed_line : SupplierInvoiceItem → SupplierInvoiceLineInput
billed_line item = record {
  product_id = item.product_id;
  quantity = item.quantity;
  unit_price = item.unit_price;
  gst_rate = item.gst_rate;
  line_total = item.line_total;
}

invoice_item-billed_line :
    (id : ℕ) (lines : List SupplierInvoiceLineInput)
    → map billed_line (map (invoice_item id) lines) ≡ lines
invoice_item-billed_line id [] = refl
invoice_item-billed_line id (line ∷ lines) =
    ap (λ rest. line ∷ rest) (invoice_item-billed_line id lines)

invoice_item-id :
    (id : ℕ) (lines : List SupplierInvoiceLineInput)
    → All
        (λ (item : SupplierInvoiceItem). item.supplier_invoice_id ≡ id)
        (map (invoice_item id) lines)
invoice_item-id id [] = tt
invoice_item-id id (line ∷ lines) = (refl, invoice_item-id id lines)

any-is_nothing :
    (lines : List SupplierInvoiceLineInput)
    → All (λ (line : SupplierInvoiceLineInput). 0 < line.quantity) lines
    → any is_nothing lines ≡ false
any-is_nothing [] h = refl
any-is_nothing (line ∷ lines) h = ground (arith, h.0, any-is_nothing lines h.1)

total_of-thousands :
    (lines : List SupplierInvoiceLineInput)
    → total_of lines ≡ 1000 * total (λ (line : SupplierInvoiceLineInput). line.line_total) lines
unfolding total_of
total_of-thousands [] = refl
total_of-thousands (line ∷ lines) = omega (arith, total_of-thousands lines)

module _ (org_id : ℕ) (request : CreateSupplierInvoiceRequest) (new_id : ℕ) (db : PurchaseDb) where
  -- What an accepted request is, and what it leaves.
  pub record IsBilled (result : CreateSupplierInvoiceResult) (db' : PurchaseDb) : Type 0 where
    pub in_time : request.invoice_date ≤ request.due_date
    pub supplier : Supplier
    pub found : get_supplier org_id request.supplier_id db ≡ ok supplier
    pub of_supplier :
        (id : ℕ)
        → request.purchase_order_id ≡ some id
        → (order : PurchaseOrder) × (get_purchase_order org_id id db ≡ ok order)
          × (order.supplier_id ≡ request.supplier_id)
    pub known :
        (line : SupplierInvoiceLineInput) (id : ℕ)
        → In line request.lines
        → line.product_id ≡ some id
        → (product : Product) × In product db.products
          × (product.id ≡ id)
          × (product.org_id ≡ org_id)
    pub row : SupplierInvoice
    pub written : db'.supplier_invoices ≡ row ∷ db.supplier_invoices
    pub row_id : row.id ≡ result.supplier_invoice_id
    pub row_org : row.org_id ≡ org_id
    pub row_supplier : row.supplier_id ≡ request.supplier_id
    pub row_order : row.purchase_order_id ≡ request.purchase_order_id
    pub row_number : row.invoice_number ≡ request.invoice_number
    pub row_dates : (row.invoice_date ≡ request.invoice_date) × (row.due_date ≡ request.due_date)
    pub row_status : row.status ≡ SupplierInvoiceStatus.received
    pub row_subtotal :
        row.subtotal
        ≡ total (λ (line : SupplierInvoiceLineInput). line.quantity * line.unit_price) request.lines
    pub row_total :
        row.total
        ≡ 1000 * total (λ (line : SupplierInvoiceLineInput). line.line_total) request.lines
    pub adds_up : pos row.total ≡ pos row.subtotal +ℤ row.tax_total
    pub answered_sums :
        (result.subtotal ≡ row.subtotal)
        × (result.tax_total ≡ row.tax_total)
        × (result.total_amount ≡ row.total)
    pub rows : List SupplierInvoiceItem
    pub items : db'.supplier_invoice_items ≡ rows ++ db.supplier_invoice_items
    pub of_lines : map billed_line rows ≡ request.lines
    pub of_invoice : All (λ (item : SupplierInvoiceItem). item.supplier_invoice_id ≡ row.id) rows
    pub new_number : All (DiffersInvoice row) db.supplier_invoices

  new_number-any :
      (rows : List SupplierInvoice) (row : SupplierInvoice)
      → row.supplier_id ≡ request.supplier_id
      → row.invoice_number ≡ request.invoice_number
      → any (is_duplicate request) rows ≡ false
      → All (DiffersInvoice row) rows
  new_number-any [] row s n h = tt
  new_number-any (x ∷ rows) row s n h = elim (Bool-cases (is_duplicate request x)) [
    | inl e ↦ let clash : true ≡ false = rw (any, e) at h in cc
    | inr e ↦ (
      (λ same_supplier same_number.
          let supplier : x.supplier_id ≡ request.supplier_id = cc in
          let number : x.invoice_number ≡ request.invoice_number = cc in
          let text = (eq_iff x.invoice_number request.invoice_number).1 number in
          let both : is_duplicate request x ≡ true = ground (arith, supplier, text) in
          let clash : true ≡ false = sym both ∙ e in cc),
      new_number-any rows row s n (rw (any, e) at h),
    )
  ]

  known-any :
      (line : SupplierInvoiceLineInput) (id : ℕ)
      → any (is_unknown org_id db.products) request.lines ≡ false
      → In line request.lines
      → line.product_id ≡ some id
      → (product : Product) × In product db.products × (product.id ≡ id) × (product.org_id ≡ org_id)
  known-any line id h m e =
      let passed = any-none (is_unknown org_id db.products) request.lines line h m in
      let test = λ (p : Product). p.id == id && p.org_id == org_id in
      let there : not (any test db.products) ≡ false = rw (is_unknown, e) at passed in
      elim (Bool-cases (any test db.products)) [
        | inr absent ↦ let clash : true ≡ false = rw absent at there in cc
        | inl present ↦
            let (p, m', both) = any-find test db.products present in
            (p, m', ground (arith, both), ground (arith, both))
      ]

  check_order-supplier :
      (supplier_id id : ℕ)
      → check_order org_id supplier_id (some id) db ≡ ok tt
      → (order : PurchaseOrder) × (get_purchase_order org_id id db ≡ ok order)
        × (order.supplier_id ≡ supplier_id)
  unfolding check_order
  check_order-supplier supplier_id id h =
      let (order, found, same) = >>=-eq-ok (get_purchase_order org_id id db) _ h in
      (
        order,
        found,
        ground (arith, raise_if-passed (not (order.supplier_id == supplier_id)) conflict same),
      )

  check_order-IsHandled :
      (supplier_id : ℕ) (order : Option ℕ) → IsHandled (check_order org_id supplier_id order db)
  unfolding check_order
  check_order-IsHandled supplier_id none = answered tt refl
  check_order-IsHandled supplier_id (some id) =
      >>=-IsHandled (get_purchase_order org_id id db) _
        (get_owned-IsHandled _ _ org_id id db.purchase_orders)
        λ order _. raise_if-IsHandled (not (order.supplier_id == supplier_id)) conflict tt

  check_invoice-IsHandled : IsHandled (check_invoice org_id request db)
  unfolding check_invoice
  check_invoice-IsHandled =
      let no_lines = is_empty request.lines in
      let late = ltb request.due_date request.invoice_date in
      >>=-IsHandled (raise_if no_lines validation) _ (raise_if-IsHandled no_lines validation tt)
        λ _ _.
          >>=-IsHandled (raise_if late validation) _ (raise_if-IsHandled late validation tt) λ _ _.
            >>=-IsHandled (get_supplier org_id request.supplier_id db) _
              (get_owned-IsHandled _ _ org_id request.supplier_id db.suppliers)
              λ supplier _.
                >>=-IsHandled (check_order org_id supplier.id request.purchase_order_id db) _
                  (check_order-IsHandled supplier.id request.purchase_order_id)
                  λ _ _.
                    raise_if-IsHandled (any (is_unknown org_id db.products) request.lines) not_found
                      tt

  check_invoice-IsBilled :
      check_invoice org_id request db ≡ ok tt
      → any (is_duplicate request) db.supplier_invoices ≡ false
      → IsBilled
          (posted_invoice org_id request new_id db).0
          (posted_invoice org_id request new_id db).1
  unfolding check_invoice
  check_invoice-IsBilled h fresh =
      let (_, _, h1) = >>=-eq-ok (raise_if (is_empty request.lines) validation) _ h in
      let (_, d, h2) =
        >>=-eq-ok (raise_if (ltb request.due_date request.invoice_date) validation) _ h1 in
      let (supplier, s, h3) = >>=-eq-ok (get_supplier org_id request.supplier_id db) _ h2 in
      let (_, o, k) =
        >>=-eq-ok (check_order org_id supplier.id request.purchase_order_id db) _ h3 in
      let key = (get_owned-In _ _ org_id request.supplier_id db.suppliers supplier s).1 in
      let unknown =
        raise_if-passed (any (is_unknown org_id db.products) request.lines) not_found k in
      record {
        in_time =
            ground
              (arith, raise_if-passed (ltb request.due_date request.invoice_date) validation d);
        supplier = supplier;
        found = s;
        of_supplier = λ id e.
            subst
              (λ k.
                (order : PurchaseOrder) × (get_purchase_order org_id id db ≡ ok order)
                × (order.supplier_id ≡ k))
              key
              (check_order-supplier supplier.id id
                (subst (λ p. check_order org_id supplier.id p db ≡ ok tt) e o));
        known = λ line id m e. known-any line id unknown m e;
        row = invoice_row org_id new_id request;
        written = refl;
        row_id = refl;
        row_org = refl;
        row_supplier = refl;
        row_order = refl;
        row_number = refl;
        row_dates = (refl, refl);
        row_status = refl;
        row_subtotal = unfold subtotal_of in refl;
        row_total = total_of-thousands request.lines;
        adds_up = omega int_laws;
        answered_sums = (refl, refl, refl);
        rows = map (invoice_item new_id) request.lines;
        items = refl;
        of_lines = invoice_item-billed_line new_id request.lines;
        of_invoice = invoice_item-id new_id request.lines;
        new_number =
            new_number-any db.supplier_invoices (invoice_row org_id new_id request) refl refl fresh;
      }

  -- A request for positive quantities, in whole thousandths, paise and hundredths of a percent, which
  -- is what the columns keep of the lines, is answered by an exception of the service, by a violation
  -- of the unique key by a second invoice with this number of the supplier, by the database's refusal
  -- of a value beyond its column, or by an invoice that is written. Such an invoice has the supplier,
  -- order, number and dates of the request, is due no sooner than it is dated, its supplier and
  -- products are the organization's, its order is one of the supplier's, and no other invoice of the
  -- supplier has its number. Its rows are the lines of the request, its subtotal the sum of their
  -- quantities at their prices, its total the sum of their totals, its tax the difference, all before
  -- the columns round them to paise, and the answer has the same sums.
  pub create_supplier_invoice_cases :
      All (λ (line : SupplierInvoiceLineInput). 0 < line.quantity) request.lines
      → ((r : CreateSupplierInvoiceResult × PurchaseDb) × (create_supplier_invoice org_id request
              new_id db
            ≡ ok r)
          × IsBilled r.0 r.1)
        ⊎ (((create_supplier_invoice org_id request new_id db ≡ err integrity_error)
              × (any (is_duplicate request) db.supplier_invoices ≡ true))
            ⊎ ((create_supplier_invoice org_id request new_id db ≡ err data_error)
                × (invoice_overflows request || any line_overflows request.lines ≡ true))
            ⊎ ((e : Error) × (create_supplier_invoice org_id request new_id db ≡ err e)
                × IsAppError e))
  unfolding create_supplier_invoice
  create_supplier_invoice_cases positive = elim check_invoice-IsHandled [
    | refused e h handled ↦ inr (inr (inr (e, rw (create_supplier_invoice, h) refl, handled)))
    | answered _ h ↦ elim (Bool-cases (invoice_overflows request)) [
      | inl o ↦ inr (inr (inl (rw (create_supplier_invoice, h, o) refl, rw o refl)))
      | inr o ↦ elim (Bool-cases (any (is_duplicate request) db.supplier_invoices)) [
        | inl e ↦ inr (inl (rw (create_supplier_invoice, h, o, e) refl, e))
        | inr e ↦ elim (Bool-cases (any line_overflows request.lines)) [
          | inl l ↦ inr (inr (inl (rw (create_supplier_invoice, h, o, e, l) refl, rw (o, l) refl)))
          | inr l ↦
              let full = any-is_nothing request.lines positive in
              inl (
                posted_invoice org_id request new_id db,
                rw (create_supplier_invoice, h, o, e, l, full) refl,
                check_invoice-IsBilled h e,
              )
        ]
      ]
    ]
  ]
