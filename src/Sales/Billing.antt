-- ===== src/Sales/Billing.antt =====
-- What the invoice of a delivery settles, and what it closes.
use vyaparaflowai.Prelude.{
  ℕ, ◌≡◌, ◌≢◌, refl, sym, ap, ◌∙◌, subst, true, false, not, List, [], ◌∷◌, map, arith, ◌==◌,
  if◌then◌else◌, any, all, filter, is_empty, total, inl, inr, Bool-cases, All, All-In,
}
use vyaparaflowai.Prelude.Int.{ℤ}
use vyaparaflowai.Errors.{
  ok, conflict, validation, integrity_error, raise_if, >>=-eq-ok, ok-inj, raise_if-passed,
}
use vyaparaflowai.Numbering.{Date, next_document_number}
use vyaparaflowai.Purchase.{get_owned}
use vyaparaflowai.Purchase.Lookup.{get_owned-In}
use vyaparaflowai.Sales.Tables.{
  SalesOrderStatus, invoiced, SalesOrder, Delivery, CustomerInvoiceItem, SalesDb,
}
use vyaparaflowai.Sales.Requests.{
  CreateCustomerInvoiceFromDeliveryRequest, CreateCustomerInvoiceFromDeliveryResult,
  CreateDeliveryRequest, CreateDeliveryResult, is_dispatchable,
}
use vyaparaflowai.Sales.Checks.{validate_customer, validate_organization}
use vyaparaflowai.Sales.Ordering.{get_sales_order, set_order_status}
use vyaparaflowai.Sales.Counter.{has_invoice_number, check_invoice_item}
use vyaparaflowai.Sales.Dispatch.{check_delivery, create_delivery}
use vyaparaflowai.Sales.Invoicing.{
  billed_items, billed_line, is_line_of, bills, is_all_invoiced, BillableDelivery, find_order,
  check_billable, create_customer_invoice_from_delivery,
}

-- The delivery that is billed is the one that was asked for, with all its lines.
pub check_billable-lines :
    (org_id delivery_id : ℕ) (db : SalesDb) (found : BillableDelivery)
    → check_billable org_id delivery_id db ≡ ok found
    → (found.delivery.id ≡ delivery_id)
      × (found.lines ≡ filter (is_line_of delivery_id) db.delivery_items)
unfolding check_billable
check_billable-lines org_id delivery_id db found h =
    let id_of = λ (d : Delivery). d.id in
    let org_of = λ (d : Delivery). d.org_id in
    let (delivery, d, h1) =
      >>=-eq-ok (get_owned id_of org_of org_id delivery_id db.deliveries) _ h in
    let (order, _, h2) = >>=-eq-ok (find_order delivery.sales_order_id db.sales_orders) _ h1 in
    let (customer, _, h3) = >>=-eq-ok (validate_customer org_id order.customer_id db) _ h2 in
    let (_, _, h4) = >>=-eq-ok (validate_organization org_id db) _ h3 in
    let lines = filter (is_line_of delivery.id) db.delivery_items in
    let (_, _, h5) = >>=-eq-ok (raise_if (is_empty lines) validation) _ h4 in
    let (_, key, _) = get_owned-In id_of org_of org_id delivery_id db.deliveries delivery d in
    let same = ok-inj h5 in
    (
      ap (λ (b : BillableDelivery). b.delivery.id) (sym same) ∙ key,
      ap (λ (b : BillableDelivery). b.lines) (sym same)
          ∙ ap (λ id. filter (is_line_of id) db.delivery_items) key,
    )

-- What a call that succeeds went through.
pub record IsBilled (plus_days : Date → ℤ → Date) (slice : ℕ → ℕ → ℕ → ℕ) (org_id : ℕ)
    (request : CreateCustomerInvoiceFromDeliveryRequest) (new_id : ℕ) (db : SalesDb)
    (r : CreateCustomerInvoiceFromDeliveryResult × SalesDb) : Type 0 where
  pub found : BillableDelivery
  pub checked : check_billable org_id request.delivery_id db ≡ ok found
  pub items : List CustomerInvoiceItem
  pub sliced : billed_items slice new_id db.sales_order_items db.products found.lines ≡ ok items
  pub unbilled : any (bills request.delivery_id) db.customer_invoices ≡ false
  pub billed_now : any (bills request.delivery_id) r.1.customer_invoices ≡ true
  pub orders : r.1.sales_orders ≡ (
      if is_all_invoiced found.order.id found.delivery.id db
      then set_order_status found.order.id invoiced db.sales_orders
      else db.sales_orders)
  pub lines : r.0.lines ≡ map billed_line items
  pub stock_same : r.1.inventory ≡ db.inventory
  pub subtotal : r.0.subtotal ≡ total (λ (i : CustomerInvoiceItem). i.line_subtotal) items
  pub tax_total : r.0.tax_total ≡ total (λ (i : CustomerInvoiceItem). i.line_tax) items
  pub amount : r.0.total ≡ total (λ (i : CustomerInvoiceItem). i.line_total) items

module _ (plus_days : Date → ℤ → Date) (slice : ℕ → ℕ → ℕ → ℕ) (org_id : ℕ) where
  pub create_customer_invoice_from_delivery-IsBilled :
      (request : CreateCustomerInvoiceFromDeliveryRequest) (new_id : ℕ) (db : SalesDb)
      (r : CreateCustomerInvoiceFromDeliveryResult × SalesDb)
      → create_customer_invoice_from_delivery plus_days slice org_id request new_id db ≡ ok r
      → IsBilled plus_days slice org_id request new_id db r
  unfolding create_customer_invoice_from_delivery
  create_customer_invoice_from_delivery-IsBilled request new_id db r h =
      let (found, f, h1) = >>=-eq-ok (check_billable org_id request.delivery_id db) _ h in
      let (numbered, _, h2) =
        >>=-eq-ok (next_document_number org_id "customer_invoice" request.invoice_date db.sequences)
          _ h1 in
      let (_, _, h3) =
        >>=-eq-ok
          (raise_if (any (has_invoice_number org_id numbered.0) db.customer_invoices)
            integrity_error)
          _ h2 in
      let (_, new, h4) =
        >>=-eq-ok (raise_if (any (bills found.delivery.id) db.customer_invoices) integrity_error) _
          h3 in
      let (items, i, h5) =
        >>=-eq-ok (billed_items slice new_id db.sales_order_items db.products found.lines) _ h4 in
      let (_, _, h6) =
        >>=-eq-ok (raise_if (not (all check_invoice_item items)) integrity_error) _ h5 in
      let key = (check_billable-lines org_id request.delivery_id db found f).0 in
      subst (IsBilled plus_days slice org_id request new_id db) (ok-inj h6) (record {
        found = found;
        checked = f;
        items = items;
        sliced = i;
        unbilled =
            subst (λ id. any (bills id) db.customer_invoices ≡ false) key
              (raise_if-passed (any (bills found.delivery.id) db.customer_invoices) integrity_error
                new);
        billed_now = rw key (ground arith);
        orders = refl;
        lines = refl;
        stock_same = refl;
        subtotal = refl;
        tax_total = refl;
        amount = refl;
      })

  -- A delivery that is billed is never billed again, on the tables as the first invoice leaves them:
  -- the second call raises.
  pub create_customer_invoice_from_delivery-once :
      (request again : CreateCustomerInvoiceFromDeliveryRequest) (new_id other_id : ℕ)
      (db : SalesDb) (r s : CreateCustomerInvoiceFromDeliveryResult × SalesDb)
      → again.delivery_id ≡ request.delivery_id
      → create_customer_invoice_from_delivery plus_days slice org_id request new_id db ≡ ok r
      → create_customer_invoice_from_delivery plus_days slice org_id again other_id r.1 ≢ ok s
  create_customer_invoice_from_delivery-once request again new_id other_id db r s same first
        second =
      let b = create_customer_invoice_from_delivery-IsBilled request new_id db r first in
      let c = create_customer_invoice_from_delivery-IsBilled again other_id r.1 s second in
      let unbilled = subst (λ id. any (bills id) r.1.customer_invoices ≡ false) same c.unbilled in
      let clash : true ≡ false = sym b.billed_now ∙ unbilled in cc

-- Every row of the order has the new status.
abbrev pub HasStatus : ℕ → SalesOrderStatus → SalesOrder → Type 0
HasStatus order_id status order = order.id ≡ order_id → order.status ≡ status

pub set_order_status-HasStatus :
    (order_id : ℕ) (status : SalesOrderStatus) (orders : List SalesOrder)
    → All (HasStatus order_id status) (set_order_status order_id status orders)
unfolding set_order_status
set_order_status-HasStatus order_id status [] = tt
set_order_status-HasStatus order_id status (o ∷ orders) =
    let rest = set_order_status-HasStatus order_id status orders in
    elim (Bool-cases (o.id == order_id)) [
      | inl e ↦ rw e ((λ same. refl), rest)
      | inr e ↦ rw e ((λ same. absurd (ground (arith, e, same))), rest)
    ]

-- No delivery is made for an order whose status is not one that can be dispatched.
create_delivery-refused :
    (org_id : ℕ) (request : CreateDeliveryRequest) (new_id : ℕ) (db : SalesDb)
    (status : SalesOrderStatus) (s : CreateDeliveryResult × SalesDb)
    → is_dispatchable status ≡ false
    → All (HasStatus request.sales_order_id status) db.sales_orders
    → create_delivery org_id request new_id db ≢ ok s
unfolding create_delivery check_delivery
create_delivery-refused org_id request new_id db status s closed h made =
    let (found, checked, _) = >>=-eq-ok (check_delivery org_id request db) _ made in
    let (_, _, h1) = >>=-eq-ok (raise_if (is_empty request.lines) validation) _ checked in
    let (order, o, h2) = >>=-eq-ok (get_sales_order org_id request.sales_order_id db) _ h1 in
    let (_, open_order, _) =
      >>=-eq-ok (raise_if (not (is_dispatchable order.status)) conflict) _ h2 in
    let (m, key, _) =
      get_owned-In (λ (o : SalesOrder). o.id) (λ (o : SalesOrder). o.org_id) org_id
        request.sales_order_id db.sales_orders order o in
    let has = All-In (HasStatus request.sales_order_id status) db.sales_orders order h m key in
    let can = raise_if-passed (not (is_dispatchable order.status)) conflict open_order in
    let cannot = ap is_dispatchable has ∙ closed in
    let no : true ≡ false = ap not (sym cannot) ∙ can in cc

-- Once every delivery of an order is billed, also if they are only a part of it, no delivery is made
-- for the order any more, on the tables as the last invoice leaves them: the call raises.
pub create_customer_invoice_from_delivery-closes :
    (plus_days : Date → ℤ → Date) (slice : ℕ → ℕ → ℕ → ℕ) (org_id : ℕ)
    (request : CreateCustomerInvoiceFromDeliveryRequest) (new_id : ℕ) (db : SalesDb)
    (found : BillableDelivery) (r : CreateCustomerInvoiceFromDeliveryResult × SalesDb)
    (delivery : CreateDeliveryRequest) (other_id : ℕ) (s : CreateDeliveryResult × SalesDb)
    → create_customer_invoice_from_delivery plus_days slice org_id request new_id db ≡ ok r
    → check_billable org_id request.delivery_id db ≡ ok found
    → is_all_invoiced found.order.id found.delivery.id db ≡ true
    → delivery.sales_order_id ≡ found.order.id
    → create_delivery org_id delivery other_id r.1 ≢ ok s
create_customer_invoice_from_delivery-closes plus_days slice org_id request new_id db found r
      delivery other_id s first checked complete same =
    let b =
      create_customer_invoice_from_delivery-IsBilled plus_days slice org_id request new_id db r
        first in
    let same_found : b.found ≡ found = ok-inj (sym b.checked ∙ checked) in
    let test = λ (f : BillableDelivery). is_all_invoiced f.order.id f.delivery.id db in
    let orders =
      subst
        (λ (f : BillableDelivery). r.1.sales_orders ≡ (
          if test f then set_order_status f.order.id invoiced db.sales_orders else db.sales_orders))
        same_found b.orders in
    let settled : r.1.sales_orders ≡ set_order_status found.order.id invoiced db.sales_orders =
      orders ∙ rw complete refl in
    create_delivery-refused org_id delivery other_id r.1 invoiced s refl (
      subst (λ id. All (HasStatus id invoiced) r.1.sales_orders) (sym same)
        (subst (λ rows. All (HasStatus found.order.id invoiced) rows) (sym settled)
          (set_order_status-HasStatus found.order.id invoiced db.sales_orders)))
