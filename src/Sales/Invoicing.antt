-- ===== src/Sales/Invoicing.antt =====
-- The invoice of a delivery (`create_customer_invoice_from_delivery` and
-- `mark_customer_invoice_sent` of backend/app/services/sales.py). `slice amount part whole` is
-- `(amount * (part / whole)).quantize(Decimal("0.01"))` in paise, `plus_days` adds a `timedelta` to a
-- date.
use vyaparaflowai.Prelude.{
  ℕ, ◌+◌, Bool, false, not, ◌||◌, Option, none, some, List, [], ◌∷◌, ◌++◌, map, ◌==◌, if◌then◌else◌,
  any, all, filter, find, is_empty, total,
}
use vyaparaflowai.Prelude.Int.{ℤ}
use vyaparaflowai.Errors.{
  Result, ok, err, not_found, validation, key_error, integrity_error, ◌>>=◌, ◌>>◌, raise_if,
}
use vyaparaflowai.Numbering.{Date, DocumentNumber, DocumentSequence, next_document_number}
use vyaparaflowai.Payments.{InvoiceStatus}
use vyaparaflowai.Purchase.{get_owned}
use vyaparaflowai.Sales.Tables.{
  invoiced, SalesOrder, SalesOrderItem, Delivery, DeliveryItem, CustomerInvoice,
  CustomerInvoiceItem, Customer, Product, AuditLog, SalesDb,
}
use vyaparaflowai.Sales.Requests.{
  CreateCustomerInvoiceFromDeliveryRequest, CustomerInvoiceLineResult,
  CreateCustomerInvoiceFromDeliveryResult, CustomerInvoiceStatusResult,
}
use vyaparaflowai.Sales.Checks.{validate_customer, validate_organization}
use vyaparaflowai.Sales.Ordering.{set_order_status}
use vyaparaflowai.Sales.Counter.{has_invoice_number, check_invoice_item}

-- `table[key]`
abbrev pub item_at {ℓ} : {A : Type ℓ} → Option A → Result A
item_at none = err key_error
item_at (some a) = ok a

abbrev pub find_order_item : ℕ → List SalesOrderItem → Result SalesOrderItem
find_order_item id items = item_at (find (λ (i : SalesOrderItem). i.id == id) items)

abbrev pub find_invoiced_product : ℕ → List Product → Result Product
find_invoiced_product id products = item_at (find (λ (p : Product). p.id == id) products)

module _ (slice : ℕ → ℕ → ℕ → ℕ) where
  -- The part of the item's amounts that a line of the delivery bills.
  unfoldable pub billed_item :
      (invoice_id : ℕ) → DeliveryItem → SalesOrderItem → Product → CustomerInvoiceItem
  billed_item invoice_id row item product =
      let line_subtotal = slice item.line_subtotal row.quantity item.quantity in
      let line_tax = slice item.line_tax row.quantity item.quantity in
      record {
        customer_invoice_id = invoice_id;
        product_id = row.product_id;
        hsn_code = product.hsn_code;
        quantity = row.quantity;
        unit_price = item.unit_price;
        gst_rate = item.gst_rate;
        line_subtotal = line_subtotal;
        line_tax = line_tax;
        line_total = line_subtotal + line_tax;
      }

  -- The loop over the lines of the delivery.
  unfoldable pub billed_items :
      (invoice_id : ℕ)
      → List SalesOrderItem
      → List Product
      → List DeliveryItem
      → Result (List CustomerInvoiceItem)
  billed_items invoice_id items products [] = ok []
  billed_items invoice_id items products (row ∷ rows) = do
    item ← find_order_item row.sales_order_item_id items
    product ← find_invoiced_product row.product_id products
    rest ← billed_items invoice_id items products rows
    ok (billed_item invoice_id row item product ∷ rest)

abbrev pub billed_line : CustomerInvoiceItem → CustomerInvoiceLineResult
billed_line item = record {
  product_id = item.product_id;
  quantity = item.quantity;
  unit_price = item.unit_price;
  gst_rate = item.gst_rate;
  line_subtotal = item.line_subtotal;
  line_tax = item.line_tax;
  line_total = item.line_total;
}

abbrev pub is_line_of : ℕ → DeliveryItem → Bool
is_line_of delivery_id row = row.delivery_id == delivery_id

-- The unique key on the delivery.
abbrev pub bills : ℕ → CustomerInvoice → Bool
bills delivery_id invoice = elim invoice.delivery_id [ none ↦ false | some id ↦ id == delivery_id ]

abbrev pub is_delivery_of : ℕ → Delivery → Bool
is_delivery_of order_id delivery = delivery.sales_order_id == order_id

-- Whether every delivery of the order is billed, by the invoices there are and the new one.
unfoldable pub is_all_invoiced : (order_id delivery_id : ℕ) → SalesDb → Bool
is_all_invoiced order_id delivery_id db =
    all (λ (d : Delivery). d.id == delivery_id || any (bills d.id) db.customer_invoices)
      (filter (is_delivery_of order_id) db.deliveries)

-- What the guards find.
pub record BillableDelivery : Type 0 where
  pub delivery : Delivery
  pub order : SalesOrder
  pub customer : Customer
  pub lines : List DeliveryItem

unfoldable pub find_order : ℕ → List SalesOrder → Result SalesOrder
find_order id orders = elim (find (λ (o : SalesOrder). o.id == id) orders) [
  | none ↦ err not_found
  | some order ↦ ok order
]

unfoldable pub check_billable : (org_id delivery_id : ℕ) → SalesDb → Result BillableDelivery
check_billable org_id delivery_id db = do
  delivery ←
      get_owned (λ (d : Delivery). d.id) (λ (d : Delivery). d.org_id) org_id delivery_id
        db.deliveries
  order ← find_order delivery.sales_order_id db.sales_orders
  customer ← validate_customer org_id order.customer_id db
  organization ← validate_organization org_id db
  let lines = filter (is_line_of delivery.id) db.delivery_items
  raise_if (is_empty lines) validation
  ok (record { delivery = delivery; order = order; customer = customer; lines = lines })

module _ (plus_days : Date → ℤ → Date) where
  -- The answer and the tables after the writes.
  abbrev pub billed :
      (org_id : ℕ)
      → CreateCustomerInvoiceFromDeliveryRequest
      → (new_id : ℕ) → BillableDelivery
      → SalesDb
      → DocumentNumber × List DocumentSequence
      → List CustomerInvoiceItem
      → CreateCustomerInvoiceFromDeliveryResult × SalesDb
  billed org_id request new_id found db numbered items =
      let subtotal = total (λ (i : CustomerInvoiceItem). i.line_subtotal) items in
      let tax_total = total (λ (i : CustomerInvoiceItem). i.line_tax) items in
      let amount = total (λ (i : CustomerInvoiceItem). i.line_total) items in
      (
        record {
          customer_invoice_id = new_id;
          invoice_number = numbered.0;
          status = InvoiceStatus.issued;
          customer_name = found.customer.name;
          customer_email = found.customer.email;
          subtotal = subtotal;
          tax_total = tax_total;
          total = amount;
          lines = map billed_line items;
        },
        record db {
          sequences = numbered.1;
          sales_orders =
              if is_all_invoiced found.order.id found.delivery.id db
              then set_order_status found.order.id invoiced db.sales_orders
              else db.sales_orders;
          customer_invoices =
              record {
                id = new_id;
                org_id = org_id;
                customer_id = found.customer.id;
                sales_order_id = some found.order.id;
                delivery_id = some found.delivery.id;
                invoice_number = numbered.0;
                invoice_date = request.invoice_date;
                due_date = plus_days request.invoice_date found.customer.payment_terms_days;
                status = InvoiceStatus.issued;
                subtotal = subtotal;
                tax_total = tax_total;
                total = amount;
                amount_paid = 0;
              }
              ∷ db.customer_invoices;
          customer_invoice_items = items ++ db.customer_invoice_items;
        },
      )

  unfoldable pub create_customer_invoice_from_delivery :
      (slice : ℕ → ℕ → ℕ → ℕ) (org_id : ℕ)
      → CreateCustomerInvoiceFromDeliveryRequest
      → (new_id : ℕ) → SalesDb
      → Result (CreateCustomerInvoiceFromDeliveryResult × SalesDb)
  create_customer_invoice_from_delivery slice org_id request new_id db = do
    found ← check_billable org_id request.delivery_id db
    numbered ← next_document_number org_id "customer_invoice" request.invoice_date db.sequences
    raise_if (any (has_invoice_number org_id numbered.0) db.customer_invoices) integrity_error
    raise_if (any (bills found.delivery.id) db.customer_invoices) integrity_error
    items ← billed_items slice new_id db.sales_order_items db.products found.lines
    raise_if (not (all check_invoice_item items)) integrity_error
    ok (billed org_id request new_id found db numbered items)

unfoldable pub mark_customer_invoice_sent :
    (org_id customer_invoice_id : ℕ) (actor_id : Option ℕ)
    → SalesDb
    → Result (CustomerInvoiceStatusResult × SalesDb)
mark_customer_invoice_sent org_id customer_invoice_id actor_id db = do
  invoice ←
      get_owned (λ (i : CustomerInvoice). i.id) (λ (i : CustomerInvoice). i.org_id) org_id
        customer_invoice_id db.customer_invoices
  let log : AuditLog = record {
    org_id = org_id;
    actor_id = actor_id;
    action = "customer_invoice.sent";
    entity_type = "customer_invoice";
    entity_id = invoice.id;
    after_status = invoice.status;
  }
  ok (
    record {
      customer_invoice_id = invoice.id;
      invoice_number = invoice.invoice_number;
      status = invoice.status;
    },
    record db { audit_logs = log ∷ db.audit_logs },
  )
