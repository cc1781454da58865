-- ===== src/Sales/Counter.antt =====
-- A sale at the counter (`create_counter_sale` of backend/app/services/sales.py). `plus_days` adds a
-- `timedelta` to a date.
use vyaparaflowai.Prelude.{
  ℕ, Bool, false, not, ◌&&◌, none, some, List, ◌∷◌, ◌++◌, map, ◌==◌, ltb, any, all,
}
use vyaparaflowai.Prelude.Int.{ℤ}
use vyaparaflowai.Errors.{Result, ok, integrity_error, ◌>>=◌, ◌>>◌, raise_if}
use vyaparaflowai.Inventory.{InventoryDb, InventoryLine, Reference, issue_stock}
use vyaparaflowai.Numbering.{
  Date, DocumentNumber, DocumentSequence, is_number, next_document_number,
}
use vyaparaflowai.Payments.{InvoiceStatus}
use vyaparaflowai.Pricing.{PricingLineResult}
use vyaparaflowai.Sales.Tables.{CustomerInvoice, CustomerInvoiceItem, SalesDb}
use vyaparaflowai.Sales.Requests.{
  CreateCounterSaleRequest, CounterSaleLineResult, CreateCounterSaleResult,
}
use vyaparaflowai.Sales.Checks.{PricedRequest, validate_and_price}
use vyaparaflowai.Sales.Reserving.{stock_line}

-- The unique key of the invoices.
abbrev pub has_invoice_number : ℕ → DocumentNumber → CustomerInvoice → Bool
has_invoice_number org_id number row = row.org_id == org_id && is_number row.invoice_number number

-- The CHECK constraint of `customer_invoice_items` that a natural number does not meet by itself.
abbrev pub check_invoice_item : CustomerInvoiceItem → Bool
check_invoice_item item = ltb 0 item.quantity

abbrev pub sold_line : (warehouse_id : ℕ) → PricingLineResult → InventoryLine
sold_line warehouse_id line = stock_line line.product_id warehouse_id line.quantity

abbrev pub sold_item : (invoice_id : ℕ) → PricingLineResult → CustomerInvoiceItem
sold_item invoice_id line = record {
  customer_invoice_id = invoice_id;
  product_id = line.product_id;
  hsn_code = line.hsn_code;
  quantity = line.quantity;
  unit_price = line.unit_price;
  gst_rate = line.gst_rate;
  line_subtotal = line.taxable_value;
  line_tax = line.tax_amount;
  line_total = line.line_total;
}

abbrev pub counter_line : PricingLineResult → CounterSaleLineResult
counter_line line = record {
  product_id = line.product_id;
  quantity = line.quantity;
  unit_price = line.unit_price;
  gst_rate = line.gst_rate;
  line_subtotal = line.taxable_value;
  line_tax = line.tax_amount;
  line_total = line.line_total;
}

abbrev pub sale_reference : (invoice_id : ℕ) → Reference
sale_reference invoice_id = record {
  ref_type = "customer_invoice";
  ref_id = some invoice_id;
  note = none;
}

module _ (plus_days : Date → ℤ → Date) where
  -- The answer and the tables after the writes.
  abbrev pub sold :
      (org_id : ℕ)
      → CreateCounterSaleRequest
      → (new_id : ℕ) → PricedRequest
      → SalesDb
      → DocumentNumber × List DocumentSequence
      → InventoryDb
      → CreateCounterSaleResult × SalesDb
  sold org_id request new_id found db numbered stock =
      let priced = found.priced in
      (
        record {
          customer_invoice_id = new_id;
          invoice_number = numbered.0;
          status = InvoiceStatus.issued;
          subtotal = priced.subtotal;
          tax_total = priced.tax_total;
          total = priced.grand_total;
          lines = map counter_line priced.lines;
        },
        record db {
          inventory = stock;
          sequences = numbered.1;
          customer_invoices =
              record {
                id = new_id;
                org_id = org_id;
                customer_id = found.customer.id;
                sales_order_id = none;
                delivery_id = none;
                invoice_number = numbered.0;
                invoice_date = request.invoice_date;
                due_date = plus_days request.invoice_date found.customer.payment_terms_days;
                status = InvoiceStatus.issued;
                subtotal = priced.subtotal;
                tax_total = priced.tax_total;
                total = priced.grand_total;
                amount_paid = 0;
              }
              ∷ db.customer_invoices;
          customer_invoice_items = map (sold_item new_id) priced.lines ++ db.customer_invoice_items;
        },
      )

  unfoldable pub create_counter_sale :
      (pro_rata : ℕ → ℕ → ℕ → ℕ) (org_id : ℕ)
      → CreateCounterSaleRequest
      → (new_id : ℕ) → SalesDb
      → Result (CreateCounterSaleResult × SalesDb)
  create_counter_sale pro_rata org_id request new_id db = do
    found ←
        validate_and_price pro_rata org_id request.customer_id request.warehouse_id request.lines
          request.header_discount_percent request.header_discount_amount db
    numbered ← next_document_number org_id "customer_invoice" request.invoice_date db.sequences
    raise_if (any (has_invoice_number org_id numbered.0) db.customer_invoices) integrity_error
    moved ←
        issue_stock (sale_reference new_id) false
          (map (sold_line request.warehouse_id) found.priced.lines) db.inventory
    raise_if (not (all check_invoice_item (map (sold_item new_id) found.priced.lines)))
        integrity_error
    ok (sold org_id request new_id found db numbered moved.1)
