-- ===== src/Receiving/Invoices.antt =====
-- `create_supplier_invoice` of backend/app/services/receiving.py.
use Prim.Native.String.{count}
use text.Mathlib.Text.{◌==◌ as str_eq}
use vyaparaflowai.Prelude.{
  ℕ, ◌+◌, ◌*◌, Bool, false, not, ◌&&◌, ◌||◌, leb, Option, none, some, List, ◌∷◌, ◌++◌, map, String,
  ◌==◌, ltb, any, total, is_empty,
}
use vyaparaflowai.Prelude.Int.{ℤ, pos, ◌-ℤ◌}
use vyaparaflowai.Errors.{
  Result, ok, not_found, conflict, validation, integrity_error, data_error, ◌>>=◌, ◌>>◌, raise_if,
}
use vyaparaflowai.Payments.{SupplierInvoiceStatus}
use vyaparaflowai.Purchase.{
  SupplierInvoice, SupplierInvoiceItem, Product, PurchaseDb, get_purchase_order, get_supplier,
}

pub record SupplierInvoiceLineInput : Type 0 where
  pub product_id : Option ℕ
  pub quantity : ℕ
  pub unit_price : ℕ
  pub gst_rate : ℕ
  pub line_total : ℕ

pub record CreateSupplierInvoiceRequest : Type 0 where
  pub supplier_id : ℕ
  pub purchase_order_id : Option ℕ
  pub invoice_number : String
  pub invoice_date : ℕ
  pub due_date : ℕ
  pub lines : List SupplierInvoiceLineInput

-- The lines of the answer are those of the request.
pub record CreateSupplierInvoiceResult : Type 0 where
  pub supplier_invoice_id : ℕ
  pub invoice_number : String
  pub status : SupplierInvoiceStatus
  pub subtotal : ℕ
  pub tax_total : ℤ
  pub total_amount : ℕ
  pub lines : List SupplierInvoiceLineInput

unfoldable pub check_order : (org_id supplier_id : ℕ) → Option ℕ → PurchaseDb → Result (Unit {0})
check_order org_id supplier_id none db = ok tt
check_order org_id supplier_id (some order_id) db =
    get_purchase_order org_id order_id db >>= λ order.
    raise_if (not (order.supplier_id == supplier_id)) conflict

-- A line's product that is not one of the organization.
abbrev pub is_unknown : ℕ → List Product → SupplierInvoiceLineInput → Bool
is_unknown org_id products line = elim line.product_id [
  | none ↦ false
  | some id ↦ not (any (λ (p : Product). p.id == id && p.org_id == org_id) products)
]

abbrev pub invoice_item : ℕ → SupplierInvoiceLineInput → SupplierInvoiceItem
invoice_item invoice_id line = record {
  supplier_invoice_id = invoice_id;
  product_id = line.product_id;
  quantity = line.quantity;
  unit_price = line.unit_price;
  gst_rate = line.gst_rate;
  line_total = line.line_total;
}

-- Thousandths of paise.
unfoldable pub subtotal_of : List SupplierInvoiceLineInput → ℕ
subtotal_of lines = total (λ line. line.quantity * line.unit_price) lines

unfoldable pub total_of : List SupplierInvoiceLineInput → ℕ
total_of lines = total (λ line. 1000 * line.line_total) lines

abbrev pub invoice_row : (org_id new_id : ℕ) → CreateSupplierInvoiceRequest → SupplierInvoice
invoice_row org_id new_id request = record {
  id = new_id;
  org_id = org_id;
  supplier_id = request.supplier_id;
  purchase_order_id = request.purchase_order_id;
  invoice_number = request.invoice_number;
  invoice_date = request.invoice_date;
  due_date = request.due_date;
  status = SupplierInvoiceStatus.received;
  subtotal = subtotal_of request.lines;
  tax_total = pos (total_of request.lines) -ℤ pos (subtotal_of request.lines);
  total = total_of request.lines;
}

abbrev pub posted_invoice :
    (org_id : ℕ)
    → CreateSupplierInvoiceRequest
    → (new_id : ℕ) → PurchaseDb
    → CreateSupplierInvoiceResult × PurchaseDb
posted_invoice org_id request new_id db =
    let row = invoice_row org_id new_id request in
    (
      record {
        supplier_invoice_id = new_id;
        invoice_number = request.invoice_number;
        status = row.status;
        subtotal = row.subtotal;
        tax_total = row.tax_total;
        total_amount = row.total;
        lines = request.lines;
      },
      record db {
        supplier_invoices = row ∷ db.supplier_invoices;
        supplier_invoice_items =
            map (invoice_item new_id) request.lines ++ db.supplier_invoice_items;
      },
    )

-- Everything before the first write.
unfoldable pub check_invoice :
    (org_id : ℕ) → CreateSupplierInvoiceRequest → PurchaseDb → Result (Unit {0})
check_invoice org_id request db = do
  raise_if (is_empty request.lines) validation
  raise_if (ltb request.due_date request.invoice_date) validation
  supplier ← get_supplier org_id request.supplier_id db
  check_order org_id supplier.id request.purchase_order_id db
  raise_if (any (is_unknown org_id db.products) request.lines) not_found

-- The unique key of the invoices.
abbrev pub is_duplicate : CreateSupplierInvoiceRequest → SupplierInvoice → Bool
is_duplicate request row =
    row.supplier_id == request.supplier_id && str_eq row.invoice_number request.invoice_number

-- Below this many paise, or thousandths of a unit, a value fits a `Numeric(14, 2)` or a
-- `Numeric(14, 3)`; below this many hundredths of a percent a rate fits a `Numeric(5, 2)`.
abbrev pub column_limit : ℕ
column_limit = 100_000_000_000_000

abbrev pub rate_limit : ℕ
rate_limit = 100_000

-- A row that its columns cannot hold, the subtotal as they round it. The tax is no larger than the
-- larger of the two sums, so it needs no test.
unfoldable pub invoice_overflows : CreateSupplierInvoiceRequest → Bool
invoice_overflows request =
    ltb 50 (count request.invoice_number)
    || leb (1000 * column_limit) (subtotal_of request.lines + 500)
    || leb (1000 * column_limit) (total_of request.lines)

abbrev pub line_overflows : SupplierInvoiceLineInput → Bool
line_overflows line =
    leb column_limit line.quantity
    || leb column_limit line.unit_price
    || leb rate_limit line.gst_rate
    || leb column_limit line.line_total

-- The CHECK constraint of the items on the quantity.
abbrev pub is_nothing : SupplierInvoiceLineInput → Bool
is_nothing line = line.quantity == 0

unfoldable pub create_supplier_invoice :
    (org_id : ℕ)
    → CreateSupplierInvoiceRequest
    → (new_id : ℕ) → PurchaseDb
    → Result (CreateSupplierInvoiceResult × PurchaseDb)
create_supplier_invoice org_id request new_id db = do
  check_invoice org_id request db
  raise_if (invoice_overflows request) data_error
  raise_if (any (is_duplicate request) db.supplier_invoices) integrity_error
  raise_if (any line_overflows request.lines) data_error
  raise_if (any is_nothing request.lines) integrity_error
  ok (posted_invoice org_id request new_id db)
