-- ===== src/Purchase/Tables.antt =====
-- The rows of purchasing (backend/app/db/models/purchase.py, catalog.py, partners.py, enums.py).
-- Quantities are whole thousandths and prices whole paise, the scales of their columns.
use vyaparaflowai.Prelude.{
  ℕ, ◌+◌, Bool, ◌&&◌, Option, none, some, List, String, ◌==◌, leb, ltb, find, if◌then◌else◌,
}
use vyaparaflowai.Prelude.Int.{ℤ}
use vyaparaflowai.Errors.{Result, ok, err, not_found}
use vyaparaflowai.Inventory.{InventoryDb}
use vyaparaflowai.Numbering.{Date, DocumentNumber, DocumentSequence}
use vyaparaflowai.Payments.{SupplierInvoiceStatus}

pub data PurchaseOrderStatus : Type 0 where
  draft pending_approval approved sent partially_received received : PurchaseOrderStatus
  invoiced paid cancelled : PurchaseOrderStatus

pub record PurchaseOrder : Type 0 where
  pub id : ℕ
  pub org_id : ℕ
  pub supplier_id : ℕ
  pub purchase_requisition_id : Option ℕ
  pub po_number : DocumentNumber
  pub order_date : Date
  pub status : PurchaseOrderStatus

pub record PurchaseOrderItem : Type 0 where
  pub id : ℕ
  pub purchase_order_id : ℕ
  pub product_id : ℕ
  pub quantity : ℕ
  pub unit_price : ℕ

pub record PurchaseRequisition : Type 0 where
  pub id : ℕ
  pub triggered_by_sales_order_id : Option ℕ

pub record GoodsReceipt : Type 0 where
  pub id : ℕ
  pub org_id : ℕ
  pub purchase_order_id : ℕ
  pub warehouse_id : ℕ
  pub grn_number : DocumentNumber
  pub received_date : Date

pub record GoodsReceiptItem : Type 0 where
  pub goods_receipt_id : ℕ
  pub purchase_order_item_id : ℕ
  pub product_id : ℕ
  pub ordered_quantity : ℕ
  pub received_quantity : ℕ
  pub accepted_quantity : ℕ
  pub rejected_quantity : ℕ
  pub damaged_quantity : ℕ

-- The CHECK constraints of `goods_receipt_items` that a natural number does not meet by itself.
unfoldable pub check_receipt_item : GoodsReceiptItem → Bool
check_receipt_item row =
    ltb 0 row.ordered_quantity
    && leb row.received_quantity row.ordered_quantity
    && leb row.accepted_quantity row.received_quantity
    && leb (row.accepted_quantity + row.rejected_quantity + row.damaged_quantity)
        row.received_quantity

-- Sums of quantities times prices are exact: thousandths of paise. `total` is of that scale too.
pub record SupplierInvoice : Type 0 where
  pub id : ℕ
  pub org_id : ℕ
  pub supplier_id : ℕ
  pub purchase_order_id : Option ℕ
  pub invoice_number : String
  pub invoice_date : ℕ
  pub due_date : ℕ
  pub status : SupplierInvoiceStatus
  pub subtotal : ℕ
  pub tax_total : ℤ
  pub total : ℕ

-- `gst_rate` is in hundredths of a percent.
pub record SupplierInvoiceItem : Type 0 where
  pub supplier_invoice_id : ℕ
  pub product_id : Option ℕ
  pub quantity : ℕ
  pub unit_price : ℕ
  pub gst_rate : ℕ
  pub line_total : ℕ

pub record Warehouse : Type 0 where
  pub id : ℕ
  pub org_id : ℕ

pub record Product : Type 0 where
  pub id : ℕ
  pub org_id : ℕ
  pub sku : String

pub record Supplier : Type 0 where
  pub id : ℕ
  pub org_id : ℕ

pub record PurchaseDb : Type 0 where
  pub inventory : InventoryDb
  pub sequences : List DocumentSequence
  pub purchase_orders : List PurchaseOrder
  pub purchase_order_items : List PurchaseOrderItem
  pub requisitions : List PurchaseRequisition
  pub goods_receipts : List GoodsReceipt
  pub goods_receipt_items : List GoodsReceiptItem
  pub supplier_invoices : List SupplierInvoice
  pub supplier_invoice_items : List SupplierInvoiceItem
  pub warehouses : List Warehouse
  pub products : List Product
  pub suppliers : List Supplier

-- `session.get` by a primary key, and the check of the organization, as every service has them.
unfoldable pub get_owned {ℓ} :
    {A : Type ℓ} (id_of org_of : A → ℕ) (org_id id : ℕ) → List A → Result A
get_owned id_of org_of org_id id rows = elim (find (λ row. id_of row == id) rows) [
  | none ↦ err not_found
  | some row ↦ if org_of row == org_id then ok row else err not_found
]

abbrev pub get_purchase_order : ℕ → ℕ → PurchaseDb → Result PurchaseOrder
get_purchase_order org_id id db =
    get_owned (λ (o : PurchaseOrder). o.id) (λ (o : PurchaseOrder). o.org_id) org_id id
      db.purchase_orders

abbrev pub get_warehouse : ℕ → ℕ → PurchaseDb → Result Warehouse
get_warehouse org_id id db =
    get_owned (λ (w : Warehouse). w.id) (λ (w : Warehouse). w.org_id) org_id id db.warehouses

abbrev pub get_supplier : ℕ → ℕ → PurchaseDb → Result Supplier
get_supplier org_id id db =
    get_owned (λ (s : Supplier). s.id) (λ (s : Supplier). s.org_id) org_id id db.suppliers
