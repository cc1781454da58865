-- ===== src/Sales/Tables.antt =====
-- The rows of sales (backend/app/db/models/sales.py, with those of partners.py, catalog.py, org.py
-- and workflow.py that backend/app/services/sales.py reads or writes with them). Quantities are whole
-- thousandths, prices and amounts whole paise, rates hundredths of a percent.
use vyaparaflowai.Prelude.{ℕ, Bool, ◌&&◌, Option, List, String, leb, ltb}
use vyaparaflowai.Prelude.Int.{ℤ}
use vyaparaflowai.Inventory.{InventoryDb}
use vyaparaflowai.Numbering.{Date, DocumentNumber, DocumentSequence}
use vyaparaflowai.Outbox.{OutboxEvent}
use vyaparaflowai.Payments.{InvoiceStatus}
use vyaparaflowai.Purchase.{Warehouse}

pub data SalesOrderStatus : Type 0 where
  draft confirmed partially_reserved reserved : SalesOrderStatus
  dispatched delivered invoiced cancelled : SalesOrderStatus

pub record SalesOrder : Type 0 where
  pub id : ℕ
  pub org_id : ℕ
  pub customer_id : ℕ
  pub order_number : DocumentNumber
  pub order_date : Date
  pub status : SalesOrderStatus
  pub subtotal : ℕ
  pub tax_total : ℕ
  pub total : ℕ
  pub notes : Option String

pub record SalesOrderItem : Type 0 where
  pub id : ℕ
  pub sales_order_id : ℕ
  pub product_id : ℕ
  pub quantity : ℕ
  pub reserved_qty : ℕ
  pub unit_price : ℕ
  pub gst_rate : ℕ
  pub line_subtotal : ℕ
  pub line_tax : ℕ
  pub line_total : ℕ

-- The CHECK constraints of `sales_order_items` that a natural number does not meet by itself.
unfoldable pub check_order_item : SalesOrderItem → Bool
check_order_item item = ltb 0 item.quantity && leb item.reserved_qty item.quantity

-- `delivered_at` is never set.
pub record Delivery : Type 0 where
  pub id : ℕ
  pub org_id : ℕ
  pub sales_order_id : ℕ
  pub warehouse_id : ℕ
  pub delivery_number : DocumentNumber
  pub dispatched_at : Date

pub record DeliveryItem : Type 0 where
  pub delivery_id : ℕ
  pub sales_order_item_id : ℕ
  pub product_id : ℕ
  pub quantity : ℕ

pub record CustomerInvoice : Type 0 where
  pub id : ℕ
  pub org_id : ℕ
  pub customer_id : ℕ
  pub sales_order_id : Option ℕ
  pub delivery_id : Option ℕ
  pub invoice_number : DocumentNumber
  pub invoice_date : Date
  pub due_date : Date
  pub status : InvoiceStatus
  pub subtotal : ℕ
  pub tax_total : ℕ
  pub total : ℕ
  pub amount_paid : ℕ

pub record CustomerInvoiceItem : Type 0 where
  pub customer_invoice_id : ℕ
  pub product_id : ℕ
  pub hsn_code : String
  pub quantity : ℕ
  pub unit_price : ℕ
  pub gst_rate : ℕ
  pub line_subtotal : ℕ
  pub line_tax : ℕ
  pub line_total : ℕ

pub record Customer : Type 0 where
  pub id : ℕ
  pub org_id : ℕ
  pub name : String
  pub state_code : Option String
  pub email : Option String
  pub credit_limit : ℕ
  pub payment_terms_days : ℤ
  pub is_active : Bool

pub record Organization : Type 0 where
  pub id : ℕ
  pub state_code : Option String

pub record Product : Type 0 where
  pub id : ℕ
  pub org_id : ℕ
  pub hsn_code : String
  pub uom : String
  pub gst_rate : ℕ
  pub is_active : Bool

-- `after_json` has the status alone.
pub record AuditLog : Type 0 where
  pub org_id : ℕ
  pub actor_id : Option ℕ
  pub action : String
  pub entity_type : String
  pub entity_id : ℕ
  pub after_status : InvoiceStatus

pub record SalesDb : Type 0 where
  pub inventory : InventoryDb
  pub sequences : List DocumentSequence
  pub customers : List Customer
  pub organizations : List Organization
  pub products : List Product
  pub warehouses : List Warehouse
  pub sales_orders : List SalesOrder
  pub sales_order_items : List SalesOrderItem
  pub deliveries : List Delivery
  pub delivery_items : List DeliveryItem
  pub customer_invoices : List CustomerInvoice
  pub customer_invoice_items : List CustomerInvoiceItem
  pub outbox_events : List OutboxEvent
  pub audit_logs : List AuditLog
