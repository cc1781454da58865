-- ===== src/Sales/Requests.antt =====
-- The requests and answers of backend/app/services/sales.py. A date that the caller leaves out is
-- the day of the call, so each date is given.
use vyaparaflowai.Prelude.{ℕ, Bool, true, false, Option, List, String}
use vyaparaflowai.Prelude.Int.{ℤ}
use vyaparaflowai.Numbering.{Date, DocumentNumber}
use vyaparaflowai.Payments.{InvoiceStatus}
use vyaparaflowai.Sales.Tables.{SalesOrderStatus, partially_reserved, reserved, dispatched}

-- The validation of the model keeps the quantity above zero.
pub record SalesOrderLineInput : Type 0 where
  pub product_id : ℕ
  pub quantity : ℕ
  pub unit_price : ℕ
  pub discount_percent : ℕ
  pub discount_amount : ℕ

pub record CreateSalesOrderRequest : Type 0 where
  pub customer_id : ℕ
  pub warehouse_id : ℕ
  pub lines : List SalesOrderLineInput
  pub order_date : Date
  pub header_discount_percent : ℕ
  pub header_discount_amount : ℕ
  pub notes : Option String
  pub is_quote : Bool

pub record SalesOrderLineResult : Type 0 where
  pub product_id : ℕ
  pub quantity : ℕ
  pub reserved_qty : ℕ
  pub shortage_qty : ℤ
  pub unit_price : ℕ
  pub gst_rate : ℕ
  pub line_subtotal : ℕ
  pub line_tax : ℕ
  pub line_total : ℕ

pub record CreateSalesOrderResult : Type 0 where
  pub sales_order_id : ℕ
  pub order_number : DocumentNumber
  pub status : SalesOrderStatus
  pub subtotal : ℕ
  pub tax_total : ℕ
  pub total : ℕ
  pub lines : List SalesOrderLineResult
  pub has_shortage : Bool

pub record RetryReservationResult : Type 0 where
  pub sales_order_id : ℕ
  pub status : SalesOrderStatus
  pub lines : List SalesOrderLineResult

pub record CreateCounterSaleRequest : Type 0 where
  pub customer_id : ℕ
  pub warehouse_id : ℕ
  pub lines : List SalesOrderLineInput
  pub invoice_date : Date
  pub header_discount_percent : ℕ
  pub header_discount_amount : ℕ

pub record CounterSaleLineResult : Type 0 where
  pub product_id : ℕ
  pub quantity : ℕ
  pub unit_price : ℕ
  pub gst_rate : ℕ
  pub line_subtotal : ℕ
  pub line_tax : ℕ
  pub line_total : ℕ

pub record CreateCounterSaleResult : Type 0 where
  pub customer_invoice_id : ℕ
  pub invoice_number : DocumentNumber
  pub status : InvoiceStatus
  pub subtotal : ℕ
  pub tax_total : ℕ
  pub total : ℕ
  pub lines : List CounterSaleLineResult

-- The validation of the model keeps the quantity above zero.
pub record DeliveryLineInput : Type 0 where
  pub sales_order_item_id : ℕ
  pub quantity : ℕ

pub record CreateDeliveryRequest : Type 0 where
  pub sales_order_id : ℕ
  pub warehouse_id : ℕ
  pub lines : List DeliveryLineInput
  pub dispatched_at : Date

pub record DeliveryLineResult : Type 0 where
  pub sales_order_item_id : ℕ
  pub product_id : ℕ
  pub quantity : ℕ

pub record CreateDeliveryResult : Type 0 where
  pub delivery_id : ℕ
  pub delivery_number : DocumentNumber
  pub sales_order_id : ℕ
  pub sales_order_status : SalesOrderStatus
  pub lines : List DeliveryLineResult

-- `_DISPATCHABLE_STATUSES`
abbrev pub is_dispatchable : SalesOrderStatus → Bool
is_dispatchable reserved = true
is_dispatchable partially_reserved = true
is_dispatchable dispatched = true
is_dispatchable _ = false

pub record CreateCustomerInvoiceFromDeliveryRequest : Type 0 where
  pub delivery_id : ℕ
  pub invoice_date : Date

pub record CustomerInvoiceLineResult : Type 0 where
  pub product_id : ℕ
  pub quantity : ℕ
  pub unit_price : ℕ
  pub gst_rate : ℕ
  pub line_subtotal : ℕ
  pub line_tax : ℕ
  pub line_total : ℕ

pub record CreateCustomerInvoiceFromDeliveryResult : Type 0 where
  pub customer_invoice_id : ℕ
  pub invoice_number : DocumentNumber
  pub status : InvoiceStatus
  pub customer_name : String
  pub customer_email : Option String
  pub subtotal : ℕ
  pub tax_total : ℕ
  pub total : ℕ
  pub lines : List CustomerInvoiceLineResult

pub record CustomerInvoiceStatusResult : Type 0 where
  pub customer_invoice_id : ℕ
  pub invoice_number : DocumentNumber
  pub status : InvoiceStatus
