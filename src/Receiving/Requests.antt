-- ===== src/Receiving/Requests.antt =====
-- The requests and answers of backend/app/services/receiving.py for goods receipts.
use vyaparaflowai.Prelude.{ℕ, Bool, true, false, Option, List}
use vyaparaflowai.Numbering.{Date, DocumentNumber}
use vyaparaflowai.Purchase.{PurchaseOrderStatus, draft, pending_approval, cancelled, invoiced, paid}

-- `_PO_STATUSES_CLOSED_TO_RECEIPT`
abbrev pub is_closed_to_receipt : PurchaseOrderStatus → Bool
is_closed_to_receipt draft = true
is_closed_to_receipt pending_approval = true
is_closed_to_receipt cancelled = true
is_closed_to_receipt invoiced = true
is_closed_to_receipt paid = true
is_closed_to_receipt _ = false

pub record GoodsReceiptLineInput : Type 0 where
  pub purchase_order_item_id : ℕ
  pub received_quantity : ℕ
  pub accepted_quantity : ℕ
  pub rejected_quantity : ℕ
  pub damaged_quantity : ℕ

pub record CreateGoodsReceiptRequest : Type 0 where
  pub purchase_order_id : ℕ
  pub warehouse_id : ℕ
  pub received_date : Date
  pub lines : List GoodsReceiptLineInput

pub record GoodsReceiptLineResult : Type 0 where
  pub product_id : ℕ
  pub purchase_order_item_id : ℕ
  pub ordered_quantity : ℕ
  pub received_quantity : ℕ
  pub accepted_quantity : ℕ
  pub rejected_quantity : ℕ
  pub damaged_quantity : ℕ

pub record CreateGoodsReceiptResult : Type 0 where
  pub goods_receipt_id : ℕ
  pub grn_number : DocumentNumber
  pub purchase_order_status : PurchaseOrderStatus
  pub lines : List GoodsReceiptLineResult
  pub triggered_by_sales_order_id : Option ℕ
