-- ===== src/Sales/Tests.antt =====
-- The concrete tables of the tests on sales.
mod Orders
mod Deliveries
use native.Mathlib.Nat.{mul-div_cancel}
use vyaparaflowai.Prelude.{
  ◌<◌, subst, ℕ, ◌+◌, ◌*◌, ◌/◌, ◌≡◌, ◌≢◌, refl, true, false, none, some, [], ◌∷◌, String, arith,
  min, All,
}
use vyaparaflowai.Prelude.Int.{ℤ, pos, pos_part, ◌+ℤ◌, ◌-ℤ◌}
use vyaparaflowai.Prelude.Sorting.{insert, sorted}
use vyaparaflowai.Errors.{Result, ok, err}
use vyaparaflowai.Inventory.{
  InventoryDb, apply, apply_lines, apply_line, build_statement, issue_statement, reserve_statement,
  run_statement, ensure_row, updated, returned, check_item, issue_stock, reserve_stock,
  get_available,
}
use vyaparaflowai.Inventory.Levels.{IsValid}
use vyaparaflowai.Numbering.{
  Date, financial_year, is_number, ensure_sequence, increment, next_value, prefix_of,
  next_document_number,
}
use vyaparaflowai.Outbox.{write_event}
use vyaparaflowai.Payments.{InvoiceStatus}
use vyaparaflowai.Pricing.{
  price_order, half_up, raw_line, gross_of, discount_of, net_subtotal, header_discount_total,
  taxable_of, half_tax, whole_tax, priced_line, header_shares, priced_lines, totals, order_lines,
  build_hsn_summary, add_lines, add_line, add_to_group, round_money,
}
use vyaparaflowai.Purchase.{get_owned}
use vyaparaflowai.Sales.Tables.{
  SalesOrderStatus, SalesOrder, SalesOrderItem, SalesDb, check_order_item,
}
use vyaparaflowai.Sales.Requests.{
  CreateSalesOrderRequest, CreateSalesOrderResult, CreateCounterSaleRequest,
  CreateCounterSaleResult, CreateDeliveryRequest, CreateDeliveryResult,
  CreateCustomerInvoiceFromDeliveryRequest, CreateCustomerInvoiceFromDeliveryResult,
  RetryReservationResult, SalesOrderLineInput,
}
use vyaparaflowai.Sales.Checks.{
  validate_customer, validate_warehouse, validate_organization, validate_products, pricing_lines,
  price_lines, outstanding, check_credit, validate_and_price,
}
use vyaparaflowai.Sales.Reserving.{
  reserve_all, reserve_available, best_effort_reserve, reserve_one, reserve_each, line_result,
  item_result, finalize_status,
}
use vyaparaflowai.Sales.Ordering.{
  ShortageDetected, report_shortage, order_items, reserve_order, set_order_status,
  create_sales_order,
}
use vyaparaflowai.Sales.Confirming.{items_of, set_reserved_qty, save_reserved, retry_reservation}
use vyaparaflowai.Sales.Counter.{create_counter_sale}
use vyaparaflowai.Sales.Dispatch.{
  delivered_of, check_line, check_lines, check_delivery, delivery_rows, create_delivery,
}
use vyaparaflowai.Sales.Invoicing.{
  billed_item, billed_items, is_all_invoiced, find_order, BillableDelivery, check_billable,
  create_customer_invoice_from_delivery,
}
use vyaparaflowai.Sales.Amounts.{IsWhole}
use vyaparaflowai.Sales.Effort.{HasReserved, best_effort_reserve-HasReserved}
use vyaparaflowai.Sales.Answered.{IsPlaced}
use vyaparaflowai.Sales.Placed.{create_sales_order-IsPlaced}
use vyaparaflowai.Sales.Retried.{IsRetried, IsWithinQuantity, retry_reservation-IsRetried}
use vyaparaflowai.Sales.Selling.{IsSold}
use vyaparaflowai.Sales.Delivering.{AreWithinReserved}
use vyaparaflowai.Sales.Shipped.{
  IsShipped, create_delivery-IsShipped, create_delivery-AreWithinReserved,
}
use vyaparaflowai.Sales.Billing.{
  create_customer_invoice_from_delivery-once, create_customer_invoice_from_delivery-closes,
}

abbrev pub june : Date
june = record { year = 2026; month = 6; day = 1 }

-- Days run on within the month.
abbrev pub later_day : Date → ℤ → Date
later_day date days = record date { day = date.day + pos_part days }

abbrev pub floor_share : ℕ → ℕ → ℕ → ℕ
floor_share amount part whole = amount * part / whole

abbrev pub no_text : ShortageDetected → String
no_text detected = "{}"

abbrev pub ids : ℕ → ℕ
ids n = 900 + n

abbrev pub order_row : ℕ → SalesOrderStatus → SalesOrder
order_row id status = record {
  id = id;
  org_id = 1;
  customer_id = 1;
  order_number = record { prefix = "SO"; year = 2026; value = id };
  order_date = june;
  status = status;
  subtotal = 120_000;
  tax_total = 21_600;
  total = 141_600;
  notes = none;
}

abbrev pub item_row : (id order_id quantity reserved_qty : ℕ) → SalesOrderItem
item_row id order_id quantity reserved_qty = record {
  id = id;
  sales_order_id = order_id;
  product_id = 1;
  quantity = quantity;
  reserved_qty = reserved_qty;
  unit_price = 10_000;
  gst_rate = 1_800;
  line_subtotal = 120_000;
  line_tax = 21_600;
  line_total = 141_600;
}

-- Order 5 is a quote for 12, order 6 has 3 of 12 reserved, and order 7 all of 5, of which delivery 8 took
-- 2. Of the 10 in stock 6 are reserved.
abbrev pub books : SalesDb
books = record {
  inventory = record {
    items =
        record {
          product_id = 1;
          warehouse_id = 1;
          on_hand = pos 10_000;
          reserved = pos 6_000;
          reorder_level = pos 0;
          safety_stock = pos 0;
        }
        ∷ [];
    ledger = [];
    now = 7;
  };
  sequences = [];
  customers =
      record {
        id = 1;
        org_id = 1;
        name = "Asha Traders";
        state_code = some "27";
        email = none;
        credit_limit = 500_000;
        payment_terms_days = pos 15;
        is_active = true;
      }
      ∷ [];
  organizations = record { id = 1; state_code = some "27" } ∷ [];
  products =
      record {
        id = 1;
        org_id = 1;
        hsn_code = "1001";
        uom = "kg";
        gst_rate = 1_800;
        is_active = true;
      }
      ∷ [];
  warehouses = record { id = 1; org_id = 1 } ∷ [];
  sales_orders =
      order_row 5 SalesOrderStatus.draft
      ∷ order_row 6 SalesOrderStatus.partially_reserved
      ∷ order_row 7 SalesOrderStatus.dispatched
      ∷ [];
  sales_order_items =
      item_row 50 5 12_000 0 ∷ item_row 60 6 12_000 3_000 ∷ item_row 70 7 5_000 5_000 ∷ [];
  deliveries =
      record {
        id = 8;
        org_id = 1;
        sales_order_id = 7;
        warehouse_id = 1;
        delivery_number = record { prefix = "DL"; year = 2026; value = 0 };
        dispatched_at = june;
      }
      ∷ [];
  delivery_items =
      record { delivery_id = 8; sales_order_item_id = 70; product_id = 1; quantity = 2_000 } ∷ [];
  customer_invoices = [];
  customer_invoice_items = [];
  outbox_events = [];
  audit_logs = [];
}

pub books-IsValid : IsValid books.inventory.items
books-IsValid = record { unique = (tt, tt); stocked = (omega arith, tt) }

-- What a result holds, or the given value.
abbrev pub value_or {ℓ} : {A : Type ℓ} → A → Result A → A
value_or a (ok b) = b
value_or a (err e) = a

abbrev pub line_of : (quantity : ℕ) → SalesOrderLineInput
line_of quantity = record {
  product_id = 1;
  quantity = quantity;
  unit_price = 10_000;
  discount_percent = 0;
  discount_amount = 0;
}
