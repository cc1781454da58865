-- ===== src/Sales/Tests/Deliveries.antt =====
-- The theorems on deliveries and their invoices at concrete ones.
use vyaparaflowai.Prelude.{ℕ, ◌≡◌, ◌≢◌, refl, true, none, some, [], ◌∷◌, arith}
use vyaparaflowai.Prelude.Int.{pos, ◌+ℤ◌, ◌-ℤ◌}
use vyaparaflowai.Prelude.Sorting.{insert, sorted}
use vyaparaflowai.Errors.{ok}
use vyaparaflowai.Inventory.{
  apply, apply_lines, apply_line, build_statement, issue_statement, run_statement, ensure_row,
  updated, returned, check_item, issue_stock,
}
use vyaparaflowai.Numbering.{
  financial_year, is_number, ensure_sequence, increment, next_value, prefix_of,
  next_document_number,
}
use vyaparaflowai.Payments.{InvoiceStatus}
use vyaparaflowai.Purchase.{get_owned}
use vyaparaflowai.Sales.Tables.{SalesOrderStatus, SalesDb}
use vyaparaflowai.Sales.Requests.{
  CreateDeliveryRequest, CreateDeliveryResult, CreateCustomerInvoiceFromDeliveryRequest,
  CreateCustomerInvoiceFromDeliveryResult,
}
use vyaparaflowai.Sales.Checks.{validate_customer, validate_warehouse, validate_organization}
use vyaparaflowai.Sales.Ordering.{set_order_status}
use vyaparaflowai.Sales.Dispatch.{
  delivered_of, check_line, check_lines, check_delivery, delivery_rows, create_delivery,
}
use vyaparaflowai.Sales.Invoicing.{
  billed_item, billed_items, is_all_invoiced, find_order, BillableDelivery, check_billable,
  create_customer_invoice_from_delivery,
}
use vyaparaflowai.Sales.Delivering.{AreWithinReserved}
use vyaparaflowai.Sales.Shipped.{
  IsShipped, create_delivery-IsShipped, create_delivery-AreWithinReserved,
}
use vyaparaflowai.Sales.Billing.{
  create_customer_invoice_from_delivery-once, create_customer_invoice_from_delivery-closes,
}
use vyaparaflowai.Sales.Tests.{
  june, later_day, floor_share, order_row, books, books-IsValid, value_or,
}

abbrev delivery_request : (quantity : ℕ) → CreateDeliveryRequest
delivery_request quantity = record {
  sales_order_id = 7;
  warehouse_id = 1;
  lines = record { sales_order_item_id = 70; quantity = quantity } ∷ [];
  dispatched_at = june;
}

abbrev no_delivery : CreateDeliveryResult × SalesDb
no_delivery = (
  record {
    delivery_id = 0;
    delivery_number = record { prefix = ""; year = 0; value = 0 };
    sales_order_id = 0;
    sales_order_status = SalesOrderStatus.draft;
    lines = [];
  },
  books,
)

abbrev second : CreateDeliveryResult × SalesDb
second = value_or no_delivery (create_delivery 1 (delivery_request 3_000) 9 books)

second-eq : create_delivery 1 (delivery_request 3_000) 9 books ≡ ok second
unfolding create_delivery check_delivery check_lines check_line delivered_of delivery_rows
    validate_warehouse get_owned set_order_status next_document_number prefix_of next_value
    increment ensure_sequence financial_year is_number issue_stock issue_statement apply apply_lines
    apply_line build_statement run_statement ensure_row updated returned check_item sorted insert
    ◌+ℤ◌ ◌-ℤ◌
second-eq = refl

create_delivery-IsShipped_example : IsShipped 1 (delivery_request 3_000) books second
create_delivery-IsShipped_example =
    create_delivery-IsShipped 1 (delivery_request 3_000) 9 books second books-IsValid second-eq

books-AreWithinReserved : AreWithinReserved books
unfolding delivered_of
books-AreWithinReserved = (omega arith, (omega arith, (omega arith, tt)))

create_delivery-AreWithinReserved_example : AreWithinReserved second.1
create_delivery-AreWithinReserved_example =
    create_delivery-AreWithinReserved 1 (delivery_request 3_000) 9 books second books-IsValid
      (((λ e. ground arith), ((λ e. ground arith), tt)), (((λ e. ground arith), tt), (tt, tt)))
      (tt, tt) books-AreWithinReserved second-eq

abbrev bill_request : CreateCustomerInvoiceFromDeliveryRequest
bill_request = record { delivery_id = 8; invoice_date = june }

abbrev no_bill : CreateCustomerInvoiceFromDeliveryResult × SalesDb
no_bill = (
  record {
    customer_invoice_id = 0;
    invoice_number = record { prefix = ""; year = 0; value = 0 };
    status = InvoiceStatus.draft;
    customer_name = "";
    customer_email = none;
    subtotal = 0;
    tax_total = 0;
    total = 0;
    lines = [];
  },
  books,
)

-- The invoice of the 2 of 5 that are delivered.
abbrev bill : CreateCustomerInvoiceFromDeliveryResult × SalesDb
bill =
    value_or no_bill
      (create_customer_invoice_from_delivery later_day floor_share 1 bill_request 9 books)

bill-eq :
    create_customer_invoice_from_delivery later_day floor_share 1 bill_request 9 books ≡ ok bill
unfolding create_customer_invoice_from_delivery check_billable find_order validate_customer
    validate_organization get_owned billed_items billed_item is_all_invoiced set_order_status
    next_document_number prefix_of next_value increment ensure_sequence financial_year is_number
bill-eq = refl

create_customer_invoice_from_delivery-once_example :
    create_customer_invoice_from_delivery later_day floor_share 1 bill_request 10 bill.1 ≢ ok bill
create_customer_invoice_from_delivery-once_example =
    create_customer_invoice_from_delivery-once later_day floor_share 1 bill_request bill_request 9
      10 books bill bill refl bill-eq

abbrev billable : BillableDelivery
billable = record {
  delivery = record {
    id = 8;
    org_id = 1;
    sales_order_id = 7;
    warehouse_id = 1;
    delivery_number = record { prefix = "DL"; year = 2026; value = 0 };
    dispatched_at = june;
  };
  order = order_row 7 SalesOrderStatus.dispatched;
  customer = record {
    id = 1;
    org_id = 1;
    name = "Asha Traders";
    state_code = some "27";
    email = none;
    credit_limit = 500_000;
    payment_terms_days = pos 15;
    is_active = true;
  };
  lines =
      record { delivery_id = 8; sales_order_item_id = 70; product_id = 1; quantity = 2_000 } ∷ [];
}

billable-eq : check_billable 1 8 books ≡ ok billable
unfolding check_billable find_order validate_customer validate_organization get_owned
billable-eq = refl

billable-invoiced : is_all_invoiced 7 8 books ≡ true
unfolding is_all_invoiced
billable-invoiced = refl

-- The other 3 are reserved, but are never delivered.
create_customer_invoice_from_delivery-closes_example :
    create_delivery 1 (delivery_request 3_000) 10 bill.1 ≢ ok second
create_customer_invoice_from_delivery-closes_example =
    create_customer_invoice_from_delivery-closes later_day floor_share 1 bill_request 9 books
      billable bill (delivery_request 3_000) 10 second bill-eq billable-eq billable-invoiced refl

-- The books with all 5 of order 7 delivered.
abbrev all_delivered : SalesDb
all_delivered = record books {
  delivery_items =
      record { delivery_id = 8; sales_order_item_id = 70; product_id = 1; quantity = 5_000 } ∷ [];
}

abbrev whole_bill : CreateCustomerInvoiceFromDeliveryResult × SalesDb
whole_bill =
    value_or no_bill
      (create_customer_invoice_from_delivery later_day floor_share 1 bill_request 9 all_delivered)
