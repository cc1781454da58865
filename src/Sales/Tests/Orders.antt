-- ===== src/Sales/Tests/Orders.antt =====
-- The theorems on orders and counter sales at concrete ones.
use vyaparaflowai.Prelude.{Pairwise, ℕ, ◌≡◌, refl, false, none, [], ◌∷◌, arith, min, All}
use vyaparaflowai.Prelude.Int.{pos_part, ◌+ℤ◌, ◌-ℤ◌}
use vyaparaflowai.Prelude.Sorting.{insert, sorted}
use vyaparaflowai.Errors.{ok}
use vyaparaflowai.Inventory.{
  InventoryDb, apply, apply_lines, apply_line, build_statement, reserve_statement, run_statement,
  ensure_row, updated, returned, check_item, reserve_stock, get_available,
}
use vyaparaflowai.Numbering.{
  financial_year, is_number, ensure_sequence, increment, next_value, prefix_of,
  next_document_number,
}
use vyaparaflowai.Outbox.{write_event}
use vyaparaflowai.Payments.{InvoiceStatus}
use vyaparaflowai.Pricing.{
  price_order, half_up, raw_line, gross_of, discount_of, net_subtotal, header_discount_total,
  taxable_of, half_tax, whole_tax, priced_line, header_shares, priced_lines, totals, order_lines,
  build_hsn_summary, add_lines, add_line, add_to_group, round_money,
}
use vyaparaflowai.Purchase.{get_owned}
use vyaparaflowai.Sales.Tables.{SalesOrderStatus, SalesDb, check_order_item}
use vyaparaflowai.Sales.Requests.{
  CreateSalesOrderRequest, CreateSalesOrderResult, CreateCounterSaleRequest,
  CreateCounterSaleResult, RetryReservationResult,
}
use vyaparaflowai.Sales.Checks.{
  validate_customer, validate_warehouse, validate_organization, validate_products, pricing_lines,
  price_lines, outstanding, check_credit, validate_and_price,
}
use vyaparaflowai.Sales.Reserving.{
  reserve_all, reserve_available, best_effort_reserve, reserve_one, reserve_each, line_result,
  item_result, finalize_status,
}
use vyaparaflowai.Sales.Ordering.{
  report_shortage, order_items, reserve_order, set_order_status, create_sales_order,
}
use vyaparaflowai.Sales.Confirming.{items_of, set_reserved_qty, save_reserved, retry_reservation}
use vyaparaflowai.Sales.Counter.{create_counter_sale}
use vyaparaflowai.Sales.Effort.{HasReserved, best_effort_reserve-HasReserved}
use vyaparaflowai.Sales.Ordered.{IsOrdered, create_sales_order-IsOrdered}
use vyaparaflowai.Sales.Topped.{DiffersItem}
use vyaparaflowai.Sales.Retried.{IsRetried, IsWithinQuantity, retry_reservation-IsRetried}
use vyaparaflowai.Sales.Tests.{
  june, later_day, floor_share, no_text, ids, books, books-IsValid, value_or, line_of,
}

best_effort_reserve-HasReserved_example :
    (r : ℕ × InventoryDb) × (best_effort_reserve 1 1 12_000 9 books.inventory ≡ ok r)
    × (r.0 ≡ min 12_000 (pos_part (get_available 1 1 books.inventory)))
    × HasReserved 1 1 r.0 books.inventory r.1
best_effort_reserve-HasReserved_example =
    best_effort_reserve-HasReserved 1 1 9 12_000 books.inventory books-IsValid

abbrev order_request : CreateSalesOrderRequest
order_request = record {
  customer_id = 1;
  warehouse_id = 1;
  lines = line_of 12_000 ∷ [];
  order_date = june;
  header_discount_percent = 0;
  header_discount_amount = 0;
  notes = none;
  is_quote = false;
}

abbrev no_order : CreateSalesOrderResult × SalesDb
no_order = (
  record {
    sales_order_id = 0;
    order_number = record { prefix = ""; year = 0; value = 0 };
    status = SalesOrderStatus.draft;
    subtotal = 0;
    tax_total = 0;
    total = 0;
    lines = [];
    has_shortage = false;
  },
  books,
)

abbrev new_order : CreateSalesOrderResult × SalesDb
new_order = value_or no_order (create_sales_order no_text floor_share 1 order_request ids books)

new_order-eq : create_sales_order no_text floor_share 1 order_request ids books ≡ ok new_order
unfolding create_sales_order validate_customer validate_warehouse validate_organization
    validate_products pricing_lines price_lines outstanding check_credit validate_and_price
    get_owned price_order half_up raw_line gross_of discount_of net_subtotal header_discount_total
    taxable_of half_tax whole_tax priced_line header_shares priced_lines totals order_lines
    build_hsn_summary add_lines add_line add_to_group round_money next_document_number prefix_of
    next_value increment ensure_sequence financial_year is_number reserve_order reserve_each
    reserve_one best_effort_reserve reserve_all reserve_available reserve_stock reserve_statement
    get_available line_result item_result finalize_status apply apply_lines apply_line
    build_statement run_statement ensure_row updated returned check_item sorted insert ◌+ℤ◌ ◌-ℤ◌
    report_shortage write_event order_items check_order_item
new_order-eq = refl

create_sales_order-IsOrdered_example : IsOrdered 1 order_request books new_order
create_sales_order-IsOrdered_example =
    create_sales_order-IsOrdered no_text floor_share 1 order_request ids books new_order
      books-IsValid refl new_order-eq

abbrev no_retry : RetryReservationResult × SalesDb
no_retry = (record { sales_order_id = 0; status = SalesOrderStatus.draft; lines = [] }, books)

abbrev retried : RetryReservationResult × SalesDb
retried = value_or no_retry (retry_reservation 1 6 1 books)

retried-eq : retry_reservation 1 6 1 books ≡ ok retried
unfolding retry_reservation validate_warehouse get_owned reserve_each reserve_one
    best_effort_reserve reserve_all reserve_available reserve_stock reserve_statement get_available
    line_result item_result finalize_status apply apply_lines apply_line build_statement
    run_statement ensure_row updated returned check_item sorted insert ◌+ℤ◌ ◌-ℤ◌ check_order_item
    items_of set_order_status set_reserved_qty save_reserved
retried-eq = refl

books-IsWithinQuantity : All IsWithinQuantity books.sales_order_items
books-IsWithinQuantity = (omega arith, (omega arith, (omega arith, tt)))

books-DiffersItem : Pairwise DiffersItem books.sales_order_items
books-DiffersItem =
    (((λ e. ground arith), ((λ e. ground arith), tt)), (((λ e. ground arith), tt), (tt, tt)))

retry_reservation-IsRetried_example : IsRetried 1 6 books retried
retry_reservation-IsRetried_example =
    retry_reservation-IsRetried 1 6 1 books retried books-IsValid books-DiffersItem
      books-IsWithinQuantity retried-eq

abbrev sale_request : CreateCounterSaleRequest
sale_request = record {
  customer_id = 1;
  warehouse_id = 1;
  lines = line_of 1_000 ∷ line_of 2_500 ∷ [];
  invoice_date = june;
  header_discount_percent = 500;
  header_discount_amount = 0;
}

abbrev no_sale : CreateCounterSaleResult × SalesDb
no_sale = (
  record {
    customer_invoice_id = 0;
    invoice_number = record { prefix = ""; year = 0; value = 0 };
    status = InvoiceStatus.draft;
    subtotal = 0;
    tax_total = 0;
    total = 0;
    lines = [];
  },
  books,
)

abbrev sale : CreateCounterSaleResult × SalesDb
sale = value_or no_sale (create_counter_sale later_day floor_share 1 sale_request 9 books)
