-- ===== src/Receiving/Tests.antt =====
-- The theorems on goods receipts and supplier invoices at a concrete order.
use vyaparaflowai.Prelude.{◌||◌, ℕ, ◌<◌, ◌≡◌, refl, ◌⊎◌, true, none, some, [], ◌∷◌, arith, any}
use vyaparaflowai.Prelude.Int.{◌+ℤ◌, ◌-ℤ◌}
use vyaparaflowai.Prelude.Sorting.{insert, sorted}
use vyaparaflowai.Errors.{Error, Result, ok, err, integrity_error, data_error, IsAppError}
use vyaparaflowai.Inventory.{
  apply, apply_lines, apply_line, build_statement, receipt_statement, run_statement, ensure_row,
  updated, returned, check_item, receive_stock,
}
use vyaparaflowai.Numbering.{
  Date, financial_year, ensure_sequence, increment, next_value, prefix_of, next_document_number,
}
use vyaparaflowai.Purchase.{
  sent, received, PurchaseOrder, PurchaseOrderItem, PurchaseDb, check_receipt_item, get_owned,
}
use vyaparaflowai.Receiving.Requests.{
  GoodsReceiptLineInput, CreateGoodsReceiptRequest, CreateGoodsReceiptResult,
}
use vyaparaflowai.Receiving.Checks.{
  accepted_of, prior_accepted, check_line, check_lines, check_receipt,
}
use vyaparaflowai.Receiving.Receipts.{
  new_accepted, status_after, set_status, receipt_items, receive_lines, receive_accepted,
  write_receipt, create_goods_receipt,
}
use vyaparaflowai.Receiving.Soundness.{IsSound}
use vyaparaflowai.Receiving.Invoices.{
  CreateSupplierInvoiceRequest, CreateSupplierInvoiceResult, is_duplicate, invoice_overflows,
  line_overflows, create_supplier_invoice,
}
use vyaparaflowai.Receiving.Billing.{IsBilled, create_supplier_invoice_cases}
use vyaparaflowai.Receiving.Outcome.{IsReceived, create_goods_receipt_cases}
use vyaparaflowai.Receiving.Counting.{AreWithinOrder}
use vyaparaflowai.Receiving.Limits.{create_goods_receipt-AreWithinOrder}
use vyaparaflowai.Receiving.Repeats.{twice, create_goods_receipt-twice}

abbrev june : Date
june = record { year = 2026; month = 6; day = 1 }

abbrev order_row : ℕ → PurchaseOrder
order_row id = record {
  id = id;
  org_id = 1;
  supplier_id = 1;
  purchase_requisition_id = none;
  po_number = record { prefix = "PO"; year = 2026; value = id };
  order_date = june;
  status = sent;
}

abbrev item_row : (id order_id quantity : ℕ) → PurchaseOrderItem
item_row id order_id quantity = record {
  id = id;
  purchase_order_id = order_id;
  product_id = id;
  quantity = quantity;
  unit_price = 500;
}

-- Order 1 has the items 1 and 2, and all six of item 2 were accepted before; order 2 has item 3.
abbrev books : PurchaseDb
books = record {
  inventory = record { items = []; ledger = []; now = 7 };
  sequences = [];
  purchase_orders = order_row 1 ∷ order_row 2 ∷ [];
  purchase_order_items = item_row 1 1 10 ∷ item_row 2 1 6 ∷ item_row 3 2 3 ∷ [];
  requisitions = [];
  goods_receipts = [];
  goods_receipt_items =
      record {
        goods_receipt_id = 1;
        purchase_order_item_id = 2;
        product_id = 2;
        ordered_quantity = 6;
        received_quantity = 6;
        accepted_quantity = 6;
        rejected_quantity = 0;
        damaged_quantity = 0;
      }
      ∷ [];
  supplier_invoices = [];
  supplier_invoice_items = [];
  warehouses = record { id = 1; org_id = 1 } ∷ [];
  products = [];
  suppliers = record { id = 1; org_id = 1 } ∷ [];
}

books-IsSound : IsSound books
books-IsSound = record {
  stock = record { unique = tt; stocked = tt };
  ordered = (omega arith, (omega arith, (omega arith, tt)));
  numbered = tt;
  unique =
      (((λ e. ground arith), ((λ e. ground arith), tt)), (((λ e. ground arith), tt), (tt, tt)));
}

books-AreWithinOrder : AreWithinOrder books
unfolding accepted_of
books-AreWithinOrder = (omega arith, (omega arith, (omega arith, tt)))

abbrev line_of : (item_id quantity : ℕ) → GoodsReceiptLineInput
line_of item_id quantity = record {
  purchase_order_item_id = item_id;
  received_quantity = quantity;
  accepted_quantity = quantity;
  rejected_quantity = 0;
  damaged_quantity = 0;
}

abbrev request_of : (order_id item_id quantity : ℕ) → CreateGoodsReceiptRequest
request_of order_id item_id quantity = record {
  purchase_order_id = order_id;
  warehouse_id = 1;
  received_date = june;
  lines = line_of item_id quantity ∷ [];
}

abbrev nothing_written : CreateGoodsReceiptResult × PurchaseDb
nothing_written = (
  record {
    goods_receipt_id = 0;
    grn_number = record { prefix = ""; year = 0; value = 0 };
    purchase_order_status = sent;
    lines = [];
    triggered_by_sales_order_id = none;
  },
  books,
)

-- What a result holds, or the given value.
abbrev value_or {ℓ} : {A : Type ℓ} → A → Result A → A
value_or a (ok b) = b
value_or a (err e) = a

abbrev rest_of_order : CreateGoodsReceiptResult × PurchaseDb
rest_of_order = value_or nothing_written (create_goods_receipt 1 (request_of 1 1 10) 9 books)

rest_of_order-eq : create_goods_receipt 1 (request_of 1 1 10) 9 books ≡ ok rest_of_order
unfolding create_goods_receipt check_receipt check_lines check_line prior_accepted accepted_of
    get_owned write_receipt receipt_items check_receipt_item receive_lines receive_accepted
    status_after new_accepted set_status next_document_number prefix_of next_value increment
    ensure_sequence financial_year receive_stock apply apply_lines apply_line build_statement
    receipt_statement run_statement ensure_row updated returned check_item sorted insert ◌+ℤ◌ ◌-ℤ◌
rest_of_order-eq = refl

create_goods_receipt_cases_example :
    ((r : CreateGoodsReceiptResult × PurchaseDb) × (create_goods_receipt 1
          (request_of 1 1 10)
          9
          books
        ≡ ok r)
      × IsReceived 1 1 (line_of 1 10 ∷ []) 9 books r.0 r.1)
    ⊎ ((e : Error) × (create_goods_receipt 1 (request_of 1 1 10) 9 books ≡ err e) × IsAppError e)
create_goods_receipt_cases_example =
    create_goods_receipt_cases 1 (request_of 1 1 10) 9 books books-IsSound

create_goods_receipt-AreWithinOrder_example : AreWithinOrder rest_of_order.1
create_goods_receipt-AreWithinOrder_example =
    create_goods_receipt-AreWithinOrder 1 (request_of 1 1 10) 9 books books-IsSound rest_of_order
      (tt, tt) books-AreWithinOrder rest_of_order-eq

abbrev whole_order : CreateGoodsReceiptResult × PurchaseDb
whole_order = value_or nothing_written (create_goods_receipt 1 (request_of 2 3 3) 9 books)

whole_order-eq :
    (create_goods_receipt 1 (request_of 2 3 3) 9 books ≡ ok whole_order)
    × (whole_order.0.purchase_order_status ≡ received)
unfolding create_goods_receipt check_receipt check_lines check_line prior_accepted accepted_of
    get_owned write_receipt receipt_items check_receipt_item receive_lines receive_accepted
    status_after new_accepted set_status next_document_number prefix_of next_value increment
    ensure_sequence financial_year receive_stock apply apply_lines apply_line build_statement
    receipt_statement run_statement ensure_row updated returned check_item sorted insert ◌+ℤ◌ ◌-ℤ◌
whole_order-eq = (refl, refl)

create_goods_receipt-twice_example :
    (s : CreateGoodsReceiptResult × PurchaseDb) × (create_goods_receipt 1
        (twice 1 (request_of 2 3 3) 9 books (line_of 3 3))
        9
        books
      ≡ ok s)
    × (3 < accepted_of 3 s.1.goods_receipt_items)
unfolding accepted_of
create_goods_receipt-twice_example =
    create_goods_receipt-twice 1 (request_of 2 3 3) 9 books (line_of 3 3) whole_order 3
      books-IsSound whole_order-eq.0 (omega arith) refl

abbrev bill : CreateSupplierInvoiceRequest
bill = record {
  supplier_id = 1;
  purchase_order_id = some 1;
  invoice_number = "A-17";
  invoice_date = 739000;
  due_date = 739030;
  lines =
      record {
        product_id = none;
        quantity = 2000;
        unit_price = 500;
        gst_rate = 1800;
        line_total = 1180;
      }
      ∷ [];
}

create_supplier_invoice_cases_example :
    ((r : CreateSupplierInvoiceResult × PurchaseDb) × (create_supplier_invoice 1 bill 9 books
        ≡ ok r)
      × IsBilled 1 bill 9 books r.0 r.1)
    ⊎ (((create_supplier_invoice 1 bill 9 books ≡ err integrity_error)
          × (any (is_duplicate bill) books.supplier_invoices ≡ true))
        ⊎ ((create_supplier_invoice 1 bill 9 books ≡ err data_error)
            × (invoice_overflows bill || any line_overflows bill.lines ≡ true))
        ⊎ ((e : Error) × (create_supplier_invoice 1 bill 9 books ≡ err e) × IsAppError e))
create_supplier_invoice_cases_example =
    create_supplier_invoice_cases 1 bill 9 books (omega arith, tt)
