-- ===== src/Matching/Tests.antt =====
-- The theorems on matching at a concrete order, receipt and invoice.
use mathlib.Core.List.{Permᴰ}
use vyaparaflowai.Prelude.{
  ℕ, ◌+◌, ◌≡◌, ◌≢◌, ◌↔◌, refl, inl, true, false, none, some, List, [], ◌∷◌, String, arith,
}
use vyaparaflowai.Prelude.Int.{pos, ◌+ℤ◌, ◌-ℤ◌}
use vyaparaflowai.Errors.{Result, ok, err}
use vyaparaflowai.Payments.{SupplierInvoiceStatus}
use vyaparaflowai.Purchase.{
  PurchaseOrderStatus, PurchaseOrder, GoodsReceipt, SupplierInvoice, SupplierInvoiceItem, get_owned,
}
use vyaparaflowai.Matching.Lines.{
  MatchLineInput, default_tolerances, pct_variance, qty_within, price_within, is_spike,
  amount_within, line_reasons, evaluate_line,
}
use vyaparaflowai.Matching.Verdict.{
  auto_approve, MatchInput, is_round_number_amount, is_weekend, price_variance_worst,
  structural_issue, risk_score, verdict_of, evaluate_three_way_match,
}
use vyaparaflowai.Matching.Documents.{
  RunThreeWayMatchResult, MatchDb, MatchRequest, load_documents, last_by, unmatched_count, set_of,
  product_ids, sku_of, match_line, match_input, set_invoice_status, match_three_way,
}
use vyaparaflowai.Matching.Approval.{IsApprovable, evaluate_three_way_match-auto_approve}
use vyaparaflowai.Matching.Ordering.{Agree, evaluate_three_way_match-Perm}
use vyaparaflowai.Matching.Loading.{BelongTogether}
use vyaparaflowai.Matching.Records.{IsMatched, match_three_way-IsMatched}
use vyaparaflowai.Matching.Repeated.{with_line, match_three_way-repeated}
use vyaparaflowai.Matching.Taxed.{evaluate_three_way_match-taxed}

-- Ten at ten rupees, and what is over in paise.
abbrev line_of : (product over : ℕ) → MatchLineInput
line_of product over = record {
  product_id = product;
  product_sku = "BOLT";
  po_quantity = some 10000;
  po_unit_price = some 1000;
  grn_accepted_quantity = some 10000;
  invoice_quantity = some 10000;
  invoice_unit_price = some 1000;
  invoice_line_total = some (10000 + over);
}

abbrev input_of : List MatchLineInput → MatchInput
input_of lines = record {
  lines = lines;
  tolerances = default_tolerances;
  unmatched_invoice_line_count = 0;
  is_new_supplier = true;
  duplicate_invoice_found = false;
  invoice_total = 25000000;
  invoice_date = 739000;
}

evaluate_three_way_match-auto_approve_example :
    ((evaluate_three_way_match (input_of (line_of 1 0 ∷ []))).verdict ≡ auto_approve)
    ↔ IsApprovable (input_of (line_of 1 0 ∷ []))
evaluate_three_way_match-auto_approve_example =
    evaluate_three_way_match-auto_approve (input_of (line_of 1 0 ∷ []))

evaluate_three_way_match-Perm_example :
    Agree
      (evaluate_three_way_match (input_of (line_of 1 0 ∷ line_of 2 50 ∷ [])))
      (evaluate_three_way_match (input_of (line_of 2 50 ∷ line_of 1 0 ∷ [])))
evaluate_three_way_match-Perm_example =
    evaluate_three_way_match-Perm (input_of (line_of 1 0 ∷ line_of 2 50 ∷ []))
      (line_of 2 50 ∷ line_of 1 0 ∷ []) (Permᴰ.swap refl refl)

-- Eighteen percent on a thousand rupees.
abbrev taxed_line : MatchLineInput
taxed_line = record (line_of 1 0) {
  po_unit_price = some 10000;
  invoice_unit_price = some 10000;
  invoice_line_total = some 118000;
}

evaluate_three_way_match-taxed_example :
    (evaluate_three_way_match (input_of (taxed_line ∷ []))).verdict ≢ auto_approve
evaluate_three_way_match-taxed_example =
    evaluate_three_way_match-taxed (input_of (taxed_line ∷ [])) taxed_line 10000 10000 118000
      18000000 (inl refl) refl refl refl refl refl refl (omega arith)

abbrev item_of : (quantity : ℕ) → SupplierInvoiceItem
item_of quantity = record {
  supplier_invoice_id = 1;
  product_id = some 7;
  quantity = quantity;
  unit_price = 1000;
  gst_rate = 0;
  line_total = quantity;
}

abbrev order_row : ℕ → PurchaseOrder
order_row id = record {
  id = id;
  org_id = 1;
  supplier_id = 3;
  purchase_requisition_id = none;
  po_number = record { prefix = "PO"; year = 2026; value = id };
  order_date = record { year = 2026; month = 6; day = 1 };
  status = PurchaseOrderStatus.received;
}

abbrev tables : MatchDb
tables = record {
  books = record {
    inventory = record { items = []; ledger = []; now = 7 };
    sequences = [];
    purchase_orders = order_row 1 ∷ order_row 2 ∷ [];
    purchase_order_items =
        record {
          id = 1;
          purchase_order_id = 1;
          product_id = 7;
          quantity = 10000;
          unit_price = 1000;
        }
        ∷ [];
    requisitions = [];
    goods_receipts =
        record {
          id = 1;
          org_id = 1;
          purchase_order_id = 1;
          warehouse_id = 1;
          grn_number = record { prefix = "GRN"; year = 2026; value = 1 };
          received_date = record { year = 2026; month = 6; day = 2 };
        }
        ∷ [];
    goods_receipt_items =
        record {
          goods_receipt_id = 1;
          purchase_order_item_id = 1;
          product_id = 7;
          ordered_quantity = 10000;
          received_quantity = 10000;
          accepted_quantity = 10000;
          rejected_quantity = 0;
          damaged_quantity = 0;
        }
        ∷ [];
    supplier_invoices =
        record {
          id = 1;
          org_id = 1;
          supplier_id = 3;
          purchase_order_id = some 1;
          invoice_number = "A-17";
          invoice_date = 739000;
          due_date = 739030;
          status = SupplierInvoiceStatus.received;
          subtotal = 10000000;
          tax_total = pos 0;
          total = 10000000;
        }
        ∷ [];
    supplier_invoice_items = item_of 10000 ∷ [];
    warehouses = [];
    products = record { id = 7; org_id = 1; sku = "BOLT" } ∷ [];
    suppliers = record { id = 3; org_id = 1 } ∷ [];
  };
  match_results = [];
}

abbrev run : MatchRequest
run = record {
  org_id = 1;
  purchase_order_id = 1;
  goods_receipt_id = 1;
  supplier_invoice_id = 1;
  tolerances = default_tolerances;
}

abbrev no_text : ℕ → String
no_text id = ""

abbrev as_given : List ℕ → List ℕ
as_given ids = ids

-- What a result holds, or the given value.
abbrev value_or {ℓ} : {A : Type ℓ} → A → Result A → A
value_or a (ok b) = b
value_or a (err e) = a

abbrev unmatched_yet : RunThreeWayMatchResult × MatchDb
unmatched_yet = (
  record { three_way_match_result_id = 0; outcome = evaluate_three_way_match (input_of []) },
  tables,
)

abbrev answer : RunThreeWayMatchResult × MatchDb
answer = value_or unmatched_yet (match_three_way no_text as_given run 5 tables)

answer-eq :
    (match_three_way no_text as_given run 5 tables ≡ ok answer)
    × (answer.0.outcome.verdict ≡ auto_approve)
unfolding match_three_way load_documents get_owned match_input product_ids set_of match_line last_by
    sku_of unmatched_count evaluate_three_way_match evaluate_line qty_within price_within is_spike
    amount_within pct_variance line_reasons structural_issue risk_score verdict_of
    price_variance_worst is_round_number_amount is_weekend set_invoice_status ◌+ℤ◌ ◌-ℤ◌
answer-eq = (refl, refl)

match_three_way-IsMatched_example :
    ((order : PurchaseOrder) × (receipt : GoodsReceipt) × (invoice : SupplierInvoice)
      × BelongTogether run tables.books order receipt invoice)
    × IsMatched no_text as_given run 5 tables answer.1
match_three_way-IsMatched_example =
    match_three_way-IsMatched no_text as_given run 5 tables answer (λ ids id m. m) answer-eq.0
      answer-eq.1

-- A first line for five times as much goes unseen.
match_three_way-repeated_example :
    (s : RunThreeWayMatchResult × MatchDb) × (match_three_way no_text as_given run 5
        (with_line (item_of 50000) tables)
      ≡ ok s)
    × (s.0.outcome ≡ answer.0.outcome)
match_three_way-repeated_example =
    match_three_way-repeated no_text as_given run 5 tables (item_of 50000) 7 answer refl refl refl
      answer-eq.0
