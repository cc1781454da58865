-- ===== src/Matching/Documents.antt =====
-- The match of an order, a receipt and an invoice (`match_three_way` of backend/app/services/matching.py).
use mathlib.Core.Option
use vyaparaflowai.Prelude.{
  ℕ, Bool, true, false, not, ◌&&◌, Option, none, some, List, [], ◌∷◌, ◌++◌, map, String, ◌==◌, ltb,
  if◌then◌else◌, any, filter, find, total,
}
use vyaparaflowai.Prelude.Int.{ℤ}
use vyaparaflowai.Errors.{Result, ok, conflict, integrity_error, ◌>>=◌, ◌>>◌, raise_if}
use vyaparaflowai.Payments.{SupplierInvoiceStatus, matched, blocked}
use vyaparaflowai.Purchase.{
  PurchaseOrder, PurchaseOrderItem, GoodsReceipt, GoodsReceiptItem, SupplierInvoice,
  SupplierInvoiceItem, Product, PurchaseDb, get_owned, get_purchase_order,
}
use vyaparaflowai.Matching.Lines.{Reason, MatchTolerances, MatchLineInput}
use vyaparaflowai.Matching.Verdict.{
  MatchVerdict, auto_approve, review, block, MatchInput, ThreeWayMatchOutcome,
  evaluate_three_way_match,
}

pub record ThreeWayMatchResult : Type 0 where
  pub id : ℕ
  pub org_id : ℕ
  pub purchase_order_id : ℕ
  pub goods_receipt_id : ℕ
  pub supplier_invoice_id : ℕ
  pub qty_variance : ℤ
  pub price_variance : ℤ
  pub amount_variance : ℤ
  pub risk_score : ℕ
  pub verdict : MatchVerdict
  pub reason_codes : List Reason

pub record RunThreeWayMatchResult : Type 0 where
  pub three_way_match_result_id : ℕ
  pub outcome : ThreeWayMatchOutcome

pub record MatchDb : Type 0 where
  pub books : PurchaseDb
  pub match_results : List ThreeWayMatchResult

pub record MatchRequest : Type 0 where
  pub org_id : ℕ
  pub purchase_order_id : ℕ
  pub goods_receipt_id : ℕ
  pub supplier_invoice_id : ℕ
  pub tolerances : MatchTolerances

abbrev pub get_goods_receipt : ℕ → ℕ → PurchaseDb → Result GoodsReceipt
get_goods_receipt org_id id db =
    get_owned (λ (g : GoodsReceipt). g.id) (λ (g : GoodsReceipt). g.org_id) org_id id
      db.goods_receipts

abbrev pub get_supplier_invoice : ℕ → ℕ → PurchaseDb → Result SupplierInvoice
get_supplier_invoice org_id id db =
    get_owned (λ (i : SupplierInvoice). i.id) (λ (i : SupplierInvoice). i.org_id) org_id id
      db.supplier_invoices

abbrev pub is_other : ℕ → Option ℕ → Bool
is_other id none = false
is_other id (some other) = not (other == id)

-- The three documents, and the guards on them.
unfoldable pub load_documents :
    MatchRequest → PurchaseDb → Result (PurchaseOrder × GoodsReceipt × SupplierInvoice)
load_documents request db = do
  order ← get_purchase_order request.org_id request.purchase_order_id db
  receipt ← get_goods_receipt request.org_id request.goods_receipt_id db
  raise_if (not (receipt.purchase_order_id == request.purchase_order_id)) conflict
  invoice ← get_supplier_invoice request.org_id request.supplier_invoice_id db
  raise_if (is_other request.purchase_order_id invoice.purchase_order_id) conflict
  raise_if (not (invoice.supplier_id == order.supplier_id)) conflict
  ok (order, receipt, invoice)

abbrev pub po_items : ℕ → PurchaseDb → List PurchaseOrderItem
po_items id db =
    filter (λ (i : PurchaseOrderItem). i.purchase_order_id == id) db.purchase_order_items

abbrev pub grn_items : ℕ → PurchaseDb → List GoodsReceiptItem
grn_items id db = filter (λ (i : GoodsReceiptItem). i.goods_receipt_id == id) db.goods_receipt_items

abbrev pub invoice_items : ℕ → PurchaseDb → List SupplierInvoiceItem
invoice_items id db =
    filter (λ (i : SupplierInvoiceItem). i.supplier_invoice_id == id) db.supplier_invoice_items

-- `d.get(key)` for `d = {key(x): x for x in xs}`: the last of a key stands.
unfoldable pub last_by {ℓ} : {A : Type ℓ} (test : A → Bool) → List A → Option A
last_by test [] = none
last_by test (x ∷ xs) =
    let later = last_by test xs in
    elim later [ some y ↦ some y | none ↦ if test x then some x else none ]

abbrev pub is_for : ℕ → SupplierInvoiceItem → Bool
is_for product_id item = elim item.product_id [ none ↦ false | some id ↦ id == product_id ]

abbrev pub has_no_product : SupplierInvoiceItem → Bool
has_no_product item = elim item.product_id [ none ↦ true | some id ↦ false ]

unfoldable pub unmatched_count : List SupplierInvoiceItem → ℕ
unmatched_count items = total (λ item. if has_no_product item then 1 else 0) items

abbrev pub named_products : List SupplierInvoiceItem → List ℕ
named_products [] = []
named_products (item ∷ items) = elim item.product_id [
  | none ↦ named_products items
  | some id ↦ id ∷ named_products items
]

-- A set, as the list of its elements.
unfoldable pub set_of : List ℕ → List ℕ
set_of [] = []
set_of (x ∷ xs) = let rest = set_of xs in if any (λ y. y == x) rest then rest else x ∷ rest

unfoldable pub product_ids :
    List PurchaseOrderItem → List GoodsReceiptItem → List SupplierInvoiceItem → List ℕ
product_ids po grn invoice = set_of (
    map (λ (i : PurchaseOrderItem). i.product_id) po
    ++ (map (λ (i : GoodsReceiptItem). i.product_id) grn ++ named_products invoice))

-- `_INVOICE_STATUS_BY_VERDICT`
abbrev pub status_by_verdict : MatchVerdict → SupplierInvoiceStatus → SupplierInvoiceStatus
status_by_verdict auto_approve status = matched
status_by_verdict block status = blocked
status_by_verdict review status = status

unfoldable pub set_invoice_status : ℕ → MatchVerdict → List SupplierInvoice → List SupplierInvoice
set_invoice_status id verdict [] = []
set_invoice_status id verdict (row ∷ rows) =
    (if row.id == id then record row { status = status_by_verdict verdict row.status } else row)
    ∷ set_invoice_status id verdict rows

-- The answer and the tables after the writes.
abbrev pub recorded :
    MatchRequest → (new_id : ℕ) → ThreeWayMatchOutcome → MatchDb → RunThreeWayMatchResult × MatchDb
recorded request new_id outcome db = (
  record { three_way_match_result_id = new_id; outcome = outcome },
  record {
    books = record db.books {
      supplier_invoices =
          set_invoice_status request.supplier_invoice_id outcome.verdict db.books.supplier_invoices;
    };
    match_results =
        record {
          id = new_id;
          org_id = request.org_id;
          purchase_order_id = request.purchase_order_id;
          goods_receipt_id = request.goods_receipt_id;
          supplier_invoice_id = request.supplier_invoice_id;
          qty_variance = outcome.qty_variance;
          price_variance = outcome.price_variance;
          amount_variance = outcome.amount_variance;
          risk_score = outcome.risk_score;
          verdict = outcome.verdict;
          reason_codes = outcome.reason_codes;
        }
        ∷ db.match_results;
  },
)

abbrev pub is_other_order : PurchaseOrder → PurchaseOrder → Bool
is_other_order order row = row.supplier_id == order.supplier_id && not (row.id == order.id)

abbrev pub is_same_bill : SupplierInvoice → SupplierInvoice → Bool
is_same_bill invoice row =
    row.supplier_id == invoice.supplier_id
    && (not (row.id == invoice.id) && row.total == invoice.total)

-- The text of a UUID is a parameter.
module _ (text_of_id : ℕ → String) where
  unfoldable pub sku_of : List Product → ℕ → String
  sku_of products id = elim (find (λ (p : Product). p.id == id) products) [
    | none ↦ text_of_id id
    | some product ↦ product.sku
  ]

  unfoldable pub match_line :
      List Product
      → List PurchaseOrderItem
      → List GoodsReceiptItem
      → List SupplierInvoiceItem
      → ℕ
      → MatchLineInput
  match_line products po grn invoice id =
      let po_item = last_by (λ (i : PurchaseOrderItem). i.product_id == id) po in
      let grn_item = last_by (λ (i : GoodsReceiptItem). i.product_id == id) grn in
      let invoice_item = last_by (is_for id) invoice in
      record {
        product_id = id;
        product_sku = sku_of products id;
        po_quantity = Option.map (λ (i : PurchaseOrderItem). i.quantity) po_item;
        po_unit_price = Option.map (λ (i : PurchaseOrderItem). i.unit_price) po_item;
        grn_accepted_quantity = Option.map (λ (i : GoodsReceiptItem). i.accepted_quantity) grn_item;
        invoice_quantity = Option.map (λ (i : SupplierInvoiceItem). i.quantity) invoice_item;
        invoice_unit_price = Option.map (λ (i : SupplierInvoiceItem). i.unit_price) invoice_item;
        invoice_line_total = Option.map (λ (i : SupplierInvoiceItem). i.line_total) invoice_item;
      }

-- The order in which Python goes through a set is a parameter too.
module _ (text_of_id : ℕ → String) (iteration : List ℕ → List ℕ) where
  -- The arguments of the evaluation.
  unfoldable pub match_input :
      MatchRequest → PurchaseDb → PurchaseOrder → SupplierInvoice → MatchInput
  match_input request db order invoice =
      let po = po_items request.purchase_order_id db in
      let grn = grn_items request.goods_receipt_id db in
      let billed = invoice_items request.supplier_invoice_id db in
      record {
        lines =
            map (match_line text_of_id db.products po grn billed)
              (iteration (product_ids po grn billed));
        tolerances = request.tolerances;
        unmatched_invoice_line_count = unmatched_count billed;
        is_new_supplier = not (any (is_other_order order) db.purchase_orders);
        duplicate_invoice_found = any (is_same_bill invoice) db.supplier_invoices;
        invoice_total = invoice.total;
        invoice_date = invoice.invoice_date;
      }

  unfoldable pub match_three_way :
      MatchRequest → (new_id : ℕ) → MatchDb → Result (RunThreeWayMatchResult × MatchDb)
  match_three_way request new_id db = load_documents request db.books >>= λ found.
      let outcome = evaluate_three_way_match (match_input request db.books found.0 found.2) in
      raise_if (ltb 100 outcome.risk_score) integrity_error
      >> ok (recorded request new_id outcome db)
