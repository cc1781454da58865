-- ===== src/Matching/Records.antt =====
-- What `match_three_way` returns and writes.
use vyaparaflowai.Prelude.{
  ℕ, ◌≤◌, ◌≡◌, refl, sym, subst, ap, ◌∙◌, ◌⊎◌, inl, inr, true, false, some, List, [], ◌∷◌, map,
  String, arith, ◌==◌, ltb, In, All-In,
}
use vyaparaflowai.Errors.{Error, ok, err, ok-inj, IsAppError}
use vyaparaflowai.Payments.{matched}
use vyaparaflowai.Purchase.{PurchaseOrder, GoodsReceipt, SupplierInvoice, SupplierInvoiceItem}
use vyaparaflowai.Matching.Lines.{MatchLineInput, MatchLineResult, evaluate_line}
use vyaparaflowai.Matching.Verdict.{
  auto_approve, MatchInput, risk_score, ThreeWayMatchOutcome, evaluate_three_way_match,
}
use vyaparaflowai.Matching.Documents.{
  RunThreeWayMatchResult, MatchDb, MatchRequest, po_items, grn_items, invoice_items, match_line,
  match_input, set_invoice_status, recorded, match_three_way,
}
use vyaparaflowai.Matching.Clean.{IsClean}
use vyaparaflowai.Matching.Approval.{evaluate_three_way_match-auto_approve}
use vyaparaflowai.Matching.Agreed.{
  IsOnDocuments, AgreesOn, AgreesOn-clean, map-In, In-product_ids, named_item,
}
use vyaparaflowai.Matching.Loading.{BelongTogether, load_documents_cases}

risk_score-le : (input : MatchInput) (lines : List MatchLineResult) → risk_score input lines ≤ 100
unfolding risk_score
risk_score-le input lines = omega arith

outcome-within : (input : MatchInput) → ltb 100 (evaluate_three_way_match input).risk_score ≡ false
unfolding evaluate_three_way_match
outcome-within input =
    ground (arith, risk_score-le input (map (evaluate_line input.tolerances) input.lines))

set_invoice_status-In :
    (id : ℕ) (rows : List SupplierInvoice) (row : SupplierInvoice)
    → In row rows
    → row.id ≡ id
    → In (record row { status = matched }) (set_invoice_status id auto_approve rows)
unfolding set_invoice_status
set_invoice_status-In id [] row m e = absurd m
set_invoice_status-In id (x ∷ rows) row (inl same) e =
    let is_id : (x.id == id) ≡ true =
      subst (λ (r : SupplierInvoice). (r.id == id) ≡ true) (sym same) (ground (arith, e)) in
    rw (set_invoice_status, is_id)
      (inl (ap (λ (r : SupplierInvoice). record r { status = matched }) same))
set_invoice_status-In id (x ∷ rows) row (inr m) e = inr (set_invoice_status-In id rows row m e)

module _ (text_of_id : ℕ → String) (iteration : List ℕ → List ℕ) (request : MatchRequest)
    (new_id : ℕ) (db : MatchDb) where
  abbrev pub outcome_of : PurchaseOrder → SupplierInvoice → ThreeWayMatchOutcome
  outcome_of order invoice =
      evaluate_three_way_match (match_input text_of_id iteration request db.books order invoice)

  -- The answer is an exception of the service, or the outcome for three documents that belong
  -- together, which is recorded, with a score that the table takes.
  pub match_three_way_cases :
      ((order : PurchaseOrder) × (receipt : GoodsReceipt) × (invoice : SupplierInvoice)
        × BelongTogether request db.books order receipt invoice
        × (match_three_way text_of_id iteration request new_id db
            ≡ ok (recorded request new_id (outcome_of order invoice) db)))
      ⊎ ((e : Error) × (match_three_way text_of_id iteration request new_id db ≡ err e)
          × IsAppError e)
  unfolding match_three_way
  match_three_way_cases = elim (load_documents_cases request db.books) [
    | inr (e, h, handled) ↦ inr (e, rw (match_three_way, h) refl, handled)
    | inl (found, h, together) ↦
        let within =
          outcome-within (match_input text_of_id iteration request db.books found.0 found.2) in
        inl (found.0, found.1, found.2, together, rw (match_three_way, h, within) refl)
  ]

  abbrev pub line_for : ℕ → MatchLineInput
  line_for =
      match_line text_of_id db.books.products (po_items request.purchase_order_id db.books)
        (grn_items request.goods_receipt_id db.books)
        (invoice_items request.supplier_invoice_id db.books)

  -- The invoice is left as matched, its lines name their products, and the three documents agree on
  -- every product of one of them.
  pub record IsMatched (db' : MatchDb) : Type 0 where
    pub row : SupplierInvoice
    pub stored : In row db'.books.supplier_invoices
    pub same_id : row.id ≡ request.supplier_invoice_id
    pub status : row.status ≡ matched
    pub named :
        (item : SupplierInvoiceItem)
        → In item db.books.supplier_invoice_items
        → item.supplier_invoice_id ≡ request.supplier_invoice_id
        → (id : ℕ) × (item.product_id ≡ some id)
    pub agreed : (id : ℕ) → IsOnDocuments request db.books id → AgreesOn request db.books id

  approvable-IsMatched :
      (order : PurchaseOrder) (receipt : GoodsReceipt) (invoice : SupplierInvoice)
      → ((ids : List ℕ) (id : ℕ) → In id ids → In id (iteration ids))
      → BelongTogether request db.books order receipt invoice
      → (outcome_of order invoice).verdict ≡ auto_approve
      → IsMatched (recorded request new_id (outcome_of order invoice) db).1
  unfolding match_input
  approvable-IsMatched order receipt invoice complete together approved =
      let input = match_input text_of_id iteration request db.books order invoice in
      let a = (evaluate_three_way_match-auto_approve input).0 approved in
      record {
        row = record invoice { status = matched };
        stored =
            subst
              (λ v.
                In (record invoice { status = matched })
                  (set_invoice_status request.supplier_invoice_id v db.books.supplier_invoices))
              (sym approved)
              (set_invoice_status-In request.supplier_invoice_id db.books.supplier_invoices invoice
                together.invoice_found together.invoice_id);
        same_id = together.invoice_id;
        status = refl;
        named = λ item m of_invoice.
            named_item request.supplier_invoice_id db.books.supplier_invoice_items item m of_invoice
              a.matched;
        agreed = λ id m. AgreesOn-clean text_of_id request db.books id (
            All-In (IsClean request.tolerances) input.lines (line_for id) a.clean
              (map-In line_for _ id (complete _ id (In-product_ids request db.books id m))));
      }

  -- If a match approves its invoice without a review, the documents belong together, the invoice is
  -- left as matched, every line of the invoice names a product, and for every product of the order,
  -- of the receipt or of the invoice there are an item of the order, one of the receipt and one of the
  -- invoice that agree within the tolerances: the quantity billed with what was accepted, the price
  -- with that of the order, and the line's total with what was accepted at the order's price; provided
  -- that Python goes through all elements of a set.
  pub match_three_way-IsMatched :
      (r : RunThreeWayMatchResult × MatchDb)
      → ((ids : List ℕ) (id : ℕ) → In id ids → In id (iteration ids))
      → match_three_way text_of_id iteration request new_id db ≡ ok r
      → r.0.outcome.verdict ≡ auto_approve
      → ((order : PurchaseOrder) × (receipt : GoodsReceipt) × (invoice : SupplierInvoice)
          × BelongTogether request db.books order receipt invoice)
        × IsMatched r.1
  match_three_way-IsMatched r complete h approved = elim match_three_way_cases [
    | inr (e, raised, _) ↦ let clash : err e ≡ ok r = sym raised ∙ h in cc
    | inl (order, receipt, invoice, together, posted) ↦
        let same : recorded request new_id (outcome_of order invoice) db ≡ r =
          ok-inj (sym posted ∙ h) in
        let verdict = ap (λ (x : RunThreeWayMatchResult × MatchDb). x.0.outcome.verdict) same in
        (
          (order, receipt, invoice, together),
          subst (λ (x : RunThreeWayMatchResult × MatchDb). IsMatched x.1) same
              (approvable-IsMatched order receipt invoice complete together (verdict ∙ approved)),
        )
  ]
