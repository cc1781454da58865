-- ===== src/Matching/Taxed.antt =====
-- A line that bills exactly what was accepted at the order's price, and the tax on it.
use vyaparaflowai.Prelude.{ℕ, ◌+◌, ◌*◌, ◌≤◌, ◌<◌, ◌≡◌, ◌≢◌, sym, ap, ◌∙◌, some, arith, In, All-In}
use vyaparaflowai.Matching.Lines.{MatchLineInput, or_zero}
use vyaparaflowai.Matching.Verdict.{auto_approve, MatchInput, evaluate_three_way_match}
use vyaparaflowai.Matching.Clean.{IsClean}
use vyaparaflowai.Matching.Approval.{evaluate_three_way_match-auto_approve}

-- When a line bills the accepted quantity at the order's price, and its total is that amount and a
-- tax that is more than the tolerance of the amount, the match is not approved without a review.
pub evaluate_three_way_match-taxed :
    (input : MatchInput) (line : MatchLineInput) (quantity price amount tax : ℕ)
    → In line input.lines
    → line.grn_accepted_quantity ≡ some quantity
    → line.invoice_quantity ≡ some quantity
    → line.po_unit_price ≡ some price
    → line.invoice_unit_price ≡ some price
    → line.invoice_line_total ≡ some amount
    → 1000 * amount ≡ quantity * price + tax
    → input.tolerances.amount_variance_abs < tax
    → (evaluate_three_way_match input).verdict ≢ auto_approve
evaluate_three_way_match-taxed input line quantity price amount tax m accepted billed ordered priced
      totalled sum over h =
    let a = (evaluate_three_way_match-auto_approve input).0 h in
    let c = All-In (IsClean input.tolerances) input.lines line a.clean m in
    let of_accepted : c.accepted ≡ quantity = ap or_zero (sym c.received ∙ accepted) in
    let of_price : c.unit_price ≡ price = ap or_zero (sym c.priced ∙ ordered) in
    let of_total : or_zero line.invoice_line_total ≡ amount = ap or_zero totalled in
    let high : 1000 * amount ≤ quantity * price + input.tolerances.amount_variance_abs =
      rw (of_accepted, of_price, of_total) at c.amount_high in
    omega (arith, high, sum, over)
