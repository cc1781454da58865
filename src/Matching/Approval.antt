-- ===== src/Matching/Approval.antt =====
-- Which matches are approved without a review.
use vyaparaflowai.Prelude.{
  ◌+◌, ◌<◌, ◌≡◌, ◌↔◌, refl, Bool, true, false, not, List, [], ◌∷◌, map, arith, any, All,
}
use vyaparaflowai.Matching.Lines.{
  Reason, qty_variance, price_variance, price_spike, amount_variance, starts, mentions,
  MatchTolerances, MatchLineInput, MatchLineResult, evaluate_line,
}
use vyaparaflowai.Matching.Verdict.{
  auto_approve, MatchInput, is_round_number_amount, is_weekend, any_reason, is_structural,
  structural_issue, points, risk_score, verdict_of, evaluate_three_way_match,
}
use vyaparaflowai.Matching.Clean.{IsClean, evaluate_line-IsClean, line_reasons-none}

abbrev pub is_out : MatchLineResult → Bool
is_out line = not line.within_tolerance

-- What is approved without a review: every line clean, no line that names no product, no suspected
-- duplicate, and not all three of a new supplier, a round amount and a weekend.
pub record IsApprovable (input : MatchInput) : Type 0 where
  pub clean : All (IsClean input.tolerances) input.lines
  pub matched : input.unmatched_invoice_line_count ≡ 0
  pub single : input.duplicate_invoice_found ≡ false
  pub unsuspicious : ¬ (
      (input.is_new_supplier ≡ true)
      × (is_round_number_amount input.invoice_total ≡ true)
      × (is_weekend input.invoice_date ≡ true))

module _ (tolerances : MatchTolerances) where
  none_out-All :
      (lines : List MatchLineInput)
      → any is_out (map (evaluate_line tolerances) lines) ≡ false
      → All (IsClean tolerances) lines
  none_out-All [] h = tt
  none_out-All (line ∷ lines) h =
      let within : (evaluate_line tolerances line).within_tolerance ≡ true = ground (arith, h) in
      ((evaluate_line-IsClean tolerances line).0 within, none_out-All lines (ground (arith, h)))

  All-none_out :
      (lines : List MatchLineInput)
      → All (IsClean tolerances) lines
      → any is_out (map (evaluate_line tolerances) lines) ≡ false
  All-none_out [] h = refl
  All-none_out (line ∷ lines) h =
      let within = (evaluate_line-IsClean tolerances line).1 h.0 in
      rw (any, is_out, within) (All-none_out lines h.1)

  -- Clean lines have no reasons.
  All-any_reason :
      (test : Reason → Bool) (lines : List MatchLineInput)
      → All (IsClean tolerances) lines
      → any_reason test (map (evaluate_line tolerances) lines) ≡ false
  All-any_reason test [] h = refl
  All-any_reason test (line ∷ lines) h =
      let within = (evaluate_line-IsClean tolerances line).1 h.0 in
      rw (line_reasons-none tolerances line within) (All-any_reason test lines h.1)

module _ (input : MatchInput) where
  abbrev pub results : List MatchLineResult
  results = map (evaluate_line input.tolerances) input.lines

  clean-risk_score :
      All (IsClean input.tolerances) input.lines
      → input.unmatched_invoice_line_count ≡ 0
      → input.duplicate_invoice_found ≡ false
      → (structural_issue input results ≡ false)
        × (risk_score input results
            ≡ points input.is_new_supplier 10
              + points (is_round_number_amount input.invoice_total) 5
              + points (is_weekend input.invoice_date) 5)
  unfolding structural_issue risk_score
  clean-risk_score clean matched single =
      let none_of =
        λ (test : Reason → Bool). All-any_reason input.tolerances test input.lines clean in
      (
        rw (matched, none_of is_structural) refl,
        rw
            (
              structural_issue,
              matched,
              single,
              none_of is_structural,
              none_of (mentions qty_variance),
              none_of (starts price_variance),
              none_of (mentions price_spike),
              none_of (mentions amount_variance),
            )
            (ground arith),
      )

  verdict_of-passed :
      (lines : List MatchLineResult)
      → verdict_of input lines ≡ auto_approve
      → (structural_issue input lines ≡ false)
        × (input.duplicate_invoice_found ≡ false)
        × (risk_score input lines < 20)
        × (any is_out lines ≡ false)
  unfolding verdict_of
  verdict_of-passed lines h =
      (ground (arith, h), ground (arith, h), ground (arith, h), ground (arith, h))

  passed-verdict_of :
      (lines : List MatchLineResult)
      → structural_issue input lines ≡ false
      → input.duplicate_invoice_found ≡ false
      → risk_score input lines < 20
      → any is_out lines ≡ false
      → verdict_of input lines ≡ auto_approve
  unfolding verdict_of
  passed-verdict_of lines structure single low within =
      ground (arith, structure, single, low, within)

  structural_issue-matched :
      (lines : List MatchLineResult)
      → structural_issue input lines ≡ false
      → input.unmatched_invoice_line_count ≡ 0
  unfolding structural_issue
  structural_issue-matched lines h = ground (arith, h)

  -- A match is approved without a review exactly if every line is clean, every invoice line names a
  -- product, no duplicate is suspected, and the supplier is not new or the amount not round or the
  -- day not of a weekend.
  pub evaluate_three_way_match-auto_approve :
      ((evaluate_three_way_match input).verdict ≡ auto_approve) ↔ IsApprovable input
  unfolding evaluate_three_way_match
  evaluate_three_way_match-auto_approve = (
    λ h.
        let (structure, single, low, within) = verdict_of-passed results h in
        let clean = none_out-All input.tolerances input.lines within in
        let matched = structural_issue-matched results structure in
        let score = (clean-risk_score clean matched single).1 in
        record {
          clean = clean;
          matched = matched;
          single = single;
          unsuspicious =
              λ all_three. ground (arith, low, score, all_three.0, all_three.1, all_three.2);
        },
    λ a.
        let (structure, score) = clean-risk_score a.clean a.matched a.single in
        let low : risk_score input results < 20 = ground (arith, score, a.unsuspicious) in
        passed-verdict_of results structure a.single low
          (All-none_out input.tolerances input.lines a.clean),
  )
