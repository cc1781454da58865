-- ===== src/Pricing/Balance.antt =====
-- What the amounts of a priced order add up to, and how they are rounded.
use text.Mathlib.Text.{◌==◌ as str_eq}
use vyaparaflowai.Prelude.{
  ℕ, suc, ◌+◌, ◌*◌, ◌%◌, ◌≤◌, ◌≡◌, refl, sym, ap, ◌∙◌, Bool, true, false, List, [], ◌∷◌, map, arith,
  ltb, is_empty, if◌then◌else◌, total, All, length,
}
use vyaparaflowai.Prelude.Int.{ℤ, pos, ◌+ℤ◌, ◌-ℤ◌, ◌≤ℤ◌, int_laws}
use vyaparaflowai.Prelude.Sums.{sum_of}
use vyaparaflowai.Errors.{ok}
use vyaparaflowai.Pricing.Lines.{
  half_up, PricingLineResult, RawLine, raw_line, taxable_of, half_tax, whole_tax, priced_line,
}
use vyaparaflowai.Pricing.Summary.{HsnSummaryLine}
use vyaparaflowai.Pricing.Orders.{
  TaxType, PricingResult, PricingRequest, header_shares, priced_lines, totals, tax_type_of,
  order_lines, price_order,
}
use vyaparaflowai.Pricing.Groups.{total-build_hsn_summary}

-- The shares of the header discount add up to it, however the pro-rata division rounds.
pub header_shares-sum :
    (pro_rata : ℕ → ℕ → ℕ → ℕ) (discount subtotal : ℕ) (allocated : ℤ) (raw : RawLine)
    (rest : List RawLine)
    → sum_of (λ (s : ℤ). s) (header_shares pro_rata discount subtotal allocated (raw ∷ rest))
      ≡ pos discount -ℤ allocated
unfolding header_shares
header_shares-sum pro_rata discount subtotal allocated raw [] = omega int_laws
header_shares-sum pro_rata discount subtotal allocated raw (next ∷ rest) =
    let share = pos (if ltb 0 subtotal then pro_rata discount raw.net subtotal else 0) in
    let later = header_shares-sum pro_rata discount subtotal (allocated +ℤ share) next rest in
    rw later (omega int_laws)

-- The columns of a line add up.
pub record IsAddedUp (line : PricingLineResult) : Type 0 where
  pub taxed :
      line.tax_amount ≡ line.cgst_amount + line.sgst_amount + line.igst_amount + line.cess_amount
  pub totalled : line.line_total ≡ line.taxable_value + line.tax_amount

priced_lines-All :
    (is_intra_state : Bool) (lines : List RawLine) (shares : List ℤ)
    → All IsAddedUp (priced_lines is_intra_state lines shares)
unfolding priced_lines priced_line
priced_lines-All is_intra_state [] shares = tt
priced_lines-All is_intra_state (raw ∷ lines) [] = tt
priced_lines-All is_intra_state (raw ∷ lines) (share ∷ shares) =
    (record { taxed = refl; totalled = refl }, priced_lines-All is_intra_state lines shares)

total-line_total :
    (lines : List PricingLineResult)
    → All IsAddedUp lines
    → (total (λ (l : PricingLineResult). l.line_total) lines
        ≡ total (λ (l : PricingLineResult). l.taxable_value) lines
          + total (λ (l : PricingLineResult). l.tax_amount) lines)
      × (total (λ (l : PricingLineResult). l.tax_amount) lines
          ≡ total (λ (l : PricingLineResult). l.cgst_amount) lines
            + total (λ (l : PricingLineResult). l.sgst_amount) lines
            + total (λ (l : PricingLineResult). l.igst_amount) lines
            + total (λ (l : PricingLineResult). l.cess_amount) lines)
total-line_total [] h = (omega arith, omega arith)
total-line_total (line ∷ lines) h =
    let (a, b) = total-line_total lines h.1 in
    (omega (arith, a, b, h.0.taxed, h.0.totalled), omega (arith, a, b, h.0.taxed, h.0.totalled))

-- One result for each line: the shares are as many as the lines.
length-priced_lines :
    (is_intra_state : Bool) (pro_rata : ℕ → ℕ → ℕ → ℕ) (discount subtotal : ℕ) (allocated : ℤ)
    (lines : List RawLine)
    → length (
        priced_lines is_intra_state lines
          (header_shares pro_rata discount subtotal allocated lines))
      ≡ length lines
unfolding priced_lines header_shares
length-priced_lines is_intra_state pro_rata discount subtotal allocated [] = refl
length-priced_lines is_intra_state pro_rata discount subtotal allocated (raw ∷ []) = refl
length-priced_lines is_intra_state pro_rata discount subtotal allocated (raw ∷ (next ∷ rest)) =
    ap suc (
      length-priced_lines is_intra_state pro_rata discount subtotal
        (allocated +ℤ pos (if ltb 0 subtotal then pro_rata discount raw.net subtotal else 0))
        (next ∷ rest))

length-map {ℓ κ} :
    {A : Type ℓ} {B : Type κ} (f : A → B) (xs : List A) → length (map f xs) ≡ length xs
length-map f [] = refl
length-map f (x ∷ xs) = ap suc (length-map f xs)

-- A result has one line for each line of the order, its subtotal and tax are the sums of its lines and of
-- its summary, and the grand total is that sum rounded to whole rupees.
pub record IsBalanced (request : PricingRequest) (r : PricingResult) : Type 0 where
  pub complete : length r.lines ≡ length request.lines
  pub lines_add_up :
      total (λ (l : PricingLineResult). l.line_total) r.lines ≡ r.subtotal + r.tax_total
  pub taxes_add_up : r.tax_total ≡ total (λ (l : PricingLineResult). l.tax_amount) r.lines
  pub summary_taxable : total (λ (g : HsnSummaryLine). g.taxable_value) r.hsn_summary ≡ r.subtotal
  pub summary_total :
      total (λ (g : HsnSummaryLine). g.total_amount) r.hsn_summary ≡ r.subtotal + r.tax_total
  pub rounded : pos r.grand_total ≡ pos (r.subtotal + r.tax_total) +ℤ r.round_off
  pub whole_rupees : r.grand_total % 100 ≡ 0
  pub round_up : r.round_off ≤ℤ pos 50
  pub round_down : pos 0 -ℤ pos 50 ≤ℤ r.round_off

round_off_bounds :
    (n : ℕ)
    → (pos (100 * half_up n 100) -ℤ pos n ≤ℤ pos 50)
      × (pos 0 -ℤ pos 50 ≤ℤ pos (100 * half_up n 100) -ℤ pos n)
unfolding half_up
round_off_bounds n = (omega int_laws, omega int_laws)

totals-IsBalanced :
    (pro_rata : ℕ → ℕ → ℕ → ℕ) (request : PricingRequest) (tax_type : TaxType)
    → IsBalanced request (totals tax_type (order_lines pro_rata request))
unfolding totals order_lines
totals-IsBalanced pro_rata request tax_type =
    let lines = order_lines pro_rata request in
    let (with_tax, taxes) =
      total-line_total lines (priced_lines-All _ (map raw_line request.lines) _) in
    let (_, (taxable, (_, (_, (_, (_, (amount, _))))))) = total-build_hsn_summary lines in
    let (up, down) = round_off_bounds _ in
    record {
      complete =
          length-priced_lines _ pro_rata _ _ (pos 0) (map raw_line request.lines)
          ∙ length-map raw_line request.lines;
      lines_add_up = omega (arith, with_tax, taxes);
      taxes_add_up = sym taxes;
      summary_taxable = taxable;
      summary_total = omega (arith, amount, with_tax, taxes);
      rounded = omega int_laws;
      whole_rupees = omega arith;
      round_up = up;
      round_down = down;
    }

-- An order with a line is priced, and its result is balanced, however the pro-rata division rounds.
pub price_order-IsBalanced :
    (pro_rata : ℕ → ℕ → ℕ → ℕ) (request : PricingRequest)
    → is_empty request.lines ≡ false
    → (r : PricingResult) × (price_order pro_rata request ≡ ok r) × IsBalanced request r
unfolding price_order
price_order-IsBalanced pro_rata request some_line =
    let tax_type =
      tax_type_of (str_eq request.origin_state_code request.place_of_supply_state_code) in
    (
      totals tax_type (order_lines pro_rata request),
      rw some_line refl,
      totals-IsBalanced pro_rata request tax_type,
    )

half_whole :
    (n : ℕ)
    → (2 * half_up n 2_000_000_000_000_000 ≤ half_up n 1_000_000_000_000_000 + 1)
      × (half_up n 1_000_000_000_000_000 ≤ 2 * half_up n 2_000_000_000_000_000 + 1)
unfolding half_up
half_whole n = (omega arith, omega arith)

-- The tax of a line within the state, two halves that are rounded each by itself, and that of the
-- same line to another state differ by a paisa at most.
pub priced_line-tax :
    (raw : RawLine) (share : ℤ)
    → ((priced_line true raw share).tax_amount ≤ (priced_line false raw share).tax_amount + 1)
      × ((priced_line false raw share).tax_amount ≤ (priced_line true raw share).tax_amount + 1)
unfolding priced_line half_tax whole_tax
priced_line-tax raw share =
    let (a, b) = half_whole (taxable_of raw share * raw.line.gst_rate) in
    (omega (arith, a), omega (arith, b))
