-- ===== src/Pricing/Groups.antt =====
-- The HSN-wise summary against the lines that it sums up.
use text.Mathlib.Text.{◌==◌ as str_eq}
use text.Mathlib.TextEquality.{eq_iff}
use vyaparaflowai.Prelude.{
  ℕ, ◌+◌, ◌≡◌, refl, ap, inl, inr, Bool, true, false, ◌&&◌, List, [], ◌∷◌, String, arith, ◌==◌,
  if◌then◌else◌, total, All, Pairwise, Bool-cases,
}
use vyaparaflowai.Pricing.Lines.{PricingLineResult}
use vyaparaflowai.Pricing.Summary.{
  HsnSummaryLine, is_group, new_group, add_to_group, add_line, add_lines, build_hsn_summary,
}

-- The key of a row of the summary.
abbrev pub has_group_key : String → ℕ → HsnSummaryLine → Bool
has_group_key hsn_code gst_rate group = str_eq group.hsn_code hsn_code && group.gst_rate == gst_rate

-- Rows with different keys.
abbrev pub DiffersGroup : HsnSummaryLine → HsnSummaryLine → Type 0
DiffersGroup a b = has_group_key a.hsn_code a.gst_rate b ≡ false

-- A column that sums up a column of the lines.
pub record SumsUp (column : HsnSummaryLine → ℕ) (measure : PricingLineResult → ℕ) : Type 0 where
  pub opened : (line : PricingLineResult) → column (new_group line) ≡ 0
  pub grown :
      (line : PricingLineResult) (group : HsnSummaryLine)
      → column (add_to_group line group) ≡ column group + measure line

same_text : (a b c : String) → str_eq a b ≡ true → str_eq a c ≡ str_eq b c
same_text a b c h = ap (λ (t : String). str_eq t c) ((eq_iff a b).0 h)

module _ (column : HsnSummaryLine → ℕ) (measure : PricingLineResult → ℕ) (s : SumsUp column measure)
    (hsn_code : String) (gst_rate : ℕ) where
  abbrev pub in_groups : List HsnSummaryLine → ℕ
  in_groups groups =
      total (λ (g : HsnSummaryLine). if has_group_key hsn_code gst_rate g then column g else 0)
        groups

  abbrev pub in_lines : List PricingLineResult → ℕ
  in_lines lines =
      total (λ (l : PricingLineResult). if is_group hsn_code gst_rate l then measure l else 0) lines

  in_groups-add_line :
      (line : PricingLineResult) (groups : List HsnSummaryLine)
      → in_groups (add_line line groups)
        ≡ in_groups groups + (if is_group hsn_code gst_rate line then measure line else 0)
  unfolding add_line add_to_group
  in_groups-add_line line [] = ground (arith, s.opened line, s.grown line (new_group line))
  in_groups-add_line line (group ∷ groups) =
      let rest = in_groups-add_line line groups in
      let grown = s.grown line group in
      elim (Bool-cases (is_group group.hsn_code group.gst_rate line)) [
        | inr e ↦ ground (arith, e, rest)
        | inl e ↦
            let text : str_eq line.hsn_code group.hsn_code ≡ true = ground (arith, e) in
            let same = same_text line.hsn_code group.hsn_code hsn_code text in
            let rate : line.gst_rate ≡ group.gst_rate = ground (arith, e) in
            ground (arith, e, same, rate, grown)
      ]

  pub in_groups-add_lines :
      (lines : List PricingLineResult) (groups : List HsnSummaryLine)
      → in_groups (add_lines groups lines) ≡ in_groups groups + in_lines lines
  unfolding add_lines
  in_groups-add_lines [] groups = omega arith
  in_groups-add_lines (line ∷ lines) groups =
      omega
        (arith, in_groups-add_lines lines (add_line line groups), in_groups-add_line line groups)

-- A new row, or one that takes a line in, keeps the keys apart.
add_line-All :
    (a : HsnSummaryLine) (line : PricingLineResult) (groups : List HsnSummaryLine)
    → is_group a.hsn_code a.gst_rate line ≡ false
    → All (DiffersGroup a) groups
    → All (DiffersGroup a) (add_line line groups)
unfolding add_line add_to_group
add_line-All a line [] apart h = (apart, tt)
add_line-All a line (group ∷ groups) apart h =
    elim (Bool-cases (is_group group.hsn_code group.gst_rate line)) [
      | inl e ↦ rw (add_line, e) (h.0, h.1)
      | inr e ↦ rw (add_line, e) (h.0, add_line-All a line groups apart h.1)
    ]

add_line-Pairwise :
    (line : PricingLineResult) (groups : List HsnSummaryLine)
    → Pairwise DiffersGroup groups
    → Pairwise DiffersGroup (add_line line groups)
unfolding add_line add_to_group
add_line-Pairwise line [] h = (tt, tt)
add_line-Pairwise line (group ∷ groups) h =
    elim (Bool-cases (is_group group.hsn_code group.gst_rate line)) [
      | inl e ↦ rw (add_line, e) (h.0, h.1)
      | inr e ↦
          rw (add_line, e) (add_line-All group line groups e h.0, add_line-Pairwise line groups h.1)
    ]

add_lines-Pairwise :
    (lines : List PricingLineResult) (groups : List HsnSummaryLine)
    → Pairwise DiffersGroup groups
    → Pairwise DiffersGroup (add_lines groups lines)
unfolding add_lines
add_lines-Pairwise [] groups h = h
add_lines-Pairwise (line ∷ lines) groups h =
    add_lines-Pairwise lines (add_line line groups) (add_line-Pairwise line groups h)

-- The columns of the summary, each with the column of the lines that it sums up.
abbrev pub columns : List ((HsnSummaryLine → ℕ) × (PricingLineResult → ℕ))
columns =
    ((λ g. g.total_quantity), (λ l. l.quantity))
    ∷ ((λ g. g.taxable_value), (λ l. l.taxable_value))
    ∷ ((λ g. g.cgst_amount), (λ l. l.cgst_amount))
    ∷ ((λ g. g.sgst_amount), (λ l. l.sgst_amount))
    ∷ ((λ g. g.igst_amount), (λ l. l.igst_amount))
    ∷ ((λ g. g.cess_amount), (λ l. l.cess_amount))
    ∷ ((λ g. g.total_amount), (λ l. l.line_total))
    ∷ []

columns-SumsUp : All (λ c. SumsUp c.0 c.1) columns
unfolding add_to_group
columns-SumsUp = (
  record { opened = λ l. refl; grown = λ l g. refl },
  (
    record { opened = λ l. refl; grown = λ l g. refl },
    (
      record { opened = λ l. refl; grown = λ l g. refl },
      (
        record { opened = λ l. refl; grown = λ l g. refl },
        (
          record { opened = λ l. refl; grown = λ l g. refl },
          (
            record { opened = λ l. refl; grown = λ l g. refl },
            (record { opened = λ l. refl; grown = λ l g. refl }, tt),
          ),
        ),
      ),
    ),
  ),
)

All-map_weaken {κ₁ κ₂} :
    {A : Type 0} (P : A → Type κ₁) (Q : A → Type κ₂) (xs : List A)
    → ((a : A) → P a → Q a)
    → All P xs
    → All Q xs
All-map_weaken P Q [] f h = tt
All-map_weaken P Q (x ∷ xs) f h = (f x h.0, All-map_weaken P Q xs f h.1)

-- The sum of a column over the rows of one key is that of the lines of the key.
abbrev pub IsSummed :
    List HsnSummaryLine
    → List PricingLineResult
    → (HsnSummaryLine → ℕ) × (PricingLineResult → ℕ)
    → Type 0
IsSummed groups lines c =
    (hsn_code : String) (gst_rate : ℕ)
    → total (λ (g : HsnSummaryLine). if has_group_key hsn_code gst_rate g then c.0 g else 0) groups
      ≡ total (λ (l : PricingLineResult). if is_group hsn_code gst_rate l then c.1 l else 0) lines

-- The summary has one row for each HSN code and rate, and each column of it has for every code and
-- rate the sum of its column over the lines of that code and rate.
pub build_hsn_summary-IsSummed :
    (lines : List PricingLineResult)
    → Pairwise DiffersGroup (build_hsn_summary lines)
      × All (IsSummed (build_hsn_summary lines) lines) columns
unfolding build_hsn_summary
build_hsn_summary-IsSummed lines = (
  add_lines-Pairwise lines [] tt,
  All-map_weaken (λ c. SumsUp c.0 c.1) (IsSummed (add_lines [] lines) lines) columns
      (λ c s hsn_code gst_rate.
        omega (arith, in_groups-add_lines c.0 c.1 s hsn_code gst_rate lines []))
      columns-SumsUp,
)

module _ (column : HsnSummaryLine → ℕ) (measure : PricingLineResult → ℕ)
    (s : SumsUp column measure) where
  total-add_line :
      (line : PricingLineResult) (groups : List HsnSummaryLine)
      → total column (add_line line groups) ≡ total column groups + measure line
  unfolding add_line
  total-add_line line [] = omega (arith, s.opened line, s.grown line (new_group line))
  total-add_line line (group ∷ groups) =
      ground (arith, s.grown line group, total-add_line line groups)

  total-add_lines :
      (lines : List PricingLineResult) (groups : List HsnSummaryLine)
      → total column (add_lines groups lines) ≡ total column groups + total measure lines
  unfolding add_lines
  total-add_lines [] groups = omega arith
  total-add_lines (line ∷ lines) groups =
      omega (arith, total-add_lines lines (add_line line groups), total-add_line line groups)

-- Over all rows a column of the summary adds up to that of the lines.
pub total-build_hsn_summary :
    (lines : List PricingLineResult)
    → All (λ c. total c.0 (build_hsn_summary lines) ≡ total c.1 lines) columns
unfolding build_hsn_summary
total-build_hsn_summary lines =
    All-map_weaken (λ c. SumsUp c.0 c.1) (λ c. total c.0 (add_lines [] lines) ≡ total c.1 lines)
      columns (λ c s. omega (arith, total-add_lines c.0 c.1 s lines [])) columns-SumsUp
