-- ===== src/Matching/Clean.antt =====
-- Lines on which the three documents agree.
use vyaparaflowai.Prelude.{
  ℕ, ◌+◌, ◌-◌, ◌*◌, ◌≤◌, ◌<◌, ◌≡◌, ◌↔◌, refl, ◌⊎◌, inl, inr, true, false, Option, none, some, [],
  arith, ◌==◌, leb, Bool-cases, Option-cases, leb→le, le→leb,
}
use vyaparaflowai.Prelude.Int.{pos, ◌-ℤ◌, abs}
use vyaparaflowai.Matching.Lines.{
  MatchTolerances, MatchLineInput, is_present, or_zero, pct_variance, is_within, is_on_po,
  qty_within, price_within, amount_difference, amount_within, line_reasons, structurally_ok,
  evaluate_line,
}

-- A value that deviates from what is expected by at most so many hundredths of a percent; from
-- nothing, any other value deviates by a hundred percent.
abbrev pub IsNear : (tolerance actual expected : ℕ) → Type 0
IsNear tolerance actual expected =
    ((0 < expected) × (10000 * ((actual - expected) + (expected - actual)) ≤ tolerance * expected))
    ⊎ ((expected ≡ 0) × ((actual ≡ 0) ⊎ (10000 ≤ tolerance)))

-- The line is in all three documents; the quantity billed is near what was accepted, the price near
-- that of the order if one is billed, and the amount near what was accepted at the order's price.
pub record IsClean (tolerances : MatchTolerances) (line : MatchLineInput) : Type 0 where
  pub ordered : ℕ
  pub unit_price : ℕ
  pub accepted : ℕ
  pub quantity : ℕ
  pub on_order : line.po_quantity ≡ some ordered
  pub priced : line.po_unit_price ≡ some unit_price
  pub received : line.grn_accepted_quantity ≡ some accepted
  pub billed : line.invoice_quantity ≡ some quantity
  pub quantity_near : IsNear tolerances.qty_variance_pct quantity accepted
  pub price_near :
      (price : ℕ)
      → line.invoice_unit_price ≡ some price
      → IsNear tolerances.price_variance_pct price unit_price
  pub amount_high :
      1000 * or_zero line.invoice_line_total
      ≤ accepted * unit_price + tolerances.amount_variance_abs
  pub amount_low :
      accepted * unit_price
      ≤ 1000 * or_zero line.invoice_line_total + tolerances.amount_variance_abs

is_within-IsNear :
    (tolerance actual expected : ℕ)
    → is_within tolerance (pct_variance actual expected) ≡ true
    → IsNear tolerance actual expected
unfolding pct_variance
is_within-IsNear tolerance actual expected h = elim (Bool-cases (expected == 0)) [
  | inl e ↦ elim (Bool-cases (actual == 0)) [
    | inl z ↦ inr (ground (arith, e), inl (ground (arith, z)))
    | inr z ↦
        let full : leb 10000 (tolerance * 1) ≡ true = rw (pct_variance, e, z) at h in
        inr (ground (arith, e), inr (omega (arith, leb→le _ _ full)))
  ]
  | inr e ↦
      let near : leb (10000 * ((actual - expected) + (expected - actual))) (tolerance * expected)
          ≡ true =
        rw (pct_variance, e) at h in
      inl (ground (arith, e), leb→le _ _ near)
]

IsNear-is_within :
    (tolerance actual expected : ℕ)
    → IsNear tolerance actual expected
    → is_within tolerance (pct_variance actual expected) ≡ true
unfolding pct_variance
IsNear-is_within tolerance actual expected (inl (positive, near)) =
    let nonzero : (expected == 0) ≡ false = ground (arith, positive) in
    rw (pct_variance, nonzero) (le→leb _ _ near)
IsNear-is_within tolerance actual expected (inr (e, inl z)) = ground (arith, e, z)
IsNear-is_within tolerance actual expected (inr (e, inr full)) = ground (arith, e, full)

abs-le : (x y t : ℕ) → leb (abs (pos x -ℤ pos y)) t ≡ true → (x ≤ y + t) × (y ≤ x + t)
unfolding ◌-ℤ◌
abs-le x y t h = (ground (arith, h), ground (arith, h))

le-abs : (x y t : ℕ) → x ≤ y + t → y ≤ x + t → leb (abs (pos x -ℤ pos y)) t ≡ true
unfolding ◌-ℤ◌
le-abs x y t h k = ground (arith, h, k)

present-some : (o : Option ℕ) → is_present o ≡ true → (n : ℕ) × (o ≡ some n)
present-some none h = cc
present-some (some n) h = (n, refl)

module _ (tolerances : MatchTolerances) (line : MatchLineInput) where
  -- The four tests of a line within tolerance.
  pub record IsWithin : Type 0 where
    pub qty : qty_within tolerances line ≡ true
    pub price : price_within tolerances line ≡ true
    pub amount : amount_within tolerances line ≡ true
    pub structure : structurally_ok line ≡ true

  pub evaluate_line-IsWithin : (evaluate_line tolerances line).within_tolerance ≡ true → IsWithin
  unfolding evaluate_line
  evaluate_line-IsWithin h = record {
    qty = ground (arith, h);
    price = ground (arith, h);
    amount = ground (arith, h);
    structure = ground (arith, h);
  }

  IsWithin-IsClean : IsWithin → IsClean tolerances line
  unfolding qty_within price_within amount_within
  IsWithin-IsClean w =
      let (ordered, on_order) = present-some line.po_quantity (ground (arith, w.structure)) in
      let (unit_price, priced) = present-some line.po_unit_price (ground (arith, w.structure)) in
      let (accepted, received) =
        present-some line.grn_accepted_quantity (ground (arith, w.structure)) in
      let (quantity, billed) = present-some line.invoice_quantity (ground (arith, w.structure)) in
      let near : is_within tolerances.qty_variance_pct (pct_variance quantity accepted) ≡ true =
        rw (qty_within, billed, received) at w.qty in
      let amount : leb
            (abs (pos (1000 * or_zero line.invoice_line_total) -ℤ pos (accepted * unit_price)))
            tolerances.amount_variance_abs
          ≡ true =
        rw (amount_within, amount_difference, billed, received, priced) at w.amount in
      let (high, low) = abs-le _ _ _ amount in
      record {
        ordered = ordered;
        unit_price = unit_price;
        accepted = accepted;
        quantity = quantity;
        on_order = on_order;
        priced = priced;
        received = received;
        billed = billed;
        quantity_near = is_within-IsNear _ quantity accepted near;
        price_near = λ price e.
            let at_price : is_within tolerances.price_variance_pct (pct_variance price unit_price)
                ≡ true =
              rw (price_within, billed, e, priced) at w.price in
            is_within-IsNear tolerances.price_variance_pct price unit_price at_price;
        amount_high = high;
        amount_low = low;
      }

  IsClean-IsWithin : IsClean tolerances line → IsWithin
  unfolding qty_within price_within amount_within
  IsClean-IsWithin c = record {
    qty = rw (c.billed, c.received) (IsNear-is_within _ c.quantity c.accepted c.quantity_near);
    price = elim (Option-cases line.invoice_unit_price) [
      | inl e ↦ rw (c.billed, e) refl
      | inr (price, e) ↦
          rw (c.billed, e, c.priced)
            (IsNear-is_within tolerances.price_variance_pct price c.unit_price
              (c.price_near price e))
    ];
    amount = rw (c.billed, c.received, c.priced) (le-abs _ _ _ c.amount_high c.amount_low);
    structure = rw (c.on_order, c.priced, c.received, c.billed) refl;
  }

  -- A line is within tolerance exactly if it is clean.
  pub evaluate_line-IsClean :
      ((evaluate_line tolerances line).within_tolerance ≡ true) ↔ IsClean tolerances line
  unfolding evaluate_line
  evaluate_line-IsClean = (
    (λ h. IsWithin-IsClean (evaluate_line-IsWithin h)),
    (λ c. let w = IsClean-IsWithin c in rw (w.qty, w.price, w.amount, w.structure) refl),
  )

  pub line_reasons-none :
      (evaluate_line tolerances line).within_tolerance ≡ true
      → (evaluate_line tolerances line).reason_codes ≡ []
  unfolding evaluate_line line_reasons
  line_reasons-none h =
      let w = evaluate_line-IsWithin h in
      let on_po : is_on_po line ≡ true = ground (arith, w.structure) in
      let received : is_present line.grn_accepted_quantity ≡ true = ground (arith, w.structure) in
      let billed : is_present line.invoice_quantity ≡ true = ground (arith, w.structure) in
      rw (on_po, received, billed, w.qty, w.price, w.amount) refl
