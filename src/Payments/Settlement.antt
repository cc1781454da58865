-- ===== src/Payments/Settlement.antt =====
-- What the loop of `record_payment` does to the invoices.
use mathlib.Core.Path.{subst}
use vyaparaflowai.Prelude.{
  ℕ, ◌≡◌, refl, sym, ap, ◌∙◌, inl, inr, true, false, some, List, [], ◌∷◌, arith, ◌==◌, find, All,
  All-In, In, Pairwise, Bool-cases,
}
use vyaparaflowai.Prelude.Int.{ℤ, pos, ◌+ℤ◌, ◌≤ℤ◌, int_laws}
use vyaparaflowai.Prelude.Sums.{sum_of}
use vyaparaflowai.Payments.Allocation.{AllocationLine}
use vyaparaflowai.Payments.Recording.{PartyType, Invoice, settle_row}

-- The primary key.
abbrev pub DiffersRow : Invoice → Invoice → Type 0
DiffersRow a b = (a.id == b.id) ≡ false

abbrev pub IsSound : Invoice → Type 0
IsSound row = (pos 0 ≤ℤ row.amount_paid) × (row.amount_paid ≤ℤ row.total)

-- A line that one row can take.
pub record CanTake (rows : List Invoice) (line : AllocationLine) : Type 0 where
  pub row : Invoice
  pub here : In row rows
  pub same_id : row.id ≡ line.invoice_id
  pub nonneg : pos 0 ≤ℤ line.amount
  pub within : row.amount_paid +ℤ line.amount ≤ℤ row.total

pub find_row :
    (rows : List Invoice) (row : Invoice)
    → Pairwise DiffersRow rows
    → In row rows
    → find (λ r. r.id == row.id) rows ≡ some row
find_row [] row d m = absurd m
find_row (x ∷ xs) row d (inl e) = ground (arith, ap (λ (r : Invoice). r.id) e)
find_row (x ∷ xs) row d (inr m) =
    ground (arith, All-In (DiffersRow x) xs row d.0 m, find_row xs row d.1 m)

others_differ :
    (row : Invoice) (id : ℕ) (rows : List Invoice)
    → row.id ≡ id
    → All (DiffersRow row) rows
    → All (λ other. (other.id == id) ≡ false) rows
others_differ row id [] e h = tt
others_differ row id (other ∷ rows) e h = (ground arith, others_differ row id rows e h.1)

paid_nonneg : (p a : ℤ) → pos 0 ≤ℤ p → pos 0 ≤ℤ a → pos 0 ≤ℤ p +ℤ a
paid_nonneg p a h k = omega int_laws

add_last : (a m s : ℤ) → (a +ℤ m) +ℤ s ≡ (a +ℤ s) +ℤ m
add_last a m s = omega int_laws

add_assoc : (a m s : ℤ) → a +ℤ (s +ℤ m) ≡ (a +ℤ s) +ℤ m
add_assoc a m s = omega int_laws

module _ (side : PartyType) (id : ℕ) (amount : ℤ) where
  settle_row_absent :
      (rows : List Invoice)
      → All (λ row. (row.id == id) ≡ false) rows
      → settle_row side id amount rows ≡ rows
  unfolding settle_row
  settle_row_absent [] h = refl
  settle_row_absent (x ∷ xs) h = ground (arith, settle_row_absent xs h.1)

  pub settle_row-paid :
      (rows : List Invoice) (row : Invoice)
      → Pairwise DiffersRow rows
      → In row rows
      → row.id ≡ id
      → sum_of (λ r. r.amount_paid) (settle_row side id amount rows)
        ≡ sum_of (λ r. r.amount_paid) rows +ℤ amount
  unfolding settle_row
  settle_row-paid [] row d m e = absurd m
  settle_row-paid (x ∷ xs) row d (inl f) e =
      let own : x.id ≡ id = ap (λ (r : Invoice). r.id) f ∙ e in
      ground (
        arith,
        own,
        settle_row_absent xs (others_differ x id xs own d.0),
        add_last x.amount_paid amount (sum_of (λ r. r.amount_paid) xs),
      )
  settle_row-paid (x ∷ xs) row d (inr m) e = ground (
    arith,
    All-In (DiffersRow x) xs row d.0 m,
    settle_row-paid xs row d.1 m e,
    add_assoc x.amount_paid amount (sum_of (λ r. r.amount_paid) xs),
  )

  pub settle_row-IsSound :
      (rows : List Invoice) (row : Invoice)
      → Pairwise DiffersRow rows
      → In row rows
      → row.id ≡ id
      → pos 0 ≤ℤ amount
      → row.amount_paid +ℤ amount ≤ℤ row.total
      → All IsSound rows
      → All IsSound (settle_row side id amount rows)
  unfolding settle_row
  settle_row-IsSound [] row d m e n w h = tt
  settle_row-IsSound (x ∷ xs) row d (inl f) e n w h =
      let own : (x.id == id) ≡ true = ground (arith, ap (λ (r : Invoice). r.id) f) in
      (
        rw own (
          paid_nonneg x.amount_paid amount h.0.0 n,
          subst (λ (r : Invoice). r.amount_paid +ℤ amount ≤ℤ r.total) (sym f) w,
        ),
        rw (settle_row_absent xs (others_differ x id xs (ground arith) d.0)) h.1,
      )
  settle_row-IsSound (x ∷ xs) row d (inr m) e n w h =
      let other : (x.id == id) ≡ false = ground (arith, All-In (DiffersRow x) xs row d.0 m) in
      (rw other h.0, settle_row-IsSound xs row d.1 m e n w h.1)

  -- The other rows stay as they are.
  pub settle_row_other :
      (rows : List Invoice) (row : Invoice)
      → In row rows
      → (row.id == id) ≡ false
      → In row (settle_row side id amount rows)
  unfolding settle_row
  settle_row_other [] row m h = absurd m
  settle_row_other (x ∷ xs) row (inl e) h =
      inl (rw (subst (λ (r : Invoice). (r.id == id) ≡ false) (sym e) h) e)
  settle_row_other (x ∷ xs) row (inr m) h = inr (settle_row_other xs row m h)

  settle_row-differs :
      (row : Invoice) (rows : List Invoice)
      → All (DiffersRow row) rows
      → All (DiffersRow row) (settle_row side id amount rows)
  unfolding settle_row
  settle_row-differs row [] h = tt
  settle_row-differs row (x ∷ xs) h = (ground arith, settle_row-differs row xs h.1)

  pub settle_row_unique :
      (rows : List Invoice)
      → Pairwise DiffersRow rows
      → Pairwise DiffersRow (settle_row side id amount rows)
  unfolding settle_row
  settle_row_unique [] d = tt
  settle_row_unique (x ∷ xs) d = (
    elim (Bool-cases (x.id == id)) [
      | inl e ↦ rw e (settle_row-differs x xs d.0)
      | inr e ↦ rw e (settle_row-differs x xs d.0)
    ],
    settle_row_unique xs d.1,
  )
