-- ===== src/Inventory/Orders.antt =====
-- A whole order (`_apply`): the effect of all its lines together, whatever their order, and the
-- ledger's account of the stock on hand.
use vyaparaflowai.Prelude.{
  ℕ, ◌≡◌, refl, sym, ap, ◌∙◌, ◌⊎◌, Bool, true, ◌&&◌, List, [], ◌∷◌, arith, ◌==◌, if◌then◌else◌, inl,
  inr, Bool-cases,
}
use mathlib.Core.Path.{subst}
use vyaparaflowai.Prelude.Int.{ℤ, pos, ◌+ℤ◌, int_laws}
use vyaparaflowai.Prelude.Sorting.{sorted}
use vyaparaflowai.Prelude.Sums.{sum_of, sum_of-sorted}
use vyaparaflowai.Errors.{ok, >>=-eq-ok}
use vyaparaflowai.Inventory.Table.{
  StockMovementType, receipt, issue, reserve, release, adjustment, InventoryItem, StockLedger,
  InventoryDb, check_item,
}
use vyaparaflowai.Inventory.Movements.{
  Line, stock, correction, line_product, line_warehouse, Reference, InventoryMutationResult,
  build_statement, apply_line, apply_lines, apply, sorts_before, moves_reserved,
}
use vyaparaflowai.Inventory.Levels.{row_at, IsStocked, IsValid}
use vyaparaflowai.Inventory.Contract.{
  change, IsSupported, moved, entry, IsMoved, check_of-IsStocked, IsStocked-of_check,
}
use vyaparaflowai.Inventory.Refinement.{apply_line-IsMoved, apply_line-refused}

abbrev pub is_at : ℕ → ℕ → Line → Bool
is_at product warehouse line = product == line_product line && warehouse == line_warehouse line

module _ (movement : StockMovementType) (from_reservation : Bool) (product warehouse : ℕ) where
  -- What the lines of an order change at one key.
  abbrev pub net_on_hand : List Line → ℤ
  net_on_hand lines =
      sum_of
        (λ line.
          if is_at product warehouse line then (change movement from_reservation line).0 else pos 0)
        lines

  abbrev pub net_reserved : List Line → ℤ
  net_reserved lines =
      sum_of
        (λ line.
          if is_at product warehouse line then (change movement from_reservation line).1 else pos 0)
        lines

-- The stock on hand by the ledger: receipts, issues and adjustments of the key.
abbrev pub ledger_on_hand : ℕ → ℕ → List StockLedger → ℤ
ledger_on_hand product warehouse rows =
    sum_of
      (λ row.
        if product == row.product_id && warehouse == row.warehouse_id
        then (if moves_reserved row.movement_type then pos 0 else row.qty_delta)
        else pos 0)
      rows

-- The sum of what happened to one key between two states of the database.
pub record HasMoved (db db' : InventoryDb) (on_hand reserved : ℕ → ℕ → ℤ) : Type 0 where
  pub valid : IsValid db'.items
  pub on_hand_moved :
      (p w : ℕ) → (row_at p w db'.items).on_hand ≡ (row_at p w db.items).on_hand +ℤ on_hand p w
  pub reserved_moved :
      (p w : ℕ) → (row_at p w db'.items).reserved ≡ (row_at p w db.items).reserved +ℤ reserved p w
  pub accounted :
      (p w : ℕ) → ledger_on_hand p w db'.ledger ≡ ledger_on_hand p w db.ledger +ℤ on_hand p w

apply_line-IsSupported :
    (movement : StockMovementType) (fr : Bool) (ref : Reference) (line : Line) (db : InventoryDb)
    {r : InventoryMutationResult × InventoryDb}
    → apply_line movement fr ref line db ≡ ok r
    → IsSupported movement line
unfolding apply_line build_statement
apply_line-IsSupported receipt fr ref (stock l) db e = tt
apply_line-IsSupported issue fr ref (stock l) db e = tt
apply_line-IsSupported reserve fr ref (stock l) db e = tt
apply_line-IsSupported release fr ref (stock l) db e = tt
apply_line-IsSupported adjustment fr ref (correction l) db e = tt
apply_line-IsSupported receipt fr ref (correction l) db e = cc
apply_line-IsSupported issue fr ref (correction l) db e = cc
apply_line-IsSupported reserve fr ref (correction l) db e = cc
apply_line-IsSupported release fr ref (correction l) db e = cc
apply_line-IsSupported adjustment fr ref (stock l) db e = cc
apply_line-IsSupported StockMovementType.return_in fr ref line db e = cc
apply_line-IsSupported StockMovementType.return_out fr ref line db e = cc

change_reserved :
    (movement : StockMovementType) (fr : Bool) (line : Line)
    → moves_reserved movement ≡ true
    → (change movement fr line).0 ≡ pos 0
unfolding change
change_reserved reserve fr (stock l) e = refl
change_reserved reserve fr (correction l) e = refl
change_reserved release fr (stock l) e = refl
change_reserved release fr (correction l) e = refl
change_reserved movement fr line e = cc

add_zero : (a : ℤ) → a +ℤ (pos 0 +ℤ pos 0) ≡ a
add_zero a = omega int_laws

trailing_zero : (a b : ℤ) → a +ℤ (b +ℤ pos 0) ≡ a +ℤ b
trailing_zero a b = omega int_laws

flip_zero : (a b : ℤ) → b +ℤ (a +ℤ pos 0) ≡ a +ℤ b
flip_zero a b = omega int_laws

ok_snd {ℓ κ} : {A : Type ℓ} {B : Type κ} {a b : A × B} → ok a ≡ ok b → a.1 ≡ b.1
ok_snd e = cc

pub IsStocked-dec : (item : InventoryItem) → IsStocked item ⊎ ¬ IsStocked item
IsStocked-dec item = elim (Bool-cases (check_item item)) [
  | inl e ↦ inl (IsStocked-of_check item e)
  | inr e ↦ inr (λ k. cc (check_of-IsStocked item k))
]

module _ (movement : StockMovementType) (fr : Bool) (ref : Reference) where
  -- What an accepted line did, in full.
  pub apply_line-inversion :
      (line : Line) (db : InventoryDb) {r : InventoryMutationResult × InventoryDb}
      → IsValid db.items
      → apply_line movement fr ref line db ≡ ok r
      → IsStocked (
          moved
            (change movement fr line)
            (row_at (line_product line) (line_warehouse line) db.items))
        × IsMoved movement fr ref line db r.1
  apply_line-inversion line db {r} v e =
      let s = apply_line-IsSupported movement fr ref line db e in
      let after =
        moved (change movement fr line)
          (row_at (line_product line) (line_warehouse line) db.items) in
      elim (IsStocked-dec after) [
        | inl k ↦
            let (db', e', m) = apply_line-IsMoved movement fr ref line db v s k in
            (k, subst (IsMoved movement fr ref line db) (ok_snd (sym e' ∙ e)) m)
        | inr k ↦ cc (apply_line-refused movement fr ref line db v s k)
      ]

  line-HasMoved :
      (line : Line) (db db' : InventoryDb)
      → IsMoved movement fr ref line db db'
      → HasMoved db db'
          (λ p w. net_on_hand movement fr p w (line ∷ []))
          (λ p w. net_reserved movement fr p w (line ∷ []))
  line-HasMoved line db db' m = record {
    valid = m.valid;
    on_hand_moved = λ p w. ground (
      arith,
      m.position p w,
      add_zero (row_at p w db.items).on_hand,
      trailing_zero (row_at p w db.items).on_hand (change movement fr line).0,
    );
    reserved_moved = λ p w. ground (
      arith,
      m.position p w,
      add_zero (row_at p w db.items).reserved,
      trailing_zero (row_at p w db.items).reserved (change movement fr line).1,
    );
    accounted = λ p w. rw m.logged (
        unfold entry in
        ground (
          arith,
          add_zero (ledger_on_hand p w db.ledger),
          flip_zero (change movement fr line).0 (ledger_on_hand p w db.ledger),
          flip_zero (pos 0) (ledger_on_hand p w db.ledger),
          change_reserved movement fr line,
        ));
  }

  nothing-HasMoved :
      (db : InventoryDb)
      → IsValid db.items
      → HasMoved db db
          (λ p w. net_on_hand movement fr p w [])
          (λ p w. net_reserved movement fr p w [])
  nothing-HasMoved db v = record {
    valid = v;
    on_hand_moved = λ p w. omega int_laws;
    reserved_moved = λ p w. omega int_laws;
    accounted = λ p w. omega int_laws;
  }

  line-HasMoved-trans :
      (line : Line) (lines : List Line) (db mid db' : InventoryDb)
      → HasMoved db mid
          (λ p w. net_on_hand movement fr p w (line ∷ []))
          (λ p w. net_reserved movement fr p w (line ∷ []))
      → HasMoved mid db'
          (λ p w. net_on_hand movement fr p w lines)
          (λ p w. net_reserved movement fr p w lines)
      → HasMoved db db'
          (λ p w. net_on_hand movement fr p w (line ∷ lines))
          (λ p w. net_reserved movement fr p w (line ∷ lines))
  line-HasMoved-trans line lines db mid db' a b = record {
    valid = b.valid;
    on_hand_moved = λ p w. rw (b.on_hand_moved p w, a.on_hand_moved p w) (omega int_laws);
    reserved_moved = λ p w. rw (b.reserved_moved p w, a.reserved_moved p w) (omega int_laws);
    accounted = λ p w. rw (b.accounted p w, a.accounted p w) (omega int_laws);
  }

  pub apply_lines-cons :
      (line : Line) (lines : List Line) (db : InventoryDb)
      {r : List InventoryMutationResult × InventoryDb}
      → apply_lines movement fr ref (line ∷ lines) db ≡ ok r
      → (first : InventoryMutationResult × InventoryDb) × (rest : List InventoryMutationResult
          × InventoryDb)
        × (apply_line movement fr ref line db ≡ ok first)
        × (apply_lines movement fr ref lines first.1 ≡ ok rest)
        × (r ≡ (first.0 ∷ rest.0, rest.1))
  unfolding apply_lines
  apply_lines-cons line lines db e =
      let (first, e1, k1) = >>=-eq-ok (apply_line movement fr ref line db) _ e in
      let (rest, e2, k2) = >>=-eq-ok (apply_lines movement fr ref lines first.1) _ k1 in
      (first, rest, e1, e2, cc)

  apply_lines-HasMoved :
      (lines : List Line) (db : InventoryDb) {r : List InventoryMutationResult × InventoryDb}
      → IsValid db.items
      → apply_lines movement fr ref lines db ≡ ok r
      → HasMoved db r.1
          (λ p w. net_on_hand movement fr p w lines)
          (λ p w. net_reserved movement fr p w lines)
  unfolding apply_lines
  apply_lines-HasMoved [] db {r} v e =
      subst
        (λ d.
          HasMoved db d (λ p w. net_on_hand movement fr p w [])
            (λ p w. net_reserved movement fr p w []))
        (ok_snd e) (nothing-HasMoved db v)
  apply_lines-HasMoved (line ∷ lines) db {r} v e =
      let (first, rest, e1, e2, e3) = apply_lines-cons line lines db e in
      let m = (apply_line-inversion line db v e1).1 in
      subst
        (λ d.
          HasMoved db d (λ p w. net_on_hand movement fr p w (line ∷ lines))
            (λ p w. net_reserved movement fr p w (line ∷ lines)))
        (sym (ap (λ (x : List InventoryMutationResult × InventoryDb). x.1) e3))
        (line-HasMoved-trans line lines db first.1 rest.1 (line-HasMoved line db first.1 m)
          (apply_lines-HasMoved lines first.1 m.valid e2))

  -- In a well-formed table, whatever the movement, the lines of an accepted order act together as
  -- their sums, whatever order they are given in, the constraints hold afterwards, and the ledger's
  -- receipts, issues and adjustments account for every change of the stock on hand.
  pub apply-HasMoved :
      (lines : List Line) (db db' : InventoryDb) (results : List InventoryMutationResult)
      → IsValid db.items
      → apply movement fr ref lines db ≡ ok (results, db')
      → HasMoved db db'
          (λ p w. net_on_hand movement fr p w lines)
          (λ p w. net_reserved movement fr p w lines)
  unfolding apply
  apply-HasMoved lines db db' results v e =
      let m = apply_lines-HasMoved (sorted sorts_before lines) db v e in
      record {
        valid = m.valid;
        on_hand_moved = λ p w.
            m.on_hand_moved p w
            ∙ ap (λ x. (row_at p w db.items).on_hand +ℤ x) (sum_of-sorted sorts_before _ lines);
        reserved_moved = λ p w.
            m.reserved_moved p w
            ∙ ap (λ x. (row_at p w db.items).reserved +ℤ x) (sum_of-sorted sorts_before _ lines);
        accounted = λ p w.
            m.accounted p w
            ∙ ap (λ x. ledger_on_hand p w db.ledger +ℤ x) (sum_of-sorted sorts_before _ lines);
      }
