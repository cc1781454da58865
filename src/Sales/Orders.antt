-- ===== src/Sales/Orders.antt =====
-- What the reservation of all the lines of an order takes.
use vyaparaflowai.Prelude.{
  ℕ, ◌≤◌, ◌≡◌, refl, ap, ◌∙◌, ◌⊎◌, inl, inr, ◌&&◌, Option, none, some, List, [], ◌∷◌, map, arith,
  ◌==◌, ltb, if◌then◌else◌, min, Bool-cases, Option-cases, All, total,
}
use vyaparaflowai.Prelude.Int.{ℤ, pos, ◌+ℤ◌, ◌-ℤ◌, ◌≤ℤ◌, pos_part, int_laws}
use vyaparaflowai.Errors.{ok}
use vyaparaflowai.Inventory.{InventoryDb, get_available}
use vyaparaflowai.Inventory.Levels.{row_at, IsValid}
use vyaparaflowai.Inventory.Reservation.{get_available-row_at}
use vyaparaflowai.Sales.Reserving.{reserve_one, reserve_each}
use vyaparaflowai.Sales.Effort.{HasReserved, nothing-HasReserved, best_effort_reserve-HasReserved}

abbrev pub wanted_quantity : {A : Type 0} → (A → Option ℕ) → A → ℕ
wanted_quantity wanted a = elim (wanted a) [ none ↦ 0 | some quantity ↦ quantity ]

module _ {A : Type 0} (product_of : A → ℕ) (wanted : A → Option ℕ) (warehouse_id : ℕ) where
  -- What was taken at one key.
  abbrev pub taken_at : ℕ → ℕ → List (A × ℕ) → ℕ
  taken_at p w taken =
      total (λ (t : A × ℕ). if p == product_of t.0 && w == warehouse_id then t.1 else 0) taken

  -- A line got all it wanted, or the stock of its product is used up.
  abbrev pub IsServed : InventoryDb → A × ℕ → Type 0
  IsServed db taken =
      (taken.1 ≤ wanted_quantity wanted taken.0)
      × ((taken.1 ≡ wanted_quantity wanted taken.0)
          ⊎ (get_available (product_of taken.0) warehouse_id db ≤ℤ pos 0))

  -- Each line in turn is served, and the reservations have grown by what the lines were given.
  pub record HasReservedEach (lines : List A) (db : InventoryDb) (taken : List (A × ℕ))
      (db' : InventoryDb) : Type 0 where
    pub valid : IsValid db'.items
    pub complete : map (λ (t : A × ℕ). t.0) taken ≡ lines
    pub served : All (IsServed db') taken
    pub reserved_grown :
        (p w : ℕ)
        → (row_at p w db'.items).reserved
          ≡ (row_at p w db.items).reserved +ℤ pos (taken_at p w taken)
    pub on_hand_same : (p w : ℕ) → (row_at p w db'.items).on_hand ≡ (row_at p w db.items).on_hand

  reserve_one-HasReserved :
      (ref_id : ℕ) (a : A) (db : InventoryDb)
      → IsValid db.items
      → (r : ℕ × InventoryDb) × (reserve_one product_of wanted warehouse_id ref_id a db ≡ ok r)
        × (r.0
            ≡ min
                (wanted_quantity wanted a)
                (pos_part (get_available (product_of a) warehouse_id db)))
        × HasReserved (product_of a) warehouse_id r.0 db r.1
  unfolding reserve_one
  reserve_one-HasReserved ref_id a db v = elim (Option-cases (wanted a)) [
    | inl e ↦ (
      (0, db),
      rw (reserve_one, e) refl,
      rw (wanted_quantity, e) (omega arith),
      nothing-HasReserved (product_of a) warehouse_id ref_id db v,
    )
    | inr (quantity, e) ↦
        let (r, done, n, h) =
          best_effort_reserve-HasReserved (product_of a) warehouse_id ref_id quantity db v in
        (r, rw (reserve_one, e) done, rw (wanted_quantity, e) n, h)
  ]

  -- Later lines leave no more than there was.
  get_available-later :
      (p w : ℕ) (db db' : InventoryDb) (n : ℕ)
      → (row_at p w db'.items).reserved ≡ (row_at p w db.items).reserved +ℤ pos n
      → (row_at p w db'.items).on_hand ≡ (row_at p w db.items).on_hand
      → get_available p w db' ≡ get_available p w db -ℤ pos n
  get_available-later p w db db' n more same =
      rw (get_available-row_at p w db', get_available-row_at p w db, more, same) (omega int_laws)

  used_up :
      (wants n m : ℕ) (stock_left after : ℤ)
      → n ≡ min wants (pos_part stock_left)
      → after ≡ (stock_left -ℤ pos n) -ℤ pos m
      → (n ≤ wants) × ((n ≡ wants) ⊎ (after ≤ℤ pos 0))
  used_up wants n m stock_left after e later =
      let bounded : n ≤ wants = omega (arith, e) in
      (
        bounded,
        elim (Bool-cases (ltb n wants)) [
          | inr full ↦ inl (ground (arith, full, bounded))
          | inl less ↦
              let all_left : n ≡ pos_part stock_left = ground (arith, e, less) in
              inr (rw later (omega (int_laws, all_left)))
        ],
      )

  at_own_key : (p n : ℕ) → (if p == p && warehouse_id == warehouse_id then n else 0) ≡ n
  at_own_key p n = ground arith

  -- In a well-formed table the lines of an order are reserved one after the other without a failure.
  pub reserve_each-HasReservedEach :
      (ref_id : ℕ) (lines : List A) (db : InventoryDb)
      → IsValid db.items
      → (r : List (A × ℕ) × InventoryDb) × (reserve_each product_of wanted warehouse_id ref_id lines
            db
          ≡ ok r)
        × HasReservedEach lines db r.0 r.1
  unfolding reserve_each
  reserve_each-HasReservedEach ref_id [] db v = (
    ([], db),
    refl,
    record {
      valid = v;
      complete = refl;
      served = tt;
      reserved_grown = λ p w. omega int_laws;
      on_hand_same = λ p w. refl;
    },
  )
  reserve_each-HasReservedEach ref_id (a ∷ lines) db v =
      let (first, e, n, h) = reserve_one-HasReserved ref_id a db v in
      let (later, e', k) = reserve_each-HasReservedEach ref_id lines first.1 h.valid in
      let product = product_of a in
      let own =
        h.reserved_grown product warehouse_id
        ∙ ap (λ q. (row_at product warehouse_id db.items).reserved +ℤ pos q)
            (at_own_key product first.0) in
      let taken =
        get_available-later product warehouse_id db first.1 first.0 own
          (h.on_hand_same product warehouse_id) in
      let less =
        get_available-later product warehouse_id first.1 later.1
          (taken_at product warehouse_id later.0) (k.reserved_grown product warehouse_id)
          (k.on_hand_same product warehouse_id) in
      (
        ((a, first.0) ∷ later.0, later.1),
        rw (e, e') refl,
        record {
          valid = k.valid;
          complete = ap (λ rest. a ∷ rest) k.complete;
          served = (
            used_up (wanted_quantity wanted a) first.0 (taken_at product warehouse_id later.0)
                (get_available product warehouse_id db) (get_available product warehouse_id later.1)
                n (less ∙ ap (λ left. left -ℤ pos (taken_at product warehouse_id later.0)) taken),
            k.served,
          );
          reserved_grown = λ p w. k.reserved_grown p w ∙ rw (h.reserved_grown p w) (omega int_laws);
          on_hand_same = λ p w. k.on_hand_same p w ∙ h.on_hand_same p w;
        },
      )
