-- ===== src/Sales/Answered.antt =====
-- What an answer says of the lines that are reserved.
use vyaparaflowai.Prelude.{
  ℕ, suc, ◌≤◌, ◌≡◌, refl, ap, Bool, true, false, ◌&&◌, Option, List, [], ◌∷◌, ◌++◌, map, arith,
  ◌==◌, if◌then◌else◌, any, All, total, length, inl, inr, String,
}
use vyaparaflowai.Prelude.Int.{pos, ◌+ℤ◌, ◌-ℤ◌}
use vyaparaflowai.Inventory.{InventoryDb}
use vyaparaflowai.Inventory.Levels.{row_at, IsValid}
use vyaparaflowai.Outbox.{OutboxEvent, write_event}
use vyaparaflowai.Sales.Tables.{SalesDb}
use vyaparaflowai.Sales.Requests.{SalesOrderLineResult, CreateSalesOrderResult}
use vyaparaflowai.Sales.Reserving.{is_short}
use vyaparaflowai.Sales.Ordering.{ShortageDetected, report_shortage}
use vyaparaflowai.Sales.Orders.{wanted_quantity, taken_at, IsServed}
use vyaparaflowai.Sales.Statuses.{IsFilled, IsStatusOf}

-- What the lines of an answer have reserved at one key.
abbrev pub reserved_at : (warehouse_id p w : ℕ) → List SalesOrderLineResult → ℕ
reserved_at warehouse_id p w lines =
    total
      (λ (l : SalesOrderLineResult).
        if p == l.product_id && w == warehouse_id then l.reserved_qty else 0)
      lines

-- An order that is reserved from a warehouse.
pub record IsPlaced (warehouse_id : ℕ) (db : SalesDb) (r : CreateSalesOrderResult × SalesDb)
    : Type 0 where
  pub valid : IsValid r.1.inventory.items
  pub filled : All (IsFilled warehouse_id r.1.inventory) r.0.lines
  pub reserved_grown :
      (p w : ℕ)
      → (row_at p w r.1.inventory.items).reserved
        ≡ (row_at p w db.inventory.items).reserved +ℤ pos (reserved_at warehouse_id p w r.0.lines)
  pub on_hand_same :
      (p w : ℕ) → (row_at p w r.1.inventory.items).on_hand ≡ (row_at p w db.inventory.items).on_hand
  pub status : IsStatusOf r.0.status r.0.lines
  pub reported :
      length r.1.outbox_events
      ≡ (if any is_short r.0.lines then suc (length db.outbox_events) else length db.outbox_events)

-- How an answer speaks of a line and of what was reserved for it now.
pub record Answers {A : Type 0} (product_of : A → ℕ) (wanted : A → Option ℕ) (Good : A → Type 0)
    (result_of : A → ℕ → SalesOrderLineResult) : Type 0 where
  pub product : (a : A) (n : ℕ) → (result_of a n).product_id ≡ product_of a
  pub within :
      (a : A) (n : ℕ)
      → Good a
      → n ≤ wanted_quantity wanted a
      → (result_of a n).reserved_qty ≤ (result_of a n).quantity
  pub full :
      (a : A) (n : ℕ)
      → Good a
      → n ≡ wanted_quantity wanted a
      → (result_of a n).reserved_qty ≡ (result_of a n).quantity
  pub short :
      (a : A) (n : ℕ)
      → (result_of a n).shortage_qty
        ≡ pos (result_of a n).quantity -ℤ pos (result_of a n).reserved_qty

pub served-IsFilled :
    {A : Type 0} (product_of : A → ℕ) (wanted : A → Option ℕ) (Good : A → Type 0)
    (result_of : A → ℕ → SalesOrderLineResult) (warehouse_id : ℕ) (db : InventoryDb)
    (taken : List (A × ℕ))
    → Answers product_of wanted Good result_of
    → All Good (map (λ (t : A × ℕ). t.0) taken)
    → All (IsServed product_of wanted warehouse_id db) taken
    → All (IsFilled warehouse_id db) (map (λ (t : A × ℕ). result_of t.0 t.1) taken)
served-IsFilled product_of wanted Good result_of warehouse_id db [] answers good h = tt
served-IsFilled product_of wanted Good result_of warehouse_id db (t ∷ taken) answers good h = (
  record {
    within = answers.within t.0 t.1 good.0 h.0.0;
    short = answers.short t.0 t.1;
    exhausted = elim h.0.1 [
      | inl full ↦ inl (answers.full t.0 t.1 good.0 full)
      | inr used ↦ inr (rw (answers.product t.0 t.1) used)
    ];
  },
  served-IsFilled product_of wanted Good result_of warehouse_id db taken answers good.1 h.1,
)

pub taken_at-reserved_at :
    {A : Type 0} (product_of : A → ℕ) (wanted : A → Option ℕ)
    (result_of : A → ℕ → SalesOrderLineResult) (warehouse_id p w : ℕ) (taken : List (A × ℕ))
    → ((a : A) (n : ℕ) → (result_of a n).product_id ≡ product_of a)
    → ((a : A) (n : ℕ) → (result_of a n).reserved_qty ≡ n)
    → taken_at product_of wanted warehouse_id p w taken
      ≡ reserved_at warehouse_id p w (map (λ (t : A × ℕ). result_of t.0 t.1) taken)
taken_at-reserved_at product_of wanted result_of warehouse_id p w [] same_product same_quantity =
    refl
taken_at-reserved_at product_of wanted result_of warehouse_id p w (t ∷ taken) same_product
      same_quantity =
    let rest =
      taken_at-reserved_at product_of wanted result_of warehouse_id p w taken same_product
        same_quantity in
    ground (arith, rest, same_product t.0 t.1, same_quantity t.0 t.1)

pub length-append_one {ℓ} :
    {A : Type ℓ} (xs : List A) (x : A) → length (xs ++ x ∷ []) ≡ suc (length xs)
length-append_one [] x = refl
length-append_one (y ∷ ys) x = ap suc (length-append_one ys x)

pub reported_length :
    (dumps : ShortageDetected → String) (event_id : ℕ) (detected : ShortageDetected) (clock : ℕ)
    (events : List OutboxEvent) (test : Bool)
    → length (if test then report_shortage dumps event_id detected clock events else events)
      ≡ (if test then suc (length events) else length events)
unfolding report_shortage write_event
reported_length dumps event_id detected clock events false = refl
reported_length dumps event_id detected clock events true = length-append_one events _

pub All-unit {ℓ} : {A : Type ℓ} (xs : List A) → All (λ (a : A). Unit {0}) xs
All-unit [] = tt
All-unit (x ∷ xs) = (tt, All-unit xs)
