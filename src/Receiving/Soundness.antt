-- ===== src/Receiving/Soundness.antt =====
-- The database in which goods receipts are posted.
use vyaparaflowai.Prelude.{
  ℕ, ◌≤◌, ◌<◌, ◌≡◌, ◌≢◌, refl, ap, inl, inr, false, List, [], ◌∷◌, arith, any, All, Pairwise,
  Bool-cases,
}
use vyaparaflowai.Inventory.Levels.{IsValid}
use vyaparaflowai.Numbering.{DocumentNumber, SequenceKey, DocumentSequence, is_number}
use vyaparaflowai.Numbering.Gapless.{last_of}
use vyaparaflowai.Purchase.{PurchaseOrderItem, GoodsReceipt, PurchaseDb}
use vyaparaflowai.Receiving.Receipts.{has_number}

abbrev pub counter_of : ℕ → DocumentNumber → SequenceKey
counter_of org_id number = record {
  org_id = org_id;
  doc_type = "goods_receipt";
  year = number.year;
}

-- The counters are not behind the numbers of the receipts.
abbrev pub AreNumbered : List DocumentSequence → List GoodsReceipt → Type 0
AreNumbered sequences receipts =
    All
      (λ (row : GoodsReceipt).
        row.grn_number.value ≤ last_of (counter_of row.org_id row.grn_number) sequences)
      receipts

-- A number after the last one is new.
pub has_number_none :
    (org_id : ℕ) (number : DocumentNumber) (sequences : List DocumentSequence)
    (receipts : List GoodsReceipt)
    → AreNumbered sequences receipts
    → last_of (counter_of org_id number) sequences < number.value
    → any (has_number org_id number) receipts ≡ false
unfolding is_number
has_number_none org_id number sequences [] h later = refl
has_number_none org_id number sequences (row ∷ receipts) h later =
    let rest = has_number_none org_id number sequences receipts h.1 later in
    elim (Bool-cases (has_number org_id number row)) [
      | inr e ↦ ground (arith, e, rest)
      | inl e ↦
          let same_org : row.org_id ≡ org_id = ground (arith, e) in
          let same_year : row.grn_number.year ≡ number.year = ground (arith, e) in
          let same_value : row.grn_number.value ≡ number.value = ground (arith, e) in
          let same : counter_of row.org_id row.grn_number ≡ counter_of org_id number = cc in
          let last = ap (λ k. last_of k sequences) same in
          let no : ⊥ = omega (arith, h.0, last, same_value, later) in absurd no
    ]

pub AreNumbered-kept :
    (before after : List DocumentSequence) (receipts : List GoodsReceipt)
    → ((key : SequenceKey) → last_of key before ≤ last_of key after)
    → AreNumbered before receipts
    → AreNumbered after receipts
AreNumbered-kept before after [] grown h = tt
AreNumbered-kept before after (row ∷ receipts) grown h =
    let later = grown (counter_of row.org_id row.grn_number) in
    (omega (arith, h.0, later), AreNumbered-kept before after receipts grown h.1)

-- Well-formed stock; the CHECK constraint that an item asks for more than nothing, the primary key
-- of the items, and counters that are not behind.
pub record IsSound (db : PurchaseDb) : Type 0 where
  pub stock : IsValid db.inventory.items
  pub ordered : All (λ (item : PurchaseOrderItem). 0 < item.quantity) db.purchase_order_items
  pub numbered : AreNumbered db.sequences db.goods_receipts
  pub unique : Pairwise (λ (a b : PurchaseOrderItem). a.id ≢ b.id) db.purchase_order_items
