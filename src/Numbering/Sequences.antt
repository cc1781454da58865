-- ===== src/Numbering/Sequences.antt =====
-- The counters and their numbers (backend/app/services/numbering.py). A document type is one of the
-- keys of `PREFIXES`; a financial year is known by the year in which it starts.
use text.Mathlib.Text.{◌==◌ as str_eq}
use vyaparaflowai.Prelude.{
  ℕ, ◌+◌, ◌-◌, Bool, ◌&&◌, none, some, List, [], ◌∷◌, String, ◌==◌, leb, if◌then◌else◌, any, find,
}
use vyaparaflowai.Errors.{Result, ok, err, value_error, assertion_error, ◌>>=◌}

-- `PREFIXES`
unfoldable pub prefix_of : String → Result String
prefix_of doc_type =
    if str_eq doc_type "purchase_requisition"
    then ok "PR"
    else if str_eq doc_type "purchase_order"
    then ok "PO"
    else if str_eq doc_type "goods_receipt"
    then ok "GRN"
    else if str_eq doc_type "sales_order"
    then ok "SO"
    else if str_eq doc_type "delivery"
    then ok "DL"
    else if str_eq doc_type "customer_invoice"
    then ok "INV"
    else if str_eq doc_type "credit_note"
    then ok "CN"
    else if str_eq doc_type "debit_note"
    then ok "DN"
    else err value_error

pub record Date : Type 0 where
  pub year : ℕ
  pub month : ℕ
  pub day : ℕ

-- `financial_year`: the year before the dash; the one after it is the next.
unfoldable pub financial_year : Date → ℕ
financial_year on = if leb 4 on.month then on.year else on.year - 1

pub record SequenceKey : Type 0 where
  pub org_id : ℕ
  pub doc_type : String
  pub year : ℕ

pub record DocumentSequence : Type 0 where
  pub key : SequenceKey
  pub last_value : ℕ

abbrev pub is_key : SequenceKey → SequenceKey → Bool
is_key a b = a.org_id == b.org_id && (str_eq a.doc_type b.doc_type && a.year == b.year)

abbrev pub has_key : SequenceKey → DocumentSequence → Bool
has_key key row = is_key row.key key

-- `INSERT … ON CONFLICT DO NOTHING`
unfoldable pub ensure_sequence : SequenceKey → List DocumentSequence → List DocumentSequence
ensure_sequence key rows =
    if any (has_key key) rows then rows else record { key = key; last_value = 0 } ∷ rows

-- `UPDATE … SET last_value = last_value + 1`
unfoldable pub increment : SequenceKey → List DocumentSequence → List DocumentSequence
increment key [] = []
increment key (row ∷ rows) =
    (if has_key key row then record row { last_value = row.last_value + 1 } else row)
    ∷ increment key rows

-- The parts of `f"{prefix}-{fy_short}-{next_value:05d}"`.
pub record DocumentNumber : Type 0 where
  pub prefix : String
  pub year : ℕ
  pub value : ℕ

-- Whether two numbers have the same text.
unfoldable pub is_number : DocumentNumber → DocumentNumber → Bool
is_number a b = str_eq a.prefix b.prefix && (a.year == b.year && a.value == b.value)

-- `scalar_one` of what the UPDATE returns.
unfoldable pub next_value : SequenceKey → List DocumentSequence → Result ℕ
next_value key rows = elim (find (has_key key) rows) [
  | none ↦ err assertion_error
  | some row ↦ ok row.last_value
]

unfoldable pub next_document_number :
    (org_id : ℕ) (doc_type : String) (on : Date)
    → List DocumentSequence
    → Result (DocumentNumber × List DocumentSequence)
next_document_number org_id doc_type on rows =
    let key : SequenceKey = record {
      org_id = org_id;
      doc_type = doc_type;
      year = financial_year on;
    } in
    let rows' = increment key (ensure_sequence key rows) in
    prefix_of doc_type >>= λ prefix. next_value key rows' >>= λ value.
    ok (record { prefix = prefix; year = financial_year on; value = value }, rows')
