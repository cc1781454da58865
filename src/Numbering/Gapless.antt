-- ===== src/Numbering/Gapless.antt =====
-- How the numbers of a sequence follow one another.
use text.Mathlib.TextEquality.{eq_iff}
use vyaparaflowai.Prelude.{
  ℕ, ◌+◌, ◌≤◌, ◌≡◌, refl, subst, ap, ◌∙◌, inl, inr, true, false, none, some, List, [], ◌∷◌, String,
  arith, any, find, Bool-cases,
}
use vyaparaflowai.Errors.{ok, >>=-eq-ok, ok-inj}
use vyaparaflowai.Numbering.Sequences.{
  prefix_of, Date, financial_year, SequenceKey, DocumentSequence, is_key, has_key, ensure_sequence,
  increment, DocumentNumber, next_value, next_document_number,
}

-- The last number given out, or 0 for none.
abbrev pub last_of : SequenceKey → List DocumentSequence → ℕ
last_of key rows = elim (find (has_key key) rows) [ none ↦ 0 | some row ↦ row.last_value ]

is_key_refl : (key : SequenceKey) → is_key key key ≡ true
is_key_refl key = ground (arith, (eq_iff key.doc_type key.doc_type).1 refl)

any-ensure_sequence :
    (key : SequenceKey) (rows : List DocumentSequence)
    → any (has_key key) (ensure_sequence key rows) ≡ true
unfolding ensure_sequence
any-ensure_sequence key rows = elim (Bool-cases (any (has_key key) rows)) [
  | inl e ↦ rw e e
  | inr e ↦ rw e (rw (is_key_refl key) refl)
]

next_value-increment :
    (key : SequenceKey) (rows : List DocumentSequence)
    → any (has_key key) rows ≡ true
    → next_value key (increment key rows) ≡ ok (last_of key rows + 1)
unfolding next_value increment
next_value-increment key [] h = cc
next_value-increment key (row ∷ rows) h = elim (Bool-cases (has_key key row)) [
  | inl e ↦ ground (arith, e)
  | inr e ↦
      let there : any (has_key key) rows ≡ true = rw e at h in
      ground (arith, e, next_value-increment key rows there)
]

last_of-increment :
    (key : SequenceKey) (rows : List DocumentSequence)
    → any (has_key key) rows ≡ true
    → last_of key (increment key rows) ≡ last_of key rows + 1
unfolding increment
last_of-increment key [] h = cc
last_of-increment key (row ∷ rows) h = elim (Bool-cases (has_key key row)) [
  | inl e ↦ ground (arith, e)
  | inr e ↦
      let there : any (has_key key) rows ≡ true = rw e at h in
      ground (arith, e, last_of-increment key rows there)
]

last_of_absent :
    (key : SequenceKey) (rows : List DocumentSequence)
    → any (has_key key) rows ≡ false
    → last_of key rows ≡ 0
last_of_absent key [] h = refl
last_of_absent key (row ∷ rows) h = elim (Bool-cases (has_key key row)) [
  | inl e ↦ let clash : true ≡ false = rw e at h in cc
  | inr e ↦
      let absent : any (has_key key) rows ≡ false = rw e at h in
      ground (arith, e, last_of_absent key rows absent)
]

last_of-ensure_sequence :
    (key : SequenceKey) (rows : List DocumentSequence)
    → last_of key (ensure_sequence key rows) ≡ last_of key rows
unfolding ensure_sequence
last_of-ensure_sequence key rows = elim (Bool-cases (any (has_key key) rows)) [
  | inl e ↦ rw e refl
  | inr e ↦ ground (arith, e, is_key_refl key, last_of_absent key rows e)
]

abbrev pub key_of : ℕ → String → Date → SequenceKey
key_of org_id doc_type on = record {
  org_id = org_id;
  doc_type = doc_type;
  year = financial_year on;
}

-- For a known document type a number is always given out: the one after the last of its organization,
-- type and financial year, which then is the last, so that the next call continues without a gap.
pub next_document_number-consecutive :
    (org_id : ℕ) (doc_type prefix : String) (on : Date) (rows : List DocumentSequence)
    → prefix_of doc_type ≡ ok prefix
    → (r : DocumentNumber × List DocumentSequence) × (next_document_number org_id doc_type on rows
        ≡ ok r)
      × (r.0 ≡ record {
        prefix = prefix;
        year = financial_year on;
        value = last_of (key_of org_id doc_type on) rows + 1;
      })
      × (last_of (key_of org_id doc_type on) r.1 ≡ r.0.value)
unfolding next_document_number
next_document_number-consecutive org_id doc_type prefix on rows known =
    let key = key_of org_id doc_type on in
    let opened = ensure_sequence key rows in
    let there = any-ensure_sequence key rows in
    let same = last_of-ensure_sequence key rows in
    let value : next_value key (increment key opened) ≡ ok (last_of key rows + 1) =
      next_value-increment key opened there ∙ ap (λ n. ok (n + 1)) same in
    (
      (
        record { prefix = prefix; year = financial_year on; value = last_of key rows + 1 },
        increment key opened,
      ),
      rw (known, value) refl,
      refl,
      last_of-increment key opened there ∙ ap (λ n. n + 1) same,
    )

last_of-increment-le :
    (key other : SequenceKey) (rows : List DocumentSequence)
    → last_of other rows ≤ last_of other (increment key rows)
unfolding increment
last_of-increment-le key other [] = omega arith
last_of-increment-le key other (row ∷ rows) =
    let rest = last_of-increment-le key other rows in
    elim (Bool-cases (has_key other row)) [
      | inl e ↦ elim (Bool-cases (has_key key row)) [
        | inl k ↦ ground (arith, k, e)
        | inr k ↦ ground (arith, k, e)
      ]
      | inr e ↦ elim (Bool-cases (has_key key row)) [
        | inl k ↦ ground (arith, k, e, rest)
        | inr k ↦ ground (arith, k, e, rest)
      ]
    ]

is_key-eq : (a b : SequenceKey) → is_key a b ≡ true → a ≡ b
is_key-eq a b h =
    let org_id : a.org_id ≡ b.org_id = ground (arith, h) in
    let doc_type : a.doc_type ≡ b.doc_type = (eq_iff a.doc_type b.doc_type).0 (ground (arith, h)) in
    let year : a.year ≡ b.year = ground (arith, h) in cc

last_of-ensure_sequence-le :
    (key other : SequenceKey) (rows : List DocumentSequence)
    → last_of other rows ≤ last_of other (ensure_sequence key rows)
unfolding ensure_sequence
last_of-ensure_sequence-le key other rows = elim (Bool-cases (any (has_key key) rows)) [
  | inl e ↦ rw e (omega arith)
  | inr e ↦ elim (Bool-cases (is_key key other)) [
    | inl same ↦
        let absent =
          last_of_absent other rows
            (subst (λ k. any (has_key k) rows ≡ false) (is_key-eq key other same) e) in
        ground (arith, e, same, absent)
    | inr apart ↦ ground (arith, e, apart)
  ]
]

-- No counter ever goes down.
pub next_document_number-le :
    (org_id : ℕ) (doc_type : String) (on : Date) (rows : List DocumentSequence)
    (other : SequenceKey) (r : DocumentNumber × List DocumentSequence)
    → next_document_number org_id doc_type on rows ≡ ok r
    → last_of other rows ≤ last_of other r.1
unfolding next_document_number
next_document_number-le org_id doc_type on rows other r h =
    let key = key_of org_id doc_type on in
    let opened = ensure_sequence key rows in
    let (prefix, _, h1) = >>=-eq-ok (prefix_of doc_type) _ h in
    let (value, _, h2) = >>=-eq-ok (next_value key (increment key opened)) _ h1 in
    let grown : last_of other rows ≤ last_of other (increment key opened) =
      omega
        (arith, last_of-increment-le key other opened, last_of-ensure_sequence-le key other rows) in
    subst (λ (x : DocumentNumber × List DocumentSequence). last_of other rows ≤ last_of other x.1)
      (ok-inj h2) grown
