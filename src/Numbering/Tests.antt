-- ===== src/Numbering/Tests.antt =====
-- The theorem on the numbers at a concrete counter.
use vyaparaflowai.Prelude.{◌+◌, ◌≡◌, refl, List, [], ◌∷◌}
use vyaparaflowai.Errors.{ok}
use vyaparaflowai.Numbering.Sequences.{
  prefix_of, Date, financial_year, DocumentSequence, DocumentNumber, next_document_number,
}
use vyaparaflowai.Numbering.Gapless.{last_of, key_of, next_document_number-consecutive}

-- In February the financial year is that of the year before.
abbrev february : Date
february = record { year = 2026; month = 2; day = 15 }

abbrev counters : List DocumentSequence
counters = record { key = key_of 1 "purchase_order" february; last_value = 451 } ∷ []

order-prefix : prefix_of "purchase_order" ≡ ok "PO"
unfolding prefix_of
order-prefix = refl

next_document_number-consecutive_example :
    (r : DocumentNumber × List DocumentSequence) × (next_document_number 1 "purchase_order" february
        counters
      ≡ ok r)
    × (r.0 ≡ record {
      prefix = "PO";
      year = financial_year february;
      value = last_of (key_of 1 "purchase_order" february) counters + 1;
    })
    × (last_of (key_of 1 "purchase_order" february) r.1 ≡ r.0.value)
next_document_number-consecutive_example =
    next_document_number-consecutive 1 "purchase_order" "PO" february counters order-prefix
