-- ===== src/Outbox/Events.antt =====
-- The table `outbox_events` (backend/app/db/models/workflow.py), its write side
-- (backend/app/services/outbox.py), and the queries of the worker on it.
use vyaparaflowai.Prelude.{
  ℕ, Bool, true, false, Option, none, some, List, [], ◌∷◌, ◌++◌, String, ◌==◌, leb, if◌then◌else◌,
  filter, take,
}
use vyaparaflowai.Prelude.Sorting.{sorted}

-- Times are seconds since the epoch; `payload` is the JSON text of the event's dictionary.
pub record OutboxEvent : Type 0 where
  pub id : ℕ
  pub aggregate_type : String
  pub aggregate_id : ℕ
  pub event_type : String
  pub payload : String
  pub published_at : Option ℕ
  pub attempts : ℕ
  pub last_attempted_at : Option ℕ
  pub created_at : ℕ

-- `write_event`: the row that the flush gives a new id and the time of the transaction.
unfoldable pub write_event :
    (aggregate_type : String) (aggregate_id : ℕ) (event_type payload : String) (new_id clock : ℕ)
    → List OutboxEvent
    → OutboxEvent × List OutboxEvent
write_event aggregate_type aggregate_id event_type payload new_id clock events =
    let event : OutboxEvent = record {
      id = new_id;
      aggregate_type = aggregate_type;
      aggregate_id = aggregate_id;
      event_type = event_type;
      payload = payload;
      published_at = none;
      attempts = 0;
      last_attempted_at = none;
      created_at = clock;
    } in
    (event, events ++ event ∷ [])

abbrev pub is_unpublished : OutboxEvent → Bool
is_unpublished event = elim event.published_at [ none ↦ true | some time ↦ false ]

abbrev pub is_older : OutboxEvent → OutboxEvent → Bool
is_older a b = leb a.created_at b.created_at

-- Unpublished rows, the oldest first, at most `batch_size` of them.
unfoldable pub fetch_due_events : ℕ → List OutboxEvent → List OutboxEvent
fetch_due_events batch_size events =
    take batch_size (sorted is_older (filter is_unpublished events))

-- The commit of a changed row.
unfoldable pub save : OutboxEvent → List OutboxEvent → List OutboxEvent
save event [] = []
save event (row ∷ rows) = (if row.id == event.id then event else row) ∷ save event rows
