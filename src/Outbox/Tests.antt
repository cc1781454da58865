-- ===== src/Outbox/Tests.antt =====
-- The theorems on the outbox at a concrete table.
use vyaparaflowai.Prelude.{
  In, All-In, ◌<◌, true, false, ◌+◌, length, ℕ, ◌≤◌, ◌≡◌, Option, none, some, List, [], ◌∷◌, arith,
  All, leb, if◌then◌else◌,
}
use vyaparaflowai.Outbox.Events.{OutboxEvent, is_unpublished}
use vyaparaflowai.Outbox.Publisher.{Client, response, http_error, publish_pending}
use vyaparaflowai.Outbox.Kept.{UniqueIds}
use vyaparaflowai.Outbox.Starved.{is_exhausted, publish_pending-starved}
use vyaparaflowai.Outbox.Tries.{attempts_of, tries_of, publish_pending-AreCounted}

abbrev event_of : ℕ → ℕ → Option ℕ → OutboxEvent
event_of id attempts published_at = record {
  id = id;
  aggregate_type = "purchase_requisition";
  aggregate_id = 4;
  event_type = "purchase_requisition.created";
  payload = "{}";
  published_at = published_at;
  attempts = attempts;
  last_attempted_at = none;
  created_at = id;
}

-- An exhausted event, a published one and a new one.
abbrev outbox : List OutboxEvent
outbox = event_of 1 8 none ∷ event_of 2 1 (some 5) ∷ event_of 3 0 none ∷ []

-- The receiver accepts the first call only.
abbrev client : Client
client = record {
  post = λ call request. if leb call 0 then response 200 else http_error "timeout";
  id_text = λ id. "id";
  unexpected_status = λ status. "unexpected status";
}

outbox-UniqueIds : UniqueIds outbox
outbox-UniqueIds =
    (((λ e. ground arith), ((λ e. ground arith), tt)), (((λ e. ground arith), tt), (tt, tt)))

publish_pending-AreCounted_example :
    let run = publish_pending client "https://n8n" "" 8 100 50 outbox in
    UniqueIds run.events
    × All (λ (event : OutboxEvent). event.attempts ≤ 8) run.events
    × ((id : ℕ) → attempts_of id run.events ≡ attempts_of id outbox + tries_of id run.attempted)
    × (length run.attempted ≡ run.calls)
publish_pending-AreCounted_example =
    publish_pending-AreCounted client "https://n8n" "" 8 100 50 outbox outbox-UniqueIds
      (omega arith, (omega arith, (omega arith, tt)))

abbrev IsBefore : OutboxEvent → OutboxEvent → Type 0
IsBefore a b =
    is_unpublished a ≡ true
    → is_unpublished b ≡ true
    → is_exhausted 8 a ≡ true
    → is_exhausted 8 b ≡ false
    → a.created_at < b.created_at

-- The exhausted event is older than the new one.
exhausted_first : All (λ (a : OutboxEvent). All (IsBefore a) outbox) outbox
exhausted_first = (
  (
    (λ u v x y. ground (arith, u, v, x, y)),
    ((λ u v x y. ground (arith, u, v, x, y)), ((λ u v x y. ground (arith, u, v, x, y)), tt)),
  ),
  (
    (
      (λ u v x y. ground (arith, u, v, x, y)),
      ((λ u v x y. ground (arith, u, v, x, y)), ((λ u v x y. ground (arith, u, v, x, y)), tt)),
    ),
    (
      (
        (λ u v x y. ground (arith, u, v, x, y)),
        ((λ u v x y. ground (arith, u, v, x, y)), ((λ u v x y. ground (arith, u, v, x, y)), tt)),
      ),
      tt,
    ),
  ),
)

outbox-exhausted_first : (a b : OutboxEvent) → In a outbox → In b outbox → IsBefore a b
outbox-exhausted_first a b m k =
    All-In (IsBefore a) outbox b
      (All-In (λ (x : OutboxEvent). All (IsBefore x) outbox) outbox a exhausted_first m) k

publish_pending-starved_example :
    let run = publish_pending client "https://n8n" "" 8 100 1 outbox in
    (run.calls ≡ 0) × (run.attempted ≡ []) × (run.events ≡ outbox)
publish_pending-starved_example =
    publish_pending-starved client "https://n8n" "" 8 100 1 outbox (omega arith)
      outbox-exhausted_first
