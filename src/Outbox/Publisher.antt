-- ===== src/Outbox/Publisher.antt =====
-- The worker (backend/app/workers/outbox_publisher.py). The HTTP client, the texts of ids and of
-- status codes are parameters.
use Prim.Native.String.{◌++◌ as str_append}
use text.Mathlib.Text.{◌==◌ as str_eq}
use vyaparaflowai.Prelude.{
  ℕ, ◌+◌, ◌-◌, ◌*◌, ◌^◌, Bool, true, false, not, ◌&&◌, Option, none, some, List, [], ◌∷◌, ◌++◌,
  String, ◌==◌, leb, ltb, if◌then◌else◌,
}
use vyaparaflowai.Outbox.Events.{OutboxEvent, fetch_due_events, save}

abbrev pub default_batch_size : ℕ
default_batch_size = 50

abbrev pub default_max_attempts : ℕ
default_max_attempts = 8

abbrev pub base_backoff_seconds : ℕ
base_backoff_seconds = 30

abbrev pub max_backoff_seconds : ℕ
max_backoff_seconds = 3600

pub record RetryDecision : Type 0 where
  pub eligible_now : Bool
  pub exhausted : Bool
  pub next_attempt_due : Option ℕ

-- `min(base_seconds * (2 ** (attempts - 1)), max_seconds)`, asked for `attempts > 0` only.
unfoldable pub delay_seconds : (attempts base_seconds max_seconds : ℕ) → ℕ
delay_seconds attempts base_seconds max_seconds =
    let delay = base_seconds * 2 ^ (attempts - 1) in
    if ltb max_seconds delay then max_seconds else delay

unfoldable pub compute_retry_decision :
    (attempts : ℕ) (last_attempted_at : Option ℕ) (now max_attempts base_seconds max_seconds : ℕ)
    → RetryDecision
compute_retry_decision attempts last_attempted_at now max_attempts base_seconds max_seconds =
    if leb max_attempts attempts
    then record { eligible_now = false; exhausted = true; next_attempt_due = none }
    else elim last_attempted_at [
      | none ↦ record { eligible_now = true; exhausted = false; next_attempt_due = none }
      | some last ↦
          if attempts == 0
          then record { eligible_now = true; exhausted = false; next_attempt_due = none }
          else let due = last + delay_seconds attempts base_seconds max_seconds in
            record { eligible_now = leb due now; exhausted = false; next_attempt_due = some due }
    ]

pub record Request : Type 0 where
  pub url : String
  pub headers : List (String × String)
  pub event_id : String
  pub event_type : String
  pub aggregate_type : String
  pub aggregate_id : String
  pub payload : String

-- What the client's `post` gives: a response with its status, or an `httpx.HTTPError` with its text.
pub data Reply : Type 0 where
  response : ℕ → Reply
  http_error : String → Reply

-- `post` is given the number of the calls before, since the receiver may answer each differently.
pub record Client : Type 0 where
  pub post : ℕ → Request → Reply
  pub id_text : ℕ → String
  pub unexpected_status : ℕ → String

pub record Posted : Type 0 where
  pub success : Bool
  pub status_code : Option ℕ
  pub error : Option String

unfoldable pub outcome_of_reply : Client → Reply → Posted
outcome_of_reply client (http_error text) = record {
  success = false;
  status_code = none;
  error = some text;
}
outcome_of_reply client (response status) =
    if leb 200 status && ltb status 300
    then record { success = true; status_code = some status; error = none }
    else record {
      success = false;
      status_code = some status;
      error = some (client.unexpected_status status);
    }

abbrev pub request_for : Client → String → String → OutboxEvent → Request
request_for client webhook_url webhook_secret event =
    let headers : List (String × String) =
      ("Idempotency-Key", client.id_text event.id)
      ∷ ("X-Outbox-Event-Type", event.event_type)
      ∷ [] in
    record {
      url = webhook_url;
      headers =
          if str_eq webhook_secret ""
          then headers
          else headers ++ ("Authorization", str_append "Bearer " webhook_secret) ∷ [];
      event_id = client.id_text event.id;
      event_type = event.event_type;
      aggregate_type = event.aggregate_type;
      aggregate_id = client.id_text event.aggregate_id;
      payload = event.payload;
    }

-- `_post_event`, as the call with this number.
unfoldable pub post_event : Client → String → String → ℕ → OutboxEvent → Posted
post_event client webhook_url webhook_secret call event =
    outcome_of_reply client (client.post call (request_for client webhook_url webhook_secret event))

pub record PublishOutcome : Type 0 where
  pub event_id : ℕ
  pub event_type : String
  pub success : Bool
  pub exhausted : Bool
  pub status_code : Option ℕ
  pub error : Option String

-- The loop's state: the table as committed, the calls made, and the counts of the result.
pub record Run : Type 0 where
  pub events : List OutboxEvent
  pub calls : ℕ
  pub attempted : List PublishOutcome
  pub skipped_not_due : ℕ
  pub skipped_exhausted : ℕ

-- The row after an attempt.
unfoldable pub tried : ℕ → Bool → OutboxEvent → OutboxEvent
tried now success event = record event {
  attempts = event.attempts + 1;
  last_attempted_at = some now;
  published_at = if success then some now else event.published_at;
}

module _ (client : Client) (webhook_url webhook_secret : String) (max_attempts now : ℕ) where
  abbrev pub decision_on : OutboxEvent → RetryDecision
  decision_on event =
      compute_retry_decision event.attempts event.last_attempted_at now max_attempts
        base_backoff_seconds max_backoff_seconds

  unfoldable pub attempt : OutboxEvent → Run → Run
  attempt event run =
      let posted = post_event client webhook_url webhook_secret run.calls event in
      let event' = tried now posted.success event in
      record run {
        events = save event' run.events;
        calls = run.calls + 1;
        attempted =
            run.attempted
            ++ record {
              event_id = event'.id;
              event_type = event'.event_type;
              success = posted.success;
              exhausted = not posted.success && leb max_attempts event'.attempts;
              status_code = posted.status_code;
              error = posted.error;
            }
              ∷ [];
      }

  -- One turn of the loop.
  unfoldable pub publish_event : OutboxEvent → Run → Run
  publish_event event run =
      if (decision_on event).exhausted
      then record run { skipped_exhausted = run.skipped_exhausted + 1 }
      else if not (decision_on event).eligible_now
      then record run { skipped_not_due = run.skipped_not_due + 1 }
      else attempt event run

  unfoldable pub publish_all : List OutboxEvent → Run → Run
  publish_all [] run = run
  publish_all (event ∷ events) run = publish_all events (publish_event event run)

  unfoldable pub publish_pending : (batch_size : ℕ) → List OutboxEvent → Run
  publish_pending batch_size events = publish_all (fetch_due_events batch_size events) (record {
    events = events;
    calls = 0;
    attempted = [];
    skipped_not_due = 0;
    skipped_exhausted = 0;
  })

-- `run_once`: nothing is done without a webhook URL in the settings.
unfoldable pub run_once :
    Client → (webhook_url webhook_secret : String) (now : ℕ) → List OutboxEvent → Run
run_once client webhook_url webhook_secret now events =
    if str_eq webhook_url ""
    then record {
      events = events;
      calls = 0;
      attempted = [];
      skipped_not_due = 0;
      skipped_exhausted = 0;
    }
    else publish_pending client webhook_url webhook_secret default_max_attempts now
        default_batch_size events
