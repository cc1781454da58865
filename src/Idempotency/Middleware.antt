-- ===== src/Idempotency/Middleware.antt =====
-- `IdempotencyMiddleware.dispatch` (backend/app/core/idempotency.py) for POST requests with an
-- Idempotency-Key, one step from one `await` on a shared store to the next. Scoped keys and hashes are
-- numbers, times are seconds.
use vyaparaflowai.Prelude.{
  ℕ, ◌+◌, ◌*◌, Bool, true, false, not, ◌&&◌, Option, none, some, ◌==◌, leb, ltb, if◌then◌else◌,
}

-- A body that `json.loads` reads as a value other than null, or any other body.
pub data Body : Type 0 where
  json : ℕ → Body
  no_json : Body

pub record Response : Type 0 where
  pub status_code : ℕ
  pub body : Body

-- The row of a key; the key itself is the primary key of the table.
pub record IdempotencyKey : Type 0 where
  pub request_hash : ℕ
  pub response : Option ℕ
  pub status_code : Option ℕ
  pub expires_at : ℕ

pub data Answer : Type 0 where
  conflict : Answer
  replayed : (status_code content : ℕ) → Answer
  passed_on : Response → Answer
  raised : Answer

-- Where a request stands: before the look-up, the lock, the insertion, the call, the record, or the
-- release of the lock.
pub data Phase : Type 0 where
  arrived absent locked claimed failed : Phase
  responded : Response → Phase
  releasing : Answer → Phase
  answered : Answer → Phase

pub record Process : Type 0 where
  pub scoped_key : ℕ
  pub request_hash : ℕ
  pub phase : Phase

-- The table, Redis and the requests. `calls` counts for each key how often the endpoint was called.
pub record World : Type 0 where
  pub rows : ℕ → Option IdempotencyKey
  pub locks : ℕ → Bool
  pub processes : ℕ → Process
  pub calls : ℕ → ℕ
  pub now : ℕ

abbrev pub set_at {ℓ} : {A : Type ℓ} → ℕ → A → (ℕ → A) → ℕ → A
set_at key value old other = if other == key then value else old other

abbrev pub set_phase : ℕ → Phase → World → World
set_phase pid phase w = record w {
  processes = set_at pid (record (w.processes pid) { phase = phase }) w.processes;
}

-- `existing.status_code or 200`
abbrev pub status_or_200 : Option ℕ → ℕ
status_or_200 none = 200
status_or_200 (some code) = if code == 0 then 200 else code

-- What the row that is found makes of the request.
unfoldable pub look_up : (request_hash : ℕ) → Option IdempotencyKey → Phase
look_up request_hash none = absent
look_up request_hash (some row) =
    if not (row.request_hash == request_hash) then answered conflict else elim row.response [
      | none ↦ answered conflict
      | some content ↦ answered (replayed (status_or_200 row.status_code) content)
    ]

-- `LOCK_TTL_SECONDS` shows as a step by which Redis drops a lock; this is `RECORD_TTL_HOURS`.
abbrev pub placeholder : (request_hash now : ℕ) → IdempotencyKey
placeholder request_hash now = record {
  request_hash = request_hash;
  response = none;
  status_code = none;
  expires_at = now + 24 * 3600;
}

abbrev pub is_success : ℕ → Bool
is_success status = leb 200 status && ltb status 300

-- What a response makes of the row of its key, if it is still there.
unfoldable pub record_response : Response → Option IdempotencyKey → Option IdempotencyKey
record_response response none = none
record_response response (some row) =
    if is_success response.status_code
    then elim response.body [
      | json content ↦
          some (record row { response = some content; status_code = some response.status_code })
      | no_json ↦ none
    ]
    else none

-- What the endpoint does when it is called, or the commit of the insertion: it ends or it raises.
pub data Outcome : Type 0 where
  returned : Response → Outcome
  failing : Outcome

abbrev pub phase_after : Outcome → Phase
phase_after (returned response) = responded response
phase_after failing = failed

-- One step of a request. `outcome` is that of the call, or that of the insertion, whose commit may
-- fail for any reason.
unfoldable pub advance_from : Phase → (pid : ℕ) → Outcome → World → World
advance_from arrived pid outcome w =
    let p = w.processes pid in set_phase pid (look_up p.request_hash (w.rows p.scoped_key)) w
advance_from absent pid outcome w =
    let key = (w.processes pid).scoped_key in
    if w.locks key
    then set_phase pid (answered conflict) w
    else set_phase pid locked (record w { locks = set_at key true w.locks })
advance_from locked pid outcome w =
    let p = w.processes pid in
    elim (w.rows p.scoped_key) [
      | some row ↦ set_phase pid (releasing conflict) w
      | none ↦ elim outcome [
        | failing ↦ set_phase pid (releasing conflict) w
        | returned response ↦ set_phase pid claimed (record w {
          rows = set_at p.scoped_key (some (placeholder p.request_hash w.now)) w.rows;
        })
      ]
    ]
advance_from claimed pid outcome w =
    let key = (w.processes pid).scoped_key in
    set_phase pid (phase_after outcome) (record w { calls = set_at key (w.calls key + 1) w.calls })
advance_from failed pid outcome w =
    let key = (w.processes pid).scoped_key in
    set_phase pid (releasing raised) (record w { rows = set_at key none w.rows })
advance_from (responded response) pid outcome w =
    let key = (w.processes pid).scoped_key in
    set_phase pid (releasing (passed_on response))
      (record w { rows = set_at key (record_response response (w.rows key)) w.rows })
advance_from (releasing answer) pid outcome w =
    let key = (w.processes pid).scoped_key in
    set_phase pid (answered answer) (record w { locks = set_at key false w.locks })
advance_from (answered answer) pid outcome w = w

abbrev pub advance : (pid : ℕ) → Outcome → World → World
advance pid outcome w = advance_from (w.processes pid).phase pid outcome w

-- Any request takes a step, Redis drops a lock whose time is over, or time passes.
pub data Steps : World → World → Type 0 where
  stay : {w : World} → Steps w w
  by_request :
      {w w' : World} (pid : ℕ) (outcome : Outcome) → Steps (advance pid outcome w) w' → Steps w w'
  by_expiry :
      {w w' : World} (key : ℕ)
      → Steps (record w { locks = set_at key false w.locks }) w'
      → Steps w w'
  by_time :
      {w w' : World} (seconds : ℕ) → Steps (record w { now = w.now + seconds }) w' → Steps w w'
