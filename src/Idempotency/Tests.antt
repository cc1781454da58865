-- ===== src/Idempotency/Tests.antt =====
-- The theorems on idempotency keys at a concrete retry.
use vyaparaflowai.Prelude.{
  ℕ, ◌+◌, ◌≡◌, refl, sym, ◌∙◌, inl, inr, false, none, some, arith, ◌==◌, if◌then◌else◌, Bool-cases,
}
use vyaparaflowai.Idempotency.Middleware.{
  json, Response, Phase, arrived, responded, answered, conflict, replayed, World, set_at,
  placeholder, Outcome, failing, advance_from, advance, stay, by_request, by_expiry, by_time,
}
use vyaparaflowai.Idempotency.Claims.{IsCalling, phase_at, key_at, IsExclusive}
use vyaparaflowai.Idempotency.Exclusion.{Steps-IsExclusive}
use vyaparaflowai.Idempotency.Replay.{dispatch-replays}

-- Before anything: no row, no lock and only requests that have just arrived.
abbrev quiet : World
quiet = record {
  rows = λ key. none;
  locks = λ key. false;
  processes = λ pid. record { scoped_key = 4; request_hash = 9; phase = arrived };
  calls = λ key. 0;
  now = 100;
}

quiet-IsExclusive : IsExclusive quiet
quiet-IsExclusive = record { held = λ pid c. absurd c; alone = λ p q c d e. absurd c }

-- Two requests with one key look it up, the lock of the first runs out, and both go on.
Steps-IsExclusive_example : IsExclusive (
    advance 1 failing (record (advance 0 failing (advance 1 failing (advance 0 failing quiet))) {
      locks =
          set_at 4 false (advance 0 failing (advance 1 failing (advance 0 failing quiet))).locks;
    }))
Steps-IsExclusive_example =
    Steps-IsExclusive {w = quiet}
      (by_request 0 failing
        (by_request 1 failing (by_request 0 failing (by_expiry 4 (by_request 1 failing stay)))))
      quiet-IsExclusive

abbrev created : Response
created = record { status_code = 201; body = json 77 }

-- The first request has its answer, and the second has just arrived.
abbrev phase_of : ℕ → Phase
phase_of pid = if pid == 0 then responded created else arrived

abbrev busy : World
busy = record {
  rows = set_at 4 (some (placeholder 9 100)) (λ key. none);
  locks = λ key. false;
  processes = λ pid. record { scoped_key = 4; request_hash = 9; phase = phase_of pid };
  calls = λ key. 1;
  now = 101;
}

busy-first : (pid : ℕ) → IsCalling (phase_of pid) → pid ≡ 0
busy-first pid c = elim (Bool-cases (pid == 0)) [
  | inl e ↦ ground (arith, e)
  | inr e ↦ absurd (rw e at c)
]

busy-IsExclusive : IsExclusive busy
busy-IsExclusive = record {
  held = λ pid c. (placeholder 9 100, refl, refl, refl);
  alone = λ p q c d e. busy-first p c ∙ sym (busy-first q d);
}

-- A day and an hour later.
abbrev next_day : World
next_day = record (advance 0 failing busy) { now = (advance 0 failing busy).now + 90000 }

dispatch-replays_example :
    (next_day.calls 4 ≡ 1)
    × ((q : ℕ) (later : Outcome)
        → key_at q next_day ≡ 4
        → phase_at q next_day ≡ arrived
        → phase_at q (advance q later next_day)
          ≡ answered
              (if 9 == (next_day.processes q).request_hash then replayed 201 77 else conflict))
unfolding advance_from
dispatch-replays_example =
    dispatch-replays busy next_day 0 created 77 failing busy-IsExclusive refl refl refl
      (by_time 90000 stay)
