-- ===== src/Idempotency/Exclusion.antt =====
-- Which requests are at the endpoint at once.
use vyaparaflowai.Prelude.{
  ℕ, ◌+◌, ◌≡◌, ◌≢◌, refl, sym, subst, ap, ◌∙◌, inl, inr, true, false, not, Option, none, some, ◌==◌,
  Bool-cases, Option-cases,
}
use vyaparaflowai.Idempotency.Middleware.{
  IdempotencyKey, conflict, passed_on, raised, Phase, arrived, absent, locked, claimed, failed,
  responded, releasing, answered, World, set_at, set_phase, look_up, placeholder, Outcome, returned,
  failing, phase_after, advance_from, Steps, stay, by_request, by_expiry, by_time,
}
use vyaparaflowai.Idempotency.Claims.{
  IsCalling, key_at, phase_at, IsExclusive, set_at-same, set_at-other, set_phase-IsExclusive,
}

look_up-outside :
    (request_hash : ℕ) (found : Option IdempotencyKey) → ¬ IsCalling (look_up request_hash found)
unfolding look_up
look_up-outside request_hash none c = c
look_up-outside request_hash (some row) c =
    elim (Bool-cases (not (row.request_hash == request_hash))) [
      | inl e ↦ rw (look_up, e) at c
      | inr e ↦ elim (Option-cases row.response) [
        | inl f ↦ rw (look_up, e, f) at c
        | inr (content, f) ↦ rw (look_up, e, f) at c
      ]
    ]

phase_after-IsCalling : (outcome : Outcome) → IsCalling (phase_after outcome)
phase_after-IsCalling (returned response) = tt
phase_after-IsCalling failing = tt

module _ (w : World) (pid : ℕ) (safe : IsExclusive w) where
  -- A calling request is alone with its key.
  apart_key :
      IsCalling (phase_at pid w)
      → (q : ℕ) → q ≢ pid
      → IsCalling (phase_at q w)
      → key_at q w ≢ key_at pid w
  apart_key c q apart d same = apart (safe.alone q pid d c same)

  outside-IsExclusive :
      (phase : Phase) (v : World)
      → ¬ IsCalling phase
      → v.processes ≡ w.processes
      → v.rows ≡ w.rows
      → IsExclusive (set_phase pid phase v)
  outside-IsExclusive phase v out same rows =
      set_phase-IsExclusive w v pid phase safe same
        (λ q apart c. ap (λ (f : ℕ → Option IdempotencyKey). f (key_at q w)) rows)
        (λ c. absurd (out c)) (λ c. absurd (out c))

  -- A calling request changes the row of its own key.
  own_row-IsExclusive :
      (phase : Phase) (row : Option IdempotencyKey)
      → IsCalling (phase_at pid w)
      → ¬ IsCalling phase
      → IsExclusive (set_phase pid phase (record w { rows = set_at (key_at pid w) row w.rows }))
  own_row-IsExclusive phase row calling out =
      set_phase-IsExclusive w (record w { rows = set_at (key_at pid w) row w.rows }) pid phase safe
        refl
        (λ q apart c.
          set_at-other (key_at pid w) (key_at q w) row w.rows (apart_key calling q apart c))
        (λ c. absurd (out c)) (λ c. absurd (out c))

  pub advance_from-IsExclusive :
      (phase : Phase) (outcome : Outcome)
      → phase_at pid w ≡ phase
      → IsExclusive (advance_from phase pid outcome w)
  unfolding advance_from
  advance_from-IsExclusive arrived outcome e =
      outside-IsExclusive _ w (look_up-outside _ (w.rows (key_at pid w))) refl refl
  advance_from-IsExclusive absent outcome e = elim (Bool-cases (w.locks (key_at pid w))) [
    | inl taken ↦
        rw (advance_from, taken) (outside-IsExclusive (answered conflict) w (λ c. c) refl refl)
    | inr free ↦
        rw (advance_from, free)
          (outside-IsExclusive locked (record w { locks = set_at (key_at pid w) true w.locks })
            (λ c. c) refl refl)
  ]
  advance_from-IsExclusive locked failing e = elim (Option-cases (w.rows (key_at pid w))) [
    | inr (row, found) ↦
        rw (advance_from, found) (outside-IsExclusive (releasing conflict) w (λ c. c) refl refl)
    | inl nothing ↦
        rw (advance_from, nothing) (outside-IsExclusive (releasing conflict) w (λ c. c) refl refl)
  ]
  advance_from-IsExclusive locked (returned response) e =
      elim (Option-cases (w.rows (key_at pid w))) [
        | inr (row, found) ↦
            rw (advance_from, found) (outside-IsExclusive (releasing conflict) w (λ c. c) refl refl)
        | inl nothing ↦
            let fresh =
              λ (q : ℕ) (apart : q ≢ pid) (c : IsCalling (phase_at q w))
                  (same : key_at q w ≡ key_at pid w).
                let (row, found, _, _) = safe.held q c in
                let clash : none ≡ some row = sym nothing ∙ ap w.rows (sym same) ∙ found in
                let no : ⊥ = cc in no in
            let row = placeholder (w.processes pid).request_hash w.now in
            rw (advance_from, nothing)
              (set_phase-IsExclusive w (record w { rows = set_at (key_at pid w) (some row) w.rows })
                pid claimed safe refl
                (λ q apart c.
                  set_at-other (key_at pid w) (key_at q w) (some row) w.rows (fresh q apart c))
                (λ c. (row, set_at-same (key_at pid w) (some row) w.rows, refl, refl))
                (λ c q apart d. fresh q apart d))
      ]
  advance_from-IsExclusive claimed outcome e =
      let calling = subst IsCalling (sym e) tt in
      set_phase-IsExclusive w
        (record w { calls = set_at (key_at pid w) (w.calls (key_at pid w) + 1) w.calls }) pid
        (phase_after outcome) safe refl (λ q apart c. refl) (λ c. safe.held pid calling)
        (λ c. apart_key calling)
  advance_from-IsExclusive failed outcome e =
      own_row-IsExclusive (releasing raised) none (subst IsCalling (sym e) tt) (λ c. c)
  advance_from-IsExclusive (responded response) outcome e =
      own_row-IsExclusive (releasing (passed_on response)) _ (subst IsCalling (sym e) tt) (λ c. c)
  advance_from-IsExclusive (releasing answer) outcome e =
      outside-IsExclusive (answered answer)
        (record w { locks = set_at (key_at pid w) false w.locks }) (λ c. c) refl refl
  advance_from-IsExclusive (answered answer) outcome e = safe

-- Whatever the requests, the endpoint, Redis and the clock do, no two requests with one key are ever
-- between the insertion of the row and the record of the answer, also when the lock of one has run out, if
-- this holds at first.
pub Steps-IsExclusive : {w w' : World} → Steps w w' → IsExclusive w → IsExclusive w'
Steps-IsExclusive stay safe = safe
Steps-IsExclusive (by_request {w = w} pid outcome steps) safe =
    Steps-IsExclusive steps (advance_from-IsExclusive w pid safe _ outcome refl)
Steps-IsExclusive (by_expiry key steps) safe =
    Steps-IsExclusive steps (record { held = safe.held; alone = safe.alone })
Steps-IsExclusive (by_time seconds steps) safe =
    Steps-IsExclusive steps (record { held = safe.held; alone = safe.alone })
