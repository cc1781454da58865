-- ===== src/Idempotency/Replay.antt =====
-- What becomes of a recorded answer.
use vyaparaflowai.Prelude.{
  ℕ, ◌≡◌, ◌≢◌, refl, sym, subst, ap, ◌∙◌, inl, inr, true, false, none, some, arith, ◌==◌,
  if◌then◌else◌, Bool-cases, Option-cases,
}
use vyaparaflowai.Idempotency.Middleware.{
  json, Response, IdempotencyKey, conflict, replayed, Phase, arrived, absent, locked, claimed,
  failed, responded, releasing, answered, Process, World, look_up, is_success, record_response,
  Outcome, returned, failing, advance_from, advance, Steps, stay, by_request, by_expiry, by_time,
}
use vyaparaflowai.Idempotency.Claims.{
  IsCalling, key_at, phase_at, IsExclusive, set_at-same, set_at-other,
}
use vyaparaflowai.Idempotency.Exclusion.{advance_from-IsExclusive}

-- What stands recorded for a key, and how often the endpoint was called for it.
pub record IsKept (key : ℕ) (row : IdempotencyKey) (calls : ℕ) (w : World) : Type 0 where
  pub stored : w.rows key ≡ some row
  pub counted : w.calls key ≡ calls

module _ (key : ℕ) (row : IdempotencyKey) (content : ℕ) (recorded : row.response ≡ some content)
    (calls : ℕ) where
  -- A calling request has another key.
  other_key :
      (w : World) (pid : ℕ)
      → IsExclusive w
      → IsKept key row calls w
      → IsCalling (phase_at pid w)
      → key ≢ key_at pid w
  other_key w pid safe kept c same =
      let (claim, found, empty, _) = safe.held pid c in
      let both : some row ≡ some claim = sym kept.stored ∙ ap w.rows same ∙ found in
      let one : row ≡ claim = cc in
      let clash : some content ≡ none =
        sym recorded ∙ ap (λ (r : IdempotencyKey). r.response) one ∙ empty in
      cc

  advance_from-IsKept :
      (w : World) (pid : ℕ) (phase : Phase) (outcome : Outcome)
      → IsExclusive w
      → phase_at pid w ≡ phase
      → IsKept key row calls w
      → IsKept key row calls (advance_from phase pid outcome w)
  unfolding advance_from
  advance_from-IsKept w pid arrived outcome safe e kept = record {
    stored = kept.stored;
    counted = kept.counted;
  }
  advance_from-IsKept w pid absent outcome safe e kept =
      elim (Bool-cases (w.locks (key_at pid w))) [
        | inl taken ↦
            rw (advance_from, taken) (record { stored = kept.stored; counted = kept.counted })
        | inr free ↦
            rw (advance_from, free) (record { stored = kept.stored; counted = kept.counted })
      ]
  advance_from-IsKept w pid locked failing safe e kept =
      elim (Option-cases (w.rows (key_at pid w))) [
        | inr (other, found) ↦
            rw (advance_from, found) (record { stored = kept.stored; counted = kept.counted })
        | inl nothing ↦
            rw (advance_from, nothing) (record { stored = kept.stored; counted = kept.counted })
      ]
  advance_from-IsKept w pid locked (returned response) safe e kept =
      elim (Option-cases (w.rows (key_at pid w))) [
        | inr (other, found) ↦
            rw (advance_from, found) (record { stored = kept.stored; counted = kept.counted })
        | inl nothing ↦
            let apart = λ (same : key ≡ key_at pid w).
              let clash : some row ≡ none = sym kept.stored ∙ ap w.rows same ∙ nothing in
              let no : ⊥ = cc in no in
            rw (advance_from, nothing)
              (record {
                stored = set_at-other (key_at pid w) key _ w.rows apart ∙ kept.stored;
                counted = kept.counted;
              })
      ]
  advance_from-IsKept w pid claimed outcome safe e kept =
      let apart = other_key w pid safe kept (subst IsCalling (sym e) tt) in
      record {
        stored = kept.stored;
        counted = set_at-other (key_at pid w) key _ w.calls apart ∙ kept.counted;
      }
  advance_from-IsKept w pid failed outcome safe e kept =
      let apart = other_key w pid safe kept (subst IsCalling (sym e) tt) in
      record {
        stored = set_at-other (key_at pid w) key none w.rows apart ∙ kept.stored;
        counted = kept.counted;
      }
  advance_from-IsKept w pid (responded response) outcome safe e kept =
      let apart = other_key w pid safe kept (subst IsCalling (sym e) tt) in
      record {
        stored = set_at-other (key_at pid w) key _ w.rows apart ∙ kept.stored;
        counted = kept.counted;
      }
  advance_from-IsKept w pid (releasing answer) outcome safe e kept = record {
    stored = kept.stored;
    counted = kept.counted;
  }
  advance_from-IsKept w pid (answered answer) outcome safe e kept = kept

  Steps-IsKept :
      {w w' : World} → Steps w w' → IsExclusive w → IsKept key row calls w → IsKept key row calls w'
  Steps-IsKept stay safe kept = kept
  Steps-IsKept (by_request {w = w} pid outcome steps) safe kept =
      Steps-IsKept steps (advance_from-IsExclusive w pid safe _ outcome refl)
        (advance_from-IsKept w pid _ outcome safe refl kept)
  Steps-IsKept (by_expiry k steps) safe kept =
      Steps-IsKept steps (record { held = safe.held; alone = safe.alone })
        (record { stored = kept.stored; counted = kept.counted })
  Steps-IsKept (by_time seconds steps) safe kept =
      Steps-IsKept steps (record { held = safe.held; alone = safe.alone })
        (record { stored = kept.stored; counted = kept.counted })

-- The row after the record of a success.
abbrev pub recorded_row : (content status : ℕ) → IdempotencyKey → IdempotencyKey
recorded_row content status row = record row { response = some content; status_code = some status }

record_response-success :
    (response : Response) (content : ℕ) (row : IdempotencyKey)
    → is_success response.status_code ≡ true
    → response.body ≡ json content
    → record_response response (some row) ≡ some (recorded_row content response.status_code row)
unfolding record_response
record_response-success response content row success body = rw (record_response, success, body) refl

look_up-recorded :
    (hash content status : ℕ) (row : IdempotencyKey)
    → is_success status ≡ true
    → look_up hash (some (recorded_row content status row))
      ≡ answered (if row.request_hash == hash then replayed status content else conflict)
unfolding look_up
look_up-recorded hash content status row success = elim (Bool-cases (row.request_hash == hash)) [
  | inr e ↦ rw (look_up, e) refl
  | inl e ↦
      let nonzero : (status == 0) ≡ false = ground (arith, success) in rw (look_up, e, nonzero) refl
]

look_up-arrived :
    (w : World) (q : ℕ) (outcome : Outcome)
    → phase_at q w ≡ arrived
    → phase_at q (advance q outcome w) ≡ look_up (w.processes q).request_hash (w.rows (key_at q w))
unfolding advance_from
look_up-arrived w q outcome at =
    let seen = look_up (w.processes q).request_hash (w.rows (key_at q w)) in
    subst (λ phase. phase_at q (advance_from phase q outcome w) ≡ seen) (sym at)
      (ap (λ (p : Process). p.phase)
        (set_at-same q (record (w.processes q) { phase = seen }) w.processes))

module _ (w w' : World) (pid : ℕ) (response : Response) (content : ℕ) (outcome : Outcome) where
  -- In a world where no two requests of one key are calling, once a success with a JSON body other than null is
  -- recorded for a key, the endpoint is not called for the key again, and every later request with the
  -- key is given that answer if its body has the same hash, and a conflict otherwise, however much
  -- time has passed.
  pub dispatch-replays :
      IsExclusive w
      → phase_at pid w ≡ responded response
      → is_success response.status_code ≡ true
      → response.body ≡ json content
      → Steps (advance pid outcome w) w'
      → (w'.calls (key_at pid w) ≡ w.calls (key_at pid w))
        × ((q : ℕ) (later : Outcome)
            → key_at q w' ≡ key_at pid w
            → phase_at q w' ≡ arrived
            → phase_at q (advance q later w')
              ≡ answered (
                  if (w.processes pid).request_hash == (w'.processes q).request_hash
                  then replayed response.status_code content
                  else conflict))
  unfolding advance_from
  dispatch-replays safe at success body steps =
      let key = key_at pid w in
      let (row, found, _, same_hash) = safe.held pid (subst IsCalling (sym at) tt) in
      let done = recorded_row content response.status_code row in
      let after = advance_from-IsExclusive w pid safe (phase_at pid w) outcome refl in
      let start : IsKept key done (w.calls key) (advance pid outcome w) =
        subst (λ phase. IsKept key done (w.calls key) (advance_from phase pid outcome w)) (sym at)
          (record {
            stored =
                set_at-same key (record_response response (w.rows key)) w.rows
                ∙ ap (record_response response) found
                ∙ record_response-success response content row success body;
            counted = refl;
          }) in
      let kept = Steps-IsKept key done content refl (w.calls key) steps after start in
      (
        kept.counted,
        λ q later same arrived_now.
            let hash = (w'.processes q).request_hash in
            let seen : w'.rows (key_at q w') ≡ some done = ap w'.rows same ∙ kept.stored in
            look_up-arrived w' q later arrived_now
            ∙ ap (look_up hash) seen
            ∙ look_up-recorded hash content response.status_code row success
            ∙ ap
                (λ h.
                  answered (if h == hash then replayed response.status_code content else conflict))
                same_hash,
      )
