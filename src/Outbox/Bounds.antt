-- ===== src/Outbox/Bounds.antt =====
-- What a run counts, and the bound on the attempts.
use vyaparaflowai.Prelude.{
  ℕ, ◌+◌, ◌≤◌, ◌<◌, ◌≡◌, refl, inl, inr, true, false, List, [], ◌∷◌, ◌++◌, String, arith, ◌==◌, leb,
  length, All, Bool-cases,
}
use vyaparaflowai.Outbox.Events.{OutboxEvent, fetch_due_events, save}
use vyaparaflowai.Outbox.Publisher.{
  compute_retry_decision, Client, Run, tried, decision_on, attempt, publish_event, publish_all,
  publish_pending,
}

length-snoc {ℓ} : {A : Type ℓ} (xs : List A) (x : A) → length (xs ++ x ∷ []) ≡ length xs + 1
length-snoc [] x = refl
length-snoc (y ∷ xs) x = omega (arith, length-snoc xs x)

-- The events that a run has seen.
abbrev pub seen : Run → ℕ
seen run = length run.attempted + run.skipped_not_due + run.skipped_exhausted

module _ (client : Client) (url secret : String) (max_attempts now : ℕ) where
  publish_event-seen :
      (event : OutboxEvent) (run : Run)
      → seen (publish_event client url secret max_attempts now event run) ≡ seen run + 1
  unfolding publish_event attempt
  publish_event-seen event run =
      elim (Bool-cases (decision_on client url secret max_attempts now event).exhausted) [
        | inl e ↦ rw e (omega arith)
        | inr e ↦
            elim (Bool-cases (decision_on client url secret max_attempts now event).eligible_now) [
              | inl due ↦ rw (e, due) (omega (arith, length-snoc run.attempted _))
              | inr wait ↦ rw (e, wait) (omega arith)
            ]
      ]

  publish_all-seen :
      (events : List OutboxEvent) (run : Run)
      → seen (publish_all client url secret max_attempts now events run) ≡ seen run + length events
  unfolding publish_all
  publish_all-seen [] run = omega arith
  publish_all-seen (event ∷ events) run = omega (
    arith,
    publish_event-seen event run,
    publish_all-seen events (publish_event client url secret max_attempts now event run),
  )

  -- Every event of the batch is counted once, as attempted, as not due or as exhausted.
  pub publish_pending-seen :
      (batch_size : ℕ) (events : List OutboxEvent)
      → seen (publish_pending client url secret max_attempts now batch_size events)
        ≡ length (fetch_due_events batch_size events)
  unfolding publish_pending
  publish_pending-seen batch_size events = omega (
    arith,
    publish_all-seen (fetch_due_events batch_size events) (record {
      events = events;
      calls = 0;
      attempted = [];
      skipped_not_due = 0;
      skipped_exhausted = 0;
    }),
  )

  -- No event was tried more often than allowed.
  abbrev pub AreBounded : List OutboxEvent → Type 0
  AreBounded events = All (λ (event : OutboxEvent). event.attempts ≤ max_attempts) events

  save-AreBounded :
      (event : OutboxEvent) (rows : List OutboxEvent)
      → event.attempts ≤ max_attempts
      → AreBounded rows
      → AreBounded (save event rows)
  unfolding save
  save-AreBounded event [] h bounded = tt
  save-AreBounded event (row ∷ rows) h bounded = (
    elim (Bool-cases (row.id == event.id)) [ inl e ↦ rw e h | inr e ↦ rw e bounded.0 ],
    save-AreBounded event rows h bounded.1,
  )

  not_exhausted-lt :
      (event : OutboxEvent)
      → (decision_on client url secret max_attempts now event).exhausted ≡ false
      → event.attempts < max_attempts
  unfolding compute_retry_decision
  not_exhausted-lt event h = elim (Bool-cases (leb max_attempts event.attempts)) [
    | inl e ↦ let clash : true ≡ false = rw e at h in cc
    | inr e ↦ ground (arith, e)
  ]

  publish_event-AreBounded :
      (event : OutboxEvent) (run : Run)
      → AreBounded run.events
      → AreBounded (publish_event client url secret max_attempts now event run).events
  unfolding publish_event attempt tried
  publish_event-AreBounded event run bounded =
      elim (Bool-cases (decision_on client url secret max_attempts now event).exhausted) [
        | inl e ↦ rw e bounded
        | inr e ↦
            elim (Bool-cases (decision_on client url secret max_attempts now event).eligible_now) [
              | inl due ↦
                  rw (e, due)
                    (save-AreBounded _ run.events (omega (arith, not_exhausted-lt event e)) bounded)
              | inr wait ↦ rw (e, wait) bounded
            ]
      ]

  publish_all-AreBounded :
      (events : List OutboxEvent) (run : Run)
      → AreBounded run.events
      → AreBounded (publish_all client url secret max_attempts now events run).events
  unfolding publish_all
  publish_all-AreBounded [] run bounded = bounded
  publish_all-AreBounded (event ∷ events) run bounded =
      publish_all-AreBounded events _ (publish_event-AreBounded event run bounded)

  -- If no event was tried more often than allowed, none is after a run, whatever the receiver answers.
  pub publish_pending-AreBounded :
      (batch_size : ℕ) (events : List OutboxEvent)
      → AreBounded events
      → AreBounded (publish_pending client url secret max_attempts now batch_size events).events
  unfolding publish_pending
  publish_pending-AreBounded batch_size events bounded =
      publish_all-AreBounded (fetch_due_events batch_size events) _ bounded
