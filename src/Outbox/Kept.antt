-- ===== src/Outbox/Kept.antt =====
-- What a run leaves as it is.
use mathlib.Core.Bool.{true≢false}
use vyaparaflowai.Prelude.{
  same_key-eq, ℕ, zero, suc, ◌+◌, ◌≤◌, ◌≡◌, ◌≢◌, refl, sym, ap, ◌∙◌, inl, inr, true, false, List,
  [], ◌∷◌, String, arith, ◌==◌, leb, length, take, In-filter, All, In, Pairwise, Bool-cases,
}
use vyaparaflowai.Prelude.Sorting.{In-sorted}
use vyaparaflowai.Outbox.Events.{OutboxEvent, is_unpublished, is_older, fetch_due_events, save}
use vyaparaflowai.Outbox.Publisher.{
  compute_retry_decision, Client, Run, tried, decision_on, attempt, publish_event, publish_all,
  publish_pending,
}

abbrev pub UniqueIds : List OutboxEvent → Type 0
UniqueIds events = Pairwise (λ (a b : OutboxEvent). a.id ≢ b.id) events

-- A row that no event of the batch has the id of.
abbrev pub IsOutside : OutboxEvent → List OutboxEvent → Type 0
IsOutside row events = (event : OutboxEvent) → In event events → event.id ≢ row.id

save-In :
    (event row : OutboxEvent) (rows : List OutboxEvent)
    → event.id ≢ row.id
    → In row rows
    → In row (save event rows)
unfolding save
save-In event row [] h m = m
save-In event row (x ∷ rows) h (inl e) = elim (Bool-cases (x.id == event.id)) [
  | inl same ↦ absurd (h (sym (ground (arith, same)) ∙ ap (λ (r : OutboxEvent). r.id) e))
  | inr other ↦ rw other (inl e)
]
save-In event row (x ∷ rows) h (inr m) = inr (save-In event row rows h m)

pub In-take : (n : ℕ) (xs : List OutboxEvent) (a : OutboxEvent) → In a (take n xs) → In a xs
In-take zero xs a m = absurd m
In-take (suc n) [] a m = m
In-take (suc n) (x ∷ xs) a (inl e) = inl e
In-take (suc n) (x ∷ xs) a (inr m) = inr (In-take n xs a m)

published-IsOutside :
    (batch_size : ℕ) (events : List OutboxEvent) (row : OutboxEvent)
    → UniqueIds events
    → In row events
    → is_unpublished row ≡ false
    → IsOutside row (fetch_due_events batch_size events)
unfolding fetch_due_events
published-IsOutside batch_size events row unique m published event chosen same_id =
    let (old, unpublished) =
      In-filter is_unpublished events event
        (In-sorted is_older _ event (In-take batch_size _ event chosen)) in
    let eq : event ≡ row =
      same_key-eq (λ (r : OutboxEvent). r.id) events event row unique old m same_id in
    let clash : true ≡ false = sym unpublished ∙ ap is_unpublished eq ∙ published in
    true≢false clash

module _ (client : Client) (url secret : String) (max_attempts now : ℕ) where
  pub publish_event-keeps :
      (event row : OutboxEvent) (run : Run)
      → event.id ≢ row.id
      → In row run.events
      → In row (publish_event client url secret max_attempts now event run).events
  unfolding publish_event attempt tried
  publish_event-keeps event row run apart m =
      elim (Bool-cases (decision_on client url secret max_attempts now event).exhausted) [
        | inl e ↦ rw e m
        | inr e ↦
            elim (Bool-cases (decision_on client url secret max_attempts now event).eligible_now) [
              | inl due ↦ rw (e, due) (save-In _ row run.events apart m)
              | inr wait ↦ rw (e, wait) m
            ]
      ]

  publish_all-keeps :
      (events : List OutboxEvent) (row : OutboxEvent) (run : Run)
      → IsOutside row events
      → In row run.events
      → In row (publish_all client url secret max_attempts now events run).events
  unfolding publish_all
  publish_all-keeps [] row run outside m = m
  publish_all-keeps (event ∷ events) row run outside m =
      publish_all-keeps events row _ (λ e n. outside e (inr n))
        (publish_event-keeps event row run (outside event (inl refl)) m)

  exhausted-skipped :
      (event : OutboxEvent) (run : Run)
      → max_attempts ≤ event.attempts
      → publish_event client url secret max_attempts now event run
        ≡ record run { skipped_exhausted = run.skipped_exhausted + 1 }
  unfolding publish_event compute_retry_decision
  exhausted-skipped event run h =
      let e : leb max_attempts event.attempts ≡ true = ground (arith, h) in rw e refl

  publish_all-exhausted :
      (events : List OutboxEvent) (run : Run)
      → All (λ (event : OutboxEvent). max_attempts ≤ event.attempts) events
      → publish_all client url secret max_attempts now events run
        ≡ record run { skipped_exhausted = run.skipped_exhausted + length events }
  unfolding publish_all
  publish_all-exhausted [] run h = ap (λ n. record run { skipped_exhausted = n }) (omega arith)
  publish_all-exhausted (event ∷ events) run h =
      ap (publish_all client url secret max_attempts now events) (exhausted-skipped event run h.0)
      ∙ publish_all-exhausted events (record run { skipped_exhausted = run.skipped_exhausted + 1 })
          h.1
      ∙ ap (λ n. record run { skipped_exhausted = n }) (omega arith)

  -- While the oldest unpublished events, as many as a batch takes, are exhausted, a run does nothing,
  -- at any time: no event is posted, and the table stays as it is, with the newer events in it.
  pub publish_pending-exhausted :
      (batch_size : ℕ) (events : List OutboxEvent)
      → All
          (λ (event : OutboxEvent). max_attempts ≤ event.attempts)
          (fetch_due_events batch_size events)
      → let run = publish_pending client url secret max_attempts now batch_size events in
        (run.calls ≡ 0) × (run.attempted ≡ []) × (run.events ≡ events)
  unfolding publish_pending
  publish_pending-exhausted batch_size events h =
      let eq =
        publish_all-exhausted (fetch_due_events batch_size events)
          (record {
            events = events;
            calls = 0;
            attempted = [];
            skipped_not_due = 0;
            skipped_exhausted = 0;
          })
          h in
      (
        ap (λ (run : Run). run.calls) eq,
        ap (λ (run : Run). run.attempted) eq,
        ap (λ (run : Run). run.events) eq,
      )

  -- With unique ids, a published event stays in the table as it is: it is not posted again and no
  -- attempt is counted.
  pub publish_pending-keeps :
      (batch_size : ℕ) (events : List OutboxEvent) (row : OutboxEvent)
      → UniqueIds events
      → In row events
      → is_unpublished row ≡ false
      → In row (publish_pending client url secret max_attempts now batch_size events).events
  unfolding publish_pending
  publish_pending-keeps batch_size events row unique m published =
      publish_all-keeps (fetch_due_events batch_size events) row _
        (published-IsOutside batch_size events row unique m published) m
