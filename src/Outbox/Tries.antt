-- ===== src/Outbox/Tries.antt =====
-- How often the events of a run are posted, against what their rows count.
use vyaparaflowai.Prelude.{
  ℕ, zero, suc, ◌+◌, ◌≡◌, ◌≢◌, refl, sym, ap, ◌∙◌, subst, inl, inr, true, false, List, [], ◌∷◌,
  ◌++◌, String, arith, ◌==◌, if◌then◌else◌, length, take, filter, In-filter, All, All-In, All-intro,
  In, Pairwise, total, Bool-cases,
}
use vyaparaflowai.Prelude.Sorting.{sorted, In-sorted, Pairwise-sorted}
use vyaparaflowai.Outbox.Events.{OutboxEvent, is_unpublished, is_older, fetch_due_events, save}
use vyaparaflowai.Outbox.Publisher.{
  Client, Run, PublishOutcome, tried, post_event, decision_on, attempt, publish_event, publish_all,
  publish_pending,
}
use vyaparaflowai.Outbox.Kept.{UniqueIds, In-take, publish_event-keeps}
use vyaparaflowai.Outbox.Bounds.{AreBounded, publish_pending-AreBounded}

abbrev DiffersEvent : OutboxEvent → OutboxEvent → Type 0
DiffersEvent a b = a.id ≢ b.id

-- The attempts that the row of an event counts.
abbrev pub attempts_of : ℕ → List OutboxEvent → ℕ
attempts_of id rows = total (λ (row : OutboxEvent). if row.id == id then row.attempts else 0) rows

-- The attempts of a run on an event.
abbrev pub tries_of : ℕ → List PublishOutcome → ℕ
tries_of id outcomes =
    total (λ (outcome : PublishOutcome). if outcome.event_id == id then 1 else 0) outcomes

tries_of-snoc :
    (id : ℕ) (outcomes : List PublishOutcome) (last : PublishOutcome)
    → tries_of id (outcomes ++ last ∷ [])
      ≡ tries_of id outcomes + (if last.event_id == id then 1 else 0)
tries_of-snoc id [] last = omega arith
tries_of-snoc id (o ∷ outcomes) last = omega (arith, tries_of-snoc id outcomes last)

-- Saving changes no id.
save-ids :
    (P : ℕ → Type 0) (event : OutboxEvent) (rows : List OutboxEvent)
    → All (λ (row : OutboxEvent). P row.id) rows
    → All (λ (row : OutboxEvent). P row.id) (save event rows)
unfolding save
save-ids P event [] h = tt
save-ids P event (row ∷ rows) h = elim (Bool-cases (row.id == event.id)) [
  | inl e ↦
      let same : row.id ≡ event.id = ground (arith, e) in
      rw (save, e) (subst P same h.0, save-ids P event rows h.1)
  | inr e ↦ rw (save, e) (h.0, save-ids P event rows h.1)
]

save-UniqueIds :
    (event : OutboxEvent) (rows : List OutboxEvent) → UniqueIds rows → UniqueIds (save event rows)
unfolding save
save-UniqueIds event [] h = tt
save-UniqueIds event (row ∷ rows) h = elim (Bool-cases (row.id == event.id)) [
  | inl e ↦
      let same : row.id ≡ event.id = ground (arith, e) in
      rw (save, e)
        (
          subst (λ id. All (λ (r : OutboxEvent). id ≢ r.id) (save event rows)) same
              (save-ids (λ id. row.id ≢ id) event rows h.0),
          save-UniqueIds event rows h.1,
        )
  | inr e ↦
      rw (save, e) (save-ids (λ id. row.id ≢ id) event rows h.0, save-UniqueIds event rows h.1)
]

attempts_of-absent :
    (id : ℕ) (event : OutboxEvent) (rows : List OutboxEvent)
    → All (λ (row : OutboxEvent). event.id ≢ row.id) rows
    → attempts_of id (save event rows) ≡ attempts_of id rows
unfolding save
attempts_of-absent id event [] h = refl
attempts_of-absent id event (row ∷ rows) h =
    let other : (row.id == event.id) ≡ false = ground (arith, h.0) in
    rw (save, other)
      (ap (λ n. (if row.id == id then row.attempts else 0) + n)
        (attempts_of-absent id event rows h.1))

-- Saving an event with one more attempt adds one to what its row counts.
attempts_of-save :
    (id : ℕ) (before after : OutboxEvent) (rows : List OutboxEvent)
    → after.id ≡ before.id
    → after.attempts ≡ before.attempts + 1
    → UniqueIds rows
    → In before rows
    → attempts_of id (save after rows) ≡ attempts_of id rows + (if before.id == id then 1 else 0)
unfolding save
attempts_of-save id before after [] i n unique m = absurd m
attempts_of-save id before after (row ∷ rows) i n unique (inl e) =
    let same : row.id ≡ before.id = ap (λ (r : OutboxEvent). r.id) e in
    let count : row.attempts ≡ before.attempts = ap (λ (r : OutboxEvent). r.attempts) e in
    let is_row : (row.id == after.id) ≡ true = ground (arith, same, i) in
    let later =
      attempts_of-absent id after rows
        (subst (λ k. All (λ (r : OutboxEvent). k ≢ r.id) rows) (same ∙ sym i) unique.0) in
    rw (save, is_row, later, i, n) (ground (arith, same, count))
attempts_of-save id before after (row ∷ rows) i n unique (inr m) =
    let apart = All-In (λ (r : OutboxEvent). row.id ≢ r.id) rows before unique.0 m in
    let other : (row.id == after.id) ≡ false = ground (arith, apart, i) in
    rw (save, other) (omega (arith, attempts_of-save id before after rows i n unique.1 m))

-- What some turns of the loop do to the counts.
record HasCounted (run run' : Run) : Type 0 where
  pub unique : UniqueIds run'.events
  pub counted :
      (id : ℕ)
      → attempts_of id run'.events + tries_of id run.attempted
        ≡ attempts_of id run.events + tries_of id run'.attempted
  pub called : length run'.attempted + run.calls ≡ length run.attempted + run'.calls

HasCounted-trans : (a b c : Run) → HasCounted a b → HasCounted b c → HasCounted a c
HasCounted-trans a b c h k = record {
  unique = k.unique;
  counted = λ id. omega (arith, h.counted id, k.counted id);
  called = omega (arith, h.called, k.called);
}

length-snoc :
    (xs : List PublishOutcome) (x : PublishOutcome) → length (xs ++ x ∷ []) ≡ length xs + 1
length-snoc [] x = refl
length-snoc (y ∷ xs) x = omega (arith, length-snoc xs x)

module _ (client : Client) (url secret : String) (max_attempts now : ℕ) where
  attempt-HasCounted :
      (event : OutboxEvent) (run : Run)
      → UniqueIds run.events
      → In event run.events
      → HasCounted run (attempt client url secret max_attempts now event run)
  unfolding attempt tried
  attempt-HasCounted event run unique m =
      let posted = post_event client url secret run.calls event in
      record {
        unique = save-UniqueIds (tried now posted.success event) run.events unique;
        counted = λ id. omega (
          arith,
          tries_of-snoc id run.attempted _,
          attempts_of-save id event (tried now posted.success event) run.events refl refl unique m,
        );
        called = omega (arith, length-snoc run.attempted _);
      }

  publish_event-HasCounted :
      (event : OutboxEvent) (run : Run)
      → UniqueIds run.events
      → In event run.events
      → HasCounted run (publish_event client url secret max_attempts now event run)
  unfolding publish_event
  publish_event-HasCounted event run unique m =
      elim (Bool-cases (decision_on client url secret max_attempts now event).exhausted) [
        | inl e ↦ rw e (record { unique = unique; counted = λ id. refl; called = omega arith })
        | inr e ↦
            elim (Bool-cases (decision_on client url secret max_attempts now event).eligible_now) [
              | inl due ↦ rw (e, due) (attempt-HasCounted event run unique m)
              | inr wait ↦
                  rw (e, wait)
                    (record { unique = unique; counted = λ id. refl; called = omega arith })
            ]
      ]

  later-In :
      (event : OutboxEvent) (rest : List OutboxEvent) (run : Run)
      → All (DiffersEvent event) rest
      → All (λ (e : OutboxEvent). In e run.events) rest
      → All
          (λ (e : OutboxEvent).
            In e (publish_event client url secret max_attempts now event run).events)
          rest
  later-In event [] run d h = tt
  later-In event (e ∷ rest) run d h = (
    publish_event-keeps client url secret max_attempts now event e run d.0 h.0,
    later-In event rest run d.1 h.1,
  )

  publish_all-HasCounted :
      (events : List OutboxEvent) (run : Run)
      → UniqueIds run.events
      → Pairwise DiffersEvent events
      → All (λ (e : OutboxEvent). In e run.events) events
      → HasCounted run (publish_all client url secret max_attempts now events run)
  unfolding publish_all
  publish_all-HasCounted [] run unique d h = record {
    unique = unique;
    counted = λ id. refl;
    called = omega arith;
  }
  publish_all-HasCounted (event ∷ rest) run unique d h =
      let next = publish_event client url secret max_attempts now event run in
      let first = publish_event-HasCounted event run unique h.0 in
      HasCounted-trans run next (publish_all client url secret max_attempts now rest next) first
        (publish_all-HasCounted rest next first.unique d.1 (later-In event rest run d.0 h.1))

All-filter :
    (P : OutboxEvent → Type 0) (events : List OutboxEvent)
    → All P events
    → All P (filter is_unpublished events)
All-filter P [] h = tt
All-filter P (e ∷ events) h = elim (Bool-cases (is_unpublished e)) [
  | inl u ↦ rw u (h.0, All-filter P events h.1)
  | inr u ↦ rw u (All-filter P events h.1)
]

filter-UniqueIds :
    (events : List OutboxEvent) → UniqueIds events → UniqueIds (filter is_unpublished events)
filter-UniqueIds [] h = tt
filter-UniqueIds (e ∷ events) h = elim (Bool-cases (is_unpublished e)) [
  | inl u ↦ rw u (All-filter (DiffersEvent e) events h.0, filter-UniqueIds events h.1)
  | inr u ↦ rw u (filter-UniqueIds events h.1)
]

All-take :
    (P : OutboxEvent → Type 0) (n : ℕ) (events : List OutboxEvent)
    → All P events
    → All P (take n events)
All-take P zero events h = tt
All-take P (suc n) [] h = tt
All-take P (suc n) (e ∷ events) h = (h.0, All-take P n events h.1)

take-UniqueIds : (n : ℕ) (events : List OutboxEvent) → UniqueIds events → UniqueIds (take n events)
take-UniqueIds zero events h = tt
take-UniqueIds (suc n) [] h = tt
take-UniqueIds (suc n) (e ∷ events) h =
    (All-take (DiffersEvent e) n events h.0, take-UniqueIds n events h.1)

batch-UniqueIds :
    (n : ℕ) (events : List OutboxEvent) → UniqueIds events → UniqueIds (fetch_due_events n events)
unfolding fetch_due_events
batch-UniqueIds n events h = take-UniqueIds n (sorted is_older (filter is_unpublished events)) (
    Pairwise-sorted is_older DiffersEvent (λ a b d e. d (sym e)) (filter is_unpublished events)
      (filter-UniqueIds events h))

batch-In :
    (n : ℕ) (events : List OutboxEvent)
    → All (λ (e : OutboxEvent). In e events) (fetch_due_events n events)
unfolding fetch_due_events
batch-In n events =
    All-intro (λ (e : OutboxEvent). In e events) (fetch_due_events n events)
      λ e m.
        (In-filter is_unpublished events e (
          In-sorted is_older (filter is_unpublished events) e
            (In-take n (sorted is_older (filter is_unpublished events)) e m))).0

-- In a table with unique ids in which no event has more attempts than allowed, none has after a run,
-- whatever the receiver answers, and the attempts of every event have grown by exactly the times that
-- the run posted it, each of which is one call of the receiver.
pub publish_pending-AreCounted :
    (client : Client) (url secret : String) (max_attempts now batch_size : ℕ)
    (events : List OutboxEvent)
    → UniqueIds events
    → AreBounded client url secret max_attempts now events
    → let run = publish_pending client url secret max_attempts now batch_size events in
      UniqueIds run.events
      × AreBounded client url secret max_attempts now run.events
      × ((id : ℕ) → attempts_of id run.events ≡ attempts_of id events + tries_of id run.attempted)
      × (length run.attempted ≡ run.calls)
unfolding publish_pending
publish_pending-AreCounted client url secret max_attempts now batch_size events unique bounded =
    let start : Run = record {
      events = events;
      calls = 0;
      attempted = [];
      skipped_not_due = 0;
      skipped_exhausted = 0;
    } in
    let h =
      publish_all-HasCounted client url secret max_attempts now (fetch_due_events batch_size events)
        start unique (batch-UniqueIds batch_size events unique) (batch-In batch_size events) in
    (
      h.unique,
      publish_pending-AreBounded client url secret max_attempts now batch_size events bounded,
      (λ id. omega (arith, h.counted id)),
      omega (arith, h.called),
    )
