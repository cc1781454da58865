-- ===== src/Outbox/Starved.antt =====
-- Exhausted events at the head of the queue (`fetch_due_events` and `publish_pending`).
use vyaparaflowai.Prelude.{
  ℕ, zero, suc, ◌≤◌, ◌<◌, ◌≡◌, refl, ◌∙◌, inl, inr, Bool, true, false, List, [], ◌∷◌, String, arith,
  leb, if◌then◌else◌, take, filter, In-filter, All, All-In, In, total, Bool-cases,
}
use vyaparaflowai.Prelude.Sorting.{sorted, In-sorted, total-sorted, IsAscending, sorted-IsAscending}
use vyaparaflowai.Outbox.Events.{OutboxEvent, is_unpublished, is_older, fetch_due_events}
use vyaparaflowai.Outbox.Publisher.{Client, publish_pending}
use vyaparaflowai.Outbox.Kept.{publish_pending-exhausted}

-- An event that has used up its attempts.
abbrev pub is_exhausted : (max_attempts : ℕ) → OutboxEvent → Bool
is_exhausted max_attempts event = leb max_attempts event.attempts

-- The unpublished events that have used up their attempts.
abbrev pub stuck_count : (max_attempts : ℕ) → List OutboxEvent → ℕ
stuck_count max_attempts events =
    total
      (λ (event : OutboxEvent).
        if is_unpublished event then (if is_exhausted max_attempts event then 1 else 0) else 0)
      events

total-filter :
    (f : OutboxEvent → ℕ) (events : List OutboxEvent)
    → total f (filter is_unpublished events)
      ≡ total (λ (event : OutboxEvent). if is_unpublished event then f event else 0) events
total-filter f [] = refl
total-filter f (event ∷ events) = elim (Bool-cases (is_unpublished event)) [
  | inl e ↦ rw e (omega (arith, total-filter f events))
  | inr e ↦ rw e (omega (arith, total-filter f events))
]

module _ (max_attempts : ℕ) where
  counted : List OutboxEvent → ℕ
  counted events =
      total (λ (event : OutboxEvent). if is_exhausted max_attempts event then 1 else 0) events

  counted-In :
      (events : List OutboxEvent)
      → 0 < counted events
      → (event : OutboxEvent) × In event events × (is_exhausted max_attempts event ≡ true)
  unfolding counted
  counted-In [] h = absurd (omega (arith, h))
  counted-In (event ∷ events) h = elim (Bool-cases (is_exhausted max_attempts event)) [
    | inl e ↦ (event, inl refl, e)
    | inr e ↦
        let rest : 0 < counted events = ground (arith, h, e) in
        let (found, m, exhausted) = counted-In events rest in (found, inr m, exhausted)
  ]

  -- Of a list in order whose exhausted events are older than the others, the first are exhausted.
  take-exhausted :
      (n : ℕ) (events : List OutboxEvent)
      → IsAscending is_older events
      → ((a b : OutboxEvent)
          → In a events
          → In b events
          → is_exhausted max_attempts a ≡ true
          → is_exhausted max_attempts b ≡ false
          → a.created_at < b.created_at)
      → n ≤ counted events
      → All (λ (event : OutboxEvent). max_attempts ≤ event.attempts) (take n events)
  unfolding counted
  take-exhausted zero events up older enough = tt
  take-exhausted (suc n) [] up older enough = absurd (omega (arith, enough))
  take-exhausted (suc n) (event ∷ events) up older enough =
      elim (Bool-cases (is_exhausted max_attempts event)) [
        | inl e ↦ (
          ground (arith, e),
          take-exhausted n events up.1 (λ a b m k. older a b (inr m) (inr k))
              (ground (arith, enough, e)),
        )
        | inr e ↦
            let some_left : 0 < counted events = ground (arith, enough, e) in
            let (found, m, exhausted) = counted-In events some_left in
            let before =
              All-In (λ (later : OutboxEvent). is_older event later ≡ true) events found up.0 m in
            let after = older found event (inr m) (inl refl) exhausted e in
            absurd (ground (arith, before, after))
      ]

  batch-exhausted :
      (batch_size : ℕ) (events : List OutboxEvent)
      → batch_size ≤ stuck_count max_attempts events
      → ((a b : OutboxEvent)
          → In a events
          → In b events
          → is_unpublished a ≡ true
          → is_unpublished b ≡ true
          → is_exhausted max_attempts a ≡ true
          → is_exhausted max_attempts b ≡ false
          → a.created_at < b.created_at)
      → All
          (λ (event : OutboxEvent). max_attempts ≤ event.attempts)
          (fetch_due_events batch_size events)
  unfolding fetch_due_events counted
  batch-exhausted batch_size events enough older =
      let rows = filter is_unpublished events in
      let row = λ (e : OutboxEvent). λ (m : In e (sorted is_older rows)).
        In-filter is_unpublished events e (In-sorted is_older rows e m) in
      let measure = λ (event : OutboxEvent). if is_exhausted max_attempts event then 1 else 0 in
      let same = total-sorted is_older measure rows ∙ total-filter measure events in
      take-exhausted batch_size (sorted is_older rows)
        (sorted-IsAscending is_older (λ x y h. ground (arith, h))
          (λ x y z h k. ground (arith, h, k)) rows)
        (λ a b m k. older a b (row a m).0 (row b k).0 (row a m).1 (row b k).1)
        (omega (arith, enough, same))

-- While at least as many unpublished events are exhausted as a batch takes, and they are older than
-- the other unpublished ones, a run does nothing, at any time: no event is posted, and the table stays
-- as it is, with the newer events in it.
pub publish_pending-starved :
    (client : Client) (url secret : String) (max_attempts now batch_size : ℕ)
    (events : List OutboxEvent)
    → batch_size ≤ stuck_count max_attempts events
    → ((a b : OutboxEvent)
        → In a events
        → In b events
        → is_unpublished a ≡ true
        → is_unpublished b ≡ true
        → is_exhausted max_attempts a ≡ true
        → is_exhausted max_attempts b ≡ false
        → a.created_at < b.created_at)
    → let run = publish_pending client url secret max_attempts now batch_size events in
      (run.calls ≡ 0) × (run.attempted ≡ []) × (run.events ≡ events)
publish_pending-starved client url secret max_attempts now batch_size events enough older =
    publish_pending-exhausted client url secret max_attempts now batch_size events
      (batch-exhausted max_attempts batch_size events enough older)
