-- ===== src/Outbox/Backoff.antt =====
-- The retry rule of the worker.
use native.Mathlib.Omega.{pow_step}
use vyaparaflowai.Prelude.{
  ℕ, zero, suc, ◌+◌, ◌*◌, ◌^◌, ◌≤◌, ◌<◌, ◌≡◌, ap, false, some, arith, leb, ltb, if◌then◌else◌,
}
use vyaparaflowai.Outbox.Publisher.{delay_seconds, compute_retry_decision}

doubling : (base k : ℕ) → base * 2 ^ suc k ≡ 2 * (base * 2 ^ k)
doubling base k = omega (arith, ap (λ p. base * p) (pow_step 2 k))

base-le : (base k : ℕ) → base ≤ base * 2 ^ k
base-le base zero = omega arith
base-le base (suc k) = omega (arith, doubling base k, base-le base k)

-- After at least one attempt, the backoff after one more is at least as long.
pub delay_seconds-grows :
    (attempts base_seconds max_seconds : ℕ)
    → 0 < attempts
    → delay_seconds attempts base_seconds max_seconds
      ≤ delay_seconds (attempts + 1) base_seconds max_seconds
unfolding delay_seconds
delay_seconds-grows zero base_seconds max_seconds h = omega arith
delay_seconds-grows (suc k) base_seconds max_seconds h = ground (arith, doubling base_seconds k)

-- An event that was tried before and is not exhausted is due after a wait between the base delay (or
-- the cap, if that is shorter) and the cap, and is tried again exactly from then on.
pub compute_retry_decision-due :
    (attempts last now max_attempts base_seconds max_seconds : ℕ)
    → 0 < attempts
    → attempts < max_attempts
    → let decision =
        compute_retry_decision attempts (some last) now max_attempts base_seconds max_seconds in
      (due : ℕ) × (decision
        ≡ record { eligible_now = leb due now; exhausted = false; next_attempt_due = some due })
      × ((if leb base_seconds max_seconds then base_seconds else max_seconds) + last ≤ due)
      × (due ≤ last + max_seconds)
unfolding compute_retry_decision delay_seconds
compute_retry_decision-due zero last now max_attempts base_seconds max_seconds some_tried left =
    let no : ⊥ = omega arith in absurd no
compute_retry_decision-due (suc k) last now max_attempts base_seconds max_seconds some_tried left =
    let delay = base_seconds * 2 ^ k in
    (
      last + (if ltb max_seconds delay then max_seconds else delay),
      ground arith,
      ground (arith, base-le base_seconds k),
      ground arith,
    )
