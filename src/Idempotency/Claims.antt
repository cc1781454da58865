-- ===== src/Idempotency/Claims.antt =====
-- The claims of the requests on the rows of their keys.
use vyaparaflowai.Prelude.{
  ℕ, ◌≡◌, ◌≢◌, sym, subst, ap, ◌∙◌, ◌⊎◌, inl, inr, none, some, arith, ◌==◌, Bool-cases,
}
use vyaparaflowai.Idempotency.Middleware.{
  IdempotencyKey, Phase, claimed, failed, responded, Process, World, set_at, set_phase,
}

-- From the insertion of the row of its key to the record of the answer, the call of the endpoint included.
abbrev pub IsCalling : Phase → Type 0
IsCalling claimed = Unit
IsCalling failed = Unit
IsCalling (responded response) = Unit
IsCalling _ = ⊥

abbrev pub key_at : ℕ → World → ℕ
key_at pid w = (w.processes pid).scoped_key

abbrev pub phase_at : ℕ → World → Phase
phase_at pid w = (w.processes pid).phase

-- The row of a request without a response.
abbrev pub IsClaimed : Process → World → Type 0
IsClaimed p w =
    (row : IdempotencyKey) × (w.rows p.scoped_key ≡ some row)
    × (row.response ≡ none)
    × (row.request_hash ≡ p.request_hash)

-- The key of every calling request is claimed, and no two of them share one.
pub record IsExclusive (w : World) : Type 0 where
  pub held : (pid : ℕ) → IsCalling (phase_at pid w) → IsClaimed (w.processes pid) w
  pub alone :
      (p q : ℕ)
      → IsCalling (phase_at p w)
      → IsCalling (phase_at q w)
      → key_at p w ≡ key_at q w
      → p ≡ q

pub set_at-same {ℓ} :
    {A : Type ℓ} (key : ℕ) (value : A) (old : ℕ → A) → set_at key value old key ≡ value
set_at-same key value old = ground arith

pub set_at-other {ℓ} :
    {A : Type ℓ} (key other : ℕ) (value : A) (old : ℕ → A)
    → other ≢ key
    → set_at key value old other ≡ old other
set_at-other key other value old apart = ground (arith, apart)

same-or-other : (p q : ℕ) → (p ≡ q) ⊎ (p ≢ q)
same-or-other p q = elim (Bool-cases (p == q)) [
  | inl e ↦ inl (ground (arith, e))
  | inr e ↦ inr (λ same. ground (arith, e, same))
]

-- A step of one request to a phase, which leaves the rows of the other calling requests.
module _ (w w' : World) (pid : ℕ) (safe : IsExclusive w) (same_key : key_at pid w' ≡ key_at pid w)
    (others : (q : ℕ) → q ≢ pid → w'.processes q ≡ w.processes q)
    (rows : (q : ℕ)
      → q ≢ pid
      → IsCalling (phase_at q w)
      → w'.rows (key_at q w) ≡ w.rows (key_at q w))
    (claims : IsCalling (phase_at pid w') → IsClaimed (w'.processes pid) w')
    (single : IsCalling (phase_at pid w')
      → (q : ℕ) → q ≢ pid
      → IsCalling (phase_at q w)
      → key_at q w ≢ key_at pid w) where
  was-IsCalling : (q : ℕ) → q ≢ pid → IsCalling (phase_at q w') → IsCalling (phase_at q w)
  was-IsCalling q apart c = subst (λ (p : Process). IsCalling p.phase) (others q apart) c

  same_key_of : (q : ℕ) → q ≢ pid → key_at q w' ≡ key_at q w
  same_key_of q apart = ap (λ (p : Process). p.scoped_key) (others q apart)

  pub step-IsExclusive : IsExclusive w'
  step-IsExclusive = record {
    held = λ q c. elim (same-or-other q pid) [
      | inl e ↦
          subst (λ p. IsClaimed (w'.processes p) w') (sym e)
            (claims (subst (λ p. IsCalling (phase_at p w')) e c))
      | inr apart ↦
          let before = was-IsCalling q apart c in
          let (row, found, empty, same_hash) = safe.held q before in
          (
            row,
            ap w'.rows (same_key_of q apart) ∙ rows q apart before ∙ found,
            empty,
            same_hash ∙ sym (ap (λ (p : Process). p.request_hash) (others q apart)),
          )
    ];
    alone = λ p q c d same. elim (same-or-other p pid) [
      | inl e ↦ elim (same-or-other q pid) [
        | inl f ↦ e ∙ sym f
        | inr apart ↦ absurd (
            single (subst (λ r. IsCalling (phase_at r w')) e c) q apart (was-IsCalling q apart d)
              (sym (same_key_of q apart) ∙ sym same ∙ ap (λ r. key_at r w') e ∙ same_key))
      ]
      | inr apart_p ↦ elim (same-or-other q pid) [
        | inl f ↦ absurd (
            single (subst (λ r. IsCalling (phase_at r w')) f d) p apart_p
              (was-IsCalling p apart_p c)
              (sym (same_key_of p apart_p) ∙ same ∙ ap (λ r. key_at r w') f ∙ same_key))
        | inr apart_q ↦
            safe.alone p q (was-IsCalling p apart_p c) (was-IsCalling q apart_q d)
              (sym (same_key_of p apart_p) ∙ same ∙ same_key_of q apart_q)
      ]
    ];
  }

-- `set_phase` after a change of the rows, the locks or the counts.
module _ (w v : World) (pid : ℕ) (phase : Phase) (safe : IsExclusive w)
    (same : v.processes ≡ w.processes)
    (rows : (q : ℕ)
      → q ≢ pid
      → IsCalling (phase_at q w)
      → v.rows (key_at q w) ≡ w.rows (key_at q w))
    (claims : IsCalling phase → IsClaimed (w.processes pid) v)
    (single : IsCalling phase
      → (q : ℕ) → q ≢ pid
      → IsCalling (phase_at q w)
      → key_at q w ≢ key_at pid w) where
  set_phase-at : (set_phase pid phase v).processes pid ≡ record (v.processes pid) { phase = phase }
  set_phase-at = set_at-same pid (record (v.processes pid) { phase = phase }) v.processes

  pub set_phase-IsExclusive : IsExclusive (set_phase pid phase v)
  set_phase-IsExclusive =
      let same_phase = ap (λ (p : Process). p.phase) set_phase-at in
      let same_key : key_at pid (set_phase pid phase v) ≡ key_at pid w =
        ap (λ (p : Process). p.scoped_key) set_phase-at
        ∙ ap (λ (f : ℕ → Process). (f pid).scoped_key) same in
      step-IsExclusive w (set_phase pid phase v) pid safe same_key
        (λ q apart.
          set_at-other pid q (record (v.processes pid) { phase = phase }) v.processes apart
          ∙ ap (λ (f : ℕ → Process). f q) same)
        rows
        (λ c.
          let same_process : (set_phase pid phase v).processes pid
              ≡ record (w.processes pid) { phase = phase } =
            set_phase-at ∙ ap (λ (f : ℕ → Process). record (f pid) { phase = phase }) same in
          subst (λ p. IsClaimed p v) (sym same_process) (claims (subst IsCalling same_phase c)))
        (λ c. single (subst IsCalling same_phase c))
