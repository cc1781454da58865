-- ===== src/Approvals/Cascade.antt =====
-- What a rejection leaves of the chain.
use text.Mathlib.TextEquality.{eq_iff}
use vyaparaflowai.Prelude.{
  ℕ, ◌≡◌, refl, sym, subst, ap, ◌∙◌, inl, inr, true, false, not, ◌&&◌, Option, List, [], ◌∷◌,
  String, arith, if◌then◌else◌, In, Bool-cases, any-In, filter-In,
}
use vyaparaflowai.Prelude.Int.{ℤ}
use vyaparaflowai.Prelude.Sorting.{sorted-In}
use vyaparaflowai.Errors.{ok, err, conflict, ok-inj, Result-cases}
use vyaparaflowai.Approvals.Chain.{
  rejected, Approval, ApprovalsDb, is_open, is_rejected, is_delegated, is_same_entity, update_where,
  has_id,
}
use vyaparaflowai.Approvals.Comments.{time_or, Entity, belongs}
use vyaparaflowai.Approvals.Decisions.{
  reject, parse_decision, get_approval, decided, cascades, cascaded, decide_approval,
}
use vyaparaflowai.Approvals.Gate.{get_approval-In}
use vyaparaflowai.Approvals.Keys.{update_where-In}
use vyaparaflowai.Approvals.Status.{
  OverallStatus, get_approval_chain_status, overall_status, lower_level,
}

pub reject_returns :
    (org_id id approver_id : ℕ) (decision : String) (comment : Option String) (now : Option ℤ)
    (db db' : ApprovalsDb) (row' : Approval)
    → parse_decision decision ≡ ok reject
    → decide_approval org_id id approver_id decision comment now db ≡ ok (row', db')
    → (row : Approval) × (get_approval org_id id db.approvals ≡ ok row)
      × (is_open row.status ≡ true)
      × (row' ≡ decided rejected approver_id (time_or now db.clock) comment row)
      × (db'.approvals
          ≡ update_where (cascades row) (cascaded (time_or now db.clock)) (
              update_where
                (has_id id)
                (decided rejected approver_id (time_or now db.clock) comment)
                db.approvals))
unfolding decide_approval
reject_returns org_id id approver_id decision comment now db db' row' reads h =
    elim (Result-cases (get_approval org_id id db.approvals)) [
      | inr (e, refused) ↦
          let r : err e ≡ ok (row', db') = rw (decide_approval, reads, refused) at h in cc
      | inl (row, found) ↦ elim (Bool-cases (is_open row.status)) [
        | inr closed ↦
            let r : err conflict ≡ ok (row', db') =
              rw (decide_approval, reads, found, closed) at h in
            cc
        | inl open_ ↦
            let after = decided rejected approver_id (time_or now db.clock) comment in
            let r : ok (
              after row,
              record db {
                approvals =
                    update_where (cascades row) (cascaded (time_or now db.clock))
                      (update_where (has_id id) after db.approvals);
              },
            )
                ≡ ok (row', db') =
              rw (decide_approval, reads, found, open_) at h in
            let pair = ok-inj r in
            (row, found, open_, sym (ap (λ p. p.0) pair), sym (ap (λ p. p.1.approvals) pair))
      ]
    ]

cascade-closes :
    (approval row : Approval) (time : ℤ)
    → (has_id approval.id row ≡ true → is_open row.status ≡ false)
    → is_same_entity approval (if cascades approval row then cascaded time row else row) ≡ true
    → is_open (Approval.status (if cascades approval row then cascaded time row else row)) ≡ false
cascade-closes approval row time h same = elim (Bool-cases (cascades approval row)) [
  | inl e ↦ rw e refl
  | inr e ↦
      let same_row : is_same_entity approval row ≡ true = rw e at same in
      let closed : is_open row.status ≡ false = elim (Bool-cases (has_id approval.id row)) [
        | inl own ↦ h own
        | inr other ↦ ground (arith, e, same_row, other)
      ] in
      rw e closed
]

decided-closes :
    (id approver_id : ℕ) (time : ℤ) (comment : Option String) (old row : Approval)
    → (if has_id id old then decided rejected approver_id time comment old else old) ≡ row
    → has_id id row ≡ true
    → is_open row.status ≡ false
decided-closes id approver_id time comment old row eq own = elim (Bool-cases (has_id id old)) [
  | inl e ↦
      let at_row : decided rejected approver_id time comment old ≡ row = rw e at eq in
      subst (λ (r : Approval). is_open r.status ≡ false) at_row refl
  | inr e ↦
      let at_row : old ≡ row = rw e at eq in
      let clash : true ≡ false = sym own ∙ ap (has_id id) (sym at_row) ∙ e in cc
]

-- A rejection leaves no row of its chain open, whatever the row and the chain.
pub decide_approval-closes :
    (org_id id approver_id : ℕ) (comment : Option String) (now : Option ℤ) (db db' : ApprovalsDb)
    (row' row : Approval)
    → decide_approval org_id id approver_id "reject" comment now db ≡ ok (row', db')
    → In row db'.approvals
    → is_same_entity row' row ≡ true
    → is_open row.status ≡ false
unfolding parse_decision
decide_approval-closes org_id id approver_id comment now db db' row' row h m same =
    let (found, at_id, open_, decided_eq, eq) =
      reject_returns org_id id approver_id "reject" comment now db db' row' refl h in
    let (_, same_id, _) = get_approval-In org_id id db.approvals found at_id in
    let time = time_or now db.clock in
    let after = decided rejected approver_id time comment in
    let first = update_where (has_id id) after db.approvals in
    let (mid, mid_in, mid_eq) =
      update_where-In (cascades found) (cascaded time) first row (subst (In row) eq m) in
    let (old, _, old_eq) = update_where-In (has_id id) after db.approvals mid mid_in in
    let closed = decided-closes id approver_id time comment old mid old_eq in
    let same_found : is_same_entity found row ≡ true =
      subst (λ r. is_same_entity r row ≡ true) decided_eq same in
    subst (λ (r : Approval). is_open r.status ≡ false) mid_eq
      (cascade-closes found mid time (λ own. closed (ground (arith, own, same_id)))
        (subst (λ r. is_same_entity found r ≡ true) (sym mid_eq) same_found))

-- The entity that a row's chain is for.
abbrev pub entity_of : Approval → Entity
entity_of row = record {
  org_id = row.org_id;
  entity_type = row.entity_type;
  entity_id = row.entity_id;
}

overall_status-rejected :
    (rows : List Approval) (row : Approval)
    → In row rows
    → is_rejected row.status ≡ true
    → overall_status rows ≡ OverallStatus.rejected
unfolding overall_status
overall_status-rejected [] row m h = absurd m
overall_status-rejected (x ∷ rows) row m h =
    rw (any-In (λ (r : Approval). is_rejected r.status) (x ∷ rows) row m h) refl

-- Once a row of it is rejected, a chain is reported as rejected.
pub get_approval_chain_status-rejected :
    (db : ApprovalsDb) (row : Approval)
    → In row db.approvals
    → row.status ≡ rejected
    → (get_approval_chain_status (entity_of row) db).0 ≡ OverallStatus.rejected
unfolding get_approval_chain_status
get_approval_chain_status-rejected db row m h =
    let own : is_same_entity row row ≡ true =
      ground (arith, (eq_iff row.entity_type row.entity_type).1 refl) in
    overall_status-rejected _ row
      (sorted-In lower_level _ row (
        filter-In (λ (r : Approval). belongs (entity_of row) r && not (is_delegated r.status))
          db.approvals row m (rw (own, h) refl)))
      (rw h refl)
