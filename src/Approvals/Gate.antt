-- ===== src/Approvals/Gate.antt =====
-- What `decide_approval` asks before it approves.
use vyaparaflowai.Prelude.{
  ℕ, ◌<◌, ◌≡◌, refl, sym, subst, ap, ◌∙◌, inl, inr, true, false, Option, List, String, arith, ◌==◌,
  lt→ltb, if◌then◌else◌, any, find, find-In, any-In, any-none, In, Bool-cases, Option-cases,
}
use vyaparaflowai.Prelude.Int.{ℤ}
use vyaparaflowai.Errors.{ok, err, conflict, not_found, ok-inj, Result-cases}
use vyaparaflowai.Approvals.Chain.{
  ApprovalStatus, pending, approved, rejected, delegated, escalated, Approval, ApprovalsDb, is_open,
  is_approved, is_same_entity, update_where, has_id,
}
use vyaparaflowai.Approvals.Comments.{time_or}
use vyaparaflowai.Approvals.Decisions.{
  approve, parse_decision, get_approval, blocks, decided, decide_approval,
}

-- Every earlier level of the chain is approved.
abbrev pub AreApprovedBefore : Approval → List Approval → Type 0
AreApprovedBefore approval rows =
    (row : Approval)
    → In row rows
    → is_same_entity approval row ≡ true
    → row.level < approval.level
    → row.status ≡ approved

is_approved-eq : (status : ApprovalStatus) → is_approved status ≡ true → status ≡ approved
is_approved-eq approved h = refl
is_approved-eq pending h = cc
is_approved-eq rejected h = cc
is_approved-eq delegated h = cc
is_approved-eq escalated h = cc

not_blocked :
    (approval : Approval) (rows : List Approval)
    → any (blocks approval) rows ≡ false
    → AreApprovedBefore approval rows
not_blocked approval rows h row m same lower =
    let free = any-none (blocks approval) rows row h m in
    is_approved-eq row.status (ground (arith, free, same, lt→ltb row.level approval.level lower))

pub get_approval-In :
    (org_id id : ℕ) (rows : List Approval) (row : Approval)
    → get_approval org_id id rows ≡ ok row
    → In row rows × (row.id ≡ id) × (row.org_id ≡ org_id)
unfolding get_approval
get_approval-In org_id id rows row h = elim (Option-cases (find (has_id id) rows)) [
  | inl e ↦ let none_found : err not_found ≡ ok row = rw (get_approval, e) at h in cc
  | inr (found, e) ↦
      let (m, same_id) = find-In (has_id id) rows found e in
      let at_found : (if found.org_id == org_id then ok found else err not_found) ≡ ok row =
        rw (get_approval, e) at h in
      elim (Bool-cases (found.org_id == org_id)) [
        | inl same ↦
            let eq : ok found ≡ ok row = rw same at at_found in
            let found_is_row : found ≡ row = cc in
            subst (λ r. In r rows × (r.id ≡ id) × (r.org_id ≡ org_id)) found_is_row
              (m, ground (arith, same_id), ground (arith, same))
        | inr other ↦ let refused : err not_found ≡ ok row = rw other at at_found in cc
      ]
]

pub approve_returns :
    (org_id id approver_id : ℕ) (decision : String) (comment : Option String) (now : Option ℤ)
    (db db' : ApprovalsDb) (row' : Approval)
    → parse_decision decision ≡ ok approve
    → decide_approval org_id id approver_id decision comment now db ≡ ok (row', db')
    → (row : Approval) × (get_approval org_id id db.approvals ≡ ok row)
      × (is_open row.status ≡ true)
      × AreApprovedBefore row db.approvals
      × (row' ≡ decided approved approver_id (time_or now db.clock) comment row)
      × (db'.approvals
          ≡ update_where
              (has_id id)
              (decided approved approver_id (time_or now db.clock) comment)
              db.approvals)
unfolding decide_approval
approve_returns org_id id approver_id decision comment now db db' row' reads h =
    elim (Result-cases (get_approval org_id id db.approvals)) [
      | inr (e, refused) ↦
          let r : err e ≡ ok (row', db') = rw (decide_approval, reads, refused) at h in cc
      | inl (row, found) ↦ elim (Bool-cases (is_open row.status)) [
        | inr closed ↦
            let r : err conflict ≡ ok (row', db') =
              rw (decide_approval, reads, found, closed) at h in
            cc
        | inl open_ ↦ elim (Bool-cases (any (blocks row) db.approvals)) [
          | inl stops ↦
              let r : err conflict ≡ ok (row', db') =
                rw (decide_approval, reads, found, open_, stops) at h in
              cc
          | inr free ↦
              let after = decided approved approver_id (time_or now db.clock) comment in
              let r : ok (
                after row,
                record db { approvals = update_where (has_id id) after db.approvals },
              )
                  ≡ ok (row', db') =
                rw (decide_approval, reads, found, open_, free) at h in
              let pair = ok-inj r in
              (
                row,
                found,
                open_,
                not_blocked row db.approvals free,
                sym (ap (λ p. p.0) pair),
                sym (ap (λ p. p.1.approvals) pair),
              )
        ]
      ]
    ]

-- An approval is given only to an open row of the organization, whose earlier levels are all
-- approved, and it changes that row alone.
pub decide_approval-approves :
    (org_id id approver_id : ℕ) (comment : Option String) (now : Option ℤ) (db db' : ApprovalsDb)
    (row' : Approval)
    → decide_approval org_id id approver_id "approve" comment now db ≡ ok (row', db')
    → (row : Approval) × (get_approval org_id id db.approvals ≡ ok row)
      × (is_open row.status ≡ true)
      × AreApprovedBefore row db.approvals
      × (row' ≡ decided approved approver_id (time_or now db.clock) comment row)
      × (db'.approvals
          ≡ update_where
              (has_id id)
              (decided approved approver_id (time_or now db.clock) comment)
              db.approvals)
unfolding parse_decision
decide_approval-approves org_id id approver_id comment now db db' row' h =
    approve_returns org_id id approver_id "approve" comment now db db' row' refl h

-- When a row is approved, the earlier levels of its chain are approved already.
pub decide_approval-approved_before :
    (org_id id approver_id : ℕ) (comment : Option String) (now : Option ℤ) (db : ApprovalsDb)
    (approval earlier : Approval) {r : Approval × ApprovalsDb}
    → get_approval org_id id db.approvals ≡ ok approval
    → decide_approval org_id id approver_id "approve" comment now db ≡ ok r
    → In earlier db.approvals
    → is_same_entity approval earlier ≡ true
    → earlier.level < approval.level
    → earlier.status ≡ approved
decide_approval-approved_before org_id id approver_id comment now db approval earlier {r} at_id h m
      same lower =
    let (row, found, _, before, _, _) =
      decide_approval-approves org_id id approver_id comment now db r.1 r.0 h in
    let eq : row ≡ approval = ok-inj (sym found ∙ at_id) in
    before earlier m (subst (λ x. is_same_entity x earlier ≡ true) (sym eq) same)
      (subst (λ (x : Approval). earlier.level < x.level) (sym eq) lower)

-- While an earlier level is not approved, and a delegated row never is, no approval is given.
pub decide_approval-blocked :
    (org_id id approver_id : ℕ) (comment : Option String) (now : Option ℤ) (db : ApprovalsDb)
    (approval row : Approval)
    → get_approval org_id id db.approvals ≡ ok approval
    → In row db.approvals
    → is_same_entity approval row ≡ true
    → row.level < approval.level
    → is_approved row.status ≡ false
    → decide_approval org_id id approver_id "approve" comment now db ≡ err conflict
unfolding decide_approval parse_decision
decide_approval-blocked org_id id approver_id comment now db approval row found m same lower
      not_yet =
    let stops : any (blocks approval) db.approvals ≡ true =
      any-In (blocks approval) db.approvals row m
        (ground (arith, same, not_yet, lt→ltb row.level approval.level lower)) in
    elim (Bool-cases (is_open approval.status)) [
      | inl open_ ↦ rw (found, open_, stops) refl
      | inr closed ↦ rw (found, closed) refl
    ]
