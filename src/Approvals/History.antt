-- ===== src/Approvals/History.antt =====
-- The chains through any sequence of the operations: what is decided or handed over stays as it is.
use vyaparaflowai.Prelude.{
  ℕ, ◌<◌, ◌≡◌, refl, sym, subst, ap, inl, inr, true, false, Option, String, arith, In, Bool-cases,
  any,
}
use vyaparaflowai.Prelude.Int.{ℤ}
use vyaparaflowai.Errors.{ok, err, conflict, ok-inj, Result-cases}
use vyaparaflowai.Approvals.Rules.{determine_approval_chain}
use vyaparaflowai.Approvals.Chain.{
  approved, rejected, delegated, Approval, ApprovalsDb, is_open, is_same_entity, update_where,
  has_id, find_role_user_id,
}
use vyaparaflowai.Approvals.Comments.{Texts, time_or, belongs}
use vyaparaflowai.Approvals.Creation.{
  ChainRequest, CreateApprovalChainResult, create_approval_chain,
}
use vyaparaflowai.Approvals.Decisions.{
  approve, reject, parse_decision, get_approval, decided, cascades, cascaded, decide_approval,
}
use vyaparaflowai.Approvals.Handover.{
  delegate_approval, is_overdue, escalate, escalate_overdue_approvals,
}
use vyaparaflowai.Approvals.Gate.{decide_approval-blocked, approve_returns}
use vyaparaflowai.Approvals.Keys.{
  UniqueIds, In-update_where, In-append, UniqueIds-update_where, settled_elsewhere,
}
use vyaparaflowai.Approvals.Cascade.{reject_returns}

-- One call of an operation that returns. A call that adds rows commits only if the keys stay unique.
pub data Step (texts : Texts) : ApprovalsDb → ApprovalsDb → Type 0 where
  created :
      {db db' : ApprovalsDb} (request : ChainRequest) (new_id : ℕ → ℕ)
      (result : CreateApprovalChainResult)
      → create_approval_chain texts request new_id db ≡ ok (result, db')
      → UniqueIds db'.approvals
      → Step texts db db'
  decided_on :
      {db db' : ApprovalsDb} (org_id id approver_id : ℕ) (decision : String)
      (comment : Option String) (now : Option ℤ) (row : Approval)
      → decide_approval org_id id approver_id decision comment now db ≡ ok (row, db')
      → Step texts db db'
  delegated_to :
      {db db' : ApprovalsDb} (org_id id to_approver_id new_id : ℕ) (comment : Option String)
      (now : Option ℤ) (row : Approval)
      → delegate_approval texts org_id id to_approver_id new_id comment now db ≡ ok (row, db')
      → UniqueIds db'.approvals
      → Step texts db db'
  escalated_all :
      {db : ApprovalsDb} (org_id : ℕ) (as_of : Option ℤ)
      → Step texts db (escalate_overdue_approvals texts org_id as_of db).1

pub data Steps (texts : Texts) : ApprovalsDb → ApprovalsDb → Type 0 where
  done : {db : ApprovalsDb} → Steps texts db db
  then_step :
      {db db' db'' : ApprovalsDb} → Step texts db db' → Steps texts db' db'' → Steps texts db db''

module _ (texts : Texts) where
  -- What a call or a sequence of calls keeps.
  abbrev pub Keeps : ApprovalsDb → ApprovalsDb → Type 0
  Keeps db db' =
      UniqueIds db'.approvals
      × ((row : Approval) → In row db.approvals → is_open row.status ≡ false → In row db'.approvals)

  create-Keeps :
      (request : ChainRequest) (new_id : ℕ → ℕ) (db db' : ApprovalsDb)
      (result : CreateApprovalChainResult)
      → create_approval_chain texts request new_id db ≡ ok (result, db')
      → UniqueIds db'.approvals
      → Keeps db db'
  unfolding create_approval_chain
  create-Keeps request new_id db db' result h unique =
      let plan =
        determine_approval_chain request.amount request.category request.supplier_risk_score in
      elim (Bool-cases (any (belongs request.entity) db.approvals)) [
        | inl e ↦ let r : err conflict ≡ ok (result, db') = rw (create_approval_chain, e) at h in cc
        | inr e ↦ elim (Bool-cases plan.auto_approved) [
          | inl auto ↦
              let r = rw (create_approval_chain, e, auto) at h in
              let eq = ap (λ p. p.1.approvals) (ok-inj r) in
              (unique, λ row m closed. subst (In row) eq m)
          | inr asks ↦
              let r = rw (create_approval_chain, e, asks) at h in
              let eq = ap (λ p. p.1.approvals) (ok-inj r) in
              (unique, λ row m closed. subst (In row) eq (In-append db.approvals _ row m))
        ]
      ]

  decide-Keeps :
      (org_id id approver_id : ℕ) (decision : String) (comment : Option String) (now : Option ℤ)
      (db db' : ApprovalsDb) (row : Approval)
      → UniqueIds db.approvals
      → decide_approval org_id id approver_id decision comment now db ≡ ok (row, db')
      → Keeps db db'
  unfolding decide_approval
  decide-Keeps org_id id approver_id decision comment now db db' row unique h =
      elim (Result-cases (parse_decision decision)) [
        | inr (e, refused) ↦
            let r : err e ≡ ok (row, db') = rw (decide_approval, refused) at h in cc
        | inl (approve, reads) ↦
            let (found, at_id, open_, _, _, eq) =
              approve_returns org_id id approver_id decision comment now db db' row reads h in
            let after = decided approved approver_id (time_or now db.clock) comment in
            (
              subst UniqueIds (sym eq)
                  (UniqueIds-update_where (has_id id) after (λ r. refl) db.approvals unique),
              λ old m closed. subst (In old) (sym eq) (
                  In-update_where (has_id id) after db.approvals old m (
                    settled_elsewhere db.approvals org_id id found old unique at_id open_ m
                      closed)),
            )
        | inl (reject, reads) ↦
            let (found, at_id, open_, _, eq) =
              reject_returns org_id id approver_id decision comment now db db' row reads h in
            let after = decided rejected approver_id (time_or now db.clock) comment in
            let cascade = cascaded (time_or now db.clock) in
            let first = update_where (has_id id) after db.approvals in
            (
              subst UniqueIds (sym eq) (
                  UniqueIds-update_where (cascades found) cascade (λ r. refl) first
                    (UniqueIds-update_where (has_id id) after (λ r. refl) db.approvals unique)),
              λ old m closed. subst (In old) (sym eq) (
                  In-update_where (cascades found) cascade first old
                    (In-update_where (has_id id) after db.approvals old m (
                      settled_elsewhere db.approvals org_id id found old unique at_id open_ m
                        closed))
                    (ground (arith, closed))),
            )
      ]

  delegate-Keeps :
      (org_id id to_approver_id new_id : ℕ) (comment : Option String) (now : Option ℤ)
      (db db' : ApprovalsDb) (row : Approval)
      → UniqueIds db.approvals
      → delegate_approval texts org_id id to_approver_id new_id comment now db ≡ ok (row, db')
      → UniqueIds db'.approvals
      → Keeps db db'
  unfolding delegate_approval
  delegate-Keeps org_id id to_approver_id new_id comment now db db' row unique h unique' =
      elim (Result-cases (get_approval org_id id db.approvals)) [
        | inr (e, refused) ↦
            let r : err e ≡ ok (row, db') = rw (delegate_approval, refused) at h in cc
        | inl (found, at_id) ↦ elim (Bool-cases (is_open found.status)) [
          | inr closed ↦
              let r : err conflict ≡ ok (row, db') = rw (delegate_approval, at_id, closed) at h in
              cc
          | inl open_ ↦
              let r = rw (delegate_approval, at_id, open_) at h in
              let eq = ap (λ p. p.1.approvals) (ok-inj r) in
              (
                unique',
                λ old m closed. subst (In old) eq (
                    In-append _ _ old (
                      In-update_where (has_id id) _ db.approvals old m (
                        settled_elsewhere db.approvals org_id id found old unique at_id open_ m
                          closed))),
              )
        ]
      ]

  not_overdue :
      (org_id : ℕ) (time : ℤ) (row : Approval)
      → is_open row.status ≡ false
      → is_overdue org_id time row ≡ false
  not_overdue org_id time row closed = ground (arith, closed)

  escalate-Keeps :
      (org_id : ℕ) (as_of : Option ℤ) (db : ApprovalsDb)
      → UniqueIds db.approvals
      → Keeps db (escalate_overdue_approvals texts org_id as_of db).1
  unfolding escalate_overdue_approvals
  escalate-Keeps org_id as_of db unique =
      let time = time_or as_of db.clock in
      let change = escalate texts (find_role_user_id org_id "Owner" db) in
      (
        UniqueIds-update_where (is_overdue org_id time) change (λ r. refl) db.approvals unique,
        λ row m closed.
            In-update_where (is_overdue org_id time) change db.approvals row m
              (not_overdue org_id time row closed),
      )

  Step-Keeps : {db db' : ApprovalsDb} → UniqueIds db.approvals → Step texts db db' → Keeps db db'
  Step-Keeps unique (created request new_id result h unique') =
      create-Keeps request new_id _ _ result h unique'
  Step-Keeps unique (decided_on org_id id approver_id decision comment now row h) =
      decide-Keeps org_id id approver_id decision comment now _ _ row unique h
  Step-Keeps unique (delegated_to org_id id to_approver_id new_id comment now row h unique') =
      delegate-Keeps org_id id to_approver_id new_id comment now _ _ row unique h unique'
  Step-Keeps unique (escalated_all org_id as_of) = escalate-Keeps org_id as_of _ unique

  pub Steps-Keeps :
      {db db' : ApprovalsDb} → UniqueIds db.approvals → Steps texts db db' → Keeps db db'
  Steps-Keeps unique done = (unique, λ row m closed. m)
  Steps-Keeps unique (then_step first rest) =
      let (unique', keeps) = Step-Keeps unique first in
      let (unique'', later) = Steps-Keeps unique' rest in
      (unique'', λ row m closed. later row (keeps row m closed) closed)

  -- With unique keys, a row that is approved, rejected or delegated stays in the table as it is, to
  -- the last field, whatever operations return afterwards, in any order.
  pub settled_row-kept :
      {db db' : ApprovalsDb} (row : Approval)
      → UniqueIds db.approvals
      → Steps texts db db'
      → In row db.approvals
      → is_open row.status ≡ false
      → In row db'.approvals
  settled_row-kept row unique steps m closed = (Steps-Keeps unique steps).1 row m closed

  -- With unique keys, once a row is delegated, no row of a later level of its chain is ever approved again, whatever
  -- is called in between: the delegated row counts as a level that is not approved.
  pub delegated-blocks_for_ever :
      {db db' : ApprovalsDb}
      → UniqueIds db.approvals
      → Steps texts db db'
      → (row approval : Approval) → In row db.approvals
      → row.status ≡ delegated
      → (org_id id approver_id : ℕ) (comment : Option String) (now : Option ℤ)
      → get_approval org_id id db'.approvals ≡ ok approval
      → is_same_entity approval row ≡ true
      → row.level < approval.level
      → decide_approval org_id id approver_id "approve" comment now db' ≡ err conflict
  delegated-blocks_for_ever {db' = db'} unique steps row approval m status org_id id approver_id
        comment now found same lower =
      let (_, keeps) = Steps-Keeps unique steps in
      decide_approval-blocked org_id id approver_id comment now db' approval row found
        (keeps row m (rw status refl)) same lower (rw status refl)
