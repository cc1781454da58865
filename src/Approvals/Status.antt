-- ===== src/Approvals/Status.antt =====
-- `get_approval_chain_status` of backend/app/services/approvals.py.
use vyaparaflowai.Prelude.{
  ℕ, Bool, not, ◌&&◌, Option, List, [], ◌∷◌, map, leb, if◌then◌else◌, any, all, filter,
}
use vyaparaflowai.Prelude.Int.{ℤ}
use vyaparaflowai.Prelude.Sorting.{sorted}
use vyaparaflowai.Approvals.Chain.{
  ApprovalStatus, Approval, ApprovalsDb, is_approved, is_rejected, is_delegated,
}
use vyaparaflowai.Approvals.Comments.{Entity, belongs}

pub data OverallStatus : Type 0 where
  no_chain pending approved rejected : OverallStatus

pub record ApprovalLevelStatus : Type 0 where
  pub approval_id : ℕ
  pub level : ℕ
  pub status : ApprovalStatus
  pub approver_id : Option ℕ
  pub sla_due_at : Option ℤ

abbrev pub level_status : Approval → ApprovalLevelStatus
level_status row = record {
  approval_id = row.id;
  level = row.level;
  status = row.status;
  approver_id = row.approver_id;
  sla_due_at = row.sla_due_at;
}

unfoldable pub overall_status : List Approval → OverallStatus
overall_status [] = OverallStatus.no_chain
overall_status (row ∷ rows) =
    if any (λ r. is_rejected r.status) (row ∷ rows)
    then OverallStatus.rejected
    else if all (λ r. is_approved r.status) (row ∷ rows)
    then OverallStatus.approved
    else OverallStatus.pending

abbrev pub lower_level : Approval → Approval → Bool
lower_level a b = leb a.level b.level

unfoldable pub get_approval_chain_status :
    Entity → ApprovalsDb → OverallStatus × List ApprovalLevelStatus
unfolding overall_status
get_approval_chain_status entity db =
    let rows =
      sorted lower_level
        (filter (λ row. belongs entity row && not (is_delegated row.status)) db.approvals) in
    (overall_status rows, map level_status rows)
