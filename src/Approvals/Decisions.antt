-- ===== src/Approvals/Decisions.antt =====
-- `decide_approval` of backend/app/services/approvals.py.
use text.Mathlib.Text.{◌==◌ as str_eq}
use vyaparaflowai.Prelude.{
  ℕ, Bool, not, ◌&&◌, Option, none, some, List, String, ◌==◌, ltb, if◌then◌else◌, any, find,
}
use vyaparaflowai.Prelude.Int.{ℤ}
use vyaparaflowai.Errors.{Result, ok, err, validation, not_found, conflict, ◌>>=◌, ◌>>◌, raise_if}
use vyaparaflowai.Approvals.Chain.{
  ApprovalStatus, approved, rejected, Approval, ApprovalsDb, is_open, is_approved, is_same_entity,
  update_where, has_id,
}
use vyaparaflowai.Approvals.Comments.{append_comment, time_or}

pub data Decision : Type 0 where
  approve reject : Decision

-- `decision not in (DECISION_APPROVE, DECISION_REJECT)`
unfoldable pub parse_decision : String → Result Decision
parse_decision text =
    if str_eq text "approve"
    then ok approve
    else if str_eq text "reject"
    then ok reject
    else err validation

-- `session.get`, and the check of the organization.
unfoldable pub get_approval : ℕ → ℕ → List Approval → Result Approval
get_approval org_id approval_id rows = elim (find (has_id approval_id) rows) [
  | none ↦ err not_found
  | some row ↦ if row.org_id == org_id then ok row else err not_found
]

-- A row of an earlier level that is not approved.
abbrev pub blocks : Approval → Approval → Bool
blocks approval row =
    is_same_entity approval row && (ltb row.level approval.level && not (is_approved row.status))

abbrev pub decided : ApprovalStatus → ℕ → ℤ → Option String → Approval → Approval
decided status approver_id now comment row = record row {
  status = status;
  approver_id = some approver_id;
  decided_at = some now;
  comment = append_comment row.comment comment;
}

abbrev pub cascades : Approval → Approval → Bool
cascades approval row =
    is_same_entity approval row && (not (has_id approval.id row) && is_open row.status)

abbrev pub cascaded : ℤ → Approval → Approval
cascaded now row = record row {
  status = rejected;
  decided_at = some now;
  comment =
      append_comment row.comment (some "auto-rejected: an earlier approval level was rejected");
}

unfoldable pub decide_approval :
    (org_id approval_id approver_id : ℕ)
    → String
    → Option String
    → Option ℤ
    → ApprovalsDb
    → Result (Approval × ApprovalsDb)
decide_approval org_id approval_id approver_id decision comment now db = do
  choice ← parse_decision decision
  approval ← get_approval org_id approval_id db.approvals
  raise_if (not (is_open approval.status)) conflict
  let time = time_or now db.clock
  elim choice [
    | approve ↦ do
      raise_if (any (blocks approval) db.approvals) conflict
      let after = decided approved approver_id time comment
      ok (
        after approval,
        record db { approvals = update_where (has_id approval_id) after db.approvals },
      )
    | reject ↦
        let after = decided rejected approver_id time comment in
        ok (
          after approval,
          record db {
            approvals =
                update_where (cascades approval) (cascaded time)
                  (update_where (has_id approval_id) after db.approvals);
          },
        )
  ]
