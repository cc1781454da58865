-- ===== src/Approvals/Handover.antt =====
-- `delegate_approval` and `escalate_overdue_approvals` of backend/app/services/approvals.py.
use Prim.Native.String.{◌++◌ as str_append}
use vyaparaflowai.Prelude.{
  ℕ, Bool, false, not, ◌&&◌, Option, none, some, List, [], ◌∷◌, ◌++◌, map, String, ◌==◌, filter,
}
use vyaparaflowai.Prelude.Int.{ℤ, pos, ◌+ℤ◌, ◌-ℤ◌, ltb_ℤ}
use vyaparaflowai.Errors.{Result, ok, conflict, ◌>>=◌, ◌>>◌, raise_if}
use vyaparaflowai.Approvals.Chain.{
  pending, delegated, escalated, Approval, ApprovalsDb, is_open, is_pending, update_where, has_id,
  find_role_user_id,
}
use vyaparaflowai.Approvals.Decisions.{get_approval}
use vyaparaflowai.Approvals.Comments.{append_comment, Texts, time_or}

-- `sla_due_at - created_at`, or the default of 48 hours.
abbrev pub sla_window : Approval → ℤ
sla_window row = elim row.sla_due_at [ none ↦ pos 172800 | some due ↦ due -ℤ row.created_at ]

abbrev pub is_overdue : ℕ → ℤ → Approval → Bool
is_overdue org_id as_of row =
    row.org_id == org_id
    && is_pending row.status
    && elim row.sla_due_at [ none ↦ false | some due ↦ ltb_ℤ due as_of ]

module _ (texts : Texts) where
  abbrev pub handed_over : ℕ → ℤ → Option String → Approval → Approval
  handed_over to_approver_id now comment row = record row {
    status = delegated;
    decided_at = some now;
    comment = append_comment row.comment (some (texts.delegation_text to_approver_id comment));
  }

  abbrev pub delegate_row : ℕ → ℕ → ℤ → ℤ → Approval → Approval
  delegate_row new_id to_approver_id now clock row = record {
    id = new_id;
    org_id = row.org_id;
    entity_type = row.entity_type;
    entity_id = row.entity_id;
    level = row.level;
    approver_id = some to_approver_id;
    status = pending;
    sla_due_at = some (now +ℤ sla_window row);
    decided_at = none;
    created_at = clock;
    comment = some (str_append "delegated from approval " (texts.id_text row.id));
  }

  -- The new row is of the organization of the approval, which the check has compared.
  unfoldable pub delegate_approval :
      (org_id approval_id to_approver_id new_id : ℕ)
      → Option String
      → Option ℤ
      → ApprovalsDb
      → Result (Approval × ApprovalsDb)
  delegate_approval org_id approval_id to_approver_id new_id comment now db = do
    approval ← get_approval org_id approval_id db.approvals
    raise_if (not (is_open approval.status)) conflict
    let time = time_or now db.clock
    let row = delegate_row new_id to_approver_id time db.clock approval
    ok (
      row,
      record db {
        approvals =
            update_where (has_id approval_id) (handed_over to_approver_id time comment) db.approvals
            ++ row ∷ [];
      },
    )

  abbrev pub escalation_note : Option ℕ → String
  escalation_note (some owner_id) =
      str_append "SLA breached, escalated to owner " (texts.id_text owner_id)
  escalation_note none = "SLA breached, escalated (no owner-role user found to reassign to)"

  abbrev pub escalate : Option ℕ → Approval → Approval
  escalate owner_id row = record row {
    status = escalated;
    comment = append_comment row.comment (some (escalation_note owner_id));
    approver_id = elim owner_id [ none ↦ row.approver_id | some user ↦ some user ];
  }

  unfoldable pub escalate_overdue_approvals :
      ℕ → Option ℤ → ApprovalsDb → List Approval × ApprovalsDb
  escalate_overdue_approvals org_id as_of db =
      let time = time_or as_of db.clock in
      let owner_id = find_role_user_id org_id "Owner" db in
      (
        map (escalate owner_id) (filter (is_overdue org_id time) db.approvals),
        record db {
          approvals = update_where (is_overdue org_id time) (escalate owner_id) db.approvals;
        },
      )
